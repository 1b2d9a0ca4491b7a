-- ===== src/Ir/Calls.antt =====
-- src/ir/check/checker.cc: the checks of system calls, calls and returns, and of any instruction.
use katara.Prelude.{ℕ, not, ◌==◌, some, none, List, [], ◌∷◌, ◌++◌, length, if◌then◌else◌}
use katara.Prelude.Int.{ℤ}
use katara.Atomics.IntType.{i64}
use katara.Ir.Types.{IrType, Constant, Computed, Value, type_of, is_equal}
use katara.Ir.Instrs.{Instr, Block, Func, get_func, used_values, is_phi}
use katara.Ir.Issues.{IssueKind, report}
use katara.Ir.Checks.{
  check_inherited, check_mov_instr, check_phi_args, check_bool_not_instr, check_bool_binary_instr,
  check_int_unary_instr, check_int_compare_instr, check_int_binary_instr, check_int_shift_instr,
  check_pointer_offset_instr, check_nil_test_instr, check_malloc_instr, check_load_instr,
  check_store_instr, check_free_instr, check_jump_instr, check_jump_cond_instr,
}

unfoldable pub check_syscall_args : List Value → List IssueKind
unfolding report type_of is_equal
check_syscall_args [] = []
check_syscall_args (a ∷ args) =
    report (not (is_equal (type_of a) (IrType.int i64))) IssueKind.syscall_arg_not_i64
      (check_syscall_args args)

unfoldable pub check_syscall_instr : Computed → Value → List Value → List IssueKind
unfolding report type_of is_equal check_syscall_args
check_syscall_instr r n args =
    report (not (is_equal r.type (IrType.int i64))) IssueKind.syscall_result_not_i64 (
      report (not (is_equal (type_of n) (IrType.int i64))) IssueKind.syscall_number_not_i64
        (check_syscall_args args))

-- Types one by one, of lists of the same length.
unfoldable pub check_types : IssueKind → List IrType → List IrType → List IssueKind
unfolding report is_equal
check_types kind [] expected = []
check_types kind (a ∷ actual) [] = []
check_types kind (a ∷ actual) (e ∷ expected) =
    report (not (is_equal a e)) kind (check_types kind actual expected)

unfoldable pub check_signature : IssueKind → List IrType → List IrType → List IssueKind
unfolding check_types
check_signature kind actual expected =
    if length actual == length expected then check_types kind actual expected else kind ∷ []

unfoldable pub value_types : List Value → List IrType
unfolding type_of
value_types [] = []
value_types (v ∷ vs) = type_of v ∷ value_types vs

unfoldable pub computed_types : List Computed → List IrType
computed_types [] = []
computed_types (v ∷ vs) = v.type ∷ computed_types vs

-- A callee that is computed is not checked further; a constant is read as the number of a function.
unfoldable pub check_callee : List Func → List Computed → ℤ → List Value → List IssueKind
unfolding get_func check_signature value_types computed_types
check_callee funcs rs n args = elim (get_func funcs n) [
  | none ↦ IssueKind.call_static_callee_does_not_exist ∷ []
  | some f ↦
      check_signature IssueKind.call_does_not_match_static_callee (value_types args)
        (computed_types f.args)
      ++ check_signature IssueKind.call_does_not_match_static_callee (computed_types rs)
          f.result_types
]

-- A constant that is no function, which is reported before, is read as one all the same in the code.
unfoldable pub check_static : List Func → List Computed → Value → List Value → List IssueKind
unfolding check_callee
check_static funcs rs (Value.constant (Constant.func_constant n)) args =
    check_callee funcs rs n args
check_static funcs rs v args = []

unfoldable pub check_call_instr : List Func → List Computed → Value → List Value → List IssueKind
unfolding report type_of is_equal check_static
check_call_instr funcs rs f args =
    report (not (is_equal (type_of f) IrType.func)) IssueKind.call_callee_not_func
      (check_static funcs rs f args)

unfoldable pub check_return_instr : Func → List ℕ → List Value → List IssueKind
unfolding report check_signature value_types
check_return_instr f [] args =
    check_signature IssueKind.return_does_not_match_func (value_types args) f.result_types
check_return_instr f (child ∷ children) args =
    IssueKind.control_flow_instr_mismatched_with_block_graph
    ∷ check_signature IssueKind.return_does_not_match_func (value_types args) f.result_types

-- The switch of `CheckInstr`.
unfoldable pub check_kind : List Func → Func → Block → Instr → List IssueKind
unfolding check_mov_instr check_phi_args check_bool_not_instr check_bool_binary_instr
    check_int_unary_instr check_int_compare_instr check_int_binary_instr check_int_shift_instr
    check_pointer_offset_instr check_nil_test_instr check_malloc_instr check_load_instr
    check_store_instr check_free_instr check_jump_instr check_jump_cond_instr check_syscall_instr
    check_call_instr check_return_instr
check_kind funcs func b (Instr.mov r a) = check_mov_instr r a
check_kind funcs func b (Instr.phi r args) = check_phi_args r b.parents args []
check_kind funcs func b (Instr.conversion r a) = []
check_kind funcs func b (Instr.bool_not r a) = check_bool_not_instr r a
check_kind funcs func b (Instr.bool_binary r op x y) = check_bool_binary_instr r x y
check_kind funcs func b (Instr.int_unary r op a) = check_int_unary_instr r a
check_kind funcs func b (Instr.int_compare r op x y) = check_int_compare_instr r x y
check_kind funcs func b (Instr.int_binary r op x y) = check_int_binary_instr r x y
check_kind funcs func b (Instr.int_shift r op x y) = check_int_shift_instr r x y
check_kind funcs func b (Instr.pointer_offset r x y) = check_pointer_offset_instr r x y
check_kind funcs func b (Instr.nil_test r a) = check_nil_test_instr r a
check_kind funcs func b (Instr.malloc r a) = check_malloc_instr r a
check_kind funcs func b (Instr.load r a) = check_load_instr a
check_kind funcs func b (Instr.store a v) = check_store_instr a
check_kind funcs func b (Instr.free a) = check_free_instr a
check_kind funcs func b (Instr.jump d) = check_jump_instr d b.children
check_kind funcs func b (Instr.jump_cond c t f) = check_jump_cond_instr c t f b.children
check_kind funcs func b (Instr.syscall r n args) = check_syscall_instr r n args
check_kind funcs func b (Instr.call rs f args) = check_call_instr funcs rs f args
check_kind funcs func b (Instr.return_instr args) = check_return_instr func b.children args

unfoldable pub check_instr : List Func → Func → Block → Instr → List IssueKind
unfolding check_inherited used_values check_kind
check_instr funcs func b i =
    (if is_phi i then [] else check_inherited (used_values i)) ++ check_kind funcs func b i
