-- ===== src/Ir/Checks.antt =====
-- src/ir/check/checker.cc: the checks of instructions. The types of the values are atomic, so that a conversion has
-- nothing to report.
use katara.Prelude.{ℕ, Bool, not, ◌&&◌, ◌||◌, ◌==◌, List, [], ◌∷◌, length, if◌then◌else◌}
use katara.Interference.Sets.{mem}
use katara.Atomics.IntType.{i64}
use katara.Ir.Types.{IrType, Computed, Value, type_of, is_int, is_equal, is_inherited}
use katara.Ir.Issues.{IssueKind, report}

abbrev has_type : Value → IrType → Bool
unfolding type_of is_equal
has_type v t = is_equal (type_of v) t

unfoldable pub check_inherited : List Value → List IssueKind
unfolding report
check_inherited [] = []
check_inherited (v ∷ vs) =
    report (is_inherited v) IssueKind.non_phi_instr_uses_inherited_value (check_inherited vs)

unfoldable pub check_mov_instr : Computed → Value → List IssueKind
unfolding report type_of is_equal
check_mov_instr r a =
    report (not (is_equal (type_of a) r.type)) IssueKind.mov_instr_mismatched_types []

-- The arguments of a phi instruction, of the origins `seen` before, and then the parents without an argument.
unfoldable pub check_missing_args : List ℕ → List ℕ → List IssueKind
unfolding report
check_missing_args [] seen = []
check_missing_args (p ∷ parents) seen =
    report (not (mem p seen)) IssueKind.phi_instr_has_no_argument_for_parent_block
      (check_missing_args parents seen)

unfoldable pub check_phi_args : Computed → List ℕ → List (Value × ℕ) → List ℕ → List IssueKind
unfolding report check_missing_args type_of is_equal
check_phi_args r parents [] seen = check_missing_args parents seen
check_phi_args r parents ((v, origin) ∷ args) seen =
    let mismatch = not (is_equal (type_of v) r.type) in
    if not (mem origin parents)
    then IssueKind.phi_instr_has_argument_for_non_parent_block
      ∷ report mismatch IssueKind.phi_instr_mismatched_types (check_phi_args r parents args seen)
    else if mem origin seen
    then IssueKind.phi_instr_has_multiple_arguments_for_parent_block
      ∷ report mismatch IssueKind.phi_instr_mismatched_types (check_phi_args r parents args seen)
    else report mismatch IssueKind.phi_instr_mismatched_types
        (check_phi_args r parents args (origin ∷ seen))

unfoldable pub check_bool_not_instr : Computed → Value → List IssueKind
unfolding report has_type
check_bool_not_instr r a =
    report (not (has_type a IrType.bool)) IssueKind.bool_not_operand_not_bool
      (report (not (is_equal r.type IrType.bool)) IssueKind.bool_not_result_not_bool [])

unfoldable pub check_bool_binary_instr : Computed → Value → Value → List IssueKind
unfolding report has_type
check_bool_binary_instr r a b =
    report (not (has_type a IrType.bool)) IssueKind.bool_binary_operand_not_bool (
      report (not (has_type b IrType.bool)) IssueKind.bool_binary_operand_not_bool
        (report (not (is_equal r.type IrType.bool)) IssueKind.bool_binary_result_not_bool []))

unfoldable pub check_int_unary_instr : Computed → Value → List IssueKind
unfolding report has_type
check_int_unary_instr r a = report (not (is_int (type_of a))) IssueKind.int_unary_operand_not_int (
    report (not (is_int r.type)) IssueKind.int_unary_result_not_int
      (report (not (is_equal r.type (type_of a))) IssueKind.int_unary_different_types []))

unfoldable pub check_int_compare_instr : Computed → Value → Value → List IssueKind
unfolding report has_type
check_int_compare_instr r a b =
    report (not (is_int (type_of a))) IssueKind.int_compare_operand_not_int (
      report (not (is_int (type_of b))) IssueKind.int_compare_operand_not_int (
        report (not (is_equal (type_of a) (type_of b))) IssueKind.int_compare_different_types
          (report (not (is_equal r.type IrType.bool)) IssueKind.int_compare_result_not_bool [])))

unfoldable pub check_int_binary_instr : Computed → Value → Value → List IssueKind
unfolding report has_type
check_int_binary_instr r a b =
    report (not (is_int (type_of a))) IssueKind.int_binary_operand_not_int (
      report (not (is_int (type_of b))) IssueKind.int_binary_operand_not_int (
        report (not (is_int r.type)) IssueKind.int_binary_result_not_int (
          report (not (is_equal r.type (type_of a)) || not (is_equal r.type (type_of b)))
            IssueKind.int_binary_different_types [])))

unfoldable pub check_int_shift_instr : Computed → Value → Value → List IssueKind
unfolding report has_type
check_int_shift_instr r a b =
    report (not (is_int (type_of a))) IssueKind.int_shift_operand_not_int (
      report (not (is_int (type_of b))) IssueKind.int_shift_operand_not_int (
        report (not (is_int r.type)) IssueKind.int_shift_result_not_int
          (report (not (is_equal r.type (type_of a))) IssueKind.int_shift_different_types [])))

unfoldable pub check_pointer_offset_instr : Computed → Value → Value → List IssueKind
unfolding report has_type
check_pointer_offset_instr r a b =
    report (not (has_type a IrType.pointer)) IssueKind.pointer_offset_pointer_not_pointer (
      report (not (has_type b (IrType.int i64))) IssueKind.pointer_offset_offset_not_i64 (
        report (not (is_equal r.type IrType.pointer)) IssueKind.pointer_offset_result_not_pointer
          []))

unfoldable pub check_nil_test_instr : Computed → Value → List IssueKind
unfolding report has_type
check_nil_test_instr r a =
    report (not (has_type a IrType.pointer) && not (has_type a IrType.func))
      IssueKind.nil_test_tested_not_pointer_or_func
      (report (not (is_equal r.type IrType.bool)) IssueKind.nil_test_result_not_bool [])

unfoldable pub check_malloc_instr : Computed → Value → List IssueKind
unfolding report has_type
check_malloc_instr r a =
    report (not (has_type a (IrType.int i64))) IssueKind.malloc_size_not_i64
      (report (not (is_equal r.type IrType.pointer)) IssueKind.malloc_result_not_pointer [])

unfoldable pub check_load_instr : Value → List IssueKind
unfolding report has_type
check_load_instr a = report (not (has_type a IrType.pointer)) IssueKind.load_address_not_pointer []

unfoldable pub check_store_instr : Value → List IssueKind
unfolding report has_type
check_store_instr a =
    report (not (has_type a IrType.pointer)) IssueKind.store_address_not_pointer []

unfoldable pub check_free_instr : Value → List IssueKind
unfolding report has_type
check_free_instr a = report (not (has_type a IrType.pointer)) IssueKind.free_address_not_pointer []

-- `children` is a set: a list without repetitions.
unfoldable pub check_jump_instr : ℕ → List ℕ → List IssueKind
unfolding report
check_jump_instr d (child ∷ []) = report (not (child == d)) IssueKind.jump_destination_not_child []
check_jump_instr d children = IssueKind.control_flow_instr_mismatched_with_block_graph ∷ []

unfoldable pub check_destinations : ℕ → ℕ → List ℕ → List IssueKind
unfolding report
check_destinations t f children =
    if t == f
    then IssueKind.jump_cond_has_duplicate_destinations ∷ []
    else report (not (mem t children)) IssueKind.jump_cond_destination_not_child
        (report (not (mem f children)) IssueKind.jump_cond_destination_not_child [])

unfoldable pub check_jump_cond_instr : Value → ℕ → ℕ → List ℕ → List IssueKind
unfolding report has_type check_destinations
check_jump_cond_instr c t f children =
    report (not (has_type c IrType.bool)) IssueKind.jump_cond_condition_not_bool (
      if length children == 2
      then check_destinations t f children
      else IssueKind.control_flow_instr_mismatched_with_block_graph ∷ [])
