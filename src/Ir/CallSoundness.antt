-- ===== src/Ir/CallSoundness.antt =====
-- Calls and returns of src/ir/interpreter/interpreter.cc where src/ir/check/checker.cc finds nothing.
use katara.Prelude.{
  Bool, true, false, ℕ, ◌+◌, ◌≡◌, ◌∙◌, refl, sym, arith, ◌==◌, some, List, [], ◌∷◌, ◌++◌, length,
  Option-cases, Bool-cases, inl, inr,
}
use katara.Prelude.Int.{ℤ}
use katara.Ir.Types.{IrType, Constant, Computed, Value, type_of, type_of_constant}
use katara.Ir.Instrs.{Instr, Block, Func, get_func, get_block, defined_values, used_values}
use katara.Ir.Issues.{IssueKind}
use katara.Ir.Checks.{check_inherited}
use katara.Ir.Calls.{
  check_types, check_signature, value_types, computed_types, check_callee, check_static,
  check_call_instr, check_kind, check_instr,
}
use katara.Ir.Execution.{Outcome, Values, evaluate, evaluate_func, value_at}
use katara.Ir.Machine.{Running, Machine, Frame, next_instr, advance_to_next_instr}
use katara.Ir.Steps.{
  assign, evaluate_all, pass, push_frame, execute_call_instr, return_to, execute_func_exit,
}
use katara.Ir.Evaluation.{Sound, Typed, then-Sound, insert-Typed, evaluate-Sound}
use katara.Ir.Reports.{append-none, same, DeclaresAll}
use katara.Ir.Checked.{DefinesAll, DeclaresInstr}

unfoldable pub constant_types : List Constant → List IrType
constant_types [] = []
constant_types (c ∷ cs) = type_of_constant c ∷ constant_types cs

evaluate_all-Sound :
    (types : ℕ → IrType) (vs : Values) (args : List Value)
    → Typed types vs
    → DeclaresAll types args
    → Sound (λ cs. constant_types cs ≡ value_types args) (evaluate_all vs args)
unfolding evaluate_all value_types constant_types Sound
evaluate_all-Sound types vs [] t d = refl
evaluate_all-Sound types vs (a ∷ args) t (d, ds) =
    then-Sound _ _ (evaluate vs a) _ (evaluate-Sound types vs a t d) (λ c e.
      then-Sound _ _ (evaluate_all vs args) _ (evaluate_all-Sound types vs args t ds)
        (λ cs es. rw (e, es) refl))

types-head : (a b : IrType) (xs ys : List IrType) → a ∷ xs ≡ b ∷ ys → (a ≡ b) × (xs ≡ ys)
types-head a b xs ys h = (ground arith, ground arith)

assign-Typed :
    (types : ℕ → IrType) (overwrite : Bool) (n : ℕ) (c : Constant) (values : Values)
    → Typed types values
    → type_of_constant c ≡ types n
    → Typed types (assign overwrite n c values)
unfolding assign
assign-Typed types true n c values t h = insert-Typed types n c values t h
assign-Typed types false n c values t h = elim (Option-cases (value_at values n)) [
  | inl e ↦ rw (assign, e) (insert-Typed types n c values t h)
  | inr (d, e) ↦ rw (assign, e) t
]

-- As many constants as there are values, of their types.
pass-Typed :
    (types : ℕ → IrType) (overwrite : Bool) (vs : List Computed) (cs : List Constant)
    (values : Values)
    → Typed types values
    → DefinesAll types vs
    → constant_types cs ≡ computed_types vs
    → (passed : Values) × (pass overwrite vs cs values ≡ Outcome.returns passed)
      × Typed types passed
unfolding pass constant_types computed_types
pass-Typed types overwrite [] [] values t d h = (values, refl, t)
pass-Typed types overwrite (v ∷ vs) [] values t d h = (values, refl, t)
pass-Typed types overwrite [] (c ∷ cs) values t d h = ground arith
pass-Typed types overwrite (v ∷ vs) (c ∷ cs) values t (d, ds) h =
    let (e, es) =
      types-head (type_of_constant c) v.type (constant_types cs) (computed_types vs) h in
    pass-Typed types overwrite vs cs (assign overwrite v.number c values)
      (assign-Typed types overwrite v.number c values t (e ∙ d)) ds es

check_types-none :
    (kind : IssueKind) (actual expected : List IrType)
    → length actual ≡ length expected
    → check_types kind actual expected ≡ []
    → actual ≡ expected
unfolding check_types
check_types-none kind [] [] n h = refl
check_types-none kind [] (e ∷ es) n h = ground arith
check_types-none kind (a ∷ as2) [] n h = ground arith
check_types-none kind (a ∷ as2) (e ∷ es) n h =
    let (x, hs) = same a e kind (check_types kind as2 es) h in
    rw (x, check_types-none kind as2 es (omega arith) hs) refl

signature-none :
    (kind : IssueKind) (actual expected : List IrType)
    → check_signature kind actual expected ≡ []
    → actual ≡ expected
unfolding check_signature
signature-none kind actual expected h = elim (Bool-cases (length actual == length expected)) [
  | inl e ↦ check_types-none kind actual expected (ground arith) (rw e at h)
  | inr e ↦ ground arith
]

callee-at :
    (funcs : List Func) (rs : List Computed) (n : ℤ) (args : List Value) (callee : Func)
    → get_func funcs n ≡ some callee
    → check_callee funcs rs n args ≡ []
    → check_signature IssueKind.call_does_not_match_static_callee
          (value_types args)
          (computed_types callee.args)
        ++ check_signature IssueKind.call_does_not_match_static_callee
            (computed_types rs)
            callee.result_types
      ≡ []
unfolding check_callee
callee-at funcs rs n args callee e h = rw (check_callee, e) at h

-- What the checker says of a call of a constant function.
call-none :
    (funcs : List Func) (rs : List Computed) (n : ℤ) (args : List Value) (callee : Func)
    → check_call_instr funcs rs (Value.constant (Constant.func_constant n)) args ≡ []
    → get_func funcs n ≡ some callee
    → (value_types args ≡ computed_types callee.args) × (computed_types rs ≡ callee.result_types)
unfolding check_call_instr check_static
call-none funcs rs n args callee h e =
    let kind = IssueKind.call_does_not_match_static_callee in
    let (x, hs) =
      same (type_of (Value.constant (Constant.func_constant n))) IrType.func
        IssueKind.call_callee_not_func (check_callee funcs rs n args) h in
    let (a, r) =
      append-none (check_signature kind (value_types args) (computed_types callee.args))
        (check_signature kind (computed_types rs) callee.result_types)
        (callee-at funcs rs n args callee e hs) in
    (signature-none kind _ _ a, signature-none kind _ _ r)

-- The values of the frame have their types.
unfoldable pub RunsWith : (ℕ → IrType) → Machine → Type 0
RunsWith types (Machine.running m) = Typed types m.current.computed_values
RunsWith types (Machine.completed exit_code) = Unit {0}

push_frame-Sound :
    (types : ℕ → IrType) (m : Running) (callee : Func) (cs : List Constant)
    → DefinesAll types callee.args
    → constant_types cs ≡ computed_types callee.args
    → Sound (RunsWith types) (push_frame m callee cs)
unfolding push_frame Sound RunsWith Typed
push_frame-Sound types m callee cs d h =
    elim (Option-cases (get_block callee.blocks callee.entry_block)) [
      | inl e ↦ rw (push_frame, Sound, e) tt
      | inr (b, e) ↦
          let (values, p, t) = pass-Typed types false callee.args cs [] tt d h in
          rw (push_frame, Sound, e, p) t
    ]

call_instr-none :
    (funcs : List Func) (func : Func) (b : Block) (rs : List Computed) (f : Value)
    (args : List Value)
    → check_instr funcs func b (Instr.call rs f args) ≡ []
    → check_call_instr funcs rs f args ≡ []
unfolding check_instr check_kind
call_instr-none funcs func b rs f args h =
    (append-none (check_inherited (used_values (Instr.call rs f args)))
      (check_call_instr funcs rs f args) h).1

-- Where the checker reports nothing of a call of a constant function, the values of the caller have the types of their
-- numbers, and the values of the call and the arguments of the function are declared with their types, the call
-- takes no constant for one of another class, and the values that the new frame begins with have their types.
pub checked_call-RunsWith :
    (funcs : List Func) (func : Func) (b : Block) (m : Running) (rs : List Computed) (n : ℤ)
    (args : List Value) (callee : Func) (types callee_types : ℕ → IrType)
    → check_instr funcs func b (Instr.call rs (Value.constant (Constant.func_constant n)) args) ≡ []
    → DeclaresInstr types (Instr.call rs (Value.constant (Constant.func_constant n)) args)
    → Typed types m.current.computed_values
    → get_func funcs n ≡ some callee
    → DefinesAll callee_types callee.args
    → Sound
        (RunsWith callee_types)
        (execute_call_instr funcs m (Value.constant (Constant.func_constant n)) args)
unfolding execute_call_instr evaluate_func evaluate DeclaresInstr used_values Sound
checked_call-RunsWith funcs func b m rs n args callee types callee_types h (ds, (u, us)) t e d =
    let c = call-none funcs rs n args callee (call_instr-none funcs func b rs _ args h) e in
    rw (execute_call_instr, Sound, e)
      (then-Sound _ _ (evaluate_all m.current.computed_values args) (push_frame m callee)
        (evaluate_all-Sound types m.current.computed_values args t us)
        (λ cs k. push_frame-Sound callee_types m callee cs d (k ∙ c.0)))

-- Where the results of a function have its result types, the frame below is at a call of which the checker reports nothing,
-- its values have the types of their numbers, and the values of the call are declared with their types, the
-- program goes on behind the call, with values that have their types.
pub checked_exit-RunsWith :
    (funcs : List Func) (func : Func) (b : Block) (m : Running) (caller : Frame)
    (below : List Frame) (rs : List Computed) (n : ℤ) (args : List Value) (callee : Func)
    (types : ℕ → IrType)
    → m.below ≡ caller ∷ below
    → next_instr caller.exec_point
      ≡ some (Instr.call rs (Value.constant (Constant.func_constant n)) args)
    → check_instr funcs func b (Instr.call rs (Value.constant (Constant.func_constant n)) args) ≡ []
    → get_func funcs n ≡ some callee
    → constant_types m.current.exec_point.results ≡ callee.result_types
    → DeclaresInstr types (Instr.call rs (Value.constant (Constant.func_constant n)) args)
    → Typed types caller.computed_values
    → (next : Running) × (execute_func_exit m ≡ Outcome.returns (Machine.running next))
      × Typed types next.current.computed_values
      × (next.current.exec_point.next_instr_index ≡ caller.exec_point.next_instr_index + 1)
      × (next.below ≡ below)
unfolding execute_func_exit return_to DeclaresInstr defined_values
checked_exit-RunsWith funcs func b m caller below rs n args callee types under at_call h e k
      (ds, us) t =
    let c = call-none funcs rs n args callee (call_instr-none funcs func b rs _ args h) e in
    let (values, p, t') =
      pass-Typed types true rs m.current.exec_point.results caller.computed_values t ds
        (k ∙ sym c.1) in
    let next : Running = record m {
      current = record caller {
        computed_values = values;
        exec_point = advance_to_next_instr caller.exec_point;
      };
      below = below;
    } in
    (next, rw (execute_func_exit, under, at_call, p) refl, t', refl, refl)
