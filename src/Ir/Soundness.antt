-- ===== src/Ir/Soundness.antt =====
-- The instructions of src/ir/interpreter/interpreter.cc on values that have their types.
use katara.Prelude.{
  ℕ, ◌≡◌, ◌∙◌, refl, sym, ap, arith, Bool, true, ◌==◌, List, [], ◌∷◌, Bool-cases, inl, inr,
}
use katara.Prelude.Int.{◌+ℤ◌}
use katara.Prelude.Result.{failed, Result, ok}
use katara.Atomics.IntType.{i64}
use katara.Atomics.Ops.{BinaryOp, CompareOp, ShiftOp}
use katara.Atomics.Cpp.{arith_result}
use katara.Atomics.Int.{AtomicInt, as_int64, can_convert_to, convert_to, bool_convert_to}
use katara.Atomics.Compute.{can_compute, can_compare, compute, compare, shift}
use katara.Ir.Types.{IrType, Constant, Computed, Value, type_of, type_of_constant, is_int}
use katara.Ir.Execution.{
  Outcome, then_do, lift, as_bool, as_int, evaluate, evaluate_int, evaluate_pointer, evaluate_func,
  State, put, convert, put_int, put_bool, put_pointer, with_ints, converts, test_nil,
  execute_mov_instr, execute_phi_instr, execute_conversion, execute_int_binary_instr,
  execute_int_compare_instr, execute_int_shift_instr, execute_pointer_offset_instr,
  execute_nil_test_instr,
}
use katara.Ir.Evaluation.{
  Sound, Typed, Declares, then-Sound, lift-Sound, if-Sound, insert-Typed, evaluate-Sound,
  evaluate_int-Sound, evaluate_pointer-Sound, evaluate_func-Sound, as_bool-Sound, as_int-Sound,
  compute-type, shift-type,
}

-- The inherited values are declared, and have the type.
unfoldable pub AllDeclared : (ℕ → IrType) → IrType → List (Value × ℕ) → Type 0
unfolding type_of
AllDeclared types u [] = Unit {0}
AllDeclared types u ((v, origin) ∷ args) =
    (Declares types v × (type_of v ≡ u)) × AllDeclared types u args

module _ (types : ℕ → IrType) where
  -- The state that an instruction returns has values of their types.
  abbrev pub Keeps : Outcome State → Type 0
  Keeps = Sound (λ s. Typed types s.values)

  -- The result is declared with its type.
  abbrev pub Defines : Computed → Type 0
  Defines r = r.type ≡ types r.number

  module _ (s : State) (t : Typed types s.values) where
    pub put-Keeps :
        (r : Computed) (c : Constant)
        → Defines r
        → type_of_constant c ≡ r.type
        → Keeps (Outcome.returns (put s r c))
    unfolding put Sound
    put-Keeps r c d h = insert-Typed types r.number c s.values t (h ∙ d)

    pub mov-Keeps :
        (r : Computed) (a : Value)
        → Defines r
        → Declares types a
        → type_of a ≡ r.type
        → Keeps (execute_mov_instr s r a)
    unfolding execute_mov_instr
    mov-Keeps r a d e h =
        then-Sound _ _ (evaluate s.values a) _ (evaluate-Sound types s.values a t e)
          (λ c k. put-Keeps r c d (k ∙ h))

    ints-Keeps :
        (a b : Value) (k : AtomicInt → AtomicInt → Outcome State)
        → Declares types a
        → Declares types b
        → is_int (type_of a) ≡ true
        → is_int (type_of b) ≡ true
        → ((x y : AtomicInt) → IrType.int x.type ≡ type_of a → Keeps (k x y))
        → Keeps (with_ints s a b k)
    unfolding with_ints
    ints-Keeps a b k da db ia ib f =
        then-Sound _ _ (evaluate_int s.values a) _ (evaluate_int-Sound types s.values a t da ia)
          (λ x e.
            then-Sound _ _ (evaluate_int s.values b) (k x)
              (evaluate_int-Sound types s.values b t db ib) (λ y g. f x y e))

    put_int-Keeps :
        (r : Computed) (m : Result AtomicInt)
        → Defines r
        → ((x : AtomicInt) → m ≡ ok x → IrType.int x.type ≡ r.type)
        → Keeps (put_int s r m)
    unfolding put_int
    put_int-Keeps r m d f =
        then-Sound _ _ (lift m) _ (lift-Sound (λ x. IrType.int x.type ≡ r.type) m f)
          (λ x h. put-Keeps r (Constant.int_constant x) d h)

    put_bool-Keeps :
        (r : Computed) (m : Result Bool) → Defines r → r.type ≡ IrType.bool → Keeps (put_bool s r m)
    unfolding put_bool
    put_bool-Keeps r m d h =
        then-Sound _ _ (lift m) _ (lift-Sound (λ x. Unit {0}) m (λ x e. tt))
          (λ x k. put-Keeps r (Constant.bool_constant x) d (sym h))

    pub binary-Keeps :
        (r : Computed) (op : BinaryOp) (a b : Value)
        → Defines r
        → Declares types a
        → Declares types b
        → is_int (type_of a) ≡ true
        → is_int (type_of b) ≡ true
        → type_of a ≡ r.type
        → Keeps (execute_int_binary_instr s r op a b)
    unfolding execute_int_binary_instr
    binary-Keeps r op a b d da db ia ib h = ints-Keeps a b _ da db ia ib (λ x y e.
        if-Sound _ (can_compute x y) _ failed (λ c.
          put_int-Keeps r (compute x op y) d
            (λ z k. ap IrType.int (compute-type x op y z k) ∙ e ∙ h)))

    pub compare-Keeps :
        (r : Computed) (op : CompareOp) (a b : Value)
        → Defines r
        → Declares types a
        → Declares types b
        → is_int (type_of a) ≡ true
        → is_int (type_of b) ≡ true
        → r.type ≡ IrType.bool
        → Keeps (execute_int_compare_instr s r op a b)
    unfolding execute_int_compare_instr
    compare-Keeps r op a b d da db ia ib h = ints-Keeps a b _ da db ia ib (λ x y e.
        if-Sound _ (can_compare x y) _ failed (λ c. put_bool-Keeps r (compare x op y) d h))

    pub shift-Keeps :
        (r : Computed) (op : ShiftOp) (a b : Value)
        → Defines r
        → Declares types a
        → Declares types b
        → is_int (type_of a) ≡ true
        → is_int (type_of b) ≡ true
        → type_of a ≡ r.type
        → Keeps (execute_int_shift_instr s r op a b)
    unfolding execute_int_shift_instr
    shift-Keeps r op a b d da db ia ib h = ints-Keeps a b _ da db ia ib (λ x y e.
        put_int-Keeps r (shift x op y) d (λ z k. ap IrType.int (shift-type x op y z k) ∙ e ∙ h))

    pub offset-Keeps :
        (r : Computed) (a b : Value)
        → Defines r
        → Declares types a
        → Declares types b
        → type_of a ≡ IrType.pointer
        → is_int (type_of b) ≡ true
        → r.type ≡ IrType.pointer
        → Keeps (execute_pointer_offset_instr s r a b)
    unfolding execute_pointer_offset_instr put_pointer
    offset-Keeps r a b d da db ia ib h =
        then-Sound _ _ (evaluate_pointer s.values a) _
          (evaluate_pointer-Sound types s.values a t da ia)
          (λ p e.
            then-Sound _ _ (evaluate_int s.values b) _ (evaluate_int-Sound types s.values b t db ib)
              (λ x g.
                then-Sound _ _ (lift (arith_result i64 (p +ℤ as_int64 x))) _
                  (lift-Sound (λ z. Unit {0}) (arith_result i64 (p +ℤ as_int64 x)) (λ z k. tt))
                  (λ z k. put-Keeps r (Constant.pointer_constant z) d (sym h))))

    pub phi-Keeps :
        (previous : ℕ) (r : Computed) (args : List (Value × ℕ))
        → Defines r
        → AllDeclared types r.type args
        → Keeps (execute_phi_instr s previous r args)
    unfolding execute_phi_instr Sound AllDeclared
    phi-Keeps previous r [] d h = tt
    phi-Keeps previous r ((v, origin) ∷ args) d ((e, h), hs) =
        elim (Bool-cases (origin == previous)) [
          | inl c ↦ rw c (mov-Keeps r v d e h)
          | inr c ↦ rw c (phi-Keeps previous r args d hs)
        ]

    -- The conversion of a constant of the operand's type has the type of the result.
    convert-Sound :
        (result operand : IrType) (c : Constant)
        → converts result operand ≡ true
        → type_of_constant c ≡ operand
        → Sound (λ x. type_of_constant x ≡ result) (convert result operand c)
    unfolding Sound convert convert_to bool_convert_to
    convert-Sound IrType.bool (IrType.int u) c k h =
        then-Sound _ _ (as_int c) _ (as_int-Sound c (IrType.int u) h refl) (λ a e. refl)
    convert-Sound (IrType.int w) IrType.bool c k h =
        then-Sound _ _ (as_bool c) _ (as_bool-Sound c h) (λ b e. refl)
    convert-Sound (IrType.int w) (IrType.int u) c k h =
        then-Sound _ _ (as_int c) _ (as_int-Sound c (IrType.int u) h refl) (λ a e.
          if-Sound (λ x. type_of_constant x ≡ IrType.int w) (can_convert_to a w) _ failed
            (λ g. refl))
    convert-Sound result operand c k h = ground arith

    pub conversion-Keeps :
        (r : Computed) (a : Value) → Defines r → Declares types a → Keeps (execute_conversion s r a)
    unfolding execute_conversion
    conversion-Keeps r a d e = if-Sound _ (converts r.type (type_of a)) _ failed (λ k.
        then-Sound _ _ (then_do (evaluate s.values a) (convert r.type (type_of a))) _
          (then-Sound _ (λ x. type_of_constant x ≡ r.type) (evaluate s.values a) _
            (evaluate-Sound types s.values a t e) (λ c h. convert-Sound r.type (type_of a) c k h))
          (λ c h. put-Keeps r c d h))

    test_nil-Sound :
        (u : IrType) (a : Value)
        → type_of a ≡ u
        → Declares types a
        → Sound (λ b. Unit {0}) (test_nil u s.values a)
    unfolding Sound test_nil
    test_nil-Sound IrType.pointer a h e =
        then-Sound _ _ (evaluate_pointer s.values a) _
          (evaluate_pointer-Sound types s.values a t e h) (λ p k. tt)
    test_nil-Sound IrType.func a h e =
        then-Sound _ _ (evaluate_func s.values a) _ (evaluate_func-Sound types s.values a t e h)
          (λ p k. tt)
    test_nil-Sound u a h e = tt

    pub nil_test-Keeps :
        (r : Computed) (a : Value)
        → Defines r
        → Declares types a
        → r.type ≡ IrType.bool
        → Keeps (execute_nil_test_instr s r a)
    unfolding execute_nil_test_instr
    nil_test-Keeps r a d e h =
        then-Sound _ _ (test_nil (type_of a) s.values a) _ (test_nil-Sound (type_of a) a refl e)
          (λ b k. put-Keeps r (Constant.bool_constant b) d (sym h))
