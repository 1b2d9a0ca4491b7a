-- ===== src/Ir/Evaluation.antt =====
-- The types of the values that the interpreter of src/ir/interpreter computes with.
use katara.Prelude.{
  ℕ, ◌≡◌, ◌∙◌, refl, sym, arith, Bool, true, false, ◌==◌, some, [], ◌∷◌, if◌then◌else◌, Bool-cases,
  Option-cases, inl, inr,
}
use katara.Prelude.Int.{ℤ}
use katara.Prelude.Result.{Failure, Result, ok, err}
use katara.Atomics.IntType.{IntType}
use katara.Atomics.Ops.{BinaryOp, ShiftOp}
use katara.Atomics.Cpp.{promoted}
use katara.Atomics.Int.{AtomicInt, same_type}
use katara.Atomics.Compute.{compute, shift, cast_to, binary}
use katara.Ir.Types.{IrType, Constant, Value, type_of, type_of_constant, is_int}
use katara.Ir.Execution.{
  Outcome, then_do, lift, as_bool, as_int, as_pointer, as_func, Values, value_at, insert_or_assign,
  evaluate, evaluate_bool, evaluate_int, evaluate_pointer, evaluate_func,
}

-- No constant is taken for one of another class, and what is returned has the property.
unfoldable pub Sound : {R : Type 0} → (R → Type 0) → Outcome R → Type 0
Sound P Outcome.wrong_class = true ≡ false
Sound P (Outcome.stops why) = Unit {0}
Sound P (Outcome.returns r) = P r

-- By the types `types` of the numbers of values: the constants have the types, and the value is declared with its own.
unfoldable pub Typed : (ℕ → IrType) → Values → Type 0
Typed types [] = Unit {0}
Typed types ((n, c) ∷ vs) = (type_of_constant c ≡ types n) × Typed types vs

unfoldable pub Declares : (ℕ → IrType) → Value → Type 0
Declares types (Value.constant c) = Unit {0}
Declares types (Value.computed v) = v.type ≡ types v.number
Declares types (Value.inherited v origin) = Declares types v

pub then-Sound :
    {R S : Type 0} (P : R → Type 0) (Q : S → Type 0) (o : Outcome R) (k : R → Outcome S)
    → Sound P o
    → ((r : R) → P r → Sound Q (k r))
    → Sound Q (then_do o k)
unfolding Sound
then-Sound P Q Outcome.wrong_class k h f = h
then-Sound P Q (Outcome.stops why) k h f = tt
then-Sound P Q (Outcome.returns r) k h f = f r h

pub lift-Sound :
    {R : Type 0} (P : R → Type 0) (m : Result R) → ((r : R) → m ≡ ok r → P r) → Sound P (lift m)
unfolding Sound
lift-Sound P (ok r) f = f r refl
lift-Sound P (err why) f = tt

pub if-Sound :
    {R : Type 0} (P : R → Type 0) (b : Bool) (o : Outcome R) (why : Failure)
    → (b ≡ true → Sound P o)
    → Sound P (if b then o else Outcome.stops why)
unfolding Sound
if-Sound P true o why h = h refl
if-Sound P false o why h = tt

value_at-Typed :
    (types : ℕ → IrType) (vs : Values) (n : ℕ) (c : Constant)
    → Typed types vs
    → value_at vs n ≡ some c
    → type_of_constant c ≡ types n
unfolding Typed value_at
value_at-Typed types [] n c t e = ground arith
value_at-Typed types ((k, d) ∷ vs) n c (h, t) e = elim (Bool-cases (k == n)) [
  | inl s ↦
      let same : k ≡ n = ground arith in let here : d ≡ c = ground arith in rw (← here, ← same) h
  | inr s ↦ value_at-Typed types vs n c t (ground arith)
]

pub insert-Typed :
    (types : ℕ → IrType) (n : ℕ) (c : Constant) (vs : Values)
    → Typed types vs
    → type_of_constant c ≡ types n
    → Typed types (insert_or_assign n c vs)
unfolding Typed insert_or_assign
insert-Typed types n c [] t h = (h, tt)
insert-Typed types n c ((k, d) ∷ vs) (g, t) h = elim (Bool-cases (k == n)) [
  | inl s ↦ let same : n ≡ k = ground arith in rw s (rw (← same) h, t)
  | inr s ↦ rw s (g, insert-Typed types n c vs t h)
]

pub evaluate-Sound :
    (types : ℕ → IrType) (vs : Values) (v : Value)
    → Typed types vs
    → Declares types v
    → Sound (λ c. type_of_constant c ≡ type_of v) (evaluate vs v)
unfolding evaluate Declares type_of Sound
evaluate-Sound types vs (Value.constant c) t d = refl
evaluate-Sound types vs (Value.computed v) t d = elim (Option-cases (value_at vs v.number)) [
  | inl e ↦ rw (evaluate, Sound, e) tt
  | inr (c, e) ↦ rw (evaluate, Sound, e) (value_at-Typed types vs v.number c t e ∙ sym d)
]
evaluate-Sound types vs (Value.inherited v origin) t d = tt

-- The casts, where the type is the one of the class.
pub as_bool-Sound :
    (c : Constant) → type_of_constant c ≡ IrType.bool → Sound (λ b. Unit {0}) (as_bool c)
unfolding Sound
as_bool-Sound (Constant.bool_constant b) h = tt
as_bool-Sound c h = ground arith

pub as_int-Sound :
    (c : Constant) (t : IrType)
    → type_of_constant c ≡ t
    → is_int t ≡ true
    → Sound (λ a. IrType.int a.type ≡ t) (as_int c)
unfolding Sound
as_int-Sound (Constant.int_constant a) t h k = h
as_int-Sound c t h k = ground arith

pub as_pointer-Sound :
    (c : Constant) → type_of_constant c ≡ IrType.pointer → Sound (λ p. Unit {0}) (as_pointer c)
unfolding Sound
as_pointer-Sound (Constant.pointer_constant p) h = tt
as_pointer-Sound c h = ground arith

pub as_func-Sound :
    (c : Constant) → type_of_constant c ≡ IrType.func → Sound (λ p. Unit {0}) (as_func c)
unfolding Sound
as_func-Sound (Constant.func_constant p) h = tt
as_func-Sound c h = ground arith

module _ (types : ℕ → IrType) (vs : Values) (v : Value) (t : Typed types vs)
    (d : Declares types v) where
  pub evaluate_bool-Sound : type_of v ≡ IrType.bool → Sound (λ b. Unit {0}) (evaluate_bool vs v)
  unfolding evaluate_bool
  evaluate_bool-Sound h =
      then-Sound _ _ (evaluate vs v) as_bool (evaluate-Sound types vs v t d)
        (λ c e. as_bool-Sound c (e ∙ h))

  pub evaluate_int-Sound :
      is_int (type_of v) ≡ true → Sound (λ a. IrType.int a.type ≡ type_of v) (evaluate_int vs v)
  unfolding evaluate_int
  evaluate_int-Sound h =
      then-Sound _ _ (evaluate vs v) as_int (evaluate-Sound types vs v t d)
        (λ c e. as_int-Sound c (type_of v) e h)

  pub evaluate_pointer-Sound :
      type_of v ≡ IrType.pointer → Sound (λ p. Unit {0}) (evaluate_pointer vs v)
  unfolding evaluate_pointer
  evaluate_pointer-Sound h =
      then-Sound _ _ (evaluate vs v) as_pointer (evaluate-Sound types vs v t d)
        (λ c e. as_pointer-Sound c (e ∙ h))

  pub evaluate_func-Sound : type_of v ≡ IrType.func → Sound (λ p. Unit {0}) (evaluate_func vs v)
  unfolding evaluate_func
  evaluate_func-Sound h =
      then-Sound _ _ (evaluate vs v) as_func (evaluate-Sound types vs v t d)
        (λ c e. as_func-Sound c (e ∙ h))

-- Arithmetic keeps the type of the first operand.
cast_to-type : (t : IntType) (m : Result ℤ) (r : AtomicInt) → cast_to t m ≡ ok r → r.type ≡ t
cast_to-type t (ok z) r h = ground arith
cast_to-type t (err why) r h = ground arith

pub compute-type :
    (a : AtomicInt) (op : BinaryOp) (b r : AtomicInt) → compute a op b ≡ ok r → r.type ≡ a.type
unfolding compute
compute-type a op b r h = go (same_type a.type b.type) refl
  where
    go : (s : Bool) → same_type a.type b.type ≡ s → r.type ≡ a.type
    go true s = cast_to-type a.type (binary (promoted a.type) op a.value b.value) r (ground arith)
    go false s = ground arith

pub shift-type :
    (a : AtomicInt) (op : ShiftOp) (b r : AtomicInt) → shift a op b ≡ ok r → r.type ≡ a.type
unfolding shift
shift-type a op b r h = cast_to-type a.type _ r h
