-- ===== src/Atomics/Shifts.antt =====
-- Theorems about `Int::Shift`.
use native.Mathlib.Nat.{one-le-pow}
use katara.Prelude.{
  ℕ, ◌+◌, ◌-◌, ◌*◌, ◌/◌, ◌^◌, ◌≤◌, ◌<◌, ◌≡◌, refl, ap, ◌∙◌, ◌⊎◌, arith, if◌then◌else◌, ltb, lt→ltb,
}
use katara.Prelude.Int.{ℤ, pos, negsuc, ◌≤ℤ◌, ◌*ℤ◌}
use katara.Prelude.Result.{ok, err, undefined}
use katara.Atomics.IntType.{IntType, i8, bit_size_of}
use katara.Atomics.Ops.{ShiftOp}
use katara.Atomics.Cpp.{InRange, promoted}
use katara.Atomics.Int.{AtomicInt}
use katara.Atomics.Compute.{shift, shift_by}
use katara.Atomics.CastLaws.{cast_self, promoted-InRange}
use katara.Atomics.Arithmetic.{int, div-le}

-- Rounding down.
abbrev pub floor_div : ℤ → ℕ → ℤ
floor_div (pos n) m = pos (n / m)
floor_div (negsuc n) m = negsuc (n / m)

floor_div-InRange : (t : IntType) (x : ℤ) (m : ℕ) → InRange t x → InRange t (floor_div x m)
floor_div-InRange i8 (pos n) m h = ground (arith, div-le n m)
floor_div-InRange i8 (negsuc n) m h = ground (arith, div-le n m)
floor_div-InRange _ (pos n) m h = ground (arith, div-le n m)
floor_div-InRange _ (negsuc n) m h = ground (arith, div-le n m)

div_of_product : (n m : ℕ) → 1 ≤ m → n * m / m ≡ n
div_of_product n m h = grind arith

div_below_product : (n m : ℕ) → 1 ≤ m → ((n + 1) * m - 1) / m ≡ n
div_below_product n m h = grind arith

floor_div-*ℤ : (x : ℤ) (m : ℕ) → 1 ≤ m → floor_div (x *ℤ pos m) m ≡ x
unfolding ◌*ℤ◌
floor_div-*ℤ (pos n) m h = ground (arith, div_of_product n m)
floor_div-*ℤ (negsuc n) m h = ground (arith, div_below_product n m)

shift_left_ok :
    (t u : IntType) (x : ℤ) (k : ℕ)
    → k < bit_size_of (promoted t)
    → InRange t (x *ℤ pos (2 ^ k))
    → shift (int t x) ShiftOp.left (int u (pos k)) ≡ ok (int t (x *ℤ pos (2 ^ k)))
unfolding shift shift_by
shift_left_ok t u x k h fits =
    rw (lt→ltb _ _ h)
      (rw (cast_self (promoted t) _ (promoted-InRange t _ fits), cast_self t _ fits))

shift_right_ok :
    (t u : IntType) (x : ℤ) (k : ℕ)
    → InRange t x
    → k < bit_size_of (promoted t)
    → shift (int t x) ShiftOp.right (int u (pos k)) ≡ ok (int t (floor_div x (2 ^ k)))
unfolding shift shift_by
shift_right_ok t u (pos n) k hx h =
    rw (lt→ltb _ _ h) (rw (cast_self t _ (floor_div-InRange t (pos n) (2 ^ k) hx)))
shift_right_ok t u (negsuc n) k hx h =
    rw (lt→ltb _ _ h) (rw (cast_self t _ (floor_div-InRange t (negsuc n) (2 ^ k) hx)))

-- Where the count is below the width of the promoted operand and the type holds the exact product
-- with the power of two, a left shift returns that product, and shifting it right by the same count
-- gives the operand back.
pub shift_left_right :
    (t u : IntType) (x : ℤ) (k : ℕ)
    → k < bit_size_of (promoted t)
    → InRange t (x *ℤ pos (2 ^ k))
    → (r : AtomicInt) × (shift (int t x) ShiftOp.left (int u (pos k)) ≡ ok r)
      × (r.value ≡ x *ℤ pos (2 ^ k))
      × (shift r ShiftOp.right (int u (pos k)) ≡ ok (int t x))
shift_left_right t u x k h fits = (
  int t (x *ℤ pos (2 ^ k)),
  shift_left_ok t u x k h fits,
  refl,
  shift_right_ok t u (x *ℤ pos (2 ^ k)) k fits h
      ∙ ap (λ (z : ℤ). ok (int t z)) (floor_div-*ℤ x (2 ^ k) (one-le-pow k 2 (omega arith))),
)

shift_right_floor :
    (t u : IntType) (x : ℤ) (k : ℕ)
    → InRange t x
    → shift (int t x) ShiftOp.right (int u (pos k)) ≡ (
        if ltb k (bit_size_of (promoted t))
        then ok (int t (floor_div x (2 ^ k)))
        else err undefined)
unfolding shift
shift_right_floor t u x k h = ground (arith, shift_right_ok t u x k h)

-- A count that is negative, or at least the width of the promoted operand, is undefined.
pub shift_undefined :
    (a b : AtomicInt) (op : ShiftOp)
    → (b.value ≤ℤ negsuc 0) ⊎ (pos (bit_size_of (promoted a.type)) ≤ℤ b.value)
    → shift a op b ≡ err undefined
unfolding shift
shift_undefined a b op h = ground arith
