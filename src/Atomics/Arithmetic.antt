-- ===== src/Atomics/Arithmetic.antt =====
-- Theorems about `Int::Compute` and `Int::Shift`.
use katara.Prelude.{
  ℕ, suc, ◌+◌, ◌/◌, ◌%◌, ◌≤◌, ◌<◌, true, ◌≡◌, ◌≢◌, ◌⊎◌, arith, inl, inr, Bool-cases, if◌then◌else◌,
  Option, none, some, ◌==◌,
}
use katara.Prelude.Int.{ℤ, pos, negsuc, ◌+ℤ◌, ◌-ℤ◌, ◌*ℤ◌}
use katara.Prelude.Result.{Result, ok, err}
use katara.Atomics.IntType.{IntType, i8}
use katara.Atomics.Ops.{BinaryOp, ShiftOp}
use katara.Atomics.Cpp.{InRange, promoted, arith_result}
use katara.Atomics.Int.{AtomicInt, IsValid, same_type}
use katara.Atomics.Compute.{
  compute, binary, cast_to, shift, quotient, remainder, divide, divide_rem, magnitude,
}
use katara.Atomics.CastLaws.{cast-InRange, cast_self, promoted-InRange, in_range-true}

abbrev pub int : IntType → ℤ → AtomicInt
int t v = record { type = t; value = v }

cast_to-IsValid :
    (t : IntType) (m : Result ℤ) {r : AtomicInt} → cast_to t m ≡ ok r → (r.type ≡ t) × IsValid r
cast_to-IsValid t (ok z) h = ground (arith, cast-InRange t z)
cast_to-IsValid t (err e) h = cc

-- Whatever `Compute` returns for a binary operation is a valid integer of the type that both
-- operands have.
pub compute-IsValid :
    (a : AtomicInt) (op : BinaryOp) (b : AtomicInt) {r : AtomicInt}
    → compute a op b ≡ ok r
    → (a.type ≡ b.type) × (r.type ≡ a.type) × IsValid r
unfolding compute
compute-IsValid a op b h = elim (Bool-cases (same_type a.type b.type)) [
  | inl e ↦ let (t, v) = cast_to-IsValid a.type _ (rw (e, compute) at h) in (ground arith, t, v)
  | inr e ↦ cc (rw e at h)
]

-- Whatever `Shift` returns is a valid integer of the type of the shifted operand.
pub shift-IsValid :
    (a : AtomicInt) (op : ShiftOp) (b : AtomicInt) {r : AtomicInt}
    → shift a op b ≡ ok r
    → (r.type ≡ a.type) × IsValid r
unfolding shift
shift-IsValid a op b h = cast_to-IsValid a.type _ h

arith_result_fits :
    (t : IntType) (z : ℤ) → InRange t z → cast_to t (arith_result (promoted t) z) ≡ ok (int t z)
arith_result_fits i8 z h = ground (arith, cast_self i8 z)
arith_result_fits t z h = ground (arith, cast_self t z, cast_self (promoted t) z)

quotient-remainder : (a b : ℤ) → b ≢ pos 0 → quotient a b *ℤ b +ℤ remainder a b ≡ a
unfolding quotient remainder ◌*ℤ◌ ◌+ℤ◌
quotient-remainder (pos a) (pos b) h = ground arith
quotient-remainder (pos a) (negsuc b) h = ground arith
quotient-remainder (negsuc a) (pos b) h = ground arith
quotient-remainder (negsuc a) (negsuc b) h = ground arith

magnitude-remainder : (a b : ℤ) → b ≢ pos 0 → magnitude (remainder a b) < magnitude b
unfolding remainder
magnitude-remainder (pos a) (pos b) h = ground arith
magnitude-remainder (pos a) (negsuc b) h = ground arith
magnitude-remainder (negsuc a) (pos b) h = ground arith
magnitude-remainder (negsuc a) (negsuc b) h = ground arith

pub div-le : (x y : ℕ) → x / y ≤ x
div-le x y = grind arith

mod-le : (x y : ℕ) → x % y ≤ x
mod-le x y = grind arith

div-le_half : (x y : ℕ) → 2 ≤ y → x / y + x / y ≤ x
div-le_half x y h = grind arith

-- The quotient and the remainder of two values of a type are values of it, but for the quotient of
-- the least value of a signed type by -1.
quotient-InRange :
    (t : IntType) (x y : ℤ)
    → InRange t x
    → InRange t y
    → (y ≢ negsuc 0) ⊎ InRange t (pos 0 -ℤ x)
    → y ≢ pos 0
    → InRange t (quotient x y) × InRange t (remainder x y)
unfolding quotient remainder ◌-ℤ◌
quotient-InRange i8 (pos a) (pos b) hx hy k h = ground (arith, div-le a b, mod-le a b)
quotient-InRange i8 (pos a) (negsuc b) hx hy k h =
    ground (arith, div-le a (suc b), mod-le a (suc b))
quotient-InRange i8 (negsuc a) (pos b) hx hy k h =
    ground (arith, div-le (suc a) b, mod-le (suc a) b)
quotient-InRange i8 (negsuc a) (negsuc b) hx hy k h =
    ground (arith, div-le (suc a) (suc b), mod-le (suc a) (suc b), div-le_half (suc a) (suc b))
quotient-InRange _ (pos a) (pos b) hx hy k h = ground (arith, div-le a b, mod-le a b)
quotient-InRange _ (pos a) (negsuc b) hx hy k h = ground (arith, div-le a (suc b), mod-le a (suc b))
quotient-InRange _ (negsuc a) (pos b) hx hy k h = ground (arith, div-le (suc a) b, mod-le (suc a) b)
quotient-InRange _ (negsuc a) (negsuc b) hx hy k h =
    ground (arith, div-le (suc a) (suc b), mod-le (suc a) (suc b), div-le_half (suc a) (suc b))

-- A divisor for which the quotient of `x` is a value of the type too.
abbrev pub Divides : IntType → ℤ → ℤ → Type 0
Divides t x y = (y ≢ pos 0) × ((y ≢ negsuc 0) ⊎ InRange t (pos 0 -ℤ x))

divide_ok :
    (t : IntType) (x y : ℤ)
    → InRange t x
    → InRange t y
    → Divides t x y
    → (cast_to t (divide (promoted t) x y) ≡ ok (int t (quotient x y)))
      × (cast_to t (divide_rem (promoted t) x y) ≡ ok (int t (remainder x y)))
unfolding divide divide_rem
divide_ok t x y hx hy d =
    let (q, r) = quotient-InRange t x y hx hy d.1 d.0 in
    let pq = promoted-InRange t (quotient x y) q in
    (
      ground (
        arith,
        arith_result_fits t (quotient x y) q,
        in_range-true (promoted t) (quotient x y) pq,
      ),
      ground (arith, cast_self t (remainder x y) r, in_range-true (promoted t) (quotient x y) pq),
    )

-- The integer that an arithmetic operation stands for; division by zero has none, and the operations
-- on bits are not meant.
abbrev pub exact_result : BinaryOp → ℤ → ℤ → Option ℤ
exact_result BinaryOp.add x y = some (x +ℤ y)
exact_result BinaryOp.sub x y = some (x -ℤ y)
exact_result BinaryOp.mul x y = some (x *ℤ y)
exact_result BinaryOp.div x y = if magnitude y == 0 then none else some (quotient x y)
exact_result _ x y = none

binary-exact :
    (t : IntType) (op : BinaryOp) (x y z : ℤ)
    → exact_result op x y ≡ some z
    → binary (promoted t) op x y ≡ arith_result (promoted t) z
unfolding binary divide
binary-exact t BinaryOp.add x y z h = ground arith
binary-exact t BinaryOp.div x y z h = ground arith
binary-exact t _ x y z h = ground arith

-- For operands of one type whose exact sum, difference, product or truncated quotient that type
-- holds, `Compute` returns it.
pub compute_exact :
    (a : AtomicInt) (op : BinaryOp) (b : AtomicInt) {z : ℤ}
    → a.type ≡ b.type
    → exact_result op a.value b.value ≡ some z
    → InRange a.type z
    → compute a op b ≡ ok (int a.type z)
unfolding compute
compute_exact a op b {z} e x h =
    let same : same_type a.type b.type ≡ true = ground arith in
    rw (same, compute)
      (rw (binary-exact a.type op a.value b.value z x) (arith_result_fits a.type z h))

-- Of valid operands of one type, unless the divisor is zero, or it is -1 and the type does not hold
-- the negation of the dividend, `Compute` returns a quotient and a remainder with
-- quotient * divisor + remainder = dividend and a remainder smaller than the divisor in magnitude.
pub compute_division :
    (a b : AtomicInt)
    → IsValid a
    → IsValid b
    → a.type ≡ b.type
    → Divides a.type a.value b.value
    → (q r : ℤ) × (compute a BinaryOp.div b ≡ ok (int a.type q))
      × (compute a BinaryOp.rem b ≡ ok (int a.type r))
      × (q *ℤ b.value +ℤ r ≡ a.value)
      × (magnitude r < magnitude b.value)
unfolding compute
compute_division a b va vb e d =
    let same : same_type a.type b.type ≡ true = ground arith in
    let (q, r) = divide_ok a.type a.value b.value va (rw e vb) d in
    (
      quotient a.value b.value,
      remainder a.value b.value,
      rw (same, compute) q,
      rw (same, compute) r,
      quotient-remainder a.value b.value d.0,
      magnitude-remainder a.value b.value d.0,
    )
