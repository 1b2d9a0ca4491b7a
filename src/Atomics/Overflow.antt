-- ===== src/Atomics/Overflow.antt =====
-- Theorems about `Int::Compute` where the exact result does not fit.
use katara.Prelude.{
  ℕ, ◌*◌, ◌%◌, ◌^◌, Bool, true, false, not, ◌≡◌, refl, ◌↔◌, ◌⊎◌, Bool-cases, inl, inr, ◌∙◌, arith,
  if◌then◌else◌, ◌||◌, ltb, leb,
}
use katara.Prelude.Int.{ℤ, pos, negsuc, ◌+ℤ◌, ◌-ℤ◌, ◌*ℤ◌}
use katara.Prelude.Result.{Result, ok, err, undefined}
use katara.Atomics.IntType.{IntType, i8, u16, is_signed, bit_size_of}
use katara.Atomics.Ops.{BinaryOp, UnaryOp}
use katara.Atomics.Cpp.{InRange, cast, max_of, in_range, modulus, promoted, arith_result}
use katara.Atomics.Int.{AtomicInt, same_type}
use katara.Atomics.Compute.{compute, cast_to, compute_unary, can_compute_unary}
use katara.Atomics.CastLaws.{cast-InRange, cast_self, in_range_sound}
use katara.Atomics.Arithmetic.{int}

-- The types at which a sum or a difference of two valid operands is always defined.
abbrev wraps : IntType → Bool
wraps t = not (is_signed t) || ltb (bit_size_of t) 32

-- The operation at one type, on operands of which only the values differ.
abbrev pub at : IntType → BinaryOp → ℤ → ℤ → Result AtomicInt
at t op x y = compute (int t x) op (int t y)

cast-promoted :
    (t : IntType) (z : ℤ)
    → (is_signed (promoted t) ≡ false) ⊎ InRange (promoted t) z
    → cast_to t (arith_result (promoted t) z) ≡ ok (int t (cast t z))
cast-promoted i8 z h = ground (arith)
cast-promoted t z h = ground (arith, cast_self t (cast t z), cast-InRange t z)

small_sum :
    (t : IntType) (x y : ℤ)
    → wraps t ≡ true
    → InRange t x
    → InRange t y
    → ((is_signed (promoted t) ≡ false) ⊎ InRange (promoted t) (x +ℤ y))
      × ((is_signed (promoted t) ≡ false) ⊎ InRange (promoted t) (x -ℤ y))
unfolding ◌+ℤ◌ ◌-ℤ◌
small_sum i8 x y w hx hy = (ground arith, ground arith)
small_sum _ x y w hx hy = (ground arith, ground arith)

-- At every other type the sum and the difference of two valid operands wrap around: the result is
-- the value of the type that is congruent to the exact one.
overflow_wraps :
    (t : IntType) (x y : ℤ)
    → wraps t ≡ true
    → InRange t x
    → InRange t y
    → (at t BinaryOp.add x y ≡ ok (int t (cast t (x +ℤ y))))
      × (at t BinaryOp.sub x y ≡ ok (int t (cast t (x -ℤ y))))
unfolding compute
overflow_wraps t x y w hx hy =
    let (sum, difference) = small_sum t x y w hx hy in
    let same : same_type t t ≡ true = ground arith in
    (
      rw (same, compute) (cast-promoted t (x +ℤ y) sum),
      rw (same, compute) (cast-promoted t (x -ℤ y) difference),
    )

-- The outcome of a sum or a difference with the exact value `z`: the value of the type that is `z` or, at a type that
-- wraps around, differs from it by 2 ^ w; or, at `i32` and `i64`, undefined where the type does not hold `z`.
abbrev pub Outcome : IntType → ℤ → Result AtomicInt → Type 0
Outcome t z m =
    ((r : ℤ) × (m ≡ ok (int t r))
      × InRange t r
      × ((r ≡ z) ⊎ ((wraps t ≡ true) × ((r +ℤ pos (modulus t) ≡ z) ⊎ (z +ℤ pos (modulus t) ≡ r)))))
    ⊎ ((wraps t ≡ false) × (in_range t z ≡ false) × (m ≡ err undefined))

-- At most one turn away.
abbrev Near : IntType → ℤ → Type 0
Near t z = InRange t z ⊎ InRange t (z +ℤ pos (modulus t)) ⊎ InRange t (z -ℤ pos (modulus t))

cast-Near :
    (t : IntType) (z : ℤ)
    → Near t z
    → (cast t z ≡ z) ⊎ (cast t z +ℤ pos (modulus t) ≡ z) ⊎ (z +ℤ pos (modulus t) ≡ cast t z)
unfolding cast ◌+ℤ◌ ◌-ℤ◌
cast-Near i8 z h = ground arith
cast-Near t z h = ground arith

sums-Near : (t : IntType) (x y : ℤ) → InRange t x → InRange t y → Near t (x +ℤ y) × Near t (x -ℤ y)
unfolding ◌+ℤ◌ ◌-ℤ◌
sums-Near i8 x y hx hy = (ground arith, ground arith)
sums-Near t x y hx hy = (ground arith, ground arith)

wrapped :
    (t : IntType) (z : ℤ) (m : Result AtomicInt)
    → wraps t ≡ true
    → Near t z
    → m ≡ ok (int t (cast t z))
    → Outcome t z m
wrapped t z m w n e = inl (
  cast t z,
  e,
  cast-InRange t z,
  elim (cast-Near t z n) [ inl same ↦ inl same | inr other ↦ inr (w, other) ],
)

held :
    (t : IntType) (z : ℤ) (m : Result AtomicInt)
    → wraps t ≡ false
    → m ≡ (if in_range t z then ok (int t z) else err undefined)
    → Outcome t z m
held t z m w e = elim (Bool-cases (in_range t z)) [
  | inl h ↦ inl (z, e ∙ rw h refl, in_range_sound t z h, inl refl)
  | inr h ↦ inr (w, h, e ∙ rw h refl)
]

cast-held :
    (t : IntType) (z : ℤ)
    → wraps t ≡ false
    → cast_to t (arith_result (promoted t) z)
      ≡ (if in_range t z then ok (int t z) else err undefined)
cast-held i8 z w = ground arith
cast-held t z w = ground (arith, cast_self t z)

held_sums :
    (t : IntType) (x y : ℤ)
    → wraps t ≡ false
    → (at t BinaryOp.add x y ≡ (if in_range t (x +ℤ y) then ok (int t (x +ℤ y)) else err undefined))
      × (at t BinaryOp.sub x y
          ≡ (if in_range t (x -ℤ y) then ok (int t (x -ℤ y)) else err undefined))
unfolding compute
held_sums t x y w =
    let same : same_type t t ≡ true = ground arith in
    (rw (same, compute) (cast-held t (x +ℤ y) w), rw (same, compute) (cast-held t (x -ℤ y) w))

-- At every type `Compute` of a sum and of a difference of two valid operands returns the exact value where the type
-- holds it. Where it does not, the result is undefined at `i32` and `i64`, and at every other type it is the value of
-- the type that differs from the exact one by 2 ^ w.
pub sums_exact :
    (t : IntType) (x y : ℤ)
    → InRange t x
    → InRange t y
    → Outcome t (x +ℤ y) (at t BinaryOp.add x y) × Outcome t (x -ℤ y) (at t BinaryOp.sub x y)
sums_exact t x y hx hy =
    let (sum, difference) = sums-Near t x y hx hy in
    elim (Bool-cases (wraps t)) [
      | inl w ↦
          let (a, b) = overflow_wraps t x y w hx hy in
          (wrapped t (x +ℤ y) _ w sum a, wrapped t (x -ℤ y) _ w difference b)
      | inr w ↦ let (a, b) = held_sums t x y w in (held t (x +ℤ y) _ w a, held t (x -ℤ y) _ w b)
    ]

-- Unsigned 16-bit operands are multiplied as `int`: a product of 2^31 or more is undefined, and a
-- smaller one is reduced modulo 2^16.
pub u16_product :
    (x y : ℕ)
    → at u16 BinaryOp.mul (pos x) (pos y)
      ≡ (if leb (2 ^ 31) (x * y) then err undefined else ok (int u16 (pos (x * y % 2 ^ 16))))
unfolding compute ◌*ℤ◌ cast
u16_product x y = ground arith

-- `CanCompute` accepts the negation of a valid integer exactly when its type is signed and `Compute`
-- returns the exact negation.
pub negation_exact :
    (t : IntType) (x : ℤ)
    → InRange t x
    → (can_compute_unary UnaryOp.neg (int t x) ≡ true)
      ↔ ((is_signed t ≡ true) × (compute_unary UnaryOp.neg (int t x) ≡ ok (int t (pos 0 -ℤ x))))
unfolding can_compute_unary compute_unary ◌-ℤ◌ cast
negation_exact i8 x h = ground arith
negation_exact _ x h = ground arith

-- -1 - x at a signed type, and the greatest value less `x` at an unsigned one.
abbrev pub opposite : IntType → ℤ → ℤ
opposite t x = (if is_signed t then negsuc 0 else max_of t) -ℤ x

-- The complement of a valid integer `x` is -1 - x at a signed type and the greatest value less `x` at
-- an unsigned one, and its complement is `x` again.
pub complement_exact :
    (t : IntType) (x : ℤ)
    → InRange t x
    → (compute_unary UnaryOp.not (int t x) ≡ ok (int t (opposite t x)))
      × (compute_unary UnaryOp.not (int t (opposite t x)) ≡ ok (int t x))
unfolding compute_unary ◌-ℤ◌ cast
complement_exact i8 x h = (ground arith, ground arith)
complement_exact _ x h = (ground arith, ground arith)
