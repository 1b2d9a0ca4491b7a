-- ===== src/Atomics/Cpp.antt =====
-- The C++ rules (C++20) that src/common/atomics/atomics.h computes by: the ranges of the integer
-- types, conversion between them, the promotion of small operands and the usual arithmetic
-- conversions. An integer of any type is the ℤ that it stands for.
use katara.Prelude.{ℕ, ◌+◌, ◌-◌, ◌%◌, ◌^◌, Bool, ◌&&◌, ltb, leb, if◌then◌else◌}
use katara.Prelude.Int.{ℤ, pos, negsuc, pos_part, neg_part, ◌≤ℤ◌}
use katara.Prelude.Result.{Result, ok, err, undefined}
use katara.Atomics.IntType.{IntType, i8, i16, i32, i64, u8, u16, u32, u64, bit_size_of, is_signed}

-- 2 ^ width.
abbrev pub modulus : IntType → ℕ
modulus t = 2 ^ bit_size_of t

-- `std::numeric_limits<T>::min()` and `max()`.
abbrev pub min_of : IntType → ℤ
min_of t = if is_signed t then negsuc (2 ^ (bit_size_of t - 1) - 1) else pos 0

abbrev pub max_of : IntType → ℤ
max_of t = if is_signed t then pos (2 ^ (bit_size_of t - 1) - 1) else pos (2 ^ bit_size_of t - 1)

abbrev pub leb_ℤ : ℤ → ℤ → Bool
leb_ℤ a b = leb (pos_part a + neg_part b) (pos_part b + neg_part a)

abbrev pub in_range : IntType → ℤ → Bool
in_range t z = leb_ℤ (min_of t) z && leb_ℤ z (max_of t)

abbrev pub InRange : IntType → ℤ → Type 0
InRange t z = (min_of t ≤ℤ z) × (z ≤ℤ max_of t)

-- The bit pattern of `z` at width `w`, as a number below 2 ^ w.
abbrev pub bits : ℕ → ℤ → ℕ
bits w (pos n) = n % 2 ^ w
bits w (negsuc n) = 2 ^ w - 1 - n % 2 ^ w

-- The integer of type `t` that a bit pattern stands for.
abbrev pub of_bits : IntType → ℕ → ℤ
of_bits t r =
    if is_signed t
    then (if ltb r (2 ^ (bit_size_of t - 1)) then pos r else negsuc (2 ^ bit_size_of t - r - 1))
    else pos r

-- `static_cast<T>`: the value of type `t` that is congruent to `z`.
unfoldable pub cast : IntType → ℤ → ℤ
cast t z = of_bits t (bits (bit_size_of t) z)

-- Integral promotion: `int` holds all values of the types of 8 and 16 bits.
abbrev pub promoted : IntType → IntType
promoted i8 = i32
promoted i16 = i32
promoted u8 = i32
promoted u16 = i32
promoted t = t

-- The usual arithmetic conversions, for two promoted types.
abbrev pub common_promoted : IntType → IntType → IntType
common_promoted u64 b = u64
common_promoted i64 u64 = u64
common_promoted i64 b = i64
common_promoted u32 u64 = u64
common_promoted u32 i64 = i64
common_promoted u32 b = u32
common_promoted a b = b

abbrev pub common_type : IntType → IntType → IntType
common_type a b = common_promoted (promoted a) (promoted b)

-- The value of an arithmetic operation on operands of the promoted type `p` whose exact result is
-- `z`: signed overflow is undefined, unsigned arithmetic wraps.
abbrev pub arith_result : IntType → ℤ → Result ℤ
arith_result p z =
    if is_signed p then (if in_range p z then ok z else err undefined) else ok (cast p z)
