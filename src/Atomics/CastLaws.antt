-- ===== src/Atomics/CastLaws.antt =====
-- The laws of `cast` and of the ranges that the theorems about `Int` use.
use katara.Prelude.{◌≡◌, true, arith}
use katara.Prelude.Int.{ℤ, pos, negsuc}
use katara.Atomics.IntType.{IntType, i8}
use katara.Atomics.Cpp.{cast, promoted, InRange, in_range}

pub cast-InRange : (t : IntType) (z : ℤ) → InRange t (cast t z)
unfolding cast
cast-InRange i8 (pos n) = ground arith
cast-InRange i8 (negsuc n) = ground arith
cast-InRange _ z = ground arith

pub cast_self : (t : IntType) (z : ℤ) → InRange t z → cast t z ≡ z
unfolding cast
cast_self i8 (pos n) h = ground arith
cast_self i8 (negsuc n) h = ground arith
cast_self _ (pos n) h = ground arith
cast_self _ (negsuc n) h = ground arith

pub promoted-InRange : (t : IntType) (z : ℤ) → InRange t z → InRange (promoted t) z
promoted-InRange i8 z h = omega arith
promoted-InRange _ z h = omega arith

pub in_range-true : (t : IntType) (z : ℤ) → InRange t z → in_range t z ≡ true
in_range-true i8 z h = ground arith
in_range-true _ z h = ground arith

pub in_range_sound : (t : IntType) (z : ℤ) → in_range t z ≡ true → InRange t z
in_range_sound i8 z h = ground arith
in_range_sound _ z h = ground arith
