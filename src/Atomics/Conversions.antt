-- ===== src/Atomics/Conversions.antt =====
-- Theorems about the tests and the conversions of `Int` and `Bool`.
use katara.Prelude.{Bool, true, false, not, ◌≡◌, ◌↔◌, refl, ap, subst, ◌∙◌, ◌&&◌, arith}
use katara.Prelude.Int.{ℤ, pos, negsuc, ◌≤ℤ◌}
use katara.Atomics.IntType.{IntType, i8, i64, u64, is_signed, is_unsigned, to_unsigned}
use katara.Atomics.Cpp.{cast, common_type, InRange, min_of, max_of}
use katara.Atomics.Int.{
  AtomicInt, IsValid, bool_convert_to, is_zero, is_one, is_minus_one, is_min, is_max,
  is_less_than_zero, is_less_than_or_equal_to_zero, is_greater_than_or_equal_to_zero,
  is_greater_than_zero, is_representable_as_int64, as_int64, is_representable_as_uint64, as_uint64,
  can_convert_to, convert_to, convert_to_unsigned, convert_to_bool,
}
use katara.Atomics.CastLaws.{cast-InRange, cast_self}

abbrev int : IntType → ℤ → AtomicInt
int t v = record { type = t; value = v }

-- The comparison with the least value of a signed target is done in an unsigned type.
abbrev pub compares_unsigned : IntType → IntType → Bool
compares_unsigned t r = is_signed r && is_unsigned (common_type t r)

can_convert_sound :
    (t r : IntType) (v : ℤ)
    → InRange t v
    → can_convert_to (int t v) r ≡ true
    → InRange r v × (compares_unsigned t r ≡ false)
unfolding can_convert_to
can_convert_sound i8 i8 v h c = ground arith
can_convert_sound _ i8 v h c = ground arith
can_convert_sound _ _ v h c = ground arith

can_convert_complete :
    (t r : IntType) (v : ℤ)
    → InRange t v
    → InRange r v
    → compares_unsigned t r ≡ false
    → can_convert_to (int t v) r ≡ true
unfolding can_convert_to
can_convert_complete i8 i8 v h c e = ground arith
can_convert_complete _ i8 v h c e = ground arith
can_convert_complete _ _ v h c e = ground arith

-- `CanConvertTo` accepts a valid integer exactly when the target type holds its value and, for a
-- signed target, the usual arithmetic conversions compare it with the target's limits in a signed
-- type.
pub can_convert_to_iff :
    (a : AtomicInt) (r : IntType)
    → IsValid a
    → (can_convert_to a r ≡ true) ↔ (InRange r a.value × (compares_unsigned a.type r ≡ false))
can_convert_to_iff a r h =
    (can_convert_sound a.type r a.value h, λ k. can_convert_complete a.type r a.value h k.0 k.1)

-- A conversion that `CanConvertTo` accepts yields a valid integer of the target type with the same
-- value, and converting that back to the first type gives the first integer.
pub convert_to_exact :
    (a : AtomicInt) (r : IntType)
    → IsValid a
    → can_convert_to a r ≡ true
    → ((convert_to a r).type ≡ r)
      × IsValid (convert_to a r)
      × ((convert_to a r).value ≡ a.value)
      × (convert_to (convert_to a r) a.type ≡ a)
unfolding convert_to
convert_to_exact a r h c =
    let same : cast r a.value ≡ a.value =
      cast_self r a.value (can_convert_sound a.type r a.value h c).0 in
    (
      refl,
      cast-InRange r a.value,
      same,
      ap (int a.type) (ap (cast a.type) same ∙ cast_self a.type a.value h),
    )

cast-cast_unsigned : (t : IntType) (v : ℤ) → InRange t v → cast t (cast (to_unsigned t) v) ≡ v
unfolding cast to_unsigned
cast-cast_unsigned i8 (pos n) h = ground arith
cast-cast_unsigned i8 (negsuc n) h = ground arith
cast-cast_unsigned _ (pos n) h = ground arith
cast-cast_unsigned _ (negsuc n) h = ground arith

-- `ConvertToUnsigned` loses nothing: of every valid integer, negative ones included, it gives a
-- valid integer of the unsigned type of the same width, which converts back to the first.
pub convert_to_unsigned_back :
    (a : AtomicInt)
    → IsValid a
    → ((convert_to_unsigned a).type ≡ to_unsigned a.type)
      × IsValid (convert_to_unsigned a)
      × (convert_to (convert_to_unsigned a) a.type ≡ a)
unfolding convert_to_unsigned convert_to
convert_to_unsigned_back a h = (
  refl,
  cast-InRange (to_unsigned a.type) a.value,
  ap (int a.type) (unfold to_unsigned in cast-cast_unsigned a.type a.value h),
)

representable_int64 :
    (t : IntType) (v : ℤ)
    → InRange t v
    → (is_representable_as_int64 (int t v) ≡ true) ↔ InRange i64 v
unfolding is_representable_as_int64
representable_int64 i8 v h = ground arith
representable_int64 _ v h = ground arith

representable_uint64 :
    (t : IntType) (v : ℤ)
    → InRange t v
    → (is_representable_as_uint64 (int t v) ≡ true) ↔ InRange u64 v
unfolding is_representable_as_uint64
representable_uint64 i8 v h = ground arith
representable_uint64 _ v h = ground arith

cast_self_iff : (t : IntType) (v : ℤ) → (cast t v ≡ v) ↔ InRange t v
cast_self_iff t v = (λ e. subst (InRange t) e (cast-InRange t v), cast_self t v)

-- A valid integer is representable as an `int64_t` (a `uint64_t`) exactly when that type holds its
-- value, and exactly then `AsInt64` (`AsUint64`) returns the value.
pub representable_exact :
    (a : AtomicInt)
    → IsValid a
    → ((is_representable_as_int64 a ≡ true) ↔ InRange i64 a.value)
      × ((is_representable_as_uint64 a ≡ true) ↔ InRange u64 a.value)
      × ((as_int64 a ≡ a.value) ↔ InRange i64 a.value)
      × ((as_uint64 a ≡ a.value) ↔ InRange u64 a.value)
unfolding as_int64 as_uint64
representable_exact a h = (
  representable_int64 a.type a.value h,
  representable_uint64 a.type a.value h,
  cast_self_iff i64 a.value,
  cast_self_iff u64 a.value,
)

pub record Classified (a : AtomicInt) : Type 0 where
  pub zero_iff : (is_zero a ≡ true) ↔ (a.value ≡ pos 0)
  pub one_iff : (is_one a ≡ true) ↔ (a.value ≡ pos 1)
  pub minus_one_iff : (is_minus_one a ≡ true) ↔ (a.value ≡ negsuc 0)
  pub min_iff : (is_min a ≡ true) ↔ (a.value ≡ min_of a.type)
  pub max_iff : (is_max a ≡ true) ↔ (a.value ≡ max_of a.type)
  pub less_iff : (is_less_than_zero a ≡ true) ↔ (a.value ≤ℤ negsuc 0)
  pub less_or_equal_iff : (is_less_than_or_equal_to_zero a ≡ true) ↔ (a.value ≤ℤ pos 0)
  pub greater_or_equal_iff : (is_greater_than_or_equal_to_zero a ≡ true) ↔ (pos 0 ≤ℤ a.value)
  pub greater_iff : (is_greater_than_zero a ≡ true) ↔ (pos 1 ≤ℤ a.value)
  pub bool_iff : (convert_to_bool a ≡ false) ↔ (a.value ≡ pos 0)

classified : (t : IntType) (v : ℤ) → InRange t v → Classified (int t v)
unfolding is_zero is_one is_minus_one is_min is_max is_less_than_zero is_less_than_or_equal_to_zero
    is_greater_than_or_equal_to_zero is_greater_than_zero convert_to_bool
classified i8 v h = ground arith
classified _ v h = ground arith

-- Of a valid integer, `IsZero`, `IsOne`, `IsMinusOne`, `IsMin`, `IsMax`, the four comparisons with
-- zero and `ConvertToBool` answer true exactly where the integer that it stands for has the
-- property, whatever conversions the built-in comparisons make.
pub tests_exact : (a : AtomicInt) → IsValid a → Classified a
tests_exact a h = classified a.type a.value h

-- `Bool::ConvertTo` gives a valid integer that `ConvertToBool` takes to the opposite of the boolean
-- that was converted, at every integer type.
pub bool_convert_to_inverts :
    (t : IntType) (b : Bool)
    → IsValid (bool_convert_to t b) × (convert_to_bool (bool_convert_to t b) ≡ not b)
unfolding convert_to_bool bool_convert_to
bool_convert_to_inverts i8 b = ground arith
bool_convert_to_inverts _ b = ground arith
