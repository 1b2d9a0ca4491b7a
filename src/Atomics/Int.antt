-- ===== src/Atomics/Int.antt =====
-- src/common/atomics/atomics.h: the classes `Bool` and `Int`, every operation that computes. An `Int`
-- is a `std::variant` of the eight C++ integer types: its index is the type, its content the value.
-- The arithmetic is that of the promoted operands, cast back to the type of the first operand.
use katara.Prelude.{ℕ, Bool, true, false, ◌&&◌, ◌||◌, not, ◌==◌, if◌then◌else◌}
use katara.Prelude.Int.{ℤ, pos, negsuc, ltb_ℤ}
use katara.Atomics.IntType.{IntType, i8, i16, i32, i64, u8, u16, u32, u64, is_unsigned, to_unsigned}
use katara.Atomics.Ops.{BoolOp, CompareOp}
use katara.Atomics.Cpp.{min_of, max_of, leb_ℤ, cast, common_type, InRange}

pub record AtomicInt : Type 0 where
  pub type : IntType
  pub value : ℤ

-- What the variant guarantees: the content is a value of its type.
abbrev pub IsValid : AtomicInt → Type 0
IsValid a = InRange a.type a.value

-- `value_.index()`.
abbrev pub index : IntType → ℕ
index i8 = 0
index i16 = 1
index i32 = 2
index i64 = 3
index u8 = 4
index u16 = 5
index u32 = 6
index u64 = 7

abbrev pub same_type : IntType → IntType → Bool
same_type a b = index a == index b

-- `Bool::ConvertTo`: the branches of the conditional are the code's.
unfoldable pub bool_convert_to : IntType → Bool → AtomicInt
bool_convert_to type a = record { type = type; value = if a then pos 0 else pos 1 }

-- `Bool::Compute`.
unfoldable pub bool_compute : Bool → BoolOp → Bool → Bool
bool_compute a BoolOp.eq b = if a then b else not b
bool_compute a BoolOp.neq b = if a then not b else b
bool_compute a BoolOp.and b = a && b
bool_compute a BoolOp.or b = a || b

eqb_ℤ : ℤ → ℤ → Bool
eqb_ℤ a b = leb_ℤ a b && leb_ℤ b a

-- The built-in comparison operators on two values of one type.
unfoldable pub holds : CompareOp → ℤ → ℤ → Bool
unfolding eqb_ℤ
holds CompareOp.eq a b = eqb_ℤ a b
holds CompareOp.neq a b = not (eqb_ℤ a b)
holds CompareOp.lss a b = ltb_ℤ a b
holds CompareOp.leq a b = leb_ℤ a b
holds CompareOp.geq a b = leb_ℤ b a
holds CompareOp.gtr a b = ltb_ℤ b a

-- A comparison of values of the types `t` and `u`, which both take their common type first.
unfoldable pub holds_at : IntType → ℤ → CompareOp → IntType → ℤ → Bool
unfolding cast holds
holds_at t a op u b = let c = common_type t u in holds op (cast c a) (cast c b)

-- A comparison with an `int` literal.
holds_literal : AtomicInt → CompareOp → ℤ → Bool
unfolding holds_at
holds_literal a op n = holds_at a.type a.value op i32 n

unfoldable pub is_zero : AtomicInt → Bool
unfolding holds_literal
is_zero a = holds_literal a CompareOp.eq (pos 0)

unfoldable pub is_not_zero : AtomicInt → Bool
unfolding is_zero
is_not_zero a = not (is_zero a)

unfoldable pub is_one : AtomicInt → Bool
unfolding holds_literal
is_one a = holds_literal a CompareOp.eq (pos 1)

unfoldable pub is_minus_one : AtomicInt → Bool
unfolding holds_literal
is_minus_one a = if is_unsigned a.type then false else holds_literal a CompareOp.eq (negsuc 0)

unfoldable pub is_min : AtomicInt → Bool
unfolding holds_at
is_min a = holds_at a.type a.value CompareOp.eq a.type (min_of a.type)

unfoldable pub is_max : AtomicInt → Bool
unfolding holds_at
is_max a = holds_at a.type a.value CompareOp.eq a.type (max_of a.type)

unfoldable pub is_less_than_zero : AtomicInt → Bool
unfolding holds_literal
is_less_than_zero a = holds_literal a CompareOp.lss (pos 0)

unfoldable pub is_less_than_or_equal_to_zero : AtomicInt → Bool
unfolding holds_literal
is_less_than_or_equal_to_zero a = holds_literal a CompareOp.leq (pos 0)

unfoldable pub is_greater_than_or_equal_to_zero : AtomicInt → Bool
unfolding holds_literal
is_greater_than_or_equal_to_zero a = holds_literal a CompareOp.geq (pos 0)

unfoldable pub is_greater_than_zero : AtomicInt → Bool
unfolding holds_literal
is_greater_than_zero a = holds_literal a CompareOp.gtr (pos 0)

representable_as_int64 : IntType → ℤ → Bool
unfolding holds_at
representable_as_int64 u64 v = holds_at u64 v CompareOp.leq u64 (cast u64 (max_of i64))
representable_as_int64 _ v = true

unfoldable pub is_representable_as_int64 : AtomicInt → Bool
unfolding representable_as_int64
is_representable_as_int64 a = representable_as_int64 a.type a.value

unfoldable pub as_int64 : AtomicInt → ℤ
unfolding cast
as_int64 a = cast i64 a.value

unfoldable pub is_representable_as_uint64 : AtomicInt → Bool
unfolding is_greater_than_or_equal_to_zero
is_representable_as_uint64 a = is_greater_than_or_equal_to_zero a

unfoldable pub as_uint64 : AtomicInt → ℤ
unfolding cast
as_uint64 a = cast u64 a.value

-- `value >= numeric_limits<R>::min() && value <= numeric_limits<R>::max()`.
within_limits : IntType → ℤ → IntType → Bool
unfolding holds_at
within_limits t v r =
    holds_at t v CompareOp.geq r (min_of r) && holds_at t v CompareOp.leq r (max_of r)

-- The switch of `CanConvertTo` over the result type.
convertible_to : IntType → ℤ → IntType → Bool
unfolding within_limits
convertible_to t v u8 = holds_at t v CompareOp.leq u8 (max_of u8)
convertible_to t v u16 = holds_at t v CompareOp.leq u16 (max_of u16)
convertible_to t v u32 = holds_at t v CompareOp.leq u32 (max_of u32)
convertible_to t v u64 = true
convertible_to t v r = within_limits t v r

unfoldable pub can_convert_to : AtomicInt → IntType → Bool
unfolding is_less_than_zero convertible_to
can_convert_to a result_type =
    if is_less_than_zero a && is_unsigned result_type
    then false
    else convertible_to a.type a.value result_type

unfoldable pub convert_to : AtomicInt → IntType → AtomicInt
unfolding cast
convert_to a result_type = record { type = result_type; value = cast result_type a.value }

unfoldable pub can_convert_to_unsigned : AtomicInt → Bool
unfolding can_convert_to to_unsigned
can_convert_to_unsigned a = can_convert_to a (to_unsigned a.type)

unfoldable pub convert_to_unsigned : AtomicInt → AtomicInt
unfolding convert_to to_unsigned
convert_to_unsigned a = convert_to a (to_unsigned a.type)

unfoldable pub convert_to_bool : AtomicInt → Bool
unfolding is_not_zero
convert_to_bool a = is_not_zero a
