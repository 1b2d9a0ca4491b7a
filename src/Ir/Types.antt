-- ===== src/Ir/Types.antt =====
-- src/ir/representation/types.h and values.h: the atomic types, and values. The types of the language,
-- which are lowered before a program runs, are not part of it.
use katara.Prelude.{ℕ, ◌/◌, ◌≡◌, refl, ap, arith, Bool, true, false}
use katara.Prelude.Int.{ℤ}
use katara.Atomics.IntType.{IntType, bit_size_of, i8, i16, i32, i64, u8, u16, u32, u64}
use katara.Atomics.Int.{AtomicInt, same_type}

pub data IrType : Type 0 where
  bool : IrType
  int : IntType → IrType
  pointer : IrType
  func : IrType

pub data TypeKind : Type 0 where
  bool int pointer func : TypeKind

abbrev pub type_kind : IrType → TypeKind
type_kind IrType.bool = TypeKind.bool
type_kind (IrType.int t) = TypeKind.int
type_kind IrType.pointer = TypeKind.pointer
type_kind IrType.func = TypeKind.func

-- `type_kind() == TypeKind::kInt`.
abbrev pub is_int : IrType → Bool
is_int (IrType.int t) = true
is_int t = false

-- `IsEqual`. Every atomic type is one static object, so that two pointers to them are equal exactly
-- if the types are.
unfoldable pub is_equal : IrType → IrType → Bool
is_equal IrType.bool IrType.bool = true
is_equal (IrType.int a) (IrType.int b) = same_type a b
is_equal IrType.pointer IrType.pointer = true
is_equal IrType.func IrType.func = true
is_equal a b = false

-- `size()`, in bytes.
abbrev pub size : IrType → ℕ
size IrType.bool = 1
size (IrType.int t) = bit_size_of t / 8
size IrType.pointer = 8
size IrType.func = 8

pub data Constant : Type 0 where
  bool_constant : Bool → Constant
  int_constant : AtomicInt → Constant
  pointer_constant : ℤ → Constant
  func_constant : ℤ → Constant

abbrev pub type_of_constant : Constant → IrType
type_of_constant (Constant.bool_constant b) = IrType.bool
type_of_constant (Constant.int_constant a) = IrType.int a.type
type_of_constant (Constant.pointer_constant p) = IrType.pointer
type_of_constant (Constant.func_constant f) = IrType.func

pub record Computed : Type 0 where
  pub type : IrType
  pub number : ℕ

-- `InheritedValue` has the value and the number of the block that it comes from.
pub data Value : Type 0 where
  constant : Constant → Value
  computed : Computed → Value
  inherited : Value → ℕ → Value

unfoldable pub type_of : Value → IrType
type_of (Value.constant c) = type_of_constant c
type_of (Value.computed v) = v.type
type_of (Value.inherited v origin) = type_of v

abbrev pub is_inherited : Value → Bool
is_inherited (Value.inherited v origin) = true
is_inherited v = false

same_type-equal : (a b : IntType) → same_type a b ≡ true → a ≡ b
same_type-equal i8 i8 h = refl
same_type-equal i16 i16 h = refl
same_type-equal i32 i32 h = refl
same_type-equal i64 i64 h = refl
same_type-equal u8 u8 h = refl
same_type-equal u16 u16 h = refl
same_type-equal u32 u32 h = refl
same_type-equal u64 u64 h = refl
same_type-equal a b h = ground arith

pub is_equal-equal : (a b : IrType) → is_equal a b ≡ true → a ≡ b
unfolding is_equal
is_equal-equal IrType.bool IrType.bool h = refl
is_equal-equal (IrType.int a) (IrType.int b) h = ap IrType.int (same_type-equal a b h)
is_equal-equal IrType.pointer IrType.pointer h = refl
is_equal-equal IrType.func IrType.func h = refl
is_equal-equal a b h = ground arith
