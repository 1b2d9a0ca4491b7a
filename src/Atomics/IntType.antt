-- ===== src/Atomics/IntType.antt =====
-- src/common/atomics/atomics.h: `IntType` and its classification, and the names of the types of
-- src/common/atomics/atomics.cc.
use katara.Prelude.{ℕ, Bool, true, false, not}

pub data IntType : Type 0 where
  i8 i16 i32 i64 u8 u16 u32 u64 : IntType

abbrev pub bit_size_of : IntType → ℕ
bit_size_of i8 = 8
bit_size_of u8 = 8
bit_size_of i16 = 16
bit_size_of u16 = 16
bit_size_of i32 = 32
bit_size_of u32 = 32
bit_size_of i64 = 64
bit_size_of u64 = 64

abbrev pub is_signed : IntType → Bool
is_signed i8 = true
is_signed i16 = true
is_signed i32 = true
is_signed i64 = true
is_signed u8 = false
is_signed u16 = false
is_signed u32 = false
is_signed u64 = false

abbrev pub is_unsigned : IntType → Bool
is_unsigned type = not (is_signed type)

unfoldable pub to_signed : IntType → IntType
to_signed i8 = i8
to_signed u8 = i8
to_signed i16 = i16
to_signed u16 = i16
to_signed i32 = i32
to_signed u32 = i32
to_signed i64 = i64
to_signed u64 = i64

unfoldable pub to_unsigned : IntType → IntType
to_unsigned i8 = u8
to_unsigned u8 = u8
to_unsigned i16 = u16
to_unsigned u16 = u16
to_unsigned i32 = u32
to_unsigned u32 = u32
to_unsigned i64 = u64
to_unsigned u64 = u64
