-- ===== src/Atomics/Tests.antt =====
-- The theorems about src/common/atomics at concrete integers, and runs of the operations.
use katara.Prelude.{◌-◌, ◌^◌, ◌<◌, ◌≡◌, ◌↔◌, refl, arith, inl, true, false, some, String}
use katara.Prelude.Int.{ℤ, pos, negsuc, ◌+ℤ◌, ◌-ℤ◌, ◌*ℤ◌}
use katara.Prelude.Result.{ok, err, undefined}
use katara.Atomics.IntType.{IntType, i8, i16, i32, u8, u16, u32}
use katara.Atomics.Ops.{BoolOp, UnaryOp, CompareOp, BinaryOp, ShiftOp}
use katara.Atomics.Cpp.{cast, InRange}
use katara.Atomics.Int.{
  AtomicInt, IsValid, bool_convert_to, can_convert_to, convert_to, convert_to_bool,
}
use katara.Atomics.Compute.{compute, shift, magnitude, quotient}
use katara.Atomics.Conversions.{
  compares_unsigned, can_convert_to_iff, convert_to_exact, bool_convert_to_inverts,
}
use katara.Atomics.Arithmetic.{int, compute-IsValid, compute_exact, compute_division}
use katara.Atomics.Overflow.{at, Outcome, sums_exact, u16_product}
use katara.Atomics.Shifts.{shift_left_right}
use katara.Atomics.Names.{
  to_int_type, int_type_string, to_bool_binary_op, bool_binary_op_string, to_int_unary_op,
  int_unary_op_string, to_int_compare_op, int_compare_op_string, to_int_binary_op,
  int_binary_op_string, to_int_shift_op, int_shift_op_string, names_exact,
}

can_convert_to_iff_example :
    (can_convert_to (int u32 (pos 5)) i16 ≡ true)
    ↔ (InRange i16 (pos 5) × (compares_unsigned u32 i16 ≡ false))
can_convert_to_iff_example = can_convert_to_iff (int u32 (pos 5)) i16 (omega arith)

-- 5 as a `u32` is said not to be convertible to `i16`.
u32_to_i16 : can_convert_to (int u32 (pos 5)) i16 ≡ false
unfolding can_convert_to
u32_to_i16 = refl

i32_to_u8 : can_convert_to (int i32 (pos 200)) u8 ≡ true
unfolding can_convert_to
i32_to_u8 = refl

convert_to_exact_example :
    ((convert_to (int i32 (pos 200)) u8).type ≡ u8)
    × IsValid (convert_to (int i32 (pos 200)) u8)
    × ((convert_to (int i32 (pos 200)) u8).value ≡ pos 200)
    × (convert_to (convert_to (int i32 (pos 200)) u8) i32 ≡ int i32 (pos 200))
convert_to_exact_example = convert_to_exact (int i32 (pos 200)) u8 (omega arith) i32_to_u8

bool_convert_to_inverts_example :
    IsValid (bool_convert_to u8 true) × (convert_to_bool (bool_convert_to u8 true) ≡ false)
bool_convert_to_inverts_example = bool_convert_to_inverts u8 true

i8_sum : compute (int i8 (pos 100)) BinaryOp.add (int i8 (pos 100)) ≡ ok (int i8 (negsuc 55))
unfolding compute cast ◌+ℤ◌
i8_sum = refl

compute-IsValid_example : (i8 ≡ i8) × (i8 ≡ i8) × IsValid (int i8 (negsuc 55))
compute-IsValid_example = compute-IsValid (int i8 (pos 100)) BinaryOp.add (int i8 (pos 100)) i8_sum

compute_exact_example :
    compute (int i32 (negsuc 6)) BinaryOp.div (int i32 (pos 2)) ≡ ok (int i32 (negsuc 2))
unfolding quotient
compute_exact_example =
    compute_exact (int i32 (negsuc 6)) BinaryOp.div (int i32 (pos 2)) refl refl (omega arith)

compute_division_example :
    (q r : ℤ) × (compute (int i8 (negsuc 6)) BinaryOp.div (int i8 (pos 2)) ≡ ok (int i8 q))
    × (compute (int i8 (negsuc 6)) BinaryOp.rem (int i8 (pos 2)) ≡ ok (int i8 r))
    × (q *ℤ pos 2 +ℤ r ≡ negsuc 6)
    × (magnitude r < magnitude (pos 2))
compute_division_example =
    compute_division (int i8 (negsuc 6)) (int i8 (pos 2)) (omega arith) (omega arith) refl
      (ground arith, inl (ground arith))

sums_exact_example :
    Outcome i32 (pos (2 ^ 31 - 1) +ℤ pos 1) (at i32 BinaryOp.add (pos (2 ^ 31 - 1)) (pos 1))
    × Outcome i32 (pos (2 ^ 31 - 1) -ℤ pos 1) (at i32 BinaryOp.sub (pos (2 ^ 31 - 1)) (pos 1))
sums_exact_example = sums_exact i32 (pos (2 ^ 31 - 1)) (pos 1) (ground arith) (ground arith)

u16_product_example : at u16 BinaryOp.mul (pos 65535) (pos 65535) ≡ err undefined
u16_product_example = u16_product 65535 65535

shift_left_right_example :
    (r : AtomicInt) × (shift (int i16 (negsuc 4)) ShiftOp.left (int u8 (pos 3)) ≡ ok r)
    × (r.value ≡ negsuc 4 *ℤ pos (2 ^ 3))
    × (shift r ShiftOp.right (int u8 (pos 3)) ≡ ok (int i16 (negsuc 4)))
unfolding ◌*ℤ◌
shift_left_right_example = shift_left_right i16 u8 (negsuc 4) 3 (omega arith) (omega arith)

abbrev word : String
word = "iandnot"

names_exact_example :
    ((x : IntType) → (to_int_type word ≡ some x) ↔ (int_type_string x ≡ word))
    × ((x : BoolOp) → (to_bool_binary_op word ≡ some x) ↔ (bool_binary_op_string x ≡ word))
    × ((x : UnaryOp) → (to_int_unary_op word ≡ some x) ↔ (int_unary_op_string x ≡ word))
    × ((x : CompareOp) → (to_int_compare_op word ≡ some x) ↔ (int_compare_op_string x ≡ word))
    × ((x : BinaryOp) → (to_int_binary_op word ≡ some x) ↔ (int_binary_op_string x ≡ word))
    × ((x : ShiftOp) → (to_int_shift_op word ≡ some x) ↔ (int_shift_op_string x ≡ word))
names_exact_example = names_exact word
