-- ===== src/Atomics/Compute.antt =====
-- src/common/atomics/atomics.h: `Int::Compute`, `Int::Compare` and `Int::Shift`. Every operation is
-- done on the promoted operands and its result cast back to the type of the first operand.
use Prim.Native.Nat.{bit_and, bit_or, bit_xor}
use katara.Prelude.{
  ℕ, ◌+◌, ◌-◌, ◌/◌, ◌%◌, ◌^◌, Bool, true, false, ◌&&◌, not, ltb, ◌==◌, if◌then◌else◌,
}
use katara.Prelude.Int.{ℤ, pos, negsuc, pos_part, neg_part, sub_ℕ, ◌+ℤ◌, ◌-ℤ◌, ◌*ℤ◌}
use katara.Prelude.Result.{Result, ok, err, undefined, bad_access, ◌>>=◌}
use katara.Atomics.IntType.{IntType, bit_size_of, is_signed}
use katara.Atomics.Ops.{UnaryOp, CompareOp, BinaryOp, ShiftOp}
use katara.Atomics.Cpp.{bits, of_bits, cast, promoted, arith_result}
use katara.Atomics.Int.{AtomicInt, same_type, holds, is_min}

abbrev pub magnitude : ℤ → ℕ
magnitude a = pos_part a + neg_part a

abbrev pub is_negative : ℤ → Bool
is_negative (pos n) = false
is_negative (negsuc n) = true

abbrev pub with_sign : Bool → ℕ → ℤ
with_sign negative m = if negative then sub_ℕ 0 m else pos m

-- The built-in division truncates, and the remainder has the sign of the dividend.
unfoldable pub quotient : ℤ → ℤ → ℤ
quotient a b =
    with_sign (if is_negative a then not (is_negative b) else is_negative b)
      (magnitude a / magnitude b)

unfoldable pub remainder : ℤ → ℤ → ℤ
remainder a b = with_sign (is_negative a) (magnitude a % magnitude b)

-- Division of promoted operands: undefined by zero, and where the quotient does not fit.
unfoldable pub divide : IntType → ℤ → ℤ → Result ℤ
divide p a b = if magnitude b == 0 then err undefined else arith_result p (quotient a b)

-- `a % b` is undefined exactly where `a / b` is.
unfoldable pub divide_rem : IntType → ℤ → ℤ → Result ℤ
unfolding divide
divide_rem p a b = do _ ← divide p a b; ok (remainder a b)

unfoldable pub complement : IntType → ℤ → ℤ
complement p a = of_bits p (2 ^ bit_size_of p - 1 - bits (bit_size_of p) a)

unfoldable pub bitwise : (ℕ → ℕ → ℕ) → IntType → ℤ → ℤ → ℤ
bitwise f p a b = of_bits p (f (bits (bit_size_of p) a) (bits (bit_size_of p) b))

-- The switch of `Int::Compute(Int, BinaryOp, Int)`, on operands of the promoted type `p`.
unfoldable pub binary : IntType → BinaryOp → ℤ → ℤ → Result ℤ
unfolding divide divide_rem
binary p BinaryOp.add a b = arith_result p (a +ℤ b)
binary p BinaryOp.sub a b = arith_result p (a -ℤ b)
binary p BinaryOp.mul a b = arith_result p (a *ℤ b)
binary p BinaryOp.div a b = divide p a b
binary p BinaryOp.rem a b = divide_rem p a b
binary p BinaryOp.and a b = ok (bitwise bit_and p a b)
binary p BinaryOp.or a b = ok (bitwise bit_or p a b)
binary p BinaryOp.xor a b = ok (bitwise bit_xor p a b)
binary p BinaryOp.and_not a b = ok (bitwise bit_and p a (complement p b))

-- `Int(static_cast<T>(r))`.
abbrev pub cast_to : IntType → Result ℤ → Result AtomicInt
cast_to type m = do r ← m; ok (record { type = type; value = cast type r })

abbrev pub can_compute : AtomicInt → AtomicInt → Bool
can_compute a b = same_type a.type b.type

abbrev pub can_compare : AtomicInt → AtomicInt → Bool
can_compare a b = same_type a.type b.type

-- `std::get<T>(b.value_)` throws if the types differ.
unfoldable pub compute : AtomicInt → BinaryOp → AtomicInt → Result AtomicInt
unfolding binary
compute a op b =
    if same_type a.type b.type
    then cast_to a.type (binary (promoted a.type) op a.value b.value)
    else err bad_access

unfoldable pub compare : AtomicInt → CompareOp → AtomicInt → Result Bool
unfolding holds
compare a op b = if same_type a.type b.type then ok (holds op a.value b.value) else err bad_access

unfoldable pub can_compute_unary : UnaryOp → AtomicInt → Bool
unfolding is_min
can_compute_unary UnaryOp.not a = true
can_compute_unary UnaryOp.neg a = is_signed a.type && not (is_min a)

unfoldable pub unary : IntType → UnaryOp → ℤ → Result ℤ
unfolding complement
unary p UnaryOp.neg a = arith_result p (pos 0 -ℤ a)
unary p UnaryOp.not a = ok (complement p a)

unfoldable pub compute_unary : UnaryOp → AtomicInt → Result AtomicInt
unfolding unary
compute_unary op a = cast_to a.type (unary (promoted a.type) op a.value)

-- `a << k` is the value congruent to a * 2^k, and `a >> k` rounds down.
unfoldable pub shift_by : IntType → ShiftOp → ℤ → ℕ → ℤ
shift_by p ShiftOp.left a k = cast p (a *ℤ pos (2 ^ k))
shift_by p ShiftOp.right (pos n) k = pos (n / 2 ^ k)
shift_by p ShiftOp.right (negsuc n) k = negsuc (n / 2 ^ k)

-- A count that is negative, or not below the width of the promoted left operand, is undefined.
unfoldable pub shift_promoted : IntType → ShiftOp → ℤ → ℤ → Result ℤ
unfolding shift_by
shift_promoted p op a (negsuc n) = err undefined
shift_promoted p op a (pos k) =
    if ltb k (bit_size_of p) then ok (shift_by p op a k) else err undefined

unfoldable pub shift : AtomicInt → ShiftOp → AtomicInt → Result AtomicInt
unfolding shift_promoted
shift a op b = cast_to a.type (shift_promoted (promoted a.type) op a.value b.value)
