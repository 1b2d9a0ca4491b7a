-- ===== src/Atomics/Names.antt =====
-- src/common/atomics/atomics.cc: the words of the IR for types and operations. `to_<family>` reads one
-- and `<family>_string` is the overload of `ToString` for it.
use katara.Prelude.{
  ◌≡◌, ◌↔◌, refl, Option, some, none, String, str_eq, eq_iff, if◌then◌else◌, arith, Bool,
}
use katara.Atomics.IntType.{IntType, i8, i16, i32, i64, u8, u16, u32, u64}
use katara.Atomics.Ops.{BoolOp, UnaryOp, CompareOp, BinaryOp, ShiftOp}

unfoldable pub bool_string : Bool → String
bool_string a = if a then "true" else "false"

unfoldable pub to_int_type : String → Option IntType
to_int_type str =
    if str_eq str "i8"
    then some i8
    else if str_eq str "i16"
    then some i16
    else if str_eq str "i32"
    then some i32
    else if str_eq str "i64"
    then some i64
    else if str_eq str "u8"
    then some u8
    else if str_eq str "u16"
    then some u16
    else if str_eq str "u32"
    then some u32
    else if str_eq str "u64"
    then some u64
    else none

unfoldable pub int_type_string : IntType → String
int_type_string i8 = "i8"
int_type_string i16 = "i16"
int_type_string i32 = "i32"
int_type_string i64 = "i64"
int_type_string u8 = "u8"
int_type_string u16 = "u16"
int_type_string u32 = "u32"
int_type_string u64 = "u64"

unfoldable pub to_bool_binary_op : String → Option BoolOp
to_bool_binary_op str =
    if str_eq str "beq"
    then some BoolOp.eq
    else if str_eq str "bneq"
    then some BoolOp.neq
    else if str_eq str "band"
    then some BoolOp.and
    else if str_eq str "bor"
    then some BoolOp.or
    else none

unfoldable pub bool_binary_op_string : BoolOp → String
bool_binary_op_string BoolOp.eq = "beq"
bool_binary_op_string BoolOp.neq = "bneq"
bool_binary_op_string BoolOp.and = "band"
bool_binary_op_string BoolOp.or = "bor"

unfoldable pub to_int_unary_op : String → Option UnaryOp
to_int_unary_op str =
    if str_eq str "ineg"
    then some UnaryOp.neg
    else if str_eq str "inot"
    then some UnaryOp.not
    else none

unfoldable pub int_unary_op_string : UnaryOp → String
int_unary_op_string UnaryOp.neg = "ineg"
int_unary_op_string UnaryOp.not = "inot"

unfoldable pub to_int_compare_op : String → Option CompareOp
to_int_compare_op str =
    if str_eq str "ieq"
    then some CompareOp.eq
    else if str_eq str "ineq"
    then some CompareOp.neq
    else if str_eq str "ilss"
    then some CompareOp.lss
    else if str_eq str "ileq"
    then some CompareOp.leq
    else if str_eq str "igeq"
    then some CompareOp.geq
    else if str_eq str "igtr"
    then some CompareOp.gtr
    else none

unfoldable pub int_compare_op_string : CompareOp → String
int_compare_op_string CompareOp.eq = "ieq"
int_compare_op_string CompareOp.neq = "ineq"
int_compare_op_string CompareOp.lss = "ilss"
int_compare_op_string CompareOp.leq = "ileq"
int_compare_op_string CompareOp.geq = "igeq"
int_compare_op_string CompareOp.gtr = "igtr"

unfoldable pub to_int_binary_op : String → Option BinaryOp
to_int_binary_op str =
    if str_eq str "iadd"
    then some BinaryOp.add
    else if str_eq str "isub"
    then some BinaryOp.sub
    else if str_eq str "imul"
    then some BinaryOp.mul
    else if str_eq str "idiv"
    then some BinaryOp.div
    else if str_eq str "irem"
    then some BinaryOp.rem
    else if str_eq str "iand"
    then some BinaryOp.and
    else if str_eq str "ior"
    then some BinaryOp.or
    else if str_eq str "ixor"
    then some BinaryOp.xor
    else if str_eq str "iandnot"
    then some BinaryOp.and_not
    else none

unfoldable pub int_binary_op_string : BinaryOp → String
int_binary_op_string BinaryOp.add = "iadd"
int_binary_op_string BinaryOp.sub = "isub"
int_binary_op_string BinaryOp.mul = "imul"
int_binary_op_string BinaryOp.div = "idiv"
int_binary_op_string BinaryOp.rem = "irem"
int_binary_op_string BinaryOp.and = "iand"
int_binary_op_string BinaryOp.or = "ior"
int_binary_op_string BinaryOp.xor = "ixor"
int_binary_op_string BinaryOp.and_not = "iandnot"

unfoldable pub to_int_shift_op : String → Option ShiftOp
to_int_shift_op str =
    if str_eq str "ishl"
    then some ShiftOp.left
    else if str_eq str "ishr"
    then some ShiftOp.right
    else none

unfoldable pub int_shift_op_string : ShiftOp → String
int_shift_op_string ShiftOp.left = "ishl"
int_shift_op_string ShiftOp.right = "ishr"

-- What a pair of a reader and a writer owe each other: the reader accepts exactly the writer's words,
-- each as the value it was written for.

int_type_write_read : (x : IntType) → to_int_type (int_type_string x) ≡ some x
unfolding to_int_type int_type_string
int_type_write_read i8 = refl
int_type_write_read _ = refl

int_type_read_write : (s : String) (x : IntType) → to_int_type s ≡ some x → int_type_string x ≡ s
unfolding to_int_type int_type_string
int_type_read_write s x h = ground (
  arith,
  eq_iff s "i8",
  eq_iff s "i16",
  eq_iff s "i32",
  eq_iff s "i64",
  eq_iff s "u8",
  eq_iff s "u16",
  eq_iff s "u32",
  eq_iff s "u64",
)

bool_binary_op_write_read : (x : BoolOp) → to_bool_binary_op (bool_binary_op_string x) ≡ some x
unfolding to_bool_binary_op bool_binary_op_string
bool_binary_op_write_read BoolOp.eq = refl
bool_binary_op_write_read _ = refl

bool_binary_op_read_write :
    (s : String) (x : BoolOp) → to_bool_binary_op s ≡ some x → bool_binary_op_string x ≡ s
unfolding to_bool_binary_op bool_binary_op_string
bool_binary_op_read_write s x h =
    ground (arith, eq_iff s "beq", eq_iff s "bneq", eq_iff s "band", eq_iff s "bor")

int_unary_op_write_read : (x : UnaryOp) → to_int_unary_op (int_unary_op_string x) ≡ some x
unfolding to_int_unary_op int_unary_op_string
int_unary_op_write_read UnaryOp.neg = refl
int_unary_op_write_read _ = refl

int_unary_op_read_write :
    (s : String) (x : UnaryOp) → to_int_unary_op s ≡ some x → int_unary_op_string x ≡ s
unfolding to_int_unary_op int_unary_op_string
int_unary_op_read_write s x h = ground (arith, eq_iff s "ineg", eq_iff s "inot")

int_compare_op_write_read : (x : CompareOp) → to_int_compare_op (int_compare_op_string x) ≡ some x
unfolding to_int_compare_op int_compare_op_string
int_compare_op_write_read CompareOp.eq = refl
int_compare_op_write_read _ = refl

int_compare_op_read_write :
    (s : String) (x : CompareOp) → to_int_compare_op s ≡ some x → int_compare_op_string x ≡ s
unfolding to_int_compare_op int_compare_op_string
int_compare_op_read_write s x h = ground (
  arith,
  eq_iff s "ieq",
  eq_iff s "ineq",
  eq_iff s "ilss",
  eq_iff s "ileq",
  eq_iff s "igeq",
  eq_iff s "igtr",
)

int_binary_op_write_read : (x : BinaryOp) → to_int_binary_op (int_binary_op_string x) ≡ some x
unfolding to_int_binary_op int_binary_op_string
int_binary_op_write_read BinaryOp.add = refl
int_binary_op_write_read _ = refl

int_binary_op_read_write :
    (s : String) (x : BinaryOp) → to_int_binary_op s ≡ some x → int_binary_op_string x ≡ s
unfolding to_int_binary_op int_binary_op_string
int_binary_op_read_write s x h = ground (
  arith,
  eq_iff s "iadd",
  eq_iff s "isub",
  eq_iff s "imul",
  eq_iff s "idiv",
  eq_iff s "irem",
  eq_iff s "iand",
  eq_iff s "ior",
  eq_iff s "ixor",
  eq_iff s "iandnot",
)

int_shift_op_write_read : (x : ShiftOp) → to_int_shift_op (int_shift_op_string x) ≡ some x
unfolding to_int_shift_op int_shift_op_string
int_shift_op_write_read ShiftOp.left = refl
int_shift_op_write_read _ = refl

int_shift_op_read_write :
    (s : String) (x : ShiftOp) → to_int_shift_op s ≡ some x → int_shift_op_string x ≡ s
unfolding to_int_shift_op int_shift_op_string
int_shift_op_read_write s x h = ground (arith, eq_iff s "ishl", eq_iff s "ishr")

-- Each of the six readers accepts exactly the words that the writer of its family writes, each as the
-- value for which it was written.
pub names_exact :
    (s : String)
    → ((x : IntType) → (to_int_type s ≡ some x) ↔ (int_type_string x ≡ s))
      × ((x : BoolOp) → (to_bool_binary_op s ≡ some x) ↔ (bool_binary_op_string x ≡ s))
      × ((x : UnaryOp) → (to_int_unary_op s ≡ some x) ↔ (int_unary_op_string x ≡ s))
      × ((x : CompareOp) → (to_int_compare_op s ≡ some x) ↔ (int_compare_op_string x ≡ s))
      × ((x : BinaryOp) → (to_int_binary_op s ≡ some x) ↔ (int_binary_op_string x ≡ s))
      × ((x : ShiftOp) → (to_int_shift_op s ≡ some x) ↔ (int_shift_op_string x ≡ s))
names_exact s = (
  λ x. (int_type_read_write s x, λ e. rw (← e) (int_type_write_read x)),
  λ x. (bool_binary_op_read_write s x, λ e. rw (← e) (bool_binary_op_write_read x)),
  λ x. (int_unary_op_read_write s x, λ e. rw (← e) (int_unary_op_write_read x)),
  λ x. (int_compare_op_read_write s x, λ e. rw (← e) (int_compare_op_write_read x)),
  λ x. (int_binary_op_read_write s x, λ e. rw (← e) (int_binary_op_write_read x)),
  λ x. (int_shift_op_read_write s x, λ e. rw (← e) (int_shift_op_write_read x)),
)
