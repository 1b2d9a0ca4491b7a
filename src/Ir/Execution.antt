-- ===== src/Ir/Execution.antt =====
-- src/ir/interpreter/interpreter.cc: the evaluation of values, and the instructions that stay in their block. What the C
-- library's `malloc` returns is a parameter.
use katara.Prelude.{ℕ, Bool, true, false, ◌==◌, Option, some, none, List, [], ◌∷◌, if◌then◌else◌}
use katara.Prelude.Int.{ℤ, pos, negsuc, ◌+ℤ◌}
use katara.Prelude.Result.{Failure, failed, bad_access, Result, ok, err}
use katara.Atomics.IntType.{i64}
use katara.Atomics.Cpp.{arith_result}
use katara.Atomics.Int.{
  AtomicInt, bool_convert_to, convert_to_bool, can_convert_to, convert_to, as_int64,
}
use katara.Atomics.Ops.{BinaryOp, CompareOp, ShiftOp}
use katara.Atomics.Compute.{can_compute, can_compare, compute, compare, shift}
use katara.Interpreter.Heap.{Heap, eqb_ℤ}
use katara.Ir.Types.{IrType, Constant, Computed, Value, type_of}

-- `wrong_class`: the code casts a constant to a class that it does not have.
pub data Outcome (R : Type 0) : Type 0 where
  wrong_class : Outcome R
  stops : Failure → Outcome R
  returns : R → Outcome R

abbrev pub then_do : {R S : Type 0} → Outcome R → (R → Outcome S) → Outcome S
then_do Outcome.wrong_class k = Outcome.wrong_class
then_do (Outcome.stops why) k = Outcome.stops why
then_do (Outcome.returns r) k = k r

abbrev pub lift : {R : Type 0} → Result R → Outcome R
lift (ok r) = Outcome.returns r
lift (err why) = Outcome.stops why

abbrev pub Values : Type 0
Values = List (ℕ × Constant)

-- `computed_values().at` and `insert_or_assign`.
unfoldable pub value_at : Values → ℕ → Option Constant
value_at [] n = none
value_at ((k, c) ∷ vs) n = if k == n then some c else value_at vs n

unfoldable pub insert_or_assign : ℕ → Constant → Values → Values
insert_or_assign n c [] = (n, c) ∷ []
insert_or_assign n c ((k, d) ∷ vs) =
    let rest = insert_or_assign n c vs in if k == n then (k, c) ∷ vs else (k, d) ∷ rest

unfoldable pub evaluate : Values → Value → Outcome Constant
unfolding value_at
evaluate vs (Value.constant c) = Outcome.returns c
evaluate vs (Value.computed v) = elim (value_at vs v.number) [
  | some c ↦ Outcome.returns c
  | none ↦ Outcome.stops bad_access
]
evaluate vs (Value.inherited v origin) = Outcome.stops failed

abbrev pub as_bool : Constant → Outcome Bool
as_bool (Constant.bool_constant b) = Outcome.returns b
as_bool c = Outcome.wrong_class

abbrev pub as_int : Constant → Outcome AtomicInt
as_int (Constant.int_constant a) = Outcome.returns a
as_int c = Outcome.wrong_class

abbrev pub as_pointer : Constant → Outcome ℤ
as_pointer (Constant.pointer_constant p) = Outcome.returns p
as_pointer c = Outcome.wrong_class

abbrev pub as_func : Constant → Outcome ℤ
as_func (Constant.func_constant f) = Outcome.returns f
as_func c = Outcome.wrong_class

unfoldable pub evaluate_bool : Values → Value → Outcome Bool
unfolding evaluate
evaluate_bool vs v = then_do (evaluate vs v) as_bool

unfoldable pub evaluate_int : Values → Value → Outcome AtomicInt
unfolding evaluate
evaluate_int vs v = then_do (evaluate vs v) as_int

unfoldable pub evaluate_pointer : Values → Value → Outcome ℤ
unfolding evaluate
evaluate_pointer vs v = then_do (evaluate vs v) as_pointer

unfoldable pub evaluate_func : Values → Value → Outcome ℤ
unfolding evaluate
evaluate_func vs v = then_do (evaluate vs v) as_func

-- What an instruction works on: the values of the frame, the heap and the bytes of the machine's memory.
pub record State : Type 0 where
  pub values : Values
  pub heap : Heap
  pub memory : ℤ → ℕ

unfoldable pub put : State → Computed → Constant → State
unfolding insert_or_assign
put s r c = record s { values = insert_or_assign r.number c s.values }

unfoldable pub execute_mov_instr : State → Computed → Value → Outcome State
unfolding evaluate put
execute_mov_instr s r a = then_do (evaluate s.values a) (λ c. Outcome.returns (put s r c))

unfoldable pub execute_phi_instr : State → ℕ → Computed → List (Value × ℕ) → Outcome State
unfolding execute_mov_instr
execute_phi_instr s previous r [] = Outcome.stops failed
execute_phi_instr s previous r ((v, origin) ∷ args) =
    if origin == previous then execute_mov_instr s r v else execute_phi_instr s previous r args

unfoldable pub convert : IrType → IrType → Constant → Outcome Constant
unfolding convert_to_bool bool_convert_to can_convert_to convert_to
convert IrType.bool (IrType.int t) c =
    then_do (as_int c) (λ a. Outcome.returns (Constant.bool_constant (convert_to_bool a)))
convert (IrType.int t) IrType.bool c =
    then_do (as_bool c) (λ b. Outcome.returns (Constant.int_constant (bool_convert_to t b)))
convert (IrType.int t) (IrType.int u) c = then_do (as_int c) (λ a.
    if can_convert_to a t
    then Outcome.returns (Constant.int_constant (convert_to a t))
    else Outcome.stops failed)
convert result operand c = Outcome.stops failed

-- The operand is evaluated where its type and that of the result are ones that are converted.
abbrev pub converts : IrType → IrType → Bool
converts IrType.bool (IrType.int t) = true
converts (IrType.int t) IrType.bool = true
converts (IrType.int t) (IrType.int u) = true
converts result operand = false

unfoldable pub execute_conversion : State → Computed → Value → Outcome State
unfolding evaluate convert put type_of
execute_conversion s r a =
    if converts r.type (type_of a)
    then then_do (then_do (evaluate s.values a) (convert r.type (type_of a)))
        (λ c. Outcome.returns (put s r c))
    else Outcome.stops failed

unfoldable pub with_ints :
    State → Value → Value → (AtomicInt → AtomicInt → Outcome State) → Outcome State
unfolding evaluate_int
with_ints s a b k = then_do (evaluate_int s.values a) (λ x. then_do (evaluate_int s.values b) (k x))

unfoldable pub put_int : State → Computed → Result AtomicInt → Outcome State
unfolding put
put_int s r result =
    then_do (lift result) (λ x. Outcome.returns (put s r (Constant.int_constant x)))

unfoldable pub put_bool : State → Computed → Result Bool → Outcome State
unfolding put
put_bool s r result =
    then_do (lift result) (λ x. Outcome.returns (put s r (Constant.bool_constant x)))

-- `Int::CanCompute` and `Int::CanCompare` hold exactly where `compute` and `compare` have operands of one type.
unfoldable pub execute_int_binary_instr :
    State → Computed → BinaryOp → Value → Value → Outcome State
unfolding with_ints put_int compute
execute_int_binary_instr s r op a b =
    with_ints s a b
      (λ x y. if can_compute x y then put_int s r (compute x op y) else Outcome.stops failed)

unfoldable pub execute_int_compare_instr :
    State → Computed → CompareOp → Value → Value → Outcome State
unfolding with_ints put_bool compare
execute_int_compare_instr s r op a b =
    with_ints s a b
      (λ x y. if can_compare x y then put_bool s r (compare x op y) else Outcome.stops failed)

unfoldable pub execute_int_shift_instr : State → Computed → ShiftOp → Value → Value → Outcome State
unfolding with_ints put_int shift
execute_int_shift_instr s r op a b = with_ints s a b (λ x y. put_int s r (shift x op y))

unfoldable pub put_pointer : State → Computed → Result ℤ → Outcome State
unfolding put
put_pointer s r result =
    then_do (lift result) (λ x. Outcome.returns (put s r (Constant.pointer_constant x)))

unfoldable pub execute_pointer_offset_instr : State → Computed → Value → Value → Outcome State
unfolding evaluate_pointer evaluate_int put_pointer as_int64
execute_pointer_offset_instr s r a b = then_do (evaluate_pointer s.values a) (λ p.
    then_do (evaluate_int s.values b) (λ x. put_pointer s r (arith_result i64 (p +ℤ as_int64 x))))

unfoldable pub test_nil : IrType → Values → Value → Outcome Bool
unfolding evaluate_pointer evaluate_func
test_nil IrType.pointer vs a =
    then_do (evaluate_pointer vs a) (λ p. Outcome.returns (eqb_ℤ p (pos 0)))
test_nil IrType.func vs a = then_do (evaluate_func vs a) (λ f. Outcome.returns (eqb_ℤ f (negsuc 0)))
test_nil t vs a = Outcome.stops failed

unfoldable pub execute_nil_test_instr : State → Computed → Value → Outcome State
unfolding test_nil put type_of
execute_nil_test_instr s r a =
    then_do (test_nil (type_of a) s.values a)
      (λ b. Outcome.returns (put s r (Constant.bool_constant b)))
