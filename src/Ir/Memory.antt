-- ===== src/Ir/Memory.antt =====
-- src/ir/interpreter/interpreter.cc: the instructions that use the heap.
use katara.Prelude.{ℕ, zero, suc, ◌+◌, ◌*◌, ◌/◌, ◌%◌, true, false, if◌then◌else◌, List, [], ◌∷◌}
use katara.Prelude.Int.{ℤ}
use katara.Prelude.Result.{undefined}
use katara.Atomics.IntType.{IntType, i64, bit_size_of, is_signed}
use katara.Atomics.Cpp.{bits, of_bits, cast}
use katara.Atomics.Int.{AtomicInt, as_int64, as_uint64}
use katara.Interpreter.Heap.{malloc, load, store, free}
use katara.Ir.Types.{IrType, Constant, Computed, Value, type_of, size}
use katara.Ir.Execution.{
  Outcome, then_do, lift, State, put, evaluate_int, evaluate_pointer, evaluate_bool, evaluate_func,
}

-- Objects in memory are little endian.
unfoldable pub number_of : List ℕ → ℕ
number_of [] = 0
number_of (b ∷ bs) = b + 256 * number_of bs

unfoldable pub bytes_of : ℕ → ℕ → List ℕ
bytes_of zero n = []
bytes_of (suc k) n = n % 256 ∷ bytes_of k (n / 256)

-- A byte other than 0 and 1 is no `bool`.
abbrev pub bool_of : ℕ → Outcome Constant
bool_of zero = Outcome.returns (Constant.bool_constant false)
bool_of (suc zero) = Outcome.returns (Constant.bool_constant true)
bool_of n = Outcome.stops undefined

unfoldable pub decode : IrType → List ℕ → Outcome Constant
unfolding number_of
decode IrType.bool bs = bool_of (number_of bs)
decode (IrType.int t) bs =
    Outcome.returns (Constant.int_constant (record { type = t; value = of_bits t (number_of bs) }))
decode IrType.pointer bs = Outcome.returns (Constant.pointer_constant (of_bits i64 (number_of bs)))
decode IrType.func bs = Outcome.returns (Constant.func_constant (of_bits i64 (number_of bs)))

-- `int8_t(value.AsInt64())` and the others.
unfoldable pub stored_int : AtomicInt → ℤ
unfolding cast as_int64 as_uint64
stored_int a = if is_signed a.type then cast a.type (as_int64 a) else cast a.type (as_uint64 a)

unfoldable pub int_bytes : IntType → ℤ → List ℕ
unfolding bytes_of
int_bytes t z = bytes_of (bit_size_of t / 8) (bits (bit_size_of t) z)

-- The bytes of the value to store, by the type of the operand; the type of an integer is that of its constant.
unfoldable pub value_bytes : State → Value → IrType → Outcome (List ℕ)
unfolding evaluate_bool evaluate_int evaluate_pointer evaluate_func int_bytes stored_int
value_bytes s v IrType.bool =
    then_do (evaluate_bool s.values v) (λ b. Outcome.returns ((if b then 1 else 0) ∷ []))
value_bytes s v (IrType.int t) =
    then_do (evaluate_int s.values v) (λ a. Outcome.returns (int_bytes a.type (stored_int a)))
value_bytes s v IrType.pointer =
    then_do (evaluate_pointer s.values v) (λ p. Outcome.returns (int_bytes i64 p))
value_bytes s v IrType.func =
    then_do (evaluate_func s.values v) (λ f. Outcome.returns (int_bytes i64 f))

unfoldable pub execute_malloc_instr : (State → ℤ → ℤ) → State → Computed → Value → Outcome State
unfolding evaluate_int malloc put as_int64
execute_malloc_instr c_malloc s r a = then_do (evaluate_int s.values a) (λ n.
    let address = c_malloc s (as_int64 n) in
    then_do (lift (malloc s.heap address (as_int64 n)))
      (λ h. Outcome.returns (put (record s { heap = h }) r (Constant.pointer_constant address))))

unfoldable pub execute_load_instr : State → Computed → Value → Outcome State
unfolding evaluate_pointer load decode put
execute_load_instr s r a = then_do (evaluate_pointer s.values a) (λ address.
    then_do (lift (load s.heap s.memory address (size r.type)))
      (λ bs. then_do (decode r.type bs) (λ c. Outcome.returns (put s r c))))

unfoldable pub execute_store_instr : State → Value → Value → Outcome State
unfolding evaluate_pointer value_bytes type_of store
execute_store_instr s a v = then_do (evaluate_pointer s.values a) (λ address.
    then_do (value_bytes s v (type_of v)) (λ bs.
      then_do (lift (store s.heap s.memory address bs))
        (λ next. Outcome.returns (record s { heap = next.0; memory = next.1 }))))

unfoldable pub execute_free_instr : State → Value → Outcome State
unfolding evaluate_pointer free
execute_free_instr s a =
    then_do (evaluate_pointer s.values a) (λ address.
      then_do (lift (free s.heap address)) (λ h. Outcome.returns (record s { heap = h })))
