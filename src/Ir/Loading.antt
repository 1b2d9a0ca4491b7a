-- ===== src/Ir/Loading.antt =====
-- Values in the memory of the programs that src/ir/interpreter/interpreter.cc runs: what a store instruction stored is
-- what a load instruction loads.
use katara.Prelude.{
  ℕ, zero, suc, ◌*◌, ◌/◌, ◌<◌, ◌≡◌, refl, ap, subst, arith, true, false, List, [], ◌∷◌, length,
}
use katara.Prelude.Int.{ℤ, pos, negsuc}
use katara.Prelude.Result.{Result, ok, err}
use katara.Atomics.IntType.{IntType, i8, i64, bit_size_of}
use katara.Atomics.Cpp.{InRange, bits, of_bits, cast}
use katara.Atomics.CastLaws.{cast_self}
use katara.Atomics.Int.{as_int64, as_uint64}
use katara.Interpreter.Heap.{Heap, store}
use katara.Interpreter.Storing.{load-store}
use katara.Ir.Types.{IrType, Constant, Computed, Value, type_of, type_of_constant, size}
use katara.Ir.Execution.{
  Outcome, then_do, lift, evaluate, evaluate_bool, evaluate_int, evaluate_pointer, evaluate_func,
  State, put,
}
use katara.Ir.Memory.{
  number_of, bytes_of, int_bytes, stored_int, decode, value_bytes, execute_load_instr,
  execute_store_instr,
}

abbrev limit : ℕ → ℕ
limit zero = 1
limit (suc k) = 256 * limit k

number_of-bytes_of : (k n : ℕ) → n < limit k → number_of (bytes_of k n) ≡ n
unfolding number_of bytes_of
number_of-bytes_of zero n h = omega arith
number_of-bytes_of (suc k) n h = omega (arith, number_of-bytes_of k (n / 256) (omega arith))

length-bytes_of : (k n : ℕ) → length (bytes_of k n) ≡ k
unfolding bytes_of
length-bytes_of zero n = refl
length-bytes_of (suc k) n = ap suc (length-bytes_of k (n / 256))

bits-limit : (t : IntType) (z : ℤ) → bits (bit_size_of t) z < limit (bit_size_of t / 8)
bits-limit i8 (pos n) = ground arith
bits-limit i8 (negsuc n) = ground arith
bits-limit _ (pos n) = ground arith
bits-limit _ (negsuc n) = ground arith

-- An integer of the type, from its bytes.
int_bytes-number : (t : IntType) (z : ℤ) → InRange t z → of_bits t (number_of (int_bytes t z)) ≡ z
unfolding cast int_bytes
int_bytes-number t z h =
    rw (number_of-bytes_of (bit_size_of t / 8) (bits (bit_size_of t) z) (bits-limit t z))
      (cast_self t z h)

stored_int-value :
    (t : IntType) (z : ℤ) → InRange t z → stored_int (record { type = t; value = z }) ≡ z
unfolding stored_int cast as_int64 as_uint64
stored_int-value i8 (pos n) h = ground arith
stored_int-value i8 (negsuc n) h = ground arith
stored_int-value _ (pos n) h = ground arith
stored_int-value _ (negsuc n) h = ground arith

-- The value of a constant is one of its type.
unfoldable pub Fits : Constant → Type 0
Fits (Constant.bool_constant b) = Unit {0}
Fits (Constant.int_constant a) = InRange a.type a.value
Fits (Constant.pointer_constant p) = InRange i64 p
Fits (Constant.func_constant f) = InRange i64 f

abbrev Stored : State → Value → IrType → Constant → Type 0
Stored s v u c =
    (bs : List ℕ) × (value_bytes s v u ≡ Outcome.returns bs)
    × (decode u bs ≡ Outcome.returns c)
    × (length bs ≡ size u)

value_bytes-Stored :
    (s : State) (v : Value) (c : Constant)
    → evaluate s.values v ≡ Outcome.returns c
    → Fits c
    → Stored s v (type_of_constant c) c
unfolding value_bytes decode evaluate_bool evaluate_int evaluate_pointer evaluate_func Fits
    number_of int_bytes
value_bytes-Stored s v (Constant.bool_constant true) e f = (1 ∷ [], rw e refl, refl, refl)
value_bytes-Stored s v (Constant.bool_constant false) e f = (0 ∷ [], rw e refl, refl, refl)
value_bytes-Stored s v (Constant.int_constant a) e f = (
  int_bytes a.type a.value,
  rw (e, stored_int-value a.type a.value f) refl,
  rw (int_bytes-number a.type a.value f) refl,
  length-bytes_of (bit_size_of a.type / 8) (bits (bit_size_of a.type) a.value),
)
value_bytes-Stored s v (Constant.pointer_constant p) e f =
    (int_bytes i64 p, rw e refl, rw (int_bytes-number i64 p f) refl, length-bytes_of 8 (bits 64 p))
value_bytes-Stored s v (Constant.func_constant p) e f =
    (int_bytes i64 p, rw e refl, rw (int_bytes-number i64 p f) refl, length-bytes_of 8 (bits 64 p))

loaded :
    (s : State) (address : ℤ) (r : Computed) (c : Constant) (bs : List ℕ) (next : Heap × (ℤ → ℕ))
    (a : Value)
    → s.heap.sanitize ≡ true
    → evaluate_pointer s.values a ≡ Outcome.returns address
    → store s.heap s.memory address bs ≡ ok next
    → decode r.type bs ≡ Outcome.returns c
    → length bs ≡ size r.type
    → execute_load_instr (record s { heap = next.0; memory = next.1 }) r a
      ≡ Outcome.returns (put (record s { heap = next.0; memory = next.1 }) r c)
unfolding execute_load_instr
loaded s address r c bs next a on at h d n =
    rw (at, ← n, load-store s.heap s.memory address bs next.0 next.1 on h, d) refl

-- Of the constant that is stored: the load instruction gives it back.
GivesBack : Value → Computed → Constant → Outcome State → Type 0
GivesBack a r c (Outcome.returns s) = execute_load_instr s r a ≡ Outcome.returns (put s r c)
GivesBack a r c (Outcome.stops why) = Unit {0}
GivesBack a r c Outcome.wrong_class = Unit {0}

store-GivesBack :
    (s : State) (a v : Value) (r : Computed) (c : Constant)
    → s.heap.sanitize ≡ true
    → evaluate s.values v ≡ Outcome.returns c
    → Fits c
    → type_of_constant c ≡ type_of v
    → type_of_constant c ≡ r.type
    → GivesBack a r c (execute_store_instr s a v)
unfolding GivesBack execute_store_instr
store-GivesBack s a v r c on e f tv tr = by_address (evaluate_pointer s.values a) refl
  where
    by_address :
        (o : Outcome ℤ)
        → evaluate_pointer s.values a ≡ o
        → GivesBack a r c (
            then_do o (λ address. then_do (value_bytes s v (type_of v)) (λ bs.
              then_do
                (lift (store s.heap s.memory address bs))
                (λ next. Outcome.returns (record s { heap = next.0; memory = next.1 })))))
    by_address Outcome.wrong_class h = tt
    by_address (Outcome.stops why) h = tt
    by_address (Outcome.returns address) h =
        let (bs, b, d, n) = value_bytes-Stored s v c e f in
        rw (← tv, b)
          (by_store address bs (store s.heap s.memory address bs) refl h (rw (← tr) d)
            (rw (← tr) n))
      where
        by_store :
            (address : ℤ) (bs : List ℕ) (m : Result (Heap × (ℤ → ℕ)))
            → store s.heap s.memory address bs ≡ m
            → evaluate_pointer s.values a ≡ Outcome.returns address
            → decode r.type bs ≡ Outcome.returns c
            → length bs ≡ size r.type
            → GivesBack a r c (
                then_do
                  (lift m)
                  (λ next. Outcome.returns (record s { heap = next.0; memory = next.1 })))
        by_store address bs (err why) k h d n = tt
        by_store address bs (ok next) k h d n = loaded s address r c bs next a on h k d n

-- On a sanitizing heap, where a store instruction of a value runs, a load instruction of the type of the value from the
-- same address gives the constant that the value stands for, provided that this is a constant of the type of the value
-- and within its range.
pub load_instr-store_instr :
    (s : State) (a v : Value) (r : Computed) (c : Constant) (s' : State)
    → s.heap.sanitize ≡ true
    → evaluate s.values v ≡ Outcome.returns c
    → Fits c
    → type_of_constant c ≡ type_of v
    → type_of_constant c ≡ r.type
    → execute_store_instr s a v ≡ Outcome.returns s'
    → execute_load_instr s' r a ≡ Outcome.returns (put s' r c)
unfolding GivesBack
load_instr-store_instr s a v r c s' on e f tv tr h =
    subst (GivesBack a r c) h (store-GivesBack s a v r c on e f tv tr)
