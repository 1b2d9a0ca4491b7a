-- ===== src/Ir/HeapSoundness.antt =====
-- The instructions of src/ir/interpreter/interpreter.cc that use the heap, on values that have their types.
use katara.Prelude.{ℕ, zero, suc, ◌≡◌, refl, sym, true, List}
use katara.Prelude.Int.{ℤ}
use katara.Prelude.Result.{Result}
use katara.Atomics.Int.{as_int64}
use katara.Interpreter.Heap.{malloc, load, store, free}
use katara.Ir.Types.{IrType, Constant, Computed, Value, type_of, type_of_constant, is_int, size}
use katara.Ir.Execution.{lift, evaluate_bool, evaluate_int, evaluate_pointer, evaluate_func, State}
use katara.Ir.Memory.{
  bool_of, number_of, decode, value_bytes, execute_malloc_instr, execute_load_instr,
  execute_store_instr, execute_free_instr,
}
use katara.Ir.Evaluation.{
  Sound, Typed, Declares, then-Sound, lift-Sound, evaluate_bool-Sound, evaluate_int-Sound,
  evaluate_pointer-Sound, evaluate_func-Sound,
}
use katara.Ir.Soundness.{Keeps, Defines, put-Keeps}

bool_of-Sound : (n : ℕ) → Sound (λ c. type_of_constant c ≡ IrType.bool) (bool_of n)
unfolding Sound
bool_of-Sound zero = refl
bool_of-Sound (suc zero) = refl
bool_of-Sound (suc (suc n)) = tt

decode-Sound : (u : IrType) (bs : List ℕ) → Sound (λ c. type_of_constant c ≡ u) (decode u bs)
unfolding Sound decode
decode-Sound IrType.bool bs = bool_of-Sound (number_of bs)
decode-Sound (IrType.int t) bs = refl
decode-Sound IrType.pointer bs = refl
decode-Sound IrType.func bs = refl

any-Sound : {R : Type 0} (m : Result R) → Sound (λ r. Unit {0}) (lift m)
any-Sound m = lift-Sound (λ r. Unit {0}) m (λ r e. tt)

module _ (types : ℕ → IrType) (s : State) (t : Typed types s.values) where
  pub malloc-Keeps :
      (c_malloc : State → ℤ → ℤ) (r : Computed) (a : Value)
      → Defines types r
      → Declares types a
      → is_int (type_of a) ≡ true
      → r.type ≡ IrType.pointer
      → Keeps types (execute_malloc_instr c_malloc s r a)
  unfolding execute_malloc_instr
  malloc-Keeps c_malloc r a d e ia h =
      then-Sound _ _ (evaluate_int s.values a) _ (evaluate_int-Sound types s.values a t e ia)
        (λ n k.
          let address = c_malloc s (as_int64 n) in
          then-Sound _ _ (lift (malloc s.heap address (as_int64 n))) _
            (any-Sound (malloc s.heap address (as_int64 n)))
            (λ g x.
              put-Keeps types (record s { heap = g }) t r (Constant.pointer_constant address) d
                (sym h)))

  pub load-Keeps :
      (r : Computed) (a : Value)
      → Defines types r
      → Declares types a
      → type_of a ≡ IrType.pointer
      → Keeps types (execute_load_instr s r a)
  unfolding execute_load_instr
  load-Keeps r a d e h =
      then-Sound _ _ (evaluate_pointer s.values a) _ (evaluate_pointer-Sound types s.values a t e h)
        (λ address k.
          let m = load s.heap s.memory address (size r.type) in
          then-Sound _ _ (lift m) _ (any-Sound m) (λ bs x.
            then-Sound _ _ (decode r.type bs) _ (decode-Sound r.type bs)
              (λ c g. put-Keeps types s t r c d g)))

  bytes-Sound :
      (v : Value) (u : IrType)
      → Declares types v
      → type_of v ≡ u
      → Sound (λ bs. Unit {0}) (value_bytes s v u)
  unfolding value_bytes Sound
  bytes-Sound v IrType.bool e h =
      then-Sound _ _ (evaluate_bool s.values v) _ (evaluate_bool-Sound types s.values v t e h)
        (λ b k. tt)
  bytes-Sound v (IrType.int w) e h =
      then-Sound _ _ (evaluate_int s.values v) _
        (evaluate_int-Sound types s.values v t e (rw h refl)) (λ b k. tt)
  bytes-Sound v IrType.pointer e h =
      then-Sound _ _ (evaluate_pointer s.values v) _ (evaluate_pointer-Sound types s.values v t e h)
        (λ b k. tt)
  bytes-Sound v IrType.func e h =
      then-Sound _ _ (evaluate_func s.values v) _ (evaluate_func-Sound types s.values v t e h)
        (λ b k. tt)

  pub store-Keeps :
      (a v : Value)
      → Declares types a
      → Declares types v
      → type_of a ≡ IrType.pointer
      → Keeps types (execute_store_instr s a v)
  unfolding execute_store_instr Sound
  store-Keeps a v e g h =
      then-Sound _ _ (evaluate_pointer s.values a) _ (evaluate_pointer-Sound types s.values a t e h)
        (λ address k.
          then-Sound _ _ (value_bytes s v (type_of v)) _ (bytes-Sound v (type_of v) g refl) (λ bs x.
            then-Sound _ _ (lift (store s.heap s.memory address bs)) _
              (any-Sound (store s.heap s.memory address bs)) (λ next y. t)))

  pub free-Keeps :
      (a : Value)
      → Declares types a
      → type_of a ≡ IrType.pointer
      → Keeps types (execute_free_instr s a)
  unfolding execute_free_instr Sound
  free-Keeps a e h =
      then-Sound _ _ (evaluate_pointer s.values a) _ (evaluate_pointer-Sound types s.values a t e h)
        (λ address k.
          then-Sound _ _ (lift (free s.heap address)) _ (any-Sound (free s.heap address))
            (λ next y. t))
