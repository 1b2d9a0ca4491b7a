-- ===== src/Interpreter/Tests.antt =====
-- Tests of the model of src/ir/interpreter/heap.cc.
use katara.Prelude.{ℕ, ◌≡◌, refl, true, false, [], ◌∷◌}
use katara.Prelude.Int.{ℤ, pos, ◌+ℤ◌, ◌-ℤ◌}
use katara.Prelude.Result.{ok, err, failed}
use katara.Interpreter.Heap.{
  MemoryRange, Memory, Heap, malloc, free, load, store, fresh_memory, destroy, all_false,
  check_can_be_freed, is_contained_address, take_memory, overlap, check_exists, check_allocated,
  check_freed, is_contained, mark_as_initialized, set_flags, replace, write_bytes, was_freed,
}
use katara.Interpreter.Freeing.{use_after_free}
use katara.Interpreter.Storing.{load-store}

abbrev blank : ℤ → ℕ
blank x = 0

abbrev empty : Heap
empty = record { sanitize = true; allocated = []; freed = [] }

-- Eight bytes at 1000.
abbrev one : Heap
one = record {
  sanitize = true;
  allocated =
      record {
        range = record { address = pos 1000; size = pos 8 };
        initialization = false ∷ false ∷ false ∷ false ∷ false ∷ false ∷ false ∷ false ∷ [];
      }
      ∷ [];
  freed = [];
}

abbrev gone : Heap
gone = record {
  sanitize = true;
  allocated = [];
  freed = record { address = pos 1000; size = pos 8 } ∷ [];
}

allocating : malloc empty (pos 1000) (pos 8) ≡ ok one
unfolding malloc all_false
allocating = refl

leaking : destroy one ≡ err failed
unfolding destroy
leaking = refl

reading_uninitialized : load one blank (pos 1000) 1 ≡ err failed
unfolding load check_exists check_allocated is_contained
    katara.Interpreter.Heap.check_was_initialized katara.Interpreter.Heap.check_flags all_false ◌+ℤ◌
    ◌-ℤ◌
reading_uninitialized = refl

use_after_free_example : load gone blank (pos 1003) 2 ≡ err failed
unfolding free check_can_be_freed take_memory overlap ◌+ℤ◌
use_after_free_example =
    use_after_free one (pos 1000) gone (record { address = pos 1000; size = pos 8 }) blank
      (pos 1003) 1 refl (refl, tt, tt) refl refl refl

abbrev written : Heap
written = record {
  sanitize = true;
  allocated =
      record {
        range = record { address = pos 1000; size = pos 8 };
        initialization = false ∷ false ∷ true ∷ true ∷ false ∷ false ∷ false ∷ false ∷ [];
      }
      ∷ [];
  freed = [];
}

load-store_example :
    load written (write_bytes blank (pos 1002) (7 ∷ 9 ∷ [])) (pos 1002) 2 ≡ ok (7 ∷ 9 ∷ [])
unfolding store check_exists check_allocated is_contained mark_as_initialized set_flags replace ◌+ℤ◌
    ◌-ℤ◌
load-store_example =
    load-store one blank (pos 1002) (7 ∷ 9 ∷ []) written (write_bytes blank (pos 1002) (7 ∷ 9 ∷ []))
      refl refl
