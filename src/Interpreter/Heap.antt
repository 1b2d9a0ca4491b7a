-- ===== src/Interpreter/Heap.antt =====
-- src/ir/interpreter/heap.h and heap.cc: the heap with its sanitizer. An address is the number that the
-- code holds as an `int64_t`; the bytes behind the addresses are a function of their own. The address that
-- the C library's `malloc` returns is an argument, since it is no code of this repository.
use katara.Prelude.{
  ℕ, zero, suc, Bool, true, false, not, ◌&&◌, ◌||◌, if◌then◌else◌, List, [], ◌∷◌, ◌++◌, length,
}
use katara.Prelude.Int.{ℤ, pos, negsuc, ◌+ℤ◌, ◌-ℤ◌}
use katara.Prelude.Result.{Result, ok, err, failed, bad_access, undefined, ◌>>=◌}
use katara.Atomics.Cpp.{leb_ℤ}

abbrev pub ltb_ℤ : ℤ → ℤ → Bool
ltb_ℤ x y = not (leb_ℤ y x)

abbrev pub eqb_ℤ : ℤ → ℤ → Bool
eqb_ℤ x y = leb_ℤ x y && leb_ℤ y x

pub record MemoryRange : Type 0 where
  pub address : ℤ
  pub size : ℤ

pub record Memory : Type 0 where
  pub range : MemoryRange
  pub initialization : List Bool

pub record Heap : Type 0 where
  pub sanitize : Bool
  pub allocated : List Memory
  pub freed : List MemoryRange

abbrev pub end_of_range : MemoryRange → ℤ
end_of_range r = r.address +ℤ r.size

unfoldable pub is_contained_address : ℤ → MemoryRange → Bool
is_contained_address a r = leb_ℤ r.address a && ltb_ℤ a (end_of_range r)

unfoldable pub is_contained : MemoryRange → MemoryRange → Bool
is_contained x r = leb_ℤ r.address x.address && leb_ℤ (end_of_range x) (end_of_range r)

unfoldable pub overlap : MemoryRange → MemoryRange → Bool
overlap a b =
    (leb_ℤ a.address b.address && ltb_ℤ b.address (end_of_range a))
    || (leb_ℤ b.address a.address && ltb_ℤ a.address (end_of_range b))

-- `initialization(size, false)`.
unfoldable pub all_false : ℕ → List Bool
all_false zero = []
all_false (suc n) = false ∷ all_false n

abbrev pub fresh_memory : ℤ → ℕ → Memory
fresh_memory address size = record {
  range = record { address = address; size = pos size };
  initialization = all_false size;
}

-- `Malloc`, where the C library returns `address`. Without the sanitizer the heap keeps no account.
unfoldable pub malloc : Heap → ℤ → ℤ → Result Heap
malloc h address (negsuc n) = if h.sanitize then err failed else ok h
malloc h address (pos zero) = if h.sanitize then err failed else ok h
malloc h address (pos (suc n)) =
    if h.sanitize
    then ok (record h { allocated = h.allocated ++ (fresh_memory address (suc n) ∷ []) })
    else ok h

unfoldable pub was_freed : ℤ → List MemoryRange → Bool
was_freed a [] = false
was_freed a (r ∷ rs) = eqb_ℤ r.address a || was_freed a rs

-- `CheckCanBeFreed`; the two messages behind the loop over the allocated memory are both failures.
unfoldable pub check_can_be_freed : ℤ → List Memory → List MemoryRange → Result (Unit {0})
check_can_be_freed a [] freed = if was_freed a freed then err failed else err failed
check_can_be_freed a (m ∷ ms) freed =
    if eqb_ℤ m.range.address a
    then ok tt
    else if is_contained_address a m.range
    then err failed
    else check_can_be_freed a ms freed

-- `std::find_if` and `erase`: the first memory at the address, and the memories without it. Where there
-- is none, the code uses the end of the vector, which is undefined.
unfoldable pub take_memory : ℤ → List Memory → Result (MemoryRange × List Memory)
take_memory a [] = err undefined
take_memory a (m ∷ ms) =
    if eqb_ℤ m.range.address a
    then ok (m.range, ms)
    else elim (take_memory a ms) [ ok found ↦ ok (found.0, m ∷ found.1) | err e ↦ err e ]

unfoldable pub free : Heap → ℤ → Result Heap
free h address =
    if h.sanitize
    then (do
      _ ← check_can_be_freed address h.allocated h.freed
      found ← take_memory address h.allocated
      ok (record h { allocated = found.1; freed = h.freed ++ (found.0 ∷ []) }))
    else ok h

-- The loops of `CheckExists`; the memory is returned as a place among those allocated.
unfoldable pub check_freed : MemoryRange → List MemoryRange → Result (ℕ × Memory)
check_freed r [] = err failed
check_freed r (f ∷ fs) = if overlap r f then err failed else check_freed r fs

unfoldable pub check_allocated :
    MemoryRange → ℕ → List Memory → List MemoryRange → Result (ℕ × Memory)
check_allocated r i [] freed = check_freed r freed
check_allocated r i (m ∷ ms) freed =
    if is_contained r m.range
    then ok (i, m)
    else if overlap r m.range
    then err failed
    else check_allocated r (suc i) ms freed

unfoldable pub check_exists : Heap → MemoryRange → Result (ℕ × Memory)
check_exists h r =
    if leb_ℤ (pos 0) r.address && ltb_ℤ r.address (pos 100)
    then err failed
    else check_allocated r 0 h.allocated h.freed

-- An index below zero or behind the end makes `at` throw.
abbrev pub index_of : Memory → MemoryRange → Result ℕ
index_of m r = elim (r.address -ℤ m.range.address) [ pos n ↦ ok n | negsuc n ↦ err bad_access ]

unfoldable pub check_flags : List Bool → ℕ → ℕ → Result (Unit {0})
check_flags xs i zero = ok tt
check_flags [] i (suc n) = err bad_access
check_flags (x ∷ xs) zero (suc n) = if x then check_flags xs zero n else err failed
check_flags (x ∷ xs) (suc i) (suc n) = check_flags xs i (suc n)

unfoldable pub set_flags : List Bool → ℕ → ℕ → Result (List Bool)
set_flags xs i zero = ok xs
set_flags [] i (suc n) = err bad_access
set_flags (x ∷ xs) zero (suc n) = elim (set_flags xs zero n) [
  | ok ys ↦ ok (true ∷ ys)
  | err e ↦ err e
]
set_flags (x ∷ xs) (suc i) (suc n) = elim (set_flags xs i (suc n)) [
  | ok ys ↦ ok (x ∷ ys)
  | err e ↦ err e
]

unfoldable pub check_was_initialized : Memory → MemoryRange → ℕ → Result (Unit {0})
check_was_initialized m r n = do i ← index_of m r; check_flags m.initialization i n

unfoldable pub mark_as_initialized : Memory → MemoryRange → ℕ → Result Memory
mark_as_initialized m r n = do
  i ← index_of m r
  flags ← set_flags m.initialization i n
  ok (record m { initialization = flags })

-- The bytes of the machine's memory.
unfoldable pub read_bytes : (ℤ → ℕ) → ℤ → ℕ → List ℕ
read_bytes memory a zero = []
read_bytes memory a (suc n) = memory a ∷ read_bytes memory (a +ℤ pos 1) n

unfoldable pub write_bytes : (ℤ → ℕ) → ℤ → List ℕ → ℤ → ℕ
write_bytes memory a [] x = memory x
write_bytes memory a (b ∷ bs) x = if eqb_ℤ x a then b else write_bytes memory (a +ℤ pos 1) bs x

unfoldable pub replace : ℕ → Memory → List Memory → List Memory
replace i m [] = []
replace zero m (x ∷ xs) = m ∷ xs
replace (suc i) m (x ∷ xs) = x ∷ replace i m xs

-- `Load<T>`, where `T` has `n` bytes.
unfoldable pub load : Heap → (ℤ → ℕ) → ℤ → ℕ → Result (List ℕ)
load h memory address n =
    let r : MemoryRange = record { address = address; size = pos n } in
    if h.sanitize
    then (do
      found ← check_exists h r
      _ ← check_was_initialized found.1 r n
      ok (read_bytes memory address n))
    else ok (read_bytes memory address n)

-- `Store<T>` of a value with the bytes `value`.
unfoldable pub store : Heap → (ℤ → ℕ) → ℤ → List ℕ → Result (Heap × (ℤ → ℕ))
store h memory address value =
    let r : MemoryRange = record { address = address; size = pos (length value) } in
    if h.sanitize
    then (do
      found ← check_exists h r
      m ← mark_as_initialized found.1 r (length value)
      ok (record h { allocated = replace found.0 m h.allocated }, write_bytes memory address value))
    else ok (h, write_bytes memory address value)

-- The destructor: with the sanitizer, memory that was not freed is a failure.
unfoldable pub destroy : Heap → Result (Unit {0})
destroy h = if h.sanitize then elim h.allocated [ [] ↦ ok tt | m ∷ ms ↦ err failed ] else ok tt
