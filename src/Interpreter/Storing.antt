-- ===== src/Interpreter/Storing.antt =====
-- What is stored through src/ir/interpreter/heap.cc is what is loaded.
use katara.Prelude.{
  ℕ, Bool-cases, length, subst, sym, inl, inr, zero, suc, ◌+◌, ◌≡◌, refl, arith, Bool, true, false,
  ◌&&◌, List, [], ◌∷◌,
}
use katara.Prelude.Int.{ℤ, pos, negsuc, ◌-ℤ◌}
use katara.Prelude.Result.{Result, ok, err, failed, bad_access, ◌>>=◌}
use katara.Atomics.Cpp.{leb_ℤ}
use katara.Interpreter.Heap.{
  MemoryRange, Memory, Heap, ltb_ℤ, overlap, is_contained, check_freed, check_allocated,
  check_exists, load, store, replace, check_flags, set_flags, mark_as_initialized, write_bytes,
  check_was_initialized,
}
use katara.Interpreter.RawBytes.{read_bytes-write_bytes}

-- Flags that were set are found set.
AreSet : ℕ → ℕ → Result (List Bool) → Type 0
AreSet i n (ok ys) = check_flags ys i n ≡ ok tt
AreSet i n (err w) = Unit {0}

set_flags-AreSet : (xs : List Bool) (i n : ℕ) → AreSet i n (set_flags xs i n)
unfolding check_flags set_flags AreSet
set_flags-AreSet xs i zero = refl
set_flags-AreSet [] i (suc n) = tt
set_flags-AreSet (x ∷ xs) zero (suc n) = here (set_flags xs zero n) (set_flags-AreSet xs zero n)
  where
    here :
        (t : Result (List Bool))
        → AreSet zero n t
        → AreSet zero (suc n) (elim t [ ok ys ↦ ok (true ∷ ys) | err e ↦ err e ])
    here (ok ys) h = h
    here (err w) h = tt
set_flags-AreSet (x ∷ xs) (suc i) (suc n) =
    there (set_flags xs i (suc n)) (set_flags-AreSet xs i (suc n))
  where
    there :
        (t : Result (List Bool))
        → AreSet i (suc n) t
        → AreSet (suc i) (suc n) (elim t [ ok ys ↦ ok (x ∷ ys) | err e ↦ err e ])
    there (ok ys) h = h
    there (err w) h = tt

-- The memory that is found is found again after its flags were changed.
Kept : MemoryRange → ℕ → List Memory → List MemoryRange → Result (ℕ × Memory) → Type 0
Kept r i ms freed (ok found) =
    (k : ℕ) × (found.0 ≡ i + k)
    × ((flags : List Bool)
        → check_allocated r i (replace k (record found.1 { initialization = flags }) ms) freed
          ≡ ok (found.0, record found.1 { initialization = flags }))
Kept r i ms freed (err w) = Unit {0}

check_freed_fails : (r : MemoryRange) (fs : List MemoryRange) → check_freed r fs ≡ err failed
unfolding check_freed
check_freed_fails r [] = refl
check_freed_fails r (f ∷ fs) = ground (arith, check_freed_fails r fs)

check_allocated-Kept :
    (r : MemoryRange) (i : ℕ) (ms : List Memory) (freed : List MemoryRange)
    → Kept r i ms freed (check_allocated r i ms freed)
unfolding check_allocated replace Kept
check_allocated-Kept r i [] freed = rw (check_freed_fails r freed) tt
check_allocated-Kept r i (m ∷ ms) freed = elim (Bool-cases (is_contained r m.range)) [
  | inl t ↦ rw t (zero, omega arith, λ flags. rw t refl)
  | inr f ↦ elim (Bool-cases (overlap r m.range)) [
    | inl t ↦ rw (f, t) tt
    | inr g ↦
        rw (f, g)
          (later f g (check_allocated r (suc i) ms freed) (check_allocated-Kept r (suc i) ms freed))
  ]
]
  where
    later :
        is_contained r m.range ≡ false
        → overlap r m.range ≡ false
        → (t : Result (ℕ × Memory)) → Kept r (suc i) ms freed t
        → Kept r i (m ∷ ms) freed t
    later f g (ok found) h = (suc h.0, omega (arith, h.1), λ flags. rw (f, g) (h.2 flags))
    later f g (err w) h = tt

abbrev near_null : ℤ → Bool
near_null a = leb_ℤ (pos 0) a && ltb_ℤ a (pos 100)

abbrev span : ℤ → List ℕ → MemoryRange
span a value = record { address = a; size = pos (length value) }

-- The heap in which the flags of the memory at place `k` are `flags`.
abbrev with_flags : Heap → ℕ → Memory → List Bool → Heap
with_flags h k m flags = record h {
  allocated = replace k (record m { initialization = flags }) h.allocated;
}

checked :
    (m : Memory) (flags : List Bool) (r : MemoryRange) (i n : ℕ)
    → r.address -ℤ m.range.address ≡ pos i
    → check_flags flags i n ≡ ok tt
    → check_was_initialized (record m { initialization = flags }) r n ≡ ok tt
unfolding check_was_initialized
checked m flags r i n place set =
    subst
      (λ (d : ℤ).
        ((elim d [ pos j ↦ ok j | negsuc j ↦ err bad_access ]) >>= λ j. check_flags flags j n)
        ≡ ok tt)
      (sym place) set

module _ (h : Heap) (memory : ℤ → ℕ) (a : ℤ) (value : List ℕ) (on : h.sanitize ≡ true) where
  load_back :
      (k : ℕ) (m : Memory) (flags : List Bool) (i : ℕ)
      → near_null a ≡ false
      → check_allocated
          (span a value)
          0
          (replace k (record m { initialization = flags }) h.allocated)
          h.freed
        ≡ ok (k, record m { initialization = flags })
      → a -ℤ m.range.address ≡ pos i
      → check_flags flags i (length value) ≡ ok tt
      → load (with_flags h k m flags) (write_bytes memory a value) a (length value) ≡ ok value
  unfolding load check_exists
  load_back k m flags i far found place set =
      rw (on, far)
        (rw found (
          rw (checked m flags (span a value) i (length value) place set)
            (rw (read_bytes-write_bytes memory a value) refl)))

  stored : Result (ℕ × Memory) → Result (Heap × (ℤ → ℕ))
  stored t = do
    found ← t
    m ← mark_as_initialized found.1 (span a value) (length value)
    ok (record h { allocated = replace found.0 m h.allocated }, write_bytes memory a value)

  store_steps :
      near_null a ≡ false
      → store h memory a value ≡ stored (check_allocated (span a value) 0 h.allocated h.freed)
  unfolding store check_exists stored
  store_steps far = rw (on, far) refl

  store-near_null : near_null a ≡ true → store h memory a value ≡ err failed
  unfolding store check_exists
  store-near_null near = rw (on, near) refl

  Loads : Result (Heap × (ℤ → ℕ)) → Type 0
  Loads (ok s) = load s.0 s.1 a (length value) ≡ ok value
  Loads (err w) = Unit {0}

  stored-Loads :
      (t : Result (ℕ × Memory))
      → near_null a ≡ false
      → Kept (span a value) 0 h.allocated h.freed t
      → Loads (stored t)
  unfolding stored Loads Kept mark_as_initialized AreSet
  stored-Loads (err w) far kept = tt
  stored-Loads (ok found) far kept = by_place (a -ℤ found.1.range.address) refl
    where
      again :
          (flags : List Bool)
          → check_allocated
              (span a value)
              0
              (replace found.0 (record found.1 { initialization = flags }) h.allocated)
              h.freed
            ≡ ok (found.0, record found.1 { initialization = flags })
      again flags =
          let same : kept.0 ≡ found.0 = omega (arith, kept.1) in
          subst
            (λ (k : ℕ).
              check_allocated (span a value) 0
                (replace k (record found.1 { initialization = flags }) h.allocated) h.freed
              ≡ ok (found.0, record found.1 { initialization = flags }))
            same (kept.2 flags)

      by_flags :
          (i : ℕ)
          → a -ℤ found.1.range.address ≡ pos i
          → (t : Result (List Bool)) → AreSet i (length value) t
          → Loads (
              t >>= (λ flags. ok (record found.1 { initialization = flags })) >>= λ m.
              ok (
                record h { allocated = replace found.0 m h.allocated },
                write_bytes memory a value,
              ))
      by_flags i place (ok flags) set =
          load_back found.0 found.1 flags i far (again flags) place set
      by_flags i place (err w) set = tt

      by_place :
          (d : ℤ)
          → a -ℤ found.1.range.address ≡ d
          → Loads (
              (elim d [ pos n ↦ ok n | negsuc n ↦ err bad_access ])
              >>= (λ i. set_flags found.1.initialization i (length value) >>= λ flags.
                  ok (record found.1 { initialization = flags }))
              >>= λ m. ok (
                record h { allocated = replace found.0 m h.allocated },
                write_bytes memory a value,
              ))
      by_place (pos i) place =
          by_flags i place (set_flags found.1.initialization i (length value))
            (set_flags-AreSet found.1.initialization i (length value))
      by_place (negsuc i) place = tt

  store-Loads : Loads (store h memory a value)
  unfolding Loads
  store-Loads = elim (Bool-cases (near_null a)) [
    | inl t ↦ rw (store-near_null t) tt
    | inr f ↦ subst Loads (sym (store_steps f)) (
        stored-Loads (check_allocated (span a value) 0 h.allocated h.freed) f
          (check_allocated-Kept (span a value) 0 h.allocated h.freed))
  ]

-- On a sanitizing heap, what `Store` stored is what `Load` loads from the same address, in as many bytes.
pub load-store :
    (h : Heap) (memory : ℤ → ℕ) (a : ℤ) (value : List ℕ) (h' : Heap) (memory' : ℤ → ℕ)
    → h.sanitize ≡ true
    → store h memory a value ≡ ok (h', memory')
    → load h' memory' a (length value) ≡ ok value
unfolding Loads
load-store h memory a value h' memory' on e = rw e at (store-Loads h memory a value on)
