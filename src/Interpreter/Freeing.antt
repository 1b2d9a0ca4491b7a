-- ===== src/Interpreter/Freeing.antt =====
-- What the sanitizer of src/ir/interpreter/heap.cc notices around `Malloc` and `Free`.
use katara.Prelude.{
  ℕ, Bool-cases, subst, sym, inl, inr, ◌∙◌, suc, ◌≡◌, refl, arith, true, false, ◌&&◌, List, [], ◌∷◌,
  ◌++◌,
}
use katara.Prelude.Int.{ℤ, pos, ◌+ℤ◌}
use katara.Prelude.Result.{Result, ok, err, failed, ◌>>=◌}
use katara.Atomics.Cpp.{leb_ℤ}
use katara.Interpreter.Heap.{
  MemoryRange, Memory, Heap, ltb_ℤ, eqb_ℤ, overlap, is_contained_address, malloc, free,
  fresh_memory, check_can_be_freed, take_memory, check_freed, check_allocated, check_exists, load,
}
use katara.Interpreter.Ranges.{Clear, Apart, other_address, overlap_comm, not_contained}

can_free_last :
    (ms : List Memory) (a : ℤ) (n : ℕ) (freed : List MemoryRange)
    → Clear (record { address = a; size = pos (suc n) }) ms
    → check_can_be_freed a (ms ++ (fresh_memory a (suc n) ∷ [])) freed ≡ ok tt
unfolding check_can_be_freed is_contained_address overlap ◌+ℤ◌
can_free_last [] a n freed c = ground arith
can_free_last (m ∷ ms) a n freed c = ground (arith, can_free_last ms a n freed c.1)

take_last :
    (ms : List Memory) (a : ℤ) (n : ℕ)
    → Clear (record { address = a; size = pos (suc n) }) ms
    → take_memory a (ms ++ (fresh_memory a (suc n) ∷ []))
      ≡ ok (record { address = a; size = pos (suc n) }, ms)
unfolding take_memory
take_last [] a n c = ground arith
take_last (m ∷ ms) a n c = rw (other_address a n m.range c.0, take_last ms a n c.1) refl

-- Memory that the sanitizing heap allocated at a range that overlaps none it holds can be freed at once:
-- the heap then holds what it held before, and one more freed range.
pub free-malloc :
    (h : Heap) (a : ℤ) (n : ℕ)
    → h.sanitize ≡ true
    → Clear (record { address = a; size = pos (suc n) }) h.allocated
    → (malloc h a (pos (suc n)) >>= λ h'. free h' a)
      ≡ ok (record h { freed = h.freed ++ (record { address = a; size = pos (suc n) } ∷ []) })
unfolding malloc free
free-malloc h a n s c =
    rw s (rw (can_free_last h.allocated a n h.freed c, take_last h.allocated a n c) refl)

-- A range that overlaps none of the memories overlaps neither the one that is taken nor those left.
Left : ℤ → MemoryRange → Result (MemoryRange × List Memory) → Type 0
Left a x (ok found) = (overlap x found.0 ≡ false) × Clear x found.1
Left a x (err w) = Unit {0}

take_memory-Left :
    (ms : List Memory) (a : ℤ) (x : MemoryRange) → Clear x ms → Left a x (take_memory a ms)
unfolding take_memory Left
take_memory-Left [] a x c = tt
take_memory-Left (m ∷ ms) a x c =
    let h = take_memory-Left ms a x c.1 in
    elim (Bool-cases (eqb_ℤ m.range.address a)) [
      | inl t ↦ rw t c
      | inr f ↦ rw f (behind (take_memory a ms) h)
    ]
  where
    behind :
        (t : Result (MemoryRange × List Memory))
        → Left a x t
        → Left a x (elim t [ ok found ↦ ok (found.0, m ∷ found.1) | err w ↦ err w ])
    behind (ok found) h = (h.0, (c.0, h.1))
    behind (err w) h = tt

-- A range that overlaps the freed one is found in no other memory.
no_access :
    (ms : List Memory) (r x : MemoryRange) (i : ℕ) (freed : List MemoryRange)
    → Clear r ms
    → leb_ℤ x.size (pos 0) ≡ false
    → overlap x r ≡ true
    → check_allocated x i ms freed ≡ err failed
unfolding check_allocated check_freed
no_access [] r x i [] c n o = refl
no_access [] r x i (f ∷ fs) c n o = ground (arith, no_access [] r x i fs tt n o)
no_access (m ∷ ms) r x i freed c n o =
    ground (arith, not_contained x r m.range n o c.0, no_access ms r x (suc i) freed c.1 n o)

no_free :
    (ms : List Memory) (r : MemoryRange) (freed : List MemoryRange)
    → Clear r ms
    → leb_ℤ r.size (pos 0) ≡ false
    → check_can_be_freed r.address ms freed ≡ err failed
unfolding check_can_be_freed is_contained_address overlap ◌+ℤ◌
no_free [] r freed c n = ground arith
no_free (m ∷ ms) r freed c n = ground (arith, no_free ms r freed c.1 n)

-- What is known of the memory that is taken and of those left.
Taken : ℤ → Result (MemoryRange × List Memory) → Type 0
Taken a (ok found) =
    (found.0.address ≡ a)
    × (leb_ℤ found.0.size (pos 0) ≡ false)
    × Clear found.0 found.1
    × Apart found.1
Taken a (err w) = Unit {0}

at_address : (a : ℤ) (r : MemoryRange) → eqb_ℤ r.address a ≡ true → r.address ≡ a
at_address a r h = ground arith

take_memory-Taken : (ms : List Memory) (a : ℤ) → Apart ms → Taken a (take_memory a ms)
unfolding take_memory Taken Left
take_memory-Taken [] a p = tt
take_memory-Taken (m ∷ ms) a p =
    let h = take_memory-Taken ms a p.2 in
    let left = take_memory-Left ms a m.range p.1 in
    elim (Bool-cases (eqb_ℤ m.range.address a)) [
      | inl t ↦ rw t (at_address a m.range t, p.0, p.1, p.2)
      | inr f ↦ rw f (behind (take_memory a ms) h left)
    ]
  where
    behind :
        (t : Result (MemoryRange × List Memory))
        → Taken a t
        → Left a m.range t
        → Taken a (elim t [ ok found ↦ ok (found.0, m ∷ found.1) | err w ↦ err w ])
    behind (ok found) h left =
        (h.0, h.1, (overlap_comm found.0 m.range ∙ left.0, h.2), (p.0, left.1, h.3))
    behind (err w) h left = tt

-- The heap after `r` was freed at its address.
pub record AfterFree (h h' : Heap) (a : ℤ) (r : MemoryRange) : Type 0 where
  pub starts : r.address ≡ a
  pub not_empty : leb_ℤ r.size (pos 0) ≡ false
  pub noted : h'.freed ≡ h.freed ++ (r ∷ [])
  pub left_apart : Apart h'.allocated
  pub left_clear : Clear r h'.allocated
  pub again : free h' a ≡ err failed
  pub sanitizes : h'.sanitize ≡ true

without : Heap → MemoryRange × List Memory → Heap
without h found = record h { allocated = found.1; freed = h.freed ++ (found.0 ∷ []) }

free-without :
    (h : Heap) (r : MemoryRange) (rest : List Memory)
    → h.sanitize ≡ true
    → Clear r rest
    → leb_ℤ r.size (pos 0) ≡ false
    → free (without h (r, rest)) r.address ≡ err failed
unfolding free without
free-without h r rest s c n = rw s (rw (no_free rest r (h.freed ++ (r ∷ [])) c n) refl)

freed_again :
    (h : Heap) (a : ℤ) (h' : Heap) (t : Result (MemoryRange × List Memory))
    → h.sanitize ≡ true
    → Taken a t
    → (t >>= λ found. ok (without h found)) ≡ ok h'
    → (r : MemoryRange) × AfterFree h h' a r
unfolding Taken without
freed_again h a h' (ok found) s k e =
    let same : without h found ≡ h' = cc in
    subst (λ (x : Heap). (r : MemoryRange) × AfterFree h x a r) same
      (
        found.0,
        record {
          starts = k.0;
          not_empty = k.1;
          noted = refl;
          left_apart = k.3;
          left_clear = k.2;
          again =
              subst (λ (x : ℤ). free (without h found) x ≡ err failed) k.0
                (free-without h found.0 found.1 s k.2 k.1);
          sanitizes = s;
        },
      )
freed_again h a h' (err w) s k e = cc

free_succeeded :
    (h : Heap) (a : ℤ) (h' : Heap) (t : Result (Unit {0}))
    → (t >>= λ _. take_memory a h.allocated >>= λ found. ok (without h found)) ≡ ok h'
    → (take_memory a h.allocated >>= λ found. ok (without h found)) ≡ ok h'
free_succeeded h a h' (ok tt) e = e
free_succeeded h a h' (err w) e = cc

free_steps :
    (h : Heap) (a : ℤ)
    → h.sanitize ≡ true
    → free h a ≡ (
        check_can_be_freed a h.allocated h.freed >>= λ _.
        take_memory a h.allocated >>= λ found. ok (without h found))
unfolding free without
free_steps h a s = rw s refl

-- A sanitizing heap whose memories do not overlap, on which `Free` succeeds: it notes one range behind
-- those freed before, with the address that was freed; the memories left overlap neither one another
-- nor that range, and freeing the address again fails.
pub free_twice :
    (h : Heap) (a : ℤ) (h' : Heap)
    → h.sanitize ≡ true
    → Apart h.allocated
    → free h a ≡ ok h'
    → (r : MemoryRange) × AfterFree h h' a r
free_twice h a h' s p e =
    freed_again h a h' (take_memory a h.allocated) s (take_memory-Taken h.allocated a p) (
      free_succeeded h a h' (check_can_be_freed a h.allocated h.freed) (rw (free_steps h a s) at e))

last_of : (xs : List MemoryRange) (x y : MemoryRange) → xs ++ (x ∷ []) ≡ xs ++ (y ∷ []) → x ≡ y
last_of [] x y e = cc
last_of (z ∷ xs) x y e = last_of xs x y cc

abbrev bytes_at : ℤ → ℕ → MemoryRange
bytes_at x n = record { address = x; size = pos (suc n) }

load_fails :
    (h : Heap) (memory : ℤ → ℕ) (x : ℤ) (n : ℕ)
    → h.sanitize ≡ true
    → check_allocated (bytes_at x n) 0 h.allocated h.freed ≡ err failed
    → load h memory x (suc n) ≡ err failed
unfolding load check_exists
load_fails h memory x n s g = elim (Bool-cases (leb_ℤ (pos 0) x && ltb_ℤ x (pos 100))) [
  | inl t ↦ rw (s, t) refl
  | inr f ↦ rw (s, f) (rw g refl)
]

-- After a `Free` that succeeded on a sanitizing heap whose memories do not overlap, loading a byte or
-- more from a range that overlaps the freed one fails.
pub use_after_free :
    (h : Heap) (a : ℤ) (h' : Heap) (r : MemoryRange) (memory : ℤ → ℕ) (x : ℤ) (n : ℕ)
    → h.sanitize ≡ true
    → Apart h.allocated
    → free h a ≡ ok h'
    → h'.freed ≡ h.freed ++ (r ∷ [])
    → overlap (record { address = x; size = pos (suc n) }) r ≡ true
    → load h' memory x (suc n) ≡ err failed
use_after_free h a h' r memory x n s p e noted o =
    let (r', k) = free_twice h a h' s p e in
    let same : r' ≡ r = last_of h.freed r' r (sym k.noted ∙ noted) in
    let clear : Clear r h'.allocated =
      subst (λ (y : MemoryRange). Clear y h'.allocated) same k.left_clear in
    load_fails h' memory x n k.sanitizes
      (no_access h'.allocated r (bytes_at x n) 0 h'.freed clear (ground arith) o)
