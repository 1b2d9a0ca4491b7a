-- ===== src/Liveness/Queue.antt =====
-- The loop over the queue of blocks in src/ir/analyzers/live_range_analyzer.cc: its invariant, and that it ends.
use katara.Prelude.{
  ℕ, ◌+◌, ◌≤◌, ◌≡◌, refl, arith, true, false, not, ◌&&◌, ◌||◌, ◌==◌, List, [], ◌∷◌, length, inl,
  inr, Bool-cases,
}
use katara.Prelude.Result.{ok}
use katara.Interference.Sets.{mem, mem-add}
use katara.Liveness.Ranges.{
  BlockLiveRanges, FuncLiveRanges, get_entry_set, get_block_live_ranges, put_block_live_ranges,
  propagate_backwards_from_exit_set,
}
use katara.Liveness.Analyzer.{propagate_all, visit_parents}
use katara.Liveness.Edges.{distinct}
use katara.Liveness.Operations.{range_operations_exact}
use katara.Liveness.Growth.{Grown, propagate_all-Grown}
use katara.Liveness.Flow.{Ranged, Ordered, Settled, total, get-put, entry_at, entry_at-ok}
use katara.Liveness.Visit.{
  queued, next, Settled-kept, Settled-new, total-fewer, Ranged-kept, Ordered-next,
}

-- A property of the ranges of each block that the way back from the exit set keeps.
module _ (P : ℕ → BlockLiveRanges → Type 0)
    (keeps : (n v : ℕ) (l : BlockLiveRanges)
      → distinct l.value_ranges ≡ true
      → P n l
      → P n (propagate_backwards_from_exit_set l v)) where
  abbrev pub Holds : FuncLiveRanges → Type 0
  Holds ranges = (n : ℕ) (l : BlockLiveRanges) → get_block_live_ranges ranges n ≡ ok l → P n l

  propagate_all-keeps :
      (n : ℕ) (vs : List ℕ) (l : BlockLiveRanges)
      → distinct l.value_ranges ≡ true
      → P n l
      → P n (propagate_all vs l)
  unfolding propagate_all
  propagate_all-keeps n [] l d h = h
  propagate_all-keeps n (v ∷ vs) l d h =
      propagate_all-keeps n vs _ (range_operations_exact l v 0 d).2.is_distinct (keeps n v l d h)

  Holds-put :
      (ranges : FuncLiveRanges) (p : ℕ) (old new : BlockLiveRanges)
      → get_block_live_ranges ranges p ≡ ok old
      → P p new
      → Holds ranges
      → Holds (put_block_live_ranges ranges p new)
  Holds-put ranges p old new h k holds n l e = elim (Bool-cases (p == n)) [
    | inl s ↦ ground (arith, get-put ranges p old new n h)
    | inr s ↦ holds n l (ground (arith, get-put ranges p old new n h))
  ]

  mem-queued :
      (p : ℕ) (old new : BlockLiveRanges) (queue : List ℕ) (a : ℕ)
      → (mem a (queued p old new queue) && not (p == a || mem a queue)) ≡ false
  unfolding queued
  mem-queued p old new queue a = ground (arith, mem-add a p queue)

  pub record Visited (us : List ℕ) (bnum : ℕ) (parents : List ℕ) (ranges : FuncLiveRanges)
      (queue : List ℕ) : Type 0 where
    pub then_ranges : FuncLiveRanges
    pub then_queue : List ℕ
    pub runs : visit_parents bnum parents ranges queue ≡ ok (then_ranges, then_queue)
    pub ordered : Ordered us then_ranges
    pub fewer : total us then_ranges + length then_queue ≤ total us ranges + length queue
    pub ranged : (n : ℕ) → Ranged ranges n → Ranged then_ranges n
    pub kept : (n q : ℕ) → Settled queue ranges n q → Settled then_queue then_ranges n q
    pub settled : (q : ℕ) → mem q parents ≡ true → Settled then_queue then_ranges bnum q
    pub queue_from : (a : ℕ) → (mem a then_queue && not (mem a queue || mem a parents)) ≡ false
    pub holds : Holds then_ranges

  entry-from :
      (ranges : FuncLiveRanges) (n : ℕ) (l : BlockLiveRanges) (a : ℕ)
      → get_block_live_ranges ranges n ≡ ok l
      → mem a (entry_at ranges n) ≡ mem a (get_entry_set l)
  entry-from ranges n l a e = rw (entry_at-ok ranges n n l e (ground arith)) refl

  Visited-step :
      (us : List ℕ) (bnum p : ℕ) (parents : List ℕ) (ranges : FuncLiveRanges) (queue : List ℕ)
      (child old new : BlockLiveRanges)
      → get_block_live_ranges ranges bnum ≡ ok child
      → (here : get_block_live_ranges ranges p ≡ ok old)
      → new ≡ propagate_all (get_entry_set child) old
      → (g : Grown us (get_entry_set child) old new)
      → Visited us bnum parents (put_block_live_ranges ranges p new) (queued p old new queue)
      → Visited us bnum (p ∷ parents) ranges queue
  unfolding visit_parents next queued
  Visited-step us bnum p parents ranges queue child old new ec here made g rest =
      let vs = get_entry_set child in
      record {
        then_ranges = rest.then_ranges;
        then_queue = rest.then_queue;
        runs = rw (ec, here, ← made) rest.runs;
        ordered = rest.ordered;
        fewer = omega (arith, total-fewer us vs ranges p old new queue here g, rest.fewer);
        ranged = λ n x. rest.ranged n (Ranged-kept us vs ranges p old new queue here g n x);
        kept = λ n q s. rest.kept n q (Settled-kept us vs ranges p old new queue here g n q s);
        settled = λ q m. elim (Bool-cases (p == q)) [
          | inl e ↦
              let same : p ≡ q = ground arith in
              rw (← same) (
                rest.kept bnum p (
                  Settled-new us vs ranges p old new queue here g bnum
                    (λ a. entry-from ranges bnum child a ec)))
          | inr e ↦ rest.settled q (ground arith)
        ];
        queue_from = λ a. ground (arith, rest.queue_from a, mem-queued p old new queue a);
        holds = rest.holds;
      }

  pub visit_parents-Visited :
      (us : List ℕ) (bnum : ℕ) (parents : List ℕ) (ranges : FuncLiveRanges) (queue : List ℕ)
      → Ordered us ranges
      → Ranged ranges bnum
      → ((q : ℕ) → mem q parents ≡ true → Ranged ranges q)
      → Holds ranges
      → Visited us bnum parents ranges queue
  unfolding visit_parents next
  visit_parents-Visited us bnum [] ranges queue o r rs h = record {
    then_ranges = ranges;
    then_queue = queue;
    runs = refl;
    ordered = o;
    fewer = omega arith;
    ranged = λ n x. x;
    kept = λ n q s. s;
    settled = λ q m. ground arith;
    queue_from = λ a. ground arith;
    holds = h;
  }
  visit_parents-Visited us bnum (p ∷ parents) ranges queue o (child, ec) rs h =
      let (old, eo) = rs p (ground arith) in
      let vs = get_entry_set child in
      let inside : (a : ℕ) → (mem a vs && not (mem a us)) ≡ false =
        λ a. ground (arith, entry-from ranges bnum child a ec, o.inside bnum a) in
      let new = propagate_all vs old in
      let d = o.is_distinct p old eo in
      let g = propagate_all-Grown us vs old d inside in
      let kept1 = Ranged-kept us vs ranges p old new queue eo g in
      Visited-step us bnum p parents ranges queue child old new ec eo refl g (
        visit_parents-Visited us bnum parents (put_block_live_ranges ranges p new)
          (queued p old new queue) (Ordered-next us vs ranges p old new queue eo g o inside)
          (kept1 bnum (child, ec)) (λ q m. kept1 q (rs q (ground arith)))
          (Holds-put ranges p old new eo (propagate_all-keeps p vs old d (h p old eo)) h))
