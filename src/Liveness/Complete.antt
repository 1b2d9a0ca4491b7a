-- ===== src/Liveness/Complete.antt =====
-- The live ranges of a whole function, src/ir/analyzers/live_range_analyzer.cc: the analysis ends, and finds all that
-- is live where a block ends.
use katara.Prelude.{ℕ, ◌+◌, ◌≤◌, ◌≡◌, refl, arith, true, List, [], ◌∷◌, some, length}
use katara.Prelude.Result.{Result, ok, err}
use katara.Interference.Sets.{mem}
use katara.Liveness.Code.{Block, get_block}
use katara.Liveness.Ranges.{
  BlockLiveRanges, FuncLiveRanges, get_exit_set, new_func_live_ranges,
  propagate_backwards_from_exit_set,
}
use katara.Liveness.Analyzer.{backtrace_blocks, find_live_ranges_for_func}
use katara.Liveness.Edges.{distinct}
use katara.Liveness.Operations.{range_operations_exact}
use katara.Liveness.Updates.{leaves}
use katara.Liveness.Live.{live_before}
use katara.Liveness.Flow.{Ranged, total, exit_at, entry_at-ok, exit_at-ok}
use katara.Liveness.Queue.{Holds}
use katara.Liveness.Drain.{Edges, Drained, drain-Drained}
use katara.Liveness.Uses.{Covers-propagate, Covers-live_before}
use katara.Liveness.Phis.{child_inherits}
use katara.Liveness.Start.{is_number, Knows, Started, new-AllFresh, backtrace_blocks-Started}
use katara.Liveness.Lookup.{
  well_formed, all_entries, number-block, block-number, know-block, parents-numbers, parents-known,
  entry-all_entries, block-named, new-ranges-empty,
}
use katara.Liveness.Uses.{live_before-exit}

-- The values that are live where a block ends: a phi instruction of a child has the value from the block, or the value
-- is live where the code of a child begins, which is the case when the child has a use of it before it
-- defines it, or does not define it and it is live where the child ends.
pub data LiveAtEnd (blocks : List Block) : ℕ → ℕ → Type 0 where
  by_phi :
      (q v : ℕ) (b : Block)
      → get_block blocks q ≡ some b
      → child_inherits blocks q b.children v ≡ true
      → LiveAtEnd blocks q v
  used :
      (q n v : ℕ) (c : Block)
      → get_block blocks n ≡ some c
      → mem q c.parents ≡ true
      → live_before [] c.instrs v ≡ true
      → LiveAtEnd blocks q v
  passed :
      (q n v : ℕ) (c : Block)
      → get_block blocks n ≡ some c
      → mem q c.parents ≡ true
      → live_before (v ∷ []) c.instrs v ≡ true
      → LiveAtEnd blocks n v
      → LiveAtEnd blocks q v

unfoldable pub steps_after : Result (FuncLiveRanges × List ℕ) → ℕ
unfolding all_entries total
steps_after (ok (ranges, queue)) = total (all_entries ranges) ranges + length queue
steps_after (err e) = 0

-- Steps that are enough for the loop over the queue: the values that enter some block and that a block lacks, of all
-- blocks, and the blocks that the first loop puts into the queue.
unfoldable pub steps_for : List Block → ℕ
unfolding steps_after new_func_live_ranges backtrace_blocks
steps_for blocks = steps_after (backtrace_blocks blocks blocks (new_func_live_ranges blocks) [])

module _ (blocks : List Block) where
  unfoldable pub Known : ℕ → BlockLiveRanges → Type 0
  Known n l = (b : Block) → get_block blocks n ≡ some b → Knows blocks b l

  pub Known-propagate :
      (n v : ℕ) (l : BlockLiveRanges)
      → distinct l.value_ranges ≡ true
      → Known n l
      → Known n (propagate_backwards_from_exit_set l v)
  unfolding Known leaves
  Known-propagate n v l h k b e =
      let one = (range_operations_exact l v 0 h).2 in
      let was = k b e in
      record {
        covers = Covers-propagate b.instrs v l was.covers;
        phis = λ a. ground (arith, was.phis a, one.at_exit a);
      }

  pub started : well_formed blocks ≡ true → Started blocks blocks (new_func_live_ranges blocks) []
  unfolding well_formed
  started h =
      backtrace_blocks-Started blocks blocks (new_func_live_ranges blocks) [] (ground arith)
        (new-AllFresh blocks blocks (ground arith)) (new-ranges-empty blocks)

  steps_for-Started :
      (s : Started blocks blocks (new_func_live_ranges blocks) [])
      → steps_for blocks ≡ total (all_entries s.then_ranges) s.then_ranges + length s.then_queue
  unfolding steps_for steps_after
  steps_for-Started s = rw s.runs refl

  pub drained :
      (pick : ℕ → List ℕ → ℕ) (fuel : ℕ)
      (s : Started blocks blocks (new_func_live_ranges blocks) [])
      → well_formed blocks ≡ true
      → steps_for blocks ≤ fuel
      → Drained Known Known-propagate pick fuel blocks s.then_ranges s.then_queue
  unfolding well_formed steps_for steps_after Known
  drained pick fuel s h k =
      drain-Drained Known Known-propagate pick fuel (all_entries s.then_ranges) blocks s.then_ranges
        s.then_queue
        (record { is_distinct = s.is_distinct; inside = entry-all_entries s.then_ranges })
        (record {
          parents = λ n b q e m. number-block blocks q (
              parents-numbers blocks q b.parents (parents-known blocks blocks n b (ground arith) e)
                m);
          ranged = λ n b e.
              let (l, g, x) = know-block blocks s.then_ranges blocks n b e s.know in (l, g);
        })
        (λ n m. number-block blocks n (ground (arith, s.queue_from n)))
        (λ n b q e m a. ground (arith, s.entry n a, block-number blocks n b e))
        (λ n l g b e.
          let (l', g', x) = know-block blocks s.then_ranges blocks n b e s.know in
          let same : l' ≡ l = ground arith in rw (← same) x)
        (rw (← steps_for-Started s) k)

  pub ends :
      (pick : ℕ → List ℕ → ℕ) (fuel : ℕ)
      (s : Started blocks blocks (new_func_live_ranges blocks) [])
      (d : Drained Known Known-propagate pick fuel blocks s.then_ranges s.then_queue)
      → find_live_ranges_for_func pick fuel blocks ≡ some (ok d.final)
  unfolding find_live_ranges_for_func
  ends pick fuel s d = rw (find_live_ranges_for_func, s.runs) d.ends

  -- Of the ranges that the analysis ends with.
  unfoldable pub Finished : FuncLiveRanges → Type 0
  Finished final =
      Edges blocks [] final
      × Holds Known Known-propagate final
      × ((n : ℕ) → is_number blocks n ≡ true → Ranged final n)

  pub finished :
      (pick : ℕ → List ℕ → ℕ) (fuel : ℕ)
      (s : Started blocks blocks (new_func_live_ranges blocks) [])
      (d : Drained Known Known-propagate pick fuel blocks s.then_ranges s.then_queue)
      → Finished d.final
  unfolding Finished
  finished pick fuel s d = (
    d.edges,
    d.holds,
    λ n h.
        let (b, e) = number-block blocks n h in
        let (l, g, x) = know-block blocks s.then_ranges blocks n b e s.know in d.ranged n (l, g),
  )

  pub found :
      (final : FuncLiveRanges) (q v : ℕ)
      → well_formed blocks ≡ true
      → Finished final
      → LiveAtEnd blocks q v
      → mem v (exit_at final q) ≡ true
  unfolding Finished Known well_formed
  found final _ _ h (es, hs, rs) (LiveAtEnd.by_phi q v b e i) =
      let (l, g) = rs q (block-number blocks q b e) in
      let k = hs q l g b e in
      let here : child_inherits blocks b.number b.children v ≡ true =
        rw (block-named blocks q b e) i in
      rw (exit_at-ok final q q l g (ground arith)) (ground (arith, k.phis v))
  found final _ _ h (es, hs, rs) (LiveAtEnd.used q n v c e m u) =
      let (l, g) = rs n (block-number blocks n c e) in
      let k = hs n l g c e in
      ground (arith, es n c q e m v, k.covers.comes_in v, entry_at-ok final n n l g)
  found final _ _ h (es, hs, rs) (LiveAtEnd.passed q n v c e m u later) =
      let (l, g) = rs n (block-number blocks n c e) in
      let k = hs n l g c e in
      let rest = found final n v h (es, hs, rs) later in
      ground (
        arith,
        es n c q e m v,
        Covers-live_before c.instrs l v k.covers,
        live_before-exit (get_exit_set l) c.instrs v,
        live_before-exit (v ∷ []) c.instrs v,
        entry_at-ok final n n l g,
        exit_at-ok final n n l g,
      )
