-- ===== src/Liveness/Drain.antt =====
-- The loop over the queue of blocks in src/ir/analyzers/live_range_analyzer.cc: it ends, with what is live where a
-- block begins live where its parents end.
use katara.Prelude.{
  ℕ, zero, suc, ◌+◌, ◌≤◌, ◌≡◌, refl, arith, true, ◌==◌, List, [], ◌∷◌, some, length, inl, inr,
  Bool-cases,
}
use katara.Prelude.Result.{ok}
use katara.Interference.Sets.{mem, erase, mem-erase, length-erase-mem}
use katara.Liveness.Code.{Block, get_block}
use katara.Liveness.Ranges.{BlockLiveRanges, FuncLiveRanges, propagate_backwards_from_exit_set}
use katara.Liveness.Analyzer.{begin, drain}
use katara.Liveness.Edges.{distinct}
use katara.Liveness.Flow.{Ranged, Ordered, Settled, total}
use katara.Liveness.Queue.{Holds, Visited, visit_parents-Visited}

mem-begin : (k x : ℕ) (rest : List ℕ) → mem (begin k x rest) (x ∷ rest) ≡ true
unfolding begin
mem-begin zero x rest = ground arith
mem-begin (suc k) x [] = ground arith
mem-begin (suc k) x (y ∷ rest) = ground (arith, mem-begin k y rest)

-- The parents of the blocks are blocks, and every block has ranges.
pub record Linked (blocks : List Block) (ranges : FuncLiveRanges) : Type 0 where
  pub parents :
      (n : ℕ) (b : Block) (q : ℕ)
      → get_block blocks n ≡ some b
      → mem q b.parents ≡ true
      → (c : Block) × (get_block blocks q ≡ some c)
  pub ranged : (n : ℕ) (b : Block) → get_block blocks n ≡ some b → Ranged ranges n

abbrev pub Queued : List Block → List ℕ → Type 0
Queued blocks queue = (n : ℕ) → mem n queue ≡ true → (b : Block) × (get_block blocks n ≡ some b)

-- What is live where a block begins, unless the block is in the queue, is live where its parents end.
abbrev pub Edges : List Block → List ℕ → FuncLiveRanges → Type 0
Edges blocks queue ranges =
    (n : ℕ) (b : Block) (q : ℕ)
    → get_block blocks n ≡ some b
    → mem q b.parents ≡ true
    → Settled queue ranges n q

module _ (P : ℕ → BlockLiveRanges → Type 0)
    (keeps : (n v : ℕ) (l : BlockLiveRanges)
      → distinct l.value_ranges ≡ true
      → P n l
      → P n (propagate_backwards_from_exit_set l v))
    (pick : ℕ → List ℕ → ℕ) where
  pub record Drained (fuel : ℕ) (blocks : List Block) (ranges : FuncLiveRanges) (queue : List ℕ)
      : Type 0 where
    pub final : FuncLiveRanges
    pub ends : drain pick fuel blocks ranges queue ≡ some (ok final)
    pub edges : Edges blocks [] final
    pub ranged : (n : ℕ) → Ranged ranges n → Ranged final n
    pub holds : Holds P keeps final

  abbrev chosen : ℕ → ℕ → List ℕ → ℕ
  chosen fuel x queue = begin (pick fuel (x ∷ queue)) x queue

  Drained-step :
      (fuel : ℕ) (us : List ℕ) (blocks : List Block) (ranges : FuncLiveRanges) (x : ℕ)
      (queue : List ℕ) (b : Block)
      → get_block blocks (chosen fuel x queue) ≡ some b
      → (v : Visited P keeps us
          (chosen fuel x queue)
          b.parents
          ranges
          (erase (chosen fuel x queue) (x ∷ queue)))
      → Drained fuel blocks v.then_ranges v.then_queue
      → Drained (suc fuel) blocks ranges (x ∷ queue)
  unfolding drain
  Drained-step fuel us blocks ranges x queue b e v rest = record {
    final = rest.final;
    ends = rw (drain, e, v.runs) rest.ends;
    edges = rest.edges;
    ranged = λ n r. rest.ranged n (v.ranged n r);
    holds = rest.holds;
  }

  same_block :
      (blocks : List Block) (bnum n : ℕ) (b c : Block)
      → (bnum == n) ≡ true
      → get_block blocks bnum ≡ some b
      → get_block blocks n ≡ some c
      → b.parents ≡ c.parents
  same_block blocks bnum n b c s e ec = ground arith

  Edges-next :
      (us : List ℕ) (blocks : List Block) (ranges : FuncLiveRanges) (bnum : ℕ) (queue : List ℕ)
      (b : Block)
      → get_block blocks bnum ≡ some b
      → Edges blocks queue ranges
      → (v : Visited P keeps us bnum b.parents ranges (erase bnum queue))
      → Edges blocks v.then_queue v.then_ranges
  Edges-next us blocks ranges bnum queue b e edges v n c q ec m = elim (Bool-cases (bnum == n)) [
    | inl s ↦
        let here = v.settled q (rw (same_block blocks bnum n b c s e ec) m) in
        let same : bnum ≡ n = ground arith in rw (← same) here
    | inr s ↦ v.kept n q (λ a. ground (arith, mem-erase n bnum queue, edges n c q ec m a))
  ]

  Queued-next :
      (us : List ℕ) (blocks : List Block) (ranges : FuncLiveRanges) (bnum : ℕ) (queue : List ℕ)
      (b : Block)
      → get_block blocks bnum ≡ some b
      → Queued blocks queue
      → Linked blocks ranges
      → (v : Visited P keeps us bnum b.parents ranges (erase bnum queue))
      → Queued blocks v.then_queue
  Queued-next us blocks ranges bnum queue b e qs l v n m = elim (Bool-cases (mem n b.parents)) [
    | inl s ↦ l.parents bnum b n e s
    | inr s ↦ qs n (ground (arith, v.queue_from n, mem-erase n bnum queue))
  ]

  pub drain-Drained :
      (fuel : ℕ) (us : List ℕ) (blocks : List Block) (ranges : FuncLiveRanges) (queue : List ℕ)
      → Ordered us ranges
      → Linked blocks ranges
      → Queued blocks queue
      → Edges blocks queue ranges
      → Holds P keeps ranges
      → total us ranges + length queue ≤ fuel
      → Drained fuel blocks ranges queue
  unfolding drain
  drain-Drained fuel us blocks ranges [] o l qs es h k = record {
    final = ranges;
    ends = refl;
    edges = es;
    ranged = λ n r. r;
    holds = h;
  }
  drain-Drained zero us blocks ranges (x ∷ queue) o l qs es h k = ground arith
  drain-Drained (suc fuel) us blocks ranges (x ∷ queue) o l qs es h k =
      let bnum = chosen fuel x queue in
      let there = mem-begin (pick fuel (x ∷ queue)) x queue in
      let (b, e) = qs bnum there in
      let v =
        visit_parents-Visited P keeps us bnum b.parents ranges (erase bnum (x ∷ queue)) o
          (l.ranged bnum b e) (λ q m. let (c, ec) = l.parents bnum b q e m in l.ranged q c ec) h in
      Drained-step fuel us blocks ranges x queue b e v (
        drain-Drained fuel us blocks v.then_ranges v.then_queue v.ordered
          (record { parents = l.parents; ranged = λ n c ec. v.ranged n (l.ranged n c ec) })
          (Queued-next us blocks ranges bnum (x ∷ queue) b e qs l v)
          (Edges-next us blocks ranges bnum (x ∷ queue) b e es v) v.holds
          (omega (arith, v.fewer, length-erase-mem bnum (x ∷ queue) there)))
