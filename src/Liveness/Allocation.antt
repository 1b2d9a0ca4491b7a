-- ===== src/Liveness/Allocation.antt =====
-- From the code of a function to registers: src/ir/analyzers/live_range_analyzer.cc, interference_graph_builder.cc and
-- interference_graph_colorer.cc, one after the other.
use katara.Prelude.{
  ℕ, ◌≤◌, ◌≡◌, arith, Bool, true, false, ◌==◌, List, [], ◌∷◌, some, Bool-cases, inl, inr,
}
use katara.Prelude.Result.{ok}
use katara.Interference.Sets.{mem}
use katara.Interference.Graph.{InterferenceGraph}
use katara.Interference.Colors.{Colors, color_interference_graph}
use katara.Liveness.Code.{Block, Instr}
use katara.Liveness.Ranges.{FuncLiveRanges, get_exit_set}
use katara.Liveness.Analyzer.{find_live_ranges_for_func}
use katara.Liveness.Builder.{build_interference_graph_for_func}
use katara.Liveness.Live.{live_before, KeptApart, Together}
use katara.Liveness.Flow.{Ranged, exit_at, exit_at-ok}
use katara.Liveness.Registers.{AllRanged, AllKeptApart, differ, registers_kept_apart}
use katara.Liveness.Start.{is_number}
use katara.Liveness.Lookup.{well_formed}
use katara.Liveness.Complete.{
  LiveAtEnd, steps_for, started, drained, ends, Finished, finished, found,
}

Ranged-AllRanged :
    (ranges : FuncLiveRanges) (blocks todo : List Block)
    → ((n : ℕ) → is_number blocks n ≡ true → Ranged ranges n)
    → ((n : ℕ) → is_number todo n ≡ true → is_number blocks n ≡ true)
    → AllRanged ranges todo
unfolding is_number
Ranged-AllRanged ranges blocks [] r h = tt
Ranged-AllRanged ranges blocks (b ∷ todo) r h = (
  r b.number (h b.number (ground arith)),
  Ranged-AllRanged ranges blocks todo r (λ n k. h n (ground arith)),
)

analyzed :
    (pick : ℕ → List ℕ → ℕ) (fuel : ℕ) (blocks : List Block)
    → well_formed blocks ≡ true
    → steps_for blocks ≤ fuel
    → (ranges : FuncLiveRanges) × (find_live_ranges_for_func pick fuel blocks ≡ some (ok ranges))
      × Finished blocks ranges
analyzed pick fuel blocks h k =
    let s = started blocks h in
    let d = drained blocks pick fuel s h k in
    (d.final, ends blocks pick fuel s d, finished blocks pick fuel s d)

-- The analysis ends, in whatever order the queue gives its blocks: for blocks with different numbers, whose parents and
-- children are blocks, with phi instructions first that have a value from each parent, and with no other instruction that uses what it or a later one of its
-- block defines, and for at least so many steps as `steps_for` says, it returns live ranges for all blocks.
pub find_live_ranges_for_func_ends :
    (pick : ℕ → List ℕ → ℕ) (fuel : ℕ) (blocks : List Block)
    → well_formed blocks ≡ true
    → steps_for blocks ≤ fuel
    → (ranges : FuncLiveRanges) × (find_live_ranges_for_func pick fuel blocks ≡ some (ok ranges))
      × AllRanged ranges blocks
unfolding Finished
find_live_ranges_for_func_ends pick fuel blocks h k =
    let (ranges, run, f) = analyzed pick fuel blocks h k in
    (ranges, run, Ranged-AllRanged ranges blocks blocks f.2 (λ n m. m))

-- For such blocks and so many steps, and in whatever order the queue gives its blocks, every value that is live where a
-- block ends, by the paths through the function to the uses of the value, is in the exit set of the block in the live ranges that the analysis returns.
pub live_at_end_found :
    (pick : ℕ → List ℕ → ℕ) (fuel : ℕ) (blocks : List Block) (q v : ℕ)
    → well_formed blocks ≡ true
    → steps_for blocks ≤ fuel
    → LiveAtEnd blocks q v
    → (ranges : FuncLiveRanges) × (find_live_ranges_for_func pick fuel blocks ≡ some (ok ranges))
      × (mem v (exit_at ranges q) ≡ true)
live_at_end_found pick fuel blocks q v h k live =
    let (ranges, run, f) = analyzed pick fuel blocks h k in
    (ranges, run, found blocks ranges q v h f live)

KeptApart-end :
    (apart : ℕ → ℕ → Bool) (exit_set : List ℕ) (instrs : List Instr)
    → KeptApart apart exit_set instrs
    → Together apart (λ v. mem v exit_set)
unfolding KeptApart live_before
KeptApart-end apart exit_set [] k = k
KeptApart-end apart exit_set (i ∷ rest) (t, s, ks) = KeptApart-end apart exit_set rest ks

block-end :
    (apart : ℕ → ℕ → Bool) (ranges : FuncLiveRanges) (q : ℕ) (todo : List Block)
    → AllKeptApart apart ranges todo
    → is_number todo q ≡ true
    → Together apart (λ v. mem v (exit_at ranges q))
unfolding AllKeptApart is_number
block-end apart ranges q [] k h = ground arith
block-end apart ranges q (b ∷ todo) ((l, e, k), ks) h = elim (Bool-cases (b.number == q)) [
  | inl s ↦
      rw (exit_at-ok ranges b.number q l e s) (KeptApart-end apart (get_exit_set l) b.instrs k)
  | inr s ↦ block-end apart ranges q todo ks (ground arith)
]

-- From the code to the registers, for such blocks and so many steps and in whatever order the queue gives its blocks: the
-- live ranges, the interference graph and,
-- whatever colours are preferred, its colouring are computed, and with these colours two different values that are live
-- where a block ends, by the paths through the function to their uses, are in different registers.
pub live_values_in_different_registers :
    (pick : ℕ → List ℕ → ℕ) (fuel : ℕ) (blocks : List Block) (preferred : Colors) (q u v : ℕ)
    → well_formed blocks ≡ true
    → steps_for blocks ≤ fuel
    → is_number blocks q ≡ true
    → LiveAtEnd blocks q u
    → LiveAtEnd blocks q v
    → (u == v) ≡ false
    → (ranges : FuncLiveRanges) × (g : InterferenceGraph) × (cs : Colors)
      × (find_live_ranges_for_func pick fuel blocks ≡ some (ok ranges))
      × (build_interference_graph_for_func blocks ranges ≡ ok g)
      × (color_interference_graph g preferred ≡ ok cs)
      × (differ cs u v ≡ true)
unfolding Finished
live_values_in_different_registers pick fuel blocks preferred q u v h k here lu lv ne =
    let (ranges, run, f) = analyzed pick fuel blocks h k in
    let (g, cs, built, colored, apart) =
      registers_kept_apart ranges blocks preferred
        (Ranged-AllRanged ranges blocks blocks f.2 (λ n m. m)) in
    let ends_apart = block-end (differ cs) ranges q blocks apart here in
    (
      ranges,
      g,
      cs,
      run,
      built,
      colored,
      ground
          (arith, ends_apart u v, found blocks ranges q u h f lu, found blocks ranges q v h f lv),
    )
