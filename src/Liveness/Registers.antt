-- ===== src/Liveness/Registers.antt =====
-- The interference graph of a whole function, src/ir/analyzers/interference_graph_builder.cc, and its colouring,
-- src/ir/analyzers/interference_graph_colorer.cc.
use katara.Prelude.{ℕ, ◌≡◌, refl, arith, Bool, not, List, [], ◌∷◌}
use katara.Prelude.Result.{ok}
use katara.Interference.Graph.{InterferenceGraph, add_edges_in}
use katara.Interference.Refines.{adjacent}
use katara.Interference.Built.{Built}
use katara.Interference.Colors.{Colors, get_color, same_color, color_interference_graph}
use katara.Interference.Proper.{color_values-IsColoring}
use katara.Liveness.Code.{Instr, Block}
use katara.Liveness.Ranges.{FuncLiveRanges, BlockLiveRanges, get_block_live_ranges, get_exit_set}
use katara.Liveness.Builder.{
  walk_instrs, populate_for_block, populate_for_blocks, build_interference_graph_for_func,
}
use katara.Liveness.Live.{KeptApart, Finer, KeptApart-Finer}
use katara.Liveness.Apart.{Traced, walk-start, walk-step}

walk-Traced :
    (g : InterferenceGraph) (exit_set : List ℕ) (instrs : List Instr)
    → Built g
    → Traced g exit_set instrs (walk_instrs instrs (exit_set, add_edges_in g exit_set))
unfolding walk_instrs
walk-Traced g exit_set [] b = walk-start g exit_set b
walk-Traced g exit_set (i ∷ rest) b =
    walk-step g exit_set i rest (walk_instrs rest (exit_set, add_edges_in g exit_set))
      (walk-Traced g exit_set rest b)

-- The blocks have live ranges.
abbrev pub AllRanged : FuncLiveRanges → List Block → Type 0
AllRanged ranges [] = Unit {0}
AllRanged ranges (b ∷ blocks) =
    ((l : BlockLiveRanges) × (get_block_live_ranges ranges b.number ≡ ok l))
    × AllRanged ranges blocks

-- In every block, with what its live ranges have at its exit.
unfoldable pub AllKeptApart : (ℕ → ℕ → Bool) → FuncLiveRanges → List Block → Type 0
unfolding get_exit_set
AllKeptApart apart ranges [] = Unit {0}
AllKeptApart apart ranges (b ∷ blocks) =
    ((l : BlockLiveRanges) × (get_block_live_ranges ranges b.number ≡ ok l)
      × KeptApart apart (get_exit_set l) b.instrs)
    × AllKeptApart apart ranges blocks

AllKeptApart-Finer :
    (apart apart' : ℕ → ℕ → Bool) (ranges : FuncLiveRanges) (blocks : List Block)
    → Finer apart apart'
    → AllKeptApart apart ranges blocks
    → AllKeptApart apart' ranges blocks
unfolding AllKeptApart
AllKeptApart-Finer apart apart' ranges [] f k = tt
AllKeptApart-Finer apart apart' ranges (b ∷ blocks) f ((l, e, k), ks) = (
  (l, e, KeptApart-Finer apart apart' (get_exit_set l) b.instrs f k),
  AllKeptApart-Finer apart apart' ranges blocks f ks,
)

Populates : FuncLiveRanges → List Block → InterferenceGraph → Type 0
Populates ranges blocks g =
    (g' : InterferenceGraph) × (populate_for_blocks blocks ranges g ≡ ok g')
    × Built g'
    × Finer (adjacent g) (adjacent g')
    × AllKeptApart (adjacent g') ranges blocks

populate-Populates :
    (ranges : FuncLiveRanges) (blocks : List Block) (g : InterferenceGraph)
    → AllRanged ranges blocks
    → Built g
    → Populates ranges blocks g
unfolding Populates AllKeptApart populate_for_blocks populate_for_block
populate-Populates ranges [] g h b = (g, refl, b, λ x y. ground arith, tt)
populate-Populates ranges (block ∷ blocks) g ((l, e), hs) b =
    let g1 = populate_for_block block (get_exit_set l) g in
    let t = walk-Traced g (get_exit_set l) block.instrs b in
    let (g', run, built, grown, apart) = populate-Populates ranges blocks g1 hs t.walked.built in
    (
      g',
      rw e run,
      built,
      λ x y. ground (arith, t.walked.grown x y, grown x y),
      (
        (
          l,
          e,
          KeptApart-Finer (adjacent g1) (adjacent g') (get_exit_set l) block.instrs grown t.apart,
        ),
        apart,
      ),
    )

-- Where all blocks have live ranges, the graph of the function is built; by it, in every block and between
-- any two instructions, two values that are live together interfere, and so do a value that an instruction
-- defines and one that is live behind it and that it does not define.
pub build_interference_graph_exact :
    (ranges : FuncLiveRanges) (blocks : List Block)
    → AllRanged ranges blocks
    → (g : InterferenceGraph) × (build_interference_graph_for_func blocks ranges ≡ ok g)
      × Built g
      × AllKeptApart (adjacent g) ranges blocks
unfolding build_interference_graph_for_func Populates
build_interference_graph_exact ranges blocks h =
    let (g, run, built, grown, apart) =
      populate-Populates ranges blocks (record { values = []; graph = [] }) h Built.empty in
    (g, run, built, apart)

abbrev pub differ : Colors → ℕ → ℕ → Bool
differ cs a b = not (same_color (get_color cs a) (get_color cs b))

-- The registers of a function do not clash: where all blocks have live ranges, the interference graph is
-- built and, whatever colours are preferred, coloured, and with these colours two values that are live
-- together are in different registers, and no instruction writes to the register of a value that is live
-- behind it and that it does not define.
pub registers_kept_apart :
    (ranges : FuncLiveRanges) (blocks : List Block) (preferred : Colors)
    → AllRanged ranges blocks
    → (g : InterferenceGraph) × (cs : Colors) × (build_interference_graph_for_func blocks ranges
        ≡ ok g)
      × (color_interference_graph g preferred ≡ ok cs)
      × AllKeptApart (differ cs) ranges blocks
unfolding color_interference_graph
registers_kept_apart ranges blocks preferred h =
    let (g, run, built, apart) = build_interference_graph_exact ranges blocks h in
    let (cs, colors, k) = color_values-IsColoring g preferred g.values built (λ a. refl) in
    (
      g,
      cs,
      run,
      colors,
      AllKeptApart-Finer (adjacent g) (differ cs) ranges blocks
          (λ a b. ground (arith, k.proper a b)) apart,
    )
