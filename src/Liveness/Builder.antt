-- ===== src/Liveness/Builder.antt =====
-- src/ir/analyzers/interference_graph_builder.cc.
use katara.Prelude.{ℕ, Bool, if◌then◌else◌, List, [], ◌∷◌}
use katara.Prelude.Result.{Result, ok, ◌>>=◌}
use katara.Interference.Sets.{mem, add, erase}
use katara.Interference.Graph.{InterferenceGraph, add_edges_in, add_edges_between}
use katara.Liveness.Code.{Value, Instr, Block, is_phi, defined_values, used_values}
use katara.Liveness.Ranges.{FuncLiveRanges, get_block_live_ranges, get_exit_set}

-- The live set and the graph.
abbrev pub Walk : Type 0
Walk = List ℕ × InterferenceGraph

unfoldable pub define_values : List ℕ → Walk → Walk
unfolding erase add_edges_between
define_values [] w = w
define_values (v ∷ vs) (live, g) =
    define_values vs (if mem v live then (erase v live, g) else (live, add_edges_between g live v))

unfoldable pub use_values : Bool → List Value → Walk → Walk
unfolding add add_edges_between
use_values phi [] w = w
use_values phi (Value.constant ∷ vs) w = use_values phi vs w
use_values phi (Value.computed v ∷ vs) (live, g) = use_values phi vs (
    if mem v live
    then (live, g)
    else (if phi
        then (live, add_edges_between g live v)
        else (add v live, add_edges_between g live v)))

-- The loop goes backwards: what is behind an instruction comes first.
unfoldable pub walk_instrs : List Instr → Walk → Walk
unfolding define_values use_values defined_values used_values
walk_instrs [] w = w
walk_instrs (i ∷ rest) w =
    use_values (is_phi i) (used_values i) (define_values (defined_values i) (walk_instrs rest w))

unfoldable pub populate_for_block : Block → List ℕ → InterferenceGraph → InterferenceGraph
unfolding walk_instrs add_edges_in
populate_for_block b exit_set g = (walk_instrs b.instrs (exit_set, add_edges_in g exit_set)).1

unfoldable pub populate_for_blocks :
    List Block → FuncLiveRanges → InterferenceGraph → Result InterferenceGraph
unfolding populate_for_block get_block_live_ranges get_exit_set
populate_for_blocks [] ranges g = ok g
populate_for_blocks (b ∷ blocks) ranges g = do
  l ← get_block_live_ranges ranges b.number
  populate_for_blocks blocks ranges (populate_for_block b (get_exit_set l) g)

unfoldable pub build_interference_graph_for_func :
    List Block → FuncLiveRanges → Result InterferenceGraph
unfolding populate_for_blocks
build_interference_graph_for_func blocks ranges =
    populate_for_blocks blocks ranges (record { values = []; graph = [] })
