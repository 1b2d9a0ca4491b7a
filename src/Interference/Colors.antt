-- ===== src/Interference/Colors.antt =====
-- `InterferenceGraphColors` of src/ir/info/interference_graph.h and `ColorInterferenceGraph` of
-- src/ir/analyzers/interference_graph_colorer.cc. A colour is an `int64_t`, -1 stands for none.
use katara.Prelude.{
  ℕ, zero, suc, ◌+◌, Bool, false, not, ◌&&◌, ◌||◌, ◌==◌, if◌then◌else◌, List, [], ◌∷◌, length,
}
use katara.Prelude.Int.{ℤ, pos, negsuc}
use katara.Prelude.Result.{Result, ok, ◌>>=◌}
use katara.Atomics.Cpp.{leb_ℤ}
use katara.Interference.Graph.{InterferenceGraph, get_neighbors}

abbrev pub no_color : ℤ
no_color = negsuc 0

abbrev pub same_color : ℤ → ℤ → Bool
same_color a b = leb_ℤ a b && leb_ℤ b a

abbrev pub Colors : Type 0
Colors = List (ℕ × ℤ)

unfoldable pub get_color : Colors → ℕ → ℤ
get_color [] v = no_color
get_color ((k, c) ∷ rest) v = if k == v then c else get_color rest v

unfoldable pub has_color : Colors → ℕ → Bool
has_color [] v = false
has_color ((k, c) ∷ rest) v = k == v || has_color rest v

-- `insert` does nothing where the value has a colour.
unfoldable pub set_color : Colors → ℕ → ℤ → Colors
unfolding has_color
set_color cs v c = if has_color cs v then cs else (v, c) ∷ cs

abbrev pub has : List ℤ → ℤ → Bool
has [] c = false
has (x ∷ xs) c = same_color x c || has xs c

-- `GetColors`, and the loop over the neighbours in the colorer: the set of the colours of the values.
unfoldable pub get_colors : Colors → List ℕ → List ℤ
unfolding get_color
get_colors cs [] = []
get_colors cs (v ∷ vs) =
    let rest = get_colors cs vs in if has rest (get_color cs v) then rest else get_color cs v ∷ rest

-- The search for a colour below the number of rounds; without a `break` no colour is set.
unfoldable pub choose : ℕ → ℕ → List ℤ → Colors → ℕ → Colors
unfolding set_color
choose zero color neighbor_colors cs v = cs
choose (suc rounds) color neighbor_colors cs v =
    let rest = choose rounds (suc color) neighbor_colors cs v in
    if has neighbor_colors (pos color) then rest else set_color cs v (pos color)

-- The body of the loop over the values.
unfoldable pub color_value : Colors → Colors → ℕ → List ℕ → Colors
unfolding get_color get_colors choose set_color
color_value preferred cs v neighbors =
    let neighbor_colors = get_colors cs neighbors in
    let preferred_color = get_color preferred v in
    if not (same_color preferred_color no_color) && not (has neighbor_colors preferred_color)
    then set_color cs v preferred_color
    else choose (length neighbor_colors + 1) 0 neighbor_colors cs v

-- The loop over `graph.values()`, in whatever order the set gives them.
unfoldable pub color_values : InterferenceGraph → Colors → List ℕ → Colors → Result Colors
unfolding color_value
color_values g preferred [] cs = ok cs
color_values g preferred (v ∷ vs) cs = do
  neighbors ← get_neighbors g v
  color_values g preferred vs (color_value preferred cs v neighbors)

unfoldable pub color_interference_graph : InterferenceGraph → Colors → Result Colors
unfolding color_values
color_interference_graph g preferred = color_values g preferred g.values []
