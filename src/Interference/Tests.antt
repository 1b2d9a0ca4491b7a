-- ===== src/Interference/Tests.antt =====
-- Tests of the interference graph and its colouring.
use katara.Prelude.{◌≡◌, refl, arith, false, [], ◌∷◌}
use katara.Prelude.Int.{pos}
use katara.Prelude.Result.{ok}
use katara.Interference.Graph.{
  InterferenceGraph, add_value, add_edge, add_edges_in, add_edges_between, connect_each, connect,
  insert_neighbors, has_entry, get_neighbors, find, neighbors_of,
}
use katara.Interference.Sets.{add, add_all, erase}
use katara.Interference.Refines.{
  View, Implements, with_value, with_edge, with_clique, with_star, operations-Implements,
}
use katara.Interference.Built.{Built, Sound, built-Sound}
use katara.Interference.Colors.{
  Colors, color_values, color_value, get_color, get_colors, set_color, has_color, choose,
}
use katara.Interference.Proper.{IsColoring, color_values-IsColoring}

abbrev blank : InterferenceGraph
blank = record { values = []; graph = [] }

abbrev nothing : View
nothing = record { has = λ a. false; interferes = λ a b. false }

-- Three values of which each interferes with the others.
abbrev triangle : InterferenceGraph
triangle = add_edges_in blank (1 ∷ 2 ∷ 3 ∷ [])

triangle-Built : Built triangle
triangle-Built = Built.clique (1 ∷ 2 ∷ 3 ∷ []) Built.empty

triangle_colored :
    color_values triangle ((2, pos 5) ∷ []) (1 ∷ 2 ∷ 3 ∷ []) []
    ≡ ok ((3, pos 1) ∷ (2, pos 5) ∷ (1, pos 0) ∷ [])
unfolding color_values color_value get_color get_colors set_color has_color choose add_edges_in
    connect_each connect insert_neighbors has_entry get_neighbors find add add_all erase
triangle_colored = refl

blank-Implements : Implements blank nothing
unfolding has_entry neighbors_of
blank-Implements = record { has = λ a. refl; entries = λ a. refl; interferes = λ a b. refl }

operations-Implements_example :
    Implements (add_value blank 1) (with_value nothing 1)
    × Implements (add_edge blank 1 2) (with_edge nothing 1 2)
    × Implements (add_edges_in blank (1 ∷ 2 ∷ 3 ∷ [])) (with_clique nothing (1 ∷ 2 ∷ 3 ∷ []))
    × Implements (add_edges_between blank (1 ∷ 2 ∷ 3 ∷ []) 1) (with_star nothing (1 ∷ 2 ∷ 3 ∷ []) 1)
operations-Implements_example =
    operations-Implements blank nothing 1 2 (1 ∷ 2 ∷ 3 ∷ []) blank-Implements

built-Sound_example : Sound triangle
built-Sound_example = built-Sound triangle triangle-Built

color_values-IsColoring_example :
    (cs : Colors) × (color_values triangle ((2, pos 5) ∷ []) (1 ∷ 2 ∷ 3 ∷ []) [] ≡ ok cs)
    × IsColoring triangle cs
unfolding add_edges_in connect_each connect add has_entry insert_neighbors
color_values-IsColoring_example =
    color_values-IsColoring triangle ((2, pos 5) ∷ []) (1 ∷ 2 ∷ 3 ∷ []) triangle-Built
      (λ a. ground arith)
