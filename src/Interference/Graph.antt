-- ===== src/Interference/Graph.antt =====
-- `InterferenceGraph` of src/ir/info/interference_graph.h. Value numbers are only compared with each
-- other. A group, which is a set, is the list of its elements in the order in which the loops meet them.
use katara.Prelude.{ℕ, Bool, false, ◌||◌, ◌==◌, if◌then◌else◌, List, [], ◌∷◌, Option, some, none}
use katara.Prelude.Result.{Result, ok, err, bad_access}
use katara.Interference.Sets.{mem, add, add_all, erase}

-- `graph_`: the neighbours of each value.
abbrev pub Neighbors : Type 0
Neighbors = List (ℕ × List ℕ)

pub record InterferenceGraph : Type 0 where
  pub values : List ℕ
  pub graph : Neighbors

unfoldable pub find : Neighbors → ℕ → Option (List ℕ)
find [] v = none
find ((k, ns) ∷ rest) v = if k == v then some ns else find rest v

unfoldable pub has_entry : Neighbors → ℕ → Bool
has_entry [] v = false
has_entry ((k, ns) ∷ rest) v = k == v || has_entry rest v

unfoldable pub neighbors_of : Neighbors → ℕ → List ℕ
neighbors_of [] v = []
neighbors_of ((k, ns) ∷ rest) v = if k == v then ns else neighbors_of rest v

-- `GetNeighbors`: `at` throws on a value that is not in the graph.
unfoldable pub get_neighbors : InterferenceGraph → ℕ → Result (List ℕ)
unfolding find
get_neighbors g v = elim (find g.graph v) [ some ns ↦ ok ns | none ↦ err bad_access ]

-- Elements that are inserted to the neighbours of `v`: to those in the entry of `v`, or to a new one.
unfoldable pub insert_neighbors : ℕ → List ℕ → Neighbors → Neighbors
unfolding add_all
insert_neighbors v others [] = (v, add_all others []) ∷ []
insert_neighbors v others ((k, ns) ∷ rest) =
    if k == v then (k, add_all others ns) ∷ rest else (k, ns) ∷ insert_neighbors v others rest

-- `find` in `graph_`, then an insertion to the entry, or into `values_` and `graph_`.
unfoldable pub connect : ℕ → List ℕ → InterferenceGraph → InterferenceGraph
unfolding has_entry insert_neighbors add
connect v others g = record {
  values = if has_entry g.graph v then g.values else add v g.values;
  graph = insert_neighbors v others g.graph;
}

-- `graph_.insert` does nothing where the value has an entry.
unfoldable pub add_value : InterferenceGraph → ℕ → InterferenceGraph
unfolding has_entry add
add_value g v = if mem v g.values then g else record {
  values = add v g.values;
  graph = if has_entry g.graph v then g.graph else (v, []) ∷ g.graph;
}

unfoldable pub add_edge : InterferenceGraph → ℕ → ℕ → InterferenceGraph
unfolding connect
add_edge g a b = connect b (a ∷ []) (connect a (b ∷ []) g)

-- The loop over the members of the group, each with all the others.
unfoldable pub connect_each : List ℕ → List ℕ → InterferenceGraph → InterferenceGraph
unfolding connect erase
connect_each [] group g = g
connect_each (member ∷ members) group g =
    connect_each members group (connect member (erase member group) g)

unfoldable pub add_edges_in : InterferenceGraph → List ℕ → InterferenceGraph
unfolding add_value connect_each
add_edges_in g [] = g
add_edges_in g (member ∷ []) = add_value g member
add_edges_in g (a ∷ (b ∷ group)) = connect_each (a ∷ (b ∷ group)) (a ∷ (b ∷ group)) g

unfoldable pub connect_to : List ℕ → ℕ → InterferenceGraph → InterferenceGraph
unfolding connect
connect_to [] individual g = g
connect_to (member ∷ members) individual g =
    connect_to members individual (connect member (individual ∷ []) g)

unfoldable pub add_edges_between : InterferenceGraph → List ℕ → ℕ → InterferenceGraph
unfolding connect_to connect
add_edges_between g group individual = connect individual group (connect_to group individual g)
