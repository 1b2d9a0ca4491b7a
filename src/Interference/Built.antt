-- ===== src/Interference/Built.antt =====
-- The graphs that the operations of src/ir/info/interference_graph.cc build from the empty one.
use katara.Prelude.{ℕ, ◌≡◌, ◌∙◌, sym, refl, arith, true, false, List, [], ◌∷◌, some}
use katara.Prelude.Result.{ok}
use katara.Interference.Sets.{mem}
use katara.Interference.Graph.{
  InterferenceGraph, Neighbors, find, has_entry, neighbors_of, get_neighbors, add_value, add_edge,
  add_edges_in, add_edges_between,
}
use katara.Interference.Refines.{
  View, Implements, adjacent, with_value, with_edge, with_clique, with_star, operations-Implements,
}

pub data Built : InterferenceGraph → Type 0 where
  empty : Built (record { values = []; graph = [] })
  value : {g : InterferenceGraph} (v : ℕ) → Built g → Built (add_value g v)
  edge : {g : InterferenceGraph} (v u : ℕ) → Built g → Built (add_edge g v u)
  clique : {g : InterferenceGraph} (group : List ℕ) → Built g → Built (add_edges_in g group)
  star :
      {g : InterferenceGraph} (group : List ℕ) (v : ℕ)
      → Built g
      → Built (add_edges_between g group v)

-- A view whose relation is symmetric and holds between its values only.
pub record IsRelation (w : View) : Type 0 where
  pub symmetric : (a b : ℕ) → w.interferes a b ≡ w.interferes b a
  pub inside : (a b : ℕ) → w.interferes a b ≡ true → w.has a ≡ true

module _ (w : View) (r : IsRelation w) where
  IsRelation-value : (v : ℕ) → IsRelation (with_value w v)
  IsRelation-value v = record {
    symmetric = r.symmetric;
    inside = λ a b h. ground (arith, r.inside a b);
  }

  IsRelation-edge : (v u : ℕ) → IsRelation (with_edge w v u)
  IsRelation-edge v u = record {
    symmetric = λ a b. ground (arith, r.symmetric a b);
    inside = λ a b h. ground (arith, r.inside a b);
  }

  IsRelation-clique : (group : List ℕ) → IsRelation (with_clique w group)
  IsRelation-clique group = record {
    symmetric = λ a b. ground (arith, r.symmetric a b);
    inside = λ a b h. ground (arith, r.inside a b);
  }

  IsRelation-star : (group : List ℕ) (v : ℕ) → IsRelation (with_star w group v)
  IsRelation-star group v = record {
    symmetric = λ a b. ground (arith, r.symmetric a b);
    inside = λ a b h. ground (arith, r.inside a b);
  }

pub built_view : {g : InterferenceGraph} → Built g → (w : View) × Implements g w × IsRelation w
unfolding has_entry neighbors_of
built_view empty = (
  record { has = λ a. false; interferes = λ a b. false },
  record { has = λ a. refl; entries = λ a. refl; interferes = λ a b. refl },
  record { symmetric = λ a b. refl; inside = λ a b h. ground arith },
)
built_view (value {g} v b) =
    let (w, i, r) = built_view b in
    (with_value w v, (operations-Implements g w v v [] i).0, IsRelation-value w r v)
built_view (edge {g} v u b) =
    let (w, i, r) = built_view b in
    (with_edge w v u, (operations-Implements g w v u [] i).1, IsRelation-edge w r v u)
built_view (clique {g} group b) =
    let (w, i, r) = built_view b in
    (with_clique w group, (operations-Implements g w 0 0 group i).2, IsRelation-clique w r group)
built_view (star {g} group v b) =
    let (w, i, r) = built_view b in
    (with_star w group v, (operations-Implements g w v v group i).3, IsRelation-star w r group v)

find-neighbors_of :
    (n : Neighbors) (v : ℕ) → has_entry n v ≡ true → find n v ≡ some (neighbors_of n v)
unfolding find has_entry neighbors_of
find-neighbors_of [] v h = ground arith
find-neighbors_of ((k, ns) ∷ rest) v h = ground (arith, find-neighbors_of rest v)

pub record Sound (g : InterferenceGraph) : Type 0 where
  pub symmetric : (a b : ℕ) → adjacent g a b ≡ adjacent g b a
  pub inside : (a b : ℕ) → adjacent g a b ≡ true → mem a g.values ≡ true
  pub looked_up : (a : ℕ) → mem a g.values ≡ true → get_neighbors g a ≡ ok (neighbors_of g.graph a)

-- Of every graph that the operations build: the neighbours are symmetric, both ends of an edge are
-- values of the graph, and `GetNeighbors` of a value does not throw.
pub built-Sound : (g : InterferenceGraph) → Built g → Sound g
unfolding get_neighbors
built-Sound g b =
    let (w, i, r) = built_view b in
    record {
      symmetric = λ a b. i.interferes a b ∙ r.symmetric a b ∙ sym (i.interferes b a);
      inside = λ a b h. i.has a ∙ r.inside a b (sym (i.interferes a b) ∙ h);
      looked_up = λ a h.
          rw (get_neighbors, find-neighbors_of g.graph a (i.entries a ∙ sym (i.has a) ∙ h)) refl;
    }
