-- ===== src/Interference/Refines.antt =====
-- The operations of `InterferenceGraph` as operations on a set of values and a relation between them.
use katara.Prelude.{ℕ, ◌≡◌, ◌∙◌, refl, arith, Bool, false, not, ◌&&◌, ◌||◌, ◌==◌, List, [], ◌∷◌}
use katara.Interference.Sets.{mem, erase, mem-add, mem-add_all, mem-erase}
use katara.Interference.Graph.{
  InterferenceGraph, Neighbors, has_entry, neighbors_of, insert_neighbors, connect, add_value,
  add_edge, connect_each, add_edges_in, connect_to, add_edges_between,
}

abbrev pub adjacent : InterferenceGraph → ℕ → ℕ → Bool
adjacent g a b = mem b (neighbors_of g.graph a)

-- The abstract view: which values there are, and which interfere.
pub record View : Type 0 where
  pub has : ℕ → Bool
  pub interferes : ℕ → ℕ → Bool

-- A graph implements a view where it holds these values and neighbours, and has an entry for exactly
-- its values.
pub record Implements (g : InterferenceGraph) (w : View) : Type 0 where
  pub has : (a : ℕ) → mem a g.values ≡ w.has a
  pub entries : (a : ℕ) → has_entry g.graph a ≡ w.has a
  pub interferes : (a b : ℕ) → adjacent g a b ≡ w.interferes a b

abbrev pub with_value : View → ℕ → View
with_value w v = record { has = λ a. v == a || w.has a; interferes = w.interferes }

-- One direction of edges.
abbrev pub with_arcs : View → ℕ → List ℕ → View
with_arcs w v others = record {
  has = λ a. v == a || w.has a;
  interferes = λ a b. (v == a && mem b others) || w.interferes a b;
}

has_entry-insert_neighbors :
    (v : ℕ) (others : List ℕ) (n : Neighbors) (a : ℕ)
    → has_entry (insert_neighbors v others n) a ≡ (v == a || has_entry n a)
unfolding has_entry insert_neighbors
has_entry-insert_neighbors v others [] a = ground arith
has_entry-insert_neighbors v others ((k, ns) ∷ rest) a =
    ground (arith, has_entry-insert_neighbors v others rest a)

mem-insert_neighbors :
    (v : ℕ) (others : List ℕ) (n : Neighbors) (a b : ℕ)
    → mem b (neighbors_of (insert_neighbors v others n) a)
      ≡ ((v == a && mem b others) || mem b (neighbors_of n a))
unfolding neighbors_of insert_neighbors
mem-insert_neighbors v others [] a b = ground (arith, mem-add_all b others [])
mem-insert_neighbors v others ((k, ns) ∷ rest) a b =
    ground (arith, mem-add_all b others ns, mem-insert_neighbors v others rest a b)

connect-Implements :
    (g : InterferenceGraph) (w : View) (v : ℕ) (others : List ℕ)
    → Implements g w
    → Implements (connect v others g) (with_arcs w v others)
unfolding connect
connect-Implements g w v others h = record {
  has = λ a. ground (arith, mem-add a v g.values, h.has a, h.has v, h.entries v);
  entries = λ a. has_entry-insert_neighbors v others g.graph a ∙ ground (arith, h.entries a);
  interferes = λ a b. mem-insert_neighbors v others g.graph a b ∙ ground (arith, h.interferes a b);
}

-- Equal views are implemented alike.
Implements-same :
    (g : InterferenceGraph) (w u : View)
    → ((a : ℕ) → w.has a ≡ u.has a)
    → ((a b : ℕ) → w.interferes a b ≡ u.interferes a b)
    → Implements g w
    → Implements g u
Implements-same g w u hs is h = record {
  has = λ a. h.has a ∙ hs a;
  entries = λ a. h.entries a ∙ hs a;
  interferes = λ a b. h.interferes a b ∙ is a b;
}

abbrev pub with_edge : View → ℕ → ℕ → View
with_edge w v u = record {
  has = λ a. v == a || u == a || w.has a;
  interferes = λ a b. (v == a && (u == b)) || (u == a && (v == b)) || w.interferes a b;
}

-- Every two different members of the group interfere.
abbrev pub with_clique : View → List ℕ → View
with_clique w group = record {
  has = λ a. mem a group || w.has a;
  interferes = λ a b. (mem a group && mem b group && not (a == b)) || w.interferes a b;
}

abbrev pub with_star : View → List ℕ → ℕ → View
with_star w group v = record {
  has = λ a. mem a group || v == a || w.has a;
  interferes = λ a b. (mem a group && (v == b)) || (v == a && mem b group) || w.interferes a b;
}

no_neighbors : (n : Neighbors) (a : ℕ) → has_entry n a ≡ false → neighbors_of n a ≡ []
unfolding has_entry neighbors_of
no_neighbors [] a h = refl
no_neighbors ((k, ns) ∷ rest) a h = ground (arith, no_neighbors rest a)

add_value-Implements :
    (g : InterferenceGraph) (w : View) (v : ℕ)
    → Implements g w
    → Implements (add_value g v) (with_value w v)
unfolding add_value has_entry neighbors_of
add_value-Implements g w v h = record {
  has = λ a. ground (arith, mem-add a v g.values, h.has a, h.has v);
  entries = λ a. ground (arith, h.entries a, h.entries v, h.has v);
  interferes = λ a b.
      ground (arith, h.interferes a b, h.entries a, h.has v, h.entries v, no_neighbors g.graph a);
}

add_edge-Implements :
    (g : InterferenceGraph) (w : View) (v u : ℕ)
    → Implements g w
    → Implements (add_edge g v u) (with_edge w v u)
unfolding add_edge
add_edge-Implements g w v u h =
    Implements-same _ (with_arcs (with_arcs w v (u ∷ [])) u (v ∷ [])) _ (λ a. ground arith)
      (λ a b. ground arith)
      (connect-Implements _ (with_arcs w v (u ∷ [])) u (v ∷ [])
        (connect-Implements g w v (u ∷ []) h))

connect_each-Implements :
    (members group : List ℕ) (g : InterferenceGraph) (w : View)
    → Implements g w
    → Implements (connect_each members group g) (record {
      has = λ a. mem a members || w.has a;
      interferes = λ a b. (mem a members && mem b group && not (a == b)) || w.interferes a b;
    })
unfolding connect_each
connect_each-Implements [] group g w h = h
connect_each-Implements (v ∷ members) group g w h =
    Implements-same _ _ _ (λ a. ground arith) (λ a b. ground (arith, mem-erase b v group))
      (connect_each-Implements members group _ (with_arcs w v (erase v group))
        (connect-Implements g w v (erase v group) h))

connect_to-Implements :
    (members : List ℕ) (v : ℕ) (g : InterferenceGraph) (w : View)
    → Implements g w
    → Implements (connect_to members v g) (record {
      has = λ a. mem a members || w.has a;
      interferes = λ a b. (mem a members && (v == b)) || w.interferes a b;
    })
unfolding connect_to
connect_to-Implements [] v g w h = h
connect_to-Implements (m ∷ members) v g w h =
    Implements-same _ _ _ (λ a. ground arith) (λ a b. ground arith)
      (connect_to-Implements members v _ (with_arcs w m (v ∷ []))
        (connect-Implements g w m (v ∷ []) h))

add_edges_in-Implements :
    (g : InterferenceGraph) (w : View) (group : List ℕ)
    → Implements g w
    → Implements (add_edges_in g group) (with_clique w group)
unfolding add_edges_in
add_edges_in-Implements g w [] h = h
add_edges_in-Implements g w (v ∷ []) h =
    Implements-same _ (with_value w v) _ (λ a. ground arith) (λ a b. ground arith)
      (add_value-Implements g w v h)
add_edges_in-Implements g w (v ∷ (u ∷ group)) h =
    connect_each-Implements (v ∷ (u ∷ group)) (v ∷ (u ∷ group)) g w h

add_edges_between-Implements :
    (g : InterferenceGraph) (w : View) (group : List ℕ) (v : ℕ)
    → Implements g w
    → Implements (add_edges_between g group v) (with_star w group v)
unfolding add_edges_between
add_edges_between-Implements g w group v h =
    Implements-same _ _ _ (λ a. ground arith) (λ a b. ground arith)
      (connect-Implements _ _ v group (connect_to-Implements group v g w h))

-- On a graph that implements a view, `AddValue` adds the value, `AddEdge` the edge in both directions,
-- `AddEdgesIn` an edge between every two different members of the group, and `AddEdgesBetween` one
-- between each member and the individual; each adds the values that it names, and nothing else changes.
pub operations-Implements :
    (g : InterferenceGraph) (w : View) (v u : ℕ) (group : List ℕ)
    → Implements g w
    → Implements (add_value g v) (with_value w v)
      × Implements (add_edge g v u) (with_edge w v u)
      × Implements (add_edges_in g group) (with_clique w group)
      × Implements (add_edges_between g group v) (with_star w group v)
operations-Implements g w v u group h = (
  add_value-Implements g w v h,
  add_edge-Implements g w v u h,
  add_edges_in-Implements g w group h,
  add_edges_between-Implements g w group v h,
)
