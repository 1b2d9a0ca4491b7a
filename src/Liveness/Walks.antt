-- ===== src/Liveness/Walks.antt =====
-- What the walk of src/ir/analyzers/interference_graph_builder.cc through a block leaves in the graph.
use katara.Prelude.{
  ℕ, ◌≡◌, ◌∙◌, refl, arith, Bool, true, false, not, ◌&&◌, ◌||◌, ◌==◌, if◌then◌else◌, List, [], ◌∷◌,
  Bool-cases, inl, inr,
}
use katara.Interference.Sets.{mem, add, erase, mem-add, mem-erase}
use katara.Interference.Graph.{InterferenceGraph, add_edges_in, add_edges_between}
use katara.Interference.Refines.{adjacent, operations-Implements}
use katara.Interference.Built.{Built, built_view}
use katara.Liveness.Builder.{Walk, define_values}
use katara.Liveness.Live.{Together, Spared, Finer}

pub star-adjacent :
    {g : InterferenceGraph} (b : Built g) (group : List ℕ) (v x y : ℕ)
    → adjacent (add_edges_between g group v) x y
      ≡ ((mem x group && (v == y)) || (v == x && mem y group) || adjacent g x y)
star-adjacent b group v x y =
    let (w, i, r) = built_view b in
    let s = (operations-Implements _ w v v group i).3 in
    s.interferes x y ∙ ground (arith, i.interferes x y)

pub clique-adjacent :
    {g : InterferenceGraph} (b : Built g) (group : List ℕ) (x y : ℕ)
    → adjacent (add_edges_in g group) x y
      ≡ ((mem x group && mem y group && not (x == y)) || adjacent g x y)
clique-adjacent b group x y =
    let (w, i, r) = built_view b in
    let s = (operations-Implements _ w 0 0 group i).2 in
    s.interferes x y ∙ ground (arith, i.interferes x y)

-- A walk on a graph that was built from `g`, whose live values are pairwise adjacent.
pub record Walked (g : InterferenceGraph) (live : List ℕ) (g' : InterferenceGraph) : Type 0 where
  pub built : Built g'
  pub together : Together (adjacent g') (λ a. mem a live)
  pub grown : Finer (adjacent g) (adjacent g')

pub star-Walked :
    (g : InterferenceGraph) (live : List ℕ) (g' : InterferenceGraph) (v : ℕ)
    → Walked g live g'
    → Walked g live (add_edges_between g' live v)
star-Walked g live g' v k = record {
  built = Built.star live v k.built;
  together = λ a b. ground (arith, star-adjacent k.built live v a b, k.together a b);
  grown = λ a b. ground (arith, star-adjacent k.built live v a b, k.grown a b);
}

erase-Walked :
    (g : InterferenceGraph) (live : List ℕ) (g' : InterferenceGraph) (v : ℕ)
    → Walked g live g'
    → Walked g (erase v live) g'
erase-Walked g live g' v k = record {
  built = k.built;
  together = λ a b. ground (arith, mem-erase a v live, mem-erase b v live, k.together a b);
  grown = k.grown;
}

pub add-Walked :
    (g : InterferenceGraph) (live : List ℕ) (g' : InterferenceGraph) (v : ℕ)
    → Walked g live g'
    → Walked g (add v live) (add_edges_between g' live v)
add-Walked g live g' v k = record {
  built = Built.star live v k.built;
  together = λ a b.
      ground (
        arith,
        mem-add a v live,
        mem-add b v live,
        star-adjacent k.built live v a b,
        k.together a b,
      );
  grown = λ a b. ground (arith, star-adjacent k.built live v a b, k.grown a b);
}

pub here :
    (g : InterferenceGraph) (live : List ℕ) (g' : InterferenceGraph)
    → Walked g live g'
    → Walked g' live g'
here g live g' k = record { built = k.built; together = k.together; grown = λ a b. ground arith }

-- One definition.
define_one : ℕ → List ℕ → InterferenceGraph → Walk
define_one v live g = if mem v live then (erase v live, g) else (live, add_edges_between g live v)

define_one-Walked :
    (g : InterferenceGraph) (v : ℕ) (live : List ℕ) (g' : InterferenceGraph)
    → Walked g live g'
    → Walked g (define_one v live g').0 (define_one v live g').1
unfolding define_one
define_one-Walked g v live g' k = elim (Bool-cases (mem v live)) [
  | inl h ↦ rw h (erase-Walked g live g' v k)
  | inr h ↦ rw h (star-Walked g live g' v k)
]

pub equal_mem : (a b : ℕ) (live : List ℕ) → (a == b) ≡ true → mem a live ≡ mem b live
equal_mem a b [] h = refl
equal_mem a b (x ∷ live) h = ground (arith, equal_mem a b live h)

define_one-live :
    (v : ℕ) (live : List ℕ) (g : InterferenceGraph) (a : ℕ)
    → mem a (define_one v live g).0 ≡ (mem a live && not (v == a))
unfolding define_one
define_one-live v live g a = elim (Bool-cases (mem v live)) [
  | inl h ↦ rw h (ground (arith, mem-erase a v live))
  | inr h ↦ rw h (ground (arith, h, equal_mem v a live))
]

define_one-adjacent :
    (g : InterferenceGraph) (v : ℕ) (live : List ℕ) (g' : InterferenceGraph)
    → Walked g live g'
    → (a : ℕ) → (mem a live && not (v == a) && not (adjacent (define_one v live g').1 v a)) ≡ false
unfolding define_one
define_one-adjacent g v live g' k a = elim (Bool-cases (mem v live)) [
  | inl h ↦ rw h (ground (arith, h, k.together v a))
  | inr h ↦ rw h (ground (arith, h, star-adjacent k.built live v v a))
]

pub define-Walked :
    (g : InterferenceGraph) (vs live : List ℕ) (g' : InterferenceGraph)
    → Walked g live g'
    → Walked g (define_values vs (live, g')).0 (define_values vs (live, g')).1
unfolding define_values define_one
define-Walked g [] live g' k = k
define-Walked g (v ∷ vs) live g' k =
    define-Walked g vs (define_one v live g').0 (define_one v live g').1
      (define_one-Walked g v live g' k)

pub define-live :
    (vs live : List ℕ) (g : InterferenceGraph) (a : ℕ)
    → mem a (define_values vs (live, g)).0 ≡ (mem a live && not (mem a vs))
unfolding define_values define_one
define-live [] live g a = ground arith
define-live (v ∷ vs) live g a =
    define-live vs (define_one v live g).0 (define_one v live g).1 a
    ∙ ground (arith, define_one-live v live g a)

spared_step :
    (v d a : ℕ) (vs : List ℕ) (live live1 : Bool) (one final : ℕ → ℕ → Bool)
    → live1 ≡ (live && not (v == a))
    → (live && not (v == a) && not (one v a)) ≡ false
    → (one v a && not (v == a) && not (final v a)) ≡ false
    → (mem d vs && live1 && not (mem a vs) && not (d == a) && not (final d a)) ≡ false
    → ((v == d || mem d vs) && live && not (v == a || mem a vs) && not (d == a) && not (final d a))
      ≡ false
spared_step v d a vs live live1 one final h1 h2 h3 h4 = ground arith

pub define-Spared :
    (g : InterferenceGraph) (vs live : List ℕ) (g' : InterferenceGraph)
    → Walked g live g'
    → Spared (adjacent (define_values vs (live, g')).1) vs (λ a. mem a live)
unfolding define_values define_one
define-Spared g [] live g' k = λ d a. refl
define-Spared g (v ∷ vs) live g' k =
    let live1 = (define_one v live g').0 in
    let g1 = (define_one v live g').1 in
    let k1 = define_one-Walked g v live g' k in
    let later = define-Walked g1 vs live1 g1 (here g live1 g1 k1) in
    let ih = define-Spared g1 vs live1 g1 (here g live1 g1 k1) in
    let final = adjacent (define_values vs (live1, g1)).1 in
    λ d a.
      spared_step v d a vs (mem a live) (mem a live1) (adjacent g1) final
        (define_one-live v live g' a) (define_one-adjacent g v live g' k a) (later.grown v a)
        (ih d a)
