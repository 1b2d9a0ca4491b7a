-- ===== src/Liveness/Apart.antt =====
-- What src/ir/analyzers/interference_graph_builder.cc keeps apart in a block.
use katara.Prelude.{
  ℕ, ◌≡◌, ◌∙◌, refl, arith, Bool, true, false, not, ◌&&◌, ◌||◌, ◌==◌, if◌then◌else◌, List, [], ◌∷◌,
  Bool-cases, inl, inr,
}
use katara.Interference.Sets.{mem, add, mem-add}
use katara.Interference.Graph.{InterferenceGraph, add_edges_in, add_edges_between}
use katara.Interference.Refines.{adjacent}
use katara.Interference.Built.{Built}
use katara.Liveness.Code.{Value, Instr, is_phi, defined_values, used_values}
use katara.Liveness.Builder.{Walk, define_values, use_values}
use katara.Liveness.Live.{uses_value, live_before, KeptApart, KeptApart-Finer}
use katara.Liveness.Walks.{
  Walked, equal_mem, star-Walked, add-Walked, clique-adjacent, here, define-Walked, define-live,
  define-Spared,
}

use_one : Bool → ℕ → List ℕ → InterferenceGraph → Walk
use_one phi v live g =
    if mem v live
    then (live, g)
    else (if phi
        then (live, add_edges_between g live v)
        else (add v live, add_edges_between g live v))

use_one-Walked :
    (g : InterferenceGraph) (phi : Bool) (v : ℕ) (live : List ℕ) (g' : InterferenceGraph)
    → Walked g live g'
    → Walked g (use_one phi v live g').0 (use_one phi v live g').1
unfolding use_one
use_one-Walked g true v live g' k = elim (Bool-cases (mem v live)) [
  | inl h ↦ rw h k
  | inr h ↦ rw h (star-Walked g live g' v k)
]
use_one-Walked g false v live g' k = elim (Bool-cases (mem v live)) [
  | inl h ↦ rw h k
  | inr h ↦ rw h (add-Walked g live g' v k)
]

use_one-live :
    (phi : Bool) (v : ℕ) (live : List ℕ) (g : InterferenceGraph) (a : ℕ)
    → mem a (use_one phi v live g).0 ≡ (mem a live || (not phi && (v == a)))
unfolding use_one
use_one-live true v live g a = elim (Bool-cases (mem v live)) [
  | inl h ↦ rw h (ground arith)
  | inr h ↦ rw h (ground arith)
]
use_one-live false v live g a = elim (Bool-cases (mem v live)) [
  | inl h ↦ rw h (ground (arith, h, equal_mem v a live))
  | inr h ↦ rw h (ground (arith, mem-add a v live))
]

use-Walked :
    (g : InterferenceGraph) (phi : Bool) (vs : List Value) (live : List ℕ) (g' : InterferenceGraph)
    → Walked g live g'
    → Walked g (use_values phi vs (live, g')).0 (use_values phi vs (live, g')).1
unfolding use_values use_one
use-Walked g phi [] live g' k = k
use-Walked g phi (Value.constant ∷ vs) live g' k = use-Walked g phi vs live g' k
use-Walked g phi (Value.computed v ∷ vs) live g' k =
    use-Walked g phi vs (use_one phi v live g').0 (use_one phi v live g').1
      (use_one-Walked g phi v live g' k)

use-live :
    (phi : Bool) (vs : List Value) (live : List ℕ) (g : InterferenceGraph) (a : ℕ)
    → mem a (use_values phi vs (live, g)).0 ≡ (mem a live || (not phi && uses_value vs a))
unfolding use_values use_one
use-live phi [] live g a = ground arith
use-live phi (Value.constant ∷ vs) live g a = use-live phi vs live g a
use-live phi (Value.computed v ∷ vs) live g a =
    use-live phi vs (use_one phi v live g).0 (use_one phi v live g).1 a
    ∙ ground (arith, use_one-live phi v live g a)

-- The walk through the instructions of a block, from the values that are live behind them.
pub record Traced (g : InterferenceGraph) (exit_set : List ℕ) (instrs : List Instr) (w : Walk)
    : Type 0 where
  pub walked : Walked g w.0 w.1
  pub live : (a : ℕ) → mem a w.0 ≡ live_before exit_set instrs a
  pub apart : KeptApart (adjacent w.1) exit_set instrs

pub walk-start :
    (g : InterferenceGraph) (exit_set : List ℕ)
    → Built g
    → Traced g exit_set [] (exit_set, add_edges_in g exit_set)
unfolding KeptApart live_before
walk-start g exit_set b = record {
  walked = record {
    built = Built.clique exit_set b;
    together = λ x y. ground (arith, clique-adjacent b exit_set x y);
    grown = λ x y. ground (arith, clique-adjacent b exit_set x y);
  };
  live = λ a. refl;
  apart = λ x y. ground (arith, clique-adjacent b exit_set x y);
}

pub walk-step :
    (g : InterferenceGraph) (exit_set : List ℕ) (i : Instr) (rest : List Instr) (w : Walk)
    → Traced g exit_set rest w
    → Traced g exit_set
        (i ∷ rest)
        (use_values (is_phi i) (used_values i) (define_values (defined_values i) w))
unfolding KeptApart live_before
walk-step g exit_set i rest w t =
    let vs = defined_values i in
    let d = define_values vs w in
    let u = use_values (is_phi i) (used_values i) d in
    let kd = define-Walked g vs w.0 w.1 t.walked in
    let ku = use-Walked g (is_phi i) (used_values i) d.0 d.1 kd in
    let after_start = define-Walked w.1 vs w.0 w.1 (here g w.0 w.1 t.walked) in
    let after = use-Walked w.1 (is_phi i) (used_values i) d.0 d.1 after_start in
    let last = use-Walked d.1 (is_phi i) (used_values i) d.0 d.1 (here g d.0 d.1 kd) in
    let live' : (a : ℕ) → mem a u.0 ≡ live_before exit_set (i ∷ rest) a = λ a.
      use-live (is_phi i) (used_values i) d.0 d.1 a
      ∙ ground (arith, define-live vs w.0 w.1 a, t.live a) in
    record {
      walked = ku;
      live = live';
      apart = (
        λ a b. ground (arith, live' a, live' b, ku.together a b),
        λ x a. ground (arith, t.live a, define-Spared g vs w.0 w.1 t.walked x a, last.grown x a),
        KeptApart-Finer (adjacent w.1) (adjacent u.1) exit_set rest after.grown t.apart,
      );
    }
