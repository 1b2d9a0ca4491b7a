-- ===== src/Interference/Proper.antt =====
-- What `ColorInterferenceGraph` of src/ir/analyzers/interference_graph_colorer.cc gives.
use katara.Prelude.{
  ℕ, ◌≡◌, ◌⊎◌, inl, inr, ◌∙◌, sym, subst, refl, arith, Bool, true, false, not, ◌&&◌, ◌||◌, ◌==◌,
  if◌then◌else◌, List, [], ◌∷◌, Bool-cases, ==_iff,
}
use katara.Prelude.Int.{ℤ, pos}
use katara.Prelude.Result.{ok}
use katara.Interference.Sets.{mem}
use katara.Interference.Graph.{InterferenceGraph, neighbors_of}
use katara.Interference.Refines.{adjacent}
use katara.Interference.Built.{Built, Sound, built-Sound}
use katara.Interference.Colors.{
  Colors, no_color, same_color, get_color, has_color, set_color, has, get_colors, color_value,
  color_values,
}
use katara.Interference.Pigeons.{choose-found}

same_color_iff : (a b : ℤ) → same_color a b ≡ true → a ≡ b
same_color_iff a b h = ground arith

same_color_refl : (a : ℤ) → same_color a a ≡ true
same_color_refl a = ground arith

has-get_colors :
    (cs : Colors) (vs : List ℕ) (u : ℕ)
    → mem u vs ≡ true
    → has (get_colors cs vs) (get_color cs u) ≡ true
unfolding get_colors
has-get_colors cs [] u h = ground arith
has-get_colors cs (v ∷ vs) u h =
    ground (arith, has-get_colors cs vs u, same_color_refl (get_color cs v))

-- A colour that no neighbour has is not that of a neighbour.
apart :
    (cs : Colors) (vs : List ℕ) (u : ℕ) (c : ℤ)
    → mem u vs ≡ true
    → has (get_colors cs vs) c ≡ false
    → same_color c (get_color cs u) ≡ false
apart cs vs u c m free = elim (Bool-cases (same_color c (get_color cs u))) [
  | inl t ↦
      let e : c ≡ get_color cs u = same_color_iff c (get_color cs u) t in
      absurd
        (cc (subst (λ (x : ℤ). has (get_colors cs vs) x ≡ false) e free, has-get_colors cs vs u m))
  | inr f ↦ f
]

-- What the loop over the values keeps: two values that interfere and have colours have different ones,
-- and a colour that was set is not the one that stands for none.
record Kept (g : InterferenceGraph) (cs : Colors) : Type 0 where
  proper :
      (a b : ℕ)
      → (adjacent g a b
          && not (a == b)
          && has_color cs a
          && has_color cs b
          && same_color (get_color cs a) (get_color cs b))
        ≡ false
  some_color : (a : ℕ) → (has_color cs a && same_color (get_color cs a) no_color) ≡ false

-- The colour that the loop sets.
record Picks (cs : Colors) (v : ℕ) (neighbors : List ℕ) (next : Colors) : Type 0 where
  color : ℤ
  free : has (get_colors cs neighbors) color ≡ false
  real : same_color color no_color ≡ false
  set_it : next ≡ set_color cs v color

color_value-Picks :
    (preferred cs : Colors) (v : ℕ) (neighbors : List ℕ)
    → Picks cs v neighbors (color_value preferred cs v neighbors)
unfolding color_value
color_value-Picks preferred cs v neighbors =
    elim (Bool-cases (
      not (same_color (get_color preferred v) no_color)
      && not (has (get_colors cs neighbors) (get_color preferred v)))) [
        | inl t ↦ record {
          color = get_color preferred v;
          free = ground arith;
          real = ground arith;
          set_it = rw t refl;
        }
        | inr f ↦
            let (d, free, e) = choose-found (get_colors cs neighbors) cs v in
            record { color = pos d; free = free; real = ground arith; set_it = rw f e }
      ]

has_color-set_color :
    (cs : Colors) (v : ℕ) (c : ℤ) (a : ℕ)
    → has_color (set_color cs v c) a ≡ (v == a || has_color cs a)
unfolding has_color set_color
has_color-set_color cs v c a = ground arith

get_color-set_color :
    (cs : Colors) (v : ℕ) (c : ℤ) (a : ℕ)
    → get_color (set_color cs v c) a
      ≡ (if v == a && not (has_color cs v) then c else get_color cs a)
unfolding set_color get_color
get_color-set_color cs v c a = ground arith

differ :
    (g : InterferenceGraph) (cs : Colors) (v b : ℕ) (c : ℤ)
    → has (get_colors cs (neighbors_of g.graph v)) c ≡ false
    → (adjacent g v b && same_color c (get_color cs b)) ≡ false
differ g cs v b c free = ground (arith, apart cs (neighbors_of g.graph v) b c)

same_color_comm : (a b : ℤ) → same_color a b ≡ same_color b a
same_color_comm a b = ground arith

equal_keys : (v a b : ℕ) → (v == a) ≡ true → (v == b) ≡ true → (a == b) ≡ true
equal_keys v a b p q = ground arith

and_not : (x y z w : Bool) {e : Bool} → e ≡ true → (x && not e && y && z && w) ≡ false
and_not x y z w h = rw h (ground arith)

both_true : (x y z u : Bool) → (x && u) ≡ false → (x && y && true && z && u) ≡ false
both_true x y z u h = ground arith

both_true_second : (x y z u : Bool) → (x && u) ≡ false → (x && y && z && true && u) ≡ false
both_true_second x y z u h = ground arith

-- A new colour that no neighbour has.
Kept-cons :
    (g : InterferenceGraph) (s : Sound g) (cs : Colors) (v : ℕ) (c : ℤ)
    → Kept g cs
    → has (get_colors cs (neighbors_of g.graph v)) c ≡ false
    → same_color c no_color ≡ false
    → Kept g ((v, c) ∷ cs)
unfolding has_color get_color
Kept-cons g s cs v c k free real = record {
  proper = λ a b. by_ends a b (Bool-cases (v == a)) (Bool-cases (v == b));
  some_color = λ a. ground (arith, k.some_color a);
}
  where
    by_ends :
        (a b : ℕ)
        → ((v == a) ≡ true) ⊎ ((v == a) ≡ false)
        → ((v == b) ≡ true) ⊎ ((v == b) ≡ false)
        → (adjacent g a b
            && not (a == b)
            && (v == a || has_color cs a)
            && (v == b || has_color cs b)
            && same_color
                (if v == a then c else get_color cs a)
                (if v == b then c else get_color cs b))
          ≡ false
    by_ends a b (inl ea) (inl eb) = and_not (adjacent g a b) _ _ _ (equal_keys v a b ea eb)
    by_ends a b (inl ea) (inr eb) =
        let e : v ≡ a = (==_iff v a).0 ea in
        rw (ea, eb)
          (both_true (adjacent g a b) _ _ _ (
            subst (λ (x : ℕ). (adjacent g x b && same_color c (get_color cs b)) ≡ false) e
              (differ g cs v b c free)))
    by_ends a b (inr ea) (inl eb) =
        let e : v ≡ b = (==_iff v b).0 eb in
        rw (ea, eb, same_color_comm (get_color cs a) c, s.symmetric a b)
          (both_true_second (adjacent g b a) _ _ _ (
            subst (λ (x : ℕ). (adjacent g x a && same_color c (get_color cs a)) ≡ false) e
              (differ g cs v a c free)))
    by_ends a b (inr ea) (inr eb) = rw (ea, eb) (k.proper a b)

Kept-step :
    (g : InterferenceGraph) (s : Sound g) (cs next : Colors) (v : ℕ)
    → Kept g cs
    → Picks cs v (neighbors_of g.graph v) next
    → Kept g next
unfolding set_color
Kept-step g s cs next v k p = subst (Kept g) (sym p.set_it) (elim (Bool-cases (has_color cs v)) [
  | inl t ↦ rw t k
  | inr f ↦ rw f (Kept-cons g s cs v p.color k p.free p.real)
])

-- The loop over values of the graph returns, keeps what it has to, and gives each of them a colour.
Runs : InterferenceGraph → Colors → List ℕ → Colors → Type 0
Runs g preferred vs cs =
    (result : Colors) × (color_values g preferred vs cs ≡ ok result)
    × Kept g result
    × ((a : ℕ) → (mem a vs || has_color cs a) ≡ has_color result a)

run :
    (g : InterferenceGraph) (s : Sound g) (preferred : Colors) (vs : List ℕ) (cs : Colors)
    → ((a : ℕ) → mem a vs ≡ true → mem a g.values ≡ true)
    → Kept g cs
    → Runs g preferred vs cs
unfolding color_values Runs
run g s preferred [] cs inside k = (cs, refl, k, λ a. refl)
run g s preferred (v ∷ vs) cs inside k =
    let next = color_value preferred cs v (neighbors_of g.graph v) in
    let picks = color_value-Picks preferred cs v (neighbors_of g.graph v) in
    let (result, e, kept, colored) =
      run g s preferred vs next (λ a h. inside a (ground arith))
        (Kept-step g s cs next v k picks) in
    (
      result,
      rw (s.looked_up v (inside v (ground arith))) e,
      kept,
      λ a. ground (
        arith,
        colored a,
        subst (λ (x : Colors). has_color x a ≡ (v == a || has_color cs a)) (sym picks.set_it)
            (has_color-set_color cs v picks.color a),
      ),
    )

-- A colouring of a graph: every value has a colour, and values that interfere have different ones.
pub record IsColoring (g : InterferenceGraph) (cs : Colors) : Type 0 where
  pub colored : (a : ℕ) → (mem a g.values && same_color (get_color cs a) no_color) ≡ false
  pub proper :
      (a b : ℕ)
      → (adjacent g a b && not (a == b) && same_color (get_color cs a) (get_color cs b)) ≡ false

-- On every graph that its operations build, in whatever order its values are met and whatever colours
-- are preferred, the loop of `ColorInterferenceGraph` returns, every value has a colour, and no two
-- different values that interfere have the same one.
pub color_values-IsColoring :
    (g : InterferenceGraph) (preferred : Colors) (order : List ℕ)
    → Built g
    → ((a : ℕ) → mem a order ≡ mem a g.values)
    → (cs : Colors) × (color_values g preferred order [] ≡ ok cs) × IsColoring g cs
unfolding has_color Runs
color_values-IsColoring g preferred order b same =
    let s = built-Sound g b in
    let (cs, e, k, colored) =
      run g s preferred order [] (λ a h. sym (same a) ∙ h)
        (record { proper = λ x y. ground arith; some_color = λ x. refl }) in
    (
      cs,
      e,
      record {
        colored = λ a. ground (arith, colored a, same a, k.some_color a);
        proper = λ x y. ground (
          arith,
          k.proper x y,
          colored x,
          colored y,
          same x,
          same y,
          s.inside x y,
          s.inside y x,
          s.symmetric x y,
        );
      },
    )
