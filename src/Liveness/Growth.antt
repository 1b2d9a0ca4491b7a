-- ===== src/Liveness/Growth.antt =====
-- How far the entry sets of src/ir/info/block_live_ranges.cc can grow: the values that they lack.
use katara.Prelude.{
  ℕ, suc, ◌≤◌, ◌<◌, ◌≡◌, ◌∙◌, refl, arith, Bool, true, false, not, ◌&&◌, ◌||◌, List, [], ◌∷◌, some,
  length, ◌⊎◌, inl, inr, Option-cases, if◌then◌else◌,
}
use katara.Interference.Sets.{mem}
use katara.Liveness.Ranges.{
  ValueRange, Ranges, BlockLiveRanges, find_range, put_range, is_null, entry_values, get_entry_set,
  get_exit_set, propagate_backwards_from_exit_set,
}
use katara.Liveness.Analyzer.{propagate_all}
use katara.Liveness.Edges.{distinct, no_entry, missed-has_range}
use katara.Liveness.Updates.{enters, leaves, put_in, new_in, with_ranges}
use katara.Liveness.Operations.{range_operations_exact, propagate-found, propagate-missed}

-- How many of the values a set lacks.
unfoldable pub lacking : List ℕ → (ℕ → Bool) → ℕ
lacking [] has = 0
lacking (u ∷ us) has = let rest = lacking us has in if has u then rest else suc rest

abbrev pub Within : (ℕ → Bool) → (ℕ → Bool) → Type 0
Within p q = (a : ℕ) → (p a && not (q a)) ≡ false

pub lacking-le : (us : List ℕ) (p q : ℕ → Bool) → Within p q → lacking us q ≤ lacking us p
unfolding lacking
lacking-le [] p q h = omega arith
lacking-le (u ∷ us) p q h = ground (arith, h u, lacking-le us p q h)

pub lacking-lt :
    (us : List ℕ) (p q : ℕ → Bool) (v : ℕ)
    → Within p q
    → mem v us ≡ true
    → p v ≡ false
    → q v ≡ true
    → lacking us q < lacking us p
unfolding lacking
lacking-lt [] p q v h m x y = ground arith
lacking-lt (u ∷ us) p q v h m x y =
    ground (arith, h u, lacking-le us p q h, lacking-lt us p q v h, m, x, y)

entry_values-put_range :
    (rs : Ranges) (v : ℕ) (r r' : ValueRange)
    → find_range rs v ≡ some r
    → is_null r'.start_instr ≡ is_null r.start_instr
    → entry_values (put_range rs v r') ≡ entry_values rs
unfolding entry_values put_range find_range
entry_values-put_range [] v r r' h k = refl
entry_values-put_range ((u, x) ∷ rest) v r r' h k =
    ground (arith, entry_values-put_range rest v r r')

-- Either nothing changes at the entry, or the entry set is larger and lacks fewer of the values `us`.
unfoldable pub Grows : List ℕ → BlockLiveRanges → BlockLiveRanges → Type 0
Grows us l l' =
    (get_entry_set l' ≡ get_entry_set l)
    ⊎ ((length (get_entry_set l) < length (get_entry_set l'))
        × (lacking us (λ a. mem a (get_entry_set l')) < lacking us (λ a. mem a (get_entry_set l))))

propagate-Grows :
    (us : List ℕ) (l : BlockLiveRanges) (v : ℕ)
    → distinct l.value_ranges ≡ true
    → mem v us ≡ true
    → Grows us l (propagate_backwards_from_exit_set l v)
unfolding Grows get_entry_set enters entry_values put_in new_in with_ranges
propagate-Grows us l v h m = elim (Option-cases (find_range l.value_ranges v)) [
  | inr (r, e) ↦
      rw (propagate-found l v r e) (inl (entry_values-put_range l.value_ranges v r _ e refl))
  | inl e ↦
      let missing = no_entry l.value_ranges v (missed-has_range l.value_ranges v e) in
      rw (propagate-missed l v e)
        (inr (omega arith, lacking-lt us _ _ v (λ a. ground arith) m missing (ground arith)))
]

pub record Grown (us vs : List ℕ) (l l' : BlockLiveRanges) : Type 0 where
  pub is_distinct : distinct l'.value_ranges ≡ true
  pub grows : Grows us l l'
  pub at_entry : Within (enters l) (enters l')
  pub at_exit : Within (leaves l) (leaves l')
  pub through : Within (λ a. mem a vs) (leaves l')
  pub inside : Within (enters l') (λ a. enters l a || mem a vs)

Grows-trans : (us : List ℕ) (l m n : BlockLiveRanges) → Grows us l m → Grows us m n → Grows us l n
unfolding Grows
Grows-trans us l m n (inl e) (inl f) = inl (f ∙ e)
Grows-trans us l m n (inl e) (inr (f, g)) = inr (rw (← e) f, rw (← e) g)
Grows-trans us l m n (inr (e, g)) (inl f) = inr (rw f e, rw f g)
Grows-trans us l m n (inr (e, g)) (inr (e', g')) = inr (omega arith, omega arith)

enters-at : (l : BlockLiveRanges) (a : ℕ) → enters l a ≡ mem a (get_entry_set l)
unfolding enters
enters-at l a = refl

leaves-at : (l : BlockLiveRanges) (a : ℕ) → leaves l a ≡ mem a (get_exit_set l)
unfolding leaves
leaves-at l a = refl

pub propagate_all-Grown :
    (us vs : List ℕ) (l : BlockLiveRanges)
    → distinct l.value_ranges ≡ true
    → Within (λ a. mem a vs) (λ a. mem a us)
    → Grown us vs l (propagate_all vs l)
unfolding propagate_all Grows
propagate_all-Grown us [] l h k = record {
  is_distinct = h;
  grows = inl refl;
  at_entry = λ a. ground arith;
  at_exit = λ a. ground arith;
  through = λ a. ground arith;
  inside = λ a. ground arith;
}
propagate_all-Grown us (v ∷ vs) l h k =
    let one = (range_operations_exact l v 0 h).2 in
    let next = propagate_backwards_from_exit_set l v in
    let rest = propagate_all-Grown us vs next one.is_distinct (λ a. ground (arith, k a)) in
    record {
      is_distinct = rest.is_distinct;
      grows =
          Grows-trans us l next (propagate_all vs next)
            (propagate-Grows us l v h (ground (arith, k v))) rest.grows;
      at_entry = λ a. ground (arith, enters-at next a, one.at_entry a, rest.at_entry a);
      at_exit = λ a. ground (arith, leaves-at next a, one.at_exit a, rest.at_exit a);
      through =
          λ a. ground (arith, leaves-at next a, one.at_exit a, rest.through a, rest.at_exit a);
      inside = λ a. ground (arith, enters-at next a, one.at_entry a, rest.inside a);
    }
