-- ===== src/Liveness/Phis.antt =====
-- What the phi instructions of its children do to the live ranges of a block, in
-- src/ir/analyzers/live_range_analyzer.cc.
use katara.Prelude.{
  ℕ, ◌≡◌, refl, arith, Bool, true, false, not, ◌&&◌, ◌||◌, ◌==◌, List, [], ◌∷◌, Option, some, none,
  ◌⊎◌, inl, inr, Option-cases,
}
use katara.Prelude.Result.{Failure, Result, ok, err}
use katara.Interference.Sets.{mem}
use katara.Liveness.Code.{Value, Instr, Block, get_block, phi_args, value_inherited_from}
use katara.Liveness.Ranges.{BlockLiveRanges, get_exit_set, propagate_backwards_from_exit_set}
use katara.Liveness.Analyzer.{include_phis, include_children}
use katara.Liveness.Updates.{leaves}
use katara.Liveness.Operations.{range_operations_exact}
use katara.Liveness.Uses.{Covers, Covers-propagate}

abbrev is_value : Result Value → ℕ → Bool
is_value (ok (Value.computed u)) v = u == v
is_value (ok Value.constant) v = false
is_value (err e) v = false

abbrev is_ok : Result Value → Bool
is_ok (ok value) = true
is_ok (err e) = false

-- Whether one of the phi instructions has the value from the block, and whether all have one.
unfoldable pub inherits : ℕ → List (List (ℕ × Value)) → ℕ → Bool
unfolding value_inherited_from
inherits bnum [] v = false
inherits bnum (args ∷ phis) v = is_value (value_inherited_from args bnum) v || inherits bnum phis v

unfoldable pub all_inherit : ℕ → List (List (ℕ × Value)) → Bool
unfolding value_inherited_from
all_inherit bnum [] = true
all_inherit bnum (args ∷ phis) = is_ok (value_inherited_from args bnum) && all_inherit bnum phis

abbrev of_child : Option Block → (Block → Bool) → Bool
of_child none test = false
of_child (some b) test = test b

-- The same of the phi instructions of the children; all children are blocks.
unfoldable pub child_inherits : List Block → ℕ → List ℕ → ℕ → Bool
unfolding get_block phi_args inherits
child_inherits blocks bnum [] v = false
child_inherits blocks bnum (child ∷ children) v =
    of_child (get_block blocks child) (λ b. inherits bnum (phi_args b.instrs) v)
    || child_inherits blocks bnum children v

unfoldable pub children_inherit : List Block → ℕ → List ℕ → Bool
unfolding get_block phi_args all_inherit
children_inherit blocks bnum [] = true
children_inherit blocks bnum (child ∷ children) =
    of_child (get_block blocks child) (λ b. all_inherit bnum (phi_args b.instrs))
    && children_inherit blocks bnum children

value-cases :
    (r : Result Value)
    → ((why : Failure) × (r ≡ err why))
      ⊎ ((r ≡ ok Value.constant) ⊎ ((v : ℕ) × (r ≡ ok (Value.computed v))))
value-cases (err why) = inl (why, refl)
value-cases (ok Value.constant) = inr (inl refl)
value-cases (ok (Value.computed v)) = inr (inr (v, refl))

pub record Included (run : Result BlockLiveRanges) (instrs : List Instr) (l : BlockLiveRanges)
    (new : ℕ → Bool) : Type 0 where
  pub then_ranges : BlockLiveRanges
  pub runs : run ≡ ok then_ranges
  pub covers : Covers instrs then_ranges
  pub at_exit : (a : ℕ) → (mem a (get_exit_set l) && not (mem a (get_exit_set then_ranges))) ≡ false
  pub comes_in : (a : ℕ) → (new a && not (mem a (get_exit_set then_ranges))) ≡ false

include_phis-Included :
    (bnum : ℕ) (phis : List (List (ℕ × Value))) (instrs : List Instr) (l : BlockLiveRanges)
    → all_inherit bnum phis ≡ true
    → Covers instrs l
    → Included (include_phis bnum phis l) instrs l (inherits bnum phis)
unfolding include_phis all_inherit inherits leaves
include_phis-Included bnum [] instrs l h c = record {
  then_ranges = l;
  runs = refl;
  covers = c;
  at_exit = λ a. ground arith;
  comes_in = λ a. refl;
}
include_phis-Included bnum (args ∷ phis) instrs l h c =
    elim (value-cases (value_inherited_from args bnum)) [
      | inl (why, e) ↦ ground arith
      | inr (inl e) ↦
          let rest = include_phis-Included bnum phis instrs l (ground arith) c in
          record {
            then_ranges = rest.then_ranges;
            runs = rw (include_phis, e) rest.runs;
            covers = rest.covers;
            at_exit = rest.at_exit;
            comes_in = λ a. ground (arith, rest.comes_in a);
          }
      | inr (inr (v, e)) ↦
          let one = (range_operations_exact l v 0 c.is_distinct).2 in
          let rest =
            include_phis-Included bnum phis instrs (propagate_backwards_from_exit_set l v)
              (ground arith) (Covers-propagate instrs v l c) in
          record {
            then_ranges = rest.then_ranges;
            runs = rw (include_phis, e) rest.runs;
            covers = rest.covers;
            at_exit = λ a. ground (arith, one.at_exit a, rest.at_exit a);
            comes_in = λ a. ground (arith, one.at_exit a, rest.at_exit a, rest.comes_in a);
          }
    ]

pub include_children-Included :
    (blocks : List Block) (bnum : ℕ) (children : List ℕ) (instrs : List Instr) (l : BlockLiveRanges)
    → children_inherit blocks bnum children ≡ true
    → Covers instrs l
    → Included
        (include_children blocks bnum children l)
        instrs
        l
        (child_inherits blocks bnum children)
unfolding include_children children_inherit child_inherits
include_children-Included blocks bnum [] instrs l h c = record {
  then_ranges = l;
  runs = refl;
  covers = c;
  at_exit = λ a. ground arith;
  comes_in = λ a. refl;
}
include_children-Included blocks bnum (child ∷ children) instrs l h c =
    elim (Option-cases (get_block blocks child)) [
      | inl e ↦ ground arith
      | inr (b, e) ↦
          let one = include_phis-Included bnum (phi_args b.instrs) instrs l (ground arith) c in
          let rest =
            include_children-Included blocks bnum children instrs one.then_ranges (ground arith)
              one.covers in
          record {
            then_ranges = rest.then_ranges;
            runs = rw (include_children, e, one.runs) rest.runs;
            covers = rest.covers;
            at_exit = λ a. ground (arith, one.at_exit a, rest.at_exit a);
            comes_in = λ a. ground (arith, one.comes_in a, rest.at_exit a, rest.comes_in a);
          }
    ]
