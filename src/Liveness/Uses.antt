-- ===== src/Liveness/Uses.antt =====
-- The walk of src/ir/analyzers/live_range_analyzer.cc through a block, backwards: what its live ranges know of the
-- code of the block.
use katara.Prelude.{ℕ, ◌≡◌, refl, arith, Bool, true, false, not, ◌&&◌, ◌||◌, ◌==◌, List, [], ◌∷◌}
use katara.Interference.Sets.{mem}
use katara.Liveness.Code.{Value, Instr, defined_values, used_values}
use katara.Liveness.Ranges.{
  BlockLiveRanges, get_entry_set, get_exit_set, propagate_backwards_from_exit_set,
}
use katara.Liveness.Analyzer.{add_definitions, add_uses}
use katara.Liveness.Edges.{distinct, no_exit}
use katara.Liveness.Operations.{range_operations_exact}
use katara.Liveness.Updates.{enters}
use katara.Liveness.Live.{uses_value, live_before}
use katara.Liveness.Known.{
  known, known-same, has_value-known, propagate-known, add_definitions-Defined, add_uses-Used,
}

abbrev pub defines : List Instr → ℕ → Bool
unfolding defined_values
defines [] v = false
defines (i ∷ rest) v = mem v (defined_values i) || defines rest v

-- The code of a block in static single assignment form: phi instructions come first, and none of the other
-- instructions uses what it or a later one of the block defines.
unfoldable pub no_phis : List Instr → Bool
no_phis [] = true
no_phis (Instr.phi result args ∷ rest) = false
no_phis (Instr.other ds vs ∷ rest) = no_phis rest

unfoldable pub none_defined : List Value → List Instr → Bool
none_defined [] instrs = true
none_defined (Value.constant ∷ vs) instrs = none_defined vs instrs
none_defined (Value.computed v ∷ vs) instrs = not (defines instrs v) && none_defined vs instrs

unfoldable pub in_order : List Instr → Bool
unfolding no_phis none_defined
in_order [] = true
in_order (Instr.phi result args ∷ rest) = in_order rest
in_order (Instr.other ds vs ∷ rest) =
    no_phis rest && none_defined vs (Instr.other ds vs ∷ rest) && in_order rest

mem-same : (xs : List ℕ) (a b : ℕ) → (a == b) ≡ true → mem a xs ≡ mem b xs
mem-same [] a b h = refl
mem-same (x ∷ xs) a b h = ground (arith, mem-same xs a b h)

defines-same :
    (instrs : List Instr) (a b : ℕ) → (a == b) ≡ true → defines instrs a ≡ defines instrs b
unfolding defined_values
defines-same [] a b h = refl
defines-same (i ∷ rest) a b h =
    ground (arith, mem-same (defined_values i) a b h, defines-same rest a b h)

none_defined-uses :
    (vs : List Value) (instrs : List Instr) (a : ℕ)
    → none_defined vs instrs ≡ true
    → (uses_value vs a && defines instrs a) ≡ false
unfolding none_defined
none_defined-uses [] instrs a h = refl
none_defined-uses (Value.constant ∷ vs) instrs a h = none_defined-uses vs instrs a h
none_defined-uses (Value.computed v ∷ vs) instrs a h =
    ground (arith, none_defined-uses vs instrs a, defines-same instrs v a)

-- What the ranges know of the instructions: what is live before them, by their own uses, enters the block, and
-- the values that have a range and do not enter it are defined in it.
pub record Covers (instrs : List Instr) (l : BlockLiveRanges) : Type 0 where
  pub is_distinct : distinct l.value_ranges ≡ true
  pub comes_in : (a : ℕ) → (live_before [] instrs a && not (mem a (get_entry_set l))) ≡ false
  pub knows :
      (a : ℕ) → (known l a && not (mem a (get_entry_set l)) && not (defines instrs a)) ≡ false

pub Covers-phi :
    (result : ℕ) (args : List (ℕ × Value)) (rest : List Instr) (l : BlockLiveRanges)
    → Covers rest l
    → Covers (Instr.phi result args ∷ rest) l
unfolding live_before defined_values
Covers-phi result args rest l c = record {
  is_distinct = c.is_distinct;
  comes_in = λ a. ground (arith, c.comes_in a);
  knows = λ a. ground (arith, c.knows a);
}

pub Covers-other :
    (i : ℕ) (ds : List ℕ) (vs : List Value) (rest : List Instr) (l : BlockLiveRanges)
    → none_defined vs (Instr.other ds vs ∷ rest) ≡ true
    → Covers rest l
    → Covers (Instr.other ds vs ∷ rest) (add_uses (add_definitions l i ds) i vs)
unfolding live_before defined_values used_values
Covers-other i ds vs rest l h c =
    let d = add_definitions-Defined l i ds c.is_distinct in
    let u = add_uses-Used (add_definitions l i ds) i vs d.is_distinct in
    record {
      is_distinct = u.is_distinct;
      comes_in = λ a. ground (
        arith,
        c.comes_in a,
        c.knows a,
        d.at_entry a,
        d.knows a,
        u.at_entry a,
        u.comes_in a,
        none_defined-uses vs _ a h,
      );
      knows = λ a. ground (arith, c.knows a, d.at_entry a, d.knows a, u.at_entry a, u.knows a);
    }

pub Covers-propagate :
    (instrs : List Instr) (v : ℕ) (l : BlockLiveRanges)
    → Covers instrs l
    → Covers instrs (propagate_backwards_from_exit_set l v)
unfolding enters
Covers-propagate instrs v l c =
    let one = (range_operations_exact l v 0 c.is_distinct).2 in
    record {
      is_distinct = one.is_distinct;
      comes_in = λ a. ground (arith, c.comes_in a, one.at_entry a);
      knows = λ a. ground (
        arith,
        c.knows a,
        one.at_entry a,
        propagate-known l v a,
        has_value-known l v,
        known-same l v a,
      );
    }

leaves-known : (l : BlockLiveRanges) (a : ℕ) → known l a ≡ false → mem a (get_exit_set l) ≡ false
unfolding known get_exit_set
leaves-known l a h = no_exit l.value_ranges a h

pub live_before-exit :
    (exit_set : List ℕ) (instrs : List Instr) (a : ℕ)
    → live_before exit_set instrs a
      ≡ (live_before [] instrs a || (mem a exit_set && not (defines instrs a)))
unfolding live_before
live_before-exit exit_set [] a = ground arith
live_before-exit exit_set (i ∷ rest) a = ground (arith, live_before-exit exit_set rest a)

-- What is live before the block's code, given what its ranges have at the exit, enters the block.
pub Covers-live_before :
    (instrs : List Instr) (l : BlockLiveRanges) (a : ℕ)
    → Covers instrs l
    → (live_before (get_exit_set l) instrs a && not (mem a (get_entry_set l))) ≡ false
Covers-live_before instrs l a c =
    ground
      (arith, c.comes_in a, c.knows a, leaves-known l a, live_before-exit (get_exit_set l) instrs a)
