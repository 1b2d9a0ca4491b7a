-- ===== src/Liveness/Known.antt =====
-- Which values have a range after the operations of src/ir/info/block_live_ranges.cc.
use katara.Prelude.{
  ℕ, ◌≡◌, refl, arith, Bool, true, false, not, ◌&&◌, ◌||◌, ◌==◌, List, [], ◌∷◌, some, Option-cases,
  Bool-cases, inl, inr,
}
use katara.Interference.Sets.{mem}
use katara.Liveness.Code.{Value}
use katara.Liveness.Ranges.{
  ValueRange, Ranges, BlockLiveRanges, find_range, put_range, has_value, add_value_definition,
  add_value_use, propagate_backwards_from_exit_set, instrs_are_ordered, get_entry_set,
}
use katara.Liveness.Analyzer.{add_definitions, add_uses}
use katara.Liveness.Edges.{
  distinct, has_range, found-has_range, missed-has_range, has_range-put_range, has_range-same,
}
use katara.Liveness.Operations.{range_operations_exact}
use katara.Liveness.Updates.{enters}
use katara.Liveness.Live.{uses_value}

unfoldable pub known : BlockLiveRanges → ℕ → Bool
unfolding has_range
known l a = has_range l.value_ranges a

pub has_value-known : (l : BlockLiveRanges) (v : ℕ) → has_value l v ≡ known l v
unfolding has_value known
has_value-known l v = elim (Option-cases (find_range l.value_ranges v)) [
  | inl e ↦ rw (has_value, e, missed-has_range l.value_ranges v e) refl
  | inr (r, e) ↦ rw (has_value, e, found-has_range l.value_ranges v r e) refl
]

pub known-same : (l : BlockLiveRanges) (v a : ℕ) → (v == a) ≡ true → known l v ≡ known l a
unfolding known
known-same l v a h = has_range-same l.value_ranges v a h

known-put :
    (rs : Ranges) (v a : ℕ) (r r' : ValueRange)
    → find_range rs v ≡ some r
    → has_range (put_range rs v r') a ≡ (has_range rs a || v == a)
known-put rs v a r r' e =
    ground (arith, has_range-put_range rs v r' a, found-has_range rs v r e, has_range-same rs v a)

definition-known :
    (l : BlockLiveRanges) (v i a : ℕ) → known (add_value_definition l v i) a ≡ (known l a || v == a)
unfolding add_value_definition known
definition-known l v i a = elim (Option-cases (find_range l.value_ranges v)) [
  | inl e ↦ rw (add_value_definition, e) (ground arith)
  | inr (r, e) ↦ rw (add_value_definition, e) (known-put l.value_ranges v a r _ e)
]

use-known :
    (l : BlockLiveRanges) (v i a : ℕ) → known (add_value_use l v i) a ≡ (known l a || v == a)
unfolding add_value_use known
use-known l v i a = elim (Option-cases (find_range l.value_ranges v)) [
  | inl e ↦ rw (add_value_use, e) (ground arith)
  | inr (r, e) ↦
      let same : (has_range l.value_ranges a) ≡ (has_range l.value_ranges a || v == a) =
        ground (arith, found-has_range l.value_ranges v r e, has_range-same l.value_ranges v a) in
      elim (Option-cases r.end_instr) [
        | inl k ↦ rw (add_value_use, e, k) same
        | inr (last, k) ↦ elim (Bool-cases (instrs_are_ordered l.block_size last i)) [
          | inl o ↦ rw (add_value_use, e, k, o) (known-put l.value_ranges v a r _ e)
          | inr o ↦ rw (add_value_use, e, k, o) same
        ]
      ]
]

pub propagate-known :
    (l : BlockLiveRanges) (v a : ℕ)
    → known (propagate_backwards_from_exit_set l v) a ≡ (known l a || v == a)
unfolding propagate_backwards_from_exit_set known
propagate-known l v a = elim (Option-cases (find_range l.value_ranges v)) [
  | inl e ↦ rw (propagate_backwards_from_exit_set, e) (ground arith)
  | inr (r, e) ↦ rw (propagate_backwards_from_exit_set, e) (known-put l.value_ranges v a r _ e)
]

-- What the definitions of an instruction do, and what its uses do.
pub record Defined (ds : List ℕ) (l l' : BlockLiveRanges) : Type 0 where
  pub is_distinct : distinct l'.value_ranges ≡ true
  pub at_entry : (a : ℕ) → mem a (get_entry_set l') ≡ (mem a (get_entry_set l) && not (mem a ds))
  pub knows : (a : ℕ) → known l' a ≡ (known l a || mem a ds)

pub record Used (vs : List Value) (l l' : BlockLiveRanges) : Type 0 where
  pub is_distinct : distinct l'.value_ranges ≡ true
  pub at_entry : (a : ℕ) → (mem a (get_entry_set l) && not (mem a (get_entry_set l'))) ≡ false
  pub comes_in :
      (a : ℕ) → (uses_value vs a && not (known l a) && not (mem a (get_entry_set l'))) ≡ false
  pub knows : (a : ℕ) → (known l' a && not (known l a) && not (mem a (get_entry_set l'))) ≡ false

pub add_definitions-Defined :
    (l : BlockLiveRanges) (i : ℕ) (ds : List ℕ)
    → distinct l.value_ranges ≡ true
    → Defined ds l (add_definitions l i ds)
unfolding add_definitions enters
add_definitions-Defined l i [] h = record {
  is_distinct = h;
  at_entry = λ a. ground arith;
  knows = λ a. ground arith;
}
add_definitions-Defined l i (d ∷ ds) h =
    let one = (range_operations_exact l d i h).0 in
    let next = add_value_definition l d i in
    let rest = add_definitions-Defined next i ds one.is_distinct in
    record {
      is_distinct = rest.is_distinct;
      at_entry = λ a. ground (arith, one.at_entry a, rest.at_entry a);
      knows = λ a. ground (arith, definition-known l d i a, rest.knows a);
    }

pub add_uses-Used :
    (l : BlockLiveRanges) (i : ℕ) (vs : List Value)
    → distinct l.value_ranges ≡ true
    → Used vs l (add_uses l i vs)
unfolding add_uses enters
add_uses-Used l i [] h = record {
  is_distinct = h;
  at_entry = λ a. ground arith;
  comes_in = λ a. ground arith;
  knows = λ a. ground arith;
}
add_uses-Used l i (Value.constant ∷ vs) h =
    let rest = add_uses-Used l i vs h in
    record {
      is_distinct = rest.is_distinct;
      at_entry = rest.at_entry;
      comes_in = rest.comes_in;
      knows = rest.knows;
    }
add_uses-Used l i (Value.computed v ∷ vs) h =
    let one = (range_operations_exact l v i h).1 in
    let next = add_value_use l v i in
    let rest = add_uses-Used next i vs one.is_distinct in
    record {
      is_distinct = rest.is_distinct;
      at_entry = λ a. ground (arith, one.at_entry a, rest.at_entry a);
      comes_in = λ a. ground (
        arith,
        one.at_entry a,
        rest.at_entry a,
        rest.comes_in a,
        use-known l v i a,
        has_value-known l v,
        known-same l v a,
      );
      knows = λ a. ground (
        arith,
        one.at_entry a,
        rest.at_entry a,
        rest.knows a,
        use-known l v i a,
        has_value-known l v,
        known-same l v a,
      );
    }
