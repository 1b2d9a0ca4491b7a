-- ===== src/Liveness/Operations.antt =====
-- What the operations of src/ir/info/block_live_ranges.cc do to the sets of values that are live at the two
-- ends of a block.
use katara.Prelude.{
  ℕ, ◌≡◌, refl, arith, Bool, true, false, not, ◌&&◌, ◌||◌, ◌==◌, some, none, Option-cases,
  Bool-cases, inl, inr,
}
use katara.Liveness.Ranges.{
  ValueRange, BlockLiveRanges, find_range, has_value, add_value_definition, add_value_use,
  propagate_backwards_from_exit_set, instrs_are_ordered,
}
use katara.Liveness.Edges.{distinct, found-has_range, missed-has_range}
use katara.Liveness.Updates.{
  Makes, enters, leaves, with_ranges, put_in, new_in, put-Makes, new-Makes, Makes-same,
  enters-found, leaves-found, enters-missed,
}

add_value_definition-found :
    (l : BlockLiveRanges) (v i : ℕ) (r : ValueRange)
    → find_range l.value_ranges v ≡ some r
    → add_value_definition l v i ≡ put_in l v (record r { start_instr = some i })
unfolding add_value_definition put_in with_ranges
add_value_definition-found l v i r e = rw (add_value_definition, e) refl

add_value_definition-missed :
    (l : BlockLiveRanges) (v i : ℕ)
    → find_range l.value_ranges v ≡ none
    → add_value_definition l v i ≡ new_in l v (record { start_instr = some i; end_instr = some i })
unfolding add_value_definition new_in with_ranges
add_value_definition-missed l v i e = rw (add_value_definition, e) refl

definition-Makes :
    (l : BlockLiveRanges) (v i : ℕ)
    → distinct l.value_ranges ≡ true
    → Makes (add_value_definition l v i) (λ a. enters l a && not (v == a)) (λ a. leaves l a)
definition-Makes l v i h = elim (Option-cases (find_range l.value_ranges v)) [
  | inr (r, e) ↦ rw (add_value_definition-found l v i r e) (
      Makes-same _ _ _ _ _ (λ a. ground arith) (λ a. ground (arith, leaves-found l v r h e a))
        (put-Makes l v (record r { start_instr = some i }) h
          (found-has_range l.value_ranges v r e)))
  | inl e ↦ rw (add_value_definition-missed l v i e) (
      Makes-same _ _ _ _ _ (λ a. ground (arith, enters-missed l v e a)) (λ a. ground arith)
        (new-Makes l v (record { start_instr = some i; end_instr = some i }) h
          (missed-has_range l.value_ranges v e)))
]

same-Makes : (l : BlockLiveRanges) → distinct l.value_ranges ≡ true → Makes l (enters l) (leaves l)
unfolding enters leaves
same-Makes l h = record { is_distinct = h; at_entry = λ a. refl; at_exit = λ a. refl }

use-new :
    (l : BlockLiveRanges) (v i : ℕ)
    → find_range l.value_ranges v ≡ none
    → add_value_use l v i ≡ new_in l v (record { start_instr = none; end_instr = some i })
unfolding add_value_use new_in with_ranges
use-new l v i e = rw (add_value_use, e) refl

use-open :
    (l : BlockLiveRanges) (v i : ℕ) (r : ValueRange)
    → find_range l.value_ranges v ≡ some r
    → r.end_instr ≡ none
    → add_value_use l v i ≡ l
unfolding add_value_use
use-open l v i r e h = rw (add_value_use, e, h) refl

use-later :
    (l : BlockLiveRanges) (v i : ℕ) (r : ValueRange) (last : ℕ)
    → find_range l.value_ranges v ≡ some r
    → r.end_instr ≡ some last
    → instrs_are_ordered l.block_size last i ≡ true
    → add_value_use l v i ≡ put_in l v (record r { end_instr = some i })
unfolding add_value_use put_in with_ranges
use-later l v i r last e h k = rw (add_value_use, e, h, k) refl

use-earlier :
    (l : BlockLiveRanges) (v i : ℕ) (r : ValueRange) (last : ℕ)
    → find_range l.value_ranges v ≡ some r
    → r.end_instr ≡ some last
    → instrs_are_ordered l.block_size last i ≡ false
    → add_value_use l v i ≡ l
unfolding add_value_use
use-earlier l v i r last e h k = rw (add_value_use, e, h, k) refl

abbrev used : BlockLiveRanges → ℕ → ℕ → Bool
unfolding enters has_value
used l v a = enters l a || (v == a && not (has_value l v))

has-found :
    (l : BlockLiveRanges) (v : ℕ) (r : ValueRange)
    → find_range l.value_ranges v ≡ some r
    → has_value l v ≡ true
unfolding has_value
has-found l v r e = rw (has_value, e) refl

has-missed :
    (l : BlockLiveRanges) (v : ℕ) → find_range l.value_ranges v ≡ none → has_value l v ≡ false
unfolding has_value
has-missed l v e = rw (has_value, e) refl

-- A value that has a range stays out of the entry set, or in it.
kept-Makes :
    (l : BlockLiveRanges) (v : ℕ) (r : ValueRange)
    → distinct l.value_ranges ≡ true
    → find_range l.value_ranges v ≡ some r
    → Makes l (used l v) (leaves l)
unfolding used
kept-Makes l v r h e =
    Makes-same _ _ _ _ _ (λ a. ground (arith, has-found l v r e)) (λ a. refl) (same-Makes l h)

use-Makes :
    (l : BlockLiveRanges) (v i : ℕ)
    → distinct l.value_ranges ≡ true
    → Makes (add_value_use l v i) (used l v) (leaves l)
unfolding used
use-Makes l v i h = elim (Option-cases (find_range l.value_ranges v)) [
  | inl e ↦ rw (use-new l v i e) (
      Makes-same _ _ _ _ _ (λ a. ground (arith, has-missed l v e)) (λ a. ground arith)
        (new-Makes l v (record { start_instr = none; end_instr = some i }) h
          (missed-has_range l.value_ranges v e)))
  | inr (r, e) ↦ elim (Option-cases r.end_instr) [
    | inl k ↦ rw (use-open l v i r e k) (kept-Makes l v r h e)
    | inr (last, k) ↦ elim (Bool-cases (instrs_are_ordered l.block_size last i)) [
      | inl o ↦ rw (use-later l v i r last e k o) (
          Makes-same _ _ _ _ _ (λ a. ground (arith, enters-found l v r h e a, has-found l v r e))
            (λ a. ground (arith, leaves-found l v r h e a, k))
            (put-Makes l v (record r { end_instr = some i }) h
              (found-has_range l.value_ranges v r e)))
      | inr o ↦ rw (use-earlier l v i r last e k o) (kept-Makes l v r h e)
    ]
  ]
]

pub propagate-found :
    (l : BlockLiveRanges) (v : ℕ) (r : ValueRange)
    → find_range l.value_ranges v ≡ some r
    → propagate_backwards_from_exit_set l v ≡ put_in l v (record r { end_instr = none })
unfolding propagate_backwards_from_exit_set put_in with_ranges
propagate-found l v r e = rw (propagate_backwards_from_exit_set, e) refl

pub propagate-missed :
    (l : BlockLiveRanges) (v : ℕ)
    → find_range l.value_ranges v ≡ none
    → propagate_backwards_from_exit_set l v
      ≡ new_in l v (record { start_instr = none; end_instr = none })
unfolding propagate_backwards_from_exit_set new_in with_ranges
propagate-missed l v e = rw (propagate_backwards_from_exit_set, e) refl

propagate-Makes :
    (l : BlockLiveRanges) (v : ℕ)
    → distinct l.value_ranges ≡ true
    → Makes (propagate_backwards_from_exit_set l v) (used l v) (λ a. leaves l a || v == a)
unfolding used
propagate-Makes l v h = elim (Option-cases (find_range l.value_ranges v)) [
  | inl e ↦ rw (propagate-missed l v e) (
      Makes-same _ _ _ _ _ (λ a. ground (arith, has-missed l v e)) (λ a. ground arith)
        (new-Makes l v (record { start_instr = none; end_instr = none }) h
          (missed-has_range l.value_ranges v e)))
  | inr (r, e) ↦ rw (propagate-found l v r e) (
      Makes-same _ _ _ _ _ (λ a. ground (arith, enters-found l v r h e a, has-found l v r e))
        (λ a. ground arith)
        (put-Makes l v (record r { end_instr = none }) h (found-has_range l.value_ranges v r e)))
]

-- On ranges that have each value once, and they stay so: a definition takes the value out of the entry set;
-- a use, and the way back from the exit set, put it there where the block has no range of it yet; the way
-- back from the exit set puts it into the exit set, which the other two leave as it is.
pub range_operations_exact :
    (l : BlockLiveRanges) (v i : ℕ)
    → distinct l.value_ranges ≡ true
    → Makes (add_value_definition l v i) (λ a. enters l a && not (v == a)) (λ a. leaves l a)
      × Makes
          (add_value_use l v i)
          (λ a. enters l a || (v == a && not (has_value l v)))
          (λ a. leaves l a)
      × Makes
          (propagate_backwards_from_exit_set l v)
          (λ a. enters l a || (v == a && not (has_value l v)))
          (λ a. leaves l a || v == a)
unfolding used
range_operations_exact l v i h =
    (definition-Makes l v i h, use-Makes l v i h, propagate-Makes l v h)
