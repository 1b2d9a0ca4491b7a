-- ===== src/Liveness/Updates.antt =====
-- Ranges of src/ir/info/block_live_ranges.cc with one range added or replaced, by the two sets.
use katara.Prelude.{ℕ, ◌≡◌, ◌∙◌, arith, Bool, true, false, not, ◌&&◌, ◌||◌, ◌==◌, ◌∷◌, some, none}
use katara.Interference.Sets.{mem}
use katara.Liveness.Ranges.{
  ValueRange, Ranges, BlockLiveRanges, is_null, find_range, put_range, entry_values, exit_values,
  get_entry_set, get_exit_set,
}
use katara.Liveness.Walks.{equal_mem}
use katara.Liveness.Edges.{
  distinct, has_range, missed-has_range, distinct-put_range, no_entry, entry-put_range,
  exit-put_range, found-entry, found-exit,
}

-- An operation that makes of the sets `entry` and `exit`, and keeps one range for each value.
pub record Makes (l : BlockLiveRanges) (entry exit : ℕ → Bool) : Type 0 where
  pub is_distinct : distinct l.value_ranges ≡ true
  pub at_entry : (a : ℕ) → mem a (get_entry_set l) ≡ entry a
  pub at_exit : (a : ℕ) → mem a (get_exit_set l) ≡ exit a

unfoldable pub enters : BlockLiveRanges → ℕ → Bool
unfolding get_entry_set
enters l a = mem a (get_entry_set l)

unfoldable pub leaves : BlockLiveRanges → ℕ → Bool
unfolding get_exit_set
leaves l a = mem a (get_exit_set l)

unfoldable pub with_ranges : BlockLiveRanges → Ranges → BlockLiveRanges
with_ranges l rs = record l { value_ranges = rs }

unfoldable pub put_in : BlockLiveRanges → ℕ → ValueRange → BlockLiveRanges
put_in l v r = with_ranges l (put_range l.value_ranges v r)

unfoldable pub new_in : BlockLiveRanges → ℕ → ValueRange → BlockLiveRanges
new_in l v r = with_ranges l ((v, r) ∷ l.value_ranges)

-- A new range for a value that has one.
pub put-Makes :
    (l : BlockLiveRanges) (v : ℕ) (r : ValueRange)
    → distinct l.value_ranges ≡ true
    → has_range l.value_ranges v ≡ true
    → Makes
        (put_in l v r)
        (λ a. (v == a && is_null r.start_instr) || (not (v == a) && enters l a))
        (λ a. (v == a && is_null r.end_instr) || (not (v == a) && leaves l a))
unfolding put_in with_ranges enters leaves get_entry_set get_exit_set
put-Makes l v r h there = record {
  is_distinct = distinct-put_range l.value_ranges v r ∙ h;
  at_entry = λ a. entry-put_range l.value_ranges v r a h there;
  at_exit = λ a. exit-put_range l.value_ranges v r a h there;
}

-- A range for a value that has none.
pub new-Makes :
    (l : BlockLiveRanges) (v : ℕ) (r : ValueRange)
    → distinct l.value_ranges ≡ true
    → has_range l.value_ranges v ≡ false
    → Makes
        (new_in l v r)
        (λ a. (v == a && is_null r.start_instr) || enters l a)
        (λ a. (v == a && is_null r.end_instr) || leaves l a)
unfolding new_in with_ranges enters leaves get_entry_set get_exit_set entry_values exit_values
    distinct
new-Makes l v r h missing = record {
  is_distinct = ground arith;
  at_entry = λ a. ground arith;
  at_exit = λ a. ground arith;
}

pub Makes-same :
    (l : BlockLiveRanges) (entry exit entry' exit' : ℕ → Bool)
    → ((a : ℕ) → entry a ≡ entry' a)
    → ((a : ℕ) → exit a ≡ exit' a)
    → Makes l entry exit
    → Makes l entry' exit'
Makes-same l entry exit entry' exit' h k m = record {
  is_distinct = m.is_distinct;
  at_entry = λ a. m.at_entry a ∙ h a;
  at_exit = λ a. m.at_exit a ∙ k a;
}

-- What a range says of its value, and its value's equals.
pub enters-found :
    (l : BlockLiveRanges) (v : ℕ) (r : ValueRange)
    → distinct l.value_ranges ≡ true
    → find_range l.value_ranges v ≡ some r
    → (a : ℕ) → (v == a && is_null r.start_instr) ≡ (v == a && enters l a)
unfolding enters get_entry_set
enters-found l v r h e a =
    ground (arith, found-entry l.value_ranges v r h e, equal_mem v a (entry_values l.value_ranges))

pub leaves-found :
    (l : BlockLiveRanges) (v : ℕ) (r : ValueRange)
    → distinct l.value_ranges ≡ true
    → find_range l.value_ranges v ≡ some r
    → (a : ℕ) → (v == a && is_null r.end_instr) ≡ (v == a && leaves l a)
unfolding leaves get_exit_set
leaves-found l v r h e a =
    ground (arith, found-exit l.value_ranges v r h e, equal_mem v a (exit_values l.value_ranges))

pub enters-missed :
    (l : BlockLiveRanges) (v : ℕ)
    → find_range l.value_ranges v ≡ none
    → (a : ℕ) → (v == a && enters l a) ≡ false
unfolding enters get_entry_set
enters-missed l v e a = ground (
  arith,
  no_entry l.value_ranges v (missed-has_range l.value_ranges v e),
  equal_mem v a (entry_values l.value_ranges),
)
