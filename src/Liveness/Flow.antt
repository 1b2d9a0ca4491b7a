-- ===== src/Liveness/Flow.antt =====
-- Live values along the edges of a function, in the loop of src/ir/analyzers/live_range_analyzer.cc.
use katara.Prelude.{
  ℕ, ◌+◌, ◌≡◌, refl, arith, true, false, not, ◌&&◌, ◌==◌, List, [], ◌∷◌, inl, inr, Bool-cases,
  if◌then◌else◌,
}
use katara.Prelude.Result.{Result, ok, err}
use katara.Interference.Sets.{mem}
use katara.Liveness.Ranges.{
  BlockLiveRanges, FuncLiveRanges, get_entry_set, get_exit_set, get_block_live_ranges,
  put_block_live_ranges,
}
use katara.Liveness.Edges.{distinct}
use katara.Liveness.Growth.{lacking}

-- The live ranges of the blocks by number, their sets, and whether they are there.
abbrev pub entry_of : Result BlockLiveRanges → List ℕ
entry_of (ok l) = get_entry_set l
entry_of (err e) = []

abbrev pub exit_of : Result BlockLiveRanges → List ℕ
exit_of (ok l) = get_exit_set l
exit_of (err e) = []

unfoldable pub entry_at : FuncLiveRanges → ℕ → List ℕ
unfolding get_block_live_ranges get_entry_set
entry_at ranges n = entry_of (get_block_live_ranges ranges n)

unfoldable pub exit_at : FuncLiveRanges → ℕ → List ℕ
unfolding get_block_live_ranges get_exit_set
exit_at ranges n = exit_of (get_block_live_ranges ranges n)

abbrev pub Ranged : FuncLiveRanges → ℕ → Type 0
Ranged ranges n = (l : BlockLiveRanges) × (get_block_live_ranges ranges n ≡ ok l)

pub get-put :
    (ranges : FuncLiveRanges) (p : ℕ) (old new : BlockLiveRanges) (n : ℕ)
    → get_block_live_ranges ranges p ≡ ok old
    → get_block_live_ranges (put_block_live_ranges ranges p new) n
      ≡ (if p == n then ok new else get_block_live_ranges ranges n)
unfolding get_block_live_ranges put_block_live_ranges
get-put [] p old new n h = ground arith
get-put ((k, l) ∷ rest) p old new n h = ground (arith, get-put rest p old new n)

-- What the entry sets lack, of all blocks.
unfoldable pub total : List ℕ → FuncLiveRanges → ℕ
unfolding get_entry_set
total us [] = 0
total us ((k, l) ∷ rest) = lacking us (λ a. mem a (get_entry_set l)) + total us rest

pub total-put :
    (us : List ℕ) (ranges : FuncLiveRanges) (p : ℕ) (old new : BlockLiveRanges)
    → get_block_live_ranges ranges p ≡ ok old
    → total us (put_block_live_ranges ranges p new) + lacking us (λ a. mem a (get_entry_set old))
      ≡ total us ranges + lacking us (λ a. mem a (get_entry_set new))
unfolding total get_block_live_ranges put_block_live_ranges
total-put us [] p old new h = ground arith
total-put us ((k, l) ∷ rest) p old new h = ground (arith, total-put us rest p old new)

-- Every block's ranges have each value once, and only values of `us` are live where a block begins.
pub record Ordered (us : List ℕ) (ranges : FuncLiveRanges) : Type 0 where
  pub is_distinct :
      (n : ℕ) (l : BlockLiveRanges)
      → get_block_live_ranges ranges n ≡ ok l
      → distinct l.value_ranges ≡ true
  pub inside : (n a : ℕ) → (mem a (entry_at ranges n) && not (mem a us)) ≡ false

-- Unless the block `n` is in the queue, what is live where it begins is live where `q` ends.
abbrev pub Settled : List ℕ → FuncLiveRanges → ℕ → ℕ → Type 0
Settled queue ranges n q =
    (a : ℕ)
    → (not (mem n queue) && mem a (entry_at ranges n) && not (mem a (exit_at ranges q))) ≡ false

pub entry_at-put :
    (ranges : FuncLiveRanges) (p : ℕ) (old new : BlockLiveRanges) (n a : ℕ)
    → get_block_live_ranges ranges p ≡ ok old
    → mem a (entry_at (put_block_live_ranges ranges p new) n)
      ≡ (if p == n then mem a (get_entry_set new) else mem a (entry_at ranges n))
unfolding entry_at
entry_at-put ranges p old new n a h = elim (Bool-cases (p == n)) [
  | inl e ↦ rw (get-put ranges p old new n h, e) refl
  | inr e ↦ rw (get-put ranges p old new n h, e) refl
]

pub exit_at-put :
    (ranges : FuncLiveRanges) (p : ℕ) (old new : BlockLiveRanges) (n a : ℕ)
    → get_block_live_ranges ranges p ≡ ok old
    → mem a (exit_at (put_block_live_ranges ranges p new) n)
      ≡ (if p == n then mem a (get_exit_set new) else mem a (exit_at ranges n))
unfolding exit_at
exit_at-put ranges p old new n a h = elim (Bool-cases (p == n)) [
  | inl e ↦ rw (get-put ranges p old new n h, e) refl
  | inr e ↦ rw (get-put ranges p old new n h, e) refl
]

pub entry_at-ok :
    (ranges : FuncLiveRanges) (p n : ℕ) (l : BlockLiveRanges)
    → get_block_live_ranges ranges p ≡ ok l
    → (p == n) ≡ true
    → entry_at ranges n ≡ get_entry_set l
unfolding entry_at
entry_at-ok ranges p n l h e = rw (← same, h) refl
  where
    same : p ≡ n
    same = ground arith

pub exit_at-ok :
    (ranges : FuncLiveRanges) (p n : ℕ) (l : BlockLiveRanges)
    → get_block_live_ranges ranges p ≡ ok l
    → (p == n) ≡ true
    → exit_at ranges n ≡ get_exit_set l
unfolding exit_at
exit_at-ok ranges p n l h e = rw (← same, h) refl
  where
    same : p ≡ n
    same = ground arith
