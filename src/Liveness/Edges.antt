-- ===== src/Liveness/Edges.antt =====
-- The ranges of src/ir/info/block_live_ranges.cc as two sets: the values that are live where the block begins
-- and those that are live where it ends.
use katara.Prelude.{
  ℕ, ◌≡◌, refl, arith, Bool, true, false, not, ◌&&◌, ◌||◌, ◌==◌, [], ◌∷◌, some, none,
}
use katara.Interference.Sets.{mem}
use katara.Liveness.Ranges.{
  ValueRange, Ranges, is_null, find_range, put_range, entry_values, exit_values,
}

unfoldable pub has_range : Ranges → ℕ → Bool
has_range [] v = false
has_range ((k, r) ∷ rest) v = k == v || has_range rest v

-- A value has one range.
unfoldable pub distinct : Ranges → Bool
unfolding has_range
distinct [] = true
distinct ((k, r) ∷ rest) = not (has_range rest k) && distinct rest

pub found-has_range :
    (rs : Ranges) (v : ℕ) (r : ValueRange) → find_range rs v ≡ some r → has_range rs v ≡ true
unfolding find_range has_range
found-has_range [] v r h = ground arith
found-has_range ((k, x) ∷ rest) v r h = ground (arith, found-has_range rest v r)

pub missed-has_range : (rs : Ranges) (v : ℕ) → find_range rs v ≡ none → has_range rs v ≡ false
unfolding find_range has_range
missed-has_range [] v h = refl
missed-has_range ((k, x) ∷ rest) v h = ground (arith, missed-has_range rest v)

pub has_range-put_range :
    (rs : Ranges) (v : ℕ) (r : ValueRange) (a : ℕ) → has_range (put_range rs v r) a ≡ has_range rs a
unfolding has_range put_range
has_range-put_range [] v r a = refl
has_range-put_range ((k, x) ∷ rest) v r a = ground (arith, has_range-put_range rest v r a)

pub distinct-put_range :
    (rs : Ranges) (v : ℕ) (r : ValueRange) → distinct (put_range rs v r) ≡ distinct rs
unfolding distinct put_range
distinct-put_range [] v r = refl
distinct-put_range ((k, x) ∷ rest) v r =
    ground (arith, distinct-put_range rest v r, has_range-put_range rest v r k)

pub no_entry : (rs : Ranges) (a : ℕ) → has_range rs a ≡ false → mem a (entry_values rs) ≡ false
unfolding has_range entry_values
no_entry [] a h = refl
no_entry ((k, x) ∷ rest) a h = ground (arith, no_entry rest a)

pub no_exit : (rs : Ranges) (a : ℕ) → has_range rs a ≡ false → mem a (exit_values rs) ≡ false
unfolding has_range exit_values
no_exit [] a h = refl
no_exit ((k, x) ∷ rest) a h = ground (arith, no_exit rest a)

pub has_range-same : (rs : Ranges) (a b : ℕ) → (a == b) ≡ true → has_range rs a ≡ has_range rs b
unfolding has_range
has_range-same [] a b h = refl
has_range-same ((k, x) ∷ rest) a b h = ground (arith, has_range-same rest a b h)

pub entry-put_range :
    (rs : Ranges) (v : ℕ) (r : ValueRange) (a : ℕ)
    → distinct rs ≡ true
    → has_range rs v ≡ true
    → mem a (entry_values (put_range rs v r))
      ≡ ((v == a && is_null r.start_instr) || (not (v == a) && mem a (entry_values rs)))
unfolding distinct has_range put_range entry_values
entry-put_range [] v r a h k = ground arith
entry-put_range ((u, x) ∷ rest) v r a h k =
    ground (arith, entry-put_range rest v r a, no_entry rest a, has_range-same rest u a)

pub exit-put_range :
    (rs : Ranges) (v : ℕ) (r : ValueRange) (a : ℕ)
    → distinct rs ≡ true
    → has_range rs v ≡ true
    → mem a (exit_values (put_range rs v r))
      ≡ ((v == a && is_null r.end_instr) || (not (v == a) && mem a (exit_values rs)))
unfolding distinct has_range put_range exit_values
exit-put_range [] v r a h k = ground arith
exit-put_range ((u, x) ∷ rest) v r a h k =
    ground (arith, exit-put_range rest v r a, no_exit rest a, has_range-same rest u a)

pub found-entry :
    (rs : Ranges) (v : ℕ) (r : ValueRange)
    → distinct rs ≡ true
    → find_range rs v ≡ some r
    → mem v (entry_values rs) ≡ is_null r.start_instr
unfolding distinct find_range entry_values
found-entry [] v r h e = ground arith
found-entry ((k, x) ∷ rest) v r h e =
    ground (arith, found-entry rest v r, no_entry rest v, has_range-same rest k v)

pub found-exit :
    (rs : Ranges) (v : ℕ) (r : ValueRange)
    → distinct rs ≡ true
    → find_range rs v ≡ some r
    → mem v (exit_values rs) ≡ is_null r.end_instr
unfolding distinct find_range exit_values
found-exit [] v r h e = ground arith
found-exit ((k, x) ∷ rest) v r h e =
    ground (arith, found-exit rest v r, no_exit rest v, has_range-same rest k v)
