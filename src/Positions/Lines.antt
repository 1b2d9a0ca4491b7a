-- ===== src/Positions/Lines.antt =====
-- Line numbers against the newlines of the contents.
use katara.Prelude.{
  ℕ, zero, suc, ◌+◌, ◌-◌, ◌≤◌, ◌&&◌, leb, ◌==◌, if◌then◌else◌, [], ◌∷◌, length, get_or, String, ◌≡◌,
  refl, arith,
}
use katara.Positions.File.{
  Bytes, new_file, line_starts_after, find_line, line_number_of_position, position_for, no_position,
}

-- The newlines among the first `n` bytes.
abbrev pub newlines : ℕ → Bytes → ℕ
newlines zero cs = 0
newlines (suc n) [] = 0
newlines (suc n) (c ∷ cs) = let rest = newlines n cs in if c == b'\n' then suc rest else rest

length-line_starts_after :
    (i : ℕ) (cs : Bytes) → length (line_starts_after i cs) ≡ newlines (length cs) cs
unfolding line_starts_after
length-line_starts_after i [] = refl
length-line_starts_after i (c ∷ cs) = ground (arith, length-line_starts_after (i + 1) cs)

newlines_step :
    (n : ℕ) (c : ℕ) (cs : Bytes)
    → newlines n (c ∷ cs)
      ≡ (if n == 0 then 0 else (if c == b'\n' then 1 else 0) + newlines (n - 1) cs)
newlines_step zero c cs = refl
newlines_step (suc n) c cs = ground arith

-- The search over the line starts that the constructor made counts the newlines before `p`.
find_line-newlines :
    (size k line i p : ℕ) (cs : Bytes)
    → line ≤ i
    → line ≤ p
    → size ≡ k + newlines (length cs) cs + 1
    → find_line size k line (line_starts_after i cs) p ≡ k + newlines (p - i) cs + 1
unfolding find_line line_starts_after
find_line-newlines size k line i p [] l h e = elim (p - i) as (λ n. size ≡ k + newlines n [] + 1) [
  | zero ↦ e
  | suc n ↦ e
]
find_line-newlines size k line i p (c ∷ cs) l h e = ground (
  arith,
  newlines_step (p - i) c cs,
  find_line-newlines size (k + 1) (i + 1) (i + 1) p cs,
  find_line-newlines size k line (i + 1) p cs,
)

-- A file as `FileSet::AddFile` makes it. On every position of the file, the one behind its last byte
-- included, the line number is one more than the newlines before the position; on every other
-- position it is zero.
pub line_number-newlines :
    (name : String) (start p : ℕ) (cs : Bytes)
    → 1 ≤ start
    → line_number_of_position (new_file name start cs) p
      ≡ (if leb start p && leb p (start + length cs) then newlines (p - start) cs + 1 else 0)
unfolding line_number_of_position new_file
line_number-newlines name start p cs h = ground (
  arith,
  find_line-newlines (length (start ∷ line_starts_after start cs)) 0 start start p cs,
  length-line_starts_after start cs,
)

-- The position behind the last newline among the first `n` bytes, which begin at `i`; `line` if
-- there is none.
abbrev pub line_start : ℕ → ℕ → ℕ → Bytes → ℕ
line_start line i zero cs = line
line_start line i (suc n) [] = line
line_start line i (suc n) (c ∷ cs) = line_start (if c == b'\n' then i + 1 else line) (i + 1) n cs

get_or-line_starts :
    (line i n : ℕ) (cs : Bytes)
    → get_or (line ∷ line_starts_after i cs) (newlines n cs) 0 ≡ line_start line i n cs
unfolding line_starts_after
get_or-line_starts line i zero cs = refl
get_or-line_starts line i (suc n) [] = refl
get_or-line_starts line i (suc n) (c ∷ cs) =
    ground (arith, get_or-line_starts (i + 1) (i + 1) n cs, get_or-line_starts line (i + 1) n cs)

-- `PositionFor` gives the name of the file, one more than the newlines before the position, and the
-- distance from the last of these newlines, or from the start of the file; outside the file it
-- gives the position that is not valid.
pub position_for_exact :
    (name : String) (start p : ℕ) (cs : Bytes)
    → 1 ≤ start
    → position_for (new_file name start cs) p ≡ (
        if leb start p && leb p (start + length cs)
        then record {
          filename = name;
          line = newlines (p - start) cs + 1;
          column = p - line_start start start (p - start) cs;
        }
        else no_position)
unfolding position_for new_file
position_for_exact name start p cs h =
    ground
      (arith, line_number-newlines name start p cs, get_or-line_starts start start (p - start) cs)
