-- ===== src/Scanner/Progress.antt =====
-- `Scanner::Next` goes over blanks, moves forward, and its tokens lie one behind the other.
use katara.Prelude.{
  ℕ, zero, suc, ◌+◌, ◌≤◌, ◌<◌, Bool, true, false, ltb, ◌≡◌, refl, arith, ◌⊎◌, inl, inr, Bool-cases,
  ltb→lt, lt→ltb, subst, ◌↔◌, dec_lt,
}
use katara.Positions.File.{File, end_of, at}
use katara.Scanner.Token.{Token}
use katara.Scanner.Loops.{Scanner, scan_while_range, scan_while-Stops}
use katara.Scanner.Next.{set_token, skip_space, next, is_space, inserts_semicolon}
use katara.Scanner.Scanned.{Scanned, Scanned-self, scan_token-Scanned}

pub skip_space_range :
    (s : Scanner)
    → (s.pos ≤ skip_space s) × (s.pos ≤ end_of s.file + 1 → skip_space s ≤ end_of s.file + 1)
unfolding skip_space
skip_space_range s =
    let test : ℕ → Bool = λ p. is_space (inserts_semicolon s.tok) (at s.file p) in
    ((scan_while-Stops s.file test s.pos).forward, λ h. (scan_while_range s.file test s.pos h).1)

-- The scanner is past the end of its file, with the token for it at its position.
pub record AtEnd (s : Scanner) : Type 0 where
  pub past : end_of s.file < s.pos
  pub end_token : s.tok ≡ Token.end_of_file
  pub token_here : s.tok_range.start ≡ s.pos

-- A blank: a space or a tab, and a newline unless it ends a statement.
abbrev IsBlank : Bool → ℕ → Type 0
IsBlank ends_statement c = (c ≡ 32) ⊎ (c ≡ 9) ⊎ ((c ≡ 10) × (ends_statement ≡ false))

is_space-IsBlank : (b : Bool) (c : ℕ) → (is_space b c ≡ true) ↔ IsBlank b c
is_space-IsBlank b c = ground arith

-- The token of `r` begins at the first byte of `s` from its position on that is no blank, or `r` is at the end and there
-- is none. Whether a newline is a blank depends on the last token.
pub record Begins (s r : Scanner) : Type 0 where
  pub file_kept : r.file ≡ s.file
  pub forward : s.pos ≤ r.tok_range.start
  pub blanks :
      (i : ℕ)
      → (i < s.pos) ⊎ (r.tok_range.start ≤ i) ⊎ IsBlank (inserts_semicolon s.tok) (at s.file i)
  pub found :
      AtEnd r
      ⊎ ((r.tok_range.start ≤ end_of s.file)
          × (¬ IsBlank (inserts_semicolon s.tok) (at s.file r.tok_range.start))
          × Scanned s r.tok_range.start r)

skip_space-blanks :
    (s : Scanner) (i : ℕ)
    → (i < s.pos) ⊎ (skip_space s ≤ i) ⊎ IsBlank (inserts_semicolon s.tok) (at s.file i)
unfolding skip_space
skip_space-blanks s i =
    let test : ℕ → Bool = λ p. is_space (inserts_semicolon s.tok) (at s.file p) in
    let st = scan_while-Stops s.file test s.pos in
    elim (dec_lt i s.pos) [
      | yes before ↦ inl before
      | no behind ↦ elim (dec_lt i (skip_space s)) [
        | yes inside ↦ inr (inr ((is_space-IsBlank _ _).0 (st.passed i (omega arith) inside)))
        | no there ↦ inr (inl (omega arith))
      ]
    ]

skip_space-stops :
    (s : Scanner)
    → skip_space s ≤ end_of s.file
    → ¬ IsBlank (inserts_semicolon s.tok) (at s.file (skip_space s))
unfolding skip_space
skip_space-stops s h blank =
    let test : ℕ → Bool = λ p. is_space (inserts_semicolon s.tok) (at s.file p) in
    let stop = (scan_while-Stops s.file test s.pos).stopped in
    let space = (is_space-IsBlank (inserts_semicolon s.tok) (at s.file (skip_space s))).1 blank in
    ground (arith, stop, space)

next-AtEnd :
    (b : Bool) (s : Scanner) → ltb (end_of s.file) (skip_space s) ≡ true → Begins s (next b s)
unfolding next
next-AtEnd b s e =
    rw (e, next)
      (record {
        file_kept = refl;
        forward = (skip_space_range s).0;
        blanks = skip_space-blanks s;
        found = inl (record { past = ltb→lt _ _ e; end_token = refl; token_here = refl });
      })

next_in_file :
    (b : Bool) (s : Scanner) → ltb (end_of s.file) (skip_space s) ≡ false → Begins s (next b s)
unfolding next
next_in_file b s e =
    let start = skip_space s in
    let inside : start ≤ end_of s.file = ground arith in
    let sc = scan_token-Scanned s start inside b (at s.file start) in
    rw (e, next)
      (record {
        file_kept = sc.file_kept;
        forward = rw sc.begins (skip_space_range s).0;
        blanks = rw sc.begins (skip_space-blanks s);
        found =
            inr (rw sc.begins inside, rw sc.begins (skip_space-stops s inside), Scanned-self sc);
      })

skip_space_past : (s : Scanner) → end_of s.file < s.pos → skip_space s ≡ s.pos
unfolding skip_space
skip_space_past s h =
    (scan_while-Stops s.file (λ p. is_space (inserts_semicolon s.tok) (at s.file p)) s.pos).inside.1
      h

-- `Next` goes over blanks only: over all that lie between the old position and the token, which begins at a byte that is
-- no blank and in the file, and ends before the new position; or over all up to the end of the file, where it gives the
-- token for the end. A newline is a blank unless `inserts_semicolon` holds of the last token. The file does not change.
pub next_progress : (b : Bool) (s : Scanner) → Begins s (next b s)
next_progress b s = elim (Bool-cases (ltb (end_of s.file) (skip_space s))) [
  | inl e ↦ next-AtEnd b s e
  | inr e ↦ next_in_file b s e
]

next_past :
    (b : Bool) (s : Scanner)
    → end_of s.file < s.pos
    → next b s ≡ set_token s Token.end_of_file s.pos s.pos s.pos
unfolding next
next_past b s h = rw (skip_space_past s h) (rw (lt→ltb _ _ h) refl)

-- Past the end of the file `Next` gives the token for the end and stays where it is, so calling it
-- again changes nothing.
pub next_stays :
    (b : Bool) (s : Scanner)
    → end_of s.file < s.pos
    → ((next b s).tok ≡ Token.end_of_file)
      × ((next b s).pos ≡ s.pos)
      × (next b (next b s) ≡ next b s)
next_stays b s h =
    let e = next_past b s h in
    (rw e, rw e, rw e (next_past b (set_token s Token.end_of_file s.pos s.pos s.pos) h))

-- `Next` called `n` times.
unfoldable pub next_times : ℕ → Bool → Scanner → Scanner
next_times zero b s = s
next_times (suc n) b s = next_times n b (next b s)

next_nearer :
    (n : ℕ) (b : Bool) (s : Scanner)
    → end_of s.file + 1 ≤ suc n + s.pos
    → end_of (next b s).file + 1 ≤ n + (next b s).pos
next_nearer n b s h =
    let here = next_progress b s in
    elim here.found [
      | inl a ↦ omega (arith, a.past)
      | inr (inside, first, sc) ↦
          rw here.file_kept (omega (arith, sc.ordered, sc.behind, here.forward))
    ]

-- As many calls of `Next` as there are bytes left bring the scanner past the end of its file, so
-- that the call after them gives the token for the end.
pub next_times-ends :
    (n : ℕ) (b : Bool) (s : Scanner)
    → end_of s.file + 1 ≤ n + s.pos
    → (end_of s.file < (next_times n b s).pos)
      × ((next b (next_times n b s)).tok ≡ Token.end_of_file)
unfolding next_times
next_times-ends zero b s h = (omega arith, (next_stays b s (omega arith)).0)
next_times-ends (suc n) b s h =
    let (past, ends) = next_times-ends n b (next b s) (next_nearer n b s h) in
    (
      subst (λ (f : File). end_of f < (next_times n b (next b s)).pos) (next_progress b s).file_kept
          past,
      ends,
    )
