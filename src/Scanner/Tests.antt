-- ===== src/Scanner/Tests.antt =====
-- The theorems about the scanner at concrete files, and runs of `Next`.
use katara.Prelude.{
  ℕ, zero, suc, ◌+◌, ◌≤◌, ◌<◌, ◌≡◌, ◌≢◌, ◌↔◌, ◌⊎◌, refl, arith, true, false, codes, List, [], ◌∷◌,
  bytes_eq, dec_lt,
}
use katara.Positions.File.{Bytes, new_file, end_of, at, range, contents_of}
use katara.Scanner.Token.{Token, number, of_number}
use katara.Scanner.Loops.{Scanner, advance, scan_while}
use katara.Scanner.Next.{
  next, block_comment, quoted, set_token, skip_space, scan_token, word, angle, int_literal, slash,
  delimiter,
}
use katara.Scanner.Words.{keyword}
use katara.Scanner.Progress.{Begins, next_progress, next_times, next_times-ends}
use katara.Scanner.Scanned.{inside_comment}
use katara.Scanner.Tokens.{keyword-fallthrough, block_comment_unclosed, quoted_backslash}

abbrev fresh : Bytes → Scanner
unfolding new_file
fresh text = record {
  file = new_file "a.kat" 1 text;
  pos = 1;
  tok = Token.illegal;
  tok_range = range 0 0;
}

-- The tokens of `n` calls.
run : ℕ → Scanner → List Token
run zero s = []
run (suc n) s = let s' = next false s in s'.tok ∷ run n s'

tokens_of_statement :
    run 8 (fresh (codes "x <<= 10 // end\n}"))
    ≡ Token.ident ∷ Token.shl_assign ∷ Token.int ∷ Token.comment ∷ Token.r_brace ∷ Token.end_of_file
      ∷ Token.end_of_file ∷ Token.end_of_file ∷ []
unfolding run next skip_space scan_token scan_while at contents_of of_number number bytes_eq keyword
    new_file advance word angle int_literal slash delimiter
tokens_of_statement = refl

next_progress_example : let s = fresh (codes " \tx += 1") in Begins s (next false s)
next_progress_example = next_progress false (fresh (codes " \tx += 1"))

abbrev exhausted : Scanner
exhausted = record (fresh (codes "x")) { pos = 2; tok = Token.ident }

next_times-ends_example :
    let s = fresh (codes "x += 1") in
    (end_of s.file < (next_times 6 false s).pos)
    × ((next false (next_times 6 false s)).tok ≡ Token.end_of_file)
unfolding new_file
next_times-ends_example = next_times-ends 6 false (fresh (codes "x += 1")) (omega arith)

keyword-fallthrough_example :
    (keyword (codes "fallthrough") ≢ Token.kw_fallthrough)
    × ((keyword (codes "fallthrough") ≡ Token.kw_else)
        ↔ ((codes "fallthrough" ≡ codes "else") ⊎ (codes "fallthrough" ≡ codes "fallthrough")))
keyword-fallthrough_example = keyword-fallthrough (codes "fallthrough")

abbrev unclosed : Scanner
unclosed = fresh (codes "/*a")

unclosed_inside : (i : ℕ) → 2 ≤ i → i ≤ end_of unclosed.file → inside_comment unclosed.file i ≡ true
unfolding new_file at
unclosed_inside i h k = elim (dec_lt i 3) [
  | yes lt ↦ let e : i ≡ 2 = omega arith in rw e refl
  | no ge ↦ let e : i ≡ 3 = omega arith in rw e refl
]

block_comment_unclosed_example :
    block_comment unclosed 1 2
    ≡ set_token unclosed Token.comment 1 (end_of unclosed.file + 1) (end_of unclosed.file + 3)
unfolding new_file
block_comment_unclosed_example = block_comment_unclosed unclosed 1 2 (omega arith) unclosed_inside

abbrev escape : Scanner
escape = fresh (codes "'\\n'")

quoted_backslash_example : quoted escape b'\'' Token.char 1 2 ≡ set_token escape Token.char 1 3 4
unfolding new_file at
quoted_backslash_example =
    quoted_backslash escape b'\'' Token.char 1 2 2 (omega arith) (omega arith) refl (ground arith)
      (λ i h k. absurd (omega arith))
