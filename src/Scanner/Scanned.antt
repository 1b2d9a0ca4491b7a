-- ===== src/Scanner/Scanned.antt =====
-- Where the token of each part of `Scanner::Next` begins and ends.
use katara.Prelude.{
  ℕ, ◌+◌, ◌≤◌, ◌<◌, Bool, true, false, not, ◌||◌, ◌==◌, if◌then◌else◌, ◌≡◌, ◌≢◌, refl, arith, ◌⊎◌,
}
use katara.Positions.File.{File, end_of, at}
use katara.Scanner.Token.{Token}
use katara.Scanner.Loops.{
  Scanner, scan_while, scan_while_range, scan_while-Stops, scan_quoted_range,
}
use katara.Scanner.Words.{is_digit, is_ident_byte}
use katara.Scanner.Next.{
  op_start, maybe_equal, line_comment, block_comment, slash, angle, quoted, int_literal, word, plus,
  minus, ampersand, bar, scan_token, is_delimiter,
}

-- `r` is `s` behind a token that begins at `start`. Only a comment reaches beyond the end of the
-- file, and then by one position.
pub record Scanned (s : Scanner) (start : ℕ) (r : Scanner) : Type 0 where
  pub file_kept : r.file ≡ s.file
  pub begins : r.tok_range.start ≡ start
  pub ordered : start ≤ r.tok_range.end
  pub behind : r.tok_range.end < r.pos
  pub within :
      (r.tok_range.end ≤ end_of s.file)
      ⊎ ((r.tok ≡ Token.comment) × (r.tok_range.end ≡ end_of s.file + 1))

pub Scanned-self : {s r : Scanner} {start : ℕ} → Scanned s start r → Scanned s r.tok_range.start r
Scanned-self sc = record {
  file_kept = sc.file_kept;
  begins = refl;
  ordered = rw sc.begins sc.ordered;
  behind = sc.behind;
  within = sc.within;
}

either :
    {s r q : Scanner} {start : ℕ} (t : Bool)
    → Scanned s start r
    → Scanned s start q
    → Scanned s start (if t then r else q)
either true h k = h
either false h k = k

-- The test of the loop over a block comment.
abbrev pub inside_comment : File → ℕ → Bool
inside_comment f i = not (at f i == b'*') || not (at f (i + 1) == b'/')

at_behind : (f : File) → at f (end_of f + 1) ≡ 0
unfolding at
at_behind f = ground arith

-- The loop over a block comment never stops at the last byte of the file.
comment-ne-end : (f : File) (p : ℕ) → scan_while f (inside_comment f) p ≢ end_of f
comment-ne-end f p e =
    let stop = (scan_while-Stops f (inside_comment f) p).stopped in
    ground (arith, at_behind f, stop)

module _ (s : Scanner) (start p : ℕ) (first : start + 1 ≤ p) (in_file : p ≤ end_of s.file + 1) where
  op_start-Scanned : (tok : Token) → Scanned s start (op_start s tok start p)
  unfolding op_start
  op_start-Scanned tok = ground arith

  maybe_equal-Scanned : (t u : Token) → Scanned s start (maybe_equal s t u start p)
  unfolding maybe_equal
  maybe_equal-Scanned t u = ground arith

  line_comment-Scanned : Scanned s start (line_comment s start p)
  unfolding line_comment
  line_comment-Scanned =
      ground (arith, scan_while_range s.file (λ i. not (at s.file i == b'\n')) p in_file)

  block_comment-Scanned : Scanned s start (block_comment s start p)
  unfolding block_comment
  block_comment-Scanned =
      ground
        (arith, scan_while_range s.file (inside_comment s.file) p in_file, comment-ne-end s.file p)

  quoted-Scanned : (quote : ℕ) (tok : Token) → Scanned s start (quoted s quote tok start p)
  unfolding quoted
  quoted-Scanned quote tok = ground (arith, scan_quoted_range s.file quote p)

  int_literal-Scanned : Scanned s start (int_literal s start p)
  unfolding int_literal
  int_literal-Scanned =
      ground (arith, scan_while_range s.file (λ i. is_digit (at s.file i)) p in_file)

  word-Scanned : Scanned s start (word s start p)
  unfolding word
  word-Scanned =
      ground (arith, scan_while_range s.file (λ i. is_ident_byte (at s.file i)) p in_file)

module _ (s : Scanner) (start : ℕ) (in_file : start ≤ end_of s.file) where
  slash-Scanned : Scanned s start (slash s start (start + 1))
  unfolding slash
  slash-Scanned = ground (
    arith,
    line_comment-Scanned s start (start + 1),
    block_comment-Scanned s start (start + 1),
    op_start-Scanned s start (start + 1) (omega arith) (omega arith) Token.quo,
  )

  angle-Scanned :
      (b : Bool) (c : ℕ) (t u v : Token) → Scanned s start (angle b s c t u v start (start + 1))
  unfolding angle
  angle-Scanned b c t u v = ground arith

  plus-Scanned : Scanned s start (plus s start (start + 1))
  unfolding plus
  plus-Scanned = ground arith

  minus-Scanned : Scanned s start (minus s start (start + 1))
  unfolding minus
  minus-Scanned = ground arith

  ampersand-Scanned : Scanned s start (ampersand s start (start + 1))
  unfolding ampersand
  ampersand-Scanned = ground arith

  bar-Scanned : Scanned s start (bar s start (start + 1))
  unfolding bar
  bar-Scanned = ground arith

  op-Scanned : (t : Token) → Scanned s start (op_start s t start (start + 1))
  op-Scanned = op_start-Scanned s start (start + 1) (omega arith) (omega arith)

  equal-Scanned : (t u : Token) → Scanned s start (maybe_equal s t u start (start + 1))
  equal-Scanned = maybe_equal-Scanned s start (start + 1) (omega arith) (omega arith)

  pub scan_token-Scanned : (b : Bool) (c : ℕ) → Scanned s start (scan_token b s c start (start + 1))
  unfolding scan_token
  scan_token-Scanned b c = either (is_delimiter c) (ground arith) (
      either (c == b'+') plus-Scanned (
        either (c == b'-') minus-Scanned (
          either (c == b'*') (op-Scanned Token.mul) (
            either (c == b'/') slash-Scanned (
              either (c == b'%') (op-Scanned Token.rem) (
                either (c == b'&') ampersand-Scanned (
                  either (c == b'|') bar-Scanned (
                    either (c == b'^') (op-Scanned Token.xor) (
                      either (c == b'<') (angle-Scanned b b'<' Token.shl Token.leq Token.lss) (
                        either (c == b'>') (angle-Scanned b b'>' Token.shr Token.geq Token.gtr) (
                          either (c == b'=') (equal-Scanned Token.eql Token.assign) (
                            either (c == b'!') (equal-Scanned Token.neq Token.not) (
                              either (c == b':') (equal-Scanned Token.define Token.colon) (
                                either (c == b'\'')
                                  (quoted-Scanned s start (start + 1) (omega arith) (omega arith)
                                    b'\'' Token.char)
                                  (either (c == b'"')
                                    (quoted-Scanned s start (start + 1) (omega arith) (omega arith)
                                      b'"' Token.string)
                                    (either (is_digit c)
                                      (int_literal-Scanned s start (start + 1) (omega arith)
                                        (omega arith))
                                      (word-Scanned s start (start + 1) (omega arith)
                                        (omega arith))))))))))))))))))
