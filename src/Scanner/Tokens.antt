-- ===== src/Scanner/Tokens.antt =====
-- Which token the scanner gives: operators, words, comments and literals.
use katara.Prelude.{
  ℕ, zero, suc, ◌+◌, ◌-◌, ◌≤◌, ◌<◌, true, false, if◌then◌else◌, ◌≡◌, ◌≢◌, ◌↔◌, refl, arith, ◌⊎◌,
  inl, inr, dec_lt, codes, bytes_eq, bytes_eq_iff,
}
use katara.Positions.File.{File, end_of, at, Bytes}
use katara.Scanner.Token.{Token, number, of_number}
use katara.Scanner.Loops.{Scanner, scan_while, scan_while-Stops, scan_quoted, advance_quoted}
use katara.Scanner.Next.{set_token, followed_by, op_start, block_comment, quoted}
use katara.Scanner.Scanned.{inside_comment}
use katara.Scanner.Words.{keyword}

-- The arithmetic and bit operators, with the tokens of their assignments.
abbrev pub assignment_of : Token → Token
assignment_of Token.add = Token.add_assign
assignment_of Token.sub = Token.sub_assign
assignment_of Token.mul = Token.mul_assign
assignment_of Token.quo = Token.quo_assign
assignment_of Token.rem = Token.rem_assign
assignment_of Token.and = Token.and_assign
assignment_of Token.or = Token.or_assign
assignment_of Token.xor = Token.xor_assign
assignment_of Token.shl = Token.shl_assign
assignment_of Token.shr = Token.shr_assign
assignment_of Token.and_not = Token.and_not_assign
assignment_of _ = Token.illegal

-- The arithmetic on enumerators in `NextArithmeticOrBitOpStart` takes each of the eleven operators
-- to its assignment: behind such an operator a `=` is taken into the token, and gives the token of
-- the assignment; without one the token is the operator's.
pub op_start-assignment :
    (s : Scanner) (tok : Token) (start p : ℕ)
    → assignment_of tok ≢ Token.illegal
    → op_start s tok start p ≡ (
        if followed_by s.file p b'='
        then set_token s (assignment_of tok) start p (p + 1)
        else set_token s tok start (p - 1) p)
unfolding op_start number of_number
op_start-assignment s Token.add start p h = refl
op_start-assignment s Token.sub start p h = refl
op_start-assignment s Token.mul start p h = refl
op_start-assignment s Token.quo start p h = refl
op_start-assignment s Token.rem start p h = refl
op_start-assignment s Token.and start p h = refl
op_start-assignment s Token.or start p h = refl
op_start-assignment s Token.xor start p h = refl
op_start-assignment s Token.shl start p h = refl
op_start-assignment s Token.shr start p h = refl
op_start-assignment s Token.and_not start p h = refl
op_start-assignment s _ start p h = absurd (h refl)

keyword_else :
    (w : Bytes) → keyword w ≡ Token.kw_else → (w ≡ codes "else") ⊎ (w ≡ codes "fallthrough")
unfolding keyword
keyword_else w h =
    ground (arith, bytes_eq_iff w (codes "else"), bytes_eq_iff w (codes "fallthrough"))

-- No word scans as the token `fallthrough`, and exactly the words `else` and `fallthrough` scan as
-- the token `else`.
pub keyword-fallthrough :
    (w : Bytes)
    → (keyword w ≢ Token.kw_fallthrough)
      × ((keyword w ≡ Token.kw_else) ↔ ((w ≡ codes "else") ⊎ (w ≡ codes "fallthrough")))
unfolding keyword bytes_eq
keyword-fallthrough w =
    (ground arith, (keyword_else w, λ h. elim h [ inl e ↦ rw e | inr e ↦ rw e ]))

-- A block comment that is never closed is no illegal token: it is a comment whose range ends one
-- position behind the last byte, and the scanner is then two positions further.
pub block_comment_unclosed :
    (s : Scanner) (start p : ℕ)
    → p ≤ end_of s.file + 1
    → ((i : ℕ) → p ≤ i → i ≤ end_of s.file → inside_comment s.file i ≡ true)
    → block_comment s start p
      ≡ set_token s Token.comment start (end_of s.file + 1) (end_of s.file + 3)
unfolding block_comment
block_comment_unclosed s start p h unclosed =
    let loop = scan_while-Stops s.file (inside_comment s.file) p in
    let last : scan_while s.file (inside_comment s.file) p ≡ end_of s.file + 1 = ground (
      arith,
      loop.forward,
      loop.inside,
      loop.stopped,
      unclosed (scan_while s.file (inside_comment s.file) p),
    ) in
    rw last (ground arith)

advance_quoted_escaped : (f : File) (quote n p : ℕ) → advance_quoted f quote n p true ≡ p
unfolding advance_quoted
advance_quoted_escaped f quote zero p = refl
advance_quoted_escaped f quote (suc n) p = ground arith

advance_quoted_backslash :
    (f : File) (quote b n p : ℕ)
    → p ≤ b
    → b + 1 ≤ end_of f
    → at f b ≡ b'\\'
    → quote ≢ b'\\'
    → ((i : ℕ) → p ≤ i → i < b → (at f i ≢ quote) × (at f i ≢ b'\\'))
    → end_of f + 1 ≤ n + p
    → advance_quoted f quote n p false ≡ b + 1
unfolding advance_quoted
advance_quoted_backslash f quote b zero p h inside slash other plain fuel = absurd (omega arith)
advance_quoted_backslash f quote b (suc n) p h inside slash other plain fuel = elim (dec_lt p b) [
  | yes lt ↦
      let rest =
        advance_quoted_backslash f quote b n (p + 1) (omega arith) inside slash other
          (λ i k l. plain i (omega arith) l) (omega arith) in
      ground (arith, plain p (omega arith) lt)
  | no ge ↦
      let same : p ≡ b = omega arith in
      rw same (ground (arith, advance_quoted_escaped f quote n (b + 1)))
]

-- Behind an opening quote and bytes that are neither the quote nor a backslash, a first backslash
-- ends the literal: its range ends at the byte behind the backslash, whatever that byte is.
pub quoted_backslash :
    (s : Scanner) (quote : ℕ) (tok : Token) (start p b : ℕ)
    → p ≤ b
    → b + 1 ≤ end_of s.file
    → at s.file b ≡ b'\\'
    → quote ≢ b'\\'
    → ((i : ℕ) → p ≤ i → i < b → (at s.file i ≢ quote) × (at s.file i ≢ b'\\'))
    → quoted s quote tok start p ≡ set_token s tok start (b + 1) (b + 2)
unfolding quoted scan_quoted
quoted_backslash s quote tok start p b h inside slash other plain =
    ground (arith, advance_quoted_backslash s.file quote b (end_of s.file + 1 - p) p)
