-- ===== src/Scanner/Next.antt =====
-- src/lang/processors/scanner/scanner.cc: `Scanner::Next` and its parts. A part is given the position
-- of the first byte of the token (`tok_start`) and the position behind it.
use katara.Prelude.{ℕ, ◌+◌, ◌-◌, Bool, true, false, not, ◌&&◌, ◌||◌, leb, ltb, ◌==◌, if◌then◌else◌}
use katara.Positions.File.{File, Bytes, range, end_of, at, contents_of}
use katara.Scanner.Token.{Token, number, of_number}
use katara.Scanner.Loops.{Scanner, scan_while, scan_quoted}
use katara.Scanner.Words.{is_digit, is_ident_byte, keyword}

unfoldable pub inserts_semicolon : Token → Bool
inserts_semicolon Token.ident = true
inserts_semicolon Token.int = true
inserts_semicolon Token.char = true
inserts_semicolon Token.string = true
inserts_semicolon Token.kw_fallthrough = true
inserts_semicolon Token.kw_continue = true
inserts_semicolon Token.kw_break = true
inserts_semicolon Token.kw_return = true
inserts_semicolon Token.inc = true
inserts_semicolon Token.dec = true
inserts_semicolon Token.gtr = true
inserts_semicolon Token.r_paren = true
inserts_semicolon Token.r_brack = true
inserts_semicolon Token.r_brace = true
inserts_semicolon _ = false

abbrev pub is_space : Bool → ℕ → Bool
is_space insert_semicolon c = c == b' ' || c == b'\t' || (c == b'\n' && not insert_semicolon)

-- The loop over blanks, and over newlines unless they end a statement.
unfoldable pub skip_space : Scanner → ℕ
unfolding inserts_semicolon
skip_space s = scan_while s.file (λ p. is_space (inserts_semicolon s.tok) (at s.file p)) s.pos

-- `tok_`, `tok_range_` and `pos_` are set.
abbrev pub set_token : Scanner → Token → ℕ → ℕ → ℕ → Scanner
set_token s tok start end pos = record s { tok = tok; tok_range = range start end; pos = pos }

-- `pos_ <= file_->end() && file_->at(pos_) == c`.
unfoldable pub followed_by : File → ℕ → ℕ → Bool
followed_by f p c = leb p (end_of f) && (at f p == c)

-- `NextArithmeticOrBitOpStart`, at position `p`.
unfoldable pub op_start : Scanner → Token → ℕ → ℕ → Scanner
unfolding followed_by
op_start s tok start p =
    if followed_by s.file p b'='
    then set_token s (of_number (number tok + number Token.add_assign - number Token.add)) start p
        (p + 1)
    else set_token s tok start (p - 1) p

-- A token of one byte, and one that a second byte may extend.
abbrev pub one_byte : Scanner → Token → ℕ → ℕ → Scanner
one_byte s tok start p = set_token s tok start (p - 1) p

unfoldable pub maybe_equal : Scanner → Token → Token → ℕ → ℕ → Scanner
unfolding followed_by
maybe_equal s with_equal tok start p =
    if followed_by s.file p b'='
    then set_token s with_equal start p (p + 1)
    else one_byte s tok start p

unfoldable pub line_comment : Scanner → ℕ → ℕ → Scanner
line_comment s start p =
    let q = scan_while s.file (λ i. not (at s.file i == b'\n')) p in
    set_token s Token.comment start (q - 1) q

unfoldable pub block_comment : Scanner → ℕ → ℕ → Scanner
block_comment s start p =
    let q =
      scan_while s.file (λ i. not (at s.file i == b'*') || not (at s.file (i + 1) == b'/')) p in
    if q == end_of s.file
    then set_token s Token.illegal start (end_of s.file) q
    else set_token s Token.comment start (if ltb q (end_of s.file) then q + 1 else q) (q + 2)

unfoldable pub slash : Scanner → ℕ → ℕ → Scanner
unfolding line_comment block_comment op_start
slash s start p =
    if followed_by s.file p b'/'
    then line_comment s start p
    else if followed_by s.file p b'*'
    then block_comment s start p
    else op_start s Token.quo start p

-- `<` and `>`, with the token of the doubled byte, of the byte with `=`, and of the byte alone.
unfoldable pub angle : Bool → Scanner → ℕ → Token → Token → Token → ℕ → ℕ → Scanner
unfolding followed_by op_start maybe_equal
angle split_shift_ops s c doubled with_equal tok start p =
    if not split_shift_ops && followed_by s.file p c
    then op_start s doubled start (p + 1)
    else maybe_equal s with_equal tok start p

unfoldable pub quoted : Scanner → ℕ → Token → ℕ → ℕ → Scanner
quoted s quote tok start p =
    let q = scan_quoted s.file quote p in
    if ltb (end_of s.file) q
    then set_token s Token.illegal start (end_of s.file) q
    else set_token s tok start q (q + 1)

unfoldable pub int_literal : Scanner → ℕ → ℕ → Scanner
int_literal s start p =
    let q = scan_while s.file (λ i. is_digit (at s.file i)) p in
    set_token s Token.int start (q - 1) q

-- What is no other token is a word, whatever its first byte.
unfoldable pub word : Scanner → ℕ → ℕ → Scanner
word s start p =
    let q = scan_while s.file (λ i. is_ident_byte (at s.file i)) p in
    set_token s (keyword (contents_of s.file (range start (q - 1)))) start (q - 1) q

unfoldable pub plus : Scanner → ℕ → ℕ → Scanner
unfolding followed_by op_start
plus s start p =
    if followed_by s.file p b'+'
    then set_token s Token.inc start p (p + 1)
    else op_start s Token.add start p

unfoldable pub minus : Scanner → ℕ → ℕ → Scanner
unfolding followed_by op_start
minus s start p =
    if followed_by s.file p b'-'
    then set_token s Token.dec start p (p + 1)
    else op_start s Token.sub start p

unfoldable pub ampersand : Scanner → ℕ → ℕ → Scanner
unfolding followed_by op_start
ampersand s start p =
    if followed_by s.file p b'&'
    then set_token s Token.l_and start p (p + 1)
    else if followed_by s.file p b'^'
    then op_start s Token.and_not start (p + 1)
    else op_start s Token.and start p

unfoldable pub bar : Scanner → ℕ → ℕ → Scanner
unfolding followed_by op_start
bar s start p =
    if followed_by s.file p b'|'
    then set_token s Token.l_or start p (p + 1)
    else op_start s Token.or start p

-- The cases for brackets and separators, of one byte each.
unfoldable pub delimiter : ℕ → Token
delimiter c =
    if c == b'('
    then Token.l_paren
    else if c == b'['
    then Token.l_brack
    else if c == b'{'
    then Token.l_brace
    else if c == b','
    then Token.comma
    else if c == b'.'
    then Token.period
    else if c == b')'
    then Token.r_paren
    else if c == b']'
    then Token.r_brack
    else if c == b'}'
    then Token.r_brace
    else if c == b';'
    then Token.semicolon
    else if c == b'\n'
    then Token.semicolon
    else Token.illegal

abbrev pub is_delimiter : ℕ → Bool
is_delimiter c =
    c == b'('
    || c == b'['
    || c == b'{'
    || c == b','
    || c == b'.'
    || c == b')'
    || c == b']'
    || c == b'}'
    || c == b';'
    || c == b'\n'

-- The switch over the first byte `c`.
unfoldable pub scan_token : Bool → Scanner → ℕ → ℕ → ℕ → Scanner
scan_token split_shift_ops s c start p =
    if is_delimiter c
    then one_byte s (delimiter c) start p
    else if c == b'+'
    then plus s start p
    else if c == b'-'
    then minus s start p
    else if c == b'*'
    then op_start s Token.mul start p
    else if c == b'/'
    then slash s start p
    else if c == b'%'
    then op_start s Token.rem start p
    else if c == b'&'
    then ampersand s start p
    else if c == b'|'
    then bar s start p
    else if c == b'^'
    then op_start s Token.xor start p
    else if c == b'<'
    then angle split_shift_ops s b'<' Token.shl Token.leq Token.lss start p
    else if c == b'>'
    then angle split_shift_ops s b'>' Token.shr Token.geq Token.gtr start p
    else if c == b'='
    then maybe_equal s Token.eql Token.assign start p
    else if c == b'!'
    then maybe_equal s Token.neq Token.not start p
    else if c == b':'
    then maybe_equal s Token.define Token.colon start p
    else if c == b'\''
    then quoted s b'\'' Token.char start p
    else if c == b'"'
    then quoted s b'"' Token.string start p
    else if is_digit c
    then int_literal s start p
    else word s start p

unfoldable pub next : Bool → Scanner → Scanner
next split_shift_ops s =
    let start = skip_space s in
    if ltb (end_of s.file) start
    then set_token s Token.end_of_file start start start
    else scan_token split_shift_ops s (at s.file start) start (start + 1)

-- The constructor.
unfoldable pub new_scanner : File → Scanner
new_scanner f =
    next false (record { file = f; pos = f.start; tok = Token.illegal; tok_range = range 0 0 })

unfoldable pub token_string : Scanner → Bytes
token_string s = contents_of s.file s.tok_range

unfoldable pub skip_past_line : Scanner → Scanner
skip_past_line s =
    next false (record s { pos = scan_while s.file (λ p. not (at s.file p == b'\n')) s.pos })
