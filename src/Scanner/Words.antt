-- ===== src/Scanner/Words.antt =====
-- src/lang/processors/scanner/scanner.cc: the classes of bytes and the keywords.
use katara.Prelude.{ℕ, Bool, ◌&&◌, ◌||◌, leb, ◌==◌, if◌then◌else◌, codes, bytes_eq}
use katara.Positions.File.{Bytes}
use katara.Scanner.Token.{Token}

abbrev pub is_digit : ℕ → Bool
is_digit c = leb b'0' c && leb c b'9'

abbrev pub is_ident_byte : ℕ → Bool
is_ident_byte c =
    (leb b'A' c && leb c b'Z') || (leb b'a' c && leb c b'z') || is_digit c || c == b'_'

-- The token of a word: the branches and their tokens are the code's.
unfoldable pub keyword : Bytes → Token
keyword ident =
    if bytes_eq ident (codes "const")
    then Token.kw_const
    else if bytes_eq ident (codes "var")
    then Token.kw_var
    else if bytes_eq ident (codes "type")
    then Token.kw_type
    else if bytes_eq ident (codes "interface")
    then Token.kw_interface
    else if bytes_eq ident (codes "struct")
    then Token.kw_struct
    else if bytes_eq ident (codes "if")
    then Token.kw_if
    else if bytes_eq ident (codes "else")
    then Token.kw_else
    else if bytes_eq ident (codes "for")
    then Token.kw_for
    else if bytes_eq ident (codes "switch")
    then Token.kw_switch
    else if bytes_eq ident (codes "case")
    then Token.kw_case
    else if bytes_eq ident (codes "default")
    then Token.kw_default
    else if bytes_eq ident (codes "fallthrough")
    then Token.kw_else
    else if bytes_eq ident (codes "continue")
    then Token.kw_continue
    else if bytes_eq ident (codes "break")
    then Token.kw_break
    else if bytes_eq ident (codes "return")
    then Token.kw_return
    else if bytes_eq ident (codes "func")
    then Token.kw_func
    else if bytes_eq ident (codes "import")
    then Token.kw_import
    else if bytes_eq ident (codes "package")
    then Token.kw_package
    else Token.ident
