-- ===== src/Scanner/Token.antt =====
-- src/lang/representation/tokens/tokens.h and tokens.cc: the tokens of Katara, their numbers in the
-- enumeration, and the precedence of the operators.
use katara.Prelude.{ℕ, List, [], ◌∷◌, get_or}

pub data Token : Type 0 where
  illegal end_of_file comment ident int char string add sub mul : Token
  quo rem and or xor shl shr and_not add_assign sub_assign : Token
  mul_assign quo_assign rem_assign and_assign or_assign xor_assign shl_assign shr_assign
        and_not_assign l_and :
      Token
  l_or inc dec eql lss gtr assign not neq leq : Token
  geq define l_paren l_brack l_brace comma period r_paren r_brack r_brace : Token
  semicolon colon kw_const kw_var kw_type kw_interface kw_struct kw_if kw_else kw_for : Token
  kw_switch kw_case kw_default kw_fallthrough kw_continue kw_break kw_return kw_func kw_package
        kw_import :
      Token

-- The value of the enumerator.
unfoldable pub number : Token → ℕ
number Token.illegal = 0
number Token.end_of_file = 1
number Token.comment = 2
number Token.ident = 3
number Token.int = 4
number Token.char = 5
number Token.string = 6
number Token.add = 7
number Token.sub = 8
number Token.mul = 9
number Token.quo = 10
number Token.rem = 11
number Token.and = 12
number Token.or = 13
number Token.xor = 14
number Token.shl = 15
number Token.shr = 16
number Token.and_not = 17
number Token.add_assign = 18
number Token.sub_assign = 19
number Token.mul_assign = 20
number Token.quo_assign = 21
number Token.rem_assign = 22
number Token.and_assign = 23
number Token.or_assign = 24
number Token.xor_assign = 25
number Token.shl_assign = 26
number Token.shr_assign = 27
number Token.and_not_assign = 28
number Token.l_and = 29
number Token.l_or = 30
number Token.inc = 31
number Token.dec = 32
number Token.eql = 33
number Token.lss = 34
number Token.gtr = 35
number Token.assign = 36
number Token.not = 37
number Token.neq = 38
number Token.leq = 39
number Token.geq = 40
number Token.define = 41
number Token.l_paren = 42
number Token.l_brack = 43
number Token.l_brace = 44
number Token.comma = 45
number Token.period = 46
number Token.r_paren = 47
number Token.r_brack = 48
number Token.r_brace = 49
number Token.semicolon = 50
number Token.colon = 51
number Token.kw_const = 52
number Token.kw_var = 53
number Token.kw_type = 54
number Token.kw_interface = 55
number Token.kw_struct = 56
number Token.kw_if = 57
number Token.kw_else = 58
number Token.kw_for = 59
number Token.kw_switch = 60
number Token.kw_case = 61
number Token.kw_default = 62
number Token.kw_fallthrough = 63
number Token.kw_continue = 64
number Token.kw_break = 65
number Token.kw_return = 66
number Token.kw_func = 67
number Token.kw_package = 68
number Token.kw_import = 69

abbrev pub all_tokens : List Token
all_tokens =
    Token.illegal ∷ Token.end_of_file ∷ Token.comment ∷ Token.ident ∷ Token.int ∷ Token.char
    ∷ Token.string ∷ Token.add ∷ Token.sub ∷ Token.mul ∷ Token.quo ∷ Token.rem ∷ Token.and
    ∷ Token.or ∷ Token.xor ∷ Token.shl ∷ Token.shr ∷ Token.and_not ∷ Token.add_assign
    ∷ Token.sub_assign ∷ Token.mul_assign ∷ Token.quo_assign ∷ Token.rem_assign ∷ Token.and_assign
    ∷ Token.or_assign ∷ Token.xor_assign ∷ Token.shl_assign ∷ Token.shr_assign
    ∷ Token.and_not_assign ∷ Token.l_and ∷ Token.l_or ∷ Token.inc ∷ Token.dec ∷ Token.eql
    ∷ Token.lss ∷ Token.gtr ∷ Token.assign ∷ Token.not ∷ Token.neq ∷ Token.leq ∷ Token.geq
    ∷ Token.define ∷ Token.l_paren ∷ Token.l_brack ∷ Token.l_brace ∷ Token.comma ∷ Token.period
    ∷ Token.r_paren ∷ Token.r_brack ∷ Token.r_brace ∷ Token.semicolon ∷ Token.colon ∷ Token.kw_const
    ∷ Token.kw_var ∷ Token.kw_type ∷ Token.kw_interface ∷ Token.kw_struct ∷ Token.kw_if
    ∷ Token.kw_else ∷ Token.kw_for ∷ Token.kw_switch ∷ Token.kw_case ∷ Token.kw_default
    ∷ Token.kw_fallthrough ∷ Token.kw_continue ∷ Token.kw_break ∷ Token.kw_return ∷ Token.kw_func
    ∷ Token.kw_package ∷ Token.kw_import ∷ []

-- `Token(n)`. The scanner converts only numbers of enumerators.
unfoldable pub of_number : ℕ → Token
of_number n = get_or all_tokens n Token.illegal

abbrev pub max_precedence : ℕ
max_precedence = 5

-- `prececende` in the code.
unfoldable pub precedence : Token → ℕ
precedence Token.mul = 5
precedence Token.quo = 5
precedence Token.rem = 5
precedence Token.shl = 5
precedence Token.shr = 5
precedence Token.and = 5
precedence Token.and_not = 5
precedence Token.add = 4
precedence Token.sub = 4
precedence Token.or = 4
precedence Token.xor = 4
precedence Token.eql = 3
precedence Token.neq = 3
precedence Token.lss = 3
precedence Token.leq = 3
precedence Token.gtr = 3
precedence Token.geq = 3
precedence Token.l_and = 2
precedence Token.l_or = 1
precedence _ = 0
