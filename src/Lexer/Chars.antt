-- ===== src/Lexer/Chars.antt =====
-- compiler/cstc_lexer/src/lexer.cpp: the character classes, in the C locale, and the keywords.
use cicest.Prelude.{
  ℕ, Bool, ◌&&◌, ◌||◌, List, [], ◌∷◌, leb, ◌==◌, if◌then◌else◌, Bytes, bytes, bytes_eq,
}
use cicest.Token.{
  TokenKind, identifier, kw_struct, kw_enum, kw_fn, kw_let, kw_if, kw_else, kw_for, kw_while,
  kw_loop, kw_break, kw_continue, kw_return, kw_true, kw_false, kw_unit, kw_num, kw_str, kw_bool,
  kw_extern, kw_runtime, kw_pub, kw_import, kw_from, kw_as, kw_where,
}

-- `std::isspace`
unfoldable pub is_space : ℕ → Bool
is_space c = c == b' ' || (leb 9 c && leb c 13)

-- `std::isdigit`
unfoldable pub is_digit : ℕ → Bool
is_digit c = leb b'0' c && leb c b'9'

-- `std::isalpha`
unfoldable pub is_alpha : ℕ → Bool
is_alpha c = (leb b'a' c && leb c b'z') || (leb b'A' c && leb c b'Z')

unfoldable pub is_ident_start : ℕ → Bool
unfolding is_alpha
is_ident_start c = is_alpha c || c == b'_'

unfoldable pub is_ident_continue : ℕ → Bool
unfolding is_alpha is_digit
is_ident_continue c = (is_alpha c || is_digit c) || c == b'_'

-- The ladder of `keyword_kind`, as a table that is searched in order.
abbrev pub keyword_table : List (Bytes × TokenKind)
keyword_table =
    (bytes "struct", kw_struct)
    ∷ (bytes "enum", kw_enum)
    ∷ (bytes "fn", kw_fn)
    ∷ (bytes "let", kw_let)
    ∷ (bytes "if", kw_if)
    ∷ (bytes "else", kw_else)
    ∷ (bytes "for", kw_for)
    ∷ (bytes "while", kw_while)
    ∷ (bytes "loop", kw_loop)
    ∷ (bytes "break", kw_break)
    ∷ (bytes "continue", kw_continue)
    ∷ (bytes "return", kw_return)
    ∷ (bytes "true", kw_true)
    ∷ (bytes "false", kw_false)
    ∷ (bytes "Unit", kw_unit)
    ∷ (bytes "num", kw_num)
    ∷ (bytes "str", kw_str)
    ∷ (bytes "bool", kw_bool)
    ∷ (bytes "extern", kw_extern)
    ∷ (bytes "runtime", kw_runtime)
    ∷ (bytes "pub", kw_pub)
    ∷ (bytes "import", kw_import)
    ∷ (bytes "from", kw_from)
    ∷ (bytes "as", kw_as)
    ∷ (bytes "where", kw_where)
    ∷ []

unfoldable pub find_keyword : List (Bytes × TokenKind) → Bytes → TokenKind
find_keyword [] text = identifier
find_keyword ((word, kind) ∷ table) text =
    if bytes_eq text word then kind else find_keyword table text

unfoldable pub keyword_kind : Bytes → TokenKind
unfolding find_keyword
keyword_kind text = find_keyword keyword_table text
