-- ===== src/Lexer/Scan.antt =====
-- compiler/cstc_lexer/src/lexer.cpp: one token from the source, by the scanning loops of `lex_source_at`.
use cicest.Prelude.{
  ℕ, suc, ◌+◌, Bool, true, false, not, ◌&&◌, [], ◌∷◌, Option, none, some, ◌==◌, if◌then◌else◌,
  length, take, drop, Bytes,
}
use cicest.Token.{
  TokenKind, unknown, whitespace, line_comment, block_comment, number, string, colon_colon, arrow,
  and_and, or_or, eq_eq, not_eq, lt_eq, gt_eq, l_brace, r_brace, l_paren, r_paren, l_bracket,
  r_bracket, comma, semicolon, colon, dot, amp, plus, minus, star, slash, percent, bang, lt, gt,
  assign,
}
use cicest.Lexer.Chars.{is_space, is_digit, is_ident_start, is_ident_continue, keyword_kind}

-- What one round of the loop finds: the kind, the bytes of the token, the bytes that `index` moves on by, and
-- whether the token is kept in any case.
pub record Scanned : Type 0 where
  pub kind : TokenKind
  pub size : ℕ
  pub next : ℕ
  pub always : Bool

-- `while (index < source.size() && p(source[index])) ++index;`
unfoldable pub count_while : (ℕ → Bool) → Bytes → ℕ
count_while p [] = 0
count_while p (c ∷ cs) = if p c then suc (count_while p cs) else 0

-- `index < source.size() && source[index] == ch`
abbrev pub head_is : ℕ → Bytes → Bool
head_is ch [] = false
head_is ch (c ∷ cs) = c == ch

-- The loop behind `/*`: the bytes up to and with the first `*/`, if there is one.
unfoldable pub block_end : Bytes → Option ℕ
block_end [] = none
block_end (c ∷ cs) =
    let later = block_end cs in
    if c == b'*' && head_is b'/' cs
    then some 2
    else elim later [ none ↦ none | some n ↦ some (suc n) ]

-- A fraction behind the digits of a number.
unfoldable pub fraction : Bytes → ℕ
unfolding count_while is_digit
fraction [] = 0
fraction (c ∷ []) = 0
fraction (c ∷ d ∷ cs) = if c == b'.' && is_digit d then suc (count_while is_digit (d ∷ cs)) else 0

-- The loop behind an opening quote: whether it ends at a quote, and what `index` has moved on by. A
-- backslash steps over two bytes, the second of which may lie behind the end.
unfoldable pub string_end : Bytes → Bool × ℕ
string_end [] = (false, 0)
string_end (c ∷ []) = if c == b'\\' then (false, 2) else if c == b'"' then (true, 1) else (false, 1)
string_end (c ∷ d ∷ cs) = elim (c == b'\\') [
  | true ↦ let (closed, n) = string_end cs in (closed, n + 2)
  | false ↦ elim (c == b'"') [
    | true ↦ (true, 1)
    | false ↦ let (closed, n) = string_end (d ∷ cs) in (closed, n + 1)
  ]
]

-- The operators of two bytes.
unfoldable pub two_bytes : ℕ → ℕ → Option TokenKind
two_bytes c d =
    if c == b':' && d == b':'
    then some colon_colon
    else if c == b'-' && d == b'>'
    then some arrow
    else if c == b'&' && d == b'&'
    then some and_and
    else if c == b'|' && d == b'|'
    then some or_or
    else if c == b'=' && d == b'='
    then some eq_eq
    else if c == b'!' && d == b'='
    then some not_eq
    else if c == b'<' && d == b'='
    then some lt_eq
    else if c == b'>' && d == b'='
    then some gt_eq
    else none

-- The switch on one byte.
unfoldable pub one_byte : ℕ → TokenKind
one_byte c =
    if c == b'{'
    then l_brace
    else if c == b'}'
    then r_brace
    else if c == b'('
    then l_paren
    else if c == b')'
    then r_paren
    else if c == b'['
    then l_bracket
    else if c == b']'
    then r_bracket
    else if c == b','
    then comma
    else if c == b';'
    then semicolon
    else if c == b':'
    then colon
    else if c == b'.'
    then dot
    else if c == b'&'
    then amp
    else if c == b'+'
    then plus
    else if c == b'-'
    then minus
    else if c == b'*'
    then star
    else if c == b'/'
    then slash
    else if c == b'%'
    then percent
    else if c == b'!'
    then bang
    else if c == b'<'
    then lt
    else if c == b'>'
    then gt
    else if c == b'='
    then assign
    else unknown

-- A token of `n` bytes.
abbrev pub plain : TokenKind → ℕ → Scanned
plain kind n = record { kind = kind; size = n; next = n; always = false }

-- An error token, which is always kept.
abbrev pub broken : ℕ → ℕ → Scanned
broken n next = record { kind = unknown; size = n; next = next; always = true }

unfoldable pub scan_block_comment : Bytes → Scanned
unfolding block_end
scan_block_comment rest = elim (block_end (drop 2 rest)) [
  | some n ↦ plain block_comment (2 + n)
  | none ↦ broken (length rest) (length rest)
]

unfoldable pub scan_word : ℕ → Bytes → Scanned
unfolding count_while is_ident_continue keyword_kind
scan_word c cs =
    let n = suc (count_while is_ident_continue cs) in plain (keyword_kind (take n (c ∷ cs))) n

unfoldable pub scan_number : Bytes → Scanned
unfolding count_while is_digit fraction
scan_number rest = let n = count_while is_digit rest in plain number (n + fraction (drop n rest))

unfoldable pub scan_string : Bytes → Scanned
unfolding string_end
scan_string cs =
    let (closed, n) = string_end cs in
    if closed then plain string (suc n) else broken (suc (length cs)) (suc n)

-- The `default` case keeps its token in any case.
unfoldable pub one_byte_token : TokenKind → Scanned
one_byte_token unknown = broken 1 1
one_byte_token kind = plain kind 1

unfoldable pub scan_byte : ℕ → Scanned
unfolding one_byte_token
scan_byte c = one_byte_token (one_byte c)

unfoldable pub scan_operator : ℕ → Bytes → Scanned
unfolding two_bytes scan_byte
scan_operator c [] = scan_byte c
scan_operator c (d ∷ cs) = elim (two_bytes c d) [ some kind ↦ plain kind 2 | none ↦ scan_byte c ]

unfoldable pub next_token : ℕ → Bytes → Scanned
next_token c cs =
    if is_space c
    then plain whitespace (count_while is_space (c ∷ cs))
    else if c == b'/' && head_is b'/' cs
    then plain line_comment (2 + count_while (λ b. not (b == b'\n')) (drop 1 cs))
    else if c == b'/' && head_is b'*' cs
    then scan_block_comment (c ∷ cs)
    else if is_ident_start c
    then scan_word c cs
    else if is_digit c
    then scan_number (c ∷ cs)
    else if c == b'"'
    then scan_string cs
    else scan_operator c cs
