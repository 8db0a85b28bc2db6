-- ===== src/Parser/Lookahead.antt =====
-- compiler/cstc_parser/src/parser.cpp: the looks ahead of the cursor.
use cicest.Prelude.{
  ℕ, suc, ◌-◌, Bool, true, false, ◌&&◌, ◌||◌, List, [], ◌∷◌, ◌==◌, if◌then◌else◌, drop,
}
use cicest.Token.{
  Token, TokenKind, end_of_file, identifier, l_bracket, l_brace, r_brace, r_paren, colon,
  colon_colon, lt, gt, comma, semicolon, kw_runtime, amp, kw_unit, kw_num, kw_str, kw_bool, bang,
}
use cicest.Parser.{Parser, kind_is, peek, check}

unfoldable pub is_optional_expr_terminator : TokenKind → Bool
is_optional_expr_terminator kind =
    kind_is kind semicolon
    || kind_is kind comma
    || kind_is kind r_paren
    || kind_is kind r_brace
    || kind_is kind end_of_file

unfoldable pub check_attribute_start : Parser → Bool
check_attribute_start p = check l_bracket p && kind_is (peek p 1).kind l_bracket

unfoldable pub looks_like_struct_initializer : Parser → Bool
looks_like_struct_initializer p =
    check l_brace p
    && (kind_is (peek p 1).kind r_brace
        || (kind_is (peek p 1).kind identifier && kind_is (peek p 2).kind colon))

abbrev pub token_can_start_type : TokenKind → Bool
token_can_start_type kw_runtime = true
token_can_start_type amp = true
token_can_start_type kw_unit = true
token_can_start_type kw_num = true
token_can_start_type kw_str = true
token_can_start_type kw_bool = true
token_can_start_type bang = true
token_can_start_type identifier = true
token_can_start_type _ = false

unfoldable pub looks_like_turbofish : Parser → Bool
looks_like_turbofish p = check colon_colon p && kind_is (peek p 1).kind lt

abbrev pub head_kind_is : TokenKind → List Token → Bool
head_kind_is kind [] = false
head_kind_is kind (t ∷ ts) = kind_is t.kind kind

-- The loop over the tokens from the cursor on.
unfoldable pub closes_before_brace : ℕ → List Token → Bool
closes_before_brace depth [] = false
closes_before_brace depth (t ∷ ts) =
    if kind_is t.kind lt
    then closes_before_brace (suc depth) ts
    else if kind_is t.kind gt
    then if depth == 0
      then false
      else if depth - 1 == 0
      then head_kind_is l_brace ts
      else closes_before_brace (depth - 1) ts
    else if kind_is t.kind comma || token_can_start_type t.kind
    then closes_before_brace depth ts
    else false

unfoldable pub looks_like_generic_struct_initializer : Parser → Bool
looks_like_generic_struct_initializer p =
    check lt p && closes_before_brace 0 (drop p.cursor p.tokens)

unfoldable pub condition_starts_with_struct_init_ambiguity : Parser → Bool
condition_starts_with_struct_init_ambiguity p =
    (check identifier p && kind_is (peek p 1).kind l_brace)
    && (kind_is (peek p 2).kind r_brace
        || (kind_is (peek p 2).kind identifier && kind_is (peek p 3).kind colon))
