-- ===== src/Parser.antt =====
-- compiler/cstc_parser/src/parser.cpp: the parser's state and its cursor.
-- The members that move the cursor return the new parser. `match` returns it where the source's returns true. The
-- session's symbol table is part of the state, since the parser interns texts.
pub mod Lookahead
pub mod Monad
pub mod Types
pub mod Exprs
pub mod Primary
pub mod Items
pub mod Program
mod Examples
pub mod Cursor
pub mod Ends
pub mod WellFormed
pub mod TypesEnd
pub mod LadderEnd
pub mod ExprsEnd
pub mod BlocksEnd
pub mod ControlEnd
pub mod PrimaryEnd
pub mod MembersEnd
pub mod ItemsEnd
pub mod AttributesEnd
pub mod ProgramEnd
use cicest.Prelude.{
  ℕ, zero, suc, ◌+◌, ◌-◌, Bool, true, false, not, ◌&&◌, ◌||◌, List, [], ◌∷◌, ◌++◌, Option, none,
  some, leb, ◌==◌, if◌then◌else◌, length, get_or, take, drop, Bytes, bytes, bytes_eq,
}
use cicest.Span.{SourceSpan}
use cicest.Symbol.{SymbolTable, Symbol, invalid_symbol, resolve, intern}
use cicest.Token.{
  Token, TokenKind, TokenKind-discrete, end_of_file, identifier, l_bracket, l_brace, r_brace, colon,
  colon_colon, lt, gt, comma, kw_runtime, amp, kw_unit, kw_num, kw_str, kw_bool, bang,
}

pub record ParseError : Type 0 where
  pub span : SourceSpan
  pub message : Bytes

pub record ParseWarning : Type 0 where
  pub span : SourceSpan
  pub message : Bytes

-- `class Parser`: the sink for warnings may be null. `thrown` records that the code has thrown an exception; what the
-- parser does behind that has no meaning.
pub record Parser : Type 0 where
  pub tokens : List Token
  pub cursor : ℕ
  pub warnings : Option (List ParseWarning)
  pub table : SymbolTable
  pub thrown : Bool

abbrev pub decided {ℓ} : {A : Type ℓ} → Dec A → Bool
decided (yes a) = true
decided (no na) = false

-- `==` on kinds.
unfoldable pub kind_is : TokenKind → TokenKind → Bool
kind_is a b = decided (TokenKind-discrete a b)

abbrev pub end_token : ℕ → Token
end_token position = record {
  kind = end_of_file;
  span = record { start = position; end = position };
  symbol = invalid_symbol;
}

-- `std::vector::back`, on a vector that is not empty.
unfoldable pub back : List Token → Token
back tokens = get_or tokens (length tokens - 1) (end_token 0)

-- The constructor: tokens with no end of file get one.
unfoldable pub new_parser : List Token → Option (List ParseWarning) → SymbolTable → Parser
unfolding kind_is back
new_parser [] warnings table = record {
  tokens = end_token 0 ∷ [];
  cursor = 0;
  warnings = warnings;
  table = table;
  thrown = false;
}
new_parser (t ∷ ts) warnings table = record {
  tokens =
      if kind_is (back (t ∷ ts)).kind end_of_file
      then t ∷ ts
      else (t ∷ ts) ++ end_token (back (t ∷ ts)).span.end ∷ [];
  cursor = 0;
  warnings = warnings;
  table = table;
  thrown = false;
}

abbrev pub token_text : Parser → Token → Bytes
token_text p token = resolve p.table token.symbol

-- The tokens from the cursor on, the end of file included.
abbrev pub remaining : Parser → ℕ
remaining p = length p.tokens - p.cursor

unfoldable pub peek : Parser → ℕ → Token
unfolding back
peek p offset =
    let index = p.cursor + offset in
    if leb (length p.tokens) index then back p.tokens else get_or p.tokens index (end_token 0)

-- `tokens_[cursor_ - 1]`, behind a step of the cursor.
unfoldable pub previous : Parser → Token
previous p = get_or p.tokens (p.cursor - 1) (end_token 0)

unfoldable pub check : TokenKind → Parser → Bool
check kind p = kind_is (peek p 0).kind kind

unfoldable pub is_at_end : Parser → Bool
is_at_end p = check end_of_file p

unfoldable pub check_contextual_keyword : Bytes → Parser → Bool
check_contextual_keyword keyword p =
    check identifier p && bytes_eq (token_text p (peek p 0)) keyword

unfoldable pub advance : Parser → Parser
advance p = if is_at_end p then p else record p { cursor = p.cursor + 1 }

unfoldable pub match : TokenKind → Parser → Option Parser
match kind p = if check kind p then some (advance p) else none

unfoldable pub match_contextual_keyword : Bytes → Parser → Option Parser
match_contextual_keyword keyword p =
    if check_contextual_keyword keyword p then some (advance p) else none

abbrev pub make_error_here : Parser → Bytes → ParseError
make_error_here p message = record { span = (peek p 0).span; message = message }

abbrev pub make_error_token : Token → Bytes → ParseError
make_error_token token message = record { span = token.span; message = message }

unfoldable pub emit_warning : SourceSpan → Bytes → Parser → Parser
emit_warning span message p = record p {
  warnings = elim p.warnings [
    | none ↦ none
    | some ws ↦ some (ws ++ record { span = span; message = message } ∷ [])
  ];
}

-- `Symbol::intern` in the session's table.
unfoldable pub intern_text : Bytes → Parser → Parser × Symbol
intern_text text p =
    let (table, symbol) = intern p.table text in (record p { table = table }, symbol)

-- `string_contents_symbol`: the text of a string token between its quotes. On an empty text `substr` throws.
unfoldable pub string_contents_symbol : Token → Parser → Parser × Symbol
string_contents_symbol token p =
    let raw = token_text p token in
    intern_text (take (length raw - 2) (drop 1 raw))
      (record p { thrown = p.thrown || length raw == 0 })
