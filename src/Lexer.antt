-- ===== src/Lexer.antt =====
-- compiler/cstc_lexer/src/lexer.cpp: the lexer.
-- The loop's `index` is carried together with `rest`, the source from that index on, so that `source[index]` is the
-- head of `rest`, `index < source.size()` says that `rest` is not empty, and `source.substr(index, n)` is `take n rest`.
-- The character classes are those of the C locale. The symbol table of the session is threaded through.
pub mod Chars
pub mod Scan
pub mod Progress
pub mod Pieces
pub mod Run
pub mod Laws
pub mod Shift
pub mod Words
mod Examples
use cicest.Prelude.{
  ℕ, zero, suc, ◌+◌, Bool, true, false, not, ◌&&◌, ◌||◌, List, [], ◌∷◌, ◌++◌, Option, none, some,
  if◌then◌else◌, length, take, drop, Bytes,
}
use cicest.Span.{to_size_t}
use cicest.Symbol.{SymbolTable, intern, invalid_symbol}
use cicest.Token.{Token, TokenKind, end_of_file, is_trivia}
use Scan.{Scanned, next_token}

-- The tokens so far and the session's table.
pub record Lexed : Type 0 where
  pub tokens : List Token
  pub table : SymbolTable

-- `append_token`, for the `size` bytes of `rest` from offset `start`.
unfoldable pub append_token : Lexed → TokenKind → ℕ → ℕ → ℕ → Bytes → Bool → Lexed
append_token out kind base_pos start size rest keep_trivia =
    if not keep_trivia && is_trivia kind
    then out
    else let (table, symbol) = intern out.table (take size rest) in
      let token : Token = record {
        kind = kind;
        span = record {
          start = to_size_t (base_pos + start);
          end = to_size_t (base_pos + (start + size));
        };
        symbol = symbol;
      } in
      record { tokens = out.tokens ++ token ∷ []; table = table }

-- One round of the loop, on a rest that is not empty.
unfoldable pub lex_step : ℕ → Bool → ℕ → ℕ → Bytes → Lexed → Lexed
lex_step base_pos keep_trivia index c cs out =
    let s = next_token c cs in
    append_token out s.kind base_pos index s.size (c ∷ cs) (keep_trivia || s.always)

-- The loop on fuel: `none` when that runs out before the source.
unfoldable pub lex_loop : ℕ → ℕ → Bool → ℕ → Bytes → Lexed → Option Lexed
lex_loop fuel base_pos keep_trivia index [] out = some out
lex_loop zero base_pos keep_trivia index (c ∷ cs) out = none
lex_loop (suc fuel) base_pos keep_trivia index (c ∷ cs) out =
    let s = next_token c cs in
    lex_loop fuel base_pos keep_trivia (index + s.next) (drop s.next (c ∷ cs))
      (lex_step base_pos keep_trivia index c cs out)

abbrev end_token : ℕ → Token
end_token p = record {
  kind = end_of_file;
  span = record { start = p; end = p };
  symbol = invalid_symbol;
}

unfoldable pub lex_source_at : SymbolTable → Bytes → ℕ → Bool → Option Lexed
lex_source_at table source base_pos keep_trivia =
    elim (lex_loop (length source) base_pos keep_trivia 0 source
      (record { tokens = []; table = table })) [
        | none ↦ none
        | some out ↦ some (record out {
          tokens = out.tokens ++ end_token (to_size_t (base_pos + length source)) ∷ [];
        })
      ]

unfoldable pub lex_source : SymbolTable → Bytes → Bool → Option Lexed
lex_source table source keep_trivia = lex_source_at table source 0 keep_trivia
