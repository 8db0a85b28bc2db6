-- ===== src/Lexer/Pieces.antt =====
-- The lexer's output as its readers see it: each token's kind, span and text.
use cicest.Prelude.{
  ℕ, zero, suc, ◌+◌, ◌≡◌, refl, Bool, not, ◌||◌, List, [], ◌∷◌, ◌++◌, map, arith, take, drop, Bytes,
}
use cicest.Span.{SourceSpan, to_size_t}
use cicest.Symbol.{SymbolTable, resolve}
use cicest.Symbol.Intern.{HasEntry, resolve-HasEntry}
use cicest.Token.{TokenKind, Token, is_trivia}
use cicest.Lexer.Scan.{Scanned, next_token}

pub record Seen : Type 0 where
  pub kind : TokenKind
  pub span : SourceSpan
  pub text : Bytes

-- A token, its symbol resolved.
abbrev pub view : SymbolTable → Token → Seen
view t token = record { kind = token.kind; span = token.span; text = resolve t token.symbol }

-- Whether the lexer keeps a token: all of them, or all but the trivia.
abbrev pub shown : Bool → Seen → Bool
shown keep_trivia s = keep_trivia || not (is_trivia s.kind)

-- The token that a round takes from the front of `rest`, at `index` of a source that lies at `base_pos`.
abbrev pub seen_at : ℕ → ℕ → Bytes → Scanned → Seen
seen_at base_pos index rest s = record {
  kind = s.kind;
  span = record {
    start = to_size_t (base_pos + index);
    end = to_size_t (base_pos + (index + s.size));
  };
  text = take s.size rest;
}

-- All tokens of a source, trivia included, up to the end-of-file token.
unfoldable pub pieces : ℕ → ℕ → ℕ → Bytes → List Seen
pieces zero base_pos index rest = []
pieces (suc fuel) base_pos index [] = []
pieces (suc fuel) base_pos index (c ∷ cs) =
    let s = next_token c cs in
    seen_at base_pos index (c ∷ cs) s ∷ pieces fuel base_pos (index + s.next) (drop s.next (c ∷ cs))

-- The token's symbol is the index of the text.
abbrev pub ReadsAs : SymbolTable → Token → Seen → Type 0
ReadsAs t token s = (token.kind ≡ s.kind) × (token.span ≡ s.span) × HasEntry t token.symbol s.text

abbrev pub ReadAll : SymbolTable → List Token → List Seen → Type 0
ReadAll t [] [] = Unit
ReadAll t [] (s ∷ ss) = ⊥
ReadAll t (token ∷ tokens) [] = ⊥
ReadAll t (token ∷ tokens) (s ∷ ss) = ReadsAs t token s × ReadAll t tokens ss

pub ReadAll-concat :
    (t : SymbolTable) (tokens : List Token) (ss : List Seen) (token : Token) (s : Seen)
    → ReadAll t tokens ss
    → ReadsAs t token s
    → ReadAll t (tokens ++ token ∷ []) (ss ++ s ∷ [])
ReadAll-concat t [] [] token s h k = (k, tt)
ReadAll-concat t [] (x ∷ ss) token s h k = absurd h
ReadAll-concat t (y ∷ tokens) [] token s h k = absurd h
ReadAll-concat t (y ∷ tokens) (x ∷ ss) token s h k = (h.0, ReadAll-concat t tokens ss token s h.1 k)

-- A table that keeps the entries of another reads the same.
pub ReadAll-keeps :
    (t u : SymbolTable) (tokens : List Token) (ss : List Seen)
    → ((i : ℕ) (a : Bytes) → HasEntry t i a → HasEntry u i a)
    → ReadAll t tokens ss
    → ReadAll u tokens ss
ReadAll-keeps t u [] [] k h = tt
ReadAll-keeps t u [] (x ∷ ss) k h = absurd h
ReadAll-keeps t u (y ∷ tokens) [] k h = absurd h
ReadAll-keeps t u (y ∷ tokens) (x ∷ ss) k ((a, b, c), r) =
    ((a, b, k y.symbol x.text c), ReadAll-keeps t u tokens ss k r)

ReadsAs-view : (t : SymbolTable) (token : Token) (s : Seen) → ReadsAs t token s → view t token ≡ s
ReadsAs-view t token s (a, b, c) = ground (arith, resolve-HasEntry t token.symbol s.text c)

pub ReadAll-view :
    (t : SymbolTable) (tokens : List Token) (ss : List Seen)
    → ReadAll t tokens ss
    → map (view t) tokens ≡ ss
ReadAll-view t [] [] h = refl
ReadAll-view t [] (x ∷ ss) h = absurd h
ReadAll-view t (y ∷ tokens) [] h = absurd h
ReadAll-view t (y ∷ tokens) (x ∷ ss) (h, r) = cc (ReadsAs-view t y x h, ReadAll-view t tokens ss r)
