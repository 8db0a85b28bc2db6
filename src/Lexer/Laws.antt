-- ===== src/Lexer/Laws.antt =====
-- What the lexer promises: its tokens tile the source, trivia can be left out, and the base position shifts the spans.
use cicest.Prelude.{
  subst, ℕ, zero, suc, ◌+◌, ◌≤◌, ◌<◌, ◌^◌, ◌≡◌, ◌≢◌, refl, sym, ap, ◌∙◌, Bool, true, false, not,
  List, [], ◌∷◌, ◌++◌, map, some, inl, inr, arith, length, length-drop, length-take,
  take-append-drop, drop, drop_all, keep_if, keep_if-append, Bytes,
}
use cicest.Span.{to_size_t}
use cicest.Symbol.{SymbolTable, size, invalid_symbol}
use cicest.Symbol.Table.{IsValid, limit}
use cicest.Token.{end_of_file, is_trivia}
use cicest.Lexer.Scan.{Scanned, next_token}
use cicest.Lexer.Progress.{IsSound, next_token-IsSound}
use cicest.Lexer.Pieces.{Seen, view, shown, seen_at, pieces, ReadAll-concat, ReadAll-view}
use cicest.Lexer.Run.{Reads, lex_loop_lem}
use cicest.Lexer.{Lexed, lex_source_at}

-- A token for the end of the source at `p`.
abbrev pub end_seen : ℕ → Seen
end_seen p = record { kind = end_of_file; span = record { start = p; end = p }; text = [] }

-- The session's table is valid and has room for a source, which lies below the end of the position space.
pub record HasRoom (t : SymbolTable) (base_pos : ℕ) (source : Bytes) : Type 0 where
  pub valid : IsValid t
  pub symbols : size t + length source < limit
  pub positions : base_pos + length source < 2 ^ 64

-- The tokens that a call of the lexer returns, with their symbols resolved in the table that it leaves.
abbrev pub Lexes : SymbolTable → Bytes → ℕ → Bool → List Seen → Type 0
Lexes t source base_pos keep_trivia ss =
    (out : Lexed) × (lex_source_at t source base_pos keep_trivia ≡ some out)
    × (map (view out.table) out.tokens ≡ ss)

-- The loop ends, and the shown pieces and the end of file are what it returns.
pub Lexes-pieces :
    (t : SymbolTable) (source : Bytes) (base_pos : ℕ) (keep_trivia : Bool)
    → HasRoom t base_pos source
    → Lexes t source base_pos keep_trivia (
        keep_if (shown keep_trivia) (pieces (length source) base_pos 0 source)
        ++ end_seen (base_pos + length source) ∷ [])
unfolding lex_source_at
Lexes-pieces t source base keep r =
    let start : Reads (record { tokens = []; table = t }) [] (length source) = record {
      tokens_read = tt;
      table_valid = r.valid;
      room = r.symbols;
    } in
    let (end, runs, reads) =
      lex_loop_lem (length source) base 0 keep source (record { tokens = []; table = t }) []
        (omega arith) start in
    let position : to_size_t (base + length source) ≡ base + length source =
      omega (arith, r.positions) in
    (
      _,
      rw (runs, lex_source_at)
          (ap
            (λ p. some (record end {
              tokens =
                  end.tokens
                  ++ record {
                    kind = end_of_file;
                    span = record { start = p; end = p };
                    symbol = invalid_symbol;
                  }
                    ∷ [];
            }))
            position),
      ReadAll-view end.table _ _ (
          ReadAll-concat end.table end.tokens _ _ (end_seen (base + length source))
            reads.tokens_read (refl, refl, reads.table_valid.first_is_empty)),
    )

-- The tokens from position `p` on lie one behind the other over the bytes `rest`: each has the bytes of its span as
-- its text and is not empty, and the last one, and no other, is the end of file.
pub data Tiles : ℕ → Bytes → List Seen → Type 0 where
  ends : {p : ℕ} {s : Seen} → s ≡ end_seen p → Tiles p [] (s ∷ [])
  piece :
      {p q : ℕ} {rest later : Bytes} {s : Seen} {ss : List Seen}
      → s.kind ≢ end_of_file
      → s.text ≢ []
      → s.span ≡ record { start = p; end = q }
      → q ≡ p + length s.text
      → rest ≡ s.text ++ later
      → Tiles q later ss
      → Tiles p rest (s ∷ ss)

pub pieces-nil : (fuel base index : ℕ) → pieces fuel base index [] ≡ []
unfolding pieces
pieces-nil zero base index = refl
pieces-nil (suc fuel) base index = refl

-- Going on at `next` is going on behind the token.
pub pieces-onward :
    (fuel base index : ℕ) (rest : Bytes) (s : Scanned)
    → IsSound rest s
    → pieces fuel base (index + s.next) (drop s.next rest)
      ≡ pieces fuel base (index + s.size) (drop s.size rest)
pieces-onward fuel base index rest s sound = elim sound.onward [
  | inl exact ↦ ap (λ n. pieces fuel base (index + n) (drop n rest)) exact
  | inr (whole, behind) ↦
      ap (pieces fuel base (index + s.next)) (drop_all s.next rest behind)
      ∙ pieces-nil fuel base (index + s.next)
      ∙ sym (pieces-nil fuel base (index + s.size))
      ∙ ap (pieces fuel base (index + s.size)) (sym (drop_all s.size rest (omega arith)))
]

-- A token of the source, in front of the tiles of what is behind it.
seen_at-Tiles :
    (base index : ℕ) (rest : Bytes) (s : Scanned) (ss : List Seen)
    → IsSound rest s
    → base + index + length rest < 2 ^ 64
    → Tiles (base + (index + s.size)) (drop s.size rest) ss
    → Tiles (base + index) rest (seen_at base index rest s ∷ ss)
seen_at-Tiles base index rest s ss sound fits t =
    let first : to_size_t (base + index) ≡ base + index = omega arith in
    let last : to_size_t (base + (index + s.size)) ≡ base + (index + s.size) =
      omega (arith, sound.bounded) in
    let exact = length-take s.size rest sound.bounded in
    piece sound.no_end (λ e. absurd (omega (arith, ap length e, sound.positive)))
      (rw first (rw last refl)) (omega arith) (sym (take-append-drop s.size rest)) t

pieces-Tiles :
    (fuel base index : ℕ) (rest : Bytes)
    → length rest ≤ fuel
    → base + index + length rest < 2 ^ 64
    → Tiles
        (base + index)
        rest
        (pieces fuel base index rest ++ end_seen (base + index + length rest) ∷ [])
unfolding pieces
pieces-Tiles zero base index [] h fits = ends (ap end_seen (omega arith))
pieces-Tiles zero base index (c ∷ cs) h fits = absurd (omega arith)
pieces-Tiles (suc fuel) base index [] h fits = ends (ap end_seen (omega arith))
pieces-Tiles (suc fuel) base index (c ∷ cs) h fits =
    let s = next_token c cs in
    let sound = next_token-IsSound c cs in
    let left = length-drop s.size (c ∷ cs) in
    let same_end : base + (index + s.size) + length (drop s.size (c ∷ cs))
        ≡ base + index + length (c ∷ cs) =
      omega (arith, sound.bounded) in
    seen_at-Tiles base index (c ∷ cs) s _ sound fits (
      rw (pieces-onward fuel base index (c ∷ cs) s sound) (
        rw (← same_end) (
          pieces-Tiles fuel base (index + s.size) (drop s.size (c ∷ cs))
            (omega (arith, sound.positive)) (omega (arith, sound.bounded)))))

keep_if_all : (ss : List Seen) → keep_if (shown true) ss ≡ ss
keep_if_all [] = refl
keep_if_all (s ∷ ss) = ap (◌∷◌ s) (keep_if_all ss)

-- With trivia kept, the lexer ends and loses nothing: the tokens it returns tile the source from its base position.
-- The table has room for the source, and the source fits the position space.
pub lex_source_at-Tiles :
    (t : SymbolTable) (source : Bytes) (base_pos : ℕ)
    → HasRoom t base_pos source
    → (ss : List Seen) × Lexes t source base_pos true ss × Tiles base_pos source ss
lex_source_at-Tiles t source base r =
    let all = pieces (length source) base 0 source ++ end_seen (base + length source) ∷ [] in
    let from_start : base + 0 ≡ base = omega arith in
    (
      all,
      subst (λ ps. Lexes t source base true (ps ++ end_seen (base + length source) ∷ []))
          (keep_if_all (pieces (length source) base 0 source)) (Lexes-pieces t source base true r),
      rw from_start at
          (pieces-Tiles (length source) base 0 source (omega arith) (omega (arith, r.positions))),
    )

-- Leaving trivia out is the same as filtering it afterwards: from any two tables with room for the source, the
-- tokens without trivia are those with trivia that are no trivia.
pub lex_source_at-trivia :
    (t u : SymbolTable) (source : Bytes) (base_pos : ℕ)
    → HasRoom t base_pos source
    → HasRoom u base_pos source
    → (ss : List Seen) × Lexes t source base_pos true ss
      × Lexes u source base_pos false (keep_if (λ s. not (is_trivia s.kind)) ss)
unfolding is_trivia
lex_source_at-trivia t u source base r v =
    let ps = pieces (length source) base 0 source in
    (
      ps ++ end_seen (base + length source) ∷ [],
      subst (λ xs. Lexes t source base true (xs ++ end_seen (base + length source) ∷ []))
          (keep_if_all ps) (Lexes-pieces t source base true r),
      subst (Lexes u source base false)
          (sym (
            keep_if-append (λ s. not (is_trivia s.kind)) ps (end_seen (base + length source) ∷ [])))
          (Lexes-pieces u source base false v),
    )
