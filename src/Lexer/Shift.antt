-- ===== src/Lexer/Shift.antt =====
-- Lexing at a base position, as a source map hands it out, against lexing at 0.
use cicest.Prelude.{
  subst, ℕ, zero, suc, ◌+◌, ◌<◌, ◌^◌, ◌≡◌, refl, sym, ap, ◌∙◌, Bool, List, [], ◌∷◌, ◌++◌, map,
  arith, length, length-drop, drop, keep_if, Bytes, Bool-cases, inl, inr, keep_if_pass,
  keep_if_stop,
}
use mathlib.Core.Path.{ap₂}
use mathlib.Core.List.{map-append}
use cicest.Span.{to_size_t}
use cicest.Symbol.{SymbolTable}
use cicest.Lexer.Scan.{Scanned, next_token}
use cicest.Lexer.Progress.{IsSound, next_token-IsSound}
use cicest.Lexer.Pieces.{Seen, shown, seen_at, pieces}
use cicest.Lexer.Laws.{HasRoom, Lexes, Lexes-pieces, end_seen, pieces-onward}

-- The token with its span moved on.
abbrev pub shift : ℕ → Seen → Seen
shift base s = record s { span = record { start = base + s.span.start; end = base + s.span.end } }

shift-seen_at :
    (base index : ℕ) (rest : Bytes) (s : Scanned)
    → IsSound rest s
    → base + index + length rest < 2 ^ 64
    → seen_at base index rest s ≡ shift base (seen_at 0 index rest s)
shift-seen_at base index rest s sound fits =
    let bounded = sound.bounded in
    let first : to_size_t (base + index) ≡ base + to_size_t (0 + index) = omega arith in
    let last : to_size_t (base + (index + s.size)) ≡ base + to_size_t (0 + (index + s.size)) =
      omega arith in
    cc (first, last)

pieces-shift :
    (fuel base index : ℕ) (rest : Bytes)
    → base + index + length rest < 2 ^ 64
    → pieces fuel base index rest ≡ map (shift base) (pieces fuel 0 index rest)
unfolding pieces
pieces-shift zero base index rest fits = refl
pieces-shift (suc fuel) base index [] fits = refl
pieces-shift (suc fuel) base index (c ∷ cs) fits =
    let s = next_token c cs in
    let sound = next_token-IsSound c cs in
    let left = length-drop s.size (c ∷ cs) in
    let later =
      pieces-onward fuel base index (c ∷ cs) s sound
      ∙ pieces-shift fuel base (index + s.size) (drop s.size (c ∷ cs))
          (omega (arith, sound.bounded))
      ∙ ap (map (shift base)) (sym (pieces-onward fuel 0 index (c ∷ cs) s sound)) in
    cc (shift-seen_at base index (c ∷ cs) s sound fits, later)

keep_if-shift :
    (keep : Bool) (base : ℕ) (ss : List Seen)
    → keep_if (shown keep) (map (shift base) ss) ≡ map (shift base) (keep_if (shown keep) ss)
keep_if-shift keep base [] = refl
keep_if-shift keep base (s ∷ ss) = elim (Bool-cases (shown keep s)) [
  | inl pass ↦
      keep_if_pass (shown keep) (shift base s) (map (shift base) ss) pass
      ∙ ap (◌∷◌ (shift base s)) (keep_if-shift keep base ss)
      ∙ ap (map (shift base)) (sym (keep_if_pass (shown keep) s ss pass))
  | inr stop ↦
      keep_if_stop (shown keep) (shift base s) (map (shift base) ss) stop
      ∙ keep_if-shift keep base ss
      ∙ ap (map (shift base)) (sym (keep_if_stop (shown keep) s ss stop))
]

-- The tokens of a source at a base position are those at 0 with their spans moved on by it, kinds and texts the same.
pub lex_source_at-shift :
    (t : SymbolTable) (source : Bytes) (base_pos : ℕ) (keep_trivia : Bool)
    → HasRoom t base_pos source
    → (ss : List Seen) × Lexes t source 0 keep_trivia ss
      × Lexes t source base_pos keep_trivia (map (shift base_pos) ss)
lex_source_at-shift t source base keep r =
    let n = length source in
    let at_zero : HasRoom t 0 source = record {
      valid = r.valid;
      symbols = r.symbols;
      positions = omega (arith, r.positions);
    } in
    let ps = pieces n 0 0 source in
    let end_moved : end_seen (base + n) ≡ shift base (end_seen (0 + n)) =
      ap end_seen (omega arith) in
    let kept =
      ap (keep_if (shown keep)) (pieces-shift n base 0 source (omega (arith, r.positions)))
      ∙ keep_if-shift keep base ps in
    let same =
      ap₂ (λ xs e. xs ++ e ∷ []) kept end_moved
      ∙ sym (map-append (shift base) (keep_if (shown keep) ps) (end_seen (0 + n) ∷ [])) in
    (
      keep_if (shown keep) ps ++ end_seen (0 + n) ∷ [],
      Lexes-pieces t source 0 keep at_zero,
      subst (Lexes t source base keep) same (Lexes-pieces t source base keep r),
    )
