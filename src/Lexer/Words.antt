-- ===== src/Lexer/Words.antt =====
-- Sources of one token: words, and comments with no end.
use cicest.Prelude.{
  ℕ, suc, ◌+◌, ◌≡◌, ◌≢◌, refl, ap, ◌∙◌, subst, Bool, true, false, ◌&&◌, List, [], ◌∷◌, ◌++◌, some,
  inl, inr, arith, length, drop_all, take_all, keep_if, keep_if_pass, All, Bytes, bytes_eq, ◌==◌,
  Bool-cases, Option-cases,
}
use cicest.Span.{to_size_t}
use cicest.Symbol.{SymbolTable}
use cicest.Token.{TokenKind, unknown, is_trivia}
use cicest.Lexer.Chars.{
  is_space, is_ident_start, is_ident_continue, keyword_kind, keyword_table, find_keyword,
}
use cicest.Lexer.Scan.{
  next_token, scan_word, scan_block_comment, count_while, block_end, plain, broken,
}
use cicest.Lexer.Progress.{next_token-IsSound}
use cicest.Lexer.Pieces.{Seen, shown, pieces}
use cicest.Lexer.Laws.{HasRoom, Lexes, Lexes-pieces, end_seen, pieces-onward, pieces-nil}

-- A token that is the whole source.
abbrev pub whole : ℕ → Bytes → TokenKind → Seen
whole base_pos source kind = record {
  kind = kind;
  span = record { start = base_pos; end = base_pos + length source };
  text = source;
}

pieces-whole :
    (t : SymbolTable) (base : ℕ) (c : ℕ) (cs : Bytes)
    → HasRoom t base (c ∷ cs)
    → (next_token c cs).size ≡ length (c ∷ cs)
    → pieces (length (c ∷ cs)) base 0 (c ∷ cs) ≡ whole base (c ∷ cs) (next_token c cs).kind ∷ []
unfolding pieces
pieces-whole t base c cs r all =
    let s = next_token c cs in
    let sound = next_token-IsSound c cs in
    let positions = r.positions in
    let first : to_size_t (base + 0) ≡ base = omega arith in
    let last : to_size_t (base + (0 + s.size)) ≡ base + length (c ∷ cs) = omega arith in
    let rest =
      pieces-onward (length cs) base 0 (c ∷ cs) s sound
      ∙ ap (pieces (length cs) base (0 + s.size)) (drop_all s.size (c ∷ cs) (omega arith))
      ∙ pieces-nil (length cs) base (0 + s.size) in
    cc (first, last, rest, take_all s.size (c ∷ cs) all)

Lexes-whole :
    (t : SymbolTable) (base : ℕ) (keep : Bool) (c : ℕ) (cs : Bytes)
    → HasRoom t base (c ∷ cs)
    → (next_token c cs).size ≡ length (c ∷ cs)
    → is_trivia (next_token c cs).kind ≡ false
    → Lexes t
        (c ∷ cs)
        base
        keep
        (whole base (c ∷ cs) (next_token c cs).kind ∷ end_seen (base + length (c ∷ cs)) ∷ [])
Lexes-whole t base keep c cs r all visible =
    let token = whole base (c ∷ cs) (next_token c cs).kind in
    subst (λ ps. Lexes t (c ∷ cs) base keep (ps ++ end_seen (base + length (c ∷ cs)) ∷ []))
      (ap (keep_if (shown keep)) (pieces-whole t base c cs r all)
        ∙ keep_if_pass (shown keep) token [] (ground arith))
      (Lexes-pieces t (c ∷ cs) base keep r)

count_while-All :
    (p : ℕ → Bool) (cs : Bytes) → All (λ c. p c ≡ true) cs → count_while p cs ≡ length cs
unfolding count_while
count_while-All p [] h = refl
count_while-All p (c ∷ cs) (h, t) = ground (arith, count_while-All p cs t)

find_keyword-visible :
    (table : List (Bytes × TokenKind)) (text : Bytes)
    → All (λ w. is_trivia w.1 ≡ false) table
    → is_trivia (find_keyword table text) ≡ false
unfolding find_keyword is_trivia
find_keyword-visible [] text h = refl
find_keyword-visible ((word, kind) ∷ table) text (h, t) = elim (Bool-cases (bytes_eq text word)) [
  | inl hit ↦ rw hit h
  | inr miss ↦ rw miss (find_keyword-visible table text t)
]

keyword_kind-visible : (text : Bytes) → is_trivia (keyword_kind text) ≡ false
unfolding keyword_kind is_trivia
keyword_kind-visible text = find_keyword-visible keyword_table text (ground arith)

word_start : (c : ℕ) → is_ident_start c ≡ true → (is_space c ≡ false) × ((c == b'/') ≡ false)
unfolding is_ident_start is_space
word_start c h = ground arith

next_token-word : (c : ℕ) (cs : Bytes) → is_ident_start c ≡ true → next_token c cs ≡ scan_word c cs
unfolding next_token
next_token-word c cs h =
    let (not_space, not_slash) = word_start c h in rw not_space (rw not_slash (rw h refl))

scan_word-All :
    (c : ℕ) (cs : Bytes)
    → All (λ d. is_ident_continue d ≡ true) cs
    → scan_word c cs ≡ plain (keyword_kind (c ∷ cs)) (length (c ∷ cs))
unfolding scan_word
scan_word-All c cs h =
    let n = count_while-All is_ident_continue cs h in
    rw n (
      ap (λ w. plain (keyword_kind w) (length (c ∷ cs))) (take_all (length (c ∷ cs)) (c ∷ cs) refl))

-- A letter or underscore and any letters, digits and underscores behind it are one token, with the kind that
-- `keyword_kind` gives the word.
pub lex_source_at_word :
    (t : SymbolTable) (base_pos : ℕ) (keep_trivia : Bool) (c : ℕ) (cs : Bytes)
    → is_ident_start c ≡ true
    → All (λ d. is_ident_continue d ≡ true) cs
    → HasRoom t base_pos (c ∷ cs)
    → Lexes t (c ∷ cs) base_pos keep_trivia (
        whole base_pos (c ∷ cs) (keyword_kind (c ∷ cs))
        ∷ end_seen (base_pos + length (c ∷ cs))
        ∷ [])
lex_source_at_word t base keep c cs h k r =
    let word = next_token-word c cs h ∙ scan_word-All c cs k in
    subst
      (λ kind.
        Lexes t (c ∷ cs) base keep
          (whole base (c ∷ cs) kind ∷ end_seen (base + length (c ∷ cs)) ∷ []))
      (ap (λ s. s.kind) word)
      (Lexes-whole t base keep c cs r (ap (λ s. s.size) word)
        (rw word (keyword_kind-visible (c ∷ cs))))

block_end_occurs :
    (cs : Bytes) (n : ℕ) → block_end cs ≡ some n → (a b : Bytes) × (cs ≡ a ++ (b'*' ∷ b'/' ∷ b))
unfolding block_end
block_end_occurs [] n h = cc
block_end_occurs (c ∷ []) n h = absurd (ground arith)
block_end_occurs (c ∷ d ∷ cs) n h = elim (Bool-cases (c == b'*' && d == b'/')) [
  | inl here ↦ ([], cs, ground arith)
  | inr later ↦ elim (Option-cases (block_end (d ∷ cs))) [
    | inl nowhere ↦ absurd (ground arith)
    | inr (m, found) ↦
        let (a, b, same) = block_end_occurs (d ∷ cs) m found in (c ∷ a, b, ap (◌∷◌ c) same)
  ]
]

comment_step :
    (cs : Bytes)
    → ((a b : Bytes) → cs ≢ a ++ (b'*' ∷ b'/' ∷ b))
    → next_token b'/' (b'*' ∷ cs) ≡ broken (suc (suc (length cs))) (suc (suc (length cs)))
unfolding next_token is_space scan_block_comment
comment_step cs never = elim (Option-cases (block_end cs)) [
  | inl nowhere ↦ rw (nowhere, scan_block_comment)
  | inr (n, found) ↦ let (a, b, same) = block_end_occurs cs n found in absurd (never a b same)
]

-- A block comment with no `*/` behind its `/*` is one `Unknown` token up to the end of the source, also where
-- trivia is left out.
pub lex_source_at_unterminated :
    (t : SymbolTable) (base_pos : ℕ) (keep_trivia : Bool) (cs : Bytes)
    → ((a b : Bytes) → cs ≢ a ++ (b'*' ∷ b'/' ∷ b))
    → HasRoom t base_pos (b'/' ∷ b'*' ∷ cs)
    → Lexes t (b'/' ∷ b'*' ∷ cs) base_pos keep_trivia (
        whole base_pos (b'/' ∷ b'*' ∷ cs) unknown
        ∷ end_seen (base_pos + length (b'/' ∷ b'*' ∷ cs))
        ∷ [])
lex_source_at_unterminated t base keep cs never r =
    let source = b'/' ∷ b'*' ∷ cs in
    let step = comment_step cs never in
    subst
      (λ kind.
        Lexes t source base keep (whole base source kind ∷ end_seen (base + length source) ∷ []))
      (ap (λ s. s.kind) step)
      (Lexes-whole t base keep b'/' (b'*' ∷ cs) r (ap (λ s. s.size) step)
        (rw step (unfold is_trivia in refl)))
