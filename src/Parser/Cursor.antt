-- ===== src/Parser/Cursor.antt =====
-- The parser's cursor stays on its tokens, and each token that is taken moves it on.
use cicest.Prelude.{
  ℕ, ◌+◌, ◌-◌, ◌≤◌, ◌<◌, ◌≡◌, ◌≢◌, refl, sym, ap, ◌∙◌, subst, true, false, List, [], ◌∷◌, ◌++◌,
  Option, some, some_inj, inl, inr, arith, leb, length, get_or, Bytes, Bool-cases, length-append,
  get_or-get_elem?, get_elem?-concat_length,
}
use cicest.Span.{SourceSpan}
use cicest.Symbol.{SymbolTable}
use cicest.Token.{Token, TokenKind, TokenKind-discrete, end_of_file, identifier}
use cicest.Parser.{
  Parser, ParseWarning, remaining, string_contents_symbol, intern_text, decided, kind_is, back,
  peek, check, advance, is_at_end, match, match_contextual_keyword, check_contextual_keyword,
  emit_warning, end_token, new_parser,
}

-- The tokens end with the end of file, and the cursor is on one of them.
pub record IsValid (p : Parser) : Type 0 where
  pub ended : (back p.tokens).kind ≡ end_of_file
  pub in_range : p.cursor < length p.tokens

-- `q` is `p` with `n` tokens or more taken.
pub record Moved (n : ℕ) (p q : Parser) : Type 0 where
  pub same_tokens : q.tokens ≡ p.tokens
  pub valid : IsValid q
  pub onward : p.cursor + n ≤ q.cursor
  pub less : remaining q + n ≤ remaining p

moved :
    (n : ℕ) (p q : Parser) → q.tokens ≡ p.tokens → IsValid q → p.cursor + n ≤ q.cursor → Moved n p q
moved n p q same v h = record {
  same_tokens = same;
  valid = v;
  onward = h;
  less = omega (arith, ap length same, v.in_range);
}

pub stay : (p : Parser) → IsValid p → Moved 0 p p
stay p v = moved 0 p p refl v (omega arith)

pub Moved-trans : (m n : ℕ) (p q r : Parser) → Moved m p q → Moved n q r → Moved (m + n) p r
Moved-trans m n p q r h g =
    moved (m + n) p r (g.same_tokens ∙ h.same_tokens) g.valid (omega (arith, h.onward, g.onward))

pub Moved-weaken : (m n : ℕ) (p q : Parser) → n ≤ m → Moved m p q → Moved n p q
Moved-weaken m n p q l h = moved n p q h.same_tokens h.valid (omega (arith, h.onward))

decided_sound {ℓ} : {A : Type ℓ} (d : Dec A) → decided d ≡ true → A
decided_sound (yes a) h = a
decided_sound (no na) h = cc

pub kind_is_sound : (a b : TokenKind) → kind_is a b ≡ true → a ≡ b
unfolding kind_is
kind_is_sound a b h = decided_sound (TokenKind-discrete a b) h

peek_here : (p : Parser) → IsValid p → peek p 0 ≡ get_or p.tokens p.cursor (end_token 0)
unfolding peek
peek_here p v =
    let index : p.cursor + 0 ≡ p.cursor = omega arith in
    let inside : leb (length p.tokens) p.cursor ≡ false = ground (arith, v.in_range) in
    rw index (rw inside refl)

-- A token of another kind than the end of file is not the last one.
before_end :
    (p : Parser) → IsValid p → (peek p 0).kind ≢ end_of_file → p.cursor + 1 < length p.tokens
unfolding back
before_end p v other = elim (Bool-cases (leb (length p.tokens) (p.cursor + 1))) [
  | inl last ↦
      let at_last : p.cursor ≡ length p.tokens - 1 = ground (arith, v.in_range) in
      absurd (
        other (
          ap (λ t. t.kind) (peek_here p v ∙ ap (λ i. get_or p.tokens i (end_token 0)) at_last)
          ∙ v.ended))
  | inr more ↦ ground arith
]

pub advance-Moved :
    (p : Parser) (k : TokenKind)
    → IsValid p
    → check k p ≡ true
    → k ≢ end_of_file
    → Moved 1 p (advance p)
unfolding check advance is_at_end back
advance-Moved p k v h other =
    let at_k : (peek p 0).kind ≡ k = kind_is_sound (peek p 0).kind k h in
    elim (Bool-cases (kind_is (peek p 0).kind end_of_file)) [
      | inl end ↦ absurd (other (sym at_k ∙ kind_is_sound (peek p 0).kind end_of_file end))
      | inr more ↦ rw more (
          moved 1 p _ refl
            (record { ended = v.ended; in_range = before_end p v (λ e. other (sym at_k ∙ e)) })
            (omega arith))
    ]

pub match-Moved :
    (p q : Parser) (k : TokenKind) → IsValid p → k ≢ end_of_file → match k p ≡ some q → Moved 1 p q
unfolding match
match-Moved p q k v other h = elim (Bool-cases (check k p)) [
  | inl hit ↦ subst (Moved 1 p) (some_inj (rw hit at h)) (advance-Moved p k v hit other)
  | inr miss ↦ absurd (cc (rw miss at h))
]

pub match_contextual_keyword-Moved :
    (p q : Parser) (word : Bytes)
    → IsValid p
    → match_contextual_keyword word p ≡ some q
    → Moved 1 p q
unfolding match_contextual_keyword check_contextual_keyword
match_contextual_keyword-Moved p q word v h = elim (Bool-cases (check_contextual_keyword word p)) [
  | inl hit ↦
      let named : check identifier p ≡ true = ground (arith, hit) in
      subst (Moved 1 p) (some_inj (rw hit at h)) (advance-Moved p identifier v named (λ e. cc e))
  | inr miss ↦ absurd (cc (rw miss at h))
]

pub emit_warning-Moved :
    (p : Parser) (span : SourceSpan) (message : Bytes)
    → IsValid p
    → Moved 0 p (emit_warning span message p)
unfolding emit_warning back
emit_warning-Moved p span message v =
    moved 0 p _ refl (record { ended = v.ended; in_range = v.in_range }) (omega arith)

pub string_contents_symbol-Moved :
    (p : Parser) (token : Token) → IsValid p → Moved 0 p (string_contents_symbol token p).0
unfolding string_contents_symbol intern_text back
string_contents_symbol-Moved p token v =
    moved 0 p _ refl (record { ended = v.ended; in_range = v.in_range }) (omega arith)

pub intern_text-Moved : (p : Parser) (text : Bytes) → IsValid p → Moved 0 p (intern_text text p).0
unfolding intern_text back
intern_text-Moved p text v =
    moved 0 p _ refl (record { ended = v.ended; in_range = v.in_range }) (omega arith)

back-concat : (ts : List Token) (t : Token) → back (ts ++ t ∷ []) ≡ t
unfolding back
back-concat ts t =
    let last : length (ts ++ t ∷ []) - 1 ≡ length ts = omega (arith, length-append ts (t ∷ [])) in
    rw last
      (get_or-get_elem? (ts ++ t ∷ []) (length ts) (end_token 0) (get_elem?-concat_length ts t))

-- A new parser's tokens end with the end of file and its cursor is on one of them, whatever tokens it is given.
pub new_parser-IsValid :
    (ts : List Token) (warnings : Option (List ParseWarning)) (table : SymbolTable)
    → IsValid (new_parser ts warnings table)
unfolding new_parser
new_parser-IsValid [] w table = record { ended = unfold back in refl; in_range = omega arith }
new_parser-IsValid (t ∷ ts) w table = elim (Bool-cases (kind_is (back (t ∷ ts)).kind end_of_file)) [
  | inl closed ↦ rw closed (record {
    ended = kind_is_sound (back (t ∷ ts)).kind end_of_file closed;
    in_range = omega arith;
  })
  | inr unclosed ↦ rw unclosed (record {
    ended = ap (λ x. x.kind) (back-concat (t ∷ ts) (end_token (back (t ∷ ts)).span.end));
    in_range = omega arith;
  })
]

decided_complete {ℓ} : {A : Type ℓ} (d : Dec A) → A → decided d ≡ true
decided_complete (yes a) b = refl
decided_complete (no na) b = absurd (na b)

pub kind_is_refl : (k : TokenKind) → kind_is k k ≡ true
unfolding kind_is
kind_is_refl k = decided_complete (TokenKind-discrete k k) refl

pub advance-Moved_any :
    (p : Parser) → IsValid p → (peek p 0).kind ≢ end_of_file → Moved 1 p (advance p)
advance-Moved_any p v other =
    advance-Moved p (peek p 0).kind v (unfold check in kind_is_refl (peek p 0).kind) other
