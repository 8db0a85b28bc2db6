-- ===== src/Parser/Ends.antt =====
-- What it means for a member of the parser to end, and how members that are built from others end.
use cicest.Prelude.{
  ℕ, zero, suc, ◌+◌, ◌≤◌, ◌≡◌, ◌≢◌, refl, Bool, true, false, not, List, [], ◌∷◌, ◌++◌, inl, inr,
  arith, Bytes, Bool-cases, Option-cases,
}
use cicest.Symbol.{Symbol}
use cicest.Token.{Token, TokenKind, end_of_file, identifier}
use cicest.Parser.{Parser, ParseError, remaining, check, match, previous}
use cicest.Parser.Monad.{
  Parsed, failed, parsed, Member, and_then, on_test, on_match, consume, consume_identifier,
  take_token, previous_token, contents_of, separated, comma_list, optional_list, contains,
  fresh_identifier,
}
use cicest.Parser.Cursor.{
  IsValid, Moved, stay, Moved-trans, Moved-weaken, match-Moved, advance-Moved,
  string_contents_symbol-Moved,
}

-- A member that was called on `p` returned: with an error, the cursor no further back, or with a value that is good,
-- `n` tokens or more taken.
pub data Ends {A : Type 0} (good : A → Bool) (n : ℕ) (p : Parser) : Parsed A → Type 0 where
  ends_failed : {e : ParseError} {q : Parser} → Moved 0 p q → Ends good n p (failed e q)
  ends_parsed : {a : A} {q : Parser} → Moved n p q → good a ≡ true → Ends good n p (parsed a q)

abbrev pub anything : {A : Type 0} → A → Bool
anything a = true

module _ {A : Type 0} {good : A → Bool} where
  pub gives : (p : Parser) (a : A) → IsValid p → good a ≡ true → Ends good 0 p (parsed a p)
  gives p a v g = ends_parsed (stay p v) g

  pub fails : {n : ℕ} {e : ParseError} (p : Parser) → IsValid p → Ends good n p (failed e p)
  fails p v = ends_failed (stay p v)

  behind :
      (m n : ℕ) (p q : Parser) (x : Parsed A)
      → Moved m p q
      → Ends good n q x
      → Ends good (m + n) p x
  behind m n p q _ h (ends_failed {e} {q = r} x) =
      ends_failed (Moved-weaken (m + 0) 0 p r (omega arith) (Moved-trans m 0 p q r h x))
  behind m n p q _ h (ends_parsed {a} {q = r} x g) = ends_parsed (Moved-trans m n p q r h x) g

  weaken : (m n : ℕ) (p : Parser) (x : Parsed A) → n ≤ m → Ends good m p x → Ends good n p x
  weaken m n p _ l (ends_failed x) = ends_failed x
  weaken m n p _ l (ends_parsed {a} {q = r} x g) = ends_parsed (Moved-weaken m n p r l x) g

  -- A member that is called behind a step that takes none.
  pub after :
      {n : ℕ} {p q : Parser} {x : Parsed A} → Moved 0 p q → Ends good n q x → Ends good n p x
  after {n} {p} {q} {x} h e = weaken (0 + n) n p x (omega arith) (behind 0 n p q x h e)

  pub loosen : {p : Parser} {x : Parsed A} → Ends good 1 p x → Ends good 0 p x
  loosen {p} {x} h = weaken 1 0 p x (omega arith) h

  -- A member that is called behind a token.
  pub behind_token :
      {n : ℕ} {p q : Parser} {x : Parsed A}
      → n ≤ 1
      → Moved 1 p q
      → Ends good 0 q x
      → Ends good n p x
  behind_token {n} {p} {q} {x} l h e = weaken 1 n p x l (behind 1 0 p q x h e)

pub better :
    {A : Type 0} {good best : A → Bool} {n : ℕ} {p : Parser} {x : Parsed A}
    → ((a : A) → good a ≡ true → best a ≡ true)
    → Ends good n p x
    → Ends best n p x
better h (ends_failed x) = ends_failed x
better h (ends_parsed {a} x g) = ends_parsed x (h a g)

module _ {A B : Type 0} {good : A → Bool} {best : B → Bool} where
  bind :
      (m n : ℕ) (p : Parser) (x : Parsed A) (f : A → Member B)
      → Ends good m p x
      → ((a : A) (q : Parser) → Moved m p q → good a ≡ true → Ends best n q (f a q))
      → Ends best (m + n) p (and_then x f)
  unfolding and_then
  bind m n p _ f (ends_failed x) next = ends_failed x
  bind m n p _ f (ends_parsed {a} {q} x g) next = behind m n p q (f a q) x (next a q x g)

  -- The first call takes a token,
  pub start :
      {p : Parser} {x : Parsed A} {f : A → Member B}
      → Ends good 1 p x
      → ((a : A) (q : Parser) → Moved 1 p q → good a ≡ true → Ends best 0 q (f a q))
      → Ends best 1 p (and_then x f)
  start {p} {x} {f} h next = bind 1 0 p x f h next

  -- or it need take none,
  pub next :
      {p : Parser} {x : Parsed A} {f : A → Member B}
      → Ends good 0 p x
      → ((a : A) (q : Parser) → Moved 0 p q → good a ≡ true → Ends best 0 q (f a q))
      → Ends best 0 p (and_then x f)
  next {p} {x} {f} h k = bind 0 0 p x f h k

  -- and a later call takes one.
  pub later :
      {p : Parser} {x : Parsed A} {f : A → Member B}
      → Ends good 0 p x
      → ((a : A) (q : Parser) → Moved 0 p q → good a ≡ true → Ends best 1 q (f a q))
      → Ends best 1 p (and_then x f)
  later {p} {x} {f} h k = bind 0 1 p x f h k

module _ {A : Type 0} {good : A → Bool} {n : ℕ} (p : Parser) where
  pub on_test-Ends :
      (test : Parser → Bool) (hit other : Member A)
      → (test p ≡ true → Ends good n p (hit p))
      → (test p ≡ false → Ends good n p (other p))
      → Ends good n p (on_test test hit other p)
  unfolding on_test
  on_test-Ends test hit other h k = elim (Bool-cases (test p)) [
    | inl e ↦ rw (e, on_test) (h e)
    | inr e ↦ rw (e, on_test) (k e)
  ]

  pub on_match-Ends :
      (kind : TokenKind) (hit : Token → Member A) (other : Member A)
      → IsValid p
      → kind ≢ end_of_file
      → n ≤ 1
      → ((token : Token) (q : Parser) → Moved 1 p q → Ends good 0 q (hit token q))
      → Ends good n p (other p)
      → Ends good n p (on_match kind hit other p)
  unfolding on_match
  on_match-Ends kind hit other v k l h o = elim (Option-cases (match kind p)) [
    | inl miss ↦ rw (miss, on_match) o
    | inr (q, taken) ↦
        let step = match-Moved p q kind v k taken in
        rw (taken, on_match) (behind_token l step (h (previous q) q step))
  ]

module _ (p : Parser) (v : IsValid p) where
  pub previous_token-Ends : Ends anything 0 p (previous_token p)
  previous_token-Ends = gives p _ v refl

  pub take_token-Ends :
      (kind : TokenKind)
      → check kind p ≡ true
      → kind ≢ end_of_file
      → Ends anything 1 p (take_token p)
  take_token-Ends kind hit other = ends_parsed (advance-Moved p kind v hit other) refl

  pub consume-Ends :
      (kind : TokenKind) (message : Bytes)
      → kind ≢ end_of_file
      → Ends anything 1 p (consume kind message p)
  unfolding consume
  consume-Ends kind message other = elim (Bool-cases (check kind p)) [
    | inl hit ↦ rw (hit, consume) (ends_parsed (advance-Moved p kind v hit other) refl)
    | inr miss ↦ rw (miss, consume) (fails p v)
  ]

  pub consume_identifier-Ends : (message : Bytes) → Ends anything 1 p (consume_identifier message p)
  unfolding consume_identifier
  consume_identifier-Ends message = elim (Bool-cases (check identifier p)) [
    | inl hit ↦
        rw (hit, consume_identifier)
          (ends_parsed (advance-Moved p identifier v hit (λ e. cc e)) refl)
    | inr miss ↦ rw (miss, consume_identifier) (fails p v)
  ]

  pub contents_of-Ends : (token : Token) → Ends anything 0 p (contents_of token p)
  unfolding contents_of
  contents_of-Ends token = ends_parsed (string_contents_symbol-Moved p token v) refl

  pub fresh_identifier-Ends :
      (message before after : Bytes) (seen : List Symbol)
      → Ends (λ t. not (contains t.symbol seen)) 1 p (fresh_identifier message before after seen p)
  unfolding fresh_identifier
  fresh_identifier-Ends message before after seen =
      start (consume_identifier-Ends message) (λ name q m g.
        on_test-Ends q _ _ _ (λ _. fails q m.valid)
          (λ new. gives q name m.valid (ground (arith, new))))

-- The loop over items that commas separate ends where each item takes a token and keeps the list so far good.
module _ {A : Type 0} (all_good : List A → Bool) (close : TokenKind) (item : List A → Member A)
    (bound : ℕ)
    (item-Ends : (items : List A) (q : Parser)
      → IsValid q
      → remaining q ≤ bound
      → all_good items ≡ true
      → Ends (λ a. all_good (items ++ a ∷ [])) 1 q (item items q)) where
  separated-Ends :
      (fuel : ℕ) (items : List A) (p : Parser)
      → IsValid p
      → remaining p ≤ bound
      → remaining p ≤ fuel
      → all_good items ≡ true
      → Ends all_good 1 p (separated fuel close item items p)
  unfolding separated
  separated-Ends zero items p v b h g = absurd (omega (arith, v.in_range))
  separated-Ends (suc fuel) items p v b h g = start (item-Ends items p v b g) (λ a q m k.
      on_match-Ends q _ _ _ m.valid (λ e. cc e) (omega arith)
        (λ _ r n.
          on_test-Ends r _ _ _ (λ _. gives r _ n.valid k)
            (λ _.
              loosen
                (separated-Ends fuel (items ++ a ∷ []) r n.valid (omega arith) (omega arith) k)))
        (gives q _ m.valid k))

  pub comma_list-Ends :
      (p : Parser)
      → IsValid p
      → remaining p ≤ bound
      → all_good [] ≡ true
      → Ends all_good 1 p (comma_list close item p)
  unfolding comma_list
  comma_list-Ends p v b g = separated-Ends (remaining p) [] p v b (omega arith) g

  pub optional_list-Ends :
      (p : Parser)
      → IsValid p
      → remaining p ≤ bound
      → all_good [] ≡ true
      → Ends all_good 0 p (optional_list close item p)
  unfolding optional_list
  optional_list-Ends p v b g =
      on_test-Ends p _ _ _ (λ _. gives p [] v g) (λ _. loosen (comma_list-Ends p v b g))
