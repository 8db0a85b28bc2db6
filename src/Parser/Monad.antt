-- ===== src/Parser/Monad.antt =====
-- compiler/cstc_parser/src/parser.cpp: the results of the parser's members and the shapes that their bodies share.
-- A member is a function from the parser to its result and the parser that it leaves.
use cicest.Prelude.{
  ℕ, zero, suc, Bool, true, false, ◌||◌, List, [], ◌∷◌, ◌++◌, some, none, ◌==◌, Bytes, bytes,
}
use cicest.Symbol.{Symbol}
use cicest.Token.{Token, TokenKind, identifier, comma}
use cicest.Parser.{
  Parser, ParseError, check, match, advance, peek, previous, token_text, make_error_here,
  make_error_token, remaining, string_contents_symbol,
}

-- `std::expected<A, ParseError>` of a member that runs on fuel, and the parser that it leaves.
pub data Parsed {ℓ} (A : Type ℓ) : Type ℓ where
  out_of_fuel : Parsed A
  failed : ParseError → Parser → Parsed A
  parsed : A → Parser → Parsed A

abbrev pub Member {ℓ} : Type ℓ → Type ℓ
Member A = Parser → Parsed A

-- The early return on an error.
unfoldable pub and_then {ℓ κ} :
    {A : Type ℓ} {B : Type κ} → Parsed A → (A → Parser → Parsed B) → Parsed B
and_then out_of_fuel f = out_of_fuel
and_then (failed e p) f = failed e p
and_then (parsed a p) f = f a p

infixl 5 ◌>>=◌ ◌>>◌
abbrev pub ◌>>=◌ {ℓ κ} : {A : Type ℓ} {B : Type κ} → Member A → (A → Member B) → Member B
◌>>=◌ m f p = and_then (m p) f

abbrev pub ◌>>◌ {ℓ κ} : {A : Type ℓ} {B : Type κ} → Member A → Member B → Member B
m >> k = m >>= λ _. k

abbrev pub pure {ℓ} : {A : Type ℓ} → A → Member A
pure a p = parsed a p

abbrev pub fail_here {ℓ} : {A : Type ℓ} → Bytes → Member A
fail_here message p = failed (make_error_here p message) p

abbrev pub fail_token {ℓ} : {A : Type ℓ} → Token → Bytes → Member A
fail_token token message p = failed (make_error_token token message) p

-- `if (test) … else …`
unfoldable pub on_test {ℓ} : {A : Type ℓ} → (Parser → Bool) → Member A → Member A → Member A
on_test test hit other p = elim (test p) [ true ↦ hit p | false ↦ other p ]

-- `if (match(kind)) … else …`, with the token that was taken.
unfoldable pub on_match {ℓ} : {A : Type ℓ} → TokenKind → (Token → Member A) → Member A → Member A
on_match kind hit other p = elim (match kind p) [ some q ↦ hit (previous q) q | none ↦ other p ]

abbrev pub previous_token : Member Token
previous_token p = parsed (previous p) p

unfoldable pub consume : TokenKind → Bytes → Member Token
consume kind message p = elim (check kind p) [
  | true ↦ parsed (previous (advance p)) (advance p)
  | false ↦ fail_here (message ++ bytes ", got `" ++ token_text p (peek p 0) ++ bytes "`") p
]

unfoldable pub consume_identifier : Bytes → Member Token
consume_identifier message p = elim (check identifier p) [
  | true ↦ parsed (previous (advance p)) (advance p)
  | false ↦ fail_here message p
]

-- `advance()`
abbrev pub take_token : Member Token
take_token p = parsed (previous (advance p)) (advance p)

unfoldable pub contents_of : Token → Member Symbol
contents_of token p = let (q, symbol) = string_contents_symbol token p in parsed symbol q

-- A loop over items that commas separate, the last of which may have one too. `item` reads one behind those so
-- far. The fuel is the number of tokens left.
unfoldable pub separated {ℓ} :
    {A : Type ℓ} → ℕ → TokenKind → (List A → Member A) → List A → Member (List A)
separated zero close item items p = out_of_fuel
separated (suc fuel) close item items p = and_then (item items p) (λ a q.
    on_match comma
      (λ _.
        on_test (check close) (pure (items ++ a ∷ []))
          (separated fuel close item (items ++ a ∷ [])))
      (pure (items ++ a ∷ [])) q)

unfoldable pub comma_list {ℓ} : {A : Type ℓ} → TokenKind → (List A → Member A) → Member (List A)
comma_list close item p = separated (remaining p) close item [] p

-- The same where there may be no item.
unfoldable pub optional_list {ℓ} : {A : Type ℓ} → TokenKind → (List A → Member A) → Member (List A)
optional_list close item = on_test (check close) (pure []) (comma_list close item)

-- `std::unordered_set::insert` refuses a symbol that is there.
unfoldable pub contains : Symbol → List Symbol → Bool
contains x [] = false
contains x (y ∷ ys) = x == y || contains x ys

-- An identifier that is not among the names so far.
unfoldable pub fresh_identifier : Bytes → Bytes → Bytes → List Symbol → Member Token
fresh_identifier message before behind seen = do
  name ← consume_identifier message
  on_test (λ _. contains name.symbol seen)
      (λ p. fail_token name (before ++ token_text p name ++ behind) p) (pure name)
