-- ===== src/Parser/ProgramEnd.antt =====
-- Programs end, from tokens and from source text.
use cicest.Prelude.{
  ℕ, zero, suc, ◌≤◌, ◌≡◌, ◌≢◌, refl, Bool, true, false, not, List, [], ◌∷◌, ◌++◌, Option, some, inl,
  inr, arith, Bytes, keep_if, Bool-cases,
}
use cicest.Symbol.{Symbol, SymbolTable}
use cicest.Token.{Token, TokenKind, end_of_file, is_trivia, kw_pub, kw_runtime, kw_extern}
use cicest.Ast.Items.{Attribute, Item, Program}
use cicest.Parser.{Parser, ParseWarning, new_parser, remaining, check, is_at_end}
use cicest.Lexer.{Lexed, lex_source_at}
use cicest.Lexer.Laws.{HasRoom, Lexes-pieces}
use cicest.Parser.Monad.{Member, Parsed, out_of_fuel, failed, parsed, on_test, and_then}
use cicest.Parser.Cursor.{IsValid, new_parser-IsValid}
use cicest.Parser.ItemsEnd.{
  parse_struct_decl-Ends, parse_enum_decl-Ends, parse_fn_decl-Ends, parse_extern_fn_decl-Ends,
  parse_extern_struct_decl-Ends,
}
use cicest.Parser.Program.{
  parse_attributes, optional_keyword, extern_item, parse_extern_decl, item_body, parse_item,
  items_loop, parse_program, parse_tokens, parse_source_at,
}
use cicest.Parser.Ends.{
  Ends, anything, gives, fails, loosen, start, next, later, on_test-Ends, on_match-Ends,
  take_token-Ends, contents_of-Ends,
}
use cicest.Parser.WellFormed.{item_ok, items_ok, items_ok-append}
use cicest.Parser.AttributesEnd.{attributes_loop-Ends, parse_import_decl-Ends}

optional_keyword-Ends :
    (kind : TokenKind) (p : Parser)
    → IsValid p
    → kind ≢ end_of_file
    → Ends anything 0 p (optional_keyword kind p)
unfolding optional_keyword
optional_keyword-Ends kind p v other =
    on_match-Ends p _ _ _ v other (omega arith) (λ _ q m. gives q _ m.valid refl) (gives p _ v refl)

module _ (attributes : List Attribute) (visibility runtime : Option Token) where
  extern_item-Ends :
      (lead_token : Token) (abi : Symbol) (p : Parser)
      → IsValid p
      → Ends item_ok 0 p (extern_item attributes visibility runtime lead_token abi p)
  unfolding extern_item item_ok
  extern_item-Ends lead_token abi p v =
      on_match-Ends p _ _ _ v (λ e. cc e) (omega arith)
        (λ _ q m.
          next (loosen (parse_extern_fn_decl-Ends lead_token attributes _ abi _ q m.valid))
            (λ decl r n g. gives r _ n.valid g))
        (on_match-Ends p _ _ _ v (λ e. cc e) (omega arith)
          (λ _ q m.
            on_test-Ends q _ _ _ (λ _. fails q m.valid)
              (λ _.
                next (loosen (parse_extern_struct_decl-Ends lead_token attributes _ abi q m.valid))
                  (λ decl r n g. gives r _ n.valid g)))
          (on_test-Ends p _ _ _ (λ _. fails p v) (λ _. fails p v)))

  parse_extern_decl-Ends :
      (lead_token : Token) (p : Parser)
      → IsValid p
      → check kw_extern p ≡ true
      → Ends item_ok 1 p (parse_extern_decl attributes visibility runtime lead_token p)
  unfolding parse_extern_decl
  parse_extern_decl-Ends lead_token p v here =
      start (take_token-Ends p v kw_extern here (λ e. cc e)) (λ _ q m _.
        on_match-Ends q _ _ _ m.valid (λ e. cc e) (omega arith)
          (λ abi_token r n.
            next (contents_of-Ends r n.valid abi_token)
              (λ abi s o _. extern_item-Ends lead_token abi s o.valid))
          (fails q m.valid))

  item_body-Ends :
      (p : Parser) → IsValid p → Ends item_ok 1 p (item_body attributes visibility runtime p)
  unfolding item_body item_ok
  item_body-Ends p v =
      on_match-Ends p _ _ _ v (λ e. cc e) (omega arith)
        (λ _ q m.
          next (loosen (parse_struct_decl-Ends _ attributes _ q m.valid))
            (λ decl r n g. gives r _ n.valid g))
        (on_match-Ends p _ _ _ v (λ e. cc e) (omega arith)
          (λ _ q m.
            next (loosen (parse_enum_decl-Ends _ attributes _ q m.valid))
              (λ decl r n g. gives r _ n.valid g))
          (on_match-Ends p _ _ _ v (λ e. cc e) (omega arith)
            (λ _ q m.
              next (loosen (parse_fn_decl-Ends _ attributes _ _ q m.valid))
                (λ decl r n g. gives r _ n.valid g))
            (on_test-Ends p _ _ _ (λ here. parse_extern_decl-Ends _ p v here)
              (λ _.
                on_match-Ends p _ _ _ v (λ e. cc e) (omega arith)
                  (λ _ q m.
                    on_test-Ends q _ _ _ (λ _. fails q m.valid)
                      (λ _.
                        next (loosen (parse_import_decl-Ends _ _ q m.valid))
                          (λ decl r n g. gives r _ n.valid g)))
                  (on_test-Ends p _ _ _ (λ _. fails p v)
                    (λ _. on_test-Ends p _ _ _ (λ _. fails p v) (λ _. fails p v)))))))

-- `parse_item` ends: in an error, or in a well-formed item, one token or more taken.
parse_item-Ends : (p : Parser) → IsValid p → Ends item_ok 1 p (parse_item p)
unfolding parse_item parse_attributes
parse_item-Ends p v =
    later (attributes_loop-Ends (remaining p) [] p v (omega arith)) (λ attributes q m _.
      later (optional_keyword-Ends kw_pub q m.valid (λ e. cc e)) (λ visibility r n _.
        later (optional_keyword-Ends kw_runtime r n.valid (λ e. cc e)) (λ runtime s o _.
          on_test-Ends s _ _ _ (λ _. fails s o.valid)
            (λ _. item_body-Ends attributes visibility runtime s o.valid))))

items_ok-grown :
    (is : List Item) (i : Item)
    → items_ok is ≡ true
    → item_ok i ≡ true
    → items_ok (is ++ i ∷ []) ≡ true
items_ok-grown is i g h = ground (arith, items_ok-append is i, g, h)

items_loop-Ends :
    (fuel : ℕ) (items : List Item) (p : Parser)
    → IsValid p
    → remaining p ≤ fuel
    → items_ok items ≡ true
    → Ends items_ok 0 p (items_loop fuel items p)
unfolding items_loop
items_loop-Ends zero items p v f g = absurd (omega (arith, v.in_range))
items_loop-Ends (suc fuel) items p v f g =
    on_test-Ends p _ _ _ (λ _. gives p items v g)
      (λ _. loosen (
        start (parse_item-Ends p v) (λ item q m h.
          items_loop-Ends fuel _ q m.valid (omega arith) (items_ok-grown items item g h))))

abbrev pub program_ok : Program → Bool
program_ok program = items_ok program.items

pub parse_program-Ends : (p : Parser) → IsValid p → Ends program_ok 0 p (parse_program p)
unfolding parse_program items_ok
parse_program-Ends p v =
    next (items_loop-Ends (remaining p) [] p v (omega arith) refl)
      (λ items q m g. gives q _ m.valid g)

-- The parser ends on any tokens, trivia among them or not, closed by an end of file or not: in an error or in a
-- program, the cursor on the tokens without trivia still. In every item of an accepted program but its imports, the names
-- that one declaration or initializer declares are distinct (an import may name an item twice), a `const` stands only at the top level of the type of a function's
-- parameter or of a `let`, and no type is both `runtime` and `const`. Where
-- the text of a string token is empty the code throws instead, which `thrown` records.
pub parse_tokens-Ends :
    (table : SymbolTable) (tokens : List Token) (warnings : Option (List ParseWarning))
    → Ends program_ok 0
        (new_parser (keep_if (λ t. not (is_trivia t.kind)) tokens) warnings table)
        (parse_tokens table tokens warnings)
unfolding parse_tokens
parse_tokens-Ends table tokens warnings =
    parse_program-Ends _
      (new_parser-IsValid (keep_if (λ t. not (is_trivia t.kind)) tokens) warnings table)

-- The lexer hands over its tokens, and on those the parser ends.
abbrev pub ParsesSource : SymbolTable → Bytes → ℕ → Option (List ParseWarning) → Type 0
ParsesSource table source base_pos warnings =
    (out : Lexed) × (result : Parsed Program) × (lex_source_at table source base_pos false
      ≡ some out)
    × (parse_source_at table source base_pos warnings ≡ some result)
    × Ends program_ok 0
        (new_parser (keep_if (λ t. not (is_trivia t.kind)) out.tokens) warnings out.table) result

from_lexed :
    (table : SymbolTable) (source : Bytes) (base_pos : ℕ) (warnings : Option (List ParseWarning))
    (out : Lexed)
    → lex_source_at table source base_pos false ≡ some out
    → ParsesSource table source base_pos warnings
unfolding parse_source_at
from_lexed table source base_pos warnings out lexed = (
  out,
  parse_tokens out.table out.tokens warnings,
  lexed,
  rw (lexed, parse_source_at) refl,
  parse_tokens-Ends out.table out.tokens warnings,
)

-- For sources that the table and the positions have room for, `parse_source_at` ends: the lexer hands over its tokens,
-- and on those the parser returns an error or a program as `parse_tokens` does.
pub parse_source_at-Ends :
    (table : SymbolTable) (source : Bytes) (base_pos : ℕ) (warnings : Option (List ParseWarning))
    → HasRoom table base_pos source
    → ParsesSource table source base_pos warnings
parse_source_at-Ends table source base_pos warnings room =
    let (out, lexed, seen) = Lexes-pieces table source base_pos false room in
    from_lexed table source base_pos warnings out lexed

-- What a chain returns, its last call returned.
and_then-returned :
    {A B : Type 0} (goal : Parser → Type 0) (x : Parsed A) (f : A → Member B) (b : B) (q : Parser)
    → ((a : A) (r : Parser) → x ≡ parsed a r → f a r ≡ parsed b q → goal q)
    → and_then x f ≡ parsed b q
    → goal q
unfolding and_then
and_then-returned goal out_of_fuel f b q next h = absurd (cc h)
and_then-returned goal (failed e r) f b q next h = absurd (cc h)
and_then-returned goal (parsed a r) f b q next h = next a r refl h

abbrev pub AtEnd : Parser → Type 0
AtEnd q = is_at_end q ≡ true

-- The loop over the items leaves only at the end of file.
items_loop-AtEnd :
    (fuel : ℕ) (items all : List Item) (p q : Parser)
    → items_loop fuel items p ≡ parsed all q
    → AtEnd q
unfolding items_loop on_test
items_loop-AtEnd zero items all p q h = absurd (cc h)
items_loop-AtEnd (suc fuel) items all p q h = elim (Bool-cases (is_at_end p)) [
  | inl end ↦ cc (end, rw (end, items_loop, on_test) at h)
  | inr more ↦
      and_then-returned AtEnd (parse_item p) _ all q
        (λ item r _ k. items_loop-AtEnd fuel (items ++ item ∷ []) all r q k)
        (rw (more, items_loop, on_test) at h)
]

-- A program is accepted only whole: where `parse_tokens` returns one, the cursor stands at the end of file.
pub parse_tokens-AtEnd :
    (table : SymbolTable) (tokens : List Token) (warnings : Option (List ParseWarning))
    (program : Program) (q : Parser)
    → parse_tokens table tokens warnings ≡ parsed program q
    → AtEnd q
unfolding parse_tokens parse_program
parse_tokens-AtEnd table tokens warnings program q h =
    let p = new_parser (keep_if (λ t. not (is_trivia t.kind)) tokens) warnings table in
    and_then-returned AtEnd (items_loop (remaining p) [] p) _ program q
      (λ items r ended k. cc (items_loop-AtEnd (remaining p) [] items p r ended, k)) h
