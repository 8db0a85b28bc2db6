-- ===== src/Parser/Program.antt =====
-- compiler/cstc_parser/src/parser.cpp: attributes, imports, items and whole programs.
use cicest.Prelude.{
  ℕ, zero, suc, Bool, true, false, not, ◌&&◌, List, [], ◌∷◌, ◌++◌, Option, none, some, keep_if,
  Bytes, bytes,
}
use cicest.Span.{merge}
use cicest.Symbol.{Symbol, SymbolTable}
use cicest.Token.{
  Token, TokenKind, is_trivia, semicolon, assign, star, string, l_brace, r_brace, l_bracket,
  r_bracket, kw_as, kw_from, kw_pub, kw_runtime, kw_struct, kw_enum, kw_fn, kw_extern, kw_import,
}
use cicest.Ast.Items.{
  Attribute, ImportItem, ImportDecl, Item, of_struct, of_enum, of_fn, of_extern_fn,
  of_extern_struct, of_import, Program,
}
use cicest.Lexer.{lex_source_at}
use cicest.Parser.{ParseWarning, new_parser, peek, check, is_at_end, remaining}
use cicest.Parser.Lookahead.{check_attribute_start}
use cicest.Parser.Monad.{
  Parsed, out_of_fuel, Member, ◌>>=◌, ◌>>◌, pure, fail_here, fail_token, on_test, on_match, consume,
  consume_identifier, take_token, contents_of, optional_list,
}
use cicest.Parser.Items.{
  item_lead_span, parse_struct_decl, parse_enum_decl, parse_fn_decl, parse_extern_fn_decl,
  parse_extern_struct_decl,
}

unfoldable pub attribute_value : Member (Option Symbol)
attribute_value =
    on_match assign
      (λ _. do
        value ← consume string (bytes "expected string literal after `=` in attribute")
        symbol ← contents_of value
        pure (some symbol))
      (pure none)

unfoldable pub parse_attribute : Member Attribute
parse_attribute = do
  open_0 ← consume l_bracket (bytes "expected `[[` to start attribute")
  consume l_bracket (bytes "expected `[[` to start attribute")
  name ← consume_identifier (bytes "expected attribute name")
  value ← attribute_value
  consume r_bracket (bytes "expected `]]` to close attribute")
  close_1 ← consume r_bracket (bytes "expected `]]` to close attribute")
  pure (record { name = name.symbol; value = value; span = merge open_0.span close_1.span })

-- The loop of `parse_attributes`.
unfoldable pub attributes_loop : ℕ → List Attribute → Member (List Attribute)
attributes_loop zero attributes p = out_of_fuel
attributes_loop (suc fuel) attributes p =
    on_test (check l_bracket)
      (on_test check_attribute_start
        (do attribute ← parse_attribute; attributes_loop fuel (attributes ++ attribute ∷ []))
        (fail_here (bytes "expected second `[` to start attribute")))
      (pure attributes) p

unfoldable pub parse_attributes : Member (List Attribute)
parse_attributes p = attributes_loop (remaining p) [] p

unfoldable pub import_item : List ImportItem → Member ImportItem
import_item seen = do
  name ← consume_identifier (bytes "expected imported item name")
  on_match kw_as
      (λ _. do
        alias ← consume_identifier (bytes "expected alias name after `as`")
        pure (record {
          name = name.symbol;
          alias = some alias.symbol;
          span = merge name.span alias.span;
        }))
      (pure (record { name = name.symbol; alias = none; span = name.span }))

unfoldable pub parse_import_decl : Token → Bool → Member ImportDecl
parse_import_decl lead_token is_public = do
  consume l_brace (bytes "expected `{` after `import`")
  on_test (check star) (fail_here (bytes "`import *` is not supported")) (do
    items ← optional_list r_brace import_item
    consume r_brace (bytes "expected `}` after import item list")
    consume kw_from (bytes "expected `from` after import item list")
    path ← consume string (bytes "expected import path string after `from`")
    semi ← consume semicolon (bytes "expected `;` after import declaration")
    contents ← contents_of path
    pure (record {
      is_public = is_public;
      items = items;
      path = contents;
      span = merge (item_lead_span [] lead_token) semi.span;
    }))

-- The token that an item's span starts at: `pub`, else `runtime`, else its own keyword.
abbrev lead : Option Token → Option Token → Token → Token
lead (some visibility) runtime keyword = visibility
lead none (some runtime) keyword = runtime
lead none none keyword = keyword

abbrev is_some : Option Token → Bool
is_some none = false
is_some (some t) = true

abbrev is_empty : List Attribute → Bool
is_empty [] = true
is_empty (a ∷ attributes) = false

-- A keyword that may stand in front.
unfoldable pub optional_keyword : TokenKind → Member (Option Token)
optional_keyword kind = on_match kind (λ token. pure (some token)) (pure none)

module _ (attributes : List Attribute) (visibility runtime : Option Token) where
  -- `parse_extern_decl` behind the `extern` and the ABI string.
  unfoldable pub extern_item : Token → Symbol → Member Item
  extern_item lead_token abi =
      on_match kw_fn
        (λ _. do
          decl ←
              parse_extern_fn_decl lead_token abi attributes (is_some visibility) (is_some runtime)
          pure (of_extern_fn decl))
        (on_match kw_struct
          (λ keyword.
            on_test (λ _. is_some runtime)
              (fail_token keyword (bytes "expected `fn` after `runtime extern` ABI string"))
              (do
                decl ← parse_extern_struct_decl lead_token abi attributes (is_some visibility)
                pure (of_extern_struct decl)))
          (on_test (λ _. is_some runtime)
            (fail_here (bytes "expected `fn` after `runtime extern` ABI string"))
            (fail_here (bytes "expected `fn` or `struct` after extern ABI string"))))

  unfoldable pub parse_extern_decl : Token → Member Item
  parse_extern_decl lead_token = do
    take_token
    on_match string (λ abi_token. contents_of abi_token >>= extern_item lead_token)
        (fail_here (bytes "expected ABI string after `extern` (e.g. `\"lang\"`)"))

  -- `parse_item` behind the keywords in front.
  unfoldable pub item_body : Member Item
  item_body =
      on_match kw_struct
        (λ keyword. do
          decl ← parse_struct_decl (lead visibility none keyword) attributes (is_some visibility)
          pure (of_struct decl))
        (on_match kw_enum
          (λ keyword. do
            decl ← parse_enum_decl (lead visibility none keyword) attributes (is_some visibility)
            pure (of_enum decl))
          (on_match kw_fn
            (λ keyword. do
              decl ←
                  parse_fn_decl (lead visibility runtime keyword) attributes (is_some visibility)
                    (is_some runtime)
              pure (of_fn decl))
            (on_test (check kw_extern)
              (λ p. parse_extern_decl (lead visibility runtime (peek p 0)) p)
              (on_match kw_import
                (λ keyword.
                  on_test (λ _. not (is_empty attributes))
                    (fail_token keyword
                      (bytes "attributes are not supported on import declarations"))
                    (do
                      decl ← parse_import_decl (lead visibility none keyword) (is_some visibility)
                      pure (of_import decl)))
                (on_test (λ _. not (is_empty attributes))
                  (fail_here (
                    bytes
                      "expected item after attributes (`struct`, `enum`, `fn`, `extern`, `runtime`)"))
                  (on_test (λ _. is_some visibility)
                    (fail_here (
                      bytes
                        "expected item after `pub` (`struct`, `enum`, `fn`, `extern`, `runtime`, `import`)"))
                    (fail_here (
                      bytes
                        "expected item (`struct`, `enum`, `fn`, `extern`, `runtime`, `import`)"))))))))

unfoldable pub parse_item : Member Item
parse_item = do
  attributes ← parse_attributes
  visibility ← optional_keyword kw_pub
  runtime ← optional_keyword kw_runtime
  on_test (λ p. is_some runtime && not (check kw_fn p) && not (check kw_extern p))
      (fail_here (bytes "expected `fn` or `extern` after `runtime`"))
      (item_body attributes visibility runtime)

-- The loop of `parse_program`.
unfoldable pub items_loop : ℕ → List Item → Member (List Item)
items_loop zero items p = out_of_fuel
items_loop (suc fuel) items p =
    on_test is_at_end (pure items) (do item ← parse_item; items_loop fuel (items ++ item ∷ [])) p

unfoldable pub parse_program : Member Program
parse_program = do items ← (λ p. items_loop (remaining p) [] p); pure (record { items = items })

unfoldable pub parse_tokens : SymbolTable → List Token → Option (List ParseWarning) → Parsed Program
parse_tokens table tokens warnings =
    parse_program (new_parser (keep_if (λ t. not (is_trivia t.kind)) tokens) warnings table)

-- `parse_source_at`: none where the lexer's model runs out of fuel.
unfoldable pub parse_source_at :
    SymbolTable → Bytes → ℕ → Option (List ParseWarning) → Option (Parsed Program)
parse_source_at table source base_pos warnings = elim (lex_source_at table source base_pos false) [
  | none ↦ none
  | some out ↦ some (parse_tokens out.table out.tokens warnings)
]

unfoldable pub parse_source :
    SymbolTable → Bytes → Option (List ParseWarning) → Option (Parsed Program)
parse_source table source warnings = parse_source_at table source 0 warnings
