-- ===== src/Parser/Types.antt =====
-- compiler/cstc_parser/src/parser.cpp: `parse_type` and `parse_generic_argument_list`.
-- What `parse_type` does with the type that a recursive call finds is a function of its result.
use cicest.Prelude.{ℕ, zero, suc, Bool, false, List, [], ◌∷◌, some, none, Bytes, bytes}
use cicest.Span.{merge}
use cicest.Symbol.{invalid_symbol}
use cicest.Token.{Token, kw_runtime, kw_unit, kw_num, kw_str, kw_bool, amp, bang, lt, gt}
use cicest.Ast.{
  TypeKind, TypeRef, type_ref, TypeRefs, nil, cons, null, to, is_runtime, requires_ct,
  set_is_runtime, set_requires_ct,
}
use cicest.Parser.{Parser, check, match_contextual_keyword, previous, emit_warning, remaining}
use cicest.Parser.Monad.{
  out_of_fuel, parsed, Member, ◌>>=◌, ◌>>◌, pure, fail_here, fail_token, on_test, on_match, consume,
  consume_identifier, comma_list,
}

-- The type of a keyword.
abbrev pub plain_type : TypeKind → Token → Member TypeRef
plain_type kind token = pure (type_ref kind token.symbol token.symbol null false nil false)

-- Behind `runtime`.
unfoldable pub add_runtime : TypeRef → Member TypeRef
add_runtime inner =
    on_test (λ _. requires_ct inner)
      (fail_here (bytes "conflicting `runtime` and `const` type qualifiers"))
      (pure (set_is_runtime inner))

-- Behind `const` and behind `!runtime`.
unfoldable pub add_const : (Parser → Parser) → TypeRef → Member TypeRef
add_const warn inner =
    on_test (λ _. is_runtime inner)
      (fail_here (bytes "conflicting `const` and `runtime` type qualifiers"))
      (on_test (λ _. requires_ct inner) (fail_here (bytes "duplicate `const` type qualifier"))
        (λ p. parsed (set_requires_ct inner) (warn p)))

abbrev no_warning : Parser → Parser
no_warning p = p

abbrev deprecated : Token → Parser → Parser
deprecated mark p =
    emit_warning (merge mark.span (previous p).span)
      (bytes "`!runtime` is deprecated; use `const` to require compile-time availability") p

abbrev pub ref_to : TypeRef → Member TypeRef
ref_to inner = pure (type_ref TypeKind.ref invalid_symbol invalid_symbol (to inner) false nil false)

abbrev pub named_type : Token → TypeRefs → Member TypeRef
named_type name args = pure (type_ref TypeKind.named name.symbol name.symbol null false args false)

abbrev pub nested_const : Bytes
nested_const = bytes "nested `const` type qualifier is not supported"

abbrev pub type_refs_of : List TypeRef → TypeRefs
type_refs_of [] = nil
type_refs_of (t ∷ ts) = cons t (type_refs_of ts)

-- The recursive calls.
module _ (types : Bool → Member TypeRef) where
  unfoldable pub runtime_type : Bool → Member TypeRef
  runtime_type allow =
      on_test (check kw_runtime) (fail_here (bytes "duplicate `runtime` type qualifier"))
        (types allow >>= add_runtime)

  unfoldable pub const_type : (Parser → Parser) → Token → Bool → Member TypeRef
  const_type warn qualifier allow =
      on_test (λ _. allow) (types allow >>= add_const warn) (fail_token qualifier nested_const)

  unfoldable pub bang_type : Token → Bool → Member TypeRef
  bang_type mark allow =
      on_match kw_runtime (λ _. const_type (deprecated mark) mark allow)
        (plain_type TypeKind.never mark)

  -- `parse_generic_argument_list`
  unfoldable pub argument_list : Member TypeRefs
  argument_list = do
    consume lt (bytes "expected `<` to start generic argument list")
    args ← comma_list gt (λ _. types false)
    consume gt (bytes "expected `>` to close generic argument list")
    pure (type_refs_of args)

  unfoldable pub named_or_generic : Token → Member TypeRef
  named_or_generic name =
      on_test (check lt) (argument_list >>= named_type name) (named_type name nil)

  unfoldable pub keyword_type : Bool → Member TypeRef
  keyword_type allow = on_match kw_unit (plain_type TypeKind.unit) (
      on_match kw_num (plain_type TypeKind.num) (
        on_match kw_str (plain_type TypeKind.str) (
          on_match kw_bool (plain_type TypeKind.bool) (
            on_match bang (λ mark. bang_type mark allow)
              (consume_identifier (bytes "expected type name") >>= named_or_generic)))))

  -- `if (match_contextual_keyword("const")) … else …`
  unfoldable pub const_or : Bool → Member TypeRef → Member TypeRef
  const_or allow other p = elim (match_contextual_keyword (bytes "const") p) [
    | some q ↦ const_type no_warning (previous q) allow q
    | none ↦ other p
  ]

  -- The body of `parse_type`.
  unfoldable pub type_body : Bool → Member TypeRef
  type_body allow =
      on_match kw_runtime (λ _. runtime_type allow)
        (const_or allow (on_match amp (λ _. types false >>= ref_to) (keyword_type allow)))

-- `parse_type` on fuel.
unfoldable pub type_on : ℕ → Bool → Member TypeRef
type_on zero allow p = out_of_fuel
type_on (suc fuel) allow p = type_body (type_on fuel) allow p

unfoldable pub parse_type : Bool → Member TypeRef
parse_type allow p = type_on (remaining p) allow p

unfoldable pub parse_generic_argument_list : Member TypeRefs
parse_generic_argument_list = argument_list parse_type
