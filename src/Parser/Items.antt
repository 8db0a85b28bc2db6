-- ===== src/Parser/Items.antt =====
-- compiler/cstc_parser/src/parser.cpp: the declarations.
use cicest.Prelude.{
  ℕ, zero, suc, Bool, true, false, ◌||◌, List, [], ◌∷◌, ◌++◌, Option, none, some, map, Bytes, bytes,
}
use cicest.Span.{SourceSpan, merge}
use cicest.Symbol.{Symbol, invalid_symbol}
use cicest.Token.{
  Token, lt, gt, comma, colon, semicolon, assign, arrow, number, l_brace, r_brace, l_paren, r_paren,
  kw_where,
}
use cicest.Ast.{TypeRef, requires_ct}
use cicest.Ast.Nodes.{expr_span, block_span}
use cicest.Ast.Items.{
  GenericParam, GenericConstraint, Attribute, FieldDecl, StructDecl, EnumVariant, EnumDecl, Param,
  FnDecl, ExternFnDecl, ExternStructDecl,
}
use cicest.Parser.{Parser, check, previous, remaining}
use cicest.Parser.Monad.{
  out_of_fuel, Member, ◌>>=◌, ◌>>◌, pure, fail_here, fail_token, on_test, on_match, consume,
  consume_identifier, previous_token, comma_list, optional_list, fresh_identifier,
}
use cicest.Parser.Types.{parse_type}
use cicest.Parser.Exprs.{parse_condition_expression, parse_block_expr}
use cicest.Parser.Primary.{parse_expression}

abbrev pub item_lead_span : List Attribute → Token → SourceSpan
item_lead_span [] fallback = fallback.span
item_lead_span (a ∷ attributes) fallback = a.span

abbrev pub param_names : List GenericParam → List Symbol
param_names ps = map (λ p. p.name) ps

unfoldable pub generic_param : List GenericParam → Member GenericParam
generic_param seen = do
  name ←
      fresh_identifier (bytes "expected generic parameter name")
        (bytes "duplicate generic parameter `") (bytes "`") (param_names seen)
  pure (record { name = name.symbol; span = name.span })

unfoldable pub parse_generic_param_list : Member (List GenericParam)
parse_generic_param_list = do
  consume lt (bytes "expected `<` to start generic parameter list")
  params ← comma_list gt generic_param
  consume gt (bytes "expected `>` to close generic parameter list")
  pure params

-- `if (check(TokenKind::Lt))`
unfoldable pub generic_params : Member (List GenericParam)
generic_params = on_test (check lt) parse_generic_param_list (pure [])

abbrev pub at_body : Parser → Bool
at_body p = check l_brace p || check semicolon p

-- The loop of `parse_where_clause`.
unfoldable pub where_loop : ℕ → List GenericConstraint → Member (List GenericConstraint)
where_loop zero constraints p = out_of_fuel
where_loop (suc fuel) constraints p =
    on_test at_body (fail_here (bytes "expected constraint expression after `where`"))
      (do
        e ← parse_condition_expression parse_expression
        on_match comma
            (λ _.
              on_test at_body (fail_here (bytes "expected constraint expression after `,`"))
                (where_loop fuel (constraints ++ record { expr = e; span = expr_span e } ∷ [])))
            (pure (constraints ++ record { expr = e; span = expr_span e } ∷ [])))
      p

unfoldable pub parse_where_clause : Member (List GenericConstraint)
parse_where_clause = on_match kw_where (λ _ p. where_loop (remaining p) [] p) (pure [])

abbrev const_position : Bytes
const_position =
    bytes "`const` is only supported for function parameters and explicit local annotations"

-- A type that may not be `const`.
unfoldable pub runtime_or_plain_type : Member TypeRef
runtime_or_plain_type = do
  t ← parse_type true
  on_test (λ _. requires_ct t) (λ p. fail_token (previous p) const_position p) (pure t)

abbrev pub field_names : List FieldDecl → List Symbol
field_names fs = map (λ f. f.name) fs

unfoldable pub field_decl : List FieldDecl → Member FieldDecl
field_decl seen = do
  name ←
      fresh_identifier (bytes "expected field name") (bytes "duplicate struct field `") (bytes "`")
        (field_names seen)
  consume colon (bytes "expected `:` after field name")
  type ← runtime_or_plain_type
  last ← previous_token
  pure (record { name = name.symbol; type = type; span = merge name.span last.span })

unfoldable pub parse_struct_decl : Token → List Attribute → Bool → Member StructDecl
parse_struct_decl lead_token attributes is_public = do
  name ← consume_identifier (bytes "expected struct name")
  params ← generic_params
  constraints ← parse_where_clause
  on_match semicolon
      (λ semi. pure (record {
        is_public = is_public;
        name = name.symbol;
        display_name = invalid_symbol;
        fields = [];
        is_zst = true;
        span = merge (item_lead_span attributes lead_token) semi.span;
        attributes = attributes;
        generic_params = params;
        where_clause = constraints;
      }))
      (do
        consume l_brace (bytes "expected `{` or `;` after struct name")
        fields ← optional_list r_brace field_decl
        close_brace ← consume r_brace (bytes "expected `}` to close struct declaration")
        pure (record {
          is_public = is_public;
          name = name.symbol;
          display_name = invalid_symbol;
          fields = fields;
          is_zst = false;
          span = merge (item_lead_span attributes lead_token) close_brace.span;
          attributes = attributes;
          generic_params = params;
          where_clause = constraints;
        }))

abbrev pub variant_names : List EnumVariant → List Symbol
variant_names vs = map (λ v. v.name) vs

unfoldable pub enum_variant : List EnumVariant → Member EnumVariant
enum_variant seen = do
  name ←
      fresh_identifier (bytes "expected enum variant name") (bytes "duplicate enum variant `")
        (bytes "`") (variant_names seen)
  on_match assign
      (λ _. do
        value ← consume number (bytes "expected numeric discriminant after `=`")
        pure (record {
          name = name.symbol;
          discriminant = some value.symbol;
          span = merge name.span value.span;
        }))
      (pure (record { name = name.symbol; discriminant = none; span = name.span }))

unfoldable pub parse_enum_decl : Token → List Attribute → Bool → Member EnumDecl
parse_enum_decl lead_token attributes is_public = do
  name ← consume_identifier (bytes "expected enum name")
  params ← generic_params
  constraints ← parse_where_clause
  consume l_brace (bytes "expected `{` after enum name")
  variants ← optional_list r_brace enum_variant
  close_brace ← consume r_brace (bytes "expected `}` to close enum declaration")
  pure (record {
    is_public = is_public;
    name = name.symbol;
    display_name = invalid_symbol;
    variants = variants;
    span = merge (item_lead_span attributes lead_token) close_brace.span;
    attributes = attributes;
    generic_params = params;
    where_clause = constraints;
  })

abbrev pub fn_param_names : List Param → List Symbol
fn_param_names ps = map (λ p. p.name) ps

unfoldable pub fn_param : List Param → Member Param
fn_param seen = do
  name ←
      fresh_identifier (bytes "expected parameter name") (bytes "duplicate parameter `") (bytes "`")
        (fn_param_names seen)
  consume colon (bytes "expected `:` after parameter name")
  type ← parse_type true
  last ← previous_token
  pure (record { name = name.symbol; type = type; span = merge name.span last.span })

-- The parameters in their parentheses, which `fn` and `extern fn` read alike.
unfoldable pub fn_params : Member (List Param)
fn_params = do
  consume l_paren (bytes "expected `(` after function name")
  params ← optional_list r_paren fn_param
  consume r_paren (bytes "expected `)` after function parameters")
  pure params

unfoldable pub return_type : Member (Option TypeRef)
return_type = on_match arrow (λ _. runtime_or_plain_type >>= λ t. pure (some t)) (pure none)

unfoldable pub parse_fn_decl : Token → List Attribute → Bool → Bool → Member FnDecl
parse_fn_decl lead_token attributes is_public is_runtime = do
  name ← consume_identifier (bytes "expected function name")
  generics ← generic_params
  params ← fn_params
  result ← return_type
  constraints ← parse_where_clause
  body ← parse_block_expr parse_expression
  pure (record {
    is_public = is_public;
    name = name.symbol;
    display_name = invalid_symbol;
    params = params;
    return_type = result;
    body = body;
    span = merge (item_lead_span attributes lead_token) (block_span body);
    attributes = attributes;
    is_runtime = is_runtime;
    generic_params = generics;
    where_clause = constraints;
  })

unfoldable pub parse_extern_fn_decl :
    Token → Symbol → List Attribute → Bool → Bool → Member ExternFnDecl
parse_extern_fn_decl lead_token abi attributes is_public is_runtime = do
  name ← consume_identifier (bytes "expected function name")
  params ← fn_params
  result ← return_type
  semi ← consume semicolon (bytes "expected `;` after extern fn declaration")
  pure (record {
    is_public = is_public;
    abi = abi;
    name = name.symbol;
    display_name = invalid_symbol;
    params = params;
    return_type = result;
    span = merge (item_lead_span attributes lead_token) semi.span;
    attributes = attributes;
    is_runtime = is_runtime;
  })

unfoldable pub parse_extern_struct_decl :
    Token → Symbol → List Attribute → Bool → Member ExternStructDecl
parse_extern_struct_decl lead_token abi attributes is_public = do
  name ← consume_identifier (bytes "expected struct name")
  semi ← consume semicolon (bytes "expected `;` after extern struct declaration")
  pure (record {
    is_public = is_public;
    abi = abi;
    name = name.symbol;
    display_name = invalid_symbol;
    span = merge (item_lead_span attributes lead_token) semi.span;
    attributes = attributes;
  })
