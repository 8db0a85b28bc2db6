-- ===== src/Parser/Primary.antt =====
-- compiler/cstc_parser/src/parser.cpp: `parse_if_expr`, `parse_for_expr`, `parse_primary` and the knot of
-- `parse_expression`. The token that a member is given is the keyword in front.
use cicest.Prelude.{ℕ, zero, suc, Bool, true, false, not, ◌&&◌, List, none, some, map, bytes}
use cicest.Span.{SourceSpan, merge}
use cicest.Symbol.{Symbol}
use cicest.Token.{
  Token, TokenKind, number, string, kw_true, kw_false, l_paren, r_paren, l_brace, r_brace, kw_if,
  kw_else, kw_loop, kw_while, kw_for, kw_let, kw_break, kw_continue, kw_return, kw_runtime,
  identifier, lt, colon_colon, colon, semicolon,
}
use cicest.Ast
use cicest.Ast.{TypeRefs}
use cicest.Ast.Nodes.{
  LiteralKind, Expr, literal_expr, struct_init_expr, runtime_expr, block_expr, if_expr, loop_expr,
  while_expr, for_expr, break_expr, continue_expr, return_expr, OptExpr, absent, present,
  StructInitField, field, field_name, fields_of, ForInit, no_init, init_let, init_expr, make_expr,
  expr_span, block_span,
}
use cicest.Parser.{peek, check, kind_is, remaining}
use cicest.Parser.Lookahead.{
  is_optional_expr_terminator, looks_like_struct_initializer, looks_like_generic_struct_initializer,
}
use cicest.Parser.Monad.{
  out_of_fuel, Member, ◌>>=◌, ◌>>◌, and_then, pure, fail_here, on_test, on_match, consume,
  consume_identifier, take_token, optional_list, fresh_identifier,
}
use cicest.Parser.Types.{parse_generic_argument_list}
use cicest.Parser.Exprs.{
  path_of, parse_condition_expression, parse_block_expr, parse_let_stmt_no_semicolon, postfix_on,
  parse_unary, parse_logical_or,
}

-- `namespace kw`
abbrev unit_lit : Symbol
unit_lit = 19

abbrev literal : Token → LiteralKind → Bool → Member Expr
literal token kind value = pure (
    make_expr token.span
      (literal_expr (record { kind = kind; symbol = token.symbol; bool_value = value })))

abbrev unit_literal : Token → Token → Member Expr
unit_literal open_paren close_paren = pure (
    make_expr (merge open_paren.span close_paren.span)
      (literal_expr (record { kind = LiteralKind.unit; symbol = unit_lit; bool_value = false })))

abbrev opt_span : SourceSpan → OptExpr → SourceSpan
opt_span span absent = span
opt_span span (present e) = merge span (expr_span e)

module _ (parse_expression : Member Expr) where
  -- `parse_if_expr` on fuel, for its own `else if`.
  unfoldable pub if_on : ℕ → Token → Member Expr
  if_on zero if_kw p = out_of_fuel
  if_on (suc fuel) if_kw p =
      and_then (parse_condition_expression parse_expression p) (λ condition q.
        and_then (parse_block_expr parse_expression q) (λ then_block.
          on_match kw_else
            (λ _.
              on_match kw_if
                (λ nested_kw. do
                  nested ← if_on fuel nested_kw
                  pure (
                      make_expr (merge if_kw.span (expr_span nested))
                        (if_expr condition then_block (present nested))))
                (do
                  other ← parse_block_expr parse_expression
                  pure (
                      make_expr (merge if_kw.span (block_span other)) (
                        if_expr condition then_block
                          (present (make_expr (block_span other) (block_expr other)))))))
            (pure (
              make_expr (merge if_kw.span (block_span then_block))
                (if_expr condition then_block absent)))))

  unfoldable pub parse_if_expr : Token → Member Expr
  parse_if_expr if_kw p = if_on (remaining p) if_kw p

  unfoldable pub for_init : Member ForInit
  for_init = on_test (check semicolon) (pure no_init) (
      on_match kw_let
        (λ let_kw. do s ← parse_let_stmt_no_semicolon parse_expression let_kw; pure (init_let s))
        (do e ← parse_expression; pure (init_expr e)))

  -- An expression unless the token of that kind stands next.
  unfoldable pub expr_unless : TokenKind → Member OptExpr
  expr_unless kind = on_test (check kind) (pure absent) (parse_expression >>= λ e. pure (present e))

  unfoldable pub parse_for_expr : Token → Member Expr
  parse_for_expr for_kw = do
    consume l_paren (bytes "expected `(` after `for`")
    init ← for_init
    consume semicolon (bytes "expected `;` after for-loop initializer")
    condition ← expr_unless semicolon
    consume semicolon (bytes "expected second `;` in for-loop header")
    step ← expr_unless r_paren
    consume r_paren (bytes "expected `)` after for-loop header")
    body ← parse_block_expr parse_expression
    pure (make_expr (merge for_kw.span (block_span body)) (for_expr init condition step body))

  -- Behind `(`.
  unfoldable pub parenthesized : Token → Member Expr
  parenthesized open_paren = on_match r_paren (unit_literal open_paren) (do
    inner ← parse_expression
    consume r_paren (bytes "expected `)` to close parenthesized expression")
    pure inner)

  -- Behind `break` and `return`.
  unfoldable pub optional_value : Member OptExpr
  optional_value =
      on_test (λ p. is_optional_expr_terminator (peek p 0).kind) (pure absent)
        (parse_expression >>= λ e. pure (present e))

  unfoldable pub init_field : List StructInitField → Member StructInitField
  init_field seen = do
    name ←
        fresh_identifier (bytes "expected struct field name") (bytes "duplicate struct field `")
          (bytes "` in initializer") (map field_name seen)
    consume colon (bytes "expected `:` after field name")
    value ← parse_expression
    pure (field name.symbol value (merge name.span (expr_span value)))

  unfoldable pub struct_init : Token → TypeRefs → Member Expr
  struct_init name args = do
    consume l_brace (bytes "expected `{` in struct initializer")
    fields ← optional_list r_brace init_field
    close_brace ← consume r_brace (bytes "expected `}` to close struct initializer")
    pure (
        make_expr (merge name.span close_brace.span)
          (struct_init_expr name.symbol name.symbol args (fields_of fields)))

  unfoldable pub direct_generic_args : Member TypeRefs
  direct_generic_args =
      on_test (λ p. check lt p && looks_like_generic_struct_initializer p)
        parse_generic_argument_list (pure Ast.nil)

  -- Behind an identifier and its arguments.
  unfoldable pub path_or_init : Token → TypeRefs → Member Expr
  path_or_init name args =
      on_test (λ p. check colon_colon p && not (kind_is (peek p 1).kind lt))
        (do
          take_token
          variant ← consume_identifier (bytes "expected enum variant name after `::`")
          pure (make_expr (merge name.span variant.span) (path_of name (some variant.symbol) args)))
        (on_test looks_like_struct_initializer (struct_init name args)
          (pure (make_expr name.span (path_of name none args))))

  -- The keywords of `parse_primary` with a block behind them.
  unfoldable pub keyword_expr : Member Expr
  keyword_expr = on_match kw_if parse_if_expr (
      on_match kw_loop
        (λ token. do
          body ← parse_block_expr parse_expression
          pure (make_expr (merge token.span (block_span body)) (loop_expr body)))
        (on_match kw_while
          (λ token. do
            condition ← parse_condition_expression parse_expression
            body ← parse_block_expr parse_expression
            pure (make_expr (merge token.span (block_span body)) (while_expr condition body)))
          (on_match kw_for parse_for_expr (
            on_match kw_break
              (λ token. do
                value ← optional_value
                pure (make_expr (opt_span token.span value) (break_expr value)))
              (on_match kw_continue (λ token. pure (make_expr token.span continue_expr))
                (on_match kw_return
                  (λ token. do
                    value ← optional_value
                    pure (make_expr (opt_span token.span value) (return_expr value)))
                  (on_match kw_runtime
                    (λ token.
                      on_test (λ p. not (check l_brace p))
                        (fail_here (bytes "expected `{` to start runtime block after `runtime`"))
                        (do
                          body ← parse_block_expr parse_expression
                          pure
                              (make_expr (merge token.span (block_span body)) (runtime_expr body))))
                    (on_match identifier (λ name. direct_generic_args >>= path_or_init name)
                      (fail_here (bytes "expected expression"))))))))))

  unfoldable pub parse_primary : Member Expr
  parse_primary =
      on_match number (λ token. literal token LiteralKind.num false)
        (on_match string (λ token. literal token LiteralKind.str false)
          (on_match kw_true (λ token. literal token LiteralKind.bool true)
            (on_match kw_false (λ token. literal token LiteralKind.bool false)
              (on_match l_paren parenthesized (
                on_test (check l_brace)
                  (do
                    body ← parse_block_expr parse_expression
                    pure (make_expr (block_span body) (block_expr body)))
                  keyword_expr)))))

  unfoldable pub parse_postfix : Member Expr
  parse_postfix = do e ← parse_primary; (λ p. postfix_on (remaining p) parse_expression e p)

-- `parse_expression` on fuel.
unfoldable pub expr_on : ℕ → Member Expr
expr_on zero p = out_of_fuel
expr_on (suc fuel) p = parse_logical_or (parse_unary (parse_postfix (expr_on fuel))) p

unfoldable pub parse_expression : Member Expr
parse_expression p = expr_on (remaining p) p
