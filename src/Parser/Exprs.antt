-- ===== src/Parser/Exprs.antt =====
-- compiler/cstc_parser/src/parser.cpp: the ladder of the binary operators, prefix and postfix operators, conditions,
-- blocks and statements, given `parse_expression` for what is nested. Loops run on the number of tokens left.
use cicest.Prelude.{
  ℕ, zero, suc, Bool, true, false, not, ◌&&◌, ◌||◌, List, [], ◌∷◌, ◌++◌, Option, none, some, ◌==◌,
  bytes, bytes_eq,
}
use cicest.Span.{merge}
use cicest.Symbol.{Symbol, invalid_symbol}
use cicest.Token.{
  Token, TokenKind, or_or, and_and, eq_eq, not_eq, lt, lt_eq, gt, gt_eq, plus, minus, star, slash,
  percent, amp, bang, dot, l_paren, r_paren, l_brace, r_brace, semicolon, colon, assign, kw_let,
}
use cicest.Ast
use cicest.Ast.{TypeRef, TypeRefs, UnaryOp, BinaryOp}
use cicest.Ast.Nodes.{
  Expr, Node, path_expr, generic_app_expr, unary_expr, binary_expr, field_access_expr, call_expr,
  decl_expr, struct_init_expr, block_expr, if_expr, loop_expr, while_expr, for_expr, OptExpr,
  absent, present, LetStmt, let_stmt, Stmt, of_let, expr_stmt, BlockExpr, block, make_expr,
  expr_span, expr_node, exprs_of, stmts_of,
}
use cicest.Parser.{peek, check, is_at_end, advance, token_text, remaining, intern_text}
use cicest.Parser.Lookahead.{looks_like_turbofish, condition_starts_with_struct_init_ambiguity}
use cicest.Parser.Monad.{
  out_of_fuel, parsed, Member, ◌>>=◌, ◌>>◌, and_then, pure, fail_here, fail_token, on_test,
  on_match, consume, consume_identifier, previous_token, take_token, optional_list,
}
use cicest.Parser.Types.{parse_type, parse_generic_argument_list}

abbrev pub or_op : TokenKind → Option BinaryOp
or_op or_or = some BinaryOp.or_
or_op _ = none

abbrev pub and_op : TokenKind → Option BinaryOp
and_op and_and = some BinaryOp.and_
and_op _ = none

abbrev pub equality_op : TokenKind → Option BinaryOp
equality_op eq_eq = some BinaryOp.eq
equality_op not_eq = some BinaryOp.ne
equality_op _ = none

abbrev pub relational_op : TokenKind → Option BinaryOp
relational_op lt = some BinaryOp.lt
relational_op lt_eq = some BinaryOp.le
relational_op gt = some BinaryOp.gt
relational_op gt_eq = some BinaryOp.ge
relational_op _ = none

abbrev pub additive_op : TokenKind → Option BinaryOp
additive_op plus = some BinaryOp.add
additive_op minus = some BinaryOp.sub
additive_op _ = none

abbrev pub multiplicative_op : TokenKind → Option BinaryOp
multiplicative_op star = some BinaryOp.mul
multiplicative_op slash = some BinaryOp.div
multiplicative_op percent = some BinaryOp.mod_
multiplicative_op _ = none

abbrev joined : BinaryOp → Expr → Expr → Expr
joined op lhs rhs = make_expr (merge (expr_span lhs) (expr_span rhs)) (binary_expr op lhs rhs)

-- The loop of one level: while an operator of the level stands next, its right operand is joined to what was
-- read so far.
unfoldable pub binary_loop : ℕ → (TokenKind → Option BinaryOp) → Member Expr → Expr → Member Expr
binary_loop zero op_of operand lhs p = out_of_fuel
binary_loop (suc fuel) op_of operand lhs p = elim (op_of (peek p 0).kind) [
  | none ↦ parsed lhs p
  | some op ↦
      and_then (operand (advance p)) (λ rhs q. binary_loop fuel op_of operand (joined op lhs rhs) q)
]

unfoldable pub binary_level : (TokenKind → Option BinaryOp) → Member Expr → Member Expr
binary_level op_of operand p =
    and_then (operand p) (λ lhs q. binary_loop (remaining q) op_of operand lhs q)

unfoldable pub is_postfixable : Node → Bool
is_postfixable (path_expr path) = true
is_postfixable (struct_init_expr t d gs fs) = true
is_postfixable (generic_app_expr e gs) = true
is_postfixable (field_access_expr e s) = true
is_postfixable (call_expr e es) = true
is_postfixable _ = false

unfoldable pub is_semicolon_optional_stmt_expr : Node → Bool
is_semicolon_optional_stmt_expr (block_expr b) = true
is_semicolon_optional_stmt_expr (if_expr c b e) = true
is_semicolon_optional_stmt_expr (loop_expr b) = true
is_semicolon_optional_stmt_expr (while_expr c b) = true
is_semicolon_optional_stmt_expr (for_expr i c s b) = true
is_semicolon_optional_stmt_expr _ = false

abbrev pub path_of : Token → Option Symbol → TypeRefs → Node
path_of name tail args =
    path_expr
      (record { head = name.symbol; tail = tail; display_head = name.symbol; generic_args = args })

-- A callee that is a path with no tail: its head, and whether it has no generic arguments.
abbrev pub bare_path : Node → Option (Symbol × Bool)
bare_path (path_expr path) = elim path.tail [
  | some t ↦ none
  | none ↦ some (path.head, elim path.generic_args [ Ast.nil ↦ true | Ast.cons t ts ↦ false ])
]
bare_path _ = none

abbrev pub decl_of : Expr → List Expr → Token → Member Expr
decl_of e (a ∷ []) close = pure (make_expr (merge (expr_span e) close.span) (decl_expr a))
decl_of e _ close = fail_token close (bytes "`decl` expects exactly 1 argument")

abbrev plain_call : Expr → List Expr → Token → Expr
plain_call e args close = make_expr (merge (expr_span e) close.span) (call_expr e (exprs_of args))

-- A call, or a `decl` where the callee is that name.
unfoldable pub call_of : Expr → List Expr → Token → Member Expr
call_of e args close p = elim (bare_path (expr_node e)) [
  | none ↦ parsed (plain_call e args close) p
  | some (head, no_args) ↦
      let (q, decl) = intern_text (bytes "decl") p in
      on_test (λ _. head == decl && no_args) (decl_of e args close) (pure (plain_call e args close))
        q
]

-- `parse_let_pattern`: whether the binding is discarded, and its name.
unfoldable pub parse_let_pattern : Member (Bool × Symbol)
parse_let_pattern = do
  name ← consume_identifier (bytes "expected binding name or `_`")
  on_test (λ p. bytes_eq (token_text p name) (bytes "_")) (pure (true, invalid_symbol))
      (pure (false, name.symbol))

unfoldable pub type_annotation : Member (Option TypeRef)
type_annotation = on_match colon (λ _. parse_type true >>= λ t. pure (some t)) (pure none)

-- The operands of `(`, which is taken, up to `)`.
abbrev pub call_args : Member Expr → Member (List Expr)
call_args parse_expression = optional_list r_paren (λ _. parse_expression)

-- The loop of `parse_postfix`.
unfoldable pub postfix_on : ℕ → Member Expr → Expr → Member Expr
postfix_on zero parse_expression e p = out_of_fuel
postfix_on (suc fuel) parse_expression e p =
    on_test (λ _. not (is_postfixable (expr_node e))) (pure e)
      (on_test looks_like_turbofish
        (do
          take_token
          args ← parse_generic_argument_list
          last ← previous_token
          postfix_on fuel parse_expression
              (make_expr (merge (expr_span e) last.span) (generic_app_expr e args)))
        (on_match dot
          (λ _. do
            name ← consume_identifier (bytes "expected field name after `.`")
            postfix_on fuel parse_expression
                (make_expr (merge (expr_span e) name.span) (field_access_expr e name.symbol)))
          (on_match l_paren
            (λ _. do
              args ← call_args parse_expression
              close ← consume r_paren (bytes "expected `)` after call arguments")
              call ← call_of e args close
              postfix_on fuel parse_expression call)
            (pure e))))
      p

abbrev prefixed : UnaryOp → Token → Expr → Member Expr
prefixed op token rhs = pure (make_expr (merge token.span (expr_span rhs)) (unary_expr op rhs))

-- `parse_unary`, above `parse_postfix`.
unfoldable pub unary_on : ℕ → Member Expr → Member Expr
unary_on zero parse_postfix p = out_of_fuel
unary_on (suc fuel) parse_postfix p =
    on_match amp (λ op. unary_on fuel parse_postfix >>= prefixed UnaryOp.borrow op)
      (on_match bang (λ op. unary_on fuel parse_postfix >>= prefixed UnaryOp.not op)
        (on_match minus (λ op. unary_on fuel parse_postfix >>= prefixed UnaryOp.negate op)
          parse_postfix))
      p

unfoldable pub parse_unary : Member Expr → Member Expr
parse_unary parse_postfix p = unary_on (remaining p) parse_postfix p

unfoldable pub parse_multiplicative : Member Expr → Member Expr
parse_multiplicative unary = binary_level multiplicative_op unary

unfoldable pub parse_additive : Member Expr → Member Expr
parse_additive unary = binary_level additive_op (parse_multiplicative unary)

unfoldable pub parse_relational : Member Expr → Member Expr
parse_relational unary = binary_level relational_op (parse_additive unary)

unfoldable pub parse_equality : Member Expr → Member Expr
parse_equality unary = binary_level equality_op (parse_relational unary)

unfoldable pub parse_logical_and : Member Expr → Member Expr
parse_logical_and unary = binary_level and_op (parse_equality unary)

unfoldable pub parse_logical_or : Member Expr → Member Expr
parse_logical_or unary = binary_level or_op (parse_logical_and unary)

module _ (parse_expression : Member Expr) where
  unfoldable pub parse_condition_expression : Member Expr
  parse_condition_expression =
      on_test condition_starts_with_struct_init_ambiguity
        (do
          name ← consume_identifier (bytes "expected condition expression")
          pure (make_expr name.span (path_of name none Ast.nil)))
        parse_expression

  unfoldable pub parse_let_stmt_no_semicolon : Token → Member LetStmt
  parse_let_stmt_no_semicolon let_kw = do
    pattern ← parse_let_pattern
    annotation ← type_annotation
    consume assign (bytes "expected `=` in let binding")
    initializer ← parse_expression
    pure (
        let_stmt pattern.0 pattern.1 annotation initializer
          (merge let_kw.span (expr_span initializer)))

-- The span of a `let` statement takes in its semicolon.
abbrev pub closed_let : LetStmt → Token → Stmt
closed_let (let_stmt d n t e s) semi = of_let (let_stmt d n t e (merge s semi.span))

-- The loop of `parse_block_expr`: the statements and the tail.
unfoldable pub block_loop : ℕ → Member Expr → List Stmt → Member (List Stmt × OptExpr)
block_loop zero parse_expression ss p = out_of_fuel
block_loop (suc fuel) parse_expression ss p =
    on_test (λ q. check r_brace q || is_at_end q) (pure (ss, absent))
      (on_match kw_let
        (λ let_kw. do
          s ← parse_let_stmt_no_semicolon parse_expression let_kw
          semi ← consume semicolon (bytes "expected `;` after let statement")
          block_loop fuel parse_expression (ss ++ closed_let s semi ∷ []))
        (do
          e ← parse_expression
          on_match semicolon
              (λ semi.
                block_loop fuel parse_expression
                  (ss ++ expr_stmt e (merge (expr_span e) semi.span) ∷ []))
              (on_test (λ q. is_semicolon_optional_stmt_expr (expr_node e) && not (check r_brace q))
                (block_loop fuel parse_expression (ss ++ expr_stmt e (expr_span e) ∷ []))
                (on_test (λ q. not (check r_brace q))
                  (fail_here (bytes "expected `;` or `}` after expression"))
                  (pure (ss, present e))))))
      p

unfoldable pub parse_block_expr : Member Expr → Member BlockExpr
parse_block_expr parse_expression = do
  open_brace ← consume l_brace (bytes "expected `{` to start block")
  body ← (λ p. block_loop (remaining p) parse_expression [] p)
  close_brace ← consume r_brace (bytes "expected `}` to close block")
  pure (block (stmts_of body.0) body.1 (merge open_brace.span close_brace.span))
