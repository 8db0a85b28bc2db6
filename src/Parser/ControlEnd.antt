-- ===== src/Parser/ControlEnd.antt =====
-- `if`, `for` and the values of `break` and `return` end where what is nested in them does.
use cicest.Prelude.{ℕ, zero, suc, ◌≤◌, ◌<◌, refl, arith}
use cicest.Token.{Token, TokenKind, l_paren, r_paren, semicolon}
use cicest.Ast.Nodes.{Expr}
use cicest.Parser.{Parser, remaining}
use cicest.Parser.Monad.{Member}
use cicest.Parser.Cursor.{IsValid}
use cicest.Parser.Exprs.{parse_condition_expression, parse_block_expr}
use cicest.Parser.ExprsEnd.{parse_condition_expression-Ends, parse_let_stmt_no_semicolon-Ends}
use cicest.Parser.BlocksEnd.{parse_block_expr-Ends}
use cicest.Parser.Primary.{if_on, for_init, expr_unless, parse_for_expr, optional_value}
use cicest.Parser.Ends.{Ends, gives, loosen, start, next, on_test-Ends, on_match-Ends, consume-Ends}
use cicest.Parser.WellFormed.{expr_ok, opt_ok, init_ok, block_ok}

-- What is nested ends on parsers with fewer tokens left than `bound`.
module _ (parse_expression : Member Expr) (bound : ℕ)
    (expression-Ends : (q : Parser)
      → IsValid q
      → remaining q < bound
      → Ends expr_ok 1 q (parse_expression q)) where
  pub block-Ends :
      (p : Parser)
      → IsValid p
      → remaining p ≤ bound
      → Ends block_ok 1 p (parse_block_expr parse_expression p)
  block-Ends = parse_block_expr-Ends parse_expression bound expression-Ends

  pub condition-Ends :
      (p : Parser)
      → IsValid p
      → remaining p < bound
      → Ends expr_ok 1 p (parse_condition_expression parse_expression p)
  condition-Ends = parse_condition_expression-Ends parse_expression bound expression-Ends

  pub if_on-Ends :
      (fuel : ℕ) (if_kw : Token) (p : Parser)
      → IsValid p
      → remaining p < bound
      → remaining p ≤ fuel
      → Ends expr_ok 1 p (if_on parse_expression fuel if_kw p)
  unfolding if_on expr_ok
  if_on-Ends zero if_kw p v b f = absurd (omega (arith, v.in_range))
  if_on-Ends (suc fuel) if_kw p v b f = start (condition-Ends p v b) (λ condition q m g.
      next (loosen (block-Ends q m.valid (omega arith))) (λ then_block r n h.
        on_match-Ends r _ _ _ n.valid (λ e. cc e) (omega arith)
          (λ _ s o.
            on_match-Ends s _ _ _ o.valid (λ e. cc e) (omega arith)
              (λ nested_kw t u.
                next (loosen (if_on-Ends fuel nested_kw t u.valid (omega arith) (omega arith)))
                  (λ nested w x k. gives w _ x.valid (ground (arith, g, h, k))))
              (next (loosen (block-Ends s o.valid (omega arith)))
                (λ other t u k. gives t _ u.valid (ground (arith, g, h, k)))))
          (gives r _ n.valid (ground (arith, g, h)))))

  for_init-Ends :
      (p : Parser)
      → IsValid p
      → remaining p < bound
      → Ends init_ok 0 p (for_init parse_expression p)
  unfolding for_init expr_ok
  for_init-Ends p v b =
      on_test-Ends p _ _ _ (λ _. gives p _ v refl)
        (λ _.
          on_match-Ends p _ _ _ v (λ e. cc e) (omega arith)
            (λ let_kw q m.
              next
                (loosen (
                  parse_let_stmt_no_semicolon-Ends parse_expression bound expression-Ends let_kw q
                    m.valid (omega arith)))
                (λ s r n g. gives r _ n.valid g))
            (next (loosen (expression-Ends p v b)) (λ e q m g. gives q _ m.valid g)))

  expr_unless-Ends :
      (kind : TokenKind) (p : Parser)
      → IsValid p
      → remaining p < bound
      → Ends opt_ok 0 p (expr_unless parse_expression kind p)
  unfolding expr_unless expr_ok
  expr_unless-Ends kind p v b =
      on_test-Ends p _ _ _ (λ _. gives p _ v refl)
        (λ _. next (loosen (expression-Ends p v b)) (λ e q m g. gives q _ m.valid g))

  pub optional_value-Ends :
      (p : Parser)
      → IsValid p
      → remaining p < bound
      → Ends opt_ok 0 p (optional_value parse_expression p)
  unfolding optional_value expr_ok
  optional_value-Ends p v b =
      on_test-Ends p _ _ _ (λ _. gives p _ v refl)
        (λ _. next (loosen (expression-Ends p v b)) (λ e q m g. gives q _ m.valid g))

  pub parse_for_expr-Ends :
      (for_kw : Token) (p : Parser)
      → IsValid p
      → remaining p < bound
      → Ends expr_ok 1 p (parse_for_expr parse_expression for_kw p)
  unfolding parse_for_expr expr_ok
  parse_for_expr-Ends for_kw p v b = start (consume-Ends p v l_paren _ (λ e. cc e)) (λ _ q m _.
      next (for_init-Ends q m.valid (omega arith)) (λ init r n g.
        next (loosen (consume-Ends r n.valid semicolon _ (λ e. cc e))) (λ _ s o _.
          next (expr_unless-Ends semicolon s o.valid (omega arith)) (λ condition t u h.
            next (loosen (consume-Ends t u.valid semicolon _ (λ e. cc e))) (λ _ w x _.
              next (expr_unless-Ends r_paren w x.valid (omega arith)) (λ step y z k.
                next (loosen (consume-Ends y z.valid r_paren _ (λ e. cc e))) (λ _ a c _.
                  next (loosen (block-Ends a c.valid (omega arith)))
                    (λ body d e l. gives d _ e.valid (ground (arith, g, h, k, l))))))))))
