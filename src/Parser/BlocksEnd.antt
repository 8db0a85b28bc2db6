-- ===== src/Parser/BlocksEnd.antt =====
-- Statements and blocks end where what is nested in them does.
use cicest.Prelude.{ℕ, zero, suc, ◌≤◌, ◌<◌, ◌≡◌, refl, Bool, true, ◌&&◌, List, [], ◌∷◌, ◌++◌, arith}
use cicest.Token.{Token, l_brace, r_brace, semicolon}
use cicest.Ast.Nodes.{Expr, Stmt, LetStmt, let_stmt, expr_stmt, OptExpr, stmts_of}
use cicest.Parser.{Parser, remaining}
use cicest.Parser.Monad.{Member}
use cicest.Parser.Cursor.{IsValid}
use cicest.Parser.Exprs.{block_loop, parse_block_expr, closed_let}
use cicest.Parser.ExprsEnd.{parse_let_stmt_no_semicolon-Ends}
use cicest.Parser.Ends.{
  Ends, gives, fails, loosen, start, next, on_test-Ends, on_match-Ends, consume-Ends,
}
use cicest.Parser.WellFormed.{expr_ok, opt_ok, let_ok, stmt_ok, stmts_ok, block_ok, stmts_ok-append}

-- The statements and the tail that the loop of a block returns.
abbrev body_ok : List Stmt × OptExpr → Bool
body_ok body = stmts_ok (stmts_of body.0) && opt_ok body.1

let-closed : (s : LetStmt) (semi : Token) → let_ok s ≡ true → stmt_ok (closed_let s semi) ≡ true
unfolding expr_ok
let-closed (let_stmt d n t e sp) semi h = h

stmts_ok-grown :
    (ss : List Stmt) (s : Stmt)
    → stmts_ok (stmts_of ss) ≡ true
    → stmt_ok s ≡ true
    → stmts_ok (stmts_of (ss ++ s ∷ [])) ≡ true
stmts_ok-grown ss s g k = ground (arith, stmts_ok-append ss s, g, k)

module _ (parse_expression : Member Expr) (bound : ℕ)
    (expression-Ends : (q : Parser)
      → IsValid q
      → remaining q < bound
      → Ends expr_ok 1 q (parse_expression q)) where
  block_loop-Ends :
      (fuel : ℕ) (ss : List Stmt) (p : Parser)
      → IsValid p
      → remaining p < bound
      → remaining p ≤ fuel
      → stmts_ok (stmts_of ss) ≡ true
      → Ends body_ok 0 p (block_loop fuel parse_expression ss p)
  unfolding block_loop expr_ok
  block_loop-Ends zero ss p v b f g = absurd (omega (arith, v.in_range))
  block_loop-Ends (suc fuel) ss p v b f g =
      on_test-Ends p _ _ _ (λ _. gives p _ v (ground (arith, g)))
        (λ _.
          on_match-Ends p _ _ _ v (λ e. cc e) (omega arith)
            (λ let_kw q m.
              next
                (loosen (
                  parse_let_stmt_no_semicolon-Ends parse_expression bound expression-Ends let_kw q
                    m.valid (omega arith)))
                (λ s r n k.
                  next (loosen (consume-Ends r n.valid semicolon _ (λ e. cc e))) (λ semi t o _.
                    block_loop-Ends fuel _ t o.valid (omega arith) (omega arith)
                      (stmts_ok-grown ss _ g (let-closed s semi k)))))
            (loosen (
              start (expression-Ends p v b) (λ e q m k.
                on_match-Ends q _ _ _ m.valid (λ e. cc e) (omega arith)
                  (λ semi r n.
                    block_loop-Ends fuel _ r n.valid (omega arith) (omega arith)
                      (stmts_ok-grown ss (expr_stmt e _) g k))
                  (on_test-Ends q _ _ _
                    (λ _.
                      block_loop-Ends fuel _ q m.valid (omega arith) (omega arith)
                        (stmts_ok-grown ss (expr_stmt e _) g k))
                    (λ _.
                      on_test-Ends q _ _ _ (λ _. fails q m.valid)
                        (λ _. gives q _ m.valid (ground (arith, g, k)))))))))

  pub parse_block_expr-Ends :
      (p : Parser)
      → IsValid p
      → remaining p ≤ bound
      → Ends block_ok 1 p (parse_block_expr parse_expression p)
  unfolding parse_block_expr expr_ok
  parse_block_expr-Ends p v b = start (consume-Ends p v l_brace _ (λ e. cc e)) (λ _ q m _.
      next (block_loop-Ends (remaining q) [] q m.valid (omega arith) (omega arith) refl)
        (λ body r n g.
          next (loosen (consume-Ends r n.valid r_brace _ (λ e. cc e)))
            (λ _ s o _. gives s _ o.valid g)))
