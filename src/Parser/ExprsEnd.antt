-- ===== src/Parser/ExprsEnd.antt =====
-- Calls, postfix expressions, conditions and bindings end where what is nested in them does.
use cicest.Prelude.{
  ℕ, zero, suc, ◌≤◌, ◌<◌, ◌≡◌, refl, true, List, [], ◌∷◌, ◌++◌, inl, inr, arith, bytes,
  Option-cases,
}
use cicest.Token.{Token, r_paren, colon_colon, assign}
use cicest.Ast.Nodes.{Expr, exprs_of, expr_node}
use cicest.Parser.{Parser, remaining, check}
use cicest.Parser.Lookahead.{looks_like_turbofish}
use cicest.Parser.Monad.{Member}
use cicest.Parser.Cursor.{IsValid, intern_text-Moved}
use cicest.Parser.TypesEnd.{parse_type-Ends, parse_generic_argument_list-Ends}
use cicest.Parser.Exprs.{
  call_of, decl_of, call_args, bare_path, parse_let_pattern, type_annotation, postfix_on,
  parse_condition_expression, parse_let_stmt_no_semicolon,
}
use cicest.Parser.Ends.{
  Ends, anything, better, gives, fails, loosen, after, start, next, on_test-Ends, on_match-Ends,
  previous_token-Ends, take_token-Ends, consume-Ends, consume_identifier-Ends, optional_list-Ends,
}
use cicest.Parser.WellFormed.{
  expr_ok, exprs_ok, let_ok, opt_qualified, args_qualified, exprs_ok-append,
}

-- `decl` of one argument, or of another number of them, and a call.
decl_of-Ends :
    (e : Expr) (args : List Expr) (close : Token) (q : Parser)
    → IsValid q
    → exprs_ok (exprs_of args) ≡ true
    → Ends expr_ok 0 q (decl_of e args close q)
unfolding expr_ok
decl_of-Ends e [] close q v g = fails q v
decl_of-Ends e (a ∷ []) close q v g = gives q _ v (ground (arith, g))
decl_of-Ends e (a ∷ b ∷ args) close q v g = fails q v

call_of-Ends :
    (e : Expr) (args : List Expr) (close : Token) (q : Parser)
    → IsValid q
    → expr_ok e ≡ true
    → exprs_ok (exprs_of args) ≡ true
    → Ends expr_ok 0 q (call_of e args close q)
unfolding call_of expr_ok
call_of-Ends e args close q v g k = elim (Option-cases (bare_path (expr_node e))) [
  | inl miss ↦ rw (miss, call_of) (gives q _ v (ground (arith, g, k)))
  | inr (path, hit) ↦
      let m = intern_text-Moved q (bytes "decl") v in
      rw (hit, call_of)
        (after m (
          on_test-Ends _ _ _ _ (λ _. decl_of-Ends e args close _ m.valid k)
            (λ _. gives _ _ m.valid (ground (arith, g, k)))))
]

turbofish-colon_colon : (p : Parser) → looks_like_turbofish p ≡ true → check colon_colon p ≡ true
unfolding looks_like_turbofish
turbofish-colon_colon p h = ground (arith, h)

-- What is nested ends on parsers with fewer tokens left than `bound`.
module _ (parse_expression : Member Expr) (bound : ℕ)
    (expression-Ends : (q : Parser)
      → IsValid q
      → remaining q < bound
      → Ends expr_ok 1 q (parse_expression q)) where
  pub expressions-Ends :
      (es : List Expr) (q : Parser)
      → IsValid q
      → remaining q < bound
      → exprs_ok (exprs_of es) ≡ true
      → Ends (λ e. exprs_ok (exprs_of (es ++ e ∷ []))) 1 q (parse_expression q)
  expressions-Ends es q v b g =
      better (λ e k. ground (arith, exprs_ok-append es e, g, k)) (expression-Ends q v b)

  call_args-Ends :
      (q : Parser)
      → IsValid q
      → remaining q < bound
      → Ends (λ es. exprs_ok (exprs_of es)) 0 q (call_args parse_expression q)
  unfolding expr_ok
  call_args-Ends q v b =
      optional_list-Ends (λ es. exprs_ok (exprs_of es)) r_paren (λ _. parse_expression)
        (remaining q) (λ es r w l g. expressions-Ends es r w (omega arith) g) q v (omega arith) refl

  pub postfix_on-Ends :
      (fuel : ℕ) (e : Expr) (p : Parser)
      → IsValid p
      → remaining p ≤ bound
      → remaining p ≤ fuel
      → expr_ok e ≡ true
      → Ends expr_ok 0 p (postfix_on fuel parse_expression e p)
  unfolding postfix_on expr_ok
  postfix_on-Ends zero e p v b f g = absurd (omega (arith, v.in_range))
  postfix_on-Ends (suc fuel) e p v b f g =
      on_test-Ends p _ _ _ (λ _. gives p e v g)
        (λ _.
          on_test-Ends p _ _ _
            (λ turbofish. loosen (
              start
                (take_token-Ends p v colon_colon (turbofish-colon_colon p turbofish) (λ e. cc e))
                (λ _ q m _.
                  next (loosen (parse_generic_argument_list-Ends q m.valid)) (λ args r n k.
                    next (previous_token-Ends r n.valid) (λ last s o _.
                      postfix_on-Ends fuel _ s o.valid (omega arith) (omega arith)
                        (ground (arith, g, k)))))))
            (λ _.
              on_match-Ends p _ _ _ v (λ e. cc e) (omega arith)
                (λ _ q m. next (loosen (consume_identifier-Ends q m.valid _)) (λ name r n _.
                  postfix_on-Ends fuel _ r n.valid (omega arith) (omega arith) (ground (arith, g))))
                (on_match-Ends p _ _ _ v (λ e. cc e) (omega arith)
                  (λ _ q m. next (call_args-Ends q m.valid (omega arith)) (λ args r n k.
                    next (loosen (consume-Ends r n.valid r_paren _ (λ e. cc e))) (λ close s o _.
                      next (call_of-Ends e args close s o.valid g k) (λ call t u h.
                        postfix_on-Ends fuel call t u.valid (omega arith) (omega arith) h))))
                  (gives p e v g))))

  pub parse_condition_expression-Ends :
      (p : Parser)
      → IsValid p
      → remaining p < bound
      → Ends expr_ok 1 p (parse_condition_expression parse_expression p)
  unfolding parse_condition_expression expr_ok args_qualified
  parse_condition_expression-Ends p v b =
      on_test-Ends p _ _ _
        (λ _. start (consume_identifier-Ends p v _) (λ name q m _. gives q _ m.valid refl))
        (λ _. expression-Ends p v b)

  parse_let_pattern-Ends : (p : Parser) → IsValid p → Ends anything 1 p (parse_let_pattern p)
  unfolding parse_let_pattern
  parse_let_pattern-Ends p v = start (consume_identifier-Ends p v _) (λ name q m _.
      on_test-Ends q _ _ _ (λ _. gives q _ m.valid refl) (λ _. gives q _ m.valid refl))

  type_annotation-Ends :
      (p : Parser) → IsValid p → Ends (opt_qualified true) 0 p (type_annotation p)
  unfolding type_annotation opt_qualified
  type_annotation-Ends p v =
      on_match-Ends p _ _ _ v (λ e. cc e) (omega arith)
        (λ _ q m. next (loosen (parse_type-Ends true q m.valid)) (λ t r n g. gives r _ n.valid g))
        (gives p _ v refl)

  pub parse_let_stmt_no_semicolon-Ends :
      (let_kw : Token) (p : Parser)
      → IsValid p
      → remaining p ≤ bound
      → Ends let_ok 1 p (parse_let_stmt_no_semicolon parse_expression let_kw p)
  unfolding parse_let_stmt_no_semicolon expr_ok
  parse_let_stmt_no_semicolon-Ends let_kw p v b =
      start (parse_let_pattern-Ends p v) (λ pattern q m _.
        next (type_annotation-Ends q m.valid) (λ annotation r n g.
          next (loosen (consume-Ends r n.valid assign _ (λ e. cc e))) (λ _ s o _.
            next (loosen (expression-Ends s o.valid (omega arith)))
              (λ initializer t u h. gives t _ u.valid (ground (arith, g, h))))))
