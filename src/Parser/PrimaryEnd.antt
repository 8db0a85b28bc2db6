-- ===== src/Parser/PrimaryEnd.antt =====
-- Primary expressions end where what is nested in them does, and so expressions end.
use cicest.Prelude.{
  ℕ, zero, suc, ◌≤◌, ◌<◌, ◌≡◌, refl, Bool, true, false, ◌&&◌, List, [], ◌∷◌, ◌++◌, map, arith,
}
use cicest.Token.{Token, r_paren, l_brace, r_brace, colon_colon, colon}
use cicest.Ast.{TypeRefs}
use cicest.Ast.Nodes.{Expr, StructInitField, field_name, fields_of}
use cicest.Parser.{Parser, remaining}
use cicest.Parser.Monad.{Member, contains}
use cicest.Parser.Cursor.{IsValid}
use cicest.Parser.TypesEnd.{parse_generic_argument_list-Ends}
use cicest.Parser.LadderEnd.{parse_logical_or-Ends, parse_unary-Ends}
use cicest.Parser.ExprsEnd.{postfix_on-Ends}
use cicest.Parser.Primary.{
  parse_if_expr, parenthesized, init_field, struct_init, direct_generic_args, path_or_init,
  keyword_expr, parse_primary, parse_postfix, expr_on, parse_expression,
}
use cicest.Parser.Ends.{
  Ends, gives, fails, loosen, start, next, on_test-Ends, on_match-Ends, take_token-Ends,
  consume-Ends, consume_identifier-Ends, fresh_identifier-Ends, optional_list-Ends,
}
use cicest.Parser.WellFormed.{
  expr_ok, fields_ok, field_ok, args_qualified, distinct, names_of, distinct-map_append,
  names_of-fields_of, fields_ok-append,
}
use cicest.Parser.ControlEnd.{
  block-Ends, condition-Ends, if_on-Ends, optional_value-Ends, parse_for_expr-Ends,
}

-- The fields of an initializer: their names are distinct, and their values are well formed.
abbrev inits_ok : List StructInitField → Bool
inits_ok fs = distinct (names_of (fields_of fs)) && fields_ok (fields_of fs)

inits_ok-append :
    (fs : List StructInitField) (f : StructInitField)
    → inits_ok fs ≡ true
    → contains (field_name f) (map field_name fs) ≡ false
    → field_ok f ≡ true
    → inits_ok (fs ++ f ∷ []) ≡ true
inits_ok-append fs f h fresh k =
    let before : distinct (map field_name fs) ≡ true = ground (arith, h, names_of-fields_of fs) in
    let all : distinct (names_of (fields_of (fs ++ f ∷ []))) ≡ true =
      rw (names_of-fields_of (fs ++ f ∷ [])) (distinct-map_append field_name fs f fresh before) in
    ground (arith, all, h, fields_ok-append fs f, k)

-- What is nested ends on parsers with fewer tokens left than `bound`.
module _ (parse_expression : Member Expr) (bound : ℕ)
    (expression-Ends : (q : Parser)
      → IsValid q
      → remaining q < bound
      → Ends expr_ok 1 q (parse_expression q)) where
  parenthesized-Ends :
      (open_paren : Token) (p : Parser)
      → IsValid p
      → remaining p < bound
      → Ends expr_ok 0 p (parenthesized parse_expression open_paren p)
  unfolding parenthesized expr_ok
  parenthesized-Ends open_paren p v b =
      on_match-Ends p _ _ _ v (λ e. cc e) (omega arith) (λ _ q m. gives q _ m.valid refl)
        (next (loosen (expression-Ends p v b)) (λ inner q m g.
          next (loosen (consume-Ends q m.valid r_paren _ (λ e. cc e)))
            (λ _ r n _. gives r _ n.valid g)))

  init_field-Ends :
      (fs : List StructInitField) (p : Parser)
      → IsValid p
      → remaining p ≤ bound
      → inits_ok fs ≡ true
      → Ends (λ f. inits_ok (fs ++ f ∷ [])) 1 p (init_field parse_expression fs p)
  unfolding init_field expr_ok
  init_field-Ends fs p v b g =
      start (fresh_identifier-Ends p v _ _ _ (map field_name fs)) (λ name q m h.
        next (loosen (consume-Ends q m.valid colon _ (λ e. cc e))) (λ _ r n _.
          next (loosen (expression-Ends r n.valid (omega arith)))
            (λ value s o k. gives s _ o.valid (inits_ok-append fs _ g (ground (arith, h)) k))))

  struct_init-Ends :
      (name : Token) (args : TypeRefs) (p : Parser)
      → IsValid p
      → remaining p ≤ bound
      → args_qualified args ≡ true
      → Ends expr_ok 0 p (struct_init parse_expression name args p)
  unfolding struct_init expr_ok distinct names_of
  struct_init-Ends name args p v b g = loosen (
      start (consume-Ends p v l_brace _ (λ e. cc e)) (λ _ q m _.
        next
          (optional_list-Ends inits_ok r_brace (init_field parse_expression) (remaining q)
            (λ fs r w l h. init_field-Ends fs r w (omega arith) h) q m.valid (omega arith) refl)
          (λ fs r n h.
            next (loosen (consume-Ends r n.valid r_brace _ (λ e. cc e)))
              (λ _ s o _. gives s _ o.valid (ground (arith, g, h))))))

  direct_generic_args-Ends :
      (p : Parser) → IsValid p → Ends args_qualified 0 p (direct_generic_args parse_expression p)
  unfolding direct_generic_args args_qualified
  direct_generic_args-Ends p v =
      on_test-Ends p _ _ _ (λ _. loosen (parse_generic_argument_list-Ends p v))
        (λ _. gives p _ v refl)

  path_or_init-Ends :
      (name : Token) (args : TypeRefs) (p : Parser)
      → IsValid p
      → remaining p ≤ bound
      → args_qualified args ≡ true
      → Ends expr_ok 0 p (path_or_init parse_expression name args p)
  unfolding path_or_init expr_ok
  path_or_init-Ends name args p v b g =
      on_test-Ends p _ _ _
        (λ qualified. loosen (
          start (take_token-Ends p v colon_colon (ground (arith, qualified)) (λ e. cc e))
            (λ _ q m _.
              next (loosen (consume_identifier-Ends q m.valid _))
                (λ variant r n _. gives r _ n.valid g))))
        (λ _. on_test-Ends p _ _ _ (λ _. struct_init-Ends name args p v b g) (λ _. gives p _ v g))

  keyword_expr-Ends :
      (p : Parser)
      → IsValid p
      → remaining p ≤ bound
      → Ends expr_ok 1 p (keyword_expr parse_expression p)
  unfolding keyword_expr parse_if_expr expr_ok
  keyword_expr-Ends p v b =
      on_match-Ends p _ _ _ v (λ e. cc e) (omega arith)
        (λ if_kw q m. loosen (
          if_on-Ends parse_expression bound expression-Ends (remaining q) if_kw q m.valid
            (omega arith) (omega arith)))
        (on_match-Ends p _ _ _ v (λ e. cc e) (omega arith)
          (λ _ q m.
            next
              (loosen (block-Ends parse_expression bound expression-Ends q m.valid (omega arith)))
              (λ body r n g. gives r _ n.valid g))
          (on_match-Ends p _ _ _ v (λ e. cc e) (omega arith)
            (λ _ q m.
              next
                (loosen
                  (condition-Ends parse_expression bound expression-Ends q m.valid (omega arith)))
                (λ condition r n g.
                  next
                    (loosen
                      (block-Ends parse_expression bound expression-Ends r n.valid (omega arith)))
                    (λ body s o h. gives s _ o.valid (ground (arith, g, h)))))
            (on_match-Ends p _ _ _ v (λ e. cc e) (omega arith)
              (λ for_kw q m. loosen (
                parse_for_expr-Ends parse_expression bound expression-Ends for_kw q m.valid
                  (omega arith)))
              (on_match-Ends p _ _ _ v (λ e. cc e) (omega arith)
                (λ _ q m.
                  next
                    (optional_value-Ends parse_expression bound expression-Ends q m.valid
                      (omega arith))
                    (λ value r n g. gives r _ n.valid g))
                (on_match-Ends p _ _ _ v (λ e. cc e) (omega arith) (λ _ q m. gives q _ m.valid refl)
                  (on_match-Ends p _ _ _ v (λ e. cc e) (omega arith)
                    (λ _ q m.
                      next
                        (optional_value-Ends parse_expression bound expression-Ends q m.valid
                          (omega arith))
                        (λ value r n g. gives r _ n.valid g))
                    (on_match-Ends p _ _ _ v (λ e. cc e) (omega arith)
                      (λ _ q m.
                        on_test-Ends q _ _ _ (λ _. fails q m.valid)
                          (λ _.
                            next
                              (loosen (
                                block-Ends parse_expression bound expression-Ends q m.valid
                                  (omega arith)))
                              (λ body r n g. gives r _ n.valid g)))
                      (on_match-Ends p _ _ _ v (λ e. cc e) (omega arith)
                        (λ name q m.
                          next (direct_generic_args-Ends q m.valid)
                            (λ args r n g. path_or_init-Ends name args r n.valid (omega arith) g))
                        (fails p v)))))))))

  parse_primary-Ends :
      (p : Parser)
      → IsValid p
      → remaining p ≤ bound
      → Ends expr_ok 1 p (parse_primary parse_expression p)
  unfolding parse_primary expr_ok
  parse_primary-Ends p v b =
      on_match-Ends p _ _ _ v (λ e. cc e) (omega arith) (λ token q m. gives q _ m.valid refl)
        (on_match-Ends p _ _ _ v (λ e. cc e) (omega arith) (λ token q m. gives q _ m.valid refl)
          (on_match-Ends p _ _ _ v (λ e. cc e) (omega arith) (λ token q m. gives q _ m.valid refl)
            (on_match-Ends p _ _ _ v (λ e. cc e) (omega arith) (λ token q m. gives q _ m.valid refl)
              (on_match-Ends p _ _ _ v (λ e. cc e) (omega arith)
                (λ token q m. parenthesized-Ends token q m.valid (omega arith))
                (on_test-Ends p _ _ _
                  (λ _.
                    start (block-Ends parse_expression bound expression-Ends p v b)
                      (λ body q m g. gives q _ m.valid g))
                  (λ _. keyword_expr-Ends p v b))))))

  parse_postfix-Ends :
      (p : Parser)
      → IsValid p
      → remaining p ≤ bound
      → Ends expr_ok 1 p (parse_postfix parse_expression p)
  unfolding parse_postfix
  parse_postfix-Ends p v b = start (parse_primary-Ends p v b) (λ e q m g.
      postfix_on-Ends parse_expression bound expression-Ends (remaining q) e q m.valid (omega arith)
        (omega arith) g)

expr_on-Ends :
    (fuel : ℕ) (p : Parser) → IsValid p → remaining p ≤ fuel → Ends expr_ok 1 p (expr_on fuel p)
unfolding expr_on
expr_on-Ends zero p v h = absurd (omega (arith, v.in_range))
expr_on-Ends (suc fuel) p v h =
    let deeper : (q : Parser)
        → IsValid q
        → remaining q < remaining p
        → Ends expr_ok 1 q (expr_on fuel q) =
      λ q w l. expr_on-Ends fuel q w (omega arith) in
    parse_logical_or-Ends _ (remaining p)
      (parse_unary-Ends _ (remaining p) (parse_postfix-Ends (expr_on fuel) (remaining p) deeper)) p
      v (omega arith)

-- From a cursor on the tokens, which end with the end of file, `parse_expression` ends: in an error, with the cursor no
-- further back, or in an expression, with one token or more taken, and on the tokens still. In that expression, at
-- every depth, no initializer names a field twice, no type argument is `const`, no type is both `runtime` and
-- `const`, and an annotated type is `const` at its top level alone.
pub parse_expression-Ends : (p : Parser) → IsValid p → Ends expr_ok 1 p (parse_expression p)
unfolding parse_expression
parse_expression-Ends p v = expr_on-Ends (remaining p) p v (omega arith)
