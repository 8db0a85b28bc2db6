-- ===== src/Parser/LadderEnd.antt =====
-- The ladder of binary and prefix operators ends where postfix expressions do.
use cicest.Prelude.{
  ℕ, zero, suc, ◌≤◌, ◌≡◌, refl, ap, true, Option, none, inl, inr, arith, Option-cases,
}
use cicest.Token.{TokenKind, end_of_file}
use cicest.Ast.{BinaryOp}
use cicest.Ast.Nodes.{Expr}
use cicest.Parser.{Parser, peek, remaining, advance}
use cicest.Parser.Monad.{Member}
use cicest.Parser.Cursor.{IsValid, advance-Moved_any}
use cicest.Parser.Exprs.{
  or_op, and_op, equality_op, relational_op, additive_op, multiplicative_op, binary_loop,
  binary_level, unary_on, parse_unary, parse_multiplicative, parse_additive, parse_relational,
  parse_equality, parse_logical_and, parse_logical_or,
}
use cicest.Parser.Ends.{Ends, gives, loosen, behind_token, start, next, on_match-Ends}
use cicest.Parser.WellFormed.{expr_ok}

module _ (op_of : TokenKind → Option BinaryOp) (none_at_end : op_of end_of_file ≡ none)
    (operand : Member Expr) (bound : ℕ)
    (operand-Ends : (q : Parser)
      → IsValid q
      → remaining q ≤ bound
      → Ends expr_ok 1 q (operand q)) where
  binary_loop-Ends :
      (fuel : ℕ) (lhs : Expr) (p : Parser)
      → IsValid p
      → remaining p ≤ bound
      → remaining p ≤ fuel
      → expr_ok lhs ≡ true
      → Ends expr_ok 0 p (binary_loop fuel op_of operand lhs p)
  unfolding binary_loop expr_ok
  binary_loop-Ends zero lhs p v b f g = absurd (omega (arith, v.in_range))
  binary_loop-Ends (suc fuel) lhs p v b f g = elim (Option-cases (op_of (peek p 0).kind)) [
    | inl miss ↦ rw (miss, binary_loop) (gives p lhs v g)
    | inr (op, hit) ↦
        let m = advance-Moved_any p v (λ e. cc (ap op_of e, none_at_end, hit)) in
        rw (hit, binary_loop)
          (behind_token (omega arith) m (
            next (loosen (operand-Ends (advance p) m.valid (omega arith))) (λ rhs q n k.
              binary_loop-Ends fuel _ q n.valid (omega arith) (omega arith)
                (ground (arith, g, k)))))
  ]

  binary_level-Ends :
      (p : Parser)
      → IsValid p
      → remaining p ≤ bound
      → Ends expr_ok 1 p (binary_level op_of operand p)
  unfolding binary_level
  binary_level-Ends p v b =
      start (operand-Ends p v b)
        (λ lhs q m g. binary_loop-Ends (remaining q) lhs q m.valid (omega arith) (omega arith) g)

-- The ladder above `parse_unary`.
module _ (unary : Member Expr) (bound : ℕ)
    (unary-Ends : (q : Parser) → IsValid q → remaining q ≤ bound → Ends expr_ok 1 q (unary q)) where
  pub parse_logical_or-Ends :
      (p : Parser) → IsValid p → remaining p ≤ bound → Ends expr_ok 1 p (parse_logical_or unary p)
  unfolding parse_logical_or parse_logical_and parse_equality parse_relational parse_additive
      parse_multiplicative
  parse_logical_or-Ends = binary_level-Ends or_op refl _ bound (
      binary_level-Ends and_op refl _ bound (
        binary_level-Ends equality_op refl _ bound (
          binary_level-Ends relational_op refl _ bound (
            binary_level-Ends additive_op refl _ bound
              (binary_level-Ends multiplicative_op refl _ bound unary-Ends)))))

module _ (postfix : Member Expr) (bound : ℕ)
    (postfix-Ends : (q : Parser)
      → IsValid q
      → remaining q ≤ bound
      → Ends expr_ok 1 q (postfix q)) where
  unary_on-Ends :
      (fuel : ℕ) (p : Parser)
      → IsValid p
      → remaining p ≤ bound
      → remaining p ≤ fuel
      → Ends expr_ok 1 p (unary_on fuel postfix p)
  unfolding unary_on expr_ok
  unary_on-Ends zero p v b f = absurd (omega (arith, v.in_range))
  unary_on-Ends (suc fuel) p v b f =
      on_match-Ends p _ _ _ v (λ e. cc e) (omega arith)
        (λ _ q m.
          next (loosen (unary_on-Ends fuel q m.valid (omega arith) (omega arith)))
            (λ e r n g. gives r _ n.valid g))
        (on_match-Ends p _ _ _ v (λ e. cc e) (omega arith)
          (λ _ q m.
            next (loosen (unary_on-Ends fuel q m.valid (omega arith) (omega arith)))
              (λ e r n g. gives r _ n.valid g))
          (on_match-Ends p _ _ _ v (λ e. cc e) (omega arith)
            (λ _ q m.
              next (loosen (unary_on-Ends fuel q m.valid (omega arith) (omega arith)))
                (λ e r n g. gives r _ n.valid g))
            (postfix-Ends p v b)))

  pub parse_unary-Ends :
      (p : Parser) → IsValid p → remaining p ≤ bound → Ends expr_ok 1 p (parse_unary postfix p)
  unfolding parse_unary
  parse_unary-Ends p v b = unary_on-Ends (remaining p) p v b (omega arith)
