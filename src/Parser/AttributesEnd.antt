-- ===== src/Parser/AttributesEnd.antt =====
-- Attributes and imports end.
use cicest.Prelude.{ℕ, zero, suc, ◌≤◌, refl, Bool, List, arith}
use cicest.Token.{Token, semicolon, string, l_brace, r_brace, l_bracket, r_bracket, kw_from}
use cicest.Ast.Items.{Attribute, ImportItem}
use cicest.Parser.{Parser, remaining}
use cicest.Parser.Cursor.{IsValid}
use cicest.Parser.Program.{
  attribute_value, parse_attribute, attributes_loop, import_item, parse_import_decl,
}
use cicest.Parser.Ends.{
  Ends, anything, gives, fails, loosen, start, next, on_test-Ends, on_match-Ends, consume-Ends,
  consume_identifier-Ends, contents_of-Ends, optional_list-Ends,
}

pub attribute_value-Ends : (p : Parser) → IsValid p → Ends anything 0 p (attribute_value p)
unfolding attribute_value
attribute_value-Ends p v =
    on_match-Ends p _ _ _ v (λ e. cc e) (omega arith)
      (λ _ q m. next (loosen (consume-Ends q m.valid string _ (λ e. cc e))) (λ value r n _.
        next (contents_of-Ends r n.valid value) (λ symbol s o _. gives s _ o.valid refl)))
      (gives p _ v refl)

pub parse_attribute-Ends : (p : Parser) → IsValid p → Ends anything 1 p (parse_attribute p)
unfolding parse_attribute
parse_attribute-Ends p v = start (consume-Ends p v l_bracket _ (λ e. cc e)) (λ _ q m _.
    next (loosen (consume-Ends q m.valid l_bracket _ (λ e. cc e))) (λ _ r n _.
      next (loosen (consume_identifier-Ends r n.valid _)) (λ name s o _.
        next (attribute_value-Ends s o.valid) (λ value t u _.
          next (loosen (consume-Ends t u.valid r_bracket _ (λ e. cc e))) (λ _ w x _.
            next (loosen (consume-Ends w x.valid r_bracket _ (λ e. cc e)))
              (λ _ y z _. gives y _ z.valid refl))))))

pub attributes_loop-Ends :
    (fuel : ℕ) (attributes : List Attribute) (p : Parser)
    → IsValid p
    → remaining p ≤ fuel
    → Ends anything 0 p (attributes_loop fuel attributes p)
unfolding attributes_loop
attributes_loop-Ends zero attributes p v f = absurd (omega (arith, v.in_range))
attributes_loop-Ends (suc fuel) attributes p v f =
    on_test-Ends p _ _ _
      (λ _.
        on_test-Ends p _ _ _
          (λ _. loosen (
            start (parse_attribute-Ends p v)
              (λ attribute q m _. attributes_loop-Ends fuel _ q m.valid (omega arith))))
          (λ _. fails p v))
      (λ _. gives p attributes v refl)

pub import_item-Ends :
    (seen : List ImportItem) (p : Parser) → IsValid p → Ends anything 1 p (import_item seen p)
unfolding import_item
import_item-Ends seen p v = start (consume_identifier-Ends p v _) (λ name q m _.
    on_match-Ends q _ _ _ m.valid (λ e. cc e) (omega arith)
      (λ _ r n.
        next (loosen (consume_identifier-Ends r n.valid _)) (λ alias s o _. gives s _ o.valid refl))
      (gives q _ m.valid refl))

pub parse_import_decl-Ends :
    (lead_token : Token) (is_public : Bool) (p : Parser)
    → IsValid p
    → Ends anything 1 p (parse_import_decl lead_token is_public p)
unfolding parse_import_decl
parse_import_decl-Ends lead_token is_public p v =
    start (consume-Ends p v l_brace _ (λ e. cc e)) (λ _ q m _.
      on_test-Ends q _ _ _ (λ _. fails q m.valid)
        (λ _.
          next
            (optional_list-Ends anything r_brace import_item (remaining q)
              (λ seen r w l h. import_item-Ends seen r w) q m.valid (omega arith) refl)
            (λ items r n _. next (loosen (consume-Ends r n.valid r_brace _ (λ e. cc e))) (λ _ s o _.
              next (loosen (consume-Ends s o.valid kw_from _ (λ e. cc e))) (λ _ t u _.
                next (loosen (consume-Ends t u.valid string _ (λ e. cc e))) (λ path w x _.
                  next (loosen (consume-Ends w x.valid semicolon _ (λ e. cc e))) (λ semi y z _.
                    next (contents_of-Ends y z.valid path)
                      (λ contents a c _. gives a _ c.valid refl))))))))
