-- ===== src/Parser/ItemsEnd.antt =====
-- Declarations end, and declare distinct names.
use cicest.Prelude.{refl, Bool, List, arith}
use cicest.Symbol.{Symbol}
use cicest.Token.{Token, semicolon, l_brace, r_brace}
use cicest.Ast.Items.{Attribute, of_struct, of_enum, of_fn, of_extern_fn}
use cicest.Parser.{Parser, remaining}
use cicest.Parser.Cursor.{IsValid}
use cicest.Parser.BlocksEnd.{parse_block_expr-Ends}
use cicest.Parser.Primary.{parse_expression}
use cicest.Parser.PrimaryEnd.{parse_expression-Ends}
use cicest.Parser.Items.{
  field_decl, parse_struct_decl, enum_variant, parse_enum_decl, parse_fn_decl, parse_extern_fn_decl,
  parse_extern_struct_decl,
}
use cicest.Parser.Ends.{
  Ends, anything, gives, loosen, start, next, on_match-Ends, consume-Ends, consume_identifier-Ends,
  optional_list-Ends,
}
use cicest.Parser.WellFormed.{distinct, field_types_ok, item_ok}
use cicest.Parser.MembersEnd.{
  enum_variant-Ends, field_decl-Ends, fields_ok, fn_params-Ends, generic_params-Ends,
  parse_where_clause-Ends, return_type-Ends, variants_ok,
}

module _ (lead_token : Token) (attributes : List Attribute) (is_public : Bool) where
  pub parse_struct_decl-Ends :
      (p : Parser)
      → IsValid p
      → Ends (λ d. item_ok (of_struct d)) 1 p (parse_struct_decl lead_token attributes is_public p)
  unfolding parse_struct_decl item_ok distinct field_types_ok
  parse_struct_decl-Ends p v = start (consume_identifier-Ends p v _) (λ name q m _.
      next (generic_params-Ends q m.valid) (λ params r n g.
        next (parse_where_clause-Ends r n.valid) (λ constraints s o h.
          on_match-Ends s _ _ _ o.valid (λ e. cc e) (omega arith)
            (λ _ t u. gives t _ u.valid (ground (arith, g, h)))
            (next (loosen (consume-Ends s o.valid l_brace _ (λ e. cc e))) (λ _ t u _.
              next
                (optional_list-Ends fields_ok r_brace field_decl (remaining t)
                  (λ seen w x l k. field_decl-Ends seen w x k) t u.valid (omega arith) refl)
                (λ fields w x k.
                  next (loosen (consume-Ends w x.valid r_brace _ (λ e. cc e)))
                    (λ _ y z _. gives y _ z.valid (ground (arith, g, h, k)))))))))

  pub parse_enum_decl-Ends :
      (p : Parser)
      → IsValid p
      → Ends (λ d. item_ok (of_enum d)) 1 p (parse_enum_decl lead_token attributes is_public p)
  unfolding parse_enum_decl item_ok distinct
  parse_enum_decl-Ends p v = start (consume_identifier-Ends p v _) (λ name q m _.
      next (generic_params-Ends q m.valid) (λ params r n g.
        next (parse_where_clause-Ends r n.valid) (λ constraints s o h.
          next (loosen (consume-Ends s o.valid l_brace _ (λ e. cc e))) (λ _ t u _.
            next
              (optional_list-Ends variants_ok r_brace enum_variant (remaining t)
                (λ seen w x l k. enum_variant-Ends seen w x k) t u.valid (omega arith) refl)
              (λ variants w x k.
                next (loosen (consume-Ends w x.valid r_brace _ (λ e. cc e)))
                  (λ _ y z _. gives y _ z.valid (ground (arith, g, h, k))))))))

  pub parse_fn_decl-Ends :
      (is_runtime : Bool) (p : Parser)
      → IsValid p
      → Ends
          (λ d. item_ok (of_fn d))
          1
          p
          (parse_fn_decl lead_token attributes is_public is_runtime p)
  unfolding parse_fn_decl item_ok
  parse_fn_decl-Ends is_runtime p v = start (consume_identifier-Ends p v _) (λ name q m _.
      next (generic_params-Ends q m.valid) (λ generics r n g.
        next (loosen (fn_params-Ends r n.valid)) (λ params s o h.
          next (return_type-Ends s o.valid) (λ result t u k.
            next (parse_where_clause-Ends t u.valid) (λ constraints w x l.
              next
                (loosen (
                  parse_block_expr-Ends parse_expression (remaining w)
                    (λ y z b. parse_expression-Ends y z) w x.valid (omega arith)))
                (λ body y z a. gives y _ z.valid (ground (arith, g, h, k, l, a))))))))

  pub parse_extern_fn_decl-Ends :
      (abi : Symbol) (is_runtime : Bool) (p : Parser)
      → IsValid p
      → Ends
          (λ d. item_ok (of_extern_fn d))
          1
          p
          (parse_extern_fn_decl lead_token abi attributes is_public is_runtime p)
  unfolding parse_extern_fn_decl item_ok
  parse_extern_fn_decl-Ends abi is_runtime p v =
      start (consume_identifier-Ends p v _) (λ name q m _.
        next (loosen (fn_params-Ends q m.valid)) (λ params r n g.
          next (return_type-Ends r n.valid) (λ result s o h.
            next (loosen (consume-Ends s o.valid semicolon _ (λ e. cc e)))
              (λ semi t u _. gives t _ u.valid (ground (arith, g, h))))))

  pub parse_extern_struct_decl-Ends :
      (abi : Symbol) (p : Parser)
      → IsValid p
      → Ends anything 1 p (parse_extern_struct_decl lead_token abi attributes is_public p)
  unfolding parse_extern_struct_decl
  parse_extern_struct_decl-Ends abi p v = start (consume_identifier-Ends p v _) (λ name q m _.
      next (loosen (consume-Ends q m.valid semicolon _ (λ e. cc e)))
        (λ semi r n _. gives r _ n.valid refl))
