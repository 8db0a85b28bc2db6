-- ===== src/Parser/MembersEnd.antt =====
-- The members of declarations end: generic parameters, constraints, fields, variants, parameters and results.
use cicest.Prelude.{
  ℕ, zero, suc, ◌≤◌, ◌≡◌, refl, Bool, true, false, ◌&&◌, List, [], ◌∷◌, ◌++◌, arith,
}
use cicest.Token.{lt, gt, colon, number, l_paren, r_paren}
use cicest.Ast.{TypeRef, type_ref, requires_ct}
use cicest.Ast.Items.{GenericParam, GenericConstraint, FieldDecl, EnumVariant, Param}
use cicest.Parser.{Parser, remaining}
use cicest.Parser.Monad.{contains}
use cicest.Parser.Cursor.{IsValid}
use cicest.Parser.TypesEnd.{parse_type-Ends}
use cicest.Parser.ExprsEnd.{parse_condition_expression-Ends}
use cicest.Parser.Primary.{parse_expression}
use cicest.Parser.PrimaryEnd.{parse_expression-Ends}
use cicest.Parser.Items.{
  param_names, generic_param, parse_generic_param_list, generic_params, where_loop,
  parse_where_clause, runtime_or_plain_type, field_names, field_decl, variant_names, enum_variant,
  fn_param_names, fn_param, fn_params, return_type,
}
use cicest.Parser.Ends.{
  Ends, gives, fails, loosen, start, next, on_test-Ends, on_match-Ends, previous_token-Ends,
  consume-Ends, fresh_identifier-Ends, comma_list-Ends, optional_list-Ends,
}
use cicest.Parser.WellFormed.{
  expr_ok, well_qualified, opt_qualified, distinct, constraints_ok, field_types_ok, param_types_ok,
  distinct-map_append, constraints_ok-append, field_types_ok-append, param_types_ok-append,
}

abbrev pub generics_ok : List GenericParam → Bool
generics_ok ps = distinct (param_names ps)

pub generic_param-Ends :
    (seen : List GenericParam) (p : Parser)
    → IsValid p
    → generics_ok seen ≡ true
    → Ends (λ x. generics_ok (seen ++ x ∷ [])) 1 p (generic_param seen p)
unfolding generic_param
generic_param-Ends seen p v g =
    start (fresh_identifier-Ends p v _ _ _ (param_names seen)) (λ name q m h.
      gives q _ m.valid (distinct-map_append (λ x. x.name) seen _ (ground (arith, h)) g))

pub generic_params-Ends : (p : Parser) → IsValid p → Ends generics_ok 0 p (generic_params p)
unfolding generic_params parse_generic_param_list distinct
generic_params-Ends p v =
    on_test-Ends p _ _ _
      (λ _. loosen (
        start (consume-Ends p v lt _ (λ e. cc e)) (λ _ q m _.
          next
            (loosen (
              comma_list-Ends generics_ok gt generic_param (remaining q)
                (λ seen r w l h. generic_param-Ends seen r w h) q m.valid (omega arith) refl))
            (λ params r n g.
              next (loosen (consume-Ends r n.valid gt _ (λ e. cc e)))
                (λ _ s o _. gives s _ o.valid g)))))
      (λ _. gives p _ v refl)

pub constraints_ok-grown :
    (cs : List GenericConstraint) (c : GenericConstraint)
    → constraints_ok cs ≡ true
    → expr_ok c.expr ≡ true
    → constraints_ok (cs ++ c ∷ []) ≡ true
constraints_ok-grown cs c g h = ground (arith, constraints_ok-append cs c, g, h)

pub where_loop-Ends :
    (fuel : ℕ) (cs : List GenericConstraint) (p : Parser)
    → IsValid p
    → remaining p ≤ fuel
    → constraints_ok cs ≡ true
    → Ends constraints_ok 0 p (where_loop fuel cs p)
unfolding where_loop
where_loop-Ends zero cs p v f g = absurd (omega (arith, v.in_range))
where_loop-Ends (suc fuel) cs p v f g =
    on_test-Ends p _ _ _ (λ _. fails p v)
      (λ _. loosen (
        start
          (parse_condition_expression-Ends parse_expression (suc (remaining p))
            (λ q w l. parse_expression-Ends q w) p v (omega arith))
          (λ e q m h.
            on_match-Ends q _ _ _ m.valid (λ e. cc e) (omega arith)
              (λ _ r n.
                on_test-Ends r _ _ _ (λ _. fails r n.valid)
                  (λ _.
                    where_loop-Ends fuel _ r n.valid (omega arith) (constraints_ok-grown cs _ g h)))
              (gives q _ m.valid (constraints_ok-grown cs _ g h)))))

pub parse_where_clause-Ends :
    (p : Parser) → IsValid p → Ends constraints_ok 0 p (parse_where_clause p)
unfolding parse_where_clause constraints_ok
parse_where_clause-Ends p v =
    on_match-Ends p _ _ _ v (λ e. cc e) (omega arith)
      (λ _ q m. where_loop-Ends (remaining q) [] q m.valid (omega arith) refl) (gives p _ v refl)

-- Without `const` a type is well qualified where `const` is not allowed.
pub well_qualified-plain :
    (t : TypeRef)
    → requires_ct t ≡ false
    → well_qualified true t ≡ true
    → well_qualified false t ≡ true
unfolding well_qualified
well_qualified-plain (type_ref k s d p r gs c) h g = ground (arith, h, g)

pub runtime_or_plain_type-Ends :
    (p : Parser) → IsValid p → Ends (well_qualified false) 1 p (runtime_or_plain_type p)
unfolding runtime_or_plain_type
runtime_or_plain_type-Ends p v = start (parse_type-Ends true p v) (λ t q m g.
    on_test-Ends q _ _ _ (λ _. fails q m.valid)
      (λ plain. gives q t m.valid (well_qualified-plain t plain g)))

abbrev pub fields_ok : List FieldDecl → Bool
fields_ok fs = distinct (field_names fs) && field_types_ok fs

pub fields_ok-grown :
    (fs : List FieldDecl) (x : FieldDecl)
    → fields_ok fs ≡ true
    → contains x.name (field_names fs) ≡ false
    → well_qualified false x.type ≡ true
    → fields_ok (fs ++ x ∷ []) ≡ true
fields_ok-grown fs x g h k =
    let names = distinct-map_append (λ y. y.name) fs x h (ground (arith, g)) in
    ground (arith, names, field_types_ok-append fs x, g, k)

pub field_decl-Ends :
    (seen : List FieldDecl) (p : Parser)
    → IsValid p
    → fields_ok seen ≡ true
    → Ends (λ x. fields_ok (seen ++ x ∷ [])) 1 p (field_decl seen p)
unfolding field_decl
field_decl-Ends seen p v g =
    start (fresh_identifier-Ends p v _ _ _ (field_names seen)) (λ name q m h.
      next (loosen (consume-Ends q m.valid colon _ (λ e. cc e))) (λ _ r n _.
        next (loosen (runtime_or_plain_type-Ends r n.valid)) (λ type s o k.
          next (previous_token-Ends s o.valid)
            (λ last t u _. gives t _ u.valid (fields_ok-grown seen _ g (ground (arith, h)) k)))))

abbrev pub variants_ok : List EnumVariant → Bool
variants_ok vs = distinct (variant_names vs)

pub enum_variant-Ends :
    (seen : List EnumVariant) (p : Parser)
    → IsValid p
    → variants_ok seen ≡ true
    → Ends (λ x. variants_ok (seen ++ x ∷ [])) 1 p (enum_variant seen p)
unfolding enum_variant
enum_variant-Ends seen p v g =
    start (fresh_identifier-Ends p v _ _ _ (variant_names seen)) (λ name q m h.
      on_match-Ends q _ _ _ m.valid (λ e. cc e) (omega arith)
        (λ _ r n. next (loosen (consume-Ends r n.valid number _ (λ e. cc e))) (λ value s o _.
          gives s _ o.valid (distinct-map_append (λ x. x.name) seen _ (ground (arith, h)) g)))
        (gives q _ m.valid (distinct-map_append (λ x. x.name) seen _ (ground (arith, h)) g)))

abbrev pub params_ok : List Param → Bool
params_ok ps = distinct (fn_param_names ps) && param_types_ok ps

pub params_ok-grown :
    (ps : List Param) (x : Param)
    → params_ok ps ≡ true
    → contains x.name (fn_param_names ps) ≡ false
    → well_qualified true x.type ≡ true
    → params_ok (ps ++ x ∷ []) ≡ true
params_ok-grown ps x g h k =
    let names = distinct-map_append (λ y. y.name) ps x h (ground (arith, g)) in
    ground (arith, names, param_types_ok-append ps x, g, k)

pub fn_param-Ends :
    (seen : List Param) (p : Parser)
    → IsValid p
    → params_ok seen ≡ true
    → Ends (λ x. params_ok (seen ++ x ∷ [])) 1 p (fn_param seen p)
unfolding fn_param
fn_param-Ends seen p v g =
    start (fresh_identifier-Ends p v _ _ _ (fn_param_names seen)) (λ name q m h.
      next (loosen (consume-Ends q m.valid colon _ (λ e. cc e))) (λ _ r n _.
        next (loosen (parse_type-Ends true r n.valid)) (λ type s o k.
          next (previous_token-Ends s o.valid)
            (λ last t u _. gives t _ u.valid (params_ok-grown seen _ g (ground (arith, h)) k)))))

pub fn_params-Ends : (p : Parser) → IsValid p → Ends params_ok 1 p (fn_params p)
unfolding fn_params distinct param_types_ok
fn_params-Ends p v = start (consume-Ends p v l_paren _ (λ e. cc e)) (λ _ q m _.
    next
      (optional_list-Ends params_ok r_paren fn_param (remaining q)
        (λ seen r w l h. fn_param-Ends seen r w h) q m.valid (omega arith) refl)
      (λ params r n g.
        next (loosen (consume-Ends r n.valid r_paren _ (λ e. cc e)))
          (λ _ s o _. gives s _ o.valid g)))

pub return_type-Ends : (p : Parser) → IsValid p → Ends (opt_qualified false) 0 p (return_type p)
unfolding return_type opt_qualified
return_type-Ends p v =
    on_match-Ends p _ _ _ v (λ e. cc e) (omega arith)
      (λ _ q m.
        next (loosen (runtime_or_plain_type-Ends q m.valid)) (λ t r n g. gives r _ n.valid g))
      (gives p _ v refl)
