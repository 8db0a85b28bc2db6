-- ===== src/Parser/TypesEnd.antt =====
-- `parse_type` ends, in an error or in a type that is well qualified, with the cursor on the tokens.
use cicest.Prelude.{
  ℕ, zero, suc, ◌≤◌, ◌<◌, ◌≡◌, refl, Bool, true, false, List, [], ◌∷◌, ◌++◌, inl, inr, arith, bytes,
  Option-cases,
}
use cicest.Token.{Token, lt, gt}
use cicest.Ast.{TypeKind, TypeRef, type_ref}
use cicest.Parser.{Parser, remaining, match_contextual_keyword, previous}
use cicest.Parser.Monad.{Member, on_test}
use cicest.Parser.Cursor.{IsValid, Moved, stay, match_contextual_keyword-Moved, emit_warning-Moved}
use cicest.Parser.Types.{
  add_runtime, add_const, type_refs_of, runtime_type, const_type, bang_type, argument_list,
  named_or_generic, keyword_type, const_or, type_body, type_on, parse_type,
  parse_generic_argument_list, plain_type,
}
use cicest.Parser.Ends.{
  Ends, ends_parsed, better, gives, fails, loosen, behind_token, start, next, on_test-Ends,
  on_match-Ends, consume-Ends, consume_identifier-Ends, comma_list-Ends,
}
use cicest.Parser.WellFormed.{well_qualified, args_qualified, args_qualified-append}

add_runtime-Ends :
    (allow : Bool) (a : TypeRef) (q : Parser)
    → IsValid q
    → well_qualified allow a ≡ true
    → Ends (well_qualified allow) 0 q (add_runtime a q)
unfolding add_runtime well_qualified on_test
add_runtime-Ends allow (type_ref k s d p r gs true) q v g = fails q v
add_runtime-Ends allow (type_ref k s d p r gs false) q v g = gives q _ v (ground (arith, g))

add_const-Ends :
    (warn : Parser → Parser) (a : TypeRef) (q : Parser)
    → IsValid q
    → Moved 0 q (warn q)
    → well_qualified true a ≡ true
    → Ends (well_qualified true) 0 q (add_const warn a q)
unfolding add_const well_qualified on_test
add_const-Ends warn (type_ref k s d p true gs c) q v w g = fails q v
add_const-Ends warn (type_ref k s d p false gs true) q v w g = fails q v
add_const-Ends warn (type_ref k s d p false gs false) q v w g = ends_parsed w (ground (arith, g))

-- The recursive calls end on parsers with fewer tokens left than `bound`.
module _ (types : Bool → Member TypeRef) (bound : ℕ)
    (types-Ends : (allow : Bool) (q : Parser)
      → IsValid q
      → remaining q < bound
      → Ends (well_qualified allow) 1 q (types allow q)) where
  runtime_type-Ends :
      (allow : Bool) (q : Parser)
      → IsValid q
      → remaining q < bound
      → Ends (well_qualified allow) 0 q (runtime_type types allow q)
  unfolding runtime_type
  runtime_type-Ends allow q v b =
      on_test-Ends q _ _ _ (λ _. fails q v)
        (λ _.
          next (loosen (types-Ends allow q v b)) (λ a r m g. add_runtime-Ends allow a r m.valid g))

  const_type-Ends :
      (warn : Parser → Parser) (qualifier : Token) (allow : Bool) (q : Parser)
      → ((r : Parser) → IsValid r → Moved 0 r (warn r))
      → IsValid q
      → remaining q < bound
      → Ends (well_qualified allow) 0 q (const_type types warn qualifier allow q)
  unfolding const_type on_test
  const_type-Ends warn qualifier false q w v b = fails q v
  const_type-Ends warn qualifier true q w v b =
      next (loosen (types-Ends true q v b))
        (λ a r m g. add_const-Ends warn a r m.valid (w r m.valid) g)

  plain_type-Ends :
      (kind : TypeKind) (token : Token) (allow : Bool) (q : Parser)
      → IsValid q
      → Ends (well_qualified allow) 0 q (plain_type kind token q)
  unfolding well_qualified
  plain_type-Ends kind token allow q v = gives q _ v (ground arith)

  bang_type-Ends :
      (mark : Token) (allow : Bool) (q : Parser)
      → IsValid q
      → remaining q < bound
      → Ends (well_qualified allow) 0 q (bang_type types mark allow q)
  unfolding bang_type
  bang_type-Ends mark allow q v b =
      on_match-Ends q _ _ _ v (λ e. cc e) (omega arith)
        (λ _ r m.
          const_type-Ends _ mark allow r (λ s w. emit_warning-Moved s _ _ w) m.valid (omega arith))
        (plain_type-Ends _ mark allow q v)

  argument-Ends :
      (ts : List TypeRef) (q : Parser)
      → IsValid q
      → remaining q < bound
      → args_qualified (type_refs_of ts) ≡ true
      → Ends (λ a. args_qualified (type_refs_of (ts ++ a ∷ []))) 1 q (types false q)
  argument-Ends ts q v b g =
      better (λ a h. ground (arith, args_qualified-append ts a, g, h)) (types-Ends false q v b)

  argument_list-Ends :
      (q : Parser)
      → IsValid q
      → remaining q ≤ bound
      → Ends args_qualified 1 q (argument_list types q)
  unfolding argument_list args_qualified
  argument_list-Ends q v b = start (consume-Ends q v lt _ (λ e. cc e)) (λ _ r m _.
      next
        (loosen (
          comma_list-Ends (λ ts. args_qualified (type_refs_of ts)) gt (λ _. types false)
            (remaining r) (λ ts s w l g. argument-Ends ts s w (omega arith) g) r m.valid
            (omega arith) refl))
        (λ args s n g.
          next (loosen (consume-Ends s n.valid gt _ (λ e. cc e))) (λ _ t o _. gives t _ o.valid g)))

  named_or_generic-Ends :
      (name : Token) (allow : Bool) (q : Parser)
      → IsValid q
      → remaining q < bound
      → Ends (well_qualified allow) 0 q (named_or_generic types name q)
  unfolding named_or_generic well_qualified
  named_or_generic-Ends name allow q v b =
      on_test-Ends q _ _ _
        (λ _.
          next (loosen (argument_list-Ends q v (omega arith)))
            (λ args r m g. gives r _ m.valid (ground (arith, g))))
        (λ _. gives q _ v (ground arith))

  keyword_type-Ends :
      (allow : Bool) (q : Parser)
      → IsValid q
      → remaining q ≤ bound
      → Ends (well_qualified allow) 1 q (keyword_type types allow q)
  unfolding keyword_type
  keyword_type-Ends allow q v b =
      on_match-Ends q _ _ _ v (λ e. cc e) (omega arith)
        (λ t r m. plain_type-Ends _ t allow r m.valid)
        (on_match-Ends q _ _ _ v (λ e. cc e) (omega arith)
          (λ t r m. plain_type-Ends _ t allow r m.valid)
          (on_match-Ends q _ _ _ v (λ e. cc e) (omega arith)
            (λ t r m. plain_type-Ends _ t allow r m.valid)
            (on_match-Ends q _ _ _ v (λ e. cc e) (omega arith)
              (λ t r m. plain_type-Ends _ t allow r m.valid)
              (on_match-Ends q _ _ _ v (λ e. cc e) (omega arith)
                (λ t r m. bang_type-Ends t allow r m.valid (omega arith))
                (start (consume_identifier-Ends q v _)
                  (λ name r m _. named_or_generic-Ends name allow r m.valid (omega arith)))))))

  const_or-Ends :
      (allow : Bool) (q : Parser) (other : Member TypeRef)
      → IsValid q
      → remaining q ≤ bound
      → Ends (well_qualified allow) 1 q (other q)
      → Ends (well_qualified allow) 1 q (const_or types allow other q)
  unfolding const_or
  const_or-Ends allow q other v b o =
      elim (Option-cases (match_contextual_keyword (bytes "const") q)) [
        | inl miss ↦ rw (miss, const_or) o
        | inr (r, hit) ↦
            let m = match_contextual_keyword-Moved q r (bytes "const") v hit in
            rw (hit, const_or)
              (behind_token (omega arith) m
                (const_type-Ends _ (previous r) allow r stay m.valid (omega arith)))
      ]

  type_body-Ends :
      (allow : Bool) (q : Parser)
      → IsValid q
      → remaining q ≤ bound
      → Ends (well_qualified allow) 1 q (type_body types allow q)
  unfolding type_body well_qualified
  type_body-Ends allow q v b =
      on_match-Ends q _ _ _ v (λ e. cc e) (omega arith)
        (λ _ r m. runtime_type-Ends allow r m.valid (omega arith))
        (const_or-Ends allow q _ v b (
          on_match-Ends q _ _ _ v (λ e. cc e) (omega arith)
            (λ _ r m.
              next (loosen (types-Ends false r m.valid (omega arith)))
                (λ a s n g. gives s _ n.valid (ground (arith, g))))
            (keyword_type-Ends allow q v b)))

type_on-Ends :
    (fuel : ℕ) (allow : Bool) (p : Parser)
    → IsValid p
    → remaining p ≤ fuel
    → Ends (well_qualified allow) 1 p (type_on fuel allow p)
unfolding type_on
type_on-Ends zero allow p v h = absurd (omega (arith, v.in_range))
type_on-Ends (suc fuel) allow p v h =
    type_body-Ends (type_on fuel) (remaining p) (λ al q w l. type_on-Ends fuel al q w (omega arith))
      allow p v (omega arith)

-- From a cursor on the tokens, which end with the end of file, `parse_type` ends: in an error, with the cursor no
-- further back, or in a type, with one token or more taken, and on the tokens still. The type is never marked both
-- `runtime` and `const`, and it is marked `const` at its top level alone, where the caller allows that.
pub parse_type-Ends :
    (allow : Bool) (p : Parser) → IsValid p → Ends (well_qualified allow) 1 p (parse_type allow p)
unfolding parse_type
parse_type-Ends allow p v = type_on-Ends (remaining p) allow p v (omega arith)

pub parse_generic_argument_list-Ends :
    (p : Parser) → IsValid p → Ends args_qualified 1 p (parse_generic_argument_list p)
unfolding parse_generic_argument_list
parse_generic_argument_list-Ends p v =
    argument_list-Ends parse_type (remaining p) (λ allow q w _. parse_type-Ends allow q w) p v
      (omega arith)
