-- ===== src/Ty/Erasure.antt =====
-- compiler/cstc_tyir/include/cstc_tyir/tyir.hpp: what `Ty::same_shape_as` compares.
use cicest.Prelude.{ℕ, ◌≡◌, ◌↔◌, refl, ap, sym, subst, ◌∙◌, Bool, true, ◌&&◌, ◌==◌, arith}
use cicest.Ty.{
  TyKind, ref, named, kind_eq, by_kind, Ty, ty, Tys, nil, cons, Pointee, null, to, same_shape_as,
  same_args, same_pointee,
}
use cicest.Ty.Shape.{kind_eq→eq, kind_eq_refl, and_split, and_join}

-- What is left of a type without its qualifiers, display name and semantics, and without the members that its kind
-- does not use.
mutual
  pub data Shape : Type 0 where
    plain : TyKind → Shape
    null_ref : Shape
    ref_to : Shape → Shape
    applied : ℕ → Shapes → Shape

  pub data Shapes : Type 0 where
    no_shapes : Shapes
    more : Shape → Shapes → Shapes

abbrev pub shape_of : TyKind → Shape → Shape → Shape
shape_of ref at_pointee at_name = at_pointee
shape_of named at_pointee at_name = at_name
shape_of k at_pointee at_name = Shape.plain k

unfoldable mutual
  pub erase : Ty → Shape
  erase (ty k n d gs p s r) = shape_of k (erase_pointee p) (Shape.applied n (erase_args gs))

  pub erase_args : Tys → Shapes
  erase_args nil = Shapes.no_shapes
  erase_args (cons a gs) = Shapes.more (erase a) (erase_args gs)

  pub erase_pointee : Pointee → Shape
  erase_pointee null = Shape.null_ref
  erase_pointee (to a) = Shape.ref_to (erase a)

same_parts :
    (k : TyKind) (at_pointee at_name : Bool) (p p' a a' : Shape)
    → (at_pointee ≡ true → p ≡ p')
    → (at_name ≡ true → a ≡ a')
    → by_kind k at_pointee at_name true ≡ true
    → shape_of k p a ≡ shape_of k p' a'
same_parts ref x y p p' a a' f g h = f h
same_parts named x y p p' a a' f g h = g h
same_parts _ x y p p' a a' f g h = refl

parts_same :
    (k : TyKind) (at_pointee at_name : Bool) (p p' a a' : Shape)
    → (p ≡ p' → at_pointee ≡ true)
    → (a ≡ a' → at_name ≡ true)
    → shape_of k p a ≡ shape_of k p' a'
    → by_kind k at_pointee at_name true ≡ true
parts_same ref x y p p' a a' f g h = f h
parts_same named x y p p' a a' f g h = g h
parts_same _ x y p p' a a' f g h = refl

abbrev kind_of : Shape → TyKind
kind_of (Shape.plain k) = k
kind_of Shape.null_ref = ref
kind_of (Shape.ref_to s) = ref
kind_of (Shape.applied n ss) = named

kind_of-shape_of :
    (k : TyKind) (p : Pointee) (n : ℕ) (gs : Tys)
    → kind_of (shape_of k (erase_pointee p) (Shape.applied n (erase_args gs))) ≡ k
unfolding erase
kind_of-shape_of ref null n gs = refl
kind_of-shape_of ref (to a) n gs = refl
kind_of-shape_of named p n gs = refl
kind_of-shape_of _ p n gs = refl

mutual
  unfolding same_shape_as erase

  erased : (a b : Ty) → same_shape_as a b ≡ true → erase a ≡ erase b
  erased (ty k n d gs p s r) (ty k' n' d' gs' p' s' r') h =
      let (kinds, parts) = and_split (kind_eq k k') _ h in
      same_parts k (same_pointee p p') (n == n' && same_args gs gs') _ (erase_pointee p') _
        (Shape.applied n' (erase_args gs')) (erased_pointee p p')
        (λ g.
          let (names, args) = and_split (n == n') _ g in
          let one : n ≡ n' = ground arith in cc (one, erased_args gs gs' args))
        parts
      ∙ ap (λ x. shape_of x (erase_pointee p') (Shape.applied n' (erase_args gs')))
          (kind_eq→eq k k' kinds)

  erased_args : (gs gs' : Tys) → same_args gs gs' ≡ true → erase_args gs ≡ erase_args gs'
  erased_args nil nil h = refl
  erased_args nil (cons b gs') h = absurd (cc h)
  erased_args (cons a gs) nil h = absurd (cc h)
  erased_args (cons a gs) (cons b gs') h =
      let (x, y) = and_split (same_shape_as a b) _ h in cc (erased a b x, erased_args gs gs' y)

  erased_pointee : (p q : Pointee) → same_pointee p q ≡ true → erase_pointee p ≡ erase_pointee q
  erased_pointee null null h = refl
  erased_pointee null (to b) h = absurd (cc h)
  erased_pointee (to a) null h = absurd (cc h)
  erased_pointee (to a) (to b) h = ap Shape.ref_to (erased a b h)

abbrev pointee_of : Shape → Shape
pointee_of (Shape.ref_to s) = s
pointee_of s = s

abbrev head_of : Shapes → Shape
head_of Shapes.no_shapes = Shape.null_ref
head_of (Shapes.more s ss) = s

abbrev tail_of : Shapes → Shapes
tail_of Shapes.no_shapes = Shapes.no_shapes
tail_of (Shapes.more s ss) = ss

abbrev name_of : Shape → ℕ
name_of (Shape.applied n ss) = n
name_of s = 0

abbrev args_of : Shape → Shapes
args_of (Shape.applied n ss) = ss
args_of s = Shapes.no_shapes

mutual
  unfolding same_shape_as erase

  compared : (a b : Ty) → erase a ≡ erase b → same_shape_as a b ≡ true
  compared (ty k n d gs p s r) (ty k' n' d' gs' p' s' r') h =
      let kinds : k ≡ k' =
        sym (kind_of-shape_of k p n gs) ∙ ap kind_of h ∙ kind_of-shape_of k' p' n' gs' in
      and_join (kind_eq k k') _ (subst (λ x. kind_eq k x ≡ true) kinds (kind_eq_refl k)) (
        parts_same k (same_pointee p p') (n == n' && same_args gs gs') (erase_pointee p)
          (erase_pointee p') (Shape.applied n (erase_args gs)) (Shape.applied n' (erase_args gs'))
          (compared_pointee p p')
          (λ g.
            let one : n ≡ n' = ap name_of g in
            and_join (n == n') _ (ground (arith, one)) (compared_args gs gs' (ap args_of g)))
          (h
            ∙ ap (λ x. shape_of x (erase_pointee p') (Shape.applied n' (erase_args gs')))
                (sym kinds)))

  compared_args : (gs gs' : Tys) → erase_args gs ≡ erase_args gs' → same_args gs gs' ≡ true
  compared_args nil nil h = refl
  compared_args nil (cons b gs') h = absurd (cc h)
  compared_args (cons a gs) nil h = absurd (cc h)
  compared_args (cons a gs) (cons b gs') h =
      and_join _ _ (compared a b (ap head_of h)) (compared_args gs gs' (ap tail_of h))

  compared_pointee : (p q : Pointee) → erase_pointee p ≡ erase_pointee q → same_pointee p q ≡ true
  compared_pointee null null h = refl
  compared_pointee null (to b) h = absurd (cc h)
  compared_pointee (to a) null h = absurd (cc h)
  compared_pointee (to a) (to b) h = compared a b (ap pointee_of h)

-- Two types have the same shape exactly where erasing what is no part of the shape leaves the same: the kinds, under a
-- reference its pointee, and in a named type its name and arguments, at every depth.
pub same_shape_as_iff : (a b : Ty) → (same_shape_as a b ≡ true) ↔ (erase a ≡ erase b)
same_shape_as_iff a b = (erased a b, compared a b)
