-- ===== src/Ty/Compat.antt =====
-- `compatible` is a preorder that never drops a runtime tag.
use cicest.Prelude.{
  ◌≡◌, refl, sym, subst, Bool, true, false, not, ◌&&◌, ◌||◌, arith, Bool-cases, inl, inr,
  if◌then◌else◌,
}
use cicest.Ty.{
  TyKind, ref, named, is_never_kind, by_kind, compatible_kind, Ty, ty, Tys, nil, cons, Pointee,
  null, to, compatible, args_compatible, pointee_compatible, contains_runtime_tag, args_runtime_tag,
  pointee_runtime_tag,
}
use cicest.Ty.Shape.{and_split, and_join, same_shape_refl, same_shape_trans}
use cicest.Ty.Tests.{
  below, compatible_join, compatible_kind_intro, compatible_kind_map₂, compatible_never,
  compatible_split, kind_of, runtime_of, same_kind,
}

mutual
  unfolding compatible

  refl_ty : (a : Ty) → compatible a a ≡ true
  refl_ty (ty k n d gs p s r) =
      let a = ty k n d gs p s r in
      compatible_join a a (same_shape_refl a) (ground arith)
        (compatible_kind_intro k _ _ (refl_args gs) (refl_pointee p))

  refl_args : (gs : Tys) → args_compatible gs gs ≡ true
  refl_args nil = refl
  refl_args (cons a gs) = and_join _ _ (refl_ty a) (refl_args gs)

  refl_pointee : (p : Pointee) → pointee_compatible p p ≡ true
  refl_pointee null = refl
  refl_pointee (to a) = refl_ty a

pub compatible_refl : (a : Ty) → compatible a a ≡ true
compatible_refl a = refl_ty a

runtime_trans : (x y z : Bool) → (x && not y) ≡ false → (y && not z) ≡ false → (x && not z) ≡ false
runtime_trans x y z h g = ground arith

-- One level of transitivity, given those below.
trans_level :
    (a b c : Ty)
    → (below a b ≡ true → below b c ≡ true → kind_of a ≡ kind_of b → below a c ≡ true)
    → compatible a b ≡ true
    → compatible b c ≡ true
    → compatible a c ≡ true
trans_level a b c deeper h g = elim (Bool-cases (is_never_kind (kind_of a))) [
  | inl bottom ↦ compatible_never a c bottom
  | inr proper ↦
      let (same, tags, deep) = compatible_split a b proper h in
      let kinds = same_kind a b same in
      let (same', tags', deep') =
        compatible_split b c (subst (λ k. is_never_kind k ≡ false) kinds proper) g in
      compatible_join a c (same_shape_trans a b c same same')
        (runtime_trans (runtime_of a) (runtime_of b) (runtime_of c) tags tags')
        (deeper deep deep' kinds)
]

mutual
  unfolding compatible

  trans_ty : (a b c : Ty) → compatible a b ≡ true → compatible b c ≡ true → compatible a c ≡ true
  trans_ty (ty k n d gs p s r) (ty k' n' d' gs' p' s' r') (ty k'' n'' d'' gs'' p'' s'' r'') =
      trans_level (ty k n d gs p s r) (ty k' n' d' gs' p' s' r') (ty k'' n'' d'' gs'' p'' s'' r'')
        (λ deep deep' kinds.
          compatible_kind_map₂ k _ _ _ _ _ _ (trans_args gs gs' gs'') (trans_pointee p p' p'') deep
            (subst
              (λ x. compatible_kind x (args_compatible gs' gs'') (pointee_compatible p' p'') ≡ true)
              (sym kinds) deep'))

  trans_args :
      (gs hs is : Tys)
      → args_compatible gs hs ≡ true
      → args_compatible hs is ≡ true
      → args_compatible gs is ≡ true
  trans_args nil nil is h g = g
  trans_args nil (cons b hs) is h g = cc
  trans_args (cons a gs) nil is h g = cc
  trans_args (cons a gs) (cons b hs) nil h g = cc
  trans_args (cons a gs) (cons b hs) (cons c is) h g =
      let (x, y) = and_split (compatible a b) _ h in
      let (x', y') = and_split (compatible b c) _ g in
      and_join _ _ (trans_ty a b c x x') (trans_args gs hs is y y')

  trans_pointee :
      (p q o : Pointee)
      → pointee_compatible p q ≡ true
      → pointee_compatible q o ≡ true
      → pointee_compatible p o ≡ true
  trans_pointee null null o h g = g
  trans_pointee null (to b) o h g = cc
  trans_pointee (to a) null o h g = cc
  trans_pointee (to a) (to b) null h g = cc
  trans_pointee (to a) (to b) (to c) h g = trans_ty a b c h g

-- Compatibility is reflexive and transitive, `!` and runtime tags at every level included.
pub compatible_preorder :
    (a b c : Ty)
    → (compatible a a ≡ true)
      × (compatible a b ≡ true → compatible b c ≡ true → compatible a c ≡ true)
compatible_preorder a b c = (refl_ty a, trans_ty a b c)

pub compatible_trans :
    (a b c : Ty) → compatible a b ≡ true → compatible b c ≡ true → compatible a c ≡ true
compatible_trans a b c = trans_ty a b c

-- Whether `!` stands in a type, at a level that the runtime tags are looked for in.
unfoldable mutual
  pub mentions_never : Ty → Bool
  mentions_never (ty k n d gs p s r) =
      is_never_kind k || by_kind k (pointee_mentions_never p) (args_mention_never gs) false

  pub args_mention_never : Tys → Bool
  args_mention_never nil = false
  args_mention_never (cons a gs) = mentions_never a || args_mention_never gs

  pub pointee_mentions_never : Pointee → Bool
  pointee_mentions_never null = false
  pointee_mentions_never (to a) = mentions_never a

keeps_kind :
    (k : TyKind) (x x' y y' a p m l : Bool)
    → (m ≡ false → p ≡ true → x ≡ true → x' ≡ true)
    → (l ≡ false → a ≡ true → y ≡ true → y' ≡ true)
    → by_kind k m l false ≡ false
    → compatible_kind k a p ≡ true
    → by_kind k x y false ≡ true
    → by_kind k x' y' false ≡ true
keeps_kind ref x x' y y' a p m l f g e c h = f e c h
keeps_kind named x x' y y' a p m l f g e c h = g e c h
keeps_kind _ x x' y y' a p m l f g e c h = h

or_none : (a b : Bool) → (a || b) ≡ false → (a ≡ false) × (b ≡ false)
or_none a b h = ground arith

tag_level :
    (r r' x x' : Bool)
    → (r && not r') ≡ false
    → (x ≡ true → x' ≡ true)
    → (if r then true else x) ≡ true
    → (if r' then true else x') ≡ true
tag_level r r' x x' h f g = ground arith

or_keeps :
    (a a' b b' : Bool)
    → (a ≡ true → a' ≡ true)
    → (b ≡ true → b' ≡ true)
    → (a || b) ≡ true
    → (a' || b') ≡ true
or_keeps a a' b b' f g h = ground arith

mutual
  unfolding compatible contains_runtime_tag mentions_never

  keeps_ty :
      (a b : Ty)
      → mentions_never a ≡ false
      → compatible a b ≡ true
      → contains_runtime_tag a ≡ true
      → contains_runtime_tag b ≡ true
  keeps_ty (ty k n d gs p s r) (ty k' n' d' gs' p' s' r') e h t =
      let a = ty k n d gs p s r in
      let b = ty k' n' d' gs' p' s' r' in
      let (proper, parts) = or_none (is_never_kind k) _ e in
      let (same, tags, deep) = compatible_split a b proper h in
      tag_level r r' _ _ tags
        (λ tagged.
          subst (λ x. by_kind x (pointee_runtime_tag p') (args_runtime_tag gs') false ≡ true)
            (same_kind a b same)
            (keeps_kind k _ _ _ _ _ _ _ _ (keeps_pointee p p') (keeps_args gs gs') parts deep
              tagged))
        t

  keeps_args :
      (gs hs : Tys)
      → args_mention_never gs ≡ false
      → args_compatible gs hs ≡ true
      → args_runtime_tag gs ≡ true
      → args_runtime_tag hs ≡ true
  keeps_args nil nil e h t = t
  keeps_args nil (cons b hs) e h t = cc
  keeps_args (cons a gs) nil e h t = cc
  keeps_args (cons a gs) (cons b hs) e h t =
      let (first, rest) = or_none (mentions_never a) _ e in
      let (x, y) = and_split (compatible a b) _ h in
      or_keeps _ _ _ _ (keeps_ty a b first x) (keeps_args gs hs rest y) t

  keeps_pointee :
      (p q : Pointee)
      → pointee_mentions_never p ≡ false
      → pointee_compatible p q ≡ true
      → pointee_runtime_tag p ≡ true
      → pointee_runtime_tag q ≡ true
  keeps_pointee null q e h t = cc
  keeps_pointee (to a) null e h t = cc
  keeps_pointee (to a) (to b) e h t = keeps_ty a b e h t

-- No implicit conversion drops runtime dependence: where a type with no `!` in it carries a runtime tag, at any
-- level, every type that it is compatible with carries one.
pub compatible_keeps_runtime :
    (a b : Ty)
    → mentions_never a ≡ false
    → compatible a b ≡ true
    → contains_runtime_tag a ≡ true
    → contains_runtime_tag b ≡ true
compatible_keeps_runtime a b = keeps_ty a b
