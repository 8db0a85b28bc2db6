-- ===== src/Ty/Shape.antt =====
-- `same_shape_as` is an equivalence.
use cicest.Prelude.{if◌then◌else◌, ap, ℕ, ◌≡◌, refl, sym, ◌∙◌, subst, Bool, true, ◌&&◌, arith, ◌==◌}
use cicest.Ty.{
  TyKind, ref, unit, num, str, bool, named, never, kind_code, kind_eq, by_kind, Ty, ty, Tys, nil,
  cons, Pointee, null, to, same_shape_as, same_args, same_pointee,
}

kind_of_code : ℕ → TyKind
kind_of_code n =
    if n == 0
    then ref
    else if n == 1
    then unit
    else if n == 2
    then num
    else if n == 3
    then str
    else if n == 4
    then bool
    else if n == 5
    then named
    else never

kind_of_code-kind_code : (k : TyKind) → kind_of_code (kind_code k) ≡ k
unfolding kind_of_code
kind_of_code-kind_code ref = refl
kind_of_code-kind_code _ = refl

pub kind_eq→eq : (k k' : TyKind) → kind_eq k k' ≡ true → k ≡ k'
kind_eq→eq k k' h =
    let same : kind_code k ≡ kind_code k' = ground arith in
    sym (kind_of_code-kind_code k) ∙ ap kind_of_code same ∙ kind_of_code-kind_code k'

pub kind_eq_refl : (k : TyKind) → kind_eq k k ≡ true
kind_eq_refl k = ground arith

pub and_split : (a b : Bool) → (a && b) ≡ true → (a ≡ true) × (b ≡ true)
and_split a b h = ground arith

pub and_join : (a b : Bool) → a ≡ true → b ≡ true → (a && b) ≡ true
and_join a b h g = ground arith

by_kind_intro : (k : TyKind) (p a : Bool) → p ≡ true → a ≡ true → by_kind k p a true ≡ true
by_kind_intro ref p a h g = h
by_kind_intro named p a h g = g
by_kind_intro _ p a h g = refl

by_kind_map :
    (k : TyKind) (p p' a a' : Bool)
    → (p ≡ true → p' ≡ true)
    → (a ≡ true → a' ≡ true)
    → by_kind k p a true ≡ true
    → by_kind k p' a' true ≡ true
by_kind_map ref p p' a a' f g h = f h
by_kind_map named p p' a a' f g h = g h
by_kind_map _ p p' a a' f g h = refl

by_kind_map₂ :
    (k : TyKind) (p p' p'' a a' a'' : Bool)
    → (p ≡ true → p' ≡ true → p'' ≡ true)
    → (a ≡ true → a' ≡ true → a'' ≡ true)
    → by_kind k p a true ≡ true
    → by_kind k p' a' true ≡ true
    → by_kind k p'' a'' true ≡ true
by_kind_map₂ ref p p' p'' a a' a'' f g h h' = f h h'
by_kind_map₂ named p p' p'' a a' a'' f g h h' = g h h'
by_kind_map₂ _ p p' p'' a a' a'' f g h h' = refl

named_sym :
    (n n' : ℕ) (a a' : Bool)
    → (a ≡ true → a' ≡ true)
    → (n == n' && a) ≡ true
    → (n' == n && a') ≡ true
named_sym n n' a a' f h = ground arith

named_trans :
    (n n' n'' : ℕ) (a a' a'' : Bool)
    → (a ≡ true → a' ≡ true → a'' ≡ true)
    → (n == n' && a) ≡ true
    → (n' == n'' && a') ≡ true
    → (n == n'' && a'') ≡ true
named_trans n n' n'' a a' a'' f h g = ground arith

mutual
  unfolding same_shape_as

  shape_refl : (a : Ty) → same_shape_as a a ≡ true
  shape_refl (ty k n d gs p s r) =
      and_join (kind_eq k k) _ (kind_eq_refl k)
        (by_kind_intro k _ _ (pointee_refl p) (ground (arith, args_refl gs)))

  args_refl : (gs : Tys) → same_args gs gs ≡ true
  args_refl nil = refl
  args_refl (cons a gs) = and_join _ _ (shape_refl a) (args_refl gs)

  pointee_refl : (p : Pointee) → same_pointee p p ≡ true
  pointee_refl null = refl
  pointee_refl (to a) = shape_refl a

mutual
  unfolding same_shape_as

  shape_sym : (a b : Ty) → same_shape_as a b ≡ true → same_shape_as b a ≡ true
  shape_sym (ty k n d gs p s r) (ty k' n' d' gs' p' s' r') h =
      let (kinds, parts) = and_split (kind_eq k k') _ h in
      let same = kind_eq→eq k k' kinds in
      and_join (kind_eq k' k) _ (subst (λ x. kind_eq x k ≡ true) same (kind_eq_refl k)) (
        subst (λ x. by_kind x (same_pointee p' p) (n' == n && same_args gs' gs) true ≡ true) same
          (by_kind_map k _ _ _ _ (pointee_sym p p')
            (named_sym n n' (same_args gs gs') (same_args gs' gs) (args_sym gs gs')) parts))

  args_sym : (gs gs' : Tys) → same_args gs gs' ≡ true → same_args gs' gs ≡ true
  args_sym nil nil h = refl
  args_sym nil (cons b gs') h = cc
  args_sym (cons a gs) nil h = cc
  args_sym (cons a gs) (cons b gs') h =
      let (x, y) = and_split (same_shape_as a b) _ h in
      and_join _ _ (shape_sym a b x) (args_sym gs gs' y)

  pointee_sym : (p q : Pointee) → same_pointee p q ≡ true → same_pointee q p ≡ true
  pointee_sym null null h = refl
  pointee_sym null (to b) h = cc
  pointee_sym (to a) null h = cc
  pointee_sym (to a) (to b) h = shape_sym a b h

mutual
  unfolding same_shape_as

  shape_trans :
      (a b c : Ty) → same_shape_as a b ≡ true → same_shape_as b c ≡ true → same_shape_as a c ≡ true
  shape_trans (ty k n d gs p s r) (ty k' n' d' gs' p' s' r') (ty k'' n'' d'' gs'' p'' s'' r'') h g =
      let (kinds, parts) = and_split (kind_eq k k') _ h in
      let (kinds', parts') = and_split (kind_eq k' k'') _ g in
      let same = kind_eq→eq k k' kinds in
      and_join (kind_eq k k'') _ (subst (λ x. kind_eq x k'' ≡ true) (sym same) kinds') (
        by_kind_map₂ k _ _ _ _ _ _ (pointee_trans p p' p'')
          (named_trans n n' n'' (same_args gs gs') (same_args gs' gs'') (same_args gs gs'')
            (args_trans gs gs' gs''))
          parts
          (subst
            (λ x. by_kind x (same_pointee p' p'') (n' == n'' && same_args gs' gs'') true ≡ true)
            (sym same) parts'))

  args_trans :
      (gs bs cs : Tys) → same_args gs bs ≡ true → same_args bs cs ≡ true → same_args gs cs ≡ true
  args_trans nil nil cs h g = g
  args_trans nil (cons b bs) cs h g = cc
  args_trans (cons a gs) nil cs h g = cc
  args_trans (cons a gs) (cons b bs) nil h g = cc
  args_trans (cons a gs) (cons b bs) (cons c cs) h g =
      let (x, y) = and_split (same_shape_as a b) _ h in
      let (x', y') = and_split (same_shape_as b c) _ g in
      and_join _ _ (shape_trans a b c x x') (args_trans gs bs cs y y')

  pointee_trans :
      (p q o : Pointee)
      → same_pointee p q ≡ true
      → same_pointee q o ≡ true
      → same_pointee p o ≡ true
  pointee_trans null null o h g = g
  pointee_trans null (to b) o h g = cc
  pointee_trans (to a) null o h g = cc
  pointee_trans (to a) (to b) null h g = cc
  pointee_trans (to a) (to b) (to c) h g = shape_trans a b c h g

pub same_shape_refl : (a : Ty) → same_shape_as a a ≡ true
same_shape_refl a = shape_refl a

pub same_shape_sym : (a b : Ty) → same_shape_as a b ≡ true → same_shape_as b a ≡ true
same_shape_sym a b = shape_sym a b

pub same_shape_trans :
    (a b c : Ty) → same_shape_as a b ≡ true → same_shape_as b c ≡ true → same_shape_as a c ≡ true
same_shape_trans a b c = shape_trans a b c
