-- ===== src/Ty/Join.antt =====
-- `common_type` is the least type that both are compatible with.
use cicest.Prelude.{
  ◌≡◌, ◌⊎◌, refl, ◌∙◌, subst, Bool, true, false, ◌||◌, Bool-cases, inl, inr, if◌then◌else◌, none,
  some,
}
use cicest.Symbol.{Symbol, is_valid}
use cicest.Ty.{
  TyKind, ref, named, never, is_never, is_never_kind, ValueSemantics, Ty, ty, Tys, nil, cons,
  Pointee, null, to, same_shape_as, compatible, args_compatible, pointee_compatible, common_type,
  common_args, common_pointee, common_level,
}
use cicest.Ty.Shape.{and_split, and_join, same_shape_sym, same_shape_trans}
use cicest.Ty.Tests.{kind_of, compatible_split, compatible_never, same_kind}
use cicest.Ty.Compat.{compatible_refl}
use cicest.Ty.Level.{
  ArgsJoin, IsArgsJoin, IsBelowJoin, IsJoin, IsJoin-level, IsPointeeJoin, Joins, PointeeJoin,
  by_kind_args, by_kind_pointee, common_type_level,
}

-- Kinds whose values have no parts.
plain-Joins :
    (k : TyKind) (n d : Symbol) (gs : Tys) (p : Pointee) (s : ValueSemantics) (r : Bool)
    (n' e : Symbol) (hs : Tys) (q : Pointee) (s' : ValueSemantics) (r' : Bool)
    → is_never_kind k ≡ false
    → common_level k
        (λ xs o. ty k n (if is_valid d then d else e) xs o s (r || r'))
        gs
        p
        (common_args gs hs)
        (common_pointee p q)
      ≡ some (ty k n (if is_valid d then d else e) gs p s (r || r'))
    → IsBelowJoin k gs hs gs p q p
    → same_shape_as (ty k n d gs p s r) (ty k n' e hs q s' r') ≡ true
    → Joins (ty k n d gs p s r) (ty k n' e hs q s' r')
plain-Joins k n d gs p s r n' e hs q s' r' proper level parts same = (
  _,
  common_type_level k n d gs p s r n' e hs q s' r' proper same ∙ level,
  IsJoin-level k n d _ gs gs p p s r n' e hs q s' r' proper same parts,
)

proper-Joins :
    (k : TyKind) (n d : Symbol) (gs : Tys) (p : Pointee) (s : ValueSemantics) (r : Bool)
    (n' e : Symbol) (hs : Tys) (q : Pointee) (s' : ValueSemantics) (r' : Bool)
    → is_never_kind k ≡ false
    → ArgsJoin gs hs
    → PointeeJoin p q
    → same_shape_as (ty k n d gs p s r) (ty k n' e hs q s' r') ≡ true
    → Joins (ty k n d gs p s r) (ty k n' e hs q s' r')
proper-Joins ref n d gs p s r n' e hs q s' r' proper args pointee same =
    let (j, found, is_join) = pointee (by_kind_pointee n n' gs hs d e p q s s' r r' same) in
    (
      _,
      common_type_level ref n d gs p s r n' e hs q s' r' proper same ∙ rw found refl,
      IsJoin-level ref n d (if is_valid d then d else e) gs gs p j s r n' e hs q s' r' proper same
          (record {
            shape = is_join.shape;
            left = is_join.left;
            right = is_join.right;
            least = λ cs o. is_join.least o;
          }),
    )
proper-Joins named n d gs p s r n' e hs q s' r' proper args pointee same =
    let (js, found, is_join) = args (by_kind_args n n' gs hs d e p q s s' r r' same) in
    (
      _,
      common_type_level named n d gs p s r n' e hs q s' r' proper same ∙ rw found refl,
      IsJoin-level named n d (if is_valid d then d else e) gs js p p s r n' e hs q s' r' proper same
          (record {
            shape = is_join.shape;
            left = is_join.left;
            right = is_join.right;
            least = λ cs o. is_join.least cs;
          }),
    )
proper-Joins never n d gs p s r n' e hs q s' r' proper args pointee same = absurd (cc proper)
proper-Joins k n d gs p s r n' e hs q s' r' proper args pointee same =
    plain-Joins k n d gs p s r n' e hs q s' r' proper refl
      (record { shape = refl; left = refl; right = refl; least = λ cs o h g. refl }) same

-- A left side of kind `!` joins to the right side.
never-Joins : (a b : Ty) → is_never_kind (kind_of a) ≡ true → same_shape_as a b ≡ true → Joins a b
unfolding common_type
never-Joins (ty k n d gs p s r) (ty k' n' e hs q s' r') bottom same =
    let a = ty k n d gs p s r in
    let b = ty k' n' e hs q s' r' in
    (
      b,
      rw bottom refl,
      record {
        shape = same;
        left = compatible_never a b bottom;
        right = compatible_refl b;
        least = λ c h g. g;
      },
    )

Joins-level :
    (k : TyKind) (n d : Symbol) (gs : Tys) (p : Pointee) (s : ValueSemantics) (r : Bool)
    (k' : TyKind) (n' e : Symbol) (hs : Tys) (q : Pointee) (s' : ValueSemantics) (r' : Bool)
    → ArgsJoin gs hs
    → PointeeJoin p q
    → same_shape_as (ty k n d gs p s r) (ty k' n' e hs q s' r') ≡ true
    → Joins (ty k n d gs p s r) (ty k' n' e hs q s' r')
Joins-level k n d gs p s r k' n' e hs q s' r' args pointee same =
    let a = ty k n d gs p s r in
    elim (Bool-cases (is_never_kind k)) [
      | inl bottom ↦ never-Joins a (ty k' n' e hs q s' r') bottom same
      | inr proper ↦
          subst
            (λ x. same_shape_as a (ty x n' e hs q s' r') ≡ true → Joins a (ty x n' e hs q s' r'))
            (same_kind a (ty k' n' e hs q s' r') same)
            (proper-Joins k n d gs p s r n' e hs q s' r' proper args pointee) same
    ]

IsArgsJoin-cons :
    (a b j : Ty) (gs hs js : Tys)
    → IsJoin a b j
    → IsArgsJoin gs hs js
    → IsArgsJoin (cons a gs) (cons b hs) (cons j js)
unfolding compatible same_shape_as
IsArgsJoin-cons a b j gs hs js first rest = record {
  shape = and_join _ _ first.shape rest.shape;
  left = and_join _ _ first.left rest.left;
  right = and_join _ _ first.right rest.right;
  least = least_of;
}
  where
    least_of :
        (cs : Tys)
        → args_compatible (cons a gs) cs ≡ true
        → args_compatible (cons b hs) cs ≡ true
        → args_compatible (cons j js) cs ≡ true
    least_of nil h g = cc
    least_of (cons c cs) h g =
        let (x, y) = and_split (compatible a c) _ h in
        let (x', y') = and_split (compatible b c) _ g in
        and_join _ _ (first.least c x x') (rest.least cs y y')

IsPointeeJoin-to : (a b j : Ty) → IsJoin a b j → IsPointeeJoin (to a) (to b) (to j)
unfolding compatible same_shape_as
IsPointeeJoin-to a b j is_join = record {
  shape = is_join.shape;
  left = is_join.left;
  right = is_join.right;
  least = least_of;
}
  where
    least_of :
        (o : Pointee)
        → pointee_compatible (to a) o ≡ true
        → pointee_compatible (to b) o ≡ true
        → pointee_compatible (to j) o ≡ true
    least_of null h g = cc
    least_of (to c) h g = is_join.least c h g

mutual
  unfolding compatible same_shape_as common_type

  Joins-ty : (a b : Ty) → same_shape_as a b ≡ true → Joins a b
  Joins-ty (ty k n d gs p s r) (ty k' n' e hs q s' r') =
      Joins-level k n d gs p s r k' n' e hs q s' r' (joins_args gs hs) (joins_pointee p q)

  joins_args : (gs hs : Tys) → ArgsJoin gs hs
  joins_args nil nil h =
      (nil, refl, record { shape = refl; left = refl; right = refl; least = λ cs x y. x })
  joins_args nil (cons b hs) h = cc
  joins_args (cons a gs) nil h = cc
  joins_args (cons a gs) (cons b hs) h =
      let (x, y) = and_split (same_shape_as a b) _ h in
      let (j, found, is_join) = Joins-ty a b x in
      let (js, found', are_joins) = joins_args gs hs y in
      (cons j js, rw found (rw found' refl), IsArgsJoin-cons a b j gs hs js is_join are_joins)

  joins_pointee : (p q : Pointee) → PointeeJoin p q
  joins_pointee null null h =
      (null, refl, record { shape = refl; left = refl; right = refl; least = λ o x y. x })
  joins_pointee null (to b) h = cc
  joins_pointee (to a) null h = cc
  joins_pointee (to a) (to b) h =
      let (j, found, is_join) = Joins-ty a b h in
      (to j, rw found refl, IsPointeeJoin-to a b j is_join)

-- The least upper bound of two types in the order of `compatible`.
pub record IsLeast (a b j : Ty) : Type 0 where
  pub left : compatible a j ≡ true
  pub right : compatible b j ≡ true
  pub least : (c : Ty) → compatible a c ≡ true → compatible b c ≡ true → compatible j c ≡ true

joins-IsLeast : (a b j : Ty) → IsJoin a b j → IsLeast a b j
joins-IsLeast a b j h = record { left = h.left; right = h.right; least = h.least }

common_type_left : (a b : Ty) → is_never a ≡ true → (common_type a b ≡ some b) × IsLeast a b b
unfolding common_type is_never
common_type_left (ty k n d gs p s r) (ty k' n' e hs q s' r') bottom =
    let a = ty k n d gs p s r in
    let b = ty k' n' e hs q s' r' in
    (
      rw bottom refl,
      record { left = compatible_never a b bottom; right = compatible_refl b; least = λ c h g. g },
    )

common_type_right :
    (a b : Ty) → is_never a ≡ false → is_never b ≡ true → (common_type a b ≡ some a) × IsLeast a b a
unfolding common_type is_never
common_type_right (ty k n d gs p s r) (ty k' n' e hs q s' r') proper bottom =
    let a = ty k n d gs p s r in
    let b = ty k' n' e hs q s' r' in
    (
      rw proper (rw bottom refl),
      record { left = compatible_refl a; right = compatible_never b a bottom; least = λ c h g. h },
    )

common_type-none :
    (a b : Ty)
    → is_never a ≡ false
    → is_never b ≡ false
    → same_shape_as a b ≡ false
    → common_type a b ≡ none
unfolding common_type is_never
common_type-none (ty k n d gs p s r) (ty k' n' e hs q s' r') x y z = rw x (rw y (rw z refl))

-- Two types that differ in shape, neither of them `!`, have no type above both.
no_bound :
    (a b c : Ty)
    → is_never a ≡ false
    → is_never b ≡ false
    → same_shape_as a b ≡ false
    → compatible a c ≡ true
    → compatible b c ≡ true
    → ⊥
unfolding is_never
no_bound (ty k n d gs p s r) (ty k' n' e hs q s' r') c x y z h g =
    let a = ty k n d gs p s r in
    let b = ty k' n' e hs q s' r' in
    let (to_c, _, _) = compatible_split a c x h in
    let (to_c', _, _) = compatible_split b c y g in
    cc (same_shape_trans a c b to_c (same_shape_sym b c to_c'), z)

-- `common_type` decides whether two types have a common supertype, and finds the least one: what it returns is
-- a least upper bound in the order of `compatible`, and where it returns nothing, no type is above both.
pub common_type-IsLeast :
    (a b : Ty)
    → ((j : Ty) × (common_type a b ≡ some j) × IsLeast a b j)
      ⊎ ((common_type a b ≡ none) × ((c : Ty) → compatible a c ≡ true → compatible b c ≡ true → ⊥))
common_type-IsLeast a b = elim (Bool-cases (is_never a)) [
  | inl bottom ↦ inl (b, (common_type_left a b bottom).0, (common_type_left a b bottom).1)
  | inr x ↦ elim (Bool-cases (is_never b)) [
    | inl bottom ↦ inl (a, (common_type_right a b x bottom).0, (common_type_right a b x bottom).1)
    | inr y ↦ elim (Bool-cases (same_shape_as a b)) [
      | inl same ↦
          let (j, found, is_join) = Joins-ty a b same in inl (j, found, joins-IsLeast a b j is_join)
      | inr z ↦ inr (common_type-none a b x y z, λ c. no_bound a b c x y z)
    ]
  ]
]
