-- ===== src/Ty/Level.antt =====
-- The facts about the levels below a type that make a join of its own level.
use cicest.Prelude.{◌≡◌, refl, Bool, true, false, not, ◌&&◌, ◌||◌, arith, ◌==◌, if◌then◌else◌, some}
use cicest.Symbol.{Symbol, is_valid}
use cicest.Ty.{
  TyKind, ref, named, is_never_kind, by_kind, compatible_kind, ValueSemantics, Ty, ty, Tys, Pointee,
  same_shape_as, same_args, same_pointee, compatible, args_compatible, pointee_compatible,
  common_type, common_args, common_pointee, common_level,
}
use cicest.Ty.Shape.{and_split, same_shape_sym, same_shape_trans}
use cicest.Ty.Tests.{compatible_split, compatible_join}

-- `j` has the shape of `a`, and is the least type above `a` and `b`.
pub record IsJoin (a b j : Ty) : Type 0 where
  pub shape : same_shape_as a j ≡ true
  pub left : compatible a j ≡ true
  pub right : compatible b j ≡ true
  pub least : (c : Ty) → compatible a c ≡ true → compatible b c ≡ true → compatible j c ≡ true

pub record IsArgsJoin (gs hs js : Tys) : Type 0 where
  pub shape : same_args gs js ≡ true
  pub left : args_compatible gs js ≡ true
  pub right : args_compatible hs js ≡ true
  pub least :
      (cs : Tys)
      → args_compatible gs cs ≡ true
      → args_compatible hs cs ≡ true
      → args_compatible js cs ≡ true

pub record IsPointeeJoin (p q j : Pointee) : Type 0 where
  pub shape : same_pointee p j ≡ true
  pub left : pointee_compatible p j ≡ true
  pub right : pointee_compatible q j ≡ true
  pub least :
      (o : Pointee)
      → pointee_compatible p o ≡ true
      → pointee_compatible q o ≡ true
      → pointee_compatible j o ≡ true

-- The facts about the levels below that make a join of one level.
pub record IsBelowJoin (k : TyKind) (gs hs js : Tys) (p q j : Pointee) : Type 0 where
  pub shape : by_kind k (same_pointee p j) (same_args gs js) true ≡ true
  pub left : compatible_kind k (args_compatible gs js) (pointee_compatible p j) ≡ true
  pub right : compatible_kind k (args_compatible hs js) (pointee_compatible q j) ≡ true
  pub least :
      (cs : Tys) (o : Pointee)
      → compatible_kind k (args_compatible gs cs) (pointee_compatible p o) ≡ true
      → compatible_kind k (args_compatible hs cs) (pointee_compatible q o) ≡ true
      → compatible_kind k (args_compatible js cs) (pointee_compatible j o) ≡ true

pub joined_shape :
    (k : TyKind) (n d d' : Symbol) (gs js : Tys) (p j : Pointee) (s : ValueSemantics) (r r' : Bool)
    → by_kind k (same_pointee p j) (same_args gs js) true ≡ true
    → same_shape_as (ty k n d gs p s r) (ty k n d' js j s r') ≡ true
unfolding same_shape_as
joined_shape ref n d d' gs js p j s r r' h = h
joined_shape named n d d' gs js p j s r r' h = ground arith
joined_shape _ n d d' gs js p j s r r' h = refl

pub join_tags :
    (r r' c : Bool) → (r && not c) ≡ false → (r' && not c) ≡ false → ((r || r') && not c) ≡ false
join_tags r r' c h g = ground arith

-- A join of the levels below is a join of the types.
pub IsJoin-level :
    (k : TyKind) (n d d' : Symbol) (gs js : Tys) (p j : Pointee) (s : ValueSemantics) (r : Bool)
    (n' e : Symbol) (hs : Tys) (q : Pointee) (s' : ValueSemantics) (r' : Bool)
    → is_never_kind k ≡ false
    → same_shape_as (ty k n d gs p s r) (ty k n' e hs q s' r') ≡ true
    → IsBelowJoin k gs hs js p q j
    → IsJoin (ty k n d gs p s r) (ty k n' e hs q s' r') (ty k n d' js j s (r || r'))
IsJoin-level k n d d' gs js p j s r n' e hs q s' r' proper same parts =
    let a = ty k n d gs p s r in
    let b = ty k n' e hs q s' r' in
    let m = ty k n d' js j s (r || r') in
    let shape = joined_shape k n d d' gs js p j s r (r || r') parts.shape in
    record {
      shape = shape;
      left = compatible_join a m shape (ground arith) parts.left;
      right =
          compatible_join b m (same_shape_trans b a m (same_shape_sym a b same) shape)
            (ground arith) parts.right;
      least = λ c h g. least_of c h g;
    }
  where
    least_of :
        (c : Ty)
        → compatible (ty k n d gs p s r) c ≡ true
        → compatible (ty k n' e hs q s' r') c ≡ true
        → compatible (ty k n d' js j s (r || r')) c ≡ true
    least_of (ty kc nc dc cs o sc rc) h g =
        let a = ty k n d gs p s r in
        let m = ty k n d' js j s (r || r') in
        let c = ty kc nc dc cs o sc rc in
        let shape = joined_shape k n d d' gs js p j s r (r || r') parts.shape in
        let (to_c, tags, deep) = compatible_split a c proper h in
        let (_, tags', deep') = compatible_split (ty k n' e hs q s' r') c proper g in
        compatible_join m c (same_shape_trans m a c (same_shape_sym a m shape) to_c)
          (join_tags r r' rc tags tags') (parts.least cs o deep deep')

-- Below the shape test, the join is that of the level.
pub common_type_level :
    (k : TyKind) (n d : Symbol) (gs : Tys) (p : Pointee) (s : ValueSemantics) (r : Bool)
    (n' e : Symbol) (hs : Tys) (q : Pointee) (s' : ValueSemantics) (r' : Bool)
    → is_never_kind k ≡ false
    → same_shape_as (ty k n d gs p s r) (ty k n' e hs q s' r') ≡ true
    → common_type (ty k n d gs p s r) (ty k n' e hs q s' r')
      ≡ common_level k
          (λ xs o. ty k n (if is_valid d then d else e) xs o s (r || r'))
          gs
          p
          (common_args gs hs)
          (common_pointee p q)
unfolding common_type
common_type_level k n d gs p s r n' e hs q s' r' proper same = rw proper (rw same refl)

pub by_kind_args :
    (n n' : Symbol) (gs hs : Tys) (d e : Symbol) (p q : Pointee) (s s' : ValueSemantics)
    (r r' : Bool)
    → same_shape_as (ty named n d gs p s r) (ty named n' e hs q s' r') ≡ true
    → same_args gs hs ≡ true
unfolding same_shape_as
by_kind_args n n' gs hs d e p q s s' r r' h = (and_split (n == n') _ h).1

pub by_kind_pointee :
    (n n' : Symbol) (gs hs : Tys) (d e : Symbol) (p q : Pointee) (s s' : ValueSemantics)
    (r r' : Bool)
    → same_shape_as (ty ref n d gs p s r) (ty ref n' e hs q s' r') ≡ true
    → same_pointee p q ≡ true
unfolding same_shape_as
by_kind_pointee n n' gs hs d e p q s s' r r' h = h

abbrev pub Joins : Ty → Ty → Type 0
Joins a b = (j : Ty) × (common_type a b ≡ some j) × IsJoin a b j

abbrev pub ArgsJoin : Tys → Tys → Type 0
ArgsJoin gs hs =
    same_args gs hs ≡ true → (js : Tys) × (common_args gs hs ≡ some js) × IsArgsJoin gs hs js

abbrev pub PointeeJoin : Pointee → Pointee → Type 0
PointeeJoin p q =
    same_pointee p q ≡ true → (j : Pointee) × (common_pointee p q ≡ some j) × IsPointeeJoin p q j
