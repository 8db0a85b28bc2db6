-- ===== src/Ty/Tests.antt =====
-- The tests that `compatible` makes at one level.
use cicest.Prelude.{◌≡◌, refl, Bool, true, false, not, ◌&&◌, arith, if◌then◌else◌}
use cicest.Ty.{
  TyKind, ref, named, is_never_kind, kind_eq, compatible_kind, Ty, ty, same_shape_as, compatible,
  args_compatible, pointee_compatible,
}
use cicest.Ty.Shape.{and_split, kind_eq→eq}

-- The tests of one level: on whether the actual type is `!`, on the shapes, on the runtime tags, and below.
pub level : Bool → Bool → Bool → Bool → Bool
level is_bottom same drops below =
    if is_bottom then true else if not same then false else if drops then false else below

pub level_split :
    (v w x y : Bool) → v ≡ false → level v w x y ≡ true → (w ≡ true) × (x ≡ false) × (y ≡ true)
unfolding level
level_split v w x y e h = ground arith

pub level_join : (v w x y : Bool) → w ≡ true → x ≡ false → y ≡ true → level v w x y ≡ true
unfolding level
level_join v w x y h g f = ground arith

pub compatible_kind_intro :
    (k : TyKind) (a p : Bool) → a ≡ true → p ≡ true → compatible_kind k a p ≡ true
compatible_kind_intro ref a p h g = g
compatible_kind_intro named a p h g = h
compatible_kind_intro _ a p h g = refl

pub compatible_kind_map₂ :
    (k : TyKind) (a a' a'' p p' p'' : Bool)
    → (a ≡ true → a' ≡ true → a'' ≡ true)
    → (p ≡ true → p' ≡ true → p'' ≡ true)
    → compatible_kind k a p ≡ true
    → compatible_kind k a' p' ≡ true
    → compatible_kind k a'' p'' ≡ true
compatible_kind_map₂ ref a a' a'' p p' p'' f g h h' = g h h'
compatible_kind_map₂ named a a' a'' p p' p'' f g h h' = f h h'
compatible_kind_map₂ _ a a' a'' p p' p'' f g h h' = refl

abbrev pub runtime_of : Ty → Bool
runtime_of (ty k n d gs p s r) = r

abbrev pub kind_of : Ty → TyKind
kind_of (ty k n d gs p s r) = k

-- The test of the levels below.
abbrev pub below : Ty → Ty → Bool
below (ty k n d gs p s r) (ty k' n' d' gs' p' s' r') =
    compatible_kind k (args_compatible gs gs') (pointee_compatible p p')

-- What compatibility says of a type that is not `!`.
pub compatible_split :
    (a b : Ty)
    → is_never_kind (kind_of a) ≡ false
    → compatible a b ≡ true
    → (same_shape_as a b ≡ true)
      × ((runtime_of a && not (runtime_of b)) ≡ false)
      × (below a b ≡ true)
unfolding compatible level
compatible_split (ty k n d gs p s r) (ty k' n' d' gs' p' s' r') e h =
    level_split (is_never_kind k) _ (r && not r') _ e h

pub compatible_join :
    (a b : Ty)
    → same_shape_as a b ≡ true
    → (runtime_of a && not (runtime_of b)) ≡ false
    → below a b ≡ true
    → compatible a b ≡ true
unfolding compatible level
compatible_join (ty k n d gs p s r) (ty k' n' d' gs' p' s' r') h g f =
    level_join (is_never_kind k) _ (r && not r') _ h g f

pub compatible_never : (a b : Ty) → is_never_kind (kind_of a) ≡ true → compatible a b ≡ true
unfolding compatible
compatible_never (ty k n d gs p s r) (ty k' n' d' gs' p' s' r') h = rw h refl

pub same_kind : (a b : Ty) → same_shape_as a b ≡ true → kind_of a ≡ kind_of b
unfolding same_shape_as
same_kind (ty k n d gs p s r) (ty k' n' d' gs' p' s' r') h =
    kind_eq→eq k k' (and_split (kind_eq k k') _ h).0
