-- ===== src/Ty.antt =====
-- compiler/cstc_tyir/include/cstc_tyir/tyir.hpp: resolved types; type_compat.hpp: their compatibility.
-- A pointee is null or points to a type that is never written to again, so pointers are compared by identity only
-- where one of them is null.
pub mod Shape
pub mod Erasure
pub mod Factory
pub mod Tests
pub mod Compat
pub mod Level
pub mod Join
mod Examples
use mathlib.Core.Option
use cicest.Prelude.{ℕ, Bool, true, false, not, ◌&&◌, ◌||◌, Option, none, some, ◌==◌, if◌then◌else◌}
use cicest.Symbol.{Symbol, invalid_symbol, is_valid}

pub data TyKind : Type 0 where
  ref unit num str bool named never : TyKind

-- The enumerators' values.
abbrev pub kind_code : TyKind → ℕ
kind_code ref = 0
kind_code unit = 1
kind_code num = 2
kind_code str = 3
kind_code bool = 4
kind_code named = 5
kind_code never = 6

abbrev pub kind_eq : TyKind → TyKind → Bool
kind_eq a b = kind_code a == kind_code b

pub data ValueSemantics : Type 0 where
  copy move ref : ValueSemantics

abbrev pub semantics_code : ValueSemantics → ℕ
semantics_code copy = 0
semantics_code move = 1
semantics_code ref = 2

abbrev pub semantics_eq : ValueSemantics → ValueSemantics → Bool
semantics_eq a b = semantics_code a == semantics_code b

abbrev runtime_eq : Bool → Bool → Bool
runtime_eq true b = b
runtime_eq false b = not b

-- `struct Ty`: kind, name, display_name, generic_args, pointee, semantics, is_runtime.
mutual
  pub data Ty : Type 0 where
    ty : TyKind → Symbol → Symbol → Tys → Pointee → ValueSemantics → Bool → Ty

  pub data Tys : Type 0 where
    nil : Tys
    cons : Ty → Tys → Tys

  pub data Pointee : Type 0 where
    null : Pointee
    to : Ty → Pointee

abbrev pub is_never_kind : TyKind → Bool
is_never_kind never = true
is_never_kind _ = false

unfoldable pub is_never : Ty → Bool
is_never (ty k n d gs p s r) = is_never_kind k

-- What a `switch` on the kind does with the pointee, and with the name and arguments.
abbrev pub by_kind : TyKind → Bool → Bool → Bool → Bool
by_kind ref at_pointee at_args otherwise = at_pointee
by_kind named at_pointee at_args otherwise = at_args
by_kind _ at_pointee at_args otherwise = otherwise

-- `Ty::same_shape_as`. Lists of different sizes differ.
unfoldable mutual
  pub same_shape_as : Ty → Ty → Bool
  same_shape_as (ty k n d gs p s r) (ty k' n' d' gs' p' s' r') =
      kind_eq k k' && by_kind k (same_pointee p p') (n == n' && same_args gs gs') true

  pub same_args : Tys → Tys → Bool
  same_args nil nil = true
  same_args (cons a xs) (cons b bs) = same_shape_as a b && same_args xs bs
  same_args _ _ = false

  pub same_pointee : Pointee → Pointee → Bool
  same_pointee null null = true
  same_pointee (to a) (to b) = same_shape_as a b
  same_pointee _ _ = false

-- `operator==` on types: everything but the display name.
unfoldable mutual
  pub ty_eq : Ty → Ty → Bool
  ty_eq (ty k n d gs p s r) (ty k' n' d' gs' p' s' r') =
      (kind_eq k k' && n == n' && semantics_eq s s' && runtime_eq r r' && args_eq gs gs')
      && (if kind_eq k ref then pointee_eq p p' else true)

  pub args_eq : Tys → Tys → Bool
  args_eq nil nil = true
  args_eq (cons a xs) (cons b bs) = ty_eq a b && args_eq xs bs
  args_eq _ _ = false

  pub pointee_eq : Pointee → Pointee → Bool
  pointee_eq null null = true
  pointee_eq (to a) (to b) = ty_eq a b
  pointee_eq _ _ = false

-- `ty_contains_runtime_tag`, which is `type_has_runtime_dependency`.
unfoldable mutual
  pub contains_runtime_tag : Ty → Bool
  contains_runtime_tag (ty k n d gs p s r) =
      if r then true else by_kind k (pointee_runtime_tag p) (args_runtime_tag gs) false

  pub args_runtime_tag : Tys → Bool
  args_runtime_tag nil = false
  args_runtime_tag (cons a xs) = contains_runtime_tag a || args_runtime_tag xs

  pub pointee_runtime_tag : Pointee → Bool
  pointee_runtime_tag null = false
  pointee_runtime_tag (to a) = contains_runtime_tag a

-- The checks of `compatible` on one level of the type trees, given those of the levels below.
abbrev pub compatible_kind : TyKind → Bool → Bool → Bool
compatible_kind named at_args at_pointee = at_args
compatible_kind ref at_args at_pointee = at_pointee
compatible_kind _ at_args at_pointee = true

-- `compatible(actual, expected)`
unfoldable mutual
  unfolding is_never same_shape_as

  pub compatible : Ty → Ty → Bool
  compatible (ty k n d gs p s r) (ty k' n' d' gs' p' s' r') =
      if is_never_kind k
      then true
      else if not (same_shape_as (ty k n d gs p s r) (ty k' n' d' gs' p' s' r'))
      then false
      else if r && not r'
      then false
      else compatible_kind k (args_compatible gs gs') (pointee_compatible p p')

  -- The shape test has shown that the lists are of one size.
  pub args_compatible : Tys → Tys → Bool
  args_compatible nil nil = true
  args_compatible (cons a xs) (cons b bs) = compatible a b && args_compatible xs bs
  args_compatible _ _ = false

  pub pointee_compatible : Pointee → Pointee → Bool
  pointee_compatible null null = true
  pointee_compatible (to a) (to b) = compatible a b
  pointee_compatible _ _ = false

unfoldable pub matches_type_shape : Ty → Ty → Bool
unfolding is_never
matches_type_shape actual expected = is_never actual || same_shape_as actual expected

-- The join of two types of one shape, given those of their arguments and of their pointees: `joined` is the
-- left type with both runtime tags, and with the right display name where the left has none.
abbrev pub common_level :
    TyKind → (Tys → Pointee → Ty) → Tys → Pointee → Option Tys → Option Pointee → Option Ty
common_level named joined gs p args pointee = Option.map (λ xs. joined xs p) args
common_level ref joined gs p args pointee = Option.map (joined gs) pointee
common_level _ joined gs p args pointee = some (joined gs p)

abbrev pub common_cons : Option Ty → Option Tys → Option Tys
common_cons none rest = none
common_cons (some a) none = none
common_cons (some a) (some gs) = some (cons a gs)

-- `common_type(lhs, rhs)`
unfoldable mutual
  unfolding same_shape_as is_valid

  pub common_type : Ty → Ty → Option Ty
  common_type (ty k n d gs p s r) (ty k' n' d' gs' p' s' r') =
      if is_never_kind k
      then some (ty k' n' d' gs' p' s' r')
      else if is_never_kind k'
      then some (ty k n d gs p s r)
      else if not (same_shape_as (ty k n d gs p s r) (ty k' n' d' gs' p' s' r'))
      then none
      else common_level k (λ xs q. ty k n (if is_valid d then d else d') xs q s (r || r')) gs p
          (common_args gs gs') (common_pointee p p')

  -- The shape test has shown that the lists are of one size.
  pub common_args : Tys → Tys → Option Tys
  common_args nil nil = some nil
  common_args (cons a gs) (cons b gs') = common_cons (common_type a b) (common_args gs gs')
  common_args _ _ = none

  pub common_pointee : Pointee → Pointee → Option Pointee
  common_pointee null null = some null
  common_pointee (to a) (to b) = Option.map to (common_type a b)
  common_pointee _ _ = none
