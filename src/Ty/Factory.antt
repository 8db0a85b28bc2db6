-- ===== src/Ty/Factory.antt =====
-- compiler/cstc_tyir/include/cstc_tyir/tyir.hpp: `namespace ty`, the factories of the well-known types.
use cicest.Prelude.{◌≡◌, refl, Bool, true, false, arith}
use cicest.Symbol.{Symbol, invalid_symbol}
use cicest.Ty.{
  TyKind, ValueSemantics, copy, move, Ty, ty, Tys, nil, null, to, same_shape_as, compatible,
}
use cicest.Ty.Shape.{same_shape_refl}
use cicest.Ty.Compat.{compatible_refl}

abbrev pub unit : Bool → Ty
unit r = ty TyKind.unit invalid_symbol invalid_symbol nil null copy r

abbrev pub num : Bool → Ty
num r = ty TyKind.num invalid_symbol invalid_symbol nil null copy r

abbrev pub str : Bool → Ty
str r = ty TyKind.str invalid_symbol invalid_symbol nil null move r

abbrev pub bool : Bool → Ty
bool r = ty TyKind.bool invalid_symbol invalid_symbol nil null copy r

abbrev pub never : Bool → Ty
never r = ty TyKind.never invalid_symbol invalid_symbol nil null copy r

abbrev pub named : Symbol → Symbol → ValueSemantics → Bool → Tys → Ty
named sym display_name semantics r generic_args =
    ty TyKind.named sym display_name generic_args null semantics r

abbrev pub ref : Ty → Bool → Ty
ref pointee r = ty TyKind.ref invalid_symbol invalid_symbol nil (to pointee) ValueSemantics.ref r

-- A factory, given whether the type carries the runtime tag.
pub data Factory : (Bool → Ty) → Type 0 where
  of_unit : Factory unit
  of_num : Factory num
  of_str : Factory str
  of_bool : Factory bool
  of_named :
      (sym display_name : Symbol) (semantics : ValueSemantics) (generic_args : Tys)
      → Factory (λ r. named sym display_name semantics r generic_args)
  of_ref : (pointee : Ty) → Factory (ref pointee)

-- The one conversion that is implicit at a type's top level: a type that a factory makes without the runtime tag
-- may stand where the same type with it is required, and never the other way round.
pub Factory-compatible :
    (f : Bool → Ty)
    → Factory f
    → (compatible (f false) (f true) ≡ true) × (compatible (f true) (f false) ≡ false)
unfolding compatible same_shape_as
Factory-compatible f of_unit = (refl, refl)
Factory-compatible f of_num = (refl, refl)
Factory-compatible f of_str = (refl, refl)
Factory-compatible f of_bool = (refl, refl)
Factory-compatible f (of_named sym d s gs) =
    ground (arith, compatible_refl (named sym d s true gs), same_shape_refl (named sym d s true gs))
Factory-compatible f (of_ref p) = ground (arith, compatible_refl p, same_shape_refl p)
