-- ===== src/Availability/Residue.antt =====
-- compiler/cstc_tyir/include/cstc_tyir/tyir.hpp: whether a call may be evaluated at compile time.
use cicest.Prelude.{◌≡◌, refl, ap, ◌∙◌, Bool, true, false, not, ◌&&◌, ◌||◌, arith, if◌then◌else◌}
use cicest.Ty.{Ty, contains_runtime_tag}
use cicest.Availability.{Availability, is_rt, is_ct_available, make_ty_expr}
use cicest.Availability.Join.{make_ty_expr_consistent}

pub data CallResidue : Type 0 where
  ct_eligible runtime_barrier : CallResidue

unfoldable pub call_residue_from_availability : Availability → CallResidue
call_residue_from_availability a = if is_ct_available a then ct_eligible else runtime_barrier

-- The residue that the call's node stores, and the availability of the expression.
unfoldable pub call_residue_for_expr : Availability → CallResidue → CallResidue
call_residue_for_expr a runtime_barrier = runtime_barrier
call_residue_for_expr a ct_eligible = call_residue_from_availability a

abbrev pub is_eligible : CallResidue → Bool
is_eligible ct_eligible = true
is_eligible runtime_barrier = false

residue-kind :
    (a : Availability) (stored : CallResidue)
    → is_eligible (call_residue_for_expr a stored) ≡ (is_eligible stored && not (is_rt a.kind))
unfolding call_residue_for_expr call_residue_from_availability is_ct_available
residue-kind a ct_eligible = ground arith
residue-kind a runtime_barrier = refl

-- A call that was built with a type and an availability may be evaluated at compile time exactly when its node is
-- stored as eligible, the type has no runtime tag at any level, and the availability does not depend on the runtime.
pub call_residue_for_expr_lem :
    (t : Ty) (a : Availability) (stored : CallResidue)
    → is_eligible (call_residue_for_expr (make_ty_expr t a).1 stored)
      ≡ (is_eligible stored && not (contains_runtime_tag t || is_rt a.kind))
call_residue_for_expr_lem t a stored =
    let (_, depends, _) = make_ty_expr_consistent t a in
    residue-kind (make_ty_expr t a).1 stored ∙ ap (λ b. is_eligible stored && not b) depends
