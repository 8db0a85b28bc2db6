-- ===== src/Availability/Examples.antt =====
-- The theorems on availability at concrete summaries.
use cicest.Prelude.{not, ◌&&◌, ◌≡◌, ◌↔◌, refl, true, false, ◌||◌, List, [], ◌∷◌, some, none}
use cicest.Ty.{Ty, ty, num, nil, null, copy, is_never, contains_runtime_tag, same_shape_as}
use cicest.Ty.Tests.{runtime_of}
use cicest.Availability.{
  Availability, AvailabilityExpr, availability_ct, availability_rt,
  availability_runtime_allowed_param, availability_join, first_evidence, is_rt, make_ty_expr,
  availability_expr_join, availability_expr_param, availability_expr_always_ct,
  availability_expr_forces_rt, availability_expr_from_availability, join, to,
}
use cicest.Availability.Residue.{
  call_residue_for_expr_lem, call_residue_for_expr, ct_eligible, is_eligible,
}
use cicest.Availability.Join.{
  IsSummary, live_evidence, availability_join_monoid, availability_join_runtime,
  make_ty_expr_consistent,
}
use cicest.Availability.Symbolic.{
  rt_under, is_complete, params_below, AllCt, any_rt, always_ct_iff, forces_rt_lem,
  from_availability_substitute,
}

abbrev param_summary : Availability
param_summary = availability_runtime_allowed_param (some 3)

param_summary-IsSummary : IsSummary param_summary
param_summary-IsSummary = record { no_evidence = λ e. refl; ordered = tt }

abbrev input_summary : Availability
input_summary =
    availability_rt (some (record { span = record { start = 4; end = 9 }; reason = [] }))

input_summary-IsSummary : IsSummary input_summary
input_summary-IsSummary = record { no_evidence = λ e. cc; ordered = tt }

availability_join_monoid_example :
    (availability_join (availability_join param_summary input_summary) param_summary
      ≡ availability_join param_summary (availability_join input_summary param_summary))
    × (availability_join availability_ct param_summary ≡ param_summary)
    × (availability_join param_summary availability_ct ≡ param_summary)
availability_join_monoid_example =
    availability_join_monoid param_summary input_summary param_summary param_summary-IsSummary
      input_summary-IsSummary param_summary-IsSummary

availability_join_runtime_example :
    (is_rt (availability_join param_summary input_summary).kind ≡ true)
    × (live_evidence (availability_join param_summary input_summary)
        ≡ first_evidence none (live_evidence input_summary))
    × ((availability_join param_summary input_summary).depends_on_runtime_allowed_param ≡ true)
availability_join_runtime_example = availability_join_runtime param_summary input_summary

abbrev runtime_num : Ty
runtime_num = ty num 0 0 nil null copy true

make_ty_expr_consistent_example :
    (is_never runtime_num ≡ false
      → runtime_of (make_ty_expr runtime_num availability_ct).0
        ≡ is_rt (make_ty_expr runtime_num availability_ct).1.kind)
    × (is_rt (make_ty_expr runtime_num availability_ct).1.kind
        ≡ (contains_runtime_tag runtime_num || false))
    × (same_shape_as runtime_num (make_ty_expr runtime_num availability_ct).0 ≡ true)
make_ty_expr_consistent_example = make_ty_expr_consistent runtime_num availability_ct

abbrev two_params : AvailabilityExpr
two_params =
    AvailabilityExpr.expr join 0 (to (availability_expr_param 0)) (to (availability_expr_param 1))

always_ct_iff_example :
    (availability_expr_always_ct two_params ≡ true)
    ↔ ((args : List Availability) → rt_under args two_params ≡ false)
unfolding is_complete
always_ct_iff_example = always_ct_iff two_params refl

abbrev two_ct : List Availability
two_ct = availability_ct ∷ param_summary ∷ []

forces_rt_lem_example :
    (availability_expr_forces_rt two_params ≡ true → rt_under two_ct two_params ≡ true)
    × (AllCt two_ct
        → params_below 2 two_params ≡ true
        → availability_expr_forces_rt two_params ≡ false
        → rt_under two_ct two_params ≡ false)
forces_rt_lem_example = forces_rt_lem two_params two_ct

from_availability_substitute_example :
    (rt_under two_ct (availability_expr_from_availability param_summary) ≡ any_rt two_ct (3 ∷ []))
    × (rt_under two_ct (availability_expr_join two_params two_params)
        ≡ (rt_under two_ct two_params || rt_under two_ct two_params))
from_availability_substitute_example =
    from_availability_substitute param_summary two_params two_params two_ct

call_residue_for_expr_lem_example :
    is_eligible (call_residue_for_expr (make_ty_expr runtime_num availability_ct).1 ct_eligible)
    ≡ (true && not (contains_runtime_tag runtime_num || false))
call_residue_for_expr_lem_example =
    call_residue_for_expr_lem runtime_num availability_ct ct_eligible
