-- ===== src/Availability/Join.antt =====
-- The join of availability summaries.
use cicest.Prelude.{
  Bool-cases, ◌≡◌, refl, sym, ap, ◌∙◌, subst, Bool, true, false, ◌||◌, Option, none, arith, inl,
  inr, if◌then◌else◌,
}
use cicest.Ty.Shape.{same_shape_refl}
use cicest.Ty.{ty, same_shape_as, Ty, is_never, contains_runtime_tag}
use cicest.Ty.Tests.{runtime_of}
use cicest.Availability.{
  AvailabilityKind, ct, rt, Availability, availability_ct, availability_join, insert_all,
  first_evidence, TyRuntimeEvidence, is_rt, make_ty_expr, availability_from_type,
  with_availability_projection, set_is_runtime,
}
use cicest.Availability.Sets.{
  Ascending, insert_all_assoc, insert_all_comm, insert_all-Ascending, insert_all-nil,
}

-- A summary as the code builds it: compile-time values carry no evidence, and the index set is in order.
pub record IsSummary (a : Availability) : Type 0 where
  pub no_evidence : a.kind ≡ ct → a.evidence ≡ none
  pub ordered : Ascending a.runtime_allowed_param_indices

abbrev kind_join : AvailabilityKind → AvailabilityKind → AvailabilityKind
kind_join ct k = k
kind_join rt k = rt

-- One formula for the four branches.
abbrev join_formula : Availability → Availability → Availability
join_formula a b = record {
  kind = kind_join a.kind b.kind;
  evidence = first_evidence a.evidence b.evidence;
  depends_on_runtime_allowed_param =
      a.depends_on_runtime_allowed_param || b.depends_on_runtime_allowed_param;
  runtime_allowed_param_indices =
      insert_all a.runtime_allowed_param_indices b.runtime_allowed_param_indices;
}

join-formula :
    (a b : Availability) → IsSummary a → IsSummary b → availability_join a b ≡ join_formula a b
unfolding availability_join
join-formula a b h g = ground (
  arith,
  h.no_evidence,
  g.no_evidence,
  insert_all_comm a.runtime_allowed_param_indices b.runtime_allowed_param_indices h.ordered
      g.ordered,
)

pub join-IsSummary :
    (a b : Availability) → IsSummary a → IsSummary b → IsSummary (availability_join a b)
join-IsSummary a b h g = subst IsSummary (sym (join-formula a b h g)) (record {
  no_evidence = λ e. ground (arith, h.no_evidence, g.no_evidence);
  ordered = insert_all-Ascending a.runtime_allowed_param_indices _ h.ordered;
})

pub availability_ct-IsSummary : IsSummary availability_ct
availability_ct-IsSummary = record { no_evidence = λ e. refl; ordered = tt }

formula_assoc :
    (a b c : Availability) → join_formula (join_formula a b) c ≡ join_formula a (join_formula b c)
formula_assoc a b c = ground (
  arith,
  insert_all_assoc a.runtime_allowed_param_indices b.runtime_allowed_param_indices
      c.runtime_allowed_param_indices,
)

formula_unit : (a : Availability) → join_formula a availability_ct ≡ a
unfolding insert_all
formula_unit a = ground arith

-- Summaries are a monoid under `availability_join`, with the compile-time summary as its unit: the order of the
-- values is kept for the evidence, and grouping does not matter.
pub availability_join_monoid :
    (a b c : Availability)
    → IsSummary a
    → IsSummary b
    → IsSummary c
    → (availability_join (availability_join a b) c ≡ availability_join a (availability_join b c))
      × (availability_join availability_ct a ≡ a)
      × (availability_join a availability_ct ≡ a)
availability_join_monoid a b c h g f = (
  join-formula (availability_join a b) c (join-IsSummary a b h g) f
      ∙ ap (λ x. join_formula x c) (join-formula a b h g)
      ∙ formula_assoc a b c
      ∙ ap (join_formula a) (sym (join-formula b c g f))
      ∙ sym (join-formula a (availability_join b c) h (join-IsSummary b c g f)),
  join-formula availability_ct a availability_ct-IsSummary h
      ∙ ground (arith, insert_all-nil a.runtime_allowed_param_indices h.ordered),
  join-formula a availability_ct h availability_ct-IsSummary ∙ formula_unit a,
)

pub is_rt-join :
    (a b : Availability) → is_rt (availability_join a b).kind ≡ (is_rt a.kind || is_rt b.kind)
unfolding availability_join
is_rt-join a b = ground arith

-- The evidence of a value that depends on the runtime.
abbrev pub live_evidence : Availability → Option TyRuntimeEvidence
live_evidence a = if is_rt a.kind then a.evidence else none

-- A join depends on the runtime exactly when one of its sides does, the evidence is the first that such a side has,
-- and the join may depend on a runtime-allowed parameter when one of its sides may.
pub availability_join_runtime :
    (a b : Availability)
    → (is_rt (availability_join a b).kind ≡ (is_rt a.kind || is_rt b.kind))
      × (live_evidence (availability_join a b) ≡ first_evidence (live_evidence a) (live_evidence b))
      × ((availability_join a b).depends_on_runtime_allowed_param
          ≡ (a.depends_on_runtime_allowed_param || b.depends_on_runtime_allowed_param))
unfolding availability_join
availability_join_runtime a b = ground arith

from_type_kind : (t : Ty) → is_rt (availability_from_type t).kind ≡ contains_runtime_tag t
unfolding availability_from_type
from_type_kind t = ground arith

depends :
    (t : Ty) (a : Availability)
    → is_rt (make_ty_expr t a).1.kind ≡ (contains_runtime_tag t || is_rt a.kind)
unfolding make_ty_expr
depends t a =
    is_rt-join (availability_from_type t) a ∙ ap (λ b. b || is_rt a.kind) (from_type_kind t)

tagged_projection :
    (t : Ty) (a : Availability)
    → is_never t ≡ false
    → runtime_of (with_availability_projection t a) ≡ is_rt a.kind
unfolding with_availability_projection
tagged_projection (ty k n d gs p s r) a h = rw h refl

tagged :
    (t : Ty) (a : Availability)
    → is_never t ≡ false
    → runtime_of (make_ty_expr t a).0 ≡ is_rt (make_ty_expr t a).1.kind
unfolding make_ty_expr
tagged t a h = tagged_projection t (availability_join (availability_from_type t) a) h

shape-set_is_runtime : (t : Ty) (b : Bool) → same_shape_as t (set_is_runtime t b) ≡ true
unfolding same_shape_as
shape-set_is_runtime (ty k n d gs p s r) b = same_shape_refl (ty k n d gs p s r)

shaped_projection :
    (t : Ty) (a : Availability) → same_shape_as t (with_availability_projection t a) ≡ true
unfolding with_availability_projection
shaped_projection t a = elim (Bool-cases (is_never t)) [
  | inl bottom ↦ rw bottom (same_shape_refl t)
  | inr proper ↦ rw proper (shape-set_is_runtime t (is_rt a.kind))
]

shaped : (t : Ty) (a : Availability) → same_shape_as t (make_ty_expr t a).0 ≡ true
unfolding make_ty_expr
shaped t a = shaped_projection t (availability_join (availability_from_type t) a)

-- An expression's type and availability agree once it is built: unless the type is `!`, its runtime tag says whether
-- the value depends on the runtime; the value does exactly when the given availability does or the given type carries
-- a runtime tag at any level; and the tag is all that changes of the type's shape.
pub make_ty_expr_consistent :
    (t : Ty) (a : Availability)
    → (is_never t ≡ false → runtime_of (make_ty_expr t a).0 ≡ is_rt (make_ty_expr t a).1.kind)
      × (is_rt (make_ty_expr t a).1.kind ≡ (contains_runtime_tag t || is_rt a.kind))
      × (same_shape_as t (make_ty_expr t a).0 ≡ true)
make_ty_expr_consistent t a = (tagged t a, depends t a, shaped t a)
