-- ===== src/Availability.antt =====
-- compiler/cstc_tyir/include/cstc_tyir/tyir.hpp: the availability of values, concrete and symbolic.
-- A `std::set` of parameter indices is an ascending list that is extended by insertion in order.
pub mod Sets
pub mod Join
pub mod Symbolic
pub mod Residue
mod Examples
use cicest.Prelude.{
  ℕ, zero, suc, Bool, true, false, not, ◌&&◌, ◌||◌, List, [], ◌∷◌, Option, none, some, ◌==◌, ltb,
  if◌then◌else◌, length, get_elem?, Bytes,
}
use cicest.Span.{SourceSpan}
use cicest.Ty.{Ty, ty, is_never, contains_runtime_tag}

pub record TyRuntimeEvidence : Type 0 where
  pub span : SourceSpan
  pub reason : Bytes

pub data AvailabilityKind : Type 0 where
  ct rt : AvailabilityKind

-- `std::set::insert` of one index.
unfoldable pub insert : ℕ → List ℕ → List ℕ
insert i [] = i ∷ []
insert i (j ∷ js) = if ltb i j then i ∷ j ∷ js else if i == j then j ∷ js else j ∷ insert i js

-- `std::set::insert` of the range of another set.
unfoldable pub insert_all : List ℕ → List ℕ → List ℕ
insert_all js [] = js
insert_all js (i ∷ is) = insert_all (insert i js) is

pub record Availability : Type 0 where
  pub kind : AvailabilityKind
  pub evidence : Option TyRuntimeEvidence
  pub depends_on_runtime_allowed_param : Bool
  pub runtime_allowed_param_indices : List ℕ

abbrev pub availability_ct : Availability
availability_ct = record {
  kind = ct;
  evidence = none;
  depends_on_runtime_allowed_param = false;
  runtime_allowed_param_indices = [];
}

abbrev pub availability_rt : Option TyRuntimeEvidence → Availability
availability_rt evidence = record {
  kind = rt;
  evidence = evidence;
  depends_on_runtime_allowed_param = false;
  runtime_allowed_param_indices = [];
}

-- The two overloads for an ordinary parameter, of no known index and of one.
abbrev pub availability_runtime_allowed_param : Option ℕ → Availability
availability_runtime_allowed_param index = record {
  kind = ct;
  evidence = none;
  depends_on_runtime_allowed_param = true;
  runtime_allowed_param_indices = elim index [ none ↦ [] | some i ↦ i ∷ [] ];
}

abbrev pub first_evidence :
    Option TyRuntimeEvidence → Option TyRuntimeEvidence → Option TyRuntimeEvidence
first_evidence (some e) other = some e
first_evidence none other = other

-- The branches of `availability_join` on the two kinds.
unfoldable pub join_by :
    AvailabilityKind → AvailabilityKind → Availability → Availability → Availability
join_by ct ct lhs rhs = record {
  kind = ct;
  evidence = none;
  depends_on_runtime_allowed_param =
      lhs.depends_on_runtime_allowed_param || rhs.depends_on_runtime_allowed_param;
  runtime_allowed_param_indices =
      insert_all lhs.runtime_allowed_param_indices rhs.runtime_allowed_param_indices;
}
join_by ct rt lhs rhs = record rhs {
  depends_on_runtime_allowed_param =
      lhs.depends_on_runtime_allowed_param || rhs.depends_on_runtime_allowed_param;
  runtime_allowed_param_indices =
      insert_all rhs.runtime_allowed_param_indices lhs.runtime_allowed_param_indices;
}
join_by rt ct lhs rhs = record lhs {
  depends_on_runtime_allowed_param =
      lhs.depends_on_runtime_allowed_param || rhs.depends_on_runtime_allowed_param;
  runtime_allowed_param_indices =
      insert_all lhs.runtime_allowed_param_indices rhs.runtime_allowed_param_indices;
}
join_by rt rt lhs rhs = record {
  kind = rt;
  evidence = first_evidence lhs.evidence rhs.evidence;
  depends_on_runtime_allowed_param =
      lhs.depends_on_runtime_allowed_param || rhs.depends_on_runtime_allowed_param;
  runtime_allowed_param_indices =
      insert_all lhs.runtime_allowed_param_indices rhs.runtime_allowed_param_indices;
}

unfoldable pub availability_join : Availability → Availability → Availability
unfolding join_by
availability_join lhs rhs = join_by lhs.kind rhs.kind lhs rhs

abbrev pub is_rt : AvailabilityKind → Bool
is_rt ct = false
is_rt rt = true

unfoldable pub is_ct_available : Availability → Bool
is_ct_available a = not (is_rt a.kind)

unfoldable pub is_ct_required_available : Availability → Bool
is_ct_required_available a = not (is_rt a.kind) && not a.depends_on_runtime_allowed_param

pub data AvailabilityExprKind : Type 0 where
  ct rt param join : AvailabilityExprKind

-- `struct AvailabilityExpr`: kind, param_index, lhs, rhs. A child pointer may be null.
mutual
  pub data AvailabilityExpr : Type 0 where
    expr : AvailabilityExprKind → ℕ → Child → Child → AvailabilityExpr

  pub data Child : Type 0 where
    null : Child
    to : AvailabilityExpr → Child

abbrev pub availability_expr_ct : AvailabilityExpr
availability_expr_ct = expr AvailabilityExprKind.ct 0 null null

abbrev pub availability_expr_rt : AvailabilityExpr
availability_expr_rt = expr AvailabilityExprKind.rt 0 null null

abbrev pub availability_expr_param : ℕ → AvailabilityExpr
availability_expr_param index = expr AvailabilityExprKind.param index null null

abbrev pub expr_kind : AvailabilityExpr → AvailabilityExprKind
expr_kind (expr k i l r) = k

-- The tests of `availability_expr_join` on the two kinds.
abbrev pub expr_join_by :
    AvailabilityExprKind
    → AvailabilityExprKind
    → AvailabilityExpr
    → AvailabilityExpr
    → AvailabilityExpr
expr_join_by AvailabilityExprKind.ct kr lhs rhs = rhs
expr_join_by kl AvailabilityExprKind.ct lhs rhs = lhs
expr_join_by AvailabilityExprKind.rt kr lhs rhs = availability_expr_rt
expr_join_by kl AvailabilityExprKind.rt lhs rhs = availability_expr_rt
expr_join_by kl kr lhs rhs = expr AvailabilityExprKind.join 0 (to lhs) (to rhs)

unfoldable pub availability_expr_join : AvailabilityExpr → AvailabilityExpr → AvailabilityExpr
availability_expr_join lhs rhs = expr_join_by (expr_kind lhs) (expr_kind rhs) lhs rhs

abbrev pub by_expr_kind {ℓ} : {A : Type ℓ} → AvailabilityExprKind → A → A → A → A → A
by_expr_kind AvailabilityExprKind.ct at_ct at_rt at_param at_join = at_ct
by_expr_kind AvailabilityExprKind.rt at_ct at_rt at_param at_join = at_rt
by_expr_kind AvailabilityExprKind.param at_ct at_rt at_param at_join = at_param
by_expr_kind AvailabilityExprKind.join at_ct at_rt at_param at_join = at_join

unfoldable mutual
  pub availability_expr_always_ct : AvailabilityExpr → Bool
  availability_expr_always_ct (expr k i l r) =
      by_expr_kind k true false false (child_always_ct l && child_always_ct r)

  pub child_always_ct : Child → Bool
  child_always_ct null = false
  child_always_ct (to e) = availability_expr_always_ct e

unfoldable mutual
  pub availability_expr_forces_rt : AvailabilityExpr → Bool
  availability_expr_forces_rt (expr k i l r) =
      by_expr_kind k false true false (child_forces_rt l || child_forces_rt r)

  pub child_forces_rt : Child → Bool
  child_forces_rt null = false
  child_forces_rt (to e) = availability_expr_forces_rt e

-- `args[expr.param_index]`, or a runtime summary behind the end.
unfoldable pub arg_at : List Availability → ℕ → Availability
arg_at [] i = availability_rt none
arg_at (a ∷ args) zero = a
arg_at (a ∷ args) (suc i) = arg_at args i

unfoldable mutual
  pub availability_expr_substitute : AvailabilityExpr → List Availability → Availability
  availability_expr_substitute (expr k i l r) args =
      by_expr_kind k availability_ct (availability_rt none) (arg_at args i)
        (availability_join (child_substitute l args) (child_substitute r args))

  pub child_substitute : Child → List Availability → Availability
  child_substitute null args = availability_ct
  child_substitute (to e) args = availability_expr_substitute e args

-- The loop of `availability_expr_from_availability` over the indices.
unfoldable pub join_params : AvailabilityExpr → List ℕ → AvailabilityExpr
join_params e [] = e
join_params e (i ∷ is) = join_params (availability_expr_join e (availability_expr_param i)) is

unfoldable pub availability_expr_from_availability : Availability → AvailabilityExpr
availability_expr_from_availability a =
    join_params (if is_rt a.kind then availability_expr_rt else availability_expr_ct)
      a.runtime_allowed_param_indices

unfoldable pub availability_from_type : Ty → Availability
availability_from_type t = if contains_runtime_tag t then availability_rt none else availability_ct

abbrev pub set_is_runtime : Ty → Bool → Ty
set_is_runtime (ty k n d gs p s r) is_runtime = ty k n d gs p s is_runtime

unfoldable pub with_availability_projection : Ty → Availability → Ty
with_availability_projection shape a =
    if is_never shape then shape else set_is_runtime shape (is_rt a.kind)

-- The type and the availability of the expression that `make_ty_expr` builds, by `set_availability`.
unfoldable pub make_ty_expr : Ty → Availability → Ty × Availability
make_ty_expr t a =
    let joined = availability_join (availability_from_type t) a in
    (with_availability_projection t joined, joined)
