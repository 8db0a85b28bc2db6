-- ===== src/Availability/Symbolic.antt =====
-- What symbolic availability expressions say about their substitutions.
use cicest.Prelude.{
  ℕ, zero, suc, ◌≡◌, ◌↔◌, refl, ap, ◌∙◌, Bool, true, false, ◌&&◌, ◌||◌, List, [], ◌∷◌, All, arith,
  ltb, length, if◌then◌else◌,
}
use cicest.Availability.{
  Availability, is_rt, AvailabilityExprKind, AvailabilityExpr, expr, Child, null, to,
  availability_expr_join, availability_expr_param, availability_expr_ct, availability_expr_rt,
  availability_expr_always_ct, child_always_ct, availability_expr_forces_rt, child_forces_rt,
  availability_expr_substitute, child_substitute, arg_at, by_expr_kind, join_params,
  availability_expr_from_availability,
}
use cicest.Availability.Join.{is_rt-join}

-- Whether a substitution depends on the runtime.
abbrev pub rt_under : List Availability → AvailabilityExpr → Bool
rt_under args e = is_rt (availability_expr_substitute e args).kind

abbrev child_rt_under : List Availability → Child → Bool
child_rt_under args c = is_rt (child_substitute c args).kind

-- Every join in the expression has both its children, as in all that the builders make.
unfoldable mutual
  pub is_complete : AvailabilityExpr → Bool
  is_complete (expr k i l r) =
      by_expr_kind k true true true (child_is_complete l && child_is_complete r)

  pub child_is_complete : Child → Bool
  child_is_complete null = false
  child_is_complete (to e) = is_complete e

-- Every parameter in the expression is below `n`.
unfoldable mutual
  pub params_below : ℕ → AvailabilityExpr → Bool
  params_below n (expr k i l r) =
      by_expr_kind k true true (ltb i n) (child_params_below n l && child_params_below n r)

  pub child_params_below : ℕ → Child → Bool
  child_params_below n null = true
  child_params_below n (to e) = params_below n e

mutual
  unfolding availability_expr_substitute availability_expr_always_ct

  always_ct_sound :
      (e : AvailabilityExpr) (args : List Availability)
      → availability_expr_always_ct e ≡ true
      → rt_under args e ≡ false
  always_ct_sound (expr AvailabilityExprKind.ct i l r) args h = refl
  always_ct_sound (expr AvailabilityExprKind.rt i l r) args h = cc
  always_ct_sound (expr AvailabilityExprKind.param i l r) args h = cc
  always_ct_sound (expr AvailabilityExprKind.join i l r) args h = ground (
    arith,
    is_rt-join (child_substitute l args) (child_substitute r args),
    child_always_ct_sound l args,
    child_always_ct_sound r args,
  )

  child_always_ct_sound :
      (c : Child) (args : List Availability)
      → child_always_ct c ≡ true
      → child_rt_under args c ≡ false
  child_always_ct_sound null args h = refl
  child_always_ct_sound (to e) args h = always_ct_sound e args h

mutual
  unfolding availability_expr_substitute availability_expr_always_ct is_complete arg_at

  always_ct_complete :
      (e : AvailabilityExpr)
      → is_complete e ≡ true
      → rt_under [] e ≡ false
      → availability_expr_always_ct e ≡ true
  always_ct_complete (expr AvailabilityExprKind.ct i l r) c h = refl
  always_ct_complete (expr AvailabilityExprKind.rt i l r) c h = cc
  always_ct_complete (expr AvailabilityExprKind.param i l r) c h = cc
  always_ct_complete (expr AvailabilityExprKind.join i l r) c h = ground (
    arith,
    is_rt-join (child_substitute l []) (child_substitute r []),
    child_always_ct_complete l,
    child_always_ct_complete r,
  )

  child_always_ct_complete :
      (c : Child)
      → child_is_complete c ≡ true
      → child_rt_under [] c ≡ false
      → child_always_ct c ≡ true
  child_always_ct_complete null c h = cc
  child_always_ct_complete (to e) c h = always_ct_complete e c h

-- An expression whose joins have both children is always compile-time exactly when no arguments make its
-- substitution depend on the runtime.
pub always_ct_iff :
    (e : AvailabilityExpr)
    → is_complete e ≡ true
    → (availability_expr_always_ct e ≡ true)
      ↔ ((args : List Availability) → rt_under args e ≡ false)
always_ct_iff e c = (λ h args. always_ct_sound e args h, λ h. always_ct_complete e c (h []))

mutual
  unfolding availability_expr_substitute availability_expr_forces_rt

  forces_rt_sound :
      (e : AvailabilityExpr) (args : List Availability)
      → availability_expr_forces_rt e ≡ true
      → rt_under args e ≡ true
  forces_rt_sound (expr AvailabilityExprKind.ct i l r) args h = cc
  forces_rt_sound (expr AvailabilityExprKind.rt i l r) args h = refl
  forces_rt_sound (expr AvailabilityExprKind.param i l r) args h = cc
  forces_rt_sound (expr AvailabilityExprKind.join i l r) args h = ground (
    arith,
    is_rt-join (child_substitute l args) (child_substitute r args),
    child_forces_rt_sound l args,
    child_forces_rt_sound r args,
  )

  child_forces_rt_sound :
      (c : Child) (args : List Availability)
      → child_forces_rt c ≡ true
      → child_rt_under args c ≡ true
  child_forces_rt_sound null args h = cc
  child_forces_rt_sound (to e) args h = forces_rt_sound e args h

-- Every argument is available at compile time.
abbrev pub AllCt : List Availability → Type 0
AllCt args = All (λ (a : Availability). is_rt a.kind ≡ false) args

arg_at-AllCt :
    (args : List Availability) (i : ℕ)
    → AllCt args
    → ltb i (length args) ≡ true
    → is_rt (arg_at args i).kind ≡ false
unfolding arg_at
arg_at-AllCt [] zero h b = cc
arg_at-AllCt [] (suc i) h b = absurd (ground arith)
arg_at-AllCt (a ∷ args) zero h b = h.0
arg_at-AllCt (a ∷ args) (suc i) h b = arg_at-AllCt args i h.1 (ground arith)

mutual
  unfolding availability_expr_substitute availability_expr_forces_rt params_below

  not_forced :
      (e : AvailabilityExpr) (args : List Availability)
      → AllCt args
      → params_below (length args) e ≡ true
      → availability_expr_forces_rt e ≡ false
      → rt_under args e ≡ false
  not_forced (expr AvailabilityExprKind.ct i l r) args a b h = refl
  not_forced (expr AvailabilityExprKind.rt i l r) args a b h = cc
  not_forced (expr AvailabilityExprKind.param i l r) args a b h = arg_at-AllCt args i a b
  not_forced (expr AvailabilityExprKind.join i l r) args a b h = ground (
    arith,
    is_rt-join (child_substitute l args) (child_substitute r args),
    child_not_forced l args a,
    child_not_forced r args a,
  )

  child_not_forced :
      (c : Child) (args : List Availability)
      → AllCt args
      → child_params_below (length args) c ≡ true
      → child_forces_rt c ≡ false
      → child_rt_under args c ≡ false
  child_not_forced null args a b h = refl
  child_not_forced (to e) args a b h = not_forced e args a b h

-- An expression that forces the runtime depends on it under all arguments, and one that does not is compile-time
-- under compile-time arguments for all its parameters.
pub forces_rt_lem :
    (e : AvailabilityExpr) (args : List Availability)
    → (availability_expr_forces_rt e ≡ true → rt_under args e ≡ true)
      × (AllCt args
          → params_below (length args) e ≡ true
          → availability_expr_forces_rt e ≡ false
          → rt_under args e ≡ false)
forces_rt_lem e args = (forces_rt_sound e args, not_forced e args)

rt_under-join :
    (e f : AvailabilityExpr) (args : List Availability)
    → rt_under args (availability_expr_join e f) ≡ (rt_under args e || rt_under args f)
unfolding availability_expr_join availability_expr_substitute
rt_under-join (expr k i l r) (expr k' i' l' r') args = ground (
  arith,
  is_rt-join (availability_expr_substitute (expr k i l r) args)
      (availability_expr_substitute (expr k' i' l' r') args),
)

rt_under_param :
    (args : List Availability) (i : ℕ)
    → rt_under args (availability_expr_param i) ≡ is_rt (arg_at args i).kind
unfolding availability_expr_substitute
rt_under_param args i = refl

-- Whether one of the arguments with these indices depends on the runtime, or is missing.
pub any_rt : List Availability → List ℕ → Bool
any_rt args [] = false
any_rt args (i ∷ is) = is_rt (arg_at args i).kind || any_rt args is

rt_under-join_params :
    (args : List Availability) (is : List ℕ) (e : AvailabilityExpr)
    → rt_under args (join_params e is) ≡ (rt_under args e || any_rt args is)
unfolding join_params any_rt
rt_under-join_params args [] e = ground arith
rt_under-join_params args (i ∷ is) e = ground (
  arith,
  rt_under-join_params args is (availability_expr_join e (availability_expr_param i)),
  rt_under-join e (availability_expr_param i) args,
  rt_under_param args i,
)

rt_under_start :
    (args : List Availability) (b : Bool)
    → rt_under args (if b then availability_expr_rt else availability_expr_ct) ≡ b
unfolding availability_expr_substitute
rt_under_start args true = refl
rt_under_start args false = refl

-- A summary's symbolic projection keeps its meaning at a call: its substitution depends on the runtime exactly
-- when the summary does, or when one of the arguments for its recorded parameters does or is missing. Joining two
-- expressions joins what they depend on.
pub from_availability_substitute :
    (a : Availability) (e f : AvailabilityExpr) (args : List Availability)
    → (rt_under args (availability_expr_from_availability a)
        ≡ (is_rt a.kind || any_rt args a.runtime_allowed_param_indices))
      × (rt_under args (availability_expr_join e f) ≡ (rt_under args e || rt_under args f))
unfolding availability_expr_from_availability
from_availability_substitute a e f args = (
  rt_under-join_params args a.runtime_allowed_param_indices _
      ∙ ap (λ b. b || any_rt args a.runtime_allowed_param_indices)
          (rt_under_start args (is_rt a.kind)),
  rt_under-join e f args,
)
