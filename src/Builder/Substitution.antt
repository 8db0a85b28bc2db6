-- ===== src/Builder/Substitution.antt =====
-- compiler/cstc_lir_builder/src/builder.cpp: `apply_substitution`, types in place of generic parameters.
use cicest.Prelude.{
  ◌≡◌, refl, ap, ◌∙◌, Bool, false, ◌||◌, List, [], ◌∷◌, Option, none, some, ◌==◌, if◌then◌else◌,
  ◌⊎◌, inl, inr, some_inj,
}
use cicest.Symbol.{Symbol, is_valid}
use cicest.Ty.{ValueSemantics, Ty, ty, Tys, nil, cons, Pointee, null, to, TyKind}

abbrev pub TypeSubstitution : Type 0
TypeSubstitution = List (Symbol × Ty)

unfoldable pub find_type : Symbol → TypeSubstitution → Option Ty
find_type name [] = none
find_type name ((key, t) ∷ rest) = if name == key then some t else find_type name rest

-- The type that replaces a parameter takes on the parameter's runtime tag, and its display name where it has none.
unfoldable pub replaced : Ty → Symbol → Bool → Ty
unfolding is_valid
replaced (ty k n d gs p s r) display_name runtime =
    ty k n (if is_valid d then d else display_name) gs p s (r || runtime)

unfoldable mutual
  unfolding find_type replaced

  pub apply_substitution : TypeSubstitution → Ty → Ty
  apply_substitution subst (ty TyKind.ref n d gs p s r) =
      ty TyKind.ref n d gs (apply_pointee subst p) s r
  apply_substitution subst (ty TyKind.named n d nil p s r) = elim (find_type n subst) [
    | some t ↦ replaced t d r
    | none ↦ ty TyKind.named n d nil p s r
  ]
  apply_substitution subst (ty TyKind.named n d (cons t ts) p s r) =
      ty TyKind.named n d (cons (apply_substitution subst t) (apply_args subst ts)) p s r
  apply_substitution subst (ty k n d gs p s r) = ty k n d gs p s r

  pub apply_pointee : TypeSubstitution → Pointee → Pointee
  apply_pointee subst null = null
  apply_pointee subst (to t) = to (apply_substitution subst t)

  pub apply_args : TypeSubstitution → Tys → Tys
  apply_args subst nil = nil
  apply_args subst (cons t ts) = cons (apply_substitution subst t) (apply_args subst ts)

-- No parameter, which is a name without arguments that passes the test, stands in the type.
module _ (is_param : Symbol → Bool) where
  abbrev mutual
    pub IsClosed : Ty → Type 0
    IsClosed (ty TyKind.ref n d gs p s r) = PointeeClosed p
    IsClosed (ty TyKind.named n d nil p s r) = is_param n ≡ false
    IsClosed (ty TyKind.named n d (cons t ts) p s r) = IsClosed t × ArgsClosed ts
    IsClosed (ty k n d gs p s r) = Unit

    pub PointeeClosed : Pointee → Type 0
    PointeeClosed null = Unit
    PointeeClosed (to t) = IsClosed t

    pub ArgsClosed : Tys → Type 0
    ArgsClosed nil = Unit
    ArgsClosed (cons t ts) = IsClosed t × ArgsClosed ts

replaced-IsClosed :
    (is_param : Symbol → Bool) (t : Ty) (d : Symbol) (r : Bool)
    → IsClosed is_param t
    → IsClosed is_param (replaced t d r)
unfolding replaced
replaced-IsClosed is_param (ty TyKind.ref n d gs p s q) e r h = h
replaced-IsClosed is_param (ty TyKind.unit n d gs p s q) e r h = tt
replaced-IsClosed is_param (ty TyKind.num n d gs p s q) e r h = tt
replaced-IsClosed is_param (ty TyKind.str n d gs p s q) e r h = tt
replaced-IsClosed is_param (ty TyKind.bool n d gs p s q) e r h = tt
replaced-IsClosed is_param (ty TyKind.named n d nil p s q) e r h = h
replaced-IsClosed is_param (ty TyKind.named n d (cons t ts) p s q) e r h = h
replaced-IsClosed is_param (ty TyKind.never n d gs p s q) e r h = tt

-- Every parameter is replaced, by a closed type.
abbrev pub Replaces : (Symbol → Bool) → TypeSubstitution → Type 0
Replaces is_param subst =
    (n : Symbol)
    → ((is_param n ≡ false) × (find_type n subst ≡ none))
      ⊎ ((t : Ty) × (find_type n subst ≡ some t) × IsClosed is_param t)

module _ (is_param : Symbol → Bool) (subst : TypeSubstitution)
    (covers : Replaces is_param subst) where
  at_name :
      (n d : Symbol) (p : Pointee) (s : ValueSemantics) (r : Bool) (found : Option Ty)
      → ((is_param n ≡ false) × (found ≡ none))
        ⊎ ((t : Ty) × (found ≡ some t) × IsClosed is_param t)
      → IsClosed is_param
          (elim found [ some t ↦ replaced t d r | none ↦ ty TyKind.named n d nil p s r ])
  at_name n d p s r none (inl (h, e)) = h
  at_name n d p s r none (inr (t, e, h)) = cc
  at_name n d p s r (some t) (inl (h, e)) = cc
  at_name n d p s r (some t) (inr (u, e, h)) =
      replaced-IsClosed is_param t d r (subst_closed t u e h)
    where
      subst_closed : (t u : Ty) → some t ≡ some u → IsClosed is_param u → IsClosed is_param t
      subst_closed t u e h = rw (some_inj e) h

  mutual
    unfolding apply_substitution

    apply_closes : (t : Ty) → IsClosed is_param (apply_substitution subst t)
    apply_closes (ty TyKind.ref n d gs p s r) = pointee_closes p
    apply_closes (ty TyKind.unit n d gs p s r) = tt
    apply_closes (ty TyKind.num n d gs p s r) = tt
    apply_closes (ty TyKind.str n d gs p s r) = tt
    apply_closes (ty TyKind.bool n d gs p s r) = tt
    apply_closes (ty TyKind.named n d nil p s r) = at_name n d p s r (find_type n subst) (covers n)
    apply_closes (ty TyKind.named n d (cons t ts) p s r) = (apply_closes t, args_close ts)
    apply_closes (ty TyKind.never n d gs p s r) = tt

    pointee_closes : (p : Pointee) → PointeeClosed is_param (apply_pointee subst p)
    pointee_closes null = tt
    pointee_closes (to t) = apply_closes t

    args_close : (ts : Tys) → ArgsClosed is_param (apply_args subst ts)
    args_close nil = tt
    args_close (cons t ts) = (apply_closes t, args_close ts)

name_same :
    (n d : Symbol) (p : Pointee) (s : ValueSemantics) (r : Bool) (found : Option Ty)
    → found ≡ none
    → elim found as (λ _. Ty) [ some t ↦ replaced t d r | none ↦ ty TyKind.named n d nil p s r ]
      ≡ ty TyKind.named n d nil p s r
name_same n d p s r none e = refl
name_same n d p s r (some t) e = cc

module _ (is_param : Symbol → Bool) (subst : TypeSubstitution)
    (only : (n : Symbol) → is_param n ≡ false → find_type n subst ≡ none) where
  mutual
    unfolding apply_substitution

    apply_same : (t : Ty) → IsClosed is_param t → apply_substitution subst t ≡ t
    apply_same (ty TyKind.ref n d gs p s r) h =
        ap (λ p. ty TyKind.ref n d gs p s r) (pointee_same p h)
    apply_same (ty TyKind.unit n d gs p s r) h = refl
    apply_same (ty TyKind.num n d gs p s r) h = refl
    apply_same (ty TyKind.str n d gs p s r) h = refl
    apply_same (ty TyKind.bool n d gs p s r) h = refl
    apply_same (ty TyKind.named n d nil p s r) h =
        name_same n d p s r (find_type n subst) (only n h)
    apply_same (ty TyKind.named n d (cons t ts) p s r) h =
        ap (λ gs. ty TyKind.named n d gs p s r)
          (ap (λ t. cons t (apply_args subst ts)) (apply_same t h.0)
            ∙ ap (cons t) (args_same ts h.1))
    apply_same (ty TyKind.never n d gs p s r) h = refl

    pointee_same : (p : Pointee) → PointeeClosed is_param p → apply_pointee subst p ≡ p
    pointee_same null h = refl
    pointee_same (to t) h = ap to (apply_same t h)

    args_same : (ts : Tys) → ArgsClosed is_param ts → apply_args subst ts ≡ ts
    args_same nil h = refl
    args_same (cons t ts) h =
        ap (λ t. cons t (apply_args subst ts)) (apply_same t h.0) ∙ ap (cons t) (args_same ts h.1)

-- A substitution that replaces the parameters alone, and each by a type without parameters, leaves no parameter in any
-- type, and a type without parameters as it is; applied again it changes nothing.
pub apply_substitution-IsClosed :
    (is_param : Symbol → Bool) (subst : TypeSubstitution)
    → Replaces is_param subst
    → ((n : Symbol) → is_param n ≡ false → find_type n subst ≡ none)
    → (t : Ty)
    → IsClosed is_param (apply_substitution subst t)
      × (IsClosed is_param t → apply_substitution subst t ≡ t)
      × (apply_substitution subst (apply_substitution subst t) ≡ apply_substitution subst t)
apply_substitution-IsClosed is_param subst covers only t =
    let closed = apply_closes is_param subst covers t in
    (
      closed,
      apply_same is_param subst only t,
      apply_same is_param subst only (apply_substitution subst t) closed,
    )
