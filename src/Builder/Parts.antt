-- ===== src/Builder/Parts.antt =====
-- compiler/cstc_lir_builder/src/builder.cpp: arguments, fields and the ways of `break`, each behind an expression.
use cicest.Prelude.{
  ℕ, ◌<◌, ◌≡◌, refl, Bool, true, false, List, ◌∷◌, Option, none, some, All, length, arith, ◌⊎◌, inl,
  inr, ◌==◌,
}
use cicest.Span.{SourceSpan}
use cicest.Symbol.{Symbol}
use cicest.Ty.{Ty}
use cicest.Lir.{LirLocalId, LirOperand, LirStructInitField, LirRvalue, invalid_local}
use cicest.Builder.{FnBuilder, LoopContext, push_scope, is_empty}
use cicest.Builder.Steps.{compute, unit_operand, lower_call}
use cicest.Builder.Bounds.{OperandIn, FieldIn, Goes, Lowers}
use cicest.Builder.Grow.{OperandIn-grow}
use cicest.Builder.Computes.{Goes-trans, Lowers-after, compute-Lowers}
use cicest.Builder.Stacks.{push_scope-Inside}
use cicest.Builder.Frames.{Covers-push, InLoop, Ready}
use cicest.Builder.Values.{unit-Lowers, lower_call-Lowers}

-- Values that are lowered from left to right.
abbrev pub ArgsIn : ℕ → Option (List LirOperand) → Type 0
ArgsIn n none = Unit
ArgsIn n (some ops) = All (OperandIn n) ops

abbrev pub FieldsIn : ℕ → Option (List LirStructInitField) → Type 0
FieldsIn n none = Unit
FieldsIn n (some vs) = All (FieldIn n) vs

abbrev pub ArgsRun : FnBuilder → Option (List LirOperand) × FnBuilder → Type 0
ArgsRun b (ops, b') =
    Goes b b' × ArgsIn (length b'.locals) ops × ((ops ≡ none) ⊎ (b'.block_terminated ≡ false))

abbrev pub FieldsRun : FnBuilder → Option (List LirStructInitField) × FnBuilder → Type 0
FieldsRun b (vs, b') = Goes b b' × FieldsIn (length b'.locals) vs

pub called-Lowers :
    {b : FnBuilder} (c : FnBuilder) (name : Symbol) (ops : Option (List LirOperand)) (t : Ty)
    (span : SourceSpan)
    → ArgsRun b (ops, c)
    → Lowers b (elim ops [ none ↦ (unit_operand, c) | some ops ↦ lower_call c name ops t span ])
called-Lowers c name none t span (goes, inside, on) = unit-Lowers goes
called-Lowers c name (some ops) t span (goes, inside, inl e) = cc
called-Lowers c name (some ops) t span (goes, inside, inr live) =
    Lowers-after goes (lower_call-Lowers c name ops t span live inside goes.fits)

pub built-Lowers :
    {b : FnBuilder} (c : FnBuilder) (name : Symbol) (vs : Option (List LirStructInitField)) (t : Ty)
    (span : SourceSpan)
    → FieldsRun b (vs, c)
    → Lowers b (elim vs [
      | none ↦ (unit_operand, c)
      | some vs ↦ compute c t (LirRvalue.struct_init name vs) span
    ])
built-Lowers c name none t span (goes, inside) = unit-Lowers goes
built-Lowers c name (some vs) t span (goes, inside) =
    Lowers-after goes (compute-Lowers c t (LirRvalue.struct_init name vs) span inside goes.fits)

pub loops_there :
    (lp : Bool) (loops : List LoopContext) → lp ≡ true → InLoop lp loops → is_empty loops ≡ false
loops_there false loops e h = cc
loops_there true loops e h = h

pub args_step :
    {b : FnBuilder} (op : LirOperand) (b1 : FnBuilder) (rest : Option (List LirOperand) × FnBuilder)
    (ended : Bool)
    → b1.block_terminated ≡ ended
    → Lowers b (op, b1)
    → (b1.block_terminated ≡ false → ArgsRun b1 rest)
    → ArgsRun b (elim ended [
      | true ↦ (none, b1)
      | false ↦ elim rest.0 [ none ↦ (none, rest.1) | some ops ↦ (some (op ∷ ops), rest.1) ]
    ])
args_step op b1 rest true e x go = (x.goes, tt, inl refl)
args_step op b1 (none, b2) false e x go =
    let (goes, inside, on) = go e in (Goes-trans x.goes goes, tt, inl refl)
args_step op b1 (some ops, b2) false e x go =
    let (goes, inside, on) = go e in
    (
      Goes-trans x.goes goes,
      (OperandIn-grow goes.grows.locals_grow op x.value_in, inside),
      elim on [ inl absent_ops ↦ cc | inr live ↦ inr live ],
    )

pub fields_step :
    {b : FnBuilder} (name : Symbol) (op : LirOperand) (b1 : FnBuilder)
    (rest : Option (List LirStructInitField) × FnBuilder) (ended : Bool)
    → b1.block_terminated ≡ ended
    → Lowers b (op, b1)
    → (b1.block_terminated ≡ false → FieldsRun b1 rest)
    → FieldsRun b (elim ended [
      | true ↦ (none, b1)
      | false ↦ elim rest.0 [
        | none ↦ (none, rest.1)
        | some vs ↦ (some (record { name = name; value = op } ∷ vs), rest.1)
      ]
    ])
fields_step name op b1 rest true e x go = (x.goes, tt)
fields_step name op b1 (none, b2) false e x go = (Goes-trans x.goes (go e).0, tt)
fields_step name op b1 (some vs, b2) false e x go =
    let (goes, inside) = go e in
    (Goes-trans x.goes goes, (OperandIn-grow goes.grows.locals_grow op x.value_in, inside))

pub break_or :
    {b : FnBuilder} (c : Bool) (x y : FnBuilder)
    → (c ≡ true → Goes b x)
    → (c ≡ false → Goes b y)
    → Goes b (elim c [ true ↦ x | false ↦ y ])
break_or true x y p q = p refl
break_or false x y p q = q refl

-- A loop's value local that is not the invalid one is there.
pub value_local :
    (n : ℕ) (id : LirLocalId)
    → (id == invalid_local) ≡ false
    → (id ≡ invalid_local) ⊎ (id < n)
    → id < n
value_local n id valid (inl e) = absurd (ground (arith, valid, e))
value_local n id valid (inr lt) = lt

pub Ready-push :
    {names : List Symbol} {lp : Bool} {b : FnBuilder}
    → Ready names lp b
    → Ready names lp (push_scope b)
unfolding push_scope
Ready-push {names} {lp} {b} r = record {
  fits = (push_scope-Inside b r.fits).fits;
  live = r.live;
  covers = Covers-push names b r.covers;
  loops = r.loops;
}
