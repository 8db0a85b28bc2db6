-- ===== src/Builder/Places.antt =====
-- compiler/cstc_lir_builder/src/builder.cpp: places, borrows and fields.
use cicest.Prelude.{
  ◌<◌, ◌≡◌, refl, Bool, true, false, List, [], ◌∷◌, Option, none, some, All, length, arith,
}
use cicest.Span.{SourceSpan}
use cicest.Symbol.{Symbol}
use cicest.Ty.{Ty}
use cicest.Tyir.{TyExpr, ty_expr, TyNode, ValueUseKind}
use cicest.Lir.{LirLocalId, LirPlace, LirOperand, LirRvalue, invalid_local}
use cicest.Lir.Place
use cicest.Lir.Place.{project}
use cicest.Builder.{FnBuilder, LoopContext, next_local, lookup, is_empty}
use cicest.Builder.Steps.{
  assign_new, compute, unit_operand, lower_borrow_place, borrow_place, read_field, fail,
}
use cicest.Builder.Bounds.{OperandIn, Fits, Goes, Lowers}
use cicest.Builder.Computes.{Lowers-after, assign_new-Calm, compute-Lowers}
use cicest.Builder.Frames.{Covers-Found, Ready, lookup-in}
use cicest.Builder.Values.{is_move, unit-Lowers, read_field-Lowers}
use cicest.Builder.Scoped.{Scoped, NodeScoped}

pub by_end :
    {b : FnBuilder} (ended : Bool) (x y : LirOperand × FnBuilder)
    → (ended ≡ true → Lowers b x)
    → (ended ≡ false → Lowers b y)
    → Lowers b (elim ended [ true ↦ x | false ↦ y ])
by_end true x y stop on = stop refl
by_end false x y stop on = on refl

-- A place, where the expression is one.
abbrev pub PlaceIn : FnBuilder → Option (LirPlace × FnBuilder) → Type 0
PlaceIn b none = Unit
PlaceIn b (some (place, b')) = (b' ≡ b) × (place.local_id < length b.locals)

pub projected :
    (b : FnBuilder) (found : Option (LirPlace × FnBuilder)) (field : Symbol)
    → PlaceIn b found
    → PlaceIn b (elim found [ none ↦ none | some (place, b') ↦ some (project place field, b') ])
unfolding project
projected b none field h = tt
projected b (some (place, b')) field h = h

pub looked_up :
    (b : FnBuilder) (found : Option LirLocalId) (id : LirLocalId)
    → found ≡ some id
    → id < length b.locals
    → PlaceIn b (elim found [
      | some id ↦ some (Place.local id, b)
      | none ↦ some (Place.local invalid_local, fail b)
    ])
looked_up b none id hit lt = cc
looked_up b (some i) id hit lt = (refl, ground arith)

mutual
  unfolding lower_borrow_place Scoped

  pub lower_borrow_place-in :
      (names : List Symbol) (lp : Bool) (e : TyExpr) (b : FnBuilder)
      → Scoped names lp e
      → Ready names lp b
      → PlaceIn b (lower_borrow_place b e)
  lower_borrow_place-in names lp (ty_expr node t s a) b h r = borrow_place-in names lp node b h r

  borrow_place-in :
      (names : List Symbol) (lp : Bool) (node : TyNode) (b : FnBuilder)
      → NodeScoped names lp node
      → Ready names lp b
      → PlaceIn b (borrow_place b node)
  borrow_place-in names lp (TyNode.local_ref name use_kind) b h r =
      let (id, hit) = Covers-Found names name b.scope h r.covers in
      looked_up b (lookup name b.scope) id hit
        (lookup-in (length b.locals) name id b.scope r.fits.sound.scope_in hit)
  borrow_place-in names lp (TyNode.field_access base field use_kind) b h r =
      projected b (lower_borrow_place b base) field (lower_borrow_place-in names lp base b h.0 r)
  borrow_place-in names lp (TyNode.literal c) b h r = tt
  borrow_place-in names lp (TyNode.enum_variant_ref e v) b h r = tt
  borrow_place-in names lp (TyNode.struct_init n gs fs) b h r = tt
  borrow_place-in names lp (TyNode.ty_borrow e) b h r = tt
  borrow_place-in names lp (TyNode.ty_unary op e) b h r = tt
  borrow_place-in names lp (TyNode.ty_binary op x y) b h r = tt
  borrow_place-in names lp (TyNode.ty_call n gs es res) b h r = tt
  borrow_place-in names lp (TyNode.deferred_generic_call n gs es) b h r = tt
  borrow_place-in names lp (TyNode.decl_probe e i m) b h r = tt
  borrow_place-in names lp (TyNode.runtime_block body) b h r = tt
  borrow_place-in names lp (TyNode.ty_block body) b h r = tt
  borrow_place-in names lp (TyNode.ty_if c x y) b h r = tt
  borrow_place-in names lp (TyNode.ty_loop body) b h r = tt
  borrow_place-in names lp (TyNode.ty_while c body) b h r = tt
  borrow_place-in names lp (TyNode.ty_for i c s body) b h r = tt
  borrow_place-in names lp (TyNode.ty_break v) b h r = tt
  borrow_place-in names lp TyNode.ty_continue b h r = tt
  borrow_place-in names lp (TyNode.ty_return v) b h r = tt

pub borrowed :
    (b : FnBuilder) (found : Option (LirPlace × FnBuilder)) (k : LirOperand × FnBuilder) (t : Ty)
    (span : SourceSpan)
    → PlaceIn b found
    → Fits b
    → Lowers b k
    → Lowers b
        (elim found [ some (place, b1) ↦ compute b1 t (LirRvalue.borrow place) span | none ↦ k ])
borrowed b none k t span there h other = other
borrowed b (some (place, b1)) k t span (same, lt) h other =
    rw same (compute-Lowers b t (LirRvalue.borrow place) span lt h)

pub accessed :
    (b : FnBuilder) (found : Option (LirPlace × FnBuilder)) (k : LirOperand × FnBuilder)
    (field : Symbol) (use_kind : ValueUseKind) (t : Ty) (span : SourceSpan)
    → is_move use_kind ≡ false
    → PlaceIn b found
    → Fits b
    → Lowers b k
    → Lowers b (elim found [
      | some (place, b1) ↦ read_field b1 (project place field) use_kind t span
      | none ↦ k
    ])
unfolding project
accessed b none k field use_kind t span stays there h other = other
accessed b (some (place, b1)) k field use_kind t span stays (same, lt) h other =
    rw same (read_field-Lowers b (project place field) use_kind t span stays lt h)

-- A borrow or a field of a value that is first put into a local.
pub borrow_value-Lowers :
    (b : FnBuilder) (op : LirOperand) (owner t : Ty) (span : SourceSpan)
    → OperandIn (length b.locals) op
    → Fits b
    → Lowers b (
        compute
          (assign_new b owner none (LirRvalue.use_of op) span)
          t
          (LirRvalue.borrow (Place.local (next_local b)))
          span)
borrow_value-Lowers b op owner t span inside h =
    let (calm, lt) = assign_new-Calm b owner none (LirRvalue.use_of op) span inside h in
    Lowers-after calm.goes (
      compute-Lowers (assign_new b owner none (LirRvalue.use_of op) span) t
        (LirRvalue.borrow (Place.local (next_local b))) span lt calm.goes.fits)

pub read_value-Lowers :
    (b : FnBuilder) (op : LirOperand) (field : Symbol) (use_kind : ValueUseKind) (owner t : Ty)
    (span : SourceSpan)
    → is_move use_kind ≡ false
    → OperandIn (length b.locals) op
    → Fits b
    → Lowers b (
        read_field
          (assign_new b owner none (LirRvalue.use_of op) span)
          (Place.field (next_local b) field)
          use_kind
          t
          span)
read_value-Lowers b op field use_kind owner t span stays inside h =
    let (calm, lt) = assign_new-Calm b owner none (LirRvalue.use_of op) span inside h in
    Lowers-after calm.goes (
      read_field-Lowers (assign_new b owner none (LirRvalue.use_of op) span)
        (Place.field (next_local b) field) use_kind t span stays lt calm.goes.fits)

-- The innermost loop.
pub in_loop-Lowers {ℓ} :
    {b : FnBuilder} (P : LoopContext → Type ℓ) (loops : List LoopContext)
    (k : LoopContext → FnBuilder)
    → is_empty loops ≡ false
    → All P loops
    → ((ctx : LoopContext) → P ctx → Goes b (k ctx))
    → Lowers b (elim loops [ [] ↦ (unit_operand, fail b) | ctx ∷ _ ↦ (unit_operand, k ctx) ])
in_loop-Lowers P [] k nonempty h goes = cc
in_loop-Lowers P (ctx ∷ loops) k nonempty h goes = unit-Lowers (goes ctx h.0)
