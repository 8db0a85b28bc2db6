-- ===== src/Builder/Values.antt =====
-- compiler/cstc_lir_builder/src/builder.cpp: locals, places, calls and results are lowered to operands in range.
use cicest.Prelude.{ℕ, ◌<◌, ◌≡◌, refl, ◌∙◌, Bool, true, false, List, Option, none, some, length}
use cicest.Span.{SourceSpan}
use cicest.Symbol.{Symbol}
use cicest.Ty.{Ty, is_never}
use cicest.Tyir.{ValueUseKind}
use cicest.Lir.{LirLocalId, LirPlace, LirOperand, LirRvalue, LirStmt, LirTerminatorNode}
use cicest.Lir.Operand
use cicest.Lir.Place
use cicest.Builder.{FnBuilder, next_local, alloc_local, seal_block}
use cicest.Builder.Steps.{
  assign_new, compute, unit_operand, operand_for_place, lower_local, read_field, lower_call,
  finish_runtime, bind_local, has_value, result_local, alloc_result, result_operand, assign_result,
  assign_live, is_unit,
}
use cicest.Builder.Bounds.{OperandIn, RvalueIn, SlotIn, Fits, Goes, Calm, Lowers}
use cicest.Builder.Computes.{
  Goes-refl, Goes-trans, Calm-refl, emit_stmt-Calm, alloc_local-Calm, local-there,
  operand_for_local-in, assign_new-Calm, compute-Lowers, seal_block-Goes,
}
use cicest.Builder.Stacks.{Inside, Inside-after, bind-Inside}
use cicest.Builder.Frames.{Found, lookup-in}

-- A value that was lowered before, behind a step.
pub unit-Lowers : {b b' : FnBuilder} → Goes b b' → Lowers b (unit_operand, b')
unit-Lowers g = record { goes = g; value_in = tt }

place-Lowers :
    (b : FnBuilder) (id : LirLocalId) (use_kind : ValueUseKind)
    → id < length b.locals
    → Fits b
    → Lowers b (operand_for_place b (Place.local id) use_kind)
unfolding operand_for_place
place-Lowers b id ValueUseKind.copy lt h = record { goes = Goes-refl b h; value_in = lt }
place-Lowers b id ValueUseKind.move lt h = record { goes = Goes-refl b h; value_in = lt }
place-Lowers b id ValueUseKind.borrow lt h = record { goes = Goes-refl b h; value_in = lt }

pub lower_local-Lowers :
    (b : FnBuilder) (name : Symbol) (use_kind : ValueUseKind)
    → Found b.scope name
    → Fits b
    → Lowers b (lower_local b name use_kind)
unfolding lower_local
lower_local-Lowers b name use_kind (id, hit) h =
    rw (hit, lower_local)
      (place-Lowers b id use_kind (lookup-in (length b.locals) name id b.scope h.sound.scope_in hit)
        h)

abbrev pub is_move : ValueUseKind → Bool
is_move ValueUseKind.move = true
is_move _ = false

pub read_field-Lowers :
    (b : FnBuilder) (place : LirPlace) (use_kind : ValueUseKind) (t : Ty) (span : SourceSpan)
    → is_move use_kind ≡ false
    → place.local_id < length b.locals
    → Fits b
    → Lowers b (read_field b place use_kind t span)
unfolding read_field operand_for_place
read_field-Lowers b place ValueUseKind.copy t span stays lt h =
    compute-Lowers b t (LirRvalue.use_of (Operand.copy place)) span lt h
read_field-Lowers b place ValueUseKind.borrow t span stays lt h =
    compute-Lowers b t (LirRvalue.use_of (Operand.copy place)) span lt h
read_field-Lowers b place ValueUseKind.move t span stays lt h = cc

call_value-Lowers :
    (b : FnBuilder) (rhs : LirRvalue) (t : Ty) (span : SourceSpan) (never unit : Bool)
    → b.block_terminated ≡ false
    → RvalueIn (length b.locals) rhs
    → Fits b
    → Lowers b (elim never [
      | true ↦ (
        unit_operand,
        seal_block LirTerminatorNode.unreachable span (assign_new b t none rhs span),
      )
      | false ↦ elim unit [
        | true ↦ (unit_operand, assign_new b t none rhs span)
        | false ↦ compute b t rhs span
      ]
    ])
call_value-Lowers b rhs t span true unit live inside h =
    let (calm, lt) = assign_new-Calm b t none rhs span inside h in
    unit-Lowers (
      Goes-trans calm.goes (
        seal_block-Goes LirTerminatorNode.unreachable span (assign_new b t none rhs span)
          (calm.same_end ∙ live) tt calm.goes.fits))
call_value-Lowers b rhs t span false true live inside h =
    unit-Lowers (assign_new-Calm b t none rhs span inside h).0.goes
call_value-Lowers b rhs t span false false live inside h = compute-Lowers b t rhs span inside h

pub lower_call-Lowers :
    (b : FnBuilder) (name : Symbol) (ops : List LirOperand) (t : Ty) (span : SourceSpan)
    → b.block_terminated ≡ false
    → RvalueIn (length b.locals) (LirRvalue.call name ops)
    → Fits b
    → Lowers b (lower_call b name ops t span)
unfolding lower_call
lower_call-Lowers b name ops t span live inside h =
    call_value-Lowers b (LirRvalue.call name ops) t span (is_never t) (is_unit t) live inside h

value_or-Lowers :
    (b : FnBuilder) (op : LirOperand) (t : Ty) (span : SourceSpan) (valued : Bool)
    → OperandIn (length b.locals) op
    → Fits b
    → Lowers b (elim valued [ true ↦ compute b t (LirRvalue.use_of op) span | false ↦ (op, b) ])
value_or-Lowers b op t span true inside h = compute-Lowers b t (LirRvalue.use_of op) span inside h
value_or-Lowers b op t span false inside h = record { goes = Goes-refl b h; value_in = inside }

pub finish_runtime-Lowers :
    (b : FnBuilder) (op : LirOperand) (t : Ty) (span : SourceSpan)
    → OperandIn (length b.locals) op
    → Fits b
    → Lowers b (finish_runtime b op t span)
unfolding finish_runtime
finish_runtime-Lowers b op t span inside h = value_or-Lowers b op t span (has_value t) inside h

pub bind_local-Inside :
    {a : FnBuilder} (b : FnBuilder) (discard : Bool) (name : Symbol) (t : Ty) (op : LirOperand)
    (span : SourceSpan)
    → OperandIn (length b.locals) op
    → Inside a b
    → Inside a (bind_local b discard name t op span)
unfolding bind_local
bind_local-Inside b true name t op span inside i = i
bind_local-Inside b false name t op span inside i =
    let (calm, lt) = assign_new-Calm b t (some name) (LirRvalue.use_of op) span inside i.fits in
    bind-Inside name (next_local b) (assign_new b t (some name) (LirRvalue.use_of op) span) lt
      (Inside-after i calm.goes)

-- The result local, where there is one, is allocated.
alloc_if-Calm :
    (b : FnBuilder) (t : Ty) (valued : Bool)
    → Fits b
    → Calm b (elim valued [ true ↦ alloc_local b t none | false ↦ b ])
      × SlotIn
          (length
            (elim valued as (λ _. FnBuilder) [ true ↦ alloc_local b t none | false ↦ b ]).locals)
          (elim valued [ true ↦ some (next_local b) | false ↦ none ])
alloc_if-Calm b t true h = (alloc_local-Calm b t none h, local-there b t none)
alloc_if-Calm b t false h = (Calm-refl b h, tt)

pub alloc_result-Calm :
    (b : FnBuilder) (t : Ty)
    → Fits b
    → Calm b (alloc_result b t) × SlotIn (length (alloc_result b t).locals) (result_local b t)
unfolding alloc_result result_local
alloc_result-Calm b t h = alloc_if-Calm b t (has_value t) h

pub result_operand-in :
    (n : ℕ) (result : Option LirLocalId) (t : Ty)
    → SlotIn n result
    → OperandIn n (result_operand result t)
result_operand-in n none t inside = tt
result_operand-in n (some id) t inside = operand_for_local-in n id t inside

pub assign_result-Calm :
    (result : Option LirLocalId) (op : LirOperand) (span : SourceSpan) (b : FnBuilder)
    → SlotIn (length b.locals) result
    → OperandIn (length b.locals) op
    → Fits b
    → Calm b (assign_result result op span b)
unfolding assign_result
assign_result-Calm none op span b there inside h = Calm-refl b h
assign_result-Calm (some id) op span b there inside h =
    emit_stmt-Calm (LirStmt.assign (Place.local id) (LirRvalue.use_of op) span) b (there, inside) h

-- A step that is taken where control goes on.
pub if_live :
    {b b' : FnBuilder}
    → (r : FnBuilder) → Goes b b'
    → (b'.block_terminated ≡ false → Goes b r)
    → Goes b (elim b'.block_terminated [ true ↦ b' | false ↦ r ])
if_live {b} {b'} r g on = go b'.block_terminated refl
  where
    go :
        (m : Bool)
        → b'.block_terminated ≡ m
        → Goes b (elim m as (λ _. FnBuilder) [ true ↦ b' | false ↦ r ])
    go true e = g
    go false e = on e

-- The same for a value.
pub if_live-Lowers :
    {b b' : FnBuilder}
    → (r : LirOperand × FnBuilder) → Goes b b'
    → (b'.block_terminated ≡ false → Lowers b r)
    → Lowers b (elim b'.block_terminated [ true ↦ (unit_operand, b') | false ↦ r ])
if_live-Lowers {b} {b'} r g on = go b'.block_terminated refl
  where
    go :
        (m : Bool)
        → b'.block_terminated ≡ m
        → Lowers b
            (elim m as (λ _. LirOperand × FnBuilder) [ true ↦ (unit_operand, b') | false ↦ r ])
    go true e = unit-Lowers g
    go false e = on e

pub assign_live-Goes :
    (result : Option LirLocalId) (op : LirOperand) (span : SourceSpan) (b : FnBuilder)
    → SlotIn (length b.locals) result
    → OperandIn (length b.locals) op
    → Fits b
    → Goes b (assign_live result op span b)
unfolding assign_live
assign_live-Goes result op span b there inside h =
    if_live (assign_result result op span b) (Goes-refl b h)
      (λ live. (assign_result-Calm result op span b there inside h).goes)
