-- ===== src/Builder/Ends.antt =====
-- compiler/cstc_lir_builder/src/builder.cpp: returns, and the end of a function.
use cicest.Prelude.{◌<◌, ◌≡◌, true, false, Option, none, some, length, get_elem?}
use cicest.Span.{SourceSpan}
use cicest.Ty.{Ty}
use cicest.Lir.{LirLocalId, LirOperand, LirLocalDecl}
use cicest.Builder.{FnBuilder}
use cicest.Builder.Steps.{operand_for_local, leave_function, to_slot, return_with, is_unit, fail}
use cicest.Builder.Fn.{close_fn}
use cicest.Builder.Bounds.{OperandIn, SlotIn, Fits, Goes}
use cicest.Builder.Computes.{Goes-refl}
use cicest.Builder.Runs.{local-found}
use cicest.Builder.Values.{if_live}
use cicest.Builder.Joins.{slot_return-Goes, plain_return-Goes}

slot_type :
    (slot : LirLocalId) (op : LirOperand) (span : SourceSpan) (b : FnBuilder)
    (found : Option LirLocalDecl)
    → (d : LirLocalDecl) × (found ≡ some d)
    → slot < length b.locals
    → OperandIn (length b.locals) op
    → b.block_terminated ≡ false
    → Fits b
    → Goes b (elim found [
      | some decl ↦
          leave_function (some (operand_for_local slot decl.type)) span (to_slot slot op span b)
      | none ↦ fail b
    ])
slot_type slot op span b none (d, hit) lt inside live h = cc
slot_type slot op span b (some decl) there lt inside live h =
    slot_return-Goes slot decl.type op span b lt inside live h

returned :
    (b : FnBuilder) (op : LirOperand) (t : Ty) (span : SourceSpan) (place : Option LirLocalId)
    → SlotIn (length b.locals) place
    → OperandIn (length b.locals) op
    → b.block_terminated ≡ false
    → Fits b
    → Goes b (elim place [
      | some slot ↦ elim (get_elem? b.locals slot) [
        | some decl ↦
            leave_function (some (operand_for_local slot decl.type)) span (to_slot slot op span b)
        | none ↦ fail b
      ]
      | none ↦ elim (is_unit t) [
        | true ↦ leave_function none span b
        | false ↦ leave_function (some op) span b
      ]
    ])
returned b op t span none there inside live h =
    plain_return-Goes (is_unit t) op span b inside live h
returned b op t span (some slot) there inside live h =
    slot_type slot op span b (get_elem? b.locals slot) (local-found b slot there) there inside live
      h

pub return_with-Goes :
    (b : FnBuilder) (op : LirOperand) (t : Ty) (span : SourceSpan)
    → OperandIn (length b.locals) op
    → b.block_terminated ≡ false
    → Fits b
    → Goes b (return_with b op t span)
unfolding return_with
return_with-Goes b op t span inside live h =
    returned b op t span b.return_slot h.sound.slot_in inside live h

ended :
    (b : FnBuilder) (op : LirOperand) (t : Ty) (span : SourceSpan) (place : Option LirLocalId)
    → SlotIn (length b.locals) place
    → OperandIn (length b.locals) op
    → b.block_terminated ≡ false
    → Fits b
    → Goes b (elim place [
      | some slot ↦ leave_function (some (operand_for_local slot t)) span (to_slot slot op span b)
      | none ↦ elim (is_unit t) [
        | true ↦ leave_function none span b
        | false ↦ leave_function (some op) span b
      ]
    ])
ended b op t span none there inside live h = plain_return-Goes (is_unit t) op span b inside live h
ended b op t span (some slot) there inside live h =
    slot_return-Goes slot t op span b there inside live h

pub close_fn-Goes :
    (b : FnBuilder) (op : LirOperand) (t : Ty) (span : SourceSpan)
    → OperandIn (length b.locals) op
    → Fits b
    → Goes b (close_fn b op t span)
unfolding close_fn
close_fn-Goes b op t span inside h =
    if_live
      (elim b.return_slot as (λ _. FnBuilder) [
        | some slot ↦ leave_function (some (operand_for_local slot t)) span (to_slot slot op span b)
        | none ↦ elim (is_unit t) [
          | true ↦ leave_function none span b
          | false ↦ leave_function (some op) span b
        ]
      ])
      (Goes-refl b h) (λ live. ended b op t span b.return_slot h.sound.slot_in inside live h)
