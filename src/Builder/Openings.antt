-- ===== src/Builder/Openings.antt =====
-- compiler/cstc_lir_builder/src/builder.cpp: the blocks that an if, a loop or a `for` starts with, and their ends.
use cicest.Prelude.{Bool, true, false, Option, none, some, ◌==◌, if◌then◌else◌}
use cicest.Span.{SourceSpan}
use cicest.Ty.{Ty}
use cicest.Ty.Factory
use cicest.Tyir.{OptTyExpr, absent, present, expr_ty}
use cicest.Lir.{LirLocalId, LirBlockId, LirOperand, LirTerminatorNode, invalid_local}
use cicest.Builder.{
  FnBuilder, next_block, invalid_block, alloc_block, set_current_block, has_predecessor, seal_block,
  pop_scope, push_loop, pop_loop, emit_current_scope_drops,
}
use cicest.Builder.Steps.{result_local, alloc_result, jump_on, alloc_else}

abbrev pub opt_is_some : OptTyExpr → Bool
opt_is_some absent = false
opt_is_some (present e) = true

-- A block without a tail has the unit type in its place, which has no result local.
abbrev pub tail_type : OptTyExpr → Ty
tail_type absent = Factory.unit false
tail_type (present e) = expr_ty e

-- `then`, `else` and merge blocks of an if, and its result local.
pub record IfPlan : Type 0 where
  pub then_id : LirBlockId
  pub else_id : LirBlockId
  pub merge_id : LirBlockId
  pub result : Option LirLocalId

-- The allocations of an if, its switch, and the start of its `then` block.
unfoldable pub open_if : FnBuilder → LirOperand → Bool → Ty → SourceSpan → IfPlan × FnBuilder
unfolding alloc_result alloc_block alloc_else seal_block set_current_block
open_if b cond has_else t span =
    let b1 = alloc_result b t in
    let then_id = next_block b1 in
    let b2 = alloc_block b1 in
    let else_id = if has_else then next_block b2 else invalid_block in
    let b3 = alloc_else has_else b2 in
    let merge_id = next_block b3 in
    let b4 = alloc_block b3 in
    let actual_else = if else_id == invalid_block then merge_id else else_id in
    (
      record {
        then_id = then_id;
        else_id = else_id;
        merge_id = merge_id;
        result = result_local b t;
      },
      set_current_block then_id
          (seal_block (LirTerminatorNode.switch_bool cond then_id actual_else) span b4),
    )

pub record LoopPlan : Type 0 where
  pub header_id : LirBlockId
  pub after_id : LirBlockId
  pub result : Option LirLocalId

abbrev pub break_local : Option LirLocalId → LirLocalId
break_local (some id) = id
break_local none = invalid_local

unfoldable pub open_loop : FnBuilder → Ty → SourceSpan → LoopPlan × FnBuilder
unfolding alloc_result alloc_block seal_block set_current_block push_loop
open_loop b t span =
    let b1 = alloc_result b t in
    let header = next_block b1 in
    let b2 = alloc_block b1 in
    let after = next_block b2 in
    let b3 = alloc_block b2 in
    (
      record { header_id = header; after_id = after; result = result_local b t },
      push_loop header after (break_local (result_local b t))
          (set_current_block header (seal_block (LirTerminatorNode.jump header) span b3)),
    )

-- The blocks of a `while` or a `for`; `step_id` is `cond_id` where there is no step.
pub record ForPlan : Type 0 where
  pub cond_id : LirBlockId
  pub body_id : LirBlockId
  pub step_id : LirBlockId
  pub after_id : LirBlockId

unfoldable pub open_for : FnBuilder → Bool → SourceSpan → ForPlan × FnBuilder
unfolding alloc_block alloc_else seal_block set_current_block
open_for b has_step span =
    let cond = next_block b in
    let b1 = alloc_block b in
    let body = next_block b1 in
    let b2 = alloc_block b1 in
    let step = if has_step then next_block b2 else cond in
    let b3 = alloc_else has_step b2 in
    let after = next_block b3 in
    let b4 = alloc_block b3 in
    (
      record { cond_id = cond; body_id = body; step_id = step; after_id = after },
      set_current_block cond (seal_block (LirTerminatorNode.jump cond) span b4),
    )

-- Behind the condition: the switch, and the start of the body in the loop.
unfoldable pub enter_body : ForPlan → LirOperand → SourceSpan → FnBuilder → FnBuilder
unfolding seal_block set_current_block push_loop
enter_body plan cond span b = push_loop plan.step_id plan.after_id invalid_local (
    set_current_block plan.body_id
      (seal_block (LirTerminatorNode.switch_bool cond plan.body_id plan.after_id) span b))

unfoldable pub enter_always : ForPlan → SourceSpan → FnBuilder → FnBuilder
unfolding seal_block set_current_block push_loop
enter_always plan span b =
    push_loop plan.step_id plan.after_id invalid_local
      (set_current_block plan.body_id (seal_block (LirTerminatorNode.jump plan.body_id) span b))

-- The end of the body, back to where `continue` leads.
unfoldable pub end_body : LirBlockId → SourceSpan → FnBuilder → FnBuilder
unfolding pop_loop jump_on
end_body target span b = jump_on target span (pop_loop b)

-- The block after a `for`, which drops the locals of its init clause.
unfoldable pub close_for : LirBlockId → SourceSpan → FnBuilder → FnBuilder
unfolding set_current_block emit_current_scope_drops pop_scope
close_for after span b = elim (has_predecessor b after) [
  | true ↦ pop_scope (emit_current_scope_drops span (set_current_block after b))
  | false ↦ pop_scope b
]
