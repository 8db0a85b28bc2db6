-- ===== src/Builder/Fors.antt =====
-- compiler/cstc_lir_builder/src/builder.cpp: the blocks of a `while` or a `for`, and the ends of loops and blocks.
use cicest.Prelude.{
  ℕ, ◌≤◌, ◌<◌, ◌≡◌, ◌∙◌, Bool, true, false, if◌then◌else◌, Option, none, length, arith,
}
use cicest.Span.{SourceSpan}
use cicest.Ty.{Ty}
use cicest.Lir.{LirLocalId, LirBlockId, LirOperand, LirTerminatorNode, invalid_local}
use cicest.Builder.{
  FnBuilder, next_block, alloc_block, set_current_block, seal_block, has_predecessor, push_loop,
  pop_loop, pop_scope, emit_current_scope_drops,
}
use cicest.Builder.Steps.{unit_operand, result_operand, alloc_else, close_block, block_value}
use cicest.Builder.Openings.{ForPlan, open_for, enter_body, enter_always, end_body, close_for}
use cicest.Builder.Bounds.{OperandIn, NodeIn, SlotIn, Fits, Goes, Calm, Lowers}
use cicest.Builder.Computes.{Goes-trans, Calm-trans}
use cicest.Builder.Runs.{emit_current_scope_drops-Calm}
use cicest.Builder.Stacks.{Inside, Inside-after, pop_scope-Goes, Entered, pop_loop-Goes}
use cicest.Builder.Values.{unit-Lowers, result_operand-in}
use cicest.Builder.Joins.{
  alloc_block-Calm, IdIf, alloc_else-Calm, set_current_block-Goes, switch_to, jump_on-Goes,
}
use cicest.Builder.Plans.{Opens, IdIf-grow, push_loop-Entered}

pub record ForPlanIn (n : ℕ) (plan : ForPlan) : Type 0 where
  pub cond_in : plan.cond_id < n
  pub body_in : plan.body_id < n
  pub step_in : plan.step_id < n
  pub after_in : plan.after_id < n

pub ForPlanIn-grow : {n m : ℕ} {plan : ForPlan} → n ≤ m → ForPlanIn n plan → ForPlanIn m plan
ForPlanIn-grow le h = record {
  cond_in = let lt = h.cond_in in omega (arith, le, lt);
  body_in = let lt = h.body_in in omega (arith, le, lt);
  step_in = let lt = h.step_in in omega (arith, le, lt);
  after_in = let lt = h.after_in in omega (arith, le, lt);
}

pub step_target :
    (has_step : Bool) (n step cond : LirBlockId)
    → IdIf has_step n step
    → cond < n
    → (if has_step then step else cond) < n
step_target true n step cond there lt = there
step_target false n step cond there lt = lt

pub open_for-Opens :
    (b : FnBuilder) (has_step : Bool) (span : SourceSpan)
    → b.block_terminated ≡ false
    → Fits b
    → let (plan, b') = open_for b has_step span in Opens b b' × ForPlanIn (length b'.blocks) plan
unfolding open_for
open_for-Opens b has_step span live h =
    let b1 = alloc_block b in
    let (c1, cond_lt) = alloc_block-Calm b h in
    let b2 = alloc_block b1 in
    let (c2, body_lt) = alloc_block-Calm b1 c1.goes.fits in
    let b3 = alloc_else has_step b2 in
    let (c3, step_in) = alloc_else-Calm has_step b2 c2.goes.fits in
    let b4 = alloc_block b3 in
    let (c4, after_lt) = alloc_block-Calm b3 c3.goes.fits in
    let up : Calm b b4 = Calm-trans c1 (Calm-trans c2 (Calm-trans c3 c4)) in
    let from_step : length b3.blocks ≤ length b4.blocks = c4.goes.grows.blocks_grow in
    let from_body : length b2.blocks ≤ length b4.blocks =
      (Calm-trans c3 c4).goes.grows.blocks_grow in
    let from_cond : length b1.blocks ≤ length b4.blocks =
      (Calm-trans c2 (Calm-trans c3 c4)).goes.grows.blocks_grow in
    let cond_in : next_block b < length b4.blocks = omega (arith, from_cond, cond_lt) in
    let plan_in : ForPlanIn (length b4.blocks) (record {
      cond_id = next_block b;
      body_id = next_block b1;
      step_id = if has_step then next_block b2 else next_block b;
      after_id = next_block b3;
    }) =
      record {
        cond_in = cond_in;
        body_in = omega (arith, from_body, body_lt);
        step_in =
            step_target has_step (length b4.blocks) (next_block b2) (next_block b)
              (IdIf-grow has_step (next_block b2) from_step step_in) cond_in;
        after_in = after_lt;
      } in
    let (goes, on) =
      switch_to (LirTerminatorNode.jump (next_block b)) span (next_block b) b4 (up.same_end ∙ live)
        cond_in cond_in up.goes.fits in
    (
      record { goes = Goes-trans up.goes goes; live = on },
      ForPlanIn-grow goes.grows.blocks_grow plan_in,
    )

pub entered :
    (plan : ForPlan) (node : LirTerminatorNode) (span : SourceSpan) (b : FnBuilder)
    → b.block_terminated ≡ false
    → NodeIn (length b.locals) (length b.blocks) node
    → ForPlanIn (length b.blocks) plan
    → Fits b
    → Entered b (
        push_loop plan.step_id plan.after_id invalid_local
          (set_current_block plan.body_id (seal_block node span b)))
entered plan node span b live inside p h =
    let (goes, on) = switch_to node span plan.body_id b live inside p.body_in h in
    let up = ForPlanIn-grow goes.grows.blocks_grow p in
    push_loop-Entered plan.step_id plan.after_id none
      (set_current_block plan.body_id (seal_block node span b)) up.step_in up.after_in tt
      (record { goes = goes; live = on })

pub enter_body-Entered :
    (plan : ForPlan) (cond : LirOperand) (span : SourceSpan) (b : FnBuilder)
    → b.block_terminated ≡ false
    → OperandIn (length b.locals) cond
    → ForPlanIn (length b.blocks) plan
    → Fits b
    → Entered b (enter_body plan cond span b)
unfolding enter_body
enter_body-Entered plan cond span b live inside p h =
    entered plan (LirTerminatorNode.switch_bool cond plan.body_id plan.after_id) span b live
      (inside, p.body_in, p.after_in) p h

pub enter_always-Entered :
    (plan : ForPlan) (span : SourceSpan) (b : FnBuilder)
    → b.block_terminated ≡ false
    → ForPlanIn (length b.blocks) plan
    → Fits b
    → Entered b (enter_always plan span b)
unfolding enter_always
enter_always-Entered plan span b live p h =
    entered plan (LirTerminatorNode.jump plan.body_id) span b live p.body_in p h

-- Out of the loop that was entered at `a`, with all that was allocated in it.
pub end_body-Goes :
    {a b : FnBuilder} (target : LirBlockId) (span : SourceSpan) (c : FnBuilder)
    → target < length b.blocks
    → Entered a b
    → Goes b c
    → Goes a (end_body target span c)
      × (length b.locals ≤ length (end_body target span c).locals)
      × (length b.blocks ≤ length (end_body target span c).blocks)
unfolding end_body pop_loop
end_body-Goes target span c lt e g =
    let out = pop_loop-Goes e g in
    let more_locals = g.grows.locals_grow in
    let more_blocks = g.grows.blocks_grow in
    let jump = jump_on-Goes target span (pop_loop c) (omega (arith, more_blocks, lt)) out.fits in
    let then_locals = jump.grows.locals_grow in
    let then_blocks = jump.grows.blocks_grow in
    (
      Goes-trans out jump,
      omega (arith, more_locals, then_locals),
      omega (arith, more_blocks, then_blocks),
    )

pub drops-Inside :
    {a : FnBuilder} (span : SourceSpan) (b : FnBuilder)
    → Inside a b
    → Inside a (emit_current_scope_drops span b)
drops-Inside span b i = Inside-after i (emit_current_scope_drops-Calm span b i.nonempty i.fits).goes

pub closed_for :
    {a : FnBuilder} (after : LirBlockId) (span : SourceSpan) (b : FnBuilder) (reached : Bool)
    → after < length b.blocks
    → Fits a
    → Inside a b
    → Goes a (elim reached [
      | true ↦ pop_scope (emit_current_scope_drops span (set_current_block after b))
      | false ↦ pop_scope b
    ])
closed_for after span b true lt h i = pop_scope-Goes h (
    drops-Inside span (set_current_block after b)
      (Inside-after i (set_current_block-Goes after b lt i.fits).0))
closed_for after span b false lt h i = pop_scope-Goes h i

pub close_for-Goes :
    {a : FnBuilder} (after : LirBlockId) (span : SourceSpan) (b : FnBuilder)
    → after < length b.blocks
    → Fits a
    → Inside a b
    → Goes a (close_for after span b)
unfolding close_for
close_for-Goes after span b lt h i = closed_for after span b (has_predecessor b after) lt h i

pub closed_block :
    {a : FnBuilder} (span : SourceSpan) (b : FnBuilder) (ended : Bool)
    → Fits a
    → Inside a b
    → Goes a
        (elim ended [ true ↦ pop_scope b | false ↦ pop_scope (emit_current_scope_drops span b) ])
closed_block span b true h i = pop_scope-Goes h i
closed_block span b false h i = pop_scope-Goes h (drops-Inside span b i)

pub close_block-Goes :
    {a : FnBuilder} (span : SourceSpan) (b : FnBuilder)
    → Fits a
    → Inside a b
    → Goes a (close_block span b)
unfolding close_block
close_block-Goes span b h i = closed_block span b b.block_terminated h i

pub value-Lowers :
    {a : FnBuilder} (result : Option LirLocalId) (t : Ty) (b : FnBuilder) (ended : Bool)
    → SlotIn (length b.locals) result
    → Goes a b
    → Lowers a (elim ended [ true ↦ (unit_operand, b) | false ↦ (result_operand result t, b) ])
value-Lowers result t b true there g = unit-Lowers g
value-Lowers result t b false there g = record {
  goes = g;
  value_in = result_operand-in (length b.locals) result t there;
}

pub block_value-Lowers :
    {a : FnBuilder} (result : Option LirLocalId) (t : Ty) (b : FnBuilder)
    → SlotIn (length b.locals) result
    → Goes a b
    → Lowers a (block_value result t b)
unfolding block_value
block_value-Lowers result t b there g = value-Lowers result t b b.block_terminated there g
