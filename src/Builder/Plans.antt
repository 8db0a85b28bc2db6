-- ===== src/Builder/Plans.antt =====
-- compiler/cstc_lir_builder/src/builder.cpp: the blocks that an if, a loop or a `for` allocates are there, and the
-- ends of blocks, loops and returns.
use cicest.Prelude.{
  ℕ, ◌≤◌, ◌<◌, ◌≡◌, refl, ◌∙◌, ◌⊎◌, inl, inr, Bool, true, false, ◌==◌, if◌then◌else◌, Option, none,
  some, length, arith,
}
use cicest.Span.{SourceSpan}
use cicest.Ty.{Ty}
use cicest.Lir.{LirLocalId, LirBlockId, LirOperand, LirTerminatorNode, invalid_local}
use cicest.Builder.{
  FnBuilder, next_block, invalid_block, alloc_block, set_current_block, seal_block, push_loop,
}
use cicest.Builder.Steps.{result_local, alloc_result, alloc_else}
use cicest.Builder.Openings.{IfPlan, open_if, LoopPlan, break_local, open_loop}
use cicest.Builder.Bounds.{OperandIn, SlotIn, Fits, Goes, Calm}
use cicest.Builder.Grow.{OperandIn-grow, SlotIn-grow}
use cicest.Builder.Keeps.{push_loop-Fits}
use cicest.Builder.Computes.{Goes-trans, Calm-trans}
use cicest.Builder.Stacks.{Entered}
use cicest.Builder.Values.{alloc_result-Calm}
use cicest.Builder.Joins.{alloc_block-Calm, IdIf, alloc_else-Calm, switch_to}

-- Control goes on at `b'`, behind `b`.
pub record Opens (b b' : FnBuilder) : Type 0 where
  pub goes : Goes b b'
  pub live : b'.block_terminated ≡ false

pub record IfPlanIn (has_else : Bool) (b : FnBuilder) (plan : IfPlan) : Type 0 where
  pub else_in : IdIf has_else (length b.blocks) plan.else_id
  pub merge_in : plan.merge_id < length b.blocks
  pub result_in : SlotIn (length b.locals) plan.result

pub IdIf-grow : (c : Bool) {n m : ℕ} (id : LirBlockId) → n ≤ m → IdIf c n id → IdIf c m id
IdIf-grow true id le h = omega arith
IdIf-grow false id le h = tt

else_target :
    (has_else : Bool) (n else_id merge : LirBlockId)
    → IdIf has_else n else_id
    → merge < n
    → (if (if has_else then else_id else invalid_block) == invalid_block
        then merge
        else (if has_else then else_id else invalid_block))
      < n
else_target true n else_id merge there lt = ground arith
else_target false n else_id merge there lt = lt

else_plan :
    (has_else : Bool) (n id : LirBlockId)
    → IdIf has_else n id
    → IdIf has_else n (if has_else then id else invalid_block)
else_plan true n id h = h
else_plan false n id h = tt

pub open_if-Opens :
    (b : FnBuilder) (cond : LirOperand) (has_else : Bool) (t : Ty) (span : SourceSpan)
    → b.block_terminated ≡ false
    → OperandIn (length b.locals) cond
    → Fits b
    → let (plan, b') = open_if b cond has_else t span in Opens b b' × IfPlanIn has_else b' plan
unfolding open_if
open_if-Opens b cond has_else t span live inside h =
    let b1 = alloc_result b t in
    let (c1, result_in) = alloc_result-Calm b t h in
    let b2 = alloc_block b1 in
    let (c2, then_lt) = alloc_block-Calm b1 c1.goes.fits in
    let b3 = alloc_else has_else b2 in
    let (c3, else_in) = alloc_else-Calm has_else b2 c2.goes.fits in
    let b4 = alloc_block b3 in
    let (c4, merge_lt) = alloc_block-Calm b3 c3.goes.fits in
    let up : Calm b b4 = Calm-trans c1 (Calm-trans c2 (Calm-trans c3 c4)) in
    let later : Calm b1 b4 = Calm-trans c2 (Calm-trans c3 c4) in
    let from_else : length b3.blocks ≤ length b4.blocks = c4.goes.grows.blocks_grow in
    let from_then : length b2.blocks ≤ length b4.blocks =
      (Calm-trans c3 c4).goes.grows.blocks_grow in
    let there : IdIf has_else (length b4.blocks) (next_block b2) =
      IdIf-grow has_else (next_block b2) from_else else_in in
    let then_in : next_block b1 < length b4.blocks = omega (arith, from_then, then_lt) in
    let node : LirTerminatorNode = LirTerminatorNode.switch_bool cond (next_block b1) (
      if (if has_else then next_block b2 else invalid_block) == invalid_block
      then next_block b3
      else (if has_else then next_block b2 else invalid_block)) in
    let (goes, on) =
      switch_to node span (next_block b1) b4 (up.same_end ∙ live)
        (
          OperandIn-grow up.goes.grows.locals_grow cond inside,
          then_in,
          else_target has_else (length b4.blocks) (next_block b2) (next_block b3) there merge_lt,
        )
        then_in up.goes.fits in
    let le = goes.grows.blocks_grow in
    (
      record { goes = Goes-trans up.goes goes; live = on },
      record {
        else_in =
            IdIf-grow has_else (if has_else then next_block b2 else invalid_block) le
              (else_plan has_else (length b4.blocks) (next_block b2) there);
        merge_in = omega (arith, le, merge_lt);
        result_in =
            SlotIn-grow (Goes-trans later.goes goes).grows.locals_grow (result_local b t) result_in;
      },
    )

pub push_loop-Entered :
    {a : FnBuilder} (cont brk : LirBlockId) (value : Option LirLocalId) (b : FnBuilder)
    → cont < length b.blocks
    → brk < length b.blocks
    → SlotIn (length b.locals) value
    → Opens a b
    → Entered a (push_loop cont brk (break_local value) b)
unfolding push_loop
push_loop-Entered cont brk value b cont_in brk_in value_in o = record {
  fits =
      push_loop-Fits cont brk (break_local value) b
        (cont_in, brk_in, break_in value value_in, omega arith) o.goes.fits;
  locals_grow = o.goes.grows.locals_grow;
  locals_kept = o.goes.grows.locals_kept;
  blocks_grow = o.goes.grows.blocks_grow;
  same_slot = o.goes.grows.same_slot;
  same_scope = o.goes.same_scope;
  outer = o.goes.grows.same_loops;
  nonempty = refl;
  live = o.live;
}
  where
    break_in :
        {n : ℕ}
        → (value : Option LirLocalId) → SlotIn n value
        → (break_local value ≡ invalid_local) ⊎ (break_local value < n)
    break_in none h = inl refl
    break_in (some id) h = inr h

pub record LoopPlanIn (b : FnBuilder) (plan : LoopPlan) : Type 0 where
  pub header_in : plan.header_id < length b.blocks
  pub after_in : plan.after_id < length b.blocks
  pub result_in : SlotIn (length b.locals) plan.result

push_loop-LoopPlanIn :
    (cont brk : LirBlockId) (value : LirLocalId) (b : FnBuilder) (plan : LoopPlan)
    → LoopPlanIn b plan
    → LoopPlanIn (push_loop cont brk value b) plan
unfolding push_loop
push_loop-LoopPlanIn cont brk value b plan h = record {
  header_in = h.header_in;
  after_in = h.after_in;
  result_in = h.result_in;
}

pub open_loop-Entered :
    (b : FnBuilder) (t : Ty) (span : SourceSpan)
    → b.block_terminated ≡ false
    → Fits b
    → let (plan, b') = open_loop b t span in Entered b b' × LoopPlanIn b' plan
unfolding open_loop
open_loop-Entered b t span live h =
    let b1 = alloc_result b t in
    let (c1, result_in) = alloc_result-Calm b t h in
    let b2 = alloc_block b1 in
    let (c2, header_lt) = alloc_block-Calm b1 c1.goes.fits in
    let b3 = alloc_block b2 in
    let (c3, after_lt) = alloc_block-Calm b2 c2.goes.fits in
    let up : Calm b b3 = Calm-trans c1 (Calm-trans c2 c3) in
    let from_header : length b2.blocks ≤ length b3.blocks = c3.goes.grows.blocks_grow in
    let header_in : next_block b1 < length b3.blocks = omega (arith, from_header, header_lt) in
    let b4 =
      set_current_block (next_block b1)
        (seal_block (LirTerminatorNode.jump (next_block b1)) span b3) in
    let (goes, on) =
      switch_to (LirTerminatorNode.jump (next_block b1)) span (next_block b1) b3
        (up.same_end ∙ live) header_in header_in up.goes.fits in
    let le : length b3.blocks ≤ length b4.blocks = goes.grows.blocks_grow in
    let plan_in : LoopPlanIn b4 (record {
      header_id = next_block b1;
      after_id = next_block b2;
      result = result_local b t;
    }) =
      record {
        header_in = omega (arith, le, header_in);
        after_in = omega (arith, le, after_lt);
        result_in =
            SlotIn-grow (Goes-trans (Calm-trans c2 c3).goes goes).grows.locals_grow
              (result_local b t) result_in;
      } in
    (
      push_loop-Entered (next_block b1) (next_block b2) (result_local b t) b4 plan_in.header_in
          plan_in.after_in plan_in.result_in (record { goes = Goes-trans up.goes goes; live = on }),
      push_loop-LoopPlanIn (next_block b1) (next_block b2) (break_local (result_local b t)) b4 _
          plan_in,
    )
