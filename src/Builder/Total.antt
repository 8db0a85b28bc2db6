-- ===== src/Builder/Total.antt =====
-- compiler/cstc_lir_builder/src/builder.cpp: `lower_expr` and `lower_block` on code whose names are in scope.
use cicest.Prelude.{
  refl, ap, not, ◌≡◌, ◌∙◌, Bool, true, false, List, Option, none, length, arith, inr, ◌==◌,
}
use cicest.Span.{SourceSpan}
use cicest.Symbol.{Symbol}
use cicest.Ty.{Ty}
use cicest.Tyir.{
  TyExpr, ty_expr, TyNode, TyExprs, OptTyExpr, TyStructInitFields, OptTyForInit, TyStmt, TyStmts,
  TyBlock, absent, present, no_fields, fields, no_init, for_init, let_stmt, expr_stmt, no_stmts,
  stmts, block, expr_ty, expr_span,
}
use cicest.Tyir
use cicest.Lir.{LirLocalId, LirRvalue, invalid_local}
use cicest.Builder.Pushes.{pushes_loop, opt_pushes}
use cicest.Builder.Runs.{assert-Calm}
use cicest.Builder.{FnBuilder, LoopContext, assert, set_current_block, push_scope}
use cicest.Builder.Steps.{
  result_local, alloc_result, lower_borrow_place, end_branch, leave_to, to_slot, close_block,
}
use cicest.Builder.Openings.{
  opt_is_some, tail_type, IfPlan, open_if, open_loop, ForPlan, open_for, enter_body, end_body,
}
use cicest.Builder.Lower.{
  lower_expr, lower_node, lower_args, lower_fields, lower_else, lower_init, lower_condition,
  lower_step, lower_break, lower_return, lower_stmt, lower_stmts, lower_tail, lower_block,
}
use cicest.Builder.Bounds.{LoopIn, SlotIn, Goes, Lowers}
use cicest.Builder.Grow.{OperandIn-grow, SlotIn-grow}
use cicest.Builder.Computes.{Goes-refl, Goes-trans, Lowers-after, compute-Lowers}
use cicest.Builder.Stacks.{Inside, Inside-after, push_scope-Inside, pop_scope-Goes}
use cicest.Builder.Frames.{Covers-Found, InLoop, Ready, Ready-after, Ready-Entered}
use cicest.Builder.Values.{
  unit-Lowers, lower_local-Lowers, finish_runtime-Lowers, alloc_result-Calm, if_live,
  if_live-Lowers, assign_live-Goes,
}
use cicest.Builder.Joins.{
  set_current_block-Goes, jump_on-Goes, end_branch-Goes, continue_at-Lowers, leave_to-Goes,
  leave_function-Goes, to_slot-Calm,
}
use cicest.Builder.Plans.{IfPlanIn, open_if-Opens, open_loop-Entered}
use cicest.Builder.Fors.{
  ForPlanIn, ForPlanIn-grow, open_for-Opens, enter_body-Entered, enter_always-Entered,
  end_body-Goes, close_for-Goes, close_block-Goes, block_value-Lowers,
}
use cicest.Builder.Ends.{return_with-Goes}
use cicest.Builder.Scoped.{
  after_init, after_stmt, after_stmts, Scoped, NodeScoped, ArgsScoped, OptScoped, FieldsScoped,
  InitScoped, StmtScoped, StmtsScoped, BlockScoped,
}
use cicest.Builder.Places.{lower_borrow_place-in}
use cicest.Builder.Places.{
  by_end, borrowed, accessed, borrow_value-Lowers, read_value-Lowers, in_loop-Lowers,
}
use cicest.Builder.Branches.{
  Ran, Ready-Ran, bound_local-Ran, Ran-or, Entering, Entered-after, Entering-entered, Entering-or,
}
use cicest.Builder.Parts.{
  ArgsRun, FieldsRun, Ready-push, args_step, break_or, built-Lowers, called-Lowers, fields_step,
  loops_there, value_local,
}

mutual
  unfolding lower_expr Scoped pushes_loop

  pub lower_expr-Lowers :
      (names : List Symbol) (lp : Bool) (e : TyExpr) (b : FnBuilder)
      → Scoped names lp e
      → Ready names lp b
      → Lowers b (lower_expr b e)
  lower_expr-Lowers names lp (ty_expr node t span a) b h r =
      lower_node-Lowers names lp node t span b h r

  lower_node-Lowers :
      (names : List Symbol) (lp : Bool) (node : TyNode) (t : Ty) (span : SourceSpan) (b : FnBuilder)
      → NodeScoped names lp node
      → Ready names lp b
      → Lowers b (lower_node b node t span)
  lower_node-Lowers names lp (TyNode.literal c) t span b h r = record {
    goes = Goes-refl b r.fits;
    value_in = tt;
  }
  lower_node-Lowers names lp (TyNode.local_ref name use_kind) t span b h r =
      lower_local-Lowers b name use_kind (Covers-Found names name b.scope h r.covers) r.fits
  lower_node-Lowers names lp (TyNode.enum_variant_ref e v) t span b h r =
      compute-Lowers b t (LirRvalue.enum_variant_ref e v) span tt r.fits
  lower_node-Lowers names lp (TyNode.struct_init name gs fs) t span b h r =
      built-Lowers (lower_fields b fs).1 name (lower_fields b fs).0 t span
        (lower_fields-Goes names lp fs b h r)
  lower_node-Lowers names lp (TyNode.ty_borrow rhs) t span b h r =
      let x = lower_expr-Lowers names lp rhs b h r in
      borrowed b (lower_borrow_place b rhs) _ t span (lower_borrow_place-in names lp rhs b h r)
        r.fits
        (if_live-Lowers _ x.goes (λ live. Lowers-after x.goes (
          borrow_value-Lowers (lower_expr b rhs).1 (lower_expr b rhs).0 (expr_ty rhs) t span
            x.value_in x.goes.fits)))
  lower_node-Lowers names lp (TyNode.ty_unary op rhs) t span b h r =
      let x = lower_expr-Lowers names lp rhs b h r in
      if_live-Lowers _ x.goes (λ live. Lowers-after x.goes (
        compute-Lowers (lower_expr b rhs).1 t (LirRvalue.unary_op op (lower_expr b rhs).0) span
          x.value_in x.goes.fits))
  lower_node-Lowers names lp (TyNode.ty_binary op lhs rhs) t span b h r =
      let x = lower_expr-Lowers names lp lhs b h.0 r in
      let b1 = (lower_expr b lhs).1 in
      if_live-Lowers _ x.goes (λ live.
        let y = lower_expr-Lowers names lp rhs b1 h.1 (Ready-after r x.goes live) in
        let (right, b2) = lower_expr b1 rhs in
        if_live-Lowers _ (Goes-trans x.goes y.goes) (λ live2.
          Lowers-after (Goes-trans x.goes y.goes) (
            compute-Lowers b2 t (LirRvalue.binary_op op (lower_expr b lhs).0 right) span
              (OperandIn-grow y.goes.grows.locals_grow (lower_expr b lhs).0 x.value_in, y.value_in)
              y.goes.fits)))
  lower_node-Lowers names lp (TyNode.field_access base field use_kind) t span b h r =
      let x = lower_expr-Lowers names lp base b h.0 r in
      accessed b (lower_borrow_place b base) _ field use_kind t span h.1
        (lower_borrow_place-in names lp base b h.0 r) r.fits
        (if_live-Lowers _ x.goes (λ live. Lowers-after x.goes (
          read_value-Lowers (lower_expr b base).1 (lower_expr b base).0 field use_kind
            (expr_ty base) t span h.1 x.value_in x.goes.fits)))
  lower_node-Lowers names lp (TyNode.ty_call name gs args residue) t span b h r =
      called-Lowers (lower_args b args).1 name (lower_args b args).0 t span
        (lower_args-Goes names lp args b h r)
  lower_node-Lowers names lp (TyNode.deferred_generic_call name gs args) t span b h r = cc
  lower_node-Lowers names lp (TyNode.decl_probe e invalid reason) t span b h r = cc
  lower_node-Lowers names lp (TyNode.runtime_block body) t span b h r =
      let x = lower_block-Lowers names lp body b h r in
      if_live-Lowers _ x.goes (λ live. Lowers-after x.goes (
        finish_runtime-Lowers (lower_block b body).1 (lower_block b body).0 t span x.value_in
          x.goes.fits))
  lower_node-Lowers names lp (TyNode.ty_block body) t span b h r =
      lower_block-Lowers names lp body b h r
  lower_node-Lowers names lp (TyNode.ty_if condition then_block else_branch) t span b h r =
      let x = lower_expr-Lowers names lp condition b h.0 r in
      let (cond, b1) = lower_expr b condition in
      if_live-Lowers _ x.goes (λ live.
        let has_else = opt_is_some else_branch in
        let (opens, p) = open_if-Opens b1 cond has_else t span live x.value_in x.goes.fits in
        let (plan, b2) = open_if b1 cond has_else t span in
        let r2 = Ready-after r (Goes-trans x.goes opens.goes) opens.live in
        let y = lower_block-Lowers names lp then_block b2 h.1 r2 in
        let (value, b3) = lower_block b2 then_block in
        let merge_in = p.merge_in in
        let more = y.goes.grows.blocks_grow in
        let branch = Goes-trans y.goes (
          end_branch-Goes plan.result plan.merge_id value span b3
            (SlotIn-grow y.goes.grows.locals_grow plan.result p.result_in)
            (omega (arith, more, merge_in)) y.value_in y.goes.fits) in
        let both =
          lower_else-Goes names lp else_branch plan span b2
            (end_branch plan.result plan.merge_id value span b3) h.2 r2 branch p in
        let up = both.grows.blocks_grow in
        Lowers-after (Goes-trans x.goes (Goes-trans opens.goes both)) (
          continue_at-Lowers plan.merge_id plan.result t
            (lower_else (end_branch plan.result plan.merge_id value span b3) else_branch plan span)
            (omega (arith, up, merge_in))
            (SlotIn-grow both.grows.locals_grow plan.result p.result_in) both.fits))
  lower_node-Lowers names lp (TyNode.ty_loop body) t span b h r =
      let (e, p) = open_loop-Entered b t span r.live r.fits in
      let (plan, b1) = open_loop b t span in
      let x = lower_block-Lowers names true body b1 h (Ready-Entered r e) in
      let c = (lower_block b1 body).1 in
      let (out, more_locals, more_blocks) =
        end_body-Goes plan.header_id span c p.header_in e x.goes in
      let after_in = p.after_in in
      Lowers-after out (
        continue_at-Lowers plan.after_id plan.result t (end_body plan.header_id span c)
          (omega (arith, more_blocks, after_in)) (SlotIn-grow more_locals plan.result p.result_in)
          out.fits)
  lower_node-Lowers names lp (TyNode.ty_while condition body) t span b h r =
      let (opens, p) = open_for-Opens b false span r.live r.fits in
      let (plan, b1) = open_for b false span in
      let r1 = Ready-after r opens.goes opens.live in
      let x = lower_expr-Lowers names lp condition b1 h.0 r1 in
      let (cond, b2) = lower_expr b1 condition in
      if_live-Lowers _ (Goes-trans opens.goes x.goes) (λ live.
        let p2 = ForPlanIn-grow x.goes.grows.blocks_grow p in
        let e = enter_body-Entered plan cond span b2 live x.value_in p2 x.goes.fits in
        let start = enter_body plan cond span b2 in
        let y =
          lower_block-Lowers names true body start h.1
            (Ready-Entered (Ready-after r1 x.goes live) e) in
        let p3 = ForPlanIn-grow e.blocks_grow p2 in
        let c = (lower_block start body).1 in
        let (out, more_locals, more_blocks) =
          end_body-Goes plan.cond_id span c p3.cond_in e y.goes in
        let after_in = p3.after_in in
        Lowers-after (Goes-trans opens.goes (Goes-trans x.goes out)) (
          continue_at-Lowers plan.after_id none t (end_body plan.cond_id span c)
            (omega (arith, more_blocks, after_in)) tt out.fits))
  lower_node-Lowers names lp (TyNode.ty_for init condition step body) t span b h r =
      let ran = lower_init-Ran names lp init b h.0 r in
      let inner = after_init init names in
      let b1 = lower_init (push_scope b) init in
      by_end b1.block_terminated _ _ (λ ended. unit-Lowers (pop_scope-Goes r.fits ran.inside))
        (λ live.
          let r1 : Ready inner lp b1 = Ready-Ran ran r.loops live in
          let has_step = opt_is_some step in
          let (opens, p) = open_for-Opens b1 has_step span live r1.fits in
          let (plan, b2) = open_for b1 has_step span in
          let r2 = Ready-after r1 opens.goes opens.live in
          let in2 = Inside-after ran.inside opens.goes in
          let cond = lower_condition-Entering inner lp condition plan span b2 h.1 r2 p in
          let b3 = lower_condition b2 condition plan span in
          by_end b3.block_terminated _ _
            (λ ended. unit-Lowers (pop_scope-Goes r.fits (Inside-after in2 (cond.ends ended))))
            (λ live3.
              let e = cond.enters live3 in
              let p3 = ForPlanIn-grow e.blocks_grow p in
              let y = lower_block-Lowers inner true body b3 h.3 (Ready-Entered r2 e) in
              let c = (lower_block b3 body).1 in
              let (out, more_locals, more_blocks) =
                end_body-Goes plan.step_id span c p3.step_in e y.goes in
              let b5 = end_body plan.step_id span c in
              let stepped = lower_step-Goes inner lp step plan span b2 b5 h.2 r2 out p in
              let b6 = lower_step b5 step plan span in
              let after_in = p.after_in in
              let more = stepped.grows.blocks_grow in
              unit-Lowers (
                close_for-Goes plan.after_id span b6 (omega (arith, more, after_in)) r.fits
                  (Inside-after in2 stepped))))
  lower_node-Lowers names lp (TyNode.ty_break value) t span b h r =
      in_loop-Lowers (LoopIn (length b.locals) (length b.blocks) (length b.scope)) b.loop_stack
        (λ ctx. lower_break b value ctx span) (loops_there lp b.loop_stack h.0 r.loops)
        r.fits.sound.loops_in
        (λ ctx inside. lower_break-Goes names lp value ctx span b h.1 h.2 inside r)
  lower_node-Lowers names lp TyNode.ty_continue t span b h r =
      in_loop-Lowers (LoopIn (length b.locals) (length b.blocks) (length b.scope)) b.loop_stack
        (λ ctx. leave_to ctx.continue_target ctx span b) (loops_there lp b.loop_stack h r.loops)
        r.fits.sound.loops_in
        (λ ctx inside. leave_to-Goes ctx.continue_target ctx span b inside.0 inside.3 r.live r.fits)
  lower_node-Lowers names lp (TyNode.ty_return value) t span b h r =
      unit-Lowers (lower_return-Goes names lp value span b h r)

  pub lower_block-Lowers :
      (names : List Symbol) (lp : Bool) (body : TyBlock) (b : FnBuilder)
      → BlockScoped names lp body
      → Ready names lp b
      → Lowers b (lower_block b body)
  lower_block-Lowers names lp (block ss tail t span a) b h r =
      let t' = tail_type tail in
      let (calm, there) = alloc_result-Calm b t' r.fits in
      let a' = alloc_result b t' in
      let r' : Ready names lp a' = Ready-after r calm.goes (calm.same_end ∙ r.live) in
      let start = push_scope-Inside a' calm.goes.fits in
      let ran = lower_stmts-Ran names lp ss a' (push_scope a') h.0 start r'.loops (Ready-push r') in
      let b1 = lower_stmts (push_scope a') ss in
      by_end b1.block_terminated _ _
        (λ ended. unit-Lowers (Goes-trans calm.goes (pop_scope-Goes calm.goes.fits ran.inside)))
        (λ live.
          let r1 = Ready-Ran ran r'.loops live in
          let slot = result_local b t' in
          let there1 = SlotIn-grow ran.inside.grows.locals_grow slot there in
          let tailed = lower_tail-Goes (after_stmts ss names) lp tail slot b1 h.1 there1 r1 in
          let b2 = lower_tail b1 tail slot in
          let closed = close_block-Goes span b2 calm.goes.fits (Inside-after ran.inside tailed) in
          block_value-Lowers slot t' (close_block span b2)
            (SlotIn-grow closed.grows.locals_grow slot there) (Goes-trans calm.goes closed))

  lower_args-Goes :
      (names : List Symbol) (lp : Bool) (es : TyExprs) (b : FnBuilder)
      → ArgsScoped names lp es
      → Ready names lp b
      → ArgsRun b (lower_args b es)
  lower_args-Goes names lp Tyir.nil b h r = (Goes-refl b r.fits, tt, inr r.live)
  lower_args-Goes names lp (Tyir.cons e es) b h r =
      let x = lower_expr-Lowers names lp e b h.0 r in
      args_step (lower_expr b e).0 (lower_expr b e).1 (lower_args (lower_expr b e).1 es)
        (lower_expr b e).1.block_terminated refl x
        (λ live. lower_args-Goes names lp es (lower_expr b e).1 h.1 (Ready-after r x.goes live))

  lower_fields-Goes :
      (names : List Symbol) (lp : Bool) (fs : TyStructInitFields) (b : FnBuilder)
      → FieldsScoped names lp fs
      → Ready names lp b
      → FieldsRun b (lower_fields b fs)
  lower_fields-Goes names lp no_fields b h r = (Goes-refl b r.fits, tt)
  lower_fields-Goes names lp (fields name e span fs) b h r =
      let x = lower_expr-Lowers names lp e b h.0 r in
      fields_step name (lower_expr b e).0 (lower_expr b e).1 (lower_fields (lower_expr b e).1 fs)
        (lower_expr b e).1.block_terminated refl x
        (λ live. lower_fields-Goes names lp fs (lower_expr b e).1 h.1 (Ready-after r x.goes live))

  lower_else-Goes :
      (names : List Symbol) (lp : Bool) (other : OptTyExpr) (plan : IfPlan) (span : SourceSpan)
      (b0 b : FnBuilder)
      → OptScoped names lp other
      → Ready names lp b0
      → Goes b0 b
      → IfPlanIn (opt_is_some other) b0 plan
      → Goes b0 (lower_else b other plan span)
  lower_else-Goes names lp absent plan span b0 b h r g p = g
  lower_else-Goes names lp (present e) plan span b0 b h r g p =
      let else_in = p.else_in in
      let merge_in = p.merge_in in
      let more = g.grows.blocks_grow in
      let (moved, on) =
        set_current_block-Goes plan.else_id b (omega (arith, more, else_in)) g.fits in
      let at = set_current_block plan.else_id b in
      let start = Goes-trans g moved in
      let x = lower_expr-Lowers names lp e at h (Ready-after r start on) in
      let all = Goes-trans start x.goes in
      let up = all.grows.blocks_grow in
      Goes-trans all (
        end_branch-Goes plan.result plan.merge_id (lower_expr at e).0 span (lower_expr at e).1
          (SlotIn-grow all.grows.locals_grow plan.result p.result_in) (omega (arith, up, merge_in))
          x.value_in all.fits)

  lower_break-Goes :
      (names : List Symbol) (lp : Bool) (value : OptTyExpr) (ctx : LoopContext) (span : SourceSpan)
      (b : FnBuilder)
      → opt_pushes value ≡ false
      → OptScoped names lp value
      → LoopIn (length b.locals) (length b.blocks) (length b.scope) ctx
      → Ready names lp b
      → Goes b (lower_break b value ctx span)
  lower_break-Goes names lp absent ctx span b plain h inside r =
      leave_to-Goes ctx.break_target ctx span b inside.1 inside.3 r.live r.fits
  lower_break-Goes names lp (present e) ctx span b plain h inside r =
      let x = lower_expr-Lowers names lp e b h r in
      let (value, b1) = lower_expr b e in
      break_or (ctx.break_value_local == invalid_local) _ _
        (λ no_value. leave_to-Goes ctx.break_target ctx span b inside.1 inside.3 r.live r.fits)
        (λ has_value. if_live _ x.goes (λ live.
          let slot_in = value_local (length b.locals) ctx.break_value_local has_value inside.2 in
          let more_locals = x.goes.grows.locals_grow in
          let more_blocks = x.goes.grows.blocks_grow in
          let target_in = inside.1 in
          let ok = assert-Calm b1 (not (pushes_loop e)) (ap not plain) x.goes.fits in
          let b2 = assert (not (pushes_loop e)) b1 in
          let set =
            to_slot-Calm ctx.break_value_local value span b2 (omega (arith, more_locals, slot_in))
              x.value_in ok.goes.fits in
          let then_blocks = set.goes.grows.blocks_grow in
          let all = Goes-trans x.goes (Goes-trans ok.goes set.goes) in
          Goes-trans all (
            leave_to-Goes ctx.break_target ctx span (to_slot ctx.break_value_local value span b2)
              (omega (arith, more_blocks, then_blocks, target_in)) (rw all.same_scope inside.3)
              (set.same_end ∙ ok.same_end ∙ live) all.fits)))

  lower_return-Goes :
      (names : List Symbol) (lp : Bool) (value : OptTyExpr) (span : SourceSpan) (b : FnBuilder)
      → OptScoped names lp value
      → Ready names lp b
      → Goes b (lower_return b value span)
  lower_return-Goes names lp absent span b h r = leave_function-Goes none span b tt r.live r.fits
  lower_return-Goes names lp (present e) span b h r =
      let x = lower_expr-Lowers names lp e b h r in
      if_live _ x.goes (λ live. Goes-trans x.goes (
        return_with-Goes (lower_expr b e).1 (lower_expr b e).0 (expr_ty e) span x.value_in live
          x.goes.fits))

  lower_init-Ran :
      (names : List Symbol) (lp : Bool) (init : OptTyForInit) (b : FnBuilder)
      → InitScoped names lp init
      → Ready names lp b
      → Ran (after_init init names) b (lower_init (push_scope b) init)
  lower_init-Ran names lp no_init b h r = record {
    inside = push_scope-Inside b r.fits;
    covers = λ live. (Ready-push r).covers;
  }
  lower_init-Ran names lp (for_init discard name t e span) b h r =
      let r' : Ready names lp (push_scope b) = Ready-push r in
      let x = lower_expr-Lowers names lp e (push_scope b) h r' in
      bound_local-Ran names discard name t span (lower_expr (push_scope b) e).0
        (lower_expr (push_scope b) e).1 (push_scope-Inside b r.fits) r'.covers x

  lower_condition-Entering :
      (names : List Symbol) (lp : Bool) (condition : OptTyExpr) (plan : ForPlan) (span : SourceSpan)
      (b : FnBuilder)
      → OptScoped names lp condition
      → Ready names lp b
      → ForPlanIn (length b.blocks) plan
      → Entering b (lower_condition b condition plan span)
  lower_condition-Entering names lp absent plan span b h r p =
      Entering-entered (enter_always-Entered plan span b r.live p r.fits)
  lower_condition-Entering names lp (present e) plan span b h r p =
      let x = lower_expr-Lowers names lp e b h r in
      let (cond, b1) = lower_expr b e in
      Entering-or b1 _ b1.block_terminated refl x.goes (λ live. Entering-entered (
        Entered-after x.goes (
          enter_body-Entered plan cond span b1 live x.value_in
            (ForPlanIn-grow x.goes.grows.blocks_grow p) x.goes.fits)))

  lower_step-Goes :
      (names : List Symbol) (lp : Bool) (step : OptTyExpr) (plan : ForPlan) (span : SourceSpan)
      (b0 b : FnBuilder)
      → OptScoped names lp step
      → Ready names lp b0
      → Goes b0 b
      → ForPlanIn (length b0.blocks) plan
      → Goes b0 (lower_step b step plan span)
  lower_step-Goes names lp absent plan span b0 b h r g p = g
  lower_step-Goes names lp (present e) plan span b0 b h r g p =
      let step_in = p.step_in in
      let cond_in = p.cond_in in
      let more = g.grows.blocks_grow in
      let (moved, on) =
        set_current_block-Goes plan.step_id b (omega (arith, more, step_in)) g.fits in
      let at = set_current_block plan.step_id b in
      let start = Goes-trans g moved in
      let x = lower_expr-Lowers names lp e at h (Ready-after r start on) in
      let all = Goes-trans start x.goes in
      let up = all.grows.blocks_grow in
      Goes-trans all
        (jump_on-Goes plan.cond_id span (lower_expr at e).1 (omega (arith, up, cond_in)) all.fits)

  lower_stmt-Ran :
      (names : List Symbol) (lp : Bool) (s : TyStmt) (a b : FnBuilder)
      → StmtScoped names lp s
      → Inside a b
      → Ready names lp b
      → Ran (after_stmt s names) a (lower_stmt b s)
  lower_stmt-Ran names lp (let_stmt discard name t e span) a b h i r =
      bound_local-Ran names discard name t span (lower_expr b e).0 (lower_expr b e).1 i r.covers
        (lower_expr-Lowers names lp e b h r)
  lower_stmt-Ran names lp (expr_stmt e span) a b h i r =
      let x = lower_expr-Lowers names lp e b h r in
      record { inside = Inside-after i x.goes; covers = λ live. rw x.goes.same_scope r.covers }

  lower_stmts-Ran :
      (names : List Symbol) (lp : Bool) (ss : TyStmts) (a b : FnBuilder)
      → StmtsScoped names lp ss
      → Inside a b
      → InLoop lp a.loop_stack
      → Ready names lp b
      → Ran (after_stmts ss names) a (lower_stmts b ss)
  lower_stmts-Ran names lp no_stmts a b h i loops r = record {
    inside = i;
    covers = λ live. r.covers;
  }
  lower_stmts-Ran names lp (stmts s rest) a b h i loops r =
      let ran = lower_stmt-Ran names lp s a b h.0 i r in
      Ran-or (lower_stmt b s) _ (lower_stmt b s).block_terminated refl ran.inside (λ live.
        lower_stmts-Ran (after_stmt s names) lp rest a (lower_stmt b s) h.1 ran.inside loops
          (Ready-Ran ran loops live))

  lower_tail-Goes :
      (names : List Symbol) (lp : Bool) (tail : OptTyExpr) (result : Option LirLocalId)
      (b : FnBuilder)
      → OptScoped names lp tail
      → SlotIn (length b.locals) result
      → Ready names lp b
      → Goes b (lower_tail b tail result)
  lower_tail-Goes names lp absent result b h there r = Goes-refl b r.fits
  lower_tail-Goes names lp (present e) result b h there r =
      let x = lower_expr-Lowers names lp e b h r in
      Goes-trans x.goes (
        assign_live-Goes result (lower_expr b e).0 (expr_span e) (lower_expr b e).1
          (SlotIn-grow x.goes.grows.locals_grow result there) x.value_in x.goes.fits)
