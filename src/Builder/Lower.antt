-- ===== src/Builder/Lower.antt =====
-- compiler/cstc_lir_builder/src/builder.cpp: `lower_expr` and `lower_block`.
-- `lower_expr` takes the builder to the operand of the value and the new builder. `break` reads
-- the innermost loop through a reference behind the lowering of its value; where a loop in the value may have moved
-- what it refers to, that is kept in `failed`.
use cicest.Prelude.{true, false, not, List, [], ◌∷◌, Option, none, some, ◌==◌}
use cicest.Span.{SourceSpan}
use cicest.Ty.{Ty}
use cicest.Tyir.{
  TyExpr, ty_expr, TyNode, TyExprs, OptTyExpr, TyStructInitFields, OptTyForInit, TyStmt, TyStmts,
  TyBlock, TyParam, TyFnDecl, absent, present, no_fields, fields, no_init, for_init, let_stmt,
  expr_stmt, no_stmts, stmts, block, expr_ty, expr_span,
}
use cicest.Tyir
use cicest.Lir.{LirLocalId, LirOperand, LirStructInitField, LirRvalue, invalid_local}
use cicest.Lir.Operand
use cicest.Lir.Place
use cicest.Lir.Place.{project}
use cicest.Builder.Pushes.{pushes_loop}
use cicest.Builder.{
  FnBuilder, LoopContext, assert, next_local, set_current_block, push_scope, pop_scope,
}
use cicest.Builder.Steps.{
  unit_operand, fail, compute, assign_new, lower_borrow_place, literal_const, lower_local,
  read_field, result_local, alloc_result, jump_on, end_branch, continue_at, lower_call,
  finish_runtime, bind_local, leave_to, leave_function, to_slot, return_with, close_block,
  block_value, assign_live,
}
use cicest.Builder.Openings.{
  ForPlan, IfPlan, close_for, end_body, enter_always, enter_body, open_for, open_if, open_loop,
  opt_is_some, tail_type,
}

unfoldable mutual
  unfolding push_scope pop_scope set_current_block lower_borrow_place lower_local read_field compute
      assign_new alloc_result end_branch continue_at lower_call finish_runtime bind_local leave_to
      leave_function return_with close_block block_value assign_live open_if open_loop open_for
      enter_body enter_always end_body close_for jump_on project

  pub lower_expr : FnBuilder → TyExpr → LirOperand × FnBuilder
  lower_expr b (ty_expr node t span a) = lower_node b node t span

  pub lower_node : FnBuilder → TyNode → Ty → SourceSpan → LirOperand × FnBuilder
  lower_node b (TyNode.literal c) t span = (Operand.from_const (literal_const c), b)
  lower_node b (TyNode.local_ref name use_kind) t span = lower_local b name use_kind
  lower_node b (TyNode.enum_variant_ref name variant) t span =
      compute b t (LirRvalue.enum_variant_ref name variant) span
  lower_node b (TyNode.struct_init name gs fs) t span =
      let (values, b1) = lower_fields b fs in
      elim values [
        | none ↦ (unit_operand, b1)
        | some vs ↦ compute b1 t (LirRvalue.struct_init name vs) span
      ]
  lower_node b (TyNode.ty_borrow rhs) t span = elim (lower_borrow_place b rhs) [
    | some (place, b1) ↦ compute b1 t (LirRvalue.borrow place) span
    | none ↦
        let (op, b1) = lower_expr b rhs in
        elim b1.block_terminated [
          | true ↦ (unit_operand, b1)
          | false ↦
              compute (assign_new b1 (expr_ty rhs) none (LirRvalue.use_of op) span) t
                (LirRvalue.borrow (Place.local (next_local b1))) span
        ]
  ]
  lower_node b (TyNode.ty_unary op rhs) t span =
      let (value, b1) = lower_expr b rhs in
      elim b1.block_terminated [
        | true ↦ (unit_operand, b1)
        | false ↦ compute b1 t (LirRvalue.unary_op op value) span
      ]
  lower_node b (TyNode.ty_binary op lhs rhs) t span =
      let (left, b1) = lower_expr b lhs in
      elim b1.block_terminated [
        | true ↦ (unit_operand, b1)
        | false ↦
            let (right, b2) = lower_expr b1 rhs in
            elim b2.block_terminated [
              | true ↦ (unit_operand, b2)
              | false ↦ compute b2 t (LirRvalue.binary_op op left right) span
            ]
      ]
  lower_node b (TyNode.field_access base field use_kind) t span = elim (lower_borrow_place b base) [
    | some (place, b1) ↦ read_field b1 (project place field) use_kind t span
    | none ↦
        let (op, b1) = lower_expr b base in
        elim b1.block_terminated [
          | true ↦ (unit_operand, b1)
          | false ↦
              read_field (assign_new b1 (expr_ty base) none (LirRvalue.use_of op) span)
                (Place.field (next_local b1) field) use_kind t span
        ]
  ]
  lower_node b (TyNode.ty_call name gs args residue) t span =
      let (values, b1) = lower_args b args in
      elim values [ none ↦ (unit_operand, b1) | some ops ↦ lower_call b1 name ops t span ]
  lower_node b (TyNode.deferred_generic_call name gs args) t span = (unit_operand, fail b)
  lower_node b (TyNode.decl_probe e invalid reason) t span = (unit_operand, fail b)
  lower_node b (TyNode.runtime_block body) t span =
      let (value, b1) = lower_block b body in
      elim b1.block_terminated [
        | true ↦ (unit_operand, b1)
        | false ↦ finish_runtime b1 value t span
      ]
  lower_node b (TyNode.ty_block body) t span = lower_block b body
  lower_node b (TyNode.ty_if condition then_block else_branch) t span =
      let (cond, b1) = lower_expr b condition in
      elim b1.block_terminated [
        | true ↦ (unit_operand, b1)
        | false ↦
            let (plan, b2) = open_if b1 cond (opt_is_some else_branch) t span in
            let (then_value, b3) = lower_block b2 then_block in
            let b4 = end_branch plan.result plan.merge_id then_value span b3 in
            continue_at plan.merge_id plan.result t (lower_else b4 else_branch plan span)
      ]
  lower_node b (TyNode.ty_loop body) t span =
      let (plan, b1) = open_loop b t span in
      let (_, b2) = lower_block b1 body in
      continue_at plan.after_id plan.result t (end_body plan.header_id span b2)
  lower_node b (TyNode.ty_while condition body) t span =
      let (plan, b1) = open_for b false span in
      let (cond, b2) = lower_expr b1 condition in
      elim b2.block_terminated [
        | true ↦ (unit_operand, b2)
        | false ↦
            let (_, b3) = lower_block (enter_body plan cond span b2) body in
            continue_at plan.after_id none t (end_body plan.cond_id span b3)
      ]
  lower_node b (TyNode.ty_for init condition step body) t span =
      let b1 = lower_init (push_scope b) init in
      elim b1.block_terminated [
        | true ↦ (unit_operand, pop_scope b1)
        | false ↦
            let (plan, b2) = open_for b1 (opt_is_some step) span in
            let b3 = lower_condition b2 condition plan span in
            elim b3.block_terminated [
              | true ↦ (unit_operand, pop_scope b3)
              | false ↦
                  let (_, b4) = lower_block b3 body in
                  let b5 = end_body plan.step_id span b4 in
                  (unit_operand, close_for plan.after_id span (lower_step b5 step plan span))
            ]
      ]
  lower_node b (TyNode.ty_break value) t span = elim b.loop_stack [
    | [] ↦ (unit_operand, fail b)
    | ctx ∷ _ ↦ (unit_operand, lower_break b value ctx span)
  ]
  lower_node b TyNode.ty_continue t span = elim b.loop_stack [
    | [] ↦ (unit_operand, fail b)
    | ctx ∷ _ ↦ (unit_operand, leave_to ctx.continue_target ctx span b)
  ]
  lower_node b (TyNode.ty_return value) t span = (unit_operand, lower_return b value span)

  -- `none` where an argument ends the block.
  pub lower_args : FnBuilder → TyExprs → Option (List LirOperand) × FnBuilder
  lower_args b Tyir.nil = (some [], b)
  lower_args b (Tyir.cons e es) =
      let (op, b1) = lower_expr b e in
      elim b1.block_terminated [
        | true ↦ (none, b1)
        | false ↦
            let (rest, b2) = lower_args b1 es in
            elim rest [ none ↦ (none, b2) | some ops ↦ (some (op ∷ ops), b2) ]
      ]

  pub lower_fields : FnBuilder → TyStructInitFields → Option (List LirStructInitField) × FnBuilder
  lower_fields b no_fields = (some [], b)
  lower_fields b (fields name e span fs) =
      let (op, b1) = lower_expr b e in
      elim b1.block_terminated [
        | true ↦ (none, b1)
        | false ↦
            let (rest, b2) = lower_fields b1 fs in
            elim rest [
              | none ↦ (none, b2)
              | some vs ↦ (some (record { name = name; value = op } ∷ vs), b2)
            ]
      ]

  pub lower_else : FnBuilder → OptTyExpr → IfPlan → SourceSpan → FnBuilder
  lower_else b absent plan span = b
  lower_else b (present e) plan span =
      let (value, b1) = lower_expr (set_current_block plan.else_id b) e in
      end_branch plan.result plan.merge_id value span b1

  pub lower_init : FnBuilder → OptTyForInit → FnBuilder
  lower_init b no_init = b
  lower_init b (for_init discard name t e span) =
      let (value, b1) = lower_expr b e in
      elim b1.block_terminated [ true ↦ b1 | false ↦ bind_local b1 discard name t value span ]

  -- Up to the start of the body; a condition that ends its block leaves the builder there.
  pub lower_condition : FnBuilder → OptTyExpr → ForPlan → SourceSpan → FnBuilder
  lower_condition b absent plan span = enter_always plan span b
  lower_condition b (present e) plan span =
      let (cond, b1) = lower_expr b e in
      elim b1.block_terminated [ true ↦ b1 | false ↦ enter_body plan cond span b1 ]

  pub lower_step : FnBuilder → OptTyExpr → ForPlan → SourceSpan → FnBuilder
  lower_step b absent plan span = b
  lower_step b (present e) plan span =
      let (_, b1) = lower_expr (set_current_block plan.step_id b) e in jump_on plan.cond_id span b1

  -- A value goes into the loop's value local, and is not lowered where the loop has none. Behind the value, the loop is
  -- read through a reference into `loop_stack_`, which a `push_loop` in the value may have moved: that fails.
  pub lower_break : FnBuilder → OptTyExpr → LoopContext → SourceSpan → FnBuilder
  lower_break b absent ctx span = leave_to ctx.break_target ctx span b
  lower_break b (present e) ctx span = elim (ctx.break_value_local == invalid_local) [
    | true ↦ leave_to ctx.break_target ctx span b
    | false ↦
        let (value, b1) = lower_expr b e in
        elim b1.block_terminated [
          | true ↦ b1
          | false ↦
              leave_to ctx.break_target ctx span
                (to_slot ctx.break_value_local value span (assert (not (pushes_loop e)) b1))
        ]
  ]

  pub lower_return : FnBuilder → OptTyExpr → SourceSpan → FnBuilder
  lower_return b absent span = leave_function none span b
  lower_return b (present e) span =
      let (value, b1) = lower_expr b e in
      elim b1.block_terminated [ true ↦ b1 | false ↦ return_with b1 value (expr_ty e) span ]

  pub lower_stmt : FnBuilder → TyStmt → FnBuilder
  lower_stmt b (let_stmt discard name t e span) =
      let (value, b1) = lower_expr b e in
      elim b1.block_terminated [ true ↦ b1 | false ↦ bind_local b1 discard name t value span ]
  lower_stmt b (expr_stmt e span) = (lower_expr b e).1

  -- The statements up to one that ends the block.
  pub lower_stmts : FnBuilder → TyStmts → FnBuilder
  lower_stmts b no_stmts = b
  lower_stmts b (stmts s rest) =
      let b1 = lower_stmt b s in
      elim b1.block_terminated [ true ↦ b1 | false ↦ lower_stmts b1 rest ]

  pub lower_tail : FnBuilder → OptTyExpr → Option LirLocalId → FnBuilder
  lower_tail b absent result = b
  lower_tail b (present e) result =
      let (value, b1) = lower_expr b e in assign_live result value (expr_span e) b1

  pub lower_block : FnBuilder → TyBlock → LirOperand × FnBuilder
  lower_block b (block ss tail t span a) =
      let tail_ty = tail_type tail in
      let b1 = lower_stmts (push_scope (alloc_result b tail_ty)) ss in
      elim b1.block_terminated [
        | true ↦ (unit_operand, pop_scope b1)
        | false ↦
            block_value (result_local b tail_ty) tail_ty
              (close_block span (lower_tail b1 tail (result_local b tail_ty)))
      ]
