-- ===== src/Builder/Pushes.antt =====
-- compiler/cstc_lir_builder/src/builder.cpp: the expressions whose lowering may call `push_loop`, which may move the
-- loops that `break` holds a reference into.
use cicest.Prelude.{Bool, true, false, ◌||◌}
use cicest.Tyir.{
  TyExpr, ty_expr, TyNode, TyExprs, OptTyExpr, TyStructInitFields, TyStmt, TyStmts, TyBlock, absent,
  present, no_fields, fields, let_stmt, expr_stmt, no_stmts, stmts, block,
}
use cicest.Tyir

-- A `loop`, `while` or `for` stands in it, at any depth.
unfoldable mutual
  pub pushes_loop : TyExpr → Bool
  pushes_loop (ty_expr node t span a) = node_pushes node

  pub node_pushes : TyNode → Bool
  node_pushes (TyNode.literal c) = false
  node_pushes (TyNode.local_ref name use_kind) = false
  node_pushes (TyNode.enum_variant_ref e v) = false
  node_pushes (TyNode.struct_init name gs fs) = fields_push fs
  node_pushes (TyNode.ty_borrow rhs) = pushes_loop rhs
  node_pushes (TyNode.ty_unary op rhs) = pushes_loop rhs
  node_pushes (TyNode.ty_binary op lhs rhs) = pushes_loop lhs || pushes_loop rhs
  node_pushes (TyNode.field_access base f use_kind) = pushes_loop base
  node_pushes (TyNode.ty_call name gs args residue) = args_push args
  node_pushes (TyNode.deferred_generic_call name gs args) = args_push args
  node_pushes (TyNode.decl_probe e invalid reason) = opt_pushes e
  node_pushes (TyNode.runtime_block body) = block_pushes body
  node_pushes (TyNode.ty_block body) = block_pushes body
  node_pushes (TyNode.ty_if c body other) = pushes_loop c || block_pushes body || opt_pushes other
  node_pushes (TyNode.ty_loop body) = true
  node_pushes (TyNode.ty_while c body) = true
  node_pushes (TyNode.ty_for init c step body) = true
  node_pushes (TyNode.ty_break value) = opt_pushes value
  node_pushes TyNode.ty_continue = false
  node_pushes (TyNode.ty_return value) = opt_pushes value

  pub args_push : TyExprs → Bool
  args_push Tyir.nil = false
  args_push (Tyir.cons e es) = pushes_loop e || args_push es

  pub opt_pushes : OptTyExpr → Bool
  opt_pushes absent = false
  opt_pushes (present e) = pushes_loop e

  pub fields_push : TyStructInitFields → Bool
  fields_push no_fields = false
  fields_push (fields name e span fs) = pushes_loop e || fields_push fs

  pub stmt_pushes : TyStmt → Bool
  stmt_pushes (let_stmt discard name t e span) = pushes_loop e
  stmt_pushes (expr_stmt e span) = pushes_loop e

  pub stmts_push : TyStmts → Bool
  stmts_push no_stmts = false
  stmts_push (stmts s rest) = stmt_pushes s || stmts_push rest

  pub block_pushes : TyBlock → Bool
  block_pushes (block ss tail t span a) = stmts_push ss || opt_pushes tail
