-- ===== src/Module/Scopes.antt =====
-- The scopes of the rewriter are balanced: what it goes into it leaves.
use cicest.Prelude.{◌≡◌, refl, ap, ◌∙◌, true, false, List, [], ◌∷◌, inl, inr, Bool-cases}
use cicest.Symbol.{Symbol, is_valid}
use cicest.Ast.Nodes.{
  Expr, expr, Node, literal_expr, path_expr, struct_init_expr, generic_app_expr, unary_expr,
  binary_expr, field_access_expr, call_expr, decl_expr, runtime_expr, block_expr, if_expr,
  loop_expr, while_expr, for_expr, break_expr, continue_expr, return_expr, Exprs, nil, cons,
  OptExpr, absent, present, field, StructInitFields, no_fields, fields, LetStmt, let_stmt, ForInit,
  no_init, init_let, init_expr, Stmt, of_let, expr_stmt, Stmts, no_stmts, stmts, BlockExpr, block,
}
use cicest.Module.{ModuleInfo}
use cicest.Module.Rewrite.{
  Scopes, push_scope, pop_scope, add_local_name, rewrite_expr, rewrite_node, rewrite_exprs,
  rewrite_opt, rewrite_fields, rewrite_let, rewrite_for_init, rewrite_stmt, rewrite_stmts,
  rewrite_block,
}

-- The innermost scope of `t` stands on the scopes `s`.
abbrev Over : Scopes → Scopes → Type 0
Over s t = (top : List Symbol) × (t ≡ top ∷ s)

Over-pop : (s t : Scopes) → Over s t → pop_scope t ≡ s
Over-pop s t (top, e) = ap pop_scope e

add_local_name-Over : (name : Symbol) (s t : Scopes) → Over s t → Over s (add_local_name name t)
unfolding add_local_name
add_local_name-Over name s t (top, e) = elim (Bool-cases (is_valid name)) [
  | inl h ↦ (name ∷ top, rw (h, add_local_name) (rw e refl))
  | inr h ↦ (top, rw (h, add_local_name) e)
]

Over-same : (s t u : Scopes) → Over s t → u ≡ t → Over s u
Over-same s t u (top, e) h = (top, h ∙ e)

module _ (m : ModuleInfo) where
  mutual
    unfolding rewrite_expr

    rewrite_expr_balanced : (e : Expr) (s : Scopes) → (rewrite_expr m e s).1 ≡ s
    rewrite_expr_balanced (expr node span) s = rewrite_node_balanced node s

    rewrite_node_balanced : (n : Node) (s : Scopes) → (rewrite_node m n s).1 ≡ s
    rewrite_node_balanced (literal_expr l) s = refl
    rewrite_node_balanced (path_expr path) s = refl
    rewrite_node_balanced (struct_init_expr t d gs fs) s = rewrite_fields_balanced fs s
    rewrite_node_balanced (generic_app_expr e gs) s = rewrite_expr_balanced e s
    rewrite_node_balanced (unary_expr op e) s = rewrite_expr_balanced e s
    rewrite_node_balanced (binary_expr op e f) s =
        rewrite_expr_balanced f _ ∙ rewrite_expr_balanced e s
    rewrite_node_balanced (field_access_expr e name) s = rewrite_expr_balanced e s
    rewrite_node_balanced (call_expr e es) s =
        rewrite_exprs_balanced es _ ∙ rewrite_expr_balanced e s
    rewrite_node_balanced (decl_expr e) s = rewrite_expr_balanced e s
    rewrite_node_balanced (runtime_expr b) s = rewrite_block_balanced b s
    rewrite_node_balanced (block_expr b) s = rewrite_block_balanced b s
    rewrite_node_balanced (if_expr c b e) s =
        rewrite_opt_balanced e _ ∙ rewrite_block_balanced b _ ∙ rewrite_expr_balanced c s
    rewrite_node_balanced (loop_expr b) s = rewrite_block_balanced b s
    rewrite_node_balanced (while_expr c b) s =
        rewrite_block_balanced b _ ∙ rewrite_expr_balanced c s
    rewrite_node_balanced (for_expr i c step b) s =
        ap pop_scope
          (rewrite_block_balanced b _ ∙ rewrite_opt_balanced step _ ∙ rewrite_opt_balanced c _)
        ∙ Over-pop s _ (rewrite_for_init-Over i s (push_scope s) ([], refl))
    rewrite_node_balanced (break_expr e) s = rewrite_opt_balanced e s
    rewrite_node_balanced continue_expr s = refl
    rewrite_node_balanced (return_expr e) s = rewrite_opt_balanced e s

    rewrite_exprs_balanced : (es : Exprs) (s : Scopes) → (rewrite_exprs m es s).1 ≡ s
    rewrite_exprs_balanced nil s = refl
    rewrite_exprs_balanced (cons e es) s = rewrite_exprs_balanced es _ ∙ rewrite_expr_balanced e s

    rewrite_opt_balanced : (e : OptExpr) (s : Scopes) → (rewrite_opt m e s).1 ≡ s
    rewrite_opt_balanced absent s = refl
    rewrite_opt_balanced (present e) s = rewrite_expr_balanced e s

    rewrite_fields_balanced : (fs : StructInitFields) (s : Scopes) → (rewrite_fields m fs s).1 ≡ s
    rewrite_fields_balanced no_fields s = refl
    rewrite_fields_balanced (fields (field name e span) fs) s =
        rewrite_fields_balanced fs _ ∙ rewrite_expr_balanced e s

    rewrite_let-Over : (l : LetStmt) (s t : Scopes) → Over s t → Over s (rewrite_let m l t).1
    rewrite_let-Over (let_stmt true name a e span) s t o =
        Over-same s t _ o (rewrite_expr_balanced e t)
    rewrite_let-Over (let_stmt false name a e span) s t o =
        add_local_name-Over name s _ (Over-same s t _ o (rewrite_expr_balanced e t))

    rewrite_for_init-Over :
        (i : ForInit) (s t : Scopes) → Over s t → Over s (rewrite_for_init m i t).1
    rewrite_for_init-Over no_init s t o = o
    rewrite_for_init-Over (init_let l) s t o = rewrite_let-Over l s t o
    rewrite_for_init-Over (init_expr e) s t o = Over-same s t _ o (rewrite_expr_balanced e t)

    rewrite_stmt-Over : (x : Stmt) (s t : Scopes) → Over s t → Over s (rewrite_stmt m x t).1
    rewrite_stmt-Over (of_let l) s t o = rewrite_let-Over l s t o
    rewrite_stmt-Over (expr_stmt e span) s t o = Over-same s t _ o (rewrite_expr_balanced e t)

    rewrite_stmts-Over : (xs : Stmts) (s t : Scopes) → Over s t → Over s (rewrite_stmts m xs t).1
    rewrite_stmts-Over no_stmts s t o = o
    rewrite_stmts-Over (stmts x xs) s t o = rewrite_stmts-Over xs s _ (rewrite_stmt-Over x s t o)

    rewrite_block_balanced : (b : BlockExpr) (s : Scopes) → (rewrite_block m b s).1 ≡ s
    rewrite_block_balanced (block ss t span) s =
        ap pop_scope (rewrite_opt_balanced t _)
        ∙ Over-pop s _ (rewrite_stmts-Over ss s (push_scope s) ([], refl))

-- The rewriter leaves the scopes of an expression as it found them: each scope that a block or a `for` opens, with the
-- names that its bindings add, is closed again.
pub rewrite_expr_restores :
    (m : ModuleInfo) (e : Expr) (scopes : Scopes) → (rewrite_expr m e scopes).1 ≡ scopes
rewrite_expr_restores m e scopes = rewrite_expr_balanced m e scopes
