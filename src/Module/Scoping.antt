-- ===== src/Module/Scoping.antt =====
-- compiler/cstc_module/include/cstc_module/module.hpp: the names of a module's code by lexical scope, with no scopes to
-- enter and leave: an independent description of `AstRewriter`.
use cicest.Prelude.{List, ◌∷◌, Option, none, some, if◌then◌else◌}
use cicest.Symbol.{Symbol, is_valid}
use cicest.Ast.Nodes.{
  Expr, expr, Node, literal_expr, path_expr, struct_init_expr, generic_app_expr, unary_expr,
  binary_expr, field_access_expr, call_expr, decl_expr, runtime_expr, block_expr, if_expr,
  loop_expr, while_expr, for_expr, break_expr, continue_expr, return_expr, Exprs, nil, cons,
  OptExpr, absent, present, field, StructInitFields, no_fields, fields, LetStmt, let_stmt, ForInit,
  no_init, init_let, init_expr, Stmt, of_let, expr_stmt, Stmts, no_stmts, stmts, BlockExpr, block,
}
use cicest.Parser.Monad.{contains}
use cicest.Module.{ModuleInfo}
use cicest.Module.Rewrite.{shown_as, type_name, value_name, rewrite_types, rewrite_annotation}

-- The local names behind a statement, given those before it.
abbrev pub after_let : LetStmt → List Symbol → List Symbol
after_let (let_stmt discard name t e span) names =
    if discard then names else if is_valid name then name ∷ names else names

abbrev pub after_init : ForInit → List Symbol → List Symbol
after_init no_init names = names
after_init (init_let s) names = after_let s names
after_init (init_expr e) names = names

abbrev pub after_stmt : Stmt → List Symbol → List Symbol
after_stmt (of_let s) names = after_let s names
after_stmt (expr_stmt e span) names = names

abbrev pub after_stmts : Stmts → List Symbol → List Symbol
after_stmts no_stmts names = names
after_stmts (stmts s ss) names = after_stmts ss (after_stmt s names)

module _ (m : ModuleInfo) where
  -- A name alone is a local one where it is among the names, and a variant's type is never local.
  abbrev pub resolved : Option Symbol → Symbol → List Symbol → Symbol
  resolved (some variant) head names = type_name m head
  resolved none head names = if contains head names then head else value_name m head

  -- Under these local names, the code with every name given its internal name.
  unfoldable mutual
    pub name_expr : Expr → List Symbol → Expr
    name_expr (expr node span) names = expr (name_node node names) span

    pub name_node : Node → List Symbol → Node
    name_node (literal_expr l) names = literal_expr l
    name_node (path_expr path) names = path_expr (record path {
      head = resolved path.tail path.head names;
      display_head = shown_as path.display_head path.head;
    })
    name_node (struct_init_expr t d gs fs) names =
        struct_init_expr (type_name m t) (shown_as d t) (rewrite_types m gs) (name_fields fs names)
    name_node (generic_app_expr e gs) names =
        generic_app_expr (name_expr e names) (rewrite_types m gs)
    name_node (unary_expr op e) names = unary_expr op (name_expr e names)
    name_node (binary_expr op e f) names = binary_expr op (name_expr e names) (name_expr f names)
    name_node (field_access_expr e s) names = field_access_expr (name_expr e names) s
    name_node (call_expr e es) names = call_expr (name_expr e names) (name_exprs es names)
    name_node (decl_expr e) names = decl_expr (name_expr e names)
    name_node (runtime_expr b) names = runtime_expr (name_block b names)
    name_node (block_expr b) names = block_expr (name_block b names)
    name_node (if_expr c b e) names =
        if_expr (name_expr c names) (name_block b names) (name_opt e names)
    name_node (loop_expr b) names = loop_expr (name_block b names)
    name_node (while_expr c b) names = while_expr (name_expr c names) (name_block b names)
    name_node (for_expr i c s b) names =
        let inner = after_init i names in
        for_expr (name_init i names) (name_opt c inner) (name_opt s inner) (name_block b inner)
    name_node (break_expr e) names = break_expr (name_opt e names)
    name_node continue_expr names = continue_expr
    name_node (return_expr e) names = return_expr (name_opt e names)

    pub name_exprs : Exprs → List Symbol → Exprs
    name_exprs nil names = nil
    name_exprs (cons e es) names = cons (name_expr e names) (name_exprs es names)

    pub name_opt : OptExpr → List Symbol → OptExpr
    name_opt absent names = absent
    name_opt (present e) names = present (name_expr e names)

    pub name_fields : StructInitFields → List Symbol → StructInitFields
    name_fields no_fields names = no_fields
    name_fields (fields (field name e span) fs) names =
        fields (field name (name_expr e names) span) (name_fields fs names)

    pub name_let : LetStmt → List Symbol → LetStmt
    name_let (let_stmt discard name t e span) names =
        let_stmt discard name (rewrite_annotation m t) (name_expr e names) span

    pub name_init : ForInit → List Symbol → ForInit
    name_init no_init names = no_init
    name_init (init_let s) names = init_let (name_let s names)
    name_init (init_expr e) names = init_expr (name_expr e names)

    pub name_stmt : Stmt → List Symbol → Stmt
    name_stmt (of_let s) names = of_let (name_let s names)
    name_stmt (expr_stmt e span) names = expr_stmt (name_expr e names) span

    pub name_stmts : Stmts → List Symbol → Stmts
    name_stmts no_stmts names = no_stmts
    name_stmts (stmts s ss) names = stmts (name_stmt s names) (name_stmts ss (after_stmt s names))

    pub name_block : BlockExpr → List Symbol → BlockExpr
    name_block (block ss t span) names =
        block (name_stmts ss names) (name_opt t (after_stmts ss names)) span
