-- ===== src/Module/Rewrite.antt =====
-- compiler/cstc_module/include/cstc_module/module.hpp: `AstRewriter`, which gives names their internal names.
-- The member `scopes_` is a list of scopes, the innermost one first. The members that rewrite what may declare local
-- names take the scopes and return those that they leave.

use cicest.Prelude.{Bool, true, false, ◌||◌, List, [], ◌∷◌, Option, none, some, if◌then◌else◌}
use cicest.Symbol.{Symbol, is_valid}
use cicest.Ast
use cicest.Ast.{TypeKind, TypeRef, type_ref, TypeRefs, TypeRefPtr, null, to}
use cicest.Ast.Nodes.{
  PathExpr, Expr, expr, Node, literal_expr, path_expr, struct_init_expr, generic_app_expr,
  unary_expr, binary_expr, field_access_expr, call_expr, decl_expr, runtime_expr, block_expr,
  if_expr, loop_expr, while_expr, for_expr, break_expr, continue_expr, return_expr, Exprs, nil,
  cons, OptExpr, absent, present, field, StructInitFields, no_fields, fields, LetStmt, let_stmt,
  ForInit, no_init, init_let, init_expr, Stmt, of_let, expr_stmt, Stmts, no_stmts, stmts, BlockExpr,
  block,
}
use cicest.Parser.Monad.{contains}
use cicest.Module.{BindingSet, ModuleInfo, find_binding, merge_binding_sets}

abbrev pub Scopes : Type 0
Scopes = List (List Symbol)

abbrev pub push_scope : Scopes → Scopes
push_scope scopes = [] ∷ scopes

abbrev pub pop_scope : Scopes → Scopes
pop_scope [] = []
pop_scope (scope ∷ scopes) = scopes

abbrev insert_innermost : Symbol → Scopes → Scopes
insert_innermost name [] = []
insert_innermost name (scope ∷ scopes) = (name ∷ scope) ∷ scopes

-- Called between `push_scope` and `pop_scope` only, so that there is an innermost scope.
unfoldable pub add_local_name : Symbol → Scopes → Scopes
add_local_name name scopes = if is_valid name then insert_innermost name scopes else scopes

unfoldable pub is_local_name : Symbol → Scopes → Bool
is_local_name name [] = false
is_local_name name (scope ∷ scopes) = contains name scope || is_local_name name scopes

-- `if (!display.is_valid()) display = name;`
abbrev pub shown_as : Symbol → Symbol → Symbol
shown_as display name = if is_valid display then display else name

module _ (m : ModuleInfo) where
  unfoldable pub lookup_visible : Symbol → Option BindingSet
  lookup_visible name = elim (find_binding name m.visible_bindings) [
    | none ↦ find_binding name m.fallback_bindings
    | some visible ↦ elim (find_binding name m.fallback_bindings) [
      | none ↦ some visible
      | some fallback ↦ some (merge_binding_sets visible fallback)
    ]
  ]

  -- The internal name of a type or of a function, or the name itself where nothing is bound to it.
  unfoldable pub type_name : Symbol → Symbol
  type_name name = elim (lookup_visible name) [
    | none ↦ name
    | some set ↦ elim set.type_binding [ none ↦ name | some b ↦ b.internal_name ]
  ]

  unfoldable pub value_name : Symbol → Symbol
  value_name name = elim (lookup_visible name) [
    | none ↦ name
    | some set ↦ elim set.value_binding [ none ↦ name | some b ↦ b.internal_name ]
  ]

  abbrev has_type : Symbol → Bool
  has_type name = elim (lookup_visible name) [
    | none ↦ false
    | some set ↦ elim set.type_binding [ none ↦ false | some b ↦ true ]
  ]

  abbrev named_as : TypeKind → Symbol → Symbol → TypeRefPtr → Bool → TypeRefs → Bool → TypeRef
  named_as TypeKind.named s d p r gs c =
      type_ref TypeKind.named (type_name s) (if has_type s then shown_as d s else d) p r gs c
  named_as k s d p r gs c = type_ref k s d p r gs c

  unfoldable mutual
    pub rewrite_type : TypeRef → TypeRef
    rewrite_type (type_ref TypeKind.ref s d p r gs c) =
        type_ref TypeKind.ref s d (rewrite_pointee p) r gs c
    rewrite_type (type_ref k s d p r gs c) = named_as k s d p r (rewrite_types gs) c

    pub rewrite_types : TypeRefs → TypeRefs
    rewrite_types Ast.nil = Ast.nil
    rewrite_types (Ast.cons t ts) = Ast.cons (rewrite_type t) (rewrite_types ts)

    pub rewrite_pointee : TypeRefPtr → TypeRefPtr
    rewrite_pointee null = null
    rewrite_pointee (to t) = to (rewrite_type t)

  unfoldable pub rewrite_annotation : Option TypeRef → Option TypeRef
  rewrite_annotation none = none
  rewrite_annotation (some t) = some (rewrite_type t)

  -- Behind `::` stands the variant of a type. Else a local name is left as it is.
  unfoldable pub rewrite_path : PathExpr → Scopes → PathExpr
  rewrite_path path scopes =
      let shown = record path { display_head = shown_as path.display_head path.head } in
      elim path.tail [
        | some variant ↦ record shown { head = type_name path.head }
        | none ↦
            if is_local_name path.head scopes
            then shown
            else record shown { head = value_name path.head }
      ]

  unfoldable mutual
    pub rewrite_expr : Expr → Scopes → Expr × Scopes
    rewrite_expr (expr node span) scopes =
        let (new, left) = rewrite_node node scopes in (expr new span, left)

    pub rewrite_node : Node → Scopes → Node × Scopes
    rewrite_node (literal_expr l) scopes = (literal_expr l, scopes)
    rewrite_node (path_expr path) scopes = (path_expr (rewrite_path path scopes), scopes)
    rewrite_node (struct_init_expr t d gs fs) scopes =
        let (new, left) = rewrite_fields fs scopes in
        (struct_init_expr (type_name t) (shown_as d t) (rewrite_types gs) new, left)
    rewrite_node (generic_app_expr e gs) scopes =
        let (callee, left) = rewrite_expr e scopes in
        (generic_app_expr callee (rewrite_types gs), left)
    rewrite_node (unary_expr op e) scopes =
        let (rhs, left) = rewrite_expr e scopes in (unary_expr op rhs, left)
    rewrite_node (binary_expr op e f) scopes =
        let (lhs, between) = rewrite_expr e scopes in
        let (rhs, left) = rewrite_expr f between in (binary_expr op lhs rhs, left)
    rewrite_node (field_access_expr e s) scopes =
        let (base, left) = rewrite_expr e scopes in (field_access_expr base s, left)
    rewrite_node (call_expr e es) scopes =
        let (callee, between) = rewrite_expr e scopes in
        let (args, left) = rewrite_exprs es between in (call_expr callee args, left)
    rewrite_node (decl_expr e) scopes =
        let (new, left) = rewrite_expr e scopes in (decl_expr new, left)
    rewrite_node (runtime_expr b) scopes =
        let (body, left) = rewrite_block b scopes in (runtime_expr body, left)
    rewrite_node (block_expr b) scopes =
        let (body, left) = rewrite_block b scopes in (block_expr body, left)
    rewrite_node (if_expr c b e) scopes =
        let (condition, one) = rewrite_expr c scopes in
        let (then_block, two) = rewrite_block b one in
        let (else_branch, left) = rewrite_opt e two in
        (if_expr condition then_block else_branch, left)
    rewrite_node (loop_expr b) scopes =
        let (body, left) = rewrite_block b scopes in (loop_expr body, left)
    rewrite_node (while_expr c b) scopes =
        let (condition, between) = rewrite_expr c scopes in
        let (body, left) = rewrite_block b between in (while_expr condition body, left)
    rewrite_node (for_expr i c s b) scopes =
        let (init, one) = rewrite_for_init i (push_scope scopes) in
        let (condition, two) = rewrite_opt c one in
        let (step, three) = rewrite_opt s two in
        let (body, left) = rewrite_block b three in
        (for_expr init condition step body, pop_scope left)
    rewrite_node (break_expr e) scopes =
        let (value, left) = rewrite_opt e scopes in (break_expr value, left)
    rewrite_node continue_expr scopes = (continue_expr, scopes)
    rewrite_node (return_expr e) scopes =
        let (value, left) = rewrite_opt e scopes in (return_expr value, left)

    pub rewrite_exprs : Exprs → Scopes → Exprs × Scopes
    rewrite_exprs nil scopes = (nil, scopes)
    rewrite_exprs (cons e es) scopes =
        let (new, between) = rewrite_expr e scopes in
        let (news, left) = rewrite_exprs es between in (cons new news, left)

    pub rewrite_opt : OptExpr → Scopes → OptExpr × Scopes
    rewrite_opt absent scopes = (absent, scopes)
    rewrite_opt (present e) scopes = let (new, left) = rewrite_expr e scopes in (present new, left)

    pub rewrite_fields : StructInitFields → Scopes → StructInitFields × Scopes
    rewrite_fields no_fields scopes = (no_fields, scopes)
    rewrite_fields (fields (field name e span) fs) scopes =
        let (value, between) = rewrite_expr e scopes in
        let (news, left) = rewrite_fields fs between in (fields (field name value span) news, left)

    -- A name is local from behind its initializer on.
    pub rewrite_let : LetStmt → Scopes → LetStmt × Scopes
    rewrite_let (let_stmt discard name annotation e span) scopes =
        let (initializer, left) = rewrite_expr e scopes in
        (
          let_stmt discard name (rewrite_annotation annotation) initializer span,
          if discard then left else add_local_name name left,
        )

    pub rewrite_for_init : ForInit → Scopes → ForInit × Scopes
    rewrite_for_init no_init scopes = (no_init, scopes)
    rewrite_for_init (init_let s) scopes =
        let (new, left) = rewrite_let s scopes in (init_let new, left)
    rewrite_for_init (init_expr e) scopes =
        let (new, left) = rewrite_expr e scopes in (init_expr new, left)

    pub rewrite_stmt : Stmt → Scopes → Stmt × Scopes
    rewrite_stmt (of_let s) scopes = let (new, left) = rewrite_let s scopes in (of_let new, left)
    rewrite_stmt (expr_stmt e span) scopes =
        let (new, left) = rewrite_expr e scopes in (expr_stmt new span, left)

    pub rewrite_stmts : Stmts → Scopes → Stmts × Scopes
    rewrite_stmts no_stmts scopes = (no_stmts, scopes)
    rewrite_stmts (stmts s ss) scopes =
        let (new, between) = rewrite_stmt s scopes in
        let (news, left) = rewrite_stmts ss between in (stmts new news, left)

    pub rewrite_block : BlockExpr → Scopes → BlockExpr × Scopes
    rewrite_block (block ss t span) scopes =
        let (statements, between) = rewrite_stmts ss (push_scope scopes) in
        let (tail, left) = rewrite_opt t between in (block statements tail span, pop_scope left)
