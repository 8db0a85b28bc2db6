-- ===== src/Module/Lexical.antt =====
-- compiler/cstc_module/include/cstc_module/module.hpp: `AstRewriter` names code by its lexical scopes.
use cicest.Prelude.{
  ◌≡◌, refl, Bool, true, false, ◌||◌, List, [], ◌∷◌, ◌++◌, Option, none, some, arith, if◌then◌else◌,
}
use cicest.Symbol.{Symbol, is_valid}
use cicest.Ast.Nodes.{
  PathExpr, Expr, expr, Node, literal_expr, path_expr, struct_init_expr, generic_app_expr,
  unary_expr, binary_expr, field_access_expr, call_expr, decl_expr, runtime_expr, block_expr,
  if_expr, loop_expr, while_expr, for_expr, break_expr, continue_expr, return_expr, Exprs, nil,
  cons, OptExpr, absent, present, field, StructInitFields, no_fields, fields, LetStmt, let_stmt,
  ForInit, no_init, init_let, init_expr, Stmt, of_let, expr_stmt, Stmts, no_stmts, stmts, BlockExpr,
  block,
}
use cicest.Parser.Monad.{contains}
use cicest.Module.{ModuleInfo}
use cicest.Module.Rewrite.{
  Scopes, is_local_name, add_local_name, rewrite_path, rewrite_expr, rewrite_node, rewrite_exprs,
  rewrite_opt, rewrite_fields, rewrite_let, rewrite_for_init, rewrite_stmt, rewrite_stmts,
  rewrite_block, shown_as, value_name, type_name,
}
use cicest.Module.Scoping.{
  after_let, after_init, after_stmt, after_stmts, resolved, name_expr, name_node, name_exprs,
  name_opt, name_fields, name_let, name_init, name_stmt, name_stmts, name_block,
}

-- The names of all open scopes, innermost first.
abbrev pub names_in : Scopes → List Symbol
names_in [] = []
names_in (scope ∷ scopes) = scope ++ names_in scopes

contains-concat :
    (name : Symbol) (xs ys : List Symbol)
    → contains name (xs ++ ys) ≡ (contains name xs || contains name ys)
unfolding contains
contains-concat name [] ys = refl
contains-concat name (x ∷ xs) ys = ground (arith, contains-concat name xs ys)

is_local_name_lem :
    (name : Symbol) (scopes : Scopes) → is_local_name name scopes ≡ contains name (names_in scopes)
unfolding is_local_name contains
is_local_name_lem name [] = refl
is_local_name_lem name (scope ∷ scopes) =
    rw (contains-concat name scope (names_in scopes), is_local_name_lem name scopes) refl

-- Names behind a statement, with other names around it.
after_let-concat :
    (s : LetStmt) (xs ys : List Symbol) → after_let s (xs ++ ys) ≡ after_let s xs ++ ys
after_let-concat (let_stmt discard name t e span) xs ys = go discard (is_valid name)
  where
    go :
        (d v : Bool)
        → (if d then xs ++ ys else if v then name ∷ (xs ++ ys) else xs ++ ys)
          ≡ (if d then xs else if v then name ∷ xs else xs) ++ ys
    go true v = refl
    go false true = refl
    go false false = refl

after_init-concat :
    (i : ForInit) (xs ys : List Symbol) → after_init i (xs ++ ys) ≡ after_init i xs ++ ys
after_init-concat no_init xs ys = refl
after_init-concat (init_let s) xs ys = after_let-concat s xs ys
after_init-concat (init_expr e) xs ys = refl

after_stmt-concat :
    (s : Stmt) (xs ys : List Symbol) → after_stmt s (xs ++ ys) ≡ after_stmt s xs ++ ys
after_stmt-concat (of_let s) xs ys = after_let-concat s xs ys
after_stmt-concat (expr_stmt e span) xs ys = refl

after_stmts-concat :
    (ss : Stmts) (xs ys : List Symbol) → after_stmts ss (xs ++ ys) ≡ after_stmts ss xs ++ ys
after_stmts-concat no_stmts xs ys = refl
after_stmts-concat (stmts s ss) xs ys =
    rw (after_stmt-concat s xs ys) (after_stmts-concat ss (after_stmt s xs) ys)

declared_lem :
    (discard : Bool) (name : Symbol) (scope : List Symbol) (outer : Scopes)
    → (if discard then scope ∷ outer else add_local_name name (scope ∷ outer))
      ≡ (if discard then scope else if is_valid name then name ∷ scope else scope) ∷ outer
unfolding add_local_name
declared_lem true name scope outer = refl
declared_lem false name scope outer = go (is_valid name)
  where
    go :
        (v : Bool)
        → (if v then (name ∷ scope) ∷ outer else scope ∷ outer)
          ≡ (if v then name ∷ scope else scope) ∷ outer
    go true = refl
    go false = refl

module _ (m : ModuleInfo) where
  rewrite_path_lem :
      (path : PathExpr) (scopes : Scopes)
      → rewrite_path m path scopes ≡ record path {
        head = resolved m path.tail path.head (names_in scopes);
        display_head = shown_as path.display_head path.head;
      }
  unfolding rewrite_path
  rewrite_path_lem path scopes = by_tail path.tail
    where
      by_local :
          (t : Bool) (q : PathExpr)
          → (if t then q else record q { head = value_name m path.head })
            ≡ record q { head = if t then q.head else value_name m path.head }
      by_local true q = refl
      by_local false q = refl

      by_tail :
          (tail : Option Symbol)
          → elim tail as (λ _. PathExpr) [
            | some variant ↦ record path {
              head = type_name m path.head;
              display_head = shown_as path.display_head path.head;
            }
            | none ↦
                if is_local_name path.head scopes
                then record path { display_head = shown_as path.display_head path.head }
                else record path {
                  head = value_name m path.head;
                  display_head = shown_as path.display_head path.head;
                }
          ]
            ≡ record path {
              head = resolved m tail path.head (names_in scopes);
              display_head = shown_as path.display_head path.head;
            }
      by_tail (some variant) = refl
      by_tail none = rw (is_local_name_lem path.head scopes) (
          by_local (contains path.head (names_in scopes))
            (record path { display_head = shown_as path.display_head path.head }))

  mutual
    unfolding rewrite_expr name_expr

    expr_lem :
        (e : Expr) (scopes : Scopes)
        → rewrite_expr m e scopes ≡ (name_expr m e (names_in scopes), scopes)
    expr_lem (expr node span) scopes = rw (node_lem node scopes) refl

    node_lem :
        (node : Node) (scopes : Scopes)
        → rewrite_node m node scopes ≡ (name_node m node (names_in scopes), scopes)
    node_lem (literal_expr l) scopes = refl
    node_lem (path_expr path) scopes = rw (rewrite_path_lem path scopes) refl
    node_lem (struct_init_expr t d gs fs) scopes = rw (fields_lem fs scopes) refl
    node_lem (generic_app_expr e gs) scopes = rw (expr_lem e scopes) refl
    node_lem (unary_expr op e) scopes = rw (expr_lem e scopes) refl
    node_lem (binary_expr op e f) scopes = rw (expr_lem e scopes, expr_lem f scopes) refl
    node_lem (field_access_expr e s) scopes = rw (expr_lem e scopes) refl
    node_lem (call_expr e es) scopes = rw (expr_lem e scopes, exprs_lem es scopes) refl
    node_lem (decl_expr e) scopes = rw (expr_lem e scopes) refl
    node_lem (runtime_expr b) scopes = rw (block_lem b scopes) refl
    node_lem (block_expr b) scopes = rw (block_lem b scopes) refl
    node_lem (if_expr c b e) scopes =
        rw (expr_lem c scopes, block_lem b scopes, opt_lem e scopes) refl
    node_lem (loop_expr b) scopes = rw (block_lem b scopes) refl
    node_lem (while_expr c b) scopes = rw (expr_lem c scopes, block_lem b scopes) refl
    node_lem (for_expr i c s b) scopes =
        let inner = after_init i [] ∷ scopes in
        let around = after_init-concat i [] (names_in scopes) in
        rw (init_lem i [] scopes, opt_lem c inner, opt_lem s inner, block_lem b inner)
          (rw around refl)
    node_lem (break_expr e) scopes = rw (opt_lem e scopes) refl
    node_lem continue_expr scopes = refl
    node_lem (return_expr e) scopes = rw (opt_lem e scopes) refl

    exprs_lem :
        (es : Exprs) (scopes : Scopes)
        → rewrite_exprs m es scopes ≡ (name_exprs m es (names_in scopes), scopes)
    exprs_lem nil scopes = refl
    exprs_lem (cons e es) scopes = rw (expr_lem e scopes, exprs_lem es scopes) refl

    opt_lem :
        (e : OptExpr) (scopes : Scopes)
        → rewrite_opt m e scopes ≡ (name_opt m e (names_in scopes), scopes)
    opt_lem absent scopes = refl
    opt_lem (present e) scopes = rw (expr_lem e scopes) refl

    fields_lem :
        (fs : StructInitFields) (scopes : Scopes)
        → rewrite_fields m fs scopes ≡ (name_fields m fs (names_in scopes), scopes)
    fields_lem no_fields scopes = refl
    fields_lem (fields (field name e span) fs) scopes =
        rw (expr_lem e scopes, fields_lem fs scopes) refl

    let_lem :
        (s : LetStmt) (scope : List Symbol) (outer : Scopes)
        → rewrite_let m s (scope ∷ outer)
          ≡ (name_let m s (scope ++ names_in outer), after_let s scope ∷ outer)
    let_lem (let_stmt discard name t e span) scope outer =
        rw (expr_lem e (scope ∷ outer), declared_lem discard name scope outer) refl

    init_lem :
        (i : ForInit) (scope : List Symbol) (outer : Scopes)
        → rewrite_for_init m i (scope ∷ outer)
          ≡ (name_init m i (scope ++ names_in outer), after_init i scope ∷ outer)
    init_lem no_init scope outer = refl
    init_lem (init_let s) scope outer = rw (let_lem s scope outer) refl
    init_lem (init_expr e) scope outer = rw (expr_lem e (scope ∷ outer)) refl

    stmt_lem :
        (s : Stmt) (scope : List Symbol) (outer : Scopes)
        → rewrite_stmt m s (scope ∷ outer)
          ≡ (name_stmt m s (scope ++ names_in outer), after_stmt s scope ∷ outer)
    stmt_lem (of_let s) scope outer = rw (let_lem s scope outer) refl
    stmt_lem (expr_stmt e span) scope outer = rw (expr_lem e (scope ∷ outer)) refl

    stmts_lem :
        (ss : Stmts) (scope : List Symbol) (outer : Scopes)
        → rewrite_stmts m ss (scope ∷ outer)
          ≡ (name_stmts m ss (scope ++ names_in outer), after_stmts ss scope ∷ outer)
    stmts_lem no_stmts scope outer = refl
    stmts_lem (stmts s ss) scope outer =
        let around = after_stmt-concat s scope (names_in outer) in
        rw (stmt_lem s scope outer, stmts_lem ss (after_stmt s scope) outer) (rw around refl)

    block_lem :
        (b : BlockExpr) (scopes : Scopes)
        → rewrite_block m b scopes ≡ (name_block m b (names_in scopes), scopes)
    block_lem (block ss t span) scopes =
        let around = after_stmts-concat ss [] (names_in scopes) in
        rw (stmts_lem ss [] scopes, opt_lem t (after_stmts ss [] ∷ scopes)) (rw around refl)

-- The rewriter leaves its scopes as it found them, and names an expression by its lexical scopes alone: every path,
-- type and initializer in it gets the name that the local names around it call for, those of the open scopes and of the
-- bindings before it in the blocks and `for` loops that it stands in.
pub rewrite_expr_lexical :
    (m : ModuleInfo) (e : Expr) (scopes : Scopes)
    → rewrite_expr m e scopes ≡ (name_expr m e (names_in scopes), scopes)
rewrite_expr_lexical m e scopes = expr_lem m e scopes
