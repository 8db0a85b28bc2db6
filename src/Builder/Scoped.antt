-- ===== src/Builder/Scoped.antt =====
-- compiler/cstc_lir_builder/src/builder.cpp: what `lower_expr` takes for granted of typed code: names are bound where
-- they are used, `break` and `continue` stand in a loop, no loop stands in the value of a `break`, no field is moved out of its place, and calls and probes are
-- resolved.
use cicest.Prelude.{◌≡◌, Bool, true, false, List, ◌∷◌, map}
use cicest.Symbol.{Symbol}
use cicest.Tyir.{
  TyExpr, ty_expr, TyNode, TyExprs, OptTyExpr, TyStructInitFields, OptTyForInit, TyStmt, TyStmts,
  TyBlock, TyFnDecl, absent, present, no_fields, fields, no_init, for_init, let_stmt, expr_stmt,
  no_stmts, stmts, block,
}
use cicest.Tyir
use cicest.Builder.Pushes.{opt_pushes}
use cicest.Builder.Frames.{is_in}
use cicest.Builder.Values.{is_move}

abbrev pub declared : Bool → Symbol → List Symbol → List Symbol
declared true name names = names
declared false name names = name ∷ names

abbrev pub after_init : OptTyForInit → List Symbol → List Symbol
after_init no_init names = names
after_init (for_init discard name t e span) names = declared discard name names

abbrev pub after_stmt : TyStmt → List Symbol → List Symbol
after_stmt (let_stmt discard name t e span) names = declared discard name names
after_stmt (expr_stmt e span) names = names

abbrev pub after_stmts : TyStmts → List Symbol → List Symbol
after_stmts no_stmts names = names
after_stmts (stmts s rest) names = after_stmts rest (after_stmt s names)

-- With these names in scope, in a loop or not.
unfoldable mutual
  pub Scoped : List Symbol → Bool → TyExpr → Type 0
  Scoped names lp (ty_expr node t span a) = NodeScoped names lp node

  pub NodeScoped : List Symbol → Bool → TyNode → Type 0
  NodeScoped names lp (TyNode.literal c) = Unit
  NodeScoped names lp (TyNode.local_ref name use_kind) = is_in name names ≡ true
  NodeScoped names lp (TyNode.enum_variant_ref e v) = Unit
  NodeScoped names lp (TyNode.struct_init name gs fs) = FieldsScoped names lp fs
  NodeScoped names lp (TyNode.ty_borrow rhs) = Scoped names lp rhs
  NodeScoped names lp (TyNode.ty_unary op rhs) = Scoped names lp rhs
  NodeScoped names lp (TyNode.ty_binary op lhs rhs) = Scoped names lp lhs × Scoped names lp rhs
  NodeScoped names lp (TyNode.field_access base f use_kind) =
      Scoped names lp base × (is_move use_kind ≡ false)
  NodeScoped names lp (TyNode.ty_call name gs args residue) = ArgsScoped names lp args
  NodeScoped names lp (TyNode.deferred_generic_call name gs args) = true ≡ false
  NodeScoped names lp (TyNode.decl_probe e invalid reason) = true ≡ false
  NodeScoped names lp (TyNode.runtime_block body) = BlockScoped names lp body
  NodeScoped names lp (TyNode.ty_block body) = BlockScoped names lp body
  NodeScoped names lp (TyNode.ty_if c body other) =
      Scoped names lp c × BlockScoped names lp body × OptScoped names lp other
  NodeScoped names lp (TyNode.ty_loop body) = BlockScoped names true body
  NodeScoped names lp (TyNode.ty_while c body) = Scoped names lp c × BlockScoped names true body
  NodeScoped names lp (TyNode.ty_for init c step body) =
      InitScoped names lp init
      × OptScoped (after_init init names) lp c
      × OptScoped (after_init init names) lp step
      × BlockScoped (after_init init names) true body
  NodeScoped names lp (TyNode.ty_break value) =
      (lp ≡ true) × (opt_pushes value ≡ false) × OptScoped names lp value
  NodeScoped names lp TyNode.ty_continue = lp ≡ true
  NodeScoped names lp (TyNode.ty_return value) = OptScoped names lp value

  pub ArgsScoped : List Symbol → Bool → TyExprs → Type 0
  ArgsScoped names lp Tyir.nil = Unit
  ArgsScoped names lp (Tyir.cons e es) = Scoped names lp e × ArgsScoped names lp es

  pub OptScoped : List Symbol → Bool → OptTyExpr → Type 0
  OptScoped names lp absent = Unit
  OptScoped names lp (present e) = Scoped names lp e

  pub FieldsScoped : List Symbol → Bool → TyStructInitFields → Type 0
  FieldsScoped names lp no_fields = Unit
  FieldsScoped names lp (fields name e span fs) = Scoped names lp e × FieldsScoped names lp fs

  pub InitScoped : List Symbol → Bool → OptTyForInit → Type 0
  InitScoped names lp no_init = Unit
  InitScoped names lp (for_init discard name t e span) = Scoped names lp e

  pub StmtScoped : List Symbol → Bool → TyStmt → Type 0
  StmtScoped names lp (let_stmt discard name t e span) = Scoped names lp e
  StmtScoped names lp (expr_stmt e span) = Scoped names lp e

  pub StmtsScoped : List Symbol → Bool → TyStmts → Type 0
  StmtsScoped names lp no_stmts = Unit
  StmtsScoped names lp (stmts s rest) =
      StmtScoped names lp s × StmtsScoped (after_stmt s names) lp rest

  pub BlockScoped : List Symbol → Bool → TyBlock → Type 0
  BlockScoped names lp (block ss tail t span a) =
      StmtsScoped names lp ss × OptScoped (after_stmts ss names) lp tail

abbrev pub FnScoped : TyFnDecl → Type 0
FnScoped f = BlockScoped (map (λ p. p.name) f.params) false f.body
