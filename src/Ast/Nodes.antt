-- ===== src/Ast/Nodes.antt =====
-- compiler/cstc_ast/include/cstc_ast/ast.hpp: expressions, blocks and statements.
use cicest.Prelude.{Bool, List, [], ◌∷◌, Option}
use cicest.Span.{SourceSpan}
use cicest.Symbol.{Symbol}
use cicest.Ast.{TypeRef, TypeRefs, UnaryOp, BinaryOp}

pub data LiteralKind : Type 0 where
  num str bool unit : LiteralKind

pub record LiteralExpr : Type 0 where
  pub kind : LiteralKind
  pub symbol : Symbol
  pub bool_value : Bool

pub record PathExpr : Type 0 where
  pub head : Symbol
  pub tail : Option Symbol
  pub display_head : Symbol
  pub generic_args : TypeRefs

mutual
  -- `struct Expr`: the node and its span.
  pub data Expr : Type 0 where
    expr : Node → SourceSpan → Expr

  -- `Expr::Node`, with the fields of its alternatives in order.
  pub data Node : Type 0 where
    literal_expr : LiteralExpr → Node
    path_expr : PathExpr → Node
    struct_init_expr : Symbol → Symbol → TypeRefs → StructInitFields → Node
    generic_app_expr : Expr → TypeRefs → Node
    unary_expr : UnaryOp → Expr → Node
    binary_expr : BinaryOp → Expr → Expr → Node
    field_access_expr : Expr → Symbol → Node
    call_expr : Expr → Exprs → Node
    decl_expr : Expr → Node
    runtime_expr : BlockExpr → Node
    block_expr : BlockExpr → Node
    if_expr : Expr → BlockExpr → OptExpr → Node
    loop_expr : BlockExpr → Node
    while_expr : Expr → BlockExpr → Node
    for_expr : ForInit → OptExpr → OptExpr → BlockExpr → Node
    break_expr : OptExpr → Node
    continue_expr : Node
    return_expr : OptExpr → Node

  pub data Exprs : Type 0 where
    nil : Exprs
    cons : Expr → Exprs → Exprs

  pub data OptExpr : Type 0 where
    absent : OptExpr
    present : Expr → OptExpr

  pub data StructInitField : Type 0 where
    field : Symbol → Expr → SourceSpan → StructInitField

  pub data StructInitFields : Type 0 where
    no_fields : StructInitFields
    fields : StructInitField → StructInitFields → StructInitFields

  -- discard, name, type_annotation, initializer and span, as in `ForInitLet`.
  pub data LetStmt : Type 0 where
    let_stmt : Bool → Symbol → Option TypeRef → Expr → SourceSpan → LetStmt

  pub data ForInit : Type 0 where
    no_init : ForInit
    init_let : LetStmt → ForInit
    init_expr : Expr → ForInit

  -- `Stmt`: a `LetStmt` or an `ExprStmt`.
  pub data Stmt : Type 0 where
    of_let : LetStmt → Stmt
    expr_stmt : Expr → SourceSpan → Stmt

  pub data Stmts : Type 0 where
    no_stmts : Stmts
    stmts : Stmt → Stmts → Stmts

  -- statements, tail and span
  pub data BlockExpr : Type 0 where
    block : Stmts → OptExpr → SourceSpan → BlockExpr

abbrev pub make_expr : SourceSpan → Node → Expr
make_expr span node = expr node span

abbrev pub expr_span : Expr → SourceSpan
expr_span (expr node span) = span

abbrev pub expr_node : Expr → Node
expr_node (expr node span) = node

abbrev pub block_span : BlockExpr → SourceSpan
block_span (block ss t span) = span

-- The vectors of the tree, from the lists that loops build.
abbrev pub exprs_of : List Expr → Exprs
exprs_of [] = nil
exprs_of (e ∷ es) = cons e (exprs_of es)

abbrev pub fields_of : List StructInitField → StructInitFields
fields_of [] = no_fields
fields_of (f ∷ fs) = fields f (fields_of fs)

abbrev pub stmts_of : List Stmt → Stmts
stmts_of [] = no_stmts
stmts_of (s ∷ ss) = stmts s (stmts_of ss)

abbrev pub field_name : StructInitField → Symbol
field_name (field name value span) = name
