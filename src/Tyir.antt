-- ===== src/Tyir.antt =====
-- compiler/cstc_tyir/include/cstc_tyir/tyir.hpp: typed expressions, statements, blocks and functions.
-- A vector or an optional that holds expressions is a data type of its own, since it is part of their recursion. A
-- pointer to an expression or a block is never null here.
use cicest.Prelude.{Bool, List, Option, Bytes}
use cicest.Span.{SourceSpan}
use cicest.Symbol.{Symbol}
use cicest.Ast.{UnaryOp, BinaryOp}
use cicest.Ty.{Ty, Tys}
use cicest.Availability.{Availability}
use cicest.Availability.Residue.{CallResidue}

-- How an expression uses a local or a field.
pub data ValueUseKind : Type 0 where
  copy move borrow : ValueUseKind

pub data TyLiteralKind : Type 0 where
  num str owned_str bool unit : TyLiteralKind

pub record TyLiteral : Type 0 where
  pub kind : TyLiteralKind
  pub symbol : Symbol
  pub bool_value : Bool

mutual
  -- `struct TyExpr`: node, ty, span, availability.
  pub data TyExpr : Type 0 where
    ty_expr : TyNode → Ty → SourceSpan → Availability → TyExpr

  -- `TyExpr::Node`, with the fields of its alternatives in order.
  pub data TyNode : Type 0 where
    literal : TyLiteral → TyNode
    local_ref : Symbol → ValueUseKind → TyNode
    enum_variant_ref : Symbol → Symbol → TyNode
    struct_init : Symbol → Tys → TyStructInitFields → TyNode
    ty_borrow : TyExpr → TyNode
    ty_unary : UnaryOp → TyExpr → TyNode
    ty_binary : BinaryOp → TyExpr → TyExpr → TyNode
    field_access : TyExpr → Symbol → ValueUseKind → TyNode
    ty_call : Symbol → Tys → TyExprs → CallResidue → TyNode
    deferred_generic_call : Symbol → List (Option Ty) → TyExprs → TyNode
    decl_probe : OptTyExpr → Bool → Option Bytes → TyNode
    runtime_block : TyBlock → TyNode
    ty_block : TyBlock → TyNode
    ty_if : TyExpr → TyBlock → OptTyExpr → TyNode
    ty_loop : TyBlock → TyNode
    ty_while : TyExpr → TyBlock → TyNode
    ty_for : OptTyForInit → OptTyExpr → OptTyExpr → TyBlock → TyNode
    ty_break : OptTyExpr → TyNode
    ty_continue : TyNode
    ty_return : OptTyExpr → TyNode

  pub data TyExprs : Type 0 where
    nil : TyExprs
    cons : TyExpr → TyExprs → TyExprs

  pub data OptTyExpr : Type 0 where
    absent : OptTyExpr
    present : TyExpr → OptTyExpr

  -- A list of `TyStructInitField`: name, value, span.
  pub data TyStructInitFields : Type 0 where
    no_fields : TyStructInitFields
    fields : Symbol → TyExpr → SourceSpan → TyStructInitFields → TyStructInitFields

  -- `std::optional<TyForInit>`: discard, name, ty, init, span.
  pub data OptTyForInit : Type 0 where
    no_init : OptTyForInit
    for_init : Bool → Symbol → Ty → TyExpr → SourceSpan → OptTyForInit

  -- `TyLetStmt`: discard, name, ty, init, span; `TyExprStmt`: expr, span.
  pub data TyStmt : Type 0 where
    let_stmt : Bool → Symbol → Ty → TyExpr → SourceSpan → TyStmt
    expr_stmt : TyExpr → SourceSpan → TyStmt

  pub data TyStmts : Type 0 where
    no_stmts : TyStmts
    stmts : TyStmt → TyStmts → TyStmts

  -- `struct TyBlock`: stmts, tail, ty, span, availability.
  pub data TyBlock : Type 0 where
    block : TyStmts → OptTyExpr → Ty → SourceSpan → Availability → TyBlock

abbrev pub expr_ty : TyExpr → Ty
expr_ty (ty_expr n t s a) = t

abbrev pub expr_span : TyExpr → SourceSpan
expr_span (ty_expr n t s a) = s

pub data ParamRequirement : Type 0 where
  runtime_allowed ct_required : ParamRequirement

pub record TyParam : Type 0 where
  pub name : Symbol
  pub type : Ty
  pub span : SourceSpan
  pub requirement : ParamRequirement

-- The members of `TyFnDecl` that the lowering to the low-level IR reads.
pub record TyFnDecl : Type 0 where
  pub name : Symbol
  pub params : List TyParam
  pub return_ty : Ty
  pub body : TyBlock
  pub span : SourceSpan
