-- ===== src/Lir.antt =====
-- compiler/cstc_lir/include/cstc_lir/lir.hpp: the nodes of the low-level IR that stand in a basic block.
pub mod Const
pub mod Place
pub mod Operand
mod Examples
use cicest.Prelude.{ℕ, Bool, false, List, [], Option}
use cicest.Span.{SourceSpan}
use cicest.Symbol.{Symbol, invalid_symbol}
use cicest.Ast.{BinaryOp, UnaryOp}
use cicest.Ty.{Ty}

-- Ids are below 2^32.
abbrev pub LirLocalId : Type 0
LirLocalId = ℕ

abbrev pub LirBlockId : Type 0
LirBlockId = ℕ

abbrev pub invalid_local : LirLocalId
invalid_local = 4294967295

pub data LirConstKind : Type 0 where
  num str owned_str bool unit : LirConstKind

pub record LirConst : Type 0 where
  pub kind : LirConstKind
  pub symbol : Symbol
  pub bool_value : Bool

pub data LirPlaceKind : Type 0 where
  local field : LirPlaceKind

pub record LirPlace : Type 0 where
  pub kind : LirPlaceKind
  pub local_id : LirLocalId
  pub field_path : List Symbol

pub data LirOperandKind : Type 0 where
  copy move const : LirOperandKind

pub record LirOperand : Type 0 where
  pub kind : LirOperandKind
  pub place : LirPlace
  pub constant : LirConst

pub record LirStructInitField : Type 0 where
  pub name : Symbol
  pub value : LirOperand

-- `LirRvalue::Node`
pub data LirRvalue : Type 0 where
  use_of : LirOperand → LirRvalue
  borrow : LirPlace → LirRvalue
  binary_op : BinaryOp → LirOperand → LirOperand → LirRvalue
  unary_op : UnaryOp → LirOperand → LirRvalue
  call : Symbol → List LirOperand → LirRvalue
  struct_init : Symbol → List LirStructInitField → LirRvalue
  enum_variant_ref : Symbol → Symbol → LirRvalue

-- `LirStmt::Node`
pub data LirStmt : Type 0 where
  assign : LirPlace → LirRvalue → SourceSpan → LirStmt
  drop_local : LirLocalId → SourceSpan → LirStmt

-- `LirTerminator::Node`
pub data LirTerminatorNode : Type 0 where
  return_value : Option LirOperand → LirTerminatorNode
  jump : LirBlockId → LirTerminatorNode
  switch_bool : LirOperand → LirBlockId → LirBlockId → LirTerminatorNode
  unreachable : LirTerminatorNode

pub record LirTerminator : Type 0 where
  pub node : LirTerminatorNode
  pub span : SourceSpan

pub record LirBasicBlock : Type 0 where
  pub id : LirBlockId
  pub stmts : List LirStmt
  pub terminator : LirTerminator

pub record LirLocalDecl : Type 0 where
  pub id : LirLocalId
  pub type : Ty
  pub debug_name : Option Symbol

pub record LirParam : Type 0 where
  pub local : LirLocalId
  pub name : Symbol
  pub type : Ty
  pub span : SourceSpan

pub record LirFnDef : Type 0 where
  pub name : Symbol
  pub params : List LirParam
  pub return_ty : Ty
  pub locals : List LirLocalDecl
  pub blocks : List LirBasicBlock
  pub span : SourceSpan
