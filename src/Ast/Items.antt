-- ===== src/Ast/Items.antt =====
-- compiler/cstc_ast/include/cstc_ast/ast.hpp: declarations.
use cicest.Prelude.{Bool, List, Option}
use cicest.Span.{SourceSpan}
use cicest.Symbol.{Symbol}
use cicest.Ast.{TypeRef}
use cicest.Ast.Nodes.{Expr, BlockExpr}

pub record GenericParam : Type 0 where
  pub name : Symbol
  pub span : SourceSpan

pub record GenericConstraint : Type 0 where
  pub expr : Expr
  pub span : SourceSpan

pub record Attribute : Type 0 where
  pub name : Symbol
  pub value : Option Symbol
  pub span : SourceSpan

pub record FieldDecl : Type 0 where
  pub name : Symbol
  pub type : TypeRef
  pub span : SourceSpan

pub record StructDecl : Type 0 where
  pub is_public : Bool
  pub name : Symbol
  pub display_name : Symbol
  pub fields : List FieldDecl
  pub is_zst : Bool
  pub span : SourceSpan
  pub attributes : List Attribute
  pub generic_params : List GenericParam
  pub where_clause : List GenericConstraint

pub record EnumVariant : Type 0 where
  pub name : Symbol
  pub discriminant : Option Symbol
  pub span : SourceSpan

pub record EnumDecl : Type 0 where
  pub is_public : Bool
  pub name : Symbol
  pub display_name : Symbol
  pub variants : List EnumVariant
  pub span : SourceSpan
  pub attributes : List Attribute
  pub generic_params : List GenericParam
  pub where_clause : List GenericConstraint

pub record Param : Type 0 where
  pub name : Symbol
  pub type : TypeRef
  pub span : SourceSpan

pub record FnDecl : Type 0 where
  pub is_public : Bool
  pub name : Symbol
  pub display_name : Symbol
  pub params : List Param
  pub return_type : Option TypeRef
  pub body : BlockExpr
  pub span : SourceSpan
  pub attributes : List Attribute
  pub is_runtime : Bool
  pub generic_params : List GenericParam
  pub where_clause : List GenericConstraint

pub record ExternFnDecl : Type 0 where
  pub is_public : Bool
  pub abi : Symbol
  pub name : Symbol
  pub display_name : Symbol
  pub params : List Param
  pub return_type : Option TypeRef
  pub span : SourceSpan
  pub attributes : List Attribute
  pub is_runtime : Bool

pub record ExternStructDecl : Type 0 where
  pub is_public : Bool
  pub abi : Symbol
  pub name : Symbol
  pub display_name : Symbol
  pub span : SourceSpan
  pub attributes : List Attribute

pub record ImportItem : Type 0 where
  pub name : Symbol
  pub alias : Option Symbol
  pub span : SourceSpan

pub record ImportDecl : Type 0 where
  pub is_public : Bool
  pub items : List ImportItem
  pub path : Symbol
  pub span : SourceSpan

-- `Item`
pub data Item : Type 0 where
  of_struct : StructDecl → Item
  of_enum : EnumDecl → Item
  of_fn : FnDecl → Item
  of_extern_fn : ExternFnDecl → Item
  of_extern_struct : ExternStructDecl → Item
  of_import : ImportDecl → Item

pub record Program : Type 0 where
  pub items : List Item
