-- ===== src/Ast.antt =====
-- compiler/cstc_ast/include/cstc_ast/ast.hpp: type references and operators.
pub mod Nodes
pub mod Items
use cicest.Prelude.{Bool, true}
use cicest.Symbol.{Symbol}

pub data TypeKind : Type 0 where
  ref unit num str bool named never : TypeKind

-- `struct TypeRef`: kind, symbol, display_name, pointee, is_runtime, generic_args, requires_ct.
mutual
  pub data TypeRef : Type 0 where
    type_ref : TypeKind → Symbol → Symbol → TypeRefPtr → Bool → TypeRefs → Bool → TypeRef

  pub data TypeRefs : Type 0 where
    nil : TypeRefs
    cons : TypeRef → TypeRefs → TypeRefs

  pub data TypeRefPtr : Type 0 where
    null : TypeRefPtr
    to : TypeRef → TypeRefPtr

abbrev pub is_runtime : TypeRef → Bool
is_runtime (type_ref k s d p r gs c) = r

abbrev pub requires_ct : TypeRef → Bool
requires_ct (type_ref k s d p r gs c) = c

abbrev pub set_is_runtime : TypeRef → TypeRef
set_is_runtime (type_ref k s d p r gs c) = type_ref k s d p true gs c

abbrev pub set_requires_ct : TypeRef → TypeRef
set_requires_ct (type_ref k s d p r gs c) = type_ref k s d p r gs true

pub data UnaryOp : Type 0 where
  borrow negate not : UnaryOp

pub data BinaryOp : Type 0 where
  add sub mul div mod_ eq ne lt le gt ge and_ or_ : BinaryOp
