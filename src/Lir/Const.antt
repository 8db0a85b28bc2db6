-- ===== src/Lir/Const.antt =====
-- compiler/cstc_lir/include/cstc_lir/lir.hpp: `LirConst`, its factories, its type and its text.
use cicest.Prelude.{
  Bool, true, false, ◌&&◌, ◌++◌, leb, ◌==◌, if◌then◌else◌, length, get_or, ◌-◌, Bytes, bytes,
}
use cicest.Symbol.{Symbol, SymbolTable, invalid_symbol, is_valid, resolve}
use cicest.Ty.{Ty, ty, move}
use cicest.Ty.Factory
use cicest.Lir.{LirConst, LirConstKind}

abbrev pub num : Symbol → LirConst
num sym = record { kind = LirConstKind.num; symbol = sym; bool_value = false }

abbrev pub str : Symbol → LirConst
str sym = record { kind = LirConstKind.str; symbol = sym; bool_value = false }

abbrev pub owned_str : Symbol → LirConst
owned_str sym = record { kind = LirConstKind.owned_str; symbol = sym; bool_value = false }

abbrev pub bool : Bool → LirConst
bool value = record { kind = LirConstKind.bool; symbol = invalid_symbol; bool_value = value }

abbrev pub unit : LirConst
unit = record { kind = LirConstKind.unit; symbol = invalid_symbol; bool_value = false }

abbrev pub kind_ty : LirConstKind → Ty
kind_ty LirConstKind.num = Factory.num false
kind_ty LirConstKind.str = Factory.ref (Factory.str false) false
kind_ty LirConstKind.owned_str = Factory.str false
kind_ty LirConstKind.bool = Factory.bool false
kind_ty LirConstKind.unit = Factory.unit false

-- `LirConst::ty`
abbrev pub const_ty : LirConst → Ty
const_ty c = kind_ty c.kind

-- A text in quotes, which are put around it where it has none.
unfoldable pub quoted : Bytes → Bytes
quoted text =
    if leb 2 (length text) && get_or text 0 0 == b'"' && get_or text (length text - 1) 0 == b'"'
    then text
    else bytes "\"" ++ text ++ bytes "\""

abbrev pub text_or : SymbolTable → Symbol → Bytes → Bytes
text_or table s other = if is_valid s then resolve table s else other

unfoldable pub display : SymbolTable → LirConst → Bytes
unfolding quoted
display table c = elim c.kind [
  | LirConstKind.num ↦ text_or table c.symbol (bytes "<num>")
  | LirConstKind.str ↦ quoted (text_or table c.symbol (bytes "<invalid-symbol>"))
  | LirConstKind.owned_str ↦
      bytes "owned " ++ quoted (text_or table c.symbol (bytes "<invalid-symbol>"))
  | LirConstKind.bool ↦ if c.bool_value then bytes "true" else bytes "false"
  | LirConstKind.unit ↦ bytes "()"
]

abbrev pub is_move_only : Ty → Bool
is_move_only (ty k n d gs p move r) = true
is_move_only (ty k n d gs p _ r) = false
