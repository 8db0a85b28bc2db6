-- ===== src/Lir/Operand.antt =====
-- compiler/cstc_lir/include/cstc_lir/lir.hpp: the factories of `LirOperand`.
use cicest.Prelude.{[]}
use cicest.Lir.{LirOperand, LirOperandKind, LirPlace, LirPlaceKind, LirConst, invalid_local}
use cicest.Lir.Const.{unit}

-- The default members.
abbrev pub no_place : LirPlace
no_place = record { kind = LirPlaceKind.local; local_id = invalid_local; field_path = [] }

abbrev pub copy : LirPlace → LirOperand
copy place = record { kind = LirOperandKind.copy; place = place; constant = unit }

abbrev pub move : LirPlace → LirOperand
move place = record { kind = LirOperandKind.move; place = place; constant = unit }

abbrev pub from_const : LirConst → LirOperand
from_const constant = record { kind = LirOperandKind.const; place = no_place; constant = constant }
