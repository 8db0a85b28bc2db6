-- ===== src/Builder/Steps.antt =====
-- compiler/cstc_lir_builder/src/builder.cpp: the operands, and the parts of `lower_expr` and `lower_block` that stand
-- between the lowerings of subexpressions.
use cicest.Prelude.{Bool, true, false, not, ◌&&◌, List, Option, none, some, get_elem?}
use cicest.Span.{SourceSpan}
use cicest.Symbol.{Symbol}
use cicest.Ty.{Ty, ty, TyKind, is_never}
use cicest.Tyir.{TyExpr, ty_expr, TyNode, TyLiteral, TyLiteralKind, ValueUseKind}
use cicest.Lir.{
  LirLocalId, LirBlockId, LirConst, LirPlace, LirPlaceKind, LirOperand, LirRvalue, LirStmt,
  LirTerminatorNode, invalid_local,
}
use cicest.Lir.Const
use cicest.Lir.Const.{is_move_only}
use cicest.Lir.Operand
use cicest.Lir.Operand.{no_place}
use cicest.Lir.Place
use cicest.Lir.Place.{project}
use cicest.Builder.{
  FnBuilder, LoopContext, next_local, alloc_local, alloc_block, set_current_block, has_predecessor,
  emit_stmt, seal_block, pop_scope, bind, lookup, emit_scope_drops_to_depth,
  emit_current_scope_drops,
}

abbrev pub is_unit : Ty → Bool
is_unit (ty TyKind.unit n d gs p s r) = true
is_unit (ty _ n d gs p s r) = false

abbrev pub operand_for_local : LirLocalId → Ty → LirOperand
operand_for_local id t = elim (is_move_only t) [
  | true ↦ Operand.move (Place.local id)
  | false ↦ Operand.copy (Place.local id)
]

abbrev pub unit_operand : LirOperand
unit_operand = Operand.from_const Const.unit

abbrev pub fail : FnBuilder → FnBuilder
fail b = record b { failed = true }

abbrev pub is_local : LirPlaceKind → Bool
is_local LirPlaceKind.local = true
is_local LirPlaceKind.field = false

-- A move from a projected place aborts.
unfoldable pub operand_for_place : FnBuilder → LirPlace → ValueUseKind → LirOperand × FnBuilder
operand_for_place b place ValueUseKind.move = elim (is_local place.kind) [
  | true ↦ (Operand.move place, b)
  | false ↦ (Operand.move place, fail b)
]
operand_for_place b place _ = (Operand.copy place, b)

-- A new local that is assigned the value.
unfoldable pub assign_new : FnBuilder → Ty → Option Symbol → LirRvalue → SourceSpan → FnBuilder
unfolding alloc_local emit_stmt
assign_new b t name rhs span =
    emit_stmt (LirStmt.assign (Place.local (next_local b)) rhs span) (alloc_local b t name)

-- The value of a compound expression in a new local.
unfoldable pub compute : FnBuilder → Ty → LirRvalue → SourceSpan → LirOperand × FnBuilder
unfolding assign_new
compute b t rhs span = (operand_for_local (next_local b) t, assign_new b t none rhs span)

-- `lower_borrow_place`: nothing for an expression that is no place, or the place and whether its name is bound.
unfoldable mutual
  unfolding lookup project

  pub lower_borrow_place : FnBuilder → TyExpr → Option (LirPlace × FnBuilder)
  lower_borrow_place b (ty_expr node t s a) = borrow_place b node

  pub borrow_place : FnBuilder → TyNode → Option (LirPlace × FnBuilder)
  borrow_place b (TyNode.local_ref name use_kind) = elim (lookup name b.scope) [
    | some id ↦ some (Place.local id, b)
    | none ↦ some (Place.local invalid_local, fail b)
  ]
  borrow_place b (TyNode.field_access base field use_kind) = elim (lower_borrow_place b base) [
    | none ↦ none
    | some (place, b') ↦ some (project place field, b')
  ]
  borrow_place b _ = none

abbrev pub literal_const : TyLiteral → LirConst
literal_const c = elim c.kind [
  | TyLiteralKind.num ↦ Const.num c.symbol
  | TyLiteralKind.str ↦ Const.str c.symbol
  | TyLiteralKind.owned_str ↦ Const.owned_str c.symbol
  | TyLiteralKind.bool ↦ Const.bool c.bool_value
  | TyLiteralKind.unit ↦ Const.unit
]

unfoldable pub lower_local : FnBuilder → Symbol → ValueUseKind → LirOperand × FnBuilder
unfolding lookup operand_for_place
lower_local b name use_kind = elim (lookup name b.scope) [
  | some id ↦ operand_for_place b (Place.local id) use_kind
  | none ↦ operand_for_place (fail b) (Place.local invalid_local) use_kind
]

-- A field is read into a new local.
unfoldable pub read_field :
    FnBuilder → LirPlace → ValueUseKind → Ty → SourceSpan → LirOperand × FnBuilder
unfolding operand_for_place compute
read_field b place use_kind t span =
    let (op, b1) = operand_for_place b place use_kind in compute b1 t (LirRvalue.use_of op) span

unfoldable pub has_value : Ty → Bool
unfolding is_never
has_value t = not (is_unit t) && not (is_never t)

-- The `result_local` of a block, an if or a loop, where its type has values.
unfoldable pub result_local : FnBuilder → Ty → Option LirLocalId
unfolding is_never
result_local b t = elim (has_value t) [ true ↦ some (next_local b) | false ↦ none ]

unfoldable pub alloc_result : FnBuilder → Ty → FnBuilder
unfolding is_never alloc_local
alloc_result b t = elim (has_value t) [ true ↦ alloc_local b t none | false ↦ b ]

abbrev pub result_operand : Option LirLocalId → Ty → LirOperand
result_operand (some id) t = operand_for_local id t
result_operand none t = unit_operand

unfoldable pub assign_result : Option LirLocalId → LirOperand → SourceSpan → FnBuilder → FnBuilder
unfolding emit_stmt
assign_result (some id) op span b =
    emit_stmt (LirStmt.assign (Place.local id) (LirRvalue.use_of op) span) b
assign_result none op span b = b

-- A jump from where control can go on.
unfoldable pub jump_on : LirBlockId → SourceSpan → FnBuilder → FnBuilder
unfolding seal_block
jump_on target span b = elim b.block_terminated [
  | true ↦ b
  | false ↦ seal_block (LirTerminatorNode.jump target) span b
]

-- The end of a branch of an if.
unfoldable pub end_branch :
    Option LirLocalId → LirBlockId → LirOperand → SourceSpan → FnBuilder → FnBuilder
unfolding assign_result seal_block
end_branch result merge op span b = elim b.block_terminated [
  | true ↦ b
  | false ↦ seal_block (LirTerminatorNode.jump merge) span (assign_result result op span b)
]

-- On to a block that control joins in, where a jump leads to it.
unfoldable pub continue_at :
    LirBlockId → Option LirLocalId → Ty → FnBuilder → LirOperand × FnBuilder
unfolding set_current_block
continue_at target result t b = elim (has_predecessor b target) [
  | true ↦ (result_operand result t, set_current_block target b)
  | false ↦ (unit_operand, b)
]

-- What stands behind the arguments of a call.
unfoldable pub lower_call :
    FnBuilder → Symbol → List LirOperand → Ty → SourceSpan → LirOperand × FnBuilder
unfolding compute assign_new is_never seal_block
lower_call b name ops t span =
    let rhs = LirRvalue.call name ops in
    elim (is_never t) [
      | true ↦ (
        unit_operand,
        seal_block LirTerminatorNode.unreachable span (assign_new b t none rhs span),
      )
      | false ↦ elim (is_unit t) [
        | true ↦ (unit_operand, assign_new b t none rhs span)
        | false ↦ compute b t rhs span
      ]
    ]

unfoldable pub finish_runtime : FnBuilder → LirOperand → Ty → SourceSpan → LirOperand × FnBuilder
unfolding compute is_never
finish_runtime b op t span = elim (has_value t) [
  | true ↦ compute b t (LirRvalue.use_of op) span
  | false ↦ (op, b)
]

-- A `let` or the init clause of a `for`, behind its initialiser.
unfoldable pub bind_local : FnBuilder → Bool → Symbol → Ty → LirOperand → SourceSpan → FnBuilder
unfolding assign_new bind
bind_local b true name t op span = b
bind_local b false name t op span =
    bind name (next_local b) (assign_new b t (some name) (LirRvalue.use_of op) span)

unfoldable pub alloc_else : Bool → FnBuilder → FnBuilder
unfolding alloc_block
alloc_else true b = alloc_block b
alloc_else false b = b

-- The jump out of a loop or back to it, with the drops of the scopes that are left.
unfoldable pub leave_to : LirBlockId → LoopContext → SourceSpan → FnBuilder → FnBuilder
unfolding emit_scope_drops_to_depth seal_block
leave_to target ctx span b =
    seal_block (LirTerminatorNode.jump target) span
      (emit_scope_drops_to_depth ctx.preserved_scope_depth span b)

unfoldable pub leave_function : Option LirOperand → SourceSpan → FnBuilder → FnBuilder
unfolding emit_scope_drops_to_depth seal_block
leave_function value span b =
    seal_block (LirTerminatorNode.return_value value) span (emit_scope_drops_to_depth 0 span b)

unfoldable pub to_slot : LirLocalId → LirOperand → SourceSpan → FnBuilder → FnBuilder
unfolding emit_stmt
to_slot slot op span b = emit_stmt (LirStmt.assign (Place.local slot) (LirRvalue.use_of op) span) b

-- A return behind its value, of type `t`.
unfoldable pub return_with : FnBuilder → LirOperand → Ty → SourceSpan → FnBuilder
unfolding emit_stmt leave_function
return_with b op t span = elim b.return_slot [
  | some slot ↦ elim (get_elem? b.locals slot) [
    | some decl ↦
        leave_function (some (operand_for_local slot decl.type)) span (to_slot slot op span b)
    | none ↦ fail b
  ]
  | none ↦ elim (is_unit t) [
    | true ↦ leave_function none span b
    | false ↦ leave_function (some op) span b
  ]
]

-- The end of a block: the value is kept in the result local before the locals of the block are dropped.
unfoldable pub close_block : SourceSpan → FnBuilder → FnBuilder
unfolding emit_current_scope_drops pop_scope
close_block span b = elim b.block_terminated [
  | true ↦ pop_scope b
  | false ↦ pop_scope (emit_current_scope_drops span b)
]

unfoldable pub block_value : Option LirLocalId → Ty → FnBuilder → LirOperand × FnBuilder
block_value result t b = elim b.block_terminated [
  | true ↦ (unit_operand, b)
  | false ↦ (result_operand result t, b)
]

unfoldable pub assign_live : Option LirLocalId → LirOperand → SourceSpan → FnBuilder → FnBuilder
unfolding assign_result
assign_live result op span b = elim b.block_terminated [
  | true ↦ b
  | false ↦ assign_result result op span b
]
