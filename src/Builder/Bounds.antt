-- ===== src/Builder/Bounds.antt =====
-- compiler/cstc_lir_builder/src/builder.cpp: the ids in what is built name locals and blocks that are there.
use cicest.Prelude.{
  ℕ, suc, ◌≤◌, ◌<◌, ◌≡◌, ◌⊎◌, false, List, [], ◌∷◌, ◌++◌, Option, none, some, All, length,
}
use cicest.Symbol.{to_uint32}
use cicest.Lir.{
  LirOperandKind, LirOperand, LirStructInitField, LirRvalue, LirStmt, LirTerminatorNode,
  LirBasicBlock, LirLocalDecl, LirLocalId, invalid_local,
}
use cicest.Builder.{FnBuilder, LoopContext, Bindings}

abbrev KindIn : ℕ → LirOperandKind → LirLocalId → Type 0
KindIn nl LirOperandKind.const id = Unit
KindIn nl _ id = id < nl

-- Below, `nl` is the number of locals and `nb` that of blocks.
abbrev pub OperandIn : ℕ → LirOperand → Type 0
OperandIn nl op = KindIn nl op.kind op.place.local_id

abbrev pub FieldIn : ℕ → LirStructInitField → Type 0
FieldIn nl f = OperandIn nl f.value

abbrev pub RvalueIn : ℕ → LirRvalue → Type 0
RvalueIn nl (LirRvalue.use_of op) = OperandIn nl op
RvalueIn nl (LirRvalue.borrow place) = place.local_id < nl
RvalueIn nl (LirRvalue.binary_op o a b) = OperandIn nl a × OperandIn nl b
RvalueIn nl (LirRvalue.unary_op o a) = OperandIn nl a
RvalueIn nl (LirRvalue.call name ops) = All (OperandIn nl) ops
RvalueIn nl (LirRvalue.struct_init name fs) = All (FieldIn nl) fs
RvalueIn nl (LirRvalue.enum_variant_ref e v) = Unit

abbrev pub StmtIn : ℕ → LirStmt → Type 0
StmtIn nl (LirStmt.assign place rhs s) = (place.local_id < nl) × RvalueIn nl rhs
StmtIn nl (LirStmt.drop_local id s) = id < nl

abbrev pub ValueIn : ℕ → Option LirOperand → Type 0
ValueIn nl none = Unit
ValueIn nl (some op) = OperandIn nl op

abbrev pub NodeIn : ℕ → ℕ → LirTerminatorNode → Type 0
NodeIn nl nb (LirTerminatorNode.return_value v) = ValueIn nl v
NodeIn nl nb (LirTerminatorNode.jump t) = t < nb
NodeIn nl nb (LirTerminatorNode.switch_bool c t f) = OperandIn nl c × (t < nb) × (f < nb)
NodeIn nl nb LirTerminatorNode.unreachable = Unit

abbrev pub BlockIn : ℕ → ℕ → LirBasicBlock → Type 0
BlockIn nl nb block = All (StmtIn nl) block.stmts × NodeIn nl nb block.terminator.node

abbrev pub LocalsNumbered : ℕ → List LirLocalDecl → Type 0
LocalsNumbered k [] = Unit
LocalsNumbered k (d ∷ ds) = (d.id ≡ to_uint32 k) × LocalsNumbered (suc k) ds

abbrev pub BlocksNumbered : ℕ → List LirBasicBlock → Type 0
BlocksNumbered k [] = Unit
BlocksNumbered k (b ∷ bs) = (b.id ≡ to_uint32 k) × BlocksNumbered (suc k) bs

abbrev pub LoopIn : ℕ → ℕ → ℕ → LoopContext → Type 0
LoopIn nl nb depth ctx =
    (ctx.continue_target < nb)
    × (ctx.break_target < nb)
    × ((ctx.break_value_local ≡ invalid_local) ⊎ (ctx.break_value_local < nl))
    × (ctx.preserved_scope_depth ≤ depth)

abbrev pub SlotIn : ℕ → Option LirLocalId → Type 0
SlotIn nl none = Unit
SlotIn nl (some id) = id < nl

abbrev pub BindingsIn : ℕ → Bindings → Type 0
BindingsIn nl = All (λ b. b.1 < nl)

abbrev pub FrameIn : ℕ → List LirLocalId → Type 0
FrameIn nl = All (λ id. id < nl)

-- What holds of the builder but for its current block.
pub record Sound (b : FnBuilder) : Type 0 where
  pub passed : b.failed ≡ false
  pub local_ids : LocalsNumbered 0 b.locals
  pub block_ids : BlocksNumbered 0 b.blocks
  pub blocks_in : All (BlockIn (length b.locals) (length b.blocks)) b.blocks
  pub flags : length b.block_has_predecessor ≡ length b.blocks
  pub scope_in : All (BindingsIn (length b.locals)) b.scope
  pub frames_in : All (FrameIn (length b.locals)) b.scope_locals
  pub heights : length b.scope_locals ≡ length b.scope
  pub loops_in : All (LoopIn (length b.locals) (length b.blocks) (length b.scope)) b.loop_stack
  pub slot_in : SlotIn (length b.locals) b.return_slot

-- Every id of the builder is in range, and no assertion has failed.
pub record Fits (b : FnBuilder) : Type 0 where
  pub sound : Sound b
  pub current_in : b.current_block < length b.blocks

-- The locals `ms` are the locals `ls`, as they are, with others behind them.
abbrev pub Extends : List LirLocalDecl → List LirLocalDecl → Type 0
Extends ls ms = (ds : List LirLocalDecl) × (ms ≡ ls ++ ds)

-- What a step of the lowering keeps of the builder, but for its scopes.
pub record Grows (b b' : FnBuilder) : Type 0 where
  pub locals_grow : length b.locals ≤ length b'.locals
  pub locals_kept : Extends b.locals b'.locals
  pub blocks_grow : length b.blocks ≤ length b'.blocks
  pub same_loops : b'.loop_stack ≡ b.loop_stack
  pub same_slot : b'.return_slot ≡ b.return_slot

-- A step that leaves every scope's bindings as they were.
pub record Goes (b b' : FnBuilder) : Type 0 where
  pub fits : Fits b'
  pub grows : Grows b b'
  pub same_scope : b'.scope ≡ b.scope

-- A step that neither ends the current block nor starts another.
pub record Calm (b b' : FnBuilder) : Type 0 where
  pub goes : Goes b b'
  pub same_end : b'.block_terminated ≡ b.block_terminated

-- A step that also computes a value.
pub record Lowers (b : FnBuilder) (r : LirOperand × FnBuilder) : Type 0 where
  pub goes : Goes b r.1
  pub value_in : OperandIn (length r.1.locals) r.0
