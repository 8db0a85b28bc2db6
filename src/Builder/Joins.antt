-- ===== src/Builder/Joins.antt =====
-- compiler/cstc_lir_builder/src/builder.cpp: the blocks of an if and of a loop, and the ways out of a block, of a loop
-- and of the function.
use cicest.Prelude.{
  [], sym, append-nil, ℕ, ◌≤◌, ◌<◌, ◌≡◌, refl, ◌∙◌, Bool, true, false, Option, none, some, length,
  arith,
}
use cicest.Span.{SourceSpan}
use cicest.Ty.{Ty}
use cicest.Lir.{LirLocalId, LirBlockId, LirOperand, LirRvalue, LirStmt, LirTerminatorNode}
use cicest.Lir.Place
use cicest.Builder.{
  FnBuilder, LoopContext, next_block, empty_block, alloc_block, set_current_block, seal_block,
  has_predecessor, emit_scope_drops_to_depth,
}
use cicest.Builder.Steps.{
  unit_operand, operand_for_local, result_operand, assign_result, jump_on, end_branch, continue_at,
  alloc_else, leave_to, leave_function, to_slot,
}
use cicest.Builder.Bounds.{OperandIn, ValueIn, NodeIn, SlotIn, Fits, Goes, Calm, Lowers}
use cicest.Builder.Grow.{length-snoc, OperandIn-grow, SlotIn-grow}
use cicest.Builder.Allocs.{alloc_block-Sound, set_current_block-Fits}
use cicest.Builder.Computes.{
  Goes-refl, Goes-trans, Calm-refl, emit_stmt-Calm, operand_for_local-in, seal_block-Goes,
}
use cicest.Builder.Runs.{emit_scope_drops_to_depth-Calm}
use cicest.Builder.Values.{unit-Lowers, result_operand-in, assign_result-Calm, if_live}

pub alloc_block-Calm :
    (b : FnBuilder)
    → Fits b
    → Calm b (alloc_block b) × (next_block b < length (alloc_block b).blocks)
unfolding alloc_block
alloc_block-Calm b h =
    let grown = length-snoc b.blocks (empty_block (next_block b)) in
    (
      record {
        goes = record {
          fits = record {
            sound = alloc_block-Sound b h.sound;
            current_in = let lt = h.current_in in omega (arith, grown, lt);
          };
          grows = record {
            locals_grow = omega arith;
            locals_kept = ([], sym (append-nil b.locals));
            blocks_grow = omega (arith, grown);
            same_loops = refl;
            same_slot = refl;
          };
          same_scope = refl;
        };
        same_end = refl;
      },
      rw grown (omega arith),
    )

-- The id of a block that is there only if `c`.
abbrev pub IdIf : Bool → ℕ → LirBlockId → Type 0
IdIf true nb id = id < nb
IdIf false nb id = Unit

pub alloc_else-Calm :
    (c : Bool) (b : FnBuilder)
    → Fits b
    → Calm b (alloc_else c b) × IdIf c (length (alloc_else c b).blocks) (next_block b)
unfolding alloc_else
alloc_else-Calm true b h = alloc_block-Calm b h
alloc_else-Calm false b h = (Calm-refl b h, tt)

pub set_current_block-Goes :
    (id : LirBlockId) (b : FnBuilder)
    → id < length b.blocks
    → Fits b
    → Goes b (set_current_block id b) × ((set_current_block id b).block_terminated ≡ false)
unfolding set_current_block
set_current_block-Goes id b lt h = (
  record {
    fits = set_current_block-Fits id b lt h.sound;
    grows = record {
      locals_grow = omega arith;
      locals_kept = ([], sym (append-nil b.locals));
      blocks_grow = omega arith;
      same_loops = refl;
      same_slot = refl;
    };
    same_scope = refl;
  },
  refl,
)

-- The end of one block and the start of another.
pub switch_to :
    (node : LirTerminatorNode) (span : SourceSpan) (id : LirBlockId) (b : FnBuilder)
    → b.block_terminated ≡ false
    → NodeIn (length b.locals) (length b.blocks) node
    → id < length b.blocks
    → Fits b
    → Goes b (set_current_block id (seal_block node span b))
      × ((set_current_block id (seal_block node span b)).block_terminated ≡ false)
switch_to node span id b live inside lt h =
    let sealed = seal_block-Goes node span b live inside h in
    let le = sealed.grows.blocks_grow in
    let (moved, on) =
      set_current_block-Goes id (seal_block node span b) (omega (arith, le, lt)) sealed.fits in
    (Goes-trans sealed moved, on)

pub jump_on-Goes :
    (target : LirBlockId) (span : SourceSpan) (b : FnBuilder)
    → target < length b.blocks
    → Fits b
    → Goes b (jump_on target span b)
unfolding jump_on
jump_on-Goes target span b lt h =
    if_live (seal_block (LirTerminatorNode.jump target) span b) (Goes-refl b h)
      (λ live. seal_block-Goes (LirTerminatorNode.jump target) span b live lt h)

pub end_branch-Goes :
    (result : Option LirLocalId) (merge : LirBlockId) (op : LirOperand) (span : SourceSpan)
    (b : FnBuilder)
    → SlotIn (length b.locals) result
    → merge < length b.blocks
    → OperandIn (length b.locals) op
    → Fits b
    → Goes b (end_branch result merge op span b)
unfolding end_branch
end_branch-Goes result merge op span b there lt inside h =
    let b' = assign_result result op span b in
    let set = assign_result-Calm result op span b there inside h in
    let le = set.goes.grows.blocks_grow in
    if_live (seal_block (LirTerminatorNode.jump merge) span b') (Goes-refl b h) (λ live.
      Goes-trans set.goes (
        seal_block-Goes (LirTerminatorNode.jump merge) span b' (set.same_end ∙ live)
          (omega (arith, le, lt)) set.goes.fits))

joined-Lowers :
    (target : LirBlockId) (result : Option LirLocalId) (t : Ty) (b : FnBuilder) (reached : Bool)
    → target < length b.blocks
    → SlotIn (length b.locals) result
    → Fits b
    → Lowers b (elim reached [
      | true ↦ (result_operand result t, set_current_block target b)
      | false ↦ (unit_operand, b)
    ])
joined-Lowers target result t b true lt there h =
    let (moved, on) = set_current_block-Goes target b lt h in
    record {
      goes = moved;
      value_in =
          result_operand-in (length (set_current_block target b).locals) result t
            (SlotIn-grow moved.grows.locals_grow result there);
    }
joined-Lowers target result t b false lt there h = unit-Lowers (Goes-refl b h)

pub continue_at-Lowers :
    (target : LirBlockId) (result : Option LirLocalId) (t : Ty) (b : FnBuilder)
    → target < length b.blocks
    → SlotIn (length b.locals) result
    → Fits b
    → Lowers b (continue_at target result t b)
unfolding continue_at
continue_at-Lowers target result t b lt there h =
    joined-Lowers target result t b (has_predecessor b target) lt there h

pub leave_to-Goes :
    (target : LirBlockId) (ctx : LoopContext) (span : SourceSpan) (b : FnBuilder)
    → target < length b.blocks
    → ctx.preserved_scope_depth ≤ length b.scope
    → b.block_terminated ≡ false
    → Fits b
    → Goes b (leave_to target ctx span b)
unfolding leave_to
leave_to-Goes target ctx span b lt deep live h =
    let dropped = emit_scope_drops_to_depth-Calm ctx.preserved_scope_depth span b deep h in
    let le = dropped.goes.grows.blocks_grow in
    Goes-trans dropped.goes (
      seal_block-Goes (LirTerminatorNode.jump target) span
        (emit_scope_drops_to_depth ctx.preserved_scope_depth span b) (dropped.same_end ∙ live)
        (omega (arith, le, lt)) dropped.goes.fits)

ValueIn-grow : {n m : ℕ} → n ≤ m → (v : Option LirOperand) → ValueIn n v → ValueIn m v
ValueIn-grow le none h = tt
ValueIn-grow le (some op) h = OperandIn-grow le op h

pub leave_function-Goes :
    (value : Option LirOperand) (span : SourceSpan) (b : FnBuilder)
    → ValueIn (length b.locals) value
    → b.block_terminated ≡ false
    → Fits b
    → Goes b (leave_function value span b)
unfolding leave_function
leave_function-Goes value span b inside live h =
    let dropped = emit_scope_drops_to_depth-Calm 0 span b (omega arith) h in
    Goes-trans dropped.goes (
      seal_block-Goes (LirTerminatorNode.return_value value) span
        (emit_scope_drops_to_depth 0 span b) (dropped.same_end ∙ live)
        (ValueIn-grow dropped.goes.grows.locals_grow value inside) dropped.goes.fits)

pub to_slot-Calm :
    (slot : LirLocalId) (op : LirOperand) (span : SourceSpan) (b : FnBuilder)
    → slot < length b.locals
    → OperandIn (length b.locals) op
    → Fits b
    → Calm b (to_slot slot op span b)
unfolding to_slot
to_slot-Calm slot op span b lt inside h =
    emit_stmt-Calm (LirStmt.assign (Place.local slot) (LirRvalue.use_of op) span) b (lt, inside) h

-- Through the return slot.
pub slot_return-Goes :
    (slot : LirLocalId) (t : Ty) (op : LirOperand) (span : SourceSpan) (b : FnBuilder)
    → slot < length b.locals
    → OperandIn (length b.locals) op
    → b.block_terminated ≡ false
    → Fits b
    → Goes b (leave_function (some (operand_for_local slot t)) span (to_slot slot op span b))
slot_return-Goes slot t op span b lt inside live h =
    let set = to_slot-Calm slot op span b lt inside h in
    let le = set.goes.grows.locals_grow in
    Goes-trans set.goes (
      leave_function-Goes (some (operand_for_local slot t)) span (to_slot slot op span b)
        (operand_for_local-in (length (to_slot slot op span b).locals) slot t
          (omega (arith, le, lt)))
        (set.same_end ∙ live) set.goes.fits)

pub plain_return-Goes :
    (unit : Bool) (op : LirOperand) (span : SourceSpan) (b : FnBuilder)
    → OperandIn (length b.locals) op
    → b.block_terminated ≡ false
    → Fits b
    → Goes b
        (elim unit [ true ↦ leave_function none span b | false ↦ leave_function (some op) span b ])
plain_return-Goes true op span b inside live h = leave_function-Goes none span b tt live h
plain_return-Goes false op span b inside live h = leave_function-Goes (some op) span b inside live h
