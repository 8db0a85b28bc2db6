-- ===== src/Builder/Seals.antt =====
-- compiler/cstc_lir_builder/src/builder.cpp: statements and terminators that are written keep the builder sound.
use cicest.Prelude.{ℕ, ◌<◌, ◌≡◌, refl, ap, ◌∙◌, Bool, true, false, not, ◌||◌, length, ltb, lt→ltb}
use cicest.Span.{SourceSpan}
use cicest.Lir.{LirBlockId, LirStmt, LirTerminator, LirTerminatorNode, LirBasicBlock}
use cicest.Builder.{
  FnBuilder, push_stmt, emit_stmt, mark_successors, mark_successor, set_terminator,
  write_terminator, seal_block, set_at,
}
use cicest.Builder.Bounds.{StmtIn, NodeIn, BlockIn, Sound, Fits}
use cicest.Builder.Grow.{All-snoc, All-set_at, length-set_at, BlocksNumbered-set_at}
use cicest.Builder.Allocs.{passes}

-- One block is rewritten, in place of itself.
pub edit_block-Sound :
    (b : FnBuilder) (i : ℕ) (f : LirBasicBlock → LirBasicBlock)
    → ((block : LirBasicBlock) → (f block).id ≡ block.id)
    → ((block : LirBasicBlock)
        → BlockIn (length b.locals) (length b.blocks) block
        → BlockIn (length b.locals) (length b.blocks) (f block))
    → Sound b
    → Sound (record b { blocks = set_at i f b.blocks })
edit_block-Sound b i f same keep h =
    let grown : length (set_at i f b.blocks) ≡ length b.blocks = length-set_at i f b.blocks in
    record {
      passed = h.passed;
      local_ids = h.local_ids;
      block_ids = BlocksNumbered-set_at 0 i f b.blocks same h.block_ids;
      blocks_in = rw grown (All-set_at i f b.blocks keep h.blocks_in);
      flags = rw grown h.flags;
      scope_in = h.scope_in;
      frames_in = h.frames_in;
      heights = h.heights;
      loops_in = rw grown h.loops_in;
      slot_in = h.slot_in;
    }

-- An assertion that holds.
pub assert-Sound :
    (b : FnBuilder) (c : Bool)
    → c ≡ true
    → Sound b
    → Sound (record b { failed = b.failed || not c })
assert-Sound b c e h = record {
  passed = passes c h.passed e;
  local_ids = h.local_ids;
  block_ids = h.block_ids;
  blocks_in = h.blocks_in;
  flags = h.flags;
  scope_in = h.scope_in;
  frames_in = h.frames_in;
  heights = h.heights;
  loops_in = h.loops_in;
  slot_in = h.slot_in;
}

pub emit_stmt-Fits :
    (s : LirStmt) (b : FnBuilder) → StmtIn (length b.locals) s → Fits b → Fits (emit_stmt s b)
unfolding emit_stmt
emit_stmt-Fits s b inside h = record {
  sound =
      edit_block-Sound
        (record b { failed = b.failed || not (ltb b.current_block (length b.blocks)) })
        b.current_block (push_stmt s) (λ block. refl)
        (λ block old. (All-snoc (StmtIn (length b.locals)) block.stmts s old.0 inside, old.1))
        (assert-Sound b (ltb b.current_block (length b.blocks))
          (lt→ltb b.current_block (length b.blocks) h.current_in) h.sound);
  current_in = rw (length-set_at b.current_block (push_stmt s) b.blocks) h.current_in;
}

pub mark_successor-Sound :
    (id : LirBlockId) (b : FnBuilder) → id < length b.blocks → Sound b → Sound (mark_successor id b)
mark_successor-Sound id b lt h = record {
  passed =
      passes (ltb id (length b.block_has_predecessor)) h.passed
        (lt→ltb id (length b.block_has_predecessor) (rw h.flags lt));
  local_ids = h.local_ids;
  block_ids = h.block_ids;
  blocks_in = h.blocks_in;
  flags = length-set_at id (λ _. true) b.block_has_predecessor ∙ h.flags;
  scope_in = h.scope_in;
  frames_in = h.frames_in;
  heights = h.heights;
  loops_in = h.loops_in;
  slot_in = h.slot_in;
}

pub mark_successors-Sound :
    (node : LirTerminatorNode) (b : FnBuilder)
    → NodeIn (length b.locals) (length b.blocks) node
    → Sound b
    → Sound (mark_successors node b)
unfolding mark_successors
mark_successors-Sound (LirTerminatorNode.return_value v) b inside h = h
mark_successors-Sound (LirTerminatorNode.jump t) b inside h = mark_successor-Sound t b inside h
mark_successors-Sound (LirTerminatorNode.switch_bool c t f) b inside h =
    mark_successor-Sound f (mark_successor t b) inside.2 (mark_successor-Sound t b inside.1 h)
mark_successors-Sound LirTerminatorNode.unreachable b inside h = h

-- Nothing but the flags and the failure is touched.
pub mark_successors-keeps :
    (node : LirTerminatorNode) (b : FnBuilder)
    → ((mark_successors node b).locals ≡ b.locals)
      × ((mark_successors node b).blocks ≡ b.blocks)
      × ((mark_successors node b).current_block ≡ b.current_block)
      × ((mark_successors node b).scope ≡ b.scope)
      × ((mark_successors node b).loop_stack ≡ b.loop_stack)
      × ((mark_successors node b).return_slot ≡ b.return_slot)
unfolding mark_successors
mark_successors-keeps (LirTerminatorNode.return_value v) b = (refl, refl, refl, refl, refl, refl)
mark_successors-keeps (LirTerminatorNode.jump t) b = (refl, refl, refl, refl, refl, refl)
mark_successors-keeps (LirTerminatorNode.switch_bool c t f) b = (refl, refl, refl, refl, refl, refl)
mark_successors-keeps LirTerminatorNode.unreachable b = (refl, refl, refl, refl, refl, refl)

pub write_terminator-Sound :
    (term : LirTerminator) (b : FnBuilder)
    → NodeIn (length b.locals) (length b.blocks) term.node
    → Sound b
    → Sound (write_terminator term b)
write_terminator-Sound term b inside h =
    let new =
      edit_block-Sound b b.current_block (set_terminator term) (λ block. refl)
        (λ block old. (old.0, inside)) h in
    record {
      passed = new.passed;
      local_ids = new.local_ids;
      block_ids = new.block_ids;
      blocks_in = new.blocks_in;
      flags = new.flags;
      scope_in = new.scope_in;
      frames_in = new.frames_in;
      heights = new.heights;
      loops_in = new.loops_in;
      slot_in = new.slot_in;
    }

pub asserted : SourceSpan → FnBuilder → FnBuilder
asserted span b = record b {
  failed =
      (b.failed || not (ltb b.current_block (length b.blocks))) || not (not b.block_terminated);
}

pub seal_block-Fits :
    (node : LirTerminatorNode) (span : SourceSpan) (b : FnBuilder)
    → b.block_terminated ≡ false
    → NodeIn (length b.locals) (length b.blocks) node
    → Fits b
    → Fits (seal_block node span b)
unfolding seal_block asserted
seal_block-Fits node span b live inside h =
    let a = asserted span b in
    let ok : Sound a =
      assert-Sound (record b { failed = b.failed || not (ltb b.current_block (length b.blocks)) })
        (not b.block_terminated) (ap not live)
        (assert-Sound b (ltb b.current_block (length b.blocks))
          (lt→ltb b.current_block (length b.blocks) h.current_in) h.sound) in
    let m = mark_successors node a in
    let term : LirTerminator = record { node = node; span = span } in
    let (same_locals, same_blocks, same_current, s, lo, r) = mark_successors-keeps node a in
    record {
      sound =
          write_terminator-Sound term m (rw (same_locals, same_blocks) inside)
            (mark_successors-Sound node a inside ok);
      current_in =
          rw
            (
              length-set_at m.current_block (set_terminator term) m.blocks,
              same_blocks,
              same_current,
            )
            h.current_in;
    }

pub seal_block-keeps :
    (node : LirTerminatorNode) (span : SourceSpan) (b : FnBuilder)
    → ((seal_block node span b).locals ≡ b.locals)
      × (length (seal_block node span b).blocks ≡ length b.blocks)
      × ((seal_block node span b).scope ≡ b.scope)
      × ((seal_block node span b).loop_stack ≡ b.loop_stack)
      × ((seal_block node span b).return_slot ≡ b.return_slot)
unfolding seal_block asserted
seal_block-keeps node span b =
    let a = asserted span b in
    let m = mark_successors node a in
    let term : LirTerminator = record { node = node; span = span } in
    let (l, bl, c, s, lo, r) = mark_successors-keeps node a in
    (l, length-set_at m.current_block (set_terminator term) m.blocks ∙ ap length bl, s, lo, r)
