-- ===== src/Builder/Allocs.antt =====
-- compiler/cstc_lir_builder/src/builder.cpp: the allocation of locals and blocks keeps the builder sound.
use cicest.Prelude.{
  ℕ, suc, ◌≤◌, ◌<◌, ◌≡◌, refl, ap, ◌∙◌, Bool, true, false, not, ◌||◌, List, [], ◌∷◌, ◌++◌, Option,
  All, length, ltb, arith, lt→ltb,
}
use cicest.Symbol.{Symbol}
use cicest.Ty.{Ty}
use cicest.Lir.{LirLocalId, LirBlockId, LirBasicBlock, LirLocalDecl}
use cicest.Builder.{
  FnBuilder, next_local, next_block, alloc_local, alloc_hidden_local, alloc_block,
  set_current_block, record_local, empty_block, tail_of,
}
use cicest.Builder.Bounds.{BlockIn, FrameIn, Sound, Fits}
use cicest.Builder.Grow.{
  All-map, All-snoc, length-snoc, LocalsNumbered-snoc, BlocksNumbered-snoc, SlotIn-grow,
  BindingsIn-grow, FrameIn-grow, BlockIn-grow, LoopIn-grow,
}

pub All-tail_of {ℓ κ} : {A : Type ℓ} (P : A → Type κ) (xs : List A) → All P xs → All P (tail_of xs)
All-tail_of P [] h = tt
All-tail_of P (x ∷ xs) h = h.1

pub tails_match {ℓ κ} :
    {A : Type ℓ} {B : Type κ} (xs : List A) (ys : List B)
    → length xs ≡ length ys
    → length (tail_of xs) ≡ length (tail_of ys)
tails_match [] [] e = refl
tails_match [] (y ∷ ys) e = absurd (omega arith)
tails_match (x ∷ xs) [] e = absurd (omega arith)
tails_match (x ∷ xs) (y ∷ ys) e = omega arith

-- One more local, recorded in scopes `frames` or not.
pub with_local-Sound :
    (b : FnBuilder) (t : Ty) (name : Option Symbol) (frames : List (List LirLocalId))
    → All (FrameIn (suc (length b.locals))) frames
    → length frames ≡ length b.scope_locals
    → Sound b
    → Sound (record (alloc_hidden_local b t name) { scope_locals = frames })
unfolding alloc_hidden_local
with_local-Sound b t name frames inside same h =
    let n = length b.locals in
    let new : LirLocalDecl = record { id = next_local b; type = t; debug_name = name } in
    let grown : length (b.locals ++ new ∷ []) ≡ suc n = length-snoc b.locals new in
    let up : n ≤ suc n = omega arith in
    let same_blocks : length b.blocks ≤ length b.blocks = omega arith in
    let same_depth : length b.scope ≤ length b.scope = omega arith in
    record {
      passed = h.passed;
      local_ids = LocalsNumbered-snoc 0 b.locals new (omega arith) h.local_ids;
      block_ids = h.block_ids;
      blocks_in = rw grown (All-map (BlockIn-grow up same_blocks) b.blocks h.blocks_in);
      flags = h.flags;
      scope_in = rw grown (All-map (BindingsIn-grow up) b.scope h.scope_in);
      frames_in = rw grown inside;
      heights = same ∙ h.heights;
      loops_in = rw grown (All-map (LoopIn-grow up same_blocks same_depth) b.loop_stack h.loops_in);
      slot_in = rw grown (SlotIn-grow up b.return_slot h.slot_in);
    }

pub record_local-inside :
    (n : ℕ) (id : LirLocalId) (frames : List (List LirLocalId))
    → id < n
    → All (FrameIn n) frames
    → All (FrameIn n) (record_local id frames)
record_local-inside n id [] lt h = tt
record_local-inside n id (frame ∷ frames) lt h = ((lt, h.0), h.1)

pub length-record_local :
    (id : LirLocalId) (frames : List (List LirLocalId))
    → length (record_local id frames) ≡ length frames
length-record_local id [] = refl
length-record_local id (frame ∷ frames) = refl

pub next_local-lt : (b : FnBuilder) → next_local b < suc (length b.locals)
next_local-lt b = omega arith

pub alloc_local-Sound :
    (b : FnBuilder) (t : Ty) (name : Option Symbol) → Sound b → Sound (alloc_local b t name)
unfolding alloc_local alloc_hidden_local
alloc_local-Sound b t name h =
    with_local-Sound b t name (record_local (next_local b) b.scope_locals)
      (record_local-inside (suc (length b.locals)) (next_local b) b.scope_locals (next_local-lt b)
        (All-map (FrameIn-grow (omega arith)) b.scope_locals h.frames_in))
      (length-record_local (next_local b) b.scope_locals) h

pub alloc_hidden_local-Sound :
    (b : FnBuilder) (t : Ty) (name : Option Symbol) → Sound b → Sound (alloc_hidden_local b t name)
unfolding alloc_hidden_local
alloc_hidden_local-Sound b t name h =
    with_local-Sound b t name b.scope_locals
      (All-map (FrameIn-grow (omega arith)) b.scope_locals h.frames_in) refl h

pub alloc_block-Sound : (b : FnBuilder) → Sound b → Sound (alloc_block b)
unfolding alloc_block
alloc_block-Sound b h =
    let n = length b.blocks in
    let new : LirBasicBlock = empty_block (next_block b) in
    let grown : length (b.blocks ++ new ∷ []) ≡ suc n = length-snoc b.blocks new in
    let up : n ≤ suc n = omega arith in
    let same_locals : length b.locals ≤ length b.locals = omega arith in
    let same_depth : length b.scope ≤ length b.scope = omega arith in
    record {
      passed = h.passed;
      local_ids = h.local_ids;
      block_ids = BlocksNumbered-snoc 0 b.blocks new (omega arith) h.block_ids;
      blocks_in = rw grown (
          All-snoc (BlockIn (length b.locals) (suc n)) b.blocks new
            (All-map (BlockIn-grow same_locals up) b.blocks h.blocks_in) (tt, tt));
      flags = rw (grown, length-snoc b.block_has_predecessor false) (ap suc h.flags);
      scope_in = h.scope_in;
      frames_in = h.frames_in;
      heights = h.heights;
      loops_in = rw grown (All-map (LoopIn-grow same_locals up same_depth) b.loop_stack h.loops_in);
      slot_in = h.slot_in;
    }

-- A test that passes leaves the flag.
pub passes : {failed : Bool} (c : Bool) → failed ≡ false → c ≡ true → (failed || not c) ≡ false
passes c f e = ground arith

pub set_current_block-Fits :
    (id : LirBlockId) (b : FnBuilder)
    → id < length b.blocks
    → Sound b
    → Fits (set_current_block id b)
unfolding set_current_block
set_current_block-Fits id b lt h = record {
  sound = record {
    passed = passes (ltb id (length b.blocks)) h.passed (lt→ltb id (length b.blocks) lt);
    local_ids = h.local_ids;
    block_ids = h.block_ids;
    blocks_in = h.blocks_in;
    flags = h.flags;
    scope_in = h.scope_in;
    frames_in = h.frames_in;
    heights = h.heights;
    loops_in = h.loops_in;
    slot_in = h.slot_in;
  };
  current_in = lt;
}
