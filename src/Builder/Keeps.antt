-- ===== src/Builder/Keeps.antt =====
-- compiler/cstc_lir_builder/src/builder.cpp: scopes, loops and bindings keep the builder sound.
use cicest.Prelude.{ℕ, suc, ◌<◌, ◌≡◌, refl, ap, false, List, [], ◌∷◌, All, length, arith}
use cicest.Symbol.{Symbol}
use cicest.Lir.{LirLocalId, LirBlockId}
use cicest.Builder.{
  FnBuilder, Bindings, push_scope, pop_scope, bind, bind_in, bind_top, tail_of, is_empty, push_loop,
  pop_loop,
}
use cicest.Builder.Bounds.{LoopIn, BindingsIn, FrameIn, Sound, Fits}
use cicest.Builder.Grow.{All-map, LoopIn-grow}
use cicest.Builder.Allocs.{All-tail_of, tails_match}

pub push_scope-Fits : (b : FnBuilder) → Fits b → Fits (push_scope b)
unfolding push_scope
push_scope-Fits b h = record {
  sound = record {
    passed = h.sound.passed;
    local_ids = h.sound.local_ids;
    block_ids = h.sound.block_ids;
    blocks_in = h.sound.blocks_in;
    flags = h.sound.flags;
    scope_in = (tt, h.sound.scope_in);
    frames_in = (tt, h.sound.frames_in);
    heights = ap suc h.sound.heights;
    loops_in =
        All-map (LoopIn-grow (omega arith) (omega arith) (omega arith)) b.loop_stack
          h.sound.loops_in;
    slot_in = h.sound.slot_in;
  };
  current_in = h.current_in;
}

-- The frame that is popped, where the loops stand as outside of it.
pub pop_scope-Fits :
    (b : FnBuilder)
    → is_empty b.scope ≡ false
    → All (LoopIn (length b.locals) (length b.blocks) (length (tail_of b.scope))) b.loop_stack
    → Fits b
    → Fits (pop_scope b)
unfolding pop_scope
pop_scope-Fits b nonempty loops h = record {
  sound = record {
    passed = ground (arith, h.sound.passed);
    local_ids = h.sound.local_ids;
    block_ids = h.sound.block_ids;
    blocks_in = h.sound.blocks_in;
    flags = h.sound.flags;
    scope_in = All-tail_of (BindingsIn (length b.locals)) b.scope h.sound.scope_in;
    frames_in = All-tail_of (FrameIn (length b.locals)) b.scope_locals h.sound.frames_in;
    heights = tails_match b.scope_locals b.scope h.sound.heights;
    loops_in = loops;
    slot_in = h.sound.slot_in;
  };
  current_in = h.current_in;
}

pub push_loop-Fits :
    (cont brk : LirBlockId) (value : LirLocalId) (b : FnBuilder)
    → LoopIn (length b.locals) (length b.blocks) (length b.scope) (record {
      continue_target = cont;
      break_target = brk;
      break_value_local = value;
      preserved_scope_depth = length b.scope;
    })
    → Fits b
    → Fits (push_loop cont brk value b)
unfolding push_loop
push_loop-Fits cont brk value b inside h = record {
  sound = record {
    passed = h.sound.passed;
    local_ids = h.sound.local_ids;
    block_ids = h.sound.block_ids;
    blocks_in = h.sound.blocks_in;
    flags = h.sound.flags;
    scope_in = h.sound.scope_in;
    frames_in = h.sound.frames_in;
    heights = h.sound.heights;
    loops_in = (inside, h.sound.loops_in);
    slot_in = h.sound.slot_in;
  };
  current_in = h.current_in;
}

pub pop_loop-Fits : (b : FnBuilder) → is_empty b.loop_stack ≡ false → Fits b → Fits (pop_loop b)
unfolding pop_loop
pop_loop-Fits b nonempty h = record {
  sound = record {
    passed = ground (arith, h.sound.passed);
    local_ids = h.sound.local_ids;
    block_ids = h.sound.block_ids;
    blocks_in = h.sound.blocks_in;
    flags = h.sound.flags;
    scope_in = h.sound.scope_in;
    frames_in = h.sound.frames_in;
    heights = h.sound.heights;
    loops_in =
        All-tail_of (LoopIn (length b.locals) (length b.blocks) (length b.scope)) b.loop_stack
          h.sound.loops_in;
    slot_in = h.sound.slot_in;
  };
  current_in = h.current_in;
}

bind_in-BindingsIn :
    (n : ℕ) (name : Symbol) (id : LirLocalId) (frame : Bindings)
    → id < n
    → BindingsIn n frame
    → BindingsIn n (bind_in name id frame)
unfolding bind_in
bind_in-BindingsIn n name id frame lt h = ground (arith, h)

bind_top-inside :
    (n : ℕ) (name : Symbol) (id : LirLocalId) (frames : List Bindings)
    → id < n
    → All (BindingsIn n) frames
    → All (BindingsIn n) (bind_top name id frames)
unfolding bind_top
bind_top-inside n name id [] lt h = tt
bind_top-inside n name id (frame ∷ frames) lt h = (bind_in-BindingsIn n name id frame lt h.0, h.1)

length-bind_top :
    (name : Symbol) (id : LirLocalId) (frames : List Bindings)
    → length (bind_top name id frames) ≡ length frames
unfolding bind_top
length-bind_top name id [] = refl
length-bind_top name id (frame ∷ frames) = refl

-- Of a builder that may still have no block.
pub bind-Sound :
    (name : Symbol) (id : LirLocalId) (b : FnBuilder)
    → is_empty b.scope ≡ false
    → id < length b.locals
    → Sound b
    → Sound (bind name id b)
unfolding bind
bind-Sound name id b nonempty lt h =
    let same = length-bind_top name id b.scope in
    record {
      passed = ground (arith, h.passed);
      local_ids = h.local_ids;
      block_ids = h.block_ids;
      blocks_in = h.blocks_in;
      flags = h.flags;
      scope_in = bind_top-inside (length b.locals) name id b.scope lt h.scope_in;
      frames_in = h.frames_in;
      heights = rw same h.heights;
      loops_in = rw same h.loops_in;
      slot_in = h.slot_in;
    }
