-- ===== src/Builder/Starts.antt =====
-- compiler/cstc_lir_builder/src/builder.cpp: the builder before the first block of a function.
use cicest.Prelude.{
  ℕ, ◌≤◌, ◌<◌, ◌≡◌, refl, Bool, true, false, List, [], ◌∷◌, map, none, some, All, length, arith,
}
use cicest.Symbol.{Symbol}
use cicest.Ty.{Ty}
use cicest.Tyir.{TyParam}
use cicest.Lir.{LirLocalId, LirParam, LirFnDef}
use cicest.Lir.Const.{is_move_only}
use cicest.Builder.{
  FnBuilder, new_builder, next_local, alloc_local, alloc_hidden_local, push_scope, bind, bind_top,
  Bindings, is_empty,
}
use cicest.Builder.Fn.{lower_params, open_slot}
use cicest.Builder.Bounds.{BlockIn, LocalsNumbered, BlocksNumbered, Sound}
use cicest.Builder.Grow.{length-snoc}
use cicest.Builder.Allocs.{alloc_local-Sound, alloc_hidden_local-Sound}
use cicest.Builder.Keeps.{bind-Sound}
use cicest.Builder.Computes.{local-there, length-alloc_local}
use cicest.Builder.Frames.{Covers, Covers-bind}

abbrev pub ParamIn : ℕ → LirParam → Type 0
ParamIn nl p = p.local < nl

-- A function that names only its own locals and blocks, which stand at the places of their ids.
pub record FnIn (fn : LirFnDef) : Type 0 where
  pub local_ids : LocalsNumbered 0 fn.locals
  pub block_ids : BlocksNumbered 0 fn.blocks
  pub entry_in : 0 < length fn.blocks
  pub blocks_in : All (BlockIn (length fn.locals) (length fn.blocks)) fn.blocks
  pub params_in : All (ParamIn (length fn.locals)) fn.params

-- The builder before its first block.
pub record Starts (names : List Symbol) (b : FnBuilder) : Type 0 where
  pub sound : Sound b
  pub no_blocks : b.blocks ≡ []
  pub no_loops : b.loop_stack ≡ []
  pub nonempty : is_empty b.scope ≡ false
  pub covers : Covers names b.scope

pub first_scope-Starts : Starts [] (push_scope new_builder)
unfolding push_scope
first_scope-Starts = record {
  sound = record {
    passed = refl;
    local_ids = tt;
    block_ids = tt;
    blocks_in = tt;
    flags = refl;
    scope_in = (tt, tt);
    frames_in = (tt, tt);
    heights = refl;
    loops_in = tt;
    slot_in = tt;
  };
  no_blocks = refl;
  no_loops = refl;
  nonempty = refl;
  covers = tt;
}

pub bind_top-nonempty :
    (name : Symbol) (id : LirLocalId) (frames : List Bindings)
    → is_empty frames ≡ false
    → is_empty (bind_top name id frames) ≡ false
unfolding bind_top
bind_top-nonempty name id [] h = h
bind_top-nonempty name id (frame ∷ frames) h = refl

pub param-Starts :
    {names : List Symbol} (b : FnBuilder) (p : TyParam)
    → Starts names b
    → Starts (p.name ∷ names) (bind p.name (next_local b) (alloc_local b p.type (some p.name)))
      × (next_local b < length (alloc_local b p.type (some p.name)).locals)
unfolding alloc_local bind
param-Starts {names} b p h =
    let a = alloc_local b p.type (some p.name) in
    let lt = local-there b p.type (some p.name) in
    (
      record {
        sound =
            bind-Sound p.name (next_local b) a h.nonempty lt
              (alloc_local-Sound b p.type (some p.name) h.sound);
        no_blocks = h.no_blocks;
        no_loops = h.no_loops;
        nonempty = bind_top-nonempty p.name (next_local b) b.scope h.nonempty;
        covers = Covers-bind names p.name (next_local b) a h.nonempty h.covers;
      },
      lt,
    )

pub forget_name :
    {name : Symbol} {names : List Symbol} {b : FnBuilder} → Starts (name ∷ names) b → Starts names b
forget_name h = record {
  sound = h.sound;
  no_blocks = h.no_blocks;
  no_loops = h.no_loops;
  nonempty = h.nonempty;
  covers = h.covers.1;
}

pub locals-bound :
    (b : FnBuilder) (p : TyParam)
    → (length b.locals
        ≤ length (bind p.name (next_local b) (alloc_local b p.type (some p.name))).locals)
      × (next_local b
          < length (bind p.name (next_local b) (alloc_local b p.type (some p.name))).locals)
unfolding bind
locals-bound b p =
    let grown = length-alloc_local b p.type (some p.name) in
    let lt = local-there b p.type (some p.name) in (omega (arith, grown), lt)

pub lower_params-Starts :
    {names : List Symbol} (ps : List TyParam) (b : FnBuilder)
    → Starts names b
    → let (params, b') = lower_params b ps in
      Starts names b'
      × Covers (map (λ p. p.name) ps) b'.scope
      × All (ParamIn (length b'.locals)) params
      × (length b.locals ≤ length b'.locals)
unfolding lower_params
lower_params-Starts [] b h = (h, tt, tt, omega arith)
lower_params-Starts {names} (p ∷ ps) b h =
    let (start, lt) = param-Starts b p h in
    let next = bind p.name (next_local b) (alloc_local b p.type (some p.name)) in
    let (run, covers, inside, more) = lower_params-Starts ps next start in
    let grown = locals-bound b p in
    (
      forget_name run,
      (run.covers.0, covers),
      (omega (arith, more, lt, grown.1), inside),
      omega (arith, more, grown.0),
    )

pub slot-Starts :
    {names : List Symbol} (b : FnBuilder) (t : Ty)
    → Starts names b
    → let b' = record (alloc_hidden_local b t none) { return_slot = some (next_local b) } in
      Starts names b' × (length b.locals ≤ length b'.locals) × (b'.scope ≡ b.scope)
unfolding alloc_hidden_local
slot-Starts b t h =
    let a = alloc_hidden_local-Sound b t none h.sound in
    let grown = length-snoc b.locals (record { id = next_local b; type = t; debug_name = none }) in
    (
      record {
        sound = record {
          passed = a.passed;
          local_ids = a.local_ids;
          block_ids = a.block_ids;
          blocks_in = a.blocks_in;
          flags = a.flags;
          scope_in = a.scope_in;
          frames_in = a.frames_in;
          heights = a.heights;
          loops_in = a.loops_in;
          slot_in = rw grown (omega arith);
        };
        no_blocks = h.no_blocks;
        no_loops = h.no_loops;
        nonempty = h.nonempty;
        covers = h.covers;
      },
      omega (arith, grown),
      refl,
    )

pub open_slot-Starts :
    {names : List Symbol} (b : FnBuilder) (t : Ty)
    → Starts names b
    → Starts names (open_slot b t)
      × (length b.locals ≤ length (open_slot b t).locals)
      × ((open_slot b t).scope ≡ b.scope)
unfolding open_slot
open_slot-Starts {names} b t h = go (is_move_only t)
  where
    go :
        (moved : Bool)
        → let b' = elim moved as (λ _. FnBuilder) [
          | true ↦ record (alloc_hidden_local b t none) { return_slot = some (next_local b) }
          | false ↦ b
        ] in
          Starts names b' × (length b.locals ≤ length b'.locals) × (b'.scope ≡ b.scope)
    go true = slot-Starts b t h
    go false = (h, omega arith, refl)
