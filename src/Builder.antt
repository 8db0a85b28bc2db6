-- ===== src/Builder.antt =====
-- compiler/cstc_lir_builder/src/builder.cpp: `FnBuilder`, the state in which one function is lowered, and its
-- operations. Scopes, loops and the locals of a scope stand with the innermost or newest first. A failed `assert` or
-- an index that `at` refuses is kept in `failed`, and so is a use of the loop stack through a reference that may
-- dangle; what is built after it has no meaning.
pub mod Steps
pub mod Openings
pub mod Pushes
pub mod Lower
pub mod Fn
pub mod Encode
pub mod Substitution
pub mod Codes
pub mod Keys
pub mod Bounds
pub mod Grow
pub mod Allocs
pub mod Seals
pub mod Keeps
pub mod Computes
pub mod Runs
pub mod Stacks
pub mod Frames
pub mod Values
pub mod Joins
pub mod Plans
pub mod Fors
pub mod Ends
pub mod Scoped
pub mod Places
pub mod Branches
pub mod Parts
pub mod Total
pub mod Starts
pub mod Balance
pub mod Function
mod Examples
use cicest.Prelude.{
  ℕ, zero, suc, ◌-◌, Bool, true, false, not, ◌||◌, List, [], ◌∷◌, ◌++◌, Option, none, some, ltb,
  leb, ◌==◌, if◌then◌else◌, length, get_elem?, get_or,
}
use cicest.Span.{SourceSpan}
use cicest.Symbol.{Symbol, to_uint32}
use cicest.Ty.{Ty}
use cicest.Lir.{
  LirLocalId, LirBlockId, LirStmt, LirTerminator, LirTerminatorNode, LirBasicBlock, LirLocalDecl,
  invalid_local,
}
use cicest.Lir.Const.{is_move_only}

abbrev pub invalid_block : LirBlockId
invalid_block = 4294967295

abbrev pub Bindings : Type 0
Bindings = List (Symbol × LirLocalId)

pub record LoopContext : Type 0 where
  pub continue_target : LirBlockId
  pub break_target : LirBlockId
  pub break_value_local : LirLocalId
  pub preserved_scope_depth : ℕ

-- `scope_` is kept as two stacks of the same height: the bindings of the frames, and their locals.
pub record FnBuilder : Type 0 where
  pub locals : List LirLocalDecl
  pub blocks : List LirBasicBlock
  pub block_has_predecessor : List Bool
  pub current_block : LirBlockId
  pub block_terminated : Bool
  pub scope : List Bindings
  pub scope_locals : List (List LirLocalId)
  pub loop_stack : List LoopContext
  pub return_slot : Option LirLocalId
  pub failed : Bool

abbrev pub new_builder : FnBuilder
new_builder = record {
  locals = [];
  blocks = [];
  block_has_predecessor = [];
  current_block = invalid_block;
  block_terminated = false;
  scope = [];
  scope_locals = [];
  loop_stack = [];
  return_slot = none;
  failed = false;
}

abbrev pub assert : Bool → FnBuilder → FnBuilder
assert c b = record b { failed = b.failed || not c }

abbrev pub set_at {ℓ} : {A : Type ℓ} → ℕ → (A → A) → List A → List A
set_at i f [] = []
set_at zero f (x ∷ xs) = f x ∷ xs
set_at (suc i) f (x ∷ xs) = x ∷ set_at i f xs

abbrev pub record_local : LirLocalId → List (List LirLocalId) → List (List LirLocalId)
record_local id [] = []
record_local id (frame ∷ frames) = (id ∷ frame) ∷ frames

abbrev pub next_local : FnBuilder → LirLocalId
next_local b = to_uint32 (length b.locals)

unfoldable pub alloc_hidden_local : FnBuilder → Ty → Option Symbol → FnBuilder
alloc_hidden_local b type debug_name = record b {
  locals = b.locals ++ record { id = next_local b; type = type; debug_name = debug_name } ∷ [];
}

-- The local that it allocates is `next_local`.
unfoldable pub alloc_local : FnBuilder → Ty → Option Symbol → FnBuilder
alloc_local b type debug_name = record b {
  locals = b.locals ++ record { id = next_local b; type = type; debug_name = debug_name } ∷ [];
  scope_locals = record_local (next_local b) b.scope_locals;
}

abbrev pub next_block : FnBuilder → LirBlockId
next_block b = to_uint32 (length b.blocks)

abbrev pub empty_block : LirBlockId → LirBasicBlock
empty_block id = record {
  id = id;
  stmts = [];
  terminator = record {
    node = LirTerminatorNode.unreachable;
    span = record { start = 0; end = 0 };
  };
}

-- The block that it allocates is `next_block`.
unfoldable pub alloc_block : FnBuilder → FnBuilder
alloc_block b = record b {
  blocks = b.blocks ++ empty_block (next_block b) ∷ [];
  block_has_predecessor = b.block_has_predecessor ++ false ∷ [];
}

unfoldable pub set_current_block : LirBlockId → FnBuilder → FnBuilder
set_current_block id b = record b {
  current_block = id;
  block_terminated = false;
  failed = b.failed || not (ltb id (length b.blocks));
}

-- Read where the assertion on the index holds.
abbrev pub has_predecessor : FnBuilder → LirBlockId → Bool
has_predecessor b id = get_or b.block_has_predecessor id false

abbrev pub push_stmt : LirStmt → LirBasicBlock → LirBasicBlock
push_stmt s block = record block { stmts = block.stmts ++ s ∷ [] }

unfoldable pub emit_stmt : LirStmt → FnBuilder → FnBuilder
emit_stmt s b = record b {
  blocks = set_at b.current_block (push_stmt s) b.blocks;
  failed = b.failed || not (ltb b.current_block (length b.blocks));
}

abbrev pub mark_successor : LirBlockId → FnBuilder → FnBuilder
mark_successor id b = record b {
  block_has_predecessor = set_at id (λ _. true) b.block_has_predecessor;
  failed = b.failed || not (ltb id (length b.block_has_predecessor));
}

unfoldable pub mark_successors : LirTerminatorNode → FnBuilder → FnBuilder
mark_successors (LirTerminatorNode.jump target) b = mark_successor target b
mark_successors (LirTerminatorNode.switch_bool c t f) b = mark_successor f (mark_successor t b)
mark_successors (LirTerminatorNode.return_value v) b = b
mark_successors LirTerminatorNode.unreachable b = b

abbrev pub set_terminator : LirTerminator → LirBasicBlock → LirBasicBlock
set_terminator term block = record block { terminator = term }

abbrev pub write_terminator : LirTerminator → FnBuilder → FnBuilder
write_terminator term b = record b {
  blocks = set_at b.current_block (set_terminator term) b.blocks;
  block_terminated = true;
}

unfoldable pub seal_block : LirTerminatorNode → SourceSpan → FnBuilder → FnBuilder
unfolding mark_successors
seal_block node span b =
    write_terminator (record { node = node; span = span })
      (mark_successors node
        (assert (not b.block_terminated) (assert (ltb b.current_block (length b.blocks)) b)))

unfoldable pub push_scope : FnBuilder → FnBuilder
push_scope b = record b { scope = [] ∷ b.scope; scope_locals = [] ∷ b.scope_locals }

abbrev pub tail_of {ℓ} : {A : Type ℓ} → List A → List A
tail_of [] = []
tail_of (x ∷ xs) = xs

abbrev pub is_empty {ℓ} : {A : Type ℓ} → List A → Bool
is_empty [] = true
is_empty (x ∷ xs) = false

unfoldable pub pop_scope : FnBuilder → FnBuilder
pop_scope b = record b {
  scope = tail_of b.scope;
  scope_locals = tail_of b.scope_locals;
  failed = b.failed || is_empty b.scope;
}

unfoldable pub find_binding : Symbol → Bindings → Option LirLocalId
find_binding name [] = none
find_binding name ((key, id) ∷ rest) = if name == key then some id else find_binding name rest

-- `emplace`: a name that is bound in the frame keeps its local.
unfoldable pub bind_in : Symbol → LirLocalId → Bindings → Bindings
unfolding find_binding
bind_in name id frame = elim (find_binding name frame) [
  | none ↦ (name, id) ∷ frame
  | some _ ↦ frame
]

unfoldable pub bind_top : Symbol → LirLocalId → List Bindings → List Bindings
unfolding bind_in
bind_top name id [] = []
bind_top name id (frame ∷ frames) = bind_in name id frame ∷ frames

unfoldable pub bind : Symbol → LirLocalId → FnBuilder → FnBuilder
bind name id b = record b {
  scope = bind_top name id b.scope;
  failed = b.failed || is_empty b.scope;
}

-- `lookup`, innermost frame first; a name that is not bound fails an assertion.
unfoldable pub lookup : Symbol → List Bindings → Option LirLocalId
unfolding find_binding
lookup name [] = none
lookup name (frame ∷ frames) = elim (find_binding name frame) [
  | some id ↦ some id
  | none ↦ lookup name frames
]

-- One local of a scope that is left.
unfoldable pub emit_drop : SourceSpan → LirLocalId → FnBuilder → FnBuilder
unfolding emit_stmt
emit_drop span id b = elim (get_elem? b.locals id) [
  | none ↦ record b { failed = true }
  | some decl ↦ elim (is_move_only decl.type) [
    | true ↦ emit_stmt (LirStmt.drop_local id span) b
    | false ↦ b
  ]
]

unfoldable pub emit_drops : SourceSpan → List LirLocalId → FnBuilder → FnBuilder
unfolding emit_drop
emit_drops span [] b = b
emit_drops span (id ∷ ids) b = emit_drops span ids (emit_drop span id b)

-- The drops of the `n` innermost scopes.
unfoldable pub emit_frames : SourceSpan → ℕ → List (List LirLocalId) → FnBuilder → FnBuilder
unfolding emit_drops
emit_frames span zero frames b = b
emit_frames span (suc n) [] b = b
emit_frames span (suc n) (frame ∷ frames) b = emit_frames span n frames (emit_drops span frame b)

unfoldable pub emit_scope_drops_to_depth : ℕ → SourceSpan → FnBuilder → FnBuilder
unfolding emit_frames
emit_scope_drops_to_depth target span b =
    emit_frames span (length b.scope - target) b.scope_locals
      (assert (leb target (length b.scope)) b)

unfoldable pub emit_current_scope_drops : SourceSpan → FnBuilder → FnBuilder
unfolding emit_scope_drops_to_depth
emit_current_scope_drops span b =
    emit_scope_drops_to_depth (length b.scope - 1) span (assert (not (is_empty b.scope)) b)

unfoldable pub push_loop : LirBlockId → LirBlockId → LirLocalId → FnBuilder → FnBuilder
push_loop cont brk value b = record b {
  loop_stack =
      record {
        continue_target = cont;
        break_target = brk;
        break_value_local = value;
        preserved_scope_depth = length b.scope;
      }
      ∷ b.loop_stack;
}

unfoldable pub pop_loop : FnBuilder → FnBuilder
pop_loop b = record b {
  loop_stack = tail_of b.loop_stack;
  failed = b.failed || is_empty b.loop_stack;
}
