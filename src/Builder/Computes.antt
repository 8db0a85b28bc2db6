-- ===== src/Builder/Computes.antt =====
-- compiler/cstc_lir_builder/src/builder.cpp: steps of the lowering one after another, and values in new locals.
use cicest.Prelude.{
  ℕ, suc, ◌≤◌, ◌<◌, ◌≡◌, refl, ap, sym, ◌∙◌, Bool, true, false, List, [], ◌++◌, append-nil,
  append_assoc, Option, none, length, arith,
}
use cicest.Span.{SourceSpan}
use cicest.Symbol.{Symbol}
use cicest.Ty.{Ty}
use cicest.Lir.{LirLocalDecl, LirLocalId, LirStmt, LirTerminatorNode, LirOperand, LirRvalue}
use cicest.Lir.Const.{is_move_only}
use cicest.Lir.Operand
use cicest.Lir.Place
use cicest.Builder.{FnBuilder, next_local, alloc_local, push_stmt, emit_stmt, seal_block}
use cicest.Builder.Steps.{assign_new, compute, operand_for_local}
use cicest.Builder.Bounds.{
  OperandIn, RvalueIn, StmtIn, NodeIn, Extends, Fits, Grows, Goes, Calm, Lowers,
}
use cicest.Builder.Grow.{length-snoc, length-set_at, RvalueIn-grow}
use cicest.Builder.Allocs.{alloc_local-Sound, next_local-lt}
use cicest.Builder.Seals.{emit_stmt-Fits, seal_block-Fits, seal_block-keeps}

-- Locals that are only added stay where they are.
pub Extends-trans : (ks ls ms : List LirLocalDecl) → Extends ks ls → Extends ls ms → Extends ks ms
Extends-trans ks ls ms (ds, e) (es, f) =
    (ds ++ es, f ∙ ap (λ xs. xs ++ es) e ∙ append_assoc ks ds es)

pub Grows-refl : (b : FnBuilder) → Grows b b
Grows-refl b = record {
  locals_grow = omega arith;
  locals_kept = ([], sym (append-nil b.locals));
  blocks_grow = omega arith;
  same_loops = refl;
  same_slot = refl;
}

pub Grows-trans : {a b c : FnBuilder} → Grows a b → Grows b c → Grows a c
Grows-trans g h = record {
  locals_grow = omega (arith, g.locals_grow, h.locals_grow);
  locals_kept = Extends-trans _ _ _ g.locals_kept h.locals_kept;
  blocks_grow = omega (arith, g.blocks_grow, h.blocks_grow);
  same_loops = h.same_loops ∙ g.same_loops;
  same_slot = h.same_slot ∙ g.same_slot;
}

pub Goes-refl : (b : FnBuilder) → Fits b → Goes b b
Goes-refl b h = record { fits = h; grows = Grows-refl b; same_scope = refl }

pub Goes-trans : {a b c : FnBuilder} → Goes a b → Goes b c → Goes a c
Goes-trans g h = record {
  fits = h.fits;
  grows = Grows-trans g.grows h.grows;
  same_scope = h.same_scope ∙ g.same_scope;
}

pub Calm-refl : (b : FnBuilder) → Fits b → Calm b b
Calm-refl b h = record { goes = Goes-refl b h; same_end = refl }

pub Calm-trans : {a b c : FnBuilder} → Calm a b → Calm b c → Calm a c
Calm-trans g h = record { goes = Goes-trans g.goes h.goes; same_end = h.same_end ∙ g.same_end }

pub Lowers-after :
    {a b : FnBuilder} {r : LirOperand × FnBuilder} → Goes a b → Lowers b r → Lowers a r
Lowers-after g h = record { goes = Goes-trans g h.goes; value_in = h.value_in }

pub emit_stmt-Calm :
    (s : LirStmt) (b : FnBuilder) → StmtIn (length b.locals) s → Fits b → Calm b (emit_stmt s b)
unfolding emit_stmt
emit_stmt-Calm s b inside h = record {
  goes = record {
    fits = emit_stmt-Fits s b inside h;
    grows = record {
      locals_grow = omega arith;
      locals_kept = ([], sym (append-nil b.locals));
      blocks_grow =
          let same = length-set_at b.current_block (push_stmt s) b.blocks in omega (arith, same);
      same_loops = refl;
      same_slot = refl;
    };
    same_scope = refl;
  };
  same_end = refl;
}

pub alloc_local-Calm :
    (b : FnBuilder) (t : Ty) (name : Option Symbol) → Fits b → Calm b (alloc_local b t name)
unfolding alloc_local
alloc_local-Calm b t name h = record {
  goes = record {
    fits = record { sound = alloc_local-Sound b t name h.sound; current_in = h.current_in };
    grows = record {
      locals_grow =
          let grown =
            length-snoc b.locals (record { id = next_local b; type = t; debug_name = name }) in
          omega (arith, grown);
      locals_kept = (_, refl);
      blocks_grow = omega arith;
      same_loops = refl;
      same_slot = refl;
    };
    same_scope = refl;
  };
  same_end = refl;
}

pub length-alloc_local :
    (b : FnBuilder) (t : Ty) (name : Option Symbol)
    → length (alloc_local b t name).locals ≡ suc (length b.locals)
unfolding alloc_local
length-alloc_local b t name =
    length-snoc b.locals (record { id = next_local b; type = t; debug_name = name })

pub local-there :
    (b : FnBuilder) (t : Ty) (name : Option Symbol)
    → next_local b < length (alloc_local b t name).locals
local-there b t name = rw (length-alloc_local b t name) (next_local-lt b)

pub operand_for_local-in :
    (n : ℕ) (id : LirLocalId) (t : Ty) → id < n → OperandIn n (operand_for_local id t)
operand_for_local-in n id t lt = go (is_move_only t)
  where
    go :
        (m : Bool)
        → OperandIn n (elim m [
          | true ↦ Operand.move (Place.local id)
          | false ↦ Operand.copy (Place.local id)
        ])
    go true = lt
    go false = lt

pub still_lt :
    (s : LirStmt) (a : FnBuilder) (id : LirLocalId)
    → id < length a.locals
    → id < length (emit_stmt s a).locals
unfolding emit_stmt
still_lt s a id lt = lt

-- The new local is there, and everything is as before.
pub assign_new-Calm :
    (b : FnBuilder) (t : Ty) (name : Option Symbol) (rhs : LirRvalue) (span : SourceSpan)
    → RvalueIn (length b.locals) rhs
    → Fits b
    → Calm b (assign_new b t name rhs span)
      × (next_local b < length (assign_new b t name rhs span).locals)
unfolding assign_new
assign_new-Calm b t name rhs span inside h =
    let a = alloc_local b t name in
    let calm = alloc_local-Calm b t name h in
    let grown = length-alloc_local b t name in
    let lt : next_local b < length a.locals = rw grown (next_local-lt b) in
    let up : length b.locals ≤ length a.locals = calm.goes.grows.locals_grow in
    let s : LirStmt = LirStmt.assign (Place.local (next_local b)) rhs span in
    let next = emit_stmt-Calm s a (lt, RvalueIn-grow up rhs inside) calm.goes.fits in
    (Calm-trans calm next, still_lt s a (next_local b) lt)

pub compute-Lowers :
    (b : FnBuilder) (t : Ty) (rhs : LirRvalue) (span : SourceSpan)
    → RvalueIn (length b.locals) rhs
    → Fits b
    → Lowers b (compute b t rhs span)
unfolding compute
compute-Lowers b t rhs span inside h =
    let (calm, lt) = assign_new-Calm b t none rhs span inside h in
    record {
      goes = calm.goes;
      value_in =
          operand_for_local-in (length (assign_new b t none rhs span).locals) (next_local b) t lt;
    }

pub seal_block-Goes :
    (node : LirTerminatorNode) (span : SourceSpan) (b : FnBuilder)
    → b.block_terminated ≡ false
    → NodeIn (length b.locals) (length b.blocks) node
    → Fits b
    → Goes b (seal_block node span b)
seal_block-Goes node span b live inside h =
    let (l, bl, s, lo, r) = seal_block-keeps node span b in
    record {
      fits = seal_block-Fits node span b live inside h;
      grows = record {
        locals_grow = let same = ap length l in omega (arith, same);
        locals_kept = ([], l ∙ sym (append-nil b.locals));
        blocks_grow = omega (arith, bl);
        same_loops = lo;
        same_slot = r;
      };
      same_scope = s;
    }
