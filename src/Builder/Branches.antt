-- ===== src/Builder/Branches.antt =====
-- compiler/cstc_lir_builder/src/builder.cpp: statements and conditions that may end their block.
use cicest.Prelude.{◌≡◌, refl, ap, ◌∙◌, Bool, true, false, List, some, length, arith}
use cicest.Span.{SourceSpan}
use cicest.Symbol.{Symbol}
use cicest.Ty.{Ty}
use cicest.Lir.{LirOperand, LirRvalue}
use cicest.Builder.{FnBuilder, next_local, is_empty}
use cicest.Builder.Steps.{assign_new, bind_local}
use cicest.Builder.Bounds.{OperandIn, Goes, Lowers}
use cicest.Builder.Computes.{Extends-trans, assign_new-Calm}
use cicest.Builder.Stacks.{Inside, Inside-after, Entered}
use cicest.Builder.Frames.{Covers, Covers-bind, InLoop, Ready}
use cicest.Builder.Values.{bind_local-Inside}
use cicest.Builder.Scoped.{declared}

-- Statements that have run in the scope that was entered at `a`; the names hold where control goes on.
pub record Ran (names : List Symbol) (a b : FnBuilder) : Type 0 where
  pub inside : Inside a b
  pub covers : b.block_terminated ≡ false → Covers names b.scope

pub Ready-Ran :
    {names : List Symbol} {lp : Bool} {a b : FnBuilder}
    → Ran names a b
    → InLoop lp a.loop_stack
    → b.block_terminated ≡ false
    → Ready names lp b
Ready-Ran ran loops live = record {
  fits = ran.inside.fits;
  live = live;
  covers = ran.covers live;
  loops = rw ran.inside.grows.same_loops loops;
}

pub bind_local-Ran :
    {a : FnBuilder} (names : List Symbol) (b : FnBuilder) (discard : Bool) (name : Symbol) (t : Ty)
    (op : LirOperand) (span : SourceSpan)
    → OperandIn (length b.locals) op
    → Inside a b
    → Covers names b.scope
    → Ran (declared discard name names) a (bind_local b discard name t op span)
unfolding bind_local
bind_local-Ran names b true name t op span inside i covers = record {
  inside = i;
  covers = λ live. covers;
}
bind_local-Ran names b false name t op span inside i covers =
    let rhs = LirRvalue.use_of op in
    let c = assign_new b t (some name) rhs span in
    let calm = (assign_new-Calm b t (some name) rhs span inside i.fits).0 in
    record {
      inside = bind_local-Inside b false name t op span inside i;
      covers = λ live.
          Covers-bind names name (next_local b) c (ap is_empty calm.goes.same_scope ∙ i.nonempty)
            (rw calm.goes.same_scope covers);
    }

pub Ran-or :
    {names : List Symbol} {a : FnBuilder} (c r : FnBuilder) (ended : Bool)
    → c.block_terminated ≡ ended
    → Inside a c
    → (c.block_terminated ≡ false → Ran names a r)
    → Ran names a (elim ended [ true ↦ c | false ↦ r ])
Ran-or c r true e i on = record { inside = i; covers = λ live. cc }
Ran-or c r false e i on = on e

-- A `let` or an init clause, behind its initialiser.
pub bound_local-Ran :
    {a b : FnBuilder} (names : List Symbol) (discard : Bool) (name : Symbol) (t : Ty)
    (span : SourceSpan) (op : LirOperand) (c : FnBuilder)
    → Inside a b
    → Covers names b.scope
    → Lowers b (op, c)
    → Ran
        (declared discard name names)
        a
        (elim c.block_terminated [ true ↦ c | false ↦ bind_local c discard name t op span ])
bound_local-Ran names discard name t span op c i covers x =
    Ran-or c (bind_local c discard name t op span) c.block_terminated refl (Inside-after i x.goes)
      (λ live.
        bind_local-Ran names c discard name t op span x.value_in (Inside-after i x.goes)
          (rw x.goes.same_scope covers))

-- Behind the condition of a `for`: in the body, or where the condition ends its block.
pub record Entering (b b' : FnBuilder) : Type 0 where
  pub ends : b'.block_terminated ≡ true → Goes b b'
  pub enters : b'.block_terminated ≡ false → Entered b b'

pub Entered-after : {a b c : FnBuilder} → Goes a b → Entered b c → Entered a c
Entered-after g e = record {
  fits = e.fits;
  locals_grow = omega (arith, g.grows.locals_grow, e.locals_grow);
  locals_kept = Extends-trans _ _ _ g.grows.locals_kept e.locals_kept;
  blocks_grow = omega (arith, g.grows.blocks_grow, e.blocks_grow);
  same_slot = e.same_slot ∙ g.grows.same_slot;
  same_scope = e.same_scope ∙ g.same_scope;
  outer = e.outer ∙ g.grows.same_loops;
  nonempty = e.nonempty;
  live = e.live;
}

pub Entering-entered : {b b' : FnBuilder} → Entered b b' → Entering b b'
Entering-entered e = record { ends = let live = e.live in λ ended. cc; enters = λ live. e }

pub Entering-or :
    {b : FnBuilder} (c r : FnBuilder) (ended : Bool)
    → c.block_terminated ≡ ended
    → Goes b c
    → (c.block_terminated ≡ false → Entering b r)
    → Entering b (elim ended [ true ↦ c | false ↦ r ])
Entering-or c r true e g on = record { ends = λ ended. g; enters = λ live. cc }
Entering-or c r false e g on = on e
