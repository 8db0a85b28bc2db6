-- ===== src/Builder/Stacks.antt =====
-- compiler/cstc_lir_builder/src/builder.cpp: a scope or a loop that is entered and left again leaves the stacks as they were.
use cicest.Prelude.{
  ◌≤◌, ◌<◌, ◌≡◌, refl, ap, sym, append-nil, ◌∙◌, false, List, [], ◌∷◌, length, arith,
}
use cicest.Symbol.{Symbol}
use cicest.Lir.{LirLocalId}
use cicest.Builder.{
  FnBuilder, Bindings, push_scope, pop_scope, bind, bind_top, pop_loop, tail_of, is_empty,
}
use cicest.Builder.Bounds.{Extends, Fits, Grows, Goes}
use cicest.Builder.Grow.{All-map, LoopIn-grow}
use cicest.Builder.Keeps.{push_scope-Fits, pop_scope-Fits, pop_loop-Fits, bind-Sound}
use cicest.Builder.Computes.{Grows-trans, Extends-trans}

-- The builder `b'` in a scope that was entered at `b`.
pub record Inside (b b' : FnBuilder) : Type 0 where
  pub fits : Fits b'
  pub grows : Grows b b'
  pub outer : tail_of b'.scope ≡ b.scope
  pub nonempty : is_empty b'.scope ≡ false

pub push_scope-Inside : (b : FnBuilder) → Fits b → Inside b (push_scope b)
unfolding push_scope
push_scope-Inside b h = record {
  fits = push_scope-Fits b h;
  grows = record {
    locals_grow = omega arith;
    locals_kept = ([], sym (append-nil b.locals));
    blocks_grow = omega arith;
    same_loops = refl;
    same_slot = refl;
  };
  outer = refl;
  nonempty = refl;
}

pub Inside-after : {a b c : FnBuilder} → Inside a b → Goes b c → Inside a c
Inside-after i g = record {
  fits = g.fits;
  grows = Grows-trans i.grows g.grows;
  outer = ap tail_of g.same_scope ∙ i.outer;
  nonempty = ap is_empty g.same_scope ∙ i.nonempty;
}

pub bind_top-outer :
    (name : Symbol) (id : LirLocalId) (frames : List Bindings)
    → (tail_of (bind_top name id frames) ≡ tail_of frames)
      × (is_empty (bind_top name id frames) ≡ is_empty frames)
unfolding bind_top
bind_top-outer name id [] = (refl, refl)
bind_top-outer name id (frame ∷ frames) = (refl, refl)

pub bind-Inside :
    {a : FnBuilder} (name : Symbol) (id : LirLocalId) (b : FnBuilder)
    → id < length b.locals
    → Inside a b
    → Inside a (bind name id b)
unfolding bind
bind-Inside name id b lt i =
    let (same_outer, same_empty) = bind_top-outer name id b.scope in
    record {
      fits = record {
        sound = bind-Sound name id b i.nonempty lt i.fits.sound;
        current_in = i.fits.current_in;
      };
      grows = record {
        locals_grow = i.grows.locals_grow;
        locals_kept = i.grows.locals_kept;
        blocks_grow = i.grows.blocks_grow;
        same_loops = i.grows.same_loops;
        same_slot = i.grows.same_slot;
      };
      outer = same_outer ∙ i.outer;
      nonempty = same_empty ∙ i.nonempty;
    }

-- The loops around a scope stand at a depth that is there behind it.
pub pop_scope-Goes : {a b : FnBuilder} → Fits a → Inside a b → Goes a (pop_scope b)
unfolding pop_scope
pop_scope-Goes {a} {b} h i = record {
  fits =
      pop_scope-Fits b i.nonempty
        (rw (i.outer, i.grows.same_loops)
          (All-map (LoopIn-grow i.grows.locals_grow i.grows.blocks_grow (omega arith)) a.loop_stack
            h.sound.loops_in))
        i.fits;
  grows = record {
    locals_grow = i.grows.locals_grow;
    locals_kept = i.grows.locals_kept;
    blocks_grow = i.grows.blocks_grow;
    same_loops = i.grows.same_loops;
    same_slot = i.grows.same_slot;
  };
  same_scope = i.outer;
}

-- The builder `b'` in a loop that was entered at `b`, with control in it.
pub record Entered (b b' : FnBuilder) : Type 0 where
  pub fits : Fits b'
  pub locals_grow : length b.locals ≤ length b'.locals
  pub locals_kept : Extends b.locals b'.locals
  pub blocks_grow : length b.blocks ≤ length b'.blocks
  pub same_slot : b'.return_slot ≡ b.return_slot
  pub same_scope : b'.scope ≡ b.scope
  pub outer : tail_of b'.loop_stack ≡ b.loop_stack
  pub nonempty : is_empty b'.loop_stack ≡ false
  pub live : b'.block_terminated ≡ false

pub pop_loop-Goes : {a b c : FnBuilder} → Entered a b → Goes b c → Goes a (pop_loop c)
unfolding pop_loop
pop_loop-Goes {a} {b} {c} e g = record {
  fits = pop_loop-Fits c (ap is_empty g.grows.same_loops ∙ e.nonempty) g.fits;
  grows = record {
    locals_grow = omega (arith, e.locals_grow, g.grows.locals_grow);
    locals_kept = Extends-trans _ _ _ e.locals_kept g.grows.locals_kept;
    blocks_grow = omega (arith, e.blocks_grow, g.grows.blocks_grow);
    same_loops = ap tail_of g.grows.same_loops ∙ e.outer;
    same_slot = g.grows.same_slot ∙ e.same_slot;
  };
  same_scope = g.same_scope ∙ e.same_scope;
}
