-- ===== src/Builder/Balance.antt =====
-- compiler/cstc_lir_builder/src/builder.cpp: `lower_expr` leaves the builder's stacks as it found them, and keeps its locals.
use cicest.Prelude.{◌≤◌, ◌≡◌, Bool, false, List, length}
use cicest.Symbol.{Symbol}
use cicest.Tyir.{TyExpr}
use cicest.Builder.{FnBuilder}
use cicest.Builder.Lower.{lower_expr}
use cicest.Builder.Bounds.{Extends, OperandIn}
use cicest.Builder.Frames.{Ready}
use cicest.Builder.Scoped.{Scoped}
use cicest.Builder.Total.{lower_expr-Lowers}

-- An expression that is well scoped, with no loop in the value of a `break`, lowered where control is, fails no
-- assertion. It leaves the bindings of all scopes, the stack of loops and the return slot as they were and all locals
-- at their ids, with new ones behind them alone. Blocks do not become fewer, and its value names a local that is there.
pub lower_expr_balanced :
    (names : List Symbol) (in_loop : Bool) (e : TyExpr) (b : FnBuilder)
    → Scoped names in_loop e
    → Ready names in_loop b
    → let (value, b') = lower_expr b e in
      (b'.failed ≡ false)
      × (b'.scope ≡ b.scope)
      × (b'.loop_stack ≡ b.loop_stack)
      × (b'.return_slot ≡ b.return_slot)
      × Extends b.locals b'.locals
      × (length b.blocks ≤ length b'.blocks)
      × OperandIn (length b'.locals) value
lower_expr_balanced names in_loop e b h r =
    let x = lower_expr-Lowers names in_loop e b h r in
    (
      x.goes.fits.sound.passed, x.goes.same_scope, x.goes.grows.same_loops, x.goes.grows.same_slot,
      x.goes.grows.locals_kept, x.goes.grows.blocks_grow, x.value_in,
    )
