-- ===== src/Builder/Function.antt =====
-- compiler/cstc_lir_builder/src/builder.cpp: `lower_fn` on a function whose names are in scope.
use cicest.Prelude.{
  ◌<◌, ◌≡◌, refl, ap, ◌∙◌, Bool, true, false, [], map, Option, none, some, All, length, arith, ◌==◌,
  ◌||◌, not,
}
use cicest.Tyir.{TyFnDecl}
use cicest.Lir.{LirFnDef}
use cicest.Builder.{
  new_builder, next_block, alloc_block, set_current_block, push_scope, pop_scope, is_empty,
}
use cicest.Builder.Lower.{lower_block}
use cicest.Builder.Fn.{lower_params, open_slot, close_fn, open_fn, build_fn, lower_fn}
use cicest.Builder.Bounds.{Fits}
use cicest.Builder.Grow.{All-map}
use cicest.Builder.Allocs.{alloc_block-Sound, set_current_block-Fits}
use cicest.Builder.Seals.{assert-Sound}
use cicest.Builder.Keeps.{pop_scope-Fits}
use cicest.Builder.Computes.{Goes-trans}
use cicest.Builder.Frames.{Ready}
use cicest.Builder.Ends.{close_fn-Goes}
use cicest.Builder.Scoped.{FnScoped}
use cicest.Builder.Total.{lower_block-Lowers}
use cicest.Builder.Starts.{FnIn, ParamIn, first_scope-Starts, lower_params-Starts, open_slot-Starts}

pub open_fn-Ready :
    (f : TyFnDecl)
    → Ready (map (λ p. p.name) f.params) false (open_fn f)
      × All (ParamIn (length (open_fn f).locals)) (lower_params (push_scope new_builder) f.params).0
      × (is_empty (open_fn f).scope ≡ false)
      × ((open_fn f).loop_stack ≡ [])
unfolding open_fn alloc_block set_current_block
open_fn-Ready f =
    let (start, covers, inside, more) =
      lower_params-Starts f.params (push_scope new_builder) first_scope-Starts in
    let (params, b0) = lower_params (push_scope new_builder) f.params in
    let b1 = open_slot b0 f.return_ty in
    let (slotted, grown, same) = open_slot-Starts b0 f.return_ty start in
    let entry : next_block b1 ≡ 0 = rw slotted.no_blocks refl in
    let b2 = alloc_block b1 in
    let sound =
      assert-Sound b2 (next_block b1 == 0) (ground (arith, entry))
        (alloc_block-Sound b1 slotted.sound) in
    let there : next_block b1 < length b2.blocks = rw slotted.no_blocks (omega arith) in
    (
      record {
        fits =
            set_current_block-Fits (next_block b1)
              (record b2 { failed = b2.failed || not (next_block b1 == 0) }) there sound;
        live = refl;
        covers = rw same covers;
        loops = tt;
      },
      All-map (λ p lt. omega (arith, grown, lt)) params inside,
      slotted.nonempty,
      slotted.no_loops,
    )

built :
    (f : TyFnDecl)
    → FnScoped f
    → Fits (build_fn f)
      × All
          (ParamIn (length (build_fn f).locals))
          (lower_params (push_scope new_builder) f.params).0
unfolding build_fn pop_scope
built f h =
    let (r, inside, nonempty, no_loops) = open_fn-Ready f in
    let b = open_fn f in
    let x = lower_block-Lowers (map (λ p. p.name) f.params) false f.body b h r in
    let (value, c) = lower_block b f.body in
    let closed = close_fn-Goes c value f.return_ty f.span x.value_in x.goes.fits in
    let all = Goes-trans x.goes closed in
    let d = close_fn c value f.return_ty f.span in
    let more = all.grows.locals_grow in
    (
      pop_scope-Fits d (ap is_empty all.same_scope ∙ nonempty)
          (rw (all.grows.same_loops, no_loops) tt) all.fits,
      All-map (λ p lt. omega (arith, more, lt)) (lower_params (push_scope new_builder) f.params).0
          inside,
    )

abbrev built_fn : TyFnDecl → LirFnDef
built_fn f = record {
  name = f.name;
  params = (lower_params (push_scope new_builder) f.params).0;
  return_ty = f.return_ty;
  locals = (build_fn f).locals;
  blocks = (build_fn f).blocks;
  span = f.span;
}

-- A function whose names are in scope, whose `break`s and `continue`s stand in loops, which has no loop in the value of
-- a `break`, which moves nothing out of a field, and whose calls and probes are resolved, is lowered without a failed assertion. In what it is lowered to,
-- every statement, operand and terminator names only locals and blocks that are there, the entry block is there, and
-- locals and blocks stand at the places of their ids.
pub lower_fn-FnIn : (f : TyFnDecl) → FnScoped f → (fn : LirFnDef) × (lower_fn f ≡ some fn) × FnIn fn
unfolding lower_fn
lower_fn-FnIn f h =
    let (fits, params_in) = built f h in
    let current = fits.current_in in
    (
      built_fn f,
      passed_through (build_fn f).failed (built_fn f) fits.sound.passed,
      record {
        local_ids = fits.sound.local_ids;
        block_ids = fits.sound.block_ids;
        entry_in = omega (arith, current);
        blocks_in = fits.sound.blocks_in;
        params_in = params_in;
      },
    )
  where
    passed_through :
        (failed : Bool) (fn : LirFnDef)
        → failed ≡ false
        → elim failed as (λ _. Option LirFnDef) [ true ↦ none | false ↦ some fn ] ≡ some fn
    passed_through true fn e = cc
    passed_through false fn e = refl
