-- ===== src/Builder/Fn.antt =====
-- compiler/cstc_lir_builder/src/builder.cpp: `lower_fn`.
use cicest.Prelude.{true, false, not, ◌||◌, List, [], ◌∷◌, Option, none, some, ◌==◌}
use cicest.Span.{SourceSpan}
use cicest.Ty.{Ty}
use cicest.Tyir.{TyParam, TyFnDecl}
use cicest.Lir.{LirOperand, LirParam, LirFnDef}
use cicest.Lir.Const.{is_move_only}
use cicest.Builder.{
  FnBuilder, new_builder, next_local, next_block, alloc_local, alloc_hidden_local, alloc_block,
  set_current_block, push_scope, pop_scope, bind,
}
use cicest.Builder.Steps.{is_unit, operand_for_local, leave_function, to_slot}
use cicest.Builder.Lower.{lower_block}

-- The parameters' locals, which have the lowest ids.
unfoldable pub lower_params : FnBuilder → List TyParam → List LirParam × FnBuilder
unfolding alloc_local bind
lower_params b [] = ([], b)
lower_params b (p ∷ ps) =
    let id = next_local b in
    let (rest, b1) = lower_params (bind p.name id (alloc_local b p.type (some p.name))) ps in
    (record { local = id; name = p.name; type = p.type; span = p.span } ∷ rest, b1)

unfoldable pub open_slot : FnBuilder → Ty → FnBuilder
unfolding alloc_hidden_local
open_slot b t = elim (is_move_only t) [
  | true ↦ record (alloc_hidden_local b t none) { return_slot = some (next_local b) }
  | false ↦ b
]

-- The return at the end of the body, where control reaches it.
unfoldable pub close_fn : FnBuilder → LirOperand → Ty → SourceSpan → FnBuilder
unfolding leave_function
close_fn b value return_ty span = elim b.block_terminated [
  | true ↦ b
  | false ↦ elim b.return_slot [
    | some slot ↦
        leave_function (some (operand_for_local slot return_ty)) span (to_slot slot value span b)
    | none ↦ elim (is_unit return_ty) [
      | true ↦ leave_function none span b
      | false ↦ leave_function (some value) span b
    ]
  ]
]

-- The builder at the start of the body.
unfoldable pub open_fn : TyFnDecl → FnBuilder
unfolding push_scope lower_params open_slot alloc_block set_current_block
open_fn f =
    let b1 = open_slot (lower_params (push_scope new_builder) f.params).1 f.return_ty in
    let b2 = alloc_block b1 in
    set_current_block (next_block b1) (record b2 { failed = b2.failed || not (next_block b1 == 0) })

-- The builder at the end of the function.
unfoldable pub build_fn : TyFnDecl → FnBuilder
unfolding open_fn lower_block close_fn pop_scope
build_fn f =
    let (value, b) = lower_block (open_fn f) f.body in
    pop_scope (close_fn b value f.return_ty f.span)

-- Nothing where an assertion fails.
unfoldable pub lower_fn : TyFnDecl → Option LirFnDef
unfolding build_fn push_scope lower_params
lower_fn f =
    let b = build_fn f in
    elim b.failed [
      | true ↦ none
      | false ↦ some (record {
        name = f.name;
        params = (lower_params (push_scope new_builder) f.params).0;
        return_ty = f.return_ty;
        locals = b.locals;
        blocks = b.blocks;
        span = f.span;
      })
    ]
