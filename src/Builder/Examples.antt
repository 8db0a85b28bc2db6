-- ===== src/Builder/Examples.antt =====
-- The lowering of a concrete function, and the theorems at it.
use cicest.Builder.Substitution.{
  TypeSubstitution, find_type, apply_substitution, Replaces, IsClosed, apply_substitution-IsClosed,
}
use cicest.Prelude.{
  Bool-cases, inl, inr, none, ◌==◌, arith, ◌≡◌, ◌↔◌, refl, Bool, false, true, List, [], ◌∷◌, map,
  some, length, ◌≤◌, bytes, bytes_eq,
}
use cicest.Symbol.{Symbol, SymbolTable, empty_table, intern_all, intern_new, is_valid, resolve}
use cicest.Module.{digits}
use cicest.Lexer.Chars.{is_ident_continue}
use cicest.Builder.Encode.{encode_text, instantiation_cache_key}
use cicest.Builder.Codes.{IsPlain}
use cicest.Builder.Keys.{codes, PlainTypes, instantiation_cache_key_eq_iff}
use cicest.Span.{SourceSpan}
use cicest.Ty.{Ty, Tys}
use cicest.Ty
use cicest.Tyir
use cicest.Availability.Residue.{CallResidue}
use cicest.Builder.Pushes.{pushes_loop}
use cicest.Builder.Lower.{lower_expr}
use cicest.Builder.Bounds.{Extends, OperandIn}
use cicest.Builder.Balance.{lower_expr_balanced}
use cicest.Builder.Fn.{open_fn}
use cicest.Ty.Factory
use cicest.Availability.{availability_ct}
use cicest.Tyir.{
  TyExpr, ty_expr, TyNode, TyBlock, TyFnDecl, ValueUseKind, ParamRequirement, absent, present,
  expr_stmt, no_stmts, stmts, block,
}
use cicest.Lir.{LirFnDef, LirStmt, LirTerminatorNode}
use cicest.Lir.Place
use cicest.Lir.Operand
use cicest.Builder.Fn.{lower_fn, build_fn}
use cicest.Builder.{bind_top}
use cicest.Builder.Steps.{has_value, result_local, to_slot}
use cicest.Builder.Frames.{is_in}
use cicest.Builder.Scoped.{Scoped, FnScoped}
use cicest.Builder.Starts.{FnIn}
use cicest.Builder.Function.{open_fn-Ready, lower_fn-FnIn}

abbrev here : SourceSpan
here = record { start = 0; end = 1 }

abbrev typed : TyNode → Ty → TyExpr
typed node t = ty_expr node t here availability_ct

abbrev local : Ty → TyExpr
local t = typed (TyNode.local_ref 20 ValueUseKind.copy) t

abbrev flag : TyExpr
flag = typed (TyNode.local_ref 21 ValueUseKind.copy) (Factory.bool false)

-- `if flag { break n; }`
abbrev break_if : TyExpr
break_if =
    typed
      (TyNode.ty_if flag
        (block
          (stmts
            (expr_stmt
              (typed (TyNode.ty_break (present (local (Factory.num false)))) (Factory.never false))
              here)
            no_stmts)
          absent (Factory.never false) here availability_ct)
        absent)
      (Factory.unit false)

-- `loop { if flag { break n; } }`
abbrev loop_expr : TyExpr
loop_expr =
    typed
      (TyNode.ty_loop (
        block (stmts (expr_stmt break_if here) no_stmts) absent (Factory.unit false) here
          availability_ct))
      (Factory.num false)

abbrev body : TyBlock
body = block no_stmts (present loop_expr) (Factory.num false) here availability_ct

-- `f()`
abbrev call : TyExpr
call = typed (TyNode.ty_call 40 Ty.nil Tyir.nil CallResidue.runtime_barrier) (Factory.unit false)

-- `fn f(n: num, flag: bool) -> num`
abbrev sample : TyFnDecl
sample = record {
  name = 30;
  params =
      record {
        name = 20;
        type = Factory.num false;
        span = here;
        requirement = ParamRequirement.runtime_allowed;
      }
      ∷ record {
        name = 21;
        type = Factory.bool false;
        span = here;
        requirement = ParamRequirement.runtime_allowed;
      }
      ∷ [];
  return_ty = Factory.num false;
  body = body;
  span = here;
}

-- Header 1, after 2, the branch of the if 3 and the block behind it 4.
sample_blocks :
    map (λ b. b.terminator.node) (build_fn sample).blocks
    ≡ LirTerminatorNode.jump 1
      ∷ LirTerminatorNode.switch_bool (Operand.copy (Place.local 1)) 3 4
      ∷ LirTerminatorNode.return_value (some (Operand.copy (Place.local 2)))
      ∷ LirTerminatorNode.jump 2
      ∷ LirTerminatorNode.jump 1
      ∷ []
unfolding build_fn has_value bind_top result_local to_slot pushes_loop
sample_blocks = refl

loop-Scoped : Scoped (20 ∷ 21 ∷ []) false loop_expr
unfolding Scoped is_in pushes_loop
loop-Scoped = (((refl, (((refl, refl, refl), tt), tt), tt), tt), tt)

sample_scoped : FnScoped sample
unfolding Scoped is_in pushes_loop
sample_scoped = (tt, loop-Scoped)

lower_fn-FnIn_example : (fn : LirFnDef) × (lower_fn sample ≡ some fn) × FnIn fn
lower_fn-FnIn_example = lower_fn-FnIn sample sample_scoped

lower_expr_balanced_example :
    let (value, b) = lower_expr (open_fn sample) loop_expr in
    (b.failed ≡ false)
    × (b.scope ≡ (open_fn sample).scope)
    × (b.loop_stack ≡ (open_fn sample).loop_stack)
    × (b.return_slot ≡ (open_fn sample).return_slot)
    × Extends (open_fn sample).locals b.locals
    × (length (open_fn sample).blocks ≤ length b.blocks)
    × OperandIn (length b.locals) value
lower_expr_balanced_example =
    lower_expr_balanced (20 ∷ 21 ∷ []) false loop_expr (open_fn sample) loop-Scoped
      (open_fn-Ready sample).0

abbrev loop_of : TyExpr → Ty → TyExpr
loop_of e t =
    typed
      (TyNode.ty_loop (
        block (stmts (expr_stmt e here) no_stmts) absent (Factory.unit false) here availability_ct))
      t

abbrev break_with : TyExpr → TyExpr
break_with e = typed (TyNode.ty_break (present e)) (Factory.never false)

abbrev returning : TyExpr → Ty → TyFnDecl
returning e t = record sample {
  return_ty = t;
  body = block no_stmts (present e) t here availability_ct;
}

-- `loop { break f(); }` of type `()` has no call.
call_dropped :
    map {B = List LirStmt × LirTerminatorNode}
      (λ b. (b.stmts, b.terminator.node))
      (build_fn
        (returning (loop_of (break_with call) (Factory.unit false)) (Factory.unit false))).blocks
    ≡ ([], LirTerminatorNode.jump 1)
      ∷ ([], LirTerminatorNode.jump 2)
      ∷ ([], LirTerminatorNode.return_value none)
      ∷ []
unfolding build_fn has_value bind_top result_local to_slot pushes_loop
call_dropped = refl

-- `loop { break (loop { break n; }); }`: a loop in the value of a `break`.
loop_in_break :
    (build_fn (
      returning
        (loop_of
          (break_with (loop_of (break_with (local (Factory.num false))) (Factory.num false)))
          (Factory.num false))
        (Factory.num false))).failed
    ≡ true
unfolding build_fn has_value bind_top result_local to_slot pushes_loop
loop_in_break = refl

-- `Pair<num, &S>` of a table with the names of the item and of the struct.
abbrev table : SymbolTable
table = intern_all empty_table (bytes "Pair" ∷ bytes "S" ∷ [])

abbrev pair_args : Bool → Tys
pair_args runtime =
    Ty.cons (Factory.num false)
      (Ty.cons (Factory.ref (Factory.named 2 2 Ty.copy runtime Ty.nil) false) Ty.nil)

sample_key : instantiation_cache_key table 1 (pair_args true) ≡ bytes "Pair<N,RT1_S_rt>"
unfolding instantiation_cache_key intern_all resolve empty_table bytes_eq intern_new digits is_valid
sample_key = refl

-- The names of `B<C<num>>` and of `B_x24inst_x24T8_C<num>` for struct templates `B`, `C` and `B_x24inst_x24T8_C`.
encodings_collide :
    encode_text (bytes "B$inst$T8_C_x24inst_x24N") ≡ encode_text (bytes "B_x24inst_x24T8_C$inst$N")
unfolding encode_text
encodings_collide = refl

pair-IsPlain : IsPlain (resolve table 1)
unfolding intern_all resolve empty_table is_ident_continue is_valid bytes_eq intern_new
pair-IsPlain = (refl, (refl, (refl, (refl, tt))))

pair_args-PlainTypes : (runtime : Bool) → PlainTypes table (pair_args runtime)
unfolding intern_all resolve empty_table is_ident_continue is_valid bytes_eq intern_new
pair_args-PlainTypes runtime = (tt, (((refl, tt), tt), tt))

instantiation_cache_key_eq_iff_example :
    (instantiation_cache_key table 1 (pair_args true)
      ≡ instantiation_cache_key table 1 (pair_args false))
    ↔ ((resolve table 1 ≡ resolve table 1)
        × (codes table (pair_args true) ≡ codes table (pair_args false)))
instantiation_cache_key_eq_iff_example =
    instantiation_cache_key_eq_iff table 1 1 (pair_args true) (pair_args false) pair-IsPlain
      pair-IsPlain (pair_args-PlainTypes true) (pair_args-PlainTypes false)

-- The parameter 50 is replaced by `num`.
abbrev to_num : TypeSubstitution
to_num = (50, Factory.num false) ∷ []

abbrev is_fifty : Symbol → Bool
is_fifty n = n == 50

to_num-Replaces : Replaces is_fifty to_num
unfolding find_type
to_num-Replaces n = elim (Bool-cases (is_fifty n)) [
  | inl hit ↦ inr (Factory.num false, ground (arith, hit), tt)
  | inr miss ↦ inl (miss, ground (arith, miss))
]

to_num-only : (n : Symbol) → is_fifty n ≡ false → find_type n to_num ≡ none
unfolding find_type
to_num-only n miss = ground (arith, miss)

-- `Box<T>` with `T` as 50.
abbrev box : Ty
box = Factory.named 51 51 Ty.copy false (Ty.cons (Factory.named 50 50 Ty.copy true Ty.nil) Ty.nil)

apply_substitution-IsClosed_example :
    IsClosed is_fifty (apply_substitution to_num box)
    × (IsClosed is_fifty box → apply_substitution to_num box ≡ box)
    × (apply_substitution to_num (apply_substitution to_num box) ≡ apply_substitution to_num box)
apply_substitution-IsClosed_example =
    apply_substitution-IsClosed is_fifty to_num to_num-Replaces to_num-only box
