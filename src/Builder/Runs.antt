-- ===== src/Builder/Runs.antt =====
-- compiler/cstc_lir_builder/src/builder.cpp: the drops of the scopes that are left.
use cicest.Prelude.{
  ℕ, zero, suc, ◌-◌, ◌≤◌, ◌<◌, ◌≡◌, refl, ap, sym, append-nil, Bool, true, false, not, ◌||◌, List,
  [], ◌∷◌, some, All, length, leb, arith, get_elem?, le→leb,
}
use cicest.Span.{SourceSpan}
use cicest.Lir.{LirLocalId, LirStmt, LirLocalDecl}
use cicest.Lir.Const.{is_move_only}
use cicest.Builder.{
  FnBuilder, emit_stmt, emit_drop, emit_drops, emit_frames, emit_scope_drops_to_depth,
  emit_current_scope_drops, is_empty,
}
use cicest.Builder.Bounds.{FrameIn, Fits, Calm}
use cicest.Builder.Grow.{FrameIn-grow, All-map}
use cicest.Builder.Seals.{assert-Sound}
use cicest.Builder.Computes.{Calm-refl, Calm-trans, emit_stmt-Calm}

get_elem?-some {ℓ} :
    {A : Type ℓ} (xs : List A) (i : ℕ) → i < length xs → (a : A) × (get_elem? xs i ≡ some a)
get_elem?-some [] i lt = absurd (omega arith)
get_elem?-some (x ∷ xs) zero lt = (x, refl)
get_elem?-some (x ∷ xs) (suc i) lt = get_elem?-some xs i (omega arith)

pub local-found :
    (b : FnBuilder) (id : LirLocalId)
    → id < length b.locals
    → (d : LirLocalDecl) × (get_elem? b.locals id ≡ some d)
local-found b id lt = get_elem?-some b.locals id lt

drop_if-Calm :
    (span : SourceSpan) (id : LirLocalId) (m : Bool) (b : FnBuilder)
    → id < length b.locals
    → Fits b
    → Calm b (elim m [ true ↦ emit_stmt (LirStmt.drop_local id span) b | false ↦ b ])
drop_if-Calm span id true b lt h = emit_stmt-Calm (LirStmt.drop_local id span) b lt h
drop_if-Calm span id false b lt h = Calm-refl b h

emit_drop-Calm :
    (span : SourceSpan) (id : LirLocalId) (b : FnBuilder)
    → id < length b.locals
    → Fits b
    → Calm b (emit_drop span id b)
unfolding emit_drop
emit_drop-Calm span id b lt h =
    let (d, hit) = local-found b id lt in
    rw (hit, emit_drop) (drop_if-Calm span id (is_move_only d.type) b lt h)

emit_drops-Calm :
    (span : SourceSpan) (ids : List LirLocalId) (b : FnBuilder)
    → FrameIn (length b.locals) ids
    → Fits b
    → Calm b (emit_drops span ids b)
unfolding emit_drops
emit_drops-Calm span [] b inside h = Calm-refl b h
emit_drops-Calm span (id ∷ ids) b inside h =
    let one = emit_drop-Calm span id b inside.0 h in
    Calm-trans one (
      emit_drops-Calm span ids (emit_drop span id b)
        (FrameIn-grow one.goes.grows.locals_grow ids inside.1) one.goes.fits)

emit_frames-Calm :
    (span : SourceSpan) (n : ℕ) (frames : List (List LirLocalId)) (b : FnBuilder)
    → All (FrameIn (length b.locals)) frames
    → Fits b
    → Calm b (emit_frames span n frames b)
unfolding emit_frames
emit_frames-Calm span zero frames b inside h = Calm-refl b h
emit_frames-Calm span (suc n) [] b inside h = Calm-refl b h
emit_frames-Calm span (suc n) (frame ∷ frames) b inside h =
    let one = emit_drops-Calm span frame b inside.0 h in
    Calm-trans one (
      emit_frames-Calm span n frames (emit_drops span frame b)
        (All-map (FrameIn-grow one.goes.grows.locals_grow) frames inside.1) one.goes.fits)

pub assert-Calm :
    (b : FnBuilder) (c : Bool)
    → c ≡ true
    → Fits b
    → Calm b (record b { failed = b.failed || not c })
assert-Calm b c e h = record {
  goes = record {
    fits = record { sound = assert-Sound b c e h.sound; current_in = h.current_in };
    grows = record {
      locals_grow = omega arith;
      locals_kept = ([], sym (append-nil b.locals));
      blocks_grow = omega arith;
      same_loops = refl;
      same_slot = refl;
    };
    same_scope = refl;
  };
  same_end = refl;
}

pub emit_scope_drops_to_depth-Calm :
    (target : ℕ) (span : SourceSpan) (b : FnBuilder)
    → target ≤ length b.scope
    → Fits b
    → Calm b (emit_scope_drops_to_depth target span b)
unfolding emit_scope_drops_to_depth
emit_scope_drops_to_depth-Calm target span b le h =
    let ok = assert-Calm b (leb target (length b.scope)) (le→leb target (length b.scope) le) h in
    Calm-trans ok (
      emit_frames-Calm span (length b.scope - target) b.scope_locals
        (record b { failed = b.failed || not (leb target (length b.scope)) }) h.sound.frames_in
        ok.goes.fits)

pub emit_current_scope_drops-Calm :
    (span : SourceSpan) (b : FnBuilder)
    → is_empty b.scope ≡ false
    → Fits b
    → Calm b (emit_current_scope_drops span b)
unfolding emit_current_scope_drops
emit_current_scope_drops-Calm span b nonempty h =
    let ok = assert-Calm b (not (is_empty b.scope)) (ap not nonempty) h in
    Calm-trans ok (
      emit_scope_drops_to_depth-Calm (length b.scope - 1) span
        (record b { failed = b.failed || not (not (is_empty b.scope)) }) (omega arith) ok.goes.fits)
