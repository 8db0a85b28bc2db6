-- ===== src/Span/Resolve.antt =====
-- Spans that are made from file-local offsets resolve back to them.
use cicest.Prelude.{
  subst, sym, ap, ◌∙◌, some_inj, Option-cases, ℕ, ◌+◌, ◌≤◌, ◌<◌, ◌^◌, ◌≡◌, none, some, ◌⊎◌, inl,
  inr, arith, length, ◌↔◌,
}
use cicest.Span.{
  SourceLocation, SourceSpan, SourceFile, SourceMap, file, lookup_file, make_span, span_in,
  resolve_in, resolve_span, resolve_location, merge, to_size_t,
}
use cicest.Span.Lines.{IsLineTable, location_at, resolve_location_lem}
use cicest.Span.Layout.{IsValid, IsLaid-get, lookup_file_iff}

abbrev pub Covers : SourceSpan → SourceSpan → Type 0
Covers c s = (c.start ≤ s.start) × (s.end ≤ c.end)

-- The span of a file's local range.
abbrev pub global : SourceFile → ℕ → ℕ → SourceSpan
global f local_start local_end = record {
  start = f.start_pos + local_start;
  end = f.start_pos + local_end;
}

span_in_lem :
    (f : SourceFile) (a b : ℕ)
    → IsLineTable f
    → f.end_pos < 2 ^ 64
    → a ≤ b
    → b ≤ length f.source
    → span_in f a b ≡ some (global f a b)
unfolding span_in
span_in_lem f a b v fits h k =
    let first : to_size_t (f.start_pos + a) ≡ f.start_pos + a = omega (arith, v.range) in
    let last : to_size_t (f.start_pos + b) ≡ f.start_pos + b = omega (arith, v.range) in
    let range = v.range in ground arith

-- A file of a valid map: its id, its table, and its end within the position space.
file_facts :
    (m : SourceMap) (id : ℕ) (f : SourceFile)
    → IsValid m
    → file m id ≡ some f
    → (f.id ≡ id) × IsLineTable f × (f.end_pos < 2 ^ 64)
file_facts m id f v e =
    let (_, below, at_id, table) = IsLaid-get m.files 0 0 m.next_start_pos id v.laid e in
    (omega arith, table, omega (arith, v.fits))

make_span-file :
    (m : SourceMap) (id a b : ℕ) (f : SourceFile)
    → file m id ≡ some f
    → make_span m id a b ≡ span_in f a b
unfolding make_span
make_span-file m id a b f e = rw (e, make_span)

make_span-none : (m : SourceMap) (id a b : ℕ) → file m id ≡ none → make_span m id a b ≡ none
unfolding make_span
make_span-none m id a b e = rw (e, make_span)

span_in-none_iff :
    (f : SourceFile) (a b : ℕ)
    → IsLineTable f
    → (span_in f a b ≡ none) ↔ ((b < a) ⊎ (length f.source < b))
unfolding span_in
span_in-none_iff f a b v = let range = v.range in ground arith

-- In a valid map `make_span` refuses exactly when the id is unknown, the end is before the start, or the end is
-- behind the file's text.
pub make_span_refuses :
    (m : SourceMap) (id a b : ℕ)
    → IsValid m
    → (make_span m id a b ≡ none)
      ↔ ((f : SourceFile) → file m id ≡ some f → (b < a) ⊎ (length f.source < b))
make_span_refuses m id a b v = elim (Option-cases (file m id)) [
  | inl unknown ↦ (λ _ f e. absurd (cc (e, unknown)), λ _. make_span-none m id a b unknown)
  | inr (g, known) ↦
      let (_, table, _) = file_facts m id g v known in
      let refused = span_in-none_iff g a b table in
      let same = make_span-file m id a b g known in
      (
        λ none_made f e.
            subst (λ h. (b < a) ⊎ (length h.source < b)) (some_inj (sym known ∙ e))
              (refused.0 (sym same ∙ none_made)),
        λ all. same ∙ refused.1 (all g known),
      )
]

resolve_in_lem :
    (f : SourceFile) (id a b : ℕ) {first last : SourceLocation}
    → f.id ≡ id
    → resolve_location f (f.start_pos + a) ≡ first
    → resolve_location f (f.start_pos + b) ≡ last
    → resolve_in f (global f a b) ≡ record {
      file_id = id;
      file_name = f.name;
      absolute = global f a b;
      local = record { start = a; end = b };
      start = first;
      end = last;
    }
unfolding resolve_in
resolve_in_lem f id a b d p q = ground arith

-- A span made from offsets of a file of a valid map resolves to that file, to those offsets, and to the lines and
-- columns that a scan of the file's text finds there.
pub resolve_span-make_span :
    (m : SourceMap) (id a b : ℕ) (f : SourceFile)
    → IsValid m
    → file m id ≡ some f
    → a ≤ b
    → b ≤ length f.source
    → (make_span m id a b ≡ some (global f a b))
      × (resolve_span m (global f a b)
          ≡ some (record {
            file_id = id;
            file_name = f.name;
            absolute = global f a b;
            local = record { start = a; end = b };
            start = location_at f.source a 1 1;
            end = location_at f.source b 1 1;
          }))
unfolding resolve_span
resolve_span-make_span m id a b f v e h k =
    let (at_id, table, fits) = file_facts m id f v e in
    let range = table.range in
    let found : lookup_file m (global f a b) ≡ some f =
      (lookup_file_iff m (global f a b) f v).1
        (id, e, record { ordered = omega arith; from = omega arith; to = omega arith }) in
    let (locate, _, _) = resolve_location_lem f table in
    (
      make_span-file m id a b f e ∙ span_in_lem f a b table fits h k,
      rw (found, resolve_span)
          (ap some (resolve_in_lem f id a b at_id (locate a (omega arith)) (locate b k))),
    )

-- `merge` is the least span that covers both: it covers them, and any span that covers both covers it.
pub merge_least :
    (a b : SourceSpan)
    → (Covers (merge a b) a × Covers (merge a b) b)
      × ((c : SourceSpan) → Covers c a → Covers c b → Covers c (merge a b))
unfolding merge
merge_least a b = (ground arith, λ c h k. ground arith)
