-- ===== src/Span/Examples.antt =====
-- A map of two files, and the theorems at it.
use cicest.Prelude.{ℕ, ◌≤◌, ◌<◌, ◌+◌, ◌≡◌, refl, none, some, ◌↔◌, ◌⊎◌, arith, length, Bytes, bytes}
use cicest.Prelude.{[], ◌∷◌}
use cicest.Span.{
  location_in, upper_bound, SourceSpan, SourceFile, SourceMap, empty_map, add_file,
  build_line_starts, file, lookup_file, make_span, resolve_span, resolve_location, merge,
}
use cicest.Span.Lines.{IsLineTable, location_at, resolve_location_lem}
use cicest.Span.Layout.{IsValid, Holds, add_file-IsValid, lookup_file_iff}
use cicest.Span.Resolve.{Covers, make_span_refuses, resolve_span-make_span, merge_least}

abbrev main_text : Bytes
main_text = bytes "fn main\n() {}\n"

abbrev main_file : SourceFile
main_file = record {
  id = 0;
  name = bytes "main.cst";
  source = main_text;
  start_pos = 0;
  end_pos = 14;
  line_starts = 0 ∷ 8 ∷ 14 ∷ [];
}

abbrev one_file : SourceMap
one_file = record { files = main_file ∷ []; next_start_pos = 15 }

one_file_lem : add_file empty_map (bytes "main.cst") main_text ≡ (one_file, 0)
unfolding add_file
one_file_lem = refl

main_file-IsLineTable : IsLineTable main_file
unfolding build_line_starts
main_file-IsLineTable = record { table = refl; range = refl }

one_file-IsValid : IsValid one_file
one_file-IsValid = record { laid = (refl, refl, main_file-IsLineTable, refl); fits = omega arith }

second_line : resolve_location main_file 10 ≡ record { line = 2; column = 3 }
unfolding resolve_location location_in upper_bound
second_line = refl

resolve_location_lem_example :
    ((n : ℕ)
      → n ≤ length main_text
      → resolve_location main_file (0 + n) ≡ location_at main_text n 1 1)
    × ((p : ℕ) → p < 0 → resolve_location main_file p ≡ location_at main_text 0 1 1)
    × ((p : ℕ)
        → 14 < p
        → resolve_location main_file p ≡ location_at main_text (length main_text) 1 1)
resolve_location_lem_example = resolve_location_lem main_file main_file-IsLineTable

add_file-IsValid_example :
    let (m, id) = add_file one_file (bytes "b") (bytes "x") in
    IsValid m
    × (id ≡ 1)
    × (m.next_start_pos ≡ 15 + 1 + 1)
    × ((f : SourceFile) × (file m id ≡ some f)
        × (f.id ≡ id)
        × (f.name ≡ bytes "b")
        × (f.source ≡ bytes "x")
        × (f.start_pos ≡ 15)
        × IsLineTable f)
    × ((k : ℕ) → k < 1 → file m k ≡ file one_file k)
add_file-IsValid_example =
    add_file-IsValid one_file (bytes "b") (bytes "x") one_file-IsValid (omega arith)

abbrev brackets : SourceSpan
brackets = record { start = 8; end = 10 }

lookup_file_iff_example :
    (lookup_file one_file brackets ≡ some main_file)
    ↔ ((k : ℕ) × (file one_file k ≡ some main_file) × Holds main_file brackets)
lookup_file_iff_example = lookup_file_iff one_file brackets main_file one_file-IsValid

make_span_refuses_example :
    (make_span one_file 0 8 20 ≡ none)
    ↔ ((f : SourceFile) → file one_file 0 ≡ some f → (20 < 8) ⊎ (length f.source < 20))
make_span_refuses_example = make_span_refuses one_file 0 8 20 one_file-IsValid

resolve_span-make_span_example :
    (make_span one_file 0 8 10 ≡ some brackets)
    × (resolve_span one_file brackets
        ≡ some (record {
          file_id = 0;
          file_name = bytes "main.cst";
          absolute = brackets;
          local = record { start = 8; end = 10 };
          start = record { line = 2; column = 1 };
          end = record { line = 2; column = 3 };
        }))
resolve_span-make_span_example =
    resolve_span-make_span one_file 0 8 10 main_file one_file-IsValid refl (omega arith)
      (omega arith)

sample_merge :
    (Covers (merge brackets brackets) brackets × Covers (merge brackets brackets) brackets)
    × ((c : SourceSpan)
        → Covers c brackets
        → Covers c brackets
        → Covers c (merge brackets brackets))
sample_merge = merge_least brackets brackets
