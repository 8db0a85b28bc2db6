-- ===== src/Span.antt =====
-- compiler/cstc_span/include/cstc_span/span.hpp: byte spans and the source map.
-- A `std::size_t` is a number below 2^64, and sums wrap. The vector of files is a list.
pub mod Lines
pub mod Layout
pub mod Resolve
mod Examples
use cicest.Prelude.{
  ℕ, zero, suc, ◌+◌, ◌-◌, ◌%◌, ◌^◌, Bool, true, false, ◌&&◌, ◌||◌, List, [], ◌∷◌, ◌++◌, Option,
  none, some, leb, ltb, ◌==◌, if◌then◌else◌, length, get_elem?, get_or, Bytes,
}

-- `BytePos` arithmetic.
abbrev pub to_size_t : ℕ → ℕ
to_size_t n = n % 2 ^ 64

pub record SourceSpan : Type 0 where
  pub start : ℕ
  pub end : ℕ

pub span_length : SourceSpan → ℕ
span_length s = if leb s.start s.end then s.end - s.start else 0

-- 1-based.
pub record SourceLocation : Type 0 where
  pub line : ℕ
  pub column : ℕ

pub record SourceFile : Type 0 where
  pub id : ℕ
  pub name : Bytes
  pub source : Bytes
  pub start_pos : ℕ
  pub end_pos : ℕ
  pub line_starts : List ℕ

unfoldable pub file_size : SourceFile → ℕ
file_size f = if leb f.start_pos f.end_pos then f.end_pos - f.start_pos else 0

pub file_span : SourceFile → SourceSpan
file_span f = record { start = f.start_pos; end = f.end_pos }

pub record ResolvedSpan : Type 0 where
  pub file_id : ℕ
  pub file_name : Bytes
  pub absolute : SourceSpan
  pub local : SourceSpan
  pub start : SourceLocation
  pub end : SourceLocation

unfoldable pub merge : SourceSpan → SourceSpan → SourceSpan
merge lhs rhs = record {
  start = if ltb lhs.start rhs.start then lhs.start else rhs.start;
  end = if ltb rhs.end lhs.end then lhs.end else rhs.end;
}

pub record SourceMap : Type 0 where
  pub files : List SourceFile
  pub next_start_pos : ℕ

abbrev pub empty_map : SourceMap
empty_map = record { files = []; next_start_pos = 0 }

-- The loop of `build_line_starts` from byte `index` on, behind the starts found so far.
unfoldable pub line_starts_from : ℕ → Bytes → List ℕ → List ℕ
line_starts_from index [] starts = starts
line_starts_from index (c ∷ cs) starts =
    line_starts_from (index + 1) cs (if c == b'\n' then starts ++ (index + 1) ∷ [] else starts)

unfoldable pub build_line_starts : Bytes → List ℕ
unfolding line_starts_from
build_line_starts source_text = line_starts_from 0 source_text (0 ∷ [])

-- `std::upper_bound` on a sorted range: the position of the first element above `value`.
unfoldable pub upper_bound : List ℕ → ℕ → ℕ
upper_bound [] value = 0
upper_bound (x ∷ xs) value = if ltb value x then 0 else suc (upper_bound xs value)

-- The part of `resolve_location` behind the clamped local offset.
unfoldable pub location_in : List ℕ → ℕ → SourceLocation
unfolding upper_bound
location_in line_starts local =
    let upper = upper_bound line_starts local in
    let line_index = if upper == 0 then 0 else upper - 1 in
    let line_start = get_or line_starts line_index 0 in
    record { line = line_index + 1; column = local - line_start + 1 }

unfoldable pub resolve_location : SourceFile → ℕ → SourceLocation
resolve_location f absolute_pos =
    let clamped = if ltb f.end_pos absolute_pos then f.end_pos else absolute_pos in
    if ltb absolute_pos f.start_pos
    then record { line = 1; column = 1 }
    else location_in f.line_starts (clamped - f.start_pos)

-- `add_file`: the new map and the id.
unfoldable pub add_file : SourceMap → Bytes → Bytes → SourceMap × ℕ
unfolding build_line_starts
add_file m file_name source_text =
    let id = length m.files in
    let start_pos = m.next_start_pos in
    let end_pos = to_size_t (start_pos + length source_text) in
    let file : SourceFile = record {
      id = id;
      name = file_name;
      source = source_text;
      start_pos = start_pos;
      end_pos = end_pos;
      line_starts = build_line_starts source_text;
    } in
    (record { files = m.files ++ file ∷ []; next_start_pos = to_size_t (end_pos + 1) }, id)

-- `file`: `none` is the null pointer.
abbrev pub file : SourceMap → ℕ → Option SourceFile
file m id = get_elem? m.files id

-- The search of `lookup_file`.
unfoldable pub find_file : List SourceFile → SourceSpan → Option SourceFile
find_file [] s = none
find_file (f ∷ fs) s =
    if leb f.start_pos s.start && leb s.end f.end_pos then some f else find_file fs s

unfoldable pub lookup_file : SourceMap → SourceSpan → Option SourceFile
unfolding find_file
lookup_file m s = if ltb s.end s.start then none else find_file m.files s

-- `make_span` behind the look-up of the file.
unfoldable pub span_in : SourceFile → ℕ → ℕ → Option SourceSpan
unfolding file_size
span_in f local_start local_end =
    if ltb local_end local_start || ltb (file_size f) local_end
    then none
    else some (record {
      start = to_size_t (f.start_pos + local_start);
      end = to_size_t (f.start_pos + local_end);
    })

unfoldable pub make_span : SourceMap → ℕ → ℕ → ℕ → Option SourceSpan
unfolding span_in
make_span m id local_start local_end = elim (file m id) [
  | none ↦ none
  | some f ↦ span_in f local_start local_end
]

-- `resolve_span` behind the look-up of the file.
unfoldable pub resolve_in : SourceFile → SourceSpan → ResolvedSpan
unfolding resolve_location
resolve_in f s = record {
  file_id = f.id;
  file_name = f.name;
  absolute = s;
  local = record { start = s.start - f.start_pos; end = s.end - f.start_pos };
  start = resolve_location f s.start;
  end = resolve_location f s.end;
}

unfoldable pub resolve_span : SourceMap → SourceSpan → Option ResolvedSpan
unfolding lookup_file resolve_in
resolve_span m s = elim (lookup_file m s) [ none ↦ none | some f ↦ some (resolve_in f s) ]
