-- ===== src/Span/Layout.antt =====
-- How the source map lays its files out in the global position space.
use cicest.Prelude.{
  get_elem?-concat_length, get_elem?-concat_lt, some_inj, subst, ap, ◌↔◌, ℕ, zero, suc, ◌+◌, ◌≤◌,
  ◌<◌, ◌^◌, ◌≡◌, refl, List, [], ◌∷◌, ◌++◌, some, inl, inr, arith, ltb, leb, length, get_elem?,
  Bytes, false, ◌&&◌, Bool-cases,
}
use cicest.Span.{
  SourceSpan, SourceFile, SourceMap, empty_map, add_file, file, find_file, lookup_file, to_size_t,
}
use cicest.Span.Lines.{IsLineTable}

-- The files from id `i` and position `p` on: each has its table, starts one spare byte behind the one before it,
-- and the next file would start at `q`.
abbrev pub IsLaid : ℕ → ℕ → List SourceFile → ℕ → Type 0
IsLaid p i [] q = p ≡ q
IsLaid p i (f ∷ fs) q =
    (f.start_pos ≡ p) × (f.id ≡ i) × IsLineTable f × IsLaid (f.end_pos + 1) (i + 1) fs q

-- The invariant of a source map.
pub record IsValid (m : SourceMap) : Type 0 where
  pub laid : IsLaid 0 0 m.files m.next_start_pos
  pub fits : m.next_start_pos < 2 ^ 64

pub empty_map-IsValid : IsValid empty_map
empty_map-IsValid = record { laid = refl; fits = omega arith }

IsLaid-concat :
    (fs : List SourceFile) (f : SourceFile) (p i q r : ℕ)
    → IsLaid p i fs q
    → f.start_pos ≡ q
    → f.id ≡ i + length fs
    → IsLineTable f
    → f.end_pos + 1 ≡ r
    → IsLaid p i (fs ++ f ∷ []) r
IsLaid-concat [] f p i q r h s d v e = (omega arith, omega arith, v, e)
IsLaid-concat (g ∷ fs) f p i q r (a, b, c, t) s d v e =
    (a, b, c, IsLaid-concat fs f (g.end_pos + 1) (i + 1) q r t s (omega arith) v e)

-- Behind the new file the map is laid out as before.
added-IsValid :
    (m : SourceMap) (name text : Bytes)
    → IsValid m
    → m.next_start_pos + length text + 1 < 2 ^ 64
    → IsValid (add_file m name text).0
unfolding add_file
added-IsValid m name text v room =
    let end_exact : to_size_t (m.next_start_pos + length text) ≡ m.next_start_pos + length text =
      omega arith in
    let next_exact : to_size_t (m.next_start_pos + length text + 1)
        ≡ m.next_start_pos + length text + 1 =
      omega arith in
    rw end_exact (
      rw next_exact (record {
        laid =
            IsLaid-concat m.files _ 0 0 m.next_start_pos _ v.laid refl (omega arith)
              (record { table = refl; range = refl }) refl;
        fits = room;
      }))

IsLaid-le : (fs : List SourceFile) (p i q : ℕ) → IsLaid p i fs q → p ≤ q
IsLaid-le [] p i q h = omega arith
IsLaid-le (g ∷ fs) p i q (a, b, c, t) =
    omega (arith, c.range, IsLaid-le fs (g.end_pos + 1) (i + 1) q t)

-- A file lies between the positions that bound the layout, and has its id.
pub IsLaid-get :
    (fs : List SourceFile) (p i q k : ℕ) {f : SourceFile}
    → IsLaid p i fs q
    → get_elem? fs k ≡ some f
    → (p ≤ f.start_pos) × (f.end_pos < q) × (f.id ≡ i + k) × IsLineTable f
IsLaid-get [] p i q k h e = cc
IsLaid-get (g ∷ fs) p i q zero (a, b, c, t) e =
    subst (λ h. (p ≤ h.start_pos) × (h.end_pos < q) × (h.id ≡ i + 0) × IsLineTable h) (some_inj e)
      (omega arith, omega (arith, IsLaid-le fs (g.end_pos + 1) (i + 1) q t), omega arith, c)
IsLaid-get (g ∷ fs) p i q (suc k) (a, b, c, t) e =
    let (l, u, d, v) = IsLaid-get fs (g.end_pos + 1) (i + 1) q k t e in
    (omega (arith, c.range), u, omega arith, v)

-- The span lies in the file's range.
pub record Holds (f : SourceFile) (s : SourceSpan) : Type 0 where
  pub ordered : s.start ≤ s.end
  pub from : f.start_pos ≤ s.start
  pub to : s.end ≤ f.end_pos

find_file-get :
    (fs : List SourceFile) (p i q k : ℕ) (f : SourceFile) (s : SourceSpan)
    → IsLaid p i fs q
    → get_elem? fs k ≡ some f
    → Holds f s
    → find_file fs s ≡ some f
unfolding find_file
find_file-get [] p i q k f s h e o = cc
find_file-get (g ∷ fs) p i q zero f s h e o = ground (arith, some_inj e)
find_file-get (g ∷ fs) p i q (suc k) f s (a, b, c, t) e o =
    let (l, _, _, _) = IsLaid-get fs (g.end_pos + 1) (i + 1) q k t e in
    let past : leb s.end g.end_pos ≡ false = ground arith in
    ground (arith, find_file-get fs (g.end_pos + 1) (i + 1) q k f s t e o)

find_file_sound :
    (fs : List SourceFile) (s : SourceSpan) {f : SourceFile}
    → find_file fs s ≡ some f
    → (k : ℕ) × (get_elem? fs k ≡ some f) × (f.start_pos ≤ s.start) × (s.end ≤ f.end_pos)
unfolding find_file
find_file_sound [] s e = cc
find_file_sound (g ∷ fs) s {f} e =
    elim (Bool-cases (leb g.start_pos s.start && leb s.end g.end_pos)) [
      | inl hit ↦
          let found : g ≡ f = some_inj (rw hit at e) in
          (0, ap some found, ground arith, ground arith)
      | inr miss ↦
          let (k, at_k, from, to) = find_file_sound fs s (rw miss at e) in (suc k, at_k, from, to)
    ]

-- In a valid map, `lookup_file` returns a file exactly when that is a file of the map and the span is ordered
-- and lies in its range: no two files hold one span.
pub lookup_file_iff :
    (m : SourceMap) (s : SourceSpan) (f : SourceFile)
    → IsValid m
    → (lookup_file m s ≡ some f) ↔ ((k : ℕ) × (file m k ≡ some f) × Holds f s)
unfolding lookup_file
lookup_file_iff m s f v = (found, looked_up)
  where
    found : lookup_file m s ≡ some f → (k : ℕ) × (file m k ≡ some f) × Holds f s
    found e = elim (Bool-cases (ltb s.end s.start)) [
      | inl backwards ↦ absurd (cc (rw backwards at e))
      | inr ordered ↦
          let (k, at_k, from, to) = find_file_sound m.files s (rw ordered at e) in
          (k, at_k, record { ordered = ground arith; from = from; to = to })
    ]

    looked_up : (k : ℕ) × (file m k ≡ some f) × Holds f s → lookup_file m s ≡ some f
    looked_up (k, e, o) =
        let ordered : ltb s.end s.start ≡ false = ground arith in
        rw ordered (find_file-get m.files 0 0 m.next_start_pos k f s v.laid e o)

-- `add_file` returns the id at which the new map has the file, with its name, its text and its range, and the
-- earlier files keep their ids.
file-add_file :
    (m : SourceMap) (name text : Bytes)
    → IsValid m
    → m.next_start_pos + length text + 1 < 2 ^ 64
    → ((f : SourceFile) × (file (add_file m name text).0 (add_file m name text).1 ≡ some f)
        × (f.id ≡ (add_file m name text).1)
        × (f.name ≡ name)
        × (f.source ≡ text)
        × (f.start_pos ≡ m.next_start_pos)
        × IsLineTable f)
      × ((k : ℕ) → k < length m.files → file (add_file m name text).0 k ≡ file m k)
unfolding add_file
file-add_file m name text v room =
    let end_exact : to_size_t (m.next_start_pos + length text) ≡ m.next_start_pos + length text =
      omega arith in
    (
      (
        _,
        get_elem?-concat_length m.files _,
        refl,
        refl,
        refl,
        refl,
        record { table = refl; range = end_exact },
      ),
      λ k h. get_elem?-concat_lt m.files _ k h,
    )

-- While the position space is not used up, `add_file` keeps the map valid. The id that it returns is the number of files
-- before; at that id the new map has a file with that id, the name and the text, which starts at the next free position
-- and has its line table; the files before keep their ids; and the next free position is one behind the new file.
pub add_file-IsValid :
    (m : SourceMap) (name text : Bytes)
    → IsValid m
    → m.next_start_pos + length text + 1 < 2 ^ 64
    → let (m', id) = add_file m name text in
      IsValid m'
      × (id ≡ length m.files)
      × (m'.next_start_pos ≡ m.next_start_pos + length text + 1)
      × ((f : SourceFile) × (file m' id ≡ some f)
          × (f.id ≡ id)
          × (f.name ≡ name)
          × (f.source ≡ text)
          × (f.start_pos ≡ m.next_start_pos)
          × IsLineTable f)
      × ((k : ℕ) → k < length m.files → file m' k ≡ file m k)
unfolding add_file
add_file-IsValid m name text v room =
    let next_exact : to_size_t (to_size_t (m.next_start_pos + length text) + 1)
        ≡ m.next_start_pos + length text + 1 =
      omega arith in
    let (entry, others) = file-add_file m name text v room in
    (added-IsValid m name text v room, refl, next_exact, entry, others)
