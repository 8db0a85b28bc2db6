-- ===== src/Span/Lines.antt =====
-- Lines and columns: `build_line_starts` and `resolve_location` against a scan of the text.
use cicest.Prelude.{
  ℕ, zero, suc, ◌+◌, ◌-◌, ◌≤◌, ◌<◌, ◌≡◌, refl, sym, ap, ◌∙◌, List, [], ◌∷◌, ◌++◌, inl, inr, arith,
  ltb, ◌==◌, if◌then◌else◌, length, get_or, Bytes, false, lt→ltb, Bool-cases, append-nil,
  append_assoc,
}
use cicest.Span.{
  SourceLocation, SourceFile, line_starts_from, build_line_starts, upper_bound, resolve_location,
  location_in,
}

-- The location after `offset` bytes of a text that starts at `line` and `column`: a newline byte goes to the
-- next line, and any other to the next column.
abbrev pub location_at : Bytes → ℕ → ℕ → ℕ → SourceLocation
location_at cs zero line column = record { line = line; column = column }
location_at [] (suc n) line column = record { line = line; column = column }
location_at (c ∷ cs) (suc n) line column =
    location_at cs n (if c == b'\n' then line + 1 else line) (if c == b'\n' then 1 else column + 1)

-- The starts of the lines behind the first, of a text whose first byte is at `index`.
abbrev starts_behind : ℕ → Bytes → List ℕ
starts_behind index [] = []
starts_behind index (c ∷ cs) =
    if c == b'\n' then (index + 1) ∷ starts_behind (index + 1) cs else starts_behind (index + 1) cs

line_starts_from-starts_behind :
    (index : ℕ) (cs : Bytes) (starts : List ℕ)
    → line_starts_from index cs starts ≡ starts ++ starts_behind index cs
unfolding line_starts_from
line_starts_from-starts_behind index [] starts = sym (append-nil starts)
line_starts_from-starts_behind index (c ∷ cs) starts = elim (Bool-cases (c == b'\n')) [
  | inl newline ↦ rw newline (
      line_starts_from-starts_behind (index + 1) cs (starts ++ (index + 1) ∷ [])
      ∙ append_assoc starts ((index + 1) ∷ []) (starts_behind (index + 1) cs))
  | inr other ↦ rw other (line_starts_from-starts_behind (index + 1) cs starts)
]

build_line_starts_lem : (cs : Bytes) → build_line_starts cs ≡ 0 ∷ starts_behind 0 cs
unfolding build_line_starts
build_line_starts_lem cs = line_starts_from-starts_behind 0 cs (0 ∷ [])

upper_bound-starts_behind :
    (cs : Bytes) (index p : ℕ) → p ≤ index → upper_bound (starts_behind index cs) p ≡ 0
unfolding upper_bound
upper_bound-starts_behind [] index p h = refl
upper_bound-starts_behind (c ∷ cs) index p h =
    ground (arith, upper_bound-starts_behind cs (index + 1) p)

-- What `resolve_location` computes from the last line start `s` and the starts behind it.
abbrev located : ℕ → List ℕ → ℕ → ℕ → SourceLocation
located s starts p line = record {
  line = line + upper_bound starts p;
  column = p - get_or (s ∷ starts) (upper_bound starts p) 0 + 1;
}

located-location_at :
    (cs : Bytes) (n s index p line column : ℕ)
    → p ≡ index + n
    → s ≤ index
    → column ≡ index - s + 1
    → n ≤ length cs
    → located s (starts_behind index cs) p line ≡ location_at cs n line column
unfolding upper_bound
located-location_at cs zero s index p line column e l h m =
    rw (upper_bound-starts_behind cs index p (omega arith)) (ground arith)
located-location_at [] (suc n) s index p line column e l h m = absurd (omega arith)
located-location_at (c ∷ cs) (suc n) s index p line column e l h m =
    elim (Bool-cases (c == b'\n')) [
      | inl newline ↦
          let past : ltb p (index + 1) ≡ false = ground arith in
          let rest =
            located-location_at cs n (index + 1) (index + 1) p (line + 1) 1 (omega arith)
              (omega arith) (omega arith) (omega arith) in
          rw newline (rw past (ground (arith, rest)))
      | inr other ↦ rw other (
          located-location_at cs n s (index + 1) p line (column + 1) (omega arith) (omega arith)
            (omega arith) (omega arith))
    ]

-- The line table of a file belongs to its text, and its range to the text's length.
pub record IsLineTable (f : SourceFile) : Type 0 where
  pub table : f.line_starts ≡ build_line_starts f.source
  pub range : f.end_pos ≡ f.start_pos + length f.source

location_in-located : (starts : List ℕ) (n : ℕ) → location_in (0 ∷ starts) n ≡ located 0 starts n 1
unfolding location_in upper_bound
location_in-located starts n = let past : ltb n 0 ≡ false = ground arith in rw past (ground arith)

location_in-location_at :
    (f : SourceFile) (n : ℕ)
    → IsLineTable f
    → n ≤ length f.source
    → location_in f.line_starts n ≡ location_at f.source n 1 1
location_in-location_at f n v h =
    ap (λ starts. location_in starts n) (v.table ∙ build_line_starts_lem f.source)
    ∙ location_in-located (starts_behind 0 f.source) n
    ∙ located-location_at f.source n 0 0 n 1 1 (omega arith) (omega arith) (omega arith) h

-- The location of a position of a file is the one that a scan of the file's text finds: one line more for each
-- newline byte before it, and one column more for each byte behind the last of those. A position before the
-- file reads as its first byte, and one behind the file as its end.
pub resolve_location_lem :
    (f : SourceFile)
    → IsLineTable f
    → ((n : ℕ)
        → n ≤ length f.source
        → resolve_location f (f.start_pos + n) ≡ location_at f.source n 1 1)
      × ((p : ℕ) → p < f.start_pos → resolve_location f p ≡ location_at f.source 0 1 1)
      × ((p : ℕ)
          → f.end_pos < p
          → resolve_location f p ≡ location_at f.source (length f.source) 1 1)
unfolding resolve_location
resolve_location_lem f v = (inside, λ p h. rw (lt→ltb _ _ h), behind)
  where
    inside :
        (n : ℕ)
        → n ≤ length f.source
        → resolve_location f (f.start_pos + n) ≡ location_at f.source n 1 1
    inside n h =
        let local : f.start_pos + n - f.start_pos ≡ n = omega arith in
        let not_before : ltb (f.start_pos + n) f.start_pos ≡ false = ground arith in
        let not_behind : ltb f.end_pos (f.start_pos + n) ≡ false = ground arith in
        rw not_before (rw not_behind (rw local (location_in-location_at f n v h)))

    behind :
        (p : ℕ) → f.end_pos < p → resolve_location f p ≡ location_at f.source (length f.source) 1 1
    behind p h =
        let local : f.end_pos - f.start_pos ≡ length f.source = omega arith in
        let not_before : ltb p f.start_pos ≡ false = ground arith in
        rw not_before (
          rw (lt→ltb _ _ h)
            (rw local (location_in-location_at f (length f.source) v (omega arith))))
