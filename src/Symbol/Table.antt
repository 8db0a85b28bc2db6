-- ===== src/Symbol/Table.antt =====
-- The invariant of the symbol table: the map is the inverse of the vector of entries.
use cicest.Prelude.{
  ℕ, zero, suc, ◌≤◌, ◌<◌, ◌^◌, ◌≡◌, refl, ap, ◌∙◌, List, [], ◌∷◌, ◌++◌, none, some, ◌⊎◌, inl, inr,
  arith, length, get_elem?, Bytes, bytes_eq, bytes_eq_iff, Bool-cases, Option-cases, get_elem?-lt,
  get_elem?-concat_lt, length-append, get_elem?-concat_length, if◌then◌else◌,
}
use cicest.Symbol.{SymbolTable, find, emplace, size, intern_new, intern, to_uint32}

abbrev pub limit : ℕ
limit = 2 ^ 32

-- Entry 0 is the empty text. `indices_` finds an entry's index and nothing else, and every index fits 32 bits.
pub record IsValid (t : SymbolTable) : Type 0 where
  pub found_is_entry :
      (text : Bytes) (i : ℕ) → find text t.indices ≡ some i → get_elem? t.entries i ≡ some text
  pub entry_is_found :
      (text : Bytes) (i : ℕ) → get_elem? t.entries i ≡ some text → find text t.indices ≡ some i
  pub first_is_empty : get_elem? t.entries 0 ≡ some []
  pub fits : size t ≤ limit

pub find-cons :
    (k j : Bytes) (i : ℕ) (m : List (Bytes × ℕ))
    → find j ((k, i) ∷ m) ≡ (if bytes_eq k j then some i else find j m)
unfolding find
find-cons k j i m = refl

-- An entry of the extended vector is an old one, or the new one.
get_elem?-concat_cases :
    (xs : List Bytes) (y : Bytes) (i : ℕ) (a : Bytes)
    → get_elem? (xs ++ y ∷ []) i ≡ some a
    → (get_elem? xs i ≡ some a) ⊎ ((i ≡ length xs) × (y ≡ a))
get_elem?-concat_cases [] y zero a h = ground arith
get_elem?-concat_cases [] y (suc i) a h = cc
get_elem?-concat_cases (x ∷ xs) y zero a h = inl h
get_elem?-concat_cases (x ∷ xs) y (suc i) a h = elim (get_elem?-concat_cases xs y i a h) [
  | inl old ↦ inl old
  | inr (e, f) ↦ inr (ap suc e, f)
]

emplace_new :
    (k : Bytes) (i : ℕ) (m : List (Bytes × ℕ)) → find k m ≡ none → emplace k i m ≡ (k, i) ∷ m
unfolding emplace
emplace_new k i m h = rw (h, emplace)

-- The state after a new text is interned, while an index is left for it.
pub intern_new_lem :
    (t : SymbolTable) (text : Bytes)
    → find text t.indices ≡ none
    → size t < limit
    → intern_new t text
      ≡ (record { entries = t.entries ++ text ∷ []; indices = (text, size t) ∷ t.indices }, size t)
unfolding intern_new
intern_new_lem t text fresh room =
    let index : to_uint32 (size t) ≡ size t = omega arith in
    rw index (rw (emplace_new text (size t) t.indices fresh))

-- A text that is in the table, by its index or by its lookup, is the one that is looked for.
module _ (t : SymbolTable) (v : IsValid t) (text : Bytes) (fresh : find text t.indices ≡ none) where
  extended_found :
      (j : Bytes) (i : ℕ)
      → find j ((text, size t) ∷ t.indices) ≡ some i
      → get_elem? (t.entries ++ text ∷ []) i ≡ some j
  extended_found j i h = elim (Bool-cases (bytes_eq text j)) [
    | inl same ↦
        let at_end : size t ≡ i = ground (arith, find-cons text j (size t) t.indices) in
        rw (← at_end, ← (bytes_eq_iff text j).0 same) (get_elem?-concat_length t.entries text)
    | inr other ↦
        let old = v.found_is_entry j i (ground (arith, find-cons text j (size t) t.indices)) in
        get_elem?-concat_lt t.entries text i (get_elem?-lt t.entries i old) ∙ old
  ]

  extended_entry :
      (j : Bytes) (i : ℕ)
      → get_elem? (t.entries ++ text ∷ []) i ≡ some j
      → find j ((text, size t) ∷ t.indices) ≡ some i
  extended_entry j i h = elim (get_elem?-concat_cases t.entries text i j h) [
    | inl old ↦
        ground (
          arith,
          find-cons text j (size t) t.indices,
          v.entry_is_found j i old,
          bytes_eq_iff text j,
        )
    | inr (e, f) ↦ ground (arith, find-cons text j (size t) t.indices, bytes_eq_iff text j)
  ]

-- Interning keeps the invariant; a new text needs an index below 2^32.
pub intern-IsValid :
    (t : SymbolTable) (text : Bytes) → IsValid t → size t < limit → IsValid (intern t text).0
unfolding intern
intern-IsValid t text v room = elim (Option-cases (find text t.indices)) [
  | inl fresh ↦
      rw (fresh, intern)
        (rw (intern_new_lem t text fresh room) (record {
          found_is_entry = extended_found t v text fresh;
          entry_is_found = extended_entry t v text fresh;
          first_is_empty =
              get_elem?-concat_lt t.entries text 0 (get_elem?-lt t.entries 0 v.first_is_empty)
              ∙ v.first_is_empty;
          fits = omega (arith, length-append t.entries (text ∷ []));
        }))
  | inr (i, old) ↦ rw (old, intern) v
]
