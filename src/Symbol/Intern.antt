-- ===== src/Symbol/Intern.antt =====
-- What `intern` and `resolve` promise to the rest of the compiler.
use cicest.Prelude.{
  subst, ℕ, ◌+◌, ◌≤◌, ◌<◌, ◌≡◌, ap, ◌∙◌, List, [], ◌∷◌, none, some, ◌↔◌, inl, inr, arith, length,
  get_elem?, Bytes, Option-cases, get_elem?-lt, get_elem?-concat_lt, length-append,
  get_elem?-concat_length, get_or-get_elem?,
}
use cicest.Symbol.{
  SymbolTable, find, size, intern_new, intern, intern_all, resolve, invalid_symbol_text,
}
use cicest.Symbol.Table.{IsValid, limit, intern_new_lem, intern-IsValid}

-- `text` is the entry at index `i`.
abbrev pub HasEntry : SymbolTable → ℕ → Bytes → Type 0
HasEntry t i text = get_elem? t.entries i ≡ some text

pub resolve-HasEntry :
    (t : SymbolTable) (i : ℕ) (text : Bytes) → HasEntry t i text → resolve t i ≡ text
unfolding resolve
resolve-HasEntry t i text h =
    ground (arith, get_elem?-lt t.entries i h, get_or-get_elem? t.entries i invalid_symbol_text h)

-- An index that is out of range reads as the marker text.
pub resolve_invalid : (t : SymbolTable) (i : ℕ) → size t ≤ i → resolve t i ≡ invalid_symbol_text
unfolding resolve
resolve_invalid t i h = ground arith

pub intern_found :
    (t : SymbolTable) (text : Bytes) (i : ℕ) → find text t.indices ≡ some i → intern t text ≡ (t, i)
unfolding intern
intern_found t text i h = rw (h, intern)

pub intern_fresh :
    (t : SymbolTable) (text : Bytes)
    → find text t.indices ≡ none
    → intern t text ≡ intern_new t text
unfolding intern
intern_fresh t text h = rw (h, intern)

pub intern-HasEntry :
    (t : SymbolTable) (text : Bytes)
    → IsValid t
    → size t < limit
    → HasEntry (intern t text).0 (intern t text).1 text
intern-HasEntry t text v room = elim (Option-cases (find text t.indices)) [
  | inl fresh ↦
      rw (intern_fresh t text fresh)
        (rw (intern_new_lem t text fresh room) (get_elem?-concat_length t.entries text))
  | inr (i, old) ↦ rw (intern_found t text i old) (v.found_is_entry text i old)
]

pub intern_keeps :
    (t : SymbolTable) (text : Bytes) (i : ℕ) (a : Bytes)
    → HasEntry t i a
    → HasEntry (intern t text).0 i a
unfolding intern_new
intern_keeps t text i a h = elim (Option-cases (find text t.indices)) [
  | inl fresh ↦
      rw (intern_fresh t text fresh)
        (get_elem?-concat_lt t.entries text i (get_elem?-lt t.entries i h) ∙ h)
  | inr (j, old) ↦ rw (intern_found t text j old) h
]

pub size-intern :
    (t : SymbolTable) (text : Bytes)
    → (size t ≤ size (intern t text).0) × (size (intern t text).0 ≤ size t + 1)
unfolding intern_new
size-intern t text = elim (Option-cases (find text t.indices)) [
  | inl fresh ↦ rw (intern_fresh t text fresh) (omega (arith, length-append t.entries (text ∷ [])))
  | inr (j, old) ↦ rw (intern_found t text j old) (omega arith)
]

pub intern_all-IsValid :
    (texts : List Bytes) (t : SymbolTable)
    → IsValid t
    → size t + length texts ≤ limit
    → IsValid (intern_all t texts)
unfolding intern_all
intern_all-IsValid [] t v room = v
intern_all-IsValid (text ∷ texts) t v room =
    intern_all-IsValid texts (intern t text).0 (intern-IsValid t text v (omega arith))
      (omega (arith, size-intern t text))

pub size-intern_all :
    (texts : List Bytes) (t : SymbolTable) → size (intern_all t texts) ≤ size t + length texts
unfolding intern_all
size-intern_all [] t = omega arith
size-intern_all (text ∷ texts) t =
    omega (arith, size-intern t text, size-intern_all texts (intern t text).0)

pub intern_all_keeps :
    (texts : List Bytes) (t : SymbolTable) (i : ℕ) (a : Bytes)
    → HasEntry t i a
    → HasEntry (intern_all t texts) i a
unfolding intern_all
intern_all_keeps [] t i a h = h
intern_all_keeps (text ∷ texts) t i a h =
    intern_all_keeps texts (intern t text).0 i a (intern_keeps t text i a h)

-- A text's symbol reads back as that text, at once and after any later texts are interned. The table is
-- valid and has fewer than 2^32 entries.
pub resolve-intern :
    (t : SymbolTable) (text : Bytes) (later : List Bytes)
    → IsValid t
    → size t < limit
    → resolve (intern_all (intern t text).0 later) (intern t text).1 ≡ text
resolve-intern t text later v room =
    resolve-HasEntry _ _ text
      (intern_all_keeps later (intern t text).0 _ text (intern-HasEntry t text v room))

-- Two texts get the same symbol exactly when they are equal, whatever is interned between them. The table
-- is valid and its entries with the texts in between stay below 2^32.
pub intern_eq_iff :
    (t : SymbolTable) (a b : Bytes) (between : List Bytes)
    → IsValid t
    → size t + length between + 1 < limit
    → ((intern (intern_all (intern t a).0 between) b).1 ≡ (intern t a).1) ↔ (a ≡ b)
intern_eq_iff t a b between v room = (same, equal)
  where
    t' : SymbolTable
    t' = intern_all (intern t a).0 between

    v' : IsValid t'
    v' =
        intern_all-IsValid between (intern t a).0 (intern-IsValid t a v (omega arith))
          (omega (arith, size-intern t a))

    kept : HasEntry t' (intern t a).1 a
    kept = intern_all_keeps between (intern t a).0 _ a (intern-HasEntry t a v (omega arith))

    same : (intern t' b).1 ≡ (intern t a).1 → a ≡ b
    same e =
        let found_b = rw e at (
          intern-HasEntry t' b v'
            (omega (arith, size-intern t a, size-intern_all between (intern t a).0))) in
        cc (intern_keeps t' b _ a kept, found_b)

    equal : a ≡ b → (intern t' b).1 ≡ (intern t a).1
    equal e =
        subst (λ x. (intern t' x).1 ≡ (intern t a).1) e
          (ap (λ p. p.1) (intern_found t' a (intern t a).1 (v'.entry_is_found a _ kept)))
