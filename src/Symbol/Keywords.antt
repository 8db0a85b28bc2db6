-- ===== src/Symbol/Keywords.antt =====
-- The symbols of the keywords, which `namespace kw` fixes as constants.
use cicest.Prelude.{
  ℕ, zero, suc, All, ◌+◌, ◌≤◌, ◌≡◌, refl, List, [], ◌∷◌, some, arith, length, get_elem?, Bytes,
  bytes, bytes_eq,
}
use cicest.Symbol.{
  SymbolTable, Symbol, find, emplace, size, intern_new, intern, intern_all, empty_table, session,
  keywords,
}
use cicest.Symbol.Table.{IsValid, limit}
use cicest.Symbol.Intern.{HasEntry, intern_found, intern_all-IsValid, intern_all_keeps}

-- `namespace kw`
abbrev pub kw : List (Bytes × Symbol)
kw =
    (bytes "struct", 1)
    ∷ (bytes "enum", 2)
    ∷ (bytes "fn", 3)
    ∷ (bytes "let", 4)
    ∷ (bytes "if", 5)
    ∷ (bytes "else", 6)
    ∷ (bytes "for", 7)
    ∷ (bytes "while", 8)
    ∷ (bytes "loop", 9)
    ∷ (bytes "break", 10)
    ∷ (bytes "continue", 11)
    ∷ (bytes "return", 12)
    ∷ (bytes "true", 13)
    ∷ (bytes "false", 14)
    ∷ (bytes "Unit", 15)
    ∷ (bytes "num", 16)
    ∷ (bytes "str", 17)
    ∷ (bytes "bool", 18)
    ∷ (bytes "()", 19)
    ∷ []

empty_found :
    (text : Bytes) (i : ℕ)
    → find text empty_table.indices ≡ some i
    → get_elem? empty_table.entries i ≡ some text
unfolding empty_table find bytes_eq
empty_found [] i h = ground arith
empty_found (c ∷ text) i h = ground arith

empty_entry :
    (text : Bytes) (i : ℕ)
    → get_elem? empty_table.entries i ≡ some text
    → find text empty_table.indices ≡ some i
unfolding empty_table find bytes_eq
empty_entry [] zero h = refl
empty_entry (c ∷ text) zero h = cc
empty_entry text (suc i) h = cc

empty_table-IsValid : IsValid empty_table
unfolding empty_table
empty_table-IsValid = record {
  found_is_entry = empty_found;
  entry_is_found = empty_entry;
  first_is_empty = refl;
  fits = omega arith;
}

pub size-session : size session ≡ 20
unfolding session intern intern_new find emplace bytes_eq
size-session = refl

-- The table of a new session is valid.
pub session-IsValid : IsValid session
unfolding session
session-IsValid =
    intern_all-IsValid keywords empty_table empty_table-IsValid (unfold empty_table in omega arith)

abbrev HasKeyword : SymbolTable → Bytes × Symbol → Type 0
HasKeyword t k = HasEntry t k.1 k.0

session-kw : All (HasKeyword session) kw
unfolding session intern intern_new find emplace bytes_eq
session-kw = ground arith

intern-All :
    (ks : List (Bytes × Symbol)) (texts : List Bytes)
    → All (HasKeyword session) ks
    → IsValid (intern_all session texts)
    → All (λ k. intern (intern_all session texts) k.0 ≡ (intern_all session texts, k.1)) ks
intern-All [] texts h v = tt
intern-All (k ∷ ks) texts h v = (
  intern_found (intern_all session texts) k.0 k.1
      (v.entry_is_found k.0 k.1 (intern_all_keeps texts session k.1 k.0 h.0)),
  intern-All ks texts h.1 v,
)

-- Throughout a session, whatever texts were interned in it, interning a keyword gives the constant of
-- `namespace kw` and leaves the table as it was. The session's entries stay within 2^32.
pub intern-kw :
    (texts : List Bytes)
    → 20 + length texts ≤ limit
    → All (λ k. intern (intern_all session texts) k.0 ≡ (intern_all session texts, k.1)) kw
intern-kw texts room =
    intern-All kw texts session-kw
      (intern_all-IsValid texts session session-IsValid (omega (arith, size-session)))
