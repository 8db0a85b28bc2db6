-- ===== src/Symbol.antt =====
-- compiler/cstc_symbol/include/cstc_symbol/symbol.hpp: the session's string interner.
-- A session's `SymbolTable` is a value that each operation takes and returns. The vector of entries is a list,
-- and the hash map is an association list that is read and extended through `find` and `emplace`.
pub mod Table
pub mod Intern
pub mod Keywords
mod Examples
use cicest.Prelude.{
  ℕ, suc, ◌%◌, ◌^◌, Bool, true, false, List, [], ◌∷◌, ◌++◌, Option, none, some, leb, not, ◌==◌,
  if◌then◌else◌, length, get_or, Bytes, bytes, bytes_eq,
}

-- `std::unordered_map::find`
unfoldable pub find : Bytes → List (Bytes × ℕ) → Option ℕ
find key [] = none
find key ((k, i) ∷ m) = if bytes_eq k key then some i else find key m

-- `std::unordered_map::emplace`: a key that is there keeps its value.
unfoldable pub emplace : Bytes → ℕ → List (Bytes × ℕ) → List (Bytes × ℕ)
emplace key i m = elim (find key m) [ none ↦ (key, i) ∷ m | some _ ↦ m ]

pub record SymbolTable : Type 0 where
  pub entries : List Bytes
  pub indices : List (Bytes × ℕ)

abbrev pub size : SymbolTable → ℕ
size t = length t.entries

-- The constructor: entry 0 is the empty text.
unfoldable pub empty_table : SymbolTable
unfolding find emplace
empty_table = record { entries = bytes "" ∷ []; indices = emplace (bytes "") 0 [] }

-- `static_cast<std::uint32_t>`
abbrev pub to_uint32 : ℕ → ℕ
to_uint32 n = n % 2 ^ 32

-- The part of `intern` behind a failed `find`.
unfoldable pub intern_new : SymbolTable → Bytes → SymbolTable × ℕ
unfolding emplace
intern_new t text =
    let index = to_uint32 (size t) in
    (record { entries = t.entries ++ text ∷ []; indices = emplace text index t.indices }, index)

-- `SymbolTable::intern`, and `Symbol::intern` on the session's table.
unfoldable pub intern : SymbolTable → Bytes → SymbolTable × ℕ
intern t text = elim (find text t.indices) [ some i ↦ (t, i) | none ↦ intern_new t text ]

abbrev pub invalid_symbol_text : Bytes
invalid_symbol_text = bytes "<invalid-symbol>"

-- `SymbolTable::resolve`, and `Symbol::as_str` on the session's table.
unfoldable pub resolve : SymbolTable → ℕ → Bytes
resolve t index =
    if leb (size t) index then invalid_symbol_text else get_or t.entries index invalid_symbol_text

-- A `Symbol` is its raw index.
abbrev pub Symbol : Type 0
Symbol = ℕ

abbrev pub invalid_symbol : Symbol
invalid_symbol = 0

unfoldable pub is_valid : Symbol → Bool
is_valid s = not (s == 0)

-- A row of `intern` calls whose results are dropped.
unfoldable pub intern_all : SymbolTable → List Bytes → SymbolTable
unfolding intern
intern_all t [] = t
intern_all t (text ∷ texts) = intern_all (intern t text).0 texts

-- The keywords in the order in which `SymbolSession` interns them.
abbrev pub keywords : List Bytes
keywords =
    bytes "struct"
    ∷ bytes "enum"
    ∷ bytes "fn"
    ∷ bytes "let"
    ∷ bytes "if"
    ∷ bytes "else"
    ∷ bytes "for"
    ∷ bytes "while"
    ∷ bytes "loop"
    ∷ bytes "break"
    ∷ bytes "continue"
    ∷ bytes "return"
    ∷ bytes "true"
    ∷ bytes "false"
    ∷ bytes "Unit"
    ∷ bytes "num"
    ∷ bytes "str"
    ∷ bytes "bool"
    ∷ bytes "()"
    ∷ []

-- The table that a new `SymbolSession` installs.
unfoldable pub session : SymbolTable
unfolding empty_table intern_all
session = intern_all empty_table keywords
