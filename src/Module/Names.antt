-- ===== src/Module/Names.antt =====
-- Mangled names tell modules and names apart.
use cicest.Prelude.{
  ℕ, zero, suc, ◌+◌, ◌-◌, ◌*◌, ◌/◌, ◌%◌, ◌<◌, ◌≡◌, ◌≢◌, refl, sym, ap, ◌∙◌, ◌↔◌, false, List, [],
  ◌∷◌, ◌++◌, inl, inr, arith, ltb, Bool-cases, Bytes, length, All,
}
use cicest.Symbol.{SymbolTable, Symbol, intern, intern_all, resolve, size}
use cicest.Symbol.Table.{IsValid, limit}
use cicest.Symbol.Intern.{intern_eq_iff}
use cicest.Module.{ModuleInfo, digits, to_string, mangled_text, mangle_name}

-- The number that decimal digits stand for, behind those read before.
abbrev pub value : ℕ → Bytes → ℕ
value acc [] = acc
value acc (d ∷ ds) = value (acc * 10 + (d - 48)) ds

value-append :
    (acc : ℕ) (xs : Bytes) (d : ℕ) → value acc (xs ++ d ∷ []) ≡ value acc xs * 10 + (d - 48)
value-append acc [] d = refl
value-append acc (x ∷ xs) d = value-append (acc * 10 + (x - 48)) xs d

pub value-digits : (fuel n : ℕ) → n < fuel → value 0 (digits fuel n) ≡ n
unfolding digits
value-digits zero n h = absurd (omega arith)
value-digits (suc fuel) n h = elim (Bool-cases (ltb n 10)) [
  | inl small ↦ rw (small, digits) (omega arith)
  | inr large ↦
      let deeper : n / 10 < fuel = ground (arith, large) in
      rw
        (
          large,
          digits,
          value-append 0 (digits fuel (n / 10)) (48 + n % 10),
          value-digits fuel (n / 10) deeper,
        )
        (omega arith)
]

abbrev pub IsDigit : ℕ → Type 0
IsDigit d = d ≢ 95

pub All-append : (xs : Bytes) (d : ℕ) → All IsDigit xs → IsDigit d → All IsDigit (xs ++ d ∷ [])
All-append [] d h g = (g, tt)
All-append (x ∷ xs) d h g = (h.0, All-append xs d h.1 g)

pub digits-All : (fuel n : ℕ) → All IsDigit (digits fuel n)
unfolding digits
digits-All zero n = tt
digits-All (suc fuel) n = elim (Bool-cases (ltb n 10)) [
  | inl small ↦ rw (small, digits) ((λ e. ground (arith, small, e)), tt)
  | inr large ↦
      rw (large, digits)
        (All-append (digits fuel (n / 10)) (48 + n % 10) (digits-All fuel (n / 10))
          (λ e. omega arith))
]

-- Digits end at the first underscore.
pub underscore_splits :
    (xs ys r s : Bytes)
    → All IsDigit xs
    → All IsDigit ys
    → xs ++ 95 ∷ r ≡ ys ++ 95 ∷ s
    → (xs ≡ ys) × (r ≡ s)
underscore_splits [] [] r s h g e = (refl, cc e)
underscore_splits [] (y ∷ ys) r s h g e = absurd (g.0 (cc e))
underscore_splits (x ∷ xs) [] r s h g e = absurd (h.0 (cc e))
underscore_splits (x ∷ xs) (y ∷ ys) r s h g e =
    let (same, rest) = underscore_splits xs ys r s h.1 g.1 (cc e) in (cc (same, e), rest)

mangled_text_inj : (m n : ℕ) (a b : Bytes) → mangled_text m a ≡ mangled_text n b → (m ≡ n) × (a ≡ b)
unfolding to_string
mangled_text_inj m n a b e =
    let (same, rest) =
      underscore_splits (to_string m) (to_string n) (95 ∷ a) (95 ∷ b) (digits-All (suc m) m)
        (digits-All (suc n) n) (cc e) in
    (
      sym (value-digits (suc m) m (omega arith))
          ∙ ap (value 0) same
          ∙ value-digits (suc n) n (omega arith),
      cc rest,
    )

-- Modules other than the root give two declarations the same internal name exactly where they are one module, by its
-- id, and the names have the same text, whatever is interned in between. The table is valid and has room for the names.
pub mangle_name_eq_iff :
    (t : SymbolTable) (m n : ModuleInfo) (a b : Symbol) (between : List Bytes)
    → IsValid t
    → size t + length between + 1 < limit
    → m.is_root ≡ false
    → n.is_root ≡ false
    → ((mangle_name (intern_all (mangle_name t m a).0 between) n b).1 ≡ (mangle_name t m a).1) ↔ (
        (m.module_id ≡ n.module_id)
        × (resolve t a ≡ resolve (intern_all (mangle_name t m a).0 between) b))
unfolding mangle_name
mangle_name_eq_iff t m n a b between v room root other =
    let later : SymbolTable =
      intern_all (intern t (mangled_text m.module_id (resolve t a))).0 between in
    rw root (
      rw other (
        let (same, equal) =
          intern_eq_iff t (mangled_text m.module_id (resolve t a))
            (mangled_text n.module_id (resolve later b)) between v room in
        ((λ e. mangled_text_inj _ _ _ _ (same e)), (λ e. equal (cc (e.0, e.1))))))
