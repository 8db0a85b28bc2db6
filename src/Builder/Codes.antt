-- ===== src/Builder/Codes.antt =====
-- compiler/cstc_lir_builder/src/builder.cpp: what the text of a type says of it, and how it is read back.
use cicest.Prelude.{
  ℕ, suc, ◌<◌, ◌≡◌, ◌≢◌, refl, ap, sym, ◌∙◌, Bool, true, false, not, ◌&&◌, ◌||◌, List, [], ◌∷◌,
  ◌++◌, ◌==◌, length, Bytes, All, arith,
}
use cicest.Lexer.Chars.{is_ident_continue}
use cicest.Module.{to_string}
use cicest.Module.Names.{digits-All, underscore_splits, value, value-digits}

-- A type as its text tells it apart: a letter, a reference, or a name with its arguments.
mutual
  pub data Code : Type 0 where
    leaf : ℕ → Code
    ref : Code → Code
    unknown : Code
    named : Bytes → Bool → Codes → Code

  pub data Codes : Type 0 where
    nil : Codes
    cons : Code → Codes → Codes

abbrev pub codes_length : Codes → ℕ
codes_length nil = 0
codes_length (cons c cs) = suc (codes_length cs)

abbrev pub suffixed : Bool → Bytes → Bytes
suffixed true r = 95 ∷ 114 ∷ 116 ∷ r
suffixed false r = r

-- The text, and what stands behind it.
unfoldable mutual
  unfolding to_string

  pub print : Code → Bytes → Bytes
  print (leaf l) r = l ∷ r
  print (ref c) r = 82 ∷ print c r
  print unknown r = 82 ∷ 117 ∷ 110 ∷ 107 ∷ 110 ∷ 111 ∷ 119 ∷ 110 ∷ r
  print (named text rt args) r =
      84 ∷ to_string (length text) ++ 95 ∷ (text ++ suffixed rt (print_generics args r))

  pub print_generics : Codes → Bytes → Bytes
  print_generics nil r = r
  print_generics (cons c cs) r =
      95 ∷ 103 ∷ to_string (suc (codes_length cs)) ++ 95 ∷ print c (print_args cs r)

  pub print_args : Codes → Bytes → Bytes
  print_args nil r = r
  print_args (cons c cs) r = 95 ∷ print c (print_args cs r)

abbrev pub IsPlain : Bytes → Type 0
IsPlain = All (λ ch. is_ident_continue ch ≡ true)

-- Capital letters other than those of references and names.
abbrev mutual
  pub Good : Code → Type 0
  Good (leaf l) = (64 < l) × (l < 97) × (l ≢ 82) × (l ≢ 84)
  Good (ref c) = Good c
  Good unknown = Unit
  Good (named text rt args) = Goods args

  pub Goods : Codes → Type 0
  Goods nil = Unit
  Goods (cons c cs) = Good c × Goods cs

-- What may stand behind a type: no suffix of a name.
abbrev pub follows : Bytes → Bool
follows (a ∷ b ∷ r) = not (a == 95 && (b == 114 || b == 103))
follows _ = true

pub print-head :
    (c : Code) (r : Bytes) (h : ℕ) (t : Bytes) → Good c → print c r ≡ h ∷ t → (64 < h) × (h < 97)
unfolding print
print-head (leaf l) r h t g e =
    let same : l ≡ h = cc e in (omega (arith, same, g.0), omega (arith, same, g.1))
print-head (ref c) r h t g e =
    let same : 82 ≡ h = cc e in (omega (arith, same), omega (arith, same))
print-head unknown r h t g e =
    let same : 82 ≡ h = cc e in (omega (arith, same), omega (arith, same))
print-head (named text rt args) r h t g e =
    let same : 84 ≡ h = cc e in (omega (arith, same), omega (arith, same))

follows-args :
    (cs : Codes) (r : Bytes) → Goods cs → follows r ≡ true → follows (print_args cs r) ≡ true
unfolding print
follows-args nil r g f = f
follows-args (cons (leaf l) cs) r g f = let lt = g.0.1 in ground arith
follows-args (cons (ref c) cs) r g f = refl
follows-args (cons unknown cs) r g f = refl
follows-args (cons (named text rt args) cs) r g f = refl

-- Texts of one length end at the same place.
append_splits {ℓ} :
    {A : Type ℓ} (xs ys r s : List A)
    → length xs ≡ length ys
    → xs ++ r ≡ ys ++ s
    → (xs ≡ ys) × (r ≡ s)
append_splits [] [] r s n e = (refl, e)
append_splits [] (y ∷ ys) r s n e = absurd (omega (arith, n))
append_splits (x ∷ xs) [] r s n e = absurd (omega (arith, n))
append_splits (x ∷ xs) (y ∷ ys) r s n e =
    let (same, rest) = append_splits xs ys r s (omega (arith, n)) (cc e) in (cc (same, e), rest)

-- A number ends at the underscore behind it.
number_splits :
    (m n : ℕ) (r s : Bytes) → to_string m ++ 95 ∷ r ≡ to_string n ++ 95 ∷ s → (m ≡ n) × (r ≡ s)
unfolding to_string
number_splits m n r s e =
    let (same, rest) =
      underscore_splits (to_string m) (to_string n) r s (digits-All (suc m) m)
        (digits-All (suc n) n) e in
    (
      sym (value-digits (suc m) m (omega arith))
          ∙ ap (value 0) same
          ∙ value-digits (suc n) n (omega arith),
      rest,
    )

no_suffix : (r : Bytes) {t : Bytes} → follows r ≡ true → 95 ∷ 114 ∷ t ≡ r → ⊥
no_suffix [] f e = cc
no_suffix (a ∷ []) f e = cc
no_suffix (a ∷ b ∷ r) f e =
    let first : 95 ≡ a = cc e in let second : 114 ≡ b = cc e in ground (arith, first, second, f)

no_generics : (r : Bytes) {t : Bytes} → follows r ≡ true → r ≡ 95 ∷ 103 ∷ t → ⊥
no_generics [] f e = cc
no_generics (a ∷ []) f e = cc
no_generics (a ∷ b ∷ r) f e =
    let first : a ≡ 95 = cc e in let second : b ≡ 103 = cc e in ground (arith, first, second, f)

-- A suffix is read back, where no suffix follows.
suffix_splits :
    (p q : Bool) (cs bs : Codes) (r s : Bytes)
    → follows r ≡ true
    → follows s ≡ true
    → suffixed p (print_generics cs r) ≡ suffixed q (print_generics bs s)
    → (p ≡ q) × (print_generics cs r ≡ print_generics bs s)
unfolding print
suffix_splits true true cs bs r s f g e = (refl, cc e)
suffix_splits false false cs bs r s f g e = (refl, e)
suffix_splits true false cs nil r s f g e = absurd (no_suffix s g e)
suffix_splits true false bs (cons c cs) r s f g e =
    let same : ◌≡◌ {A = ℕ} 114 103 = cc e in absurd (omega (arith, same))
suffix_splits false true nil bs r s f g e = absurd (no_suffix r f (sym e))
suffix_splits false true (cons c cs) bs r s f g e =
    let same : ◌≡◌ {A = ℕ} 103 114 = cc e in absurd (omega (arith, same))

mutual
  unfolding print

  print-splits :
      (c d : Code) (r s : Bytes)
      → Good c
      → Good d
      → follows r ≡ true
      → follows s ≡ true
      → print c r ≡ print d s
      → (c ≡ d) × (r ≡ s)
  print-splits (leaf l) (leaf m) r s g h f k e = let same : l ≡ m = cc e in (ap leaf same, cc e)
  print-splits (leaf l) (ref d) r s g h f k e = absurd (g.2 (cc e))
  print-splits (leaf l) unknown r s g h f k e = absurd (g.2 (cc e))
  print-splits (leaf l) (named t rt args) r s g h f k e = absurd (g.3 (cc e))
  print-splits (ref c) (leaf m) r s g h f k e = absurd (h.2 (cc e))
  print-splits (ref c) (ref d) r s g h f k e =
      let (same, rest) = print-splits c d r s g h f k (cc e) in (ap ref same, rest)
  print-splits (ref c) unknown r s g h f k e =
      absurd
        (omega (arith, (print-head c r 117 (110 ∷ 107 ∷ 110 ∷ 111 ∷ 119 ∷ 110 ∷ s) g (cc e)).1))
  print-splits (ref c) (named t rt args) r s g h f k e =
      let same : ◌≡◌ {A = ℕ} 82 84 = cc e in absurd (omega (arith, same))
  print-splits unknown (leaf m) r s g h f k e = absurd (h.2 (cc e))
  print-splits unknown (ref d) r s g h f k e =
      absurd (
        omega
          (arith, (print-head d s 117 (110 ∷ 107 ∷ 110 ∷ 111 ∷ 119 ∷ 110 ∷ r) h (sym (cc e))).1))
  print-splits unknown unknown r s g h f k e = (refl, cc e)
  print-splits unknown (named t rt args) r s g h f k e =
      let same : ◌≡◌ {A = ℕ} 82 84 = cc e in absurd (omega (arith, same))
  print-splits (named t rt args) (leaf m) r s g h f k e = absurd (h.3 (cc e))
  print-splits (named t rt args) (ref d) r s g h f k e =
      let same : ◌≡◌ {A = ℕ} 82 84 = cc e in absurd (omega (arith, same))
  print-splits (named t rt args) unknown r s g h f k e =
      let same : ◌≡◌ {A = ℕ} 82 84 = cc e in absurd (omega (arith, same))
  print-splits (named t rt cs) (named u ru bs) r s g h f k e =
      let (lengths, texts) =
        number_splits (length t) (length u) (t ++ suffixed rt (print_generics cs r))
          (u ++ suffixed ru (print_generics bs s)) (cc e) in
      let (same_text, tails) =
        append_splits t u (suffixed rt (print_generics cs r)) (suffixed ru (print_generics bs s))
          lengths texts in
      let (same_runtime, generics) = suffix_splits rt ru cs bs r s f k tails in
      let (same_args, rest) = generics-splits cs bs r s g h f k generics in
      (cc (same_text, same_runtime, same_args), rest)

  generics-splits :
      (cs ds : Codes) (r s : Bytes)
      → Goods cs
      → Goods ds
      → follows r ≡ true
      → follows s ≡ true
      → print_generics cs r ≡ print_generics ds s
      → (cs ≡ ds) × (r ≡ s)
  generics-splits nil nil r s g h f k e = (refl, e)
  generics-splits nil (cons d ds) r s g h f k e = absurd (no_generics r f e)
  generics-splits (cons c cs) nil r s g h f k e = absurd (no_generics s k (sym e))
  generics-splits (cons c cs) (cons d ds) r s g h f k e =
      let (counts, texts) =
        number_splits (suc (codes_length cs)) (suc (codes_length ds)) (print c (print_args cs r))
          (print d (print_args ds s)) (cc e) in
      let (same, rest) =
        print-splits c d (print_args cs r) (print_args ds s) g.0 h.0 (follows-args cs r g.1 f)
          (follows-args ds s h.1 k) texts in
      let (sames, end) = args-splits cs ds r s g.1 h.1 f k (omega (arith, counts)) rest in
      (cc (same, sames), end)

  args-splits :
      (cs ds : Codes) (r s : Bytes)
      → Goods cs
      → Goods ds
      → follows r ≡ true
      → follows s ≡ true
      → codes_length cs ≡ codes_length ds
      → print_args cs r ≡ print_args ds s
      → (cs ≡ ds) × (r ≡ s)
  args-splits nil nil r s g h f k n e = (refl, e)
  args-splits nil (cons d ds) r s g h f k n e = absurd (omega (arith, n))
  args-splits (cons c cs) nil r s g h f k n e = absurd (omega (arith, n))
  args-splits (cons c cs) (cons d ds) r s g h f k n e =
      let (same, rest) =
        print-splits c d (print_args cs r) (print_args ds s) g.0 h.0 (follows-args cs r g.1 f)
          (follows-args ds s h.1 k) (cc e) in
      let (sames, end) = args-splits cs ds r s g.1 h.1 f k (omega (arith, n)) rest in
      (cc (same, sames), end)

-- A text is read back to one code, and ends at one place.
pub print_inj :
    (c d : Code) (r s : Bytes)
    → Good c
    → Good d
    → follows r ≡ true
    → follows s ≡ true
    → print c r ≡ print d s
    → (c ≡ d) × (r ≡ s)
print_inj c d r s g h f k e = print-splits c d r s g h f k e
