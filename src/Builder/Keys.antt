-- ===== src/Builder/Keys.antt =====
-- compiler/cstc_lir_builder/src/builder.cpp: the keys of instantiations tell them apart, where names are plain.
use cicest.Prelude.{
  ℕ, suc, ◌≡◌, ◌↔◌, refl, ap, sym, ◌∙◌, Bool, true, false, [], ◌∷◌, ◌++◌, append_assoc, length,
  Bytes, bytes, arith,
}
use cicest.Symbol.{SymbolTable, Symbol, resolve}
use cicest.Ty.{Ty, ty, Tys, Pointee, null, to, TyKind}
use cicest.Ty
use cicest.Lexer.Chars.{is_ident_continue}
use cicest.Lir.Const.{text_or}
use cicest.Module.{to_string}
use cicest.Builder.Encode.{
  sanitize_symbol_fragment, args_length, runtime_suffix, encode_type, encode_pointee,
  encode_generics, encode_args, encode_rest, key_args, instantiation_cache_key,
}
use cicest.Builder.Codes.{
  Code, leaf, ref, unknown, named, Codes, nil, cons, codes_length, suffixed, print, print_generics,
  print_args, IsPlain, Good, Goods, follows, print-head, print_inj,
}

-- What the text of a type says of it: kinds, names, arguments, and of the runtime tags those of named types.
module _ (table : SymbolTable) where
  abbrev mutual
    pub code : Ty → Code
    code (ty TyKind.ref n d gs p s r) = code_pointee p
    code (ty TyKind.unit n d gs p s r) = leaf 85
    code (ty TyKind.num n d gs p s r) = leaf 78
    code (ty TyKind.str n d gs p s r) = leaf 83
    code (ty TyKind.bool n d gs p s r) = leaf 66
    code (ty TyKind.never n d gs p s r) = leaf 88
    code (ty TyKind.named n d gs p s r) = named (text_or table n (bytes "invalid")) r (codes gs)

    pub code_pointee : Pointee → Code
    code_pointee null = unknown
    code_pointee (to t) = ref (code t)

    pub codes : Tys → Codes
    codes Ty.nil = nil
    codes (Ty.cons t ts) = cons (code t) (codes ts)

  -- All names in the type are identifiers.
  abbrev mutual
    pub PlainType : Ty → Type 0
    PlainType (ty TyKind.ref n d gs p s r) = PlainPointee p
    PlainType (ty TyKind.named n d gs p s r) =
        IsPlain (text_or table n (bytes "invalid")) × PlainTypes gs
    PlainType (ty _ n d gs p s r) = Unit

    pub PlainPointee : Pointee → Type 0
    PlainPointee null = Unit
    PlainPointee (to t) = PlainType t

    pub PlainTypes : Tys → Type 0
    PlainTypes Ty.nil = Unit
    PlainTypes (Ty.cons t ts) = PlainType t × PlainTypes ts

  args_length-codes : (ts : Tys) → codes_length (codes ts) ≡ args_length ts
  args_length-codes Ty.nil = refl
  args_length-codes (Ty.cons t ts) = ap suc (args_length-codes ts)

sanitize-IsPlain : (text : Bytes) → IsPlain text → sanitize_symbol_fragment text ≡ text
unfolding sanitize_symbol_fragment
sanitize-IsPlain [] h = refl
sanitize-IsPlain (ch ∷ text) h = ground (arith, h.0, sanitize-IsPlain text h.1)

flat_name :
    (a b c d r : Bytes) → (((a ++ 95 ∷ b) ++ c) ++ d) ++ r ≡ a ++ 95 ∷ (b ++ (c ++ (d ++ r)))
flat_name a b c d r = simp append_assoc refl

flat_args : (a b c r : Bytes) → ((a ++ 95 ∷ b) ++ c) ++ r ≡ a ++ 95 ∷ (b ++ (c ++ r))
flat_args a b c r = simp append_assoc refl

suffixed_lem : (q : Bool) (x : Bytes) → runtime_suffix q ++ x ≡ suffixed q x
suffixed_lem true x = refl
suffixed_lem false x = refl

module _ (table : SymbolTable) where
  mutual
    unfolding encode_type print

    encode_type-print :
        (t : Ty) (r : Bytes) → PlainType table t → encode_type table t ++ r ≡ print (code table t) r
    encode_type-print (ty TyKind.ref n d gs p s q) r h = encode_pointee-print p r h
    encode_type-print (ty TyKind.unit n d gs p s q) r h = refl
    encode_type-print (ty TyKind.num n d gs p s q) r h = refl
    encode_type-print (ty TyKind.str n d gs p s q) r h = refl
    encode_type-print (ty TyKind.bool n d gs p s q) r h = refl
    encode_type-print (ty TyKind.never n d gs p s q) r h = refl
    encode_type-print (ty TyKind.named n d gs p s q) r h =
        let text = text_or table n (bytes "invalid") in
        ap (◌∷◌ 84) (
          flat_name (to_string (length text)) (sanitize_symbol_fragment text) (runtime_suffix q)
            (encode_generics table gs) r
          ∙ ap
              (λ x.
                to_string (length text)
                ++ 95 ∷ (x ++ (runtime_suffix q ++ (encode_generics table gs ++ r))))
              (sanitize-IsPlain text h.0)
          ∙ ap (λ x. to_string (length text) ++ 95 ∷ (text ++ x))
              (suffixed_lem q (encode_generics table gs ++ r)
                ∙ ap (suffixed q) (encode_generics-print gs r h.1)))

    encode_pointee-print :
        (p : Pointee) (r : Bytes)
        → PlainPointee table p
        → 82 ∷ encode_pointee table p ++ r ≡ print (code_pointee table p) r
    encode_pointee-print null r h = refl
    encode_pointee-print (to t) r h = ap (◌∷◌ 82) (encode_type-print t r h)

    encode_generics-print :
        (ts : Tys) (r : Bytes)
        → PlainTypes table ts
        → encode_generics table ts ++ r ≡ print_generics (codes table ts) r
    encode_generics-print Ty.nil r h = refl
    encode_generics-print (Ty.cons t ts) r h =
        ap (λ x. 95 ∷ 103 ∷ x)
          (flat_args (to_string (suc (args_length ts))) (encode_type table t) (encode_args table ts)
              r
            ∙ ap (λ x. to_string (suc (args_length ts)) ++ 95 ∷ x)
                (ap (◌++◌ (encode_type table t)) (encode_args-print ts r h.1)
                  ∙ encode_type-print t (print_args (codes table ts) r) h.0)
            ∙ ap
                (λ n.
                  to_string (suc n) ++ 95 ∷ print (code table t) (print_args (codes table ts) r))
                (sym (args_length-codes table ts)))

    encode_args-print :
        (ts : Tys) (r : Bytes)
        → PlainTypes table ts
        → encode_args table ts ++ r ≡ print_args (codes table ts) r
    encode_args-print Ty.nil r h = refl
    encode_args-print (Ty.cons t ts) r h = ap (◌∷◌ 95) (
        append_assoc (encode_type table t) (encode_args table ts) r
        ∙ ap (◌++◌ (encode_type table t)) (encode_args-print ts r h.1)
        ∙ encode_type-print t (print_args (codes table ts) r) h.0)

module _ (table : SymbolTable) where
  mutual
    code-Good : (t : Ty) → Good (code table t)
    code-Good (ty TyKind.ref n d gs p s q) = code_pointee-Good p
    code-Good (ty TyKind.unit n d gs p s q) =
        (omega arith, omega arith, λ e. omega arith, λ e. omega arith)
    code-Good (ty TyKind.num n d gs p s q) =
        (omega arith, omega arith, λ e. omega arith, λ e. omega arith)
    code-Good (ty TyKind.str n d gs p s q) =
        (omega arith, omega arith, λ e. omega arith, λ e. omega arith)
    code-Good (ty TyKind.bool n d gs p s q) =
        (omega arith, omega arith, λ e. omega arith, λ e. omega arith)
    code-Good (ty TyKind.never n d gs p s q) =
        (omega arith, omega arith, λ e. omega arith, λ e. omega arith)
    code-Good (ty TyKind.named n d gs p s q) = codes-Good gs

    code_pointee-Good : (p : Pointee) → Good (code_pointee table p)
    code_pointee-Good null = tt
    code_pointee-Good (to t) = code-Good t

    codes-Good : (ts : Tys) → Goods (codes table ts)
    codes-Good Ty.nil = tt
    codes-Good (Ty.cons t ts) = (code-Good t, codes-Good ts)

abbrev print_rest : Codes → Bytes
print_rest nil = 62 ∷ []
print_rest (cons c cs) = 44 ∷ print c (print_rest cs)

abbrev print_key : Codes → Bytes
print_key nil = 62 ∷ []
print_key (cons c cs) = print c (print_rest cs)

follows-rest : (cs : Codes) → follows (print_rest cs) ≡ true
unfolding print
follows-rest nil = refl
follows-rest (cons (leaf l) cs) = refl
follows-rest (cons (ref c) cs) = refl
follows-rest (cons unknown cs) = refl
follows-rest (cons (named t q gs) cs) = refl

rest_inj : (cs ds : Codes) → Goods cs → Goods ds → print_rest cs ≡ print_rest ds → cs ≡ ds
rest_inj nil nil g h e = refl
rest_inj nil (cons d ds) g h e = let same : ◌≡◌ {A = ℕ} 62 44 = cc e in absurd (omega (arith, same))
rest_inj (cons c cs) nil g h e = let same : ◌≡◌ {A = ℕ} 44 62 = cc e in absurd (omega (arith, same))
rest_inj (cons c cs) (cons d ds) g h e =
    let (same, rest) =
      print_inj c d (print_rest cs) (print_rest ds) g.0 h.0 (follows-rest cs) (follows-rest ds)
        (cc e) in
    cc (same, rest_inj cs ds g.1 h.1 rest)

key_inj : (cs ds : Codes) → Goods cs → Goods ds → print_key cs ≡ print_key ds → cs ≡ ds
key_inj nil nil g h e = refl
key_inj nil (cons d ds) g h e =
    absurd (omega (arith, (print-head d (print_rest ds) 62 [] h.0 (sym e)).0))
key_inj (cons c cs) nil g h e = absurd (omega (arith, (print-head c (print_rest cs) 62 [] g.0 e).0))
key_inj (cons c cs) (cons d ds) g h e =
    let (same, rest) =
      print_inj c d (print_rest cs) (print_rest ds) g.0 h.0 (follows-rest cs) (follows-rest ds) e in
    cc (same, rest_inj cs ds g.1 h.1 rest)

-- An identifier ends where the angle bracket stands.
plain_splits :
    (xs ys r s : Bytes)
    → IsPlain xs
    → IsPlain ys
    → xs ++ 60 ∷ r ≡ ys ++ 60 ∷ s
    → (xs ≡ ys) × (r ≡ s)
unfolding is_ident_continue
plain_splits [] [] r s h g e = (refl, cc e)
plain_splits [] (y ∷ ys) r s h g e = let same : 60 ≡ y = cc e in absurd (ground (arith, same, g.0))
plain_splits (x ∷ xs) [] r s h g e = let same : x ≡ 60 = cc e in absurd (ground (arith, same, h.0))
plain_splits (x ∷ xs) (y ∷ ys) r s h g e =
    let (same, rest) = plain_splits xs ys r s h.1 g.1 (cc e) in (cc (same, e), rest)

module _ (table : SymbolTable) where
  encode_rest-print :
      (ts : Tys)
      → PlainTypes table ts
      → encode_rest table 44 ts ++ 62 ∷ [] ≡ print_rest (codes table ts)
  unfolding encode_rest
  encode_rest-print Ty.nil h = refl
  encode_rest-print (Ty.cons t ts) h = ap (◌∷◌ 44) (
      append_assoc (encode_type table t) (encode_rest table 44 ts) (62 ∷ [])
      ∙ ap (◌++◌ (encode_type table t)) (encode_rest-print ts h.1)
      ∙ encode_type-print table t (print_rest (codes table ts)) h.0)

  key_args-print :
      (ts : Tys) → PlainTypes table ts → key_args table ts ++ 62 ∷ [] ≡ print_key (codes table ts)
  unfolding key_args
  key_args-print Ty.nil h = refl
  key_args-print (Ty.cons t ts) h =
      append_assoc (encode_type table t) (encode_rest table 44 ts) (62 ∷ [])
      ∙ ap (◌++◌ (encode_type table t)) (encode_rest-print ts h.1)
      ∙ encode_type-print table t (print_rest (codes table ts)) h.0

  key_lem :
      (name : Symbol) (ts : Tys)
      → PlainTypes table ts
      → instantiation_cache_key table name ts
        ≡ resolve table name ++ 60 ∷ print_key (codes table ts)
  unfolding instantiation_cache_key
  key_lem name ts h =
      append_assoc (resolve table name) (60 ∷ key_args table ts) (62 ∷ [])
      ∙ ap (λ x. resolve table name ++ 60 ∷ x) (key_args-print ts h)

-- Two instantiations share a key of the cache exactly where the generic items have the same name and the arguments
-- the same kinds, names, arguments and, of named types, runtime tags. The names of the items and in the arguments are
-- made of letters, digits and underscores, as those of source types are.
pub instantiation_cache_key_eq_iff :
    (table : SymbolTable) (m n : Symbol) (ts us : Tys)
    → IsPlain (resolve table m)
    → IsPlain (resolve table n)
    → PlainTypes table ts
    → PlainTypes table us
    → (instantiation_cache_key table m ts ≡ instantiation_cache_key table n us)
      ↔ ((resolve table m ≡ resolve table n) × (codes table ts ≡ codes table us))
instantiation_cache_key_eq_iff table m n ts us plain_m plain_n plain_ts plain_us =
    let first = key_lem table m ts plain_ts in
    let second = key_lem table n us plain_us in
    (
      (λ e.
          let (same, rest) =
            plain_splits (resolve table m) (resolve table n) (print_key (codes table ts))
              (print_key (codes table us)) plain_m plain_n (sym first ∙ e ∙ second) in
          (
            same,
            key_inj (codes table ts) (codes table us) (codes-Good table ts) (codes-Good table us)
                rest,
          )),
      (λ both.
          first
          ∙ ap (λ x. x ++ 60 ∷ print_key (codes table ts)) both.0
          ∙ ap (λ c. resolve table n ++ 60 ∷ print_key c) both.1
          ∙ sym second),
    )
