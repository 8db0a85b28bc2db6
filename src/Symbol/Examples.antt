-- ===== src/Symbol/Examples.antt =====
-- Runs of the interner, and the theorems at concrete tables.
use cicest.Prelude.{◌≡◌, refl, ◌↔◌, All, [], ◌∷◌, arith, bytes, bytes_eq}
use cicest.Symbol.{find, emplace, intern_new, intern, intern_all, resolve, session}
use cicest.Symbol.Intern.{resolve-intern, intern_eq_iff}
use cicest.Symbol.Keywords.{kw, size-session, session-IsValid, intern-kw}

first_user_symbol : (intern session (bytes "main")).1 ≡ 20
unfolding session intern intern_new find emplace bytes_eq
first_user_symbol = refl

struct_symbol : (intern session (bytes "struct")).1 ≡ 1
unfolding session intern intern_new find emplace bytes_eq
struct_symbol = refl

unknown_symbol : resolve session 20 ≡ bytes "<invalid-symbol>"
unfolding session resolve intern intern_new find emplace bytes_eq
unknown_symbol = refl

resolve-intern_example :
    resolve
      (intern_all (intern session (bytes "main")).0 (bytes "x" ∷ []))
      (intern session (bytes "main")).1
    ≡ bytes "main"
resolve-intern_example =
    resolve-intern session (bytes "main") (bytes "x" ∷ []) session-IsValid
      (omega (arith, size-session))

intern_eq_iff_example :
    ((intern (intern_all (intern session (bytes "a")).0 (bytes "b" ∷ [])) (bytes "c")).1
      ≡ (intern session (bytes "a")).1)
    ↔ (bytes "a" ≡ bytes "c")
intern_eq_iff_example =
    intern_eq_iff session (bytes "a") (bytes "c") (bytes "b" ∷ []) session-IsValid
      (omega (arith, size-session))

intern-kw_example :
    All
      (λ k.
        intern (intern_all session (bytes "x" ∷ [])) k.0
        ≡ (intern_all session (bytes "x" ∷ []), k.1))
      kw
intern-kw_example = intern-kw (bytes "x" ∷ []) (omega arith)
