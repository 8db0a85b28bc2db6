-- ===== src/Module/Order.antt =====
-- `flatten_program` rewrites each module in turn, and that comes to rewriting them all first.
use cicest.Prelude.{
  ℕ, zero, suc, ◌+◌, ◌<◌, ◌≡◌, refl, sym, ap, ◌∙◌, not, ◌&&◌, ◌||◌, List, [], ◌∷◌, ◌++◌, append-nil,
  append_assoc, some, inl, inr, arith, ltb, leb, ◌==◌, if◌then◌else◌, length, get_elem?, Bool-cases,
}
use mathlib.Core.Option
use cicest.Ast.Items.{Item}
use cicest.Module.{ModuleInfo}
use cicest.Module.Flatten.{
  is_rewritten, rewrite_module, ordered, others_from, rewrite_at, items_of, merge_modules,
  flatten_program,
}

-- The items that a module contributes, from the modules as they were loaded.
abbrev pub contributed : List ModuleInfo → ℕ → List Item
contributed ms index = items_of (Option.map rewrite_module (get_elem? ms index))

abbrev pub contributions : List ModuleInfo → List ℕ → List Item
contributions ms [] = []
contributions ms (index ∷ indices) = contributed ms index ++ contributions ms indices

rewrite_module_again : (m : ModuleInfo) → rewrite_module (rewrite_module m) ≡ rewrite_module m
unfolding rewrite_module
rewrite_module_again m = elim (Bool-cases (is_rewritten m.state)) [
  | inl h ↦ rw (h, rewrite_module) (rw (h, rewrite_module) refl)
  | inr h ↦ rw (h, rewrite_module) refl
]

-- Rewritten, the modules are those that they were.
abbrev Same : List ModuleInfo → List ModuleInfo → Type 0
Same ms new =
    (j : ℕ)
    → Option.map rewrite_module (get_elem? new j) ≡ Option.map rewrite_module (get_elem? ms j)

rewrite_at-Same : (i : ℕ) (ms : List ModuleInfo) → Same ms (rewrite_at i ms)
unfolding rewrite_at
rewrite_at-Same i [] j = refl
rewrite_at-Same zero (m ∷ ms) zero = ap some (rewrite_module_again m)
rewrite_at-Same zero (m ∷ ms) (suc j) = refl
rewrite_at-Same (suc i) (m ∷ ms) zero = refl
rewrite_at-Same (suc i) (m ∷ ms) (suc j) = rewrite_at-Same i ms j

get_elem?-rewrite_at :
    (i : ℕ) (ms : List ModuleInfo)
    → get_elem? (rewrite_at i ms) i ≡ Option.map rewrite_module (get_elem? ms i)
unfolding rewrite_at
get_elem?-rewrite_at i [] = refl
get_elem?-rewrite_at zero (m ∷ ms) = refl
get_elem?-rewrite_at (suc i) (m ∷ ms) = get_elem?-rewrite_at i ms

contributions-Same :
    (indices : List ℕ) (ms new : List ModuleInfo)
    → Same ms new
    → contributions new indices ≡ contributions ms indices
contributions-Same [] ms new h = refl
contributions-Same (index ∷ indices) ms new h = cc (h index, contributions-Same indices ms new h)

merge_modules_lem :
    (indices : List ℕ) (ms : List ModuleInfo) (items : List Item)
    → (merge_modules indices ms items).1 ≡ items ++ contributions ms indices
unfolding merge_modules
merge_modules_lem [] ms items = sym (append-nil items)
merge_modules_lem (index ∷ indices) ms items =
    let new = rewrite_at index ms in
    merge_modules_lem indices new (items ++ items_of (get_elem? new index))
    ∙ cc (
      get_elem?-rewrite_at index ms,
      contributions-Same indices ms new (rewrite_at-Same index ms),
      append_assoc items (contributed ms index) (contributions ms indices),
    )

unfoldable pub occurrences : ℕ → List ℕ → ℕ
occurrences i [] = 0
occurrences i (x ∷ xs) = (if x == i then 1 else 0) + occurrences i xs

occurrences-append :
    (i : ℕ) (xs ys : List ℕ) → occurrences i (xs ++ ys) ≡ occurrences i xs + occurrences i ys
unfolding occurrences
occurrences-append i [] ys = omega arith
occurrences-append i (x ∷ xs) ys = omega (arith, occurrences-append i xs ys)

occurrences-others :
    (count index i root prelude : ℕ)
    → occurrences i (others_from count index root prelude)
      ≡ (if leb index i && ltb i (index + count) && not (i == root || i == prelude) then 1 else 0)
unfolding occurrences others_from
occurrences-others zero index i root prelude = ground arith
occurrences-others (suc count) index i root prelude =
    ground (arith, occurrences-others count (index + 1) i root prelude)

ordered_once :
    (size root prelude i : ℕ)
    → root < size
    → prelude < size
    → i < size
    → occurrences i (ordered size root prelude) ≡ 1
unfolding occurrences ordered
ordered_once size root prelude i r p h =
    let first : List ℕ = if ltb prelude size then prelude ∷ [] else [] in
    let others = others_from size 0 root prelude in
    let last : List ℕ = if ltb root size && not (root == prelude) then root ∷ [] else [] in
    ground (
      arith,
      occurrences-append i first (others ++ last),
      occurrences-append i others last,
      occurrences-others size 0 i root prelude,
    )

-- The flattened program holds, in the order of the modules, the items of each module under its rewriter, the imports
-- left out, although the modules are rewritten one by one on the way. In that order each module stands once, where
-- root and prelude are modules.
pub flatten_program_lem :
    (ms : List ModuleInfo) (root prelude : ℕ)
    → root < length ms
    → prelude < length ms
    → ((flatten_program ms root prelude).1.items
        ≡ contributions ms (ordered (length ms) root prelude))
      × ((i : ℕ) → i < length ms → occurrences i (ordered (length ms) root prelude) ≡ 1)
unfolding flatten_program
flatten_program_lem ms root prelude r p = (
  merge_modules_lem (ordered (length ms) root prelude) ms [],
  λ i h. ordered_once (length ms) root prelude i r p h,
)
