-- ===== src/Availability/Sets.antt =====
-- Index sets: inserting is commutative and idempotent, so unions are associative and commutative.
use cicest.Prelude.{ℕ, ◌≡◌, ◌<◌, refl, sym, ap, ◌∙◌, List, [], ◌∷◌, arith}
use cicest.Availability.{insert, insert_all}

pub insert_comm : (i j : ℕ) (js : List ℕ) → insert i (insert j js) ≡ insert j (insert i js)
unfolding insert
insert_comm i j [] = ground arith
insert_comm i j (x ∷ js) = ground (arith, insert_comm i j js)

pub insert_idem : (i : ℕ) (js : List ℕ) → insert i (insert i js) ≡ insert i js
unfolding insert
insert_idem i [] = ground arith
insert_idem i (x ∷ js) = ground (arith, insert_idem i js)

-- An insertion below a union goes to its top.
insert_all-insert :
    (js is : List ℕ) (i : ℕ) → insert_all (insert i js) is ≡ insert i (insert_all js is)
unfolding insert_all
insert_all-insert js [] i = refl
insert_all-insert js (k ∷ is) i =
    ap (λ s. insert_all s is) (insert_comm k i js) ∙ insert_all-insert (insert k js) is i

-- An insertion into the right side too.
insert_all-insert_right :
    (js is : List ℕ) (i : ℕ) → insert_all js (insert i is) ≡ insert i (insert_all js is)
unfolding insert_all insert
insert_all-insert_right js [] i = refl
insert_all-insert_right js (k ∷ is) i = ground (
  arith,
  insert_all-insert (insert k js) is i,
  insert_all-insert (insert k js) is k,
  insert_comm k i js,
  insert_idem k js,
  insert_all-insert_right (insert k js) is i,
)

pub insert_all_assoc :
    (xs ys zs : List ℕ) → insert_all (insert_all xs ys) zs ≡ insert_all xs (insert_all ys zs)
unfolding insert_all
insert_all_assoc xs ys [] = refl
insert_all_assoc xs ys (k ∷ zs) =
    ap (λ s. insert_all s zs) (sym (insert_all-insert_right xs ys k))
    ∙ insert_all_assoc xs (insert k ys) zs

-- The invariant of a set: its elements ascend.
abbrev pub Ascending : List ℕ → Type 0
Ascending [] = Unit
Ascending (i ∷ []) = Unit
Ascending (i ∷ j ∷ js) = (i < j) × Ascending (j ∷ js)

pub insert-Ascending : (i : ℕ) (js : List ℕ) → Ascending js → Ascending (insert i js)
unfolding insert
insert-Ascending i [] h = tt
insert-Ascending i (j ∷ []) h = ground arith
insert-Ascending i (j ∷ k ∷ js) (h, t) = ground (arith, insert-Ascending i (k ∷ js) t)

pub insert_all-Ascending : (js is : List ℕ) → Ascending js → Ascending (insert_all js is)
unfolding insert_all
insert_all-Ascending js [] h = h
insert_all-Ascending js (i ∷ is) h = insert_all-Ascending (insert i js) is (insert-Ascending i js h)

insert_least : (i : ℕ) (js : List ℕ) → Ascending (i ∷ js) → insert i js ≡ i ∷ js
unfolding insert
insert_least i [] h = refl
insert_least i (j ∷ js) (h, t) = ground arith

Ascending-tail : (i : ℕ) (js : List ℕ) → Ascending (i ∷ js) → Ascending js
Ascending-tail i [] h = tt
Ascending-tail i (j ∷ js) h = h.1

pub insert_all-nil : (js : List ℕ) → Ascending js → insert_all [] js ≡ js
unfolding insert_all
insert_all-nil [] h = refl
insert_all-nil (i ∷ js) h =
    insert_all-insert [] js i
    ∙ ap (insert i) (insert_all-nil js (Ascending-tail i js h))
    ∙ insert_least i js h

pub insert_all_comm :
    (xs ys : List ℕ) → Ascending xs → Ascending ys → insert_all xs ys ≡ insert_all ys xs
unfolding insert_all
insert_all_comm xs [] h g = sym (insert_all-nil xs h)
insert_all_comm xs (k ∷ ys) h g =
    insert_all-insert xs ys k
    ∙ ap (insert k) (insert_all_comm xs ys h (Ascending-tail k ys g))
    ∙ sym (insert_all-insert ys xs k)
    ∙ ap (λ s. insert_all s xs) (insert_least k ys g)
