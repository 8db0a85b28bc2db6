-- ===== src/Builder/Frames.antt =====
-- compiler/cstc_lir_builder/src/builder.cpp: the names in scope keep their locals.
use cicest.Prelude.{
  ℕ, ◌<◌, ◌≡◌, refl, ◌⊎◌, inl, inr, Bool, true, false, List, [], ◌∷◌, some, All, arith, ◌==◌,
  if◌then◌else◌, Option-cases, Bool-cases,
}
use cicest.Symbol.{Symbol}
use cicest.Lir.{LirLocalId}
use cicest.Builder.{
  FnBuilder, LoopContext, Bindings, push_scope, bind, bind_in, bind_top, find_binding, lookup,
  is_empty,
}
use cicest.Builder.Bounds.{BindingsIn, Fits, Goes}
use cicest.Builder.Grow.{All-map}
use cicest.Builder.Stacks.{Entered}

-- A name has a local.
abbrev pub Found : List Bindings → Symbol → Type 0
Found frames name = (id : LirLocalId) × (lookup name frames ≡ some id)

abbrev pub Covers : List Symbol → List Bindings → Type 0
Covers names frames = All (Found frames) names

-- In a loop where break and continue are allowed.
abbrev pub InLoop : Bool → List LoopContext → Type 0
InLoop false loops = Unit
InLoop true loops = is_empty loops ≡ false

-- The builder where an expression with these names in scope starts.
pub record Ready (names : List Symbol) (in_loop : Bool) (b : FnBuilder) : Type 0 where
  pub fits : Fits b
  pub live : b.block_terminated ≡ false
  pub covers : Covers names b.scope
  pub loops : InLoop in_loop b.loop_stack

pub Ready-after :
    {names : List Symbol} {in_loop : Bool} {b b' : FnBuilder}
    → Ready names in_loop b
    → Goes b b'
    → b'.block_terminated ≡ false
    → Ready names in_loop b'
Ready-after {names} {in_loop} r g live = record {
  fits = g.fits;
  live = live;
  covers = rw g.same_scope r.covers;
  loops = rw g.grows.same_loops r.loops;
}

pub Ready-Entered :
    {names : List Symbol} {in_loop : Bool} {b b' : FnBuilder}
    → Ready names in_loop b
    → Entered b b'
    → Ready names true b'
Ready-Entered r e = record {
  fits = e.fits;
  live = e.live;
  covers = rw e.same_scope r.covers;
  loops = e.nonempty;
}

find-in :
    (n : ℕ) (name : Symbol) (id : LirLocalId) (frame : Bindings)
    → BindingsIn n frame
    → find_binding name frame ≡ some id
    → id < n
unfolding find_binding
find-in n name id [] h hit = cc
find-in n name id (x ∷ frame) h hit = ground (arith, find-in n name id frame h.1)

pub lookup-in :
    (n : ℕ) (name : Symbol) (id : LirLocalId) (frames : List Bindings)
    → All (BindingsIn n) frames
    → lookup name frames ≡ some id
    → id < n
unfolding lookup
lookup-in n name id [] h hit = cc
lookup-in n name id (frame ∷ frames) h hit =
    ground (arith, find-in n name id frame h.0, lookup-in n name id frames h.1)

-- An empty frame hides nothing.
pub Covers-push :
    (names : List Symbol) (b : FnBuilder) → Covers names b.scope → Covers names (push_scope b).scope
unfolding push_scope lookup
Covers-push names b h = h

find-bind_in_self :
    (name : Symbol) (id : LirLocalId) (frame : Bindings)
    → (i : LirLocalId) × (find_binding name (bind_in name id frame) ≡ some i)
unfolding bind_in
find-bind_in_self name id frame = elim (Option-cases (find_binding name frame)) [
  | inl miss ↦ (id, ground (arith, miss))
  | inr (i, hit) ↦ (i, rw (hit, bind_in) hit)
]

find-bind_in :
    (name other : Symbol) (id i : LirLocalId) (frame : Bindings)
    → find_binding other frame ≡ some i
    → find_binding other (bind_in name id frame) ≡ some i
unfolding bind_in find_binding
find-bind_in name other id i frame hit = ground arith

Found-bind_top :
    (name other : Symbol) (id : LirLocalId) (frames : List Bindings)
    → Found frames other
    → Found (bind_top name id frames) other
unfolding bind_top lookup
Found-bind_top name other id [] f = cc
Found-bind_top name other id (frame ∷ frames) (i, hit) =
    elim (Option-cases (find_binding other frame)) [
      | inl miss ↦ elim (Option-cases (find_binding other (bind_in name id frame))) [
        | inl miss' ↦ (i, ground (arith, hit, miss, miss'))
        | inr (j, hit') ↦ (j, ground (arith, hit'))
      ]
      | inr (j, hit') ↦ (j, rw (find-bind_in name other id j frame hit', lookup) refl)
    ]

Found-bind_top_self :
    (name : Symbol) (id : LirLocalId) (frames : List Bindings)
    → is_empty frames ≡ false
    → Found (bind_top name id frames) name
unfolding bind_top lookup
Found-bind_top_self name id [] nonempty = cc
Found-bind_top_self name id (frame ∷ frames) nonempty =
    let (i, hit) = find-bind_in_self name id frame in (i, rw (hit, lookup) refl)

pub Covers-bind :
    (names : List Symbol) (name : Symbol) (id : LirLocalId) (b : FnBuilder)
    → is_empty b.scope ≡ false
    → Covers names b.scope
    → Covers (name ∷ names) (bind name id b).scope
unfolding bind
Covers-bind names name id b nonempty h = (
  Found-bind_top_self name id b.scope nonempty,
  All-map (λ other f. Found-bind_top name other id b.scope f) names h,
)

unfoldable pub is_in : Symbol → List Symbol → Bool
is_in name [] = false
is_in name (x ∷ names) = if name == x then true else is_in name names

head_or_tail :
    (name x : Symbol) (names : List Symbol)
    → is_in name (x ∷ names) ≡ true
    → (name ≡ x) ⊎ (is_in name names ≡ true)
unfolding is_in
head_or_tail name x names inside = elim (Bool-cases (name == x)) [
  | inl hit ↦ inl (ground (arith, hit))
  | inr miss ↦ inr (ground (arith, miss, inside))
]

pub Covers-Found :
    (names : List Symbol) (name : Symbol) (frames : List Bindings)
    → is_in name names ≡ true
    → Covers names frames
    → Found frames name
unfolding is_in
Covers-Found [] name frames inside h = cc
Covers-Found (x ∷ names) name frames inside h = elim (head_or_tail name x names inside) [
  | inl same ↦ rw same h.0
  | inr other ↦ Covers-Found names name frames other h.1
]
