-- ===== src/Module/Lookup.antt =====
-- What stands in a map of bindings once declarations have been entered.
use cicest.Prelude.{
  ◌≡◌, refl, sym, ap, ◌∙◌, inl, inr, Bool, true, false, not, ◌&&◌, ◌||◌, List, [], ◌∷◌, Option,
  none, some, arith, ◌==◌, if◌then◌else◌, Bool-cases, Option-cases,
}
use cicest.Symbol.{SymbolTable, Symbol}
use cicest.Ast.Items.{Item}
use cicest.Parser.Monad.{contains}
use cicest.Module.{
  Binding, BindingSet, Bindings, ModuleInfo, Checked, refused, done, find_binding, entry, set_entry,
  has_value, or_else, insert_binding_set, duplicate_message, Declared, declared, set_for,
  mangle_name, collect_items, collect_local_bindings, with_locals,
}

pub find_binding-set_entry :
    (name key : Symbol) (set : BindingSet) (bindings : Bindings)
    → find_binding key (set_entry name set bindings)
      ≡ (if name == key then some set else find_binding key bindings)
unfolding find_binding set_entry
find_binding-set_entry name key set [] = refl
find_binding-set_entry name key set ((k, old) ∷ bindings) =
    ground (arith, find_binding-set_entry name key set bindings)

entry-set_entry :
    (name key : Symbol) (set : BindingSet) (bindings : Bindings)
    → entry key (set_entry name set bindings) ≡ (if name == key then set else entry key bindings)
unfolding entry
entry-set_entry name key set bindings = elim (Bool-cases (name == key)) [
  | inl h ↦ rw (find_binding-set_entry name key set bindings, entry) (rw (h, entry) refl)
  | inr h ↦ rw (find_binding-set_entry name key set bindings, entry) (rw (h, entry) refl)
]

-- The namespace of types, or the one of values.
abbrev slot : Bool → BindingSet → Option Binding
slot true set = set.type_binding
slot false set = set.value_binding

abbrev bound : Bool → Symbol → Bindings → Bool
bound namespace name bindings = has_value (slot namespace (entry name bindings))

abbrev pub accepts {ℓ} : {A : Type ℓ} → Checked A → Bool
accepts (refused e) = false
accepts (done a) = true

abbrev same : Bool → Bool → Bool
same true b = b
same false b = not b

slot-if :
    (namespace b : Bool) (x y : BindingSet)
    → has_value (slot namespace (if b then x else y))
      ≡ (if b then has_value (slot namespace x) else has_value (slot namespace y))
slot-if namespace true x y = refl
slot-if namespace false x y = refl

bound-set_entry :
    (namespace : Bool) (name key : Symbol) (set : BindingSet) (bindings : Bindings)
    → bound namespace key (set_entry name set bindings)
      ≡ (if name == key then has_value (slot namespace set) else bound namespace key bindings)
bound-set_entry namespace name key set bindings =
    rw (entry-set_entry name key set bindings)
      (slot-if namespace (name == key) set (entry key bindings))

abbrev entered : BindingSet → BindingSet → BindingSet
entered incoming current = record {
  type_binding = or_else incoming.type_binding current.type_binding;
  value_binding = or_else incoming.value_binding current.value_binding;
}

-- A declaration whose name is bound in its namespace is refused,
insert_taken :
    (table : SymbolTable) (bindings : Bindings) (d : Declared) (internal_name : Symbol)
    → bound d.is_type d.name bindings ≡ true
    → insert_binding_set table bindings d.name (set_for d internal_name) d.span
      ≡ refused (record { span = d.span; message = duplicate_message table d.is_type d.name })
unfolding insert_binding_set
insert_taken table bindings d internal_name h = elim (Bool-cases d.is_type) [
  | inl k ↦ rw (k, set_for) (rw (rw k at h, insert_binding_set) refl)
  | inr k ↦ rw (k, set_for) (rw (rw k at h, insert_binding_set) refl)
]

slot-entered :
    (d : Declared) (internal_name : Symbol) (current : BindingSet) (namespace : Bool)
    → has_value (slot namespace (entered (set_for d internal_name) current))
      ≡ (same d.is_type namespace || has_value (slot namespace current))
slot-entered d internal_name current true = elim (Bool-cases d.is_type) [
  | inl k ↦ rw k refl
  | inr k ↦ rw k refl
]
slot-entered d internal_name current false = elim (Bool-cases d.is_type) [
  | inl k ↦ rw k refl
  | inr k ↦ rw k refl
]

-- and any other is entered in its namespace and in no other place.
insert_new :
    (table : SymbolTable) (bindings : Bindings) (d : Declared) (internal_name : Symbol)
    → bound d.is_type d.name bindings ≡ false
    → insert_binding_set table bindings d.name (set_for d internal_name) d.span
      ≡ done (set_entry d.name (entered (set_for d internal_name) (entry d.name bindings)) bindings)
unfolding insert_binding_set
insert_new table bindings d internal_name h = elim (Bool-cases d.is_type) [
  | inl k ↦ rw (k, set_for) (rw (rw k at h, insert_binding_set) refl)
  | inr k ↦ rw (k, set_for) (rw (rw k at h, insert_binding_set) refl)
]

bound-entered :
    (d : Declared) (internal_name : Symbol) (bindings : Bindings) (namespace : Bool) (key : Symbol)
    → bound namespace key
        (set_entry d.name (entered (set_for d internal_name) (entry d.name bindings)) bindings)
      ≡ (same d.is_type namespace && key == d.name || bound namespace key bindings)
bound-entered d internal_name bindings namespace key =
    let set = entered (set_for d internal_name) (entry d.name bindings) in
    bound-set_entry namespace d.name key set bindings ∙ elim (Bool-cases (d.name == key)) [
      | inl h ↦
          let e : d.name ≡ key = ground (arith, h) in
          let back : (key == d.name) ≡ true = ground (arith, e) in
          rw h (
            slot-entered d internal_name (entry d.name bindings) namespace
            ∙ ground (arith, back, ap (λ k. bound namespace k bindings) e))
      | inr h ↦
          let back : (key == d.name) ≡ false = ground (arith, h) in rw h (ground (arith, back))
    ]

-- The names that the items declare in one namespace, in order.
unfoldable pub declared_names : Bool → List Item → List Symbol
declared_names namespace [] = []
declared_names namespace (item ∷ items) = elim (declared item) [
  | none ↦ declared_names namespace items
  | some d ↦
      let later = declared_names namespace items in
      if same d.is_type namespace then d.name ∷ later else later
]

-- Each name is new when it comes up.
unfoldable pub all_new : List Symbol → List Symbol → Bool
all_new seen [] = true
all_new seen (x ∷ xs) = not (contains x seen) && all_new (x ∷ seen) xs

-- The names that are bound in a namespace are those seen.
abbrev Bound : Bool → Bindings → List Symbol → Type 0
Bound namespace bindings seen = (key : Symbol) → bound namespace key bindings ≡ contains key seen

bound_seen :
    (namespace : Bool) (key : Symbol) (bindings : Bindings) (types values : List Symbol)
    → Bound true bindings types
    → Bound false bindings values
    → bound namespace key bindings ≡ contains key (if namespace then types else values)
bound_seen true key bindings types values h g = h key
bound_seen false key bindings types values h g = g key

old_name :
    (is_type : Bool) (name : Symbol) (ts vs types values : List Symbol)
    → contains name (if is_type then types else values) ≡ true
    → (all_new types (if same is_type true then name ∷ ts else ts)
        && all_new values (if same is_type false then name ∷ vs else vs))
      ≡ false
unfolding all_new
old_name true name ts vs types values h = ground (arith, h)
old_name false name ts vs types values h = ground (arith, h)

new_name :
    (is_type : Bool) (name : Symbol) (ts vs types values : List Symbol)
    → contains name (if is_type then types else values) ≡ false
    → (all_new types (if same is_type true then name ∷ ts else ts)
        && all_new values (if same is_type false then name ∷ vs else vs))
      ≡ (all_new (if is_type then name ∷ types else types) ts
          && all_new (if is_type then values else name ∷ values) vs)
unfolding all_new
new_name true name ts vs types values h = ground (arith, h)
new_name false name ts vs types values h = ground (arith, h)

grown_types :
    (is_type : Bool) (name : Symbol) (bindings new : Bindings) (types : List Symbol)
    → ((key : Symbol)
        → bound true key new ≡ (same is_type true && key == name || bound true key bindings))
    → Bound true bindings types
    → Bound true new (if is_type then name ∷ types else types)
unfolding contains
grown_types true name bindings new types e h key = ground (arith, e key, h key)
grown_types false name bindings new types e h key = ground (arith, e key, h key)

grown_values :
    (is_type : Bool) (name : Symbol) (bindings new : Bindings) (values : List Symbol)
    → ((key : Symbol)
        → bound false key new ≡ (same is_type false && key == name || bound false key bindings))
    → Bound false bindings values
    → Bound false new (if is_type then values else name ∷ values)
unfolding contains
grown_values true name bindings new values e h key = ground (arith, e key, h key)
grown_values false name bindings new values e h key = ground (arith, e key, h key)

collect_items-accepts :
    (items : List Item) (table : SymbolTable) (m : ModuleInfo) (bindings : Bindings)
    (types values : List Symbol)
    → Bound true bindings types
    → Bound false bindings values
    → accepts (collect_items table m bindings items)
      ≡ (all_new types (declared_names true items) && all_new values (declared_names false items))
unfolding collect_items declared_names all_new
collect_items-accepts [] table m bindings types values h g = refl
collect_items-accepts (item ∷ items) table m bindings types values h g =
    elim (Option-cases (declared item)) [
      | inl skip ↦
          rw (skip, collect_items, declared_names)
            (collect_items-accepts items table m bindings types values h g)
      | inr (d, hit) ↦ elim (Bool-cases (bound d.is_type d.name bindings)) [
        | inl taken ↦
            let (new_table, internal_name) = mangle_name table m d.name in
            rw (hit, collect_items, declared_names)
              (rw (insert_taken new_table bindings d internal_name taken) (
                sym (
                  old_name d.is_type d.name _ _ types values
                    (sym (bound_seen d.is_type d.name bindings types values h g) ∙ taken))))
        | inr new ↦
            let (new_table, internal_name) = mangle_name table m d.name in
            let later : Bindings =
              set_entry d.name (entered (set_for d internal_name) (entry d.name bindings))
                bindings in
            rw (hit, collect_items, declared_names)
              (rw (insert_new new_table bindings d internal_name new) (
                collect_items-accepts items new_table m later _ _
                  (grown_types d.is_type d.name bindings later types
                    (bound-entered d internal_name bindings true) h)
                  (grown_values d.is_type d.name bindings later values
                    (bound-entered d internal_name bindings false) g)
                ∙ sym (
                    new_name d.is_type d.name _ _ types values
                      (sym (bound_seen d.is_type d.name bindings types values h g) ∙ new))))
      ]
    ]

with_locals-accepts :
    (m : ModuleInfo) (x : Checked (SymbolTable × Bindings)) → accepts (with_locals m x) ≡ accepts x
with_locals-accepts m (refused e) = refl
with_locals-accepts m (done a) = refl

-- A module is accepted exactly where no two of its items declare one name in one namespace, types and enums in the one,
-- functions in the other. It has no bindings before.
pub collect_local_bindings-accepts :
    (table : SymbolTable) (m : ModuleInfo)
    → m.local_bindings ≡ []
    → accepts (collect_local_bindings table m) ≡ (
        all_new [] (declared_names true m.program.items)
        && all_new [] (declared_names false m.program.items))
unfolding collect_local_bindings entry find_binding contains
collect_local_bindings-accepts table m h =
    with_locals-accepts m (collect_items table m m.local_bindings m.program.items)
    ∙ collect_items-accepts m.program.items table m m.local_bindings [] []
        (λ key. ap (bound true key) h) (λ key. ap (bound false key) h)
