-- ===== src/Module/Flatten.antt =====
-- compiler/cstc_module/include/cstc_module/module.hpp: declarations under `AstRewriter`, and `flatten_program`.
use cicest.Prelude.{
  ℕ, zero, suc, ◌+◌, Bool, true, false, not, ◌&&◌, ◌||◌, List, [], ◌∷◌, ◌++◌, Option, none, some,
  map, ltb, ◌==◌, if◌then◌else◌, length, get_elem?, keep_if,
}
use cicest.Symbol.{Symbol}
use cicest.Ast.Items.{
  FieldDecl, Param, Item, of_struct, of_enum, of_fn, of_extern_fn, of_extern_struct, of_import,
  Program,
}
use cicest.Module.{BindingSet, ModuleInfo, ResolveState, rewritten, find_binding}
use cicest.Module.Rewrite.{
  Scopes, push_scope, add_local_name, shown_as, rewrite_type, rewrite_annotation, rewrite_block,
}

-- `rewrite_decl_name` of the name and the display name.
unfoldable pub rewrite_decl_name : Symbol × Symbol → Option BindingSet → Bool → Symbol × Symbol
rewrite_decl_name names none type_namespace = names
rewrite_decl_name names (some set) type_namespace =
    elim (if type_namespace then set.type_binding else set.value_binding) [
      | none ↦ names
      | some b ↦ (b.internal_name, shown_as names.1 b.source_name)
    ]

unfoldable pub add_local_names : List Param → Scopes → Scopes
add_local_names [] scopes = scopes
add_local_names (p ∷ ps) scopes = add_local_names ps (add_local_name p.name scopes)

module _ (m : ModuleInfo) where
  abbrev pub decl_name : Symbol → Symbol → Bool → Symbol × Symbol
  decl_name name display type_namespace =
      rewrite_decl_name (name, display) (find_binding name m.local_bindings) type_namespace

  unfoldable pub rewrite_field_types : List FieldDecl → List FieldDecl
  rewrite_field_types [] = []
  rewrite_field_types (f ∷ fs) = record f { type = rewrite_type m f.type } ∷ rewrite_field_types fs

  unfoldable pub rewrite_param_types : List Param → List Param
  rewrite_param_types [] = []
  rewrite_param_types (p ∷ ps) = record p { type = rewrite_type m p.type } ∷ rewrite_param_types ps

  -- The scopes are empty between items, so that `push_scope` leaves one.
  unfoldable pub rewrite_item : Item → Item
  rewrite_item (of_struct d) =
      let names = decl_name d.name d.display_name true in
      of_struct
        (record d { name = names.0; display_name = names.1; fields = rewrite_field_types d.fields })
  rewrite_item (of_enum d) =
      let names = decl_name d.name d.display_name true in
      of_enum (record d { name = names.0; display_name = names.1 })
  rewrite_item (of_fn d) =
      let names = decl_name d.name d.display_name false in
      let (body, left) = rewrite_block m d.body (add_local_names d.params (push_scope [])) in
      of_fn (record d {
        name = names.0;
        display_name = names.1;
        params = rewrite_param_types d.params;
        return_type = rewrite_annotation m d.return_type;
        body = body;
      })
  rewrite_item (of_extern_fn d) =
      let names = decl_name d.name d.display_name false in
      of_extern_fn (record d {
        name = names.0;
        display_name = names.1;
        params = rewrite_param_types d.params;
        return_type = rewrite_annotation m d.return_type;
      })
  rewrite_item (of_extern_struct d) =
      let names = decl_name d.name d.display_name true in
      of_extern_struct (record d { name = names.0; display_name = names.1 })
  rewrite_item (of_import d) = of_import d

  unfoldable pub rewrite_program : Program → Program
  rewrite_program program = record { items = map rewrite_item program.items }

abbrev pub is_rewritten : ResolveState → Bool
is_rewritten rewritten = true
is_rewritten _ = false

unfoldable pub rewrite_module : ModuleInfo → ModuleInfo
rewrite_module m =
    if is_rewritten m.state
    then m
    else record m { program = rewrite_program m m.program; state = rewritten }

-- The modules other than the root and the prelude, from index `index` on.
unfoldable pub others_from : ℕ → ℕ → ℕ → ℕ → List ℕ
others_from zero index root prelude = []
others_from (suc count) index root prelude =
    let later = others_from count (index + 1) root prelude in
    if index == root || index == prelude then later else index ∷ later

-- The order of the modules: the prelude, the others as they were loaded, the root.
unfoldable pub ordered : ℕ → ℕ → ℕ → List ℕ
ordered size root prelude =
    (if ltb prelude size then prelude ∷ [] else [])
    ++ (others_from size 0 root prelude
        ++ (if ltb root size && not (root == prelude) then root ∷ [] else []))

abbrev is_import : Item → Bool
is_import (of_import d) = true
is_import _ = false

-- `rewrite_module` at an index.
unfoldable pub rewrite_at : ℕ → List ModuleInfo → List ModuleInfo
rewrite_at index [] = []
rewrite_at zero (m ∷ ms) = rewrite_module m ∷ ms
rewrite_at (suc index) (m ∷ ms) = m ∷ rewrite_at index ms

abbrev pub items_of : Option ModuleInfo → List Item
items_of none = []
items_of (some m) = keep_if (λ item. not (is_import item)) m.program.items

-- The loop of `flatten_program`: the modules that it leaves, and the items behind those so far.
unfoldable pub merge_modules : List ℕ → List ModuleInfo → List Item → List ModuleInfo × List Item
merge_modules [] ms items = (ms, items)
merge_modules (index ∷ indices) ms items =
    let new = rewrite_at index ms in
    merge_modules indices new (items ++ items_of (get_elem? new index))

unfoldable pub flatten_program : List ModuleInfo → ℕ → ℕ → List ModuleInfo × Program
flatten_program ms root prelude =
    let (left, items) = merge_modules (ordered (length ms) root prelude) ms [] in
    (left, record { items = items })
