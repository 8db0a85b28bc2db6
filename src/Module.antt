-- ===== src/Module.antt =====
-- compiler/cstc_module/include/cstc_module/module.hpp: modules and the bindings of their names.
-- A hash map of bindings is an association list. Where a call fails the whole load is given up, so that an error
-- carries no state. `Symbol::intern` takes and returns the session's table.
pub mod Names
pub mod Rewrite
pub mod Scopes
pub mod Flatten
pub mod Order
pub mod Load
pub mod Loading
pub mod Lookup
pub mod Scoping
pub mod Lexical
mod Examples
use cicest.Prelude.{
  ℕ, zero, suc, ◌+◌, ◌/◌, ◌%◌, Bool, true, false, not, ◌&&◌, ◌||◌, List, [], ◌∷◌, ◌++◌, Option,
  none, some, ltb, ◌==◌, if◌then◌else◌, Bytes, bytes,
}
use cicest.Span.{SourceSpan}
use cicest.Symbol.{SymbolTable, Symbol, intern, resolve, is_valid}
use cicest.Ast.Items.{
  Item, of_struct, of_enum, of_fn, of_extern_fn, of_extern_struct, of_import, Program,
}

pub record ModuleError : Type 0 where
  pub span : SourceSpan
  pub message : Bytes

pub data BindingKind : Type 0 where
  struct enum fn extern_fn extern_struct : BindingKind

pub record Binding : Type 0 where
  pub kind : BindingKind
  pub source_name : Symbol
  pub internal_name : Symbol
  pub span : SourceSpan

pub record BindingSet : Type 0 where
  pub type_binding : Option Binding
  pub value_binding : Option Binding

abbrev pub no_bindings : BindingSet
no_bindings = record { type_binding = none; value_binding = none }

abbrev pub Bindings : Type 0
Bindings = List (Symbol × BindingSet)

pub data ResolveState : Type 0 where
  loaded resolving resolved rewritten : ResolveState

pub record ModuleInfo : Type 0 where
  pub path : Bytes
  pub file_id : ℕ
  pub program : Program
  pub module_id : ℕ
  pub is_root : Bool
  pub is_prelude : Bool
  pub state : ResolveState
  pub local_bindings : Bindings
  pub visible_bindings : Bindings
  pub fallback_bindings : Bindings
  pub exports : Bindings

-- `std::expected<A, ModuleError>`
pub data Checked {ℓ} (A : Type ℓ) : Type ℓ where
  refused : ModuleError → Checked A
  done : A → Checked A

unfoldable pub symbol_text : SymbolTable → Symbol → Bytes
symbol_text table symbol =
    if is_valid symbol then resolve table symbol else bytes "<invalid-symbol>"

unfoldable pub duplicate_message : SymbolTable → Bool → Symbol → Bytes
duplicate_message table type_namespace name =
    bytes "duplicate "
    ++ (if type_namespace then bytes "type" else bytes "function")
    ++ bytes " name '"
    ++ symbol_text table name
    ++ bytes "'"

unfoldable pub find_binding : Symbol → Bindings → Option BindingSet
find_binding name [] = none
find_binding name ((key, set) ∷ bindings) =
    if key == name then some set else find_binding name bindings

-- `bindings[name]`, which enters an empty set where there is none.
unfoldable pub entry : Symbol → Bindings → BindingSet
entry name bindings = elim (find_binding name bindings) [ none ↦ no_bindings | some set ↦ set ]

-- An entry overwritten, or a new one.
unfoldable pub set_entry : Symbol → BindingSet → Bindings → Bindings
set_entry name set [] = (name, set) ∷ []
set_entry name set ((key, old) ∷ bindings) =
    if key == name then (key, set) ∷ bindings else (key, old) ∷ set_entry name set bindings

abbrev pub has_value {ℓ} : {A : Type ℓ} → Option A → Bool
has_value none = false
has_value (some a) = true

abbrev pub or_else {ℓ} : {A : Type ℓ} → Option A → Option A → Option A
or_else none other = other
or_else (some a) other = some a

unfoldable pub insert_binding_set :
    SymbolTable → Bindings → Symbol → BindingSet → SourceSpan → Checked Bindings
insert_binding_set table bindings visible_name incoming error_span =
    let current = entry visible_name bindings in
    if has_value incoming.type_binding && has_value current.type_binding
    then refused (record { span = error_span; message = duplicate_message table true visible_name })
    else (if has_value incoming.value_binding && has_value current.value_binding
        then refused
            (record { span = error_span; message = duplicate_message table false visible_name })
        else done (
            set_entry visible_name
              (record {
                type_binding = or_else incoming.type_binding current.type_binding;
                value_binding = or_else incoming.value_binding current.value_binding;
              })
              bindings))

-- `std::to_string` on fuel, the number of digits at most.
unfoldable pub digits : ℕ → ℕ → Bytes
digits zero n = []
digits (suc fuel) n =
    let high = digits fuel (n / 10) in
    if ltb n 10 then (48 + n) ∷ [] else high ++ (48 + n % 10) ∷ []

unfoldable pub to_string : ℕ → Bytes
to_string n = digits (suc n) n

abbrev pub mangled_text : ℕ → Bytes → Bytes
mangled_text module_id text = bytes "__cst_mod_" ++ (to_string module_id ++ (bytes "__" ++ text))

unfoldable pub mangle_name : SymbolTable → ModuleInfo → Symbol → SymbolTable × Symbol
mangle_name table m source_name =
    if m.is_root
    then (table, source_name)
    else intern table (mangled_text m.module_id (resolve table source_name))

-- What an item declares: whether it is a type, its kind, its name and its span.
pub record Declared : Type 0 where
  pub is_type : Bool
  pub kind : BindingKind
  pub name : Symbol
  pub span : SourceSpan
  pub is_public : Bool

unfoldable pub declared : Item → Option Declared
declared (of_struct d) = some (record {
  is_type = true;
  kind = BindingKind.struct;
  name = d.name;
  span = d.span;
  is_public = d.is_public;
})
declared (of_enum d) = some (record {
  is_type = true;
  kind = BindingKind.enum;
  name = d.name;
  span = d.span;
  is_public = d.is_public;
})
declared (of_fn d) = some (record {
  is_type = false;
  kind = BindingKind.fn;
  name = d.name;
  span = d.span;
  is_public = d.is_public;
})
declared (of_extern_fn d) = some (record {
  is_type = false;
  kind = BindingKind.extern_fn;
  name = d.name;
  span = d.span;
  is_public = d.is_public;
})
declared (of_extern_struct d) = some (record {
  is_type = true;
  kind = BindingKind.extern_struct;
  name = d.name;
  span = d.span;
  is_public = d.is_public;
})
declared (of_import d) = none

abbrev binding_for : Declared → Symbol → Binding
binding_for d internal_name = record {
  kind = d.kind;
  source_name = d.name;
  internal_name = internal_name;
  span = d.span;
}

abbrev pub set_for : Declared → Symbol → BindingSet
set_for d internal_name =
    if d.is_type
    then record { type_binding = some (binding_for d internal_name); value_binding = none }
    else record { type_binding = none; value_binding = some (binding_for d internal_name) }

-- The loop of `collect_local_bindings`, with the table and the bindings so far.
unfoldable pub collect_items :
    SymbolTable → ModuleInfo → Bindings → List Item → Checked (SymbolTable × Bindings)
collect_items table m bindings [] = done (table, bindings)
collect_items table m bindings (item ∷ items) = elim (declared item) [
  | none ↦ collect_items table m bindings items
  | some d ↦
      let (new_table, internal_name) = mangle_name table m d.name in
      elim (insert_binding_set new_table bindings d.name (set_for d internal_name) d.span) [
        | refused e ↦ refused e
        | done inserted ↦ collect_items new_table m inserted items
      ]
]

abbrev pub with_locals :
    ModuleInfo → Checked (SymbolTable × Bindings) → Checked (SymbolTable × ModuleInfo)
with_locals m (refused e) = refused e
with_locals m (done (table, bindings)) = done (table, record m { local_bindings = bindings })

unfoldable pub collect_local_bindings :
    SymbolTable → ModuleInfo → Checked (SymbolTable × ModuleInfo)
collect_local_bindings table m =
    with_locals m (collect_items table m m.local_bindings m.program.items)

-- At a name that is bound.
unfoldable pub binding_set_for_decl : ModuleInfo → Symbol → Bool → BindingSet
binding_set_for_decl m visible_name type_namespace =
    let binding = entry visible_name m.local_bindings in
    if type_namespace
    then record { type_binding = binding.type_binding; value_binding = none }
    else record { type_binding = none; value_binding = binding.value_binding }

unfoldable pub merge_binding_sets : BindingSet → BindingSet → BindingSet
merge_binding_sets visible fallback = record {
  type_binding = or_else visible.type_binding fallback.type_binding;
  value_binding = or_else visible.value_binding fallback.value_binding;
}
