-- ===== src/Module/Load.antt =====
-- compiler/cstc_module/include/cstc_module/module.hpp: `Resolver::load_module`.
-- Of the resolver's state these are the members that `load_module` uses. `std::ifstream` is the parameter `read`: a
-- path that cannot be opened has `none`, and a file that cannot be read to its end has `some none`.
use cicest.Prelude.{
  ℕ, zero, suc, ◌+◌, Bool, true, false, ◌||◌, List, [], ◌∷◌, ◌++◌, Option, none, some, length,
  Bytes, bytes,
}
use cicest.Span.{SourceSpan, SourceMap, add_file, file}
use cicest.Symbol.{SymbolTable, find, emplace}
use cicest.Ast.Items.{Program}
use cicest.Parser.{ParseWarning}
use cicest.Parser.Monad.{Parsed, out_of_fuel, failed, parsed}
use cicest.Parser.Program.{parse_source_at}
use cicest.Module.{
  ModuleInfo, ModuleError, ResolveState, Checked, refused, done, collect_local_bindings,
}

pub record Resolver : Type 0 where
  pub source_map : SourceMap
  pub table : SymbolTable
  pub warnings : Option (List ParseWarning)
  pub modules_by_path : List (Bytes × ℕ)
  pub modules : List ModuleInfo
  pub next_module_id : ℕ

-- `std::expected<A, ModuleError>` of a call that runs the parser.
pub data Loaded {ℓ} (A : Type ℓ) : Type ℓ where
  stuck : Loaded A
  rejected : ModuleError → Loaded A
  loaded_as : A → Loaded A

abbrev pub nowhere : SourceSpan
nowhere = record { start = 0; end = 0 }

unfoldable pub read_source_file : (Bytes → Option (Option Bytes)) → Bytes → Checked Bytes
read_source_file read path = elim (read path) [
  | none ↦
      refused (record { span = nowhere; message = bytes "failed to open input file: " ++ path })
  | some none ↦
      refused
        (record { span = nowhere; message = bytes "failed while reading input file: " ++ path })
  | some (some source) ↦ done source
]

-- A module that is there takes on the flags.
unfoldable pub mark_at : ℕ → Bool → Bool → List ModuleInfo → List ModuleInfo
mark_at index is_root is_prelude [] = []
mark_at zero is_root is_prelude (m ∷ ms) =
    record m { is_root = m.is_root || is_root; is_prelude = m.is_prelude || is_prelude } ∷ ms
mark_at (suc index) is_root is_prelude (m ∷ ms) = m ∷ mark_at index is_root is_prelude ms

-- Once the local bindings are collected.
abbrev pub enter_module :
    Resolver → Bytes → Checked (SymbolTable × ModuleInfo) → Loaded (Resolver × ℕ)
enter_module st path (refused e) = rejected e
enter_module st path (done (table, m)) =
    let index = length st.modules in
    loaded_as (
      record st {
        table = table;
        modules_by_path = emplace path index st.modules_by_path;
        modules = st.modules ++ m ∷ [];
      },
      index,
    )

-- Once the file is parsed.
abbrev pub enter_parsed : Resolver → Bytes → ModuleInfo → Parsed Program → Loaded (Resolver × ℕ)
enter_parsed st path m out_of_fuel = stuck
enter_parsed st path m (failed e p) = rejected (record { span = e.span; message = e.message })
enter_parsed st path m (parsed program p) =
    enter_module (record st { table = p.table; warnings = p.warnings }) path
      (collect_local_bindings p.table (record m { program = program }))

abbrev pub new_module : Resolver → Bytes → ℕ → Bool → Bool → ModuleInfo
new_module st path file_id is_root is_prelude = record {
  path = path;
  file_id = file_id;
  program = record { items = [] };
  module_id = elim is_root [ true ↦ 0 | false ↦ st.next_module_id ];
  is_root = is_root;
  is_prelude = is_prelude;
  state = ResolveState.loaded;
  local_bindings = [];
  visible_bindings = [];
  fallback_bindings = [];
  exports = [];
}

-- The file is added, and a module other than the root takes the next number.
abbrev pub with_file : Resolver → Bytes → Bool → Bytes → Resolver
with_file st path is_root source = record st {
  source_map = (add_file st.source_map path source).0;
  next_module_id = elim is_root [ true ↦ st.next_module_id | false ↦ st.next_module_id + 1 ];
}

-- Once the source is read.
unfoldable pub enter_source : Resolver → Bytes → Bool → Bool → Bytes → Loaded (Resolver × ℕ)
enter_source st path is_root is_prelude source =
    let file_id = (add_file st.source_map path source).1 in
    let new = with_file st path is_root source in
    elim (file new.source_map file_id) [
      | none ↦
          rejected (record {
            span = nowhere;
            message = bytes "invalid source file id while loading module";
          })
      | some f ↦ elim (parse_source_at new.table f.source f.start_pos new.warnings) [
        | none ↦ stuck
        | some result ↦ enter_parsed new path (new_module st path file_id is_root is_prelude) result
      ]
    ]

unfoldable pub load_module :
    (Bytes → Option (Option Bytes)) → Bytes → Bool → Bool → Resolver → Loaded (Resolver × ℕ)
load_module read path is_root is_prelude st = elim (find path st.modules_by_path) [
  | some index ↦
      loaded_as (record st { modules = mark_at index is_root is_prelude st.modules }, index)
  | none ↦ elim (read_source_file read path) [
    | refused e ↦ rejected e
    | done source ↦ enter_source st path is_root is_prelude source
  ]
]
