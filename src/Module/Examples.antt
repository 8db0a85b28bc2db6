-- ===== src/Module/Examples.antt =====
-- A module's names at concrete declarations.
use cicest.Prelude.{
  Option, Bytes, subst, some_inj, ℕ, ◌<◌, ◌≡◌, refl, ◌↔◌, true, false, List, [], ◌∷◌, ◌&&◌, none,
  some, bytes, arith,
}
use cicest.Span.{SourceSpan}
use cicest.Symbol.{session, find, Symbol, intern_all, resolve, is_valid}
use cicest.Symbol.Keywords.{session-IsValid, size-session}
use cicest.Ast
use cicest.Ast.Nodes.{
  BlockExpr, block, no_stmts, stmts, of_let, let_stmt, present, Expr, expr, path_expr, block_expr,
}
use cicest.Ast.Items.{Item, of_fn, of_extern_struct}
use cicest.Module.{
  ModuleInfo, BindingKind, ResolveState, find_binding, mangle_name, collect_local_bindings,
}
use cicest.Module.Scoping.{name_expr}
use cicest.Module.Lexical.{rewrite_expr_lexical}
use cicest.Module.Names.{mangle_name_eq_iff}
use cicest.Module.Rewrite.{
  rewrite_expr, rewrite_path, add_local_name, is_local_name, value_name, lookup_visible,
  rewrite_annotation,
}
use cicest.Module.Load.{Resolver, load_module}
use cicest.Module.Loading.{IsSound, HasRoomFor, Loads, load_module-Loads}
use cicest.Span.{empty_map}
use cicest.Span.Layout.{empty_map-IsValid}
use cicest.Module.Flatten.{flatten_program, ordered, others_from}
use cicest.Module.Order.{contributions, occurrences, flatten_program_lem}
use cicest.Parser.Monad.{contains}
use cicest.Module.Lookup.{accepts, all_new, declared_names, collect_local_bindings-accepts}

abbrev span : SourceSpan
span = record { start = 0; end = 1 }

-- `{ let x = y; x }` with 30 for `x` and 31 for `y`
abbrev name : Symbol → Expr
name symbol =
    expr
      (path_expr
        (record { head = symbol; tail = none; display_head = symbol; generic_args = Ast.nil }))
      span

abbrev body : BlockExpr
body =
    block (stmts (of_let (let_stmt false 30 none (name 31) span)) no_stmts) (present (name 30)) span

-- `fn` 31 and `extern struct` 32
abbrev items : List Item
items =
    of_fn (record {
      is_public = false;
      name = 31;
      display_name = 0;
      params = [];
      return_type = none;
      body = body;
      span = span;
      attributes = [];
      is_runtime = false;
      generic_params = [];
      where_clause = [];
    })
    ∷ of_extern_struct (record {
      is_public = true;
      abi = 20;
      name = 32;
      display_name = 0;
      span = span;
      attributes = [];
    })
    ∷ []

abbrev module_of : ℕ → ModuleInfo
module_of id = record {
  path = bytes "a.cst";
  file_id = 0;
  program = record { items = items };
  module_id = id;
  is_root = false;
  is_prelude = false;
  state = ResolveState.loaded;
  local_bindings = [];
  visible_bindings = [];
  fallback_bindings = [];
  exports = [];
}

mangle_name_eq_iff_example :
    ((mangle_name
        (intern_all (mangle_name session (module_of 1) 3).0 (bytes "x" ∷ []))
        (module_of 12)
        3).1
      ≡ (mangle_name session (module_of 1) 3).1)
    ↔ (((module_of 1).module_id ≡ (module_of 12).module_id)
        × (resolve session 3
            ≡ resolve (intern_all (mangle_name session (module_of 1) 3).0 (bytes "x" ∷ [])) 3))
mangle_name_eq_iff_example =
    mangle_name_eq_iff session (module_of 1) (module_of 12) 3 3 (bytes "x" ∷ []) session-IsValid
      (omega (arith, size-session)) refl refl

rewrite_expr_lexical_example :
    rewrite_expr (module_of 1) (expr (block_expr body) span) ((31 ∷ []) ∷ [])
    ≡ (name_expr (module_of 1) (expr (block_expr body) span) (31 ∷ []), (31 ∷ []) ∷ [])
rewrite_expr_lexical_example =
    rewrite_expr_lexical (module_of 1) (expr (block_expr body) span) ((31 ∷ []) ∷ [])

collect_local_bindings-accepts_example :
    accepts (collect_local_bindings session (module_of 1))
    ≡ (all_new [] (declared_names true items) && all_new [] (declared_names false items))
collect_local_bindings-accepts_example = collect_local_bindings-accepts session (module_of 1) refl

-- Module 0 is the root and module 1 the prelude.
abbrev three : List ModuleInfo
three = module_of 0 ∷ module_of 1 ∷ module_of 2 ∷ []

flatten_program_lem_example :
    ((flatten_program three 0 1).1.items ≡ contributions three (ordered 3 0 1))
    × ((i : ℕ) → i < 3 → occurrences i (ordered 3 0 1) ≡ 1)
flatten_program_lem_example = flatten_program_lem three 0 1 (omega arith) (omega arith)

prelude_first : ordered 3 0 1 ≡ 1 ∷ 2 ∷ 0 ∷ []
unfolding ordered others_from
prelude_first = refl

-- The binding of `x` shadows what is visible, from behind its initializer on.
shadowed :
    (rewrite_expr
      (record (module_of 1) {
        visible_bindings =
            (
              30,
              record {
                type_binding = none;
                value_binding = some (record {
                  kind = BindingKind.fn;
                  source_name = 30;
                  internal_name = 77;
                  span = span;
                });
              },
            )
            ∷ [];
      })
      (expr
        (block_expr (
          block
            (stmts (of_let (let_stmt false 30 none (name 30) span)) no_stmts)
            (present (name 30))
            span))
        span)
      []).0
    ≡ expr
        (block_expr (
          block
            (stmts
              (of_let (
                let_stmt false 30 none
                  (expr
                    (path_expr (record {
                      head = 77;
                      tail = none;
                      display_head = 30;
                      generic_args = Ast.nil;
                    }))
                    span)
                  span))
              no_stmts)
            (present (name 30))
            span))
        span
unfolding rewrite_expr rewrite_path add_local_name is_local_name contains value_name lookup_visible
    find_binding is_valid rewrite_annotation
shadowed = refl

-- Every file holds `struct S;`.
abbrev source : Bytes
source = bytes "struct S;"

abbrev read : Bytes → Option (Option Bytes)
read path = some (some source)

abbrev start : Resolver
start = record {
  source_map = empty_map;
  table = session;
  warnings = none;
  modules_by_path = [];
  modules = [];
  next_module_id = 1;
}

start-IsSound : IsSound start
unfolding find
start-IsSound = record {
  files = empty_map-IsValid;
  programs = tt;
  found = λ path i h. absurd (cc h);
}

start-HasRoomFor : (text : Bytes) → read (bytes "a.cst") ≡ some (some text) → HasRoomFor start text
start-HasRoomFor text h =
    let same : source ≡ text = some_inj (some_inj h) in
    subst (HasRoomFor start) same (
      record {
        valid = session-IsValid;
        symbols = omega (arith, size-session);
        positions = omega arith;
      },
      omega arith,
    )

load_module-Loads_example :
    Loads start (bytes "a.cst") (load_module read (bytes "a.cst") true false start)
load_module-Loads_example =
    load_module-Loads read (bytes "a.cst") true false start start-IsSound start-HasRoomFor
