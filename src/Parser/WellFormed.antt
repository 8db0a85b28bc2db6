-- ===== src/Parser/WellFormed.antt =====
-- What the parser promises of the trees that it returns: the names that one declaration or initializer declares are
-- distinct, and types carry `runtime` and `const` only where they may.
use cicest.Prelude.{
  ◌≡◌, refl, Bool, true, false, not, ◌&&◌, ◌||◌, List, [], ◌∷◌, ◌++◌, map, Option, none, some,
  arith,
}
use cicest.Symbol.{Symbol}
use cicest.Ast
use cicest.Ast.{TypeRef, type_ref, TypeRefs, TypeRefPtr, null, to}
use cicest.Ast.Nodes.{
  Expr, expr, Node, literal_expr, path_expr, struct_init_expr, generic_app_expr, unary_expr,
  binary_expr, field_access_expr, call_expr, decl_expr, runtime_expr, block_expr, if_expr,
  loop_expr, while_expr, for_expr, break_expr, continue_expr, return_expr, Exprs, nil, cons,
  OptExpr, absent, present, StructInitField, field, StructInitFields, no_fields, fields, LetStmt,
  let_stmt, ForInit, no_init, init_let, init_expr, Stmt, of_let, expr_stmt, Stmts, no_stmts, stmts,
  BlockExpr, block, exprs_of, fields_of, stmts_of, field_name,
}
use cicest.Ast.Items.{
  GenericConstraint, FieldDecl, Param, Item, of_struct, of_enum, of_fn, of_extern_fn,
  of_extern_struct, of_import,
}
use cicest.Parser.Monad.{contains}
use cicest.Parser.Types.{type_refs_of}
use cicest.Parser.Items.{param_names, field_names, variant_names, fn_param_names}

-- A type is never marked both `runtime` and `const`, only its top level may be `const`, and that only where
-- `allow` says so.
unfoldable mutual
  pub well_qualified : Bool → TypeRef → Bool
  well_qualified allow (type_ref k s d p r gs c) =
      (not (r && c) && (allow || not c)) && (args_qualified gs && pointee_qualified p)

  pub args_qualified : TypeRefs → Bool
  args_qualified Ast.nil = true
  args_qualified (Ast.cons a gs) = well_qualified false a && args_qualified gs

  pub pointee_qualified : TypeRefPtr → Bool
  pointee_qualified null = true
  pointee_qualified (to a) = well_qualified false a

unfoldable pub opt_qualified : Bool → Option TypeRef → Bool
opt_qualified allow none = true
opt_qualified allow (some t) = well_qualified allow t

unfoldable pub distinct : List Symbol → Bool
distinct [] = true
distinct (x ∷ xs) = not (contains x xs) && distinct xs

unfoldable pub names_of : StructInitFields → List Symbol
names_of no_fields = []
names_of (fields f fs) = field_name f ∷ names_of fs

unfoldable mutual
  pub expr_ok : Expr → Bool
  expr_ok (expr node span) = node_ok node

  pub node_ok : Node → Bool
  node_ok (literal_expr l) = true
  node_ok (path_expr path) = args_qualified path.generic_args
  node_ok (struct_init_expr t d gs fs) = args_qualified gs && distinct (names_of fs) && fields_ok fs
  node_ok (generic_app_expr e gs) = expr_ok e && args_qualified gs
  node_ok (unary_expr op e) = expr_ok e
  node_ok (binary_expr op e f) = expr_ok e && expr_ok f
  node_ok (field_access_expr e s) = expr_ok e
  node_ok (call_expr e es) = expr_ok e && exprs_ok es
  node_ok (decl_expr e) = expr_ok e
  node_ok (runtime_expr b) = block_ok b
  node_ok (block_expr b) = block_ok b
  node_ok (if_expr c b e) = expr_ok c && block_ok b && opt_ok e
  node_ok (loop_expr b) = block_ok b
  node_ok (while_expr c b) = expr_ok c && block_ok b
  node_ok (for_expr i c s b) = init_ok i && opt_ok c && opt_ok s && block_ok b
  node_ok (break_expr e) = opt_ok e
  node_ok continue_expr = true
  node_ok (return_expr e) = opt_ok e

  pub exprs_ok : Exprs → Bool
  exprs_ok nil = true
  exprs_ok (cons e es) = expr_ok e && exprs_ok es

  pub opt_ok : OptExpr → Bool
  opt_ok absent = true
  opt_ok (present e) = expr_ok e

  pub field_ok : StructInitField → Bool
  field_ok (field name e span) = expr_ok e

  pub fields_ok : StructInitFields → Bool
  fields_ok no_fields = true
  fields_ok (fields f fs) = field_ok f && fields_ok fs

  pub let_ok : LetStmt → Bool
  let_ok (let_stmt d n t e s) = opt_qualified true t && expr_ok e

  pub init_ok : ForInit → Bool
  init_ok no_init = true
  init_ok (init_let s) = let_ok s
  init_ok (init_expr e) = expr_ok e

  pub stmt_ok : Stmt → Bool
  stmt_ok (of_let s) = let_ok s
  stmt_ok (expr_stmt e span) = expr_ok e

  pub stmts_ok : Stmts → Bool
  stmts_ok no_stmts = true
  stmts_ok (stmts s ss) = stmt_ok s && stmts_ok ss

  pub block_ok : BlockExpr → Bool
  block_ok (block ss t span) = stmts_ok ss && opt_ok t

unfoldable pub constraints_ok : List GenericConstraint → Bool
constraints_ok [] = true
constraints_ok (c ∷ cs) = expr_ok c.expr && constraints_ok cs

-- Only the parameters of functions may be `const`.
unfoldable pub field_types_ok : List FieldDecl → Bool
field_types_ok [] = true
field_types_ok (f ∷ fs) = well_qualified false f.type && field_types_ok fs

unfoldable pub param_types_ok : List Param → Bool
param_types_ok [] = true
param_types_ok (p ∷ ps) = well_qualified true p.type && param_types_ok ps

unfoldable pub item_ok : Item → Bool
item_ok (of_struct d) =
    distinct (param_names d.generic_params)
    && constraints_ok d.where_clause
    && (distinct (field_names d.fields) && field_types_ok d.fields)
item_ok (of_enum d) =
    distinct (param_names d.generic_params)
    && constraints_ok d.where_clause
    && distinct (variant_names d.variants)
item_ok (of_fn d) =
    distinct (param_names d.generic_params)
    && constraints_ok d.where_clause
    && (distinct (fn_param_names d.params) && param_types_ok d.params)
    && opt_qualified false d.return_type
    && block_ok d.body
item_ok (of_extern_fn d) =
    (distinct (fn_param_names d.params) && param_types_ok d.params)
    && opt_qualified false d.return_type
item_ok (of_extern_struct d) = true
item_ok (of_import d) = true

unfoldable pub items_ok : List Item → Bool
items_ok [] = true
items_ok (i ∷ is) = item_ok i && items_ok is

-- The lists that loops build at their end.

contains-append :
    (x y : Symbol) (xs : List Symbol)
    → contains x (xs ++ y ∷ []) ≡ (contains x xs || contains x (y ∷ []))
unfolding contains
contains-append x y [] = refl
contains-append x y (z ∷ xs) = ground (arith, contains-append x y xs)

distinct-append :
    (y : Symbol) (xs : List Symbol)
    → contains y xs ≡ false
    → distinct xs ≡ true
    → distinct (xs ++ y ∷ []) ≡ true
unfolding distinct contains
distinct-append y [] h g = refl
distinct-append y (x ∷ xs) h g = ground (arith, distinct-append y xs, contains-append x y xs)

map-append {ℓ} :
    {A : Type ℓ} (f : A → Symbol) (xs : List A) (x : A)
    → map f (xs ++ x ∷ []) ≡ map f xs ++ f x ∷ []
map-append f [] x = refl
map-append f (y ∷ xs) x = rw (map-append f xs x) refl

-- A new name behind distinct ones.
pub distinct-map_append {ℓ} :
    {A : Type ℓ} (f : A → Symbol) (xs : List A) (x : A)
    → contains (f x) (map f xs) ≡ false
    → distinct (map f xs) ≡ true
    → distinct (map f (xs ++ x ∷ [])) ≡ true
distinct-map_append f xs x h g = rw (map-append f xs x) (distinct-append (f x) (map f xs) h g)

pub names_of-fields_of : (fs : List StructInitField) → names_of (fields_of fs) ≡ map field_name fs
unfolding names_of
names_of-fields_of [] = refl
names_of-fields_of (f ∷ fs) = ground (arith, names_of-fields_of fs)

pub exprs_ok-append :
    (es : List Expr) (e : Expr)
    → exprs_ok (exprs_of (es ++ e ∷ [])) ≡ (exprs_ok (exprs_of es) && expr_ok e)
unfolding exprs_ok
exprs_ok-append [] e = ground arith
exprs_ok-append (x ∷ es) e = ground (arith, exprs_ok-append es e)

pub fields_ok-append :
    (fs : List StructInitField) (f : StructInitField)
    → fields_ok (fields_of (fs ++ f ∷ [])) ≡ (fields_ok (fields_of fs) && field_ok f)
unfolding fields_ok
fields_ok-append [] f = ground arith
fields_ok-append (x ∷ fs) f = ground (arith, fields_ok-append fs f)

pub stmts_ok-append :
    (ss : List Stmt) (s : Stmt)
    → stmts_ok (stmts_of (ss ++ s ∷ [])) ≡ (stmts_ok (stmts_of ss) && stmt_ok s)
unfolding stmts_ok
stmts_ok-append [] s = ground arith
stmts_ok-append (x ∷ ss) s = ground (arith, stmts_ok-append ss s)

pub args_qualified-append :
    (ts : List TypeRef) (t : TypeRef)
    → args_qualified (type_refs_of (ts ++ t ∷ []))
      ≡ (args_qualified (type_refs_of ts) && well_qualified false t)
unfolding args_qualified
args_qualified-append [] t = ground arith
args_qualified-append (x ∷ ts) t = ground (arith, args_qualified-append ts t)

pub constraints_ok-append :
    (cs : List GenericConstraint) (c : GenericConstraint)
    → constraints_ok (cs ++ c ∷ []) ≡ (constraints_ok cs && expr_ok c.expr)
unfolding constraints_ok
constraints_ok-append [] c = ground arith
constraints_ok-append (x ∷ cs) c = ground (arith, constraints_ok-append cs c)

pub field_types_ok-append :
    (fs : List FieldDecl) (f : FieldDecl)
    → field_types_ok (fs ++ f ∷ []) ≡ (field_types_ok fs && well_qualified false f.type)
unfolding field_types_ok
field_types_ok-append [] f = ground arith
field_types_ok-append (x ∷ fs) f = ground (arith, field_types_ok-append fs f)

pub param_types_ok-append :
    (ps : List Param) (p : Param)
    → param_types_ok (ps ++ p ∷ []) ≡ (param_types_ok ps && well_qualified true p.type)
unfolding param_types_ok
param_types_ok-append [] p = ground arith
param_types_ok-append (x ∷ ps) p = ground (arith, param_types_ok-append ps p)

pub items_ok-append :
    (is : List Item) (i : Item) → items_ok (is ++ i ∷ []) ≡ (items_ok is && item_ok i)
unfolding items_ok
items_ok-append [] i = ground arith
items_ok-append (x ∷ is) i = ground (arith, items_ok-append is i)
