-- ===== src/Builder/Encode.antt =====
-- compiler/cstc_lir_builder/src/builder.cpp: the texts that stand for concrete types in the names of instantiations.
use cicest.Prelude.{
  ℕ, suc, ◌+◌, ◌-◌, ◌/◌, ◌%◌, Bool, true, false, [], ◌∷◌, ◌++◌, ltb, if◌then◌else◌, length, Bytes,
  bytes,
}
use cicest.Symbol.{SymbolTable, Symbol, resolve, intern}
use cicest.Ty.{Ty, ty, Tys, nil, cons, Pointee, null, to, TyKind}
use cicest.Lexer.Chars.{is_ident_continue}
use cicest.Lir.Const.{text_or}
use cicest.Module.{to_string}

abbrev pub hex_digit : ℕ → ℕ
hex_digit value = if ltb value 10 then 48 + value else 97 + (value - 10)

unfoldable pub sanitize_symbol_fragment : Bytes → Bytes
unfolding is_ident_continue
sanitize_symbol_fragment [] = []
sanitize_symbol_fragment (ch ∷ text) =
    let rest = sanitize_symbol_fragment text in
    if is_ident_continue ch
    then ch ∷ rest
    else b'_' ∷ b'x' ∷ hex_digit (ch / 16) ∷ hex_digit (ch % 16) ∷ rest

-- `encode_symbol`, for the text of a symbol.
unfoldable pub encode_text : Bytes → Bytes
unfolding sanitize_symbol_fragment to_string
encode_text text = to_string (length text) ++ b'_' ∷ sanitize_symbol_fragment text

unfoldable pub encode_symbol : SymbolTable → Symbol → Bytes
unfolding encode_text
encode_symbol table symbol = encode_text (text_or table symbol (bytes "invalid"))

abbrev pub args_length : Tys → ℕ
args_length nil = 0
args_length (cons t ts) = suc (args_length ts)

abbrev pub runtime_suffix : Bool → Bytes
runtime_suffix true = bytes "_rt"
runtime_suffix false = []

unfoldable mutual
  unfolding encode_symbol

  pub encode_type : SymbolTable → Ty → Bytes
  encode_type table (ty TyKind.ref n d gs p s r) = b'R' ∷ encode_pointee table p
  encode_type table (ty TyKind.unit n d gs p s r) = b'U' ∷ []
  encode_type table (ty TyKind.num n d gs p s r) = b'N' ∷ []
  encode_type table (ty TyKind.str n d gs p s r) = b'S' ∷ []
  encode_type table (ty TyKind.bool n d gs p s r) = b'B' ∷ []
  encode_type table (ty TyKind.never n d gs p s r) = b'X' ∷ []
  encode_type table (ty TyKind.named n d gs p s r) =
      b'T' ∷ encode_symbol table n ++ runtime_suffix r ++ encode_generics table gs

  pub encode_pointee : SymbolTable → Pointee → Bytes
  encode_pointee table null = bytes "unknown"
  encode_pointee table (to t) = encode_type table t

  pub encode_generics : SymbolTable → Tys → Bytes
  encode_generics table nil = []
  encode_generics table (cons t ts) =
      bytes "_g"
      ++ to_string (suc (args_length ts))
      ++ b'_' ∷ encode_type table t
      ++ encode_args table ts

  pub encode_args : SymbolTable → Tys → Bytes
  encode_args table nil = []
  encode_args table (cons t ts) = b'_' ∷ encode_type table t ++ encode_args table ts

-- The arguments behind the first, each behind the separator.
unfoldable pub encode_rest : SymbolTable → ℕ → Tys → Bytes
unfolding encode_type
encode_rest table sep nil = []
encode_rest table sep (cons t ts) = sep ∷ encode_type table t ++ encode_rest table sep ts

unfoldable pub key_args : SymbolTable → Tys → Bytes
unfolding encode_rest
key_args table nil = []
key_args table (cons t ts) = encode_type table t ++ encode_rest table b',' ts

unfoldable pub instantiation_cache_key : SymbolTable → Symbol → Tys → Bytes
unfolding key_args
instantiation_cache_key table base_name generic_args =
    resolve table base_name ++ b'<' ∷ key_args table generic_args ++ bytes ">"

unfoldable pub instantiated_text : SymbolTable → Symbol → Tys → Bytes
unfolding encode_rest
instantiated_text table base_name generic_args =
    resolve table base_name ++ bytes "$inst" ++ encode_rest table b'$' generic_args

unfoldable pub make_instantiated_name : SymbolTable → Symbol → Tys → SymbolTable × Symbol
unfolding instantiated_text
make_instantiated_name table base_name generic_args =
    intern table (instantiated_text table base_name generic_args)
