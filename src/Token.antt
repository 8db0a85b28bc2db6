-- ===== src/Token.antt =====
-- compiler/cstc_lexer/include/cstc_lexer/token.hpp: token kinds and tokens.
use cicest.Prelude.{Bool, true, false, Bytes, bytes}
use cicest.Span.{SourceSpan}
use cicest.Symbol.{Symbol}

pub data TokenKind : Type 0 where
  end_of_file unknown whitespace line_comment block_comment identifier number string : TokenKind
  kw_struct kw_enum kw_fn kw_let kw_if kw_else kw_for kw_while kw_loop kw_break : TokenKind
  kw_continue kw_return kw_true kw_false kw_unit kw_num kw_str kw_bool kw_extern : TokenKind
  kw_runtime kw_pub kw_import kw_from kw_as kw_where l_brace r_brace l_paren r_paren : TokenKind
  l_bracket r_bracket comma semicolon colon colon_colon dot arrow amp plus minus star : TokenKind
  slash percent bang and_and or_or eq_eq not_eq lt lt_eq gt gt_eq assign : TokenKind

unfoldable pub TokenKind-discrete : Discrete TokenKind
TokenKind-discrete = hlevel

pub record Token : Type 0 where
  pub kind : TokenKind
  pub span : SourceSpan
  pub symbol : Symbol

unfoldable pub is_trivia : TokenKind → Bool
is_trivia whitespace = true
is_trivia line_comment = true
is_trivia block_comment = true
is_trivia _ = false

unfoldable pub token_kind_name : TokenKind → Bytes
token_kind_name end_of_file = bytes "EndOfFile"
token_kind_name unknown = bytes "Unknown"
token_kind_name whitespace = bytes "Whitespace"
token_kind_name line_comment = bytes "LineComment"
token_kind_name block_comment = bytes "BlockComment"
token_kind_name identifier = bytes "Identifier"
token_kind_name number = bytes "Number"
token_kind_name string = bytes "String"
token_kind_name kw_struct = bytes "KwStruct"
token_kind_name kw_enum = bytes "KwEnum"
token_kind_name kw_fn = bytes "KwFn"
token_kind_name kw_let = bytes "KwLet"
token_kind_name kw_if = bytes "KwIf"
token_kind_name kw_else = bytes "KwElse"
token_kind_name kw_for = bytes "KwFor"
token_kind_name kw_while = bytes "KwWhile"
token_kind_name kw_loop = bytes "KwLoop"
token_kind_name kw_break = bytes "KwBreak"
token_kind_name kw_continue = bytes "KwContinue"
token_kind_name kw_return = bytes "KwReturn"
token_kind_name kw_true = bytes "KwTrue"
token_kind_name kw_false = bytes "KwFalse"
token_kind_name kw_unit = bytes "KwUnit"
token_kind_name kw_num = bytes "KwNum"
token_kind_name kw_str = bytes "KwStr"
token_kind_name kw_bool = bytes "KwBool"
token_kind_name kw_extern = bytes "KwExtern"
token_kind_name kw_runtime = bytes "KwRuntime"
token_kind_name kw_pub = bytes "KwPub"
token_kind_name kw_import = bytes "KwImport"
token_kind_name kw_from = bytes "KwFrom"
token_kind_name kw_as = bytes "KwAs"
token_kind_name kw_where = bytes "KwWhere"
token_kind_name l_brace = bytes "LBrace"
token_kind_name r_brace = bytes "RBrace"
token_kind_name l_paren = bytes "LParen"
token_kind_name r_paren = bytes "RParen"
token_kind_name l_bracket = bytes "LBracket"
token_kind_name r_bracket = bytes "RBracket"
token_kind_name comma = bytes "Comma"
token_kind_name semicolon = bytes "Semicolon"
token_kind_name colon = bytes "Colon"
token_kind_name colon_colon = bytes "ColonColon"
token_kind_name dot = bytes "Dot"
token_kind_name arrow = bytes "Arrow"
token_kind_name amp = bytes "Amp"
token_kind_name plus = bytes "Plus"
token_kind_name minus = bytes "Minus"
token_kind_name star = bytes "Star"
token_kind_name slash = bytes "Slash"
token_kind_name percent = bytes "Percent"
token_kind_name bang = bytes "Bang"
token_kind_name and_and = bytes "AndAnd"
token_kind_name or_or = bytes "OrOr"
token_kind_name eq_eq = bytes "EqEq"
token_kind_name not_eq = bytes "NotEq"
token_kind_name lt = bytes "Lt"
token_kind_name lt_eq = bytes "LtEq"
token_kind_name gt = bytes "Gt"
token_kind_name gt_eq = bytes "GtEq"
token_kind_name assign = bytes "Assign"
