-- ===== src/Parser/Examples.antt =====
-- Programs as the parser reads them from source text, and its theorems at parsers.
use cicest.Prelude.{
  bytes_eq, ◌≡◌, refl, true, not, List, [], ◌∷◌, Option, none, some, map, keep_if, Bytes, bytes,
  arith,
}
use cicest.Symbol.{session, resolve, intern_all, empty_table, is_valid, intern_new}
use cicest.Symbol.Keywords.{session-IsValid, size-session}
use cicest.Token.{
  TokenKind, TokenKind-discrete, Token, is_trivia, kw_runtime, amp, kw_num, identifier, number,
  plus, star, kw_struct, semicolon, string,
}
use cicest.Lexer.Laws.{HasRoom}
use cicest.Ast.Items.{Program}
use cicest.Parser.{
  Parser, new_parser, is_at_end, match, check, advance, peek, previous, back, kind_is,
  string_contents_symbol, intern_text,
}
use cicest.Parser.Monad.{
  Parsed, parsed, failed, out_of_fuel, on_test, on_match, and_then, consume_identifier,
}
use cicest.Parser.Cursor.{IsValid, new_parser-IsValid}
use cicest.Parser.Ends.{Ends}
use cicest.Parser.WellFormed.{well_qualified, expr_ok}
use cicest.Parser.Types.{parse_type}
use cicest.Parser.TypesEnd.{parse_type-Ends}
use cicest.Parser.Primary.{parse_expression}
use cicest.Parser.PrimaryEnd.{parse_expression-Ends}
use cicest.Parser.Items.{parse_struct_decl, generic_params, parse_where_clause}
use cicest.Parser.Program.{
  parse_tokens, parse_program, items_loop, parse_item, parse_attributes, attributes_loop,
  optional_keyword, item_body,
}
use cicest.Parser.ProgramEnd.{
  program_ok, AtEnd, ParsesSource, parse_source_at-Ends, parse_tokens-Ends, parse_tokens-AtEnd,
}

abbrev token : TokenKind → Token
token kind = record { kind = kind; span = record { start = 0; end = 0 }; symbol = 0 }

-- `runtime &num`, with no end of file.
abbrev some_tokens : List Token
some_tokens = token kw_runtime ∷ token amp ∷ token kw_num ∷ []

abbrev some_parser : Parser
some_parser = new_parser some_tokens (some []) session

some_parser-IsValid : IsValid some_parser
some_parser-IsValid = new_parser-IsValid some_tokens (some []) session

parse_type-Ends_example : Ends (well_qualified true) 1 some_parser (parse_type true some_parser)
parse_type-Ends_example =
    parse_type-Ends true some_parser (new_parser-IsValid some_tokens (some []) session)

-- Symbol 0 is the empty text.
throws_without_text : (string_contents_symbol (token string) some_parser).0.thrown ≡ true
unfolding string_contents_symbol resolve session intern_all empty_table new_parser kind_is back
    intern_text is_valid bytes_eq intern_new
throws_without_text = refl

-- `1 + 2 * 3`
abbrev sum_tokens : List Token
sum_tokens = map token (number ∷ plus ∷ number ∷ star ∷ number ∷ [])

parse_expression-Ends_example :
    Ends expr_ok 1
      (new_parser sum_tokens none session)
      (parse_expression (new_parser sum_tokens none session))
parse_expression-Ends_example =
    parse_expression-Ends (new_parser sum_tokens none session)
      (new_parser-IsValid sum_tokens none session)

-- `struct S;`, whose three tokens the parser takes.
abbrev struct_tokens : List Token
struct_tokens = map token (kw_struct ∷ identifier ∷ semicolon ∷ [])

parse_tokens-Ends_example :
    Ends program_ok 0
      (new_parser (keep_if (λ t. not (is_trivia t.kind)) struct_tokens) none session)
      (parse_tokens session struct_tokens none)
parse_tokens-Ends_example = parse_tokens-Ends session struct_tokens none

abbrev source : Bytes
source = bytes "fn f(a: num) -> num { let x = a + 2 * 3; g(x) }"

source-HasRoom : HasRoom session 100 source
source-HasRoom = record {
  valid = session-IsValid;
  symbols = omega (arith, size-session);
  positions = omega arith;
}

parse_source_at-Ends_example : ParsesSource session source 100 none
parse_source_at-Ends_example = parse_source_at-Ends session source 100 none source-HasRoom

abbrev struct_run : Parsed Program
struct_run = parse_tokens session struct_tokens none

abbrev program_of : Parsed Program → Program
program_of (parsed program q) = program
program_of (failed e q) = record { items = [] }
program_of out_of_fuel = record { items = [] }

abbrev left_by : Parsed Program → Parser
left_by (parsed program q) = q
left_by (failed e q) = q
left_by out_of_fuel = some_parser

abbrev failure : Parsed Program → Option Bytes
failure (parsed program q) = none
failure (failed e q) = some e.message
failure out_of_fuel = none

parse_tokens-AtEnd_example : AtEnd (left_by struct_run)
unfolding parse_tokens parse_program items_loop parse_item parse_attributes attributes_loop
    optional_keyword item_body parse_struct_decl generic_params parse_where_clause on_test on_match
    and_then consume_identifier match check advance is_at_end peek previous back kind_is
    TokenKind-discrete new_parser is_trivia
parse_tokens-AtEnd_example =
    parse_tokens-AtEnd session struct_tokens none (program_of struct_run) (left_by struct_run) refl

-- `struct struct`
missing_name :
    failure (parse_tokens session (map token (kw_struct ∷ kw_struct ∷ [])) none)
    ≡ some (bytes "expected struct name")
unfolding parse_tokens parse_program items_loop parse_item parse_attributes attributes_loop
    optional_keyword item_body parse_struct_decl on_test on_match and_then consume_identifier match
    check advance is_at_end peek previous back kind_is TokenKind-discrete new_parser is_trivia
missing_name = refl
