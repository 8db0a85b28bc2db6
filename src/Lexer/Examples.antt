-- ===== src/Lexer/Examples.antt =====
-- Runs of the lexer, and the theorems at concrete sources.
use cicest.Prelude.{
  ◌+◌, ◌≡◌, ◌≢◌, refl, true, false, not, List, [], ◌∷◌, ◌++◌, map, keep_if, some, Option, arith,
  length, Bytes, bytes, bytes_eq,
}
use mathlib.Core.Option
use cicest.Symbol.{session, intern, intern_new, find, emplace}
use cicest.Symbol.Keywords.{session-IsValid, size-session}
use cicest.Token.{
  TokenKind, unknown, identifier, kw_let, number, assign, semicolon, end_of_file, is_trivia,
}
use cicest.Lexer.Chars.{keyword_kind, is_space, is_ident_start, is_ident_continue}
use cicest.Lexer.Scan.{next_token, scan_word, scan_operator, one_byte, scan_number}
use cicest.Lexer.Pieces.{Seen}
use cicest.Lexer.Laws.{HasRoom, Lexes, Tiles, end_seen, lex_source_at-Tiles, lex_source_at-trivia}
use cicest.Lexer.Shift.{shift, lex_source_at-shift}
use cicest.Lexer.Words.{whole, lex_source_at_word, lex_source_at_unterminated}
use cicest.Lexer.{Lexed, lex_source_at, lex_source, lex_loop, lex_step, append_token}

kinds_of : Option Lexed → Option (List TokenKind)
kinds_of = Option.map (λ out. map (λ t. t.kind) out.tokens)

let_statement :
    kinds_of (lex_source session (bytes "let x = 1.5; // one") false)
    ≡ some (kw_let ∷ identifier ∷ assign ∷ number ∷ semicolon ∷ end_of_file ∷ [])
unfolding kinds_of lex_source lex_source_at lex_loop lex_step append_token next_token intern
    intern_new find emplace bytes_eq session is_trivia is_space is_ident_start scan_word
    scan_operator one_byte scan_number
let_statement = refl

abbrev line : Bytes
line = bytes "let x = 1;"

line-HasRoom : HasRoom session 100 line
line-HasRoom = record {
  valid = session-IsValid;
  symbols = omega (arith, size-session);
  positions = omega arith;
}

lex_source_at-Tiles_example : (ss : List Seen) × Lexes session line 100 true ss × Tiles 100 line ss
lex_source_at-Tiles_example = lex_source_at-Tiles session line 100 line-HasRoom

lex_source_at-trivia_example :
    (ss : List Seen) × Lexes session line 100 true ss
    × Lexes session line 100 false (keep_if (λ s. not (is_trivia s.kind)) ss)
lex_source_at-trivia_example =
    lex_source_at-trivia session session line 100 line-HasRoom line-HasRoom

lex_source_at-shift_example :
    (ss : List Seen) × Lexes session line 0 false ss
    × Lexes session line 100 false (map (shift 100) ss)
lex_source_at-shift_example = lex_source_at-shift session line 100 false line-HasRoom

abbrev word : Bytes
word = bytes "while"

word-HasRoom : HasRoom session 7 word
word-HasRoom = record {
  valid = session-IsValid;
  symbols = omega (arith, size-session);
  positions = omega arith;
}

lex_source_at_word_example :
    Lexes session word 7 false (whole 7 word (keyword_kind word) ∷ end_seen (7 + length word) ∷ [])
unfolding is_ident_start is_ident_continue
lex_source_at_word_example =
    lex_source_at_word session 7 false b'w' (bytes "hile") refl (refl, (refl, (refl, (refl, tt))))
      word-HasRoom

abbrev comment : Bytes
comment = bytes "/* a"

comment-HasRoom : HasRoom session 0 comment
comment-HasRoom = record {
  valid = session-IsValid;
  symbols = omega (arith, size-session);
  positions = omega arith;
}

never_closed : (a b : Bytes) → bytes " a" ≢ a ++ (b'*' ∷ b'/' ∷ b)
never_closed [] b e = ground arith
never_closed (x ∷ []) b e = ground arith
never_closed (x ∷ y ∷ []) b e = ground arith
never_closed (x ∷ y ∷ z ∷ a) b e = ground arith

lex_source_at_unterminated_example :
    Lexes session comment 0 false (whole 0 comment unknown ∷ end_seen (0 + length comment) ∷ [])
lex_source_at_unterminated_example =
    lex_source_at_unterminated session 0 false (bytes " a") never_closed comment-HasRoom
