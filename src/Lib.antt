-- ===== src/Lib.antt =====
-- cicest: a verification library for the front end and the type layer of the Cicest compiler.
--
-- The compiler interns every text in a session's symbol table, gives every source file a range of one global
-- position space, lexes a file at its base position into tokens with spans and symbols, and parses the tokens.
-- The module graph gives the declarations of all files internal names and flattens them into one program.
-- Programs are resolved to types that carry a `runtime` tag, next to availability summaries that say which
-- values need the runtime. Typed functions are lowered to a low-level IR of basic blocks, which goes on to code
-- generation.
--
-- Files and the code they model:
--   Prelude: Boolean tests, lists and bytes that the other files share.
--   Symbol: compiler/cstc_symbol/include/cstc_symbol/symbol.hpp. `SymbolTable` is the interner, `intern` and
--     `resolve` its methods, and `session` the table that the constructor of `SymbolSession` installs. The
--     thread-local pointer becomes the table that an operation takes and returns.
--   Span: compiler/cstc_span/include/cstc_span/span.hpp. `SourceMap` with `add_file`, `file`, `lookup_file`,
--     `make_span` and `resolve_span`, the line table, and `merge`.
--   Token: compiler/cstc_lexer/include/cstc_lexer/token.hpp.
--   Lexer: compiler/cstc_lexer/src/lexer.cpp. `lex_loop` is the loop of `lex_source_at`, `lex_step` one round
--     of it, and Lexer/Scan holds what the branches of a round scan; Lexer/Chars has the character classes and
--     keywords.
--   Ty: compiler/cstc_tyir/include/cstc_tyir/tyir.hpp (`Ty` and its tests) and type_compat.hpp beside it
--     (`compatible`, `matches_type_shape`, `common_type`).
--   Availability: compiler/cstc_tyir/include/cstc_tyir/tyir.hpp (`Availability`, `AvailabilityExpr`, their
--     joins and substitution, and what `make_ty_expr` does to a type).
--   Ast: compiler/cstc_ast/include/cstc_ast/ast.hpp, type references and operators, with expressions and
--     statements in Ast/Nodes and declarations in Ast/Items.
--   Parser: compiler/cstc_parser/src/parser.cpp. `Parser` is the class's state and its cursor, with the
--     session's symbol table, and `Parsed` of Parser/Monad is `std::expected` with the parser that a member
--     leaves. Each member of the class is a definition of its name: the looks ahead in Parser/Lookahead, types
--     in Parser/Types, operators, calls, bindings and blocks in Parser/Exprs, primary expressions in
--     Parser/Primary, declarations in Parser/Items, attributes, imports, items and programs in Parser/Program.
--     The parser's `thrown` records that the code throws, which it does on a string token without text. The
--     members of Parser/Exprs and Parser/Primary take `parse_expression`, by which they call each other, as an
--     argument, and Parser/Primary ties the knot. The modules that end in `End` say how the members end, by the
--     rules of Parser/Ends.
--   Lir: compiler/cstc_lir/include/cstc_lir/lir.hpp, the nodes of function bodies, and `LirConst`, `LirPlace` and
--     `LirOperand` with their members.
--   Tyir: compiler/cstc_tyir/include/cstc_tyir/tyir.hpp, typed expressions, statements, blocks and functions.
--   Builder: compiler/cstc_lir_builder/src/builder.cpp. `FnBuilder` with its operations, Builder/Steps and
--     Builder/Openings the parts of the lowering between subexpressions, Builder/Lower `lower_expr` and
--     `lower_block`, Builder/Fn `lower_fn`. An assertion that fails, `abort` and an index out of range are kept
--     in the builder's `failed`, and `lower_fn` returns nothing then. Builder/Pushes tells where a loop in the
--     value of a `break` may move the loop that the code still refers to; that is kept in `failed` too.
--     Builder/Substitution has `apply_substitution`, Builder/Encode the texts and cache keys that name
--     instantiations. Builder/Scoped says what the lowering takes for granted of its input, Builder/Bounds what
--     it promises.
--   Module: compiler/cstc_module/include/cstc_module/module.hpp. `ModuleInfo` and its bindings, `mangle_name`
--     and `collect_local_bindings`; Module/Load has `load_module`, with the reading of a file as a parameter,
--     Module/Rewrite the expressions of `AstRewriter`, with its scopes handed on, and Module/Flatten its
--     declarations and `flatten_program`. Module/Scoping gives names by lexical scope, with no scopes to enter
--     and leave.
-- The modules below a part prove its theorems, and its Examples module has the tests and concrete instances.
--
-- Bounds: a symbol, a local and a block are 32-bit indices and a position a 64-bit one, and the wrap-around is
-- written out. The theorems name the room they need. The lexer's loop runs on fuel, the length of the source,
-- and every round moves on by a byte at least, so it does not run out. The members of the parser run on the
-- number of tokens that are left. Each nested type, expression and round of a loop stands behind a token that
-- is taken, so they do not run out. Bytes are numbers and the character classes are those of the C locale.
--
-- Not modelled: the hash of the symbol table (the map's keys are compared by value), the thread-local pointer and the
-- lifetime of sessions, allocation, the rendering of types, expressions and errors as text, the resolution of imports
-- between modules, the instantiation of generic items in the low-level IR builder, and the rest of the compiler: typed
-- builder and interpreter, code generation and tools.
pub mod Prelude
pub mod Symbol
pub mod Span
pub mod Token
pub mod Lexer
pub mod Ty
pub mod Availability
pub mod Ast
pub mod Parser
pub mod Module
pub mod Lir
pub mod Tyir
pub mod Builder
