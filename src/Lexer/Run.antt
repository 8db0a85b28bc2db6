-- ===== src/Lexer/Run.antt =====
-- The lexer's loop ends, and gives the pieces of its source.
use cicest.Prelude.{
  subst, ℕ, zero, suc, ◌+◌, ◌≤◌, ◌<◌, ◌≡◌, refl, sym, ap, ◌∙◌, Bool, true, false, not, ◌&&◌, ◌||◌,
  List, [], ◌∷◌, ◌++◌, some, inl, inr, arith, length, length-drop, take, drop, keep_if,
  keep_if-append, keep_if_pass, keep_if_stop, Bytes, Bool-cases, append-nil, append_assoc,
}
use cicest.Span.{to_size_t}
use cicest.Symbol.{intern, size}
use cicest.Symbol.Table.{IsValid, limit, intern-IsValid}
use cicest.Symbol.Intern.{intern-HasEntry, intern_keeps, size-intern}
use cicest.Token.{TokenKind, is_trivia}
use cicest.Lexer.Scan.{Scanned, next_token}
use cicest.Lexer.Progress.{IsSound, next_token-IsSound}
use cicest.Lexer.Pieces.{Seen, shown, seen_at, pieces, ReadAll, ReadAll-concat, ReadAll-keeps}
use cicest.Lexer.{Lexed, append_token, lex_step, lex_loop}

-- The state of the loop: its tokens read as `ss`, its table is valid, and there is room for `n` more entries.
pub record Reads (out : Lexed) (ss : List Seen) (n : ℕ) : Type 0 where
  pub tokens_read : ReadAll out.table out.tokens ss
  pub table_valid : IsValid out.table
  pub room : size out.table + n < limit

append_token_skips :
    (out : Lexed) (kind : TokenKind) (base start n : ℕ) (rest : Bytes) (keep : Bool)
    → (not keep && is_trivia kind) ≡ true
    → append_token out kind base start n rest keep ≡ out
unfolding append_token
append_token_skips out kind base start n rest keep h = rw (h, append_token)

append_token_adds :
    (out : Lexed) (kind : TokenKind) (base start n : ℕ) (rest : Bytes) (keep : Bool)
    → (not keep && is_trivia kind) ≡ false
    → append_token out kind base start n rest keep ≡ record {
      tokens =
          out.tokens
          ++ record {
            kind = kind;
            span = record {
              start = to_size_t (base + start);
              end = to_size_t (base + (start + n));
            };
            symbol = (intern out.table (take n rest)).1;
          }
            ∷ [];
      table = (intern out.table (take n rest)).0;
    }
unfolding append_token
append_token_adds out kind base start n rest keep h = rw (h, append_token)

added-Reads :
    (out : Lexed) (ss : List Seen) (n base index : ℕ) (rest : Bytes) (s : Scanned)
    → Reads out ss (suc n)
    → Reads
        (record {
          tokens =
              out.tokens
              ++ record {
                kind = s.kind;
                span = record {
                  start = to_size_t (base + index);
                  end = to_size_t (base + (index + s.size));
                };
                symbol = (intern out.table (take s.size rest)).1;
              }
                ∷ [];
          table = (intern out.table (take s.size rest)).0;
        })
        (ss ++ seen_at base index rest s ∷ [])
        n
added-Reads out ss n base index rest s r =
    let text = take s.size rest in
    let t = (intern out.table text).0 in
    let grown = size-intern out.table text in
    let free : size out.table < limit = omega (arith, r.room) in
    record {
      tokens_read =
          ReadAll-concat t out.tokens ss _ (seen_at base index rest s)
            (ReadAll-keeps out.table t out.tokens ss (intern_keeps out.table text) r.tokens_read)
            (refl, refl, intern-HasEntry out.table text r.table_valid free);
      table_valid = intern-IsValid out.table text r.table_valid free;
      room = omega (arith, r.room);
    }

shown_of_skipped :
    (keep always trivia : Bool)
    → (not (keep || always) && trivia) ≡ true
    → (keep || not trivia) ≡ false
shown_of_skipped keep always trivia h = ground arith

shown_of_added :
    (keep always trivia : Bool)
    → (always ≡ true → trivia ≡ false)
    → (not (keep || always) && trivia) ≡ false
    → (keep || not trivia) ≡ true
shown_of_added keep always trivia k h = ground arith

-- One round adds its token if that is shown, and takes one of the free entries at most.
round-Reads :
    (base index : ℕ) (keep : Bool) (rest : Bytes) (s : Scanned) (out : Lexed) (ss : List Seen)
    (n : ℕ)
    → IsSound rest s
    → Reads out ss (suc n)
    → Reads
        (append_token out s.kind base index s.size rest (keep || s.always))
        (ss ++ keep_if (shown keep) (seen_at base index rest s ∷ []))
        n
round-Reads base index keep rest s out ss n sound r =
    elim (Bool-cases (not (keep || s.always) && is_trivia s.kind)) [
      | inl skipped ↦
          rw
            (keep_if_stop (shown keep) (seen_at base index rest s) []
              (shown_of_skipped keep s.always (is_trivia s.kind) skipped))
            (rw append-nil (
              subst (λ o. Reads o ss n)
                (sym (append_token_skips out s.kind base index s.size rest _ skipped))
                (record {
                  tokens_read = r.tokens_read;
                  table_valid = r.table_valid;
                  room = omega (arith, r.room);
                })))
      | inr added ↦
          rw
            (keep_if_pass (shown keep) (seen_at base index rest s) []
              (shown_of_added keep s.always (is_trivia s.kind) sound.kept added))
            (subst (λ o. Reads o (ss ++ seen_at base index rest s ∷ []) n)
              (sym (append_token_adds out s.kind base index s.size rest _ added))
              (added-Reads out ss n base index rest s r))
    ]

lex_step-Reads :
    (base index : ℕ) (keep : Bool) (c : ℕ) (cs : Bytes) (out : Lexed) (ss : List Seen) (n : ℕ)
    → Reads out ss (suc n)
    → Reads
        (lex_step base keep index c cs out)
        (ss ++ keep_if (shown keep) (seen_at base index (c ∷ cs) (next_token c cs) ∷ []))
        n
unfolding lex_step
lex_step-Reads base index keep c cs out ss n r =
    round-Reads base index keep (c ∷ cs) (next_token c cs) out ss n (next_token-IsSound c cs) r

-- What is left after a round is shorter.
pub length-next : (c : ℕ) (cs : Bytes) → length (drop (next_token c cs).next (c ∷ cs)) ≤ length cs
length-next c cs =
    let s = next_token-IsSound c cs in
    let shorter = length-drop (next_token c cs).next (c ∷ cs) in
    elim s.onward [
      | inl exact ↦ omega (arith, shorter, s.positive)
      | inr (whole, behind) ↦ omega (arith, shorter)
    ]

-- The loop ends within a round for each byte, and its tokens read as the shown pieces of the source.
pub lex_loop_lem :
    (fuel base index : ℕ) (keep : Bool) (rest : Bytes) (out : Lexed) (ss : List Seen)
    → length rest ≤ fuel
    → Reads out ss fuel
    → (end : Lexed) × (lex_loop fuel base keep index rest out ≡ some end)
      × Reads end (ss ++ keep_if (shown keep) (pieces fuel base index rest)) 0
unfolding lex_loop pieces
lex_loop_lem zero base index keep [] out ss h r = (out, refl, rw append-nil r)
lex_loop_lem zero base index keep (c ∷ cs) out ss h r = absurd (omega arith)
lex_loop_lem (suc fuel) base index keep [] out ss h r = (
  out,
  refl,
  rw append-nil (record {
    tokens_read = r.tokens_read;
    table_valid = r.table_valid;
    room = omega (arith, r.room);
  }),
)
lex_loop_lem (suc fuel) base index keep (c ∷ cs) out ss h r =
    let s = next_token c cs in
    let one = seen_at base index (c ∷ cs) s ∷ [] in
    let rest = drop s.next (c ∷ cs) in
    let (end, runs, reads) =
      lex_loop_lem fuel base (index + s.next) keep rest (lex_step base keep index c cs out)
        (ss ++ keep_if (shown keep) one) (omega (arith, length-next c cs))
        (lex_step-Reads base index keep c cs out ss fuel r) in
    let later = pieces fuel base (index + s.next) rest in
    (
      end,
      runs,
      subst (λ shown_pieces. Reads end shown_pieces 0)
          (append_assoc ss (keep_if (shown keep) one) (keep_if (shown keep) later)
            ∙ ap (◌++◌ ss) (sym (keep_if-append (shown keep) one later)))
          reads,
    )
