-- ===== src/Lexer/Progress.antt =====
-- Each round of the lexer's loop takes at least one byte, and none behind the end of the source.
use cicest.Prelude.{
  not, ℕ, ◌+◌, ◌≤◌, ◌<◌, ◌≡◌, ◌≢◌, refl, Bool, true, false, ◌&&◌, List, [], ◌∷◌, some, ◌⊎◌, inl,
  inr, arith, ◌==◌, if◌then◌else◌, length, drop, length-drop, All, Bytes, bytes_eq, Bool-cases,
  Option-cases,
}
use cicest.Token.{
  TokenKind, end_of_file, unknown, whitespace, line_comment, block_comment, number, string,
  is_trivia,
}
use cicest.Lexer.Chars.{
  is_space, is_digit, is_ident_start, is_ident_continue, keyword_kind, keyword_table, find_keyword,
}
use cicest.Lexer.Scan.{
  Scanned, count_while, head_is, block_end, fraction, string_end, two_bytes, one_byte, plain,
  broken, next_token, scan_block_comment, scan_word, scan_number, scan_string, one_byte_token,
  scan_byte, scan_operator,
}

-- What a round finds in the bytes `rest`: a token of at least one byte of them; the rounds go on behind it, or
-- at the end; and an error token is no trivia.
pub record IsSound (rest : Bytes) (s : Scanned) : Type 0 where
  pub positive : 0 < s.size
  pub bounded : s.size ≤ length rest
  pub onward : (s.next ≡ s.size) ⊎ ((s.size ≡ length rest) × (length rest ≤ s.next))
  pub kept : s.always ≡ true → is_trivia s.kind ≡ false
  pub no_end : s.kind ≢ end_of_file

pub count_while-le : (p : ℕ → Bool) (cs : Bytes) → count_while p cs ≤ length cs
unfolding count_while
count_while-le p [] = omega arith
count_while-le p (c ∷ cs) = ground (arith, count_while-le p cs)

count_while-positive : (p : ℕ → Bool) (c : ℕ) (cs : Bytes) → p c ≡ true → 0 < count_while p (c ∷ cs)
unfolding count_while
count_while-positive p c cs h = ground arith

fraction-le : (cs : Bytes) → fraction cs ≤ length cs
unfolding fraction
fraction-le [] = omega arith
fraction-le (c ∷ []) = omega arith
fraction-le (c ∷ d ∷ cs) = ground (arith, count_while-le is_digit (d ∷ cs))

block_end-le : (cs : Bytes) (n : ℕ) → block_end cs ≡ some n → n ≤ length cs
unfolding block_end
block_end-le [] n h = cc
block_end-le (c ∷ []) n h = ground arith
block_end-le (c ∷ d ∷ cs) n h = elim (Option-cases (block_end (d ∷ cs))) [
  | inl nowhere ↦ ground arith
  | inr (m, later) ↦ ground (arith, block_end-le (d ∷ cs) m later)
]

string_end_bounds :
    (cs : Bytes)
    → ((string_end cs).0 ≡ true → (string_end cs).1 ≤ length cs)
      × ((string_end cs).0 ≡ false → length cs ≤ (string_end cs).1)
unfolding string_end
string_end_bounds [] = ground arith
string_end_bounds (c ∷ []) = ground arith
string_end_bounds (c ∷ d ∷ cs) = ground (arith, string_end_bounds cs, string_end_bounds (d ∷ cs))

plain-IsSound :
    (rest : Bytes) (kind : TokenKind) (n : ℕ)
    → 0 < n
    → n ≤ length rest
    → kind ≢ end_of_file
    → IsSound rest (plain kind n)
plain-IsSound rest kind n h k e = record {
  positive = h;
  bounded = k;
  onward = inl refl;
  kept = λ a. cc;
  no_end = e;
}

find_keyword-ne :
    (table : List (Bytes × TokenKind)) (text : Bytes)
    → All (λ w. w.1 ≢ end_of_file) table
    → find_keyword table text ≢ end_of_file
unfolding find_keyword
find_keyword-ne [] text h = λ e. cc
find_keyword-ne ((word, kind) ∷ table) text (h, t) = elim (Bool-cases (bytes_eq text word)) [
  | inl hit ↦ rw hit h
  | inr miss ↦ rw miss (find_keyword-ne table text t)
]

keyword_kind-ne : (text : Bytes) → keyword_kind text ≢ end_of_file
unfolding keyword_kind
keyword_kind-ne text = find_keyword-ne keyword_table text (ground arith)

broken-IsSound :
    (rest : Bytes) (n : ℕ)
    → 0 < length rest
    → length rest ≤ n
    → IsSound rest (broken (length rest) n)
unfolding is_trivia
broken-IsSound rest n h k = record {
  positive = h;
  bounded = omega arith;
  onward = inr (refl, k);
  kept = λ a. refl;
  no_end = λ e. cc;
}

block_comment-IsSound :
    (c d : ℕ) (cs : Bytes) → IsSound (c ∷ d ∷ cs) (scan_block_comment (c ∷ d ∷ cs))
unfolding scan_block_comment
block_comment-IsSound c d cs = elim (Option-cases (block_end cs)) [
  | inl nowhere ↦
      rw (nowhere, scan_block_comment) (broken-IsSound (c ∷ d ∷ cs) _ (omega arith) (omega arith))
  | inr (n, later) ↦
      rw (later, scan_block_comment)
        (plain-IsSound (c ∷ d ∷ cs) block_comment (2 + n) (omega arith)
          (omega (arith, block_end-le cs n later)) (λ e. cc))
]

word-IsSound : (c : ℕ) (cs : Bytes) → IsSound (c ∷ cs) (scan_word c cs)
unfolding scan_word
word-IsSound c cs =
    plain-IsSound (c ∷ cs) _ _ (omega arith) (omega (arith, count_while-le is_ident_continue cs))
      (keyword_kind-ne _)

number-IsSound : (c : ℕ) (cs : Bytes) → is_digit c ≡ true → IsSound (c ∷ cs) (scan_number (c ∷ cs))
unfolding scan_number
number-IsSound c cs h =
    let n = count_while is_digit (c ∷ cs) in
    plain-IsSound (c ∷ cs) number (n + fraction (drop n (c ∷ cs)))
      (omega (arith, count_while-positive is_digit c cs h))
      (omega (
        arith,
        count_while-le is_digit (c ∷ cs),
        fraction-le (drop n (c ∷ cs)),
        length-drop n (c ∷ cs),
      ))
      (λ e. cc)

string-IsSound : (c : ℕ) (cs : Bytes) → IsSound (c ∷ cs) (scan_string cs)
unfolding scan_string
string-IsSound c cs = elim (Bool-cases (string_end cs).0) [
  | inl closed ↦ rw closed (
      plain-IsSound (c ∷ cs) string _ (omega arith) (omega (arith, (string_end_bounds cs).0 closed))
        (λ e. cc))
  | inr open_end ↦
      rw open_end
        (broken-IsSound (c ∷ cs) _ (omega arith) (omega (arith, (string_end_bounds cs).1 open_end)))
]

one_byte-ne : (c : ℕ) → one_byte c ≢ end_of_file
unfolding one_byte
one_byte-ne c e = ground arith

one_byte_token-IsSound :
    (c : ℕ) (cs : Bytes) (kind : TokenKind)
    → kind ≢ end_of_file
    → IsSound (c ∷ cs) (one_byte_token kind)
unfolding one_byte_token is_trivia
one_byte_token-IsSound c cs unknown h = record {
  positive = omega arith;
  bounded = omega arith;
  onward = inl refl;
  kept = λ a. refl;
  no_end = h;
}
one_byte_token-IsSound c cs kind h = plain-IsSound (c ∷ cs) kind 1 (omega arith) (omega arith) h

byte-IsSound : (c : ℕ) (cs : Bytes) → IsSound (c ∷ cs) (scan_byte c)
unfolding scan_byte
byte-IsSound c cs = one_byte_token-IsSound c cs (one_byte c) (one_byte-ne c)

two_bytes-ne : (c d : ℕ) {kind : TokenKind} → two_bytes c d ≡ some kind → kind ≢ end_of_file
unfolding two_bytes
two_bytes-ne c d h e = ground arith

operator-IsSound : (c : ℕ) (cs : Bytes) → IsSound (c ∷ cs) (scan_operator c cs)
unfolding scan_operator
operator-IsSound c [] = byte-IsSound c []
operator-IsSound c (d ∷ cs) = elim (Option-cases (two_bytes c d)) [
  | inl not_two ↦ rw (not_two, scan_operator) (byte-IsSound c (d ∷ cs))
  | inr (kind, two) ↦
      rw (two, scan_operator)
        (plain-IsSound (c ∷ d ∷ cs) kind 2 (omega arith) (omega arith) (two_bytes-ne c d two))
]

if-IsSound :
    (rest : Bytes) (b : Bool) (x y : Scanned)
    → (b ≡ true → IsSound rest x)
    → (b ≡ false → IsSound rest y)
    → IsSound rest (if b then x else y)
if-IsSound rest true x y h k = h refl
if-IsSound rest false x y h k = k refl

whitespace-IsSound :
    (c : ℕ) (cs : Bytes)
    → is_space c ≡ true
    → IsSound (c ∷ cs) (plain whitespace (count_while is_space (c ∷ cs)))
whitespace-IsSound c cs h =
    plain-IsSound (c ∷ cs) whitespace _ (count_while-positive is_space c cs h)
      (count_while-le is_space (c ∷ cs)) (λ e. cc)

line_comment-IsSound :
    (c : ℕ) (cs : Bytes)
    → (c == b'/' && head_is b'/' cs) ≡ true
    → IsSound (c ∷ cs) (plain line_comment (2 + count_while (λ b. not (b == b'\n')) (drop 1 cs)))
line_comment-IsSound c [] h = absurd (ground arith)
line_comment-IsSound c (d ∷ cs) h =
    plain-IsSound (c ∷ d ∷ cs) line_comment _ (omega arith)
      (omega (arith, count_while-le (λ b. not (b == b'\n')) cs)) (λ e. cc)

block_start-IsSound :
    (c : ℕ) (cs : Bytes)
    → (c == b'/' && head_is b'*' cs) ≡ true
    → IsSound (c ∷ cs) (scan_block_comment (c ∷ cs))
block_start-IsSound c [] h = absurd (ground arith)
block_start-IsSound c (d ∷ cs) h = block_comment-IsSound c d cs

-- Every round takes a token of at least one byte from the source.
pub next_token-IsSound : (c : ℕ) (cs : Bytes) → IsSound (c ∷ cs) (next_token c cs)
unfolding next_token
next_token-IsSound c cs = if-IsSound (c ∷ cs) _ _ _ (whitespace-IsSound c cs) λ _.
    if-IsSound (c ∷ cs) _ _ _ (line_comment-IsSound c cs) λ _.
      if-IsSound (c ∷ cs) _ _ _ (block_start-IsSound c cs) λ _.
        if-IsSound (c ∷ cs) (is_ident_start c) _ _ (λ _. word-IsSound c cs)
          λ _. if-IsSound (c ∷ cs) _ _ _ (number-IsSound c cs) λ _.
            if-IsSound (c ∷ cs) (c == b'"') _ _ (λ _. string-IsSound c cs)
              λ _. operator-IsSound c cs
