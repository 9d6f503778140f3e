-- ===== src/Json/Strings/Progress.antt =====
-- The loop of `parse_string` in src/json/json_parse.c moves on and has fuel.
use platform_service.Common.{
  ℕ, zero, suc, ◌+◌, ◌-◌, ◌*◌, ◌≤◌, ◌<◌, ◌≡◌, inl, inr, ◌&&◌, Option, none, some, [], ◌∷◌, ◌++◌,
  arith, Bytes, ltb, ◌==◌, Bool-cases, Option-cases, length,
}
use platform_service.Json.Scanner.{Parsed, done, failed, stuck}
use platform_service.Json.Scanner.Progress.{Leaves, Leaves-mono}
use platform_service.Json.Strings.{
  hex_digit_value, hex_loop, parse_hex4, is_low_surrogate, is_high_surrogate, low_surrogate,
  surrogate_pair, unicode_escape, simple_escape, escape, string_step, string_round, string_loop,
  parse_string,
}

hex_loop-le :
    (i v : ℕ) (s : Bytes) (x : ℕ) (r : Bytes) → hex_loop i v s ≡ some (x, r) → length r ≤ length s
unfolding hex_loop
hex_loop-le zero v s x r h = ground arith
hex_loop-le (suc i) v [] x r h = ground arith
hex_loop-le (suc i) v (c ∷ s) x r h = elim (Option-cases (hex_digit_value c)) [
  | inl none_here ↦ ground arith
  | inr (d, digit) ↦ omega (arith, hex_loop-le i (v * 16 + d) s x r (rw (digit, hex_loop) at h))
]

parse_hex4-le : (s : Bytes) (x : ℕ) (r : Bytes) → parse_hex4 s ≡ some (x, r) → length r ≤ length s
unfolding parse_hex4
parse_hex4-le s x r h = ground (arith, hex_loop-le 4 0 s x r)

low_surrogate-Leaves : (high : ℕ) (s : Bytes) → Leaves (length s) (low_surrogate high s)
unfolding low_surrogate Leaves
low_surrogate-Leaves high s = elim (Option-cases (parse_hex4 s)) [
  | inl bad ↦ rw (bad, Leaves) tt
  | inr ((low, r), read) ↦
      rw (read, Leaves)
        (elim (Bool-cases (is_low_surrogate low)) [
          | inl good ↦ rw (good, Leaves) (parse_hex4-le s low r read)
          | inr bad ↦ rw (bad, Leaves) tt
        ])
]

surrogate_pair-Leaves : (high : ℕ) (s : Bytes) → Leaves (length s) (surrogate_pair high s)
unfolding surrogate_pair Leaves
surrogate_pair-Leaves high [] = tt
surrogate_pair-Leaves high (c ∷ []) = tt
surrogate_pair-Leaves high (c ∷ d ∷ s) = elim (Bool-cases (c == b'\\' && d == b'u')) [
  | inl pair ↦ rw pair (Leaves-mono (length s) _ _ (omega arith) (low_surrogate-Leaves high s))
  | inr lone ↦ rw lone tt
]

unicode_escape-Leaves : (s : Bytes) → Leaves (length s) (unicode_escape s)
unfolding unicode_escape Leaves
unicode_escape-Leaves s = elim (Option-cases (parse_hex4 s)) [
  | inl bad ↦ rw (bad, Leaves) tt
  | inr ((cp, r), read) ↦
      rw (read, Leaves)
        (elim (Bool-cases (is_high_surrogate cp)) [
          | inl high ↦
              rw (high, Leaves)
                (Leaves-mono (length r) _ _ (parse_hex4-le s cp r read)
                  (surrogate_pair-Leaves cp r))
          | inr not_high ↦
              rw (not_high, Leaves)
                (elim (Bool-cases (is_low_surrogate cp)) [
                  | inl low ↦ rw (low, Leaves) tt
                  | inr plain ↦ rw (plain, Leaves) (parse_hex4-le s cp r read)
                ])
        ])
]

escape-Leaves : (s : Bytes) → Leaves (length s) (escape s)
unfolding escape Leaves
escape-Leaves [] = tt
escape-Leaves (c ∷ s) = elim (Option-cases (simple_escape c)) [
  | inr (b, letter) ↦ rw (letter, Leaves) (omega arith)
  | inl other ↦
      rw (other, Leaves)
        (elim (Bool-cases (c == b'u')) [
          | inl unicode ↦
              rw (unicode, Leaves)
                (Leaves-mono (length s) _ _ (omega arith) (unicode_escape-Leaves s))
          | inr bad ↦ rw (bad, Leaves) tt
        ])
]

string_step-Leaves : (s : Bytes) → Leaves (length s - 1) (string_step s)
unfolding string_step Leaves
string_step-Leaves [] = tt
string_step-Leaves (c ∷ s) = elim (Bool-cases (c == b'"')) [
  | inl quote ↦ rw quote (omega arith)
  | inr other ↦ rw other (elim (Bool-cases (ltb c 0x20)) [
    | inl control ↦ rw control tt
    | inr printable ↦ rw printable (elim (Bool-cases (c == b'\\')) [
      | inl backslash ↦ rw backslash (Leaves-mono (length s) _ _ (omega arith) (escape-Leaves s))
      | inr plain ↦ rw plain (omega arith)
    ])
  ])
]

string_round-Leaves :
    (next : Bytes → Bytes → Parsed Bytes) (out : Bytes) (m : Parsed (Option Bytes)) (n : ℕ)
    → Leaves n m
    → ((o r : Bytes) → length r ≤ n → Leaves n (next o r))
    → Leaves n (string_round next out m)
unfolding string_round Leaves
string_round-Leaves next out (done none r) n h step = h
string_round-Leaves next out (done (some b) r) n h step = step (out ++ b) r h
string_round-Leaves next out (failed e r) n h step = tt
string_round-Leaves next out stuck n h step = h

string_loop-Leaves :
    (fuel : ℕ) (out s : Bytes) → length s < fuel → Leaves (length s) (string_loop fuel out s)
unfolding string_loop Leaves
string_loop-Leaves zero out s h = absurd (omega arith)
string_loop-Leaves (suc fuel) out [] h = tt
string_loop-Leaves (suc fuel) out (c ∷ s) h = Leaves-mono (length s) _ _ (omega arith) (
    string_round-Leaves (λ o r. string_loop fuel o r) out (string_step (c ∷ s)) (length s)
      (Leaves-mono (length (c ∷ s) - 1) (length s) (string_step (c ∷ s)) (omega arith)
        (string_step-Leaves (c ∷ s)))
      (λ o r l. Leaves-mono (length r) _ _ l (string_loop-Leaves fuel o r (omega arith))))

-- `parse_string` comes to an end, and a success leaves no more bytes than there were.
pub parse_string-Leaves : (s : Bytes) → Leaves (length s) (parse_string s)
unfolding parse_string
parse_string-Leaves s = string_loop-Leaves (suc (length s)) [] s (omega arith)
