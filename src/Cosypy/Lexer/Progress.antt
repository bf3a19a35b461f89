-- ===== src/Cosypy/Lexer/Progress.antt =====
-- kernel/cospy.c: next_token goes forward.
use os_u.Prelude.{
  ℕ, zero, suc, ◌+◌, ◌-◌, ◌*◌, ◌%◌, ◌^◌, ◌≤◌, ◌<◌, ◌≡◌, refl, Bool, true, false, ◌&&◌, ◌||◌, List,
  [], ◌∷◌, length, ◌==◌, arith, if◌then◌else◌, Bool-cases, inl, inr,
}
use os_u.Cosypy.Lexer.{
  Token, eof, is, is_digit, is_alpha, skip_whitespace, digits, string_chars, skip_quote,
  ident_chars, keyword, operator, number_token, string_token, ident_token, token_at, next_token,
  with_eq, peek, is_alnum, plus, minus, star, slash, percent, lparen, rparen, colon, comma, eqeq,
  eq, ne, not, le, lt, ge, gt,
}

skip_whitespace-length : (s : List ℕ) → length (skip_whitespace s) ≤ length s
unfolding skip_whitespace
skip_whitespace-length [] = omega arith
skip_whitespace-length (c ∷ s) = ground (arith, skip_whitespace-length s)

digits-length : (value : ℕ) (s : List ℕ) → length (digits value s).1 ≤ length s
unfolding digits
digits-length value [] = omega arith
digits-length value (c ∷ s) = ground (arith, digits-length ((value * 10 + (c - b'0')) % 2 ^ 32) s)

string_chars-length : (quote n : ℕ) (s : List ℕ) → length (string_chars quote n s).1 ≤ length s
unfolding string_chars
string_chars-length quote zero s = omega arith
string_chars-length quote (suc n) [] = omega arith
string_chars-length quote (suc n) (c ∷ s) = ground (arith, string_chars-length quote n s)

skip_quote-length : (quote : ℕ) (s : List ℕ) → length (skip_quote quote s) ≤ length s
skip_quote-length quote [] = omega arith
skip_quote-length quote (c ∷ s) = ground arith

ident_chars-length : (n : ℕ) (s : List ℕ) → length (ident_chars n s).1 ≤ length s
unfolding ident_chars
ident_chars-length zero s = omega arith
ident_chars-length (suc n) [] = omega arith
ident_chars-length (suc n) (c ∷ s) = ground (arith, ident_chars-length n s)

-- What is left behind a token, with one more for the token itself unless it is the end.
record Within (r : Token × List ℕ) (n : ℕ) : Type 0 where
  within : length r.1 + (if is r.0 eof then 0 else 1) ≤ n

Within-if :
    (b : Bool) {x y : Token × List ℕ} {n : ℕ}
    → (b ≡ true → Within x n)
    → Within y n
    → Within (if b then x else y) n
Within-if true h k = h refl
Within-if false h k = k

-- A token that leaves less than it was given, whatever it is.
Within-shorter : (r : Token × List ℕ) (n : ℕ) → length r.1 < n → Within r n
Within-shorter r n h = elim (Bool-cases (is r.0 eof)) [
  | inl e ↦ record { within = rw e (omega arith) }
  | inr e ↦ record { within = rw e (omega arith) }
]

number_token-Within :
    (c : ℕ) (s : List ℕ)
    → (is_digit c || c == b'-') ≡ true
    → Within (number_token c s) (suc (length s))
unfolding number_token digits
number_token-Within c s h =
    ground (arith, digits-length 0 s, digits-length ((0 * 10 + (c - b'0')) % 2 ^ 32) s)

string_token-Within : (quote : ℕ) (s : List ℕ) → Within (string_token quote s) (suc (length s))
unfolding string_token
string_token-Within quote s =
    omega
      (arith, string_chars-length quote 63 s, skip_quote-length quote (string_chars quote 63 s).1)

with_eq-Within : (long short : Token) (s : List ℕ) → Within (with_eq long short s) (suc (length s))
with_eq-Within long short [] = ground arith
with_eq-Within long short (c ∷ s) = ground arith

ident_chars-shorter :
    (n c : ℕ) (s : List ℕ)
    → is_alnum c ≡ true
    → length (ident_chars (suc n) (c ∷ s)).1 < suc (length s)
unfolding ident_chars
ident_chars-shorter n c s h = rw h (omega (arith, ident_chars-length n s))

is_alnum-is_alpha : (c : ℕ) → is_alpha c ≡ true → is_alnum c ≡ true
is_alnum-is_alpha c h = rw h

ident_token-Within :
    (c : ℕ) (s : List ℕ) → is_alpha c ≡ true → Within (ident_token (c ∷ s)) (suc (length s))
unfolding ident_token
ident_token-Within c s h =
    Within-shorter (keyword (ident_chars 31 (c ∷ s)).0, (ident_chars 31 (c ∷ s)).1) (suc (length s))
      (ident_chars-shorter 30 c s (is_alnum-is_alpha c h))

single : (t : Token) (s : List ℕ) → Within (t, s) (suc (length s))
single t s = Within-shorter (t, s) (suc (length s)) (omega arith)

operator-Within : (c : ℕ) (s : List ℕ) → Within (operator c s) (suc (length s))
unfolding operator
operator-Within c s =
    Within-if (c == b'+') (λ _. single plus s)
      (Within-if (c == b'-') (λ _. single minus s)
        (Within-if (c == b'*') (λ _. single star s)
          (Within-if (c == b'/') (λ _. single slash s)
            (Within-if (c == b'%') (λ _. single percent s)
              (Within-if (c == b'(') (λ _. single lparen s)
                (Within-if (c == b')') (λ _. single rparen s)
                  (Within-if (c == b':') (λ _. single colon s)
                    (Within-if (c == b',') (λ _. single comma s) (longer c s)))))))))
  where
    longer :
        (c : ℕ) (s : List ℕ)
        → Within
            (if c == b'='
              then with_eq eqeq eq s
              else if c == b'!'
              then with_eq ne not s
              else if c == b'<'
              then with_eq le lt s
              else if c == b'>'
              then with_eq ge gt s
              else (eof, s))
            (suc (length s))
    longer c s =
        Within-if (c == b'=') (λ _. with_eq-Within eqeq eq s)
          (Within-if (c == b'!') (λ _. with_eq-Within ne not s)
            (Within-if (c == b'<') (λ _. with_eq-Within le lt s)
              (Within-if (c == b'>') (λ _. with_eq-Within ge gt s) (single eof s))))

digit_or_minus :
    (c : ℕ) (s : List ℕ)
    → (is_digit c || c == b'-' && is_digit (peek s)) ≡ true
    → (is_digit c || c == b'-') ≡ true
digit_or_minus c s h = ground arith

token_at-Within : (s : List ℕ) → Within (token_at s) (length s)
unfolding token_at
token_at-Within [] = omega arith
token_at-Within (c ∷ s) =
    Within-if (c == 0 || c == b'#') (λ _. omega arith)
      (Within-if (is_digit c || c == b'-' && is_digit (peek s))
        (λ h. number_token-Within c s (digit_or_minus c s h))
        (Within-if (c == 34 || c == 39) (λ _. string_token-Within c s)
          (Within-if (is_alpha c) (ident_token-Within c s) (operator-Within c s))))

-- A token takes at least a character of the text, unless it is the end.
pub next_token-Within :
    (s : List ℕ)
    → let (t, rest) = next_token s in length rest + (if is t eof then 0 else 1) ≤ length s
unfolding next_token
next_token-Within s =
    omega (arith, (token_at-Within (skip_whitespace s)).within, skip_whitespace-length s)
