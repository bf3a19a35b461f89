-- ===== src/Cosypy/Lexer/Print.antt =====
-- kernel/cospy.c: tokens that are printed with a blank in front of each are read back.
use os_u.Prelude.{
  ℕ, ◌^◌, ◌<◌, ◌≡◌, ◌≢◌, refl, sym, ◌∙◌, ap, true, false, List, [], ◌∷◌, ◌++◌, length, arith,
  append-nil, neg32,
}
use os_u.Cstring.{strcmp}
use os_u.Vga.{dec_text}
use os_u.Forth.Tokens.{IsDigits, dec_text-IsDigits, dec_text-length}
use os_u.Cosypy.Lexer.{
  Token, eof, num, str, ident, plus, minus, star, slash, percent, eq, eqeq, ne, lt, gt, le, ge,
  lparen, rparen, colon, comma, and, or, not, is_digit, peek, is_alpha, skip_whitespace, digits,
  ident_chars, keyword, operator, number_token, ident_token, token_at, next_token,
}
use os_u.Cosypy.Lexer.Spell.{
  spell, show, IsName, Printable, show-AtGap, AtGap-peek, digits-dec_text, token_at-num,
  token_at-ident,
}

token_at-spell :
    (t : Token) (ts : List Token) → Printable t → token_at (spell t ++ show ts) ≡ (t, show ts)
unfolding token_at operator ident_token ident_chars keyword strcmp show
token_at-spell eof ts p = absurd p
token_at-spell (num n) ts p = token_at-num n (show ts) p (AtGap-peek (show ts) (show-AtGap ts))
token_at-spell (str s) ts p = absurd p
token_at-spell (ident x) ts p = token_at-ident x (show ts) p (show-AtGap ts)
token_at-spell plus [] p = refl
token_at-spell plus (u ∷ ts) p = refl
token_at-spell minus [] p = refl
token_at-spell minus (u ∷ ts) p = refl
token_at-spell star [] p = refl
token_at-spell star (u ∷ ts) p = refl
token_at-spell slash [] p = refl
token_at-spell slash (u ∷ ts) p = refl
token_at-spell percent [] p = refl
token_at-spell percent (u ∷ ts) p = refl
token_at-spell eq [] p = refl
token_at-spell eq (u ∷ ts) p = refl
token_at-spell eqeq [] p = refl
token_at-spell eqeq (u ∷ ts) p = refl
token_at-spell ne [] p = refl
token_at-spell ne (u ∷ ts) p = refl
token_at-spell lt [] p = refl
token_at-spell lt (u ∷ ts) p = refl
token_at-spell gt [] p = refl
token_at-spell gt (u ∷ ts) p = refl
token_at-spell le [] p = refl
token_at-spell le (u ∷ ts) p = refl
token_at-spell ge [] p = refl
token_at-spell ge (u ∷ ts) p = refl
token_at-spell lparen [] p = refl
token_at-spell lparen (u ∷ ts) p = refl
token_at-spell rparen [] p = refl
token_at-spell rparen (u ∷ ts) p = refl
token_at-spell colon [] p = refl
token_at-spell colon (u ∷ ts) p = refl
token_at-spell comma [] p = refl
token_at-spell comma (u ∷ ts) p = refl
token_at-spell and [] p = refl
token_at-spell and (u ∷ ts) p = refl
token_at-spell or [] p = refl
token_at-spell or (u ∷ ts) p = refl
token_at-spell not [] p = refl
token_at-spell not (u ∷ ts) p = refl

skip_whitespace-cons : (c : ℕ) (s : List ℕ) → c ≢ b' ' → c ≢ 9 → skip_whitespace (c ∷ s) ≡ c ∷ s
unfolding skip_whitespace
skip_whitespace-cons c s h k = ground arith

skip_whitespace-digits :
    (s rest : List ℕ) → IsDigits s → 0 < length s → skip_whitespace (s ++ rest) ≡ s ++ rest
skip_whitespace-digits [] rest d h = absurd (omega arith)
skip_whitespace-digits (c ∷ s) rest d h =
    skip_whitespace-cons c (s ++ rest) (λ e. omega arith) (λ e. omega arith)

skip_whitespace-name : (x rest : List ℕ) → IsName x → skip_whitespace (x ++ rest) ≡ x ++ rest
skip_whitespace-name [] rest h = absurd h
skip_whitespace-name (c ∷ s) rest h =
    skip_whitespace-cons c (s ++ rest) (λ e. ground (arith, alpha)) (λ e. ground (arith, alpha))
  where
    alpha : is_alpha c ≡ true
    alpha = h.0

skip_whitespace-spell :
    (t : Token) (rest : List ℕ) → Printable t → skip_whitespace (spell t ++ rest) ≡ spell t ++ rest
unfolding skip_whitespace
skip_whitespace-spell eof rest p = absurd p
skip_whitespace-spell (num n) rest p =
    skip_whitespace-digits (dec_text n) rest (dec_text-IsDigits n) (dec_text-length n)
skip_whitespace-spell (str s) rest p = absurd p
skip_whitespace-spell (ident x) rest p = skip_whitespace-name x rest p
skip_whitespace-spell plus rest p = refl
skip_whitespace-spell minus rest p = refl
skip_whitespace-spell star rest p = refl
skip_whitespace-spell slash rest p = refl
skip_whitespace-spell percent rest p = refl
skip_whitespace-spell eq rest p = refl
skip_whitespace-spell eqeq rest p = refl
skip_whitespace-spell ne rest p = refl
skip_whitespace-spell lt rest p = refl
skip_whitespace-spell gt rest p = refl
skip_whitespace-spell le rest p = refl
skip_whitespace-spell ge rest p = refl
skip_whitespace-spell lparen rest p = refl
skip_whitespace-spell rparen rest p = refl
skip_whitespace-spell colon rest p = refl
skip_whitespace-spell comma rest p = refl
skip_whitespace-spell and rest p = refl
skip_whitespace-spell or rest p = refl
skip_whitespace-spell not rest p = refl

skip_whitespace-blank : (s : List ℕ) → skip_whitespace (b' ' ∷ s) ≡ skip_whitespace s
unfolding skip_whitespace
skip_whitespace-blank s = refl

-- Of tokens that are printed with a blank in front of each, next_token reads the first one, and leaves
-- the others, if the first one is printable.
pub next_token-show :
    (t : Token) (ts : List Token) → Printable t → next_token (show (t ∷ ts)) ≡ (t, show ts)
unfolding next_token show
next_token-show t ts p =
    rw (skip_whitespace-blank (spell t ++ show ts), skip_whitespace-spell t (show ts) p)
      (token_at-spell t ts p)

-- A number is read up to the first character that is no digit.
pub next_token-number :
    (n : ℕ) (rest : List ℕ)
    → n < 2 ^ 32
    → is_digit (peek rest) ≡ false
    → next_token (dec_text n ++ rest) ≡ (num n, rest)
unfolding next_token
next_token-number n rest h g =
    rw (skip_whitespace-digits (dec_text n) rest (dec_text-IsDigits n) (dec_text-length n))
      (token_at-num n rest h g)

peek-digits : (s : List ℕ) → IsDigits s → 0 < length s → is_digit (peek s) ≡ true
peek-digits [] d h = absurd (omega arith)
peek-digits (c ∷ s) d h = ground arith

-- A minus in front of a digit belongs to the number.
pub next_token-negative :
    (n : ℕ) → n < 2 ^ 32 → next_token (b'-' ∷ dec_text n) ≡ (num (neg32 n), [])
unfolding next_token token_at number_token skip_whitespace
next_token-negative n h =
    rw (peek-digits (dec_text n) (dec_text-IsDigits n) (dec_text-length n), whole)
  where
    whole : digits 0 (dec_text n) ≡ (n, [])
    whole = ap (digits 0) (sym (append-nil (dec_text n))) ∙ digits-dec_text n [] h refl
