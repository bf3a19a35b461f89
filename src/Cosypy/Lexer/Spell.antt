-- ===== src/Cosypy/Lexer/Spell.antt =====
-- kernel/cospy.c: the texts of tokens, and the numbers and names among them.
use os_u.Prelude.{
  ℕ, zero, suc, ◌+◌, ◌-◌, ◌*◌, ◌%◌, ◌^◌, ◌≤◌, ◌<◌, ◌≡◌, refl, sym, ◌∙◌, ap, true, false, ◌||◌, List,
  [], ◌∷◌, ◌++◌, length, ◌==◌, arith, codes,
}
use os_u.Cstring.{atoi_digits}
use os_u.Vga.{dec_text}
use os_u.Vga.Decimal.{atoi-dec_text, BeginsWithDigit, atoi-BeginsWithDigit}
use os_u.Forth.Tokens.{IsDigits, dec_text-IsDigits, dec_text-length}
use os_u.Cosypy.Lexer.{
  Token, eof, num, str, ident, plus, minus, star, slash, percent, eq, eqeq, ne, lt, gt, le, ge,
  lparen, rparen, colon, comma, and, or, not, is_digit, peek, is_alpha, is_alnum, digits,
  ident_chars, keyword, number_token, ident_token, token_at,
}

-- The text of a token.
abbrev pub spell : Token → List ℕ
spell eof = []
spell (num n) = dec_text n
spell (str s) = []
spell (ident x) = x
spell plus = codes "+"
spell minus = codes "-"
spell star = codes "*"
spell slash = codes "/"
spell percent = codes "%"
spell eq = codes "="
spell eqeq = codes "=="
spell ne = codes "!="
spell lt = codes "<"
spell gt = codes ">"
spell le = codes "<="
spell ge = codes ">="
spell lparen = codes "("
spell rparen = codes ")"
spell colon = codes ":"
spell comma = codes ","
spell and = codes "and"
spell or = codes "or"
spell not = codes "not"

unfoldable pub show : List Token → List ℕ
show [] = []
show (t ∷ ts) = b' ' ∷ (spell t ++ show ts)

abbrev pub AllAlnum : List ℕ → Type 0
AllAlnum [] = Unit
AllAlnum (c ∷ s) = (is_alnum c ≡ true) × AllAlnum s

-- A name of at most 31 characters that is no keyword.
abbrev pub IsName : List ℕ → Type 0
IsName [] = ⊥
IsName (c ∷ s) =
    (is_alpha c ≡ true) × AllAlnum s × (length s ≤ 30) × (keyword (c ∷ s) ≡ ident (c ∷ s))

-- The tokens that are read back: numbers that are no negative literals, names, and all signs.
abbrev pub Printable : Token → Type 0
Printable eof = ⊥
Printable (num n) = n < 2 ^ 32
Printable (str s) = ⊥
Printable (ident x) = IsName x
Printable t = Unit

-- What follows a token: nothing, or a blank.
abbrev AtGap : List ℕ → Type 0
AtGap [] = Unit
AtGap (c ∷ s) = c ≡ b' '

pub show-AtGap : (ts : List Token) → AtGap (show ts)
unfolding show
show-AtGap [] = tt
show-AtGap (t ∷ ts) = refl

pub AtGap-peek : (rest : List ℕ) → AtGap rest → is_digit (peek rest) ≡ false
AtGap-peek [] g = refl
AtGap-peek (c ∷ rest) g = ground arith

digits-append :
    (value : ℕ) (s rest : List ℕ)
    → IsDigits s
    → is_digit (peek rest) ≡ false
    → digits value (s ++ rest) ≡ (atoi_digits value s, rest)
unfolding digits atoi_digits
digits-append value [] [] d g = refl
digits-append value [] (c ∷ rest) d g = ground arith
digits-append value (c ∷ s) rest d g =
    ground (arith, digits-append ((value * 10 + (c - b'0')) % 2 ^ 32) s rest d.2 g)

pub digits-dec_text :
    (n : ℕ) (rest : List ℕ)
    → n < 2 ^ 32
    → is_digit (peek rest) ≡ false
    → digits 0 (dec_text n ++ rest) ≡ (n, rest)
digits-dec_text n rest h g =
    digits-append 0 (dec_text n) rest (dec_text-IsDigits n) g
    ∙ ap (λ v. (v, rest))
        (sym (atoi-BeginsWithDigit (dec_text n) (begins (dec_text n) (dec_text-IsDigits n)))
          ∙ atoi-dec_text n h)
  where
    begins : (s : List ℕ) → IsDigits s → BeginsWithDigit s
    begins [] d = tt
    begins (c ∷ s) d = (d.0, d.1)

token_at-digits :
    (s rest : List ℕ)
    → IsDigits s
    → 0 < length s
    → token_at (s ++ rest) ≡ (num (digits 0 (s ++ rest)).0, (digits 0 (s ++ rest)).1)
unfolding token_at number_token
token_at-digits [] rest d h = absurd (omega arith)
token_at-digits (c ∷ s) rest d h = rw (not_end, digit, not_minus)
  where
    not_end : (c == 0 || c == b'#') ≡ false
    not_end = ground arith

    digit : is_digit c ≡ true
    digit = ground arith

    not_minus : (c == b'-') ≡ false
    not_minus = ground arith

pub token_at-num :
    (n : ℕ) (rest : List ℕ)
    → n < 2 ^ 32
    → is_digit (peek rest) ≡ false
    → token_at (dec_text n ++ rest) ≡ (num n, rest)
token_at-num n rest h g =
    token_at-digits (dec_text n) rest (dec_text-IsDigits n) (dec_text-length n)
    ∙ rw (digits-dec_text n rest h g)

ident_chars-append :
    (n : ℕ) (s rest : List ℕ)
    → AllAlnum s
    → length s ≤ n
    → AtGap rest
    → ident_chars n (s ++ rest) ≡ (s, rest)
unfolding ident_chars
ident_chars-append zero [] rest a l g = refl
ident_chars-append zero (c ∷ s) rest a l g = absurd (omega arith)
ident_chars-append (suc n) [] [] a l g = refl
ident_chars-append (suc n) [] (c ∷ rest) a l g = ground arith
ident_chars-append (suc n) (c ∷ s) rest a l g =
    ground (arith, ident_chars-append n s rest a.1 (omega arith) g)

ident_token-append :
    (x rest : List ℕ)
    → AllAlnum x
    → length x ≤ 31
    → keyword x ≡ ident x
    → AtGap rest
    → ident_token (x ++ rest) ≡ (ident x, rest)
unfolding ident_token
ident_token-append x rest a l k g = rw (ident_chars-append 31 x rest a l g, k)

pub token_at-ident :
    (x rest : List ℕ) → IsName x → AtGap rest → token_at (x ++ rest) ≡ (ident x, rest)
unfolding token_at
token_at-ident [] rest h g = absurd h
token_at-ident (c ∷ s) rest h g =
    rw (not_end, not_digit, not_minus, not_quote, h.0)
      (ident_token-append (c ∷ s) rest (ground arith, h.1) (omega (arith, h.2)) h.3 g)
  where
    alpha : is_alpha c ≡ true
    alpha = h.0

    not_end : (c == 0 || c == b'#') ≡ false
    not_end = ground (arith, alpha)

    not_digit : is_digit c ≡ false
    not_digit = ground (arith, alpha)

    not_minus : (c == b'-') ≡ false
    not_minus = ground (arith, alpha)

    not_quote : (c == 34 || c == 39) ≡ false
    not_quote = ground (arith, alpha)
