-- ===== src/Forth/Tokens.antt =====
-- kernel/lang.c: how a line of the Forth interpreter is split into words.
use os_u.Prelude.{
  ℕ, zero, suc, ◌+◌, ◌/◌, ◌%◌, ◌^◌, ◌≤◌, ◌<◌, ◌≡◌, ◌≢◌, refl, ◌∙◌, ap, true, false, ◌&&◌, none,
  some, List, [], ◌∷◌, ◌++◌, arith, length, leb, ltb, ◌==◌, codes,
}
use native.Mathlib.Decide.{ℕ_discrete}
use os_u.Cstring.{strcmp, atoi}
use os_u.Vga.{dec_digits, dec_text}
use os_u.Vga.Decimal.{atoi-dec_text}
use os_u.Forth.{all_digits, is_number, split_tok, next_tok, number, word_of, words_of}

-- No character is a blank or a NUL.
abbrev pub IsPlain : List ℕ → Type 0
IsPlain [] = Unit
IsPlain (c ∷ s) = (c ≢ 0) × (c ≢ b' ') × (c ≢ 9) × IsPlain s

-- A text of decimal digits.
abbrev pub IsDigits : List ℕ → Type 0
IsDigits [] = Unit
IsDigits (c ∷ s) = (b'0' ≤ c) × (c ≤ b'9') × IsDigits s

split_tok-append : (tok rest : List ℕ) → IsPlain tok → split_tok (tok ++ b' ' ∷ rest) ≡ (tok, rest)
unfolding split_tok
split_tok-append [] rest p = refl
split_tok-append (c ∷ tok) rest p = ground (arith, split_tok-append tok rest p.3)

-- A token in front of a blank is read, and the text goes on behind the blank.
next_tok-append :
    (tok rest : List ℕ) → IsPlain tok → tok ≢ [] → next_tok (tok ++ b' ' ∷ rest) ≡ some (tok, rest)
unfolding next_tok
next_tok-append [] rest p ne = absurd (ne refl)
next_tok-append (c ∷ tok) rest p ne = ground (arith, split_tok-append (c ∷ tok) rest p)

pub next_tok_nil : next_tok [] ≡ none
unfolding next_tok
next_tok_nil = refl

pub words_of-nil : (n : ℕ) → words_of n [] ≡ []
unfolding words_of next_tok
words_of-nil zero = refl
words_of-nil (suc n) = refl

pub words_of-append :
    (n : ℕ) (tok rest : List ℕ)
    → IsPlain tok
    → tok ≢ []
    → words_of (suc n) (tok ++ b' ' ∷ rest) ≡ word_of tok ∷ words_of n rest
unfolding words_of
words_of-append n tok rest p ne = rw (next_tok-append tok rest p ne, words_of)

pub IsDigits-IsPlain : (s : List ℕ) → IsDigits s → IsPlain s
IsDigits-IsPlain [] d = tt
IsDigits-IsPlain (c ∷ s) d =
    ((λ h. omega arith), (λ h. omega arith), (λ h. omega arith), IsDigits-IsPlain s d.2)

dec_digits-IsDigits :
    (n value : ℕ) (out : List ℕ) → IsDigits out → IsDigits (dec_digits n value out)
unfolding dec_digits
dec_digits-IsDigits zero value out d = d
dec_digits-IsDigits (suc n) value out d = elim (ℕ_discrete value 0) [
  | yes e ↦ rw e d
  | no ne ↦
      rw (not_zero ne) (
        dec_digits-IsDigits n (value / 10) ((b'0' + value % 10) ∷ out)
          (omega arith, omega arith, d))
]
  where
    not_zero : value ≢ 0 → (value == 0) ≡ false
    not_zero ne = ground arith

length-dec_digits : (n value : ℕ) (out : List ℕ) → length out ≤ length (dec_digits n value out)
unfolding dec_digits
length-dec_digits zero value out = omega arith
length-dec_digits (suc n) value out =
    ground (arith, length-dec_digits n (value / 10) ((b'0' + value % 10) ∷ out))

pub dec_text-IsDigits : (value : ℕ) → IsDigits (dec_text value)
unfolding dec_text
dec_text-IsDigits value = elim (ℕ_discrete value 0) [
  | yes e ↦ rw e (omega arith, omega arith, tt)
  | no ne ↦ rw (not_zero ne) (dec_digits-IsDigits 10 value [] tt)
]
  where
    not_zero : value ≢ 0 → (value == 0) ≡ false
    not_zero ne = ground arith

pub dec_text-length : (value : ℕ) → 0 < length (dec_text value)
unfolding dec_text dec_digits
dec_text-length value = ground (arith, length-dec_digits 9 (value / 10) ((b'0' + value % 10) ∷ []))

strcmp-head :
    (c x : ℕ) (s t : List ℕ) → c < 256 → x < 256 → c ≢ x → (strcmp (c ∷ s) (x ∷ t) == 0) ≡ false
unfolding strcmp
strcmp-head c x s t h k ne = ground arith

all_digits-IsDigits : (s : List ℕ) → IsDigits s → all_digits s ≡ true
unfolding all_digits
all_digits-IsDigits [] d = refl
all_digits-IsDigits (c ∷ s) d = ground (arith, all_digits-IsDigits s d.2)

is_number-IsDigits : (c : ℕ) (s : List ℕ) → IsDigits (c ∷ s) → is_number (c ∷ s) ≡ true
unfolding is_number
is_number-IsDigits c s d = ground (arith, all_digits-IsDigits (c ∷ s) d)

-- A text that begins with a digit spells none of the names.
word_of-cons : (c : ℕ) (s : List ℕ) → IsDigits (c ∷ s) → word_of (c ∷ s) ≡ number (atoi (c ∷ s))
unfolding word_of
word_of-cons c s d = rw (
  not_name b'b' (codes "ye") refl refl,
  not_name b'e' (codes "xit") refl refl,
  not_name b'+' [] refl refl,
  not_name b'-' [] refl refl,
  not_name b'*' [] refl refl,
  not_name b'/' [] refl refl,
  not_name b'd' (codes "up") refl refl,
  not_name b'd' (codes "rop") refl refl,
  not_name b's' (codes "wap") refl refl,
  not_name b'.' [] refl refl,
  not_name b'.' (codes "s") refl refl,
  not_name b'm' (codes "em") refl refl,
  not_name b'c' (codes "lear") refl refl,
  not_name b'w' (codes "ords") refl refl,
  is_number-IsDigits c s d,
)
  where
    not_name :
        (x : ℕ) (t : List ℕ)
        → (leb b'0' x && leb x b'9') ≡ false
        → ltb x 256 ≡ true
        → (strcmp (c ∷ s) (x ∷ t) == 0) ≡ false
    not_name x t h k = strcmp-head c x s t (omega arith) (ground arith) (ground arith)

word_of-IsDigits : (s : List ℕ) → IsDigits s → 0 < length s → word_of s ≡ number (atoi s)
word_of-IsDigits [] d h = absurd (omega arith)
word_of-IsDigits (c ∷ s) d h = word_of-cons c s d

-- A number that is printed in decimal is read as that number.
pub word_of-dec_text : (value : ℕ) → value < 2 ^ 32 → word_of (dec_text value) ≡ number value
word_of-dec_text value h =
    word_of-IsDigits (dec_text value) (dec_text-IsDigits value) (dec_text-length value)
    ∙ ap number (atoi-dec_text value h)

pub dec_text-IsPlain : (value : ℕ) → IsPlain (dec_text value)
dec_text-IsPlain value = IsDigits-IsPlain (dec_text value) (dec_text-IsDigits value)

pub dec_text-ne-nil : (value : ℕ) → dec_text value ≢ []
dec_text-ne-nil value e = absurd (omega (arith, dec_text-length value, ap (length {0}) e))
