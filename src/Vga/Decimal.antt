-- ===== src/Vga/Decimal.antt =====
-- kernel/vga.c and string.c: a number that vga_print_dec prints is read back by atoi.
use os_u.Prelude.{
  ℕ, zero, suc, ◌+◌, ◌-◌, ◌*◌, ◌/◌, ◌%◌, ◌^◌, ◌≤◌, ◌<◌, ◌≡◌, ◌≢◌, ◌∙◌, refl, false, List, [], ◌∷◌,
  arith, ◌==◌,
}
use native.Mathlib.Nat.{pow-suc}
use native.Mathlib.Decide.{ℕ_discrete}
use os_u.Cstring.{atoi, atoi_signed, atoi_digits}
use os_u.Vga.{dec_digits, dec_text}

atoi_digits-cons :
    (value c : ℕ) (out : List ℕ)
    → b'0' ≤ c
    → c ≤ b'9'
    → atoi_digits value (c ∷ out) ≡ atoi_digits ((value * 10 + (c - b'0')) % 2 ^ 32) out
unfolding atoi_digits
atoi_digits-cons value c out h l = ground arith

atoi_digits-digit :
    (value d : ℕ) (out : List ℕ)
    → value * 10 + d < 2 ^ 32
    → d < 10
    → atoi_digits value ((b'0' + d) ∷ out) ≡ atoi_digits (value * 10 + d) out
atoi_digits-digit value d out h l =
    let e : (value * 10 + (b'0' + d - b'0')) % 2 ^ 32 ≡ value * 10 + d = omega arith in
    atoi_digits-cons value (b'0' + d) out (omega arith) (omega arith) ∙ rw e

-- The digits that dec_digits puts in front are read first, and give the value.
digits_read :
    (n value : ℕ) (out : List ℕ)
    → value < 10 ^ n
    → value < 2 ^ 32
    → atoi_digits 0 (dec_digits n value out) ≡ atoi_digits value out
unfolding dec_digits
digits_read zero value out h b = let e : value ≡ 0 = omega arith in rw e
digits_read (suc n) value out h b = elim (ℕ_discrete value 0) [
  | yes e ↦ rw e
  | no ne ↦ ground (
    arith,
    digits_read n (value / 10) ((b'0' + value % 10) ∷ out) less (omega arith),
    atoi_digits-digit (value / 10) (value % 10) out (omega arith) (omega arith),
    whole,
  )
]
  where
    less : value / 10 < 10 ^ n
    less = let e : value < 10 ^ n * 10 = rw pow-suc at h in omega (arith, e)

    whole : value / 10 * 10 + value % 10 ≡ value
    whole = omega arith

-- The list is empty or begins with a digit.
abbrev pub BeginsWithDigit : List ℕ → Type 0
BeginsWithDigit [] = Unit
BeginsWithDigit (c ∷ s) = (b'0' ≤ c) × (c ≤ b'9')

dec_digits-BeginsWithDigit :
    (n value : ℕ) (out : List ℕ) → BeginsWithDigit out → BeginsWithDigit (dec_digits n value out)
unfolding dec_digits
dec_digits-BeginsWithDigit zero value out h = h
dec_digits-BeginsWithDigit (suc n) value out h = elim (ℕ_discrete value 0) [
  | yes e ↦ rw e h
  | no ne ↦
      rw (not_zero ne)
        (dec_digits-BeginsWithDigit n (value / 10) ((b'0' + value % 10) ∷ out) (omega arith))
]
  where
    not_zero : value ≢ 0 → (value == 0) ≡ false
    not_zero ne = ground arith

pub atoi-BeginsWithDigit : (s : List ℕ) → BeginsWithDigit s → atoi s ≡ atoi_digits 0 s
unfolding atoi atoi_signed atoi_digits
atoi-BeginsWithDigit [] h = refl
atoi-BeginsWithDigit (c ∷ s) h = ground arith

atoi_zero : atoi (b'0' ∷ []) ≡ 0
unfolding atoi
atoi_zero = refl

atoi_digits-nil : (value : ℕ) → atoi_digits value [] ≡ value
unfolding atoi_digits
atoi_digits-nil value = refl

-- atoi reads back, as the 32 bits of an int, every 32-bit number that vga_print_dec prints.
pub atoi-dec_text : (value : ℕ) → value < 2 ^ 32 → atoi (dec_text value) ≡ value
unfolding dec_text
atoi-dec_text value h = ground (
  arith,
  atoi_zero,
  atoi-BeginsWithDigit (dec_digits 10 value []) (dec_digits-BeginsWithDigit 10 value [] tt),
  digits_read 10 value [] (omega arith) h,
  atoi_digits-nil value,
)
