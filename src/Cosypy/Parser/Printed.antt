-- ===== src/Cosypy/Parser/Printed.antt =====
-- kernel/cospy.c: the tokens of printed expressions.
use os_u.Prelude.{
  ℕ, zero, suc, ◌≤◌, ◌<◌, ◌≡◌, inl, inr, refl, true, false, Option, none, some, List, [], ◌∷◌,
  length, length-append, leb, arith, Bool-cases, neg32,
}
use os_u.Forth.Tokens.{dec_text-length}
use os_u.Cosypy.Lexer.{Token, eof, num, str, ident, lparen, rparen, is}
use os_u.Cosypy.Lexer.Spell.{spell, show, Printable}
use os_u.Cosypy.State.{Cosypy}
use os_u.Cosypy.Parser.{not32, size}
use os_u.Cosypy.Expr.{
  Op, times, Expr, lit, var, neg, flip, bin, sign, tier, apply, apply_to, neg_of, flip_of, tokens,
  IsPrintable,
}
use os_u.Cosypy.Parser.Levels.{at, AllPrintable, Stops}

pub length-tokens : (k : ℕ) (e : Expr) (rest : List Token) → length rest < length (tokens k e rest)
unfolding tokens
length-tokens k (lit n) rest = omega arith
length-tokens k (var x) rest = omega arith
length-tokens k (neg e) rest = omega (arith, length-tokens 0 e rest)
length-tokens k (flip e) rest = omega (arith, length-tokens 0 e rest)
length-tokens k (bin o l r) rest = elim (Bool-cases (leb (suc (tier o)) k)) [
  | inl e ↦
      rw (e, tokens)
        (omega (
          arith,
          length-tokens (suc (tier o)) l (sign o ∷ tokens (tier o) r rest),
          length-tokens (tier o) r rest,
        ))
  | inr e ↦
      rw (e, tokens)
        (omega (
          arith,
          length-tokens (suc (tier o)) l (sign o ∷ tokens (tier o) r (rparen ∷ rest)),
          length-tokens (tier o) r (rparen ∷ rest),
        ))
]

pub sign-Printable : (o : Op) → Printable (sign o)
sign-Printable times = tt
sign-Printable o = tt

pub tokens-AllPrintable :
    (k : ℕ) (e : Expr) (rest : List Token)
    → IsPrintable e
    → AllPrintable rest
    → AllPrintable (tokens k e rest)
unfolding tokens
tokens-AllPrintable k (lit n) rest h p = (h, p)
tokens-AllPrintable k (var x) rest h p = (h, p)
tokens-AllPrintable k (neg e) rest h p = (tt, tokens-AllPrintable 0 e rest h p)
tokens-AllPrintable k (flip e) rest h p = (tt, tokens-AllPrintable 0 e rest h p)
tokens-AllPrintable k (bin o l r) rest h p = elim (Bool-cases (leb (suc (tier o)) k)) [
  | inl e ↦
      rw (e, tokens)
        (tokens-AllPrintable (suc (tier o)) l _ h.0
          (sign-Printable o, tokens-AllPrintable (tier o) r rest h.1 p))
  | inr e ↦
      rw (e, tokens)
        (
          tt,
          tokens-AllPrintable (suc (tier o)) l _ h.0
              (sign-Printable o, tokens-AllPrintable (tier o) r (rparen ∷ rest) h.1 (tt, p)),
        )
]

pub Stops-sign : (o : Op) (ts : List Token) → Stops (suc (tier o)) (sign o ∷ ts)
Stops-sign times ts = (refl, inr (omega arith))
Stops-sign o ts = (refl, inr (omega arith))

pub tier-lt : (o : Op) → tier o < 5
tier-lt times = omega arith
tier-lt o = omega arith

pub apply_to-some :
    (o : Op) (x y : Option ℕ) (v : ℕ)
    → apply_to o x y ≡ some v
    → (a : ℕ) × (b : ℕ) × (x ≡ some a) × (y ≡ some b) × (apply o a b ≡ some v)
apply_to-some o none y v h = cc
apply_to-some o (some a) none v h = cc
apply_to-some o (some a) (some b) v h = (a, b, refl, refl, h)

pub neg_of-some :
    (x : Option ℕ) (v : ℕ) → neg_of x ≡ some v → (a : ℕ) × (x ≡ some a) × (neg32 a ≡ v)
neg_of-some none v h = cc
neg_of-some (some a) v h = (a, refl, cc)

pub flip_of-some :
    (x : Option ℕ) (v : ℕ) → flip_of x ≡ some v → (a : ℕ) × (x ≡ some a) × (not32 a ≡ v)
flip_of-some none v h = cc
flip_of-some (some a) v h = (a, refl, cc)

pub some-injective : (a v : ℕ) → some a ≡ some v → a ≡ v
some-injective a v h = cc

pub Stops-zero : (k : ℕ) (rest : List Token) → Stops k rest → Stops zero rest
Stops-zero k [] t = tt
Stops-zero k (u ∷ rest) (p, q) = (p, inr (omega arith))

pub Stops-le : (j k : ℕ) (rest : List Token) → j ≤ k → Stops k rest → Stops j rest
Stops-le j k [] l t = tt
Stops-le j k (u ∷ rest) l (p, inl z) = (p, inl z)
Stops-le j k (u ∷ rest) l (p, inr q) = (p, inr (omega arith))

pub spell_pos : (t : Token) → Printable t → 0 < length (spell t)
spell_pos eof p = absurd p
spell_pos (num n) p = dec_text-length n
spell_pos (str s) p = absurd p
spell_pos (ident []) p = absurd p
spell_pos (ident (c ∷ s)) p = omega arith
spell_pos t p = omega arith

pub length-show : (ts : List Token) → AllPrintable ts → length ts ≤ length (show ts)
unfolding show
length-show [] p = omega arith
length-show (t ∷ ts) p = omega (arith, length-show ts p.1, length-append (spell t) (show ts))

-- The fuel of parse covers the tokens.
pub size-at : (s : Cosypy) (ts : List Token) → AllPrintable ts → length ts ≤ size (at s ts)
size-at s [] p = omega arith
size-at s (t ∷ ts) p = elim (Bool-cases (is t eof)) [
  | inl e ↦ absurd (no_eof t p.0 e)
  | inr e ↦ rw e (omega (arith, length-show ts p.1))
]
  where
    no_eof : (t : Token) → Printable t → is t eof ≡ true → ⊥
    no_eof eof p e = p
    no_eof t p e = cc

abbrev pub body : Op → Expr → Expr → List Token → List Token
body o l r rest = tokens (suc (tier o)) l (sign o ∷ tokens (tier o) r rest)

pub tokens-plain :
    (k : ℕ) (o : Op) (l r : Expr) (rest : List Token)
    → leb (suc (tier o)) k ≡ true
    → tokens k (bin o l r) rest ≡ body o l r rest
unfolding tokens
tokens-plain k o l r rest e = rw (e, tokens)

pub tokens-paren :
    (k : ℕ) (o : Op) (l r : Expr) (rest : List Token)
    → leb (suc (tier o)) k ≡ false
    → tokens k (bin o l r) rest ≡ lparen ∷ body o l r (rparen ∷ rest)
unfolding tokens
tokens-paren k o l r rest e = rw (e, tokens)
