-- ===== src/Cosypy/Expr.antt =====
-- kernel/cospy.c: the expressions of the language, their values, and their tokens with as few
-- parentheses as the precedence of the operators allows.
use os_u.Prelude.{
  ℕ, suc, ◌^◌, ◌<◌, true, false, ◌&&◌, ◌||◌, Option, none, some, List, ◌∷◌, leb, ◌==◌,
  if◌then◌else◌, neg32, add32, sub32, mul32, div32, mod32, lt32, traps,
}
use mathlib.Core.Bool
use os_u.Cosypy.Lexer.{
  Token, num, ident, plus, minus, star, slash, percent, eqeq, ne, lt, gt, le, ge, lparen, rparen,
}
use os_u.Cosypy.Lexer
use os_u.Cosypy.Lexer.Spell.{IsName}
use os_u.Cosypy.State.{get_var}
use os_u.Cosypy.Parser.{truth, value_or_zero}

pub data Op : Type 0 where
  times over modulo add sub less greater at_most at_least equal differs both either : Op

pub data Expr : Type 0 where
  lit : ℕ → Expr
  var : List ℕ → Expr
  neg flip : Expr → Expr
  bin : Op → Expr → Expr → Expr

abbrev pub sign : Op → Token
sign times = star
sign over = slash
sign modulo = percent
sign add = plus
sign sub = minus
sign less = lt
sign greater = gt
sign at_most = le
sign at_least = ge
sign equal = eqeq
sign differs = ne
sign both = Lexer.and
sign either = Lexer.or

-- How loosely an operator binds, from products to `or`.
abbrev pub tier : Op → ℕ
tier times = 0
tier over = 0
tier modulo = 0
tier add = 1
tier sub = 1
tier less = 2
tier greater = 2
tier at_most = 2
tier at_least = 2
tier equal = 2
tier differs = 2
tier both = 3
tier either = 4

-- The value of an operator: none for a division by 0, which also prints, or one that traps.
abbrev pub apply : Op → ℕ → ℕ → Option ℕ
apply times a b = some (mul32 a b)
apply over a b = if b == 0 || traps a b then none else some (div32 a b)
apply modulo a b = if b == 0 then some 0 else if traps a b then none else some (mod32 a b)
apply add a b = some (add32 a b)
apply sub a b = some (sub32 a b)
apply less a b = some (truth (lt32 a b))
apply greater a b = some (truth (lt32 b a))
apply at_most a b = some (truth (Bool.not (lt32 b a)))
apply at_least a b = some (truth (Bool.not (lt32 a b)))
apply equal a b = some (truth (a == b))
apply differs a b = some (truth (Bool.not (a == b)))
apply both a b = some (truth (Bool.not (a == 0) && Bool.not (b == 0)))
apply either a b = some (truth (Bool.not (a == 0) || Bool.not (b == 0)))

abbrev pub apply_to : Op → Option ℕ → Option ℕ → Option ℕ
apply_to o none v = none
apply_to o (some a) none = none
apply_to o (some a) (some b) = apply o a b

abbrev pub neg_of : Option ℕ → Option ℕ
neg_of none = none
neg_of (some a) = some (neg32 a)

abbrev pub flip_of : Option ℕ → Option ℕ
flip_of none = none
flip_of (some a) = some (truth (a == 0))

-- The value of an expression; a variable that is not set is 0.
unfoldable pub eval : List (List ℕ × ℕ) → Expr → Option ℕ
eval vars (lit n) = some n
eval vars (var x) = some (value_or_zero (get_var vars x))
eval vars (neg e) = neg_of (eval vars e)
eval vars (flip e) = flip_of (eval vars e)
eval vars (bin o l r) = apply_to o (eval vars l) (eval vars r)

-- The tokens of an expression where operators of the first `k` tiers need no parentheses, in front of
-- others.
-- The left operand may have the operator's own tier, since operators associate to the left.
unfoldable pub tokens : ℕ → Expr → List Token → List Token
tokens k (lit n) rest = num n ∷ rest
tokens k (var x) rest = ident x ∷ rest
tokens k (neg e) rest = minus ∷ tokens 0 e rest
tokens k (flip e) rest = Lexer.not ∷ tokens 0 e rest
tokens k (bin o l r) rest = elim (leb (suc (tier o)) k) [
  | true ↦ tokens (suc (tier o)) l (sign o ∷ tokens (tier o) r rest)
  | false ↦ lparen ∷ tokens (suc (tier o)) l (sign o ∷ tokens (tier o) r (rparen ∷ rest))
]

-- Literals are 32-bit numbers, and variables have names of at most 31 characters.
abbrev pub IsPrintable : Expr → Type 0
IsPrintable (lit n) = n < 2 ^ 32
IsPrintable (var x) = IsName x
IsPrintable (neg e) = IsPrintable e
IsPrintable (flip e) = IsPrintable e
IsPrintable (bin o l r) = IsPrintable l × IsPrintable r
