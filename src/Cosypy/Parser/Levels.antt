-- ===== src/Cosypy/Parser/Levels.antt =====
-- kernel/cospy.c: the levels of the expression parser, and what a level goes on with.
use os_u.Prelude.{
  ℕ, zero, suc, ◌≤◌, ◌<◌, ◌≡◌, ◌≢◌, ◌⊎◌, inl, inr, refl, ap, Bool, true, false, some, List, [], ◌∷◌,
  length, arith,
}
use mathlib.Core.Path.{subst}
use native.Mathlib.Decide.{ℕ_discrete}
use os_u.Cosypy.Lexer
use os_u.Cosypy.Lexer.{
  Token, eof, num, str, ident, plus, minus, star, slash, percent, eq, eqeq, ne, lt, gt, le, ge,
  lparen, rparen, colon, comma, is, next_token, token_at, skip_whitespace,
}
use os_u.Cosypy.Lexer.Spell.{show, Printable}
use os_u.Cosypy.Lexer.Print.{next_token-show}
use os_u.Cosypy.State.{Cosypy, M, Run, ok, bind, advance}
use os_u.Cosypy.Parser.{
  parse_primary, operators, level, is_term, apply_term, parse_term, is_additive, apply_additive,
  parse_additive, is_comparison, apply_comparison, parse_comparison, is_and, apply_and, parse_and,
  is_or, apply_or, parse_or, parse_expr,
}
use os_u.Cosypy.Expr.{
  Op, times, over, modulo, add, sub, less, greater, at_most, at_least, equal, differs, both, either,
  sign, tier, apply,
}

-- The state at which the tokens are still to be read: the first one is the current token.
abbrev pub at : Cosypy → List Token → Cosypy
at s [] = record s { cursor = []; token = eof }
at s (t ∷ ts) = record s { cursor = show ts; token = t }

-- The tokens behind the current one are printable.
abbrev pub AllPrintable : List Token → Type 0
AllPrintable [] = Unit
AllPrintable (t ∷ ts) = Printable t × AllPrintable ts

next_token_nil : next_token (show []) ≡ (eof, [])
unfolding next_token show token_at skip_whitespace
next_token_nil = refl

pub advance-at :
    (s : Cosypy) (t : Token) (ts : List Token)
    → AllPrintable ts
    → advance (at s (t ∷ ts)) ≡ ok (tt, at s ts)
advance-at s t [] p = rw next_token_nil
advance-at s t (u ∷ ts) p = rw (next_token-show u ts p.0)

-- The operators of the levels 0 (products) to 4 (or), and what the code does at each.
abbrev pub is_op : ℕ → Token → Bool
is_op zero t = is_term t
is_op (suc zero) t = is_additive t
is_op (suc (suc zero)) t = is_comparison t
is_op (suc (suc (suc zero))) t = is_and t
is_op (suc (suc (suc (suc k)))) t = is_or t

abbrev pub apply_op : ℕ → Token → ℕ → ℕ → M ℕ
apply_op zero t a b = apply_term t a b
apply_op (suc zero) t a b = apply_additive t a b
apply_op (suc (suc zero)) t a b = apply_comparison t a b
apply_op (suc (suc (suc zero))) t a b = apply_and t a b
apply_op (suc (suc (suc (suc k)))) t a b = apply_or t a b

-- The parser of a level: 0 for parse_primary, 5 for the body of parse_expr.
unfoldable pub parser_at : ℕ → M ℕ → ℕ → M ℕ
parser_at zero self n = parse_primary self n
parser_at (suc k) self n = level (is_op k) (apply_op k) (parser_at k self n) n

pub parse_or-parser_at : (self : M ℕ) (n : ℕ) → parse_or self n ≡ parser_at 5 self n
unfolding parser_at parse_or parse_and parse_comparison parse_additive parse_term
parse_or-parser_at self n = refl

-- The level of a token as an operator; 0 for none.
abbrev level_of : Token → ℕ
level_of star = 1
level_of slash = 1
level_of percent = 1
level_of plus = 2
level_of minus = 2
level_of lt = 3
level_of gt = 3
level_of le = 3
level_of ge = 3
level_of eqeq = 3
level_of ne = 3
level_of Lexer.and = 4
level_of Lexer.or = 5
level_of t = 0

-- No operator that binds tighter than level `k` comes next, and no left parenthesis.
abbrev pub Stops : ℕ → List Token → Type 0
Stops k [] = Unit
Stops k (t ∷ ts) = (is t lparen ≡ false) × ((level_of t ≡ 0) ⊎ (k ≤ level_of t))

pub apply_op-sign :
    (o : Op) (a b v : ℕ) (s : Cosypy)
    → apply o a b ≡ some v
    → apply_op (tier o) (sign o) a b s ≡ ok (v, s)
unfolding apply_term
apply_op-sign times a b v s h = ground arith
apply_op-sign over a b v s h = ground arith
apply_op-sign modulo a b v s h = ground arith
apply_op-sign add a b v s h = ground arith
apply_op-sign sub a b v s h = ground arith
apply_op-sign less a b v s h = ground arith
apply_op-sign greater a b v s h = ground arith
apply_op-sign at_most a b v s h = ground arith
apply_op-sign at_least a b v s h = ground arith
apply_op-sign equal a b v s h = ground arith
apply_op-sign differs a b v s h = ground arith
apply_op-sign both a b v s h = ground arith
apply_op-sign either a b v s h = ground arith

pub is_op-sign : (o : Op) → is_op (tier o) (sign o) ≡ true
is_op-sign times = refl
is_op-sign over = refl
is_op-sign modulo = refl
is_op-sign add = refl
is_op-sign sub = refl
is_op-sign less = refl
is_op-sign greater = refl
is_op-sign at_most = refl
is_op-sign at_least = refl
is_op-sign equal = refl
is_op-sign differs = refl
is_op-sign both = refl
is_op-sign either = refl

-- A level's test accepts exactly the tokens of that level.
is_op-level_of : (k : ℕ) (t : Token) → k < 5 → level_of t ≢ suc k → is_op k t ≡ false
is_op-level_of zero star h x = absurd (x refl)
is_op-level_of zero slash h x = absurd (x refl)
is_op-level_of zero percent h x = absurd (x refl)
is_op-level_of zero t h x = refl
is_op-level_of (suc zero) plus h x = absurd (x refl)
is_op-level_of (suc zero) minus h x = absurd (x refl)
is_op-level_of (suc zero) t h x = refl
is_op-level_of (suc (suc zero)) lt h x = absurd (x refl)
is_op-level_of (suc (suc zero)) gt h x = absurd (x refl)
is_op-level_of (suc (suc zero)) le h x = absurd (x refl)
is_op-level_of (suc (suc zero)) ge h x = absurd (x refl)
is_op-level_of (suc (suc zero)) eqeq h x = absurd (x refl)
is_op-level_of (suc (suc zero)) ne h x = absurd (x refl)
is_op-level_of (suc (suc zero)) t h x = refl
is_op-level_of (suc (suc (suc zero))) Lexer.and h x = absurd (x refl)
is_op-level_of (suc (suc (suc zero))) t h x = refl
is_op-level_of (suc (suc (suc (suc zero)))) Lexer.or h x = absurd (x refl)
is_op-level_of (suc (suc (suc (suc zero)))) t h x = refl
is_op-level_of (suc (suc (suc (suc (suc k))))) t h x = absurd (omega arith)

-- What the parser of level `k` goes on with, having read the value `v`: parse_primary returns it, and
-- another level goes on with its loop.
abbrev pub Continues : ℕ → ℕ → ℕ → Cosypy → List Token → ℕ → Run (ℕ × Cosypy) → Type 0
Continues zero b n s rest v r = r ≡ ok (v, at s rest)
Continues (suc k) b n s rest v r =
    (m : ℕ)
    → length rest < m
    → operators (is_op k) (apply_op k) (parser_at k (parse_expr b) n) m v (at s rest) ≡ r

-- The parser of level `k`, with enough fuel, goes from a state to the tokens `rest`, having read
-- the value `v`, and goes on.
abbrev pub Reads : ℕ → ℕ → ℕ → Cosypy → Cosypy → List Token → ℕ → Type 0
Reads k b n s start rest v =
    (r : Run (ℕ × Cosypy)) → Continues k b n s rest v r → parser_at k (parse_expr b) n start ≡ r

pub operators-stop :
    (k b n m : ℕ) (s : Cosypy) (rest : List Token) (v : ℕ)
    → k < 5
    → Stops (suc (suc k)) rest
    → length rest < m
    → operators (is_op k) (apply_op k) (parser_at k (parse_expr b) n) m v (at s rest)
      ≡ ok (v, at s rest)
unfolding operators
operators-stop k b n zero s rest v h t l = absurd (omega arith)
operators-stop k b n (suc m) s [] v h t l =
    rw (is_op-level_of k eof h (λ e. omega arith), operators)
operators-stop k b n (suc m) s (u ∷ rest) v h t l =
    rw (is_op-level_of k u h (λ e. ground (arith, t, e)), operators)

-- What a level reads the next looser one reads, if no operator of it comes next.
lift :
    (k b n : ℕ) (s start : Cosypy) (rest : List Token) (v : ℕ)
    → k < 5
    → Stops (suc k) rest
    → length rest < n
    → Reads k b n s start rest v
    → Reads (suc k) b n s start rest v
unfolding parser_at
lift zero b n s start rest v h t l reads r c = rw (reads (ok (v, at s rest)) refl) (c n l)
lift (suc k) b n s start rest v h t l reads r c =
    rw (reads (ok (v, at s rest)) (λ m lm. operators-stop k b n m s rest v (omega arith) t lm))
      (c n l)

pub Stops-weaken : (k : ℕ) (rest : List Token) → Stops (suc k) rest → Stops k rest
Stops-weaken k [] t = tt
Stops-weaken k (u ∷ rest) (p, inl z) = (p, inl z)
Stops-weaken k (u ∷ rest) (p, inr l) = (p, inr (omega arith))

pub lift_to :
    (j k b n : ℕ) (s start : Cosypy) (rest : List Token) (v : ℕ)
    → k ≤ 5
    → j ≤ k
    → Stops k rest
    → length rest < n
    → Reads j b n s start rest v
    → Reads k b n s start rest v
lift_to zero zero b n s start rest v h l t q reads = reads
lift_to (suc j) zero b n s start rest v h l t q reads = absurd (omega arith)
lift_to j (suc k) b n s start rest v h l t q reads = elim (ℕ_discrete j (suc k)) [
  | yes e ↦ subst (λ i. Reads i b n s start rest v) e reads
  | no x ↦
      lift k b n s start rest v (omega arith) t q
        (lift_to j k b n s start rest v (omega arith) (omega arith) (Stops-weaken k rest t) q reads)
]

pub after :
    {A : Type 0} (s : Cosypy) (t : Token) (ts : List Token) (f : Unit {0} → M A)
    → AllPrintable ts
    → bind (advance (at s (t ∷ ts))) f ≡ f tt (at s ts)
after s t ts f p = ap (λ r. bind r f) (advance-at s t ts p)
