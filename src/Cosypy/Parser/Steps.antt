-- ===== src/Cosypy/Parser/Steps.antt =====
-- kernel/cospy.c: an operator between two operands, and the primaries, are read.
use os_u.Prelude.{ℕ, zero, suc, ◌≤◌, ◌<◌, ◌≡◌, refl, ◌∙◌, some, List, [], ◌∷◌, length, arith, neg32}
use os_u.Cosypy.Lexer
use os_u.Cosypy.Lexer.{
  Token, eof, num, str, ident, plus, minus, star, slash, percent, eq, eqeq, ne, lt, gt, le, ge,
  lparen, rparen, colon, comma, is, next_token, token_at, skip_whitespace,
}
use os_u.Cosypy.State.{Cosypy, M, ok, ◌>>=◌, ◌>>◌, pure, get_var}
use os_u.Cosypy.Parser.{
  not32, value_or_zero, accept_rparen, parse_name, primary_of, parse_primary, operators, parse_expr,
}
use os_u.Cosypy.Expr.{Op, sign, tier, apply}
use os_u.Cosypy.Parser.Levels.{
  at, AllPrintable, is_op, apply_op, parser_at, Stops, apply_op-sign, is_op-sign, Continues, Reads,
  operators-stop, after,
}

-- An operator and its right operand, in the loop of the operator's level.
operators-step :
    (o : Op) (b n m : ℕ) (s : Cosypy) (ts rest : List Token) (a w v : ℕ)
    → AllPrintable ts
    → parser_at (tier o) (parse_expr b) n (at s ts) ≡ ok (w, at s rest)
    → apply o a w ≡ some v
    → operators
        (is_op (tier o))
        (apply_op (tier o))
        (parser_at (tier o) (parse_expr b) n)
        (suc m)
        a
        (at s (sign o ∷ ts))
      ≡ operators
          (is_op (tier o))
          (apply_op (tier o))
          (parser_at (tier o) (parse_expr b) n)
          m
          v
          (at s rest)
unfolding operators
operators-step o b n m s ts rest a w v p q h =
    let operand = parser_at (tier o) (parse_expr b) n in
    let go_on : M ℕ = (do
      right ← operand
      value ← apply_op (tier o) (sign o) a right
      operators (is_op (tier o)) (apply_op (tier o)) operand m value) in
    rw (is_op-sign o, operators)
      (after s (sign o) ts (λ _. go_on) p ∙ rw (q, apply_op-sign o a w v (at s rest) h))

pub Stops-at_tier :
    (k b n : ℕ) (s : Cosypy) (rest : List Token) (v : ℕ)
    → k < 5
    → Stops (suc k) rest
    → Continues k b n s rest v (ok (v, at s rest))
Stops-at_tier zero b n s rest v h t = refl
Stops-at_tier (suc k) b n s rest v h t = λ m l. operators-stop k b n m s rest v (omega arith) t l

-- An operator between operands that are read is read.
pub binary-Reads :
    (o : Op) (b n : ℕ) (s start : Cosypy) (rs rest : List Token) (a w v : ℕ)
    → tier o < 5
    → AllPrintable rs
    → Stops (suc (tier o)) rest
    → length rest ≤ length rs
    → Reads (suc (tier o)) b n s start (sign o ∷ rs) a
    → Reads (tier o) b n s (at s rs) rest w
    → apply o a w ≡ some v
    → Reads (suc (tier o)) b n s start rest v
binary-Reads o b n s start rs rest a w v h p t l left right q r c = left r loop
  where
    loop :
        (m : ℕ)
        → length (sign o ∷ rs) < m
        → operators
            (is_op (tier o))
            (apply_op (tier o))
            (parser_at (tier o) (parse_expr b) n)
            m
            a
            (at s (sign o ∷ rs))
          ≡ r
    loop zero lm = absurd (omega arith)
    loop (suc m) lm =
        operators-step o b n m s rs rest a w v p
          (right (ok (w, at s rest)) (Stops-at_tier (tier o) b n s rest w h t)) q
        ∙ c m (omega arith)

-- The primaries.
vars-at : (s : Cosypy) (ts : List Token) → (at s ts).vars ≡ s.vars
vars-at s [] = refl
vars-at s (t ∷ ts) = refl

parse_name-at :
    (n : ℕ) (x : List ℕ) (s : Cosypy) (rest : List Token)
    → Stops zero rest
    → parse_name n x (at s rest) ≡ ok (value_or_zero (get_var s.vars x), at s rest)
unfolding parse_name
parse_name-at n x s [] t = refl
parse_name-at n x s (u ∷ rest) t = rw (t.0, parse_name)

module _ (self : M ℕ) (n : ℕ) (s : Cosypy) (rest : List Token) (p : AllPrintable rest) where
  pub primary-lit : (v : ℕ) → parse_primary self (suc n) (at s (num v ∷ rest)) ≡ ok (v, at s rest)
  unfolding parse_primary primary_of
  primary-lit v = after s (num v) rest (λ _. pure v) p

  pub primary-var :
      (x : List ℕ)
      → Stops zero rest
      → parse_primary self (suc n) (at s (ident x ∷ rest))
        ≡ ok (value_or_zero (get_var s.vars x), at s rest)
  unfolding parse_primary primary_of
  primary-var x t = after s (ident x) rest (λ _. parse_name n x) p ∙ parse_name-at n x s rest t

module _ (self : M ℕ) (n : ℕ) (s : Cosypy) (ts rest : List Token) (p : AllPrintable ts)
    (a : ℕ) where
  pub primary-neg :
      parse_primary self n (at s ts) ≡ ok (a, at s rest)
      → parse_primary self (suc n) (at s (minus ∷ ts)) ≡ ok (neg32 a, at s rest)
  unfolding parse_primary primary_of
  primary-neg q = after s minus ts (λ _. (do v ← parse_primary self n; pure (neg32 v))) p ∙ rw q

  pub primary-flip :
      parse_primary self n (at s ts) ≡ ok (a, at s rest)
      → parse_primary self (suc n) (at s (Lexer.not ∷ ts)) ≡ ok (not32 a, at s rest)
  unfolding parse_primary primary_of
  primary-flip q =
      after s Lexer.not ts (λ _. (do v ← parse_primary self n; pure (not32 v))) p ∙ rw q

  pub primary-paren :
      AllPrintable rest
      → self (at s ts) ≡ ok (a, at s (rparen ∷ rest))
      → parse_primary self (suc n) (at s (lparen ∷ ts)) ≡ ok (a, at s rest)
  unfolding parse_primary primary_of
  primary-paren pr q =
      after s lparen ts (λ _. (do v ← self; accept_rparen; pure v)) p
      ∙ rw q (after s rparen rest (λ _. pure a) pr)
