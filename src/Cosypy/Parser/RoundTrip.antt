-- ===== src/Cosypy/Parser/RoundTrip.antt =====
-- kernel/cospy.c: the parser gives printed expressions their values.
use os_u.Prelude.{
  ℕ, zero, suc, ◌+◌, ◌≤◌, ◌<◌, ◌≡◌, inl, inr, refl, sym, ◌∙◌, ap, some, List, ◌∷◌, length, leb,
  arith, Bool-cases, neg32,
}
use mathlib.Core.Path.{subst}
use os_u.Cosypy.Lexer
use os_u.Cosypy.Lexer.{
  Token, eof, num, str, ident, plus, minus, star, slash, percent, eq, eqeq, ne, lt, gt, le, ge,
  lparen, rparen, colon, comma, is, next_token, token_at, skip_whitespace,
}
use os_u.Cosypy.State.{Cosypy, M, ok, get_var}
use os_u.Cosypy.Parser.{not32, value_or_zero, parse_primary, parse_expr, size, parse}
use os_u.Cosypy.Expr.{
  Op, Expr, lit, var, neg, flip, bin, sign, tier, apply_to, eval, tokens, IsPrintable,
}
use os_u.Cosypy.Parser.Levels.{
  at, AllPrintable, parser_at, parse_or-parser_at, Stops, Reads, operators-stop, Stops-weaken,
  lift_to,
}
use os_u.Cosypy.Parser.Steps.{
  binary-Reads, primary-lit, primary-var, primary-neg, primary-flip, primary-paren,
}
use os_u.Cosypy.Parser.Printed.{
  length-tokens, sign-Printable, tokens-AllPrintable, Stops-sign, tier-lt, apply_to-some,
  neg_of-some, flip_of-some, some-injective, Stops-zero, Stops-le, size-at, body, tokens-plain,
  tokens-paren,
}

-- The tokens of an expression are read with its value, by the parser of every level that they are
-- printed for.
abbrev Correct : Expr → Type 0
Correct e =
    (k b n : ℕ) (s : Cosypy) (rest : List Token) (v : ℕ)
    → k ≤ 5
    → IsPrintable e
    → AllPrintable rest
    → Stops k rest
    → eval s.vars e ≡ some v
    → length (tokens k e rest) < n
    → n ≤ suc b
    → Reads k b n s (at s (tokens k e rest)) rest v

Reads-primary :
    (k b n : ℕ) (s start : Cosypy) (rest : List Token) (a v : ℕ)
    → k ≤ 5
    → Stops k rest
    → length rest < n
    → parse_primary (parse_expr b) n start ≡ ok (a, at s rest)
    → a ≡ v
    → Reads k b n s start rest v
unfolding parser_at
Reads-primary k b n s start rest a v h t l q e =
    lift_to 0 k b n s start rest v h (omega arith) t l
      (λ r c. q ∙ ap (λ x. ok (x, at s rest)) e ∙ sym c)

primary_at :
    (b n : ℕ) (s : Cosypy) (ts rest : List Token) (a : ℕ)
    → Reads 0 b n s (at s ts) rest a
    → parse_primary (parse_expr b) n (at s ts) ≡ ok (a, at s rest)
unfolding parser_at
primary_at b n s ts rest a reads = reads (ok (a, at s rest)) refl

-- The body of a binary expression, without parentheses.
bin-Reads :
    (o : Op) (l r : Expr)
    → Correct l
    → Correct r
    → (b n : ℕ) (s : Cosypy) (rest : List Token) (v : ℕ) → IsPrintable l
    → IsPrintable r
    → AllPrintable rest
    → Stops (suc (tier o)) rest
    → apply_to o (eval s.vars l) (eval s.vars r) ≡ some v
    → length (tokens (suc (tier o)) l (sign o ∷ tokens (tier o) r rest)) < n
    → n ≤ suc b
    → Reads
        (suc (tier o))
        b
        n
        s
        (at s (tokens (suc (tier o)) l (sign o ∷ tokens (tier o) r rest)))
        rest
        v
bin-Reads o l r cl cr b n s rest v pl pr p t h len nb =
    let (a, w, el, er, q) = apply_to-some o (eval s.vars l) (eval s.vars r) v h in
    let rs = tokens (tier o) r rest in
    let prs = tokens-AllPrintable (tier o) r rest pr p in
    let longer = length-tokens (suc (tier o)) l (sign o ∷ rs) in
    binary-Reads o b n s (at s (tokens (suc (tier o)) l (sign o ∷ rs))) rs rest a w v (tier-lt o)
      prs t (omega (arith, length-tokens (tier o) r rest))
      (cl (suc (tier o)) b n s (sign o ∷ rs) a (omega (arith, tier-lt o)) pl (sign-Printable o, prs)
        (Stops-sign o rs) el len nb)
      (cr (tier o) b n s rest w (omega (arith, tier-lt o)) pr p (Stops-weaken (tier o) rest t) er
        (omega (arith, longer, len)) nb)
      q

-- parse_expr reads an expression up to a right parenthesis or the end.
pub parse_expr-Reads :
    (b : ℕ) (s start : Cosypy) (rest : List Token) (v : ℕ)
    → Stops 6 rest
    → Reads 5 b (suc b) s start rest v
    → parse_expr (suc b) start ≡ ok (v, at s rest)
unfolding parse_expr
parse_expr-Reads b s start rest v t reads =
    ap (λ (p : M ℕ). p start) (parse_or-parser_at (parse_expr b) (suc b))
    ∙ reads (ok (v, at s rest)) (λ m l. operators-stop 4 b (suc b) m s rest v (omega arith) t l)

-- A binary expression in parentheses is a primary.
paren-Reads :
    (o : Op) (l r : Expr)
    → Correct l
    → Correct r
    → (b n : ℕ) (s : Cosypy) (rest : List Token) (v : ℕ) → IsPrintable l
    → IsPrintable r
    → AllPrintable rest
    → apply_to o (eval s.vars l) (eval s.vars r) ≡ some v
    → length (body o l r (rparen ∷ rest)) < n
    → n ≤ b
    → parse_primary (parse_expr b) (suc n) (at s (lparen ∷ body o l r (rparen ∷ rest)))
      ≡ ok (v, at s rest)
paren-Reads o l r cl cr zero n s rest v pl pr p h len nb = absurd (omega (arith, len, nb))
paren-Reads o l r cl cr (suc b) n s rest v pl pr p h len nb =
    let ts = body o l r (rparen ∷ rest) in
    let pts : AllPrintable ts =
      tokens-AllPrintable (suc (tier o)) l _ pl
        (sign-Printable o, tokens-AllPrintable (tier o) r (rparen ∷ rest) pr (tt, p)) in
    let longer : length (rparen ∷ rest) < suc b = omega (
      arith,
      length-tokens (suc (tier o)) l (sign o ∷ tokens (tier o) r (rparen ∷ rest)),
      length-tokens (tier o) r (rparen ∷ rest),
      len,
      nb,
    ) in
    primary-paren (parse_expr (suc b)) n s ts rest pts v p (
      parse_expr-Reads b s (at s ts) (rparen ∷ rest) v (refl, inl refl)
        (lift_to (suc (tier o)) 5 b (suc b) s (at s ts) (rparen ∷ rest) v (omega arith)
          (omega (arith, tier-lt o)) (refl, inl refl) longer
          (bin-Reads o l r cl cr b (suc b) s (rparen ∷ rest) v pl pr (tt, p) (refl, inl refl) h
            (omega (arith, len, nb)) (omega arith))))

bin-Correct : (o : Op) (l r : Expr) → Correct l → Correct r → Correct (bin o l r)
unfolding eval
bin-Correct o l r cl cr k b zero s rest v h pe p t ev len nb = absurd (omega arith)
bin-Correct o l r cl cr k b (suc n) s rest v h pe p t ev len nb =
    elim (Bool-cases (leb (suc (tier o)) k)) [
      | inl e ↦
          let q = tokens-plain k o l r rest e in
          let tight : suc (tier o) ≤ k = ground (arith, e) in
          let len' : length (body o l r rest) < suc n = omega (arith, len, ap (length {0}) q) in
          subst (λ ts. Reads k b (suc n) s (at s ts) rest v) (sym q)
            (lift_to (suc (tier o)) k b (suc n) s (at s (body o l r rest)) rest v h tight t
              (omega (arith, len, length-tokens k (bin o l r) rest))
              (bin-Reads o l r cl cr b (suc n) s rest v pe.0 pe.1 p
                (Stops-le (suc (tier o)) k rest tight t) ev len' nb))
      | inr e ↦
          let q = tokens-paren k o l r rest e in
          let len' : length (body o l r (rparen ∷ rest)) < n =
            omega (arith, len, ap (length {0}) q) in
          subst (λ ts. Reads k b (suc n) s (at s ts) rest v) (sym q)
            (Reads-primary k b (suc n) s (at s (lparen ∷ body o l r (rparen ∷ rest))) rest v v h t
              (omega (arith, len, length-tokens k (bin o l r) rest))
              (paren-Reads o l r cl cr b n s rest v pe.0 pe.1 p ev len' (omega arith)) refl)
    ]

Expr-Correct : (e : Expr) → Correct e
unfolding eval tokens
Expr-Correct e k b zero s rest v h pe p t ev len nb = absurd (omega arith)
Expr-Correct (lit x) k b (suc n) s rest v h pe p t ev len nb =
    Reads-primary k b (suc n) s (at s (num x ∷ rest)) rest x v h t (omega arith)
      (primary-lit (parse_expr b) n s rest p x) (some-injective x v ev)
Expr-Correct (var x) k b (suc n) s rest v h pe p t ev len nb =
    Reads-primary k b (suc n) s (at s (ident x ∷ rest)) rest (value_or_zero (get_var s.vars x)) v h
      t (omega arith) (primary-var (parse_expr b) n s rest p x (Stops-zero k rest t))
      (some-injective (value_or_zero (get_var s.vars x)) v ev)
Expr-Correct (neg e) k b (suc n) s rest v h pe p t ev len nb =
    let (a, ea, q) = neg_of-some (eval s.vars e) v ev in
    let inner = primary_at b n s (tokens 0 e rest) rest a (
      Expr-Correct e 0 b n s rest a (omega arith) pe p (Stops-zero k rest t) ea (omega arith)
        (omega arith)) in
    Reads-primary k b (suc n) s (at s (minus ∷ tokens 0 e rest)) rest (neg32 a) v h t
      (omega (arith, length-tokens 0 e rest, len))
      (primary-neg (parse_expr b) n s (tokens 0 e rest) rest (tokens-AllPrintable 0 e rest pe p) a
        inner)
      q
Expr-Correct (flip e) k b (suc n) s rest v h pe p t ev len nb =
    let (a, ea, q) = flip_of-some (eval s.vars e) v ev in
    let inner = primary_at b n s (tokens 0 e rest) rest a (
      Expr-Correct e 0 b n s rest a (omega arith) pe p (Stops-zero k rest t) ea (omega arith)
        (omega arith)) in
    Reads-primary k b (suc n) s (at s (Lexer.not ∷ tokens 0 e rest)) rest (not32 a) v h t
      (omega (arith, length-tokens 0 e rest, len))
      (primary-flip (parse_expr b) n s (tokens 0 e rest) rest (tokens-AllPrintable 0 e rest pe p) a
        inner)
      q
Expr-Correct (bin o l r) k b (suc n) s rest v h pe p t ev len nb =
    bin-Correct o l r (Expr-Correct l) (Expr-Correct r) k b (suc n) s rest v h pe p t ev len nb

-- From the current token of a state that stands at the tokens of an expression, parse gives the
-- expression's value and stops at the tokens behind it, which begin with no operator and no left
-- parenthesis, and nothing else changes. The expression has printable names and literals and its value needs no division by
-- 0; the tokens are printed with a blank in front of each, and with parentheses only where the
-- precedence of the operators and their association to the left want them.
pub parse-tokens :
    (e : Expr) (s : Cosypy) (rest : List Token) (v : ℕ)
    → IsPrintable e
    → AllPrintable rest
    → Stops 6 rest
    → eval s.vars e ≡ some v
    → parse (at s (tokens 5 e rest)) ≡ ok (v, at s rest)
unfolding parse
parse-tokens e s rest v pe p t ev =
    let n = size (at s (tokens 5 e rest)) in
    rw (add_one n) (
      parse_expr-Reads n s (at s (tokens 5 e rest)) rest v t (
        Expr-Correct e 5 n (suc n) s rest v (omega arith) pe p (Stops-weaken 5 rest t) ev
          (omega (arith, size-at s (tokens 5 e rest) (tokens-AllPrintable 5 e rest pe p)))
          (omega arith)))
  where
    add_one : (n : ℕ) → n + 1 ≡ suc n
    add_one n = omega arith
