-- ===== src/Cosypy/Statement/Evaluate.antt =====
-- kernel/cospy.c: the value of an expression in a text.
use os_u.Prelude.{
  ◌^◌, ℕ, suc, ◌+◌, ◌<◌, ◌≡◌, inl, refl, sym, ◌∙◌, ap, some, List, [], ◌∷◌, ◌++◌, arith, neg32,
}
use os_u.Cosypy.Lexer.{Token, num, next_token, token_at, skip_whitespace}
use os_u.Cosypy.Lexer.Spell.{show}
use os_u.Cosypy.Lexer.Print.{next_token-show}
use os_u.Cosypy.State.{Cosypy, Run, ok, bind}
use os_u.Cosypy.Parser.{primary_of, parse_primary, parse_expr, size, parse}
use os_u.Cosypy.Expr.{Expr, eval, tokens, IsPrintable}
use os_u.Cosypy.Parser.Levels.{at, AllPrintable, parser_at, lift_to}
use os_u.Cosypy.Parser.Printed.{tokens-AllPrintable}
use os_u.Cosypy.Lexer.Print.{next_token-number, next_token-negative}
use os_u.Cosypy.Parser.RoundTrip.{parse-tokens, parse_expr-Reads}
use os_u.Vga.{dec_text}
use os_u.Cosypy.Statement.{start_at, evaluate}

-- On printed tokens, the start of a line makes the first one the current token.
pub start_at-show :
    (s : Cosypy) (ts : List Token) → AllPrintable ts → start_at (show ts) s ≡ ok (tt, at s ts)
unfolding next_token show token_at skip_whitespace
start_at-show s [] p = refl
start_at-show s (t ∷ ts) p =
    let state : Token × List ℕ → Run (Unit {0} × Cosypy) =
      λ r. ok (tt, record s { cursor = r.1; token = r.0 }) in
    ap state (next_token-show t ts p.0)

-- The value of an expression in a text, printed with a blank in front of each token and with
-- parentheses only where the precedence of the operators and their association to the left want
-- them, is the expression's value, and nothing but the place in the text changes. The expression has
-- printable names and literals, and its value needs no division by 0.
pub evaluate-show :
    (e : Expr) (s : Cosypy) (v : ℕ)
    → IsPrintable e
    → eval s.vars e ≡ some v
    → evaluate (show (tokens 5 e [])) s ≡ ok (v, at s [])
unfolding evaluate
evaluate-show e s v pe h =
    ap (λ r. bind r (λ _. parse))
      (start_at-show s (tokens 5 e []) (tokens-AllPrintable 5 e [] pe tt))
    ∙ parse-tokens e s [] v pe tt tt h

-- At a number in front of a minus and digits, parse stops behind the number.
parse_difference :
    (a b : ℕ) (s : Cosypy)
    → b < 2 ^ 32
    → parse (record s { cursor = b'-' ∷ dec_text b; token = num a })
      ≡ ok (a, at s (num (neg32 b) ∷ []))
unfolding parse parser_at parse_primary primary_of show
parse_difference a b s h =
    let start = record s { cursor = b'-' ∷ dec_text b; token = num a } in
    let n = size start in
    let rest = num (neg32 b) ∷ [] in
    let state : Token × List ℕ → Run (ℕ × Cosypy) =
      λ r. ok (a, record s { cursor = r.1; token = r.0 }) in
    let primary : parse_primary (parse_expr n) (suc n) start ≡ ok (a, at s rest) =
      ap state (next_token-negative b h) in
    rw (add_one n) (
      parse_expr-Reads n s start rest a (refl, inl refl)
        (lift_to 0 5 n (suc n) s start rest a (omega arith) (omega arith) (refl, inl refl)
          (omega arith) (λ r c. primary ∙ sym c)))
  where
    add_one : (n : ℕ) → n + 1 ≡ suc n
    add_one n = omega arith

-- The text of the difference of two decimal literals of 32 bits, with no blank around its minus, has
-- the value of its first operand: the minus is read as the sign of the second, and the expression
-- ends in front of it.
pub evaluate_difference :
    (a b : ℕ) (s : Cosypy)
    → a < 2 ^ 32
    → b < 2 ^ 32
    → evaluate (dec_text a ++ b'-' ∷ dec_text b) s ≡ ok (a, at s (num (neg32 b) ∷ []))
unfolding evaluate
evaluate_difference a b s ha hb =
    let state : Token × List ℕ → Run (ℕ × Cosypy) =
      λ r. parse (record s { cursor = r.1; token = r.0 }) in
    ap state (next_token-number a (b'-' ∷ dec_text b) ha refl) ∙ parse_difference a b s hb
