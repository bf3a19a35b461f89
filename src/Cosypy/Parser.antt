-- ===== src/Cosypy/Parser.antt =====
-- kernel/cospy.c: the expression parser, which evaluates as it reads. Where the functions call one
-- another in a circle, `self` is the call of parse_expr; fuel bounds the loops and the calls.
pub mod Primary
pub mod Ends
pub mod Levels
pub mod Steps
pub mod Printed
pub mod RoundTrip
use os_u.Prelude.{
  ℕ, zero, suc, ◌+◌, ◌^◌, Bool, true, false, ◌&&◌, ◌||◌, Option, none, some, List, [], ◌∷◌, ◌++◌,
  length, ltb, ◌==◌, if◌then◌else◌, codes, neg32, add32, sub32, mul32, div32, mod32, lt32, traps,
}
use os_u.Cstring.{strcmp, strlen}
use os_u.Cosypy.Lexer
use os_u.Cosypy.Lexer.{
  Token, eof, num, str, ident, plus, minus, star, slash, percent, eqeq, ne, lt, gt, le, ge, lparen,
  rparen, is,
}
use os_u.Cosypy.State.{
  Cosypy, M, Run, ok, stop, out_of_fuel, traps_at, bind, ◌>>=◌, ◌>>◌, pure, halt, advance, put_text,
  get_var, read_input,
}

-- The truth values of C.
abbrev pub truth : Bool → ℕ
truth b = if b then 1 else 0

abbrev pub not32 : ℕ → ℕ
not32 v = truth (v == 0)

-- `if (current_token == TOK_RPAREN) next_token();`
abbrev pub accept_rparen : M (Unit {0})
accept_rparen s = if is s.token rparen then advance s else ok (tt, s)

-- The loop over the arguments of a call, which are skipped.
unfoldable pub skip_args : ℕ → M (Unit {0})
skip_args zero = halt out_of_fuel
skip_args (suc n) = λ s. elim (is s.token rparen || is s.token eof) [
  | true ↦ ok (tt, s)
  | false ↦ (do advance; skip_args n) s
]

abbrev pub value_or_zero : Option ℕ → ℕ
value_or_zero none = 0
value_or_zero (some v) = v

-- A call: input() reads a number, and every other function is 0.
unfoldable pub parse_call : ℕ → List ℕ → M ℕ
unfolding skip_args
parse_call n name = do
  advance
  skip_args n
  accept_rparen
  if strcmp name (codes "input") == 0 then read_input else pure 0

-- What follows an identifier: a call, or the value of the variable, 0 if there is none.
unfoldable pub parse_name : ℕ → List ℕ → M ℕ
unfolding parse_call
parse_name n name = λ s.
    if is s.token lparen then parse_call n name s else ok (value_or_zero (get_var s.vars name), s)

-- `parse_primary`, by the current token; `again` is its call of itself.
unfoldable pub primary_of : M ℕ → M ℕ → ℕ → Token → M ℕ
primary_of self again n (num v) = do advance; pure v
primary_of self again n (str t) = do advance; pure (strlen t)
primary_of self again n (ident name) = do advance; parse_name n name
primary_of self again n lparen = do advance; v ← self; accept_rparen; pure v
primary_of self again n minus = do advance; v ← again; pure (neg32 v)
primary_of self again n Lexer.not = do advance; v ← again; pure (not32 v)
primary_of self again n t = pure 0

unfoldable pub parse_primary : M ℕ → ℕ → M ℕ
unfolding primary_of parse_name
parse_primary self zero = halt out_of_fuel
parse_primary self (suc n) = λ s. primary_of self (parse_primary self n) n s.token s

-- The loops over operators of one level: `is_op` tests the current token, `apply` computes, and
-- `operand` parses the next level.
unfoldable pub operators : (Token → Bool) → (Token → ℕ → ℕ → M ℕ) → M ℕ → ℕ → ℕ → M ℕ
operators is_op apply operand zero left = halt out_of_fuel
operators is_op apply operand (suc n) left = λ s. elim (is_op s.token) [
  | true ↦
      (do advance; right ← operand; v ← apply s.token left right; operators is_op apply operand n v)
        s
  | false ↦ ok (left, s)
]

abbrev pub level : (Token → Bool) → (Token → ℕ → ℕ → M ℕ) → M ℕ → ℕ → M ℕ
level is_op apply operand n = do left ← operand; operators is_op apply operand n left

abbrev pub is_term : Token → Bool
is_term t = is t star || is t slash || is t percent

-- Division by 0 prints a message and gives 0; the remainder by 0 is 0.
unfoldable pub apply_term : Token → ℕ → ℕ → M ℕ
apply_term t left right =
    if is t star
    then pure (mul32 left right)
    else if is t slash
    then (if right == 0
        then (do put_text (codes "division by zero\n"); pure 0)
        else if traps left right
        then halt traps_at
        else pure (div32 left right))
    else if right == 0
    then pure 0
    else if traps left right
    then halt traps_at
    else pure (mod32 left right)

unfoldable pub parse_term : M ℕ → ℕ → M ℕ
parse_term self n = level is_term apply_term (parse_primary self n) n

abbrev pub is_additive : Token → Bool
is_additive t = is t plus || is t minus

abbrev pub apply_additive : Token → ℕ → ℕ → M ℕ
apply_additive t left right = pure (if is t plus then add32 left right else sub32 left right)

unfoldable pub parse_additive : M ℕ → ℕ → M ℕ
parse_additive self n = level is_additive apply_additive (parse_term self n) n

abbrev pub is_comparison : Token → Bool
is_comparison t = is t lt || is t gt || is t le || is t ge || is t eqeq || is t ne

abbrev pub compare32 : Token → ℕ → ℕ → Bool
compare32 t left right =
    if is t lt
    then lt32 left right
    else if is t gt
    then lt32 right left
    else if is t le
    then (if lt32 right left then false else true)
    else if is t ge
    then (if lt32 left right then false else true)
    else if is t eqeq
    then left == right
    else if left == right
    then false
    else true

abbrev pub apply_comparison : Token → ℕ → ℕ → M ℕ
apply_comparison t left right = pure (truth (compare32 t left right))

unfoldable pub parse_comparison : M ℕ → ℕ → M ℕ
parse_comparison self n = level is_comparison apply_comparison (parse_additive self n) n

abbrev pub is_and : Token → Bool
is_and t = is t Lexer.and

abbrev pub apply_and : Token → ℕ → ℕ → M ℕ
apply_and t left right =
    pure (truth (if left == 0 then false else if right == 0 then false else true))

unfoldable pub parse_and : M ℕ → ℕ → M ℕ
parse_and self n = level is_and apply_and (parse_comparison self n) n

abbrev pub is_or : Token → Bool
is_or t = is t Lexer.or

abbrev pub apply_or : Token → ℕ → ℕ → M ℕ
apply_or t left right =
    pure (truth (if left == 0 then (if right == 0 then false else true) else true))

-- The body of parse_expr, for a given call of itself.
unfoldable pub parse_or : M ℕ → ℕ → M ℕ
parse_or self n = level is_or apply_or (parse_and self n) n

-- `parse_expr`
unfoldable pub parse_expr : ℕ → M ℕ
parse_expr zero = halt out_of_fuel
parse_expr (suc n) = parse_or (parse_expr n) (suc n)

-- What is still to be read: the characters, and the current token.
abbrev pub size : Cosypy → ℕ
size s = length s.cursor + (if is s.token eof then 0 else 1)

-- `parse_expr`, with fuel that always suffices.
unfoldable pub parse : M ℕ
parse s = parse_expr (size s + 1) s
