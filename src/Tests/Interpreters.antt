-- ===== src/Tests/Interpreters.antt =====
-- Inputs of kernel/lang.c and kernel/cospy.c.
use os_u.Prelude.{
  ℕ, ◌+◌, ◌≤◌, ◌<◌, ◌≡◌, refl, true, false, some, List, [], ◌∷◌, ◌++◌, arith, codes, neg32,
}
use os_u.Cstring.{strcmp, strlen, strncmp}
use os_u.Vga.{dec_digits, dec_text}
use os_u.Forth
use os_u.Forth.{run_line, exec}
use os_u.Forth.Stack.{left, contents}
use os_u.Forth.Postfix
use os_u.Forth.Postfix.{postfix, run_line-postfix}
use os_u.Cosypy.Lexer.{keyword, eof, num}
use os_u.Cosypy.Lexer.Spell.{show, IsName}
use os_u.Cosypy.State.{replace_var, Cosypy, ok, get_var, set_var}
use os_u.Cosypy.Parser.{parse, size}
use os_u.Cosypy.Parser.Primary.{Ends}
use os_u.Cosypy.Parser.Ends.{parse_total}
use os_u.Cosypy.Parser.Levels.{at}
use os_u.Cosypy.Expr
use os_u.Cosypy.Expr.{Expr, tokens, IsPrintable}
use os_u.Cosypy.Statement.{skip_indent, evaluate, run_lines, execute_statement}
use os_u.Cosypy.Statement.Evaluate.{evaluate-show, evaluate_difference}
use os_u.Cosypy.Statement.Programs.{IsOrdinary, assignment, assigned, program, run_lines-program}
use os_u.Cosypy.Statement.Blocks.{Balanced, no_lines, plain, block_else, skips-Balanced}
use os_u.Cosypy.Statement.InnerIf.{if_text, endif_keeps_skipping}

abbrev two_values : Forth.Forth
two_values = record { stack = λ i. i + 3; sp = 2 }

-- 7 3 - 2 *
abbrev product : Postfix.Expr
product =
    Postfix.bin Postfix.times (Postfix.bin Postfix.minus (Postfix.lit 7) (Postfix.lit 3))
      (Postfix.lit 2)

product_value : Postfix.eval product ≡ some 8
unfolding Postfix.eval
product_value = refl

product-depth : 2 + Postfix.depth product ≤ 128
unfolding Postfix.depth
product-depth = omega arith

run_line-postfix_example :
    left (run_line 0 two_values (postfix product [])) ≡ some (8 ∷ contents two_values)
run_line-postfix_example =
    run_line-postfix 0 product two_values 8 ((omega arith, omega arith), omega arith) product_value
      product-depth

abbrev letter_x : List ℕ
letter_x = codes "x"

abbrev start : Cosypy
start = record {
  cursor = [];
  token = eof;
  vars = (codes "x", 5) ∷ [];
  functions = [];
  in_if_false = false;
  if_depth = 1;
  while_depth = 0;
  while_cond = [];
  defining_function = false;
  current_func_idx = 0;
  keys = [];
  out = [];
}

-- (x + 1) * 3
abbrev sum : Expr
sum = Expr.bin Expr.times (Expr.bin Expr.add (Expr.var letter_x) (Expr.lit 1)) (Expr.lit 3)

sum_value : Expr.eval start.vars sum ≡ some 18
unfolding Expr.eval get_var strcmp
sum_value = refl

x-IsName : IsName letter_x
unfolding strcmp keyword
x-IsName = (refl, tt, omega arith, refl)

abbrev sum_printable : IsPrintable sum
sum_printable = ((x-IsName, omega arith), omega arith)

evaluate-show_example : evaluate (show (tokens 5 sum [])) start ≡ ok (18, at start [])
evaluate-show_example = evaluate-show sum start 18 sum_printable sum_value

parse_total_example : Ends (size start) (parse start)
parse_total_example = parse_total start

evaluate_difference_example :
    evaluate (dec_text 5 ++ b'-' ∷ dec_text 3) start ≡ ok (5, at start (num (neg32 3) ∷ []))
evaluate_difference_example = evaluate_difference 5 3 start (omega arith) (omega arith)

x_fits : strlen letter_x < 16
unfolding strlen
x_fits = omega arith

abbrev skipping : Cosypy
skipping = record start { in_if_false = true }

abbrev skipped_lines : List (List ℕ)
skipped_lines = codes "if x" ∷ codes " y = 1" ∷ codes "else:" ∷ codes " y = 1" ∷ codes "endif" ∷ []

abbrev inner_lines : List (List ℕ)
inner_lines = codes " y = 1" ∷ []

inner_Balanced : Balanced inner_lines
unfolding skip_indent strncmp
inner_Balanced = plain (refl, refl, refl, refl) no_lines

skipped_Balanced : Balanced skipped_lines
unfolding skip_indent strncmp
skipped_Balanced =
    block_else (codes "if x") (codes "x") (codes "else:") (codes ":") (codes "endif") [] inner_lines
      inner_lines [] refl inner_Balanced refl refl inner_Balanced refl no_lines

skips-Balanced_example : run_lines (execute_statement 1) skipped_lines skipping ≡ ok (tt, skipping)
skips-Balanced_example =
    skips-Balanced 0 skipped_lines skipping skipped_Balanced
      (record { skips = refl; inside = omega arith; no_function = refl })

never_value : Expr.eval start.vars (Expr.lit 0) ≡ some 0
unfolding Expr.eval
never_value = refl

-- The inner if and its endif, and an assignment behind them.
endif_keeps_skipping_example :
    (t : Cosypy) × (run_lines
        (execute_statement 1)
        (if_text (Expr.lit 0) ∷ codes "endif" ∷ inner_lines)
        start
      ≡ ok (tt, t))
    × (t.in_if_false ≡ true)
    × (t.if_depth ≡ start.if_depth)
    × (t.vars ≡ start.vars)
    × (t.out ≡ start.out)
    × (t.keys ≡ start.keys)
endif_keeps_skipping_example =
    endif_keeps_skipping 0 (Expr.lit 0) inner_lines start (omega arith)
      (record { runs = refl; no_function = refl }) (omega arith) never_value inner_Balanced

abbrev double : Expr
double = Expr.bin Expr.times (Expr.var (codes "y")) (Expr.lit 2)

-- y = (x + 1) * 3 and x = y * 2
abbrev two_lines : List (List ℕ × Expr)
two_lines = (codes "y", sum) ∷ (letter_x, double) ∷ []

y-IsName : IsName (codes "y")
unfolding strcmp keyword
y-IsName = (refl, tt, omega arith, refl)

first-IsOrdinary : IsOrdinary (skip_indent (assignment (codes "y", sum)))
unfolding skip_indent show tokens dec_text dec_digits strncmp
first-IsOrdinary = ((refl, refl, refl, refl), refl, refl, refl, refl)

second-IsOrdinary : IsOrdinary (skip_indent (assignment (letter_x, double)))
unfolding skip_indent show tokens dec_text dec_digits strncmp
second-IsOrdinary = ((refl, refl, refl, refl), refl, refl, refl, refl)

abbrev new_vars : List (List ℕ × ℕ)
new_vars = (letter_x, 36) ∷ (codes "y", 18) ∷ []

two_lines-assigned : assigned two_lines start.vars ≡ some new_vars
unfolding assigned Expr.eval get_var set_var replace_var strcmp strlen
two_lines-assigned = refl

run_lines-program_example :
    (t : Cosypy) × (run_lines (execute_statement 1) (program two_lines) start ≡ ok (tt, t))
    × (t.vars ≡ new_vars)
    × (t.out ≡ start.out)
    × (t.keys ≡ start.keys)
    × (t.functions ≡ start.functions)
run_lines-program_example =
    run_lines-program 0 two_lines start new_vars
      (
        y-IsName,
        sum_printable,
        first-IsOrdinary,
        (x-IsName, (y-IsName, omega arith), second-IsOrdinary, tt),
      )
      (record { runs = refl; no_function = refl }) two_lines-assigned
