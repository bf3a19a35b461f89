-- ===== src/Cosypy/Statement/InnerIf.antt =====
-- kernel/cospy.c: an if with a false condition inside a block that runs.
use os_u.Prelude.{
  ℕ, suc, ◌+◌, ◌-◌, ◌≤◌, ◌≡◌, refl, ◌∙◌, ap, Bool, true, false, some, List, [], ◌∷◌, ◌++◌, ◌==◌,
  arith, codes, if◌then◌else◌,
}
use os_u.Cosypy.Lexer.Spell.{show}
use os_u.Cstring.{strncmp}
use os_u.Cosypy.State.{Cosypy, M, Run, ok, bind, pure}
use os_u.Cosypy.Parser.Levels.{at}
use os_u.Cosypy.Expr.{Expr, eval, tokens, IsPrintable}
use os_u.Cosypy.Statement.{
  evaluate, skip_indent, end_if, if_line, control_line, goes_on, execute_statement, run_lines,
}
use os_u.Cosypy.Statement.Evaluate.{evaluate-show}
use os_u.Cosypy.Statement.Skip.{IsSkipping, to_control}
use os_u.Cosypy.Statement.Blocks.{Balanced, skips-Balanced}
use os_u.Cosypy.Statement.Programs.{IsRunning}

-- The line of an if with a printed condition.
abbrev pub if_text : Expr → List ℕ
if_text e = codes "if " ++ show (tokens 5 e [])

-- The state behind such a line whose condition is false.
abbrev in_false : Cosypy → Cosypy
in_false s = record (at (record s { if_depth = s.if_depth + 1 }) []) { in_if_false = true }

-- The state behind its endif.
abbrev pub after_block : Cosypy → Cosypy
after_block s = record (at s []) { in_if_false = true }

control_if :
    (execute : List ℕ → M Bool) (c : List ℕ) (s : Cosypy)
    → control_line execute (codes "if " ++ c) s ≡ goes_on (if_line (codes "if " ++ c)) s
unfolding control_line strncmp
control_if execute c s = refl

control_endif :
    (execute : List ℕ → M Bool) (s : Cosypy)
    → control_line execute (codes "endif") s ≡ ok (false, end_if s)
unfolding control_line strncmp
control_endif execute s = refl

if_line-false :
    (e : Expr) (s : Cosypy)
    → IsPrintable e
    → s.in_if_false ≡ false
    → eval s.vars e ≡ some 0
    → if_line (if_text e) s ≡ ok (tt, in_false s)
unfolding if_line
if_line-false e s p f v =
    let deeper : Cosypy = record s { if_depth = s.if_depth + 1 } in
    let outcome : M (Unit {0}) → Bool → Run (Unit {0} × Cosypy) =
      λ m b. if b then ok (tt, deeper) else m deeper in
    let mark : ℕ → M (Unit {0}) =
      λ v s'. ok (tt, if v == 0 then record s' { in_if_false = true } else s') in
    ap (outcome (λ s. bind (evaluate (show (tokens 5 e [])) s) mark)) f
    ∙ ap (λ r. bind r mark) (evaluate-show e deeper 0 p v)

end_if-inner : (s : Cosypy) → 1 ≤ s.if_depth → end_if (in_false s) ≡ after_block s
unfolding end_if
end_if-inner s d =
    let back : Cosypy = record (after_block s) { if_depth = s.if_depth + 1 - 1 } in
    let h : end_if (in_false s) ≡ back = ground (arith, d) in
    h ∙ ap (λ d. record (after_block s) { if_depth = d }) (omega arith)

run_if :
    (n : ℕ) (e : Expr) (s : Cosypy)
    → IsPrintable e
    → IsRunning s
    → eval s.vars e ≡ some 0
    → execute_statement (suc n) (if_text e) s ≡ ok (false, in_false s)
unfolding execute_statement skip_indent
run_if n e s p w v =
    let execute = execute_statement n in
    to_control execute b'i' (codes "f " ++ show (tokens 5 e [])) s refl w.no_function
    ∙ control_if execute (show (tokens 5 e [])) s
    ∙ ap (λ r. bind r (λ _. pure false)) (if_line-false e s p w.runs v)

run_endif :
    (n : ℕ) (s : Cosypy)
    → 1 ≤ s.if_depth
    → s.defining_function ≡ false
    → execute_statement (suc n) (codes "endif") (in_false s) ≡ ok (false, after_block s)
unfolding execute_statement skip_indent
run_endif n s d f =
    to_control (execute_statement n) b'e' (codes "ndif") (in_false s) refl f
    ∙ control_endif (execute_statement n) (in_false s)
    ∙ ap (λ t. ok (false, t)) (end_if-inner s d)

-- In a block that runs, inside an if, while no function is being defined, let there be an if whose
-- printed condition, of printable names and literals, has the value 0, then its endif, and then lines
-- in which each if has its endif, with at most one else between them, and none of which begins with
-- exit or quit or is another else. None of these lines is executed, though they stand
-- outside of the inner if: behind them the variables, what was printed, the keys to come and the
-- depth are as they were before it, and lines are still skipped.
pub endif_keeps_skipping :
    (n : ℕ) (e : Expr) (lines : List (List ℕ)) (s : Cosypy)
    → IsPrintable e
    → IsRunning s
    → 1 ≤ s.if_depth
    → eval s.vars e ≡ some 0
    → Balanced lines
    → (t : Cosypy) × (run_lines (execute_statement (suc n)) (if_text e ∷ codes "endif" ∷ lines) s
        ≡ ok (tt, t))
      × (t.in_if_false ≡ true)
      × (t.if_depth ≡ s.if_depth)
      × (t.vars ≡ s.vars)
      × (t.out ≡ s.out)
      × (t.keys ≡ s.keys)
unfolding run_lines
endif_keeps_skipping n e lines s p w d v b =
    let execute = execute_statement (suc n) in
    let skipping : IsSkipping (after_block s) = record {
      skips = refl;
      inside = d;
      no_function = w.no_function;
    } in
    (
      after_block s,
      ap (λ r. bind r (λ _. run_lines execute (codes "endif" ∷ lines))) (run_if n e s p w v)
          ∙ ap (λ r. bind r (λ _. run_lines execute lines)) (run_endif n s d w.no_function)
          ∙ skips-Balanced n lines (after_block s) b skipping,
      refl,
      refl,
      refl,
      refl,
      refl,
    )
