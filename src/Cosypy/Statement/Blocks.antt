-- ===== src/Cosypy/Statement/Blocks.antt =====
-- kernel/cospy.c: blocks of if and endif.
use os_u.Prelude.{ℕ, suc, ◌≡◌, refl, ◌∙◌, ap, Bool, true, List, [], ◌∷◌, ◌++◌, codes}
use os_u.Cosypy.State.{Cosypy, M, Run, ok, stop, bind}
use os_u.Cosypy.Statement.{skip_indent, is_else, execute_statement, run_lines}
use os_u.Cosypy.Statement.Skip.{
  IsPlain, IsSkipping, deeper, deeper-IsSkipping, skip_if, skip_endif, skip_else, skip_plain,
}

-- Lines in which each if has its endif, with at most one else between the two; no line begins
-- with exit or quit, and no else stands outside of such a block.
pub data Balanced : List (List ℕ) → Type 0 where
  no_lines : Balanced []
  plain :
      {line : List ℕ} {lines : List (List ℕ)}
      → IsPlain (skip_indent line)
      → Balanced lines
      → Balanced (line ∷ lines)
  block :
      (head c foot d : List ℕ) (body lines : List (List ℕ))
      → skip_indent head ≡ codes "if " ++ c
      → Balanced body
      → skip_indent foot ≡ codes "endif" ++ d
      → Balanced lines
      → Balanced (head ∷ body ++ foot ∷ lines)
  block_else :
      (head c middle a foot d : List ℕ) (body other lines : List (List ℕ))
      → skip_indent head ≡ codes "if " ++ c
      → Balanced body
      → skip_indent middle ≡ codes "else" ++ a
      → is_else (codes "else" ++ a) ≡ true
      → Balanced other
      → skip_indent foot ≡ codes "endif" ++ d
      → Balanced lines
      → Balanced (head ∷ (body ++ middle ∷ other) ++ foot ∷ lines)

run_lines-append :
    (execute : List ℕ → M Bool) (ls ms : List (List ℕ)) (s : Cosypy)
    → run_lines execute (ls ++ ms) s ≡ bind (run_lines execute ls s) (λ _. run_lines execute ms)
unfolding run_lines
run_lines-append execute [] ms s = refl
run_lines-append execute (l ∷ ls) ms s = rest (λ t. run_lines-append execute ls ms t) (execute l s)
  where
    rest :
        ((t : Cosypy)
          → run_lines execute (ls ++ ms) t
            ≡ bind (run_lines execute ls t) (λ _. run_lines execute ms))
        → (r : Run (Bool × Cosypy))
        → bind r (λ _. run_lines execute (ls ++ ms))
          ≡ bind (bind r (λ _. run_lines execute ls)) (λ _. run_lines execute ms)
    rest h (ok (b, t)) = h t
    rest h (stop w) = refl

-- A block of lines that are passed over, between its if and its endif.
skip_block :
    (n : ℕ) (head c foot d : List ℕ) (body lines : List (List ℕ)) (s : Cosypy)
    → skip_indent head ≡ codes "if " ++ c
    → run_lines (execute_statement (suc n)) body (deeper s) ≡ ok (tt, deeper s)
    → skip_indent foot ≡ codes "endif" ++ d
    → IsSkipping s
    → run_lines (execute_statement (suc n)) (head ∷ body ++ foot ∷ lines) s
      ≡ run_lines (execute_statement (suc n)) lines s
unfolding run_lines
skip_block n head c foot d body lines s o b e w =
    let execute = execute_statement (suc n) in
    let k : M (Unit {0}) = run_lines execute (foot ∷ lines) in
    ap (λ r. bind r (λ _. run_lines execute (body ++ foot ∷ lines))) (skip_if n head c s o w)
    ∙ run_lines-append execute body (foot ∷ lines) (deeper s)
    ∙ ap (λ r. bind r (λ _. k)) b
    ∙ ap (λ r. bind r (λ _. run_lines execute lines)) (skip_endif n foot d s e w)

-- Two parts of the lines of a block, and the else between them.
skip_parts :
    (n : ℕ) (middle a : List ℕ) (body other : List (List ℕ)) (s : Cosypy)
    → run_lines (execute_statement (suc n)) body (deeper s) ≡ ok (tt, deeper s)
    → skip_indent middle ≡ codes "else" ++ a
    → is_else (codes "else" ++ a) ≡ true
    → run_lines (execute_statement (suc n)) other (deeper s) ≡ ok (tt, deeper s)
    → IsSkipping s
    → run_lines (execute_statement (suc n)) (body ++ middle ∷ other) (deeper s) ≡ ok (tt, deeper s)
unfolding run_lines
skip_parts n middle a body other s b m e o w =
    let execute = execute_statement (suc n) in
    let k : M (Unit {0}) = run_lines execute (middle ∷ other) in
    run_lines-append execute body (middle ∷ other) (deeper s)
    ∙ ap (λ r. bind r (λ _. k)) b
    ∙ ap (λ r. bind r (λ _. run_lines execute other)) (skip_else n middle a s m e w)
    ∙ o

-- In a block that is skipped, while no function is being defined, lines are passed over whole in which
-- each if has its endif, with at most one else between them, and none of which begins with exit or
-- quit or is another else: the state after them is the state before them.
pub skips-Balanced :
    (n : ℕ) (lines : List (List ℕ)) (s : Cosypy)
    → Balanced lines
    → IsSkipping s
    → run_lines (execute_statement (suc n)) lines s ≡ ok (tt, s)
unfolding run_lines
skips-Balanced n [] s no_lines w = refl
skips-Balanced n (line ∷ lines) s (plain p b) w =
    ap (λ r. bind r (λ _. run_lines (execute_statement (suc n)) lines)) (skip_plain n line s p w)
    ∙ skips-Balanced n lines s b w
skips-Balanced n _ s (block head c foot d body lines o b e m) w =
    skip_block n head c foot d body lines s o
      (skips-Balanced n body (deeper s) b (deeper-IsSkipping s w)) e w
    ∙ skips-Balanced n lines s m w
skips-Balanced n _ s (block_else head c middle a foot d body other lines o b l i q e m) w =
    let v = deeper-IsSkipping s w in
    skip_block n head c foot d (body ++ middle ∷ other) lines s o
      (skip_parts n middle a body other s (skips-Balanced n body (deeper s) b v) l i
        (skips-Balanced n other (deeper s) q v) w)
      e w
    ∙ skips-Balanced n lines s m w
