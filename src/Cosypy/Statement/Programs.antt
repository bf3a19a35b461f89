-- ===== src/Cosypy/Statement/Programs.antt =====
-- kernel/cospy.c: programs of assignments.
use os_u.Prelude.{
  ℕ, suc, ◌≡◌, refl, sym, ◌∙◌, ap, Bool, true, false, ◌&&◌, Option, none, some, List, [], ◌∷◌, ◌++◌,
  get_or, ◌==◌, arith, codes,
}
use mathlib.Core.Path.{subst}
use os_u.Cosypy.Lexer.{ident, eq, is_alpha, next_token, skip_whitespace}
use os_u.Cosypy.Lexer.Spell.{show, IsName}
use os_u.Cosypy.State.{Cosypy, M, ok, bind, pure, set_var}
use os_u.Cosypy.Parser.Levels.{at}
use os_u.Cosypy.Expr.{Expr, eval, tokens, IsPrintable}
use os_u.Cosypy.Statement.{
  begins, skip_indent, plain_line, goes_on, active_line, control_line, statement, execute_statement,
  run_lines,
}
use os_u.Cosypy.Statement.Assign.{plain_line-assign}
use os_u.Cosypy.Statement.Skip.{IsPlain, to_control}

-- A line with none of the words that begin a statement.
abbrev pub IsOrdinary : List ℕ → Type 0
IsOrdinary line =
    IsPlain line
    × (begins line (codes "endwhile") ≡ false)
    × (begins line (codes "while ") ≡ false)
    × (begins line (codes "def ") ≡ false)
    × ((begins line (codes "print") && (get_or line 5 0 == b'(')) ≡ false)

-- What holds where lines are executed.
pub record IsRunning (s : Cosypy) : Type 0 where
  pub runs : s.in_if_false ≡ false
  pub no_function : s.defining_function ≡ false

control_line-ordinary :
    (execute : List ℕ → M Bool) (line : List ℕ) (s : Cosypy)
    → IsOrdinary line
    → IsRunning s
    → control_line execute line s ≡ goes_on (plain_line execute line) s
unfolding control_line active_line
control_line-ordinary execute line s ((p, q, r, u), a, b, c, d) w =
    rw (p, q, r, u, w.runs, a, b, c, d)

-- The text of an assignment.
abbrev pub assignment : List ℕ × Expr → List ℕ
assignment (x, e) = show (ident x ∷ eq ∷ tokens 5 e [])

skip_indent-assignment :
    (c : ℕ) (x : List ℕ) (e : Expr)
    → IsName (c ∷ x)
    → skip_indent (assignment (c ∷ x, e)) ≡ (c ∷ x) ++ show (eq ∷ tokens 5 e [])
unfolding skip_indent show
skip_indent-assignment c x e nx = let alpha : is_alpha c ≡ true = nx.0 in ground (arith, alpha)

plain_line-blank :
    (execute : List ℕ → M Bool) (line : List ℕ) (s : Cosypy)
    → plain_line execute (b' ' ∷ line) s ≡ plain_line execute line s
unfolding plain_line next_token skip_whitespace
plain_line-blank execute line s = refl

-- One assignment.
execute_statement-assign :
    (n : ℕ) (x : List ℕ) (e : Expr) (s : Cosypy) (v : ℕ) (vars : List (List ℕ × ℕ))
    → IsName x
    → IsPrintable e
    → IsOrdinary (skip_indent (assignment (x, e)))
    → IsRunning s
    → eval s.vars e ≡ some v
    → set_var s.vars x v ≡ some vars
    → execute_statement (suc n) (assignment (x, e)) s ≡ ok (false, record (at s []) { vars = vars })
unfolding execute_statement show
execute_statement-assign n [] e s v vars nx pe o w h q = absurd nx
execute_statement-assign n (c ∷ x) e s v vars nx pe o w h q =
    let alpha : is_alpha c ≡ true = nx.0 in
    let skip = skip_indent-assignment c x e nx in
    let line = (c ∷ x) ++ show (eq ∷ tokens 5 e []) in
    let execute = execute_statement n in
    ap (λ t. statement execute t s) skip
    ∙ to_control execute c (x ++ show (eq ∷ tokens 5 e [])) s (ground (arith, alpha)) w.no_function
    ∙ control_line-ordinary execute line s (subst IsOrdinary skip o) w
    ∙ ap (λ r. bind r (λ _. pure false))
        (sym (plain_line-blank execute line s)
          ∙ plain_line-assign execute (c ∷ x) e s v vars nx pe h q)

-- The variables after assignments one after another, if each has a value that can be stored.
unfoldable pub assigned : List (List ℕ × Expr) → List (List ℕ × ℕ) → Option (List (List ℕ × ℕ))
assigned [] vars = some vars
assigned ((x, e) ∷ ps) vars = elim (eval vars e) [
  | none ↦ none
  | some v ↦ elim (set_var vars x v) [ none ↦ none | some vars' ↦ assigned ps vars' ]
]

-- The texts of assignments.
abbrev pub program : List (List ℕ × Expr) → List (List ℕ)
program [] = []
program (p ∷ ps) = assignment p ∷ program ps

-- Assignments to names, whose texts begin with no word of the language.
abbrev AreAssignments : List (List ℕ × Expr) → Type 0
AreAssignments [] = Unit
AreAssignments ((x, e) ∷ ps) =
    IsName x × IsPrintable e × IsOrdinary (skip_indent (assignment (x, e))) × AreAssignments ps

split_assigned :
    (x : List ℕ) (e : Expr) (ps : List (List ℕ × Expr)) (vars vars' : List (List ℕ × ℕ))
    → assigned ((x, e) ∷ ps) vars ≡ some vars'
    → (v : ℕ) × (mid : List (List ℕ × ℕ)) × (eval vars e ≡ some v)
      × (set_var vars x v ≡ some mid)
      × (assigned ps mid ≡ some vars')
unfolding assigned
split_assigned x e ps vars vars' h = value (eval vars e) refl h
  where
    Result : Type 0
    Result =
        (v : ℕ) × (mid : List (List ℕ × ℕ)) × (eval vars e ≡ some v)
        × (set_var vars x v ≡ some mid)
        × (assigned ps mid ≡ some vars')

    store :
        (v : ℕ) (o : Option (List (List ℕ × ℕ)))
        → eval vars e ≡ some v
        → set_var vars x v ≡ o
        → (elim o [ none ↦ none | some mid ↦ assigned ps mid ]) ≡ some vars'
        → Result
    store v none a b h = cc
    store v (some mid) a b h = (v, mid, a, b, h)

    value :
        (o : Option ℕ)
        → eval vars e ≡ o
        → (elim o [
          | none ↦ none
          | some v ↦ elim (set_var vars x v) [ none ↦ none | some mid ↦ assigned ps mid ]
        ])
          ≡ some vars'
        → Result
    value none a h = cc
    value (some v) a h = store v (set_var vars x v) a refl h

-- While the interpreter neither skips lines nor defines a function, let each line of a program be an
-- assignment to a name, printed with a blank in front of each token, of an expression with printable
-- names and literals, and let no line begin like another statement: with exit, quit, endif,
-- endwhile, else and its end, or if, while, def or print and what must follow them. If no value needs
-- a division by 0, and set_var can store each, which it cannot in a new variable with a name of 16
-- characters or more, the program is executed: the variables in the end are those that set_var leaves
-- for the assignments one after another, and what was printed, the keys to come and the functions are
-- unchanged.
pub run_lines-program :
    (n : ℕ) (ps : List (List ℕ × Expr)) (s : Cosypy) (vars : List (List ℕ × ℕ))
    → AreAssignments ps
    → IsRunning s
    → assigned ps s.vars ≡ some vars
    → (t : Cosypy) × (run_lines (execute_statement (suc n)) (program ps) s ≡ ok (tt, t))
      × (t.vars ≡ vars)
      × (t.out ≡ s.out)
      × (t.keys ≡ s.keys)
      × (t.functions ≡ s.functions)
unfolding run_lines assigned
run_lines-program n [] s vars a w h = (s, refl, cc, refl, refl, refl)
run_lines-program n ((x, e) ∷ ps) s vars (nx, pe, o, a) w h =
    let (v, mid, p, q, r) = split_assigned x e ps s.vars vars h in
    let s' : Cosypy = record (at s []) { vars = mid } in
    let w' : IsRunning s' = record { runs = w.runs; no_function = w.no_function } in
    let (t, run, vars_lem, out_lem, keys_lem, functions_lem) =
      run_lines-program n ps s' vars a w' r in
    let execute = execute_statement (suc n) in
    (
      t,
      ap (λ r. bind r (λ _. run_lines execute (program ps)))
            (execute_statement-assign n x e s v mid nx pe o w p q)
          ∙ run,
      vars_lem,
      out_lem,
      keys_lem,
      functions_lem,
    )
