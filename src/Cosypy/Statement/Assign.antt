-- ===== src/Cosypy/Statement/Assign.antt =====
-- kernel/cospy.c: the variables, and assignments.
use os_u.Prelude.{
  ℕ, ◌<◌, ◌≡◌, ◌≢◌, ◌⊎◌, inl, inr, refl, sym, ◌∙◌, ap, Bool, false, Option, none, some, List, [],
  ◌∷◌, ◌++◌, length, leb, ltb, ◌==◌, arith, if◌then◌else◌, Bool-cases, Option-cases,
}
use os_u.Cstring.{strcmp, strlen}
use os_u.Cstring.Compare.{IsCstring, strcmp_iff}
use os_u.Cosypy.Lexer.{ident, eq}
use os_u.Cosypy.Lexer.Spell.{show, IsName}
use os_u.Cosypy.State.{Cosypy, M, Run, ok, stop, overruns, bind, get_var, replace_var, set_var}
use os_u.Cosypy.Parser.{parse}
use os_u.Cosypy.Parser.Levels.{at, AllPrintable, after}
use os_u.Cosypy.Parser.Printed.{tokens-AllPrintable}
use os_u.Cosypy.Parser.RoundTrip.{parse-tokens}
use os_u.Cosypy.Expr.{Expr, eval, tokens, IsPrintable}
use os_u.Cosypy.Statement.{plain_line, token_line, name_line, assign}
use os_u.Cosypy.Statement.Evaluate.{start_at-show}

-- Names without NUL.
abbrev AllNamed : List (List ℕ × ℕ) → Type 0
AllNamed [] = Unit
AllNamed ((n, v) ∷ vars) = IsCstring n × AllNamed vars

-- Two names are compared with equal results by equal names.
strcmp_congr :
    (n x y : List ℕ) → IsCstring n → IsCstring x → strcmp n x ≡ 0 → strcmp n y ≡ strcmp x y
strcmp_congr n x y cn cx h = ap (λ z. strcmp z y) ((strcmp_iff n x cn cx).0 h)

strcmp_differs :
    (n x y : List ℕ) → IsCstring x → IsCstring y → strcmp x y ≡ 0 → strcmp n y ≡ strcmp n x
strcmp_differs n x y cx cy h = ap (strcmp n) (sym ((strcmp_iff x y cx cy).0 h))

-- A name that is not that of the entry.
miss :
    (n x y : List ℕ) (v value : ℕ) (old new : Option ℕ)
    → IsCstring x
    → IsCstring y
    → (strcmp n x == 0) ≡ false
    → new ≡ (if strcmp x y == 0 then some value else old)
    → (if strcmp n y == 0 then some v else new)
      ≡ (if strcmp x y == 0 then some value else if strcmp n y == 0 then some v else old)
miss n x y v value old new cx cy e h = ground (arith, strcmp_differs n x y cx cy)

get_var-replace_var :
    (vars : List (List ℕ × ℕ)) (x y : List ℕ) (value old : ℕ)
    → AllNamed vars
    → IsCstring x
    → IsCstring y
    → get_var vars x ≡ some old
    → get_var (replace_var vars x value) y
      ≡ (if strcmp x y == 0 then some value else get_var vars y)
unfolding get_var replace_var
get_var-replace_var [] x y value old c cx cy h = cc
get_var-replace_var ((n, v) ∷ vars) x y value old c cx cy h = elim (Bool-cases (strcmp n x == 0)) [
  | inl e ↦ ground (arith, e, strcmp_congr n x y c.0 cx)
  | inr e ↦
      rw (e, replace_var)
        (miss n x y v value (get_var vars y) (get_var (replace_var vars x value) y) cx cy e
          (get_var-replace_var vars x y value old c.1 cx cy (ground (arith, h, e))))
]

get_var-append :
    (vars : List (List ℕ × ℕ)) (x y : List ℕ) (value : ℕ)
    → get_var vars x ≡ none
    → IsCstring x
    → IsCstring y
    → get_var (vars ++ (x, value) ∷ []) y ≡ (if strcmp x y == 0 then some value else get_var vars y)
unfolding get_var
get_var-append [] x y value h cx cy = refl
get_var-append ((n, v) ∷ vars) x y value h cx cy =
    let e : (strcmp n x == 0) ≡ false = ground (arith, h) in
    miss n x y v value (get_var vars y) (get_var (vars ++ (x, value) ∷ []) y) cx cy e
      (get_var-append vars x y value (ground (arith, h, e)) cx cy)

-- A variable of a name of at most 15 characters, with fewer than 64 variables or one of that name, is
-- set: get_var then gives the value for that name, and what it gave before for every other.
get_var-set_var :
    (vars : List (List ℕ × ℕ)) (x y : List ℕ) (value : ℕ)
    → AllNamed vars
    → IsCstring x
    → IsCstring y
    → strlen x < 16
    → (length vars < 64) ⊎ (get_var vars x ≢ none)
    → (vars' : List (List ℕ × ℕ)) × (set_var vars x value ≡ some vars')
      × (get_var vars' y ≡ (if strcmp x y == 0 then some value else get_var vars y))
unfolding set_var
get_var-set_var vars x y value c cx cy short room = elim (Option-cases (get_var vars x)) [
  | inl e ↦ (
    vars ++ (x, value) ∷ [],
    rw (e, set_var) (fits room e),
    get_var-append vars x y value e cx cy,
  )
  | inr (old, e) ↦
      (replace_var vars x value, rw (e, set_var), get_var-replace_var vars x y value old c cx cy e)
]
  where
    fits :
        (length vars < 64) ⊎ (get_var vars x ≢ none)
        → get_var vars x ≡ none
        → (if leb 64 (length vars)
            then some vars
            else if ltb (strlen x) 16
            then some (vars ++ (x, value) ∷ [])
            else none)
          ≡ some (vars ++ (x, value) ∷ [])
    fits (inl l) e = ground arith
    fits (inr ne) e = absurd (ne e)

assign-tokens :
    (x : List ℕ) (e : Expr) (s : Cosypy) (v : ℕ) (vars : List (List ℕ × ℕ))
    → AllPrintable (tokens 5 e [])
    → IsPrintable e
    → eval s.vars e ≡ some v
    → set_var s.vars x v ≡ some vars
    → assign x (at s (eq ∷ tokens 5 e [])) ≡ ok (tt, record (at s []) { vars = vars })
unfolding assign
assign-tokens x e s v vars p pe h q =
    let put : Option (List (List ℕ × ℕ)) → Run (Unit {0} × Cosypy) = λ o. elim o [
      | none ↦ stop overruns
      | some vars ↦ ok (tt, record (at s []) { vars = vars })
    ] in
    let store : ℕ → M (Unit {0}) = λ v s. elim (set_var s.vars x v) [
      | none ↦ stop overruns
      | some vars ↦ ok (tt, record s { vars = vars })
    ] in
    after s eq (tokens 5 e []) (λ _ s. bind (parse s) store) p
    ∙ ap (λ r. bind r store) (parse-tokens e s [] v pe tt tt h)
    ∙ ap put q

-- A line of a name, an equals sign and a printed expression with a value stores the value: the
-- variables are those of set_var, and nothing else but the place in the text changes.
pub plain_line-assign :
    (execute : List ℕ → M Bool) (x : List ℕ) (e : Expr) (s : Cosypy) (v : ℕ)
    (vars : List (List ℕ × ℕ))
    → IsName x
    → IsPrintable e
    → eval s.vars e ≡ some v
    → set_var s.vars x v ≡ some vars
    → plain_line execute (show (ident x ∷ eq ∷ tokens 5 e [])) s
      ≡ ok (tt, record (at s []) { vars = vars })
unfolding plain_line
plain_line-assign execute x e s v vars nx pe h q =
    let ts = tokens 5 e [] in
    let p = tokens-AllPrintable 5 e [] pe tt in
    ap (λ r. bind r (λ _ s'. token_line execute s'.token s'))
      (start_at-show s (ident x ∷ eq ∷ ts) (nx, (tt, p)))
    ∙ after s (ident x) (eq ∷ ts) (λ _. name_line execute x) (tt, p)
    ∙ assign-tokens x e s v vars p pe h q
