-- ===== src/Cosypy/Statement/Skip.antt =====
-- kernel/cospy.c: the lines of a block that is skipped.
use os_u.Prelude.{
  ℕ, suc, ◌+◌, ◌-◌, ◌≤◌, ◌≡◌, refl, ◌∙◌, ap, Bool, true, false, ◌||◌, List, [], ◌∷◌, ◌++◌, ◌==◌,
  arith, if◌then◌else◌, Bool-cases, inl, inr, codes,
}
use os_u.Cstring.{strncmp}
use os_u.Cosypy.State.{Cosypy, M, ok, bind, pure}
use os_u.Cosypy.Statement.{
  evaluate, begins, skip_indent, end_if, is_else, else_branch, if_line, control_line, statement,
  execute_statement,
}

-- A line that is not one of exit, quit, if, else and endif.
abbrev pub IsPlain : List ℕ → Type 0
IsPlain line =
    ((begins line (codes "exit") || begins line (codes "quit")) ≡ false)
    × (begins line (codes "endif") ≡ false)
    × (is_else line ≡ false)
    × (begins line (codes "if ") ≡ false)

-- What holds in a block that is skipped.
pub record IsSkipping (s : Cosypy) : Type 0 where
  pub skips : s.in_if_false ≡ true
  pub inside : 1 ≤ s.if_depth
  pub no_function : s.defining_function ≡ false

abbrev pub deeper : Cosypy → Cosypy
deeper s = record s { if_depth = s.if_depth + 1 }

pub to_control :
    (execute : List ℕ → M Bool) (c : ℕ) (line : List ℕ) (s : Cosypy)
    → ((c == 0) || (c == b'#')) ≡ false
    → s.defining_function ≡ false
    → statement execute (c ∷ line) s ≡ control_line execute (c ∷ line) s
unfolding statement
to_control execute c line s h d = ground arith

pub skip_if :
    (n : ℕ) (line c : List ℕ) (s : Cosypy)
    → skip_indent line ≡ codes "if " ++ c
    → IsSkipping s
    → execute_statement (suc n) line s ≡ ok (false, deeper s)
unfolding execute_statement control_line if_line strncmp
skip_if n line c s h w =
    ap (λ t. statement (execute_statement n) t s) h
    ∙ to_control (execute_statement n) b'i' (codes "f " ++ c) s refl w.no_function
    ∙ ap (λ r. bind r (λ _. pure false)) (skip s.in_if_false w.skips)
  where
    skip :
        (b : Bool)
        → b ≡ true
        → (if b
            then ok (tt, deeper s)
            else bind
                (evaluate c (deeper s))
                (λ v s'. ok (tt, if v == 0 then record s' { in_if_false = true } else s')))
          ≡ ok (tt, deeper s)
    skip b e = rw (e)

end_if-deeper : (s : Cosypy) → IsSkipping s → end_if (deeper s) ≡ s
unfolding end_if
end_if-deeper s w =
    let back : Cosypy = record s { if_depth = s.if_depth + 1 - 1 } in
    let h : end_if (deeper s) ≡ back = ground (arith, w.inside) in
    h ∙ ap (λ d. record s { if_depth = d }) (omega arith)

pub skip_endif :
    (n : ℕ) (line c : List ℕ) (s : Cosypy)
    → skip_indent line ≡ codes "endif" ++ c
    → IsSkipping s
    → execute_statement (suc n) line (deeper s) ≡ ok (false, s)
unfolding execute_statement control_line end_if strncmp
skip_endif n line c s h w =
    ap (λ t. statement (execute_statement n) t (deeper s)) h
    ∙ to_control (execute_statement n) b'e' (codes "ndif" ++ c) (deeper s) refl w.no_function
    ∙ ap (λ t. ok (false, t)) (end_if-deeper s w)

control_else :
    (execute : List ℕ → M Bool) (a : List ℕ) (s : Cosypy)
    → is_else (codes "else" ++ a) ≡ true
    → control_line execute (codes "else" ++ a) s ≡ ok (false, else_branch s)
unfolding control_line strncmp
control_else execute a s e = rw e refl

-- An else of an inner block does nothing.
else_branch-deeper : (s : Cosypy) → IsSkipping s → else_branch (deeper s) ≡ deeper s
unfolding else_branch
else_branch-deeper s w = ground (arith, w.inside)

pub skip_else :
    (n : ℕ) (line a : List ℕ) (s : Cosypy)
    → skip_indent line ≡ codes "else" ++ a
    → is_else (codes "else" ++ a) ≡ true
    → IsSkipping s
    → execute_statement (suc n) line (deeper s) ≡ ok (false, deeper s)
unfolding execute_statement
skip_else n line a s h e w =
    ap (λ t. statement (execute_statement n) t (deeper s)) h
    ∙ to_control (execute_statement n) b'e' (codes "lse" ++ a) (deeper s) refl w.no_function
    ∙ at_else
  where
    at_else :
        control_line (execute_statement n) (codes "else" ++ a) (deeper s) ≡ ok (false, deeper s)
    at_else =
        control_else (execute_statement n) a (deeper s) e
        ∙ ap (λ t. ok (false, t)) (else_branch-deeper s w)

pub skip_plain :
    (n : ℕ) (line : List ℕ) (s : Cosypy)
    → IsPlain (skip_indent line)
    → IsSkipping s
    → execute_statement (suc n) line s ≡ ok (false, s)
unfolding execute_statement statement control_line
skip_plain n line s p w = skipped (skip_indent line) p
  where
    skip_control :
        (c : ℕ) (t : List ℕ)
        → IsPlain (c ∷ t)
        → control_line (execute_statement n) (c ∷ t) s ≡ ok (false, s)
    skip_control c t (p, q, r, u) = rw (p, q, r, u, w.skips)

    skipped : (t : List ℕ) → IsPlain t → statement (execute_statement n) t s ≡ ok (false, s)
    skipped [] p = refl
    skipped (c ∷ t) p = elim (Bool-cases ((c == 0) || (c == b'#'))) [
      | inl e ↦ ground arith
      | inr e ↦ to_control (execute_statement n) c t s e w.no_function ∙ skip_control c t p
    ]

pub deeper-IsSkipping : (s : Cosypy) → IsSkipping s → IsSkipping (deeper s)
deeper-IsSkipping s w = record {
  skips = w.skips;
  inside = omega arith;
  no_function = w.no_function;
}
