-- ===== src/Cosypy/Repl.antt =====
-- kernel/cospy.c: while loops, the interactive loop and the running of files.
use os_u.Prelude.{
  ℕ, zero, suc, ◌+◌, ◌-◌, Bool, true, false, Option, none, some, List, [], ◌∷◌, ◌++◌, length, slice,
  ltb, ◌==◌, if◌then◌else◌, codes,
}
use os_u.Keyboard.Line.{keyboard_readline, text}
use os_u.Fs.State.{Fs}
use os_u.Vfs.{vfs_read_ptr}
use os_u.Cosypy.State.{
  Cosypy, M, ok, stop, waits, out_of_fuel, bind, ◌>>=◌, ◌>>◌, pure, halt, put_text,
}
use os_u.Cosypy.Statement.{begins, evaluate, execute_statement, skip_indent}

-- `cospy_init`
unfoldable cospy_init : Cosypy → Cosypy
cospy_init s = record s {
  vars = [];
  functions = [];
  in_if_false = false;
  if_depth = 0;
  while_depth = 0;
  defining_function = false;
}

-- The lines of a loop's body in the interactive loop: a line that exits ends this round of the body.
unfoldable body_until_exit : ℕ → List (List ℕ) → M (Unit {0})
body_until_exit depth [] = pure tt
body_until_exit depth (line ∷ lines) = λ s.
    bind (execute_statement depth line s)
      (λ leaves s'. elim leaves [ true ↦ ok (tt, s') | false ↦ body_until_exit depth lines s' ])

-- The lines of a loop's body in a file.
unfoldable body_all : ℕ → List (List ℕ) → M (Unit {0})
body_all depth [] = pure tt
body_all depth (line ∷ lines) = do execute_statement depth line; body_all depth lines

-- The loop `while (max_iter-- > 0)` with `n` rounds left.
unfoldable while_loop : ℕ → M (Unit {0}) → M (Unit {0})
while_loop zero body = pure tt
while_loop (suc n) body = λ s.
    bind (evaluate s.while_cond s)
      (λ v s'. elim (v == 0) [ true ↦ ok (tt, s') | false ↦ (do body; while_loop n body) s' ])

abbrev pub max_iter : ℕ
max_iter = 1000

-- `while_body`, of at most 16 lines.
abbrev collect : List (List ℕ) → List ℕ → List (List ℕ)
collect body line = if ltb (length body) 16 then body ++ line ∷ [] else body

-- What a line does: whether the interpreter is left, and while_body. `run_body` runs the body once.
unfoldable loop_line :
    ℕ → (ℕ → List (List ℕ) → M (Unit {0})) → List (List ℕ) → List ℕ → M (Bool × List (List ℕ))
unfolding while_loop
loop_line depth run_body body line s =
    if ltb 0 s.while_depth
    then (if begins line (codes "endwhile")
        then (let s' = record s { while_depth = s.while_depth - 1 } in
            if s.while_depth == 1
            then bind (while_loop max_iter (run_body depth body) s') (λ _ t. ok ((false, []), t))
            else ok ((false, body), s'))
        else ok (
          (false, collect body line),
          if begins line (codes "while ") then record s { while_depth = s.while_depth + 1 } else s,
        ))
    else bind (execute_statement depth line s) (λ leaves s'. ok ((leaves, body), s'))

-- A line from the keyboard, of at most 127 characters.
unfoldable read_line : M (List ℕ)
read_line s = elim (keyboard_readline (λ i. 0) 128 s.keys) [
  | none ↦ stop waits
  | some (l, rest) ↦ ok (text l, record s { keys = rest; out = s.out ++ l.echo })
]

-- The loop of cospy_repl, with fuel for `n` lines.
unfoldable repl_loop : ℕ → ℕ → List (List ℕ) → M (Unit {0})
repl_loop depth zero body = halt out_of_fuel
repl_loop depth (suc n) body = do
  put_text (codes "py> ")
  line ← read_line
  λ s. bind (loop_line depth body_until_exit body line s) (λ r s'. elim r.0 [
    | true ↦ put_text (codes "Leaving CosyPy\n") s'
    | false ↦ repl_loop depth n r.1 s'
  ])

-- `cospy_repl`: each line takes a key at least.
unfoldable cospy_repl : ℕ → M (Unit {0})
unfolding cospy_init repl_loop
cospy_repl depth s =
    (do
      put_text (codes "\nCosyPy v1.0 - Python-like interpreter\n")
      put_text (codes "Type 'exit' to return to shell\n\n")
      repl_loop depth (length s.keys + 1) [])
      (cospy_init s)

-- The characters of a line of a file, at most `n`, and the text behind them.
unfoldable take_line : ℕ → List ℕ → List ℕ × List ℕ
take_line n [] = ([], [])
take_line zero (c ∷ s) = ([], if c == b'\n' then s else c ∷ s)
take_line (suc n) (c ∷ s) =
    let (line, rest) = take_line n s in if c == b'\n' then ([], s) else (c ∷ line, rest)

-- The lines of a file, at most `n`.
unfoldable split_lines : ℕ → List ℕ → List (List ℕ)
split_lines zero content = []
split_lines (suc n) [] = []
split_lines (suc n) (c ∷ s) = let (line, rest) = take_line 127 (c ∷ s) in line ∷ split_lines n rest

-- The loop over the lines of a file.
unfoldable file_loop : ℕ → List (List ℕ) → List (List ℕ) → M (Unit {0})
unfolding loop_line
file_loop depth body [] = pure tt
file_loop depth body (line ∷ lines) = λ s.
    bind (loop_line depth body_all body (skip_indent line) s) (λ r s'. file_loop depth r.1 lines s')

-- `cospy_run_file`, from the file system: `none` for the result -1.
unfoldable cospy_run_file : ℕ → Fs → List ℕ → M (Option (Unit {0}) × Fs)
unfolding cospy_init file_loop
cospy_run_file depth fs [] s = ok ((none, fs), s)
cospy_run_file depth fs (c ∷ name) s =
    let (found, fs') = vfs_read_ptr fs (c ∷ name) in
    if c == 0 then ok ((none, fs), s) else elim found [
      | none ↦ ok (
        (none, fs'),
        record s { out = s.out ++ (codes "file not found: " ++ (c ∷ name ++ b'\n' ∷ [])) },
      )
      | some len ↦
          bind (file_loop depth [] (split_lines 64 (slice fs'.read_cache 0 len)) (cospy_init s))
            (λ _ s'. ok ((some tt, fs'), s'))
    ]
