-- ===== src/Shell/History.antt =====
-- kernel/shell.c: the history, and what shell_run does with a line before it chooses the command.
use os_u.Prelude.{
  ℕ, suc, ◌≤◌, ◌≡◌, ◌≢◌, refl, ap, Option, none, some, List, [], ◌∷◌, ◌++◌, length, drop, ltb, ◌==◌,
  arith, if◌then◌else◌, codes,
}
use os_u.Cstring.{strcmp}
use os_u.Shell.Words.{split_cmd}

abbrev pub history_max : ℕ
history_max = 16

-- `save_history`: an empty line is not saved; a full history loses its oldest line.
unfoldable save_history : List (List ℕ) → List ℕ → List (List ℕ)
save_history history [] = history
save_history history (c ∷ line) =
    if c == 0
    then history
    else if ltb (length history) history_max
    then history ++ (c ∷ line) ∷ []
    else drop 1 history ++ (c ∷ line) ∷ []

-- The last line of the history.
unfoldable last_line : List (List ℕ) → Option (List ℕ)
last_line [] = none
last_line (l ∷ ls) = elim (last_line ls) [ none ↦ some l | some m ↦ some m ]

-- What a round of shell_run comes to: the message "no history", no command, or a command with its
-- arguments; `shown` is the line that `!!` stands for.
pub data Round : Type 0 where
  no_history : Round
  no_command : Round
  command : (shown : Option (List ℕ)) → List ℕ → List ℕ → Round

abbrev round_of : Option (List ℕ) → Option (List ℕ × List ℕ) → Round
round_of shown none = no_command
round_of shown (some (cmd, args)) = command shown cmd args

-- The line is saved, and split.
unfoldable save_and_split : Option (List ℕ) → List (List ℕ) → List ℕ → Round × List (List ℕ)
unfolding save_history split_cmd
save_and_split shown history line = (round_of shown (split_cmd line), save_history history line)

-- A round of shell_run up to the choice of the command.
unfoldable read_command : List (List ℕ) → List ℕ → Round × List (List ℕ)
unfolding last_line save_and_split
read_command history [] = (no_command, history)
read_command history (c ∷ line) =
    if c == 0
    then (no_command, history)
    else if strcmp (c ∷ line) (codes "!!") == 0
    then elim (last_line history) [
      | none ↦ (no_history, history)
      | some l ↦ save_and_split (some l) history l
    ]
    else save_and_split none history (c ∷ line)

length-save_history_one :
    (history : List (List ℕ)) (line : List ℕ) → length (history ++ line ∷ []) ≡ suc (length history)
length-save_history_one [] line = refl
length-save_history_one (l ∷ history) line = ap suc (length-save_history_one history line)

-- The history keeps at most 16 lines.
length-save_history :
    (history : List (List ℕ)) (line : List ℕ)
    → length history ≤ 16
    → length (save_history history line) ≤ 16
unfolding save_history
length-save_history history [] h = h
length-save_history [] (c ∷ line) h = ground arith
length-save_history (l ∷ history) (c ∷ line) h = ground (
  arith,
  length-save_history_one (l ∷ history) (c ∷ line),
  length-save_history_one history (c ∷ line),
)

last_line-append :
    (history : List (List ℕ)) (line : List ℕ) → last_line (history ++ line ∷ []) ≡ some line
unfolding last_line
last_line-append [] line = refl
last_line-append (l ∷ history) line =
    ap (λ (o : Option (List ℕ)). elim o [ none ↦ some l | some m ↦ some m ])
      (last_line-append history line)

last_line-save_history :
    (history : List (List ℕ)) (c : ℕ) (line : List ℕ)
    → c ≢ 0
    → last_line (save_history history (c ∷ line)) ≡ some (c ∷ line)
unfolding save_history
last_line-save_history history c line ne =
    ground
      (arith, last_line-append history (c ∷ line), last_line-append (drop 1 history) (c ∷ line))

-- After a line that is not empty was saved, `!!` runs that line, and saves it again.
read_command-repeat :
    (history : List (List ℕ)) (c : ℕ) (line : List ℕ)
    → c ≢ 0
    → read_command (save_history history (c ∷ line)) (codes "!!")
      ≡ save_and_split (some (c ∷ line)) (save_history history (c ∷ line)) (c ∷ line)
unfolding read_command strcmp
read_command-repeat history c line ne =
    let h = save_history history (c ∷ line) in
    ap
      (λ (o : Option (List ℕ)). elim o [
        | none ↦ (no_history, h)
        | some l ↦ save_and_split (some l) h l
      ])
      (last_line-save_history history c line ne)
