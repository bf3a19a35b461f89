-- ===== src/Shell/Words.antt =====
-- kernel/shell.c: how a line is split into a command and its arguments.
use os_u.Prelude.{
  ℕ, ◌≡◌, ◌≢◌, refl, ap, ◌∙◌, true, ◌||◌, Option, none, some, List, [], ◌∷◌, ◌++◌, ◌==◌, arith,
  if◌then◌else◌,
}

-- `skip_ws`
unfoldable pub skip_ws : List ℕ → List ℕ
skip_ws [] = []
skip_ws (c ∷ s) = let rest = skip_ws s in if c == b' ' || c == 9 then rest else c ∷ s

-- A word ends at a blank, which is overwritten with a NUL, or at the end of the string; what follows
-- begins behind the blanks.
unfoldable pub split_word : List ℕ → List ℕ × List ℕ
unfolding skip_ws
split_word [] = ([], [])
split_word (c ∷ s) =
    let (word, rest) = split_word s in
    if c == 0 then ([], []) else if c == b' ' || c == 9 then ([], skip_ws s) else (c ∷ word, rest)

abbrev word_at : List ℕ → Option (List ℕ × List ℕ)
word_at [] = none
word_at (c ∷ s) = if c == 0 then none else some (split_word (c ∷ s))

-- `split_cmd`: `cmd` and `args`, or `none` for the result 0 of a line of blanks.
unfoldable pub split_cmd : List ℕ → Option (List ℕ × List ℕ)
unfolding split_word
split_cmd line = word_at (skip_ws line)

-- `split_first_arg`: `a0` and `rest`.
unfoldable pub split_first_arg : List ℕ → List ℕ × List ℕ
unfolding split_word
split_first_arg args = split_word (skip_ws args)

-- A text with no blank and no NUL.
abbrev IsWord : List ℕ → Type 0
IsWord [] = Unit
IsWord (c ∷ s) = (c ≢ 0) × (c ≢ b' ') × (c ≢ 9) × IsWord s

-- A text that is empty or begins with neither blank nor NUL.
abbrev BeginsWord : List ℕ → Type 0
BeginsWord [] = Unit
BeginsWord (c ∷ s) = (c ≢ 0) × (c ≢ b' ') × (c ≢ 9)

-- Blanks.
abbrev AreBlanks : List ℕ → Type 0
AreBlanks [] = Unit
AreBlanks (c ∷ s) = (((c == b' ') || (c == 9)) ≡ true) × AreBlanks s

skip_ws-append : (w t : List ℕ) → AreBlanks w → BeginsWord t → skip_ws (w ++ t) ≡ t
unfolding skip_ws
skip_ws-append [] [] h b = refl
skip_ws-append [] (c ∷ t) h b = ground arith
skip_ws-append (c ∷ w) t h b = ground (arith, h.0, skip_ws-append w t h.1 b)

pub split_word-append :
    (word w t : List ℕ)
    → IsWord word
    → AreBlanks w
    → BeginsWord t
    → split_word (word ++ b' ' ∷ (w ++ t)) ≡ (word, t)
unfolding split_word
split_word-append [] w t h k b = ap (λ r. ([], r)) (skip_ws-append w t k b)
split_word-append (c ∷ word) w t h k b = ground (arith, split_word-append word w t h.3 k b)

-- A line of blanks, a command without blanks, blanks and arguments is split into the command and the
-- arguments.
split_cmd-append :
    (before word w t : List ℕ)
    → AreBlanks before
    → word ≢ []
    → IsWord word
    → AreBlanks w
    → BeginsWord t
    → split_cmd (before ++ (word ++ b' ' ∷ (w ++ t))) ≡ some (word, t)
unfolding split_cmd
split_cmd-append before [] w t a ne h k b = absurd (ne refl)
split_cmd-append before (c ∷ word) w t a ne h k b =
    ap word_at (skip_ws-append before ((c ∷ word) ++ b' ' ∷ (w ++ t)) a (h.0, h.1, h.2))
    ∙ ground (arith, split_word-append (c ∷ word) w t h k b)
