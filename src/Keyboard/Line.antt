-- ===== src/Keyboard/Line.antt =====
-- kernel/keyboard.c: keyboard_readline, over the characters that keyboard_getchar returns.
use os_u.Prelude.{
  ℕ, ◌+◌, ◌-◌, ◌≤◌, ◌<◌, ◌≡◌, ◌≢◌, refl, ◌&&◌, Option, none, some, List, [], ◌∷◌, ◌++◌, arith,
  length, take, Bytes, update, slice, length-slice, take-slice, slice-snoc, slice-update_out, inr,
  leb, ltb, ◌==◌, if◌then◌else◌,
}

-- The caller's buffer with the count `i` of the characters in it, and what vga_putc was called with.
pub record Line : Type 0 where
  pub buf : Bytes
  pub count : ℕ
  pub echo : List ℕ

-- One round of the loop, for a character that is no newline.
unfoldable pub line_key : ℕ → Line → ℕ → Line
line_key max_len l c =
    if c == b'\r'
    then l
    else if c == 8
    then (if ltb 0 l.count then record l { count = l.count - 1; echo = l.echo ++ 8 ∷ [] } else l)
    else if ltb (l.count + 1) max_len && (leb 32 c && leb c 126)
    then record l { buf = update l.buf l.count c; count = l.count + 1; echo = l.echo ++ c ∷ [] }
    else l

-- The loop: `none` while no newline has come. The newline is echoed and ends the string.
unfoldable pub line_loop : ℕ → Line → List ℕ → Option (Line × List ℕ)
line_loop max_len l [] = none
line_loop max_len l (c ∷ cs) =
    let rest = line_loop max_len (line_key max_len l c) cs in
    if c == b'\n'
    then some (record l { buf = update l.buf l.count 0; echo = l.echo ++ b'\n' ∷ [] }, cs)
    else rest

-- `keyboard_readline`: a buffer of length 0 is left alone, and nothing is read.
unfoldable pub keyboard_readline : Bytes → ℕ → List ℕ → Option (Line × List ℕ)
keyboard_readline buf max_len cs =
    let l : Line = record { buf = buf; count = 0; echo = [] } in
    let run = line_loop max_len l cs in if max_len == 0 then some (l, cs) else run

-- A line editor on a list: a backspace takes the last character away, a printable character is
-- appended if the line stays shorter than `cap`, and any other key does nothing.
pub edit : ℕ → List ℕ → ℕ → List ℕ
edit cap line c =
    if c == 8
    then take (length line - 1) line
    else if ltb (length line) cap && (leb 32 c && leb c 126)
    then line ++ c ∷ []
    else line

pub edit_all : ℕ → List ℕ → List ℕ → List ℕ
edit_all cap line [] = line
edit_all cap line (c ∷ cs) = edit_all cap (edit cap line c) cs

-- The characters in the buffer.
abbrev pub text : Line → List ℕ
text l = slice l.buf 0 l.count

-- No character of the list is the newline.
abbrev pub NoNewline : List ℕ → Type 0
NoNewline [] = Unit
NoNewline (c ∷ cs) = (c ≢ b'\n') × NoNewline cs

-- What holds of the loop's variables: the string fits with its NUL, and `buf` is `old` past the end.
pub record InBuffer (max_len : ℕ) (old : Bytes) (l : Line) : Type 0 where
  pub fits : l.count < max_len
  pub outside : (j : ℕ) → max_len ≤ j → l.buf j ≡ old j

line_key-InBuffer :
    (max_len : ℕ) (old : Bytes) (l : Line) (c : ℕ)
    → InBuffer max_len old l
    → InBuffer max_len old (line_key max_len l c)
unfolding line_key
line_key-InBuffer max_len old l c v = record {
  fits = ground arith;
  outside = λ j h. ground (arith, v.outside j h);
}

line_key-text :
    (max_len : ℕ) (l : Line) (c : ℕ)
    → 0 < max_len
    → text (line_key max_len l c) ≡ edit (max_len - 1) (text l) c
unfolding line_key edit
line_key-text max_len l c h = ground (
  arith,
  length-slice l.buf 0 l.count,
  take-slice l.buf 0 (l.count - 1) l.count,
  slice-snoc l.buf c l.count,
)

line_loop_lem :
    (max_len : ℕ) (old : Bytes) (l : Line) (keys rest : List ℕ)
    → NoNewline keys
    → InBuffer max_len old l
    → (l' : Line) × (line_loop max_len l (keys ++ b'\n' ∷ rest) ≡ some (l', rest))
      × (text l' ≡ edit_all (max_len - 1) (text l) keys)
      × (l'.buf l'.count ≡ 0)
      × InBuffer max_len old l'
unfolding line_loop edit_all
line_loop_lem max_len old l [] rest n v = (
  record l { buf = update l.buf l.count 0; echo = l.echo ++ b'\n' ∷ [] },
  refl,
  slice-update_out l.buf l.count 0 0 l.count (inr (omega arith)),
  ground arith,
  record { fits = v.fits; outside = λ j h. ground (arith, v.outside j h, v.fits) },
)
line_loop_lem max_len old l (c ∷ keys) rest n v =
    let k = line_key max_len l c in
    let (l', run, same, nul, w) =
      line_loop_lem max_len old k keys rest n.1 (line_key-InBuffer max_len old l c v) in
    (l', ground arith, ground (arith, line_key-text max_len l c), nul, w)

-- Given a buffer of a positive length and keys up to a newline, keyboard_readline returns at the
-- newline, having read no further; the buffer holds the line that the keys edit, of fewer characters
-- than the buffer's length, with a NUL behind it, and no byte past the buffer's end is written.
pub keyboard_readline_lem :
    (buf : Bytes) (max_len : ℕ) (keys rest : List ℕ)
    → 0 < max_len
    → NoNewline keys
    → (l : Line) × (keyboard_readline buf max_len (keys ++ b'\n' ∷ rest) ≡ some (l, rest))
      × (text l ≡ edit_all (max_len - 1) [] keys)
      × (l.buf l.count ≡ 0)
      × (l.count < max_len)
      × ((j : ℕ) → max_len ≤ j → l.buf j ≡ buf j)
unfolding keyboard_readline
keyboard_readline_lem buf max_len keys rest pos n =
    let (l, run, same, nul, w) =
      line_loop_lem max_len buf (record { buf = buf; count = 0; echo = [] }) keys rest n
        (record { fits = pos; outside = λ j h. refl }) in
    (l, ground arith, same, nul, w.fits, w.outside)
