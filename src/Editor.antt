-- ===== src/Editor.antt =====
-- kernel/editor.c: the text buffer of the editor and what each key does to it.
pub mod Buffer
pub mod Keys
use os_u.Prelude.{
  ℕ, zero, suc, ◌+◌, ◌-◌, Bool, true, false, ◌&&◌, ◌||◌, Bytes, update, ltb, leb, ◌==◌,
  if◌then◌else◌,
}

-- `text`, `len`, `cursor`, `mode == MODE_INSERT` and `dirty`.
pub record Editor : Type 0 where
  pub text : Bytes
  pub len : ℕ
  pub cursor : ℕ
  pub insert : Bool
  pub dirty : Bool

-- `line_start`
unfoldable pub line_start : Bytes → ℕ → ℕ
line_start buf zero = 0
line_start buf (suc pos) =
    let rest = line_start buf pos in if buf pos == b'\n' then suc pos else rest

-- The loop of line_end with `n` characters left.
unfoldable pub line_end_from : Bytes → ℕ → ℕ → ℕ
line_end_from buf zero pos = pos
line_end_from buf (suc n) pos =
    let rest = line_end_from buf n (pos + 1) in if buf pos == b'\n' then pos else rest

-- `line_end`
unfoldable pub line_end : Bytes → ℕ → ℕ → ℕ
unfolding line_end_from
line_end buf len pos = line_end_from buf (len - pos) pos

-- `for (i = len; i > cursor; i--) buf[i] = buf[i - 1];` with `n` rounds left, from `cursor + n` down.
unfoldable pub shift_up : Bytes → ℕ → ℕ → Bytes
shift_up buf cursor zero = buf
shift_up buf cursor (suc n) = shift_up (update buf (cursor + suc n) (buf (cursor + n))) cursor n

-- `insert_char`: `false` is the result -1. `FS_MAX_FILE_SIZE` is 4096.
unfoldable pub insert_char : Editor → ℕ → Bool × Editor
unfolding shift_up
insert_char e c = if leb 4096 (e.len + 1) then (false, e) else (
  true,
  record e {
    text = update (update (shift_up e.text e.cursor (e.len - e.cursor)) e.cursor c) (e.len + 1) 0;
    len = e.len + 1;
    cursor = e.cursor + 1;
  },
)

-- `for (i = pos; i + 1 < len; i++) buf[i] = buf[i + 1];` with `n` rounds left.
unfoldable pub shift_down : Bytes → ℕ → ℕ → Bytes
shift_down buf i zero = buf
shift_down buf i (suc n) = shift_down (update buf i (buf (i + 1))) (i + 1) n

-- `delete_at`
unfoldable pub delete_at : Editor → ℕ → Editor
unfolding shift_down
delete_at e pos = if leb e.len pos then e else record e {
  text = update (shift_down e.text pos (e.len - pos - 1)) (e.len - 1) 0;
  len = e.len - 1;
}

-- A character typed in insert mode, which counts as a change if it fits.
abbrev pub type_char : Editor → ℕ → Editor
type_char e c = let (done, e') = insert_char e c in if done then record e' { dirty = true } else e

-- The keys of insert mode but Ctrl+S. `KEY_LEFT` is 0x82 and `KEY_RIGHT` 0x83.
unfoldable pub insert_key : Editor → ℕ → Editor
unfolding insert_char delete_at
insert_key e c =
    if c == 27
    then record e { insert = false }
    else if c == 8
    then (if ltb 0 e.cursor
        then record (delete_at (record e { cursor = e.cursor - 1 }) (e.cursor - 1)) { dirty = true }
        else e)
    else if c == b'\n' || c == b'\r'
    then type_char e b'\n'
    else if leb 32 c && leb c 126
    then type_char e c
    else if c == 0x82 && ltb 0 e.cursor
    then record e { cursor = e.cursor - 1 }
    else if c == 0x83 && ltb e.cursor e.len
    then record e { cursor = e.cursor + 1 }
    else e

-- The smaller of a column and a line's length.
abbrev pub column : ℕ → ℕ → ℕ
column col len = if ltb col len then col else len

-- The key `j`: the same column of the next line, or its end.
unfoldable pub cursor_down : Editor → ℕ
unfolding line_start line_end
cursor_down e =
    let col = e.cursor - line_start e.text e.cursor in
    let stop = line_end e.text e.len e.cursor in
    let next_end = line_end e.text e.len (stop + 1) in
    if ltb stop e.len && e.text stop == b'\n'
    then stop + 1 + column col (next_end - (stop + 1))
    else e.cursor

-- The key `k`: the same column of the line before.
unfoldable pub cursor_up : Editor → ℕ
unfolding line_start
cursor_up e =
    let start = line_start e.text e.cursor in
    let prev_start = line_start e.text (start - 1) in
    if ltb 0 start
    then prev_start + column (e.cursor - start) (start - 1 - prev_start)
    else e.cursor

-- The keys of normal mode but Ctrl+S and the colon.
unfoldable pub normal_key : Editor → ℕ → Editor
unfolding delete_at cursor_down cursor_up
normal_key e c =
    if c == b'i'
    then record e { insert = true }
    else if c == b'h' || c == 0x82
    then (if ltb 0 e.cursor then record e { cursor = e.cursor - 1 } else e)
    else if c == b'l' || c == 0x83
    then (if ltb e.cursor e.len then record e { cursor = e.cursor + 1 } else e)
    else if c == b'x' || c == 0x88
    then (if ltb e.cursor e.len then record (delete_at e e.cursor) { dirty = true } else e)
    else if c == b'j' || c == 0x81
    then record e { cursor = cursor_down e }
    else if c == b'k' || c == 0x80
    then record e { cursor = cursor_up e }
    else e
