-- ===== src/Editor/Keys.antt =====
-- kernel/editor.c: every key keeps the cursor in the text and the text in its array.
use os_u.Prelude.{ℕ, zero, suc, ◌+◌, ◌-◌, ◌≤◌, ◌<◌, arith, Bytes}
use os_u.Editor.{
  Editor, line_start, line_end_from, line_end, insert_char, delete_at, insert_key, cursor_down,
  cursor_up, normal_key,
}

-- The cursor is in the text or at its end, and the text and its NUL fit the array of 4096.
pub record IsValid (e : Editor) : Type 0 where
  pub cursor_in : e.cursor ≤ e.len
  pub fits : e.len ≤ 4095

line_start-le : (buf : Bytes) (pos : ℕ) → line_start buf pos ≤ pos
unfolding line_start
line_start-le buf zero = omega arith
line_start-le buf (suc pos) = ground (arith, line_start-le buf pos)

line_end_from_bounds :
    (buf : Bytes) (n pos : ℕ)
    → (pos ≤ line_end_from buf n pos) × (line_end_from buf n pos ≤ pos + n)
unfolding line_end_from
line_end_from_bounds buf zero pos = omega arith
line_end_from_bounds buf (suc n) pos = ground (arith, line_end_from_bounds buf n (pos + 1))

line_end_bounds :
    (buf : Bytes) (len pos : ℕ)
    → pos ≤ len
    → (pos ≤ line_end buf len pos) × (line_end buf len pos ≤ len)
unfolding line_end
line_end_bounds buf len pos h = omega (arith, line_end_from_bounds buf (len - pos) pos)

cursor_down-le : (e : Editor) → IsValid e → cursor_down e ≤ e.len
unfolding cursor_down
cursor_down-le e v =
    let stop = line_end e.text e.len e.cursor in
    ground (arith, line_end_bounds e.text e.len e.cursor, line_end_bounds e.text e.len (stop + 1))

cursor_up-le : (e : Editor) → IsValid e → cursor_up e ≤ e.len
unfolding cursor_up
cursor_up-le e v =
    let start = line_start e.text e.cursor in
    ground (arith, line_start-le e.text e.cursor, line_start-le e.text (start - 1))

insert_char-IsValid : (e : Editor) (c : ℕ) → IsValid e → IsValid (insert_char e c).1
unfolding insert_char
insert_char-IsValid e c v = ground arith

delete_at-IsValid :
    (e : Editor) (pos : ℕ) → IsValid e → e.cursor ≤ pos → pos < e.len → IsValid (delete_at e pos)
unfolding delete_at
delete_at-IsValid e pos v h l = ground arith

insert_key-IsValid : (e : Editor) (c : ℕ) → IsValid e → IsValid (insert_key e c)
unfolding insert_key
insert_key-IsValid e c v =
    let back = record e { cursor = e.cursor - 1 } in
    ground (
      arith,
      insert_char-IsValid e c v,
      insert_char-IsValid e b'\n' v,
      delete_at-IsValid back (e.cursor - 1),
    )

normal_key-IsValid : (e : Editor) (c : ℕ) → IsValid e → IsValid (normal_key e c)
unfolding normal_key
normal_key-IsValid e c v =
    ground (arith, delete_at-IsValid e e.cursor v, cursor_down-le e v, cursor_up-le e v)

-- In both modes every key keeps the cursor within the text, and the text with its NUL within the 4096
-- characters of the array.
pub key-IsValid :
    (e : Editor) (c : ℕ) → IsValid e → IsValid (insert_key e c) × IsValid (normal_key e c)
key-IsValid e c v = (insert_key-IsValid e c v, normal_key-IsValid e c v)
