-- ===== src/Editor/Buffer.antt =====
-- kernel/editor.c: insert_char and delete_at on the text as a whole.
use os_u.Prelude.{
  ℕ, zero, suc, ◌+◌, ◌-◌, ◌≤◌, ◌<◌, ◌≡◌, ◌&&◌, arith, Bytes, update, ltb, leb, ◌==◌, if◌then◌else◌,
}
use os_u.Editor.{Editor, shift_up, shift_down, insert_char, delete_at}

shift_up-at :
    (buf : Bytes) (cursor n j : ℕ)
    → shift_up buf cursor n j ≡ (if ltb cursor j && leb j (cursor + n) then buf (j - 1) else buf j)
unfolding shift_up
shift_up-at buf cursor zero j = ground arith
shift_up-at buf cursor (suc n) j =
    ground (arith, shift_up-at (update buf (cursor + suc n) (buf (cursor + n))) cursor n j)

shift_down-at :
    (buf : Bytes) (i n j : ℕ)
    → shift_down buf i n j ≡ (if leb i j && ltb j (i + n) then buf (j + 1) else buf j)
unfolding shift_down
shift_down-at buf i zero j = ground arith
shift_down-at buf i (suc n) j =
    ground (arith, shift_down-at (update buf i (buf (i + 1))) (i + 1) n j)

-- insert_char refuses exactly when the text has 4095 characters. Otherwise the character stands at the
-- cursor, the text before it is as it was, the text behind it moves up by one and ends in a NUL, the
-- cursor goes past the character, and nothing behind the NUL changes.
pub insert_char_lem :
    (e : Editor) (c j : ℕ)
    → e.cursor ≤ e.len
    → e.len ≤ 4095
    → let (done, e') = insert_char e c in
      (done ≡ ltb e.len 4095)
      × (e.len < 4095 → e'.len ≡ e.len + 1)
      × (e.len < 4095 → e'.cursor ≡ e.cursor + 1)
      × (e.len < 4095
          → e'.text j ≡ (
              if ltb j e.cursor
              then e.text j
              else if j == e.cursor
              then c
              else if leb j e.len
              then e.text (j - 1)
              else if j == e.len + 1
              then 0
              else e.text j))
unfolding insert_char
insert_char_lem e c j h b = (
  ground arith,
  λ l. ground arith,
  λ l. ground arith,
  λ l. ground (arith, shift_up-at e.text e.cursor (e.len - e.cursor) j),
)

-- delete_at inside the text moves what is behind the position down by one, and the text ends in a NUL.
pub delete_at_lem :
    (e : Editor) (pos j : ℕ)
    → pos < e.len
    → let e' = delete_at e pos in
      (e'.len + 1 ≡ e.len)
      × (e'.cursor ≡ e.cursor)
      × (e'.text j ≡ (
          if j + 1 == e.len
          then 0
          else if leb pos j && ltb (j + 1) e.len
          then e.text (j + 1)
          else e.text j))
unfolding delete_at
delete_at_lem e pos j h =
    (ground arith, ground arith, ground (arith, shift_down-at e.text pos (e.len - pos - 1) j))

-- With the cursor within the text and room for a character, typing a character and deleting it
-- where it was typed gives the text back, with its NUL.
pub delete-insert :
    (e : Editor) (c j : ℕ)
    → e.cursor ≤ e.len
    → e.len < 4095
    → let e' = delete_at (insert_char e c).1 e.cursor in
      (e'.len ≡ e.len) × (j < e.len → e'.text j ≡ e.text j) × (e'.text e.len ≡ 0)
delete-insert e c j h b =
    let e1 = (insert_char e c).1 in
    let i = insert_char_lem e c j h (omega arith) in
    let i' = insert_char_lem e c (j + 1) h (omega arith) in
    let d = delete_at_lem e1 e.cursor j (omega (arith, i.1 b)) in
    let d' = delete_at_lem e1 e.cursor e.len (omega (arith, i.1 b)) in
    (
      omega (arith, d.0, i.1 b),
      λ l. ground (arith, d.2, i.1 b, i.3 b, i'.3 b),
      ground (arith, d'.2, i.1 b),
    )
