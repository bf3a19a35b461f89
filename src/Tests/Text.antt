-- ===== src/Tests/Text.antt =====
-- Inputs of kernel/editor.c, kernel/vga.c and kernel/string.c.
use os_u.Prelude.{ℕ, ◌≡◌, refl, true, false, List, [], ◌∷◌, arith, Bytes, ◌==◌, if◌then◌else◌}
use os_u.Cstring.{atoi}
use os_u.Editor.{Editor, insert_key, normal_key}
use os_u.Editor.Keys as EditorKeys
use os_u.Editor.Keys.{key-IsValid}
use os_u.Vga.{Vga, vga_puts, dec_text}
use os_u.Vga.Laws.{Safe, vga_puts-Safe}
use os_u.Vga.Decimal.{atoi-dec_text}

-- "ab" in insert mode, the cursor between the letters.
abbrev editing : Editor
editing = record {
  text = λ i. if i == 0 then b'a' else if i == 1 then b'b' else 0;
  len = 2;
  cursor = 1;
  insert = true;
  dirty = false;
}

editing-IsValid : EditorKeys.IsValid editing
editing-IsValid = record { cursor_in = omega arith; fits = omega arith }

abbrev blank : Bytes
blank = λ i. 0

abbrev letter : List ℕ
letter = b'a' ∷ []

abbrev two_letters : List ℕ
two_letters = b'a' ∷ b'b' ∷ []

-- The cursor is at the end of the last line.
abbrev console : Vga
console = record { mem = blank; cursor_x = 79; cursor_y = 24; color = 7 }

console-Safe : Safe blank console
console-Safe = record {
  valid = record { in_row = omega arith; in_screen = omega arith };
  outside = λ i h. refl;
}

key-IsValid_example :
    EditorKeys.IsValid (insert_key editing b'x') × EditorKeys.IsValid (normal_key editing b'x')
key-IsValid_example = key-IsValid editing (b'x') editing-IsValid

vga_puts-Safe_example : Safe blank (vga_puts console (b'a' ∷ b'\n' ∷ b'b' ∷ []))
vga_puts-Safe_example = vga_puts-Safe blank console (b'a' ∷ b'\n' ∷ b'b' ∷ []) console-Safe

atoi-dec_text_example : atoi (dec_text 4096) ≡ 4096
atoi-dec_text_example = atoi-dec_text 4096 (omega arith)
