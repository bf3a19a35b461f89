-- ===== src/Vga/Laws.antt =====
-- kernel/vga.c: the cursor stays on the screen, and only the screen is written.
use os_u.Prelude.{
  ℕ, ◌≤◌, ◌<◌, ◌≡◌, Bool, true, false, List, [], ◌∷◌, arith, Bytes, ◌==◌, if◌then◌else◌,
}
use os_u.Vga.{Vga, scroll_if_needed, put_char, wrap_line, vga_putc, vga_puts}

pub record IsValid (v : Vga) : Type 0 where
  pub in_row : v.cursor_x < 80
  pub in_screen : v.cursor_y < 25

-- A console whose cursor is on the screen, and which agrees with a memory outside of the screen.
pub record Safe (old : Bytes) (v : Vga) : Type 0 where
  pub valid : IsValid v
  pub outside : (i : ℕ) → 2000 ≤ i → v.mem i ≡ old i

put_char_bounds :
    (v : Vga) (c : ℕ)
    → IsValid v
    → let w = wrap_line (put_char v c) in (w.cursor_x < 80) × (w.cursor_y ≤ 25)
unfolding put_char
put_char_bounds v c h = ground arith

put_char-outside :
    (v : Vga) (c i : ℕ) → IsValid v → 2000 ≤ i → (wrap_line (put_char v c)).mem i ≡ v.mem i
unfolding put_char
put_char-outside v c i h l = ground arith

scroll-Safe :
    (old : Bytes) (v : Vga)
    → v.cursor_x < 80
    → v.cursor_y ≤ 25
    → ((i : ℕ) → 2000 ≤ i → v.mem i ≡ old i)
    → Safe old (scroll_if_needed v)
unfolding scroll_if_needed
scroll-Safe old v h l o = record { valid = ground arith; outside = λ i m. ground (arith, o i m) }

vga_putc-Safe : (old : Bytes) (v : Vga) (c : ℕ) → Safe old v → Safe old (vga_putc v c)
unfolding vga_putc
vga_putc-Safe old v c s =
    let b = put_char_bounds v c s.valid in
    unfold vga_putc in
    scroll-Safe old (wrap_line (put_char v c)) b.0 b.1
      (λ i l. ground (arith, put_char-outside v c i s.valid l, s.outside i l))

-- Printing any text with the cursor on the screen leaves it on the screen, and writes no cell
-- outside of the 80 by 25.
pub vga_puts-Safe :
    (old : Bytes) (v : Vga) (text : List ℕ) → Safe old v → Safe old (vga_puts v text)
unfolding vga_puts
vga_puts-Safe old v [] s = s
vga_puts-Safe old v (c ∷ text) s =
    stop_or (c == 0) (vga_puts-Safe old (vga_putc v c) text (vga_putc-Safe old v c s))
  where
    stop_or :
        (b : Bool)
        → Safe old (vga_puts (vga_putc v c) text)
        → Safe old (if b then v else vga_puts (vga_putc v c) text)
    stop_or true r = s
    stop_or false r = r
