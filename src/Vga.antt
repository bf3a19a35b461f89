-- ===== src/Vga.antt =====
-- kernel/vga.c: the text console. The console of graphics mode (gfxcon.c) is not active.
pub mod Laws
pub mod Decimal
pub mod Printf
use os_u.Prelude.{
  ℕ, zero, suc, ◌+◌, ◌-◌, ◌*◌, ◌/◌, ◌%◌, ◌^◌, Bool, true, false, ◌&&◌, List, [], ◌∷◌, Bytes, update,
  leb, ltb, ◌==◌, if◌then◌else◌,
}

-- The 80 by 25 cells of VGA memory, `cursor_x`, `cursor_y` and `color`.
pub record Vga : Type 0 where
  pub mem : Bytes
  pub cursor_x : ℕ
  pub cursor_y : ℕ
  pub color : ℕ

-- `make_cell`
unfoldable make_cell : ℕ → ℕ → ℕ
make_cell c col = c + col * 2 ^ 8

-- The memory after the loops of scroll_if_needed, cell by cell: each row takes the one below it, and
-- the last is blank.
abbrev scrolled : Bytes → ℕ → Bytes
scrolled mem blank =
    λ i. if ltb i (24 * 80) then mem (i + 80) else if ltb i (25 * 80) then blank else mem i

-- `scroll_if_needed`
unfoldable pub scroll_if_needed : Vga → Vga
unfolding make_cell
scroll_if_needed v =
    if ltb v.cursor_y 25
    then v
    else record v { mem = scrolled v.mem (make_cell b' ' v.color); cursor_y = 24 }

-- `vga_clear`
unfoldable pub vga_clear : Vga → Vga
unfolding make_cell
vga_clear v = record v {
  mem = λ i. if ltb i (80 * 25) then make_cell b' ' v.color else v.mem i;
  cursor_x = 0;
  cursor_y = 0;
}

-- `vga_init`: light grey on black.
unfoldable pub vga_init : Bytes → Vga
unfolding vga_clear
vga_init mem = vga_clear (record { mem = mem; cursor_x = 0; cursor_y = 0; color = 7 })

abbrev pub cell_of : Vga → ℕ
cell_of v = v.cursor_y * 80 + v.cursor_x

-- The first part of vga_putc: the character itself.
unfoldable pub put_char : Vga → ℕ → Vga
unfolding make_cell
put_char v c =
    if c == b'\n'
    then record v { cursor_x = 0; cursor_y = v.cursor_y + 1 }
    else if c == b'\r'
    then record v { cursor_x = 0 }
    else if c == 8
    then (if ltb 0 v.cursor_x
        then record v {
          cursor_x = v.cursor_x - 1;
          mem = update v.mem (v.cursor_y * 80 + (v.cursor_x - 1)) (make_cell b' ' v.color);
        }
        else v)
    else record v {
      mem = update v.mem (cell_of v) (make_cell c v.color);
      cursor_x = v.cursor_x + 1;
    }

-- The wrap at the end of a line.
abbrev pub wrap_line : Vga → Vga
wrap_line v = if leb 80 v.cursor_x then record v { cursor_x = 0; cursor_y = v.cursor_y + 1 } else v

-- `vga_putc`
unfoldable pub vga_putc : Vga → ℕ → Vga
unfolding put_char scroll_if_needed
vga_putc v c = scroll_if_needed (wrap_line (put_char v c))

-- `vga_puts`
unfoldable pub vga_puts : Vga → List ℕ → Vga
vga_puts v [] = v
vga_puts v (c ∷ s) = let rest = vga_puts (vga_putc v c) s in if c == 0 then v else rest

-- The loop of vga_print_dec with room for `n` digits: those of the value in front of `out`.
unfoldable pub dec_digits : ℕ → ℕ → List ℕ → List ℕ
dec_digits zero value out = out
dec_digits (suc n) value out =
    let rest = dec_digits n (value / 10) ((b'0' + value % 10) ∷ out) in
    if value == 0 then out else rest

-- What vga_print_dec prints.
unfoldable pub dec_text : ℕ → List ℕ
dec_text value = let digits = dec_digits 10 value [] in if value == 0 then b'0' ∷ [] else digits

-- `vga_print_dec`
unfoldable pub vga_print_dec : Vga → ℕ → Vga
unfolding dec_text vga_puts
vga_print_dec v value = vga_puts v (dec_text value)

-- `vga_set_cursor`
unfoldable vga_set_cursor : Vga → ℕ → ℕ → Vga
vga_set_cursor v x y = record v {
  cursor_x = if leb 80 x then 79 else x;
  cursor_y = if leb 25 y then 24 else y;
}
