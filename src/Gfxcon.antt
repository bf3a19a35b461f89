-- ===== src/Gfxcon.antt =====
-- kernel/gfxcon.c: the text console on the frame buffer. An int is its 32 bits, a char its byte.
pub mod Cursor
pub mod Reach
pub mod Moves
pub mod Layout
pub mod Scroll
use os_u.Prelude.{
  ℕ, zero, suc, ◌+◌, ◌*◌, ◌/◌, ◌%◌, ◌^◌, Bool, true, false, ◌&&◌, List, [], ◌∷◌, Bytes, update,
  is_neg, add32, sub32, mul32, lt32, ltb, leb, ◌==◌, not, if◌then◌else◌,
}
use os_u.Vesa.Pixels.{Vesa, store3, store4, fetch3, fetch4, vesa_clear}
use os_u.Vesa.Draw.{rounds, vesa_put_char}

-- The static variables, with the driver below them.
pub record Gfxcon : Type 0 where
  pub vesa : Vesa
  pub active : Bool
  pub row : ℕ
  pub col : ℕ
  pub fg : ℕ
  pub bg : ℕ
  pub cols : ℕ
  pub rows : ℕ

-- `gfxcon_clear`
unfoldable pub gfxcon_clear : Gfxcon → Gfxcon
gfxcon_clear g =
    if not g.active then g else record g { vesa = vesa_clear g.vesa g.bg; row = 0; col = 0 }

-- What gfxcon_init sets.
abbrev pub started : Gfxcon → Gfxcon
started g =
    let cols = g.vesa.width / 8 in
    let rows = g.vesa.height / 16 in
    record g {
      active = true;
      row = 0;
      col = 0;
      fg = 0x00FF00;
      bg = 0;
      cols = if cols == 0 then 100 else cols;
      rows = if rows == 0 then 37 else rows;
    }

-- `gfxcon_init`
unfoldable pub gfxcon_init : Gfxcon → Gfxcon
unfolding gfxcon_clear
gfxcon_init g = if not g.vesa.enabled then record g { active = false } else gfxcon_clear (started g)

-- The index of a word or of a byte of the frame buffer, from the row, its length and the place in it.
abbrev pub index : ℕ → ℕ → ℕ → ℕ
index y pitch x = (y * pitch + x) % 2 ^ 32

-- How the loops of scroll_up read and write the frame buffer: at the place `x` of the row `y`.
pub record Cells : Type 0 where
  pub fetch : Bytes → ℕ → ℕ → ℕ
  pub store : Bytes → ℕ → ℕ → ℕ → Bytes

-- As words, as bytes, and as the three bytes of a pixel.
abbrev pub words : ℕ → Cells
words row_pixels = record {
  fetch = λ b y x. fetch4 b (index y row_pixels x * 4);
  store = λ b y x c. store4 b (index y row_pixels x * 4) c;
}

abbrev pub bytes : ℕ → Cells
bytes pitch = record {
  fetch = λ b y x. b (index y pitch x);
  store = λ b y x c. update b (index y pitch x) c;
}

abbrev pub triples : ℕ → Cells
triples pitch = record {
  fetch = λ b y x. fetch3 b (index y pitch (x * 3));
  store = λ b y x c. store3 b (index y pitch (x * 3)) c;
}

-- The loops of scroll_up that copy: `n` more cells of the row `y`, from the `x`-th on, and `n` more rows.
unfoldable pub copy_cells : Cells → ℕ → ℕ → ℕ → Bytes → Bytes
copy_cells cells zero x y b = b
copy_cells cells (suc n) x y b =
    copy_cells cells n (x + 1) y (cells.store b y x (cells.fetch b (y + 16) x))

unfoldable pub copy_rows : Cells → ℕ → ℕ → ℕ → Bytes → Bytes
unfolding copy_cells
copy_rows cells zero y width b = b
copy_rows cells (suc n) y width b = copy_rows cells n (y + 1) width (copy_cells cells width 0 y b)

-- The loops that clear the last rows.
unfoldable pub fill_cells : Cells → ℕ → ℕ → ℕ → ℕ → Bytes → Bytes
fill_cells cells zero x y color b = b
fill_cells cells (suc n) x y color b = fill_cells cells n (x + 1) y color (cells.store b y x color)

unfoldable pub fill_rows : Cells → ℕ → ℕ → ℕ → ℕ → Bytes → Bytes
unfolding fill_cells
fill_rows cells zero y width color b = b
fill_rows cells (suc n) y width color b =
    fill_rows cells n (add32 y 1) width color (fill_cells cells width 0 y color b)

-- The frame buffer after the loops for a mode of 32 bits, with rows of `row_pixels` words, and after those for
-- one of 24 bits, with rows of `pitch` bytes.
abbrev pub scrolled_words : ℕ → ℕ → ℕ → ℕ → Bytes → Bytes
scrolled_words row_pixels width height bg b =
    let last = sub32 height 16 in
    fill_rows (words row_pixels) (rounds last height) last (rounds 0 width) bg
      (copy_rows (words row_pixels) (rounds 0 last) 0 (rounds 0 width) b)

abbrev pub scrolled_triples : ℕ → ℕ → ℕ → ℕ → Bytes → Bytes
scrolled_triples pitch width height bg b =
    let last = sub32 height 16 in
    fill_rows (triples pitch) (rounds last height) last (rounds 0 width) bg
      (copy_rows (bytes pitch) (rounds 0 last) 0 (rounds 0 (mul32 width 3)) b)

-- `scroll_up`, which writes the frame buffer whatever vesa_target is.
unfoldable pub scroll_up : Gfxcon → Gfxcon
unfolding copy_rows fill_rows
scroll_up g =
    let v = g.vesa in
    let wide = scrolled_words (v.pitch / 4) v.width v.height g.bg v.front in
    let narrow = scrolled_triples v.pitch v.width v.height g.bg v.front in
    if not g.active
    then g
    else if v.bpp / 8 == 4
    then record g { vesa = record v { front = wide } }
    else if v.bpp / 8 == 3
    then record g { vesa = record v { front = narrow } }
    else g

-- A character drawn at the place of the cursor, as vesa_put_char is called.
abbrev draw_at : Gfxcon → ℕ → ℕ → Vesa
draw_at g col c = vesa_put_char g.vesa (mul32 col 8) (mul32 g.row 16) c g.fg g.bg

-- The cursor a column to the left, with a space drawn there.
abbrev step_back : Gfxcon → Gfxcon
step_back g = let col = sub32 g.col 1 in record g { col = col; vesa = draw_at g col b' ' }

-- gfxcon_putc up to the tests of the cursor: a byte of 128 or more is a negative char, and does nothing.
unfoldable pub put_key : Gfxcon → ℕ → Gfxcon
put_key g c =
    if c == b'\n'
    then record g { col = 0; row = add32 g.row 1 }
    else if c == b'\r'
    then record g { col = 0 }
    else if c == b'\t'
    then record g { col = add32 g.col 8 / 8 * 8 }
    else if c == 8
    then (if lt32 0 g.col then step_back g else g)
    else if leb 32 c && ltb c 128
    then record g { vesa = draw_at g g.col c; col = add32 g.col 1 }
    else g

-- The line wrap.
unfoldable pub wrap : Gfxcon → Gfxcon
wrap g = if not (lt32 g.col g.cols) then record g { col = 0; row = add32 g.row 1 } else g

-- The rounds of the loop that scrolls, which moves the cursor up by one each time.
unfoldable pub scroll_times : ℕ → Gfxcon → Gfxcon
unfolding scroll_up
scroll_times zero g = g
scroll_times (suc n) g = let up = scroll_up g in scroll_times n (record up { row = sub32 up.row 1 })

-- `gfxcon_putc`; the loop runs while `cursor_row >= gfx_rows`.
unfoldable pub gfxcon_putc : Gfxcon → ℕ → Gfxcon
unfolding put_key wrap scroll_times
gfxcon_putc g c =
    let h = wrap (put_key g c) in
    if not g.active
    then g
    else scroll_times (if lt32 h.row h.rows then 0 else sub32 h.row h.rows + 1) h

-- `gfxcon_puts`
unfoldable pub gfxcon_puts : Gfxcon → List ℕ → Gfxcon
unfolding gfxcon_putc
gfxcon_puts g [] = g
gfxcon_puts g (c ∷ s) = let rest = gfxcon_puts (gfxcon_putc g c) s in if c == 0 then g else rest

-- `gfxcon_set_fg`, `gfxcon_set_bg`
unfoldable pub gfxcon_set_fg : Gfxcon → ℕ → Gfxcon
gfxcon_set_fg g color = record g { fg = color }

unfoldable pub gfxcon_set_bg : Gfxcon → ℕ → Gfxcon
gfxcon_set_bg g color = record g { bg = color }

-- `gfxcon_set_cursor` for one of the two: the four tests, two by two.
abbrev pub clamp : ℕ → ℕ → ℕ
clamp a count = let b = if is_neg a then 0 else a in if lt32 b count then b else sub32 count 1

-- `gfxcon_set_cursor`
unfoldable pub gfxcon_set_cursor : Gfxcon → ℕ → ℕ → Gfxcon
gfxcon_set_cursor g row col = record g { row = clamp row g.rows; col = clamp col g.cols }
