-- ===== src/Tests/Graphics.antt =====
-- kernel/vesa.c, kernel/gfxcon.c, kernel/v86.c and kernel/gui.c on concrete inputs.
use os_u.Prelude.{
  ℕ, length, List, ◌≤◌, Option, ◌%◌, ◌≡◌, inl, refl, true, false, some, [], ◌∷◌, Bytes, ◌==◌,
  if◌then◌else◌, arith,
}
use os_u.Vesa.Pixels.{Vesa, is_outside, vesa_get_pixel}
use os_u.Vesa.Pixels.Place.{IsValid, shade}
use os_u.Vesa.Draw.{vesa_fill_rect, vesa_draw_line}
use os_u.Vesa.Draw.Rect.{vesa_fill_rect_lem}
use os_u.Vesa.Draw.Paints.{Paints}
use os_u.Vesa.Draw.Line.{vesa_draw_line_lem}
use os_u.Gfxcon.{Gfxcon, scroll_up, gfxcon_init, gfxcon_puts}
use os_u.Gfxcon.Cursor.{Fits, Placed, gfxcon_puts_lem}
use os_u.Gfxcon.Reach.{stop, more, puts, IsReady, gfxcon_init-Steps-IsReady}
use os_u.Gfxcon.Scroll.{get_pixel-scroll_up}
use os_u.V86.{emulate_instruction}
use os_u.V86.Stack.{emulate_int-emulate_iret}
use Prim.{tt}
use os_u.Gui.{Pointer, gui_start, gui_rounds}
use os_u.Gui.Texts.{AllShort}
use os_u.Gui.Laws.{OnScreen, gui_start-gui_rounds}

-- A screen of 8 by 32 pixels of 32 bits.
abbrev screen : Vesa
screen = record {
  front = λ i. i % 256;
  back = λ i. 0;
  width = 8;
  height = 32;
  pitch = 32;
  bpp = 32;
  enabled = true;
  use_backbuffer = false;
  has_backbuffer = true;
}

screen-IsValid : IsValid screen
screen-IsValid = record {
  on = refl;
  depth = inl refl;
  words = λ e. omega arith;
  triples = λ e. omega arith;
  fits = omega arith;
  room = λ e. omega arith;
}

-- The same screen, drawn to in the back buffer.
abbrev buffered : Vesa
buffered = record screen { use_backbuffer = true }

buffered-IsValid : IsValid buffered
buffered-IsValid = record {
  on = refl;
  depth = inl refl;
  words = λ e. omega arith;
  triples = λ e. omega arith;
  fits = omega arith;
  room = λ e. omega arith;
}

vesa_fill_rect_lem_example : vesa_get_pixel (vesa_fill_rect buffered 1 1 2 2 5) 2 2 ≡ 5
vesa_fill_rect_lem_example =
    vesa_fill_rect_lem buffered 1 1 2 2 5 2 2 buffered-IsValid (omega arith) (omega arith)
      (omega arith) (omega arith)

-- A line to the left and down.
vesa_draw_line_lem_example :
    (u : Vesa) × (vesa_draw_line 6 screen 6 1 1 3 5 ≡ some u)
    × Paints 5 screen u
    × (is_outside screen 6 1 ≡ false → vesa_get_pixel u 6 1 ≡ shade screen 5)
    × (is_outside screen 1 3 ≡ false → vesa_get_pixel u 1 3 ≡ shade screen 5)
vesa_draw_line_lem_example =
    vesa_draw_line_lem 6 screen 6 1 1 3 5 screen-IsValid (omega arith) (omega arith) (omega arith)
      (omega arith) (omega arith) (omega arith) (omega arith) (omega arith)

-- A console of one column and two rows on it.
abbrev console : Gfxcon
console = record {
  vesa = screen;
  active = true;
  row = 1;
  col = 0;
  fg = 0x00FF00;
  bg = 0;
  cols = 1;
  rows = 2;
}

console-Fits : Fits console
console-Fits = record {
  row = omega arith;
  col = omega arith;
  rows = omega arith;
  cols = omega arith;
}

get_pixel-scroll_up_example :
    vesa_get_pixel (scroll_up console).vesa 3 4 ≡ vesa_get_pixel screen 3 20
get_pixel-scroll_up_example =
    get_pixel-scroll_up console 3 4 screen-IsValid refl refl (omega arith) (λ i. omega arith) refl

gfxcon_puts_lem_example : Placed console (1, 0) (gfxcon_puts console (b'A' ∷ b'\n' ∷ []))
unfolding os_u.Gfxcon.Cursor.places
gfxcon_puts_lem_example = gfxcon_puts_lem console (b'A' ∷ b'\n' ∷ []) refl console-Fits

abbrev moved : Gfxcon
moved = gfxcon_puts (gfxcon_init console) (b'A' ∷ [])

gfxcon_init-Steps-IsReady_example : IsReady moved
gfxcon_init-Steps-IsReady_example =
    gfxcon_init-Steps-IsReady console moved refl (omega arith) (omega arith)
      (more (puts (gfxcon_init console) (b'A' ∷ [])) (stop moved))

-- INT 10h at address 0x7000 with the stack at 8000:0100; its vector leads to 0x9000, an IRET.
abbrev frame : ℕ → ℕ
frame i = if i == 3 then 0x100 else if i == 11 then 0x8000 else if i == 8 then 5 else 0x20

abbrev memory : Bytes
memory a =
    if a == 0x7000 then 0xCD else if a == 0x7001 then 0x10 else if a == 0x9000 then 0xCF else 0

abbrev after : Bytes
after = (emulate_instruction 0x7000 frame memory false).mem

emulate_int-emulate_iret_example :
    (emulate_instruction 0x9000
        (emulate_instruction 0x7000 frame memory false).regs
        after
        false).regs
      8
    ≡ 7
unfolding emulate_instruction
emulate_int-emulate_iret_example =
    emulate_int-emulate_iret 0x7000 0x9000 frame memory false false 8
      (record { aligned = refl; low = omega arith; high = omega arith }) (omega arith) (omega arith)
      refl (λ e. omega arith) refl

-- The window is grabbed at its title and dragged far beyond the right edge.
abbrev rounds : List (Option Pointer × List ℕ)
rounds =
    (some (record { x = 100; y = 65; buttons = 1 }), b'h' ∷ b'i' ∷ [])
    ∷ (some (record { x = 799; y = 10; buttons = 1 }), b'\n' ∷ [])
    ∷ []

gui_start-gui_rounds_example :
    let g = gui_rounds 800 600 (gui_start 800 600) rounds in
    OnScreen 800 600 g.main_win
    × (length g.input_line ≤ 127)
    × (length g.log_lines ≤ 8)
    × AllShort g.log_lines
gui_start-gui_rounds_example =
    gui_start-gui_rounds 800 600 rounds (omega arith) (omega arith) (omega arith) (omega arith)
      ((omega arith, omega arith), ((omega arith, omega arith), tt))
