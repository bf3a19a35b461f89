-- ===== src/Gfxcon/Reach.antt =====
-- kernel/gfxcon.c: the operations of the console, one after the other.
use os_u.Prelude.{
  ℕ, ◌^◌, ◌<◌, ◌≡◌, refl, sym, ◌∙◌, ap, true, false, not, List, if◌then◌else◌, arith,
}
use mathlib.Core.Path.{subst}
use os_u.Vesa.Pixels.{vesa_clear}
use os_u.Gfxcon.{
  Gfxcon, started, gfxcon_clear, gfxcon_init, gfxcon_set_fg, gfxcon_set_bg, gfxcon_putc,
  gfxcon_puts, gfxcon_set_cursor,
}
use os_u.Gfxcon.Cursor.{Fits, gfxcon_putc_lem, gfxcon_puts_lem}

-- The operations of the console.
pub data Step : Gfxcon → Gfxcon → Type 0 where
  puts : (g : Gfxcon) (s : List ℕ) → Step g (gfxcon_puts g s)
  putc : (g : Gfxcon) (c : ℕ) → Step g (gfxcon_putc g c)
  clear : (g : Gfxcon) → Step g (gfxcon_clear g)
  set_fg : (g : Gfxcon) (color : ℕ) → Step g (gfxcon_set_fg g color)
  set_bg : (g : Gfxcon) (color : ℕ) → Step g (gfxcon_set_bg g color)
  set_cursor : (g : Gfxcon) (row col : ℕ) → Step g (gfxcon_set_cursor g row col)

pub data Steps : Gfxcon → Gfxcon → Type 0 where
  stop : (g : Gfxcon) → Steps g g
  more : {g h k : Gfxcon} → Step g h → Steps h k → Steps g k

-- An active console with its cursor on the screen.
abbrev pub IsReady : Gfxcon → Type 0
IsReady g = (g.active ≡ true) × Fits g

gfxcon_clear-IsReady : (g : Gfxcon) → IsReady g → IsReady (gfxcon_clear g)
unfolding gfxcon_clear
gfxcon_clear-IsReady g (a, f) =
    subst IsReady
      (sym (
        ap (λ t. if not t then g else record g { vesa = vesa_clear g.vesa g.bg; row = 0; col = 0 })
          a))
      (
        a,
        record {
          row = omega (arith, f.row);
          col = omega (arith, f.col);
          rows = f.rows;
          cols = f.cols;
        },
      )

gfxcon_set_cursor-Fits : (g : Gfxcon) (row col : ℕ) → Fits g → Fits (gfxcon_set_cursor g row col)
unfolding gfxcon_set_cursor
gfxcon_set_cursor-Fits g row col f = record {
  row = ground (arith, f.row, f.rows);
  col = ground (arith, f.col, f.cols);
  rows = f.rows;
  cols = f.cols;
}

Step-IsReady : (g h : Gfxcon) → Step g h → IsReady g → IsReady h
unfolding gfxcon_set_cursor gfxcon_set_fg gfxcon_set_bg
Step-IsReady _ _ (puts g s) (a, f) =
    let (p, f', same) = gfxcon_puts_lem g s a f in (same.active ∙ a, f')
Step-IsReady _ _ (putc g c) (a, f) =
    let (p, f', same) = gfxcon_putc_lem g c a f in (same.active ∙ a, f')
Step-IsReady _ _ (clear g) w = gfxcon_clear-IsReady g w
Step-IsReady _ _ (set_fg g color) (a, f) =
    (a, record { row = f.row; col = f.col; rows = f.rows; cols = f.cols })
Step-IsReady _ _ (set_bg g color) (a, f) =
    (a, record { row = f.row; col = f.col; rows = f.rows; cols = f.cols })
Step-IsReady _ _ (set_cursor g row col) (a, f) = (a, gfxcon_set_cursor-Fits g row col f)

Steps-IsReady : (g h : Gfxcon) → Steps g h → IsReady g → IsReady h
Steps-IsReady _ _ (stop g) w = w
Steps-IsReady _ _ (more {g} {h} {k} one rest) w = Steps-IsReady h k rest (Step-IsReady g h one w)

gfxcon_init-IsReady :
    (g : Gfxcon)
    → g.vesa.enabled ≡ true
    → g.vesa.width < 2 ^ 32
    → g.vesa.height < 2 ^ 32
    → IsReady (gfxcon_init g)
unfolding gfxcon_init gfxcon_clear
gfxcon_init-IsReady g e hw hh =
    subst IsReady
      (sym (ap (λ t. if not t then record g { active = false } else gfxcon_clear (started g)) e))
      (
        refl,
        record { row = ground arith; col = ground arith; rows = ground arith; cols = ground arith },
      )

-- Whatever characters it is sent and wherever the cursor is set, a console that was started on a
-- graphics mode, with a width and a height of 32 bits, stays active, with its cursor on the screen.
pub gfxcon_init-Steps-IsReady :
    (g h : Gfxcon)
    → g.vesa.enabled ≡ true
    → g.vesa.width < 2 ^ 32
    → g.vesa.height < 2 ^ 32
    → Steps (gfxcon_init g) h
    → IsReady h
gfxcon_init-Steps-IsReady g h e hw hh s =
    Steps-IsReady (gfxcon_init g) h s (gfxcon_init-IsReady g e hw hh)
