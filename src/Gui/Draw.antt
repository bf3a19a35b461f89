-- ===== src/Gui/Draw.antt =====
-- kernel/gui.c: what gui_run draws, on the model of kernel/vesa.c. An int is its 32 bits.
use os_u.Prelude.{
  ℕ, zero, suc, ◌+◌, ◌*◌, ◌/◌, ◌%◌, ◌^◌, Option, none, some, List, [], ◌∷◌, ◌++◌, length, is_neg,
  add32, sub32, ◌==◌, not, if◌then◌else◌, codes,
}
use os_u.Vesa.Pixels.{Vesa, vesa_put_pixel, vesa_present}
use os_u.Vesa.Draw.{vesa_fill_rect, vesa_put_string, vesa_draw_line, vesa_draw_rect}
use os_u.Gui.{Gui}

-- `VESA_RGB`
abbrev rgb : ℕ → ℕ → ℕ → ℕ
rgb r g b = r * 2 ^ 16 + g * 2 ^ 8 + b

infixl 5 ◌>>=◌
abbrev ◌>>=◌ : Option Vesa → (Vesa → Option Vesa) → Option Vesa
none >>= f = none
some v >>= f = f v

-- The loop of draw_background over `n` more rows, with fuel for each line.
unfoldable background_rows : ℕ → ℕ → ℕ → Vesa → Option Vesa
unfolding vesa_draw_line
background_rows fuel zero y v = some v
background_rows fuel (suc n) y v =
    let shade = (40 + y * 80 / v.height) % 256 in
    vesa_draw_line fuel v 0 y (sub32 v.width 1) y (rgb (shade / 2) (shade / 2) shade)
    >>= (λ v. background_rows fuel n (y + 1) v)

-- `draw_background`
unfoldable draw_background : ℕ → Vesa → Option Vesa
unfolding background_rows
draw_background fuel v = if not v.enabled then some v else background_rows fuel v.height 0 v

-- The digits of the seconds, of which there is room for 16, in front of `out`.
unfoldable seconds_digits : ℕ → ℕ → List ℕ → List ℕ
seconds_digits zero secs out = out
seconds_digits (suc n) secs out =
    let rest = seconds_digits n (secs / 10) ((b'0' + secs % 10) ∷ out) in
    if secs == 0 then out else rest

abbrev seconds_text : ℕ → List ℕ
seconds_text secs = (if secs == 0 then b'0' ∷ [] else seconds_digits 16 secs []) ++ (b's' ∷ [])

-- `draw_taskbar`, for the ticks of the timer, 100 in a second.
unfoldable draw_taskbar : ℕ → ℕ → Vesa → Option Vesa
unfolding vesa_fill_rect vesa_draw_line vesa_put_string seconds_digits
draw_taskbar fuel ticks v =
    let y = sub32 v.height 24 in
    let text = seconds_text (ticks / 100) in
    let tx = sub32 (sub32 v.width (length text * 8)) 8 in
    let filled = vesa_fill_rect v 0 y v.width 24 (rgb 20 20 30) in
    vesa_draw_line fuel filled 0 y (sub32 v.width 1) y (rgb 80 80 120)
    >>= (λ v. some (vesa_put_string v 8 (add32 y 4) (codes "OsU") 0xFFFFFF (rgb 20 20 30)))
    >>= (λ v.
        some (
          vesa_put_string v (if is_neg tx then 0 else tx) (add32 y 4) text 0xFFFFFF (rgb 20 20 30)))

-- The first `n` lines of the log, from the row `y` on.
unfoldable log_rows : ℕ → List (List ℕ) → ℕ → ℕ → Vesa → Vesa
unfolding vesa_put_string
log_rows zero lines x y v = v
log_rows (suc n) [] x y v = v
log_rows (suc n) (l ∷ lines) x y v =
    log_rows n lines x (add32 y 16) (vesa_put_string v x y l (rgb 210 230 255) (rgb 30 30 40))

-- `draw_window`
unfoldable draw_window : ℕ → Gui → Vesa → Option Vesa
unfolding vesa_fill_rect vesa_draw_rect vesa_draw_line vesa_put_string log_rows
draw_window fuel g v =
    let win = g.main_win in
    let x = add32 win.x 6 in
    let y = add32 win.y 24 in
    let title = add32 win.y 17 in
    vesa_draw_rect fuel (vesa_fill_rect v win.x win.y win.w win.h (rgb 30 30 40)) win.x win.y win.w
      win.h (rgb 120 120 160)
    >>= (λ v.
        vesa_draw_line fuel (vesa_fill_rect v win.x win.y win.w 18 (rgb 50 50 80)) win.x title
          (sub32 (add32 win.x win.w) 1) title (rgb 90 90 120))
    >>= (λ v.
        some (vesa_put_string v x (add32 win.y 2) (codes "OsU Terminal") 0xFFFFFF (rgb 50 50 80)))
    >>= (λ v. some (log_rows 6 g.log_lines x y v))
    >>= (λ v.
        some
          (vesa_put_string v x (add32 y 96) (codes "> " ++ g.input_line) 0x00FF00 (rgb 30 30 40)))

-- `draw_cursor`
unfoldable draw_cursor : ℕ → ℕ → ℕ → Vesa → Option Vesa
unfolding vesa_fill_rect vesa_draw_rect vesa_put_pixel
draw_cursor fuel x y v =
    vesa_draw_rect fuel (vesa_fill_rect v x y 8 8 0xFFFFFF) x y 8 8 0
    >>= (λ v. some (vesa_put_pixel v (add32 x 3) (add32 y 3) 0))

-- The part of a round of gui_run that draws, up to vesa_present.
unfoldable draw_round : ℕ → ℕ → Gui → Vesa → Option Vesa
unfolding draw_background draw_taskbar draw_window draw_cursor vesa_put_string vesa_present
draw_round fuel ticks g v =
    let win = g.main_win in
    let x = add32 win.x 6 in
    let y = sub32 (add32 win.y win.h) 20 in
    draw_background fuel v
    >>= (λ v. draw_taskbar fuel ticks v)
    >>= (λ v. draw_window fuel g v)
    >>= (λ v. some (
        if length g.last_key == 0
        then v
        else vesa_put_string v x y g.last_key 0xFFFF00 (rgb 30 30 40)))
    >>= (λ v. draw_cursor fuel g.ms.x g.ms.y v)
    >>= (λ v. some (vesa_present v))
