-- ===== src/Vesa/Draw.antt =====
-- kernel/vesa.c: rectangles, characters and lines. An int is its 32 bits.
pub mod Rect
pub mod Step
pub mod Walk
pub mod Paints
pub mod Line
use os_u.Prelude.{
  ℕ, zero, suc, ◌+◌, ◌-◌, ◌*◌, ◌/◌, ◌%◌, ◌^◌, Bool, true, false, ◌&&◌, ◌||◌, Option, none, some,
  List, [], ◌∷◌, get_or, is_neg, neg32, add32, sub32, mul32, lt32, ltb, leb, ◌==◌, not,
  if◌then◌else◌,
}
use os_u.Vesa.Pixels.{Vesa, vesa_put_pixel}
use os_u.Vesa.Font.{font8x16}

-- The rounds of `for (int i = begin; i < end; i++)`.
abbrev pub rounds : ℕ → ℕ → ℕ
rounds begin end = if lt32 begin end then sub32 end begin else 0

-- The inner loop of vesa_fill_rect over `n` more columns, from `px` on, and the outer one over rows.
unfoldable pub fill_columns : ℕ → ℕ → ℕ → ℕ → Vesa → Vesa
fill_columns zero px py color v = v
fill_columns (suc n) px py color v =
    fill_columns n (add32 px 1) py color (vesa_put_pixel v px py color)

unfoldable pub fill_rows : ℕ → ℕ → ℕ → ℕ → ℕ → Vesa → Vesa
unfolding fill_columns
fill_rows zero x columns py color v = v
fill_rows (suc n) x columns py color v =
    fill_rows n x columns (add32 py 1) color (fill_columns columns x py color v)

-- `vesa_fill_rect`
unfoldable pub vesa_fill_rect : Vesa → ℕ → ℕ → ℕ → ℕ → ℕ → Vesa
unfolding fill_rows
vesa_fill_rect v x y w h color =
    if not v.enabled then v else fill_rows (rounds y (add32 y h)) x (rounds x (add32 x w)) y color v

-- `bits & (0x80 >> col)`
abbrev has_bit : ℕ → ℕ → Bool
has_bit bits col = not (bits / 2 ^ (7 - col) % 2 == 0)

-- The inner loop of vesa_put_char over `n` more columns of a row with these bits, and the outer one over
-- the rows of a glyph.
unfoldable glyph_columns : ℕ → ℕ → ℕ → ℕ → ℕ → ℕ → ℕ → Vesa → Vesa
glyph_columns zero col bits x y fg bg v = v
glyph_columns (suc n) col bits x y fg bg v =
    glyph_columns n (col + 1) bits x y fg bg
      (vesa_put_pixel v (add32 x col) y (if has_bit bits col then fg else bg))

unfoldable pub glyph_rows : List ℕ → ℕ → ℕ → ℕ → ℕ → ℕ → Vesa → Vesa
unfolding glyph_columns
glyph_rows [] row x y fg bg v = v
glyph_rows (bits ∷ glyph) row x y fg bg v =
    glyph_rows glyph (row + 1) x y fg bg (glyph_columns 8 0 bits x (add32 y row) fg bg v)

-- The glyph of a character, that of `?` for one that the font does not have.
abbrev pub glyph : ℕ → List ℕ
glyph c = get_or font8x16 ((if ltb c 32 || ltb 127 c then b'?' else c) - 32) []

-- `vesa_put_char`, for a character as a byte.
unfoldable pub vesa_put_char : Vesa → ℕ → ℕ → ℕ → ℕ → ℕ → Vesa
unfolding glyph_rows
vesa_put_char v x y c fg bg = if not v.enabled then v else glyph_rows (glyph c) 0 x y fg bg v

-- The loop of vesa_put_string.
unfoldable put_chars : List ℕ → ℕ → ℕ → ℕ → ℕ → ℕ → Vesa → Vesa
unfolding vesa_put_char
put_chars [] x cx y fg bg v = v
put_chars (c ∷ s) x cx y fg bg v =
    let rest = put_chars s x (add32 cx 8) y fg bg (vesa_put_char v cx y c fg bg) in
    let below = put_chars s x x (add32 y 16) fg bg v in
    if c == 0 then v else if c == b'\n' then below else rest

-- `vesa_put_string`
unfoldable pub vesa_put_string : Vesa → ℕ → ℕ → List ℕ → ℕ → ℕ → Vesa
unfolding put_chars
vesa_put_string v x y s fg bg = if not v.enabled then v else put_chars s x x y fg bg v

-- The variables of the loop of vesa_draw_line.
pub record Pen : Type 0 where
  pub x : ℕ
  pub y : ℕ
  pub err : ℕ

-- A step of the loop towards the end, for the distances and the directions: both tests read the same `e2`.
unfoldable pub line_step : ℕ → ℕ → ℕ → ℕ → Pen → Pen
line_step dx dy sx sy p =
    let e2 = mul32 2 p.err in
    let across = lt32 (neg32 dy) e2 in
    let down = lt32 e2 dx in
    let err1 = if across then sub32 p.err dy else p.err in
    record {
      x = if across then add32 p.x sx else p.x;
      y = if down then add32 p.y sy else p.y;
      err = if down then add32 err1 dx else err1;
    }

-- The loop, with fuel: `none` where it goes on.
unfoldable pub line_loop : ℕ → ℕ → ℕ → ℕ → ℕ → ℕ → ℕ → ℕ → Pen → Vesa → Option Vesa
unfolding line_step
line_loop zero x1 y1 dx dy sx sy color p v = none
line_loop (suc n) x1 y1 dx dy sx sy color p v =
    let v' = vesa_put_pixel v p.x p.y color in
    let rest = line_loop n x1 y1 dx dy sx sy color (line_step dx dy sx sy p) v' in
    if p.x == x1 && p.y == y1 then some v' else rest

-- `(d > 0) ? 1 : -1`, and the absolute value.
abbrev pub direction : ℕ → ℕ
direction d = if lt32 0 d then 1 else neg32 1

abbrev pub distance : ℕ → ℕ
distance d = if is_neg d then neg32 d else d

-- `vesa_draw_line`, with fuel.
unfoldable pub vesa_draw_line : ℕ → Vesa → ℕ → ℕ → ℕ → ℕ → ℕ → Option Vesa
unfolding line_loop
vesa_draw_line fuel v x0 y0 x1 y1 color =
    let dx = distance (sub32 x1 x0) in
    let dy = distance (sub32 y1 y0) in
    let drawn =
      line_loop fuel x1 y1 dx dy (direction (sub32 x1 x0)) (direction (sub32 y1 y0)) color
        (record { x = x0; y = y0; err = sub32 dx dy }) v in
    if not v.enabled then some v else drawn

infixl 5 ◌>>=◌
abbrev ◌>>=◌ : Option Vesa → (Vesa → Option Vesa) → Option Vesa
none >>= f = none
some v >>= f = f v

-- `vesa_draw_rect`, with fuel for each line.
unfoldable pub vesa_draw_rect : ℕ → Vesa → ℕ → ℕ → ℕ → ℕ → ℕ → Option Vesa
unfolding vesa_draw_line
vesa_draw_rect fuel v x y w h color =
    let right = sub32 (add32 x w) 1 in
    let bottom = sub32 (add32 y h) 1 in
    if not v.enabled
    then some v
    else vesa_draw_line fuel v x y right y color
      >>= (λ v. vesa_draw_line fuel v x bottom right bottom color)
      >>= (λ v. vesa_draw_line fuel v x y x bottom color)
      >>= (λ v. vesa_draw_line fuel v right y right bottom color)
