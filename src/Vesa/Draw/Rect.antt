-- ===== src/Vesa/Draw/Rect.antt =====
-- kernel/vesa.c: the pixels that rectangles change.
use os_u.Prelude.{
  ℕ, zero, suc, ◌^◌, ◌≤◌, ◌<◌, ◌≡◌, refl, ◌∙◌, Bool, true, false, ◌&&◌, ◌||◌, not, add32, sub32,
  lt32, ltb, ◌==◌, if◌then◌else◌, arith,
}
use os_u.Vesa.Pixels.{Vesa, is_outside, vesa_put_pixel, vesa_get_pixel}
use os_u.Vesa.Pixels.Place.{IsValid, shade}
use os_u.Vesa.Pixels.Mode.{
  SameMode, SameMode-refl, SameMode-trans, SameMode-IsValid, SameMode-is_outside, SameMode-shade,
  put_pixel-SameMode,
}
use os_u.Vesa.Pixels.Laws.{get_pixel-put_pixel_at}
use os_u.Vesa.Draw.{fill_columns, fill_rows, vesa_fill_rect, rounds}

-- The rounds of a loop over the ints from `b` up to `e` visit those between.
rounds-between :
    (b e x : ℕ)
    → b < 2 ^ 32
    → e < 2 ^ 32
    → x < 2 ^ 32
    → ltb (sub32 x b) (rounds b e) ≡ (not (lt32 x b) && lt32 x e)
rounds-between b e x hb he hx = ground arith

rounds-bound : (b e : ℕ) → rounds b e ≤ 2 ^ 32
rounds-bound b e = ground arith

-- One more round.
round-next :
    (n b x : ℕ)
    → suc n ≤ 2 ^ 32
    → b < 2 ^ 32
    → x < 2 ^ 32
    → ltb (sub32 x b) (suc n) ≡ (b == x || ltb (sub32 x (add32 b 1)) n)
round-next n b x hn hb hx = ground arith

-- Two coats of one colour.
merge :
    (o a b p : Bool) (s g : ℕ)
    → (if not o && (a && p) then s else if not o && (b && p) then s else g)
      ≡ (if not o && ((b || a) && p) then s else g)
merge true a b p s g = refl
merge false true true p s g = ground arith
merge false true false p s g = ground arith
merge false false true p s g = ground arith
merge false false false p s g = ground arith

fill_columns_lem :
    (n px py color : ℕ) (v : Vesa) (x y : ℕ)
    → n ≤ 2 ^ 32
    → px < 2 ^ 32
    → x < 2 ^ 32
    → IsValid v
    → SameMode (fill_columns n px py color v) v
      × (vesa_get_pixel (fill_columns n px py color v) x y ≡ (
          if not (is_outside v x y) && (ltb (sub32 x px) n && py == y)
          then shade v color
          else vesa_get_pixel v x y))
unfolding fill_columns
fill_columns_lem zero px py color v x y hn hp hx w = (SameMode-refl v, ground arith)
fill_columns_lem (suc n) px py color v x y hn hp hx w =
    let u = vesa_put_pixel v px py color in
    let s = put_pixel-SameMode v px py color in
    let (s', ih) =
      fill_columns_lem n (add32 px 1) py color u x y (omega arith) (omega arith) hx
        (SameMode-IsValid u v s w) in
    (
      SameMode-trans s' s,
      ih
          ∙ rw
              (
                SameMode-is_outside u v x y s,
                SameMode-shade u v color s,
                get_pixel-put_pixel_at v px py x y color w,
                round-next n px x hn hp hx,
              )
              (merge (is_outside v x y) (ltb (sub32 x (add32 px 1)) n) (px == x) (py == y)
                (shade v color) (vesa_get_pixel v x y)),
    )

merge_rows :
    (o a b p : Bool) (s g : ℕ)
    → (if not o && (a && p) then s else if not o && (p && b) then s else g)
      ≡ (if not o && ((b || a) && p) then s else g)
merge_rows true a b true s g = refl
merge_rows false true true true s g = refl
merge_rows false true false true s g = refl
merge_rows false false true true s g = refl
merge_rows false false false true s g = refl
merge_rows true a b false s g = refl
merge_rows false true true false s g = refl
merge_rows false true false false s g = refl
merge_rows false false true false s g = refl
merge_rows false false false false s g = refl

fill_rows_lem :
    (n left columns py color : ℕ) (v : Vesa) (x y : ℕ)
    → n ≤ 2 ^ 32
    → columns ≤ 2 ^ 32
    → left < 2 ^ 32
    → py < 2 ^ 32
    → x < 2 ^ 32
    → y < 2 ^ 32
    → IsValid v
    → SameMode (fill_rows n left columns py color v) v
      × (vesa_get_pixel (fill_rows n left columns py color v) x y ≡ (
          if not (is_outside v x y) && (ltb (sub32 y py) n && ltb (sub32 x left) columns)
          then shade v color
          else vesa_get_pixel v x y))
unfolding fill_rows
fill_rows_lem zero left columns py color v x y hn hc hl hp hx hy w = (SameMode-refl v, ground arith)
fill_rows_lem (suc n) left columns py color v x y hn hc hl hp hx hy w =
    let u = fill_columns columns left py color v in
    let (s, row) = fill_columns_lem columns left py color v x y hc hl hx w in
    let (s', ih) =
      fill_rows_lem n left columns (add32 py 1) color u x y (omega arith) hc hl (omega arith) hx hy
        (SameMode-IsValid u v s w) in
    (
      SameMode-trans s' s,
      ih
          ∙ rw
              (
                SameMode-is_outside u v x y s,
                SameMode-shade u v color s,
                row,
                round-next n py y hn hp hy,
              )
              (merge_rows (is_outside v x y) (ltb (sub32 y (add32 py 1)) n) (py == y)
                (ltb (sub32 x left) columns) (shade v color) (vesa_get_pixel v x y)),
    )

-- In a valid mode, which fits in the back buffer's array if that is what is drawn to, vesa_fill_rect
-- gives its colour to the pixels (x', y') on the screen with
-- x ≤ x' < x + w and y ≤ y' < y + h, as ints, and every other pixel reads as before.
pub vesa_fill_rect_lem :
    (v : Vesa) (x y w h color x' y' : ℕ)
    → IsValid v
    → x < 2 ^ 32
    → y < 2 ^ 32
    → x' < 2 ^ 32
    → y' < 2 ^ 32
    → vesa_get_pixel (vesa_fill_rect v x y w h color) x' y' ≡ (
        if not (is_outside v x' y')
          && ((not (lt32 y' y) && lt32 y' (add32 y h)) && (not (lt32 x' x) && lt32 x' (add32 x w)))
        then shade v color
        else vesa_get_pixel v x' y')
unfolding vesa_fill_rect
vesa_fill_rect_lem v x y w h color x' y' valid hx hy hx' hy' =
    let (s, filled) =
      fill_rows_lem (rounds y (add32 y h)) x (rounds x (add32 x w)) y color v x' y'
        (rounds-bound y (add32 y h)) (rounds-bound x (add32 x w)) hx hy hx' hy' valid in
    simp valid.on (
      filled
      ∙ rw (
        rounds-between y (add32 y h) y' hy (omega arith) hy',
        rounds-between x (add32 x w) x' hx (omega arith) hx',
      ))
