-- ===== src/Vesa/Draw/Line.antt =====
-- kernel/vesa.c: vesa_draw_line reaches its end, and paints both ends.
use os_u.Prelude.{
  ℕ, zero, suc, ◌^◌, ◌≤◌, ◌<◌, ◌≡◌, ◌≢◌, inl, inr, sym, ◌∙◌, ap, false, ◌&&◌, not, Bool-cases, some,
  sub32, ◌==◌, if◌then◌else◌, arith,
}
use native.Mathlib.Decide.{dec_lt}
use mathlib.Core.Path.{subst}
use mathlib.Core.Option.{some-injective, none-ne-some}
use os_u.Vesa.Pixels.{Vesa, is_outside, vesa_put_pixel, vesa_get_pixel}
use os_u.Vesa.Pixels.Place.{IsValid, shade}
use os_u.Vesa.Pixels.Mode.{SameMode-IsValid, SameMode-shade, put_pixel-SameMode}
use os_u.Vesa.Draw.{Pen, line_step, line_loop, vesa_draw_line, direction, distance}
use os_u.Vesa.Draw.Step.{
  Away-zero, Away-suc, Away-begin, ahead, Balanced, Balanced-begin, Balanced-end, Difference-begin,
}
use os_u.Vesa.Draw.Walk.{On, flat_step, steep_step}
use os_u.Vesa.Draw.Paints.{
  Paints, Paints-refl, Paints-put_pixel, Paints-trans, put_pixel-painted, Paints-stays, Ends,
  Ends-step,
}

module _ (dx dy sx sy x1 y1 color : ℕ) (hx : dx < 2 ^ 29) (hy : dy < 2 ^ 29) where
  -- At the end of the line the loop stops.
  line_loop-end :
      (n : ℕ) (pen : Pen) (v : Vesa)
      → IsValid v
      → On dx dy sx sy x1 y1 hx hy 0 0 pen
      → Ends (line_loop (suc n) x1 y1 dx dy sx sy color pen v) x1 y1 color v
  unfolding line_loop
  line_loop-end n pen v w (ax, ay, d) =
      let e : pen.x ≡ x1 = Away-zero sx pen.x x1 ax in
      let e' : pen.y ≡ y1 = Away-zero sy pen.y y1 ay in
      (
        vesa_put_pixel v pen.x pen.y color,
        ground (arith, e, e'),
        Paints-put_pixel v pen.x pen.y color w,
        λ h. rw (e, e') (put_pixel-painted v x1 y1 color w h),
      )

  -- Elsewhere it goes on with the pen a step further.
  line_loop-on :
      (n : ℕ) (pen : Pen) (v : Vesa)
      → (pen.x == x1 && pen.y == y1) ≡ false
      → line_loop (suc n) x1 y1 dx dy sx sy color pen v
        ≡ line_loop n x1 y1 dx dy sx sy color
            (line_step dx dy sx sy pen)
            (vesa_put_pixel v pen.x pen.y color)
  unfolding line_loop
  line_loop-on n pen v e = rw e

  flat_loop :
      (n a b : ℕ) (pen : Pen) (v : Vesa)
      → dy ≤ dx
      → 0 < dx
      → a < n
      → suc a < 2 ^ 32
      → IsValid v
      → On dx dy sx sy x1 y1 hx hy a b pen
      → Balanced dx dy (ahead dx dy a) (ahead dy dx b)
      → Ends (line_loop n x1 y1 dx dy sx sy color pen v) x1 y1 color v
  flat_loop zero a b pen v h k l r w on bal = absurd (omega arith)
  flat_loop (suc n) zero b pen v h k l r w on bal =
      line_loop-end n pen v w
        (subst (λ t. On dx dy sx sy x1 y1 hx hy 0 t pen) (Balanced-end dx dy b h bal) on)
  flat_loop (suc n) (suc a) b pen v h k l r w on bal =
      let v' = vesa_put_pixel v pen.x pen.y color in
      let pen' = line_step dx dy sx sy pen in
      let (b', on', bal') = flat_step dx dy sx sy x1 y1 hx hy a b pen h k on bal in
      let away : pen.x ≢ x1 = Away-suc sx a pen.x x1 on.0 (omega arith) in
      let goes_on : (pen.x == x1 && pen.y == y1) ≡ false = ground (arith, away) in
      let w' = SameMode-IsValid v' v (put_pixel-SameMode v pen.x pen.y color) w in
      Ends-step x1 y1 color pen.x pen.y (line_loop (suc n) x1 y1 dx dy sx sy color pen v) v w (
        subst (λ t. Ends t x1 y1 color v') (sym (line_loop-on n pen v goes_on))
          (flat_loop n a b' pen' v' h k (omega arith) (omega arith) w' on' bal'))

  steep_loop :
      (n a b : ℕ) (pen : Pen) (v : Vesa)
      → dx ≤ dy
      → 0 < dy
      → b < n
      → suc b < 2 ^ 32
      → IsValid v
      → On dx dy sx sy x1 y1 hx hy a b pen
      → Balanced dy dx (ahead dy dx b) (ahead dx dy a)
      → Ends (line_loop n x1 y1 dx dy sx sy color pen v) x1 y1 color v
  steep_loop zero a b pen v h k l r w on bal = absurd (omega arith)
  steep_loop (suc n) a zero pen v h k l r w on bal =
      line_loop-end n pen v w
        (subst (λ t. On dx dy sx sy x1 y1 hx hy t 0 pen) (Balanced-end dy dx a h bal) on)
  steep_loop (suc n) a (suc b) pen v h k l r w on bal =
      let v' = vesa_put_pixel v pen.x pen.y color in
      let pen' = line_step dx dy sx sy pen in
      let (a', on', bal') = steep_step dx dy sx sy x1 y1 hx hy a b pen h k on bal in
      let away : pen.y ≢ y1 = Away-suc sy b pen.y y1 on.1 (omega arith) in
      let goes_on : (pen.x == x1 && pen.y == y1) ≡ false = ground (arith, away) in
      let w' = SameMode-IsValid v' v (put_pixel-SameMode v pen.x pen.y color) w in
      Ends-step x1 y1 color pen.x pen.y (line_loop (suc n) x1 y1 dx dy sx sy color pen v) v w (
        subst (λ t. Ends t x1 y1 color v') (sym (line_loop-on n pen v goes_on))
          (steep_loop n a' b pen' v' h k (omega arith) (omega arith) w' on' bal'))

-- What the loop gives is painted where the pen began.
line_loop-Paints :
    (n dx dy sx sy x1 y1 c : ℕ) (pen : Pen) (v u : Vesa)
    → IsValid v
    → line_loop n x1 y1 dx dy sx sy c pen v ≡ some u
    → Paints c v u × Paints c (vesa_put_pixel v pen.x pen.y c) u
unfolding line_loop
line_loop-Paints zero dx dy sx sy x1 y1 c pen v u w e = absurd (none-ne-some u e)
line_loop-Paints (suc n) dx dy sx sy x1 y1 c pen v u w e =
    let v' = vesa_put_pixel v pen.x pen.y c in
    let pen' = line_step dx dy sx sy pen in
    let w' : IsValid v' = SameMode-IsValid v' v (put_pixel-SameMode v pen.x pen.y c) w in
    let first = Paints-put_pixel v pen.x pen.y c w in
    elim (Bool-cases (pen.x == x1 && pen.y == y1)) [
      | inl d ↦
          let t : v' ≡ u = some-injective v' u (rw d at e) in
          (subst (Paints c v) t first, subst (Paints c v') t (Paints-refl c v'))
      | inr d ↦
          let p = (line_loop-Paints n dx dy sx sy x1 y1 c pen' v' u w' (rw d at e)).0 in
          (Paints-trans first p, p)
    ]

-- So the loop ends from any point, when `dx` and `dy` are the distances to the end.
line_loop-Ends :
    (dx dy sx sy x1 y1 color : ℕ) (hx : dx < 2 ^ 29) (hy : dy < 2 ^ 29) (n : ℕ) (pen : Pen)
    (v : Vesa)
    → dx < suc n
    → dy < suc n
    → IsValid v
    → On dx dy sx sy x1 y1 hx hy dx dy pen
    → Ends (line_loop (suc n) x1 y1 dx dy sx sy color pen v) x1 y1 color v
line_loop-Ends zero zero sx sy x1 y1 color hx hy n pen v fx fy w on =
    line_loop-end 0 0 sx sy x1 y1 color hx hy n pen v w on
line_loop-Ends (suc dx) zero sx sy x1 y1 color hx hy n pen v fx fy w on =
    flat_loop (suc dx) 0 sx sy x1 y1 color hx hy (suc n) (suc dx) 0 pen v (omega arith)
      (omega arith) fx (omega arith) w on (Balanced-begin (suc dx) 0 (omega arith) (omega arith))
line_loop-Ends dx (suc dy) sx sy x1 y1 color hx hy n pen v fx fy w on = elim (dec_lt dx (suc dy)) [
  | yes l ↦
      steep_loop dx (suc dy) sx sy x1 y1 color hx hy (suc n) dx (suc dy) pen v (omega arith)
        (omega arith) fy (omega arith) w on (Balanced-begin (suc dy) dx (omega arith) (omega arith))
  | no l ↦
      flat_loop dx (suc dy) sx sy x1 y1 color hx hy (suc n) dx (suc dy) pen v (omega arith)
        (omega arith) fx (omega arith) w on (Balanced-begin dx (suc dy) (omega arith) (omega arith))
]

first_stays :
    (v u : Vesa) (x y c : ℕ)
    → IsValid v
    → is_outside v x y ≡ false
    → Paints c (vesa_put_pixel v x y c) u
    → vesa_get_pixel u x y ≡ shade v c
first_stays v u x y c w h p =
    let e = SameMode-shade (vesa_put_pixel v x y c) v c (put_pixel-SameMode v x y c) in
    Paints-stays x y p (put_pixel-painted v x y c w h ∙ sym e) ∙ e

-- In a valid mode, which fits in the back buffer's array if that is what is drawn to, a line of at
-- most `2 ^ 29 - 1` pixels along either axis, between two places of
-- 32 bits, ends within one round more than it is long, whatever its direction; no pixel changes but
-- to the colour, and both of its ends that are on the screen have it.
pub vesa_draw_line_lem :
    (fuel : ℕ) (v : Vesa) (x0 y0 x1 y1 color : ℕ)
    → IsValid v
    → x0 < 2 ^ 32
    → y0 < 2 ^ 32
    → x1 < 2 ^ 32
    → y1 < 2 ^ 32
    → distance (sub32 x1 x0) < 2 ^ 29
    → distance (sub32 y1 y0) < 2 ^ 29
    → distance (sub32 x1 x0) < fuel
    → distance (sub32 y1 y0) < fuel
    → (u : Vesa) × (vesa_draw_line fuel v x0 y0 x1 y1 color ≡ some u)
      × Paints color v u
      × (is_outside v x0 y0 ≡ false → vesa_get_pixel u x0 y0 ≡ shade v color)
      × (is_outside v x1 y1 ≡ false → vesa_get_pixel u x1 y1 ≡ shade v color)
unfolding vesa_draw_line
vesa_draw_line_lem zero v x0 y0 x1 y1 color w hx0 hy0 hx1 hy1 hdx hdy fx fy = absurd (omega arith)
vesa_draw_line_lem (suc n) v x0 y0 x1 y1 color w hx0 hy0 hx1 hy1 hdx hdy fx fy =
    let (u, e, p, last) = ends in
    let first = (line_loop-Paints (suc n) dx dy sx sy x1 y1 color pen v u w e).1 in
    (
      u,
      ap (λ t. if not t then some v else line_loop (suc n) x1 y1 dx dy sx sy color pen v) w.on ∙ e,
      p,
      λ h. first_stays v u x0 y0 color w h first,
      last,
    )
  where
    dx : ℕ
    dx = distance (sub32 x1 x0)

    dy : ℕ
    dy = distance (sub32 y1 y0)

    sx : ℕ
    sx = direction (sub32 x1 x0)

    sy : ℕ
    sy = direction (sub32 y1 y0)

    pen : Pen
    pen = record { x = x0; y = y0; err = sub32 dx dy }

    ends : Ends (line_loop (suc n) x1 y1 dx dy sx sy color pen v) x1 y1 color v
    ends =
        line_loop-Ends dx dy sx sy x1 y1 color hdx hdy n pen v fx fy w
          (Away-begin x0 x1 hx0 hx1, Away-begin y0 y1 hy0 hy1, Difference-begin dx dy hdx hdy)
