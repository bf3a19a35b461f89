-- ===== src/Vesa/Pixels/Laws.antt =====
-- kernel/vesa.c: writing and reading pixels.
use os_u.Prelude.{
  ℕ, ◌*◌, ◌≤◌, ◌≡◌, inl, inr, refl, sym, ◌∙◌, ap, ap₂, Bool, true, false, ◌&&◌, ◌||◌, not,
  Bool-cases, Bytes, ◌==◌, if◌then◌else◌, arith,
}
use native.Mathlib.Decide.{ℕ_discrete}
use os_u.Vesa.Pixels.{
  Vesa, backbuffer_max, to_back, target, put_target, is_outside, write_pixel, read_pixel,
  vesa_put_pixel, vesa_get_pixel,
}
use os_u.Vesa.Pixels.Mode.{put_pixel-SameMode}
use os_u.Vesa.Pixels.Place.{IsValid, shade, read_pixel-write_pixel, write_pixel_beyond}

-- The same driver with another memory to draw to.
put_target-IsValid : (v : Vesa) (b : Bytes) → IsValid v → IsValid (put_target v b)
unfolding put_target
put_target-IsValid v b w = which (to_back v)
  where
    which : (c : Bool) → IsValid (if c then record v { back = b } else record v { front = b })
    which true = record {
      on = w.on;
      depth = w.depth;
      words = w.words;
      triples = w.triples;
      fits = w.fits;
      room = w.room;
    }
    which false = record {
      on = w.on;
      depth = w.depth;
      words = w.words;
      triples = w.triples;
      fits = w.fits;
      room = w.room;
    }

-- The geometry of a driver does not depend on what is drawn.
read_pixel-put_target :
    (v : Vesa) (b m : Bytes) (x y : ℕ) → read_pixel (put_target v b) m x y ≡ read_pixel v m x y
unfolding put_target read_pixel
read_pixel-put_target v b m x y = which (to_back v)
  where
    which :
        (c : Bool)
        → read_pixel (if c then record v { back = b } else record v { front = b }) m x y
          ≡ read_pixel v m x y
    which true = refl
    which false = refl

is_outside-put_target :
    (v : Vesa) (b : Bytes) (x y : ℕ)
    → (not (put_target v b).enabled || is_outside (put_target v b) x y)
      ≡ (not v.enabled || is_outside v x y)
unfolding put_target
is_outside-put_target v b x y = which (to_back v)
  where
    which :
        (c : Bool)
        → (let u : Vesa = (if c then record v { back = b } else record v { front = b }) in
            not u.enabled || is_outside u x y)
          ≡ (not v.enabled || is_outside v x y)
    which true = refl
    which false = refl

target-put_target : (v : Vesa) (b : Bytes) → target (put_target v b) ≡ b
unfolding target put_target
target-put_target v b = ground arith

get-put_target :
    (v : Vesa) (b : Bytes) (x y : ℕ)
    → vesa_get_pixel (put_target v b) x y
      ≡ (if not v.enabled || is_outside v x y then 0 else read_pixel v b x y)
unfolding vesa_get_pixel
get-put_target v b x y =
    ap
      (λ m.
        if not (put_target v b).enabled || is_outside (put_target v b) x y
        then 0
        else read_pixel (put_target v b) m x y)
      (target-put_target v b)
    ∙ ap (λ r. if not (put_target v b).enabled || is_outside (put_target v b) x y then 0 else r)
        (read_pixel-put_target v b b x y)
    ∙ ap (λ (t : Bool). if t then 0 else read_pixel v b x y) (is_outside-put_target v b x y)

put_pixel_outside : (v : Vesa) (x y c : ℕ) → is_outside v x y ≡ true → vesa_put_pixel v x y c ≡ v
unfolding vesa_put_pixel
put_pixel_outside v x y c h = elim (Bool-cases v.enabled) [ inl e ↦ rw (h, e) | inr e ↦ rw (h, e) ]

pub put_pixel_inside :
    (v : Vesa) (x y c : ℕ)
    → v.enabled ≡ true
    → is_outside v x y ≡ false
    → vesa_put_pixel v x y c ≡ put_target v (write_pixel v (target v) x y c)
unfolding vesa_put_pixel
put_pixel_inside v x y c e h = ground (arith, e, h)

other_place :
    (v : Vesa) (x y x' y' : ℕ)
    → is_outside v x y ≡ false
    → is_outside v x' y' ≡ true
    → (x == x' && y == y') ≡ false
other_place v x y x' y' h h' = elim (ℕ_discrete x x') [
  | yes p ↦ elim (ℕ_discrete y y') [
    | yes q ↦
        let same : is_outside v x y ≡ is_outside v x' y' = ap₂ (is_outside v) p q in
        cc (h, h', same)
    | no q ↦ ground arith
  ]
  | no p ↦ ground arith
]

get_pixel_outside : (v : Vesa) (x y : ℕ) → is_outside v x y ≡ true → vesa_get_pixel v x y ≡ 0
unfolding vesa_get_pixel
get_pixel_outside v x y h = elim (Bool-cases v.enabled) [ inl e ↦ rw (h, e) | inr e ↦ rw (h, e) ]

get_pixel_inside :
    (v : Vesa) (x y : ℕ)
    → v.enabled ≡ true
    → is_outside v x y ≡ false
    → vesa_get_pixel v x y ≡ read_pixel v (target v) x y
unfolding vesa_get_pixel
get_pixel_inside v x y e h = ground (arith, e, h)

-- A pixel that was written reads as its colour, cut to the bits of the mode, and every other pixel as
-- before; a write outside the screen changes nothing.
get_pixel-put_pixel :
    (v : Vesa) (x y x' y' c : ℕ)
    → IsValid v
    → vesa_get_pixel (vesa_put_pixel v x y c) x' y' ≡ (
        if not (is_outside v x y) && (x == x' && y == y')
        then shade v c
        else vesa_get_pixel v x' y')
get_pixel-put_pixel v x y x' y' c w = elim (Bool-cases (is_outside v x y)) [
  | inl e ↦ rw e (ap (λ u. vesa_get_pixel u x' y') (put_pixel_outside v x y c e))
  | inr e ↦
      let b = write_pixel v (target v) x y c in
      let put = ap (λ u. vesa_get_pixel u x' y') (put_pixel_inside v x y c w.on e) in
      elim (Bool-cases (is_outside v x' y')) [
        | inl e' ↦
            rw (e, other_place v x y x' y' e e', get_pixel_outside v x' y' e')
              (put ∙ get-put_target v b x' y' ∙ rw (e', w.on))
        | inr e' ↦
            rw (e, get_pixel_inside v x' y' w.on e')
              (put
                ∙ get-put_target v b x' y'
                ∙ simp (e', w.on) (read_pixel-write_pixel v (target v) x y x' y' c w e e'))
      ]
]

-- The same with the test at the pixel that is read.
pub get_pixel-put_pixel_at :
    (v : Vesa) (x y x' y' c : ℕ)
    → IsValid v
    → vesa_get_pixel (vesa_put_pixel v x y c) x' y' ≡ (
        if not (is_outside v x' y') && (x == x' && y == y')
        then shade v c
        else vesa_get_pixel v x' y')
get_pixel-put_pixel_at v x y x' y' c w =
    get_pixel-put_pixel v x y x' y' c w ∙ elim (ℕ_discrete x x') [
      | yes p ↦ elim (ℕ_discrete y y') [ yes q ↦ rw (p, q) | no q ↦ ground (arith, q) ]
      | no p ↦ ground (arith, p)
    ]

-- A pixel that is put, wherever it is, changes no byte beyond the rows of the mode.
put_pixel-beyond :
    (v : Vesa) (x y c i : ℕ)
    → IsValid v
    → v.height * v.pitch ≤ i
    → target (vesa_put_pixel v x y c) i ≡ target v i
put_pixel-beyond v x y c i w l = elim (Bool-cases (is_outside v x y)) [
  | inl e ↦ ap (λ u. target u i) (put_pixel_outside v x y c e)
  | inr e ↦
      ap (λ u. target u i) (put_pixel_inside v x y c w.on e)
      ∙ ap (λ m. m i) (target-put_target v (write_pixel v (target v) x y c))
      ∙ write_pixel_beyond v (target v) x y c i w e l
]

target-back : (u : Vesa) → to_back u ≡ true → target u ≡ u.back
unfolding target
target-back u e = rw e refl

-- In a valid mode a pixel that is put, wherever it is, changes no byte behind the back buffer's array
-- while the back buffer is drawn to.
pub put_pixel-array :
    (v : Vesa) (x y c i : ℕ)
    → IsValid v
    → to_back v ≡ true
    → backbuffer_max ≤ i
    → (vesa_put_pixel v x y c).back i ≡ v.back i
put_pixel-array v x y c i w e l =
    let u = vesa_put_pixel v x y c in
    let same : to_back u ≡ true = (put_pixel-SameMode v x y c).draws_to ∙ e in
    ap (λ m. m i) (sym (target-back u same))
    ∙ put_pixel-beyond v x y c i w (omega (arith, w.room e, l))
    ∙ ap (λ m. m i) (target-back v e)
