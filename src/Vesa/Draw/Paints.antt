-- ===== src/Vesa/Draw/Paints.antt =====
-- kernel/vesa.c: drawing that leaves every pixel as it is or gives it one colour.
use os_u.Prelude.{
  ℕ, ◌≡◌, ◌⊎◌, inl, inr, refl, ◌∙◌, true, false, ◌&&◌, not, Bool-cases, Option, some, ◌==◌, arith,
}
use os_u.Vesa.Pixels.{Vesa, is_outside, vesa_put_pixel, vesa_get_pixel}
use os_u.Vesa.Pixels.Place.{IsValid, shade}
use os_u.Vesa.Pixels.Mode.{
  SameMode, SameMode-refl, SameMode-trans, SameMode-is_outside, SameMode-shade, put_pixel-SameMode,
}
use os_u.Vesa.Pixels.Laws.{get_pixel-put_pixel_at}

-- From `v` to `u` no pixel changes but to the colour.
pub record Paints (color : ℕ) (v u : Vesa) : Type 0 where
  pub mode : SameMode u v
  pub pixels :
      (x y : ℕ)
      → (vesa_get_pixel u x y ≡ vesa_get_pixel v x y) ⊎ (vesa_get_pixel u x y ≡ shade v color)

pub Paints-refl : (c : ℕ) (v : Vesa) → Paints c v v
Paints-refl c v = record { mode = SameMode-refl v; pixels = λ x y. inl refl }

pub Paints-put_pixel : (v : Vesa) (x y c : ℕ) → IsValid v → Paints c v (vesa_put_pixel v x y c)
Paints-put_pixel v x y c w = record {
  mode = put_pixel-SameMode v x y c;
  pixels = λ x' y'. which x' y' (Bool-cases (not (is_outside v x' y') && (x == x' && y == y')));
}
  where
    which :
        (x' y' : ℕ)
        → ((not (is_outside v x' y') && (x == x' && y == y')) ≡ true)
          ⊎ ((not (is_outside v x' y') && (x == x' && y == y')) ≡ false)
        → (vesa_get_pixel (vesa_put_pixel v x y c) x' y' ≡ vesa_get_pixel v x' y')
          ⊎ (vesa_get_pixel (vesa_put_pixel v x y c) x' y' ≡ shade v c)
    which x' y' (inl e) = inr (get_pixel-put_pixel_at v x y x' y' c w ∙ rw e)
    which x' y' (inr e) = inl (get_pixel-put_pixel_at v x y x' y' c w ∙ rw e)

pub Paints-trans : {c : ℕ} {v u t : Vesa} → Paints c v u → Paints c u t → Paints c v t
Paints-trans {c} {v} {u} {t} a b = record {
  mode = SameMode-trans b.mode a.mode;
  pixels = λ x y. which x y (a.pixels x y) (b.pixels x y);
}
  where
    which :
        (x y : ℕ)
        → (vesa_get_pixel u x y ≡ vesa_get_pixel v x y) ⊎ (vesa_get_pixel u x y ≡ shade v c)
        → (vesa_get_pixel t x y ≡ vesa_get_pixel u x y) ⊎ (vesa_get_pixel t x y ≡ shade u c)
        → (vesa_get_pixel t x y ≡ vesa_get_pixel v x y) ⊎ (vesa_get_pixel t x y ≡ shade v c)
    which x y (inl p) (inl q) = inl (q ∙ p)
    which x y (inr p) (inl q) = inr (q ∙ p)
    which x y p (inr q) = inr (q ∙ SameMode-shade u v c a.mode)

pub put_pixel-painted :
    (v : Vesa) (x y c : ℕ)
    → IsValid v
    → is_outside v x y ≡ false
    → vesa_get_pixel (vesa_put_pixel v x y c) x y ≡ shade v c
put_pixel-painted v x y c w h = get_pixel-put_pixel_at v x y x y c w ∙ ground (arith, h)

-- What was painted stays so.
pub Paints-stays :
    {c : ℕ} {v u : Vesa} (x y : ℕ)
    → Paints c v u
    → vesa_get_pixel v x y ≡ shade v c
    → vesa_get_pixel u x y ≡ shade v c
Paints-stays x y p h = elim (p.pixels x y) [ inl e ↦ e ∙ h | inr e ↦ e ]

-- The loop comes to an end, with the end of the line painted.
abbrev pub Ends : Option Vesa → ℕ → ℕ → ℕ → Vesa → Type 0
Ends o x1 y1 color v =
    (u : Vesa) × (o ≡ some u)
    × Paints color v u
    × (is_outside v x1 y1 ≡ false → vesa_get_pixel u x1 y1 ≡ shade v color)

pub Ends-step :
    (x1 y1 c x y : ℕ) (o : Option Vesa) (v : Vesa)
    → IsValid v
    → Ends o x1 y1 c (vesa_put_pixel v x y c)
    → Ends o x1 y1 c v
Ends-step x1 y1 c x y o v w (u, e, p, h) =
    let s : Paints c v (vesa_put_pixel v x y c) = Paints-put_pixel v x y c w in
    (
      u,
      e,
      Paints-trans s p,
      λ l.
          h (SameMode-is_outside (vesa_put_pixel v x y c) v x1 y1 s.mode ∙ l)
          ∙ SameMode-shade (vesa_put_pixel v x y c) v c s.mode,
    )
