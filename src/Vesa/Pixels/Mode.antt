-- ===== src/Vesa/Pixels/Mode.antt =====
-- kernel/vesa.c: drawing leaves the mode as it is.
use os_u.Prelude.{ℕ, ◌≡◌, refl, sym, ◌∙◌, Bool, true, false, ◌||◌, not, if◌then◌else◌}
use os_u.Vesa.Pixels.{Vesa, to_back, target, put_target, is_outside, write_pixel, vesa_put_pixel}
use os_u.Vesa.Pixels.Place.{IsValid, shade}

-- Two drivers with the same mode.
pub record SameMode (v u : Vesa) : Type 0 where
  pub width : v.width ≡ u.width
  pub height : v.height ≡ u.height
  pub pitch : v.pitch ≡ u.pitch
  pub bpp : v.bpp ≡ u.bpp
  pub enabled : v.enabled ≡ u.enabled
  pub draws_to : to_back v ≡ to_back u

pub put_pixel-SameMode : (v : Vesa) (x y c : ℕ) → SameMode (vesa_put_pixel v x y c) v
unfolding vesa_put_pixel put_target
put_pixel-SameMode v x y c = which (not v.enabled || is_outside v x y) (to_back v)
  where
    same : SameMode v v
    same = record {
      width = refl;
      height = refl;
      pitch = refl;
      bpp = refl;
      enabled = refl;
      draws_to = refl;
    }

    which :
        (t u : Bool)
        → SameMode
            (if t
              then v
              else if u
              then record v { back = write_pixel v (target v) x y c }
              else record v { front = write_pixel v (target v) x y c })
            v
    which true u = same
    which false true = record {
      width = refl;
      height = refl;
      pitch = refl;
      bpp = refl;
      enabled = refl;
      draws_to = refl;
    }
    which false false = record {
      width = refl;
      height = refl;
      pitch = refl;
      bpp = refl;
      enabled = refl;
      draws_to = refl;
    }

pub SameMode-IsValid : (v u : Vesa) → SameMode v u → IsValid u → IsValid v
SameMode-IsValid v u s w = record {
  on = s.enabled ∙ w.on;
  depth = rw s.bpp w.depth;
  words = rw (s.bpp, s.width, s.pitch) w.words;
  triples = rw (s.bpp, s.width, s.pitch) w.triples;
  fits = rw (s.height, s.pitch) w.fits;
  room = λ e. rw (s.height, s.pitch) (w.room (sym s.draws_to ∙ e));
}

pub SameMode-is_outside :
    (v u : Vesa) (x y : ℕ) → SameMode v u → is_outside v x y ≡ is_outside u x y
SameMode-is_outside v u x y s = rw (s.width, s.height)

pub SameMode-shade : (v u : Vesa) (c : ℕ) → SameMode v u → shade v c ≡ shade u c
SameMode-shade v u c s = rw s.bpp

pub SameMode-refl : (v : Vesa) → SameMode v v
SameMode-refl v = record {
  width = refl;
  height = refl;
  pitch = refl;
  bpp = refl;
  enabled = refl;
  draws_to = refl;
}

pub SameMode-trans : {v u t : Vesa} → SameMode v u → SameMode u t → SameMode v t
SameMode-trans a b = record {
  width = a.width ∙ b.width;
  height = a.height ∙ b.height;
  pitch = a.pitch ∙ b.pitch;
  bpp = a.bpp ∙ b.bpp;
  enabled = a.enabled ∙ b.enabled;
  draws_to = a.draws_to ∙ b.draws_to;
}
