-- ===== src/Gfxcon/Scroll.antt =====
-- kernel/gfxcon.c: what scroll_up leaves on the screen.
use os_u.Prelude.{
  ℕ, ◌+◌, ◌-◌, ◌*◌, ◌/◌, ◌%◌, ◌^◌, ◌≤◌, ◌<◌, ◌≡◌, inl, inr, sym, ◌∙◌, ap, ap₂, true, false, not,
  Bytes, sub32, mul32, ltb, ◌==◌, if◌then◌else◌, arith,
}
use native.Mathlib.Decide.{dec_lt}
use os_u.Vesa.Pixels.{Vesa, fetch3, fetch4, is_outside, target, read_pixel, vesa_get_pixel}
use os_u.Vesa.Pixels.Place.{IsValid, shade, inside, words-le}
use os_u.Vesa.Draw.{rounds}
use os_u.Gfxcon.{
  Gfxcon, words, bytes, triples, index, copy_rows, scrolled_words, scrolled_triples, scroll_up,
}
use os_u.Gfxcon.Moves.{copy_rows_at, fill_rows_at}
use os_u.Gfxcon.Layout.{index_lem, words-AreCells, bytes-AreCells, triples-AreCells}

-- The rounds of the loops on a screen of these sizes.
rounds_lem :
    (w h : ℕ)
    → w < 2 ^ 31
    → h < 2 ^ 31
    → 16 ≤ h
    → (sub32 h 16 ≡ h - 16)
      × (rounds 0 (h - 16) ≡ h - 16)
      × (rounds (h - 16) h ≡ 16)
      × (rounds 0 w ≡ w)
rounds_lem w h k l m = (omega arith, ground arith, ground arith, ground arith)

module _ (p w h : ℕ) (fits : h * p ≤ 2 ^ 32) (tall : 16 ≤ h) (short : h < 2 ^ 31)
    (slim : w < 2 ^ 31) where
  pub scrolled_words_lem :
      (bg : ℕ) (b : Bytes) (y x : ℕ)
      → w ≤ p
      → y < h
      → x < w
      → fetch4 (scrolled_words p w h bg b) (index y p x * 4)
        ≡ (if ltb (y + 16) h then fetch4 b (index (y + 16) p x * 4) else bg) % 2 ^ 32
  scrolled_words_lem bg b y x wide hy hx =
      let (last, up, sixteen, width) = rounds_lem w h slim short tall in
      let law = words-AreCells p w h fits wide in
      let copied =
        copy_rows_at (words p) (λ c. c % 2 ^ 32) w h law (h - 16) 0 b y x (omega arith) hy hx in
      let filled =
        fill_rows_at (words p) (λ c. c % 2 ^ 32) w h law 16 (h - 16) bg
          (copy_rows (words p) (h - 16) 0 w b) y x (omega arith) (omega arith) hy hx in
      rw (last, up, sixteen, width) (filled ∙ ground (arith, copied))

  copied_byte :
      (b : Bytes) (y x i : ℕ)
      → w * 3 ≤ p
      → y < h
      → x < w
      → i < 3
      → copy_rows (bytes p) (h - 16) 0 (w * 3) b (index y p (x * 3) + i)
        ≡ (if ltb (y + 16) h then b (index (y + 16) p (x * 3) + i) else b (index y p (x * 3) + i))
  copied_byte b y x i wide hy hx hi =
      let law = bytes-AreCells p (w * 3) h fits wide in
      let copied =
        copy_rows_at (bytes p) (λ c. c) (w * 3) h law (h - 16) 0 b y (x * 3 + i) (omega arith) hy
          (omega arith) in
      elim (dec_lt (y + 16) h) [
        | yes l ↦ rw (index_next y hy, index_next (y + 16) l) (copied ∙ ground (arith, l))
        | no l ↦ rw (index_next y hy) (copied ∙ ground (arith, l))
      ]
    where
      index_next : (y : ℕ) → y < h → index y p (x * 3) + i ≡ index y p (x * 3 + i)
      index_next y k =
          ap (λ t. t + i) (index_lem h p y (x * 3) fits k (omega arith))
          ∙ omega arith
          ∙ sym (index_lem h p y (x * 3 + i) fits k (omega arith))

  pub scrolled_triples_lem :
      (bg : ℕ) (b : Bytes) (y x : ℕ)
      → w * 3 ≤ p
      → p < 2 ^ 31
      → y < h
      → x < w
      → fetch3 (scrolled_triples p w h bg b) (index y p (x * 3))
        ≡ (if ltb (y + 16) h then fetch3 b (index (y + 16) p (x * 3)) else bg % 2 ^ 24)
  unfolding fetch3
  scrolled_triples_lem bg b y x wide small hy hx =
      let (last, up, sixteen, width) = rounds_lem w h slim short tall in
      let triple : rounds 0 (mul32 w 3) ≡ w * 3 = ground arith in
      let law = triples-AreCells p w h fits wide in
      let c0 = copied_byte b y x 0 wide hy hx (omega arith) in
      let c1 = copied_byte b y x 1 wide hy hx (omega arith) in
      let c2 = copied_byte b y x 2 wide hy hx (omega arith) in
      let filled =
        fill_rows_at (triples p) (λ c. c % 2 ^ 24) w h law 16 (h - 16) bg
          (copy_rows (bytes p) (h - 16) 0 (w * 3) b) y x (omega arith) (omega arith) hy hx in
      rw (last, up, sixteen, width, triple) (filled ∙ ground (arith, c0, c1, c2))

fetch4-small : (b : Bytes) (i : ℕ) → ((j : ℕ) → b j < 256) → fetch4 b i % 2 ^ 32 ≡ fetch4 b i
unfolding fetch4 fetch3
fetch4-small b i h = omega (arith, h i, h (i + 1), h (i + 2), h (i + 3))

-- The sizes that a mode with a pixel has, at least 16 rows high.
sizes :
    (v : Vesa) (x : ℕ)
    → IsValid v
    → 16 ≤ v.height
    → x < v.width
    → (v.pitch < 2 ^ 31)
      × (v.height < 2 ^ 31)
      × (v.width < 2 ^ 31)
      × (v.height * (v.pitch / 4) ≤ 2 ^ 32)
sizes v x w tall hx =
    let high : 16 * v.pitch ≤ v.height * v.pitch = grind arith in
    let three : 3 ≤ v.pitch = omega (arith, broad) in
    let long : v.height * 3 ≤ v.height * v.pitch = grind arith in
    let fits = w.fits in
    let words = words-le v.height v.pitch in
    (omega arith, omega arith, omega (arith, broad), omega arith)
  where
    broad : v.width * 3 ≤ v.pitch
    broad = elim w.depth [ inl e ↦ omega (arith, w.words e) | inr e ↦ omega (arith, w.triples e) ]

scroll_up-wide :
    (g : Gfxcon)
    → g.active ≡ true
    → g.vesa.bpp ≡ 32
    → let v = g.vesa in
      (scroll_up g).vesa
      ≡ record v { front = scrolled_words (v.pitch / 4) v.width v.height g.bg v.front }
unfolding scroll_up
scroll_up-wide g a e =
    let v = g.vesa in
    let wide = record g {
      vesa = record v { front = scrolled_words (v.pitch / 4) v.width v.height g.bg v.front };
    } in
    let narrow = record g {
      vesa = record v { front = scrolled_triples v.pitch v.width v.height g.bg v.front };
    } in
    ap₂
      (λ t b.
        (if not t then g else if b / 8 == 4 then wide else if b / 8 == 3 then narrow else g).vesa)
      a e

scroll_up-narrow :
    (g : Gfxcon)
    → g.active ≡ true
    → g.vesa.bpp ≡ 24
    → let v = g.vesa in
      (scroll_up g).vesa
      ≡ record v { front = scrolled_triples v.pitch v.width v.height g.bg v.front }
unfolding scroll_up
scroll_up-narrow g a e =
    let v = g.vesa in
    let wide = record g {
      vesa = record v { front = scrolled_words (v.pitch / 4) v.width v.height g.bg v.front };
    } in
    let narrow = record g {
      vesa = record v { front = scrolled_triples v.pitch v.width v.height g.bg v.front };
    } in
    ap₂
      (λ t b.
        (if not t then g else if b / 8 == 4 then wide else if b / 8 == 3 then narrow else g).vesa)
      a e

-- A pixel of the frame buffer is read as a word or as three bytes.
get_pixel-front :
    (v : Vesa) (b : Bytes) (x y : ℕ)
    → v.enabled ≡ true
    → v.use_backbuffer ≡ false
    → is_outside v x y ≡ false
    → vesa_get_pixel (record v { front = b }) x y ≡ (
        if v.bpp == 32
        then fetch4 b (index y (v.pitch / 4) x * 4)
        else fetch3 b (index y v.pitch (x * (v.bpp / 8))))
unfolding vesa_get_pixel read_pixel target
get_pixel-front v b x y e d h = rw (h, e, d)

-- In a valid mode at least 16 rows high, with the frame buffer, which holds bytes, drawn to
-- directly and the console active, scroll_up moves every pixel 16 rows up, and the last 16 rows
-- take the background colour.
pub get_pixel-scroll_up :
    (g : Gfxcon) (x y : ℕ)
    → IsValid g.vesa
    → g.active ≡ true
    → g.vesa.use_backbuffer ≡ false
    → 16 ≤ g.vesa.height
    → ((i : ℕ) → g.vesa.front i < 256)
    → is_outside g.vesa x y ≡ false
    → vesa_get_pixel (scroll_up g).vesa x y
      ≡ (if ltb (y + 16) g.vesa.height then vesa_get_pixel g.vesa x (y + 16) else shade g.vesa g.bg)
get_pixel-scroll_up g x y w a d tall small h =
    let v = g.vesa in
    let (hx, hy) = inside v x y h in
    let (pitch, height, width, words) = sizes v x w tall hx in
    let below = λ (l : y + 16 < v.height).
      let h' : is_outside v x (y + 16) ≡ false = ground (arith, hx, height, width) in
      get_pixel-front v v.front x (y + 16) w.on d h' in
    elim w.depth [
      | inl e ↦
          ap (λ u. vesa_get_pixel u x y) (scroll_up-wide g a e)
          ∙ get_pixel-front v (scrolled_words (v.pitch / 4) v.width v.height g.bg v.front) x y w.on
              d h
          ∙ (let s =
                scrolled_words_lem (v.pitch / 4) v.width v.height words tall height width g.bg
                  v.front y x (w.words e) hy hx in
              elim (dec_lt (y + 16) v.height) [
                | yes l ↦
                    let kept = fetch4-small v.front (index (y + 16) (v.pitch / 4) x * 4) small in
                    ground (arith, e, s, l, below l, kept)
                | no l ↦ ground (arith, e, s, l)
              ])
      | inr e ↦
          ap (λ u. vesa_get_pixel u x y) (scroll_up-narrow g a e)
          ∙ get_pixel-front v (scrolled_triples v.pitch v.width v.height g.bg v.front) x y w.on d h
          ∙ (let s =
                scrolled_triples_lem v.pitch v.width v.height w.fits tall height width g.bg v.front
                  y x (w.triples e) pitch hy hx in
              let eight : v.bpp / 8 ≡ 3 = ap (λ t. t / 8) e in
              elim (dec_lt (y + 16) v.height) [
                | yes l ↦ rw (e, s) (ground (arith, e, s, l, below l, eight))
                | no l ↦ rw e (ground (arith, e, s, l))
              ])
    ]
