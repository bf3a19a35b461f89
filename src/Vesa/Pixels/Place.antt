-- ===== src/Vesa/Pixels/Place.antt =====
-- kernel/vesa.c: the bytes of a pixel; different pixels of a mode lie apart.
use os_u.Prelude.{
  ℕ, zero, suc, ◌+◌, ◌*◌, ◌/◌, ◌%◌, ◌^◌, ◌≤◌, ◌<◌, ◌≡◌, ◌≢◌, ◌⊎◌, inl, inr, true, false, ◌&&◌,
  Bytes, ◌==◌, if◌then◌else◌, arith,
}
use native.Mathlib.Decide.{ℕ_discrete, dec_lt}
use os_u.Vesa.Pixels.{
  Vesa, backbuffer_max, to_back, store3, store4, fetch3, fetch4, is_outside, offset, word_place,
  write_pixel, read_pixel,
}

-- A mode of 24 or 32 bits whose rows fit in the pitch, and whose addresses fit in 32 bits; while the back
-- buffer is drawn to, the mode fits in its array.
pub record IsValid (v : Vesa) : Type 0 where
  pub on : v.enabled ≡ true
  pub depth : (v.bpp ≡ 32) ⊎ (v.bpp ≡ 24)
  pub words : v.bpp ≡ 32 → v.width ≤ v.pitch / 4
  pub triples : v.bpp ≡ 24 → v.width * 3 ≤ v.pitch
  pub fits : v.height * v.pitch ≤ 2 ^ 32
  pub room : to_back v ≡ true → v.height * v.pitch ≤ backbuffer_max

-- The bits of a colour that a pixel keeps.
abbrev pub shade : Vesa → ℕ → ℕ
shade v color = if v.bpp == 32 then color % 2 ^ 32 else color % 2 ^ 24

abbrev pub Apart : ℕ → ℕ → ℕ → Type 0
Apart n i j = (i + n ≤ j) ⊎ (j + n ≤ i)

pub fetch3-store3 : (b : Bytes) (i c : ℕ) → fetch3 (store3 b i c) i ≡ c % 2 ^ 24
unfolding fetch3 store3
fetch3-store3 b i c = ground arith

pub fetch4-store4 : (b : Bytes) (i c : ℕ) → fetch4 (store4 b i c) i ≡ c % 2 ^ 32
unfolding fetch4 fetch3 store4 store3
fetch4-store4 b i c = ground arith

pub fetch3-store3_other :
    (b : Bytes) (i j c : ℕ) → Apart 3 i j → fetch3 (store3 b i c) j ≡ fetch3 b j
unfolding fetch3 store3
fetch3-store3_other b i j c (inl h) = ground arith
fetch3-store3_other b i j c (inr h) = ground arith

pub fetch4-store4_other :
    (b : Bytes) (i j c : ℕ) → Apart 4 i j → fetch4 (store4 b i c) j ≡ fetch4 b j
unfolding fetch4 fetch3 store4 store3
fetch4-store4_other b i j c (inl h) = ground arith
fetch4-store4_other b i j c (inr h) = ground arith

-- A row ends before a later one begins.
pub row-le : (y y' p : ℕ) → y < y' → y * p + p ≤ y' * p
row-le y y' p h = grind arith

pub words-le : (h p : ℕ) → h * (p / 4) ≤ h * p
words-le zero p = omega arith
words-le (suc h) p = omega (arith, words-le h p)

words_four-le : (h p : ℕ) → h * (p / 4) * 4 ≤ h * p
words_four-le zero p = omega arith
words_four-le (suc h) p = omega (arith, words_four-le h p)

pub cells-Apart :
    (n p x y x' y' : ℕ)
    → x * n + n ≤ p
    → x' * n + n ≤ p
    → (x ≢ x') ⊎ (y ≢ y')
    → Apart n (y * p + x * n) (y' * p + x' * n)
cells-Apart n p x y x' y' h k d = elim (dec_lt y y') [
  | yes a ↦ inl (omega (arith, row-le y y' p a))
  | no na ↦ elim (dec_lt y' y) [
    | yes a ↦ inr (omega (arith, row-le y' y p a))
    | no nb ↦
        let e : y ≡ y' = omega arith in
        rw e (elim (dec_lt x x') [
          | yes a ↦ inl (omega (arith, row-le x x' n a))
          | no nc ↦ inr (omega (arith, row-le x' x n (before (omega arith) e d nc)))
        ])
  ]
]
  where
    before : y ≡ y' → y ≡ y' → (x ≢ x') ⊎ (y ≢ y') → ¬ (x < x') → x' < x
    before e f (inl d) nc = omega arith
    before e f (inr d) nc = absurd (d e)

-- What an on-screen place means.
pub inside : (v : Vesa) (x y : ℕ) → is_outside v x y ≡ false → (x < v.width) × (y < v.height)
inside v x y h = ground arith

offset-24 :
    (v : Vesa) (x y : ℕ)
    → IsValid v
    → v.bpp ≡ 24
    → is_outside v x y ≡ false
    → (x * 3 + 3 ≤ v.pitch) × (offset v x y ≡ y * v.pitch + x * 3)
offset-24 v x y w d h =
    let (hx, hy) = inside v x y h in
    let wide = w.triples d in
    let row = row-le y v.height v.pitch hy in
    let size = w.fits in
    let end : y * v.pitch + x * 3 < 2 ^ 32 = omega arith in (omega arith, rw d (omega arith))

word-32 :
    (v : Vesa) (x y : ℕ)
    → IsValid v
    → v.bpp ≡ 32
    → is_outside v x y ≡ false
    → (x * 1 + 1 ≤ v.pitch / 4) × (word_place v x y ≡ (y * (v.pitch / 4) + x * 1) * 4)
word-32 v x y w d h =
    let (hx, hy) = inside v x y h in
    let wide = w.words d in
    let row = row-le y v.height (v.pitch / 4) hy in
    let size : v.height * (v.pitch / 4) ≤ v.height * v.pitch = words-le v.height v.pitch in
    let all = w.fits in (omega arith, omega arith)

places-Apart :
    (v : Vesa) (x y x' y' : ℕ)
    → IsValid v
    → is_outside v x y ≡ false
    → is_outside v x' y' ≡ false
    → (x ≢ x') ⊎ (y ≢ y')
    → (v.bpp ≡ 32 → Apart 4 (word_place v x y) (word_place v x' y'))
      × (v.bpp ≡ 24 → Apart 3 (offset v x y) (offset v x' y'))
places-Apart v x y x' y' w h h' d = (words, triples)
  where
    words : v.bpp ≡ 32 → Apart 4 (word_place v x y) (word_place v x' y')
    words e =
        let (k, p) = word-32 v x y w e h in
        let (k', p') = word-32 v x' y' w e h' in
        elim (cells-Apart 1 (v.pitch / 4) x y x' y' k k' d) [
          | inl l ↦ inl (omega arith)
          | inr l ↦ inr (omega arith)
        ]

    triples : v.bpp ≡ 24 → Apart 3 (offset v x y) (offset v x' y')
    triples e =
        let (k, p) = offset-24 v x y w e h in
        let (k', p') = offset-24 v x' y' w e h' in
        rw (p, p') (cells-Apart 3 v.pitch x y x' y' k k' d)

read_pixel-write_pixel_self :
    (v : Vesa) (b : Bytes) (x y c : ℕ)
    → IsValid v
    → read_pixel v (write_pixel v b x y c) x y ≡ shade v c
unfolding read_pixel write_pixel
read_pixel-write_pixel_self v b x y c w =
    ground (arith, fetch4-store4 b (word_place v x y) c, fetch3-store3 b (offset v x y) c)

read_pixel-write_pixel_other :
    (v : Vesa) (b : Bytes) (x y x' y' c : ℕ)
    → IsValid v
    → is_outside v x y ≡ false
    → is_outside v x' y' ≡ false
    → (x ≢ x') ⊎ (y ≢ y')
    → read_pixel v (write_pixel v b x y c) x' y' ≡ read_pixel v b x' y'
unfolding read_pixel write_pixel
read_pixel-write_pixel_other v b x y x' y' c w h h' d =
    let (words, triples) = places-Apart v x y x' y' w h h' d in
    elim w.depth [
      | inl e ↦
          let o = fetch4-store4_other b (word_place v x y) (word_place v x' y') c (words e) in
          ground (arith, e, o)
      | inr e ↦
          let o = fetch3-store3_other b (offset v x y) (offset v x' y') c (triples e) in
          ground (arith, e, o)
    ]

-- Reading where another or the same pixel was written.
pub read_pixel-write_pixel :
    (v : Vesa) (b : Bytes) (x y x' y' c : ℕ)
    → IsValid v
    → is_outside v x y ≡ false
    → is_outside v x' y' ≡ false
    → read_pixel v (write_pixel v b x y c) x' y'
      ≡ (if x == x' && y == y' then shade v c else read_pixel v b x' y')
read_pixel-write_pixel v b x y x' y' c w h h' = elim (ℕ_discrete x x') [
  | yes p ↦ elim (ℕ_discrete y y') [
    | yes q ↦ rw (← p, ← q) (ground (arith, read_pixel-write_pixel_self v b x y c w))
    | no q ↦ ground (arith, read_pixel-write_pixel_other v b x y x' y' c w h h' (inr q))
  ]
  | no p ↦ ground (arith, read_pixel-write_pixel_other v b x y x' y' c w h h' (inl p))
]

-- A pixel's bytes lie in the rows of the mode.
pub write_pixel_beyond :
    (v : Vesa) (b : Bytes) (x y c i : ℕ)
    → IsValid v
    → is_outside v x y ≡ false
    → v.height * v.pitch ≤ i
    → write_pixel v b x y c i ≡ b i
unfolding write_pixel store3 store4
write_pixel_beyond v b x y c i w h l = elim w.depth [
  | inl e ↦
      let (k, p) = word-32 v x y w e h in
      let row = row-le y v.height v.pitch (inside v x y h).1 in
      let part : y * (v.pitch / 4) * 4 ≤ y * v.pitch = words_four-le y v.pitch in
      let far : word_place v x y + 4 ≤ i = omega arith in ground (arith, e, far)
  | inr e ↦
      let (k, p) = offset-24 v x y w e h in
      let row = row-le y v.height v.pitch (inside v x y h).1 in
      let far : offset v x y + 3 ≤ i = omega arith in ground (arith, e, far)
]
