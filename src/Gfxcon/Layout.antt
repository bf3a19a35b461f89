-- ===== src/Gfxcon/Layout.antt =====
-- kernel/gfxcon.c: the words, bytes and pixels of a frame buffer lie apart from each other.
use os_u.Prelude.{
  ℕ, ◌+◌, ◌*◌, ◌%◌, ◌^◌, ◌≤◌, ◌<◌, ◌≡◌, ◌≢◌, ◌⊎◌, inl, inr, true, false, ◌&&◌, ◌==◌, arith,
}
use native.Mathlib.Decide.{ℕ_discrete}
use os_u.Vesa.Pixels.Place.{
  Apart, row-le, cells-Apart, fetch3-store3, fetch4-store4, fetch3-store3_other,
  fetch4-store4_other,
}
use os_u.Gfxcon.{words, bytes, triples, index}
use os_u.Gfxcon.Moves.{AreCells}

-- Within the rows of a buffer of at most `2 ^ 32` the index does not wrap.
pub index_lem :
    (height p y x : ℕ) → height * p ≤ 2 ^ 32 → y < height → x < p → index y p x ≡ y * p + x
index_lem height p y x h k l = let row = row-le y height p k in omega arith

-- So cells of `n` apart from each other: different ones do not share a byte.
cells-Distinct :
    (n p height y x y' x' : ℕ)
    → height * p ≤ 2 ^ 32
    → 0 < n
    → y < height
    → y' < height
    → x * n + n ≤ p
    → x' * n + n ≤ p
    → (x ≢ x') ⊎ (y ≢ y')
    → Apart n (index y p (x * n)) (index y' p (x' * n))
cells-Distinct n p height y x y' x' h l k k' m m' d =
    rw
      (
        index_lem height p y (x * n) h k (omega arith),
        index_lem height p y' (x' * n) h k' (omega arith),
      )
      (cells-Apart n p x y x' y' m m' d)

same_place :
    (y y' x x' : ℕ)
    → ((x ≡ x') × (y ≡ y') × ((y == y' && x == x') ≡ true))
      ⊎ (((x ≢ x') ⊎ (y ≢ y')) × ((y == y' && x == x') ≡ false))
same_place y y' x x' = elim (ℕ_discrete x x') [
  | yes p ↦ elim (ℕ_discrete y y') [
    | yes q ↦ inl (p, q, ground (arith, p, q))
    | no q ↦ inr (inr q, ground (arith, q))
  ]
  | no p ↦ inr (inl p, ground (arith, p))
]

pub bytes-AreCells :
    (p width height : ℕ)
    → height * p ≤ 2 ^ 32
    → width ≤ p
    → AreCells (bytes p) (λ c. c) width height
bytes-AreCells p width height h w = record {
  fetch-store = λ b y x c y' x' hy hx hy' hx'. elim (same_place y y' x x') [
    | inl (e, d, t) ↦ rw (t, e, d) (ground arith)
    | inr (d, f) ↦
        let apart =
          cells-Distinct 1 p height y x y' x' h (omega arith) hy hy' (omega arith) (omega arith)
            d in
        rw f (elim apart [ inl a ↦ ground arith | inr a ↦ ground arith ])
  ];
}

pub triples-AreCells :
    (p width height : ℕ)
    → height * p ≤ 2 ^ 32
    → width * 3 ≤ p
    → AreCells (triples p) (λ c. c % 2 ^ 24) width height
triples-AreCells p width height h w = record {
  fetch-store = λ b y x c y' x' hy hx hy' hx'. elim (same_place y y' x x') [
    | inl (e, d, t) ↦ rw (t, e, d) (fetch3-store3 b (index y' p (x' * 3)) c)
    | inr (d, f) ↦ rw f (
        fetch3-store3_other b (index y p (x * 3)) (index y' p (x' * 3)) c (
          cells-Distinct 3 p height y x y' x' h (omega arith) hy hy' (omega arith) (omega arith) d))
  ];
}

pub words-AreCells :
    (p width height : ℕ)
    → height * p ≤ 2 ^ 32
    → width ≤ p
    → AreCells (words p) (λ c. c % 2 ^ 32) width height
words-AreCells p width height h w = record {
  fetch-store = λ b y x c y' x' hy hx hy' hx'. elim (same_place y y' x x') [
    | inl (e, d, t) ↦ rw (t, e, d) (fetch4-store4 b (index y' p x' * 4) c)
    | inr (d, f) ↦
        let apart =
          cells-Distinct 1 p height y x y' x' h (omega arith) hy hy' (omega arith) (omega arith)
            d in
        rw f (
          fetch4-store4_other b (index y p x * 4) (index y' p x' * 4) c
            (elim apart [ inl a ↦ inl (omega arith) | inr a ↦ inr (omega arith) ]))
  ];
}
