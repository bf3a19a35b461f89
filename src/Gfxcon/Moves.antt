-- ===== src/Gfxcon/Moves.antt =====
-- kernel/gfxcon.c: what the loops of scroll_up do to the cells of a frame buffer.
use os_u.Prelude.{
  ℕ, zero, suc, ◌+◌, ◌^◌, ◌≤◌, ◌<◌, ◌≡◌, ◌∙◌, ap, ◌&&◌, Bytes, add32, ltb, leb, ◌==◌, if◌then◌else◌,
  arith,
}
use native.Mathlib.Decide.{ℕ_discrete, dec_lt}
use os_u.Gfxcon.{Cells, copy_cells, copy_rows, fill_cells, fill_rows}

-- Cells of `height` rows of `width`: what is stored in one is fetched from it, cut by `norm`, and the others
-- stay.
pub record AreCells (cells : Cells) (norm : ℕ → ℕ) (width height : ℕ) : Type 0 where
  pub fetch-store :
      (b : Bytes) (y x c y' x' : ℕ)
      → y < height
      → x < width
      → y' < height
      → x' < width
      → cells.fetch (cells.store b y x c) y' x'
        ≡ (if y == y' && x == x' then norm c else cells.fetch b y' x')

module _ (cells : Cells) (norm : ℕ → ℕ) (width height : ℕ)
    (law : AreCells cells norm width height) where
  fill_cells_at :
      (n x y c : ℕ) (b : Bytes) (y' x' : ℕ)
      → y < height
      → x + n ≤ width
      → y' < height
      → x' < width
      → cells.fetch (fill_cells cells n x y c b) y' x'
        ≡ (if y == y' && (leb x x' && ltb x' (x + n)) then norm c else cells.fetch b y' x')
  unfolding fill_cells
  fill_cells_at zero x y c b y' x' hy hx hy' hx' = ground arith
  fill_cells_at (suc n) x y c b y' x' hy hx hy' hx' =
      let stored : cells.fetch (cells.store b y x c) y' x'
          ≡ (if y == y' && x == x' then norm c else cells.fetch b y' x') =
        law.fetch-store b y x c y' x' hy (omega arith) hy' hx' in
      let rest = fill_cells_at n (x + 1) y c (cells.store b y x c) y' x' hy (omega arith) hy' hx' in
      ground (arith, stored, rest)

  -- The rows from `y` on are filled, and the others stay.
  pub fill_rows_at :
      (n y c : ℕ) (b : Bytes) (y' x' : ℕ)
      → height < 2 ^ 32
      → y + n ≤ height
      → y' < height
      → x' < width
      → cells.fetch (fill_rows cells n y width c b) y' x'
        ≡ (if leb y y' && ltb y' (y + n) then norm c else cells.fetch b y' x')
  unfolding fill_rows
  fill_rows_at zero y c b y' x' hh hy hy' hx' = ground arith
  fill_rows_at (suc n) y c b y' x' hh hy hy' hx' =
      let next : add32 y 1 ≡ y + 1 = omega arith in
      let row = fill_cells_at width 0 y c b y' x' (omega arith) (omega arith) hy' hx' in
      let rest =
        fill_rows_at n (y + 1) c (fill_cells cells width 0 y c b) y' x' hh (omega arith) hy' hx' in
      rw next (ground (arith, row, rest))

  copy_cells_at :
      (n x y : ℕ) (b : Bytes) (y' x' : ℕ)
      → y + 16 < height
      → x + n ≤ width
      → y' < height
      → x' < width
      → cells.fetch (copy_cells cells n x y b) y' x' ≡ (
          if y == y' && (leb x x' && ltb x' (x + n))
          then norm (cells.fetch b (y + 16) x')
          else cells.fetch b y' x')
  unfolding copy_cells
  copy_cells_at zero x y b y' x' hy hx hy' hx' = ground arith
  copy_cells_at (suc n) x y b y' x' hy hx hy' hx' =
      let c = cells.fetch b (y + 16) x in
      let stored = law.fetch-store b y x c y' x' (omega arith) (omega arith) hy' hx' in
      let below = law.fetch-store b y x c (y + 16) x' (omega arith) (omega arith) hy hx' in
      let unmoved : cells.fetch (cells.store b y x c) (y + 16) x' ≡ cells.fetch b (y + 16) x' =
        below ∙ ground arith in
      let rest = copy_cells_at n (x + 1) y (cells.store b y x c) y' x' hy (omega arith) hy' hx' in
      elim (ℕ_discrete x x') [
        | yes p ↦
            let same : norm c ≡ norm (cells.fetch b (y + 16) x') =
              ap (λ t. norm (cells.fetch b (y + 16) t)) p in
            rest ∙ ground (arith, stored, unmoved, p, same)
        | no p ↦ rest ∙ ground (arith, stored, unmoved, p)
      ]

  -- Each row from `y` on is the one 16 rows below it, as it was, and the others stay.
  pub copy_rows_at :
      (n y : ℕ) (b : Bytes) (y' x' : ℕ)
      → y + n + 16 ≤ height
      → y' < height
      → x' < width
      → cells.fetch (copy_rows cells n y width b) y' x' ≡ (
          if leb y y' && ltb y' (y + n)
          then norm (cells.fetch b (y' + 16) x')
          else cells.fetch b y' x')
  unfolding copy_rows
  copy_rows_at zero y b y' x' hy hy' hx' = ground arith
  copy_rows_at (suc n) y b y' x' hy hy' hx' =
      let b1 = copy_cells cells width 0 y b in
      let rest = copy_rows_at n (y + 1) b1 y' x' (omega arith) hy' hx' in
      let row = copy_cells_at width 0 y b y' x' (omega arith) (omega arith) hy' hx' in
      elim (ℕ_discrete y y') [
        | yes p ↦
            let same : norm (cells.fetch b (y + 16) x') ≡ norm (cells.fetch b (y' + 16) x') =
              ap (λ t. norm (cells.fetch b (t + 16) x')) p in
            rest ∙ ground (arith, row, p, same)
        | no p ↦ elim (dec_lt y' (y + suc n)) [
          | yes l ↦
              let below =
                copy_cells_at width 0 y b (y' + 16) x' (omega arith) (omega arith) (omega arith)
                  hx' in
              rest ∙ elim (dec_lt y y') [
                | yes m ↦
                    let unmoved : cells.fetch b1 (y' + 16) x' ≡ cells.fetch b (y' + 16) x' =
                      below ∙ ground arith in
                    let cut = ap norm unmoved in ground (arith, row, p, cut)
                | no m ↦ ground (arith, row, p)
              ]
          | no l ↦ rest ∙ ground (arith, row, p)
        ]
      ]
