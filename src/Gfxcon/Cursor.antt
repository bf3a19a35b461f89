-- ===== src/Gfxcon/Cursor.antt =====
-- kernel/gfxcon.c: where characters take the cursor.
use os_u.Prelude.{
  ℕ, ◌+◌, ◌-◌, ◌%◌, ◌^◌, ◌≤◌, ◌<◌, ◌≡◌, inl, inr, refl, sym, ◌∙◌, ap, ap₂, true, ◌&&◌, ◌||◌, not,
  Bool-cases, List, [], ◌∷◌, add32, sub32, lt32, ltb, leb, ◌==◌, if◌then◌else◌, arith,
}
use mathlib.Core.Path.{subst}
use os_u.Gfxcon.{Gfxcon, put_key, wrap, scroll_up, scroll_times, gfxcon_putc, gfxcon_puts}

-- A console whose cursor is on the screen, with a screen of less than `2 ^ 30` columns and rows.
pub record Fits (g : Gfxcon) : Type 0 where
  pub row : g.row < g.rows
  pub col : g.col < g.cols
  pub rows : g.rows < 2 ^ 30
  pub cols : g.cols < 2 ^ 30

-- The place of the cursor, as a row and a column.
abbrev pub Place : Type 0
Place = ℕ × ℕ

-- What a character does to a cursor on a screen of `rows` and `cols`: a line after the last is the last.
abbrev pub down : ℕ → ℕ → ℕ
down rows row = if ltb (row + 1) rows then row + 1 else row

abbrev pub to_col : ℕ → ℕ → ℕ → ℕ → Place
to_col rows cols row col = if ltb col cols then (row, col) else (down rows row, 0)

abbrev pub next_place : ℕ → ℕ → ℕ → Place → Place
next_place rows cols c (row, col) =
    if c == b'\n'
    then (down rows row, 0)
    else if c == b'\r'
    then (row, 0)
    else if c == b'\t'
    then to_col rows cols row (col + 8 - col % 8)
    else if c == 8
    then (row, col - 1)
    else if leb 32 c && ltb c 128
    then to_col rows cols row (col + 1)
    else (row, col)

-- What stays through drawing and scrolling.
pub record Alike (g h : Gfxcon) : Type 0 where
  pub active : g.active ≡ h.active
  pub cols : g.cols ≡ h.cols
  pub rows : g.rows ≡ h.rows

scroll_up-Alike : (g : Gfxcon) → Alike (scroll_up g) g
unfolding scroll_up
scroll_up-Alike g = record { active = ground arith; cols = ground arith; rows = ground arith }

scroll_up_lem : (g : Gfxcon) → ((scroll_up g).row ≡ g.row) × ((scroll_up g).col ≡ g.col)
unfolding scroll_up
scroll_up_lem g = (ground arith, ground arith)

put_key-Alike : (g : Gfxcon) (c : ℕ) → Alike (put_key g c) g
unfolding put_key
put_key-Alike g c = record { active = ground arith; cols = ground arith; rows = ground arith }

wrap-Alike : (g : Gfxcon) → Alike (wrap g) g
unfolding wrap
wrap-Alike g = record { active = ground arith; cols = ground arith; rows = ground arith }

put_key_lem :
    (g : Gfxcon) (c : ℕ)
    → Fits g
    → ((put_key g c).row ≡ (if c == b'\n' then g.row + 1 else g.row))
      × ((put_key g c).col ≡ (
          if c == b'\n' || c == b'\r'
          then 0
          else if c == b'\t'
          then g.col + 8 - g.col % 8
          else if c == 8
          then g.col - 1
          else if leb 32 c && ltb c 128
          then g.col + 1
          else g.col))
unfolding put_key
put_key_lem g c f =
    (ground (arith, f.row, f.col, f.rows, f.cols), ground (arith, f.row, f.col, f.rows, f.cols))

wrap_lem :
    (g : Gfxcon)
    → ((wrap g).row ≡ (if lt32 g.col g.cols then g.row else add32 g.row 1))
      × ((wrap g).col ≡ (if lt32 g.col g.cols then g.col else 0))
unfolding wrap
wrap_lem g = (ground arith, ground arith)

-- At most one line beyond the last, the console scrolls back to it.
scroll_times_lem :
    (g : Gfxcon)
    → g.rows < 2 ^ 30
    → 0 < g.rows
    → g.row ≤ g.rows
    → let s = scroll_times (if lt32 g.row g.rows then 0 else sub32 g.row g.rows + 1) g in
      (s.row ≡ (if ltb g.row g.rows then g.row else g.row - 1)) × (s.col ≡ g.col) × Alike s g
unfolding scroll_times
scroll_times_lem g h k l = elim (Bool-cases (ltb g.row g.rows)) [
  | inl e ↦
      let none : (if lt32 g.row g.rows then 0 else sub32 g.row g.rows + 1) ≡ 0 = ground arith in
      rw (none, e) (refl, refl, record { active = refl; cols = refl; rows = refl })
  | inr e ↦
      let one : (if lt32 g.row g.rows then 0 else sub32 g.row g.rows + 1) ≡ 1 = ground arith in
      let up = scroll_up_lem g in
      let same = scroll_up-Alike g in
      rw (one, e)
        (
          ap (λ t. sub32 t 1) up.0 ∙ ground (arith, e),
          up.1,
          record { active = same.active; cols = same.cols; rows = same.rows },
        )
]

Alike-trans : {g h k : Gfxcon} → Alike g h → Alike h k → Alike g k
Alike-trans a b = record {
  active = a.active ∙ b.active;
  cols = a.cols ∙ b.cols;
  rows = a.rows ∙ b.rows;
}

gfxcon_putc_active :
    (g : Gfxcon) (c : ℕ)
    → g.active ≡ true
    → let h = wrap (put_key g c) in
      gfxcon_putc g c ≡ scroll_times (if lt32 h.row h.rows then 0 else sub32 h.row h.rows + 1) h
unfolding gfxcon_putc
gfxcon_putc_active g c a =
    let h = wrap (put_key g c) in
    ap
      (λ t.
        if not t
        then g
        else scroll_times (if lt32 h.row h.rows then 0 else sub32 h.row h.rows + 1) h)
      a

-- The cursor before the scrolling, which takes a line beyond the last for the last.
moved_lem :
    (g : Gfxcon) (c : ℕ)
    → Fits g
    → let h = wrap (put_key g c) in
      let p = next_place g.rows g.cols c (g.row, g.col) in
      (h.row ≤ g.rows) × ((if ltb h.row g.rows then h.row else h.row - 1) ≡ p.0) × (h.col ≡ p.1)
moved_lem g c f =
    let (row, col) = put_key_lem g c f in
    let (row', col') = wrap_lem (put_key g c) in
    let cols = (put_key-Alike g c).cols in
    (
      ground (arith, f.row, f.col, f.rows, f.cols),
      ground (arith, f.row, f.col, f.rows, f.cols),
      ground (arith, f.row, f.col, f.rows, f.cols),
    )

next_place_inside :
    (rows cols c row col : ℕ)
    → row < rows
    → col < cols
    → let p = next_place rows cols c (row, col) in (p.0 < rows) × (p.1 < cols)
next_place_inside rows cols c row col h k = (ground arith, ground arith)

-- A character moves the cursor as `next_place` says, and it stays on the screen.
pub gfxcon_putc_lem :
    (g : Gfxcon) (c : ℕ)
    → g.active ≡ true
    → Fits g
    → let h = gfxcon_putc g c in
      ((h.row, h.col) ≡ next_place g.rows g.cols c (g.row, g.col)) × Fits h × Alike h g
gfxcon_putc_lem g c a f =
    let h = wrap (put_key g c) in
    let n = if lt32 h.row h.rows then 0 else sub32 h.row h.rows + 1 in
    let same = Alike-trans (wrap-Alike (put_key g c)) (put_key-Alike g c) in
    let (low, row, col) = moved_lem g c f in
    let (in_row, in_col) = next_place_inside g.rows g.cols c g.row g.col f.row f.col in
    let (row', col', same') =
      scroll_times_lem h (rw same.rows f.rows) (rw same.rows (omega (arith, f.row)))
        (rw same.rows low) in
    let all : Alike (scroll_times n h) g = Alike-trans same' same in
    let at_row = row' ∙ rw same.rows row in
    let at_col = col' ∙ col in
    subst (λ t. ((t.row, t.col) ≡ next_place g.rows g.cols c (g.row, g.col)) × Fits t × Alike t g)
      (sym (gfxcon_putc_active g c a))
      (
        ap₂ (λ r k. (r, k)) at_row at_col,
        record {
          row = rw (at_row, all.rows) in_row;
          col = rw (at_col, all.cols) in_col;
          rows = rw all.rows f.rows;
          cols = rw all.cols f.cols;
        },
        all,
      )

-- Where a string takes the cursor; a byte of 0 ends it.
unfoldable pub places : ℕ → ℕ → List ℕ → Place → Place
places rows cols [] p = p
places rows cols (c ∷ s) p =
    let rest = places rows cols s (next_place rows cols c p) in if c == 0 then p else rest

-- What a string leaves of the console.
abbrev pub Placed : Gfxcon → Place → Gfxcon → Type 0
Placed g p h = ((h.row, h.col) ≡ p) × Fits h × Alike h g

-- On an active console whose cursor is on the screen, of less than `2 ^ 30` rows and columns, a
-- string moves the cursor through the places that its bytes name, one by one, and leaves it on the
-- screen, of the same rows and columns.
pub gfxcon_puts_lem :
    (g : Gfxcon) (s : List ℕ)
    → g.active ≡ true
    → Fits g
    → Placed g (places g.rows g.cols s (g.row, g.col)) (gfxcon_puts g s)
unfolding gfxcon_puts places
gfxcon_puts_lem g [] a f = (refl, f, record { active = refl; cols = refl; rows = refl })
gfxcon_puts_lem g (c ∷ s) a f =
    let h = gfxcon_putc g c in
    let (place, fits, same) = gfxcon_putc_lem g c a f in
    let (place', fits', same') = gfxcon_puts_lem h s (same.active ∙ a) fits in
    let at_h : places h.rows h.cols s (h.row, h.col)
        ≡ places g.rows g.cols s (next_place g.rows g.cols c (g.row, g.col)) =
      ap₂ (λ rows cols. places rows cols s (h.row, h.col)) same.rows same.cols
      ∙ ap (places g.rows g.cols s) place in
    elim (Bool-cases (c == 0)) [
      | inl e ↦ rw e (refl, f, record { active = refl; cols = refl; rows = refl })
      | inr e ↦ rw e (place' ∙ at_h, fits', Alike-trans same' same)
    ]
