-- ===== src/Vesa/Draw/Step.antt =====
-- kernel/vesa.c: the numbers of a step of vesa_draw_line.
use os_u.Prelude.{
  ℕ, zero, suc, ◌+◌, ◌-◌, ◌*◌, ◌^◌, ◌≤◌, ◌<◌, ◌≡◌, ◌≢◌, ◌⊎◌, inl, inr, refl, true, false,
  Bool-cases, neg32, mul32, add32, sub32, lt32, ltb, arith,
}
use native.Mathlib.Decide.{dec_lt}
use os_u.Vesa.Draw.{direction, distance}

-- The int `err` is the difference of `p` and `q`.
abbrev pub Difference : ℕ → ℕ → ℕ → Type 0
Difference err p q = ((q ≤ p) × (err ≡ p - q)) ⊎ ((p < q) × (err + (q - p) ≡ 2 ^ 32))

-- The difference is small.
abbrev pub Near : ℕ → ℕ → Type 0
Near p q = (p < q + 2 ^ 30) × (q < p + 2 ^ 30)

pub test_across :
    (err p q dy : ℕ)
    → Difference err p q
    → Near p q
    → dy < 2 ^ 29
    → lt32 (neg32 dy) (mul32 2 err) ≡ ltb (2 * q) (2 * p + dy)
test_across err p q dy (inl d) n h = ground arith
test_across err p q dy (inr d) n h = ground arith

pub test_down :
    (err p q dx : ℕ)
    → Difference err p q
    → Near p q
    → dx < 2 ^ 29
    → lt32 (mul32 2 err) dx ≡ ltb (2 * p) (2 * q + dx)
test_down err p q dx (inl d) n h = ground arith
test_down err p q dx (inr d) n h = ground arith

pub less_p :
    (err p q dy : ℕ)
    → Difference err (p + dy) q
    → Near (p + dy) q
    → dy < 2 ^ 29
    → Difference (sub32 err dy) p q
less_p err p q dy (inl d) n h = elim (dec_lt p q) [
  | yes l ↦ inr (l, omega arith)
  | no l ↦ inl (omega arith, omega arith)
]
less_p err p q dy (inr d) n h = inr (omega arith, omega arith)

pub less_q :
    (err p q dx : ℕ)
    → Difference err p (q + dx)
    → Near p (q + dx)
    → dx < 2 ^ 29
    → Difference (add32 err dx) p q
less_q err p q dx (inl d) n h = inl (omega arith, omega arith)
less_q err p q dx (inr d) n h = elim (dec_lt p q) [
  | yes l ↦ inr (l, omega arith)
  | no l ↦ inl (omega arith, omega arith)
]

-- `n` steps in the direction `s` lead from `p` to `t`.
abbrev pub Away : ℕ → ℕ → ℕ → ℕ → Type 0
Away s n p t =
    (((s ≡ 1) × (add32 p n ≡ t)) ⊎ ((s ≡ neg32 1) × (add32 t n ≡ p))) × (p < 2 ^ 32) × (t < 2 ^ 32)

pub Away-step : (s n p t : ℕ) → Away s (suc n) p t → Away s n (add32 p s) t
Away-step s n p t (inl d, h, k) = (inl (d.0, omega arith), omega arith, k)
Away-step s n p t (inr d, h, k) = (inr (d.0, omega arith), omega arith, k)

pub Away-zero : (s p t : ℕ) → Away s 0 p t → p ≡ t
Away-zero s p t (inl d, h, k) = omega arith
Away-zero s p t (inr d, h, k) = omega arith

pub Away-suc : (s n p t : ℕ) → Away s (suc n) p t → suc n < 2 ^ 32 → p ≢ t
Away-suc s n p t (inl d, h, k) l e = omega arith
Away-suc s n p t (inr d, h, k) l e = omega arith

pub Away-begin :
    (p t : ℕ) → p < 2 ^ 32 → t < 2 ^ 32 → Away (direction (sub32 t p)) (distance (sub32 t p)) p t
Away-begin p t h k = elim (Bool-cases (lt32 0 (sub32 t p))) [
  | inl e ↦ (inl (ground (arith, e), ground (arith, e)), h, k)
  | inr e ↦ (inr (ground (arith, e), ground (arith, e)), h, k)
]

-- The sums that the error term of a line with `a` and `b` steps to go is the difference of.
abbrev pub ahead : ℕ → ℕ → ℕ → ℕ
ahead dx dy a = dx + a * dy

pub ahead-suc : (dx dy a : ℕ) → ahead dx dy (suc a) ≡ ahead dx dy a + dy
ahead-suc dx dy a = grind arith

pub Difference-begin :
    (dx dy : ℕ)
    → dx < 2 ^ 29
    → dy < 2 ^ 29
    → Difference (sub32 dx dy) (ahead dx dy dx) (ahead dy dx dy)
Difference-begin dx dy h k =
    let e : dx * dy ≡ dy * dx = grind arith in
    elim (dec_lt dx dy) [
      | yes l ↦ inr (omega arith, omega arith)
      | no l ↦ inl (omega arith, omega arith)
    ]

-- What holds of the sums of a line that is at least as long along its first axis.
abbrev pub Balanced : ℕ → ℕ → ℕ → ℕ → Type 0
Balanced dx dy p q = (2 * q < 2 * p + dy) × (2 * p + 2 * dy < 2 * q + 3 * dx)

pub Balanced-begin :
    (dx dy : ℕ) → 0 < dx → dy ≤ dx → Balanced dx dy (ahead dx dy dx) (ahead dy dx dy)
Balanced-begin dx dy h k = let e : dx * dy ≡ dy * dx = grind arith in (omega arith, omega arith)

pub Balanced-end : (dx dy b : ℕ) → dy ≤ dx → Balanced dx dy (ahead dx dy 0) (ahead dy dx b) → b ≡ 0
Balanced-end dx dy zero h w = refl
Balanced-end dx dy (suc b) h w = absurd (omega (arith, ahead-suc dy dx b))

pub Balanced-Near : (dx dy p q : ℕ) → dy ≤ dx → dx < 2 ^ 29 → Balanced dx dy p q → Near p q
Balanced-Near dx dy p q h k w = (omega arith, omega arith)

-- Beside the end along its first axis alone no step along the second is made.
pub Balanced-straight :
    (dx dy a : ℕ) → 0 < dx → ltb (2 * ahead dx dy (suc a)) (2 * ahead dy dx 0 + dx) ≡ false
Balanced-straight dx dy a h = ground (arith, ahead-suc dx dy a)

pub Balanced-across :
    (dx dy p q : ℕ)
    → dy ≤ dx
    → 0 < dx
    → ltb (2 * (p + dy)) (2 * q + dx) ≡ false
    → Balanced dx dy (p + dy) q
    → Balanced dx dy p q
Balanced-across dx dy p q h k e w = (ground (arith, e), ground (arith, e))

pub Balanced-both :
    (dx dy p q : ℕ)
    → dy ≤ dx
    → 0 < dx
    → ltb (2 * (p + dy)) (2 * (q + dx) + dx) ≡ true
    → Balanced dx dy (p + dy) (q + dx)
    → Balanced dx dy p q
Balanced-both dx dy p q h k e w = (ground (arith, e), ground (arith, e))

-- Between the two moves of such a step the sums are still near each other.
pub Balanced-both_between :
    (dx dy p q : ℕ)
    → dy ≤ dx
    → dx < 2 ^ 29
    → ltb (2 * (p + dy)) (2 * (q + dx) + dx) ≡ true
    → Balanced dx dy (p + dy) (q + dx)
    → Near q (p + dy)
Balanced-both_between dx dy p q h k e w = (omega arith, ground (arith, e))
