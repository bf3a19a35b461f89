-- ===== src/Vesa/Draw/Walk.antt =====
-- kernel/vesa.c: how a step of vesa_draw_line nears the end of the line.
use os_u.Prelude.{
  ℕ, zero, suc, ◌+◌, ◌*◌, ◌^◌, ◌≤◌, ◌<◌, ◌≡◌, inl, inr, sym, ◌∙◌, ap, Bool, true, false, Bool-cases,
  add32, sub32, ltb, if◌then◌else◌, arith,
}
use mathlib.Core.Path.{subst}
use os_u.Vesa.Draw.{Pen, line_step}
use os_u.Vesa.Draw.Step.{
  Difference, Near, test_across, test_down, less_p, less_q, Away, Away-step, ahead, ahead-suc,
  Balanced, Balanced-Near, Balanced-straight, Balanced-across, Balanced-both, Balanced-both_between,
}

-- A step with its two tests answered.
abbrev moved : Bool → Bool → ℕ → ℕ → ℕ → ℕ → Pen → Pen
moved across down dx dy sx sy p =
    let err1 = if across then sub32 p.err dy else p.err in
    record {
      x = if across then add32 p.x sx else p.x;
      y = if down then add32 p.y sy else p.y;
      err = if down then add32 err1 dx else err1;
    }

line_step-moved :
    (dx dy sx sy p q : ℕ) (pen : Pen)
    → Difference pen.err p q
    → Near p q
    → dx < 2 ^ 29
    → dy < 2 ^ 29
    → line_step dx dy sx sy pen
      ≡ moved (ltb (2 * q) (2 * p + dy)) (ltb (2 * p) (2 * q + dx)) dx dy sx sy pen
unfolding line_step
line_step-moved dx dy sx sy p q pen d n hx hy =
    rw (test_across pen.err p q dy d n hy, test_down pen.err p q dx d n hx)

module _ (dx dy sx sy x1 y1 : ℕ) (hx : dx < 2 ^ 29) (hy : dy < 2 ^ 29) where
  -- The pen has `a` steps to go along the one axis, and `b` along the other.
  abbrev pub On : ℕ → ℕ → Pen → Type 0
  On a b pen =
      Away sx a pen.x x1 × Away sy b pen.y y1 × Difference pen.err (ahead dx dy a) (ahead dy dx b)

  On-across :
      (a b : ℕ) (pen : Pen)
      → On (suc a) b pen
      → Near (ahead dx dy a + dy) (ahead dy dx b)
      → On a b (moved true false dx dy sx sy pen)
  On-across a b pen (ax, ay, d) n = (
    Away-step sx a pen.x x1 ax,
    ay,
    less_p pen.err (ahead dx dy a) (ahead dy dx b) dy (rw (← ahead-suc dx dy a) d) n hy,
  )

  On-down :
      (a b : ℕ) (pen : Pen)
      → On a (suc b) pen
      → Near (ahead dx dy a) (ahead dy dx b + dx)
      → On a b (moved false true dx dy sx sy pen)
  On-down a b pen (ax, ay, d) n = (
    ax,
    Away-step sy b pen.y y1 ay,
    less_q pen.err (ahead dx dy a) (ahead dy dx b) dx (rw (← ahead-suc dy dx b) d) n hx,
  )

  On-both :
      (a b : ℕ) (pen : Pen)
      → On (suc a) (suc b) pen
      → Near (ahead dx dy a + dy) (ahead dy dx b + dx)
      → Near (ahead dx dy a) (ahead dy dx b + dx)
      → On a b (moved true true dx dy sx sy pen)
  On-both a b pen (ax, ay, d) n m =
      let p = ahead dx dy a in
      let q = ahead dy dx b in
      (
        Away-step sx a pen.x x1 ax,
        Away-step sy b pen.y y1 ay,
        less_q (sub32 pen.err dy) p q dx
            (less_p pen.err p (q + dx) dy (rw (← ahead-suc dx dy a, ← ahead-suc dy dx b) d) n hy) m
            hx,
      )

  -- A step of a line that is at least as long along its first axis.
  flat_moved :
      (a b : ℕ) (pen : Pen)
      → dy ≤ dx
      → On a b pen
      → Balanced dx dy (ahead dx dy a) (ahead dy dx b)
      → line_step dx dy sx sy pen
        ≡ moved true (ltb (2 * ahead dx dy a) (2 * ahead dy dx b + dx)) dx dy sx sy pen
  flat_moved a b pen h on w =
      let p = ahead dx dy a in
      let q = ahead dy dx b in
      let across : ltb (2 * q) (2 * p + dy) ≡ true = ground (arith, w.0) in
      line_step-moved dx dy sx sy p q pen on.2 (Balanced-Near dx dy p q h hx w) hx hy
      ∙ ap (λ t. moved t (ltb (2 * p) (2 * q + dx)) dx dy sx sy pen) across

  -- After a step of such a line there is one step less to go along the first axis.
  abbrev pub After : ℕ → Pen → Type 0
  After a pen = (b : ℕ) × On a b pen × Balanced dx dy (ahead dx dy a) (ahead dy dx b)

  After-across :
      (a b : ℕ) (pen : Pen)
      → dy ≤ dx
      → 0 < dx
      → On (suc a) b pen
      → Balanced dx dy (ahead dx dy (suc a)) (ahead dy dx b)
      → ltb (2 * ahead dx dy (suc a)) (2 * ahead dy dx b + dx) ≡ false
      → After a (moved true false dx dy sx sy pen)
  After-across a b pen h k on w e =
      let p = ahead dx dy a in
      let q = ahead dy dx b in
      let w' : Balanced dx dy (p + dy) q = rw (← ahead-suc dx dy a) w in
      let e' : ltb (2 * (p + dy)) (2 * q + dx) ≡ false = rw (← ahead-suc dx dy a) e in
      (
        b,
        On-across a b pen on (Balanced-Near dx dy (p + dy) q h hx w'),
        Balanced-across dx dy p q h k e' w',
      )

  After-both :
      (a b : ℕ) (pen : Pen)
      → dy ≤ dx
      → 0 < dx
      → On (suc a) (suc b) pen
      → Balanced dx dy (ahead dx dy (suc a)) (ahead dy dx (suc b))
      → ltb (2 * ahead dx dy (suc a)) (2 * ahead dy dx (suc b) + dx) ≡ true
      → After a (moved true true dx dy sx sy pen)
  After-both a b pen h k on w e =
      let p = ahead dx dy a in
      let q = ahead dy dx b in
      let w' : Balanced dx dy (p + dy) (q + dx) = rw (← ahead-suc dx dy a, ← ahead-suc dy dx b) w in
      let e' : ltb (2 * (p + dy)) (2 * (q + dx) + dx) ≡ true =
        rw (← ahead-suc dx dy a, ← ahead-suc dy dx b) e in
      (
        b,
        On-both a b pen on (Balanced-Near dx dy (p + dy) (q + dx) h hx w')
            (omega arith, omega arith),
        Balanced-both dx dy p q h k e' w',
      )

  pub flat_step :
      (a b : ℕ) (pen : Pen)
      → dy ≤ dx
      → 0 < dx
      → On (suc a) b pen
      → Balanced dx dy (ahead dx dy (suc a)) (ahead dy dx b)
      → After a (line_step dx dy sx sy pen)
  flat_step a zero pen h k on w =
      let straight = Balanced-straight dx dy a k in
      subst (After a)
        (sym (flat_moved (suc a) zero pen h on w ∙ ap (λ t. moved true t dx dy sx sy pen) straight))
        (After-across a zero pen h k on w straight)
  flat_step a (suc b) pen h k on w =
      let e = flat_moved (suc a) (suc b) pen h on w in
      elim (Bool-cases (ltb (2 * ahead dx dy (suc a)) (2 * ahead dy dx (suc b) + dx))) [
        | inl t ↦
            subst (After a) (sym (e ∙ ap (λ t. moved true t dx dy sx sy pen) t))
              (After-both a b pen h k on w t)
        | inr t ↦
            subst (After a) (sym (e ∙ ap (λ t. moved true t dx dy sx sy pen) t))
              (After-across a (suc b) pen h k on w t)
      ]

  -- The same for a line that is longer along its second axis.
  steep_moved :
      (a b : ℕ) (pen : Pen)
      → dx ≤ dy
      → On a b pen
      → Balanced dy dx (ahead dy dx b) (ahead dx dy a)
      → line_step dx dy sx sy pen
        ≡ moved (ltb (2 * ahead dy dx b) (2 * ahead dx dy a + dy)) true dx dy sx sy pen
  steep_moved a b pen h on w =
      let p = ahead dx dy a in
      let q = ahead dy dx b in
      let down : ltb (2 * p) (2 * q + dx) ≡ true = ground (arith, w.0) in
      let (l, r) = Balanced-Near dy dx q p h hy w in
      line_step-moved dx dy sx sy p q pen on.2 (r, l) hx hy
      ∙ ap (λ t. moved (ltb (2 * q) (2 * p + dy)) t dx dy sx sy pen) down

  abbrev pub SteepAfter : ℕ → Pen → Type 0
  SteepAfter b pen = (a : ℕ) × On a b pen × Balanced dy dx (ahead dy dx b) (ahead dx dy a)

  SteepAfter-down :
      (a b : ℕ) (pen : Pen)
      → dx ≤ dy
      → 0 < dy
      → On a (suc b) pen
      → Balanced dy dx (ahead dy dx (suc b)) (ahead dx dy a)
      → ltb (2 * ahead dy dx (suc b)) (2 * ahead dx dy a + dy) ≡ false
      → SteepAfter b (moved false true dx dy sx sy pen)
  SteepAfter-down a b pen h k on w e =
      let p = ahead dx dy a in
      let q = ahead dy dx b in
      let w' : Balanced dy dx (q + dx) p = rw (← ahead-suc dy dx b) w in
      let e' : ltb (2 * (q + dx)) (2 * p + dy) ≡ false = rw (← ahead-suc dy dx b) e in
      let (l, r) = Balanced-Near dy dx (q + dx) p h hy w' in
      (a, On-down a b pen on (r, l), Balanced-across dy dx q p h k e' w')

  SteepAfter-both :
      (a b : ℕ) (pen : Pen)
      → dx ≤ dy
      → 0 < dy
      → On (suc a) (suc b) pen
      → Balanced dy dx (ahead dy dx (suc b)) (ahead dx dy (suc a))
      → ltb (2 * ahead dy dx (suc b)) (2 * ahead dx dy (suc a) + dy) ≡ true
      → SteepAfter b (moved true true dx dy sx sy pen)
  SteepAfter-both a b pen h k on w e =
      let p = ahead dx dy a in
      let q = ahead dy dx b in
      let w' : Balanced dy dx (q + dx) (p + dy) = rw (← ahead-suc dx dy a, ← ahead-suc dy dx b) w in
      let e' : ltb (2 * (q + dx)) (2 * (p + dy) + dy) ≡ true =
        rw (← ahead-suc dx dy a, ← ahead-suc dy dx b) e in
      let (l, r) = Balanced-Near dy dx (q + dx) (p + dy) h hy w' in
      let (m, n) = Balanced-both_between dy dx q p h hy e' w' in
      (a, On-both a b pen on (r, l) (m, n), Balanced-both dy dx q p h k e' w')

  pub steep_step :
      (a b : ℕ) (pen : Pen)
      → dx ≤ dy
      → 0 < dy
      → On a (suc b) pen
      → Balanced dy dx (ahead dy dx (suc b)) (ahead dx dy a)
      → SteepAfter b (line_step dx dy sx sy pen)
  steep_step zero b pen h k on w =
      let straight = Balanced-straight dy dx b k in
      subst (SteepAfter b)
        (sym
          (steep_moved zero (suc b) pen h on w ∙ ap (λ t. moved t true dx dy sx sy pen) straight))
        (SteepAfter-down zero b pen h k on w straight)
  steep_step (suc a) b pen h k on w =
      let e = steep_moved (suc a) (suc b) pen h on w in
      elim (Bool-cases (ltb (2 * ahead dy dx (suc b)) (2 * ahead dx dy (suc a) + dy))) [
        | inl t ↦
            subst (SteepAfter b) (sym (e ∙ ap (λ t. moved t true dx dy sx sy pen) t))
              (SteepAfter-both a b pen h k on w t)
        | inr t ↦
            subst (SteepAfter b) (sym (e ∙ ap (λ t. moved t true dx dy sx sy pen) t))
              (SteepAfter-down (suc a) b pen h k on w t)
      ]
