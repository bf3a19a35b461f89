-- ===== src/Timer/Laws.antt =====
-- kernel/timer.c: how long timer_sleep waits, and what timer_init programs.
use os_u.Prelude.{
  ℕ, zero, suc, ◌+◌, ◌-◌, ◌*◌, ◌/◌, ◌%◌, ◌^◌, ◌≤◌, ◌<◌, ◌≡◌, ◌≢◌, ap, Bool, true, some, List, [],
  ◌∷◌, ◌++◌, arith,
}
use os_u.Timer.{Timer, tick, elapsed, divisor, timer_init, sleep_ticks, sleep_loop, timer_sleep}

-- The two bytes that timer_init sends are those of a divisor from 1 to 65535.
timer_init-divisor :
    (t : Timer) (frequency : ℕ)
    → frequency ≢ 0
    → (d : ℕ) × (1 ≤ d)
      × (d ≤ 65535)
      × (low : ℕ) × (high : ℕ) × (d ≡ low + 256 * high)
      × (low < 256)
      × (high < 256)
      × (timer_init t frequency
          ≡ some (
            record t { tick_frequency = frequency },
            (0x43, 0x36) ∷ (0x40, low) ∷ (0x40, high) ∷ [],
          ))
unfolding timer_init divisor
timer_init-divisor t frequency ne =
    let d = divisor frequency in
    let (one, most) = bounds in
    (d, one, most, d % 256, d / 256 % 256, omega arith, omega arith, omega arith, ground arith)
  where
    bounds : (1 ≤ divisor frequency) × (divisor frequency ≤ 65535)
    bounds = (ground arith, ground arith)

-- So many interrupts of the timer.
only_ticks : ℕ → List Bool
only_ticks zero = []
only_ticks (suc n) = true ∷ only_ticks n

-- The timer after `n` ticks.
abbrev after : ℕ → Timer → Timer
after n t = record t { tick_count = (t.tick_count + n) % 2 ^ 32 }

after-zero : (t : Timer) → t.tick_count < 2 ^ 32 → after 0 t ≡ t
after-zero t h = ap (λ c. record t { tick_count = c }) (omega arith)

after-tick : (n : ℕ) (t : Timer) → after n (tick t) ≡ after (suc n) t
after-tick n t = ap (λ c. record t { tick_count = c }) (omega arith)

elapsed-tick :
    (t : Timer) (start n : ℕ)
    → start < 2 ^ 32
    → t.tick_count < 2 ^ 32
    → n + 1 < 2 ^ 32
    → elapsed t start ≡ n
    → elapsed (tick t) start ≡ n + 1
elapsed-tick t start n h k l e = omega arith

sleep_loop-ticks :
    (start ticks left : ℕ) (t : Timer) (rest : List Bool)
    → start < 2 ^ 32
    → t.tick_count < 2 ^ 32
    → ticks < 2 ^ 32
    → left ≤ ticks
    → elapsed t start ≡ ticks - left
    → sleep_loop start ticks t (only_ticks left ++ rest) ≡ some (after left t, rest)
unfolding sleep_loop only_ticks
sleep_loop-ticks start ticks zero t [] h k l m e = ground (arith, after-zero t k)
sleep_loop-ticks start ticks zero t (b ∷ rest) h k l m e = ground (arith, after-zero t k)
sleep_loop-ticks start ticks (suc left) t rest h k l m e =
    let next = elapsed-tick t start (ticks - suc left) h k (omega arith) e in
    let rec =
      sleep_loop-ticks start ticks left (tick t) rest h (omega arith) l (omega arith)
        (omega arith) in
    ground (arith, e, rec, after-tick left t)

-- timer_sleep waits for exactly as many ticks as it computed, also where the counter wraps.
timer_sleep-ticks :
    (ms : ℕ) (t : Timer) (rest : List Bool)
    → t.tick_count < 2 ^ 32
    → timer_sleep ms t (only_ticks (sleep_ticks t ms) ++ rest)
      ≡ some (after (sleep_ticks t ms) t, rest)
unfolding timer_sleep sleep_ticks
timer_sleep-ticks ms t rest h =
    sleep_loop-ticks t.tick_count (sleep_ticks t ms) (sleep_ticks t ms) t rest h h short
      (omega arith) (omega arith)
  where
    short : sleep_ticks t ms < 2 ^ 32
    short = ground arith
