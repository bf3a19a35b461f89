-- ===== src/Timer.antt =====
-- kernel/timer.c: the tick counter of the interval timer, and waiting for it.
pub mod Laws
use os_u.Prelude.{
  ℕ, zero, suc, ◌+◌, ◌-◌, ◌*◌, ◌/◌, ◌%◌, ◌^◌, Bool, true, false, Option, none, some, List, [], ◌∷◌,
  leb, ltb, ◌==◌, if◌then◌else◌,
}
use os_u.Process.Defs.{Table, Switch, stay, scheduler_tick}

-- `tick_count` and `tick_frequency`
pub record Timer : Type 0 where
  pub tick_count : ℕ
  pub tick_frequency : ℕ

-- The counter is increased; it wraps at 32 bits.
abbrev pub tick : Timer → Timer
tick t = record t { tick_count = (t.tick_count + 1) % 2 ^ 32 }

-- `timer_irq_handler`
unfoldable timer_irq_handler : Timer → Table → Timer × Table × Switch
unfolding scheduler_tick
timer_irq_handler t p = let (p', switch) = scheduler_tick p in (tick t, p', switch)

-- The divisor of timer_init, cut to 1 and 65535.
unfoldable pub divisor : ℕ → ℕ
divisor frequency =
    let d = 1193182 / frequency in if ltb 65535 d then 65535 else if ltb d 1 then 1 else d

-- `timer_init`: the timer, and the port and the byte of each outb. `none` for a frequency of 0, where the
-- division traps.
unfoldable pub timer_init : Timer → ℕ → Option (Timer × List (ℕ × ℕ))
unfolding divisor
timer_init t frequency =
    let d = divisor frequency in
    if frequency == 0
    then none
    else some (
      record t { tick_frequency = frequency },
      (0x43, 0x36) ∷ (0x40, d % 256) ∷ (0x40, d / 256 % 256) ∷ [],
    )

-- The ticks that timer_sleep waits for; the product wraps at 32 bits.
unfoldable pub sleep_ticks : Timer → ℕ → ℕ
sleep_ticks t ms =
    let ticks = ms * t.tick_frequency % 2 ^ 32 / 1000 in if ticks == 0 then 1 else ticks

-- `tick_count - start` on 32 bits
abbrev pub elapsed : Timer → ℕ → ℕ
elapsed t start = (t.tick_count + (2 ^ 32 - start)) % 2 ^ 32

-- The loop of timer_sleep over the interrupts to come, of which those that are `true` are ticks: the
-- timer and the interrupts left, or `none` while it waits.
unfoldable pub sleep_loop : ℕ → ℕ → Timer → List Bool → Option (Timer × List Bool)
sleep_loop start ticks t [] = if ltb (elapsed t start) ticks then none else some (t, [])
sleep_loop start ticks t (b ∷ wakes) =
    let rest = sleep_loop start ticks (if b then tick t else t) wakes in
    if ltb (elapsed t start) ticks then rest else some (t, b ∷ wakes)

-- `timer_sleep`
unfoldable pub timer_sleep : ℕ → Timer → List Bool → Option (Timer × List Bool)
unfolding sleep_ticks sleep_loop
timer_sleep ms t wakes = sleep_loop t.tick_count (sleep_ticks t ms) t wakes
