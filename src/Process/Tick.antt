-- ===== src/Process/Tick.antt =====
-- kernel/process.c: process_exit and scheduler_tick.
use os_u.Prelude.{ℕ, ◌+◌, ◌-◌, ◌%◌, ◌^◌, ◌≤◌, ◌<◌, ◌≡◌, ◌≢◌, ◌⊎◌, inl, inr, refl, true, some, arith}
use native.Mathlib.Decide.{dec_lt}
use os_u.Process.Defs.{
  unused, Process, Table, put, stay, schedule, process_exit, charge, scheduler_tick,
}
use os_u.Process.Invariant.{IsValid, put-IsValid, schedule-IsValid}
use os_u.Process.Kill.{zombie_of}

process_exit-eq :
    (t : Table) (exit_code i : ℕ)
    → t.current ≡ some i
    → process_exit t exit_code ≡ schedule (put t i (zombie_of (t.slot i) exit_code))
unfolding process_exit
process_exit-eq t exit_code i c = ground arith

abbrev ticked : Process → ℕ → Process
ticked p slice = record p { total_ticks = (p.total_ticks + 1) % 2 ^ 32; time_slice = slice }

scheduler_tick-within :
    (t : Table) (i : ℕ)
    → t.enabled ≡ true
    → t.current ≡ some i
    → 1 < (t.slot i).time_slice
    → scheduler_tick t ≡ (put t i (ticked (t.slot i) ((t.slot i).time_slice - 1)), stay)
unfolding scheduler_tick charge
scheduler_tick-within t i on c h = ground arith

scheduler_tick-over :
    (t : Table) (i : ℕ)
    → t.enabled ≡ true
    → t.current ≡ some i
    → (t.slot i).time_slice ≤ 1
    → scheduler_tick t ≡ schedule (put t i (ticked (t.slot i) 10))
unfolding scheduler_tick charge
scheduler_tick-over t i on c h = ground arith

-- If the current process is in use and the table is valid, process_exit makes that process a zombie
-- with the exit code and calls schedule, and the table stays valid.
pub process_exit_lem :
    (t : Table) (exit_code i : ℕ)
    → IsValid t
    → t.current ≡ some i
    → (t.slot i).state ≢ unused
    → (process_exit t exit_code ≡ schedule (put t i (zombie_of (t.slot i) exit_code)))
      × IsValid (process_exit t exit_code).0
process_exit_lem t exit_code i v c used =
    let e = process_exit-eq t exit_code i c in
    (
      e,
      rw e (
          schedule-IsValid (put t i (zombie_of (t.slot i) exit_code))
            (put-IsValid t i (zombie_of (t.slot i) exit_code) v used refl (λ r. cc))),
    )

-- With the scheduler on, a valid table and a current process that is in use, a tick is counted and
-- takes one from the time slice; when the slice is used up it is set to 10 again and schedule is
-- called, and only then. The table stays valid.
pub scheduler_tick_lem :
    (t : Table) (i : ℕ)
    → IsValid t
    → t.enabled ≡ true
    → t.current ≡ some i
    → (t.slot i).state ≢ unused
    → let p = t.slot i in
      let ticks = (p.total_ticks + 1) % 2 ^ 32 in
      IsValid (scheduler_tick t).0
      × (((p.time_slice ≤ 1)
            × (scheduler_tick t
                ≡ schedule (put t i (record p { total_ticks = ticks; time_slice = 10 }))))
          ⊎ ((1 < p.time_slice)
              × (scheduler_tick t ≡ (
                put t i (record p { total_ticks = ticks; time_slice = p.time_slice - 1 }),
                stay,
              ))))
scheduler_tick_lem t i v on c used = elim (dec_lt 1 (t.slot i).time_slice) [
  | yes h ↦
      let e = scheduler_tick-within t i on c h in
      (rw e (put-IsValid t i _ v used refl (λ r. r)), inr (h, e))
  | no h ↦
      let e = scheduler_tick-over t i on c (omega arith) in
      (rw e (schedule-IsValid _ (put-IsValid t i _ v used refl (λ r. r))), inl (omega arith, e))
]
