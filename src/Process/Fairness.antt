-- ===== src/Process/Fairness.antt =====
-- kernel/process.c: schedule goes round the ready processes, and each gets its turn.
use os_u.Prelude.{
  ℕ, zero, suc, ◌+◌, ◌-◌, ◌%◌, ◌≤◌, ◌<◌, ◌≡◌, ◌≢◌, ◌⊎◌, inl, inr, true, some, arith, ◌==◌,
  if◌then◌else◌, Option-cases,
}
use native.Mathlib.Decide.{dec_lt, ℕ_discrete}
use os_u.Process.Defs.{
  State, unused, ready, running, zombie, Table, start_of, switch_of, cleanup_zombies, release,
  dispatch, schedule,
}
use os_u.Process.Scheduling.{Outcome, schedule-Outcome, nth}
use os_u.Process.Invariant.{RunOk, schedule-RunOk}

-- The state of a process that schedule does not pick, when it picks another.
abbrev pub settled : State → State
settled running = ready
settled zombie = unused
settled s = s

-- The place of a slot in the order of the search.
abbrev place : Table → ℕ → ℕ
place t k = (k + 32 - start_of t.current) % 16

start-le : (t : Table) → RunOk t → start_of t.current ≤ 16
start-le t v = elim (Option-cases t.current) [
  | inl e ↦ ground arith
  | inr (i, e) ↦ ground (arith, v.current_in i)
]

nth-place : (t : Table) (k : ℕ) → RunOk t → k < 16 → (nth t (place t k) ≡ k) × (place t k < 16)
nth-place t k v h = omega (arith, start-le t v)

dispatch-state :
    (t : Table) (n k : ℕ)
    → RunOk t
    → n < 16
    → k < 16
    → ((dispatch (cleanup_zombies t) n).0.slot k).state
      ≡ (if k == n then running else settled (t.slot k).state)
unfolding dispatch release cleanup_zombies
dispatch-state t n k v hn hk = ground (arith, v.running_is_current k)

dispatch-rest :
    (t : Table) (n : ℕ)
    → ((dispatch (cleanup_zombies t) n).0.current ≡ some n)
      × ((dispatch (cleanup_zombies t) n).1 ≡ switch_of t.current n)
      × ((dispatch (cleanup_zombies t) n).0.enabled ≡ t.enabled)
unfolding dispatch release cleanup_zombies
dispatch-rest t n = ground arith

-- `n` calls of schedule, with nothing between them.
pub schedules : ℕ → Table → Table
schedules zero t = t
schedules (suc n) t = schedules n (schedule t).0

-- The first ready process does not come behind a given ready one.
not_before :
    (t : Table) (i k : ℕ)
    → RunOk t
    → k < 16
    → (t.slot k).state ≡ ready
    → ((j : ℕ) → j < i → (t.slot (nth t j)).state ≢ ready)
    → i ≤ place t k
not_before t i k v h r first = elim (dec_lt (place t k) i) [
  | yes l ↦ absurd (first (place t k) l (rw ((nth-place t k v h).0) r))
  | no l ↦ omega arith
]

place-decreases :
    (start i k : ℕ)
    → start ≤ 16
    → i < 16
    → k < 16
    → i ≤ (k + 32 - start) % 16
    → k ≢ (start + i) % 16
    → (k + 32 - ((start + i) % 16 + 1)) % 16 < (k + 32 - start) % 16
place-decreases start i k hs hi hk le ne = omega arith

-- A ready process runs next, or comes nearer to its turn.
comes_nearer :
    (t : Table) (k : ℕ)
    → t.enabled ≡ true
    → RunOk t
    → k < 16
    → (t.slot k).state ≡ ready
    → ((schedule t).0.current ≡ some k)
      ⊎ (((schedule t).0.enabled ≡ true)
          × (((schedule t).0.slot k).state ≡ ready)
          × (place (schedule t).0 k < place t k))
comes_nearer t k on v h r = elim (schedule-Outcome t) [
  | Outcome.off o e ↦ absurd (ground arith)
  | Outcome.idle o all e ↦ let p = nth-place t k v h in absurd (all (place t k) p.1 (rw p.0 r))
  | Outcome.runs i o hi ri r' first e ↦
      let rest = dispatch-rest t (nth t i) in
      let p = nth-place t k v h in
      elim (ℕ_discrete k (nth t i)) [
        | yes same ↦ rw e (inl (ground (arith, rest.0)))
        | no other ↦ rw e (
            inr (
              ground (arith, rest.2),
              ground (arith, dispatch-state t (nth t i) k v (omega arith) h),
              rw (rest.0) (
                  place-decreases (start_of t.current) i k (start-le t v) hi h
                    (not_before t i k v h r first) other),
            ))
      ]
]

schedules-reach :
    (n : ℕ) (t : Table) (k : ℕ)
    → t.enabled ≡ true
    → RunOk t
    → k < 16
    → (t.slot k).state ≡ ready
    → place t k < n
    → (m : ℕ) × (0 < m) × (m ≤ n) × ((schedules m t).current ≡ some k)
unfolding schedules
schedules-reach zero t k on v h r p = absurd (omega arith)
schedules-reach (suc n) t k on v h r p = elim (comes_nearer t k on v h r) [
  | inl e ↦ (1, omega arith, omega arith, e)
  | inr (on', r', nearer) ↦
      let (m, pos, le, e) =
        schedules-reach n (schedule t).0 k on' (schedule-RunOk t v) h r' (omega arith) in
      (suc m, omega arith, omega arith, e)
]

-- With the scheduler on, the current process in the table and no other one running, a ready process
-- is the current one after at most 16 calls of schedule.
pub ready_gets_turn :
    (t : Table) (k : ℕ)
    → t.enabled ≡ true
    → RunOk t
    → k < 16
    → (t.slot k).state ≡ ready
    → (m : ℕ) × (0 < m) × (m ≤ 16) × ((schedules m t).current ≡ some k)
ready_gets_turn t k on v h r = schedules-reach 16 t k on v h r (nth-place t k v h).1
