-- ===== src/Process/Scheduling.antt =====
-- kernel/process.c: the search of schedule, and which process runs next.
use os_u.Prelude.{
  ℕ, ◌+◌, ◌%◌, ◌<◌, ◌≡◌, ◌≢◌, ◌⊎◌, ◌↔◌, inl, inr, refl, true, false, none, some, arith,
  find_from_lem, Bool-cases,
}
use os_u.Process.Defs.{
  State, ready, is, Table, stay, cleanup_zombies, find_next, start_of, dispatch, schedule,
}

pub is_iff : (s t : State) → (is s t ≡ true) ↔ (s ≡ t)
is_iff s t = ground arith

-- The slots in the order of the search, from the one behind the current process on.
abbrev pub nth : Table → ℕ → ℕ
nth t i = (start_of t.current + i) % 16

-- The search finds the first ready slot in its order, or no slot in the order is ready.
pub find_next_lem :
    (t : Table)
    → ((find_next t ≡ none) × ((i : ℕ) → i < 16 → (t.slot (nth t i)).state ≢ ready))
      ⊎ ((i : ℕ) × (find_next t ≡ some (nth t i))
          × (i < 16)
          × ((t.slot (nth t i)).state ≡ ready)
          × ((j : ℕ) → j < i → (t.slot (nth t j)).state ≢ ready))
unfolding find_next
find_next_lem t = elim (find_from_lem (λ i. is (t.slot (nth t i)).state ready) 16 0) [
  | inl (e, all) ↦
      inl (ground arith, λ i h. ground (arith, all i, is_iff (t.slot (nth t i)).state ready))
  | inr (i, e, first) ↦ inr (
    i,
    ground arith,
    first.before,
    ground (arith, first.passes, is_iff (t.slot (nth t i)).state ready),
    λ j h. ground (arith, first.fail_below j, is_iff (t.slot (nth t j)).state ready),
  )
]

-- The three ways in which schedule ends.
pub data Outcome (t : Table) : Type 0 where
  off : t.enabled ≡ false → schedule t ≡ (t, stay) → Outcome t
  idle :
      t.enabled ≡ true
      → ((i : ℕ) → i < 16 → (t.slot (nth t i)).state ≢ ready)
      → schedule t ≡ (cleanup_zombies t, stay)
      → Outcome t
  runs :
      (i : ℕ)
      → t.enabled ≡ true
      → i < 16
      → ((cleanup_zombies t).slot (nth t i)).state ≡ ready
      → (t.slot (nth t i)).state ≡ ready
      → ((j : ℕ) → j < i → (t.slot (nth t j)).state ≢ ready)
      → schedule t ≡ dispatch (cleanup_zombies t) (nth t i)
      → Outcome t

-- A cleanup changes zombies alone.
pub cleanup-ready :
    (t : Table) (k : ℕ) → (((cleanup_zombies t).slot k).state ≡ ready) ↔ ((t.slot k).state ≡ ready)
unfolding cleanup_zombies
cleanup-ready t k = ground arith

pub cleanup-current : (t : Table) → (cleanup_zombies t).current ≡ t.current
unfolding cleanup_zombies
cleanup-current t = refl

pub schedule-Outcome : (t : Table) → Outcome t
unfolding schedule
schedule-Outcome t = elim (Bool-cases t.enabled) [
  | inr no_scheduler ↦ Outcome.off no_scheduler (ground arith)
  | inl on ↦ elim (find_next_lem (cleanup_zombies t)) [
    | inl (e, all) ↦
        Outcome.idle on (λ i h r. all i h (at_nth i ((cleanup-ready t (nth t i)).1 r)))
          (ground arith)
    | inr (i, e, h, r, first) ↦
        Outcome.runs i on h (from_nth i r) ((cleanup-ready t (nth t i)).0 (from_nth i r))
          (λ j l r'. first j l (at_nth j ((cleanup-ready t (nth t j)).1 r')))
          (ground (arith, same_nth i))
  ]
]
  where
    same_nth : (i : ℕ) → nth (cleanup_zombies t) i ≡ nth t i
    same_nth i = rw cleanup-current

    at_nth :
        (i : ℕ)
        → ((cleanup_zombies t).slot (nth t i)).state ≡ ready
        → ((cleanup_zombies t).slot (nth (cleanup_zombies t) i)).state ≡ ready
    at_nth i r = rw (same_nth i) r

    from_nth :
        (i : ℕ)
        → ((cleanup_zombies t).slot (nth (cleanup_zombies t) i)).state ≡ ready
        → ((cleanup_zombies t).slot (nth t i)).state ≡ ready
    from_nth i r = rw (same_nth i) at r
