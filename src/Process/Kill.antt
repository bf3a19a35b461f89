-- ===== src/Process/Kill.antt =====
-- kernel/process.c: find_process and process_kill.
use os_u.Prelude.{
  ℕ, ◌-◌, ◌^◌, ◌<◌, ◌≡◌, ◌≢◌, ◌⊎◌, inl, inr, refl, true, false, ◌&&◌, not, none, some, arith,
  find_from_lem, ◌==◌, Bool-cases, Option-cases,
}
use os_u.Process.Defs.{
  unused, zombie, is, Process, Table, put, find_process, stay, schedule, process_kill,
}
use os_u.Process.Scheduling.{is_iff}
use os_u.Process.Invariant.{IsValid, put-IsValid, schedule-IsValid}

-- The search by identifier, on a table whose identifiers are distinct.
pub data Found (t : Table) (pid : ℕ) : Type 0 where
  missing :
      find_process t pid ≡ none
      → ((i : ℕ) → i < 16 → (t.slot i).state ≢ unused → (t.slot i).pid ≢ pid)
      → Found t pid
  found :
      (i : ℕ)
      → find_process t pid ≡ some i
      → i < 16
      → (t.slot i).state ≢ unused
      → (t.slot i).pid ≡ pid
      → Found t pid

pub find_process_lem : (t : Table) (pid : ℕ) → Found t pid
unfolding find_process
find_process_lem t pid =
    elim (find_from_lem (λ i. ((t.slot i).pid == pid) && not (is (t.slot i).state unused)) 16 0) [
      | inl (e, all) ↦
          Found.missing e (λ i h s p. ground (arith, all i, is_iff (t.slot i).state unused))
      | inr (i, e, first) ↦
          Found.found i e first.before
            (λ s. ground (arith, first.passes, is_iff (t.slot i).state unused))
            (ground (arith, first.passes))
    ]

abbrev pub zombie_of : Process → ℕ → Process
zombie_of p exit_code = record p { state = zombie; exit_code = exit_code }

abbrev killed : Table → ℕ → Table
killed t i = put t i (zombie_of (t.slot i) (2 ^ 32 - 1))

process_kill-missing :
    (t : Table) (pid : ℕ) → find_process t pid ≡ none → process_kill t pid ≡ (false, t, stay)
unfolding process_kill
process_kill-missing t pid e = ground arith

process_kill-other :
    (t : Table) (pid i : ℕ)
    → find_process t pid ≡ some i
    → t.current ≢ some i
    → process_kill t pid ≡ (true, killed t i, stay)
unfolding process_kill
process_kill-other t pid i e c = ground arith

process_kill-current :
    (t : Table) (pid i : ℕ)
    → find_process t pid ≡ some i
    → t.current ≡ some i
    → process_kill t pid ≡ (true, (schedule (killed t i)).0, (schedule (killed t i)).1)
unfolding process_kill
process_kill-current t pid i e c = ground arith

current-cases : (t : Table) (i : ℕ) → (t.current ≡ some i) ⊎ (t.current ≢ some i)
current-cases t i = elim (Option-cases t.current) [
  | inl e ↦ inr (λ h. cc)
  | inr (j, e) ↦ elim (Bool-cases (i == j)) [
    | inl same ↦ inl (ground arith)
    | inr other ↦ inr (λ h. ground arith)
  ]
]

killed-IsValid : (t : Table) (i : ℕ) → IsValid t → (t.slot i).state ≢ unused → IsValid (killed t i)
killed-IsValid t i v used =
    put-IsValid t i (zombie_of (t.slot i) (2 ^ 32 - 1)) v used refl (λ r. cc)

-- On a valid table, process_kill fails exactly when no process has the identifier, and then changes
-- nothing. Otherwise it makes that process, and no other, a zombie with exit code -1, and it calls
-- schedule exactly if the process was the current one. The table stays valid.
pub process_kill_lem :
    (t : Table) (pid : ℕ)
    → IsValid t
    → let (killed, u, switch) = process_kill t pid in
      IsValid u
      × (((killed ≡ false)
            × (u ≡ t)
            × (switch ≡ stay)
            × ((i : ℕ) → i < 16 → (t.slot i).state ≢ unused → (t.slot i).pid ≢ pid))
          ⊎ ((i : ℕ) × (killed ≡ true)
              × (i < 16)
              × ((t.slot i).state ≢ unused)
              × ((t.slot i).pid ≡ pid)
              × ((j : ℕ) → j < 16 → (t.slot j).state ≢ unused → (t.slot j).pid ≡ pid → j ≡ i)
              × ((t.current ≢ some i)
                    × (u ≡ put t i (zombie_of (t.slot i) (2 ^ 32 - 1)))
                    × (switch ≡ stay)
                  ⊎ ((t.current ≡ some i)
                      × ((u, switch) ≡ schedule (put t i (zombie_of (t.slot i) (2 ^ 32 - 1))))))))
process_kill_lem t pid v = elim (find_process_lem t pid) [
  | Found.missing e all ↦ rw (process_kill-missing t pid e) (v, inl (refl, refl, refl, all))
  | Found.found i e h used p ↦
      let z : IsValid (killed t i) = killed-IsValid t i v used in
      let only : (j : ℕ) → j < 16 → (t.slot j).state ≢ unused → (t.slot j).pid ≡ pid → j ≡ i =
        λ j k n q. v.pids.distinct j i k h n used (omega arith) in
      elim (current-cases t i) [
        | inl c ↦
            rw (process_kill-current t pid i e c)
              (schedule-IsValid (killed t i) z, inr (i, refl, h, used, p, only, inr (c, refl)))
        | inr c ↦
            rw (process_kill-other t pid i e c)
              (z, inr (i, refl, h, used, p, only, inl (c, refl, refl)))
      ]
]
