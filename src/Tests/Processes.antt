-- ===== src/Tests/Processes.antt =====
-- Inputs of kernel/process.c and kernel/context.asm.
use os_u.Prelude.{
  ℕ, ◌+◌, ◌-◌, ◌^◌, ◌≤◌, ◌<◌, ◌≡◌, ◌≢◌, ◌⊎◌, refl, true, false, none, some, List, [], ◌∷◌, arith,
  if◌then◌else◌, find_from, ltb, get_or, ◌&&◌,
}
use os_u.Cstring.{strlen}
use os_u.Process.Defs.{
  unused, ready, Table, put, process_init, scheduler_init, find_free_slot, fresh, process_create,
  stay, cleanup_zombies, find_next, release, dispatch, schedule, process_kill,
}
use os_u.Process.Invariant.{IsValid, schedule-IsValid}
use os_u.Process.Create.{process_init-IsValid, process_create_lem}
use os_u.Process.Kill.{zombie_of, process_kill_lem}
use os_u.Process.Fairness.{schedules, ready_gets_turn}
use os_u.Process.Frame.{Registers, load, load-fresh}

abbrev name : List ℕ
name = b's' ∷ b'h' ∷ []

abbrev booted : Table
booted = scheduler_init process_init

-- After one process_create.
abbrev one_ready : Table
one_ready = (process_create booted name 0x1000 0x2000).1

-- That process runs.
abbrev one_running : Table
one_running = (schedule one_ready).0

booted-IsValid : IsValid booted
booted-IsValid = process_init-IsValid.1

booted_room : booted.next_pid + 1 < 2 ^ 32
unfolding process_init scheduler_init
booted_room = omega arith

one_ready-IsValid : IsValid one_ready
one_ready-IsValid = (process_create_lem booted name 0x1000 0x2000 booted-IsValid booted_room).0

one_running-IsValid : IsValid one_running
one_running-IsValid = schedule-IsValid one_ready one_ready-IsValid

one_ready_on : one_ready.enabled ≡ true
unfolding process_init scheduler_init process_create find_free_slot find_from
one_ready_on = refl

one_ready_state : (one_ready.slot 0).state ≡ ready
unfolding process_init scheduler_init process_create find_free_slot find_from fresh
one_ready_state = refl

one_running_on : one_running.enabled ≡ true
unfolding process_init scheduler_init process_create find_free_slot find_from fresh schedule
    find_next dispatch release cleanup_zombies
one_running_on = refl

one_running_current : one_running.current ≡ some 0
unfolding process_init scheduler_init process_create find_free_slot find_from fresh schedule
    find_next dispatch release cleanup_zombies
one_running_current = refl

one_running_used : (one_running.slot 0).state ≢ unused
unfolding process_init scheduler_init process_create find_free_slot find_from fresh schedule
    find_next dispatch release cleanup_zombies
one_running_used = λ h. cc

abbrev registers : Registers
registers = record {
  edi = 1;
  esi = 2;
  ebp = 3;
  ebx = 4;
  edx = 5;
  ecx = 6;
  eax = 7;
  eflags = 0x202;
  eip = 0x1234;
  esp = 1000;
}

process_create_lem_example :
    let (r, u) = process_create booted name 0x1000 0x2000 in
    IsValid u
    × (((r ≡ none) × (u ≡ booted) × ((i : ℕ) → i < 16 → (booted.slot i).state ≢ unused))
        ⊎ ((i : ℕ) × (r ≡ some booted.next_pid)
            × (i < 16)
            × ((booted.slot i).state ≡ unused)
            × ((j : ℕ) → j < i → (booted.slot j).state ≢ unused)
            × ((u.slot i).pid ≡ booted.next_pid)
            × ((u.slot i).state ≡ ready)
            × ((u.slot i).time_slice ≡ 10)
            × ((k : ℕ)
                → (u.slot i).name k
                  ≡ (if ltb k 31 && ltb k (strlen name) then get_or name k 0 else 0))
            × ((u.slot i).stack_ptr ≡ 1012)
            × ((u.slot i).stack 1021 ≡ 0x2000)
            × ((u.slot i).stack 1023 ≡ 0x1000)
            × ((j : ℕ) → j ≢ i → u.slot j ≡ booted.slot j)
            × ((j : ℕ)
                → j < 16
                → (booted.slot j).state ≢ unused
                → (booted.slot j).pid ≢ booted.next_pid)
            × (u.next_pid ≡ booted.next_pid + 1)))
process_create_lem_example = process_create_lem booted name 0x1000 0x2000 booted-IsValid booted_room

process_kill_lem_example :
    let (killed, u, switch) = process_kill one_ready 1 in
    IsValid u
    × (((killed ≡ false)
          × (u ≡ one_ready)
          × (switch ≡ stay)
          × ((i : ℕ) → i < 16 → (one_ready.slot i).state ≢ unused → (one_ready.slot i).pid ≢ 1))
        ⊎ ((i : ℕ) × (killed ≡ true)
            × (i < 16)
            × ((one_ready.slot i).state ≢ unused)
            × ((one_ready.slot i).pid ≡ 1)
            × ((j : ℕ)
                → j < 16
                → (one_ready.slot j).state ≢ unused
                → (one_ready.slot j).pid ≡ 1
                → j ≡ i)
            × ((one_ready.current ≢ some i)
                  × (u ≡ put one_ready i (zombie_of (one_ready.slot i) (2 ^ 32 - 1)))
                  × (switch ≡ stay)
                ⊎ ((one_ready.current ≡ some i)
                    × ((u, switch)
                        ≡ schedule
                            (put one_ready i (zombie_of (one_ready.slot i) (2 ^ 32 - 1))))))))
process_kill_lem_example = process_kill_lem one_ready 1 one_ready-IsValid

schedule-IsValid_example : IsValid (schedule one_ready).0
schedule-IsValid_example = schedule-IsValid one_ready one_ready-IsValid

ready_gets_turn_example : (m : ℕ) × (0 < m) × (m ≤ 16) × ((schedules m one_ready).current ≡ some 0)
ready_gets_turn_example =
    ready_gets_turn one_ready 0 one_ready_on one_ready-IsValid.runs (omega arith) one_ready_state

load-fresh_example :
    let p = fresh 1 name 0x1000 0x2000 in
    let r = load p.stack p.stack_ptr in
    (r.eip ≡ 0x202) × (r.eflags ≡ 0) × (r.esp ≡ 1021) × (p.stack r.esp ≡ 0x2000)
load-fresh_example = load-fresh 1 name 0x1000 0x2000
