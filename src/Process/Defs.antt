-- ===== src/Process/Defs.antt =====
-- kernel/process.c and process.h: the process table and its operations.
use os_u.Prelude.{
  ℕ, ◌+◌, ◌-◌, ◌%◌, ◌^◌, Bool, true, false, ◌&&◌, not, Option, none, some, List, Bytes, update,
  memcpy, find_from, ltb, ◌==◌, if◌then◌else◌,
}
use os_u.Cstring.{strlen, of_list}

-- `process_state_t`
pub data State : Type 0 where
  unused ready running blocked zombie : State

-- The value of the C enumeration, by which states are compared.
abbrev pub code : State → ℕ
code unused = 0
code ready = 1
code running = 2
code blocked = 3
code zombie = 4

abbrev pub is : State → State → Bool
is s t = code s == code t

-- `process_t`, but for `context`, which no code reads or writes after it is cleared. The stack is
-- an array of 1024 words, and `stack_ptr` an index in it; `exit_code` is the 32 bits of an int.
pub record Process : Type 0 where
  pub pid : ℕ
  pub state : State
  pub stack : Bytes
  pub stack_ptr : ℕ
  pub name : Bytes
  pub priority : ℕ
  pub time_slice : ℕ
  pub total_ticks : ℕ
  pub exit_code : ℕ

-- The static variables: the slots 0 to 15 of `process_table`, the index of `current_process`.
pub record Table : Type 0 where
  pub slot : ℕ → Process
  pub current : Option ℕ
  pub next_pid : ℕ
  pub enabled : Bool

abbrev pub max_processes : ℕ
max_processes = 16

-- A slot after `memset(p, 0, sizeof(process_t))`.
abbrev pub cleared : Process
cleared = record {
  pid = 0;
  state = unused;
  stack = λ i. 0;
  stack_ptr = 0;
  name = λ i. 0;
  priority = 0;
  time_slice = 0;
  total_ticks = 0;
  exit_code = 0;
}

-- `process_table[i] = p`
abbrev pub put : Table → ℕ → Process → Table
put t i p = record t { slot = λ j. if j == i then p else t.slot j }

-- `process_init`
unfoldable pub process_init : Table
process_init = record { slot = λ i. cleared; current = none; next_pid = 1; enabled = false }

-- `scheduler_init`
unfoldable pub scheduler_init : Table → Table
scheduler_init t = record t { enabled = true }

unfoldable pub find_free_slot : Table → Option ℕ
find_free_slot t = find_from (λ i. is (t.slot i).state unused) max_processes 0

unfoldable pub find_process : Table → ℕ → Option ℕ
find_process t pid =
    find_from (λ i. ((t.slot i).pid == pid) && not (is (t.slot i).state unused)) max_processes 0

-- The stack that process_create builds, from the top word 1023 down to 1012, for the addresses of
-- the entry function and of process_wrapper.
unfoldable pub initial_stack : ℕ → ℕ → Bytes
initial_stack entry wrapper =
    let s = update (λ i. 0) 1023 entry in
    let s = update s 1022 0 in
    let s = update s 1021 wrapper in
    let s = update s 1020 0x202 in
    let s = update s 1019 0 in
    let s = update s 1018 0 in
    let s = update s 1017 0 in
    let s = update s 1016 0 in
    let s = update s 1015 0 in let s = update s 1014 0 in let s = update s 1013 0 in update s 1012 0

-- The name is cut to 31 characters and ends in NUL.
unfoldable pub copy_name : List ℕ → Bytes
copy_name name =
    let len = if ltb 31 (strlen name) then 31 else strlen name in
    update (memcpy (λ i. 0) 0 (of_list name) 0 len) len 0

-- What process_create makes of the slot.
unfoldable pub fresh : ℕ → List ℕ → ℕ → ℕ → Process
fresh pid name entry wrapper = record cleared {
  pid = pid;
  state = ready;
  priority = 1;
  time_slice = 10;
  name = copy_name name;
  stack = initial_stack entry wrapper;
  stack_ptr = 1012;
}

-- `process_create`: `none` is the result -1. `next_pid++` wraps at 32 bits.
unfoldable pub process_create : Table → List ℕ → ℕ → ℕ → Option ℕ × Table
process_create t name entry wrapper = elim (find_free_slot t) [
  | none ↦ (none, t)
  | some i ↦ (
    some t.next_pid,
    record (put t i (fresh t.next_pid name entry wrapper)) { next_pid = (t.next_pid + 1) % 2 ^ 32 },
  )
]

-- What schedule does to the machine at its end: nothing, or a call of context_switch that saves into
-- `old` (if there is one) and loads `next`.
pub data Switch : Type 0 where
  stay : Switch
  switch_to : Option ℕ → ℕ → Switch

-- `cleanup_zombies`
unfoldable pub cleanup_zombies : Table → Table
cleanup_zombies t = record t {
  slot = λ i.
      if ltb i max_processes && is (t.slot i).state zombie
      then record (t.slot i) { state = unused; pid = 0 }
      else t.slot i;
}

-- The index behind the current process, at which the search starts.
abbrev pub start_of : Option ℕ → ℕ
start_of none = 0
start_of (some i) = i + 1

-- The search for the next ready process, round the table from `start` on.
unfoldable pub find_next : Table → Option ℕ
find_next t =
    let start = start_of t.current in
    elim (find_from (λ i. is (t.slot ((start + i) % max_processes)).state ready) max_processes 0) [
      | none ↦ none
      | some i ↦ some ((start + i) % max_processes)
    ]

-- A running process that is switched away from is ready again.
unfoldable pub release : Table → Option ℕ → Table
release t none = t
release t (some i) =
    if is (t.slot i).state running then put t i (record (t.slot i) { state = ready }) else t

abbrev pub switch_of : Option ℕ → ℕ → Switch
switch_of none next = switch_to none next
switch_of (some old) next = if old == next then stay else switch_to (some old) next

-- The end of schedule, once the next process is found.
unfoldable pub dispatch : Table → ℕ → Table × Switch
dispatch t next =
    let t' = release t t.current in
    (
      record (put t' next (record (t'.slot next) { state = running })) { current = some next },
      switch_of t.current next,
    )

-- `schedule`
unfoldable pub schedule : Table → Table × Switch
schedule t =
    if t.enabled
    then (let t' = cleanup_zombies t in
        elim (find_next t') [ none ↦ (t', stay) | some next ↦ dispatch t' next ])
    else (t, stay)

-- `process_exit`, up to the loop that halts for good if schedule comes back.
unfoldable pub process_exit : Table → ℕ → Table × Switch
process_exit t exit_code = elim t.current [
  | none ↦ (t, stay)
  | some i ↦ schedule (put t i (record (t.slot i) { state = zombie; exit_code = exit_code }))
]

-- Whether the process in a slot is `current_process`.
abbrev pub is_current : Table → ℕ → Bool
is_current t i = elim t.current [ none ↦ false | some j ↦ i == j ]

-- `process_kill`: `false` is the result -1. The exit code is -1.
unfoldable pub process_kill : Table → ℕ → Bool × Table × Switch
process_kill t pid = elim (find_process t pid) [
  | none ↦ (false, t, stay)
  | some i ↦
      let t' = put t i (record (t.slot i) { state = zombie; exit_code = 2 ^ 32 - 1 }) in
      let (t'', switch) = schedule t' in
      if is_current t i then (true, t'', switch) else (true, t', stay)
]

-- The accounting of scheduler_tick for the current process.
unfoldable pub charge : Process → Process
charge p = record p {
  total_ticks = (p.total_ticks + 1) % 2 ^ 32;
  time_slice = if ltb 0 p.time_slice then p.time_slice - 1 else p.time_slice;
}

-- `scheduler_tick`
unfoldable pub scheduler_tick : Table → Table × Switch
scheduler_tick t =
    if t.enabled
    then elim t.current [
      | none ↦ (t, stay)
      | some i ↦
          let p = charge (t.slot i) in
          if p.time_slice == 0
          then schedule (put t i (record p { time_slice = 10 }))
          else (put t i p, stay)
    ]
    else (t, stay)
