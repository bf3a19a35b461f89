-- ===== src/Process/Create.antt =====
-- kernel/process.c: process_init and process_create.
use os_u.Prelude.{
  ℕ, ◌+◌, ◌%◌, ◌^◌, ◌<◌, ◌≡◌, ◌≢◌, ◌⊎◌, inl, inr, refl, Bool, true, false, none, some, List, arith,
  find_from_lem, ltb, get_or, memcpy, memcpy-at, in_range, ◌-◌, ◌==◌, ◌∙◌, ap, ◌&&◌, if◌then◌else◌,
}
use os_u.Cstring.{strlen, of_list}
use os_u.Process.Defs.{
  unused, ready, is, Process, Table, put, process_init, scheduler_init, find_free_slot, fresh,
  process_create, copy_name, initial_stack,
}
use os_u.Process.Scheduling.{is_iff}
use os_u.Process.Invariant.{IsValid}

-- The table after process_init and scheduler_init holds the invariant.
pub process_init-IsValid : IsValid process_init × IsValid (scheduler_init process_init)
unfolding process_init scheduler_init
process_init-IsValid = (empty false, empty true)
  where
    empty : (b : Bool) → IsValid (record process_init { enabled = b })
    empty b = record {
      pids = record {
        below = λ i h n. absurd (n refl);
        distinct = λ i j h h' n n' e. absurd (n refl);
      };
      runs = record { current_in = λ i e. cc; running_is_current = λ i h e. cc };
    }

create-IsValid :
    (t : Table) (i : ℕ) (p : Process)
    → t.next_pid + 1 < 2 ^ 32
    → IsValid t
    → p.pid ≡ t.next_pid
    → p.state ≡ ready
    → IsValid (record (put t i p) { next_pid = (t.next_pid + 1) % 2 ^ 32 })
create-IsValid t i p b v e s = record {
  pids = record {
    below = λ j h n. ground (arith, v.pids.below j h);
    distinct = λ j k h h' n n' same.
        ground (arith, v.pids.distinct j k h h', v.pids.below j h, v.pids.below k h');
  };
  runs = record {
    current_in = v.runs.current_in;
    running_is_current = λ j h r. ground (arith, v.runs.running_is_current j h);
  };
}

-- The slot that process_create takes.
data FreeSlot (t : Table) : Type 0 where
  full : find_free_slot t ≡ none → ((i : ℕ) → i < 16 → (t.slot i).state ≢ unused) → FreeSlot t
  free :
      (i : ℕ)
      → find_free_slot t ≡ some i
      → i < 16
      → (t.slot i).state ≡ unused
      → ((j : ℕ) → j < i → (t.slot j).state ≢ unused)
      → FreeSlot t

find_free_slot_lem : (t : Table) → FreeSlot t
unfolding find_free_slot
find_free_slot_lem t = elim (find_from_lem (λ i. is (t.slot i).state unused) 16 0) [
  | inl (e, all) ↦ FreeSlot.full e (λ i h s. ground (arith, all i, is_iff (t.slot i).state unused))
  | inr (i, e, first) ↦
      FreeSlot.free i e first.before (ground (arith, first.passes, is_iff (t.slot i).state unused))
        (λ j h s. ground (arith, first.fail_below j, is_iff (t.slot j).state unused))
]

abbrev with_fresh : Table → ℕ → List ℕ → ℕ → ℕ → Table
with_fresh t i name entry wrapper = record (put t i (fresh t.next_pid name entry wrapper)) {
  next_pid = (t.next_pid + 1) % 2 ^ 32;
}

process_create-eq :
    (t : Table) (name : List ℕ) (entry wrapper : ℕ)
    → process_create t name entry wrapper ≡ (elim (find_free_slot t) [
      | none ↦ (none, t)
      | some i ↦ (some t.next_pid, with_fresh t i name entry wrapper)
    ])
unfolding process_create
process_create-eq t name entry wrapper = refl

copy_name_lem :
    (name : List ℕ) (k : ℕ)
    → copy_name name k ≡ (if ltb k 31 && ltb k (strlen name) then get_or name k 0 else 0)
unfolding copy_name
copy_name_lem name k =
    let len = if ltb 31 (strlen name) then 31 else strlen name in
    let copied = memcpy-at (λ i. 0) 0 (of_list name) 0 len k in
    let at : 0 + (k - 0) ≡ k = omega arith in
    let c : memcpy (λ i. 0) 0 (of_list name) 0 len k
        ≡ (if in_range 0 len k then get_or name k 0 else 0) =
      copied ∙ ap (λ j. if in_range 0 len k then get_or name j 0 else 0) at in
    ap (λ v. if k == len then 0 else v) c ∙ ground arith

-- The process that is made: ready, with the given number and name, and its stack.
fresh_fields :
    (pid : ℕ) (name : List ℕ) (entry wrapper : ℕ)
    → let p = fresh pid name entry wrapper in
      (p.pid ≡ pid)
      × (p.state ≡ ready)
      × (p.time_slice ≡ 10)
      × ((k : ℕ) → p.name k ≡ (if ltb k 31 && ltb k (strlen name) then get_or name k 0 else 0))
      × (p.stack_ptr ≡ 1012)
      × (p.stack 1021 ≡ wrapper)
      × (p.stack 1023 ≡ entry)
unfolding fresh initial_stack
fresh_fields pid name entry wrapper = (refl, refl, refl, copy_name_lem name, refl, refl, refl)

-- The same of the slot that holds it.
slot_fields :
    (t : Table) (i : ℕ) (name : List ℕ) (entry wrapper : ℕ)
    → let p = (with_fresh t i name entry wrapper).slot i in
      (p.pid ≡ t.next_pid)
      × (p.state ≡ ready)
      × (p.time_slice ≡ 10)
      × ((k : ℕ) → p.name k ≡ (if ltb k 31 && ltb k (strlen name) then get_or name k 0 else 0))
      × (p.stack_ptr ≡ 1012)
      × (p.stack 1021 ≡ wrapper)
      × (p.stack 1023 ≡ entry)
slot_fields t i name entry wrapper =
    let own : (with_fresh t i name entry wrapper).slot i ≡ fresh t.next_pid name entry wrapper =
      ground arith in
    rw own (fresh_fields t.next_pid name entry wrapper)

-- On a valid table whose identifiers have not run out, process_create takes the first free slot,
-- fills it with a ready process whose identifier no process of the table has, and changes no other
-- slot: the process has a time slice of 10 ticks, the first 31 characters of the name, and a stack
-- pointer at the word 1012 of a stack with the address of process_wrapper in the word 1021 and that
-- of the entry function in the word 1023. With all 16 slots in use it fails and changes nothing. The
-- table stays valid.
pub process_create_lem :
    (t : Table) (name : List ℕ) (entry wrapper : ℕ)
    → IsValid t
    → t.next_pid + 1 < 2 ^ 32
    → let (r, u) = process_create t name entry wrapper in
      IsValid u
      × (((r ≡ none) × (u ≡ t) × ((i : ℕ) → i < 16 → (t.slot i).state ≢ unused))
          ⊎ ((i : ℕ) × (r ≡ some t.next_pid)
              × (i < 16)
              × ((t.slot i).state ≡ unused)
              × ((j : ℕ) → j < i → (t.slot j).state ≢ unused)
              × ((u.slot i).pid ≡ t.next_pid)
              × ((u.slot i).state ≡ ready)
              × ((u.slot i).time_slice ≡ 10)
              × ((k : ℕ)
                  → (u.slot i).name k
                    ≡ (if ltb k 31 && ltb k (strlen name) then get_or name k 0 else 0))
              × ((u.slot i).stack_ptr ≡ 1012)
              × ((u.slot i).stack 1021 ≡ wrapper)
              × ((u.slot i).stack 1023 ≡ entry)
              × ((j : ℕ) → j ≢ i → u.slot j ≡ t.slot j)
              × ((j : ℕ) → j < 16 → (t.slot j).state ≢ unused → (t.slot j).pid ≢ t.next_pid)
              × (u.next_pid ≡ t.next_pid + 1)))
process_create_lem t name entry wrapper v b = elim (find_free_slot_lem t) [
  | FreeSlot.full e all ↦ rw (process_create-eq, e) (v, inl (refl, refl, all))
  | FreeSlot.free i e h s first ↦
      let made = fresh_fields t.next_pid name entry wrapper in
      let (pid', state', slice, called, top, eip, argument) = slot_fields t i name entry wrapper in
      rw (process_create-eq, e)
        (
          create-IsValid t i (fresh t.next_pid name entry wrapper) b v made.0 made.1,
          inr (
            i,
            refl,
            h,
            s,
            first,
            pid',
            state',
            slice,
            called,
            top,
            eip,
            argument,
            λ j n. ground arith,
            λ j k n same. omega (arith, v.pids.below j k n),
            omega arith,
          ),
        )
]
