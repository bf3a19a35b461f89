-- ===== src/Syscall.antt =====
-- kernel/syscall.c: the system calls.
pub mod Laws
use os_u.Prelude.{
  ℕ, zero, suc, ◌+◌, ◌-◌, ◌^◌, ◌%◌, Bool, true, false, ◌||◌, Option, none, some, List, [], ◌∷◌,
  Bytes, update, ltb, ◌==◌, if◌then◌else◌, codes,
}
use os_u.Vga.{Vga, vga_putc, vga_puts, vga_print_dec}
use os_u.Process.Defs.{Table, Switch, stay, scheduler_tick}
use os_u.Timer.{Timer, timer_sleep}

-- The registers of `registers_t` that the handler reads and writes.
pub record Registers : Type 0 where
  pub eax : ℕ
  pub ebx : ℕ
  pub ecx : ℕ
  pub edx : ℕ

-- What the system calls work on: the bytes of memory, the console, the characters to come from the
-- keyboard, the interrupts to come while a call sleeps (`true` for a tick), the timer and the processes.
pub record System : Type 0 where
  pub mem : Bytes
  pub screen : Vga
  pub keys : List ℕ
  pub wakes : List Bool
  pub timer : Timer
  pub table : Table

-- A call returns a value and what the scheduler does, or halts the processor for good, or waits
-- for a key or a tick that does not come.
pub data Outcome (A : Type 0) : Type 0 where
  returns : A → Switch → System → Outcome A
  halts : System → Outcome A
  waits : Outcome A

-- An int of -1
abbrev minus_one : ℕ
minus_one = 2 ^ 32 - 1

-- `sys_exit`
unfoldable sys_exit : ℕ → System → System
unfolding vga_puts vga_print_dec
sys_exit status s = record s {
  screen =
      vga_puts (vga_print_dec (vga_puts s.screen (codes "[Process exited with status ")) status)
        (codes "]\n");
}

-- The loop of sys_write over `n` characters at `buf`.
unfoldable pub write_loop : Bytes → ℕ → ℕ → Vga → Vga
unfolding vga_putc
write_loop mem buf zero v = v
write_loop mem buf (suc n) v = write_loop mem ((buf + 1) % 2 ^ 32) n (vga_putc v (mem buf))

-- `sys_write`: the standard output and the standard error are the console.
unfoldable pub sys_write : ℕ → ℕ → ℕ → System → ℕ × System
unfolding write_loop
sys_write fd buf count s =
    if fd == 1 || fd == 2
    then (count, record s { screen = write_loop s.mem buf count s.screen })
    else (minus_one, s)

-- The loop of sys_read for the character `i` and `n` more: the result, the memory and the keys left,
-- or `none` while it waits.
unfoldable pub read_loop : ℕ → ℕ → ℕ → Bytes → List ℕ → Option (ℕ × Bytes × List ℕ)
read_loop zero i buf mem keys = some (i, mem, keys)
read_loop (suc n) i buf mem [] = none
read_loop (suc n) i buf mem (c ∷ keys) =
    let mem' = update mem ((buf + i) % 2 ^ 32) c in
    let rest = read_loop n (i + 1) buf mem' keys in
    if c == b'\n' then some (i + 1, mem', keys) else rest

-- `sys_read`
unfoldable pub sys_read : ℕ → ℕ → ℕ → System → Option (ℕ × System)
unfolding read_loop
sys_read fd buf count s =
    if fd == 0
    then elim (read_loop count 0 buf s.mem s.keys) [
      | none ↦ none
      | some (n, mem, keys) ↦ some (n, record s { mem = mem; keys = keys })
    ]
    else some (minus_one, s)

-- `sys_getpid`: `current_pid` is never changed.
unfoldable sys_getpid : ℕ
sys_getpid = 1

-- `sys_sleep`: the processes that the scheduler lets run meanwhile are not followed.
unfoldable sys_sleep : ℕ → System → Option System
unfolding timer_sleep
sys_sleep ms s = elim (timer_sleep ms s.timer s.wakes) [
  | none ↦ none
  | some (t, wakes) ↦ some (record s { timer = t; wakes = wakes })
]

-- `sys_yield`
unfoldable sys_yield : System → Switch × System
unfolding scheduler_tick
sys_yield s = let (t, switch) = scheduler_tick s.table in (switch, record s { table = t })

-- The numbers of syscall.h.
pub data Call : Type 0 where
  exit write read getpid sleep yield other : Call

unfoldable pub call_of : ℕ → Call
call_of n =
    if n == 0
    then exit
    else if n == 1
    then write
    else if n == 2
    then read
    else if n == 3
    then getpid
    else if n == 4
    then sleep
    else if n == 5
    then yield
    else other

-- A case of the switch.
unfoldable pub do_call : Call → Registers → System → Outcome Registers
unfolding sys_exit sys_write sys_read sys_getpid sys_sleep sys_yield
do_call exit r s = halts (sys_exit r.ebx s)
do_call write r s =
    let (n, s') = sys_write r.ebx r.ecx r.edx s in returns (record r { eax = n }) stay s'
do_call read r s = elim (sys_read r.ebx r.ecx r.edx s) [
  | none ↦ waits
  | some (n, s') ↦ returns (record r { eax = n }) stay s'
]
do_call getpid r s = returns (record r { eax = sys_getpid }) stay s
do_call sleep r s = elim (sys_sleep r.ebx s) [ none ↦ waits | some s' ↦ returns r stay s' ]
do_call yield r s = let (switch, s') = sys_yield s in returns r switch s'
do_call other r s = returns (record r { eax = minus_one }) stay s

-- `syscall_handler`
unfoldable pub syscall_handler : Registers → System → Outcome Registers
unfolding call_of do_call
syscall_handler r s = do_call (call_of r.eax) r s
