-- ===== src/V86.antt =====
-- kernel/v86.c: the emulation of instructions that fault in virtual 8086 mode. A uint32_t array is a function
-- from its index.
pub mod Stack
use os_u.Prelude.{
  ℕ, ◌+◌, ◌-◌, ◌*◌, ◌/◌, ◌%◌, ◌^◌, Bool, true, false, ◌&&◌, ◌||◌, Option, none, some, List, [], ◌∷◌,
  Bytes, update, memcpy, add32, sub32, ltb, leb, ◌==◌, not, if◌then◌else◌,
}

-- The fields of `bios_regs_t` that the code reads or writes.
pub record BiosRegs : Type 0 where
  pub ax : ℕ
  pub bx : ℕ
  pub cx : ℕ
  pub dx : ℕ

-- The static variables; `regs` is the structure that `v86_regs` points to.
pub record V86 : Type 0 where
  pub active : Bool
  pub done : Bool
  pub regs : Option BiosRegs
  pub saved_ivt : Bytes

-- `v86_init`
unfoldable v86_init : Bytes → V86 → V86
unfolding memcpy
v86_init mem v = record v {
  saved_ivt = memcpy v.saved_ivt 0 mem 0 2048;
  active = false;
  done = false;
}

-- `v86_is_active`
abbrev pub v86_is_active : V86 → Bool
v86_is_active v = v.active

-- A uint16_t in memory.
unfoldable pub store2 : Bytes → ℕ → ℕ → Bytes
store2 mem a value = update (update mem a (value % 256)) (add32 a 1) (value / 256 % 256)

unfoldable pub fetch2 : Bytes → ℕ → ℕ
fetch2 mem a = mem a + mem (add32 a 1) * 256

-- What emulate_instruction returns and leaves: `none` for -1.
pub record Emulated : Type 0 where
  pub advance : Option ℕ
  pub regs : ℕ → ℕ
  pub mem : Bytes
  pub done : Bool

-- `v86_sp` at the start.
abbrev pub v86_sp : (ℕ → ℕ) → ℕ
v86_sp regs = (regs 11 * 16 + regs 3) % 2 ^ 20

-- INT n, other than INT 0xFF.
unfoldable pub emulate_int : ℕ → (ℕ → ℕ) → Bytes → Bool → Emulated
unfolding store2 fetch2
emulate_int int_num regs mem done =
    let sp = v86_sp regs in
    let new_ip = fetch2 mem (int_num * 4) in
    let new_cs = fetch2 mem (int_num * 4 + 2) in
    let pushed =
      store2 (store2 (store2 mem (sub32 sp 2) (regs 10 % 2 ^ 16)) (sub32 sp 4) (regs 9 % 2 ^ 16))
        (sub32 sp 6) ((regs 8 + 2) % 2 ^ 16) in
    record {
      advance = some 0;
      regs = update (update (update regs 3 (sub32 sp 6 % 2 ^ 16)) 8 new_ip) 9 new_cs;
      mem = pushed;
      done = done;
    }

-- `regs[10] = (regs[10] & 0xFFFF0000) | flags`
abbrev with_flags : (ℕ → ℕ) → ℕ → ℕ → ℕ
with_flags regs flags = update regs 10 (regs 10 / 2 ^ 16 * 2 ^ 16 + flags)

-- IRET
unfoldable pub emulate_iret : (ℕ → ℕ) → Bytes → Bool → Emulated
unfolding fetch2
emulate_iret regs mem done =
    let sp = v86_sp regs in
    let moved = update regs 3 (add32 sp 6 % 2 ^ 16) in
    let jumped = update (update moved 8 (fetch2 mem sp)) 9 (fetch2 mem (add32 sp 2)) in
    record {
      advance = some 0;
      regs = with_flags jumped (fetch2 mem (add32 sp 4));
      mem = mem;
      done = done;
    }

-- PUSHF and POPF
unfoldable emulate_pushf : (ℕ → ℕ) → Bytes → Bool → Emulated
unfolding store2
emulate_pushf regs mem done =
    let sp = sub32 (v86_sp regs) 2 in
    record {
      advance = some 1;
      regs = update regs 3 (sp % 2 ^ 16);
      mem = store2 mem sp (regs 10 % 2 ^ 16);
      done = done;
    }

unfoldable pub emulate_popf : (ℕ → ℕ) → Bytes → Bool → Emulated
unfolding fetch2
emulate_popf regs mem done =
    let sp = v86_sp regs in
    record {
      advance = some 1;
      regs = with_flags (update regs 3 (add32 sp 2 % 2 ^ 16)) (fetch2 mem sp);
      mem = mem;
      done = done;
    }

-- The interrupt flag of a word: `EFLAGS_IF` is `2 ^ 9`.
abbrev flag_if : ℕ → ℕ
flag_if e = e / 2 ^ 9 % 2

-- `emulate_instruction`, for the instruction at `ip`.
unfoldable pub emulate_instruction : ℕ → (ℕ → ℕ) → Bytes → Bool → Emulated
unfolding emulate_int emulate_iret emulate_pushf emulate_popf
emulate_instruction ip regs mem done =
    let opcode = mem ip in
    let int_num = mem (add32 ip 1) in
    let skip : Emulated = record { advance = some 1; regs = regs; mem = mem; done = done } in
    if opcode == 0xCD
    then (if int_num == 0xFF
        then record { advance = some 2; regs = regs; mem = mem; done = true }
        else emulate_int int_num regs mem done)
    else if opcode == 0xCF
    then emulate_iret regs mem done
    else if opcode == 0xFA
    then record skip { regs = update regs 10 (regs 10 - flag_if (regs 10) * 2 ^ 9) }
    else if opcode == 0xFB
    then record skip { regs = update regs 10 (regs 10 + (1 - flag_if (regs 10)) * 2 ^ 9) }
    else if opcode == 0x9C
    then emulate_pushf regs mem done
    else if opcode == 0x9D
    then emulate_popf regs mem done
    else if opcode == 0xF4
        || (opcode == 0xEE || (opcode == 0xEF || (opcode == 0xEC || opcode == 0xED)))
    then skip
    else record skip { advance = none }

-- The state that v86_handle_gpf changes: the driver, the words that `esp` points to, and the memory.
pub record Fault : Type 0 where
  pub v86 : V86
  pub esp : ℕ → ℕ
  pub mem : Bytes

-- The registers for the caller, when there is one to copy to.
abbrev copied_regs : (ℕ → ℕ) → Option BiosRegs → Option BiosRegs
copied_regs esp none = none
copied_regs esp (some r) =
    some (record {
      ax = esp 7 % 2 ^ 16;
      bx = esp 6 % 2 ^ 16;
      cx = esp 5 % 2 ^ 16;
      dx = esp 4 % 2 ^ 16;
    })

-- After the instruction: the part of v86_handle_gpf from the first test of `advance` on.
unfoldable after_emulation : V86 → Emulated → Fault
after_emulation v e = elim e.advance [
  | none ↦ record { v86 = record v { done = true }; esp = e.regs; mem = e.mem }
  | some n ↦
      let esp = update e.regs 0 (add32 (e.regs 0) n) in
      record {
        v86 =
            if e.done
            then record v { done = true; regs = copied_regs esp v.regs; active = false }
            else record v { done = false };
        esp = esp;
        mem = e.mem;
      }
]

-- `v86_handle_gpf`: whether the fault is handled, and the state.
unfoldable pub v86_handle_gpf : Fault → Bool × Fault
unfolding emulate_instruction after_emulation
v86_handle_gpf f =
    let instr = f.esp 1 % 2 ^ 16 * 16 + f.esp 0 % 2 ^ 16 in
    if not f.v86.active
    then (false, f)
    else if f.esp 2 / 2 ^ 17 % 2 == 0
    then (false, f)
    else (true, after_emulation f.v86 (emulate_instruction instr f.esp f.mem f.v86.done))

-- `v86_frame_t`
pub record Frame : Type 0 where
  pub ss : ℕ
  pub esp : ℕ
  pub eflags : ℕ
  pub cs : ℕ
  pub eip : ℕ
  pub regs : BiosRegs

-- v86_bios_call up to its assembly code: the driver, the memory and the frame that it enters the mode with.
unfoldable v86_bios_call : ℕ → BiosRegs → V86 → Bytes → V86 × Bytes × Frame
v86_bios_call int_num regs v mem =
    let code = 0x7000 * 16 in
    (
      record v { regs = some regs; active = true; done = false },
      update
          (update (update (update (update mem code 0xCD) (code + 1) int_num) (code + 2) 0xCD)
            (code + 3) 0xFF)
          (code + 4) 0xF4,
      record {
        ss = 0x8000;
        esp = 0xFFFE;
        eflags = 0x20000 + 0x200 + 0x3000;
        cs = 0x7000;
        eip = 0;
        regs = regs;
      },
    )
