-- ===== src/Process/Frame.antt =====
-- kernel/context.asm: the registers that context_switch saves and loads, against the stack that
-- process_create builds. A stack is an array of words and `sp` an index in it.
use os_u.Prelude.{ℕ, ◌+◌, ◌-◌, ◌≤◌, ◌≡◌, refl, List, Bytes, update, arith}
use os_u.Process.Defs.{fresh, initial_stack}

-- What a switched-out process gets back.
pub record Registers : Type 0 where
  pub edi : ℕ
  pub esi : ℕ
  pub ebp : ℕ
  pub ebx : ℕ
  pub edx : ℕ
  pub ecx : ℕ
  pub eax : ℕ
  pub eflags : ℕ
  pub eip : ℕ
  pub esp : ℕ

-- The call of context_switch, which pushes the address to go on at, and the pushes at its beginning:
-- the stack, and the stack pointer that goes to `*old_sp`. Here `esp` is that before the call.
unfoldable pub save : Registers → Bytes → Bytes × ℕ
save r stack =
    let sp = r.esp in
    let s = update stack (sp - 1) r.eip in
    let s = update s (sp - 2) r.eflags in
    let s = update s (sp - 3) r.eax in
    let s = update s (sp - 4) r.ecx in
    let s = update s (sp - 5) r.edx in
    let s = update s (sp - 6) r.ebx in
    let s = update s (sp - 7) r.ebp in
    let s = update s (sp - 8) r.esi in (update s (sp - 9) r.edi, sp - 9)

-- The pops at its end, with `popfd` and `ret`.
unfoldable pub load : Bytes → ℕ → Registers
load stack sp = record {
  edi = stack sp;
  esi = stack (sp + 1);
  ebp = stack (sp + 2);
  ebx = stack (sp + 3);
  edx = stack (sp + 4);
  ecx = stack (sp + 5);
  eax = stack (sp + 6);
  eflags = stack (sp + 7);
  eip = stack (sp + 8);
  esp = sp + 9;
}

-- A process that is switched out and later loaded from the same stack goes on with all registers
-- as they were, if nine words are free on its stack.
pub load-save :
    (r : Registers) (stack : Bytes) → 9 ≤ r.esp → let (s, sp) = save r stack in load s sp ≡ r
unfolding save load
load-save r stack h = ground arith

-- The stack of a new process has one word more than context_switch pops: loading it puts 0 in the
-- flags, which leaves interrupts off, and goes on at address 0x202, the word meant for the flags,
-- whatever the entry function and process_wrapper are.
pub load-fresh :
    (pid : ℕ) (name : List ℕ) (entry wrapper : ℕ)
    → let p = fresh pid name entry wrapper in
      let r = load p.stack p.stack_ptr in
      (r.eip ≡ 0x202) × (r.eflags ≡ 0) × (r.esp ≡ 1021) × (p.stack r.esp ≡ wrapper)
unfolding load fresh initial_stack
load-fresh pid name entry wrapper = (refl, refl, refl, refl)
