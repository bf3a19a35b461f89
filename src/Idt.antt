-- ===== src/Idt.antt =====
-- kernel/idt.c and kernel/tss.c: the descriptor tables, and the handler of all interrupts.
pub mod Gates
pub mod Segments
pub mod Dispatch
use os_u.Prelude.{
  ℕ, zero, suc, ◌+◌, ◌-◌, ◌*◌, ◌/◌, ◌%◌, ◌^◌, Bool, true, false, ◌&&◌, ◌||◌, List, [], ◌∷◌, ◌++◌,
  Bytes, update, ltb, leb, ◌==◌, not, if◌then◌else◌,
}
use os_u.V86.{V86, Fault, v86_is_active, v86_handle_gpf}

-- `idt_entry_t`
pub record IdtEntry : Type 0 where
  pub base_low : ℕ
  pub selector : ℕ
  pub zero : ℕ
  pub flags : ℕ
  pub base_high : ℕ

-- `gdt_entry_t`
pub record GdtEntry : Type 0 where
  pub limit_low : ℕ
  pub base_low : ℕ
  pub base_middle : ℕ
  pub access : ℕ
  pub granularity : ℕ
  pub base_high : ℕ

-- `idt_ptr_t` and `gdt_ptr_t`
pub record TablePtr : Type 0 where
  pub limit : ℕ
  pub base : ℕ

-- An entry of an array is changed.
abbrev set_at : {A : Type 0} → (ℕ → A) → ℕ → A → ℕ → A
set_at table n a = λ i. if i == n then a else table i

abbrev pub gate : ℕ → ℕ → ℕ → IdtEntry
gate base selector flags = record {
  base_low = base % 2 ^ 16;
  selector = selector;
  zero = 0;
  flags = flags;
  base_high = base / 2 ^ 16 % 2 ^ 16;
}

-- `idt_set_gate`
unfoldable pub idt_set_gate : (ℕ → IdtEntry) → ℕ → ℕ → ℕ → ℕ → ℕ → IdtEntry
idt_set_gate idt n base selector flags = set_at idt n (gate base selector flags)

-- `gdt_set_gate`: the two halves of `granularity` do not overlap.
unfoldable pub gdt_set_gate : (ℕ → GdtEntry) → ℕ → ℕ → ℕ → ℕ → ℕ → ℕ → GdtEntry
gdt_set_gate gdt num base limit access gran = set_at gdt num (record {
  base_low = base % 2 ^ 16;
  base_middle = base / 2 ^ 16 % 256;
  base_high = base / 2 ^ 24 % 256;
  limit_low = limit % 2 ^ 16;
  granularity = limit / 2 ^ 16 % 16 + gran / 16 % 16 * 16;
  access = access;
})

-- `gdt_set_tss`
unfoldable pub gdt_set_tss : (ℕ → GdtEntry) → ℕ → ℕ → ℕ → GdtEntry
unfolding gdt_set_gate
gdt_set_tss gdt base limit = gdt_set_gate gdt 5 base limit 0x89 0

-- `idt_set_gate_ring3`
unfoldable idt_set_gate_ring3 : (ℕ → IdtEntry) → ℕ → ℕ → IdtEntry
idt_set_gate_ring3 idt n = set_at idt n (record (idt n) { flags = 0xEE })

-- gdt_init's table and pointer; the array is at the address `place`, and has six entries of 8 bytes.
unfoldable pub gdt_init : ℕ → (ℕ → GdtEntry) → (ℕ → GdtEntry) × TablePtr
unfolding gdt_set_gate
gdt_init place gdt =
    let g0 = gdt_set_gate gdt 0 0 0 0 0 in
    let g1 = gdt_set_gate g0 1 0 0xFFFFFFFF 0x9A 0xCF in
    let g2 = gdt_set_gate g1 2 0 0xFFFFFFFF 0x92 0xCF in
    let g3 = gdt_set_gate g2 3 0 0xFFFFFFFF 0xFA 0xCF in
    let g4 = gdt_set_gate g3 4 0 0xFFFFFFFF 0xF2 0xCF in
    (gdt_set_gate g4 5 0 0 0 0, record { limit = 6 * 8 - 1; base = place })

-- A port and the byte of an outb.
abbrev Outs : Type 0
Outs = List (ℕ × ℕ)

-- The writes of pic_remap other than those of io_wait, for the bytes that it reads from 0x21 and 0xA1.
abbrev pic_remap : ℕ → ℕ → Outs
pic_remap a1 a2 =
    (0x20, 0x11)
    ∷ (0xA0, 0x11)
    ∷ (0x21, 0x20)
    ∷ (0xA1, 0x28)
    ∷ (0x21, 0x04)
    ∷ (0xA1, 0x02)
    ∷ (0x21, 0x01)
    ∷ (0xA1, 0x01)
    ∷ (0x21, a1)
    ∷ (0xA1, a2)
    ∷ []

-- The gates of the `n` vectors from `i` on, each with the address of its stub.
unfoldable pub set_gates : ℕ → ℕ → (ℕ → ℕ) → (ℕ → IdtEntry) → ℕ → IdtEntry
unfolding idt_set_gate
set_gates zero i stub idt = idt
set_gates (suc n) i stub idt = set_gates n (i + 1) stub (idt_set_gate idt i (stub i) 0x08 0x8E)

-- The loop of idt_init that clears the `n` vectors from `i` on.
unfoldable pub clear_gates : ℕ → ℕ → (ℕ → IdtEntry) → (ℕ → ℕ) → (ℕ → IdtEntry) × (ℕ → ℕ)
unfolding idt_set_gate
clear_gates zero i idt handlers = (idt, handlers)
clear_gates (suc n) i idt handlers =
    clear_gates n (i + 1) (idt_set_gate idt i 0 0 0) (update handlers i 0)

-- The tables: a handler is its address, 0 for none.
pub record Tables : Type 0 where
  pub idt : ℕ → IdtEntry
  pub idt_ptr : TablePtr
  pub handlers : ℕ → ℕ
  pub gdt : ℕ → GdtEntry
  pub gdt_ptr : TablePtr

-- `idt_init`, for the addresses of the stubs of each vector and of the two arrays, and for the two bytes that
-- pic_remap reads: the tables and the writes to the ports.
unfoldable pub idt_init : (ℕ → ℕ) → ℕ → ℕ → ℕ → ℕ → Tables → Tables × Outs
unfolding gdt_init clear_gates set_gates
idt_init stub idt_place gdt_place a1 a2 t =
    let (gdt, gdt_ptr) = gdt_init gdt_place t.gdt in
    let (idt, handlers) = clear_gates 256 0 t.idt t.handlers in
    let exceptions = set_gates 32 0 stub idt in
    let irqs = set_gates 16 32 stub exceptions in
    (
      record {
        idt = idt_set_gate irqs 0x80 (stub 0x80) 0x08 0xEE;
        idt_ptr = record { limit = 8 * 256 - 1; base = idt_place };
        handlers = handlers;
        gdt = gdt;
        gdt_ptr = gdt_ptr;
      },
      pic_remap a1 a2 ++ ((0x21, 0xF8) ∷ (0xA1, 0xEF) ∷ []),
    )

-- `idt_register_handler`
unfoldable idt_register_handler : Tables → ℕ → ℕ → Tables
idt_register_handler t n handler = record t { handlers = update t.handlers n handler }

-- The fields of `tss_t` that the code sets; the others are 0.
pub record Tss : Type 0 where
  pub esp0 : ℕ
  pub ss0 : ℕ
  pub iomap_base : ℕ

-- `tss_init`, for the addresses of the segment, of 104 bytes, and of the stack of 4096.
unfoldable pub tss_init : ℕ → ℕ → (ℕ → GdtEntry) → Tss × (ℕ → GdtEntry)
unfolding gdt_set_tss
tss_init place stack gdt = (
  record { ss0 = 0x10; esp0 = (stack + 4096) % 2 ^ 32; iomap_base = 104 },
  gdt_set_tss gdt place (104 - 1),
)

-- `tss_set_kernel_stack`
abbrev tss_set_kernel_stack : Tss → ℕ → Tss
tss_set_kernel_stack t stack = record t { esp0 = stack }

-- What an interrupt does outside of memory: a write to a port, or the message of an exception.
pub data Event : Type 0 where
  out : ℕ → ℕ → Event
  exception : ℕ → ℕ → Event

-- The machine that an interrupt finds: `regs` is the words of `registers_t`, of which `int_no` is the 12th and
-- `err_code` the 13th, counted from 0.
pub record Machine : Type 0 where
  pub regs : ℕ → ℕ
  pub mem : Bytes
  pub v86 : V86
  pub handlers : ℕ → ℕ
  pub events : List Event

abbrev pub emit : Machine → List Event → Machine
emit m e = record m { events = m.events ++ e }

-- The call of the handler of the vector, by its address, or the message of an exception that has none.
unfoldable pub call_handler : (ℕ → Machine → Machine) → Machine → Machine
call_handler call m =
    let n = m.regs 12 in
    if not (m.handlers n == 0)
    then call (m.handlers n) m
    else if ltb n 32
    then emit m (exception n (m.regs 13) ∷ [])
    else m

-- The end of interrupt, to the slave first where it takes part.
unfoldable pub acknowledge : Machine → Machine
acknowledge m =
    let n = m.regs 12 in
    let slave = if leb 40 n then emit m (out 0xA0 0x20 ∷ []) else m in
    if leb 32 n && leb n 47 then emit slave (out 0x20 0x20 ∷ []) else m

-- The machine after v86_handle_gpf, which is passed the words of `registers_t`.
abbrev pub after_gpf : Machine → Fault → Machine
after_gpf m f = record m { v86 = f.v86; regs = f.esp; mem = f.mem }

-- `isr_handler_c`
unfoldable pub isr_handler_c : (ℕ → Machine → Machine) → Machine → Machine
unfolding call_handler acknowledge v86_handle_gpf
isr_handler_c call m =
    let (handled, f) = v86_handle_gpf (record { v86 = m.v86; esp = m.regs; mem = m.mem }) in
    if m.regs 12 == 13 && (v86_is_active m.v86 && handled)
    then after_gpf m f
    else acknowledge (call_handler call m)
