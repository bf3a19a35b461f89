-- ===== src/Tests/Tables.antt =====
-- kernel/idt.c and kernel/tss.c on concrete inputs.
use os_u.V86.{Fault, v86_handle_gpf}
use os_u.Prelude.{
  ℕ, ◌+◌, ◌*◌, ◌/◌, ◌%◌, ◌^◌, ◌<◌, ◌≤◌, ◌≡◌, ◌≢◌, ◌⊎◌, ◌∷◌, ◌&&◌, not, refl, true, false, none, [],
  ◌==◌, if◌then◌else◌, arith,
}
use os_u.Idt.{
  GdtEntry, TablePtr, Tables, Machine, exception, after_gpf, gate, idt_init, isr_handler_c,
}
use os_u.Idt.Gates.{gate_offset, is_present, is_user, has_stub, idt_init_lem}
use os_u.Idt.Dispatch.{eoi, and_then, isr_handler_c_lem}

abbrev no_segments : ℕ → GdtEntry
no_segments i = record {
  limit_low = 0;
  base_low = 0;
  base_middle = 0;
  access = 0;
  granularity = 0;
  base_high = 0;
}

abbrev nowhere : TablePtr
nowhere = record { limit = 0; base = 0 }

abbrev tables : Tables
tables = record {
  idt = λ i. gate 0 0 0;
  idt_ptr = nowhere;
  handlers = λ i. 7;
  gdt = no_segments;
  gdt_ptr = nowhere;
}

abbrev stub : ℕ → ℕ
stub n = 0x12345 + n * 16

idt_init_lem_example :
    let t = (idt_init stub 0x5000 0x6000 0xFF 0xFF tables).0 in
    (gate_offset (t.idt 33) ≡ (if has_stub 33 then stub 33 else 0))
    × (is_present (t.idt 33) ≡ true)
    × (is_user (t.idt 33) ≡ false)
    × (t.handlers 33 ≡ 0)
idt_init_lem_example =
    idt_init_lem stub 0x5000 0x6000 0xFF 0xFF tables 33 (omega arith) (omega arith)

-- The mouse interrupt, with a handler that does nothing.
abbrev machine : Machine
machine = record {
  regs = λ i. if i == 12 then 44 else 0;
  mem = λ i. 0;
  v86 = record { active = false; done = false; regs = none; saved_ivt = λ i. 0 };
  handlers = λ i. 7;
  events = [];
}

isr_handler_c_lem_example :
    let taken = 44 == 13 && (false && not (0 / 2 ^ 17 % 2 == 0)) in
    let fault : Fault = record { v86 = machine.v86; esp = machine.regs; mem = machine.mem } in
    let result = isr_handler_c (λ h m. m) machine in
    ((taken ≡ true) × (result ≡ after_gpf machine (v86_handle_gpf fault).1))
    ⊎ ((taken ≡ false) × (machine.handlers 44 ≢ 0) × (result ≡ and_then machine (eoi 44)))
    ⊎ ((taken ≡ false)
        × (machine.handlers 44 ≡ 0)
        × (44 < 32)
        × (result ≡ and_then (and_then machine (exception 44 0 ∷ [])) (eoi 44)))
    ⊎ ((taken ≡ false)
        × (machine.handlers 44 ≡ 0)
        × (32 ≤ 44)
        × (result ≡ and_then machine (eoi 44)))
isr_handler_c_lem_example = isr_handler_c_lem (λ h m. m) machine (λ h m. refl)
