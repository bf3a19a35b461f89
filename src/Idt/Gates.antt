-- ===== src/Idt/Gates.antt =====
-- kernel/idt.c: the interrupt table as the processor reads it.
use os_u.Prelude.{
  ℕ, zero, suc, ◌+◌, ◌*◌, ◌/◌, ◌%◌, ◌^◌, ◌<◌, ◌≡◌, ◌∙◌, Bool, ◌&&◌, ◌||◌, update, ltb, leb, ◌==◌,
  not, if◌then◌else◌, arith,
}
use native.Mathlib.Decide.{ℕ_discrete}
use os_u.Idt.{IdtEntry, Tables, gate, idt_set_gate, set_gates, clear_gates, idt_init}

-- The address that a gate leads to, whether it is present, and whether ring 3 may use it.
abbrev pub gate_offset : IdtEntry → ℕ
gate_offset e = e.base_low + e.base_high * 2 ^ 16

abbrev pub is_present : IdtEntry → Bool
is_present e = not (e.flags / 2 ^ 7 % 2 == 0)

abbrev pub is_user : IdtEntry → Bool
is_user e = is_present e && e.flags / 2 ^ 5 % 4 == 3

-- The vectors that the kernel has a stub for.
abbrev pub has_stub : ℕ → Bool
has_stub n = ltb n 48 || n == 0x80

set_gates_at :
    (n i : ℕ) (stub : ℕ → ℕ) (idt : ℕ → IdtEntry) (j : ℕ)
    → set_gates n i stub idt j
      ≡ (if leb i j && ltb j (i + n) then gate (stub j) 0x08 0x8E else idt j)
unfolding set_gates idt_set_gate
set_gates_at zero i stub idt j = ground arith
set_gates_at (suc n) i stub idt j =
    let rest = set_gates_at n (i + 1) stub (idt_set_gate idt i (stub i) 0x08 0x8E) j in
    elim (ℕ_discrete i j) [ yes p ↦ rest ∙ rw p (ground arith) | no p ↦ rest ∙ ground (arith, p) ]

clear_gates_at :
    (n i : ℕ) (idt : ℕ → IdtEntry) (handlers : ℕ → ℕ) (j : ℕ)
    → let (idt', handlers') = clear_gates n i idt handlers in
      (idt' j ≡ (if leb i j && ltb j (i + n) then gate 0 0 0 else idt j))
      × (handlers' j ≡ (if leb i j && ltb j (i + n) then 0 else handlers j))
unfolding clear_gates idt_set_gate
clear_gates_at zero i idt handlers j = (ground arith, ground arith)
clear_gates_at (suc n) i idt handlers j =
    let (rest, rest') =
      clear_gates_at n (i + 1) (idt_set_gate idt i 0 0 0) (update handlers i 0) j in
    (rest ∙ ground arith, rest' ∙ ground arith)

which :
    (n : ℕ) (a b c d : IdtEntry)
    → n < 256
    → (if n == 0x80
        then b
        else if leb 32 n && ltb n (32 + 16)
        then a
        else if leb 0 n && ltb n (0 + 32)
        then a
        else if leb 0 n && ltb n (0 + 256)
        then c
        else d)
      ≡ (if ltb n 48 then a else if n == 0x80 then b else c)
which n a b c d h = ground arith

-- The table after idt_init.
idt_init_at :
    (stub : ℕ → ℕ) (idt_place gdt_place a1 a2 : ℕ) (t : Tables) (n : ℕ)
    → n < 256
    → let t' = (idt_init stub idt_place gdt_place a1 a2 t).0 in
      (t'.idt n ≡ (
        if ltb n 48
        then gate (stub n) 0x08 0x8E
        else if n == 0x80
        then gate (stub 0x80) 0x08 0xEE
        else gate 0 0 0))
      × (t'.handlers n ≡ 0)
unfolding idt_init idt_set_gate
idt_init_at stub idt_place gdt_place a1 a2 t n h =
    let idt = (clear_gates 256 0 t.idt t.handlers).0 in
    let (cleared, none) = clear_gates_at 256 0 t.idt t.handlers n in
    let exceptions = set_gates_at 32 0 stub idt n in
    let irqs = set_gates_at 16 32 stub (set_gates 32 0 stub idt) n in
    (
      rw (irqs, exceptions, cleared)
          (which n (gate (stub n) 0x08 0x8E) (gate (stub 0x80) 0x08 0xEE) (gate 0 0 0) (t.idt n) h),
      none ∙ ground arith,
    )

-- After idt_init the vectors that have a stub, and only those, are present and lead to it, at an
-- address of 32 bits; only the vector of the system calls may be used by ring 3; no vector has a
-- handler.
pub idt_init_lem :
    (stub : ℕ → ℕ) (idt_place gdt_place a1 a2 : ℕ) (t : Tables) (n : ℕ)
    → n < 256
    → stub n < 2 ^ 32
    → let t' = (idt_init stub idt_place gdt_place a1 a2 t).0 in
      (gate_offset (t'.idt n) ≡ (if has_stub n then stub n else 0))
      × (is_present (t'.idt n) ≡ has_stub n)
      × (is_user (t'.idt n) ≡ n == 0x80)
      × (t'.handlers n ≡ 0)
idt_init_lem stub idt_place gdt_place a1 a2 t n h k =
    let (e, none) = idt_init_at stub idt_place gdt_place a1 a2 t n h in
    rw e (ground arith, ground arith, ground arith, none)
