-- ===== src/Idt/Segments.antt =====
-- kernel/idt.c and kernel/tss.c: the segment descriptors as the processor reads them.
use os_u.Prelude.{
  ℕ, zero, suc, ◌+◌, ◌-◌, ◌*◌, ◌/◌, ◌%◌, ◌^◌, ◌≤◌, ◌<◌, ◌≡◌, ◌≢◌, refl, ltb, if◌then◌else◌, arith,
}
use os_u.Idt.{GdtEntry, gdt_set_gate, gdt_set_tss, gdt_init, tss_init}

-- The base, the 20 bits of the limit, and the ring of a segment.
abbrev seg_base : GdtEntry → ℕ
seg_base e = e.base_low + e.base_middle * 2 ^ 16 + e.base_high * 2 ^ 24

abbrev pub seg_limit : GdtEntry → ℕ
seg_limit e = e.limit_low + e.granularity % 16 * 2 ^ 16

abbrev pub seg_ring : GdtEntry → ℕ
seg_ring e = e.access / 2 ^ 5 % 4

-- What gdt_set_gate packs into a descriptor is what the processor unpacks, and the other descriptors stay.
gdt_set_gate_lem :
    (gdt : ℕ → GdtEntry) (num base limit access gran i : ℕ)
    → base < 2 ^ 32
    → let gdt' = gdt_set_gate gdt num base limit access gran in
      (seg_base (gdt' num) ≡ base)
      × (seg_limit (gdt' num) ≡ limit % 2 ^ 20)
      × ((gdt' num).granularity / 16 ≡ gran / 16 % 16)
      × ((gdt' num).access ≡ access)
      × (i ≢ num → gdt' i ≡ gdt i)
unfolding gdt_set_gate
gdt_set_gate_lem gdt num base limit access gran i h =
    (ground arith, ground arith, ground arith, ground arith, λ k. ground (arith, k))

-- Whether a segment is a present one of code or data, of 4 KiB units.
abbrev IsFlat : GdtEntry → Type 0
IsFlat e =
    (seg_base e ≡ 0)
    × (seg_limit e ≡ 2 ^ 20 - 1)
    × (e.granularity / 2 ^ 7 ≡ 1)
    × (e.access / 2 ^ 4 % 2 ≡ 1)
    × (e.access / 2 ^ 7 ≡ 1)

each_of_four : (P : ℕ → Type 0) → P 1 → P 2 → P 3 → P 4 → (i : ℕ) → 1 ≤ i → i ≤ 4 → P i
each_of_four P a b c d zero h k = absurd (omega arith)
each_of_four P a b c d (suc zero) h k = a
each_of_four P a b c d (suc (suc zero)) h k = b
each_of_four P a b c d (suc (suc (suc zero))) h k = c
each_of_four P a b c d (suc (suc (suc (suc zero)))) h k = d
each_of_four P a b c d (suc (suc (suc (suc (suc i))))) h k = absurd (omega arith)

-- A flat segment of this ring, of code or of data.
abbrev IsSegment : GdtEntry → ℕ → ℕ → Type 0
IsSegment e ring code = IsFlat e × (seg_ring e ≡ ring) × (e.access / 2 ^ 3 % 2 ≡ code)

-- After gdt_init and tss_init the segments 1 to 4 cover all of memory, 1 and 2 for ring 0 and 3 and 4 for ring 3,
-- 1 and 3 with code; the fifth is the available task state segment at its place, of 104 bytes, for ring 0, which
-- holds the top of the stack for ring 0 and no map of ports.
tss_init-gdt_init :
    (gdt : ℕ → GdtEntry) (gdt_place place stack i : ℕ)
    → place < 2 ^ 32
    → let (tss, gdt') = tss_init place stack (gdt_init gdt_place gdt).0 in
      (1 ≤ i → i ≤ 4 → IsSegment (gdt' i) (if ltb i 3 then 0 else 3) (i % 2))
      × (seg_base (gdt' 5) ≡ place)
      × (seg_limit (gdt' 5) + 1 ≡ 104)
      × ((gdt' 5).access ≡ 0x89)
      × (seg_limit (gdt' 5) < tss.iomap_base)
      × (tss.ss0 ≡ 2 * 8)
      × (tss.esp0 ≡ (stack + 4096) % 2 ^ 32)
unfolding tss_init gdt_init gdt_set_tss gdt_set_gate
tss_init-gdt_init gdt gdt_place place stack i h =
    let gdt' = (tss_init place stack (gdt_init gdt_place gdt).0).1 in
    (
      each_of_four (λ i. IsSegment (gdt' i) (if ltb i 3 then 0 else 3) (i % 2))
          ((refl, refl, refl, refl, refl), refl, refl) ((refl, refl, refl, refl, refl), refl, refl)
          ((refl, refl, refl, refl, refl), refl, refl) ((refl, refl, refl, refl, refl), refl, refl)
          i,
      ground arith,
      refl,
      refl,
      omega arith,
      refl,
      refl,
    )
