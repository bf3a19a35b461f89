-- ===== src/V86/Stack.antt =====
-- kernel/v86.c: what an emulated interrupt pushes, an emulated return pops.
use os_u.Prelude.{
  ℕ, ◌+◌, ◌-◌, ◌*◌, ◌%◌, ◌^◌, ◌≤◌, ◌<◌, ◌≡◌, ◌≢◌, ◌⊎◌, inl, inr, refl, ◌∙◌, ap, Bool, false, Bytes,
  add32, sub32, ◌==◌, if◌then◌else◌, arith,
}
use native.Mathlib.Decide.{ℕ_discrete}
use os_u.V86.{Emulated, store2, fetch2, v86_sp, emulate_int, emulate_iret, emulate_instruction}

fetch2-store2 : (m : Bytes) (a c : ℕ) → a < 2 ^ 31 → fetch2 (store2 m a c) a ≡ c % 2 ^ 16
unfolding fetch2 store2
fetch2-store2 m a c h = ground arith

fetch2-store2_other :
    (m : Bytes) (a b c : ℕ)
    → a < 2 ^ 31
    → b < 2 ^ 31
    → (a + 2 ≤ b) ⊎ (b + 2 ≤ a)
    → fetch2 (store2 m a c) b ≡ fetch2 m b
unfolding fetch2 store2
fetch2-store2_other m a b c h k (inl d) = ground arith
fetch2-store2_other m a b c h k (inr d) = ground arith

-- A stack that does not cross a 64 KiB segment, with room for three words.
pub record HasRoom (regs : ℕ → ℕ) : Type 0 where
  pub aligned : regs 11 % 2 ^ 12 ≡ 0
  pub low : 6 ≤ regs 3
  pub high : regs 3 < 2 ^ 16

-- Its place, and the place and the offset after `n` bytes are pushed.
sp_lem :
    (regs : ℕ → ℕ)
    → HasRoom regs
    → (6 ≤ v86_sp regs) × (v86_sp regs < 2 ^ 20) × (v86_sp regs % 2 ^ 16 ≡ regs 3)
sp_lem regs w =
    (omega (arith, w.aligned, w.low, w.high), omega arith, omega (arith, w.aligned, w.low, w.high))

below_lem :
    (regs : ℕ → ℕ) (n : ℕ)
    → HasRoom regs
    → n ≤ 6
    → let p = v86_sp regs - n in
      (sub32 (v86_sp regs) n ≡ p)
      × (p % 2 ^ 16 ≡ regs 3 - n)
      × ((regs 11 * 16 + (regs 3 - n)) % 2 ^ 20 ≡ p)
below_lem regs n w h = (
  omega (arith, sp_lem regs w),
  omega (arith, w.aligned, w.low, w.high),
  omega (arith, w.aligned, w.low, w.high),
)

module _ (int_num : ℕ) (regs : ℕ → ℕ) (mem : Bytes) (done : Bool) (w : HasRoom regs) where
  abbrev after_int : Emulated
  after_int = emulate_int int_num regs mem done

  -- The stack pointer after the three pushes.
  int_sp : v86_sp after_int.regs ≡ v86_sp regs - 6
  unfolding emulate_int
  int_sp = let (a, b, c) = below_lem regs 6 w (omega arith) in rw (a, b) c

  -- The three words on the stack.
  int_words :
      let p = v86_sp regs in
      (fetch2 after_int.mem (p - 6) ≡ (regs 8 + 2) % 2 ^ 16)
      × (fetch2 after_int.mem (p - 4) ≡ regs 9 % 2 ^ 16)
      × (fetch2 after_int.mem (p - 2) ≡ regs 10 % 2 ^ 16)
  unfolding emulate_int
  int_words =
      let p = v86_sp regs in
      let (low, high, seg) = sp_lem regs w in
      let (a, a', a'') = below_lem regs 2 w (omega arith) in
      let (b, b', b'') = below_lem regs 4 w (omega arith) in
      let (c, c', c'') = below_lem regs 6 w (omega arith) in
      let m1 = store2 mem (p - 2) (regs 10 % 2 ^ 16) in
      let m2 = store2 m1 (p - 4) (regs 9 % 2 ^ 16) in
      rw (a, b, c)
        (
          fetch2-store2 m2 (p - 6) ((regs 8 + 2) % 2 ^ 16) (omega arith) ∙ omega arith,
          fetch2-store2_other m2 (p - 6) (p - 4) ((regs 8 + 2) % 2 ^ 16) (omega arith) (omega arith)
                (inl (omega arith))
              ∙ fetch2-store2 m1 (p - 4) (regs 9 % 2 ^ 16) (omega arith)
              ∙ omega arith,
          fetch2-store2_other m2 (p - 6) (p - 2) ((regs 8 + 2) % 2 ^ 16) (omega arith) (omega arith)
                (inl (omega arith))
              ∙ fetch2-store2_other m1 (p - 4) (p - 2) (regs 9 % 2 ^ 16) (omega arith) (omega arith)
                  (inl (omega arith))
              ∙ fetch2-store2 mem (p - 2) (regs 10 % 2 ^ 16) (omega arith)
              ∙ omega arith,
        )

  int_regs : (i : ℕ) → i ≢ 3 → i ≢ 8 → i ≢ 9 → after_int.regs i ≡ regs i
  unfolding emulate_int
  int_regs i h k l = ground arith

  -- What the return makes of each word.
  iret_lem :
      (done' : Bool) (i : ℕ)
      → regs 8 + 2 < 2 ^ 16
      → regs 9 < 2 ^ 16
      → (emulate_iret after_int.regs after_int.mem done').regs i
        ≡ (if i == 8 then regs 8 + 2 else regs i)
  unfolding emulate_iret
  iret_lem done' i h k =
      let p = v86_sp regs in
      let (low, high, seg) = sp_lem regs w in
      let (ip, cs, flags) = int_words in
      let four : add32 (p - 6) 2 ≡ p - 4 = omega arith in
      let two : add32 (p - 6) 4 ≡ p - 2 = omega arith in
      let top : add32 (p - 6) 6 ≡ p = omega arith in
      let ten = int_regs 10 (omega arith) (omega arith) (omega arith) in
      let ip' : (regs 8 + 2) % 2 ^ 16 ≡ regs 8 + 2 = omega arith in
      let cs' : regs 9 % 2 ^ 16 ≡ regs 9 = omega arith in
      rw (int_sp, four, two, top, seg, ip, cs, flags, ip', cs')
        (elim (ℕ_discrete i 3) [
          | yes a ↦ rw a refl
          | no a ↦ elim (ℕ_discrete i 8) [
            | yes b ↦ rw b refl
            | no b ↦ elim (ℕ_discrete i 9) [
              | yes c ↦ rw c refl
              | no c ↦ elim (ℕ_discrete i 10) [
                | yes d ↦ rw (d, ten) (omega arith)
                | no d ↦ ground (arith, a, b, c, d, int_regs i a b c)
              ]
            ]
          ]
        ])

emulate_instruction-int :
    (ip : ℕ) (regs : ℕ → ℕ) (mem : Bytes) (done : Bool)
    → mem ip ≡ 0xCD
    → mem (add32 ip 1) ≢ 0xFF
    → emulate_instruction ip regs mem done ≡ emulate_int (mem (add32 ip 1)) regs mem done
unfolding emulate_instruction
emulate_instruction-int ip regs mem done op other =
    let test : (mem (add32 ip 1) == 0xFF) ≡ false = ground (arith, other) in rw (op, test)

emulate_instruction-iret :
    (ip : ℕ) (regs : ℕ → ℕ) (mem : Bytes) (done : Bool)
    → mem ip ≡ 0xCF
    → emulate_instruction ip regs mem done ≡ emulate_iret regs mem done
unfolding emulate_instruction
emulate_instruction-iret ip regs mem done op = rw op

-- An INT n instruction other than INT 0xFF, and the IRET of its handler, when the interrupt vector
-- leads to one: all words of the frame are as before, but for the instruction pointer, which is
-- after the INT. The code segment and that pointer have 16 bits, and the stack segment is a
-- multiple of 0x1000, with room for three words below a stack pointer of 16 bits.
pub emulate_int-emulate_iret :
    (ip ip' : ℕ) (regs : ℕ → ℕ) (mem : Bytes) (done done' : Bool) (i : ℕ)
    → HasRoom regs
    → regs 8 + 2 < 2 ^ 16
    → regs 9 < 2 ^ 16
    → mem ip ≡ 0xCD
    → mem (add32 ip 1) ≢ 0xFF
    → (emulate_instruction ip regs mem done).mem ip' ≡ 0xCF
    → let e = emulate_instruction ip regs mem done in
      (emulate_instruction ip' e.regs e.mem done').regs i ≡ (if i == 8 then regs 8 + 2 else regs i)
emulate_int-emulate_iret ip ip' regs mem done done' i w h k op other ret =
    let e = emulate_instruction ip regs mem done in
    ap (λ t. t.regs i) (emulate_instruction-iret ip' e.regs e.mem done' ret)
    ∙ ap (λ t. (emulate_iret t.regs t.mem done').regs i)
        (emulate_instruction-int ip regs mem done op other)
    ∙ iret_lem (mem (add32 ip 1)) regs mem done w done' i h k
