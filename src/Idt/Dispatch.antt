-- ===== src/Idt/Dispatch.antt =====
-- kernel/idt.c: what isr_handler_c does with an interrupt.
use os_u.Prelude.{
  ℕ, leb, true, false, Bool, ◌≢◌, ◌⊎◌, ◌≤◌, ◌<◌, ◌/◌, ◌%◌, ◌^◌, ◌≡◌, inl, inr, refl, ◌∙◌, ap, ◌&&◌,
  Bool-cases, List, [], ◌∷◌, ◌++◌, append-nil, append_assoc, ltb, ◌==◌, not, if◌then◌else◌, arith,
}
use os_u.V86.{Fault, v86_handle_gpf}
use os_u.Idt.{Machine, Event, out, exception, call_handler, acknowledge, after_gpf, isr_handler_c}

-- The ends of interrupt that a vector calls for: the lines 0 to 7 are the master's, and 8 to 15 the slave's.
abbrev pub eoi : ℕ → List Event
eoi n =
    if ltb n 32
    then []
    else if ltb n 40
    then out 0x20 0x20 ∷ []
    else if ltb n 48
    then out 0xA0 0x20 ∷ out 0x20 0x20 ∷ []
    else []

handled_lem : (f : Fault) → (v86_handle_gpf f).0 ≡ (f.v86.active && not (f.esp 2 / 2 ^ 17 % 2 == 0))
unfolding v86_handle_gpf
handled_lem f = elim (Bool-cases f.v86.active) [
  | inl a ↦ elim (Bool-cases (f.esp 2 / 2 ^ 17 % 2 == 0)) [ inl e ↦ rw (a, e) | inr e ↦ rw (a, e) ]
  | inr a ↦ rw a
]

-- The same machine with further events.
abbrev pub and_then : Machine → List Event → Machine
and_then m e = record m { events = m.events ++ e }

acknowledge_lem : (m : Machine) → acknowledge m ≡ and_then m (eoi (m.regs 12))
unfolding acknowledge
acknowledge_lem m =
    let two = append_assoc m.events (out 0xA0 0x20 ∷ []) (out 0x20 0x20 ∷ []) in
    let with_events : List Event → Machine = λ e. record m { events = e } in
    let same : (if leb 32 (m.regs 12) && leb (m.regs 12) 47
          then (if leb 40 (m.regs 12)
              then (m.events ++ (out 0xA0 0x20 ∷ [])) ++ (out 0x20 0x20 ∷ [])
              else m.events ++ (out 0x20 0x20 ∷ []))
          else m.events)
        ≡ m.events ++ eoi (m.regs 12) =
      ground (arith, append-nil m.events, two) in
    ground arith ∙ ap with_events same

-- What call_handler does: by the handler of the vector, by the message of an exception, or nothing.
call_handler_lem :
    (call : ℕ → Machine → Machine) (m : Machine)
    → let n = m.regs 12 in
      ((m.handlers n ≢ 0) × (call_handler call m ≡ call (m.handlers n) m))
      ⊎ ((m.handlers n ≡ 0)
          × (n < 32)
          × (call_handler call m ≡ and_then m (exception n (m.regs 13) ∷ [])))
      ⊎ ((m.handlers n ≡ 0) × (32 ≤ n) × (call_handler call m ≡ m))
unfolding call_handler
call_handler_lem call m = ground arith

-- With handlers that leave the number of the interrupt, an interrupt does one of four things. A fault of
-- vector 13, while the driver is active and bit 17 of the word 2 is set, is left to v86_handle_gpf,
-- and nothing else is done. Any other interrupt calls the handler of its vector, if there is one;
-- without one an exception, a vector below 32, is reported with its error code, and of another vector
-- nothing is made. Then the end of the interrupt is told to the controllers it came through, the slave
-- first: the lines 0 to 7 are the master's, and 8 to 15 the slave's.
pub isr_handler_c_lem :
    (call : ℕ → Machine → Machine) (m : Machine)
    → ((h : ℕ) (m : Machine) → (call h m).regs 12 ≡ m.regs 12)
    → let n = m.regs 12 in
      let taken = n == 13 && (m.v86.active && not (m.regs 2 / 2 ^ 17 % 2 == 0)) in
      let fault : Fault = record { v86 = m.v86; esp = m.regs; mem = m.mem } in
      let result = isr_handler_c call m in
      ((taken ≡ true) × (result ≡ after_gpf m (v86_handle_gpf fault).1))
      ⊎ ((taken ≡ false) × (m.handlers n ≢ 0) × (result ≡ and_then (call (m.handlers n) m) (eoi n)))
      ⊎ ((taken ≡ false)
          × (m.handlers n ≡ 0)
          × (n < 32)
          × (result ≡ and_then (and_then m (exception n (m.regs 13) ∷ [])) (eoi n)))
      ⊎ ((taken ≡ false) × (m.handlers n ≡ 0) × (32 ≤ n) × (result ≡ and_then m (eoi n)))
unfolding isr_handler_c
isr_handler_c_lem call m keeps =
    let n = m.regs 12 in
    let f : Fault = record { v86 = m.v86; esp = m.regs; mem = m.mem } in
    let taken = n == 13 && (m.v86.active && not (m.regs 2 / 2 ^ 17 % 2 == 0)) in
    let test : (n == 13 && (m.v86.active && (v86_handle_gpf f).0)) ≡ taken =
      ap (λ t. n == 13 && (m.v86.active && t)) (handled_lem f) ∙ ground arith in
    let run : isr_handler_c call m
        ≡ (if taken then after_gpf m (v86_handle_gpf f).1 else acknowledge (call_handler call m)) =
      ap
        (λ (t : Bool).
          if t then after_gpf m (v86_handle_gpf f).1 else acknowledge (call_handler call m))
        test in
    let ended : (a : Machine)
        → call_handler call m ≡ a
        → a.regs 12 ≡ n
        → taken ≡ false
        → isr_handler_c call m ≡ and_then a (eoi n) =
      λ a e same no.
        run
        ∙ rw no (acknowledge_lem (call_handler call m))
        ∙ ap (λ b. and_then b (eoi (b.regs 12))) e
        ∙ ap (λ k. and_then a (eoi k)) same in
    elim (Bool-cases taken) [
      | inl y ↦ inl (y, run ∙ rw y refl)
      | inr x ↦ elim (call_handler_lem call m) [
        | inl (h, e) ↦ inr (inl (x, h, ended (call (m.handlers n) m) e (keeps (m.handlers n) m) x))
        | inr (inl (h, l, e)) ↦
            inr (inr (inl (x, h, l, ended (and_then m (exception n (m.regs 13) ∷ [])) e refl x)))
        | inr (inr (h, l, e)) ↦ inr (inr (inr (x, h, l, ended m e refl x)))
      ]
    ]
