-- ===== src/Syscall/Laws.antt =====
-- kernel/syscall.c: reading and writing through the system calls.
use os_u.Prelude.{
  ℕ, zero, suc, ◌+◌, ◌^◌, ◌%◌, ◌<◌, ◌≡◌, ◌≢◌, refl, sym, ap, ◌∙◌, Option, none, some, List, [], ◌∷◌,
  ◌++◌, length, Bytes, Holds, update, arith,
}
use mathlib.Core.Path.{subst}
use os_u.Keyboard.Line.{NoNewline}
use os_u.Vga.{Vga, vga_putc, vga_puts}
use os_u.Process.Defs.{stay}
use os_u.Syscall.{
  System, Registers, Outcome, returns, waits, call_of, do_call, write_loop, read_loop, sys_write,
  sys_read, syscall_handler,
}

-- No character is NUL.
abbrev NoNul : List ℕ → Type 0
NoNul [] = Unit
NoNul (c ∷ s) = (c ≢ 0) × NoNul s

-- What sys_write prints is the text, as vga_puts prints it.
write_loop-vga_puts :
    (mem : Bytes) (buf : ℕ) (text : List ℕ) (v : Vga)
    → Holds mem buf text
    → NoNul text
    → buf + length text < 2 ^ 32
    → write_loop mem buf (length text) v ≡ vga_puts v text
unfolding write_loop vga_puts
write_loop-vga_puts mem buf [] v h nn l = refl
write_loop-vga_puts mem buf (c ∷ text) v h nn l =
    let e : (buf + 1) % 2 ^ 32 ≡ buf + 1 = omega arith in
    let rec = write_loop-vga_puts mem (buf + 1) text (vga_putc v c) h.1 nn.1 (omega arith) in
    ground (arith, e, h.0, nn.0, rec)

-- A line that is typed is read into the buffer up to its newline, which is stored too.
read_loop-line :
    (line keys : List ℕ) (n i buf : ℕ) (mem : Bytes)
    → NoNewline line
    → length line < n
    → buf + i + length line + 1 < 2 ^ 32
    → (mem' : Bytes) × (read_loop n i buf mem (line ++ b'\n' ∷ keys)
        ≡ some (i + length line + 1, mem', keys))
      × Holds mem' (buf + i) (line ++ b'\n' ∷ [])
      × ((j : ℕ) → j < buf + i → mem' j ≡ mem j)
unfolding read_loop
read_loop-line line keys zero i buf mem nn h l = absurd (omega arith)
read_loop-line [] keys (suc n) i buf mem nn h l =
    let e : (buf + i) % 2 ^ 32 ≡ buf + i = omega arith in
    (
      update mem ((buf + i) % 2 ^ 32) b'\n',
      ap (λ k. some (k, update mem ((buf + i) % 2 ^ 32) b'\n', keys)) (omega arith),
      (ground (arith, e), tt),
      λ j k. ground (arith, e, k),
    )
read_loop-line (c ∷ line) keys (suc n) i buf mem nn h l =
    let e : (buf + i) % 2 ^ 32 ≡ buf + i = omega arith in
    let put = update mem ((buf + i) % 2 ^ 32) c in
    let (mem', read, holds, same) =
      read_loop-line line keys n (i + 1) buf put nn.1 (omega arith) (omega arith) in
    let here : mem' (buf + i) ≡ c = same (buf + i) (omega arith) ∙ ground (arith, e) in
    let place : buf + (i + 1) ≡ buf + i + 1 = omega arith in
    (
      mem',
      ground (arith, nn.0, read),
      (here, subst (λ p. Holds mem' p (line ++ b'\n' ∷ [])) place holds),
      λ j k. same j (omega arith) ∙ ground (arith, e, k),
    )

length-line : (line : List ℕ) → length (line ++ b'\n' ∷ []) ≡ length line + 1
length-line [] = refl
length-line (c ∷ line) = ap suc (length-line line) ∙ omega arith

NoNul-line : (line : List ℕ) → NoNul line → NoNul (line ++ b'\n' ∷ [])
NoNul-line [] h = ((λ e. omega arith), tt)
NoNul-line (c ∷ line) h = (h.0, NoNul-line line h.1)

-- The outcome of a read from the standard input.
abbrev read_outcome : System → ℕ → ℕ → Option (ℕ × Bytes × List ℕ) → Outcome Registers
read_outcome s buf count none = waits
read_outcome s buf count (some (n, mem, keys)) =
    returns (record { eax = n; ebx = 0; ecx = buf; edx = count }) stay
      (record s { mem = mem; keys = keys })

syscall_read :
    (s : System) (buf count : ℕ)
    → syscall_handler (record { eax = 2; ebx = 0; ecx = buf; edx = count }) s
      ≡ read_outcome s buf count (read_loop count 0 buf s.mem s.keys)
unfolding syscall_handler call_of do_call sys_read
syscall_read s buf count = fuse (read_loop count 0 buf s.mem s.keys)
  where
    stored : Option (ℕ × Bytes × List ℕ) → Option (ℕ × System)
    stored o = elim o [
      | none ↦ none
      | some (n, mem, keys) ↦ some (n, record s { mem = mem; keys = keys })
    ]

    fuse :
        (o : Option (ℕ × Bytes × List ℕ))
        → (elim (stored o) [
          | none ↦ waits
          | some (n, s') ↦ returns (record { eax = n; ebx = 0; ecx = buf; edx = count }) stay s'
        ])
          ≡ read_outcome s buf count o
    fuse none = refl
    fuse (some r) = refl

-- A read from the standard input returns with the next line that is typed, if it is shorter than the
-- buffer, and a write of what was read to the standard output then prints that line.
pub write-read :
    (line keys : List ℕ) (buf count : ℕ) (s : System)
    → NoNewline line
    → NoNul line
    → length line < count
    → buf + length line + 1 < 2 ^ 32
    → s.keys ≡ line ++ b'\n' ∷ keys
    → (mem : Bytes) × (syscall_handler (record { eax = 2; ebx = 0; ecx = buf; edx = count }) s
        ≡ returns
            (record { eax = length line + 1; ebx = 0; ecx = buf; edx = count })
            stay
            (record s { mem = mem; keys = keys }))
      × (syscall_handler
            (record { eax = 1; ebx = 1; ecx = buf; edx = length line + 1 })
            (record s { mem = mem; keys = keys })
          ≡ returns
              (record { eax = length line + 1; ebx = 1; ecx = buf; edx = length line + 1 })
              stay
              (record s {
                mem = mem;
                keys = keys;
                screen = vga_puts s.screen (line ++ b'\n' ∷ []);
              }))
unfolding syscall_handler call_of do_call sys_read sys_write
write-read line keys buf count s nn nz h l e =
    let (mem, read, holds, same) = read_loop-line line keys count 0 buf s.mem nn h (omega arith) in
    let text = line ++ b'\n' ∷ [] in
    let buf' : buf + 0 ≡ buf = omega arith in
    let len = length-line line in
    let printed =
      write_loop-vga_puts mem buf text s.screen (subst (λ p. Holds mem p text) buf' holds)
        (NoNul-line line nz) (omega arith) in
    let shown : write_loop mem buf (length line + 1) s.screen ≡ vga_puts s.screen text =
      ap (λ n. write_loop mem buf n s.screen) (sym len) ∙ printed in
    let result = read_outcome s buf count in
    (
      mem,
      syscall_read s buf count
          ∙ ap (λ k. result (read_loop count 0 buf s.mem k)) e
          ∙ ap result (read ∙ ap (λ n. some (n, mem, keys)) (omega arith)),
      ap
          (λ v.
            returns (record { eax = length line + 1; ebx = 1; ecx = buf; edx = length line + 1 })
              stay (record s { mem = mem; screen = v; keys = keys }))
          shown,
    )
