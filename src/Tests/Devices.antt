-- ===== src/Tests/Devices.antt =====
-- Inputs of the heap and of the drivers: kernel/memory.c, keyboard.c, disk.c and mouse.c.
use os_u.Prelude.{
  ℕ, ◌+◌, ◌-◌, ◌*◌, ◌%◌, ◌≤◌, ◌<◌, ◌≡◌, ◌≢◌, ◌⊎◌, refl, true, false, none, some, List, [], ◌∷◌,
  ◌++◌, arith, Bytes, if◌then◌else◌, in_range,
}
use os_u.Heap.{Heap, kmalloc}
use os_u.Heap.Laws as HeapLaws
use os_u.Heap.Laws.{memory_init-IsValid, kmalloc_lem, kmalloc-wraps}
use os_u.Keyboard.{Keyboard, dequeue_char, keyboard_getchar}
use os_u.Keyboard.Queue as KeyboardQueue
use os_u.Keyboard.Queue.{
  contents, uncons, enqueue_char-contents, dequeue_char-contents, dequeue_char_interrupted,
}
use os_u.Keyboard.Irq.{first, decode, char_of, irq_run, getchar-first, irq_run-contents}
use os_u.Keyboard.Line.{Line, NoNewline, keyboard_readline, text, edit_all, keyboard_readline_lem}
use os_u.Disk.{Disk, ata_select_lba, disk_read_sectors, disk_write_sectors}
use os_u.Disk.Laws.{disk_read-write}
use os_u.Disk.Poll.{AllBusy, AllIdle}
use os_u.Mouse.{Mouse}
use os_u.Mouse.Laws as MouseLaws
use os_u.Mouse.Laws.{mouse-IsValid, packet_moves}

abbrev forty : ℕ
forty = 40

abbrev three : ℕ
three = 3

abbrev heap : Heap
heap = record { start = 0x100000; limit = 0x400000; curr = 0x100000 }

heap-IsValid : HeapLaws.IsValid heap
heap-IsValid = record { aligned = refl; above = omega arith; below = omega arith; limit_lem = refl }

-- The letter a waits in the last place of the buffer.
abbrev waiting : Keyboard
waiting = record { buf = λ i. b'a'; head = 0; tail = 255; shift_down = false; extended_key = false }

waiting-IsValid : KeyboardQueue.IsValid waiting
waiting-IsValid = record { head_in = omega arith; tail_in = omega arith }

-- Shift, H, shift up, I.
abbrev keys_typed : List ℕ
keys_typed = 0x2A ∷ 0x23 ∷ 0xAA ∷ 0x17 ∷ []

abbrev pattern : Bytes
pattern = λ i. i % 251

abbrev nines : Bytes
nines = λ i. 9

abbrev drive : Disk
drive = record { sector = λ l j. 0; polls = [] }

abbrev pointer : Mouse
pointer = record {
  x = 100;
  y = 100;
  buttons = 0;
  dx = 0;
  dy = 0;
  updated = false;
  screen_w = 320;
  screen_h = 200;
  packet0 = 0;
  packet1 = 0;
  packet_index = 0;
}

pointer-IsValid : MouseLaws.IsValid pointer
pointer-IsValid = record {
  on_screen_x = omega arith;
  on_screen_y = omega arith;
  partial = omega arith;
}

waiting-some : (dequeue_char waiting).0 ≢ none
unfolding dequeue_char
waiting-some = λ h. cc

no_newline : NoNewline (b'a' ∷ 8 ∷ b'b' ∷ [])
no_newline = ground arith

selected :
    ata_select_lba 0x1234567 3
    ≡ (0x1F6, 0xE1) ∷ (0x1F2, 3) ∷ (0x1F3, 0x67) ∷ (0x1F4, 0x45) ∷ (0x1F5, 0x23) ∷ []
unfolding ata_select_lba
selected = refl

busy_statuses : AllBusy (0x80 ∷ 0xD0 ∷ [])
busy_statuses = (refl, (refl, tt))

idle_statuses : AllIdle (0x50 ∷ [])
idle_statuses = (refl, refl, refl, tt)

kmalloc_lem_example :
    let (r, h') = kmalloc heap forty in
    ((r ≡ none) × (h' ≡ heap) × ((forty ≡ 0) ⊎ (heap.limit < heap.curr + forty)))
    ⊎ ((r ≡ some heap.curr)
        × (heap.curr % 16 ≡ 0)
        × (0 < forty)
        × (heap.curr + forty ≤ h'.curr)
        × (h'.curr ≤ heap.limit)
        × (h'.start ≡ heap.start)
        × HeapLaws.IsValid h')
kmalloc_lem_example = kmalloc_lem heap forty heap-IsValid (omega arith)

getchar-first_example :
    char_of (keyboard_getchar waiting keys_typed)
    ≡ first (contents waiting ++ decode waiting.shift_down waiting.extended_key keys_typed)
getchar-first_example = getchar-first waiting keys_typed waiting-IsValid

irq_run-contents_example :
    contents (irq_run waiting keys_typed)
    ≡ contents waiting ++ decode waiting.shift_down waiting.extended_key keys_typed
irq_run-contents_example = irq_run-contents waiting keys_typed waiting-IsValid (omega arith)

keyboard_readline_lem_example :
    (l : Line) × (keyboard_readline nines 3 ((b'a' ∷ 8 ∷ b'b' ∷ []) ++ b'\n' ∷ (b'c' ∷ []))
      ≡ some (l, (b'c' ∷ [])))
    × (text l ≡ edit_all (3 - 1) [] (b'a' ∷ 8 ∷ b'b' ∷ []))
    × (l.buf l.count ≡ 0)
    × (l.count < 3)
    × ((j : ℕ) → 3 ≤ j → l.buf j ≡ nines j)
keyboard_readline_lem_example =
    keyboard_readline_lem nines 3 (b'a' ∷ 8 ∷ b'b' ∷ []) (b'c' ∷ []) (omega arith) no_newline

disk_read-write_example :
    let (written, d') = disk_write_sectors drive 5 2 pattern in
    let (done, buf', d'') = disk_read_sectors d' 5 2 nines 512 in
    (written ≡ true)
    × (done ≡ true)
    × ((j : ℕ) → buf' j ≡ (if in_range 512 (2 * 512) j then pattern (j - 512) else nines j))
disk_read-write_example = disk_read-write drive 5 2 pattern nines 512 refl
