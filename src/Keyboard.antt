-- ===== src/Keyboard.antt =====
-- kernel/keyboard.c: the key buffer, the interrupt handler and the blocking reads.
mod Keymap
pub mod Queue
pub mod Irq
pub mod Line
unfoldable pub use Keymap.{map_normal, map_shift, translate_extended}
use os_u.Prelude.{
  ℕ, ◌+◌, ◌/◌, ◌%◌, Bool, true, false, ◌&&◌, ◌||◌, Option, none, some, List, [], ◌∷◌, Bytes, update,
  get_or, ◌==◌, if◌then◌else◌, zero, suc,
}

-- The static variables. `buf` is `kbd_buf`, 256 characters; `head` and `tail` are below 256.
pub record Keyboard : Type 0 where
  pub buf : Bytes
  pub head : ℕ
  pub tail : ℕ
  pub shift_down : Bool
  pub extended_key : Bool

abbrev pub buf_size : ℕ
buf_size = 256

-- `enqueue_char`: a full buffer drops the character.
unfoldable pub enqueue_char : Keyboard → ℕ → Keyboard
enqueue_char k c =
    let next = (k.head + 1) % buf_size in
    if next == k.tail then k else record k { buf = update k.buf k.head c; head = next }

-- `dequeue_char`: the character that goes through `out`, or `none` for the result 0.
unfoldable pub dequeue_char : Keyboard → Option ℕ × Keyboard
dequeue_char k =
    if k.head == k.tail
    then (none, k)
    else (some (k.buf k.tail), record k { tail = (k.tail + 1) % buf_size })

-- `keyboard_irq_handler`, for the byte read from the data port.
unfoldable pub irq_handler : Keyboard → ℕ → Keyboard
irq_handler k scancode =
    if scancode == 0xE0
    then record k { extended_key = true }
    else if scancode == 0x2A || scancode == 0x36
    then record k { shift_down = true; extended_key = false }
    else if scancode == 0xAA || scancode == 0xB6
    then record k { shift_down = false; extended_key = false }
    else if scancode / 0x80 % 2 == 1
    then record k { extended_key = false }
    else (let ch =
          if k.extended_key
          then translate_extended scancode
          else (if k.shift_down
              then get_or map_shift scancode 0
              else get_or map_normal scancode 0) in
        let k' = record k { extended_key = false } in if ch == 0 then k' else enqueue_char k' ch)

-- The variables after `keyboard_init`, before any key. That it registers the handler, and its commands
-- to the controller, are not modelled.
unfoldable pub keyboard_init : Bytes → Keyboard
keyboard_init b = record { buf = b; head = 0; tail = 0; shift_down = false; extended_key = false }

-- `keyboard_flush`
unfoldable pub keyboard_flush : Keyboard → Keyboard
keyboard_flush k = record k { head = 0; tail = 0; extended_key = false }

-- `keyboard_getchar`: the list holds the scancodes of the interrupts that come while it halts. The
-- result is the character, the state and the scancodes not yet seen, or `none` if it still waits.
unfoldable pub keyboard_getchar : Keyboard → List ℕ → Option (ℕ × Keyboard × List ℕ)
keyboard_getchar k [] = elim ((dequeue_char k).0) [
  | none ↦ none
  | some c ↦ some (c, (dequeue_char k).1, [])
]
keyboard_getchar k (sc ∷ scs) = elim ((dequeue_char k).0) [
  | none ↦ keyboard_getchar (irq_handler k sc) scs
  | some c ↦ some (c, (dequeue_char k).1, sc ∷ scs)
]
