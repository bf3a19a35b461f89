-- ===== src/Keyboard/Irq.antt =====
-- kernel/keyboard.c: what the interrupt handler and keyboard_getchar make of the scancodes.
use os_u.Prelude.{
  ℕ, ◌+◌, ◌/◌, ◌%◌, ◌≤◌, ◌≡◌, ◌≢◌, ◌⊎◌, refl, Bool, true, false, ◌||◌, Option, none, some, List, [],
  ◌∷◌, ◌++◌, append-nil, append_assoc, arith, length, length-append, get_or, ◌==◌, if◌then◌else◌,
  inl, inr,
}
use os_u.Keyboard.{
  Keyboard, map_normal, map_shift, translate_extended, enqueue_char, irq_handler, keyboard_getchar,
}
use os_u.Keyboard.Queue.{
  IsValid, contents, enqueue_char-contents, enqueue_char-IsValid, dequeue_char-contents, uncons,
}

-- Whether a scancode is the prefix, a shift key, or the release of a key.
abbrev pub is_control : ℕ → Bool
is_control sc = sc == 0xE0 || sc == 0x2A || sc == 0x36 || sc / 0x80 % 2 == 1

-- The keymap that applies.
abbrev pub key_of : Bool → Bool → ℕ → ℕ
key_of shift true sc = translate_extended sc
key_of true false sc = get_or map_shift sc 0
key_of false false sc = get_or map_normal sc 0

-- A keyboard as a transducer: the character that a scancode types (0 for none), and the new modes.
abbrev pub typed : Bool → Bool → ℕ → ℕ
typed shift ext sc = if is_control sc then 0 else key_of shift ext sc

abbrev pub next_shift : Bool → ℕ → Bool
next_shift shift sc =
    if sc == 0x2A || sc == 0x36 then true else if sc == 0xAA || sc == 0xB6 then false else shift

-- The text that a list of scancodes types.
pub decode : Bool → Bool → List ℕ → List ℕ
decode shift ext [] = []
decode shift ext (sc ∷ scs) =
    let rest = decode (next_shift shift sc) (sc == 0xE0) scs in
    let c = typed shift ext sc in if c == 0 then rest else c ∷ rest

enqueue_char-modes :
    (k : Keyboard) (c : ℕ)
    → ((enqueue_char k c).shift_down ≡ k.shift_down)
      × ((enqueue_char k c).extended_key ≡ k.extended_key)
unfolding enqueue_char
enqueue_char-modes k c = ground arith

-- One interrupt: at most one character is queued, the one that the modes and the scancode say.
pub irq_handler-contents :
    (k : Keyboard) (sc : ℕ)
    → IsValid k
    → let c = typed k.shift_down k.extended_key sc in
      (contents (irq_handler k sc) ≡ (
        if c == 0
        then contents k
        else (if length (contents k) == 255 then contents k else contents k ++ c ∷ [])))
      × ((irq_handler k sc).shift_down ≡ next_shift k.shift_down sc)
      × ((irq_handler k sc).extended_key ≡ (sc == 0xE0))
unfolding irq_handler
irq_handler-contents k sc v =
    let c = key_of k.shift_down k.extended_key sc in
    let k' = record k { extended_key = false } in
    ground (arith, enqueue_char-contents k' c, enqueue_char-modes k' c)

pub irq_handler-IsValid : (k : Keyboard) (sc : ℕ) → IsValid k → IsValid (irq_handler k sc)
unfolding irq_handler
irq_handler-IsValid k sc v =
    let c = key_of k.shift_down k.extended_key sc in
    ground (arith, enqueue_char-IsValid (record k { extended_key = false }) c)

-- The handler run on scancodes in order.
pub irq_run : Keyboard → List ℕ → Keyboard
irq_run k [] = k
irq_run k (sc ∷ scs) = irq_run (irq_handler k sc) scs

-- With head and tail within the buffer and room in the queue for a character for each scancode,
-- interrupts append to the queue the text that the scancodes type.
pub irq_run-contents :
    (k : Keyboard) (scs : List ℕ)
    → IsValid k
    → length (contents k) + length scs ≤ 255
    → contents (irq_run k scs) ≡ contents k ++ decode k.shift_down k.extended_key scs
unfolding irq_run decode
irq_run-contents k [] v h = rw append-nil
irq_run-contents k (sc ∷ scs) v h =
    let c = typed k.shift_down k.extended_key sc in
    let k' = irq_handler k sc in
    ground (
      arith,
      irq_handler-contents k sc v,
      irq_run-contents k' scs (irq_handler-IsValid k sc v),
      length-append {0} (contents k) (c ∷ []),
      append_assoc (contents k) (c ∷ []) (decode k'.shift_down k'.extended_key scs),
    )

-- The character of a result of keyboard_getchar.
abbrev pub char_of : Option (ℕ × Keyboard × List ℕ) → Option ℕ
char_of none = none
char_of (some (c, k, scs)) = some c

abbrev pub first : List ℕ → Option ℕ
first [] = none
first (c ∷ cs) = some c

uncons-first :
    (l : List ℕ) (ys : List ℕ)
    → ((uncons l).0 ≡ first l)
      × ((l ≡ []) ⊎ (((uncons l).0 ≢ none) × (first (l ++ ys) ≡ (uncons l).0)))
unfolding uncons
uncons-first [] ys = (refl, inl refl)
uncons-first (c ∷ l) ys = (refl, inr ((λ e. cc), refl))

-- With head and tail within the buffer, keyboard_getchar returns the oldest waiting character; with
-- none waiting, the first character that the coming scancodes type; and it goes on waiting exactly
-- when they type none.
pub getchar-first :
    (k : Keyboard) (scs : List ℕ)
    → IsValid k
    → char_of (keyboard_getchar k scs)
      ≡ first (contents k ++ decode k.shift_down k.extended_key scs)
unfolding keyboard_getchar decode
getchar-first k [] v =
    ground (arith, dequeue_char-contents k v, uncons-first (contents k) [], append-nil (contents k))
getchar-first k (sc ∷ scs) v =
    let k' = irq_handler k sc in
    ground (
      arith,
      dequeue_char-contents k v,
      uncons-first (contents k) (decode k.shift_down k.extended_key (sc ∷ scs)),
      irq_handler-contents k sc v,
      getchar-first k' scs (irq_handler-IsValid k sc v),
    )
