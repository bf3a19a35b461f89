-- ===== src/Keyboard/Queue.antt =====
-- kernel/keyboard.c: the ring of characters is a queue of at most 255.
use mathlib.Core.Logic.{◌≢◌}
use os_u.Prelude.{
  ℕ, zero, suc, ◌+◌, ◌-◌, ◌%◌, ◌<◌, ◌≡◌, refl, ap, ap₂, Option, none, some, List, [], ◌∷◌, ◌++◌,
  arith, length, Bytes, update, ◌==◌, if◌then◌else◌,
}
use os_u.Keyboard.{Keyboard, enqueue_char, dequeue_char}

-- Both indices lie in the buffer.
pub record IsValid (k : Keyboard) : Type 0 where
  pub head_in : k.head < 256
  pub tail_in : k.tail < 256

-- How many characters wait.
abbrev pub pending : Keyboard → ℕ
pending k = (k.head + 256 - k.tail) % 256

-- The `n` characters from index `t` on, going round at 256.
abbrev pub window : Bytes → ℕ → ℕ → List ℕ
window b t zero = []
window b t (suc n) = b t ∷ window b ((t + 1) % 256) n

-- The characters that wait, oldest first.
abbrev pub contents : Keyboard → List ℕ
contents k = window k.buf k.tail (pending k)

pub length-window : (b : Bytes) (t n : ℕ) → length (window b t n) ≡ n
length-window b t zero = refl
length-window b t (suc n) = ap suc (length-window b ((t + 1) % 256) n)

window_of_pos :
    (b : Bytes) (t n : ℕ) → 0 < n → window b t n ≡ b t ∷ window b ((t + 1) % 256) (n - 1)
window_of_pos b t zero p = absurd (omega arith)
window_of_pos b t (suc n) p = ap (λ k. window b t (suc k)) (omega arith)

-- Writing just past a window extends it by that character.
window-update :
    (b : Bytes) (c n t i : ℕ)
    → t < 256
    → n < 256
    → i ≡ (t + n) % 256
    → window (update b i c) t (suc n) ≡ window b t n ++ c ∷ []
window-update b c zero t i ht hn e = ground arith
window-update b c (suc n) t i ht hn e =
    ap₂ ◌∷◌ (ground arith)
      (window-update b c n ((t + 1) % 256) i (omega arith) (omega arith) (omega arith))

pending-enqueue :
    (k : Keyboard)
    → IsValid k
    → (k.head + 1) % 256 ≢ k.tail
    → ((k.head + 1) % 256 + 256 - k.tail) % 256 ≡ suc (pending k)
pending-enqueue k v ne = omega arith

-- With head and tail within the buffer, a character goes to the end of the queue, unless 255 wait:
-- then it is dropped.
pub enqueue_char-contents :
    (k : Keyboard) (c : ℕ)
    → IsValid k
    → contents (enqueue_char k c)
      ≡ (if length (contents k) == 255 then contents k else contents k ++ c ∷ [])
unfolding enqueue_char
enqueue_char-contents k c v = ground (
  arith,
  length-window k.buf k.tail (pending k),
  pending-enqueue k v,
  window-update k.buf c (pending k) k.tail k.head v.tail_in,
)

pub enqueue_char-IsValid : (k : Keyboard) (c : ℕ) → IsValid k → IsValid (enqueue_char k c)
unfolding enqueue_char
enqueue_char-IsValid k c v = ground arith

-- What the queue of the waiting characters gives, and what it leaves.
unfoldable pub uncons : List ℕ → Option ℕ × List ℕ
uncons [] = (none, [])
uncons (c ∷ cs) = (some c, cs)

-- With head and tail within the buffer, the oldest character comes out, and the rest stays in
-- order.
pub dequeue_char-contents :
    (k : Keyboard)
    → IsValid k
    → let (out, k') = dequeue_char k in (out, contents k') ≡ uncons (contents k)
unfolding dequeue_char uncons
dequeue_char-contents k v = ground (arith, window_of_pos k.buf k.tail (pending k))

pub dequeue_char-IsValid : (k : Keyboard) → IsValid k → IsValid (dequeue_char k).1
unfolding dequeue_char
dequeue_char-IsValid k v = ground arith

-- With head and tail within the buffer and a character waiting, an interrupt that queues another
-- one between the read of the character and the move of the tail does no harm: the character read
-- is the same, and moving the tail gives the queue of a dequeue that comes after the interrupt.
pub dequeue_char_interrupted :
    (k : Keyboard) (c : ℕ)
    → IsValid k
    → (dequeue_char k).0 ≢ none
    → ((dequeue_char (enqueue_char k c)).0 ≡ (dequeue_char k).0)
      × (record (enqueue_char k c) { tail = (k.tail + 1) % 256 }
          ≡ (dequeue_char (enqueue_char k c)).1)
unfolding enqueue_char dequeue_char
dequeue_char_interrupted k c v ne = ground arith
