-- ===== src/Forth/Stack.antt =====
-- kernel/lang.c: the words of the Forth interpreter on the list of the values, the last one first.
use os_u.Prelude.{
  ℕ, zero, suc, ◌≤◌, ◌≡◌, refl, Option, none, some, List, [], ◌∷◌, arith, Bytes, update, length,
  ltb, ◌==◌, if◌then◌else◌, add32, sub32, mul32, div32, traps,
}
use os_u.Forth.{
  Forth, binary, divide, exec, Word, bye, add, sub, mul, div, dup, drop, swap, dot, dot_s, mem,
  clear, words, number, unknown, Outcome, goes_on, leaves, traps_at,
}

-- The first `n` values of the array, the last one first.
abbrev items : Bytes → ℕ → List ℕ
items s zero = []
items s (suc n) = s n ∷ items s n

abbrev pub contents : Forth → List ℕ
contents f = items f.stack f.sp

-- What is left on the stack, unless the interpreter ends or traps.
abbrev pub left : Outcome → Option (List ℕ)
left (goes_on f out) = some (contents f)
left leaves = none
left traps_at = none

abbrev pub stack_of : Outcome → Option Forth
stack_of (goes_on f out) = some f
stack_of leaves = none
stack_of traps_at = none

-- A word with two operands on a list: with fewer than two values those that are there are lost.
abbrev binary_on : (ℕ → ℕ → ℕ) → List ℕ → Option (List ℕ)
binary_on op [] = some []
binary_on op (b ∷ []) = some []
binary_on op (b ∷ a ∷ l) = some (op a b ∷ l)

abbrev pub divide_on : List ℕ → Option (List ℕ)
divide_on [] = some []
divide_on (b ∷ []) = some []
divide_on (b ∷ a ∷ l) =
    if b == 0 then some (b ∷ a ∷ l) else if traps a b then none else some (div32 a b ∷ l)

abbrev pub push_on : ℕ → List ℕ → Option (List ℕ)
push_on v l = some (if ltb (length l) 128 then v ∷ l else l)

abbrev pub drop_on : List ℕ → Option (List ℕ)
drop_on [] = some []
drop_on (a ∷ l) = some l

-- The effect of each word on a list of at most 128 values.
abbrev pub effect : Word → List ℕ → Option (List ℕ)
effect bye l = none
effect add l = binary_on add32 l
effect sub l = binary_on sub32 l
effect mul l = binary_on mul32 l
effect div l = divide_on l
effect dup [] = some []
effect dup (a ∷ l) = push_on a (a ∷ l)
effect drop l = drop_on l
effect swap [] = some []
effect swap (b ∷ []) = some (b ∷ [])
effect swap (b ∷ a ∷ l) = some (a ∷ b ∷ l)
effect dot l = drop_on l
effect dot_s l = some l
effect mem l = some l
effect clear l = some []
effect words l = some l
effect (number v) l = push_on v l
effect (unknown tok) l = some l

pub length-items : (s : Bytes) (n : ℕ) → length (items s n) ≡ n
length-items s zero = refl
length-items s (suc n) = omega (arith, length-items s n)

-- Writing at or above the top changes nothing below it.
items-update : (s : Bytes) (n i v : ℕ) → n ≤ i → items (update s i v) n ≡ items s n
items-update s zero i v h = refl
items-update s (suc n) i v h = ground (arith, items-update s n i v)

abbrev at : Bytes → ℕ → Forth
at s n = record { stack = s; sp = n }

binary-contents :
    (op : ℕ → ℕ → ℕ) (s : Bytes) (n : ℕ)
    → n ≤ 128
    → left (binary op (at s n)) ≡ binary_on op (items s n)
unfolding binary
binary-contents op s zero h = refl
binary-contents op s (suc zero) h = ground arith
binary-contents op s (suc (suc n)) h = ground (arith, items-update s n n (op (s n) (s (suc n))))

divide-contents : (s : Bytes) (n : ℕ) → n ≤ 128 → left (divide (at s n)) ≡ divide_on (items s n)
unfolding divide
divide-contents s zero h = refl
divide-contents s (suc zero) h = ground arith
divide-contents s (suc (suc n)) h = ground (
  arith,
  items-update s n n (div32 (s n) (s (suc n))),
  items-update s n n (s n),
  items-update (update s n (s n)) n (suc n) (s (suc n)),
)

exec-contents_at :
    (heap : ℕ) (w : Word) (s : Bytes) (n : ℕ)
    → n ≤ 128
    → left (exec heap w (at s n)) ≡ effect w (items s n)
unfolding exec
exec-contents_at heap bye s n h = refl
exec-contents_at heap add s n h = binary-contents add32 s n h
exec-contents_at heap sub s n h = binary-contents sub32 s n h
exec-contents_at heap mul s n h = binary-contents mul32 s n h
exec-contents_at heap div s n h = divide-contents s n h
exec-contents_at heap dup s zero h = refl
exec-contents_at heap dup s (suc n) h =
    ground (arith, length-items s n, items-update s n (suc n) (s n))
exec-contents_at heap drop s zero h = refl
exec-contents_at heap drop s (suc n) h = ground arith
exec-contents_at heap swap s zero h = refl
exec-contents_at heap swap s (suc zero) h = ground arith
exec-contents_at heap swap s (suc (suc n)) h =
    ground
      (arith, items-update s n (suc n) (s n), items-update (update s (suc n) (s n)) n n (s (suc n)))
exec-contents_at heap dot s zero h = refl
exec-contents_at heap dot s (suc n) h = ground arith
exec-contents_at heap dot_s s n h = refl
exec-contents_at heap mem s n h = refl
exec-contents_at heap clear s n h = refl
exec-contents_at heap words s n h = refl
exec-contents_at heap (number v) s n h = ground (arith, length-items s n, items-update s n n v)
exec-contents_at heap (unknown tok) s n h = refl

-- On a stack of at most 128 values each word has its effect on the list of the values: the operators
-- take the two last values and push their result, with fewer than two values they lose them, a
-- division by 0 leaves the stack as it is, a value is pushed if there is room, and only the division
-- of the least number by -1 and bye leave no stack.
pub exec-contents :
    (heap : ℕ) (w : Word) (f : Forth) → f.sp ≤ 128 → left (exec heap w f) ≡ effect w (contents f)
exec-contents heap w f h = exec-contents_at heap w f.stack f.sp h

-- The stack stays within its 128 places.
abbrev Fits : Outcome → Type 0
Fits (goes_on f out) = f.sp ≤ 128
Fits leaves = Unit
Fits traps_at = Unit

-- Each word keeps the number of values at or below 128.
exec-Fits : (heap : ℕ) (w : Word) (f : Forth) → f.sp ≤ 128 → Fits (exec heap w f)
unfolding exec
exec-Fits heap bye f h = tt
exec-Fits heap add f h = ground arith
exec-Fits heap sub f h = ground arith
exec-Fits heap mul f h = ground arith
exec-Fits heap div f h = ground arith
exec-Fits heap w f h = ground arith
