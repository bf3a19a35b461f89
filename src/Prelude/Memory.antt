-- ===== src/Prelude/Memory.antt =====
-- Memory as a function from an index to a byte, with memset and memcpy of kernel/string.c.
use Prim.Native.Nat.{ℕ, zero, suc, ◌+◌, ◌-◌, ◌%◌, ◌<◌, ◌≤◌}
use mathlib.Core.Path.{◌≡◌, refl, ap, ap₂}
use mathlib.Core.Logic.{◌⊎◌, inr}
use mathlib.Core.Bool.{Bool, ◌&&◌}
use mathlib.Core.List.{List, [], ◌∷◌, ◌++◌}
use native.Mathlib.Omega.{arith}
use native.Mathlib.Nat.{add-zero, zero-add}
use os_u.Prelude.Tests.{ltb, leb, ◌==◌, if◌then◌else◌}
use os_u.Prelude.Lists.{length, get_or, take}

-- The contents of a C array: `b i` is the element at index `i`.
abbrev pub Bytes : Type 0
Bytes = ℕ → ℕ

-- `b[i] = v`
abbrev pub update : Bytes → ℕ → ℕ → Bytes
update b i v = λ j. if j == i then v else b j

-- `memset(b + off, c, n)`, from the `i`-th round on, with `n` rounds left.
memset_from : Bytes → ℕ → ℕ → ℕ → ℕ → Bytes
memset_from b off c zero i = b
memset_from b off c (suc n) i = memset_from (update b (off + i) (c % 256)) off c n (i + 1)

unfoldable pub memset : Bytes → ℕ → ℕ → ℕ → Bytes
unfolding memset_from
memset b off c n = memset_from b off c n 0

-- `memcpy(d + off, s + from, n)`, from the `i`-th round on; the two arrays do not overlap.
memcpy_from : Bytes → ℕ → Bytes → ℕ → ℕ → ℕ → Bytes
memcpy_from d off s from zero i = d
memcpy_from d off s from (suc n) i =
    memcpy_from (update d (off + i) (s (from + i))) off s from n (i + 1)

unfoldable pub memcpy : Bytes → ℕ → Bytes → ℕ → ℕ → Bytes
unfolding memcpy_from
memcpy d off s from n = memcpy_from d off s from n 0

-- Whether index `j` lies in the `n` bytes from `off` on.
abbrev pub in_range : ℕ → ℕ → ℕ → Bool
in_range off n j = leb off j && ltb j (off + n)

memset_from-at :
    (b : Bytes) (off c n i j : ℕ)
    → memset_from b off c n i j ≡ (if in_range (off + i) n j then c % 256 else b j)
unfolding memset_from
memset_from-at b off c zero i j = ground arith
memset_from-at b off c (suc n) i j =
    ground (arith, memset_from-at (update b (off + i) (c % 256)) off c n (i + 1) j)

-- memset writes the byte to the whole range and to nothing else.
pub memset-at :
    (b : Bytes) (off c n j : ℕ) → memset b off c n j ≡ (if in_range off n j then c % 256 else b j)
unfolding memset
memset-at b off c n j = ground (arith, memset_from-at b off c n 0 j)

memcpy_from-at :
    (d : Bytes) (off : ℕ) (s : Bytes) (from n i j : ℕ)
    → memcpy_from d off s from n i j
      ≡ (if in_range (off + i) n j then s (from + (j - off)) else d j)
unfolding memcpy_from
memcpy_from-at d off s from zero i j = ground arith
memcpy_from-at d off s from (suc n) i j =
    ground (arith, memcpy_from-at (update d (off + i) (s (from + i))) off s from n (i + 1) j)

-- memcpy moves each byte of the range to its place, and changes nothing else.
pub memcpy-at :
    (d : Bytes) (off : ℕ) (s : Bytes) (from n j : ℕ)
    → memcpy d off s from n j ≡ (if in_range off n j then s (from + (j - off)) else d j)
unfolding memcpy
memcpy-at d off s from n j = ground (arith, memcpy_from-at d off s from n 0 j)

-- The `n` elements from index `off` on.
abbrev pub slice : Bytes → ℕ → ℕ → List ℕ
slice b off zero = []
slice b off (suc n) = b off ∷ slice b (off + 1) n

pub length-slice : (b : Bytes) (off n : ℕ) → length (slice b off n) ≡ n
length-slice b off zero = refl
length-slice b off (suc n) = ap suc (length-slice b (off + 1) n)

-- Two arrays that agree on a range have the same slice there.
pub slice_ext :
    (b d : Bytes) (off n : ℕ)
    → ((j : ℕ) → off ≤ j → j < off + n → b j ≡ d j)
    → slice b off n ≡ slice d off n
slice_ext b d off zero h = refl
slice_ext b d off (suc n) h =
    ap₂ ◌∷◌ (h off (omega arith) (omega arith))
      (slice_ext b d (off + 1) n (λ j p q. h j (omega arith) (omega arith)))

-- A slice is what the list of its elements says at each place.
pub slice_eq :
    (b : Bytes) (off : ℕ) (l : List ℕ)
    → ((j : ℕ) → j < length l → b (off + j) ≡ get_or l j 0)
    → slice b off (length l) ≡ l
slice_eq b off [] h = refl
slice_eq b off (x ∷ l) h = ap₂ ◌∷◌ (rw (← add-zero off) (h 0 (omega arith))) (
    slice_eq b (off + 1) l
      (λ j p. let e : off + 1 + j ≡ off + suc j = omega arith in rw e (h (suc j) (omega arith))))

pub slice-append :
    (b : Bytes) (off m n : ℕ) → slice b off (m + n) ≡ slice b off m ++ slice b (off + m) n
slice-append b off zero n = rw (zero-add, add-zero)
slice-append b off (suc m) n =
    let e : suc m + n ≡ suc (m + n) = omega arith in
    let e' : off + suc m ≡ off + 1 + m = omega arith in
    rw (e, e') (ap (λ t. b off ∷ t) (slice-append b (off + 1) m n))

pub take-slice : (b : Bytes) (off m n : ℕ) → m ≤ n → take m (slice b off n) ≡ slice b off m
take-slice b off zero n h = refl
take-slice b off (suc m) zero h = absurd (omega arith)
take-slice b off (suc m) (suc n) h = ap (λ t. b off ∷ t) (take-slice b (off + 1) m n (omega arith))

pub get_or-slice : (b : Bytes) (off n j : ℕ) → j < n → get_or (slice b off n) j 0 ≡ b (off + j)
get_or-slice b off zero j h = absurd (omega arith)
get_or-slice b off (suc n) zero h = rw add-zero
get_or-slice b off (suc n) (suc j) h =
    let e : off + suc j ≡ off + 1 + j = omega arith in
    rw e (get_or-slice b (off + 1) n j (omega arith))

-- A write outside the range leaves the slice, and a write just past it extends it.
pub slice-update_out :
    (b : Bytes) (i v off n : ℕ)
    → (i < off) ⊎ (off + n ≤ i)
    → slice (update b i v) off n ≡ slice b off n
slice-update_out b i v off n h = slice_ext (update b i v) b off n (λ j p q. ground arith)

pub slice-snoc : (b : Bytes) (v n : ℕ) → slice (update b n v) 0 (n + 1) ≡ slice b 0 n ++ v ∷ []
slice-snoc b v n =
    let e : slice (update b n v) n 1 ≡ v ∷ [] = ground arith in
    rw (slice-append (update b n v) 0 n 1, slice-update_out b n v 0 n (inr (omega arith)), zero-add)
      (ap (λ t. slice b 0 n ++ t) e)

-- The values that stand in memory from `p` on.
abbrev pub Holds : Bytes → ℕ → List ℕ → Type 0
Holds mem p [] = Unit
Holds mem p (c ∷ s) = (mem p ≡ c) × Holds mem (p + 1) s
