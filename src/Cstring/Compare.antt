-- ===== src/Cstring/Compare.antt =====
-- kernel/string.c: strcmp and memcmp give 0 exactly for equal contents.
use os_u.Prelude.{
  ℕ, zero, suc, ◌+◌, ◌≤◌, ◌<◌, ◌≡◌, ◌↔◌, refl, sym, ap, ◌∙◌, List, [], ◌∷◌, Bytes, arith,
}
use native.Mathlib.Decide.{ℕ_discrete}
use os_u.Cstring.{strcmp, memcmp_from, memcmp}

-- An array of bytes.
abbrev pub AllBytes : Bytes → Type 0
AllBytes b = (i : ℕ) → b i < 256

-- The characters of a C string are bytes and none is NUL.
abbrev pub IsCstring : List ℕ → Type 0
IsCstring [] = Unit
IsCstring (c ∷ s) = (0 < c) × (c < 256) × IsCstring s

strcmp_refl : (s : List ℕ) → IsCstring s → strcmp s s ≡ 0
unfolding strcmp
strcmp_refl [] h = refl
strcmp_refl (c ∷ s) h = ground (arith, strcmp_refl s h.2)

strcmp-eq : (s t : List ℕ) → IsCstring s → IsCstring t → strcmp s t ≡ 0 → s ≡ t
unfolding strcmp
strcmp-eq [] [] h k e = refl
strcmp-eq [] (b ∷ t) h k e = absurd (omega arith)
strcmp-eq (a ∷ s) [] h k e = absurd (omega arith)
strcmp-eq (a ∷ s) (b ∷ t) h k e = ground (arith, strcmp-eq s t h.2 k.2)

-- strcmp of two C strings is 0 exactly if they are the same.
pub strcmp_iff : (s t : List ℕ) → IsCstring s → IsCstring t → (strcmp s t ≡ 0) ↔ (s ≡ t)
strcmp_iff s t h k = (strcmp-eq s t h k, λ e. rw (← e) (strcmp_refl s h))

-- The bytes `i` to `i + n` of two places are the same.
abbrev SameFrom : Bytes → ℕ → Bytes → ℕ → ℕ → ℕ → Type 0
SameFrom a p b q n i = (j : ℕ) → i ≤ j → j < i + n → a (p + j) ≡ b (q + j)

SameFrom-suc :
    (a : Bytes) (p : ℕ) (b : Bytes) (q n i : ℕ)
    → a (p + i) ≡ b (q + i)
    → SameFrom a p b q n (i + 1)
    → SameFrom a p b q (suc n) i
SameFrom-suc a p b q n i e h j l k = elim (ℕ_discrete j i) [
  | yes here ↦ ap (λ x. a (p + x)) here ∙ e ∙ sym (ap (λ x. b (q + x)) here)
  | no there ↦ h j (omega arith) (omega arith)
]

memcmp_from-Same :
    (a : Bytes) (p : ℕ) (b : Bytes) (q n i : ℕ)
    → AllBytes a
    → AllBytes b
    → memcmp_from a p b q n i ≡ 0
    → SameFrom a p b q n i
unfolding memcmp_from
memcmp_from-Same a p b q zero i h k e = λ j l m. absurd (omega arith)
memcmp_from-Same a p b q (suc n) i h k e =
    let at = h (p + i) in
    let to = k (q + i) in
    elim (ℕ_discrete (a (p + i)) (b (q + i))) [
      | yes s ↦
          SameFrom-suc a p b q n i s (memcmp_from-Same a p b q n (i + 1) h k (ground (arith, e, s)))
      | no d ↦ absurd (ground (arith, e, d, at, to))
    ]

memcmp_from-zero :
    (a : Bytes) (p : ℕ) (b : Bytes) (q n i : ℕ) → SameFrom a p b q n i → memcmp_from a p b q n i ≡ 0
unfolding memcmp_from
memcmp_from-zero a p b q zero i h = refl
memcmp_from-zero a p b q (suc n) i h =
    let here = h i (omega arith) (omega arith) in
    let rest = memcmp_from-zero a p b q n (i + 1) (λ j l m. h j (omega arith) (omega arith)) in
    ground (arith, here, rest)

-- memcmp of two places is 0 exactly if their bytes are the same.
pub memcmp_iff :
    (a : Bytes) (p : ℕ) (b : Bytes) (q n : ℕ)
    → AllBytes a
    → AllBytes b
    → (memcmp a p b q n ≡ 0) ↔ ((j : ℕ) → j < n → a (p + j) ≡ b (q + j))
unfolding memcmp
memcmp_iff a p b q n h k = (
  λ e j l. memcmp_from-Same a p b q n 0 h k e j (omega arith) (omega arith),
  λ same. memcmp_from-zero a p b q n 0 (λ j l m. same j (omega arith)),
)
