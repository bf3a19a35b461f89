-- ===== src/Fat32/Counts.antt =====
-- kernel/fat32.c: how many bytes the rounds of fat32_read_file read, and where they go.
use os_u.Prelude.{
  ℕ, ◌+◌, ◌-◌, ◌*◌, ◌^◌, ◌≤◌, ◌<◌, ◌≡◌, ◌⊎◌, inl, inr, refl, ◌∙◌, ap, ◌&&◌, List, ◌∷◌, Bytes,
  memcpy, memcpy-at, in_range, length, add32, ltb, leb, if◌then◌else◌, arith,
}
use native.Mathlib.Decide.{dec_lt}
use os_u.Fat32.{Fat32, to_copy}
use os_u.Fat32.Clusters.{cluster_size, cluster_byte, file_byte}

-- The bytes read when the clusters are read from `read` on: all of them, or as many as fit.
abbrev pub total : Fat32 → List ℕ → ℕ → ℕ → ℕ
total f cs max_size read =
    let all = read + length cs * cluster_size f in if ltb max_size all then max_size else all

pub total-cons :
    (f : Fat32) (c : ℕ) (cs : List ℕ) (max_size read : ℕ)
    → read < max_size
    → max_size + cluster_size f < 2 ^ 32
    → let count = to_copy f max_size read in
      (add32 read count ≡ read + count)
      × (read + count ≤ max_size)
      × (count ≤ cluster_size f)
      × (total f (c ∷ cs) max_size read ≡ total f cs max_size (read + count))
      × ((count ≡ cluster_size f) ⊎ (total f cs max_size (read + count) ≡ read + count))
total-cons f c cs max_size read h k =
    let s = cluster_size f in
    let more : length (c ∷ cs) * s ≡ s + length cs * s = grind arith in
    elim (dec_lt max_size (read + s)) [
      | yes l ↦
          let count : to_copy f max_size read ≡ max_size - read = ground arith in
          rw count (
            omega arith,
            omega arith,
            omega arith,
            ground (arith, more, l),
            inr (ground (arith, l)),
          )
      | no l ↦
          let count : to_copy f max_size read ≡ s = ground arith in
          rw count (omega arith, omega arith, omega arith, ground (arith, more, l), inl refl)
    ]

-- The bytes of the buffer after the rounds.
abbrev pub Holds : Fat32 → List ℕ → Bytes → Bytes → ℕ → ℕ → Type 0
Holds f cs before after from stop =
    (j : ℕ) → after j ≡ (if leb from j && ltb j stop then file_byte f cs (j - from) else before j)

choose :
    (j read count stop size there here old byte later : ℕ)
    → count ≤ size
    → read + count ≤ stop
    → (count ≡ size) ⊎ (stop ≡ read + count)
    → (j - read < size → here ≡ byte)
    → (count ≡ size → there ≡ later)
    → (if leb (read + count) j && ltb j stop
        then there
        else if in_range read count j
        then here
        else old)
      ≡ (if leb read j && ltb j stop then if ltb (j - read) size then byte else later else old)
choose j read count stop size there here old byte later h k which a b =
    elim (dec_lt j (read + count)) [
      | yes l ↦ elim (dec_lt j read) [
        | yes m ↦ ground (arith, l, m)
        | no m ↦ let e = a (omega arith) in ground (arith, l, m, e)
      ]
      | no l ↦ elim which [
        | inl e ↦ let t = b e in ground (arith, l, e, t)
        | inr e ↦ ground (arith, l, e)
      ]
    ]

pub Holds-cons :
    (f : Fat32) (c : ℕ) (cs : List ℕ) (before cluster after : Bytes) (read count stop : ℕ)
    → count ≤ cluster_size f
    → read + count ≤ stop
    → (count ≡ cluster_size f) ⊎ (stop ≡ read + count)
    → ((k : ℕ) → k < cluster_size f → cluster k ≡ cluster_byte f c k)
    → Holds f cs (memcpy before read cluster 0 count) after (read + count) stop
    → Holds f (c ∷ cs) before after read stop
unfolding file_byte
Holds-cons f c cs before cluster after read count stop h k which bytes rest j =
    rest j
    ∙ rw (memcpy-at before read cluster 0 count j) (
        choose j read count stop (cluster_size f) (file_byte f cs (j - (read + count)))
          (cluster (0 + (j - read))) (before j) (cluster_byte f c (j - read))
          (file_byte f cs (j - read - cluster_size f)) h k which
          (λ l. ap cluster (omega arith) ∙ bytes (j - read) l)
          (λ e. ap (file_byte f cs) (omega (arith, e))))
