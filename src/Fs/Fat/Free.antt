-- ===== src/Fs/Fat/Free.antt =====
-- kernel/fs.c: free_chain ends, on every table, and frees nothing but clusters of the chain.
use os_u.Prelude.{
  ℕ, zero, suc, ◌+◌, ◌≤◌, ◌<◌, ◌≡◌, ◌≢◌, ◌⊎◌, inl, inr, refl, ◌∙◌, true, some, arith, Bytes, leb,
  ◌==◌, if◌then◌else◌, Bool-cases,
}
use native.Mathlib.Decide.{ℕ_discrete}
use os_u.Fs.Fat.{is_cluster, ends_chain, fat_get, fat_set, free_chain}
use os_u.Fs.Fat.Laws.{fat_get-set}

-- How many of the entries below `n` are not free.
unfoldable pub used_below : Bytes → ℕ → ℕ
used_below fat zero = 0
used_below fat (suc n) = (if fat_get fat n == 0 then 0 else 1) + used_below fat n

pub used_below-le : (fat : Bytes) (n : ℕ) → used_below fat n ≤ n
unfolding used_below
used_below-le fat zero = omega arith
used_below-le fat (suc n) = ground (arith, used_below-le fat n)

-- Freeing an entry that is in use takes one from the count.
used_below-free :
    (fat : Bytes) (n c : ℕ)
    → fat_get fat c ≢ 0
    → used_below (fat_set fat c 0) n + (if leb n c then 0 else 1) ≡ used_below fat n
unfolding used_below
used_below-free fat zero c h = ground arith
used_below-free fat (suc n) c h = ground (arith, used_below-free fat n c h, fat_get-set fat c n 0)

-- The clusters that a chain from `c` passes, by the table as it stands.
pub data Passes (fat : Bytes) : ℕ → ℕ → Type 0 where
  here : {c : ℕ} → is_cluster c ≡ true → Passes fat c c
  next : {c d : ℕ} → is_cluster c ≡ true → Passes fat (fat_get fat c) d → Passes fat c d

cluster_of : {fat : Bytes} {c d : ℕ} → Passes fat c d → is_cluster c ≡ true
cluster_of (here h) = h
cluster_of (next h p) = h

-- A freed cluster adds nothing that the chain passes.
Passes-free : (fat : Bytes) (x : ℕ) {c d : ℕ} → Passes (fat_set fat x 0) c d → Passes fat c d
Passes-free fat x (here h) = here h
Passes-free fat x (next {c} h p) = elim (Bool-cases (c == x)) [
  | inr other ↦
      let e : fat_get (fat_set fat x 0) c ≡ fat_get fat c =
        ground (arith, fat_get-set fat x c 0 (omega arith)) in
      next h (rw e at (Passes-free fat x p))
  | inl same ↦
      let e : fat_get (fat_set fat x 0) c ≡ 0 =
        ground (arith, fat_get-set fat x c 0 (omega arith)) in
      absurd (not_zero (rw e at p))
]
  where
    not_zero : {d : ℕ} → ¬ Passes (fat_set fat x 0) 0 d
    not_zero p = ground (arith, cluster_of p)

-- What free_chain leaves: each entry is as it was, or is free and was passed by the chain.
abbrev pub Freed : Bytes → Bytes → ℕ → Type 0
Freed fat fat' c =
    (d : ℕ) → (fat_get fat' d ≡ fat_get fat d) ⊎ ((fat_get fat' d ≡ 0) × Passes fat c d)

one :
    (fat : Bytes) (c d : ℕ)
    → is_cluster c ≡ true
    → (fat_get (fat_set fat c 0) d ≡ fat_get fat d)
      ⊎ ((fat_get (fat_set fat c 0) d ≡ 0) × Passes fat c d)
one fat c d h = elim (ℕ_discrete d c) [
  | yes e ↦ inr (ground (arith, fat_get-set fat c d 0), rw e (here h))
  | no n ↦ inl (ground (arith, fat_get-set fat c d 0))
]

then_rest :
    (fat fat' : Bytes) (c d : ℕ)
    → is_cluster c ≡ true
    → (fat_get (fat_set fat c 0) d ≡ fat_get fat d)
      ⊎ ((fat_get (fat_set fat c 0) d ≡ 0) × Passes fat c d)
    → (fat_get fat' d ≡ fat_get (fat_set fat c 0) d)
      ⊎ ((fat_get fat' d ≡ 0) × Passes (fat_set fat c 0) (fat_get fat c) d)
    → (fat_get fat' d ≡ fat_get fat d) ⊎ ((fat_get fat' d ≡ 0) × Passes fat c d)
then_rest fat fat' c d h (inl e) (inl e') = inl (e' ∙ e)
then_rest fat fat' c d h (inr (z, p)) (inl e') = inr (e' ∙ z, p)
then_rest fat fat' c d h _ (inr (z, p)) = inr (z, next h (Passes-free fat c p))

stays_zero :
    (fat fat' : Bytes) (c : ℕ)
    → (fat_get fat' c ≡ fat_get (fat_set fat c 0) c)
      ⊎ ((fat_get fat' c ≡ 0) × Passes (fat_set fat c 0) (fat_get fat c) c)
    → fat_get fat' c ≡ 0
stays_zero fat fat' c (inl e) = ground (arith, fat_get-set fat c c 0)
stays_zero fat fat' c (inr (z, p)) = z

free_chain-ends :
    (n : ℕ) (fat : Bytes) (c : ℕ)
    → used_below fat 8153 < n
    → (fat' : Bytes) × (free_chain n fat c ≡ some fat')
      × Freed fat fat' c
      × (is_cluster c ≡ true → fat_get fat' c ≡ 0)
unfolding free_chain
free_chain-ends zero fat c h = absurd (omega arith)
free_chain-ends (suc n) fat c h = elim (Bool-cases (is_cluster c)) [
  | inr out ↦ (fat, ground arith, λ d. inl refl, λ p. ground arith)
  | inl cluster ↦ elim (Bool-cases (ends_chain (fat_get fat c))) [
    | inl last ↦ (
      fat_set fat c 0,
      ground arith,
      λ d. one fat c d cluster,
      λ p. ground (arith, fat_get-set fat c c 0),
    )
    | inr more ↦
        let (fat', run, freed, first) =
          free_chain-ends n (fat_set fat c 0) (fat_get fat c)
            (ground (arith, used_below-free fat 8153 c)) in
        (
          fat',
          ground arith,
          λ d. then_rest fat fat' c d cluster (one fat c d cluster) (freed d),
          λ p. stays_zero fat fat' c (freed c),
        )
  ]
]

-- On every table, also one with a cycle, free_chain ends within 8154 rounds. It frees the first
-- cluster, and each entry that it changes is freed and belongs to a cluster that the chain passes.
pub free_chain_total :
    (fat : Bytes) (c : ℕ)
    → (fat' : Bytes) × (free_chain 8154 fat c ≡ some fat')
      × Freed fat fat' c
      × (is_cluster c ≡ true → fat_get fat' c ≡ 0)
free_chain_total fat c = free_chain-ends 8154 fat c (omega (arith, used_below-le fat 8153))
