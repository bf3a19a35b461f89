-- ===== src/Fs/Fat/Laws.antt =====
-- kernel/fs.c: laws of the table's entries and of alloc_cluster.
use os_u.Prelude.{
  ℕ, ◌+◌, ◌*◌, ◌^◌, ◌≤◌, ◌<◌, ◌≡◌, ◌≢◌, ◌⊎◌, inl, inr, refl, none, some, arith, Bytes,
  find_from_lem, ◌==◌, if◌then◌else◌,
}
use os_u.Fs.Fat.{fat16_eoc, fat_get, fat_set, alloc_cluster}

-- A 16-bit entry that is set reads back, and every other entry is as it was.
pub fat_get-set :
    (fat : Bytes) (c d v : ℕ)
    → v < 2 ^ 16
    → fat_get (fat_set fat c v) d ≡ (if d == c then v else fat_get fat d)
unfolding fat_get fat_set
fat_get-set fat c d v h = ground arith

-- Setting an entry touches two bytes, which for a cluster lie within the table's 16384.
pub fat_set-outside :
    (fat : Bytes) (c v j : ℕ) → (j < c * 2) ⊎ (c * 2 + 1 < j) → fat_set fat c v j ≡ fat j
unfolding fat_set
fat_set-outside fat c v j h = ground arith

-- What alloc_cluster may do to a table.
pub data Alloc (fat : Bytes) : Type 0 where
  no_space :
      ((c : ℕ) → 2 ≤ c → c ≤ 8152 → fat_get fat c ≢ 0) → alloc_cluster fat ≡ (none, fat) → Alloc fat
  allocated :
      (c : ℕ)
      → 2 ≤ c
      → c ≤ 8152
      → fat_get fat c ≡ 0
      → ((d : ℕ) → 2 ≤ d → d < c → fat_get fat d ≢ 0)
      → alloc_cluster fat ≡ (some c, fat_set fat c fat16_eoc)
      → Alloc fat

pub alloc_cluster_lem : (fat : Bytes) → Alloc fat
unfolding alloc_cluster
alloc_cluster_lem fat = elim (find_from_lem (λ c. fat_get fat c == 0) 8151 2) [
  | inl (e, all) ↦ Alloc.no_space (λ c h h' z. ground (arith, all c)) (ground arith)
  | inr (c, e, first) ↦
      Alloc.allocated c first.from (omega (arith, first.before)) (ground (arith, first.passes))
        (λ d h l z. ground (arith, first.fail_below d)) (ground arith)
]

-- alloc_cluster hands out the lowest free cluster, marks it as the end of a chain and changes no other
-- entry; it fails exactly when no cluster is free, and then changes nothing.
pub alloc_cluster_total :
    (fat : Bytes)
    → let (r, fat') = alloc_cluster fat in
      ((r ≡ none) × (fat' ≡ fat) × ((c : ℕ) → 2 ≤ c → c ≤ 8152 → fat_get fat c ≢ 0))
      ⊎ ((c : ℕ) × (r ≡ some c)
          × (2 ≤ c)
          × (c ≤ 8152)
          × (fat_get fat c ≡ 0)
          × ((d : ℕ) → 2 ≤ d → d < c → fat_get fat d ≢ 0)
          × ((d : ℕ) → fat_get fat' d ≡ (if d == c then 0xFFFF else fat_get fat d)))
alloc_cluster_total fat = elim (alloc_cluster_lem fat) [
  | Alloc.no_space all e ↦ rw e (inl (refl, refl, all))
  | Alloc.allocated c h h' z first e ↦
      rw e (inr (c, refl, h, h', z, first, λ d. fat_get-set fat c d 0xFFFF (omega arith)))
]
