-- ===== src/Fs/Chain/Space.antt =====
-- kernel/fs.c: how many clusters a table has free, and how a round of a write changes that.
use os_u.Prelude.{
  ℕ, zero, suc, ◌+◌, ◌-◌, ◌^◌, ◌<◌, ◌≡◌, ◌≢◌, refl, ◌&&◌, arith, Bytes, ltb, ◌==◌, if◌then◌else◌,
}
use os_u.Fs.Fat.{fat_get, fat_set}
use os_u.Fs.Fat.Laws.{fat_get-set}
use os_u.Fs.Fat.Free.{used_below}
use os_u.Fs.Chain.{link}

-- The two reserved entries of a formatted table are in use.
abbrev pub Reserved : Bytes → Type 0
Reserved fat = (fat_get fat 0 ≢ 0) × (fat_get fat 1 ≢ 0)

-- How many clusters are free.
abbrev pub free_count : Bytes → ℕ
free_count fat = 8153 - used_below fat 8153

pub fat_get-link :
    (fat : Bytes) (prev c d : ℕ)
    → c < 2 ^ 16
    → prev ≢ c
    → fat_get (link fat prev c) d
      ≡ (if d == c then 0xFFFF else if d == prev && ltb 0 prev then c else fat_get fat d)
fat_get-link fat prev c d h ne = ground (
  arith,
  fat_get-set fat prev d c,
  fat_get-set fat c d 0xFFFF,
  fat_get-set (fat_set fat prev c) c d 0xFFFF,
)

-- The count of used entries under the changes of a round.
pub used_below-all :
    (fat : Bytes) (n : ℕ) → ((d : ℕ) → d < n → fat_get fat d ≢ 0) → used_below fat n ≡ n
unfolding used_below
used_below-all fat zero h = refl
used_below-all fat (suc n) h =
    ground (arith, used_below-all fat n (λ d l. h d (omega arith)), h n (omega arith))

pub used_below-take :
    (fat fat' : Bytes) (n c : ℕ)
    → fat_get fat c ≡ 0
    → fat_get fat' c ≢ 0
    → ((d : ℕ)
        → d ≢ c
        → (fat_get fat' d ≡ 0 → fat_get fat d ≡ 0) × (fat_get fat d ≡ 0 → fat_get fat' d ≡ 0))
    → used_below fat' n ≡ used_below fat n + (if ltb c n then 1 else 0)
unfolding used_below
used_below-take fat fat' zero c h h' same = ground arith
used_below-take fat fat' (suc n) c h h' same =
    ground (arith, used_below-take fat fat' n c h h' same, same n)
