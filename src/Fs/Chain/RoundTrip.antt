-- ===== src/Fs/Chain/RoundTrip.antt =====
-- kernel/fs.c: write_cluster_chain stores a text.
use os_u.Prelude.{
  ℕ, zero, suc, ◌+◌, ◌-◌, ◌/◌, ◌≤◌, ◌<◌, ◌≡◌, ◌≢◌, ◌⊎◌, refl, true, ◌&&◌, some, arith, Bytes,
  memset, memcpy-at, ltb, ◌==◌, if◌then◌else◌,
}
use os_u.Disk.Laws.{Works, disk_write_lem}
use os_u.Fs.Fat.{is_cluster, cluster_lba, fat_get, fat_set, alloc_cluster}
use os_u.Fs.Fat.Laws.{Alloc, alloc_cluster_lem, fat_get-set}
use os_u.Fs.State.{Fs, ok}
use os_u.Fs.Chain.{take_of, link, sector_of, write_cluster, write_rounds}
use os_u.Fs.Chain.Stored.{Stored}
use os_u.Fs.Chain.Space.{Reserved, free_count, fat_get-link, used_below-all}

-- What the loop needs: a drive that works, a cluster for each 512 bytes to come, and a previous cluster,
-- if there is one, that is in use.
pub record CanWrite (fs : Fs) (size prev written : ℕ) : Type 0 where
  pub works : Works fs.disk
  pub reserved : Reserved fs.fat_buf
  pub space : (size - written + 511) / 512 ≤ free_count fs.fat_buf
  pub linked : (prev ≡ 0) ⊎ ((2 ≤ prev) × (fat_get fs.fat_buf prev ≢ 0))

-- What a write may change: the table's entries that were free, and `prev`; the sectors of clusters that
-- were free.
pub record Frame (fs fs' : Fs) (prev : ℕ) : Type 0 where
  pub others : fs' ≡ record fs { fat_buf = fs'.fat_buf; disk = fs'.disk }
  pub entries :
      (d : ℕ) → d ≢ prev → fat_get fs.fat_buf d ≢ 0 → fat_get fs'.fat_buf d ≡ fat_get fs.fat_buf d
  pub sectors :
      (l j : ℕ)
      → ((d : ℕ) → is_cluster d ≡ true → fat_get fs.fat_buf d ≡ 0 → l ≢ cluster_lba d)
      → fs'.disk.sector l j ≡ fs.disk.sector l j

sector_of-at : (text : Bytes) (pos n k : ℕ) → k < n → sector_of text pos n k ≡ text (pos + k)
sector_of-at text pos n k h = ground (arith, memcpy-at (memset (λ i. 0) 0 0 512) 0 text pos n k)

-- A write to the cluster's sector alone.
write_cluster_lem :
    (fs : Fs) (text : Bytes) (written take prev c : ℕ) (fat : Bytes)
    → Works fs.disk
    → let (done, fs') = write_cluster fs text written take prev c fat in
      (done ≡ true)
      × Works fs'.disk
      × (fs'.fat_buf ≡ link fat prev c)
      × (fs' ≡ record fs { fat_buf = fs'.fat_buf; disk = fs'.disk })
      × ((k : ℕ) → k < take → k < 512 → fs'.disk.sector (cluster_lba c) k ≡ text (written + k))
      × ((l j : ℕ) → l ≢ cluster_lba c → fs'.disk.sector l j ≡ fs.disk.sector l j)
unfolding write_cluster
write_cluster_lem fs text written take prev c fat w =
    let r = disk_write_lem fs.disk (cluster_lba c) 1 (sector_of text written take) w in
    (
      r.0,
      r.1,
      refl,
      refl,
      λ k h h'. ground (arith, r.2 (cluster_lba c) k, sector_of-at text written take k h),
      λ l j ne. ground (arith, r.2 l j),
    )

-- What a write leaves, once it is over.
pub record Wrote (fs fs' : Fs) (text : Bytes) (size prev written c : ℕ) : Type 0 where
  pub stored : Stored fs'.fat_buf fs'.disk.sector text size c written
  pub from_prev : prev ≢ 0 → fat_get fs'.fat_buf prev ≡ c
  pub frame : Frame fs fs' prev
  pub still_works : Works fs'.disk

pub write_rounds-done :
    (n : ℕ) (fs : Fs) (text : Bytes) (size first prev written : ℕ)
    → size ≤ written
    → write_rounds n fs text size first prev written ≡ (ok, first, fs)
unfolding write_rounds
write_rounds-done zero fs text size first prev written h = refl
write_rounds-done (suc n) fs text size first prev written h = ground arith

-- Enough free entries mean that one is found.
pub alloc-found :
    (fat : Bytes)
    → Reserved fat
    → 0 < free_count fat
    → (c : ℕ) × (2 ≤ c)
      × (c ≤ 8152)
      × (fat_get fat c ≡ 0)
      × (alloc_cluster fat ≡ (some c, fat_set fat c 0xFFFF))
alloc-found fat (r0, r1) h = elim (alloc_cluster_lem fat) [
  | Alloc.no_space all e ↦
      absurd (omega (arith, used_below-all fat 8153 (λ d l. reserved_or d (all d) l)))
  | Alloc.allocated c p q z first e ↦ (c, p, q, z, ground arith)
]
  where
    reserved_or : (d : ℕ) → (2 ≤ d → d ≤ 8152 → fat_get fat d ≢ 0) → d < 8153 → fat_get fat d ≢ 0
    reserved_or zero h l = r0
    reserved_or (suc zero) h l = r1
    reserved_or (suc (suc d)) h l = h (omega arith) (omega arith)

-- The state after the first round.
abbrev pub after_round : Fs → Bytes → ℕ → ℕ → ℕ → ℕ → Fs
after_round fs text written take prev c =
    (write_cluster fs text written take prev c (alloc_cluster fs.fat_buf).1).1

pub write_rounds-suc :
    (n : ℕ) (fs : Fs) (text : Bytes) (size first prev written take c : ℕ)
    → written < size
    → take_of size written ≡ take
    → (alloc_cluster fs.fat_buf).0 ≡ some c
    → (write_cluster fs text written take prev c (alloc_cluster fs.fat_buf).1).0 ≡ true
    → write_rounds (suc n) fs text size first prev written
      ≡ write_rounds n
          (after_round fs text written take prev c)
          text
          size
          (if first == 0 then c else first)
          c
          (written + take)
unfolding write_rounds
write_rounds-suc n fs text size first prev written take c h t a done = ground arith

-- What is known of a round: the new cluster, its contents, and the rest unchanged.
pub record Round (fs fs1 : Fs) (text : Bytes) (prev written take c : ℕ) : Type 0 where
  pub free : fat_get fs.fat_buf c ≡ 0
  pub low : 2 ≤ c
  pub high : c ≤ 8152
  pub works : Works fs1.disk
  pub others : fs1 ≡ record fs { fat_buf = fs1.fat_buf; disk = fs1.disk }
  pub entry :
      (d : ℕ)
      → fat_get fs1.fat_buf d
        ≡ (if d == c then 0xFFFF else if d == prev && ltb 0 prev then c else fat_get fs.fat_buf d)
  pub contents : (k : ℕ) → k < take → fs1.disk.sector (cluster_lba c) k ≡ text (written + k)
  pub elsewhere : (l j : ℕ) → l ≢ cluster_lba c → fs1.disk.sector l j ≡ fs.disk.sector l j

pub round_lem :
    (fs : Fs) (text : Bytes) (size prev written take c : ℕ)
    → CanWrite fs size prev written
    → take ≤ 512
    → 2 ≤ c
    → c ≤ 8152
    → fat_get fs.fat_buf c ≡ 0
    → (alloc_cluster fs.fat_buf).1 ≡ fat_set fs.fat_buf c 0xFFFF
    → ((write_cluster fs text written take prev c (alloc_cluster fs.fat_buf).1).0 ≡ true)
      × Round fs (after_round fs text written take prev c) text prev written take c
round_lem fs text size prev written take c v t low high z a =
    let fat = (alloc_cluster fs.fat_buf).1 in
    let (done, works, same_fat, others, contents, elsewhere) =
      write_cluster_lem fs text written take prev c fat v.works in
    let ne : prev ≢ c = λ e. ground (arith, v.linked) in
    (
      done,
      record {
        free = z;
        low = low;
        high = high;
        works = works;
        others = others;
        entry = λ d. ground (
          arith,
          same_fat,
          a,
          fat_get-link fat prev c d (omega arith) ne,
          fat_get-set fs.fat_buf c d 0xFFFF (omega arith),
        );
        contents = λ k h. contents k h (omega arith);
        elsewhere = elsewhere;
      },
    )
