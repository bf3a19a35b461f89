-- ===== src/Fs/Chain/Stored.antt =====
-- kernel/fs.c: what it means that a chain of clusters holds a text, and load_cluster_chain reads it.
use os_u.Prelude.{
  ℕ, zero, suc, ◌+◌, ◌-◌, ◌≤◌, ◌<◌, ◌≡◌, ◌∙◌, true, false, ◌&&◌, some, arith, Bytes, update, memcpy,
  memcpy-at, ltb, leb, if◌then◌else◌, fun_ext,
}
use os_u.Disk.{disk_read_sectors}
use os_u.Disk.Laws.{Works, disk_read_lem}
use os_u.Fs.Fat.{is_cluster, ends_chain, cluster_lba, fat_get}
use os_u.Fs.State.{Fs}
use os_u.Fs.Chain.{take_of, load_cluster, load_rounds, load_cluster_chain}

-- The chain from cluster `c` on holds the bytes of `text` from `pos` up to `size`: 512 in each cluster
-- but the last, whose entry ends the chain.
pub data Stored (fat : Bytes) (sector : ℕ → Bytes) (text : Bytes) (size : ℕ) : ℕ → ℕ → Type 0 where
  last :
      {c pos : ℕ}
      → is_cluster c ≡ true
      → pos < size
      → size ≤ pos + 512
      → ((k : ℕ) → k < size - pos → sector (cluster_lba c) k ≡ text (pos + k))
      → ends_chain (fat_get fat c) ≡ true
      → Stored fat sector text size c pos
  more :
      {c pos next : ℕ}
      → is_cluster c ≡ true
      → pos + 512 < size
      → ((k : ℕ) → k < 512 → sector (cluster_lba c) k ≡ text (pos + k))
      → next ≡ pos + 512
      → ends_chain (fat_get fat c) ≡ false
      → Stored fat sector text size (fat_get fat c) next
      → Stored fat sector text size c pos

-- The cache with the bytes of `text` from `pos` up to `size` put in their places.
abbrev pub filled : Bytes → Bytes → ℕ → ℕ → Bytes
filled cache text pos size = λ j. if leb pos j && ltb j size then text j else cache j

-- The state after a round.
abbrev pub cached : Fs → Bytes → ℕ → ℕ → Fs
cached fs text pos stop = record fs { read_cache = filled fs.read_cache text pos stop }

load_cluster_lem :
    (fs : Fs) (text : Bytes) (pos c take : ℕ)
    → Works fs.disk
    → take ≤ 512
    → ((k : ℕ) → k < take → fs.disk.sector (cluster_lba c) k ≡ text (pos + k))
    → load_cluster fs pos take c ≡ (true, cached fs text pos (pos + take))
unfolding load_cluster
load_cluster_lem fs text pos c take w h same =
    let r = disk_read_lem fs.disk (cluster_lba c) 1 (λ i. 0) 0 w in
    let sec = (disk_read_sectors fs.disk (cluster_lba c) 1 (λ i. 0) 0).1 in
    let cache : memcpy fs.read_cache pos sec 0 take ≡ filled fs.read_cache text pos (pos + take) =
      fun_ext (λ j.
        ground (arith, memcpy-at fs.read_cache pos sec 0 take j, r.2 (j - pos), same (j - pos))) in
    simp (r.0, r.1, cache)

load_rounds_step :
    (n : ℕ) (fs : Fs) (text : Bytes) (size pos c take : ℕ)
    → is_cluster c ≡ true
    → pos < size
    → take_of size pos ≡ take
    → take ≤ 512
    → Works fs.disk
    → ((k : ℕ) → k < take → fs.disk.sector (cluster_lba c) k ≡ text (pos + k))
    → load_rounds (suc n) fs size pos c ≡ (
        if ends_chain (fat_get fs.fat_buf c)
        then (true, pos + take, cached fs text pos (pos + take))
        else load_rounds n
            (cached fs text pos (pos + take))
            size
            (pos + take)
            (fat_get fs.fat_buf c))
unfolding load_rounds
load_rounds_step n fs text size pos c take h p t b w same =
    ground (arith, load_cluster_lem fs text pos c take w b same)

filled-filled :
    (cache text : Bytes) (pos mid stop : ℕ)
    → pos ≤ mid
    → mid ≤ stop
    → filled (filled cache text pos mid) text mid stop ≡ filled cache text pos stop
filled-filled cache text pos mid stop h h' = fun_ext (λ j. ground arith)

pub load_rounds_lem :
    (n : ℕ) (fs : Fs) (text : Bytes) (size : ℕ) {c pos : ℕ}
    → Stored fs.fat_buf fs.disk.sector text size c pos
    → Works fs.disk
    → size ≤ pos + n
    → load_rounds n fs size pos c ≡ (true, size, cached fs text pos size)
load_rounds_lem zero fs text size (last h p q same e) w f = absurd (omega arith)
load_rounds_lem zero fs text size (more h p same ne e rest) w f = absurd (omega arith)
load_rounds_lem (suc n) fs text size (last {c} {pos} h p q same e) w f =
    let sum : pos + (size - pos) ≡ size = omega arith in
    let step =
      load_rounds_step n fs text size pos c (size - pos) h p (ground arith) (omega arith) w same in
    step ∙ rw (e, sum)
load_rounds_lem (suc n) fs text size (more {c} {pos} {next} h p same ne e rest) w f =
    let step =
      load_rounds_step n fs text size pos c 512 h (omega arith) (ground arith) (omega arith) w
        same in
    let fs' = cached fs text pos (pos + 512) in
    let ih = load_rounds_lem n fs' text size rest w (omega arith) in
    let cache = filled-filled fs.read_cache text pos (pos + 512) size (omega arith) (omega arith) in
    step ∙ rw e (rw ne at ih ∙ rw cache)

-- On a drive of which no transfer fails, reading a chain that holds a text of at most 4096 bytes
-- succeeds, gives the size, and puts the text and a NUL behind it into the cache; nothing else
-- changes.
pub load_cluster_chain_lem :
    (fs : Fs) (text : Bytes) (size c : ℕ)
    → Stored fs.fat_buf fs.disk.sector text size c 0
    → Works fs.disk
    → size ≤ 4096
    → load_cluster_chain fs c size
      ≡ (some size, record fs { read_cache = update (filled fs.read_cache text 0 size) size 0 })
unfolding load_cluster_chain
load_cluster_chain_lem fs text size c s w h =
    ground (arith, load_rounds_lem size fs text size s w (omega arith))
