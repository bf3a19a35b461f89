-- ===== src/Fs/Chain/Total.antt =====
-- kernel/fs.c: the whole of write_cluster_chain, and reading back what it wrote.
use os_u.Prelude.{
  ℕ, zero, suc, ◌+◌, ◌-◌, ◌/◌, ◌≤◌, ◌<◌, ◌≡◌, ◌≢◌, inl, refl, ◌∙◌, some, arith, Bytes, ◌==◌,
  if◌then◌else◌,
}
use native.Mathlib.Decide.{dec_lt}
use os_u.Disk.Laws.{Works}
use os_u.Fs.Fat.{fat_get}
use os_u.Fs.State.{Fs, Status, ok}
use os_u.Fs.Chain.{write_rounds, write_cluster_chain, load_cluster_chain}
use os_u.Fs.Chain.Stored.{load_cluster_chain_lem}
use os_u.Fs.Chain.Space.{Reserved, free_count}
use os_u.Fs.Chain.RoundTrip.{
  CanWrite, Wrote, after_round, round_lem, write_rounds-done, write_rounds-suc, alloc-found,
}
use os_u.Fs.Chain.Write.{last_Wrote, more_Wrote, next_CanWrite}

pub write_rounds_lem :
    (n : ℕ) (fs : Fs) (text : Bytes) (size first prev written : ℕ)
    → written < size
    → size ≤ written + n
    → CanWrite fs size prev written
    → (c : ℕ) × (fs' : Fs) × (2 ≤ c)
      × (write_rounds n fs text size first prev written
          ≡ (ok, (if first == 0 then c else first), fs'))
      × Wrote fs fs' text size prev written c
write_rounds_lem zero fs text size first prev written h f v = absurd (omega arith)
write_rounds_lem (suc n) fs text size first prev written h f v =
    let (c, low, high, z, a) = alloc-found fs.fat_buf v.reserved (omega (arith, v.space)) in
    elim (dec_lt (written + 512) size) [
      | yes l ↦
          let (done, r) =
            round_lem fs text size prev written 512 c v (omega arith) low high z
              (ground (arith, a)) in
          let fs1 = after_round fs text written 512 prev c in
          let step =
            write_rounds-suc n fs text size first prev written 512 c h (ground arith)
              (ground (arith, a)) done in
          let (d, fs2, low', run, w) =
            write_rounds_lem n fs1 text size (if first == 0 then c else first) c (written + 512) l
              (omega arith) (next_CanWrite fs fs1 text size prev written 512 c v r l refl) in
          (
            c,
            fs2,
            low,
            step ∙ run ∙ kept n fs2 c d low,
            more_Wrote fs fs1 text size prev written 512 c v r fs2 d l refl w,
          )
      | no g ↦
          let take = size - written in
          let (done, r) =
            round_lem fs text size prev written take c v (omega arith) low high z
              (ground (arith, a)) in
          let fs1 = after_round fs text written take prev c in
          let step =
            write_rounds-suc n fs text size first prev written take c h (ground arith)
              (ground (arith, a)) done in
          (
            c,
            fs1,
            low,
            step
                ∙ write_rounds-done n fs1 text size (if first == 0 then c else first) c
                    (written + take) (omega arith),
            last_Wrote fs fs1 text size prev written take c v r h (omega arith) refl,
          )
    ]
  where
    kept :
        (n : ℕ) (fs2 : Fs) (c d : ℕ)
        → 2 ≤ c
        → ◌≡◌ {A = Status × ℕ × Fs}
            (
              ok,
              (if (if first == 0 then c else first) == 0
                  then d
                  else (if first == 0 then c else first)),
              fs2,
            )
            (ok, (if first == 0 then c else first), fs2)
    kept n fs2 c d low = ground arith

write_cluster_chain-eq :
    (fs : Fs) (text : Bytes) (size : ℕ)
    → 0 < size
    → write_cluster_chain fs text size ≡ write_rounds size fs text size 0 0 0
unfolding write_cluster_chain
write_cluster_chain-eq fs text size h = ground arith

-- On a drive that works, with the two reserved entries in use and a free cluster for each 512 bytes,
-- writing a text of 1 to 4096 bytes succeeds, and reading the chain that it returns gives the same
-- number of bytes, the same bytes in the cache and a NUL behind them. Entries of clusters that
-- were in use keep their values.
pub load-write_cluster_chain :
    (fs : Fs) (text : Bytes) (size : ℕ)
    → 0 < size
    → size ≤ 4096
    → Works fs.disk
    → Reserved fs.fat_buf
    → (size + 511) / 512 ≤ free_count fs.fat_buf
    → let (status, first, fs') = write_cluster_chain fs text size in
      let (got, fs'') = load_cluster_chain fs' first size in
      (status ≡ ok)
      × (2 ≤ first)
      × (got ≡ some size)
      × ((j : ℕ) → j < size → fs''.read_cache j ≡ text j)
      × (fs''.read_cache size ≡ 0)
      × ((d : ℕ) → d ≢ 0 → fat_get fs.fat_buf d ≢ 0 → fat_get fs'.fat_buf d ≡ fat_get fs.fat_buf d)
load-write_cluster_chain fs text size pos fits w r space =
    let v : CanWrite fs size 0 0 = record {
      works = w;
      reserved = r;
      space = omega arith;
      linked = inl refl;
    } in
    let (c, fs', low, run, wrote) = write_rounds_lem size fs text size 0 0 0 pos (omega arith) v in
    let read = load_cluster_chain_lem fs' text size c wrote.stored wrote.still_works fits in
    rw (write_cluster_chain-eq fs text size pos ∙ run) (
      rw read (
        refl,
        low,
        refl,
        λ j h. ground arith,
        ground arith,
        λ d ne used. wrote.frame.entries d ne used,
      ))
