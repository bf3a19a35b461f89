-- ===== src/Fs/Chain/Write.antt =====
-- kernel/fs.c: write_cluster_chain succeeds where there is room, and stores the text.
use os_u.Prelude.{
  ℕ, ◌+◌, ◌-◌, ◌≤◌, ◌<◌, ◌≡◌, ◌≢◌, inr, refl, ap, ◌∙◌, true, arith, Bytes, ltb, if◌then◌else◌,
}
use os_u.Fs.Fat.{is_cluster, cluster_lba, fat_get}
use os_u.Fs.Fat.Free.{used_below-le}
use os_u.Fs.State.{Fs}
use os_u.Fs.Chain.Stored.{Stored, last, more}
use os_u.Fs.Chain.Space.{free_count, used_below-take}
use os_u.Fs.Chain.RoundTrip.{CanWrite, Frame, Wrote, Round}

-- A cluster at the head of a stored text is one.
Stored-cluster :
    {fat : Bytes} {sector : ℕ → Bytes} {text : Bytes} {size c pos : ℕ}
    → Stored fat sector text size c pos
    → is_cluster c ≡ true
Stored-cluster (last h p q same e) = h
Stored-cluster (more h p same ne e rest) = h

module _ (fs fs1 : Fs) (text : Bytes) (size prev written take c : ℕ)
    (v : CanWrite fs size prev written) (r : Round fs fs1 text prev written take c) where
  fresh_ne_prev : prev ≢ c
  fresh_ne_prev e = ground (arith, v.linked, r.free, r.low)

  -- One entry fewer is free after the round.
  space_left : free_count fs1.fat_buf + 1 ≡ free_count fs.fat_buf
  space_left = omega (
    arith,
    used_below-le fs1.fat_buf 8153,
    used_below-le fs.fat_buf 8153,
    used_below-take fs.fat_buf fs1.fat_buf 8153 c r.free (ground (arith, r.entry c)) same_used,
    in_table,
  )
    where
      in_table : ◌≡◌ {A = ℕ} (if ltb c 8153 then 1 else 0) 1
      in_table = ground (arith, r.high)

      same_used :
          (d : ℕ)
          → d ≢ c
          → (fat_get fs1.fat_buf d ≡ 0 → fat_get fs.fat_buf d ≡ 0)
            × (fat_get fs.fat_buf d ≡ 0 → fat_get fs1.fat_buf d ≡ 0)
      same_used d ne =
          (λ z. ground (arith, r.entry d, r.low), λ z. ground (arith, r.entry d, v.linked))

  pub next_CanWrite : written + 512 < size → take ≡ 512 → CanWrite fs1 size c (written + 512)
  next_CanWrite h t = record {
    works = r.works;
    reserved = (reserved 0 v.reserved.0, reserved 1 v.reserved.1);
    space = omega (arith, v.space, space_left);
    linked = inr (r.low, ground (arith, r.entry c));
  }
    where
      reserved : (d : ℕ) → fat_get fs.fat_buf d ≢ 0 → fat_get fs1.fat_buf d ≢ 0
      reserved d n z = ground (arith, r.entry d, r.low)

  round_Frame : Frame fs fs1 prev
  round_Frame = record {
    others = r.others;
    entries = λ d ne used. ground (arith, r.entry d, r.free);
    sectors = λ l j not_free. r.elsewhere l j (not_free c (ground (arith, r.low, r.high)) r.free);
  }

  -- The frame of a whole write, from the round's and the rest's.
  whole_Frame : (fs2 : Fs) → Frame fs1 fs2 c → Frame fs fs2 prev
  whole_Frame fs2 f = record {
    others =
        f.others ∙ ap (λ (g : Fs). record g { fat_buf = fs2.fat_buf; disk = fs2.disk }) r.others;
    entries = λ d ne used. ground (arith, r.entry d, r.free, f.entries d);
    sectors = λ l j not_free.
        f.sectors l j (λ d cl z. not_free d cl (was_free d z))
        ∙ r.elsewhere l j (not_free c (ground (arith, r.low, r.high)) r.free);
  }
    where
      was_free : (d : ℕ) → fat_get fs1.fat_buf d ≡ 0 → fat_get fs.fat_buf d ≡ 0
      was_free d z = ground (arith, r.entry d, r.low)

  -- The rest of the write leaves the round's cluster as the round filled it.
  kept_contents :
      (fs2 : Fs)
      → Frame fs1 fs2 c
      → (k : ℕ) → k < take
      → fs2.disk.sector (cluster_lba c) k ≡ text (written + k)
  kept_contents fs2 f k h = f.sectors (cluster_lba c) k other ∙ r.contents k h
    where
      other :
          (d : ℕ) → is_cluster d ≡ true → fat_get fs1.fat_buf d ≡ 0 → cluster_lba c ≢ cluster_lba d
      other d cl z e = ground (arith, r.entry d, r.entry c, r.low)

  pub last_Wrote :
      written < size
      → size ≤ written + 512
      → take ≡ size - written
      → Wrote fs fs1 text size prev written c
  last_Wrote h h' t = record {
    stored =
        last (ground (arith, r.low, r.high)) h h' (λ k l. r.contents k (omega arith))
          (ground (arith, r.entry c));
    from_prev = λ ne. ground (arith, r.entry prev, fresh_ne_prev);
    frame = round_Frame;
    still_works = r.works;
  }

  pub more_Wrote :
      (fs2 : Fs) (d : ℕ)
      → written + 512 < size
      → take ≡ 512
      → Wrote fs1 fs2 text size c (written + 512) d
      → Wrote fs fs2 text size prev written c
  more_Wrote fs2 d h t w = record {
    stored =
        more (ground (arith, r.low, r.high)) h (λ k l. kept_contents fs2 w.frame k (omega arith))
          refl (ground (arith, w.from_prev, r.low, Stored-cluster w.stored)) (rw linked w.stored);
    from_prev = λ ne.
        w.frame.entries prev fresh_ne_prev (ground (arith, r.entry prev, fresh_ne_prev, r.low))
        ∙ ground (arith, r.entry prev, fresh_ne_prev);
    frame = whole_Frame fs2 w.frame;
    still_works = w.still_works;
  }
    where
      linked : fat_get fs2.fat_buf c ≡ d
      linked = w.from_prev (omega (arith, r.low))
