-- ===== src/Script/Total.antt =====
-- kernel/script.c: every listing, every line and every script comes to an end.
use os_u.Prelude.{
  ℕ, zero, suc, ◌+◌, ◌-◌, ◌≤◌, ◌<◌, ◌≡◌, inl, inr, refl, Bool, true, false, ◌||◌, Option, none,
  some, Bool-cases, List, [], ◌∷◌, Bytes, arith, ltb, ◌==◌, take, codes,
}
use os_u.Fs.State.{Fs, entries, max_entries, current_dir_entries}
use os_u.Fs.Listing.{Listed, list_from, fs_list_dir_entry}
use os_u.Fs.Dir.{lead}
use os_u.Vfs.{vfs_list_dir_entry, vfs_read_ptr, peek}
use os_u.Shell.Words.{skip_ws, split_word}
use os_u.Shell.Commands.{Machine, say, list_line, list_lines, cmd_ls}
use os_u.Script.{
  Command, echo, touch, rm, write, append, cat_file, mkdir, rmdir, cd, pwd, clear, ls, unknown,
  command_of, execute, execute_text, execute_line, copy_line, next_line, script_loop, script_run,
}

-- An index past the entries lists nothing.
list_from-past :
    (hidden : Bytes → ℕ → Bool) (e : Bytes) (n i index : ℕ)
    → n ≤ index
    → list_from hidden e n i index ≡ none
unfolding list_from
list_from-past hidden e zero i index h = refl
list_from-past hidden e (suc n) i index h = ground (
  arith,
  list_from-past hidden e n (i + 1) index (omega arith),
  list_from-past hidden e n (i + 1) (index - 1) (omega arith),
)

vfs_list_dir_entry-past : (fs : Fs) (i : ℕ) → 32 ≤ i → (vfs_list_dir_entry fs i).0 ≡ none
unfolding vfs_list_dir_entry fs_list_dir_entry
vfs_list_dir_entry-past fs i h = ground (
  arith,
  list_from-past (λ e j. lead e j == b'.') (entries (current_dir_entries fs).1)
      (max_entries (current_dir_entries fs).1) 0 i (max_entries-bound (current_dir_entries fs).1),
)
  where
    max_entries-bound : (g : Fs) → max_entries g ≤ i
    max_entries-bound g = ground arith

-- There is a result.
abbrev Returns {ℓ} : {A : Type ℓ} → Option A → Type ℓ
Returns {A = A} o = (a : A) × (o ≡ some a)

then_Returns :
    {A B : Type 0} (f : A → Option B) (o : Option A)
    → Returns o
    → ((a : A) → Returns (f a))
    → Returns (elim o [ none ↦ none | some a ↦ f a ])
then_Returns f o (a, e) h = rw e (h a)

list_lines_total : (n i : ℕ) (m : Machine) → i ≤ 32 → 33 ≤ n + i → Returns (list_lines n i m)
unfolding list_lines
list_lines_total zero i m h k = absurd (omega arith)
list_lines_total (suc n) i m h k =
    entry (λ m' j. list_lines_total n (i + 1) m' (omega arith) (omega arith))
      (vfs_list_dir_entry m.fs i).0 refl
  where
    after : Machine
    after = record m { fs = (vfs_list_dir_entry m.fs i).1 }

    entry :
        ((m' : Machine) → i < 32 → Returns (list_lines n (i + 1) m'))
        → (e : Option Listed) → (vfs_list_dir_entry m.fs i).0 ≡ e
        → Returns {A = ℕ × Machine}
            (elim e [ none ↦ some (i, after) | some l ↦ list_lines n (i + 1) (list_line l after) ])
    entry next none q = (_, refl)
    entry next (some l) q = elim (Bool-cases (ltb i 32)) [
      | inl b ↦ next (list_line l after) (ground (arith, b))
      | inr b ↦ let past = vfs_list_dir_entry-past m.fs i (ground (arith, b)) in cc
    ]

-- A listing of the current directory ends.
cmd_ls_total : (m : Machine) → (m' : Machine) × (cmd_ls m ≡ some m')
unfolding cmd_ls
cmd_ls_total m =
    then_Returns _ (list_lines 33 0 m) (list_lines_total 33 0 m (omega arith) (omega arith))
      (λ r. (_, refl))

execute_total : (c : Command) (cmd args : List ℕ) (m : Machine) → Returns (execute c cmd args m)
unfolding execute
execute_total echo cmd args m = (_, refl)
execute_total touch cmd args m = (_, refl)
execute_total rm cmd args m = (_, refl)
execute_total write cmd args m = (_, refl)
execute_total append cmd args m = (_, refl)
execute_total cat_file cmd args m = (_, refl)
execute_total mkdir cmd args m = (_, refl)
execute_total rmdir cmd args m = (_, refl)
execute_total cd cmd args m = (_, refl)
execute_total pwd cmd args m = (_, refl)
execute_total clear cmd args m = (_, refl)
execute_total ls cmd args m =
    then_Returns _ (list_lines 33 0 m) (list_lines_total 33 0 m (omega arith) (omega arith))
      (λ r. (_, refl))
execute_total unknown cmd args m = elim (Bool-cases (peek cmd == 0)) [
  | inl e ↦ ((true, m), ground (arith, e))
  | inr e ↦
      ((false, say (b'\n' ∷ []) (say cmd (say (codes "unknown command: ") m))), ground (arith, e))
]

execute_line_total : (line : List ℕ) (m : Machine) → Returns (execute_line line m)
unfolding execute_line execute_text
execute_line_total line m = text (skip_ws line)
  where
    text : (t : List ℕ) → Returns (execute_text t m)
    text [] = (_, refl)
    text (c ∷ t) =
        let (cmd, args) = split_word (take 127 (c ∷ t)) in
        let (r, e) = execute_total (command_of cmd) cmd args m in
        elim (Bool-cases ((c == 0) || (c == b'#'))) [
          | inl b ↦ ((true, m), ground (arith, b))
          | inr b ↦ (r, ground (arith, b, e))
        ]

copy_line-place : (n room : ℕ) (content : Bytes) (p : ℕ) → (p ≤ (copy_line n room content p).1)
unfolding copy_line
copy_line-place zero room content p = omega arith
copy_line-place (suc n) zero content p = omega arith
copy_line-place (suc n) (suc room) content p =
    ground (arith, copy_line-place n room content (p + 1))

copy_line-progress :
    (n room : ℕ) (content : Bytes) (p : ℕ)
    → 0 < n
    → 0 < room
    → (content p == b'\n') ≡ false
    → p < (copy_line n room content p).1
unfolding copy_line
copy_line-progress zero room content p h k e = absurd (omega arith)
copy_line-progress (suc n) zero content p h k e = absurd (omega arith)
copy_line-progress (suc n) (suc room) content p h k e =
    ground (arith, e, copy_line-place n room content (p + 1))

copy_line-newline :
    (n room : ℕ) (content : Bytes) (p : ℕ)
    → (content p == b'\n') ≡ true
    → (copy_line n room content p).1 ≡ p
unfolding copy_line
copy_line-newline zero room content p e = refl
copy_line-newline (suc n) zero content p e = refl
copy_line-newline (suc n) (suc room) content p e = ground (arith, e)

-- The next line begins behind this one.
next_line-progress : (content : Bytes) (p end : ℕ) → p < end → p < (next_line content p end).1
unfolding next_line
next_line-progress content p end h = elim (Bool-cases (content p == b'\n')) [
  | inl e ↦ rw (copy_line-newline (end - p) 127 content p e) (ground (arith, e))
  | inr e ↦ ground (arith, copy_line-progress (end - p) 127 content p (omega arith) (omega arith) e)
]

script_loop_total : (n p end : ℕ) (m : Machine) → end ≤ n + p → Returns (script_loop n p end m)
unfolding script_loop
script_loop_total zero p end m h = (m, ground arith)
script_loop_total (suc n) p end m h = elim (Bool-cases (ltb p end)) [
  | inl b ↦
      let (line, q) = next_line m.fs.read_cache p end in
      let goes : p < q = next_line-progress m.fs.read_cache p end (ground (arith, b)) in
      let (r, e) =
        then_Returns (λ r. script_loop n q end r.1) (execute_line line m)
          (execute_line_total line m) (λ r. script_loop_total n q end r.1 (omega arith)) in
      (r, ground (arith, b, e))
  | inr b ↦ (m, ground (arith, b))
]

-- Every script comes to an end: script_run returns for each file name and each state, with the fuel
-- that it has.
pub script_run_total :
    (filename : List ℕ) (m : Machine) → (r : Bool × Machine) × (script_run filename m ≡ some r)
unfolding script_run
script_run_total filename m = elim (Bool-cases (peek filename == 0)) [
  | inl b ↦ ((false, m), ground (arith, b))
  | inr b ↦ let (r, e) = found (vfs_read_ptr m.fs filename).0 in (r, ground (arith, b, e))
]
  where
    after : Machine
    after = record m { fs = (vfs_read_ptr m.fs filename).1 }

    found :
        (o : Option ℕ)
        → Returns {A = Bool × Machine} (elim o [
          | none ↦
              some (false, say (b'\n' ∷ []) (say filename (say (codes "script not found: ") after)))
          | some len ↦ elim (script_loop len 0 len after) [
            | none ↦ none
            | some m'' ↦ some (true, m'')
          ]
        ])
    found none = (_, refl)
    found (some len) =
        then_Returns (λ m''. some (true, m'')) (script_loop len 0 len after)
          (script_loop_total len 0 len after (omega arith)) (λ m''. (_, refl))
