-- ===== src/Shell/Commands.antt =====
-- kernel/shell.c: the commands on files, directories and processes.
use os_u.Prelude.{
  ℕ, zero, suc, ◌+◌, ◌-◌, Bool, true, false, ◌||◌, not, Option, none, some, List, [], ◌∷◌, Bytes,
  slice, ◌==◌, if◌then◌else◌, codes,
}
use os_u.Vga.{Vga, vga_puts, vga_print_dec}
use os_u.Fs.State.{Fs, Status, ok, error}
use os_u.Fs.Listing.{Listed}
use os_u.Vfs.{
  vfs_touch, vfs_remove, vfs_write, vfs_append, vfs_read_ptr, vfs_mkdir, vfs_rmdir, vfs_chdir,
  vfs_getcwd, vfs_list_dir_entry, peek,
}
use os_u.Shell.Words.{split_first_arg}

-- What the commands work on: the file system and the text console.
pub record Machine : Type 0 where
  pub fs : Fs
  pub screen : Vga

-- `vga_puts`
unfoldable pub say : List ℕ → Machine → Machine
unfolding vga_puts
say t m = record m { screen = vga_puts m.screen t }

-- Whether an operation of the file system returned 0, and the machine after it.
abbrev pub run : (Fs → Status × Fs) → Machine → Status × Machine
run f m = let (r, fs') = f m.fs in (r, record m { fs = fs' })

abbrev pub is_ok : Status → Bool
is_ok ok = true
is_ok (error n) = false

-- A message by the result of an operation.
abbrev pub report : List ℕ → List ℕ → Status × Machine → Machine
report good bad (r, m) = say (if is_ok r then good else bad) m

-- A command with an argument that must not be empty.
abbrev with_args : List ℕ → (List ℕ → Machine → Machine) → List ℕ → Machine → Machine
with_args usage f args m = if peek args == 0 then say usage m else f args m

-- The characters of the current path; vga_puts stops at its NUL.
abbrev path_text : Bytes → List ℕ
path_text p = slice p 0 128

unfoldable pub cmd_pwd : Machine → Machine
unfolding vfs_getcwd say
cmd_pwd m =
    let (p, fs') = vfs_getcwd m.fs in say (b'\n' ∷ []) (say (path_text p) (record m { fs = fs' }))

unfoldable pub cmd_cd : List ℕ → Machine → Machine
unfolding vfs_chdir say
cmd_cd args m =
    if peek args == 0
    then (run (λ fs. vfs_chdir fs (b'/' ∷ [])) m).1
    else report [] (codes "directory not found\n") (run (λ fs. vfs_chdir fs args) m)

unfoldable pub cmd_mkdir : List ℕ → Machine → Machine
unfolding vfs_mkdir say
cmd_mkdir =
    with_args (codes "usage: mkdir DIR\n")
      (λ args m. report (codes "ok\n") (codes "mkdir failed\n") (run (λ fs. vfs_mkdir fs args) m))

-- What cmd_rmdir says for a result.
abbrev rmdir_text : Status → List ℕ
rmdir_text ok = codes "ok\n"
rmdir_text (error n) = if n == 4 then codes "directory not empty\n" else codes "rmdir failed\n"

unfoldable pub cmd_rmdir : List ℕ → Machine → Machine
unfolding vfs_rmdir say
cmd_rmdir =
    with_args (codes "usage: rmdir DIR\n")
      (λ args m. let (r, m') = run (λ fs. vfs_rmdir fs args) m in say (rmdir_text r) m')

-- The contents of a file in `read_cache`, and a newline if they do not end in one.
unfoldable show_file : ℕ → Machine → Machine
unfolding say
show_file len m =
    let m' = say (slice m.fs.read_cache 0 len) m in
    if len == 0 || not (m.fs.read_cache (len - 1) == b'\n') then say (b'\n' ∷ []) m' else m'

-- The file of that name is shown.
unfoldable pub cat : List ℕ → Machine → Machine
unfolding vfs_read_ptr show_file
cat name m =
    let (found, fs') = vfs_read_ptr m.fs name in
    let m' = record m { fs = fs' } in
    elim found [ none ↦ say (codes "file not found\n") m' | some len ↦ show_file len m' ]

unfoldable pub cmd_cat : List ℕ → Machine → Machine
unfolding cat
cmd_cat = with_args (codes "usage: cat FILE\n") cat

unfoldable pub cmd_touch : List ℕ → Machine → Machine
unfolding vfs_touch say
cmd_touch =
    with_args (codes "usage: touch FILE\n")
      (λ args m. report (codes "ok\n") (codes "touch failed\n") (run (λ fs. vfs_touch fs args) m))

unfoldable pub cmd_rm : List ℕ → Machine → Machine
unfolding vfs_remove say
cmd_rm =
    with_args (codes "usage: rm FILE\n") (λ args m.
      report (codes "ok\n") (codes "file not found\n") (run (λ fs. vfs_remove fs args) m))

abbrev pub write_usage : Bool → List ℕ
write_usage append =
    if append then codes "usage: append FILE TEXT\n" else codes "usage: write FILE TEXT\n"

unfoldable pub cmd_write_common : List ℕ → Bool → Machine → Machine
unfolding split_first_arg vfs_append vfs_write say
cmd_write_common args append =
    with_args (write_usage append)
      (λ args m.
        let (name, text) = split_first_arg args in
        if peek name == 0 || peek text == 0
        then say (write_usage append) m
        else report (codes "ok\n") (codes "write failed\n")
            (run (λ fs. if append then vfs_append fs name text else vfs_write fs name text) m))
      args

-- A line of `ls`.
unfoldable pub list_line : Listed → Machine → Machine
unfolding say vga_print_dec
list_line l m =
    let named = say l.name m in
    if l.is_dir
    then say (codes "  <DIR>\n") named
    else (let spaced = say (codes "  ") named in
        say (codes "b\n") (record spaced { screen = vga_print_dec spaced.screen l.len }))

-- The loop of `ls` from the entry `i` on, with fuel: `i` and the machine at its end.
unfoldable pub list_lines : ℕ → ℕ → Machine → Option (ℕ × Machine)
unfolding list_line vfs_list_dir_entry
list_lines zero i m = none
list_lines (suc n) i m =
    let (entry, fs') = vfs_list_dir_entry m.fs i in
    let m' = record m { fs = fs' } in
    elim entry [ none ↦ some (i, m') | some l ↦ list_lines n (i + 1) (list_line l m') ]

-- `cmd_ls`, with fuel that always suffices.
unfoldable pub cmd_ls : Machine → Option Machine
unfolding list_lines say
cmd_ls m = elim (list_lines 33 0 m) [
  | none ↦ none
  | some (i, m') ↦ some (if i == 0 then say (codes "(empty)\n") m' else m')
]
