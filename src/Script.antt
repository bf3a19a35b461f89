-- ===== src/Script.antt =====
-- kernel/script.c: scripts of shell commands.
pub mod Laws
pub mod Total
use os_u.Prelude.{
  ℕ, zero, suc, ◌+◌, ◌-◌, Bool, true, false, ◌&&◌, ◌||◌, Option, none, some, List, [], ◌∷◌, ◌++◌,
  Bytes, take, leb, ltb, ◌==◌, if◌then◌else◌, codes,
}
use os_u.Cstring.{strcmp}
use os_u.Vga.{vga_clear}
use os_u.Fs.State.{Fs, Status}
use os_u.Vfs.{
  vfs_touch, vfs_remove, vfs_write, vfs_append, vfs_read_ptr, vfs_mkdir, vfs_rmdir, vfs_chdir, peek,
}
use os_u.Shell.Words.{skip_ws, split_word}
use os_u.Shell.Commands.{Machine, say, run, report, is_ok, cat, cmd_pwd, list_lines}

-- The commands of execute_line.
pub data Command : Type 0 where
  echo touch rm write append cat_file mkdir rmdir cd pwd clear ls unknown : Command

abbrev pub spelt : List ℕ → List ℕ → Bool
spelt cmd name = strcmp cmd name == 0

-- The comparisons of execute_line, in their order.
unfoldable pub command_of : List ℕ → Command
command_of cmd =
    if spelt cmd (codes "echo")
    then echo
    else if spelt cmd (codes "touch")
    then touch
    else if spelt cmd (codes "rm")
    then rm
    else if spelt cmd (codes "write")
    then write
    else if spelt cmd (codes "append")
    then append
    else if spelt cmd (codes "cat")
    then cat_file
    else if spelt cmd (codes "mkdir")
    then mkdir
    else if spelt cmd (codes "rmdir")
    then rmdir
    else if spelt cmd (codes "cd")
    then cd
    else if spelt cmd (codes "pwd")
    then pwd
    else if spelt cmd (codes "clear")
    then clear
    else if spelt cmd (codes "ls")
    then ls
    else unknown

-- A message if an operation failed.
abbrev complain : List ℕ → Status × Machine → Machine
complain text (r, m) = if is_ok r then m else say text m

-- The command of a line, for its name and its arguments: `none` where the model runs out of fuel,
-- and `false` for the result -1.
unfoldable pub execute : Command → List ℕ → List ℕ → Machine → Option (Bool × Machine)
unfolding say cat cmd_pwd list_lines split_word vfs_touch vfs_remove vfs_write vfs_append vfs_mkdir
    vfs_rmdir vfs_chdir vga_clear
execute echo cmd args m = some (true, say (b'\n' ∷ []) (say args m))
execute touch cmd args m =
    some (true, complain (codes "touch failed\n") (run (λ fs. vfs_touch fs args) m))
execute rm cmd args m =
    some (true, complain (codes "rm failed\n") (run (λ fs. vfs_remove fs args) m))
execute write cmd args m =
    let (name, text) = split_word args in
    some (true, complain (codes "write failed\n") (run (λ fs. vfs_write fs name text) m))
execute append cmd args m =
    let (name, text) = split_word args in
    some (true, complain (codes "append failed\n") (run (λ fs. vfs_append fs name text) m))
execute cat_file cmd args m = some (true, cat args m)
execute mkdir cmd args m =
    some (true, complain (codes "mkdir failed\n") (run (λ fs. vfs_mkdir fs args) m))
execute rmdir cmd args m =
    some (true, complain (codes "rmdir failed\n") (run (λ fs. vfs_rmdir fs args) m))
execute cd cmd args m = some (
  true,
  if peek args == 0
      then (run (λ fs. vfs_chdir fs (b'/' ∷ [])) m).1
      else complain (codes "directory not found\n") (run (λ fs. vfs_chdir fs args) m),
)
execute pwd cmd args m = some (true, cmd_pwd m)
execute clear cmd args m = some (true, record m { screen = vga_clear m.screen })
execute ls cmd args m = elim (list_lines 33 0 m) [ none ↦ none | some (i, m') ↦ some (true, m') ]
execute unknown cmd args m =
    if peek cmd == 0
    then some (true, m)
    else some (false, say (b'\n' ∷ []) (say cmd (say (codes "unknown command: ") m)))

-- A line without its blanks at the front: at most 127 characters of it are looked at.
unfoldable pub execute_text : List ℕ → Machine → Option (Bool × Machine)
unfolding command_of execute
execute_text [] m = some (true, m)
execute_text (c ∷ line) m =
    let (cmd, args) = split_word (take 127 (c ∷ line)) in
    if c == 0 || c == b'#' then some (true, m) else execute (command_of cmd) cmd args m

-- `execute_line`
unfoldable pub execute_line : List ℕ → Machine → Option (Bool × Machine)
unfolding execute_text skip_ws
execute_line line = execute_text (skip_ws line)

-- The loop that takes a line from the `n` characters at `p`, with room for `room` characters: the line,
-- and the place behind it.
unfoldable pub copy_line : ℕ → ℕ → Bytes → ℕ → List ℕ × ℕ
copy_line zero room content p = ([], p)
copy_line (suc n) zero content p = ([], p)
copy_line (suc n) (suc room) content p =
    let (line, q) = copy_line n room content (p + 1) in
    if content p == b'\n' then ([], p) else (content p ∷ line, q)

-- A line, and the place of the next one.
unfoldable pub next_line : Bytes → ℕ → ℕ → List ℕ × ℕ
unfolding copy_line
next_line content p end =
    let (line, q) = copy_line (end - p) 127 content p in
    (line, if ltb q end && content q == b'\n' then q + 1 else q)

-- The loop of script_run, with fuel. The lines are taken from `read_cache`, to which vfs_read_ptr
-- returned a pointer, as it is when the line's turn comes.
unfoldable pub script_loop : ℕ → ℕ → ℕ → Machine → Option Machine
unfolding next_line execute_line
script_loop zero p end m = if ltb p end then none else some m
script_loop (suc n) p end m =
    let (line, q) = next_line m.fs.read_cache p end in
    let rest : Option Machine = elim (execute_line line m) [
      | none ↦ none
      | some (r, m') ↦ script_loop n q end m'
    ] in
    if ltb p end then rest else some m

-- `script_run`: `false` for the result -1. The fuel always suffices.
unfoldable pub script_run : List ℕ → Machine → Option (Bool × Machine)
unfolding script_loop vfs_read_ptr
script_run filename m =
    let (found, fs') = vfs_read_ptr m.fs filename in
    let m' = record m { fs = fs' } in
    if peek filename == 0 then some (false, m) else elim found [
      | none ↦ some (false, say (b'\n' ∷ []) (say filename (say (codes "script not found: ") m')))
      | some len ↦ elim (script_loop len 0 len m') [ none ↦ none | some m'' ↦ some (true, m'') ]
    ]
