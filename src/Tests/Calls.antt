-- ===== src/Tests/Calls.antt =====
-- Inputs of kernel/timer.c, syscall.c, shell.c and script.c.
use os_u.Prelude.{
  ℕ, ◌+◌, ◌-◌, ◌^◌, ◌≡◌, refl, Bool, true, some, List, [], ◌∷◌, ◌++◌, arith, Bytes, length, codes,
}
use os_u.Cstring.{strcmp, of_list}
use os_u.Vga.{vga_init, vga_puts}
use os_u.Process.Defs.{process_init, stay}
use os_u.Timer.{Timer}
use os_u.Syscall.{System, syscall_handler, returns}
use os_u.Syscall.Laws.{write-read}
use os_u.Shell.Words.{skip_ws, split_word}
use os_u.Shell.Commands.{Machine, say}
use os_u.Script.{command_of, execute, execute_text, execute_line, script_loop, script_run}
use os_u.Script.Total.{script_run_total}
use os_u.Script.Laws.{unlines, run_all, KeepCache, script_loop-lines}

abbrev timer : Timer
timer = record { tick_count = 2 ^ 32 - 2; tick_frequency = 100 }

abbrev system : System
system = record {
  mem = λ i. 0;
  screen = vga_init (λ i. 0);
  keys = codes "hi\n" ++ codes "x";
  wakes = [];
  timer = timer;
  table = process_init;
}

write-read_example :
    (mem : Bytes) × (syscall_handler (record { eax = 2; ebx = 0; ecx = 4096; edx = 10 }) system
      ≡ returns
          (record { eax = length (codes "hi") + 1; ebx = 0; ecx = 4096; edx = 10 })
          stay
          (record system { mem = mem; keys = codes "x" }))
    × (syscall_handler
          (record { eax = 1; ebx = 1; ecx = 4096; edx = length (codes "hi") + 1 })
          (record system { mem = mem; keys = codes "x" })
        ≡ returns
            (record {
              eax = length (codes "hi") + 1;
              ebx = 1;
              ecx = 4096;
              edx = length (codes "hi") + 1;
            })
            stay
            (record system {
              mem = mem;
              keys = codes "x";
              screen = vga_puts system.screen (codes "hi" ++ b'\n' ∷ []);
            }))
write-read_example =
    write-read (codes "hi") (codes "x") 4096 10 system
      ((λ e. omega arith), ((λ e. omega arith), tt)) ((λ e. omega arith), ((λ e. omega arith), tt))
      (omega arith) (omega arith) refl

abbrev lines : List (List ℕ)
lines = codes "echo a" ∷ codes "# b" ∷ []

abbrev machine : Machine
machine = record {
  fs = record {
    disk = record { sector = λ l j. 0; polls = [] };
    fat_buf = λ i. 0;
    root_buf = λ i. 0;
    dir_buf = λ i. 0;
    read_cache = of_list (unlines lines);
    fs_ready = true;
    current_dir_cluster = 0;
    current_path = λ i. 0;
  };
  screen = vga_init (λ i. 0);
}

script_run_total_example : (r : Bool × Machine) × (script_run (codes "a.sh") machine ≡ some r)
script_run_total_example = script_run_total (codes "a.sh") machine

lines_KeepCache : KeepCache lines machine
unfolding execute_line execute_text command_of execute skip_ws split_word strcmp say
lines_KeepCache = ((_, refl, refl, (_, refl, refl, tt)))

script_loop-lines_example : script_loop 2 0 (length (unlines lines)) machine ≡ run_all lines machine
script_loop-lines_example =
    script_loop-lines 2 0 (length (unlines lines)) lines machine
      (
        (
          (λ e. omega arith),
          (
            (λ e. omega arith),
            (
              (λ e. omega arith),
              ((λ e. omega arith), ((λ e. omega arith), ((λ e. omega arith), tt))),
            ),
          ),
        ),
        omega arith,
        (((λ e. omega arith), ((λ e. omega arith), ((λ e. omega arith), tt))), omega arith, tt),
      )
      (refl, (refl, (refl, (refl, (refl, (refl, (refl, (refl, (refl, (refl, (refl, tt)))))))))))
      lines_KeepCache (omega arith) refl
