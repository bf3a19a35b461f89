-- ===== src/Lib.antt =====
-- OsU, a 32-bit kernel: its file system, processes, heap, drivers, editor, shell and interpreters.
--
-- The parts and their files. Each operation has the name of the C function; static variables are
-- the fields of a record that the operations take and return.
--   Heap         kernel/memory.c: `Heap` holds heap_start, heap_end and heap_curr.
--   Cstring      kernel/string.c: a C string is the list of its characters.
--   Keyboard     kernel/keyboard.c: the ring of characters that the interrupt handler fills and
--                keyboard_getchar empties; a blocking read takes the scancodes that are still to
--                come, and `none` says that it goes on waiting.
--   Process      kernel/process.c and kernel/context.asm: the table of 16 slots, the scheduler and
--                the stacks. schedule returns the context switch that it asks for.
--   Disk         kernel/disk.c: the drive is a record of its sectors and of how its next transfers
--                end. Polling is modelled on the statuses that the drive reports.
--   Fs           kernel/fs.c: the file allocation table and the directories as arrays of bytes, on
--                top of Disk. Fat has the table, Chain the contents of files, Names and Dir the
--                entries, Files, Dirs, Chdir and Listing the operations, Format the mounting.
--   Vfs          kernel/vfs.c: the cleaning of paths, on top of Fs.
--   Fat32        kernel/fat32.c: reading FAT32, on top of Disk. Clusters has the chains in the table.
--   Mouse        kernel/mouse.c: the three bytes of a packet, one interrupt each.
--   Editor       kernel/editor.c: the text and the keys of both modes.
--   Vga          kernel/vga.c: the cells of the text console; Printf has vga_printf.
--   Vesa         kernel/vesa.c: Pixels has the driver with its two memories, and Draw the rectangles,
--                characters and lines on top of it.
--   Gfxcon       kernel/gfxcon.c: the console on the frame buffer, on top of Vesa.
--   Gui          kernel/gui.c: the window, the typed line and the log over the rounds of gui_run, each with
--                what the mouse and the keyboard have for it. Draw has what a round draws.
--   V86          kernel/v86.c: the emulation of instructions on the words of a frame and on memory.
--   Idt          kernel/idt.c and kernel/tss.c: the descriptor tables, and the handler of interrupts, which
--                calls V86 and then a handler that is a parameter.
--   Timer        kernel/timer.c: the tick counter; sleeping runs over the interrupts to come.
--   Syscall      kernel/syscall.c: the handler on the registers, memory, the console, the characters to
--                come from the keyboard, the timer and the process table.
--   Shell        kernel/shell.c: Words splits a line, History keeps the lines, and Commands has the
--                commands on files, on top of Vfs and Vga.
--   Script       kernel/script.c: the commands of a script, and the loop over its lines, which stand in
--                the file system's read_cache, on top of Shell.
--   Forth        kernel/lang.c: the stack, the tokens and the words of the Forth interpreter. Its
--                Postfix describes expressions in postfix notation on their own.
--   Cosypy       kernel/cospy.c: Lexer has the tokens, Parser the expressions, Statement the lines, and
--                Repl the loops over the lines typed and those of a file; State has the static
--                variables and the sequencing of programs on them. Its Expr describes expressions,
--                their values and their texts on their own.
--   Prelude      what they share: tests on numbers, lists, arrays and searches.
--   Tests        concrete inputs.
--
-- An array of bytes is a function from the index, so that an access out of bounds is one at an index
-- past the end: bounds are stated as what is not touched. So the bytes of `back` in Vesa from
-- `backbuffer_max` on are the memory behind the array of the back buffer, and a mode is valid only if it
-- fits in the array while that is drawn to. Numbers of 32 bits wrap by `% 2 ^ 32`.
-- `free_chain` runs on fuel: 8154 rounds, one more than there are clusters, since each round but the
-- last frees an entry in use. The loops over the clusters of a file take the number of bytes as fuel:
-- each round moves at least one byte. parse_expr of the CosyPy interpreter takes as fuel one more than
-- the characters and the token left, since each level of nesting takes one of them; script_run the
-- length of the file, since each line takes a character; a listing 33, since a directory has at most
-- 32 entries. execute_statement has fuel for the depth of calls of functions, for which the kernel
-- has its stack; a line on the screen takes as fuel one round more than it is long along the longer of
-- its axes. The loops of FAT32 have fuel for the clusters of a chain. The other loops recur on what is left to do.
--
-- Not modelled: the boot loader and the interrupt
-- stubs, and the instructions that load the descriptor tables, which work on hardware alone; of the
-- shell the choice of the command and the commands that start or end processes or only print; and the
-- loop of the Forth interpreter that reads the lines.
pub mod Prelude
pub mod Heap
pub mod Keyboard
pub mod Cstring
pub mod Process
pub mod Disk
pub mod Fs
pub mod Vfs
pub mod Fat32
pub mod Mouse
pub mod Editor
pub mod Vga
pub mod Vesa
pub mod Gfxcon
pub mod Gui
pub mod V86
pub mod Idt
pub mod Forth
pub mod Timer
pub mod Syscall
pub mod Shell
pub mod Script
pub mod Cosypy
pub mod Tests
