-- ===== src/Shell.antt =====
-- kernel/shell.c: lines, words, the history, and the commands on files.
pub mod Words
pub mod History
pub mod Commands
