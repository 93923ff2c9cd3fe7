-- ===== src/Shell.antt =====
-- The shell with a history, hw2/shell_hist.c.
pub mod History
pub mod Free
pub mod Parse
pub mod Command
pub mod Reading
pub mod Clear
mod Runs
pub mod Keeping
