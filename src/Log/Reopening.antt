-- ===== src/Log/Reopening.antt =====
-- Closing the log to open it again keeps its name and frees its lock.
use edysquelch.Prelude.{ℕ, ◌≡◌, false, Option, some, ℤ, Bytes}
use edysquelch.RwLock.{RwLock}
use edysquelch.RwLock.Sections.{lock_of}
use edysquelch.Log.{LogDest, in_file, Log, LogEnv}

-- No thread holds the lock.
abbrev pub IsFree : RwLock → Type 0
IsFree l = (reads : ℕ) × (writes : ℕ) × (l ≡ lock_of false 0 reads writes)

-- The log as close_log and open_log leave it: the same name and a free lock, and an open file where
-- the log goes to a file.
pub record Reopened (env : LogEnv) (name : Bytes) (before after : Log) : Type 0 where
  pub same_name : after.log_name ≡ some name
  pub free : IsFree after.lock
  pub same_level : after.log_level ≡ before.log_level
  pub same_dest : after.log_dest ≡ before.log_dest
  pub file_open : before.log_dest ≡ in_file → after.log_file ≡ env.opened

abbrev pub log_of : LogDest → ℤ → Bytes → Option Bytes → Option Bytes → ℤ → RwLock → Log
log_of dest level dir name fname file lock = record {
  log_dest = dest;
  log_level = level;
  log_dir = some dir;
  log_name = name;
  log_fname = fname;
  log_file = file;
  lock = lock;
}
