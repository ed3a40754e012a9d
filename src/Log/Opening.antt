-- ===== src/Log/Opening.antt =====
-- An opened log has its name and a free lock, and can be closed.
use edysquelch.Prelude.{
  ℕ, ◌≡◌, refl, sym, ap, ◌∙◌, subst, ◌≢◌, ◌⊎◌, inl, inr, false, Option, none, some, List, ◌∷◌, ◌++◌,
  ℤ, pos, negsuc, Bytes, Halt, exited, done, halted, done-injective,
}
use edysquelch.RwLock.{RwLock, rwl_wrlock, rwl_wrunlock, run}
use edysquelch.RwLock.Sections.{lock_of}
use edysquelch.Log.{
  LogDest, none_at_all, on_stderr, on_syslog, in_file, Log, LogEnv, Output, write_lock, hlog,
  log_basename, log_debug, open_dest, opened_message, open_log, close_dest, close_log,
}
use mathlib.Core.Path.{ap₂}
use edysquelch.Log.Lines.{hlog-GoesTo}

-- No thread holds the lock.
abbrev pub IsFree : RwLock → Type 0
IsFree l = (reads : ℕ) × (writes : ℕ) × (l ≡ lock_of false 0 reads writes)

abbrev pub Named : Log → Bytes → Type 0
Named log name = (log.log_name ≡ some name) × IsFree log.lock

-- The log as close_log leaves it: it has no name, no file where it went to one, and its lock is free.
abbrev pub IsClosed : Log → Log → Type 0
IsClosed before after =
    (after.log_name ≡ none)
    × ((before.log_dest ≢ in_file) ⊎ ((after.log_file ≡ negsuc 0) × (after.log_fname ≡ none)))
    × IsFree after.lock

abbrev log_with : LogDest → ℤ → Option Bytes → Option Bytes → Option Bytes → ℤ → RwLock → Log
log_with dest level dir name fname file lock = record {
  log_dest = dest;
  log_level = level;
  log_dir = dir;
  log_name = name;
  log_fname = fname;
  log_file = file;
  lock = lock;
}

sign_cases : (z : ℤ) → ((k : ℕ) × (z ≡ negsuc k)) ⊎ ((n : ℕ) × (z ≡ pos n))
sign_cases (pos n) = inr (n, refl)
sign_cases (negsuc k) = inl (k, refl)

-- Opening stops, or gives a log with the name.
abbrev Opens : LogEnv → Bytes → Log → Type 0
Opens env name log =
    ((h : Halt) × (open_log env name false log ≡ halted h))
    ⊎ ((after : Log) × (outs : List Output) × (open_log env name false log ≡ done (after, outs))
        × Named after name)

open_in_file :
    (env : LogEnv) (name : Bytes) (level : ℤ) (dir : Bytes) (old fname : Option Bytes) (file : ℤ)
    (reads writes fd : ℕ) (said : List Output) (ret : ℤ)
    → let lock = lock_of false 0 reads writes in
      let after =
        log_with in_file level
          (some dir)
          (some name)
          (some (dir ++ (b'/' ∷ log_basename)))
          (pos fd)
          lock in
      env.opened ≡ pos fd
      → hlog env log_debug (opened_message after false) after ≡ done (after, said, ret)
      → open_log env name false (log_with in_file level (some dir) old fname file lock)
        ≡ done (after, said)
unfolding open_log write_lock open_dest rwl_wrlock rwl_wrunlock
open_in_file env name level dir old fname file reads writes fd said ret e run = simp (e, run)

opens :
    (env : LogEnv) (name : Bytes) (dest : LogDest) (level : ℤ) (dir old fname : Option Bytes)
    (file : ℤ) (reads writes : ℕ)
    → Opens env name (log_with dest level dir old fname file (lock_of false 0 reads writes))
unfolding open_log write_lock open_dest rwl_wrlock rwl_wrunlock
opens env name none_at_all level dir old fname file reads writes =
    inr (_, _, refl, (refl, (reads, writes, refl)))
opens env name on_stderr level dir old fname file reads writes =
    inr (_, _, refl, (refl, (reads, writes, refl)))
opens env name on_syslog level dir old fname file reads writes =
    inr (_, _, refl, (refl, (reads, writes, refl)))
opens env name in_file level none old fname file reads writes = inl (_, refl)
opens env name in_file level (some dir) old fname file reads writes = elim (sign_cases env.opened) [
  | inl (k, e) ↦ inl (exited, rw e refl)
  | inr (fd, e) ↦
      let lock = lock_of false 0 reads writes in
      let after =
        log_with in_file level (some dir) (some name) (some (dir ++ (b'/' ∷ log_basename))) (pos fd)
          lock in
      let said =
        hlog-GoesTo env log_debug (opened_message after false) after (0, reads, writes, refl) in
      inr (
        after,
        said.0,
        open_in_file env name level dir old fname file reads writes fd said.0 said.1 e said.2,
        (refl, (reads, writes, refl)),
      )
]

-- Opening a log with a free lock gives it its name and leaves the lock free.
pub open_log-Named :
    (env : LogEnv) (name : Bytes) (log after : Log) (outs : List Output)
    → IsFree log.lock
    → open_log env name false log ≡ done (after, outs)
    → Named after name
open_log-Named env name log after outs (reads, writes, free) e =
    let opened : Opens env name log =
      subst
        (λ l. Opens env name (
          log_with log.log_dest log.log_level log.log_dir log.log_name log.log_fname log.log_file
            l))
        (sym free)
        (opens env name log.log_dest log.log_level log.log_dir log.log_name log.log_fname
          log.log_file reads writes) in
    elim opened [
      | inl (h, stops) ↦ absurd (let e' = sym stops ∙ e in cc)
      | inr (now, said, opened_as, is_named) ↦
          let same : done (now, said) ≡ done (after, outs) = sym opened_as ∙ e in
          subst (λ l. Named l name) (ap (λ o. o.0) (done-injective same)) is_named
    ]

closes :
    (env : LogEnv) (name : Bytes) (dest : LogDest) (level : ℤ) (dir fname : Option Bytes) (file : ℤ)
    (reads writes : ℕ)
    → let log = log_with dest level dir (some name) fname file (lock_of false 0 reads writes) in
      (after : Log) × (outs : List Output) × (close_log env false log ≡ done (after, outs))
      × IsClosed log after
unfolding close_log write_lock rwl_wrlock rwl_wrunlock close_dest
closes env name none_at_all level dir fname file reads writes =
    (_, _, refl, (refl, inl (λ e. cc), (reads, writes, refl)))
closes env name on_stderr level dir fname file reads writes =
    (_, _, refl, (refl, inl (λ e. cc), (reads, writes, refl)))
closes env name on_syslog level dir fname file reads writes =
    (_, _, refl, (refl, inl (λ e. cc), (reads, writes, refl)))
closes env name in_file level dir fname file reads writes =
    (_, _, refl, (refl, inr (refl, refl), (reads, writes, refl)))

-- A log with a name and a free lock can be closed.
pub close_log-Named :
    (env : LogEnv) (name : Bytes) (log : Log)
    → Named log name
    → (after : Log) × (outs : List Output) × (close_log env false log ≡ done (after, outs))
      × IsClosed log after
close_log-Named env name log (named, (reads, writes, free)) =
    let same : log_with log.log_dest log.log_level log.log_dir (some name) log.log_fname
          log.log_file (lock_of false 0 reads writes)
        ≡ log =
      ap₂ (λ n l. log_with log.log_dest log.log_level log.log_dir n log.log_fname log.log_file l)
        (sym named) (sym free) in
    subst
      (λ l.
        (after : Log) × (outs : List Output) × (close_log env false l ≡ done (after, outs))
        × IsClosed l after)
      same
      (closes env name log.log_dest log.log_level log.log_dir log.log_fname log.log_file reads
        writes)
