-- ===== src/Log/Access.antt =====
-- The access log of src/hlog.c. What it says goes to hlog, as a level with a text.
pub mod Losses
use edysquelch.Prelude.{
  ◌+◌, ◌-◌, Bool, true, Option, none, some, List, [], ◌∷◌, ◌++◌, ◌==◌, if◌then◌else◌, length, take,
  ℤ, pos, negsuc, ◌-ℤ◌, ltb_ℤ, is_zero, Bytes, codes, joined, Outcome, done, ◌>>=◌,
}
use edysquelch.OutJson.{padded}
use edysquelch.RwLock.{RwLock, rwl_wrunlock}
use edysquelch.Log.{log_len, LogEnv, Output, to_file, write_lock, read_section, log_debug}

pub record AccessLog : Type 0 where
  pub accesslog_dir : Option Bytes
  pub accesslog_fname : Option Bytes
  pub accesslog_file : ℤ
  pub lock : RwLock

-- The levels LOG_CRIT, LOG_ERR and LOG_DEBUG.
abbrev pub log_crit : ℤ
log_crit = pos 2

abbrev pub log_err : ℤ
log_err = pos 3

abbrev pub accesslog_basename : Bytes
accesslog_basename = codes "gnuais.access.log"

-- -1 and -666
abbrev pub closed_file : ℤ
closed_file = negsuc 0

abbrev pub lost_file : ℤ
lost_file = negsuc 665

abbrev pub Said : Type 0
Said = List (ℤ × Bytes)

-- The file is opened, and the lock freed; a file that cannot be opened is said.
unfoldable pub accesslog_open : LogEnv → Bytes → Bool → AccessLog → Outcome (AccessLog × Said × ℤ)
accesslog_open env logd reopen log = do
  lock ← if reopen then done log.lock else write_lock log.lock
  let opened : AccessLog = record {
    accesslog_dir = some logd;
    accesslog_fname = some (logd ++ (b'/' ∷ accesslog_basename));
    accesslog_file = env.opened;
    lock = (rwl_wrunlock lock).0;
  }
  done (
    opened,
    if ltb_ℤ env.opened (pos 0) then (log_crit, codes "Could not open") ∷ [] else [],
    env.opened,
  )

unfoldable pub accesslog_close : LogEnv → Option Bytes → AccessLog → Outcome (AccessLog × Said × ℤ)
unfolding accesslog_open
accesslog_close env reopenpath log = do
  lock ← write_lock log.lock
  let said =
      (log_debug, codes "Closing access log...")
      ∷ (log_debug, codes "Closing access log, got lock")
      ∷ (if env.close_done then [] else (log_crit, codes "Could not close") ∷ [])
  let closed : AccessLog = record {
    accesslog_dir = none;
    accesslog_fname = none;
    accesslog_file = closed_file;
    lock = lock;
  }
  elim reopenpath [
    | some path ↦ (do
      (again, more, ret) ← accesslog_open env path true closed
      done (again, said ++ more, ret))
    | none ↦ done (record closed { lock = (rwl_wrunlock lock).0 }, said, pos 0)
  ]

-- The line of a message that vsnprintf has cut.
unfoldable pub access_line : LogEnv → Bytes → Bytes
unfolding padded
access_line env s = joined (
    codes "["
    ∷ padded 4 (env.tm.tm_year + 1900)
    ∷ codes "/"
    ∷ padded 2 (env.tm.tm_mon + 1)
    ∷ codes "/"
    ∷ padded 2 env.tm.tm_mday
    ∷ codes " "
    ∷ padded 2 env.tm.tm_hour
    ∷ codes ":"
    ∷ padded 2 env.tm.tm_min
    ∷ codes ":"
    ∷ padded 2 env.tm.tm_sec
    ∷ codes "] "
    ∷ s
    ∷ (10 ∷ [])
    ∷ [])

-- What accesslog does between taking and freeing the lock; `wrote` is what write() gives. The second
-- part is the write, with the string in the buffer and the number of bytes that write() is told.
unfoldable pub access_write : ℤ → Bytes → AccessLog → AccessLog × List Output × Said
access_write wrote line log = elim log.accesslog_file [
  | pos fd ↦ (
    log,
    to_file (pos fd) (take (log_len - 1) line) (length line) ∷ [],
    if is_zero (wrote -ℤ pos (length line))
        then []
        else (log_crit, codes "Could not write to") ∷ [],
  )
  | negsuc k ↦ if k == 665 then (log, [], []) else (
    record log { accesslog_file = lost_file },
    [],
    (log_err, codes "Access log not open, log lines are lost!") ∷ [],
  )
]

unfoldable pub accesslog : LogEnv → ℤ → Bytes → AccessLog → Outcome (AccessLog × List Output × Said)
unfolding access_line access_write
accesslog env wrote message log = do
  lock ← read_section log.lock
  done (
      access_write wrote (access_line env (take (log_len - 1) message))
        (record log { lock = lock }))
