-- ===== src/Log.antt =====
-- src/hlog.c: the log, its file and its lock. The lock is that of RwLock; a call that would wait for
-- it halts as blocked, since no other thread is there to free it.
pub mod Lines
pub mod Opening
pub mod Appending
pub mod Reopening
pub mod Access
pub mod Pid
mod Tests
use edysquelch.Prelude.{
  ℕ, zero, suc, ◌+◌, ◌-◌, Bool, true, false, Option, none, some, List, [], ◌∷◌, ◌++◌, ltb,
  if◌then◌else◌, length, get_or, take, ℤ, pos, negsuc, ltb_ℤ, Bytes, codes, null_followed, exited,
  blocked, Outcome, done, halted, ◌>>=◌, joined,
}
use edysquelch.OutJson.{decimal, Tm, padded}
use edysquelch.RwLock.{RwLock, replies, blocks, rwl_rdlock, rwl_rdunlock, rwl_wrlock, rwl_wrunlock}
use edysquelch.Cfg.CommandLine.{log_levelnames}

-- LOG_LEN, and the destinations
abbrev pub log_len : ℕ
log_len = 8192

pub data LogDest : Type 0 where
  none_at_all on_stderr on_syslog in_file : LogDest

-- The global variables of the log; `none` is NULL.
pub record Log : Type 0 where
  pub log_dest : LogDest
  pub log_level : ℤ
  pub log_dir : Option Bytes
  pub log_name : Option Bytes
  pub log_fname : Option Bytes
  pub log_file : ℤ
  pub lock : RwLock

-- What the system gives to a call: the file descriptor of open(), whether close() succeeded, the
-- date with its microseconds, the process and the thread.
pub record LogEnv : Type 0 where
  pub opened : ℤ
  pub close_done : Bool
  pub tm : Tm
  pub usec : ℕ
  pub pid : ℕ
  pub thread : ℕ

-- What is sent out. A write to a file has the string in the buffer and the number of bytes that
-- write() is told.
pub data Output : Type 0 where
  to_stderr : Bytes → Output
  to_file : ℤ → Bytes → ℕ → Output
  to_syslog : ℕ → Bytes → Output
  syslog_open : Bytes → Output
  syslog_close : Output

-- rwl_wrlock and rwl_rdlock with nobody to wait for.
unfoldable pub write_lock : RwLock → Outcome RwLock
write_lock l =
    let (l', reply) = rwl_wrlock l in elim reply [ replies _ ↦ done l' | blocks ↦ halted blocked ]

unfoldable pub read_section : RwLock → Outcome RwLock
read_section l =
    let (l', reply) = rwl_rdlock l in
    elim reply [ replies _ ↦ done (rwl_rdunlock l').0 | blocks ↦ halted blocked ]

unfoldable pub clamped : ℤ → ℕ
clamped (pos n) = if ltb 7 n then 7 else n
clamped (negsuc n) = 0

unfoldable pub blanks : ℕ → Bytes
blanks zero = []
blanks (suc n) = b' ' ∷ blanks n

-- "%4d"
unfoldable pub blank_padded : ℕ → ℕ → Bytes
blank_padded width n = blanks (width - length (decimal n)) ++ decimal n

-- The date and time of a line.
unfoldable pub stamp : LogEnv → Bytes
unfolding blank_padded
stamp env = joined (
    blank_padded 4 (env.tm.tm_year + 1900)
    ∷ codes "/"
    ∷ padded 2 (env.tm.tm_mon + 1)
    ∷ codes "/"
    ∷ padded 2 env.tm.tm_mday
    ∷ codes " "
    ∷ padded 2 env.tm.tm_hour
    ∷ codes ":"
    ∷ padded 2 env.tm.tm_min
    ∷ codes ":"
    ∷ padded 2 env.tm.tm_sec
    ∷ codes "."
    ∷ padded 6 env.usec
    ∷ [])

abbrev pub shown_name : Option Bytes → Bytes
shown_name none = codes "gnuais"
shown_name (some name) = name

-- A message with the name of its level in front.
unfoldable pub levelled : ℕ → Bytes → Bytes
levelled priority s = get_or log_levelnames priority [] ++ (codes ": " ++ s)

-- The whole line, of a message that vsnprintf has cut already.
unfoldable pub log_line : LogEnv → Option Bytes → ℕ → Bytes → Bytes
unfolding stamp levelled
log_line env name priority s = joined (
    stamp env
    ∷ codes " "
    ∷ shown_name name
    ∷ codes "["
    ∷ decimal env.pid
    ∷ codes ":"
    ∷ decimal env.thread
    ∷ codes "] "
    ∷ levelled priority s
    ∷ (10 ∷ [])
    ∷ [])

-- A text behind a string that may be NULL.
unfoldable pub str_append : Option Bytes → Bytes → Bytes
str_append none message = take (log_len - 1) message
str_append (some s) message = s ++ take (log_len - 1) message

-- The three branches of hlog: the whole line, or the levelled message for syslog. write() is taken to
-- succeed; hlog says on stderr where it does not.
unfoldable pub sink : LogDest → ℤ → ℕ → Bytes → Bytes → Option Output
sink none_at_all file priority line short = none
sink on_stderr file priority line short = some (to_stderr line)
sink on_syslog file priority line short = some (to_syslog priority short)
sink in_file (negsuc _) priority line short = none
sink in_file (pos fd) priority line short =
    some (to_file (pos fd) (take (log_len - 1) line) (length line))

-- What hlog sends out for a message that is not below its level.
unfoldable pub log_output : LogEnv → Log → ℕ → Bytes → Option Output
unfolding sink log_line
log_output env log priority s =
    sink log.log_dest log.log_file priority (log_line env log.log_name priority s)
      (levelled priority s)

-- hlog with the text of its message: the log, what is sent out, and the value returned.
unfoldable pub hlog : LogEnv → ℤ → Bytes → Log → Outcome (Log × List Output × ℤ)
unfolding clamped log_output
hlog env priority message log =
    let p = clamped priority in
    if ltb_ℤ log.log_level (pos p)
    then done (log, [], pos 0)
    else elim (log_output env log p (take (log_len - 1) message)) [
      | none ↦ done (log, [], pos 1)
      | some output ↦ (do
        lock ← read_section log.lock
        done (record log { lock = lock }, output ∷ [], pos 1))
    ]

abbrev pub log_basename : Bytes
log_basename = codes "gnuais.log"

abbrev pub log_debug : ℤ
log_debug = pos 7

-- The signed decimal digits of a descriptor.
unfoldable pub signed_decimal : ℤ → Bytes
signed_decimal (pos n) = decimal n
signed_decimal (negsuc n) = b'-' ∷ decimal (n + 1)

-- The part of open_log that depends on the destination; a log file without a directory would follow
-- a NULL.
unfoldable pub open_dest : LogEnv → Bytes → Log → Outcome (Log × List Output)
open_dest env name log = elim log.log_dest [
  | none_at_all ↦ done (log, [])
  | on_stderr ↦ done (log, [])
  | on_syslog ↦ done (log, syslog_open name ∷ [])
  | in_file ↦ elim log.log_dir [
    | none ↦ halted null_followed
    | some dir ↦ elim env.opened [
      | negsuc _ ↦ halted exited
      | pos fd ↦
          done
            (record log { log_fname = some (dir ++ (b'/' ∷ log_basename)); log_file = pos fd }, [])
    ]
  ]
]

abbrev pub is_in_file : LogDest → Bool
is_in_file in_file = true
is_in_file _ = false

-- "Log file %s %sopened on fd %d"
unfoldable pub opened_message : Log → Bool → Bytes
opened_message log reopen = joined (
    codes "Log file "
    ∷ elim log.log_fname [ none ↦ codes "(null)" | some f ↦ f ]
    ∷ codes " "
    ∷ (if reopen then codes "re" else [])
    ∷ codes "opened on fd "
    ∷ signed_decimal log.log_file
    ∷ [])

unfoldable pub open_log : LogEnv → Bytes → Bool → Log → Outcome (Log × List Output)
unfolding write_lock open_dest hlog opened_message
open_log env name reopen log = do
  lock ← if reopen then done log.lock else write_lock log.lock
  (opened, outs) ← open_dest env name (record log { log_name = some name; lock = lock })
  let free = record opened { lock = (rwl_wrunlock opened.lock).0 }
  if is_in_file log.log_dest
      then (do
        said ← hlog env log_debug (opened_message free reopen) free
        done (said.0, outs ++ said.1))
      else done (free, outs)

-- The part of close_log that depends on the destination; a failed close() is said on stderr.
unfoldable pub close_dest : LogEnv → Log → Log × List Output
close_dest env log = elim log.log_dest [
  | none_at_all ↦ (log, [])
  | on_stderr ↦ (log, [])
  | on_syslog ↦ (log, syslog_close ∷ [])
  | in_file ↦ (
    record log { log_file = negsuc 0; log_fname = none },
    if env.close_done
        then []
        else to_stderr (codes "hemserv logger: Could not close log file") ∷ [],
  )
]

-- A log that was never opened has no name to copy.
unfoldable pub close_log : LogEnv → Bool → Log → Outcome (Log × List Output)
unfolding write_lock close_dest open_log
close_log env reopen log = elim log.log_name [
  | none ↦ halted null_followed
  | some s ↦ (do
    lock ← write_lock log.lock
    let (closed, outs) = close_dest env (record log { log_name = none; lock = lock })
    if reopen
        then (do again ← open_log env s true closed; done (again.0, outs ++ again.1))
        else done (record closed { lock = (rwl_wrunlock closed.lock).0 }, outs))
]
