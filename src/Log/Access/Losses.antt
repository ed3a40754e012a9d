-- ===== src/Log/Access/Losses.antt =====
-- A closed access log is reported once, however many lines are lost.
use edysquelch.Prelude.{◌≡◌, refl, List, [], ◌∷◌, ◌++◌, ℤ, Bytes, codes, Outcome, done, ◌>>=◌}
use edysquelch.Log.{LogEnv, Output}
use edysquelch.Log.Lines.{NoWriter, read_section-NoWriter}
use edysquelch.Log.Access.{
  AccessLog, log_err, closed_file, lost_file, Said, access_write, accesslog,
}

-- Messages in a row: the log, what was written, and what was said.
pub accesslog_all : LogEnv → ℤ → List Bytes → AccessLog → Outcome (AccessLog × List Output × Said)
accesslog_all env wrote [] log = done (log, [], [])
accesslog_all env wrote (m ∷ ms) log = do
  (next, outs, said) ← accesslog env wrote m log
  (last, more, others) ← accesslog_all env wrote ms next
  done (last, outs ++ more, said ++ others)

abbrev marked : AccessLog → AccessLog
marked log = record log { accesslog_file = lost_file }

accesslog_all-lost :
    (env : LogEnv) (wrote : ℤ) (ms : List Bytes) (log : AccessLog)
    → NoWriter log.lock
    → accesslog_all env wrote ms (marked log) ≡ done (marked log, [], [])
unfolding accesslog_all accesslog access_write
accesslog_all-lost env wrote [] log free = refl
accesslog_all-lost env wrote (m ∷ ms) log free =
    rw (read_section-NoWriter log.lock free, accesslog_all-lost env wrote ms log free) refl

-- Messages to an access log that was closed, or could not be opened, while no other thread has its
-- lock for writing: all calls return, nothing is written, and of any number of messages only the
-- first one is reported as lost.
pub accesslog_all-closed :
    (env : LogEnv) (wrote : ℤ) (m : Bytes) (ms : List Bytes) (log : AccessLog)
    → NoWriter log.lock
    → log.accesslog_file ≡ closed_file
    → (last : AccessLog) × (accesslog_all env wrote (m ∷ ms) log
        ≡ done (last, [], (log_err, codes "Access log not open, log lines are lost!") ∷ []))
unfolding accesslog_all accesslog access_write
accesslog_all-closed env wrote m ms log free e = (
  marked log,
  rw (read_section-NoWriter log.lock free, e, accesslog_all-lost env wrote ms log free) refl,
)
