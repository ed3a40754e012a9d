-- ===== src/Log/Lines.antt =====
-- What hlog sends out, and how long the lines are.
use edysquelch.Prelude.{
  ℕ, ◌≡◌, refl, ◌≢◌, Bool, true, false, Option, length, ℤ, pos, negsuc, ltb_ℤ, Bytes, done, ◌+◌,
  ◌-◌, ◌≤◌, ◌⊎◌, inl, inr, ◌||◌, none, some, List, [], ◌∷◌, ◌++◌, arith, if◌then◌else◌, Bool-cases,
  length-append, get_or, take, All, codes, length-joined, zero, suc, ◌<◌, min, ◌↔◌, ap, ◌∙◌,
}
use edysquelch.RwLock.{RwLock, rwl_rdlock, rwl_rdunlock}
use edysquelch.RwLock.Sections.{lock_of}
use edysquelch.Log.{
  LogDest, none_at_all, on_stderr, on_syslog, in_file, Log, LogEnv, Output, to_stderr, to_file,
  to_syslog, read_section, clamped, log_line, log_len, stamp, shown_name, levelled, log_output,
  hlog, sink,
}
use edysquelch.OutJson.{decimal}
use edysquelch.Cfg.CommandLine.{log_levelnames}

-- No writer holds the lock.
abbrev pub NoWriter : RwLock → Type 0
NoWriter l = (r : ℕ) × (reads : ℕ) × (writes : ℕ) × (l ≡ lock_of false r reads writes)

pub read_section-NoWriter : (l : RwLock) → NoWriter l → read_section l ≡ done l
unfolding read_section rwl_rdlock rwl_rdunlock
read_section-NoWriter l (r, reads, writes, e) = rw e refl

-- The output goes where the log is directed.
abbrev pub GoesTo : LogDest → ℤ → Output → Type 0
GoesTo on_stderr file (to_stderr line) = Unit
GoesTo on_syslog file (to_syslog priority line) = Unit
GoesTo in_file file (to_file fd line n) = (fd ≡ file) × (n ≢ 0)
GoesTo _ file output = ⊥

abbrev pub is_below : Log → ℤ → Bool
is_below log priority = ltb_ℤ log.log_level (pos (clamped priority))

abbrev pub is_lost : LogDest → ℤ → Bool
is_lost none_at_all file = true
is_lost in_file (negsuc n) = true
is_lost _ file = false

-- The line is longer than its message.
log_line-long :
    (env : LogEnv) (name : Option Bytes) (p : ℕ) (s : Bytes)
    → length s + 8 ≤ length (log_line env name p s)
unfolding log_line levelled
log_line-long env name p s = omega (
  arith,
  length-joined (
      stamp env
      ∷ codes " "
      ∷ shown_name name
      ∷ codes "["
      ∷ decimal env.pid
      ∷ codes ":"
      ∷ decimal env.thread
      ∷ codes "] "
      ∷ levelled p s
      ∷ (10 ∷ [])
      ∷ []),
  length-append {0} (get_or log_levelnames p []) (codes ": " ++ s),
)

-- The two cases of what is sent out.
sink-GoesTo :
    (dest : LogDest) (file : ℤ) (p : ℕ) (line short : Bytes)
    → length line ≢ 0
    → ((sink dest file p line short ≡ none) × (is_lost dest file ≡ true))
      ⊎ ((output : Output) × (sink dest file p line short ≡ some output)
          × GoesTo dest file output
          × (is_lost dest file ≡ false))
unfolding sink
sink-GoesTo none_at_all file p line short h = inl (refl, refl)
sink-GoesTo on_stderr file p line short h = inr (_, refl, tt, refl)
sink-GoesTo on_syslog file p line short h = inr (_, refl, tt, refl)
sink-GoesTo in_file (pos fd) p line short h = inr (_, refl, (refl, h), refl)
sink-GoesTo in_file (negsuc n) p line short h = inl (refl, refl)

log_output-GoesTo :
    (env : LogEnv) (log : Log) (p : ℕ) (s : Bytes)
    → ((log_output env log p s ≡ none) × (is_lost log.log_dest log.log_file ≡ true))
      ⊎ ((output : Output) × (log_output env log p s ≡ some output)
          × GoesTo log.log_dest log.log_file output
          × (is_lost log.log_dest log.log_file ≡ false))
unfolding log_output
log_output-GoesTo env log p s =
    sink-GoesTo log.log_dest log.log_file p (log_line env log.log_name p s) (levelled p s)
      (λ e. omega (arith, log_line-long env log.log_name p s))

-- While no other thread writes to the log, hlog returns and leaves the log and its lock as they
-- were. A message below the log's level gives 0 and sends nothing; any other gives 1, and one line
-- goes to where the log is directed, but nothing where that is nowhere or a file that is not open.
pub hlog-GoesTo :
    (env : LogEnv) (priority : ℤ) (message : Bytes) (log : Log)
    → NoWriter log.lock
    → (outs : List Output) × (ret : ℤ) × (hlog env priority message log ≡ done (log, outs, ret))
      × (ret ≡ (if is_below log priority then pos 0 else pos 1))
      × (length outs
          ≡ (if is_below log priority || is_lost log.log_dest log.log_file then 0 else 1))
      × All (GoesTo log.log_dest log.log_file) outs
unfolding hlog
hlog-GoesTo env priority message log free = elim (Bool-cases (is_below log priority)) [
  | inl y ↦ ([], pos 0, rw (y) refl, rw y refl, rw y refl, tt)
  | inr n ↦ elim (log_output-GoesTo env log (clamped priority) (take (log_len - 1) message)) [
    | inl (e, lost) ↦ ([], pos 1, rw (n, e) refl, rw n refl, rw (n, lost) refl, tt)
    | inr (output, e, goes, kept) ↦ (
      output ∷ [],
      pos 1,
      rw (n, e, read_section-NoWriter log.lock free) refl,
      rw n refl,
      rw (n, kept) refl,
      (goes, tt),
    )
  ]
]

-- The string in the buffer.
abbrev pub in_buffer : Output → Bytes
in_buffer (to_file fd line n) = line
in_buffer _ = []

-- The number of bytes that write() is told.
abbrev pub told : Output → ℕ
told (to_file fd line n) = n
told _ = 0

take_length : (n : ℕ) (s : Bytes) → length (take n s) ≡ min n (length s)
take_length zero s = omega arith
take_length (suc n) [] = omega arith
take_length (suc n) (c ∷ s) = omega (arith, take_length n s)

-- For a log file that is open and a message that is not below the level, one line is written to
-- that file: write() is told the length of the whole line, of the message cut to 8191 bytes, while
-- the buffer holds the first 8191 bytes of the line. It reads no further than the string in the
-- buffer exactly where the whole line is at most 8191 bytes long. For a message of 8187 bytes or
-- more, before it is cut, it reads past the end of the buffer of 8192 bytes.
pub hlog-told :
    (env : LogEnv) (priority : ℤ) (message : Bytes) (log : Log) (fd : ℕ)
    → NoWriter log.lock
    → is_below log priority ≡ false
    → log.log_dest ≡ in_file
    → log.log_file ≡ pos fd
    → let line = log_line env log.log_name (clamped priority) (take (log_len - 1) message) in
      (output : Output) × (hlog env priority message log ≡ done (log, output ∷ [], pos 1))
      × GoesTo log.log_dest log.log_file output
      × (told output ≡ length line)
      × (in_buffer output ≡ take (log_len - 1) line)
      × ((told output ≤ length (in_buffer output)) ↔ (told output ≤ 8191))
      × (8187 ≤ length message → log_len < told output)
unfolding hlog
hlog-told env priority message log fd free level dest file =
    let p = clamped priority in
    let s = take (log_len - 1) message in
    let line = log_line env log.log_name p s in
    let cut = take_length (log_len - 1) line in
    let cut_message = take_length (log_len - 1) message in
    let long = log_line-long env log.log_name p s in
    let out : log_output env log p s
        ≡ some (to_file (pos fd) (take (log_len - 1) line) (length line)) =
      unfold log_output in
      (ap (λ d. sink d log.log_file p line (levelled p s)) dest
        ∙ ap (λ f. sink in_file f p line (levelled p s)) file
        ∙ (unfold sink in refl)) in
    let goes : GoesTo log.log_dest log.log_file
        (to_file (pos fd) (take (log_len - 1) line) (length line)) =
      rw (dest, file) (refl, λ e. omega (arith, e, long)) in
    (
      to_file (pos fd) (take (log_len - 1) line) (length line),
      rw (level, out, read_section-NoWriter log.lock free) refl,
      goes,
      refl,
      refl,
      ground (arith, cut),
      λ h. omega arith,
    )
