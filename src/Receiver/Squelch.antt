-- ===== src/Receiver/Squelch.antt =====
-- The squelch of src/receiver.c: copy_buffer and its static variables.
pub mod Level
pub mod Checks
pub mod Loop
pub mod Totality
pub mod Runs
use edysquelch.Prelude.{
  ℕ, zero, suc, ◌+◌, ◌-◌, ◌*◌, ◌/◌, ◌%◌, ◌^◌, Bool, true, false, not, ◌&&◌, none, some, List, [],
  ◌∷◌, ◌++◌, ltb, ◌==◌, if◌then◌else◌, length, get_or, ℤ, pos, negsuc, ltb_ℤ, abs, Outcome, done,
  ◌>>=◌,
}
use edysquelch.Fingerpori.{sample_filter_avg, Fingerprint}
use edysquelch.Receiver.Search.{Around, MatchNote, search_fingerprints}

-- SAMPLE_RATE, SQL_ABSVAL_DIVIDER, the two thresholds, and SQL_OPEN_SCAN_LEN
abbrev pub sample_rate : ℕ
sample_rate = 48000

abbrev pub absval_divider : ℕ
absval_divider = sample_rate / 40

abbrev pub thr_open : ℕ
thr_open = 1500 * absval_divider

abbrev pub thr_close : ℕ
thr_close = 3400 * absval_divider

abbrev pub open_scan_len : ℕ
open_scan_len = absval_divider * 2

-- `sql_open` and the static variables of copy_buffer. They are shared by all receivers.
pub record Squelch : Type 0 where
  pub sql_open : Bool
  pub sql_pos : ℕ
  pub sql_red_step : ℕ
  pub sql_open_at_pos : ℕ
  pub sql_absval_sum : ℕ

-- Their values when the program starts.
abbrev pub squelch_start : Squelch
squelch_start = record {
  sql_open = false;
  sql_pos = 0;
  sql_red_step = 0;
  sql_open_at_pos = 0;
  sql_absval_sum = thr_close;
}

-- The notifications: the end of an over with its length in milliseconds, a match, and an opening
-- with no match, which carries the filtered samples.
pub data Event : Type 0 where
  over_end : ℕ → Event
  matched : MatchNote → Event
  opened : List ℤ → ℕ → Event

-- What a call of copy_buffer reads besides its state: the fingerprints, the input with its step,
-- the highpass output, the place in the receiver's buffer, and, by stream position, what lies on
-- the stack round `filtered_samples` and in the uninitialised `best_x`.
pub record Feed : Type 0 where
  pub fps : List Fingerprint
  pub input : ℕ → ℤ
  pub step : ℕ
  pub highpass : ℕ → ℤ
  pub base : ℕ
  pub stack : ℕ → Around
  pub garbage : ℕ → ℤ

-- The buffer of the receiver, the largest sample so far, and the notifications in order.
pub record Copy : Type 0 where
  pub sql : Squelch
  pub out : ℕ → ℤ
  pub maxval : ℤ
  pub events : List Event

abbrev pub store : (ℕ → ℤ) → ℕ → ℤ → ℕ → ℤ
store out p x i = if i == p then x else out i

-- The running sum of absolute values, and the two counters.
unfoldable pub level_step : Squelch → ℤ → Squelch
level_step q cur_sql = record q {
  sql_absval_sum = (q.sql_absval_sum - q.sql_absval_sum / absval_divider + abs cur_sql) % 2 ^ 64;
  sql_pos = (q.sql_pos + 1) % 2 ^ 64;
  sql_red_step = (q.sql_red_step + 1) % 2 ^ 32;
}

-- ((sql_pos - sql_open_at_pos) * 1000) / SAMPLE_RATE
abbrev pub over_length : Squelch → ℕ
over_length q = (q.sql_pos + 2 ^ 64 - q.sql_open_at_pos) % 2 ^ 64 * 1000 % 2 ^ 64 / sample_rate

unfoldable pub check_close : Squelch → Squelch × List Event
check_close q =
    if q.sql_open && ltb thr_close q.sql_absval_sum
    then (record q { sql_open = false }, over_end (over_length q) ∷ [])
    else (q, [])

-- `filtered_samples` with what lies round it.
abbrev pub on_stack : List ℤ → Around → Around
on_stack filtered rest (pos i) =
    if ltb i (length filtered) then get_or filtered i (pos 0) else rest (pos i)
on_stack filtered rest (negsuc i) = rest (negsuc i)

-- The scan at an opening: the average of the last 2400 samples, and the search in it.
unfoldable pub scan_opening : Feed → (ℕ → ℤ) → ℕ → ℕ → Outcome Event
scan_opening feed out od now = do
  let filtered = sample_filter_avg (λ i. out (feed.base + od + i - open_scan_len)) open_scan_len
  found ←
      search_fingerprints feed.fps (on_stack filtered.0 (feed.stack now)) filtered.1
        (pos (open_scan_len - absval_divider)) (feed.garbage now)
  done (elim found [ none ↦ opened filtered.0 filtered.1 | some note ↦ matched note ])

unfoldable pub check_open : Feed → (ℕ → ℤ) → ℕ → Squelch → Outcome (Squelch × List Event)
check_open feed out od q =
    if not q.sql_open && ltb q.sql_absval_sum thr_open
    then (do
      event ← scan_opening feed out od q.sql_pos
      done (record q { sql_open = true; sql_open_at_pos = q.sql_pos }, event ∷ []))
    else done (q, [])

-- Both checks, every 15th sample.
unfoldable pub check_sql : Feed → (ℕ → ℤ) → ℕ → Squelch → Outcome (Squelch × List Event)
unfolding check_close check_open
check_sql feed out od q = do
  let closed = check_close q
  r ← check_open feed out od closed.0
  done (r.0, closed.1 ++ r.1)

unfoldable pub reduced_check : Feed → (ℕ → ℤ) → ℕ → Squelch → Outcome (Squelch × List Event)
reduced_check feed out od q =
    if q.sql_red_step == 15
    then check_sql feed out od (record q { sql_red_step = 0 })
    else done (q, [])

-- One round of the loop, at input index `id` and output index `od`.
unfoldable pub copy_step : Feed → ℕ → ℕ → Copy → Outcome Copy
copy_step feed id od c = do
  let cur = feed.input id
  let out = store c.out (feed.base + od) cur
  r ← reduced_check feed out od (level_step c.sql (feed.highpass od))
  done (record {
    sql = r.0;
    out = out;
    maxval = if ltb_ℤ c.maxval cur then cur else c.maxval;
    events = c.events ++ r.1;
  })

unfoldable pub copy_loop : Feed → ℕ → ℕ → ℕ → Copy → Outcome Copy
copy_loop feed zero id od c = done c
copy_loop feed (suc n) id od c = do
  c' ← copy_step feed id od c
  copy_loop feed n (id + feed.step) (od + 1) c'

-- `maxval` starts at -32000; the number of samples copied, `od` at the end, is `len`.
unfoldable pub copy_buffer : Feed → ℕ → Squelch → (ℕ → ℤ) → Outcome (Copy × ℕ)
unfolding copy_loop
copy_buffer feed len q out = do
  c ← copy_loop feed len 0 0 (record { sql = q; out = out; maxval = negsuc 31999; events = [] })
  done (c, len)
