-- ===== src/Receiver/Squelch/Level.antt =====
-- The running level of the squelch stays in range.
use edysquelch.Prelude.{ℕ, ◌+◌, ◌-◌, ◌*◌, ◌/◌, ◌<◌, ◌≡◌, ℤ, abs, ◌≤◌, arith}
use edysquelch.Fingerpori.Average.{IsShort}
use edysquelch.Receiver.Squelch.{absval_divider, Squelch, level_step, thr_open, thr_close}

-- The most that the running sum can reach.
abbrev pub level_limit : ℕ
level_limit = absval_divider * 32769

abs_short : (x : ℤ) → IsShort x → abs x ≤ 32768
abs_short x h = ground arith

-- From a level under the limit the next one is under it too, for any 16-bit sample, and it is the
-- true sum: nothing wraps. The counters grow by one.
pub level_step-lt-limit :
    (q : Squelch) (x : ℤ)
    → IsShort x
    → q.sql_absval_sum < level_limit
    → ((level_step q x).sql_absval_sum < level_limit)
      × ((level_step q x).sql_absval_sum
          ≡ q.sql_absval_sum - q.sql_absval_sum / absval_divider + abs x)
unfolding level_step
level_step-lt-limit q x short h = omega (arith, abs_short x short)

-- An average of at most 3400 keeps the level at or under the closing threshold, and one of at
-- least 1500 keeps it at or over the opening threshold.
pub level_step-quiet :
    (q : Squelch) (x : ℤ)
    → abs x ≤ 3400
    → q.sql_absval_sum ≤ thr_close
    → (level_step q x).sql_absval_sum ≤ thr_close
unfolding level_step
level_step-quiet q x small h = omega arith

pub level_step-loud :
    (q : Squelch) (x : ℤ)
    → IsShort x
    → q.sql_absval_sum < level_limit
    → 1500 ≤ abs x
    → thr_open ≤ q.sql_absval_sum
    → thr_open ≤ (level_step q x).sql_absval_sum
unfolding level_step
level_step-loud q x short l large h = omega (arith, abs_short x short)
