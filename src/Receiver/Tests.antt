-- ===== src/Receiver/Tests.antt =====
-- The theorems on the receiver at concrete inputs.
use edysquelch.Prelude.{
  ℕ, ◌+◌, ◌-◌, ◌*◌, ◌/◌, ◌≤◌, ◌<◌, ◌≡◌, refl, ◌↔◌, ◌⊎◌, true, false, [], ◌∷◌, arith, ℤ, pos,
  pos_part, ◌+ℤ◌, codes, Outcome, done, halted,
}
use edysquelch.Fingerpori.{Fingerprint}
use edysquelch.Receiver.Search.{Around}
use edysquelch.Receiver.Run.{
  receiver_run, Receiver, make_room, Result, init_receiver, Surroundings, receiver_buflen,
  receiver_buf_copy,
}
use edysquelch.Receiver.Run.Bounds.{InBuffer, make_room-stereo, receiver_run_mono}
use edysquelch.Receiver.Squelch.{
  copy_buffer, Copy, Squelch, check_sql, Feed, level_step, thr_close, squelch_start, over_end,
  store, check_close, check_open, reduced_check, copy_step, copy_loop,
}
use edysquelch.Receiver.Squelch.Checks.{Alternate}
use edysquelch.Receiver.Squelch.Runs.{
  copy_buffer-copies, copy_buffer-Alternate, Steady, copy_buffer-Steady,
}
use edysquelch.Filter.{FloatOps, run_buf_loop, filter_run_buf}
use edysquelch.Receiver.Squelch.Totality.{copy_buffer-Returns}

-- A fingerprint of one sample, and a signal of 100.
abbrev fp_of : ℕ → Fingerprint
fp_of v = record {
  name = codes "fp.raw";
  samples = λ i. pos v;
  len = 1;
  ampl_avg = v;
  ampl_max = v;
}

abbrev signal : Around
signal i = pos 100

abbrev feed : Feed
feed = record {
  fps = fp_of 40 ∷ [];
  input = λ i. pos (5 + i);
  step = 1;
  highpass = λ i. pos 100;
  base = 10;
  stack = λ i. signal;
  garbage = λ i. pos 0;
}

-- An over of a second that the next check ends.
abbrev over : Squelch
over = record {
  sql_open = true;
  sql_pos = 48000;
  sql_red_step = 14;
  sql_open_at_pos = 0;
  sql_absval_sum = thr_close + 5000;
}

abbrev over_after : Squelch
over_after = record {
  sql_open = false;
  sql_pos = 48001;
  sql_red_step = 0;
  sql_open_at_pos = 0;
  sql_absval_sum = 4081696;
}

abbrev noise : ℕ → ℤ
noise i = pos 7

abbrev copied_count : ℕ
copied_count = 1

abbrev over_copy : Copy
over_copy = record {
  sql = over_after;
  out = store noise 10 (pos 5);
  maxval = pos 5;
  events = over_end 1000 ∷ [];
}

over_copied : copy_buffer feed 1 over noise ≡ done (over_copy, 1)
unfolding copy_buffer copy_loop copy_step reduced_check check_sql check_close check_open level_step
over_copied = refl

over_checked :
    check_sql feed noise 3 over ≡ done (record over { sql_open = false }, over_end 1000 ∷ [])
unfolding check_sql check_close check_open
over_checked = refl

copy_returns_example : (r : Copy × ℕ) × (copy_buffer feed 2400 squelch_start noise ≡ done r)
copy_returns_example = copy_buffer-Returns feed 2400 squelch_start noise (omega arith, tt)

copy-Alternate_example : Alternate true (over_end 1000 ∷ []) false
copy-Alternate_example = copy_buffer-Alternate feed 1 over noise over_copied

copy_copies_example :
    (copied_count ≡ 1)
    × ((k : ℕ) → k < 1 → over_copy.out (10 + k) ≡ feed.input (k * 1))
    × ((p : ℕ) → (p < 10) ⊎ (10 + 1 ≤ p) → over_copy.out p ≡ noise p)
copy_copies_example = copy_buffer-copies feed 1 over noise over_copied

-- An open squelch at its closing level.
abbrev open_squelch : Squelch
open_squelch = record squelch_start { sql_open = true }

copy-Steady_example :
    (c : Copy) × (copy_buffer feed 2400 open_squelch noise ≡ done (c, 2400))
    × (c.events ≡ [])
    × Steady true c.sql
copy-Steady_example =
    copy_buffer-Steady true feed 2400 open_squelch noise (refl, omega arith) (λ k. omega arith)

stereo_example :
    (receiver_buflen < (make_room noise 16000 2 500).1 + 500)
    ↔ ((receiver_buflen < 16000 + 500) × (16000 + 500 / 2 ≤ receiver_buflen))
stereo_example = make_room-stereo noise 16000 500 (omega arith) (omega arith)

abbrev int_ops : FloatOps
int_ops = record {
  Float = ℤ;
  zero_float = pos 0;
  add = ◌+ℤ◌;
  mul = λ a b. pos (pos_part a * pos_part b);
  of_short = λ x. x;
  to_short = λ x. pos 100;
}

abbrev env : Surroundings int_ops
env = record {
  fps = fp_of 40 ∷ [];
  sound_levellog = pos 0;
  now = pos 1000;
  stack = λ i. signal;
  garbage = λ i. pos 0;
}

abbrev rx : Receiver int_ops
rx = init_receiver int_ops (λ i. pos 1) 65 1 0

abbrev result_of : Outcome (Result int_ops) → Result int_ops
result_of (done r) = r
result_of (halted h) = record { receiver = rx; sql = over; events = []; log = [] }

abbrev ran : Result int_ops
ran = result_of (receiver_run int_ops env rx over noise 1)

run_returns : receiver_run int_ops env rx over noise 1 ≡ done ran
unfolding receiver_run copy_buffer copy_loop copy_step reduced_check check_sql check_close
    check_open level_step filter_run_buf run_buf_loop make_room init_receiver
run_returns = refl

rx_position : rx.bufpos ≡ 4096
unfolding init_receiver
rx_position = refl

receiver_mono_example :
    InBuffer ran.receiver.bufpos
    × ((k : ℕ)
        → k < 1
        → ran.receiver.buffer_sql (ran.receiver.bufpos - 1 + k) ≡ noise (rx.ch_ofs + k))
    × ((k : ℕ)
        → k < receiver_buf_copy
        → ran.receiver.buffer_sql (ran.receiver.bufpos - 1 - receiver_buf_copy + k)
          ≡ rx.buffer_sql (rx.bufpos - receiver_buf_copy + k))
receiver_mono_example =
    receiver_run_mono int_ops env rx over noise 1 run_returns (unfold init_receiver in refl)
      (omega (arith, rx_position))
