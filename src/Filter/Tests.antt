-- ===== src/Filter/Tests.antt =====
-- The filter over the integers in place of floats.
use edysquelch.Prelude.{ℕ, ◌+◌, ◌*◌, ◌≡◌, arith, ℤ, pos, pos_part, ◌+ℤ◌}
use edysquelch.Filter.{FloatOps, Filter, filter_init, filter_run_buf}
use edysquelch.Filter.History.{
  Holds, filter_init-Holds, fed, convolutions, filter_run_buf-convolutions,
}

abbrev int_ops : FloatOps
int_ops = record {
  Float = ℤ;
  zero_float = pos 0;
  add = ◌+ℤ◌;
  mul = λ a b. pos (pos_part a * pos_part b);
  of_short = λ x. x;
  to_short = λ x. x;
}

-- Taps 1, 2 and 3.
abbrev taps : ℕ → ℤ
taps i = pos (i + 1)

abbrev three : Filter int_ops
three = filter_init int_ops 3 taps

three-Holds : Holds int_ops three (λ _. pos 0)
three-Holds = filter_init-Holds int_ops 3 taps (omega arith)

-- A block of two channels.
abbrev block : ℕ → ℤ
block i = pos (10 * i)

filter_run_buf_example :
    ((filter_run_buf int_ops three block 2 4).2
      ≡ convolutions int_ops 3 taps block 2 4 0 (λ _. pos 0))
    × Holds int_ops
        (filter_run_buf int_ops three block 2 4).0
        (fed int_ops block 2 4 0 (λ _. pos 0))
unfolding filter_init
filter_run_buf_example =
    filter_run_buf-convolutions int_ops three (λ _. pos 0) block 2 4 three-Holds
