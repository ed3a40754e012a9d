-- ===== src/Main.antt =====
-- src/edysquelch.c: the receivers that main sets up, and its loop over the blocks of sound.
pub mod Loop
pub mod Stereo
pub mod Turns
mod Tests
use edysquelch.Prelude.{
  ℕ, zero, suc, Bool, true, false, Option, none, some, List, [], ◌∷◌, ◌++◌, if◌then◌else◌, ℤ, pos,
  negsuc, null_followed, Outcome, done, halted, ◌>>=◌,
}
use edysquelch.Filter.{FloatOps}
use edysquelch.Cfg.{SoundChannels, is_mono, both, left_only, right_only}
use edysquelch.Receiver.Squelch.{Squelch, squelch_start, Event}
use edysquelch.Receiver.Run.{Receiver, init_receiver, Surroundings, receiver_run}

-- Channel a is read for both and right, channel b for both and left.
abbrev pub hears_a : SoundChannels → Bool
hears_a both = true
hears_a right_only = true
hears_a _ = false

abbrev pub hears_b : SoundChannels → Bool
hears_b both = true
hears_b left_only = true
hears_b _ = false

module _ (ops : FloatOps) where
  -- `rx_a`, `rx_b`, which may be NULL, and the static variables of the squelch, with what was
  -- notified so far.
  pub record Program : Type 0 where
    pub rx_a : Receiver ops
    pub rx_b : Option (Receiver ops)
    pub sql : Squelch
    pub events : List Event

  unfoldable pub set_up : SoundChannels → (ℕ → ops.Float) → Program
  set_up channels coeffs_sql = record {
    rx_a = init_receiver ops coeffs_sql 65 (if is_mono channels then 1 else 2) 0;
    rx_b = if is_mono channels then none else some (init_receiver ops coeffs_sql 66 2 1);
    sql = squelch_start;
    events = [];
  }

  -- One read of sound: `buffer_read`, the samples, and what receiver_run gets besides.
  pub record Read : Type 0 where
    pub buffer_read : ℤ
    pub buffer : ℕ → ℤ
    pub env : Surroundings ops

  unfoldable pub run_a : Read → ℕ → Program → Outcome Program
  run_a read len p = do
    r ← receiver_run ops read.env p.rx_a p.sql read.buffer len
    done (record p { rx_a = r.receiver; sql = r.sql; events = p.events ++ r.events })

  unfoldable pub run_b : Read → ℕ → Program → Outcome Program
  run_b read len p = elim p.rx_b [
    | none ↦ halted null_followed
    | some rx ↦ (do
      r ← receiver_run ops read.env rx p.sql read.buffer len
      done (record p { rx_b = some r.receiver; sql = r.sql; events = p.events ++ r.events }))
  ]

  -- The three calls of receiver_run, for a block of `len` samples of each channel.
  unfoldable pub feed_block : SoundChannels → Read → ℕ → Program → Outcome Program
  unfolding run_a run_b
  feed_block channels read len p = do
    p1 ← if is_mono channels then run_a read len p else done p
    p2 ← if hears_a channels then run_a read len p1 else done p1
    if hears_b channels then run_b read len p2 else done p2

  -- The loop over the reads there are until the program is stopped: a read of nothing ends a file
  -- and is skipped on a device.
  unfoldable pub main_loop : Bool → SoundChannels → List Read → Program → Outcome Program
  main_loop from_file channels [] p = done p
  main_loop from_file channels (read ∷ reads) p = elim read.buffer_read [
    | pos zero ↦ elim from_file [ true ↦ done p | false ↦ main_loop from_file channels reads p ]
    | pos (suc n) ↦ (do
      p' ← feed_block channels read (suc n) p
      main_loop from_file channels reads p')
    | negsuc k ↦ elim from_file [ true ↦ done p | false ↦ main_loop from_file channels reads p ]
  ]
