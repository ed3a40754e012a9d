-- ===== src/Input.antt =====
-- src/input.c: the sound device is set up by a chain of calls of ALSA, and read a block at a time.
-- What ALSA answers is a parameter.
use edysquelch.Prelude.{
  ℕ, ◌+◌, ◌*◌, Bool, true, false, not, if◌then◌else◌, ℤ, pos, negsuc, sub_ℕ, ◌-ℤ◌, is_zero,
}
use edysquelch.Cfg.{SoundChannels, is_mono}

-- The answers of ALSA, by the calls: negative ones fail. `period_size` is what the cast to int gives
-- of the period size that the device has in the end.
pub record Device : Type 0 where
  pub any : ℤ
  pub set_access : ℤ
  pub set_format : ℤ
  pub set_channels : ℤ
  pub set_rate_near : ℤ
  pub set_period_size_near : ℤ
  pub params : ℤ
  pub period_size : ℤ

abbrev pub failed : ℤ → Bool
failed (pos n) = false
failed (negsuc k) = true

-- The calls, in their order.
pub data Call : Type 0 where
  calls_any calls_access calls_format calls_channels calls_rate calls_period calls_params : Call

-- How input_initialize ends: the call after which it returns -1, or 0 with the frames of the buffer
-- and its size in bytes.
pub data Opening : Type 0 where
  gives_up : Call → Opening
  buffer_of : ℤ → ℤ → Opening

unfoldable pub bytes_of : ℤ → ℕ → ℤ
bytes_of (pos n) channels = pos (n * 2 * channels)
bytes_of (negsuc k) channels = sub_ℕ 0 ((k + 1) * 2 * channels)

unfoldable pub input_initialize : SoundChannels → Device → Opening
unfolding bytes_of
input_initialize sound_channels d =
    if failed d.any
    then gives_up calls_any
    else if failed d.set_access
    then gives_up calls_access
    else if failed d.set_format
    then gives_up calls_format
    else (let channels = if is_mono sound_channels then 1 else 2 in
        if failed d.set_channels
        then gives_up calls_channels
        else if failed d.set_rate_near
        then gives_up calls_rate
        else if failed d.set_period_size_near
        then gives_up calls_period
        else if failed d.params
        then gives_up calls_params
        else buffer_of d.period_size (bytes_of d.period_size channels))

-- -EPIPE
abbrev pub overrun : ℤ
overrun = negsuc 31

pub data Remark : Type 0 where
  says_overrun says_read_error : Remark
  says_short_read : ℤ → Remark
  says_nothing : Remark

-- input_read for the answer `err` of snd_pcm_readi: the value returned, whether the device is
-- prepared again, and what is said to the log.
unfoldable pub input_read : ℤ → ℤ → ℤ × Bool × Remark
input_read count err =
    if is_zero (err -ℤ overrun)
    then (err, true, says_overrun)
    else if failed err
    then (err, false, says_read_error)
    else if not (is_zero (err -ℤ count))
    then (err, false, says_short_read err)
    else (err, false, says_nothing)
