-- ===== src/Receiver/Match.antt =====
-- match_single of src/receiver.c: the weighted difference of a fingerprint and the samples.
pub mod Sum
use edysquelch.Prelude.{
  ℕ, zero, suc, ◌+◌, ◌-◌, ◌*◌, ◌/◌, ◌%◌, ◌^◌, ltb, if◌then◌else◌, ℤ, ◌-ℤ◌, abs,
}
use edysquelch.Fingerpori.{Samples}

-- (unsigned long) -1
abbrev pub ulong_max : ℕ
ulong_max = 2 ^ 64 - 1

-- (32768-abs(fingerprint[i]))/4096, which is not negative for an `int16_t`.
abbrev pub weight : ℤ → ℕ
weight f = (32768 - abs f) / 4096

abbrev pub term : Samples → Samples → ℕ → ℕ
term fingerprint samples i = abs (samples i -ℤ fingerprint i) * weight (fingerprint i)

-- The loop, with the rounds left: it gives up as soon as the sum passes `giveup`.
unfoldable pub match_loop : Samples → Samples → ℕ → ℕ → ℕ → ℕ → ℕ
match_loop fingerprint samples giveup zero i dif_sum = dif_sum
match_loop fingerprint samples giveup (suc n) i dif_sum =
    let sum = (dif_sum + term fingerprint samples i) % 2 ^ 64 in
    let rest = match_loop fingerprint samples giveup n (i + 1) sum in
    if ltb giveup sum then ulong_max else rest

unfoldable pub match_single : Samples → Samples → ℕ → ℕ → ℕ
unfolding match_loop
match_single fingerprint samples len giveup = match_loop fingerprint samples giveup len 0 0
