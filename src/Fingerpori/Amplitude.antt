-- ===== src/Fingerpori/Amplitude.antt =====
-- The amplitude measures of src/fingerpori.c read src[len] in every round.
use edysquelch.Prelude.{
  ℕ, zero, suc, ◌+◌, ◌*◌, ◌%◌, ◌^◌, ◌<◌, max, ◌≡◌, refl, ◌∙◌, arith, ◌==◌, if◌then◌else◌, abs,
}
use edysquelch.Fingerpori.{
  Samples, amplitude_sum_loop, sample_amplitude_sum, amplitude_max_loop, sample_amplitude_max,
}

amplitude_max_loop_lem :
    (src : Samples) (len n peak : ℕ)
    → amplitude_max_loop src len n peak ≡ (if n == 0 then peak else max peak (abs (src len)))
unfolding amplitude_max_loop
amplitude_max_loop_lem src len zero peak = refl
amplitude_max_loop_lem src len (suc n) peak =
    ground (
      arith,
      amplitude_max_loop_lem src len n peak,
      amplitude_max_loop_lem src len n (abs (src len)),
    )

amplitude_sum_loop_lem :
    (src : Samples) (len n sum : ℕ)
    → sum < 2 ^ 64
    → amplitude_sum_loop src len n sum ≡ (sum + n * abs (src len)) % 2 ^ 64
unfolding amplitude_sum_loop
amplitude_sum_loop_lem src len zero sum h = omega arith
amplitude_sum_loop_lem src len (suc n) sum h =
    amplitude_sum_loop_lem src len n ((sum + abs (src len)) % 2 ^ 64) (omega arith) ∙ omega arith

-- For any uninitialised start value and any samples, the two measures are functions of the one
-- value read at src[len], which is past the samples: the sum is the start value plus `len` times
-- its absolute value, modulo 2^64, and the maximum is its absolute value, or 0 for no sample.
pub sample_amplitude_lem :
    (garbage : ℕ) (src : Samples) (len : ℕ)
    → garbage < 2 ^ 64
    → (sample_amplitude_sum garbage src len ≡ (garbage + len * abs (src len)) % 2 ^ 64)
      × (sample_amplitude_max src len ≡ (if len == 0 then 0 else abs (src len)))
unfolding sample_amplitude_sum sample_amplitude_max
sample_amplitude_lem garbage src len h = (
  amplitude_sum_loop_lem src len len garbage h,
  ground (arith, amplitude_max_loop_lem src len len 0),
)
