-- ===== src/Receiver/Match/Sum.antt =====
-- match_single against the full sum, without the early exit and without wrap-around.
use native.Mathlib.Nat.{zero-add, zero-mul}
use edysquelch.Prelude.{
  ℕ, zero, suc, ◌+◌, ◌*◌, ◌^◌, ◌≤◌, ◌<◌, ◌≡◌, ◌∙◌, arith, ltb, if◌then◌else◌, ◌-ℤ◌, abs, -ℤ_abs, ℤ,
  refl,
}
use edysquelch.Fingerpori.{Samples}
use edysquelch.Fingerpori.Average.{IsShort}
use edysquelch.Receiver.Match.{ulong_max, weight, term, match_loop, match_single}

-ℤ-same : (z : ℤ) → abs (z -ℤ z) ≡ 0
-ℤ-same z = omega (arith, -ℤ_abs z z)

-- The whole sum of the terms from `i` on.
pub term_sum : Samples → Samples → ℕ → ℕ → ℕ
term_sum fp samples zero i = 0
term_sum fp samples (suc n) i = term fp samples i + term_sum fp samples n (i + 1)

mul_bounds : (a b : ℕ) → a ≤ 65535 → b ≤ 8 → a * b ≤ 524280
mul_bounds a b h k = grind arith

term-le :
    (fp samples : Samples) (i : ℕ)
    → IsShort (fp i)
    → IsShort (samples i)
    → term fp samples i ≤ 524280
term-le fp samples i f s =
    mul_bounds (abs (samples i -ℤ fp i)) (weight (fp i)) (omega (arith, -ℤ_abs (samples i) (fp i)))
      (omega arith)

term_sum-le :
    (fp samples : Samples) (n i : ℕ)
    → ((j : ℕ) → IsShort (fp j))
    → ((j : ℕ) → IsShort (samples j))
    → term_sum fp samples n i ≤ n * 524280
unfolding term_sum
term_sum-le fp samples zero i f s = omega arith
term_sum-le fp samples (suc n) i f s =
    omega (arith, term-le fp samples i (f i) (s i), term_sum-le fp samples n (i + 1) f s)

match_loop-term_sum :
    (fp samples : Samples) (giveup n i sum : ℕ)
    → sum + term_sum fp samples n i < 2 ^ 64
    → sum ≤ giveup
    → match_loop fp samples giveup n i sum ≡ (
        if ltb giveup (sum + term_sum fp samples n i)
        then ulong_max
        else sum + term_sum fp samples n i)
unfolding match_loop term_sum
match_loop-term_sum fp samples giveup zero i sum h g = ground arith
match_loop-term_sum fp samples giveup (suc n) i sum h g =
    ground (arith, match_loop-term_sum fp samples giveup n (i + 1) (sum + term fp samples i))

-- For 16-bit samples and any length of an `int`, match_single gives the whole weighted sum of the
-- absolute differences, or the largest `unsigned long` exactly when that sum is over `giveup`: the
-- early exit and the 64-bit arithmetic change nothing.
pub match_single-term_sum :
    (fp samples : Samples) (len giveup : ℕ)
    → ((j : ℕ) → IsShort (fp j))
    → ((j : ℕ) → IsShort (samples j))
    → len < 2 ^ 31
    → match_single fp samples len giveup
      ≡ (if ltb giveup (term_sum fp samples len 0) then ulong_max else term_sum fp samples len 0)
unfolding match_single
match_single-term_sum fp samples len giveup f s h =
    let small = term_sum-le fp samples len 0 f s in
    match_loop-term_sum fp samples giveup len 0 0 (omega arith) (omega arith) ∙ simp zero-add

-- Samples that are those of the fingerprint differ in nothing.
pub term_sum-same :
    (fp samples : Samples) (n i : ℕ)
    → ((j : ℕ) → j < i + n → samples j ≡ fp j)
    → term_sum fp samples n i ≡ 0
unfolding term_sum
term_sum-same fp samples zero i h = refl
term_sum-same fp samples (suc n) i h =
    let same : term fp samples i ≡ 0 =
      rw (h i (omega arith), -ℤ-same (fp i)) (zero-mul (weight (fp i))) in
    omega (arith, same, term_sum-same fp samples n (i + 1) (λ j l. h j (omega arith)))
