-- ===== src/Fingerpori/Average.antt =====
-- The moving average of src/fingerpori.c: its window, its length and its range.
use native.Mathlib.Nat.{zero-add}
use edysquelch.Prelude.{
  ℕ, zero, suc, ◌+◌, ◌-◌, ◌*◌, ◌≤◌, ◌<◌, ◌≡◌, refl, some, get_elem?, length, arith, ℤ, pos,
  pos_part, neg_part, ◌+ℤ◌, div_ℤ, int_laws, sym, ap, ◌∙◌, +ℤ_assoc, zero-+ℤ, +ℤ-zero, +ℤ_bounds,
  div_ℤ_bounds,
}
use edysquelch.Fingerpori.{Samples, filter_avg_len, sum_loop, average_loop, sample_filter_avg}

-- The sum of src[d], …, src[d + n - 1].
abbrev pub window_sum : Samples → ℕ → ℕ → ℤ
window_sum src d zero = pos 0
window_sum src d (suc n) = src d +ℤ window_sum src (d + 1) n

sum_loop-window_sum :
    (src : Samples) (n d : ℕ) (sum : ℤ) → sum_loop src n d sum ≡ sum +ℤ window_sum src d n
unfolding sum_loop
sum_loop-window_sum src zero d sum = sym (+ℤ-zero sum)
sum_loop-window_sum src (suc n) d sum =
    sum_loop-window_sum src n (d + 1) (sum +ℤ src d)
    ∙ +ℤ_assoc sum (src d) (window_sum src (d + 1) n)

-- One output sample.
abbrev pub average_at : Samples → ℕ → ℤ
average_at src k = div_ℤ (window_sum src (k + 1) filter_avg_len) filter_avg_len

average_loop-elem :
    (src : Samples) (n i k : ℕ)
    → k < n
    → filter_avg_len ≤ i
    → get_elem? (average_loop src n i) k ≡ some (average_at src (i - filter_avg_len + k))
unfolding average_loop
average_loop-elem src zero i k h j = elim h [ ]
average_loop-elem src (suc n) i zero h j =
    let e : i - filter_avg_len + 1 ≡ i - filter_avg_len + 0 + 1 = omega arith in
    rw (← e) (
      ap (λ s. some (div_ℤ s filter_avg_len))
        (sum_loop-window_sum src filter_avg_len (i - filter_avg_len + 1) (pos 0) ∙ zero-+ℤ _))
average_loop-elem src (suc n) i (suc k) h j =
    let e : i + 1 - filter_avg_len + k ≡ i - filter_avg_len + suc k = omega arith in
    rw (← e) (average_loop-elem src n (i + 1) k (omega arith) (omega arith))

length-average_loop : (src : Samples) (n i : ℕ) → length (average_loop src n i) ≡ n
unfolding average_loop
length-average_loop src zero i = refl
length-average_loop src (suc n) i = ap suc (length-average_loop src n (i + 1))

-- The number returned is the number of samples written, `len - 24`, or 0 for a shorter input.
-- Sample `k` of the output is the sum of the 24 inputs from `k + 1` to `k + 24`, divided by 24
-- towards zero.
pub sample_filter_avg_lem :
    (src : Samples) (len : ℕ)
    → ((sample_filter_avg src len).1 ≡ len - filter_avg_len)
      × (length (sample_filter_avg src len).0 ≡ len - filter_avg_len)
      × ((k : ℕ)
          → k < len - filter_avg_len
          → get_elem? (sample_filter_avg src len).0 k ≡ some (average_at src k))
unfolding sample_filter_avg
sample_filter_avg_lem src len = (
  omega arith,
  length-average_loop src (len - filter_avg_len) filter_avg_len,
  λ k h.
      simp zero-add at
        (average_loop-elem src (len - filter_avg_len) filter_avg_len k h (omega arith)),
)

-- An `int16_t` value.
abbrev pub IsShort : ℤ → Type 0
IsShort a = (neg_part a ≤ 32768) × (pos_part a ≤ 32767)

window_sum_bounds :
    (src : Samples) (n d : ℕ)
    → ((i : ℕ) → IsShort (src i))
    → (neg_part (window_sum src d n) ≤ 32768 * n) × (pos_part (window_sum src d n) ≤ 32767 * n)
window_sum_bounds src zero d h = omega arith
window_sum_bounds src (suc n) d h =
    let (lo, hi) = h d in
    let (lo', hi') = window_sum_bounds src n (d + 1) h in
    omega (int_laws, +ℤ_bounds (src d) (window_sum src (d + 1) n))

average_at-IsShort :
    (src : Samples) (k : ℕ) → ((i : ℕ) → IsShort (src i)) → IsShort (average_at src k)
average_at-IsShort src k h =
    let (lo, hi) = window_sum_bounds src 24 (k + 1) h in
    div_ℤ_bounds (window_sum src (k + 1) 24) 24 32768 32767 (omega arith) (omega arith)

-- From 16-bit samples every output is a 16-bit sample again: the store into dst[] loses nothing.
pub sample_filter_avg-IsShort :
    (src : Samples) (len k : ℕ)
    → ((i : ℕ) → IsShort (src i))
    → k < len - filter_avg_len
    → (a : ℤ) × (get_elem? (sample_filter_avg src len).0 k ≡ some a) × IsShort a
sample_filter_avg-IsShort src len k h l =
    let (counted, long, elems) = sample_filter_avg_lem src len in
    (average_at src k, elems k l, average_at-IsShort src k h)
