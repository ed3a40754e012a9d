-- ===== src/Receiver/Search/Offsets.antt =====
-- The scan over the offsets finds the least weighted difference, and the threshold.
use native.Mathlib.Nat.{zero-add, le-div_iff_mul-le, div-lt_iff_lt-mul}
use edysquelch.Prelude.{
  ℕ, zero, suc, ◌+◌, ◌*◌, ◌/◌, ◌^◌, ◌≤◌, ◌<◌, ◌≡◌, refl, ◌⊎◌, inl, true, false, arith, ltb,
  if◌then◌else◌, ℤ, pos, sub_ℕ, done, ◌∙◌, inr,
}
use edysquelch.Fingerpori.{Fingerprint}
use edysquelch.Fingerpori.Average.{IsShort}
use edysquelch.Receiver.Match.{ulong_max}
use edysquelch.Receiver.Match.Sum.{term_sum, match_single-term_sum}
use edysquelch.Receiver.Search.{
  Around, window, threshold_weak, giveup_of, match_at, Scan, scan_loop, MatchEntry, quality,
  is_match, scan_step,
}

-- What a scan of `n` offsets from `x` on has found, from the state `s`.
record Found (fp : Fingerprint) (samples : Around) (n x : ℕ) (s r : Scan) : Type 0 where
  below : r.dif ≤ s.dif
  least : (k : ℕ) → k < n → r.dif ≤ match_at fp samples (x + k)
  origin :
      (r ≡ s)
      ⊎ ((k : ℕ) × (k < n)
          × (r.best_x ≡ pos (x + k))
          × (r.dif ≡ match_at fp samples (x + k))
          × (r.dif < s.dif))

module _ (fp : Fingerprint) (samples : Around) where
  scan_step_lem :
      (x : ℕ) (s : Scan)
      → ((scan_step fp samples x s).dif ≤ s.dif)
        × ((scan_step fp samples x s).dif ≤ match_at fp samples x)
        × (((scan_step fp samples x s) ≡ s)
            ⊎ (((scan_step fp samples x s).best_x ≡ pos x)
                × ((scan_step fp samples x s).dif ≡ match_at fp samples x)
                × (match_at fp samples x < s.dif)))
  unfolding scan_step
  scan_step_lem x s = ground arith

  least_at :
      (n x : ℕ) (t : Scan) {r : Scan}
      → Found fp samples n (x + 1) t r
      → t.dif ≤ match_at fp samples x
      → (k : ℕ) → k < suc n
      → r.dif ≤ match_at fp samples (x + k)
  least_at n x t later at_x zero h =
      let e : x + 0 ≡ x = omega arith in rw e (omega (arith, later.below))
  least_at n x t later at_x (suc k) h =
      let e : x + 1 + k ≡ x + suc k = omega arith in rw (← e) (later.least k (omega arith))

  origin_of :
      (n x : ℕ) (s t : Scan) {r : Scan}
      → Found fp samples n (x + 1) t r
      → t.dif ≤ s.dif
      → (t ≡ s)
        ⊎ ((t.best_x ≡ pos x) × (t.dif ≡ match_at fp samples x) × (match_at fp samples x < s.dif))
      → (r ≡ s)
        ⊎ ((k : ℕ) × (k < suc n)
            × (r.best_x ≡ pos (x + k))
            × (r.dif ≡ match_at fp samples (x + k))
            × (r.dif < s.dif))
  origin_of n x s t later le (inl same) = elim later.origin [
    | inl kept ↦ inl (kept ∙ same)
    | inr (k, l, b, d, lt) ↦
        let e : x + 1 + k ≡ x + suc k = omega arith in
        inr (suc k, omega arith, rw (← e) b, rw (← e) d, omega arith)
  ]
  origin_of n x s t later le (inr (b, d, lt)) = elim later.origin [
    | inl kept ↦
        let e : x + 0 ≡ x = omega arith in
        inr (0, omega arith, rw (kept, e) b, rw (kept, e) d, rw (kept, d) lt)
    | inr (k, l, b', d', lt') ↦
        let e : x + 1 + k ≡ x + suc k = omega arith in
        inr (suc k, omega arith, rw (← e) b', rw (← e) d', omega arith)
  ]

  scan_loop_lem : (n x : ℕ) (s : Scan) → Found fp samples n x s (scan_loop fp samples n x s)
  unfolding scan_loop
  scan_loop_lem zero x s = record {
    below = omega arith;
    least = λ k h. elim h [ ];
    origin = inl refl;
  }
  scan_loop_lem (suc n) x s =
      let t = scan_step fp samples x s in
      let (below, at_x, from) = scan_step_lem x s in
      let later = scan_loop_lem n (x + 1) t in
      record {
        below = omega (arith, later.below);
        least = least_at n x t later at_x;
        origin = origin_of n x s t later below from;
      }

-- A length that an int holds, and 16-bit samples.
abbrev pub IsUsable : Fingerprint → Type 0
IsUsable fp = (0 < fp.len) × (fp.len < 2 ^ 31) × ((j : ℕ) → IsShort (fp.samples j))

-- The limit of a scan, as the source means it: 2200 for each sample.
abbrev pub limit_of : Fingerprint → ℕ
limit_of fp = threshold_weak * (fp.len * 2)

abbrev pub sum_at : Fingerprint → Around → ℕ → ℕ
sum_at fp samples x = term_sum fp.samples (window samples x fp.len) fp.len 0

match_at-sum_at :
    (fp : Fingerprint) (samples : Around) (x : ℕ)
    → IsUsable fp
    → ((i : ℤ) → IsShort (samples i))
    → match_at fp samples x
      ≡ (if ltb (giveup_of fp) (sum_at fp samples x) then ulong_max else sum_at fp samples x)
unfolding match_at
match_at-sum_at fp samples x (positive, small, shorts) around =
    match_single-term_sum fp.samples (window samples x fp.len) fp.len (giveup_of fp) shorts
      (λ j. around (sub_ℕ (x + j) fp.len)) small

-- The scan gave up at every offset, or the entry is for one of the least difference.
pub data Nearest (fp : Fingerprint) (samples : Around) (len : ℕ) (m : MatchEntry) : Type 0 where
  far_off :
      ((x : ℕ) → x < len → giveup_of fp < sum_at fp samples x)
      → m.dif ≡ ulong_max / (fp.len * 3)
      → Nearest fp samples len m
  near :
      (x : ℕ)
      → x < len
      → m.x_ofs ≡ pos x
      → sum_at fp samples x ≤ giveup_of fp
      → m.dif ≡ sum_at fp samples x / (fp.len * 3)
      → ((y : ℕ) → y < len → sum_at fp samples x ≤ sum_at fp samples y)
      → Nearest fp samples len m

-- No offset is close enough, or one is the closest.
pub data Closest (fp : Fingerprint) (samples : Around) (len : ℕ) (m : MatchEntry) : Type 0 where
  far :
      ((x : ℕ) → x < len → limit_of fp < sum_at fp samples x)
      → is_match m ≡ false
      → Closest fp samples len m
  close :
      (x : ℕ)
      → x < len
      → m.x_ofs ≡ pos x
      → sum_at fp samples x ≤ limit_of fp
      → m.dif ≡ sum_at fp samples x / (fp.len * 3)
      → ((y : ℕ) → y < len → sum_at fp samples x ≤ sum_at fp samples y)
      → is_match m ≡ true
      → Closest fp samples len m

-- Where the product fits an int it is what the source means.
giveup_of-limit_of : (fp : Fingerprint) → limit_of fp < 2 ^ 31 → giveup_of fp ≡ limit_of fp
unfolding giveup_of
giveup_of-limit_of fp h = ground arith

far_quotient : (l : ℕ) → 0 < l → l < 2 ^ 31 → 1100 ≤ ulong_max / (l * 3)
far_quotient l h k = (le-div_iff_mul-le (omega arith)).1 (omega arith)

close_quotient : (l s : ℕ) → 0 < l → s ≤ 1100 * (l * 2) → s / (l * 3) < 1100
close_quotient l s h k = (div-lt_iff_lt-mul (omega arith)).1 (omega arith)

abbrev scan_start : ℤ → Scan
scan_start garbage = record { dif = ulong_max; best_x = garbage }

abbrev entry_of : Fingerprint → Scan → MatchEntry
entry_of fp r = record { dif = r.dif / (fp.len * 3); x_ofs = r.best_x; fp = fp }

module _ (fp : Fingerprint) (samples : Around) (len : ℕ) (u : IsUsable fp)
    (around : (i : ℤ) → IsShort (samples i)) where
  -- The product is even, also where it wraps.
  giveup-lt : giveup_of fp < ulong_max
  unfolding giveup_of
  giveup-lt = ground arith

  -- An offset as good as `d`, which is within the limit.
  within : (d y : ℕ) → d ≤ giveup_of fp → d ≤ match_at fp samples y → d ≤ sum_at fp samples y
  within d y h k = ground (arith, match_at-sum_at fp samples y u around)

  beyond : (y : ℕ) → ulong_max ≤ match_at fp samples y → giveup_of fp < sum_at fp samples y
  beyond y h = ground (arith, match_at-sum_at fp samples y u around, giveup-lt)

  at_best :
      (y : ℕ)
      → match_at fp samples y < ulong_max
      → (match_at fp samples y ≡ sum_at fp samples y) × (sum_at fp samples y ≤ giveup_of fp)
  at_best y h = ground (arith, match_at-sum_at fp samples y u around)

  Found-Nearest :
      {garbage : ℤ} {r : Scan}
      → Found fp samples len 0 (scan_start garbage) r
      → Nearest fp samples len (entry_of fp r)
  Found-Nearest {r} f = elim f.origin [
    | inl kept ↦
        far_off (λ x h. beyond x (simp zero-add at (rw kept at (f.least x h)))) (rw kept refl)
    | inr (k, l, b, d, lt) ↦
        let d' : r.dif ≡ match_at fp samples k = simp zero-add at d in
        let (same, small) = at_best k (omega arith) in
        let e : r.dif ≡ sum_at fp samples k = d' ∙ same in
        near k l (simp zero-add at b) small (rw e refl) (λ y h.
          let ly : r.dif ≤ match_at fp samples y = simp zero-add at (f.least y h) in
          within (sum_at fp samples k) y small (omega arith))
  ]

-- The entry for a fingerprint, whatever its length.
pub quality-Nearest :
    (fp : Fingerprint) (samples : Around) (len : ℕ) (garbage : ℤ)
    → IsUsable fp
    → ((i : ℤ) → IsShort (samples i))
    → (m : MatchEntry) × (quality fp samples len garbage ≡ done m)
      × (m.fp ≡ fp)
      × Nearest fp samples len m
unfolding quality
quality-Nearest fp samples len garbage u around =
    let r = scan_loop fp samples len 0 (scan_start garbage) in
    (
      entry_of fp r,
      ground (arith, u.0),
      refl,
      Found-Nearest fp samples len u around (scan_loop_lem fp samples len 0 (scan_start garbage)),
    )

Nearest-Closest :
    (fp : Fingerprint) (samples : Around) (len : ℕ) (m : MatchEntry)
    → IsUsable fp
    → limit_of fp < 2 ^ 31
    → Nearest fp samples len m
    → Closest fp samples len m
Nearest-Closest fp samples len m u fits (far_off h e) =
    let exact = giveup_of-limit_of fp fits in
    let big = far_quotient fp.len u.0 u.1 in far (λ x l. omega (arith, h x l)) (ground arith)
Nearest-Closest fp samples len m u fits (near x l at small dif least) =
    let exact = giveup_of-limit_of fp fits in
    let below : sum_at fp samples x ≤ limit_of fp = omega arith in
    let q = close_quotient fp.len (sum_at fp samples x) u.0 below in
    close x l at below dif least (ground arith)

-- The scan of one fingerprint of at most 976128 samples, for which 1100*(len*2) fits an int, ends with
-- an entry for it, which is a match exactly when some offset has a weighted difference of at most
-- 2200 for each sample: then the entry is for an offset with the least difference of all. The test
-- against the weak threshold decides nothing more.
pub quality-Closest :
    (fp : Fingerprint) (samples : Around) (len : ℕ) (garbage : ℤ)
    → IsUsable fp
    → limit_of fp < 2 ^ 31
    → ((i : ℤ) → IsShort (samples i))
    → (m : MatchEntry) × (quality fp samples len garbage ≡ done m)
      × (m.fp ≡ fp)
      × Closest fp samples len m
quality-Closest fp samples len garbage u fits around =
    let (m, found, of_fp, nearest) = quality-Nearest fp samples len garbage u around in
    (m, found, of_fp, Nearest-Closest fp samples len m u fits nearest)
