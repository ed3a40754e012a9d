-- ===== src/Receiver/Squelch/Totality.antt =====
-- With no empty fingerprint loaded, nothing in copy_buffer stops the program.
use edysquelch.Prelude.{
  ℕ, zero, suc, ◌+◌, ◌-◌, ◌*◌, ◌<◌, ◌≡◌, refl, List, [], ◌∷◌, arith, ◌==◌, if◌then◌else◌, All, ℤ,
  Outcome, done, ◌>>=◌, inl, inr, not, ◌&&◌, ltb, Bool-cases, ◌/◌,
}
use edysquelch.Fingerpori.{sample_filter_avg, Fingerprint}
use edysquelch.Receiver.Match.{ulong_max}
use edysquelch.Receiver.Search.{
  Around, Search, search_start, note_match, quality, is_match, search_loop, search_fingerprints,
  scan_loop,
}
use edysquelch.Receiver.Squelch.{
  open_scan_len, Squelch, Feed, Copy, on_stack, scan_opening, check_sql, reduced_check, copy_step,
  copy_loop, copy_buffer, thr_open, check_close, check_open,
}

-- The code returns.
abbrev pub Returns {ℓ} : {A : Type ℓ} → Outcome A → Type ℓ
Returns {A} m = (a : A) × (m ≡ done a)

pub Returns->>= {ℓ κ} :
    {A : Type ℓ} {B : Type κ} (m : Outcome A) (f : A → Outcome B)
    → Returns m
    → ((a : A) → Returns (f a))
    → Returns (m >>= f)
Returns->>= m f (a, e) g = let (b, e') = g a in (b, rw (e, ◌>>=◌) e')

quality-Returns :
    (fp : Fingerprint) (samples : Around) (len : ℕ) (garbage : ℤ)
    → 0 < fp.len
    → Returns (quality fp samples len garbage)
unfolding quality
quality-Returns fp samples len garbage h =
    let s = scan_loop fp samples len 0 (record { dif = ulong_max; best_x = garbage }) in
    (record { dif = s.dif / (fp.len * 3); x_ofs = s.best_x; fp = fp }, ground arith)

search_loop-Returns :
    (fps : List Fingerprint) (samples : Around) (len : ℕ) (garbage : ℤ) (s : Search)
    → All (λ fp. 0 < fp.len) fps
    → Returns (search_loop fps samples len garbage s)
unfolding search_loop
search_loop-Returns [] samples len garbage s h = (s, refl)
search_loop-Returns (fp ∷ fps) samples len garbage s (h, hs) =
    Returns->>= (quality fp samples len garbage) _ (quality-Returns fp samples len garbage h) (λ m.
      search_loop-Returns fps samples len garbage (if is_match m then note_match m s else s) hs)

module _ (feed : Feed) (some_len : All (λ fp. 0 < fp.len) feed.fps) where
  scan_opening-Returns : (out : ℕ → ℤ) (od now : ℕ) → Returns (scan_opening feed out od now)
  unfolding scan_opening search_fingerprints
  scan_opening-Returns out od now =
      let filtered =
        sample_filter_avg (λ i. out (feed.base + od + i - open_scan_len)) open_scan_len in
      Returns->>= _ _
        (Returns->>= _ _
          (search_loop-Returns feed.fps (on_stack filtered.0 (feed.stack now)) filtered.1
            (feed.garbage now) search_start some_len)
          (λ s. (_, refl)))
        (λ found. (_, refl))

  check_open-Returns : (out : ℕ → ℤ) (od : ℕ) (q : Squelch) → Returns (check_open feed out od q)
  unfolding check_open
  check_open-Returns out od q =
      elim (Bool-cases (not q.sql_open && ltb q.sql_absval_sum thr_open)) [
        | inl y ↦ rw y (Returns->>= _ _ (scan_opening-Returns out od q.sql_pos) (λ e. (_, refl)))
        | inr n ↦ rw n (_, refl)
      ]

  check_sql-Returns : (out : ℕ → ℤ) (od : ℕ) (q : Squelch) → Returns (check_sql feed out od q)
  unfolding check_sql
  check_sql-Returns out od q =
      Returns->>= _ _ (check_open-Returns out od (check_close q).0) (λ r. (_, refl))

  reduced_check-Returns :
      (out : ℕ → ℤ) (od : ℕ) (q : Squelch) → Returns (reduced_check feed out od q)
  unfolding reduced_check
  reduced_check-Returns out od q = elim (Bool-cases (q.sql_red_step == 15)) [
    | inl y ↦ rw y (check_sql-Returns out od (record q { sql_red_step = 0 }))
    | inr n ↦ rw n (_, refl)
  ]

  copy_loop-Returns : (n id od : ℕ) (c : Copy) → Returns (copy_loop feed n id od c)
  unfolding copy_loop copy_step
  copy_loop-Returns zero id od c = (c, refl)
  copy_loop-Returns (suc n) id od c =
      Returns->>= _ _ (Returns->>= _ _ (reduced_check-Returns _ od _) (λ r. (_, refl)))
        (copy_loop-Returns n (id + feed.step) (od + 1))

-- copy_buffer returns, for any input, any squelch state and any uninitialised memory, when every
-- loaded fingerprint has a sample.
pub copy_buffer-Returns :
    (feed : Feed) (len : ℕ) (q : Squelch) (out : ℕ → ℤ)
    → All (λ fp. 0 < fp.len) feed.fps
    → (r : Copy × ℕ) × (copy_buffer feed len q out ≡ done r)
unfolding copy_buffer
copy_buffer-Returns feed len q out h =
    Returns->>= _ _ (copy_loop-Returns feed h len 0 0 _) (λ c. (_, refl))
