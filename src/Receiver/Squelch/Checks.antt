-- ===== src/Receiver/Squelch/Checks.antt =====
-- The two checks of the squelch: hysteresis, and the order of the notifications.
use native.Mathlib.Decide.{dec_lt}
use edysquelch.Prelude.{
  ℕ, ◌≤◌, ◌<◌, ◌≡◌, sym, subst, ◌≢◌, Bool, true, false, List, [], ◌∷◌, ◌++◌, ℤ, done, refl, ◌∙◌,
  inl, inr, arith, Bool-cases, ◌>>=◌, >>=-eq-done,
}
use edysquelch.Receiver.Squelch.{
  thr_open, thr_close, Squelch, Event, over_end, matched, opened, Feed, over_length, check_sql,
  scan_opening,
}

-- Openings and ends of overs take turns, from a closed or an open squelch to one that is as the
-- last argument says.
abbrev pub Alternate : Bool → List Event → Bool → Type 0
Alternate before [] after = before ≡ after
Alternate true (over_end d ∷ es) after = Alternate false es after
Alternate true (matched n ∷ es) after = ⊥
Alternate true (opened l n ∷ es) after = ⊥
Alternate false (over_end d ∷ es) after = ⊥
Alternate false (matched n ∷ es) after = Alternate true es after
Alternate false (opened l n ∷ es) after = Alternate true es after

pub Alternate-append :
    (es fs : List Event) (a b c : Bool)
    → Alternate a es b
    → Alternate b fs c
    → Alternate a (es ++ fs) c
Alternate-append [] fs a b c h k = subst (λ z. Alternate z fs c) (sym h) k
Alternate-append (over_end d ∷ es) fs true b c h k = Alternate-append es fs false b c h k
Alternate-append (over_end d ∷ es) fs false b c h k = absurd h
Alternate-append (matched n ∷ es) fs true b c h k = absurd h
Alternate-append (matched n ∷ es) fs false b c h k = Alternate-append es fs true b c h k
Alternate-append (opened l n ∷ es) fs true b c h k = absurd h
Alternate-append (opened l n ∷ es) fs false b c h k = Alternate-append es fs true b c h k

-- Everything that a check can do.
pub data Checked (q r : Squelch) : List Event → Type 0 where
  kept :
      r ≡ q
      → (q.sql_open ≡ true → q.sql_absval_sum ≤ thr_close)
      → (q.sql_open ≡ false → thr_open ≤ q.sql_absval_sum)
      → Checked q r []
  closes :
      q.sql_open ≡ true
      → thr_close < q.sql_absval_sum
      → r ≡ record q { sql_open = false }
      → Checked q r (over_end (over_length q) ∷ [])
  opens :
      (e : Event)
      → q.sql_open ≡ false
      → q.sql_absval_sum < thr_open
      → r ≡ record q { sql_open = true; sql_open_at_pos = q.sql_pos }
      → ((d : ℕ) → e ≢ over_end d)
      → Checked q r (e ∷ [])

scan_opening-opens :
    (feed : Feed) (out : ℕ → ℤ) (od now : ℕ) {e : Event}
    → scan_opening feed out od now ≡ done e
    → (d : ℕ) → e ≢ over_end d
unfolding scan_opening
scan_opening-opens feed out od now h d = ground arith

module _ (feed : Feed) (out : ℕ → ℤ) (od : ℕ) (q : Squelch) where
  check_sql-closes :
      q.sql_open ≡ true
      → thr_close < q.sql_absval_sum
      → check_sql feed out od q
        ≡ done (record q { sql_open = false }, over_end (over_length q) ∷ [])
  unfolding check_sql
  check_sql-closes o h = ground arith

  pub check_sql-keeps :
      (q.sql_open ≡ true → q.sql_absval_sum ≤ thr_close)
      → (q.sql_open ≡ false → thr_open ≤ q.sql_absval_sum)
      → check_sql feed out od q ≡ done (q, [])
  unfolding check_sql
  check_sql-keeps o c = ground arith

  check_sql-opens :
      q.sql_open ≡ false
      → q.sql_absval_sum < thr_open
      → check_sql feed out od q ≡ (
          scan_opening feed out od q.sql_pos >>= λ e.
          done (record q { sql_open = true; sql_open_at_pos = q.sql_pos }, e ∷ []))
  unfolding check_sql
  check_sql-opens c h = ground arith

  Checked-opens :
      {r : Squelch × List Event}
      → q.sql_open ≡ false
      → q.sql_absval_sum < thr_open
      → check_sql feed out od q ≡ done r
      → Checked q r.0 r.1
  Checked-opens {r} c l h =
      let (e, scanned, rest) =
        >>=-eq-done (scan_opening feed out od q.sql_pos) _ (sym (check_sql-opens c l) ∙ h) in
      let r_is : (record q { sql_open = true; sql_open_at_pos = q.sql_pos }, e ∷ []) ≡ r = cc in
      subst (λ (z : Squelch × List Event). Checked q z.0 z.1) r_is
        (opens e c l refl (scan_opening-opens feed out od q.sql_pos scanned))

  Checked-known :
      {r s : Squelch × List Event}
      → check_sql feed out od q ≡ done s
      → Checked q s.0 s.1
      → check_sql feed out od q ≡ done r
      → Checked q r.0 r.1
  Checked-known {r} {s} is_s checked is_r =
      let e : s ≡ r = cc in subst (λ (z : Squelch × List Event). Checked q z.0 z.1) e checked

-- A check that ends does one of three things: an open squelch over the closing threshold closes,
-- with the length of the over; a closed one under the opening threshold opens, at this position,
-- with one notification of a match or of an opening; and any other stays as it is. It never does
-- both.
pub check_sql-Checked :
    (feed : Feed) (out : ℕ → ℤ) (od : ℕ) (q : Squelch) {r : Squelch × List Event}
    → check_sql feed out od q ≡ done r
    → Checked q r.0 r.1
check_sql-Checked feed out od q h = elim (Bool-cases q.sql_open) [
  | inl o ↦ elim (dec_lt thr_close q.sql_absval_sum) [
    | yes l ↦ Checked-known feed out od q (check_sql-closes feed out od q o l) (closes o l refl) h
    | no n ↦
        Checked-known feed out od q (check_sql-keeps feed out od q (λ _. omega arith) (λ c. cc))
          (kept refl (λ _. omega arith) (λ c. cc)) h
  ]
  | inr c ↦ elim (dec_lt q.sql_absval_sum thr_open) [
    | yes l ↦ Checked-opens feed out od q c l h
    | no n ↦
        Checked-known feed out od q (check_sql-keeps feed out od q (λ o. cc) (λ _. omega arith))
          (kept refl (λ o. cc) (λ _. omega arith)) h
  ]
]
