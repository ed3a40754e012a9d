-- ===== src/Receiver/Squelch/Loop.antt =====
-- The loop of copy_buffer: its notifications, its buffer and its level.
use mathlib.Core.List.{append-nil, append_assoc}
use edysquelch.Prelude.{
  ℕ, zero, suc, ◌+◌, ◌*◌, ◌≤◌, ◌<◌, ◌≡◌, refl, sym, ◌∙◌, subst, ◌≢◌, ◌⊎◌, inl, inr, Bool, true,
  false, List, [], ◌∷◌, ◌++◌, arith, ◌==◌, if◌then◌else◌, Bool-cases, ℤ, ltb_ℤ, done, >>=-eq-done,
}
use edysquelch.Receiver.Squelch.{
  Squelch, Event, over_end, matched, opened, Feed, Copy, store, level_step, reduced_check,
  copy_step, copy_loop,
}
use edysquelch.Receiver.Squelch.Checks.{
  Alternate, Alternate-append, Checked, kept, closes, opens, check_sql-Checked,
}

-- What a check does to the level and to the order of the notifications.
record Fair (q r : Squelch) (es : List Event) : Type 0 where
  turns : Alternate q.sql_open es r.sql_open
  level : r.sql_absval_sum ≡ q.sql_absval_sum

opening_turns :
    (e : Event) {a : Bool} → ((d : ℕ) → e ≢ over_end d) → a ≡ false → Alternate a (e ∷ []) true
opening_turns (over_end d) ne h = absurd (ne d refl)
opening_turns (matched n) ne h = rw h refl
opening_turns (opened l n) ne h = rw h refl

Checked-Fair : {q r : Squelch} {es : List Event} → Checked q r es → Fair q r es
Checked-Fair (kept e _ _) = rw e (record { turns = refl; level = refl })
Checked-Fair (closes o _ e) = rw e (record { turns = rw o refl; level = refl })
Checked-Fair (opens e c _ r ne) = rw r (record { turns = opening_turns e ne c; level = refl })

reduced_check-Fair :
    (feed : Feed) (out : ℕ → ℤ) (od : ℕ) (q : Squelch) {r : Squelch × List Event}
    → reduced_check feed out od q ≡ done r
    → Fair q r.0 r.1
unfolding reduced_check
reduced_check-Fair feed out od q {r} h = elim (Bool-cases (q.sql_red_step == 15)) [
  | inl y ↦
      let f =
        Checked-Fair (check_sql-Checked feed out od (record q { sql_red_step = 0 }) (rw y at h)) in
      record { turns = f.turns; level = f.level }
  | inr n ↦
      let e : (q, []) ≡ r = ground arith in
      subst (λ (z : Squelch × List Event). Fair q z.0 z.1) e (record { turns = refl; level = refl })
]

-- The parts of one round that ends.
record Round (feed : Feed) (id od : ℕ) (c c' : Copy) : Type 0 where
  events : List Event
  checked :
      reduced_check feed
        (store c.out (feed.base + od) (feed.input id))
        od
        (level_step c.sql (feed.highpass od))
      ≡ done (c'.sql, events)
  events_are : c'.events ≡ c.events ++ events
  out_is : c'.out ≡ store c.out (feed.base + od) (feed.input id)
  maxval_is : c'.maxval ≡ (if ltb_ℤ c.maxval (feed.input id) then feed.input id else c.maxval)

copy_step-Round :
    (feed : Feed) (id od : ℕ) (c : Copy) {c' : Copy}
    → copy_step feed id od c ≡ done c'
    → Round feed id od c c'
unfolding copy_step
copy_step-Round feed id od c {c'} h =
    let (r, checked, rest) = >>=-eq-done _ _ h in
    let e : record {
      sql = r.0;
      out = store c.out (feed.base + od) (feed.input id);
      maxval = if ltb_ℤ c.maxval (feed.input id) then feed.input id else c.maxval;
      events = c.events ++ r.1;
    }
        ≡ c' =
      cc in
    subst (Round feed id od c) e (record {
      events = r.1;
      checked = checked;
      events_are = refl;
      out_is = refl;
      maxval_is = refl;
    })

pub record Ran (n : ℕ) (feed : Feed) (id od : ℕ) (c c' : Copy) : Type 0 where
  pub new : List Event
  pub new_are : c'.events ≡ c.events ++ new
  pub turns : Alternate c.sql.sql_open new c'.sql.sql_open
  pub written : (k : ℕ) → k < n → c'.out (feed.base + od + k) ≡ feed.input (id + k * feed.step)
  pub kept : (p : ℕ) → (p < feed.base + od) ⊎ (feed.base + od + n ≤ p) → c'.out p ≡ c.out p

pub level_step-open : (q : Squelch) (x : ℤ) → (level_step q x).sql_open ≡ q.sql_open
unfolding level_step
level_step-open q x = refl

module _ (feed : Feed) (n id od : ℕ) (c c1 c' : Copy) (round : Round feed id od c c1)
    (ran : Ran n feed (id + feed.step) (od + 1) c1 c') where
  next-written : (k : ℕ) → k < suc n → c'.out (feed.base + od + k) ≡ feed.input (id + k * feed.step)
  next-written zero h =
      let place : feed.base + od + 0 ≡ feed.base + od = omega arith in
      let first : id + 0 * feed.step ≡ id = omega arith in
      let there = ran.kept (feed.base + od) (inl (omega arith)) in
      rw (place, first, there, round.out_is) (ground arith)
  next-written (suc k) h =
      let place : feed.base + (od + 1) + k ≡ feed.base + od + suc k = omega arith in
      let source : id + feed.step + k * feed.step ≡ id + suc k * feed.step = grind arith in
      rw (← place, ← source) (ran.written k (omega arith))

  next-kept : (p : ℕ) → (p < feed.base + od) ⊎ (feed.base + od + suc n ≤ p) → c'.out p ≡ c.out p
  next-kept p h =
      let away : (p < feed.base + (od + 1)) ⊎ (feed.base + (od + 1) + n ≤ p) = ground arith in
      ran.kept p away ∙ (rw round.out_is (ground arith))

  next-Ran : Ran (suc n) feed id od c c'
  next-Ran =
      let fair = reduced_check-Fair feed _ od _ round.checked in
      record {
        new = round.events ++ ran.new;
        new_are = ran.new_are ∙ rw (round.events_are, append_assoc) refl;
        turns =
            Alternate-append round.events ran.new c.sql.sql_open c1.sql.sql_open c'.sql.sql_open
              (rw level_step-open at fair.turns) ran.turns;
        written = next-written;
        kept = next-kept;
      }

pub copy_loop-Ran :
    (feed : Feed) (n id od : ℕ) (c : Copy) {c' : Copy}
    → copy_loop feed n id od c ≡ done c'
    → Ran n feed id od c c'
unfolding copy_loop
copy_loop-Ran feed zero id od c {c'} h =
    let e : c ≡ c' = cc in
    subst (Ran 0 feed id od c) e (record {
      new = [];
      new_are = sym (append-nil c.events);
      turns = refl;
      written = λ k l. elim l [ ];
      kept = λ p _. refl;
    })
copy_loop-Ran feed (suc n) id od c {c'} h =
    let (c1, first, rest) = >>=-eq-done (copy_step feed id od c) _ h in
    next-Ran feed n id od c c1 c' (copy_step-Round feed id od c first)
      (copy_loop-Ran feed n (id + feed.step) (od + 1) c1 rest)
