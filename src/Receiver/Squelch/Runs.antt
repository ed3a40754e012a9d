-- ===== src/Receiver/Squelch/Runs.antt =====
-- A whole call of copy_buffer.
use mathlib.Core.List.{append-nil}
use native.Mathlib.Nat.{add-zero, zero-add}
use edysquelch.Prelude.{
  ℕ, ◌+◌, ◌*◌, ◌≤◌, ◌<◌, ◌≡◌, refl, sym, ap, ◌∙◌, subst, ◌⊎◌, inl, inr, true, false, [], arith,
  ◌==◌, Bool-cases, ℤ, negsuc, done, >>=-eq-done, zero, suc, Bool, ◌++◌, if◌then◌else◌, ltb_ℤ, abs,
  ◌>>=◌,
}
use edysquelch.Receiver.Squelch.{
  thr_open, thr_close, Squelch, Feed, Copy, reduced_check, copy_loop, copy_buffer, store,
  level_step, copy_step,
}
use edysquelch.Fingerpori.Average.{IsShort}
use edysquelch.Receiver.Squelch.Level.{
  level_limit, level_step-lt-limit, level_step-quiet, level_step-loud,
}
use edysquelch.Receiver.Squelch.Checks.{Alternate, check_sql-keeps}
use edysquelch.Receiver.Squelch.Loop.{copy_loop-Ran, level_step-open}

abbrev loop_start : Squelch → (ℕ → ℤ) → Copy
loop_start q out = record { sql = q; out = out; maxval = negsuc 31999; events = [] }

-- The loop of a call that returns.
copy_buffer-loop :
    (feed : Feed) (len : ℕ) (q : Squelch) (out : ℕ → ℤ) {c : Copy} {n : ℕ}
    → copy_buffer feed len q out ≡ done (c, n)
    → (copy_loop feed len 0 0 (loop_start q out) ≡ done c) × (n ≡ len)
unfolding copy_buffer
copy_buffer-loop feed len q out {c} h =
    let (c', e, rest) = >>=-eq-done (copy_loop feed len 0 0 (loop_start q out)) _ h in
    let same : c' ≡ c = cc in (e ∙ ap done same, cc)

-- The notifications of a call take turns: beginning with the end of an over if the squelch was
-- open, and with a match or an opening if it was closed, and they end in the state that the
-- squelch is left in. So no over opens before the one before it has ended.
pub copy_buffer-Alternate :
    (feed : Feed) (len : ℕ) (q : Squelch) (out : ℕ → ℤ) {c : Copy} {n : ℕ}
    → copy_buffer feed len q out ≡ done (c, n)
    → Alternate q.sql_open c.events c.sql.sql_open
copy_buffer-Alternate feed len q out {c} h =
    let ran = copy_loop-Ran feed len 0 0 (loop_start q out) (copy_buffer-loop feed len q out h).0 in
    subst (λ es. Alternate q.sql_open es c.sql.sql_open) (sym ran.new_are) ran.turns

-- A call copies each `step`-th input sample, `len` of them, to the buffer from `base` on, leaves
-- the rest of the buffer as it was, and returns `len`.
pub copy_buffer-copies :
    (feed : Feed) (len : ℕ) (q : Squelch) (out : ℕ → ℤ) {c : Copy} {n : ℕ}
    → copy_buffer feed len q out ≡ done (c, n)
    → (n ≡ len)
      × ((k : ℕ) → k < len → c.out (feed.base + k) ≡ feed.input (k * feed.step))
      × ((p : ℕ) → (p < feed.base) ⊎ (feed.base + len ≤ p) → c.out p ≡ out p)
copy_buffer-copies feed len q out h =
    let (loop, counted) = copy_buffer-loop feed len q out h in
    let ran = copy_loop-Ran feed len 0 0 (loop_start q out) loop in
    (
      counted,
      λ k l. simp (add-zero, zero-add) at (ran.written k l),
      λ p away. ran.kept p (ground arith),
    )

-- A squelch that is open (true) under the closing level, or closed (false) over the opening one.
abbrev pub Steady : Bool → Squelch → Type 0
Steady true q = (q.sql_open ≡ true) × (q.sql_absval_sum ≤ thr_close)
Steady false q =
    (q.sql_open ≡ false) × (thr_open ≤ q.sql_absval_sum) × (q.sql_absval_sum < level_limit)

-- Noise that is too weak to close it, or too strong to open it.
abbrev pub Calm : Bool → ℤ → Type 0
Calm true x = abs x ≤ 3400
Calm false x = IsShort x × (1500 ≤ abs x)

Steady-level_step :
    (b : Bool) (q : Squelch) (x : ℤ) → Steady b q → Calm b x → Steady b (level_step q x)
Steady-level_step true q x (o, l) h = (rw level_step-open o, level_step-quiet q x h l)
Steady-level_step false q x (c, l, m) (short, h) =
    (rw level_step-open c, level_step-loud q x short m h l, (level_step-lt-limit q x short m).0)

-- A check on such a squelch changes no more than the counter.
Steady-check :
    (b : Bool) (feed : Feed) (out : ℕ → ℤ) (od : ℕ) (q : Squelch)
    → Steady b q
    → (r : Squelch) × (reduced_check feed out od q ≡ done (r, [])) × Steady b r
unfolding reduced_check
Steady-check true feed out od q (o, l) = elim (Bool-cases (q.sql_red_step == 15)) [
  | inl y ↦
      let q' = record q { sql_red_step = 0 } in
      (q', rw y (check_sql-keeps feed out od q' (λ _. l) (λ c. cc)), (o, l))
  | inr n ↦ (q, rw n refl, (o, l))
]
Steady-check false feed out od q (c, l, m) = elim (Bool-cases (q.sql_red_step == 15)) [
  | inl y ↦
      let q' = record q { sql_red_step = 0 } in
      (q', rw y (check_sql-keeps feed out od q' (λ o. cc) (λ _. l)), (c, l, m))
  | inr n ↦ (q, rw n refl, (c, l, m))
]

copy_loop-Steady :
    (b : Bool) (feed : Feed) (n id od : ℕ) (c : Copy)
    → Steady b c.sql
    → ((k : ℕ) → Calm b (feed.highpass k))
    → (c' : Copy) × (copy_loop feed n id od c ≡ done c') × (c'.events ≡ c.events) × Steady b c'.sql
unfolding copy_loop copy_step
copy_loop-Steady b feed zero id od c s calm = (c, refl, refl, s)
copy_loop-Steady b feed (suc n) id od c s calm =
    let x = feed.input id in
    let out = store c.out (feed.base + od) x in
    let q = level_step c.sql (feed.highpass od) in
    let (r, e, s') = Steady-check b feed out od q (Steady-level_step b c.sql _ s (calm od)) in
    let c1 : Copy = record {
      sql = r;
      out = out;
      maxval = if ltb_ℤ c.maxval x then x else c.maxval;
      events = c.events ++ [];
    } in
    let (c', run, same, last) = copy_loop-Steady b feed n (id + feed.step) (od + 1) c1 s' calm in
    (c', rw (e, ◌>>=◌) run, same ∙ append-nil c.events, last)

-- Hysteresis. An open squelch at or under its closing level stays open and notifies nothing while
-- the highpass output is at most 3400 in size; a closed one at or over its opening level stays
-- closed and notifies nothing while that output is at least 1500. In both cases the call returns.
pub copy_buffer-Steady :
    (b : Bool) (feed : Feed) (len : ℕ) (q : Squelch) (out : ℕ → ℤ)
    → Steady b q
    → ((k : ℕ) → Calm b (feed.highpass k))
    → (c : Copy) × (copy_buffer feed len q out ≡ done (c, len)) × (c.events ≡ []) × Steady b c.sql
unfolding copy_buffer
copy_buffer-Steady b feed len q out s calm =
    let (c, e, none_sent, s') = copy_loop-Steady b feed len 0 0 (loop_start q out) s calm in
    (c, rw (e, ◌>>=◌) refl, none_sent, s')
