-- ===== src/RwLock/Schedules.antt =====
-- Under any schedule the counters count the threads, and writers exclude all others.
use edysquelch.Prelude.{
  ℕ, zero, suc, ◌+◌, ◌≤◌, ◌<◌, min, ◌≡◌, refl, ap, ◌∙◌, ◌⊎◌, inl, inr, Bool, true, false, Option,
  none, some, List, [], ◌∷◌, arith, get_elem?, pos,
}
use edysquelch.RwLock.{
  ebusy, RwLock, rwl_init, rwl_destroy, Thread, idle, Action, act, System, set_thread, step, run,
}
use edysquelch.RwLock.Sections.{
  is_reading, is_writing, awaits_read, awaits_write, put_on, count, Agrees, shared, exclusive,
  AgreesAt, act-Agrees,
}

put_on_comm : (a b : Bool) (n : ℕ) → put_on a (put_on b n) ≡ put_on b (put_on a n)
put_on_comm true true n = refl
put_on_comm true false n = refl
put_on_comm false true n = refl
put_on_comm false false n = refl

-- Putting one thread in the place of another: the others are counted as before.
count-set_thread :
    (p : Thread → Bool) (ts : List Thread) (i : ℕ) (t u : Thread)
    → get_elem? ts i ≡ some t
    → (n : ℕ) × (count p ts ≡ put_on (p t) n) × (count p (set_thread ts i u) ≡ put_on (p u) n)
unfolding set_thread
count-set_thread p [] i t u e = cc
count-set_thread p (v ∷ ts) zero t u e =
    let same : v ≡ t = cc in (count p ts, ap (λ x. put_on (p x) (count p ts)) same, refl)
count-set_thread p (v ∷ ts) (suc i) t u e =
    let (n, before, after) = count-set_thread p ts i t u e in
    (
      put_on (p v) n,
      ap (put_on (p v)) before ∙ put_on_comm (p v) (p t) n,
      ap (put_on (p v)) after ∙ put_on_comm (p v) (p u) n,
    )

-- The lock counts its threads.
abbrev pub Counts : System → Type 0
Counts s =
    Agrees s.lock (count is_reading s.threads) (count is_writing s.threads)
      (count awaits_read s.threads) (count awaits_write s.threads)

option_cases : (o : Option Thread) → (o ≡ none) ⊎ ((t : Thread) × (o ≡ some t))
option_cases none = inl refl
option_cases (some t) = inr (t, refl)

pub step-Counts : (s : System) (i : ℕ) (a : Action) → Counts s → Counts (step s i a)
unfolding step
step-Counts s i a h = elim (option_cases (get_elem? s.threads i)) [
  | inl e ↦ rw (e, step) h
  | inr (t, e) ↦
      let u = (act a s.lock t).1 in
      let (r, r1, r2) = count-set_thread is_reading s.threads i t u e in
      let (w, w1, w2) = count-set_thread is_writing s.threads i t u e in
      let (waiting, a1, a2) = count-set_thread awaits_read s.threads i t u e in
      let (ww, b1, b2) = count-set_thread awaits_write s.threads i t u e in
      let split : AgreesAt r w waiting ww (s.lock, t) = rw (← r1, ← w1, ← a1, ← b1) h in
      let moved = act-Agrees a t s.lock r w waiting ww split in
      rw (e, step) (rw (r2, w2, a2, b2) moved)
]

pub run-Counts : (steps : List (ℕ × Action)) (s : System) → Counts s → Counts (run s steps)
unfolding run
run-Counts [] s h = h
run-Counts ((i, a) ∷ steps) s h = run-Counts steps (step s i a) (step-Counts s i a h)

unfoldable pub idles : ℕ → List Thread
idles zero = []
idles (suc n) = idle ∷ idles n

-- A lock just made, and threads that have not called it.
abbrev pub start : RwLock → ℕ → System
start l n = record { lock = (rwl_init 0 0 0 l).0; threads = idles n }

count-idles : (p : Thread → Bool) (n : ℕ) → p idle ≡ false → count p (idles n) ≡ 0
unfolding idles
count-idles p zero h = refl
count-idles p (suc n) h = rw h (count-idles p n h)

start-Counts : (l : RwLock) (n : ℕ) → Counts (start l n)
unfolding rwl_init
start-Counts l n =
    rw
      (
        count-idles is_reading n refl,
        count-idles is_writing n refl,
        count-idles awaits_read n refl,
        count-idles awaits_write n refl,
      )
      (shared 0 0 0)

-- Mutual exclusion, read from the counters.
Agrees-exclusion :
    {l : RwLock} {r w rd ww : ℕ}
    → Agrees l r w rd ww
    → (w + min 1 r ≤ 1) × (l.r_active ≡ pos r) × (l.r_wait ≡ pos rd) × (l.w_wait ≡ pos ww)
Agrees-exclusion (shared r rd ww) = (omega arith, refl, refl, refl)
Agrees-exclusion (exclusive rd ww) = (omega arith, refl, refl, refl)

-- After any schedule of any number of threads on a lock just made, in which waits end at any time,
-- with any status, or are cancelled: there is at most one writer, and no reader beside one; and the
-- lock's counters are the numbers of readers, of waiting readers and of waiting writers.
pub run-exclusion :
    (l : RwLock) (n : ℕ) (steps : List (ℕ × Action))
    → let s = run (start l n) steps in
      (count is_writing s.threads + min 1 (count is_reading s.threads) ≤ 1)
      × (s.lock.r_active ≡ pos (count is_reading s.threads))
      × (s.lock.r_wait ≡ pos (count awaits_read s.threads))
      × (s.lock.w_wait ≡ pos (count awaits_write s.threads))
run-exclusion l n steps = Agrees-exclusion (run-Counts steps (start l n) (start-Counts l n))

-- Whether rwl_destroy refused, by the numbers of threads.
Agrees-destroy :
    {l : RwLock} {r w rd ww : ℕ}
    → (s0 s1 s2 : ℕ) → Agrees l r w rd ww
    → ((0 < r + w + rd + ww) × (rwl_destroy s0 s1 s2 l ≡ (l, ebusy)))
      ⊎ ((r + w + rd + ww ≡ 0) × ((rwl_destroy s0 s1 s2 l).0.valid ≡ false))
unfolding rwl_destroy
Agrees-destroy s0 s1 s2 (shared zero zero zero) = inr (omega arith, refl)
Agrees-destroy s0 s1 s2 (shared zero zero (suc ww)) = inl (omega arith, refl)
Agrees-destroy s0 s1 s2 (shared zero (suc rd) ww) = inl (omega arith, refl)
Agrees-destroy s0 s1 s2 (shared (suc r) rd ww) = inl (omega arith, refl)
Agrees-destroy s0 s1 s2 (exclusive rd ww) = inl (omega arith, refl)

-- After any schedule rwl_destroy gives EBUSY and leaves the lock as it is exactly where some thread
-- reads, writes or waits; otherwise the lock is no longer valid.
pub run-destroy :
    (l : RwLock) (n : ℕ) (steps : List (ℕ × Action)) (s0 s1 s2 : ℕ)
    → let s = run (start l n) steps in
      let used =
        count is_reading s.threads
        + count is_writing s.threads
        + count awaits_read s.threads
        + count awaits_write s.threads in
      ((0 < used) × (rwl_destroy s0 s1 s2 s.lock ≡ (s.lock, ebusy)))
      ⊎ ((used ≡ 0) × ((rwl_destroy s0 s1 s2 s.lock).0.valid ≡ false))
run-destroy l n steps s0 s1 s2 =
    Agrees-destroy s0 s1 s2 (run-Counts steps (start l n) (start-Counts l n))
