-- ===== src/RwLock/Tests.antt =====
-- A run of the lock, and the theorems at concrete inputs.
use edysquelch.Prelude.{ℕ, ◌+◌, ◌≤◌, ◌<◌, min, ◌≡◌, refl, ◌⊎◌, true, false, List, [], ◌∷◌, pos}
use edysquelch.RwLock.{
  ebusy, RwLock, rwl_init, rwl_destroy, rwl_rdlock, rwl_tryrdlock, rwl_rdunlock, rwl_wrlock,
  wrlock_woken, idle, writing, waits_read, Action, rdlock, tryrdlock, wrlock, unlock, wake, act,
  set_thread, step, run,
}
use edysquelch.RwLock.Sections.{is_reading, is_writing, awaits_read, awaits_write, count}
use edysquelch.RwLock.Schedules.{idles, start, run-exclusion, run-destroy}

abbrev raw_lock : RwLock
raw_lock = record {
  valid = false;
  r_active = pos 9;
  w_active = true;
  r_wait = pos 9;
  w_wait = pos 9;
}

-- Two readers, a writer that waits for both, and a third reader that it lets pass.
abbrev schedule : List (ℕ × Action)
schedule =
    (0, rdlock)
    ∷ (1, rdlock)
    ∷ (2, wrlock)
    ∷ (0, unlock)
    ∷ (2, wake 0)
    ∷ (0, tryrdlock)
    ∷ (0, unlock)
    ∷ (1, unlock)
    ∷ (2, wake 0)
    ∷ (1, rdlock)
    ∷ []

schedule-run : (run (start raw_lock 3) schedule).threads ≡ idle ∷ waits_read ∷ writing ∷ []
unfolding run step act rwl_init idles set_thread rwl_rdlock rwl_tryrdlock rwl_wrlock rwl_rdunlock
    wrlock_woken
schedule-run = refl

exclusion_example :
    let s = run (start raw_lock 3) schedule in
    (count is_writing s.threads + min 1 (count is_reading s.threads) ≤ 1)
    × (s.lock.r_active ≡ pos (count is_reading s.threads))
    × (s.lock.r_wait ≡ pos (count awaits_read s.threads))
    × (s.lock.w_wait ≡ pos (count awaits_write s.threads))
exclusion_example = run-exclusion raw_lock 3 schedule

destroy_example :
    let s = run (start raw_lock 3) schedule in
    let used =
      count is_reading s.threads
      + count is_writing s.threads
      + count awaits_read s.threads
      + count awaits_write s.threads in
    ((0 < used) × (rwl_destroy 0 0 0 s.lock ≡ (s.lock, ebusy)))
    ⊎ ((used ≡ 0) × ((rwl_destroy 0 0 0 s.lock).0.valid ≡ false))
destroy_example = run-destroy raw_lock 3 schedule 0 0 0
