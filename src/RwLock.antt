-- ===== src/RwLock.antt =====
-- src/rwlock.c: the read-write lock, as what each function does between taking and leaving its
-- mutex. The mutex calls succeed; the status of a wait and of a creation is an argument, and a wait
-- may end at any time.
pub mod Sections
pub mod Schedules
mod Tests
use edysquelch.Prelude.{
  ℕ, zero, suc, Bool, true, false, not, ◌&&◌, ◌||◌, none, some, List, [], ◌∷◌, if◌then◌else◌,
  get_elem?, ℤ, pos, negsuc,
}

abbrev pub ebusy : ℕ
ebusy = 16

abbrev pub einval : ℕ
einval = 22

-- ++ and -- on an int that stays far from its ends.
abbrev pub inc : ℤ → ℤ
inc (pos n) = pos (suc n)
inc (negsuc zero) = pos 0
inc (negsuc (suc n)) = negsuc n

abbrev pub dec : ℤ → ℤ
dec (pos zero) = negsuc 0
dec (pos (suc n)) = pos n
dec (negsuc n) = negsuc (suc n)

-- x > 0
abbrev pub is_positive : ℤ → Bool
is_positive (pos zero) = false
is_positive (pos (suc n)) = true
is_positive (negsuc n) = false

-- x == 0
abbrev pub is_none : ℤ → Bool
is_none (pos zero) = true
is_none (pos (suc n)) = false
is_none (negsuc n) = false

-- status != 0
abbrev pub failed : ℕ → Bool
failed zero = false
failed (suc n) = true

-- struct rwlock_tag: `valid` is whether the field holds RWLOCK_VALID.
pub record RwLock : Type 0 where
  pub valid : Bool
  pub r_active : ℤ
  pub w_active : Bool
  pub r_wait : ℤ
  pub w_wait : ℤ

-- The function returns its status, or its thread waits on a condition variable.
pub data Reply : Type 0 where
  replies : ℕ → Reply
  blocks : Reply

-- Which condition variable is signalled; a broadcast is one of the readers'.
pub data Signal : Type 0 where
  no_signal to_readers to_writer : Signal

-- The arguments are what the creation of the mutex and of the two condition variables gives.
unfoldable pub rwl_init : ℕ → ℕ → ℕ → RwLock → RwLock × ℕ
rwl_init mutex_status read_status write_status l =
    let cleared = record l { r_active = pos 0; r_wait = pos 0; w_wait = pos 0; w_active = false } in
    if failed mutex_status
    then (cleared, mutex_status)
    else if failed read_status
    then (cleared, read_status)
    else if failed write_status
    then (cleared, write_status)
    else (record cleared { valid = true }, 0)

-- The statuses are those of the destruction of the mutex and of the two condition variables.
unfoldable pub rwl_destroy : ℕ → ℕ → ℕ → RwLock → RwLock × ℕ
rwl_destroy status status1 status2 l =
    if not l.valid
    then (l, einval)
    else if is_positive l.r_active || l.w_active
    then (l, ebusy)
    else if not (is_none l.r_wait) || not (is_none l.w_wait)
    then (l, ebusy)
    else (
      record l { valid = false },
      if failed status then (if failed status1 then status2 else status1) else status,
    )

-- rwl_readcleanup and rwl_writecleanup, when a waiting thread is cancelled.
unfoldable pub rwl_readcleanup : RwLock → RwLock
rwl_readcleanup l = record l { r_wait = dec l.r_wait }

unfoldable pub rwl_writecleanup : RwLock → RwLock
rwl_writecleanup l = record l { w_wait = dec l.w_wait }

-- rwl_rdlock up to its return or its first wait.
unfoldable pub rwl_rdlock : RwLock → RwLock × Reply
rwl_rdlock l =
    if not l.valid
    then (l, replies einval)
    else if l.w_active
    then (record l { r_wait = inc l.r_wait }, blocks)
    else (record l { r_active = inc l.r_active }, replies 0)

-- rwl_rdlock after a wait that gave the status.
unfoldable pub rdlock_woken : ℕ → RwLock → RwLock × Reply
rdlock_woken status l =
    if failed status
    then (record l { r_wait = dec l.r_wait }, replies status)
    else if l.w_active
    then (l, blocks)
    else (record l { r_wait = dec l.r_wait; r_active = inc l.r_active }, replies 0)

unfoldable pub rwl_tryrdlock : RwLock → RwLock × Reply
rwl_tryrdlock l =
    if not l.valid
    then (l, replies einval)
    else if l.w_active
    then (l, replies ebusy)
    else (record l { r_active = inc l.r_active }, replies 0)

unfoldable pub rwl_rdunlock : RwLock → RwLock × Signal
rwl_rdunlock l = if not l.valid then (l, no_signal) else (
  record l { r_active = dec l.r_active },
  if is_none (dec l.r_active) && is_positive l.w_wait then to_writer else no_signal,
)

-- rwl_wrlock up to its return or its first wait, and after a wait.
unfoldable pub rwl_wrlock : RwLock → RwLock × Reply
rwl_wrlock l =
    if not l.valid
    then (l, replies einval)
    else if l.w_active || is_positive l.r_active
    then (record l { w_wait = inc l.w_wait }, blocks)
    else (record l { w_active = true }, replies 0)

unfoldable pub wrlock_woken : ℕ → RwLock → RwLock × Reply
wrlock_woken status l =
    if failed status
    then (record l { w_wait = dec l.w_wait }, replies status)
    else if l.w_active || is_positive l.r_active
    then (l, blocks)
    else (record l { w_wait = dec l.w_wait; w_active = true }, replies 0)

unfoldable pub rwl_trywrlock : RwLock → RwLock × Reply
rwl_trywrlock l =
    if not l.valid
    then (l, replies einval)
    else if l.w_active || is_positive l.r_active
    then (l, replies ebusy)
    else (record l { w_active = true }, replies 0)

unfoldable pub rwl_wrunlock : RwLock → RwLock × Signal
rwl_wrunlock l = if not l.valid then (l, no_signal) else (
  record l { w_active = false },
  if is_positive l.r_wait
      then to_readers
      else if is_positive l.w_wait
      then to_writer
      else no_signal,
)

-- Where a thread is, and what it can do there: a thread unlocks only what it holds.
pub data Thread : Type 0 where
  idle reading writing waits_read waits_write : Thread

pub data Action : Type 0 where
  rdlock tryrdlock wrlock trywrlock unlock cancel : Action
  wake : ℕ → Action

abbrev pub got : Thread → Thread → Reply → Thread
got held waits (replies zero) = held
got held waits (replies (suc status)) = idle
got held waits blocks = waits

abbrev pub entered : Thread → Thread → RwLock × Reply → RwLock × Thread
entered held waits (l, reply) = (l, got held waits reply)

-- What an action does to the lock and its thread; one that the thread cannot take does nothing.
unfoldable pub act : Action → RwLock → Thread → RwLock × Thread
act rdlock l idle = entered reading waits_read (rwl_rdlock l)
act tryrdlock l idle = entered reading waits_read (rwl_tryrdlock l)
act wrlock l idle = entered writing waits_write (rwl_wrlock l)
act trywrlock l idle = entered writing waits_write (rwl_trywrlock l)
act unlock l reading = ((rwl_rdunlock l).0, idle)
act unlock l writing = ((rwl_wrunlock l).0, idle)
act (wake status) l waits_read = entered reading waits_read (rdlock_woken status l)
act (wake status) l waits_write = entered writing waits_write (wrlock_woken status l)
act cancel l waits_read = (rwl_readcleanup l, idle)
act cancel l waits_write = (rwl_writecleanup l, idle)
act a l t = (l, t)

-- The lock with the threads that use it.
pub record System : Type 0 where
  pub lock : RwLock
  pub threads : List Thread

unfoldable pub set_thread : List Thread → ℕ → Thread → List Thread
set_thread [] i u = []
set_thread (t ∷ ts) zero u = u ∷ ts
set_thread (t ∷ ts) (suc i) u = t ∷ set_thread ts i u

-- Thread `i` acts.
unfoldable pub step : System → ℕ → Action → System
step s i a = elim (get_elem? s.threads i) [
  | none ↦ s
  | some t ↦ record {
    lock = (act a s.lock t).0;
    threads = set_thread s.threads i (act a s.lock t).1;
  }
]

unfoldable pub run : System → List (ℕ × Action) → System
run s [] = s
run s ((i, a) ∷ steps) = run (step s i a) steps
