-- ===== src/RwLock/Sections.antt =====
-- Each section of the lock keeps its counters equal to the numbers of threads.
use edysquelch.Prelude.{ℕ, suc, Bool, true, false, List, [], ◌∷◌, pos, zero}
use edysquelch.RwLock.{
  RwLock, rwl_rdlock, Thread, reading, writing, waits_read, waits_write, rwl_readcleanup,
  rwl_writecleanup, rdlock_woken, rwl_tryrdlock, rwl_rdunlock, rwl_wrlock, wrlock_woken,
  rwl_trywrlock, rwl_wrunlock, idle, rdlock, tryrdlock, wrlock, trywrlock, unlock, cancel, wake,
  act, Action,
}

abbrev pub is_reading : Thread → Bool
is_reading reading = true
is_reading _ = false

abbrev pub is_writing : Thread → Bool
is_writing writing = true
is_writing _ = false

abbrev pub awaits_read : Thread → Bool
awaits_read waits_read = true
awaits_read _ = false

abbrev pub awaits_write : Thread → Bool
awaits_write waits_write = true
awaits_write _ = false

abbrev pub put_on : Bool → ℕ → ℕ
put_on true n = suc n
put_on false n = n

abbrev pub count : (Thread → Bool) → List Thread → ℕ
count p [] = 0
count p (t ∷ ts) = put_on (p t) (count p ts)

abbrev pub lock_of : Bool → ℕ → ℕ → ℕ → RwLock
lock_of b readers read_waits write_waits = record {
  valid = true;
  r_active = pos readers;
  w_active = b;
  r_wait = pos read_waits;
  w_wait = pos write_waits;
}

-- The lock agrees with the numbers of readers, writers, and threads that wait to read and to write:
-- there is no writer, or there is one and no reader.
pub data Agrees : RwLock → ℕ → ℕ → ℕ → ℕ → Type 0 where
  shared : (r rd ww : ℕ) → Agrees (lock_of false r rd ww) r 0 rd ww
  exclusive : (rd ww : ℕ) → Agrees (lock_of true 0 rd ww) 0 1 rd ww

-- The same with one thread apart from the others.
abbrev pub AgreesAt : ℕ → ℕ → ℕ → ℕ → RwLock × Thread → Type 0
AgreesAt r w rd ww (l, t) =
    Agrees l (put_on (is_reading t) r) (put_on (is_writing t) w) (put_on (awaits_read t) rd)
      (put_on (awaits_write t) ww)

rdlock-Agrees :
    (l : RwLock) (r w rd ww : ℕ) → Agrees l r w rd ww → AgreesAt r w rd ww (act rdlock l idle)
unfolding act rwl_rdlock
rdlock-Agrees _ _ _ _ _ (shared r rd ww) = shared (suc r) rd ww
rdlock-Agrees _ _ _ _ _ (exclusive rd ww) = exclusive (suc rd) ww

tryrdlock-Agrees :
    (l : RwLock) (r w rd ww : ℕ) → Agrees l r w rd ww → AgreesAt r w rd ww (act tryrdlock l idle)
unfolding act rwl_tryrdlock
tryrdlock-Agrees _ _ _ _ _ (shared r rd ww) = shared (suc r) rd ww
tryrdlock-Agrees _ _ _ _ _ (exclusive rd ww) = exclusive rd ww

wrlock-Agrees :
    (l : RwLock) (r w rd ww : ℕ) → Agrees l r w rd ww → AgreesAt r w rd ww (act wrlock l idle)
unfolding act rwl_wrlock
wrlock-Agrees _ _ _ _ _ (shared zero rd ww) = exclusive rd ww
wrlock-Agrees _ _ _ _ _ (shared (suc r) rd ww) = shared (suc r) rd (suc ww)
wrlock-Agrees _ _ _ _ _ (exclusive rd ww) = exclusive rd (suc ww)

trywrlock-Agrees :
    (l : RwLock) (r w rd ww : ℕ) → Agrees l r w rd ww → AgreesAt r w rd ww (act trywrlock l idle)
unfolding act rwl_trywrlock
trywrlock-Agrees _ _ _ _ _ (shared zero rd ww) = exclusive rd ww
trywrlock-Agrees _ _ _ _ _ (shared (suc r) rd ww) = shared (suc r) rd ww
trywrlock-Agrees _ _ _ _ _ (exclusive rd ww) = exclusive rd ww

rdunlock-Agrees :
    (l : RwLock) (r w rd ww : ℕ)
    → Agrees l (suc r) w rd ww
    → AgreesAt r w rd ww (act unlock l reading)
unfolding act rwl_rdunlock
rdunlock-Agrees _ _ _ _ _ (shared (suc r) rd ww) = shared r rd ww

wrunlock-Agrees :
    (l : RwLock) (r w rd ww : ℕ)
    → Agrees l r (suc w) rd ww
    → AgreesAt r w rd ww (act unlock l writing)
unfolding act rwl_wrunlock
wrunlock-Agrees _ _ _ _ _ (exclusive rd ww) = shared 0 rd ww

wake_reader-Agrees :
    (status : ℕ) (l : RwLock) (r w rd ww : ℕ)
    → Agrees l r w (suc rd) ww
    → AgreesAt r w rd ww (act (wake status) l waits_read)
unfolding act rdlock_woken
wake_reader-Agrees zero _ _ _ _ _ (shared r (suc rd) ww) = shared (suc r) rd ww
wake_reader-Agrees zero _ _ _ _ _ (exclusive (suc rd) ww) = exclusive (suc rd) ww
wake_reader-Agrees (suc n) _ _ _ _ _ (shared r (suc rd) ww) = shared r rd ww
wake_reader-Agrees (suc n) _ _ _ _ _ (exclusive (suc rd) ww) = exclusive rd ww

wake_writer-Agrees :
    (status : ℕ) (l : RwLock) (r w rd ww : ℕ)
    → Agrees l r w rd (suc ww)
    → AgreesAt r w rd ww (act (wake status) l waits_write)
unfolding act wrlock_woken
wake_writer-Agrees zero _ _ _ _ _ (shared zero rd (suc ww)) = exclusive rd ww
wake_writer-Agrees zero _ _ _ _ _ (shared (suc r) rd (suc ww)) = shared (suc r) rd (suc ww)
wake_writer-Agrees zero _ _ _ _ _ (exclusive rd (suc ww)) = exclusive rd (suc ww)
wake_writer-Agrees (suc n) _ _ _ _ _ (shared r rd (suc ww)) = shared r rd ww
wake_writer-Agrees (suc n) _ _ _ _ _ (exclusive rd (suc ww)) = exclusive rd ww

readcleanup-Agrees :
    (l : RwLock) (r w rd ww : ℕ)
    → Agrees l r w (suc rd) ww
    → AgreesAt r w rd ww (act cancel l waits_read)
unfolding act rwl_readcleanup
readcleanup-Agrees _ _ _ _ _ (shared r (suc rd) ww) = shared r rd ww
readcleanup-Agrees _ _ _ _ _ (exclusive (suc rd) ww) = exclusive rd ww

writecleanup-Agrees :
    (l : RwLock) (r w rd ww : ℕ)
    → Agrees l r w rd (suc ww)
    → AgreesAt r w rd ww (act cancel l waits_write)
unfolding act rwl_writecleanup
writecleanup-Agrees _ _ _ _ _ (shared r rd (suc ww)) = shared r rd ww
writecleanup-Agrees _ _ _ _ _ (exclusive rd (suc ww)) = exclusive rd ww

-- What one thread does keeps the counters right, whatever the other threads are doing.
pub act-Agrees :
    (a : Action) (t : Thread) (l : RwLock) (r w rd ww : ℕ)
    → AgreesAt r w rd ww (l, t)
    → AgreesAt r w rd ww (act a l t)
act-Agrees rdlock idle l r w rd ww h = rdlock-Agrees l r w rd ww h
act-Agrees tryrdlock idle l r w rd ww h = tryrdlock-Agrees l r w rd ww h
act-Agrees wrlock idle l r w rd ww h = wrlock-Agrees l r w rd ww h
act-Agrees trywrlock idle l r w rd ww h = trywrlock-Agrees l r w rd ww h
act-Agrees unlock reading l r w rd ww h = rdunlock-Agrees l r w rd ww h
act-Agrees unlock writing l r w rd ww h = wrunlock-Agrees l r w rd ww h
act-Agrees (wake status) waits_read l r w rd ww h = wake_reader-Agrees status l r w rd ww h
act-Agrees (wake status) waits_write l r w rd ww h = wake_writer-Agrees status l r w rd ww h
act-Agrees cancel waits_read l r w rd ww h = readcleanup-Agrees l r w rd ww h
act-Agrees cancel waits_write l r w rd ww h = writecleanup-Agrees l r w rd ww h
act-Agrees _ _ l r w rd ww h = unfold act in h
