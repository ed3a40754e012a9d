-- ===== src/Log/Tests.antt =====
-- Witnesses for the log and the access log.
use edysquelch.Prelude.{
  ◌+◌, ◌≤◌, ◌<◌, ◌≡◌, refl, ◌↔◌, true, false, Option, none, some, [], ◌∷◌, length, take, ◌-◌, pos,
  Bytes, codes, done,
}
use edysquelch.OutJson.{Tm}
use edysquelch.RwLock.{RwLock}
use edysquelch.RwLock.Sections.{lock_of}
use edysquelch.Log.{log_len, in_file, Log, LogEnv, Output, clamped, log_line, str_append, hlog}
use edysquelch.Log.Lines.{GoesTo, in_buffer, told, hlog-told}
use edysquelch.Log.Reopening.{log_of}
use edysquelch.Memory.{
  Pointer, block, Heap, Run, runs, stopped, corrupted, release, hrealloc, write_behind,
}
use edysquelch.Memory.Safety.{Safe, points, Exactly}
use edysquelch.Log.Appending.{str_append_heap, string_at, str_append_heap-str_append}

abbrev noon : Tm
noon = record { tm_year = 112; tm_mon = 5; tm_mday = 21; tm_hour = 12; tm_min = 0; tm_sec = 7 }

abbrev env : LogEnv
env = record { opened = pos 4; close_done = true; tm = noon; usec = 1500; pid = 321; thread = 9 }

abbrev unheld : RwLock
unheld = lock_of false 0 0 0

abbrev filed : Log
filed =
    log_of in_file (pos 6) (codes "/var/log") (some (codes "edysquelch"))
      (some (codes "/var/log/gnuais.log")) (pos 4) unheld

hlog-told_example :
    let line =
      log_line env filed.log_name (clamped (pos 5)) (take (log_len - 1) (codes "Started")) in
    (output : Output) × (hlog env (pos 5) (codes "Started") filed
      ≡ done (filed, output ∷ [], pos 1))
    × GoesTo filed.log_dest filed.log_file output
    × (told output ≡ length line)
    × (in_buffer output ≡ take (log_len - 1) line)
    × ((told output ≤ length (in_buffer output)) ↔ (told output ≤ 8191))
    × (8187 ≤ length (codes "Started") → log_len < told output)
unfolding clamped
hlog-told_example = hlog-told env (pos 5) (codes "Started") filed 4 (0, 0, 0, refl) refl refl refl

abbrev heap : Heap
heap = record { live = 3 ∷ []; size = λ p. 3; text = λ p. codes "ab"; calls = 7; mem_panic = false }

append_example :
    Safe
      (λ r.
        (string_at r.0 r.1 ≡ some (str_append (some (codes "ab")) (codes "cd")))
        × Exactly (λ b. points r.0 b + 0) r.1)
      (str_append_heap (λ calls size. some calls) (block 3) (codes "cd") heap)
append_example =
    str_append_heap-str_append (λ calls size. some calls) (block 3) (codes "cd") heap (λ b. 0) refl
      (λ b. refl)

abbrev string_of : Run (Pointer × Heap) → Option Bytes
string_of (runs r) = string_at r.0 r.1
string_of (stopped x) = none
string_of corrupted = none

appends :
    string_of (str_append_heap (λ calls size. some calls) (block 3) (codes "cd") heap)
    ≡ some (codes "abcd")
unfolding str_append_heap hrealloc release write_behind
appends = refl
