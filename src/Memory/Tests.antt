-- ===== src/Memory/Tests.antt =====
-- The theorems on memory at concrete inputs.
use edysquelch.Prelude.{ℕ, ◌+◌, ◌≡◌, refl, false, Option, none, some, List, [], ◌∷◌, codes}
use edysquelch.Memory.{
  block, Heap, Run, runs, stopped, corrupted, ◌>>=◌, release, Allocator, hmalloc, hfree, write_text,
}
use edysquelch.Memory.Safety.{Safe, count, Exactly}
use edysquelch.Memory.Objects.{
  Sizes, filter_free, free_receiver, free_sound, filter_init_heap, init_receiver_heap, init_sound,
}
use edysquelch.Memory.Balance.{free_sound-Exactly}
use edysquelch.Cfg.{both}

-- Every call gives a new block.
abbrev malloc : Allocator
malloc calls size = some (calls + 1)

abbrev sizes : Sizes
sizes = record { of_filter = 1000; of_receiver = 70000; of_fingerprint = 40 }

abbrev heap : Heap
heap = record { live = 9 ∷ []; size = λ p. 8; text = λ p. []; calls = 20; mem_panic = false }

free_sound_example :
    Safe
      (Exactly (count (9 ∷ [])))
      (init_sound malloc sizes both 1020 heap >>= λ r. free_sound r.0 r.1)
free_sound_example = free_sound-Exactly malloc sizes both 1020 heap

abbrev live_of : Run Heap → Option (List ℕ)
live_of (runs h) = some h.live
live_of (stopped x) = none
live_of corrupted = none

frees_all :
    live_of (init_sound malloc sizes both 1020 heap >>= λ r. free_sound r.0 r.1) ≡ some (9 ∷ [])
unfolding init_sound init_receiver_heap filter_init_heap hmalloc free_sound free_receiver
    filter_free hfree release
frees_all = refl

abbrev given : Run (ℕ × Heap) → Run Heap
given m = m >>= λ r. runs r.1

frees_twice : given (hmalloc malloc 8 heap) >>= hfree (block 21) >>= hfree (block 21) ≡ corrupted
unfolding hmalloc hfree release
frees_twice = refl

writes_too_far : given (hmalloc malloc 2 heap) >>= write_text 21 (codes "ab") ≡ corrupted
unfolding hmalloc write_text
writes_too_far = refl
