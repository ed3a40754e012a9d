-- ===== src/Fingerpori/Tests.antt =====
-- Runs of the fingerprint loader, and the theorems at concrete inputs.
use edysquelch.Prelude.{
  ℕ, ◌<◌, ◌≡◌, refl, ◌⊎◌, true, false, Option, none, some, List, [], ◌∷◌, map, arith, length,
  get_elem?, pos, ◌+ℤ◌, div_ℤ, Bytes, codes, has_prefix, strstr, ◌==◌, if◌then◌else◌, get_or,
}
use edysquelch.Fingerpori.{
  Samples, sum_loop, average_loop, sample_filter_avg, sample_amplitude_sum, sample_amplitude_max,
  Fingerprint, fingerprint_filematch, FileView, division_by_zero, finish_load, contains,
  load_content, fingerprint_load, fingerprints_load, check_read, load_names,
}
use edysquelch.Memory.{
  Heap, Run, runs, stopped, corrupted, release, Allocator, hmalloc, hfree, write_text, hstrdup,
}
use edysquelch.Memory.Safety.{Safe, count}
use edysquelch.Memory.Objects.{Sizes, FingerprintBlocks, fingerprint_free, fingerprint_alloc}
use edysquelch.Fingerpori.Blocks.{
  load_content_heap, check_read_heap, open_heap, fingerprint_load_heap,
}
use edysquelch.Fingerpori.Kept.{is_loaded, Ended}
use edysquelch.Fingerpori.Leaks.{fingerprint_load-Ended}
use edysquelch.Fingerpori.Average.{average_at, sample_filter_avg_lem}
use edysquelch.Fingerpori.Amplitude.{sample_amplitude_lem}
use edysquelch.Fingerpori.Files.{
  loaded_len, Loaded, fingerprint_load_complete, HasEmpty, LoadedAll, fingerprints_load-LoadedAll,
}

-- The samples 0, 1, 2, …
abbrev ramp : Samples
ramp i = pos i

-- 2400 everywhere.
abbrev level : Samples
level i = pos 2400

sample_filter_avg-ramp : sample_filter_avg ramp 26 ≡ (pos 12 ∷ pos 13 ∷ [], 2)
unfolding sample_filter_avg average_loop sum_loop div_ℤ ◌+ℤ◌
sample_filter_avg-ramp = refl

filematch-runs :
    (fingerprint_filematch (codes "tone.raw") ≡ true)
    × (fingerprint_filematch (codes ".tone.raw") ≡ false)
    × (fingerprint_filematch (codes "a.raw.raw") ≡ false)
unfolding fingerprint_filematch strstr has_prefix
filematch-runs = (refl, refl, refl)

abbrev file_of : ℕ → FileView
file_of size = record {
  opened = true;
  stat_done = true;
  size = size;
  nread = pos size;
  content = level;
  sum_garbage = 7;
  tp_garbage = ramp;
}

sample_filter_avg_example :
    ((sample_filter_avg ramp 26).1 ≡ 2)
    × (length (sample_filter_avg ramp 26).0 ≡ 2)
    × ((k : ℕ) → k < 2 → get_elem? (sample_filter_avg ramp 26).0 k ≡ some (average_at ramp k))
sample_filter_avg_example = sample_filter_avg_lem ramp 26

sample_amplitude_example : (sample_amplitude_sum 7 ramp 5 ≡ 32) × (sample_amplitude_max ramp 5 ≡ 5)
sample_amplitude_example = sample_amplitude_lem 7 ramp 5 (omega arith)

-- 60 bytes are 30 samples, and 6 averages of them.
fingerprint_load_complete_example :
    ((loaded_len (codes "unfiltered") (codes "a.raw") (file_of 60) ≡ 0)
      × (fingerprint_load (codes "unfiltered") (codes "a.raw") (file_of 60) [] ≡ division_by_zero))
    ⊎ Loaded
        (codes "unfiltered")
        (codes "a.raw")
        (file_of 60)
        []
        (fingerprint_load (codes "unfiltered") (codes "a.raw") (file_of 60) [])
fingerprint_load_complete_example =
    fingerprint_load_complete (codes "unfiltered") (codes "a.raw") (file_of 60) [] refl refl refl

-- The file b.raw is cut short.
abbrev directory : Bytes → FileView
directory f = if get_or f 0 0 == b'b' then record (file_of 60) { nread = pos 59 } else file_of 60

fingerprints_load_example :
    let names = codes "a.raw" ∷ codes "b.raw" ∷ codes "c.raw" ∷ [] in
    (HasEmpty (codes "fp") directory names
      × (fingerprints_load (codes "fp") directory (some names) [] ≡ none))
    ⊎ ((now : List Fingerprint) × (fingerprints_load (codes "fp") directory (some names) []
          ≡ some (now, 0))
        × LoadedAll (codes "fp") directory [] names now)
fingerprints_load_example =
    fingerprints_load-LoadedAll (codes "fp") directory
      (codes "a.raw" ∷ codes "b.raw" ∷ codes "c.raw" ∷ []) []

abbrev names_of : Option (List Fingerprint × ℕ) → Option (List Bytes)
names_of none = none
names_of (some r) = some (map (λ fp. fp.name) r.0)

fingerprints_load-skips :
    names_of (
      fingerprints_load
        (codes "fp")
        directory
        (some (codes "a.raw" ∷ codes "b.raw" ∷ codes "c.raw" ∷ []))
        [])
    ≡ some (codes "a.raw" ∷ codes "c.raw" ∷ [])
unfolding fingerprints_load load_names fingerprint_load check_read load_content finish_load contains
    strstr has_prefix sample_amplitude_sum
fingerprints_load-skips = refl

abbrev malloc : Allocator
malloc calls size = some calls

abbrev sizes : Sizes
sizes = record { of_filter = 1000; of_receiver = 70000; of_fingerprint = 40 }

abbrev heap : Heap
heap = record { live = []; size = λ p. 0; text = λ p. []; calls = 0; mem_panic = false }

-- A short read, and a whole one that is filtered.
abbrev short_file : FileView
short_file = record (file_of 60) { nread = pos 58 }

load_leaks_example :
    Safe
      (Ended (is_loaded (fingerprint_load (codes "d") (codes "a.raw") short_file [])) (count []))
      (fingerprint_load_heap malloc sizes (codes "d") (codes "a.raw") short_file heap)
load_leaks_example = fingerprint_load-Ended malloc sizes (codes "d") (codes "a.raw") short_file heap

abbrev live_of : Run (Option FingerprintBlocks × Heap) → Option (List ℕ)
live_of (runs r) = some r.1.live
live_of (stopped x) = none
live_of corrupted = none

frees_short :
    live_of (fingerprint_load_heap malloc sizes (codes "d") (codes "a.raw") short_file heap)
    ≡ some []
unfolding fingerprint_load_heap hmalloc write_text open_heap fingerprint_alloc hstrdup
    check_read_heap hfree fingerprint_free release
frees_short = refl

keeps_whole :
    live_of
      (fingerprint_load_heap malloc sizes (codes "d") (codes "a-unfiltered.raw") (file_of 60) heap)
    ≡ some (3 ∷ 2 ∷ 1 ∷ [])
unfolding fingerprint_load_heap hmalloc write_text open_heap fingerprint_alloc hstrdup
    check_read_heap load_content_heap contains strstr has_prefix load_content sample_filter_avg
    average_loop sum_loop finish_load hfree fingerprint_free release
keeps_whole = refl
