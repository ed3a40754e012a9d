-- ===== src/Fingerpori.antt =====
-- src/fingerpori.c: the moving average, the amplitude measures and the loading of fingerprints.
pub mod Average
pub mod Amplitude
pub mod Files
pub mod Lengths
pub mod Blocks
pub mod Kept
pub mod Leaks
mod Tests
use edysquelch.Prelude.{
  ℕ, zero, suc, ◌+◌, ◌-◌, ◌/◌, ◌%◌, ◌^◌, max, Bool, true, false, not, List, [], ◌∷◌, ◌++◌, Option,
  none, some, ltb, ◌==◌, if◌then◌else◌, get_or, length, ℤ, pos, negsuc, abs, ◌+ℤ◌, div_ℤ, Bytes,
  codes, strstr,
}

-- What an `int16_t *` shows: the sample at each index, the ones past the block included.
abbrev pub Samples : Type 0
Samples = ℕ → ℤ

abbrev pub filter_avg_len : ℕ
filter_avg_len = 24

-- The inner loop, with the rounds left: sum += src[d].
unfoldable pub sum_loop : Samples → ℕ → ℕ → ℤ → ℤ
sum_loop src zero d sum = sum
sum_loop src (suc n) d sum = sum_loop src n (d + 1) (sum +ℤ src d)

-- The outer loop from `i` on: the values written to dst[i - 24], dst[i - 23] and so on.
unfoldable pub average_loop : Samples → ℕ → ℕ → List ℤ
unfolding sum_loop
average_loop src zero i = []
average_loop src (suc n) i =
    div_ℤ (sum_loop src filter_avg_len (i - filter_avg_len + 1) (pos 0)) filter_avg_len
    ∷ average_loop src n (i + 1)

-- The written samples, and the number returned: i ends as the larger of 24 and `len`.
unfoldable pub sample_filter_avg : Samples → ℕ → List ℤ × ℕ
unfolding average_loop
sample_filter_avg src len = (
  average_loop src (len - filter_avg_len) filter_avg_len,
  max filter_avg_len len - filter_avg_len,
)

-- The loop of sample_amplitude_sum: each round adds abs(src[len]) to an unsigned long.
unfoldable pub amplitude_sum_loop : Samples → ℕ → ℕ → ℕ → ℕ
amplitude_sum_loop src len zero sum = sum
amplitude_sum_loop src len (suc n) sum =
    amplitude_sum_loop src len n ((sum + abs (src len)) % 2 ^ 64)

-- `sum` is not initialised: its first value is the argument `garbage`.
unfoldable pub sample_amplitude_sum : ℕ → Samples → ℕ → ℕ
unfolding amplitude_sum_loop
sample_amplitude_sum garbage src len = amplitude_sum_loop src len len garbage

unfoldable pub amplitude_max_loop : Samples → ℕ → ℕ → ℕ → ℕ
amplitude_max_loop src len zero peak = peak
amplitude_max_loop src len (suc n) peak =
    amplitude_max_loop src len n (if ltb peak (abs (src len)) then abs (src len) else peak)

unfoldable pub sample_amplitude_max : Samples → ℕ → ℕ
unfolding amplitude_max_loop
sample_amplitude_max src len = amplitude_max_loop src len len 0

-- struct fingerprint_t; the list `fingerprints` stands for the chain of `next` pointers.
pub record Fingerprint : Type 0 where
  pub name : Bytes
  pub samples : Samples
  pub len : ℕ
  pub ampl_avg : ℕ
  pub ampl_max : ℕ

starts_with_dot : Bytes → Bool
starts_with_dot [] = false
starts_with_dot (c ∷ s) = c == b'.'

-- The file name passes if it does not begin with a dot and its first ".raw" is its end.
unfoldable pub fingerprint_filematch : Bytes → Bool
unfolding starts_with_dot strstr
fingerprint_filematch name =
    if starts_with_dot name
    then false
    else elim (strstr name (codes ".raw")) [ none ↦ false | some s ↦ length s == 4 ]

-- What the system calls give for one file: `open` and `fstat` may fail, `read` returns a count or
-- a negative number, and `content` is the data read, as samples. The last two fields are what
-- memory that the code reads uninitialised happens to hold.
pub record FileView : Type 0 where
  pub opened : Bool
  pub stat_done : Bool
  pub size : ℕ
  pub nread : ℤ
  pub content : Samples
  pub sum_garbage : ℕ
  pub tp_garbage : Samples

-- A load ends with its return value and the list, or the division by the length 0 stops the
-- program.
pub data LoadResult : Type 0 where
  returned : ℤ → List Fingerprint → LoadResult
  division_by_zero : LoadResult

-- The samples after `memcpy` of the filtered block: past the filtered ones it is not initialised.
unfoldable pub filtered_block : FileView → List ℤ → Samples
filtered_block v out i = if ltb i (length out) then get_or out i (pos 0) else v.tp_garbage i

unfoldable pub finish_load : Bytes → FileView → Samples → ℕ → List Fingerprint → LoadResult
finish_load name v samples len fps =
    if len == 0
    then division_by_zero
    else returned (pos 0) (
        record {
          name = name;
          samples = samples;
          len = len;
          ampl_avg = sample_amplitude_sum v.sum_garbage samples len / len;
          ampl_max = sample_amplitude_max samples len;
        }
        ∷ fps)

unfoldable pub contains : Bytes → Bytes → Bool
contains s needle = elim (strstr s needle) [ none ↦ false | some _ ↦ true ]

-- The branch after a complete read of `n` bytes; `path` is the name that is searched for
-- "unfiltered".
unfoldable pub load_content : Bytes → Bytes → FileView → ℕ → List Fingerprint → LoadResult
unfolding filtered_block finish_load
load_content path name v n fps =
    let filtered = sample_filter_avg v.content (n / 2) in
    if contains path (codes "unfiltered")
    then finish_load name v (filtered_block v filtered.0) filtered.1 fps
    else finish_load name v v.content (n / 2) fps

-- nread < 0, a short read, and a complete one.
unfoldable pub check_read : Bytes → Bytes → FileView → ℤ → List Fingerprint → LoadResult
check_read path name v (negsuc k) fps = returned (negsuc 0) fps
check_read path name v (pos n) fps =
    if not (n == v.size) then returned (negsuc 0) fps else load_content path name v n fps

unfoldable pub fingerprint_load : Bytes → Bytes → FileView → List Fingerprint → LoadResult
unfolding check_read
fingerprint_load d f v fps =
    if not v.opened
    then returned (negsuc 0) fps
    else if not v.stat_done
    then returned (negsuc 0) fps
    else check_read (d ++ (b'/' ∷ f)) f v v.nread fps

-- The loop `while (n--)` over the sorted names: the last one is loaded first. The return value of
-- each load is ignored; a division by zero ends the program.
unfoldable pub load_names :
    Bytes → (Bytes → FileView) → List Bytes → List Fingerprint → Option (List Fingerprint)
load_names d files [] fps = some fps
load_names d files (f ∷ fs) fps = elim (load_names d files fs fps) [
  | none ↦ none
  | some later ↦ elim (fingerprint_load d f (files f) later) [
    | returned ret now ↦ some now
    | division_by_zero ↦ none
  ]
]

-- `names` is what scandir gives, sorted by alphasort, or `none` where it fails. The second part is
-- the return value, which is 0 always.
unfoldable pub fingerprints_load :
    Bytes
    → (Bytes → FileView)
    → Option (List Bytes)
    → List Fingerprint
    → Option (List Fingerprint × ℕ)
unfolding load_names
fingerprints_load d files none fps = some (fps, 0)
fingerprints_load d files (some names) fps = elim (load_names d files names fps) [
  | none ↦ none
  | some now ↦ some (now, 0)
]
