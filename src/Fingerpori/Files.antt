-- ===== src/Fingerpori/Files.antt =====
-- Which files src/fingerpori.c takes for fingerprints, and what loading them gives.
use edysquelch.Prelude.{
  ℕ, ◌-◌, ◌/◌, ◌<◌, ◌≡◌, refl, ◌≢◌, ◌⊎◌, true, false, some, List, [], ◌∷◌, ◌++◌, arith, pos, negsuc,
  Bytes, codes, has_prefix, strstr, zero, suc, sym, ap, ◌∙◌, inl, inr, Bool, if◌then◌else◌,
  Bool-cases, Option-cases, length, get_or-elem, ℤ, has_prefix-eq, strstr-some, ◌==◌, pos_part,
  none, Option,
}
use edysquelch.Fingerpori.Average.{average_at, sample_filter_avg_lem}
use edysquelch.Fingerpori.{
  filter_avg_len, Fingerprint, fingerprint_filematch, FileView, returned, division_by_zero,
  fingerprint_load, Samples, sample_filter_avg, sample_amplitude_sum, sample_amplitude_max,
  LoadResult, filtered_block, finish_load, contains, load_content, load_names, fingerprints_load,
}

-- No byte of the text is a dot.
abbrev pub NoDot : Bytes → Type 0
NoDot [] = Unit
NoDot (c ∷ s) = (c ≢ b'.') × NoDot s

abbrev raw : Bytes
raw = codes ".raw"

strstr-raw : (stem : Bytes) → NoDot stem → strstr (stem ++ raw) raw ≡ some raw
unfolding strstr has_prefix
strstr-raw [] h = refl
strstr-raw (c ∷ s) (ne, h) = ground (arith, strstr-raw s h)

-- The stem of a name that passes.
stem_of :
    (name stem : Bytes)
    → name ≡ stem ++ raw
    → fingerprint_filematch name ≡ true
    → (c : ℕ) × (rest : Bytes) × (name ≡ (c ∷ rest) ++ raw) × (c ≢ b'.')
unfolding fingerprint_filematch
stem_of name [] e h = absurd (ground arith)
stem_of name (c ∷ rest) e h = (c, rest, e, ground arith)

filematch-stem :
    (name : Bytes)
    → fingerprint_filematch name ≡ true
    → (c : ℕ) × (stem : Bytes) × (name ≡ (c ∷ stem) ++ raw) × (c ≢ b'.')
filematch-stem name h = elim (Option-cases (strstr name raw)) [
  | inl e ↦ absurd (unfold fingerprint_filematch in ground arith)
  | inr (t, e) ↦
      let (stem, split, begins) = strstr-some name raw e in
      let four : length t ≡ length raw = unfold fingerprint_filematch in ground arith in
      stem_of name stem (split ∙ ap (◌++◌ stem) (has_prefix-eq raw t begins four)) h
]

-- A name passes only if it is a stem with ".raw" behind it and does not begin with a dot; and
-- every name that is a stem with no dot, not empty, with ".raw" behind it passes.
pub fingerprint_filematch_lem :
    (name : Bytes)
    → (fingerprint_filematch name ≡ true
        → (c : ℕ) × (stem : Bytes) × (name ≡ (c ∷ stem) ++ raw) × (c ≢ b'.'))
      × ((c : ℕ) (stem : Bytes)
          → NoDot (c ∷ stem)
          → fingerprint_filematch ((c ∷ stem) ++ raw) ≡ true)
unfolding fingerprint_filematch
fingerprint_filematch_lem name = (
  filematch-stem name,
  λ c stem h. rw (strstr-raw (c ∷ stem) h, fingerprint_filematch) (ground arith),
)

-- A failed open, a failed stat, a failed read or a short read returns -1 and leaves the list as it
-- was.
pub fingerprint_load-fails :
    (d f : Bytes) (v : FileView) (fps : List Fingerprint)
    → (v.opened ≡ false) ⊎ (v.stat_done ≡ false) ⊎ (v.nread ≢ pos v.size)
    → fingerprint_load d f v fps ≡ returned (negsuc 0) fps
unfolding fingerprint_load
fingerprint_load-fails d f v fps h = ground arith

-- Whether the path asks for the average.
abbrev pub is_unfiltered : Bytes → Bytes → Bool
is_unfiltered d f = contains (d ++ (b'/' ∷ f)) (codes "unfiltered")

-- The samples that a complete read gives, and how many.
abbrev pub loaded_len : Bytes → Bytes → FileView → ℕ
loaded_len d f v = if is_unfiltered d f then v.size / 2 - filter_avg_len else v.size / 2

abbrev pub loaded_at : Bytes → Bytes → FileView → ℕ → ℤ
loaded_at d f v i = if is_unfiltered d f then average_at v.content i else v.content i

-- The entry in front of the list after a load.
pub record Loaded (d f : Bytes) (v : FileView) (fps : List Fingerprint) (r : LoadResult)
    : Type 0 where
  pub entry : Fingerprint
  pub result : r ≡ returned (pos 0) (entry ∷ fps)
  pub name_is : entry.name ≡ f
  pub len_is : entry.len ≡ loaded_len d f v
  pub len_pos : 0 < entry.len
  pub samples_are : (i : ℕ) → i < entry.len → entry.samples i ≡ loaded_at d f v i

finish_load_lem :
    (d f : Bytes) (v : FileView) (samples : Samples) (len : ℕ) (fps : List Fingerprint)
    → len ≡ loaded_len d f v
    → ((i : ℕ) → i < len → samples i ≡ loaded_at d f v i)
    → ((loaded_len d f v ≡ 0) × (finish_load f v samples len fps ≡ division_by_zero))
      ⊎ Loaded d f v fps (finish_load f v samples len fps)
unfolding finish_load
finish_load_lem d f v samples zero fps e same = inl (sym e, refl)
finish_load_lem d f v samples (suc n) fps e same = inr (record {
  entry = record {
    name = f;
    samples = samples;
    len = suc n;
    ampl_avg = sample_amplitude_sum v.sum_garbage samples (suc n) / suc n;
    ampl_max = sample_amplitude_max samples (suc n);
  };
  result = ground arith;
  name_is = refl;
  len_is = e;
  len_pos = omega arith;
  samples_are = same;
})

filtered_block_lem :
    (v : FileView) (n i : ℕ)
    → i < n - filter_avg_len
    → filtered_block v (sample_filter_avg v.content n).0 i ≡ average_at v.content i
unfolding filtered_block
filtered_block_lem v n i h =
    let (returns, len, each) = sample_filter_avg_lem v.content n in
    get_or-elem _ i (pos 0) (average_at v.content i) (each i h) (v.tp_garbage i)

fingerprint_load-content :
    (d f : Bytes) (v : FileView) (fps : List Fingerprint)
    → v.opened ≡ true
    → v.stat_done ≡ true
    → v.nread ≡ pos v.size
    → fingerprint_load d f v fps ≡ load_content (d ++ (b'/' ∷ f)) f v v.size fps
unfolding fingerprint_load
fingerprint_load-content d f v fps o s r = ground arith

load_content-filtered :
    (d f : Bytes) (v : FileView) (fps : List Fingerprint)
    → is_unfiltered d f ≡ true
    → load_content (d ++ (b'/' ∷ f)) f v v.size fps
      ≡ finish_load f v
          (filtered_block v (sample_filter_avg v.content (v.size / 2)).0)
          (sample_filter_avg v.content (v.size / 2)).1
          fps
unfolding load_content
load_content-filtered d f v fps e = rw e

load_content-plain :
    (d f : Bytes) (v : FileView) (fps : List Fingerprint)
    → is_unfiltered d f ≡ false
    → load_content (d ++ (b'/' ∷ f)) f v v.size fps ≡ finish_load f v v.content (v.size / 2) fps
unfolding load_content
load_content-plain d f v fps e = rw e

load_content_lem :
    (d f : Bytes) (v : FileView) (fps : List Fingerprint)
    → ((loaded_len d f v ≡ 0) × (load_content (d ++ (b'/' ∷ f)) f v v.size fps ≡ division_by_zero))
      ⊎ Loaded d f v fps (load_content (d ++ (b'/' ∷ f)) f v v.size fps)
load_content_lem d f v fps = elim (Bool-cases (is_unfiltered d f)) [
  | inl e ↦
      let filtered = sample_filter_avg v.content (v.size / 2) in
      let counted = (sample_filter_avg_lem v.content (v.size / 2)).0 in
      rw (load_content-filtered d f v fps e) (
        finish_load_lem d f v (filtered_block v filtered.0) filtered.1 fps (rw e counted)
          (λ i h. rw e (filtered_block_lem v (v.size / 2) i (rw counted at h))))
  | inr e ↦
      rw (load_content-plain d f v fps e)
        (finish_load_lem d f v v.content (v.size / 2) fps (rw e refl) (λ i h. rw e refl))
]

-- A file that is read whole is put in front of the list under its name, with half as many samples
-- as it has bytes, the file's own; for a path with "unfiltered" they are the averages, 24 fewer.
-- If that leaves no sample, the program divides by zero instead.
pub fingerprint_load_complete :
    (d f : Bytes) (v : FileView) (fps : List Fingerprint)
    → v.opened ≡ true
    → v.stat_done ≡ true
    → v.nread ≡ pos v.size
    → ((loaded_len d f v ≡ 0) × (fingerprint_load d f v fps ≡ division_by_zero))
      ⊎ Loaded d f v fps (fingerprint_load d f v fps)
fingerprint_load_complete d f v fps o s r =
    rw (fingerprint_load-content d f v fps o s r) (load_content_lem d f v fps)

abbrev pub IsUnread : FileView → Type 0
IsUnread v = (v.opened ≡ false) ⊎ (v.stat_done ≡ false) ⊎ (v.nread ≢ pos v.size)

abbrev pub IsWhole : FileView → Type 0
IsWhole v = (v.opened ≡ true) × (v.stat_done ≡ true) × (v.nread ≡ pos v.size)

int_cases : (z : ℤ) (n : ℕ) → (z ≢ pos n) ⊎ (z ≡ pos n)
int_cases (negsuc m) n = inl (λ e. cc)
int_cases (pos m) n = elim (Bool-cases (m == n)) [
  | inl same ↦ inr (ap pos (ground arith))
  | inr other ↦ inl (λ e. let m_is : m ≡ n = ap pos_part e in ground arith)
]

reads_cases : (v : FileView) → IsUnread v ⊎ IsWhole v
reads_cases v = elim (Bool-cases v.opened) [
  | inr closed ↦ inl (inl closed)
  | inl opens ↦ elim (Bool-cases v.stat_done) [
    | inr no_stat ↦ inl (inr (inl no_stat))
    | inl stats ↦ elim (int_cases v.nread v.size) [
      | inl short ↦ inl (inr (inr short))
      | inr reads ↦ inr (opens, stats, reads)
    ]
  ]
]

-- The entry for a file: its name, the number of its samples and the samples.
abbrev pub IsEntry : Bytes → Bytes → FileView → Fingerprint → Type 0
IsEntry d f v entry =
    (entry.name ≡ f)
    × (entry.len ≡ loaded_len d f v)
    × (0 < entry.len)
    × ((i : ℕ) → i < entry.len → entry.samples i ≡ loaded_at d f v i)

-- The list has an entry for each of the names whose file is read whole, in their order, and `fps`
-- behind them.
abbrev pub LoadedAll :
    Bytes → (Bytes → FileView) → List Fingerprint → List Bytes → List Fingerprint → Type 0
LoadedAll d files fps [] now = now ≡ fps
LoadedAll d files fps (f ∷ fs) now =
    (IsUnread (files f) × LoadedAll d files fps fs now)
    ⊎ (IsWhole (files f)
        × ((entry : Fingerprint) × (later : List Fingerprint) × (now ≡ entry ∷ later)
            × IsEntry d f (files f) entry
            × LoadedAll d files fps fs later))

-- Some file is read whole and leaves no sample.
abbrev pub HasEmpty : Bytes → (Bytes → FileView) → List Bytes → Type 0
HasEmpty d files [] = ⊥
HasEmpty d files (f ∷ fs) =
    (IsWhole (files f) × (loaded_len d f (files f) ≡ 0)) ⊎ HasEmpty d files fs

abbrev pub LoadsAll :
    Bytes → (Bytes → FileView) → List Bytes → List Fingerprint → Option (List Fingerprint) → Type 0
LoadsAll d files names fps r =
    (HasEmpty d files names × (r ≡ none))
    ⊎ ((now : List Fingerprint) × (r ≡ some now) × LoadedAll d files fps names now)

load_names_lem :
    (d : Bytes) (files : Bytes → FileView) (names : List Bytes) (fps : List Fingerprint)
    → LoadsAll d files names fps (load_names d files names fps)
unfolding load_names
load_names_lem d files [] fps = inr (fps, refl, refl)
load_names_lem d files (f ∷ fs) fps = elim (load_names_lem d files fs fps) [
  | inl (empty, stops) ↦ inl (inr empty, rw stops refl)
  | inr (later, e, all) ↦ elim (reads_cases (files f)) [
    | inl unread ↦
        inr
          (later, rw (e, fingerprint_load-fails d f (files f) later unread) refl, inl (unread, all))
    | inr (opens, stats, reads) ↦
        elim (fingerprint_load_complete d f (files f) later opens stats reads) [
          | inl (none_left, divides) ↦
              inl (inl ((opens, stats, reads), none_left), rw (e, divides) refl)
          | inr l ↦ inr (
            l.entry ∷ later,
            rw (e, l.result) refl,
            inr (
              (opens, stats, reads),
              (l.entry, later, refl, (l.name_is, l.len_is, l.len_pos, l.samples_are), all),
            ),
          )
        ]
  ]
]

-- Loading a directory of which scandir gives the sorted names. A file that cannot be opened, that
-- stat() refuses or that is not read whole is skipped. The list gets an entry for each other file, in
-- the sorted order, in front of what it held: with the file's name and its samples, or their
-- averages for a path with "unfiltered". The program divides by zero instead only if some file is
-- read whole and leaves no sample.
pub fingerprints_load-LoadedAll :
    (d : Bytes) (files : Bytes → FileView) (names : List Bytes) (fps : List Fingerprint)
    → (HasEmpty d files names × (fingerprints_load d files (some names) fps ≡ none))
      ⊎ ((now : List Fingerprint) × (fingerprints_load d files (some names) fps ≡ some (now, 0))
          × LoadedAll d files fps names now)
unfolding fingerprints_load
fingerprints_load-LoadedAll d files names fps = elim (load_names_lem d files names fps) [
  | inl (empty, e) ↦ inl (empty, rw (e, fingerprints_load) refl)
  | inr (now, e, all) ↦ inr (now, rw (e, fingerprints_load) refl, all)
]
