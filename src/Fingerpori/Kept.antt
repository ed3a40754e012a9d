-- ===== src/Fingerpori/Kept.antt =====
-- What a load of a fingerprint keeps allocated.
use edysquelch.Prelude.{
  ℕ, ◌+◌, ◌≡◌, refl, sym, ap, inl, inr, Bool, true, false, not, Option, none, some, [], arith, ◌==◌,
  if◌then◌else◌, Bool-cases, pos, negsuc, is_zero, Bytes, codes,
}
use edysquelch.Memory.{block, Heap, Run, runs, ◌>>=◌, Allocator, hmalloc, hfree}
use edysquelch.Memory.Safety.{
  Safe, Safe->>=, points, is_static, Exactly, hfree-Exactly, hmalloc-Exactly,
}
use edysquelch.Memory.Objects.{FingerprintBlocks, fingerprint_free}
use edysquelch.Fingerpori.{
  Samples, FileView, LoadResult, returned, division_by_zero, finish_load, contains, load_content,
}
use edysquelch.Fingerpori.Blocks.{Loading, free_failed, unless_divides}

abbrev pub kept_points : Option FingerprintBlocks → ℕ → ℕ
kept_points none b = 0
kept_points (some x) b = points x.name b + points x.samples b + points x.fp b

abbrev pub PlainKept : Option FingerprintBlocks → Type 0
PlainKept none = Unit
PlainKept (some x) =
    (is_static x.name ≡ false) × (is_static x.samples ≡ false) × (is_static x.fp ≡ false)

-- The return value 0 is for a fingerprint that is put to the list.
abbrev pub is_loaded : LoadResult → Bool
is_loaded (returned z fps) = is_zero z
is_loaded division_by_zero = false

abbrev pub is_kept : Option FingerprintBlocks → Bool
is_kept none = false
is_kept (some x) = true

fingerprint_free-Exactly :
    (x : FingerprintBlocks) (h : Heap) (rest : ℕ → ℕ)
    → PlainKept (some x)
    → Exactly (λ b. kept_points (some x) b + rest b) h
    → Safe (Exactly rest) (fingerprint_free x h)
unfolding fingerprint_free
fingerprint_free-Exactly x h rest (name, samples, fp) owns =
    let r2 : ℕ → ℕ = λ b. points x.fp b + rest b in
    Safe->>= _ _ (hfree x.name h) _
      (hfree-Exactly x.name h (λ b. points x.samples b + r2 b) name (λ b. omega (arith, owns b)))
      λ h1 owns1.
        Safe->>= _ _ (hfree x.samples h1) _ (hfree-Exactly x.samples h1 r2 samples owns1)
          λ h2 owns2. hfree-Exactly x.fp h2 rest fp owns2

-- What is kept when a load has ended, besides what `rest` counts, and whether it is something.
abbrev pub Ended : Bool → (ℕ → ℕ) → Option FingerprintBlocks × Heap → Type 0
Ended ok rest (x, h) = (is_kept x ≡ ok) × Exactly (λ b. kept_points x b + rest b) h

pub free_failed-Ended :
    (x : Option FingerprintBlocks) (ret : Bool) (h : Heap) (rest : ℕ → ℕ)
    → PlainKept x
    → (ret ≡ true → is_kept x ≡ true)
    → Exactly (λ b. kept_points x b + rest b) h
    → Safe (Ended ret rest) (free_failed x ret h)
free_failed-Ended none true h rest plain some_kept owns = absurd (let e = some_kept refl in cc)
free_failed-Ended none false h rest plain some_kept owns = (refl, owns)
free_failed-Ended (some x) true h rest plain some_kept owns = (refl, owns)
free_failed-Ended (some x) false h rest plain some_kept owns =
    Safe->>= _ _ (fingerprint_free x h) _ (fingerprint_free-Exactly x h rest plain owns)
      λ h1 owns1. (refl, λ b. omega (arith, owns1 b))

-- In front of the label `end`.
pub record Opened (ok : Bool) (rest : ℕ → ℕ) (x : Loading) (h : Heap) : Type 0 where
  pub plain : PlainKept x.fp
  pub kept : x.ret ≡ true → is_kept x.fp ≡ true
  pub same : x.ret ≡ ok
  pub owns : Exactly (λ b. kept_points x.fp b + rest b) h

abbrev pub OpenedAt : Bool → (ℕ → ℕ) → Loading × Heap → Type 0
OpenedAt ok rest r = Opened ok rest r.0 r.1

nothing-Opened :
    {rest : ℕ → ℕ} (h : Heap)
    → Exactly rest h
    → Opened false rest (record { fp = none; ret = false }) h
nothing-Opened h owns = record {
  plain = tt;
  kept = λ e. cc;
  same = refl;
  owns = λ b. omega (arith, owns b);
}

pub filter-Exactly :
    (malloc : Allocator) (wants : Bool) (size : ℕ) (h : Heap) (rest : ℕ → ℕ)
    → Exactly rest h
    → Safe
        (Exactly rest)
        (if wants then (hmalloc malloc size h >>= λ r. hfree (block r.0) r.1) else runs h)
filter-Exactly malloc false size h rest owns = owns
filter-Exactly malloc true size h rest owns =
    Safe->>= _ _ (hmalloc malloc size h) _ (hmalloc-Exactly malloc size h)
      λ r given. hfree-Exactly (block r.0) r.1 rest refl (λ b. omega (arith, given.0 b, owns b))

-- A complete read ends with 0 or in the division.
abbrev pub EndsWell : LoadResult → Type 0
EndsWell (returned z fps) = z ≡ pos 0
EndsWell division_by_zero = Unit

finish_load-EndsWell :
    (f : Bytes) (v : FileView) (samples : Samples) (len : ℕ)
    → EndsWell (finish_load f v samples len [])
unfolding finish_load
finish_load-EndsWell f v samples len = elim (Bool-cases (len == 0)) [
  | inl y ↦ rw (y, EndsWell) tt
  | inr n ↦ rw (n, EndsWell) refl
]

pub load_content-EndsWell :
    (path f : Bytes) (v : FileView) (n : ℕ) → EndsWell (load_content path f v n [])
unfolding load_content
load_content-EndsWell path f v n = elim (Bool-cases (contains path (codes "unfiltered"))) [
  | inl y ↦ rw (y, load_content) (finish_load-EndsWell f v _ _)
  | inr otherwise ↦ rw (otherwise, load_content) (finish_load-EndsWell f v _ _)
]

pub unless_divides-Opened :
    (r : LoadResult) (x : FingerprintBlocks) (h : Heap) (rest : ℕ → ℕ)
    → EndsWell r
    → PlainKept (some x)
    → Exactly (λ b. kept_points (some x) b + rest b) h
    → Safe (OpenedAt (is_loaded r) rest) (unless_divides r x h)
unless_divides-Opened (returned z fps) x h rest zero_ret plain owns = record {
  plain = plain;
  kept = λ e. refl;
  same = sym (ap is_zero zero_ret);
  owns = owns;
}
unless_divides-Opened division_by_zero x h rest ends plain owns = tt

-- The tests of a size and of the calls, on both sides.
pub test_size :
    (fits : Bool) (m : Run (Loading × Heap)) (r : LoadResult) (x : FingerprintBlocks) (h : Heap)
    (rest : ℕ → ℕ)
    → PlainKept (some x)
    → Exactly (λ b. kept_points (some x) b + rest b) h
    → Safe (OpenedAt (is_loaded r) rest) m
    → Safe
        (OpenedAt (is_loaded (if not fits then returned (negsuc 0) [] else r)) rest)
        (if not fits then runs (record { fp = some x; ret = false }, h) else m)
test_size true m r x h rest plain owns later = later
test_size false m r x h rest plain owns later = record {
  plain = plain;
  kept = λ e. refl;
  same = refl;
  owns = owns;
}

pub test_calls :
    (opened stat_done : Bool) (m : Run (Loading × Heap)) (r : LoadResult) (h : Heap) (rest : ℕ → ℕ)
    → Exactly rest h
    → Safe (OpenedAt (is_loaded r) rest) m
    → Safe
        (OpenedAt
          (is_loaded (
            if not opened
            then returned (negsuc 0) []
            else if not stat_done
            then returned (negsuc 0) []
            else r))
          rest)
        (if not opened
          then runs (record { fp = none; ret = false }, h)
          else if not stat_done
          then runs (record { fp = none; ret = false }, h)
          else m)
test_calls false stat_done m r h rest owns later = nothing-Opened h owns
test_calls true false m r h rest owns later = nothing-Opened h owns
test_calls true true m r h rest owns later = later
