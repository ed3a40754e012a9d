-- ===== src/Fingerpori/Blocks.antt =====
-- The memory that fingerprint_load of src/fingerpori.c uses: what is allocated and freed on each path.
use edysquelch.Prelude.{
  ℕ, ◌+◌, Bool, true, false, not, Option, none, some, [], ◌∷◌, ◌++◌, ◌==◌, if◌then◌else◌, length, ℤ,
  pos, negsuc, Bytes, codes, divided_by_zero,
}
use edysquelch.Memory.{
  block, Heap, Run, runs, stopped, ◌>>=◌, Allocator, hmalloc, hfree, write_text, hstrdup,
}
use edysquelch.Memory.Objects.{Sizes, FingerprintBlocks, fingerprint_free, fingerprint_alloc}
use edysquelch.Fingerpori.{FileView, LoadResult, returned, division_by_zero, contains, load_content}

-- `ret` is whether 0 is returned so far, and `fp` may be NULL.
pub record Loading : Type 0 where
  pub fp : Option FingerprintBlocks
  pub ret : Bool

-- if (ret != 0 && fp)
abbrev pub free_failed :
    Option FingerprintBlocks → Bool → Heap → Run (Option FingerprintBlocks × Heap)
free_failed none ret h = runs (none, h)
free_failed (some fp) true h = runs (some fp, h)
free_failed (some fp) false h = fingerprint_free fp h >>= λ h1. runs (none, h1)

abbrev pub unless_divides : LoadResult → FingerprintBlocks → Heap → Run (Loading × Heap)
unless_divides (returned z fps) fp h = runs (record { fp = some fp; ret = true }, h)
unless_divides division_by_zero fp h = stopped divided_by_zero

module _ (malloc : Allocator) (sizes : Sizes) where
  -- The branch after a complete read of `n` bytes.
  unfoldable pub load_content_heap :
      Bytes → Bytes → FileView → ℕ → FingerprintBlocks → Heap → Run (Loading × Heap)
  unfolding hmalloc hfree contains load_content
  load_content_heap path f v n fp h = do
    h2 ←
        if contains path (codes "unfiltered")
        then (hmalloc malloc v.size h >>= λ r. hfree (block r.0) r.1)
        else runs h
    unless_divides (load_content path f v n []) fp h2

  unfoldable pub check_read_heap :
      Bytes → Bytes → FileView → ℤ → FingerprintBlocks → Heap → Run (Loading × Heap)
  unfolding load_content_heap
  check_read_heap path f v (negsuc k) fp h = runs (record { fp = some fp; ret = false }, h)
  check_read_heap path f v (pos n) fp h =
      if not (n == v.size)
      then runs (record { fp = some fp; ret = false }, h)
      else load_content_heap path f v n fp h

  -- Between the opening and the label `end`.
  unfoldable pub open_heap : Bytes → Bytes → FileView → Heap → Run (Loading × Heap)
  unfolding hmalloc hstrdup fingerprint_alloc check_read_heap
  open_heap path f v h =
      if not v.opened
      then runs (record { fp = none; ret = false }, h)
      else if not v.stat_done
      then runs (record { fp = none; ret = false }, h)
      else (do
        (fp, h1) ← fingerprint_alloc malloc sizes h
        (name, h2) ← hstrdup malloc f h1
        (samples, h3) ← hmalloc malloc v.size h2
        check_read_heap path f v v.nread (record fp { name = name; samples = block samples }) h3)

  -- The fingerprint that is put to the list, or NULL where -1 is returned.
  unfoldable pub fingerprint_load_heap :
      Bytes → Bytes → FileView → Heap → Run (Option FingerprintBlocks × Heap)
  unfolding hmalloc write_text hfree open_heap fingerprint_free
  fingerprint_load_heap d f v h = do
    (fn, h1) ← hmalloc malloc (length d + length f + 3) h
    h2 ← write_text fn (d ++ (b'/' ∷ f)) h1
    (loading, h3) ← open_heap (d ++ (b'/' ∷ f)) f v h2
    h4 ← hfree (block fn) h3
    free_failed loading.fp loading.ret h4
