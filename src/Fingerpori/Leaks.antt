-- ===== src/Fingerpori/Leaks.antt =====
-- Every path of fingerprint_load frees what it does not keep.
use edysquelch.Prelude.{
  ℕ, ◌+◌, ◌<◌, ◌≡◌, refl, ap, ◌∙◌, subst, false, some, [], ◌∷◌, ◌++◌, arith, ◌==◌, if◌then◌else◌,
  length, length-append, ℤ, pos, negsuc, Bytes, codes,
}
use edysquelch.Memory.{block, Heap, runs, ◌>>=◌, Allocator, hmalloc, hfree, write_text, hstrdup}
use edysquelch.Memory.Safety.{
  Safe, Safe->>=, points, count, is_static, Exactly, hfree-Exactly, write_text-Safe, hstrdup-Safe,
  hmalloc-Exactly,
}
use edysquelch.Memory.Objects.{Sizes, FingerprintBlocks, fingerprint_alloc}
use edysquelch.Fingerpori.{FileView, contains, load_content, check_read, fingerprint_load}
use edysquelch.Fingerpori.Blocks.{
  free_failed, load_content_heap, check_read_heap, open_heap, fingerprint_load_heap,
}
use edysquelch.Fingerpori.Kept.{
  kept_points, PlainKept, is_loaded, Ended, free_failed-Ended, OpenedAt, filter-Exactly,
  load_content-EndsWell, unless_divides-Opened, test_size, test_calls,
}

module _ (malloc : Allocator) (sizes : Sizes) where
  load_content-Opened :
      (path f : Bytes) (v : FileView) (n : ℕ) (x : FingerprintBlocks) (h : Heap) (rest : ℕ → ℕ)
      → PlainKept (some x)
      → Exactly (λ b. kept_points (some x) b + rest b) h
      → Safe
          (OpenedAt (is_loaded (load_content path f v n [])) rest)
          (load_content_heap malloc sizes path f v n x h)
  unfolding load_content_heap
  load_content-Opened path f v n x h rest plain owns =
      Safe->>= _ _
        (if contains path (codes "unfiltered")
          then (hmalloc malloc v.size h >>= λ r. hfree (block r.0) r.1)
          else runs h)
        _
        (filter-Exactly malloc (contains path (codes "unfiltered")) v.size h
          (λ b. kept_points (some x) b + rest b) owns)
        λ h2 owns2.
          unless_divides-Opened (load_content path f v n []) x h2 rest
            (load_content-EndsWell path f v n) plain owns2

  check_read-Opened :
      (path f : Bytes) (v : FileView) (nread : ℤ) (x : FingerprintBlocks) (h : Heap) (rest : ℕ → ℕ)
      → PlainKept (some x)
      → Exactly (λ b. kept_points (some x) b + rest b) h
      → Safe
          (OpenedAt (is_loaded (check_read path f v nread [])) rest)
          (check_read_heap malloc sizes path f v nread x h)
  unfolding check_read_heap check_read
  check_read-Opened path f v (negsuc k) x h rest plain owns = record {
    plain = plain;
    kept = λ e. refl;
    same = refl;
    owns = owns;
  }
  check_read-Opened path f v (pos n) x h rest plain owns =
      test_size (n == v.size) _ _ x h rest plain owns
        (load_content-Opened path f v n x h rest plain owns)

  open_heap-Opened :
      (d f : Bytes) (v : FileView) (h : Heap) (rest : ℕ → ℕ)
      → Exactly rest h
      → Safe
          (OpenedAt (is_loaded (fingerprint_load d f v [])) rest)
          (open_heap malloc sizes (d ++ (b'/' ∷ f)) f v h)
  unfolding open_heap fingerprint_load fingerprint_alloc
  open_heap-Opened d f v h rest owns = test_calls v.opened v.stat_done _ _ h rest owns (
      Safe->>= _ (λ r. (is_static r.0.fp ≡ false) × Exactly (λ b. points r.0.fp b + rest b) r.1)
        (fingerprint_alloc malloc sizes h) _
        (Safe->>= _ _ (hmalloc malloc sizes.of_fingerprint h) _
          (hmalloc-Exactly malloc sizes.of_fingerprint h)
          λ r given. (refl, λ b. omega (arith, given.0 b, owns b)))
        λ x (plain, first).
          Safe->>= _ _ (hstrdup malloc f x.1) _ (hstrdup-Safe malloc f x.1) λ y named.
            Safe->>= _ _ (hmalloc malloc v.size y.1) _ (hmalloc-Exactly malloc v.size y.1)
              λ z sampled.
                check_read-Opened (d ++ (b'/' ∷ f)) f v v.nread
                  (record x.0 { name = y.0; samples = block z.0 }) z.1 rest (named.0, refl, plain)
                  (λ b. omega (arith, first b, named.1 b, sampled.0 b)))

  path_fits : (d f : Bytes) → length (d ++ (b'/' ∷ f)) < length d + length f + 3
  path_fits d f = omega (arith, length-append d (b'/' ∷ f))

  -- On every path of fingerprint_load, whatever the calls answer: the memory is not corrupted, and
  -- the blocks that are allocated behind it are those from before, and the three of the fingerprint
  -- exactly where it is put to the list, that is where 0 is returned. An allocation that fails, and
  -- the division by the length 0, end the program.
  pub fingerprint_load-Ended :
      (d f : Bytes) (v : FileView) (h : Heap)
      → Safe
          (Ended (is_loaded (fingerprint_load d f v [])) (count h.live))
          (fingerprint_load_heap malloc sizes d f v h)
  unfolding fingerprint_load_heap
  fingerprint_load-Ended d f v h =
      let path = d ++ (b'/' ∷ f) in
      Safe->>= _ _ (hmalloc malloc (length d + length f + 3) h) _
        (hmalloc-Exactly malloc (length d + length f + 3) h)
        λ r given.
          Safe->>= _ _ (write_text r.0 path r.1) _
            (write_text-Safe r.0 path r.1 (omega (arith, given.1, path_fits d f)))
            λ h2 same.
              Safe->>= _ _ (open_heap malloc sizes path f v h2) _
                (open_heap-Opened d f v h2 (λ b. points (block r.0) b + count h.live b)
                  (λ b. ap (λ ps. count ps b) same ∙ given.0 b))
                λ x opened.
                  Safe->>= _ _ (hfree (block r.0) x.1) _
                    (hfree-Exactly (block r.0) x.1 (λ b. kept_points x.0.fp b + count h.live b) refl
                      (λ b. omega (arith, opened.owns b)))
                    λ h4 owns4.
                      subst (λ ok. Safe (Ended ok (count h.live)) (free_failed x.0.fp x.0.ret h4))
                        opened.same
                        (free_failed-Ended x.0.fp x.0.ret h4 (count h.live) opened.plain opened.kept
                          owns4)
