-- ===== src/Fingerpori/Lengths.antt =====
-- Every fingerprint that is in the list has a sample.
use mathlib.Core.Option.{some-injective}
use edysquelch.Prelude.{
  ℕ, ◌/◌, ◌<◌, ◌≡◌, inl, inr, some, List, [], ◌∷◌, ◌++◌, arith, ◌==◌, Bool-cases, All, ℤ, pos,
  negsuc, Bytes, codes, ap, subst, Option, none, Option-cases,
}
use edysquelch.Fingerpori.{
  Samples, Fingerprint, FileView, LoadResult, returned, division_by_zero, finish_load, contains,
  load_content, check_read, fingerprint_load, load_names, fingerprints_load,
}

abbrev pub AllHeard : List Fingerprint → Type 0
AllHeard = All (λ fp. 0 < fp.len)

-- A result that keeps the property of the list.
Keeps : LoadResult → Type 0
Keeps (returned ret fps) = AllHeard fps
Keeps division_by_zero = Unit

finish_load-Keeps :
    (name : Bytes) (v : FileView) (samples : Samples) (len : ℕ) (fps : List Fingerprint)
    → AllHeard fps
    → Keeps (finish_load name v samples len fps)
unfolding finish_load Keeps
finish_load-Keeps name v samples len fps h = elim (Bool-cases (len == 0)) [
  | inl empty ↦ rw empty tt
  | inr heard ↦ rw heard (ground arith, h)
]

check_read-Keeps :
    (path name : Bytes) (v : FileView) (nread : ℤ) (fps : List Fingerprint)
    → AllHeard fps
    → Keeps (check_read path name v nread fps)
unfolding check_read load_content Keeps
check_read-Keeps path name v (negsuc k) fps h = h
check_read-Keeps path name v (pos n) fps h = elim (Bool-cases (n == v.size)) [
  | inr differs ↦ rw differs h
  | inl same ↦ elim (Bool-cases (contains path (codes "unfiltered"))) [
    | inl y ↦ rw (same, y) (finish_load-Keeps name v _ _ fps h)
    | inr no_word ↦ rw (same, no_word) (finish_load-Keeps name v v.content (n / 2) fps h)
  ]
]

fingerprint_load-Keeps :
    (d f : Bytes) (v : FileView) (fps : List Fingerprint)
    → AllHeard fps
    → Keeps (fingerprint_load d f v fps)
unfolding fingerprint_load
fingerprint_load-Keeps d f v fps h = elim (Bool-cases v.opened) [
  | inr closed ↦ simp closed (unfold Keeps in h)
  | inl y ↦ elim (Bool-cases v.stat_done) [
    | inr failed ↦ simp (y, failed) (unfold Keeps in h)
    | inl z ↦ simp (y, z) (check_read-Keeps (d ++ (b'/' ∷ f)) f v v.nread fps h)
  ]
]

-- What the loop goes on with after a load.
abbrev after_load : LoadResult → Option (List Fingerprint)
after_load r = elim r [ returned ret now ↦ some now | division_by_zero ↦ none ]

Keeps-after :
    (r : LoadResult) (now : List Fingerprint) → after_load r ≡ some now → Keeps r → AllHeard now
unfolding Keeps
Keeps-after (returned ret fps) now e h = subst AllHeard (some-injective fps now e) h
Keeps-after division_by_zero now e h = absurd (cc)

load_names-AllHeard :
    (d : Bytes) (files : Bytes → FileView) (names : List Bytes) (fps now : List Fingerprint)
    → AllHeard fps
    → load_names d files names fps ≡ some now
    → AllHeard now
unfolding load_names
load_names-AllHeard d files [] fps now h e = subst AllHeard (some-injective fps now e) h
load_names-AllHeard d files (f ∷ fs) fps now h e = elim (Option-cases (load_names d files fs fps)) [
  | inl lost ↦ absurd (let e' = rw lost at e in cc)
  | inr (later, loaded) ↦ Keeps-after (fingerprint_load d f (files f) later) now (rw loaded at e) (
      fingerprint_load-Keeps d f (files f) later
        (load_names-AllHeard d files fs fps later h loaded))
]

-- Whatever the directory and its files hold: if the loading of the fingerprints ends, each of
-- them has a sample.
pub fingerprints_load-AllHeard :
    (d : Bytes) (files : Bytes → FileView) (names : Option (List Bytes)) (now : List Fingerprint)
    (ret : ℕ)
    → fingerprints_load d files names [] ≡ some (now, ret)
    → AllHeard now
unfolding fingerprints_load
fingerprints_load-AllHeard d files none now ret e =
    subst AllHeard (ap (λ p. p.0) (some-injective _ _ e)) tt
fingerprints_load-AllHeard d files (some names) now ret e =
    elim (Option-cases (load_names d files names [])) [
      | inl lost ↦ absurd (let e' = rw (lost, fingerprints_load) at e in cc)
      | inr (later, loaded) ↦
          let e' : some (later, 0) ≡ some (now, ret) = rw (loaded, fingerprints_load) at e in
          subst AllHeard (ap (λ p. p.0) (some-injective _ _ e'))
            (load_names-AllHeard d files names [] later tt loaded)
    ]
