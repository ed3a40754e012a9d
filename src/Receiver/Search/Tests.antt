-- ===== src/Receiver/Search/Tests.antt =====
-- The theorems on the search at concrete inputs.
use edysquelch.Prelude.{
  ℕ, ◌≤◌, ◌≡◌, refl, ◌⊎◌, none, some, List, [], ◌∷◌, ◌++◌, arith, ltb, if◌then◌else◌, get_elem?,
  All, pos, ◌-ℤ◌, codes, done,
}
use edysquelch.Fingerpori.{Samples, Fingerprint}
use edysquelch.Receiver.Match.{ulong_max, match_loop, match_single}
use edysquelch.Receiver.Match.Sum.{term_sum, match_single-term_sum}
use edysquelch.Receiver.Search.{
  Around, giveup_of, match_at, scan_loop, MatchEntry, Search, search_start, quality, search_loop,
  MatchNote, match_note, search_fingerprints,
}
use edysquelch.Receiver.Search.Offsets.{Closest, quality-Closest}
use edysquelch.Receiver.Search.Best.{qualities, matching}
use edysquelch.Receiver.Search.Reports.{search_fingerprints-best, search_fingerprints-sixth}
use edysquelch.Receiver.Search.Exact.{search_fingerprints-exact}

-- One sample of 100, and one of a given value.
abbrev level : Samples
level i = pos 100

abbrev fp_of : ℕ → Fingerprint
fp_of v = record {
  name = codes "fp.raw";
  samples = λ i. pos v;
  len = 1;
  ampl_avg = v;
  ampl_max = v;
}

abbrev signal : Around
signal i = pos 100

abbrev entry_of : ℕ → ℕ → MatchEntry
entry_of v dif = record { dif = dif; x_ofs = pos 0; fp = fp_of v }

match_single_example : match_single (λ i. pos 40) level 3 1000 ≡ (
    if ltb 1000 (term_sum (λ i. pos 40) level 3 0)
    then ulong_max
    else term_sum (λ i. pos 40) level 3 0)
match_single_example =
    match_single-term_sum (λ i. pos 40) level 3 1000 (λ j. omega arith) (λ j. omega arith)
      (omega arith)

quality_example :
    (m : MatchEntry) × (quality (fp_of 40) signal 3 (pos 0) ≡ done m)
    × (m.fp ≡ fp_of 40)
    × Closest (fp_of 40) signal 3 m
quality_example =
    quality-Closest (fp_of 40) signal 3 (pos 0) (omega arith, omega arith, λ j. omega arith)
      (omega arith) (λ i. omega arith)

two-qualities :
    qualities (fp_of 40 ∷ fp_of 100 ∷ []) signal 3 (pos 0)
    ≡ done (entry_of 40 140 ∷ entry_of 100 0 ∷ [])
unfolding qualities quality scan_loop match_at giveup_of match_single match_loop ◌-ℤ◌
two-qualities = refl

search_best_example :
    ((matching (entry_of 40 140 ∷ entry_of 100 0 ∷ []) ≡ [])
      × (search_fingerprints (fp_of 40 ∷ fp_of 100 ∷ []) signal 3 (pos 9) (pos 0) ≡ done none))
    ⊎ ((i : ℕ) × (m : MatchEntry) × (get_elem? (matching (entry_of 40 140 ∷ entry_of 100 0 ∷ [])) i
          ≡ some m)
        × (search_fingerprints (fp_of 40 ∷ fp_of 100 ∷ []) signal 3 (pos 9) (pos 0)
            ≡ done (some (match_note m (pos 9))))
        × All (λ e. m.dif ≤ e.dif) (matching (entry_of 40 140 ∷ entry_of 100 0 ∷ [])))
search_best_example =
    search_fingerprints-best (fp_of 40 ∷ fp_of 100 ∷ []) signal 3 (pos 9) (pos 0) two-qualities
      (unfold matching in omega arith)

abbrev six : List Fingerprint
six = fp_of 40 ∷ fp_of 40 ∷ fp_of 40 ∷ fp_of 40 ∷ fp_of 40 ∷ fp_of 100 ∷ []

abbrev five_entries : List MatchEntry
five_entries =
    entry_of 40 140 ∷ entry_of 40 140 ∷ entry_of 40 140 ∷ entry_of 40 140 ∷ entry_of 40 140 ∷ []

six-qualities : qualities six signal 3 (pos 0) ≡ done (five_entries ++ (entry_of 100 0 ∷ []))
unfolding qualities quality scan_loop match_at giveup_of match_single match_loop ◌-ℤ◌
six-qualities = refl

search_sixth_example :
    (s : Search) × (search_loop six signal 3 (pos 0) search_start ≡ done s)
    × (s.stray ≡ 1)
    × (search_fingerprints six signal 3 (pos 9) (pos 0) ≡ done none)
search_sixth_example =
    search_fingerprints-sixth six signal 3 (pos 9) (pos 0) five_entries [] (entry_of 100 0)
      six-qualities (unfold matching in refl) refl
      (omega arith, (omega arith, (omega arith, (omega arith, (omega arith, tt)))))

search_exact_example :
    (note : MatchNote) × (search_fingerprints (fp_of 40 ∷ fp_of 100 ∷ []) signal 3 (pos 9) (pos 0)
      ≡ done (some note))
    × (note.q ≡ 0)
search_exact_example =
    search_fingerprints-exact (fp_of 40 ∷ fp_of 100 ∷ []) signal 3 (pos 9) (pos 0) 1 2
      (
        (omega arith, omega arith, λ j. omega arith),
        ((omega arith, omega arith, λ j. omega arith), tt),
      )
      (λ j. omega arith) refl (omega arith) (λ j l. refl) two-qualities
      (unfold matching in omega arith)
