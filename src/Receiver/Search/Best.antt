-- ===== src/Receiver/Search/Best.antt =====
-- Which of the matches the search reports, and what it does past the five slots.
use native.Mathlib.Decide.{dec_lt}
use edysquelch.Prelude.{
  ℕ, ◌+◌, ◌-◌, ◌^◌, ◌≤◌, ◌<◌, ◌≡◌, inl, inr, none, some, List, [], ◌∷◌, ◌++◌, arith, ltb,
  if◌then◌else◌, Bool-cases, length, get_elem?, All, ℤ, Outcome, done, ◌>>=◌, ◌∙◌, true, false,
  All-append, All-map, get_elem?-append_left, get_elem?-append_here, >>=-eq-done,
}
use edysquelch.Fingerpori.{Fingerprint}
use edysquelch.Receiver.Search.{
  Around, threshold_weak, toplen, MatchEntry, Search, note_match, quality, is_match, search_loop,
}

-- The entries of all fingerprints, and those of them that match.
unfoldable pub qualities : List Fingerprint → Around → ℕ → ℤ → Outcome (List MatchEntry)
qualities [] samples len garbage = done []
qualities (fp ∷ fps) samples len garbage = do
  m ← quality fp samples len garbage
  ms ← qualities fps samples len garbage
  done (m ∷ ms)

unfoldable pub matching : List MatchEntry → List MatchEntry
matching [] = []
matching (m ∷ ms) = if is_match m then m ∷ matching ms else matching ms

unfoldable pub fold_matches : List MatchEntry → Search → Search
fold_matches [] s = s
fold_matches (m ∷ ms) s = fold_matches ms (note_match m s)

pub qualities-cons :
    (g : Fingerprint) (fps : List Fingerprint) (samples : Around) (len : ℕ) (garbage : ℤ)
    {ms : List MatchEntry}
    → qualities (g ∷ fps) samples len garbage ≡ done ms
    → (m : MatchEntry) × (later : List MatchEntry) × (quality g samples len garbage ≡ done m)
      × (qualities fps samples len garbage ≡ done later)
      × (m ∷ later ≡ ms)
unfolding qualities
qualities-cons g fps samples len garbage h =
    let (m, e, h') = >>=-eq-done (quality g samples len garbage) _ h in
    let (later, e', h'') = >>=-eq-done (qualities fps samples len garbage) _ h' in
    (m, later, e, e', cc)

pub search_loop-fold :
    (fps : List Fingerprint) (samples : Around) (len : ℕ) (garbage : ℤ) (s : Search)
    {ms : List MatchEntry}
    → qualities fps samples len garbage ≡ done ms
    → search_loop fps samples len garbage s ≡ done (fold_matches (matching ms) s)
unfolding search_loop qualities matching fold_matches
search_loop-fold [] samples len garbage s h = ground arith
search_loop-fold (fp ∷ fps) samples len garbage s h =
    let (m, later, e, e', i) = qualities-cons fp fps samples len garbage h in
    let next = λ (t : Search). search_loop-fold fps samples len garbage t e' in
    elim (Bool-cases (is_match m)) [
      | inl y ↦ rw (e, ← i, y) (next (note_match m s))
      | inr n ↦ rw (e, ← i, n) (next s)
    ]

abbrev pub IsMatch : MatchEntry → Type 0
IsMatch m = m.dif < threshold_weak

pub matching-IsMatch : (ms : List MatchEntry) → All IsMatch (matching ms)
unfolding matching
matching-IsMatch [] = tt
matching-IsMatch (m ∷ ms) = elim (Bool-cases (is_match m)) [
  | inl e ↦ rw e (ground arith, matching-IsMatch ms)
  | inr e ↦ rw e (matching-IsMatch ms)
]

-- The best of the filled slots, if there is one; no slot is the worst.
pub record IsBest (s : Search) (i : ℕ) (m : MatchEntry) : Type 0 where
  pub index : s.matches_best ≡ some i
  pub slot : get_elem? s.matches i ≡ some m
  pub dif : s.matches_best_dif ≡ m.dif
  pub small : IsMatch m
  pub least : All (λ e. m.dif ≤ e.dif) s.matches

pub data Inv (s : Search) : Type 0 where
  empty : s.matches ≡ [] → s.matches_best ≡ none → s.matches_best_dif ≡ 2 ^ 32 - 1 → Inv s
  best : (i : ℕ) (m : MatchEntry) → IsBest s i m → Inv s

-- What a step does to the slots, the worst index and the stray stores, below and at five.
pub note_match-room :
    (m : MatchEntry) (s : Search)
    → IsMatch m
    → s.matches_worst ≡ none
    → length s.matches < toplen
    → ((note_match m s).matches ≡ s.matches ++ (m ∷ []))
      × ((note_match m s).matches_worst ≡ none)
      × ((note_match m s).stray ≡ s.stray)
      × ((note_match m s).matches_best
          ≡ (if ltb m.dif s.matches_best_dif then some (length s.matches) else s.matches_best))
      × ((note_match m s).matches_best_dif
          ≡ (if ltb m.dif s.matches_best_dif then m.dif else s.matches_best_dif))
unfolding note_match
note_match-room m s h w l = ground arith

pub note_match-full :
    (m : MatchEntry) (s : Search)
    → IsMatch m
    → s.matches_worst ≡ none
    → toplen ≤ length s.matches
    → ((note_match m s).matches ≡ s.matches)
      × ((note_match m s).matches_worst ≡ none)
      × ((note_match m s).stray ≡ s.stray + 1)
      × ((note_match m s).matches_best
          ≡ (if ltb m.dif s.matches_best_dif then none else s.matches_best))
      × ((note_match m s).matches_best_dif
          ≡ (if ltb m.dif s.matches_best_dif then m.dif else s.matches_best_dif))
unfolding note_match
note_match-full m s h w l = ground arith

-- Below five slots the step keeps the best of the slots.
IsBest-new :
    (m : MatchEntry) (s : Search)
    → IsMatch m
    → s.matches_worst ≡ none
    → length s.matches < toplen
    → m.dif < s.matches_best_dif
    → All (λ e. m.dif ≤ e.dif) s.matches
    → IsBest (note_match m s) (length s.matches) m
IsBest-new m s h w l better all =
    let (ms, _, _, b, d) = note_match-room m s h w l in
    let y : ltb m.dif s.matches_best_dif ≡ true = ground arith in
    record {
      index = rw y at b;
      slot = rw ms (get_elem?-append_here s.matches m);
      dif = rw y at d;
      small = h;
      least = rw ms (All-append _ s.matches (m ∷ []) all (omega arith, tt));
    }

IsBest-old :
    (m : MatchEntry) (s : Search) (i : ℕ) (b : MatchEntry)
    → IsMatch m
    → s.matches_worst ≡ none
    → length s.matches < toplen
    → s.matches_best_dif ≤ m.dif
    → IsBest s i b
    → IsBest (note_match m s) i b
IsBest-old m s i b h w l worse was =
    let (ms, _, _, bi, bd) = note_match-room m s h w l in
    let n : ltb m.dif s.matches_best_dif ≡ false = ground arith in
    record {
      index = (rw n at bi) ∙ was.index;
      slot = rw ms (get_elem?-append_left s.matches (m ∷ []) i was.slot);
      dif = (rw n at bd) ∙ was.dif;
      small = was.small;
      least = rw ms (All-append _ s.matches (m ∷ []) was.least (omega (arith, was.dif), tt));
    }

pub note_match-Inv :
    (m : MatchEntry) (s : Search)
    → IsMatch m
    → s.matches_worst ≡ none
    → length s.matches < toplen
    → Inv s
    → Inv (note_match m s)
note_match-Inv m s h w l (empty none_yet b d) =
    best (length s.matches) m (IsBest-new m s h w l (omega arith) (rw none_yet tt))
note_match-Inv m s h w l (best i b is_best) = elim (dec_lt m.dif s.matches_best_dif) [
  | yes better ↦ best (length s.matches) m (
      IsBest-new m s h w l better
        (All-map _ _ s.matches (λ e le. omega (arith, is_best.dif)) is_best.least))
  | no worse ↦ best i b (IsBest-old m s i b h w l (omega arith) is_best)
]
