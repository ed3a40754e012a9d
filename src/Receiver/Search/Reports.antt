-- ===== src/Receiver/Search/Reports.antt =====
-- What search_fingerprints reports, for up to five matches and for more.
use mathlib.Core.List.{append-nil, append_assoc}
use edysquelch.Prelude.{
  ℕ, ◌+◌, ◌≤◌, ◌≡◌, refl, sym, ◌∙◌, ◌⊎◌, inl, inr, none, some, List, [], ◌∷◌, ◌++◌, arith, length,
  get_elem?, length-append, All, ℤ, done, ◌>>=◌, ◌<◌, ap, true, ltb, All-elem,
}
use edysquelch.Fingerpori.{Fingerprint}
use edysquelch.Receiver.Search.{
  Around, toplen, MatchEntry, Search, search_start, note_match, match_note, best_of,
  search_fingerprints, search_loop,
}
use edysquelch.Receiver.Search.Best.{
  qualities, matching, fold_matches, search_loop-fold, IsMatch, matching-IsMatch, Inv, empty, best,
  note_match-room, note_match-full, note_match-Inv,
}

record Folded (cs : List MatchEntry) (s r : Search) : Type 0 where
  inv : Inv r
  slots : r.matches ≡ s.matches ++ cs
  no_stray : r.stray ≡ s.stray
  no_worst : r.matches_worst ≡ none

fold-room :
    (cs : List MatchEntry) (s : Search)
    → All IsMatch cs
    → s.matches_worst ≡ none
    → length s.matches + length cs ≤ toplen
    → Inv s
    → Folded cs s (fold_matches cs s)
unfolding fold_matches
fold-room [] s h w l inv = record {
  inv = inv;
  slots = sym (append-nil s.matches);
  no_stray = refl;
  no_worst = w;
}
fold-room (m ∷ cs) s (h, hs) w l inv =
    let (ms, w', st, _, _) = note_match-room m s h w (omega arith) in
    let longer = length-append {0} s.matches (m ∷ []) in
    let later =
      fold-room cs (note_match m s) hs w' (rw ms (omega (arith, longer)))
        (note_match-Inv m s h w (omega arith) inv) in
    record {
      inv = later.inv;
      slots = later.slots ∙ (rw ms (append_assoc s.matches (m ∷ []) cs));
      no_stray = later.no_stray ∙ st;
      no_worst = later.no_worst;
    }

-- The report for the slots of a state.
Inv-best_of :
    (s : Search) (last_noise : ℤ)
    → Inv s
    → ((s.matches ≡ []) × (best_of s last_noise ≡ none))
      ⊎ ((i : ℕ) × (m : MatchEntry) × (get_elem? s.matches i ≡ some m)
          × (best_of s last_noise ≡ some (match_note m last_noise))
          × All (λ e. m.dif ≤ e.dif) s.matches)
unfolding best_of
Inv-best_of s last_noise (empty e b d) = inl (e, rw (b, best_of))
Inv-best_of s last_noise (best i m b) = inr (i, m, b.slot, rw (b.index, b.slot, best_of), b.least)

-- With at most five matching fingerprints the search reports one with the least difference of all
-- that match, and reports nothing exactly where none matches.
pub search_fingerprints-best :
    (fps : List Fingerprint) (samples : Around) (len : ℕ) (last_noise garbage : ℤ)
    {ms : List MatchEntry}
    → qualities fps samples len garbage ≡ done ms
    → length (matching ms) ≤ toplen
    → ((matching ms ≡ []) × (search_fingerprints fps samples len last_noise garbage ≡ done none))
      ⊎ ((i : ℕ) × (m : MatchEntry) × (get_elem? (matching ms) i ≡ some m)
          × (search_fingerprints fps samples len last_noise garbage
              ≡ done (some (match_note m last_noise)))
          × All (λ e. m.dif ≤ e.dif) (matching ms))
unfolding search_fingerprints
search_fingerprints-best fps samples len last_noise garbage {ms} q l =
    let folded =
      fold-room (matching ms) search_start (matching-IsMatch ms) refl (omega arith)
        (empty refl refl refl) in
    let run = search_loop-fold fps samples len garbage search_start q in
    let r = fold_matches (matching ms) search_start in
    rw (run, ◌>>=◌)
      (elim (Inv-best_of r last_noise folded.inv) [
        | inl (e, b) ↦ inl (sym folded.slots ∙ e, ap done b)
        | inr (i, m, e, b, least) ↦
            inr (i, m, rw folded.slots at e, ap done b, rw folded.slots at least)
      ])

-- Past five slots.
fold-full :
    (cs : List MatchEntry) (s : Search)
    → All IsMatch cs
    → s.matches_worst ≡ none
    → toplen ≤ length s.matches
    → ((fold_matches cs s).stray ≡ s.stray + length cs)
      × (s.matches_best ≡ none → (fold_matches cs s).matches_best ≡ none)
unfolding fold_matches
fold-full [] s h w l = (omega arith, λ e. e)
fold-full (m ∷ cs) s (h, hs) w l =
    let (ms, w', st, b, _) = note_match-full m s h w l in
    let (st', b') = fold-full cs (note_match m s) hs w' (rw ms l) in
    (omega arith, λ e. b' (ground arith))

fold_matches-append :
    (cs ds : List MatchEntry) (s : Search)
    → fold_matches (cs ++ ds) s ≡ fold_matches ds (fold_matches cs s)
unfolding fold_matches
fold_matches-append [] ds s = refl
fold_matches-append (m ∷ cs) ds s = fold_matches-append cs ds (note_match m s)

All-split {ℓ κ} :
    {A : Type ℓ} (P : A → Type κ) (xs ys : List A) → All P (xs ++ ys) → All P xs × All P ys
All-split P [] ys h = (tt, h)
All-split P (x ∷ xs) ys h = let (p, q) = All-split P xs ys h.1 in ((h.0, p), q)

-- A better match than the five in the slots has no slot: the index of the best becomes -1.
sixth_best :
    (front : List MatchEntry) (m : MatchEntry) (r : Search)
    → length front ≡ toplen
    → IsMatch m
    → All (λ e. m.dif < e.dif) front
    → r.matches ≡ front
    → r.matches_worst ≡ none
    → Inv r
    → (note_match m r).matches_best ≡ none
sixth_best front m r five h better slots w (empty e _ _) =
    absurd (omega (arith, five, ap (length {0}) (sym slots ∙ e)))
sixth_best front m r five h better slots w (best i b is_best) =
    let (_, _, _, bi, _) = note_match-full m r h w (rw slots (omega arith)) in
    let lt : m.dif < b.dif = All-elem _ front i better (rw slots at is_best.slot) in
    let y : ltb m.dif r.matches_best_dif ≡ true = ground (arith, is_best.dif) in rw y at bi

-- Where five fingerprints match and a later one is closer than each of them, the search writes
-- its entry in front of the array, as it does for every later match, and reports nothing at all,
-- whatever else matches behind it.
pub search_fingerprints-sixth :
    (fps : List Fingerprint) (samples : Around) (len : ℕ) (last_noise garbage : ℤ)
    {ms : List MatchEntry} (front rest : List MatchEntry) (m : MatchEntry)
    → qualities fps samples len garbage ≡ done ms
    → matching ms ≡ front ++ (m ∷ rest)
    → length front ≡ toplen
    → All (λ e. m.dif < e.dif) front
    → (s : Search) × (search_loop fps samples len garbage search_start ≡ done s)
      × (s.stray ≡ length rest + 1)
      × (search_fingerprints fps samples len last_noise garbage ≡ done none)
unfolding search_fingerprints
search_fingerprints-sixth fps samples len last_noise garbage {ms} front rest m q split five better =
    let s = fold_matches (matching ms) search_start in
    let run = search_loop-fold fps samples len garbage search_start q in
    let (small, (now, later)) = All-split _ front (m ∷ rest) (rw split at (matching-IsMatch ms)) in
    let filled = fold-room front search_start small refl (omega arith) (empty refl refl refl) in
    let r = fold_matches front search_start in
    let (slots, w, st, _, _) =
      note_match-full m r now filled.no_worst (rw filled.slots (omega arith)) in
    let (strays, none_left) =
      fold-full rest (note_match m r) later w (rw (slots, filled.slots) (omega arith)) in
    let gone =
      none_left (sixth_best front m r five now better filled.slots filled.no_worst filled.inv) in
    let e : s ≡ fold_matches rest (note_match m r) =
      rw (split, fold_matches-append front (m ∷ rest) search_start) (unfold fold_matches in refl) in
    (s, run, rw e (omega (arith, filled.no_stray)), rw (run, ◌>>=◌) (rw (e, best_of, gone) refl))
