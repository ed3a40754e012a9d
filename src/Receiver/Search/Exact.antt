-- ===== src/Receiver/Search/Exact.antt =====
-- search_fingerprints finds a fingerprint that was received without a change.
use native.Mathlib.Nat.{zero-div}
use mathlib.Core.Option.{some-injective}
use edysquelch.Prelude.{
  ℕ, zero, suc, ◌*◌, ◌<◌, ◌≡◌, ◌∙◌, true, some, List, arith, get_elem?, All, ℤ, done, [], ◌∷◌, ◌≤◌,
  refl, sym, ap, subst, inl, inr, Bool-cases, length, All-elem, done-injective,
}
use edysquelch.Fingerpori.{Fingerprint}
use edysquelch.Fingerpori.Average.{IsShort}
use edysquelch.Receiver.Search.{
  Around, window, MatchEntry, is_match, toplen, MatchNote, match_note, search_fingerprints,
}
use edysquelch.Receiver.Search.Best.{qualities, qualities-cons, matching}
use edysquelch.Receiver.Search.Offsets.{IsUsable, sum_at, far_off, near, Nearest, quality-Nearest}
use edysquelch.Receiver.Search.Reports.{search_fingerprints-best}
use edysquelch.Receiver.Match.Sum.{term_sum-same}

-- The samples in front of offset `x` are those of the fingerprint.
abbrev pub Plays : Fingerprint → Around → ℕ → Type 0
Plays fp samples x = (j : ℕ) → j < fp.len → window samples x fp.len j ≡ fp.samples j

-- One entry is without a difference.
abbrev IsExact : MatchEntry → Type 0
IsExact m = (m.dif ≡ 0) × (is_match m ≡ true)

Nearest-IsExact :
    (fp : Fingerprint) (samples : Around) (len x : ℕ) (m : MatchEntry)
    → x < len
    → sum_at fp samples x ≡ 0
    → Nearest fp samples len m
    → IsExact m
Nearest-IsExact fp samples len x m l e (far_off h none_near) = absurd (omega (arith, h x l))
Nearest-IsExact fp samples len x m l e (near y k at small dif least) =
    let no_sum : sum_at fp samples y ≡ 0 = omega (arith, least x l) in
    let no_dif : m.dif ≡ 0 = dif ∙ rw no_sum (zero-div (fp.len * 3)) in (no_dif, rw no_dif refl)

-- A matching entry with no difference.
abbrev HasExact : List MatchEntry → Type 0
HasExact ms = (k : ℕ) × (m : MatchEntry) × (get_elem? (matching ms) k ≡ some m) × (m.dif ≡ 0)

HasExact-first : (m : MatchEntry) (ms : List MatchEntry) → IsExact m → HasExact (m ∷ ms)
unfolding matching
HasExact-first m ms (none_left, matched) = (0, m, rw matched refl, none_left)

HasExact-later : (m : MatchEntry) (ms : List MatchEntry) → HasExact ms → HasExact (m ∷ ms)
unfolding matching
HasExact-later m ms (k, exact, at, none_left) = elim (Bool-cases (is_match m)) [
  | inl y ↦ (suc k, exact, rw y at, none_left)
  | inr n ↦ (k, exact, rw n at, none_left)
]

qualities-HasExact :
    (fps : List Fingerprint) (samples : Around) (len : ℕ) (garbage : ℤ) (i x : ℕ) {fp : Fingerprint}
    {ms : List MatchEntry}
    → All IsUsable fps
    → ((j : ℤ) → IsShort (samples j))
    → get_elem? fps i ≡ some fp
    → x < len
    → Plays fp samples x
    → qualities fps samples len garbage ≡ done ms
    → HasExact ms
qualities-HasExact [] samples len garbage i x u around at l same q = absurd (ground arith)
qualities-HasExact (g ∷ fps) samples len garbage zero x (u, us) around at l same q =
    let (m, later, e, e', is_ms) = qualities-cons g fps samples len garbage q in
    let (m', found, of_g, nearest) = quality-Nearest g samples len garbage u around in
    let m_is : m' ≡ m = done-injective (sym found ∙ e) in
    let silent : sum_at g samples x ≡ 0 =
      term_sum-same g.samples (window samples x g.len) g.len 0 (λ j k.
        subst (λ f. Plays f samples x) (sym (some-injective g _ at)) same j (omega arith)) in
    subst HasExact is_ms (
      HasExact-first m later
        (Nearest-IsExact g samples len x m l silent (subst (Nearest g samples len) m_is nearest)))
qualities-HasExact (g ∷ fps) samples len garbage (suc i) x (u, us) around at l same q =
    let (m, later, e, e', is_ms) = qualities-cons g fps samples len garbage q in
    subst HasExact is_ms (
      HasExact-later m later
        (qualities-HasExact fps samples len garbage i x us around at l same e'))

-- A fingerprint that stands unchanged in the received samples, in front of one of the offsets that
-- are searched, is found: with usable fingerprints, 16-bit samples and at most five matches, the
-- search reports a fingerprint with difference 0.
pub search_fingerprints-exact :
    (fps : List Fingerprint) (samples : Around) (len : ℕ) (last_noise garbage : ℤ) (i x : ℕ)
    {fp : Fingerprint} {ms : List MatchEntry}
    → All IsUsable fps
    → ((j : ℤ) → IsShort (samples j))
    → get_elem? fps i ≡ some fp
    → x < len
    → Plays fp samples x
    → qualities fps samples len garbage ≡ done ms
    → length (matching ms) ≤ toplen
    → (note : MatchNote) × (search_fingerprints fps samples len last_noise garbage
        ≡ done (some note))
      × (note.q ≡ 0)
search_fingerprints-exact fps samples len last_noise garbage i x {ms = ms} u around at l same q
      few =
    let (k, exact, there, none_left) =
      qualities-HasExact fps samples len garbage i x u around at l same q in
    elim (search_fingerprints-best fps samples len last_noise garbage q few) [
      | inl (nothing, e) ↦ absurd (let gone = ap (λ cs. get_elem? cs k) nothing in ground arith)
      | inr (b, m, stands, e, least) ↦ (
        match_note m last_noise,
        e,
        omega (arith, All-elem (λ c. m.dif ≤ c.dif) (matching ms) k least there, none_left),
      )
    ]
