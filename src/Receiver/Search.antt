-- ===== src/Receiver/Search.antt =====
-- search_fingerprints of src/receiver.c.
pub mod Offsets
pub mod Best
pub mod Reports
pub mod Exact
mod Tests
use edysquelch.Prelude.{
  ℕ, zero, suc, ◌+◌, ◌-◌, ◌*◌, ◌/◌, ◌%◌, ◌^◌, Bool, false, Option, none, some, List, [], ◌∷◌, ◌++◌,
  ltb, ◌==◌, if◌then◌else◌, length, get_elem?, ℤ, pos, sub_ℕ, ◌-ℤ◌, divided_by_zero, Outcome, done,
  halted, ◌>>=◌,
}
use edysquelch.Fingerpori.{Samples, Fingerprint}
use edysquelch.Receiver.Match.{ulong_max, match_single}

-- The `samples` argument with what lies round it: the code indexes it below 0 too.
abbrev pub Around : Type 0
Around = ℤ → ℤ

abbrev pub threshold_weak : ℕ
threshold_weak = 1100

-- TOPLEN
abbrev pub toplen : ℕ
toplen = 5

-- &samples[x - fp->len]
abbrev pub window : Around → ℕ → ℕ → Samples
window samples x len i = samples (sub_ℕ (x + i) len)

-- threshold_weak*(fp->len*2), an int that is converted to `unsigned long`. The product overflows an
-- int from a length of 976129 on; that, undefined in C, is taken to wrap, and a negative product
-- becomes a number near the largest `unsigned long`.
unfoldable pub giveup_of : Fingerprint → ℕ
giveup_of fp =
    let product = threshold_weak * (fp.len * 2) % 2 ^ 32 in
    if ltb product (2 ^ 31) then product else product + (2 ^ 64 - 2 ^ 32)

unfoldable pub match_at : Fingerprint → Around → ℕ → ℕ
unfolding giveup_of
match_at fp samples x = match_single fp.samples (window samples x fp.len) fp.len (giveup_of fp)

-- `dif` and `best_x` of the loop over x; `best_x` starts uninitialised.
pub record Scan : Type 0 where
  pub dif : ℕ
  pub best_x : ℤ

scan_step : Fingerprint → Around → ℕ → Scan → Scan
scan_step fp samples x s =
    let dift = match_at fp samples x in
    if ltb dift s.dif then record { dif = dift; best_x = pos x } else s

unfoldable pub scan_loop : Fingerprint → Around → ℕ → ℕ → Scan → Scan
unfolding scan_step
scan_loop fp samples zero x s = s
scan_loop fp samples (suc n) x s = scan_loop fp samples n (x + 1) (scan_step fp samples x s)

-- struct matchlist_t
pub record MatchEntry : Type 0 where
  pub dif : ℕ
  pub x_ofs : ℤ
  pub fp : Fingerprint

-- The locals of the search. `matches` holds the slots that are filled, so `matches_c` is its
-- length; `none` is the index -1. `stray` counts the writes to matches[-1].
pub record Search : Type 0 where
  pub matches : List MatchEntry
  pub matches_best : Option ℕ
  pub matches_best_dif : ℕ
  pub matches_worst : Option ℕ
  pub matches_worst_dif : ℕ
  pub stray : ℕ

abbrev pub search_start : Search
search_start = record {
  matches = [];
  matches_best = none;
  matches_best_dif = 2 ^ 32 - 1;
  matches_worst = none;
  matches_worst_dif = 2 ^ 32 - 1;
  stray = 0;
}

-- An index converted to `unsigned long`, as in `dif > matches_worst`.
abbrev pub as_ulong : Option ℕ → ℕ
as_ulong none = ulong_max
as_ulong (some i) = i

-- The `continue` for a match worse than the worst.
is_worse : Search → ℕ → Bool
is_worse s dif = elim s.matches_worst [ none ↦ false | some _ ↦ ltb s.matches_worst_dif dif ]

-- The two updates and the store, once `match_ins` is known; a store to slot `matches_c` adds it.
unfoldable pub insert_match : Option ℕ → MatchEntry → Search → Search
insert_match ins m s =
    let better = ltb m.dif s.matches_best_dif in
    let worse = ltb (as_ulong s.matches_worst) m.dif in
    record {
      matches = elim ins [ none ↦ s.matches | some _ ↦ s.matches ++ (m ∷ []) ];
      matches_best = if better then ins else s.matches_best;
      matches_best_dif = if better then m.dif % 2 ^ 32 else s.matches_best_dif;
      matches_worst = if worse then ins else s.matches_worst;
      matches_worst_dif = if worse then m.dif % 2 ^ 32 else s.matches_worst_dif;
      stray = elim ins [ none ↦ s.stray + 1 | some _ ↦ s.stray ];
    }

unfoldable pub note_match : MatchEntry → Search → Search
unfolding is_worse insert_match
note_match m s =
    if ltb (length s.matches) toplen
    then insert_match (some (length s.matches)) m s
    else if is_worse s m.dif
    then s
    else insert_match none m s

-- One fingerprint: the scan over the offsets, and the division. The int product fp->len*3 is taken
-- without its overflow, which comes at lengths far behind that of the limit's.
unfoldable pub quality : Fingerprint → Around → ℕ → ℤ → Outcome MatchEntry
quality fp samples len garbage =
    let s = scan_loop fp samples len 0 (record { dif = ulong_max; best_x = garbage }) in
    if fp.len * 3 == 0
    then halted divided_by_zero
    else done (record { dif = s.dif / (fp.len * 3); x_ofs = s.best_x; fp = fp })

abbrev pub is_match : MatchEntry → Bool
is_match m = ltb m.dif threshold_weak

unfoldable pub search_loop : List Fingerprint → Around → ℕ → ℤ → Search → Outcome Search
search_loop [] samples len garbage s = done s
search_loop (fp ∷ fps) samples len garbage s = do
  m ← quality fp samples len garbage
  search_loop fps samples len garbage (if is_match m then note_match m s else s)

-- The arguments of notify_out; the notified samples start at index `from` of `samples`.
pub record MatchNote : Type 0 where
  pub q : ℕ
  pub fp : Fingerprint
  pub from : ℤ
  pub count : ℕ
  pub ofs : ℕ
  pub last_noise : ℤ

abbrev pub match_note : MatchEntry → ℤ → MatchNote
match_note m last_noise =
    let add_margin = m.fp.len / 2 in
    let sample_ofs = m.x_ofs -ℤ pos m.fp.len -ℤ pos add_margin in
    record {
      q = m.dif;
      fp = m.fp;
      from = sample_ofs;
      count = m.fp.len * 2;
      ofs = add_margin;
      last_noise = last_noise -ℤ sample_ofs;
    }

-- The result: the notification sent for the best match, if any.
unfoldable pub best_of : Search → ℤ → Option MatchNote
best_of s last_noise = elim s.matches_best [
  | none ↦ none
  | some i ↦ elim (get_elem? s.matches i) [ none ↦ none | some m ↦ some (match_note m last_noise) ]
]

unfoldable pub search_fingerprints :
    List Fingerprint → Around → ℕ → ℤ → ℤ → Outcome (Option MatchNote)
unfolding search_loop best_of
search_fingerprints fps samples len last_noise garbage = do
  s ← search_loop fps samples len garbage search_start
  done (best_of s last_noise)
