-- ===== src/Cache/Ships.antt =====
-- What an entry says of its ship: the latest of each kind of data that was reported.
use mathlib.Core.Path.{ap₂}
use edysquelch.Prelude.{
  ℕ, ◌≡◌, refl, ap, ◌∙◌, inl, inr, Bool, true, false, ◌||◌, Option, none, some, List, [], ◌∷◌, ◌==◌,
  if◌then◌else◌, ==_iff, Bool-cases, ℤ, Bytes, sym, subst,
}
use edysquelch.SplayTree.{SplayTree, find}
use edysquelch.Cache.Entry.{
  key_of, same_bytes, FloatType, CacheEnt, new_entry, Report, position, vesseldata, vesseldatab,
  vesseldatabb, vesselname, vessel_persons, refreshed, written, Message,
}
use edysquelch.Cache.Latest.{entry_of, replay, cache_messages, cache_messages-replay}

same_bytes-eq : (s t : Bytes) → same_bytes s t ≡ true → s ≡ t
same_bytes-eq [] [] h = refl
same_bytes-eq [] (b ∷ t) h = cc
same_bytes-eq (a ∷ s) [] h = cc
same_bytes-eq (a ∷ s) (b ∷ t) h = elim (Bool-cases (a == b)) [
  | inl e ↦ rw ((==_iff a b).0 e, same_bytes-eq s t (rw e at h)) refl
  | inr n ↦ absurd (let h' = rw n at h in cc)
]

refreshed-some :
    (float : FloatType) (old : Option Bytes) (s : Bytes) → refreshed float old s ≡ some s
unfolding refreshed
refreshed-some float none s = refl
refreshed-some float (some old) s = elim (Bool-cases (same_bytes old s)) [
  | inl e ↦ rw e (ap some (same_bytes-eq old s e))
  | inr n ↦ rw n refl
]

abbrev pub or_else : {A : Type 0} → Option A → A → A
or_else none a = a
or_else (some b) a = b

or_true : (b : Bool) → true ≡ (b || true)
or_true true = refl
or_true false = refl

module _ (float : FloatType) where
  abbrev pub Position : Type 0
  Position = ℤ × float.Float × float.Float × ℤ × float.Float × float.Float × ℤ

  -- The parts of an entry, and what a call says of them.
  abbrev pub position_of : CacheEnt float → Position
  position_of e = (e.received_pos, e.lat, e.lon, e.hdg, e.course, e.sog, e.navstat)

  abbrev pub position_in : ℤ → Report float → Option Position
  position_in t (position navstat lat lon hdg course rateofturn sog) =
      some (t, lat, lon, hdg, course, sog, navstat)
  position_in t _ = none

  abbrev pub name_in : ℤ → Report float → Option (Option Bytes × Option Bytes)
  name_in t (vesseldata imo callsign name destination shiptype a b c d draught) =
      some (some name, some destination)
  name_in t (vesselname name destination) = some (some name, some destination)
  name_in t _ = none

  abbrev pub persons_in : ℤ → Report float → Option (ℤ × ℤ)
  persons_in t (vessel_persons persons_on_board) = some (t, persons_on_board)
  persons_in t _ = none

  abbrev pub name_of : CacheEnt float → Option Bytes × Option Bytes
  name_of e = (e.name, e.destination)

  abbrev pub persons_of : CacheEnt float → ℤ × ℤ
  persons_of e = (e.received_persons_on_board, e.persons_on_board)

  -- What the last call for the key that says something says.
  abbrev pub latest :
      {A : Type 0} → (ℤ → Report float → Option A) → ℕ → List (Message float) → A → A
  latest says j [] a = a
  latest says j (m ∷ ms) a =
      latest says j ms (if key_of m.mmsi == j then or_else (says m.received_t m.report) a else a)

  -- A call for the key
  abbrev pub is_heard : ℕ → List (Message float) → Bool
  is_heard j [] = false
  is_heard j (m ∷ ms) = key_of m.mmsi == j || is_heard j ms

  replay-latest :
      {A : Type 0} (part : CacheEnt float → A) (says : ℤ → Report float → Option A)
      → ((t mmsi : ℤ) (r : Report float) (e : CacheEnt float)
          → part (written float t mmsi r e) ≡ or_else (says t r) (part e))
      → (j : ℕ) (ms : List (Message float)) (o : Option (CacheEnt float))
      → part (entry_of float (replay float j ms o)) ≡ latest says j ms (part (entry_of float o))
  replay-latest part says law j [] o = refl
  replay-latest part says law j (m ∷ ms) o = elim (Bool-cases (key_of m.mmsi == j)) [
    | inl same ↦ rw same (
        replay-latest part says law j ms _
        ∙ ap (latest says j ms) (law m.received_t m.mmsi m.report _))
    | inr differs ↦ rw differs (replay-latest part says law j ms o)
  ]

  written-position :
      (t mmsi : ℤ) (r : Report float) (e : CacheEnt float)
      → position_of (written float t mmsi r e) ≡ or_else (position_in t r) (position_of e)
  unfolding written
  written-position t mmsi (position n x y h c r s) e = refl
  written-position t mmsi (vesseldata i cs nm de st a b c d dr) e = refl
  written-position t mmsi (vesseldatab cs st a b c d) e = refl
  written-position t mmsi (vesseldatabb st a b c d) e = refl
  written-position t mmsi (vesselname nm de) e = refl
  written-position t mmsi (vessel_persons n) e = refl

  written-name :
      (t mmsi : ℤ) (r : Report float) (e : CacheEnt float)
      → name_of (written float t mmsi r e) ≡ or_else (name_in t r) (name_of e)
  unfolding written
  written-name t mmsi (position n x y h c r s) e = refl
  written-name t mmsi (vesseldata i cs nm de st a b c d dr) e =
      ap₂ (λ x y. (x, y)) (refreshed-some float e.name nm) (refreshed-some float e.destination de)
  written-name t mmsi (vesseldatab cs st a b c d) e = refl
  written-name t mmsi (vesseldatabb st a b c d) e = refl
  written-name t mmsi (vesselname nm de) e =
      ap₂ (λ x y. (x, y)) (refreshed-some float e.name nm) (refreshed-some float e.destination de)
  written-name t mmsi (vessel_persons n) e = refl

  written-persons :
      (t mmsi : ℤ) (r : Report float) (e : CacheEnt float)
      → persons_of (written float t mmsi r e) ≡ or_else (persons_in t r) (persons_of e)
  unfolding written
  written-persons t mmsi (position n x y h c r s) e = refl
  written-persons t mmsi (vesseldata i cs nm de st a b c d dr) e = refl
  written-persons t mmsi (vesseldatab cs st a b c d) e = refl
  written-persons t mmsi (vesseldatabb st a b c d) e = refl
  written-persons t mmsi (vesselname nm de) e = refl
  written-persons t mmsi (vessel_persons n) e = refl

  abbrev pub is_given : Option (CacheEnt float) → Bool
  is_given none = false
  is_given (some e) = true

  replay-present :
      (j : ℕ) (ms : List (Message float)) (o : Option (CacheEnt float))
      → is_given (replay float j ms o) ≡ (is_given o || is_heard j ms)
  replay-present j [] none = refl
  replay-present j [] (some e) = refl
  replay-present j (m ∷ ms) o = elim (Bool-cases (key_of m.mmsi == j)) [
    | inl same ↦ rw same (replay-present j ms _ ∙ or_true (is_given o))
    | inr differs ↦ rw differs (replay-present j ms o)
  ]

  -- The entry under a key as the calls since the tree was new make it.
  pub record IsLatest (j : ℕ) (ms : List (Message float)) (o : Option (CacheEnt float))
      : Type 0 where
    pub present : is_given o ≡ is_heard j ms
    pub position_is :
        position_of (entry_of float o) ≡ latest position_in j ms (position_of (new_entry float))
    pub name_is : name_of (entry_of float o) ≡ latest name_in j ms (name_of (new_entry float))
    pub persons_is :
        persons_of (entry_of float o) ≡ latest persons_in j ms (persons_of (new_entry float))

  replay-IsLatest : (j : ℕ) (ms : List (Message float)) → IsLatest j ms (replay float j ms none)
  replay-IsLatest j ms = record {
    present = replay-present j ms none;
    position_is = replay-latest position_of position_in written-position j ms none;
    name_is = replay-latest name_of name_in written-name j ms none;
    persons_is = replay-latest persons_of persons_in written-persons j ms none;
  }

  -- Whatever calls are made on a new tree: there is an entry under a key just where one of them has
  -- an MMSI with this key, and then its position, its name and destination and its persons are
  -- those of the last such call that reports them, and those of a new entry where none does. Calls
  -- for other ships change nothing of it.
  pub cache_messages-IsLatest :
      (sp : SplayTree (CacheEnt float)) (ms : List (Message float)) (j : ℕ)
      → IsLatest j ms (find j (sp.blocks (cache_messages float sp ms sp.sp_init)))
  cache_messages-IsLatest sp ms j =
      let new : find j (sp.blocks sp.sp_init) ≡ none = ap (find j) sp.init-blocks in
      let same = cache_messages-replay float sp ms sp.sp_init j ∙ ap (replay float j ms) new in
      subst (IsLatest j ms) (sym same) (replay-IsLatest j ms)
