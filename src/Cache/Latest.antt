-- ===== src/Cache/Latest.antt =====
-- The entry of a ship after any calls: what its own calls write, one after another, and so the latest
-- position, name and number of persons.
use edysquelch.Prelude.{
  ℕ, ◌≡◌, refl, ap, ◌∙◌, Option, none, some, List, [], ◌∷◌, ◌==◌, if◌then◌else◌, ℤ, inl, inr, sym,
  Bool, true, false, arith, ==_iff, Option-cases,
}
use edysquelch.SplayTree.{SplayTree, find}
use edysquelch.Cache.Entry.{key_of, FloatType, CacheEnt, new_entry, written, Message}
use edysquelch.Cache.{cache_get, cache_message}

pub if_twice :
    {A : Type 0} (b : Bool) (x y z : A)
    → (if b then x else if b then y else z) ≡ (if b then x else z)
if_twice true x y z = refl
if_twice false x y z = refl

pub ==-refl : (k : ℕ) → (k == k) ≡ true
==-refl k = ground arith

module _ (float : FloatType) where
  -- The new entry for a ship that has none.
  abbrev pub entry_of : Option (CacheEnt float) → CacheEnt float
  entry_of none = new_entry float
  entry_of (some e) = e

  abbrev pub writes : Message float → CacheEnt float → CacheEnt float
  writes m e = written float m.received_t m.mmsi m.report e

  -- The entry under a key, by the calls for that key alone.
  abbrev pub replay : ℕ → List (Message float) → Option (CacheEnt float) → Option (CacheEnt float)
  replay j [] o = o
  replay j (m ∷ ms) o = replay j ms (if key_of m.mmsi == j then some (writes m (entry_of o)) else o)

  if_same :
      (m : Message float) (b : Bool) (o : Option (CacheEnt float)) (e : CacheEnt float)
      → (b ≡ true → entry_of o ≡ e)
      → (if b then some (writes m e) else o) ≡ (if b then some (writes m (entry_of o)) else o)
  if_same m true o e h = ap (λ x. some (writes m x)) (sym (h refl))
  if_same m false o e h = refl

  module _ (sp : SplayTree (CacheEnt float)) where
    abbrev pub cache_messages : List (Message float) → sp.Tree → sp.Tree
    cache_messages [] t = t
    cache_messages (m ∷ ms) t = cache_messages ms (cache_message float sp m t)

    cache_get-hit :
        (mmsi : ℤ) (t : sp.Tree) (e : CacheEnt float)
        → find (key_of mmsi) (sp.blocks t) ≡ some e
        → cache_get float sp mmsi t ≡ ((sp.sp_lookup (key_of mmsi) t).0, e)
    unfolding cache_get
    cache_get-hit mmsi t e h = rw (cache_get, sp.lookup-finds (key_of mmsi) t, h) refl

    cache_get-miss :
        (mmsi : ℤ) (t : sp.Tree)
        → find (key_of mmsi) (sp.blocks t) ≡ none
        → cache_get float sp mmsi t ≡ (
          sp.sp_install (key_of mmsi) (new_entry float) (sp.sp_lookup (key_of mmsi) t).0,
          new_entry float,
        )
    unfolding cache_get
    cache_get-miss mmsi t h = rw (cache_get, sp.lookup-finds (key_of mmsi) t, h) refl

    -- A call writes through the pointer that cache_get gave it.
    cache_message-stores :
        (m : Message float) (t got : sp.Tree) (e : CacheEnt float)
        → cache_get float sp m.mmsi t ≡ (got, e)
        → find (key_of m.mmsi) (sp.blocks got) ≡ some e
        → (j : ℕ)
        → find j (sp.blocks (cache_message float sp m t))
          ≡ (if key_of m.mmsi == j then some (writes m e) else find j (sp.blocks got))
    unfolding cache_message
    cache_message-stores m t got e gets there j =
        let same : cache_message float sp m t ≡ sp.store (key_of m.mmsi) (writes m e) got =
          rw (cache_message, gets) refl in
        ap (λ t'. find j (sp.blocks t')) same
        ∙ sp.store-finds (key_of m.mmsi) (writes m e) e got there j

    lookup-keeps :
        (k j : ℕ) (t : sp.Tree) → find j (sp.blocks (sp.sp_lookup k t).0) ≡ find j (sp.blocks t)
    lookup-keeps k j t = ap (find j) (sp.lookup-blocks k t)

    hit-finds :
        (m : Message float) (t : sp.Tree) (e : CacheEnt float) (j : ℕ)
        → find (key_of m.mmsi) (sp.blocks t) ≡ some e
        → find j (sp.blocks (cache_message float sp m t))
          ≡ (if key_of m.mmsi == j then some (writes m e) else find j (sp.blocks t))
    hit-finds m t e j h =
        cache_message-stores m t _ e (cache_get-hit m.mmsi t e h)
          (lookup-keeps _ (key_of m.mmsi) t ∙ h) j
        ∙ ap (λ o. if key_of m.mmsi == j then some (writes m e) else o)
            (lookup-keeps (key_of m.mmsi) j t)

    miss-finds :
        (m : Message float) (t : sp.Tree) (j : ℕ)
        → find (key_of m.mmsi) (sp.blocks t) ≡ none
        → find j (sp.blocks (cache_message float sp m t))
          ≡ (if key_of m.mmsi == j then some (writes m (new_entry float)) else find j (sp.blocks t))
    miss-finds m t j h =
        let k = key_of m.mmsi in
        let splayed = (sp.sp_lookup k t).0 in
        let free = lookup-keeps k k t ∙ h in
        let installed = sp.install-finds k (new_entry float) splayed free in
        cache_message-stores m t _ (new_entry float) (cache_get-miss m.mmsi t h)
          (installed k
            ∙ ap (λ b. if b then some (new_entry float) else find k (sp.blocks splayed))
                (==-refl k))
          j
        ∙ ap (λ o. if k == j then some (writes m (new_entry float)) else o)
            (installed j
              ∙ ap (λ o. if k == j then some (new_entry float) else o) (lookup-keeps k j t))
        ∙ if_twice (k == j) (some (writes m (new_entry float))) (some (new_entry float))
            (find j (sp.blocks t))

    cache_message-finds :
        (m : Message float) (t : sp.Tree) (j : ℕ)
        → find j (sp.blocks (cache_message float sp m t)) ≡ (
            if key_of m.mmsi == j
            then some (writes m (entry_of (find j (sp.blocks t))))
            else find j (sp.blocks t))
    cache_message-finds m t j =
        let k = key_of m.mmsi in
        let o = find j (sp.blocks t) in
        let at_key : (k == j) ≡ true → entry_of o ≡ entry_of (find k (sp.blocks t)) =
          λ same. ap (λ i. entry_of (find i (sp.blocks t))) (sym ((==_iff k j).0 same)) in
        elim (Option-cases (find k (sp.blocks t))) [
          | inl h ↦
              miss-finds m t j h
              ∙ if_same m (k == j) o (new_entry float) λ same. at_key same ∙ ap entry_of h
          | inr (e, h) ↦
              hit-finds m t e j h ∙ if_same m (k == j) o e λ same. at_key same ∙ ap entry_of h
        ]

    pub cache_messages-replay :
        (ms : List (Message float)) (t : sp.Tree) (j : ℕ)
        → find j (sp.blocks (cache_messages ms t)) ≡ replay j ms (find j (sp.blocks t))
    cache_messages-replay [] t j = refl
    cache_messages-replay (m ∷ ms) t j =
        cache_messages-replay ms (cache_message float sp m t) j
        ∙ ap (replay j ms) (cache_message-finds m t j)
