-- ===== src/Cache/Rotation.antt =====
-- The exports: what each rotation gives.
use mathlib.Core.Path.{ap₂}
use edysquelch.Prelude.{◌≡◌, refl, sym, ap, ◌∙◌, List, [], ◌∷◌, ◌++◌, map}
use edysquelch.SplayTree.{SplayTree}
use edysquelch.Cache.Entry.{FloatType, CacheEnt, Message}
use edysquelch.Cache.{cache_message, Cache, cache_init, cache_rotate}
use edysquelch.Cache.Latest.{cache_messages}

module _ (float : FloatType) where
  -- What happens to the cache, in its order: a call, or a rotation.
  pub data Happening : Type 0 where
    reports : Message float → Happening
    rotates : Happening

  -- The calls between two rotations, each rotation's own; and those since the last one.
  abbrev pub between : List Happening → List (Message float) → List (List (Message float))
  between [] ms = []
  between (reports m ∷ hs) ms = between hs (ms ++ (m ∷ []))
  between (rotates ∷ hs) ms = ms ∷ between hs []

  abbrev pub since : List Happening → List (Message float) → List (Message float)
  since [] ms = ms
  since (reports m ∷ hs) ms = since hs (ms ++ (m ∷ []))
  since (rotates ∷ hs) ms = since hs []

  module _ (sp : SplayTree (CacheEnt float)) where
    -- The trees that the rotations give, and the cache in the end.
    abbrev pub happen : List Happening → Cache float sp → List sp.Tree × Cache float sp
    happen [] c = ([], c)
    happen (reports m ∷ hs) c =
        happen hs (record c { cache_spt = cache_message float sp m c.cache_spt })
    happen (rotates ∷ hs) c =
        let (spt, c') = cache_rotate float sp c in
        let (exports, last) = happen hs c' in (spt ∷ exports, last)

    abbrev pub made_of : List (Message float) → sp.Tree
    made_of ms = cache_messages float sp ms sp.sp_init

    cache_messages-snoc :
        (ms : List (Message float)) (m : Message float) (t : sp.Tree)
        → cache_messages float sp (ms ++ (m ∷ [])) t
          ≡ cache_message float sp m (cache_messages float sp ms t)
    cache_messages-snoc [] m t = refl
    cache_messages-snoc (n ∷ ms) m t = cache_messages-snoc ms m (cache_message float sp n t)

    happen-from :
        (hs : List Happening) (ms : List (Message float)) (c : Cache float sp)
        → c.cache_spt ≡ made_of ms
        → ((happen hs c).0 ≡ map made_of (between hs ms))
          × ((happen hs c).1.cache_spt ≡ made_of (since hs ms))
    unfolding cache_rotate
    happen-from [] ms c e = (refl, e)
    happen-from (reports m ∷ hs) ms c e =
        happen-from hs (ms ++ (m ∷ []))
          (record c { cache_spt = cache_message float sp m c.cache_spt })
          (ap (cache_message float sp m) e ∙ sym (cache_messages-snoc ms m sp.sp_init))
    happen-from (rotates ∷ hs) ms c e =
        let (exported, last) = happen-from hs [] (record c { cache_spt = sp.sp_init }) refl in
        (ap₂ (λ t ts. t ∷ ts) e exported, last)

    -- From cache_init on, whatever calls and rotations follow one another: each rotation exports the
    -- tree that its own calls make on a new one, those since the rotation before and no other, and
    -- the cache holds what the calls since the last one make. No call is lost and none is exported
    -- twice.
    pub cache_init-rotations :
        (hs : List Happening)
        → ((happen hs (cache_init float sp)).0 ≡ map made_of (between hs []))
          × ((happen hs (cache_init float sp)).1.cache_spt ≡ made_of (since hs []))
    cache_init-rotations hs = happen-from hs [] (cache_init float sp) (unfold cache_init in refl)
