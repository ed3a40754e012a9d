-- ===== src/Cache/Freeing.antt =====
-- The end of a tree: cache_free reaches each entry once.
use edysquelch.Prelude.{ℕ, List, [], ◌∷◌, ◌++◌, Bytes}
use edysquelch.SplayTree.{SplayTree}
use edysquelch.Cache.Entry.{FloatType, CacheEnt, cache_free_entry}

module _ (float : FloatType) where
  -- The strings of all entries.
  abbrev pub strings_of : List (ℕ × CacheEnt float) → List Bytes
  strings_of [] = []
  strings_of ((k, e) ∷ l) = cache_free_entry float e ++ strings_of l
