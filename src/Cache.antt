-- ===== src/Cache.antt =====
-- src/cache.c and src/cache.h: the entries of the ships, in a splay tree by their MMSI. The splay tree
-- and the float type are parameters; a lock is held around each operation, so that they follow one
-- another.
pub mod Entry
pub mod Latest
pub mod Ships
pub mod Rotation
pub mod Freeing
mod Tests
use edysquelch.Cache.Entry.{
  key_of, FloatType, CacheEnt, new_entry, written, cache_free_entry, Message,
}
use edysquelch.Prelude.{ℕ, zero, suc, ◌+◌, Option, none, some, List, [], ◌++◌, ℤ, Bytes, pos}
use edysquelch.SplayTree.{SplayTree}

module _ (float : FloatType) where
  module _ (sp : SplayTree (CacheEnt float)) where
    -- The entry of a ship, a new one where there is none.
    unfoldable pub cache_get : ℤ → sp.Tree → sp.Tree × CacheEnt float
    unfolding new_entry key_of
    cache_get mmsi spt =
        let (splayed, spl) = sp.sp_lookup (key_of mmsi) spt in
        elim spl [
          | some e ↦ (splayed, e)
          | none ↦ (sp.sp_install (key_of mmsi) (new_entry float) splayed, new_entry float)
        ]

    unfoldable pub cache_message : Message float → sp.Tree → sp.Tree
    unfolding cache_get written
    cache_message m spt =
        let (got, e) = cache_get m.mmsi spt in
        sp.store (key_of m.mmsi) (written float m.received_t m.mmsi m.report e) got

    -- The global variables of the cache.
    pub record Cache : Type 0 where
      pub cache_positions : ℕ
      pub cache_spt : sp.Tree

    unfoldable pub cache_init : Cache
    cache_init = record { cache_positions = 1; cache_spt = sp.sp_init }

    -- The tree for the export, and the cache with a new one.
    unfoldable pub cache_rotate : Cache → sp.Tree × Cache
    cache_rotate c = (c.cache_spt, record c { cache_spt = sp.sp_init })

    -- The loop of cache_free from `x` on: the strings that are freed, how many entries are, and the
    -- tree. Each round deletes a block, so that fuel for each block is enough.
    unfoldable pub free_loop : ℕ → Option ℕ → sp.Tree → List Bytes × ℕ × sp.Tree
    unfolding cache_free_entry
    free_loop zero x spt = ([], 0, spt)
    free_loop (suc fuel) none spt = ([], 0, spt)
    free_loop (suc fuel) (some x) spt =
        let nextx = sp.sp_fnext x spt in
        let (strings, freed, rest) = free_loop fuel nextx (sp.sp_delete x spt) in
        (
          elim (sp.data_of x spt) [ none ↦ [] | some e ↦ cache_free_entry float e ] ++ strings,
          freed + 1,
          rest,
        )

    unfoldable pub cache_free : ℕ → sp.Tree → List Bytes × ℕ × sp.Tree
    unfolding free_loop
    cache_free fuel spt = free_loop fuel (sp.sp_fhead spt) spt

    -- The strings that are freed, and the value returned; the tree itself is freed too, with
    -- cache_spt still pointing at it.
    unfoldable pub cache_deinit : ℕ → Cache → List Bytes × ℤ
    unfolding cache_free
    cache_deinit fuel c = ((cache_free fuel c.cache_spt).0, pos 0)
