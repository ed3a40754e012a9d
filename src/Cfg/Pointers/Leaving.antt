-- ===== src/Cfg/Pointers/Leaving.antt =====
-- read_config and free_config free nothing twice and nothing static, and leave little.
use edysquelch.Prelude.{ℕ, ◌≤◌, ◌≡◌, true, List, length, ℤ, is_zero}
use edysquelch.Memory.{Pointer, Heap, Allocator}
use edysquelch.Memory.Safety.{Exactly}
use edysquelch.Cfg.Pointers.{State}
use edysquelch.Cfg.Pointers.Owners.{points_all}
use edysquelch.Cfg.Pointers.Freeing.{Done}

abbrev Completed : ℕ → State → Type 0
Completed n s = (lost : List Pointer) × (length lost ≤ n) × Done lost s

-- At most so many pointers are the addresses of all blocks that are left.
abbrev pub Leaves : ℕ → Heap → Type 0
Leaves n h = (left : List Pointer) × (length left ≤ n) × Exactly (points_all left) h

module _ (malloc : Allocator) where
  -- Where read_config returned 0, the configuration is completed.
  abbrev IsRead : ℕ → State × ℤ → Type 0
  IsRead n (state, ret) = (is_zero ret ≡ true) → Completed n state
