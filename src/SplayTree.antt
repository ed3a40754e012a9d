-- ===== src/SplayTree.antt =====
-- The splay tree as the cache uses it: operations and what they promise of the blocks in key order.
use edysquelch.Prelude.{ℕ, ◌≡◌, Option, none, some, List, [], ◌∷◌, ◌==◌, if◌then◌else◌}

module _ {A : Type 0} where
  -- the data of a key
  abbrev pub find : ℕ → List (ℕ × A) → Option A
  find k [] = none
  find k ((j, a) ∷ l) = if j == k then some a else find k l

  abbrev pub head_key : List (ℕ × A) → Option ℕ
  head_key [] = none
  head_key ((k, a) ∷ l) = some k

-- The operations of splay.c that the cache calls, on a tree whose blocks have keys and data. A block is
-- named by its key; `blocks` lists them in the order of sp_fhead and sp_fnext. sp_install comes with
-- the data that is set at once, and `store` writes through the pointer to the data of a block.
pub record SplayTree (A : Type 0) : Type 1 where
  pub Tree : Type 0
  pub sp_init : Tree
  pub sp_lookup : ℕ → Tree → Tree × Option A
  pub sp_install : ℕ → A → Tree → Tree
  pub store : ℕ → A → Tree → Tree
  pub sp_fhead : Tree → Option ℕ
  pub sp_fnext : ℕ → Tree → Option ℕ
  pub data_of : ℕ → Tree → Option A
  pub sp_delete : ℕ → Tree → Tree
  pub blocks : Tree → List (ℕ × A)
  pub init-blocks : blocks sp_init ≡ []
  pub lookup-blocks : (k : ℕ) (t : Tree) → blocks (sp_lookup k t).0 ≡ blocks t
  pub lookup-finds : (k : ℕ) (t : Tree) → (sp_lookup k t).1 ≡ find k (blocks t)
  pub install-finds :
      (k : ℕ) (a : A) (t : Tree)
      → find k (blocks t) ≡ none
      → (j : ℕ)
      → find j (blocks (sp_install k a t)) ≡ (if k == j then some a else find j (blocks t))
  pub store-finds :
      (k : ℕ) (a b : A) (t : Tree)
      → find k (blocks t) ≡ some b
      → (j : ℕ) → find j (blocks (store k a t)) ≡ (if k == j then some a else find j (blocks t))
  pub fhead-is : (t : Tree) → sp_fhead t ≡ head_key (blocks t)
  pub fnext-is :
      (k : ℕ) (a : A) (l : List (ℕ × A)) (t : Tree)
      → blocks t ≡ (k, a) ∷ l
      → sp_fnext k t ≡ head_key l
  pub data-is :
      (k : ℕ) (a : A) (l : List (ℕ × A)) (t : Tree) → blocks t ≡ (k, a) ∷ l → data_of k t ≡ some a
  pub delete-blocks :
      (k : ℕ) (a : A) (l : List (ℕ × A)) (t : Tree)
      → blocks t ≡ (k, a) ∷ l
      → blocks (sp_delete k t) ≡ l
