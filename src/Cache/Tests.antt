-- ===== src/Cache/Tests.antt =====
-- The cache over a list of blocks, with a few calls.
use edysquelch.Prelude.{
  ℕ, ◌≡◌, refl, inl, inr, true, some, List, [], ◌∷◌, map, arith, ◌==◌, if◌then◌else◌, Bool-cases, ℤ,
  pos, negsuc, codes, sym, Bool, false, ==_iff,
}
use edysquelch.SplayTree.{SplayTree, find, head_key}
use edysquelch.Cache.Entry.{FloatType, CacheEnt, position, vesselname, vessel_persons, Message}
use edysquelch.Cache.{cache_init}
use edysquelch.Cache.Latest.{cache_messages, if_twice, ==-refl}
use edysquelch.Cache.Ships.{IsLatest, cache_messages-IsLatest}
use edysquelch.Cache.Rotation.{Happening, reports, rotates, happen, made_of, cache_init-rotations}

-- Two tests that do not hold at once can be made in either order.
exchange :
    {A : Type 0} (b c : Bool) (x y z : A)
    → (b ≡ true → c ≡ false)
    → (if b then x else if c then y else z) ≡ (if c then y else if b then x else z)
exchange true c x y z h = rw (h refl) refl
exchange false c x y z h = refl

module _ {A : Type 0} where
  abbrev stored : ℕ → A → List (ℕ × A) → List (ℕ × A)
  stored k a [] = []
  stored k a ((j, b) ∷ l) = if j == k then (j, a) ∷ l else (j, b) ∷ stored k a l

  abbrev behind : ℕ → List (ℕ × A) → List (ℕ × A)
  behind k [] = []
  behind k ((j, b) ∷ l) = if j == k then l else behind k l

  abbrev without : ℕ → List (ℕ × A) → List (ℕ × A)
  without k [] = []
  without k ((j, b) ∷ l) = if j == k then l else (j, b) ∷ without k l

  stored-finds :
      (k : ℕ) (a b : A) (l : List (ℕ × A))
      → find k l ≡ some b
      → (j : ℕ) → find j (stored k a l) ≡ (if k == j then some a else find j l)
  stored-finds k a b [] h j = absurd (cc)
  stored-finds k a b ((i, c) ∷ l) h j = elim (Bool-cases (i == k)) [
    | inl same ↦
        rw (same, (==_iff i k).0 same) (sym (if_twice (k == j) (some a) (some c) (find j l)))
    | inr differs ↦
        let rest = stored-finds k a b l (rw differs at h) j in
        rw (differs, rest)
          (exchange (i == j) (k == j) (some c) (some a) (find j l)
            λ here. ground (arith, differs, here))
  ]

  behind-head :
      (k : ℕ) (a : A) (l t : List (ℕ × A)) → t ≡ (k, a) ∷ l → head_key (behind k t) ≡ head_key l
  behind-head k a l t e = rw (e, ==-refl k) refl

  find-head : (k : ℕ) (a : A) (l t : List (ℕ × A)) → t ≡ (k, a) ∷ l → find k t ≡ some a
  find-head k a l t e = rw (e, ==-refl k) refl

  without-head : (k : ℕ) (a : A) (l t : List (ℕ × A)) → t ≡ (k, a) ∷ l → without k t ≡ l
  without-head k a l t e = rw (e, ==-refl k) refl

abbrev int_float : FloatType
int_float = record { Float = ℤ; of_int = λ z. z }

abbrev list_tree : SplayTree (CacheEnt int_float)
list_tree = record {
  Tree = List (ℕ × CacheEnt int_float);
  sp_init = [];
  sp_lookup = λ k t. (t, find k t);
  sp_install = λ k a t. (k, a) ∷ t;
  store = stored;
  sp_fhead = head_key;
  sp_fnext = λ k t. head_key (behind k t);
  data_of = find;
  sp_delete = without;
  blocks = λ t. t;
  init-blocks = refl;
  lookup-blocks = λ k t. refl;
  lookup-finds = λ k t. refl;
  install-finds = λ k a t h j. refl;
  store-finds = stored-finds;
  fhead-is = λ t. refl;
  fnext-is = behind-head;
  data-is = find-head;
  delete-blocks = without-head;
}

abbrev moored : Message int_float
moored = record {
  received_t = pos 100;
  mmsi = pos 230123456;
  report = position (pos 5) (pos 60) (pos 25) (pos 180) (pos 7) (pos 0) (pos 1);
}

abbrev named : Message int_float
named = record {
  received_t = pos 160;
  mmsi = pos 230123456;
  report = vesselname (codes "AURORA") (codes "TURKU");
}

abbrev other : Message int_float
other = record { received_t = pos 170; mmsi = negsuc 0; report = vessel_persons (pos 12) }

abbrev calls : List (Message int_float)
calls = moored ∷ other ∷ named ∷ []

cache_messages-IsLatest_example :
    IsLatest int_float 230123456 calls
      (find 230123456 (cache_messages int_float list_tree calls []))
cache_messages-IsLatest_example = cache_messages-IsLatest int_float list_tree calls 230123456

abbrev happenings : List (Happening int_float)
happenings = reports moored ∷ rotates ∷ reports other ∷ rotates ∷ reports named ∷ []

cache_init-rotations_example :
    ((happen int_float list_tree happenings (cache_init int_float list_tree)).0
      ≡ map (made_of int_float list_tree) ((moored ∷ []) ∷ (other ∷ []) ∷ []))
    × ((happen int_float list_tree happenings (cache_init int_float list_tree)).1.cache_spt
        ≡ made_of int_float list_tree (named ∷ []))
cache_init-rotations_example = cache_init-rotations int_float list_tree happenings

abbrev ships : List (ℕ × CacheEnt int_float)
ships = cache_messages int_float list_tree calls []
