-- ===== src/OutJson/Posting.antt =====
-- What a post returns.
use edysquelch.Prelude.{
  ℕ, zero, suc, ◌≡◌, refl, ap, inl, inr, Bool, true, false, List, [], ◌∷◌, ◌++◌, arith,
  if◌then◌else◌, Bool-cases, All, ℤ, pos, negsuc, ◌-ℤ◌, is_zero, ◌∙◌,
}
use edysquelch.OutJson.{last_status, all_done, jsonout_post_single}

abbrev pub IsZero : ℕ → Type 0
IsZero status = status ≡ 0

-- All calls gave 0, or one did not and all before it did.
pub data Calls (statuses : List ℕ) : Type 0 where
  succeeded : All IsZero statuses → Calls statuses
  stopped_at :
      (before : List ℕ) (k : ℕ) (rest : List ℕ)
      → statuses ≡ before ++ (suc k ∷ rest)
      → All IsZero before
      → Calls statuses

Calls-cases : (statuses : List ℕ) → Calls statuses
Calls-cases [] = succeeded tt
Calls-cases (suc k ∷ statuses) = stopped_at [] k statuses refl tt
Calls-cases (zero ∷ statuses) = elim (Calls-cases statuses) [
  | succeeded h ↦ succeeded (refl, h)
  | stopped_at before k rest e h ↦ stopped_at (0 ∷ before) k rest (ap (λ ss. 0 ∷ ss) e) (refl, h)
]

last_status-zero :
    (r : ℤ) (n : ℕ) (statuses : List ℕ)
    → All IsZero (n ∷ statuses)
    → (last_status r (n ∷ statuses) ≡ pos 0) × (all_done (n ∷ statuses) ≡ true)
unfolding last_status
last_status-zero r zero [] h = (refl, refl)
last_status-zero r zero (m ∷ statuses) (e, h) = last_status-zero (pos 0) m statuses h
last_status-zero r (suc n) statuses (e, h) = absurd (omega (arith, e))

last_status-failed :
    (r : ℤ) (before : List ℕ) (k : ℕ) (rest : List ℕ)
    → All IsZero before
    → (last_status r (before ++ (suc k ∷ rest)) ≡ pos (suc k))
      × (all_done (before ++ (suc k ∷ rest)) ≡ false)
unfolding last_status
last_status-failed r [] k rest h = (refl, refl)
last_status-failed r (zero ∷ before) k rest (e, h) = last_status-failed (pos 0) before k rest h
last_status-failed r (suc n ∷ before) k rest (e, h) = absurd (omega (arith, e))

post-failed :
    (r code : ℤ) (before : List ℕ) (k : ℕ) (rest ss : List ℕ)
    → ss ≡ before ++ (suc k ∷ rest)
    → All IsZero before
    → jsonout_post_single true true ss code r ≡ pos (suc k)
unfolding jsonout_post_single
post-failed r code before k rest ss e h =
    let (returns, fails) = last_status-failed r before k rest h in
    let all : all_done ss ≡ false = ap all_done e ∙ fails in rw all (ap (last_status r) e ∙ returns)

-- What a post with a handle and headers returns, for the calls of libcurl.
pub data Posted (statuses : List ℕ) (code ret : ℤ) : Type 0 where
  answered :
      All IsZero statuses
      → ret ≡ (if is_zero (code -ℤ pos 200) then pos 0 else negsuc 0)
      → Posted statuses code ret
  failed :
      (before : List ℕ) (k : ℕ) (rest : List ℕ)
      → statuses ≡ before ++ (suc k ∷ rest)
      → All IsZero before
      → ret ≡ pos (suc k)
      → Posted statuses code ret

-- With a curl handle and headers, a post returns 0 where every call of libcurl gave 0 and the server
-- said 200, and -1 where it said anything else; where a call gave another status, the first such
-- status is returned. With no handle it returns 1. With a handle and no headers it returns whatever
-- the uninitialised `r` holds.
pub jsonout_post_single_lem :
    (n : ℕ) (statuses : List ℕ) (code garbage : ℤ)
    → let posted = λ (handle : Bool) (headers : Bool).
      jsonout_post_single handle headers (n ∷ statuses) code garbage in
      Posted (n ∷ statuses) code (posted true true)
      × ((headers : Bool) → posted false headers ≡ pos 1)
      × (posted true false ≡ garbage)
unfolding jsonout_post_single
jsonout_post_single_lem n statuses code garbage = (
  elim (Calls-cases (n ∷ statuses)) [
    | succeeded h ↦ answered h (
        let (returns, all) = last_status-zero garbage n statuses h in
        elim (Bool-cases (is_zero (code -ℤ pos 200))) [
          | inl y ↦ rw (all, y) returns
          | inr other ↦ rw (all, other) refl
        ])
    | stopped_at before k rest e h ↦
        failed before k rest e h (post-failed garbage code before k rest (n ∷ statuses) e h)
  ],
  λ headers. refl,
  refl,
)
