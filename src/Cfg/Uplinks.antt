-- ===== src/Cfg/Uplinks.antt =====
-- When an uplink directive crashes, fails, or adds an uplink.
use edysquelch.Prelude.{
  ℕ, ◌<◌, ◌≡◌, refl, ◌⊎◌, inl, inr, Bool, true, false, some, List, [], ◌∷◌, arith, Bool-cases,
  length, get_elem?, pos, negsuc, Bytes, codes, str_case_equal, null_followed, done, halted,
}
use edysquelch.Cfg.{UplinkConfig, do_uplink}

-- The third word is the protocol.
abbrev pub is_json : List Bytes → Bool
is_json (w ∷ label ∷ proto ∷ rest) = str_case_equal proto (codes "json")
is_json _ = false

-- An uplink directive follows a NULL exactly when it has three words, the third the protocol
-- `json`. With more words and that protocol it puts one uplink in front and gives 0; otherwise it
-- gives a negative value and keeps the list.
pub do_uplink_lem :
    (lq : List UplinkConfig) (ws : List Bytes)
    → ((is_json ws ≡ true) × (length ws ≡ 3) × (do_uplink lq ws ≡ halted null_followed))
      ⊎ ((is_json ws ≡ true)
          × (3 < length ws)
          × ((l : UplinkConfig) × (do_uplink lq ws ≡ done (l ∷ lq, pos 0))
              × (get_elem? ws 1 ≡ some l.name)
              × (get_elem? ws 3 ≡ some l.url)))
      ⊎ ((is_json ws ≡ false) × ((k : ℕ) × (do_uplink lq ws ≡ done (lq, negsuc k))))
unfolding do_uplink
do_uplink_lem lq [] = inr (inr (refl, (0, refl)))
do_uplink_lem lq (w ∷ []) = inr (inr (refl, (0, refl)))
do_uplink_lem lq (w ∷ label ∷ []) = inr (inr (refl, (0, refl)))
do_uplink_lem lq (w ∷ label ∷ proto ∷ []) =
    elim (Bool-cases (str_case_equal proto (codes "json"))) [
      | inl y ↦ inl (y, omega arith, rw y refl)
      | inr n ↦ inr (inr (n, (1, rw n refl)))
    ]
do_uplink_lem lq (w ∷ label ∷ proto ∷ url ∷ rest) =
    elim (Bool-cases (str_case_equal proto (codes "json"))) [
      | inl y ↦
          inr (inl (y, omega arith, (record { name = label; url = url }, rw y refl, refl, refl)))
      | inr n ↦ inr (inr (n, (1, rw n refl)))
    ]
