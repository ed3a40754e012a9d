-- ===== src/Cfg/Options.antt =====
-- Which command lines are accepted.
use edysquelch.Prelude.{
  ℕ, suc, ◌+◌, ◌≡◌, refl, ap, ◌∙◌, ◌⊎◌, inl, inr, Bool, true, false, ◌&&◌, ◌||◌, some, List, [],
  ◌∷◌, arith, ◌==◌, Bool-cases, get_elem?, All, ℤ, pos, negsuc, Bytes, str_case_equal, ◌-ℤ◌,
  is_zero, exited, done, halted,
}
use edysquelch.Cfg.CommandLine.{
  pick_loop, pick_loglevel, log_levelnames, log_destnames, Settings, take_option, l_file,
  take_options, is_missing, parse_cmdline,
}

pick_loop_lem :
    (s : Bytes) (i : ℕ) (names : List Bytes)
    → ((k : ℕ) × (n : Bytes) × (pick_loop s i names ≡ pos (i + k))
        × (get_elem? names k ≡ some n)
        × (str_case_equal s n ≡ true))
      ⊎ ((pick_loop s i names ≡ negsuc 0) × All (λ n. str_case_equal s n ≡ false) names)
unfolding pick_loop
pick_loop_lem s i [] = inr (refl, tt)
pick_loop_lem s i (n ∷ names) = elim (Bool-cases (str_case_equal s n)) [
  | inl y ↦ inl (0, n, rw (y) (ap pos (omega arith)), refl, y)
  | inr differs ↦ elim (pick_loop_lem s (suc i) names) [
    | inl (k, m, e, g, y) ↦ inl (suc k, m, rw differs (e ∙ ap pos (omega arith)), g, y)
    | inr (e, h) ↦ inr (rw differs e, (differs, h))
  ]
]

-- pick_loglevel gives the index of a name that is the text in any case, or -1 where none is.
pub pick_loglevel_lem :
    (s : Bytes) (names : List Bytes)
    → ((k : ℕ) × (n : Bytes) × (pick_loglevel s names ≡ pos (0 + k))
        × (get_elem? names k ≡ some n)
        × (str_case_equal s n ≡ true))
      ⊎ ((pick_loglevel s names ≡ negsuc 0) × All (λ n. str_case_equal s n ≡ false) names)
unfolding pick_loglevel
pick_loglevel_lem s names = pick_loop_lem s 0 names

-- An option that does not fail.
abbrev pub is_negative : ℤ → Bool
is_negative (pos n) = false
is_negative (negsuc n) = true

-- Options that fail: an unknown level or destination, and those that ask for help.
pub fails : ℕ → Bytes → Bool
fails c arg =
    (c == b'e' && is_negative (pick_loglevel arg log_levelnames))
    || (c == b'o' && is_negative (pick_loglevel arg log_destnames))
    || c == b'?'
    || c == b'h'

take_option-failed :
    (c : ℕ) (arg : Bytes) (s : Settings) (bad : Bool)
    → (take_option c arg (s, bad)).1 ≡ (bad || fails c arg)
unfolding take_option fails
take_option-failed c arg s bad = ground arith

pub any_fails : List (ℕ × Bytes) → Bool
any_fails [] = false
any_fails ((c, arg) ∷ opts) = fails c arg || any_fails opts

or_assoc : (a b c : Bool) → ((a || b) || c) ≡ (a || (b || c))
or_assoc true b c = refl
or_assoc false b c = refl

or_false : (a : Bool) → a ≡ (a || false)
or_false true = refl
or_false false = refl

take_options-failed :
    (opts : List (ℕ × Bytes)) (state : Settings × Bool)
    → (take_options opts state).1 ≡ (state.1 || any_fails opts)
unfolding take_options any_fails
take_options-failed [] state = or_false state.1
take_options-failed ((c, arg) ∷ opts) state =
    take_options-failed opts (take_option c arg state)
    ∙ ap (λ x. x || any_fails opts) (take_option-failed c arg state.0 state.1)
    ∙ or_assoc state.1 (fails c arg) (any_fails opts)

-- A command line is refused, and the process exits, exactly where some option fails or the settings
-- that the options make send the log to a file with no directory; otherwise these settings are used.
pub parse_cmdline_lem :
    (opts : List (ℕ × Bytes)) (s : Settings)
    → let made = (take_options opts (s, false)).0 in
      let refused =
        any_fails opts || (is_zero (made.log_dest -ℤ l_file) && is_missing made.log_dir) in
      ((refused ≡ true) × (parse_cmdline opts s ≡ halted exited))
      ⊎ ((refused ≡ false) × (parse_cmdline opts s ≡ done made))
unfolding parse_cmdline
parse_cmdline_lem opts s =
    let made = (take_options opts (s, false)).0 in
    let e = take_options-failed opts (s, false) in
    elim (Bool-cases
      (any_fails opts || (is_zero (made.log_dest -ℤ l_file) && is_missing made.log_dir))) [
        | inl y ↦ inl (y, rw e (rw y refl))
        | inr n ↦ inr (n, rw e (rw n refl))
      ]
