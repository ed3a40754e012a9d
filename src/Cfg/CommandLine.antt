-- ===== src/Cfg/CommandLine.antt =====
-- parse_cmdline of src/cfg.c and pick_loglevel of src/hlog.c. getopt gives each option's character
-- with its argument.
use edysquelch.Prelude.{
  ℕ, suc, Bool, true, false, ◌&&◌, ◌||◌, Option, none, some, List, [], ◌∷◌, ◌==◌, if◌then◌else◌, ℤ,
  pos, negsuc, ◌-ℤ◌, is_zero, Bytes, codes, str_case_equal, exited, Outcome, done, halted,
}

unfoldable pub pick_loop : Bytes → ℕ → List Bytes → ℤ
unfolding str_case_equal
pick_loop s i [] = negsuc 0
pick_loop s i (n ∷ names) = if str_case_equal s n then pos i else pick_loop s (suc i) names

unfoldable pub pick_loglevel : Bytes → List Bytes → ℤ
unfolding pick_loop
pick_loglevel s names = pick_loop s 0 names

abbrev pub log_levelnames : List Bytes
log_levelnames =
    codes "EMERG"
    ∷ codes "ALERT"
    ∷ codes "CRIT"
    ∷ codes "ERR"
    ∷ codes "WARNING"
    ∷ codes "NOTICE"
    ∷ codes "INFO"
    ∷ codes "DEBUG"
    ∷ []

abbrev pub log_destnames : List Bytes
log_destnames = codes "none" ∷ codes "stderr" ∷ codes "syslog" ∷ codes "file" ∷ []

-- L_FILE
abbrev pub l_file : ℤ
l_file = pos 3

-- The variables that the command line sets.
pub record Settings : Type 0 where
  pub cfgfile : Bytes
  pub fork_a_daemon : Bool
  pub logname : Bytes
  pub log_dir : Option Bytes
  pub log_level : ℤ
  pub log_dest : ℤ
  pub sound_in_file : Option Bytes
  pub sound_out_file : Option Bytes

-- One round of the switch: the variables, and `failed`.
unfoldable pub take_option : ℕ → Bytes → Settings × Bool → Settings × Bool
unfolding pick_loglevel
take_option c arg (s, bad) =
    if c == b'c'
    then (record s { cfgfile = arg }, bad)
    else if c == b'f'
    then (record s { fork_a_daemon = true }, bad)
    else if c == b'n'
    then (record s { logname = arg }, bad)
    else if c == b'r'
    then (record s { log_dir = some arg }, bad)
    else if c == b'e'
    then elim (pick_loglevel arg log_levelnames) [
      | pos i ↦ (record s { log_level = pos i }, bad)
      | negsuc k ↦ (s, true)
    ]
    else if c == b'o'
    then elim (pick_loglevel arg log_destnames) [
      | pos i ↦ (record s { log_dest = pos i }, bad)
      | negsuc k ↦ (s, true)
    ]
    else if c == b'l'
    then (record s { sound_in_file = some arg }, bad)
    else if c == b's'
    then (record s { sound_out_file = some arg }, bad)
    else if c == b'?' || c == b'h'
    then (s, true)
    else (s, bad)

unfoldable pub take_options : List (ℕ × Bytes) → Settings × Bool → Settings × Bool
take_options [] state = state
take_options ((c, arg) ∷ opts) state = take_options opts (take_option c arg state)

abbrev pub is_missing : Option Bytes → Bool
is_missing none = true
is_missing (some d) = false

-- A log file without a directory fails too; a failure prints the help text and exits.
unfoldable pub parse_cmdline : List (ℕ × Bytes) → Settings → Outcome Settings
unfolding take_options
parse_cmdline opts s =
    let (s', bad) = take_options opts (s, false) in
    if bad || (is_zero (s'.log_dest -ℤ l_file) && is_missing s'.log_dir)
    then halted exited
    else done s'
