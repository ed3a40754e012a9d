-- ===== src/Cfg/Complete.antt =====
-- What a configuration that was read has.
use edysquelch.Prelude.{
  ◌≡◌, refl, subst, ◌⊎◌, inl, inr, Option, none, some, [], Bool-cases, ℤ, pos, is_zero, Bytes,
  codes, Outcome, done, halted,
}
use edysquelch.Cfg.Reading.{Config, chosen_device, complete, after_reading, read_config, cfg_cmds}
use edysquelch.CfgFile.{read_cfgfile}

-- Sound comes from one place: a file and no device, or a device and no file.
abbrev pub OneSource : Config → Type 0
OneSource c =
    ((f : Bytes) × (c.sound_in_file ≡ some f) × (c.sound_device ≡ none))
    ⊎ ((d : Bytes) × (c.sound_in_file ≡ none) × (c.sound_device ≡ some d))

-- The configuration as the rest of the program needs it.
pub record IsComplete (c : Config) : Type 0 where
  pub logs : (d : Bytes) × (c.logdir ≡ some d)
  pub pids : (p : Bytes) × (c.pidfile ≡ some p)
  pub one_source : OneSource c
  pub none_new : c.new_uplink_config ≡ []

option_cases : (o : Option Bytes) → (o ≡ none) ⊎ ((b : Bytes) × (o ≡ some b))
option_cases none = inl refl
option_cases (some b) = inr (b, refl)

complete-OneSource : (c : Config) → OneSource (complete c)
unfolding complete
complete-OneSource c = elim (option_cases c.sound_in_file) [
  | inr (f, e) ↦ inl (f, e, rw (e, chosen_device) refl)
  | inl e ↦ elim (option_cases c.sound_device) [
    | inr (d, e') ↦ inr (d, e, rw (e, e', chosen_device) refl)
    | inl e' ↦ inr (codes "default", e, rw (e, e', chosen_device) refl)
  ]
]

after_reading-IsComplete :
    (state : Outcome Config) (ret : ℤ) {c : Config}
    → after_reading state ret ≡ done (c, pos 0)
    → IsComplete c
after_reading-IsComplete (halted h) ret e = cc
after_reading-IsComplete (done s) ret {c} e = elim (Bool-cases (is_zero ret)) [
  | inl y ↦
      let same : complete s ≡ c = cc in
      subst IsComplete same (
        unfold complete in
        record {
          logs = (_, refl);
          pids = (_, refl);
          one_source = complete-OneSource s;
          none_new = refl;
        })
  | inr n ↦ cc
]

-- Whatever the file says, where read_config returns 0 the log directory and the pid file are set,
-- sound comes from a file or a device and not from both, and no uplink is left to be put in use.
pub read_config-IsComplete :
    (fopen : Bytes → Option Bytes) (start : Config) {c : Config}
    → read_config fopen start ≡ done (c, pos 0)
    → IsComplete c
unfolding read_config
read_config-IsComplete fopen start h =
    let read = read_cfgfile fopen start.cfgfile cfg_cmds (done start) in
    after_reading-IsComplete read.0 read.1 h
