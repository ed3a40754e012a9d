-- ===== src/Start.antt =====
-- src/edysquelch.c: main up to its loop. What the system answers is a parameter, and the lines for
-- the log are left out, which leave the log as it is.
pub mod Running
pub mod Stereo
pub mod Process
mod Tests
use edysquelch.Prelude.{
  ℕ, zero, suc, ◌-◌, ◌%◌, Bool, true, false, not, ◌&&◌, Option, none, some, List, [], ◌∷◌, ◌==◌,
  if◌then◌else◌, ℤ, pos, negsuc, is_zero, Bytes, Halt, divided_by_zero, aborted, null_followed,
  exited, blocked, Outcome, done, halted,
}
use edysquelch.Filter.{FloatOps}
use edysquelch.Fingerpori.{Fingerprint, FileView, fingerprints_load}
use edysquelch.Cfg.CommandLine.{Settings, is_missing, parse_cmdline}
use edysquelch.Cfg.Reading.{Config, read_config}
use edysquelch.Log.{Log, LogDest, none_at_all, on_stderr, on_syslog, in_file, LogEnv, open_log}
use edysquelch.Log.Pid.{PidCalls, writepid}
use edysquelch.OutJson.{jsonout_init}
use edysquelch.Input.{Device, gives_up, buffer_of, input_initialize, failed}
use edysquelch.Main.{Program, set_up}

-- How a part of main ends: the process ends with a status, something stops it, or it goes on.
pub data Stage (A : Type 0) : Type 0 where
  leaves : ℤ → Stage A
  fails : Halt → Stage A
  goes : A → Stage A

infixl 5 ◌>>=◌
abbrev pub ◌>>=◌ : {A B : Type 0} → Stage A → (A → Stage B) → Stage B
leaves code >>= f = leaves code
fails h >>= f = fails h
goes a >>= f = f a

infixl 5 ◌>>◌
abbrev pub ◌>>◌ : {A B : Type 0} → Stage A → Stage B → Stage B
m >> next = m >>= λ _. next

-- exit(1) of a part ends the process.
abbrev pub part : {A : Type 0} → Outcome A → Stage A
part (done a) = goes a
part (halted h) = elim h [
  | exited ↦ leaves (pos 1)
  | divided_by_zero ↦ fails divided_by_zero
  | aborted ↦ fails aborted
  | null_followed ↦ fails null_followed
  | blocked ↦ fails blocked
]

-- What the system answers while the program starts.
pub record World : Type 0 where
  pub options : List (ℕ × Bytes)
  pub log_env : LogEnv
  pub fopen : Bytes → Option Bytes
  pub fork : ℤ
  pub pid_calls : PidCalls
  pub scandir : Option (List Bytes)
  pub files : Bytes → FileView
  pub thread_created : ℤ
  pub snd_pcm_open : ℤ
  pub device : Device
  pub in_opens : Bool
  pub out_opens : Bool

-- The variables that the command line and the configuration share, and those of the log.
abbrev pub with_settings : Settings → Config → Config
with_settings s c = record c {
  cfgfile = s.cfgfile;
  logname = s.logname;
  log_dir = s.log_dir;
  sound_in_file = s.sound_in_file;
  sound_out_file = s.sound_out_file;
}

abbrev pub dest_of : ℤ → LogDest
dest_of (pos (suc zero)) = on_stderr
dest_of (pos (suc (suc zero))) = on_syslog
dest_of (pos (suc (suc (suc zero)))) = in_file
dest_of _ = none_at_all

abbrev pub log_with : Settings → Log → Log
log_with s log = record log {
  log_level = s.log_level;
  log_dest = dest_of s.log_dest;
  log_dir = s.log_dir;
}

-- The daemon: the parent leaves with 0.
unfoldable pub daemonise : Bool → ℤ → Stage Unit
daemonise false pid = goes tt
daemonise true (negsuc k) = leaves (pos 1)
daemonise true (pos zero) = goes tt
daemonise true (pos (suc n)) = leaves (pos 0)

-- Where sound comes from: whether it is a file, and the frames of the buffer.
unfoldable pub open_sound : World → Config → Stage (Bool × ℤ)
unfolding input_initialize
open_sound w c = elim c.sound_device [
  | some device ↦
      if failed w.snd_pcm_open
      then leaves (negsuc 0)
      else elim (input_initialize c.sound_channels w.device) [
        | gives_up call ↦ leaves (negsuc 0)
        | buffer_of buffer_l bytes ↦ goes (false, buffer_l)
      ]
  | none ↦ elim c.sound_in_file [
    | some file ↦ if w.in_opens then goes (true, pos (1024 - 1024 % 5)) else leaves (negsuc 0)
    | none ↦ leaves (negsuc 0)
  ]
]

abbrev pub loaded : Option (List Fingerprint × ℕ) → Stage (List Fingerprint)
loaded none = fails divided_by_zero
loaded (some (fps, ret)) = goes fps

abbrev pub has_uplinks : Config → Bool
has_uplinks c = elim c.uplink_config [ [] ↦ false | _ ∷ _ ↦ true ]

abbrev pub fpdir_of : Config → Bytes
fpdir_of c = elim c.fpdir [ none ↦ [] | some d ↦ d ]

-- A condition that ends the process with a status, where it holds.
abbrev pub unless : Bool → ℤ → Stage Unit
unless true code = leaves code
unless false code = goes tt

module _ (ops : FloatOps) where
  -- What main holds when it enters its loop.
  pub record Session : Type 0 where
    pub config : Config
    pub log : Log
    pub fps : List Fingerprint
    pub program : Program ops
    pub from_file : Bool
    pub buffer_l : ℤ
    pub records : Bool

  -- Behind the configuration: pid file, fingerprints, uplinks, receivers and sound.
  unfoldable pub prepare : World → (ℕ → ops.Float) → Config → Log → Stage Session
  unfolding writepid fingerprints_load open_sound jsonout_init
  prepare w coeffs_sql c log = do
    unless ((writepid w.pid_calls w.log_env.pid).1 == 0) (pos 1)
    fps ← loaded (fingerprints_load (fpdir_of c) w.files w.scandir [])
    unless (has_uplinks c && not (is_zero (jsonout_init w.thread_created))) (pos 1)
    (from_file, buffer_l) ← open_sound w c
    let records = not (is_missing c.sound_out_file)
    unless (records && not w.out_opens) (negsuc 0)
    goes (record {
      config = c;
      log = log;
      fps = fps;
      program = set_up ops c.sound_channels coeffs_sql;
      from_file = from_file;
      buffer_l = buffer_l;
      records = records;
    })

  unfoldable pub start : World → (ℕ → ops.Float) → Settings → Config → Log → Stage Session
  unfolding prepare open_log parse_cmdline read_config daemonise
  start w coeffs_sql settings0 config0 log0 = do
    settings ← part (parse_cmdline w.options settings0)
    (log, outs) ← part (open_log w.log_env settings.logname false (log_with settings log0))
    (c, ret) ← part (read_config w.fopen (with_settings settings config0))
    unless (not (is_zero ret)) (pos 1)
    daemonise settings.fork_a_daemon w.fork
    prepare w coeffs_sql c log
