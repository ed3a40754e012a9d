-- ===== src/Cfg/Reading.antt =====
-- read_config of src/cfg.c: the command table, and what is completed behind the file.
use edysquelch.Prelude.{
  Option, none, some, List, [], ◌∷◌, ◌++◌, if◌then◌else◌, ℤ, pos, negsuc, is_zero, Bytes, codes,
  Outcome, done, halted, ◌>>=◌,
}
use edysquelch.CfgFile.Values.{do_string, do_int}
use edysquelch.CfgFile.{Command, read_cfgfile}
use edysquelch.Cfg.{do_interval, SoundChannels, do_sound_ch, UplinkConfig, do_uplink}

-- The global variables of the configuration; `none` is NULL.
pub record Config : Type 0 where
  pub cfgfile : Bytes
  pub pidfile : Option Bytes
  pub logdir : Option Bytes
  pub log_dir : Option Bytes
  pub fpdir : Option Bytes
  pub logname : Bytes
  pub sound_device : Option Bytes
  pub sound_in_file : Option Bytes
  pub sound_out_file : Option Bytes
  pub sound_channels : SoundChannels
  pub sound_levellog : ℤ
  pub stats_interval : ℤ
  pub expiry_interval : ℤ
  pub uplink_config : List UplinkConfig
  pub new_uplink_config : List UplinkConfig

-- A handler for the state of a process that may have stopped: a stopped one changes no more.
abbrev pub handler :
    (Config → List Bytes → Outcome (Config × ℤ)) → Outcome Config → List Bytes → Outcome Config × ℤ
handler f (halted h) ws = (halted h, pos 0)
handler f (done c) ws = elim (f c ws) [ done r ↦ (done r.0, r.1) | halted h ↦ (halted h, pos 0) ]

abbrev pub row : Bytes → (Config → List Bytes → Outcome (Config × ℤ)) → Command (Outcome Config)
row name f = record { name = name; function = handler f }

unfoldable pub cfg_cmds : List (Command (Outcome Config))
unfolding do_string do_int do_interval do_sound_ch do_uplink
cfg_cmds =
    row (codes "logdir")
      (λ c ws. let (v, r) = do_string c.logdir ws in done (record c { logdir = v }, r))
    ∷ row (codes "fingerprints")
        (λ c ws. let (v, r) = do_string c.fpdir ws in done (record c { fpdir = v }, r))
    ∷ row (codes "statsinterval") (λ c ws.
      let (v, r) = do_interval c.stats_interval ws in done (record c { stats_interval = v }, r))
    ∷ row (codes "expiryinterval") (λ c ws.
      let (v, r) = do_interval c.expiry_interval ws in done (record c { expiry_interval = v }, r))
    ∷ row (codes "uplink") (λ c ws.
      do_uplink c.new_uplink_config ws >>= λ u. done (record c { new_uplink_config = u.0 }, u.1))
    ∷ row (codes "sounddevice") (λ c ws.
      let (v, r) = do_string c.sound_device ws in done (record c { sound_device = v }, r))
    ∷ row (codes "soundinfile") (λ c ws.
      let (v, r) = do_string c.sound_in_file ws in done (record c { sound_in_file = v }, r))
    ∷ row (codes "soundoutfile") (λ c ws.
      let (v, r) = do_string c.sound_out_file ws in done (record c { sound_out_file = v }, r))
    ∷ row (codes "soundchannels") (λ c ws.
      let (v, r) = do_sound_ch c.sound_channels ws in done (record c { sound_channels = v }, r))
    ∷ row (codes "soundlevellog") (λ c ws.
      let (v, r) = do_int c.sound_levellog ws in done (record c { sound_levellog = v }, r))
    ∷ []

-- The log directory of the command line, or of the file, or the current one.
unfoldable pub chosen_logdir : Config → Bytes
chosen_logdir c = elim c.log_dir [
  | some d ↦ d
  | none ↦ elim c.logdir [ some d ↦ d | none ↦ codes "." ]
]

-- The default device, where nothing is given; no device, where a file is given too.
unfoldable pub chosen_device : Option Bytes → Option Bytes → Option Bytes
chosen_device none none = some (codes "default")
chosen_device none (some device) = some device
chosen_device (some file) device = none

unfoldable pub chosen_pidfile : Option Bytes → Bytes → Bytes → Bytes
chosen_pidfile (some p) logdir logname = p
chosen_pidfile none logdir logname = logdir ++ (codes "/" ++ (logname ++ codes ".pid"))

-- read_config behind the file.
unfoldable pub complete : Config → Config
unfolding chosen_logdir chosen_device chosen_pidfile
complete c = record c {
  logdir = some (chosen_logdir c);
  sound_device = chosen_device c.sound_in_file c.sound_device;
  uplink_config = c.new_uplink_config;
  new_uplink_config = [];
  pidfile = some (chosen_pidfile c.pidfile (chosen_logdir c) c.logname);
}

abbrev pub after_reading : Outcome Config → ℤ → Outcome (Config × ℤ)
after_reading (halted h) ret = halted h
after_reading (done c) ret = if is_zero ret then done (complete c, pos 0) else done (c, negsuc 0)

-- `fopen` gives the content of a file that opens.
unfoldable pub read_config : (Bytes → Option Bytes) → Config → Outcome (Config × ℤ)
unfolding read_cfgfile cfg_cmds complete
read_config fopen c =
    let (state, ret) = read_cfgfile fopen c.cfgfile cfg_cmds (done c) in after_reading state ret
