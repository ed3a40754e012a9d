-- ===== src/Start/Tests.antt =====
-- A start of the program on a sound file with one channel and one fingerprint.
use edysquelch.Prelude.{
  ◌*◌, ◌≡◌, refl, inl, inr, true, false, none, some, List, [], ◌∷◌, arith, ℤ, pos, negsuc, pos_part,
  ◌+ℤ◌, codes, has_prefix, strstr, tolower, isspace, str_case_equal, done, ◌-ℤ◌,
}
use edysquelch.OutJson.{Tm}
use edysquelch.RwLock.{rwl_wrlock, rwl_wrunlock}
use edysquelch.RwLock.Sections.{lock_of}
use edysquelch.Filter.{FloatOps}
use edysquelch.Fingerpori.{
  sample_amplitude_sum, sample_amplitude_max, finish_load, contains, load_content, check_read,
  fingerprint_load, load_names, fingerprints_load,
}
use edysquelch.CfgFile.Values.{skip_space, strlwr, do_string}
use edysquelch.CfgFile.{
  c_string, word_of, behind_word, args_loop, parse_args, fits_name, find_command, cmdparse,
  fgets_loop, read_lines, first_file, read_cfgfile,
}
use edysquelch.Cfg.{mono, both, do_sound_ch, do_uplink}
use edysquelch.Cfg.CommandLine.{Settings, take_option, take_options, parse_cmdline}
use edysquelch.Cfg.Reading.{
  Config, cfg_cmds, chosen_logdir, chosen_device, chosen_pidfile, complete, read_config,
}
use edysquelch.Log.{none_at_all, on_stderr, Log, write_lock, open_dest, open_log}
use edysquelch.Log.Pid.{writepid}
use edysquelch.Input.{Device}
use edysquelch.Main.{Program, Read, set_up, main_loop}
use edysquelch.Start.{goes, World, daemonise, open_sound, Session, prepare, start}
use edysquelch.Start.Process.{Ended, main, main-returns}
use edysquelch.Log.Opening.{IsClosed}
use edysquelch.Start.Running.{Started}
use edysquelch.Start.Stereo.{main-returns-stereo}
use edysquelch.Main.Stereo.{BothInStep}
use edysquelch.Receiver.Run.Stereo.{Fits-device}

abbrev int_ops : FloatOps
int_ops = record {
  Float = ℤ;
  zero_float = pos 0;
  add = ◌+ℤ◌;
  mul = λ a b. pos (pos_part a * pos_part b);
  of_short = λ x. x;
  to_short = λ x. x;
}

abbrev noon : Tm
noon = record { tm_year = 112; tm_mon = 5; tm_mday = 21; tm_hour = 12; tm_min = 0; tm_sec = 7 }

abbrev answers : Device
answers = record {
  any = pos 0;
  set_access = pos 0;
  set_format = pos 0;
  set_channels = pos 0;
  set_rate_near = pos 0;
  set_period_size_near = pos 0;
  params = pos 0;
  period_size = pos 4096;
}

abbrev world : World
world = record {
  options = (b'f', codes "") ∷ [];
  log_env = record {
    opened = pos 4;
    close_done = true;
    tm = noon;
    usec = 1500;
    pid = 321;
    thread = 9;
  };
  fopen = λ path. some (codes "LogDir logs\nsoundinfile a.raw\n");
  fork = pos 0;
  pid_calls = record { opened = true; printed = true; closed = true };
  scandir = some (codes "tone.raw" ∷ []);
  files = λ name. record {
    opened = true;
    stat_done = true;
    size = 4;
    nread = pos 4;
    content = λ i. pos 3;
    sum_garbage = 0;
    tp_garbage = λ i. pos 0;
  };
  thread_created = pos 0;
  snd_pcm_open = pos 0;
  device = answers;
  in_opens = true;
  out_opens = false;
}

abbrev settings : Settings
settings = record {
  cfgfile = codes "edysquelch.conf";
  fork_a_daemon = false;
  logname = codes "edysquelch";
  log_dir = none;
  log_level = pos 6;
  log_dest = pos 1;
  sound_in_file = none;
  sound_out_file = none;
}

abbrev config : Config
config = record {
  cfgfile = codes "edysquelch.conf";
  pidfile = none;
  logdir = none;
  log_dir = none;
  fpdir = none;
  logname = codes "edysquelch";
  sound_device = none;
  sound_in_file = none;
  sound_out_file = none;
  sound_channels = mono;
  sound_levellog = pos 0;
  stats_interval = pos 0;
  expiry_interval = pos 0;
  uplink_config = [];
  new_uplink_config = [];
}

abbrev log : Log
log = record {
  log_dest = none_at_all;
  log_level = pos 6;
  log_dir = none;
  log_name = none;
  log_fname = none;
  log_file = negsuc 0;
  lock = lock_of false 0 0 0;
}

abbrev session : Session int_ops
session = record {
  config = record config {
    pidfile = some (codes "logs/edysquelch.pid");
    logdir = some (codes "logs");
    sound_in_file = some (codes "a.raw");
  };
  log = record log { log_dest = on_stderr; log_name = some (codes "edysquelch") };
  fps =
      record { name = codes "tone.raw"; samples = λ i. pos 3; len = 2; ampl_avg = 3; ampl_max = 3 }
      ∷ [];
  program = set_up int_ops mono (λ i. pos 1);
  from_file = true;
  buffer_l = pos 1020;
  records = false;
}

starts : start int_ops world (λ i. pos 1) settings config log ≡ goes session
unfolding start prepare parse_cmdline take_options take_option open_log write_lock rwl_wrlock
    rwl_wrunlock open_dest daemonise writepid open_sound fingerprints_load load_names
    fingerprint_load check_read load_content contains finish_load strstr has_prefix
    sample_amplitude_sum sample_amplitude_max ◌-ℤ◌ read_config read_cfgfile first_file fgets_loop
    read_lines cmdparse parse_args args_loop skip_space word_of behind_word isspace strlwr tolower
    find_command fits_name cfg_cmds do_string do_uplink str_case_equal c_string complete
    chosen_logdir chosen_device chosen_pidfile
starts = refl

abbrev read_of : ℤ → Read int_ops
read_of n = record {
  buffer_read = n;
  buffer = λ i. pos i;
  env = record {
    fps = session.fps;
    sound_levellog = pos 0;
    now = pos 1000;
    stack = λ i j. pos 0;
    garbage = λ i. pos 0;
  };
}

abbrev reads : List (Read int_ops)
reads = read_of (pos 1020) ∷ read_of (pos 17) ∷ read_of (pos 0) ∷ []

main-returns_example :
    Started int_ops world (λ i. pos 1) session
    × (p : Program int_ops) × (e : Ended int_ops) × (main_loop int_ops true mono reads
          (set_up int_ops mono (λ i. pos 1))
        ≡ done p)
    × (main int_ops world (λ i. pos 1) settings config log reads (pos 0) ≡ goes e)
    × (e.code ≡ pos 0)
    × (e.events ≡ p.events)
    × (e.config.uplink_config ≡ [])
    × IsClosed session.log e.log
main-returns_example =
    main-returns int_ops world (λ i. pos 1) settings config log session reads (pos 0) (0, 0, refl)
      starts refl (omega arith)
      ((omega arith, refl), ((omega arith, refl), ((omega arith, refl), tt)))

-- The same start with both channels.
abbrev world_two : World
world_two = record world {
  fopen = λ path. some (codes "LogDir logs\nsoundinfile a.raw\nsoundchannels both\n");
}

abbrev session_two : Session int_ops
session_two = record session {
  config = record session.config { sound_channels = both };
  program = set_up int_ops both (λ i. pos 1);
}

starts_two : start int_ops world_two (λ i. pos 1) settings config log ≡ goes session_two
unfolding start prepare parse_cmdline take_options take_option open_log write_lock rwl_wrlock
    rwl_wrunlock open_dest daemonise writepid open_sound fingerprints_load load_names
    fingerprint_load check_read load_content contains finish_load strstr has_prefix
    sample_amplitude_sum sample_amplitude_max ◌-ℤ◌ read_config read_cfgfile first_file fgets_loop
    read_lines cmdparse parse_args args_loop skip_space word_of behind_word isspace strlwr tolower
    find_command fits_name cfg_cmds do_string do_uplink do_sound_ch str_case_equal c_string complete
    chosen_logdir chosen_device chosen_pidfile
starts_two = refl

abbrev reads_two : List (Read int_ops)
reads_two = read_of (pos 1020) ∷ read_of (pos 1020) ∷ read_of (pos 0) ∷ []

main-returns-stereo_example :
    Started int_ops world_two (λ i. pos 1) session_two
    × (p : Program int_ops) × (e : Ended int_ops) × (main_loop int_ops true both reads_two
          (set_up int_ops both (λ i. pos 1))
        ≡ done p)
    × BothInStep int_ops 1020 p
    × (main int_ops world_two (λ i. pos 1) settings config log reads_two (pos 0) ≡ goes e)
    × (e.code ≡ pos 0)
    × (e.events ≡ p.events)
    × (e.config.uplink_config ≡ [])
    × IsClosed session_two.log e.log
main-returns-stereo_example =
    main-returns-stereo int_ops world_two (λ i. pos 1) settings config log session_two reads_two
      (pos 0) (0, 0, refl) starts_two refl (Fits-device, omega arith)
      ((inl refl, refl), ((inl refl, refl), ((inr refl, refl), tt)))
