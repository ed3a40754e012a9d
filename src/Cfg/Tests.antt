-- ===== src/Cfg/Tests.antt =====
-- Runs of the handlers, and the theorems at concrete inputs.
use edysquelch.Prelude.{
  ℕ, ◌<◌, ◌≡◌, refl, ◌⊎◌, true, false, some, List, [], ◌∷◌, length, get_elem?, All, pos, negsuc,
  ◌+ℤ◌, Bytes, codes, tolower, isdigit, isspace, null_followed, done, halted, none, has_prefix,
  str_case_equal, arith,
}
use edysquelch.CfgFile.Values.{hatoll_loop, hatoll, skip_space, atoi, strlwr, do_string}
use edysquelch.CfgFile.{
  c_string, word_of, behind_word, args_loop, parse_args, fits_name, find_command, cmdparse,
  fgets_loop, read_lines, first_file, read_cfgfile,
}
use edysquelch.Cfg.{unit_of, interval_loop, parse_interval, UplinkConfig, do_uplink, mono}
use edysquelch.Cfg.Intervals.{
  Part, IsPart, FitsInt, text_of, seconds_in_all, parse_interval-text_of,
}
use edysquelch.Cfg.Reading.{
  Config, cfg_cmds, chosen_logdir, chosen_device, chosen_pidfile, complete, read_config,
}
use edysquelch.Cfg.Complete.{IsComplete, read_config-IsComplete}
use edysquelch.Cfg.Uplinks.{is_json, do_uplink_lem}

interval-runs :
    (parse_interval (codes "1h30M5") ≡ pos 5405) × (parse_interval (codes "2d") ≡ pos 172800)
unfolding parse_interval interval_loop isdigit tolower unit_of atoi skip_space isspace hatoll
    hatoll_loop ◌+ℤ◌
interval-runs = (refl, refl)

abbrev hour_and_half : List Part
hour_and_half =
    record { digits = codes "1"; unit = b'h' } ∷ record { digits = codes "30"; unit = b'M' } ∷ []

hour_and_half-IsPart : All IsPart hour_and_half
unfolding isdigit
hour_and_half-IsPart = (((refl, tt), refl), (((refl, (refl, tt)), refl), tt))

hour_and_half-FitsInt : All FitsInt hour_and_half
unfolding atoi skip_space isspace isdigit hatoll hatoll_loop tolower unit_of ◌+ℤ◌
hour_and_half-FitsInt = ((omega arith, omega arith), ((omega arith, omega arith), tt))

interval_example :
    parse_interval (text_of hour_and_half (codes "5")) ≡ seconds_in_all hour_and_half (codes "5")
interval_example =
    parse_interval-text_of hour_and_half (codes "5") hour_and_half-IsPart hour_and_half-FitsInt
      (unfold isdigit in (refl, tt))
      (unfold atoi skip_space isspace isdigit hatoll hatoll_loop ◌+ℤ◌ in omega arith)

abbrev line : List Bytes
line = codes "uplink" ∷ codes "a" ∷ codes "JSON" ∷ []

uplink_example :
    ((is_json line ≡ true) × (length line ≡ 3) × (do_uplink [] line ≡ halted null_followed))
    ⊎ ((is_json line ≡ true)
        × (3 < length line)
        × ((l : UplinkConfig) × (do_uplink [] line ≡ done (l ∷ [], pos 0))
            × (get_elem? line 1 ≡ some l.name)
            × (get_elem? line 3 ≡ some l.url)))
    ⊎ ((is_json line ≡ false) × ((k : ℕ) × (do_uplink [] line ≡ done ([], negsuc k))))
uplink_example = do_uplink_lem [] line

abbrev start : Config
start = record {
  cfgfile = codes "edysquelch.conf";
  pidfile = none;
  logdir = none;
  log_dir = none;
  fpdir = none;
  logname = codes "edysquelch";
  sound_device = none;
  sound_in_file = none;
  sound_out_file = none;
  sound_channels = mono;
  sound_levellog = pos 0;
  stats_interval = pos 0;
  expiry_interval = pos 0;
  uplink_config = [];
  new_uplink_config = [];
}

abbrev file : Bytes
file = codes "# test\nLogDir logs\nsoundinfile a.raw\nUplink x json http://u\n"

abbrev configured : Config
configured = record start {
  pidfile = some (codes "logs/edysquelch.pid");
  logdir = some (codes "logs");
  sound_in_file = some (codes "a.raw");
  uplink_config = record { name = codes "x"; url = codes "http://u" } ∷ [];
}

read_config-file : read_config (λ f. some file) start ≡ done (configured, pos 0)
unfolding read_config read_cfgfile first_file fgets_loop read_lines cmdparse parse_args args_loop
    skip_space word_of behind_word isspace strlwr tolower find_command fits_name has_prefix cfg_cmds
    do_string do_uplink str_case_equal c_string complete chosen_logdir chosen_device chosen_pidfile
read_config-file = refl

read_config-IsComplete_example : IsComplete configured
read_config-IsComplete_example = read_config-IsComplete (λ f. some file) start read_config-file
