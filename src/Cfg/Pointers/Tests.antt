-- ===== src/Cfg/Pointers/Tests.antt =====
-- The theorem on the configuration's memory at a concrete input.
use edysquelch.Prelude.{
  ℕ, ◌≡◌, refl, false, Option, none, some, List, [], ◌∷◌, pos, ◌-ℤ◌, Bytes, codes, has_prefix,
  tolower, isspace, str_case_equal,
}
use edysquelch.CfgFile.Values.{skip_space, strlwr}
use edysquelch.CfgFile.{
  c_string, word_of, behind_word, args_loop, parse_args, fits_name, find_command, cmdparse,
  fgets_loop, read_lines, first_file, read_cfgfile,
}
use edysquelch.Memory.{
  Heap, Run, runs, ◌>>=◌, stopped, corrupted, release, Allocator, hmalloc, hfree, write_text,
  hstrdup,
}
use edysquelch.Memory.Objects.{
  Sizes, filter_free, free_receiver, free_sound, filter_init_heap, init_receiver_heap, init_sound,
}
use edysquelch.Cfg.{both}
use edysquelch.Cfg.CommandLine.{Settings, take_option, take_options, parse_cmdline}
use edysquelch.Cfg.Pointers.{
  variables_start, heap_start, take_option_heap, take_options_heap, parse_cmdline_heap,
  do_string_heap, link_heap, do_uplink_heap, cfg_cmds_heap,
}
use edysquelch.Cfg.Pointers.Ending.{
  free_uplink_config_heap, device_of, choose_device, put_uplinks_in, free_config_heap,
  choose_logdir, choose_pidfile, complete_heap, read_config_heap, configure_heap, close_heap,
}

abbrev malloc : Allocator
malloc calls size = some calls

abbrev settings : Settings
settings = record {
  cfgfile = codes "edysquelch.conf";
  fork_a_daemon = false;
  logname = codes "edysquelch";
  log_dir = none;
  log_level = pos 6;
  log_dest = pos 1;
  sound_in_file = none;
  sound_out_file = none;
}

abbrev options : List (ℕ × Bytes)
options = (b'n', codes "x") ∷ (b'l', codes "b.raw") ∷ []

abbrev fopen : Bytes → Option Bytes
fopen path = some (codes "logdir a\nlogdir b\nuplink u json w\nfing c\n")

abbrev sizes : Sizes
sizes = record { of_filter = 1000; of_receiver = 70000; of_fingerprint = 40 }

abbrev live_of : Run Heap → Option (List ℕ)
live_of (runs h) = some h.live
live_of (stopped x) = none
live_of corrupted = none

-- The directory of the fingerprints is not freed.
runs_to_end :
    live_of (
      configure_heap malloc options settings fopen (variables_start, heap_start) >>= λ c.
      init_sound malloc sizes both 1020 c.1 >>= λ s. close_heap s.0 (c.0, s.1))
    ≡ some (7 ∷ [])
unfolding configure_heap close_heap init_sound init_receiver_heap filter_init_heap free_sound
    free_receiver filter_free parse_cmdline_heap take_options_heap take_option_heap hstrdup hmalloc
    write_text parse_cmdline take_options take_option read_config_heap read_cfgfile first_file
    fgets_loop read_lines cmdparse parse_args args_loop skip_space word_of behind_word isspace
    strlwr tolower find_command fits_name c_string cfg_cmds_heap do_string_heap do_uplink_heap
    link_heap hfree release str_case_equal complete_heap choose_logdir choose_device device_of
    put_uplinks_in free_uplink_config_heap choose_pidfile free_config_heap ◌-ℤ◌ has_prefix
runs_to_end = refl
