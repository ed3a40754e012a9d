-- ===== src/Cfg/Pointers/Ending.antt =====
-- read_config behind the file, and free_config, with the strings as pointers, and main of
-- src/edysquelch.c up to read_config and from the freeing of its buffer on.
use edysquelch.Prelude.{
  ℕ, ◌+◌, not, ◌&&◌, Option, List, [], ◌∷◌, ◌++◌, if◌then◌else◌, length, ℤ, pos, negsuc, is_zero,
  Bytes, codes, exited,
}
use edysquelch.Memory.{
  Static, def_cfgfile, def_logname, def_sound_device, Pointer, null, static, block, Heap, Run, runs,
  stopped, ◌>>=◌, Allocator, hmalloc, hfree, write_text, hstrdup, text_at,
}
use edysquelch.Memory.Objects.{SoundBlocks, free_sound}
use edysquelch.CfgFile.{read_cfgfile}
use edysquelch.Cfg.CommandLine.{Settings}
use edysquelch.Cfg.Pointers.{
  UplinkNode, is_null, is_default, State, assign, parse_cmdline_heap, cfg_cmds_heap,
}

-- free_uplink_config: what is left of the list is empty.
unfoldable pub free_uplink_config_heap : List UplinkNode → Heap → Run Heap
unfolding hfree
free_uplink_config_heap [] h = runs h
free_uplink_config_heap (this ∷ lc) h = do
  h1 ← hfree this.name h
  h2 ← hfree this.url h1
  h3 ← hfree this.node h2
  free_uplink_config_heap lc h3

-- The default device where nothing is given; the device is freed and left out where a file is
-- given too.
unfoldable pub device_of : Pointer → Pointer → Heap → Run (Pointer × Heap)
unfolding hfree
device_of sound_in_file sound_device h =
    let device =
      if is_null sound_in_file && is_null sound_device
      then static def_sound_device
      else sound_device in
    if not (is_null sound_in_file) && not (is_null device)
    then (do
      h1 ← if is_default device def_sound_device then runs h else hfree device h
      runs (null, h1))
    else runs (device, h)

unfoldable pub choose_device : State → Run State
unfolding device_of
choose_device (v, h) = do
  (device, h1) ← device_of v.sound_in_file v.sound_device h
  runs (record v { sound_device = device }, h1)

unfoldable pub put_uplinks_in : State → Run State
unfolding free_uplink_config_heap
put_uplinks_in (v, h) = do
  h1 ← free_uplink_config_heap v.uplink_config h
  runs (record v { uplink_config = v.new_uplink_config; new_uplink_config = [] }, h1)

-- hfree of a variable that is not at its default.
abbrev pub free_unless : Static → Pointer → Heap → Run Heap
free_unless s x h = if is_default x s then runs h else hfree x h

-- The variables still point at what is freed.
unfoldable pub free_config_heap : State → Run Heap
unfolding hfree free_uplink_config_heap
free_config_heap (v, h) = do
  h1 ← hfree v.logdir h
  h2 ← hfree v.pidfile h1
  h3 ← free_unless def_cfgfile v.cfgfile h2
  h4 ← free_unless def_logname v.logname h3
  h5 ← free_unless def_sound_device v.sound_device h4
  h6 ← hfree v.sound_in_file h5
  h7 ← hfree v.sound_out_file h6
  free_uplink_config_heap v.uplink_config h7

module _ (malloc : Allocator) where
  unfoldable pub choose_logdir : State → Run State
  unfolding hstrdup
  choose_logdir (v, h) =
      if not (is_null v.log_dir)
      then assign malloc (λ x. record v { logdir = x }) (text_at v.log_dir h) h
      else if is_null v.logdir
      then assign malloc (λ x. record v { logdir = x }) (codes ".") h
      else runs (v, h)

  unfoldable pub choose_pidfile : State → Run State
  unfolding hmalloc write_text
  choose_pidfile (v, h) =
      let dir = text_at v.logdir h in
      let name = text_at v.logname h in
      if is_null v.pidfile
      then (do
        (p, h1) ← hmalloc malloc (length dir + 1 + length name + 3 + 2) h
        h2 ← write_text p (dir ++ (codes "/" ++ (name ++ codes ".pid"))) h1
        runs (record v { pidfile = block p }, h2))
      else runs (v, h)

  -- read_config behind the file.
  unfoldable pub complete_heap : State → Run State
  unfolding choose_logdir choose_device put_uplinks_in choose_pidfile
  complete_heap state = choose_logdir state >>= choose_device >>= put_uplinks_in >>= choose_pidfile

  unfoldable pub read_config_heap : (Bytes → Option Bytes) → State → Run (State × ℤ)
  unfolding read_cfgfile cfg_cmds_heap complete_heap
  read_config_heap fopen (v, h) =
      let (state, ret) =
        read_cfgfile fopen (text_at v.cfgfile h) (cfg_cmds_heap malloc) (runs (v, h)) in
      state >>= λ now.
      if is_zero ret
      then (complete_heap now >>= λ after. runs (after, pos 0))
      else runs (now, negsuc 0)

  -- The start of main: the command line and read_config, whose failure is an exit. The log that is
  -- opened in between keeps its own strings.
  unfoldable pub configure_heap :
      List (ℕ × Bytes) → Settings → (Bytes → Option Bytes) → State → Run State
  unfolding parse_cmdline_heap read_config_heap
  configure_heap opts settings fopen state = do
    parsed ← parse_cmdline_heap malloc opts settings state
    (read, ret) ← read_config_heap fopen parsed
    if is_zero ret then runs read else stopped exited

-- The end of main, behind its loop: the buffer, the receivers and the configuration are freed.
unfoldable pub close_heap : SoundBlocks → State → Run Heap
unfolding free_sound free_config_heap
close_heap sound (v, h) = free_sound sound h >>= λ h1. free_config_heap (v, h1)
