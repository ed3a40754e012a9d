-- ===== src/Cfg/Pointers.antt =====
-- src/cfg.c once more, with its strings as pointers into the memory: what is allocated and freed.
pub mod Ending
pub mod Owners
pub mod Keeping
pub mod Options
pub mod Freeing
pub mod Leaving
mod Tests
use edysquelch.Prelude.{
  ℕ, ◌*◌, Bool, true, false, List, [], ◌∷◌, ◌==◌, if◌then◌else◌, ℤ, pos, negsuc, Bytes, codes,
  str_case_equal, null_followed, Outcome, done, halted,
}
use edysquelch.Memory.{
  Static, def_cfgfile, def_logname, def_sound_device, Pointer, null, static, block, Heap, Run, runs,
  stopped, corrupted, ◌>>=◌, Allocator, hmalloc, hfree, hstrdup,
}
use edysquelch.Cfg.CommandLine.{Settings, parse_cmdline}
use edysquelch.CfgFile.{Command}
use edysquelch.Cfg.{do_sound_ch, mono}
use edysquelch.CfgFile.Values.{do_int}

-- struct uplink_config_t with its address.
pub record UplinkNode : Type 0 where
  pub node : Pointer
  pub name : Pointer
  pub url : Pointer

-- The variables that are pointers.
pub record Variables : Type 0 where
  pub cfgfile : Pointer
  pub pidfile : Pointer
  pub logdir : Pointer
  pub log_dir : Pointer
  pub fpdir : Pointer
  pub logname : Pointer
  pub sound_device : Pointer
  pub sound_in_file : Pointer
  pub sound_out_file : Pointer
  pub uplink_config : List UplinkNode
  pub new_uplink_config : List UplinkNode

-- Their values when the program starts.
abbrev pub variables_start : Variables
variables_start = record {
  cfgfile = static def_cfgfile;
  pidfile = null;
  logdir = null;
  log_dir = null;
  fpdir = null;
  logname = static def_logname;
  sound_device = null;
  sound_in_file = null;
  sound_out_file = null;
  uplink_config = [];
  new_uplink_config = [];
}

abbrev pub heap_start : Heap
heap_start = record { live = []; size = λ p. 0; text = λ p. []; calls = 0; mem_panic = false }

abbrev pub is_null : Pointer → Bool
is_null null = true
is_null (static s) = false
is_null (block p) = false

-- x == def_cfgfile and so on
abbrev pub is_default : Pointer → Static → Bool
is_default (static def_cfgfile) def_cfgfile = true
is_default (static def_logname) def_logname = true
is_default (static def_sound_device) def_sound_device = true
is_default _ _ = false

-- Where the variables and the memory stand; a stopped process changes no more.
abbrev pub State : Type 0
State = Variables × Heap

-- sizeof(struct uplink_config_t), of five fields of 8 bytes.
abbrev pub uplink_size : ℕ
uplink_size = 5 * 8

-- The new uplink in front of the others.
abbrev pub add_uplink : UplinkNode → Variables → Variables
add_uplink l v = record v { new_uplink_config = l ∷ v.new_uplink_config }

-- A state with the value returned; a process that stopped returns nothing more.
abbrev pub settle : Run (State × ℤ) → Run State × ℤ
settle (runs r) = (runs r.0, r.1)
settle (stopped x) = (stopped x, pos 0)
settle corrupted = (corrupted, pos 0)

abbrev pub unless_exits : Outcome Settings → State → Run State
unless_exits (done s) state = runs state
unless_exits (halted x) state = stopped x

module _ (malloc : Allocator) where
  -- A variable set to hstrdup of a text.
  abbrev pub assign : (Pointer → Variables) → Bytes → Heap → Run State
  assign place s h = hstrdup malloc s h >>= λ r. runs (place r.0, r.1)

  unfoldable pub take_option_heap : ℕ → Bytes → State → Run State
  unfolding hstrdup
  take_option_heap c arg (v, h) =
      if c == b'c'
      then assign (λ x. record v { cfgfile = x }) arg h
      else if c == b'n'
      then assign (λ x. record v { logname = x }) arg h
      else if c == b'r'
      then assign (λ x. record v { log_dir = x }) arg h
      else if c == b'l'
      then assign (λ x. record v { sound_in_file = x }) arg h
      else if c == b's'
      then assign (λ x. record v { sound_out_file = x }) arg h
      else runs (v, h)

  unfoldable pub take_options_heap : List (ℕ × Bytes) → State → Run State
  unfolding take_option_heap
  take_options_heap [] state = runs state
  take_options_heap ((c, arg) ∷ opts) state =
      take_option_heap c arg state >>= take_options_heap opts

  -- The program exits for the same options as in parse_cmdline.
  unfoldable pub parse_cmdline_heap : List (ℕ × Bytes) → Settings → State → Run State
  unfolding take_options_heap parse_cmdline
  parse_cmdline_heap opts settings state =
      take_options_heap opts state >>= unless_exits (parse_cmdline opts settings)

  -- do_string with the variable's value and how it is set: the old string is freed first.
  unfoldable pub do_string_heap :
      Pointer → (Pointer → Variables) → Variables → List Bytes → Heap → Run (State × ℤ)
  unfolding hfree hstrdup
  do_string_heap dest place v (w ∷ s ∷ rest) h = do
    h1 ← if is_null dest then runs h else hfree dest h
    state ← assign place s h1
    runs (state, pos 0)
  do_string_heap dest place v _ h = runs ((v, h), negsuc 0)

  -- parse_interval works on a copy that it frees.
  unfoldable pub do_interval_heap : Variables → List Bytes → Heap → Run (State × ℤ)
  unfolding hfree hstrdup
  do_interval_heap v (w ∷ s ∷ rest) h = do
    (copy, h1) ← hstrdup malloc s h
    h2 ← hfree copy h1
    runs ((v, h2), pos 0)
  do_interval_heap v _ h = runs ((v, h), negsuc 0)

  -- The url and the list, for a new uplink with its block and its name.
  unfoldable pub link_heap : Variables → Pointer → Pointer → List Bytes → Heap → Run (State × ℤ)
  unfolding hstrdup
  link_heap v node name [] h = stopped null_followed
  link_heap v node name (url ∷ rest) h = do
    (link, h1) ← hstrdup malloc url h
    runs ((add_uplink (record { node = node; name = name; url = link }) v, h1), pos 0)

  -- With three words argv[3] is the NULL behind them, which hstrdup follows.
  unfoldable pub do_uplink_heap : Variables → List Bytes → Heap → Run (State × ℤ)
  unfolding hmalloc hstrdup link_heap str_case_equal
  do_uplink_heap v (w ∷ label ∷ proto ∷ rest) h =
      if str_case_equal proto (codes "json")
      then (do
        (p, h1) ← hmalloc malloc uplink_size h
        (name, h2) ← hstrdup malloc label h1
        link_heap v (block p) name rest h2)
      else runs ((v, h), negsuc 1)
  do_uplink_heap v _ h = runs ((v, h), negsuc 0)

  -- A handler for a process that may have stopped: a stopped one does no more.
  abbrev pub handler_heap :
      (Variables → List Bytes → Heap → Run (State × ℤ)) → Run State → List Bytes → Run State × ℤ
  handler_heap f (stopped x) ws = (stopped x, pos 0)
  handler_heap f corrupted ws = (corrupted, pos 0)
  handler_heap f (runs state) ws = settle (f state.0 ws state.1)

  abbrev pub row_heap :
      Bytes → (Variables → List Bytes → Heap → Run (State × ℤ)) → Command (Run State)
  row_heap name f = record { name = name; function = handler_heap f }

  -- The command table; two rows set numbers only.
  unfoldable pub cfg_cmds_heap : List (Command (Run State))
  unfolding do_string_heap do_interval_heap do_uplink_heap do_sound_ch do_int
  cfg_cmds_heap =
      row_heap (codes "logdir") (λ v. do_string_heap v.logdir (λ x. record v { logdir = x }) v)
      ∷ row_heap (codes "fingerprints")
          (λ v. do_string_heap v.fpdir (λ x. record v { fpdir = x }) v)
      ∷ row_heap (codes "statsinterval") do_interval_heap
      ∷ row_heap (codes "expiryinterval") do_interval_heap
      ∷ row_heap (codes "uplink") do_uplink_heap
      ∷ row_heap (codes "sounddevice")
          (λ v. do_string_heap v.sound_device (λ x. record v { sound_device = x }) v)
      ∷ row_heap (codes "soundinfile")
          (λ v. do_string_heap v.sound_in_file (λ x. record v { sound_in_file = x }) v)
      ∷ row_heap (codes "soundoutfile")
          (λ v. do_string_heap v.sound_out_file (λ x. record v { sound_out_file = x }) v)
      ∷ row_heap (codes "soundchannels") (λ v ws h. runs ((v, h), (do_sound_ch mono ws).1))
      ∷ row_heap (codes "soundlevellog") (λ v ws h. runs ((v, h), (do_int (pos 0) ws).1))
      ∷ []
