-- ===== src/Cfg/Pointers/Options.antt =====
-- An option of the command line loses one block at most.
use edysquelch.Prelude.{
  ℕ, ◌+◌, ◌≤◌, ◌≡◌, subst, List, [], ◌∷◌, arith, ◌==◌, length, Bytes, Outcome, done, halted,
}
use edysquelch.Memory.{Pointer, Heap, Allocator}
use edysquelch.Memory.Safety.{Safe, Safe->>=, Safe-weaken, if-Safe}
use edysquelch.Cfg.CommandLine.{Settings, parse_cmdline}
use edysquelch.Cfg.Pointers.{
  Variables, State, unless_exits, assign, take_option_heap, take_options_heap, parse_cmdline_heap,
}
use edysquelch.Cfg.Pointers.Owners.{
  IsPlain, Owned, Settable, cfgfile-Settable, log_dir-Settable, logname-Settable,
  sound_in_file-Settable, sound_out_file-Settable, assign-Owned,
}

-- The blocks are owned, with at most so many lost.
abbrev pub OwnedBut : (Pointer → Type 0) → ℕ → State → Type 0
OwnedBut D n s = (lost : List Pointer) × (length lost ≤ n) × Owned D lost s

module _ (malloc : Allocator) where
  -- A variable set by an option: what it pointed at before is lost.
  pub option-Owned :
      {D : Pointer → Type 0} {v : Variables} {dest : Pointer} {place : Pointer → Variables} (n : ℕ)
      (arg : Bytes) (h : Heap)
      → Settable D v dest place
      → OwnedBut D n (v, h)
      → Safe (OwnedBut D (n + 1)) (assign malloc place arg h)
  option-Owned {dest = dest} {place = place} n arg h var (lost, few, (kinds, owns)) =
      Safe-weaken _ _ (assign malloc place arg h)
        (assign-Owned malloc arg h (dest ∷ lost) var (λ b. omega (arith, var.keeps b, owns b)))
        λ state owned. (dest ∷ lost, omega arith, owned)

  pub OwnedBut-more : (n : ℕ) (s : State) → OwnedBut IsPlain n s → OwnedBut IsPlain (n + 1) s
  OwnedBut-more n s (lost, few, owned) = (lost, omega arith, owned)

  take_option_heap-Owned :
      (n c : ℕ) (arg : Bytes) (state : State)
      → OwnedBut IsPlain n state
      → Safe (OwnedBut IsPlain (n + 1)) (take_option_heap malloc c arg state)
  unfolding take_option_heap
  take_option_heap-Owned n c arg (v, h) owned =
      let kinds = owned.2.0 in
      if-Safe _ (c == b'c') _ _ (option-Owned n arg h (cfgfile-Settable v kinds) owned) (
        if-Safe _ (c == b'n') _ _ (option-Owned n arg h (logname-Settable v kinds) owned) (
          if-Safe _ (c == b'r') _ _ (option-Owned n arg h (log_dir-Settable v kinds) owned) (
            if-Safe _ (c == b'l') _ _ (option-Owned n arg h (sound_in_file-Settable v kinds) owned)
              (if-Safe _ (c == b's') _ _
                (option-Owned n arg h (sound_out_file-Settable v kinds) owned)
                (OwnedBut-more n (v, h) owned)))))

  take_options_heap-Owned :
      (opts : List (ℕ × Bytes)) (n : ℕ) (state : State)
      → OwnedBut IsPlain n state
      → Safe (OwnedBut IsPlain (n + length opts)) (take_options_heap malloc opts state)
  unfolding take_options_heap
  take_options_heap-Owned [] n state (lost, few, owned) = (lost, omega arith, owned)
  take_options_heap-Owned ((c, arg) ∷ opts) n state owned =
      let e : n + 1 + length opts ≡ n + length ((c, arg) ∷ opts) = omega arith in
      Safe->>= _ _ (take_option_heap malloc c arg state) _
        (take_option_heap-Owned n c arg state owned)
        λ after kept.
          subst (λ m. Safe (OwnedBut IsPlain m) (take_options_heap malloc opts after)) e
            (take_options_heap-Owned opts (n + 1) after kept)

  parsed-Owned :
      (parsed : Outcome Settings) (n : ℕ) (state : State)
      → OwnedBut IsPlain n state
      → Safe (OwnedBut IsPlain n) (unless_exits parsed state)
  parsed-Owned (done s) n state owned = owned
  parsed-Owned (halted x) n state owned = tt

  pub parse_cmdline_heap-Owned :
      (opts : List (ℕ × Bytes)) (settings : Settings) (state : State)
      → OwnedBut IsPlain 0 state
      → Safe (OwnedBut IsPlain (length opts)) (parse_cmdline_heap malloc opts settings state)
  unfolding parse_cmdline_heap
  parse_cmdline_heap-Owned opts settings state owned =
      let e : 0 + length opts ≡ length opts = omega arith in
      Safe->>= _ _ (take_options_heap malloc opts state) _
        (subst (λ m. Safe (OwnedBut IsPlain m) (take_options_heap malloc opts state)) e
          (take_options_heap-Owned opts 0 state owned))
        (parsed-Owned (parse_cmdline opts settings) (length opts))
