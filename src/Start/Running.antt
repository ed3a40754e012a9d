-- ===== src/Start/Running.antt =====
-- The program that has started gets through its loop.
use edysquelch.Prelude.{
  ℕ, zero, suc, ◌/◌, ◌≤◌, ◌≡◌, refl, sym, ap, ◌∙◌, subst, ◌≢◌, Bool, true, false, not, ◌&&◌, Option,
  none, some, List, [], ◌∷◌, ◌++◌, arith, ◌==◌, All, ℤ, pos, negsuc, pos_part, is_zero,
  divided_by_zero, aborted, null_followed, exited, blocked, Outcome, done, halted, Bytes,
}
use edysquelch.Filter.{FloatOps}
use edysquelch.Fingerpori.{Fingerprint, fingerprints_load}
use edysquelch.Fingerpori.Lengths.{AllHeard, fingerprints_load-AllHeard}
use edysquelch.Cfg.CommandLine.{is_missing, Settings, parse_cmdline}
use edysquelch.Cfg.Reading.{Config, complete, read_config}
use edysquelch.Cfg.Complete.{IsComplete, read_config-IsComplete}
use edysquelch.Log.{Log, open_log}
use edysquelch.Log.Pid.{PidCalls, writepid}
use edysquelch.OutJson.{decimal, jsonout_init}
use edysquelch.Cfg.{mono}
use edysquelch.Main.{Program, Read, set_up, main_loop}
use edysquelch.Receiver.Run.{receiver_buflen}
use edysquelch.Input.{input_initialize}
use edysquelch.Start.{
  leaves, fails, goes, ◌>>=◌, part, World, with_settings, log_with, daemonise, open_sound, loaded,
  has_uplinks, fpdir_of, unless, Session, prepare, start, Stage,
}
use edysquelch.Main.Loop.{Ready, IsFair, main_loop-Ready}
use edysquelch.Log.Opening.{Named, IsFree, open_log-Named}

-- A chain that goes on has a first part that does.
bound :
    {A B P : Type 0} (m : Stage A) (f : A → Stage B) {b : B}
    → (m >>= f) ≡ goes b
    → ((a : A) → m ≡ goes a → f a ≡ goes b → P)
    → P
bound (leaves code) f h k = absurd (cc)
bound (fails x) f h k = absurd (cc)
bound (goes a) f h k = k a refl h

part-goes : {A : Type 0} (m : Outcome A) {a : A} → part m ≡ goes a → m ≡ done a
part-goes (done x) e = cc
part-goes (halted divided_by_zero) e = cc
part-goes (halted aborted) e = cc
part-goes (halted null_followed) e = cc
part-goes (halted exited) e = cc
part-goes (halted blocked) e = cc

unless-goes : (b : Bool) (code : ℤ) {u : Unit} → unless b code ≡ goes u → b ≡ false
unless-goes true code e = cc
unless-goes false code e = refl

loaded-goes :
    (r : Option (List Fingerprint × ℕ)) {fps : List Fingerprint}
    → loaded r ≡ goes fps
    → (ret : ℕ) × (r ≡ some (fps, ret))
loaded-goes none e = cc
loaded-goes (some (now, ret)) e = (ret, cc)

goes-injective : {A : Type 0} (a b : A) → goes a ≡ goes b → a ≡ b
goes-injective a b e = cc

zero_code : (z : ℤ) → not (is_zero z) ≡ false → z ≡ pos 0
zero_code (pos zero) h = refl
zero_code (pos (suc n)) h = absurd (ground arith)
zero_code (negsuc k) h = absurd (ground arith)

writepid-one :
    (calls : PidCalls) (pid : ℕ)
    → ((writepid calls pid).1 == 0) ≡ false
    → writepid calls pid ≡ (some (decimal pid ++ (10 ∷ [])), 1)
unfolding writepid
writepid-one calls pid h = ground arith

-- The buffer that main reads into: of a file 1020 frames, of a device its period.
abbrev pub Buffered : World → Config → Bool → ℤ → Type 0
Buffered w c true l = (l ≡ pos 1020) × (c.sound_device ≡ none)
Buffered w c false l = (l ≡ w.device.period_size) × (c.sound_device ≢ none)

open_sound-Buffered :
    (w : World) (c : Config) {from_file : Bool} {l : ℤ}
    → open_sound w c ≡ goes (from_file, l)
    → Buffered w c from_file l
unfolding open_sound input_initialize
open_sound-Buffered w c e = ground arith

module _ (ops : FloatOps) where
  -- What holds of the session when the loop is entered.
  pub record Started (w : World) (coeffs_sql : ℕ → ops.Float) (s : Session ops) : Type 0 where
    pub configured : IsComplete s.config
    pub heard : AllHeard s.fps
    pub sets : s.program ≡ set_up ops s.config.sound_channels coeffs_sql
    pub buffered : Buffered w s.config s.from_file s.buffer_l
    pub pid_written :
        writepid w.pid_calls w.log_env.pid ≡ (some (decimal w.log_env.pid ++ (10 ∷ [])), 1)
    pub log_named : (name : Bytes) × Named s.log name

  prepare-goes :
      (w : World) (coeffs_sql : ℕ → ops.Float) (c : Config) (log : Log) {s : Session ops}
      → prepare ops w coeffs_sql c log ≡ goes s
      → IsComplete c
      → (name : Bytes) × Named log name
      → Started w coeffs_sql s
  unfolding prepare
  prepare-goes w coeffs_sql c log e complete named =
      bound (unless ((writepid w.pid_calls w.log_env.pid).1 == 0) (pos 1)) _ e λ _ wrote e1.
        bound (loaded (fingerprints_load (fpdir_of c) w.files w.scandir [])) _ e1 λ fps got e2.
          bound (unless (has_uplinks c && not (is_zero (jsonout_init w.thread_created))) (pos 1)) _
            e2
            λ _ up e3. bound (open_sound w c) _ e3 λ sound opened e4.
              bound (unless (not (is_missing c.sound_out_file) && not w.out_opens) (negsuc 0)) _ e4
                λ _ out e5.
                  let (ret, all) = loaded-goes _ got in
                  subst (Started w coeffs_sql) (goes-injective _ _ e5) (record {
                    configured = complete;
                    heard = fingerprints_load-AllHeard (fpdir_of c) w.files w.scandir fps ret all;
                    sets = refl;
                    buffered = open_sound-Buffered w c opened;
                    pid_written = writepid-one w.pid_calls w.log_env.pid (unless-goes _ _ wrote);
                    log_named = named;
                  })

  pub start-Started :
      (w : World) (coeffs_sql : ℕ → ops.Float) (settings0 : Settings) (config0 : Config)
      (log0 : Log) {s : Session ops}
      → IsFree log0.lock
      → start ops w coeffs_sql settings0 config0 log0 ≡ goes s
      → Started w coeffs_sql s
  unfolding start
  start-Started w coeffs_sql settings0 config0 log0 free e =
      bound (part (parse_cmdline w.options settings0)) _ e λ settings parsed e1.
        bound (part (open_log w.log_env settings.logname false (log_with settings log0))) _ e1
          λ log opened e2.
            bound (part (read_config w.fopen (with_settings settings config0))) _ e2
              λ read configured e3. bound (unless (not (is_zero read.1)) (pos 1)) _ e3 λ _ fine e4.
                bound (daemonise settings.fork_a_daemon w.fork) _ e4 λ _ forked e5.
                  prepare-goes w coeffs_sql read.0 log.0 e5
                    (read_config-IsComplete w.fopen (with_settings settings config0) (
                      part-goes _ configured
                      ∙ ap (λ z. done (read.0, z)) (zero_code read.1 (unless-goes _ _ fine))))
                    (
                      settings.logname,
                      open_log-Named w.log_env settings.logname (log_with settings log0) log.0 log.1
                          free (part-goes _ opened),
                    )

  -- A read of the session: no more frames than the buffer holds, with the fingerprints that were loaded.
  abbrev pub IsReadOf : Session ops → Read ops → Type 0
  IsReadOf s read = (pos_part read.buffer_read ≤ pos_part s.buffer_l) × (read.env.fps ≡ s.fps)

  IsReadOf-IsFair :
      (s : Session ops) (reads : List (Read ops))
      → AllHeard s.fps
      → pos_part s.buffer_l ≤ receiver_buflen / 2
      → All (IsReadOf s) reads
      → All (IsFair ops) reads
  unfolding IsFair
  IsReadOf-IsFair s [] heard small h = tt
  IsReadOf-IsFair s (r ∷ reads) heard small ((short, same), h) =
      ((omega arith, subst AllHeard (sym same) heard), IsReadOf-IsFair s reads heard small h)

  buffer-small :
      (w : World) (c : Config) (from_file : Bool) (l : ℤ)
      → pos_part w.device.period_size ≤ receiver_buflen / 2
      → Buffered w c from_file l
      → pos_part l ≤ receiver_buflen / 2
  buffer-small w c true l h b = rw b.0 (omega arith)
  buffer-small w c false l h b = rw b.0 h

  -- Once main has started with one channel, it gets through every sequence of reads, from a file or
  -- from a device with a period of at most 8192 frames, where a read gives at most the frames that
  -- the buffer holds: nothing aborts, follows a NULL or divides by zero. The configuration is then
  -- complete, the process is written to the pid file and the log is open under a name with its lock
  -- free, whatever the files, the options and the directory of fingerprints hold. The lock of the log
  -- is free at first.
  pub start-Ready :
      (w : World) (coeffs_sql : ℕ → ops.Float) (settings0 : Settings) (config0 : Config)
      (log0 : Log) (s : Session ops) (reads : List (Read ops))
      → IsFree log0.lock
      → start ops w coeffs_sql settings0 config0 log0 ≡ goes s
      → s.config.sound_channels ≡ mono
      → pos_part w.device.period_size ≤ receiver_buflen / 2
      → All (IsReadOf s) reads
      → Started w coeffs_sql s
        × (p : Program ops) × (main_loop ops s.from_file mono reads s.program ≡ done p)
        × Ready ops p
  start-Ready w coeffs_sql settings0 config0 log0 s reads free e one small h =
      let started = start-Started w coeffs_sql settings0 config0 log0 free e in
      let l_small = buffer-small w s.config s.from_file s.buffer_l small started.buffered in
      let fair = IsReadOf-IsFair s reads started.heard l_small h in
      let (p, looped, ready) = main_loop-Ready ops s.from_file reads coeffs_sql fair in
      let same : s.program ≡ set_up ops mono coeffs_sql =
        started.sets ∙ ap (λ c. set_up ops c coeffs_sql) one in
      (started, p, ap (main_loop ops s.from_file mono reads) same ∙ looped, ready)
