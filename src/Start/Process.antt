-- ===== src/Start/Process.antt =====
-- main of src/edysquelch.c as a whole: the start, the loop, and what is behind it.
use edysquelch.Prelude.{
  ℕ, ◌/◌, ◌≤◌, ◌≡◌, refl, ap, ◌∙◌, false, Option, none, some, List, [], ◌∷◌, if◌then◌else◌, All, ℤ,
  pos, pos_part, Bytes, done,
}
use edysquelch.Filter.{FloatOps}
use edysquelch.OutJson.{jsonout_deinit}
use edysquelch.Cfg.{UplinkConfig, mono}
use edysquelch.Cfg.CommandLine.{Settings}
use edysquelch.Cfg.Reading.{Config}
use edysquelch.Log.{Log, close_log}
use edysquelch.Log.Opening.{IsFree, Named, IsClosed, close_log-Named}
use edysquelch.Receiver.Run.{receiver_buflen}
use edysquelch.Receiver.Squelch.{Event}
use edysquelch.Main.{Program, Read, main_loop}
use edysquelch.Start.{◌>>=◌, Stage, goes, part, World, has_uplinks, Session, start}
use edysquelch.Start.Running.{Started, IsReadOf, start-Ready}

-- free_uplink_config: the strings that are freed, and the list that is left.
unfoldable pub free_uplink_config : List UplinkConfig → List Bytes × List UplinkConfig
free_uplink_config [] = ([], [])
free_uplink_config (u ∷ lc) =
    let (freed, left) = free_uplink_config lc in (u.name ∷ u.url ∷ freed, left)

-- free_config frees the strings of the other variables too, which still point at them.
unfoldable pub free_config : Config → Config
unfolding free_uplink_config
free_config c = record c { uplink_config = (free_uplink_config c.uplink_config).1 }

module _ (ops : FloatOps) where
  -- How main ends: the value returned, the notifications, what jsonout_deinit gave where it was
  -- called, and the variables.
  pub record Ended : Type 0 where
    pub code : ℤ
    pub events : List Event
    pub deinit : Option ℤ
    pub config : Config
    pub log : Log

  -- Behind the loop, with the status of pthread_join.
  abbrev pub ended : ℤ → Session ops → Program ops → Log → Ended
  ended join_status s p log = record {
    code = pos 0;
    events = p.events;
    deinit = if has_uplinks s.config then some (jsonout_deinit join_status) else none;
    config = free_config s.config;
    log = log;
  }

  unfoldable pub finish : World → ℤ → Session ops → Program ops → Stage Ended
  unfolding free_config jsonout_deinit
  finish w join_status s p = do
    (log, outs) ← part (close_log w.log_env false s.log)
    goes (ended join_status s p log)

  unfoldable pub main :
      World → (ℕ → ops.Float) → Settings → Config → Log → List (Read ops) → ℤ → Stage Ended
  unfolding finish
  main w coeffs_sql settings0 config0 log0 reads join_status = do
    s ← start ops w coeffs_sql settings0 config0 log0
    p ← part (main_loop ops s.from_file s.config.sound_channels reads s.program)
    finish w join_status s p

  free_uplink_config-left : (lc : List UplinkConfig) → (free_uplink_config lc).1 ≡ []
  unfolding free_uplink_config
  free_uplink_config-left [] = refl
  free_uplink_config-left (u ∷ lc) = free_uplink_config-left lc

  finish-goes :
      (w : World) (join_status : ℤ) (s : Session ops) (p : Program ops) (name : Bytes)
      → Named s.log name
      → (e : Ended) × (finish w join_status s p ≡ goes e)
        × (e.code ≡ pos 0)
        × (e.events ≡ p.events)
        × (e.config.uplink_config ≡ [])
        × IsClosed s.log e.log
  unfolding finish free_config
  finish-goes w join_status s p name named =
      let (log, outs, closed, free) = close_log-Named w.log_env name s.log named in
      (
        ended join_status s p log,
        rw closed refl,
        refl,
        refl,
        free_uplink_config-left s.config.uplink_config,
        free,
      )

  -- Once main has started and its loop has come to an end, main returns.
  pub main-ends :
      (w : World) (coeffs_sql : ℕ → ops.Float) (settings0 : Settings) (config0 : Config)
      (log0 : Log) (s : Session ops) (reads : List (Read ops)) (join_status : ℤ) {p : Program ops}
      → start ops w coeffs_sql settings0 config0 log0 ≡ goes s
      → Started ops w coeffs_sql s
      → main_loop ops s.from_file s.config.sound_channels reads s.program ≡ done p
      → (e : Ended) × (main w coeffs_sql settings0 config0 log0 reads join_status ≡ goes e)
        × (e.code ≡ pos 0)
        × (e.events ≡ p.events)
        × (e.config.uplink_config ≡ [])
        × IsClosed s.log e.log
  unfolding main
  main-ends w coeffs_sql settings0 config0 log0 s reads join_status {p} begins started looped =
      let (name, named) = started.log_named in
      let (e, finished, zero_code, same, no_uplink, freed) =
        finish-goes w join_status s p name named in
      (e, rw (main, begins, looped) finished, zero_code, same, no_uplink, freed)

  -- The whole of main with one channel. Once it has started, from a file or from a device with a
  -- period of at most 8192 frames, with reads of at most the frames that the buffer holds, whatever
  -- the files, the options and the directory of fingerprints hold: the configuration is complete, the
  -- pid file is written and no fingerprint is empty; the loop gets through all reads, where nothing
  -- aborts, follows a NULL or divides by zero; main returns 0, with the notifications of its loop, no
  -- uplink is left, and the log is closed: it has no name, where it goes to a file that file is closed
  -- and its name forgotten, and its lock is free. The lock of the log is free at first.
  pub main-returns :
      (w : World) (coeffs_sql : ℕ → ops.Float) (settings0 : Settings) (config0 : Config)
      (log0 : Log) (s : Session ops) (reads : List (Read ops)) (join_status : ℤ)
      → IsFree log0.lock
      → start ops w coeffs_sql settings0 config0 log0 ≡ goes s
      → s.config.sound_channels ≡ mono
      → pos_part w.device.period_size ≤ receiver_buflen / 2
      → All (IsReadOf ops s) reads
      → Started ops w coeffs_sql s
        × (p : Program ops) × (e : Ended) × (main_loop ops s.from_file mono reads s.program
            ≡ done p)
        × (main w coeffs_sql settings0 config0 log0 reads join_status ≡ goes e)
        × (e.code ≡ pos 0)
        × (e.events ≡ p.events)
        × (e.config.uplink_config ≡ [])
        × IsClosed s.log e.log
  main-returns w coeffs_sql settings0 config0 log0 s reads join_status free begins one small h =
      let (started, p, looped, ready) =
        start-Ready ops w coeffs_sql settings0 config0 log0 s reads free begins one small h in
      let fed : main_loop ops s.from_file s.config.sound_channels reads s.program ≡ done p =
        ap (λ c. main_loop ops s.from_file c reads s.program) one ∙ looped in
      let (e, returned, ends_well, same, no_uplink, freed) =
        main-ends w coeffs_sql settings0 config0 log0 s reads join_status begins started fed in
      (started, p, e, looped, returned, ends_well, same, no_uplink, freed)
