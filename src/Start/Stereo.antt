-- ===== src/Start/Stereo.antt =====
-- main of src/edysquelch.c as a whole, with two channels.
use edysquelch.Prelude.{
  ℕ, ◌/◌, ◌≤◌, ◌≡◌, sym, ap, ◌∙◌, subst, ◌⊎◌, inl, inr, Bool, true, false, List, [], ◌∷◌, arith,
  All, ℤ, pos, negsuc, pos_part, done,
}
use edysquelch.Filter.{FloatOps}
use edysquelch.Fingerpori.Lengths.{AllHeard}
use edysquelch.Cfg.{is_mono}
use edysquelch.Cfg.CommandLine.{Settings}
use edysquelch.Cfg.Reading.{Config}
use edysquelch.Log.{Log}
use edysquelch.Log.Opening.{IsFree, IsClosed}
use edysquelch.Receiver.Run.{receiver_buflen}
use edysquelch.Receiver.Run.Stereo.{Fits, Fits-file}
use edysquelch.Main.{Program, Read, main_loop}
use edysquelch.Main.Stereo.{BothInStep, IsWhole, main_loop-BothInStep}
use edysquelch.Start.{goes, World, Session, start}
use edysquelch.Start.Running.{Buffered, Started, start-Started}
use edysquelch.Start.Process.{Ended, main, main-ends}

module _ (ops : FloatOps) where
  -- A read of the session that fills its buffer or gives nothing, with the fingerprints that were
  -- loaded.
  abbrev pub IsBlockOf : Session ops → Read ops → Type 0
  IsBlockOf s read =
      ((read.buffer_read ≡ s.buffer_l) ⊎ (pos_part read.buffer_read ≡ 0)) × (read.env.fps ≡ s.fps)

  -- The period of the device is of a length that fits.
  abbrev pub PeriodFits : World → Type 0
  PeriodFits w =
      Fits (pos_part w.device.period_size) × (pos_part w.device.period_size ≤ receiver_buflen / 2)

  whole_or_nothing :
      (z l : ℤ) → (z ≡ l) ⊎ (pos_part z ≡ 0) → (z ≡ pos (pos_part l)) ⊎ (pos_part z ≡ 0)
  whole_or_nothing z (pos n) (inl e) = inl e
  whole_or_nothing z (negsuc k) (inl e) = inr (ap pos_part e)
  whole_or_nothing z l (inr e) = inr e

  IsBlockOf-IsWhole :
      (s : Session ops) (reads : List (Read ops))
      → AllHeard s.fps
      → All (IsBlockOf s) reads
      → All (IsWhole ops (pos_part s.buffer_l)) reads
  IsBlockOf-IsWhole s [] heard h = tt
  IsBlockOf-IsWhole s (r ∷ reads) heard ((whole, same), h) = (
    (whole_or_nothing r.buffer_read s.buffer_l whole, subst AllHeard (sym same) heard),
    IsBlockOf-IsWhole s reads heard h,
  )

  buffer-Fits :
      (w : World) (c : Config) (from_file : Bool) (l : ℤ)
      → PeriodFits w
      → Buffered w c from_file l
      → Fits (pos_part l) × (pos_part l ≤ receiver_buflen / 2)
  buffer-Fits w c true l h (size, device) = rw size (Fits-file, omega arith)
  buffer-Fits w c false l h (size, device) = rw size h

  -- The whole of main with two channels, or one of two. Once it has started, from a file or from a
  -- device with a period of a length that fits and of at most 8192 frames, with reads that fill the
  -- buffer or give nothing, whatever the files, the options and the directory of fingerprints hold:
  -- the configuration is complete, the pid file is written and no fingerprint is empty; the loop gets
  -- through all reads, where nothing aborts, follows a NULL or divides by zero, and both receivers
  -- stay inside their buffers; main returns 0, with the notifications of its loop, no uplink is left,
  -- and the log is closed: it has no name, where it goes to a file that file is closed and its name
  -- forgotten, and its lock is free. The lock of the log is free at first.
  pub main-returns-stereo :
      (w : World) (coeffs_sql : ℕ → ops.Float) (settings0 : Settings) (config0 : Config)
      (log0 : Log) (s : Session ops) (reads : List (Read ops)) (join_status : ℤ)
      → IsFree log0.lock
      → start ops w coeffs_sql settings0 config0 log0 ≡ goes s
      → is_mono s.config.sound_channels ≡ false
      → PeriodFits w
      → All (IsBlockOf s) reads
      → Started ops w coeffs_sql s
        × (p : Program ops) × (e : Ended ops) × (main_loop ops s.from_file s.config.sound_channels
              reads s.program
            ≡ done p)
        × BothInStep ops (pos_part s.buffer_l) p
        × (main ops w coeffs_sql settings0 config0 log0 reads join_status ≡ goes e)
        × (e.code ≡ pos 0)
        × (e.events ≡ p.events)
        × (e.config.uplink_config ≡ [])
        × IsClosed s.log e.log
  main-returns-stereo w coeffs_sql settings0 config0 log0 s reads join_status free begins two fits
        h =
      let started = start-Started ops w coeffs_sql settings0 config0 log0 free begins in
      let (l_fits, small) = buffer-Fits w s.config s.from_file s.buffer_l fits started.buffered in
      let whole = IsBlockOf-IsWhole s reads started.heard h in
      let (p, looped, ready) =
        main_loop-BothInStep ops (pos_part s.buffer_l) s.from_file s.config.sound_channels reads
          coeffs_sql l_fits small two whole in
      let fed : main_loop ops s.from_file s.config.sound_channels reads s.program ≡ done p =
        ap (main_loop ops s.from_file s.config.sound_channels reads) started.sets ∙ looped in
      let (e, returned, ends_well, same, no_uplink, freed) =
        main-ends ops w coeffs_sql settings0 config0 log0 s reads join_status begins started fed in
      (started, p, e, fed, ready, returned, ends_well, same, no_uplink, freed)
