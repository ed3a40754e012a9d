-- ===== src/Main/Stereo.antt =====
-- The loop on two channels runs to its end inside the buffers, for blocks of a length that fits.
use edysquelch.Prelude.{
  ℕ, suc, ◌/◌, ◌≤◌, ◌<◌, ◌≡◌, refl, sym, ap, ◌∙◌, ◌⊎◌, inl, inr, Bool, true, false, some, List, [],
  ◌∷◌, ◌++◌, arith, All, ℤ, pos, pos_part, done, ℤ-cases,
}
use edysquelch.Filter.{FloatOps}
use edysquelch.Cfg.{SoundChannels, is_mono, mono, both, left_only, right_only}
use edysquelch.Receiver.Squelch.{Squelch}
use edysquelch.Receiver.Run.{
  receiver_buflen, Receiver, Surroundings, Result, init_receiver, receiver_run, receiver_buf_copy,
}
use edysquelch.Receiver.Run.Bounds.{receiver_run-aborts, receiver_run-num_ch}
use edysquelch.Receiver.Run.Stereo.{Fits, InBlocks, receiver_run_stereo}
use edysquelch.Main.{Program, set_up, Read, run_a, run_b, feed_block, main_loop}

module _ (ops : FloatOps) (l : ℕ) where
  -- A receiver of one of two channels, with its position a number of blocks in.
  abbrev pub InStep : Receiver ops → Type 0
  InStep rx = (rx.num_ch ≡ 2) × InBlocks l rx.bufpos

  -- Both receivers are there and in step.
  pub record BothInStep (p : Program ops) : Type 0 where
    pub other : Receiver ops
    pub there : p.rx_b ≡ some other
    pub step_a : InStep p.rx_a
    pub step_b : InStep other

  -- A read of a whole block, or of nothing, with no empty fingerprint loaded.
  abbrev pub IsWhole : Read ops → Type 0
  IsWhole read =
      ((read.buffer_read ≡ pos l) ⊎ (pos_part read.buffer_read ≡ 0))
      × All (λ fp. 0 < fp.len) read.env.fps

  module _ (fits : Fits l) (small : l ≤ receiver_buflen / 2) where
    run-InStep :
        (env : Surroundings ops) (rx : Receiver ops) (q : Squelch) (buf : ℕ → ℤ)
        → All (λ fp. 0 < fp.len) env.fps
        → InStep rx
        → (r : Result ops) × (receiver_run ops env rx q buf l ≡ done r) × InStep r.receiver
    run-InStep env rx q buf heard (two, blocks) =
        elim (receiver_run-aborts ops env rx q buf l heard (rw two refl)) [
          | inl (long, e) ↦ absurd (omega arith)
          | inr (short, (r, e)) ↦ (
            r,
            e,
            (
              receiver_run-num_ch ops env rx q buf l e ∙ two,
              (receiver_run_stereo ops env rx q buf l e two fits blocks).0,
            ),
          )
        ]

    run_a-InStep :
        (read : Read ops) (p : Program ops)
        → All (λ fp. 0 < fp.len) read.env.fps
        → BothInStep p
        → (p' : Program ops) × (run_a ops read l p ≡ done p') × BothInStep p'
    unfolding run_a
    run_a-InStep read p heard ready =
        let (r, ran, stays) = run-InStep read.env p.rx_a p.sql read.buffer heard ready.step_a in
        (
          record p { rx_a = r.receiver; sql = r.sql; events = p.events ++ r.events },
          rw ran refl,
          record {
            other = ready.other;
            there = ready.there;
            step_a = stays;
            step_b = ready.step_b;
          },
        )

    run_b-InStep :
        (read : Read ops) (p : Program ops)
        → All (λ fp. 0 < fp.len) read.env.fps
        → BothInStep p
        → (p' : Program ops) × (run_b ops read l p ≡ done p') × BothInStep p'
    unfolding run_b
    run_b-InStep read p heard ready =
        let (r, ran, stays) =
          run-InStep read.env ready.other p.sql read.buffer heard ready.step_b in
        (
          record p { rx_b = some r.receiver; sql = r.sql; events = p.events ++ r.events },
          rw (run_b, ready.there, ran) refl,
          record { other = r.receiver; there = refl; step_a = ready.step_a; step_b = stays },
        )

    feed_block-InStep :
        (channels : SoundChannels) (read : Read ops) (p : Program ops)
        → is_mono channels ≡ false
        → All (λ fp. 0 < fp.len) read.env.fps
        → BothInStep p
        → (p' : Program ops) × (feed_block ops channels read l p ≡ done p') × BothInStep p'
    unfolding feed_block
    feed_block-InStep mono read p h heard ready = absurd (cc)
    feed_block-InStep both read p h heard ready =
        let (p1, first, ready1) = run_a-InStep read p heard ready in
        let (p2, second, ready2) = run_b-InStep read p1 heard ready1 in
        (p2, rw (first, second) refl, ready2)
    feed_block-InStep left_only read p h heard ready = run_b-InStep read p heard ready
    feed_block-InStep right_only read p h heard ready =
        let (p1, first, ready1) = run_a-InStep read p heard ready in (p1, rw first refl, ready1)

    main_loop-feeds :
        (from_file : Bool) (channels : SoundChannels) (read : Read ops) (reads : List (Read ops))
        (p p1 : Program ops) (n : ℕ)
        → read.buffer_read ≡ pos (suc n)
        → feed_block ops channels read (suc n) p ≡ done p1
        → main_loop ops from_file channels (read ∷ reads) p
          ≡ main_loop ops from_file channels reads p1
    unfolding main_loop
    main_loop-feeds from_file channels read reads p p1 n e fed = rw (e, fed) refl

    -- A read of samples is a whole block.
    whole_len : {z : ℤ} {n : ℕ} → (z ≡ pos l) ⊎ (pos_part z ≡ 0) → z ≡ pos (suc n) → suc n ≡ l
    whole_len (inl whole) e = ap pos_part (sym e ∙ whole)
    whole_len (inr nothing) e = absurd (omega (arith, ap pos_part e, nothing))

    main_loop-InStep :
        (from_file : Bool) (channels : SoundChannels) (reads : List (Read ops)) (p : Program ops)
        → is_mono channels ≡ false
        → All IsWhole reads
        → BothInStep p
        → (p' : Program ops) × (main_loop ops from_file channels reads p ≡ done p') × BothInStep p'
    unfolding main_loop
    main_loop-InStep from_file channels [] p two h ready = (p, refl, ready)
    main_loop-InStep true channels (read ∷ reads) p two ((whole, heard), h) ready =
        elim (ℤ-cases read.buffer_read) [
          | inl e ↦ (p, rw e refl, ready)
          | inr (inl (n, e)) ↦
              let (p1, fed, ready1) = feed_block-InStep channels read p two heard ready in
              let (p2, looped, ready2) = main_loop-InStep true channels reads p1 two h ready1 in
              let fed' : feed_block ops channels read (suc n) p ≡ done p1 =
                ap (λ k. feed_block ops channels read k p) (whole_len whole e) ∙ fed in
              (p2, main_loop-feeds true channels read reads p p1 n e fed' ∙ looped, ready2)
          | inr (inr (k, e)) ↦ (p, rw e refl, ready)
        ]
    main_loop-InStep false channels (read ∷ reads) p two ((whole, heard), h) ready =
        elim (ℤ-cases read.buffer_read) [
          | inl e ↦ rw e (main_loop-InStep false channels reads p two h ready)
          | inr (inl (n, e)) ↦
              let (p1, fed, ready1) = feed_block-InStep channels read p two heard ready in
              let (p2, looped, ready2) = main_loop-InStep false channels reads p1 two h ready1 in
              let fed' : feed_block ops channels read (suc n) p ≡ done p1 =
                ap (λ k. feed_block ops channels read k p) (whole_len whole e) ∙ fed in
              (p2, main_loop-feeds false channels read reads p p1 n e fed' ∙ looped, ready2)
          | inr (inr (k, e)) ↦ rw e (main_loop-InStep false channels reads p two h ready)
        ]

  start-InBlocks : InBlocks l receiver_buf_copy
  start-InBlocks = (0, omega arith, omega arith)

  set_up-InStep :
      (channels : SoundChannels) (coeffs_sql : ℕ → ops.Float)
      → is_mono channels ≡ false
      → BothInStep (set_up ops channels coeffs_sql)
  unfolding set_up init_receiver
  set_up-InStep channels coeffs_sql two = record {
    other = init_receiver ops coeffs_sql 66 2 1;
    there = rw two refl;
    step_a = (rw two refl, start-InBlocks);
    step_b = (refl, start-InBlocks);
  }

  -- With two channels, or one of two, configured, the program that main sets up gets through every
  -- sequence of reads of whole blocks, from a file or a device, when the blocks are of a length that
  -- fits, at most 8192, and no empty fingerprint is loaded: it neither aborts nor follows a NULL nor
  -- divides by zero, both receivers are there behind it, and the position of each is a number of
  -- blocks behind the kept part and inside its buffer.
  pub main_loop-BothInStep :
      (from_file : Bool) (channels : SoundChannels) (reads : List (Read ops))
      (coeffs_sql : ℕ → ops.Float)
      → Fits l
      → l ≤ receiver_buflen / 2
      → is_mono channels ≡ false
      → All IsWhole reads
      → (p : Program ops) × (main_loop ops from_file channels reads (set_up ops channels coeffs_sql)
          ≡ done p)
        × BothInStep p
  main_loop-BothInStep from_file channels reads coeffs_sql fits small two h =
      main_loop-InStep fits small from_file channels reads (set_up ops channels coeffs_sql) two h
        (set_up-InStep channels coeffs_sql two)
