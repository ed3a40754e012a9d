-- ===== src/Main/Loop.antt =====
-- The loop on one channel runs to its end, whatever blocks are read.
use edysquelch.Prelude.{
  ℕ, ◌/◌, ◌≤◌, ◌<◌, ◌≡◌, refl, ◌∙◌, inl, inr, Bool, List, [], ◌∷◌, ◌++◌, arith, All, pos_part, done,
  suc, true, false, pos, ℤ-cases,
}
use edysquelch.Filter.{FloatOps}
use edysquelch.Cfg.{mono}
use edysquelch.Receiver.Run.{receiver_buflen, init_receiver}
use edysquelch.Receiver.Run.Bounds.{
  InBuffer, receiver_run_mono, receiver_run-aborts, receiver_run-num_ch,
}
use edysquelch.Main.{Program, set_up, Read, run_a, feed_block, main_loop}

module _ (ops : FloatOps) where
  -- The receiver has one channel, and its position is in range.
  pub Ready : Program ops → Type 0
  Ready p = (p.rx_a.num_ch ≡ 1) × InBuffer p.rx_a.bufpos

  -- A read of at most 8192 samples, with no empty fingerprint loaded.
  unfoldable pub IsFair : Read ops → Type 0
  IsFair read =
      (pos_part read.buffer_read ≤ receiver_buflen / 2) × All (λ fp. 0 < fp.len) read.env.fps

  feed_mono :
      (read : Read ops) (len : ℕ) (p : Program ops)
      → len ≤ receiver_buflen / 2
      → All (λ fp. 0 < fp.len) read.env.fps
      → Ready p
      → (p' : Program ops) × (feed_block ops mono read len p ≡ done p') × Ready p'
  unfolding feed_block run_a Ready
  feed_mono read len p short fair (one, inside) =
      elim (receiver_run-aborts ops read.env p.rx_a p.sql read.buffer len fair (rw one refl)) [
        | inl (long, e) ↦ absurd (omega arith)
        | inr (l, (r, e)) ↦ (
          record p { rx_a = r.receiver; sql = r.sql; events = p.events ++ r.events },
          rw e refl,
          (
            receiver_run-num_ch ops read.env p.rx_a p.sql read.buffer len e ∙ one,
            (receiver_run_mono ops read.env p.rx_a p.sql read.buffer len e one inside).0,
          ),
        )
      ]

  main_loop-feeds :
      (from_file : Bool) (read : Read ops) (reads : List (Read ops)) (p p1 : Program ops) (n : ℕ)
      → read.buffer_read ≡ pos (suc n)
      → feed_block ops mono read (suc n) p ≡ done p1
      → main_loop ops from_file mono (read ∷ reads) p ≡ main_loop ops from_file mono reads p1
  unfolding main_loop
  main_loop-feeds from_file read reads p p1 n e fed = rw (e, fed) refl

  main_loop_mono :
      (from_file : Bool) (reads : List (Read ops)) (p : Program ops)
      → All IsFair reads
      → Ready p
      → (p' : Program ops) × (main_loop ops from_file mono reads p ≡ done p') × Ready p'
  unfolding main_loop IsFair
  main_loop_mono from_file [] p h ready = (p, refl, ready)
  main_loop_mono true (read ∷ reads) p ((short, fair), h) ready = elim (ℤ-cases read.buffer_read) [
    | inl e ↦ (p, rw e refl, ready)
    | inr (inl (n, e)) ↦
        let small : suc n ≤ receiver_buflen / 2 = rw e at short in
        let (p1, fed, ready1) = feed_mono read (suc n) p small fair ready in
        let (p2, looped, ready2) = main_loop_mono true reads p1 h ready1 in
        (p2, main_loop-feeds true read reads p p1 n e fed ∙ looped, ready2)
    | inr (inr (k, e)) ↦ (p, rw e refl, ready)
  ]
  main_loop_mono false (read ∷ reads) p ((short, fair), h) ready = elim (ℤ-cases read.buffer_read) [
    | inl e ↦ rw e (main_loop_mono false reads p h ready)
    | inr (inl (n, e)) ↦
        let small : suc n ≤ receiver_buflen / 2 = rw e at short in
        let (p1, fed, ready1) = feed_mono read (suc n) p small fair ready in
        let (p2, looped, ready2) = main_loop_mono false reads p1 h ready1 in
        (p2, main_loop-feeds false read reads p p1 n e fed ∙ looped, ready2)
    | inr (inr (k, e)) ↦ rw e (main_loop_mono false reads p h ready)
  ]

  set_up-Ready : (coeffs_sql : ℕ → ops.Float) → Ready (set_up ops mono coeffs_sql)
  unfolding Ready set_up init_receiver
  set_up-Ready coeffs_sql = (refl, omega arith)

  -- With one channel configured, the program that main sets up gets through every sequence of
  -- reads, from a file or a device, each of at most 8192 samples with no empty fingerprint loaded:
  -- it neither aborts nor follows a NULL nor divides by zero, and the position in the receiver's
  -- buffer stays in range.
  pub main_loop-Ready :
      (from_file : Bool) (reads : List (Read ops)) (coeffs_sql : ℕ → ops.Float)
      → All IsFair reads
      → (p : Program ops) × (main_loop ops from_file mono reads (set_up ops mono coeffs_sql)
          ≡ done p)
        × Ready p
  main_loop-Ready from_file reads coeffs_sql h =
      main_loop_mono from_file reads (set_up ops mono coeffs_sql) h (set_up-Ready coeffs_sql)
