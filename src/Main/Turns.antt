-- ===== src/Main/Turns.antt =====
-- The notifications of the whole loop take turns, and so do the objects that are sent.
use edysquelch.Prelude.{
  ℕ, suc, ◌≡◌, refl, sym, subst, inl, inr, Bool, true, false, List, [], ◌∷◌, if◌then◌else◌,
  Option-cases, Bytes, Outcome, done, >>=-eq-done, ℤ-cases, done-injective,
}
use edysquelch.Filter.{FloatOps}
use edysquelch.Cfg.{SoundChannels, is_mono}
use edysquelch.Receiver.Squelch.Checks.{Alternate, Alternate-append}
use edysquelch.Receiver.Run.{receiver_run}
use edysquelch.Receiver.Run.Bounds.{receiver_run-Alternate}
use edysquelch.Receiver.Notify.{Notice, notify_all}
use edysquelch.Receiver.Notify.Ids.{Paired, events_of, notify_all-Paired}
use edysquelch.Main.{hears_a, hears_b, Program, set_up, Read, run_a, run_b, feed_block, main_loop}

module _ (ops : FloatOps) where
  -- What was notified so far takes turns up to the state of the squelch.
  abbrev pub Turns : Program ops → Type 0
  Turns p = Alternate false p.events p.sql.sql_open

  run_a-Turns :
      (read : Read ops) (len : ℕ) (p p' : Program ops)
      → run_a ops read len p ≡ done p'
      → Turns p
      → Turns p'
  unfolding run_a
  run_a-Turns read len p p' e turns =
      let (r, ran, rest) =
        >>=-eq-done (receiver_run ops read.env p.rx_a p.sql read.buffer len) _ e in
      let next = receiver_run-Alternate ops read.env p.rx_a p.sql read.buffer len ran in
      subst Turns (done-injective rest) (Alternate-append p.events r.events false _ _ turns next)

  run_b-Turns :
      (read : Read ops) (len : ℕ) (p p' : Program ops)
      → run_b ops read len p ≡ done p'
      → Turns p
      → Turns p'
  unfolding run_b
  run_b-Turns read len p p' e turns = elim (Option-cases p.rx_b) [
    | inl missing ↦ absurd (let e' = rw (missing, run_b) at e in cc)
    | inr (rx, there) ↦
        let e' = rw (there, run_b) at e in
        let (r, ran, rest) =
          >>=-eq-done (receiver_run ops read.env rx p.sql read.buffer len) _ e' in
        let next = receiver_run-Alternate ops read.env rx p.sql read.buffer len ran in
        subst Turns (done-injective rest) (Alternate-append p.events r.events false _ _ turns next)
  ]

  optional-Turns :
      (b : Bool) (m : Outcome (Program ops)) (p p' : Program ops)
      → (if b then m else done p) ≡ done p'
      → Turns p
      → (m ≡ done p' → Turns p → Turns p')
      → Turns p'
  optional-Turns true m p p' e turns step = step e turns
  optional-Turns false m p p' e turns step = subst Turns (done-injective e) turns

  skip-Turns :
      (from_file : Bool) (loop : Outcome (Program ops)) (p p' : Program ops)
      → elim from_file [ true ↦ done p | false ↦ loop ] ≡ done p'
      → Turns p
      → (loop ≡ done p' → Turns p')
      → Turns p'
  skip-Turns true loop p p' e turns later = subst Turns (done-injective e) turns
  skip-Turns false loop p p' e turns later = later e

  feed_block-Turns :
      (channels : SoundChannels) (read : Read ops) (len : ℕ) (p p' : Program ops)
      → feed_block ops channels read len p ≡ done p'
      → Turns p
      → Turns p'
  unfolding feed_block
  feed_block-Turns channels read len p p' e turns =
      let (p1, e1, rest1) =
        >>=-eq-done (if is_mono channels then run_a ops read len p else done p) _ e in
      let (p2, e2, e3) =
        >>=-eq-done (if hears_a channels then run_a ops read len p1 else done p1) _ rest1 in
      let turns1 = optional-Turns (is_mono channels) _ p p1 e1 turns (run_a-Turns read len p p1) in
      let turns2 =
        optional-Turns (hears_a channels) _ p1 p2 e2 turns1 (run_a-Turns read len p1 p2) in
      optional-Turns (hears_b channels) _ p2 p' e3 turns2 (run_b-Turns read len p2 p')

  main_loop-Turns :
      (from_file : Bool) (channels : SoundChannels) (reads : List (Read ops)) (p p' : Program ops)
      → main_loop ops from_file channels reads p ≡ done p'
      → Turns p
      → Turns p'
  unfolding main_loop
  main_loop-Turns from_file channels [] p p' e turns = subst Turns (done-injective e) turns
  main_loop-Turns from_file channels (read ∷ reads) p p' e turns = elim (ℤ-cases read.buffer_read) [
    | inl none_read ↦
        skip-Turns from_file (main_loop ops from_file channels reads p) p p'
          (rw (none_read, main_loop) at e) turns
          (λ h. main_loop-Turns from_file channels reads p p' h turns)
    | inr (inl (n, some_read)) ↦
        let (p1, fed, rest) =
          >>=-eq-done (feed_block ops channels read (suc n) p) _ (rw (some_read, main_loop) at e) in
        main_loop-Turns from_file channels reads p1 p' rest
          (feed_block-Turns channels read (suc n) p p1 fed turns)
    | inr (inr (k, failed)) ↦
        skip-Turns from_file (main_loop ops from_file channels reads p) p p'
          (rw (failed, main_loop) at e) turns
          (λ h. main_loop-Turns from_file channels reads p p' h turns)
  ]

  -- Whatever is read, on any channels: where the loop comes to its end, the objects that are sent for
  -- its notifications report openings and ends of overs in turns, beginning with an opening and ending
  -- in the state of the squelch, and each end of an over has the event id of the opening before it.
  pub main_loop-Paired :
      (from_file : Bool) (channels : SoundChannels) (reads : List (Read ops))
      (coeffs_sql : ℕ → ops.Float) (p : Program ops) (ns : List Notice) (current : Bytes)
      → main_loop ops from_file channels reads (set_up ops channels coeffs_sql) ≡ done p
      → events_of ns ≡ p.events
      → Paired false current (notify_all ns current).1 p.sql.sql_open
  main_loop-Paired from_file channels reads coeffs_sql p ns current e same =
      let begins : Turns (set_up ops channels coeffs_sql) = unfold set_up in refl in
      let turns =
        main_loop-Turns from_file channels reads (set_up ops channels coeffs_sql) p e begins in
      notify_all-Paired ns current false p.sql.sql_open
        (subst (λ es. Alternate false es p.sql.sql_open) (sym same) turns)
