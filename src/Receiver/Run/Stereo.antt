-- ===== src/Receiver/Run/Stereo.antt =====
-- Two channels: which block lengths keep receiver_run inside its buffer.
use edysquelch.Prelude.{
  ℕ, suc, ◌+◌, ◌*◌, ◌/◌, ◌≤◌, ◌≡◌, inl, inr, arith, ltb, Bool-cases, ℤ, ◌-◌, ◌<◌, refl, sym, ap,
  ◌∙◌, subst, done,
}
use edysquelch.Filter.{FloatOps}
use edysquelch.Receiver.Run.Bounds.{receiver_run-short, receiver_run-stores}
use edysquelch.Receiver.Squelch.{Squelch}
use edysquelch.Receiver.Run.{
  receiver_buflen, receiver_buf_copy, make_room, Receiver, Surroundings, Result, receiver_run,
}

-- Every block of this length that the halved test lets in without a move has room.
abbrev pub Fits : ℕ → Type 0
Fits l =
    (k : ℕ)
    → receiver_buf_copy + k * l + l / 2 ≤ receiver_buflen
    → receiver_buf_copy + k * l + l ≤ receiver_buflen

-- The position is a number of blocks behind the kept part, inside the buffer.
abbrev pub InBlocks : ℕ → ℕ → Type 0
InBlocks l bufpos = (k : ℕ) × (bufpos ≡ receiver_buf_copy + k * l) × (bufpos ≤ receiver_buflen)

pub Fits-file : Fits 1020
Fits-file k h = omega (arith, h)

pub Fits-device : Fits 4096
Fits-device k h = omega (arith, h)

make_room-InBlocks :
    (buffer : ℕ → ℤ) (bufpos l : ℕ)
    → Fits l
    → l ≤ receiver_buflen / 2
    → InBlocks l bufpos
    → (receiver_buf_copy ≤ (make_room buffer bufpos 2 l).1)
      × InBlocks l ((make_room buffer bufpos 2 l).1 + l)
unfolding make_room
make_room-InBlocks buffer bufpos l fits small (k, at, inside) =
    elim (Bool-cases (ltb receiver_buflen (bufpos + l / 2))) [
      | inl moves ↦ rw moves (omega arith, (1, omega arith, omega arith))
      | inr stays ↦
          let room = fits k (ground (arith, at, stays)) in
          rw stays (omega arith, (suc k, omega arith, omega arith))
    ]

module _ (ops : FloatOps) where
  -- One block of a length that fits, for one of two channels: it is written inside the buffer, the
  -- new position is a number of blocks behind the kept part again, the block's own samples stand in
  -- front of it, and in front of them the 4096 samples from before.
  pub receiver_run_stereo :
      (env : Surroundings ops) (rx : Receiver ops) (q : Squelch) (buf : ℕ → ℤ) (len : ℕ)
      {r : Result ops}
      → receiver_run ops env rx q buf len ≡ done r
      → rx.num_ch ≡ 2
      → Fits len
      → InBlocks len rx.bufpos
      → InBlocks len r.receiver.bufpos
        × ((k : ℕ)
            → k < len
            → r.receiver.buffer_sql (r.receiver.bufpos - len + k) ≡ buf (rx.ch_ofs + k * 2))
        × ((k : ℕ)
            → k < receiver_buf_copy
            → r.receiver.buffer_sql (r.receiver.bufpos - len - receiver_buf_copy + k)
              ≡ rx.buffer_sql (rx.bufpos - receiver_buf_copy + k))
  receiver_run_stereo env rx q buf len {r} h two fits (k, at, inside) =
      let small = receiver_run-short ops env rx q buf len h in
      let (low, blocks) =
        make_room-InBlocks rx.buffer_sql rx.bufpos len fits small (k, at, inside) in
      let at_base : (make_room rx.buffer_sql rx.bufpos 2 len).1
          ≡ (make_room rx.buffer_sql rx.bufpos rx.num_ch len).1 =
        rw two refl in
      let (pos_is, written, keeps) =
        receiver_run-stores ops env rx q buf len h (omega arith) (omega arith) in
      (
        subst (InBlocks len) (ap (λ b. b + len) at_base ∙ sym pos_is) blocks,
        λ i l. written i l ∙ ap (λ n. buf (rx.ch_ofs + i * n)) two,
        keeps,
      )
