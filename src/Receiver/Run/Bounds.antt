-- ===== src/Receiver/Run/Bounds.antt =====
-- Where receiver_run reads and writes its buffer.
use edysquelch.Prelude.{
  ℕ, ◌+◌, ◌-◌, ◌*◌, ◌/◌, ◌≤◌, ◌<◌, ◌↔◌, arith, ℤ, ◌≡◌, refl, ap, inl, inr, true, false, ltb, ◌==◌,
  Bool-cases, done, ◌∙◌, ◌⊎◌, All, aborted, halted, >>=-eq-done, sym, subst,
}
use edysquelch.Receiver.Run.{
  receiver_buflen, receiver_buf_copy, make_room, Receiver, Surroundings, Result, feed_of,
  receiver_run,
}
use edysquelch.Filter.{FloatOps, filter_run_buf}
use edysquelch.Receiver.Squelch.{Squelch, Copy, copy_buffer}
use edysquelch.Receiver.Squelch.Totality.{copy_buffer-Returns, Returns->>=}
use edysquelch.Receiver.Squelch.Checks.{Alternate}
use edysquelch.Receiver.Squelch.Runs.{copy_buffer-Alternate, copy_buffer-copies}

-- The write position lies between the kept part and the end of the buffer.
abbrev pub InBuffer : ℕ → Type 0
InBuffer bufpos = (receiver_buf_copy ≤ bufpos) × (bufpos ≤ receiver_buflen)

-- For one channel and any block that the code accepts: the room that is made holds the whole
-- block, and the position stays in range with it. A move happens only when the moved part lies
-- apart from the start that it is copied to.
pub make_room-fits :
    (buffer : ℕ → ℤ) (bufpos len : ℕ)
    → InBuffer bufpos
    → len ≤ receiver_buflen / 2
    → ((make_room buffer bufpos 1 len).1 + len ≤ receiver_buflen)
      × (receiver_buf_copy ≤ (make_room buffer bufpos 1 len).1)
      × ((receiver_buflen < bufpos + len → receiver_buf_copy ≤ bufpos - receiver_buf_copy))
unfolding make_room
make_room-fits buffer bufpos len inside small = ground arith

-- For two channels the test halves the block: the block does not fit exactly when
-- 16384 - len < bufpos and bufpos <= 16384 - len / 2.
pub make_room-stereo :
    (buffer : ℕ → ℤ) (bufpos len : ℕ)
    → InBuffer bufpos
    → len ≤ receiver_buflen / 2
    → (receiver_buflen < (make_room buffer bufpos 2 len).1 + len)
      ↔ ((receiver_buflen < bufpos + len) × (bufpos + len / 2 ≤ receiver_buflen))
unfolding make_room
make_room-stereo buffer bufpos len inside small = ground arith

-- The 4096 samples before the write position are the same before and after making room.
make_room-history :
    (buffer : ℕ → ℤ) (bufpos num_ch len k : ℕ)
    → receiver_buf_copy ≤ bufpos
    → k < receiver_buf_copy
    → (make_room buffer bufpos num_ch len).0
        ((make_room buffer bufpos num_ch len).1 - receiver_buf_copy + k)
      ≡ buffer (bufpos - receiver_buf_copy + k)
unfolding make_room
make_room-history buffer bufpos num_ch len k h l =
    elim (Bool-cases (ltb receiver_buflen (bufpos + len / num_ch))) [
      | inl y ↦
          let inside : ltb (0 + k) receiver_buf_copy ≡ true = ground arith in
          rw (y, inside) (ap (λ i. buffer (bufpos - receiver_buf_copy + i)) (omega arith))
      | inr n ↦ rw n refl
    ]

module _ (ops : FloatOps) where
  -- The parts of a call that returns.
  record Called (env : Surroundings ops) (rx : Receiver ops) (q : Squelch) (buf : ℕ → ℤ) (len : ℕ)
      (r : Result ops) : Type 0 where
    copy : Copy
    count : ℕ
    short_enough : len ≤ receiver_buflen / 2
    copied :
        copy_buffer
          (feed_of ops env rx buf
            (filter_run_buf ops rx.filter_sql (λ i. buf (rx.ch_ofs + i)) rx.num_ch len).2
            (make_room rx.buffer_sql rx.bufpos rx.num_ch len).1)
          len
          q
          (make_room rx.buffer_sql rx.bufpos rx.num_ch len).0
        ≡ done (copy, count)
    position : r.receiver.bufpos ≡ (make_room rx.buffer_sql rx.bufpos rx.num_ch len).1 + count
    buffer : r.receiver.buffer_sql ≡ copy.out
    channels : r.receiver.num_ch ≡ rx.num_ch
    squelch : r.sql ≡ copy.sql
    notified : r.events ≡ copy.events

  receiver_run-Called :
      (env : Surroundings ops) (rx : Receiver ops) (q : Squelch) (buf : ℕ → ℤ) (len : ℕ)
      {r : Result ops}
      → receiver_run ops env rx q buf len ≡ done r
      → Called env rx q buf len r
  unfolding receiver_run
  receiver_run-Called env rx q buf len {r} h = elim (Bool-cases (ltb (receiver_buflen / 2) len)) [
    | inl y ↦ absurd (ground arith)
    | inr n ↦
        let some_ch : (rx.num_ch == 0) ≡ false = elim (Bool-cases (rx.num_ch == 0)) [
          | inl none_ch ↦ absurd (let h' = rw (n, none_ch) at h in cc)
          | inr some_ch ↦ some_ch
        ] in
        let (c, copied, rest) = >>=-eq-done _ _ (rw (n, some_ch) at h) in
        record {
          copy = c.0;
          count = c.1;
          short_enough = ground arith;
          copied = copied;
          position = cc;
          buffer = cc;
          channels = cc;
          squelch = cc;
          notified = cc;
        }
  ]

  pub receiver_run-short :
      (env : Surroundings ops) (rx : Receiver ops) (q : Squelch) (buf : ℕ → ℤ) (len : ℕ)
      {r : Result ops}
      → receiver_run ops env rx q buf len ≡ done r
      → len ≤ receiver_buflen / 2
  receiver_run-short env rx q buf len h =
      let called = receiver_run-Called env rx q buf len h in called.short_enough

  -- The notifications of a call take turns, from the state of the squelch before to that behind.
  pub receiver_run-Alternate :
      (env : Surroundings ops) (rx : Receiver ops) (q : Squelch) (buf : ℕ → ℤ) (len : ℕ)
      {r : Result ops}
      → receiver_run ops env rx q buf len ≡ done r
      → Alternate q.sql_open r.events r.sql.sql_open
  receiver_run-Alternate env rx q buf len {r} h =
      let called = receiver_run-Called env rx q buf len h in
      let turns = copy_buffer-Alternate _ len q _ called.copied in
      subst (λ sql. Alternate q.sql_open r.events sql.sql_open) (sym called.squelch)
        (subst (λ es. Alternate q.sql_open es called.copy.sql.sql_open) (sym called.notified) turns)

  -- What a call that returns stores, where the position and that behind the move leave the kept part
  -- whole.
  pub receiver_run-stores :
      (env : Surroundings ops) (rx : Receiver ops) (q : Squelch) (buf : ℕ → ℤ) (len : ℕ)
      {r : Result ops}
      → receiver_run ops env rx q buf len ≡ done r
      → let base = (make_room rx.buffer_sql rx.bufpos rx.num_ch len).1 in
        receiver_buf_copy ≤ rx.bufpos
        → receiver_buf_copy ≤ base
        → (r.receiver.bufpos ≡ base + len)
          × ((k : ℕ)
              → k < len
              → r.receiver.buffer_sql (r.receiver.bufpos - len + k)
                ≡ buf (rx.ch_ofs + k * rx.num_ch))
          × ((k : ℕ)
              → k < receiver_buf_copy
              → r.receiver.buffer_sql (r.receiver.bufpos - len - receiver_buf_copy + k)
                ≡ rx.buffer_sql (rx.bufpos - receiver_buf_copy + k))
  receiver_run-stores env rx q buf len {r} h low low_base =
      let called = receiver_run-Called env rx q buf len h in
      let (counted, written, keeps) = copy_buffer-copies _ len q _ called.copied in
      let base = (make_room rx.buffer_sql rx.bufpos rx.num_ch len).1 in
      let pos_is : r.receiver.bufpos ≡ base + len = called.position ∙ ap (◌+◌ base) counted in
      let behind : r.receiver.bufpos - len ≡ base = omega arith in
      (
        pos_is,
        λ k l. rw (behind, called.buffer) (written k l),
        λ k l.
            rw (behind, called.buffer)
              (keeps (base - receiver_buf_copy + k) (inl (omega arith))
                ∙ make_room-history rx.buffer_sql rx.bufpos rx.num_ch len k low l),
      )

  -- One block of a single channel, for a position in range: the new position is in range and right
  -- behind the block, the block stands in the buffer in front of it, and in front of the block
  -- stand the 4096 samples that stood before the old position, so that a scan of the last 2400
  -- samples never reads what is not there.
  pub receiver_run_mono :
      (env : Surroundings ops) (rx : Receiver ops) (q : Squelch) (buf : ℕ → ℤ) (len : ℕ)
      {r : Result ops}
      → receiver_run ops env rx q buf len ≡ done r
      → rx.num_ch ≡ 1
      → InBuffer rx.bufpos
      → InBuffer r.receiver.bufpos
        × ((k : ℕ)
            → k < len
            → r.receiver.buffer_sql (r.receiver.bufpos - len + k) ≡ buf (rx.ch_ofs + k))
        × ((k : ℕ)
            → k < receiver_buf_copy
            → r.receiver.buffer_sql (r.receiver.bufpos - len - receiver_buf_copy + k)
              ≡ rx.buffer_sql (rx.bufpos - receiver_buf_copy + k))
  receiver_run_mono env rx q buf len {r} h one inside =
      let called = receiver_run-Called env rx q buf len h in
      let (fits, low, apart) =
        make_room-fits rx.buffer_sql rx.bufpos len inside called.short_enough in
      let at_base : (make_room rx.buffer_sql rx.bufpos 1 len).1
          ≡ (make_room rx.buffer_sql rx.bufpos rx.num_ch len).1 =
        rw one refl in
      let (pos_is, written, keeps) =
        receiver_run-stores env rx q buf len h inside.0 (omega arith) in
      (
        omega arith,
        λ k l. written k l ∙ ap (λ i. buf (rx.ch_ofs + i)) (rw one (omega arith)),
        keeps,
      )

  -- With at least one channel, a block is refused by an abort exactly when it is longer than half of
  -- the buffer; any other call returns, if no empty fingerprint is loaded.
  pub receiver_run-aborts :
      (env : Surroundings ops) (rx : Receiver ops) (q : Squelch) (buf : ℕ → ℤ) (len : ℕ)
      → All (λ fp. 0 < fp.len) env.fps
      → (rx.num_ch == 0) ≡ false
      → ((receiver_buflen / 2 < len) × (receiver_run ops env rx q buf len ≡ halted aborted))
        ⊎ ((len ≤ receiver_buflen / 2)
            × ((r : Result ops) × (receiver_run ops env rx q buf len ≡ done r)))
  unfolding receiver_run
  receiver_run-aborts env rx q buf len none_empty some_ch =
      elim (Bool-cases (ltb (receiver_buflen / 2) len)) [
        | inl y ↦ inl (ground arith, rw y refl)
        | inr n ↦ inr (
          ground arith,
          rw (n, some_ch)
              (Returns->>= _ _ (copy_buffer-Returns _ len q _ none_empty) (λ c. (_, refl))),
        )
      ]

  -- The number of channels of a receiver does not change.
  pub receiver_run-num_ch :
      (env : Surroundings ops) (rx : Receiver ops) (q : Squelch) (buf : ℕ → ℤ) (len : ℕ)
      {r : Result ops}
      → receiver_run ops env rx q buf len ≡ done r
      → r.receiver.num_ch ≡ rx.num_ch
  receiver_run-num_ch env rx q buf len h =
      let called = receiver_run-Called env rx q buf len h in called.channels
