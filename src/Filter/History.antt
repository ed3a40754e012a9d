-- ===== src/Filter/History.antt =====
-- The filter against its specification: a convolution with the inputs so far.
use mathlib.Core.Path.{ap₂}
use edysquelch.Prelude.{
  ℕ, zero, suc, ◌+◌, ◌-◌, ◌≤◌, ◌<◌, ◌≡◌, refl, arith, inl, inr, true, List, [], ◌∷◌, ltb, ◌==◌,
  Bool-cases, ℤ, ap, if◌then◌else◌, pos, ltb_ℤ,
}
use edysquelch.Filter.{
  FloatOps, buffer_len, Filter, mac_loop, mac, filter_init, advance, write_at, filter_run,
  run_buf_loop, filter_run_buf,
}

-- The inputs so far, the latest one first at 0; a new one is put in front.
abbrev pub push {ℓ} : {A : Type ℓ} → A → (ℕ → A) → ℕ → A
push x past zero = x
push x past (suc k) = past k

module _ (ops : FloatOps) where
  open ops use {Float, zero_float, of_short, to_short}

  -- The pointer leaves room on both sides, and the buffer holds the latest `length` inputs.
  pub record Holds (f : Filter ops) (past : ℕ → Float) : Type 0 where
    pub low : f.length ≤ f.pointer
    pub high : f.pointer < buffer_len
    pub latest : (k : ℕ) → k < f.length → f.buffer (f.pointer - (k + 1)) ≡ past k

  -- The output for the inputs so far: tap `i` is multiplied with the input `length - i` steps back.
  abbrev pub convolve : ℕ → (ℕ → Float) → (ℕ → Float) → Float
  convolve len taps past = mac ops (λ i. past (len - (i + 1))) taps len

  pub filter_init-Holds :
      (len : ℕ) (taps : ℕ → Float)
      → len < buffer_len
      → Holds (filter_init ops len taps) (λ _. zero_float)
  unfolding filter_init
  filter_init-Holds len taps h = record { low = omega arith; high = h; latest = λ k l. refl }

  mac_loop-eq :
      (a b c : ℕ → Float) (n i : ℕ) (sum : Float)
      → ((j : ℕ) → j < i + n → a j ≡ b j)
      → mac_loop ops a c n i sum ≡ mac_loop ops b c n i sum
  unfolding mac_loop
  mac_loop-eq a b c zero i sum h = refl
  mac_loop-eq a b c (suc n) i sum h =
      rw (h i (omega arith)) (mac_loop-eq a b c n (i + 1) _ (λ j l. h j (omega arith)))

  -- The two cases of a place: the one just written, and those behind it.
  written-latest :
      (f : Filter ops) (past : ℕ → Float) (x : Float)
      → Holds f past
      → (k : ℕ) → k < f.length
      → write_at ops f.buffer f.pointer x (f.pointer - k) ≡ push x past k
  written-latest f past x h zero l = ground arith
  written-latest f past x h (suc k) l = ground (arith, h.low, h.latest k (omega arith))

  advance-latest :
      (f : Filter ops) (past : ℕ → Float) (x : Float)
      → Holds f past
      → (k : ℕ) → k < f.length
      → let g = advance ops (record f { buffer = write_at ops f.buffer f.pointer x }) in
        g.buffer (g.pointer - (k + 1)) ≡ push x past k
  unfolding advance
  advance-latest f past x h k l = elim (Bool-cases (f.pointer + 1 == buffer_len)) [
    | inl full ↦
        let place : buffer_len - f.length + (f.length - (k + 1)) ≡ f.pointer - k = ground arith in
        let inside : ltb (f.length - (k + 1)) f.length ≡ true = ground arith in
        rw (full, inside, place) (written-latest f past x h k l)
    | inr room ↦
        let place : f.pointer + 1 - (k + 1) ≡ f.pointer - k = omega arith in
        rw (room, place) (written-latest f past x h k l)
  ]

  advance-Holds :
      (f : Filter ops) (past : ℕ → Float) (x : Float)
      → Holds f past
      → Holds (advance ops (record f { buffer = write_at ops f.buffer f.pointer x })) (push x past)
  advance-Holds f past x h = record {
    low = unfold advance in ground arith;
    high = unfold advance in ground arith;
    latest = λ k l. advance-latest f past x h k (unfold advance in ground arith);
  }

  before :
      (f : Filter ops) (past : ℕ → Float) (x : Float)
      → Holds f past
      → (j : ℕ) → j < f.length
      → write_at ops f.buffer f.pointer x (f.pointer - f.length + j) ≡ past (f.length - (j + 1))
  before f past x h j l =
      let place : f.pointer - (f.length - (j + 1) + 1) ≡ f.pointer - f.length + j =
        omega (arith, h.low) in
      ground (arith, h.low, place, h.latest (f.length - (j + 1)) (omega arith))

  -- One sample: the output is the convolution with the inputs before this one, and the buffer then
  -- holds this one too, whether or not it was moved down.
  pub filter_run-convolve :
      (f : Filter ops) (past : ℕ → Float) (x : Float)
      → Holds f past
      → ((filter_run ops f x).1 ≡ convolve f.length f.taps past)
        × Holds (filter_run ops f x).0 (push x past)
  unfolding filter_run mac
  filter_run-convolve f past x h = (
    mac_loop-eq _ _ f.taps f.length 0 zero_float (λ j l. before f past x h j (omega arith)),
    advance-Holds f past x h,
  )

  -- The inputs so far after `n` more of them.
  pub fed : (ℕ → ℤ) → ℕ → ℕ → ℕ → (ℕ → Float) → ℕ → Float
  fed input step zero id past = past
  fed input step (suc n) id past = fed input step n (id + step) (push (of_short (input id)) past)

  -- What the specification gives for the samples, one after the other.
  pub convolutions : ℕ → (ℕ → Float) → (ℕ → ℤ) → ℕ → ℕ → ℕ → (ℕ → Float) → List ℤ
  convolutions len taps input step zero id past = []
  convolutions len taps input step (suc n) id past =
      to_short (convolve len taps past)
      ∷ convolutions len taps input step n (id + step) (push (of_short (input id)) past)

  advance-keeps :
      (f : Filter ops) → ((advance ops f).length ≡ f.length) × ((advance ops f).taps ≡ f.taps)
  unfolding advance
  advance-keeps f = ground arith

  run_buf_loop-convolutions :
      (input : ℕ → ℤ) (step n id : ℕ) (f : Filter ops) (past : ℕ → Float) (m : ℤ)
      → Holds f past
      → ((run_buf_loop ops f input step n id m).2
          ≡ convolutions f.length f.taps input step n id past)
        × Holds (run_buf_loop ops f input step n id m).0 (fed input step n id past)
  unfolding run_buf_loop convolutions fed
  run_buf_loop-convolutions input step zero id f past m h = (refl, h)
  run_buf_loop-convolutions input step (suc n) id f past m h =
      let x = of_short (input id) in
      let g = advance ops (record f { buffer = write_at ops f.buffer f.pointer x }) in
      let peak = if ltb_ℤ m (input id) then input id else m in
      let (now, held) = filter_run-convolve f past x h in
      let (same_len, same_taps) =
        advance-keeps (record f { buffer = write_at ops f.buffer f.pointer x }) in
      let (outs, last) =
        run_buf_loop-convolutions input step n (id + step) g (push x past) peak
          (unfold filter_run in held) in
      (ap₂ ◌∷◌ (ap to_short (unfold filter_run in now)) (rw (same_len, same_taps) at outs), last)

  -- Filtering a whole block of interleaved samples, however often the buffer is moved down on the
  -- way: output `k` is the convolution with the inputs before input `k`, and the buffer then holds
  -- the latest inputs.
  pub filter_run_buf-convolutions :
      (f : Filter ops) (past : ℕ → Float) (input : ℕ → ℤ) (step len : ℕ)
      → Holds f past
      → ((filter_run_buf ops f input step len).2
          ≡ convolutions f.length f.taps input step len 0 past)
        × Holds (filter_run_buf ops f input step len).0 (fed input step len 0 past)
  unfolding filter_run_buf
  filter_run_buf-convolutions f past input step len h =
      run_buf_loop-convolutions input step len 0 f past (pos 0) h
