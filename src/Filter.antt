-- ===== src/Filter.antt =====
-- src/filter.c and src/filter.h: the FIR filter over a linear buffer that is moved down when it is
-- full. The C floats are a parameter: the operations of an unknown type.
pub mod History
mod Tests
use edysquelch.Prelude.{
  ℕ, zero, suc, ◌+◌, ◌-◌, List, [], ◌∷◌, ltb, ◌==◌, if◌then◌else◌, length, ℤ, pos, ltb_ℤ,
}

-- The float operations that the code uses; nothing is assumed of them.
pub record FloatOps : Type 1 where
  pub Float : Type 0
  pub zero_float : Float
  pub add : Float → Float → Float
  pub mul : Float → Float → Float
  pub of_short : ℤ → Float
  pub to_short : Float → ℤ

-- BufferLen
abbrev pub buffer_len : ℕ
buffer_len = 1024

-- memcpy(dst, src + from, n), with the ranges apart or not: it reads before it writes.
abbrev pub copy_down {ℓ} : {A : Type ℓ} → (ℕ → A) → ℕ → ℕ → ℕ → A
copy_down buf from n i = if ltb i n then buf (from + i) else buf i

module _ (ops : FloatOps) where
  open ops use {Float, zero_float, add, mul, of_short, to_short}

  -- struct filter
  pub record Filter : Type 0 where
    pub length : ℕ
    pub taps : ℕ → Float
    pub buffer : ℕ → Float
    pub pointer : ℕ

  -- The loop of mac, with the rounds left: sum += a[i] * b[i].
  unfoldable pub mac_loop : (ℕ → Float) → (ℕ → Float) → ℕ → ℕ → Float → Float
  mac_loop a b zero i sum = sum
  mac_loop a b (suc n) i sum = mac_loop a b n (i + 1) (add sum (mul (a i) (b i)))

  unfoldable pub mac : (ℕ → Float) → (ℕ → Float) → ℕ → Float
  unfolding mac_loop
  mac a b size = mac_loop a b size 0 zero_float

  unfoldable pub filter_init : ℕ → (ℕ → Float) → Filter
  filter_init len taps = record {
    length = len;
    taps = taps;
    buffer = λ _. zero_float;
    pointer = len;
  }

  -- What both loops do after a sample: the pointer moves on, and a full buffer is moved down.
  unfoldable pub advance : Filter → Filter
  advance f =
      if f.pointer + 1 == buffer_len
      then record f {
        buffer = copy_down f.buffer (buffer_len - f.length) f.length;
        pointer = f.length;
      }
      else record f { pointer = f.pointer + 1 }

  abbrev pub write_at : (ℕ → Float) → ℕ → Float → ℕ → Float
  write_at buf p x i = if i == p then x else buf i

  -- filter_run: the sum is taken over the `length` places before the sample just written.
  unfoldable pub filter_run : Filter → Float → Filter × Float
  unfolding advance
  filter_run f x =
      let g = record f { buffer = write_at f.buffer f.pointer x } in
      (advance g, mac (λ i. g.buffer (g.pointer - g.length + i)) g.taps g.length)

  -- filter_run_buf from input index `id` on, with the rounds left: the filter, the peak, and the
  -- output samples.
  unfoldable pub run_buf_loop : Filter → (ℕ → ℤ) → ℕ → ℕ → ℕ → ℤ → Filter × ℤ × List ℤ
  unfolding advance
  run_buf_loop f input step zero id maxval = (f, maxval, [])
  run_buf_loop f input step (suc n) id maxval =
      let g = record f { buffer = write_at f.buffer f.pointer (of_short (input id)) } in
      let out = to_short (mac (λ i. g.buffer (g.pointer - g.length + i)) g.taps g.length) in
      let peak = if ltb_ℤ maxval (input id) then input id else maxval in
      let (h, m, rest) = run_buf_loop (advance g) input step n (id + step) peak in
      (h, m, out ∷ rest)

  unfoldable pub filter_run_buf : Filter → (ℕ → ℤ) → ℕ → ℕ → Filter × ℤ × List ℤ
  unfolding run_buf_loop
  filter_run_buf f input step len = run_buf_loop f input step len 0 (pos 0)
