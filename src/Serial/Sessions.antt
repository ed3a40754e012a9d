-- ===== src/Serial/Sessions.antt =====
-- What is left of opening and closing the serial port.
use edysquelch.Prelude.{
  ℕ, ◌+◌, ◌≡◌, refl, ◌⊎◌, inl, inr, Bool, true, false, not, ◌&&◌, Option, none, some, List, [],
  Bool-cases, ℤ, pos, negsuc, ltb_ℤ,
}
use edysquelch.Memory.{block, Heap, Run, runs, ◌>>=◌, Allocator, hmalloc, hfree}
use edysquelch.Memory.Safety.{
  Safe, Safe->>=, if-Safe, points, count, is_static, Exactly, hfree-Exactly, hmalloc-Exactly,
}
use edysquelch.Serial.{
  Termios, SerialState, SerialLog, SerialCalls, is_minus_one, set_options, Opening, serial_init,
  serial_close,
}

-- The port is opened, and closed where it was opened.
abbrev pub close_opened : Option SerialState → Bool → Heap → Run (ℤ × List SerialLog × Heap)
close_opened none close_done h = runs (negsuc 0, [], h)
close_opened (some x) close_done h = serial_close x close_done h

-- 8 data bits, no parity, one stop bit, 4800 baud, raw.
abbrev pub IsRaw : Option Termios → Type 0
IsRaw none = ⊥
IsRaw (some o) =
    (o.ispeed ≡ 4800)
    × (o.ospeed ≡ 4800)
    × (o.csize ≡ 8)
    × (o.parenb ≡ false)
    × (o.cstopb ≡ false)
    × (o.icanon ≡ false)
    × (o.opost ≡ false)

pub data Session (calls : SerialCalls) (before : Heap) (applied : Option Termios) (ret : ℤ)
    (after : Heap) : Type 0 where
  whole :
      is_minus_one calls.fd ≡ false
      → IsRaw applied
      → Exactly (count before.live) after
      → Session calls before applied ret after
  leaks :
      (p : ℕ)
      → is_minus_one calls.fd ≡ true
      → applied ≡ none
      → ret ≡ negsuc 0
      → Exactly (λ b. points (block p) b + count before.live b) after
      → Session calls before applied ret after

serial_close-Exactly :
    (x : SerialState) (close_done : Bool) (h : Heap) (rest : ℕ → ℕ)
    → is_static x.state ≡ false
    → Exactly (λ b. points x.state b + rest b) h
    → Safe (λ r. Exactly rest r.2) (serial_close x close_done h)
unfolding serial_close
serial_close-Exactly x close_done h rest plain owns =
    Safe->>= _ _ (hfree x.state h) _ (hfree-Exactly x.state h rest plain owns)
      λ h1 freed. if-Safe _ (not (ltb_ℤ x.fd (pos 0)) && not close_done) _ _ freed freed

module _ (malloc : Allocator) (size : ℕ) (calls : SerialCalls) (close_done : Bool) where
  abbrev pub session : Heap → Run (Option Termios × ℤ × Heap)
  session h = serial_init malloc size calls h >>= λ r.
      close_opened r.0.returned close_done r.1 >>= λ c. runs (r.0.applied, c.0, c.2)

  -- What serial_init returns on either path.
  abbrev Inits : Heap → Opening × Heap → Type 0
  Inits h (o, h1) =
      ((is_minus_one calls.fd ≡ false)
        × (x : SerialState) × (o.returned ≡ some x)
        × (is_static x.state ≡ false)
        × IsRaw o.applied
        × Exactly (λ b. points x.state b + count h.live b) h1)
      ⊎ ((is_minus_one calls.fd ≡ true)
          × (p : ℕ) × (o.returned ≡ none)
          × (o.applied ≡ none)
          × Exactly (λ b. points (block p) b + count h.live b) h1)

  serial_init-Inits : (h : Heap) → Safe (Inits h) (serial_init malloc size calls h)
  unfolding serial_init set_options
  serial_init-Inits h =
      Safe->>= _ _ (hmalloc malloc size h) _ (hmalloc-Exactly malloc size h) λ r given.
        elim (Bool-cases (is_minus_one calls.fd)) [
          | inl y ↦ rw (y, Safe) (inr (y, r.0, refl, refl, given.0))
          | inr n ↦
              rw (n, Safe)
                (inl (
                  n,
                  record { state = block r.0; fd = calls.fd },
                  refl,
                  refl,
                  (refl, refl, refl, refl, refl, refl, refl),
                  given.0,
                ))
        ]

  -- A port that is opened and closed again leaves exactly the blocks from before allocated, and was
  -- set to 4800 baud, 8 data bits, no parity and one stop bit, whatever tcgetattr gave and whether
  -- it and the other calls failed. A port that cannot be opened is not set, and leaves one block
  -- more allocated than before, to which nothing points.
  pub session-Session : (h : Heap) → Safe (λ r. Session calls h r.0 r.1 r.2) (session h)
  session-Session h =
      Safe->>= _ _ (serial_init malloc size calls h) _ (serial_init-Inits h) λ r init. elim init [
        | inl (opens, x, returns, plain, raw, owns) ↦ rw returns (
            Safe->>= _ _ (serial_close x close_done r.1) _
              (serial_close-Exactly x close_done r.1 (count h.live) plain owns)
              λ c freed. whole opens raw freed)
        | inr (fails, p, returns, unset, owns) ↦ rw returns (leaks p fails unset refl owns)
      ]
