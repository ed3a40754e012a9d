-- ===== src/Memory/Balance.antt =====
-- The receivers and the buffer of main are freed as they are allocated.
use edysquelch.Prelude.{
  ℕ, ◌+◌, ◌*◌, ◌≡◌, refl, Bool, true, false, Option, none, some, arith, if◌then◌else◌,
}
use edysquelch.Memory.{Heap, runs, ◌>>=◌, Allocator, hmalloc, hfree}
use edysquelch.Memory.Safety.{
  Safe, Safe->>=, points, count, is_static, Exactly, hfree-Exactly, hmalloc-Exactly,
}
use edysquelch.Memory.Objects.{
  Sizes, float_size, short_size, FilterBlocks, ReceiverBlocks, SoundBlocks, filter_free,
  free_receiver, free_sound, filter_init_heap, init_receiver_heap, init_sound,
}
use edysquelch.Cfg.{SoundChannels, is_mono}
use edysquelch.Receiver.Run.{coeffs_l}

-- How often a structure's pointers are the address of a block.
abbrev pub filter_points : Option FilterBlocks → ℕ → ℕ
filter_points none b = 0
filter_points (some x) b = points x.taps b + points x.f b

abbrev pub receiver_points : Option ReceiverBlocks → ℕ → ℕ
receiver_points none b = 0
receiver_points (some x) b =
    filter_points x.filter_sql b + filter_points x.filter_txid b + points x.rx b

-- None of a structure's pointers is static.
abbrev pub PlainFilter : Option FilterBlocks → Type 0
PlainFilter none = Unit
PlainFilter (some x) = (is_static x.taps ≡ false) × (is_static x.f ≡ false)

abbrev pub PlainReceiver : Option ReceiverBlocks → Type 0
PlainReceiver none = Unit
PlainReceiver (some x) =
    PlainFilter x.filter_sql × PlainFilter x.filter_txid × (is_static x.rx ≡ false)

filter_free-Exactly :
    (x : Option FilterBlocks) (h : Heap) (rest : ℕ → ℕ)
    → PlainFilter x
    → Exactly (λ b. filter_points x b + rest b) h
    → Safe (Exactly rest) (filter_free x h)
unfolding filter_free
filter_free-Exactly none h rest plain owns = λ b. omega (arith, owns b)
filter_free-Exactly (some x) h rest (taps, f) owns =
    Safe->>= _ _ (hfree x.taps h) _
      (hfree-Exactly x.taps h (λ b. points x.f b + rest b) taps (λ b. omega (arith, owns b)))
      λ h1 owns1. hfree-Exactly x.f h1 rest f owns1

free_receiver-Exactly :
    (x : Option ReceiverBlocks) (h : Heap) (rest : ℕ → ℕ)
    → PlainReceiver x
    → Exactly (λ b. receiver_points x b + rest b) h
    → Safe (Exactly rest) (free_receiver x h)
unfolding free_receiver
free_receiver-Exactly none h rest plain owns = λ b. omega (arith, owns b)
free_receiver-Exactly (some x) h rest (sql, txid, rx) owns =
    let r2 : ℕ → ℕ = λ b. points x.rx b + rest b in
    let r1 : ℕ → ℕ = λ b. filter_points x.filter_txid b + r2 b in
    Safe->>= _ _ (filter_free x.filter_sql h) _
      (filter_free-Exactly x.filter_sql h r1 sql (λ b. omega (arith, owns b)))
      λ h1 owns1.
        Safe->>= _ _ (filter_free x.filter_txid h1) _
          (filter_free-Exactly x.filter_txid h1 r2 txid owns1)
          λ h2 owns2. hfree-Exactly x.rx h2 rest rx owns2

abbrev pub sound_points : SoundBlocks → ℕ → ℕ
sound_points x b = points x.buffer b + receiver_points x.rx_a b + receiver_points x.rx_b b

abbrev pub PlainSound : SoundBlocks → Type 0
PlainSound x = PlainReceiver x.rx_a × PlainReceiver x.rx_b × (is_static x.buffer ≡ false)

pub free_all-Exactly :
    (x : SoundBlocks) (h : Heap) (rest : ℕ → ℕ)
    → PlainSound x
    → Exactly (λ b. sound_points x b + rest b) h
    → Safe (Exactly rest) (free_sound x h)
unfolding free_sound
free_all-Exactly x h rest (plain_a, plain_b, plain) owns =
    let r2 : ℕ → ℕ = λ b. receiver_points x.rx_b b + rest b in
    Safe->>= _ _ (hfree x.buffer h) _
      (hfree-Exactly x.buffer h (λ b. receiver_points x.rx_a b + r2 b) plain
        (λ b. omega (arith, owns b)))
      λ h1 owns1.
        Safe->>= _ _ (free_receiver x.rx_a h1) _ (free_receiver-Exactly x.rx_a h1 r2 plain_a owns1)
          λ h2 owns2. free_receiver-Exactly x.rx_b h2 rest plain_b owns2

module _ (malloc : Allocator) (sizes : Sizes) where
  filter_init-Exactly :
      (len : ℕ) (h : Heap)
      → Safe
          (λ r. PlainFilter r.0 × Exactly (λ b. filter_points r.0 b + count h.live b) r.1)
          (filter_init_heap malloc sizes len h)
  unfolding filter_init_heap
  filter_init-Exactly len h =
      Safe->>= _ _ (hmalloc malloc sizes.of_filter h) _ (hmalloc-Exactly malloc sizes.of_filter h)
        λ r given.
          Safe->>= _ _ (hmalloc malloc (len * float_size) r.1) _
            (hmalloc-Exactly malloc (len * float_size) r.1)
            λ t more. ((refl, refl), λ b. omega (arith, given.0 b, more.0 b))

  init_receiver-Exactly :
      (h : Heap)
      → Safe
          (λ r. PlainReceiver r.0 × Exactly (λ b. receiver_points r.0 b + count h.live b) r.1)
          (init_receiver_heap malloc sizes h)
  unfolding init_receiver_heap
  init_receiver-Exactly h =
      Safe->>= _ _ (hmalloc malloc sizes.of_receiver h) _
        (hmalloc-Exactly malloc sizes.of_receiver h)
        λ r given.
          Safe->>= _ _ (filter_init_heap malloc sizes coeffs_l r.1) _
            (filter_init-Exactly coeffs_l r.1)
            λ s (sql, more).
              Safe->>= _ _ (filter_init_heap malloc sizes coeffs_l s.1) _
                (filter_init-Exactly coeffs_l s.1)
                λ t (txid, most). ((sql, txid, refl), λ b. omega (arith, given.0 b, more b, most b))

  optional-Exactly :
      (one : Bool) (h : Heap)
      → Safe
          (λ r. PlainReceiver r.0 × Exactly (λ b. receiver_points r.0 b + count h.live b) r.1)
          (if one then runs (none, h) else init_receiver_heap malloc sizes h)
  optional-Exactly true h = (tt, λ b. omega arith)
  optional-Exactly false h = init_receiver-Exactly h

  pub init_sound-Exactly :
      (channels : SoundChannels) (buffer_l : ℕ) (h : Heap)
      → Safe
          (λ r. PlainSound r.0 × Exactly (λ b. sound_points r.0 b + count h.live b) r.1)
          (init_sound malloc sizes channels buffer_l h)
  unfolding init_sound
  init_sound-Exactly channels buffer_l h =
      let size = buffer_l * short_size * (if is_mono channels then 1 else 2) in
      Safe->>= _ _ (init_receiver_heap malloc sizes h) _ (init_receiver-Exactly h)
        λ a (plain_a, first).
          Safe->>= _ _
            (if is_mono channels then runs (none, a.1) else init_receiver_heap malloc sizes a.1) _
            (optional-Exactly (is_mono channels) a.1)
            λ b (plain_b, second).
              Safe->>= _ _ (hmalloc malloc size b.1) _ (hmalloc-Exactly malloc size b.1) λ c third.
                ((plain_a, plain_b, refl), λ n. omega (arith, first n, second n, third.0 n))

  -- The receivers and the buffer that main sets up, freed behind its loop: for any channels and any
  -- length of the buffer, nothing is freed that is not allocated, and exactly the blocks that were
  -- allocated in front are allocated behind, wherever no allocation fails.
  pub free_sound-Exactly :
      (channels : SoundChannels) (buffer_l : ℕ) (h : Heap)
      → Safe
          (Exactly (count h.live))
          (init_sound malloc sizes channels buffer_l h >>= λ r. free_sound r.0 r.1)
  free_sound-Exactly channels buffer_l h =
      Safe->>= _ _ (init_sound malloc sizes channels buffer_l h) _
        (init_sound-Exactly channels buffer_l h)
        λ r (plain, owns). free_all-Exactly r.0 r.1 (count h.live) plain owns
