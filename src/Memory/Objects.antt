-- ===== src/Memory/Objects.antt =====
-- The structures that are allocated and freed as wholes: filter_init and filter_free of
-- src/filter.c, init_receiver and free_receiver of src/receiver.c, fingerprint_alloc and
-- fingerprint_free of src/fingerpori.c, and what main of src/edysquelch.c does with them.
use edysquelch.Prelude.{ℕ, ◌*◌, Option, none, some, if◌then◌else◌}
use edysquelch.Memory.{Pointer, null, block, Heap, Run, runs, ◌>>=◌, Allocator, hmalloc, hfree}
use edysquelch.Cfg.{SoundChannels, is_mono}
use edysquelch.Receiver.Run.{coeffs_l}

-- What the compiler's sizeof gives.
pub record Sizes : Type 0 where
  pub of_filter : ℕ
  pub of_receiver : ℕ
  pub of_fingerprint : ℕ

-- sizeof(float) and sizeof(short)
abbrev pub float_size : ℕ
float_size = 4

abbrev pub short_size : ℕ
short_size = 2

pub record FilterBlocks : Type 0 where
  pub f : Pointer
  pub taps : Pointer

pub record ReceiverBlocks : Type 0 where
  pub rx : Pointer
  pub filter_sql : Option FilterBlocks
  pub filter_txid : Option FilterBlocks

pub record FingerprintBlocks : Type 0 where
  pub fp : Pointer
  pub name : Pointer
  pub samples : Pointer

-- `rx_a`, `rx_b`, which is NULL for one channel, and `buffer`.
pub record SoundBlocks : Type 0 where
  pub rx_a : Option ReceiverBlocks
  pub rx_b : Option ReceiverBlocks
  pub buffer : Pointer

unfoldable pub filter_free : Option FilterBlocks → Heap → Run Heap
unfolding hfree
filter_free none h = runs h
filter_free (some x) h = do h1 ← hfree x.taps h; hfree x.f h1

unfoldable pub free_receiver : Option ReceiverBlocks → Heap → Run Heap
unfolding filter_free
free_receiver none h = runs h
free_receiver (some x) h = do
  h1 ← filter_free x.filter_sql h
  h2 ← filter_free x.filter_txid h1
  hfree x.rx h2

unfoldable pub fingerprint_free : FingerprintBlocks → Heap → Run Heap
unfolding hfree
fingerprint_free x h = do h1 ← hfree x.name h; h2 ← hfree x.samples h1; hfree x.fp h2

-- What main frees behind its loop.
unfoldable pub free_sound : SoundBlocks → Heap → Run Heap
unfolding free_receiver
free_sound x h = do h1 ← hfree x.buffer h; h2 ← free_receiver x.rx_a h1; free_receiver x.rx_b h2

module _ (malloc : Allocator) (sizes : Sizes) where
  unfoldable pub filter_init_heap : ℕ → Heap → Run (Option FilterBlocks × Heap)
  unfolding hmalloc
  filter_init_heap len h = do
    (f, h1) ← hmalloc malloc sizes.of_filter h
    (taps, h2) ← hmalloc malloc (len * float_size) h1
    runs (some (record { f = block f; taps = block taps }), h2)

  unfoldable pub init_receiver_heap : Heap → Run (Option ReceiverBlocks × Heap)
  unfolding filter_init_heap
  init_receiver_heap h = do
    (rx, h1) ← hmalloc malloc sizes.of_receiver h
    (filter_sql, h2) ← filter_init_heap coeffs_l h1
    (filter_txid, h3) ← filter_init_heap coeffs_l h2
    runs (some (record { rx = block rx; filter_sql = filter_sql; filter_txid = filter_txid }), h3)

  -- The memset leaves the other pointers NULL.
  unfoldable pub fingerprint_alloc : Heap → Run (FingerprintBlocks × Heap)
  unfolding hmalloc
  fingerprint_alloc h = do
    (fp, h1) ← hmalloc malloc sizes.of_fingerprint h
    runs (record { fp = block fp; name = null; samples = null }, h1)

  -- What main allocates in front of its loop, with the frames of the buffer.
  unfoldable pub init_sound : SoundChannels → ℕ → Heap → Run (SoundBlocks × Heap)
  unfolding init_receiver_heap
  init_sound channels buffer_l h = do
    (rx_a, h1) ← init_receiver_heap h
    (rx_b, h2) ← if is_mono channels then runs (none, h1) else init_receiver_heap h1
    (buffer, h3) ← hmalloc malloc (buffer_l * short_size * (if is_mono channels then 1 else 2)) h2
    runs (record { rx_a = rx_a; rx_b = rx_b; buffer = block buffer }, h3)
