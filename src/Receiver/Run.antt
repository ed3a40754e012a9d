-- ===== src/Receiver/Run.antt =====
-- struct receiver and receiver_run of src/receiver.c and src/receiver.h.
pub mod Bounds
pub mod Stereo
use edysquelch.Prelude.{
  ℕ, ◌+◌, ◌-◌, ◌*◌, ◌/◌, Bool, not, ◌&&◌, ◌||◌, List, [], ◌∷◌, ltb, if◌then◌else◌, get_or, ℤ, pos,
  negsuc, pos_part, ◌-ℤ◌, ltb_ℤ, is_zero, ◌==◌, aborted, divided_by_zero, Outcome, done, halted,
  ◌>>=◌,
}
use edysquelch.Filter.{FloatOps, copy_down, Filter, filter_init, filter_run_buf}
use edysquelch.Fingerpori.{Fingerprint}
use edysquelch.Receiver.Search.{Around}
use edysquelch.Receiver.Squelch.{Squelch, Event, Feed, copy_buffer}

-- RECEIVER_BUFLEN, COEFFS_L and RECEIVER_BUF_COPY
abbrev pub receiver_buflen : ℕ
receiver_buflen = 16384

abbrev pub coeffs_l : ℕ
coeffs_l = 36

abbrev pub receiver_buf_copy : ℕ
receiver_buf_copy = receiver_buflen / 4

-- The level messages of the log; each carries the largest sample.
pub data LevelLog : Type 0 where
  too_high level_is : ℤ → LevelLog

-- level > 99.0, for level = maxval / 32768 * 100
abbrev pub is_too_high : ℤ → Bool
is_too_high maxval = ltb (99 * 32768) (100 * pos_part maxval)

-- The two branches of the level log; `now` is time(NULL). The second part is `last_levellog`.
unfoldable pub log_level : ℤ → ℤ → ℤ → ℤ → List LevelLog × ℤ
log_level sound_levellog now last maxval =
    let level_distance = now -ℤ last in
    if is_too_high maxval
      && (not (ltb_ℤ level_distance (pos 30)) || not (ltb_ℤ level_distance sound_levellog))
    then (too_high maxval ∷ [], now)
    else if not (is_zero sound_levellog) && not (ltb_ℤ level_distance sound_levellog)
    then (level_is maxval ∷ [], now)
    else ([], last)

-- The move of the buffer: the last 4096 samples go to its start. There is at least one channel.
unfoldable pub make_room : (ℕ → ℤ) → ℕ → ℕ → ℕ → (ℕ → ℤ) × ℕ
make_room buffer bufpos num_ch len =
    if ltb receiver_buflen (bufpos + len / num_ch)
    then (copy_down buffer (bufpos - receiver_buf_copy) receiver_buf_copy, receiver_buf_copy)
    else (buffer, bufpos)

module _ (ops : FloatOps) where
  -- struct receiver; `buffer_txid` and `filter_txid` are set up and never used.
  pub record Receiver : Type 0 where
    pub filter_sql : Filter ops
    pub name : ℕ
    pub num_ch : ℕ
    pub ch_ofs : ℕ
    pub last_levellog : ℤ
    pub bufpos : ℕ
    pub buffer_sql : ℕ → ℤ

  -- init_receiver, with the coefficients of the highpass as an argument.
  unfoldable pub init_receiver : (ℕ → ops.Float) → ℕ → ℕ → ℕ → Receiver
  init_receiver coeffs_sql name num_ch ch_ofs = record {
    filter_sql = filter_init ops coeffs_l coeffs_sql;
    name = name;
    num_ch = num_ch;
    ch_ofs = ch_ofs;
    last_levellog = pos 0;
    bufpos = receiver_buflen / 4;
    buffer_sql = λ _. negsuc 15999;
  }

  -- What a call gets besides the receiver and the block: the fingerprints, the configuration, the
  -- time, and the uninitialised stack of the search.
  pub record Surroundings : Type 0 where
    pub fps : List Fingerprint
    pub sound_levellog : ℤ
    pub now : ℤ
    pub stack : ℕ → Around
    pub garbage : ℕ → ℤ

  pub record Result : Type 0 where
    pub receiver : Receiver
    pub sql : Squelch
    pub events : List Event
    pub log : List LevelLog

  -- The call of copy_buffer that follows the filter: input, highpass and place.
  abbrev pub feed_of : Surroundings → Receiver → (ℕ → ℤ) → List ℤ → ℕ → Feed
  feed_of env rx buf hp bufpos = record {
    fps = env.fps;
    input = λ i. buf (rx.ch_ofs + i);
    step = rx.num_ch;
    highpass = λ i. get_or hp i (pos 0);
    base = bufpos;
    stack = env.stack;
    garbage = env.garbage;
  }

  unfoldable pub receiver_run : Surroundings → Receiver → Squelch → (ℕ → ℤ) → ℕ → Outcome Result
  receiver_run env rx q buf len =
      if ltb (receiver_buflen / 2) len
      then halted aborted
      else if rx.num_ch == 0
      then halted divided_by_zero
      else (do
        let room = make_room rx.buffer_sql rx.bufpos rx.num_ch len
        let filtered = filter_run_buf ops rx.filter_sql (λ i. buf (rx.ch_ofs + i)) rx.num_ch len
        copied ← copy_buffer (feed_of env rx buf filtered.2 room.1) len q room.0
        let level = log_level env.sound_levellog env.now rx.last_levellog copied.0.maxval
        done (record {
          receiver = record rx {
            filter_sql = filtered.0;
            last_levellog = level.1;
            bufpos = room.1 + copied.1;
            buffer_sql = copied.0.out;
          };
          sql = copied.0.sql;
          events = copied.0.events;
          log = level.0;
        }))
