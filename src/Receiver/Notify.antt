-- ===== src/Receiver/Notify.antt =====
-- The notifications of src/receiver.c: event_id, notify_out, notify_out_sql, notify_out_over_end and
-- notify_queue. The JSON library is a parameter: how it prints an object.
pub mod Ids
use edysquelch.Prelude.{
  ℕ, zero, suc, ◌+◌, ◌-◌, ◌/◌, Option, none, some, List, [], ◌∷◌, length, take, ℤ, pos, negsuc,
  ◌+ℤ◌, Bytes, codes, joined,
}
use edysquelch.OutJson.{JsonQueue, jsonout_push, Tm, padded}
use edysquelch.Receiver.Search.{Around, MatchNote}
use edysquelch.Receiver.Squelch.{absval_divider, open_scan_len, Event, over_end, matched, opened}
use edysquelch.Fingerpori.{Samples}

-- The fields of an object, in the order in which they are added.
pub data Value : Type 0 where
  text : Bytes → Value
  number : ℤ → Value
  shorts : List ℤ → Value

abbrev pub Json : Type 0
Json = List (Bytes × Value)

-- What a notification reads besides its arguments: gettimeofday, with the date and the microseconds,
-- and time(NULL).
pub record Clock : Type 0 where
  pub day_time : Option (Tm × ℕ)
  pub now : ℤ

-- The text of event_id before it is cut.
unfoldable pub id_text : Tm → ℕ → Bytes
unfolding padded
id_text tm usec = joined (
    padded 4 (tm.tm_year + 1900)
    ∷ padded 2 (tm.tm_mon + 1)
    ∷ padded 2 tm.tm_mday
    ∷ codes "-"
    ∷ padded 2 tm.tm_hour
    ∷ padded 2 tm.tm_min
    ∷ padded 2 tm.tm_sec
    ∷ codes "."
    ∷ padded 3 (usec / 1000)
    ∷ [])

-- sizeof(current_event_id)
abbrev pub id_size : ℕ
id_size = 48

-- The text in the buffer, which snprintf cuts to buflen-2 characters, and the value returned.
unfoldable pub event_id : Option (Tm × ℕ) → ℕ → Bytes × ℤ
unfolding id_text
event_id none buflen = ([], negsuc 0)
event_id (some (tm, usec)) buflen =
    (take (buflen - 2) (id_text tm usec), pos (length (id_text tm usec)))

-- The array of `count` samples, with the rounds left and the index of the next one.
unfoldable pub short_loop : Samples → ℕ → ℕ → List ℤ
short_loop samples zero i = []
short_loop samples (suc n) i = samples i ∷ short_loop samples n (i + 1)

unfoldable pub short_array : Samples → ℕ → List ℤ
unfolding short_loop
short_array samples count = short_loop samples count 0

unfoldable pub match_object : Bytes → Clock → Around → MatchNote → Json
unfolding short_array
match_object id clock samples note =
    (codes "id", text id)
    ∷ (codes "event", text (codes "match"))
    ∷ (codes "t", number clock.now)
    ∷ (codes "duration", number (negsuc 0))
    ∷ (codes "q", number (pos note.q))
    ∷ (codes "fplen", number (pos note.fp.len))
    ∷ (codes "name", text note.fp.name)
    ∷ (codes "fp", shorts (short_array note.fp.samples note.fp.len))
    ∷ (codes "rx", shorts (short_array (λ i. samples (note.from +ℤ pos i)) note.count))
    ∷ (codes "rxofs", number (pos note.ofs))
    ∷ (codes "lnoise", number note.last_noise)
    ∷ []

unfoldable pub sql_object : Bytes → Clock → List ℤ → ℤ → Json
sql_object id clock samples last_noise =
    (codes "id", text id)
    ∷ (codes "event", text (codes "sql"))
    ∷ (codes "t", number clock.now)
    ∷ (codes "duration", number (negsuc 0))
    ∷ (codes "lnoise", number last_noise)
    ∷ (codes "rx", shorts samples)
    ∷ []

unfoldable pub over_end_object : Bytes → Clock → ℕ → Json
over_end_object id clock duration =
    (codes "id", text id)
    ∷ (codes "event", text (codes "sqlend"))
    ∷ (codes "t", number clock.now)
    ∷ (codes "duration", number (pos duration))
    ∷ []

-- The last noise that copy_buffer passes.
abbrev pub last_noise_ofs : ℤ
last_noise_ofs = pos (open_scan_len - absval_divider)

-- current_event_id after a notification, and the object that it builds.
unfoldable pub notify : Clock → Around → Event → Bytes → Bytes × Json
unfolding event_id match_object sql_object over_end_object
notify clock samples (matched note) current =
    let id = (event_id clock.day_time id_size).0 in (id, match_object id clock samples note)
notify clock samples (opened filtered n) current =
    let id = (event_id clock.day_time id_size).0 in
    (id, sql_object id clock (take n filtered) last_noise_ofs)
notify clock samples (over_end duration) current = (current, over_end_object current clock duration)

-- A notification with what it reads.
pub record Notice : Type 0 where
  pub clock : Clock
  pub samples : Around
  pub event : Event

-- The notifications in order: current_event_id in the end, and the objects.
unfoldable pub notify_all : List Notice → Bytes → Bytes × List Json
unfolding notify
notify_all [] current = (current, [])
notify_all (n ∷ ns) current =
    let (id, object) = notify n.clock n.samples n.event current in
    let (last, objects) = notify_all ns id in (last, object ∷ objects)

-- notify_queue: the printed object is pushed.
unfoldable pub queue_all : (Json → Bytes) → List Json → JsonQueue → JsonQueue
unfolding jsonout_push
queue_all print [] que = que
queue_all print (object ∷ objects) que = queue_all print objects (jsonout_push (print object) que)
