-- ===== src/Receiver/Notify/Ids.antt =====
-- Every end of an over is reported under the id of the opening before it, and the reports are posted
-- in their order.
use edysquelch.Prelude.{
  ◌≡◌, ◌⊎◌, Bool, true, false, Option, none, some, List, [], ◌∷◌, map, if◌then◌else◌, Bytes, codes,
  str_equal, refl, subst, inl, inr, ◌++◌,
}
use edysquelch.Receiver.Squelch.{Event, over_end, matched, opened}
use edysquelch.Receiver.Squelch.Checks.{Alternate}
use edysquelch.Receiver.Notify.{
  Value, text, Json, match_object, sql_object, over_end_object, notify, Notice, notify_all, Clock,
  queue_all,
}
use mathlib.Core.List.{append-nil, append_assoc}
use edysquelch.Receiver.Search.{Around}
use edysquelch.OutJson.Queue.{Holds, jsonout_push-Holds, batch_of, thread_round-Holds}
use edysquelch.OutJson.{Node, JsonQueue, jsonout_push, thread_round}

-- The first field of a name.
pub field_of : Bytes → Json → Option Value
field_of name [] = none
field_of name ((n, v) ∷ fields) = if str_equal n name then some v else field_of name fields

abbrev pub IsCalled : Json → Bytes → Type 0
IsCalled object event = field_of (codes "event") object ≡ some (text event)

abbrev pub HasId : Json → Bytes → Type 0
HasId object id = field_of (codes "id") object ≡ some (text id)

-- The objects report openings and ends in turns; each end has the id of the opening before it, or,
-- where an over is open at first, the given one.
pub Paired : Bool → Bytes → List Json → Bool → Type 0
Paired before id [] after = before ≡ after
Paired true id (object ∷ objects) after =
    IsCalled object (codes "sqlend") × HasId object id × Paired false id objects after
Paired false id (object ∷ objects) after =
    (new : Bytes) × (IsCalled object (codes "match") ⊎ IsCalled object (codes "sql"))
    × HasId object new
    × Paired true new objects after

abbrev pub events_of : List Notice → List Event
events_of = map (λ n. n.event)

-- One notification, with the objects that follow it as a function of the id that it leaves.
notify-Paired :
    (clock : Clock) (samples : Around) (e : Event) (es : List Event) (current : Bytes)
    (objects : Bytes → List Json) (before after : Bool)
    → ((is_open : Bool) (id : Bytes)
        → Alternate is_open es after
        → Paired is_open id (objects id) after)
    → Alternate before (e ∷ es) after
    → let (id, object) = notify clock samples e current in
      Paired before current (object ∷ objects id) after
unfolding notify match_object sql_object over_end_object Paired field_of str_equal
notify-Paired clock samples (matched note) es current objects false after rest h =
    (_, inl refl, refl, rest true _ h)
notify-Paired clock samples (opened l n) es current objects false after rest h =
    (_, inr refl, refl, rest true _ h)
notify-Paired clock samples (over_end d) es current objects true after rest h =
    (refl, refl, rest false current h)
notify-Paired clock samples (matched note) es current objects true after rest h = absurd h
notify-Paired clock samples (opened l n) es current objects true after rest h = absurd h
notify-Paired clock samples (over_end d) es current objects false after rest h = absurd h

-- Notifications that take turns become objects that take turns, and each end of an over is reported
-- under the event id of the opening before it, or under the current id for an over that was open at
-- first.
pub notify_all-Paired :
    (ns : List Notice) (current : Bytes) (before after : Bool)
    → Alternate before (events_of ns) after
    → Paired before current (notify_all ns current).1 after
unfolding notify_all
notify_all-Paired [] current before after h = unfold Paired in h
notify_all-Paired (n ∷ ns) current before after h =
    notify-Paired n.clock n.samples n.event (events_of ns) current (λ id. (notify_all ns id).1)
      before after (λ is_open id. notify_all-Paired ns id is_open after) h

queue_all-Holds :
    (print : Json → Bytes) (objects : List Json) (old : List Node) (que : JsonQueue)
    (ts : List Bytes)
    → Holds old que ts
    → Holds old (queue_all print objects que) (ts ++ map print objects)
unfolding queue_all
queue_all-Holds print [] old que ts h = rw (append-nil ts) h
queue_all-Holds print (object ∷ objects) old que ts h =
    subst (Holds old (queue_all print objects (jsonout_push (print object) que)))
      (append_assoc ts (print object ∷ []) (map print objects))
      (queue_all-Holds print objects old (jsonout_push (print object) que)
        (ts ++ (print object ∷ [])) (jsonout_push-Holds old que ts (print object) h))

-- Whatever the queue holds, the next round of the thread posts the texts held and, behind them, the
-- printed objects of the notifications sent in the meantime, in their order and as one batch.
pub thread_round-queue_all :
    (print : Json → Bytes) (ns : List Notice) (current : Bytes) (old : List Node) (que : JsonQueue)
    (ts : List Bytes)
    → Holds old que ts
    → let objects = (notify_all ns current).1 in
      (thread_round (queue_all print objects que)).1 ≡ batch_of (ts ++ map print objects)
thread_round-queue_all print ns current old que ts h =
    let objects = (notify_all ns current).1 in
    (thread_round-Holds old (queue_all print objects que) (ts ++ map print objects)
      (queue_all-Holds print objects old que ts h)).0
