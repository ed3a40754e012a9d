-- ===== src/OutJson/Ending.antt =====
-- How jsonout_thread of src/out_json.c ends: it looks at jsonout_die, sleeps, and then takes what the
-- queue holds, whatever jsonout_die has become by then.
use edysquelch.Prelude.{◌≡◌, Bool, true, List, [], ◌∷◌, ◌++◌, if◌then◌else◌, Bytes}
use edysquelch.OutJson.{Node, JsonQueue, jsonout_push, thread_round}
use edysquelch.OutJson.Queue.{Holds, batch_of}

-- Where the thread is: about to look at jsonout_die, in its sleep, or returned.
pub data Phase : Type 0 where
  looking : Phase
  sleeping : Phase
  over : Phase

-- The queue with jsonout_die, and where the thread is.
pub record Thread : Type 0 where
  pub que : JsonQueue
  pub jsonout_die : Bool
  pub phase : Phase

-- A push by another thread, a move of jsonout_thread, or the start of jsonout_deinit.
pub data Act : Type 0 where
  pushes : Bytes → Act
  moves : Act
  dies : Act

-- What the thread does next. The list is its own once it is taken, so that what is posted is known
-- at the taking.
turn : Phase → Thread → Thread × List (List Bytes)
unfolding thread_round
turn looking th =
    if th.jsonout_die
    then (record th { phase = over }, [])
    else (record th { phase = sleeping }, [])
turn sleeping th =
    let (que, batches) = thread_round th.que in (record th { que = que; phase = looking }, batches)
turn over th = (th, [])

-- The thread after an act, and the batches that are posted.
unfoldable pub act : Act → Thread → Thread × List (List Bytes)
unfolding jsonout_push turn
act (pushes s) th = (record th { que = jsonout_push s th.que }, [])
act dies th = (record th { jsonout_die = true }, [])
act moves th = turn th.phase th

unfoldable pub run_acts : List Act → Thread → Thread × List (List Bytes)
unfolding act
run_acts [] th = (th, [])
run_acts (a ∷ acts) th =
    let (next, batches) = act a th in
    let (last, more) = run_acts acts next in (last, batches ++ more)

-- The texts that the acts push.
abbrev pub pushed_by : List Act → List Bytes
pushed_by [] = []
pushed_by (pushes s ∷ acts) = s ∷ pushed_by acts
pushed_by (moves ∷ acts) = pushed_by acts
pushed_by (dies ∷ acts) = pushed_by acts

abbrev IsAwake : Phase → Type 0
IsAwake looking = Unit
IsAwake sleeping = ⊥
IsAwake over = Unit

abbrev dead : JsonQueue → Phase → Thread
dead que phase = record { que = que; jsonout_die = true; phase = phase }

-- What comes of the texts held and pushed.
abbrev pub Shares : Thread × List (List Bytes) → List Bytes → List Bytes → Type 0
Shares r sent all =
    (kept : List Bytes) × (base : List Node) × (r.1 ≡ batch_of sent)
    × Holds base r.0.que kept
    × (sent ++ kept ≡ all)
