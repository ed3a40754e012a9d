-- ===== src/OutJson/Tests.antt =====
-- Runs of the queue, and the theorems at concrete inputs.
use edysquelch.Prelude.{
  ◌≡◌, refl, List, [], ◌∷◌, ◌++◌, Bytes, codes, ℕ, Bool, true, false, pos, some,
}
use edysquelch.OutJson.{
  Node, JsonQueue, empty_queue, jsonout_push, thread_round, Step, push, round, run_steps,
  jsonout_post_single, decimal_loop, decimal, padded, time_text, time_jsonais,
}
use edysquelch.OutJson.Posting.{Posted, jsonout_post_single_lem}
use edysquelch.OutJson.Ending.{Thread, Act, sleeping, pushes, moves, run_acts}
use edysquelch.OutJson.Queue.{Holds, pushed, posted, run_steps-Fifo}

abbrev texts : List Step
texts =
    push (codes "a")
    ∷ push (codes "b")
    ∷ round
    ∷ round
    ∷ push (codes "c")
    ∷ round
    ∷ push (codes "d")
    ∷ []

run_steps-texts :
    (run_steps texts empty_queue).1 ≡ (codes "a" ∷ codes "b" ∷ []) ∷ (codes "c" ∷ []) ∷ []
unfolding run_steps thread_round jsonout_push empty_queue
run_steps-texts = refl

empty-Holds : Holds [] empty_queue []
unfolding empty_queue Holds
empty-Holds = (refl, refl, refl)

run_steps_example :
    (left : List Bytes) × (base : List Node) × Holds base (run_steps texts empty_queue).0 left
    × (posted (run_steps texts empty_queue).1 ++ left ≡ pushed texts)
run_steps_example = run_steps-Fifo texts [] empty_queue [] empty-Holds

abbrev one_text : JsonQueue
one_text = jsonout_push (codes "a") empty_queue

-- The last of the calls fails.
abbrev statuses : List ℕ
statuses = 0 ∷ 0 ∷ 0 ∷ 0 ∷ 0 ∷ 0 ∷ 28 ∷ []

post_single_example :
    let posted_as = λ (handle : Bool) (headers : Bool).
      jsonout_post_single handle headers (0 ∷ statuses) (pos 200) (pos 9) in
    Posted (0 ∷ statuses) (pos 200) (posted_as true true)
    × ((headers : Bool) → posted_as false headers ≡ pos 1)
    × (posted_as true false ≡ pos 9)
post_single_example = jsonout_post_single_lem 0 statuses (pos 200) (pos 9)

time_jsonais-run :
    time_jsonais
      (some
        (record { tm_year = 113; tm_mon = 0; tm_mday = 9; tm_hour = 12; tm_min = 0; tm_sec = 59 }))
      32
    ≡ (codes "20130109120059", pos 14)
unfolding time_jsonais time_text padded decimal decimal_loop
time_jsonais-run = refl

-- A text is held and the thread sleeps when jsonout_die is set.
abbrev dying : Thread
dying = record { que = one_text; jsonout_die = true; phase = sleeping }

abbrev last_acts : List Act
last_acts = pushes (codes "b") ∷ moves ∷ pushes (codes "c") ∷ moves ∷ []

run_acts-posts : (run_acts last_acts dying).1 ≡ (codes "a" ∷ codes "b" ∷ []) ∷ []
unfolding run_acts jsonout_push thread_round empty_queue
run_acts-posts = refl
