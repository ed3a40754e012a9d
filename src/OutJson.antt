-- ===== src/OutJson.antt =====
-- src/out_json.c: the queue of JSON texts for the uplinks, and the thread that sends them.
pub mod Queue
pub mod Posting
pub mod Ending
mod Tests
use edysquelch.Prelude.{
  ℕ, zero, suc, ◌+◌, ◌/◌, ◌%◌, Bool, Option, none, some, List, [], ◌∷◌, ◌++◌, ltb, if◌then◌else◌,
  length, get_elem?, Bytes, codes, true, false, not, ◌&&◌, ℤ, pos, negsuc, ◌-ℤ◌, is_zero, ◌-◌, take,
  joined,
}

-- The list behind out_json_que, as a heap: the node with a number, if it was allocated.
pub record Node : Type 0 where
  pub text : Bytes
  pub next : Option ℕ

-- out_json_tail is the address of a pointer: the global out_json_que, or the `next` of a node.
pub data Tail : Type 0 where
  at_head : Tail
  at_next : ℕ → Tail

pub record JsonQueue : Type 0 where
  pub nodes : List Node
  pub head : Option ℕ
  pub tail : Tail

unfoldable pub empty_queue : JsonQueue
empty_queue = record { nodes = []; head = none; tail = at_head }

-- Writes the `next` of one node.
unfoldable pub set_next : List Node → ℕ → Option ℕ → List Node
set_next [] i v = []
set_next (n ∷ ns) zero v = record { text = n.text; next = v } ∷ ns
set_next (n ∷ ns) (suc i) v = n ∷ set_next ns i v

-- `*out_json_tail = q`
unfoldable pub write_tail : Tail → ℕ → JsonQueue → JsonQueue
unfolding set_next
write_tail at_head q que = record que { head = some q }
write_tail (at_next i) q que = record que { nodes = set_next que.nodes i (some q) }

-- jsonout_push; hmalloc gives the next node.
unfoldable pub jsonout_push : Bytes → JsonQueue → JsonQueue
unfolding write_tail
jsonout_push s que =
    let q = length que.nodes in
    let node : Node = record { text = s; next = none } in
    let linked = write_tail que.tail q (record que { nodes = que.nodes ++ (node ∷ []) }) in
    record linked { tail = at_next q }

-- The texts from a pointer on, on fuel.
unfoldable pub walk : ℕ → List Node → Option ℕ → List Bytes
walk fuel ns none = []
walk zero ns (some i) = []
walk (suc fuel) ns (some i) = elim (get_elem? ns i) [
  | none ↦ []
  | some n ↦ n.text ∷ walk fuel ns n.next
]

-- The part of jsonout_thread under the mutex: the list is taken, and the queue is empty again. The
-- nodes are not freed.
unfoldable pub take_queue : JsonQueue → Option ℕ × JsonQueue
take_queue que = (que.head, record { nodes = que.nodes; head = none; tail = at_head })

-- The parts of a form: a name, the content type and the content.
pub record FormPart : Type 0 where
  pub name : Bytes
  pub content_type : Bytes
  pub contents : Bytes

unfoldable repeated : ℕ → ℕ → Bytes
repeated zero c = []
repeated (suc n) c = c ∷ repeated n c

-- The decimal digits of a number: snprintf "%d".
unfoldable pub decimal_loop : ℕ → ℕ → Bytes → Bytes
decimal_loop zero n out = out
decimal_loop (suc fuel) n out =
    let digits = (b'0' + n % 10) ∷ out in
    let rest = decimal_loop fuel (n / 10) digits in if ltb n 10 then digits else rest

unfoldable pub decimal : ℕ → Bytes
unfolding decimal_loop
decimal n = decimal_loop (suc n) n []

unfoldable pub text_parts : ℕ → List Bytes → List FormPart
unfolding decimal
text_parts n [] =
    record { name = codes "c"; content_type = codes "text/plain"; contents = decimal n } ∷ []
text_parts n (s ∷ ss) =
    record { name = decimal n; content_type = codes "application/json"; contents = s }
    ∷ text_parts (suc n) ss

-- The form that jsonout_post_all builds.
unfoldable pub post_form : List Bytes → List FormPart
unfolding text_parts
post_form texts =
    record { name = codes "what"; content_type = codes "text/plain"; contents = codes "edy" }
    ∷ text_parts 0 texts

-- UPLINK_JSON is the one protocol that is sent to.
pub record Uplink : Type 0 where
  pub is_json : Bool
  pub url : Bytes

-- The sends of jsonout_post_all, in order.
unfoldable pub post_all : List Uplink → List Bytes → List (List FormPart × Bytes)
unfolding post_form
post_all [] texts = []
post_all (u ∷ us) texts =
    if u.is_json then (post_form texts, u.url) ∷ post_all us texts else post_all us texts

-- A round of jsonout_thread that has slept: the texts taken, if the queue was not empty.
unfoldable pub thread_round : JsonQueue → JsonQueue × List (List Bytes)
unfolding take_queue walk
thread_round que = elim que.head [
  | none ↦ (que, [])
  | some i ↦ ((take_queue que).1, walk (length que.nodes) que.nodes (take_queue que).0 ∷ [])
]

-- What the threads do to the queue, in the order in which they get the mutex.
pub data Step : Type 0 where
  push : Bytes → Step
  round : Step

-- The queue in the end, and the batches that were posted.
unfoldable pub run_steps : List Step → JsonQueue → JsonQueue × List (List Bytes)
unfolding jsonout_push thread_round
run_steps [] que = (que, [])
run_steps (push s ∷ steps) que = run_steps steps (jsonout_push s que)
run_steps (round ∷ steps) que =
    let (after, batch) = thread_round que in
    let (final, batches) = run_steps steps after in (final, batch ++ batches)

-- The statuses of the six curl_easy_setopt calls, of curl_easy_perform and of curl_easy_getinfo, in
-- order, each made only if all before it gave 0: the value left in `r`, which is `r` before.
unfoldable pub last_status : ℤ → List ℕ → ℤ
last_status r [] = r
last_status r (zero ∷ statuses) = last_status (pos 0) statuses
last_status r (suc n ∷ statuses) = pos (suc n)

abbrev pub all_done : List ℕ → Bool
all_done [] = true
all_done (zero ∷ statuses) = all_done statuses
all_done (suc n ∷ statuses) = false

-- jsonout_post_single: whether curl_easy_init and curl_slist_append gave something, the statuses,
-- the code of the server, and what `r` holds uninitialised. `retcode` is 200 until it is asked for.
unfoldable pub jsonout_post_single : Bool → Bool → List ℕ → ℤ → ℤ → ℤ
unfolding last_status
jsonout_post_single has_handle has_headers statuses code garbage =
    if not has_handle
    then pos 1
    else if has_headers && all_done statuses && not (is_zero (code -ℤ pos 200))
    then negsuc 0
    else if has_headers
    then last_status garbage statuses
    else garbage

-- struct tm, as far as time_jsonais reads it, with years since 1900 and months from 0.
pub record Tm : Type 0 where
  pub tm_year : ℕ
  pub tm_mon : ℕ
  pub tm_mday : ℕ
  pub tm_hour : ℕ
  pub tm_min : ℕ
  pub tm_sec : ℕ

-- "%04d" and "%02d": zeros in front up to the width.
unfoldable pub padded : ℕ → ℕ → Bytes
unfolding decimal repeated
padded width n = repeated (width - length (decimal n)) b'0' ++ decimal n

unfoldable pub time_text : Tm → Bytes
unfolding padded
time_text dt =
    padded 4 (dt.tm_year + 1900)
    ++ (padded 2 (dt.tm_mon + 1)
        ++ (padded 2 dt.tm_mday
            ++ (padded 2 dt.tm_hour ++ (padded 2 dt.tm_min ++ padded 2 dt.tm_sec))))

-- time_jsonais with what gmtime_r gives: the text in the buffer, cut to its size, and the value
-- returned, which is the length of the whole text.
unfoldable pub time_jsonais : Option Tm → ℕ → Bytes × ℤ
unfolding time_text
time_jsonais none buflen = ([], negsuc 0)
time_jsonais (some dt) buflen =
    if ltb buflen 15
    then ([], negsuc 0)
    else (take (buflen - 1) (time_text dt), pos (length (time_text dt)))

-- jsonout_init for the status of pthread_create, and jsonout_deinit for that of pthread_join.
unfoldable pub jsonout_init : ℤ → ℤ
jsonout_init created = if is_zero created then pos 0 else negsuc 0

unfoldable pub jsonout_deinit : ℤ → ℤ
jsonout_deinit joined = if is_zero joined then pos 0 else negsuc 0
