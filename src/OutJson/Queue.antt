-- ===== src/OutJson/Queue.antt =====
-- The linked queue is first in, first out, and loses no text.
use edysquelch.Prelude.{
  ℕ, suc, ◌+◌, ◌≡◌, refl, ap, Option, none, some, List, [], ◌∷◌, ◌++◌, length, Bytes, zero, ◌≤◌,
  ◌∙◌, arith, get_elem?, length-append, sym, subst,
}
use edysquelch.OutJson.{
  Node, at_head, at_next, JsonQueue, set_next, jsonout_push, write_tail, walk, take_queue,
  thread_round, Step, push, round, run_steps,
}
use mathlib.Core.List.{append-nil, append_assoc}

-- Nodes from index k on, each linked to the one behind it.
pub chain : ℕ → List Bytes → List Node
chain k [] = []
chain k (s ∷ []) = record { text = s; next = none } ∷ []
chain k (s ∷ t ∷ ss) = record { text = s; next = some (suc k) } ∷ chain (suc k) (t ∷ ss)

-- The queue holds the texts, in nodes behind those of `old`.
unfoldable pub Holds : List Node → JsonQueue → List Bytes → Type 0
Holds old que [] = (que.nodes ≡ old) × (que.head ≡ none) × (que.tail ≡ at_head)
Holds old que (t ∷ ts) =
    (que.nodes ≡ old ++ chain (length old) (t ∷ ts))
    × (que.head ≡ some (length old))
    × (que.tail ≡ at_next (length old + length ts))

length-chain : (k : ℕ) (ts : List Bytes) → length (chain k ts) ≡ length ts
unfolding chain
length-chain k [] = refl
length-chain k (s ∷ []) = refl
length-chain k (s ∷ t ∷ ss) = ap suc (length-chain (suc k) (t ∷ ss))

set_next-behind :
    (old rest : List Node) (j i : ℕ) (v : Option ℕ)
    → j ≡ length old + i
    → set_next (old ++ rest) j v ≡ old ++ set_next rest i v
unfolding set_next
set_next-behind [] rest j i v e = ap (λ x. set_next rest x v) (omega arith)
set_next-behind (n ∷ old) rest zero i v e = absurd (omega arith)
set_next-behind (n ∷ old) rest (suc j) i v e =
    ap (◌∷◌ n) (set_next-behind old rest j i v (omega arith))

-- Linking the last node to a new one behind it makes a longer chain.
set_next-chain :
    (k q : ℕ) (t : Bytes) (ts : List Bytes) (s : Bytes)
    → q ≡ suc k + length ts
    → set_next (chain k (t ∷ ts) ++ (record { text = s; next = none } ∷ [])) (length ts) (some q)
      ≡ chain k ((t ∷ ts) ++ (s ∷ []))
unfolding set_next chain
set_next-chain k q t [] s e = let same : q ≡ suc k = omega arith in rw same refl
set_next-chain k q t (u ∷ ts) s e =
    ap (◌∷◌ (record { text = t; next = some (suc k) }))
      (set_next-chain (suc k) q u ts s (omega arith))

-- A pushed text stands behind those that the queue held.
pub jsonout_push-Holds :
    (old : List Node) (que : JsonQueue) (ts : List Bytes) (s : Bytes)
    → Holds old que ts
    → Holds old (jsonout_push s que) (ts ++ (s ∷ []))
unfolding Holds jsonout_push write_tail chain
jsonout_push-Holds old que [] s (n, h, t) =
    (rw t (rw n refl), rw t (rw n refl), rw n (ap at_next (omega arith)))
jsonout_push-Holds old que (u ∷ ts) s (n, h, t) =
    let len = length-chain (length old) (u ∷ ts) in
    let all : length que.nodes ≡ length old + length (u ∷ ts) =
      rw n (length-append {0} old (chain (length old) (u ∷ ts)) ∙ ap (λ x. length old + x) len) in
    let behind = length-append {0} ts (s ∷ []) in
    let node : Node = record { text = s; next = none } in
    (
      rw t (
          ap (λ x. set_next (x ++ (node ∷ [])) (length old + length ts) (some (length que.nodes))) n
          ∙ ap (λ x. set_next x (length old + length ts) (some (length que.nodes)))
              (append_assoc old (chain (length old) (u ∷ ts)) (node ∷ []))
          ∙ set_next-behind old (chain (length old) (u ∷ ts) ++ (node ∷ [])) _ (length ts) _ refl
          ∙ ap (◌++◌ old) (set_next-chain (length old) (length que.nodes) u ts s (omega arith))),
      rw t h,
      ap at_next (omega arith),
    )

get_elem?-behind :
    (old rest : List Node) (j i : ℕ)
    → j ≡ length old + i
    → get_elem? (old ++ rest) j ≡ get_elem? rest i
get_elem?-behind [] rest j i e = ap (get_elem? rest) (omega arith)
get_elem?-behind (n ∷ old) rest zero i e = absurd (omega arith)
get_elem?-behind (n ∷ old) rest (suc j) i e = get_elem?-behind old rest j i (omega arith)

-- Texts pushed later do not change what a walk over the taken list reads.
walk-chain :
    (t : Bytes) (ts : List Bytes) (old more : List Node) (k fuel : ℕ)
    → k ≡ length old
    → length (t ∷ ts) ≤ fuel
    → walk fuel (old ++ (chain k (t ∷ ts) ++ more)) (some k) ≡ t ∷ ts
unfolding walk chain
walk-chain t ts old more k zero e l = absurd (omega arith)
walk-chain t [] old more k (suc fuel) e l =
    let node : Node = record { text = t; next = none } in
    let found : get_elem? (old ++ (node ∷ more)) k ≡ some node =
      get_elem?-behind old (node ∷ more) k 0 (omega arith) in
    rw (found, walk) refl
walk-chain t (u ∷ ts) old more k (suc fuel) e l =
    let node : Node = record { text = t; next = some (suc k) } in
    let rest = chain (suc k) (u ∷ ts) ++ more in
    let found : get_elem? (old ++ (node ∷ rest)) k ≡ some node =
      get_elem?-behind old (node ∷ rest) k 0 (omega arith) in
    let longer = length-append {0} old (node ∷ []) in
    let later : walk fuel (old ++ (node ∷ rest)) (some (suc k)) ≡ u ∷ ts =
      ap (λ x. walk fuel x (some (suc k))) (sym (append_assoc old (node ∷ []) rest))
      ∙ walk-chain u ts (old ++ (node ∷ [])) more (suc k) fuel (omega arith) (omega arith) in
    rw (found, walk) (ap (◌∷◌ t) later)

-- What is posted when the queue holds the texts: one batch, or nothing.
unfoldable pub batch_of : List Bytes → List (List Bytes)
batch_of [] = []
batch_of (t ∷ ts) = (t ∷ ts) ∷ []

-- A round posts the texts held as one batch, and leaves the queue empty behind the nodes there are.
pub thread_round-Holds :
    (old : List Node) (que : JsonQueue) (ts : List Bytes)
    → Holds old que ts
    → ((thread_round que).1 ≡ batch_of ts) × Holds (que.nodes) ((thread_round que).0) []
unfolding Holds thread_round take_queue batch_of
thread_round-Holds old que [] (n, h, t) = (rw h refl, (rw h refl, rw h refl, rw h t))
thread_round-Holds old que (u ∷ ts) (n, h, t) =
    let whole : que.nodes ≡ old ++ (chain (length old) (u ∷ ts) ++ []) =
      n ∙ ap (◌++◌ old) (sym (append-nil (chain (length old) (u ∷ ts)))) in
    let count = length-append {0} old (chain (length old) (u ∷ ts)) in
    let len = length-chain (length old) (u ∷ ts) in
    let all = ap (length {A = Node}) n in
    let read : walk (length que.nodes) que.nodes (some (length old)) ≡ u ∷ ts =
      ap (λ x. walk (length que.nodes) x (some (length old))) whole
      ∙ walk-chain u ts old [] (length old) (length que.nodes) refl (omega arith) in
    (rw h (ap (λ x. x ∷ []) read), (rw h refl, rw h refl, rw h refl))

-- The texts that the steps push, in order.
pub pushed : List Step → List Bytes
pushed [] = []
pushed (push s ∷ steps) = s ∷ pushed steps
pushed (round ∷ steps) = pushed steps

pub posted : List (List Bytes) → List Bytes
posted [] = []
posted (b ∷ bs) = b ++ posted bs

posted-batch_of :
    (ts : List Bytes) (bs : List (List Bytes)) → posted (batch_of ts ++ bs) ≡ ts ++ posted bs
unfolding posted batch_of
posted-batch_of [] bs = refl
posted-batch_of (t ∷ ts) bs = refl

-- However pushes and rounds of the thread follow each other, the posted batches, one behind the
-- other, and then the texts still held, are the texts held at the start and then those pushed, in
-- that order: no text is lost, doubled or overtaken.
pub run_steps-Fifo :
    (steps : List Step) (old : List Node) (que : JsonQueue) (ts : List Bytes)
    → Holds old que ts
    → (left : List Bytes) × (base : List Node) × Holds base (run_steps steps que).0 left
      × (posted (run_steps steps que).1 ++ left ≡ ts ++ pushed steps)
unfolding run_steps posted pushed
run_steps-Fifo [] old que ts h = (ts, old, h, sym (append-nil ts))
run_steps-Fifo (push s ∷ steps) old que ts h =
    let (left, base, final, e) =
      run_steps-Fifo steps old (jsonout_push s que) (ts ++ (s ∷ []))
        (jsonout_push-Holds old que ts s h) in
    (left, base, final, e ∙ append_assoc ts (s ∷ []) (pushed steps))
run_steps-Fifo (round ∷ steps) old que ts h =
    let (b, empty) = thread_round-Holds old que ts h in
    let (left, base, final, e) = run_steps-Fifo steps que.nodes (thread_round que).0 [] empty in
    let bs = (run_steps steps (thread_round que).0).1 in
    (
      left,
      base,
      final,
      ap (λ x. posted (x ++ bs) ++ left) b
          ∙ ap (λ x. x ++ left) (posted-batch_of ts bs)
          ∙ append_assoc ts (posted bs) left
          ∙ ap (◌++◌ ts) e,
    )

pub push_all : List Bytes → JsonQueue → JsonQueue
push_all [] que = que
push_all (s ∷ ss) que = push_all ss (jsonout_push s que)

push_all-Holds :
    (ss : List Bytes) (old : List Node) (que : JsonQueue) (ts : List Bytes)
    → Holds old que ts
    → Holds old (push_all ss que) (ts ++ ss)
unfolding push_all
push_all-Holds [] old que ts h = rw (append-nil ts) h
push_all-Holds (s ∷ ss) old que ts h =
    subst (λ x. Holds old (push_all ss (jsonout_push s que)) x) (append_assoc ts (s ∷ []) ss)
      (push_all-Holds ss old (jsonout_push s que) (ts ++ (s ∷ []))
        (jsonout_push-Holds old que ts s h))

Holds-nodes :
    (old : List Node) (que : JsonQueue) (ts : List Bytes)
    → Holds old que ts
    → que.nodes ≡ old ++ chain (length old) ts
unfolding Holds chain
Holds-nodes old que [] (n, h, t) = n ∙ sym (append-nil old)
Holds-nodes old que (t ∷ ts) (n, h, e) = n

-- The thread posts the list it took outside the mutex: whatever texts other threads push in the
-- meantime, the taken list still reads as the texts that were held when it was taken, with fuel for
-- as many.
pub walk-push_all :
    (ss : List Bytes) (old : List Node) (que : JsonQueue) (t : Bytes) (ts : List Bytes) (fuel : ℕ)
    → Holds old que (t ∷ ts)
    → length (t ∷ ts) ≤ fuel
    → walk fuel (push_all ss (take_queue que).1).nodes (take_queue que).0 ≡ t ∷ ts
unfolding take_queue
walk-push_all ss old que t ts fuel h l =
    let (n, head, tail) : (que.nodes ≡ old ++ chain (length old) (t ∷ ts))
        × (que.head ≡ some (length old))
        × (que.tail ≡ at_next (length old + length ts)) =
      unfold Holds in h in
    let empty : JsonQueue = record { nodes = que.nodes; head = none; tail = at_head } in
    let start : Holds que.nodes empty [] = unfold Holds in (refl, refl, refl) in
    let more = chain (length que.nodes) ss in
    let grown =
      Holds-nodes que.nodes (push_all ss empty) ss (push_all-Holds ss que.nodes empty [] start) in
    let whole : (push_all ss empty).nodes ≡ old ++ (chain (length old) (t ∷ ts) ++ more) =
      grown ∙ ap (λ x. x ++ more) n ∙ append_assoc old (chain (length old) (t ∷ ts)) more in
    rw (head) (
      ap (λ x. walk fuel x (some (length old))) whole
      ∙ walk-chain t ts old more (length old) fuel refl l)
