-- ===== src/ShmMq/History.antt =====
-- CShmMQ (shmcommu.cpp) over many calls: `dequeue`, which drops messages that are too old, and any
-- sequence of `enqueue` and `dequeue_i`.
use spp_server_frame_work.Base.{
  ℕ, zero, suc, ◌<◌, ◌≤◌, ◌≡◌, refl, ap₂, Bool, List, [], ◌∷◌, ◌++◌, some, if◌then◌else◌, length,
  arith, Bool-cases, inl, inr,
}
use spp_server_frame_work.Delay.{Timeval}
use spp_server_frame_work.ShmMq.{
  ShmMq, Blob, Message, Ret, Dequeued, got, mq_empty, enqueue, dequeue_i, dequeue, is_stale,
  take_message, max_blob_data_len,
}
use spp_server_frame_work.ShmMq.Refine.{size, IsSendable, Queues, push, message, enqueue_refines}
use spp_server_frame_work.ShmMq.Edge.{pop, IsDeliverable, dequeue_i_refines}

-- A message with a body that fits the receiver's buffer.
abbrev pub HasBody : Message → Type 0
HasBody m = (27 < size m) × (length m.content ≤ max_blob_data_len)

abbrev pub AllHaveBody : List Message → Type 0
AllHaveBody [] = Unit {0}
AllHaveBody (m ∷ ms) = HasBody m × AllHaveBody ms

-- A call leaves the size of the block and the time limit as they are.
blocksize-enqueue :
    (q : ShmMq) (blob : Blob) (flow msgtype : ℕ) (now : Timeval)
    → (enqueue q blob flow msgtype now).0.blocksize ≡ q.blocksize
unfolding enqueue
blocksize-enqueue q blob flow msgtype now = ground arith

blocksize-dequeue_i : (q : ShmMq) → (dequeue_i q).0.blocksize ≡ q.blocksize
unfolding dequeue_i take_message
blocksize-dequeue_i q = ground arith

msg_timeout-dequeue_i : (q : ShmMq) → (dequeue_i q).0.msg_timeout ≡ q.msg_timeout
unfolding dequeue_i take_message
msg_timeout-dequeue_i q = ground arith

AllHaveBody-append :
    (ms : List Message) (m : Message) → AllHaveBody ms → HasBody m → AllHaveBody (ms ++ m ∷ [])
AllHaveBody-append [] m b h = (h, tt)
AllHaveBody-append (x ∷ ms) m b h = (b.0, AllHaveBody-append ms m b.1 h)

push-AllHaveBody :
    (cap : ℕ) (ms : List Message) (m : Message)
    → AllHaveBody ms
    → HasBody m
    → AllHaveBody (push cap ms m).0
unfolding push
push-AllHaveBody cap ms m b h = ground (arith, AllHaveBody-append ms m b h)

pop-AllHaveBody : (ms : List Message) → AllHaveBody ms → AllHaveBody (pop ms).0
unfolding pop
pop-AllHaveBody [] b = tt
pop-AllHaveBody (m ∷ ms) b = b.1

-- A message with a body is never the one that goes wrong.
deliverable : (q : ShmMq) (ms : List Message) → AllHaveBody ms → IsDeliverable q ms
deliverable q [] b = tt
deliverable q (m ∷ ms) b = (b.0.1, λ edge. omega (arith, b.0.0, edge.1))

-- The oldest message that is not too old, dropping those before it.
unfoldable pub pop_fresh : (ℕ → Message → Bool) → ℕ → List Message → List Message × Dequeued
pop_fresh old fuel [] = ([], mq_empty)
pop_fresh old zero (m ∷ ms) = (m ∷ ms, mq_empty)
pop_fresh old (suc fuel) (m ∷ ms) = if old fuel m then pop_fresh old fuel ms else (ms, got m)

-- For a ring that holds messages, each with a body that fits the receiver's buffer: with more rounds
-- than messages `dequeue` ends. It answers with the oldest message that is not
-- too old at the time its age is read, or with an empty queue, and has dropped just those before.
pub dequeue_refines :
    (fuel : ℕ) (clock : ℕ → Timeval) {q : ShmMq} (ms : List Message)
    → Queues q ms
    → AllHaveBody ms
    → length ms < fuel
    → let (ms', expected) = pop_fresh (λ n m. is_stale q.msg_timeout (clock n) m) fuel ms in
      (q' : ShmMq) × (dequeue fuel q clock ≡ some (q', expected)) × Queues q' ms'
unfolding dequeue pop_fresh pop
dequeue_refines zero clock ms v b h = absurd (omega arith)
dequeue_refines (suc fuel) clock {q} [] v b h =
    let r = dequeue_i_refines [] v tt in ((dequeue_i q).0, rw (r.0, dequeue), r.1)
dequeue_refines (suc fuel) clock {q} (m ∷ ms) v b h =
    let r = dequeue_i_refines (m ∷ ms) v (b.0.1, λ edge. omega arith) in
    elim (Bool-cases (is_stale q.msg_timeout (clock fuel) m)) [
      | inl old ↦
          let ih =
            rw (msg_timeout-dequeue_i q) at
              (dequeue_refines fuel clock {q = (dequeue_i q).0} ms r.1 b.1 (omega arith)) in
          (ih.0, rw (r.0, dequeue, msg_timeout-dequeue_i q, old) ih.1, rw old ih.2)
      | inr fresh ↦
          ((dequeue_i q).0, rw (r.0, dequeue, msg_timeout-dequeue_i q, fresh) refl, rw fresh r.1)
    ]

pub data Op : Type 0 where
  put : Blob → ℕ → ℕ → Timeval → Op
  get : Op

pub data Reply : Type 0 where
  put_reply : Ret → Reply
  get_reply : Dequeued → Reply

-- The calls of producers and consumers, one after the other, and what each returns.
unfoldable pub run : ShmMq → List Op → List Reply
run q [] = []
run q (put blob flow msgtype now ∷ ops) =
    let (q', ret) = enqueue q blob flow msgtype now in put_reply ret ∷ run q' ops
run q (get ∷ ops) = let (q', r) = dequeue_i q in get_reply r ∷ run q' ops

unfoldable pub run_queue : ℕ → List Message → List Op → List Reply
run_queue cap ms [] = []
run_queue cap ms (put blob flow msgtype now ∷ ops) =
    let (ms', ret) = push cap ms (message blob flow msgtype now) in
    put_reply ret ∷ run_queue cap ms' ops
run_queue cap ms (get ∷ ops) = let (ms', r) = pop ms in get_reply r ∷ run_queue cap ms' ops

abbrev pub AllGood : List Op → Type 0
AllGood [] = Unit {0}
AllGood (put blob flow msgtype now ∷ ops) =
    IsSendable (message blob flow msgtype now)
    × HasBody (message blob flow msgtype now)
    × AllGood ops
AllGood (get ∷ ops) = AllGood ops

-- Whatever calls are made, in whatever order, the ring gives the answers of the bounded queue of the
-- messages that it holds, as long as all messages have a body and fit their fields and buffers.
pub run_refines :
    (ops : List Op) {q : ShmMq} (ms : List Message)
    → Queues q ms
    → AllHaveBody ms
    → AllGood ops
    → run q ops ≡ run_queue q.blocksize ms ops
unfolding run run_queue
run_refines [] ms v b g = refl
run_refines (put blob flow msgtype now ∷ ops) {q} ms v b g =
    let e = enqueue_refines ms blob flow msgtype now v g.0 in
    let later =
      run_refines ops (push q.blocksize ms (message blob flow msgtype now)).0 e.1
        (push-AllHaveBody q.blocksize ms (message blob flow msgtype now) b g.1) g.2 in
    ap₂ (λ r rest. put_reply r ∷ rest) e.0 (rw (blocksize-enqueue q blob flow msgtype now) at later)
run_refines (get ∷ ops) {q} ms v b g =
    let e = dequeue_i_refines ms v (deliverable q ms b) in
    let later = run_refines ops (pop ms).0 e.1 (pop-AllHaveBody ms b) g in
    ap₂ (λ r rest. get_reply r ∷ rest) e.0 (rw (blocksize-dequeue_i q) at later)
