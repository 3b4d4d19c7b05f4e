-- ===== src/TShmCommu/Traffic.antt =====
-- Messages between two servers over the queues of CTShmCommu (shmcommu.cpp): what one side gives to
-- `sendto` is what the callback of the other side gets from `poll`.
use spp_server_frame_work.Base.{
  ℕ, ◌+◌, ◌<◌, ◌≡◌, refl, ap, ◌∙◌, Bool, false, List, [], ◌∷◌, some, ◌==◌, if◌then◌else◌, length,
  arith, Bool-cases, inl, inr, ◌⊎◌, subst, ==-eq_false, lt→not_leb,
}
use spp_server_frame_work.Delay.{Timeval}
use spp_server_frame_work.ShmMq.{ShmMq, Blob, Message, success, Dequeued, got, is_stale}
use spp_server_frame_work.ShmMq.Refine.{
  Queues, IsSendable, message, push, size, total_size, enqueue_refines,
}
use spp_server_frame_work.ShmMq.History.{HasBody, AllHaveBody, pop_fresh, dequeue_refines}
use spp_server_frame_work.TShmCommu.{
  Callback, cb_recvdata, cb_senddata, cb_senderror, Event, called, TShmCommu, call, dispatch,
  attached, check_expire, erase, received, poll, sendto, is_success,
}

-- For a ring that holds messages with bodies, and more rounds than messages: `poll` ends, with the
-- answer of the queue of messages, the callbacks for it, and the ring holding the rest.
pub poll_refines :
    (registered : Callback → Bool) (fuel : ℕ) (clock : ℕ → Timeval) (now : ℕ) (c : TShmCommu)
    (ms : List Message)
    → Queues c.comsumer ms
    → AllHaveBody ms
    → length ms < fuel
    → let (ms', answer) = pop_fresh (λ n m. is_stale c.comsumer.msg_timeout (clock n) m) fuel ms in
      (q' : ShmMq) × (poll registered fuel clock now c ≡ (
        let (c', events) = received registered now (record c { comsumer = q' }) answer in
        some (answer, c', events)))
      × Queues q' ms'
unfolding poll
poll_refines registered fuel clock now c ms v b enough =
    let (q', e, v') = dequeue_refines fuel clock ms v b enough in (q', rw (poll, e) refl, v')

-- For a ring that holds messages: `sendto` returns what the bounded queue of messages answers, leaves
-- the ring holding that queue's messages, and calls the callback for that answer.
pub sendto_refines :
    (registered : Callback → Bool) (now : Timeval) (flow : ℕ) (blob : Blob) (c : TShmCommu)
    (ms : List Message)
    → Queues c.producer ms
    → IsSendable (message blob flow blob.ext_type now)
    → let (ret, c', events) = sendto registered now flow blob c in
      let (ms', expected) = push c.producer.blocksize ms (message blob flow blob.ext_type now) in
      (ret ≡ expected)
      × Queues c'.producer ms'
      × (events
          ≡ call registered
              (if is_success expected then cb_senddata else cb_senderror)
              flow
              blob.content)
unfolding sendto
sendto_refines registered now flow blob c ms v s =
    let (answer, v') = enqueue_refines ms blob flow blob.ext_type now v s in
    (
      answer,
      v',
      ap
          (λ r.
            call registered (if is_success r then cb_senddata else cb_senderror) flow blob.content)
          answer,
    )

attached-Queues : (q own : ShmMq) (ms : List Message) → Queues q ms → Queues (attached q own) ms
unfolding attached
attached-Queues q own ms v = record {
  small = v.small;
  head_in = v.head_in;
  tail_in = v.tail_in;
  room = v.room;
  ends = v.ends;
  bytes = v.bytes;
  sendable = v.sendable;
}

-- A type for which `poll` calls the callback for data.
abbrev pub IsData : ℕ → Type 0
IsData msgtype = (msgtype ≡ 0) ⊎ (4 < msgtype)

dispatch-data :
    (registered : Callback → Bool) (msgtype flow : ℕ) (content : List ℕ)
    → IsData msgtype
    → dispatch registered msgtype flow content ≡ called cb_recvdata flow content ∷ []
unfolding dispatch
dispatch-data registered msgtype flow content h =
    rw
      (
        ==-eq_false msgtype 1 (λ e. omega arith),
        ==-eq_false msgtype 2 (λ e. omega arith),
        ==-eq_false msgtype 3 (λ e. omega arith),
        ==-eq_false msgtype 4 (λ e. omega arith),
      )
      refl

-- What `poll` does with a message of data: its callback is the first.
received-data :
    (registered : Callback → Bool) (now : ℕ) (c : TShmCommu) (m : Message)
    → IsData m.msgtype
    → (c' : TShmCommu) × (later : List Event) × (received registered now c (got m)
        ≡ (c', called cb_recvdata m.flow m.content ∷ later))
unfolding received
received-data registered now c m h = elim (Bool-cases (c.expiretime == 0)) [
  | inl e ↦ (
    record c { buff = m.content },
    [],
    rw (received, e, dispatch-data registered m.msgtype m.flow m.content h) refl,
  )
  | inr e ↦
      (let checked =
          check_expire registered now
            (record c { buff = m.content; expiremap = erase m.flow c.expiremap }) in
        (
          checked.0,
          checked.1,
          rw (received, e, dispatch-data registered m.msgtype m.flow m.content h) refl,
        ))
]

-- One server sends a data message with a body that fits the receiver's buffer and the free space of
-- an empty queue; another server, attached to the same memory, polls before the message is too old.
-- The send succeeds, and the receiver's first callback is the one for data, with the sender's flow
-- and bytes.
pub poll-sendto :
    (registered : Callback → Bool) (sent_at : Timeval) (flow : ℕ) (blob : Blob) (a b : TShmCommu)
    (clock : ℕ → Timeval) (now : ℕ)
    → Queues a.producer []
    → IsSendable (message blob flow blob.ext_type sent_at)
    → HasBody (message blob flow blob.ext_type sent_at)
    → size (message blob flow blob.ext_type sent_at) < a.producer.blocksize
    → IsData blob.ext_type
    → is_stale b.comsumer.msg_timeout (clock 1) (message blob flow blob.ext_type sent_at) ≡ false
    → let (ret, a', sent) = sendto registered sent_at flow blob a in
      let b1 = record b { comsumer = attached a'.producer b.comsumer } in
      (ret ≡ success)
      × ((b' : TShmCommu) × (later : List Event) × (poll registered 2 clock now b1
            ≡ some (
              got (message blob flow blob.ext_type sent_at),
              b',
              called cb_recvdata flow blob.content ∷ later,
            )))
unfolding pop_fresh push attached
poll-sendto registered sent_at flow blob a b clock now v s body room kind young =
    let m = message blob flow blob.ext_type sent_at in
    let a' = (sendto registered sent_at flow blob a).1 in
    let own = b.comsumer in
    let b1 = record b { comsumer = attached a'.producer own } in
    let fits : push a.producer.blocksize [] m ≡ (m ∷ [], success) =
      rw (lt→not_leb a.producer.blocksize (total_size [] + size m) (omega arith)) refl in
    let (answer, v', events) = sendto_refines registered sent_at flow blob a [] v s in
    let v1 = subst (Queues a'.producer) (ap (λ r. r.0) fits) v' in
    let (q', polled, w) =
      poll_refines registered 2 clock now b1 (m ∷ []) (attached-Queues a'.producer own (m ∷ []) v1)
        (body, tt) (omega arith) in
    let popped : pop_fresh (λ n x. is_stale own.msg_timeout (clock n) x) 2 (m ∷ []) ≡ ([], got m) =
      rw (pop_fresh, young) refl in
    let (b', later, got_it) = received-data registered now (record b1 { comsumer = q' }) m kind in
    (
      answer ∙ ap (λ r. r.1) fits,
      (
        b',
        later,
        polled
            ∙ ap
                (λ (r : List Message × Dequeued).
                  let (c', evs) = received registered now (record b1 { comsumer = q' }) r.1 in
                  some (r.1, c', evs))
                popped
            ∙ ap (λ (r : TShmCommu × List Event). some (got m, r.0, r.1)) got_it,
      ),
    )
