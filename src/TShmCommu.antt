-- ===== src/TShmCommu.antt =====
-- CTShmCommu of ServerFrameWork/src/base/shmcommu.cpp and include/shmcommu.h: the two shared memory
-- queues of a server, the callbacks, and the flows that wait for an answer. A call gives back the
-- callbacks that it makes, in order. The build is the one without LOAD_CHECK_ENABLE and _SPP_PROXY,
-- where the loop of `poll` ends after one round, and the lock of the L variants is held around one
-- call of the queue. `now` is what the clock gives at the call.
pub mod Expire
pub mod Order
pub mod Traffic
mod Tests
use spp_server_frame_work.Base.{
  ℕ, zero, suc, ◌+◌, ◌-◌, Bool, true, false, not, ◌&&◌, List, [], ◌∷◌, ◌++◌, Option, none, some,
  compare, Ordering, ltb, leb, ◌==◌, if◌then◌else◌, sub32,
}
use spp_server_frame_work.Delay.{Timeval}
use spp_server_frame_work.ShmMq.{
  ShmMq, Blob, Ret, success, Dequeued, got, mq_empty, Message, enqueue, dequeue,
}

pub data Callback : Type 0 where
  cb_connected cb_disconnect cb_recvdata cb_senddata cb_senderror cb_overload cb_timeout : Callback

-- A call of a callback, with the flow and the bytes that its blob points to.
pub data Event : Type 0 where
  called : Callback → ℕ → List ℕ → Event

-- `std::map` from flows to the time of their first unanswered message, in the order of the flows.
abbrev pub ExpireMap : Type 0
ExpireMap = List (ℕ × ℕ)

-- `insert`: an entry that is there stays.
pub insert : ℕ → ℕ → ExpireMap → ExpireMap
insert flow time [] = (flow, time) ∷ []
insert flow time ((f, t) ∷ m) =
    let rest = insert flow time m in
    if f == flow
    then (f, t) ∷ m
    else if ltb flow f
    then (flow, time) ∷ (f, t) ∷ m
    else (f, t) ∷ rest

pub erase : ℕ → ExpireMap → ExpireMap
erase flow [] = []
erase flow ((f, t) ∷ m) = if f == flow then m else (f, t) ∷ erase flow m

pub record TShmCommu : Type 0 where
  pub producer : ShmMq
  pub comsumer : ShmMq
  -- the bytes in `buff_blob_`
  pub buff : List ℕ
  pub expiretime : ℕ
  pub lastchecktime : ℕ
  pub expiremap : ExpireMap

-- `registered` says which entries of `func_list_` are not NULL.
pub call : (Callback → Bool) → Callback → ℕ → List ℕ → List Event
call registered cb flow content = if registered cb then called cb flow content ∷ [] else []

-- The loop of `check_expire`: the callbacks and the new map. The callback is given `buff_blob_`, not
-- the empty blob that is made for it.
pub expire : (Callback → Bool) → List ℕ → ℕ → ExpireMap → List Event × ExpireMap
expire registered buff deadline [] = ([], [])
expire registered buff deadline ((f, t) ∷ m) =
    let (events, kept) = expire registered buff deadline m in
    if ltb t deadline
    then (call registered cb_timeout f buff ++ events, kept)
    else (events, (f, t) ∷ kept)

-- `newmap` is taken over only if it has an entry.
pub taken_over : ExpireMap → ExpireMap → ExpireMap
taken_over old [] = old
taken_over old (e ∷ m) = e ∷ m

pub check_expire : (Callback → Bool) → ℕ → TShmCommu → TShmCommu × List Event
check_expire registered now c =
    let (events, newmap) = expire registered c.buff (sub32 now c.expiretime) c.expiremap in
    if ltb (c.lastchecktime + 60) now
    then (record c { expiremap = taken_over c.expiremap newmap; lastchecktime = now }, events)
    else (c, [])

-- The `switch` of `poll` on the type of a message. Data goes to its callback without a test that
-- there is one.
unfoldable pub dispatch : (Callback → Bool) → ℕ → ℕ → List ℕ → List Event
dispatch registered msgtype flow content =
    if msgtype == 1
    then call registered cb_connected flow content
    else if msgtype == 2
    then call registered cb_overload flow content
    else if msgtype == 3
    then call registered cb_timeout flow content
    else if msgtype == 4
    then call registered cb_disconnect flow content
    else called cb_recvdata flow content ∷ []

-- What `poll` does with the answer of the queue, which leaves a blob without bytes where it is empty.
pub received : (Callback → Bool) → ℕ → TShmCommu → Dequeued → TShmCommu × List Event
received registered now c (got m) =
    let events = dispatch registered m.msgtype m.flow m.content in
    let c1 = record c { buff = m.content } in
    let (c2, timeouts) =
      check_expire registered now (record c1 { expiremap = erase m.flow c1.expiremap }) in
    if c.expiretime == 0 then (c1, events) else (c2, events ++ timeouts)
received registered now c mq_empty =
    let c1 = record c { buff = [] } in
    if c.expiretime == 0 then (c1, []) else check_expire registered now c1
received registered now c other =
    if c.expiretime == 0 then (c, []) else check_expire registered now c

-- `poll`: the answer of the queue stands for the return value, and none for the end of the fuel.
pub poll :
    (Callback → Bool)
    → ℕ
    → (ℕ → Timeval)
    → ℕ
    → TShmCommu
    → Option (Dequeued × TShmCommu × List Event)
poll registered fuel clock now c = elim (dequeue fuel c.comsumer clock) [
  | none ↦ none
  | some (q, r) ↦
      (let (c2, events) = received registered now (record c { comsumer = q }) r in
        some (r, c2, events))
]

pub is_success : Ret → Bool
is_success success = true
is_success _ = false

-- `sendto`: the queue's answer is the return value. The message's type is the blob's.
unfoldable pub sendto :
    (Callback → Bool) → Timeval → ℕ → Blob → TShmCommu → Ret × TShmCommu × List Event
sendto registered now flow blob c =
    let (q, ret) = enqueue c.producer blob flow blob.ext_type now in
    (
      ret,
      record c {
        producer = q;
        expiremap =
            if not (c.expiretime == 0) && is_success ret
            then insert flow now.tv_sec c.expiremap
            else c.expiremap;
      },
      call registered (if is_success ret then cb_senddata else cb_senderror) flow blob.content,
    )

-- The queue of another process on the same segment of shared memory: the two offsets and the block
-- are shared, the rest is each process's own.
pub attached : ShmMq → ShmMq → ShmMq
attached q own = record own {
  head = q.head;
  tail = q.tail;
  block = q.block;
  blocksize = q.blocksize;
}
