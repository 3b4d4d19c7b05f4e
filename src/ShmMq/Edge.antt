-- ===== src/ShmMq/Edge.antt =====
-- What a consumer of CShmMQ (shmcommu.cpp) gets, message by message, and the two states in which
-- the ring goes wrong: an empty message at the end of the block, and one larger than the buffer.
use spp_server_frame_work.Base.{
  ℕ, ◌^◌, ◌<◌, ◌≤◌, ◌≡◌, ◌≢◌, refl, List, [], ◌∷◌, length, arith, lt→ltb, le→not_ltb,
}
use spp_server_frame_work.Delay.{Timeval}
use spp_server_frame_work.ShmMq.{
  ShmMq, Blob, Message, err_mqfull, Dequeued, got, mq_empty, otf_buff, enqueue, dequeue_i, free_len,
  getstat, read_head, take_message, max_blob_data_len,
}
use spp_server_frame_work.ShmMq.Refine.{Queues}
use spp_server_frame_work.ShmMq.Deliver.{IsAtEdge, next_head, dequeue_i_message, Queues-next}

dequeue_i_empty : (q : ShmMq) → Queues q [] → dequeue_i q ≡ (q, mq_empty)
unfolding dequeue_i
dequeue_i_empty q v = ground (arith, v.ends, v.head_in)

take_message-ne-empty : (q : ShmMq) (sh : List ℕ) (pos : ℕ) → (take_message q sh pos).1 ≢ mq_empty
unfolding take_message
take_message-ne-empty q sh pos = ground arith

-- A ring whose ends differ is not taken for empty.
not_empty : (q : ShmMq) → q.head ≢ q.tail → (dequeue_i q).1 ≢ mq_empty
unfolding dequeue_i
not_empty q h = ground (arith, take_message-ne-empty q (read_head q).0 (read_head q).1)

-- A ring with no free byte takes nothing.
full :
    (q : ShmMq) (blob : Blob) (flow msgtype : ℕ) (now : Timeval)
    → free_len q ≡ 0
    → enqueue q blob flow msgtype now ≡ (q, err_mqfull)
unfolding enqueue
full q blob flow msgtype now h = ground arith

-- The queue's own `pop`: the oldest message, or the report that there is none.
unfoldable pub pop : List Message → List Message × Dequeued
pop [] = ([], mq_empty)
pop (m ∷ ms) = (ms, got m)

-- The oldest message fits the receiver's buffer, and is not the last one, without a body, at the
-- end of the block.
abbrev pub IsDeliverable : ShmMq → List Message → Type 0
IsDeliverable q [] = Unit {0}
IsDeliverable q (m ∷ ms) = (length m.content ≤ max_blob_data_len) × (¬ IsAtEdge q m ms)

-- For a ring that holds messages, where the oldest fits the receiver's buffer and is not the last one,
-- without a body, at the end of the block: `dequeue_i` answers as `pop` does, and leaves the ring
-- holding the messages that `pop` leaves.
pub dequeue_i_refines :
    {q : ShmMq} (ms : List Message)
    → Queues q ms
    → IsDeliverable q ms
    → ((dequeue_i q).1 ≡ (pop ms).1) × Queues (dequeue_i q).0 (pop ms).0
unfolding pop
dequeue_i_refines {q} [] v d = rw (dequeue_i_empty q v) (refl, v)
dequeue_i_refines {q} (m ∷ ms) v (fits, edge) =
    rw (dequeue_i_message q m ms v, le→not_ltb max_blob_data_len (length m.content) fits)
      (refl, Queues-next q m ms v edge)

-- A message larger than the receiver's buffer is reported by COMMU_ERR_OTFBUFF and stays where it
-- is: the ring is unchanged, so every later call reports it again, and nothing behind it comes out.
pub dequeue_i_stuck :
    {q : ShmMq} (m : Message) (ms : List Message)
    → Queues q (m ∷ ms)
    → max_blob_data_len < length m.content
    → dequeue_i q ≡ (q, otf_buff)
dequeue_i_stuck {q} m ms v large =
    rw (dequeue_i_message q m ms v, lt→ltb max_blob_data_len (length m.content) large)

no_free : (q : ShmMq) → q.blocksize < 2 ^ 31 → q.head ≡ 0 → q.tail ≡ q.blocksize → free_len q ≡ 0
unfolding free_len
no_free q s h t = ground arith

-- A last message without a body that ends at the end of the block is delivered, and leaves
-- `head_` at 0 while `tail_` stays at the end. The ring is then empty, but counts as full: the next
-- `dequeue_i` does not report an empty queue, and no `enqueue` succeeds.
pub dequeue_i_edge :
    {q : ShmMq} (m : Message) (ms : List Message) (blob : Blob) (flow msgtype : ℕ) (now : Timeval)
    → Queues q (m ∷ ms)
    → IsAtEdge q m ms
    → let q' = (dequeue_i q).0 in
      ((dequeue_i q).1 ≡ got m)
      × ((getstat q').usedlen ≡ q.blocksize)
      × ((dequeue_i q').1 ≢ mq_empty)
      × (enqueue q' blob flow msgtype now ≡ (q', err_mqfull))
unfolding getstat
dequeue_i_edge {q} m ms blob flow msgtype now v edge =
    rw (dequeue_i_message q m ms v, le→not_ltb max_blob_data_len (length m.content) (omega arith))
      (
        refl,
        ground (arith, after),
        not_empty (record q { head = next_head q m }) (ground (arith, after, v.room)),
        full (record q { head = next_head q m }) blob flow msgtype now
            (no_free _ v.small after.0 after.1),
      )
  where
    after : (next_head q m ≡ 0) × (q.tail ≡ q.blocksize)
    after = ground (arith, v.ends, v.room)
