-- ===== src/ShmMq/Refine.antt =====
-- CShmMQ (shmcommu.cpp) against a queue of messages: what `enqueue` accepts, `dequeue_i` returns in
-- the same order, and both refuse exactly when a queue of that many bytes would.
use spp_server_frame_work.Base.{
  ℕ, ◌+◌, ◌-◌, ◌^◌, ◌≤◌, ◌<◌, ◌≡◌, refl, sym, ap, ◌∙◌, ◌⊎◌, List, [], ◌∷◌, ◌++◌, leb, if◌then◌else◌,
  length, length-append, append_assoc, append-nil, arith, Memory, dec_le, le→leb, lt→not_leb,
}
use spp_server_frame_work.Delay.{Timeval}
use spp_server_frame_work.ShmMq.{
  ShmMq, init, created, Blob, Message, Ret, success, err_mqfull, enqueue, place, free_len,
  total_len, shead,
}
use spp_server_frame_work.ShmMq.Ring.{
  Holds, ring_write, Holds-ring_write, Holds-ring_write_after, Holds-append, Holds-cong,
}
use spp_server_frame_work.ShmMq.Place.{place-ring, place-tail}
use spp_server_frame_work.ShmMq.Header.{Fits, length-shead}

-- The bytes that a message takes in the ring.
abbrev pub size : Message → ℕ
size m = 27 + length m.content + length m.extdata

abbrev pub header_of : Message → List ℕ
header_of m = shead m.stamp (size m) m.flow m.msgtype (length m.extdata)

abbrev pub encode : Message → List ℕ
encode m = header_of m ++ (m.content ++ m.extdata)

abbrev pub encode_all : List Message → List ℕ
encode_all [] = []
encode_all (m ∷ ms) = encode m ++ encode_all ms

abbrev pub total_size : List Message → ℕ
total_size [] = 0
total_size (m ∷ ms) = size m + total_size ms

-- The fields fit the header.
abbrev pub IsSendable : Message → Type 0
IsSendable m = Fits m.stamp (size m) m.flow m.msgtype (length m.extdata)

abbrev pub AllSendable : List Message → Type 0
AllSendable [] = Unit {0}
AllSendable (m ∷ ms) = IsSendable m × AllSendable ms

-- The ring `q` holds the messages `ms`, oldest first.
pub record Queues (q : ShmMq) (ms : List Message) : Type 0 where
  pub small : q.blocksize < 2 ^ 31
  pub head_in : q.head ≤ q.blocksize
  pub tail_in : q.tail ≤ q.blocksize
  pub room : total_size ms < q.blocksize
  pub ends :
      (q.head + total_size ms ≡ q.tail)
      ⊎ ((q.head + total_size ms ≡ q.tail + q.blocksize) × (0 < q.tail))
  pub bytes : Holds q.block q.blocksize q.head (encode_all ms)
  pub sendable : AllSendable ms

pub length-encode : (m : Message) → length (encode m) ≡ size m
length-encode m = omega (
  arith,
  length-append (header_of m) (m.content ++ m.extdata),
  length-append m.content m.extdata,
  length-shead m.stamp (size m) m.flow m.msgtype (length m.extdata),
)

pub length-encode_all : (ms : List Message) → length (encode_all ms) ≡ total_size ms
length-encode_all [] = refl
length-encode_all (m ∷ ms) =
    omega (arith, length-append (encode m) (encode_all ms), length-encode m, length-encode_all ms)

encode_all-append :
    (ms : List Message) (m : Message) → encode_all (ms ++ m ∷ []) ≡ encode_all ms ++ encode m
encode_all-append [] m = append-nil (encode m)
encode_all-append (x ∷ ms) m =
    ap (λ t. encode x ++ t) (encode_all-append ms m)
    ∙ sym (append_assoc (encode x) (encode_all ms) (encode m))

total_size-append :
    (ms : List Message) (m : Message) → total_size (ms ++ m ∷ []) ≡ total_size ms + size m
total_size-append [] m = omega arith
total_size-append (x ∷ ms) m = omega (arith, total_size-append ms m)

AllSendable-append :
    (ms : List Message) (m : Message) → AllSendable ms → IsSendable m → AllSendable (ms ++ m ∷ [])
AllSendable-append [] m a s = (s, tt)
AllSendable-append (x ∷ ms) m a s = (a.0, AllSendable-append ms m a.1 s)

-- `free_len` is what the messages leave of the block.
pub free_len_lem :
    {q : ShmMq} {ms : List Message} → Queues q ms → free_len q ≡ q.blocksize - total_size ms
unfolding free_len
free_len_lem v = ground arith

-- The queue that the ring stands for: bounded by the bytes of its messages, with their headers.
unfoldable pub push : ℕ → List Message → Message → List Message × Ret
push cap ms m =
    if leb cap (total_size ms + size m) then (ms, err_mqfull) else (ms ++ m ∷ [], success)

abbrev pub message : Blob → ℕ → ℕ → Timeval → Message
message blob flow msgtype now = record {
  stamp = now;
  flow = flow;
  msgtype = msgtype;
  content = blob.content;
  extdata = blob.extdata;
}

-- A segment of more than 8 bytes and under 2 ^ 31 that `init` has created has all its bytes but 8 for
-- the ring, which holds no message, whatever the bytes are.
pub init-Queues :
    (key shm_size id : ℕ) (block : Memory) (q : ShmMq)
    → 8 < shm_size
    → shm_size < 2 ^ 31
    → let (q', ret) = init key shm_size (created id block) q in
      (ret ≡ success) × (q'.blocksize ≡ shm_size - 8) × Queues q' []
unfolding init
init-Queues key shm_size id block q lo hi = (
  refl,
  omega arith,
  record {
    small = omega arith;
    head_in = omega arith;
    tail_in = omega arith;
    room = omega arith;
    ends = omega arith;
    bytes = λ k h. absurd (omega arith);
    sendable = tt;
  },
)

-- The ring after the copy of a message that fits.
module _ (q : ShmMq) (ms : List Message) (m : Message) (v : Queues q ms) (s : IsSendable m) where
  placed : Memory × ℕ
  placed = place q (header_of m) m.content m.extdata

  abbrev after_place : ShmMq
  after_place = record q { block = placed.0; tail = placed.1 }

  module _ (fits : total_size ms + size m < q.blocksize) where
    tail_placed : placed.1 ≡ (
        if leb (q.tail + size m) q.blocksize
        then q.tail + size m
        else q.tail + size m - q.blocksize)
    unfolding placed
    tail_placed = ground (
      arith,
      place-tail q (header_of m) m.content m.extdata v.small v.tail_in (omega (arith, fits)),
    )

    block_placed :
        (i : ℕ) → i < q.blocksize → placed.0 i ≡ ring_write q.block q.blocksize q.tail (encode m) i
    unfolding placed
    block_placed i h =
        place-ring q (header_of m) m.content m.extdata i
          (length-shead m.stamp (size m) m.flow m.msgtype (length m.extdata)) v.small v.tail_in
          (omega (arith, fits)) h

    ends_tail :
        (q.head + length (encode_all ms) ≡ q.tail)
        ⊎ (q.head + length (encode_all ms) ≡ q.tail + q.blocksize)
    ends_tail = ground (arith, length-encode_all ms, v.ends)

    holds_placed : Holds placed.0 q.blocksize q.head (encode_all (ms ++ m ∷ []))
    holds_placed = rw (encode_all-append ms m) (
        Holds-cong (ring_write q.block q.blocksize q.tail (encode m)) placed.0 q.blocksize q.head
          (encode_all ms ++ encode m) v.head_in
          (omega (
            arith,
            length-append (encode_all ms) (encode m),
            length-encode m,
            length-encode_all ms,
          ))
          block_placed
          (Holds-append (ring_write q.block q.blocksize q.tail (encode m)) q.blocksize q.head
            (encode_all ms) (encode m) q.tail v.head_in
            (omega (arith, length-encode m, length-encode_all ms)) ends_tail v.tail_in
            (Holds-ring_write_after q.block q.blocksize q.head (encode_all ms) (encode m) q.tail
              v.head_in (omega (arith, length-encode m, length-encode_all ms)) ends_tail v.tail_in
              v.bytes)
            (Holds-ring_write q.block q.blocksize q.tail (encode m) v.tail_in
              (omega (arith, length-encode m)))))

    Queues-placed : Queues after_place (ms ++ m ∷ [])
    Queues-placed = record {
      small = v.small;
      head_in = v.head_in;
      tail_in = ground (arith, tail_placed);
      room = omega (arith, total_size-append ms m);
      ends = ground (arith, tail_placed, total_size-append ms m, v.ends);
      bytes = holds_placed;
      sendable = AllSendable-append ms m v.sendable s;
    }

total_len_lem : (m : Message) → IsSendable m → total_len m.content m.extdata ≡ size m
unfolding total_len
total_len_lem m s = omega (arith, s.total_fits)

-- For a ring that holds messages, and a message whose fields fit the header: `enqueue` answers as the
-- bounded queue of messages does, and leaves the ring holding that queue's messages.
pub enqueue_refines :
    {q : ShmMq} (ms : List Message) (blob : Blob) (flow msgtype : ℕ) (now : Timeval)
    → Queues q ms
    → IsSendable (message blob flow msgtype now)
    → let (q', ret) = enqueue q blob flow msgtype now in
      let (ms', expected) = push q.blocksize ms (message blob flow msgtype now) in
      (ret ≡ expected) × Queues q' ms'
unfolding enqueue push placed
enqueue_refines {q} ms blob flow msgtype now v s =
    let m = message blob flow msgtype now in
    rw (total_len_lem m s, free_len_lem v)
      (elim (dec_le q.blocksize (total_size ms + size m)) [
        | yes full ↦
            rw
              (
                le→leb (q.blocksize - total_size ms) (size m) (omega arith),
                le→leb q.blocksize (total_size ms + size m) full,
              )
              (refl, v)
        | no fits ↦
            rw
              (
                lt→not_leb (q.blocksize - total_size ms) (size m) (omega arith),
                lt→not_leb q.blocksize (total_size ms + size m) (omega arith),
              )
              (refl, Queues-placed q ms m v s (omega arith))
      ])
