-- ===== src/ShmMq/Deliver.antt =====
-- CShmMQ::dequeue_i (shmcommu.cpp) takes the oldest message of the ring.
use spp_server_frame_work.Base.{
  ℕ, ◌+◌, ◌-◌, ◌^◌, ◌≤◌, ◌<◌, ◌≡◌, ◌⊎◌, List, ◌∷◌, ◌++◌, ltb, leb, if◌then◌else◌, length,
  length-append, arith, sub32,
}
use spp_server_frame_work.ShmMq.{
  ShmMq, Message, got, otf_buff, dequeue_i, take_message, read_body, used_len, field,
  max_blob_data_len,
}
use spp_server_frame_work.ShmMq.Ring.{Holds, Holds-append_left, Holds-append_right}
use spp_server_frame_work.ShmMq.Header.{length-shead, field-shead}
use spp_server_frame_work.ShmMq.Reads.{read_head_lem, read_body_lem}
use spp_server_frame_work.ShmMq.Refine.{
  size, header_of, encode, encode_all, total_size, Queues, length-encode, length-encode_all,
}

-- The one position that goes wrong: the last message has no bytes but its header, and that ends
-- where the block ends.
abbrev pub IsAtEdge : ShmMq → Message → List Message → Type 0
IsAtEdge q m ms = (q.head + size m ≡ q.blocksize) × (size m ≡ 27) × (total_size ms ≡ 0)

-- The offset of the data, and of the next message.
abbrev pub data_pos : ShmMq → ℕ
data_pos q = if ltb (q.head + 27) q.blocksize then q.head + 27 else q.head + 27 - q.blocksize

abbrev pub next_head : ShmMq → Message → ℕ
next_head q m =
    let e = data_pos q + length m.content + length m.extdata in
    if leb e q.blocksize then e else e - q.blocksize

-- The message under a header whose fields and body are known.
take_message_lem :
    (q : ShmMq) (m : Message) (sh : List ℕ) (pos head' : ℕ)
    → field sh 0 8 ≡ m.stamp.tv_sec
    → field sh 8 8 ≡ m.stamp.tv_usec
    → field sh 16 4 ≡ size m
    → field sh 20 4 ≡ m.flow
    → field sh 24 1 ≡ m.msgtype
    → field sh 25 2 ≡ length m.extdata
    → read_body q pos (length m.content) (length m.extdata) (length m.content + length m.extdata)
      ≡ (m.content, m.extdata, head')
    → size m ≤ used_len q
    → size m < 2 ^ 31
    → take_message q sh pos ≡ (
        if ltb max_blob_data_len (length m.content)
        then (q, otf_buff)
        else (record q { head = head' }, got m))
unfolding take_message
take_message_lem q m sh pos head' f0 f1 f2 f3 f4 f5 body used small =
    let data_len : sub32 (size m) 27 ≡ length m.content + length m.extdata = omega arith in
    let len : sub32 (length m.content + length m.extdata) (length m.extdata) ≡ length m.content =
      omega arith in
    rw (f0, f1, f2, f3, f4, f5, data_len, len, body) (ground arith)

module _ (q : ShmMq) (m : Message) (ms : List Message) (v : Queues q (m ∷ ms)) where
  holds_message : Holds q.block q.blocksize q.head (encode m)
  holds_message = Holds-append_left q.block q.blocksize q.head (encode m) (encode_all ms) v.bytes

  length-header : length (header_of m) ≡ 27
  length-header = length-shead m.stamp (size m) m.flow m.msgtype (length m.extdata)

  holds_body : Holds q.block q.blocksize (data_pos q) (m.content ++ m.extdata)
  holds_body =
      Holds-append_right q.block q.blocksize q.head (header_of m) (m.content ++ m.extdata)
        (data_pos q) v.head_in
        (omega (arith, v.room, length-header, length-append m.content m.extdata))
        (ground (arith, length-header)) (ground (arith, v.head_in)) holds_message

  body_read :
      read_body q
        (data_pos q)
        (length m.content)
        (length m.extdata)
        (length m.content + length m.extdata)
      ≡ (m.content, m.extdata, next_head q m)
  body_read =
      read_body_lem q (data_pos q) m.content m.extdata v.small (ground (arith, v.head_in))
        (omega (arith, v.room))
        (Holds-append_left q.block q.blocksize (data_pos q) m.content m.extdata holds_body)
        (Holds-append_right q.block q.blocksize (data_pos q) m.content m.extdata _
          (ground (arith, v.head_in)) (omega (arith, v.room)) (ground arith)
          (ground (arith, v.head_in, v.room)) holds_body)

  used_enough : size m ≤ used_len q
  unfolding used_len
  used_enough = ground (arith, v.ends, v.room, v.small)

  -- A message larger than the receiver's buffer is neither delivered nor skipped.
  pub dequeue_i_message : dequeue_i q ≡ (
      if ltb max_blob_data_len (length m.content)
      then (q, otf_buff)
      else (record q { head = next_head q m }, got m))
  unfolding dequeue_i
  dequeue_i_message =
      let head_lem =
        read_head_lem q (header_of m) length-header v.small v.head_in (omega (arith, v.room)) (
          Holds-append_left q.block q.blocksize q.head (header_of m) (m.content ++ m.extdata)
            holds_message) in
      let f = field-shead m.stamp (size m) m.flow m.msgtype (length m.extdata) v.sendable.0 in
      let taken =
        take_message_lem q m (header_of m) (data_pos q) (next_head q m) f.0 f.1 f.2 f.3 f.4 f.5
          body_read used_enough (omega (arith, v.room, v.small)) in
      rw (head_lem.0, head_lem.1, taken) (ground (arith, v.ends, v.room))

  next_ends :
      ¬ IsAtEdge q m ms
      → (next_head q m + total_size ms ≡ q.tail)
        ⊎ ((next_head q m + total_size ms ≡ q.tail + q.blocksize) × (0 < q.tail))
  next_ends edge = ground (arith, v.ends, v.room, v.head_in, v.tail_in, edge)

  pub Queues-next : ¬ IsAtEdge q m ms → Queues (record q { head = next_head q m }) ms
  Queues-next edge = record {
    small = v.small;
    head_in = ground (arith, v.head_in, v.room);
    tail_in = v.tail_in;
    room = omega (arith, v.room);
    ends = next_ends edge;
    bytes =
        Holds-append_right q.block q.blocksize q.head (encode m) (encode_all ms) (next_head q m)
          v.head_in (omega (arith, v.room, length-encode m, length-encode_all ms))
          (ground (arith, length-encode m, v.head_in, v.room)) (ground (arith, v.head_in, v.room))
          v.bytes;
    sendable = v.sendable.1;
  }
