-- ===== src/ShmMq.antt =====
-- CShmMQ of ServerFrameWork/src/base/shmcommu.cpp: a message queue in a ring of shared memory.
-- The operations are here; the modules below prove what they do.
pub mod Ring
pub mod Place
pub mod Header
pub mod Reads
pub mod Refine
pub mod Deliver
pub mod Edge
pub mod History
mod Tests
use spp_server_frame_work.Base.{
  ℕ, zero, suc, ◌+◌, ◌^◌, Bool, true, false, not, ◌&&◌, List, ◌++◌, Option, none, some, ltb, leb,
  ◌==◌, if◌then◌else◌, length, take, drop, le_bytes, of_le, u32, add32, sub32, Memory, copy_in,
  copy_out,
}
use spp_server_frame_work.Delay.{Timeval, getdelay}

-- C_TM_PRIVATE_SIZE, C_PUB_HEAD_SIZE and C_HEAD_SIZE, where a `struct timeval` has 16 bytes.
abbrev pub c_tm_private_size : ℕ
c_tm_private_size = 16

abbrev pub c_head_size : ℕ
c_head_size = 27

abbrev pub max_blob_data_len : ℕ
max_blob_data_len = 2 ^ 24

-- What the callers of the queue hand over: `len` is the length of `content`, `ext_len` of `extdata`.
pub record Blob : Type 0 where
  pub content : List ℕ
  pub extdata : List ℕ
  pub ext_type : ℕ

-- `head_`, `tail_` and `block_` lie in the shared segment.
pub record ShmMq : Type 0 where
  pub head : ℕ
  pub tail : ℕ
  pub block : Memory
  pub blocksize : ℕ
  pub msg_timeout : ℕ
  pub shmkey : ℕ
  pub shmid : ℕ
  pub shmsize : ℕ

pub data Ret : Type 0 where
  success err_shmnew err_shmmap err_mqfull : Ret

-- What the system calls of `getmemory` answer: the segment exists, or it had to be created.
pub data Attach : Type 0 where
  existing : ℕ → ℕ → ℕ → Memory → Attach
  created : ℕ → Memory → Attach
  map_failed : Attach
  get_failed : Attach

-- A segment that exists keeps its two offsets; a new one has them cleared.
unfoldable pub init : ℕ → ℕ → Attach → ShmMq → ShmMq × Ret
init key size (existing id head tail block) mq = (
  record mq {
    head = head;
    tail = tail;
    block = block;
    blocksize = sub32 size 8;
    shmkey = key;
    shmid = id;
    shmsize = size;
  },
  success,
)
init key size (created id block) mq = (
  record mq {
    head = 0;
    tail = 0;
    block = block;
    blocksize = sub32 size 8;
    shmkey = key;
    shmid = id;
    shmsize = size;
  },
  success,
)
init key size map_failed mq = (record mq { shmkey = key; shmsize = size }, err_shmmap)
init key size get_failed mq = (record mq { shmkey = key; shmsize = size }, err_shmnew)

-- `sHead`: the time stamp, the total length, the flow, the type and the length of the extension.
pub shead : Timeval → ℕ → ℕ → ℕ → ℕ → List ℕ
shead now total_len flow msgtype ext_len =
    le_bytes 8 now.tv_sec
    ++ (le_bytes 8 now.tv_usec
        ++ (le_bytes 4 total_len
            ++ (le_bytes 4 flow ++ (le_bytes 1 msgtype ++ le_bytes 2 ext_len))))

-- The four ways to lay a message round the end of the block.
module _ (m : Memory) (blocksize tail : ℕ) (sh content extdata : List ℕ) where
  pub write_whole : Memory
  write_whole =
      let m1 = copy_in m tail sh 0 c_head_size in
      let m2 = copy_in m1 (tail + c_head_size) content 0 (length content) in
      copy_in m2 (tail + c_head_size + length content) extdata 0 (length extdata)

  pub write_split_ext : Memory
  write_split_ext =
      let first_len = sub32 (sub32 (sub32 blocksize tail) c_head_size) (length content) in
      let second_len = sub32 (length extdata) first_len in
      let m1 = copy_in m tail sh 0 c_head_size in
      let m2 = copy_in m1 (tail + c_head_size) content 0 (length content) in
      let m3 = copy_in m2 (tail + c_head_size + length content) extdata 0 first_len in
      copy_in m3 0 extdata first_len second_len

  pub write_split_data : Memory
  write_split_data =
      let first_len = sub32 (sub32 blocksize tail) c_head_size in
      let second_len = sub32 (length content) first_len in
      let m1 = copy_in m tail sh 0 c_head_size in
      let m2 = copy_in m1 (tail + c_head_size) content 0 first_len in
      let m3 = copy_in m2 0 content first_len second_len in
      copy_in m3 second_len extdata 0 (length extdata)

  pub write_split_head : Memory
  write_split_head =
      let tail_len = sub32 blocksize tail in
      let second_len = sub32 c_head_size tail_len in
      let m1 = copy_in m tail sh 0 tail_len in
      let m2 = copy_in m1 0 sh tail_len second_len in
      let m3 = copy_in m2 second_len content 0 (length content) in
      copy_in m3 (second_len + length content) extdata 0 (length extdata)

unfoldable pub free_len : ShmMq → ℕ
free_len q =
    if ltb q.tail q.head then sub32 q.head q.tail else sub32 (add32 q.head q.blocksize) q.tail

unfoldable pub total_len : List ℕ → List ℕ → ℕ
total_len content extdata = u32 (c_head_size + length content + length extdata)

-- The block and the tail after the copy; the order of the tests is the source's.
pub place : ShmMq → List ℕ → List ℕ → List ℕ → Memory × ℕ
place q sh content extdata =
    let tail_len = sub32 q.blocksize q.tail in
    let total = total_len content extdata in
    let wrapped = sub32 (add32 q.tail total) q.blocksize in
    if leb total tail_len
    then (write_whole q.block q.blocksize q.tail sh content extdata, add32 q.tail total)
    else if leb (c_head_size + length content) tail_len && ltb tail_len total
    then (write_split_ext q.block q.blocksize q.tail sh content extdata, wrapped)
    else if leb c_head_size tail_len && ltb tail_len (c_head_size + length content)
    then (write_split_data q.block q.blocksize q.tail sh content extdata, wrapped)
    else (
      write_split_head q.block q.blocksize q.tail sh content extdata,
      u32 (sub32 c_head_size tail_len + length content + length extdata),
    )

unfoldable pub enqueue : ShmMq → Blob → ℕ → ℕ → Timeval → ShmMq × Ret
enqueue q blob flow msgtype now =
    let total = total_len blob.content blob.extdata in
    let sh = shead now total flow msgtype (length blob.extdata) in
    let (block', tail') = place q sh blob.content blob.extdata in
    if leb (free_len q) total
    then (q, err_mqfull)
    else (record q { block = block'; tail = tail' }, success)

-- A message as `dequeue_i` hands it out.
pub record Message : Type 0 where
  pub stamp : Timeval
  pub flow : ℕ
  pub msgtype : ℕ
  pub content : List ℕ
  pub extdata : List ℕ

-- COMMU_ERR_MQEMPTY, COMMU_ERR_OTFBUFF, and the `assert` on the lengths that a header claims.
pub data Dequeued : Type 0 where
  got : Message → Dequeued
  mq_empty otf_buff assert_failed : Dequeued

-- The header at `head`, and the offset of the data behind it.
pub read_head : ShmMq → List ℕ × ℕ
read_head q =
    let first_size = sub32 q.blocksize q.head in
    let second_size = sub32 c_head_size first_size in
    let data_pos = add32 q.head c_head_size in
    if ltb q.blocksize (q.head + c_head_size)
    then (copy_out q.block q.head first_size ++ copy_out q.block 0 second_size, second_size)
    else (copy_out q.block q.head c_head_size, if data_pos == q.blocksize then 0 else data_pos)

-- The data and the extension behind a header, and the new `head_`.
pub read_body : ShmMq → ℕ → ℕ → ℕ → ℕ → List ℕ × List ℕ × ℕ
read_body q data_pos len ext_len data_len =
    if ltb q.blocksize (add32 data_pos len)
    then (let first_size = sub32 q.blocksize data_pos in
        let second_size = sub32 len first_size in
        (
          copy_out q.block data_pos first_size ++ copy_out q.block 0 second_size,
          copy_out q.block second_size ext_len,
          add32 second_size ext_len,
        ))
    else if leb (add32 data_pos len) q.blocksize && ltb q.blocksize (add32 data_pos data_len)
    then (let first_size = sub32 (sub32 q.blocksize data_pos) len in
        let second_size = sub32 ext_len first_size in
        (
          copy_out q.block data_pos len,
          copy_out q.block (data_pos + len) first_size ++ copy_out q.block 0 second_size,
          second_size,
        ))
    else (
      copy_out q.block data_pos len,
      copy_out q.block (data_pos + len) ext_len,
      add32 data_pos data_len,
    )

pub used_len : ShmMq → ℕ
used_len q =
    if ltb q.head q.tail then sub32 q.tail q.head else sub32 (add32 q.tail q.blocksize) q.head

-- The fields of a header.
abbrev pub field : List ℕ → ℕ → ℕ → ℕ
field sh off n = of_le (take n (drop off sh))

-- The `assert` compares as `int`: a length of 2 ^ 31 or more is negative there.
abbrev pub lengths_ok : ℕ → ℕ → ℕ → ℕ → Bool
lengths_ok total used len data_len =
    leb total used && (ltb len (2 ^ 31) && (ltb data_len (2 ^ 31) && leb len data_len))

-- The message under a header, once the header is read.
pub take_message : ShmMq → List ℕ → ℕ → ShmMq × Dequeued
take_message q sh data_pos =
    let total = field sh 16 4 in
    let ext_len = field sh 25 2 in
    let data_len = sub32 total c_head_size in
    let len = sub32 data_len ext_len in
    let (content, extdata, head') = read_body q data_pos len ext_len data_len in
    if not (lengths_ok total (used_len q) len data_len)
    then (q, assert_failed)
    else if ltb max_blob_data_len len
    then (q, otf_buff)
    else (
      record q { head = head' },
      got (record {
        stamp = record { tv_sec = field sh 0 8; tv_usec = field sh 8 8 };
        flow = field sh 20 4;
        msgtype = field sh 24 1;
        content = content;
        extdata = extdata;
      }),
    )

unfoldable pub dequeue_i : ShmMq → ShmMq × Dequeued
dequeue_i q =
    let (sh, data_pos) = read_head q in
    if q.head == q.tail then (q, mq_empty) else take_message q sh data_pos

-- Whether `dequeue` drops a message: a time limit is set, and the message is older.
unfoldable pub is_stale : ℕ → Timeval → Message → Bool
is_stale msg_timeout now m = not (msg_timeout == 0) && ltb msg_timeout (getdelay now m.stamp)

-- The loop of `dequeue`. The clock is read once in each round; `none` means that the fuel ran out.
unfoldable pub dequeue : ℕ → ShmMq → (ℕ → Timeval) → Option (ShmMq × Dequeued)
dequeue zero q clock = none
dequeue (suc fuel) q clock =
    let (q', r) = dequeue_i q in
    elim r [
      | got m ↦ elim (is_stale q'.msg_timeout (clock fuel) m) [
        | true ↦ dequeue fuel q' clock
        | false ↦ some (q', got m)
      ]
      | other ↦ some (q', other)
    ]

-- `getstat`.
pub record MqStat : Type 0 where
  pub usedlen : ℕ
  pub freelen : ℕ
  pub totallen : ℕ

pub getstat : ShmMq → MqStat
getstat q = record {
  usedlen =
      if leb q.head q.tail then sub32 q.tail q.head else sub32 (add32 q.tail q.blocksize) q.head;
  freelen = free_len q;
  totallen = q.blocksize;
}
