-- ===== src/LoadTable.antt =====
-- CLoadTable of ServerFrameWork (src/base/loadtable.cpp): items of the statistics in a block of shared
-- memory, one behind the other, each with a header of 40 bytes (key 32, timestamp 4, flag 1, a byte
-- that is padding, length 2). `*tail_` and the block are fields; the map of a process is an association
-- list. Keys are C strings without their end; a NULL key, which every call answers with 0, is left out.
-- The lock does nothing (CNullLock). Time and what shmget and shmat answer are arguments.
pub mod Items
pub mod Search
pub mod Access
mod Tests
use Prim.{Unit}
use spp_server_frame_work.Base.{
  ℕ, zero, suc, ◌+◌, ◌-◌, ◌*◌, ◌/◌, ◌%◌, ◌^◌, ◌≢◌, min, Bool, ◌&&◌, ◌||◌, true, false, Option, none,
  some, List, [], ◌∷◌, ◌++◌, length, take, drop, le_bytes, of_le, add32, sub32, Memory, copy_in,
  copy_out, put, ltb, leb, ◌==◌, if◌then◌else◌,
}

abbrev pub max_key_len : ℕ
max_key_len = 32

abbrev pub head_len : ℕ
head_len = 8

-- `sizeof(BlockHeader)`
abbrev pub block_header_len : ℕ
block_header_len = 40

pub record ItemInfo : Type 0 where
  pub len : ℕ
  pub pos : ℕ

pub record CLoadTable : Type 0 where
  pub tail : ℕ
  pub block : Memory
  pub blocksize : ℕ
  pub items : List (List ℕ × ItemInfo)

-- What `getmemory` finds; a failure returns its number.
pub data Segment : Type 0 where
  attached : Segment
  created : Segment
  failed : ℕ → Segment

-- With the memory that is attached, and the result without its sign. A created segment has its first 8
-- bytes cleared: the tail, and 4 bytes of the block.
unfoldable pub init : CLoadTable → Segment → ℕ → ℕ → Memory → CLoadTable × ℕ
init t (failed n) shmsize tail block = (t, n)
init t attached shmsize tail block =
    (record { tail = tail; block = block; blocksize = sub32 shmsize head_len; items = t.items }, 0)
init t created shmsize tail block = (
  record {
    tail = 0;
    block = put block 0 (0 ∷ 0 ∷ 0 ∷ 0 ∷ []);
    blocksize = sub32 shmsize head_len;
    items = t.items;
  },
  0,
)

abbrev pub same_key : List ℕ → List ℕ → Bool
same_key [] [] = true
same_key [] (y ∷ ys) = false
same_key (x ∷ xs) [] = false
same_key (x ∷ xs) (y ∷ ys) = (x == y) && same_key xs ys

-- `items_.find(key)`
unfoldable pub find_item : List (List ℕ × ItemInfo) → List ℕ → Option ItemInfo
find_item [] key = none
find_item (item ∷ items) key =
    let rest = find_item items key in if same_key item.0 key then some item.1 else rest

-- `strncpy(dst, key, n)`
abbrev pub padded : ℕ → List ℕ → List ℕ
padded zero key = []
padded (suc n) [] = 0 ∷ padded n []
padded (suc n) (x ∷ key) = x ∷ padded n key

-- `strcmp(header.key_, key) == 0` in the bytes of a header.
abbrev pub str_equal : List ℕ → List ℕ → Bool
str_equal [] key = false
str_equal (b ∷ bs) [] = b == 0
str_equal (b ∷ bs) (k ∷ key) = (b == k) && str_equal bs key

-- `while(pBlock < block_ + tail)`, on fuel; `none` means that the fuel ran out, (0, 0) that there is no
-- such block.
unfoldable pub find_loop : ℕ → Memory → List ℕ → ℕ → ℕ → Option (ℕ × ℕ)
find_loop zero block key tail pos = none
find_loop (suc fuel) block key tail pos =
    let header_len = of_le (copy_out block (pos + 38) 2) in
    let after = pos + block_header_len + header_len in
    let rest = find_loop fuel block key tail after in
    if ltb pos tail
    then (if str_equal (copy_out block pos block_header_len) key && leb after tail
        then some (pos + block_header_len, header_len)
        else rest)
    else some (0, 0)

-- The offset of the block and `len`.
unfoldable pub findblock : ℕ → CLoadTable → List ℕ → Option (ℕ × ℕ)
findblock fuel t key =
    let found = find_loop fuel t.block key t.tail 0 in
    if (0 == t.tail) || leb t.blocksize t.tail then some (0, 0) else found

abbrev pub zeros : ℕ → List ℕ
zeros zero = []
zeros (suc n) = 0 ∷ zeros n

abbrev pub header_bytes : List ℕ → ℕ → ℕ → List ℕ
header_bytes key timestamp len =
    padded max_key_len key ++ (le_bytes 4 timestamp ++ 0 ∷ 0 ∷ le_bytes 2 len)

-- The third step of Init_LoadItem: a new block behind the others.
unfoldable pub allocate : CLoadTable → List ℕ → ℕ → CLoadTable × ℕ
allocate t key len =
    let b1 = put t.block t.tail (header_bytes key 0 len) in
    let b2 = put b1 (t.tail + block_header_len) (zeros len) in
    let info : ItemInfo = record { len = len; pos = t.tail + block_header_len } in
    if ltb t.blocksize (add32 (t.tail + block_header_len) len) then (t, 0) else (
      record t {
        tail = add32 (t.tail + block_header_len) len;
        block = b2;
        items = (key, info) ∷ t.items;
      },
      len,
    )

-- The second step, with what `findblock` has found.
abbrev pub take_found : CLoadTable → List ℕ → ℕ → Option (ℕ × ℕ) → Option (CLoadTable × ℕ)
take_found t key len none = none
take_found t key len (some (offset, buflen)) =
    let info : ItemInfo = record { len = buflen; pos = offset } in
    if ltb 0 offset && ltb 0 buflen
    then some (record t { items = (key, info) ∷ t.items }, buflen)
    else some (allocate t key len)

abbrev pub unless_known :
    CLoadTable → Option ItemInfo → Option (CLoadTable × ℕ) → Option (CLoadTable × ℕ)
unless_known t (some info) other = some (t, info.len)
unless_known t none other = other

unfoldable pub init_load_item : ℕ → CLoadTable → List ℕ → ℕ → Option (CLoadTable × ℕ)
init_load_item fuel t key len =
    unless_known t (find_item t.items key) (take_found t key len (findblock fuel t key))

-- What `read` returns: -1, or a length and the bytes that it copies to the buffer.
pub data ReadResult : Type 0 where
  unknown_key : ReadResult
  returned : ℕ → List ℕ → ReadResult

abbrev pub read_item : CLoadTable → ℕ → ℕ → ℕ → Option ItemInfo → ReadResult
read_item t buf_len timeout now none = unknown_key
read_item t buf_len timeout now (some info) =
    let timestamp = of_le (copy_out t.block (info.pos - block_header_len + 32) 4) in
    if ltb t.tail (add32 info.pos info.len)
    then returned 0 []
    else if ltb timeout (sub32 now timestamp)
    then returned 0 []
    else returned (min info.len buf_len) (copy_out t.block info.pos info.len)

unfoldable pub read : CLoadTable → ℕ → List ℕ → ℕ → ℕ → ReadResult
read t buf_len key timeout now = read_item t buf_len timeout now (find_item t.items key)

-- The header is copied out, gets its timestamp and is copied back.
abbrev pub stamped : Memory → ℕ → ℕ → Memory
stamped block pos now =
    let header = copy_out block (pos - block_header_len) block_header_len in
    put block (pos - block_header_len) (take 32 header ++ (le_bytes 4 now ++ drop 36 header))

-- `none` is -1.
abbrev pub write_item : CLoadTable → List ℕ → ℕ → Option ItemInfo → CLoadTable × Option ℕ
write_item t buf now none = (t, none)
write_item t buf now (some info) =
    let writelen = min info.len (length buf) in
    let block = put (stamped t.block info.pos now) info.pos (take writelen buf) in
    if ltb t.tail (add32 info.pos info.len)
    then (t, some 0)
    else (record t { block = block }, some writelen)

unfoldable pub write : CLoadTable → List ℕ → List ℕ → ℕ → CLoadTable × Option ℕ
write t key buf now = write_item t buf now (find_item t.items key)
