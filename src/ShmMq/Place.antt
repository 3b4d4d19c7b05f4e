-- ===== src/ShmMq/Place.antt =====
-- The four layouts of CShmMQ::enqueue (shmcommu.cpp) against the ring reference.
use spp_server_frame_work.Base.{
  ℕ, ◌+◌, ◌-◌, ◌^◌, ◌≤◌, ◌<◌, ◌≡◌, List, ◌++◌, ltb, leb, if◌then◌else◌, length, get_or,
  get_or-append, length-append, arith, Memory, copy_in, sub32, dec_le,
}
use spp_server_frame_work.ShmMq.{
  ShmMq, c_head_size, write_whole, write_split_ext, write_split_data, write_split_head, place,
  total_len,
}
use spp_server_frame_work.ShmMq.Ring.{ring_write}

module _ (m : Memory) (size tail : ℕ) (sh content extdata : List ℕ) (i : ℕ) where
  abbrev bytes : List ℕ
  bytes = sh ++ (content ++ extdata)

  get_or-bytes :
      (k : ℕ)
      → get_or bytes k 0 ≡ (
          if ltb k (length sh)
          then get_or sh k 0
          else if ltb (k - length sh) (length content)
          then get_or content (k - length sh) 0
          else get_or extdata (k - length sh - length content) 0)
  get_or-bytes k = ground (
    arith,
    get_or-append sh (content ++ extdata) k 0,
    get_or-append content extdata (k - length sh) 0,
  )

  length-bytes : length bytes ≡ length sh + length content + length extdata
  length-bytes = omega (arith, length-append sh (content ++ extdata), length-append content extdata)

  write_whole-ring :
      length sh ≡ 27
      → size < 2 ^ 31
      → tail + 27 + length content + length extdata ≤ size
      → i < size
      → write_whole m size tail sh content extdata i ≡ ring_write m size tail bytes i
  unfolding write_whole
  write_whole-ring a b c d =
      ground (arith, get_or-bytes (i - tail), get_or-bytes (i + size - tail), length-bytes)

  write_split_ext-ring :
      length sh ≡ 27
      → size < 2 ^ 31
      → tail ≤ size
      → tail + 27 + length content ≤ size
      → size < tail + 27 + length content + length extdata
      → 27 + length content + length extdata < size
      → i < size
      → write_split_ext m size tail sh content extdata i ≡ ring_write m size tail bytes i
  unfolding write_split_ext
  write_split_ext-ring a b c d e f g =
      ground (arith, get_or-bytes (i - tail), get_or-bytes (i + size - tail), length-bytes)

  -- The two layouts with the lengths of their parts as variables.
  copies_split_data : (first second : ℕ) → ℕ
  copies_split_data first second =
      let m1 = copy_in m tail sh 0 c_head_size in
      let m2 = copy_in m1 (tail + c_head_size) content 0 first in
      let m3 = copy_in m2 0 content first second in copy_in m3 second extdata 0 (length extdata) i

  copies_split_data-ring_high :
      (first second : ℕ)
      → length sh ≡ 27
      → tail + 27 + first ≡ size
      → first + second ≡ length content
      → second + length extdata < tail
      → i < size
      → tail ≤ i
      → copies_split_data first second ≡ ring_write m size tail bytes i
  unfolding copies_split_data
  copies_split_data-ring_high first second a b c d e f =
      ground (arith, get_or-bytes (i - tail), length-bytes)

  copies_split_data-ring_low :
      (first second : ℕ)
      → length sh ≡ 27
      → tail + 27 + first ≡ size
      → first + second ≡ length content
      → second + length extdata < tail
      → i < size
      → i < tail
      → copies_split_data first second ≡ ring_write m size tail bytes i
  unfolding copies_split_data
  copies_split_data-ring_low first second a b c d e f =
      ground (arith, get_or-bytes (i + size - tail), length-bytes)

  copies_split_data-ring :
      (first second : ℕ)
      → length sh ≡ 27
      → tail + 27 + first ≡ size
      → first + second ≡ length content
      → second + length extdata < tail
      → i < size
      → copies_split_data first second ≡ ring_write m size tail bytes i
  copies_split_data-ring first second a b c d e = elim (dec_le tail i) [
    | yes f ↦ copies_split_data-ring_high first second a b c d e f
    | no f ↦ copies_split_data-ring_low first second a b c d e (omega arith)
  ]

  write_split_data-ring :
      length sh ≡ 27
      → size < 2 ^ 31
      → tail + 27 ≤ size
      → size < tail + 27 + length content
      → 27 + length content + length extdata < size
      → i < size
      → write_split_data m size tail sh content extdata i ≡ ring_write m size tail bytes i
  unfolding write_split_data copies_split_data
  write_split_data-ring a b c d e f =
      copies_split_data-ring (sub32 (sub32 size tail) 27)
        (sub32 (length content) (sub32 (sub32 size tail) 27)) a (omega arith) (omega arith)
        (omega arith) f

  copies_split_head : (first second : ℕ) → ℕ
  copies_split_head first second =
      let m1 = copy_in m tail sh 0 first in
      let m2 = copy_in m1 0 sh first second in
      let m3 = copy_in m2 second content 0 (length content) in
      copy_in m3 (second + length content) extdata 0 (length extdata) i

  copies_split_head-ring_high :
      (first second : ℕ)
      → length sh ≡ 27
      → tail + first ≡ size
      → first + second ≡ 27
      → second + length content + length extdata < tail
      → i < size
      → tail ≤ i
      → copies_split_head first second ≡ ring_write m size tail bytes i
  unfolding copies_split_head
  copies_split_head-ring_high first second a b c d e f =
      ground (arith, get_or-bytes (i - tail), length-bytes)

  copies_split_head-ring_low :
      (first second : ℕ)
      → length sh ≡ 27
      → tail + first ≡ size
      → first + second ≡ 27
      → second + length content + length extdata < tail
      → i < size
      → i < tail
      → copies_split_head first second ≡ ring_write m size tail bytes i
  unfolding copies_split_head
  copies_split_head-ring_low first second a b c d e f =
      ground (arith, get_or-bytes (i + size - tail), length-bytes)

  copies_split_head-ring :
      (first second : ℕ)
      → length sh ≡ 27
      → tail + first ≡ size
      → first + second ≡ 27
      → second + length content + length extdata < tail
      → i < size
      → copies_split_head first second ≡ ring_write m size tail bytes i
  copies_split_head-ring first second a b c d e = elim (dec_le tail i) [
    | yes f ↦ copies_split_head-ring_high first second a b c d e f
    | no f ↦ copies_split_head-ring_low first second a b c d e (omega arith)
  ]

  write_split_head-ring :
      length sh ≡ 27
      → size < 2 ^ 31
      → tail ≤ size
      → size < tail + 27
      → 27 + length content + length extdata < size
      → i < size
      → write_split_head m size tail sh content extdata i ≡ ring_write m size tail bytes i
  unfolding write_split_head copies_split_head
  write_split_head-ring a b c d e f =
      copies_split_head-ring (sub32 size tail) (sub32 27 (sub32 size tail)) a (omega arith)
        (omega arith) (omega arith) f

  copies_split_data_outside :
      (first second : ℕ)
      → tail + 27 + first ≡ size
      → second + length extdata < size
      → size ≤ i
      → copies_split_data first second ≡ m i
  unfolding copies_split_data
  copies_split_data_outside first second a b c = ground arith

  copies_split_head_outside :
      (first second : ℕ)
      → tail + first ≡ size
      → second + length content + length extdata < size
      → size ≤ i
      → copies_split_head first second ≡ m i
  unfolding copies_split_head
  copies_split_head_outside first second a b c = ground arith

  write_split_data_outside :
      size < 2 ^ 31
      → tail + 27 ≤ size
      → size < tail + 27 + length content
      → 27 + length content + length extdata < size
      → size ≤ i
      → write_split_data m size tail sh content extdata i ≡ m i
  unfolding write_split_data copies_split_data
  write_split_data_outside a b c d e =
      copies_split_data_outside (sub32 (sub32 size tail) 27)
        (sub32 (length content) (sub32 (sub32 size tail) 27)) (omega arith) (omega arith) e

  write_split_head_outside :
      size < 2 ^ 31
      → tail ≤ size
      → size < tail + 27
      → 27 + length content + length extdata < size
      → size ≤ i
      → write_split_head m size tail sh content extdata i ≡ m i
  unfolding write_split_head copies_split_head
  write_split_head_outside a b c d e =
      copies_split_head_outside (sub32 size tail) (sub32 27 (sub32 size tail)) (omega arith)
        (omega arith) e

  write_whole_outside :
      tail + 27 + length content + length extdata ≤ size
      → size ≤ i
      → write_whole m size tail sh content extdata i ≡ m i
  unfolding write_whole
  write_whole_outside a b = ground arith

  write_split_ext_outside :
      size < 2 ^ 31
      → tail ≤ size
      → tail + 27 + length content ≤ size
      → size < tail + 27 + length content + length extdata
      → 27 + length content + length extdata < size
      → size ≤ i
      → write_split_ext m size tail sh content extdata i ≡ m i
  unfolding write_split_ext
  write_split_ext_outside a b c d e f = ground arith

-- For a block under 2 ^ 31, a tail in it and a message smaller than it: in each of the four layouts of
-- `enqueue` the block ends up as if the bytes had been written one after the other round the ring.
pub place-ring :
    (q : ShmMq) (sh content extdata : List ℕ) (i : ℕ)
    → length sh ≡ 27
    → q.blocksize < 2 ^ 31
    → q.tail ≤ q.blocksize
    → 27 + length content + length extdata < q.blocksize
    → i < q.blocksize
    → (place q sh content extdata).0 i
      ≡ ring_write q.block q.blocksize q.tail (sh ++ (content ++ extdata)) i
unfolding place total_len
place-ring q sh content extdata i a b c d e = ground (
  arith,
  write_whole-ring q.block q.blocksize q.tail sh content extdata i,
  write_split_ext-ring q.block q.blocksize q.tail sh content extdata i,
  write_split_data-ring q.block q.blocksize q.tail sh content extdata i,
  write_split_head-ring q.block q.blocksize q.tail sh content extdata i,
)

-- The tail goes round at the end of the block; it may stop at the end itself.
pub place-tail :
    (q : ShmMq) (sh content extdata : List ℕ)
    → q.blocksize < 2 ^ 31
    → q.tail ≤ q.blocksize
    → 27 + length content + length extdata < q.blocksize
    → let t = q.tail + 27 + length content + length extdata in
      (place q sh content extdata).1 ≡ (if leb t q.blocksize then t else t - q.blocksize)
unfolding place total_len
place-tail q sh content extdata a b c = ground arith

-- For a block under 2 ^ 31, a tail in it and a message smaller than it: no copy of `enqueue` writes
-- behind the block.
pub place_outside :
    (q : ShmMq) (sh content extdata : List ℕ) (i : ℕ)
    → q.blocksize < 2 ^ 31
    → q.tail ≤ q.blocksize
    → 27 + length content + length extdata < q.blocksize
    → q.blocksize ≤ i
    → (place q sh content extdata).0 i ≡ q.block i
unfolding place total_len
place_outside q sh content extdata i a b c d = ground (
  arith,
  write_whole_outside q.block q.blocksize q.tail sh content extdata i,
  write_split_ext_outside q.block q.blocksize q.tail sh content extdata i,
  write_split_data_outside q.block q.blocksize q.tail sh content extdata i,
  write_split_head_outside q.block q.blocksize q.tail sh content extdata i,
)
