-- ===== src/ShmMq/Reads.antt =====
-- What `read_head` and `read_body` of `dequeue_i` (shmcommu.cpp) get out of a ring.
use spp_server_frame_work.Base.{
  ℕ, ◌+◌, ◌-◌, ◌^◌, ◌≤◌, ◌<◌, ◌≡◌, refl, subst, List, ◌++◌, ltb, leb, if◌then◌else◌, length,
  get_or-append, length-append, list_ext, arith, Memory, copy_out, length-copy_out, get_or-copy_out,
  sub32,
}
use spp_server_frame_work.ShmMq.{ShmMq, read_head, read_body}
use spp_server_frame_work.ShmMq.Ring.{Holds}

-- A copy that does not reach the end of the block.
pub copy_out-Holds :
    (m : Memory) (size p n : ℕ) (xs : List ℕ)
    → n ≡ length xs
    → p + length xs ≤ size
    → Holds m size p xs
    → copy_out m p n ≡ xs
copy_out-Holds m size p n xs e h hold =
    list_ext 0 _ xs (omega (arith, length-copy_out m p n))
      (λ k l. ground (arith, get_or-copy_out m p n k, hold k, length-copy_out m p n))

-- A copy in two parts, round the end of the block.
pub copy_out-Holds_round :
    (m : Memory) (size p first second : ℕ) (xs : List ℕ)
    → p + first ≡ size
    → first + second ≡ length xs
    → length xs ≤ size
    → Holds m size p xs
    → copy_out m p first ++ copy_out m 0 second ≡ xs
copy_out-Holds_round m size p first second xs e f h hold =
    list_ext 0 _ xs (omega (arith, size_lem)) λ k l. ground (
      arith,
      size_lem,
      get_or-append (copy_out m p first) (copy_out m 0 second) k 0,
      length-copy_out m p first,
      get_or-copy_out m p first k,
      get_or-copy_out m 0 second (k - first),
      hold k,
    )
  where
    size_lem : length (copy_out m p first ++ copy_out m 0 second) ≡ first + second
    size_lem = omega (
      arith,
      length-append (copy_out m p first) (copy_out m 0 second),
      length-copy_out m p first,
      length-copy_out m 0 second,
    )

-- The header comes out whole, and the data offset is the next place in the block.
module _ (q : ShmMq) (sh : List ℕ) where
  pub read_head_lem :
      length sh ≡ 27
      → q.blocksize < 2 ^ 31
      → q.head ≤ q.blocksize
      → 27 < q.blocksize
      → Holds q.block q.blocksize q.head sh
      → ((read_head q).0 ≡ sh)
        × ((read_head q).1
            ≡ (if ltb (q.head + 27) q.blocksize then q.head + 27 else q.head + 27 - q.blocksize))
  unfolding read_head
  read_head_lem e a b c hold = ground (
    arith,
    copy_out-Holds q.block q.blocksize q.head 27 sh,
    copy_out-Holds_round q.block q.blocksize q.head (sub32 q.blocksize q.head)
        (sub32 27 (sub32 q.blocksize q.head)) sh,
  )

module _ (q : ShmMq) (pos : ℕ) (content extdata : List ℕ) where
  -- Where the extension stands.
  abbrev pub ext_pos : ℕ
  ext_pos =
      if leb (pos + length content) q.blocksize
      then pos + length content
      else pos + length content - q.blocksize

  module _ (a : q.blocksize < 2 ^ 31) (b : pos ≤ q.blocksize)
      (c : length content + length extdata < q.blocksize)
      (hc : Holds q.block q.blocksize pos content)
      (he : Holds q.block q.blocksize ext_pos extdata) where
    Holds-at : (t : ℕ) → ext_pos ≡ t → Holds q.block q.blocksize t extdata
    Holds-at t e = subst (λ u. Holds q.block q.blocksize u extdata) e he

    extdata_behind_round :
        (t : ℕ)
        → q.blocksize < pos + length content
        → t ≡ pos + length content - q.blocksize
        → copy_out q.block t (length extdata) ≡ extdata
    extdata_behind_round t h e =
        copy_out-Holds q.block q.blocksize t (length extdata) extdata refl (omega arith)
          (Holds-at t (ground arith))

    extdata_round :
        (first second : ℕ)
        → pos + length content + first ≡ q.blocksize
        → first + second ≡ length extdata
        → copy_out q.block (pos + length content) first ++ copy_out q.block 0 second ≡ extdata
    extdata_round first second e f =
        copy_out-Holds_round q.block q.blocksize (pos + length content) first second extdata e f
          (omega arith) (Holds-at _ (ground arith))

    extdata_whole :
        pos + length content + length extdata ≤ q.blocksize
        → copy_out q.block (pos + length content) (length extdata) ≡ extdata
    extdata_whole e =
        copy_out-Holds q.block q.blocksize (pos + length content) (length extdata) extdata refl e
          (Holds-at _ (ground arith))

    pub read_body_lem :
        read_body q pos (length content) (length extdata) (length content + length extdata) ≡ (
          content,
          extdata,
          (let e = pos + length content + length extdata in
              if leb e q.blocksize then e else e - q.blocksize),
        )
    unfolding read_body
    read_body_lem = ground (
      arith,
      copy_out-Holds q.block q.blocksize pos (length content) content refl,
      copy_out-Holds_round q.block q.blocksize pos (sub32 q.blocksize pos)
          (sub32 (length content) (sub32 q.blocksize pos)) content,
      extdata_behind_round (sub32 (length content) (sub32 q.blocksize pos)),
      extdata_round (sub32 (sub32 q.blocksize pos) (length content))
          (sub32 (length extdata) (sub32 (sub32 q.blocksize pos) (length content))),
      extdata_whole,
    )
