-- ===== src/LoadTable/Access.antt =====
-- What `write` puts into an item is what `read` finds there, and no other item changes (loadtable.cpp).
use spp_server_frame_work.Base.{
  ℕ, ◌+◌, ◌-◌, ◌^◌, ◌<◌, ◌≤◌, ◌≡◌, ◌⊎◌, inl, inr, refl, sym, ap, ap₂, ◌∙◌, min, some, List, ◌++◌,
  length, take, drop, le_bytes, of_le-le_bytes, add32, sub32, arith, Memory, copy_out, put,
  copy_out-put_self, copy_out-put_other, copy_out-parts, copy_out-join, length-append, length-take,
  length-drop, length-copy_out, le→not_ltb,
}
use spp_server_frame_work.LoadTable.{
  ItemInfo, CLoadTable, returned, find_item, stamped, read, write,
}

-- An item that a process knows, with its header, in front of the tail.
pub record Known (t : CLoadTable) (key : List ℕ) (info : ItemInfo) : Type 0 where
  pub found : find_item t.items key ≡ some info
  pub headed : 40 ≤ info.pos
  pub in_table : info.pos + info.len ≤ t.tail
  pub small : t.tail < 2 ^ 32

module _ (block : Memory) (pos now : ℕ) (headed : 40 ≤ pos) where
  abbrev header : List ℕ
  header = copy_out block (pos - 40) 40

  abbrev stamp : List ℕ
  stamp = take 32 header ++ (le_bytes 4 now ++ drop 36 header)

  key_len : length (take 32 header) ≡ 32
  key_len = omega (arith, length-take 32 header, length-copy_out block (pos - 40) 40)

  stamp_len : length stamp ≡ 40
  stamp_len = omega (
    arith,
    length-append (take 32 header) (le_bytes 4 now ++ drop 36 header),
    key_len,
    length-append (le_bytes 4 now) (drop 36 header),
    length-drop 36 header,
    length-copy_out block (pos - 40) 40,
  )

  stamped_time : copy_out (stamped block pos now) (pos - 40 + 32) 4 ≡ le_bytes 4 now
  stamped_time =
      let whole = copy_out-put_self block (pos - 40) stamp (length stamp) refl in
      let rest =
        (copy_out-parts (stamped block pos now) (take 32 header) (le_bytes 4 now ++ drop 36 header)
          (pos - 40) whole).1 in
      let time =
        (copy_out-parts (stamped block pos now) (le_bytes 4 now) (drop 36 header)
          (pos - 40 + length (take 32 header)) rest).0 in
      ap (λ k. copy_out (stamped block pos now) (pos - 40 + k) 4) (sym key_len) ∙ time

  -- Only the header changes.
  stamped_other :
      (at n : ℕ)
      → (at + n ≤ pos - 40) ⊎ (pos ≤ at)
      → copy_out (stamped block pos now) at n ≡ copy_out block at n
  stamped_other at n (inl before) = copy_out-put_other block (pos - 40) stamp at n (inl before)
  stamped_other at n (inr behind) =
      copy_out-put_other block (pos - 40) stamp at n (inr (omega (arith, stamp_len)))

-- The block after `write`.
abbrev written : CLoadTable → ItemInfo → List ℕ → ℕ → Memory
written t info buf now =
    put (stamped t.block info.pos now) info.pos (take (min info.len (length buf)) buf)

module _ (t : CLoadTable) (key buf : List ℕ) (info : ItemInfo) (now : ℕ)
    (k : Known t key info) where
  abbrev count : ℕ
  count = min info.len (length buf)

  count_is : length (take count buf) ≡ count
  count_is = omega (arith, length-take count buf)

  write-written : write t key buf now ≡ (record t { block = written t info buf now }, some count)
  unfolding write
  write-written =
      let end : add32 info.pos info.len ≡ info.pos + info.len =
        omega (arith, k.in_table, k.small) in
      rw (k.found, end, le→not_ltb t.tail (info.pos + info.len) k.in_table) refl

  written_time : copy_out (written t info buf now) (info.pos - 40 + 32) 4 ≡ le_bytes 4 now
  written_time =
      copy_out-put_other (stamped t.block info.pos now) info.pos (take count buf)
        (info.pos - 40 + 32) 4 (inl (omega (arith, k.headed)))
      ∙ stamped_time t.block info.pos now k.headed

  written_bytes :
      copy_out (written t info buf now) info.pos info.len
      ≡ take count buf ++ copy_out t.block (info.pos + count) (info.len - count)
  written_bytes =
      let m = stamped t.block info.pos now in
      let w = written t info buf now in
      copy_out-join w info.pos count (info.len - count) info.len (omega arith)
      ∙ ap₂ ◌++◌ (copy_out-put_self m info.pos (take count buf) count (sym count_is)) (
          copy_out-put_other m info.pos (take count buf) (info.pos + count) (info.len - count)
            (inr (omega (arith, count_is)))
          ∙ stamped_other t.block info.pos now k.headed (info.pos + count) (info.len - count)
              (inr (omega arith)))

  -- Bytes before the header, or behind the item.
  written_other :
      (at n : ℕ)
      → (at + n ≤ info.pos - 40) ⊎ (info.pos + info.len ≤ at)
      → copy_out (written t info buf now) at n ≡ copy_out t.block at n
  written_other at n (inl before) =
      copy_out-put_other (stamped t.block info.pos now) info.pos (take count buf) at n
        (inl (omega arith))
      ∙ stamped_other t.block info.pos now k.headed at n (inl before)
  written_other at n (inr behind) =
      copy_out-put_other (stamped t.block info.pos now) info.pos (take count buf) at n
        (inr (omega (arith, count_is)))
      ∙ stamped_other t.block info.pos now k.headed at n (inr (omega arith))

-- For an item that the process knows and a time of 32 bits: write puts as many bytes as the item and the
-- buffer have, and a read that is not too late returns the length of the item, or of its buffer, and
-- copies those bytes and what the item had behind them.
pub read-write :
    (t : CLoadTable) (key buf : List ℕ) (info : ItemInfo) (room timeout now later : ℕ)
    → Known t key info
    → now < 2 ^ 32
    → sub32 later now ≤ timeout
    → (let n = min info.len (length buf) in
        let (t', written) = write t key buf now in
        (written ≡ some n)
        × (read t' room key timeout later
            ≡ returned
                (min info.len room)
                (take n buf ++ copy_out t.block (info.pos + n) (info.len - n))))
unfolding read
read-write t key buf info room timeout now later k fits fresh =
    let end : add32 info.pos info.len ≡ info.pos + info.len = omega (arith, k.in_table, k.small) in
    rw
      (
        write-written t key buf info now k,
        k.found,
        end,
        le→not_ltb t.tail (info.pos + info.len) k.in_table,
        written_time t key buf info now k,
        of_le-le_bytes 4 now fits,
        le→not_ltb timeout (sub32 later now) fresh,
        written_bytes t key buf info now k,
      )
      (refl, refl)

-- For two items that the process knows, one of which lies before the other with its header: a read of the
-- second finds after a write to the first what it finds without it.
pub read-write_other :
    (t : CLoadTable) (key other buf : List ℕ) (info info' : ItemInfo) (room timeout now later : ℕ)
    → Known t key info
    → Known t other info'
    → (info'.pos + info'.len ≤ info.pos - 40) ⊎ (info.pos + info.len ≤ info'.pos - 40)
    → read (write t key buf now).0 room other timeout later ≡ read t room other timeout later
unfolding read
read-write_other t key other buf info info' room timeout now later k k' apart =
    let time = written_other t key buf info now k (info'.pos - 40 + 32) 4 (elim apart [
      | inl before ↦ inl (omega (arith, k'.headed))
      | inr behind ↦ inr (omega arith)
    ]) in
    let bytes =
      written_other t key buf info now k info'.pos info'.len
        (elim apart [ inl before ↦ inl before | inr behind ↦ inr (omega arith) ]) in
    rw (write-written t key buf info now k, k'.found, time, bytes) refl
