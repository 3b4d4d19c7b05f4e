-- ===== src/RawCache.antt =====
-- CRawCache of ServerFrameWork/src/base/cache.cpp and include/cache.h: the bytes that a connection has
-- received or has still to send, in one block of the memory pool.
pub mod Bytes
pub mod Append
pub mod Skip
mod Tests
use spp_server_frame_work.Base.{
  ℕ, zero, suc, ◌+◌, ◌-◌, Bool, true, false, List, Option, none, some, ltb, leb, ◌==◌,
  if◌then◌else◌, length, u32, add32, sub32, Memory, copy_in, copy_out,
}
use spp_server_frame_work.MemPool.{MemPool, allocate, recycle}

-- The pool, which all caches share, and the bytes of every block.
pub record World : Type 0 where
  pub pool : MemPool
  pub bytes : ℕ → Memory

-- `mem` is the address of the block, none for NULL.
pub record RawCache : Type 0 where
  pub mem : Option ℕ
  pub block_size : ℕ
  pub data_head : ℕ
  pub data_len : ℕ

abbrev pub no_cache : RawCache
no_cache = record { mem = none; block_size = 0; data_head = 0; data_len = 0 }

-- The block's bytes become `f`.
pub write : ℕ → Memory → World → World
write a f w = record w { bytes = λ b. if b == a then f else w.bytes b }

-- The block's bytes after the copy of `len` of the bytes `from` to its front and of `data` behind
-- them.
pub joined : Memory → Memory → ℕ → ℕ → List ℕ → Memory
joined to from head len piece =
    copy_in (copy_in to 0 (copy_out from head len) 0 len) len piece 0 (length piece)

-- `data()`: the bytes from there on; none for NULL. The `assert` is not modelled.
pub cached_data : World → RawCache → Option (List ℕ)
cached_data w c =
    if c.data_len == 0
    then none
    else elim c.mem [ none ↦ none | some m ↦ some (copy_out (w.bytes m) c.data_head c.data_len) ]

module _ (new_block : List ℕ → ℕ) where
  -- `_mem == NULL`; none is the `throw(0)`.
  pub append_first : List ℕ → World → Option (World × RawCache)
  append_first piece w =
      let (pool', block) = allocate new_block (length piece) w.pool in
      elim block [
        | none ↦ none
        | some (a, size) ↦ some (
          write a (copy_in (w.bytes a) 0 piece 0 (length piece)) (record w { pool = pool' }),
          record { mem = some a; block_size = size; data_head = 0; data_len = length piece },
        )
      ]

  -- The bytes move to a larger block; what `recycle` returns is not looked at.
  pub append_larger : List ℕ → World → RawCache → ℕ → Option (World × RawCache)
  append_larger piece w c m =
      let (pool', block) = allocate new_block (add32 (length piece) c.data_len) w.pool in
      elim block [
        | none ↦ none
        | some (a, size) ↦ some (
          write a (joined (w.bytes a) (w.bytes m) c.data_head c.data_len piece)
              (record w { pool = (recycle m c.block_size pool').0 }),
          record {
            mem = some a;
            block_size = size;
            data_head = 0;
            data_len = add32 c.data_len (length piece);
          },
        )
      ]

  -- `_mem != NULL`
  pub append_at : List ℕ → World → RawCache → ℕ → Option (World × RawCache)
  append_at piece w c m =
      if leb (u32 (length piece + c.data_head + c.data_len)) c.block_size
      then some (
        write m (copy_in (w.bytes m) (add32 c.data_head c.data_len) piece 0 (length piece)) w,
        record c { data_len = add32 c.data_len (length piece) },
      )
      else if ltb c.block_size (add32 (length piece) c.data_len)
      then append_larger piece w c m
      else some (
        write m (joined (w.bytes m) (w.bytes m) c.data_head c.data_len piece) w,
        record c { data_head = 0; data_len = add32 c.data_len (length piece) },
      )

  pub append : List ℕ → World → RawCache → Option (World × RawCache)
  append piece w c = elim c.mem [ none ↦ append_first piece w | some m ↦ append_at piece w c m ]

pub skip_at : ℕ → World → RawCache → ℕ → World × RawCache
skip_at n w c m =
    if leb c.data_len n
    then (record w { pool = (recycle m c.block_size w.pool).0 }, no_cache)
    else (w, record c { data_head = add32 c.data_head n; data_len = sub32 c.data_len n })

pub skip : ℕ → World → RawCache → World × RawCache
skip n w c = elim c.mem [ none ↦ (w, c) | some m ↦ skip_at n w c m ]
