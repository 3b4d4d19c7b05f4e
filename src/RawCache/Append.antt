-- ===== src/RawCache/Append.antt =====
-- `append` of CRawCache (cache.cpp) as the end of a queue of bytes.
use spp_server_frame_work.Base.{
  copy_in-append, copy_in-hit, ℕ, ◌+◌, ◌^◌, ◌<◌, ◌≡◌, inl, inr, refl, sym, ap, ◌∙◌, subst, List, [],
  ◌++◌, Option, none, some, ltb, leb, length, u32, add32, arith, copy_in, Bool-cases, Option-cases,
  length-append, leb→le, not_ltb→le,
}
use spp_server_frame_work.MemPool.{allocate, recycle, fit_block_size}
use spp_server_frame_work.MemPool.Sizes.{fit_block_size_bounds, allocate-cases}
use spp_server_frame_work.RawCache.{
  World, RawCache, write, joined, append_first, append_larger, append_at, append,
}
use spp_server_frame_work.RawCache.Bytes.{
  Holds, write-same, at_block, held, joined_block, Holds-none, nothing,
}

module _ (new_block : List ℕ → ℕ) where
  -- What a call of `append` does: it throws where the pool has no block for all the bytes, or the
  -- cache holds the bytes it held and the new ones.
  pub Appended : World → List ℕ → List ℕ → Option (World × RawCache) → Type 0
  Appended w l piece none = (allocate new_block (length l + length piece) w.pool).1 ≡ none
  Appended w l piece (some (w', c')) = Holds w' c' (l ++ piece)

  append_first-Holds :
      (w : World) (piece : List ℕ)
      → length piece < 2 ^ 30
      → Appended w [] piece (append_first new_block piece w)
  unfolding Appended append_first
  append_first-Holds w piece h = elim (allocate-cases new_block (length piece) w.pool) [
    | inl fails ↦
        rw (append_first, fails)
          (let e : 0 + length piece ≡ length piece = omega arith in rw e fails)
    | inr (a, got) ↦
        (let f = copy_in (w.bytes a) 0 piece 0 (length piece) in
          let w' = write a f (record w { pool = (allocate new_block (length piece) w.pool).0 }) in
          let bounds = fit_block_size_bounds (length piece) (omega arith) in
          rw (append_first, got)
            (held w'
              (record {
                mem = some a;
                block_size = fit_block_size (length piece);
                data_head = 0;
                data_len = length piece;
              })
              piece a refl refl (omega (arith, bounds)) (omega (arith, bounds))
              (λ k lt.
                sym (copy_in-hit (w.bytes a) 0 piece (length piece) k lt)
                ∙ ap (λ g. g (0 + k))
                    (sym (
                      write-same a f
                        (record w { pool = (allocate new_block (length piece) w.pool).0 }))))))
  ]

  append_larger-Holds :
      (w : World) (c : RawCache) (l piece : List ℕ) (m : ℕ)
      → Holds w c l
      → c.mem ≡ some m
      → length l + length piece < 2 ^ 30
      → Appended w l piece (append_larger new_block piece w c m)
  unfolding Appended append_larger
  append_larger-Holds w c l piece m v e small =
      let total = add32 (length piece) c.data_len in
      let sum : total ≡ length l + length piece = omega (arith, v.len_is) in
      elim (allocate-cases new_block total w.pool) [
        | inl fails ↦
            rw (append_larger, fails)
              (subst (λ t. (allocate new_block t w.pool).1 ≡ none) sum fails)
        | inr (a, got) ↦
            (let w1 = record w {
              pool = (recycle m c.block_size ((allocate new_block total w.pool).0)).0;
            } in
              let bounds = fit_block_size_bounds total (omega (arith, sum)) in
              rw (append_larger, got)
                (held (write a (joined (w.bytes a) (w.bytes m) c.data_head c.data_len piece) w1)
                  (record {
                    mem = some a;
                    block_size = fit_block_size total;
                    data_head = 0;
                    data_len = add32 c.data_len (length piece);
                  })
                  (l ++ piece) a refl (omega (arith, length-append l piece, v.len_is))
                  (omega (arith, bounds, v.len_is)) (omega (arith, bounds, sum))
                  (λ k lt.
                    joined_block w1 (w.bytes a) (w.bytes m) c.data_head c.data_len l piece a
                      v.len_is (at_block w c l m e v) k lt)))
      ]

  append_at-Holds :
      (w : World) (c : RawCache) (l piece : List ℕ) (m : ℕ)
      → Holds w c l
      → c.mem ≡ some m
      → length l + length piece < 2 ^ 30
      → Appended w l piece (append_at new_block piece w c m)
  unfolding Appended append_at
  append_at-Holds w c l piece m v e small =
      let bytes = at_block w c l m e v in
      let n = length-append l piece in
      elim (Bool-cases (leb (u32 (length piece + c.data_head + c.data_len)) c.block_size)) [
        | inl fits ↦
            rw (append_at, fits)
              (held
                (write m (copy_in (w.bytes m) (add32 c.data_head c.data_len) piece 0 (length piece))
                  w)
                (record c { data_len = add32 c.data_len (length piece) }) (l ++ piece) m e
                (omega (arith, n, v.len_is, v.room, v.small))
                (omega (
                  arith,
                  leb→le (u32 (length piece + c.data_head + c.data_len)) c.block_size fits,
                  v.room,
                  v.small,
                  v.len_is,
                ))
                v.small
                (λ k lt.
                  copy_in-append (w.bytes m) c.data_head (add32 c.data_head c.data_len) l piece
                    (omega (arith, v.room, v.small, v.len_is)) bytes k (c.data_head + k) refl lt
                  ∙ ap (λ g. g (c.data_head + k))
                      (sym (
                        write-same m
                          (copy_in (w.bytes m) (add32 c.data_head c.data_len) piece 0
                            (length piece))
                          w))))
        | inr full ↦ elim (Bool-cases (ltb c.block_size (add32 (length piece) c.data_len))) [
          | inl larger ↦ rw (append_at, full, larger) (append_larger-Holds w c l piece m v e small)
          | inr slides ↦
              rw (append_at, full, slides)
                (held (write m (joined (w.bytes m) (w.bytes m) c.data_head c.data_len piece) w)
                  (record c { data_head = 0; data_len = add32 c.data_len (length piece) })
                  (l ++ piece) m e (omega (arith, n, v.len_is, v.room, v.small))
                  (omega (
                    arith,
                    not_ltb→le c.block_size (add32 (length piece) c.data_len) slides,
                    v.room,
                    v.small,
                    v.len_is,
                  ))
                  v.small
                  (λ k lt.
                    joined_block w (w.bytes m) (w.bytes m) c.data_head c.data_len l piece m v.len_is
                      bytes k lt))
        ]
      ]

  -- For a cache that holds bytes of the given list, under 2 ^ 30 with the new ones: `append` leaves it
  -- holding the list with the new bytes behind it, in whichever of its four ways, and throws only
  -- where the pool has no block for all of them.
  pub append-Holds :
      (w : World) (c : RawCache) (l piece : List ℕ)
      → Holds w c l
      → length l + length piece < 2 ^ 30
      → Appended w l piece (append new_block piece w c)
  unfolding append
  append-Holds w c l piece v small = elim (Option-cases c.mem) [
    | inl e ↦
        subst (λ l'. Appended w l' piece (append new_block piece w c))
          (sym (nothing (Holds-none w c l e v)))
          (subst (Appended w [] piece)
            (sym (
              ap
                (λ o. elim o [
                  | none ↦ append_first new_block piece w
                  | some m' ↦ append_at new_block piece w c m'
                ])
                e))
            (append_first-Holds w piece (omega arith)))
    | inr (m, e) ↦
        subst (Appended w l piece)
          (sym (
            ap
              (λ o. elim o [
                | none ↦ append_first new_block piece w
                | some m' ↦ append_at new_block piece w c m'
              ])
              e))
          (append_at-Holds w c l piece m v e small)
  ]
