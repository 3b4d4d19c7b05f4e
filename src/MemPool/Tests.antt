-- ===== src/MemPool/Tests.antt =====
-- CMemPool at concrete inputs.
use spp_server_frame_work.Base.{ℕ, suc, ◌+◌, ◌<◌, ◌≡◌, refl, true, List, [], ◌∷◌, some, arith}
use spp_server_frame_work.MemPool.{
  refill, extend_new_size, extend, count_bits, fit_extend_set, take_block, add_blocks, new_blocks,
  MemPool, find, update, recycle, contains, allocate, fit_block_size, c_max_water_mark,
}
use spp_server_frame_work.MemPool.Ownership.{
  count, free_count, Owns, Lends, Recycles, allocate-Owns, recycle-Owns,
}
use spp_server_frame_work.MemPool.Stale.{recycle-twice}

-- A heap that picks the number above the sum of the live blocks.
sum : List ℕ → ℕ
sum [] = 0
sum (a ∷ l) = a + sum l

next_block : List ℕ → ℕ
next_block h = suc (sum h)

count-sum : (a : ℕ) (h : List ℕ) → sum h < a → count a h ≡ 0
unfolding sum count
count-sum a [] lt = refl
count-sum a (b ∷ h) lt = ground (arith, count-sum a h)

next_block-fresh : (h : List ℕ) → count (next_block h) h ≡ 0
unfolding next_block
next_block-fresh h = count-sum (suc (sum h)) h (omega arith)

abbrev no_pool : MemPool
no_pool = record {
  free = [];
  stub = [];
  allocated_size = 0;
  water_mark = c_max_water_mark;
  heap = [];
}

no_pool-Owns : Owns no_pool []
unfolding Owns free_count count
no_pool-Owns = λ a. (refl, omega arith)

allocated_large : (allocate next_block 70_000_000 no_pool).1 ≡ some (1, 134_217_728)
unfolding allocate refill find extend_new_size extend fit_block_size count_bits fit_extend_set
    take_block add_blocks update new_blocks next_block sum
allocated_large = refl

allocate-Owns_example : Lends [] (allocate next_block 70_000_000 no_pool)
allocate-Owns_example = allocate-Owns next_block next_block-fresh 70_000_000 [] no_pool no_pool-Owns

abbrev lent_pool : MemPool
lent_pool = record {
  free = (1024, 5 ∷ []) ∷ [];
  stub = (1024, 5 ∷ 7 ∷ []) ∷ [];
  allocated_size = 2048;
  water_mark = c_max_water_mark;
  heap = 5 ∷ 7 ∷ [];
}

lent_pool-Owns : Owns lent_pool (7 ∷ [])
unfolding Owns free_count count
lent_pool-Owns = λ a. (ground arith, ground arith)

recycle-Owns_example : Recycles [] lent_pool (recycle 7 1024 lent_pool)
recycle-Owns_example = recycle-Owns 7 1024 [] lent_pool lent_pool-Owns

recycle-twice_example :
    (let (p', done) = recycle 7 1024 lent_pool in (done ≡ true) × ((recycle 7 1024 p').1 ≡ true))
unfolding find contains
recycle-twice_example = recycle-twice 7 1024 lent_pool (5 ∷ 7 ∷ []) (5 ∷ []) refl refl refl
