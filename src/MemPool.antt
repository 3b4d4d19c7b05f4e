-- ===== src/MemPool.antt =====
-- CMemPool of ServerFrameWork/src/base/mempool.cpp and include/mempool.h: blocks of memory in lists
-- by size. The C++ heap is part of the state: `heap` lists the addresses of the live blocks, and
-- `new_block` is `new char[size]`, which picks an address.
pub mod Sizes
pub mod Ownership
pub mod Stale
mod Tests
use spp_server_frame_work.Base.{
  ℕ, zero, suc, ◌+◌, ◌-◌, ◌*◌, ◌/◌, ◌%◌, ◌^◌, Bool, true, false, ◌&&◌, ◌||◌, List, [], ◌∷◌, Option,
  none, some, ltb, leb, ◌==◌, if◌then◌else◌, length, u32, add32, sub32,
}

abbrev pub c_extend_set : ℕ
c_extend_set = 128

abbrev pub c_slot_1 : ℕ
c_slot_1 = 2 ^ 20

abbrev pub c_slot_2 : ℕ
c_slot_2 = 2 ^ 26

abbrev pub c_alloc_capcity : ℕ
c_alloc_capcity = 2 * c_slot_2

abbrev pub c_max_pool_size : ℕ
c_max_pool_size = 2000 * 2 ^ 20

abbrev pub c_max_water_mark : ℕ
c_max_water_mark = 2 ^ 30

-- `std::map` from block sizes to lists of blocks.
abbrev pub BlockMap : Type 0
BlockMap = List (ℕ × List ℕ)

pub find : ℕ → BlockMap → Option (List ℕ)
find k [] = none
find k ((j, l) ∷ m) = if j == k then some l else find k m

-- Writes through `it->second`; an absent key is left absent.
pub update : ℕ → List ℕ → BlockMap → BlockMap
update k l [] = []
update k l ((j, l') ∷ m) = if j == k then (j, l) ∷ m else (j, l') ∷ update k l m

pub record MemPool : Type 0 where
  pub free : BlockMap
  pub stub : BlockMap
  pub allocated_size : ℕ
  pub water_mark : ℕ
  pub heap : List ℕ

-- `for (; size; i++, size = size >> 1);` with the rounds left.
pub count_bits : ℕ → ℕ → ℕ → ℕ
count_bits zero size i = i
count_bits (suc rounds) size i =
    let rest = count_bits rounds (size / 2) (i + 1) in if size == 0 then i else rest

-- 32 rounds are enough for an `unsigned`. From 2 ^ 31 on the source shifts 1 by 32 bits, which C++ does
-- not define; it is 0 here.
pub fit_block_size : ℕ → ℕ
fit_block_size size =
    let i = count_bits 32 (size / 2 ^ 10) 10 in u32 (2 ^ (if ltb i 10 then 10 else i))

pub fit_extend_set : ℕ → ℕ
fit_extend_set size =
    if ltb size c_slot_1
    then c_extend_set
    else if leb c_slot_1 size && ltb size c_slot_2
    then c_alloc_capcity / size
    else 1

-- The number of free blocks to give back, `release_size(block_size, free_count, stub_count)`.
pub release_count : ℕ → ℕ → ℕ → ℕ → ℕ
release_count water_mark block_size free_count stub_count =
    if ltb (u32 (free_count * block_size)) (2 ^ 20)
    then 0
    else if ltb c_slot_2 block_size
    then (if ltb 1 free_count then free_count / 2 else free_count)
    else if leb (stub_count / 2) free_count || leb water_mark (u32 (free_count * block_size))
    then free_count / 2
    else 0

-- `delete []`
pub delete : ℕ → List ℕ → List ℕ
delete a [] = []
delete a (b ∷ h) = if b == a then h else b ∷ delete a h

-- `for (i = 0; i < todo_count; i++)` over the front of the list: what is left of it and of the heap.
pub delete_front : ℕ → List ℕ → List ℕ → List ℕ × List ℕ
delete_front zero l h = (l, h)
delete_front (suc n) [] h = ([], h)
delete_front (suc n) (a ∷ l) h = delete_front n l (delete a h)

-- The set of all blocks of that size stays as it is. The `assert` on the account is not modelled;
-- the account wraps instead.
pub release : ℕ → List ℕ → List ℕ → MemPool → MemPool
release size l s p =
    let todo = release_count p.water_mark size (length l) (length s) in
    let (l', h') = delete_front todo l p.heap in
    if todo == 0 then p else record p {
      free = update size l' p.free;
      heap = h';
      allocated_size = sub32 p.allocated_size (u32 (size * todo));
    }

-- One round of the loop of `release_size(mem_size)`, at the size that it has come to.
pub purge : ℕ → MemPool → MemPool
purge size p = elim (find size p.stub) [
  | none ↦ p
  | some s ↦ elim (find size p.free) [ none ↦ p | some l ↦ release size l s p ]
]

-- The test of that loop.
pub wants_more : ℕ → ℕ → ℕ → MemPool → Bool
wants_more mem_size last purge_size p =
    ltb (sub32 last p.allocated_size) mem_size && leb c_slot_1 purge_size

pub purge_loop : ℕ → ℕ → ℕ → ℕ → MemPool → ℕ × MemPool
purge_loop zero mem_size last purge_size p = (purge_size, p)
purge_loop (suc rounds) mem_size last purge_size p =
    let rest = purge_loop rounds mem_size last (purge_size / 2) (purge (purge_size / 2) p) in
    if wants_more mem_size last purge_size p then rest else (purge_size, p)

-- 13 rounds are enough: the size falls from 2 ^ 31 below 2 ^ 20.
pub release_size : ℕ → MemPool → MemPool × Bool
release_size mem_size p =
    let last = p.allocated_size in
    let start = record p { water_mark = c_alloc_capcity } in
    let p' = (purge_loop 13 mem_size last (2 ^ 31) start).1 in
    (
      record p' { water_mark = c_max_water_mark },
      if ltb (sub32 last p'.allocated_size) mem_size then false else true,
    )

pub contains : ℕ → List ℕ → Bool
contains a [] = false
contains a (b ∷ l) = b == a || contains a l

-- `insert` of a `std::set`, which has an element once.
pub insert : ℕ → List ℕ → List ℕ
insert a s = if contains a s then s else a ∷ s

module _ (new_block : List ℕ → ℕ) where
  -- `for (i = 0; i < extend_set; i++)`: the list, the set and the heap.
  pub new_blocks : ℕ → List ℕ → List ℕ → List ℕ → List ℕ × List ℕ × List ℕ
  new_blocks zero l s h = (l, s, h)
  new_blocks (suc n) l s h = let a = new_block h in new_blocks n (a ∷ l) (insert a s) (a ∷ h)

  -- The blocks that `extend` adds to the list and the set of a size.
  pub add_blocks : ℕ → ℕ → MemPool → MemPool
  add_blocks size count p = elim (find size p.free) [
    | none ↦ p
    | some l ↦ elim (find size p.stub) [
      | none ↦ p
      | some s ↦
          (let (l', s', h') = new_blocks count l s p.heap in
            record p {
              free = update size l' p.free;
              stub = update size s' p.stub;
              heap = h';
              allocated_size = add32 p.allocated_size (u32 (size * count));
            })
    ]
  ]

  -- `true` is the return value 0.
  pub extend : ℕ → MemPool → MemPool × Bool
  extend size p =
      let count = fit_extend_set size in
      let wanted = add32 p.allocated_size (u32 (size * count)) in
      let (p', enough) = release_size (sub32 wanted c_max_pool_size) p in
      if leb c_max_pool_size wanted
      then (if enough then (add_blocks size count p', true) else (p', false))
      else (add_blocks size count p, true)

  pub extend_new_size : ℕ → MemPool → MemPool × Bool
  extend_new_size size p =
      extend size (record p { free = (size, []) ∷ p.free; stub = (size, []) ∷ p.stub })

  -- The front of the list of a size, which `extend` fills if it is empty.
  pub take_block : ℕ → MemPool → MemPool × Option ℕ
  take_block size p = elim (find size p.free) [
    | none ↦ (p, none)
    | some [] ↦ (p, none)
    | some (a ∷ l) ↦ (record p { free = update size l p.free }, some a)
  ]

  pub refill : ℕ → MemPool → MemPool × Bool
  refill size p = elim (find size p.free) [
    | none ↦ extend_new_size size p
    | some [] ↦ extend size p
    | some (a ∷ l) ↦ (p, true)
  ]

  -- `allocate`: the new pool, the block or NULL, and `result_size`.
  pub allocate : ℕ → MemPool → MemPool × Option (ℕ × ℕ)
  allocate size p =
      let block_size = fit_block_size size in
      let (p1, ready) = refill block_size p in
      if ready
      then (let (p2, block) = take_block block_size p1 in
          (p2, elim block [ none ↦ none | some a ↦ some (a, block_size) ]))
      else (p1, none)

-- `recycle`; `true` is the return value 0. The size is not checked against the block.
pub recycle : ℕ → ℕ → MemPool → MemPool × Bool
recycle mem mem_size p = elim (find mem_size p.stub) [
  | none ↦ (p, false)
  | some s ↦
      if contains mem s
      then elim (find mem_size p.free) [
        | none ↦ (p, false)
        | some l ↦ (
          release mem_size (mem ∷ l) s (record p { free = update mem_size (mem ∷ l) p.free }),
          true,
        )
      ]
      else (p, false)
]
