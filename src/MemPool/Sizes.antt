-- ===== src/MemPool/Sizes.antt =====
-- The sizes of CMemPool (mempool.h, mempool.cpp): block sizes, batch sizes, and how much is given
-- back.
use spp_server_frame_work.Base.{
  ℕ, zero, suc, ◌+◌, ◌*◌, ◌/◌, ◌^◌, ◌≤◌, ◌<◌, ◌≡◌, refl, ◌⊎◌, inl, inr, List, none, some,
  Option-cases, false, ◌==◌, if◌then◌else◌, arith, Bool-cases, ◌≢◌, ℕ_discrete, le→not_ltb,
}
use native.Mathlib.Nat.{pow-suc}
use native.Mathlib.Numerals.{towards_suc}
use spp_server_frame_work.MemPool.{
  MemPool, allocate, refill, take_block, count_bits, fit_block_size, release_count, c_slot_1,
  wants_more, purge_loop, purge,
}

-- The bits that the loop counts: the first power of two above the size.
abbrev IsWidth : ℕ → ℕ → Type 0
IsWidth size b = (size < 2 ^ b) × (((size ≡ 0) × (b ≡ 0)) ⊎ (2 ^ b ≤ 2 * size))

count_bits-step :
    (rounds size i : ℕ)
    → count_bits (suc rounds) size i
      ≡ (if size == 0 then i else count_bits rounds (size / 2) (i + 1))
unfolding count_bits
count_bits-step rounds size i = refl

IsWidth-half : (size b : ℕ) → size ≢ 0 → IsWidth (size / 2) b → IsWidth size (suc b)
IsWidth-half size b h w = ground (arith, pow-suc 2 b, w.0, w.1)

count_bits_lem :
    (rounds size i : ℕ)
    → size < 2 ^ rounds
    → (b : ℕ) × (count_bits (suc rounds) size i ≡ i + b) × IsWidth size b
count_bits_lem zero size i h =
    (0, ground (arith, count_bits-step 0 size i), (omega arith, inl (omega arith, refl)))
count_bits_lem (suc rounds) size i h = elim (ℕ_discrete size 0) [
  | yes e ↦ (0, ground (arith, count_bits-step (suc rounds) size i), (omega arith, inl (e, refl)))
  | no ne ↦
      (let (b, stops, width) =
          count_bits_lem rounds (size / 2) (i + 1) (omega (arith, pow-suc 2 rounds)) in
        (
          suc b,
          ground (arith, count_bits-step (suc rounds) size i, stops),
          IsWidth-half size b ne width,
        ))
]

pow_add_five : (b : ℕ) → 2 ^ (b + 5) ≡ 32 * 2 ^ b
pow_add_five b = simp towards_suc (omega arith)

pow_add_ten : (b : ℕ) → 2 ^ (10 + b) ≡ 1024 * 2 ^ b
pow_add_ten b =
    let e : 10 + b ≡ (b + 5) + 5 = omega arith in
    rw e (omega (arith, pow_add_five (b + 5), pow_add_five b))

-- A block is larger than what was asked for, by less than as much again, and at least a kilobyte.
pub fit_block_size_bounds :
    (size : ℕ)
    → size < 2 ^ 31
    → (size < fit_block_size size)
      × (1024 ≤ fit_block_size size)
      × ((fit_block_size size ≤ 2 * size) ⊎ (fit_block_size size ≡ 1024))
unfolding fit_block_size
fit_block_size_bounds size h =
    let (b, stops, width) = count_bits_lem 31 (size / 2 ^ 10) 10 (omega arith) in
    rw (stops, le→not_ltb (10 + b) 10 (omega arith), pow_add_ten b)
      (ground (arith, width.0, width.1))

-- No more blocks are given back than are free.
pub release_count-le :
    (water_mark block_size free_count stub_count : ℕ)
    → release_count water_mark block_size free_count stub_count ≤ free_count
unfolding release_count
release_count-le water_mark block_size free_count stub_count = ground arith

-- A round of the loop of `release_size` halves the size that it looks at, and below a megabyte the
-- loop stops: 13 rounds from 2 ^ 31 end by its own test.
purge_loop-step :
    (rounds mem_size last purge_size : ℕ) (p : MemPool)
    → purge_loop (suc rounds) mem_size last purge_size p ≡ (
        if wants_more mem_size last purge_size p
        then purge_loop rounds mem_size last (purge_size / 2) (purge (purge_size / 2) p)
        else (purge_size, p))
unfolding purge_loop
purge_loop-step rounds mem_size last purge_size p = refl

pub purge_loop-ends :
    (rounds mem_size last purge_size : ℕ) (p : MemPool)
    → purge_size < 2 ^ rounds * c_slot_1
    → (let (size', p') = purge_loop rounds mem_size last purge_size p in
        wants_more mem_size last size' p' ≡ false)
purge_loop-ends zero mem_size last purge_size p h = unfold purge_loop wants_more in ground arith
purge_loop-ends (suc rounds) mem_size last purge_size p h =
    rw (purge_loop-step rounds mem_size last purge_size p)
      (elim (Bool-cases (wants_more mem_size last purge_size p)) [
        | inl more ↦ rw more (
            purge_loop-ends rounds mem_size last (purge_size / 2) (purge (purge_size / 2) p)
              (omega (arith, pow-suc 2 rounds)))
        | inr done ↦ rw (done, done) refl
      ])

-- A block that `allocate` hands out has the size that fits.
pub allocate-cases :
    (new_block : List ℕ → ℕ) (size : ℕ) (p : MemPool)
    → ((allocate new_block size p).1 ≡ none)
      ⊎ ((a : ℕ) × ((allocate new_block size p).1 ≡ some (a, fit_block_size size)))
unfolding allocate
allocate-cases new_block size p =
    let (p1, ready) = refill new_block (fit_block_size size) p in
    elim (Bool-cases ready) [
      | inl e ↦ elim (Option-cases ((take_block new_block (fit_block_size size) p1).1)) [
        | inl e' ↦ inl (rw (allocate, e, e') refl)
        | inr (a, e') ↦ inr (a, rw (allocate, e, e') refl)
      ]
      | inr e ↦ inl (rw (allocate, e) refl)
    ]
