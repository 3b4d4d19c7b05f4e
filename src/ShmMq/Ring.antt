-- ===== src/ShmMq/Ring.antt =====
-- A reference for the ring: bytes laid from an offset on, going round at the end of the block.
use spp_server_frame_work.Base.{
  ℕ, ◌+◌, ◌-◌, ◌≤◌, ◌<◌, ◌≡◌, ◌⊎◌, List, ◌++◌, ltb, leb, if◌then◌else◌, length, get_or,
  get_or-append, length-append, arith, Memory,
}

-- The offset of the byte `k` places after `p`; `p` may be the end of the block itself.
abbrev pub slot : ℕ → ℕ → ℕ → ℕ
slot size p k = if ltb (p + k) size then p + k else p + k - size

-- How far the offset `i` lies behind `p`, going round.
abbrev pub distance : ℕ → ℕ → ℕ → ℕ
distance size p i = if leb p i then i - p else i + size - p

abbrev pub ring_write : Memory → ℕ → ℕ → List ℕ → Memory
ring_write m size p xs i =
    if ltb (distance size p i) (length xs) then get_or xs (distance size p i) 0 else m i

-- The block holds `xs` from `p` on.
abbrev pub Holds : Memory → ℕ → ℕ → List ℕ → Type 0
Holds m size p xs = (k : ℕ) → k < length xs → m (slot size p k) ≡ get_or xs k 0

pub Holds-ring_write :
    (m : Memory) (size p : ℕ) (xs : List ℕ)
    → p ≤ size
    → length xs ≤ size
    → Holds (ring_write m size p xs) size p xs
Holds-ring_write m size p xs hp hl k h = ground arith

-- What is held from `p` on survives a write that starts behind it and does not come round to it.
pub Holds-ring_write_after :
    (m : Memory) (size p : ℕ) (xs ys : List ℕ) (t : ℕ)
    → p ≤ size
    → length xs + length ys ≤ size
    → (p + length xs ≡ t) ⊎ (p + length xs ≡ t + size)
    → t ≤ size
    → Holds m size p xs
    → Holds (ring_write m size t ys) size p xs
Holds-ring_write_after m size p xs ys t hp hl e ht hold k h = ground (arith, hold k)

pub Holds-append :
    (m : Memory) (size p : ℕ) (xs ys : List ℕ) (t : ℕ)
    → p ≤ size
    → length xs + length ys ≤ size
    → (p + length xs ≡ t) ⊎ (p + length xs ≡ t + size)
    → t ≤ size
    → Holds m size p xs
    → Holds m size t ys
    → Holds m size p (xs ++ ys)
Holds-append m size p xs ys t hp hl e ht hx hy k h =
    ground (arith, hx k, hy (k - length xs), get_or-append xs ys k 0, length-append xs ys)

pub Holds-append_left :
    (m : Memory) (size p : ℕ) (xs ys : List ℕ) → Holds m size p (xs ++ ys) → Holds m size p xs
Holds-append_left m size p xs ys hold k h =
    ground (arith, hold k, get_or-append xs ys k 0, length-append xs ys)

pub Holds-append_right :
    (m : Memory) (size p : ℕ) (xs ys : List ℕ) (t : ℕ)
    → p ≤ size
    → length xs + length ys ≤ size
    → (p + length xs ≡ t) ⊎ (p + length xs ≡ t + size)
    → t ≤ size
    → Holds m size p (xs ++ ys)
    → Holds m size t ys
Holds-append_right m size p xs ys t hp hl e ht hold k h =
    ground (arith, hold (length xs + k), get_or-append xs ys (length xs + k) 0, length-append xs ys)

-- Only the block itself counts.
pub Holds-cong :
    (m m' : Memory) (size p : ℕ) (xs : List ℕ)
    → p ≤ size
    → length xs ≤ size
    → ((i : ℕ) → i < size → m' i ≡ m i)
    → Holds m size p xs
    → Holds m' size p xs
Holds-cong m m' size p xs hp hl same hold k h =
    ground (arith, hold k, same (p + k), same (p + k - size))
