-- ===== src/Base/Copies.antt =====
-- A block of shared memory as a function from offsets to bytes, and the copies into and out of it.
-- Offsets past the block are modelled too, so that a copy which leaves the block would be seen.
use Prim.Native.Nat.{ℕ, zero, suc, ◌+◌, ◌-◌, ◌<◌}
use mathlib.Core.Path.{◌≡◌, refl, ap}
use mathlib.Core.Bool.{◌&&◌}
use mathlib.Core.List.{List, [], ◌∷◌}
use native.Mathlib.Omega.{arith}
use spp_server_frame_work.Base.Tests.{ltb, leb, if◌then◌else◌}
use spp_server_frame_work.Base.Lists.{length, get_or}

abbrev pub Memory : Type 0
Memory = ℕ → ℕ

-- `memcpy(block + dst, src + off, n)`; a byte past the source reads as 0.
abbrev pub copy_in : Memory → ℕ → List ℕ → ℕ → ℕ → Memory
copy_in m dst src off n i =
    if leb dst i && ltb i (dst + n) then get_or src (off + (i - dst)) 0 else m i

-- `memcpy(buf, block + src, n)`
unfoldable pub copy_out : Memory → ℕ → ℕ → List ℕ
copy_out m src zero = []
copy_out m src (suc n) = m src ∷ copy_out m (src + 1) n

pub length-copy_out : (m : Memory) (src n : ℕ) → length (copy_out m src n) ≡ n
unfolding copy_out
length-copy_out m src zero = refl
length-copy_out m src (suc n) = ap suc (length-copy_out m (src + 1) n)

pub get_or-copy_out :
    (m : Memory) (src n k : ℕ) → k < n → get_or (copy_out m src n) k 0 ≡ m (src + k)
unfolding copy_out
get_or-copy_out m src zero k h = absurd (omega arith)
get_or-copy_out m src (suc n) zero h = ap m (omega arith)
get_or-copy_out m src (suc n) (suc k) h =
    let e : src + suc k ≡ (src + 1) + k = omega arith in
    rw e (get_or-copy_out m (src + 1) n k (omega arith))
