-- ===== src/RawCache/Tests.antt =====
-- CRawCache at concrete inputs.
use spp_server_frame_work.Base.{
  ℕ, suc, ◌≡◌, inl, refl, List, [], ◌∷◌, none, some, ◌==◌, if◌then◌else◌, arith, length, drop,
}
use mathlib.Core.Option.{none-ne-some}
use mathlib.Core.Path.{sym}
use spp_server_frame_work.MemPool.{c_max_water_mark}
use spp_server_frame_work.RawCache.{World, RawCache, append, skip, cached_data}
use spp_server_frame_work.RawCache.Bytes.{Holds}
use spp_server_frame_work.RawCache.Append.{Appended, append-Holds}
use spp_server_frame_work.RawCache.Skip.{skip-Holds}

-- A pool with one block of 1024 bytes lent out, and a cache in it with three bytes.
abbrev one_block : World
one_block = record {
  pool = record {
    free = (1024, []) ∷ [];
    stub = (1024, 7 ∷ []) ∷ [];
    allocated_size = 1024;
    water_mark = c_max_water_mark;
    heap = 7 ∷ [];
  };
  bytes = λ b i. if i == 1000 then 65 else if i == 1001 then 66 else 67;
}

abbrev three_bytes : RawCache
three_bytes = record { mem = some 7; block_size = 1024; data_head = 1000; data_len = 3 }

abbrev abc : List ℕ
abc = 65 ∷ 66 ∷ 67 ∷ []

three_bytes-Holds : Holds one_block three_bytes abc
three_bytes-Holds = record {
  len_is = refl;
  room = omega arith;
  small = omega arith;
  unused = inl (λ e. none-ne-some 7 (sym e));
  at = λ k h. ground arith;
}

abbrev count_blocks : List ℕ → ℕ
count_blocks = λ h. suc (length h)

append-Holds_example :
    Appended count_blocks one_block abc
      (1 ∷ 2 ∷ [])
      (append count_blocks (1 ∷ 2 ∷ []) one_block three_bytes)
append-Holds_example =
    append-Holds count_blocks one_block three_bytes abc (1 ∷ 2 ∷ []) three_bytes-Holds (omega arith)

skip-Holds_example :
    (let (w', c') = skip 2 one_block three_bytes in Holds w' c' (drop 2 abc))
    × (cached_data one_block three_bytes ≡ (if length abc == 0 then none else some abc))
skip-Holds_example = skip-Holds one_block three_bytes abc 2 three_bytes-Holds
