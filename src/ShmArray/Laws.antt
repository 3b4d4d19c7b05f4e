-- ===== src/ShmArray/Laws.antt =====
-- CShmArray (shm_array.h) as a partial map from the indices below its size.
use spp_server_frame_work.Base.{ℕ, ◌≡◌, none, some, leb, ◌==◌, if◌then◌else◌, arith}
use spp_server_frame_work.ShmArray.{ShmArray, ok, not_init, set_value, get_value, delete}

module _ {ℓ} {A : Type ℓ} where
  -- What a reader finds at an index after a write: the new value there, the old ones elsewhere, and
  -- nothing new at all if the index is out of range.
  pub get_value-set_value :
      (a : ShmArray A) (i j : ℕ) (v : A)
      → get_value (set_value a i v).0 j ≡ (
          if leb a.array_size i
          then get_value a j
          else if j == i
          then (ok, some v)
          else get_value a j)
  unfolding get_value set_value
  get_value-set_value a i j v = ground arith

  -- A deleted index is not initialised, and no other index changes.
  pub get_value-delete :
      (a : ShmArray A) (i j : ℕ)
      → get_value (delete a i).0 j ≡ (
          if leb a.array_size i
          then get_value a j
          else if j == i
          then (not_init, none)
          else get_value a j)
  unfolding get_value delete
  get_value-delete a i j = ground arith
