-- ===== src/ShmArray.antt =====
-- CShmArray and CShmRWArray of libcomm/include/shm_array.h: an array of flagged items in shared
-- memory. Each operation runs under a lock: the semaphore, or the read-write lock of the index.
pub mod Laws
use spp_server_frame_work.Base.{
  ℕ, ◌+◌, ◌-◌, ◌/◌, ◌%◌, ◌^◌, Bool, true, false, Option, none, some, ◌==◌, leb, if◌then◌else◌,
}

-- `data_item_t`
pub record Item {ℓ} (A : Type ℓ) : Type ℓ where
  pub flag : ℕ
  pub value : A

-- `ShmHead`
pub record ShmArray {ℓ} (A : Type ℓ) : Type ℓ where
  pub array_size : ℕ
  pub nodes : ℕ → Item A

-- 0, -1 and -2.
pub data Status : Type 0 where
  ok overflow not_init : Status

module _ {ℓ} {A : Type ℓ} where
  -- `Init` on a new segment, in `size_t` arithmetic; `sizeof(ShmHead)` counts one item.
  unfoldable pub init : ℕ → ℕ → ℕ → (ℕ → Item A) → ShmArray A
  init shm_size head_bytes item_bytes nodes = record {
    array_size = ((shm_size + 2 ^ 64 - head_bytes) % 2 ^ 64 / item_bytes + 1) % 2 ^ 64;
    nodes = nodes;
  }

  unfoldable pub set_value : ShmArray A → ℕ → A → ShmArray A × Status
  set_value a idx v = if leb a.array_size idx then (a, overflow) else (
    record a { nodes = λ i. if i == idx then record { flag = 1; value = v } else a.nodes i },
    ok,
  )

  -- The option is what goes through the out parameter.
  unfoldable pub get_value : ShmArray A → ℕ → Status × Option A
  get_value a idx =
      if leb a.array_size idx
      then (overflow, none)
      else if (a.nodes idx).flag == 1
      then (ok, some (a.nodes idx).value)
      else (not_init, none)

  unfoldable pub delete : ShmArray A → ℕ → ShmArray A × Status
  delete a idx = if leb a.array_size idx then (a, overflow) else (
    record a {
      nodes = λ i. if i == idx then record { flag = 0; value = (a.nodes i).value } else a.nodes i;
    },
    ok,
  )

-- The lock that CShmRWArray takes for an index.
unfoldable pub rwl_index : ℕ → ℕ → ℕ
rwl_index idx rwlock_num = idx % rwlock_num
