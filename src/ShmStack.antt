-- ===== src/ShmStack.antt =====
-- CShmStack of libcomm/include/shm_stack.h: a bounded stack in shared memory. Every operation holds
-- the semaphore lock from its first line to its last, so it is one step.
pub mod Lifo
mod Tests
use spp_server_frame_work.Base.{
  ℕ, ◌+◌, ◌-◌, ◌/◌, ◌%◌, ◌^◌, Bool, Option, none, some, ◌==◌, leb, if◌then◌else◌,
}

-- `ShmHead`: m_TotalItemNum, m_CurItemNum and m_Nodes.
pub record ShmStack {ℓ} (A : Type ℓ) : Type ℓ where
  pub total_item_num : ℕ
  pub cur_item_num : ℕ
  pub nodes : ℕ → A

module _ {ℓ} {A : Type ℓ} where
  -- `Init` on a new segment, in `size_t` arithmetic; `sizeof(ShmHead)` counts one node.
  unfoldable pub init : ℕ → ℕ → ℕ → (ℕ → A) → ShmStack A
  init shm_size head_bytes node_bytes nodes = record {
    total_item_num = ((shm_size + 2 ^ 64 - head_bytes) % 2 ^ 64 / node_bytes + 1) % 2 ^ 64;
    cur_item_num = 0;
    nodes = nodes;
  }

  unfoldable pub size : ShmStack A → ℕ
  size s = s.cur_item_num

  unfoldable pub is_empty : ShmStack A → Bool
  unfolding size
  is_empty s = size s == 0

  -- `none` is the return value -1.
  unfoldable pub push : ShmStack A → A → Option (ShmStack A)
  push s v =
      if leb s.total_item_num s.cur_item_num
      then none
      else some (record s {
        nodes = λ i. if i == s.cur_item_num then v else s.nodes i;
        cur_item_num = (s.cur_item_num + 1) % 2 ^ 64;
      })

  unfoldable pub pop : ShmStack A → Option (A × ShmStack A)
  pop s =
      if s.cur_item_num == 0
      then none
      else some (s.nodes (s.cur_item_num - 1), record s { cur_item_num = s.cur_item_num - 1 })
