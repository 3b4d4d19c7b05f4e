-- ===== src/ShmQueue.antt =====
-- CShmQueue of libcomm/include/shm_queue.h: a bounded queue in shared memory. Every operation holds
-- the semaphore lock from its first line to its last, so it is one step.
pub mod Fifo
mod Tests
use spp_server_frame_work.Base.{
  ℕ, ◌+◌, ◌-◌, ◌/◌, ◌%◌, ◌^◌, Bool, Option, none, some, ◌==◌, if◌then◌else◌, u32,
}

-- `ShmHead`: the fields are `unsigned int`.
pub record ShmQueue {ℓ} (A : Type ℓ) : Type ℓ where
  pub front : ℕ
  pub rear : ℕ
  pub size : ℕ
  pub nodes : ℕ → A

-- The number of nodes for a segment of `shm_size` bytes, in `size_t` arithmetic cut to `unsigned`;
-- `sizeof(ShmHead)` counts one node.
unfoldable pub node_count : ℕ → ℕ → ℕ → ℕ
node_count shm_size head_bytes node_bytes =
    u32 (((shm_size + 2 ^ 64 - head_bytes) % 2 ^ 64) / node_bytes + 1)

module _ {ℓ} {A : Type ℓ} where
  -- `Init` on a new segment; one that exists is taken as it is.
  unfoldable pub init : ℕ → ℕ → ℕ → (ℕ → A) → ShmQueue A
  init shm_size head_bytes node_bytes nodes = record {
    front = 0;
    rear = 0;
    size = node_count shm_size head_bytes node_bytes;
    nodes = nodes;
  }

  unfoldable pub is_full : ShmQueue A → Bool
  is_full q = q.front == u32 (q.rear + 1) % q.size

  unfoldable pub is_empty : ShmQueue A → Bool
  is_empty q = q.front == q.rear

  -- `Size`
  unfoldable pub count : ShmQueue A → ℕ
  count q = u32 (u32 (q.rear + q.size) + 2 ^ 32 - q.front) % q.size

  -- `none` is the return value -1.
  unfoldable pub push : ShmQueue A → A → Option (ShmQueue A)
  unfolding is_full
  push q v =
      if is_full q
      then none
      else some (record q {
        nodes = λ i. if i == q.rear then v else q.nodes i;
        rear = u32 (q.rear + 1) % q.size;
      })

  unfoldable pub pop : ShmQueue A → Option (A × ShmQueue A)
  unfolding is_empty
  pop q =
      if is_empty q
      then none
      else some (q.nodes q.front, record q { front = u32 (q.front + 1) % q.size })

  unfoldable pub clean : ShmQueue A → ShmQueue A
  clean q = record q { front = 0; rear = 0 }
