-- ===== src/ShmMq/Header.antt =====
-- The header that `enqueue` writes is the one that `dequeue_i` reads (shmcommu.cpp).
use spp_server_frame_work.Base.{ℕ, ◌^◌, ◌<◌, ◌≡◌, refl, length, of_le-le_bytes, arith}
use spp_server_frame_work.Delay.{Timeval}
use spp_server_frame_work.ShmMq.{shead, field}

-- The values that fit the fields of a header.
pub record Fits (now : Timeval) (total flow msgtype ext_len : ℕ) : Type 0 where
  pub sec_fits : now.tv_sec < 2 ^ 64
  pub usec_fits : now.tv_usec < 2 ^ 64
  pub total_fits : total < 2 ^ 32
  pub flow_fits : flow < 2 ^ 32
  pub msgtype_fits : msgtype < 2 ^ 8
  pub ext_len_fits : ext_len < 2 ^ 16

module _ (now : Timeval) (total flow msgtype ext_len : ℕ) where
  pub length-shead : length (shead now total flow msgtype ext_len) ≡ 27
  unfolding shead
  length-shead = refl

  module _ (f : Fits now total flow msgtype ext_len) where
    -- Each field reads back as it was written.
    pub field-shead :
        (field (shead now total flow msgtype ext_len) 0 8 ≡ now.tv_sec)
        × (field (shead now total flow msgtype ext_len) 8 8 ≡ now.tv_usec)
        × (field (shead now total flow msgtype ext_len) 16 4 ≡ total)
        × (field (shead now total flow msgtype ext_len) 20 4 ≡ flow)
        × (field (shead now total flow msgtype ext_len) 24 1 ≡ msgtype)
        × (field (shead now total flow msgtype ext_len) 25 2 ≡ ext_len)
    unfolding shead
    field-shead = (
      of_le-le_bytes 8 now.tv_sec (omega arith),
      of_le-le_bytes 8 now.tv_usec (omega arith),
      of_le-le_bytes 4 total (omega arith),
      of_le-le_bytes 4 flow (omega arith),
      of_le-le_bytes 1 msgtype (omega arith),
      of_le-le_bytes 2 ext_len (omega arith),
    )
