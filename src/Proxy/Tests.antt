-- ===== src/Proxy/Tests.antt =====
-- The callbacks of the proxy at concrete inputs.
use spp_server_frame_work.Base.{
  refl, ℕ, ◌≤◌, ◌≡◌, inl, some, none, true, List, [], ◌∷◌, length, leb, if◌then◌else◌, arith,
}
use spp_server_frame_work.Delay.{Timeval}
use spp_server_frame_work.ShmMq.{ShmMq, Blob}
use spp_server_frame_work.ShmMq.Refine.{Queues, IsSendable}
use spp_server_frame_work.TShmCommu.{TShmCommu}
use spp_server_frame_work.Proxy.{length_of, keep_data, Plugin, Run, ator_recvdata}
use spp_server_frame_work.Proxy.Accounts.{Accounts}
use spp_server_frame_work.Proxy.Delivered.{
  Bounded, AllBounded, Answered, offer, stored, ator_recvdata-Delivers,
}

-- Messages of two bytes for the default route.
abbrev plugin : Plugin
plugin = record {
  handle_input = λ round flow bytes. length_of (if leb 2 (length bytes) then 2 else 0);
  handle_route = none;
  handle_queue_full = λ round flow i piece. keep_data;
  local_handle = none;
}

abbrev blob : Blob
blob = record { content = []; extdata = []; ext_type = 0 }

abbrev ring : ShmMq
ring = record {
  head = 0;
  tail = 0;
  block = λ i. 0;
  blocksize = 40;
  msg_timeout = 0;
  shmkey = 0;
  shmid = 0;
  shmsize = 48;
}

abbrev group : TShmCommu
group = record {
  producer = ring;
  comsumer = ring;
  buff = [];
  expiretime = 0;
  lastchecktime = 0;
  expiremap = [];
}

abbrev clock : ℕ → Timeval
clock round = record { tv_sec = 7; tv_usec = 5 }

ring-Queues : Queues ring []
ring-Queues = record {
  small = omega arith;
  head_in = omega arith;
  tail_in = omega arith;
  room = omega arith;
  ends = inl (omega arith);
  bytes = λ k h. absurd (omega arith);
  sendable = tt;
}

-- The ring has room for one of the two messages, and a byte is left over.
abbrev bytes : List ℕ
bytes = 1 ∷ 2 ∷ 3 ∷ 4 ∷ 5 ∷ []

bytes-Fit :
    (round : ℕ) (piece : List ℕ) → length piece ≤ 5 → IsSendable (offer 9 blob (clock round) piece)
bytes-Fit round piece h = record {
  sec_fits = omega arith;
  usec_fits = omega arith;
  total_fits = omega arith;
  flow_fits = omega arith;
  msgtype_fits = omega arith;
  ext_len_fits = omega arith;
}

abbrev bounded : List Bounded
bounded = (40, []) ∷ []

ator_recvdata-Delivers_example :
    (r : Run) × (ator_recvdata plugin (λ cb. true) clock 9 blob 6 (group ∷ []) bytes ≡ some r)
    × Accounts 0 bytes r
    × AllBounded r.ctor (stored 9 blob r.deeds bounded)
    × Answered 9 blob r.deeds bounded
ator_recvdata-Delivers_example =
    ator_recvdata-Delivers plugin (λ cb. true) clock 9 blob 6 (group ∷ []) bounded bytes bytes-Fit
      ((refl, ring-Queues), tt) (omega arith)
