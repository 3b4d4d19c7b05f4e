-- ===== src/TShmCommu/Tests.antt =====
-- CTShmCommu at concrete inputs.
use spp_server_frame_work.Base.{◌≡◌, refl, inl, Bool, true, List, [], ◌∷◌, some, arith, sub32}
use spp_server_frame_work.Delay.{Timeval}
use spp_server_frame_work.ShmMq.{ShmMq, Blob, success, got, is_stale}
use spp_server_frame_work.ShmMq.Refine.{Queues, message}
use spp_server_frame_work.TShmCommu.{
  Callback, cb_recvdata, Event, called, TShmCommu, poll, sendto, attached, check_expire,
}
use spp_server_frame_work.TShmCommu.Expire.{
  find, keep_fresh, timeouts, find-check_expire, check_expire-again,
}
use spp_server_frame_work.TShmCommu.Traffic.{poll-sendto}

abbrev empty_ring : ShmMq
empty_ring = record {
  head = 0;
  tail = 0;
  block = λ i. 7;
  blocksize = 60;
  msg_timeout = 0;
  shmkey = 1;
  shmid = 1;
  shmsize = 68;
}

empty_ring-Queues : Queues empty_ring []
empty_ring-Queues = record {
  small = omega arith;
  head_in = omega arith;
  tail_in = omega arith;
  room = omega arith;
  ends = inl (omega arith);
  bytes = λ k h. absurd (omega arith);
  sendable = tt;
}

abbrev all_registered : Callback → Bool
all_registered = λ cb. true

abbrev server : TShmCommu
server = record {
  producer = empty_ring;
  comsumer = empty_ring;
  buff = [];
  expiretime = 10;
  lastchecktime = 1000;
  expiremap = (4, 1020) ∷ (6, 1090) ∷ [];
}

abbrev late_server : TShmCommu
late_server = record server { expiremap = (4, 1020) ∷ (6, 1030) ∷ [] }

abbrev noon : Timeval
noon = record { tv_sec = 1_000; tv_usec = 5 }

abbrev hello : Blob
hello = record { content = 1 ∷ 2 ∷ 3 ∷ []; extdata = []; ext_type = 0 }

find-check_expire_example :
    find 4 ((check_expire all_registered 1100 server).0.expiremap)
    ≡ keep_fresh (sub32 1100 10) (find 4 server.expiremap)
unfolding find
find-check_expire_example =
    find-check_expire all_registered 1100 server 4 6 1090 (omega arith)
      (omega arith, (omega arith, tt)) refl (omega arith)

check_expire-again_example :
    (let (c1, first) = check_expire all_registered 1100 late_server in
      let (c2, second) = check_expire all_registered 1200 c1 in
      (first ≡ timeouts all_registered [] late_server.expiremap)
      × (second ≡ first)
      × (c2.expiremap ≡ late_server.expiremap))
check_expire-again_example =
    check_expire-again all_registered 1100 1200 late_server (omega arith) (omega arith)
      (omega arith) (omega arith) (omega arith, (omega arith, tt))

poll-sendto_example :
    (let (ret, a', sent) = sendto all_registered noon 9 hello server in
      let b1 = record server { comsumer = attached a'.producer empty_ring } in
      (ret ≡ success)
      × ((b' : TShmCommu) × (later : List Event) × (poll all_registered 2 (λ n. noon) 1000 b1
            ≡ some (got (message hello 9 0 noon), b', called cb_recvdata 9 hello.content ∷ later))))
unfolding is_stale
poll-sendto_example =
    poll-sendto all_registered noon 9 hello server server (λ n. noon) 1000 empty_ring-Queues
      (omega arith) (omega arith, omega arith) (omega arith) (inl refl) refl
