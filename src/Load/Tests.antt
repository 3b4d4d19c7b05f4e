-- ===== src/Load/Tests.antt =====
-- CLoad at concrete inputs.
use spp_server_frame_work.Base.{ℕ, ◌+◌, ◌/◌, ◌≡◌, List, [], ◌∷◌, arith}
use spp_server_frame_work.Delay.{Timeval}
use spp_server_frame_work.Load.{create, peek_load}
use spp_server_frame_work.Load.Rate.{counted, grow_all, total, peek_load-grow_all}

abbrev calls : List (ℕ × Timeval)
calls = (7, record { tv_sec = 1; tv_usec = 5 }) ∷ (8, record { tv_sec = 2; tv_usec = 700_000 }) ∷ []

peek_load-grow_all_example :
    (let (s', load) = peek_load (record { tv_sec = 9; tv_usec = 0 }) (grow_all calls (create 10)) in
      (load ≡ (counted (create 10) + total calls) / 5)
      × (counted s' ≡ 0)
      × ((peek_load (record { tv_sec = 13; tv_usec = 4 }) (grow_all calls s')).1 ≡ load))
unfolding create counted total
peek_load-grow_all_example =
    peek_load-grow_all calls calls (record { tv_sec = 9; tv_usec = 0 })
      (record { tv_sec = 13; tv_usec = 4 }) (create 10) (omega arith, (omega arith, tt))
      (omega arith) (omega arith) (omega arith) (omega arith) (omega arith)
