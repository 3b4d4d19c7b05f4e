-- ===== src/ConnSet/Tests.antt =====
-- CConnSet at concrete inputs.
use spp_server_frame_work.Base.{
  ℕ, suc, ◌≤◌, ◌≢◌, List, arith, ◌≡◌, refl, [], ◌∷◌, ◌++◌, some, ◌==◌, if◌then◌else◌,
}
use spp_server_frame_work.ConnSet.{
  Ipport, ConnSet, is_error, sent_len, getcc, is_conn, ok, is_error, sent_len, e_again, create,
  recv, sendfromcache, touch, set_w, set_cc, addconn, choose_flow, find_free, send,
}
use spp_server_frame_work.ConnSet.Counts.{
  Call, adds, receives, sends, sends_cached, closes, AllNumbered, run, Sound, run-Sound,
}
use spp_server_frame_work.ConnSet.Stream.{kept, Conserves, send-Conserves}

abbrev nowhere : Ipport
nowhere = record { ip = 0; port = 0 }

-- Two slots; flow 5 is in the second one, with two bytes to send.
abbrev one_conn : ConnSet
one_conn = record {
  ccs = λ i.
      if i == 1
      then record {
        flow = 5;
        fd = 30;
        access = 100;
        type = 1;
        addr = nowhere;
        r = [];
        w = 1 ∷ 2 ∷ [];
      }
      else record { flow = 0; fd = 0; access = 0; type = 0; addr = nowhere; r = []; w = [] };
  maxconn = 2;
  curconn = 1;
}

-- The slot of flow 7 is taken, so the new connection gets flow 8.
added_8 : (addconn one_conn 7 31 1 200).1 ≡ some 8
unfolding addconn choose_flow find_free getcc
added_8 = refl

send-Conserves_example :
    Conserves 5 (kept one_conn 5 ++ (3 ∷ 4 ∷ [])) (send one_conn 5 (3 ∷ 4 ∷ []) 300 (ok 2) (ok 1))
unfolding is_conn getcc
send-Conserves_example = send-Conserves one_conn 5 (3 ∷ 4 ∷ []) 300 (ok 2) (ok 1) refl

-- A connection comes, gets bytes that it keeps, and a second one takes the next slot; the first goes.
abbrev calls : List Call
calls =
    adds 5 30 1 100
    ∷ sends 5 (1 ∷ 2 ∷ []) 110 e_again e_again
    ∷ adds 5 31 1 120
    ∷ receives 6 130 (ok 0) (7 ∷ []) nowhere
    ∷ sends_cached 5 140 (ok 2)
    ∷ closes 5
    ∷ []

numbered_at : (n : ℕ) → some (suc n) ≢ some 0
numbered_at n e = cc

calls_numbered : AllNumbered (create 4) calls
unfolding create addconn choose_flow find_free getcc send recv sendfromcache is_conn set_cc touch
    is_error sent_len set_w
calls_numbered = (numbered_at 4, (tt, (numbered_at 5, (tt, (tt, (tt, tt))))))

run-Sound_example : (let s = run (create 4) calls in Sound s × (s.curconn ≤ s.maxconn))
run-Sound_example = run-Sound 4 calls (omega arith) calls_numbered
