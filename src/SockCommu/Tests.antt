-- ===== src/SockCommu/Tests.antt =====
-- CTSockCommu at concrete inputs.
use spp_server_frame_work.Base.{
  ℕ, zero, suc, ◌%◌, ◌<◌, ◌≡◌, ◌⊎◌, inl, inr, refl, true, List, [], ◌∷◌, none, some, ◌==◌,
  if◌then◌else◌, arith,
}
use spp_server_frame_work.ConnSet.{
  Ipport, ConnCache, ok, is_ok, e_again, e_other, getcc, is_conn, free_cc, addconn, choose_flow,
}
use spp_server_frame_work.ConnSet.Stream.{kept}
use spp_server_frame_work.ConnSet.Expiry.{Fate}
use spp_server_frame_work.PollFlow.{Event, value, minus, ctl, tag, fd, flow, wait}
use spp_server_frame_work.ConnSet.Slots.{Slots}
use spp_server_frame_work.SockCommu.State.{
  ℤ, pos, Callback, cb_recvdata, SockCommu, FuncList, no_data, call, next_flow,
}
use spp_server_frame_work.SockCommu.Accept.{Received, AcceptAnswers, announced, handle_accepted}
use spp_server_frame_work.SockCommu.Receive.{
  Ready, recv_loop, check_expire, is_listening, handle_all, fd_of, flow_of,
}
use spp_server_frame_work.SockCommu.Send.{SendAnswers, sendto}
use spp_server_frame_work.SockCommu.Start.{no_info, unused}
use spp_server_frame_work.SockCommu.Expire.{check_expire-Fate}
use spp_server_frame_work.SockCommu.Stream.{Accounts, recv_loop-Accounts}
use spp_server_frame_work.SockCommu.Admit.{Took, handle_accepted-Took, handle_accepted-leaks}
use spp_server_frame_work.SockCommu.Drain.{IsWritable, handle_all-drains}
use spp_server_frame_work.SockCommu.Waits.{Waits, sendto-Waits}

-- Messages of two bytes; every other callback does nothing.
abbrev func : Callback → ℕ → SockCommu → SockCommu × ℤ
func cb_recvdata flow c = (c, pos 2)
func cb flow c = (c, pos 0)

abbrev funcs : FuncList
funcs = record { registered = λ cb. true; func = func }

abbrev nowhere : Ipport
nowhere = record { ip = 0; port = 0 }

-- Flow 5, on descriptor 30, has three bytes to send, and has been quiet since 100.
abbrev busy : ConnCache
busy = record {
  flow = 5;
  fd = 30;
  access = 100;
  type = 1;
  addr = nowhere;
  r = 9 ∷ [];
  w = 1 ∷ 2 ∷ 3 ∷ [];
}

abbrev slots : ℕ → ConnCache
slots zero = free_cc
slots (suc zero) = busy
slots (suc (suc i)) = free_cc

abbrev commu : SockCommu
commu = record {
  sockbind = λ i. if i == 3 then record unused { type = 1 } else unused;
  maxbindfd = 3;
  expiretime = 60;
  check_expire_interval = 10;
  lastchecktime = 180;
  flow = 6;
  buff_blob = no_data;
  extinfo = no_info;
  connset = record { ccs = slots; maxconn = 4; curconn = 1 };
  interest = λ i. none;
}

slots_in_place : (i : ℕ) → i < 4 → ((slots i).flow ≡ 0) ⊎ ((slots i).flow % 4 ≡ i)
slots_in_place zero l = inl refl
slots_in_place (suc zero) l = inr refl
slots_in_place (suc (suc i)) l = inl refl

commu-Slots : Slots commu.connset
commu-Slots = (omega arith, slots_in_place)

check_expire-Fate_example :
    (let c' = check_expire funcs 200 commu in
      Fate true busy ((c'.connset).ccs 1) × (c'.lastchecktime ≡ 200))
check_expire-Fate_example =
    check_expire-Fate funcs (λ flow c. refl) 200 1 commu commu-Slots (omega arith)
      (λ e. omega arith) (omega arith)

abbrev received : List ℕ → Received
received l = record { now = 190; answer = ok 0; bytes = l; sender = nowhere; peer = none }

-- A byte is in the cache: two messages, one of them of two answers, and the connection is reset.
abbrev answers : List Received
answers =
    received (1 ∷ [])
    ∷ received (2 ∷ 3 ∷ [])
    ∷ record (received []) { answer = e_other }
    ∷ received (4 ∷ [])
    ∷ []

recv_loop-Accounts_example :
    (let (c', gone, unread) = recv_loop funcs 5 30 (received []) answers commu in
      Accounts 5 funcs
        (λ c. inl (refl, refl))
        (λ c. inl (refl, refl))
        (λ c. inl (refl, refl))
        (9 ∷ 1 ∷ 2 ∷ 3 ∷ 4 ∷ [])
        c'
        gone
        unread)
unfolding getcc is_ok
recv_loop-Accounts_example =
    recv_loop-Accounts 5 funcs (λ c. inl (refl, refl)) (λ c. inl (refl, refl))
      (λ c. inl (refl, refl)) 30 (received []) answers commu

abbrev accepts : AcceptAnswers
accepts = record {
  waits = 1;
  accepted = some 31;
  peer = none;
  nonblock = true;
  now = 190;
  added = value 0;
}

abbrev send_answers : SendAnswers
send_answers = record {
  now = 190;
  first = e_again;
  second = e_again;
  modified = value 0;
  peer = none;
}

abbrev ready : Event → Ready
ready e = record {
  event = e;
  accepts = accepts;
  datagram = received [];
  now = 190;
  sent = ok 1;
  modified = value 0;
  received = received (1 ∷ 2 ∷ []) ∷ [];
  dry = received [];
}

handle_accepted-Took_example :
    (let c' = handle_accepted funcs 3 31 accepts commu in
      let c2 = announced 3 31 none (next_flow commu) in
      Took c2 c' 31 7 5
      × ((e : Event) × (c'.interest 31 ≡ some e)
          × (e.events ≡ 2_147_483_649)
          × (flow_of e ≡ 7)
          × (fd_of e ≡ 31)))
unfolding call next_flow announced addconn choose_flow getcc
handle_accepted-Took_example =
    handle_accepted-Took funcs 3 31 7 5 accepts commu (announced 3 31 none (next_flow commu)) refl
      refl refl (λ e. omega arith) 0 refl (omega arith) (omega arith)

abbrev refused : AcceptAnswers
refused = record accepts { added = minus 12 }

handle_accepted-leaks_example :
    (let c' = handle_accepted funcs 3 31 refused commu in
      let c2 = announced 3 31 none (next_flow commu) in Took c2 c' 31 7 5 × (c'.interest 31 ≡ none))
unfolding call next_flow announced addconn choose_flow getcc
handle_accepted-leaks_example =
    handle_accepted-leaks funcs 3 31 7 5 refused commu (announced 3 31 none (next_flow commu)) refl
      refl refl (λ e. omega arith) 12 refl

abbrev writable : Ready
writable = ready ((ctl 30 5 4 (value 0) 0).0)

writable-IsWritable : IsWritable 5 30 writable
unfolding fd flow wait ctl tag
writable-IsWritable = record {
  of_fd = refl;
  of_flow = refl;
  writable = refl;
  not_readable = refl;
  bytes = 0;
  takes = refl;
}

handle_all-drains_example :
    kept (handle_all funcs (writable ∷ writable ∷ writable ∷ []) commu).connset 5 ≡ []
unfolding is_listening is_conn getcc
handle_all-drains_example =
    handle_all-drains funcs 5 30 (writable ∷ writable ∷ writable ∷ []) commu
      (writable-IsWritable, (writable-IsWritable, (writable-IsWritable, tt))) refl refl
      (omega arith)

sendto-Waits_example :
    (let (c', ret) = sendto funcs 5 (4 ∷ []) send_answers commu in Waits 5 0 c' ret)
unfolding getcc
sendto-Waits_example =
    sendto-Waits funcs (λ flow c. refl) 5 0 (4 ∷ []) send_answers refl commu (λ e. omega arith)
      (omega arith)
