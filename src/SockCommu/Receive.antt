-- ===== src/SockCommu/Receive.antt =====
-- What CTSockCommu does when descriptors are ready (poll, check_expire in sockcommu.cpp).
use spp_server_frame_work.Base.{
  ℕ, zero, suc, ◌+◌, ◌-◌, Bool, true, false, not, ◌&&◌, ◌||◌, List, [], ◌∷◌, ◌++◌, ltb, leb, ◌==◌,
  if◌then◌else◌, length, take, drop, bit_and, some,
}
use spp_server_frame_work.ConnSet.{
  ConnCache, ConnSet, Result, done, need_close, e_again, getcc, set_cc, udp_socket, sendfromcache,
}
use spp_server_frame_work.ConnSet
use spp_server_frame_work.PollFlow
use spp_server_frame_work.PollFlow.{Event, value, wait}
use spp_server_frame_work.SockCommu.State.{
  ℤ, pos, negsuc, bytes, conn_ext, ext_type_connextinfo, cb_disconnect, cb_recvdata, cb_recvdone,
  cb_senderror, cb_timeout, epollin, epollout, epollet, SockCommu, FuncList, no_data, call,
  call_empty, closeconn, epoll_ctl, conn_info,
}
use spp_server_frame_work.SockCommu.Accept.{
  Received, AcceptAnswers, handle_accept, handle_accept_udp,
}

-- `buff_blob_` with the bytes of a cache and the connection's `extinfo_`.
abbrev pub cache_blob : List ℕ → SockCommu → SockCommu
cache_blob l c = record c {
  buff_blob = record {
    len = length l;
    content = bytes l;
    ext_type = ext_type_connextinfo;
    extdata = conn_ext c.extinfo;
  };
}

-- `cc->_r.skip(n)` on the slot of a flow.
unfoldable pub skip : ℕ → ℕ → SockCommu → SockCommu
skip flow n c =
    let cc = getcc c.connset flow in
    record c { connset = set_cc c.connset flow (record cc { r = drop n cc.r }) }

-- What the body of the loop of `recv` leaves: the state, whether the loop goes on, and the bytes that
-- have been skipped.
abbrev pub Round : Type 0
Round = SockCommu × Bool × List ℕ

-- After CB_RECVDATA.
unfoldable pub judged : FuncList → ℕ → SockCommu → ℤ → Round
judged funcs flow c (pos zero) = (c, true, [])
judged funcs flow c (pos (suc n)) =
    let done_blob = record c.buff_blob { len = suc n } in
    let c1 = record c { buff_blob = done_blob } in
    let c2 = (call funcs cb_recvdone flow c1 c1).0 in
    (skip flow (suc n) c2, true, take (suc n) (getcc c2.connset flow).r)
judged funcs flow c (negsuc n) = (closeconn flow c, false, [])

-- `recv` has received something.
unfoldable pub recv_data : FuncList → ℕ → ℕ → Received → SockCommu → Round
recv_data funcs flow fd x c =
    let cc = getcc c.connset flow in
    let c1 = cache_blob cc.r (conn_info fd cc.type x.peer c) in
    let (c2, ret) = funcs.func cb_recvdata flow c1 in judged funcs flow c2 ret

-- The cases of what `recv` returns.
unfoldable pub answered : FuncList → ℕ → ℕ → Received → SockCommu → Result → Round
answered funcs flow fd x c (done n) = recv_data funcs flow fd x c
answered funcs flow fd x c need_close =
    (closeconn flow (call_empty funcs cb_disconnect flow c), false, [])
answered funcs flow fd x c ret = (c, false, [])

unfoldable pub recv_round : FuncList → ℕ → ℕ → Received → SockCommu → Round
recv_round funcs flow fd x c =
    let (s, ret) = ConnSet.recv c.connset flow x.now x.answer x.bytes x.sender in
    answered funcs flow fd x (record c { connset = s }) ret

-- The loop, on what the socket answers, after which it has nothing more; with the bytes skipped and
-- the answers that were not asked for.
unfoldable pub recv_loop :
    FuncList → ℕ → ℕ → Received → List Received → SockCommu → SockCommu × List ℕ × List Received
recv_loop funcs flow fd dry [] c =
    let (c1, goes_on, gone) = recv_round funcs flow fd (record dry { answer = e_again }) c in
    (c1, gone, [])
recv_loop funcs flow fd dry (x ∷ xs) c =
    let (c1, goes_on, gone) = recv_round funcs flow fd x c in
    let (c2, gone', unread) = recv_loop funcs flow fd dry xs c1 in
    if goes_on then (c2, gone ++ gone', unread) else (c1, gone, xs)

-- An event, with what the sockets and the kernel answer while it is handled.
pub record Ready : Type 0 where
  pub event : Event
  pub accepts : AcceptAnswers
  pub datagram : Received
  pub now : ℕ
  pub sent : ConnSet.Answer
  pub modified : PollFlow.Answer
  pub received : List Received
  pub dry : Received

abbrev pub fd_of : Event → ℕ
fd_of e = PollFlow.fd (wait (some (e ∷ [])) (value 1) 0) 0

abbrev pub flow_of : Event → ℕ
flow_of e = PollFlow.flow (wait (some (e ∷ [])) (value 1) 0) 0

abbrev pub has : Event → ℕ → Bool
has e flag = not (bit_and e.events flag == 0)

-- EPOLLOUT.
unfoldable pub send_failed : FuncList → ℕ → ℕ → Ready → SockCommu → SockCommu
send_failed funcs flow fd e c =
    let cc = getcc c.connset flow in
    let c1 = cache_blob cc.w (conn_info fd cc.type e.dry.peer c) in
    closeconn flow (call funcs cb_senderror flow c1 c).0

unfoldable pub cached_answered : FuncList → ℕ → ℕ → Ready → SockCommu → Result → SockCommu
cached_answered funcs flow fd e c (done zero) = epoll_ctl fd flow (epollin + epollet) e.modified c
cached_answered funcs flow fd e c need_close = send_failed funcs flow fd e c
cached_answered funcs flow fd e c ret = c

unfoldable pub send_cached : FuncList → ℕ → ℕ → Ready → SockCommu → SockCommu
send_cached funcs flow fd e c =
    let (s, ret, gone) = sendfromcache c.connset flow e.now e.sent in
    cached_answered funcs flow fd e (record c { connset = s }) ret

-- `fd <= maxbindfd_ && sockbind_[fd].type_ != 0`; a descriptor is not negative.
unfoldable pub is_listening : SockCommu → ℕ → Bool
is_listening c fd = leb fd c.maxbindfd && not ((c.sockbind fd).type == 0)

-- The body of the loop of `poll`.
unfoldable pub handle : FuncList → SockCommu → Ready → SockCommu
handle funcs c e =
    let fd = fd_of e.event in
    let flow = flow_of e.event in
    let c1 = if has e.event epollout then send_cached funcs flow fd e c else c in
    let (c2, gone, unread) = recv_loop funcs flow fd e.dry e.received c1 in
    if is_listening c fd
    then (if has e.event epollin
        then (if (c.sockbind fd).type == udp_socket
            then handle_accept_udp funcs fd e.now e.datagram c
            else handle_accept funcs fd e.accepts c)
        else c)
    else if not (has e.event epollin || has e.event epollout)
    then call_empty funcs cb_disconnect flow (closeconn flow c)
    else if has e.event epollin
    then c2
    else c1

-- The loop over the flows that have waited too long, with CB_TIMEOUT or without. The blob is prepared once,
-- before the loop.
unfoldable pub close_expired : FuncList → List ℕ → SockCommu → SockCommu
close_expired funcs [] c = c
close_expired funcs (flow ∷ flows) c =
    let c1 = closeconn flow c in close_expired funcs flows (call funcs cb_timeout flow c1 c1).0

-- `now - expiretime_` with a clock that is past `expiretime_`.
unfoldable pub check_expire : FuncList → ℕ → SockCommu → SockCommu
check_expire funcs now c =
    let flows = ConnSet.check_expire c.connset (now - c.expiretime) in
    let prepared = if funcs.registered cb_timeout then record c { buff_blob = no_data } else c in
    if c.check_expire_interval == 0
    then c
    else if ltb (c.lastchecktime + c.check_expire_interval) now
    then record (close_expired funcs flows prepared) { lastchecktime = now }
    else c

unfoldable pub handle_all : FuncList → List Ready → SockCommu → SockCommu
handle_all funcs [] c = c
handle_all funcs (e ∷ es) c = handle_all funcs es (handle funcs c e)

-- `poll` on the events of epoll_wait.
unfoldable pub poll : FuncList → List Ready → ℕ → SockCommu → SockCommu × ℤ
poll funcs [] now c = (check_expire funcs now c, negsuc 0)
poll funcs (e ∷ es) now c = (check_expire funcs now (handle_all funcs (e ∷ es) c), pos 0)
