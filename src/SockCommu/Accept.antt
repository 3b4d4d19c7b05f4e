-- ===== src/SockCommu/Accept.antt =====
-- New connections of CTSockCommu (sockcommu.cpp): handle_accept, handle_accept_udp and connect.
use spp_server_frame_work.Base.{
  ℕ, zero, suc, ◌+◌, Bool, true, false, not, List, Option, none, some, ◌==◌, if◌then◌else◌, length,
}
use spp_server_frame_work.ConnSet.{Ipport, Result, done, getcc, udp_socket}
use spp_server_frame_work.ConnSet
use spp_server_frame_work.PollFlow.{Answer, value, minus}
use spp_server_frame_work.SockCommu.State.{
  is_zero, ℤ, pos, negsuc, sock_type_tcp, sock_type_udp, NodeInfo, ConnExtInfo, bytes, conn_ext,
  node_ext, ext_type_none, ext_type_connected, ext_type_connextinfo, ext_type_connnodeinfo,
  cb_connect, cb_connected, cb_recvdata, epollin, epollet, SockCommu, FuncList, call, call_overload,
  no_data, close_fd, closeconn, epoll_ctl, next_flow, get_peer_name, addconn,
}

-- The loop of `accept`: the kernel answers EINTR or EAGAIN some times, and then with a descriptor or an
-- error.
unfoldable pub accept_loop : ℕ → Option ℕ → Option ℕ
accept_loop zero accepted = accepted
accept_loop (suc waits) accepted = accept_loop waits accepted

-- What the calls of `handle_accept` answer: the peer of the new descriptor unless that fails, whether
-- it can be made non-blocking, and what epoll_ctl says.
pub record AcceptAnswers : Type 0 where
  pub waits : ℕ
  pub accepted : Option ℕ
  pub peer : Option Ipport
  pub nonblock : Bool
  pub now : ℕ
  pub added : Answer

-- The blob for CB_CONNECTED.
unfoldable pub announced : ℕ → ℕ → Option Ipport → SockCommu → SockCommu
announced fd clifd peer c =
    let b = c.sockbind fd in
    let info = get_peer_name peer (record c.extinfo {
      fd = clifd;
      type = b.type;
      localip = (b.ipport).ip;
      localport = (b.ipport).port;
    }) in
    if b.type == sock_type_tcp
    then record c {
      extinfo = info;
      buff_blob = record no_data { ext_type = ext_type_connextinfo; extdata = conn_ext info };
    }
    else record c { buff_blob = no_data }

-- `ix_->epollflow_->add`; where it fails the descriptor is closed.
unfoldable pub watch : ℕ → Answer → SockCommu → SockCommu
watch clifd (value n) c = epoll_ctl clifd c.flow (epollin + epollet) (value n) c
watch clifd (minus n) c = close_fd clifd c

-- The descriptor goes into the connection set, and then into the kernel's.
unfoldable pub admit : FuncList → ℕ → ℕ → AcceptAnswers → SockCommu → SockCommu
admit funcs fd clifd a c =
    let (c', added) = addconn clifd (c.sockbind fd).type a.now c in
    if added then watch clifd a.added c' else call_overload funcs (close_fd clifd c')

unfoldable pub handle_accepted : FuncList → ℕ → ℕ → AcceptAnswers → SockCommu → SockCommu
handle_accepted funcs fd clifd a c =
    let c1 = next_flow c in
    let (c2, ret) = call funcs cb_connected c1.flow (announced fd clifd a.peer c1) c1 in
    if not (is_zero ret)
    then close_fd clifd c2
    else if not a.nonblock
    then close_fd clifd c2
    else admit funcs fd clifd a c2

-- What follows the loop.
unfoldable pub after_accept : FuncList → ℕ → AcceptAnswers → SockCommu → Option ℕ → SockCommu
after_accept funcs fd a c none = c
after_accept funcs fd a c (some clifd) = handle_accepted funcs fd clifd a c

unfoldable pub handle_accept : FuncList → ℕ → AcceptAnswers → SockCommu → SockCommu
handle_accept funcs fd a c = after_accept funcs fd a c (accept_loop a.waits a.accepted)

-- What the socket of a flow answers to one `recv`, and the peer of its descriptor.
pub record Received : Type 0 where
  pub now : ℕ
  pub answer : ConnSet.Answer
  pub bytes : List ℕ
  pub sender : Ipport
  pub peer : Option Ipport

-- A datagram that has been received: the blob for CB_CONNECTED, whose type is EXT_TYPE_NONE though it
-- has the data.
unfoldable pub datagram : ℕ → SockCommu → SockCommu
datagram fd c =
    let cc = getcc c.connset c.flow in
    let b = c.sockbind fd in
    let info : ConnExtInfo = record {
      fd = fd;
      type = sock_type_udp;
      localip = (b.ipport).ip;
      localport = (b.ipport).port;
      remoteip = (cc.addr).ip;
      remoteport = (cc.addr).port;
    } in
    record c {
      extinfo = info;
      buff_blob = record {
        len = length cc.r;
        content = bytes cc.r;
        ext_type = ext_type_none;
        extdata = conn_ext info;
      };
    }

-- CB_RECVDATA for a datagram; the function is not tested for NULL.
unfoldable pub hand_over : FuncList → SockCommu → SockCommu
hand_over funcs c =
    (funcs.func cb_recvdata c.flow (record c {
      buff_blob = record c.buff_blob {
        ext_type = ext_type_connextinfo;
        extdata = conn_ext c.extinfo;
      };
    })).0

unfoldable pub udp_received : FuncList → ℕ → SockCommu → SockCommu
udp_received funcs fd c =
    let c1 = datagram fd c in
    let (c2, ret) = call funcs cb_connected c1.flow c1 c1 in
    if is_zero ret then hand_over funcs c2 else closeconn c2.flow c2

unfoldable pub udp_answered : FuncList → ℕ → SockCommu → Result → SockCommu
udp_answered funcs fd c (done n) = udp_received funcs fd c
udp_answered funcs fd c ret = closeconn c.flow c

unfoldable pub handle_accept_udp : FuncList → ℕ → ℕ → Received → SockCommu → SockCommu
handle_accept_udp funcs fd now x c =
    let (c1, added) = addconn fd udp_socket now (next_flow c) in
    let (s, ret) = ConnSet.recv c1.connset c1.flow x.now x.answer x.bytes x.sender in
    let c2 = record c1 { connset = s } in
    let received = udp_answered funcs fd c2 ret in
    if added then received else call_overload funcs c1

abbrev pub is_value : Answer → Bool
is_value (value n) = true
is_value (minus n) = false

-- What `connect` is answered: the new socket, which an `assert` wants, and what epoll_ctl says. What
-- connect(2) answers is not looked at.
pub record ConnectAnswers : Type 0 where
  pub created : ℕ
  pub now : ℕ
  pub added : Answer

-- The two callbacks of `connect`.
unfoldable pub connecting : FuncList → NodeInfo → SockCommu → SockCommu × ℤ
connecting funcs node c =
    let b = record no_data { ext_type = ext_type_connnodeinfo; extdata = node_ext node } in
    call funcs cb_connect c.flow (record c { buff_blob = b }) c

unfoldable pub connected : FuncList → SockCommu → SockCommu × ℤ
connected funcs c =
    let b = record no_data { ext_type = ext_type_connected; extdata = conn_ext c.extinfo } in
    call funcs cb_connected c.flow (record c { buff_blob = b }) c

unfoldable pub connect : FuncList → NodeInfo → ConnectAnswers → SockCommu → SockCommu × ℤ
connect funcs node a c =
    let fd = a.created in
    let (c1, added) = addconn fd (node.bind).type a.now (next_flow c) in
    let c2 = epoll_ctl fd c1.flow (epollin + epollet) a.added c1 in
    let (c3, ret) = connecting funcs node c2 in
    let (c4, ret') = connected funcs c3 in
    let is_in = is_value a.added in
    if (node.bind).type == 0
    then (c, negsuc 0)
    else if not added
    then (call_overload funcs (close_fd fd c1), negsuc 0)
    else if not is_in
    then (close_fd fd c1, negsuc 1)
    else if not (is_zero ret)
    then (close_fd fd c3, negsuc 2)
    else if not (is_zero ret')
    then (close_fd fd c4, negsuc 2)
    else (c4, pos 0)
