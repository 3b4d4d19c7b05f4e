-- ===== src/SockCommu/Send.antt =====
-- `sendto` and `ctrl` of CTSockCommu (sockcommu.cpp).
use spp_server_frame_work.Base.{
  ℕ, ◌+◌, not, ◌&&◌, List, Option, ltb, ◌==◌, if◌then◌else◌, length, le_bytes,
}
use spp_server_frame_work.ConnSet.{Ipport, Result, done, need_close, getcc, udp_socket}
use spp_server_frame_work.ConnSet
use spp_server_frame_work.PollFlow
use spp_server_frame_work.SockCommu.State.{
  ℤ, pos, negsuc, bytes, ConnExtInfo, conn_ext, ext_type_connextinfo, Blob, cb_senddone, epollin,
  epollout, epollet, SockCommu, FuncList, call, closeconn, epoll_ctl, conn_info,
}

-- What the socket and the kernel answer.
pub record SendAnswers : Type 0 where
  pub now : ℕ
  pub first : ConnSet.Answer
  pub second : ConnSet.Answer
  pub modified : PollFlow.Answer
  pub peer : Option Ipport

-- `extinfo_` for CB_SENDDONE. The port of a datagram's peer is written to `remoteip_`.
unfoldable pub sent_info : ℕ → SendAnswers → SockCommu → SockCommu
sent_info flow a c =
    let cc = getcc c.connset flow in
    let known = conn_info cc.fd cc.type a.peer c in
    let info : ConnExtInfo = record c.extinfo {
      fd = cc.fd;
      type = cc.type;
      localip = 0;
      localport = 0;
      remoteip = (cc.addr).port;
    } in
    if cc.type == udp_socket then record c { extinfo = info } else known

-- CB_SENDDONE.
unfoldable pub report_done : FuncList → ℕ → List ℕ → SendAnswers → SockCommu → SockCommu
report_done funcs flow content a c =
    let c1 = sent_info flow a c in
    let blob : Blob = record {
      len = length content;
      content = bytes content;
      ext_type = ext_type_connextinfo;
      extdata = conn_ext c1.extinfo;
    } in
    (call funcs cb_senddone flow (record c1 { buff_blob = blob }) c).0

-- A datagram's connection is closed after one answer; any other waits for the events.
unfoldable pub wait_for : ℕ → ℕ → PollFlow.Answer → SockCommu → SockCommu
wait_for flow events answer c =
    let cc = getcc c.connset flow in
    if cc.type == udp_socket then closeconn flow c else epoll_ctl cc.fd flow events answer c

unfoldable pub after_send : FuncList → ℕ → List ℕ → SendAnswers → SockCommu → ℕ → SockCommu
after_send funcs flow content a c n =
    if ltb n (length content)
    then wait_for flow (epollet + epollin + epollout) a.modified c
    else wait_for flow (epollin + epollet) a.modified (report_done funcs flow content a c)

-- The cases of what `send` returns.
unfoldable pub sent : FuncList → ℕ → List ℕ → SendAnswers → SockCommu → Result → SockCommu
sent funcs flow content a c (done n) = after_send funcs flow content a c n
sent funcs flow content a c need_close = closeconn flow c
sent funcs flow content a c ret = c

unfoldable pub sendto : FuncList → ℕ → List ℕ → SendAnswers → SockCommu → SockCommu × Result
sendto funcs flow content a c =
    let (s, ret, gone) = ConnSet.send c.connset flow content a.now a.first a.second in
    let c2 = sent funcs flow content a (record c { connset = s }) ret in
    if length content == 0 && not (flow == 0) then (closeconn flow c, done 0) else (c2, ret)

pub data CtrlType : Type 0 where
  ct_disconnect ct_close ct_stat ct_load ct_get_conn_ext_info : CtrlType

-- What is copied to the caller's buffer.
pub data Output : Type 0 where
  nothing : Output
  curconn : List ℕ → Output
  ext_info : ConnExtInfo → Output

-- `sizeof(TConnExtInfo)`
abbrev pub ext_info_size : ℕ
ext_info_size = 24

unfoldable pub ctrl : ℕ → CtrlType → ℕ → Option Ipport → SockCommu → SockCommu × Output × ℤ
ctrl flow ct_load len peer c = (c, curconn (le_bytes 4 (c.connset).curconn), pos 0)
ctrl flow ct_get_conn_ext_info len peer c =
    let cc = getcc c.connset flow in
    let c1 = conn_info cc.fd cc.type peer c in
    if not (cc.flow == flow)
    then (c, nothing, negsuc 0)
    else if ltb len ext_info_size
    then (c, nothing, negsuc 1)
    else (c1, ext_info c1.extinfo, pos 0)
ctrl flow type len peer c = (c, nothing, pos 0)
