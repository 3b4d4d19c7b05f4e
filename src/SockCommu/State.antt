-- ===== src/SockCommu/State.antt =====
-- The fields of CTSockCommu (sockcommu.h, commu.h), its callbacks, and the closing of connections.
use spp_server_frame_work.Base.{
  ℕ, zero, Bool, true, false, not, ◌&&◌, List, Option, none, some, ◌==◌, if◌then◌else◌, add32,
}
use spp_server_frame_work.ConnSet.{Ipport, ConnCache, ConnSet, udp_socket, getcc, is_conn}
use spp_server_frame_work.ConnSet
use spp_server_frame_work.PollFlow
use spp_server_frame_work.PollFlow.{Event, Answer, value, minus}

-- An int; `negsuc n` is -(n + 1).
pub data ℤ : Type 0 where
  pos : ℕ → ℤ
  negsuc : ℕ → ℤ

abbrev pub sock_type_udp : ℕ
sock_type_udp = 2

abbrev pub sock_type_tcp : ℕ
sock_type_tcp = 1

-- `type_` is 0 for none; the union has the address or the path.
pub record SockBind : Type 0 where
  pub type : ℕ
  pub ipport : Ipport
  pub path : List ℕ

pub record NodeInfo : Type 0 where
  pub serv_type : ℕ
  pub node_id : ℕ
  pub begin : ℕ
  pub end : ℕ
  pub bind : SockBind

pub record ConnExtInfo : Type 0 where
  pub fd : ℕ
  pub type : ℕ
  pub localip : ℕ
  pub localport : ℕ
  pub remoteip : ℕ
  pub remoteport : ℕ

-- What `data` of a blob points to; the code of an overload is stored in the pointer itself.
pub data Content : Type 0 where
  null : Content
  bytes : List ℕ → Content
  overload_conn : Content

pub data ExtData : Type 0 where
  no_ext : ExtData
  conn_ext : ConnExtInfo → ExtData
  node_ext : NodeInfo → ExtData

abbrev pub ext_type_none : ℕ
ext_type_none = 0

abbrev pub ext_type_connected : ℕ
ext_type_connected = 1

abbrev pub ext_type_connextinfo : ℕ
ext_type_connextinfo = 0x10

abbrev pub ext_type_connnodeinfo : ℕ
ext_type_connnodeinfo = 0x11

-- `ext_len` is the size of `extdata`.
pub record Blob : Type 0 where
  pub len : ℕ
  pub content : Content
  pub ext_type : ℕ
  pub extdata : ExtData

pub data Callback : Type 0 where
  cb_connect cb_connected cb_disconnect cb_recvdata cb_recverror cb_recvdone : Callback
  cb_senddata cb_senderror cb_senddone cb_hangup cb_overload cb_timeout : Callback

abbrev pub epollin : ℕ
epollin = 1

abbrev pub epollout : ℕ
epollout = 4

abbrev pub epollet : ℕ
epollet = 2_147_483_648

-- `interest` is the kernel's set of descriptors with the event that each was given.
pub record SockCommu : Type 0 where
  pub sockbind : ℕ → SockBind
  pub maxbindfd : ℕ
  pub expiretime : ℕ
  pub check_expire_interval : ℕ
  pub lastchecktime : ℕ
  pub flow : ℕ
  pub buff_blob : Blob
  pub extinfo : ConnExtInfo
  pub connset : ConnSet
  pub interest : ℕ → Option Event

-- `func_list_`: which callbacks there are, and what they do.
pub record FuncList : Type 0 where
  pub registered : Callback → Bool
  pub func : Callback → ℕ → SockCommu → SockCommu × ℤ

-- `if(func_list_[type] != NULL)`: the function gets the state as it is prepared for it. Without one the
-- connection is not denied.
unfoldable pub call : FuncList → Callback → ℕ → SockCommu → SockCommu → SockCommu × ℤ
call funcs cb flow prepared c =
    if funcs.registered cb then funcs.func cb flow prepared else (c, pos 0)

abbrev pub no_data : Blob
no_data = record { len = 0; content = null; ext_type = ext_type_none; extdata = no_ext }

-- An empty blob for a callback.
abbrev pub call_empty : FuncList → Callback → ℕ → SockCommu → SockCommu
call_empty funcs cb flow c = (call funcs cb flow (record c { buff_blob = no_data }) c).0

abbrev pub call_overload : FuncList → SockCommu → SockCommu
call_overload funcs c =
    (call funcs cb_overload 0 (record c { buff_blob = record no_data { content = overload_conn } })
      c).0

-- `close(fd)`: the kernel forgets the descriptor.
unfoldable pub close_fd : ℕ → SockCommu → SockCommu
close_fd fd c = record c { interest = λ i. if i == fd then none else c.interest i }

-- `ix_->connset_->closeconn(flow)`, which closes the descriptor unless it is a datagram's.
unfoldable pub closeconn : ℕ → SockCommu → SockCommu
closeconn flow c =
    let cc = getcc c.connset flow in
    let c' = record c { connset = (ConnSet.closeconn c.connset flow).0 } in
    if is_conn c.connset flow && not (cc.type == udp_socket) then close_fd cc.fd c' else c'

-- `ix_->epollflow_->add` and `modify`, whose effect is the kernel's if it does not refuse.
unfoldable pub epoll_ctl : ℕ → ℕ → ℕ → Answer → SockCommu → SockCommu
epoll_ctl fd flow flag (minus ret) c = c
epoll_ctl fd flow flag (value ret) c = record c {
  interest =
      λ i. if i == fd then some ((PollFlow.ctl fd flow flag (value ret) 0).0) else c.interest i;
}

-- `if(++flow_ == 0) flow_ = 1;`
unfoldable pub next_flow : SockCommu → SockCommu
next_flow c = record c { flow = (let f = add32 c.flow 1 in if f == 0 then 1 else f) }

-- `CSocket::get_peer_name`, which leaves the two fields if it fails.
abbrev pub get_peer_name : Option Ipport → ConnExtInfo → ConnExtInfo
get_peer_name none info = info
get_peer_name (some p) info = record info { remoteip = p.ip; remoteport = p.port }

-- `extinfo_` for a connection.
unfoldable pub conn_info : ℕ → ℕ → Option Ipport → SockCommu → SockCommu
conn_info fd type peer c = record c {
  extinfo =
      get_peer_name peer (record c.extinfo { fd = fd; type = type; localip = 0; localport = 0 });
}

-- What the answer of the connection set leaves; `flow_` is changed also where it fails, when it has gone
-- round all slots.
unfoldable pub joined : SockCommu → ConnSet × Option ℕ → SockCommu × Bool
joined c (s, none) = (record c { flow = add32 c.flow c.connset.maxconn }, false)
joined c (s, some f) = (record c { connset = s; flow = f }, true)

-- `addconn(flow_, fd, type)`; the Boolean is whether it succeeds.
unfoldable pub addconn : ℕ → ℕ → ℕ → SockCommu → SockCommu × Bool
addconn fd type now c = joined c (ConnSet.addconn c.connset c.flow fd type now)

-- A return value other than 0 denies a connection.
abbrev pub is_zero : ℤ → Bool
is_zero (pos zero) = true
is_zero _ = false
