-- ===== src/ConnSet.antt =====
-- CConnSet of ServerFrameWork/src/base/connset.cpp and include/connset.h: the connections of a proxy,
-- in slots by flow number modulo their count. A cache stands for the bytes that it holds
-- (RawCache/Bytes), with a pool that always has a block. What the sockets answer (CSocket::receive,
-- CSocket::send) and the clock are arguments.
pub mod Flows
pub mod Slots
pub mod Counts
pub mod Expiry
pub mod Stream
pub mod Input
pub mod Output
mod Tests
use spp_server_frame_work.Base.{
  ℕ, zero, suc, ◌+◌, ◌-◌, ◌%◌, Bool, true, false, not, ◌&&◌, ◌||◌, List, [], ◌∷◌, ◌++◌, Option,
  none, some, ltb, leb, ◌==◌, if◌then◌else◌, length, take, drop, add32, sub32,
}

-- An address and a port.
pub record Ipport : Type 0 where
  pub ip : ℕ
  pub port : ℕ

abbrev pub udp_socket : ℕ
udp_socket = 2

pub record ConnCache : Type 0 where
  pub flow : ℕ
  pub fd : ℕ
  pub access : ℕ
  pub type : ℕ
  pub addr : Ipport
  pub r : List ℕ
  pub w : List ℕ

pub record ConnSet : Type 0 where
  pub ccs : ℕ → ConnCache
  pub maxconn : ℕ
  pub curconn : ℕ

abbrev pub free_cc : ConnCache
free_cc = record {
  flow = 0;
  fd = 0;
  access = 0;
  type = 0;
  addr = record { ip = 0; port = 0 };
  r = [];
  w = [];
}

-- The constructor.
unfoldable pub create : ℕ → ConnSet
create maxconn = record { ccs = λ i. free_cc; maxconn = maxconn; curconn = 0 }

-- The return values of `recv`, `send` and `sendfromcache`.
pub data Result : Type 0 where
  not_findfd need_close again need_send : Result
  done : ℕ → Result

-- The connection in the slot of a flow, and the set with another in that slot.
unfoldable pub getcc : ConnSet → ℕ → ConnCache
getcc s flow = s.ccs (flow % s.maxconn)

unfoldable pub set_cc : ConnSet → ℕ → ConnCache → ConnSet
set_cc s flow cc = record s { ccs = λ i. if i == flow % s.maxconn then cc else s.ccs i }

-- `while (++flow != endflow)` with the rounds left: the first flow whose slot is free, none at
-- `endflow`.
unfoldable pub find_free : ConnSet → ℕ → ℕ → Option ℕ
find_free s zero flow = none
find_free s (suc rounds) flow =
    let next = add32 flow 1 in
    let rest = find_free s rounds next in if (getcc s next).flow == 0 then some next else rest

-- The search meets `endflow`, which is `flow + maxconn`, in round `maxconn`.
unfoldable pub choose_flow : ConnSet → ℕ → Option ℕ
choose_flow s flow =
    let other = find_free s (s.maxconn - 1) flow in
    if ltb 0 (getcc s flow).flow then other else some flow

-- `addconn`: the flow that it writes back, none for the return value -1. A flow of 0 would make a
-- connection that no call finds.
unfoldable pub addconn : ConnSet → ℕ → ℕ → ℕ → ℕ → ConnSet × Option ℕ
addconn s flow fd type now = elim (choose_flow s flow) [
  | none ↦ (s, none)
  | some f ↦ (
    record (set_cc s f (record (getcc s f) { flow = f; fd = fd; access = now; type = type })) {
      curconn = s.curconn + 1;
    },
    some f,
  )
]

-- The test of all calls by flow.
unfoldable pub is_conn : ConnSet → ℕ → Bool
is_conn s flow = (getcc s flow).flow == flow && not (flow == 0)

pub fd : ConnSet → ℕ → Option ℕ
fd s flow = if is_conn s flow then some (getcc s flow).fd else none

-- What `CSocket::receive` and `CSocket::send` answer: 0 and a number of bytes, -EAGAIN, -EINPROGRESS
-- or -EINTR, another error.
pub data Answer : Type 0 where
  ok : ℕ → Answer
  e_again e_inprogress e_intr e_other : Answer

pub sent_len : Answer → ℕ
sent_len (ok n) = n
sent_len _ = 0

pub is_busy : Answer → Bool
is_busy e_again = true
is_busy e_inprogress = true
is_busy e_intr = true
is_busy _ = false

pub is_error : Answer → Bool
is_error e_other = true
is_error _ = false

unfoldable pub is_ok : Answer → Bool
is_ok (ok n) = true
is_ok _ = false

pub is_again : Answer → Bool
is_again e_again = true
is_again _ = false

pub touch : ConnSet → ℕ → ℕ → ConnSet
touch s flow now = set_cc s flow (record (getcc s flow) { access = now })

pub set_w : ConnSet → ℕ → List ℕ → ConnSet
set_w s flow bytes = set_cc s flow (record (getcc s flow) { w = bytes })

-- `recv`: if the socket answers with 0, `bytes` is what it has written to the buffer, and `sender` is
-- where a datagram comes from.
pub recv : ConnSet → ℕ → ℕ → Answer → List ℕ → Ipport → ConnSet × Result
recv s flow now answer bytes sender =
    let s1 = touch s flow now in
    let cc = getcc s1 flow in
    let is_udp = cc.type == udp_socket in
    let from = if is_udp && is_ok answer then sender else cc.addr in
    let s2 = set_cc s1 flow (record cc { addr = from }) in
    let got : ConnSet × Result =
      (set_cc s1 flow (record cc { addr = from; r = cc.r ++ bytes }), done (length bytes)) in
    if not (is_conn s flow)
    then (s, not_findfd)
    else if is_ok answer
    then (if ltb 0 (length bytes) then got else (s2, need_close))
    else if not is_udp && is_again answer
    then (s1, again)
    else (s1, need_close)

-- `send`: the answers to the call that sends the cache, if there is one, and to the one that sends the
-- new bytes. The third component is what has gone out.
pub send : ConnSet → ℕ → List ℕ → ℕ → Answer → Answer → ConnSet × Result × List ℕ
send s flow bytes now first second =
    let s1 = touch s flow now in
    let w = (getcc s1 flow).w in
    let n = sent_len second in
    let gone = w ++ take n bytes in
    let emptied = set_w s1 flow [] in
    if not (is_conn s flow)
    then (s, not_findfd, [])
    else if not (length w == 0)
        && (is_busy first || (is_ok first && ltb (sent_len first) (length w)))
    then (set_w s1 flow (drop (sent_len first) w ++ bytes), done 0, take (sent_len first) w)
    else if not (length w == 0) && is_error first
    then (s1, need_close, [])
    else if is_error second
    then (emptied, need_close, w)
    else if ltb n (length bytes)
    then (set_w s1 flow (drop n bytes), done n, gone)
    else (emptied, done n, gone)

-- `sendfromcache`; `C_NEED_SEND` is `need_send`, and the last component is what has gone out.
pub sendfromcache : ConnSet → ℕ → ℕ → Answer → ConnSet × Result × List ℕ
sendfromcache s flow now answer =
    let s1 = touch s flow now in
    let w = (getcc s1 flow).w in
    let n = sent_len answer in
    if not (is_conn s flow)
    then (s, not_findfd, [])
    else if length w == 0
    then (s1, done 0, [])
    else if is_ok answer
    then (if n == 0
        then (s1, need_send, [])
        else if n == length w
        then (set_w s1 flow (drop n w), done 0, take n w)
        else (set_w s1 flow (drop n w), done n, take n w))
    else if is_again answer
    then (s1, need_send, [])
    else (s1, need_close, [])

-- `closeconn`; `true` is the return value 0. The descriptor and the address stay in the slot.
pub closeconn : ConnSet → ℕ → ConnSet × Bool
closeconn s flow =
    let cc = getcc s flow in
    let closed = record cc { flow = 0; access = 0; type = 0; r = []; w = [] } in
    if is_conn s flow
    then (record (set_cc s flow closed) { curconn = s.curconn - 1 }, true)
    else (s, false)

-- The loop of `check_expire` over the slots from `i` on.
pub expired_from : ConnSet → ℕ → ℕ → ℕ → List ℕ
expired_from s deadline zero i = []
expired_from s deadline (suc n) i =
    let cc = s.ccs i in
    let rest = expired_from s deadline n (i + 1) in
    if ltb 0 cc.flow && ltb cc.access deadline then cc.flow ∷ rest else rest

pub check_expire : ConnSet → ℕ → List ℕ
check_expire s deadline = expired_from s deadline s.maxconn 0

pub canclose : ConnSet → ℕ → Bool
canclose s flow =
    let cc = getcc s flow in
    if cc.flow == 0 then true else if cc.flow == flow then not (ltb 0 (length cc.w)) else false
