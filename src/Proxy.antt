-- ===== src/Proxy.antt =====
-- The callback of ServerFrameWork/src/proxy/defaultproxy.cpp for what the proxy's sockets receive
-- (ator_recvdata): the bytes of a client are cut into messages, and each message goes to the queue of a
-- group of workers.
-- The plug-in is a parameter: what it answers in each round. An entry of `ctor_` is a CTShmCommu.
-- Logging and counting are left out; `clock` gives the time of each round.
pub mod Accounts
pub mod Delivered
pub mod Events
pub mod Notices
pub mod Limits
mod EventTests
mod Tests
use spp_server_frame_work.Base.{
  ℕ, zero, suc, ◌+◌, ◌-◌, Bool, true, false, not, ◌&&◌, ◌||◌, List, [], ◌∷◌, ◌++◌, Option, none,
  some, ltb, leb, ◌==◌, if◌then◌else◌, length, get_elem?, set, take, drop,
}
use spp_server_frame_work.Delay.{Timeval}
use spp_server_frame_work.ShmMq.{Blob, Ret, success, err_mqfull}
use spp_server_frame_work.TShmCommu.{TShmCommu, Callback, sendto}

-- The int that `spp_handle_input` returns: the length of a message, 0 for an incomplete one, or a
-- negative number, `failure n` for -(n + 1).
pub data Length : Type 0 where
  length_of : ℕ → Length
  failure : ℕ → Length

-- What `spp_handle_queue_full` returns: 0, a negative or a positive number.
pub data Verdict : Type 0 where
  keep_data close_connection ignore : Verdict

-- The functions of the plug-in, with the round of the loop; `none` for NULL. `local_handle` tells
-- whether it returns 0.
pub record Plugin : Type 0 where
  pub handle_input : ℕ → ℕ → List ℕ → Length
  pub handle_route : Option (ℕ → ℕ → List ℕ → ℕ)
  pub handle_queue_full : ℕ → ℕ → ℕ → List ℕ → Verdict
  pub local_handle : Option (ℕ → ℕ → List ℕ → Bool)

-- What becomes of a message: offered to the queue of an index at a time, with its answer, handled here, left because
-- its route is out of range, or thrown away with all behind it because its length is; and the closing of the connection.
pub data Deed : Type 0 where
  offered : Timeval → ℕ → List ℕ → Ret → Deed
  handled : List ℕ → Deed
  unrouted : List ℕ → Deed
  discarded : List ℕ → Deed
  closed : Deed

-- The return value, `refused n` for -(n + 1).
pub data Result : Type 0 where
  processed : ℕ → Result
  refused : ℕ → Result

-- The end of a round: the loop goes on, or is left.
pub data Outcome : Type 0 where
  go_on : List TShmCommu → List Deed → Outcome
  leave : List TShmCommu → List Deed → Outcome

abbrev pub ctor_of : Outcome → List TShmCommu
ctor_of (go_on ctor deeds) = ctor
ctor_of (leave ctor deeds) = ctor

pub record Run : Type 0 where
  pub ctor : List TShmCommu
  pub deeds : List Deed
  pub result : Result

abbrev pub queue_full : Timeval → List TShmCommu → ℕ → List ℕ → Verdict → Outcome
queue_full now ctor i piece keep_data = leave ctor (offered now i piece err_mqfull ∷ [])
queue_full now ctor i piece close_connection =
    leave ctor (offered now i piece err_mqfull ∷ closed ∷ [])
queue_full now ctor i piece ignore = go_on ctor (offered now i piece err_mqfull ∷ [])

-- What follows the answer of `sendto`.
abbrev pub sent : Timeval → List TShmCommu → ℕ → List ℕ → Ret → Verdict → Outcome
sent now ctor i piece err_mqfull verdict = queue_full now ctor i piece verdict
sent now ctor i piece ret verdict = go_on ctor (offered now i piece ret ∷ [])

abbrev pub after_local : List TShmCommu → List ℕ → Bool → Outcome
after_local ctor piece true = go_on ctor (handled piece ∷ [])
after_local ctor piece false = leave ctor (handled piece ∷ closed ∷ [])

-- The end of a round with a message of `n` bytes: `k` bytes are processed, and `rest` is what the
-- next rounds do.
abbrev pub finish : Outcome → ℕ → Option Run → Option Run
finish (leave ctor deeds) k rest =
    some (record { ctor = ctor; deeds = deeds; result = processed k })
finish (go_on ctor deeds) k none = none
finish (go_on ctor deeds) k (some run) = some (record run { deeds = deeds ++ run.deeds })

abbrev pub round_end : Length → ℕ → List ℕ → ℕ → List TShmCommu → Outcome → Option Run → Option Run
round_end (failure n) total bytes k ctor outcome rest =
    some (record { ctor = ctor; deeds = []; result = refused n })
round_end (length_of zero) total bytes k ctor outcome rest =
    some (record { ctor = ctor; deeds = []; result = processed k })
round_end (length_of (suc n)) total bytes k ctor outcome rest =
    let ended = finish outcome (k + suc n) rest in
    if ltb (length bytes) (suc n)
    then some (record { ctor = ctor; deeds = discarded bytes ∷ []; result = processed total })
    else ended

abbrev pub proto_len : Length → ℕ
proto_len (length_of n) = n
proto_len (failure n) = 0

module _ (plugin : Plugin) (registered : Callback → Bool) (clock : ℕ → Timeval) (flow : ℕ) where
  module _ (blob : Blob) where
    -- `ctor_[route_no - 1]->sendto(flow, &sendblob, arg2)`; the source has no test that the queue of the
    -- default route is there.
    unfoldable pub deliver : ℕ → List TShmCommu → ℕ → List ℕ → Option TShmCommu → Outcome
    deliver round ctor i piece none = leave ctor (unrouted piece ∷ [])
    deliver round ctor i piece (some c) =
        let sendblob : Blob = record blob { content = piece } in
        let (ret, c', events) = sendto registered (clock round) flow sendblob c in
        sent (clock round) (set ctor i c') i piece ret (plugin.handle_queue_full round flow i piece)

    abbrev pub route : ℕ → List TShmCommu → List ℕ → Option (ℕ → ℕ → List ℕ → ℕ) → Outcome
    route round ctor piece none = deliver round ctor 0 piece (get_elem? ctor 0)
    route round ctor piece (some f) =
        let route_no = f round flow piece in
        let delivered = deliver round ctor (route_no - 1) piece (get_elem? ctor (route_no - 1)) in
        if ltb (length ctor) route_no || (route_no == 0)
        then leave ctor (unrouted piece ∷ [])
        else delivered

    -- One message.
    abbrev pub message : ℕ → List TShmCommu → List ℕ → Option (ℕ → ℕ → List ℕ → Bool) → Outcome
    message round ctor piece (some f) = after_local ctor piece (f round flow piece)
    message round ctor piece none = route round ctor piece plugin.handle_route

    -- The loop of `ator_recvdata`, on fuel, with the bytes left, `total_len` and `processed_len`.
    unfoldable pub recv_loop : ℕ → ℕ → ℕ → List TShmCommu → List ℕ → ℕ → Option Run
    recv_loop zero total round ctor bytes k = none
    recv_loop (suc fuel) total round ctor [] k =
        some (record { ctor = ctor; deeds = []; result = processed k })
    recv_loop (suc fuel) total round ctor (b ∷ bytes) k =
        let len = plugin.handle_input round flow (b ∷ bytes) in
        let n = proto_len len in
        let outcome = message round ctor (take n (b ∷ bytes)) plugin.local_handle in
        let rest =
          recv_loop fuel total (suc round) (ctor_of outcome) (drop n (b ∷ bytes)) (k + n) in
        round_end len total (b ∷ bytes) k ctor outcome rest

    -- Without bytes the loop is not entered, and `proto_len` is -1.
    unfoldable pub ator_recvdata : ℕ → List TShmCommu → List ℕ → Option Run
    ator_recvdata fuel ctor [] = some (record { ctor = ctor; deeds = []; result = refused 0 })
    ator_recvdata fuel ctor (b ∷ bytes) = recv_loop fuel (length (b ∷ bytes)) 0 ctor (b ∷ bytes) 0
