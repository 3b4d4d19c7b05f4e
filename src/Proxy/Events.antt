-- ===== src/Proxy/Events.antt =====
-- The callbacks of ServerFrameWork/src/proxy/defaultproxy.cpp for the events of a client's connection
-- (ator_connected, ator_disconn, ator_overload, ator_timeout) and for the answers of the workers
-- (ctor_recvdata). The plug-in is a parameter; logging and counting are left out; `clock` gives the time
-- of the message to each queue.
use spp_server_frame_work.Base.{
  ℕ, zero, suc, Bool, false, ◌&&◌, ◌||◌, List, [], ◌∷◌, Option, none, some, ltb, ◌==◌,
  if◌then◌else◌, length,
}
use spp_server_frame_work.Delay.{Timeval}
use spp_server_frame_work.ShmMq.{Blob}
use spp_server_frame_work.TShmCommu.{TShmCommu, Callback, sendto}
use spp_server_frame_work.SockCommu.State.{ℤ, pos, negsuc, SockCommu, FuncList, ext_type_connected}
use spp_server_frame_work.SockCommu.Send
use spp_server_frame_work.SockCommu.Send.{SendAnswers}

pub data EventType : Type 0 where
  et_connected et_disconnect et_overload et_timeout : EventType

abbrev pub ext_type_overload : ℕ
ext_type_overload = 2

abbrev pub ext_type_timeout : ℕ
ext_type_timeout = 3

abbrev pub ext_type_disconnect : ℕ
ext_type_disconnect = 4

abbrev pub iplimit_white_list : ℕ
iplimit_white_list = 1

abbrev pub iplimit_black_list : ℕ
iplimit_black_list = 2

-- The functions for events, `none` for NULL: `event_func_list_`, which may write to the blob, and
-- `spp_handle_event_route`, which answers with an int.
pub record EventPlugin : Type 0 where
  pub event_func : EventType → Option (ℕ → Blob → Blob)
  pub handle_event_route : Option (EventType → ℕ → Blob → ℤ)

-- `iptable_.find(ip) != iptable_.end()`
abbrev pub contains : List ℕ → ℕ → Bool
contains [] ip = false
contains (x ∷ iptable) ip = (x == ip) || contains iptable ip

-- The tests of `ator_connected`: 0 to go on, or what it returns.
unfoldable pub limited : ℕ → List ℕ → ℕ → ℤ
limited iplimit iptable remoteip =
    if iplimit == iplimit_white_list
    then (if contains iptable remoteip then pos 0 else negsuc 0)
    else if (iplimit == iplimit_black_list) && contains iptable remoteip
    then negsuc 1
    else pos 0

abbrev pub reported : Option (ℕ → Blob → Blob) → ℕ → Blob → Blob
reported none flow blob = blob
reported (some f) flow blob = f flow blob

module _ (registered : Callback → Bool) (clock : ℕ → Timeval) (flow : ℕ) where
  -- `ctor_[i]->sendto(flow, arg1, arg2)`, whose return value nobody reads.
  abbrev pub sent_one : ℕ → Blob → TShmCommu → TShmCommu
  sent_one i blob c = (sendto registered (clock i) flow blob c).1

  -- The same for the entry `n` of a list that starts at the index `i`.
  unfoldable pub send_at : ℕ → ℕ → Blob → List TShmCommu → List TShmCommu
  send_at i n blob [] = []
  send_at i zero blob (c ∷ ctor) = sent_one i blob c ∷ ctor
  send_at i (suc n) blob (c ∷ ctor) = c ∷ send_at (suc i) n blob ctor

  -- The loop over all queues.
  unfoldable pub send_all : ℕ → Blob → List TShmCommu → List TShmCommu
  send_all i blob [] = []
  send_all i blob (c ∷ ctor) = sent_one i blob c ∷ send_all (suc i) blob ctor

  -- What `route_no` chooses.
  unfoldable pub send_routed : Blob → List TShmCommu → ℤ → List TShmCommu
  send_routed blob ctor (pos zero) = send_all 0 blob ctor
  send_routed blob ctor (pos (suc n)) =
      let sent = send_at 0 n blob ctor in if ltb (length ctor) (suc n) then ctor else sent
  send_routed blob ctor (negsuc n) = ctor

  -- `spp_handle_event_route` and what follows, with the blob that it leaves. The four callbacks have this
  -- text with an event and a type of their own.
  unfoldable pub route_event :
      EventType
      → ℕ
      → Option (EventType → ℕ → Blob → ℤ)
      → Blob
      → List TShmCommu
      → List TShmCommu × Blob
  route_event et ext_type none blob ctor = (ctor, blob)
  route_event et ext_type (some route) blob ctor =
      let b = record blob { ext_type = ext_type; extdata = [] } in
      (send_routed b ctor (route et flow b), b)

  module _ (plugin : EventPlugin) (blob : Blob) (ctor : List TShmCommu) where
    unfoldable pub ator_overload : List TShmCommu × Blob
    ator_overload =
        let b = reported (plugin.event_func et_overload) flow blob in
        route_event et_overload ext_type_overload plugin.handle_event_route b ctor

    unfoldable pub ator_timeout : List TShmCommu × Blob
    ator_timeout =
        let b = reported (plugin.event_func et_timeout) flow blob in
        route_event et_timeout ext_type_timeout plugin.handle_event_route b ctor

    unfoldable pub ator_disconn : List TShmCommu × Blob
    ator_disconn =
        let b = reported (plugin.event_func et_disconnect) flow blob in
        route_event et_disconnect ext_type_disconnect plugin.handle_event_route b ctor

    -- With what the tests of the address have given.
    unfoldable pub connected_or : ℤ → List TShmCommu × Blob × ℤ
    connected_or (pos n) =
        let b = reported (plugin.event_func et_connected) flow blob in
        let (ctor', b') =
          route_event et_connected ext_type_connected plugin.handle_event_route b ctor in
        (ctor', b', pos 0)
    connected_or (negsuc n) = (ctor, blob, negsuc n)

    -- `remoteip` is what `extinfo->remoteip_` reads.
    unfoldable pub ator_connected : ℕ → List ℕ → ℕ → List TShmCommu × Blob × ℤ
    ator_connected iplimit iptable remoteip = connected_or (limited iplimit iptable remoteip)

-- A worker's answer goes to the client of its flow; an error of `sendto` is written to the log.
unfoldable pub ctor_recvdata : FuncList → ℕ → Blob → SendAnswers → SockCommu → SockCommu
ctor_recvdata funcs flow blob a c = (Send.sendto funcs flow blob.content a c).0
