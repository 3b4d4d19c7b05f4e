-- ===== src/Proxy/Notices.antt =====
-- The queues of the workers after an event of a client's connection (defaultproxy.cpp).
use spp_server_frame_work.Base.{
  ltb→lt, ℕ, zero, suc, ◌+◌, ◌<◌, ◌≤◌, ◌∙◌, if-cases, ◌≡◌, refl, ap, Bool, true, false, List, [],
  ◌∷◌, some, ◌==◌, ltb, if◌then◌else◌, length, arith, ==-refl, ==-eq_false,
}
use spp_server_frame_work.Delay.{Timeval}
use spp_server_frame_work.ShmMq.{Blob, Message}
use spp_server_frame_work.ShmMq.Refine.{Queues, push, message, IsSendable}
use spp_server_frame_work.TShmCommu.{
  TShmCommu, Callback, cb_connected, cb_overload, cb_timeout, cb_disconnect, dispatch, call,
}
use spp_server_frame_work.TShmCommu.Traffic.{sendto_refines}
use spp_server_frame_work.SockCommu.State.{ℤ, pos, negsuc}
use spp_server_frame_work.Proxy.Events.{
  EventType, EventPlugin, et_connected, et_overload, et_timeout, et_disconnect, limited,
  ator_connected, ator_overload, ator_timeout, ator_disconn, connected_or, reported, sent_one,
  send_at, send_all, send_routed, route_event,
}

-- Each queue of a list holds the messages of an entry of another.
abbrev pub AllQueues : List TShmCommu → List (List Message) → Type 0
AllQueues [] [] = Unit {0}
AllQueues [] (ms ∷ mss) = ⊥
AllQueues (c ∷ ctor) [] = ⊥
AllQueues (c ∷ ctor) (ms ∷ mss) = Queues c.producer ms × AllQueues ctor mss

-- Which queues an answer of `spp_handle_event_route` reaches.
abbrev pub reaches : ℤ → ℕ → Bool
reaches (pos zero) i = true
reaches (pos (suc n)) i = i == n
reaches (negsuc n) i = false

module _ (clock : ℕ → Timeval) (flow : ℕ) (blob : Blob) where
  -- The queues of messages with the event, from the index `i` on, for those that hear of it.
  abbrev pub heard : (ℕ → Bool) → ℕ → List TShmCommu → List (List Message) → List (List Message)
  heard hears i [] mss = mss
  heard hears i (c ∷ ctor) [] = []
  heard hears i (c ∷ ctor) (ms ∷ mss) =
      let m = message blob flow blob.ext_type (clock i) in
      (if hears i then (push c.producer.blocksize ms m).0 else ms) ∷ heard hears (suc i) ctor mss

  module _ (registered : Callback → Bool)
      (fits : (i : ℕ) → IsSendable (message blob flow blob.ext_type (clock i))) where
    sent_one-Queues :
        (i : ℕ) (c : TShmCommu) (ms : List Message)
        → Queues c.producer ms
        → Queues
            (sent_one registered clock flow i blob c).producer
            (push c.producer.blocksize ms (message blob flow blob.ext_type (clock i))).0
    sent_one-Queues i c ms v = (sendto_refines registered (clock i) flow blob c ms v (fits i)).1

    unheard-Queues :
        (hears : ℕ → Bool) (i : ℕ) (ctor : List TShmCommu) (mss : List (List Message))
        → ((k : ℕ) → i ≤ k → hears k ≡ false)
        → AllQueues ctor mss
        → AllQueues ctor (heard hears i ctor mss)
    unheard-Queues hears i [] mss deaf v = v
    unheard-Queues hears i (c ∷ ctor) [] deaf v = v
    unheard-Queues hears i (c ∷ ctor) (ms ∷ mss) deaf (v, vs) =
        rw (deaf i (omega arith))
          (v, unheard-Queues hears (suc i) ctor mss (λ k h. deaf k (omega arith)) vs)

    send_all-Queues :
        (hears : ℕ → Bool) (i : ℕ) (ctor : List TShmCommu) (mss : List (List Message))
        → ((k : ℕ) → hears k ≡ true)
        → AllQueues ctor mss
        → AllQueues (send_all registered clock flow i blob ctor) (heard hears i ctor mss)
    unfolding send_all
    send_all-Queues hears i [] mss each v = v
    send_all-Queues hears i (c ∷ ctor) [] each v = absurd v
    send_all-Queues hears i (c ∷ ctor) (ms ∷ mss) each (v, vs) =
        rw (each i) (sent_one-Queues i c ms v, send_all-Queues hears (suc i) ctor mss each vs)

    send_at-Queues :
        (hears : ℕ → Bool) (i n : ℕ) (ctor : List TShmCommu) (mss : List (List Message))
        → ((k : ℕ) → hears k ≡ (k == i + n))
        → AllQueues ctor mss
        → AllQueues (send_at registered clock flow i n blob ctor) (heard hears i ctor mss)
    unfolding send_at
    send_at-Queues hears i n [] mss only v = v
    send_at-Queues hears i n (c ∷ ctor) [] only v = absurd v
    send_at-Queues hears i zero (c ∷ ctor) (ms ∷ mss) only (v, vs) =
        rw (only i ∙ ap (λ x. i == x) (omega arith) ∙ ==-refl i) (
          sent_one-Queues i c ms v,
          unheard-Queues hears (suc i) ctor mss
              (λ k h. only k ∙ ==-eq_false k (i + 0) (omega arith)) vs,
        )
    send_at-Queues hears i (suc n) (c ∷ ctor) (ms ∷ mss) only (v, vs) =
        rw (only i ∙ ==-eq_false i (i + suc n) (omega arith)) (
          v,
          send_at-Queues hears (suc i) n ctor mss (λ k. only k ∙ ap (λ x. k == x) (omega arith)) vs,
        )

    -- An index that is out of range.
    heard-beyond :
        (hears : ℕ → Bool) (i : ℕ) (ctor : List TShmCommu) (mss : List (List Message))
        → ((k : ℕ) → k < i + length ctor → hears k ≡ false)
        → AllQueues ctor mss
        → AllQueues ctor (heard hears i ctor mss)
    heard-beyond hears i [] mss deaf v = v
    heard-beyond hears i (c ∷ ctor) [] deaf v = v
    heard-beyond hears i (c ∷ ctor) (ms ∷ mss) deaf (v, vs) =
        rw (deaf i (omega arith))
          (v, heard-beyond hears (suc i) ctor mss (λ k h. deaf k (omega arith)) vs)

    send_routed-Queues :
        (ctor : List TShmCommu) (mss : List (List Message)) (route_no : ℤ)
        → AllQueues ctor mss
        → AllQueues
            (send_routed registered clock flow blob ctor route_no)
            (heard (reaches route_no) 0 ctor mss)
    unfolding send_routed
    send_routed-Queues ctor mss (pos zero) v =
        send_all-Queues (reaches (pos zero)) 0 ctor mss (λ k. refl) v
    send_routed-Queues ctor mss (pos (suc n)) v =
        let sent = send_at registered clock flow 0 n blob ctor in
        let hears = reaches (pos (suc n)) in
        if-cases (λ ctor'. AllQueues ctor' (heard hears 0 ctor mss)) (ltb (length ctor) (suc n))
          ctor sent
          (λ far.
            heard-beyond hears 0 ctor mss
              (λ k h. ==-eq_false k n (λ e. omega (arith, ltb→lt (length ctor) (suc n) far))) v)
          (λ _. send_at-Queues hears 0 n ctor mss (λ k. ap (λ x. k == x) (omega arith)) v)
    send_routed-Queues ctor mss (negsuc n) v =
        unheard-Queues (reaches (negsuc n)) 0 ctor mss (λ k h. refl) v

-- The type of the message for an event, by which a worker tells it.
abbrev pub msgtype_of : EventType → ℕ
msgtype_of et_connected = 1
msgtype_of et_overload = 2
msgtype_of et_timeout = 3
msgtype_of et_disconnect = 4

-- A worker's callback for an event.
abbrev pub callback_of : EventType → Callback
callback_of et_connected = cb_connected
callback_of et_overload = cb_overload
callback_of et_timeout = cb_timeout
callback_of et_disconnect = cb_disconnect

-- A worker calls the callback of the event.
abbrev pub TellsWorker : EventType → Type 0
TellsWorker et =
    (registered : Callback → Bool) (flow : ℕ) (content : List ℕ)
    → dispatch registered (msgtype_of et) flow content
      ≡ call registered (callback_of et) flow content

tells_worker : (et : EventType) → TellsWorker et
unfolding dispatch
tells_worker et_connected registered flow content = refl
tells_worker et_overload registered flow content = refl
tells_worker et_timeout registered flow content = refl
tells_worker et_disconnect registered flow content = refl

module _ (flow : ℕ) (plugin : EventPlugin) (blob : Blob) where
  -- The message for an event.
  abbrev pub notice : EventType → Blob
  notice et = record (reported (plugin.event_func et) flow blob) {
    ext_type = msgtype_of et;
    extdata = [];
  }

module _ (registered : Callback → Bool) (clock : ℕ → Timeval) (flow : ℕ) (plugin : EventPlugin)
    (blob : Blob) (ctor : List TShmCommu) (mss : List (List Message)) (v : AllQueues ctor mss)
    (route : EventType → ℕ → Blob → ℤ) (has_route : plugin.handle_event_route ≡ some route)
    (fits : (et : EventType) (i : ℕ)
      → IsSendable (message (notice flow plugin blob et) flow (msgtype_of et) (clock i))) where
  -- The queues hold what they did and, those that the route reaches, the event, unless it does not fit;
  -- and a worker that takes it out calls its callback for this event.
  abbrev pub Tells : EventType → List TShmCommu → Type 0
  Tells et ctor' =
      AllQueues ctor' (
        heard clock flow (notice flow plugin blob et)
          (reaches (route et flow (notice flow plugin blob et))) 0 ctor mss)
      × TellsWorker et

  route_event-Tells :
      (et : EventType)
      → Tells et
          (route_event registered clock flow et
            (msgtype_of et)
            plugin.handle_event_route
            (reported (plugin.event_func et) flow blob)
            ctor).0
  unfolding route_event
  route_event-Tells et = (
    rw has_route (
        send_routed-Queues clock flow (notice flow plugin blob et) registered (fits et) ctor mss
          (route et flow (notice flow plugin blob et)) v),
    tells_worker et,
  )

  -- For a plug-in with a function for the route of an event, queues that hold messages, and a blob whose
  -- bytes fit a message of each event: after ator_overload, ator_timeout, ator_disconn and, for an
  -- address that is not barred, ator_connected, which returns 0, the queues that the route of the event
  -- reaches, all of them for 0 and the one of that number otherwise, hold their messages and the event,
  -- unless it does not fit, and every other queue holds what it did; and a worker calls its callback for
  -- an overload, a timeout, a disconnection or a connection on such a message.
  pub callbacks-Tells :
      (iplimit : ℕ) (iptable : List ℕ) (ip : ℕ)
      → limited iplimit iptable ip ≡ pos 0
      → Tells et_overload (ator_overload registered clock flow plugin blob ctor).0
        × Tells et_timeout (ator_timeout registered clock flow plugin blob ctor).0
        × Tells et_disconnect (ator_disconn registered clock flow plugin blob ctor).0
        × (let (ctor', b, ret) =
              ator_connected registered clock flow plugin blob ctor iplimit iptable ip in
            Tells et_connected ctor' × (ret ≡ pos 0))
  unfolding ator_overload ator_timeout ator_disconn ator_connected connected_or
  callbacks-Tells iplimit iptable ip passes = (
    route_event-Tells et_overload,
    route_event-Tells et_timeout,
    route_event-Tells et_disconnect,
    rw passes (route_event-Tells et_connected, refl),
  )
