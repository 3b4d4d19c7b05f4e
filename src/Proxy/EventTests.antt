-- ===== src/Proxy/EventTests.antt =====
-- The callbacks of the proxy for events, at concrete inputs.
use spp_server_frame_work.Base.{
  ◌<◌, ◌^◌, List, ℕ, ◌≡◌, inl, inr, refl, true, none, some, [], ◌∷◌, ◌==◌, if◌then◌else◌, arith,
}
use spp_server_frame_work.Delay.{Timeval}
use spp_server_frame_work.ConnSet.{Ipport, create}
use spp_server_frame_work.PollFlow.{value}
use spp_server_frame_work.ShmMq.{ShmMq, Blob, Message}
use spp_server_frame_work.ShmMq.Refine.{Queues, IsSendable, message}
use spp_server_frame_work.TShmCommu.{TShmCommu}
use spp_server_frame_work.SockCommu.State.{
  ℤ, pos, Callback, cb_connected, SockCommu, FuncList, no_data,
}
use spp_server_frame_work.SockCommu.Accept.{AcceptAnswers, handle_accepted}
use spp_server_frame_work.SockCommu.Start.{no_info, unused}
use spp_server_frame_work.Proxy.Events.{
  EventType, et_connected, et_overload, et_timeout, et_disconnect, EventPlugin, limited,
  ator_connected, ator_overload, ator_timeout, ator_disconn,
}
use spp_server_frame_work.Proxy.Notices.{AllQueues, msgtype_of, notice, Tells, callbacks-Tells}
use spp_server_frame_work.Proxy.Limits.{remoteip_of, handle_accepted-barred}

abbrev clock : ℕ → Timeval
clock i = record { tv_sec = 7; tv_usec = 5 }

-- An overload is for the second group of workers, all else for every group.
abbrev event_route : EventType → ℕ → Blob → ℤ
event_route et_overload flow blob = pos 2
event_route et flow blob = pos 0

abbrev plugin : EventPlugin
plugin = record { event_func = λ et. none; handle_event_route = some event_route }

abbrev empty_blob : Blob
empty_blob = record { content = []; extdata = []; ext_type = 0 }

abbrev ring : ShmMq
ring = record {
  head = 0;
  tail = 0;
  block = λ i. 0;
  blocksize = 32;
  msg_timeout = 0;
  shmkey = 0;
  shmid = 0;
  shmsize = 40;
}

ring-Queues : Queues ring []
ring-Queues = record {
  small = omega arith;
  head_in = omega arith;
  tail_in = omega arith;
  room = omega arith;
  ends = inl (omega arith);
  bytes = λ k h. absurd (omega arith);
  sendable = tt;
}

abbrev group : TShmCommu
group = record {
  producer = ring;
  comsumer = ring;
  buff = [];
  expiretime = 0;
  lastchecktime = 0;
  expiremap = [];
}

abbrev groups : List TShmCommu
groups = group ∷ group ∷ []

abbrev no_messages : List (List Message)
no_messages = [] ∷ [] ∷ []

queues : AllQueues groups no_messages
queues = (ring-Queues, (ring-Queues, tt))

msgtype_small : (et : EventType) → msgtype_of et < 2 ^ 8
msgtype_small et_connected = omega arith
msgtype_small et_overload = omega arith
msgtype_small et_timeout = omega arith
msgtype_small et_disconnect = omega arith

notice-Fits :
    (et : EventType) (i : ℕ)
    → IsSendable (message (notice 9 plugin empty_blob et) 9 (msgtype_of et) (clock i))
notice-Fits et i = record {
  sec_fits = omega arith;
  usec_fits = omega arith;
  total_fits = omega arith;
  flow_fits = omega arith;
  msgtype_fits = msgtype_small et;
  ext_len_fits = omega arith;
}

-- For an address that is not on the black list.
callbacks-Tells_example :
    (let Says =
        Tells
          (λ cb. true)
          clock
          9
          plugin
          empty_blob
          groups
          no_messages
          queues
          event_route
          refl
          notice-Fits in
      Says et_overload (ator_overload (λ cb. true) clock 9 plugin empty_blob groups).0
      × Says et_timeout (ator_timeout (λ cb. true) clock 9 plugin empty_blob groups).0
      × Says et_disconnect (ator_disconn (λ cb. true) clock 9 plugin empty_blob groups).0
      × (let (ctor', b, ret) =
            ator_connected (λ cb. true) clock 9 plugin empty_blob groups 2 (77 ∷ []) 78 in
          Says et_connected ctor' × (ret ≡ pos 0)))
unfolding limited
callbacks-Tells_example =
    callbacks-Tells (λ cb. true) clock 9 plugin empty_blob groups no_messages queues event_route
      refl notice-Fits 2 (77 ∷ []) 78 refl

-- The proxy's callback for a connection alone, with the address 77 on the black list.
abbrev func : Callback → ℕ → SockCommu → SockCommu × ℤ
func cb_connected flow c = (
  c,
  (ator_connected (λ cb. true) clock flow plugin empty_blob (group ∷ []) 2 (77 ∷ [])
      (remoteip_of 0 c.buff_blob.extdata)).2,
)
func cb flow c = (c, pos 0)

abbrev funcs : FuncList
funcs = record { registered = λ cb. true; func = func }

abbrev commu : SockCommu
commu = record {
  sockbind = λ i. if i == 3 then record unused { type = 1 } else unused;
  maxbindfd = 3;
  expiretime = 60;
  check_expire_interval = 10;
  lastchecktime = 180;
  flow = 6;
  buff_blob = no_data;
  extinfo = no_info;
  connset = create 4;
  interest = λ i. none;
}

abbrev client : Ipport
client = record { ip = 77; port = 4000 }

abbrev accepts : AcceptAnswers
accepts = record {
  waits = 0;
  accepted = some 31;
  peer = some client;
  nonblock = true;
  now = 200;
  added = value 0;
}

handle_accepted-barred_example :
    (let c' = handle_accepted funcs 3 31 accepts commu in
      (c'.connset ≡ create 4) × (c'.interest 31 ≡ none))
handle_accepted-barred_example =
    handle_accepted-barred (λ cb. true) clock plugin 2 (77 ∷ []) 0 funcs refl (λ flow c. refl)
      (λ c. empty_blob) (λ c. group ∷ []) (λ flow c. refl) 3 31 accepts client commu refl refl
      (inr (refl, refl))
