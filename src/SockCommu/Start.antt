-- ===== src/SockCommu/Start.antt =====
-- `init` and `InitExt` of CTSockCommu (sockcommu.cpp), where the asserted conditions hold.
use spp_server_frame_work.Base.{
  ℕ, zero, suc, ◌+◌, Bool, not, ◌||◌, List, [], ◌∷◌, Option, none, some, ltb, ◌==◌, if◌then◌else◌,
}
use spp_server_frame_work.ConnSet.{create}
use spp_server_frame_work.PollFlow.{value}
use spp_server_frame_work.SockCommu.State.{
  is_zero, ℤ, pos, negsuc, SockBind, ConnExtInfo, sock_type_tcp, sock_type_udp, no_data, epollin,
  SockCommu, epoll_ctl,
}

abbrev pub sock_type_unix : ℕ
sock_type_unix = 4

abbrev pub sock_max_bind : ℕ
sock_max_bind = 100

pub record SockCommuConf : Type 0 where
  pub sockbind : List SockBind
  pub maxconn : ℕ
  pub expiretime : ℕ
  pub check_expire_interval : ℕ

abbrev pub unused : SockBind
unused = record { type = 0; ipport = record { ip = 0; port = 0 }; path = [] }

-- What socket(2), fcntl, bind and listen answer: a descriptor or a failure, and whether they succeed.
pub record SockAnswers : Type 0 where
  pub created : Option ℕ
  pub nonblock : ℤ
  pub bound : ℤ
  pub listened : Bool

-- `create_sock` for a type.
unfoldable pub create_sock : SockAnswers → ℤ
create_sock a = elim a.created [
  | none ↦ negsuc 0
  | some fd ↦ if is_zero a.nonblock then pos fd else a.nonblock
]

-- `create_sock` for a socket that listens.
unfoldable pub create_listening : SockBind → SockAnswers → ℤ
create_listening s a = elim a.created [
  | none ↦ negsuc 0
  | some fd ↦
      if not (is_zero a.nonblock)
      then a.nonblock
      else if not (is_zero a.bound)
      then a.bound
      else if s.type == sock_type_udp
      then pos fd
      else if a.listened
      then pos fd
      else negsuc 0
]

-- The first loop of `init`, over the entries up to one of type 0, of which there are at most
-- SOCK_MAX_BIND, with the answers for each. `none` where the assertion on the descriptor fails.
unfoldable pub bind_all :
    List SockBind → List SockAnswers → (ℕ → SockBind) × ℕ → Option ((ℕ → SockBind) × ℕ)
bind_all [] answers acc = some acc
bind_all (s ∷ ss) [] acc = some acc
bind_all (s ∷ ss) (a ∷ answers) (sockbind, maxbindfd) =
    let bound : Option ((ℕ → SockBind) × ℕ) = elim (create_listening s a) [
      | negsuc n ↦ none
      | pos fd ↦
          (let rest = bind_all ss answers (
            λ i. if i == fd then s else sockbind i,
            if ltb maxbindfd fd then fd else maxbindfd,
          ) in
            if ltb fd sock_max_bind then rest else none)
    ] in
    if s.type == 0 then some (sockbind, maxbindfd) else bound

-- The second loop, from `i` on with the rounds left: the kernel reports what is ready to be read.
unfoldable pub listen_all : ℕ → ℕ → SockCommu → SockCommu
listen_all zero i c = c
listen_all (suc n) i c =
    let t = (c.sockbind i).type in
    let used = t == sock_type_tcp || (t == sock_type_unix || (t == sock_type_udp)) in
    listen_all n (i + 1) (if used then epoll_ctl i 0 epollin (value 0) c else c)

abbrev pub no_info : ConnExtInfo
no_info = record { fd = 0; type = 0; localip = 0; localport = 0; remoteip = 0; remoteport = 0 }

-- What `init` sets before it listens.
abbrev pub started : SockCommuConf → ℕ → (ℕ → SockBind) × ℕ → SockCommu
started conf now (sockbind, maxbindfd) = record {
  sockbind = sockbind;
  maxbindfd = maxbindfd;
  expiretime = conf.expiretime;
  check_expire_interval = conf.check_expire_interval;
  lastchecktime = now;
  flow = 0;
  buff_blob = no_data;
  extinfo = no_info;
  connset = create conf.maxconn;
  interest = λ i. none;
}

unfoldable pub opened : SockCommuConf → ℕ → Option ((ℕ → SockBind) × ℕ) → Option SockCommu
opened conf now none = none
opened conf now (some bound) = some (listen_all (bound.1 + 1) 0 (started conf now bound))

-- The kernel takes every descriptor; it knows none of the old ones, which `fini` has closed.
unfoldable pub init : SockCommuConf → List SockAnswers → ℕ → Option SockCommu
init conf answers now = opened conf now (bind_all conf.sockbind answers (λ i. unused, 0))

-- `InitExt` keeps `sockbind_`, which nothing looks at but entry 0, and `extinfo_`.
unfoldable pub init_ext : ℕ → ℕ → ℕ → ℕ → SockCommu → SockCommu
init_ext max_conn expiretime check_expire_interval now c = record c {
  maxbindfd = 0;
  expiretime = expiretime;
  check_expire_interval = check_expire_interval;
  lastchecktime = now;
  flow = 0;
  buff_blob = no_data;
  connset = create max_conn;
  interest = λ i. none;
}
