-- ===== src/Proxy/Limits.antt =====
-- A client that the address limits of the proxy bar (ator_connected of defaultproxy.cpp), and the
-- socket that it comes from (handle_accept of sockcommu.cpp).
use spp_server_frame_work.Base.{
  inl, inr, subst, ℕ, ◌≡◌, ◌⊎◌, refl, sym, ◌∙◌, Bool, true, false, List, none, some, ==-refl,
}
use spp_server_frame_work.Delay.{Timeval}
use spp_server_frame_work.ConnSet.{Ipport}
use spp_server_frame_work.ShmMq.{Blob}
use spp_server_frame_work.TShmCommu
use spp_server_frame_work.TShmCommu.{TShmCommu}
use spp_server_frame_work.SockCommu.State.{
  negsuc, sock_type_tcp, ExtData, no_ext, conn_ext, node_ext, cb_connected, SockCommu, FuncList,
  call, is_zero, next_flow, close_fd,
}
use spp_server_frame_work.SockCommu.Accept.{AcceptAnswers, announced, handle_accepted}
use spp_server_frame_work.SockCommu.Expire.{IsQuiet}
use spp_server_frame_work.Proxy.Events.{
  EventPlugin, iplimit_white_list, iplimit_black_list, contains, limited, ator_connected,
  connected_or,
}

-- The address is not on the white list, or on the black list.
abbrev pub IsBarred : ℕ → List ℕ → ℕ → Type 0
IsBarred iplimit iptable ip =
    ((iplimit ≡ iplimit_white_list) × (contains iptable ip ≡ false))
    ⊎ ((iplimit ≡ iplimit_black_list) × (contains iptable ip ≡ true))

-- The address in the data of a blob; `stale` is what lies there if it is not a connection's.
abbrev pub remoteip_of : ℕ → ExtData → ℕ
remoteip_of stale (conn_ext info) = info.remoteip
remoteip_of stale no_ext = stale
remoteip_of stale (node_ext node) = stale

limited-barred :
    (iplimit : ℕ) (iptable : List ℕ) (ip : ℕ)
    → IsBarred iplimit iptable ip
    → (k : ℕ) × (limited iplimit iptable ip ≡ negsuc k)
unfolding limited
limited-barred iplimit iptable ip (inl (white, h)) = (0, rw (white, h) refl)
limited-barred iplimit iptable ip (inr (black, h)) = (1, rw (black, h) refl)

module _ (registered : TShmCommu.Callback → Bool) (clock : ℕ → Timeval) (plugin : EventPlugin)
    (iplimit : ℕ) (iptable : List ℕ) (stale : ℕ) (funcs : FuncList)
    (is_registered : funcs.registered cb_connected ≡ true) (quiet : IsQuiet funcs cb_connected)
    (blob_of : SockCommu → Blob) (ctor_of : SockCommu → List TShmCommu)
    (is_proxy : (flow : ℕ) (c : SockCommu)
      → (funcs.func cb_connected flow c).1
        ≡ (ator_connected registered clock flow plugin
            (blob_of c)
            (ctor_of c)
            iplimit
            iptable
            (remoteip_of stale c.buff_blob.extdata)).2) where
  ator_connected-barred :
      (flow ip : ℕ) (blob : Blob) (ctor : List TShmCommu)
      → IsBarred iplimit iptable ip
      → is_zero (ator_connected registered clock flow plugin blob ctor iplimit iptable ip).2 ≡ false
  unfolding ator_connected connected_or
  ator_connected-barred flow ip blob ctor barred =
      let (k, e) = limited-barred iplimit iptable ip barred in rw e refl

  -- Where CB_CONNECTED is registered, leaves the connections alone and returns what ator_connected does:
  -- a TCP client whose address is not on the white list, or on the black list, is not admitted; the
  -- connections stay as they are and the new descriptor is closed.
  pub handle_accepted-barred :
      (fd clifd : ℕ) (a : AcceptAnswers) (p : Ipport) (c : SockCommu)
      → (c.sockbind fd).type ≡ sock_type_tcp
      → a.peer ≡ some p
      → IsBarred iplimit iptable p.ip
      → (let c' = handle_accepted funcs fd clifd a c in
          (c'.connset ≡ c.connset) × (c'.interest clifd ≡ none))
  unfolding handle_accepted announced close_fd next_flow call
  handle_accepted-barred fd clifd a p c tcp peer barred =
      let c1 = announced fd clifd a.peer (next_flow c) in
      let f = (next_flow c).flow in
      let ip : remoteip_of stale (c1.buff_blob).extdata ≡ p.ip = rw (tcp, peer) refl in
      let denied : is_zero (funcs.func cb_connected f c1).1 ≡ false = rw (is_proxy f c1) (
        ator_connected-barred f (remoteip_of stale (c1.buff_blob).extdata) (blob_of c1) (ctor_of c1)
          (subst (IsBarred iplimit iptable) (sym ip) barred)) in
      let same : c1.connset ≡ c.connset = rw tcp refl in
      rw (is_registered, denied) (quiet f c1 ∙ same, rw (==-refl clifd) refl)
