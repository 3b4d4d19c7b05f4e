-- ===== src/ConnSet/Slots.antt =====
-- Which slot of CConnSet (connset.cpp) a connection is in.
use spp_server_frame_work.Base.{
  ℕ, ◌%◌, ◌<◌, ◌≡◌, ◌⊎◌, inl, inr, refl, ◌&&◌, List, [], ◌++◌, Option, none, some, ◌==◌,
  if◌then◌else◌, drop, arith, Bool-cases, ==_iff,
}
use spp_server_frame_work.ConnSet.{
  Ipport, ConnCache, ConnSet, Answer, udp_socket, create, getcc, set_cc, addconn, choose_flow,
  is_conn, touch, set_w, recv, send, sendfromcache, closeconn, is_ok, sent_len,
}
use spp_server_frame_work.ConnSet.Flows.{added}

-- Every connection is in the slot of its flow.
abbrev pub InPlace : ℕ → (ℕ → ConnCache) → Type 0
InPlace maxconn ccs = (i : ℕ) → i < maxconn → ((ccs i).flow ≡ 0) ⊎ ((ccs i).flow % maxconn ≡ i)

abbrev pub Slots : ConnSet → Type 0
Slots s = (0 < s.maxconn) × InPlace s.maxconn s.ccs

-- A connection for the slot of `flow`.
abbrev pub Fits : ConnSet → ℕ → ConnCache → Type 0
Fits s flow cc = (cc.flow ≡ 0) ⊎ (cc.flow % s.maxconn ≡ flow % s.maxconn)

getcc-Fits : (s : ConnSet) (flow : ℕ) → Slots s → Fits s flow (getcc s flow)
unfolding getcc
getcc-Fits s flow (p, h) = h (flow % s.maxconn) (grind arith)

pub set_cc-InPlace :
    (s : ConnSet) (flow : ℕ) (cc : ConnCache) → Slots s → Fits s flow cc → Slots (set_cc s flow cc)
unfolding set_cc
set_cc-InPlace s flow cc (p, h) f = (
  p,
  λ i l. elim (Bool-cases (i == flow % s.maxconn)) [
    | inl e ↦ rw e (rw ((==_iff i (flow % s.maxconn)).0 e) f)
    | inr e ↦ rw e (h i l)
  ],
)

pub same_flow-Slots :
    (s : ConnSet) (flow : ℕ) (cc : ConnCache)
    → Slots s
    → cc.flow ≡ (getcc s flow).flow
    → Slots (set_cc s flow cc)
same_flow-Slots s flow cc p e = set_cc-InPlace s flow cc p (rw e (getcc-Fits s flow p))

pub create-Slots : (maxconn : ℕ) → 0 < maxconn → Slots (create maxconn)
unfolding create
create-Slots maxconn h = (h, λ i l. inl refl)

-- A property that a change of a slot keeps if it leaves the flow there.
abbrev pub IsStable : (ConnSet → Type 0) → Type 0
IsStable P =
    (s : ConnSet) (flow : ℕ) (cc : ConnCache)
    → P s
    → cc.flow ≡ (getcc s flow).flow
    → P (set_cc s flow cc)

module _ (P : ConnSet → Type 0) (stable : IsStable P) where
  touch-stable : (s : ConnSet) (flow now : ℕ) → P s → P (touch s flow now)
  unfolding touch
  touch-stable s flow now h = stable s flow _ h refl

  set_w-stable : (s : ConnSet) (flow : ℕ) (l : List ℕ) → P s → P (set_w s flow l)
  unfolding set_w
  set_w-stable s flow l h = stable s flow _ h refl

  pub recv-stable :
      (s : ConnSet) (flow now : ℕ) (answer : Answer) (bytes : List ℕ) (sender : Ipport)
      → P s
      → P (recv s flow now answer bytes sender).0
  unfolding recv
  recv-stable s flow now answer bytes sender h =
      let s1 = touch s flow now in
      let h1 = touch-stable s flow now h in
      let cc = getcc s1 flow in
      let is_udp = cc.type == udp_socket in
      let from = if is_udp && is_ok answer then sender else cc.addr in
      ground (
        arith,
        h1,
        stable s1 flow (record cc { addr = from }) h1 refl,
        stable s1 flow (record cc { addr = from; r = cc.r ++ bytes }) h1 refl,
      )

  pub send-stable :
      (s : ConnSet) (flow : ℕ) (bytes : List ℕ) (now : ℕ) (first second : Answer)
      → P s
      → P (send s flow bytes now first second).0
  unfolding send
  send-stable s flow bytes now first second h =
      let s1 = touch s flow now in
      let h1 = touch-stable s flow now h in
      let w = (getcc s1 flow).w in
      ground (
        arith,
        h1,
        set_w-stable s1 flow [] h1,
        set_w-stable s1 flow (drop (sent_len first) w ++ bytes) h1,
        set_w-stable s1 flow (drop (sent_len second) bytes) h1,
      )

  pub sendfromcache-stable :
      (s : ConnSet) (flow now : ℕ) (answer : Answer) → P s → P (sendfromcache s flow now answer).0
  unfolding sendfromcache
  sendfromcache-stable s flow now answer h =
      let s1 = touch s flow now in
      let h1 = touch-stable s flow now h in
      ground (arith, h1, set_w-stable s1 flow (drop (sent_len answer) (getcc s1 flow).w) h1)

pub recv-Slots :
    (s : ConnSet) (flow now : ℕ) (answer : Answer) (bytes : List ℕ) (sender : Ipport)
    → Slots s
    → Slots (recv s flow now answer bytes sender).0
recv-Slots = recv-stable Slots same_flow-Slots

pub send-Slots :
    (s : ConnSet) (flow : ℕ) (bytes : List ℕ) (now : ℕ) (first second : Answer)
    → Slots s
    → Slots (send s flow bytes now first second).0
send-Slots = send-stable Slots same_flow-Slots

pub sendfromcache-Slots :
    (s : ConnSet) (flow now : ℕ) (answer : Answer)
    → Slots s
    → Slots (sendfromcache s flow now answer).0
sendfromcache-Slots = sendfromcache-stable Slots same_flow-Slots

pub closeconn-Slots : (s : ConnSet) (flow : ℕ) → Slots s → Slots (closeconn s flow).0
unfolding closeconn
closeconn-Slots s flow p = elim (Bool-cases (is_conn s flow)) [
  | inl conn ↦ rw conn (set_cc-InPlace s flow _ p (inl refl))
  | inr no_conn ↦ rw no_conn p
]

added-Slots :
    (s : ConnSet) (fd type now : ℕ) (chosen : Option ℕ)
    → Slots s
    → Slots (added s fd type now chosen).0
unfolding set_cc
added-Slots s fd type now none p = p
added-Slots s fd type now (some f) p = set_cc-InPlace s f _ p (inr refl)

pub addconn-Slots :
    (s : ConnSet) (flow fd type now : ℕ) → Slots s → Slots (addconn s flow fd type now).0
unfolding addconn
addconn-Slots s flow fd type now = added-Slots s fd type now (choose_flow s flow)
