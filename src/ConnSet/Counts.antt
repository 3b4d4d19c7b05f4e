-- ===== src/ConnSet/Counts.antt =====
-- How many connections are in the slots of CConnSet (connset.cpp).
use spp_server_frame_work.Base.{
  ℕ, zero, suc, ◌+◌, ◌%◌, ◌<◌, ◌≤◌, ◌≡◌, ◌≢◌, inl, inr, refl, ap, false, List, [], ◌∷◌, Option,
  none, some, ◌==◌, if◌then◌else◌, arith, Bool-cases, ==-refl, ==-eq_false, ℕ_discrete,
}
use spp_server_frame_work.ConnSet.{
  Ipport, ConnCache, ConnSet, Answer, create, getcc, set_cc, addconn, choose_flow, is_conn, recv,
  send, sendfromcache, closeconn,
}
use spp_server_frame_work.ConnSet.Flows.{added, choose_flow-free, is_conn_lem}
use spp_server_frame_work.ConnSet.Slots.{
  Slots, set_cc-InPlace, same_flow-Slots, create-Slots, recv-stable, send-stable,
  sendfromcache-stable,
}

-- How many of the first slots have a connection.
abbrev in_use : ConnCache → ℕ
in_use cc = if cc.flow == 0 then 0 else 1

pub used : (ℕ → ConnCache) → ℕ → ℕ
used ccs zero = 0
used ccs (suc n) = used ccs n + in_use (ccs n)

used-le : (ccs : ℕ → ConnCache) (n : ℕ) → used ccs n ≤ n
unfolding used
used-le ccs zero = omega arith
used-le ccs (suc n) = ground (arith, used-le ccs n)

abbrev updated : (ℕ → ConnCache) → ℕ → ConnCache → ℕ → ConnCache
updated ccs j cc i = if i == j then cc else ccs i

used-above :
    (ccs : ℕ → ConnCache) (j : ℕ) (cc : ConnCache) (n : ℕ)
    → n ≤ j
    → used (updated ccs j cc) n ≡ used ccs n
unfolding used
used-above ccs j cc zero l = refl
used-above ccs j cc (suc n) l =
    let other : (n == j) ≡ false = ==-eq_false n j (λ e. omega arith) in
    rw (other, used-above ccs j cc n (omega arith)) refl

used-updated :
    (ccs : ℕ → ConnCache) (j : ℕ) (cc : ConnCache) (n : ℕ)
    → j < n
    → used (updated ccs j cc) n + in_use (ccs j) ≡ used ccs n + in_use cc
unfolding used
used-updated ccs j cc zero l = absurd (omega arith)
used-updated ccs j cc (suc n) l = elim (ℕ_discrete n j) [
  | yes e ↦ rw (e, ==-refl j) (omega (arith, used-above ccs j cc j (omega arith)))
  | no ne ↦ rw (==-eq_false n j ne) (omega (arith, used-updated ccs j cc n (omega arith)))
]

-- As many slots are in use as connections are counted.
abbrev pub Counted : ConnSet → Type 0
Counted s = used s.ccs s.maxconn ≡ s.curconn

set_cc-used :
    (s : ConnSet) (flow : ℕ) (cc : ConnCache)
    → Slots s
    → used (set_cc s flow cc).ccs s.maxconn + in_use (getcc s flow)
      ≡ used s.ccs s.maxconn + in_use cc
unfolding set_cc getcc
set_cc-used s flow cc (p, h) = used-updated s.ccs (flow % s.maxconn) cc s.maxconn (grind arith)

-- Both properties.
abbrev pub Sound : ConnSet → Type 0
Sound s = Slots s × Counted s

-- A change that leaves the flow of the slot.
same_flow-Sound :
    (s : ConnSet) (flow : ℕ) (cc : ConnCache)
    → Sound s
    → cc.flow ≡ (getcc s flow).flow
    → Sound (set_cc s flow cc)
unfolding set_cc
same_flow-Sound s flow cc (p, n) e = (
  same_flow-Slots s flow cc p e,
  (let h = set_cc-used s flow cc p in
      let same : in_use cc ≡ in_use (getcc s flow) = rw e refl in omega arith),
)

none_used : (maxconn n : ℕ) → used (create maxconn).ccs n ≡ 0
unfolding create used
none_used maxconn zero = refl
none_used maxconn (suc n) = ap (λ k. k + 0) (none_used maxconn n)

create-Sound : (maxconn : ℕ) → 0 < maxconn → Sound (create maxconn)
unfolding create
create-Sound maxconn h = (create-Slots maxconn h, none_used maxconn maxconn)

-- A connection is closed: one less.
closeconn-Sound : (s : ConnSet) (flow : ℕ) → Sound s → Sound (closeconn s flow).0
unfolding closeconn set_cc
closeconn-Sound s flow (p, n) = elim (Bool-cases (is_conn s flow)) [
  | inl conn ↦
      (let cc = record (getcc s flow) { flow = 0; access = 0; type = 0; r = []; w = [] } in
        let (number, nz) = is_conn_lem s flow conn in
        let one : in_use (getcc s flow) ≡ 1 = rw (number, ==-eq_false flow 0 nz) refl in
        rw conn (set_cc-InPlace s flow cc p (inl refl), omega (arith, set_cc-used s flow cc p)))
  | inr no_conn ↦ rw no_conn (p, n)
]

-- A new connection in a free slot, with a flow other than 0: one more.
added-Sound :
    (s : ConnSet) (fd type now : ℕ) (chosen : Option ℕ)
    → Sound s
    → ((f : ℕ) → chosen ≡ some f → (getcc s f).flow ≡ 0)
    → (added s fd type now chosen).1 ≢ some 0
    → Sound (added s fd type now chosen).0
unfolding set_cc
added-Sound s fd type now none h free fresh = h
added-Sound s fd type now (some f) (p, n) free fresh =
    let cc = record (getcc s f) { flow = f; fd = fd; access = now; type = type } in
    let was : in_use (getcc s f) ≡ 0 = rw (free f refl) refl in
    let is : in_use cc ≡ 1 = rw (==-eq_false f 0 (λ e. fresh (ap some e))) refl in
    (set_cc-InPlace s f cc p (inr refl), omega (arith, set_cc-used s f cc p))

pub addconn-Sound :
    (s : ConnSet) (flow fd type now : ℕ)
    → Sound s
    → (addconn s flow fd type now).1 ≢ some 0
    → Sound (addconn s flow fd type now).0
unfolding addconn
addconn-Sound s flow fd type now h fresh =
    added-Sound s fd type now (choose_flow s flow) h (λ f. choose_flow-free s flow f) fresh

-- The calls of a connection set, with what the clock and the sockets answer.
pub data Call : Type 0 where
  adds : ℕ → ℕ → ℕ → ℕ → Call
  receives : ℕ → ℕ → Answer → List ℕ → Ipport → Call
  sends : ℕ → List ℕ → ℕ → Answer → Answer → Call
  sends_cached : ℕ → ℕ → Answer → Call
  closes : ℕ → Call

abbrev pub after : ConnSet → Call → ConnSet
after s (adds flow fd type now) = (addconn s flow fd type now).0
after s (receives flow now answer bytes sender) = (recv s flow now answer bytes sender).0
after s (sends flow bytes now first second) = (send s flow bytes now first second).0
after s (sends_cached flow now answer) = (sendfromcache s flow now answer).0
after s (closes flow) = (closeconn s flow).0

-- The number of the new connection is not 0, which it is only where it wraps round.
abbrev pub IsNumbered : ConnSet → Call → Type 0
IsNumbered s (adds flow fd type now) = (addconn s flow fd type now).1 ≢ some 0
IsNumbered s _ = Unit {0}

abbrev pub run : ConnSet → List Call → ConnSet
run s [] = s
run s (c ∷ cs) = run (after s c) cs

abbrev pub AllNumbered : ConnSet → List Call → Type 0
AllNumbered s [] = Unit {0}
AllNumbered s (c ∷ cs) = IsNumbered s c × AllNumbered (after s c) cs

after-Sound : (s : ConnSet) (c : Call) → IsNumbered s c → Sound s → Sound (after s c)
after-Sound s (adds flow fd type now) fresh h = addconn-Sound s flow fd type now h fresh
after-Sound s (receives flow now answer bytes sender) fresh h =
    recv-stable Sound same_flow-Sound s flow now answer bytes sender h
after-Sound s (sends flow bytes now first second) fresh h =
    send-stable Sound same_flow-Sound s flow bytes now first second h
after-Sound s (sends_cached flow now answer) fresh h =
    sendfromcache-stable Sound same_flow-Sound s flow now answer h
after-Sound s (closes flow) fresh h = closeconn-Sound s flow h

run-Sound_from : (s : ConnSet) (cs : List Call) → AllNumbered s cs → Sound s → Sound (run s cs)
run-Sound_from s [] fresh h = h
run-Sound_from s (c ∷ cs) (f, fs) h = run-Sound_from (after s c) cs fs (after-Sound s c f h)

-- After any calls on a new set with room for a connection, where no connection gets the number 0: every
-- connection is in the slot of its flow, and the set counts the slots in use, which are at most all.
pub run-Sound :
    (maxconn : ℕ) (cs : List Call)
    → 0 < maxconn
    → AllNumbered (create maxconn) cs
    → (let s = run (create maxconn) cs in Sound s × (s.curconn ≤ s.maxconn))
run-Sound maxconn cs h fresh =
    let s = run (create maxconn) cs in
    let sound = run-Sound_from (create maxconn) cs fresh (create-Sound maxconn h) in
    (sound, omega (arith, used-le s.ccs s.maxconn, sound.1))
