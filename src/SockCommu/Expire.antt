-- ===== src/SockCommu/Expire.antt =====
-- What `check_expire` of CTSockCommu (sockcommu.cpp) leaves of the connections.
use spp_server_frame_work.Base.{
  if-cases, if◌then◌else◌, ℕ, ◌+◌, ◌-◌, ◌<◌, ◌≡◌, ◌≢◌, refl, sym, ap, ◌∙◌, subst, ◌&&◌, List, [],
  ◌∷◌, ltb, arith, lt→ltb, ==-eq_false,
}
use spp_server_frame_work.ConnSet.{ConnSet}
use spp_server_frame_work.ConnSet
use spp_server_frame_work.ConnSet.Slots.{Slots}
use spp_server_frame_work.ConnSet.Expiry.{close_all, Fate, close_all-check_expire}
use spp_server_frame_work.SockCommu.State.{
  Callback, cb_timeout, SockCommu, FuncList, no_data, call, close_fd, closeconn,
}
use spp_server_frame_work.SockCommu.Receive.{close_expired, check_expire}

pub closeconn-connset :
    (flow : ℕ) (c : SockCommu) → (closeconn flow c).connset ≡ (ConnSet.closeconn c.connset flow).0
unfolding closeconn close_fd
closeconn-connset flow c = ground arith

-- A callback that leaves the connections alone.
abbrev pub IsQuiet : FuncList → Callback → Type 0
IsQuiet funcs cb = (flow : ℕ) (c : SockCommu) → (funcs.func cb flow c).0.connset ≡ c.connset

module _ (funcs : FuncList) (quiet : IsQuiet funcs cb_timeout) where
  called-connset :
      (flow : ℕ) (c : SockCommu) → (call funcs cb_timeout flow c c).0.connset ≡ c.connset
  unfolding call
  called-connset flow c = ground (arith, quiet flow c)

  close_expired-connset :
      (flows : List ℕ) (c : SockCommu)
      → (close_expired funcs flows c).connset ≡ close_all flows c.connset
  unfolding close_expired close_all
  close_expired-connset [] c = refl
  close_expired-connset (f ∷ fs) c =
      let c1 = closeconn f c in
      close_expired-connset fs (call funcs cb_timeout f c1 c1).0
      ∙ ap (close_all fs) (called-connset f c1 ∙ closeconn-connset f c)

  -- With callbacks for a timeout that leave the connections alone, each in the slot of its flow, an
  -- interval other than 0 and the last check longer ago: check_expire frees the slots of just the
  -- connections that have waited too long, changes no other slot, and notes the time.
  pub check_expire-Fate :
      (now i : ℕ) (c : SockCommu)
      → Slots c.connset
      → i < (c.connset).maxconn
      → c.check_expire_interval ≢ 0
      → c.lastchecktime + c.check_expire_interval < now
      → (let cc = (c.connset).ccs i in
          let c' = check_expire funcs now c in
          Fate (ltb 0 cc.flow && ltb cc.access (now - c.expiretime)) cc ((c'.connset).ccs i)
          × (c'.lastchecktime ≡ now))
  unfolding check_expire
  check_expire-Fate now i c p l on late =
      let flows = ConnSet.check_expire c.connset (now - c.expiretime) in
      let cc = (c.connset).ccs i in
      let prepared = if funcs.registered cb_timeout then record c { buff_blob = no_data } else c in
      let same : prepared.connset ≡ c.connset =
        if-cases (λ (d : SockCommu). d.connset ≡ c.connset) (funcs.registered cb_timeout)
          (record c { buff_blob = no_data }) c (λ _. refl) (λ _. refl) in
      rw
        (
          ==-eq_false c.check_expire_interval 0 on,
          lt→ltb (c.lastchecktime + c.check_expire_interval) now late,
        )
        (
          subst (λ s. Fate (ltb 0 cc.flow && ltb cc.access (now - c.expiretime)) cc (s.ccs i))
              (sym (close_expired-connset flows prepared ∙ ap (close_all flows) same))
              (close_all-check_expire c.connset (now - c.expiretime) i p l),
          refl,
        )
