-- ===== src/SockCommu/Waits.antt =====
-- What CTSockCommu::sendto (sockcommu.cpp) keeps of its bytes is waited for.
use spp_server_frame_work.Base.{
  ℕ, ◌+◌, ◌<◌, ◌≡◌, ◌≢◌, ◌⊎◌, inl, inr, refl, sym, ap, ◌∙◌, subst, false, List, [], some, ltb, ◌==◌,
  length, arith, ==-refl, ==-eq_false, if-cases, not_ltb→le,
}
use spp_server_frame_work.ConnSet.{
  ConnSet, Result, not_findfd, need_close, again, need_send, done, getcc, udp_socket, send,
}
use spp_server_frame_work.ConnSet.Stream.{kept}
use spp_server_frame_work.ConnSet.Output.{Tells, send-Tells, send-Same}
use spp_server_frame_work.PollFlow.{value, ctl}
use spp_server_frame_work.SockCommu.State.{
  ℤ, Callback, conn_info, cb_senddone, epollin, epollout, epollet, SockCommu, FuncList, call,
  epoll_ctl,
}
use spp_server_frame_work.SockCommu.Send.{
  SendAnswers, wait_for, after_send, sent, sendto, report_done, sent_info,
}
use spp_server_frame_work.SockCommu.Expire.{IsQuiet}

-- Bytes that are kept are waited for: the kernel is to report when the descriptor can be written.
abbrev pub Waits : ℕ → ℕ → SockCommu → Result → Type 0
Waits flow m c (done n) =
    (kept c.connset flow ≡ [])
    ⊎ (c.interest (getcc c.connset flow).fd
        ≡ some ((ctl (getcc c.connset flow).fd flow (epollet + epollin + epollout) (value m) 0).0))
Waits flow m c ret = Unit {0}

call-connset :
    (funcs : FuncList) (cb : Callback) (flow : ℕ) (prepared c : SockCommu)
    → IsQuiet funcs cb
    → prepared.connset ≡ c.connset
    → (call funcs cb flow prepared c).0.connset ≡ c.connset
unfolding call
call-connset funcs cb flow prepared c quiet e =
    if-cases (λ (r : SockCommu × ℤ). r.0.connset ≡ c.connset) (funcs.registered cb)
      (funcs.func cb flow prepared) (c, ℤ.pos 0) (λ _. quiet flow prepared ∙ e) (λ _. refl)

sent_info-connset :
    (flow : ℕ) (a : SendAnswers) (c : SockCommu) → (sent_info flow a c).connset ≡ c.connset
unfolding sent_info conn_info
sent_info-connset flow a c = ground arith

module _ (flow m : ℕ) (a : SendAnswers) (taken : a.modified ≡ value m) (events : ℕ) where
  wait_for_lem :
      (c : SockCommu)
      → (getcc c.connset flow).type ≢ udp_socket
      → wait_for flow events a.modified c
        ≡ epoll_ctl (getcc c.connset flow).fd flow events (value m) c
  unfolding wait_for
  wait_for_lem c stream =
      let t = (getcc c.connset flow).type in rw (==-eq_false t udp_socket stream, taken) refl

  wait_for-connset :
      (c : SockCommu)
      → (getcc c.connset flow).type ≢ udp_socket
      → (wait_for flow events a.modified c).connset ≡ c.connset
  unfolding epoll_ctl
  wait_for-connset c stream = ap (λ (d : SockCommu). d.connset) (wait_for_lem c stream)

  wait_for-interest :
      (c : SockCommu)
      → (getcc c.connset flow).type ≢ udp_socket
      → (let fd = (getcc c.connset flow).fd in
          (wait_for flow events a.modified c).interest fd
          ≡ some ((ctl fd flow events (value m) 0).0))
  unfolding epoll_ctl
  wait_for-interest c stream =
      let fd = (getcc c.connset flow).fd in
      ap (λ (d : SockCommu). d.interest fd) (wait_for_lem c stream) ∙ rw (==-refl fd) refl

module _ (funcs : FuncList) (quiet : IsQuiet funcs cb_senddone) (flow m : ℕ) (content : List ℕ)
    (a : SendAnswers) (taken : a.modified ≡ value m) where
  report_done-connset : (c : SockCommu) → (report_done funcs flow content a c).connset ≡ c.connset
  unfolding report_done
  report_done-connset c = call-connset funcs cb_senddone flow _ c quiet (sent_info-connset flow a c)

  after_send-Waits :
      (c : SockCommu) (n : ℕ)
      → (getcc c.connset flow).type ≢ udp_socket
      → (n < length content) ⊎ (kept c.connset flow ≡ [])
      → Waits flow m (after_send funcs flow content a c n) (done n)
  unfolding after_send
  after_send-Waits c n stream tells =
      let more = epollet + epollin + epollout in
      let reported = report_done funcs flow content a c in
      let told = report_done-connset c in
      let stream' : (getcc reported.connset flow).type ≢ udp_socket =
        λ e. stream (ap (λ s. (getcc s flow).type) (sym told) ∙ e) in
      if-cases (λ d. Waits flow m d (done n)) (ltb n (length content))
        (wait_for flow more a.modified c) (wait_for flow (epollin + epollet) a.modified reported)
        (λ _.
          let same = wait_for-connset flow m a taken more c stream in
          inr (
            subst
              (λ s.
                (wait_for flow more a.modified c).interest (getcc s flow).fd
                ≡ some ((ctl (getcc s flow).fd flow more (value m) 0).0))
              (sym same) (wait_for-interest flow m a taken more c stream)))
        (λ all. elim tells [
          | inl less ↦ absurd (omega (arith, not_ltb→le n (length content) all))
          | inr none ↦ inl (
              ap (λ s. kept s flow)
                (wait_for-connset flow m a taken (epollin + epollet) reported stream' ∙ told)
              ∙ none)
        ])

  sent-Waits :
      (c : SockCommu) (r : ConnSet × Result × List ℕ)
      → (getcc r.0 flow).type ≢ udp_socket
      → Tells flow content r
      → Waits flow m (sent funcs flow content a (record c { connset = r.0 }) r.1) r.1
  unfolding sent
  sent-Waits c (s, done n, gone) stream tells =
      after_send-Waits (record c { connset = s }) n stream tells
  sent-Waits c (s, not_findfd, gone) stream tells = tt
  sent-Waits c (s, need_close, gone) stream tells = tt
  sent-Waits c (s, again, gone) stream tells = tt
  sent-Waits c (s, need_send, gone) stream tells = tt

  -- With a SENDDONE callback that leaves the connections alone, a connection that is no datagram's, bytes
  -- to send and a kernel that takes the change: if sendto succeeds, nothing is kept, or the kernel is to
  -- report when the descriptor can be written.
  pub sendto-Waits :
      (c : SockCommu)
      → (getcc c.connset flow).type ≢ udp_socket
      → 0 < length content
      → (let (c', ret) = sendto funcs flow content a c in Waits flow m c' ret)
  unfolding sendto
  sendto-Waits c stream some_bytes =
      let r = send c.connset flow content a.now a.first a.second in
      let (kind, _, _) = send-Same c.connset flow content a.now a.first a.second in
      let none : (length content == 0) ≡ false =
        ==-eq_false (length content) 0 (λ z. omega arith) in
      rw none (
        sent-Waits c r (λ e. stream (sym kind ∙ e))
          (send-Tells c.connset flow content a.now a.first a.second some_bytes))
