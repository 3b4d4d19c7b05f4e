-- ===== src/SockCommu/Drain.antt =====
-- What CTSockCommu (sockcommu.cpp) keeps for a slow receiver goes out when its socket takes bytes.
use spp_server_frame_work.Base.{
  ℕ, zero, suc, ◌-◌, ◌≤◌, ◌≡◌, refl, sym, ap, ap₂, ◌∙◌, subst, true, false, not, ◌&&◌, List, [],
  ◌∷◌, leb, ◌==◌, length, arith,
}
use spp_server_frame_work.ConnSet.{
  Result, not_findfd, need_close, again, need_send, done, ok, is_conn, sendfromcache,
}
use spp_server_frame_work.ConnSet.Stream.{kept}
use spp_server_frame_work.ConnSet.Output.{
  IsDone, sendfromcache-Same, sendfromcache-less, is_conn-Same,
}
use spp_server_frame_work.PollFlow.{Answer, value, minus}
use spp_server_frame_work.SockCommu.State.{
  SockBind, epollin, epollout, SockCommu, FuncList, epoll_ctl,
}
use spp_server_frame_work.SockCommu.Receive.{
  Ready, cached_answered, send_cached, is_listening, handle, handle_all, fd_of, flow_of, has,
}

-- A socket that is ready for writing, and takes at least a byte.
pub record IsWritable (flow fd : ℕ) (e : Ready) : Type 0 where
  pub of_fd : fd_of e.event ≡ fd
  pub of_flow : flow_of e.event ≡ flow
  pub writable : has e.event epollout ≡ true
  pub not_readable : has e.event epollin ≡ false
  pub bytes : ℕ
  pub takes : e.sent ≡ ok (suc bytes)

abbrev pub AllWritable : ℕ → ℕ → List Ready → Type 0
AllWritable flow fd [] = Unit {0}
AllWritable flow fd (e ∷ es) = IsWritable flow fd e × AllWritable flow fd es

-- What an event for writing leaves.
abbrev Step : ℕ → SockCommu → Ready → SockCommu → Type 0
Step flow c e c' =
    (c'.connset ≡ (sendfromcache c.connset flow e.now e.sent).0)
    × (c'.sockbind ≡ c.sockbind)
    × (c'.maxbindfd ≡ c.maxbindfd)

ctl-Step :
    (fd flow flag : ℕ) (a : Answer) (c : SockCommu)
    → (let c' = epoll_ctl fd flow flag a c in
        (c'.connset ≡ c.connset) × (c'.sockbind ≡ c.sockbind) × (c'.maxbindfd ≡ c.maxbindfd))
unfolding epoll_ctl
ctl-Step fd flow flag (value n) c = (refl, refl, refl)
ctl-Step fd flow flag (minus n) c = (refl, refl, refl)

answered-Step :
    (funcs : FuncList) (flow fd : ℕ) (e : Ready) (c : SockCommu) (ret : Result)
    → IsDone ret
    → (let c' = cached_answered funcs flow fd e c ret in
        (c'.connset ≡ c.connset) × (c'.sockbind ≡ c.sockbind) × (c'.maxbindfd ≡ c.maxbindfd))
unfolding cached_answered
answered-Step funcs flow fd e c (done zero) h = ctl-Step fd flow _ e.modified c
answered-Step funcs flow fd e c (done (suc n)) h = (refl, refl, refl)
answered-Step funcs flow fd e c not_findfd h = absurd h
answered-Step funcs flow fd e c need_close h = absurd h
answered-Step funcs flow fd e c again h = absurd h
answered-Step funcs flow fd e c need_send h = absurd h

module _ (funcs : FuncList) (flow fd : ℕ) where
  handle-Step :
      (c : SockCommu) (e : Ready)
      → IsWritable flow fd e
      → is_listening c fd ≡ false
      → is_conn c.connset flow ≡ true
      → Step flow c e (handle funcs c e)
  unfolding handle send_cached
  handle-Step c e w other conn =
      let less = sendfromcache-less c.connset flow e.now w.bytes conn in
      let (s, ret, gone) = sendfromcache c.connset flow e.now e.sent in
      let succeeds : IsDone ret =
        subst (λ a. IsDone (sendfromcache c.connset flow e.now a).1) (sym w.takes) less.0 in
      rw (w.of_fd, w.of_flow, other, w.writable, w.not_readable)
        (answered-Step funcs flow fd e (record c { connset = s }) ret succeeds)

  is_listening-cong :
      (c c' : SockCommu)
      → c'.sockbind ≡ c.sockbind
      → c'.maxbindfd ≡ c.maxbindfd
      → is_listening c' fd ≡ is_listening c fd
  unfolding is_listening
  is_listening-cong c c' b m = ap₂ (λ (f : ℕ → SockBind) k. leb fd k && not ((f fd).type == 0)) b m

  nil_of_none : (l : List ℕ) → length l ≤ 0 → l ≡ []
  nil_of_none [] h = refl
  nil_of_none (x ∷ l) h = absurd (omega arith)

  -- For a flow with a connection, whose descriptor does not listen: after as many events for writing
  -- alone as there are bytes kept, or more, at which the socket takes at least a byte each time, no byte
  -- is kept.
  pub handle_all-drains :
      (es : List Ready) (c : SockCommu)
      → AllWritable flow fd es
      → is_listening c fd ≡ false
      → is_conn c.connset flow ≡ true
      → length (kept c.connset flow) ≤ length es
      → kept (handle_all funcs es c).connset flow ≡ []
  unfolding handle_all
  handle_all-drains [] c w other conn h = nil_of_none (kept c.connset flow) h
  handle_all-drains (e ∷ es) c (w, ws) other conn h =
      let c' = handle funcs c e in
      let (step, b, m) = handle-Step c e w other conn in
      let s' = (sendfromcache c.connset flow e.now e.sent).0 in
      let less : length (kept s' flow) ≤ length (kept c.connset flow) - 1 =
        subst
          (λ a.
            length (kept (sendfromcache c.connset flow e.now a).0 flow)
            ≤ length (kept c.connset flow) - 1)
          (sym w.takes) (sendfromcache-less c.connset flow e.now w.bytes conn).1 in
      let same = is_conn-Same c.connset s' flow (sendfromcache-Same c.connset flow e.now e.sent) in
      handle_all-drains es c' ws (is_listening-cong c c' b m ∙ other)
        (ap (λ s. is_conn s flow) step ∙ same ∙ conn)
        (subst (λ s. length (kept s flow) ≤ length es) (sym step) (omega (arith, less)))
