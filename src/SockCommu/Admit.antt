-- ===== src/SockCommu/Admit.antt =====
-- What becomes of a client's descriptor in CTSockCommu::handle_accept (sockcommu.cpp).
use spp_server_frame_work.Base.{
  ℕ, zero, ◌+◌, ◌^◌, ◌<◌, ◌≡◌, ◌≢◌, ◌⊎◌, inl, inr, refl, sym, ap, ◌∙◌, subst, Bool, true, false, [],
  ◌∷◌, Option, none, some, ==-refl,
}
use mathlib.Core.Option.{none-ne-some, some-injective}
use spp_server_frame_work.ConnSet.{Ipport, ConnSet, is_conn, fd}
use spp_server_frame_work.ConnSet
use spp_server_frame_work.ConnSet.Flows.{Adds, addconn-Adds}
use spp_server_frame_work.PollFlow.{Event, value, minus, ctl}
use spp_server_frame_work.PollFlow.Tags.{iterator-ctl}
use spp_server_frame_work.SockCommu.State.{
  pos, cb_connected, epollin, epollet, SockCommu, FuncList, call, close_fd, epoll_ctl, next_flow,
  joined, addconn,
}
use spp_server_frame_work.SockCommu.Accept.{AcceptAnswers, announced, watch, admit, handle_accepted}
use spp_server_frame_work.SockCommu.Receive.{fd_of, flow_of}

-- The connection set of `c'` has that of `c` and the descriptor `d` as flow `f`; `g` is any other flow.
pub record Took (c c' : SockCommu) (d f g : ℕ) : Type 0 where
  pub stands : fd c'.connset f ≡ some d
  pub counted : (c'.connset).curconn ≡ (c.connset).curconn + 1
  pub others : (is_conn c.connset g ≡ false) ⊎ (fd c'.connset g ≡ fd c.connset g)

-- What `addconn` gives if the set takes the connection.
abbrev Joins : SockCommu → ℕ → ℕ → ℕ → SockCommu × Bool → Type 0
Joins c d f g (c', added) =
    (added ≡ true) × (c'.flow ≡ f) × (c'.interest ≡ c.interest) × Took c c' d f g

joined-Joins :
    (c : SockCommu) (d f g : ℕ) (r : ConnSet × Option ℕ)
    → Adds c.connset d g r
    → r.1 ≡ some f
    → f ≢ 0
    → Joins c d f g (joined c r)
unfolding joined Adds
joined-Joins c d f g (s, none) h e nz = absurd (none-ne-some f e)
joined-Joins c d f g (s, some f') (new, count, old) e nz =
    let same : f' ≡ f = some-injective f' f e in
    (
      refl,
      same,
      refl,
      record {
        stands = elim new [
          | inl z ↦ absurd (nz (sym same ∙ z))
          | inr there ↦ ap (fd s) (sym same) ∙ there
        ];
        counted = count;
        others = old;
      },
    )

addconn-Joins :
    (c : SockCommu) (d type now f g : ℕ)
    → (ConnSet.addconn c.connset c.flow d type now).1 ≡ some f
    → f ≢ 0
    → Joins c d f g (addconn d type now c)
unfolding addconn
addconn-Joins c d type now f g e nz =
    joined-Joins c d f g (ConnSet.addconn c.connset c.flow d type now)
      (addconn-Adds c.connset c.flow d type now g) e nz

-- The callback for the connection has left the state `c2` and denied nothing, the socket can be made
-- non-blocking, and the set has a slot for the connection, as flow `f`.
module _ (funcs : FuncList) (listening clifd f g : ℕ) (a : AcceptAnswers) (c c2 : SockCommu)
    (told : call funcs cb_connected
        (next_flow c).flow
        (announced listening clifd a.peer (next_flow c))
        (next_flow c)
      ≡ (c2, pos zero))
    (nonblock : a.nonblock ≡ true)
    (slot : (ConnSet.addconn c2.connset c2.flow clifd (c2.sockbind listening).type a.now).1
      ≡ some f)
    (nz : f ≢ 0) where
  -- What `handle_accept` does in this case.
  handle_accepted_lem :
      handle_accepted funcs listening clifd a c
      ≡ watch clifd a.added (addconn clifd (c2.sockbind listening).type a.now c2).0
  unfolding handle_accepted admit
  handle_accepted_lem =
      let (yes_added, _, _, _) =
        addconn-Joins c2 clifd (c2.sockbind listening).type a.now f g slot nz in
      rw (told, nonblock, yes_added) refl

  -- If CB_CONNECTED denies nothing, the socket can be made non-blocking, the set gives the connection a
  -- flow `f` that is not 0, and the kernel takes the descriptor, whose numbers fit their 31 and 32 bits:
  -- flow `f` stands for the descriptor, one more connection is counted, the kernel's event for it comes
  -- back with both, and any other flow with a connection stands for what it did.
  pub handle_accepted-Took :
      (n : ℕ)
      → a.added ≡ value n
      → clifd < 2 ^ 31
      → f < 2 ^ 32
      → (let c' = handle_accepted funcs listening clifd a c in
          Took c2 c' clifd f g
          × ((e : Event) × (c'.interest clifd ≡ some e)
              × (e.events ≡ epollin + epollet)
              × (flow_of e ≡ f)
              × (fd_of e ≡ clifd)))
  unfolding watch epoll_ctl ctl
  handle_accepted-Took n added small fits =
      let c3 = (addconn clifd (c2.sockbind listening).type a.now c2).0 in
      let (_, flow, _, took) =
        addconn-Joins c2 clifd (c2.sockbind listening).type a.now f g slot nz in
      let e = (ctl clifd c3.flow (epollin + epollet) (value n) 0).0 in
      let ef = (ctl clifd f (epollin + epollet) (value n) 0).0 in
      let same : e ≡ ef = ap (λ k. (ctl clifd k (epollin + epollet) (value n) 0).0) flow in
      let (d, k) =
        iterator-ctl clifd f (epollin + epollet) 0 0 0 (value n) (value 1) (ef ∷ []) small fits
          refl in
      subst
        (λ c'.
          Took c2 c' clifd f g
          × ((e : Event) × (c'.interest clifd ≡ some e)
              × (e.events ≡ epollin + epollet)
              × (flow_of e ≡ f)
              × (fd_of e ≡ clifd)))
        (sym (handle_accepted_lem ∙ ap (λ r. watch clifd r c3) added))
        (
          record { stands = took.stands; counted = took.counted; others = took.others },
          (e, rw (==-refl clifd) refl, refl, ap flow_of same ∙ k, ap fd_of same ∙ d),
        )

  -- If CB_CONNECTED denies nothing, the socket can be made non-blocking, the set gives the connection a
  -- flow `f` that is not 0, and the kernel refuses the descriptor: it is closed, and flow `f` stands for
  -- it all the same and is counted.
  pub handle_accepted-leaks :
      (n : ℕ)
      → a.added ≡ minus n
      → (let c' = handle_accepted funcs listening clifd a c in
          Took c2 c' clifd f g × (c'.interest clifd ≡ none))
  unfolding watch close_fd
  handle_accepted-leaks n added =
      let c3 = (addconn clifd (c2.sockbind listening).type a.now c2).0 in
      let (_, _, _, took) = addconn-Joins c2 clifd (c2.sockbind listening).type a.now f g slot nz in
      subst (λ c'. Took c2 c' clifd f g × (c'.interest clifd ≡ none))
        (sym (handle_accepted_lem ∙ ap (λ r. watch clifd r c3) added))
        (
          record { stands = took.stands; counted = took.counted; others = took.others },
          rw (==-refl clifd) refl,
        )
