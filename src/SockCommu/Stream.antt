-- ===== src/SockCommu/Stream.antt =====
-- The bytes that the loop of CTSockCommu::poll (sockcommu.cpp) reads: each is skipped out of the cache,
-- in order, or still there.
use spp_server_frame_work.Base.{
  ℕ, zero, suc, ◌≡◌, inl, inr, refl, sym, ap, ap₂, ◌∙◌, subst, true, false, List, [], ◌∷◌, ◌++◌,
  if◌then◌else◌, take, drop, take-append-drop, append_assoc, append-nil, Bool-cases, if-cases,
}
use mathlib.Core.Bool.{true≢false}
use spp_server_frame_work.ConnSet.{
  ConnSet, Result, not_findfd, need_close, again, need_send, done, is_ok, e_again, getcc, is_conn,
  recv,
}
use spp_server_frame_work.ConnSet.Input.{
  input, Left, Left-trans, is_conn-set_cc, input-set_cc, closeconn-Left, recv-Gets, recv-no_conn,
}
use spp_server_frame_work.SockCommu.State.{
  ℤ, pos, negsuc, Callback, cb_disconnect, cb_recvdata, cb_recvdone, SockCommu, FuncList, no_data,
  call, closeconn, conn_info,
}
use spp_server_frame_work.SockCommu.Accept.{Received}
use spp_server_frame_work.SockCommu.Receive.{
  Round, judged, recv_data, answered, recv_round, recv_loop, skip, cache_blob,
}
use spp_server_frame_work.SockCommu.Expire.{closeconn-connset}

-- The bytes of an answer.
abbrev pub piece : Received → List ℕ
piece x = if is_ok x.answer then x.bytes else []

abbrev pub pieces : List Received → List ℕ
pieces [] = []
pieces (x ∷ xs) = piece x ++ pieces xs

module _ (flow : ℕ) where
  -- Of the bytes `before`, some are gone, some are in the cache, and the others are lost, which are none
  -- if the connection is still there.
  abbrev Keeps : ConnSet → List ℕ → ConnSet → List ℕ → Type 0
  Keeps s before s' gone =
      (lost : List ℕ) × (gone ++ (input s' flow ++ lost) ≡ before)
      × (is_conn s' flow ≡ true → (is_conn s flow ≡ true) × (lost ≡ []))

  Left-Keeps : (s s' : ConnSet) → Left s s' flow → Keeps s (input s flow) s' []
  Left-Keeps s s' (inl (c, e)) = ([], append-nil (input s' flow) ∙ e, λ h. (sym c ∙ h, refl))
  Left-Keeps s s' (inr (c, e)) =
      (input s flow, ap (λ l. l ++ input s flow) e, λ h. absurd (true≢false (sym h ∙ c)))

  Keeps-then :
      (s s1 s2 : ConnSet) (before gone : List ℕ)
      → Keeps s before s1 []
      → Keeps s1 (input s1 flow) s2 gone
      → Keeps s before s2 gone
  Keeps-then s s1 s2 before gone (lost1, e1, k1) (lost2, e2, k2) = (
    lost2 ++ lost1,
    ap (λ l. gone ++ l) (sym (append_assoc (input s2 flow) lost2 lost1))
        ∙ sym (append_assoc gone (input s2 flow ++ lost2) lost1)
        ∙ ap (λ l. l ++ lost1) e2
        ∙ e1,
    λ h.
        let (conn1, none2) = k2 h in
        let (conn, none1) = k1 conn1 in (conn, ap (λ l. l ++ lost1) none2 ∙ none1),
  )

  -- A callback that leaves the input of the flow, or closes its connection.
  abbrev pub LeavesInput : FuncList → Callback → Type 0
  LeavesInput funcs cb = (c : SockCommu) → Left c.connset (funcs.func cb flow c).0.connset flow

  call-Left :
      (funcs : FuncList) (cb : Callback) (prepared c : SockCommu)
      → LeavesInput funcs cb
      → prepared.connset ≡ c.connset
      → Left c.connset (call funcs cb flow prepared c).0.connset flow
  unfolding call
  call-Left funcs cb prepared c leaves e = elim (Bool-cases (funcs.registered cb)) [
    | inl yes_cb ↦
        rw yes_cb
          (subst (λ s. Left s (funcs.func cb flow prepared).0.connset flow) e (leaves prepared))
    | inr no_cb ↦ rw no_cb (inl (refl, refl))
  ]

  closed-Left : (c : SockCommu) → Left c.connset (closeconn flow c).connset flow
  closed-Left c =
      subst (λ s. Left c.connset s flow) (sym (closeconn-connset flow c))
        (closeconn-Left c.connset flow)

  skip-Keeps :
      (n : ℕ) (c : SockCommu)
      → Keeps c.connset
          (input c.connset flow)
          (skip flow n c).connset
          (take n (input c.connset flow))
  unfolding skip
  skip-Keeps n c =
      let cc = getcc c.connset flow in
      let cc' = record cc { r = drop n cc.r } in
      (
        [],
        ap (λ l. take n cc.r ++ l) (append-nil _ ∙ input-set_cc c.connset flow cc')
            ∙ take-append-drop n cc.r,
        λ h. (sym (is_conn-set_cc c.connset flow cc' refl) ∙ h, refl),
      )

  module _ (funcs : FuncList) (data_cb : LeavesInput funcs cb_recvdata)
      (done_cb : LeavesInput funcs cb_recvdone) (close_cb : LeavesInput funcs cb_disconnect) where
    judged-Keeps :
        (c : SockCommu) (ret : ℤ)
        → (let (c', goes_on, gone) = judged funcs flow c ret in
            Keeps c.connset (input c.connset flow) c'.connset gone)
    unfolding judged
    judged-Keeps c (pos zero) = Left-Keeps c.connset c.connset (inl (refl, refl))
    judged-Keeps c (pos (suc n)) =
        let c1 = record c { buff_blob = record c.buff_blob { len = suc n } } in
        let c2 = (call funcs cb_recvdone flow c1 c1).0 in
        let called = call-Left funcs cb_recvdone c1 c1 done_cb refl in
        Keeps-then c.connset c2.connset (skip flow (suc n) c2).connset (input c.connset flow) _
          (Left-Keeps c.connset c2.connset called) (skip-Keeps (suc n) c2)
    judged-Keeps c (negsuc n) = Left-Keeps c.connset (closeconn flow c).connset (closed-Left c)

    recv_data-Keeps :
        (fd : ℕ) (x : Received) (c : SockCommu)
        → (let (c', goes_on, gone) = recv_data funcs flow fd x c in
            Keeps c.connset (input c.connset flow) c'.connset gone)
    unfolding recv_data conn_info
    recv_data-Keeps fd x c =
        let cc = getcc c.connset flow in
        let c1 = cache_blob cc.r (conn_info fd cc.type x.peer c) in
        let (c2, ret) = funcs.func cb_recvdata flow c1 in
        Keeps-then c.connset c2.connset (judged funcs flow c2 ret).0.connset (input c.connset flow)
          _ (Left-Keeps c.connset c2.connset (data_cb c1)) (judged-Keeps c2 ret)

    answered-Keeps :
        (fd : ℕ) (x : Received) (c : SockCommu) (ret : Result)
        → (let (c', goes_on, gone) = answered funcs flow fd x c ret in
            Keeps c.connset (input c.connset flow) c'.connset gone)
    unfolding answered
    answered-Keeps fd x c (done n) = recv_data-Keeps fd x c
    answered-Keeps fd x c need_close =
        let c1 = record c { buff_blob = no_data } in
        let c2 = (call funcs cb_disconnect flow c1 c).0 in
        let called = call-Left funcs cb_disconnect c1 c close_cb refl in
        Left-Keeps c.connset (closeconn flow c2).connset
          (Left-trans c.connset c2.connset (closeconn flow c2).connset flow called (closed-Left c2))
    answered-Keeps fd x c not_findfd = Left-Keeps c.connset c.connset (inl (refl, refl))
    answered-Keeps fd x c again = Left-Keeps c.connset c.connset (inl (refl, refl))
    answered-Keeps fd x c need_send = Left-Keeps c.connset c.connset (inl (refl, refl))

    -- Without a connection nothing is read.
    recv_round-no_conn :
        (fd : ℕ) (x : Received) (c : SockCommu)
        → is_conn c.connset flow ≡ false
        → recv_round funcs flow fd x c ≡ (c, false, [])
    unfolding recv_round answered
    recv_round-no_conn fd x c h =
        ap (λ (p : ConnSet × Result). answered funcs flow fd x (record c { connset = p.0 }) p.1)
          (recv-no_conn c.connset flow x.now x.answer x.bytes x.sender h)

    recv_round-Keeps :
        (fd : ℕ) (x : Received) (c : SockCommu)
        → (let (c', goes_on, gone) = recv_round funcs flow fd x c in
            Keeps c.connset (input c.connset flow ++ piece x) c'.connset gone)
    unfolding recv_round answered
    recv_round-Keeps fd x c =
        let s = c.connset in
        let (s', ret) = recv s flow x.now x.answer x.bytes x.sender in
        let c1 = record c { connset = s' } in
        elim (Bool-cases (is_conn s flow)) [
          | inr no_conn ↦
              subst (λ (r : Round). Keeps s (input s flow ++ piece x) r.0.connset r.2)
                (sym (recv_round-no_conn fd x c no_conn))
                (piece x, refl, λ h. absurd (true≢false (sym h ∙ no_conn)))
          | inl conn ↦
              (let (same, got) = recv-Gets s flow x.now x.answer x.bytes x.sender conn in
                Keeps-then s s' (answered funcs flow fd x c1 ret).0.connset
                  (input s flow ++ piece x) (answered funcs flow fd x c1 ret).2
                  ([], append-nil (input s' flow) ∙ got, λ h. (conn, refl))
                  (answered-Keeps fd x c1 ret))
        ]

    recv_loop-no_conn :
        (fd : ℕ) (dry : Received) (xs : List Received) (c : SockCommu)
        → is_conn c.connset flow ≡ false
        → (let (c', gone, unread) = recv_loop funcs flow fd dry xs c in (c' ≡ c) × (gone ≡ []))
    unfolding recv_loop
    recv_loop-no_conn fd dry [] c h =
        rw (recv_round-no_conn fd (record dry { answer = e_again }) c h) (refl, refl)
    recv_loop-no_conn fd dry (x ∷ xs) c h = rw (recv_round-no_conn fd x c h, recv_loop) (refl, refl)

    -- The bytes of a connection after some answers: those that were skipped, those in the cache and a
    -- rest, which is what has not been asked for if the connection is still there.
    abbrev pub Accounts : List ℕ → SockCommu → List ℕ → List Received → Type 0
    Accounts before c' gone unread =
        (rest : List ℕ) × (gone ++ (input c'.connset flow ++ rest) ≡ before)
        × (is_conn c'.connset flow ≡ true → rest ≡ pieces unread)

    ends-Accounts :
        (c c1 : SockCommu) (before gone : List ℕ) (xs : List Received)
        → Keeps c.connset before c1.connset gone
        → Accounts (before ++ pieces xs) c1 gone xs
    ends-Accounts c c1 before gone xs (lost, e, k) = (
      lost ++ pieces xs,
      ap (λ l. gone ++ l) (sym (append_assoc (input c1.connset flow) lost (pieces xs)))
          ∙ sym (append_assoc gone (input c1.connset flow ++ lost) (pieces xs))
          ∙ ap (λ l. l ++ pieces xs) e,
      λ h. ap (λ l. l ++ pieces xs) (k h).1,
    )

    -- One round and the rounds after it.
    goes_on-Accounts :
        (c c1 c2 : SockCommu) (before gone gone' : List ℕ) (xs unread : List Received)
        → is_conn c1.connset flow ≡ true
        → Keeps c.connset before c1.connset gone
        → Accounts (input c1.connset flow ++ pieces xs) c2 gone' unread
        → Accounts (before ++ pieces xs) c2 (gone ++ gone') unread
    goes_on-Accounts c c1 c2 before gone gone' xs unread conn (lost, e, k) (rest, e', k') =
        let i1 = input c1.connset flow in
        let all : gone ++ i1 ≡ before =
          ap (λ l. gone ++ l) (sym (append-nil i1) ∙ ap (λ l. i1 ++ l) (sym (k conn).1)) ∙ e in
        (
          rest,
          append_assoc gone gone' (input c2.connset flow ++ rest)
              ∙ ap (λ l. gone ++ l) e'
              ∙ sym (append_assoc gone i1 (pieces xs))
              ∙ ap (λ l. l ++ pieces xs) all,
          k',
        )

    -- With callbacks that leave the input of the flow or close its connection: the bytes that the loop
    -- has skipped, those that are then in the cache and a rest are, in order, those of the cache and of
    -- the socket's answers; if the connection is still there, the rest is what the loop has not read.
    pub recv_loop-Accounts :
        (fd : ℕ) (dry : Received) (xs : List Received) (c : SockCommu)
        → (let (c', gone, unread) = recv_loop funcs flow fd dry xs c in
            Accounts (input c.connset flow ++ pieces xs) c' gone unread)
    unfolding recv_loop is_ok
    recv_loop-Accounts fd dry [] c =
        let (lost, e, k) = recv_round-Keeps fd (record dry { answer = e_again }) c in
        (lost, e, λ h. (k h).1)
    recv_loop-Accounts fd dry (x ∷ xs) c =
        let (c1, goes_on, gone) = recv_round funcs flow fd x c in
        let (c2, gone', unread) = recv_loop funcs flow fd dry xs c1 in
        let kept = recv_round-Keeps fd x c in
        let before = input c.connset flow ++ piece x in
        let P =
          λ (t : SockCommu × List ℕ × List Received). Accounts (before ++ pieces xs) t.0 t.1 t.2 in
        let stopped : P (c1, gone, xs) = ends-Accounts c c1 before gone xs kept in
        let ended : SockCommu × List ℕ × List Received =
          if goes_on then (c2, gone ++ gone', unread) else (c1, gone, xs) in
        subst (λ b. Accounts b ended.0 ended.1 ended.2)
          (append_assoc (input c.connset flow) (piece x) (pieces xs))
          (if-cases P goes_on (c2, gone ++ gone', unread) (c1, gone, xs)
            (λ _. elim (Bool-cases (is_conn c1.connset flow)) [
              | inl conn ↦
                  goes_on-Accounts c c1 c2 before gone gone' xs unread conn kept
                    (recv_loop-Accounts fd dry xs c1)
              | inr no_conn ↦
                  (let (same, none) = recv_loop-no_conn fd dry xs c1 no_conn in
                    let (rest, e, k) = stopped in
                    (
                      rest,
                      ap₂ (λ g (d : SockCommu). g ++ (input d.connset flow ++ rest))
                            (ap (λ g. gone ++ g) none ∙ append-nil gone) same
                          ∙ e,
                      λ h. absurd (
                          true≢false (
                            sym h ∙ ap (λ (d : SockCommu). is_conn d.connset flow) same ∙ no_conn)),
                    ))
            ])
            (λ _. stopped))
