-- ===== src/Proxy/Accounts.antt =====
-- The bytes of the messages of `ator_recvdata`, and the bytes that it reports (defaultproxy.cpp).
use spp_server_frame_work.Base.{
  ℕ, zero, suc, ◌+◌, ◌-◌, ◌<◌, ◌≤◌, ◌≡◌, inl, inr, refl, sym, subst, ap, ap₂, ◌∙◌, Bool, List, [],
  ◌∷◌, ◌++◌, append_assoc, append-nil, Option, none, some, ltb, length, get_elem?, set, ◌==◌, ◌||◌,
  take, drop, length-drop, take-append-drop, drop-length_append, arith, Bool-cases, not_ltb→le,
}
use spp_server_frame_work.Delay.{Timeval}
use spp_server_frame_work.ShmMq.{Blob, Ret, success, err_shmnew, err_shmmap, err_mqfull}
use spp_server_frame_work.TShmCommu.{TShmCommu, Callback, sendto}
use spp_server_frame_work.Proxy.{
  Length, length_of, failure, Verdict, keep_data, close_connection, ignore, Plugin, Deed, offered,
  handled, unrouted, discarded, closed, Result, processed, refused, Outcome, go_on, leave, Run,
  queue_full, sent, deliver, route, message, finish, round_end, proto_len, recv_loop, ator_recvdata,
  ctor_of,
}

-- The bytes of the messages.
abbrev pub pieces : List Deed → List ℕ
pieces [] = []
pieces (offered now i piece ret ∷ deeds) = piece ++ pieces deeds
pieces (handled piece ∷ deeds) = piece ++ pieces deeds
pieces (unrouted piece ∷ deeds) = piece ++ pieces deeds
pieces (discarded piece ∷ deeds) = piece ++ pieces deeds
pieces (closed ∷ deeds) = pieces deeds

abbrev pub deeds_of : Outcome → List Deed
deeds_of (go_on ctor deeds) = deeds
deeds_of (leave ctor deeds) = deeds

pieces-append : (a b : List Deed) → pieces (a ++ b) ≡ pieces a ++ pieces b
pieces-append [] b = refl
pieces-append (offered now i p ret ∷ a) b =
    ap (λ t. p ++ t) (pieces-append a b) ∙ sym (append_assoc p (pieces a) (pieces b))
pieces-append (handled p ∷ a) b =
    ap (λ t. p ++ t) (pieces-append a b) ∙ sym (append_assoc p (pieces a) (pieces b))
pieces-append (unrouted p ∷ a) b =
    ap (λ t. p ++ t) (pieces-append a b) ∙ sym (append_assoc p (pieces a) (pieces b))
pieces-append (discarded p ∷ a) b =
    ap (λ t. p ++ t) (pieces-append a b) ∙ sym (append_assoc p (pieces a) (pieces b))
pieces-append (closed ∷ a) b = pieces-append a b

-- The deeds are about the bytes that became processed from `k` on.
abbrev pub Counted : ℕ → List ℕ → List Deed → Result → Type 0
Counted k bytes deeds (refused n) = (rest : List ℕ) × (pieces deeds ++ rest ≡ bytes)
Counted k bytes deeds (processed k') = (k ≤ k') × (pieces deeds ++ drop (k' - k) bytes ≡ bytes)

abbrev pub Accounts : ℕ → List ℕ → Run → Type 0
Accounts k bytes run = Counted k bytes run.deeds run.result

-- The loop has ended, and its deeds are accounted for.
abbrev pub Ends : ℕ → List ℕ → Option Run → Type 0
Ends k bytes o = (r : Run) × (o ≡ some r) × Accounts k bytes r

drop_nil : (n : ℕ) → drop {A = ℕ} n [] ≡ []
drop_nil zero = refl
drop_nil (suc n) = refl

drop-drop : (b a : ℕ) (l : List ℕ) → drop a (drop b l) ≡ drop (b + a) l
drop-drop zero a l = ap (λ n. drop n l) (omega arith)
drop-drop (suc b) a [] = drop_nil a ∙ sym (drop_nil (suc b + a))
drop-drop (suc b) a (x ∷ l) =
    let e : suc b + a ≡ suc (b + a) = omega arith in rw e (drop-drop b a l)

queue_full-pieces :
    (now : Timeval) (ctor : List TShmCommu) (i : ℕ) (piece : List ℕ) (v : Verdict)
    → pieces (deeds_of (queue_full now ctor i piece v)) ≡ piece
queue_full-pieces now ctor i piece keep_data = append-nil piece
queue_full-pieces now ctor i piece close_connection = append-nil piece
queue_full-pieces now ctor i piece ignore = append-nil piece

sent-pieces :
    (now : Timeval) (ctor : List TShmCommu) (i : ℕ) (piece : List ℕ) (ret : Ret) (v : Verdict)
    → pieces (deeds_of (sent now ctor i piece ret v)) ≡ piece
sent-pieces now ctor i piece success v = append-nil piece
sent-pieces now ctor i piece err_shmnew v = append-nil piece
sent-pieces now ctor i piece err_shmmap v = append-nil piece
sent-pieces now ctor i piece err_mqfull v = queue_full-pieces now ctor i piece v

module _ (plugin : Plugin) (registered : Callback → Bool) (clock : ℕ → Timeval) (flow : ℕ)
    (blob : Blob) where
  deliver-pieces :
      (round : ℕ) (ctor : List TShmCommu) (i : ℕ) (piece : List ℕ) (c : Option TShmCommu)
      → pieces (deeds_of (deliver plugin registered clock flow blob round ctor i piece c)) ≡ piece
  unfolding deliver
  deliver-pieces round ctor i piece none = append-nil piece
  deliver-pieces round ctor i piece (some c) =
      let (ret, c', events) =
        sendto registered (clock round) flow (record blob { content = piece }) c in
      sent-pieces (clock round) (set ctor i c') i piece ret
        (plugin.handle_queue_full round flow i piece)

  route-pieces :
      (round : ℕ) (ctor : List TShmCommu) (piece : List ℕ) (r : Option (ℕ → ℕ → List ℕ → ℕ))
      → pieces (deeds_of (route plugin registered clock flow blob round ctor piece r)) ≡ piece
  route-pieces round ctor piece none = deliver-pieces round ctor 0 piece (get_elem? ctor 0)
  route-pieces round ctor piece (some f) =
      let no = f round flow piece in
      elim (Bool-cases (ltb (length ctor) no || (no == 0))) [
        | inl out ↦ rw out (append-nil piece)
        | inr in_range ↦
            rw in_range (deliver-pieces round ctor (no - 1) piece (get_elem? ctor (no - 1)))
      ]

  -- A round makes one message of its bytes, whatever becomes of it.
  message-pieces :
      (round : ℕ) (ctor : List TShmCommu) (piece : List ℕ) (local : Option (ℕ → ℕ → List ℕ → Bool))
      → pieces (deeds_of (message plugin registered clock flow blob round ctor piece local)) ≡ piece
  message-pieces round ctor piece (some f) = elim (Bool-cases (f round flow piece)) [
    | inl e ↦ rw e (append-nil piece)
    | inr e ↦ rw e (append-nil piece)
  ]
  message-pieces round ctor piece none = route-pieces round ctor piece plugin.handle_route

  -- A message in front of what later rounds account for.
  later-counts :
      (k n : ℕ) (bytes : List ℕ) (deeds more : List Deed) (result : Result)
      → pieces deeds ≡ take n bytes
      → Counted (k + n) (drop n bytes) more result
      → Counted k bytes (deeds ++ more) result
  later-counts k n bytes deeds more (refused x) first (rest, e) = (
    rest,
    ap (λ t. t ++ rest) (pieces-append deeds more)
        ∙ append_assoc (pieces deeds) (pieces more) rest
        ∙ ap₂ ◌++◌ first e
        ∙ take-append-drop n bytes,
  )
  later-counts k n bytes deeds more (processed k') first (le, e) =
      let rest = drop (k' - (k + n)) (drop n bytes) in
      let shift : n + (k' - (k + n)) ≡ k' - k = omega arith in
      let rest_is : drop (k' - k) bytes ≡ rest =
        ap (λ i. drop i bytes) (sym shift) ∙ sym (drop-drop n (k' - (k + n)) bytes) in
      (
        omega arith,
        ap₂ ◌++◌ (pieces-append deeds more) rest_is
            ∙ append_assoc (pieces deeds) (pieces more) rest
            ∙ ap₂ ◌++◌ first e
            ∙ take-append-drop n bytes,
      )

  finish-Ends :
      (outcome : Outcome) (k n : ℕ) (bytes : List ℕ) (rest : Option Run)
      → pieces (deeds_of outcome) ≡ take n bytes
      → Ends (k + n) (drop n bytes) rest
      → Ends k bytes (finish outcome (k + n) rest)
  finish-Ends (leave ctor deeds) k n bytes rest first later =
      let size : k + n - k ≡ n = omega arith in
      (
        record { ctor = ctor; deeds = deeds; result = processed (k + n) },
        refl,
        (omega arith, ap₂ ◌++◌ first (ap (λ i. drop i bytes) size) ∙ take-append-drop n bytes),
      )
  finish-Ends (go_on ctor deeds) k n bytes rest first (r, e, counts) = (
    record r { deeds = deeds ++ r.deeds },
    ap (finish (go_on ctor deeds) (k + n)) e,
    later-counts k n bytes deeds r.deeds r.result first counts,
  )

  thrown :
      (total k : ℕ) (bytes : List ℕ)
      → total ≡ k + length bytes
      → Counted k bytes (discarded bytes ∷ []) (processed total)
  thrown total k bytes all =
      let behind : length bytes ≡ total - k = omega arith in
      (
        omega arith,
        ap₂ ◌++◌ (append-nil bytes) (
              ap (λ i. drop i bytes) (sym behind)
              ∙ ap (drop (length bytes)) (sym (append-nil bytes))
              ∙ drop-length_append bytes [])
            ∙ append-nil bytes,
      )

  round_end-Ends :
      (len : Length) (total k : ℕ) (ctor : List TShmCommu) (outcome : Outcome) (rest : Option Run)
      (bytes : List ℕ)
      → total ≡ k + length bytes
      → ((n : ℕ) → len ≡ length_of (suc n) → pieces (deeds_of outcome) ≡ take (suc n) bytes)
      → ((n : ℕ)
          → len ≡ length_of (suc n)
          → suc n ≤ length bytes
          → Ends (k + suc n) (drop (suc n) bytes) rest)
      → Ends k bytes (round_end len total bytes k ctor outcome rest)
  round_end-Ends (failure n) total k ctor outcome rest bytes all first later =
      (record { ctor = ctor; deeds = []; result = refused n }, refl, (bytes, refl))
  round_end-Ends (length_of zero) total k ctor outcome rest bytes all first later =
      let none_yet : k - k ≡ 0 = omega arith in
      (
        record { ctor = ctor; deeds = []; result = processed k },
        refl,
        (omega arith, ap (λ i. drop i bytes) none_yet),
      )
  round_end-Ends (length_of (suc n)) total k ctor outcome rest bytes all first later =
      elim (Bool-cases (ltb (length bytes) (suc n))) [
        | inl over ↦ (
          record { ctor = ctor; deeds = discarded bytes ∷ []; result = processed total },
          rw over refl,
          thrown total k bytes all,
        )
        | inr fits ↦ rw fits (
            finish-Ends outcome k (suc n) bytes rest (first n refl)
              (later n refl (not_ltb→le (length bytes) (suc n) fits)))
      ]

  -- With more rounds than bytes the loop ends, and accounts for its bytes.
  recv_loop-Ends :
      (fuel total round : ℕ) (ctor : List TShmCommu) (bytes : List ℕ) (k : ℕ)
      → length bytes < fuel
      → total ≡ k + length bytes
      → Ends k bytes (recv_loop plugin registered clock flow blob fuel total round ctor bytes k)
  unfolding recv_loop
  recv_loop-Ends zero total round ctor bytes k enough sum = absurd (omega arith)
  recv_loop-Ends (suc fuel) total round ctor [] k enough sum = (
    record { ctor = ctor; deeds = []; result = processed k },
    refl,
    (omega arith, drop_nil (k - k)),
  )
  recv_loop-Ends (suc fuel) total round ctor (b ∷ bytes) k enough sum =
      let all = b ∷ bytes in
      let len = plugin.handle_input round flow all in
      let n = proto_len len in
      let outcome =
        message plugin registered clock flow blob round ctor (take n all) plugin.local_handle in
      let rest =
        recv_loop plugin registered clock flow blob fuel total (suc round) (ctor_of outcome)
          (drop n all) (k + n) in
      round_end-Ends len total k ctor outcome rest all sum
        (λ m e.
          message-pieces round ctor (take n all) plugin.local_handle
          ∙ ap (λ i. take i all) (ap proto_len e))
        (λ m e le.
          let n_is : n ≡ suc m = ap proto_len e in
          subst (λ (i : ℕ). Ends (k + i) (drop i all) rest) n_is
            (recv_loop-Ends fuel total (suc round) (ctor_of outcome) (drop n all) (k + n)
              (omega (arith, n_is, enough, length-drop n all))
              (omega (arith, n_is, sum, le, length-drop n all))))

  -- The same for the whole function.
  pub ator_recvdata-accounts :
      (fuel : ℕ) (ctor : List TShmCommu) (bytes : List ℕ)
      → length bytes < fuel
      → Ends 0 bytes (ator_recvdata plugin registered clock flow blob fuel ctor bytes)
  unfolding ator_recvdata
  ator_recvdata-accounts fuel ctor [] enough =
      (record { ctor = ctor; deeds = []; result = refused 0 }, refl, ([], refl))
  ator_recvdata-accounts fuel ctor (b ∷ bytes) enough =
      recv_loop-Ends fuel (length (b ∷ bytes)) 0 ctor (b ∷ bytes) 0 enough (omega arith)
