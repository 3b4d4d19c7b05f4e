-- ===== src/Proxy/Delivered.antt =====
-- The queues of the workers after `ator_recvdata` (defaultproxy.cpp).
use spp_server_frame_work.Base.{
  ℕ, zero, suc, ◌+◌, ◌-◌, ◌<◌, ◌≤◌, ◌≡◌, inl, inr, refl, sym, subst, ap, ◌∙◌, Bool, List, [], ◌∷◌,
  ◌++◌, Option, none, some, ltb, length, get_elem?, set, ◌==◌, ◌||◌, take, drop, length-drop,
  length-take, arith, Bool-cases, if-cases,
}
use mathlib.Core.Option.{none-ne-some, some-injective}
use spp_server_frame_work.Delay.{Timeval}
use spp_server_frame_work.ShmMq.{
  Blob, Ret, Message, enqueue, success, err_shmnew, err_shmmap, err_mqfull,
}
use spp_server_frame_work.ShmMq.Refine.{Queues, IsSendable, push, size, message}
use spp_server_frame_work.TShmCommu.{TShmCommu, Callback, sendto}
use spp_server_frame_work.TShmCommu.Traffic.{sendto_refines}
use spp_server_frame_work.Proxy.{
  Length, length_of, failure, Verdict, keep_data, close_connection, ignore, Plugin, Deed, offered,
  handled, unrouted, discarded, closed, processed, refused, Outcome, go_on, leave, Run, sent,
  deliver, route, message as one_message, finish, round_end, proto_len, recv_loop, ator_recvdata,
  ctor_of,
}
use spp_server_frame_work.Proxy.Accounts.{Accounts, deeds_of, ator_recvdata-accounts}

-- A bounded queue: the bytes that it has room for, and its messages.
abbrev pub Bounded : Type 0
Bounded = ℕ × List Message

-- Each queue of a list holds the messages of a bounded queue of its size.
abbrev pub AllBounded : List TShmCommu → List Bounded → Type 0
AllBounded [] [] = Unit {0}
AllBounded [] (b ∷ bs) = ⊥
AllBounded (c ∷ ctor) [] = ⊥
AllBounded (c ∷ ctor) ((cap, ms) ∷ bs) =
    ((c.producer.blocksize ≡ cap) × Queues c.producer ms) × AllBounded ctor bs

-- The bounded queue of an index is given a message, with its answer.
abbrev pub give : ℕ → Message → List Bounded → List Bounded
give i m [] = []
give zero m ((cap, ms) ∷ bs) = (cap, (push cap ms m).0) ∷ bs
give (suc i) m (b ∷ bs) = b ∷ give i m bs

abbrev pub answer_of : ℕ → Message → List Bounded → Option Ret
answer_of i m [] = none
answer_of zero m ((cap, ms) ∷ bs) = some (push cap ms m).1
answer_of (suc i) m (b ∷ bs) = answer_of i m bs

sendto-blocksize :
    (registered : Callback → Bool) (now : Timeval) (flow : ℕ) (blob : Blob) (c : TShmCommu)
    → (sendto registered now flow blob c).1.producer.blocksize ≡ c.producer.blocksize
unfolding sendto enqueue
sendto-blocksize registered now flow blob c = ground arith

-- `sendto` of the queue of an index.
give-AllBounded :
    (registered : Callback → Bool) (now : Timeval) (flow : ℕ) (blob : Blob) (ctor : List TShmCommu)
    (bs : List Bounded) (i : ℕ) (c : TShmCommu)
    → AllBounded ctor bs
    → get_elem? ctor i ≡ some c
    → IsSendable (message blob flow blob.ext_type now)
    → (let (ret, c', events) = sendto registered now flow blob c in
        let m = message blob flow blob.ext_type now in
        AllBounded (set ctor i c') (give i m bs) × (answer_of i m bs ≡ some ret))
give-AllBounded registered now flow blob [] bs i c v e fits = absurd (none-ne-some c e)
give-AllBounded registered now flow blob (d ∷ ctor) [] i c v e fits = absurd v
give-AllBounded registered now flow blob (d ∷ ctor) ((cap, ms) ∷ bs) zero c ((size, v), vs) e fits =
    let same = some-injective d c e in
    let size' : c.producer.blocksize ≡ cap =
      subst (λ (x : TShmCommu). x.producer.blocksize ≡ cap) same size in
    let (answer, w, events) =
      sendto_refines registered now flow blob c ms
        (subst (λ (x : TShmCommu). Queues x.producer ms) same v) fits in
    let m = message blob flow blob.ext_type now in
    let c' = (sendto registered now flow blob c).1 in
    (
      (
        (
          sendto-blocksize registered now flow blob c ∙ size',
          subst (λ n. Queues c'.producer (push n ms m).0) size' w,
        ),
        vs,
      ),
      ap some (ap (λ n. (push n ms m).1) (sym size') ∙ sym answer),
    )
give-AllBounded registered now flow blob (d ∷ ctor) (b ∷ bs) (suc i) c (v, vs) e fits =
    let (held, answer) = give-AllBounded registered now flow blob ctor bs i c vs e fits in
    ((v, held), answer)

module _ (flow : ℕ) (blob : Blob) where
  -- The message that a queue is offered.
  abbrev pub offer : Timeval → List ℕ → Message
  offer now piece = message (record blob { content = piece }) flow blob.ext_type now

  -- The bounded queues after a deed, and after all of them.
  abbrev pub stored_one : Deed → List Bounded → List Bounded
  stored_one (offered now i piece ret) bs = give i (offer now piece) bs
  stored_one (handled piece) bs = bs
  stored_one (unrouted piece) bs = bs
  stored_one (discarded piece) bs = bs
  stored_one closed bs = bs

  abbrev pub stored : List Deed → List Bounded → List Bounded
  stored [] bs = bs
  stored (deed ∷ deeds) bs = stored deeds (stored_one deed bs)

  -- The answers are those of the bounded queues.
  abbrev pub IsAnswer : Deed → List Bounded → Type 0
  IsAnswer (offered now i piece ret) bs = answer_of i (offer now piece) bs ≡ some ret
  IsAnswer (handled piece) bs = Unit {0}
  IsAnswer (unrouted piece) bs = Unit {0}
  IsAnswer (discarded piece) bs = Unit {0}
  IsAnswer closed bs = Unit {0}

  abbrev pub Answered : List Deed → List Bounded → Type 0
  Answered [] bs = Unit {0}
  Answered (deed ∷ deeds) bs = IsAnswer deed bs × Answered deeds (stored_one deed bs)

  abbrev pub Agrees : List TShmCommu → List Deed → List Bounded → Type 0
  Agrees ctor deeds bs = AllBounded ctor (stored deeds bs) × Answered deeds bs

  Agrees-append :
      (a b : List Deed) (ctor : List TShmCommu) (bs : List Bounded)
      → Answered a bs
      → Agrees ctor b (stored a bs)
      → Agrees ctor (a ++ b) bs
  Agrees-append [] b ctor bs h more = more
  Agrees-append (deed ∷ a) b ctor bs (h, hs) more =
      let (held, answers) = Agrees-append a b ctor (stored_one deed bs) hs more in
      (held, (h, answers))

  sent-Queues :
      (now : Timeval) (ctor : List TShmCommu) (i : ℕ) (piece : List ℕ) (ret : Ret) (v : Verdict)
      (bs : List Bounded)
      → AllBounded ctor (stored_one (offered now i piece ret) bs)
      → IsAnswer (offered now i piece ret) bs
      → (let outcome = sent now ctor i piece ret v in
          Agrees (ctor_of outcome) (deeds_of outcome) bs)
  sent-Queues now ctor i piece success v bs h a = (h, (a, tt))
  sent-Queues now ctor i piece err_shmnew v bs h a = (h, (a, tt))
  sent-Queues now ctor i piece err_shmmap v bs h a = (h, (a, tt))
  sent-Queues now ctor i piece err_mqfull keep_data bs h a = (h, (a, tt))
  sent-Queues now ctor i piece err_mqfull close_connection bs h a = (h, (a, (tt, tt)))
  sent-Queues now ctor i piece err_mqfull ignore bs h a = (h, (a, tt))

  -- If the call returns, its queues hold what its deeds say.
  abbrev pub Holds : Option Run → List Bounded → Type 0
  Holds o bs = (r : Run) → o ≡ some r → Agrees r.ctor r.deeds bs

  run-Holds : (r : Run) (bs : List Bounded) → Agrees r.ctor r.deeds bs → Holds (some r) bs
  run-Holds r bs h r' e = subst (λ (x : Run). Agrees x.ctor x.deeds bs) (some-injective r r' e) h

  finish-Holds :
      (outcome : Outcome) (k : ℕ) (rest : Option Run) (bs : List Bounded)
      → Agrees (ctor_of outcome) (deeds_of outcome) bs
      → Holds rest (stored (deeds_of outcome) bs)
      → Holds (finish outcome k rest) bs
  finish-Holds (leave ctor deeds) k rest bs h later =
      run-Holds (record { ctor = ctor; deeds = deeds; result = processed k }) bs h
  finish-Holds (go_on ctor deeds) k none bs h later = λ r e. absurd (none-ne-some r e)
  finish-Holds (go_on ctor deeds) k (some run) bs h later =
      run-Holds (record run { deeds = deeds ++ run.deeds }) bs
        (Agrees-append deeds run.deeds run.ctor bs h.1 (later run refl))

  round_end-Holds :
      (len : Length) (total k : ℕ) (bytes : List ℕ) (ctor : List TShmCommu) (outcome : Outcome)
      (rest : Option Run) (bs : List Bounded)
      → AllBounded ctor bs
      → Agrees (ctor_of outcome) (deeds_of outcome) bs
      → Holds rest (stored (deeds_of outcome) bs)
      → Holds (round_end len total bytes k ctor outcome rest) bs
  round_end-Holds (failure n) total k bytes ctor outcome rest bs v h later =
      run-Holds (record { ctor = ctor; deeds = []; result = refused n }) bs (v, tt)
  round_end-Holds (length_of zero) total k bytes ctor outcome rest bs v h later =
      run-Holds (record { ctor = ctor; deeds = []; result = processed k }) bs (v, tt)
  round_end-Holds (length_of (suc n)) total k bytes ctor outcome rest bs v h later =
      let thrown : Run = record {
        ctor = ctor;
        deeds = discarded bytes ∷ [];
        result = processed total;
      } in
      if-cases (λ o. Holds o bs) (ltb (length bytes) (suc n)) (some thrown)
        (finish outcome (k + suc n) rest) (λ _. run-Holds thrown bs (v, (tt, tt)))
        (λ _. finish-Holds outcome (k + suc n) rest bs h later)

  module _ (plugin : Plugin) (registered : Callback → Bool) (clock : ℕ → Timeval) (limit : ℕ)
      (fits : (round : ℕ) (piece : List ℕ)
        → length piece ≤ limit
        → IsSendable (offer (clock round) piece)) where
    deliver-Queues :
        (round : ℕ) (ctor : List TShmCommu) (i : ℕ) (piece : List ℕ) (o : Option TShmCommu)
        (bs : List Bounded)
        → AllBounded ctor bs
        → length piece ≤ limit
        → get_elem? ctor i ≡ o
        → (let outcome = deliver plugin registered clock flow blob round ctor i piece o in
            Agrees (ctor_of outcome) (deeds_of outcome) bs)
    unfolding deliver
    deliver-Queues round ctor i piece none bs v short e = (v, (tt, tt))
    deliver-Queues round ctor i piece (some c) bs v short e =
        let b : Blob = record blob { content = piece } in
        let (ret, c', events) = sendto registered (clock round) flow b c in
        let (held, answer) =
          give-AllBounded registered (clock round) flow b ctor bs i c v e
            (fits round piece short) in
        sent-Queues (clock round) (set ctor i c') i piece ret
          (plugin.handle_queue_full round flow i piece) bs held answer

    route-Queues :
        (round : ℕ) (ctor : List TShmCommu) (piece : List ℕ) (f : Option (ℕ → ℕ → List ℕ → ℕ))
        (bs : List Bounded)
        → AllBounded ctor bs
        → length piece ≤ limit
        → (let outcome = route plugin registered clock flow blob round ctor piece f in
            Agrees (ctor_of outcome) (deeds_of outcome) bs)
    route-Queues round ctor piece none bs v short =
        deliver-Queues round ctor 0 piece (get_elem? ctor 0) bs v short refl
    route-Queues round ctor piece (some f) bs v short =
        let no = f round flow piece in
        elim (Bool-cases (ltb (length ctor) no || (no == 0))) [
          | inl out ↦ rw out (v, (tt, tt))
          | inr in_range ↦
              rw in_range
                (deliver-Queues round ctor (no - 1) piece (get_elem? ctor (no - 1)) bs v short refl)
        ]

    message-Queues :
        (round : ℕ) (ctor : List TShmCommu) (piece : List ℕ)
        (local : Option (ℕ → ℕ → List ℕ → Bool)) (bs : List Bounded)
        → AllBounded ctor bs
        → length piece ≤ limit
        → (let outcome = one_message plugin registered clock flow blob round ctor piece local in
            Agrees (ctor_of outcome) (deeds_of outcome) bs)
    message-Queues round ctor piece (some f) bs v short = elim (Bool-cases (f round flow piece)) [
      | inl e ↦ rw e (v, (tt, tt))
      | inr e ↦ rw e (v, (tt, (tt, tt)))
    ]
    message-Queues round ctor piece none bs v short =
        route-Queues round ctor piece plugin.handle_route bs v short

    recv_loop-Holds :
        (fuel total round : ℕ) (ctor : List TShmCommu) (bytes : List ℕ) (k : ℕ) (bs : List Bounded)
        → length bytes ≤ limit
        → AllBounded ctor bs
        → Holds (recv_loop plugin registered clock flow blob fuel total round ctor bytes k) bs
    unfolding recv_loop
    recv_loop-Holds zero total round ctor bytes k bs few v = λ r e. absurd (none-ne-some r e)
    recv_loop-Holds (suc fuel) total round ctor [] k bs few v =
        run-Holds (record { ctor = ctor; deeds = []; result = processed k }) bs (v, tt)
    recv_loop-Holds (suc fuel) total round ctor (b ∷ bytes) k bs few v =
        let all = b ∷ bytes in
        let len = plugin.handle_input round flow all in
        let n = proto_len len in
        let outcome =
          one_message plugin registered clock flow blob round ctor (take n all)
            plugin.local_handle in
        let rest =
          recv_loop plugin registered clock flow blob fuel total (suc round) (ctor_of outcome)
            (drop n all) (k + n) in
        let h =
          message-Queues round ctor (take n all) plugin.local_handle bs v
            (omega (arith, length-take n all)) in
        round_end-Holds len total k all ctor outcome rest bs v h (
          recv_loop-Holds fuel total (suc round) (ctor_of outcome) (drop n all) (k + n)
            (stored (deeds_of outcome) bs) (omega (arith, length-drop n all)) h.0)

-- For queues that hold messages, more rounds than bytes, and bytes that fit a message, as many of them as
-- there are: ator_recvdata ends. The messages that it offered to a queue, handled, could not route or
-- threw away are, in order, the bytes that it reports as processed, or the first of the bytes if it
-- reports an error; and the queues have answered, and hold in the end, what bounded queues of their sizes
-- answer and hold that are offered those messages in the same order.
pub ator_recvdata-Delivers :
    (plugin : Plugin) (registered : Callback → Bool) (clock : ℕ → Timeval) (flow : ℕ) (blob : Blob)
    (fuel : ℕ) (ctor : List TShmCommu) (bs : List Bounded) (bytes : List ℕ)
    → ((round : ℕ) (piece : List ℕ)
        → length piece ≤ length bytes
        → IsSendable (offer flow blob (clock round) piece))
    → AllBounded ctor bs
    → length bytes < fuel
    → (r : Run) × (ator_recvdata plugin registered clock flow blob fuel ctor bytes ≡ some r)
      × Accounts 0 bytes r
      × AllBounded r.ctor (stored flow blob r.deeds bs)
      × Answered flow blob r.deeds bs
unfolding ator_recvdata
ator_recvdata-Delivers plugin registered clock flow blob fuel ctor bs [] fits v enough =
    let (r, e, counts) =
      ator_recvdata-accounts plugin registered clock flow blob fuel ctor [] enough in
    let (held, answers) =
      run-Holds flow blob (record { ctor = ctor; deeds = []; result = refused 0 }) bs (v, tt) r e in
    (r, e, counts, held, answers)
ator_recvdata-Delivers plugin registered clock flow blob fuel ctor bs (b ∷ bytes) fits v enough =
    let all = b ∷ bytes in
    let (r, e, counts) =
      ator_recvdata-accounts plugin registered clock flow blob fuel ctor all enough in
    let (held, answers) =
      recv_loop-Holds flow blob plugin registered clock (length all) fits fuel (length all) 0 ctor
        all 0 bs (omega arith) v r e in
    (r, e, counts, held, answers)
