-- ===== src/TShmCommu/Order.antt =====
-- The map of waiting flows of CTShmCommu (shmcommu.cpp) stays in the order of the flows, one entry for
-- each.
use spp_server_frame_work.Base.{
  ℕ, suc, ◌+◌, ◌≤◌, Bool, not, ◌&&◌, List, [], ◌∷◌, ltb, ◌==◌, arith, Bool-cases, inl, inr, dec_lt,
  ℕ_discrete, ==-refl, ==-eq_false, lt→ltb, le→not_ltb, if-cases, sub32,
}
use spp_server_frame_work.Delay.{Timeval}
use spp_server_frame_work.ShmMq.{Blob, Dequeued, got, mq_empty, otf_buff, assert_failed, enqueue}
use spp_server_frame_work.TShmCommu.{
  Callback, ExpireMap, insert, erase, TShmCommu, expire, taken_over, check_expire, received, sendto,
  is_success,
}
use spp_server_frame_work.TShmCommu.Expire.{IsAbove}

IsAbove-weaken : (b c : ℕ) (m : ExpireMap) → c ≤ b → IsAbove b m → IsAbove c m
IsAbove-weaken b c [] h v = tt
IsAbove-weaken b c ((f, t) ∷ m) h v = (omega arith, v.1)

insert-IsAbove :
    (b flow time : ℕ) (m : ExpireMap) → b ≤ flow → IsAbove b m → IsAbove b (insert flow time m)
unfolding insert
insert-IsAbove b flow time [] h v = (h, tt)
insert-IsAbove b flow time ((f, t) ∷ m) h v = elim (ℕ_discrete f flow) [
  | yes e ↦ rw (e, ==-refl flow) (h, (let w = v.1 in rw e at w))
  | no ne ↦ elim (dec_lt flow f) [
    | yes lt ↦ rw (==-eq_false f flow ne, lt→ltb flow f lt) (h, (omega arith, v.1))
    | no ge ↦
        rw (==-eq_false f flow ne, le→not_ltb flow f (omega arith))
          (v.0, insert-IsAbove (suc f) flow time m (omega arith) v.1)
  ]
]

erase-IsAbove : (b flow : ℕ) (m : ExpireMap) → IsAbove b m → IsAbove b (erase flow m)
unfolding erase
erase-IsAbove b flow [] v = tt
erase-IsAbove b flow ((f, t) ∷ m) v = elim (Bool-cases (f == flow)) [
  | inl e ↦ rw e (IsAbove-weaken (suc f) b m (omega arith) v.1)
  | inr e ↦ rw e (v.0, erase-IsAbove (suc f) flow m v.1)
]

expire-IsAbove :
    (registered : Callback → Bool) (buff : List ℕ) (deadline b : ℕ) (m : ExpireMap)
    → IsAbove b m
    → IsAbove b ((expire registered buff deadline m).1)
unfolding expire
expire-IsAbove registered buff deadline b [] v = tt
expire-IsAbove registered buff deadline b ((f, t) ∷ m) v =
    let rest = expire-IsAbove registered buff deadline (suc f) m v.1 in
    elim (Bool-cases (ltb t deadline)) [
      | inl e ↦
          rw e (IsAbove-weaken (suc f) b ((expire registered buff deadline m).1) (omega arith) rest)
      | inr e ↦ rw e (v.0, rest)
    ]

taken_over-IsAbove :
    (old new : ExpireMap) → IsAbove 0 old → IsAbove 0 new → IsAbove 0 (taken_over old new)
unfolding taken_over
taken_over-IsAbove old [] v w = v
taken_over-IsAbove old (e ∷ m) v w = w

abbrev IsOrdered : TShmCommu → Type 0
IsOrdered c = IsAbove 0 c.expiremap

check_expire-IsOrdered :
    (registered : Callback → Bool) (now : ℕ) (c : TShmCommu)
    → IsOrdered c
    → IsOrdered ((check_expire registered now c).0)
unfolding check_expire
check_expire-IsOrdered registered now c v =
    let newmap = (expire registered c.buff (sub32 now c.expiretime) c.expiremap).1 in
    let w =
      taken_over-IsAbove c.expiremap newmap v
        (expire-IsAbove registered c.buff (sub32 now c.expiretime) 0 c.expiremap v) in
    elim (Bool-cases (ltb (c.lastchecktime + 60) now)) [ inl e ↦ rw e w | inr e ↦ rw e v ]

received-IsAbove :
    (registered : Callback → Bool) (now : ℕ) (c : TShmCommu) (r : Dequeued)
    → IsAbove 0 c.expiremap
    → IsAbove 0 ((received registered now c r).0.expiremap)
unfolding received
received-IsAbove registered now c (got m) v = elim (Bool-cases (c.expiretime == 0)) [
  | inl e ↦ rw e v
  | inr e ↦ rw e (
      check_expire-IsOrdered registered now
        (record c { buff = m.content; expiremap = erase m.flow c.expiremap })
        (erase-IsAbove 0 m.flow c.expiremap v))
]
received-IsAbove registered now c mq_empty v = elim (Bool-cases (c.expiretime == 0)) [
  | inl e ↦ rw e v
  | inr e ↦ rw e (check_expire-IsOrdered registered now (record c { buff = [] }) v)
]
received-IsAbove registered now c otf_buff v = elim (Bool-cases (c.expiretime == 0)) [
  | inl e ↦ rw e v
  | inr e ↦ rw e (check_expire-IsOrdered registered now c v)
]
received-IsAbove registered now c assert_failed v = elim (Bool-cases (c.expiretime == 0)) [
  | inl e ↦ rw e v
  | inr e ↦ rw e (check_expire-IsOrdered registered now c v)
]

-- For a map in the order of its flows, one entry for each: `sendto`, and what `poll` does with any
-- answer of the queue, keep it so.
pub sendto-received-IsAbove :
    (registered : Callback → Bool) (sent_at : Timeval) (flow now : ℕ) (blob : Blob) (r : Dequeued)
    (c : TShmCommu)
    → IsAbove 0 c.expiremap
    → IsAbove 0 ((sendto registered sent_at flow blob c).1.expiremap)
      × IsAbove 0 ((received registered now c r).0.expiremap)
unfolding sendto
sendto-received-IsAbove registered sent_at flow now blob r c v = (
  if-cases (IsAbove 0)
      (not (c.expiretime == 0)
        && is_success ((enqueue c.producer blob flow blob.ext_type sent_at).1))
      (insert flow sent_at.tv_sec c.expiremap) c.expiremap
      (λ _. insert-IsAbove 0 flow sent_at.tv_sec c.expiremap (omega arith) v) (λ _. v),
  received-IsAbove registered now c r v,
)
