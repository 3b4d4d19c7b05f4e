-- ===== src/TShmCommu/Expire.antt =====
-- The flows of CTShmCommu (shmcommu.cpp) that wait for an answer, and the check for those that have
-- waited too long.
use spp_server_frame_work.Base.{
  ℕ, suc, ◌+◌, ◌^◌, ◌<◌, ◌≤◌, ◌≡◌, inl, inr, refl, ap, ◌∙◌, Bool, List, [], ◌∷◌, ◌++◌, Option, none,
  some, ltb, ◌==◌, if◌then◌else◌, sub32, arith, lt→ltb, le→not_ltb, Bool-cases, ==-refl,
  ==-eq_false, ℕ_discrete,
}
use mathlib.Core.Option.{none-ne-some}
use spp_server_frame_work.TShmCommu.{
  Callback, cb_timeout, Event, ExpireMap, TShmCommu, call, expire, taken_over, check_expire,
}

-- The flows of a map are above a bound and in rising order.
abbrev pub IsAbove : ℕ → ExpireMap → Type 0
IsAbove b [] = Unit {0}
IsAbove b ((f, t) ∷ m) = (b ≤ f) × IsAbove (suc f) m

unfoldable pub find : ℕ → ExpireMap → Option ℕ
find flow [] = none
find flow ((f, t) ∷ m) = if f == flow then some t else find flow m

IsAbove-weaken : (b c : ℕ) (m : ExpireMap) → c ≤ b → IsAbove b m → IsAbove c m
IsAbove-weaken b c [] h v = tt
IsAbove-weaken b c ((f, t) ∷ m) h v = (omega arith, v.1)

find_below : (flow b : ℕ) (m : ExpireMap) → flow < b → IsAbove b m → find flow m ≡ none
unfolding find
find_below flow b [] h v = refl
find_below flow b ((f, t) ∷ m) h v =
    rw (==-eq_false f flow (λ e. omega arith)) (find_below flow (suc f) m (omega arith) v.1)

-- What a check leaves of an entry.
pub keep_fresh : ℕ → Option ℕ → Option ℕ
keep_fresh deadline none = none
keep_fresh deadline (some t) = if ltb t deadline then none else some t

find-expire :
    (registered : Callback → Bool) (buff : List ℕ) (deadline flow b : ℕ) (m : ExpireMap)
    → IsAbove b m
    → find flow ((expire registered buff deadline m).1) ≡ keep_fresh deadline (find flow m)
unfolding find expire keep_fresh
find-expire registered buff deadline flow b [] v = refl
find-expire registered buff deadline flow b ((f, t) ∷ m) v =
    let ih = find-expire registered buff deadline flow (suc f) m v.1 in
    elim (ℕ_discrete f flow) [
      | yes e ↦ elim (Bool-cases (ltb t deadline)) [
        | inl old ↦
            rw (old, e, ==-refl flow)
              (rw (keep_fresh, old)
                (ih ∙ ap (keep_fresh deadline) (find_below flow (suc f) m (omega arith) v.1)))
        | inr fresh ↦ rw (fresh, e, ==-refl flow) (rw (keep_fresh, fresh) refl)
      ]
      | no ne ↦ elim (Bool-cases (ltb t deadline)) [
        | inl old ↦ rw (old, ==-eq_false f flow ne) ih
        | inr fresh ↦ rw (fresh, ==-eq_false f flow ne) ih
      ]
    ]

taken_over-some : (old new : ExpireMap) (g t : ℕ) → find g new ≡ some t → taken_over old new ≡ new
unfolding find taken_over
taken_over-some old [] g t h = absurd (none-ne-some t h)
taken_over-some old (e ∷ m) g t h = refl

stays : (deadline t : ℕ) → deadline ≤ t → keep_fresh deadline (some t) ≡ some t
unfolding keep_fresh
stays deadline t h = rw (le→not_ltb t deadline h) refl

-- With the last check over a minute ago, a map in the order of its flows, and one flow in it that has
-- not waited too long: the check drops just the flows that have.
pub find-check_expire :
    (registered : Callback → Bool) (now : ℕ) (c : TShmCommu) (flow g t : ℕ)
    → c.lastchecktime + 60 < now
    → IsAbove 0 c.expiremap
    → find g c.expiremap ≡ some t
    → sub32 now c.expiretime ≤ t
    → find flow ((check_expire registered now c).0.expiremap)
      ≡ keep_fresh (sub32 now c.expiretime) (find flow c.expiremap)
unfolding check_expire
find-check_expire registered now c flow g t due v found fresh =
    let deadline = sub32 now c.expiretime in
    let kept : find g ((expire registered c.buff deadline c.expiremap).1) ≡ some t =
      find-expire registered c.buff deadline g 0 c.expiremap v
      ∙ ap (keep_fresh deadline) found
      ∙ stays deadline t fresh in
    rw
      (
        lt→ltb (c.lastchecktime + 60) now due,
        taken_over-some c.expiremap ((expire registered c.buff deadline c.expiremap).1) g t kept,
      )
      (find-expire registered c.buff deadline flow 0 c.expiremap v)

-- Every flow of the map has waited too long.
abbrev pub AllBefore : ℕ → ExpireMap → Type 0
AllBefore deadline [] = Unit {0}
AllBefore deadline ((f, t) ∷ m) = (t < deadline) × AllBefore deadline m

AllBefore-mono : (d d' : ℕ) (m : ExpireMap) → d ≤ d' → AllBefore d m → AllBefore d' m
AllBefore-mono d d' [] h v = tt
AllBefore-mono d d' ((f, t) ∷ m) h v = (omega arith, AllBefore-mono d d' m h v.1)

-- The time-out callbacks for all flows of a map.
pub timeouts : (Callback → Bool) → List ℕ → ExpireMap → List Event
timeouts registered buff [] = []
timeouts registered buff ((f, t) ∷ m) =
    call registered cb_timeout f buff ++ timeouts registered buff m

expire-AllBefore :
    (registered : Callback → Bool) (buff : List ℕ) (deadline : ℕ) (m : ExpireMap)
    → AllBefore deadline m
    → expire registered buff deadline m ≡ (timeouts registered buff m, [])
unfolding expire timeouts
expire-AllBefore registered buff deadline [] v = refl
expire-AllBefore registered buff deadline ((f, t) ∷ m) v =
    rw (expire, expire-AllBefore registered buff deadline m v.1, lt→ltb t deadline v.0) refl

check_expire-all :
    (registered : Callback → Bool) (now : ℕ) (c : TShmCommu)
    → c.lastchecktime + 60 < now
    → AllBefore (sub32 now c.expiretime) c.expiremap
    → check_expire registered now c
      ≡ (record c { lastchecktime = now }, timeouts registered c.buff c.expiremap)
unfolding check_expire taken_over
check_expire-all registered now c due v =
    rw
      (
        check_expire,
        lt→ltb (c.lastchecktime + 60) now due,
        expire-AllBefore registered c.buff (sub32 now c.expiretime) c.expiremap v,
      )
      refl

-- With the last check over a minute ago and every flow of the map waiting too long: the check reports
-- every flow, and leaves the map as it was, so that the next check reports the same flows again.
pub check_expire-again :
    (registered : Callback → Bool) (now later : ℕ) (c : TShmCommu)
    → c.lastchecktime + 60 < now
    → now + 60 < later
    → later < 2 ^ 32
    → c.expiretime ≤ now
    → AllBefore (sub32 now c.expiretime) c.expiremap
    → (let (c1, first) = check_expire registered now c in
        let (c2, second) = check_expire registered later c1 in
        (first ≡ timeouts registered c.buff c.expiremap)
        × (second ≡ first)
        × (c2.expiremap ≡ c.expiremap))
check_expire-again registered now later c due due' small past v =
    let once = check_expire-all registered now c due v in
    let c1 : TShmCommu = record c { lastchecktime = now } in
    let twice = check_expire-all registered later c1 due' (
      AllBefore-mono (sub32 now c.expiretime) (sub32 later c.expiretime) c.expiremap (omega arith)
        v) in
    rw once (rw twice (refl, refl, refl))
