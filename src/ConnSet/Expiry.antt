-- ===== src/ConnSet/Expiry.antt =====
-- Which connections of CConnSet (connset.cpp) are gone when the flows that `check_expire` reports are
-- closed.
use spp_server_frame_work.Base.{
  ℕ, zero, suc, ◌+◌, ◌%◌, ◌<◌, ◌≤◌, ◌≡◌, ◌≢◌, ◌⊎◌, inl, inr, refl, sym, ap, subst, ◌∙◌, Bool, true,
  false, not, ◌&&◌, ◌||◌, List, [], ◌∷◌, ltb, ◌==◌, if◌then◌else◌, arith, Bool-cases, ==-refl,
  ==-eq_false, ℕ_discrete,
}
use spp_server_frame_work.ConnSet.{
  ConnCache, ConnSet, getcc, set_cc, is_conn, closeconn, expired_from, check_expire,
}
use spp_server_frame_work.ConnSet.Flows.{is_conn_lem, conn-is_conn}
use spp_server_frame_work.ConnSet.Slots.{Slots, closeconn-Slots}

abbrev elem : ℕ → List ℕ → Bool
elem x [] = false
elem x (y ∷ ys) = x == y || elem x ys

-- `closeconn` for all flows of a list.
unfoldable pub close_all : List ℕ → ConnSet → ConnSet
close_all [] s = s
close_all (f ∷ fs) s = close_all fs (closeconn s f).0

closeconn-maxconn : (s : ConnSet) (f : ℕ) → (closeconn s f).0.maxconn ≡ s.maxconn
unfolding closeconn set_cc
closeconn-maxconn s f = ground arith

closed_slot :
    (s : ConnSet) (i : ℕ)
    → Slots s
    → i < s.maxconn
    → (s.ccs i).flow ≢ 0
    → ((closeconn s (s.ccs i).flow).0.ccs i).flow ≡ 0
unfolding closeconn set_cc getcc
closed_slot s i (p, h) l nz =
    let f = (s.ccs i).flow in
    elim (h i l) [
      | inl z ↦ absurd (nz z)
      | inr e ↦
          (let conn : is_conn s f ≡ true = conn-is_conn s f (ap (λ k. (s.ccs k).flow) e) nz in
            rw conn (rw e (rw (==-refl i) refl)))
    ]

kept_slot :
    (s : ConnSet) (i f : ℕ) → ((s.ccs i).flow ≢ f) ⊎ (f ≡ 0) → (closeconn s f).0.ccs i ≡ s.ccs i
unfolding closeconn set_cc getcc
kept_slot s i f other = elim (Bool-cases (is_conn s f)) [
  | inr no_conn ↦ rw no_conn refl
  | inl conn ↦
      (let (number, nz) = is_conn_lem s f conn in
        let ne : i ≢ f % s.maxconn =
          λ e. elim other [ inl d ↦ d (ap (λ k. (s.ccs k).flow) e ∙ number) | inr z ↦ nz z ] in
        rw conn (rw (==-eq_false i (f % s.maxconn) ne) refl))
]

-- A slot whose flow is in the list is free at the end; any other is as it was.
abbrev Gone : ConnSet → ConnSet → ℕ → List ℕ → Type 0
Gone s s' i fs =
    ((s.ccs i).flow ≢ 0 → elem (s.ccs i).flow fs ≡ true → (s'.ccs i).flow ≡ 0)
    × (((s.ccs i).flow ≡ 0) ⊎ (elem (s.ccs i).flow fs ≡ false) → s'.ccs i ≡ s.ccs i)

close_all-Gone :
    (fs : List ℕ) (s : ConnSet) (i : ℕ) → Slots s → i < s.maxconn → Gone s (close_all fs s) i fs
unfolding close_all
close_all-Gone [] s i p l = (λ nz e. cc, λ h. refl)
close_all-Gone (f ∷ fs) s i p l =
    let s1 = (closeconn s f).0 in
    let l1 : i < s1.maxconn = rw (closeconn-maxconn s f) l in
    let (free, same) = close_all-Gone fs s1 i (closeconn-Slots s f p) l1 in
    elim (ℕ_discrete (s.ccs i).flow f) [
      | no ne ↦
          (let kept = kept_slot s i f (inl ne) in
            let other : elem (s.ccs i).flow (f ∷ fs) ≡ elem (s.ccs i).flow fs =
              rw (==-eq_false (s.ccs i).flow f ne) refl in
            (
              λ nz e. free (rw kept nz) (rw kept (sym other ∙ e)),
              λ h. same (rw kept (elim h [ inl z ↦ inl z | inr e ↦ inr (sym other ∙ e) ])) ∙ kept,
            ))
      | yes e ↦ (
        λ nz _.
            let closed : (s1.ccs i).flow ≡ 0 =
              subst (λ g. ((closeconn s g).0.ccs i).flow ≡ 0) e (closed_slot s i p l nz) in
            ap (λ (c : ConnCache). c.flow) (same (inl closed)) ∙ closed,
        λ h. elim h [
          | inl z ↦ (let kept = kept_slot s i f (inr (sym e ∙ z)) in same (inl (rw kept z)) ∙ kept)
          | inr out ↦
              (let found : elem (s.ccs i).flow (f ∷ fs) ≡ true = rw (e, ==-refl f) refl in cc)
        ],
      )
    ]

module _ (s : ConnSet) (deadline : ℕ) where
  abbrev is_old : ConnCache → Bool
  is_old cc = ltb 0 cc.flow && ltb cc.access deadline

  -- Two slots have different flows.
  other_slot :
      (i k : ℕ)
      → Slots s
      → i < s.maxconn
      → k < s.maxconn
      → i ≢ k
      → (s.ccs i).flow ≢ 0
      → (s.ccs k).flow ≢ 0
      → ((s.ccs i).flow == (s.ccs k).flow) ≡ false
  other_slot i k (p, h) li lk ne nzi nzk = ==-eq_false (s.ccs i).flow (s.ccs k).flow λ e.
      elim (h i li) [
        | inl z ↦ nzi z
        | inr ei ↦ elim (h k lk) [
          | inl z ↦ nzk z
          | inr ek ↦ ne (sym ei ∙ ap (λ f. f % s.maxconn) e ∙ ek)
        ]
      ]

  -- The round for a slot reports its flow if it has waited too long.
  own_slot :
      (rest : List ℕ) (n k : ℕ)
      → (s.ccs k).flow ≢ 0
      → elem (s.ccs k).flow rest
        ≡ (ltb (s.ccs k).access deadline && (not (ltb k (k + 1)) && ltb k (k + 1 + n)))
      → elem (s.ccs k).flow (if is_old (s.ccs k) then (s.ccs k).flow ∷ rest else rest)
        ≡ (ltb (s.ccs k).access deadline && (not (ltb k k) && ltb k (k + suc n)))
  own_slot rest n k nz ih = elim (Bool-cases (is_old (s.ccs k))) [
    | inl old ↦ rw (old, ==-refl (s.ccs k).flow) (ground arith)
    | inr new ↦ rw new (ih ∙ ground arith)
  ]

  -- A flow is reported if its own slot is among those looked at and has waited too long.
  elem-expired_from :
      (n k i : ℕ)
      → Slots s
      → k + n ≤ s.maxconn
      → i < s.maxconn
      → (s.ccs i).flow ≢ 0
      → elem (s.ccs i).flow (expired_from s deadline n k)
        ≡ (ltb (s.ccs i).access deadline && (not (ltb i k) && ltb i (k + n)))
  unfolding expired_from
  elem-expired_from zero k i p b l nz = ground arith
  elem-expired_from (suc n) k i p b l nz =
      let rest = expired_from s deadline n (k + 1) in
      let ih = elem-expired_from n (k + 1) i p (omega arith) l nz in
      elim (ℕ_discrete i k) [
        | yes e ↦
            (let nzk : (s.ccs k).flow ≢ 0 = rw (← e) nz in
              let ihk : elem (s.ccs k).flow rest
                  ≡ (ltb (s.ccs k).access deadline && (not (ltb k (k + 1)) && ltb k (k + 1 + n))) =
                rw e at ih in
              rw e (own_slot rest n k nzk ihk))
        | no ne ↦ elim (Bool-cases (is_old (s.ccs k))) [
          | inl old ↦
              (let nzk : (s.ccs k).flow ≢ 0 = λ z. ground arith in
                let lk : k < s.maxconn = omega arith in
                rw (old, other_slot i k p l lk ne nz nzk) (ih ∙ ground arith))
          | inr new ↦ rw new (ih ∙ ground arith)
        ]
      ]

-- What becomes of a slot: it is free, or as it was.
unfoldable pub Fate : Bool → ConnCache → ConnCache → Type 0
Fate true cc cc' = cc'.flow ≡ 0
Fate false cc cc' = cc' ≡ cc

-- Closing the flows that `check_expire` reports frees the slots of the connections that have waited too
-- long, and no other slot changes.
pub close_all-check_expire :
    (s : ConnSet) (deadline i : ℕ)
    → Slots s
    → i < s.maxconn
    → Fate
        (ltb 0 (s.ccs i).flow && ltb (s.ccs i).access deadline)
        (s.ccs i)
        ((close_all (check_expire s deadline) s).ccs i)
unfolding check_expire Fate
close_all-check_expire s deadline i p l =
    let (free, same) = close_all-Gone (expired_from s deadline s.maxconn 0) s i p l in
    elim (ℕ_discrete (s.ccs i).flow 0) [
      | yes z ↦
          (let young : is_old s deadline (s.ccs i) ≡ false = ground arith in
            rw young (same (inl z)))
      | no nz ↦
          (let reported = elem-expired_from s deadline s.maxconn 0 i p (omega arith) l nz in
            elim (Bool-cases (is_old s deadline (s.ccs i))) [
              | inl old ↦ rw old (free nz (reported ∙ ground arith))
              | inr young ↦ rw young (same (inr (reported ∙ ground arith)))
            ])
    ]
