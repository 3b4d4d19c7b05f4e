-- ===== src/ConnSet/Flows.antt =====
-- Which connection a flow of CConnSet (connset.cpp) stands for, as connections come and go.
use spp_server_frame_work.Base.{
  ℕ, zero, suc, ◌+◌, ◌-◌, ◌%◌, ◌≡◌, ◌≢◌, refl, sym, ap, ◌∙◌, subst, true, false, [], Option, none,
  some, ltb, ◌==◌, arith, Bool-cases, Option-cases, inl, inr, ==-refl, ==-eq_false, ==_iff,
  ℕ_discrete, add32, not_ltb→le, ◌⊎◌,
}
use mathlib.Core.Option.{none-ne-some, some-injective}
use spp_server_frame_work.ConnSet.{
  ConnCache, ConnSet, getcc, set_cc, find_free, choose_flow, addconn, is_conn, fd, closeconn,
}

==→≡ : (a b : ℕ) → (a == b) ≡ true → a ≡ b
==→≡ a b h = (==_iff a b).0 h

getcc-set_cc_same :
    (s : ConnSet) (f g : ℕ) (cc : ConnCache)
    → g % s.maxconn ≡ f % s.maxconn
    → getcc (set_cc s f cc) g ≡ cc
unfolding getcc set_cc
getcc-set_cc_same s f g cc e = rw (e, ==-refl (f % s.maxconn)) refl

getcc-set_cc_other :
    (s : ConnSet) (f g : ℕ) (cc : ConnCache)
    → g % s.maxconn ≢ f % s.maxconn
    → getcc (set_cc s f cc) g ≡ getcc s g
unfolding getcc set_cc
getcc-set_cc_other s f g cc ne = rw (==-eq_false (g % s.maxconn) (f % s.maxconn) ne) refl

-- The search ends at a free slot.
find_free-free :
    (s : ConnSet) (rounds flow f : ℕ) → find_free s rounds flow ≡ some f → (getcc s f).flow ≡ 0
unfolding find_free
find_free-free s zero flow f h = absurd (none-ne-some f h)
find_free-free s (suc rounds) flow f h =
    let next = add32 flow 1 in
    elim (Bool-cases ((getcc s next).flow == 0)) [
      | inl e ↦
          (let same : some next ≡ some f = rw e at h in
            subst (λ x. (getcc s x).flow ≡ 0) (some-injective next f same)
              (==→≡ ((getcc s next).flow) 0 e))
      | inr e ↦
          (let later : find_free s rounds next ≡ some f = rw e at h in
            find_free-free s rounds next f later)
    ]

pub choose_flow-free :
    (s : ConnSet) (flow f : ℕ) → choose_flow s flow ≡ some f → (getcc s f).flow ≡ 0
unfolding choose_flow
choose_flow-free s flow f h = elim (Bool-cases (ltb 0 (getcc s flow).flow)) [
  | inl e ↦
      (let other : find_free s (s.maxconn - 1) flow ≡ some f = rw e at h in
        find_free-free s (s.maxconn - 1) flow f other)
  | inr e ↦
      (let same : some flow ≡ some f = rw e at h in
        subst (λ x. (getcc s x).flow ≡ 0) (some-injective flow f same)
          (omega (arith, not_ltb→le 0 ((getcc s flow).flow) e)))
]

-- A flow with a connection: its slot carries its number, which is not 0.
pub is_conn_lem : (s : ConnSet) (g : ℕ) → is_conn s g ≡ true → ((getcc s g).flow ≡ g) × (g ≢ 0)
unfolding is_conn
is_conn_lem s g h = ground (arith)

pub conn-is_conn : (s : ConnSet) (g : ℕ) → (getcc s g).flow ≡ g → g ≢ 0 → is_conn s g ≡ true
unfolding is_conn
conn-is_conn s g e ne = rw (e, ==-refl g, ==-eq_false g 0 ne) refl

-- What a flow stands for depends on its slot only.
fd-cong : (s s' : ConnSet) (g : ℕ) → getcc s' g ≡ getcc s g → fd s' g ≡ fd s g
unfolding fd is_conn
fd-cong s s' g e = rw e refl

fd-conn : (s : ConnSet) (g : ℕ) → (getcc s g).flow ≡ g → g ≢ 0 → fd s g ≡ some ((getcc s g).fd)
unfolding fd
fd-conn s g e ne = rw (conn-is_conn s g e ne) refl

fd-gone : (s : ConnSet) (g : ℕ) → (getcc s g).flow ≡ 0 → fd s g ≡ none
unfolding fd is_conn
fd-gone s g e = elim (ℕ_discrete g 0) [
  | yes z ↦ rw (e, z) refl
  | no nz ↦ rw (e, ==-eq_false 0 g (λ z. nz (sym z))) refl
]

-- The body of `addconn` for the flow that the search gives.
abbrev pub added : ConnSet → ℕ → ℕ → ℕ → Option ℕ → ConnSet × Option ℕ
added s d type now o = elim o [
  | none ↦ (s, none)
  | some f ↦ (
    record (set_cc s f (record (getcc s f) { flow = f; fd = d; access = now; type = type })) {
      curconn = s.curconn + 1;
    },
    some f,
  )
]

-- What `addconn` leaves: the set as it was where it returns -1; else the new flow stands for the new
-- descriptor, unless it is 0, and the flows that had a connection stand for what they did.
unfoldable pub Adds : ConnSet → ℕ → ℕ → ConnSet × Option ℕ → Type 0
Adds s d g (s', none) = s' ≡ s
Adds s d g (s', some f) =
    ((f ≡ 0) ⊎ (fd s' f ≡ some d))
    × (s'.curconn ≡ s.curconn + 1)
    × ((is_conn s g ≡ false) ⊎ (fd s' g ≡ fd s g))

-- `addconn` never takes the slot of a connection, whichever flow it starts its search at.
pub addconn-Adds :
    (s : ConnSet) (flow d : ℕ) (type : ℕ) (now g : ℕ) → Adds s d g (addconn s flow d type now)
unfolding addconn Adds set_cc getcc
addconn-Adds s flow d type now g = elim (Option-cases (choose_flow s flow)) [
  | inl e ↦ subst (Adds s d g) (sym (ap (added s d type now) e)) refl
  | inr (f, e) ↦
      (let cc = record (getcc s f) { flow = f; fd = d; access = now; type = type } in
        let s' = record (set_cc s f cc) { curconn = s.curconn + 1 } in
        let here : getcc s' f ≡ cc = getcc-set_cc_same s f f cc refl in
        subst (Adds s d g) (sym (ap (added s d type now) e)) (
          elim (ℕ_discrete f 0) [
            | yes z ↦ inl z
            | no nz ↦ inr (
                fd-conn s' f (ap (λ (c : ConnCache). c.flow) here) nz
                ∙ ap (λ (c : ConnCache). some c.fd) here)
          ],
          refl,
          elim (Bool-cases (is_conn s g)) [
            | inr no_conn ↦ inl no_conn
            | inl conn ↦
                (let (number, nz) = is_conn_lem s g conn in
                  inr (
                    fd-cong s s' g (
                      getcc-set_cc_other s f g cc (λ slot. nz (
                        sym number
                        ∙ ap (λ i. (s.ccs i).flow) slot
                        ∙ choose_flow-free s flow f e)))))
          ],
        ))
]

-- `closeconn` of a flow with a connection: the flow stands for nothing from then on, and every flow
-- of another slot for what it did.
pub fd-closeconn :
    (s : ConnSet) (flow g : ℕ)
    → is_conn s flow ≡ true
    → (let (s', done) = closeconn s flow in
        (done ≡ true)
        × (fd s' flow ≡ none)
        × (s'.curconn ≡ s.curconn - 1)
        × ((g % s.maxconn ≡ flow % s.maxconn) ⊎ (fd s' g ≡ fd s g)))
unfolding closeconn set_cc getcc
fd-closeconn s flow g h =
    let cc = record (getcc s flow) { flow = 0; access = 0; type = 0; r = []; w = [] } in
    let s' = record (set_cc s flow cc) { curconn = s.curconn - 1 } in
    let here : getcc s' flow ≡ cc = getcc-set_cc_same s flow flow cc refl in
    rw h (
      refl,
      fd-gone s' flow (ap (λ (c : ConnCache). c.flow) here),
      refl,
      elim (ℕ_discrete (g % s.maxconn) (flow % s.maxconn)) [
        | yes e ↦ inl e
        | no ne ↦ inr (fd-cong s s' g (getcc-set_cc_other s flow g cc ne))
      ],
    )
