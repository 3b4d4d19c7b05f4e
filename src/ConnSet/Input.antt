-- ===== src/ConnSet/Input.antt =====
-- The bytes that a connection of CConnSet (connset.cpp) has received.
use spp_server_frame_work.Base.{
  ℕ, suc, ◌-◌, ◌≡◌, ◌⊎◌, inl, inr, refl, sym, ap, subst, ◌∙◌, Bool, true, false, not, ◌&&◌, List,
  [], ◌∷◌, ◌++◌, ◌==◌, if◌then◌else◌, ltb, length, append-nil, arith, Bool-cases, if-cases,
  not_ltb→le,
}
use mathlib.Core.Bool.{true≢false}
use spp_server_frame_work.ConnSet.{
  ConnCache, ConnSet, Ipport, Result, not_findfd, need_close, again, done, Answer, is_ok, is_again,
  udp_socket, getcc, set_cc, is_conn, touch, recv, closeconn,
}
use spp_server_frame_work.ConnSet.Stream.{getcc-set_cc}

abbrev pub input : ConnSet → ℕ → List ℕ
input s flow = (getcc s flow).r

-- The connection and its input are as they were, or the connection is gone.
abbrev pub Left : ConnSet → ConnSet → ℕ → Type 0
Left s s' flow =
    ((is_conn s' flow ≡ is_conn s flow) × (input s' flow ≡ input s flow))
    ⊎ ((is_conn s' flow ≡ false) × (input s' flow ≡ []))

pub Left-trans : (s t u : ConnSet) (flow : ℕ) → Left s t flow → Left t u flow → Left s u flow
Left-trans s t u flow (inl (c, e)) (inl (c', e')) = inl (c' ∙ c, e' ∙ e)
Left-trans s t u flow (inr (c, e)) (inl (c', e')) = inr (c' ∙ c, e' ∙ e)
Left-trans s t u flow h (inr k) = inr k

-- The slot has the connection of a flow.
abbrev is_of : ConnCache → ℕ → Bool
is_of cc flow = cc.flow == flow && not (flow == 0)

pub is_conn-set_cc :
    (s : ConnSet) (flow : ℕ) (cc : ConnCache)
    → cc.flow ≡ (getcc s flow).flow
    → is_conn (set_cc s flow cc) flow ≡ is_conn s flow
unfolding is_conn
is_conn-set_cc s flow cc e =
    ap (λ (c : ConnCache). is_of c flow) (getcc-set_cc s flow cc)
    ∙ ap (λ k. (k == flow) && not (flow == 0)) e

pub input-set_cc : (s : ConnSet) (flow : ℕ) (cc : ConnCache) → input (set_cc s flow cc) flow ≡ cc.r
input-set_cc s flow cc = ap (λ (c : ConnCache). c.r) (getcc-set_cc s flow cc)

no_flow : (flow : ℕ) → ((0 == flow) && not (flow == 0)) ≡ false
no_flow flow = ground arith

closed_slot :
    (s : ConnSet) (flow n : ℕ) (cc : ConnCache)
    → cc.flow ≡ 0
    → cc.r ≡ []
    → (let s' = record (set_cc s flow cc) { curconn = n } in
        (is_conn s' flow ≡ false) × (input s' flow ≡ []))
unfolding is_conn getcc
closed_slot s flow n cc z e = (
  ap (λ (c : ConnCache). is_of c flow) (getcc-set_cc s flow cc)
      ∙ ap (λ k. (k == flow) && not (flow == 0)) z
      ∙ no_flow flow,
  input-set_cc s flow cc ∙ e,
)

pub closeconn-Left : (s : ConnSet) (flow : ℕ) → Left s (closeconn s flow).0 flow
unfolding closeconn
closeconn-Left s flow = elim (Bool-cases (is_conn s flow)) [
  | inr no_conn ↦ rw no_conn (inl (no_conn, refl))
  | inl conn ↦ rw conn (inr (closed_slot s flow (s.curconn - 1) _ refl refl))
]

-- What `recv` does with a connection.
abbrev pub Gets : ConnSet → ℕ → List ℕ → ConnSet → Type 0
Gets s flow l s' = (is_conn s' flow ≡ is_conn s flow) × (input s' flow ≡ input s flow ++ l)

set_cc-Gets :
    (s : ConnSet) (flow : ℕ) (cc : ConnCache) (l : List ℕ)
    → cc.flow ≡ (getcc s flow).flow
    → cc.r ≡ input s flow ++ l
    → Gets s flow l (set_cc s flow cc)
set_cc-Gets s flow cc l e r = (is_conn-set_cc s flow cc e, input-set_cc s flow cc ∙ r)

nil_of_length : (l : List ℕ) → ltb 0 (length l) ≡ false → l ≡ []
nil_of_length [] h = refl
nil_of_length (x ∷ l) h = absurd (omega (arith, not_ltb→le 0 (suc (length l)) h))

Gets-if :
    (b : Bool) (s s' : ConnSet) (flow : ℕ) (l : List ℕ)
    → (b ≡ true → Gets s flow l s')
    → (b ≡ false → Gets s flow [] s')
    → Gets s flow (if b then l else []) s'
Gets-if true s s' flow l h k = h refl
Gets-if false s s' flow l h k = k refl

touch-Gets :
    (s s' : ConnSet) (flow now : ℕ) (l : List ℕ)
    → Gets (touch s flow now) flow l s'
    → Gets s flow l s'
unfolding touch
touch-Gets s s' flow now l (c, e) =
    let cc = record (getcc s flow) { access = now } in
    (c ∙ is_conn-set_cc s flow cc refl, e ∙ ap (λ r. r ++ l) (input-set_cc s flow cc))

pub recv-Gets :
    (s : ConnSet) (flow now : ℕ) (answer : Answer) (bytes : List ℕ) (sender : Ipport)
    → is_conn s flow ≡ true
    → Gets s flow (if is_ok answer then bytes else []) (recv s flow now answer bytes sender).0
unfolding recv
recv-Gets s flow now answer bytes sender h =
    let s1 = touch s flow now in
    let cc = getcc s1 flow in
    let is_udp = cc.type == udp_socket in
    let from = if is_udp && is_ok answer then sender else cc.addr in
    let nothing : input s1 flow ≡ input s1 flow ++ [] = sym (append-nil (input s1 flow)) in
    let got = set_cc-Gets s1 flow (record cc { addr = from; r = cc.r ++ bytes }) bytes refl refl in
    let empty = set_cc-Gets s1 flow (record cc { addr = from }) [] refl nothing in
    let same : Gets s1 flow [] s1 = (refl, nothing) in
    let G = λ (s' : ConnSet). Gets s1 flow (if is_ok answer then bytes else []) s' in
    let P = λ (p : ConnSet × Result). G p.0 in
    let failed : is_ok answer ≡ false → (s' : ConnSet) → Gets s1 flow [] s' → G s' = λ ko s' g.
      Gets-if (is_ok answer) s1 s' flow bytes (λ ok. absurd (true≢false (sym ok ∙ ko))) (λ _. g) in
    let s2 = set_cc s1 flow (record cc { addr = from }) in
    let s3 = set_cc s1 flow (record cc { addr = from; r = cc.r ++ bytes }) in
    let read : ConnSet × Result =
      if ltb 0 (length bytes) then (s3, done (length bytes)) else (s2, need_close) in
    let refused : ConnSet × Result =
      if not is_udp && is_again answer then (s1, again) else (s1, need_close) in
    touch-Gets s (recv s flow now answer bytes sender).0 flow now _ (
      if-cases P (not (is_conn s flow)) (s, not_findfd) (if is_ok answer then read else refused)
        (λ absent. absurd (true≢false (sym absent ∙ ap not h)))
        (λ _.
          if-cases P (is_ok answer) read refused
            (λ ok.
              if-cases P (ltb 0 (length bytes)) (s3, done (length bytes)) (s2, need_close)
                (λ _.
                  Gets-if (is_ok answer) s1 s3 flow bytes (λ _. got)
                    (λ ko. absurd (true≢false (sym ok ∙ ko))))
                (λ none.
                  Gets-if (is_ok answer) s1 s2 flow bytes
                    (λ _. subst (λ l. Gets s1 flow l s2) (sym (nil_of_length bytes none)) empty)
                    (λ _. empty)))
            (λ ko.
              if-cases P (not is_udp && is_again answer) (s1, again) (s1, need_close)
                (λ _. failed ko s1 same) (λ _. failed ko s1 same))))

pub recv-no_conn :
    (s : ConnSet) (flow now : ℕ) (answer : Answer) (bytes : List ℕ) (sender : Ipport)
    → is_conn s flow ≡ false
    → recv s flow now answer bytes sender ≡ (s, not_findfd)
unfolding recv
recv-no_conn s flow now answer bytes sender h = rw h refl
