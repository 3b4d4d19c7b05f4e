-- ===== src/ConnSet/Output.antt =====
-- When `send` and `sendfromcache` of CConnSet (connset.cpp) leave bytes to be sent.
use spp_server_frame_work.Base.{
  ℕ, suc, ◌-◌, ◌≤◌, ◌<◌, ◌≡◌, ◌⊎◌, sym, ap, ◌∙◌, true, not, ◌&&◌, List, [], ◌++◌, ◌==◌,
  if◌then◌else◌, length, take, drop, length-drop, arith, if-cases, ==_iff,
}
use mathlib.Core.Bool.{true≢false}
use spp_server_frame_work.ConnSet.{
  ConnCache, ConnSet, Result, not_findfd, need_send, done, Answer, ok, getcc, is_conn, sent_len,
  is_ok, touch, set_w, send, sendfromcache,
}
use spp_server_frame_work.ConnSet.Stream.{kept, kept-set_w, kept-touch, getcc-set_cc}

-- Where `send` succeeds it returns less than it was given, or keeps nothing.
abbrev pub Tells : ℕ → List ℕ → ConnSet × Result × List ℕ → Type 0
Tells flow bytes (s', done n, gone) = (n < length bytes) ⊎ (kept s' flow ≡ [])
Tells flow bytes (s', ret, gone) = Unit {0}

pub send-Tells :
    (s : ConnSet) (flow : ℕ) (bytes : List ℕ) (now : ℕ) (first second : Answer)
    → 0 < length bytes
    → Tells flow bytes (send s flow bytes now first second)
unfolding send
send-Tells s flow bytes now first second some_bytes =
    let s1 = touch s flow now in ground (arith, kept-set_w s1 flow [])

-- What the calls leave of a connection besides its bytes and its time.
abbrev pub Same : ConnSet → ConnSet → ℕ → Type 0
Same s s' flow =
    ((getcc s' flow).type ≡ (getcc s flow).type)
    × ((getcc s' flow).fd ≡ (getcc s flow).fd)
    × ((getcc s' flow).flow ≡ (getcc s flow).flow)

touch-Same : (s : ConnSet) (flow now : ℕ) → Same s (touch s flow now) flow
unfolding touch
touch-Same s flow now =
    let e = getcc-set_cc s flow (record (getcc s flow) { access = now }) in
    (
      ap (λ (c : ConnCache). c.type) e,
      ap (λ (c : ConnCache). c.fd) e,
      ap (λ (c : ConnCache). c.flow) e,
    )

set_w-Same : (s : ConnSet) (flow : ℕ) (l : List ℕ) → Same s (set_w s flow l) flow
unfolding set_w
set_w-Same s flow l =
    let e = getcc-set_cc s flow (record (getcc s flow) { w = l }) in
    (
      ap (λ (c : ConnCache). c.type) e,
      ap (λ (c : ConnCache). c.fd) e,
      ap (λ (c : ConnCache). c.flow) e,
    )

pub is_conn-Same : (s s' : ConnSet) (flow : ℕ) → Same s s' flow → is_conn s' flow ≡ is_conn s flow
unfolding is_conn
is_conn-Same s s' flow (_, _, e) = ap (λ k. (k == flow) && not (flow == 0)) e

pub send-Same :
    (s : ConnSet) (flow : ℕ) (bytes : List ℕ) (now : ℕ) (first second : Answer)
    → Same s (send s flow bytes now first second).0 flow
unfolding send
send-Same s flow bytes now first second =
    let s1 = touch s flow now in
    let w = (getcc s1 flow).w in
    let t = touch-Same s flow now in
    ground (
      arith,
      t,
      set_w-Same s1 flow [],
      set_w-Same s1 flow (drop (sent_len first) w ++ bytes),
      set_w-Same s1 flow (drop (sent_len second) bytes),
    )

pub sendfromcache-Same :
    (s : ConnSet) (flow now : ℕ) (answer : Answer) → Same s (sendfromcache s flow now answer).0 flow
unfolding sendfromcache
sendfromcache-Same s flow now answer =
    let s1 = touch s flow now in
    let w = (getcc s1 flow).w in
    let t = touch-Same s flow now in
    ground (arith, t, set_w-Same s1 flow (drop (sent_len answer) w))

abbrev pub IsDone : Result → Type 0
IsDone (done n) = Unit {0}
IsDone ret = ⊥

-- The socket takes at least a byte: sendfromcache answers with success, and keeps less than before.
pub sendfromcache-less :
    (s : ConnSet) (flow now n : ℕ)
    → is_conn s flow ≡ true
    → (let (s', ret, gone) = sendfromcache s flow now (ok (suc n)) in
        IsDone ret × (length (kept s' flow) ≤ length (kept s flow) - 1))
unfolding sendfromcache sent_len is_ok
sendfromcache-less s flow now n h =
    let s1 = touch s flow now in
    let w = (getcc s1 flow).w in
    let e : length w ≡ length (kept s flow) = ap length (kept-touch s flow now) in
    let left = ap length (kept-set_w s1 flow (drop (suc n) w)) in
    let short : length (kept (set_w s1 flow (drop (suc n) w)) flow) ≤ length (kept s flow) - 1 =
      omega (arith, e, left, length-drop (suc n) w) in
    let T = ConnSet × Result × List ℕ in
    let P = λ (t : T). IsDone t.1 × (length (kept t.0 flow) ≤ length (kept s flow) - 1) in
    let s2 = set_w s1 flow (drop (suc n) w) in
    let all : T = (s2, done 0, take (suc n) w) in
    let part : T = (s2, done (suc n), take (suc n) w) in
    let nothing : T = (s1, done 0, []) in
    let went : T = if suc n == length w then all else part in
    let refused : T = (s1, need_send, []) in
    let answered : T = if suc n == 0 then refused else went in
    let tried : T = if length w == 0 then nothing else answered in
    if-cases P (not (is_conn s flow)) (s, not_findfd, []) tried
      (λ absent. absurd (true≢false (sym absent ∙ ap not h)))
      (λ _.
        if-cases P (length w == 0) nothing answered
          (λ none. (tt, omega (arith, e, (==_iff (length w) 0).0 none)))
          (λ _.
            if-cases P (suc n == 0) refused went
              (λ z. absurd (omega (arith, (==_iff (suc n) 0).0 z)))
              (λ _. if-cases P (suc n == length w) all part (λ _. (tt, short)) (λ _. (tt, short)))))
