-- ===== src/ConnSet/Stream.antt =====
-- The bytes of a connection in CConnSet (connset.cpp): nothing is lost, doubled or reordered between
-- what is given to `send` and what the socket takes.
use spp_server_frame_work.Base.{
  ℕ, zero, suc, ◌≤◌, ◌%◌, ◌≡◌, refl, sym, ap, ◌∙◌, Bool, true, false, not, ◌&&◌, ◌||◌, List, [],
  ◌∷◌, ◌++◌, ltb, ◌==◌, if◌then◌else◌, length, take, drop, take-append-drop, append_assoc,
  append-nil, arith, ==-refl, not_ltb→le, if-cases,
}
use mathlib.Core.Bool.{true≢false}
use spp_server_frame_work.ConnSet.{
  ConnCache, ConnSet, Result, not_findfd, need_close, need_send, done, Answer, getcc, set_cc,
  is_conn, sent_len, is_busy, is_error, is_ok, is_again, touch, set_w, send, sendfromcache,
}

-- The bytes that are kept for sending.
abbrev pub kept : ConnSet → ℕ → List ℕ
kept s flow = (getcc s flow).w

pub getcc-set_cc : (s : ConnSet) (flow : ℕ) (cc : ConnCache) → getcc (set_cc s flow cc) flow ≡ cc
unfolding getcc set_cc
getcc-set_cc s flow cc = rw (==-refl (flow % s.maxconn)) refl

pub kept-set_w : (s : ConnSet) (flow : ℕ) (l : List ℕ) → kept (set_w s flow l) flow ≡ l
unfolding set_w
kept-set_w s flow l =
    ap (λ (c : ConnCache). c.w) (getcc-set_cc s flow (record (getcc s flow) { w = l }))

pub kept-touch : (s : ConnSet) (flow now : ℕ) → kept (touch s flow now) flow ≡ kept s flow
unfolding touch
kept-touch s flow now =
    ap (λ (c : ConnCache). c.w) (getcc-set_cc s flow (record (getcc s flow) { access = now }))

take_all : (n : ℕ) (l : List ℕ) → length l ≤ n → take n l ≡ l
take_all zero [] h = refl
take_all zero (x ∷ l) h = absurd (omega arith)
take_all (suc n) [] h = refl
take_all (suc n) (x ∷ l) h = ap (λ t. x ∷ t) (take_all n l (omega arith))

not-true : {b : Bool} → not b ≡ true → b ≡ false
not-true {b = true} h = sym h
not-true {b = false} h = refl

-- What a call has done with the bytes `all`: those that have gone out and those that are kept are
-- all of them, in order; but if the connection has to be closed, more may be lost.
pub Conserves : ℕ → List ℕ → ConnSet × Result × List ℕ → Type 0
Conserves flow all (s', need_close, gone) = (lost : List ℕ) × (gone ++ kept s' flow ++ lost ≡ all)
Conserves flow all (s', _, gone) = gone ++ kept s' flow ≡ all

-- For a flow that has a connection: `send` conserves the bytes that were kept and the new ones.
pub send-Conserves :
    (s : ConnSet) (flow : ℕ) (bytes : List ℕ) (now : ℕ) (first second : Answer)
    → is_conn s flow ≡ true
    → Conserves flow (kept s flow ++ bytes) (send s flow bytes now first second)
unfolding send Conserves
send-Conserves s flow bytes now first second h =
    let s1 = touch s flow now in
    let w = (getcc s1 flow).w in
    let n = sent_len second in
    let e : w ≡ kept s flow = kept-touch s flow now in
    let P = Conserves flow (kept s flow ++ bytes) in
    let lost_all : P (s1, need_close, []) = (bytes, ap (λ l. l ++ bytes) e) in
    let lost_new : P (set_w s1 flow [], need_close, w) = (
      bytes,
      ap (λ k. (w ++ k) ++ bytes) (kept-set_w s1 flow []) ∙ ap (λ l. l ++ bytes) (append-nil w ∙ e),
    ) in
    let T = ConnSet × Result × List ℕ in
    let behind : T =
      (set_w s1 flow (drop (sent_len first) w ++ bytes), done 0, take (sent_len first) w) in
    let part : T = (set_w s1 flow (drop n bytes), done n, w ++ take n bytes) in
    let all : T = (set_w s1 flow [], done n, w ++ take n bytes) in
    let went : T = if ltb n (length bytes) then part else all in
    let second_tried : T = if is_error second then (set_w s1 flow [], need_close, w) else went in
    let not_behind : T =
      if not (length w == 0) && is_error first then (s1, need_close, []) else second_tried in
    let busy =
      not (length w == 0) && (is_busy first || (is_ok first && ltb (sent_len first) (length w))) in
    let found : T = if busy then behind else not_behind in
    if-cases P (not (is_conn s flow)) (s, not_findfd, []) found
      (λ absent. absurd (true≢false (sym h ∙ not-true absent)))
      (λ _.
        if-cases P busy behind not_behind
          (λ _.
            ap (λ k. take (sent_len first) w ++ k)
              (kept-set_w s1 flow (drop (sent_len first) w ++ bytes))
            ∙ sym (append_assoc (take (sent_len first) w) (drop (sent_len first) w) bytes)
            ∙ ap (λ l. l ++ bytes) (take-append-drop (sent_len first) w ∙ e))
          (λ _.
            if-cases P (not (length w == 0) && is_error first) (s1, need_close, []) second_tried
              (λ _. lost_all)
              (λ _.
                if-cases P (is_error second) (set_w s1 flow [], need_close, w) went (λ _. lost_new)
                  (λ _.
                    if-cases P (ltb n (length bytes)) part all
                      (λ _.
                        ap (λ k. (w ++ take n bytes) ++ k) (kept-set_w s1 flow (drop n bytes))
                        ∙ append_assoc w (take n bytes) (drop n bytes)
                        ∙ ap (λ l. w ++ l) (take-append-drop n bytes)
                        ∙ ap (λ l. l ++ bytes) e)
                      (λ sent_all.
                        ap (λ k. (w ++ take n bytes) ++ k) (kept-set_w s1 flow [])
                        ∙ append-nil (w ++ take n bytes)
                        ∙ ap (λ l. w ++ l) (take_all n bytes (not_ltb→le n (length bytes) sent_all))
                        ∙ ap (λ l. l ++ bytes) e)))))

-- For a flow that has a connection: `sendfromcache` conserves the bytes that were kept.
pub sendfromcache-Conserves :
    (s : ConnSet) (flow now : ℕ) (answer : Answer)
    → is_conn s flow ≡ true
    → Conserves flow (kept s flow) (sendfromcache s flow now answer)
unfolding sendfromcache Conserves
sendfromcache-Conserves s flow now answer h =
    let s1 = touch s flow now in
    let w = (getcc s1 flow).w in
    let n = sent_len answer in
    let e : w ≡ kept s flow = kept-touch s flow now in
    let P = Conserves flow (kept s flow) in
    let lost_none : P (s1, need_close, []) = ([], append-nil w ∙ e) in
    let moved : take n w ++ kept (set_w s1 flow (drop n w)) flow ≡ kept s flow =
      ap (λ k. take n w ++ k) (kept-set_w s1 flow (drop n w)) ∙ take-append-drop n w ∙ e in
    let T = ConnSet × Result × List ℕ in
    let all : T = (set_w s1 flow (drop n w), done 0, take n w) in
    let part : T = (set_w s1 flow (drop n w), done n, take n w) in
    let went : T = if n == length w then all else part in
    let answered : T = if n == 0 then (s1, need_send, []) else went in
    let failed : T = if is_again answer then (s1, need_send, []) else (s1, need_close, []) in
    let tried : T = if is_ok answer then answered else failed in
    let found : T = if length w == 0 then (s1, done 0, []) else tried in
    if-cases P (not (is_conn s flow)) (s, not_findfd, []) found
      (λ absent. absurd (true≢false (sym h ∙ not-true absent)))
      (λ _.
        if-cases P (length w == 0) (s1, done 0, []) tried (λ _. e)
          (λ _.
            if-cases P (is_ok answer) answered failed
              (λ _.
                if-cases P (n == 0) (s1, need_send, []) went (λ _. e)
                  (λ _. if-cases P (n == length w) all part (λ _. moved) (λ _. moved)))
              (λ _.
                if-cases P (is_again answer) (s1, need_send, []) (s1, need_close, []) (λ _. e)
                  (λ _. lost_none))))
