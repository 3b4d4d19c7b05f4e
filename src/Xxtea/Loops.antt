-- ===== src/Xxtea/Loops.antt =====
-- The loops of the cipher, which carry a neighbour in a variable, are these steps.
use spp_server_frame_work.Base.{
  ℕ, zero, suc, ◌+◌, ◌≤◌, ◌<◌, ◌≡◌, refl, sym, ap, subst, ==-refl, ◌∙◌, add32, sub32, arith,
}
use spp_server_frame_work.Xxtea.{
  Words, store, mx, key_row, enc_loop, enc_round, dec_loop, dec_round,
}
use spp_server_frame_work.Xxtea.Steps.{next, prev, mix, enc_step, dec_step, enc_up, dec_down}

module _ (k : Words) (sum n : ℕ) where
  -- The word that a loop computes with the carried neighbour.
  enc_word :
      (p : ℕ) (u : Words) (z : ℕ)
      → p < n
      → z ≡ u (prev n p)
      → add32 (u p) (mx sum (u (p + 1)) z k p (key_row sum)) ≡ add32 (u p) (mix k sum n u p)
  enc_word p u z h e = ground arith

  dec_word :
      (p : ℕ) (u : Words) (y : ℕ)
      → p < n
      → y ≡ u (next n (suc p))
      → sub32 (u (suc p)) (mx sum y (u p) k (suc p) (key_row sum))
        ≡ sub32 (u (suc p)) (mix k sum n u (suc p))
  dec_word p u y h e = ground arith

  -- From word `p` on, with `z` the word before.
  enc_loop-enc_up :
      (c p : ℕ) (v : Words) (z : ℕ)
      → p + c ≤ n
      → z ≡ enc_up k sum n p v (prev n p)
      → enc_loop k sum c p (enc_up k sum n p v) z
        ≡ (enc_up k sum n (p + c) v, enc_up k sum n (p + c) v (prev n (p + c)))
  unfolding enc_loop enc_up enc_step
  enc_loop-enc_up zero p v z h e = let e' : p + 0 ≡ p = omega arith in rw (e', e) refl
  enc_loop-enc_up (suc c) p v z h e =
      let u = enc_up k sum n p v in
      let one : p + 1 ≡ suc p = omega arith in
      let more : suc p + c ≡ p + suc c = omega arith in
      ap (λ w. enc_loop k sum c (p + 1) (store u p w) w) (enc_word p u z (omega arith) e)
      ∙ ap (λ q. enc_loop k sum c q (enc_step k sum n p u) (add32 (u p) (mix k sum n u p))) one
      ∙ enc_loop-enc_up c (suc p) v (add32 (u p) (mix k sum n u p)) (omega arith) (ground arith)
      ∙ ap (λ q. (enc_up k sum n q v, enc_up k sum n q v (prev n q))) more

  dec_loop-dec_down :
      (c : ℕ) (v : Words) (y : ℕ)
      → c ≤ n
      → y ≡ v (next n c)
      → (let (v', y') = dec_loop k sum c v y in
          (dec_step k sum n 0 v' ≡ dec_down k sum n (suc c) v) × (y' ≡ v' (next n 0)))
  unfolding dec_loop dec_down dec_step
  dec_loop-dec_down zero v y h e = (refl, e)
  dec_loop-dec_down (suc c) v y h e =
      subst
        (λ w.
          let (v', y') = dec_loop k sum c (store v (suc c) w) w in
          (dec_step k sum n 0 v' ≡ dec_down k sum n (suc (suc c)) v) × (y' ≡ v' (next n 0)))
        (sym (dec_word c v y (omega arith) e))
        (dec_loop-dec_down c (dec_step k sum n (suc c) v)
          (sub32 (v (suc c)) (mix k sum n v (suc c))) (omega arith) (ground arith))

  store_pair :
      (u : Words) (p w w' : ℕ)
      → w ≡ w'
      → ◌≡◌ {A = Words × ℕ} (store u p w, w) (store u p w', store u p w' p)
  store_pair u p w w' e = rw (e, ==-refl p) refl

  -- A round, started with the neighbour that it carries, is the steps over all words.
  pub enc_round-enc_up :
      (v : Words)
      → enc_round k sum n v (v n) ≡ (enc_up k sum n (suc n) v, enc_up k sum n (suc n) v n)
  unfolding enc_round enc_up enc_step
  enc_round-enc_up v =
      let start : 0 + n ≡ n = omega arith in
      let u = enc_up k sum n n v in
      let looped =
        enc_loop-enc_up n 0 v (v n) (omega arith) refl
        ∙ ap (λ q. (enc_up k sum n q v, enc_up k sum n q v (prev n q))) start in
      ap
        (λ (r : Words × ℕ).
          let w = add32 (r.0 n) (mx sum (r.0 0) r.1 k n (key_row sum)) in (store r.0 n w, w))
        looped
      ∙ store_pair u n (add32 (u n) (mx sum (u 0) (u (prev n n)) k n (key_row sum)))
          (add32 (u n) (mix k sum n u n)) (ground arith)

  pub dec_round-dec_down :
      (v : Words)
      → dec_round k sum n v (v 0) ≡ (dec_down k sum n (suc n) v, dec_down k sum n (suc n) v 0)
  unfolding dec_round dec_step
  dec_round-dec_down v =
      let looped = dec_loop-dec_down n v (v 0) (omega arith) (ground arith) in
      let v1 = (dec_loop k sum n v (v 0)).0 in
      let y1 = (dec_loop k sum n v (v 0)).1 in
      store_pair v1 0 (sub32 (v1 0) (mx sum y1 (v1 n) k 0 (key_row sum)))
        (sub32 (v1 0) (mix k sum n v1 0)) (ground (arith, looped.1))
      ∙ ap (λ (u : Words). (u, u 0)) looped.0
