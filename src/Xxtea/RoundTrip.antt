-- ===== src/Xxtea/RoundTrip.antt =====
-- Decryption undoes encryption (xxtea_long_encrypt and xxtea_long_decrypt of protocol_pack.cpp).
use spp_server_frame_work.Base.{
  ℕ, zero, suc, ◌+◌, ◌*◌, ◌/◌, ◌^◌, ◌≤◌, ◌<◌, ◌≡◌, ◌≢◌, refl, sym, subst, ap, ◌∙◌, Bool, some,
  ==-eq_false, if◌then◌else◌, u32, add32, sub32, arith, dec_lt, le→not_ltb,
}
use native.Mathlib.Nat.{div-mul-le_self}
use spp_server_frame_work.Xxtea.{
  Words, xxtea_delta, round_count, enc_round, dec_round, enc_rounds, dec_rounds, xxtea_long_encrypt,
  xxtea_long_decrypt, xxtea_encrypt, xxtea_decrypt,
}
use spp_server_frame_work.Xxtea.Steps.{AllSmall, enc_up, enc_up-AllSmall, dec_down-enc_up}
use spp_server_frame_work.Xxtea.Loops.{enc_round-enc_up, dec_round-dec_down}

-- `sum` in round `i`.
abbrev pub sum_at : ℕ → ℕ
sum_at i = u32 (i * xxtea_delta)

pub sum_at-ne-zero : (i : ℕ) → 0 < i → i ≤ 32 → sum_at i ≢ 0
sum_at-ne-zero i p h = omega arith

module _ (k : Words) (n : ℕ) where
  -- The words after the first `i` rounds.
  after : ℕ → Words → Words
  after zero v = v
  after (suc i) v = enc_up k (sum_at (suc i)) n (suc n) (after i v)

  after-AllSmall : (i : ℕ) (v : Words) → AllSmall v → AllSmall (after i v)
  unfolding after
  after-AllSmall zero v h = h
  after-AllSmall (suc i) v h =
      enc_up-AllSmall k (sum_at (suc i)) n (suc n) (after i v) (after-AllSmall i v h)

  enc_rounds-after :
      (q i : ℕ) (v : Words)
      → enc_rounds k n q (sum_at i) (after i v) (after i v n) ≡ after (q + i) v
  unfolding enc_rounds after
  enc_rounds-after zero i v = ap (λ j. after j v) (omega arith)
  enc_rounds-after (suc q) i v =
      let sum : add32 (sum_at i) xxtea_delta ≡ sum_at (suc i) = omega arith in
      let count : q + suc i ≡ suc q + i = omega arith in
      ap
        (λ s.
          (let (v', z') = enc_round k s n (after i v) (after i v n) in enc_rounds k n q s v' z'))
        sum
      ∙ ap (λ (r : Words × ℕ). enc_rounds k n q (sum_at (suc i)) r.0 r.1)
          (enc_round-enc_up k (sum_at (suc i)) n (after i v))
      ∙ enc_rounds-after q (suc i) v
      ∙ ap (λ j. after j v) count

  dec_rounds-after :
      (i fuel : ℕ) (v : Words)
      → 0 < n
      → i ≤ 32
      → i < fuel
      → AllSmall v
      → dec_rounds fuel k n (sum_at i) (after i v) (after i v 0) ≡ some v
  unfolding dec_rounds after
  dec_rounds-after i zero v hn hi hf h = absurd (omega arith)
  dec_rounds-after zero (suc fuel) v hn hi hf h = refl
  dec_rounds-after (suc i) (suc fuel) v hn hi hf h =
      let s = sum_at (suc i) in
      let u = enc_up k s n (suc n) (after i v) in
      let sum : sub32 s xxtea_delta ≡ sum_at i = omega arith in
      let undone =
        dec_round-dec_down k s n u
        ∙ ap (λ (w : Words). (w, w 0))
            (dec_down-enc_up k s n (suc n) (after i v) hn (omega arith) (after-AllSmall i v h)) in
      ap
        (λ (b : Bool).
          if b
          then some u
          else (let (v', y') = dec_round k s n u (u 0) in
              dec_rounds fuel k n (sub32 s xxtea_delta) v' y'))
        (==-eq_false s 0 (sum_at-ne-zero (suc i) (omega arith) hi))
      ∙ ap (λ (r : Words × ℕ). dec_rounds fuel k n (sub32 s xxtea_delta) r.0 r.1) undone
      ∙ ap (λ t. dec_rounds fuel k n t (after i v) (after i v 0)) sum
      ∙ dec_rounds-after i fuel v hn (omega arith) (omega arith) h

pub round_count-le : (n : ℕ) → 0 < n → round_count n ≤ 32
round_count-le n h = grind (arith, div-mul-le_self 52 (n + 1))

rounds_undone :
    (k : Words) (n : ℕ) (v : Words)
    → 0 < n
    → AllSmall v
    → (let w = enc_rounds k n (round_count n) 0 v (v n) in
        dec_rounds 33 k n (u32 (round_count n * xxtea_delta)) w (w 0) ≡ some v)
unfolding after
rounds_undone k n v hn h =
    let rounds : round_count n + 0 ≡ round_count n = omega arith in
    let encrypted = enc_rounds-after k n (round_count n) 0 v ∙ ap (λ j. after k n j v) rounds in
    ap (λ (w : Words). dec_rounds 33 k n (u32 (round_count n * xxtea_delta)) w (w 0)) encrypted
    ∙ dec_rounds-after k n (round_count n) 33 v hn (round_count-le n hn)
        (omega (arith, round_count-le n hn)) h

-- For words under 2 ^ 32 and a byte count under 2 ^ 32: decryption ends within 33 rounds and gives the
-- words back, for every key.
pub xxtea_decrypt-xxtea_encrypt :
    (v : Words) (len : ℕ) (k : Words)
    → len < 2 ^ 32
    → AllSmall v
    → xxtea_decrypt 33 (xxtea_encrypt v len k) len k ≡ some v
unfolding xxtea_decrypt xxtea_encrypt xxtea_long_encrypt xxtea_long_decrypt
xxtea_decrypt-xxtea_encrypt v len k hl h = elim (dec_lt len 8) [
  | yes short ↦ ground arith
  | no long ↦
      rw (le→not_ltb len 4 (omega arith), le→not_ltb (sub32 (len / 4) 1) 1 (omega arith))
        (rounds_undone k (sub32 (len / 4) 1) v (omega arith) h)
]

-- Encryption keeps words under 2 ^ 32.
pub xxtea_encrypt-AllSmall :
    (v : Words) (len : ℕ) (k : Words) → AllSmall v → AllSmall (xxtea_encrypt v len k)
unfolding xxtea_encrypt xxtea_long_encrypt after
xxtea_encrypt-AllSmall v len k h i =
    let n = sub32 (len / 4) 1 in
    let done : enc_rounds k n (round_count n) 0 v (v n) i < 2 ^ 32 =
      subst (λ (w : Words). w i < 2 ^ 32) (sym (enc_rounds-after k n (round_count n) 0 v))
        (after-AllSmall k n (round_count n + 0) v h i) in
    ground (arith, h i, done)
