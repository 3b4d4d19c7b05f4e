-- ===== src/Xxtea/Ends.antt =====
-- Decryption ends for any words, not only for encrypted ones (xxtea_long_decrypt of protocol_pack.cpp).
use spp_server_frame_work.Base.{
  ℕ, zero, suc, ◌/◌, ◌^◌, ◌≤◌, ◌<◌, ◌≡◌, ◌≢◌, sym, none, ==-eq_false, sub32, arith, dec_lt,
  le→not_ltb, lt→ltb,
}
use mathlib.Core.Option.{none-ne-some}
use spp_server_frame_work.Xxtea.{
  Words, xxtea_delta, round_count, dec_round, dec_rounds, xxtea_long_decrypt, xxtea_decrypt,
}
use spp_server_frame_work.Xxtea.RoundTrip.{sum_at, sum_at-ne-zero, round_count-le}

dec_rounds-ends :
    (i fuel : ℕ) (k : Words) (n : ℕ) (v : Words) (y : ℕ)
    → i ≤ 32
    → i < fuel
    → dec_rounds fuel k n (sum_at i) v y ≢ none
unfolding dec_rounds
dec_rounds-ends i zero k n v y hi hf = absurd (omega arith)
dec_rounds-ends zero (suc fuel) k n v y hi hf = λ e. none-ne-some v (sym e)
dec_rounds-ends (suc i) (suc fuel) k n v y hi hf =
    let sum : sub32 (sum_at (suc i)) xxtea_delta ≡ sum_at i = omega arith in
    let (v', y') = dec_round k (sum_at (suc i)) n v y in
    rw (==-eq_false (sum_at (suc i)) 0 (sum_at-ne-zero (suc i) (omega arith) hi), sum)
      (dec_rounds-ends i fuel k n v' y' (omega arith) (omega arith))

-- For any words, any key and a byte count under 2 ^ 32: decryption ends within 33 rounds.
pub xxtea_decrypt-ends :
    (v : Words) (len : ℕ) (k : Words) → len < 2 ^ 32 → xxtea_decrypt 33 v len k ≢ none
unfolding xxtea_decrypt xxtea_long_decrypt
xxtea_decrypt-ends v len k h = elim (dec_lt len 8) [
  | yes short ↦ (elim (dec_lt len 4) [
    | yes few ↦ rw (lt→ltb len 4 few) (λ e. none-ne-some v (sym e))
    | no some_words ↦
        rw (le→not_ltb len 4 (omega arith), lt→ltb (sub32 (len / 4) 1) 1 (omega arith))
          (λ e. none-ne-some v (sym e))
  ])
  | no long ↦
      (let n = sub32 (len / 4) 1 in
        let count = round_count-le n (omega arith) in
        rw (le→not_ltb len 4 (omega arith), le→not_ltb n 1 (omega arith))
          (dec_rounds-ends (round_count n) 33 k n v (v 0) count (omega (arith, count))))
]
