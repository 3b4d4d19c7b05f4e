-- ===== src/Xxtea.antt =====
-- The block cipher of libprotocol/src/protocol_pack.cpp (xxtea_long_encrypt, xxtea_long_decrypt and
-- their byte counts). The words are an array from indices to values; a key has four words.
pub mod Steps
pub mod Loops
pub mod RoundTrip
pub mod Ends
mod Tests
use spp_server_frame_work.Base.{
  ℕ, zero, suc, ◌+◌, ◌*◌, ◌/◌, ◌%◌, ◌^◌, Option, none, some, bit_xor, ltb, ◌==◌, if◌then◌else◌, u32,
  add32, sub32,
}

abbrev pub Words : Type 0
Words = ℕ → ℕ

abbrev pub store : Words → ℕ → ℕ → Words
store v p w i = if i == p then w else v i

abbrev pub xxtea_delta : ℕ
xxtea_delta = 0x9e3779b9

-- XXTEA_MX, with the precedence of C: shifts, then `+`, then `&`, then `^`.
pub mx : ℕ → ℕ → ℕ → Words → ℕ → ℕ → ℕ
mx sum y z k p e =
    bit_xor (add32 (bit_xor (z / 2 ^ 5) (u32 (y * 2 ^ 2))) (bit_xor (y / 2 ^ 3) (u32 (z * 2 ^ 4))))
      (add32 (bit_xor sum y) (bit_xor (k (bit_xor (p % 4) e)) z))
    % 2 ^ 32

-- `sum >> 2 & 3`
abbrev pub key_row : ℕ → ℕ
key_row sum = sum / 4 % 4

module _ (k : Words) (sum : ℕ) where
  -- `for (p …; p < n; p++)` with the rounds left, `p`, the words and `z`.
  pub enc_loop : ℕ → ℕ → Words → ℕ → Words × ℕ
  enc_loop zero p v z = (v, z)
  enc_loop (suc c) p v z =
      let z' = add32 (v p) (mx sum (v (p + 1)) z k p (key_row sum)) in
      enc_loop c (p + 1) (store v p z') z'

  -- The body of the outer loop.
  pub enc_round : ℕ → Words → ℕ → Words × ℕ
  enc_round n v z =
      let (v1, z1) = enc_loop n 0 v z in
      let z' = add32 (v1 n) (mx sum (v1 0) z1 k n (key_row sum)) in (store v1 n z', z')

  -- `for (p = n; p > 0; p--)` with `p`, the words and `y`.
  pub dec_loop : ℕ → Words → ℕ → Words × ℕ
  dec_loop zero v y = (v, y)
  dec_loop (suc p) v y =
      let y' = sub32 (v (suc p)) (mx sum y (v p) k (suc p) (key_row sum)) in
      dec_loop p (store v (suc p) y') y'

  pub dec_round : ℕ → Words → ℕ → Words × ℕ
  dec_round n v y =
      let (v1, y1) = dec_loop n v y in
      let y' = sub32 (v1 0) (mx sum y1 (v1 n) k 0 (key_row sum)) in (store v1 0 y', y')

-- `while (0 < q--)`
pub enc_rounds : Words → ℕ → ℕ → ℕ → Words → ℕ → Words
enc_rounds k n zero sum v z = v
enc_rounds k n (suc q) sum v z =
    let sum' = add32 sum xxtea_delta in
    let (v', z') = enc_round k sum' n v z in enc_rounds k n q sum' v' z'

abbrev pub round_count : ℕ → ℕ
round_count n = 6 + 52 / (n + 1)

pub xxtea_long_encrypt : Words → ℕ → Words → Words
xxtea_long_encrypt v len k =
    let n = sub32 len 1 in
    let done = enc_rounds k n (round_count n) 0 v (v n) in if ltb n 1 then v else done

-- `while (sum != 0)`, on fuel; `none` means that the fuel ran out.
pub dec_rounds : ℕ → Words → ℕ → ℕ → Words → ℕ → Option Words
dec_rounds zero k n sum v y = none
dec_rounds (suc fuel) k n sum v y =
    let (v', y') = dec_round k sum n v y in
    let rest = dec_rounds fuel k n (sub32 sum xxtea_delta) v' y' in
    if sum == 0 then some v else rest

pub xxtea_long_decrypt : ℕ → Words → ℕ → Words → Option Words
xxtea_long_decrypt fuel v len k =
    let n = sub32 len 1 in
    let done = dec_rounds fuel k n (u32 (round_count n * xxtea_delta)) v (v 0) in
    if ltb n 1 then some v else done

-- The entry points take a length in bytes; bytes after the last whole word stay as they are.
pub xxtea_encrypt : Words → ℕ → Words → Words
xxtea_encrypt v len k = let done = xxtea_long_encrypt v (len / 4) k in if ltb len 4 then v else done

pub xxtea_decrypt : ℕ → Words → ℕ → Words → Option Words
xxtea_decrypt fuel v len k =
    let done = xxtea_long_decrypt fuel v (len / 4) k in if ltb len 4 then some v else done
