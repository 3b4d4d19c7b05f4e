-- ===== src/Xxtea/Steps.antt =====
-- One word of a round of the cipher (protocol_pack.cpp), by its neighbours in the array, and its
-- inverse.
use spp_server_frame_work.Base.{
  ℕ, zero, suc, ◌+◌, ◌-◌, ◌^◌, ◌≤◌, ◌<◌, ◌≡◌, refl, fun_ext, ap, ◌∙◌, ◌==◌, if◌then◌else◌, add32,
  sub32, arith,
}
use spp_server_frame_work.Xxtea.{Words, store, mx, key_row}

abbrev pub next : ℕ → ℕ → ℕ
next n p = if p == n then 0 else p + 1

abbrev pub prev : ℕ → ℕ → ℕ
prev n p = if p == 0 then n else p - 1

abbrev pub AllSmall : Words → Type 0
AllSmall v = (i : ℕ) → v i < 2 ^ 32

mx-lt : (sum y z : ℕ) (k : Words) (p e : ℕ) → mx sum y z k p e < 2 ^ 32
unfolding mx
mx-lt sum y z k p e = omega arith

module _ (k : Words) (sum n : ℕ) where
  abbrev pub mix : Words → ℕ → ℕ
  mix v p = mx sum (v (next n p)) (v (prev n p)) k p (key_row sum)

  unfoldable pub enc_step : ℕ → Words → Words
  enc_step p v = store v p (add32 (v p) (mix v p))

  unfoldable pub dec_step : ℕ → Words → Words
  dec_step p v = store v p (sub32 (v p) (mix v p))

  pub enc_step-AllSmall : (p : ℕ) (v : Words) → AllSmall v → AllSmall (enc_step p v)
  unfolding enc_step
  enc_step-AllSmall p v h i = ground (arith, h i)

  -- A word's neighbours are other words, so they are the same before and after.
  pub dec_step-enc_step :
      (p : ℕ) (v : Words) → 0 < n → p ≤ n → AllSmall v → dec_step p (enc_step p v) ≡ v
  unfolding dec_step enc_step
  dec_step-enc_step p v hn hp h =
      fun_ext (λ i. ground (arith, h p, mx-lt sum (v (next n p)) (v (prev n p)) k p (key_row sum)))

  -- The words 0 to `c - 1`, upwards; and back.
  unfoldable pub enc_up : ℕ → Words → Words
  enc_up zero v = v
  enc_up (suc c) v = enc_step c (enc_up c v)

  unfoldable pub dec_down : ℕ → Words → Words
  dec_down zero v = v
  dec_down (suc c) v = dec_down c (dec_step c v)

  pub enc_up-AllSmall : (c : ℕ) (v : Words) → AllSmall v → AllSmall (enc_up c v)
  unfolding enc_up
  enc_up-AllSmall zero v h = h
  enc_up-AllSmall (suc c) v h = enc_step-AllSmall c (enc_up c v) (enc_up-AllSmall c v h)

  pub dec_down-enc_up :
      (c : ℕ) (v : Words) → 0 < n → c ≤ n + 1 → AllSmall v → dec_down c (enc_up c v) ≡ v
  unfolding dec_down enc_up
  dec_down-enc_up zero v hn hc h = refl
  dec_down-enc_up (suc c) v hn hc h =
      ap (dec_down c) (dec_step-enc_step c (enc_up c v) hn (omega arith) (enc_up-AllSmall c v h))
      ∙ dec_down-enc_up c v hn (omega arith) h
