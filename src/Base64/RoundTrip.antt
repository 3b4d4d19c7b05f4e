-- ===== src/Base64/RoundTrip.antt =====
-- Decoding what base64_encode of libcomm/src/util/base64.cpp has made.
use Prim.Native.Nat.{bit_or}
use spp_server_frame_work.Base.{
  if◌then◌else◌, ℕ, zero, suc, ◌+◌, ◌*◌, ◌/◌, ◌%◌, ◌<◌, ◌≡◌, refl, ap, ap₂, ◌∙◌, Bool, true, false,
  lt→not_leb, ◌^◌, ◌&&◌, List, [], ◌∷◌, ◌++◌, some, bit_and, ltb, ◌==◌, arith,
}
use mathlib.Core.Bool.{false≢true}
use spp_server_frame_work.Base64.{digit, padding, value, shift_right, base64_encode, base64_decode}

equal : (a b : ℕ) → (a == b) ≡ true → a ≡ b
equal a b h = ground arith

-- Whether a test succeeds on all numbers below a bound, which is found by running it.
unfoldable pub succeeds : ℕ → (ℕ → Bool) → Bool
succeeds zero test = true
succeeds (suc bound) test = if test bound then succeeds bound test else false

pub succeeds_at :
    (bound : ℕ) (test : ℕ → Bool) (k : ℕ) → k < bound → succeeds bound test ≡ true → test k ≡ true
unfolding succeeds
succeeds_at zero test k below run = absurd (omega arith)
succeeds_at (suc bound) test k below run =
    let earlier = succeeds_at bound test k in ground (arith, earlier)

-- The digits.
value-digit_table : succeeds 64 (λ n. value (digit n) == n) ≡ true
unfolding succeeds value digit
value-digit_table = refl

value-digit : (n : ℕ) → n < 64 → value (digit n) ≡ n
value-digit n h =
    equal (value (digit n)) n (succeeds_at 64 (λ n. value (digit n) == n) n h value-digit_table)

digit_small_table : succeeds 64 (λ n. ltb (digit n) 128) ≡ true
unfolding succeeds digit
digit_small_table = refl

digit_small : (n : ℕ) → n < 64 → ltb (digit n) 128 ≡ true
digit_small n h = succeeds_at 64 (λ n. ltb (digit n) 128) n h digit_small_table

-- The masks.
low_table :
    succeeds 256 (λ x.
      (bit_and (x / 4) 0x3F == x / 4)
      && ((bit_and (x * 16) 0x30 == x % 4 * 16)
          && ((bit_and (x / 16) 0xF == x / 16)
              && ((bit_and (x * 4) 0x3C == x % 16 * 4)
                  && ((bit_and (x / 64) 3 == x / 64) && (bit_and x 0x3F == x % 64))))))
    ≡ true
unfolding succeeds
low_table = refl

or_table :
    succeeds 4096 (λ n.
      (bit_or (n / 4 * 4) (n % 4) == n)
      && ((bit_or (n / 16 * 16) (n % 16) == n) && (bit_or (n / 64 * 64) (n % 64) == n)))
    ≡ true
unfolding succeeds
or_table = refl

and_left : (p q : Bool) → (p && q) ≡ true → p ≡ true
and_left true q h = refl
and_left false q h = h

and_right : (p q : Bool) → (p && q) ≡ true → q ≡ true
and_right true q h = h
and_right false q h = absurd (false≢true h)

-- What a mask keeps of a byte.
module _ (x : ℕ) (small : x < 256) where
  masks : Bool × Bool × Bool × Bool × Bool × Bool
  masks = (
    bit_and (x / 4) 0x3F == x / 4,
    bit_and (x * 16) 0x30 == x % 4 * 16,
    bit_and (x / 16) 0xF == x / 16,
    bit_and (x * 4) 0x3C == x % 16 * 4,
    bit_and (x / 64) 3 == x / 64,
    bit_and x 0x3F == x % 64,
  )

  pub all_masks :
      (bit_and (x / 4) 0x3F ≡ x / 4)
      × (bit_and (x * 16) 0x30 ≡ x % 4 * 16)
      × (bit_and (x / 16) 0xF ≡ x / 16)
      × (bit_and (x * 4) 0x3C ≡ x % 16 * 4)
      × (bit_and (x / 64) 3 ≡ x / 64)
      × (bit_and x 0x3F ≡ x % 64)
  unfolding masks
  all_masks =
      let (a, b, c, d, e, f) = masks in
      let h = succeeds_at 256 _ x small low_table in
      let h1 = and_right a (b && (c && (d && (e && f)))) h in
      let h2 = and_right b (c && (d && (e && f))) h1 in
      let h3 = and_right c (d && (e && f)) h2 in
      let h4 = and_right d (e && f) h3 in
      (
        equal _ _ (and_left a (b && (c && (d && (e && f)))) h),
        equal _ _ (and_left b (c && (d && (e && f))) h1),
        equal _ _ (and_left c (d && (e && f)) h2),
        equal _ _ (and_left d (e && f) h3),
        equal _ _ (and_left e f h4),
        equal _ _ (and_right e f h4),
      )

module _ (n : ℕ) (small : n < 4096) where
  all_ors :
      (bit_or (n / 4 * 4) (n % 4) ≡ n)
      × (bit_or (n / 16 * 16) (n % 16) ≡ n)
      × (bit_or (n / 64 * 64) (n % 64) ≡ n)
  all_ors =
      let a = bit_or (n / 4 * 4) (n % 4) == n in
      let b = bit_or (n / 16 * 16) (n % 16) == n in
      let c = bit_or (n / 64 * 64) (n % 64) == n in
      let h = succeeds_at 4096 _ n small or_table in
      let h1 = and_right a (b && c) h in
      (equal _ _ (and_left a (b && c) h), equal _ _ (and_left b c h1), equal _ _ (and_right b c h1))

shift_right_small : (v n : ℕ) → v < 128 → shift_right v n ≡ v / 2 ^ n
unfolding shift_right
shift_right_small v n h = rw (lt→not_leb 128 v h) refl

module _ (x y z : ℕ) (x_small : x < 256) (y_small : y < 256) (z_small : z < 256) where
  first : bit_or (x / 4 * 4) (shift_right (x % 4 * 16 + y / 16) 4) % 256 ≡ x
  first =
      let v = x % 4 * 16 + y / 16 in
      let low : shift_right v 4 ≡ x % 4 = shift_right_small v 4 (omega arith) ∙ omega arith in
      rw low (omega (arith, (all_ors x (omega arith)).0))

  second : bit_or ((x % 4 * 16 + y / 16) * 16) (shift_right (y % 16 * 4 + z / 64) 2) % 256 ≡ y
  second =
      let v = y % 16 * 4 + z / 64 in
      let n = (x % 4 * 16 + y / 16) * 16 + y % 16 in
      let low : shift_right v 2 ≡ n % 16 = shift_right_small v 2 (omega arith) ∙ omega arith in
      let high : (x % 4 * 16 + y / 16) * 16 ≡ n / 16 * 16 = omega arith in
      ap₂ (λ a b. bit_or a b % 256) high low ∙ omega (arith, (all_ors n (omega arith)).1)

  third : bit_or ((y % 16 * 4 + z / 64) * 64) (z % 64) % 256 ≡ z
  third =
      let n = (y % 16 * 4 + z / 64) * 64 + z % 64 in
      let low : z % 64 ≡ n % 64 = omega arith in
      let high : (y % 16 * 4 + z / 64) * 64 ≡ n / 64 * 64 = omega arith in
      ap₂ (λ a b. bit_or a b % 256) high low ∙ omega (arith, (all_ors n (omega arith)).2)

-- A character for a value.
abbrev Stands : ℕ → ℕ → Type 0
Stands c v = (value c ≡ v) × (ltb c 128 ≡ true)

digit-Stands : (c v : ℕ) → c ≡ digit v → v < 64 → Stands c v
digit-Stands c v e h = (ap value e ∙ value-digit v h, ap (λ c. ltb c 128) e ∙ digit_small v h)

padding-Stands : Stands padding 0
unfolding value
padding-Stands = (refl, refl)

-- Four characters for three bytes.
decoded_four :
    (x y z a b c d : ℕ) (src l : List ℕ)
    → x < 256
    → y < 256
    → z < 256
    → Stands a (x / 4)
    → Stands b (x % 4 * 16 + y / 16)
    → Stands c (y % 16 * 4 + z / 64)
    → Stands d (z % 64)
    → base64_decode src ≡ some l
    → base64_decode (a ∷ b ∷ c ∷ d ∷ src) ≡ some (x ∷ y ∷ z ∷ l)
unfolding base64_decode
decoded_four x y z a b c d src l hx hy hz (va, sa) (vb, sb) (vc, sc) (vd, sd) e =
    rw
      (
        sa,
        sb,
        sc,
        sd,
        e,
        va,
        vb,
        vc,
        vd,
        first x y z hx hy hz,
        second x y z hx hy hz,
        third x y z hx hy hz,
      )
      refl

nothing : base64_decode [] ≡ some []
unfolding base64_decode
nothing = refl

abbrev pub AllBytes : List ℕ → Type 0
AllBytes [] = Unit {0}
AllBytes (x ∷ l) = (x < 256) × AllBytes l

-- The bytes 0 that fill the last three.
abbrev pub filling : List ℕ → List ℕ
filling [] = []
filling (x ∷ []) = 0 ∷ 0 ∷ []
filling (x ∷ y ∷ []) = 0 ∷ []
filling (x ∷ y ∷ z ∷ src) = filling src

-- For bytes: base64_decode of what base64_encode makes of them gives the bytes again, with one or two
-- bytes 0 behind them where their number is not a multiple of three.
pub base64_decode-base64_encode :
    (src : List ℕ) → AllBytes src → base64_decode (base64_encode src) ≡ some (src ++ filling src)
unfolding base64_encode
base64_decode-base64_encode [] h = nothing
base64_decode-base64_encode (x ∷ []) (hx, h) =
    let (m1, m2, _, _, _, _) = all_masks x hx in
    decoded_four x 0 0 _ _ padding padding [] [] hx (omega arith) (omega arith)
      (digit-Stands _ (x / 4) (ap digit m1) (omega arith))
      (digit-Stands _ (x % 4 * 16 + 0 / 16) (ap digit (m2 ∙ omega arith)) (omega arith))
      padding-Stands padding-Stands nothing
base64_decode-base64_encode (x ∷ y ∷ []) (hx, (hy, h)) =
    let (m1, m2, _, _, _, _) = all_masks x hx in
    let (_, _, m3, m4, _, _) = all_masks y hy in
    decoded_four x y 0 _ _ _ padding [] [] hx hy (omega arith)
      (digit-Stands _ (x / 4) (ap digit m1) (omega arith))
      (digit-Stands _ (x % 4 * 16 + y / 16) (ap₂ (λ a b. digit (a + b)) m2 m3) (omega arith))
      (digit-Stands _ (y % 16 * 4 + 0 / 64) (ap digit (m4 ∙ omega arith)) (omega arith))
      padding-Stands nothing
base64_decode-base64_encode (x ∷ y ∷ z ∷ src) (hx, (hy, (hz, h))) =
    let (m1, m2, _, _, _, _) = all_masks x hx in
    let (_, _, m3, m4, _, _) = all_masks y hy in
    let (_, _, _, _, m5, m6) = all_masks z hz in
    decoded_four x y z _ _ _ _ (base64_encode src) (src ++ filling src) hx hy hz
      (digit-Stands _ (x / 4) (ap digit m1) (omega arith))
      (digit-Stands _ (x % 4 * 16 + y / 16) (ap₂ (λ a b. digit (a + b)) m2 m3) (omega arith))
      (digit-Stands _ (y % 16 * 4 + z / 64) (ap₂ (λ a b. digit (a + b)) m4 m5) (omega arith))
      (digit-Stands _ (z % 64) (ap digit m6) (omega arith)) (base64_decode-base64_encode src h)
