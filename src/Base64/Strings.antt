-- ===== src/Base64/Strings.antt =====
-- base64_encode and base64_decode of libcomm/src/util/base64.cpp on strings.
use spp_server_frame_work.Base.{
  ◌^◌, take, take-length_append, lt→ltb, lt→not_leb, ltb, ltb→lt, ℕ, ◌+◌, ◌*◌, ◌/◌, ◌%◌, ◌<◌, ◌≡◌,
  ◌≢◌, refl, ap, ap₂, ◌∙◌, sym, true, List, [], ◌∷◌, ◌++◌, some, length, arith, append-nil,
  ==-eq_false,
}
use spp_server_frame_work.Base64.{
  base64_decode, is_positive, ended, digit, base64_encode, c_string, encode_string, decode_string,
}
use spp_server_frame_work.Base64.RoundTrip.{
  AllBytes, filling, succeeds, succeeds_at, all_masks, base64_decode-base64_encode,
}

-- No byte 0.
abbrev pub AllNonzero : List ℕ → Type 0
AllNonzero [] = Unit {0}
AllNonzero (x ∷ l) = (x ≢ 0) × AllNonzero l

c_string-append : (l m : List ℕ) → AllNonzero l → c_string (l ++ m) ≡ l ++ c_string m
unfolding c_string
c_string-append [] m h = refl
c_string-append (x ∷ l) m (hx, h) = rw (==-eq_false x 0 hx, c_string-append l m h) refl

c_string-filling : (src : List ℕ) → c_string (filling src) ≡ []
unfolding c_string
c_string-filling [] = refl
c_string-filling (x ∷ []) = refl
c_string-filling (x ∷ y ∷ []) = refl
c_string-filling (x ∷ y ∷ z ∷ src) = c_string-filling src

digit_nonzero_table : succeeds 64 (λ n. ltb 0 (digit n)) ≡ true
unfolding succeeds digit
digit_nonzero_table = refl

digit_nonzero : (c v : ℕ) → c ≡ v → v < 64 → digit c ≢ 0
digit_nonzero c v e h z = absurd (
    omega (
      arith,
      ltb→lt 0 (digit v) (succeeds_at 64 (λ n. ltb 0 (digit n)) v h digit_nonzero_table),
      sym (ap digit e) ∙ z,
    ))

base64_encode-AllNonzero : (src : List ℕ) → AllBytes src → AllNonzero (base64_encode src)
unfolding base64_encode
base64_encode-AllNonzero [] h = tt
base64_encode-AllNonzero (x ∷ []) (hx, h) =
    let (m1, m2, _, _, _, _) = all_masks x hx in
    (
      digit_nonzero _ (x / 4) m1 (omega arith),
      (
        digit_nonzero _ (x % 4 * 16) m2 (omega arith),
        ((λ e. omega arith), ((λ e. omega arith), tt)),
      ),
    )
base64_encode-AllNonzero (x ∷ y ∷ []) (hx, (hy, h)) =
    let (m1, m2, _, _, _, _) = all_masks x hx in
    let (_, _, m3, m4, _, _) = all_masks y hy in
    (
      digit_nonzero _ (x / 4) m1 (omega arith),
      (
        digit_nonzero _ (x % 4 * 16 + y / 16) (ap₂ (λ a b. a + b) m2 m3) (omega arith),
        (digit_nonzero _ (y % 16 * 4) m4 (omega arith), ((λ e. omega arith), tt)),
      ),
    )
base64_encode-AllNonzero (x ∷ y ∷ z ∷ src) (hx, (hy, (hz, h))) =
    let (m1, m2, _, _, _, _) = all_masks x hx in
    let (_, _, m3, m4, _, _) = all_masks y hy in
    let (_, _, _, _, m5, m6) = all_masks z hz in
    (
      digit_nonzero _ (x / 4) m1 (omega arith),
      (
        digit_nonzero _ (x % 4 * 16 + y / 16) (ap₂ (λ a b. a + b) m2 m3) (omega arith),
        (
          digit_nonzero _ (y % 16 * 4 + z / 64) (ap₂ (λ a b. a + b) m4 m5) (omega arith),
          (digit_nonzero _ (z % 64) m6 (omega arith), base64_encode-AllNonzero src h),
        ),
      ),
    )

length-base64_encode : (src : List ℕ) → length (base64_encode src) ≡ (length src + 2) / 3 * 4
unfolding base64_encode
length-base64_encode [] = refl
length-base64_encode (x ∷ []) = refl
length-base64_encode (x ∷ y ∷ []) = refl
length-base64_encode (x ∷ y ∷ z ∷ src) = omega (arith, length-base64_encode src)

take_all : (l : List ℕ) → take (length l) l ≡ l
take_all l = ap (take (length l)) (sym (append-nil l)) ∙ take-length_append l []

encode_string_lem :
    (dst src : List ℕ)
    → 0 < length src
    → length src < 2 ^ 30
    → encode_string dst src ≡ some (c_string (base64_encode src))
unfolding encode_string is_positive
encode_string_lem dst src some_bytes few =
    let n = length src in
    let len : n % 2 ^ 32 ≡ n = omega arith in
    rw
      (
        len,
        lt→ltb 0 n some_bytes,
        lt→ltb n (2 ^ 31) (omega arith),
        lt→not_leb (2 ^ 31) ((n + 2) / 3 * 4) (omega arith),
        take_all src,
      )
      refl

decode_string_lem :
    (dst src : List ℕ)
    → 0 < length src
    → length src < 2 ^ 31
    → decode_string dst src ≡ ended (base64_decode src)
unfolding decode_string is_positive
decode_string_lem dst src some_bytes few =
    let n = length src in
    let len : n % 2 ^ 32 ≡ n = omega arith in
    rw (len, lt→ltb 0 n some_bytes, lt→ltb n (2 ^ 31) few, take_all src) refl

-- For a string that is not empty, of less than 2 ^ 30 bytes other than 0: base64_encode gives a string,
-- of which base64_decode makes the first one again, whatever the two results were before.
pub decode_string-encode_string :
    (dst dst' src : List ℕ)
    → 0 < length src
    → length src < 2 ^ 30
    → AllBytes src
    → AllNonzero src
    → (e : List ℕ) × (encode_string dst' src ≡ some e) × (decode_string dst e ≡ some src)
unfolding c_string
decode_string-encode_string dst dst' src some_bytes few small nonzero =
    let e = base64_encode src in
    let whole : c_string e ≡ e =
      ap c_string (sym (append-nil e))
      ∙ c_string-append e [] (base64_encode-AllNonzero src small)
      ∙ append-nil e in
    let back : c_string (src ++ filling src) ≡ src =
      c_string-append src (filling src) nonzero
      ∙ ap (λ m. src ++ m) (c_string-filling src)
      ∙ append-nil src in
    let size = length-base64_encode src in
    (
      e,
      encode_string_lem dst' src some_bytes few ∙ ap (λ l. some l) whole,
      decode_string_lem dst e (omega (arith, size)) (omega (arith, size))
          ∙ ap ended (base64_decode-base64_encode src small)
          ∙ ap (λ l. some l) back,
    )
