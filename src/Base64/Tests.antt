-- ===== src/Base64/Tests.antt =====
-- base64 at concrete inputs.
use spp_server_frame_work.Base.{ℕ, ◌≡◌, refl, List, [], ◌∷◌, some, arith}
use spp_server_frame_work.Base64.{base64_encode, digit, encode_string, decode_string}
use spp_server_frame_work.Base64.Strings.{decode_string-encode_string}

abbrev foob : List ℕ
foob = 102 ∷ 111 ∷ 111 ∷ 98 ∷ []

foob_encoded : base64_encode foob ≡ 90 ∷ 109 ∷ 57 ∷ 118 ∷ 89 ∷ 103 ∷ 61 ∷ 61 ∷ []
unfolding base64_encode digit
foob_encoded = refl

decode_string-encode_string_example :
    (e : List ℕ) × (encode_string [] foob ≡ some e) × (decode_string [] e ≡ some foob)
decode_string-encode_string_example =
    decode_string-encode_string [] [] foob (omega arith) (omega arith)
      (omega arith, (omega arith, (omega arith, (omega arith, tt))))
      ((λ e. omega arith), ((λ e. omega arith), ((λ e. omega arith), ((λ e. omega arith), tt))))
