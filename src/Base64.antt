-- ===== src/Base64.antt =====
-- base64_encode and base64_decode of libcomm/src/util/base64.cpp. A `char` is the number of its bits, of
-- which `<<`, `&` and `|` give the same low eight as of a signed one; only `>>` looks at the sign.
pub mod RoundTrip
pub mod Strings
mod Tests
use Prim.Native.Nat.{bit_or}
use spp_server_frame_work.Base.{
  not, take, ℕ, zero, suc, ◌+◌, ◌-◌, ◌*◌, ◌/◌, ◌%◌, ◌^◌, Bool, ◌&&◌, List, [], ◌∷◌, ◌++◌, Option,
  none, some, bit_and, ltb, leb, ◌==◌, if◌then◌else◌, length, get_or,
}

-- The characters of the digits.
abbrev base64_map : List ℕ
base64_map =
    65 ∷ 66 ∷ 67 ∷ 68 ∷ 69 ∷ 70 ∷ 71 ∷ 72 ∷ 73 ∷ 74 ∷ 75 ∷ 76 ∷ 77 ∷ 78 ∷ 79 ∷ 80 ∷ 81 ∷ 82 ∷ 83
    ∷ 84 ∷ 85 ∷ 86 ∷ 87 ∷ 88 ∷ 89 ∷ 90 ∷ 97 ∷ 98 ∷ 99 ∷ 100 ∷ 101 ∷ 102 ∷ 103 ∷ 104 ∷ 105 ∷ 106
    ∷ 107 ∷ 108 ∷ 109 ∷ 110 ∷ 111 ∷ 112 ∷ 113 ∷ 114 ∷ 115 ∷ 116 ∷ 117 ∷ 118 ∷ 119 ∷ 120 ∷ 121 ∷ 122
    ∷ 48 ∷ 49 ∷ 50 ∷ 51 ∷ 52 ∷ 53 ∷ 54 ∷ 55 ∷ 56 ∷ 57 ∷ 43 ∷ 47 ∷ []

abbrev base64_decode_map : List ℕ
base64_decode_map =
    255 ∷ 255 ∷ 255 ∷ 255 ∷ 255 ∷ 255 ∷ 255 ∷ 255 ∷ 255 ∷ 255 ∷ 255 ∷ 255 ∷ 255 ∷ 255 ∷ 255 ∷ 255
    ∷ 255 ∷ 255 ∷ 255 ∷ 255 ∷ 255 ∷ 255 ∷ 255 ∷ 255 ∷ 255 ∷ 255 ∷ 255 ∷ 255 ∷ 255 ∷ 255 ∷ 255 ∷ 255
    ∷ 255 ∷ 255 ∷ 255 ∷ 255 ∷ 255 ∷ 255 ∷ 255 ∷ 255 ∷ 255 ∷ 255 ∷ 255 ∷ 62 ∷ 255 ∷ 255 ∷ 255 ∷ 63
    ∷ 52 ∷ 53 ∷ 54 ∷ 55 ∷ 56 ∷ 57 ∷ 58 ∷ 59 ∷ 60 ∷ 61 ∷ 255 ∷ 255 ∷ 255 ∷ 0 ∷ 255 ∷ 255 ∷ 255 ∷ 0
    ∷ 1 ∷ 2 ∷ 3 ∷ 4 ∷ 5 ∷ 6 ∷ 7 ∷ 8 ∷ 9 ∷ 10 ∷ 11 ∷ 12 ∷ 13 ∷ 14 ∷ 15 ∷ 16 ∷ 17 ∷ 18 ∷ 19 ∷ 20 ∷ 21
    ∷ 22 ∷ 23 ∷ 24 ∷ 25 ∷ 255 ∷ 255 ∷ 255 ∷ 255 ∷ 255 ∷ 255 ∷ 26 ∷ 27 ∷ 28 ∷ 29 ∷ 30 ∷ 31 ∷ 32 ∷ 33
    ∷ 34 ∷ 35 ∷ 36 ∷ 37 ∷ 38 ∷ 39 ∷ 40 ∷ 41 ∷ 42 ∷ 43 ∷ 44 ∷ 45 ∷ 46 ∷ 47 ∷ 48 ∷ 49 ∷ 50 ∷ 51 ∷ 255
    ∷ 255 ∷ 255 ∷ 255 ∷ 255 ∷ 255 ∷ 255 ∷ 255 ∷ 255 ∷ 255 ∷ 255 ∷ 255 ∷ 255 ∷ 255 ∷ 255 ∷ 255 ∷ 255
    ∷ 255 ∷ 255 ∷ 255 ∷ 255 ∷ 255 ∷ 255 ∷ 255 ∷ 255 ∷ 255 ∷ 255 ∷ 255 ∷ 255 ∷ 255 ∷ 255 ∷ 255 ∷ 255
    ∷ 255 ∷ 255 ∷ 255 ∷ 255 ∷ 255 ∷ 255 ∷ 255 ∷ 255 ∷ 255 ∷ 255 ∷ 255 ∷ 255 ∷ 255 ∷ 255 ∷ 255 ∷ 255
    ∷ 255 ∷ 255 ∷ 255 ∷ 255 ∷ 255 ∷ 255 ∷ 255 ∷ 255 ∷ 255 ∷ 255 ∷ 255 ∷ 255 ∷ 255 ∷ 255 ∷ 255 ∷ 255
    ∷ 255 ∷ 255 ∷ 255 ∷ 255 ∷ 255 ∷ 255 ∷ 255 ∷ 255 ∷ 255 ∷ 255 ∷ 255 ∷ 255 ∷ 255 ∷ 255 ∷ 255 ∷ 255
    ∷ 255 ∷ 255 ∷ 255 ∷ 255 ∷ 255 ∷ 255 ∷ 255 ∷ 255 ∷ 255 ∷ 255 ∷ 255 ∷ 255 ∷ 255 ∷ 255 ∷ 255 ∷ 255
    ∷ 255 ∷ 255 ∷ 255 ∷ 255 ∷ 255 ∷ 255 ∷ 255 ∷ 255 ∷ 255 ∷ 255 ∷ 255 ∷ 255 ∷ 255 ∷ 255 ∷ 255 ∷ 255
    ∷ 255 ∷ 255 ∷ 255 ∷ 255 ∷ 255 ∷ 255 ∷ 255 ∷ 255 ∷ 255 ∷ 255 ∷ 255 ∷ 255 ∷ 255 ∷ 255 ∷ 255 ∷ 255
    ∷ 255 ∷ 255 ∷ 255 ∷ 255 ∷ []

unfoldable pub digit : ℕ → ℕ
digit n = get_or base64_map n 0

-- The four digits of three bytes, in order; a missing byte counts as 0.
abbrev pub digit_1 : ℕ → ℕ
digit_1 x = digit (bit_and (x / 4) 0x3F)

abbrev pub digit_2 : ℕ → ℕ → ℕ
digit_2 x y = digit (bit_and (x * 16) 0x30 + bit_and (y / 16) 0xF)

abbrev pub digit_3 : ℕ → ℕ → ℕ
digit_3 y z = digit (bit_and (y * 4) 0x3C + bit_and (z / 64) 3)

abbrev pub digit_4 : ℕ → ℕ
digit_4 z = digit (bit_and z 0x3F)

-- The character `=`.
abbrev pub padding : ℕ
padding = 61

unfoldable pub base64_encode : List ℕ → List ℕ
base64_encode [] = []
base64_encode (x ∷ []) = digit_1 x ∷ digit (bit_and (x * 16) 0x30) ∷ padding ∷ padding ∷ []
base64_encode (x ∷ y ∷ []) = digit_1 x ∷ digit_2 x y ∷ digit (bit_and (y * 4) 0x3C) ∷ padding ∷ []
base64_encode (x ∷ y ∷ z ∷ src) =
    digit_1 x ∷ digit_2 x y ∷ digit_3 y z ∷ digit_4 z ∷ base64_encode src

unfoldable pub value : ℕ → ℕ
value c = get_or base64_decode_map c 0

-- `>>` on a signed `char`.
unfoldable pub shift_right : ℕ → ℕ → ℕ
shift_right v n = if leb 128 v then v / 2 ^ n + (256 - 2 ^ (8 - n)) else v / 2 ^ n

-- Three bytes from four values.
abbrev pub bytes_of : ℕ → ℕ → ℕ → ℕ → List ℕ
bytes_of a b c d =
    bit_or (a * 4) (shift_right b 4) % 256
    ∷ bit_or (b * 16) (shift_right c 2) % 256
    ∷ bit_or (c * 64) d % 256
    ∷ []

-- A character of 128 or more is a negative index.
abbrev pub in_map : ℕ → ℕ → ℕ → ℕ → Bool
in_map a b c d = ltb a 128 && (ltb b 128 && (ltb c 128 && ltb d 128))

abbrev pub with_front : List ℕ → Option (List ℕ) → Option (List ℕ)
with_front l none = none
with_front l (some m) = some (l ++ m)

-- `none` where the loop reads outside an array: behind the end of a source whose length is not a
-- multiple of 4, or before the start of the map.
unfoldable pub base64_decode : List ℕ → Option (List ℕ)
base64_decode (a ∷ b ∷ c ∷ d ∷ src) =
    let rest = base64_decode src in
    if in_map a b c d
    then with_front (bytes_of (value a) (value b) (value c) (value d)) rest
    else none
base64_decode [] = some []
base64_decode src = none

-- The bytes of an array up to the end of a string.
unfoldable pub c_string : List ℕ → List ℕ
c_string [] = []
c_string (x ∷ l) = if x == 0 then [] else x ∷ c_string l

abbrev pub ended : Option (List ℕ) → Option (List ℕ)
ended none = none
ended (some l) = some (c_string l)

-- The int of a length, as the number of its 32 bits, is positive.
unfoldable pub is_positive : ℕ → Bool
is_positive n = ltb 0 n && ltb n (2 ^ 31)

-- The two functions on a `std::string`, with its old value. `src_len` has 32 bits of the length; `none`
-- where `dstlen` is over the range of an int, or where the loop reads outside an array.
unfoldable pub encode_string : List ℕ → List ℕ → Option (List ℕ)
encode_string dst src =
    let src_len = length src % 2 ^ 32 in
    let dstlen = (src_len + 2) / 3 * 4 in
    if not (is_positive src_len)
    then some dst
    else if leb (2 ^ 31) dstlen
    then none
    else some (c_string (base64_encode (take src_len src)))

unfoldable pub decode_string : List ℕ → List ℕ → Option (List ℕ)
decode_string dst src =
    let src_len = length src % 2 ^ 32 in
    if not (is_positive src_len) then some dst else ended (base64_decode (take src_len src))
