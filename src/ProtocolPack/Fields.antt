-- ===== src/ProtocolPack/Fields.antt =====
-- Bytes written to and read from a pack in memory, and numbers in the order of the network
-- (protocol_pack.h, protocol_pack.cpp).
use spp_server_frame_work.Base.{
  ℕ, ◌+◌, ◌*◌, ◌/◌, ◌%◌, ◌^◌, ◌<◌, ◌≡◌, ap, ap₂, ◌∙◌, List, [], ◌∷◌, ◌++◌, length, le_bytes, of_le,
  u32, arith, Memory, copy_out, copy_out-put_next,
}
use spp_server_frame_work.ProtocolPack.{store16, store32, htons, htonl, myhtonll, myntohll}

-- The bytes of a number, the highest first.
abbrev pub be_bytes2 : ℕ → List ℕ
be_bytes2 n = n / 2 ^ 8 % 2 ^ 8 ∷ n % 2 ^ 8 ∷ []

abbrev pub be_bytes4 : ℕ → List ℕ
be_bytes4 n = n / 2 ^ 24 % 2 ^ 8 ∷ n / 2 ^ 16 % 2 ^ 8 ∷ n / 2 ^ 8 % 2 ^ 8 ∷ n % 2 ^ 8 ∷ []

abbrev pub be_bytes8 : ℕ → List ℕ
be_bytes8 n = be_bytes4 (n / 2 ^ 32) ++ be_bytes4 n

abbrev cons2 : ℕ → ℕ → List ℕ
cons2 a b = a ∷ b ∷ []

abbrev cons4 : ℕ → ℕ → ℕ → ℕ → List ℕ
cons4 a b c d = a ∷ b ∷ c ∷ d ∷ []

cons4_eq :
    {a b c d a' b' c' d' : ℕ}
    → a ≡ a'
    → b ≡ b'
    → c ≡ c'
    → d ≡ d'
    → cons4 a b c d ≡ cons4 a' b' c' d'
cons4_eq {a} {b} {c} {d} {a'} {b'} {c'} {d'} e f g h =
    ap₂ (λ s t. cons4 s t c d) e f ∙ ap₂ (λ s t. cons4 a' b' s t) g h

pub le_bytes-htons : (n : ℕ) → le_bytes 2 (htons n) ≡ be_bytes2 n
unfolding htons
le_bytes-htons n = ap₂ cons2 (omega arith) (omega arith)

pub le_bytes-htonl : (n : ℕ) → le_bytes 4 (htonl n) ≡ be_bytes4 n
unfolding htonl
le_bytes-htonl n =
    let a : htonl n % 256 ≡ n / 2 ^ 24 % 2 ^ 8 = omega arith in
    let b : htonl n / 256 % 256 ≡ n / 2 ^ 16 % 2 ^ 8 = omega arith in
    let c : htonl n / 256 / 256 % 256 ≡ n / 2 ^ 8 % 2 ^ 8 = omega arith in
    let d : htonl n / 256 / 256 / 256 % 256 ≡ n % 2 ^ 8 = omega arith in cons4_eq a b c d

pub htons-of_be : (n : ℕ) → n < 2 ^ 16 → htons (of_le (be_bytes2 n)) ≡ n
unfolding htons
htons-of_be n h = omega arith

pub htonl-of_be : (n : ℕ) → n < 2 ^ 32 → htonl (of_le (be_bytes4 n)) ≡ n
unfolding htonl
htonl-of_be n h = omega arith

le_bytes-split :
    (a b : ℕ)
    → a < 2 ^ 32
    → b < 2 ^ 32
    → le_bytes 8 ((b * 2 ^ 32 + a) % 2 ^ 64) ≡ le_bytes 4 a ++ le_bytes 4 b
le_bytes-split a b h h' =
    let low : le_bytes 4 ((b * 2 ^ 32 + a) % 2 ^ 64) ≡ le_bytes 4 a =
      cons4_eq (omega arith) (omega arith) (omega arith) (omega arith) in
    ap₂ ◌++◌ low (ap (le_bytes 4) (omega arith))

pub htonl-fits : (n : ℕ) → htonl n < 2 ^ 32
unfolding htonl
htonl-fits n = omega arith

pub le_bytes-myhtonll : (n : ℕ) → n < 2 ^ 64 → le_bytes 8 (myhtonll n) ≡ be_bytes8 n
unfolding myhtonll
le_bytes-myhtonll n h =
    let high : u32 (n / 2 ^ 32) ≡ n / 2 ^ 32 = omega arith in
    let low : be_bytes4 (u32 n) ≡ be_bytes4 n =
      cons4_eq (omega arith) (omega arith) (omega arith) (omega arith) in
    le_bytes-split (htonl (u32 (n / 2 ^ 32))) (htonl (u32 n)) (htonl-fits (u32 (n / 2 ^ 32)))
      (htonl-fits (u32 n))
    ∙ ap₂ ◌++◌ (le_bytes-htonl (u32 (n / 2 ^ 32))) (le_bytes-htonl (u32 n))
    ∙ ap₂ ◌++◌ (ap be_bytes4 high) low

pub myntohll-of_be : (n : ℕ) → n < 2 ^ 64 → myntohll (of_le (be_bytes8 n)) ≡ n
unfolding myntohll htonl
myntohll-of_be n h = omega arith

-- Numbers written behind what is known.
pub copy_out-store16 :
    (m : Memory) (pos : ℕ) (pre : List ℕ) (dst n v : ℕ)
    → dst ≡ pos + length pre
    → n ≡ length pre + 2
    → copy_out m pos (length pre) ≡ pre
    → copy_out (store16 m dst (htons v)) pos n ≡ pre ++ be_bytes2 v
copy_out-store16 m pos pre dst n v d e h =
    copy_out-put_next m pos pre (le_bytes 2 (htons v)) dst n d e h
    ∙ ap (λ t. pre ++ t) (le_bytes-htons v)

pub copy_out-store32 :
    (m : Memory) (pos : ℕ) (pre : List ℕ) (dst n v : ℕ)
    → dst ≡ pos + length pre
    → n ≡ length pre + 4
    → copy_out m pos (length pre) ≡ pre
    → copy_out (store32 m dst (htonl v)) pos n ≡ pre ++ be_bytes4 v
copy_out-store32 m pos pre dst n v d e h =
    copy_out-put_next m pos pre (le_bytes 4 (htonl v)) dst n d e h
    ∙ ap (λ t. pre ++ t) (le_bytes-htonl v)
