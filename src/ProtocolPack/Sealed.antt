-- ===== src/ProtocolPack/Sealed.antt =====
-- Encryption of a body in place and back (EncryptPack, DecryptPack and Decrypt of protocol_pack.cpp,
-- over the cipher): the bytes as words, and the words as bytes.
use spp_server_frame_work.Base.{
  ℕ, zero, suc, ◌+◌, ◌-◌, ◌*◌, ◌/◌, ◌%◌, ◌^◌, ◌<◌, ◌≡◌, inl, inr, refl, ap, ◌∙◌, fun_ext, false,
  some, get_or, le_bytes, sub32, arith, Memory, copy_out, dec_lt, dec_le, leb, Bool-cases, ◌==◌,
  le→not_ltb, lt→ltb, lt→not_leb, le→leb,
}
use spp_server_frame_work.Xxtea.{Words, xxtea_encrypt}
use spp_server_frame_work.Xxtea.Steps.{AllSmall}
use spp_server_frame_work.Xxtea.RoundTrip.{xxtea_decrypt-xxtea_encrypt, xxtea_encrypt-AllSmall}
use spp_server_frame_work.ProtocolPack.{enc_type_tea, ret_ok, load32}
use spp_server_frame_work.ProtocolPack.Cookie.{get_enc_type}
use spp_server_frame_work.ProtocolPack.Packer.{words_at, put_words, encrypt_at, encrypt_pack}
use spp_server_frame_work.ProtocolPack.UnPacker.{UnPacker, init, decrypt_at, decrypt_pack, decrypt}

abbrev pub AllBytes : Memory → Type 0
AllBytes m = (i : ℕ) → m i < 2 ^ 8

pub words_at-AllSmall : (m : Memory) (pos : ℕ) → AllBytes m → AllSmall (words_at m pos)
unfolding words_at copy_out
words_at-AllSmall m pos h i =
    let p = pos + 4 * i in omega (arith, h p, h (p + 1), h (p + 1 + 1), h (p + 1 + 1 + 1))

-- The words written are the words read.
put_words_byte :
    (m : Memory) (pos : ℕ) (w : Words) (i r : ℕ)
    → r < 4
    → put_words m pos w (pos + 4 * i + r) ≡ get_or (le_bytes 4 (w i)) r 0
unfolding put_words
put_words_byte m pos w i r h =
    let q : (pos + 4 * i + r - pos) / 4 ≡ i = omega arith in
    let s : (pos + 4 * i + r - pos) % 4 ≡ r = omega arith in
    rw (le→not_ltb (pos + 4 * i + r) pos (omega arith), q, s) refl

pub words_at-put_words :
    (m : Memory) (pos : ℕ) (w : Words) → AllSmall w → words_at (put_words m pos w) pos ≡ w
unfolding words_at copy_out
words_at-put_words m pos w h = fun_ext (λ i.
    let p = pos + 4 * i in
    let out = put_words m pos w in
    let b0 : out p ≡ w i % 256 = ap out (omega arith) ∙ put_words_byte m pos w i 0 (omega arith) in
    let b1 : out (p + 1) ≡ w i / 256 % 256 = put_words_byte m pos w i 1 (omega arith) in
    let b2 : out (p + 1 + 1) ≡ w i / 256 / 256 % 256 =
      ap out (omega arith) ∙ put_words_byte m pos w i 2 (omega arith) in
    let b3 : out (p + 1 + 1 + 1) ≡ w i / 256 / 256 / 256 % 256 =
      ap out (omega arith) ∙ put_words_byte m pos w i 3 (omega arith) in
    omega (arith, h i, b0, b1, b2, b3))

word_byte :
    (m : Memory) (p r : ℕ) → AllBytes m → r < 4 → get_or (le_bytes 4 (load32 m p)) r 0 ≡ m (p + r)
unfolding copy_out
word_byte m p zero h lt =
    let e : get_or (le_bytes 4 (load32 m p)) 0 0 ≡ m (p) =
      omega (arith, h p, h (p + 1), h (p + 1 + 1), h (p + 1 + 1 + 1)) in
    e ∙ ap m (omega arith)
word_byte m p (suc zero) h lt =
    let e : get_or (le_bytes 4 (load32 m p)) 1 0 ≡ m (p + 1) =
      omega (arith, h p, h (p + 1), h (p + 1 + 1), h (p + 1 + 1 + 1)) in
    e ∙ ap m (omega arith)
word_byte m p (suc (suc zero)) h lt =
    let e : get_or (le_bytes 4 (load32 m p)) 2 0 ≡ m (p + 1 + 1) =
      omega (arith, h p, h (p + 1), h (p + 1 + 1), h (p + 1 + 1 + 1)) in
    e ∙ ap m (omega arith)
word_byte m p (suc (suc (suc zero))) h lt =
    let e : get_or (le_bytes 4 (load32 m p)) 3 0 ≡ m (p + 1 + 1 + 1) =
      omega (arith, h p, h (p + 1), h (p + 1 + 1), h (p + 1 + 1 + 1)) in
    e ∙ ap m (omega arith)
word_byte m p (suc (suc (suc (suc r)))) h lt = absurd (omega arith)

-- The bytes of the words of a memory are its bytes.
pub put_words-words_at :
    (m m' : Memory) (pos : ℕ)
    → AllBytes m
    → ((i : ℕ) → i < pos → m' i ≡ m i)
    → put_words m' pos (words_at m pos) ≡ m
unfolding put_words words_at
put_words-words_at m m' pos h same = fun_ext (λ i. elim (dec_lt i pos) [
  | yes before ↦ rw (lt→ltb i pos before) (same i before)
  | no behind ↦
      (let q = (i - pos) / 4 in
        let r = (i - pos) % 4 in
        rw (le→not_ltb i pos (omega arith))
          (word_byte m (pos + 4 * q) r h (omega arith) ∙ ap m (omega arith)))
])

put_words-front : (m : Memory) (pos : ℕ) (w : Words) (i : ℕ) → i < pos → put_words m pos w i ≡ m i
unfolding put_words
put_words-front m pos w i h = rw (lt→ltb i pos h) refl

-- Encrypted bytes at `pos` decrypt to what they were.
pub decrypt_at-encrypt_at :
    (m : Memory) (pos len : ℕ) (key : Words)
    → AllBytes m
    → len < 2 ^ 32
    → decrypt_at 33 (encrypt_at m pos len key) pos len key ≡ some m
unfolding decrypt_at encrypt_at
decrypt_at-encrypt_at m pos len key h fits =
    let w = words_at m pos in
    let small = words_at-AllSmall m pos h in
    let e = xxtea_encrypt w len key in
    let back = words_at-put_words m pos e (xxtea_encrypt-AllSmall w len key small) in
    let plain = xxtea_decrypt-xxtea_encrypt w len key fits small in
    rw (back, plain)
      (ap some (put_words-words_at m (put_words m pos e) pos h (put_words-front m pos e)))

encrypt_at-front :
    (m : Memory) (pos len : ℕ) (key : Words) (i : ℕ) → i < pos → encrypt_at m pos len key i ≡ m i
unfolding encrypt_at
encrypt_at-front m pos len key i h =
    put_words-front m pos (xxtea_encrypt (words_at m pos) len key) i h

-- For a pack of bytes and a length below 2 ^ 32: DecryptPack ends and undoes EncryptPack, for every key
-- and whatever the pack's type of encryption.
pub decrypt_pack-encrypt_pack :
    (pack : Memory) (len : ℕ) (key : Words)
    → AllBytes pack
    → len < 2 ^ 32
    → decrypt_pack 33 (encrypt_pack pack len key) len key ≡ some pack
unfolding decrypt_pack encrypt_pack get_enc_type
decrypt_pack-encrypt_pack pack len key h fits = elim (dec_le len 30) [
  | yes short ↦ rw (le→leb len 30 short) refl
  | no long ↦
      (let over : leb len 30 ≡ false = lt→not_leb len 30 (omega arith) in
        let size = sub32 len 30 in
        elim (Bool-cases (pack 23 == 1)) [
          | inl tea ↦
              rw (over, tea, encrypt_at-front pack 29 size key 23 (omega arith), tea)
                (decrypt_at-encrypt_at pack 29 size key h (omega arith))
          | inr other ↦ rw (over, other, other) refl
        ])
]

-- For a pack of bytes with a header and more, of the type TEA: Init on the pack that EncryptPack has
-- made and Decrypt give the unpacker of the plain pack, without an error.
pub decrypt-encrypt_pack :
    (u : UnPacker) (pack : Memory) (len : ℕ) (key : Words)
    → AllBytes pack
    → 30 < len
    → len < 2 ^ 32
    → pack 23 ≡ enc_type_tea
    → decrypt 33 (init u (encrypt_pack pack len key) len).0 key ≡ some ((init u pack len).0, ret_ok)
unfolding decrypt init encrypt_pack get_enc_type
decrypt-encrypt_pack u pack len key h more fits tea =
    let over : leb len 30 ≡ false = lt→not_leb len 30 more in
    let size = sub32 len 30 in
    rw
      (
        over,
        tea,
        encrypt_at-front pack 29 size key 23 (omega arith),
        tea,
        decrypt_at-encrypt_at pack 29 size key h (omega arith),
      )
      refl
