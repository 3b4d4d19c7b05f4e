-- ===== src/ProtocolPack/Packer.antt =====
-- class Packer of protocol_pack.cpp: `m_oss` is a list of bytes. The array `hbuf` of GetPack is an
-- argument, with whatever bytes it starts from. PackReal, which prints a double, is left out.
use spp_server_frame_work.Base.{
  put, ℕ, ◌+◌, ◌*◌, ◌/◌, ◌%◌, ◌-◌, not, Option, none, some, List, [], ◌∷◌, ◌++◌, le_bytes, u32,
  add32, sub32, Memory, copy_in, copy_out, length, get_or, ltb, leb, ◌==◌, if◌then◌else◌,
}
use spp_server_frame_work.Xxtea.{Words, xxtea_encrypt}
use spp_server_frame_work.ProtocolPack.{
  enc_type_tea, eot, msg_header_len, str_end, store16, store32, load32, htons, htonl, myhtonll,
  MsgHeader,
}
use spp_server_frame_work.ProtocolPack.Cookie.{get_enc_type, set_cookie_pos, set_pack_len}

-- `(unsigned int *)(p + pos)`, read and written back: the words that the cipher leaves alone are
-- written as they were.
unfoldable pub words_at : Memory → ℕ → Words
words_at m pos i = load32 m (pos + 4 * i)

unfoldable pub put_words : Memory → ℕ → Words → Memory
put_words m pos w i =
    if ltb i pos then m i else get_or (le_bytes 4 (w ((i - pos) / 4))) ((i - pos) % 4) 0

-- `xxtea_encrypt(p + pos, len, key)` on bytes.
unfoldable pub encrypt_at : Memory → ℕ → ℕ → Words → Memory
encrypt_at m pos len key = put_words m pos (xxtea_encrypt (words_at m pos) len key)

unfoldable pub pack_byte : List ℕ → ℕ → List ℕ
pack_byte m_oss v = m_oss ++ v ∷ []

unfoldable pub pack_word : List ℕ → ℕ → List ℕ
pack_word m_oss v = m_oss ++ le_bytes 2 (htons v)

unfoldable pub pack_dword : List ℕ → ℕ → List ℕ
pack_dword m_oss v = m_oss ++ le_bytes 4 (htonl v)

unfoldable pub pack_qword : List ℕ → ℕ → List ℕ
pack_qword m_oss v = m_oss ++ le_bytes 8 (myhtonll v)

unfoldable pub pack_binary : List ℕ → List ℕ → List ℕ
pack_binary m_oss v = if ltb (length v) 1 then m_oss else m_oss ++ v

unfoldable pub pack_string : List ℕ → List ℕ → List ℕ
pack_string m_oss v = m_oss ++ v ++ str_end ∷ []

-- `PackString(const char *)`; `none` is NULL.
unfoldable pub pack_cstring : List ℕ → Option (List ℕ) → List ℕ
pack_cstring m_oss none = m_oss
pack_cstring m_oss (some v) = m_oss ++ v ++ str_end ∷ []

abbrev pub reset : List ℕ → List ℕ
reset m_oss = []

abbrev pub get_body : List ℕ → List ℕ
get_body m_oss = m_oss

unfoldable pub pack_header : Memory → MsgHeader → ℕ → Memory
pack_header hbuf h body_size =
    let b1 = put hbuf 0 (h.soh ∷ []) in
    let b2 = put b1 1 (h.main_ver ∷ []) in
    let b3 = put b2 2 (h.sub_ver ∷ []) in
    let b4 = store32 b3 3 (htonl (add32 (msg_header_len + body_size) 1)) in
    let b5 = store16 b4 7 (htons h.main_cmd) in
    let b6 = store16 b5 9 (htons h.sub_cmd) in
    let b7 = store32 b6 11 (htonl h.seq) in
    let b8 = store32 b7 15 (htonl h.from_uin) in
    let b9 = store32 b8 19 (htonl h.to_uin) in
    let b10 = put b9 23 (h.enc_type ∷ []) in
    let b11 = put b10 24 (h.source_type ∷ []) in store32 b11 25 (htonl h.rev)

abbrev pub with_body : Memory → MsgHeader → List ℕ → Memory
with_body hbuf h body =
    copy_in (pack_header hbuf h (u32 (length body))) msg_header_len body 0 (u32 (length body))

unfoldable pub get_pack : Memory → List ℕ → MsgHeader → List ℕ
get_pack hbuf m_oss h =
    let pack_len = add32 (msg_header_len + u32 (length m_oss)) 1 in
    copy_out (put (with_body hbuf h m_oss) (sub32 pack_len 1) (eot ∷ [])) 0 pack_len

unfoldable pub get_pack_key : Memory → List ℕ → MsgHeader → Words → List ℕ
get_pack_key hbuf m_oss h key =
    let pack_len = add32 (msg_header_len + u32 (length m_oss)) 1 in
    let sealed = encrypt_at (with_body hbuf h m_oss) msg_header_len (u32 (length m_oss)) key in
    if not (h.enc_type == enc_type_tea)
    then get_pack hbuf m_oss h
    else copy_out (put sealed (sub32 pack_len 1) (eot ∷ [])) 0 pack_len

-- The cookie's length fits 16 bits.
unfoldable pub get_pack_cookie : Memory → List ℕ → MsgHeader → List ℕ → List ℕ
get_pack_cookie hbuf m_oss h ck =
    let body_size = u32 (length m_oss) in
    let pack_len = add32 (msg_header_len + body_size) (2 + length ck + 1) in
    let l = msg_header_len + body_size in
    let b1 = store16 (with_body hbuf h m_oss) l (htons (length ck)) in
    let b2 = put b1 (l + 2) ck in
    let b3 = put b2 (l + 2 + length ck) (eot ∷ []) in
    copy_out (set_pack_len (set_cookie_pos b3 (add32 msg_header_len body_size)) pack_len) 0 pack_len

unfoldable pub encrypt_pack : Memory → ℕ → Words → Memory
encrypt_pack pack len key =
    if leb len (msg_header_len + 1)
    then pack
    else if not (get_enc_type pack == enc_type_tea)
    then pack
    else encrypt_at pack msg_header_len (sub32 len (msg_header_len + 1)) key
