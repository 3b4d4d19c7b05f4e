-- ===== src/ProtocolPack/UnPacker.antt =====
-- class UnPacker of protocol_pack.cpp. `body` is none while `m_pBody` points into the data, and the
-- bytes of `m_Body` once DumpDecrypt has copied them. UnPackReal, which reads a double, is left out.
use spp_server_frame_work.Base.{
  ℕ, zero, suc, ◌+◌, ◌-◌, not, Option, none, some, List, of_le, add32, sub32, Memory, copy_out, ltb,
  leb, ◌==◌, if◌then◌else◌,
}
use spp_server_frame_work.Xxtea.{Words, xxtea_decrypt}
use spp_server_frame_work.ProtocolPack.{
  enc_type_none, enc_type_tea, eot, err_enc_type, err_protocol, err_protocol_ver, main_ver,
  msg_header_len, ret_ok, soh, load16, load32, htons, htonl, myntohll, MsgHeader,
}
use spp_server_frame_work.ProtocolPack.Cookie.{get_enc_type}
use spp_server_frame_work.ProtocolPack.Packer.{words_at, put_words}

pub record UnPacker : Type 0 where
  pub bytes : Memory
  pub len : ℕ
  pub err : ℕ
  pub body : Option Memory
  pub body_len : ℕ
  pub offset : ℕ

-- `m_pBody[i]`
unfoldable pub body_memory : UnPacker → Memory
body_memory u i = elim u.body [ none ↦ u.bytes (msg_header_len + i) | some m ↦ m i ]

unfoldable pub get_header : Memory → MsgHeader
get_header p = record {
  soh = p 0;
  main_ver = p 1;
  sub_ver = p 2;
  pack_len = htonl (load32 p 3);
  main_cmd = htons (load16 p 7);
  sub_cmd = htons (load16 p 9);
  seq = htonl (load32 p 11);
  from_uin = htonl (load32 p 15);
  to_uin = htonl (load32 p 19);
  enc_type = p 23;
  source_type = p 24;
  rev = htonl (load32 p 25);
}

-- CheckPack with the header read. The index of the last byte is cut to 32 bits.
unfoldable pub check_pack : Memory → ℕ → ℕ
check_pack p len =
    let h = get_header p in
    if ltb len (msg_header_len + 1)
    then err_protocol
    else if not (h.soh == soh)
    then err_protocol
    else if not (h.main_ver == main_ver)
    then err_protocol_ver
    else if ltb len h.pack_len
    then err_protocol
    else if not (p (sub32 h.pack_len 1) == eot)
    then err_protocol
    else ret_ok

-- `m_Err` and `m_Body` stay as they were. The pointer to the data is not NULL.
unfoldable pub init : UnPacker → Memory → ℕ → UnPacker × ℕ
init u bytes len = (
  record {
    bytes = bytes;
    len = len;
    err = u.err;
    body = none;
    body_len = sub32 len (msg_header_len + 1);
    offset = 0;
  },
  check_pack bytes len,
)

abbrev pub put_back : Memory → ℕ → Option Words → Option Memory
put_back m pos none = none
put_back m pos (some w) = some (put_words m pos w)

-- `xxtea_decrypt(p + pos, len, key)` on bytes, on fuel.
unfoldable pub decrypt_at : ℕ → Memory → ℕ → ℕ → Words → Option Memory
decrypt_at fuel m pos len key = put_back m pos (xxtea_decrypt fuel (words_at m pos) len key)

abbrev pub in_place : UnPacker → Option Memory → Option (UnPacker × ℕ)
in_place u none = none
in_place u (some m) = some (record u { bytes = m }, ret_ok)

abbrev pub in_copy : UnPacker → Option Memory → Option (UnPacker × ℕ)
in_copy u none = none
in_copy u (some m) = some (record u { body = some m }, ret_ok)

abbrev pub decrypt_body : ℕ → UnPacker → Option Memory → Words → Option (UnPacker × ℕ)
decrypt_body fuel u none key = in_place u (decrypt_at fuel u.bytes msg_header_len u.body_len key)
decrypt_body fuel u (some m) key = in_copy u (decrypt_at fuel m 0 u.body_len key)

-- Decrypt changes the bytes that `m_pBody` points to; `none` means that the fuel ran out.
unfoldable pub decrypt : ℕ → UnPacker → Words → Option (UnPacker × ℕ)
decrypt fuel u key =
    let enc_type = get_enc_type u.bytes in
    let done = decrypt_body fuel u u.body key in
    if enc_type == enc_type_none
    then some (u, ret_ok)
    else if not (enc_type == enc_type_tea)
    then some (u, err_enc_type)
    else done

-- `m_Body.assign(m_pBody, m_BodyLen)`: nothing past the string is read.
unfoldable pub body_copy : UnPacker → Memory
body_copy u i = if ltb i u.body_len then body_memory u i else 0

unfoldable pub dump_decrypt : ℕ → UnPacker → Words → Option (UnPacker × ℕ)
dump_decrypt fuel u key =
    let enc_type = get_enc_type u.bytes in
    let done = in_copy u (decrypt_at fuel (body_copy u) 0 u.body_len key) in
    if enc_type == enc_type_none
    then some (u, ret_ok)
    else if not (enc_type == enc_type_tea)
    then some (u, err_enc_type)
    else done

unfoldable pub decrypt_pack : ℕ → Memory → ℕ → Words → Option Memory
decrypt_pack fuel pack len key =
    let done = decrypt_at fuel pack msg_header_len (sub32 len (msg_header_len + 1)) key in
    if leb len (msg_header_len + 1)
    then some pack
    else if not (get_enc_type pack == enc_type_tea)
    then some pack
    else done

abbrev pub fail : UnPacker → UnPacker
fail u = record u { err = err_protocol }

unfoldable pub un_pack_byte : UnPacker → UnPacker × ℕ
un_pack_byte u =
    if ltb u.body_len u.offset
    then (fail u, 0)
    else (record u { offset = add32 u.offset 1 }, body_memory u u.offset)

-- The bytes that the other calls take: none when `m_Offset + len > m_BodyLen`.
unfoldable pub take_bytes : UnPacker → ℕ → UnPacker × Option (List ℕ)
take_bytes u len =
    if ltb u.body_len (add32 u.offset len)
    then (fail u, none)
    else (record u { offset = add32 u.offset len }, some (copy_out (body_memory u) u.offset len))

abbrev pub number : Option (List ℕ) → ℕ
number none = 0
number (some l) = of_le l

unfoldable pub un_pack_word : UnPacker → UnPacker × ℕ
un_pack_word u = let (u', l) = take_bytes u 2 in (u', htons (number l))

unfoldable pub un_pack_dword : UnPacker → UnPacker × ℕ
un_pack_dword u = let (u', l) = take_bytes u 4 in (u', htonl (number l))

unfoldable pub un_pack_qword : UnPacker → UnPacker × ℕ
un_pack_qword u = let (u', l) = take_bytes u 8 in (u', myntohll (number l))

-- `UnPackBinary(len)` and `UnPackBinary(v, len)`: the bytes at the pointer, or NULL and an error.
unfoldable pub un_pack_binary : UnPacker → ℕ → UnPacker × Option (List ℕ)
un_pack_binary u len = take_bytes u len

-- `UnPackBinary(data, len)` with the string at `data`: what it is afterwards, and the result.
unfoldable pub un_pack_binary_string : UnPacker → List ℕ → ℕ → UnPacker × List ℕ × ℕ
un_pack_binary_string u old len =
    if ltb u.body_len (add32 u.offset len)
    then (fail u, old, err_protocol)
    else if len == 0
    then (u, old, ret_ok)
    else (record u { offset = add32 u.offset len }, copy_out (body_memory u) u.offset len, ret_ok)

-- `for(; *q && (q < m_pBody + m_BodyLen); ++q)`, with the bytes left before the end of the body.
unfoldable pub scan : Memory → ℕ → ℕ → ℕ
scan m zero q = q
scan m (suc left) q = let rest = scan m left (q + 1) in if m q == 0 then q else rest

-- `none` where the source returns an empty string, or NULL.
unfoldable pub un_pack_string : UnPacker → UnPacker × Option (List ℕ)
un_pack_string u =
    let m = body_memory u in
    let q = scan m (u.body_len - u.offset) u.offset in
    if leb u.body_len q then (u, none) else (
      record u { offset = add32 u.offset (q - u.offset + 1) },
      some (copy_out m u.offset (q - u.offset)),
    )

abbrev pub get_err : UnPacker → ℕ
get_err u = u.err

-- The pointers are NULL, which the byte 0 everywhere stands for; `m_Offset` stays.
unfoldable pub reset : UnPacker → UnPacker
reset u = record u { bytes = λ i. 0; len = 0; body = none; body_len = 0; err = ret_ok }
