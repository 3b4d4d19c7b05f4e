-- ===== src/ProtocolPack/FixedPacker.antt =====
-- class FixedPacker of protocol_pack.cpp: a packer in a buffer of the caller. `tail` is the offset of
-- `m_pTail`; a buffer has less than 2 ^ 31 bytes. The bytes behind it are there as well, since GetPack
-- can write to them. PackReal, which prints a double, is left out.
use spp_server_frame_work.Base.{
  put, ℕ, ◌+◌, ◌^◌, ◌-◌, Bool, ◌&&◌, true, false, not, Option, none, some, List, [], ◌∷◌, ◌++◌,
  le_bytes, sub32, Memory, copy_out, length, ltb, ◌==◌, if◌then◌else◌,
}
use spp_server_frame_work.Xxtea.{Words}
use spp_server_frame_work.ProtocolPack.{
  enc_type_tea, eot, err_protocol, msg_header_len, str_end, store16, htons, htonl, myhtonll,
  MsgHeader,
}
use spp_server_frame_work.ProtocolPack.Cookie.{set_cookie_pos, set_pack_len}
use spp_server_frame_work.ProtocolPack.Packer.{pack_header, encrypt_at}

pub record FixedPacker : Type 0 where
  pub buf : Memory
  pub tail : ℕ
  pub buf_len : ℕ
  pub err : ℕ

-- With whether it returns 0.
unfoldable pub init : FixedPacker → Memory → ℕ → FixedPacker × Bool
init f buf len =
    if ltb len (msg_header_len + 1)
    then (record f { err = err_protocol }, false)
    else (record { buf = buf; tail = msg_header_len; buf_len = len; err = 0 }, true)

unfoldable pub left_space : FixedPacker → ℕ
left_space f = f.buf_len - f.tail

-- `LeftSpace() < (int)len`: a length from 2 ^ 31 on is negative as an int.
unfoldable pub lacks : FixedPacker → ℕ → Bool
lacks f len = ltb len (2 ^ 31) && ltb (left_space f) len

abbrev pub failed : FixedPacker → FixedPacker
failed f = record f { err = err_protocol }

-- The bytes go to `m_pTail`, which moves behind them.
unfoldable pub write_tail : FixedPacker → List ℕ → FixedPacker
write_tail f l = record f { buf = put f.buf f.tail l; tail = f.tail + length l }

unfoldable pub pack_byte : FixedPacker → ℕ → FixedPacker
pack_byte f v = if ltb (left_space f) 1 then failed f else write_tail f (v ∷ [])

unfoldable pub pack_word : FixedPacker → ℕ → FixedPacker
pack_word f v = if ltb (left_space f) 2 then failed f else write_tail f (le_bytes 2 (htons v))

unfoldable pub pack_dword : FixedPacker → ℕ → FixedPacker
pack_dword f v = if ltb (left_space f) 4 then failed f else write_tail f (le_bytes 4 (htonl v))

unfoldable pub pack_qword : FixedPacker → ℕ → FixedPacker
pack_qword f v = if ltb (left_space f) 8 then failed f else write_tail f (le_bytes 8 (myhtonll v))

unfoldable pub pack_binary : FixedPacker → List ℕ → FixedPacker
pack_binary f v =
    if lacks f (length v) then failed f else if ltb (length v) 1 then f else write_tail f v

-- The copy of an empty string is left out by the source, and writes nothing here.
unfoldable pub pack_string : FixedPacker → List ℕ → FixedPacker
pack_string f v =
    if lacks f (length v + 1) then failed f else write_tail (write_tail f v) (str_end ∷ [])

-- `PackString(const char *)`; `none` is NULL, and the copy has the byte 0 at the end.
unfoldable pub pack_cstring : FixedPacker → Option (List ℕ) → FixedPacker
pack_cstring f none = f
pack_cstring f (some v) =
    if lacks f (length v + 1) then failed f else write_tail f (v ++ str_end ∷ [])

unfoldable pub get_body : FixedPacker → List ℕ
get_body f = copy_out f.buf msg_header_len (f.tail - msg_header_len)

-- GetPack: the packer, whose buffer has the pack, and `len`.
unfoldable pub get_pack : FixedPacker → MsgHeader → FixedPacker × ℕ
get_pack f h =
    let pack_len = f.tail + 1 in
    let headed = pack_header f.buf h (sub32 pack_len (msg_header_len + 1)) in
    if not (f.err == 0)
    then (f, 0)
    else (record f { buf = put headed (pack_len - 1) (eot ∷ []) }, pack_len)

unfoldable pub get_pack_key : FixedPacker → MsgHeader → Words → FixedPacker × ℕ
get_pack_key f h key =
    let pack_len = f.tail + 1 in
    let size = sub32 pack_len (msg_header_len + 1) in
    let sealed = encrypt_at (pack_header f.buf h size) msg_header_len size key in
    if not (h.enc_type == enc_type_tea)
    then get_pack f h
    else if not (f.err == 0)
    then (f, 0)
    else (record f { buf = put sealed (pack_len - 1) (eot ∷ []) }, pack_len)

abbrev pub checked_cookie : FixedPacker → MsgHeader → List ℕ → FixedPacker × ℕ
checked_cookie f h ck =
    let pack_len = f.tail + 1 in
    let total_pack_len = pack_len + 2 + length ck in
    let b1 = pack_header f.buf h (sub32 pack_len (msg_header_len + 1)) in
    let b2 = put (store16 b1 f.tail (htons (length ck))) (f.tail + 2) ck in
    let b3 = put b2 (total_pack_len - 1) (eot ∷ []) in
    if not (f.err == 0) then (f, 0) else (
      record f { buf = set_pack_len (set_cookie_pos b3 (pack_len - 1)) total_pack_len },
      total_pack_len,
    )

-- The cookie's length fits 16 bits.
unfoldable pub get_pack_cookie : FixedPacker → MsgHeader → List ℕ → FixedPacker × ℕ
get_pack_cookie f h ck =
    checked_cookie (if ltb (left_space f) (2 + length ck) then failed f else f) h ck
