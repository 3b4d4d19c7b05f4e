-- ===== src/ProtocolPack.antt =====
-- The packs of libprotocol (protocol_pack.h, protocol_pack.cpp, protocol_err.h): constants, byte
-- order, the header and its place in a pack. The host is little-endian. A pack is a memory whose byte
-- 0 is the first of the pack; fields are numbers that fit their C types.
pub mod Fields
pub mod Packer
pub mod FixedPacker
pub mod UnPacker
pub mod Cookie
pub mod Wire
pub mod Sequence
pub mod Reading
pub mod RoundTrip
pub mod Fixed
pub mod FixedPack
pub mod Laid
pub mod Cookies
pub mod CookieLaws
pub mod CookiePack
pub mod Sealed
mod Tests
use spp_server_frame_work.Base.{
  ℕ, zero, suc, ◌+◌, ◌-◌, ◌*◌, ◌/◌, ◌%◌, ◌^◌, List, [], ◌∷◌, le_bytes, of_le, u32, add32, Memory,
  copy_in, copy_out, put, length,
}

-- Return codes.
abbrev pub ret_ok : ℕ
ret_ok = 0

abbrev pub err_protocol : ℕ
err_protocol = 1

abbrev pub err_enc_type : ℕ
err_enc_type = 2

abbrev pub err_protocol_ver : ℕ
err_protocol_ver = 3

-- 'J' and 'W'
abbrev pub soh : ℕ
soh = 74

abbrev pub eot : ℕ
eot = 87

abbrev pub main_ver : ℕ
main_ver = 1

abbrev pub enc_type_none : ℕ
enc_type_none = 0

abbrev pub enc_type_tea : ℕ
enc_type_tea = 1

abbrev pub msg_main_cmd_pos : ℕ
msg_main_cmd_pos = 7

abbrev pub msg_seq_pos : ℕ
msg_seq_pos = 11

abbrev pub msg_from_uin_pos : ℕ
msg_from_uin_pos = 15

abbrev pub msg_to_uin_pos : ℕ
msg_to_uin_pos = 19

abbrev pub msg_enc_type_pos : ℕ
msg_enc_type_pos = 23

abbrev pub msg_rev_pos : ℕ
msg_rev_pos = 25

abbrev pub msg_header_len : ℕ
msg_header_len = 29

abbrev pub str_end : ℕ
str_end = 0

-- Numbers in memory, in the order of the host.
abbrev pub store16 : Memory → ℕ → ℕ → Memory
store16 m pos v = put m pos (le_bytes 2 v)

abbrev pub store32 : Memory → ℕ → ℕ → Memory
store32 m pos v = put m pos (le_bytes 4 v)

abbrev pub load16 : Memory → ℕ → ℕ
load16 m pos = of_le (copy_out m pos 2)

abbrev pub load32 : Memory → ℕ → ℕ
load32 m pos = of_le (copy_out m pos 4)

-- `ntohs` and `ntohl` are the same functions.
unfoldable pub htons : ℕ → ℕ
htons n = n % 2 ^ 8 * 2 ^ 8 + n / 2 ^ 8 % 2 ^ 8

unfoldable pub htonl : ℕ → ℕ
htonl n =
    n % 2 ^ 8 * 2 ^ 24
    + n / 2 ^ 8 % 2 ^ 8 * 2 ^ 16
    + n / 2 ^ 16 % 2 ^ 8 * 2 ^ 8
    + n / 2 ^ 24 % 2 ^ 8

-- The argument of `htonl` is cut to 32 bits.
unfoldable pub myhtonll : ℕ → ℕ
myhtonll n = (htonl (u32 n) * 2 ^ 32 + htonl (u32 (n / 2 ^ 32))) % 2 ^ 64

unfoldable pub myntohll : ℕ → ℕ
myntohll n = (htonl (u32 n) * 2 ^ 32 + htonl (u32 (n / 2 ^ 32))) % 2 ^ 64

pub record MsgHeader : Type 0 where
  pub soh : ℕ
  pub main_ver : ℕ
  pub sub_ver : ℕ
  pub pack_len : ℕ
  pub main_cmd : ℕ
  pub sub_cmd : ℕ
  pub seq : ℕ
  pub from_uin : ℕ
  pub to_uin : ℕ
  pub enc_type : ℕ
  pub source_type : ℕ
  pub rev : ℕ
