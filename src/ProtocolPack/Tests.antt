-- ===== src/ProtocolPack/Tests.antt =====
-- The packers and the cookies at concrete inputs.
use Prim.{tt}
use spp_server_frame_work.Base.{
  ◌≤◌, ◌==◌, if◌then◌else◌, copy_out-put_self, put, ℕ, ◌+◌, ◌≡◌, refl, sym, ap, ◌∙◌, some, none,
  List, [], ◌∷◌, ◌++◌, map, length, arith, Memory, copy_out, length-copy_out,
}
use spp_server_frame_work.ProtocolPack.{ret_ok, MsgHeader}
use spp_server_frame_work.ProtocolPack.Packer
use spp_server_frame_work.ProtocolPack.Packer.{get_pack_cookie}
use spp_server_frame_work.ProtocolPack.FixedPacker
use spp_server_frame_work.ProtocolPack.FixedPacker.{FixedPacker, failed}
use spp_server_frame_work.ProtocolPack.UnPacker.{UnPacker, init, get_header}
use spp_server_frame_work.ProtocolPack.Cookie.{
  total, set_cookie, get_cookie_string, buffer_too_small,
}
use spp_server_frame_work.ProtocolPack.Wire.{Fits, header_bytes, get_pack-wire}
use spp_server_frame_work.ProtocolPack.Sequence.{
  Field, byte, dword, qword, binary, text, kind_of, fields_bytes, pack_fields, un_pack_fields,
  AllFit, pack_fields-bytes,
}
use spp_server_frame_work.ProtocolPack.Reading.{moved}
use spp_server_frame_work.ProtocolPack.RoundTrip.{un_pack_fields-get_pack}
use spp_server_frame_work.ProtocolPack.Fixed.{fixed_fields, Body}
use spp_server_frame_work.ProtocolPack.FixedPack.{fixed_pack-get_pack, fixed_pack-past_end}
use spp_server_frame_work.ProtocolPack.Cookies.{Pack}
use spp_server_frame_work.ProtocolPack.CookieLaws.{
  set_cookie-Pack, set_cookie-short, get_cookie_string-Pack,
}
use spp_server_frame_work.ProtocolPack.Laid.{with_rev}
use spp_server_frame_work.ProtocolPack.Packer.{encrypt_pack}
use spp_server_frame_work.ProtocolPack.UnPacker.{decrypt}
use spp_server_frame_work.ProtocolPack.Sealed.{AllBytes, decrypt-encrypt_pack}
use spp_server_frame_work.ProtocolPack.CookiePack.{fixed_cookie-Pack}

abbrev header : MsgHeader
header = record {
  soh = 74;
  main_ver = 1;
  sub_ver = 0;
  pack_len = 0;
  main_cmd = 258;
  sub_cmd = 3;
  seq = 70000;
  from_uin = 10001;
  to_uin = 0;
  enc_type = 0;
  source_type = 64;
  rev = 83886080;
}

header-Fits : Fits header
header-Fits = record {
  main_cmd_fits = omega arith;
  sub_cmd_fits = omega arith;
  seq_fits = omega arith;
  from_uin_fits = omega arith;
  to_uin_fits = omega arith;
  rev_fits = omega arith;
}

-- A byte, a string, a number and two bytes.
abbrev fields : List Field
fields = byte 7 ∷ text (104 ∷ 105 ∷ []) ∷ dword 100000 ∷ qword 5000000000 ∷ binary (0 ∷ 9 ∷ []) ∷ []

fields_fit : AllFit fields
fields_fit = (
  omega arith,
  (
    ((λ e. absurd (omega arith)), ((λ e. absurd (omega arith)), tt)),
    (omega arith, (omega arith, (omega arith, tt))),
  ),
)

abbrev nothing : Memory
nothing i = 0

abbrev nowhere : UnPacker
nowhere = record { bytes = nothing; len = 0; err = 0; body = none; body_len = 0; offset = 0 }

abbrev sent : Memory
sent = put nothing 0 (Packer.get_pack nothing (pack_fields [] fields) header)

sent_at : copy_out sent 0 48 ≡ Packer.get_pack nothing (pack_fields [] fields) header
sent_at =
    let packed = pack_fields-bytes fields [] fields_fit in
    let on_wire =
      ap (λ b. Packer.get_pack nothing b header) packed
      ∙ get_pack-wire nothing (fields_bytes fields) header (omega arith) in
    copy_out-put_self nothing 0 (Packer.get_pack nothing (pack_fields [] fields) header) 48
      (sym (ap length on_wire))

un_pack_fields-get_pack_example :
    (let (u', result) = init nowhere sent 48 in
      (result ≡ ret_ok)
      × (get_header sent ≡ record header { pack_len = 48 })
      × (un_pack_fields u' (map kind_of fields) ≡ (moved u' 18, some fields)))
un_pack_fields-get_pack_example =
    un_pack_fields-get_pack nothing fields header nowhere sent fields_fit header-Fits refl refl
      (omega arith) sent_at

abbrev blank : FixedPacker
blank = record { buf = nothing; tail = 0; buf_len = 0; err = 1 }

-- A buffer that the pack fills.
fixed_pack-get_pack_example :
    (let (g, len) =
        FixedPacker.get_pack (fixed_fields (FixedPacker.init blank nothing 48).0 fields) header in
      let pack = Packer.get_pack nothing (pack_fields [] fields) header in
      (len ≡ length pack) × (len ≤ 48) × (copy_out g.buf 0 len ≡ pack))
fixed_pack-get_pack_example =
    fixed_pack-get_pack blank nothing nothing 48 fields header fields_fit (omega arith)
      (omega arith)

-- A buffer that has no room for the end mark.
fixed_pack-past_end_example :
    (let (g, len) =
        FixedPacker.get_pack (fixed_fields (FixedPacker.init blank nothing 47).0 fields) header in
      (g.err ≡ 0) × (len ≡ 48) × (g.buf 47 ≡ 87))
fixed_pack-past_end_example =
    fixed_pack-past_end blank nothing 47 fields header fields_fit (omega arith) (omega arith) refl

-- The pack of a body of two bytes, and what becomes of it.
abbrev body : List ℕ
body = 5 ∷ 6 ∷ []

abbrev bare_pack : Memory
bare_pack = put nothing 0 (header_bytes (with_rev header 5 0) 32 ++ (body ++ 87 ∷ []))

bare_pack-Pack : Pack bare_pack header 5 body none
bare_pack-Pack = record {
  laid =
      copy_out-put_self nothing 0 (header_bytes (with_rev header 5 0) 32 ++ (body ++ 87 ∷ [])) 32
        refl;
  reserve_fits = omega arith;
  body_fits = omega arith;
  cookie_fits = omega arith;
}

set_cookie-Pack_example :
    (let (m', result) = set_cookie bare_pack 40 (1 ∷ 2 ∷ 3 ∷ []) in
      Pack m' header 5 body (some (1 ∷ 2 ∷ 3 ∷ [])) × (result ≡ total 37))
set_cookie-Pack_example =
    set_cookie-Pack bare_pack header 5 body none 40 (1 ∷ 2 ∷ 3 ∷ []) bare_pack-Pack (omega arith)
      (omega arith)

set_cookie-short_example : set_cookie bare_pack 36 (1 ∷ 2 ∷ 3 ∷ []) ≡ (bare_pack, buffer_too_small)
set_cookie-short_example =
    set_cookie-short bare_pack header 5 body none 36 (1 ∷ 2 ∷ 3 ∷ []) bare_pack-Pack (omega arith)
      (omega arith)

abbrev with_cookie : Memory
with_cookie = (set_cookie bare_pack 40 (1 ∷ 2 ∷ 3 ∷ [])).0

get_cookie_string-Pack_example : get_cookie_string with_cookie [] ≡ 1 ∷ 2 ∷ 3 ∷ []
get_cookie_string-Pack_example =
    get_cookie_string-Pack with_cookie header 5 body (some (1 ∷ 2 ∷ 3 ∷ [])) []
      set_cookie-Pack_example.0

abbrev cookie_sent : Memory
cookie_sent = put nothing 0 (get_pack_cookie nothing body header (1 ∷ []))

cookie_sent_at : copy_out cookie_sent 0 35 ≡ get_pack_cookie nothing body header (1 ∷ [])
unfolding get_pack_cookie
cookie_sent_at =
    copy_out-put_self nothing 0 (get_pack_cookie nothing body header (1 ∷ [])) 35
      (sym (length-copy_out _ 0 35))

abbrev packed : FixedPacker
packed = record { buf = put nothing 29 (5 ∷ 6 ∷ []); tail = 31; buf_len = 40; err = 0 }

packed-Body : Body packed 40 body
packed-Body = record {
  tail_is = refl;
  bytes_are = copy_out-put_self nothing 29 (5 ∷ 6 ∷ []) 2 refl;
  len_is = refl;
  in_buffer = omega arith;
  small = omega arith;
  no_error = refl;
}

fixed_cookie-Pack_example :
    (let (g, len) = FixedPacker.get_pack_cookie packed header (1 ∷ []) in
      Pack g.buf header 5 body (some (1 ∷ [])) × (len ≡ 35))
fixed_cookie-Pack_example =
    fixed_cookie-Pack packed 40 body header (1 ∷ []) packed-Body (omega arith) (omega arith)
      (omega arith) (omega arith)

-- A pack of the type TEA, and the key of four words.
abbrev tea_pack : Memory
tea_pack i = if i == 23 then 1 else 7

tea_pack-AllBytes : AllBytes tea_pack
tea_pack-AllBytes i = ground arith

decrypt-encrypt_pack_example :
    decrypt 33 (init nowhere (encrypt_pack tea_pack 40 (λ i. i + 1)) 40).0 (λ i. i + 1)
    ≡ some ((init nowhere tea_pack 40).0, ret_ok)
decrypt-encrypt_pack_example =
    decrypt-encrypt_pack nowhere tea_pack 40 (λ i. i + 1) tea_pack-AllBytes (omega arith)
      (omega arith) refl
