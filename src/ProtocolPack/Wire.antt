-- ===== src/ProtocolPack/Wire.antt =====
-- The bytes of a pack on the wire, and what Packer writes and UnPacker reads (protocol_pack.cpp).
use spp_server_frame_work.Base.{
  copy_out-part, copy_out-put_next, put, ℕ, ◌+◌, ◌^◌, ◌<◌, ◌≤◌, ◌≡◌, refl, sym, ap, ◌∙◌, List, [],
  ◌∷◌, ◌++◌, length, get_or, take, drop, of_le, u32, add32, sub32, arith, Memory, copy_out,
  le→not_ltb, get_or-append_self, length-append, get_or-copy_out,
}
use spp_server_frame_work.ProtocolPack.{
  store16, store32, load16, load32, htons, htonl, eot, soh, main_ver, ret_ok, MsgHeader,
}
use spp_server_frame_work.ProtocolPack.Packer.{pack_header, get_pack, with_body}
use spp_server_frame_work.ProtocolPack.UnPacker.{get_header, check_pack, init, UnPacker}
use spp_server_frame_work.ProtocolPack.Fields.{
  be_bytes2, be_bytes4, htons-of_be, htonl-of_be, copy_out-store16, copy_out-store32,
}

-- The header, field after field, numbers in the order of the network.
abbrev pub header_start : MsgHeader → ℕ → List ℕ
header_start h pack_len =
    (h.soh ∷ h.main_ver ∷ h.sub_ver ∷ [])
    ++ be_bytes4 pack_len
    ++ be_bytes2 h.main_cmd
    ++ be_bytes2 h.sub_cmd

abbrev pub header_bytes : MsgHeader → ℕ → List ℕ
header_bytes h pack_len =
    header_start h pack_len
    ++ be_bytes4 h.seq
    ++ be_bytes4 h.from_uin
    ++ be_bytes4 h.to_uin
    ++ (h.enc_type ∷ h.source_type ∷ [])
    ++ be_bytes4 h.rev

abbrev pub wire : MsgHeader → List ℕ → List ℕ
wire h body = header_bytes h (30 + length body) ++ body ++ eot ∷ []

abbrev sub_cmd_put : Memory → MsgHeader → ℕ → Memory
sub_cmd_put hbuf h size =
    let b1 = put hbuf 0 (h.soh ∷ []) in
    let b2 = put b1 1 (h.main_ver ∷ []) in
    let b3 = put b2 2 (h.sub_ver ∷ []) in
    let b4 = store32 b3 3 (htonl (add32 (29 + size) 1)) in
    store16 (store16 b4 7 (htons h.main_cmd)) 9 (htons h.sub_cmd)

pub sub_cmd_put-bytes :
    (hbuf : Memory) (h : MsgHeader) (size : ℕ)
    → copy_out (sub_cmd_put hbuf h size) 0 11 ≡ header_start h (add32 (29 + size) 1)
unfolding copy_out
sub_cmd_put-bytes hbuf h size =
    let b1 = put hbuf 0 (h.soh ∷ []) in
    let b2 = put b1 1 (h.main_ver ∷ []) in
    let b3 = put b2 2 (h.sub_ver ∷ []) in
    let len = add32 (29 + size) 1 in
    let b4 = store32 b3 3 (htonl len) in
    let b5 = store16 b4 7 (htons h.main_cmd) in
    let l3 = h.soh ∷ h.main_ver ∷ h.sub_ver ∷ [] in
    let e1 = copy_out-put_next hbuf 0 [] (h.soh ∷ []) 0 1 refl refl refl in
    let e2 = copy_out-put_next b1 0 (h.soh ∷ []) (h.main_ver ∷ []) 1 2 refl refl e1 in
    let e3 = copy_out-put_next b2 0 (h.soh ∷ h.main_ver ∷ []) (h.sub_ver ∷ []) 2 3 refl refl e2 in
    let e4 = copy_out-store32 b3 0 l3 3 7 len refl refl e3 in
    let e5 = copy_out-store16 b4 0 (l3 ++ be_bytes4 len) 7 9 h.main_cmd refl refl e4 in
    copy_out-store16 b5 0 (l3 ++ be_bytes4 len ++ be_bytes2 h.main_cmd) 9 11 h.sub_cmd refl refl e5

pub pack_header-bytes :
    (hbuf : Memory) (h : MsgHeader) (size : ℕ)
    → copy_out (pack_header hbuf h size) 0 29 ≡ header_bytes h (add32 (29 + size) 1)
unfolding pack_header
pack_header-bytes hbuf h size =
    let l11 = header_start h (add32 (29 + size) 1) in
    let l15 = l11 ++ be_bytes4 h.seq in
    let l19 = l15 ++ be_bytes4 h.from_uin in
    let l23 = l19 ++ be_bytes4 h.to_uin in
    let l24 = l23 ++ h.enc_type ∷ [] in
    let l25 = l23 ++ h.enc_type ∷ h.source_type ∷ [] in
    let b11 = sub_cmd_put hbuf h size in
    let b15 = store32 b11 11 (htonl h.seq) in
    let b19 = store32 b15 15 (htonl h.from_uin) in
    let b23 = store32 b19 19 (htonl h.to_uin) in
    let b24 = put b23 23 (h.enc_type ∷ []) in
    let b25 = put b24 24 (h.source_type ∷ []) in
    let e11 = sub_cmd_put-bytes hbuf h size in
    let e15 = copy_out-store32 b11 0 l11 11 15 h.seq refl refl e11 in
    let e19 = copy_out-store32 b15 0 l15 15 19 h.from_uin refl refl e15 in
    let e23 = copy_out-store32 b19 0 l19 19 23 h.to_uin refl refl e19 in
    let e24 = copy_out-put_next b23 0 l23 (h.enc_type ∷ []) 23 24 refl refl e23 in
    let e25 = copy_out-put_next b24 0 l24 (h.source_type ∷ []) 24 25 refl refl e24 in
    copy_out-store32 b25 0 l25 25 29 h.rev refl refl e25

-- The header and the body in front of the tail.
pub with_body-bytes :
    (hbuf : Memory) (h : MsgHeader) (body : List ℕ)
    → 30 + length body < 2 ^ 32
    → copy_out (with_body hbuf h body) 0 (29 + length body)
      ≡ header_bytes h (30 + length body) ++ body
with_body-bytes hbuf h body fits =
    let size : u32 (length body) ≡ length body = omega arith in
    let len : add32 (29 + length body) 1 ≡ 30 + length body = omega arith in
    rw size (
      copy_out-put_next (pack_header hbuf h (length body)) 0 (header_bytes h (30 + length body))
        body 29 (29 + length body) refl refl
        (pack_header-bytes hbuf h (length body) ∙ ap (header_bytes h) len))

-- For a body that leaves the length of the pack below 2 ^ 32: GetPack gives the header, the body and
-- the end mark, whatever was in its array.
pub get_pack-wire :
    (hbuf : Memory) (m_oss : List ℕ) (h : MsgHeader)
    → 30 + length m_oss < 2 ^ 32
    → get_pack hbuf m_oss h ≡ wire h m_oss
unfolding get_pack
get_pack-wire hbuf m_oss h fits =
    let body = with_body hbuf h m_oss in
    let pre = header_bytes h (30 + length m_oss) ++ m_oss in
    let len : add32 (29 + u32 (length m_oss)) 1 ≡ 30 + length m_oss = omega arith in
    let last : sub32 (30 + length m_oss) 1 ≡ 29 + length m_oss = omega arith in
    rw (len, last)
      (copy_out-put_next body 0 pre (eot ∷ []) (29 + length m_oss) (30 + length m_oss) (omega arith)
        (omega arith) (ap (copy_out body 0) (omega arith) ∙ with_body-bytes hbuf h m_oss fits))

-- The header's numbers fit their C types.
pub record Fits (h : MsgHeader) : Type 0 where
  pub main_cmd_fits : h.main_cmd < 2 ^ 16
  pub sub_cmd_fits : h.sub_cmd < 2 ^ 16
  pub seq_fits : h.seq < 2 ^ 32
  pub from_uin_fits : h.from_uin < 2 ^ 32
  pub to_uin_fits : h.to_uin < 2 ^ 32
  pub rev_fits : h.rev < 2 ^ 32

-- A number and a byte of a header in memory.
module _ (m : Memory) (l : List ℕ) (at : copy_out m 0 (length l) ≡ l) where
  pub load16-of_be :
      (pos v : ℕ)
      → v < 2 ^ 16
      → pos + 2 ≤ length l
      → take 2 (drop pos l) ≡ be_bytes2 v
      → htons (load16 m pos) ≡ v
  load16-of_be pos v fits in_l e =
      ap (λ t. htons (of_le t)) (copy_out-part m l pos 2 at in_l ∙ e) ∙ htons-of_be v fits

  pub load32-of_be :
      (pos v : ℕ)
      → v < 2 ^ 32
      → pos + 4 ≤ length l
      → take 4 (drop pos l) ≡ be_bytes4 v
      → htonl (load32 m pos) ≡ v
  load32-of_be pos v fits in_l e =
      ap (λ t. htonl (of_le t)) (copy_out-part m l pos 4 at in_l ∙ e) ∙ htonl-of_be v fits

  pub byte-of : (pos : ℕ) → pos < length l → m pos ≡ get_or l pos 0
  byte-of pos in_l =
      ap m (omega arith)
      ∙ sym (get_or-copy_out m 0 (length l) pos in_l)
      ∙ ap (λ t. get_or t pos 0) at

-- The header is read as it was written.
pub get_header-header_bytes :
    (m : Memory) (h : MsgHeader) (pack_len : ℕ)
    → Fits h
    → pack_len < 2 ^ 32
    → copy_out m 0 29 ≡ header_bytes h pack_len
    → get_header m ≡ record h { pack_len = pack_len }
unfolding get_header
get_header-header_bytes m h pack_len f len_fits at =
    let l = header_bytes h pack_len in
    let e3 = load32-of_be m l at 3 pack_len len_fits (omega arith) refl in
    let e7 = load16-of_be m l at 7 h.main_cmd f.main_cmd_fits (omega arith) refl in
    let e9 = load16-of_be m l at 9 h.sub_cmd f.sub_cmd_fits (omega arith) refl in
    let e11 = load32-of_be m l at 11 h.seq f.seq_fits (omega arith) refl in
    let e15 = load32-of_be m l at 15 h.from_uin f.from_uin_fits (omega arith) refl in
    let e19 = load32-of_be m l at 19 h.to_uin f.to_uin_fits (omega arith) refl in
    let e25 = load32-of_be m l at 25 h.rev f.rev_fits (omega arith) refl in
    let e0 = byte-of m l at 0 (omega arith) in
    let e1 = byte-of m l at 1 (omega arith) in
    let e2 = byte-of m l at 2 (omega arith) in
    let e23 = byte-of m l at 23 (omega arith) in
    let e24 = byte-of m l at 24 (omega arith) in
    rw (e3, e7, e9, e11, e15, e19, e25, e0, e1, e2, e23, e24) refl

-- A memory that starts with a pack starts with its header, and the tail ends it.
pub wire-length : (h : MsgHeader) (body : List ℕ) → length (wire h body) ≡ 30 + length body
wire-length h body = omega (arith, length-append body (eot ∷ []))

wire-last : (h : MsgHeader) (body : List ℕ) → get_or (wire h body) (29 + length body) 0 ≡ eot
wire-last h body =
    get_or-append_self (header_bytes h (30 + length body) ++ body) eot 0 (29 + length body)
      (omega arith)

wire-header :
    (m : Memory) (h : MsgHeader) (body : List ℕ)
    → copy_out m 0 (30 + length body) ≡ wire h body
    → copy_out m 0 29 ≡ header_bytes h (30 + length body)
wire-header m h body at =
    let len = wire-length h body in
    copy_out-part m (wire h body) 0 29 (ap (copy_out m 0) len ∙ at) (omega arith)

-- For a header with the marks of the protocol, fields that fit and a body that leaves the length of the
-- pack below 2 ^ 32: Init on the pack, or on more bytes that start with it, reports no error, and
-- GetHeader gives the fields with the length of the pack.
pub init-wire :
    (u : UnPacker) (m : Memory) (len : ℕ) (h : MsgHeader) (body : List ℕ)
    → Fits h
    → h.soh ≡ soh
    → h.main_ver ≡ main_ver
    → 30 + length body ≤ len
    → len < 2 ^ 32
    → copy_out m 0 (30 + length body) ≡ wire h body
    → ((init u m len).1 ≡ ret_ok) × (get_header m ≡ record h { pack_len = 30 + length body })
unfolding init check_pack
init-wire u m len h body f s v le fits at =
    let n = 30 + length body in
    let header = get_header-header_bytes m h n f (omega arith) (wire-header m h body at) in
    let last : sub32 n 1 ≡ 29 + length body = omega arith in
    let n_is = wire-length h body in
    let end =
      byte-of m (wire h body) (ap (copy_out m 0) n_is ∙ at) (29 + length body) (omega arith)
      ∙ wire-last h body in
    (
      rw (header, s, v, le→not_ltb len 30 (omega arith), le→not_ltb len n le, last, end) refl,
      header,
    )
