-- ===== src/ProtocolPack/RoundTrip.antt =====
-- From the calls of Packer through GetPack to Init and the calls of UnPacker (protocol_pack.cpp).
use spp_server_frame_work.Base.{
  copy_out-parts, ℕ, zero, suc, ◌+◌, ◌^◌, ◌<◌, ◌≡◌, refl, sym, ap, ◌∙◌, some, List, [], ◌∷◌, ◌++◌,
  map, length, arith, Memory, copy_out, append_assoc,
}
use spp_server_frame_work.ProtocolPack.{soh, main_ver, eot, ret_ok, MsgHeader}
use spp_server_frame_work.ProtocolPack.Packer.{get_pack}
use spp_server_frame_work.ProtocolPack.UnPacker.{UnPacker, init, get_header, body_memory}
use spp_server_frame_work.ProtocolPack.Wire.{
  Fits, wire, header_bytes, wire-length, init-wire, get_pack-wire,
}
use spp_server_frame_work.ProtocolPack.Sequence.{
  Field, AllFit, kind_of, fields_bytes, pack_fields, un_pack_fields, pack_fields-bytes,
}
use spp_server_frame_work.ProtocolPack.Reading.{At, moved, un_pack_fields-At}

-- Where the body of a pack lies.
pub copy_out-shift :
    (m : Memory) (a pos n : ℕ) → copy_out (λ i. m (a + i)) pos n ≡ copy_out m (a + pos) n
unfolding copy_out
copy_out-shift m a pos zero = refl
copy_out-shift m a pos (suc n) =
    ap (λ t. m (a + pos) ∷ t)
      (copy_out-shift m a (pos + 1) n ∙ ap (λ i. copy_out m i n) (omega arith))

pub wire-body :
    (m : Memory) (h : MsgHeader) (body : List ℕ)
    → copy_out m 0 (30 + length body) ≡ wire h body
    → copy_out m 29 (length body) ≡ body
wire-body m h body at =
    let pre = header_bytes h (30 + length body) in
    let whole = append_assoc pre body (eot ∷ []) in
    let split = copy_out-parts m pre (body ++ eot ∷ []) 0 (
      ap (λ l. copy_out m 0 (length l)) (sym whole)
      ∙ ap (copy_out m 0) (wire-length h body)
      ∙ at
      ∙ whole) in
    (copy_out-parts m body (eot ∷ []) 29 split.1).0

-- After Init the offset is in front of the body.
pub init-At :
    (u : UnPacker) (m : Memory) (h : MsgHeader) (body : List ℕ)
    → 30 + length body < 2 ^ 32
    → copy_out m 0 (30 + length body) ≡ wire h body
    → At ((init u m (30 + length body)).0) body
unfolding init body_memory
init-At u m h body fits at = record {
  bytes_are = copy_out-shift m 29 0 (length body) ∙ wire-body m h body at;
  inside = omega arith;
  small = omega arith;
}

-- For fields that fit, strings without a byte 0, a header with the marks of the protocol and fields that
-- fit, and a pack below 2 ^ 32 bytes: from the pack of GetPack, Init reports no error, GetHeader gives
-- the header, and the calls of UnPacker give the fields in order, report no error and end at the end of
-- the body.
pub un_pack_fields-get_pack :
    (hbuf : Memory) (fs : List Field) (h : MsgHeader) (u : UnPacker) (m : Memory)
    → AllFit fs
    → Fits h
    → h.soh ≡ soh
    → h.main_ver ≡ main_ver
    → 30 + length (fields_bytes fs) < 2 ^ 32
    → copy_out m 0 (30 + length (fields_bytes fs)) ≡ get_pack hbuf (pack_fields [] fs) h
    → (let n = length (fields_bytes fs) in
        let (u', result) = init u m (30 + n) in
        (result ≡ ret_ok)
        × (get_header m ≡ record h { pack_len = 30 + n })
        × (un_pack_fields u' (map kind_of fs) ≡ (moved u' n, some fs)))
unfolding init
un_pack_fields-get_pack hbuf fs h u m hs f s v fits at =
    let n = length (fields_bytes fs) in
    let packed = pack_fields-bytes fs [] hs in
    let on_wire : copy_out m 0 (30 + n) ≡ wire h (fields_bytes fs) =
      at ∙ ap (λ b. get_pack hbuf b h) packed ∙ get_pack-wire hbuf (fields_bytes fs) h fits in
    let (ok, header) =
      init-wire u m (30 + n) h (fields_bytes fs) f s v (omega arith) fits on_wire in
    let u' = (init u m (30 + n)).0 in
    (
      ok,
      header,
      un_pack_fields-At fs u' hs (init-At u m h (fields_bytes fs) fits on_wire)
          ∙ ap (λ k. (moved u' k, some fs)) (omega arith),
    )
