-- ===== src/ProtocolPack/FixedPack.antt =====
-- The pack that FixedPacker leaves in the buffer is the one that Packer makes (protocol_pack.cpp).
use spp_server_frame_work.Base.{
  le→leb, lt→ltb, leb, ltb, true, copy_out-join, copy_out-put_next, copy_out-put_other, put, ℕ, ◌+◌,
  ◌-◌, ◌^◌, ◌<◌, ◌≤◌, ◌≡◌, inr, refl, sym, ap, ap₂, le_bytes, ◌∙◌, List, [], ◌∷◌, ◌++◌, length,
  add32, sub32, arith, Memory, copy_out, le→not_ltb,
}
use spp_server_frame_work.ProtocolPack.{htons, htonl, eot, MsgHeader}
use spp_server_frame_work.ProtocolPack.FixedPacker.{FixedPacker, init, get_pack}
use spp_server_frame_work.ProtocolPack.Packer
use spp_server_frame_work.ProtocolPack.Packer.{pack_header}
use spp_server_frame_work.ProtocolPack.Wire.{
  wire, header_bytes, pack_header-bytes, get_pack-wire, wire-length,
}
use spp_server_frame_work.ProtocolPack.Sequence.{
  Field, AllFit, fields_bytes, pack_fields, pack_fields-bytes,
}
use spp_server_frame_work.ProtocolPack.Fixed.{
  Body, AllShort, fixed_fields, fixed_fields-room, fixed_fields-full,
}

past_header :
    (m : Memory) (dst : ℕ) (l : List ℕ) (n : ℕ)
    → dst + length l ≤ 29
    → copy_out (put m dst l) 29 n ≡ copy_out m 29 n
past_header m dst l n h = copy_out-put_other m dst l 29 n (inr h)

-- A header is written in front of the body.
pub pack_header-body :
    (m : Memory) (h : MsgHeader) (size n : ℕ)
    → copy_out (pack_header m h size) 29 n ≡ copy_out m 29 n
unfolding pack_header
pack_header-body m h size n =
    past_header _ 25 (le_bytes 4 (htonl h.rev)) n (omega arith)
    ∙ past_header _ 24 (h.source_type ∷ []) n (omega arith)
    ∙ past_header _ 23 (h.enc_type ∷ []) n (omega arith)
    ∙ past_header _ 19 (le_bytes 4 (htonl h.to_uin)) n (omega arith)
    ∙ past_header _ 15 (le_bytes 4 (htonl h.from_uin)) n (omega arith)
    ∙ past_header _ 11 (le_bytes 4 (htonl h.seq)) n (omega arith)
    ∙ past_header _ 9 (le_bytes 2 (htons h.sub_cmd)) n (omega arith)
    ∙ past_header _ 7 (le_bytes 2 (htons h.main_cmd)) n (omega arith)
    ∙ past_header _ 3 (le_bytes 4 (htonl (add32 (29 + size) 1))) n (omega arith)
    ∙ past_header _ 2 (h.sub_ver ∷ []) n (omega arith)
    ∙ past_header _ 1 (h.main_ver ∷ []) n (omega arith)
    ∙ past_header _ 0 (h.soh ∷ []) n (omega arith)

-- With a header in front of the body.
pub pack_header-Body :
    (f : FixedPacker) (n : ℕ) (l : List ℕ) (h : MsgHeader)
    → Body f n l
    → copy_out (pack_header f.buf h (length l)) 0 (29 + length l)
      ≡ header_bytes h (30 + length l) ++ l
pack_header-Body f n l h b =
    let headed = pack_header f.buf h (length l) in
    let len : add32 (29 + length l) 1 ≡ 30 + length l =
      omega (arith, b.small, b.tail_is, b.in_buffer) in
    copy_out-join headed 0 29 (length l) (29 + length l) refl
    ∙ ap₂ ◌++◌ (pack_header-bytes f.buf h (length l) ∙ ap (header_bytes h) len)
        (pack_header-body f.buf h (length l) (length l) ∙ b.bytes_are)

pub get_pack-Body :
    (f : FixedPacker) (n : ℕ) (l : List ℕ) (h : MsgHeader)
    → Body f n l
    → ((get_pack f h).1 ≡ 30 + length l)
      × (copy_out (get_pack f h).0.buf 0 (30 + length l) ≡ wire h l)
unfolding get_pack
get_pack-Body f n l h b =
    let pack_len : f.tail + 1 ≡ 30 + length l = omega (arith, b.tail_is) in
    let size : sub32 (30 + length l) 30 ≡ length l =
      omega (arith, b.small, b.tail_is, b.in_buffer) in
    let last : 30 + length l - 1 ≡ 29 + length l = omega arith in
    let headed = pack_header f.buf h (length l) in
    let pre = header_bytes h (30 + length l) ++ l in
    rw (b.no_error, pack_len, size, last)
      (
        refl,
        copy_out-put_next headed 0 pre (eot ∷ []) (29 + length l) (30 + length l) (omega arith)
            (omega arith) (ap (copy_out headed 0) (omega arith) ∙ pack_header-Body f n l h b),
      )

init-Body :
    (f : FixedPacker) (buf : Memory) (n : ℕ) → 30 ≤ n → n < 2 ^ 31 → Body (init f buf n).0 n []
unfolding init copy_out
init-Body f buf n le small = rw (le→not_ltb n 30 le) (record {
  tail_is = refl;
  bytes_are = refl;
  len_is = refl;
  in_buffer = omega arith;
  small = small;
  no_error = refl;
})

-- For a buffer of less than 2 ^ 31 bytes, and fields that fit, with room in it for the header, their bytes
-- and the end mark: FixedPacker gives the length and the bytes of the pack that Packer makes of the same
-- calls.
pub fixed_pack-get_pack :
    (f : FixedPacker) (buf hbuf : Memory) (n : ℕ) (fs : List Field) (h : MsgHeader)
    → AllFit fs
    → n < 2 ^ 31
    → 30 + length (fields_bytes fs) ≤ n
    → (let (g, len) = get_pack (fixed_fields (init f buf n).0 fs) h in
        let pack = Packer.get_pack hbuf (pack_fields [] fs) h in
        (len ≡ length pack) × (len ≤ n) × (copy_out g.buf 0 len ≡ pack))
fixed_pack-get_pack f buf hbuf n fs h fit small room =
    let body = fields_bytes fs in
    let b =
      fixed_fields-room fs (init f buf n).0 n [] fit (omega arith)
        (init-Body f buf n (omega arith) small) in
    let (len, bytes) = get_pack-Body (fixed_fields (init f buf n).0 fs) n body h b in
    let packed : Packer.get_pack hbuf (pack_fields [] fs) h ≡ wire h body =
      ap (λ t. Packer.get_pack hbuf t h) (pack_fields-bytes fs [] fit)
      ∙ get_pack-wire hbuf body h (omega arith) in
    rw (packed, len) (sym (wire-length h body), room, bytes)

-- For a buffer of 30 to 2 ^ 31 - 1 bytes that the header and the bytes of fields that fit fill to its end:
-- FixedPacker reports no error, gives a length of one byte more than the buffer has, and has written
-- the end mark to the byte behind the buffer.
pub fixed_pack-past_end :
    (f : FixedPacker) (buf : Memory) (n : ℕ) (fs : List Field) (h : MsgHeader)
    → AllFit fs
    → n < 2 ^ 31
    → 30 ≤ n
    → n ≡ 29 + length (fields_bytes fs)
    → (let (g, len) = get_pack (fixed_fields (init f buf n).0 fs) h in
        (g.err ≡ 0) × (len ≡ n + 1) × (g.buf n ≡ eot))
unfolding get_pack
fixed_pack-past_end f buf n fs h fit small le filled =
    let b =
      fixed_fields-room fs (init f buf n).0 n [] fit (omega (arith, filled))
        (init-Body f buf n le small) in
    let at_end : (fixed_fields (init f buf n).0 fs).tail ≡ n = omega (arith, b.tail_is, filled) in
    let last : n + 1 - 1 ≡ n = omega arith in
    let first : n - n ≡ 0 = omega arith in
    let from : leb n n ≡ true = le→leb n n (omega arith) in
    let to : ltb n (n + 1) ≡ true = lt→ltb n (n + 1) (omega arith) in
    rw (b.no_error, at_end, last) (refl, refl, rw (from, to, first) refl)

-- For a buffer of 30 to 2 ^ 31 - 1 bytes, and fields that fit, each of less than 2 ^ 31 bytes, whose bytes
-- do not end within the buffer: the length that FixedPacker gives is 0.
pub fixed_pack-full :
    (f : FixedPacker) (buf : Memory) (n : ℕ) (fs : List Field) (h : MsgHeader)
    → AllFit fs
    → AllShort fs
    → n < 2 ^ 31
    → n < 29 + length (fields_bytes fs)
    → 30 ≤ n
    → (get_pack (fixed_fields (init f buf n).0 fs) h).1 ≡ 0
unfolding get_pack
fixed_pack-full f buf n fs h fit short small full le =
    let failed =
      fixed_fields-full fs (init f buf n).0 n [] fit short full (init-Body f buf n le small) in
    rw failed.error refl
