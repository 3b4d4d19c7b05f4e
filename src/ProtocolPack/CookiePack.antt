-- ===== src/ProtocolPack/CookiePack.antt =====
-- The GetPack with a cookie of Packer and of FixedPacker make the pack with that cookie
-- (protocol_pack.cpp).
use spp_server_frame_work.Base.{
  put, ℕ, ◌+◌, ◌-◌, ◌/◌, ◌%◌, ◌^◌, ◌<◌, ◌≤◌, ◌≡◌, refl, sym, subst, ap, ◌∙◌, false, some, List, [],
  ◌∷◌, ◌++◌, length, u32, add32, sub32, arith, Memory, copy_out, length-append, ltb, le→not_ltb,
  lt→ltb,
}
use spp_server_frame_work.ProtocolPack.{eot, store16, htons, MsgHeader}
use spp_server_frame_work.ProtocolPack.Cookie.{put_cookie, set_cookie_pos, set_pack_len}
use spp_server_frame_work.ProtocolPack.Packer.{get_pack_cookie, with_body, pack_header}
use spp_server_frame_work.ProtocolPack.FixedPacker
use spp_server_frame_work.ProtocolPack.FixedPacker.{FixedPacker, left_space, failed}
use spp_server_frame_work.ProtocolPack.Wire.{with_body-bytes}
use spp_server_frame_work.ProtocolPack.Laid.{Laid, with_rev}
use spp_server_frame_work.ProtocolPack.Cookies.{Pack, cookie_bytes, put_cookie-Pack}
use spp_server_frame_work.ProtocolPack.Fixed.{Body}
use spp_server_frame_work.ProtocolPack.FixedPack.{pack_header-Body}

-- The two parts of the reserved field of a header.
whole_rev : (h : MsgHeader) → with_rev h (h.rev / 2 ^ 24) (h.rev % 2 ^ 24) ≡ h
whole_rev h = ap (λ (v : ℕ). record h { rev = v }) (omega arith)

-- The writes of a cookie behind a body of `b` bytes.
abbrev cookie_written : Memory → ℕ → List ℕ → Memory
cookie_written m b ck =
    let m1 = put (store16 m (29 + b) (htons (length ck))) (29 + b + 2) ck in
    let m2 = put m1 (29 + b + 2 + length ck) (eot ∷ []) in
    set_pack_len (set_cookie_pos m2 (29 + b)) (32 + b + length ck)

put_cookie-cookie_written :
    (m : Memory) (b : ℕ) (ck : List ℕ)
    → 29 + b < 2 ^ 24
    → length ck < 2 ^ 16
    → put_cookie m (29 + b) (30 + b) ck ≡ cookie_written m b ck
unfolding put_cookie
put_cookie-cookie_written m b ck bf cf =
    let all : add32 (30 + b) (2 + length ck) ≡ 32 + b + length ck = omega arith in
    let place : sub32 (30 + b) 1 ≡ 29 + b = omega arith in rw (all, place) refl

put_behind :
    (m : Memory) (h : MsgHeader) (body ck : List ℕ)
    → h.rev < 2 ^ 32
    → 29 + length body < 2 ^ 24
    → length ck < 2 ^ 16
    → Laid m h (30 + length body) body
    → Pack (cookie_written m (length body) ck) h (h.rev / 2 ^ 24) body (some ck)
put_behind m h body ck rf bf cf laid =
    subst (λ (w : Memory). Pack w h (h.rev / 2 ^ 24) body (some ck))
      (put_cookie-cookie_written m (length body) ck bf cf)
      (put_cookie-Pack m h (h.rev / 2 ^ 24) (h.rev % 2 ^ 24) (30 + length body) body ck
        (omega arith) (omega arith) bf cf
        (subst (λ (g : MsgHeader). Laid m g (30 + length body) body) (sym (whole_rev h)) laid))

-- A pack is known by its bytes.
same_bytes :
    (m m' : Memory) (h : MsgHeader) (r : ℕ) (body ck : List ℕ)
    → Pack m' h r body (some ck)
    → copy_out m 0 (32 + length body + length ck) ≡ copy_out m' 0 (32 + length body + length ck)
    → Pack m h r body (some ck)
same_bytes m m' h r body ck p at =
    let total : 29 + length (body ++ cookie_bytes (some ck)) ≡ 32 + length body + length ck =
      omega (arith, length-append body (cookie_bytes (some ck)), length-append ck (eot ∷ [])) in
    record {
      laid = ap (copy_out m 0) total ∙ at ∙ ap (copy_out m' 0) (sym total) ∙ p.laid;
      reserve_fits = p.reserve_fits;
      body_fits = p.body_fits;
      cookie_fits = p.cookie_fits;
    }

get_pack_cookie-cookie_written :
    (hbuf : Memory) (m_oss : List ℕ) (h : MsgHeader) (ck : List ℕ)
    → 29 + length m_oss < 2 ^ 24
    → length ck < 2 ^ 16
    → get_pack_cookie hbuf m_oss h ck
      ≡ copy_out
          (cookie_written (with_body hbuf h m_oss) (length m_oss) ck)
          0
          (32 + length m_oss + length ck)
unfolding get_pack_cookie
get_pack_cookie-cookie_written hbuf m_oss h ck bf cf =
    let b = length m_oss in
    let k = length ck in
    let size : u32 b ≡ b = omega arith in
    let all : add32 (29 + b) (2 + k + 1) ≡ 32 + b + k = omega arith in
    let place : add32 29 b ≡ 29 + b = omega arith in rw (size, all, place) refl

-- For a body below 2 ^ 24 - 29 bytes and a cookie below 2 ^ 16: GetPack with a cookie gives the bytes of
-- a pack that has the header, with the reserved byte kept, the body and the cookie.
pub get_pack_cookie-Pack :
    (hbuf m : Memory) (m_oss : List ℕ) (h : MsgHeader) (ck : List ℕ)
    → h.rev < 2 ^ 32
    → 29 + length m_oss < 2 ^ 24
    → length ck < 2 ^ 16
    → copy_out m 0 (32 + length m_oss + length ck) ≡ get_pack_cookie hbuf m_oss h ck
    → Pack m h (h.rev / 2 ^ 24) m_oss (some ck)
get_pack_cookie-Pack hbuf m m_oss h ck rf bf cf at =
    same_bytes m (cookie_written (with_body hbuf h m_oss) (length m_oss) ck) h (h.rev / 2 ^ 24)
      m_oss ck
      (put_behind (with_body hbuf h m_oss) h m_oss ck rf bf cf
        (with_body-bytes hbuf h m_oss (omega arith)))
      (at ∙ get_pack_cookie-cookie_written hbuf m_oss h ck bf cf)

-- For a buffer with a body below 2 ^ 24 - 29 bytes, a cookie below 2 ^ 16 and room for both and for two
-- bytes in between: FixedPacker leaves in its buffer the pack with the header, its reserved byte kept, the
-- body and the cookie, and gives its length.
pub fixed_cookie-Pack :
    (f : FixedPacker) (n : ℕ) (l : List ℕ) (h : MsgHeader) (ck : List ℕ)
    → Body f n l
    → h.rev < 2 ^ 32
    → 29 + length l < 2 ^ 24
    → length ck < 2 ^ 16
    → 31 + length l + length ck ≤ n
    → (let (g, len) = FixedPacker.get_pack_cookie f h ck in
        Pack g.buf h (h.rev / 2 ^ 24) l (some ck) × (len ≡ 32 + length l + length ck))
unfolding FixedPacker.get_pack_cookie left_space
fixed_cookie-Pack f n l h ck b rf bf cf room =
    let k = length ck in
    let space : ltb (f.buf_len - f.tail) (2 + k) ≡ false =
      le→not_ltb (f.buf_len - f.tail) (2 + k) (omega (arith, b.tail_is, b.len_is)) in
    let pack_len : f.tail + 1 ≡ 30 + length l = omega (arith, b.tail_is) in
    let size : sub32 (30 + length l) 30 ≡ length l =
      omega (arith, b.small, b.tail_is, b.in_buffer) in
    let all : 30 + length l + 2 + k ≡ 32 + length l + k = omega arith in
    let end : 32 + length l + k - 1 ≡ 29 + length l + 2 + k = omega arith in
    let place : 30 + length l - 1 ≡ 29 + length l = omega arith in
    let p =
      put_behind (pack_header f.buf h (length l)) h l ck rf bf cf (pack_header-Body f n l h b) in
    rw (space, b.no_error, pack_len, b.tail_is, size, all, end, place) (p, refl)

-- For a buffer without that room: the error is set and the length is 0.
pub fixed_cookie-full :
    (f : FixedPacker) (n : ℕ) (l : List ℕ) (h : MsgHeader) (ck : List ℕ)
    → Body f n l
    → n < 31 + length l + length ck
    → FixedPacker.get_pack_cookie f h ck ≡ (failed f, 0)
unfolding FixedPacker.get_pack_cookie left_space
fixed_cookie-full f n l h ck b full =
    rw
      (lt→ltb (f.buf_len - f.tail) (2 + length ck)
        (omega (arith, b.tail_is, b.len_is, b.in_buffer)))
      refl
