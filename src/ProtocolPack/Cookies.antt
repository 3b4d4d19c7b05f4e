-- ===== src/ProtocolPack/Cookies.antt =====
-- What the cookie functions of protocol_pack.h make of a pack: it is a header, a body and, at times, a
-- cookie behind the body.
use spp_server_frame_work.Base.{
  copy_out-parts, put, ℕ, ◌+◌, ◌^◌, ◌<◌, ◌≡◌, refl, subst, ap, ◌∙◌, Option, some, none, List, [],
  ◌∷◌, ◌++◌, length, le_bytes, of_le, add32, sub32, arith, Memory, copy_out, append_assoc,
  length-append,
}
use spp_server_frame_work.ProtocolPack.{store16, load16, htons, eot, MsgHeader}
use spp_server_frame_work.ProtocolPack.Cookie.{
  get_pack_len, get_cookie_pos, set_cookie_pos, put_cookie,
}
use spp_server_frame_work.ProtocolPack.Fields.{be_bytes2, le_bytes-htons, htons-of_be}
use spp_server_frame_work.ProtocolPack.Laid.{
  Laid, Laid-next, Laid-front, with_rev, set_pack_len-Laid, get_pack_len-Laid, get_cookie_pos-Laid,
  set_cookie_pos-Laid,
}

-- What stands behind the body.
abbrev pub cookie_bytes : Option (List ℕ) → List ℕ
cookie_bytes none = eot ∷ []
cookie_bytes (some ck) = be_bytes2 (length ck) ++ ck ++ eot ∷ []

abbrev pub cookie_place : List ℕ → Option (List ℕ) → ℕ
cookie_place body none = 0
cookie_place body (some ck) = 29 + length body

abbrev pub cookie_len : Option (List ℕ) → ℕ
cookie_len none = 0
cookie_len (some ck) = 2 + length ck

-- The memory has the pack of a header, with its reserved byte, a body and a cookie, if any.
pub record Pack (m : Memory) (h : MsgHeader) (reserve : ℕ) (body : List ℕ) (ck : Option (List ℕ))
    : Type 0 where
  pub laid :
      Laid m
        (with_rev h reserve (cookie_place body ck))
        (30 + length body + cookie_len ck)
        (body ++ cookie_bytes ck)
  pub reserve_fits : reserve < 2 ^ 8
  pub body_fits : 29 + length body < 2 ^ 24
  pub cookie_fits : cookie_len ck < 2 ^ 16 + 2

-- The writes of SetCookie behind the body.
pub put_cookie-Pack :
    (m : Memory) (h : MsgHeader) (reserve pos n : ℕ) (body ck : List ℕ)
    → reserve < 2 ^ 8
    → pos < 2 ^ 24
    → 29 + length body < 2 ^ 24
    → length ck < 2 ^ 16
    → Laid m (with_rev h reserve pos) n body
    → Pack (put_cookie m (29 + length body) (30 + length body) ck) h reserve body (some ck)
unfolding put_cookie
put_cookie-Pack m h reserve pos n body ck rf pf bf cf laid =
    let k = length ck in
    let b = length body in
    let end = eot ∷ [] in
    let hp = with_rev h reserve pos in
    let be : le_bytes 2 (htons k) ≡ be_bytes2 k = le_bytes-htons k in
    let m1 = store16 m (29 + b) (htons k) in
    let m2 = put m1 (29 + b + 2) ck in
    let m3 = put m2 (29 + b + 2 + k) end in
    let l1 : Laid m1 hp n (body ++ be_bytes2 k) =
      subst (λ (t : List ℕ). Laid m1 hp n (body ++ t)) be
        (Laid-next m hp n body (le_bytes 2 (htons k)) (29 + b) refl laid) in
    let size1 = length-append body (be_bytes2 k) in
    let l2 = Laid-next m1 hp n (body ++ be_bytes2 k) ck (29 + b + 2) (omega (arith, size1)) l1 in
    let size2 = length-append (body ++ be_bytes2 k) ck in
    let l3 =
      Laid-next m2 hp n (body ++ be_bytes2 k ++ ck) end (29 + b + 2 + k)
        (omega (arith, size1, size2)) l2 in
    let all : body ++ be_bytes2 k ++ ck ++ end ≡ body ++ (be_bytes2 k ++ ck ++ end) =
      ap (λ t. t ++ end) (append_assoc body (be_bytes2 k) ck)
      ∙ append_assoc body (be_bytes2 k ++ ck) end in
    let tail = body ++ (be_bytes2 k ++ ck ++ end) in
    let l3' : Laid m3 hp n tail = subst (Laid m3 hp n) all l3 in
    let place : sub32 (30 + b) 1 ≡ 29 + b = omega arith in
    let sum : add32 (30 + b) (2 + k) ≡ 30 + b + (2 + k) = omega arith in
    let l4 = set_cookie_pos-Laid m3 h reserve pos n tail rf pf l3' (29 + b) bf in
    record {
      laid =
          rw (place, sum)
            (set_pack_len-Laid (set_cookie_pos m3 (29 + b)) (with_rev h reserve (29 + b)) n tail l4
              (30 + b + (2 + k)));
      reserve_fits = rf;
      body_fits = bf;
      cookie_fits = omega arith;
    }

pub place_fits :
    (body : List ℕ) (old : Option (List ℕ))
    → 29 + length body < 2 ^ 24
    → cookie_place body old < 2 ^ 24
place_fits body none h = omega arith
place_fits body (some ck) h = h

module _ (m : Memory) (h : MsgHeader) (reserve : ℕ) (body : List ℕ) where
  pub get_pack_len-Pack :
      (old : Option (List ℕ))
      → Pack m h reserve body old
      → get_pack_len m ≡ 30 + length body + cookie_len old
  get_pack_len-Pack old p =
      get_pack_len-Laid m (with_rev h reserve (cookie_place body old))
        (30 + length body + cookie_len old) (body ++ cookie_bytes old) p.laid
        (omega (arith, p.body_fits, p.cookie_fits))

  pub get_cookie_pos-Pack :
      (old : Option (List ℕ)) → Pack m h reserve body old → get_cookie_pos m ≡ cookie_place body old
  get_cookie_pos-Pack old p =
      get_cookie_pos-Laid m h reserve (cookie_place body old) (30 + length body + cookie_len old)
        (body ++ cookie_bytes old) p.reserve_fits (place_fits body old p.body_fits) p.laid

  pub bare :
      (old : Option (List ℕ))
      → Pack m h reserve body old
      → Laid m (with_rev h reserve (cookie_place body old)) (30 + length body + cookie_len old) body
        × (copy_out m (29 + length body) (length (cookie_bytes old)) ≡ cookie_bytes old)
  bare old p =
      Laid-front m (with_rev h reserve (cookie_place body old)) (30 + length body + cookie_len old)
        body (cookie_bytes old) p.laid

  -- The cookie at its place.
  module _ (ck : List ℕ) (p : Pack m h reserve body (some ck)) where
    pub cookie_len-Pack : htons (load16 m (29 + length body)) ≡ length ck
    cookie_len-Pack =
        let parts =
          copy_out-parts m (be_bytes2 (length ck)) (ck ++ eot ∷ []) (29 + length body)
            (bare (some ck) p).1 in
        ap (λ t. htons (of_le t)) parts.0 ∙ htons-of_be (length ck) (omega (arith, p.cookie_fits))

    pub cookie-Pack : copy_out m (29 + length body + 2) (length ck) ≡ ck
    cookie-Pack =
        let parts =
          copy_out-parts m (be_bytes2 (length ck)) (ck ++ eot ∷ []) (29 + length body)
            (bare (some ck) p).1 in
        (copy_out-parts m ck (eot ∷ []) (29 + length body + 2) parts.1).0
