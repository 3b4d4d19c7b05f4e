-- ===== src/ProtocolPack/CookieLaws.antt =====
-- SetCookie, GetCookie and DelCookie on a pack (protocol_pack.h).
use spp_server_frame_work.Base.{
  put, ℕ, suc, ◌+◌, ◌-◌, ◌^◌, ◌<◌, ◌≤◌, ◌≡◌, inl, inr, refl, sym, subst, ◌∙◌, false, Option, some,
  none, List, [], ◌∷◌, ◌++◌, length, add32, sub32, arith, Memory, copy_out, le→not_ltb, lt→ltb,
  lt→not_leb, ==-eq_false, if◌then◌else◌, ◌==◌, ◌⊎◌,
}
use mathlib.Core.Option.{none-ne-some}
use spp_server_frame_work.ProtocolPack.{eot, MsgHeader}
use spp_server_frame_work.ProtocolPack.Cookie.{
  total, buffer_too_small, get_pack_len, set_pack_len, get_cookie_pos, set_cookie_pos, place_cookie,
  set_cookie, get_cookie_string, del_cookie,
}
use spp_server_frame_work.ProtocolPack.Laid.{
  Laid, Laid-next, with_rev, set_pack_len-Laid, get_pack_len-Laid, get_cookie_pos-Laid,
  set_cookie_pos-Laid,
}
use spp_server_frame_work.ProtocolPack.Cookies.{
  Pack, cookie_bytes, cookie_place, cookie_len, put_cookie-Pack, place_fits, get_pack_len-Pack,
  get_cookie_pos-Pack, bare, cookie_len-Pack, cookie-Pack,
}

or_empty : (ck l : List ℕ) → l ≡ ck → (if length ck == 0 then [] else l) ≡ ck
or_empty [] l e = refl
or_empty (x ∷ ck) l e = rw (==-eq_false (suc (length ck)) 0 (λ z. absurd (omega arith))) e

module _ (m : Memory) (h : MsgHeader) (reserve : ℕ) (body : List ℕ) where
  -- SetCookie goes behind the body, whether there is a cookie or not.
  set_cookie-place :
      (old : Option (List ℕ)) (len : ℕ) (new : List ℕ)
      → Pack m h reserve body old
      → set_cookie m len new ≡ place_cookie m len (29 + length body) (30 + length body) new
  unfolding set_cookie
  set_cookie-place none len new p =
      let n : 30 + length body + 0 - 1 ≡ 29 + length body = omega arith in
      let z : 30 + length body + 0 ≡ 30 + length body = omega arith in
      rw
        (
          get_cookie_pos-Pack m h reserve body none p,
          get_pack_len-Pack m h reserve body none p,
          n,
          z,
        )
        refl
  set_cookie-place (some ck) len new p =
      let some_place : (29 + length body == 0) ≡ false =
        ==-eq_false (29 + length body) 0 (λ e. absurd (omega arith)) in
      let less : sub32 (30 + length body + (2 + length ck)) (2 + length ck) ≡ 30 + length body =
        omega (arith, p.body_fits, p.cookie_fits) in
      rw
        (
          get_cookie_pos-Pack m h reserve body (some ck) p,
          some_place,
          get_pack_len-Pack m h reserve body (some ck) p,
          cookie_len-Pack m h reserve body ck p,
          less,
        )
        refl

  -- For a pack with or without a cookie, a new cookie below 2 ^ 16 bytes and a buffer with room for it:
  -- SetCookie makes the pack with the new cookie and returns its length.
  pub set_cookie-Pack :
      (old : Option (List ℕ)) (len : ℕ) (new : List ℕ)
      → Pack m h reserve body old
      → length new < 2 ^ 16
      → 32 + length body + length new ≤ len
      → (let (m', result) = set_cookie m len new in
          Pack m' h reserve body (some new) × (result ≡ total (32 + length body + length new)))
  unfolding place_cookie
  set_cookie-Pack old len new p fits room =
      let n : add32 (30 + length body) (2 + length new) ≡ 32 + length body + length new =
        omega (arith, p.body_fits) in
      rw (set_cookie-place old len new p, n, le→not_ltb len (32 + length body + length new) room)
        (
          put_cookie-Pack m h reserve (cookie_place body old) (30 + length body + cookie_len old)
              body new p.reserve_fits (place_fits body old p.body_fits) p.body_fits fits
              (bare m h reserve body old p).0,
          refl,
        )

  -- For a buffer without that room: SetCookie changes nothing and returns -1.
  pub set_cookie-short :
      (old : Option (List ℕ)) (len : ℕ) (new : List ℕ)
      → Pack m h reserve body old
      → length new < 2 ^ 16
      → len < 32 + length body + length new
      → set_cookie m len new ≡ (m, buffer_too_small)
  unfolding place_cookie
  set_cookie-short old len new p fits short =
      let n : add32 (30 + length body) (2 + length new) ≡ 32 + length body + length new =
        omega (arith, p.body_fits) in
      rw (set_cookie-place old len new p, n, lt→ltb len (32 + length body + length new) short) refl

  -- GetCookie gives the cookie of a pack, and leaves the string when there is none.
  pub get_cookie_string-Pack :
      (ck : Option (List ℕ)) (string : List ℕ)
      → Pack m h reserve body ck
      → get_cookie_string m string ≡ (elim ck [ none ↦ string | some l ↦ l ])
  unfolding get_cookie_string
  get_cookie_string-Pack none string p = rw (get_cookie_pos-Pack m h reserve body none p) refl
  get_cookie_string-Pack (some ck) string p =
      let some_place : (29 + length body == 0) ≡ false =
        ==-eq_false (29 + length body) 0 (λ e. absurd (omega arith)) in
      let read : (if length ck == 0 then [] else copy_out m (29 + length body + 2) (length ck))
          ≡ ck =
        or_empty ck (copy_out m (29 + length body + 2) (length ck))
          (cookie-Pack m h reserve body ck p) in
      rw
        (
          get_cookie_pos-Pack m h reserve body (some ck) p,
          some_place,
          cookie_len-Pack m h reserve body ck p,
        )
        read

  -- For a pack without a cookie, or with one behind a body that is not empty: DelCookie makes the pack
  -- without a cookie and returns its length.
  pub del_cookie-Pack :
      (ck : Option (List ℕ))
      → Pack m h reserve body ck
      → (ck ≡ none) ⊎ (0 < length body)
      → Pack (del_cookie m).0 h reserve body none × ((del_cookie m).1 ≡ 30 + length body)
  unfolding del_cookie
  del_cookie-Pack none p c =
      let n : 30 + length body + 0 ≡ 30 + length body = omega arith in
      rw (get_cookie_pos-Pack m h reserve body none p, get_pack_len-Pack m h reserve body none p)
        (p, n)
  del_cookie-Pack (some ck) p (inl e) = absurd (none-ne-some ck (sym e))
  del_cookie-Pack (some ck) p (inr full) =
      let b = length body in
      let n = 30 + b + (2 + length ck) in
      let hp = with_rev h reserve (29 + b) in
      let m1 = put m (29 + b) (eot ∷ []) in
      let l1 =
        Laid-next m hp n body (eot ∷ []) (29 + b) refl (bare m h reserve body (some ck) p).0 in
      let tail = body ++ eot ∷ [] in
      let l2 =
        set_cookie_pos-Laid m1 h reserve (29 + b) n tail p.reserve_fits p.body_fits l1 0
          (omega arith) in
      let cut = set_pack_len (set_cookie_pos m1 0) (30 + b) in
      let less : sub32 n (2 + length ck) ≡ 30 + b = omega (arith, p.body_fits, p.cookie_fits) in
      let l3 = set_pack_len-Laid (set_cookie_pos m1 0) (with_rev h reserve 0) n tail l2 (30 + b) in
      let z : 30 + b ≡ 30 + b + 0 = omega arith in
      let made : Pack cut h reserve body none = record {
        laid = subst (λ (k : ℕ). Laid cut (with_rev h reserve 0) k tail) z l3;
        reserve_fits = p.reserve_fits;
        body_fits = p.body_fits;
        cookie_fits = omega arith;
      } in
      rw
        (
          get_cookie_pos-Pack m h reserve body (some ck) p,
          get_pack_len-Pack m h reserve body (some ck) p,
          cookie_len-Pack m h reserve body ck p,
          less,
          lt→not_leb (29 + b) 29 (omega arith),
          lt→not_leb n (29 + b) (omega arith),
        )
        (made, refl)

-- A cookie right behind the header.
module _ (m : Memory) (h : MsgHeader) (reserve : ℕ) where
  get_cookie_pos-Pack_empty : (ck : List ℕ) → Pack m h reserve [] (some ck) → get_cookie_pos m ≡ 29
  get_cookie_pos-Pack_empty ck p =
      get_cookie_pos-Laid m h reserve 29 (30 + cookie_len (some ck)) (cookie_bytes (some ck))
        p.reserve_fits p.body_fits p.laid

  get_pack_len-Pack_empty :
      (ck : List ℕ) → Pack m h reserve [] (some ck) → get_pack_len m ≡ 32 + length ck
  get_pack_len-Pack_empty ck p =
      let total : 30 + (2 + length ck) ≡ 32 + length ck = omega arith in
      get_pack_len-Laid m (with_rev h reserve 29) (30 + cookie_len (some ck))
        (cookie_bytes (some ck)) p.laid (omega (arith, p.cookie_fits))
      ∙ total

  -- A cookie right behind the header, so that the body is empty: DelCookie changes nothing.
  pub del_cookie-empty :
      (ck : List ℕ) → Pack m h reserve [] (some ck) → del_cookie m ≡ (m, 32 + length ck)
  unfolding del_cookie
  del_cookie-empty ck p = rw (get_cookie_pos-Pack_empty ck p, get_pack_len-Pack_empty ck p) refl
