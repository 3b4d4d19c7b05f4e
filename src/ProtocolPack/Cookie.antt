-- ===== src/ProtocolPack/Cookie.antt =====
-- The inline functions of protocol_pack.h that read and write fields of a pack in place, and the cookie
-- behind its body. A pack length of 0, which no pack has, would put the tail before the pack.
use spp_server_frame_work.Base.{
  put, ℕ, ◌+◌, ◌-◌, ◌*◌, ◌/◌, ◌%◌, ◌^◌, Bool, ◌||◌, true, false, List, [], ◌∷◌, add32, sub32,
  Memory, copy_out, length, ltb, leb, ◌==◌, if◌then◌else◌,
}
use spp_server_frame_work.ProtocolPack.{
  eot, msg_enc_type_pos, msg_from_uin_pos, msg_header_len, msg_main_cmd_pos, msg_rev_pos,
  msg_seq_pos, msg_to_uin_pos, store16, store32, load16, load32, htons, htonl,
}

unfoldable pub get_pack_len : Memory → ℕ
get_pack_len p = htonl (load32 p 3)

unfoldable pub set_pack_len : Memory → ℕ → Memory
set_pack_len p len = store32 p 3 (htonl len)

unfoldable pub set_pack_cmd : Memory → ℕ → ℕ → Memory
set_pack_cmd p main sub =
    store16 (store16 p msg_main_cmd_pos (htons main)) (msg_main_cmd_pos + 2) (htons sub)

unfoldable pub get_pack_cmd : Memory → ℕ × ℕ
get_pack_cmd p = (htons (load16 p msg_main_cmd_pos), htons (load16 p (msg_main_cmd_pos + 2)))

unfoldable pub set_from_uin : Memory → ℕ → Memory
set_from_uin p from_uin = store32 p msg_from_uin_pos (htonl from_uin)

unfoldable pub get_from_uin : Memory → ℕ
get_from_uin p = htonl (load32 p msg_from_uin_pos)

unfoldable pub set_to_uin : Memory → ℕ → Memory
set_to_uin p to_uin = store32 p msg_to_uin_pos (htonl to_uin)

unfoldable pub get_to_uin : Memory → ℕ
get_to_uin p = htonl (load32 p msg_to_uin_pos)

unfoldable pub set_sequence : Memory → ℕ → Memory
set_sequence p seq = store32 p msg_seq_pos (htonl seq)

unfoldable pub get_sequence : Memory → ℕ
get_sequence p = htonl (load32 p msg_seq_pos)

-- `|` of numbers without a common bit is their sum; `rev` is a byte.
unfoldable pub set_reserve : Memory → ℕ → Memory
set_reserve p rev =
    let reserve = htonl (load32 p msg_rev_pos) in
    store32 p msg_rev_pos (htonl (rev * 2 ^ 24 + reserve % 2 ^ 24))

unfoldable pub get_reserve : Memory → ℕ
get_reserve p = htonl (load32 p msg_rev_pos) / 2 ^ 24 % 2 ^ 8

unfoldable pub set_cookie_pos : Memory → ℕ → Memory
set_cookie_pos p pos =
    let reserve = htonl (load32 p msg_rev_pos) in
    store32 p msg_rev_pos (htonl (reserve / 2 ^ 24 * 2 ^ 24 + pos % 2 ^ 24))

unfoldable pub get_cookie_pos : Memory → ℕ
get_cookie_pos p = htonl (load32 p msg_rev_pos) % 2 ^ 24

unfoldable pub get_enc_type : Memory → ℕ
get_enc_type p = p msg_enc_type_pos

unfoldable pub set_enc_type : Memory → ℕ → Memory
set_enc_type p type = put p msg_enc_type_pos (type % 2 ^ 8 ∷ [])

-- What `SetCookie` returns: the new length, -1 or -2.
pub data CookieResult : Type 0 where
  total : ℕ → CookieResult
  buffer_too_small : CookieResult
  cookie_too_long : CookieResult

-- The writes of `SetCookie`, at the place `l`, with the length less an old cookie.
unfoldable pub put_cookie : Memory → ℕ → ℕ → List ℕ → Memory
put_cookie p l pack_len ck =
    let p1 = store16 p l (htons (length ck)) in
    let p2 = put p1 (l + 2) ck in
    let p3 = put p2 (l + 2 + length ck) (eot ∷ []) in
    let p4 = set_cookie_pos p3 (sub32 pack_len 1) in
    set_pack_len p4 (add32 pack_len (2 + length ck))

unfoldable pub place_cookie : Memory → ℕ → ℕ → ℕ → List ℕ → Memory × CookieResult
place_cookie p len l pack_len ck =
    if ltb len (add32 pack_len (2 + length ck))
    then (p, buffer_too_small)
    else (put_cookie p l pack_len ck, total (add32 pack_len (2 + length ck)))

-- `SetCookie(p, len, ck, ckLen)`; the length of `ck` fits 16 bits.
unfoldable pub set_cookie : Memory → ℕ → List ℕ → Memory × CookieResult
set_cookie p len ck =
    let pack_len = get_pack_len p in
    let ck_pos = get_cookie_pos p in
    if ck_pos == 0
    then place_cookie p len (pack_len - 1) pack_len ck
    else place_cookie p len ck_pos (sub32 pack_len (2 + htons (load16 p ck_pos))) ck

unfoldable pub set_cookie_string : Memory → ℕ → List ℕ → Memory × CookieResult
set_cookie_string p len cookie =
    if ltb 0xFFFF (length cookie) then (p, cookie_too_long) else set_cookie p len cookie

-- `GetCookie(p, ck, ckLen)` with the room at `ck`: whether it returns 0, what it copies, and `ckLen`.
unfoldable pub get_cookie : Memory → ℕ → Bool × List ℕ × ℕ
get_cookie p room =
    let ck_pos = get_cookie_pos p in
    let ck_len = htons (load16 p ck_pos) in
    if ck_pos == 0
    then (true, [], 0)
    else if ltb room ck_len
    then (false, [], ck_len)
    else (true, copy_out p (ck_pos + 2) ck_len, ck_len)

-- `GetCookie(p, ck)` with the string at `ck`, which it leaves when there is no cookie.
unfoldable pub get_cookie_string : Memory → List ℕ → List ℕ
get_cookie_string p ck =
    let ck_pos = get_cookie_pos p in
    let ck_len = htons (load16 p ck_pos) in
    if ck_pos == 0 then ck else if ck_len == 0 then [] else copy_out p (ck_pos + 2) ck_len

unfoldable pub del_cookie : Memory → Memory × ℕ
del_cookie p =
    let pack_len = get_pack_len p in
    let ck_pos = get_cookie_pos p in
    let less = sub32 pack_len (2 + htons (load16 p ck_pos)) in
    if leb ck_pos msg_header_len || leb pack_len ck_pos
    then (p, pack_len)
    else (set_pack_len (set_cookie_pos (put p ck_pos (eot ∷ [])) 0) less, less)
