-- ===== src/ProtocolPack/Laid.antt =====
-- Fields of a header changed in place (protocol_pack.h): the other bytes of the pack stay.
use spp_server_frame_work.Base.{
  copy_out-overwrite, copy_out-parts, copy_out-put_next, put, ℕ, ◌+◌, ◌*◌, ◌/◌, ◌%◌, ◌^◌, ◌<◌, ◌≡◌,
  refl, sym, ap, ◌∙◌, List, [], ◌∷◌, ◌++◌, length, take, drop, le_bytes, arith, Memory, copy_out,
  length-append, append_assoc,
}
use spp_server_frame_work.ProtocolPack.{store32, load32, htonl, MsgHeader}
use spp_server_frame_work.ProtocolPack.Cookie.{
  get_pack_len, set_pack_len, get_cookie_pos, set_cookie_pos, get_reserve, set_reserve,
}
use spp_server_frame_work.ProtocolPack.Fields.{be_bytes4, le_bytes-htonl}
use spp_server_frame_work.ProtocolPack.Wire.{header_bytes, load32-of_be}

-- A memory that starts with a header and these bytes.
abbrev pub Laid : Memory → MsgHeader → ℕ → List ℕ → Type 0
Laid m h pack_len tail = copy_out m 0 (29 + length tail) ≡ header_bytes h pack_len ++ tail

-- The high byte is the reserve, the others are the place of the cookie.
abbrev pub with_rev : MsgHeader → ℕ → ℕ → MsgHeader
with_rev h reserve pos = record h { rev = reserve * 2 ^ 24 + pos }

module _ (m : Memory) (h : MsgHeader) (pack_len : ℕ) (tail : List ℕ)
    (laid : Laid m h pack_len tail) where
  pub laid_whole :
      copy_out m 0 (length (header_bytes h pack_len ++ tail)) ≡ header_bytes h pack_len ++ tail
  laid_whole = ap (copy_out m 0) (omega arith) ∙ laid

  pub set_pack_len-Laid : (len : ℕ) → Laid (set_pack_len m len) h len tail
  unfolding set_pack_len
  set_pack_len-Laid len =
      let a = h.soh ∷ h.main_ver ∷ h.sub_ver ∷ [] in
      let rest = drop 7 (header_bytes h pack_len ++ tail) in
      copy_out-overwrite m a (be_bytes4 pack_len) (le_bytes 4 (htonl len)) rest (29 + length tail)
        refl (omega arith) laid
      ∙ ap (λ t. a ++ (t ++ rest)) (le_bytes-htonl len)

  pub get_pack_len-Laid : pack_len < 2 ^ 32 → get_pack_len m ≡ pack_len
  unfolding get_pack_len
  get_pack_len-Laid fits =
      load32-of_be m (header_bytes h pack_len ++ tail) laid_whole 3 pack_len fits (omega arith) refl

  pub load_rev-Laid : h.rev < 2 ^ 32 → htonl (load32 m 25) ≡ h.rev
  load_rev-Laid fits =
      load32-of_be m (header_bytes h pack_len ++ tail) laid_whole 25 h.rev fits (omega arith) refl

  pub set_rev-Laid : (v : ℕ) → Laid (store32 m 25 (htonl v)) (record h { rev = v }) pack_len tail
  set_rev-Laid v =
      let a = take 25 (header_bytes h pack_len) in
      copy_out-overwrite m a (be_bytes4 h.rev) (le_bytes 4 (htonl v)) tail (29 + length tail) refl
        (omega arith) laid
      ∙ ap (λ t. a ++ (t ++ tail)) (le_bytes-htonl v)

-- Bytes written behind those known.
pub Laid-next :
    (m : Memory) (h : MsgHeader) (pack_len : ℕ) (tail l : List ℕ) (dst : ℕ)
    → dst ≡ 29 + length tail
    → Laid m h pack_len tail
    → Laid (put m dst l) h pack_len (tail ++ l)
Laid-next m h pack_len tail l dst d laid =
    let header = header_bytes h pack_len in
    copy_out-put_next m 0 (header ++ tail) l dst (29 + length (tail ++ l)) (omega arith)
      (omega (arith, length-append tail l)) (laid_whole m h pack_len tail laid)
    ∙ append_assoc header tail l

-- The first of the bytes alone.
pub Laid-front :
    (m : Memory) (h : MsgHeader) (n : ℕ) (body tail : List ℕ)
    → Laid m h n (body ++ tail)
    → Laid m h n body × (copy_out m (29 + length body) (length tail) ≡ tail)
Laid-front m h n body tail laid =
    let header = header_bytes h n in
    let whole = sym (append_assoc header body tail) in
    let parts = copy_out-parts m (header ++ body) tail 0 (
      ap (λ l. copy_out m 0 (length l)) (sym whole)
      ∙ laid_whole m h n (body ++ tail) laid
      ∙ whole) in
    (
      ap (copy_out m 0) (omega arith) ∙ parts.0,
      ap (λ i. copy_out m i (length tail)) (omega arith) ∙ parts.1,
    )

-- The two parts of the reserved field.
module _ (m : Memory) (h : MsgHeader) (reserve pos pack_len : ℕ) (tail : List ℕ) where
  module _ (reserve_fits : reserve < 2 ^ 8) (pos_fits : pos < 2 ^ 24) where
    module _ (laid : Laid m (with_rev h reserve pos) pack_len tail) where
      rev_is : htonl (load32 m 25) ≡ reserve * 2 ^ 24 + pos
      rev_is = load_rev-Laid m (with_rev h reserve pos) pack_len tail laid (omega arith)

      pub get_cookie_pos-Laid : get_cookie_pos m ≡ pos
      unfolding get_cookie_pos
      get_cookie_pos-Laid = omega (arith, rev_is)

      pub get_reserve-Laid : get_reserve m ≡ reserve
      unfolding get_reserve
      get_reserve-Laid = omega (arith, rev_is)

      pub set_cookie_pos-Laid :
          (p : ℕ) → p < 2 ^ 24 → Laid (set_cookie_pos m p) (with_rev h reserve p) pack_len tail
      unfolding set_cookie_pos
      set_cookie_pos-Laid p fits =
          let v : htonl (load32 m 25) / 2 ^ 24 * 2 ^ 24 + p % 2 ^ 24 ≡ reserve * 2 ^ 24 + p =
            omega (arith, rev_is) in
          rw v (set_rev-Laid m (with_rev h reserve pos) pack_len tail laid (reserve * 2 ^ 24 + p))

      pub set_reserve-Laid : (r : ℕ) → Laid (set_reserve m r) (with_rev h r pos) pack_len tail
      unfolding set_reserve
      set_reserve-Laid r =
          let v : r * 2 ^ 24 + htonl (load32 m 25) % 2 ^ 24 ≡ r * 2 ^ 24 + pos =
            omega (arith, rev_is) in
          rw v (set_rev-Laid m (with_rev h reserve pos) pack_len tail laid (r * 2 ^ 24 + pos))
