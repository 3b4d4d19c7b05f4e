-- ===== src/ProtocolPack/Reading.antt =====
-- The calls of UnPacker where the bytes of fields lie in the body (protocol_pack.cpp).
use spp_server_frame_work.Base.{
  NoNul, copy_out-parts, ℕ, zero, suc, ◌+◌, ◌-◌, ◌^◌, ◌<◌, ◌≤◌, ◌≡◌, refl, sym, ap, ◌∙◌, false, leb,
  some, List, [], ◌∷◌, ◌++◌, map, length, get_or, drop, add32, arith, Memory, copy_out,
  length-append, le→not_ltb, lt→not_leb, ==-eq_false,
}
use spp_server_frame_work.ProtocolPack.UnPacker.{
  UnPacker, un_pack_byte, un_pack_word, un_pack_dword, un_pack_qword, un_pack_binary,
  un_pack_string, body_memory, take_bytes, scan,
}
use spp_server_frame_work.ProtocolPack.Fields.{
  be_bytes2, be_bytes4, be_bytes8, htons-of_be, htonl-of_be, myntohll-of_be,
}
use spp_server_frame_work.ProtocolPack.Sequence.{
  Field, byte, word, dword, qword, binary, text, FieldFits, AllFit, field_bytes, fields_bytes,
  kind_of, un_pack_field, un_pack_fields,
}

-- UnPacker with its offset moved on.
abbrev pub moved : UnPacker → ℕ → UnPacker
moved u n = record u { offset = n }

-- The bytes at the offset, which the body has.
pub record At (u : UnPacker) (l : List ℕ) : Type 0 where
  pub bytes_are : copy_out (body_memory u) u.offset (length l) ≡ l
  pub inside : u.offset + length l ≤ u.body_len
  pub small : u.body_len < 2 ^ 32

pub take_bytes-At :
    (u : UnPacker) (l : List ℕ)
    → At u l
    → take_bytes u (length l) ≡ (moved u (u.offset + length l), some l)
unfolding take_bytes
take_bytes-At u l a =
    let n : add32 u.offset (length l) ≡ u.offset + length l = omega (arith, a.inside, a.small) in
    rw (n, le→not_ltb u.body_len (u.offset + length l) a.inside, a.bytes_are) refl

cons_head : {x y : ℕ} {xs ys : List ℕ} → x ∷ xs ≡ y ∷ ys → x ≡ y
cons_head e = ap (λ l. get_or l 0 0) e

cons_tail : {x y : ℕ} {xs ys : List ℕ} → x ∷ xs ≡ y ∷ ys → xs ≡ ys
cons_tail e = ap (drop 1) e

-- The scan stops at the first byte 0.
pub scan-NoNul :
    (m : Memory) (l : List ℕ) (left q : ℕ)
    → NoNul l
    → length l < left
    → copy_out m q (suc (length l)) ≡ l ++ 0 ∷ []
    → scan m left q ≡ q + length l
unfolding scan copy_out
scan-NoNul m l zero q n h e = absurd (omega arith)
scan-NoNul m [] (suc left) q n h e = rw (cons_head e) (omega arith)
scan-NoNul m (x ∷ l) (suc left) q (nz, n) h e =
    rw (cons_head e, ==-eq_false x 0 nz)
      (scan-NoNul m l left (q + 1) n (omega arith) (cons_tail e) ∙ omega arith)

pub un_pack_byte-At :
    (u : UnPacker) (v : ℕ) → At u (v ∷ []) → un_pack_byte u ≡ (moved u (u.offset + 1), v)
unfolding un_pack_byte copy_out
un_pack_byte-At u v a =
    let n : add32 u.offset 1 ≡ u.offset + 1 = omega (arith, a.inside, a.small) in
    rw (n, le→not_ltb u.body_len u.offset (omega (arith, a.inside)), cons_head a.bytes_are) refl

pub un_pack_string-At :
    (u : UnPacker) (l : List ℕ)
    → NoNul l
    → At u (l ++ 0 ∷ [])
    → un_pack_string u ≡ (moved u (u.offset + length (l ++ 0 ∷ [])), some l)
unfolding un_pack_string
un_pack_string-At u l n a =
    let size : length (l ++ 0 ∷ []) ≡ suc (length l) = omega (arith, length-append l (0 ∷ [])) in
    let at : copy_out (body_memory u) u.offset (suc (length l)) ≡ l ++ 0 ∷ [] =
      ap (copy_out (body_memory u) u.offset) (sym size) ∙ a.bytes_are in
    let stop : scan (body_memory u) (u.body_len - u.offset) u.offset ≡ u.offset + length l =
      scan-NoNul (body_memory u) l (u.body_len - u.offset) u.offset n (omega (arith, a.inside))
        at in
    let past : leb u.body_len (u.offset + length l) ≡ false =
      lt→not_leb u.body_len (u.offset + length l) (omega (arith, a.inside)) in
    let width : u.offset + length l - u.offset ≡ length l = omega arith in
    let n' : add32 u.offset (length l + 1) ≡ u.offset + suc (length l) =
      omega (arith, a.inside, a.small) in
    rw (stop, past, width, n', size)
      (ap (λ t. (moved u (u.offset + suc (length l)), some t))
        (copy_out-parts (body_memory u) l (0 ∷ []) u.offset a.bytes_are).0)

-- A call reads back the field whose bytes are at the offset.
pub un_pack_field-At :
    (u : UnPacker) (f : Field)
    → FieldFits f
    → At u (field_bytes f)
    → un_pack_field u (kind_of f) ≡ (moved u (u.offset + length (field_bytes f)), some f)
unfolding un_pack_field un_pack_byte un_pack_word un_pack_dword un_pack_qword un_pack_binary
    un_pack_string
un_pack_field-At u (byte v) h a = rw (un_pack_byte-At u v a) refl
un_pack_field-At u (word v) h a = rw (take_bytes-At u (be_bytes2 v) a, htons-of_be v h) refl
un_pack_field-At u (dword v) h a = rw (take_bytes-At u (be_bytes4 v) a, htonl-of_be v h) refl
un_pack_field-At u (qword v) h a = rw (take_bytes-At u (be_bytes8 v) a, myntohll-of_be v h) refl
un_pack_field-At u (binary l) h a = rw (take_bytes-At u l a) refl
un_pack_field-At u (text l) h a = rw (un_pack_string-At u l h a) refl

-- What is left for the next calls.
later :
    (u : UnPacker) (l rest : List ℕ) → At u (l ++ rest) → At (moved u (u.offset + length l)) rest
unfolding body_memory
later u l rest a = record {
  bytes_are = (copy_out-parts (body_memory u) l rest u.offset a.bytes_are).1;
  inside = omega (arith, a.inside, length-append l rest);
  small = a.small;
}

At-front : (u : UnPacker) (l rest : List ℕ) → At u (l ++ rest) → At u l
At-front u l rest a = record {
  bytes_are = (copy_out-parts (body_memory u) l rest u.offset a.bytes_are).0;
  inside = omega (arith, a.inside, length-append l rest);
  small = a.small;
}

-- For fields that fit, strings without a byte 0: when their bytes are at the offset and the body has
-- them, the calls of UnPacker give the fields back, report no error and leave the offset behind them.
pub un_pack_fields-At :
    (fs : List Field) (u : UnPacker)
    → AllFit fs
    → At u (fields_bytes fs)
    → un_pack_fields u (map kind_of fs) ≡ (moved u (u.offset + length (fields_bytes fs)), some fs)
un_pack_fields-At [] u h a = ap (λ n. (moved u n, some [])) (omega arith)
un_pack_fields-At (f ∷ fs) u (h, hs) a =
    let l = field_bytes f in
    let first = At-front u l (fields_bytes fs) a in
    let rest =
      un_pack_fields-At fs (moved u (u.offset + length l)) hs (later u l (fields_bytes fs) a) in
    let sizes : u.offset + length l + length (fields_bytes fs)
        ≡ u.offset + length (l ++ fields_bytes fs) =
      omega (arith, length-append l (fields_bytes fs)) in
    rw (un_pack_field-At u f h first, rest, sizes) refl
