-- ===== src/ProtocolPack/Sequence.antt =====
-- Sequences of fields through Packer and UnPacker (protocol_pack.cpp): what a client packs call after
-- call, the calls that read it, and the bytes in between.
use spp_server_frame_work.Base.{
  NoNul, ℕ, suc, ◌^◌, ◌<◌, ◌≡◌, refl, sym, ap, ◌∙◌, Option, some, none, List, [], ◌∷◌, ◌++◌, length,
  arith, append_assoc, le→not_ltb, append-nil,
}
use Prim.{Unit}
use spp_server_frame_work.ProtocolPack.Packer.{
  pack_byte, pack_word, pack_dword, pack_qword, pack_binary, pack_string,
}
use spp_server_frame_work.ProtocolPack.UnPacker.{
  UnPacker, un_pack_byte, un_pack_word, un_pack_dword, un_pack_qword, un_pack_binary,
  un_pack_string,
}
use spp_server_frame_work.ProtocolPack.Fields.{
  be_bytes2, be_bytes4, be_bytes8, le_bytes-htons, le_bytes-htonl, le_bytes-myhtonll,
}

pub data Field : Type 0 where
  byte : ℕ → Field
  word : ℕ → Field
  dword : ℕ → Field
  qword : ℕ → Field
  binary : List ℕ → Field
  text : List ℕ → Field

pub data Kind : Type 0 where
  a_byte : Kind
  a_word : Kind
  a_dword : Kind
  a_qword : Kind
  a_binary : ℕ → Kind
  a_text : Kind

abbrev pub kind_of : Field → Kind
kind_of (byte v) = a_byte
kind_of (word v) = a_word
kind_of (dword v) = a_dword
kind_of (qword v) = a_qword
kind_of (binary l) = a_binary (length l)
kind_of (text l) = a_text

abbrev pub FieldFits : Field → Type 0
FieldFits (byte v) = v < 2 ^ 8
FieldFits (word v) = v < 2 ^ 16
FieldFits (dword v) = v < 2 ^ 32
FieldFits (qword v) = v < 2 ^ 64
FieldFits (binary l) = length l < 2 ^ 32
FieldFits (text l) = NoNul l

abbrev pub AllFit : List Field → Type 0
AllFit [] = Unit
AllFit (f ∷ fs) = FieldFits f × AllFit fs

-- The bytes of a field in a body.
abbrev pub field_bytes : Field → List ℕ
field_bytes (byte v) = v ∷ []
field_bytes (word v) = be_bytes2 v
field_bytes (dword v) = be_bytes4 v
field_bytes (qword v) = be_bytes8 v
field_bytes (binary l) = l
field_bytes (text l) = l ++ 0 ∷ []

abbrev pub fields_bytes : List Field → List ℕ
fields_bytes [] = []
fields_bytes (f ∷ fs) = field_bytes f ++ fields_bytes fs

-- The calls of Packer.
unfoldable pub pack_field : List ℕ → Field → List ℕ
pack_field m_oss (byte v) = pack_byte m_oss v
pack_field m_oss (word v) = pack_word m_oss v
pack_field m_oss (dword v) = pack_dword m_oss v
pack_field m_oss (qword v) = pack_qword m_oss v
pack_field m_oss (binary l) = pack_binary m_oss l
pack_field m_oss (text l) = pack_string m_oss l

abbrev pub pack_fields : List ℕ → List Field → List ℕ
pack_fields m_oss [] = m_oss
pack_fields m_oss (f ∷ fs) = pack_fields (pack_field m_oss f) fs

abbrev pub got_bytes : (List ℕ → Field) → Option (List ℕ) → Option Field
got_bytes made none = none
got_bytes made (some l) = some (made l)

-- The calls of UnPacker; `none` is a NULL.
unfoldable pub un_pack_field : UnPacker → Kind → UnPacker × Option Field
un_pack_field u a_byte = let (u', v) = un_pack_byte u in (u', some (byte v))
un_pack_field u a_word = let (u', v) = un_pack_word u in (u', some (word v))
un_pack_field u a_dword = let (u', v) = un_pack_dword u in (u', some (dword v))
un_pack_field u a_qword = let (u', v) = un_pack_qword u in (u', some (qword v))
un_pack_field u (a_binary n) = let (u', l) = un_pack_binary u n in (u', got_bytes binary l)
un_pack_field u a_text = let (u', l) = un_pack_string u in (u', got_bytes text l)

abbrev pub then_field : Option Field → Option (List Field) → Option (List Field)
then_field (some f) (some fs) = some (f ∷ fs)
then_field (some f) none = none
then_field none rest = none

abbrev pub un_pack_fields : UnPacker → List Kind → UnPacker × Option (List Field)
un_pack_fields u [] = (u, some [])
un_pack_fields u (k ∷ ks) =
    let (u', f) = un_pack_field u k in
    let (u'', fs) = un_pack_fields u' ks in (u'', then_field f fs)

-- Each call appends the bytes of its field.
pub pack_field-bytes :
    (m_oss : List ℕ) (f : Field) → FieldFits f → pack_field m_oss f ≡ m_oss ++ field_bytes f
unfolding pack_field pack_byte pack_word pack_dword pack_qword pack_binary pack_string
pack_field-bytes m_oss (byte v) h = refl
pack_field-bytes m_oss (word v) h = ap (λ t. m_oss ++ t) (le_bytes-htons v)
pack_field-bytes m_oss (dword v) h = ap (λ t. m_oss ++ t) (le_bytes-htonl v)
pack_field-bytes m_oss (qword v) h = ap (λ t. m_oss ++ t) (le_bytes-myhtonll v h)
pack_field-bytes m_oss (binary []) h = sym (append-nil m_oss)
pack_field-bytes m_oss (binary (x ∷ l)) h = rw (le→not_ltb (suc (length l)) 1 (omega arith)) refl
pack_field-bytes m_oss (text l) h = append_assoc m_oss l (0 ∷ [])

pub pack_fields-bytes :
    (fs : List Field) (m_oss : List ℕ) → AllFit fs → pack_fields m_oss fs ≡ m_oss ++ fields_bytes fs
pack_fields-bytes [] m_oss h = sym (append-nil m_oss)
pack_fields-bytes (f ∷ fs) m_oss (h, hs) =
    pack_fields-bytes fs (pack_field m_oss f) hs
    ∙ ap (λ t. t ++ fields_bytes fs) (pack_field-bytes m_oss f h)
    ∙ append_assoc m_oss (field_bytes f) (fields_bytes fs)
