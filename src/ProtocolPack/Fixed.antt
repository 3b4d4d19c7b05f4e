-- ===== src/ProtocolPack/Fixed.antt =====
-- FixedPacker against Packer (protocol_pack.cpp): while the buffer has room the two hold the same body
-- and give the same pack, and a call without room leaves an error that no later call removes.
use spp_server_frame_work.Base.{
  copy_out-put_next, ℕ, suc, ◌+◌, ◌-◌, ◌^◌, ◌<◌, ◌≤◌, ◌≡◌, inl, inr, refl, sym, subst, Bool, true,
  false, List, [], ◌∷◌, ◌++◌, length, arith, le_bytes, copy_out, append_assoc, append-nil,
  length-append, dec_le, ltb, lt→ltb, le→not_ltb, if◌then◌else◌, Bool-cases,
}
use Prim.{Unit}
use spp_server_frame_work.ProtocolPack.{htons, htonl, myhtonll, err_protocol}
use spp_server_frame_work.ProtocolPack.FixedPacker.{
  FixedPacker, left_space, lacks, failed, write_tail, pack_byte, pack_word, pack_dword, pack_qword,
  pack_binary, pack_string,
}
use spp_server_frame_work.ProtocolPack.Fields.{le_bytes-htons, le_bytes-htonl, le_bytes-myhtonll}
use spp_server_frame_work.ProtocolPack.Sequence.{
  Field, byte, word, dword, qword, binary, text, FieldFits, AllFit, field_bytes, fields_bytes,
}

-- The calls of FixedPacker.
unfoldable pub fixed_field : FixedPacker → Field → FixedPacker
fixed_field f (byte v) = pack_byte f v
fixed_field f (word v) = pack_word f v
fixed_field f (dword v) = pack_dword f v
fixed_field f (qword v) = pack_qword f v
fixed_field f (binary l) = pack_binary f l
fixed_field f (text l) = pack_string f l

abbrev pub fixed_fields : FixedPacker → List Field → FixedPacker
fixed_fields f [] = f
fixed_fields f (x ∷ xs) = fixed_fields (fixed_field f x) xs

-- The buffer has these bytes as its body.
pub record Body (f : FixedPacker) (n : ℕ) (l : List ℕ) : Type 0 where
  pub tail_is : f.tail ≡ 29 + length l
  pub bytes_are : copy_out f.buf 29 (length l) ≡ l
  pub len_is : f.buf_len ≡ n
  pub in_buffer : f.tail ≤ f.buf_len
  pub small : f.buf_len < 2 ^ 31
  pub no_error : f.err ≡ 0

pub write_tail-Body :
    (f : FixedPacker) (n : ℕ) (l more : List ℕ)
    → f.tail + length more ≤ f.buf_len
    → Body f n l
    → Body (write_tail f more) n (l ++ more)
unfolding write_tail
write_tail-Body f n l more room b = record {
  tail_is = omega (arith, b.tail_is, length-append l more);
  bytes_are =
      copy_out-put_next f.buf 29 l more f.tail (length (l ++ more)) b.tail_is (length-append l more)
        b.bytes_are;
  len_is = b.len_is;
  in_buffer = room;
  small = b.small;
  no_error = b.no_error;
}

written_room :
    (f : FixedPacker) (v : List ℕ)
    → f.tail + (length v + 1) ≤ f.buf_len
    → (write_tail f v).tail + 1 ≤ (write_tail f v).buf_len
unfolding write_tail
written_room f v room = omega arith

lacks-room :
    (f : FixedPacker) (n : ℕ) → f.tail + n ≤ f.buf_len → f.buf_len < 2 ^ 31 → lacks f n ≡ false
unfolding lacks left_space
lacks-room f n room small =
    rw (lt→ltb n (2 ^ 31) (omega arith), le→not_ltb (f.buf_len - f.tail) n (omega arith)) refl

lacks-full :
    (f : FixedPacker) (n : ℕ)
    → f.buf_len < f.tail + n
    → f.tail ≤ f.buf_len
    → n < 2 ^ 31
    → lacks f n ≡ true
unfolding lacks left_space
lacks-full f n full in_buffer small =
    rw (lt→ltb n (2 ^ 31) small, lt→ltb (f.buf_len - f.tail) n (omega arith)) refl

-- A field whose bytes fit a buffer.
abbrev pub Short : Field → Type 0
Short x = length (field_bytes x) < 2 ^ 31

-- A call with room for the field.
pub fixed_field-room :
    (f : FixedPacker) (n : ℕ) (l : List ℕ) (x : Field)
    → FieldFits x
    → f.tail + length (field_bytes x) ≤ f.buf_len
    → Body f n l
    → Body (fixed_field f x) n (l ++ field_bytes x)
unfolding fixed_field pack_byte pack_word pack_dword pack_qword pack_binary pack_string left_space
fixed_field-room f n l (byte v) h room b =
    rw (le→not_ltb (f.buf_len - f.tail) 1 (omega arith)) (write_tail-Body f n l (v ∷ []) room b)
fixed_field-room f n l (word v) h room b =
    rw (le→not_ltb (f.buf_len - f.tail) 2 (omega arith), le_bytes-htons v)
      (write_tail-Body f n l (field_bytes (word v)) room b)
fixed_field-room f n l (dword v) h room b =
    rw (le→not_ltb (f.buf_len - f.tail) 4 (omega arith), le_bytes-htonl v)
      (write_tail-Body f n l (field_bytes (dword v)) room b)
fixed_field-room f n l (qword v) h room b =
    rw (le→not_ltb (f.buf_len - f.tail) 8 (omega arith), le_bytes-myhtonll v h)
      (write_tail-Body f n l (field_bytes (qword v)) room b)
fixed_field-room f n l (binary []) h room b =
    rw (lacks-room f 0 room b.small) (subst (Body f n) (sym (append-nil l)) b)
fixed_field-room f n l (binary (v ∷ vs)) h room b =
    rw (lacks-room f (suc (length vs)) room b.small, le→not_ltb (suc (length vs)) 1 (omega arith))
      (write_tail-Body f n l (v ∷ vs) room b)
fixed_field-room f n l (text v) h room b =
    let size : length (v ++ 0 ∷ []) ≡ length v + 1 = length-append v (0 ∷ []) in
    let room' : f.tail + (length v + 1) ≤ f.buf_len = omega arith in
    let chars = write_tail-Body f n l v (omega arith) b in
    rw (lacks-room f (length v + 1) room' b.small) (
      subst (Body (write_tail (write_tail f v) (0 ∷ [])) n) (append_assoc l v (0 ∷ []))
        (write_tail-Body (write_tail f v) n (l ++ v) (0 ∷ []) (written_room f v room') chars))

-- A call without room for the field.
pub fixed_field-full :
    (f : FixedPacker) (x : Field)
    → Short x
    → f.buf_len < f.tail + length (field_bytes x)
    → f.tail ≤ f.buf_len
    → fixed_field f x ≡ failed f
unfolding fixed_field pack_byte pack_word pack_dword pack_qword pack_binary pack_string left_space
fixed_field-full f (byte v) short full in_b = rw (lt→ltb (f.buf_len - f.tail) 1 (omega arith)) refl
fixed_field-full f (word v) short full in_b = rw (lt→ltb (f.buf_len - f.tail) 2 (omega arith)) refl
fixed_field-full f (dword v) short full in_b = rw (lt→ltb (f.buf_len - f.tail) 4 (omega arith)) refl
fixed_field-full f (qword v) short full in_b = rw (lt→ltb (f.buf_len - f.tail) 8 (omega arith)) refl
fixed_field-full f (binary l) short full in_b = rw (lacks-full f (length l) full in_b short) refl
fixed_field-full f (text v) short full in_b =
    let size : length (v ++ 0 ∷ []) ≡ length v + 1 = length-append v (0 ∷ []) in
    rw (lacks-full f (length v + 1) (omega arith) in_b (omega arith)) refl

-- An error stays, and the tail stays in the buffer.
pub record Failed (f : FixedPacker) : Type 0 where
  pub error : f.err ≡ err_protocol

abbrev KeepsError : FixedPacker → FixedPacker → Type 0
KeepsError f g = Failed f → Failed g

guarded_keeps :
    (f : FixedPacker) (b : Bool) (g : FixedPacker)
    → KeepsError f g
    → KeepsError f (if b then failed f else g)
guarded_keeps f true g k e = record { error = refl }
guarded_keeps f false g k e = k e

write_tail_keeps : (f : FixedPacker) (l : List ℕ) → KeepsError f (write_tail f l)
unfolding write_tail
write_tail_keeps f l e = record { error = e.error }

pub fixed_field-Failed : (f : FixedPacker) (x : Field) → Failed f → Failed (fixed_field f x)
unfolding fixed_field pack_byte pack_word pack_dword pack_qword pack_binary pack_string
fixed_field-Failed f (byte v) =
    guarded_keeps f (ltb (left_space f) 1) (write_tail f (v ∷ [])) (write_tail_keeps f (v ∷ []))
fixed_field-Failed f (word v) =
    let l = le_bytes 2 (htons v) in
    guarded_keeps f (ltb (left_space f) 2) (write_tail f l) (write_tail_keeps f l)
fixed_field-Failed f (dword v) =
    let l = le_bytes 4 (htonl v) in
    guarded_keeps f (ltb (left_space f) 4) (write_tail f l) (write_tail_keeps f l)
fixed_field-Failed f (qword v) =
    let l = le_bytes 8 (myhtonll v) in
    guarded_keeps f (ltb (left_space f) 8) (write_tail f l) (write_tail_keeps f l)
fixed_field-Failed f (binary l) =
    guarded_keeps f (lacks f (length l)) (if ltb (length l) 1 then f else write_tail f l)
      (elim (Bool-cases (ltb (length l) 1)) [
        | inl e ↦ rw e (λ k. k)
        | inr e ↦ rw e (write_tail_keeps f l)
      ])
fixed_field-Failed f (text v) =
    let chars = write_tail f v in
    guarded_keeps f (lacks f (length v + 1)) (write_tail chars (0 ∷ []))
      (λ e. write_tail_keeps chars (0 ∷ []) (write_tail_keeps f v e))

abbrev pub AllShort : List Field → Type 0
AllShort [] = Unit
AllShort (x ∷ xs) = Short x × AllShort xs

pub fixed_fields-room :
    (xs : List Field) (f : FixedPacker) (n : ℕ) (l : List ℕ)
    → AllFit xs
    → 29 + length l + length (fields_bytes xs) ≤ n
    → Body f n l
    → Body (fixed_fields f xs) n (l ++ fields_bytes xs)
fixed_fields-room [] f n l h room b = subst (Body f n) (sym (append-nil l)) b
fixed_fields-room (x ∷ xs) f n l (h, hs) room b =
    let first = field_bytes x in
    let rest = fields_bytes xs in
    let sizes = length-append first rest in
    let done = fixed_field-room f n l x h (omega (arith, b.tail_is, b.len_is, sizes)) b in
    subst (Body (fixed_fields f (x ∷ xs)) n) (append_assoc l first rest) (
      fixed_fields-room xs (fixed_field f x) n (l ++ first) hs
        (omega (arith, sizes, length-append l first)) done)

fixed_fields-Failed : (xs : List Field) (f : FixedPacker) → Failed f → Failed (fixed_fields f xs)
fixed_fields-Failed [] f e = e
fixed_fields-Failed (x ∷ xs) f e =
    fixed_fields-Failed xs (fixed_field f x) (fixed_field-Failed f x e)

pub fixed_fields-full :
    (xs : List Field) (f : FixedPacker) (n : ℕ) (l : List ℕ)
    → AllFit xs
    → AllShort xs
    → n < 29 + length l + length (fields_bytes xs)
    → Body f n l
    → Failed (fixed_fields f xs)
fixed_fields-full [] f n l h s full b = absurd (omega (arith, b.tail_is, b.len_is, b.in_buffer))
fixed_fields-full (x ∷ xs) f n l (h, hs) (s, ss) full b =
    let first = field_bytes x in
    let rest = fields_bytes xs in
    let sizes = length-append first rest in
    elim (dec_le (f.tail + length first) f.buf_len) [
      | yes room ↦
          fixed_fields-full xs (fixed_field f x) n (l ++ first) hs ss
            (omega (arith, sizes, length-append l first)) (fixed_field-room f n l x h room b)
      | no more ↦ fixed_fields-Failed xs (fixed_field f x) (
          subst Failed (sym (fixed_field-full f x s (omega arith) b.in_buffer))
            (record { error = refl }))
    ]
