-- ===== src/RawCache/Bytes.antt =====
-- The bytes that a CRawCache (cache.cpp) holds, wherever in its block they lie, and what its copies do
-- to them.
use spp_server_frame_work.Base.{
  ℕ, ◌+◌, ◌^◌, ◌≤◌, ◌<◌, ◌≡◌, ◌≢◌, ◌⊎◌, inl, inr, refl, sym, ap, ◌∙◌, List, [], ◌∷◌, ◌++◌, none,
  some, length, get_or, arith, Memory, copy_in, copy_out, get_or-copy_out, copy_in-hit,
  copy_in-append, ==-refl,
}
use mathlib.Core.Option.{none-ne-some}
use spp_server_frame_work.RawCache.{World, RawCache, write, joined}

abbrev pub block_of : RawCache → ℕ
block_of c = elim c.mem [ none ↦ 0 | some m ↦ m ]

-- The cache holds these bytes.
pub record Holds (w : World) (c : RawCache) (l : List ℕ) : Type 0 where
  pub len_is : c.data_len ≡ length l
  pub room : c.data_head + c.data_len ≤ c.block_size
  pub small : c.block_size ≤ 2 ^ 31
  pub unused : (c.mem ≢ none) ⊎ (c.block_size ≡ 0)
  pub at : (k : ℕ) → k < length l → get_or l k 0 ≡ w.bytes (block_of c) (c.data_head + k)

-- The bytes of a block after the two copies.
pub joined-at :
    (to from : Memory) (head : ℕ) (l piece : List ℕ)
    → ((k : ℕ) → k < length l → get_or l k 0 ≡ from (head + k))
    → (k : ℕ) → k < length (l ++ piece)
    → get_or (l ++ piece) k 0 ≡ joined to from head (length l) piece k
unfolding joined
joined-at to from head l piece at k h =
    copy_in-append (copy_in to 0 (copy_out from head (length l)) 0 (length l)) 0 (length l) l piece
      (omega arith)
      (λ j lt.
        at j lt
        ∙ sym (get_or-copy_out from head (length l) j lt)
        ∙ sym (copy_in-hit to 0 (copy_out from head (length l)) (length l) j lt))
      k k (omega arith) h

pub write-same : (a : ℕ) (f : Memory) (w : World) → (write a f w).bytes a ≡ f
unfolding write
write-same a f w = rw (==-refl a) refl

pub at_block :
    (w : World) (c : RawCache) (l : List ℕ) (m : ℕ)
    → c.mem ≡ some m
    → Holds w c l
    → (k : ℕ) → k < length l
    → get_or l k 0 ≡ w.bytes m (c.data_head + k)
at_block w c l m e v k h =
    v.at k h ∙ ap (λ o. w.bytes (elim o [ none ↦ 0 | some m' ↦ m' ]) (c.data_head + k)) e

pub held :
    (w : World) (c : RawCache) (l : List ℕ) (m : ℕ)
    → c.mem ≡ some m
    → c.data_len ≡ length l
    → c.data_head + c.data_len ≤ c.block_size
    → c.block_size ≤ 2 ^ 31
    → ((k : ℕ) → k < length l → get_or l k 0 ≡ w.bytes m (c.data_head + k))
    → Holds w c l
held w c l m e len fits bound at = record {
  len_is = len;
  room = fits;
  small = bound;
  unused = inl (λ e'. none-ne-some m (sym e' ∙ e));
  at = λ k h.
      at k h ∙ sym (ap (λ o. w.bytes (elim o [ none ↦ 0 | some m' ↦ m' ]) (c.data_head + k)) e);
}

-- The bytes of a block that the two copies have filled.
pub joined_block :
    (w : World) (to from : Memory) (head len : ℕ) (l piece : List ℕ) (a : ℕ)
    → len ≡ length l
    → ((k : ℕ) → k < length l → get_or l k 0 ≡ from (head + k))
    → (k : ℕ) → k < length (l ++ piece)
    → get_or (l ++ piece) k 0 ≡ (write a (joined to from head len piece) w).bytes a (0 + k)
joined_block w to from head len l piece a e at k lt =
    let start : 0 + k ≡ k = omega arith in
    rw (write-same a (joined to from head len piece) w, start, e)
      (joined-at to from head l piece at k lt)

-- Nothing is held without a block.
pub Holds-none : (w : World) (c : RawCache) (l : List ℕ) → c.mem ≡ none → Holds w c l → length l ≡ 0
Holds-none w c l e v = elim v.unused [
  | inl some_block ↦ absurd (some_block e)
  | inr zero_size ↦ omega (arith, v.room, v.len_is)
]

pub nothing : {l : List ℕ} → length l ≡ 0 → l ≡ []
nothing {l = []} e = refl
nothing {l = x ∷ l} e = absurd (omega arith)
