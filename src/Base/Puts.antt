-- ===== src/Base/Puts.antt =====
-- Writes into a block and what is read from it afterwards.
use Prim.Native.Nat.{ℕ, zero, suc, ◌+◌, ◌-◌, ◌≤◌, ◌<◌}
use mathlib.Core.Path.{◌≡◌, refl, sym, ap, ap₂, ◌∙◌}
use mathlib.Core.Logic.{◌⊎◌, inl, inr}
use mathlib.Core.List.{List, [], ◌∷◌, ◌++◌}
use native.Mathlib.Omega.{arith}
use native.Mathlib.Decide.{dec_lt}
use spp_server_frame_work.Base.Tests.{le→leb, lt→ltb, lt→not_leb, le→not_ltb}
use spp_server_frame_work.Base.Lists.{
  length, get_or, take, drop, length-append, get_or-append, list_ext, length-take, length-drop,
  get_or-take, get_or-drop,
}
use spp_server_frame_work.Base.Copies.{Memory, copy_in, copy_out, length-copy_out, get_or-copy_out}

abbrev pub put : Memory → ℕ → List ℕ → Memory
put m dst l = copy_in m dst l 0 (length l)

pub copy_in-hit :
    (m : Memory) (dst : ℕ) (src : List ℕ) (n k : ℕ)
    → k < n
    → copy_in m dst src 0 n (dst + k) ≡ get_or src k 0
copy_in-hit m dst src n k h =
    let e : 0 + (dst + k - dst) ≡ k = omega arith in
    rw (le→leb dst (dst + k) (omega arith), lt→ltb (dst + k) (dst + n) (omega arith), e) refl

pub copy_in-miss :
    (m : Memory) (dst : ℕ) (src : List ℕ) (n i : ℕ) → i < dst → copy_in m dst src 0 n i ≡ m i
copy_in-miss m dst src n i h = rw (lt→not_leb dst i h) refl

-- Bytes behind those already there.
pub copy_in-append :
    (m : Memory) (head dst : ℕ) (l piece : List ℕ)
    → dst ≡ head + length l
    → ((k : ℕ) → k < length l → get_or l k 0 ≡ m (head + k))
    → (k i : ℕ) → i ≡ head + k
    → k < length (l ++ piece)
    → get_or (l ++ piece) k 0 ≡ copy_in m dst piece 0 (length piece) i
copy_in-append m head dst l piece d at k i e h = elim (dec_lt k (length l)) [
  | yes lt ↦
      get_or-append l piece k 0
      ∙ rw (lt→ltb k (length l) lt)
          (at k lt ∙ ap m (sym e) ∙ sym (copy_in-miss m dst piece (length piece) i (omega arith)))
  | no ge ↦
      (let j = k - length l in
        let at_j : i ≡ dst + j = omega arith in
        get_or-append l piece k 0
        ∙ rw (le→not_ltb k (length l) (omega arith), at_j)
            (sym (copy_in-hit m dst piece (length piece) j (omega (arith, length-append l piece)))))
]

copy_in-past :
    (m : Memory) (dst : ℕ) (src : List ℕ) (n i : ℕ) → dst + n ≤ i → copy_in m dst src 0 n i ≡ m i
copy_in-past m dst src n i h = rw (le→not_ltb i (dst + n) h, le→leb dst i (omega arith)) refl

-- A write behind what is known of a memory from `pos` on.
pub copy_out-put_next :
    (m : Memory) (pos : ℕ) (pre l : List ℕ) (dst n : ℕ)
    → dst ≡ pos + length pre
    → n ≡ length pre + length l
    → copy_out m pos (length pre) ≡ pre
    → copy_out (put m dst l) pos n ≡ pre ++ l
copy_out-put_next m pos pre l dst n d e h =
    let r = put m dst l in
    let sizes : length (copy_out r pos n) ≡ length (pre ++ l) =
      length-copy_out r pos n ∙ e ∙ sym (length-append pre l) in
    list_ext 0 (copy_out r pos n) (pre ++ l) sizes (λ k lt.
      get_or-copy_out r pos n k (omega (arith, length-copy_out r pos n))
      ∙ sym (
          copy_in-append m pos dst pre l d
            (λ j in_pre.
              ap (λ t. get_or t j 0) (sym h) ∙ get_or-copy_out m pos (length pre) j in_pre)
            k (pos + k) refl (omega (arith, sizes))))

-- A write to another place.
pub copy_out-put_other :
    (m : Memory) (dst : ℕ) (l : List ℕ) (pos n : ℕ)
    → (pos + n ≤ dst) ⊎ (dst + length l ≤ pos)
    → copy_out (put m dst l) pos n ≡ copy_out m pos n
copy_out-put_other m dst l pos n h =
    let r = put m dst l in
    let sizes = length-copy_out r pos n ∙ sym (length-copy_out m pos n) in
    list_ext 0 (copy_out r pos n) (copy_out m pos n) sizes (λ k lt.
      let k_in : k < n = omega (arith, length-copy_out r pos n) in
      get_or-copy_out r pos n k k_in
      ∙ (elim h [
        | inl before ↦ copy_in-miss m dst l (length l) (pos + k) (omega arith)
        | inr after ↦ copy_in-past m dst l (length l) (pos + k) (omega arith)
      ])
      ∙ sym (get_or-copy_out m pos n k k_in))

pub copy_out-put_self :
    (m : Memory) (dst : ℕ) (l : List ℕ) (n : ℕ) → n ≡ length l → copy_out (put m dst l) dst n ≡ l
unfolding copy_out
copy_out-put_self m dst l n e = copy_out-put_next m dst [] l dst n (omega arith) (omega arith) refl

-- A part of what is known of a memory.
pub copy_out-part :
    (m : Memory) (l : List ℕ) (pos n : ℕ)
    → copy_out m 0 (length l) ≡ l
    → pos + n ≤ length l
    → copy_out m pos n ≡ take n (drop pos l)
copy_out-part m l pos n h le =
    let sizes : length (copy_out m pos n) ≡ length (take n (drop pos l)) =
      omega (arith, length-copy_out m pos n, length-take n (drop pos l), length-drop pos l) in
    list_ext 0 (copy_out m pos n) (take n (drop pos l)) sizes (λ k lt.
      let k_in : k < n = omega (arith, length-copy_out m pos n) in
      get_or-copy_out m pos n k k_in
      ∙ ap m (omega arith)
      ∙ sym (get_or-copy_out m 0 (length l) (pos + k) (omega arith))
      ∙ ap (λ t. get_or t (pos + k) 0) h
      ∙ sym (get_or-drop pos l k 0)
      ∙ sym (get_or-take n (drop pos l) k 0 k_in))

-- Bytes known together are known apart.
pub copy_out-parts :
    (m : Memory) (l r : List ℕ) (pos : ℕ)
    → copy_out m pos (length (l ++ r)) ≡ l ++ r
    → (copy_out m pos (length l) ≡ l) × (copy_out m (pos + length l) (length r) ≡ r)
unfolding copy_out
copy_out-parts m [] r pos e = (refl, ap (λ i. copy_out m i (length r)) (omega arith) ∙ e)
copy_out-parts m (x ∷ l) r pos e =
    let rest = copy_out-parts m l r (pos + 1) (ap (drop 1) e) in
    (
      ap₂ ◌∷◌ (ap (λ t. get_or t 0 0) e) rest.0,
      ap (λ i. copy_out m i (length r)) (omega arith) ∙ rest.1,
    )

pub copy_out-join :
    (m : Memory) (pos a b n : ℕ)
    → n ≡ a + b
    → copy_out m pos n ≡ copy_out m pos a ++ copy_out m (pos + a) b
unfolding copy_out
copy_out-join m pos zero b n e = ap₂ (copy_out m) (omega arith) (omega arith)
copy_out-join m pos (suc a) b zero e = absurd (omega arith)
copy_out-join m pos (suc a) b (suc n) e =
    ap (λ t. m pos ∷ t)
      (copy_out-join m (pos + 1) a b n (omega arith)
        ∙ ap (λ i. copy_out m (pos + 1) a ++ copy_out m i b) (omega arith))

-- Bytes replaced by as many others.
pub copy_out-overwrite :
    (m : Memory) (a b b' c : List ℕ) (n : ℕ)
    → length b' ≡ length b
    → n ≡ length (a ++ (b ++ c))
    → copy_out m 0 n ≡ a ++ (b ++ c)
    → copy_out (put m (length a) b') 0 n ≡ a ++ (b' ++ c)
copy_out-overwrite m a b b' c n same size e =
    let m' = put m (length a) b' in
    let whole : copy_out m 0 (length (a ++ (b ++ c))) ≡ a ++ (b ++ c) =
      ap (copy_out m 0) (sym size) ∙ e in
    let (front, back) = copy_out-parts m a (b ++ c) 0 whole in
    let last = (copy_out-parts m b c (0 + length a) back).1 in
    let sizes : n ≡ length a + (length b' + length c) =
      omega (arith, size, same, length-append a (b ++ c), length-append b c) in
    let kept : copy_out m' (0 + length a + length b') (length c) ≡ c =
      copy_out-put_other m (length a) b' (0 + length a + length b') (length c) (inr (omega arith))
      ∙ ap (λ i. copy_out m (0 + length a + i) (length c)) same
      ∙ last in
    copy_out-join m' 0 (length a) (length b' + length c) n sizes
    ∙ ap₂ ◌++◌ (copy_out-put_other m (length a) b' 0 (length a) (inl (omega arith)) ∙ front) (
        copy_out-join m' (0 + length a) (length b') (length c) (length b' + length c) refl
        ∙ ap₂ ◌++◌
            (ap (λ i. copy_out m' i (length b')) (omega arith)
              ∙ copy_out-put_self m (length a) b' (length b') refl)
            kept)
