-- ===== src/RawCache/Skip.antt =====
-- `skip` and `data` of CRawCache (cache.cpp) as the front of a queue of bytes.
use spp_server_frame_work.Base.{
  ℕ, ◌+◌, ◌≤◌, ◌<◌, ◌≡◌, inl, inr, refl, sym, ap, ◌∙◌, subst, List, [], none, some, leb, ◌==◌,
  if◌then◌else◌, length, drop, add32, sub32, arith, copy_out, length-copy_out, get_or-copy_out,
  Bool-cases, Option-cases, length-drop, get_or-drop, leb→le, not_leb→lt, list_ext, ==-eq_false,
  ℕ_discrete,
}
use spp_server_frame_work.MemPool.{recycle}
use spp_server_frame_work.RawCache.{World, RawCache, no_cache, skip_at, skip, cached_data}
use spp_server_frame_work.RawCache.Bytes.{Holds, at_block, held, Holds-none, nothing}

no_cache-Holds : (w : World) → Holds w no_cache []
no_cache-Holds w = record {
  len_is = refl;
  room = omega arith;
  small = omega arith;
  unused = inr refl;
  at = λ k h. absurd (omega arith);
}

all_dropped : (n : ℕ) (l : List ℕ) → length l ≤ n → drop n l ≡ []
all_dropped n l h = nothing (omega (arith, length-drop n l))

skip_at-Holds :
    (w : World) (c : RawCache) (l : List ℕ) (n m : ℕ)
    → Holds w c l
    → c.mem ≡ some m
    → (let (w', c') = skip_at n w c m in Holds w' c' (drop n l))
unfolding skip_at
skip_at-Holds w c l n m v e = elim (Bool-cases (leb c.data_len n)) [
  | inl all ↦
      (let none_left = all_dropped n l (omega (arith, leb→le c.data_len n all, v.len_is)) in
        rw (skip_at, all, none_left)
          (no_cache-Holds (record w { pool = (recycle m c.block_size w.pool).0 })))
  | inr some_left ↦
      (let lt = not_leb→lt c.data_len n some_left in
        let here : add32 c.data_head n ≡ c.data_head + n = omega (arith, lt, v.room, v.small) in
        rw (skip_at, some_left)
          (held w (record c { data_head = add32 c.data_head n; data_len = sub32 c.data_len n })
            (drop n l) m e (omega (arith, length-drop n l, v.len_is, lt, v.room, v.small))
            (omega (arith, v.room, v.small, lt)) v.small
            (λ k h.
              let there : add32 c.data_head n + k ≡ c.data_head + (n + k) = omega (arith, here) in
              get_or-drop n l k 0
              ∙ rw there (at_block w c l m e v (n + k) (omega (arith, length-drop n l))))))
]

-- The bytes copied out of the block.
copied_out :
    (w : World) (c : RawCache) (l : List ℕ) (m : ℕ)
    → c.mem ≡ some m
    → Holds w c l
    → copy_out (w.bytes m) c.data_head c.data_len ≡ l
copied_out w c l m e v =
    list_ext 0 (copy_out (w.bytes m) c.data_head c.data_len) l
      (length-copy_out (w.bytes m) c.data_head c.data_len ∙ v.len_is)
      (λ k h.
        let lt : k < c.data_len =
          omega (arith, length-copy_out (w.bytes m) c.data_head c.data_len) in
        get_or-copy_out (w.bytes m) c.data_head c.data_len k lt
        ∙ sym (at_block w c l m e v k (omega (arith, v.len_is))))

cached_data-Holds :
    (w : World) (c : RawCache) (l : List ℕ)
    → Holds w c l
    → cached_data w c ≡ (if length l == 0 then none else some l)
unfolding cached_data
cached_data-Holds w c l v = elim (ℕ_discrete (length l) 0) [
  | yes none_left ↦ rw (cached_data, v.len_is, none_left) refl
  | no some_left ↦ elim (Option-cases c.mem) [
    | inl e ↦ absurd (some_left (Holds-none w c l e v))
    | inr (m, e) ↦
        ap
          (λ n. if n == 0 then none else elim c.mem [
            | none ↦ none
            | some m' ↦ some (copy_out (w.bytes m') c.data_head c.data_len)
          ])
          v.len_is
        ∙ rw (==-eq_false (length l) 0 some_left) (
            ap
              (λ o. elim o [
                | none ↦ none
                | some m' ↦ some (copy_out (w.bytes m') c.data_head c.data_len)
              ])
              e
            ∙ ap some (copied_out w c l m e v))
  ]
]

-- For a cache that holds bytes of the given list: `skip` leaves it holding the list without its first
-- bytes, all of them where that many are not there, and `data` gives the list, or NULL where it is
-- empty.
pub skip-Holds :
    (w : World) (c : RawCache) (l : List ℕ) (n : ℕ)
    → Holds w c l
    → (let (w', c') = skip n w c in Holds w' c' (drop n l))
      × (cached_data w c ≡ (if length l == 0 then none else some l))
unfolding skip
skip-Holds w c l n v = (
  elim (Option-cases c.mem) [
    | inl e ↦
        subst (λ (r : World × RawCache). Holds r.0 r.1 (drop n l))
          (sym (ap (λ o. elim o [ none ↦ (w, c) | some m ↦ skip_at n w c m ]) e))
          (let gone = Holds-none w c l e v in
            let same : drop n l ≡ l = all_dropped n l (omega arith) ∙ sym (nothing gone) in
            subst (Holds w c) (sym same) v)
    | inr (m, e) ↦
        subst (λ (r : World × RawCache). Holds r.0 r.1 (drop n l))
          (sym (ap (λ o. elim o [ none ↦ (w, c) | some m' ↦ skip_at n w c m' ]) e))
          (skip_at-Holds w c l n m v e)
  ],
  cached_data-Holds w c l v,
)
