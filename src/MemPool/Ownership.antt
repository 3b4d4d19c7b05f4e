-- ===== src/MemPool/Ownership.antt =====
-- Who holds which block of CMemPool (mempool.cpp): every live block is either in one of the lists of
-- free blocks or lent out, and never both.
use spp_server_frame_work.Base.{
  ℕ, zero, suc, ◌+◌, ◌-◌, ◌*◌, ◌/◌, ◌^◌, ◌≤◌, ◌≡◌, ◌≢◌, refl, Bool, true, false, List, [], ◌∷◌,
  Option, none, some, leb, ◌==◌, if◌then◌else◌, length, u32, add32, sub32, arith, ℕ_discrete,
  Bool-cases, Option-cases, inl, inr, subst, sym,
}
use spp_server_frame_work.MemPool.{
  MemPool, BlockMap, find, update, delete, delete_front, release, purge, purge_loop, wants_more,
  release_size, insert, new_blocks, add_blocks, extend, extend_new_size, take_block, refill,
  allocate, fit_extend_set, fit_block_size, recycle, contains, release_count, c_alloc_capcity,
  c_max_pool_size,
}

-- How often a block occurs in a list.
unfoldable pub count : ℕ → List ℕ → ℕ
count a [] = 0
count a (b ∷ l) = (if b == a then 1 else 0) + count a l

pub count_cons : (a b : ℕ) (l : List ℕ) → count a (b ∷ l) ≡ (if b == a then 1 else 0) + count a l
unfolding count
count_cons a b l = refl

-- How often a block occurs among all free blocks.
unfoldable pub free_count : ℕ → BlockMap → ℕ
free_count a [] = 0
free_count a ((k, l) ∷ m) = count a l + free_count a m

-- The heap's live blocks are, each once, the free blocks and the blocks lent out.
unfoldable pub Owns : MemPool → List ℕ → Type 0
Owns p lent = (a : ℕ) → (free_count a p.free + count a lent ≡ count a p.heap) × (count a p.heap ≤ 1)

count-delete_self : (a : ℕ) (h : List ℕ) → count a (delete a h) ≡ count a h - 1
unfolding count delete
count-delete_self a [] = refl
count-delete_self a (b ∷ h) = ground (arith, count-delete_self a h)

count-delete_other : (a c : ℕ) (h : List ℕ) → a ≢ c → count a (delete c h) ≡ count a h
unfolding count delete
count-delete_other a c [] ne = refl
count-delete_other a c (b ∷ h) ne = ground (arith, count-delete_other a c h ne)

-- Writing the list of a size changes the free blocks by the difference of the two lists.
free_count-update :
    (a size : ℕ) (l l' : List ℕ) (m : BlockMap)
    → find size m ≡ some l
    → free_count a (update size l' m) + count a l ≡ free_count a m + count a l'
unfolding free_count update find
free_count-update a size l l' [] h = ground arith
free_count-update a size l l' ((k, l0) ∷ m) h = ground (arith, free_count-update a size l l' m)

pub find-update :
    (size : ℕ) (l l' : List ℕ) (m : BlockMap)
    → find size m ≡ some l
    → find size (update size l' m) ≡ some l'
unfolding update find
find-update size l l' [] h = ground arith
find-update size l l' ((k, l0) ∷ m) h = ground (arith, find-update size l l' m)

-- Deleting blocks from the front of a list takes them off the heap, if they are on it.
count-delete_front :
    (n a : ℕ) (l h : List ℕ)
    → count a l ≤ count a h
    → (let (l', h') = delete_front n l h in
        (count a l' + count a h ≡ count a l + count a h') × (count a h' ≤ count a h))
unfolding delete_front
count-delete_front zero a l h le = (refl, omega arith)
count-delete_front (suc n) a [] h le = (refl, omega arith)
count-delete_front (suc n) a (b ∷ l) h le = elim (ℕ_discrete a b) [
  | yes same ↦
      ground (
        arith,
        count-delete_self a h,
        count-delete_front n a l (delete b h),
        same,
        count_cons a b l,
      )
  | no other ↦ ground (
    arith,
    count-delete_other a b h other,
    count-delete_front n a l (delete b h),
    count_cons a b l,
  )
]

count-find :
    (a size : ℕ) (l : List ℕ) (m : BlockMap) → find size m ≡ some l → count a l ≤ free_count a m
unfolding find free_count
count-find a size l [] h = ground arith
count-find a size l ((k, l0) ∷ m) h = ground (arith, count-find a size l m)

-- Giving free blocks back to the heap keeps the accounts.
release-Owns :
    (size : ℕ) (l s lent : List ℕ) (p : MemPool)
    → find size p.free ≡ some l
    → Owns p lent
    → Owns (release size l s p) lent
unfolding release Owns
release-Owns size l s lent p h owns =
    let todo = release_count p.water_mark size (length l) (length s) in
    elim (Bool-cases (todo == 0)) [
      | inl e ↦ rw e owns
      | inr e ↦ rw e (λ a.
          let (here, le) =
            count-delete_front todo a l p.heap
              (omega (arith, count-find a size l p.free h, owns a)) in
          (
            omega (
              arith,
              here,
              free_count-update a size l ((delete_front todo l p.heap).0) p.free h,
              owns a,
            ),
            omega (arith, le, owns a),
          ))
    ]

purge-Owns : (size : ℕ) (lent : List ℕ) (p : MemPool) → Owns p lent → Owns (purge size p) lent
unfolding purge Owns
purge-Owns size lent p owns = elim (Option-cases (find size p.stub)) [
  | inl e ↦ rw (purge, e) owns
  | inr (s, e) ↦ elim (Option-cases (find size p.free)) [
    | inl e' ↦ rw (purge, e, e') owns
    | inr (l, e') ↦ rw (purge, e, e') (release-Owns size l s lent p e' owns)
  ]
]

purge_loop-Owns :
    (rounds mem_size last purge_size : ℕ) (lent : List ℕ) (p : MemPool)
    → Owns p lent
    → Owns ((purge_loop rounds mem_size last purge_size p).1) lent
unfolding purge_loop
purge_loop-Owns zero mem_size last purge_size lent p owns = owns
purge_loop-Owns (suc rounds) mem_size last purge_size lent p owns =
    elim (Bool-cases (wants_more mem_size last purge_size p)) [
      | inl e ↦ rw e (
          purge_loop-Owns rounds mem_size last (purge_size / 2) lent (purge (purge_size / 2) p)
            (purge-Owns (purge_size / 2) lent p owns))
      | inr e ↦ rw e owns
    ]

release_size-Owns :
    (mem_size : ℕ) (lent : List ℕ) (p : MemPool)
    → Owns p lent
    → Owns ((release_size mem_size p).0) lent
unfolding release_size Owns
release_size-Owns mem_size lent p owns =
    purge_loop-Owns 13 mem_size p.allocated_size (2 ^ 31) lent
      (record p { water_mark = c_alloc_capcity }) owns

taken :
    (new_block : List ℕ → ℕ) (size : ℕ) (p : MemPool) {o : Option (List ℕ)}
    → find size p.free ≡ o
    → take_block new_block size p ≡ elim o [
      | none ↦ (p, none)
      | some [] ↦ (p, none)
      | some (a ∷ l) ↦ (record p { free = update size l p.free }, some a)
    ]
unfolding take_block
taken new_block size p e = rw (take_block, e) refl

-- What a call of `allocate` leaves: a block that it hands out was lent to nobody.
pub Lends : List ℕ → MemPool × Option (ℕ × ℕ) → Type 0
Lends lent (p, none) = Owns p lent
Lends lent (p, some (a, size)) = Owns p (a ∷ lent) × (count a lent ≡ 0)

module _ (new_block : List ℕ → ℕ) (fresh : (h : List ℕ) → count (new_block h) h ≡ 0) where
  count-new_blocks :
      (n a : ℕ) (l s h : List ℕ)
      → count a h ≤ 1
      → (let (l', s', h') = new_blocks new_block n l s h in
          (count a l' + count a h ≡ count a l + count a h') × (count a h' ≤ 1))
  unfolding new_blocks
  count-new_blocks zero a l s h once = (refl, once)
  count-new_blocks (suc n) a l s h once =
      let b = new_block h in
      let next : count a (b ∷ h) ≤ 1 = elim (ℕ_discrete b a) [
        | yes e ↦ ground (arith, count_cons a b h, fresh h, e)
        | no ne ↦ ground (arith, count_cons a b h)
      ] in
      let rest = count-new_blocks n a (b ∷ l) (insert b s) (b ∷ h) next in
      (omega (arith, rest.0, count_cons a b l, count_cons a b h), rest.1)

  add_blocks-Owns :
      (size n : ℕ) (lent : List ℕ) (p : MemPool)
      → Owns p lent
      → Owns (add_blocks new_block size n p) lent
  unfolding Owns add_blocks free_count count
  add_blocks-Owns size n lent p owns = elim (Option-cases (find size p.free)) [
    | inl e ↦ rw (add_blocks, e) owns
    | inr (l, e) ↦ elim (Option-cases (find size p.stub)) [
      | inl e' ↦ rw (add_blocks, e, e') owns
      | inr (s, e') ↦
          rw (add_blocks, e, e')
            (λ a.
              let added = count-new_blocks n a l s p.heap ((owns a).1) in
              (
                omega (
                  arith,
                  added.0,
                  owns a,
                  free_count-update a size l ((new_blocks new_block n l s p.heap).0) p.free e,
                ),
                added.1,
              ))
    ]
  ]

  extend-Owns :
      (size : ℕ) (lent : List ℕ) (p : MemPool)
      → Owns p lent
      → Owns ((extend new_block size p).0) lent
  unfolding extend
  extend-Owns size lent p owns =
      let n = fit_extend_set size in
      let wanted = add32 p.allocated_size (u32 (size * n)) in
      let released = release_size-Owns (sub32 wanted c_max_pool_size) lent p owns in
      elim (Bool-cases (leb c_max_pool_size wanted)) [
        | inl e ↦ elim (Bool-cases ((release_size (sub32 wanted c_max_pool_size) p).1)) [
          | inl e' ↦
              rw (e, e')
                (add_blocks-Owns size n lent ((release_size (sub32 wanted c_max_pool_size) p).0)
                  released)
          | inr e' ↦ rw (e, e') released
        ]
        | inr e ↦ rw e (add_blocks-Owns size n lent p owns)
      ]

  refill-Owns :
      (size : ℕ) (lent : List ℕ) (p : MemPool)
      → Owns p lent
      → Owns ((refill new_block size p).0) lent
  unfolding extend_new_size Owns refill free_count count
  refill-Owns size lent p owns = elim (Option-cases (find size p.free)) [
    | inl e ↦
        rw (refill, e)
          (extend-Owns size lent
            (record p { free = (size, []) ∷ p.free; stub = (size, []) ∷ p.stub })
            (λ a. omega (arith, owns a)))
    | inr ([], e) ↦ rw (refill, e) (extend-Owns size lent p owns)
    | inr (a ∷ l, e) ↦ rw (refill, e) owns
  ]

  -- Taking the front of a list lends that block.
  take_block-Owns :
      (size n : ℕ) (lent : List ℕ) (p : MemPool)
      → Owns p lent
      → (let (p', block) = take_block new_block size p in
          Lends lent (p', elim block [ none ↦ none | some a ↦ some (a, n) ]))
  unfolding take_block Owns Lends
  take_block-Owns size n lent p owns =
      let Good : MemPool × Option ℕ → Type 0 =
        λ r. Lends lent (r.0, elim r.1 [ none ↦ none | some a ↦ some (a, n) ]) in
      elim (Option-cases (find size p.free)) [
        | inl e ↦ subst Good (sym (taken new_block size p e)) owns
        | inr ([], e) ↦ subst Good (sym (taken new_block size p e)) owns
        | inr (a ∷ l, e) ↦ subst Good (sym (taken new_block size p e)) (
          (λ b. (
            omega (
              arith,
              free_count-update b size (a ∷ l) l p.free e,
              owns b,
              count_cons b a l,
              count_cons b a lent,
            ),
            (owns b).1,
          )),
          ground (arith, count-find a size (a ∷ l) p.free e, owns a, count_cons a a l),
        )
      ]

  -- For a pool whose live blocks are, each once, the free blocks and the blocks lent out, and a heap
  -- that never picks a live block: `allocate` keeps this, with the new block among those lent out,
  -- and hands out a block that nobody holds.
  pub allocate-Owns :
      (size : ℕ) (lent : List ℕ) (p : MemPool)
      → Owns p lent
      → Lends lent (allocate new_block size p)
  unfolding allocate Owns Lends
  allocate-Owns size lent p owns =
      let n = fit_block_size size in
      let p1 = (refill new_block n p).0 in
      let refilled = refill-Owns n lent p owns in
      elim (Bool-cases ((refill new_block n p).1)) [
        | inl e ↦ rw e (take_block-Owns n n lent p1 refilled)
        | inr e ↦ rw e refilled
      ]

recycle-refuses_size :
    (mem mem_size : ℕ) (p : MemPool)
    → find mem_size p.stub ≡ none
    → recycle mem mem_size p ≡ (p, false)
unfolding recycle
recycle-refuses_size mem mem_size p e = rw (recycle, e) refl

recycle-refuses_block :
    (mem mem_size : ℕ) (p : MemPool) (s : List ℕ)
    → find mem_size p.stub ≡ some s
    → contains mem s ≡ false
    → recycle mem mem_size p ≡ (p, false)
unfolding recycle
recycle-refuses_block mem mem_size p s e e1 = rw (recycle, e, e1) refl

recycle-refuses_list :
    (mem mem_size : ℕ) (p : MemPool) (s : List ℕ)
    → find mem_size p.stub ≡ some s
    → find mem_size p.free ≡ none
    → recycle mem mem_size p ≡ (p, false)
unfolding recycle
recycle-refuses_list mem mem_size p s e e2 = elim (Bool-cases (contains mem s)) [
  | inl e1 ↦ rw (recycle, e, e1, e2) refl
  | inr e1 ↦ rw (recycle, e, e1) refl
]

pub recycle-takes :
    (mem mem_size : ℕ) (p : MemPool) (s l : List ℕ)
    → find mem_size p.stub ≡ some s
    → contains mem s ≡ true
    → find mem_size p.free ≡ some l
    → recycle mem mem_size p
      ≡ (release mem_size (mem ∷ l) s (record p { free = update mem_size (mem ∷ l) p.free }), true)
unfolding recycle
recycle-takes mem mem_size p s l e e1 e2 = rw (recycle, e, e1, e2) refl

-- What a call of `recycle` leaves: without the block among those lent out, or unchanged.
pub Recycles : List ℕ → MemPool → MemPool × Bool → Type 0
Recycles lent p (p', true) = Owns p' lent
Recycles lent p (p', false) = p' ≡ p

-- For a pool whose live blocks are, each once, the free blocks and the blocks lent out: `recycle` of
-- a block that is lent out, if it returns 0, keeps this with the block no longer lent, and if it
-- does not, leaves the pool as it was.
pub recycle-Owns :
    (mem mem_size : ℕ) (lent : List ℕ) (p : MemPool)
    → Owns p (mem ∷ lent)
    → Recycles lent p (recycle mem mem_size p)
unfolding Owns Recycles
recycle-Owns mem mem_size lent p owns = elim (Option-cases (find mem_size p.stub)) [
  | inl e ↦ subst (Recycles lent p) (sym (recycle-refuses_size mem mem_size p e)) refl
  | inr (s, e) ↦ elim (Bool-cases (contains mem s)) [
    | inl e1 ↦ elim (Option-cases (find mem_size p.free)) [
      | inl e2 ↦ subst (Recycles lent p) (sym (recycle-refuses_list mem mem_size p s e e2)) refl
      | inr (l, e2) ↦ subst (Recycles lent p) (sym (recycle-takes mem mem_size p s l e e1 e2)) (
          release-Owns mem_size (mem ∷ l) s lent
            (record p { free = update mem_size (mem ∷ l) p.free })
            (find-update mem_size l (mem ∷ l) p.free e2)
            (λ a. (
              omega (
                arith,
                free_count-update a mem_size l (mem ∷ l) p.free e2,
                owns a,
                count_cons a mem l,
                count_cons a mem lent,
              ),
              (owns a).1,
            )))
    ]
    | inr e1 ↦ subst (Recycles lent p) (sym (recycle-refuses_block mem mem_size p s e e1)) refl
  ]
]
