-- ===== src/MemPool/Stale.antt =====
-- The set of all blocks in CMemPool (mempool.cpp), which `recycle` looks a block up in and from which
-- nothing is ever taken.
use spp_server_frame_work.Base.{
  ℕ, ◌≡◌, refl, true, List, ◌∷◌, some, ◌==◌, ap, ◌∙◌, Bool-cases, inl, inr, length,
}
use spp_server_frame_work.MemPool.{
  MemPool, find, update, release, recycle, contains, release_count, delete_front,
}
use spp_server_frame_work.MemPool.Ownership.{find-update, recycle-takes}

release-stub : (size : ℕ) (l s : List ℕ) (p : MemPool) → (release size l s p).stub ≡ p.stub
unfolding release
release-stub size l s p =
    elim (Bool-cases (release_count p.water_mark size (length l) (length s) == 0)) [
      | inl e ↦ rw (release, e) refl
      | inr e ↦ rw (release, e) refl
    ]

release-find :
    (size : ℕ) (l s : List ℕ) (p : MemPool)
    → find size p.free ≡ some l
    → (l' : List ℕ) × (find size ((release size l s p).free) ≡ some l')
unfolding release
release-find size l s p h =
    elim (Bool-cases (release_count p.water_mark size (length l) (length s) == 0)) [
      | inl e ↦ (l, rw e h)
      | inr e ↦
          (let todo = release_count p.water_mark size (length l) (length s) in
            (
              (delete_front todo l p.heap).0,
              rw e (find-update size l ((delete_front todo l p.heap).0) p.free h),
            ))
    ]

-- A block that `recycle` has taken back is taken back again by the next call, even if the first call
-- has given it back to the heap.
pub recycle-twice :
    (mem mem_size : ℕ) (p : MemPool) (s l : List ℕ)
    → find mem_size p.stub ≡ some s
    → contains mem s ≡ true
    → find mem_size p.free ≡ some l
    → (let (p', done) = recycle mem mem_size p in
        (done ≡ true) × ((recycle mem mem_size p').1 ≡ true))
recycle-twice mem mem_size p s l e e1 e2 =
    let pushed = record p { free = update mem_size (mem ∷ l) p.free } in
    let p' = release mem_size (mem ∷ l) s pushed in
    let first = recycle-takes mem mem_size p s l e e1 e2 in
    let (l', found) =
      release-find mem_size (mem ∷ l) s pushed (find-update mem_size l (mem ∷ l) p.free e2) in
    let again =
      recycle-takes mem mem_size p' s l'
        (ap (find mem_size) (release-stub mem_size (mem ∷ l) s pushed) ∙ e) e1 found in
    (ap (λ r. r.1) first, ap (λ r. (recycle mem mem_size r.0).1) first ∙ ap (λ r. r.1) again)
