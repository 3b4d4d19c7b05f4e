-- ===== src/ShmStack/Lifo.antt =====
-- CShmStack (shm_stack.h) against a list of at most m_TotalItemNum items, newest first.
use spp_server_frame_work.Base.{
  ℕ, zero, suc, ◌+◌, ◌-◌, ◌^◌, ◌%◌, ◌≤◌, ◌<◌, ◌≡◌, refl, ◌⊎◌, inl, inr, List, [], ◌∷◌, none, some,
  length, get_elem?, arith, dec_lt, ==-eq_false, ◌==◌, if◌then◌else◌, ==-refl,
}
use spp_server_frame_work.ShmStack.{ShmStack, push, pop}

pub record Stacks {ℓ} {A : Type ℓ} (s : ShmStack A) (xs : List A) : Type ℓ where
  pub small : s.total_item_num < 2 ^ 64
  pub room : length xs ≤ s.total_item_num
  pub count : s.cur_item_num ≡ length xs
  pub items : (k : ℕ) → k < length xs → get_elem? xs k ≡ some (s.nodes (length xs - 1 - k))

module _ {ℓ} {A : Type ℓ} where
  -- For a stack that holds a list: `Push` refuses just the item that is one too many, and puts any other on top.
  pub push-Stacks :
      {s : ShmStack A} (xs : List A) (x : A)
      → Stacks s xs
      → ((length xs ≡ s.total_item_num) × (push s x ≡ none))
        ⊎ ((s' : ShmStack A) × (length xs < s.total_item_num)
            × (push s x ≡ some s')
            × Stacks s' (x ∷ xs))
  unfolding push
  push-Stacks {s} xs x v = elim (dec_lt (length xs) s.total_item_num) [
    | yes h ↦ inr (
      record s {
        nodes = λ i. if i == s.cur_item_num then x else s.nodes i;
        cur_item_num = (s.cur_item_num + 1) % 2 ^ 64;
      },
      h,
      ground (arith, v.count),
      record {
        small = v.small;
        room = omega arith;
        count = omega (arith, v.count, v.small);
        items = items';
      },
    )
    | no h ↦ inl (omega (arith, v.room), ground (arith, v.count, v.room))
  ]
    where
      items' :
          (k : ℕ)
          → k < length (x ∷ xs)
          → get_elem? (x ∷ xs) k
            ≡ some (
                if length (x ∷ xs) - 1 - k == s.cur_item_num
                then x
                else s.nodes (length (x ∷ xs) - 1 - k))
      items' zero h =
          let e : length (x ∷ xs) - 1 - 0 ≡ s.cur_item_num = omega (arith, v.count) in
          rw (e, ==-refl s.cur_item_num) refl
      items' (suc k) h =
          let e : length (x ∷ xs) - 1 - suc k ≡ length xs - 1 - k = omega arith in
          rw (e, ==-eq_false (length xs - 1 - k) s.cur_item_num (omega (arith, v.count)))
            (v.items k (omega arith))

  -- For a stack that holds a list: `Pop` refuses just the empty stack, and takes the newest item otherwise.
  pub pop-Stacks :
      {s : ShmStack A} (xs : List A)
      → Stacks s xs
      → ((xs ≡ []) × (pop s ≡ none))
        ⊎ ((x : A) × (rest : List A) × (s' : ShmStack A) × (xs ≡ x ∷ rest)
            × (pop s ≡ some (x, s'))
            × Stacks s' rest)
  unfolding pop
  pop-Stacks {s} [] v = inl (refl, ground (arith, v.count))
  pop-Stacks {s} (x ∷ rest) v = inr (
    x,
    rest,
    record s { cur_item_num = s.cur_item_num - 1 },
    refl,
    top,
    record {
      small = v.small;
      room = omega (arith, v.room);
      count = omega (arith, v.count);
      items = λ k h.
          (let e : length (x ∷ rest) - 1 - suc k ≡ length rest - 1 - k = omega arith in
            rw e at (v.items (suc k) (omega arith)));
    },
  )
    where
      top : pop s ≡ some (x, record s { cur_item_num = s.cur_item_num - 1 })
      top =
          let e : s.cur_item_num ≡ suc (length rest) = v.count in
          let f : length (x ∷ rest) - 1 - 0 ≡ s.cur_item_num - 1 = omega (arith, v.count) in
          let g = rw f at (v.items 0 (omega arith)) in ground (arith, g, e)
