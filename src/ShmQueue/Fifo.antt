-- ===== src/ShmQueue/Fifo.antt =====
-- CShmQueue (shm_queue.h) against a list of at most `size - 1` items, oldest first.
use spp_server_frame_work.Base.{
  ℕ, ◌+◌, ◌-◌, ◌*◌, ◌/◌, ◌%◌, ◌^◌, ◌≤◌, ◌<◌, ◌≡◌, refl, List, [], ◌∷◌, ◌++◌, none, some, ltb, leb,
  ◌==◌, if◌then◌else◌, length, get_elem?, length-append, get_elem?-append_left,
  get_elem?-append_self, ==-eq_false, ==-refl, arith, u32, dec_lt, ℕ_discrete, inl, inr, ◌⊎◌, suc,
}
use native.Mathlib.Nat.{mod-eq_of_lt, mod-eq-sub-mod, mod_self}
use spp_server_frame_work.ShmQueue.{ShmQueue, node_count, is_full, is_empty, count, push, pop}

-- The node `k` places behind `front`.
abbrev pub place : ℕ → ℕ → ℕ → ℕ
place size front k = if ltb (front + k) size then front + k else front + k - size

pub record Queues {ℓ} {A : Type ℓ} (q : ShmQueue A) (xs : List A) : Type ℓ where
  pub small : q.size < 2 ^ 31
  pub front_in : q.front < q.size
  pub room : length xs < q.size
  pub rear_at : q.rear ≡ place q.size q.front (length xs)
  pub items : (k : ℕ) → k < length xs → get_elem? xs k ≡ some (q.nodes (place q.size q.front k))

-- One step round the array.
step_mod : (i n : ℕ) → i < n → n < 2 ^ 31 → u32 (i + 1) % n ≡ (if ltb (i + 1) n then i + 1 else 0)
step_mod i n h s = elim (dec_lt (i + 1) n) [
  | yes p ↦ ground (arith, mod-eq_of_lt {n = i + 1} {m = n} p)
  | no p ↦ (let e : i + 1 ≡ n = omega arith in ground (arith, mod_self n))
]

-- For a segment under 2 ^ 31 that has room for the header, whose last member is a node: the nodes of
-- a new queue lie inside the segment, and there is at least one.
pub node_count_fits :
    (shm_size head_bytes node_bytes : ℕ)
    → 0 < node_bytes
    → node_bytes ≤ head_bytes
    → head_bytes ≤ shm_size
    → shm_size < 2 ^ 31
    → (head_bytes - node_bytes + node_count shm_size head_bytes node_bytes * node_bytes ≤ shm_size)
      × (0 < node_count shm_size head_bytes node_bytes)
unfolding node_count
node_count_fits shm_size head_bytes node_bytes p a b c =
    let bytes : (shm_size + 2 ^ 64 - head_bytes) % 2 ^ 64 ≡ shm_size - head_bytes = omega arith in
    rw bytes (fits ((shm_size - head_bytes) / node_bytes) (quotient (shm_size - head_bytes)))
  where
    quotient : (n : ℕ) → (n / node_bytes * node_bytes ≤ n) × (n / node_bytes ≤ n)
    quotient n = (grind arith, grind arith)

    fits :
        (k : ℕ)
        → (k * node_bytes ≤ shm_size - head_bytes) × (k ≤ shm_size - head_bytes)
        → (head_bytes - node_bytes + u32 (k + 1) * node_bytes ≤ shm_size) × (0 < u32 (k + 1))
    fits k h = let small : u32 (k + 1) ≡ k + 1 = omega arith in rw small (omega arith, omega arith)

module _ {ℓ} {A : Type ℓ} where
  -- For a queue that holds a list: `Size`, `Empty` and `Full` tell the length of the list.
  pub count-Queues :
      {q : ShmQueue A} (xs : List A)
      → Queues q xs
      → (count q ≡ length xs)
        × (is_empty q ≡ (length xs == 0))
        × (is_full q ≡ (length xs + 1 == q.size))
  unfolding count is_empty is_full
  count-Queues {q} xs v = (
    (let sum : u32 (u32 (q.rear + q.size) + 2 ^ 32 - q.front)
            ≡ (if leb q.front q.rear then length xs + q.size else length xs) =
          ground (arith, v.rear_at, v.room, v.front_in, v.small) in
        rw sum (
          ground (
            arith,
            v.room,
            mod-eq_of_lt {n = length xs} {m = q.size},
            mod-eq-sub-mod {n = length xs + q.size} {m = q.size},
          ))),
    ground (arith, v.rear_at, v.room, v.front_in),
    ground (arith, v.rear_at, v.room, v.front_in, step_mod q.rear q.size),
  )

  -- For a queue that holds a list: `Push` refuses just the item that would fill the last node, and adds
  -- any other at the end.
  pub push-Queues :
      {q : ShmQueue A} (xs : List A) (x : A)
      → Queues q xs
      → ((length xs + 1 ≡ q.size) × (push q x ≡ none))
        ⊎ ((q' : ShmQueue A) × (length xs + 1 < q.size)
            × (push q x ≡ some q')
            × Queues q' (xs ++ x ∷ []))
  unfolding push
  push-Queues {q} xs x v = elim (ℕ_discrete (length xs + 1) q.size) [
    | yes e ↦ inl (e, ground (arith, (count-Queues xs v).2))
    | no e ↦ inr (
      record q {
        nodes = λ i. if i == q.rear then x else q.nodes i;
        rear = u32 (q.rear + 1) % q.size;
      },
      omega (arith, v.room),
      ground (arith, (count-Queues xs v).2, v.room),
      record {
        small = v.small;
        front_in = v.front_in;
        room = omega (arith, v.room, length-append xs (x ∷ []));
        rear_at = ground (
          arith,
          v.rear_at,
          v.front_in,
          v.room,
          length-append xs (x ∷ []),
          step_mod q.rear q.size,
        );
        items = λ k h. elim (dec_lt k (length xs)) [
          | yes old ↦
              rw
                (
                  get_elem?-append_left xs (x ∷ []) k old,
                  ==-eq_false (place q.size q.front k) q.rear
                      (ground (arith, v.rear_at, v.front_in, v.room)),
                )
                (v.items k old)
          | no new ↦
              (let last : k ≡ length xs = omega (arith, length-append xs (x ∷ [])) in
                rw (last, v.rear_at, ==-refl (place q.size q.front (length xs)))
                  (get_elem?-append_self xs x))
        ];
      },
    )
  ]

  -- For a queue that holds a list: `Pop` refuses just the empty queue, and takes the oldest item
  -- otherwise.
  pub pop-Queues :
      {q : ShmQueue A} (xs : List A)
      → Queues q xs
      → ((xs ≡ []) × (pop q ≡ none))
        ⊎ ((x : A) × (rest : List A) × (q' : ShmQueue A) × (xs ≡ x ∷ rest)
            × (pop q ≡ some (x, q'))
            × Queues q' rest)
  unfolding pop
  pop-Queues {q} [] v = inl (refl, ground (arith, v.rear_at, v.front_in))
  pop-Queues {q} (x ∷ rest) v = inr (
    x,
    rest,
    record q { front = u32 (q.front + 1) % q.size },
    refl,
    ground (arith, v.rear_at, v.front_in, v.room, v.items 0),
    record {
      small = v.small;
      front_in = ground (arith, v.front_in, step_mod q.front q.size);
      room = omega (arith, v.room);
      rear_at = ground (arith, v.front_in, v.room, v.rear_at, step_mod q.front q.size);
      items = λ k h.
          (let same : place q.size (u32 (q.front + 1) % q.size) k ≡ place q.size q.front (suc k) =
              ground (arith, v.front_in, v.room, step_mod q.front q.size) in
            rw same (v.items (suc k) (omega arith)));
    },
  )
