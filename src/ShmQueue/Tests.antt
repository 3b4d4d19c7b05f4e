-- ===== src/ShmQueue/Tests.antt =====
-- CShmQueue at concrete inputs.
use spp_server_frame_work.Base.{
  ℕ, ◌<◌, ◌≡◌, ◌⊎◌, refl, List, [], ◌∷◌, some, none, arith, ◌==◌, if◌then◌else◌,
}
use spp_server_frame_work.ShmQueue.{ShmQueue, push, pop}
use spp_server_frame_work.ShmQueue.Fifo.{Queues, push-Queues, pop-Queues}

abbrev two_items : List ℕ
two_items = 8 ∷ 9 ∷ []

-- Four nodes; 8 and 9 lie round the end.
abbrev wrapped : ShmQueue ℕ
wrapped = record { front = 3; rear = 1; size = 4; nodes = λ i. if i == 3 then 8 else 9 }

wrapped-Queues : Queues wrapped (8 ∷ 9 ∷ [])
wrapped-Queues = record {
  small = omega arith;
  front_in = omega arith;
  room = omega arith;
  rear_at = refl;
  items = λ k h. ground arith;
}

push-Queues_example :
    ((3 ≡ wrapped.size) × (push wrapped 5 ≡ none))
    ⊎ ((q' : ShmQueue ℕ) × (3 < wrapped.size)
        × (push wrapped 5 ≡ some q')
        × Queues q' (8 ∷ 9 ∷ 5 ∷ []))
push-Queues_example = push-Queues (8 ∷ 9 ∷ []) 5 wrapped-Queues

pop-Queues_example :
    ((two_items ≡ []) × (pop wrapped ≡ none))
    ⊎ ((x : ℕ) × (rest : List ℕ) × (q' : ShmQueue ℕ) × (two_items ≡ x ∷ rest)
        × (pop wrapped ≡ some (x, q'))
        × Queues q' rest)
pop-Queues_example = pop-Queues two_items wrapped-Queues
