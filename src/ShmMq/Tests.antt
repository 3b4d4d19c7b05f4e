-- ===== src/ShmMq/Tests.antt =====
-- Runs of CShmMQ on a small block, and the theorems at such inputs.
use spp_server_frame_work.Base.{copy_out, ◌≡◌, ◌≢◌, refl, List, [], ◌∷◌, some, arith}
use spp_server_frame_work.Delay.{Timeval}
use spp_server_frame_work.ShmMq.{
  ShmMq, free_len, total_len, place, write_whole, write_split_ext, write_split_data,
  write_split_head, shead, take_message, read_head, read_body, used_len, Blob, success, err_mqfull,
  got, mq_empty, enqueue, dequeue_i, dequeue, getstat, is_stale,
}
use spp_server_frame_work.ShmMq.Refine.{Queues, push, message, enqueue_refines}
use spp_server_frame_work.ShmMq.Place.{place_outside}
use spp_server_frame_work.ShmMq.Edge.{pop, dequeue_i_edge}
use spp_server_frame_work.ShmMq.Deliver.{IsAtEdge}
use spp_server_frame_work.ShmMq.History.{
  pop_fresh, dequeue_refines, run, run_queue, Op, put, get, put_reply, get_reply, run_refines,
}

-- A block of 60 bytes, full of old bytes.
abbrev empty_ring : ShmMq
empty_ring = record {
  head = 0;
  tail = 0;
  block = λ i. 7;
  blocksize = 60;
  msg_timeout = 0;
  shmkey = 1;
  shmid = 1;
  shmsize = 68;
}

abbrev noon : Timeval
noon = record { tv_sec = 1_000_000; tv_usec = 5 }

abbrev six : Blob
six = record { content = 1 ∷ 2 ∷ 3 ∷ 4 ∷ []; extdata = 5 ∷ 6 ∷ []; ext_type = 0 }

abbrev no_body : Blob
no_body = record { content = []; extdata = []; ext_type = 4 }

empty_ring-Queues : Queues empty_ring []
empty_ring-Queues = record {
  small = omega arith;
  head_in = omega arith;
  tail_in = omega arith;
  room = omega arith;
  ends = omega arith;
  bytes = λ k h. absurd (omega arith);
  sendable = tt;
}

abbrev one_message : ShmMq
one_message = (enqueue empty_ring six 9 0 noon).0

one_message-Queues : Queues one_message (message six 9 0 noon ∷ [])
unfolding push
one_message-Queues = (enqueue_refines [] six 9 0 noon empty_ring-Queues (omega arith)).1

enqueue_refines_example :
    ((enqueue empty_ring six 9 0 noon).1 ≡ success)
    × Queues (enqueue empty_ring six 9 0 noon).0 (message six 9 0 noon ∷ [])
unfolding push
enqueue_refines_example = enqueue_refines [] six 9 0 noon empty_ring-Queues (omega arith)

-- The ring once a message of 33 bytes has come and gone.
abbrev drained : ShmMq
drained = record empty_ring { head = 33; tail = 33 }

drained-Queues : Queues drained []
drained-Queues = record {
  small = omega arith;
  head_in = omega arith;
  tail_in = omega arith;
  room = omega arith;
  ends = omega arith;
  bytes = λ k h. absurd (omega arith);
  sendable = tt;
}

-- A message without a body behind the six bytes ends where the block ends.
abbrev edge_ring : ShmMq
edge_ring = (enqueue drained no_body 3 4 noon).0

edge_ring-Queues : Queues edge_ring (message no_body 3 4 noon ∷ [])
unfolding push
edge_ring-Queues = (enqueue_refines [] no_body 3 4 noon drained-Queues (omega arith)).1

edge_ring-IsAtEdge : IsAtEdge edge_ring (message no_body 3 4 noon) []
unfolding enqueue free_len total_len
edge_ring-IsAtEdge = (refl, refl, refl)

dequeue_i_edge_example :
    let q' = (dequeue_i edge_ring).0 in
    ((dequeue_i edge_ring).1 ≡ got (message no_body 3 4 noon))
    × ((getstat q').usedlen ≡ 60)
    × ((dequeue_i q').1 ≢ mq_empty)
    × (enqueue q' six 9 0 noon ≡ (q', err_mqfull))
unfolding enqueue free_len total_len
dequeue_i_edge_example =
    dequeue_i_edge (message no_body 3 4 noon) [] six 9 0 noon edge_ring-Queues edge_ring-IsAtEdge

dequeue_refines_example :
    (q' : ShmMq) × (dequeue 2 one_message (λ n. noon) ≡ some (q', got (message six 9 0 noon)))
    × Queues q' []
unfolding pop_fresh is_stale enqueue free_len total_len
dequeue_refines_example =
    dequeue_refines 2 (λ n. noon) (message six 9 0 noon ∷ []) one_message-Queues (omega arith)
      (omega arith)

-- The second message lies round the end of the block.
abbrev script : List Op
script = put six 9 0 noon ∷ get ∷ put six 8 1 noon ∷ get ∷ get ∷ []

run_refines_example :
    run empty_ring script
    ≡ put_reply success
      ∷ get_reply (got (message six 9 0 noon))
      ∷ put_reply success
      ∷ get_reply (got (message six 8 1 noon))
      ∷ get_reply mq_empty
      ∷ []
unfolding run_queue push pop
run_refines_example = run_refines script [] empty_ring-Queues tt (omega arith)

-- What a run computes with.
calls : Unit {0}
unfolding enqueue free_len total_len place write_whole write_split_ext write_split_data
    write_split_head shead dequeue_i take_message read_head read_body used_len copy_out
calls = tt

-- At the edge the ring hands the same messages out again and again.
replayed :
    run empty_ring (put six 9 0 noon ∷ get ∷ put no_body 3 4 noon ∷ get ∷ get ∷ get ∷ [])
    ≡ put_reply success
      ∷ get_reply (got (message six 9 0 noon))
      ∷ put_reply success
      ∷ get_reply (got (message no_body 3 4 noon))
      ∷ get_reply (got (message six 9 0 noon))
      ∷ get_reply (got (message no_body 3 4 noon))
      ∷ []
unfolding run calls
replayed = refl

place_outside_example :
    (place empty_ring (shead noon 33 9 0 2) (1 ∷ 2 ∷ 3 ∷ 4 ∷ []) (5 ∷ 6 ∷ [])).0 61
    ≡ empty_ring.block 61
place_outside_example =
    place_outside empty_ring (shead noon 33 9 0 2) (1 ∷ 2 ∷ 3 ∷ 4 ∷ []) (5 ∷ 6 ∷ []) 61
      (omega arith) (omega arith) (omega arith) (omega arith)
