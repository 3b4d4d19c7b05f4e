-- ===== src/ShmStack/Tests.antt =====
-- CShmStack at concrete inputs.
use spp_server_frame_work.Base.{
  ℕ, zero, suc, ◌<◌, ◌≡◌, ◌⊎◌, refl, List, [], ◌∷◌, some, none, get_elem?, ◌-◌, arith, ◌==◌,
  if◌then◌else◌,
}
use spp_server_frame_work.ShmStack.{ShmStack, pop}
use spp_server_frame_work.ShmStack.Lifo.{Stacks, pop-Stacks}

abbrev two_items : List ℕ
two_items = 9 ∷ 8 ∷ []

abbrev stack : ShmStack ℕ
stack = record { total_item_num = 3; cur_item_num = 2; nodes = λ i. if i == 0 then 8 else 9 }

stack-Stacks : Stacks stack two_items
stack-Stacks = record { small = omega arith; room = omega arith; count = refl; items = items }
  where
    items : (k : ℕ) → k < 2 → get_elem? two_items k ≡ some (stack.nodes (2 - 1 - k))
    items zero h = refl
    items (suc zero) h = refl
    items (suc (suc k)) h = absurd (omega arith)

pop-Stacks_example :
    ((two_items ≡ []) × (pop stack ≡ none))
    ⊎ ((x : ℕ) × (rest : List ℕ) × (s' : ShmStack ℕ) × (two_items ≡ x ∷ rest)
        × (pop stack ≡ some (x, s'))
        × Stacks s' rest)
pop-Stacks_example = pop-Stacks two_items stack-Stacks
