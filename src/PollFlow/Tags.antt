-- ===== src/PollFlow/Tags.antt =====
-- A tag gives back its descriptor and its flow (epollflow.cpp).
use spp_server_frame_work.Base.{
  ℕ, ◌+◌, ◌-◌, ◌/◌, ◌%◌, ◌^◌, ◌<◌, ◌≤◌, ◌≡◌, refl, ap, ◌∙◌, some, List, get_or, arith, lt→ltb,
  le→not_ltb,
}
use spp_server_frame_work.PollFlow.{Answer, Event, no_event, tag, ctl, wait, flow, fd}

-- The event that ctl makes, whatever the kernel answers.
ctl-data : (d f flag errno : ℕ) (a : Answer) → (ctl d f flag a errno).0.data_u64 ≡ tag d f
unfolding ctl
ctl-data d f flag errno (Answer.value n) = refl
ctl-data d f flag errno (Answer.minus n) = refl

fd-wait :
    (l : List Event) (a : Answer) (errno i : ℕ)
    → fd (wait (some l) a errno) i ≡ (get_or l i no_event).data_u64 % 2 ^ 32
unfolding fd wait
fd-wait l (Answer.value n) errno i = refl
fd-wait l (Answer.minus n) errno i = refl

flow-wait :
    (l : List Event) (a : Answer) (errno i : ℕ)
    → flow (wait (some l) a errno) i ≡ (get_or l i no_event).data_u64 / 2 ^ 32 % 2 ^ 32
unfolding flow wait
flow-wait l (Answer.value n) errno i = refl
flow-wait l (Answer.minus n) errno i = refl

tag-parts :
    (d f : ℕ) → d < 2 ^ 31 → f < 2 ^ 32 → (tag d f % 2 ^ 32 ≡ d) × (tag d f / 2 ^ 32 % 2 ^ 32 ≡ f)
unfolding tag
tag-parts d f hd hf = rw (lt→ltb d (2 ^ 31) hd) (omega arith, omega arith)

-- For a descriptor that is not negative and a flow of 32 bits: when the kernel hands back the event that
-- ctl gave it, at any index and whatever it answered then, the iterator gives the descriptor and the
-- flow.
pub iterator-ctl :
    (d f flag errno errno' i : ℕ) (a a' : Answer) (l : List Event)
    → d < 2 ^ 31
    → f < 2 ^ 32
    → get_or l i no_event ≡ (ctl d f flag a errno).0
    → (let res = wait (some l) a' errno' in (fd res i ≡ d) × (flow res i ≡ f))
iterator-ctl d f flag errno errno' i a a' l hd hf at =
    let made : (get_or l i no_event).data_u64 ≡ tag d f =
      ap (λ (e : Event). e.data_u64) at ∙ ctl-data d f flag errno a in
    let (low, high) = tag-parts d f hd hf in
    (
      fd-wait l a' errno' i ∙ ap (λ u. u % 2 ^ 32) made ∙ low,
      flow-wait l a' errno' i ∙ ap (λ u. u / 2 ^ 32 % 2 ^ 32) made ∙ high,
    )

-- For a negative descriptor, which no successful call registers: the descriptor comes back and the flow
-- is one less, round the end of 32 bits.
pub iterator-negative :
    (d f : ℕ)
    → 2 ^ 31 ≤ d
    → d < 2 ^ 32
    → f < 2 ^ 32
    → (tag d f % 2 ^ 32 ≡ d) × (tag d f / 2 ^ 32 % 2 ^ 32 ≡ (f + 2 ^ 32 - 1) % 2 ^ 32)
unfolding tag
iterator-negative d f neg hd hf = rw (le→not_ltb d (2 ^ 31) neg) (omega arith, omega arith)
