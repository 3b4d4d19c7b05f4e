-- ===== src/PollFlow.antt =====
-- CEPollFlow of ServerFrameWork (src/base/epollflow.cpp): a set of descriptors in the kernel, each tagged
-- with a flow number. What epoll_create, epoll_ctl and epoll_wait answer, and the errno that they
-- leave, are arguments. A descriptor is the 32-bit pattern of its int; an int result is an `Answer`.
pub mod Tags
mod Tests
use spp_server_frame_work.Base.{
  ℕ, ◌+◌, ◌-◌, ◌*◌, ◌/◌, ◌%◌, ◌^◌, ◌≤◌, Bool, true, false, Option, none, some, List, [], ◌∷◌, ltb,
  ◌==◌, if◌then◌else◌, get_or,
}

-- A result that is an int: not negative, or minus a number.
pub data Answer : Type 0 where
  value : ℕ → Answer
  minus : ℕ → Answer

-- `ev.events` and `ev.data.u64`
pub record Event : Type 0 where
  pub events : ℕ
  pub data_u64 : ℕ

-- `_fd`, and whether `_events` is there.
pub record CePollFlow : Type 0 where
  pub fd : Answer
  pub has_events : Bool
  pub max_fd : ℕ

-- A negative answer and errno make the result.
abbrev pub failure : ℕ → ℕ → Answer
failure ret errno = if errno == 0 then minus ret else minus errno

unfoldable pub create : CePollFlow → ℕ → Answer → ℕ → CePollFlow × Answer
create c max (minus ret) errno = (record c { fd = minus ret; max_fd = max }, failure ret errno)
create c max (value fd) errno = (record { fd = value fd; has_events = true; max_fd = max }, value 0)

-- `(unsigned long long)fd`
abbrev pub sign_extend : ℕ → ℕ
sign_extend fd = if ltb fd (2 ^ 31) then fd else fd + (2 ^ 64 - 2 ^ 32)

unfoldable pub tag : ℕ → ℕ → ℕ
tag fd flow = (sign_extend fd + flow * 2 ^ 32) % 2 ^ 64

-- The event that `ctl` gives the kernel, and what it returns.
unfoldable pub ctl : ℕ → ℕ → ℕ → Answer → ℕ → Event × Answer
ctl fd flow flag (minus ret) errno =
    (record { events = flag; data_u64 = tag fd flow }, failure ret errno)
ctl fd flow flag (value ret) errno = (record { events = flag; data_u64 = tag fd flow }, value 0)

-- CEPollFlowResult; `events` is none when the array is not there.
pub record CePollFlowResult : Type 0 where
  pub events : Option (List Event)
  pub size : ℕ
  pub errno : ℕ

abbrev pub eintr : ℕ
eintr = 4

unfoldable pub wait : Option (List Event) → Answer → ℕ → CePollFlowResult
wait events (value nfds) errno = record { events = events; size = nfds; errno = 0 }
wait events (minus ret) errno = record {
  events = events;
  size = 0;
  errno = if errno == eintr then 0 else errno;
}

abbrev pub no_event : Event
no_event = record { events = 0; data_u64 = 0 }

abbrev pub uint_max : ℕ
uint_max = 2 ^ 32 - 1

-- The iterator at `index`, which is one of the events.
unfoldable pub flow : CePollFlowResult → ℕ → ℕ
flow res index = elim res.events [
  | none ↦ uint_max
  | some l ↦ (get_or l index no_event).data_u64 / 2 ^ 32 % 2 ^ 32
]

-- -1 is the pattern of all ones.
unfoldable pub fd : CePollFlowResult → ℕ → ℕ
fd res index = elim res.events [
  | none ↦ uint_max
  | some l ↦ (get_or l index no_event).data_u64 % 2 ^ 32
]
