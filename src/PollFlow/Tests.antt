-- ===== src/PollFlow/Tests.antt =====
-- CEPollFlow at concrete inputs.
use spp_server_frame_work.Base.{◌≡◌, refl, some, List, [], ◌∷◌, arith}
use spp_server_frame_work.PollFlow.{Answer, Event, ctl, wait, fd, flow}
use spp_server_frame_work.PollFlow.Tags.{iterator-ctl}

abbrev ready : List Event
ready = (ctl 9 70 1 (Answer.value 0) 0).0 ∷ (ctl 12 300 1 (Answer.value 0) 0).0 ∷ []

iterator-ctl_example :
    (let res = wait (some ready) (Answer.value 2) 0 in (fd res 1 ≡ 12) × (flow res 1 ≡ 300))
iterator-ctl_example =
    iterator-ctl 12 300 1 0 0 1 (Answer.value 0) (Answer.value 2) ready (omega arith) (omega arith)
      refl
