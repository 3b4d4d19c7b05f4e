-- ===== src/Delay.antt =====
-- CMisc::getdelay of libcomm/src/base/misc.cpp: the age of a time stamp in milliseconds.
use spp_server_frame_work.Base.{
  ℕ, ◌+◌, ◌-◌, ◌*◌, ◌/◌, ◌%◌, ◌^◌, ltb, if◌then◌else◌, u32, add32, sub32,
}

-- `struct timeval`.
pub record Timeval : Type 0 where
  pub tv_sec : ℕ
  pub tv_usec : ℕ

-- The seconds are 64 bits wide; their difference is cut to an `unsigned`, and so is the product.
-- `now` is what the clock (`get_timeofday`) gives at the call.
unfoldable pub getdelay : Timeval → Timeval → ℕ
getdelay now begin =
    let secs = (now.tv_sec + 2 ^ 64 - begin.tv_sec) % 2 ^ 64 % 2 ^ 32 in
    let delay = if ltb 0 secs then u32 (secs * 1000) else secs in
    if ltb begin.tv_usec now.tv_usec
    then add32 delay (u32 ((now.tv_usec - begin.tv_usec) / 1000))
    else sub32 delay (u32 ((begin.tv_usec - now.tv_usec) / 1000))
