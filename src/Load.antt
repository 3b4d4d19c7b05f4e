-- ===== src/Load.antt =====
-- CLoad of ServerFrameWork/src/base/load.cpp and include/load.h: packets, counted in one grid while the
-- other is read. The counters stay below 2 ^ 31, where int and unsigned agree, and
-- only grow. The clock's answer is an argument.
pub mod Rate
mod Tests
use spp_server_frame_work.Base.{
  ℕ, zero, suc, ◌+◌, ◌*◌, ◌/◌, ◌^◌, ◌&&◌, sub32, Bool, true, false, ltb, leb, ◌==◌, if◌then◌else◌,
  add32,
}
use spp_server_frame_work.Delay.{Timeval}

abbrev pub default_max_load : ℕ
default_max_load = 2 ^ 16

abbrev pub default_interval : ℕ
default_interval = 5

abbrev pub loadgrid_num : ℕ
loadgrid_num = 2

-- `curloadgrid_` points to `loadgrid` if `direct` holds, else to `loadgrid2`.
pub record Load : Type 0 where
  pub max : ℕ
  pub curtime : ℕ
  pub direct : Bool
  pub loadgrid : ℕ → ℕ
  pub loadgrid2 : ℕ → ℕ

abbrev no_load : ℕ → ℕ
no_load i = 0

-- The constructor with a maximum; with 0 it takes the default, as the other constructor does.
unfoldable pub create : ℕ → Load
create n = record {
  max = if ltb 0 n then n else default_max_load;
  curtime = 0;
  direct = true;
  loadgrid = no_load;
  loadgrid2 = no_load;
}

pub trans : Load → Load
trans s =
    if s.direct
    then record s { direct = false; loadgrid2 = no_load }
    else record s { direct = true; loadgrid = no_load }

pub maxload : ℕ → Load → Load × ℕ
maxload n s = let m = if ltb 0 n then n else s.max in (record s { max = m }, m)

-- `atomic_add(n, &curloadgrid_[idx])`
pub grow_load : ℕ → Timeval → Load → Load
grow_load n now s =
    let idx = now.tv_usec / (1_000_000 / loadgrid_num) in
    if s.direct
    then record s { loadgrid = λ i. if i == idx then add32 (s.loadgrid i) n else s.loadgrid i }
    else record s { loadgrid2 = λ i. if i == idx then add32 (s.loadgrid2 i) n else s.loadgrid2 i }

-- The loop over the two counters of the grid that is not counted in.
pub read_grid : Load → ℕ
read_grid s =
    if s.direct then add32 (s.loadgrid2 0) (s.loadgrid2 1) else add32 (s.loadgrid 0) (s.loadgrid 1)

-- `timediff` is an int, and negative from 2 ^ 31 on.
pub peek_load : Timeval → Load → Load × ℕ
peek_load now s =
    let timediff = sub32 now.tv_sec s.curtime in
    let next = record (trans s) { curtime = add32 s.curtime timediff } in
    let s' = if leb default_interval timediff && ltb timediff (2 ^ 31) then next else s in
    (s', read_grid s' / default_interval)

pub check_load : Timeval → Load → Load × Bool
check_load now s = let (s', load) = peek_load now s in (s', ltb s.max load)
