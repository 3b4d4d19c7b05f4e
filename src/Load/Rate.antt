-- ===== src/Load/Rate.antt =====
-- What CLoad (load.cpp) gives for the packets of the period before.
use spp_server_frame_work.Base.{
  ◌-◌, sub32, add32, lt→ltb, lt→not_leb, ℕ, ◌+◌, ◌/◌, ◌^◌, ◌<◌, ◌≤◌, ◌≡◌, refl, ap, ◌∙◌, List, [],
  ◌∷◌, if◌then◌else◌, arith, Bool-cases, inl, inr, le→leb,
}
use spp_server_frame_work.Delay.{Timeval}
use spp_server_frame_work.Load.{Load, trans, grow_load, read_grid, peek_load}

-- What has been counted in the current period.
unfoldable pub counted : Load → ℕ
counted s = if s.direct then s.loadgrid 0 + s.loadgrid 1 else s.loadgrid2 0 + s.loadgrid2 1

-- Calls of `grow_load`, one after the other.
pub grow_all : List (ℕ × Timeval) → Load → Load
grow_all [] s = s
grow_all ((n, now) ∷ calls) s = grow_all calls (grow_load n now s)

unfoldable pub total : List (ℕ × Timeval) → ℕ
total [] = 0
total ((n, now) ∷ calls) = n + total calls

abbrev pub AllInSecond : List (ℕ × Timeval) → Type 0
AllInSecond [] = Unit {0}
AllInSecond ((n, now) ∷ calls) = (now.tv_usec < 1_000_000) × AllInSecond calls

counted-grow_load :
    (n : ℕ) (now : Timeval) (s : Load)
    → now.tv_usec < 1_000_000
    → counted s + n < 2 ^ 31
    → counted (grow_load n now s) ≡ counted s + n
unfolding counted grow_load
counted-grow_load n now s h small = ground arith

counted-grow_all :
    (calls : List (ℕ × Timeval)) (s : Load)
    → AllInSecond calls
    → counted s + total calls < 2 ^ 31
    → counted (grow_all calls s) ≡ counted s + total calls
unfolding grow_all total
counted-grow_all [] s h small = omega arith
counted-grow_all ((n, now) ∷ calls) s h small =
    let once = counted-grow_load n now s h.0 (omega arith) in
    omega (arith, once, counted-grow_all calls (grow_load n now s) h.1 (omega (arith, once)))

curtime-grow_load : (n : ℕ) (now : Timeval) (s : Load) → (grow_load n now s).curtime ≡ s.curtime
unfolding grow_load
curtime-grow_load n now s = elim (Bool-cases s.direct) [ inl e ↦ rw e refl | inr e ↦ rw e refl ]

curtime-grow_all : (calls : List (ℕ × Timeval)) (s : Load) → (grow_all calls s).curtime ≡ s.curtime
unfolding grow_all
curtime-grow_all [] s = refl
curtime-grow_all ((n, now) ∷ calls) s =
    curtime-grow_all calls (grow_load n now s) ∙ curtime-grow_load n now s

read_grid-grow_load :
    (n : ℕ) (now : Timeval) (s : Load) → read_grid (grow_load n now s) ≡ read_grid s
unfolding read_grid grow_load
read_grid-grow_load n now s = elim (Bool-cases s.direct) [ inl e ↦ rw e refl | inr e ↦ rw e refl ]

read_grid-grow_all :
    (calls : List (ℕ × Timeval)) (s : Load) → read_grid (grow_all calls s) ≡ read_grid s
unfolding grow_all
read_grid-grow_all [] s = refl
read_grid-grow_all ((n, now) ∷ calls) s =
    read_grid-grow_all calls (grow_load n now s) ∙ read_grid-grow_load n now s

-- The grids are changed.
peek_load-due :
    (now : Timeval) (s : Load)
    → s.curtime + 5 ≤ now.tv_sec
    → now.tv_sec < 2 ^ 31
    → peek_load now s
      ≡ (let next = record (trans s) { curtime = now.tv_sec } in (next, read_grid next / 5))
unfolding peek_load
peek_load-due now s due small =
    let diff : sub32 now.tv_sec s.curtime ≡ now.tv_sec - s.curtime = omega arith in
    let again : add32 s.curtime (now.tv_sec - s.curtime) ≡ now.tv_sec = omega arith in
    rw
      (
        diff,
        le→leb 5 (now.tv_sec - s.curtime) (omega arith),
        lt→ltb (now.tv_sec - s.curtime) (2 ^ 31) (omega arith),
        again,
      )
      refl

-- They are not.
peek_load-early :
    (now : Timeval) (s : Load)
    → s.curtime ≤ now.tv_sec
    → now.tv_sec < s.curtime + 5
    → now.tv_sec < 2 ^ 31
    → peek_load now s ≡ (s, read_grid s / 5)
unfolding peek_load
peek_load-early now s from due small =
    let diff : sub32 now.tv_sec s.curtime ≡ now.tv_sec - s.curtime = omega arith in
    rw (diff, lt→not_leb 5 (now.tv_sec - s.curtime) (omega arith)) refl

trans-counted :
    (s : Load) (now : ℕ)
    → counted s < 2 ^ 31
    → (let next = record (trans s) { curtime = now } in
        (read_grid next ≡ counted s) × (counted next ≡ 0))
unfolding counted read_grid trans
trans-counted s now small = ground arith

-- With every call's clock inside its second, less than 2 ^ 31 packets, a clock below 2 ^ 31, and the last
-- change of grids at least five seconds ago: after any calls of `grow_load`, `peek_load` gives a fifth of
-- the packets counted since that change, however long it was ago, and starts the next period with none;
-- and in the five seconds from then on it gives the same, whatever is counted meanwhile.
pub peek_load-grow_all :
    (calls later : List (ℕ × Timeval)) (now now' : Timeval) (s : Load)
    → AllInSecond calls
    → counted s + total calls < 2 ^ 31
    → s.curtime + 5 ≤ now.tv_sec
    → now.tv_sec ≤ now'.tv_sec
    → now'.tv_sec < now.tv_sec + 5
    → now'.tv_sec < 2 ^ 31
    → (let (s', load) = peek_load now (grow_all calls s) in
        (load ≡ (counted s + total calls) / 5)
        × (counted s' ≡ 0)
        × ((peek_load now' (grow_all later s')).1 ≡ load))
peek_load-grow_all calls later now now' s h small due from early clock =
    let t = grow_all calls s in
    let sum = counted-grow_all calls s h small in
    let next = record (trans t) { curtime = now.tv_sec } in
    let e = peek_load-due now t (omega (arith, curtime-grow_all calls s)) (omega arith) in
    let (read, fresh) = trans-counted t now.tv_sec (omega (arith, sum)) in
    let same = curtime-grow_all later next in
    let e' =
      peek_load-early now' (grow_all later next) (omega (arith, same)) (omega (arith, same))
        clock in
    rw e (
      ap (λ x. x / 5) (read ∙ sum),
      fresh,
      ap (λ r. r.1) e' ∙ ap (λ x. x / 5) (read_grid-grow_all later next),
    )
