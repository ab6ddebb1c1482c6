-- ===== src/Concurrency/Room/Invariant.antt =====
-- The tasks that share a lane: no more run at once than the lane's ceiling allows.
use mathlib.Core.List.{foldl}
use metafusion.Concurrency.Lane.{
  Acquired, acquire, wake, Kind, AdaptiveLane, granted, LaneOptions, LaneLease, rejected, new_lane,
  waiting,
}
use metafusion.Concurrency.Lane.Invariant.{
  IsValid, acquire-IsValid, release-IsValid, new_lane-IsValid, wake-IsValid, active-release,
  reduce_for_pressure-IsValid, active-reduce_for_pressure, ceiling-wake, ceiling-release,
  ceiling-acquire, ceiling-reduce_for_pressure,
}
use metafusion.Concurrency.Room.{
  Room, start, settle, wake_waiter, leave_room, step, run, Event, Mark, enters, remove_at, wakes,
  cancels, mark_lease, leaves, presses,
}
use metafusion.Prelude.{
  ◌+◌, ◌≡◌, ◌∷◌, refl, [], ◌≤◌, List, ℕ, Bool, get_elem?, Option, length, arith, some, suc, zero,
  none, ◌∙◌, max, pos_part,
}

-- `top` is the ceiling that the lane was built with.
pub record IsSound (top : ℕ) (r : Room) : Type 0 where
  pub ceiling_kept : r.lane.ceiling ≡ top
  pub lane_valid : IsValid r.lane
  pub active_exact : r.lane.active ≡ length r.leases

start-IsSound :
    (now : ℕ) (kind : Kind) (o : LaneOptions)
    → IsSound (max 1 (pos_part o.ceiling)) (start (new_lane now kind o))
unfolding start
start-IsSound now kind o = record {
  ceiling_kept = unfold new_lane in refl;
  lane_valid = new_lane-IsValid now kind o;
  active_exact = unfold new_lane in refl;
}

-- What `acquire` or `wake` leaves: the active count grows exactly with a grant.
abbrev grants : Acquired → ℕ
grants (granted _) = 1
grants (rejected _) = 0
grants (waiting _) = 0

active-acquire :
    (now : ℕ) (l : AdaptiveLane) → (acquire now l).0.active ≡ l.active + grants (acquire now l).1
unfolding acquire
active-acquire now l = ground arith

active-wake :
    (now : ℕ) (h : Bool) (l : AdaptiveLane)
    → (wake now h l).0.active ≡ l.active + grants (wake now h l).1
unfolding wake
active-wake now h l = ground arith

settle-IsSound :
    {top : ℕ} (l : AdaptiveLane) (a : Acquired) (n : ℕ) (leases : List LaneLease)
    (waiters : List Bool)
    → IsValid l
    → l.active ≡ n + grants a
    → n ≡ length leases
    → l.ceiling ≡ top
    → IsSound top (settle (l, a) leases waiters)
unfolding settle
settle-IsSound l (granted lease) n leases waiters v e h c = ground arith
settle-IsSound l (rejected w) n leases waiters v e h c = ground arith
settle-IsSound l (waiting b) n leases waiters v e h c = ground arith

length-remove_at {ℓ} :
    {A : Type ℓ} (xs : List A) (i : ℕ) {x : A}
    → get_elem? xs i ≡ some x
    → length (remove_at i xs) + 1 ≡ length xs
length-remove_at [] i h = cc
length-remove_at (x ∷ xs) zero h = omega arith
length-remove_at (x ∷ xs) (suc i) h = omega (arith, length-remove_at xs i h)

wake_waiter-IsSound :
    {top : ℕ} (now i : ℕ) (w : Option Bool) (r : Room)
    → IsSound top r
    → IsSound top (wake_waiter now i w r)
unfolding wake_waiter
wake_waiter-IsSound now i none r s = s
wake_waiter-IsSound now i (some h) r s =
    settle-IsSound (wake now h r.lane).0 (wake now h r.lane).1 r.lane.active r.leases
      (remove_at i r.waiters) (wake-IsValid now h r.lane s.lane_valid) (active-wake now h r.lane)
      s.active_exact (ceiling-wake now h r.lane ∙ s.ceiling_kept)

leave_room-IsSound :
    (now i : ℕ) (marks : List Mark) (d : ℕ) (allow : Bool) (o : Option LaneLease) {top : ℕ}
    (r : Room)
    → get_elem? r.leases i ≡ o
    → IsSound top r
    → IsSound top (leave_room now i marks d allow o r)
unfolding leave_room
leave_room-IsSound now i marks d allow none r e s = s
leave_room-IsSound now i marks d allow (some lease) r e s = record {
  ceiling_kept = ceiling-release now (foldl mark_lease lease marks) d allow r.lane ∙ s.ceiling_kept;
  lane_valid = release-IsValid now (foldl mark_lease lease marks) d allow r.lane s.lane_valid;
  active_exact =
      rw (active-release now (foldl mark_lease lease marks) d allow r.lane)
        (omega (arith, s.active_exact, length-remove_at r.leases i e));
}

pub step-IsSound : (e : Event) {top : ℕ} (r : Room) → IsSound top r → IsSound top (step e r)
unfolding step
step-IsSound (enters now) r s =
    settle-IsSound (acquire now r.lane).0 (acquire now r.lane).1 r.lane.active r.leases r.waiters
      (acquire-IsValid now r.lane s.lane_valid) (active-acquire now r.lane) s.active_exact
      (ceiling-acquire now r.lane ∙ s.ceiling_kept)
step-IsSound (wakes now i) r s = wake_waiter-IsSound now i (get_elem? r.waiters i) r s
step-IsSound (cancels i) r s = record {
  ceiling_kept = s.ceiling_kept;
  lane_valid = s.lane_valid;
  active_exact = s.active_exact;
}
step-IsSound (leaves now i marks d allow) r s =
    leave_room-IsSound now i marks d allow (get_elem? r.leases i) r refl s
step-IsSound (presses reason) r s = record {
  ceiling_kept = ceiling-reduce_for_pressure reason r.lane ∙ s.ceiling_kept;
  lane_valid = reduce_for_pressure-IsValid reason r.lane s.lane_valid;
  active_exact = rw active-reduce_for_pressure s.active_exact;
}

run-IsSound : (es : List Event) {top : ℕ} (r : Room) → IsSound top r → IsSound top (run es r)
unfolding run
run-IsSound [] r s = s
run-IsSound (e ∷ es) r s = run-IsSound es (step e r) (step-IsSound e r s)

-- Whatever tasks enter, wake, are cancelled, fail or leave, in whatever order: the lane stays valid,
-- it counts exactly the leases that are held, and those are never more than its ceiling.
pub leases-le-ceiling :
    (now : ℕ) (kind : Kind) (o : LaneOptions) (es : List Event)
    → let r = run es (start (new_lane now kind o)) in
      IsValid r.lane
      × (r.lane.active ≡ length r.leases)
      × (length r.leases ≤ max 1 (pos_part o.ceiling))
leases-le-ceiling now kind o es =
    let s = run-IsSound es (start (new_lane now kind o)) (start-IsSound now kind o) in
    (
      s.lane_valid,
      s.active_exact,
      omega (arith, s.active_exact, s.ceiling_kept, s.lane_valid.active_capped),
    )
