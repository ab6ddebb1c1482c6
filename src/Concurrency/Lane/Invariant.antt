-- ===== src/Concurrency/Lane/Invariant.antt =====
-- What holds of an `AdaptiveLane` between two of its methods.
use metafusion.Concurrency.Lane.{
  AdaptiveLane, LaneLease, LaneOptions, Kind, Reason, new_lane, acquire, wake, release_failed,
  release_healthy, reduce_for_pressure, release, free_slot, Adjustment,
}
use metafusion.Prelude.{ℕ, ◌≤◌, ◌<◌, ◌-◌, Bool, ◌≡◌, arith, if_rule, List}

pub record IsValid (l : AdaptiveLane) : Type 0 where
  pub floor_one : l.floor ≡ 1
  pub limit_low : 1 ≤ l.limit
  pub limit_high : l.limit ≤ l.ceiling
  pub count_below_window : l.healthy_count < l.healthy_window
  pub active_capped : l.active ≤ l.ceiling
  pub threshold_low : 1 ≤ l.failure_threshold
  pub cooldown_low : 1000 ≤ l.circuit_cooldown

-- Whatever the arguments, a new lane is valid.
pub new_lane-IsValid : (now : ℕ) (kind : Kind) (o : LaneOptions) → IsValid (new_lane now kind o)
unfolding new_lane
new_lane-IsValid now kind o = ground arith

pub acquire-IsValid : (now : ℕ) (l : AdaptiveLane) → IsValid l → IsValid (acquire now l).0
unfolding acquire
acquire-IsValid now l v = ground arith

pub wake-IsValid :
    (now : ℕ) (half_open : Bool) (l : AdaptiveLane) → IsValid l → IsValid (wake now half_open l).0
unfolding wake
wake-IsValid now half_open l v = ground arith

pub reduce_for_pressure-IsValid :
    (r : Reason) (l : AdaptiveLane) → IsValid l → IsValid (reduce_for_pressure r l).0
unfolding reduce_for_pressure
reduce_for_pressure-IsValid r l v = ground arith

release_failed-IsValid :
    (now : ℕ) (lease : LaneLease) (l : AdaptiveLane)
    → IsValid l
    → IsValid (release_failed now lease l).0
unfolding release_failed
release_failed-IsValid now lease l v = ground arith

release_healthy-IsValid :
    (lease : LaneLease) (d : ℕ) (allow : Bool) (l : AdaptiveLane)
    → IsValid l
    → IsValid (release_healthy lease d allow l).0
unfolding release_healthy
release_healthy-IsValid lease d allow l v = ground arith

pub free_slot-IsValid : (d : ℕ) (l : AdaptiveLane) → IsValid l → IsValid (free_slot d l)
unfolding free_slot
free_slot-IsValid d l v = ground arith

-- Every release, failed or not, keeps a lane valid.
pub release-IsValid :
    (now : ℕ) (lease : LaneLease) (d : ℕ) (allow : Bool) (l : AdaptiveLane)
    → IsValid l
    → IsValid (release now lease d allow l).0
unfolding release
release-IsValid now lease d allow l v =
    if_rule (λ (r : AdaptiveLane × List Adjustment). IsValid r.0) lease.failed
      (λ _. release_failed-IsValid now lease (free_slot d l) (free_slot-IsValid d l v))
      (λ _. release_healthy-IsValid lease d allow (free_slot d l) (free_slot-IsValid d l v))

-- Each change of the active count: a grant adds one, a release takes one.
pub active-release :
    (now : ℕ) (lease : LaneLease) (d : ℕ) (allow : Bool) (l : AdaptiveLane)
    → (release now lease d allow l).0.active ≡ l.active - 1
unfolding release release_failed release_healthy free_slot
active-release now lease d allow l = ground arith

pub active-reduce_for_pressure :
    (r : Reason) (l : AdaptiveLane) → (reduce_for_pressure r l).0.active ≡ l.active
unfolding reduce_for_pressure
active-reduce_for_pressure r l = ground arith

pub ceiling-release :
    (now : ℕ) (lease : LaneLease) (d : ℕ) (allow : Bool) (l : AdaptiveLane)
    → (release now lease d allow l).0.ceiling ≡ l.ceiling
unfolding release release_failed release_healthy free_slot
ceiling-release now lease d allow l = ground arith

pub ceiling-reduce_for_pressure :
    (r : Reason) (l : AdaptiveLane) → (reduce_for_pressure r l).0.ceiling ≡ l.ceiling
unfolding reduce_for_pressure
ceiling-reduce_for_pressure r l = ground arith

pub ceiling-acquire : (now : ℕ) (l : AdaptiveLane) → (acquire now l).0.ceiling ≡ l.ceiling
unfolding acquire
ceiling-acquire now l = ground arith

pub ceiling-wake : (now : ℕ) (h : Bool) (l : AdaptiveLane) → (wake now h l).0.ceiling ≡ l.ceiling
unfolding wake
ceiling-wake now h l = ground arith
