-- ===== src/Concurrency/Controller/Effects.antt =====
-- How pressure on the machine reaches the lanes.
use metafusion.Concurrency.Controller.{
  Lanes, release_lane, release_slot, new_controller, Controller, lane_for, set_lane, Pressure,
  Health, pressure_due, pressured, check_pressure,
}
use metafusion.Concurrency.Lane.{
  Kind, AdaptiveLane, LaneLease, item, tmdb, fanart, plex, nested, Adjustment, other,
  resource_pressure, release, reduce_for_pressure, release_failed, Reason, release_healthy,
  free_slot,
}
use metafusion.Concurrency.Lane.Invariant.{
  IsValid, release-IsValid, new_lane-IsValid, reduce_for_pressure-IsValid,
}
use metafusion.Concurrency.Resources.{RuntimeResources}
use metafusion.Prelude.{
  ◌-◌, ◌≤◌, ◌≡◌, ◌&&◌, ℕ, ℤ, Bool, Option, true, not, max, if_rule, List, arith, false,
}

pub record AllValid (ls : Lanes) : Type 0 where
  pub item_valid : IsValid ls.item_lane
  pub tmdb_valid : IsValid ls.tmdb_lane
  pub fanart_valid : IsValid ls.fanart_lane
  pub plex_valid : IsValid ls.plex_lane
  pub nested_valid : IsValid ls.nested_lane

lane_for-IsValid : (k : Kind) (ls : Lanes) → AllValid ls → IsValid (lane_for k ls)
lane_for-IsValid item ls v = v.item_valid
lane_for-IsValid tmdb ls v = v.tmdb_valid
lane_for-IsValid fanart ls v = v.fanart_valid
lane_for-IsValid plex ls v = v.plex_valid
lane_for-IsValid nested ls v = v.nested_valid
lane_for-IsValid other ls v = v.nested_valid

set_lane-AllValid :
    (k : Kind) (l : AdaptiveLane) (ls : Lanes)
    → IsValid l
    → AllValid ls
    → AllValid (set_lane k l ls)
set_lane-AllValid item l ls h v = record {
  item_valid = h;
  tmdb_valid = v.tmdb_valid;
  fanart_valid = v.fanart_valid;
  plex_valid = v.plex_valid;
  nested_valid = v.nested_valid;
}
set_lane-AllValid tmdb l ls h v = record {
  item_valid = v.item_valid;
  tmdb_valid = h;
  fanart_valid = v.fanart_valid;
  plex_valid = v.plex_valid;
  nested_valid = v.nested_valid;
}
set_lane-AllValid fanart l ls h v = record {
  item_valid = v.item_valid;
  tmdb_valid = v.tmdb_valid;
  fanart_valid = h;
  plex_valid = v.plex_valid;
  nested_valid = v.nested_valid;
}
set_lane-AllValid plex l ls h v = record {
  item_valid = v.item_valid;
  tmdb_valid = v.tmdb_valid;
  fanart_valid = v.fanart_valid;
  plex_valid = h;
  nested_valid = v.nested_valid;
}
set_lane-AllValid _ l ls h v = record {
  item_valid = v.item_valid;
  tmdb_valid = v.tmdb_valid;
  fanart_valid = v.fanart_valid;
  plex_valid = v.plex_valid;
  nested_valid = h;
}

release_lane-IsValid :
    (now : ℕ) (lease : LaneLease) (d : ℕ) (checked high : Bool) (l : AdaptiveLane)
    → IsValid l
    → IsValid (release_lane now lease d checked high l).0
unfolding release_lane
release_lane-IsValid now lease d checked high l v =
    let v' = release-IsValid now lease d (not high) l v in
    if_rule (λ (r : AdaptiveLane × List Adjustment). IsValid r.0) (checked && high)
      (λ _. reduce_for_pressure-IsValid resource_pressure _ v') (λ _. v')

-- A new controller's lanes are valid, and every release through the controller, under whatever
-- pressure, keeps all five so.
pub controller-AllValid :
    (c : Controller) (now lane_now : ℕ) (k : Kind) (lease : LaneLease) (d : ℕ)
    (reading : Option Pressure)
    → AllValid c.lanes
    → AllValid (release_slot now lane_now k lease d reading c).lanes
unfolding release_slot
controller-AllValid c now lane_now k lease d reading v =
    set_lane-AllValid k _ c.lanes
      (release_lane-IsValid lane_now lease d (pressure_due now k c)
        (pressured (check_pressure now k reading c).last_pressure) (lane_for k c.lanes)
        (lane_for-IsValid k c.lanes v))
      v

pub new_controller-AllValid :
    (now : ℕ) (interval : ℤ) (config : Option ℤ) (r : RuntimeResources) (windows : Kind → Option ℤ)
    (health : Kind → Option Health)
    → AllValid (new_controller now interval config r windows health).lanes
unfolding new_controller
new_controller-AllValid now interval config r windows health = record {
  item_valid = new_lane-IsValid now item _;
  tmdb_valid = new_lane-IsValid now tmdb _;
  fanart_valid = new_lane-IsValid now fanart _;
  plex_valid = new_lane-IsValid now plex _;
  nested_valid = new_lane-IsValid now nested _;
}

unpressed_release :
    (now : ℕ) (lease : LaneLease) (d : ℕ) (l : AdaptiveLane)
    → IsValid l
    → (release now lease d false l).0.limit ≤ l.limit
unfolding release release_failed release_healthy free_slot
unpressed_release now lease d l v = ground arith

reduced_limit :
    (r : Reason) (l : AdaptiveLane) → (reduce_for_pressure r l).0.limit ≡ max l.floor (l.limit - 1)
unfolding reduce_for_pressure
reduced_limit r l = ground arith

reduced_bounds : (n m k : ℕ) → n ≡ max 1 (m - 1) → m ≤ k → 1 ≤ k → (n ≤ k) × (n ≤ max 1 (k - 1))
reduced_bounds n m k e h p = omega arith

-- Under pressure a valid lane gives no slot more; where the probe has just said so, it gives one
-- slot less than it had, down to one.
pub pressure-lowers-limit :
    (now : ℕ) (lease : LaneLease) (d : ℕ) (checked : Bool) (l : AdaptiveLane)
    → IsValid l
    → let l' = (release_lane now lease d checked true l).0 in
      (l'.limit ≤ l.limit) × (checked ≡ true → l'.limit ≤ max 1 (l.limit - 1))
unfolding release_lane
pressure-lowers-limit now lease d true l v =
    let v' = release-IsValid now lease d false l v in
    let e = reduced_limit resource_pressure (release now lease d false l).0 in
    let (a, b) =
      reduced_bounds _ _ _ (rw v'.floor_one at e) (unpressed_release now lease d l v) v.limit_low in
    (a, λ _. b)
pressure-lowers-limit now lease d false l v = (unpressed_release now lease d l v, λ h. cc)
