-- ===== src/Concurrency/Controller.antt =====
-- `AdaptiveConcurrencyController` of helper/concurrency.py: the five lanes and the pressure probe.
-- A percentage is in thousandths of a percent, rounded down. `reading` is what the probe returns
-- (`none` where it raises one of the caught errors); a missing entry is 0.
pub mod Effects
use metafusion.Concurrency.Lane.{
  AdaptiveLane, Kind, LaneLease, item, Adjustment, tmdb, release, fanart, nested, plex,
  reduce_for_pressure, other, resource_pressure, new_lane,
}
use metafusion.Concurrency.Resources.{RuntimeResources, concurrency_ceiling, lane_kind}
use metafusion.Prelude.{
  if◌then◌else◌, ◌+◌, ◌&&◌, ◌++◌, ℕ, ℤ, pos, Bool, Option, List, true, leb, some, pos_part, false,
  max, [], not, none, min,
}

pub record Pressure : Type 0 where
  pub cpu_percent : ℕ
  pub memory_percent : ℕ

pub record Lanes : Type 0 where
  pub item_lane : AdaptiveLane
  pub tmdb_lane : AdaptiveLane
  pub fanart_lane : AdaptiveLane
  pub plex_lane : AdaptiveLane
  pub nested_lane : AdaptiveLane

pub record Controller : Type 0 where
  pub pressure_interval : ℕ
  pub last_pressure_check : ℕ
  pub last_pressure : Pressure
  pub adjustments : List Adjustment
  pub lanes : Lanes

-- What is saved of a provider between jobs.
pub record Health : Type 0 where
  pub consecutive_failures : ℤ
  pub cooldown : ℤ

abbrev no_health : Health
no_health = record { consecutive_failures = pos 0; cooldown = pos 0 }

-- One round of the loop of `__init__`.
controller_lane :
    ℕ
    → Option ℤ
    → RuntimeResources
    → (Kind → Option ℤ)
    → (Kind → Option Health)
    → Kind
    → AdaptiveLane
controller_lane now config r windows health kind =
    let ceiling = concurrency_ceiling config (lane_kind kind) r in
    let saved : Health = elim (health kind) [ none ↦ no_health | some h ↦ h ] in
    new_lane now kind (record {
      initial = pos (min 4 ceiling);
      ceiling = pos ceiling;
      healthy_window = windows kind;
      failure_threshold = pos 5;
      circuit_cooldown = pos 30000;
      initial_failures = saved.consecutive_failures;
      initial_cooldown = saved.cooldown;
    })

unfoldable pub new_controller :
    ℕ → ℤ → Option ℤ → RuntimeResources → (Kind → Option ℤ) → (Kind → Option Health) → Controller
unfolding controller_lane
new_controller now interval config r windows health =
    let make = λ (k : Kind). controller_lane now config r windows health k in
    record {
      pressure_interval = pos_part interval;
      last_pressure_check = now;
      last_pressure = record { cpu_percent = 0; memory_percent = 0 };
      adjustments = [];
      lanes = record {
        item_lane = make item;
        tmdb_lane = make tmdb;
        fanart_lane = make fanart;
        plex_lane = make plex;
        nested_lane = make nested;
      };
    }

-- `lane`: an unknown kind is served by the nested lane.
abbrev pub lane_for : Kind → Lanes → AdaptiveLane
lane_for item ls = ls.item_lane
lane_for tmdb ls = ls.tmdb_lane
lane_for fanart ls = ls.fanart_lane
lane_for plex ls = ls.plex_lane
lane_for nested ls = ls.nested_lane
lane_for other ls = ls.nested_lane

-- The lane object of a kind after one of its methods.
abbrev pub set_lane : Kind → AdaptiveLane → Lanes → Lanes
set_lane item l ls = record ls { item_lane = l }
set_lane tmdb l ls = record ls { tmdb_lane = l }
set_lane fanart l ls = record ls { fanart_lane = l }
set_lane plex l ls = record ls { plex_lane = l }
set_lane nested l ls = record ls { nested_lane = l }
set_lane other l ls = record ls { nested_lane = l }

abbrev checks_pressure : Kind → Bool
checks_pressure item = true
checks_pressure nested = true
checks_pressure _ = false

abbrev pub pressured : Pressure → Bool
pressured p = leb 90000 (max p.cpu_percent p.memory_percent)

abbrev reading_or_none : Option Pressure → Pressure
reading_or_none none = record { cpu_percent = 0; memory_percent = 0 }
reading_or_none (some p) = p

-- `now - last_pressure_check >= pressure_interval`, on a clock that does not go back
abbrev pub pressure_due : ℕ → Kind → Controller → Bool
pressure_due now kind c =
    checks_pressure kind && leb (c.last_pressure_check + c.pressure_interval) now

-- The probe, where it is due.
unfoldable pub check_pressure : ℕ → Kind → Option Pressure → Controller → Controller
check_pressure now kind reading c =
    if pressure_due now kind c
    then record c { last_pressure_check = now; last_pressure = reading_or_none reading }
    else c

-- The two calls of the lane.
unfoldable pub release_lane :
    ℕ → LaneLease → ℕ → Bool → Bool → AdaptiveLane → AdaptiveLane × List Adjustment
release_lane now lease duration checked high l =
    let (released, events) = release now lease duration (not high) l in
    if checked && high
    then (
      (reduce_for_pressure resource_pressure released).0,
      events ++ (reduce_for_pressure resource_pressure released).1,
    )
    else (released, events)

-- `release`: `lane_now` is the lane's own reading of the clock.
unfoldable pub release_slot :
    ℕ → ℕ → Kind → LaneLease → ℕ → Option Pressure → Controller → Controller
unfolding check_pressure release_lane
release_slot now lane_now kind lease duration reading c =
    let checked = check_pressure now kind reading c in
    let (l, events) =
      release_lane lane_now lease duration (pressure_due now kind c)
        (pressured checked.last_pressure) (lane_for kind c.lanes) in
    record checked { lanes = set_lane kind l c.lanes; adjustments = c.adjustments ++ events }
