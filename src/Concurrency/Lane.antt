-- ===== src/Concurrency/Lane.antt =====
-- `LaneLease` and `AdaptiveLane` of helper/concurrency.py. Times are whole milliseconds of the
-- lane's clock. A method takes the clock's reading, and returns the lane that it leaves and the
-- adjustments that it reports to the callback, in order.
pub mod Invariant
pub mod Circuit
pub mod Limits
pub mod Account
use metafusion.Prelude.{
  ℕ, zero, ◌+◌, ◌-◌, ◌/◌, min, max, String, Bool, true, false, not, ◌&&◌, ◌||◌, Option, none, some,
  List, [], ◌∷◌, ◌++◌, ltb, leb, ◌==◌, if◌then◌else◌, ℤ, pos, pos_part,
}

pub data Kind : Type 0 where
  item tmdb fanart plex nested other : Kind

-- `named` is any other text that a caller passes.
pub data Reason : Type 0 where
  rate_limit failure slow_response healthy_window resource_pressure circuit_closed : Reason
  circuit_open : ℕ → Reason
  named : String → Reason

pub record Adjustment : Type 0 where
  pub kind : Kind
  pub previous : ℕ
  pub current : ℕ
  pub reason : Reason

pub record LaneLease : Type 0 where
  pub half_open : Bool
  pub failed : Bool
  pub reason : Option Reason
  pub cooldown : ℕ
  pub immediate_open : Bool

unfoldable pub new_lease : Bool → LaneLease
new_lease half_open = record {
  half_open = half_open;
  failed = false;
  reason = none;
  cooldown = 0;
  immediate_open = false;
}

-- `LaneLease.failure`
unfoldable pub fail_lease : LaneLease → Reason → ℕ → Bool → LaneLease
fail_lease l reason cooldown immediate_open = record l {
  failed = true;
  reason = some reason;
  cooldown = max l.cooldown cooldown;
  immediate_open = l.immediate_open || immediate_open;
}

pub record AdaptiveLane : Type 0 where
  pub kind : Kind
  pub floor : ℕ
  pub ceiling : ℕ
  pub limit : ℕ
  pub healthy_window : ℕ
  pub failure_threshold : ℕ
  pub circuit_cooldown : ℕ
  pub active : ℕ
  pub healthy_count : ℕ
  pub consecutive_failures : ℕ
  pub open_until : ℕ
  pub half_open_active : Bool
  pub successes : ℕ
  pub failures : ℕ
  pub rejections : ℕ
  pub increases : ℕ
  pub decreases : ℕ
  pub slow_responses : ℕ
  pub total_duration : ℕ

-- `_HEALTHY_WINDOWS.get(kind, 12)`
unfoldable pub default_window : Kind → ℕ
default_window tmdb = 20
default_window fanart = 16
default_window _ = 12

-- `int(healthy_window or _HEALTHY_WINDOWS.get(self.kind, 12))`: 0 and `None` take the default.
unfoldable pub window_of : Kind → Option ℤ → ℕ
unfolding default_window
window_of kind none = default_window kind
window_of kind (some (pos zero)) = default_window kind
window_of kind (some z) = max 1 (pos_part z)

-- The arguments of `AdaptiveLane.__init__`, before it clamps them.
pub record LaneOptions : Type 0 where
  pub initial : ℤ
  pub ceiling : ℤ
  pub healthy_window : Option ℤ
  pub failure_threshold : ℤ
  pub circuit_cooldown : ℤ
  pub initial_failures : ℤ
  pub initial_cooldown : ℤ

-- `AdaptiveLane.__init__` at the clock's reading `now`.
unfoldable pub new_lane : ℕ → Kind → LaneOptions → AdaptiveLane
unfolding window_of
new_lane now kind o =
    let top = max 1 (pos_part o.ceiling) in
    record {
      kind = kind;
      floor = 1;
      ceiling = top;
      limit = max 1 (min top (pos_part o.initial));
      healthy_window = window_of kind o.healthy_window;
      failure_threshold = max 1 (pos_part o.failure_threshold);
      circuit_cooldown = max 1000 (pos_part o.circuit_cooldown);
      active = 0;
      healthy_count = 0;
      consecutive_failures = pos_part o.initial_failures;
      open_until =
          if ltb 0 (pos_part o.initial_cooldown) then now + pos_part o.initial_cooldown else 0;
      half_open_active = false;
      successes = 0;
      failures = 0;
      rejections = 0;
      increases = 0;
      decreases = 0;
      slow_responses = 0;
      total_duration = 0;
    }

-- `_notify_adjustment`: counts the change of the limit from `previous`, and reports it.
unfoldable pub notify_adjustment : ℕ → Reason → AdaptiveLane → AdaptiveLane × List Adjustment
notify_adjustment previous reason l =
    let event : List Adjustment =
      record { kind = l.kind; previous = previous; current = l.limit; reason = reason } ∷ [] in
    if previous == l.limit
    then (l, [])
    else if ltb previous l.limit
    then (record l { increases = l.increases + 1 }, event)
    else (record l { decreases = l.decreases + 1 }, event)

-- What a call of `acquire` comes to: a lease, a `CircuitOpenError` with its `retry_after`, or a
-- wait on the condition, which remembers whether the caller is the half-open probe.
pub data Acquired : Type 0 where
  granted : LaneLease → Acquired
  rejected : ℕ → Acquired
  waiting : Bool → Acquired

reject : ℕ → AdaptiveLane → AdaptiveLane × Acquired
reject retry_after l = (record l { rejections = l.rejections + 1 }, rejected retry_after)

-- The test of the `while` loop: wait, or take a slot.
take_slot : Bool → AdaptiveLane → AdaptiveLane × Acquired
unfolding new_lease
take_slot half_open l =
    if leb l.limit l.active
    then (l, waiting half_open)
    else (record l { active = l.active + 1 }, granted (new_lease half_open))

-- `acquire` up to its first wait.
unfoldable pub acquire : ℕ → AdaptiveLane → AdaptiveLane × Acquired
unfolding reject take_slot
acquire now l =
    if l.open_until == 0
    then take_slot false l
    else if ltb now l.open_until
    then reject (l.open_until - now) l
    else if l.half_open_active
    then reject 500 l
    else take_slot true (record l { half_open_active = true })

-- `acquire` from one wake-up to the next wait or to its end.
unfoldable pub wake : ℕ → Bool → AdaptiveLane → AdaptiveLane × Acquired
unfolding reject take_slot
wake now half_open l =
    if ltb 0 l.open_until && ltb now l.open_until
    then reject (l.open_until - now) l
    else take_slot half_open l

-- `reason or "failure"`, where no reason is the empty text.
abbrev reason_or_failure : Option Reason → Reason
reason_or_failure none = failure
reason_or_failure (some r) = r

abbrev is_rate_limit : Option Reason → Bool
is_rate_limit (some rate_limit) = true
is_rate_limit _ = false

-- The new limit after a failure: half, rounded up, for a rate limit; one less from the second
-- failure in a row.
failed_limit : LaneLease → AdaptiveLane → ℕ
failed_limit lease l =
    if is_rate_limit lease.reason
    then max l.floor ((l.limit + 1) / 2)
    else if leb 2 l.consecutive_failures
    then max l.floor (l.limit - 1)
    else l.limit

abbrev pub should_open : LaneLease → AdaptiveLane → Bool
should_open lease l =
    lease.immediate_open || lease.half_open || leb l.failure_threshold l.consecutive_failures

-- `lease.cooldown or self.circuit_cooldown`
abbrev pub cooldown_of : LaneLease → AdaptiveLane → ℕ
cooldown_of lease l = if lease.cooldown == 0 then l.circuit_cooldown else lease.cooldown

-- The end of the failure branch: open the circuit if it should.
open_circuit : ℕ → LaneLease → AdaptiveLane → AdaptiveLane × List Adjustment
open_circuit now lease l =
    if should_open lease l
    then (
      record l {
        open_until = max l.open_until (now + cooldown_of lease l);
        half_open_active = false;
      },
      record {
        kind = l.kind;
        previous = l.limit;
        current = l.limit;
        reason = circuit_open (cooldown_of lease l);
      }
          ∷ [],
    )
    else (l, [])

-- The failure branch of `release`.
unfoldable pub release_failed : ℕ → LaneLease → AdaptiveLane → AdaptiveLane × List Adjustment
unfolding notify_adjustment failed_limit open_circuit
release_failed now lease l =
    let counted = record l {
      failures = l.failures + 1;
      healthy_count = 0;
      consecutive_failures = l.consecutive_failures + 1;
    } in
    let lowered = record counted { limit = failed_limit lease counted } in
    let (notified, events) = notify_adjustment l.limit (reason_or_failure lease.reason) lowered in
    let (final, opened) = open_circuit now lease notified in (final, events ++ opened)

-- `self.kind == "plex" and float(duration) >= 5.0`
abbrev pub is_slow : Kind → ℕ → Bool
is_slow plex duration = leb 5000 duration
is_slow _ duration = false

slow_down : Bool → AdaptiveLane → AdaptiveLane × List Adjustment
unfolding notify_adjustment
slow_down slow l =
    if slow
    then notify_adjustment l.limit slow_response (record l {
      slow_responses = l.slow_responses + 1;
      limit = max l.floor (l.limit - 1);
      healthy_count = 0;
    })
    else (l, [])

close_circuit : LaneLease → AdaptiveLane → AdaptiveLane × List Adjustment
close_circuit lease l =
    if lease.half_open
    then (
      record l { open_until = 0; half_open_active = false },
      record { kind = l.kind; previous = l.limit; current = l.limit; reason = circuit_closed } ∷ [],
    )
    else (l, [])

speed_up : Bool → AdaptiveLane → AdaptiveLane × List Adjustment
unfolding notify_adjustment
speed_up allowed l =
    if allowed && ltb l.limit l.ceiling
    then if leb l.healthy_window (l.healthy_count + 1)
      then notify_adjustment l.limit healthy_window
          (record l { limit = l.limit + 1; healthy_count = 0 })
      else (record l { healthy_count = l.healthy_count + 1 }, [])
    else (l, [])

-- The success branch of `release`.
unfoldable pub release_healthy :
    LaneLease → ℕ → Bool → AdaptiveLane → AdaptiveLane × List Adjustment
unfolding slow_down close_circuit speed_up
release_healthy lease duration allow_increase l =
    let slow = is_slow l.kind duration in
    let counted = record l { successes = l.successes + 1; consecutive_failures = 0 } in
    let (slowed, slow_events) = slow_down slow counted in
    let (closed, close_events) = close_circuit lease slowed in
    let (final, grow_events) = speed_up (allow_increase && not slow) closed in
    (final, slow_events ++ close_events ++ grow_events)

-- How `release` begins. (`max(0, active - 1)` is the subtraction of the natural numbers.)
unfoldable pub free_slot : ℕ → AdaptiveLane → AdaptiveLane
free_slot duration l = record l {
  active = l.active - 1;
  total_duration = l.total_duration + duration;
}

-- `release`
unfoldable pub release : ℕ → LaneLease → ℕ → Bool → AdaptiveLane → AdaptiveLane × List Adjustment
release now lease duration allow_increase l =
    if lease.failed
    then release_failed now lease (free_slot duration l)
    else release_healthy lease duration allow_increase (free_slot duration l)

-- `reduce_for_pressure`
unfoldable pub reduce_for_pressure : Reason → AdaptiveLane → AdaptiveLane × List Adjustment
unfolding notify_adjustment
reduce_for_pressure reason l =
    notify_adjustment l.limit reason
      (record l { limit = max l.floor (l.limit - 1); healthy_count = 0 })
