-- ===== src/Concurrency/Room.antt =====
-- `runtime_slot` of helper/concurrency.py, many times at once: the tasks that share one lane, as a
-- sequence of the moments at which they hold the lane's lock. A task that waits in `acquire` is in
-- `waiters` (with its half-open flag), one that runs its body is in `leases`.
pub mod Invariant
pub mod Lockout
pub mod Probe
use mathlib.Core.List.{foldl}
use metafusion.Concurrency.Lane.{
  Reason, LaneLease, fail_lease, AdaptiveLane, Acquired, granted, rejected, waiting, acquire, wake,
  release, reduce_for_pressure,
}
use metafusion.Prelude.{ℕ, zero, suc, Bool, Option, none, some, List, [], ◌∷◌, ◌++◌, get_elem?}

-- One call of `lease.failure` by the body, or by the handler of an exception.
pub record Mark : Type 0 where
  pub reason : Reason
  pub cooldown : ℕ
  pub immediate_open : Bool

unfoldable pub mark_lease : LaneLease → Mark → LaneLease
mark_lease l m = fail_lease l m.reason m.cooldown m.immediate_open

pub record Room : Type 0 where
  pub lane : AdaptiveLane
  pub leases : List LaneLease
  pub waiters : List Bool

-- `wakes` and `cancels` name a waiter by its place, `leaves` a lease.
pub data Event : Type 0 where
  enters : ℕ → Event
  wakes : ℕ → ℕ → Event
  cancels : ℕ → Event
  leaves : ℕ → ℕ → List Mark → ℕ → Bool → Event
  presses : Reason → Event

abbrev pub remove_at {ℓ} : {A : Type ℓ} → ℕ → List A → List A
remove_at i [] = []
remove_at zero (x ∷ xs) = xs
remove_at (suc i) (x ∷ xs) = x ∷ remove_at i xs

-- Where a call of `acquire` has come to.
unfoldable pub settle : AdaptiveLane × Acquired → List LaneLease → List Bool → Room
settle (l, granted lease) leases waiters = record {
  lane = l;
  leases = lease ∷ leases;
  waiters = waiters;
}
settle (l, rejected _) leases waiters = record { lane = l; leases = leases; waiters = waiters }
settle (l, waiting half_open) leases waiters = record {
  lane = l;
  leases = leases;
  waiters = waiters ++ half_open ∷ [];
}

unfoldable pub wake_waiter : ℕ → ℕ → Option Bool → Room → Room
unfolding settle
wake_waiter now i none r = r
wake_waiter now i (some half_open) r =
    settle (wake now half_open r.lane) r.leases (remove_at i r.waiters)

-- The body marks its lease, and `finally` releases it.
unfoldable pub leave_room : ℕ → ℕ → List Mark → ℕ → Bool → Option LaneLease → Room → Room
unfolding mark_lease
leave_room now i marks duration allow none r = r
leave_room now i marks duration allow (some lease) r = record r {
  lane = (release now (foldl mark_lease lease marks) duration allow r.lane).0;
  leases = remove_at i r.leases;
}

unfoldable pub step : Event → Room → Room
unfolding settle wake_waiter leave_room
step (enters now) r = settle (acquire now r.lane) r.leases r.waiters
step (wakes now i) r = wake_waiter now i (get_elem? r.waiters i) r
step (cancels i) r = record r { waiters = remove_at i r.waiters }
step (leaves now i marks duration allow) r =
    leave_room now i marks duration allow (get_elem? r.leases i) r
step (presses reason) r = record r { lane = (reduce_for_pressure reason r.lane).0 }

unfoldable pub run : List Event → Room → Room
unfolding step
run [] r = r
run (e ∷ es) r = run es (step e r)

unfoldable pub start : AdaptiveLane → Room
start l = record { lane = l; leases = []; waiters = [] }
