-- ===== src/Concurrency/Room/Lockout.antt =====
-- The half-open probe of a lane: when its flag has an owner, and what a cancelled waiter leaves.
use metafusion.Concurrency.Lane.{
  acquire, reduce_for_pressure, release, Reason, AdaptiveLane, release_healthy, LaneLease, rejected,
  Acquired, free_slot, granted, waiting,
}
use metafusion.Concurrency.Room.{
  Room, settle, step, run, Event, enters, wakes, cancels, leaves, presses,
}
use metafusion.Prelude.{
  ◌-◌, ◌<◌, ◌≡◌, ◌∙◌, ◌∷◌, refl, [], true, ℕ, List, arith, Bool, Bool-cases, false, ltb, inl, inr,
}

-- The half-open flag is set, the circuit has been opened, and no task is left that would clear it.
pub record IsStuck (r : Room) : Type 0 where
  pub flagged : r.lane.half_open_active ≡ true
  pub opened : 0 < r.lane.open_until
  pub no_leases : r.leases ≡ []
  pub no_waiters : r.waiters ≡ []

acquire_flagged :
    (now : ℕ) (l : AdaptiveLane)
    → l.half_open_active ≡ true
    → 0 < l.open_until
    → (w : ℕ) × ((acquire now l).1 ≡ rejected w)
unfolding acquire
acquire_flagged now l f o = elim (Bool-cases (ltb now l.open_until)) [
  | inl e ↦ (l.open_until - now, ground arith)
  | inr e ↦ (500, ground arith)
]

acquire_keeps_flag :
    (now : ℕ) (l : AdaptiveLane)
    → l.half_open_active ≡ true
    → 0 < l.open_until
    → ((acquire now l).0.half_open_active ≡ true) × (0 < (acquire now l).0.open_until)
unfolding acquire
acquire_keeps_flag now l f o = ground arith

press_keeps_flag :
    (r : Reason) (l : AdaptiveLane)
    → ((reduce_for_pressure r l).0.half_open_active ≡ l.half_open_active)
      × ((reduce_for_pressure r l).0.open_until ≡ l.open_until)
unfolding reduce_for_pressure
press_keeps_flag r l = ground arith

settle_rejected :
    (l : AdaptiveLane) (a : Acquired) (leases : List LaneLease) (waiters : List Bool) {w : ℕ}
    → a ≡ rejected w
    → settle (l, a) leases waiters ≡ record { lane = l; leases = leases; waiters = waiters }
unfolding settle
settle_rejected l (granted _) leases waiters e = cc
settle_rejected l (rejected _) leases waiters e = refl
settle_rejected l (waiting _) leases waiters e = cc

step-IsStuck : (e : Event) (r : Room) → IsStuck r → IsStuck (step e r)
unfolding step
step-IsStuck (enters now) r s =
    let (w, e) = acquire_flagged now r.lane s.flagged s.opened in
    let (f, o) = acquire_keeps_flag now r.lane s.flagged s.opened in
    rw (settle_rejected (acquire now r.lane).0 (acquire now r.lane).1 r.leases r.waiters e)
      (record { flagged = f; opened = o; no_leases = s.no_leases; no_waiters = s.no_waiters })
step-IsStuck (wakes now i) r s = simp s.no_waiters s
step-IsStuck (cancels i) r s = record {
  flagged = s.flagged;
  opened = s.opened;
  no_leases = s.no_leases;
  no_waiters = rw s.no_waiters;
}
step-IsStuck (leaves now i marks d allow) r s = simp s.no_leases s
step-IsStuck (presses reason) r s =
    let (f, o) = press_keeps_flag reason r.lane in
    record {
      flagged = f ∙ s.flagged;
      opened = rw o s.opened;
      no_leases = s.no_leases;
      no_waiters = s.no_waiters;
    }

-- A stuck lane stays stuck: whatever comes, and however late, no task gets a lease again.
pub IsStuck-run : (es : List Event) (r : Room) → IsStuck r → IsStuck (run es r)
unfolding run
IsStuck-run [] r s = s
IsStuck-run (e ∷ es) r s = IsStuck-run es (step e r) (step-IsStuck e r s)

leave_quietly :
    (now d : ℕ) (allow : Bool) (lease : LaneLease) (l : AdaptiveLane)
    → lease.failed ≡ false
    → lease.half_open ≡ false
    → ((release now lease d allow l).0.half_open_active ≡ l.half_open_active)
      × ((release now lease d allow l).0.open_until ≡ l.open_until)
unfolding release release_healthy free_slot
leave_quietly now d allow lease l f h = ground arith

-- One task holds the only lease, and one waits for it as the half-open probe.
abbrev pub probe_waits : AdaptiveLane → LaneLease → Room
probe_waits l lease = record { lane = l; leases = lease ∷ []; waiters = true ∷ [] }

-- The half-open probe waits for the one slot in use and is cancelled. When the task in that slot
-- has ended well, the lane is stuck: every later task is refused, for ever.
pub cancelled_probe_locks_out :
    (l : AdaptiveLane) (lease : LaneLease) (now d : ℕ) (allow : Bool) (es : List Event)
    → l.half_open_active ≡ true
    → 0 < l.open_until
    → lease.failed ≡ false
    → lease.half_open ≡ false
    → IsStuck (run (cancels 0 ∷ leaves now 0 [] d allow ∷ es) (probe_waits l lease))
unfolding run step
cancelled_probe_locks_out l lease now d allow es f o nf nh =
    let (f', o') = leave_quietly now d allow lease l nf nh in
    IsStuck-run es _
      (record { flagged = f' ∙ f; opened = rw o' o; no_leases = refl; no_waiters = refl })
