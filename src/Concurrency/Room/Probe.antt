-- ===== src/Concurrency/Room/Probe.antt =====
-- While no waiter is cancelled and the clock does not go back, the half-open flag has an owner.
use mathlib.Core.List.{foldl}
use metafusion.Concurrency.Lane.{
  LaneLease, release, fail_lease, acquire, wake, release_failed, reduce_for_pressure, Kind,
  release_healthy, Reason, LaneOptions, free_slot, AdaptiveLane, new_lane,
}
use metafusion.Concurrency.Room.{
  Room, mark_lease, step, wake_waiter, leave_room, run, Event, Mark, enters, presses, start, wakes,
  remove_at, cancels, leaves,
}
use metafusion.Prelude.{
  ◌≤◌, ◌≡◌, ◌||◌, ◌∷◌, ◌++◌, refl, [], Bool, ℕ, any, true, List, arith, get_elem?, Option, some,
  false, none, suc, zero,
}

abbrev pub is_probe : LaneLease → Bool
is_probe lease = lease.half_open

abbrev self : Bool → Bool
self b = b

-- Some task in the room is a half-open probe.
abbrev pub has_probe : Room → Bool
has_probe r = any is_probe r.leases || any self r.waiters

-- At the clock's reading `now`.
pub record IsOwned (now : ℕ) (r : Room) : Type 0 where
  pub owner : r.lane.half_open_active ≡ true → has_probe r ≡ true
  pub elapsed : r.lane.half_open_active ≡ true → r.lane.open_until ≤ now

-- The events of a run that cancels nobody, on a clock that reads at least `now`.
abbrev pub Ordered : ℕ → List Event → Type 0
Ordered now [] = Unit
Ordered now (enters t ∷ es) = (now ≤ t) × Ordered t es
Ordered now (wakes t i ∷ es) = (now ≤ t) × Ordered t es
Ordered now (cancels i ∷ es) = ⊥
Ordered now (leaves t i marks d allow ∷ es) = (now ≤ t) × Ordered t es
Ordered now (presses r ∷ es) = Ordered now es

any-append {ℓ} :
    {A : Type ℓ} (p : A → Bool) (xs ys : List A) → any p (xs ++ ys) ≡ (any p xs || any p ys)
any-append p [] ys = refl
any-append p (x ∷ xs) ys = ground (arith, any-append p xs ys)

any-remove_at {ℓ} :
    {A : Type ℓ} (p : A → Bool) (xs : List A) (i : ℕ) {x : A}
    → get_elem? xs i ≡ some x
    → any p xs ≡ (p x || any p (remove_at i xs))
any-remove_at p [] i h = cc
any-remove_at p (y ∷ xs) zero h = cc
any-remove_at p (y ∷ xs) (suc i) h = ground (arith, any-remove_at p xs i h)

half_open-marks :
    (marks : List Mark) (lease : LaneLease)
    → (foldl mark_lease lease marks).half_open ≡ lease.half_open
unfolding mark_lease fail_lease
half_open-marks [] lease = refl
half_open-marks (m ∷ marks) lease = half_open-marks marks (mark_lease lease m)

enter-IsOwned : (now t : ℕ) (r : Room) → now ≤ t → IsOwned now r → IsOwned t (step (enters t) r)
unfolding step acquire
enter-IsOwned now t r le o =
    ground (arith, any-append self r.waiters (true ∷ []), any-append self r.waiters (false ∷ []))

wake-IsOwned :
    (now t i : ℕ) (w : Option Bool) (r : Room)
    → get_elem? r.waiters i ≡ w
    → now ≤ t
    → IsOwned now r
    → IsOwned t (wake_waiter t i w r)
unfolding wake_waiter wake
wake-IsOwned now t i none r e le o = ground arith
wake-IsOwned now t i (some b) r e le o =
    ground
      (arith, any-remove_at self r.waiters i e, any-append self (remove_at i r.waiters) (b ∷ []))

release_owned :
    (t d : ℕ) (allow : Bool) (lease : LaneLease) (l : AdaptiveLane)
    → (release t lease d allow l).0.half_open_active ≡ true
    → (l.half_open_active ≡ true)
      × ((release t lease d allow l).0.open_until ≡ l.open_until)
      × (lease.half_open ≡ false)
unfolding release release_failed release_healthy free_slot
release_owned t d allow lease l f = ground arith

leave-IsOwned :
    (now t i : ℕ) (marks : List Mark) (d : ℕ) (allow : Bool) (o : Option LaneLease) (r : Room)
    → get_elem? r.leases i ≡ o
    → now ≤ t
    → IsOwned now r
    → IsOwned t (leave_room t i marks d allow o r)
unfolding leave_room
leave-IsOwned now t i marks d allow none r e le o = ground arith
leave-IsOwned now t i marks d allow (some lease) r e le o = record {
  owner = λ f.
      let (f', _, h) = release_owned t d allow (foldl mark_lease lease marks) r.lane f in
      ground
        (arith, half_open-marks marks lease, any-remove_at is_probe r.leases i e, o.owner f', h);
  elapsed = λ f.
      let (f', same, _) = release_owned t d allow (foldl mark_lease lease marks) r.lane f in
      omega (arith, same, o.elapsed f');
}

press-IsOwned : (now : ℕ) (p : Reason) (r : Room) → IsOwned now r → IsOwned now (step (presses p) r)
unfolding step reduce_for_pressure
press-IsOwned now p r o = ground arith

owned_run :
    (es : List Event) (now : ℕ) (r : Room)
    → Ordered now es
    → IsOwned now r
    → (run es r).lane.half_open_active ≡ true
    → has_probe (run es r) ≡ true
unfolding run
owned_run [] now r os o f = o.owner f
owned_run (enters t ∷ es) now r os o f =
    owned_run es t (step (enters t) r) os.1 (enter-IsOwned now t r os.0 o) f
owned_run (wakes t i ∷ es) now r os o f =
    owned_run es t (step (wakes t i) r) os.1
      (unfold step in wake-IsOwned now t i (get_elem? r.waiters i) r refl os.0 o) f
owned_run (cancels i ∷ es) now r os o f = absurd os
owned_run (leaves t i marks d allow ∷ es) now r os o f =
    owned_run es t (step (leaves t i marks d allow) r) os.1
      (unfold step in leave-IsOwned now t i marks d allow (get_elem? r.leases i) r refl os.0 o) f
owned_run (presses p ∷ es) now r os o f =
    owned_run es now (step (presses p) r) os (press-IsOwned now p r o) f

-- In any run that cancels no waiter, on a clock that does not go back, the half-open flag is set
-- only while a probe holds a lease or waits for one: the lane is never locked out.
pub flag_has_owner :
    (now : ℕ) (kind : Kind) (o : LaneOptions) (es : List Event)
    → Ordered now es
    → let r = run es (start (new_lane now kind o)) in
      r.lane.half_open_active ≡ true → has_probe r ≡ true
flag_has_owner now kind o es os =
    owned_run es now (start (new_lane now kind o)) os
      (unfold start new_lane in record { owner = λ f. cc; elapsed = λ f. cc })
