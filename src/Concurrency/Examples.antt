-- ===== src/Concurrency/Examples.antt =====
-- The theorems about helper/concurrency.py at concrete inputs, and tests of the definitions.
use metafusion.Concurrency.Controller.{Controller, release_lane, new_controller, release_slot}
use metafusion.Concurrency.Controller.Effects.{
  AllValid, controller-AllValid, new_controller-AllValid, pressure-lowers-limit,
}
use metafusion.Concurrency.Lane.{
  LaneOptions, AdaptiveLane, LaneLease, new_lane, tmdb, fail_lease, new_lease, release, failure,
  acquire, item, rate_limit, cooldown_of, release_failed, free_slot,
}
use metafusion.Concurrency.Lane.Account.{Accounts, release-Accounts, rate_limits-reach-floor}
use metafusion.Concurrency.Lane.Circuit.{
  Departure, IsBlocked, depart, depart_all, threshold-IsBlocked, failure-IsBlocked, after_calls,
  acquires, releases, wakes,
}
use metafusion.Concurrency.Lane.Invariant.{IsValid, new_lane-IsValid}
use metafusion.Concurrency.Lane.Limits.{IsHealthy, healthy-reaches-ceiling}
use metafusion.Concurrency.Pool.{
  turns, worker_count, turn, fresh_pool, takes, Returned, completes, Turn,
}
use metafusion.Concurrency.Pool.Order.{bounded_map_order}
use metafusion.Concurrency.Pool.Progress.{work_left, bounded_map_progress}
use metafusion.Concurrency.Resources.{
  Machine, detect_runtime_resources, concurrency_ceiling, cores_leb, quota, host_cpus, lane_kind,
  limited, host_memory_bytes, unlimited, configured_ceiling, network,
}
use metafusion.Concurrency.Resources.Bounds.{detected_bounds, ceiling_bounds}
use metafusion.Concurrency.Room.{run, enters, start, cancels, leaves, step}
use metafusion.Concurrency.Room.Invariant.{leases-le-ceiling}
use metafusion.Concurrency.Room.Lockout.{IsStuck, probe_waits, cancelled_probe_locks_out}
use metafusion.Concurrency.Room.Probe.{has_probe, flag_has_owner}
use metafusion.Prelude.{
  if◌then◌else◌, ◌==◌, ◌+◌, ◌-◌, ◌*◌, ◌/◌, ◌≤◌, ◌<◌, ◌≡◌, ◌⊎◌, ◌∷◌, refl, [], ℕ, pos, true, Option,
  some, false, none, Bool, max, length, arith, inl, map, all, is_some,
}

abbrev options : LaneOptions
options = record {
  initial = pos 4;
  ceiling = pos 4;
  healthy_window = some (pos 2);
  failure_threshold = pos 2;
  circuit_cooldown = pos 30000;
  initial_failures = pos 0;
  initial_cooldown = pos 0;
}

abbrev small : AdaptiveLane
small = new_lane 0 tmdb (record options { initial = pos 2 })

abbrev bad_lease : LaneLease
bad_lease = fail_lease (new_lease false) rate_limit 0 false

abbrev bad : ℕ → Departure
bad t = record { at = t; lease = bad_lease; duration = 10; allow = true }

abbrev good : Departure
good = record { at = 100; lease = new_lease false; duration = 10; allow = true }

leases-le-ceiling_example :
    let r =
      run
        (enters 1 ∷ enters 2 ∷ cancels 0 ∷ leaves 3 0 [] 2 true ∷ [])
        (start (new_lane 0 tmdb options)) in
    IsValid r.lane × (r.lane.active ≡ length r.leases) × (length r.leases ≤ max 1 4)
leases-le-ceiling_example =
    leases-le-ceiling 0 tmdb options (enters 1 ∷ enters 2 ∷ cancels 0 ∷ leaves 3 0 [] 2 true ∷ [])

threshold-IsBlocked_example :
    IsBlocked
      (after_calls
        (acquires 25 ∷ releases good ∷ wakes 30 false ∷ [])
        (depart (bad 20) (depart_all (bad 10 ∷ []) small)))
      (20 + cooldown_of bad_lease small)
threshold-IsBlocked_example =
    threshold-IsBlocked (bad 10 ∷ []) (bad 20) (acquires 25 ∷ releases good ∷ wakes 30 false ∷ [])
      small (unfold fail_lease in (refl, tt)) (unfold fail_lease in refl)
      (unfold new_lane in omega arith) (unfold new_lease in (refl, tt))

failure-IsBlocked_case :
    IsBlocked
      (depart (record (bad 7) { lease = fail_lease (new_lease true) failure 0 false }) small)
      (7 + cooldown_of (fail_lease (new_lease true) failure 0 false) small)
failure-IsBlocked_case =
    failure-IsBlocked (record (bad 7) { lease = fail_lease (new_lease true) failure 0 false }) small
      (unfold fail_lease in refl) (inl (unfold fail_lease new_lease in refl))

healthy-reaches-ceiling_example :
    (depart_all (good ∷ good ∷ good ∷ good ∷ []) small).limit
    ≡ (depart_all (good ∷ good ∷ good ∷ good ∷ []) small).ceiling
unfolding new_lane new_lease
healthy-reaches-ceiling_example =
    healthy-reaches-ceiling (good ∷ good ∷ good ∷ good ∷ []) small
      (new_lane-IsValid 0 tmdb (record options { initial = pos 2 }))
      (is_good, (is_good, (is_good, (is_good, tt)))) (omega arith)
  where
    is_good : IsHealthy tmdb good
    is_good = record { succeeded = refl; fast = refl; unpressed = refl }

rate_limits-reach-floor_case : (depart_all (bad 1 ∷ bad 2 ∷ []) (new_lane 0 tmdb options)).limit ≡ 1
unfolding new_lane fail_lease
rate_limits-reach-floor_case =
    rate_limits-reach-floor (bad 1 ∷ bad 2 ∷ []) (new_lane 0 tmdb options)
      (new_lane-IsValid 0 tmdb options) (refl, refl, (refl, refl, tt)) (omega arith)

release-Accounts_example : Accounts small (release 5 bad_lease 10 true small)
release-Accounts_example =
    release-Accounts 5 bad_lease 10 true small
      (new_lane-IsValid 0 tmdb (record options { initial = pos 2 }))

abbrev probing : LaneOptions
probing = record options { initial_cooldown = pos 5 }

flag_has_owner_example : has_probe (run (enters 6 ∷ []) (start (new_lane 0 tmdb probing))) ≡ true
unfolding run start new_lane acquire step new_lease
flag_has_owner_example = flag_has_owner 0 tmdb probing (enters 6 ∷ []) (omega arith, tt) refl

cancelled_probe_locks_out_example : IsStuck (
    run
      (cancels 0 ∷ leaves 40 0 [] 5 true ∷ enters 99999 ∷ [])
      (probe_waits (record small { half_open_active = true; open_until = 30 }) (new_lease false)))
cancelled_probe_locks_out_example =
    cancelled_probe_locks_out (record small { half_open_active = true; open_until = 30 })
      (new_lease false) 40 5 true (enters 99999 ∷ []) refl (omega arith) (unfold new_lease in refl)
      (unfold new_lease in refl)

-- A run of a new lane that gets there: one slot in use, an opened circuit, a probe that waits.
reaches_probe_waits :
    let r =
      run
        (enters 1
          ∷ enters 2
          ∷ leaves 3 0
              (record { reason = rate_limit; cooldown = 10; immediate_open = true } ∷ [])
              1
              true
          ∷ enters 20
          ∷ [])
        (start (new_lane 0 tmdb (record options { initial = pos 2 }))) in
    (r.waiters ≡ true ∷ []) × (r.lane.half_open_active ≡ true) × (length r.leases ≡ 1)
unfolding run start new_lane acquire step new_lease release release_failed free_slot fail_lease
reaches_probe_waits = (refl, refl, refl)

abbrev halved : ℕ → Option ℕ
halved n = if n == 0 then none else some (n / 2)

bounded_map_order_example :
    let p =
      turns halved
        (4 ∷ 6 ∷ [])
        (worker_count (pos 2) 2)
        (takes ∷ takes ∷ completes 0 ∷ completes 0 ∷ [])
        (fresh_pool halved (4 ∷ 6 ∷ [])) in
    (length p.busy ≤ max 1 2)
    × (Returned halved (4 ∷ 6 ∷ []) p
        → (p.results ≡ map halved (4 ∷ 6 ∷ []))
          × (all (λ v. is_some (halved v)) (4 ∷ 6 ∷ []) ≡ true))
bounded_map_order_example =
    bounded_map_order halved (4 ∷ 6 ∷ []) (pos 2) (takes ∷ takes ∷ completes 0 ∷ completes 0 ∷ [])

-- The two inputs end in the other order, and the pool has returned.
Returned-out_of_order : Returned halved (4 ∷ 6 ∷ []) (
    turns halved
      (4 ∷ 6 ∷ [])
      2
      (takes ∷ takes ∷ completes 0 ∷ completes 0 ∷ [])
      (fresh_pool halved (4 ∷ 6 ∷ [])))
unfolding turns turn fresh_pool
Returned-out_of_order = record { exhausted = refl; idle = refl; unraised = refl }

bounded_map_progress_example :
    let p = turns halved (4 ∷ []) 1 [] (fresh_pool halved (4 ∷ [])) in
    (Returned halved (4 ∷ []) p)
    ⊎ ((t : Turn halved (4 ∷ [])) × ((work_left halved (4 ∷ []) (turn halved (4 ∷ []) 1 t p)
            < work_left halved (4 ∷ []) p)
          ⊎ ((turn halved (4 ∷ []) 1 t p).raised ≡ true)))
unfolding turns fresh_pool
bounded_map_progress_example = bounded_map_progress halved (4 ∷ []) 1 [] (omega arith) refl

abbrev machine : Machine
machine = record {
  cpu_count = some 8;
  affinity = some 4;
  cpu_max = quota 150000 100000;
  cfs_quota = none;
  cfs_period = none;
  virtual_memory = some 8589934592;
  physical_pages = none;
  memory_max = limited (pos 2147483648);
  v1_limit = unlimited;
}

detected_bounds_example :
    let r = detect_runtime_resources machine in
    (r.cpu_cores.den ≤ 4 * r.cpu_cores.num)
    × ((cores_leb r.cpu_cores (host_cpus machine) ≡ true) ⊎ (4 * r.cpu_cores.num ≡ r.cpu_cores.den))
    × (1 ≤ r.memory_limit_bytes)
    × (r.memory_limit_bytes ≤ host_memory_bytes machine)
detected_bounds_example = detected_bounds machine

-- One and a half cores and 2 GiB: two items at once.
two_items :
    concurrency_ceiling (some (pos 0)) (lane_kind item) (detect_runtime_resources machine) ≡ 2
unfolding concurrency_ceiling detect_runtime_resources
two_items = refl

ceiling_bounds_case :
    let r = detect_runtime_resources machine in
    let c = concurrency_ceiling (some (pos 3)) (lane_kind tmdb) r in
    (1 ≤ c)
    × (c ≤ 8)
    × (c ≤ max 1 (concurrency_ceiling (some (pos 3)) (lane_kind item) r))
    × (0 < configured_ceiling (some (pos 3)) → c ≤ configured_ceiling (some (pos 3)))
    × (2 ≤ concurrency_ceiling (some (pos 3)) network r)
    × (concurrency_ceiling (some (pos 3)) network r ≤ 12)
ceiling_bounds_case = ceiling_bounds (some (pos 3)) tmdb (detect_runtime_resources machine)

abbrev controller : Controller
controller =
    new_controller 0 (pos 5000) (some (pos 0)) (detect_runtime_resources machine) (λ k. none)
      (λ k. none)

controller-AllValid_case :
    AllValid
      (release_slot 6000 6000 item
        (new_lease false)
        20
        (some (record { cpu_percent = 95000; memory_percent = 100 }))
        controller).lanes
controller-AllValid_case =
    controller-AllValid controller 6000 6000 item (new_lease false) 20
      (some (record { cpu_percent = 95000; memory_percent = 100 }))
      (new_controller-AllValid 0 (pos 5000) (some (pos 0)) (detect_runtime_resources machine)
        (λ k. none) (λ k. none))

pressure-lowers-limit_case :
    let l' = (release_lane 5 bad_lease 10 true true small).0 in
    (l'.limit ≤ small.limit) × (◌≡◌ {A = Bool} true true → l'.limit ≤ max 1 (small.limit - 1))
pressure-lowers-limit_case =
    pressure-lowers-limit 5 bad_lease 10 true small
      (new_lane-IsValid 0 tmdb (record options { initial = pos 2 }))
