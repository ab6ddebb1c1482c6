-- ===== src/Concurrency/Resources/Bounds.antt =====
-- The bounds of the detected resources and of every ceiling.
use metafusion.Concurrency.Lane.{Kind, item}
use metafusion.Concurrency.Resources.{
  detect_runtime_resources, concurrency_ceiling, Machine, cores_leb, host_cpus, RuntimeResources,
  host_memory_bytes, lane_kind, absolute_ceiling, configured_ceiling, Cores, cores_max, cores_min,
  MemoryMax, effective_cpus, network, memory_limit, limited_cpus,
}
use metafusion.Prelude.{
  ◌*◌, ◌≤◌, ◌<◌, ◌≡◌, ◌⊎◌, Option, ℤ, true, max, arith, refl, ℕ, leb, if_rule, inl, false, inr,
}

abbrev quarter : Cores
quarter = record { num = 1; den = 4 }

max_quarter : (c : Cores) → (cores_max quarter c).den ≤ 4 * (cores_max quarter c).num
unfolding cores_max
max_quarter c = ground arith

leb_refl : (n : ℕ) → leb n n ≡ true
leb_refl n = ground arith

leb_total : (a b : ℕ) → leb a b ≡ false → leb b a ≡ true
leb_total a b h = ground arith

min_below : (a b : Cores) → cores_leb (cores_min a b) a ≡ true
unfolding cores_min
min_below a b =
    if_rule (λ (c : Cores). cores_leb c a ≡ true) (cores_leb a b) (λ _. leb_refl (a.num * a.den))
      (λ e. leb_total (a.num * b.den) (b.num * a.den) e)

max_is_one : (a b : Cores) → (cores_max a b ≡ a) ⊎ (cores_max a b ≡ b)
unfolding cores_max
max_is_one a b =
    if_rule (λ (c : Cores). (c ≡ a) ⊎ (c ≡ b)) (cores_leb b a) (λ _. inl refl) (λ _. inr refl)

capped :
    (host limit : Cores)
    → let c = cores_max quarter (cores_min host limit) in
      (cores_leb c host ≡ true) ⊎ (4 * c.num ≡ c.den)
capped host limit = elim (max_is_one quarter (cores_min host limit)) [
  | inl e ↦ rw e (inr refl)
  | inr e ↦ rw e (inl (min_below host limit))
]

memory_bounds :
    (v2 v1 : MemoryMax) (host : ℕ) → 1 ≤ host → (max 1 (memory_limit v2 v1 host).0 ≤ host)
memory_bounds v2 v1 host h = ground arith

host_memory_pos : (m : Machine) → 1 ≤ host_memory_bytes m
unfolding host_memory_bytes
host_memory_pos m = ground arith

-- Whatever the machine says, a job is given at least a quarter of a core, and no more cores than
-- the host has, or that quarter; at least one byte, and no more bytes than the host has.
pub detected_bounds :
    (m : Machine)
    → let r = detect_runtime_resources m in
      (r.cpu_cores.den ≤ 4 * r.cpu_cores.num)
      × ((cores_leb r.cpu_cores (host_cpus m) ≡ true) ⊎ (4 * r.cpu_cores.num ≡ r.cpu_cores.den))
      × (1 ≤ r.memory_limit_bytes)
      × (r.memory_limit_bytes ≤ host_memory_bytes m)
unfolding detect_runtime_resources effective_cpus
detected_bounds m = (
  max_quarter (cores_min (host_cpus m) (limited_cpus m)),
  capped (host_cpus m) (limited_cpus m),
  omega arith,
  memory_bounds m.memory_max m.v1_limit (host_memory_bytes m) (host_memory_pos m),
)

-- Every lane's ceiling is at least one slot, at most the absolute ceiling of its kind, no more than
-- the ceiling on items, and no more than a configured one; the network's is from 2 to 12.
pub ceiling_bounds :
    (config : Option ℤ) (k : Kind) (r : RuntimeResources)
    → let c = concurrency_ceiling config (lane_kind k) r in
      (1 ≤ c)
      × (c ≤ absolute_ceiling k)
      × (c ≤ max 1 (concurrency_ceiling config (lane_kind item) r))
      × (0 < configured_ceiling config → c ≤ configured_ceiling config)
      × (2 ≤ concurrency_ceiling config network r)
      × (concurrency_ceiling config network r ≤ 12)
unfolding concurrency_ceiling
ceiling_bounds config k r = ground arith
