-- ===== src/Concurrency/Resources.antt =====
-- `detect_runtime_resources` and the concurrency ceilings of helper/concurrency.py. What the
-- program reads from the machine (cgroup files, psutil, os) is the argument `Machine`, as far as
-- it parses. A number of cores is a fraction; the fraction of a GiB is computed exactly.
pub mod Bounds
use metafusion.Concurrency.Lane.{Kind, item, tmdb}
use metafusion.Prelude.{
  ◌==◌, if◌then◌else◌, ◌+◌, ◌*◌, ◌/◌, ◌^◌, ◌&&◌, ℕ, Bool, ℤ, Option, max, leb, none, min, some, pos,
  ltb, pos_part, suc, zero,
}

pub record Cores : Type 0 where
  pub num : ℕ
  pub den : ℕ

-- a ≤ b, for positive denominators
abbrev pub cores_leb : Cores → Cores → Bool
cores_leb a b = leb (a.num * b.den) (b.num * a.den)

unfoldable pub cores_min : Cores → Cores → Cores
cores_min a b = if cores_leb a b then a else b

unfoldable pub cores_max : Cores → Cores → Cores
cores_max a b = if cores_leb b a then a else b

-- The text of `cpu.max`: two fields that are numbers, or anything else.
pub data CpuMax : Type 0 where
  unusable : CpuMax
  quota : ℕ → ℕ → CpuMax

-- The text of a memory limit: no text or the word "max", no number, or a number.
pub data MemoryMax : Type 0 where
  unlimited malformed : MemoryMax
  limited : ℤ → MemoryMax

pub data MemoryPath : Type 0 where
  memory_current memory_usage : MemoryPath

pub record Machine : Type 0 where
  pub cpu_count : Option ℕ
  pub affinity : Option ℕ
  pub cpu_max : CpuMax
  pub cfs_quota : Option ℤ
  pub cfs_period : Option ℕ
  pub virtual_memory : Option ℕ
  pub physical_pages : Option ℕ
  pub memory_max : MemoryMax
  pub v1_limit : MemoryMax

pub record RuntimeResources : Type 0 where
  pub cpu_cores : Cores
  pub memory_limit_bytes : ℕ
  pub memory_current_path : Option MemoryPath

-- `_host_memory_bytes`
unfoldable pub host_memory_bytes : Machine → ℕ
host_memory_bytes m = elim m.virtual_memory [
  | some n ↦ max 1 n
  | none ↦ elim m.physical_pages [ some n ↦ max 1 n | none ↦ 4 * 1024 ^ 3 ]
]

-- `os.cpu_count() or 1`, no more than the affinity allows
unfoldable pub host_cpus : Machine → Cores
host_cpus m =
    let counted : ℕ = elim m.cpu_count [ none ↦ 1 | some zero ↦ 1 | some (suc n) ↦ suc n ] in
    record { num = elim m.affinity [ none ↦ counted | some n ↦ min counted n ]; den = 1 }

-- `float(quota) / float(period)`: a period of 0 is a `ZeroDivisionError`, which is passed over.
abbrev ratio : ℕ → ℕ → Option Cores
ratio q zero = none
ratio q (suc p) = some (record { num = q; den = suc p })

abbrev v2_cpu : CpuMax → Option Cores
v2_cpu unusable = none
v2_cpu (quota q p) = ratio q p

abbrev v1_cpu : Option ℤ → Option ℕ → Option Cores
v1_cpu (some (pos (suc q))) (some p) = ratio (suc q) p
v1_cpu _ _ = none

-- `cpu_limit or host_cpus`
abbrev limit_or_host : Option Cores → Cores → Cores
limit_or_host none host = host
limit_or_host (some c) host = if c.num == 0 then host else c

limited_cpus : Machine → Cores
limited_cpus m =
    let limit : Option Cores = elim (v2_cpu m.cpu_max) [
      | some c ↦ some c
      | none ↦ v1_cpu m.cfs_quota m.cfs_period
    ] in
    limit_or_host limit (host_cpus m)

unfoldable pub effective_cpus : Machine → Cores
unfolding host_cpus cores_min cores_max limited_cpus
effective_cpus m =
    cores_max (record { num = 1; den = 4 }) (cores_min (host_cpus m) (limited_cpus m))

-- A parsed limit is taken if it is positive and below the host's memory.
abbrev tighter : MemoryPath → MemoryMax → ℕ → ℕ × Option MemoryPath
tighter path (limited (pos n)) host = if ltb 0 n && ltb n host then (n, some path) else (host, none)
tighter path _ host = (host, none)

abbrev memory_limit : MemoryMax → MemoryMax → ℕ → ℕ × Option MemoryPath
memory_limit unlimited v1 host = tighter memory_usage v1 host
memory_limit v2 v1 host = tighter memory_current v2 host

unfoldable pub detect_runtime_resources : Machine → RuntimeResources
unfolding effective_cpus host_memory_bytes
detect_runtime_resources m =
    let (bytes, path) = memory_limit m.memory_max m.v1_limit (host_memory_bytes m) in
    record {
      cpu_cores = effective_cpus m;
      memory_limit_bytes = max 1 bytes;
      memory_current_path = path;
    }

-- `_configured_ceiling`: `none` is a value that is no number.
unfoldable pub configured_ceiling : Option ℤ → ℕ
configured_ceiling none = 0
configured_ceiling (some z) = min 64 (pos_part z)

-- `_ABSOLUTE_CEILINGS`, with the default of `concurrency_ceiling`
abbrev pub absolute_ceiling : Kind → ℕ
absolute_ceiling item = 12
absolute_ceiling tmdb = 8
absolute_ceiling _ = 4

-- `floor(cpu_cores * 2)` and `floor(memory_gib / 0.75)`
unfoldable pub automatic_item_ceiling : RuntimeResources → ℕ
automatic_item_ceiling r =
    let cpu_slots = max 1 (r.cpu_cores.num * 2 / r.cpu_cores.den) in
    let memory_slots = max 1 (r.memory_limit_bytes * 4 / (3 * 1024 ^ 3)) in
    max 1 (min 12 (min cpu_slots memory_slots))

-- The kinds that `concurrency_ceiling` knows: a lane's kind, or the network as a whole.
pub data CeilingKind : Type 0 where
  lane_kind : Kind → CeilingKind
  network : CeilingKind

abbrev kind_ceiling : CeilingKind → ℕ → ℕ
kind_ceiling (lane_kind item) top = top
kind_ceiling (lane_kind k) top = max 1 (min (absolute_ceiling k) top)
kind_ceiling network top = min 12 (max 2 (top + min 4 top))

-- `concurrency_ceiling`, where no controller is active or the resources are given
unfoldable pub concurrency_ceiling : Option ℤ → CeilingKind → RuntimeResources → ℕ
unfolding configured_ceiling automatic_item_ceiling
concurrency_ceiling config kind r =
    let configured = configured_ceiling config in
    kind_ceiling kind (
      if configured == 0
      then automatic_item_ceiling r
      else min (automatic_item_ceiling r) configured)
