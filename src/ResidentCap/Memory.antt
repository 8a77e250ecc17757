-- ===== src/ResidentCap/Memory.antt =====
-- How much memory there is, and the limit it allows (c_lord/resident_cap.py). A byte count is a
-- number; what a file, `sysconf` or `sysctl` shows is an argument. The floor of the floating-point
-- quotient of the #540 formula is an argument too.
pub mod Snapshot
mod Examples
use c_lord.Prelude.{
  ℕ, ◌+◌, ◌-◌, ◌*◌, ◌/◌, Bool, true, false, ◌&&◌, ◌||◌, Option, none, some, ltb, leb, if◌then◌else◌,
  is_some,
}

abbrev pub v1_unlimited_floor : ℕ
v1_unlimited_floor = 4611686018427387904

abbrev pub min_resident_limit : ℕ
min_resident_limit = 2

-- What the files of a host show; `none` is a file that cannot be read or holds no number.
pub record Host : Type 0 where
  pub cgroup_v2_max : Option ℕ
  pub cgroup_v2_current : Option ℕ
  pub cgroup_v1_max : Option ℕ
  pub cgroup_v1_usage : Option ℕ
  pub proc_exists : Bool
  pub mem_total : ℕ  -- `_read_meminfo_field("MemTotal")`
  pub mem_available : ℕ  -- `_read_meminfo_field("MemAvailable")`
  pub physical : ℕ
  pub pressure_level : Option ℕ  -- `kern.memorystatus_level`

-- `limit is not None and 0 < limit < _V1_UNLIMITED_FLOOR`
abbrev pub bounded_limit : Option ℕ → Option ℕ
bounded_limit none = none
bounded_limit (some n) = if ltb 0 n && ltb n v1_unlimited_floor then some n else none

abbrev pub or_else : Option ℕ → Option ℕ → Option ℕ
or_else (some n) other = some n
or_else none other = other

unfoldable pub cgroup_limit : Host → Option ℕ
cgroup_limit h = or_else (bounded_limit h.cgroup_v2_max) (bounded_limit h.cgroup_v1_max)

unfoldable pub darwin_available : Option ℕ → ℕ → Option ℕ
darwin_available none total = none
darwin_available (some level) total = if leb level 100 then some (total * level / 100) else none

-- `a or b` on counts: 0 counts as nothing.
abbrev pub nonzero_or : ℕ → ℕ → ℕ
nonzero_or a b = if ltb 0 a then a else b

unfoldable pub memory_total : Host → ℕ
memory_total h = elim (cgroup_limit h) [
  | some limit ↦ nonzero_or limit (nonzero_or h.mem_total h.physical)
  | none ↦ nonzero_or h.mem_total h.physical
]

unfoldable pub memory_available : Host → ℕ
memory_available h = elim (cgroup_limit h) [
  | some limit ↦ elim (or_else h.cgroup_v2_current h.cgroup_v1_usage) [
    | some used ↦ limit - used
    | none ↦ h.mem_available
  ]
  | none ↦ h.mem_available
]

unfoldable pub memory_snapshot : Host → ℕ × ℕ
memory_snapshot h =
    if is_some (cgroup_limit h) || h.proc_exists
    then (memory_total h, memory_available h)
    else elim (if ltb 0 (memory_total h)
        then darwin_available h.pressure_level (memory_total h)
        else none) [ none ↦ (0, 0) | some available ↦ (memory_total h, available) ]

module _ (quotient : ℕ → ℕ) where
  unfoldable pub compute_limit : ℕ → ℕ
  compute_limit total =
      if leb total 0
      then min_resident_limit
      else if leb min_resident_limit (quotient total)
      then quotient total
      else min_resident_limit

-- `int(raw)` of CLORD_MAX_RESIDENT_WORKSPACES.
pub data Setting : Type 0 where
  unset malformed negative : Setting
  value : ℕ → Setting

unfoldable pub max_resident_workspaces : (ℕ → ℕ) → Option ℕ → Host → Setting → ℕ
unfolding compute_limit memory_total
max_resident_workspaces quotient total_bytes h setting =
    let computed =
      compute_limit quotient (elim total_bytes [ some t ↦ t | none ↦ memory_total h ]) in
    elim setting [ unset ↦ computed | malformed ↦ computed | negative ↦ computed | value n ↦ n ]
