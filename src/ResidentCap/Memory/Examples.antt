-- ===== src/ResidentCap/Memory/Examples.antt =====
-- Hosts, and the theorems at them.
use c_lord.Prelude.{true, false, none, some, ◌≡◌, refl}
use c_lord.ResidentCap.Memory.{
  Host, cgroup_limit, darwin_available, memory_total, memory_available, memory_snapshot,
  compute_limit, max_resident_workspaces,
}

program : Unit {0}
unfolding cgroup_limit darwin_available memory_total memory_available memory_snapshot compute_limit
    max_resident_workspaces
program = tt

-- A container of 2000 bytes on a host of 48000.
abbrev container : Host
container = record {
  cgroup_v2_max = some 2000;
  cgroup_v2_current = some 1500;
  cgroup_v1_max = none;
  cgroup_v1_usage = none;
  proc_exists = true;
  mem_total = 48000;
  mem_available = 30000;
  physical = 48000;
  pressure_level = none;
}

confined : cgroup_limit container ≡ some 2000
unfolding program
confined = refl

abbrev mac : Host
mac = record container {
  cgroup_v2_max = none;
  cgroup_v2_current = none;
  proc_exists = false;
  mem_total = 0;
  pressure_level = some 40;
}

unconfined : cgroup_limit mac ≡ none
unfolding program
unconfined = refl
