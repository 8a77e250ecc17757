-- ===== src/ResidentCap/Memory/Snapshot.antt =====
-- What the emergency brake and the cap are given (c_lord/resident_cap.py).
use c_lord.Prelude.{
  ℕ, ◌-◌, ◌*◌, ◌/◌, ◌≤◌, ◌<◌, false, Option, none, some, leb, ◌≡◌, ◌⊎◌, refl, inl, inr, arith,
  Bool-cases, Option-cases,
}
use c_lord.ResidentCap.Memory.{
  Host, Setting, unset, malformed, negative, value, cgroup_limit, or_else, darwin_available,
  memory_total, memory_available, memory_snapshot, max_resident_workspaces, min_resident_limit,
}

cgroup_limit-pos : (h : Host) (limit : ℕ) → cgroup_limit h ≡ some limit → 0 < limit
unfolding cgroup_limit
cgroup_limit-pos h limit e = ground arith

total-cgroup : (h : Host) (limit : ℕ) → cgroup_limit h ≡ some limit → memory_total h ≡ limit
unfolding memory_total
total-cgroup h limit e = ground (arith, cgroup_limit-pos h limit e)

available-cgroup :
    (h : Host) (limit used : ℕ)
    → cgroup_limit h ≡ some limit
    → or_else h.cgroup_v2_current h.cgroup_v1_usage ≡ some used
    → memory_available h ≡ limit - used
unfolding memory_available
available-cgroup h limit used e u = ground arith

darwin_unread : (level : Option ℕ) (total : ℕ) → level ≡ none → darwin_available level total ≡ none
unfolding darwin_available
darwin_unread level total e = rw e

share-le : (total level : ℕ) → level ≤ 100 → total * level ≤ total * 100
share-le total level h = grind arith

darwin-le : (level : Option ℕ) (total n : ℕ) → darwin_available level total ≡ some n → n ≤ total
unfolding darwin_available
darwin-le none total n e = absurd (cc)
darwin-le (some level) total n e = elim (Bool-cases (leb level 100)) [
  | inr c ↦ absurd (ground arith)
  | inl c ↦
      let small : level ≤ 100 = ground arith in
      let value_n : total * level / 100 ≡ n = ground arith in
      omega (arith, share-le total level small)
]

-- In a container the total and the available bytes come from the container: whatever the host's own
-- memory is, the total is the limit, and the available part is what its usage leaves of it.
pub memory_snapshot_container :
    (h : Host) (limit used : ℕ)
    → cgroup_limit h ≡ some limit
    → or_else h.cgroup_v2_current h.cgroup_v1_usage ≡ some used
    → (memory_snapshot h ≡ (limit, limit - used)) × (0 < limit)
unfolding memory_snapshot
memory_snapshot_container h limit used c u =
    let pos : 0 < limit = cgroup_limit-pos h limit c in
    (ground (arith, total-cgroup h limit c, available-cgroup h limit used c u), pos)

-- On a host without procfs and without a container an unknown pressure gives a total of 0, which
-- the brake reads as "cannot judge"; a known one gives at most the total.
pub memory_snapshot_darwin :
    (h : Host)
    → cgroup_limit h ≡ none
    → h.proc_exists ≡ false
    → (h.pressure_level ≡ none → memory_snapshot h ≡ (0, 0))
      × ((memory_snapshot h).1 ≤ (memory_snapshot h).0)
unfolding memory_snapshot
memory_snapshot_darwin h c p = (
  λ e. ground (arith, darwin_unread h.pressure_level (memory_total h)),
  elim (Option-cases (darwin_available h.pressure_level (memory_total h))) [
    | inl e ↦ ground arith
    | inr (n, e) ↦
        let fits : n ≤ memory_total h = darwin-le h.pressure_level (memory_total h) n e in
        ground arith
  ],
)

-- The cap is never below two unless the operator sets a smaller number: an unset, malformed or
-- negative setting gives the computed value, and that is at least two.
pub max_resident_workspaces_floor :
    (quotient : ℕ → ℕ) (total : Option ℕ) (h : Host) (setting : Setting)
    → ((n : ℕ) × (setting ≡ value n) × (max_resident_workspaces quotient total h setting ≡ n))
      ⊎ (min_resident_limit ≤ max_resident_workspaces quotient total h setting)
unfolding max_resident_workspaces
max_resident_workspaces_floor quotient total h unset = inr (ground arith)
max_resident_workspaces_floor quotient total h malformed = inr (ground arith)
max_resident_workspaces_floor quotient total h negative = inr (ground arith)
max_resident_workspaces_floor quotient total h (value n) = inl (n, refl, refl)
