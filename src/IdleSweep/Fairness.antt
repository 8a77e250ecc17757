-- ===== src/IdleSweep/Fairness.antt =====
-- What one sweep does, and what it leaves alone (c_lord/idle_sweep.py, `IdleSweepLoop.tick`).
use c_lord.Prelude.{
  length, ℕ, ◌≤◌, ◌<◌, String, true, false, Option, List, [], contains, keep, nat_key, leb, ◌≡◌,
  ◌⊎◌, refl, inl, inr, arith,
}
use c_lord.Prelude.Ranked.{In, In-keep, In-keep_all}
use c_lord.Sessions.{SessionRecord}
use c_lord.IdleSweep.{select_idle_workspaces}
use c_lord.IdleSweep.Choice.{IsDue, select_idle_workspaces_iff}
use c_lord.IdleSweep.Sweep.{Host, Hooks, Tick, visit_all, wanted, tick}
use c_lord.IdleSweep.Walk.{
  is_reachable, is_gone, visit_all_due, visit_all_fair, visit_all_spent, visit_all_counts,
  visit_all_gone,
}

module _ (hooks : Hooks) (host : Host) (strptime : String → String → Option ℕ)
    (max_per_tick now threshold : ℕ) (in_flight : List ℕ) (records : List SessionRecord)
    (gone : List ℕ) where
  abbrev selected : List ℕ
  selected = select_idle_workspaces strptime records now threshold in_flight

  abbrev start : Tick
  start = record { unresolvable = gone; acted = 0; spent = 0; tried = []; visited = [] }

  -- A tick that is enabled is the walk.
  tick_on :
      0 < threshold
      → tick hooks host strptime max_per_tick now threshold in_flight records gone
        ≡ visit_all hooks host max_per_tick
            (hooks.order (keep (wanted hooks records gone) selected))
            start
  unfolding tick
  tick_on h = let on : leb threshold 0 ≡ false = ground (arith, h) in rw (tick, on) refl

  -- With a sweep that is on, whose `tick_exhausted` never stops a tick, as in the base class, and whose
  -- order leaves no thread out: of the threads that are idle and wanted, each one that Discord can reach
  -- is acted on in this tick, however many that cannot be reached stand before it, unless as many as
  -- the budget allows were acted on.
  pub tick-reaches :
      0 < threshold
      → ((tried : List ℕ) → hooks.tick_exhausted tried ≡ false)
      → ((u : ℕ) (due : List ℕ) → In u due → In u (hooks.order due))
      → let r = tick hooks host strptime max_per_tick now threshold in_flight records gone in
        (max_per_tick ≤ length r.tried)
        ⊎ ((u : ℕ)
            → In u selected
            → wanted hooks records gone u ≡ true
            → is_reachable (host.fetch u) ≡ true
            → In u r.tried)
  tick-reaches h free ordered =
      let due = keep (wanted hooks records gone) selected in
      rw (tick_on h) (elim (visit_all_fair hooks host max_per_tick (hooks.order due) start free) [
        | inl spent ↦ inl (
            omega (
              arith,
              spent,
              visit_all_spent hooks host max_per_tick (hooks.order due) start (omega arith),
            ))
        | inr all ↦ inr (λ u i w here.
            all u (ordered u due (In-keep_all (wanted hooks records gone) u selected i w)) here)
      ])

  -- A thread that is acted on has a row that is due: not closed, without a running turn, and idle for
  -- longer than the threshold; and it was not written off before.
  pub tick-IsDue :
      (u : ℕ)
      → 0 < threshold
      → ((v : ℕ) (due : List ℕ) → In v (hooks.order due) → In v due)
      → In u (tick hooks host strptime max_per_tick now threshold in_flight records gone).tried
      → (contains u gone ≡ false)
        × (row : SessionRecord) × (last : ℕ) × In row records
        × (row.thread_id ≡ u)
        × IsDue strptime now threshold in_flight row last
  unfolding wanted
  tick-IsDue u h ordered i =
      let due = keep (wanted hooks records gone) selected in
      elim (visit_all_due hooks host max_per_tick u (hooks.order due) start (rw (tick_on h) at i)) [
        | inl before ↦ absurd before
        | inr now_due ↦
            let (chosen, fit) =
              In-keep (wanted hooks records gone) u selected (ordered u due now_due) in
            let (row, last, k, same, d) =
              (select_idle_workspaces_iff strptime now threshold in_flight records u).0 chosen in
            (ground (arith, fit), row, last, k, same, d)
      ]

  -- When a workspace that changed counts against the budget, no more of them change than it allows; and
  -- a thread is written off only when Discord says that it is gone or hidden, not when a request fails.
  pub tick-bounded :
      (u : ℕ)
      → 0 < threshold
      → ((v : ℕ) → hooks.spent_budget v true ≡ true)
      → let r = tick hooks host strptime max_per_tick now threshold in_flight records gone in
        (r.acted ≤ max_per_tick)
        × (contains u r.unresolvable ≡ true
            → (contains u gone ≡ true) ⊎ (is_gone (host.fetch u) ≡ true))
  tick-bounded u h counts =
      let due = keep (wanted hooks records gone) selected in
      rw (tick_on h) (
        (let (a, b) =
              visit_all_counts hooks host max_per_tick (hooks.order due) start counts (omega arith)
                (omega arith) in
            omega (arith, a, b)),
        visit_all_gone hooks host max_per_tick u (hooks.order due) start,
      )
