-- ===== src/IdleSweep/Examples.antt =====
-- A sweep over four rows, one of whose threads is gone, and the theorems at it.
use c_lord.Prelude.{
  length, ◌≤◌, true, false, ◌⊎◌, contains, inl, arith, nat_key, ℕ, String, some, none, Option, List,
  [], ◌∷◌, if◌then◌else◌, string_key, ◌==◌, ◌≡◌, refl,
}
use c_lord.Prelude.Ranked.{In, sort}
use c_lord.Sessions.{SessionRecord, parse_timestamp}
use c_lord.IdleSweep.{idle_aged, idle_entry, select_idle_workspaces}
use c_lord.Prelude.Dict.{get, insert}
use c_lord.IdleSweep.Sweep.{
  not_found, fetched, changed, Host, base_hooks, resolve_thread, settle, visit, visit_all,
  rows_by_id, wanted, tick,
}
use c_lord.IdleSweep.Walk.{is_reachable, is_gone}
use c_lord.IdleSweep.Fairness.{tick-reaches, tick-IsDue, tick-bounded}
use c_lord.IdleSweep.Choice.{IsDue}

program : Unit {0}
unfolding get insert resolve_thread settle visit visit_all rows_by_id wanted tick sort
    parse_timestamp idle_aged idle_entry select_idle_workspaces
program = tt

-- A clock that knows two days, in one format.
abbrev calendar : String → String → Option ℕ
calendar text format =
    if format == "%Y-%m-%d %H:%M:%S"
    then (if text == "2026-01-01 00:00:00" then some 10 else some 20)
    else none

-- Used on the second day, on the first, never, and on the first but closed.
abbrev table : List SessionRecord
table =
    record { thread_id = 1; last_used_at = some "2026-01-02 00:00:00"; closed_at = none }
    ∷ record { thread_id = 2; last_used_at = some "2026-01-01 00:00:00"; closed_at = some "" }
    ∷ record { thread_id = 3; last_used_at = none; closed_at = none }
    ∷ record {
      thread_id = 4;
      last_used_at = some "2026-01-01 00:00:00";
      closed_at = some "2026-01-03 00:00:00";
    }
    ∷ []

oldest_first : select_idle_workspaces calendar table 100 70 [] ≡ 2 ∷ 1 ∷ []
unfolding program
oldest_first = refl

boundary_waits : select_idle_workspaces calendar table 100 80 [] ≡ 2 ∷ []
unfolding program
boundary_waits = refl

-- Thread 2 no longer exists.
abbrev host : Host
host = record { fetch = λ t. if t == 2 then not_found else fetched; act = λ t. changed }

past_the_gone :
    tick base_hooks host calendar 1 100 70 [] table []
    ≡ record { unresolvable = 2 ∷ []; acted = 1; spent = 1; tried = 1 ∷ []; visited = 1 ∷ [] }
unfolding program
past_the_gone = refl

one_tried : In 1 (tick base_hooks host calendar 1 100 70 [] table []).tried
unfolding program
one_tried = inl refl

tick-reaches_example :
    let r = tick base_hooks host calendar 5 100 70 [] table [] in
    (5 ≤ length r.tried)
    ⊎ ((u : ℕ)
        → In u (select_idle_workspaces calendar table 100 70 [])
        → wanted base_hooks table [] u ≡ true
        → is_reachable (host.fetch u) ≡ true
        → In u r.tried)
tick-reaches_example =
    tick-reaches base_hooks host calendar 5 100 70 [] table [] (omega arith) (λ tried. refl)
      (λ u due i. i)

tick-IsDue_example :
    (contains {A = ℕ} 1 [] ≡ false)
    × (row : SessionRecord) × (last : ℕ) × In row table
    × (row.thread_id ≡ 1)
    × IsDue calendar 100 70 [] row last
tick-IsDue_example =
    tick-IsDue base_hooks host calendar 1 100 70 [] table [] 1 (omega arith) (λ v due i. i)
      one_tried

tick-bounded_example :
    let r = tick base_hooks host calendar 1 100 70 [] table [] in
    (r.acted ≤ 1)
    × (contains 2 r.unresolvable ≡ true
        → (contains {A = ℕ} 2 [] ≡ true) ⊎ (is_gone (host.fetch 2) ≡ true))
tick-bounded_example =
    tick-bounded base_hooks host calendar 1 100 70 [] table [] 2 (omega arith) (λ v. refl)
