-- ===== src/ResidentCap/Examples.antt =====
-- Passes of the cap and the brake on small hosts, and the theorems at them.
use c_lord.Prelude.{
  ℕ, ◌-◌, ◌*◌, ◌≤◌, String, Bool, true, false, Option, none, some, List, [], ◌∷◌, length, All,
  if◌then◌else◌, ◌==◌, string_key, leb, ◌≡◌, ◌↔◌, inl, refl, arith,
}
use c_lord.Prelude.Dict.{get, insert, remove}
use c_lord.Prelude.Ranked.{In, sort}
use c_lord.Sessions.{SessionRecord, parse_timestamp}
use c_lord.ResidentCap.Select.{aged, select_lru_victims}
use c_lord.ResidentCap.Sleep.{
  sleep, sleep_one, resolve_thread, turns_in_flight, close_known_gone, new_loop, cached, slept,
  refused, minus,
}
use c_lord.ResidentCap.Cap.{
  World, enforce_cap, keep_books, victims_of, deferred_last, last_used_in, release_used, visit_all,
}
use c_lord.ResidentCap.Cap.Bounds.{sleeps, owned_of, enforce_cap-bounded}
use c_lord.ResidentCap.Cap.Safety.{IsSleepable, enforce_cap-IsSleepable}
use c_lord.ResidentCap.Brake.{
  Reading, observe_pressure, brake_all, brake_victims, emergency_brake, tick,
}
use c_lord.ResidentCap.Brake.Pressure.{IsLow, observe_pressure_iff}
use c_lord.ResidentCap.Brake.Episode.{emergency_brake-sleeps}
use c_lord.ResidentCap.Brake.Safety.{IsIdle, tick-IsIdle}

program : Unit {0}
unfolding get sort parse_timestamp aged select_lru_victims keep_books victims_of deferred_last
    last_used_in release_used insert visit_all sleep_one resolve_thread remove turns_in_flight
    close_known_gone enforce_cap new_loop emergency_brake brake_all brake_victims
program = tt

-- A clock that knows three times of day, in one format.
abbrev clock : String → String → Option ℕ
clock text format =
    if format == "%Y-%m-%d %H:%M:%S"
    then (if text == "2026-01-01 10:00:00"
        then some 10
        else (if text == "2026-01-01 20:00:00" then some 20 else some 30))
    else none

abbrev everyone : List ℕ
everyone = 1 ∷ 2 ∷ 3 ∷ 4 ∷ []

abbrev rows : List SessionRecord
rows =
    record { thread_id = 1; last_used_at = some "2026-01-01 20:00:00"; closed_at = none }
    ∷ record { thread_id = 2; last_used_at = some "2026-01-01 10:00:00"; closed_at = none }
    ∷ record { thread_id = 3; last_used_at = none; closed_at = none }
    ∷ record { thread_id = 4; last_used_at = some "2026-01-01 10:00:00"; closed_at = none }
    ∷ []

chosen_2 : select_lru_victims clock rows everyone 3 (4 ∷ []) [] ≡ 2 ∷ []
unfolding program
chosen_2 = refl

chosen_all : select_lru_victims clock rows everyone 0 (4 ∷ []) [] ≡ 2 ∷ 1 ∷ []
unfolding program
chosen_all = refl

is_chosen_2 : In 2 (select_lru_victims clock rows everyone 3 (4 ∷ []) [])
is_chosen_2 = rw chosen_2 (inl refl)

left_out_1 : ¬ In 1 (select_lru_victims clock rows everyone 3 (4 ∷ []) [])
left_out_1 i = ground (arith, (rw chosen_2 at i))

aged_1 : In (20, 1) (aged clock rows everyone (4 ∷ []) [])
unfolding program
aged_1 = inl refl

-- Thread 4 runs a turn, the sleep of thread 2 is refused and its window stays.
abbrev host : World
host = record {
  first_residents = some everyone;
  residents = some everyone;
  active_tasks = 4 ∷ [];
  panes = λ asked. some ([], []);
  records = rows;
  activity = [];
  cog = true;
  fetch = λ t. cached;
  answer = λ t. if leb 2 t then refused else slept;
  left = λ t. some false;
}

-- Two workspaces are too many; both attempts count, one sleeps.
two_attempts :
    let p = enforce_cap clock host (new_loop 2) in
    (p.actions ≡ sleep 2 ∷ sleep 1 ∷ []) × (p.slept ≡ 1) × (p.loop.deferred ≡ (2, 2) ∷ [])
unfolding program
two_attempts = (refl, refl, refl)

enforce_cap-bounded_example :
    let p = enforce_cap clock host (new_loop 2) in
    (sleeps p.actions ≤ length (owned_of host (minus everyone (new_loop 2).gone)) - 2)
    × (p.slept ≤ sleeps p.actions)
unfolding program
enforce_cap-bounded_example = enforce_cap-bounded clock host (new_loop 2) everyone refl

enforce_cap-IsSleepable_example :
    All
      (IsSleepable clock host (minus everyone (new_loop 2).gone) (new_loop 2))
      (enforce_cap clock host (new_loop 2)).actions
enforce_cap-IsSleepable_example = enforce_cap-IsSleepable clock host (new_loop 2) everyone refl

-- A tenth, without fractions.
abbrev tenth : ℕ → ℕ → Bool
tenth total available = leb total (available * 10)

observe_pressure_iff_example :
    let s1 = (observe_pressure tenth (100, 9) (new_loop 2)).0 in
    let s2 = (observe_pressure tenth (100, 8) s1).0 in
    (((observe_pressure tenth (100, 7) s2).1 ≡ true)
      ↔ (IsLow tenth (100, 9) × IsLow tenth (100, 8) × IsLow tenth (100, 7)))
    × ((new_loop 2).low_streak ≡ 0
        → ((observe_pressure tenth (100, 9) (new_loop 2)).1 ≡ false)
          × ((observe_pressure tenth (100, 8) s1).1 ≡ false))
observe_pressure_iff_example = observe_pressure_iff tenth (new_loop 2) (100, 9) (100, 8) (100, 7)

-- Memory recovers after the first thread.
abbrev recovering : ℕ → Reading
recovering n = (100, 50)

one_slept : (emergency_brake tenth clock host recovering (new_loop 2)).actions ≡ sleep 2 ∷ []
unfolding program
one_slept = refl

emergency_brake-sleeps_example :
    sleeps (emergency_brake tenth clock host recovering (new_loop 2)).actions ≤ 1
emergency_brake-sleeps_example =
    emergency_brake-sleeps tenth clock host recovering (new_loop 2) 0 refl

tick-IsIdle_example :
    All
      (IsIdle clock host (owned_of host (minus everyone (new_loop 2).gone)))
      (tick tenth clock host (100, 50) recovering (new_loop 2)).actions
tick-IsIdle_example = tick-IsIdle tenth clock host (100, 50) recovering (new_loop 2) everyone refl
