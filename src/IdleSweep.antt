-- ===== src/IdleSweep.antt =====
-- c_lord/idle_sweep.py, `select_idle_workspaces`: whom the sweep visits, longest idle first. Times
-- count microseconds; `strptime` is Python's.
pub mod Choice
pub mod Sweep
pub mod Walk
pub mod Fairness
mod Examples
use c_lord.Prelude.{
  ℕ, ◌-◌, String, Bool, true, false, not, ◌||◌, Option, none, some, List, [], ◌∷◌, ◌++◌, map,
  contains, if◌then◌else◌, nat_key, string_key, ◌==◌, leb,
}
use c_lord.Prelude.Ranked.{sort}
use c_lord.Sessions.{SessionRecord, parse_timestamp}

-- `if rec.closed_at`: an empty text counts as none.
abbrev pub is_closed : Option String → Bool
is_closed none = false
is_closed (some at) = not (at == "")

-- What one record adds: nothing, or the moment of its last use with its thread.
unfoldable pub idle_entry : Option ℕ → ℕ → ℕ → List (ℕ × ℕ)
idle_entry none cutoff thread = []
idle_entry (some last) cutoff thread = if leb cutoff last then [] else (last, thread) ∷ []

module _ (strptime : String → String → Option ℕ) where
  unfoldable pub idle_aged : ℕ → List ℕ → List SessionRecord → List (ℕ × ℕ)
  unfolding parse_timestamp idle_entry
  idle_aged cutoff in_flight [] = []
  idle_aged cutoff in_flight (rec ∷ records) =
      let rest = idle_aged cutoff in_flight records in
      if is_closed rec.closed_at || contains rec.thread_id in_flight
      then rest
      else idle_entry (parse_timestamp strptime rec.last_used_at) cutoff rec.thread_id ++ rest

  unfoldable pub select_idle_workspaces : List SessionRecord → ℕ → ℕ → List ℕ → List ℕ
  unfolding idle_aged sort
  select_idle_workspaces records now threshold in_flight =
      map (λ p. p.1) (sort (idle_aged (now - threshold) in_flight records))
