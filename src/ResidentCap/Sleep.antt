-- ===== src/ResidentCap/Sleep.antt =====
-- c_lord/resident_cap.py: the loop's state, and putting one workspace to sleep.
use c_lord.Prelude.{
  ℕ, String, Bool, true, false, not, ◌||◌, Option, none, some, List, [], ◌∷◌, ◌++◌, contains, keep,
  map, if◌then◌else◌, nat_key,
}
use c_lord.Prelude.Dict.{Dict}
use c_lord.Prelude.Ranked.{sort}

-- A set gains an element.
abbrev pub add : ℕ → List ℕ → List ℕ
add t set = if contains t set then set else set ++ (t ∷ [])

-- `a - b` and `a & b` on sets.
abbrev pub minus : List ℕ → List ℕ → List ℕ
minus a b = keep (λ t. not (contains t b)) a

abbrev pub meet : List ℕ → List ℕ → List ℕ
meet a b = keep (λ t. contains t b) a

pub record Loop : Type 0 where
  pub limit : ℕ
  pub low_streak : ℕ
  pub braking : Bool
  pub episode : ℕ
  pub unresolvable : List ℕ
  pub gone : List ℕ
  pub deferred : Dict ℕ ℕ
  pub attempted : Dict ℕ ℕ
  pub attempt_last_used : Dict ℕ (Option String)
  pub failures : ℕ
  pub deferred_at : Dict ℕ ℕ
  pub cap_tick : ℕ

unfoldable pub new_loop : ℕ → Loop
new_loop limit = record {
  limit = limit;
  low_streak = 0;
  braking = false;
  episode = 0;
  unresolvable = [];
  gone = [];
  deferred = [];
  attempted = [];
  attempt_last_used = [];
  failures = 0;
  deferred_at = [];
  cap_tick = 0;
}

-- What Discord answers about a thread: from the cache, or to `fetch_channel`.
pub data Fetch : Type 0 where
  cached fetched not_found forbidden failed : Fetch

-- What the shared sleep answers: `True`, `False`, `None`, or an exception.
pub data Answer : Type 0 where
  slept refused nothing raised : Answer

-- The result of `_sleep_one`: `True`, `False` before or after the sleep was reached, or `None`.
pub data Outcome : Type 0 where
  done not_reached not_slept already_gone : Outcome

-- What is done to workspaces: the shared sleep is called, or the windows are closed.
pub data Action : Type 0 where
  sleep close : ℕ → Action

unfoldable pub resolve_thread : Fetch → ℕ → Loop → Loop × Bool
resolve_thread answer t s = elim answer [
  | cached ↦ (s, true)
  | fetched ↦ if contains t s.unresolvable || contains t s.gone then (s, false) else (s, true)
  | not_found ↦
      if contains t s.unresolvable || contains t s.gone
      then (s, false)
      else (record s { gone = add t s.gone }, false)
  | forbidden ↦
      if contains t s.unresolvable || contains t s.gone
      then (s, false)
      else (record s { unresolvable = add t s.unresolvable }, false)
  | failed ↦ (s, false)
]

abbrev pub outcome_of : Answer → Outcome
outcome_of slept = done
outcome_of refused = not_slept
outcome_of nothing = already_gone
outcome_of raised = not_slept

-- The state, the outcome, and what was done. `cog` says whether the shared sleep is available.
unfoldable pub sleep_one : Bool → Fetch → Answer → ℕ → Loop → Loop × Outcome × List Action
unfolding resolve_thread
sleep_one cog fetch answer t s =
    if not cog
    then (s, not_reached, [])
    else (let (s', resolved) = resolve_thread fetch t s in
        if resolved then (s', outcome_of answer, sleep t ∷ []) else (s', not_reached, []))

-- `sorted(set)`
abbrev pub in_order : List ℕ → List ℕ
in_order set = map (λ p. p.1) (sort (map (λ t. (t, t)) set))

-- The windows of the threads known to be deleted, unless a turn runs in them.
unfoldable pub close_known_gone : List ℕ → List ℕ → Loop → List Action
unfolding sort
close_known_gone resident in_flight s =
    map close (in_order (minus (meet resident s.gone) in_flight))

-- `in_flight | running | unreadable`: a pane that cannot be read counts as running, and so does
-- every candidate when the panes cannot be listed (`none`).
unfoldable pub turns_in_flight : List ℕ → Option (List ℕ × List ℕ) → List ℕ → List ℕ
turns_in_flight in_flight panes candidates = elim panes [
  | some (running, unreadable) ↦ in_flight ++ (running ++ unreadable)
  | none ↦ in_flight ++ minus candidates in_flight
]
