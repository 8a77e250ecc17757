-- ===== src/TurnActivity.antt =====
-- c_lord/turn_activity.py: `TurnActivity`, which hands the activity of a thread to the lamp of its live
-- turn. A listener is a number, its identity; that one which raises is ignored is no state.
pub mod Calls
mod Examples
use c_lord.Prelude.{
  ℕ, String, Bool, true, false, not, Option, none, some, List, [], ◌∷◌, ◌++◌, contains, keep,
  if◌then◌else◌, nat_key, string_key, ◌==◌,
}
use c_lord.Prelude.Dict.{Dict, get, insert, remove}

pub record TurnActivity : Type 0 where
  pub listeners : Dict ℕ ℕ
  pub open_calls : Dict ℕ (List String)

unfoldable pub subscribe : ℕ → ℕ → TurnActivity → TurnActivity
subscribe t listener a = record {
  listeners = insert t listener a.listeners;
  open_calls = remove t a.open_calls;
}

unfoldable pub is_current : ℕ → ℕ → TurnActivity → Bool
is_current t listener a = elim (get t a.listeners) [ some l ↦ l == listener | none ↦ false ]

-- What `subscribe` returns.
unfoldable pub unsubscribe : ℕ → ℕ → TurnActivity → TurnActivity
unsubscribe t listener a =
    if is_current t listener a
    then record { listeners = remove t a.listeners; open_calls = remove t a.open_calls }
    else a

abbrev pub calls_of : ℕ → TurnActivity → List String
calls_of t a = elim (get t a.open_calls) [ some calls ↦ calls | none ↦ [] ]

unfoldable pub running : ℕ → TurnActivity → Bool
running t a = elim (calls_of t a) [ [] ↦ false | _ ∷ _ ↦ true ]

-- `open_calls.update(started)`
abbrev pub open_all : List String → List String → List String
open_all [] calls = calls
open_all (u ∷ started) calls =
    open_all started (if contains u calls then calls else calls ++ (u ∷ []))

-- `open_calls.difference_update(finished)`
abbrev pub close_all : List String → List String → List String
close_all finished calls = keep (λ u. not (contains u finished)) calls

-- The listener that is called comes second.
unfoldable pub note : ℕ → List String → List String → TurnActivity → TurnActivity × Option ℕ
note t started finished a = elim (get t a.listeners) [
  | none ↦ (a, none)
  | some listener ↦ (
    record a {
      open_calls = insert t (close_all finished (open_all started (calls_of t a))) a.open_calls;
    },
    some listener,
  )
]
