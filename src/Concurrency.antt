-- ===== src/Concurrency.antt =====
-- c_lord/concurrency.py: `SessionRegistry`, the sessions that are active, by thread. Its lock makes
-- each method one step.
pub mod History
mod Examples
use c_lord.Prelude.{
  ℕ, String, Bool, true, false, not, Option, none, some, List, [], ◌∷◌, keep, map, if◌then◌else◌,
  nat_key, ◌==◌,
}
use c_lord.Prelude.Dict.{Dict, get, insert, remove}

pub record ActiveSession : Type 0 where
  pub thread_id : ℕ
  pub description : String
  pub working_dir : Option String

abbrev pub SessionRegistry : Type 0
SessionRegistry = Dict ℕ ActiveSession

unfoldable pub register : ℕ → String → Option String → SessionRegistry → SessionRegistry
register t description working_dir sessions =
    insert t (record { thread_id = t; description = description; working_dir = working_dir })
      sessions

unfoldable pub unregister : ℕ → SessionRegistry → SessionRegistry
unregister t sessions = remove t sessions

-- The fields that are given replace those of the session.
unfoldable pub changed : Option String → Option String → ActiveSession → ActiveSession
changed description working_dir s = record s {
  description = elim description [ some text ↦ text | none ↦ s.description ];
  working_dir = elim working_dir [ some dir ↦ some dir | none ↦ s.working_dir ];
}

unfoldable pub update_session :
    ℕ → Option String → Option String → SessionRegistry → SessionRegistry
update_session t description working_dir sessions = elim (get t sessions) [
  | none ↦ sessions
  | some s ↦ insert t (changed description working_dir s) sessions
]

unfoldable pub list_active : SessionRegistry → List ActiveSession
list_active sessions = map (λ p. p.1) sessions

unfoldable pub list_others : ℕ → SessionRegistry → List ActiveSession
list_others t sessions = keep (λ s. not (s.thread_id == t)) (list_active sessions)
