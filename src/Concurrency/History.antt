-- ===== src/Concurrency/History.antt =====
-- What the registry knows after any calls (c_lord/concurrency.py).
use c_lord.Prelude.{
  ℕ, String, Option, none, some, List, [], ◌∷◌, if◌then◌else◌, nat_key, ◌==◌, ◌≡◌, refl, ap, sym,
  ◌∙◌, inl, inr, arith, Bool-cases, Option-cases,
}
use c_lord.Prelude.Dict.{get, get-insert, get-remove}
use c_lord.Concurrency.{
  ActiveSession, SessionRegistry, register, unregister, changed, update_session,
}

pub data Op : Type 0 where
  registers : ℕ → String → Option String → Op
  unregisters : ℕ → Op
  updates : ℕ → Option String → Option String → Op

unfoldable pub perform : Op → SessionRegistry → SessionRegistry
perform (registers t description working_dir) r = register t description working_dir r
perform (unregisters t) r = unregister t r
perform (updates t description working_dir) r = update_session t description working_dir r

unfoldable pub perform_all : List Op → SessionRegistry → SessionRegistry
perform_all [] r = r
perform_all (op ∷ ops) r = perform_all ops (perform op r)

-- What an update makes of a thread's session: what is given replaces what was there, and a thread
-- without a session gets none.
abbrev pub after_update :
    Option String → Option String → Option ActiveSession → Option ActiveSession
after_update description working_dir none = none
after_update none none (some old) = some old
after_update (some text) none (some old) =
    some (record { thread_id = old.thread_id; description = text; working_dir = old.working_dir })
after_update none (some dir) (some old) =
    some
      (record { thread_id = old.thread_id; description = old.description; working_dir = some dir })
after_update (some text) (some dir) (some old) =
    some (record { thread_id = old.thread_id; description = text; working_dir = some dir })

-- One call as its own thread sees it; the others change nothing.
abbrev pub step : ℕ → Op → Option ActiveSession → Option ActiveSession
step u (registers t description working_dir) s =
    if t == u
    then some (record { thread_id = t; description = description; working_dir = working_dir })
    else s
step u (unregisters t) s = if t == u then none else s
step u (updates t description working_dir) s =
    if t == u then after_update description working_dir s else s

abbrev pub session_after : ℕ → List Op → Option ActiveSession → Option ActiveSession
session_after u [] s = s
session_after u (op ∷ ops) s = session_after u ops (step u op s)

changed-after_update :
    (description working_dir : Option String) (s : ActiveSession)
    → some (changed description working_dir s) ≡ after_update description working_dir (some s)
unfolding changed
changed-after_update none none s = refl
changed-after_update (some text) none s = refl
changed-after_update none (some dir) s = refl
changed-after_update (some text) (some dir) s = refl

after_update-none :
    (description working_dir : Option String) → after_update description working_dir none ≡ none
after_update-none none none = refl
after_update-none (some text) none = refl
after_update-none none (some dir) = refl
after_update-none (some text) (some dir) = refl

step_absent :
    (u t : ℕ) (description working_dir : Option String) (r : SessionRegistry)
    → get t r ≡ none
    → get u r ≡ step u (updates t description working_dir) (get u r)
step_absent u t description working_dir r absent = elim (Bool-cases (t == u)) [
  | inr other ↦ rw (step, other) refl
  | inl same ↦
      let e : t ≡ u = (nat_key.same_iff t u).0 same in
      let absent_here : get u r ≡ none = rw e at absent in
      rw (step, same, absent_here) (sym (after_update-none description working_dir))
]

step_present :
    (u t : ℕ) (description working_dir : Option String) (r : SessionRegistry) (s : ActiveSession)
    → get t r ≡ some s
    → (if t == u then some (changed description working_dir s) else get u r)
      ≡ step u (updates t description working_dir) (get u r)
step_present u t description working_dir r s present = elim (Bool-cases (t == u)) [
  | inr other ↦ rw (step, other) refl
  | inl same ↦
      let e : t ≡ u = (nat_key.same_iff t u).0 same in
      let present_here : get u r ≡ some s = rw e at present in
      rw (step, same, present_here) (changed-after_update description working_dir s)
]

get-perform : (u : ℕ) (op : Op) (r : SessionRegistry) → get u (perform op r) ≡ step u op (get u r)
unfolding perform register unregister update_session
get-perform u (registers t description working_dir) r =
    get-insert t u (record { thread_id = t; description = description; working_dir = working_dir })
      r
get-perform u (unregisters t) r = get-remove t u r
get-perform u (updates t description working_dir) r = elim (Option-cases (get t r)) [
  | inl absent ↦
      rw (perform, update_session, absent)
        (ground (arith, step_absent u t description working_dir r absent))
  | inr (s, present) ↦
      rw (perform, update_session, present)
        (get-insert t u (changed description working_dir s) r
          ∙ step_present u t description working_dir r s present)
]

-- The registry is, for each thread, what that thread's own calls made of its session: a registration
-- begins it anew, an update of a session that is there replaces the fields that are given and keeps
-- the others, and an end takes it away; no call for another thread shows in it.
pub get-perform_all :
    (u : ℕ) (ops : List Op) (r : SessionRegistry)
    → get u (perform_all ops r) ≡ session_after u ops (get u r)
unfolding perform_all
get-perform_all u [] r = refl
get-perform_all u (op ∷ ops) r =
    get-perform_all u ops (perform op r) ∙ ap (session_after u ops) (get-perform u op r)
