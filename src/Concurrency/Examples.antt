-- ===== src/Concurrency/Examples.antt =====
-- Two threads, and the theorem at them.
use c_lord.Prelude.{ℕ, some, none, List, [], ◌∷◌, nat_key, ◌≡◌, refl}
use c_lord.Prelude.Dict.{get, insert, remove}
use c_lord.Concurrency.{
  ActiveSession, register, unregister, changed, update_session, list_active, list_others,
}
use c_lord.Concurrency.History.{
  Op, registers, unregisters, updates, perform, perform_all, session_after, get-perform_all,
}

program : Unit {0}
unfolding get insert remove register unregister changed update_session list_active list_others
    perform perform_all
program = tt

abbrev ops : List Op
ops =
    registers 1 "first" none
    ∷ registers 2 "second" (some "/work")
    ∷ updates 1 none (some "/other")
    ∷ updates 3 (some "nobody") none
    ∷ unregisters 2
    ∷ []

one_left :
    list_active (perform_all ops [])
    ≡ record { thread_id = 1; description = "first"; working_dir = some "/other" } ∷ []
unfolding program
one_left = refl

nobody_else : list_others 1 (perform_all ops []) ≡ []
unfolding program
nobody_else = refl

get-perform_all_example :
    get {V = ActiveSession} 1 (perform_all ops []) ≡ session_after 1 ops (get {K = ℕ} 1 [])
get-perform_all_example = get-perform_all 1 ops []
