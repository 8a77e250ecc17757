-- ===== src/TurnActivity/Examples.antt =====
-- Two calls of which one is out, and the theorems at them.
use c_lord.Prelude.{String, true, false, List, [], ◌∷◌, nat_key, string_key, ◌≡◌, ◌↔◌, refl}
use c_lord.Prelude.Dict.{get, insert, remove}
use c_lord.TurnActivity.{TurnActivity, subscribe, unsubscribe, is_current, running, note}
use c_lord.TurnActivity.Calls.{is_out, note_all, running-note_all}

program : Unit {0}
unfolding get insert remove subscribe unsubscribe is_current running note note_all
program = tt

abbrev before : TurnActivity
before = record { listeners = (7, 1) ∷ []; open_calls = (7, "died" ∷ []) ∷ [] }

abbrev events : List (List String × List String)
events = ("build" ∷ "test" ∷ [], []) ∷ ([], "test" ∷ "other" ∷ []) ∷ []

build_is_out : running 7 (note_all 7 events (subscribe 7 2 before)) ≡ true
unfolding program
build_is_out = refl

running-note_all_example :
    let b = note_all 7 events (subscribe 7 2 before) in
    (is_current 7 2 b ≡ true)
    × ((running 7 b ≡ true) ↔ ((u : String) × (is_out u events false ≡ true)))
running-note_all_example = running-note_all 7 2 events before
