-- ===== src/Lamp/Examples.antt =====
-- A turn whose paints fail, and the theorems at it.
use c_lord.Prelude.{true, false, some, List, [], ◌∷◌, nat_key, ◌≡◌, refl, arith}
use c_lord.Prelude.Dict.{get, insert, remove}
use c_lord.TurnActivity.{TurnActivity, subscribe, unsubscribe, is_current, running}
use c_lord.Lamp.{
  adopt, Lamp, done, failed, new_lamp, adopt, emoji_running, emoji_waiting, emoji_stall_soft,
  emoji_stall_hard, answer, react, remove_current_locked, change_to, sweep_all, sweep_locked,
  set_reaction, stop_stall_timer, start_stall_timer, reset_stall_timer, set_running, set_tool,
  set_waiting, set_compact, set_error, cleanup, paint_stall, mark_abandoned, note_running, judge,
  tick,
}
use c_lord.Lamp.Truth.{IsTracked, IsClear}
use c_lord.Lamp.Last.{Op, runs, ticks, perform, perform_all, set_waiting-clears}
use c_lord.Lamp.Stall.{Late, stalls_late, ticks_late, perform_late, set_waiting_last}

program : Unit {0}
unfolding get insert remove subscribe unsubscribe is_current running new_lamp adopt answer react
    remove_current_locked change_to sweep_all sweep_locked set_reaction stop_stall_timer
    start_stall_timer reset_stall_timer set_running set_tool set_waiting set_compact set_error
    cleanup paint_stall mark_abandoned note_running judge tick perform perform_all perform_late
program = tt

abbrev nobody : TurnActivity
nobody = record { listeners = []; open_calls = [] }

-- The removal of the first lamp fails, and the call that adds ⚠ fails although Discord applied it.
abbrev fresh : Lamp
fresh = new_lamp true (some 5) 1 nobody 0 [] (done ∷ failed false ∷ failed true ∷ [])

abbrev ops : List Op
ops = runs 0 ∷ ticks 31 false false ∷ []

two_lamps : (perform_all ops fresh).shown ≡ emoji_running ∷ emoji_stall_hard ∷ []
unfolding program
two_lamps = refl

one_lamp : (set_waiting (perform_all ops fresh)).0.shown ≡ emoji_waiting ∷ []
unfolding program
one_lamp = refl

-- A restart left both lamps, which the process before knew to be out of sync; the adopted lamp knows of
-- one, and the paint of the turn's end leaves the other.
adopted_leaves_one :
    let r = set_waiting (
      adopt emoji_stall_hard
        (new_lamp true (some 5) 1 nobody 0 (emoji_stall_hard ∷ emoji_running ∷ []) [])) in
    (r.0.shown ≡ emoji_running ∷ emoji_waiting ∷ []) × (r.0.out_of_sync ≡ false)
unfolding program adopt
adopted_leaves_one = (refl, refl)

fresh-IsTracked : IsTracked fresh
unfolding program
fresh-IsTracked = record {
  in_guild = refl;
  known = λ h e opened there. absurd (ground (arith, there));
}

set_waiting-clears_example :
    let m = perform_all ops fresh in
    let r = set_waiting m in
    let q = set_waiting (record m { calls = [] }) in
    (r.1 ≡ false
      → r.0.out_of_sync ≡ false
      → IsClear r.0.shown × (r.0.current_emoji ≡ some emoji_waiting))
    × (q.1 ≡ false)
    × (q.0.out_of_sync ≡ false)
    × IsClear q.0.shown
set_waiting-clears_example = set_waiting-clears fresh ops fresh-IsTracked

abbrev late : List Late
late = stalls_late emoji_stall_soft ∷ ticks_late 40 false true ∷ []

set_waiting_last_example :
    let r = set_waiting (perform_all ops fresh) in perform_late late r.0 ≡ r.0
set_waiting_last_example = set_waiting_last late (perform_all ops fresh)

-- A turn that runs, all of whose calls succeed.
abbrev turn : Lamp
turn = (set_running 100 (new_lamp true (some 5) 1 nobody 0 [] [])).0

warned : (tick 112 false false turn).0.shown ≡ emoji_stall_soft ∷ []
unfolding program
warned = refl

-- The lamp goes back to 🟢 through a tool and not through the monitor: the next silence of twelve
-- seconds, of which the monitor believes that it warned, shows nothing.
silent_again :
    (tick 125 false true (set_tool 113 (tick 112 false false turn).0).0).0.shown
    ≡ emoji_running ∷ []
unfolding program
silent_again = refl
