-- ===== src/TurnProgress/Examples.antt =====
-- A turn with a long silence, during which Discord does not answer, and the theorems at it.
use c_lord.Prelude.Texts.{Text}
use c_lord.Prelude.{
  ℕ, ◌+◌, ◌-◌, Bool, true, false, some, List, [], ◌∷◌, nat_key, string_key, ◌==◌, ltb, ◌≡◌, refl,
  arith,
}
use c_lord.Prelude.Dict.{get, insert, remove}
use c_lord.TurnProgress.Labels.{
  one_row, path_tail, abbreviate_run, abbreviate_from, abbreviate_paths, shorten, shorten_thought,
}
use c_lord.TurnProgress.{
  default_settings, Progress, new_progress, begin_turn, keep_leftover, delete_or_keep, remove_line,
  retry_all, retry_leftovers, end_turn, note_output, start_all, finish_all, label_with,
  note_activity, note_thought, working_tool, newest_running, tool_line, line_of, render, show, tick,
}
use c_lord.TurnProgress.Ledger.{count, IsSound}
use c_lord.TurnProgress.History.{
  Op, begins, outputs, acts, ticks, perform, perform_all, perform_all-IsSound, end_turn-leaves,
}
use c_lord.TurnProgress.Words.{IsSaid, last_text, open_labels, render-IsSaid}

program : Unit {0}
unfolding get insert remove one_row path_tail abbreviate_run abbreviate_from abbreviate_paths
    shorten shorten_thought new_progress begin_turn keep_leftover delete_or_keep remove_line
    retry_all retry_leftovers end_turn note_output start_all finish_all label_with note_activity
    note_thought newest_running tool_line line_of render show tick perform perform_all
program = tt

abbrev blank : ℕ → Bool
blank c = c == 32

-- "Read  /a/b/c.py", with a glyph in front.
abbrev label : Text
label = 128295 ∷ 32 ∷ 82 ∷ 32 ∷ 32 ∷ 47 ∷ 97 ∷ 47 ∷ 98 ∷ 47 ∷ 99 ∷ []

last_segments : shorten blank label ≡ 82 ∷ 32 ∷ 98 ∷ 47 ∷ 99 ∷ []
unfolding program
last_segments = refl

-- The line that is posted in the silence cannot be deleted twice, and then can.
abbrev fresh : Progress
fresh = new_progress (false ∷ false ∷ true ∷ [])

abbrev ops : List Op
ops =
    begins 100 true
    ∷ acts 110 (some label) ("t" ∷ []) []
    ∷ ticks 150 (some 7)
    ∷ ticks 200 (some 7)
    ∷ outputs 210
    ∷ ticks 230 (some 8)
    ∷ ticks 310 (some 8)
    ∷ []

first_gone : (perform_all blank default_settings ops fresh).deleted ≡ 7 ∷ []
unfolding program
first_gone = refl

second_shown : (perform_all blank default_settings ops fresh).handle ≡ some 8
unfolding program
second_shown = refl

fresh-IsSound : IsSound fresh
unfolding program
fresh-IsSound = record { accounted = λ h. omega arith; pending = tt }

perform_all-IsSound_example : IsSound (perform_all blank default_settings ops fresh)
perform_all-IsSound_example = perform_all-IsSound blank default_settings ops fresh fresh-IsSound

end_turn-leaves_example :
    let m = perform_all blank default_settings ops fresh in
    let r = end_turn default_settings 320 (record m { deletions = [] }) in
    count 8 r.posted ≡ count 8 r.deleted + count 8 r.given_up
end_turn-leaves_example = end_turn-leaves blank default_settings ops 320 8 fresh fresh-IsSound

-- The call is still open after two hundred seconds.
still_works :
    render default_settings 300 (
      perform_all blank default_settings
        (begins 100 true ∷ acts 110 (some label) ("t" ∷ []) [] ∷ [])
        fresh)
    ≡ working_tool (3, 20) (82 ∷ 32 ∷ 98 ∷ 47 ∷ 99 ∷ []) 1
unfolding program
still_works = refl

render-IsSaid_example :
    let idle = 300 - fresh.last_activity in
    IsSaid
      (ltb idle default_settings.stalled_seconds)
      idle
      fresh.tool_count
      fresh.thought
      (last_text (open_labels fresh.running))
      fresh.tool_label
      (render default_settings 300 fresh)
render-IsSaid_example = render-IsSaid default_settings 300 fresh
