-- ===== src/TurnEnd/Examples.antt =====
-- Runs of the turn-end bus, and its theorems at them.
use c_lord.Prelude.{
  ℕ, ◌<◌, true, false, ◌&&◌, ◌||◌, none, some, List, [], ◌∷◌, ◌≡◌, refl, inr, arith, nat_key,
  if◌then◌else◌,
}
use c_lord.Prelude.Dict.{get, insert, remove}
use c_lord.Prelude.Fifo.{evict}
use c_lord.TurnEnd.{
  blank, TurnEndBus, aware, naive, as_utc, new_bus, ensure_record, note_prompt, mark, note_reply,
  ended_after, in_flight_after, prompt_since, api_error_since, note_pending_claim,
  note_turn_started, note_turn_ended, is_tailing, grant, grant_pending, size, max_threads,
  record_in,
}
use c_lord.TurnEnd.Verdicts.{turn_trichotomy}
use c_lord.TurnEnd.History.{
  Report, prompt, ending, report_all, is_about, last_known, report_all-last_known,
}
use c_lord.TurnEnd.Grace.{IsSpent}

program : Unit {0}
unfolding new_bus as_utc ensure_record note_prompt mark note_reply ended_after in_flight_after
    prompt_since api_error_since note_pending_claim note_turn_started note_turn_ended is_tailing
    grant grant_pending size get insert remove evict
program = tt

-- A turn that ended, displaced by an instruction in thread 7; thread 8 reports in between.
abbrev reports : List Report
reports =
    prompt 7 (some (aware 10)) 0
    ∷ prompt 8 none 11
    ∷ ending 7 (some (aware 20)) 0
    ∷ prompt 7 (some (naive 21)) 0
    ∷ []

abbrev displaced : TurnEndBus
displaced = report_all reports new_bus

in_flight_again : in_flight_after 7 (aware 15) displaced ≡ true
unfolding program
in_flight_again = refl

over_at_last : ended_after 7 (aware 15) (mark 7 (some (aware 30)) 0 displaced) ≡ true
unfolding program
over_at_last = refl

failed_turn :
    api_error_since 7 (aware 15) (mark 7 (some (aware 30)) 0 (note_reply 7 (some "529") displaced))
    ≡ some "529"
unfolding program
failed_turn = refl

turn_trichotomy_example :
    (prompt_since 7 (aware 15) displaced
      ≡ (ended_after 7 (aware 15) displaced || in_flight_after 7 (aware 15) displaced))
    × ((ended_after 7 (aware 15) displaced && in_flight_after 7 (aware 15) displaced) ≡ false)
turn_trichotomy_example = turn_trichotomy 7 (aware 15) displaced

few : size displaced < max_threads
unfolding program
few = omega arith

report_all-last_known_example :
    get 7 (report_all reports new_bus).threads
    ≡ (if is_about 7 reports then some (last_known 7 blank reports) else none)
report_all-last_known_example = report_all-last_known 7 reports few

abbrev over : TurnEndBus
over = report_all (prompt 7 (some (aware 10)) 0 ∷ ending 7 (some (aware 20)) 0 ∷ []) new_bus

ended_before : (e : ℕ) → (record_in 7 (ensure_record 7 over.threads)).ended_at ≡ some e → e < 25
unfolding program
ended_before e h = ground arith

started_before : as_utc (aware 22) < 25
unfolding as_utc
started_before = omega arith

-- A wake names a transcript, and the first turn under the name takes the grace.
abbrev granted : TurnEndBus
granted = (note_turn_started 7 1000 (note_pending_claim 7 (some "a") 5 new_bus)).0

granted-IsSpent : IsSpent 7 "a" 1000 granted
unfolding program
granted-IsSpent = record { granted = refl; pending = inr refl }

tailed_in_grace : is_tailing 7 120999 granted ≡ true
unfolding program
tailed_in_grace = refl
