-- ===== src/RepeatFold/Examples.antt =====
-- A loop of two lines, and the theorems at it.
use c_lord.Prelude.{String, true, some, List, [], ◌∷◌, ◌≡◌, refl}
use c_lord.Prelude.Dict.{get, insert}
use c_lord.Prelude.Fifo.{evict}
use c_lord.RepeatFold.{new_fold, count_line, remember, flush, close, fold_copy, offer, total, Fold}
use c_lord.RepeatFold.Copies.{Offer, unfolded}
use c_lord.RepeatFold.Counter.{start, watch_all, shown_after, close-total}

program : Unit {0}
unfolding get insert evict new_fold count_line remember flush close fold_copy offer
program = tt

abbrev same : String → String
same text = text

-- Five seconds never pass between two lines, so the last count is held back.
abbrev loop : List Offer
loop =
    (100, some 7, "a")
    ∷ (200, some 7, "b")
    ∷ (300, some 7, "a")
    ∷ (400, some 7, "b")
    ∷ (500, some 7, "a")
    ∷ (600, some 7, "b")
    ∷ []

abbrev looping : Fold
looping = record (new_fold 3 true) { recent = "a" ∷ "b" ∷ [] }

two_alone : unfolded same loop looping ≡ 2
unfolding program
two_alone = refl

two_folded : (watch_all same loop (start 3)).folded ≡ 2
unfolding program
two_folded = refl

counter_posted : (watch_all same loop (start 3)).fold.handle ≡ some 7
unfolding program
counter_posted = refl

close-total_example :
    let v = watch_all same loop (start 3) in
    total (shown_after v.shown (close 700 v.fold).1) ≡ v.folded
close-total_example = close-total same 3 loop 700 7 counter_posted
