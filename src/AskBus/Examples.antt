-- ===== src/AskBus/Examples.antt =====
-- Runs of the bus, and its theorems at them.
use c_lord.Prelude.{ℕ, true, false, none, some, [], ◌∷◌, ◌≡◌, ◌≢◌, ◌⊎◌, refl, nat_key}
use c_lord.Prelude.Dict.{get, insert, remove}
use c_lord.Prelude.Fifo.{evict}
use c_lord.AskBus.{
  Bus, Answer, Reason, new_bus, register, is_active, post_answer, unregister, accepts_free_text,
  note_closed, closed_reason, drop_stale, Reach, fresh, after, registers, notes, take_answer,
}
use c_lord.AskBus.Ownership.{IsConsistent, Reach-IsConsistent, register_exclusive}

program : Unit {0}
unfolding new_bus register is_active post_answer unregister accepts_free_text note_closed
    closed_reason drop_stale take_answer get insert remove evict
program = tt

-- Threads 7 and 9 wait.
abbrev two_menus : Bus
two_menus = (register 9 true (register 7 false new_bus).0).0

two_menus-Reach : Reach two_menus
two_menus-Reach = after (after fresh (registers 7 false)) (registers 9 true)

abbrev pick : Answer
pick = Answer.chosen "yes" 0

second_bridge_refused : (register 7 true two_menus).1 ≡ none
unfolding program
second_bridge_refused = refl

answer_arrives : (take_answer 1 (post_answer 9 (pick ∷ []) two_menus).0).1 ≡ some (pick ∷ [])
unfolding program
answer_arrives = refl

note_expires : (closed_reason 7 86400005 (note_closed 7 Reason.terminal 5 two_menus)).1 ≡ none
unfolding program
note_expires = refl

Reach-IsConsistent_example : IsConsistent two_menus
Reach-IsConsistent_example = Reach-IsConsistent two_menus-Reach

register_exclusive_example :
    ((is_active 7 two_menus ≡ true) × (register 7 true two_menus ≡ (two_menus, none)))
    ⊎ ((is_active 7 two_menus ≡ false)
        × ((register 7 true two_menus).1 ≡ some two_menus.next)
        × (get 7 (register 7 true two_menus).0.waiters ≡ some two_menus.next)
        × ((register 7 true two_menus).0.queues two_menus.next ≡ [])
        × (accepts_free_text 7 (register 7 true two_menus).0 ≡ true)
        × ((u q : ℕ)
            → 7 ≢ u
            → get u two_menus.waiters ≡ some q
            → (get u (register 7 true two_menus).0.waiters ≡ some q)
              × ((register 7 true two_menus).0.queues q ≡ two_menus.queues q)))
register_exclusive_example = register_exclusive 7 true two_menus Reach-IsConsistent_example

abbrev noted : Bus
noted = note_closed 9 Reason.timeout 3 two_menus

noted-IsConsistent : IsConsistent noted
noted-IsConsistent = Reach-IsConsistent (after two_menus-Reach (notes 9 Reason.timeout 3))

still_told : (closed_reason 9 900 (note_closed 7 Reason.terminal 5 noted)).1 ≡ some Reason.timeout
unfolding program
still_told = refl
