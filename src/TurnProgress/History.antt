-- ===== src/TurnProgress/History.antt =====
-- A board through many turns (c_lord/discord_ui/turn_progress.py).
use c_lord.Prelude.Texts.{Text, is_part}
use c_lord.Prelude.{
  ℕ, ◌+◌, String, Bool, true, false, not, ◌&&◌, Option, none, some, List, [], ◌∷◌, if_cases,
  nat_key, string_key, ◌≡◌, refl, sym, ◌∙◌, subst, inl, inr, arith, Option-cases,
}
use c_lord.TurnProgress.{
  Settings, Progress, begin_turn, begun, delete_or_keep, remove_line, retry_all, retry_leftovers,
  end_turn, note_output, start_all, finish_all, label_with, note_activity, note_thought, tick,
}
use c_lord.TurnProgress.Labels.{shorten_thought}
use c_lord.TurnProgress.Ledger.{
  count, IsSound, retry_leftovers-IsSound, remove_line-IsSound, tick-IsSound, removes,
}

-- What happens to a board: the calls of the mirror and the runner, in any order.
pub data Op : Type 0 where
  begins : ℕ → Bool → Op
  ends outputs : ℕ → Op
  acts : ℕ → Option Text → List String → List String → Op
  thinks : ℕ → Text → Op
  ticks : ℕ → Option ℕ → Op

module _ (is_space : ℕ → Bool) (config : Settings) where
  unfoldable pub perform : Op → Progress → Progress
  perform (begins now restart) s = begin_turn now restart s
  perform (ends now) s = end_turn config now s
  perform (outputs now) s = note_output now s
  perform (acts now label started finished) s = note_activity is_space now label started finished s
  perform (thinks now text) s = note_thought is_space now text s
  perform (ticks now post) s = (tick config now post s).0

  unfoldable pub perform_all : List Op → Progress → Progress
  perform_all [] s = s
  perform_all (op ∷ ops) s = perform_all ops (perform op s)

start_all-IsSound :
    (started : List String) (s : Progress) → IsSound s → IsSound (start_all started s)
unfolding start_all
start_all-IsSound [] s i = i
start_all-IsSound (tool ∷ started) s i =
    start_all-IsSound started _ (record { accounted = i.accounted; pending = i.pending })

finish_all-IsSound :
    (finished : List String) (s : Progress) → IsSound s → IsSound (finish_all finished s)
unfolding finish_all
finish_all-IsSound [] s i = i
finish_all-IsSound (tool ∷ finished) s i =
    finish_all-IsSound finished _ (record { accounted = i.accounted; pending = i.pending })

label_with-IsSound :
    (is_space : ℕ → Bool) (label : Option Text) (s : Progress)
    → IsSound s
    → IsSound (label_with is_space label s)
unfolding label_with
label_with-IsSound is_space none s i = i
label_with-IsSound is_space (some []) s i = i
label_with-IsSound is_space (some (c ∷ label)) s i = record {
  accounted = i.accounted;
  pending = i.pending;
}

end_turn-IsSound :
    (config : Settings) (now : ℕ) (s : Progress) → IsSound s → IsSound (end_turn config now s)
unfolding end_turn
end_turn-IsSound config now s i =
    let disarmed : Progress = record s { armed = false } in
    retry_leftovers-IsSound config now true (remove_line now disarmed)
      (remove_line-IsSound now disarmed (record { accounted = i.accounted; pending = i.pending }))

perform-IsSound :
    (is_space : ℕ → Bool) (config : Settings) (op : Op) (s : Progress)
    → IsSound s
    → IsSound (perform is_space config op s)
unfolding perform begin_turn note_output note_activity note_thought
perform-IsSound is_space config (begins now restart) s i =
    if_cases IsSound (s.armed && not restart) s (begun now s) (λ same. i)
      (λ new. record { accounted = i.accounted; pending = i.pending })
perform-IsSound is_space config (ends now) s i = end_turn-IsSound config now s i
perform-IsSound is_space config (outputs now) s i =
    remove_line-IsSound now (record s { last_output = now })
      (record { accounted = i.accounted; pending = i.pending })
perform-IsSound is_space config (acts now label started finished) s i =
    let m : Progress = record s { last_activity = now } in
    let n = label_with is_space label m in
    finish_all-IsSound finished (start_all started n) (
      start_all-IsSound started n (
        label_with-IsSound is_space label m
          (record { accounted = i.accounted; pending = i.pending })))
perform-IsSound is_space config (thinks now text) s i =
    let shortened = shorten_thought is_space text in
    let m : Progress = record s { last_activity = now } in
    let j : IsSound m = record { accounted = i.accounted; pending = i.pending } in
    if_cases IsSound (is_part shortened) (record m { thought = some shortened }) m
      (λ new. record { accounted = i.accounted; pending = i.pending }) (λ empty. j)
perform-IsSound is_space config (ticks now post) s i = tick-IsSound config now post s i

-- Whatever the calls and whichever deletions fail: each line that was posted is the one line that is
-- shown, or was deleted, or waits to be deleted again after fewer than forty tries, or was given up.
pub perform_all-IsSound :
    (is_space : ℕ → Bool) (config : Settings) (ops : List Op) (s : Progress)
    → IsSound s
    → IsSound (perform_all is_space config ops s)
unfolding perform_all
perform_all-IsSound is_space config [] s i = i
perform_all-IsSound is_space config (op ∷ ops) s i =
    perform_all-IsSound is_space config ops (perform is_space config op s)
      (perform-IsSound is_space config op s i)

-- With deletions that succeed nothing is left to delete.
deletes :
    (now handle attempts : ℕ) (s : Progress)
    → s.deletions ≡ []
    → delete_or_keep now handle attempts s ≡ record s { deleted = handle ∷ s.deleted }
unfolding delete_or_keep
deletes now handle attempts s ok = ground (arith, ok)

retry_all_clears :
    (now : ℕ) (pending : List (ℕ × ℕ)) (s : Progress)
    → s.deletions ≡ []
    → s.handle ≡ none
    → s.leftovers ≡ []
    → let r = retry_all now pending s in (r.handle ≡ none) × (r.leftovers ≡ [])
unfolding retry_all
retry_all_clears now [] s ok gone clear = (gone, clear)
retry_all_clears now ((handle, attempts) ∷ pending) s ok gone clear =
    subst (λ m. let r = retry_all now pending m in (r.handle ≡ none) × (r.leftovers ≡ []))
      (sym (deletes now handle attempts s ok))
      (retry_all_clears now pending (record s { deleted = handle ∷ s.deleted }) ok gone clear)

remove_line_clears :
    (now : ℕ) (s : Progress)
    → s.deletions ≡ []
    → let m = remove_line now s in (m.deletions ≡ []) × (m.handle ≡ none)
unfolding remove_line
remove_line_clears now s ok =
    let P : Progress → Type 0 = λ m. (m.deletions ≡ []) × (m.handle ≡ none) in
    elim (Option-cases s.handle) [
      | inl nothing ↦ rw (remove_line, nothing) (ok, nothing)
      | inr (handle, here) ↦
          subst P
            (sym (removes now s handle here ∙ deletes now handle 0 (record s { handle = none }) ok))
            (ok, refl)
    ]

end_turn_clears :
    (config : Settings) (now : ℕ) (s : Progress)
    → s.deletions ≡ []
    → let r = end_turn config now s in (r.handle ≡ none) × (r.leftovers ≡ [])
unfolding end_turn retry_leftovers
end_turn_clears config now s ok =
    let m = remove_line now (record s { armed = false }) in
    let (still, gone) = remove_line_clears now (record s { armed = false }) ok in
    retry_all_clears now m.leftovers (record m { leftovers = [] }) still gone refl

-- A turn that ends while Discord answers: of all that was posted, in this turn and before it, exactly
-- the lines that were given up are left in the thread.
pub end_turn-leaves :
    (is_space : ℕ → Bool) (config : Settings) (ops : List Op) (now h : ℕ) (s : Progress)
    → IsSound s
    → let m = perform_all is_space config ops s in
      let r = end_turn config now (record m { deletions = [] }) in
      count h r.posted ≡ count h r.deleted + count h r.given_up
end_turn-leaves is_space config ops now h s i =
    let m = perform_all is_space config ops s in
    let n : Progress = record m { deletions = [] } in
    let j = perform_all-IsSound is_space config ops s i in
    let sound =
      end_turn-IsSound config now n (record { accounted = j.accounted; pending = j.pending }) in
    let (gone, clear) = end_turn_clears config now n refl in
    omega (arith, rw (gone, clear) at (sound.accounted h))
