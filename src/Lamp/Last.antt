-- ===== src/Lamp/Last.antt =====
-- The last paint of a turn (c_lord/discord_ui/status.py, `set_waiting` and `set_error`).
use c_lord.Prelude.{
  if_cases, ℕ, ◌-◌, ltb, leb, nat_key, String, Bool, true, false, not, ◌&&◌, none, some, List, [],
  ◌∷◌, if◌then◌else◌, string_key, ◌≡◌, refl, sym, ◌∙◌, arith,
}
use c_lord.TurnActivity.{TurnActivity}
use c_lord.Lamp.{
  Lamp, emoji_running, emoji_waiting, emoji_error, emoji_compact, emoji_stall_hard,
  remove_current_locked, and_then, is_now, set_reaction, stop_stall_timer, start_stall_timer,
  reset_stall_timer, set_running, set_tool, set_waiting, set_compact, set_error, cleanup,
  paint_stall, mark_abandoned, note_running, judge, tick, after_paint, is_stalled, emoji_stall_soft,
  stall_soft_seconds, stall_hard_seconds,
}
use c_lord.Lamp.Truth.{is_open, IsTracked, and_then_cases, IsClear, remove_current_locked-IsRemoved}
use c_lord.Lamp.Quiet.{set_reaction-IsSettled}
use c_lord.Lamp.Paint.{set_reaction-IsStored, set_reaction_final}

-- What may happen to a lamp: the runner's and the processor's calls, its monitor, an event of the
-- transcript, and what other turns do to the registry of activity.
pub data Op : Type 0 where
  runs tools compacts notes : ℕ → Op
  waits errs cleans abandons : Op
  stalls : String → Op
  ticks : ℕ → Bool → Bool → Op
  others : TurnActivity → Op

unfoldable pub perform : Op → Lamp → Lamp
perform (runs now) l = (set_running now l).0
perform (tools now) l = (set_tool now l).0
perform (compacts now) l = (set_compact now l).0
perform (notes now) l = reset_stall_timer now l
perform waits l = (set_waiting l).0
perform errs l = (set_error l).0
perform cleans l = (cleanup l).0
perform abandons l = (mark_abandoned l).0
perform (stalls emoji) l = (paint_stall emoji l).0
perform (ticks now turn_done soft_warned) l = (tick now turn_done soft_warned l).0
perform (others activity) l = record l { activity = activity }

unfoldable pub perform_all : List Op → Lamp → Lamp
perform_all [] l = l
perform_all (op ∷ ops) l = perform_all ops (perform op l)

-- A step that leaves the message, and what is known of it, alone.
IsTracked-with :
    (l m : Lamp)
    → m.guild ≡ l.guild
    → m.out_of_sync ≡ l.out_of_sync
    → m.shown ≡ l.shown
    → m.current_emoji ≡ l.current_emoji
    → IsTracked l
    → IsTracked m
IsTracked-with l m guild sync shown current t = record {
  in_guild = guild ∙ t.in_guild;
  known = λ h. rw (shown, current) (t.known (sym sync ∙ h));
}

pub stop_stall_timer-IsTracked : (l : Lamp) → IsTracked l → IsTracked (stop_stall_timer l)
unfolding stop_stall_timer
stop_stall_timer-IsTracked l t = IsTracked-with l (stop_stall_timer l) refl refl refl refl t

start_stall_timer-IsTracked :
    (now : ℕ) (l : Lamp) → IsTracked l → IsTracked (start_stall_timer now l)
unfolding start_stall_timer stop_stall_timer
start_stall_timer-IsTracked now l t =
    IsTracked-with l (start_stall_timer now l) (ground arith) (ground arith) (ground arith)
      (ground arith) t

IsTracked-and_then :
    (r : Lamp × Bool) (next_step : Lamp → Lamp × Bool)
    → IsTracked r.0
    → ((l : Lamp) → IsTracked l → IsTracked (next_step l).0)
    → IsTracked (and_then r next_step).0
IsTracked-and_then r next_step t keeps =
    and_then_cases (λ r. IsTracked r.0) r next_step (λ h. t) (λ h. keeps r.0 t)

set_reaction-IsTracked :
    (emoji : String) (only_while_running final : Bool) (l : Lamp)
    → IsTracked l
    → IsTracked (set_reaction emoji only_while_running final l).0
set_reaction-IsTracked emoji only_while_running final l t =
    (set_reaction-IsStored emoji only_while_running final l t).0

judge-IsTracked :
    (elapsed : ℕ) (soft_warned : Bool) (l : Lamp)
    → IsTracked l
    → IsTracked (judge elapsed soft_warned l).0
unfolding judge paint_stall
judge-IsTracked elapsed soft_warned l t =
    let P : Lamp × Bool × Bool → Type 0 = λ r. IsTracked r.0 in
    let rest =
      if leb stall_soft_seconds elapsed && (not soft_warned && not (is_now emoji_stall_hard l))
      then after_paint (paint_stall emoji_stall_soft l) true
      else (l, soft_warned, true) in
    if_cases P (ltb elapsed stall_soft_seconds && is_stalled l)
      (after_paint (set_reaction emoji_running true false l) false)
      (if leb stall_hard_seconds elapsed && not (is_now emoji_stall_hard l)
        then after_paint (paint_stall emoji_stall_hard l) soft_warned
        else rest)
      (λ back. set_reaction-IsTracked emoji_running true false l t)
      (λ silent.
        if_cases P (leb stall_hard_seconds elapsed && not (is_now emoji_stall_hard l))
          (after_paint (paint_stall emoji_stall_hard l) soft_warned) rest
          (λ hard. set_reaction-IsTracked emoji_stall_hard true false l t)
          (λ not_hard.
            if_cases P
              (leb stall_soft_seconds elapsed
                && (not soft_warned && not (is_now emoji_stall_hard l)))
              (after_paint (paint_stall emoji_stall_soft l) true) (l, soft_warned, true)
              (λ soft. set_reaction-IsTracked emoji_stall_soft true false l t) (λ nothing. t)))

pub note_running-IsTracked : (now : ℕ) (l : Lamp) → IsTracked l → IsTracked (note_running now l)
unfolding note_running reset_stall_timer
note_running-IsTracked now l t =
    IsTracked-with l (note_running now l) (ground arith) (ground arith) (ground arith)
      (ground arith) t

tick-IsTracked :
    (now : ℕ) (turn_done soft_warned : Bool) (l : Lamp)
    → IsTracked l
    → IsTracked (tick now turn_done soft_warned l).0
unfolding tick set_waiting
tick-IsTracked now turn_done soft_warned l t =
    let P : Lamp × Bool × Bool → Type 0 = λ r. IsTracked r.0 in
    let m = note_running now l in
    let ended : Lamp × Bool × Bool = ((set_waiting l).0, soft_warned, false) in
    let goes_on = judge (now - m.last_activity) soft_warned m in
    if_cases P (not l.turn_active) (l, soft_warned, false) (if turn_done then ended else goes_on)
      (λ over. t)
      (λ active.
        if_cases P turn_done ended goes_on
          (λ over.
            set_reaction-IsTracked emoji_waiting false true (stop_stall_timer l)
              (stop_stall_timer-IsTracked l t))
          (λ runs_on.
            judge-IsTracked (now - m.last_activity) soft_warned m (note_running-IsTracked now l t)))

perform-IsTracked : (op : Op) (l : Lamp) → IsTracked l → IsTracked (perform op l)
unfolding perform set_running set_tool set_compact set_waiting set_error cleanup mark_abandoned
    paint_stall reset_stall_timer
perform-IsTracked (runs now) l t =
    IsTracked-and_then (set_reaction emoji_running false false l)
      (λ l'. (start_stall_timer now l', false))
      (set_reaction-IsTracked emoji_running false false l t) (start_stall_timer-IsTracked now)
perform-IsTracked (tools now) l t =
    IsTracked-and_then (set_reaction emoji_running false false l)
      (λ l'. (reset_stall_timer now l', false))
      (set_reaction-IsTracked emoji_running false false l t)
      (λ l' t'. IsTracked-with l' (reset_stall_timer now l') refl refl refl refl t')
perform-IsTracked (compacts now) l t =
    IsTracked-and_then (set_reaction emoji_compact false false l)
      (λ l'. (reset_stall_timer now l', false))
      (set_reaction-IsTracked emoji_compact false false l t)
      (λ l' t'. IsTracked-with l' (reset_stall_timer now l') refl refl refl refl t')
perform-IsTracked (notes now) l t = IsTracked-with l (reset_stall_timer now l) refl refl refl refl t
perform-IsTracked waits l t =
    set_reaction-IsTracked emoji_waiting false true (stop_stall_timer l)
      (stop_stall_timer-IsTracked l t)
perform-IsTracked errs l t =
    set_reaction-IsTracked emoji_error false true (stop_stall_timer l)
      (stop_stall_timer-IsTracked l t)
perform-IsTracked cleans l t =
    let m = stop_stall_timer l in
    let t' = stop_stall_timer-IsTracked l t in
    let r = remove_current_locked m in
    let (same, sync) = remove_current_locked-IsRemoved m t' in
    and_then_cases (λ r. IsTracked r.0) r (λ l'. (record l' { current_emoji = none }, false))
      (λ stopped. record {
        in_guild = same.guild_same ∙ t'.in_guild;
        known = λ h. absurd (ground (arith, stopped, (sync h).1));
      })
      (λ goes_on. record {
        in_guild = same.guild_same ∙ t'.in_guild;
        known = λ h e opened there. absurd (ground (arith, there, (sync h).0 e opened));
      })
perform-IsTracked abandons l t =
    IsTracked-and_then (paint_stall emoji_stall_hard l) (λ l'. (stop_stall_timer l', false))
      (set_reaction-IsTracked emoji_stall_hard true false l t) stop_stall_timer-IsTracked
perform-IsTracked (stalls emoji) l t = set_reaction-IsTracked emoji true false l t
perform-IsTracked (ticks now turn_done soft_warned) l t =
    tick-IsTracked now turn_done soft_warned l t
perform-IsTracked (others activity) l t =
    IsTracked-with l (record l { activity = activity }) refl refl refl refl t

pub perform_all-IsTracked : (ops : List Op) (l : Lamp) → IsTracked l → IsTracked (perform_all ops l)
unfolding perform_all
perform_all-IsTracked [] l t = t
perform_all-IsTracked (op ∷ ops) l t =
    perform_all-IsTracked ops (perform op l) (perform-IsTracked op l t)

waiting_closed : is_open emoji_waiting ≡ false
unfolding is_open
waiting_closed = refl

-- A lamp on a message of a guild of which the manager knows at first what it shows, or knows that it is
-- out of sync. Whatever is painted then, by whichever steps, and whichever calls of Discord fail, also
-- half of them, or are cancelled: the paint of a turn's end that goes through leaves no open lamp on the
-- message, or else the manager knows that it is out of sync; and if the calls of this last paint
-- succeed it does go through and is in sync.
pub set_waiting-clears :
    (l : Lamp) (ops : List Op)
    → IsTracked l
    → let m = perform_all ops l in
      let r = set_waiting m in
      let q = set_waiting (record m { calls = [] }) in
      (r.1 ≡ false
        → r.0.out_of_sync ≡ false
        → IsClear r.0.shown × (r.0.current_emoji ≡ some emoji_waiting))
      × (q.1 ≡ false)
      × (q.0.out_of_sync ≡ false)
      × IsClear q.0.shown
unfolding set_waiting stop_stall_timer
set_waiting-clears l ops t =
    let m = perform_all ops l in
    let s = stop_stall_timer m in
    let n : Lamp = record s { calls = [] } in
    let t' = stop_stall_timer-IsTracked m (perform_all-IsTracked ops l t) in
    let t'' = IsTracked-with s n refl refl refl refl t' in
    let (on, sync) = set_reaction-IsSettled emoji_waiting n refl t''.in_guild in
    let closed = waiting_closed in
    (
      set_reaction_final emoji_waiting s t' closed,
      on,
      sync,
      (set_reaction_final emoji_waiting n t'' closed on sync).0,
    )
