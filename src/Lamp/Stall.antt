-- ===== src/Lamp/Stall.antt =====
-- The monitor of a turn: what a tick paints, and that it paints nothing when the turn is over
-- (c_lord/discord_ui/status.py, `_stall_monitor` and `_paint_stall`).
use c_lord.Prelude.{
  ℕ, ◌-◌, ◌≤◌, ◌<◌, String, Bool, true, false, some, List, [], ◌∷◌, if◌then◌else◌, string_key,
  nat_key, ◌≡◌, refl, sym, subst, arith, none,
}
use c_lord.TurnActivity.{running}
use c_lord.Lamp.{
  Lamp, emoji_waiting, emoji_stall_hard, stall_soft_seconds, stall_hard_seconds, set_reaction,
  stop_stall_timer, set_waiting, paint_stall, is_now, is_stalled, tick,
}
use c_lord.Lamp.Quiet.{set_reaction_active}

-- What the monitor's task may still do, also when the turn is over.
pub data Late : Type 0 where
  stalls_late : String → Late
  ticks_late : ℕ → Bool → Bool → Late

unfoldable pub perform_late : List Late → Lamp → Lamp
perform_late [] l = l
perform_late (stalls_late emoji ∷ steps) l = perform_late steps (paint_stall emoji l).0
perform_late (ticks_late now turn_done soft_warned ∷ steps) l =
    perform_late steps (tick now turn_done soft_warned l).0

paint_dropped : (emoji : String) (l : Lamp) → l.turn_active ≡ false → (paint_stall emoji l).0 ≡ l
unfolding paint_stall set_reaction
paint_dropped emoji l h = ground (arith, h)

tick_over :
    (now : ℕ) (turn_done soft_warned : Bool) (l : Lamp)
    → l.turn_active ≡ false
    → (tick now turn_done soft_warned l).0 ≡ l
unfolding tick
tick_over now turn_done soft_warned l h = ground (arith, h)

late_nothing : (steps : List Late) (l : Lamp) → l.turn_active ≡ false → perform_late steps l ≡ l
unfolding perform_late
late_nothing [] l h = refl
late_nothing (stalls_late emoji ∷ steps) l h =
    subst (λ m. perform_late steps m ≡ l) (sym (paint_dropped emoji l h)) (late_nothing steps l h)
late_nothing (ticks_late now turn_done soft_warned ∷ steps) l h =
    subst (λ m. perform_late steps m ≡ l) (sym (tick_over now turn_done soft_warned l h))
      (late_nothing steps l h)

-- A stall that the monitor decided to paint before the turn ended, and its later ticks, change nothing
-- any more, whatever came of the calls of the last paint.
pub set_waiting_last :
    (steps : List Late) (l : Lamp) → let r = set_waiting l in perform_late steps r.0 ≡ r.0
unfolding set_waiting stop_stall_timer
set_waiting_last steps l =
    late_nothing steps (set_waiting l).0 (set_reaction_active emoji_waiting (stop_stall_timer l))

-- What is right for a silence of `elapsed` seconds, given the lamp before.
pub record IsJudged (elapsed : ℕ) (soft_warned : Bool) (l : Lamp) (r : Lamp × Bool × Bool)
    : Type 0 where
  pub watches_on : r.2 ≡ true
  pub moved_again : elapsed < stall_soft_seconds → is_stalled r.0 ≡ false
  pub hard : stall_hard_seconds ≤ elapsed → is_now emoji_stall_hard r.0 ≡ true
  pub soft :
      stall_soft_seconds ≤ elapsed
      → elapsed < stall_hard_seconds
      → (is_now emoji_stall_hard r.0 ≡ is_now emoji_stall_hard l)
        × (soft_warned ≡ false → is_stalled r.0 ≡ true)

-- A call of the lamp's thread is out.
abbrev pub is_call_out : Lamp → Bool
is_call_out l = elim l.thread_id [ none ↦ false | some t ↦ running t l.activity ]

-- For how long nothing moved: a call that is out counts as moving.
abbrev pub silence : ℕ → Lamp → ℕ
silence now l = if is_call_out l then 0 else now - l.last_activity
