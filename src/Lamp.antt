-- ===== src/Lamp.antt =====
-- c_lord/discord_ui/status.py: `StatusManager`, the reaction that shows the state of one turn. The
-- reactions on the message and the outcomes of the coming calls of Discord stand beside the manager's
-- own fields. A paint holds the lock, so it is one step, and a task that is cancelled in it ends with
-- the call that is out. Times count seconds.
pub mod Truth
pub mod Paint
pub mod Quiet
pub mod Last
pub mod Stall
mod Examples
use c_lord.Prelude.{
  ℕ, ◌-◌, String, Bool, true, false, not, ◌&&◌, ◌||◌, Option, none, some, List, [], ◌∷◌, ◌++◌,
  contains, keep, if◌then◌else◌, nat_key, string_key, ◌==◌, ltb, leb,
}
use c_lord.TurnActivity.{TurnActivity, subscribe, unsubscribe, is_current, running}

abbrev pub emoji_running : String
emoji_running = "🟢"

abbrev pub emoji_waiting : String
emoji_waiting = "🟡"

abbrev pub emoji_error : String
emoji_error = "❌"

abbrev pub emoji_stall_soft : String
emoji_stall_soft = "⏳"

abbrev pub emoji_stall_hard : String
emoji_stall_hard = "⚠\u{fe0f}"

abbrev pub emoji_compact : String
emoji_compact = "🗜\u{fe0f}"

abbrev pub open_lamps : List String
open_lamps = emoji_running ∷ emoji_stall_soft ∷ emoji_stall_hard ∷ emoji_compact ∷ []

abbrev pub stall_soft_seconds : ℕ
stall_soft_seconds = 10

abbrev pub stall_hard_seconds : ℕ
stall_hard_seconds = 30

-- How a reaction call ends; the truth value is whether Discord had applied it all the same.
pub data Call : Type 0 where
  done : Call
  failed cancelled : Bool → Call

pub record Lamp : Type 0 where
  pub shown : List String
  pub calls : List Call  -- `done` behind its end
  pub guild : Bool
  pub thread_id : Option ℕ
  pub listener : ℕ
  pub activity : TurnActivity
  pub subscribed : Bool
  pub listening : Bool
  pub monitored : Bool
  pub turn_active : Bool
  pub current_emoji : Option String
  pub out_of_sync : Bool
  pub last_activity : ℕ

unfoldable pub new_lamp : Bool → Option ℕ → ℕ → TurnActivity → ℕ → List String → List Call → Lamp
new_lamp guild thread_id listener activity now shown calls = record {
  shown = shown;
  calls = calls;
  guild = guild;
  thread_id = thread_id;
  listener = listener;
  activity = activity;
  subscribed = false;
  listening = false;
  monitored = false;
  turn_active = false;
  current_emoji = none;
  out_of_sync = false;
  last_activity = now;
}

-- A lamp that an earlier process painted.
unfoldable pub adopt : String → Lamp → Lamp
adopt emoji l = record l { current_emoji = some emoji }

unfoldable pub displaced : Lamp → Bool
displaced l = elim l.thread_id [
  | none ↦ false
  | some t ↦ l.listening && not (is_current t l.listener l.activity)
]

abbrev pub put_on : String → List String → List String
put_on e shown = if contains e shown then shown else shown ++ (e ∷ [])

abbrev pub take_off : String → List String → List String
take_off e shown = keep (λ x. not (x == e)) shown

-- The end of a call. The flag of the result says that the task was cancelled in it.
unfoldable pub answer : Call → (List String → List String) → Lamp → Lamp × Bool
answer done change l = (record l { shown = change l.shown }, false)
answer (failed applied) change l =
    (record l { shown = if applied then change l.shown else l.shown; out_of_sync = true }, false)
answer (cancelled applied) change l =
    (record l { shown = if applied then change l.shown else l.shown; out_of_sync = true }, true)

unfoldable pub react : (List String → List String) → Lamp → Lamp × Bool
react change l = elim l.calls [
  | [] ↦ answer done change l
  | c ∷ calls ↦ answer c change (record l { calls = calls })
]

-- `if not self._current_emoji`
abbrev pub painted : Lamp → Option String
painted l = elim l.current_emoji [ some e ↦ if e == "" then none else some e | none ↦ none ]

unfoldable pub remove_current_locked : Lamp → Lamp × Bool
remove_current_locked l = elim (painted l) [
  | none ↦ (l, false)
  | some e ↦ if l.guild then react (take_off e) l else (l, false)
]

-- What is done next unless the task was cancelled.
abbrev pub and_then : Lamp × Bool → (Lamp → Lamp × Bool) → Lamp × Bool
and_then r next = if r.1 then r else next r.0

abbrev pub is_now : String → Lamp → Bool
is_now emoji l = elim l.current_emoji [ some e ↦ e == emoji | none ↦ false ]

unfoldable pub change_to : String → Lamp → Lamp × Bool
change_to emoji l =
    if is_now emoji l
    then (l, false)
    else and_then (remove_current_locked l)
        (λ l'. react (put_on emoji) (record l' { current_emoji = some emoji }))

unfoldable pub sweep_all : String → List String → Lamp → Lamp × Bool
sweep_all kept [] l = (l, false)
sweep_all kept (stray ∷ strays) l =
    if stray == kept
    then sweep_all kept strays l
    else and_then (react (take_off stray) l) (sweep_all kept strays)

unfoldable pub sweep_locked : String → Lamp → Lamp × Bool
sweep_locked kept l =
    if l.guild then sweep_all kept open_lamps (record l { out_of_sync = false }) else (l, false)

unfoldable pub set_reaction : String → Bool → Bool → Lamp → Lamp × Bool
set_reaction emoji only_while_running final l =
    if only_while_running && not l.turn_active
    then (l, false)
    else and_then (change_to emoji l)
        (λ l'. if final && l'.out_of_sync then sweep_locked emoji l' else (l', false))

unfoldable pub stop_stall_timer : Lamp → Lamp
stop_stall_timer l = record l {
  turn_active = false;
  activity = elim l.thread_id [
    | none ↦ l.activity
    | some t ↦ if l.subscribed then unsubscribe t l.listener l.activity else l.activity
  ];
  subscribed = false;
  monitored = false;
}

unfoldable pub start_stall_timer : ℕ → Lamp → Lamp
start_stall_timer now l =
    let s = stop_stall_timer l in
    let s' : Lamp = record s { last_activity = now; turn_active = true; monitored = true } in
    elim s.thread_id [
      | none ↦ s'
      | some t ↦ record s' {
        listening = true;
        subscribed = true;
        activity = subscribe t s.listener s.activity;
      }
    ]

unfoldable pub reset_stall_timer : ℕ → Lamp → Lamp
reset_stall_timer now l = record l { last_activity = now }

unfoldable pub set_running : ℕ → Lamp → Lamp × Bool
set_running now l =
    and_then (set_reaction emoji_running false false l) (λ l'. (start_stall_timer now l', false))

unfoldable pub set_tool : ℕ → Lamp → Lamp × Bool
set_tool now l =
    and_then (set_reaction emoji_running false false l) (λ l'. (reset_stall_timer now l', false))

unfoldable pub set_waiting : Lamp → Lamp × Bool
set_waiting l = set_reaction emoji_waiting false true (stop_stall_timer l)

unfoldable pub set_compact : ℕ → Lamp → Lamp × Bool
set_compact now l =
    and_then (set_reaction emoji_compact false false l) (λ l'. (reset_stall_timer now l', false))

unfoldable pub set_error : Lamp → Lamp × Bool
set_error l = set_reaction emoji_error false true (stop_stall_timer l)

unfoldable pub cleanup : Lamp → Lamp × Bool
cleanup l =
    and_then (remove_current_locked (stop_stall_timer l))
      (λ l'. (record l' { current_emoji = none }, false))

unfoldable pub paint_stall : String → Lamp → Lamp × Bool
paint_stall emoji l = set_reaction emoji true false l

unfoldable pub mark_abandoned : Lamp → Lamp × Bool
mark_abandoned l = and_then (paint_stall emoji_stall_hard l) (λ l'. (stop_stall_timer l', false))

abbrev pub is_stalled : Lamp → Bool
is_stalled l = is_now emoji_stall_soft l || is_now emoji_stall_hard l

-- A call is out, which is work.
unfoldable pub note_running : ℕ → Lamp → Lamp
note_running now l = elim l.thread_id [
  | none ↦ l
  | some t ↦ if running t l.activity then reset_stall_timer now l else l
]

-- What a tick of the monitor leaves: the lamp, the monitor's `soft_warned`, which it sets with its ⏳ and
-- takes back only with its own way back to 🟢, and whether the monitor goes on.
abbrev pub after_paint : Lamp × Bool → Bool → Lamp × Bool × Bool
after_paint r soft_warned = (r.0, soft_warned, not r.1)

unfoldable pub judge : ℕ → Bool → Lamp → Lamp × Bool × Bool
judge elapsed soft_warned l =
    if ltb elapsed stall_soft_seconds && is_stalled l
    then after_paint (set_reaction emoji_running true false l) false
    else (if leb stall_hard_seconds elapsed && not (is_now emoji_stall_hard l)
        then after_paint (paint_stall emoji_stall_hard l) soft_warned
        else (if leb stall_soft_seconds elapsed
              && (not soft_warned && not (is_now emoji_stall_hard l))
            then after_paint (paint_stall emoji_stall_soft l) true
            else (l, soft_warned, true)))

-- One round of `_stall_monitor`; `turn_done` is whether the turn's task has ended.
unfoldable pub tick : ℕ → Bool → Bool → Lamp → Lamp × Bool × Bool
tick now turn_done soft_warned l =
    if not l.turn_active
    then (l, soft_warned, false)
    else (if turn_done
        then (let r = set_waiting l in (r.0, soft_warned, false))
        else (let l' = note_running now l in judge (now - l'.last_activity) soft_warned l'))
