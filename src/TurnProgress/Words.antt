-- ===== src/TurnProgress/Words.antt =====
-- What the line says (c_lord/discord_ui/turn_progress.py, `_render`).
use c_lord.Prelude.Texts.{Text, is_part}
use c_lord.Prelude.{
  ℕ, ◌-◌, String, Bool, true, false, ◌&&◌, ◌||◌, Option, none, some, is_some, List, [], ◌∷◌, ltb,
  ◌≡◌, refl, ap, subst, ◌∙◌, arith, Bool-cases, inl, inr, if◌then◌else◌,
}
use c_lord.Prelude.Dict.{Dict}
use c_lord.TurnProgress.{
  Settings, Progress, Line, mmss, working_thought, working_tool, waiting, newest_running, tool_line,
  line_of, render,
}

abbrev pub is_working : Line → Bool
is_working (working_thought elapsed text) = true
is_working (working_tool elapsed label count) = true
is_working (waiting elapsed idle) = false

-- The labels of the calls that are open and have one, in the order in which they began.
abbrev pub open_labels : Dict String (Option Text) → List Text
open_labels [] = []
open_labels ((tool, none) ∷ running) = open_labels running
open_labels ((tool, some label) ∷ running) =
    let rest = open_labels running in if is_part label then label ∷ rest else rest

abbrev pub last_text : List Text → Option Text
last_text [] = none
last_text (label ∷ []) = some label
last_text (label ∷ next_label ∷ labels) = last_text (next_label ∷ labels)

-- What is right for a line with these inputs.
abbrev pub IsSaid : Bool → ℕ → ℕ → Option Text → Option Text → Option Text → Line → Type 0
IsSaid moves idle tools thought open_call last_label line =
    (is_working line ≡ (is_some open_call || (moves && (is_some thought || is_some last_label))))
    × ((text : Text)
        → thought ≡ some text
        → is_working line ≡ true
        → (e : ℕ × ℕ) × (line ≡ working_thought e text))
    × ((label : Text)
        → thought ≡ none
        → open_call ≡ some label
        → (e : ℕ × ℕ) × (line ≡ working_tool e label tools))
    × (is_working line ≡ false → (e : ℕ × ℕ) × (line ≡ waiting e idle))

last_text_some : (label : Text) (labels : List Text) → is_some (last_text (label ∷ labels)) ≡ true
last_text_some label [] = refl
last_text_some label (next_label ∷ labels) = last_text_some next_label labels

last_text-later :
    (label : Text) (labels : List Text)
    → (if is_some (last_text labels) then last_text labels else some label)
      ≡ last_text (label ∷ labels)
last_text-later label [] = refl
last_text-later label (next_label ∷ labels) = rw (last_text_some next_label labels) refl

or_none : (o : Option Text) → (if is_some o then o else none) ≡ o
or_none none = refl
or_none (some label) = refl

newest_running-open_labels :
    (running : Dict String (Option Text)) → newest_running running ≡ last_text (open_labels running)
unfolding newest_running
newest_running-open_labels [] = refl
newest_running-open_labels ((tool, none) ∷ running) =
    or_none (newest_running running) ∙ newest_running-open_labels running
newest_running-open_labels ((tool, some label) ∷ running) =
    let rest = newest_running-open_labels running in
    elim (Bool-cases (is_part label)) [
      | inl full ↦
          rw (newest_running, open_labels, full, rest) (last_text-later label (open_labels running))
      | inr bare ↦ rw (newest_running, open_labels, bare) (or_none (newest_running running) ∙ rest)
    ]

line_of-IsSaid :
    (moves : Bool) (elapsed : ℕ × ℕ) (idle tools : ℕ) (thought open_call last_label : Option Text)
    → IsSaid moves idle tools thought open_call last_label
        (line_of moves elapsed idle tools thought open_call last_label)
unfolding line_of tool_line
line_of-IsSaid moves elapsed idle tools none (some l) last_label = (
  refl,
  λ t h k. absurd (ground (arith, h)),
  λ label h k. (elapsed, ap (λ z. working_tool elapsed z tools) (ground (arith, k))),
  λ h. absurd (ground (arith, h)),
)
line_of-IsSaid true elapsed idle tools none none (some l) = (
  refl,
  λ t h k. absurd (ground (arith, h)),
  λ label h k. absurd (ground (arith, k)),
  λ h. absurd (ground (arith, h)),
)
line_of-IsSaid false elapsed idle tools none none (some l) = (
  refl,
  λ t h k. absurd (ground (arith, h)),
  λ label h k. absurd (ground (arith, k)),
  λ h. (elapsed, refl),
)
line_of-IsSaid true elapsed idle tools none none none = (
  refl,
  λ t h k. absurd (ground (arith, h)),
  λ label h k. absurd (ground (arith, k)),
  λ h. (elapsed, refl),
)
line_of-IsSaid false elapsed idle tools none none none = (
  refl,
  λ t h k. absurd (ground (arith, h)),
  λ label h k. absurd (ground (arith, k)),
  λ h. (elapsed, refl),
)
line_of-IsSaid moves elapsed idle tools (some w) (some l) last_label = (
  refl,
  λ t h k. (elapsed, ap (working_thought elapsed) (ground (arith, h))),
  λ label h k. absurd (ground (arith, h)),
  λ h. absurd (ground (arith, h)),
)
line_of-IsSaid true elapsed idle tools (some w) none last_label = (
  refl,
  λ t h k. (elapsed, ap (working_thought elapsed) (ground (arith, h))),
  λ label h k. absurd (ground (arith, h)),
  λ h. absurd (ground (arith, h)),
)
line_of-IsSaid false elapsed idle tools (some w) none (some l) = (
  refl,
  λ t h k. absurd (ground (arith, k)),
  λ label h k. absurd (ground (arith, h)),
  λ h. (elapsed, refl),
)
line_of-IsSaid false elapsed idle tools (some w) none none = (
  refl,
  λ t h k. absurd (ground (arith, k)),
  λ label h k. absurd (ground (arith, h)),
  λ h. (elapsed, refl),
)

-- The line says that Claude works exactly if a call with a label is open, however long ago it started,
-- or the session moved a short while ago and left a thought or a label; if there is a thought, that is
-- what it quotes then; without a thought it names the label of the newest call that is open and has
-- one, with the number of calls; and when it says that Claude waits, it tells for how long nothing moved.
pub render-IsSaid :
    (config : Settings) (now : ℕ) (s : Progress)
    → let idle = now - s.last_activity in
      IsSaid
        (ltb idle config.stalled_seconds)
        idle
        s.tool_count
        s.thought
        (last_text (open_labels s.running))
        s.tool_label
        (render config now s)
unfolding render
render-IsSaid config now s =
    let idle = now - s.last_activity in
    let moves = ltb idle config.stalled_seconds in
    subst (λ o. IsSaid moves idle s.tool_count s.thought o s.tool_label (render config now s))
      (newest_running-open_labels s.running)
      (line_of-IsSaid moves (mmss (now - s.turn_start)) idle s.tool_count s.thought
        (newest_running s.running) s.tool_label)
