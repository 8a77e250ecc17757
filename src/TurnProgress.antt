-- ===== src/TurnProgress.antt =====
-- c_lord/discord_ui/turn_progress.py: `TurnProgress`, the one line that fills a silence. A handle is a
-- number. Beside the fields of the object stand the outcomes of the coming deletions and what became of
-- the lines: those that were posted, deleted, and given up. Times count seconds.
pub mod Labels
pub mod Short
pub mod Ledger
pub mod History
pub mod Words
mod Examples
use c_lord.Prelude.Texts.{Text, is_part}
use c_lord.Prelude.{
  ℕ, zero, suc, ◌+◌, ◌-◌, ◌/◌, ◌%◌, String, Bool, true, false, not, ◌&&◌, ◌||◌, Option, none, some,
  List, [], ◌∷◌, ◌++◌, map, if◌then◌else◌, is_some, nat_key, string_key, ◌==◌, leb, ltb,
}
use c_lord.Prelude.Dict.{Dict, get, insert, remove}
use c_lord.TurnProgress.Labels.{shorten, shorten_thought}

abbrev pub default_quiet_seconds : ℕ
default_quiet_seconds = 90

abbrev pub default_update_seconds : ℕ
default_update_seconds = 15

abbrev pub default_stalled_seconds : ℕ
default_stalled_seconds = 60

abbrev pub max_delete_retries : ℕ
max_delete_retries = 40

pub record Settings : Type 0 where
  pub quiet_seconds : ℕ
  pub update_seconds : ℕ
  pub stalled_seconds : ℕ

abbrev pub default_settings : Settings
default_settings = record {
  quiet_seconds = default_quiet_seconds;
  update_seconds = default_update_seconds;
  stalled_seconds = default_stalled_seconds;
}

pub record Progress : Type 0 where
  pub armed : Bool
  pub handle : Option ℕ
  pub turn_start : ℕ
  pub last_output : ℕ
  pub last_activity : ℕ
  pub last_edit : ℕ
  pub tool_label : Option Text
  pub tool_count : ℕ
  pub thought : Option Text
  pub running : Dict String (Option Text)
  pub leftovers : List (ℕ × ℕ)
  pub leftover_tried : ℕ
  pub deletions : List Bool  -- whether the next ones succeed; they do behind its end
  pub posted : List ℕ
  pub deleted : List ℕ
  pub given_up : List ℕ

unfoldable pub new_progress : List Bool → Progress
new_progress deletions = record {
  armed = false;
  handle = none;
  turn_start = 0;
  last_output = 0;
  last_activity = 0;
  last_edit = 0;
  tool_label = none;
  tool_count = 0;
  thought = none;
  running = [];
  leftovers = [];
  leftover_tried = 0;
  deletions = deletions;
  posted = [];
  deleted = [];
  given_up = [];
}

abbrev pub begun : ℕ → Progress → Progress
begun now s = record s {
  armed = true;
  turn_start = now;
  last_output = now;
  last_activity = now;
  tool_label = none;
  tool_count = 0;
  thought = none;
  running = [];
}

unfoldable pub begin_turn : ℕ → Bool → Progress → Progress
begin_turn now restart s = if s.armed && not restart then s else begun now s

-- After a deletion that failed.
unfoldable pub keep_leftover : ℕ → ℕ → ℕ → Progress → Progress
keep_leftover now handle attempts s =
    let s' : Progress = record s { leftover_tried = now } in
    if leb max_delete_retries attempts
    then record s' { given_up = handle ∷ s.given_up }
    else record s' { leftovers = s.leftovers ++ ((handle, attempts) ∷ []) }

unfoldable pub delete_or_keep : ℕ → ℕ → ℕ → Progress → Progress
delete_or_keep now handle attempts s = elim s.deletions [
  | [] ↦ record s { deleted = handle ∷ s.deleted }
  | ok ∷ deletions ↦
      let s' : Progress = record s { deletions = deletions } in
      if ok
      then record s' { deleted = handle ∷ s.deleted }
      else keep_leftover now handle (attempts + 1) s'
]

unfoldable pub remove_line : ℕ → Progress → Progress
remove_line now s = elim s.handle [
  | none ↦ s
  | some handle ↦ delete_or_keep now handle 0 (record s { handle = none })
]

unfoldable pub retry_all : ℕ → List (ℕ × ℕ) → Progress → Progress
retry_all now [] s = s
retry_all now ((handle, attempts) ∷ pending) s =
    retry_all now pending (delete_or_keep now handle attempts s)

unfoldable pub retry_leftovers : Settings → ℕ → Bool → Progress → Progress
retry_leftovers config now force s =
    if not force && ltb (now - s.leftover_tried) config.update_seconds
    then s
    else retry_all now s.leftovers (record s { leftovers = [] })

unfoldable pub end_turn : Settings → ℕ → Progress → Progress
end_turn config now s =
    retry_leftovers config now true (remove_line now (record s { armed = false }))

unfoldable pub note_output : ℕ → Progress → Progress
note_output now s = remove_line now (record s { last_output = now })

unfoldable pub start_all : List String → Progress → Progress
start_all [] s = s
start_all (tool ∷ started) s =
    start_all started (record s { running = insert tool s.tool_label s.running })

unfoldable pub finish_all : List String → Progress → Progress
finish_all [] s = s
finish_all (tool ∷ finished) s = finish_all finished (record s { running = remove tool s.running })

-- An empty label counts as none.
unfoldable pub label_with : (ℕ → Bool) → Option Text → Progress → Progress
label_with is_space none s = s
label_with is_space (some label) s =
    if is_part label
    then record s { tool_label = some (shorten is_space label); tool_count = s.tool_count + 1 }
    else s

unfoldable pub note_activity :
    (ℕ → Bool) → ℕ → Option Text → List String → List String → Progress → Progress
note_activity is_space now label started finished s =
    finish_all finished
      (start_all started (label_with is_space label (record s { last_activity = now })))

unfoldable pub note_thought : (ℕ → Bool) → ℕ → Text → Progress → Progress
note_thought is_space now text s =
    let shortened = shorten_thought is_space text in
    let s' : Progress = record s { last_activity = now } in
    if is_part shortened then record s' { thought = some shortened } else s'

-- What the line says: that Claude works, with its thought or its tool and their number, or that it
-- waits, with the seconds since it last moved. First the minutes and seconds of the turn.
pub data Line : Type 0 where
  working_thought : ℕ × ℕ → Text → Line
  working_tool : ℕ × ℕ → Text → ℕ → Line
  waiting : ℕ × ℕ → ℕ → Line

abbrev pub mmss : ℕ → ℕ × ℕ
mmss seconds = (seconds / 60, seconds % 60)

-- The label of the newest call that is open and has one.
abbrev pub has_label : Option Text → Bool
has_label none = false
has_label (some label) = is_part label

unfoldable pub newest_running : Dict String (Option Text) → Option Text
newest_running [] = none
newest_running ((tool, label) ∷ running) =
    let later = newest_running running in
    if is_some later then later else (if has_label label then label else none)

-- `moves` is whether the session was active a short while ago.
unfoldable pub tool_line : Bool → ℕ × ℕ → ℕ → ℕ → Option Text → Option Text → Line
tool_line moves elapsed idle tools (some label) last_label = working_tool elapsed label tools
tool_line moves elapsed idle tools none (some label) =
    if moves then working_tool elapsed label tools else waiting elapsed idle
tool_line moves elapsed idle tools none none = waiting elapsed idle

unfoldable pub line_of : Bool → ℕ × ℕ → ℕ → ℕ → Option Text → Option Text → Option Text → Line
line_of moves elapsed idle tools (some text) open_call last_label =
    if is_some open_call || moves
    then working_thought elapsed text
    else tool_line moves elapsed idle tools open_call last_label
line_of moves elapsed idle tools none open_call last_label =
    tool_line moves elapsed idle tools open_call last_label

unfoldable pub render : Settings → ℕ → Progress → Line
render config now s =
    let idle = now - s.last_activity in
    line_of (ltb idle config.stalled_seconds) (mmss (now - s.turn_start)) idle s.tool_count
      s.thought (newest_running s.running) s.tool_label

-- A tick; `post` is what sending a line gives. The line that is sent or put into the one that is there
-- comes second.
unfoldable pub show : Settings → ℕ → Option ℕ → Progress → Progress × Option Line
show config now post s =
    let body = render config now s in
    elim s.handle [
      | none ↦ elim post [
        | none ↦ (s, some body)
        | some handle ↦ (
          record s { handle = some handle; last_edit = now; posted = handle ∷ s.posted },
          some body,
        )
      ]
      | some handle ↦
          if leb config.update_seconds (now - s.last_edit)
          then (record s { last_edit = now }, some body)
          else (s, none)
    ]

unfoldable pub tick : Settings → ℕ → Option ℕ → Progress → Progress × Option Line
tick config now post s =
    let s' = retry_leftovers config now false s in
    if not s'.armed
    then (remove_line now s', none)
    else (if ltb (now - s'.last_output) config.quiet_seconds
        then (s', none)
        else show config now post s')
