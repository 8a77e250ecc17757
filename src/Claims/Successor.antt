-- ===== src/Claims/Successor.antt =====
-- The transcript that a `/clear` started (c_lord/transcript/claim.py, from `newest_transcript_id` on).
-- A project directory is the list of its `*.jsonl` files in the order of the listing. Times are in
-- milliseconds. `load` is `json.loads` on one line, `none` if it raises ValueError, and `parse_time`
-- is `datetime.fromisoformat(...).timestamp()` after the replacement of Z.
use c_lord.Prelude.Texts.{Text, cut_at, text_key}
use c_lord.Prelude.{
  ℕ, ◌*◌, Bool, false, ◌&&◌, ◌||◌, Option, none, some, List, [], ◌∷◌, nat_key, take, is_some, leb,
  ◌==◌, if◌then◌else◌,
}
use c_lord.Claims.{newline}

abbrev pub clear_probe_bytes : ℕ
clear_probe_bytes = 64 * 1024

abbrev pub successor_slack : ℕ
successor_slack = 5000

-- `<command-name>/clear</command-name>`
abbrev pub clear_content_prefix : Text
clear_content_prefix =
    60 ∷ 99 ∷ 111 ∷ 109 ∷ 109 ∷ 97 ∷ 110 ∷ 100 ∷ 45 ∷ 110 ∷ 97 ∷ 109 ∷ 101 ∷ 62 ∷ 47 ∷ 99 ∷ 108
    ∷ 101 ∷ 97 ∷ 114 ∷ 60 ∷ 47 ∷ 99 ∷ 111 ∷ 109 ∷ 109 ∷ 97 ∷ 110 ∷ 100 ∷ 45 ∷ 110 ∷ 97 ∷ 109 ∷ 101
    ∷ 62 ∷ []

-- `"content"`
abbrev pub content_key : Text
content_key = 34 ∷ 99 ∷ 111 ∷ 110 ∷ 116 ∷ 101 ∷ 110 ∷ 116 ∷ 34 ∷ []

-- A file: its name without `.jsonl`, what `stat` tells (the modification time is `none` where it
-- fails), and its bytes, `none` if it cannot be read.
pub record Transcript : Type 0 where
  pub stem : Text
  pub is_file : Bool
  pub mtime : Option ℕ
  pub size : ℕ
  pub bytes : Option Text

-- What is left of a text after a prefix.
abbrev pub after_prefix : Text → Text → Option Text
after_prefix [] text = some text
after_prefix (p ∷ prefix) [] = none
after_prefix (p ∷ prefix) (c ∷ text) =
    let rest = after_prefix prefix text in if p == c then rest else none

-- `\s` in a pattern of bytes.
abbrev pub is_blank_byte : ℕ → Bool
is_blank_byte c = (leb 9 c && leb c 13) || (c == 32)

abbrev pub skip_blanks : Text → Text
skip_blanks [] = []
skip_blanks (c ∷ text) = let rest = skip_blanks text in if is_blank_byte c then rest else c ∷ text

abbrev pub starts_with : Text → Text → Bool
starts_with prefix text = is_some (after_prefix prefix text)

abbrev pub blanks_then : Text → Option Text → Option Text
blanks_then prefix none = none
blanks_then prefix (some text) = after_prefix prefix (skip_blanks text)

-- The `/clear` pattern at the start of the bytes.
abbrev pub clear_command_here : Text → Bool
clear_command_here text = is_some (
    blanks_then (34 ∷ clear_content_prefix) (blanks_then (58 ∷ []) (after_prefix content_key text)))

abbrev pub has_clear_command : Text → Bool
has_clear_command [] = clear_command_here []
has_clear_command (c ∷ text) = clear_command_here (c ∷ text) || has_clear_command text

unfoldable pub starts_with_clear : Transcript → Bool
starts_with_clear path = elim (path.bytes) [
  | none ↦ false
  | some raw ↦ has_clear_command (take clear_probe_bytes raw)
]

mutual
  -- What `json.loads` makes of a line, as far as it is looked into.
  pub data Json : Type 0 where
    json_text : Text → Json
    json_object : Members → Json
    json_other : Json

  pub data Members : Type 0 where
    no_members : Members
    member : Text → Json → Members → Members

-- `event.get(name)`
abbrev pub get_member : Text → Members → Option Json
get_member name no_members = none
get_member name (member key value rest) =
    let other = get_member name rest in if key == name then some value else other

abbrev pub text_of : Option Json → Option Text
text_of (some (json_text text)) = some text
text_of (some (json_object fields)) = none
text_of (some json_other) = none
text_of none = none

-- The content of an event's message, if it is a text.
abbrev pub content_of : Option Json → Option Text
content_of (some (json_object fields)) =
    text_of (get_member (99 ∷ 111 ∷ 110 ∷ 116 ∷ 101 ∷ 110 ∷ 116 ∷ []) fields)
content_of (some (json_text text)) = none
content_of (some json_other) = none
content_of none = none

abbrev pub all_but_last : List Text → List Text
all_but_last [] = []
all_but_last (line ∷ []) = []
all_but_last (line ∷ next ∷ lines) = line ∷ all_but_last (next ∷ lines)

-- `raw.split(b"\n")[:-1]`
abbrev pub complete_lines : Text → List Text
complete_lines raw =
    let (line, lines) = cut_at (λ c. c == newline) raw in all_but_last (line ∷ lines)

module _ (load : Text → Option Json) (parse_time : Text → Option ℕ) where
  abbrev pub event_of : Option Json → List Members → List Members
  event_of (some (json_object event)) events = event ∷ events
  event_of (some (json_text text)) events = events
  event_of (some json_other) events = events
  event_of none events = events

  abbrev pub events_of : List Text → List Members
  events_of [] = []
  events_of (line ∷ lines) = event_of (load line) (events_of lines)

  abbrev pub head_events : Transcript → List Members
  head_events path = elim (path.bytes) [
    | none ↦ []
    | some raw ↦ events_of (complete_lines (take clear_probe_bytes raw))
  ]

  abbrev pub parse_ts : Option Json → Option ℕ
  parse_ts value = elim (text_of value) [ none ↦ none | some text ↦ parse_time text ]

  abbrev pub timestamp_of : Members → Option ℕ
  timestamp_of event =
      parse_ts (get_member (116 ∷ 105 ∷ 109 ∷ 101 ∷ 115 ∷ 116 ∷ 97 ∷ 109 ∷ 112 ∷ []) event)

  unfoldable pub started_at : List Members → Option ℕ
  started_at [] = none
  started_at (event ∷ events) =
      let rest = started_at events in elim (timestamp_of event) [ none ↦ rest | some ts ↦ some ts ]

  -- A user event whose content opens with the `/clear` command.
  abbrev pub is_clear_event : Members → Bool
  is_clear_event event =
      let kind = text_of (get_member (116 ∷ 121 ∷ 112 ∷ 101 ∷ []) event) in
      let content = content_of (get_member (109 ∷ 101 ∷ 115 ∷ 115 ∷ 97 ∷ 103 ∷ 101 ∷ []) event) in
      elim kind [
        | none ↦ false
        | some k ↦
            k == (117 ∷ 115 ∷ 101 ∷ 114 ∷ [])
            && elim content [ none ↦ false | some text ↦ starts_with clear_content_prefix text ]
      ]

  abbrev pub first_clear : List Members → Option ℕ
  first_clear [] = none
  first_clear (event ∷ events) =
      let rest = first_clear events in if is_clear_event event then timestamp_of event else rest

  unfoldable pub cleared_at : Transcript → Option ℕ
  cleared_at path = first_clear (head_events path)
