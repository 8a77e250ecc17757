-- ===== src/Resolver/Live.antt =====
-- The session ids that live interactive claudes were started with (c_lord/transcript/resolver.py,
-- `live_session_ids` and `derive_project_dir`). A process is what /proc tells of it, `none` where a
-- read raises OSError; `realpath` is `os.path.realpath`.
use c_lord.Prelude.Texts.{Text, cut_at, text_key}
use c_lord.Prelude.{
  ℕ, Bool, false, not, ◌&&◌, ◌||◌, Option, none, some, is_some, List, [], ◌∷◌, ◌++◌, map, take,
  contains, nat_key, ◌==◌, if◌then◌else◌,
}
use c_lord.Claims.{is_session_id}
use c_lord.Claims.Successor.{after_prefix, starts_with}

pub record Process : Type 0 where
  pub argv : Option (List Text)
  pub cwd : Option Text

abbrev pub dashed : ℕ → ℕ
dashed c = if c == 47 || c == 46 then 45 else c

abbrev pub is_absolute : Text → Bool
is_absolute [] = false
is_absolute (c ∷ path) = c == 47

-- The name of the transcript directory for a working directory.
unfoldable pub derive_project_dir : (Text → Text) → Text → Text
derive_project_dir realpath cwd = map dashed (if is_absolute cwd then cwd else realpath cwd)

abbrev pub last_part : Text → List Text → Text
last_part part [] = part
last_part part (next_part ∷ parts) = last_part next_part parts

abbrev pub basename : Text → Text
basename path = let (part, parts) = cut_at (λ c. c == 47) path in last_part part parts

-- `--resume`, `-r` and `--session-id`
abbrev pub session_flags : List Text
session_flags =
    (45 ∷ 45 ∷ 114 ∷ 101 ∷ 115 ∷ 117 ∷ 109 ∷ 101 ∷ [])
    ∷ (45 ∷ 114 ∷ [])
    ∷ (45 ∷ 45 ∷ 115 ∷ 101 ∷ 115 ∷ 115 ∷ 105 ∷ 111 ∷ 110 ∷ 45 ∷ 105 ∷ 100 ∷ [])
    ∷ []

abbrev pub resume_equals : Text
resume_equals = 45 ∷ 45 ∷ 114 ∷ 101 ∷ 115 ∷ 117 ∷ 109 ∷ 101 ∷ 61 ∷ []

abbrev pub session_id_equals : Text
session_id_equals = 45 ∷ 45 ∷ 115 ∷ 101 ∷ 115 ∷ 115 ∷ 105 ∷ 111 ∷ 110 ∷ 45 ∷ 105 ∷ 100 ∷ 61 ∷ []

abbrev pub is_claude : Text → Bool
is_claude arg = starts_with (99 ∷ 108 ∷ 97 ∷ 117 ∷ 100 ∷ 101 ∷ []) (basename arg)

abbrev pub any_claude : List Text → Bool
any_claude [] = false
any_claude (arg ∷ args) = is_claude arg || any_claude args

-- An interactive claude, by its arguments.
abbrev pub is_interactive : List Text → Bool
is_interactive argv =
    any_claude (take 2 argv)
    && not (
        contains (45 ∷ 112 ∷ []) argv || contains (45 ∷ 45 ∷ 112 ∷ 114 ∷ 105 ∷ 110 ∷ 116 ∷ []) argv)

abbrev pub next_arg : List Text → Option Text
next_arg [] = none
next_arg (arg ∷ args) = some arg

abbrev pub flag_value : Text → List Text → Option Text
flag_value arg args =
    if contains arg session_flags && is_some (next_arg args)
    then next_arg args
    else (if starts_with resume_equals arg
        then after_prefix resume_equals arg
        else after_prefix session_id_equals arg)

abbrev pub valid_id : Option Text → List Text
valid_id none = []
valid_id (some value) = if is_session_id value then value ∷ [] else []

-- The ids among the arguments in front of `--`.
unfoldable pub started_ids : List Text → List Text
started_ids [] = []
started_ids (arg ∷ args) =
    let rest = started_ids args in
    if arg == (45 ∷ 45 ∷ []) then [] else valid_id (flag_value arg args) ++ rest

module _ (realpath : Text → Text) (name : Text) where
  abbrev pub ids_at : List Text → Option Text → List Text
  ids_at argv none = []
  ids_at argv (some cwd) =
      if not (derive_project_dir realpath cwd == name) then [] else started_ids argv

  abbrev pub ids_of : Option (List Text) → Option Text → List Text
  ids_of none cwd = []
  ids_of (some argv) cwd = if is_interactive argv then ids_at argv cwd else []

  unfoldable pub live_session_ids : List Process → List Text
  live_session_ids [] = []
  live_session_ids (process ∷ processes) =
      ids_of process.argv process.cwd ++ live_session_ids processes
