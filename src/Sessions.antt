-- ===== src/Sessions.antt =====
-- The rows of the `sessions` table that the idle and cap loops read (c_lord/database/repository.py),
-- and their clock (c_lord/idle_sweep.py, `parse_timestamp`). `strptime` is Python's: a text and a
-- format give a local time in microseconds, or nothing.
use Prim.Native.String.{slice}
use c_lord.Prelude.{ℕ, String, Option, none, some, List, [], ◌∷◌, if◌then◌else◌, ◌==◌, string_key}

pub record SessionRecord : Type 0 where
  pub thread_id : ℕ
  pub last_used_at : Option String
  pub closed_at : Option String

abbrev pub timestamp_formats : List String
timestamp_formats =
    "%Y-%m-%d %H:%M:%S.%f" ∷ "%Y-%m-%d %H:%M:%S" ∷ "%Y-%m-%dT%H:%M:%S.%f" ∷ "%Y-%m-%dT%H:%M:%S" ∷ []

-- The first format that fits.
unfoldable pub first_fit : (String → String → Option ℕ) → String → List String → Option ℕ
first_fit strptime text [] = none
first_fit strptime text (format ∷ formats) =
    let rest = first_fit strptime text formats in
    elim (strptime text format) [ some moment ↦ some moment | none ↦ rest ]

unfoldable pub parse_timestamp : (String → String → Option ℕ) → Option String → Option ℕ
unfolding first_fit
parse_timestamp strptime none = none
parse_timestamp strptime (some ts) =
    if ts == "" then none else first_fit strptime (slice ts 0 26) timestamp_formats
