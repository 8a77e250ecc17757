-- ===== src/TurnProgress/Labels.antt =====
-- c_lord/discord_ui/turn_progress.py: what the line quotes, cut to one row. `is_space` is Python's
-- test of white space.
use c_lord.Prelude.Texts.{Text, parts_of, join_with, lstrip}
use c_lord.Prelude.{
  ℕ, ◌-◌, Bool, not, ◌&&◌, ◌||◌, [], ◌∷◌, ◌++◌, length, take, keep, if◌then◌else◌, nat_key, ◌==◌,
  leb,
}
use c_lord.Tail.Lines.{drop}

abbrev pub max_label_chars : ℕ
max_label_chars = 60

abbrev pub max_thought_chars : ℕ
max_thought_chars = 80

abbrev pub keep_path_segments : ℕ
keep_path_segments = 2

abbrev pub backtick : ℕ
backtick = 96

abbrev pub slash : ℕ
slash = 47

-- "…"
abbrev pub ellipsis : ℕ
ellipsis = 8230

abbrev pub tool_glyph : ℕ
tool_glyph = 128295

-- `" ".join(text.replace("`", "").split())`
unfoldable pub one_row : (ℕ → Bool) → Text → Text
one_row is_space text = join_with 32 (parts_of is_space (keep (λ c. not (c == backtick)) text))

-- The last segments of an absolute path.
unfoldable pub path_tail : Text → Text
path_tail path =
    let parts = parts_of (λ c. c == slash) path in
    if leb (length parts) keep_path_segments
    then path
    else join_with slash (drop (length parts - keep_path_segments) parts)

-- In a run of characters that a path may hold, the path goes from the first slash with two characters
-- behind it to the end of the run.
unfoldable pub abbreviate_run : Text → Text
abbreviate_run [] = []
abbreviate_run (c ∷ run) =
    let rest = abbreviate_run run in
    if c == slash && leb 2 (length run) then path_tail (c ∷ run) else c ∷ rest

abbrev pub ends_path : (ℕ → Bool) → ℕ → Bool
ends_path is_space c = is_space c || (c == backtick || (c == 39 || c == 34))

-- `run` is what was read since a path last ended.
unfoldable pub abbreviate_from : (ℕ → Bool) → Text → Text → Text
abbreviate_from is_space run [] = abbreviate_run run
abbreviate_from is_space run (c ∷ text) =
    let ended = abbreviate_run run ++ (c ∷ abbreviate_from is_space [] text) in
    let goes_on = abbreviate_from is_space (run ++ (c ∷ [])) text in
    if ends_path is_space c then ended else goes_on

unfoldable pub abbreviate_paths : (ℕ → Bool) → Text → Text
abbreviate_paths is_space label = abbreviate_from is_space [] label

abbrev pub without_glyph : (ℕ → Bool) → Text → Text
without_glyph is_space [] = []
without_glyph is_space (c ∷ label) = if c == tool_glyph then lstrip is_space label else c ∷ label

abbrev pub cut_to : ℕ → Text → Text
cut_to most text = if leb (length text) most then text else take (most - 1) text ++ (ellipsis ∷ [])

unfoldable pub shorten : (ℕ → Bool) → Text → Text
shorten is_space label =
    cut_to max_label_chars
      (without_glyph is_space (abbreviate_paths is_space (one_row is_space label)))

unfoldable pub shorten_thought : (ℕ → Bool) → Text → Text
shorten_thought is_space text = cut_to max_thought_chars (one_row is_space text)
