-- ===== src/ReplyChunker.antt =====
-- c_lord/discord_ui/reply_chunker.py: splitting a reply into messages that Discord takes. A text is the
-- list of its characters; `is_space` is Python's test of white space, which `lstrip` takes off.
pub mod Bounds
pub mod Fits
pub mod Pieces
mod Examples
use Prim.Native.Nat.{max}
use c_lord.Prelude.{
  ℕ, zero, suc, ◌+◌, ◌-◌, Bool, true, false, not, ◌&&◌, ◌||◌, Option, none, some, List, [], ◌∷◌,
  ◌++◌, length, take, if◌then◌else◌, is_some, nat_key, ◌==◌, ltb, leb,
}
use c_lord.Tail.Lines.{drop, split_lines}
use c_lord.Tail.{same_bytes}

abbrev pub Text : Type 0
Text = List ℕ

abbrev pub discord_max : ℕ
discord_max = 2000

abbrev pub fence : Text
fence = 96 ∷ 96 ∷ 96 ∷ []

abbrev pub fence_reserve : ℕ
fence_reserve = 4

abbrev pub join_lines : List Text → Text
join_lines [] = []
join_lines (line ∷ []) = line
join_lines (line ∷ next_line ∷ lines) = line ++ (10 ∷ join_lines (next_line ∷ lines))

-- `lines[-1]`
abbrev pub last_line : List Text → Option Text
last_line [] = none
last_line (line ∷ []) = some line
last_line (line ∷ next_line ∷ lines) = last_line (next_line ∷ lines)

-- `lines[:-1]`
abbrev pub but_last : List Text → List Text
but_last [] = []
but_last (line ∷ []) = []
but_last (line ∷ next_line ∷ lines) = line ∷ but_last (next_line ∷ lines)

abbrev pub starts_with : Text → Text → Bool
starts_with [] text = true
starts_with (c ∷ head) [] = false
starts_with (c ∷ head) (d ∷ text) = (c == d) && starts_with head text

-- The pieces of a text; it has at most as many as it has characters, which is fuel enough.
unfoldable pub split_pieces : ℕ → ℕ → Text → List Text
split_pieces size zero text = []
split_pieces size (suc fuel) text =
    let rest = split_pieces size fuel (drop size text) in
    if leb (length text) 0 then [] else take size text ∷ rest

unfoldable pub hard_split : Text → ℕ → List Text
hard_split text size = split_pieces size (length text) text

pub record Chunker : Type 0 where
  pub chunks : List Text
  pub current : List Text
  pub cur_len : ℕ
  pub open_fence : Option Text

-- Is the just opened fence all that trails?
abbrev pub is_dangling : Option Text → List Text → Bool
is_dangling none lines = false
is_dangling (some opener) lines = elim (last_line lines) [
  | some line ↦ same_bytes line opener
  | none ↦ false
]

-- The text of the chunk in progress, closed where a fence is open.
unfoldable pub chunk_text : Option Text → List Text → Text
chunk_text opener lines =
    if is_dangling opener lines
    then join_lines (but_last lines)
    else (if is_some opener then join_lines lines ++ (10 ∷ fence) else join_lines lines)

abbrev pub emit_text : Text → List Text → List Text
emit_text [] chunks = chunks
emit_text (c ∷ text) chunks = chunks ++ ((c ∷ text) ∷ [])

abbrev pub reopened : Option Text → List Text
reopened none = []
reopened (some opener) = opener ∷ []

abbrev pub is_empty : List Text → Bool
is_empty [] = true
is_empty (line ∷ lines) = false

unfoldable pub flush : Chunker → Chunker
flush s = if is_empty s.current then s else record s {
  chunks = emit_text (chunk_text s.open_fence s.current) s.chunks;
  current = reopened s.open_fence;
  cur_len = elim s.open_fence [ some opener ↦ length opener | none ↦ 0 ];
}

abbrev pub separator : Chunker → ℕ
separator s = if is_empty s.current then 0 else 1

abbrev pub put_line : Text → Chunker → Chunker
put_line line s = record s {
  current = s.current ++ (line ∷ []);
  cur_len = s.cur_len + (separator s + length line);
}

unfoldable pub add_line : ℕ → Text → ℕ → Chunker → Chunker
add_line limit line reserve s =
    if not (is_empty s.current) && ltb limit (s.cur_len + separator s + length line + reserve)
    then put_line line (flush s)
    else put_line line s

unfoldable pub add_lines : ℕ → List Text → ℕ → Chunker → Chunker
add_lines limit [] reserve s = s
add_lines limit (line ∷ lines) reserve s =
    add_lines limit lines reserve (add_line limit line reserve s)

-- What closes the text: the chunk in progress, if there is one.
unfoldable pub finish : Chunker → List Text
finish s =
    if is_empty s.current then s.chunks else emit_text (chunk_text s.open_fence s.current) s.chunks

abbrev pub max_piece_of : ℕ → Bool → Option Text → ℕ
max_piece_of limit fenced none = limit
max_piece_of limit fenced (some opener) =
    if fenced then limit else max 1 (limit - fence_reserve - length opener - 1)

-- `content.split("\n")`
abbrev pub lines_of : Text → List Text
lines_of content = let pieces = split_lines content in pieces.0 ++ (pieces.1 ∷ [])

abbrev pub start : Chunker
start = record { chunks = []; current = []; cur_len = 0; open_fence = none }

abbrev pub or_head : List Text → Text → List Text
or_head [] head = head ∷ []
or_head (chunk ∷ chunks) head = chunk ∷ chunks

module _ (is_space : ℕ → Bool) where
  abbrev pub lstrip : Text → Text
  lstrip [] = []
  lstrip (c ∷ text) = let rest = lstrip text in if is_space c then rest else c ∷ text

  abbrev pub is_fence : Text → Bool
  is_fence line = starts_with fence (lstrip line)

  -- One line of the content.
  unfoldable pub process_line : ℕ → Text → Chunker → Chunker
  process_line limit raw_line s =
      let fenced = is_fence raw_line in
      let reserve = if is_some s.open_fence || fenced then fence_reserve else 0 in
      let max_piece = max_piece_of limit fenced s.open_fence in
      let segments =
        if leb (length raw_line) max_piece then raw_line ∷ [] else hard_split raw_line max_piece in
      let s' = add_lines limit segments reserve s in
      if fenced
      then record s' { open_fence = if is_some s.open_fence then none else some raw_line }
      else s'

  unfoldable pub process_all : ℕ → List Text → Chunker → Chunker
  process_all limit [] s = s
  process_all limit (line ∷ lines) s = process_all limit lines (process_line limit line s)

  -- `none` is the ValueError.
  unfoldable pub chunk_discord_content : Text → ℕ → Option (List Text)
  chunk_discord_content content limit =
      if leb limit 0
      then none
      else (if leb (length content) limit
          then some (content ∷ [])
          else some
              (or_head (finish (process_all limit (lines_of content) start)) (take limit content)))
