-- ===== src/Tail/Records.antt =====
-- c_lord/transcript/tail.py: the records in the lines of a transcript, the uuids of those that were
-- there before, and where the last whole line ends.
use Prim.Native.Nat.{min}
use c_lord.Prelude.{
  ℕ, zero, suc, ◌+◌, ◌-◌, String, Bool, true, false, ◌&&◌, ◌||◌, Option, none, some, List, [], ◌∷◌,
  ◌++◌, contains, length, take, if◌then◌else◌, nat_key, string_key, ◌==◌, leb,
}
use c_lord.Tail.Lines.{Bytes, newline, drop, split_lines}

abbrev pub seed_chunk_bytes : ℕ
seed_chunk_bytes = 1048576

abbrev pub line_seek_bytes : ℕ
line_seek_bytes = 65536

-- A record of the transcript: its `uuid`, if it is a text, and the rest.
pub record Event : Type 0 where
  pub uuid : Option String
  pub body : ℕ

-- What `json.loads` gives for a line: an error, something that is no `dict`, or a record.
pub data Parsed : Type 0 where
  malformed no_record : Parsed
  event : Event → Parsed

pub data Stat : Type 0 where
  gone refused : Stat
  found : ℕ → ℕ → Stat  -- size and modification time

pub data Content : Type 0 where
  no_file denied : Content
  holds : Bytes → Content

-- `not line.strip()`
abbrev pub is_blank : Bytes → Bool
is_blank [] = true
is_blank (c ∷ line) = (c == 32 || (leb 9 c && leb c 13)) && is_blank line

-- `isinstance(uid, str) and uid`
abbrev pub uuid_of : Event → Option String
uuid_of e = elim e.uuid [ some u ↦ if u == "" then none else some u | none ↦ none ]

abbrev pub add_uuid : String → List String → List String
add_uuid u seen = if contains u seen then seen else seen ++ (u ∷ [])

module _ (load : Bytes → Parsed) where
  -- The record in a line, if there is one.
  unfoldable pub record_in : Bytes → Option Event
  record_in line = if is_blank line then none else elim (load line) [ event e ↦ some e | _ ↦ none ]

  unfoldable pub record_uuid : Bytes → List String → List String
  record_uuid line seen = elim (record_in line) [
    | none ↦ seen
    | some e ↦ elim (uuid_of e) [ none ↦ seen | some u ↦ add_uuid u seen ]
  ]

  unfoldable pub record_all : List Bytes → List String → List String
  record_all [] seen = seen
  record_all (line ∷ lines) seen = record_all lines (record_uuid line seen)

  -- The loop of `_seed_seen_uuids`; each round reads at least one byte, so `remaining` is fuel enough.
  unfoldable pub seed_loop : ℕ → ℕ → Bytes → Bytes → List String → List String
  seed_loop zero remaining bytes buffer seen = record_uuid buffer seen
  seed_loop (suc fuel) remaining bytes buffer seen =
      let chunk = take (min seed_chunk_bytes remaining) bytes in
      let pieces = split_lines (buffer ++ chunk) in
      let rest =
        seed_loop fuel (remaining - length chunk) (drop (length chunk) bytes) pieces.1
          (record_all pieces.0 seen) in
      if leb remaining 0 || leb (length chunk) 0 then record_uuid buffer seen else rest

  unfoldable pub seed_seen_uuids : Content → ℕ → List String → List String
  seed_seen_uuids (holds bytes) upto seen = seed_loop upto upto bytes [] seen
  seed_seen_uuids no_file upto seen = seen
  seed_seen_uuids denied upto seen = seen

  -- One line of a poll: the events it yields, each uuid once.
  unfoldable pub emit : List String → Bytes → List Event × List String
  emit seen line = elim (record_in line) [
    | none ↦ ([], seen)
    | some e ↦ elim (uuid_of e) [
      | none ↦ (e ∷ [], seen)
      | some u ↦ if contains u seen then ([], seen) else (e ∷ [], seen ++ (u ∷ []))
    ]
  ]

  unfoldable pub deliver : List String → List Bytes → List Event × List String
  deliver seen [] = ([], seen)
  deliver seen (line ∷ lines) =
      let (events, seen') = emit seen line in
      let (more, seen'') = deliver seen' lines in (events ++ more, seen'')

unfoldable pub size_of : Stat → ℕ
size_of (found size mtime) = size
size_of gone = 0
size_of refused = 0

-- `chunk.rfind(b"\n")`
unfoldable pub rfind : Bytes → Option ℕ
rfind [] = none
rfind (c ∷ bytes) = elim (rfind bytes) [
  | some i ↦ some (suc i)
  | none ↦ if c == newline then some 0 else none
]

-- Each round backs up by at least one byte, so `end` is fuel enough.
unfoldable pub seek_line_end : ℕ → ℕ → Bytes → ℕ
seek_line_end zero end bytes = 0
seek_line_end (suc fuel) end bytes =
    let from = end - line_seek_bytes in
    let earlier = seek_line_end fuel from bytes in
    if leb end 0 then 0 else elim (rfind (take (end - from) (drop from bytes))) [
      | some i ↦ from + i + 1
      | none ↦ earlier
    ]

abbrev pub ends_line : Bytes → Bool
ends_line (c ∷ []) = c == newline
ends_line _ = false

unfoldable pub whole_lines_end : Stat → Content → ℕ
whole_lines_end stat (holds bytes) =
    let size = size_of stat in
    if leb size 0
    then 0
    else (if ends_line (take 1 (drop (size - 1) bytes))
        then size
        else seek_line_end size size bytes)
whole_lines_end stat no_file = size_of stat
whole_lines_end stat denied = size_of stat
