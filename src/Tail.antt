-- ===== src/Tail.antt =====
-- c_lord/transcript/tail.py: following the JSON lines that Claude appends to a transcript. A path is
-- a number. What the resolver, `stat` and `open` answer during one poll is a `Disk`; `load` is the
-- decoding of one line by `json.loads`. Modification times count from 1, and 0 stands for -1.0.
pub mod Lines
pub mod Records
pub mod Fresh
pub mod Once
pub mod Ends
pub mod Seed
pub mod Delivery
mod Examples
use Prim.Native.Nat.{min}
use c_lord.Prelude.{
  ℕ, zero, suc, ◌+◌, ◌-◌, String, Bool, true, false, not, ◌&&◌, ◌||◌, Option, none, some, List, [],
  ◌∷◌, ◌++◌, contains, length, take, map, if◌then◌else◌, nat_key, string_key, ◌==◌, ltb, leb,
}
use c_lord.Prelude.Dict.{Dict, get, insert}
use c_lord.Tail.Lines.{Bytes, drop, split_lines}
use c_lord.Tail.Records.{
  Event, Parsed, Stat, gone, refused, found, Content, no_file, denied, holds, deliver,
  seed_seen_uuids, whole_lines_end,
}

abbrev pub read_chunk_bytes : ℕ
read_chunk_bytes = 8388608

abbrev pub signature_bytes : ℕ
signature_bytes = 4096

pub record Disk : Type 0 where
  pub active : Option ℕ
  pub stat : ℕ → Stat
  pub content : ℕ → Content

pub record Follow : Type 0 where
  pub from_start : Bool
  pub pre_existing : Dict ℕ ℕ
  pub current_path : Option ℕ
  pub offset : ℕ
  pub buffer : Bytes
  pub last_mtime : ℕ
  pub offsets : Dict ℕ ℕ
  pub more_to_read : Bool
  pub seen_uuids : List String
  pub start_path : Option ℕ
  pub resolved : Bool
  pub signature : Bytes
  pub read_error : Bool

-- `_signature`
unfoldable pub signature_at : Content → ℕ → Bytes
signature_at (holds bytes) offset =
    let from = offset - signature_bytes in take (offset - from) (drop from bytes)
signature_at no_file offset = []
signature_at denied offset = []

-- `a == b` on bytes.
abbrev pub same_bytes : Bytes → Bytes → Bool
same_bytes [] [] = true
same_bytes (c ∷ a) (d ∷ b) = (c == d) && same_bytes a b
same_bytes [] (d ∷ b) = false
same_bytes (c ∷ a) [] = false

-- The place in the current file, banked at the start of the half line.
unfoldable pub bank : Follow → Dict ℕ ℕ
bank s = elim s.current_path [
  | none ↦ s.offsets
  | some q ↦ insert q (s.offset - length s.buffer) s.offsets
]

unfoldable pub drop_current : Follow → Follow
drop_current s = record s { offsets = bank s; current_path = none }

-- `size < offset`, or the same size with other bytes.
unfoldable pub must_rewind : Content → ℕ → ℕ → Follow → Bool
must_rewind content size mtime s =
    ltb size s.offset
    || ((size == s.offset && (ltb s.last_mtime mtime && ltb 0 s.last_mtime))
        && not (same_bytes (signature_at content s.offset) s.signature))

unfoldable pub rewind : Content → ℕ → ℕ → Follow → Follow
rewind content size mtime s =
    if must_rewind content size mtime s
    then record s { offset = 0; buffer = []; last_mtime = mtime }
    else record s { last_mtime = mtime }

module _ (load : Bytes → Parsed) where
  unfoldable pub start_offset : Disk → ℕ → Follow → ℕ × List String
  start_offset d p s = elim (get p s.offsets) [
    | some known ↦ (known, s.seen_uuids)
    | none ↦ elim (get p s.pre_existing) [
      | none ↦ (0, s.seen_uuids)
      | some baseline ↦
          if s.from_start
          then (0, s.seen_uuids)
          else (baseline, seed_seen_uuids load (d.content p) baseline s.seen_uuids)
    ]
  ]

  unfoldable pub adopt : Disk → ℕ → Follow → Follow
  adopt d p s =
      let s' : Follow = record s { offsets = bank s } in
      let (offset, seen) = start_offset d p s' in
      record s' {
        offset = offset;
        seen_uuids = seen;
        current_path = some p;
        buffer = [];
        last_mtime = 0;
        signature = signature_at (d.content p) offset;
      }

  -- `active != state.current_path`
  unfoldable pub switch : Disk → ℕ → Follow → Follow
  switch d p s = elim s.current_path [
    | none ↦ adopt d p s
    | some q ↦ if q == p then s else adopt d p s
  ]

  unfoldable pub read_chunk : Bytes → ℕ → Follow → Follow × List Event
  read_chunk bytes size s =
      let chunk = take read_chunk_bytes (drop s.offset bytes) in
      let offset = s.offset + length chunk in
      let pieces = split_lines (s.buffer ++ chunk) in
      let (events, seen) = deliver load s.seen_uuids pieces.0 in
      (
        record s {
          offset = offset;
          more_to_read = ltb offset size;
          signature = signature_at (holds bytes) offset;
          buffer = pieces.1;
          seen_uuids = seen;
        },
        events,
      )

  unfoldable pub read_file : Content → ℕ → Follow → Follow × List Event
  read_file content size s = if leb size s.offset then (s, []) else elim content [
    | no_file ↦ (drop_current s, [])
    | denied ↦ (drop_current (record s { read_error = true }), [])
    | holds bytes ↦ read_chunk bytes size s
  ]

  unfoldable pub poll_file : Stat → Content → Follow → Follow × List Event
  poll_file gone content s = (drop_current s, [])
  poll_file refused content s = (drop_current (record s { read_error = true }), [])
  poll_file (found size mtime) content s = read_file content size (rewind content size mtime s)

  unfoldable pub poll_once : Disk → Follow → Follow × List Event
  poll_once d s = elim d.active [
    | none ↦ (record s { more_to_read = false; read_error = false; resolved = false }, [])
    | some p ↦
        poll_file (d.stat p) (d.content p)
          (switch d p (record s { more_to_read = false; read_error = false; resolved = true }))
  ]

  -- The events of several polls.
  unfoldable pub poll_all : List Disk → Follow → Follow × List Event
  poll_all [] s = (s, [])
  poll_all (d ∷ disks) s =
      let (s', events) = poll_once d s in
      let (s'', more) = poll_all disks s' in (s'', events ++ more)

  -- The state at the start; `paths` are the transcripts on disk.
  unfoldable pub open_initial_state : Disk → List ℕ → Bool → Follow
  open_initial_state d paths from_start =
      let s : Follow = record {
        from_start = from_start;
        pre_existing = map (λ p. (p, whole_lines_end (d.stat p) (d.content p))) paths;
        current_path = none;
        offset = 0;
        buffer = [];
        last_mtime = 0;
        offsets = [];
        more_to_read = false;
        seen_uuids = [];
        start_path = none;
        resolved = true;
        signature = [];
        read_error = false;
      } in
      elim d.active [
        | none ↦ s
        | some p ↦
            if from_start
            then s
            else (let end = whole_lines_end (d.stat p) (d.content p) in
                record s {
                  offsets = insert p end [];
                  seen_uuids = seed_seen_uuids load (d.content p) end [];
                  start_path = some p;
                })
      ]
