-- ===== src/Tail/Examples.antt =====
-- A transcript that grows in the middle of a line, and the theorems at it.
use c_lord.Prelude.{
  ℕ, ◌≤◌, false, none, some, List, [], ◌∷◌, ◌++◌, length, take, nat_key, string_key, ◌==◌, ◌≡◌,
  refl, arith, if◌then◌else◌,
}
use c_lord.Prelude.Dict.{get, insert}
use c_lord.Tail.Lines.{Bytes, split_lines, whole}
use c_lord.Tail.Records.{
  Parsed, malformed, no_record, event, gone, found, no_file, holds, record_in, record_uuid,
  record_all, seed_loop, seed_seen_uuids, emit, deliver, size_of, rfind, seek_line_end,
  whole_lines_end,
}
use c_lord.Tail.{
  Disk, Follow, signature_at, bank, drop_current, must_rewind, rewind, start_offset, adopt, switch,
  read_chunk, read_file, poll_file, poll_once, poll_all, open_initial_state,
}
use c_lord.Tail.Fresh.{IsFresh, uuids}
use c_lord.Tail.Once.{poll_all-IsFresh}
use c_lord.Tail.Ends.{whole_lines_end_lem}
use c_lord.Tail.Seed.{record_pieces, seed_seen_uuids_lem}
use c_lord.Tail.Delivery.{head_of, poll_all-delivers}
use c_lord.Tail.Delivery.Open.{Steps, still, next, vanished, readable}

program : Unit {0}
unfolding get insert split_lines record_in record_uuid record_all seed_loop seed_seen_uuids emit
    deliver size_of rfind seek_line_end whole_lines_end signature_at bank drop_current must_rewind
    rewind start_offset adopt switch read_chunk read_file poll_file poll_once poll_all
    open_initial_state
program = tt

-- A line that starts with `1` or `2` is a record with that uuid, one with `3` a record without, one
-- with `4` no record.
abbrev load : Bytes → Parsed
load [] = malformed
load (c ∷ line) =
    if c == 49
    then event (record { uuid = some "one"; body = 1 })
    else (if c == 50
        then event (record { uuid = some "two"; body = 2 })
        else (if c == 51 then event (record { uuid = none; body = 3 }) else no_record))

-- "1 LF 2", then "2 LF 3 LF 1 LF 4"
abbrev first : Bytes
first = 49 ∷ 10 ∷ 50 ∷ []

abbrev second : Bytes
second = 50 ∷ 10 ∷ 51 ∷ 10 ∷ 49 ∷ 10 ∷ 52 ∷ []

abbrev disk_of : ℕ → Bytes → Disk
disk_of mtime bytes = record {
  active = some 7;
  stat = λ p. found (length bytes) mtime;
  content = λ p. holds bytes;
}

abbrev vanished_disk : Disk
vanished_disk = record { active = some 7; stat = λ p. gone; content = λ p. no_file }

abbrev disks : List Disk
disks =
    disk_of 1 first ∷ vanished_disk ∷ disk_of 2 (first ++ second) ∷ disk_of 3 (first ++ second) ∷ []

abbrev at_start : Follow
at_start = open_initial_state load (disk_of 1 first) (7 ∷ []) false

-- The record that was there is skipped, the half line is read whole, and `1` does not come again.
delivered :
    (poll_all load disks at_start).1
    ≡ record { uuid = some "two"; body = 2 } ∷ record { uuid = none; body = 3 } ∷ []
unfolding program
delivered = refl

-- The file is rewritten with the same size between two polls.
rewritten :
    (poll_all load
      (disk_of 1 first ∷ disk_of 2 first ∷ disk_of 3 (51 ∷ 10 ∷ 50 ∷ []) ∷ [])
      at_start).1
    ≡ record { uuid = none; body = 3 } ∷ []
unfolding program
rewritten = refl

poll_all-IsFresh_example : IsFresh at_start.seen_uuids (uuids (poll_all load disks at_start).1)
poll_all-IsFresh_example = poll_all-IsFresh load disks at_start

whole_lines_end_lem_example : whole_lines_end (found 3 1) (holds first) ≡ whole first
whole_lines_end_lem_example = whole_lines_end_lem first 1

seed_seen_uuids_lem_example :
    seed_seen_uuids load (holds first) 3 [] ≡ record_pieces load (split_lines (take 3 first)) []
seed_seen_uuids_lem_example = seed_seen_uuids_lem load first 3 []

steps : Steps 7 first disks (first ++ second)
steps = next (disk_of 1 first) _ (readable 3 1 [] refl refl refl (omega arith)) (
    next vanished_disk _ (vanished refl refl) (
      next (disk_of 2 (first ++ second)) _ (readable 10 2 second refl refl refl (omega arith)) (
        next (disk_of 3 (first ++ second)) _ (readable 10 3 [] refl refl refl (omega arith))
          (still (first ++ second)))))

poll_all-delivers_example :
    let r = poll_all load disks at_start in
    (done : Bytes) × (rest : Bytes) × (first ++ second ≡ head_of first ++ (done ++ rest))
    × (r.1 ≡ (deliver load at_start.seen_uuids (split_lines done).0).0)
    × (r.0.current_path ≡ some 7 → length (first ++ second) ≤ r.0.offset → rest ≡ [])
poll_all-delivers_example =
    poll_all-delivers load 7 1 first (disk_of 1 first) (7 ∷ []) disks (first ++ second) refl refl
      refl steps
