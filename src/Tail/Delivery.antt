-- ===== src/Tail/Delivery.antt =====
-- Everything that is appended is delivered, in order (c_lord/transcript/tail.py).
pub mod Place
pub mod Open
pub mod File
pub mod Polls
use c_lord.Prelude.{
  ℕ, zero, suc, ◌+◌, ◌-◌, ◌≤◌, ◌<◌, String, Bool, true, false, not, ◌&&◌, ◌||◌, Option, none, some,
  List, [], ◌∷◌, ◌++◌, length, take, length-append, length-take, if◌then◌else◌, nat_key, ◌==◌, ltb,
  leb, ◌≡◌, ◌⊎◌, refl, ap, subst, sym, ◌∙◌, inl, inr, arith, Bool-cases, Option-cases,
}
use c_lord.Prelude.Dict.{get, insert, get-insert_self}
use c_lord.Tail.Lines.{
  Bytes, drop, split_lines, read_on, split_lines-append, whole, unlines, unlines-split_lines,
  split_lines-unlines, append_assoc, append_nil, take-append, drop-append, take-append-drop,
}
use c_lord.Tail.Records.{
  Event, Parsed, Stat, gone, refused, found, Content, no_file, denied, holds, emit, deliver,
}
use c_lord.Tail.Ends.{whole_lines_end_lem}
use c_lord.Tail.{
  Disk, Follow, read_chunk_bytes, signature_bytes, signature_at, same_bytes, bank, drop_current,
  must_rewind, rewind, start_offset, adopt, switch, read_chunk, read_file, poll_file, poll_once,
  poll_all, open_initial_state,
}
use c_lord.Tail.Delivery.Open.{IsFollowing, Steps, away, here}
use c_lord.Tail.Delivery.Polls.{poll_all-IsPolled}

-- The lines from the end of the last whole line on, in a file that held `c0` at the start.
abbrev pub head_of : Bytes → Bytes
head_of c0 = take (whole c0) c0

opened :
    (load : Bytes → Parsed) (p mtime : ℕ) (c0 : Bytes) (d0 : Disk) (paths : List ℕ)
    → d0.active ≡ some p
    → d0.stat p ≡ found (length c0) mtime
    → d0.content p ≡ holds c0
    → IsFollowing p (head_of c0) c0 [] (open_initial_state load d0 paths false)
unfolding open_initial_state split_lines
opened load p mtime c0 d0 paths e asked given =
    rw (open_initial_state, e)
      (away refl (whole c0)
        (rw (asked, given, whole_lines_end_lem c0 mtime) (get-insert_self p (whole c0) []))
        (record {
          done = [];
          rest = drop (whole c0) c0;
          shape = sym (take-append-drop (whole c0) c0);
          stands = omega (arith, length-take (whole c0) c0);
          cut = refl;
        }))

nil_of_length : (b : Bytes) → length b ≡ 0 → b ≡ []
nil_of_length [] h = refl
nil_of_length (c ∷ b) h = absurd (omega arith)

-- What is left is nothing once the tail stands at the end.
stands_at_end :
    (p : ℕ) (head c : Bytes) (lines : List Bytes) (s : Follow)
    → IsFollowing p head c lines s
    → (done : Bytes) × (rest : Bytes) × (c ≡ head ++ (done ++ rest))
      × ((split_lines done).0 ≡ lines)
      × (s.current_path ≡ some p → length c ≤ s.offset → rest ≡ [])
stands_at_end p head c lines s (here current i mark) = (
  i.done,
  i.rest,
  i.shape,
  ap (λ r. r.0) i.cut,
  λ e h. nil_of_length i.rest (
      omega (
        arith,
        i.stands,
        ap length i.shape,
        length-append head (i.done ++ i.rest),
        length-append i.done i.rest,
      )),
)
stands_at_end p head c lines s (away idle o banked i) =
    (i.done, i.rest, i.shape, ap (λ r. r.0) i.cut, λ e h. absurd (ground (arith, e, idle)))

-- A tail that opens on a transcript that can be read. At each poll the resolver gives that transcript or
-- none, and its file is gone, or cannot be examined, or cannot be opened and is said to be longer than
-- what it last held, or holds what it last held and perhaps more. Then the polls deliver, in order,
-- what the lines give that begin behind the last line that was whole at the start, as far as the tail
-- has read: each record but those whose uuid came before. That is all of the file once the tail, still
-- on that path, stands at its end.
pub poll_all-delivers :
    (load : Bytes → Parsed) (p mtime : ℕ) (c0 : Bytes) (d0 : Disk) (paths : List ℕ)
    (disks : List Disk) (c : Bytes)
    → d0.active ≡ some p
    → d0.stat p ≡ found (length c0) mtime
    → d0.content p ≡ holds c0
    → Steps p c0 disks c
    → let s = open_initial_state load d0 paths false in
      let r = poll_all load disks s in
      (done : Bytes) × (rest : Bytes) × (c ≡ head_of c0 ++ (done ++ rest))
      × (r.1 ≡ (deliver load s.seen_uuids (split_lines done).0).0)
      × (r.0.current_path ≡ some p → length c ≤ r.0.offset → rest ≡ [])
unfolding open_initial_state
poll_all-delivers load p mtime c0 d0 paths disks c e asked given steps =
    let s = open_initial_state load d0 paths false in
    let i =
      poll_all-IsPolled load p (head_of c0) [] disks s steps
        (opened load p mtime c0 d0 paths e asked given) in
    let (done, rest, shape, cut, at_end) =
      stands_at_end p (head_of c0) c i.more (poll_all load disks s).0 i.follows in
    (
      done,
      rest,
      shape,
      i.told ∙ ap (λ lines. (deliver load s.seen_uuids lines).0) (sym cut),
      at_end,
    )
