-- ===== src/Tail/Delivery/Open.antt =====
-- The state of a tail between two polls, and when it switches or lets go (c_lord/transcript/tail.py).
use c_lord.Prelude.{
  ℕ, ◌-◌, ◌≤◌, ◌<◌, String, true, none, some, List, [], ◌∷◌, ◌++◌, length, nat_key, ◌==◌, ◌≡◌, ◌⊎◌,
  refl, ap, sym, inl, inr, arith,
}
use c_lord.Prelude.Dict.{get, get-insert_self}
use c_lord.Tail.Lines.{Bytes, append_assoc, append_nil}
use c_lord.Tail.Records.{
  Event, Parsed, gone, refused, found, Content, no_file, denied, holds, emit, deliver,
}
use c_lord.Tail.{Disk, Follow, signature_at, bank, drop_current, start_offset, adopt, switch}
use c_lord.Tail.Delivery.Place.{IsPlace, IsPlace-bank}

-- The state of a tail whose lines of `p` so far are `lines`.
pub data IsFollowing (p : ℕ) (head c : Bytes) (lines : List Bytes) (s : Follow) : Type 0 where
  here :
      s.current_path ≡ some p
      → IsPlace head c lines s.offset s.buffer
      → s.signature ≡ signature_at (holds c) s.offset
      → IsFollowing p head c lines s
  away :
      s.current_path ≡ none
      → (o : ℕ) → get p s.offsets ≡ some o
      → IsPlace head c lines o []
      → IsFollowing p head c lines s

-- What may happen between two polls: the file is out of sight, cannot be asked, cannot be read though
-- it grew, or is read, possibly longer than when it was asked.
pub data Step (p : ℕ) (c : Bytes) (d : Disk) : Bytes → Type 0 where
  unresolved : d.active ≡ none → Step p c d c
  vanished : d.active ≡ some p → d.stat p ≡ gone → Step p c d c
  unstatable : d.active ≡ some p → d.stat p ≡ refused → Step p c d c
  unreadable :
      (size mtime : ℕ)
      → d.active ≡ some p
      → d.stat p ≡ found size mtime
      → (d.content p ≡ no_file) ⊎ (d.content p ≡ denied)
      → length c < size
      → Step p c d c
  readable :
      (size mtime : ℕ) (more : Bytes)
      → d.active ≡ some p
      → d.stat p ≡ found size mtime
      → d.content p ≡ holds (c ++ more)
      → length c ≤ size
      → Step p c d (c ++ more)

pub data Steps (p : ℕ) : Bytes → List Disk → Bytes → Type 0 where
  still : (c : Bytes) → Steps p c [] c
  next :
      {c c' c'' : Bytes} (d : Disk) (disks : List Disk)
      → Step p c d c'
      → Steps p c' disks c''
      → Steps p c (d ∷ disks) c''

module _ (load : Bytes → Parsed) where
  pub deliver-append :
      (seen : List String) (a b : List Bytes)
      → let r = deliver load seen a in
        let m = deliver load r.1 b in deliver load seen (a ++ b) ≡ (r.0 ++ m.0, m.1)
  unfolding deliver
  deliver-append seen [] b = refl
  deliver-append seen (line ∷ a) b =
      let r = emit load seen line in
      let m = deliver load r.1 a in
      rw (deliver-append r.1 a b) (
        ap (λ events. (events, (deliver load m.1 b).1))
          (sym (append_assoc r.0 m.0 (deliver load m.1 b).0)))

-- What one poll adds: the lines in `more`, delivered in order after what was seen.
pub record IsPolled (load : Bytes → Parsed) (p : ℕ) (head c : Bytes) (lines : List Bytes)
    (seen : List String) (s' : Follow) (events : List Event) : Type 0 where
  pub more : List Bytes
  pub follows : IsFollowing p head c (lines ++ more) s'
  pub told : events ≡ (deliver load seen more).0
  pub seen_now : s'.seen_uuids ≡ (deliver load seen more).1

nat_same : (n : ℕ) → (n == n) ≡ true
nat_same n = ground arith

module _ (load : Bytes → Parsed) (p : ℕ) (head : Bytes) where
  pub quiet :
      (c : Bytes) (lines : List Bytes) (s' : Follow)
      → IsFollowing p head c lines s'
      → IsPolled load p head c lines s'.seen_uuids s' []
  unfolding deliver
  quiet c lines s' f = record {
    more = [];
    follows = rw (append_nil lines) f;
    told = refl;
    seen_now = refl;
  }

  -- A file that is read: its place, and the bytes before it as they were.
  pub record IsOpen (c : Bytes) (content : Content) (lines : List Bytes) (s : Follow) : Type 0 where
    pub current : s.current_path ≡ some p
    pub place : IsPlace head c lines s.offset s.buffer
    pub mark :
        (s.signature ≡ signature_at (holds c) s.offset)
        ⊎ (s.signature ≡ signature_at content s.offset)

  adopt-IsOpen :
      (c : Bytes) (lines : List Bytes) (d : Disk) (s : Follow) (o : ℕ)
      → s.current_path ≡ none
      → get p s.offsets ≡ some o
      → IsPlace head c lines o []
      → IsOpen c (d.content p) lines (adopt load d p s)
        × ((adopt load d p s).seen_uuids ≡ s.seen_uuids)
  unfolding adopt bank start_offset
  adopt-IsOpen c lines d s o idle banked i =
      let start : start_offset load d p (record s { offsets = bank s }) ≡ (o, s.seen_uuids) =
        rw (start_offset, bank, idle, banked) refl in
      (record { current = refl; place = rw start i; mark = inr refl }, ap (λ r. r.1) start)

  pub switch-IsOpen :
      (c : Bytes) (lines : List Bytes) (d : Disk) (s : Follow)
      → IsFollowing p head c lines s
      → IsOpen c (d.content p) lines (switch load d p s)
        × ((switch load d p s).seen_uuids ≡ s.seen_uuids)
  unfolding switch
  switch-IsOpen c lines d s (here current place mark) =
      rw (switch, current, nat_same p)
        (record { current = current; place = place; mark = inl mark }, refl)
  switch-IsOpen c lines d s (away idle o banked place) =
      rw (switch, idle) (adopt-IsOpen c lines d s o idle banked place)

  pub drop_current-IsFollowing :
      (c : Bytes) (content : Content) (lines : List Bytes) (s : Follow)
      → IsOpen c content lines s
      → IsFollowing p head c lines (drop_current s)
  unfolding drop_current bank
  drop_current-IsFollowing c content lines s i =
      away refl (s.offset - length s.buffer)
        (rw (bank, i.current) (get-insert_self p (s.offset - length s.buffer) s.offsets))
        (IsPlace-bank head c lines s.offset s.buffer i.place)
