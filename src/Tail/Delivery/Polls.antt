-- ===== src/Tail/Delivery/Polls.antt =====
-- Several polls of a growing file (c_lord/transcript/tail.py, `_poll_once`).
use c_lord.Prelude.{
  ℕ, Bool, true, false, some, List, [], ◌∷◌, ◌++◌, nat_key, ◌≡◌, ◌⊎◌, ap, subst, inl, inr,
}
use c_lord.Tail.Lines.{Bytes, append_assoc}
use c_lord.Tail.Records.{Event, Parsed, Stat, gone, refused, Content, deliver}
use c_lord.Tail.{Disk, Follow, drop_current, switch, poll_file, poll_once, poll_all}
use c_lord.Tail.Delivery.Open.{
  IsFollowing, IsOpen, IsPolled, Step, Steps, away, deliver-append, drop_current-IsFollowing, here,
  next, quiet, readable, still, switch-IsOpen, unreadable, unresolved, unstatable, vanished,
}
use c_lord.Tail.Delivery.File.{poll_file-readable, poll_file-unreadable}

module _ (load : Bytes → Parsed) (p : ℕ) (head : Bytes) where
  -- The flags that a poll sets first.
  flagged :
      (c : Bytes) (lines : List Bytes) (s : Follow) (more error resolved : Bool)
      → IsFollowing p head c lines s
      → IsFollowing p head c lines
          (record s { more_to_read = more; read_error = error; resolved = resolved })
  flagged c lines s more error resolved (here current place mark) = here current place mark
  flagged c lines s more error resolved (away idle o banked place) = away idle o banked place

  poll_file-vanished :
      (c : Bytes) (stat : Stat) (content : Content) (lines : List Bytes) (s : Follow)
      → (stat ≡ gone) ⊎ (stat ≡ refused)
      → IsOpen load p head c content lines s
      → let r = poll_file load stat content s in IsPolled load p head c lines s.seen_uuids r.0 r.1
  unfolding poll_file drop_current
  poll_file-vanished c stat content lines s (inl e) i =
      rw (poll_file, e)
        (quiet load p head c lines (drop_current s)
          (drop_current-IsFollowing load p head c content lines s i))
  poll_file-vanished c stat content lines s (inr e) i =
      rw (poll_file, e)
        (quiet load p head c lines (drop_current (record s { read_error = true })) (
          drop_current-IsFollowing load p head c content lines (record s { read_error = true })
            (record { current = i.current; place = i.place; mark = i.mark })))

  -- A transcript is active: what its poll gives, from what its file gives.
  poll_once-of_file :
      (c c' : Bytes) (lines : List Bytes) (d : Disk) (s : Follow)
      → d.active ≡ some p
      → IsFollowing p head c lines s
      → ((u : Follow)
          → IsOpen load p head c (d.content p) lines u
          → let r = poll_file load (d.stat p) (d.content p) u in
            IsPolled load p head c' lines u.seen_uuids r.0 r.1)
      → let r = poll_once load d s in IsPolled load p head c' lines s.seen_uuids r.0 r.1
  unfolding poll_once
  poll_once-of_file c c' lines d s e f file =
      let s0 : Follow = record s { more_to_read = false; read_error = false; resolved = true } in
      let u = switch load d p s0 in
      let r = poll_file load (d.stat p) (d.content p) u in
      let (i, same) =
        switch-IsOpen load p head c lines d s0 (flagged c lines s false false true f) in
      rw (poll_once, e) (subst (λ seen. IsPolled load p head c' lines seen r.0 r.1) same (file u i))

  -- One poll delivers the lines that it completes, whatever happens to it.
  poll_once-IsPolled :
      {c c' : Bytes} (lines : List Bytes) (d : Disk) (s : Follow)
      → Step p c d c'
      → IsFollowing p head c lines s
      → let r = poll_once load d s in IsPolled load p head c' lines s.seen_uuids r.0 r.1
  unfolding poll_once
  poll_once-IsPolled {c} lines d s (unresolved e) f =
      rw (poll_once, e)
        (quiet load p head c lines
          (record s { more_to_read = false; read_error = false; resolved = false })
          (flagged c lines s false false false f))
  poll_once-IsPolled {c} lines d s (vanished e absent) f =
      poll_once-of_file c c lines d s e f
        (λ u i. poll_file-vanished c (d.stat p) (d.content p) lines u (inl absent) i)
  poll_once-IsPolled {c} lines d s (unstatable e absent) f =
      poll_once-of_file c c lines d s e f
        (λ u i. poll_file-vanished c (d.stat p) (d.content p) lines u (inr absent) i)
  poll_once-IsPolled {c} lines d s (unreadable size mtime e asked lost grew) f =
      poll_once-of_file c c lines d s e f (λ u i.
        rw asked (poll_file-unreadable load p head c (d.content p) size mtime lines u lost grew i))
  poll_once-IsPolled {c} lines d s (readable size mtime more e asked given grew) f =
      poll_once-of_file c (c ++ more) lines d s e f (λ u i.
        rw (asked, given)
          (poll_file-readable load p head c more size mtime lines u grew (rw given at i)))

  composed :
      {c c' : Bytes} (lines : List Bytes) (s : Follow) (r m : Follow × List Event)
      (i : IsPolled load p head c lines s.seen_uuids r.0 r.1)
      → IsPolled load p head c' (lines ++ i.more) r.0.seen_uuids m.0 m.1
      → IsPolled load p head c' lines s.seen_uuids m.0 (r.1 ++ m.1)
  composed lines s r m i j =
      let both = deliver-append load s.seen_uuids i.more j.more in
      record {
        more = i.more ++ j.more;
        follows = rw (append_assoc lines i.more j.more) at j.follows;
        told =
            rw (i.told, both)
              (ap ((deliver load s.seen_uuids i.more).0 ++◌) (rw i.seen_now at j.told));
        seen_now = rw both (rw i.seen_now at j.seen_now);
      }

  pub poll_all-IsPolled :
      {c c' : Bytes} (lines : List Bytes) (disks : List Disk) (s : Follow)
      → Steps p c disks c'
      → IsFollowing p head c lines s
      → let r = poll_all load disks s in IsPolled load p head c' lines s.seen_uuids r.0 r.1
  unfolding poll_all
  poll_all-IsPolled lines [] s (still c) f = quiet load p head c lines s f
  poll_all-IsPolled lines (d ∷ disks) s (next _ _ step steps) f =
      let i = poll_once-IsPolled lines d s step f in
      let j = poll_all-IsPolled (lines ++ i.more) disks (poll_once load d s).0 steps i.follows in
      composed lines s (poll_once load d s) (poll_all load disks (poll_once load d s).0) i j
