-- ===== src/Tail/Once.antt =====
-- No record is delivered twice (c_lord/transcript/tail.py, `_poll_once`).
use Prim.Native.Nat.{min}
use c_lord.Prelude.{
  ℕ, zero, suc, ◌-◌, String, true, false, ◌||◌, List, [], ◌∷◌, ◌++◌, contains, contains-append,
  length, take, nat_key, string_key, ◌==◌, leb, ◌≡◌, subst, inl, inr, arith, Bool-cases,
  Option-cases,
}
use c_lord.Prelude.Dict.{get}
use c_lord.Tail.Lines.{Bytes, drop, split_lines}
use c_lord.Tail.Records.{
  Parsed, Stat, gone, refused, found, Content, no_file, denied, holds, uuid_of, record_in,
  record_uuid, record_all, seed_loop, seed_seen_uuids, seed_chunk_bytes, emit, deliver,
}
use c_lord.Tail.{
  Disk, Follow, bank, read_chunk_bytes, drop_current, rewind, start_offset, adopt, switch,
  read_chunk, read_file, poll_file, poll_once, poll_all,
}
use c_lord.Tail.Fresh.{
  uuids, IsFresh, IsWithin, IsOnce, IsOnce-compose, IsOnce-quiet, bare-IsOnce, named-IsOnce,
}

module _ (load : Bytes → Parsed) where
  emit-IsOnce :
      (seen : List String) (line : Bytes)
      → IsOnce seen (emit load seen line).1 (emit load seen line).0
  unfolding emit
  emit-IsOnce seen line = elim (Option-cases (record_in load line)) [
    | inl empty ↦ rw (emit, empty) (IsOnce-quiet seen seen (λ u h. h))
    | inr (e, full) ↦ elim (Option-cases (uuid_of e)) [
      | inl bare ↦ rw (emit, full, bare) (bare-IsOnce seen e bare)
      | inr (u, named) ↦ elim (Bool-cases (contains u seen)) [
        | inl known ↦ rw (emit, full, named, known) (IsOnce-quiet seen seen (λ u h. h))
        | inr new ↦ rw (emit, full, named, new) (named-IsOnce seen e u named new)
      ]
    ]
  ]

  deliver-IsOnce :
      (seen : List String) (lines : List Bytes)
      → IsOnce seen (deliver load seen lines).1 (deliver load seen lines).0
  unfolding deliver
  deliver-IsOnce seen [] = IsOnce-quiet seen seen (λ u h. h)
  deliver-IsOnce seen (line ∷ lines) =
      let r = emit load seen line in
      let m = deliver load r.1 lines in
      IsOnce-compose seen r.1 m.1 r.0 m.0 (emit-IsOnce seen line) (deliver-IsOnce r.1 lines)

  IsWithin-record_uuid :
      (line : Bytes) (seen : List String) → IsWithin seen (record_uuid load line seen)
  unfolding record_uuid
  IsWithin-record_uuid line seen u h = elim (Option-cases (record_in load line)) [
    | inl empty ↦ rw (record_uuid, empty) h
    | inr (e, full) ↦ elim (Option-cases (uuid_of e)) [
      | inl bare ↦ rw (record_uuid, full, bare) h
      | inr (v, named) ↦
          rw (record_uuid, full, named) (ground (arith, h, contains-append u seen (v ∷ [])))
    ]
  ]

  IsWithin-record_all :
      (lines : List Bytes) (seen : List String) → IsWithin seen (record_all load lines seen)
  unfolding record_all
  IsWithin-record_all [] seen u h = h
  IsWithin-record_all (line ∷ lines) seen u h =
      IsWithin-record_all lines (record_uuid load line seen) u (IsWithin-record_uuid line seen u h)

  IsWithin-seed_loop :
      (fuel remaining : ℕ) (bytes buffer : Bytes) (seen : List String)
      → IsWithin seen (seed_loop load fuel remaining bytes buffer seen)
  unfolding seed_loop
  IsWithin-seed_loop zero remaining bytes buffer seen u h = IsWithin-record_uuid buffer seen u h
  IsWithin-seed_loop (suc fuel) remaining bytes buffer seen u h =
      let chunk = take (min seed_chunk_bytes remaining) bytes in
      let pieces = split_lines (buffer ++ chunk) in
      elim (Bool-cases (leb remaining 0 || leb (length chunk) 0)) [
        | inl over ↦ rw over (IsWithin-record_uuid buffer seen u h)
        | inr more ↦ rw more (
            IsWithin-seed_loop fuel (remaining - length chunk) (drop (length chunk) bytes) pieces.1
              (record_all load pieces.0 seen) u (IsWithin-record_all pieces.0 seen u h))
      ]

  IsWithin-seed_seen_uuids :
      (content : Content) (upto : ℕ) (seen : List String)
      → IsWithin seen (seed_seen_uuids load content upto seen)
  unfolding seed_seen_uuids
  IsWithin-seed_seen_uuids no_file upto seen u h = h
  IsWithin-seed_seen_uuids denied upto seen u h = h
  IsWithin-seed_seen_uuids (holds bytes) upto seen u h =
      IsWithin-seed_loop upto upto bytes [] seen u h

  IsWithin-start_offset :
      (d : Disk) (p : ℕ) (s : Follow) → IsWithin s.seen_uuids (start_offset load d p s).1
  unfolding start_offset
  IsWithin-start_offset d p s u h = elim (Option-cases (get p s.offsets)) [
    | inr (known, banked) ↦ rw (start_offset, banked) h
    | inl new ↦ elim (Option-cases (get p s.pre_existing)) [
      | inl later ↦ rw (start_offset, new, later) h
      | inr (baseline, earlier) ↦ elim (Bool-cases s.from_start) [
        | inl all ↦ rw (start_offset, new, earlier, all) h
        | inr skip ↦
            rw (start_offset, new, earlier, skip)
              (IsWithin-seed_seen_uuids (d.content p) baseline s.seen_uuids u h)
      ]
    ]
  ]

  IsWithin-adopt :
      (d : Disk) (p : ℕ) (s : Follow) → IsWithin s.seen_uuids (adopt load d p s).seen_uuids
  unfolding adopt
  IsWithin-adopt d p s = IsWithin-start_offset d p (record s { offsets = bank s })

  IsWithin-switch :
      (d : Disk) (p : ℕ) (s : Follow) → IsWithin s.seen_uuids (switch load d p s).seen_uuids
  unfolding switch
  IsWithin-switch d p s u h = elim (Option-cases s.current_path) [
    | inl idle ↦ rw (switch, idle) (IsWithin-adopt d p s u h)
    | inr (q, here) ↦ elim (Bool-cases (q == p)) [
      | inl same ↦ rw (switch, here, same) h
      | inr other ↦ rw (switch, here, other) (IsWithin-adopt d p s u h)
    ]
  ]

  read_file-IsOnce :
      (content : Content) (size : ℕ) (s : Follow)
      → let r = read_file load content size s in IsOnce s.seen_uuids r.0.seen_uuids r.1
  unfolding read_file drop_current read_chunk
  read_file-IsOnce content size s = elim (Bool-cases (leb size s.offset)) [
    | inl done ↦ rw done (IsOnce-quiet s.seen_uuids s.seen_uuids (λ u h. h))
    | inr more ↦
        elim content
          as (λ c. let r = read_file load c size s in IsOnce s.seen_uuids r.0.seen_uuids r.1) [
            | no_file ↦ rw more (IsOnce-quiet s.seen_uuids s.seen_uuids (λ u h. h))
            | denied ↦ rw more (IsOnce-quiet s.seen_uuids s.seen_uuids (λ u h. h))
            | holds bytes ↦ rw more (
                deliver-IsOnce s.seen_uuids
                  (split_lines (s.buffer ++ take read_chunk_bytes (drop s.offset bytes))).0)
          ]
  ]

  rewind-seen :
      (content : Content) (size mtime : ℕ) (s : Follow)
      → (rewind content size mtime s).seen_uuids ≡ s.seen_uuids
  unfolding rewind
  rewind-seen content size mtime s = ground arith

  poll_file-IsOnce :
      (stat : Stat) (content : Content) (s : Follow)
      → let r = poll_file load stat content s in IsOnce s.seen_uuids r.0.seen_uuids r.1
  unfolding poll_file drop_current
  poll_file-IsOnce gone content s = IsOnce-quiet s.seen_uuids s.seen_uuids (λ u h. h)
  poll_file-IsOnce refused content s = IsOnce-quiet s.seen_uuids s.seen_uuids (λ u h. h)
  poll_file-IsOnce (found size mtime) content s =
      let s' = rewind content size mtime s in
      let r = read_file load content size s' in
      subst (λ seen. IsOnce seen r.0.seen_uuids r.1) (rewind-seen content size mtime s)
        (read_file-IsOnce content size s')

  poll_once-IsOnce :
      (d : Disk) (s : Follow) → let r = poll_once load d s in IsOnce s.seen_uuids r.0.seen_uuids r.1
  unfolding poll_once
  poll_once-IsOnce d s = elim (Option-cases d.active) [
    | inl idle ↦ rw (poll_once, idle) (IsOnce-quiet s.seen_uuids s.seen_uuids (λ u h. h))
    | inr (p, found_one) ↦
        let s' =
          switch load d p
            (record s { more_to_read = false; read_error = false; resolved = true }) in
        let r = poll_file load (d.stat p) (d.content p) s' in
        rw (poll_once, found_one)
          (IsOnce-compose s.seen_uuids s'.seen_uuids r.0.seen_uuids [] r.1
            (IsOnce-quiet s.seen_uuids s'.seen_uuids (
              IsWithin-switch d p
                (record s { more_to_read = false; read_error = false; resolved = true })))
            (poll_file-IsOnce (d.stat p) (d.content p) s'))
  ]

  poll_all-IsOnce :
      (disks : List Disk) (s : Follow)
      → let r = poll_all load disks s in IsOnce s.seen_uuids r.0.seen_uuids r.1
  unfolding poll_all
  poll_all-IsOnce [] s = IsOnce-quiet s.seen_uuids s.seen_uuids (λ u h. h)
  poll_all-IsOnce (d ∷ disks) s =
      let r = poll_once load d s in
      let m = poll_all load disks r.0 in
      IsOnce-compose s.seen_uuids r.0.seen_uuids m.0.seen_uuids r.1 m.1 (poll_once-IsOnce d s)
        (poll_all-IsOnce disks r.0)

  -- Whatever the disk does between polls (growth, truncation, rewriting, another transcript, failed
  -- reads), no record with a uuid is delivered twice, and none that was seen before the first poll.
  pub poll_all-IsFresh :
      (disks : List Disk) (s : Follow) → IsFresh s.seen_uuids (uuids (poll_all load disks s).1)
  poll_all-IsFresh disks s = (poll_all-IsOnce disks s).fresh
