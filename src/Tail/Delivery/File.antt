-- ===== src/Tail/Delivery/File.antt =====
-- One poll of a file (c_lord/transcript/tail.py, `_poll_once`).
use c_lord.Prelude.{
  ℕ, ◌≤◌, ◌<◌, true, false, List, ◌++◌, length, take, nat_key, leb, ◌≡◌, ◌⊎◌, refl, subst, sym, ◌∙◌,
  inl, inr, arith, Bool-cases,
}
use c_lord.Tail.Lines.{Bytes, drop, split_lines}
use c_lord.Tail.Records.{Parsed, found, Content, no_file, denied, holds}
use c_lord.Tail.{
  Follow, read_chunk_bytes, signature_at, drop_current, must_rewind, rewind, read_chunk, read_file,
  poll_file,
}
use c_lord.Tail.Delivery.Place.{
  IsPlace-grow, IsPlace-read, place-le, same_bytes_refl, signature_at-append,
}
use c_lord.Tail.Delivery.Open.{IsOpen, IsPolled, drop_current-IsFollowing, here, quiet}

module _ (load : Bytes → Parsed) (p : ℕ) (head : Bytes) where
  no_rewind :
      (content : Content) (size mtime : ℕ) (s : Follow)
      → s.offset ≤ size
      → (s.signature ≡ signature_at content s.offset) ⊎ (s.offset < size)
      → must_rewind content size mtime s ≡ false
  unfolding must_rewind
  no_rewind content size mtime s h (inl same) =
      rw (must_rewind, same) (ground (arith, same_bytes_refl (signature_at content s.offset)))
  no_rewind content size mtime s h (inr grown) = ground arith

  -- The stat of a file that was not rewritten changes its modification time alone.
  rewind-IsOpen :
      (c : Bytes) (content : Content) (size mtime : ℕ) (lines : List Bytes) (s : Follow)
      → must_rewind content size mtime s ≡ false
      → IsOpen load p head c content lines s
      → IsOpen load p head c content lines (rewind content size mtime s)
        × ((rewind content size mtime s).seen_uuids ≡ s.seen_uuids)
        × ((rewind content size mtime s).offset ≡ s.offset)
  unfolding rewind
  rewind-IsOpen c content size mtime lines s same i =
      rw (rewind, same) (record { current = i.current; place = i.place; mark = i.mark }, refl, refl)

  read_file-IsPolled :
      (c : Bytes) (size : ℕ) (lines : List Bytes) (s : Follow)
      → IsOpen load p head c (holds c) lines s
      → let r = read_file load (holds c) size s in IsPolled load p head c lines s.seen_uuids r.0 r.1
  unfolding read_file read_chunk
  read_file-IsPolled c size lines s i = elim (Bool-cases (leb size s.offset)) [
    | inl none_new ↦
        rw (read_file, none_new)
          (quiet load p head c lines s (here i.current i.place (marked i.mark)))
    | inr more ↦
        let chunk = take read_chunk_bytes (drop s.offset c) in
        let pieces = split_lines (s.buffer ++ chunk) in
        rw (read_file, more)
          (record {
            more = pieces.0;
            follows =
                here i.current
                  (IsPlace-read head c lines s.offset read_chunk_bytes s.buffer i.place) refl;
            told = refl;
            seen_now = refl;
          })
  ]
    where
      marked :
          (s.signature ≡ signature_at (holds c) s.offset)
            ⊎ (s.signature ≡ signature_at (holds c) s.offset)
          → s.signature ≡ signature_at (holds c) s.offset
      marked (inl e) = e
      marked (inr e) = e

  IsOpen-grow :
      (c more : Bytes) (lines : List Bytes) (s : Follow)
      → IsOpen load p head c (holds (c ++ more)) lines s
      → IsOpen load p head (c ++ more) (holds (c ++ more)) lines s
  IsOpen-grow c more lines s i = record {
    current = i.current;
    place = IsPlace-grow head c more lines s.offset s.buffer i.place;
    mark = elim i.mark [
      | inl e ↦ inl (
          e
          ∙ sym (
              signature_at-append c more s.offset
                (place-le head c lines s.offset s.buffer i.place)))
      | inr e ↦ inr e
    ];
  }

  pub poll_file-readable :
      (c more : Bytes) (size mtime : ℕ) (lines : List Bytes) (s : Follow)
      → length c ≤ size
      → IsOpen load p head c (holds (c ++ more)) lines s
      → let r = poll_file load (found size mtime) (holds (c ++ more)) s in
        IsPolled load p head (c ++ more) lines s.seen_uuids r.0 r.1
  unfolding poll_file
  poll_file-readable c more size mtime lines s h i =
      let j = IsOpen-grow c more lines s i in
      let content = holds (c ++ more) in
      let within : s.offset ≤ size =
        omega (arith, place-le head c lines s.offset s.buffer i.place) in
      let marked : s.signature ≡ signature_at content s.offset = elim j.mark [
        | inl e ↦ e
        | inr e ↦ e
      ] in
      let (k, same, _) =
        rewind-IsOpen (c ++ more) content size mtime lines s
          (no_rewind content size mtime s within (inl marked)) j in
      let s' = rewind content size mtime s in
      let r = read_file load content size s' in
      subst (λ seen. IsPolled load p head (c ++ more) lines seen r.0 r.1) same
        (read_file-IsPolled (c ++ more) size lines s' k)

  read_file-lost :
      (c : Bytes) (content : Content) (size : ℕ) (lines : List Bytes) (s : Follow)
      → (content ≡ no_file) ⊎ (content ≡ denied)
      → leb size s.offset ≡ false
      → IsOpen load p head c content lines s
      → let r = read_file load content size s in IsPolled load p head c lines s.seen_uuids r.0 r.1
  unfolding read_file drop_current
  read_file-lost c content size lines s (inl e) more i =
      rw (read_file, more, e)
        (quiet load p head c lines (drop_current s)
          (drop_current-IsFollowing load p head c content lines s i))
  read_file-lost c content size lines s (inr e) more i =
      rw (read_file, more, e)
        (quiet load p head c lines (drop_current (record s { read_error = true })) (
          drop_current-IsFollowing load p head c content lines (record s { read_error = true })
            (record { current = i.current; place = i.place; mark = i.mark })))

  pub poll_file-unreadable :
      (c : Bytes) (content : Content) (size mtime : ℕ) (lines : List Bytes) (s : Follow)
      → (content ≡ no_file) ⊎ (content ≡ denied)
      → length c < size
      → IsOpen load p head c content lines s
      → let r = poll_file load (found size mtime) content s in
        IsPolled load p head c lines s.seen_uuids r.0 r.1
  unfolding poll_file read_file
  poll_file-unreadable c content size mtime lines s lost h i =
      let inside : s.offset < size =
        omega (arith, place-le head c lines s.offset s.buffer i.place) in
      let within : s.offset ≤ size = omega (arith, inside) in
      let (k, same, stays) =
        rewind-IsOpen c content size mtime lines s
          (no_rewind content size mtime s within (inr inside)) i in
      let s' = rewind content size mtime s in
      let more : leb size s'.offset ≡ false = ground (arith, inside, stays) in
      let r = read_file load content size s' in
      subst (λ seen. IsPolled load p head c lines seen r.0 r.1) same
        (read_file-lost c content size lines s' lost more k)
