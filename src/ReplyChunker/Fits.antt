-- ===== src/ReplyChunker/Fits.antt =====
-- Every chunk fits into a message of Discord (c_lord/discord_ui/reply_chunker.py).
use c_lord.Prelude.{
  if_cases, ℕ, suc, ◌+◌, ◌≤◌, Bool, true, false, ◌||◌, Option, none, some, List, [], ◌∷◌, length,
  take, length-take, All, if◌then◌else◌, is_some, nat_key, leb, ◌≡◌, refl, sym, ap, ◌∙◌, subst, inl,
  inr, arith, Bool-cases,
}
use c_lord.ReplyChunker.{
  Text, fence_reserve, hard_split, Chunker, chunk_text, emit_text, is_empty, add_line, add_lines,
  finish, is_fence, max_piece_of, process_line, process_all, lines_of, start, or_head,
  chunk_discord_content,
}
use c_lord.ReplyChunker.Bounds.{
  IsShort, IsMeasured, room_of, reopen_len, add_line_lem, split_pieces-IsShort, emit_text-IsShort,
  chunk_text-le,
}

-- The chunk in progress has room for the fence that closes it, and the fence that is open is not long.
record IsFit (limit longest : ℕ) (s : Chunker) : Type 0 where
  is_measured : IsMeasured limit s
  room : s.cur_len + room_of s.open_fence ≤ limit
  fence_short : reopen_len s.open_fence ≤ suc longest

-- Lines of which each one fits behind a reopened fence.
abbrev IsSplit : ℕ → Option Text → List Text → Type 0
IsSplit limit opener lines =
    All (λ (line : Text). reopen_len opener + length line + room_of opener ≤ limit) lines

add_lines-IsFit :
    (limit longest : ℕ) (lines : List Text) (s : Chunker)
    → IsFit limit longest s
    → IsSplit limit s.open_fence lines
    → let t = add_lines limit lines (room_of s.open_fence) s in
      IsFit limit longest t × (t.open_fence ≡ s.open_fence)
unfolding add_lines
add_lines-IsFit limit longest [] s f h = (f, refl)
add_lines-IsFit limit longest (line ∷ lines) s f h =
    let (m, same, room) =
      add_line_lem limit line (room_of s.open_fence) s f.is_measured f.room h.0 in
    let t = add_line limit line (room_of s.open_fence) s in
    let next_fit : IsFit limit longest t = record {
      is_measured = m;
      room = rw same room;
      fence_short = rw same f.fence_short;
    } in
    let reserve : room_of t.open_fence ≡ room_of s.open_fence = ap room_of same in
    subst
      (λ n.
        let u = add_lines limit lines n t in IsFit limit longest u × (u.open_fence ≡ s.open_fence))
      reserve
      (let (g, same') = add_lines-IsFit limit longest lines t next_fit (rw same h.1) in
        (g, same' ∙ same))

All-le :
    (limit size room : ℕ) (lines : List Text)
    → size + room ≤ limit
    → IsShort size lines
    → All (λ (line : Text). length line + room ≤ limit) lines
All-le limit size room [] h k = tt
All-le limit size room (line ∷ lines) h k =
    (omega (arith, h, k.0), All-le limit size room lines h k.1)

-- The segments of one line.
abbrev segments_of : Text → ℕ → List Text
segments_of line size = if leb (length line) size then line ∷ [] else hard_split line size

segments_of-IsShort : (line : Text) (size : ℕ) → IsShort size (segments_of line size)
unfolding hard_split
segments_of-IsShort line size =
    if_cases (IsShort size) (leb (length line) size) (line ∷ []) (hard_split line size)
      (λ short. (ground (arith, short), tt)) (λ long. split_pieces-IsShort size (length line) line)

IsSplit-of_short :
    (limit size : ℕ) (opener : Option Text) (lines : List Text)
    → reopen_len opener + size + room_of opener ≤ limit
    → IsShort size lines
    → IsSplit limit opener lines
IsSplit-of_short limit size opener [] h k = tt
IsSplit-of_short limit size opener (line ∷ lines) h k =
    (omega (arith, h, k.0), IsSplit-of_short limit size opener lines h k.1)

piece_fits :
    (limit longest : ℕ) (opener : Option Text)
    → longest + longest + 6 ≤ limit
    → reopen_len opener ≤ suc longest
    → reopen_len opener + max_piece_of limit false opener + room_of opener ≤ limit
piece_fits limit longest none h k = omega arith
piece_fits limit longest (some opener) h k = omega (arith, h, k)

reserve_of :
    (opener : Option Text) → (if is_some opener || false then fence_reserve else 0) ≡ room_of opener
reserve_of none = refl
reserve_of (some opener) = refl

reserve_fence : (opener : Option Text) → (if is_some opener || true then fence_reserve else 0) ≡ 4
reserve_fence none = refl
reserve_fence (some opener) = refl

fence_piece : (limit : ℕ) (opener : Option Text) → max_piece_of limit true opener ≡ limit
fence_piece limit none = refl
fence_piece limit (some opener) = refl

abbrev next_fence : Option Text → Text → Option Text
next_fence opener line = if is_some opener then none else some line

fence_room : (opener : Option Text) (line : Text) → room_of (next_fence opener line) ≤ 4
fence_room none line = omega arith
fence_room (some opener) line = omega arith

fence_len-le :
    (longest : ℕ) (opener : Option Text) (line : Text)
    → length line ≤ longest
    → reopen_len (next_fence opener line) ≤ suc longest
fence_len-le longest none line k = omega (arith, k)
fence_len-le longest (some opener) line k = omega arith

module _ (is_space : ℕ → Bool) (limit longest : ℕ) where
  process_line_body :
      (line : Text) (s : Chunker)
      → is_fence is_space line ≡ false
      → process_line is_space limit line s
        ≡ add_lines limit
            (segments_of line (max_piece_of limit false s.open_fence))
            (room_of s.open_fence)
            s
  unfolding process_line
  process_line_body line s plain = rw (plain, reserve_of s.open_fence) refl

  process_line_fence :
      (line : Text) (s : Chunker)
      → is_fence is_space line ≡ true
      → process_line is_space limit line s ≡ record (add_lines limit (segments_of line limit) 4 s) {
        open_fence = next_fence s.open_fence line;
      }
  unfolding process_line
  process_line_fence line s fenced =
      rw (fenced, reserve_fence s.open_fence, fence_piece limit s.open_fence) refl

  -- A line outside the fences and inside one.
  body-IsFit :
      (line : Text) (s : Chunker)
      → longest + longest + 6 ≤ limit
      → is_fence is_space line ≡ false
      → IsFit limit longest s
      → IsFit limit longest (process_line is_space limit line s)
  unfolding process_line
  body-IsFit line s h plain f =
      let size = max_piece_of limit false s.open_fence in
      rw (process_line_body line s plain) (
        (add_lines-IsFit limit longest (segments_of line size) s f (
          IsSplit-of_short limit size s.open_fence (segments_of line size)
            (piece_fits limit longest s.open_fence h f.fence_short)
            (segments_of-IsShort line size))).0)

  fence-IsFit :
      (line : Text) (s : Chunker)
      → longest + longest + 6 ≤ limit
      → is_fence is_space line ≡ true
      → length line ≤ longest
      → IsFit limit longest s
      → IsFit limit longest (process_line is_space limit line s)
  unfolding process_line add_lines
  fence-IsFit line s h fenced k f =
      let one : segments_of line limit ≡ line ∷ [] =
        let fits : leb (length line) limit ≡ true = ground (arith, h, k) in rw fits refl in
      let (m, same, room) =
        add_line_lem limit line 4 s f.is_measured f.room (omega (arith, h, k, f.fence_short)) in
      subst (IsFit limit longest) (sym (process_line_fence line s fenced)) (
        rw one (record {
          is_measured = record { measured = m.measured; short = m.short };
          room = omega (arith, room, fence_room s.open_fence line);
          fence_short = fence_len-le longest s.open_fence line k;
        }))

  process_all-IsFit :
      (lines : List Text) (s : Chunker)
      → longest + longest + 6 ≤ limit
      → All (λ (line : Text). is_fence is_space line ≡ true → length line ≤ longest) lines
      → IsFit limit longest s
      → IsFit limit longest (process_all is_space limit lines s)
  unfolding process_all
  process_all-IsFit [] s h k f = f
  process_all-IsFit (line ∷ lines) s h k f =
      process_all-IsFit lines (process_line is_space limit line s) h k.1
        (elim (Bool-cases (is_fence is_space line)) [
          | inl fenced ↦ fence-IsFit line s h fenced (k.0 fenced) f
          | inr plain ↦ body-IsFit line s h plain f
        ])

finish-IsShort :
    (limit longest : ℕ) (s : Chunker) → IsFit limit longest s → IsShort limit (finish s)
unfolding finish
finish-IsShort limit longest s f =
    if_cases (IsShort limit) (is_empty s.current) s.chunks
      (emit_text (chunk_text s.open_fence s.current) s.chunks) (λ empty. f.is_measured.short)
      (λ full.
        emit_text-IsShort limit (chunk_text s.open_fence s.current) s.chunks
          (omega (arith, chunk_text-le s.open_fence s.current, f.is_measured.measured, f.room))
          f.is_measured.short)

or_head-IsShort :
    (limit : ℕ) (chunks : List Text) (head : Text)
    → IsShort limit chunks
    → length head ≤ limit
    → IsShort limit (or_head chunks head)
or_head-IsShort limit [] head k h = (h, tt)
or_head-IsShort limit (chunk ∷ chunks) head k h = k

start-IsFit : (limit longest : ℕ) → IsFit limit longest start
start-IsFit limit longest = record {
  is_measured = record { measured = refl; short = tt };
  room = omega arith;
  fence_short = omega arith;
}

-- When no line that starts with a fence is longer than `longest`, two of which fit into a chunk with six
-- more characters, a reply is split, and no chunk is longer than the limit: neither a long line, nor
-- the fence that is opened again, nor the one that closes it makes it so.
pub chunk_discord_content-IsShort :
    (is_space : ℕ → Bool) (content : Text) (limit longest : ℕ)
    → longest + longest + 6 ≤ limit
    → All
        (λ (line : Text). is_fence is_space line ≡ true → length line ≤ longest)
        (lines_of content)
    → (chunks : List Text) × (chunk_discord_content is_space content limit ≡ some chunks)
      × IsShort limit chunks
unfolding chunk_discord_content
chunk_discord_content-IsShort is_space content limit longest h k =
    let positive : leb limit 0 ≡ false = ground (arith, h) in
    elim (Bool-cases (leb (length content) limit)) [
      | inl short ↦ (content ∷ [], rw (positive, short) refl, (ground (arith, short), tt))
      | inr long ↦
          let s = process_all is_space limit (lines_of content) start in
          let fit =
            process_all-IsFit is_space limit longest (lines_of content) start h k
              (start-IsFit limit longest) in
          (
            or_head (finish s) (take limit content),
            rw (positive, long) refl,
            or_head-IsShort limit (finish s) (take limit content)
                (finish-IsShort limit longest s fit) (omega (arith, length-take limit content)),
          )
    ]
