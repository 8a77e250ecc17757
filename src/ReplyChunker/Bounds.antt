-- ===== src/ReplyChunker/Bounds.antt =====
-- The length of the chunks (c_lord/discord_ui/reply_chunker.py).
use c_lord.Prelude.{
  if_cases, ℕ, zero, suc, ◌+◌, ◌≤◌, true, not, ◌&&◌, Option, none, some, List, [], ◌∷◌, ◌++◌,
  length, length-append, length-take, All, if◌then◌else◌, is_some, nat_key, ltb, leb, ◌≡◌, refl,
  inl, inr, arith, Bool-cases,
}
use c_lord.Tail.Lines.{drop}
use c_lord.ReplyChunker.{
  Text, fence, join_lines, but_last, split_pieces, Chunker, is_dangling, chunk_text, emit_text,
  reopened, is_empty, flush, separator, put_line, add_line,
}

abbrev pub IsShort : ℕ → List Text → Type 0
IsShort limit texts = All (λ (text : Text). length text ≤ limit) texts

length-join_lines :
    (lines : List Text) (line : Text)
    → length (join_lines (lines ++ (line ∷ [])))
      ≡ length (join_lines lines) + ((if is_empty lines then 0 else 1) + length line)
length-join_lines [] line = omega arith
length-join_lines (a ∷ []) line = ground (arith, length-append a (10 ∷ line))
length-join_lines (a ∷ b ∷ lines) line = ground (
  arith,
  length-join_lines (b ∷ lines) line,
  length-append a (10 ∷ join_lines (b ∷ lines)),
  length-append a (10 ∷ join_lines (b ∷ (lines ++ (line ∷ [])))),
)

length-but_last-le :
    (lines : List Text) → length (join_lines (but_last lines)) ≤ length (join_lines lines)
length-but_last-le [] = omega arith
length-but_last-le (a ∷ []) = omega arith
length-but_last-le (a ∷ b ∷ []) = omega (arith, length-append a (10 ∷ b))
length-but_last-le (a ∷ b ∷ c ∷ lines) = omega (
  arith,
  length-but_last-le (b ∷ c ∷ lines),
  length-append a (10 ∷ join_lines (b ∷ c ∷ lines)),
  length-append a (10 ∷ join_lines (b ∷ but_last (c ∷ lines))),
)

-- The room for the fence that closes a chunk.
abbrev pub room_of : Option Text → ℕ
room_of none = 0
room_of (some opener) = 4

-- What stands before the first line of the next chunk.
abbrev pub reopen_len : Option Text → ℕ
reopen_len none = 0
reopen_len (some opener) = suc (length opener)

room_of_some : (opener : Option Text) → is_some opener ≡ true → room_of opener ≡ 4
room_of_some none h = absurd (ground (arith, h))
room_of_some (some opener) h = refl

pub chunk_text-le :
    (opener : Option Text) (lines : List Text)
    → length (chunk_text opener lines) ≤ length (join_lines lines) + room_of opener
unfolding chunk_text
chunk_text-le opener lines =
    let joined = join_lines lines in
    let P : Text → Type 0 = λ text. length text ≤ length joined + room_of opener in
    if_cases P (is_dangling opener lines) (join_lines (but_last lines))
      (if is_some opener then joined ++ (10 ∷ fence) else joined)
      (λ dangles. omega (arith, length-but_last-le lines))
      (λ full.
        if_cases P (is_some opener) (joined ++ (10 ∷ fence)) joined
          (λ opened. omega (arith, length-append joined (10 ∷ fence), room_of_some opener opened))
          (λ closed. omega arith))

pub emit_text-IsShort :
    (limit : ℕ) (text : Text) (chunks : List Text)
    → length text ≤ limit
    → IsShort limit chunks
    → IsShort limit (emit_text text chunks)
emit_text-IsShort limit [] chunks h k = k
emit_text-IsShort limit (c ∷ text) [] h k = (h, tt)
emit_text-IsShort limit (c ∷ text) (chunk ∷ chunks) h k =
    (k.0, emit_text-IsShort limit (c ∷ text) chunks h k.1)

-- A chunker whose chunks are short, and whose chunk in progress is measured.
pub record IsMeasured (limit : ℕ) (s : Chunker) : Type 0 where
  pub measured : s.cur_len ≡ length (join_lines s.current)
  pub short : IsShort limit s.chunks

put_line-IsMeasured :
    (limit : ℕ) (line : Text) (s : Chunker)
    → IsMeasured limit s
    → IsMeasured limit (put_line line s)
put_line-IsMeasured limit line s m = record {
  measured = omega (arith, m.measured, length-join_lines s.current line);
  short = m.short;
}

-- What a flush leaves.
record IsFlushed (limit : ℕ) (s f : Chunker) : Type 0 where
  is_measured : IsMeasured limit f
  same_fence : f.open_fence ≡ s.open_fence
  reopens : (f.cur_len + separator f) ≤ reopen_len s.open_fence

length-join_lines_empty :
    (lines : List Text) → is_empty lines ≡ true → length (join_lines lines) ≡ 0
length-join_lines_empty [] h = refl
length-join_lines_empty (line ∷ lines) h = absurd (ground (arith, h))

abbrev fence_len : Option Text → ℕ
fence_len opener = elim opener [ some line ↦ length line | none ↦ 0 ]

length-reopened : (opener : Option Text) → fence_len opener ≡ length (join_lines (reopened opener))
length-reopened none = refl
length-reopened (some opener) = refl

reopens_with :
    (opener : Option Text)
    → fence_len opener + (if is_empty (reopened opener) then 0 else 1) ≤ reopen_len opener
reopens_with none = omega arith
reopens_with (some opener) = omega arith

flush-IsFlushed :
    (limit : ℕ) (s : Chunker)
    → IsMeasured limit s
    → s.cur_len + room_of s.open_fence ≤ limit
    → IsFlushed limit s (flush s)
unfolding flush
flush-IsFlushed limit s m h =
    let f : Chunker = record s {
      chunks = emit_text (chunk_text s.open_fence s.current) s.chunks;
      current = reopened s.open_fence;
      cur_len = fence_len s.open_fence;
    } in
    if_cases (IsFlushed limit s) (is_empty s.current) s f
      (λ empty. record {
        is_measured = m;
        same_fence = refl;
        reopens = ground (arith, empty, m.measured, length-join_lines_empty s.current empty);
      })
      (λ full. record {
        is_measured = record {
          measured = length-reopened s.open_fence;
          short =
              emit_text-IsShort limit (chunk_text s.open_fence s.current) s.chunks
                (omega (arith, chunk_text-le s.open_fence s.current, m.measured, h)) m.short;
        };
        same_fence = refl;
        reopens = reopens_with s.open_fence;
      })

pub add_line_lem :
    (limit : ℕ) (line : Text) (reserve : ℕ) (s : Chunker)
    → IsMeasured limit s
    → s.cur_len + room_of s.open_fence ≤ limit
    → reopen_len s.open_fence + length line + reserve ≤ limit
    → let t = add_line limit line reserve s in
      IsMeasured limit t × (t.open_fence ≡ s.open_fence) × (t.cur_len + reserve ≤ limit)
unfolding add_line
add_line_lem limit line reserve s m h k =
    let P : Chunker → Type 0 =
      λ t. IsMeasured limit t × (t.open_fence ≡ s.open_fence) × (t.cur_len + reserve ≤ limit) in
    let f = flush-IsFlushed limit s m h in
    if_cases P
      (not (is_empty s.current) && ltb limit (s.cur_len + separator s + length line + reserve))
      (put_line line (flush s)) (put_line line s)
      (λ too_long. (
        put_line-IsMeasured limit line (flush s) f.is_measured,
        f.same_fence,
        omega (arith, f.reopens, k),
      ))
      (λ fits. (
        put_line-IsMeasured limit line s m,
        refl,
        elim (Bool-cases (is_empty s.current)) [
          | inl empty ↦
              let none_yet = length-join_lines_empty s.current empty in
              ground (arith, empty, m.measured, none_yet, k)
          | inr full ↦ ground (arith, fits, full)
        ],
      ))

pub split_pieces-IsShort :
    (size fuel : ℕ) (text : Text) → IsShort size (split_pieces size fuel text)
unfolding split_pieces
split_pieces-IsShort size zero text = tt
split_pieces-IsShort size (suc fuel) text = elim (Bool-cases (leb (length text) 0)) [
  | inl empty ↦ rw empty tt
  | inr full ↦
      rw full
        (omega (arith, length-take size text), split_pieces-IsShort size fuel (drop size text))
]
