-- ===== src/Tail/Ends.antt =====
-- Where the last whole line ends (c_lord/transcript/tail.py, `_whole_lines_end`).
use c_lord.Prelude.{
  ℕ, zero, suc, ◌+◌, ◌-◌, ◌≤◌, true, false, Option, none, some, List, [], ◌∷◌, ◌++◌, length, take,
  length-take, nat_key, ◌==◌, leb, ◌≡◌, refl, ap, sym, ◌∙◌, inl, inr, arith, Bool-cases,
  Option-cases,
}
use c_lord.Tail.Lines.{
  Bytes, newline, drop, push, split_lines, whole, length-drop, take-append-drop,
}
use c_lord.Tail.Records.{
  found, holds, rfind, seek_line_end, line_seek_bytes, ends_line, size_of, whole_lines_end,
}

rfind-append_some : (a b : Bytes) (i : ℕ) → rfind b ≡ some i → rfind (a ++ b) ≡ some (length a + i)
unfolding rfind
rfind-append_some [] b i h = ground (arith, h)
rfind-append_some (c ∷ a) b i h = ground (arith, rfind-append_some a b i h)

rfind-append_none : (a b : Bytes) → rfind b ≡ none → rfind (a ++ b) ≡ rfind a
unfolding rfind
rfind-append_none [] b h = h
rfind-append_none (c ∷ a) b h = rw (rfind-append_none a b h) refl

-- Behind the last newline.
abbrev behind : Option ℕ → ℕ
behind (some i) = suc i
behind none = 0

pub take-slice : (m k n : ℕ) (b : Bytes) → n ≡ m + k → take n b ≡ take m b ++ take k (drop m b)
take-slice zero k n b h = let e : n ≡ k = omega arith in ap (λ j. take j b) e
take-slice (suc m) k zero b h = absurd (omega arith)
take-slice (suc m) zero (suc n) [] h = refl
take-slice (suc m) (suc k) (suc n) [] h = refl
take-slice (suc m) k (suc n) (x ∷ b) h = ap (x ∷◌) (take-slice m k n b (omega arith))

block_without :
    (fuel end : ℕ) (b : Bytes)
    → let from = suc end - line_seek_bytes in
      let chunk = take (suc end - from) (drop from b) in
      seek_line_end fuel from b ≡ behind (rfind (take from b))
      → take (suc end) b ≡ take from b ++ chunk
      → rfind chunk ≡ none
      → seek_line_end (suc fuel) (suc end) b ≡ behind (rfind (take (suc end) b))
unfolding seek_line_end
block_without fuel end b earlier cut nothing =
    let from = suc end - line_seek_bytes in
    let chunk = take (suc end - from) (drop from b) in
    let more : leb (suc end) 0 ≡ false = ground arith in
    rw (seek_line_end, more, nothing)
      (earlier ∙ ap behind (sym (ap rfind cut ∙ rfind-append_none (take from b) chunk nothing)))

block_with :
    (fuel end i : ℕ) (b : Bytes)
    → suc end ≤ length b
    → let from = suc end - line_seek_bytes in
      let chunk = take (suc end - from) (drop from b) in
      take (suc end) b ≡ take from b ++ chunk
      → rfind chunk ≡ some i
      → seek_line_end (suc fuel) (suc end) b ≡ behind (rfind (take (suc end) b))
unfolding seek_line_end
block_with fuel end i b k cut last =
    let from = suc end - line_seek_bytes in
    let chunk = take (suc end - from) (drop from b) in
    let more : leb (suc end) 0 ≡ false = ground arith in
    let here : length (take from b) ≡ from = omega (arith, length-take from b) in
    let e : from + i + 1 ≡ suc (length (take from b) + i) = omega (arith, here) in
    rw (seek_line_end, more, last)
      (e ∙ ap behind (sym (ap rfind cut ∙ rfind-append_some (take from b) chunk i last)))

-- The search by blocks finds the last newline before `end`.
seek_line_end_lem :
    (fuel end : ℕ) (b : Bytes)
    → end ≤ fuel
    → end ≤ length b
    → seek_line_end fuel end b ≡ behind (rfind (take end b))
unfolding seek_line_end rfind
seek_line_end_lem zero zero b h k = refl
seek_line_end_lem zero (suc end) b h k = absurd (omega arith)
seek_line_end_lem (suc fuel) zero b h k = refl
seek_line_end_lem (suc fuel) (suc end) b h k =
    let from = suc end - line_seek_bytes in
    let chunk = take (suc end - from) (drop from b) in
    let cut = take-slice from (suc end - from) (suc end) b (omega arith) in
    let earlier = seek_line_end_lem fuel from b (omega arith) (omega arith) in
    let more : leb (suc end) 0 ≡ false = ground arith in
    elim (Option-cases (rfind chunk)) [
      | inl none_here ↦ block_without fuel end b earlier cut none_here
      | inr (i, last) ↦ block_with fuel end i b k cut last
    ]

split_of_none : (b : Bytes) → rfind b ≡ none → split_lines b ≡ ([], b)
unfolding rfind split_lines
split_of_none [] h = refl
split_of_none (c ∷ b) h = elim (Option-cases (rfind b)) [
  | inr (i, later) ↦ absurd (ground (arith, h, later))
  | inl nothing ↦ elim (Bool-cases (c == newline)) [
    | inl ends ↦ absurd (ground (arith, h, nothing, ends))
    | inr goes_on ↦ rw (goes_on, split_of_none b nothing) refl
  ]
]

length-push :
    (c : ℕ) (lines : List Bytes) (rest : Bytes)
    → ¬ (lines ≡ [])
    → ((push c (lines, rest)).1 ≡ rest) × (¬ ((push c (lines, rest)).0 ≡ []))
length-push c [] rest h = absurd (h refl)
length-push c (line ∷ lines) rest h = (refl, λ e. ground arith)

split_of_some :
    (b : Bytes) (i : ℕ)
    → rfind b ≡ some i
    → (length (split_lines b).1 + suc i ≡ length b) × (¬ ((split_lines b).0 ≡ []))
unfolding rfind split_lines
split_of_some [] i h = ground arith
split_of_some (c ∷ b) i h = elim (Option-cases (rfind b)) [
  | inr (j, later) ↦
      let (counted, some_line) = split_of_some b j later in
      let (kept, still) = length-push c (split_lines b).0 (split_lines b).1 some_line in
      elim (Bool-cases (c == newline)) [
        | inl ends ↦ rw ends (ground (arith, h, later, counted), λ e. ground arith)
        | inr goes_on ↦ rw (goes_on, kept) (ground (arith, h, later, counted), still)
      ]
  | inl nothing ↦ elim (Bool-cases (c == newline)) [
    | inl ends ↦
        rw (ends, split_of_none b nothing) (ground (arith, h, nothing, ends), λ e. ground arith)
    | inr goes_on ↦ absurd (ground (arith, h, nothing, goes_on))
  ]
]

behind-rfind : (b : Bytes) → behind (rfind b) ≡ whole b
behind-rfind b = elim (Option-cases (rfind b)) [
  | inl nothing ↦ rw (nothing, split_of_none b nothing) (omega arith)
  | inr (i, last) ↦ rw last (omega (arith, (split_of_some b i last).0))
]

take_all : (b : Bytes) → take (length b) b ≡ b
take_all [] = refl
take_all (c ∷ b) = ap (c ∷◌) (take_all b)

ends_line_cases : (x : Bytes) → ends_line x ≡ true → rfind x ≡ some 0
unfolding rfind
ends_line_cases [] h = ground arith
ends_line_cases (c ∷ []) h = rw h refl
ends_line_cases (c ∷ d ∷ x) h = ground arith

take_short : (n : ℕ) (b : Bytes) → length b ≤ n → take n b ≡ b
take_short zero [] h = refl
take_short zero (c ∷ b) h = absurd (omega arith)
take_short (suc n) [] h = refl
take_short (suc n) (c ∷ b) h = ap (c ∷◌) (take_short n b (omega arith))

newline_last :
    (b : Bytes)
    → ends_line (take 1 (drop (length b - 1) b)) ≡ true
    → leb (length b) 0 ≡ false
    → rfind b ≡ some (length b - 1)
newline_last b h k =
    let last = drop (length b - 1) b in
    let n = length b - 1 in
    let one : take 1 last ≡ last = take_short 1 last (omega (arith, length-drop n b)) in
    let found_it : rfind last ≡ some 0 = ends_line_cases last (rw one at h) in
    let e : length (take n b) + 0 ≡ n = omega (arith, length-take n b) in
    ap rfind (sym (take-append-drop n b)) ∙ rfind-append_some (take n b) last 0 found_it ∙ ap some e

-- Of a file as long as it was said to be, the place is exactly where its last whole line ends, however
-- far back: what lies behind it is the line that is still being written.
pub whole_lines_end_lem :
    (b : Bytes) (mtime : ℕ) → whole_lines_end (found (length b) mtime) (holds b) ≡ whole b
unfolding whole_lines_end size_of
whole_lines_end_lem b mtime = elim (Bool-cases (leb (length b) 0)) [
  | inl empty ↦
      rw (whole_lines_end, empty) (let e : length b ≡ 0 = ground (arith, empty) in omega (arith, e))
  | inr full ↦ elim (Bool-cases (ends_line (take 1 (drop (length b - 1) b)))) [
    | inl ended ↦
        let e : suc (length b - 1) ≡ length b = ground (arith, full) in
        rw (whole_lines_end, full, ended)
          (sym e ∙ sym (ap behind (newline_last b ended full)) ∙ behind-rfind b)
    | inr half ↦
        rw (whole_lines_end, full, half)
          (seek_line_end_lem (length b) (length b) b (omega arith) (omega arith)
            ∙ ap (λ x. behind (rfind x)) (take_all b)
            ∙ behind-rfind b)
  ]
]
