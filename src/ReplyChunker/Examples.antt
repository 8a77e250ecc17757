-- ===== src/ReplyChunker/Examples.antt =====
-- Code that is longer than a message of thirteen characters, and the theorems at it.
use c_lord.Prelude.{
  ℕ, ◌≤◌, Bool, true, none, some, List, [], ◌∷◌, ◌++◌, length, map, All, nat_key, ◌==◌, ◌≡◌, refl,
  arith,
}
use c_lord.Tail.Lines.{split_lines}
use c_lord.ReplyChunker.{
  Text, fence, split_pieces, hard_split, chunk_text, flush, add_line, add_lines, finish,
  process_line, process_all, is_fence, lines_of, chunk_discord_content,
}
use c_lord.ReplyChunker.Bounds.{IsShort}
use c_lord.ReplyChunker.Fits.{chunk_discord_content-IsShort}

program : Unit {0}
unfolding split_lines split_pieces hard_split chunk_text flush add_line add_lines finish
    process_line process_all chunk_discord_content
program = tt

abbrev blank : ℕ → Bool
blank c = c == 32

-- A fence, a line of eight characters, and the fence again.
abbrev code : Text
code = fence ++ (10 ∷ (1 ∷ 2 ∷ 3 ∷ 4 ∷ 5 ∷ 6 ∷ 7 ∷ 8 ∷ (10 ∷ fence)))

-- The fence that closes is given room for one more, so it stands in an empty block of its own.
three_chunks :
    chunk_discord_content blank code 13
    ≡ some (
        (fence ++ (10 ∷ 1 ∷ 2 ∷ 3 ∷ 4 ∷ 5 ∷ (10 ∷ fence)))
        ∷ (fence ++ (10 ∷ 6 ∷ 7 ∷ 8 ∷ (10 ∷ fence)))
        ∷ (fence ++ (10 ∷ fence))
        ∷ [])
unfolding program
three_chunks = refl

short_fences : All (λ (line : Text). is_fence blank line ≡ true → length line ≤ 3) (lines_of code)
unfolding program
short_fences = (λ h. omega arith, (λ h. absurd (ground (arith, h)), (λ h. omega arith, tt)))

chunk_discord_content-IsShort_example :
    (chunks : List Text) × (chunk_discord_content blank code 13 ≡ some chunks) × IsShort 13 chunks
chunk_discord_content-IsShort_example =
    chunk_discord_content-IsShort blank code 13 3 (omega arith) short_fences

-- A fence with a long hint leaves no room: with a limit of thirteen characters a chunk has sixteen.
abbrev hinted : Text
hinted = fence ++ (1 ∷ 1 ∷ 1 ∷ 1 ∷ 1 ∷ 1 ∷ 1 ∷ (10 ∷ 2 ∷ 3 ∷ 4 ∷ []))

too_long :
    map length (elim (chunk_discord_content blank hinted 13) [ some chunks ↦ chunks | none ↦ [] ])
    ≡ 16 ∷ 16 ∷ 16 ∷ []
unfolding program
too_long = refl
