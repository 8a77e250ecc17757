-- ===== src/ReplyChunker/Pieces.antt =====
-- The pieces of a long line (c_lord/discord_ui/reply_chunker.py, `_hard_split`).
use c_lord.Prelude.{
  ℕ, zero, suc, ◌≤◌, false, List, [], ◌∷◌, ◌++◌, length, take, leb, ◌≡◌, refl, ap, ◌∙◌, arith,
}
use c_lord.Tail.Lines.{drop, take-append-drop, length-drop}
use c_lord.ReplyChunker.{Text, split_pieces, hard_split}
use c_lord.ReplyChunker.Bounds.{IsShort, split_pieces-IsShort}

abbrev pub concat_all : List Text → Text
concat_all [] = []
concat_all (piece ∷ pieces) = piece ++ concat_all pieces

concat_all-split_pieces :
    (size fuel : ℕ) (text : Text)
    → 1 ≤ size
    → length text ≤ fuel
    → concat_all (split_pieces size fuel text) ≡ text
unfolding split_pieces
concat_all-split_pieces size zero [] h k = refl
concat_all-split_pieces size zero (c ∷ text) h k = absurd (omega arith)
concat_all-split_pieces size (suc fuel) [] h k = refl
concat_all-split_pieces size (suc fuel) (c ∷ text) h k =
    let rest =
      concat_all-split_pieces size fuel (drop size (c ∷ text)) h
        (omega (arith, h, k, length-drop size (c ∷ text))) in
    let full : leb (length (c ∷ text)) 0 ≡ false = ground arith in
    rw full (ap (take size (c ∷ text) ++◌) rest ∙ take-append-drop size (c ∷ text))

-- The pieces are no longer than asked for, and put together they are the text: none of it is lost or
-- comes twice, and the fuel suffices.
pub concat_all-hard_split :
    (text : Text) (size : ℕ)
    → 1 ≤ size
    → (concat_all (hard_split text size) ≡ text) × IsShort size (hard_split text size)
unfolding hard_split
concat_all-hard_split text size h = (
  concat_all-split_pieces size (length text) text h (omega arith),
  split_pieces-IsShort size (length text) text,
)
