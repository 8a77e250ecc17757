-- ===== src/Tail/Seed.antt =====
-- Reading the history by slices (c_lord/transcript/tail.py, `_seed_seen_uuids`).
use Prim.Native.Nat.{min}
use c_lord.Prelude.{
  ℕ, zero, suc, ◌-◌, ◌≤◌, ◌||◌, String, true, false, List, [], ◌∷◌, ◌++◌, length, take, length-take,
  nat_key, ◌==◌, leb, ◌≡◌, refl, ap, sym, ◌∙◌, inl, inr, arith, Bool-cases,
}
use c_lord.Tail.Lines.{
  Bytes, newline, drop, push, split_lines, split_lines-append, append_assoc, append_nil,
}
use c_lord.Tail.Records.{
  Parsed, holds, record_uuid, record_all, seed_loop, seed_seen_uuids, seed_chunk_bytes,
}
use c_lord.Tail.Ends.{take-slice}

split_lines-push_rest :
    (c : ℕ) (lines : List Bytes) (rest : Bytes)
    → (c == newline) ≡ false
    → split_lines rest ≡ ([], rest)
    → let p = push c (lines, rest) in split_lines p.1 ≡ ([], p.1)
unfolding split_lines
split_lines-push_rest c [] rest h e = rw (h, e) refl
split_lines-push_rest c (line ∷ lines) rest h e = e

-- The half line has no newline.
split_lines_half : (bytes : Bytes) → split_lines (split_lines bytes).1 ≡ ([], (split_lines bytes).1)
unfolding split_lines
split_lines_half [] = refl
split_lines_half (c ∷ bytes) = elim (Bool-cases (c == newline)) [
  | inl ends ↦ rw ends (split_lines_half bytes)
  | inr goes_on ↦ rw goes_on (
      split_lines-push_rest c (split_lines bytes).0 (split_lines bytes).1 goes_on
        (split_lines_half bytes))
]

take-length : (n : ℕ) (b : Bytes) → take (length (take n b)) b ≡ take n b
take-length zero b = refl
take-length (suc n) [] = refl
take-length (suc n) (c ∷ b) = ap (c ∷◌) (take-length n b)

module _ (load : Bytes → Parsed) where
  -- The uuids in the lines and in what follows the last newline.
  abbrev pub record_pieces : List Bytes × Bytes → List String → List String
  record_pieces pieces seen = record_uuid load pieces.1 (record_all load pieces.0 seen)

  record_all-append :
      (a b : List Bytes) (seen : List String)
      → record_all load (a ++ b) seen ≡ record_all load b (record_all load a seen)
  unfolding record_all
  record_all-append [] b seen = refl
  record_all-append (line ∷ a) b seen = record_all-append a b (record_uuid load line seen)

  record_pieces-read_on :
      (a b : Bytes) (seen : List String)
      → let pieces = split_lines a in
        record_pieces (split_lines (a ++ b)) seen
        ≡ record_pieces (split_lines (pieces.1 ++ b)) (record_all load pieces.0 seen)
  record_pieces-read_on a b seen =
      let pieces = split_lines a in
      let next = split_lines (pieces.1 ++ b) in
      rw (split_lines-append a b)
        (ap (record_uuid load next.1) (record_all-append pieces.0 next.0 seen))

  take_nothing :
      (remaining : ℕ) (bytes : Bytes)
      → (leb remaining 0 || leb (length (take (min seed_chunk_bytes remaining) bytes)) 0) ≡ true
      → take remaining bytes ≡ []
  take_nothing zero bytes h = refl
  take_nothing (suc n) [] h = refl
  take_nothing (suc n) (c ∷ bytes) h =
      absurd (ground (arith, h, length-take (min seed_chunk_bytes (suc n)) (c ∷ bytes)))

  seed_loop_lem :
      (fuel remaining : ℕ) (bytes buffer : Bytes) (seen : List String)
      → remaining ≤ fuel
      → split_lines buffer ≡ ([], buffer)
      → seed_loop load fuel remaining bytes buffer seen
        ≡ record_pieces (split_lines (buffer ++ take remaining bytes)) seen
  unfolding seed_loop record_all
  seed_loop_lem zero zero bytes buffer seen h half = rw (append_nil buffer, half) refl
  seed_loop_lem zero (suc n) bytes buffer seen h half = absurd (omega arith)
  seed_loop_lem (suc fuel) remaining bytes buffer seen h half =
      let chunk = take (min seed_chunk_bytes remaining) bytes in
      let pieces = split_lines (buffer ++ chunk) in
      let k = length chunk in
      elim (Bool-cases (leb remaining 0 || leb k 0)) [
        | inl over ↦
            rw (seed_loop, over, take_nothing remaining bytes over, append_nil buffer, half) refl
        | inr more ↦
            let size = length-take (min seed_chunk_bytes remaining) bytes in
            let cut : take remaining bytes ≡ chunk ++ take (remaining - k) (drop k bytes) =
              take-slice k (remaining - k) remaining bytes (omega (arith, size))
              ∙ ap (◌++ (take (remaining - k) (drop k bytes)))
                  (take-length (min seed_chunk_bytes remaining) bytes) in
            rw (seed_loop, more)
              (seed_loop_lem fuel (remaining - k) (drop k bytes) pieces.1
                  (record_all load pieces.0 seen) (ground (arith, h, size, more))
                  (split_lines_half (buffer ++ chunk))
                ∙ sym (
                    record_pieces-read_on (buffer ++ chunk) (take (remaining - k) (drop k bytes))
                      seen)
                ∙ ap (λ b. record_pieces (split_lines b) seen)
                    (append_assoc buffer chunk (take (remaining - k) (drop k bytes))
                      ∙ ap (buffer ++◌) (sym cut)))
      ]

  -- The uuids that are seeded are those of the lines in the first `upto` bytes, the last one whole or
  -- not, however the reading cut them into slices.
  pub seed_seen_uuids_lem :
      (bytes : Bytes) (upto : ℕ) (seen : List String)
      → seed_seen_uuids load (holds bytes) upto seen
        ≡ record_pieces (split_lines (take upto bytes)) seen
  unfolding seed_seen_uuids split_lines
  seed_seen_uuids_lem bytes upto seen = seed_loop_lem upto upto bytes [] seen (omega arith) refl
