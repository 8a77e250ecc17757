-- ===== src/Tail/Delivery/Place.antt =====
-- Where a tail stands in a growing file (c_lord/transcript/tail.py).
use c_lord.Prelude.{
  ℕ, zero, suc, ◌+◌, ◌-◌, ◌≤◌, true, List, [], ◌∷◌, ◌++◌, length, take, length-append, nat_key, ◌≡◌,
  refl, ap, subst, sym, ◌∙◌, arith,
}
use c_lord.Tail.Lines.{
  Bytes, drop, split_lines, read_on, split_lines-append, unlines, unlines-split_lines,
  split_lines-unlines, append_assoc, drop-append, take-append-drop,
}
use c_lord.Tail.Records.{holds}
use c_lord.Tail.{signature_bytes, signature_at, same_bytes}

-- The file holds `content`; `offset` stands behind `head` and `done`, whose lines are `lines` and
-- whose last, half line is `buffer`.
pub record IsPlace (head content : Bytes) (lines : List Bytes) (offset : ℕ) (buffer : Bytes)
    : Type 0 where
  pub done : Bytes
  pub rest : Bytes
  pub shape : content ≡ head ++ (done ++ rest)
  pub stands : offset ≡ length head + length done
  pub cut : split_lines done ≡ (lines, buffer)

module _ (head : Bytes) where
  pub IsPlace-grow :
      (c more : Bytes) (lines : List Bytes) (offset : ℕ) (buffer : Bytes)
      → IsPlace head c lines offset buffer
      → IsPlace head (c ++ more) lines offset buffer
  IsPlace-grow c more lines offset buffer i = record {
    done = i.done;
    rest = i.rest ++ more;
    shape =
        ap (◌++ more) i.shape
        ∙ append_assoc head (i.done ++ i.rest) more
        ∙ ap (head ++◌) (append_assoc i.done i.rest more);
    stands = i.stands;
    cut = i.cut;
  }

  -- Back to the start of the half line.
  pub IsPlace-bank :
      (c : Bytes) (lines : List Bytes) (offset : ℕ) (buffer : Bytes)
      → IsPlace head c lines offset buffer
      → IsPlace head c lines (offset - length buffer) []
  IsPlace-bank c lines offset buffer i =
      let again : unlines lines ++ buffer ≡ i.done = rw i.cut at (unlines-split_lines i.done) in
      record {
        done = unlines lines;
        rest = buffer ++ i.rest;
        shape =
            i.shape
            ∙ ap (λ d. head ++ (d ++ i.rest)) (sym again)
            ∙ ap (head ++◌) (append_assoc (unlines lines) buffer i.rest);
        stands = omega (arith, i.stands, ap length again, length-append (unlines lines) buffer);
        cut = rw i.cut at (split_lines-unlines i.done);
      }

  drop-place :
      (done rest : Bytes) → drop (length head + length done) (head ++ (done ++ rest)) ≡ rest
  drop-place done rest =
      subst (λ n. drop n (head ++ (done ++ rest)) ≡ rest) (length-append head done)
        (rw (← append_assoc head done rest) (drop-append (head ++ done) rest))

  -- Reading on from there.
  pub IsPlace-read :
      (c : Bytes) (lines : List Bytes) (offset n : ℕ) (buffer : Bytes)
      → IsPlace head c lines offset buffer
      → let chunk = take n (drop offset c) in
        let pieces = split_lines (buffer ++ chunk) in
        IsPlace head c (lines ++ pieces.0) (offset + length chunk) pieces.1
  IsPlace-read c lines offset n buffer i =
      let ahead : drop offset c ≡ i.rest = rw (i.shape, i.stands) (drop-place i.done i.rest) in
      let chunk = take n (drop offset c) in
      record {
        done = i.done ++ chunk;
        rest = drop n i.rest;
        shape =
            i.shape
            ∙ ap (λ r. head ++ (i.done ++ r))
                (sym (take-append-drop n i.rest) ∙ ap (λ r. take n r ++ drop n i.rest) (sym ahead))
            ∙ ap (head ++◌) (sym (append_assoc i.done chunk (drop n i.rest)));
        stands = omega (arith, i.stands, length-append i.done chunk);
        cut = split_lines-append i.done chunk ∙ ap (λ pieces. read_on pieces chunk) i.cut;
      }

-- The offset lies within the file.
pub place-le :
    (head c : Bytes) (lines : List Bytes) (offset : ℕ) (buffer : Bytes)
    → IsPlace head c lines offset buffer
    → offset ≤ length c
place-le head c lines offset buffer i = omega (
  arith,
  i.stands,
  ap length i.shape,
  length-append head (i.done ++ i.rest),
  length-append i.done i.rest,
)

slice-append :
    (n m : ℕ) (a b : Bytes) → m + n ≤ length a → take n (drop m (a ++ b)) ≡ take n (drop m a)
slice-append zero m a b h = refl
slice-append (suc n) zero [] b h = absurd (omega arith)
slice-append (suc n) zero (x ∷ a) b h = ap (x ∷◌) (slice-append n zero a b (omega arith))
slice-append (suc n) (suc m) [] b h = absurd (omega arith)
slice-append (suc n) (suc m) (x ∷ a) b h = slice-append (suc n) m a b (omega arith)

pub signature_at-append :
    (c more : Bytes) (offset : ℕ)
    → offset ≤ length c
    → signature_at (holds (c ++ more)) offset ≡ signature_at (holds c) offset
unfolding signature_at
signature_at-append c more offset h =
    slice-append (offset - (offset - signature_bytes)) (offset - signature_bytes) c more
      (omega arith)

pub same_bytes_refl : (b : Bytes) → same_bytes b b ≡ true
same_bytes_refl [] = refl
same_bytes_refl (c ∷ b) = ground (arith, same_bytes_refl b)
