-- ===== src/Tail/Lines.antt =====
-- Bytes and lines: `bytes.split(b"\n")`, slices, and the search for the last newline.
use c_lord.Prelude.{
  ℕ, zero, suc, ◌-◌, false, List, [], ◌∷◌, ◌++◌, length, take, length-append, if◌then◌else◌,
  nat_key, ◌==◌, ◌≡◌, refl, ap, ◌∙◌, arith, Bool-cases, inl, inr,
}

abbrev pub Bytes : Type 0
Bytes = List ℕ

abbrev pub newline : ℕ
newline = 10

abbrev pub drop {ℓ} : {A : Type ℓ} → ℕ → List A → List A
drop zero xs = xs
drop (suc n) [] = []
drop (suc n) (x ∷ xs) = drop n xs

-- One byte more in front of the first piece.
abbrev pub push : ℕ → List Bytes × Bytes → List Bytes × Bytes
push c ([], rest) = ([], c ∷ rest)
push c (line ∷ lines, rest) = ((c ∷ line) ∷ lines, rest)

-- `pieces = data.split(b"\n")`: `pieces[:-1]`, the lines that are whole, and `pieces[-1]`.
unfoldable pub split_lines : Bytes → List Bytes × Bytes
split_lines [] = ([], [])
split_lines (c ∷ bytes) =
    let pieces = split_lines bytes in
    if c == newline then ([] ∷ pieces.0, pieces.1) else push c pieces

module _ {ℓ} {A : Type ℓ} where
  pub append_assoc : (a b c : List A) → (a ++ b) ++ c ≡ a ++ (b ++ c)
  append_assoc [] b c = refl
  append_assoc (x ∷ a) b c = ap (x ∷◌) (append_assoc a b c)

  pub append_nil : (a : List A) → a ++ [] ≡ a
  append_nil [] = refl
  append_nil (x ∷ a) = ap (x ∷◌) (append_nil a)

  pub take-append : (a b : List A) → take (length a) (a ++ b) ≡ a
  take-append [] b = refl
  take-append (x ∷ a) b = ap (x ∷◌) (take-append a b)

  pub drop-append : (a b : List A) → drop (length a) (a ++ b) ≡ b
  drop-append [] b = refl
  drop-append (x ∷ a) b = drop-append a b

  pub take-append-drop : (n : ℕ) (a : List A) → take n a ++ drop n a ≡ a
  take-append-drop zero a = refl
  take-append-drop (suc n) [] = refl
  take-append-drop (suc n) (x ∷ a) = ap (x ∷◌) (take-append-drop n a)

  pub length-drop : (n : ℕ) (a : List A) → length (drop n a) ≡ length a - n
  length-drop zero a = omega arith
  length-drop (suc n) [] = omega arith
  length-drop (suc n) (x ∷ a) = omega (arith, length-drop n a)

-- What is read after `pieces`: the part that was cut off is read on.
abbrev pub read_on : List Bytes × Bytes → Bytes → List Bytes × Bytes
read_on pieces more = let next = split_lines (pieces.1 ++ more) in (pieces.0 ++ next.0, next.1)

push-read_on :
    (c : ℕ) (lines : List Bytes) (rest more : Bytes)
    → (c == newline) ≡ false
    → push c (read_on (lines, rest) more) ≡ read_on (push c (lines, rest)) more
unfolding split_lines
push-read_on c [] rest more h = rw h refl
push-read_on c (line ∷ lines) rest more h = refl

-- Reading in two goes, with the cut-off part kept, gives the lines of the whole.
pub split_lines-append : (a b : Bytes) → split_lines (a ++ b) ≡ read_on (split_lines a) b
unfolding split_lines
split_lines-append [] b = refl
split_lines-append (c ∷ a) b = elim (Bool-cases (c == newline)) [
  | inl ends ↦ rw (ends, split_lines-append a b) refl
  | inr goes_on ↦
      rw (goes_on, split_lines-append a b)
        (push-read_on c (split_lines a).0 (split_lines a).1 b goes_on)
]

-- The whole lines again, each with its newline.
abbrev pub unlines : List Bytes → Bytes
unlines [] = []
unlines (line ∷ lines) = line ++ (newline ∷ unlines lines)

unlines-push :
    (c : ℕ) (lines : List Bytes) (rest : Bytes)
    → unlines (push c (lines, rest)).0 ++ (push c (lines, rest)).1 ≡ c ∷ (unlines lines ++ rest)
unlines-push c [] rest = refl
unlines-push c (line ∷ lines) rest = refl

pub unlines-split_lines :
    (bytes : Bytes) → unlines (split_lines bytes).0 ++ (split_lines bytes).1 ≡ bytes
unfolding split_lines
unlines-split_lines [] = refl
unlines-split_lines (c ∷ bytes) = elim (Bool-cases (c == newline)) [
  | inl ends ↦ let e : c ≡ newline = ground arith in rw (ends, unlines-split_lines bytes, e) refl
  | inr goes_on ↦ rw goes_on (
      unlines-push c (split_lines bytes).0 (split_lines bytes).1
      ∙ ap (c ∷◌) (unlines-split_lines bytes))
]

split_lines-push :
    (c : ℕ) (lines : List Bytes) (rest : Bytes)
    → (c == newline) ≡ false
    → split_lines (unlines lines) ≡ (lines, [])
    → split_lines (unlines (push c (lines, rest)).0) ≡ ((push c (lines, rest)).0, [])
unfolding split_lines
split_lines-push c [] rest h e = refl
split_lines-push c (line ∷ lines) rest h e = rw (h, e) refl

pub split_lines-unlines :
    (bytes : Bytes) → split_lines (unlines (split_lines bytes).0) ≡ ((split_lines bytes).0, [])
unfolding split_lines
split_lines-unlines [] = refl
split_lines-unlines (c ∷ bytes) = elim (Bool-cases (c == newline)) [
  | inl ends ↦ rw (ends, split_lines-unlines bytes) refl
  | inr goes_on ↦ rw goes_on (
      split_lines-push c (split_lines bytes).0 (split_lines bytes).1 goes_on
        (split_lines-unlines bytes))
]

-- The bytes before the part that is cut off.
abbrev pub whole : Bytes → ℕ
whole bytes = length bytes - length (split_lines bytes).1

pub whole_lem : (bytes : Bytes) → whole bytes ≡ length (unlines (split_lines bytes).0)
whole_lem bytes = omega (
  arith,
  ap length (unlines-split_lines bytes),
  length-append (unlines (split_lines bytes).0) (split_lines bytes).1,
)
