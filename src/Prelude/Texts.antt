-- ===== src/Prelude/Texts.antt =====
-- Texts as lists of characters or bytes: Python's `split`, `join` and `strip`, given its test of white
-- space.
use Prim.Native.Nat.{ℕ, zero, suc, ◌≤◌}
use mathlib.Core.Path.{◌≡◌, refl, ap}
use mathlib.Core.Logic.{◌↔◌, inl, inr}
use mathlib.Core.Bool.{Bool, true, false, ◌&&◌}
use mathlib.Core.List.{List, [], ◌∷◌, ◌++◌}
use native.Mathlib.Omega.{arith}
use c_lord.Prelude.Tests.{Key, nat_key, ◌==◌, leb, if◌then◌else◌, Bool-cases}
use c_lord.Prelude.Lists.{length, take, keep, All}

abbrev pub Text : Type 0
Text = List ℕ

-- The text cut at the characters that `cuts` tells: the parts before each, and the last one.
abbrev pub cut_at : (ℕ → Bool) → Text → Text × List Text
cut_at cuts [] = ([], [])
cut_at cuts (c ∷ text) =
    let (part, parts) = cut_at cuts text in if cuts c then ([], part ∷ parts) else (c ∷ part, parts)

abbrev pub is_part : Text → Bool
is_part [] = false
is_part (c ∷ part) = true

-- The parts that are not empty: `text.split()`, and the segments of a path.
abbrev pub parts_of : (ℕ → Bool) → Text → List Text
parts_of cuts text = let (part, parts) = cut_at cuts text in keep is_part (part ∷ parts)

abbrev pub join_with : ℕ → List Text → Text
join_with c [] = []
join_with c (part ∷ []) = part
join_with c (part ∷ next_part ∷ parts) = part ++ (c ∷ join_with c (next_part ∷ parts))

abbrev pub lstrip : (ℕ → Bool) → Text → Text
lstrip is_space [] = []
lstrip is_space (c ∷ text) =
    let rest = lstrip is_space text in if is_space c then rest else c ∷ text

abbrev pub rstrip : (ℕ → Bool) → Text → Text
rstrip is_space [] = []
rstrip is_space (c ∷ text) =
    let rest = rstrip is_space text in
    if is_part rest then c ∷ rest else (if is_space c then [] else c ∷ [])

-- `text.strip()`
abbrev pub strip : (ℕ → Bool) → Text → Text
strip is_space text = rstrip is_space (lstrip is_space text)

-- `xs[-n:]`
abbrev pub last_of {ℓ} : {A : Type ℓ} → ℕ → List A → List A
last_of n [] = []
last_of n (x ∷ xs) = let rest = last_of n xs in if leb (suc (length xs)) n then x ∷ xs else rest

module _ {ℓ} {A : Type ℓ} where
  pub length-last_of-le : (n : ℕ) (xs : List A) → length (last_of n xs) ≤ n
  length-last_of-le n [] = omega arith
  length-last_of-le n (x ∷ xs) = elim (Bool-cases (leb (suc (length xs)) n)) [
    | inl few ↦ rw few (ground (arith, few))
    | inr many ↦ rw many (length-last_of-le n xs)
  ]

  pub last_of_few : (n : ℕ) (xs : List A) → length xs ≤ n → last_of n xs ≡ xs
  last_of_few n [] h = refl
  last_of_few n (x ∷ xs) h =
      let few : leb (suc (length xs)) n ≡ true = ground (arith, h) in rw few refl

  pub All-last_of {κ} : (P : A → Type κ) (n : ℕ) (xs : List A) → All P xs → All P (last_of n xs)
  All-last_of P n [] h = tt
  All-last_of P n (x ∷ xs) h = elim (Bool-cases (leb (suc (length xs)) n)) [
    | inl few ↦ rw few h
    | inr many ↦ rw many (All-last_of P n xs h.1)
  ]

abbrev pub same_items {ℓ} : {A : Type ℓ} ⦃e : Key A⦄ → List A → List A → Bool
same_items [] [] = true
same_items [] (y ∷ ys) = false
same_items (x ∷ xs) [] = false
same_items (x ∷ xs) (y ∷ ys) = x == y && same_items xs ys

pub same_items_iff {ℓ} :
    {A : Type ℓ} ⦃e : Key A⦄ (xs ys : List A) → (same_items xs ys ≡ true) ↔ (xs ≡ ys)
same_items_iff [] [] = (λ h. refl, λ h. refl)
same_items_iff [] (y ∷ ys) = ground arith
same_items_iff (x ∷ xs) [] = ground arith
same_items_iff ⦃e⦄ (x ∷ xs) (y ∷ ys) = ground (arith, e.same_iff x y, same_items_iff xs ys)

instance abbrev pub text_key : Key Text
text_key = record { same = same_items; same_iff = same_items_iff }

module _ {ℓ} {A : Type ℓ} where
  pub take_whole : (n : ℕ) (xs : List A) → length xs ≤ n → take n xs ≡ xs
  take_whole zero [] h = refl
  take_whole zero (x ∷ xs) h = absurd (omega (arith, h))
  take_whole (suc n) [] h = refl
  take_whole (suc n) (x ∷ xs) h = ap (λ r. x ∷ r) (take_whole n xs (omega (arith, h)))

  pub All-append {κ} : (P : A → Type κ) (xs ys : List A) → All P xs → All P ys → All P (xs ++ ys)
  All-append P [] ys h k = k
  All-append P (x ∷ xs) ys h k = (h.0, All-append P xs ys h.1 k)

  pub All-keep {κ} : (P : A → Type κ) (p : A → Bool) (xs : List A) → All P xs → All P (keep p xs)
  All-keep P p [] h = tt
  All-keep P p (x ∷ xs) h = elim (Bool-cases (p x)) [
    | inl kept ↦ rw (keep, kept) (h.0, All-keep P p xs h.1)
    | inr gone ↦ rw (keep, gone) (All-keep P p xs h.1)
  ]

  pub keep-IsTrue : (p : A → Bool) (xs : List A) → All (λ x. p x ≡ true) (keep p xs)
  keep-IsTrue p [] = tt
  keep-IsTrue p (x ∷ xs) = elim (Bool-cases (p x)) [
    | inl kept ↦ rw (keep, kept) (kept, keep-IsTrue p xs)
    | inr gone ↦ rw (keep, gone) (keep-IsTrue p xs)
  ]

  pub All-map {κ τ} :
      (P : A → Type κ) (Q : A → Type τ) (f : (x : A) → P x → Q x) (xs : List A)
      → All P xs
      → All Q xs
  All-map P Q f [] h = tt
  All-map P Q f (x ∷ xs) h = (f x h.0, All-map P Q f xs h.1)

-- A word is stripped of the white space behind it.
pub rstrip-append :
    (is_space : ℕ → Bool) (space : ℕ) (word : Text)
    → is_space space ≡ true
    → All (λ c. is_space c ≡ false) word
    → rstrip is_space (word ++ (space ∷ [])) ≡ word
rstrip-append is_space space [] h k = rw h refl
rstrip-append is_space space (c ∷ []) h k = rw (h, k.0) refl
rstrip-append is_space space (c ∷ d ∷ word) h k =
    let rest = rstrip-append is_space space (d ∷ word) h k.1 in rw (rstrip, rest) refl

pub strip-append :
    (is_space : ℕ → Bool) (space : ℕ) (word : Text)
    → is_space space ≡ true
    → All (λ c. is_space c ≡ false) word
    → strip is_space (word ++ (space ∷ [])) ≡ word
strip-append is_space space [] h k = rw h refl
strip-append is_space space (c ∷ word) h k =
    rw (lstrip, k.0) (rstrip-append is_space space (c ∷ word) h k)

-- A word is cut off at the white space behind it.
pub cut_at-append :
    (is_space : ℕ → Bool) (space : ℕ) (word rest : Text)
    → is_space space ≡ true
    → All (λ c. is_space c ≡ false) word
    → cut_at is_space (word ++ (space ∷ rest))
      ≡ (word, (cut_at is_space rest).0 ∷ (cut_at is_space rest).1)
cut_at-append is_space space [] rest h k = rw h refl
cut_at-append is_space space (c ∷ word) rest h k =
    rw (cut_at, cut_at-append is_space space word rest h k.1, k.0) refl

pub parts_of-append :
    (is_space : ℕ → Bool) (space : ℕ) (word rest : Text)
    → is_space space ≡ true
    → All (λ c. is_space c ≡ false) word
    → is_part word ≡ true
    → parts_of is_space (word ++ (space ∷ rest)) ≡ word ∷ parts_of is_space rest
parts_of-append is_space space word rest h k full =
    rw (parts_of, cut_at-append is_space space word rest h k, full) refl
