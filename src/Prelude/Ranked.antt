-- ===== src/Prelude/Ranked.antt =====
-- `list.sort(key=...)`: a stable sort of entries by a number, and what a prefix of it leaves out.
use Prim.Native.Nat.{ℕ, zero, suc, ◌≤◌}
use mathlib.Core.Path.{◌≡◌, refl, ap}
use mathlib.Core.Logic.{◌⊎◌, inl, inr}
use mathlib.Core.Bool.{Bool, true}
use mathlib.Core.List.{List, [], ◌∷◌, map}
use native.Mathlib.Omega.{arith}
use c_lord.Prelude.Tests.{leb, if◌then◌else◌, Bool-cases}
use c_lord.Prelude.Lists.{keep, length, take, All}

-- `x` stands in the list.
abbrev pub In : {A : Type 0} → A → List A → Type 0
In x [] = ⊥
In x (y ∷ ys) = (x ≡ y) ⊎ In x ys

module _ {A : Type 0} where
  unfoldable pub place : ℕ × A → List (ℕ × A) → List (ℕ × A)
  place x [] = x ∷ []
  place x (y ∷ ys) = if leb x.0 y.0 then x ∷ y ∷ ys else y ∷ place x ys

  unfoldable pub sort : List (ℕ × A) → List (ℕ × A)
  unfolding place
  sort [] = []
  sort (x ∷ xs) = place x (sort xs)

  -- No entry ranks before an earlier one.
  abbrev pub IsRanked : List (ℕ × A) → Type 0
  IsRanked [] = Unit
  IsRanked (x ∷ xs) = All (λ y. x.0 ≤ y.0) xs × IsRanked xs

  In-rest :
      (x y z : ℕ × A) (zs : List (ℕ × A))
      → In x (z ∷ place y zs)
      → (In x (place y zs) → (x ≡ y) ⊎ In x zs)
      → (x ≡ y) ⊎ In x (z ∷ zs)
  In-rest x y z zs (inl e) rest = inr (inl e)
  In-rest x y z zs (inr i) rest = elim (rest i) [ inl e ↦ inl e | inr j ↦ inr (inr j) ]

  pub In-place : (x y : ℕ × A) (l : List (ℕ × A)) → In x (place y l) → (x ≡ y) ⊎ In x l
  unfolding place
  In-place x y [] h = h
  In-place x y (z ∷ zs) h = elim (Bool-cases (leb y.0 z.0)) [
    | inl e ↦ rw e at h
    | inr e ↦ In-rest x y z zs (rw e at h) (In-place x y zs)
  ]

  pub In-place_self : (y : ℕ × A) (l : List (ℕ × A)) → In y (place y l)
  unfolding place
  In-place_self y [] = inl refl
  In-place_self y (z ∷ zs) = elim (Bool-cases (leb y.0 z.0)) [
    | inl e ↦ rw e (inl refl)
    | inr e ↦ rw e (inr (In-place_self y zs))
  ]

  still-In :
      (x y z : ℕ × A) (zs : List (ℕ × A))
      → In x (z ∷ zs)
      → (In x zs → In x (place y zs))
      → In x (z ∷ place y zs)
  still-In x y z zs (inl e) rest = inl e
  still-In x y z zs (inr i) rest = inr (rest i)

  pub In-place_other : (x y : ℕ × A) (l : List (ℕ × A)) → In x l → In x (place y l)
  unfolding place
  In-place_other x y [] h = absurd h
  In-place_other x y (z ∷ zs) h = elim (Bool-cases (leb y.0 z.0)) [
    | inl e ↦ rw e (inr h)
    | inr e ↦ rw e (still-In x y z zs h (In-place_other x y zs))
  ]

  pub In-sort : (x : ℕ × A) (l : List (ℕ × A)) → In x (sort l) → In x l
  unfolding sort
  In-sort x [] h = h
  In-sort x (y ∷ ys) h = elim (In-place x y (sort ys) h) [
    | inl e ↦ inl e
    | inr i ↦ inr (In-sort x ys i)
  ]

  pub In-sort_all : (x : ℕ × A) (l : List (ℕ × A)) → In x l → In x (sort l)
  unfolding sort
  In-sort_all x [] h = h
  In-sort_all x (y ∷ ys) (inl e) = rw e (In-place_self y (sort ys))
  In-sort_all x (y ∷ ys) (inr i) = In-place_other x y (sort ys) (In-sort_all x ys i)

  pub All-In {κ} : (P : A → Type κ) (x : A) (l : List A) → All P l → In x l → P x
  All-In P x (y ∷ ys) a (inl e) = rw e a.0
  All-In P x (y ∷ ys) a (inr i) = All-In P x ys a.1 i
  All-In P x [] a i = absurd i

  All-In_pair : (P : ℕ × A → Type 0) (x : ℕ × A) (l : List (ℕ × A)) → All P l → In x l → P x
  All-In_pair P x (y ∷ ys) a (inl e) = rw e a.0
  All-In_pair P x (y ∷ ys) a (inr i) = All-In_pair P x ys a.1 i
  All-In_pair P x [] a i = absurd i

  All-place :
      (n : ℕ) (y : ℕ × A) (l : List (ℕ × A))
      → n ≤ y.0
      → All (λ z. n ≤ z.0) l
      → All (λ z. n ≤ z.0) (place y l)
  unfolding place
  All-place n y [] h a = (h, tt)
  All-place n y (z ∷ zs) h a = elim (Bool-cases (leb y.0 z.0)) [
    | inl e ↦ rw e (h, a)
    | inr e ↦ rw e (a.0, All-place n y zs h a.1)
  ]

  All-weaken : (n m : ℕ) (l : List (ℕ × A)) → n ≤ m → All (λ z. m ≤ z.0) l → All (λ z. n ≤ z.0) l
  All-weaken n m [] h a = tt
  All-weaken n m (z ∷ zs) h a = (omega (arith, a.0), All-weaken n m zs h a.1)

  place-IsRanked : (y : ℕ × A) (l : List (ℕ × A)) → IsRanked l → IsRanked (place y l)
  unfolding place
  place-IsRanked y [] r = (tt, tt)
  place-IsRanked y (z ∷ zs) r = elim (Bool-cases (leb y.0 z.0)) [
    | inl e ↦ let h : y.0 ≤ z.0 = ground arith in rw e ((h, All-weaken y.0 z.0 zs h r.0), r)
    | inr e ↦
        let h : z.0 ≤ y.0 = ground arith in rw e (All-place z.0 y zs h r.0, place-IsRanked y zs r.1)
  ]

  pub sort-IsRanked : (l : List (ℕ × A)) → IsRanked (sort l)
  unfolding sort
  sort-IsRanked [] = tt
  sort-IsRanked (x ∷ xs) = place-IsRanked x (sort xs) (sort-IsRanked xs)

  length-place : (y : ℕ × A) (l : List (ℕ × A)) → length (place y l) ≡ suc (length l)
  unfolding place
  length-place y [] = refl
  length-place y (z ∷ zs) = ground (arith, length-place y zs)

  pub length-sort : (l : List (ℕ × A)) → length (sort l) ≡ length l
  unfolding sort
  length-sort [] = refl
  length-sort (x ∷ xs) = omega (arith, length-place x (sort xs), length-sort xs)

  pub In-take : (n : ℕ) (x : A) (l : List A) → In x (take n l) → In x l
  In-take zero x l h = absurd h
  In-take (suc n) x [] h = h
  In-take (suc n) x (y ∷ ys) (inl e) = inl e
  In-take (suc n) x (y ∷ ys) (inr i) = inr (In-take n x ys i)

  -- What a prefix of a ranking leaves out ranks no earlier than what it takes.
  pub take-IsRanked :
      (n : ℕ) (x y : ℕ × A) (l : List (ℕ × A))
      → IsRanked l
      → In x (take n l)
      → In y l
      → ¬ In y (take n l)
      → x.0 ≤ y.0
  take-IsRanked zero x y l r i j k = absurd i
  take-IsRanked (suc n) x y [] r i j k = absurd i
  take-IsRanked (suc n) x y (z ∷ zs) r i (inl e) k = absurd (k (inl e))
  take-IsRanked (suc n) x y (z ∷ zs) r (inl e) (inr j) k =
      rw e (All-In_pair (λ w. z.0 ≤ w.0) y zs r.0 j)
  take-IsRanked (suc n) x y (z ∷ zs) r (inr i) (inr j) k =
      take-IsRanked n x y zs r.1 i j (λ h. k (inr h))

  pub In-map :
      {B : Type 0} (f : A → B) (y : B) (l : List A) → In y (map f l) → (x : A) × In x l × (y ≡ f x)
  In-map f y [] h = absurd h
  In-map f y (x ∷ xs) (inl e) = (x, inl refl, e)
  In-map f y (x ∷ xs) (inr i) = let (z, j, e) = In-map f y xs i in (z, inr j, e)

  pub In-map_image : {B : Type 0} (f : A → B) (x : A) (l : List A) → In x l → In (f x) (map f l)
  In-map_image f x [] h = absurd h
  In-map_image f x (y ∷ ys) (inl e) = inl (ap f e)
  In-map_image f x (y ∷ ys) (inr i) = inr (In-map_image f x ys i)

  pub In-keep : (p : A → Bool) (x : A) (l : List A) → In x (keep p l) → In x l × (p x ≡ true)
  In-keep p x [] i = absurd i
  In-keep p x (y ∷ l) i = elim (Bool-cases (p y)) [
    | inl holds ↦ elim (rw holds at i) [
      | inl e ↦ (inl e, rw e holds)
      | inr j ↦ let (k, h) = In-keep p x l j in (inr k, h)
    ]
    | inr fails ↦ let (k, h) = In-keep p x l (rw fails at i) in (inr k, h)
  ]

  pub In-keep_all : (p : A → Bool) (x : A) (l : List A) → In x l → p x ≡ true → In x (keep p l)
  In-keep_all p x [] i h = absurd i
  In-keep_all p x (y ∷ l) (inl e) h = let fit : p y ≡ true = rw⁻¹ e h in rw fit (inl e)
  In-keep_all p x (y ∷ l) (inr i) h = elim (Bool-cases (p y)) [
    | inl fit ↦ rw fit (inr (In-keep_all p x l i h))
    | inr out ↦ rw out (In-keep_all p x l i h)
  ]

  pub All-by_In {κ} : (P : A → Type κ) (l : List A) → ((x : A) → In x l → P x) → All P l
  All-by_In P [] f = tt
  All-by_In P (x ∷ l) f = (f x (inl refl), All-by_In P l (λ y i. f y (inr i)))
