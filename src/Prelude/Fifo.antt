-- ===== src/Prelude/Fifo.antt =====
-- A `dict` bounded by dropping its oldest insertion: `while len(d) > n: d.pop(next(iter(d)))`.
use Prim.Native.Nat.{ℕ, suc, ◌≤◌}
use mathlib.Core.Path.{◌≡◌, refl}
use mathlib.Core.Option.{none, some}
use mathlib.Core.List.{List, [], ◌∷◌, ◌++◌}
use native.Mathlib.Omega.{arith}
use c_lord.Prelude.Tests.{Key, ltb, if◌then◌else◌}
use c_lord.Prelude.Lists.{length}
use c_lord.Prelude.Dict.{Dict, get, IsUnique}

module _ {ℓ} {A : Type ℓ} where
  unfoldable pub evict : ℕ → List A → List A
  evict n [] = []
  evict n (x ∷ d) = if ltb n (length (x ∷ d)) then evict n d else x ∷ d

  pub length-evict-le : (n : ℕ) (d : List A) → length (evict n d) ≤ n
  unfolding evict
  length-evict-le n [] = omega arith
  length-evict-le n (x ∷ d) = ground (arith, length-evict-le n d)

  -- Within the bound nothing is dropped.
  pub evict_of_length-le : (n : ℕ) (d : List A) → length d ≤ n → evict n d ≡ d
  unfolding evict
  evict_of_length-le n [] h = refl
  evict_of_length-le n (x ∷ d) h = ground arith

module _ {ℓ κ} {K : Type ℓ} {V : Type κ} ⦃e : Key K⦄ where
  get-append_last :
      (k : K) (v : V) (d : Dict K V) → get k d ≡ none → get k (d ++ ((k, v) ∷ [])) ≡ some v
  unfolding get
  get-append_last k v [] h = ground (arith, e.same_iff k k)
  get-append_last k v ((j, w) ∷ d) h = ground (arith, get-append_last k v d)

  -- What was just added at the end survives any bound but 0.
  pub get-evict_last :
      (n : ℕ) (k : K) (v : V) (d : Dict K V)
      → get k d ≡ none
      → get k (evict (suc n) (d ++ ((k, v) ∷ []))) ≡ some v
  unfolding evict get
  get-evict_last n k v [] h = ground (arith, e.same_iff k k)
  get-evict_last n k v ((j, w) ∷ d) h =
      ground (arith, get-evict_last n k v d, get-append_last k v d, e.same_iff j k)

  -- An entry that survives is the entry that was there.
  pub get-evict_sound :
      (n : ℕ) (k : K) (v : V) (d : Dict K V)
      → IsUnique d
      → get k (evict n d) ≡ some v
      → get k d ≡ some v
  unfolding evict get
  get-evict_sound n k v [] u h = h
  get-evict_sound n k v ((j, w) ∷ d) u h = ground (arith, get-evict_sound n k v d, e.same_iff j k)

  pub evict-IsUnique : (n : ℕ) (d : Dict K V) → IsUnique d → IsUnique (evict n d)
  unfolding evict
  evict-IsUnique n [] u = tt
  evict-IsUnique n ((j, w) ∷ d) u = ground (arith, evict-IsUnique n d)

module _ {ℓ} {A : Type ℓ} where
  -- A list at the bound or past it is cut to the bound exactly.
  pub length-evict_full : (n : ℕ) (d : List A) → n ≤ length d → length (evict n d) ≡ n
  unfolding evict
  length-evict_full n [] h = omega arith
  length-evict_full n (x ∷ d) h = ground (arith, length-evict_full n d)

  -- One entry too many costs the oldest.
  pub evict_one : (x : A) (d : List A) → evict (length d) (x ∷ d) ≡ d
  unfolding evict
  evict_one x d = ground (arith, evict_of_length-le (length d) d)
