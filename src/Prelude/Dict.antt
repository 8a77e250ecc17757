-- ===== src/Prelude/Dict.antt =====
-- Python's `dict`: a key that is set again keeps its place, a new key goes to the end.
use Prim.Native.Nat.{◌+◌}
use mathlib.Core.Path.{◌≡◌, refl}
use mathlib.Core.Bool.{Bool, true, false, not}
use mathlib.Core.Option.{Option, none, some}
use mathlib.Core.List.{List, [], ◌∷◌, ◌++◌}
use native.Mathlib.Omega.{arith}
use c_lord.Prelude.Tests.{Key, ◌==◌, if◌then◌else◌, is_some}
use c_lord.Prelude.Lists.{length, keep}

abbrev pub Dict {ℓ κ} : Type ℓ → Type κ → Type (ℓ ⊔ κ)
Dict K V = List (K × V)

module _ {ℓ κ} {K : Type ℓ} {V : Type κ} ⦃e : Key K⦄ where
  -- `d.get(k)`
  unfoldable pub get : K → Dict K V → Option V
  get k [] = none
  get k ((j, v) ∷ d) = if j == k then some v else get k d

  -- `k in d`
  abbrev pub has : K → Dict K V → Bool
  has k d = is_some (get k d)

  -- `d[k] = v`
  unfoldable pub insert : K → V → Dict K V → Dict K V
  insert k v [] = (k, v) ∷ []
  insert k v ((j, w) ∷ d) = if j == k then (j, v) ∷ d else (j, w) ∷ insert k v d

  -- `d.pop(k, None)`
  unfoldable pub remove : K → Dict K V → Dict K V
  remove k d = keep (λ p. not (p.0 == k)) d

  -- No key stands twice.
  abbrev pub IsUnique : Dict K V → Type 0
  IsUnique [] = Unit
  IsUnique ((j, v) ∷ d) = (has j d ≡ false) × IsUnique d

  pub get-insert :
      (k j : K) (v : V) (d : Dict K V) → get j (insert k v d) ≡ (if k == j then some v else get j d)
  unfolding get insert
  get-insert k j v [] = refl
  get-insert k j v ((i, w) ∷ d) =
      ground (arith, e.same_iff k j, e.same_iff i k, e.same_iff i j, get-insert k j v d)

  pub get-insert_self : (k : K) (v : V) (d : Dict K V) → get k (insert k v d) ≡ some v
  get-insert_self k v d = ground (arith, get-insert k k v d, e.same_iff k k)

  pub get-insert_ne :
      (k j : K) (v : V) (d : Dict K V) → (k == j) ≡ false → get j (insert k v d) ≡ get j d
  get-insert_ne k j v d h = ground (arith, get-insert k j v d)

  pub get-remove :
      (k j : K) (d : Dict K V) → get j (remove k d) ≡ (if k == j then none else get j d)
  unfolding get remove
  get-remove k j [] = ground arith
  get-remove k j ((i, w) ∷ d) =
      ground (arith, e.same_iff k j, e.same_iff i k, e.same_iff i j, get-remove k j d)

  pub get-remove_self : (k : K) (d : Dict K V) → get k (remove k d) ≡ none
  get-remove_self k d = ground (arith, get-remove k k d, e.same_iff k k)

  pub get-remove_ne : (k j : K) (d : Dict K V) → (k == j) ≡ false → get j (remove k d) ≡ get j d
  get-remove_ne k j d h = ground (arith, get-remove k j d)

  -- A new key is appended; an old one keeps the length.
  pub insert_new :
      (k : K) (v : V) (d : Dict K V) → get k d ≡ none → insert k v d ≡ d ++ ((k, v) ∷ [])
  unfolding get insert
  insert_new k v [] h = refl
  insert_new k v ((j, w) ∷ d) h = ground (arith, insert_new k v d)

  pub length-insert :
      (k : K) (v : V) (d : Dict K V)
      → length (insert k v d) ≡ (if has k d then length d else length d + 1)
  unfolding get insert
  length-insert k v [] = omega arith
  length-insert k v ((j, w) ∷ d) = ground (arith, length-insert k v d)

  pub insert-IsUnique : (k : K) (v : V) (d : Dict K V) → IsUnique d → IsUnique (insert k v d)
  unfolding get insert
  insert-IsUnique k v [] u = ground arith
  insert-IsUnique k v ((j, w) ∷ d) u =
      ground (arith, insert-IsUnique k v d, get-insert k j v d, e.same_iff j k, e.same_iff k j)

  pub has-keep :
      (p : K × V → Bool) (j : K) (d : Dict K V) → has j d ≡ false → has j (keep p d) ≡ false
  unfolding get
  has-keep p j [] h = refl
  has-keep p j ((i, w) ∷ d) h = ground (arith, has-keep p j d)

  pub keep-IsUnique : (p : K × V → Bool) (d : Dict K V) → IsUnique d → IsUnique (keep p d)
  keep-IsUnique p [] u = tt
  keep-IsUnique p ((j, w) ∷ d) u = ground (arith, keep-IsUnique p d, has-keep p j d)

  pub remove-IsUnique : (k : K) (d : Dict K V) → IsUnique d → IsUnique (remove k d)
  unfolding remove
  remove-IsUnique k d u = keep-IsUnique (λ p. not (p.0 == k)) d u

  -- The newest entry stays where the filter accepts it.
  pub keep-append_last :
      (p : K × V → Bool) (x : K × V) (d : Dict K V)
      → p x ≡ true
      → keep p (d ++ (x ∷ [])) ≡ keep p d ++ (x ∷ [])
  keep-append_last p x [] h = rw h
  keep-append_last p x (y ∷ d) h = ground (arith, keep-append_last p x d h)

  pub get-keep_sound :
      (p : K × V → Bool) (k : K) (v : V) (d : Dict K V)
      → IsUnique d
      → get k (keep p d) ≡ some v
      → get k d ≡ some v
  unfolding get
  get-keep_sound p k v [] u h = h
  get-keep_sound p k v ((j, w) ∷ d) u h =
      ground (arith, get-keep_sound p k v d, has-keep p j d, e.same_iff j k)
