-- ===== src/Claims/Latest.antt =====
-- The transcript that a loop over a project directory chooses (c_lord/transcript/claim.py,
-- `newest_transcript_id` and `clear_successor`).
use c_lord.Prelude.Texts.{Text}
use c_lord.Prelude.Ranked.{In}
use c_lord.Prelude.{ℕ, ◌≤◌, ◌⊎◌, inl, inr, Option, none, some, List, [], ◌∷◌, ◌≡◌, refl, All, arith}
use c_lord.Claims.Successor.{Transcript}
use c_lord.Claims.Choice.{take_later, choose}

take_later-some :
    (best : Option (ℕ × Text)) (at : Option ℕ) (stem : Text) (t : ℕ) (s : Text)
    → take_later best at stem ≡ some (t, s)
    → (best ≡ some (t, s)) ⊎ ((at ≡ some t) × (stem ≡ s))
take_later-some none none stem t s h = inl h
take_later-some (some b) none stem t s h = inl h
take_later-some none (some a) stem t s h = inr (ground (arith, h))
take_later-some (some (b, z)) (some a) stem t s h = ground (arith, h)

-- Nothing is chosen later than `t`.
abbrev pub IsNoLater : Option (ℕ × Text) → ℕ → Type 0
IsNoLater none t = Unit
IsNoLater (some (u, s)) t = u ≤ t

take_later-IsNoLater :
    (best : Option (ℕ × Text)) (at : Option ℕ) (stem : Text) (t : ℕ)
    → IsNoLater (take_later best at stem) t
    → IsNoLater best t × ((u : ℕ) → at ≡ some u → u ≤ t)
take_later-IsNoLater none none stem t h = (tt, λ u k. absurd (ground (arith, k)))
take_later-IsNoLater (some b) none stem t h = (h, λ u k. absurd (ground (arith, k)))
take_later-IsNoLater none (some a) stem t h = (tt, λ u k. ground (arith, h, k))
take_later-IsNoLater (some (b, z)) (some a) stem t h =
    (ground (arith, h), λ u k. ground (arith, h, k))

-- A result of the loop: no candidate has a time, or the stem is that of a candidate with the latest.
abbrev pub IsLatest : (Transcript → Option ℕ) → List Transcript → Option (ℕ × Text) → Type 0
IsLatest at paths none = All (λ p. at p ≡ none) paths
IsLatest at paths (some (t, stem)) =
    ((p : Transcript) × In p paths × (at p ≡ some t) × (p.stem ≡ stem))
    × All (λ q. (u : ℕ) → at q ≡ some u → u ≤ t) paths

take_later-none :
    (best : Option (ℕ × Text)) (at : Option ℕ) (stem : Text)
    → take_later best at stem ≡ none
    → (best ≡ none) × (at ≡ none)
take_later-none none none stem h = (refl, refl)
take_later-none (some b) none stem h = absurd (ground (arith, h))
take_later-none none (some a) stem h = absurd (ground (arith, h))
take_later-none (some (b, z)) (some a) stem h = absurd (ground (arith, h))

-- The same for the loop that has chosen `best` before it reads `paths`.
IsTraced :
    Option (ℕ × Text) → (Transcript → Option ℕ) → List Transcript → Option (ℕ × Text) → Type 0
IsTraced best at paths none = (best ≡ none) × All (λ p. at p ≡ none) paths
IsTraced best at paths (some (t, stem)) =
    ((best ≡ some (t, stem)) ⊎ ((p : Transcript) × In p paths × (at p ≡ some t) × (p.stem ≡ stem)))
    × IsNoLater best t
    × All (λ q. (u : ℕ) → at q ≡ some u → u ≤ t) paths

IsTraced-more :
    (at : Transcript → Option ℕ) (best : Option (ℕ × Text)) (path : Transcript)
    (paths : List Transcript) (r : Option (ℕ × Text))
    → IsTraced (take_later best (at path) path.stem) at paths r
    → IsTraced best at (path ∷ paths) r
unfolding IsTraced
IsTraced-more at best path paths none (b, later) =
    let h = take_later-none best (at path) path.stem b in (h.0, (h.1, later))
IsTraced-more at best path paths (some (t, stem)) (from, bound, later) =
    let h = take_later-IsNoLater best (at path) path.stem t bound in
    (source from, h.0, (h.1, later))
  where
    source :
        (take_later best (at path) path.stem ≡ some (t, stem))
          ⊎ ((p : Transcript) × In p paths × (at p ≡ some t) × (p.stem ≡ stem))
        → (best ≡ some (t, stem))
          ⊎ ((p : Transcript) × In p (path ∷ paths) × (at p ≡ some t) × (p.stem ≡ stem))
    source (inl e) = elim (take_later-some best (at path) path.stem t stem e) [
      | inl e' ↦ inl e'
      | inr (a, s) ↦ inr (path, inl refl, a, s)
    ]
    source (inr (p, i, a, s)) = inr (p, inr i, a, s)

choose-IsTraced :
    (at : Transcript → Option ℕ) (best : Option (ℕ × Text)) (paths : List Transcript)
    → IsTraced best at paths (choose at best paths)
unfolding choose IsTraced
choose-IsTraced at none [] = (refl, tt)
choose-IsTraced at (some (t, stem)) [] = (inl refl, omega arith, tt)
choose-IsTraced at best (path ∷ paths) =
    IsTraced-more at best path paths _
      (choose-IsTraced at (take_later best (at path) path.stem) paths)

IsLatest-IsTraced :
    (at : Transcript → Option ℕ) (paths : List Transcript) (r : Option (ℕ × Text))
    → IsTraced none at paths r
    → IsLatest at paths r
unfolding IsTraced
IsLatest-IsTraced at paths none h = h.1
IsLatest-IsTraced at paths (some (t, stem)) (inl e, bound, later) = absurd (ground (arith, e))
IsLatest-IsTraced at paths (some (t, stem)) (inr from, bound, later) = (from, later)

pub choose-IsLatest :
    (at : Transcript → Option ℕ) (paths : List Transcript)
    → IsLatest at paths (choose at none paths)
choose-IsLatest at paths = IsLatest-IsTraced at paths _ (choose-IsTraced at none paths)
