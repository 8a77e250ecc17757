-- ===== src/Resolver/Clean.antt =====
-- What a call of `resolve` does with a transcript that is not the thread's
-- (c_lord/transcript/resolver.py): the steps that look through the candidates.
use c_lord.Prelude.Texts.{Text, text_key}
use c_lord.Prelude.{
  ℕ, Bool, true, false, inl, inr, Bool-cases, Option, none, some, is_some, List, [], ◌∷◌, ◌≡◌, refl,
  sym, subst, All, nat_key, ◌==◌, if_cases, arith,
}
use c_lord.Claims.Successor.{Transcript}
use c_lord.Resolver.Marker.{is_clord_driven_jsonl}
use c_lord.Resolver.{
  Resolver, is_path, store, cached_verdict, is_ours, judge, pin, is_held, take_first,
}

abbrev pub says_driven : Option (ℕ × Bool) → Bool
says_driven none = false
says_driven (some (size, verdict)) = verdict

abbrev pub says_cleared : Option (ℕ × Option ℕ) → Bool
says_cleared none = false
says_cleared (some (size, at)) = is_some at

-- Nothing the resolver knows speaks for the path `x`.
abbrev pub IsClean : Text → Resolver → Type 0
IsClean x r =
    (is_path r.pinned x ≡ false)
    × (says_driven (r.verdicts x) ≡ false)
    × (says_cleared (r.clear_times x) ≡ false)

-- The transcript is not `x`, or it has no mark.
abbrev pub IsUnmarked : Text → Transcript → Type 0
IsUnmarked x p = (p.stem == x) ≡ true → is_clord_driven_jsonl p ≡ false

module _ (x : Text) where
  cached_verdict-clean :
      (known : Option (ℕ × Bool)) (size : ℕ) (verdict : Bool)
      → cached_verdict known size ≡ some verdict
      → says_driven known ≡ false
      → verdict ≡ false
  cached_verdict-clean none size verdict h k = absurd (ground (arith, h))
  cached_verdict-clean (some (n, v)) size verdict h k = ground (arith, h, k)

  store-clean :
      (stem : Text) (size : ℕ) (verdict : Bool) (verdicts : Text → Option (ℕ × Bool))
      → ((stem == x) ≡ true → verdict ≡ false)
      → says_driven (verdicts x) ≡ false
      → says_driven (store stem (size, verdict) verdicts x) ≡ false
  store-clean stem size verdict verdicts h k = elim (Bool-cases (x == stem)) [
    | inl same ↦
        let other : (stem == x) ≡ true =
          ground (arith, same, text_key.same_iff x stem, text_key.same_iff stem x) in
        rw same (h other)
    | inr differs ↦ rw differs k
  ]

  judge-IsClean :
      (p : Transcript) (r : Resolver) (known : Option Bool)
      → cached_verdict (r.verdicts p.stem) p.size ≡ known
      → IsUnmarked x p
      → IsClean x r
      → IsClean x (judge p r known).1 × ((judge p r known).0 ≡ true → (p.stem == x) ≡ false)
  judge-IsClean p r none e h clean = (
    (clean.0, store-clean p.stem p.size (is_clord_driven_jsonl p) r.verdicts h clean.1, clean.2),
    λ ours. ground (arith, h, ours),
  )
  judge-IsClean p r (some verdict) e h clean = (clean, λ ours. from_cache ours)
    where
      from_cache : verdict ≡ true → (p.stem == x) ≡ false
      from_cache ours = elim (Bool-cases (p.stem == x)) [
        | inr differs ↦ differs
        | inl same ↦
            let here : says_driven (r.verdicts p.stem) ≡ false =
              subst (λ y. says_driven (r.verdicts y) ≡ false)
                (sym ((text_key.same_iff p.stem x).0 same)) clean.1 in
            absurd (ground (arith, ours, cached_verdict-clean _ p.size verdict e here))
      ]

  is_ours-IsClean :
      (p : Transcript) (r : Resolver)
      → IsUnmarked x p
      → IsClean x r
      → IsClean x (is_ours p r).1 × ((is_ours p r).0 ≡ true → (p.stem == x) ≡ false)
  unfolding is_ours
  is_ours-IsClean p r h clean = judge-IsClean p r _ refl h clean

  pub take_first-IsClean :
      (paths : List (ℕ × Transcript)) (r : Resolver)
      → All (λ e. IsUnmarked x e.1) paths
      → IsClean x r
      → IsClean x (take_first paths r).1 × (is_path (take_first paths r).0 x ≡ false)
  unfolding take_first
  take_first-IsClean [] r h clean = (clean, refl)
  take_first-IsClean ((t, p) ∷ paths) r h clean =
      let (probed_clean, stranger) = is_ours-IsClean p r h.0 clean in
      let probed = (is_ours p r).1 in
      if_cases {A = Option Text × Resolver} (λ f. IsClean x f.1 × (is_path f.0 x ≡ false))
        (is_held p.stem r) _ _ (λ held. take_first-IsClean paths r h.1 clean)
        (λ free.
          if_cases {A = Option Text × Resolver} (λ f. IsClean x f.1 × (is_path f.0 x ≡ false))
            (is_ours p r).0 (some p.stem, pin p.stem probed) (take_first paths probed)
            (λ ours. ((stranger ours, probed_clean.1, probed_clean.2), stranger ours))
            (λ other. take_first-IsClean paths probed h.1 probed_clean))
