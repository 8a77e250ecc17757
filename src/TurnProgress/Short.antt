-- ===== src/TurnProgress/Short.antt =====
-- What the line quotes fits on one row (c_lord/discord_ui/turn_progress.py, `_shorten`).
use c_lord.Prelude.Texts.{Text, cut_at, is_part, join_with, parts_of}
use c_lord.Prelude.{
  ℕ, zero, suc, ◌-◌, ◌≤◌, Bool, false, not, List, [], ◌∷◌, ◌++◌, length, take, keep, length-append,
  length-take, contains, contains-append, contains-keep, if_cases, nat_key, ◌==◌, leb, ◌≡◌, refl,
  inl, inr, arith, Bool-cases,
}
use c_lord.TurnProgress.Labels.{
  backtick, ellipsis, max_label_chars, max_thought_chars, one_row, cut_to, without_glyph,
  abbreviate_paths, shorten, shorten_thought,
}

length-cut_to : (most : ℕ) (text : Text) → 1 ≤ most → length (cut_to most text) ≤ most
length-cut_to most text h =
    if_cases (λ (t : Text). length t ≤ most) (leb (length text) most) text
      (take (most - 1) text ++ (ellipsis ∷ [])) (λ short. ground (arith, short))
      (λ long. omega (
        arith,
        h,
        length-append (take (most - 1) text) (ellipsis ∷ []),
        length-take (most - 1) text,
      ))

-- A character that does not come.
abbrev pub IsWithout : ℕ → Text → Type 0
IsWithout c text = contains c text ≡ false

IsWithout-take : (c n : ℕ) (text : Text) → IsWithout c text → IsWithout c (take n text)
IsWithout-take c zero text h = refl
IsWithout-take c (suc n) [] h = refl
IsWithout-take c (suc n) (d ∷ text) h = ground (arith, h, IsWithout-take c n text)

IsWithout-append : (c : ℕ) (a b : Text) → IsWithout c a → IsWithout c b → IsWithout c (a ++ b)
IsWithout-append c a b h k = ground (arith, contains-append c a b, h, k)

-- All parts are without it.
abbrev AllWithout : ℕ → List Text → Type 0
AllWithout c [] = Unit
AllWithout c (part ∷ parts) = IsWithout c part × AllWithout c parts

AllWithout-cut_at :
    (c : ℕ) (cuts : ℕ → Bool) (text : Text)
    → IsWithout c text
    → AllWithout c ((cut_at cuts text).0 ∷ (cut_at cuts text).1)
AllWithout-cut_at c cuts [] h = (refl, tt)
AllWithout-cut_at c cuts (d ∷ text) h =
    let here : (d == c) ≡ false = ground (arith, h) in
    let later = AllWithout-cut_at c cuts text (ground (arith, h)) in
    elim (Bool-cases (cuts d)) [
      | inl cut ↦ rw cut (refl, later)
      | inr kept ↦ rw kept (ground (arith, here, later.0), later.1)
    ]

AllWithout-keep :
    (c : ℕ) (p : Text → Bool) (parts : List Text) → AllWithout c parts → AllWithout c (keep p parts)
AllWithout-keep c p [] h = tt
AllWithout-keep c p (part ∷ parts) h = elim (Bool-cases (p part)) [
  | inl fits ↦ rw fits (h.0, AllWithout-keep c p parts h.1)
  | inr out ↦ rw out (AllWithout-keep c p parts h.1)
]

IsWithout-join_with :
    (c d : ℕ) (parts : List Text)
    → (d == c) ≡ false
    → AllWithout c parts
    → IsWithout c (join_with d parts)
IsWithout-join_with c d [] h k = refl
IsWithout-join_with c d (part ∷ []) h k = k.0
IsWithout-join_with c d (part ∷ next_part ∷ parts) h k =
    IsWithout-append c part (d ∷ join_with d (next_part ∷ parts)) k.0
      (ground (arith, h, IsWithout-join_with c d (next_part ∷ parts) h k.1))

IsWithout-one_row : (is_space : ℕ → Bool) (text : Text) → IsWithout backtick (one_row is_space text)
unfolding one_row
IsWithout-one_row is_space text =
    let plain = keep (λ c. not (c == backtick)) text in
    let h : IsWithout backtick plain = contains-keep backtick (λ c. not (c == backtick)) text in
    let parts = AllWithout-cut_at backtick is_space plain h in
    IsWithout-join_with backtick 32 (parts_of is_space plain) (ground arith) (
      AllWithout-keep backtick is_part ((cut_at is_space plain).0 ∷ (cut_at is_space plain).1)
        parts)

-- A label and a thought of any length fit on one row, and a thought holds no backtick, so that none is
-- left without its partner by the cut.
pub shorten_fits :
    (is_space : ℕ → Bool) (text : Text)
    → (length (shorten is_space text) ≤ max_label_chars)
      × (length (shorten_thought is_space text) ≤ max_thought_chars)
      × IsWithout backtick (shorten_thought is_space text)
unfolding shorten shorten_thought
shorten_fits is_space text =
    let row = one_row is_space text in
    let h = IsWithout-one_row is_space text in
    (
      length-cut_to max_label_chars (without_glyph is_space (abbreviate_paths is_space row))
          (omega arith),
      length-cut_to max_thought_chars row (omega arith),
      if_cases (IsWithout backtick) (leb (length row) max_thought_chars) row
          (take (max_thought_chars - 1) row ++ (ellipsis ∷ [])) (λ short. h)
          (λ long.
            IsWithout-append backtick (take (max_thought_chars - 1) row) (ellipsis ∷ [])
              (IsWithout-take backtick (max_thought_chars - 1) row h) (ground arith)),
    )
