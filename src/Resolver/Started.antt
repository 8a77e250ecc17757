-- ===== src/Resolver/Started.antt =====
-- Which session ids live claudes were started with (c_lord/transcript/resolver.py, `live_session_ids`),
-- told without the loop over the arguments.
use c_lord.Prelude.Texts.{Text, text_key}
use c_lord.Prelude.Ranked.{In}
use c_lord.Prelude.{
  ℕ, Bool, true, false, not, ◌&&◌, ◌||◌, ◌⊎◌, inl, inr, Bool-cases, Option, Option-cases, none,
  some, is_some, List, [], ◌∷◌, ◌++◌, ◌≡◌, ◌≢◌, ap, sym, subst, ◌∙◌, refl, map, take, contains,
  contains-append, nat_key, ◌==◌, arith,
}
use c_lord.Claims.{is_session_id}
use c_lord.Claims.Successor.{after_prefix, starts_with}
use c_lord.Resolver.Live.{
  dashed, session_flags, resume_equals, session_id_equals, is_claude, any_claude, is_interactive,
  next_arg, flag_value, valid_id, started_ids,
}

-- The id is the value of a flag at this argument: of the next one, or behind an equals sign.
abbrev pub IsFlagged : Text → Text → List Text → Type 0
IsFlagged id arg args =
    ((contains arg session_flags ≡ true) × ((rest : List Text) × (args ≡ id ∷ rest)))
    ⊎ ((arg ≡ resume_equals ++ id) ⊎ (arg ≡ session_id_equals ++ id))

-- The id is the value of a flag in front of any `--`.
abbrev pub IsGiven : Text → List Text → Type 0
IsGiven id [] = ⊥
IsGiven id (arg ∷ args) = (arg ≢ 45 ∷ 45 ∷ []) × (IsFlagged id arg args ⊎ IsGiven id args)

-- One of the first two arguments is a claude, and none is `-p` or `--print`.
abbrev pub IsInteractive : List Text → Type 0
IsInteractive argv =
    ((arg : Text) × In arg (take 2 argv) × (is_claude arg ≡ true))
    × ¬ In (45 ∷ 112 ∷ []) argv
    × ¬ In (45 ∷ 45 ∷ 112 ∷ 114 ∷ 105 ∷ 110 ∷ 116 ∷ []) argv

-- A slash or a dot became a dash, any other character is as it was.
abbrev pub IsDashed : ℕ → ℕ → Type 0
IsDashed c d = (((c ≡ 47) ⊎ (c ≡ 46)) × (d ≡ 45)) ⊎ ((c ≢ 47) × (c ≢ 46) × (d ≡ c))

abbrev pub IsSlug : Text → Text → Type 0
IsSlug [] [] = Unit
IsSlug [] (d ∷ name) = ⊥
IsSlug (c ∷ path) [] = ⊥
IsSlug (c ∷ path) (d ∷ name) = IsDashed c d × IsSlug path name

after_prefix-append :
    (prefix text rest : Text) → after_prefix prefix text ≡ some rest → text ≡ prefix ++ rest
after_prefix-append [] text rest h = ground (arith, h)
after_prefix-append (p ∷ prefix) [] rest h = absurd (ground (arith, h))
after_prefix-append (p ∷ prefix) (c ∷ text) rest h = elim (Bool-cases (p == c)) [
  | inr other ↦ absurd (ground (arith, rw (after_prefix, other) at h))
  | inl same ↦
      let tail = after_prefix-append prefix text rest (rw (after_prefix, same) at h) in
      ap (λ t. c ∷ t) tail ∙ ap (λ z. z ∷ (prefix ++ rest)) (sym ((nat_key.same_iff p c).0 same))
]

flag_value-IsFlagged :
    (id arg : Text) (args : List Text) → flag_value arg args ≡ some id → IsFlagged id arg args
flag_value-IsFlagged id arg args h =
    elim (Bool-cases (contains arg session_flags && is_some (next_arg args))) [
      | inl flagged ↦ inl (ground (arith, flagged), with_next args (rw (flag_value, flagged) at h))
      | inr bare ↦ elim (Option-cases (after_prefix resume_equals arg)) [
        | inr (rest, found) ↦
            let same : rest ≡ id = ground (arith, rw (flag_value, bare, starts_with, found) at h) in
            inr (
              inl (
                after_prefix-append resume_equals arg rest found
                ∙ ap (λ z. resume_equals ++ z) same))
        | inl missing ↦ inr (
            inr (
              after_prefix-append session_id_equals arg id
                (rw (flag_value, bare, starts_with, missing) at h)))
      ]
    ]
  where
    with_next : (rest : List Text) → next_arg rest ≡ some id → (r : List Text) × (rest ≡ id ∷ r)
    with_next [] e = absurd (ground (arith, e))
    with_next (x ∷ rest) e = (rest, ap (λ z. z ∷ rest) (ground (arith, e)))

IsFlagged-flag_value :
    (id arg : Text) (args : List Text) → IsFlagged id arg args → flag_value arg args ≡ some id
IsFlagged-flag_value id arg args (inl (flag, (rest, e))) =
    subst (λ z. flag_value arg z ≡ some id) (sym e) (rw (flag_value, flag) refl)
IsFlagged-flag_value id arg args (inr (inl e)) =
    subst (λ z. flag_value z args ≡ some id) (sym e) refl
IsFlagged-flag_value id arg args (inr (inr e)) =
    subst (λ z. flag_value z args ≡ some id) (sym e) refl

valid_id-found :
    (id : Text) (value : Option Text)
    → contains id (valid_id value) ≡ true
    → (value ≡ some id) × (is_session_id id ≡ true)
valid_id-found id none h = absurd (ground (arith, h))
valid_id-found id (some v) h = elim (Bool-cases (is_session_id v)) [
  | inr bad ↦ absurd (ground (arith, rw (valid_id, bad) at h))
  | inl valid ↦
      let same : v ≡ id = (text_key.same_iff v id).0 (ground (arith, rw (valid_id, valid) at h)) in
      (ap some same, ap is_session_id (sym same) ∙ valid)
]

valid_id-listed : (id : Text) → is_session_id id ≡ true → contains id (valid_id (some id)) ≡ true
valid_id-listed id h =
    let same : (id == id) ≡ true = (text_key.same_iff id id).1 refl in rw (valid_id, h, same) refl

pub started_ids-IsGiven :
    (id : Text) (argv : List Text)
    → contains id (started_ids argv) ≡ true
    → (is_session_id id ≡ true) × IsGiven id argv
unfolding started_ids
started_ids-IsGiven id [] h = absurd (ground (arith, h))
started_ids-IsGiven id (arg ∷ args) h = elim (Bool-cases (arg == (45 ∷ 45 ∷ []))) [
  | inl stop ↦ absurd (ground (arith, rw (started_ids, stop) at h))
  | inr goes_on ↦
      let differs : arg ≢ 45 ∷ 45 ∷ [] =
        λ e. absurd (ground (arith, goes_on, (text_key.same_iff arg (45 ∷ 45 ∷ [])).1 e)) in
      let here = valid_id (flag_value arg args) in
      elim (Bool-cases (contains id here)) [
        | inl found ↦
            let (value, valid) = valid_id-found id (flag_value arg args) found in
            (valid, (differs, inl (flag_value-IsFlagged id arg args value)))
        | inr missing ↦
            let split = contains-append id here (started_ids args) in
            let listed : contains id (here ++ started_ids args) ≡ true =
              rw (started_ids, goes_on) at h in
            let (valid, given) =
              started_ids-IsGiven id args (ground (arith, split, missing, listed)) in
            (valid, (differs, inr given))
      ]
]

pub or_later : (a b : Bool) → b ≡ true → (a || b) ≡ true
or_later true b h = refl
or_later false b h = h

pub IsGiven-started_ids :
    (id : Text) (argv : List Text)
    → is_session_id id ≡ true
    → IsGiven id argv
    → contains id (started_ids argv) ≡ true
unfolding started_ids
IsGiven-started_ids id [] valid h = absurd h
IsGiven-started_ids id (arg ∷ args) valid (differs, h) = elim (Bool-cases (arg == (45 ∷ 45 ∷ []))) [
  | inl stop ↦ absurd (differs ((text_key.same_iff arg (45 ∷ 45 ∷ [])).0 stop))
  | inr goes_on ↦
      let split = contains-append id (valid_id (flag_value arg args)) (started_ids args) in
      rw (started_ids, goes_on)
        (elim h [
          | inl flagged ↦
              let here : contains id (valid_id (flag_value arg args)) ≡ true =
                ap (λ o. contains id (valid_id o)) (IsFlagged-flag_value id arg args flagged)
                ∙ valid_id-listed id valid in
              split ∙ rw here refl
          | inr later ↦
              split
              ∙ or_later (contains id (valid_id (flag_value arg args))) _
                  (IsGiven-started_ids id args valid later)
        ])
]

contains-In : (a : Text) (xs : List Text) → contains a xs ≡ true → In a xs
contains-In a [] h = absurd (ground (arith, h))
contains-In a (x ∷ xs) h = elim (Bool-cases (x == a)) [
  | inl same ↦ inl (sym ((text_key.same_iff x a).0 same))
  | inr other ↦ inr (contains-In a xs (rw (contains, other) at h))
]

In-contains : (a : Text) (xs : List Text) → In a xs → contains a xs ≡ true
In-contains a [] i = absurd i
In-contains a (x ∷ xs) (inl e) =
    let same : (x == a) ≡ true = (text_key.same_iff x a).1 (sym e) in rw (contains, same) refl
In-contains a (x ∷ xs) (inr i) = or_later (x == a) (contains a xs) (In-contains a xs i)

any_claude-In :
    (args : List Text)
    → any_claude args ≡ true
    → (arg : Text) × In arg args × (is_claude arg ≡ true)
any_claude-In [] h = absurd (ground (arith, h))
any_claude-In (arg ∷ args) h = elim (Bool-cases (is_claude arg)) [
  | inl claude ↦ (arg, inl refl, claude)
  | inr other ↦
      let (a, i, claude) = any_claude-In args (rw (any_claude, other) at h) in (a, inr i, claude)
]

In-any_claude :
    (arg : Text) (args : List Text) → In arg args → is_claude arg ≡ true → any_claude args ≡ true
In-any_claude arg [] i h = absurd i
In-any_claude arg (a ∷ args) (inl e) h =
    let here : is_claude a ≡ true = ap is_claude (sym e) ∙ h in rw (any_claude, here) refl
In-any_claude arg (a ∷ args) (inr i) h =
    or_later (is_claude a) (any_claude args) (In-any_claude arg args i h)

absent-In : (a : Text) (xs : List Text) → contains a xs ≡ false → ¬ In a xs
absent-In a xs missing i =
    let found = In-contains a xs i in absurd (ground (arith, sym missing ∙ found))

contains-absent : (a : Text) (xs : List Text) → ¬ In a xs → contains a xs ≡ false
contains-absent a xs h = elim (Bool-cases (contains a xs)) [
  | inl found ↦ absurd (h (contains-In a xs found))
  | inr missing ↦ missing
]

-- The three tests of `is_interactive` told apart.
interactive_parts :
    (any print_short print_long : Bool)
    → (any && not (print_short || print_long)) ≡ true
    → (any ≡ true) × (print_short ≡ false) × (print_long ≡ false)
interactive_parts true false false h = (refl, refl, refl)
interactive_parts true false true h = absurd (ground (arith, h))
interactive_parts true true print_long h = absurd (ground (arith, h))
interactive_parts false print_short print_long h = absurd (ground (arith, h))

pub is_interactive-IsInteractive :
    (argv : List Text) → is_interactive argv ≡ true → IsInteractive argv
is_interactive-IsInteractive argv h =
    let (any, short, long) =
      interactive_parts (any_claude (take 2 argv)) (contains (45 ∷ 112 ∷ []) argv)
        (contains (45 ∷ 45 ∷ 112 ∷ 114 ∷ 105 ∷ 110 ∷ 116 ∷ []) argv) h in
    (any_claude-In (take 2 argv) any, λ i. absent-In _ argv short i, λ i. absent-In _ argv long i)

pub IsInteractive-is_interactive :
    (argv : List Text) → IsInteractive argv → is_interactive argv ≡ true
IsInteractive-is_interactive argv ((arg, i, claude), no_short, no_long) =
    let any = In-any_claude arg (take 2 argv) i claude in
    let short = contains-absent _ argv no_short in
    let long = contains-absent _ argv no_long in rw (is_interactive, any, short, long) refl

dashed-IsDashed : (c : ℕ) → IsDashed c (dashed c)
dashed-IsDashed c = ground arith

IsDashed-dashed : (c d : ℕ) → IsDashed c d → dashed c ≡ d
IsDashed-dashed c d h = ground (arith, h)

pub map-IsSlug : (path : Text) → IsSlug path (map dashed path)
map-IsSlug [] = tt
map-IsSlug (c ∷ path) = (dashed-IsDashed c, map-IsSlug path)

pub IsSlug-map : (path name : Text) → IsSlug path name → map dashed path ≡ name
IsSlug-map [] [] h = refl
IsSlug-map [] (d ∷ name) h = absurd h
IsSlug-map (c ∷ path) [] h = absurd h
IsSlug-map (c ∷ path) (d ∷ name) h =
    ap (λ z. z ∷ map dashed path) (IsDashed-dashed c d h.0)
    ∙ ap (λ z. d ∷ z) (IsSlug-map path name h.1)
