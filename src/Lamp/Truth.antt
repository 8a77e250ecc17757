-- ===== src/Lamp/Truth.antt =====
-- What the manager knows of the message, and what its last paint leaves (c_lord/discord_ui/status.py).
use c_lord.Prelude.{
  if_cases, String, Bool, true, false, not, Option, none, some, List, [], ◌∷◌, contains,
  contains-append, contains-keep, nat_key, string_key, ◌==◌, ◌≡◌, refl, ap, sym, ◌∙◌, subst, inl,
  inr, arith, Bool-cases, Option-cases,
}
use c_lord.Lamp.{
  Lamp, done, failed, cancelled, open_lamps, put_on, take_off, answer, react, painted,
  remove_current_locked, and_then, is_now, change_to,
}

unfoldable pub is_open : String → Bool
is_open e = contains e open_lamps

-- An open lamp on the message is the one that was painted last.
abbrev pub IsKnown : List String → Option String → Type 0
IsKnown shown current = (e : String) → is_open e ≡ true → contains e shown ≡ true → current ≡ some e

-- Unless a call failed, the manager knows which open lamp is on the message.
pub record IsTracked (l : Lamp) : Type 0 where
  pub in_guild : l.guild ≡ true
  pub known : l.out_of_sync ≡ false → IsKnown l.shown l.current_emoji

-- What a step keeps of a lamp.
pub record IsSame (l m : Lamp) : Type 0 where
  pub guild_same : m.guild ≡ l.guild
  pub current_same : m.current_emoji ≡ l.current_emoji
  pub sync_before : m.out_of_sync ≡ false → l.out_of_sync ≡ false

pub IsSame-refl : (l : Lamp) → IsSame l l
IsSame-refl l = record { guild_same = refl; current_same = refl; sync_before = λ h. h }

pub IsSame-trans : (l m n : Lamp) → IsSame l m → IsSame m n → IsSame l n
IsSame-trans l m n f g = record {
  guild_same = g.guild_same ∙ f.guild_same;
  current_same = g.current_same ∙ f.current_same;
  sync_before = λ h. f.sync_before (g.sync_before h);
}

pub react_sync :
    (change : List String → List String) (l : Lamp)
    → let r = react change l in
      IsSame l r.0 × (r.0.out_of_sync ≡ false → (r.0.shown ≡ change l.shown) × (r.1 ≡ false))
unfolding react answer
react_sync change l =
    elim l.calls
      as (λ calls.
        let r = react change (record l { calls = calls }) in
        IsSame l r.0 × (r.0.out_of_sync ≡ false → (r.0.shown ≡ change l.shown) × (r.1 ≡ false))) [
          | [] ↦ (
            record { guild_same = refl; current_same = refl; sync_before = λ h. h },
            λ h. (refl, refl),
          )
          | done ∷ calls ↦ (
            record { guild_same = refl; current_same = refl; sync_before = λ h. h },
            λ h. (refl, refl),
          )
          | failed b ∷ calls ↦ (
            record {
              guild_same = refl;
              current_same = refl;
              sync_before = λ h. absurd (ground (arith, h));
            },
            λ h. absurd (ground (arith, h)),
          )
          | cancelled b ∷ calls ↦ (
            record {
              guild_same = refl;
              current_same = refl;
              sync_before = λ h. absurd (ground (arith, h));
            },
            λ h. absurd (ground (arith, h)),
          )
        ]

is_open_named : (e : String) → is_open e ≡ true → (e == "") ≡ false
unfolding is_open
is_open_named e h = elim (Bool-cases (e == "")) [
  | inr named ↦ named
  | inl empty ↦
      let same : e ≡ "" = (string_key.same_iff e "").0 empty in
      absurd (ground (arith, rw same at h))
]

pub some_injective : (a b : String) → some a ≡ some b → a ≡ b
some_injective a b h = ground (arith, h)

some_same : (e f : String) → some e ≡ some f → (f == e) ≡ true
some_same e f h = (string_key.same_iff f e).1 (ground (arith, h))

take_off_self :
    (e f : String) (shown : List String)
    → IsKnown shown (some e)
    → is_open f ≡ true
    → contains f (take_off e shown) ≡ false
take_off_self e f shown known h =
    ground (arith, contains-keep f (λ x. not (x == e)) shown, known f h, some_same e f)

-- No open lamp is on the message.
abbrev pub IsClear : List String → Type 0
IsClear shown = (e : String) → is_open e ≡ true → contains e shown ≡ false

IsClear-of_none : (l : Lamp) → painted l ≡ none → IsKnown l.shown l.current_emoji → IsClear l.shown
IsClear-of_none l bare known e h = elim (Bool-cases (contains e l.shown)) [
  | inr gone ↦ gone
  | inl there ↦ absurd (ground (arith, bare, known e h there, is_open_named e h))
]

painted_current : (l : Lamp) (e : String) → painted l ≡ some e → l.current_emoji ≡ some e
painted_current l e h = elim (Option-cases l.current_emoji) [
  | inl bare ↦ absurd (ground (arith, h, bare))
  | inr (f, now) ↦ ground (arith, h, now)
]

-- After a removal: no open lamp is left, unless a call failed.
abbrev pub IsRemoved : Lamp → Lamp × Bool → Type 0
IsRemoved l r = IsSame l r.0 × (r.0.out_of_sync ≡ false → IsClear r.0.shown × (r.1 ≡ false))

remove_current_locked_lit :
    (l : Lamp) (e : String)
    → painted l ≡ some e
    → l.guild ≡ true
    → remove_current_locked l ≡ react (take_off e) l
unfolding remove_current_locked
remove_current_locked_lit l e now guild = ground (arith, now, guild)

remove_current_locked_bare : (l : Lamp) → painted l ≡ none → remove_current_locked l ≡ (l, false)
unfolding remove_current_locked
remove_current_locked_bare l now = ground (arith, now)

pub remove_current_locked-IsRemoved :
    (l : Lamp) → IsTracked l → IsRemoved l (remove_current_locked l)
remove_current_locked-IsRemoved l t = elim (Option-cases (painted l)) [
  | inl bare ↦
      subst (IsRemoved l) (sym (remove_current_locked_bare l bare))
        (IsSame-refl l, λ h. (IsClear-of_none l bare (t.known h), refl))
  | inr (e, now) ↦
      let (same, sync) = react_sync (take_off e) l in
      subst (IsRemoved l) (sym (remove_current_locked_lit l e now t.in_guild)) (
        same,
        λ h.
            let (shown, on) = sync h in
            let known = rw (painted_current l e now) at (t.known (same.sync_before h)) in
            (λ f opened. rw shown (take_off_self e f l.shown known opened), on),
      )
]

pub and_then_cases {ℓ} :
    (P : Lamp × Bool → Type ℓ) (r : Lamp × Bool) (next_step : Lamp → Lamp × Bool)
    → (r.1 ≡ true → P r)
    → (r.1 ≡ false → P (next_step r.0))
    → P (and_then r next_step)
and_then_cases P r next_step f g = if_cases P r.1 r (next_step r.0) f g

-- After a paint of `emoji`.
abbrev pub IsPainted : String → Lamp × Bool → Type 0
IsPainted emoji r = IsTracked r.0 × (r.1 ≡ false → r.0.current_emoji ≡ some emoji)

is_now_current : (emoji : String) (l : Lamp) → is_now emoji l ≡ true → l.current_emoji ≡ some emoji
is_now_current emoji l h = elim (Option-cases l.current_emoji) [
  | inl bare ↦ absurd (ground (arith, h, bare))
  | inr (f, now) ↦
      let same : f ≡ emoji = (string_key.same_iff f emoji).0 (ground (arith, h, now)) in
      now ∙ ap some same
]

IsKnown-put_on :
    (emoji : String) (shown : List String)
    → IsClear shown
    → IsKnown (put_on emoji shown) (some emoji)
IsKnown-put_on emoji shown clear e opened there = elim (Bool-cases (contains emoji shown)) [
  | inl on ↦ absurd (ground (arith, there, on, clear e opened))
  | inr new ↦
      let same : (emoji == e) ≡ true =
        ground (arith, there, new, clear e opened, contains-append e shown (emoji ∷ [])) in
      ap some ((string_key.same_iff emoji e).0 same)
]

react-IsPainted :
    (emoji : String) (l m : Lamp)
    → l.guild ≡ true
    → m.guild ≡ l.guild
    → (m.out_of_sync ≡ false → IsClear m.shown)
    → m.current_emoji ≡ some emoji
    → IsPainted emoji (react (put_on emoji) m)
react-IsPainted emoji l m guild same clear now =
    let (after, sync) = react_sync (put_on emoji) m in
    (
      record {
        in_guild = after.guild_same ∙ same ∙ guild;
        known = λ h.
            let k = IsKnown-put_on emoji m.shown (clear (after.sync_before h)) in
            rw ((sync h).0, after.current_same, now) k;
      },
      λ h. after.current_same ∙ now,
    )

pub change_to-IsPainted :
    (emoji : String) (l : Lamp) → IsTracked l → IsPainted emoji (change_to emoji l)
unfolding change_to
change_to-IsPainted emoji l t =
    let r = remove_current_locked l in
    let (same, sync) = remove_current_locked-IsRemoved l t in
    if_cases (IsPainted emoji) (is_now emoji l) (l, false)
      (and_then r (λ l'. react (put_on emoji) (record l' { current_emoji = some emoji })))
      (λ now. (t, λ h. is_now_current emoji l now))
      (λ other.
        and_then_cases (IsPainted emoji) r
          (λ l'. react (put_on emoji) (record l' { current_emoji = some emoji }))
          (λ stopped. (
            record {
              in_guild = same.guild_same ∙ t.in_guild;
              known = λ h. absurd (ground (arith, stopped, (sync h).1));
            },
            λ h. absurd (ground (arith, h, stopped)),
          ))
          (λ goes_on.
            react-IsPainted emoji l (record r.0 { current_emoji = some emoji }) t.in_guild
              same.guild_same (λ h. (sync h).0) refl))
