-- ===== src/Lamp/Paint.antt =====
-- What a paint leaves on the message (c_lord/discord_ui/status.py, `_set_reaction` and `_sweep_locked`).
use c_lord.Prelude.{
  if_cases, String, Bool, true, false, not, ◌&&◌, some, List, [], ◌∷◌, contains, contains-keep,
  if◌then◌else◌, nat_key, string_key, ◌==◌, ◌≡◌, refl, ap, sym, ◌∙◌, subst, inl, inr, arith,
  Bool-cases,
}
use c_lord.Lamp.{
  Lamp, open_lamps, take_off, react, and_then, change_to, sweep_all, sweep_locked, set_reaction,
}
use c_lord.Lamp.Truth.{
  is_open, IsTracked, IsSame, IsSame-refl, IsSame-trans, react_sync, some_injective, and_then_cases,
  IsClear, IsPainted, change_to-IsPainted,
}

same_through : (a b c : String) → (a == b) ≡ true → (a == c) ≡ true → (b == c) ≡ true
same_through a b c h k =
    let e : a ≡ b = (string_key.same_iff a b).0 h in subst (λ x. (x == c) ≡ true) e k

taken_off :
    (stray e : String) (shown : List String)
    → contains e (take_off stray shown) ≡ true
    → ((stray == e) ≡ false) × (contains e shown ≡ true)
taken_off stray e shown h =
    let split = contains-keep e (λ x. not (x == stray)) shown in
    (
      elim (Bool-cases (stray == e)) [
        | inr other ↦ other
        | inl same ↦ absurd (
            ground (
              arith,
              h,
              split,
              same_through stray e stray same ((string_key.same_iff stray stray).1 refl),
            ))
      ],
      ground (arith, h, split),
    )

-- What a sweep takes off.
abbrev IsSwept : String → List String → Lamp → Lamp × Bool → Type 0
IsSwept kept strays l r =
    IsSame l r.0
    × (r.0.out_of_sync ≡ false
        → (e : String) → contains e r.0.shown ≡ true
        → (contains e l.shown ≡ true) × (contains e strays ≡ true → (e == kept) ≡ true))

sweep_all-IsSwept :
    (kept : String) (strays : List String) (l : Lamp)
    → IsSwept kept strays l (sweep_all kept strays l)
unfolding sweep_all
sweep_all-IsSwept kept [] l = (IsSame-refl l, λ h e there. (there, λ k. absurd (ground arith)))
sweep_all-IsSwept kept (stray ∷ strays) l =
    let r = react (take_off stray) l in
    let (same, sync) = react_sync (take_off stray) l in
    let (same', rest) = sweep_all-IsSwept kept strays r.0 in
    if_cases (IsSwept kept (stray ∷ strays) l) (stray == kept) (sweep_all kept strays l)
      (and_then r (sweep_all kept strays))
      (λ this.
        let (same'', rest') = sweep_all-IsSwept kept strays l in
        (
          same'',
          λ h e there.
              let (on, only) = rest' h e there in
              (
                on,
                λ k. elim (Bool-cases (stray == e)) [
                  | inl that ↦ same_through stray e kept that this
                  | inr not_that ↦ only (ground (arith, k, not_that))
                ],
              ),
        ))
      (λ other.
        and_then_cases (IsSwept kept (stray ∷ strays) l) r (sweep_all kept strays)
          (λ stopped. (same, λ h e there. absurd (ground (arith, stopped, (sync h).1))))
          (λ goes_on. (
            IsSame-trans l r.0 (sweep_all kept strays r.0).0 same same',
            λ h e there.
                let (on, only) = rest h e there in
                let (off, on') =
                  taken_off stray e l.shown (rw (sync (same'.sync_before h)).0 at on) in
                (on', λ k. only (ground (arith, k, off))),
          )))

sweep_locked_guild :
    (kept : String) (l : Lamp)
    → l.guild ≡ true
    → sweep_locked kept l ≡ sweep_all kept open_lamps (record l { out_of_sync = false })
unfolding sweep_locked
sweep_locked_guild kept l guild = ground (arith, guild)

sweep_locked-IsPainted :
    (emoji : String) (l : Lamp)
    → l.guild ≡ true
    → l.current_emoji ≡ some emoji
    → IsPainted emoji (sweep_locked emoji l)
unfolding is_open
sweep_locked-IsPainted emoji l guild now =
    let m : Lamp = record l { out_of_sync = false } in
    let (same, only) = sweep_all-IsSwept emoji open_lamps m in
    subst (IsPainted emoji) (sym (sweep_locked_guild emoji l guild)) (
      record {
        in_guild = same.guild_same ∙ guild;
        known = λ h e opened there.
            same.current_same
            ∙ now
            ∙ ap some (sym ((string_key.same_iff e emoji).0 ((only h e there).1 opened)));
      },
      λ on. same.current_same ∙ now,
    )

-- After `_set_reaction`: a paint that was not dropped is recorded.
abbrev IsStored : String → Bool → Lamp × Bool → Type 0
IsStored emoji only_while_running r =
    IsTracked r.0 × (only_while_running ≡ false → r.1 ≡ false → r.0.current_emoji ≡ some emoji)

pub set_reaction-IsStored :
    (emoji : String) (only_while_running final : Bool) (l : Lamp)
    → IsTracked l
    → IsStored emoji only_while_running (set_reaction emoji only_while_running final l)
unfolding set_reaction
set_reaction-IsStored emoji only_while_running final l t =
    let P = IsStored emoji only_while_running in
    let (tracked, now) = change_to-IsPainted emoji l t in
    let r = change_to emoji l in
    let settle : Lamp → Lamp × Bool =
      λ l'. if final && l'.out_of_sync then sweep_locked emoji l' else (l', false) in
    if_cases P (only_while_running && not l.turn_active) (l, false) (and_then r settle)
      (λ dropped. (t, λ always. absurd (ground (arith, dropped, always))))
      (λ painted_now.
        and_then_cases P r settle (λ stopped. (tracked, λ always. now))
          (λ goes_on.
            if_cases P (final && r.0.out_of_sync) (sweep_locked emoji r.0) (r.0, false)
              (λ sweeps.
                let (tracked', now') =
                  sweep_locked-IsPainted emoji r.0 tracked.in_guild (now goes_on) in
                (tracked', λ always. now'))
              (λ clean. (tracked, λ always on. now goes_on))))

-- The last paint: if the manager then knows what is on the message, no open lamp is.
pub set_reaction_final :
    (emoji : String) (l : Lamp)
    → IsTracked l
    → is_open emoji ≡ false
    → let r = set_reaction emoji false true l in
      r.1 ≡ false → r.0.out_of_sync ≡ false → IsClear r.0.shown × (r.0.current_emoji ≡ some emoji)
set_reaction_final emoji l t closed on sync =
    let (tracked, now) = set_reaction-IsStored emoji false true l t in
    (
      λ e opened. elim (Bool-cases (contains e (set_reaction emoji false true l).0.shown)) [
        | inr gone ↦ gone
        | inl there ↦
            let same : some emoji ≡ some e =
              sym (now refl on) ∙ tracked.known sync e opened there in
            absurd (ground (arith, closed, opened, ap is_open (some_injective emoji e same)))
      ],
      now refl on,
    )
