-- ===== src/Lamp/Quiet.antt =====
-- Paints whose calls all succeed, and paints that come too late (c_lord/discord_ui/status.py).
use c_lord.Prelude.{
  if_cases, String, Bool, true, false, none, some, List, [], ◌∷◌, if◌then◌else◌, string_key, ◌==◌,
  ◌≡◌, refl, sym, ◌∙◌, subst, arith,
}
use c_lord.Lamp.{
  Lamp, done, failed, cancelled, open_lamps, put_on, take_off, answer, react, painted,
  remove_current_locked, and_then, is_now, change_to, sweep_all, sweep_locked, set_reaction,
}
use c_lord.Lamp.Truth.{and_then_cases}

-- No call is going to fail, and what `l` was sure of is still sure.
pub record IsQuiet (l : Lamp) (r : Lamp × Bool) : Type 0 where
  pub goes_on : r.1 ≡ false
  pub calls_left : r.0.calls ≡ []
  pub guild_kept : r.0.guild ≡ l.guild
  pub sync_kept : r.0.out_of_sync ≡ l.out_of_sync

IsQuiet-refl : (l : Lamp) → l.calls ≡ [] → IsQuiet l (l, false)
IsQuiet-refl l h = record { goes_on = refl; calls_left = h; guild_kept = refl; sync_kept = refl }

react_quiet :
    (change : List String → List String) (l : Lamp)
    → l.calls ≡ []
    → react change l ≡ (record l { shown = change l.shown }, false)
unfolding react answer
react_quiet change l h = ground (arith, h)

react-IsQuiet :
    (change : List String → List String) (l : Lamp) → l.calls ≡ [] → IsQuiet l (react change l)
react-IsQuiet change l h =
    subst (IsQuiet l) (sym (react_quiet change l h))
      (record { goes_on = refl; calls_left = h; guild_kept = refl; sync_kept = refl })

IsQuiet-trans :
    (l : Lamp) (r : Lamp × Bool) (next_step : Lamp → Lamp × Bool)
    → IsQuiet l r
    → IsQuiet r.0 (next_step r.0)
    → IsQuiet l (and_then r next_step)
IsQuiet-trans l r next_step f g =
    and_then_cases (IsQuiet l) r next_step (λ h. f)
      (λ h. record {
        goes_on = g.goes_on;
        calls_left = g.calls_left;
        guild_kept = g.guild_kept ∙ f.guild_kept;
        sync_kept = g.sync_kept ∙ f.sync_kept;
      })

remove_current_locked-IsQuiet : (l : Lamp) → l.calls ≡ [] → IsQuiet l (remove_current_locked l)
unfolding remove_current_locked
remove_current_locked-IsQuiet l h =
    elim (painted l)
      as (λ o. IsQuiet l (elim o [
        | none ↦ (l, false)
        | some e ↦ if l.guild then react (take_off e) l else (l, false)
      ])) [
        | none ↦ IsQuiet-refl l h
        | some e ↦
            if_cases (IsQuiet l) l.guild (react (take_off e) l) (l, false)
              (λ g. react-IsQuiet (take_off e) l h) (λ g. IsQuiet-refl l h)
      ]

change_to-IsQuiet : (emoji : String) (l : Lamp) → l.calls ≡ [] → IsQuiet l (change_to emoji l)
unfolding change_to
change_to-IsQuiet emoji l h =
    let r = remove_current_locked l in
    let q = remove_current_locked-IsQuiet l h in
    let m : Lamp = record r.0 { current_emoji = some emoji } in
    let add : Lamp → Lamp × Bool =
      λ l'. react (put_on emoji) (record l' { current_emoji = some emoji }) in
    let a = react-IsQuiet (put_on emoji) m q.calls_left in
    if_cases (IsQuiet l) (is_now emoji l) (l, false) (and_then r add) (λ now. IsQuiet-refl l h)
      (λ other. IsQuiet-trans l r add q (record {
        goes_on = a.goes_on;
        calls_left = a.calls_left;
        guild_kept = a.guild_kept;
        sync_kept = a.sync_kept;
      }))

sweep_all-IsQuiet :
    (kept : String) (strays : List String) (l : Lamp)
    → l.calls ≡ []
    → IsQuiet l (sweep_all kept strays l)
unfolding sweep_all
sweep_all-IsQuiet kept [] l h = IsQuiet-refl l h
sweep_all-IsQuiet kept (stray ∷ strays) l h =
    let q = react-IsQuiet (take_off stray) l h in
    if_cases (IsQuiet l) (stray == kept) (sweep_all kept strays l)
      (and_then (react (take_off stray) l) (sweep_all kept strays))
      (λ this. sweep_all-IsQuiet kept strays l h)
      (λ other.
        IsQuiet-trans l (react (take_off stray) l) (sweep_all kept strays) q
          (sweep_all-IsQuiet kept strays (react (take_off stray) l).0 q.calls_left))

-- A last paint whose calls succeed leaves the manager sure of what is shown.
abbrev pub IsSettled : Lamp × Bool → Type 0
IsSettled r = (r.1 ≡ false) × (r.0.out_of_sync ≡ false)

pub set_reaction-IsSettled :
    (emoji : String) (l : Lamp)
    → l.calls ≡ []
    → l.guild ≡ true
    → IsSettled (set_reaction emoji false true l)
unfolding set_reaction sweep_locked
set_reaction-IsSettled emoji l h guild =
    let r = change_to emoji l in
    let q = change_to-IsQuiet emoji l h in
    let m : Lamp = record r.0 { out_of_sync = false } in
    let swept = sweep_all-IsQuiet emoji open_lamps m q.calls_left in
    and_then_cases IsSettled r (λ l'. if l'.out_of_sync then sweep_locked emoji l' else (l', false))
      (λ stopped. absurd (ground (arith, stopped, q.goes_on)))
      (λ goes_on.
        if_cases IsSettled r.0.out_of_sync (sweep_locked emoji r.0) (r.0, false)
          (λ unsure.
            if_cases IsSettled r.0.guild (sweep_all emoji open_lamps m) (r.0, false)
              (λ g. (swept.goes_on, swept.sync_kept))
              (λ no. absurd (ground (arith, no, q.guild_kept, guild))))
          (λ sure. (refl, sure)))

-- Whether the turn is active is not a paint's business.
react_active :
    (change : List String → List String) (l : Lamp) → (react change l).0.turn_active ≡ l.turn_active
unfolding react answer
react_active change l =
    elim (l.calls)
      as (λ calls. (react change (record l { calls = calls })).0.turn_active ≡ l.turn_active) [
        | [] ↦ refl
        | done ∷ calls ↦ refl
        | failed b ∷ calls ↦ refl
        | cancelled b ∷ calls ↦ refl
      ]

abbrev IsActive : Bool → Lamp × Bool → Type 0
IsActive b r = r.0.turn_active ≡ b

remove_current_locked_active : (l : Lamp) → (remove_current_locked l).0.turn_active ≡ l.turn_active
unfolding remove_current_locked
remove_current_locked_active l =
    elim (painted l)
      as (λ o. IsActive l.turn_active (elim o [
        | none ↦ (l, false)
        | some e ↦ if l.guild then react (take_off e) l else (l, false)
      ])) [
        | none ↦ refl
        | some e ↦
            if_cases (IsActive l.turn_active) l.guild (react (take_off e) l) (l, false)
              (λ g. react_active (take_off e) l) (λ g. refl)
      ]

change_to_active : (emoji : String) (l : Lamp) → (change_to emoji l).0.turn_active ≡ l.turn_active
unfolding change_to
change_to_active emoji l =
    let P = IsActive l.turn_active in
    let r = remove_current_locked l in
    let add : Lamp → Lamp × Bool =
      λ l'. react (put_on emoji) (record l' { current_emoji = some emoji }) in
    if_cases P (is_now emoji l) (l, false) (and_then r add) (λ now. refl)
      (λ other.
        and_then_cases P r add (λ stopped. remove_current_locked_active l)
          (λ goes_on.
            react_active (put_on emoji) (record r.0 { current_emoji = some emoji })
            ∙ remove_current_locked_active l))

sweep_all_active :
    (kept : String) (strays : List String) (l : Lamp)
    → (sweep_all kept strays l).0.turn_active ≡ l.turn_active
unfolding sweep_all
sweep_all_active kept [] l = refl
sweep_all_active kept (stray ∷ strays) l =
    let P = IsActive l.turn_active in
    let r = react (take_off stray) l in
    if_cases P (stray == kept) (sweep_all kept strays l) (and_then r (sweep_all kept strays))
      (λ this. sweep_all_active kept strays l)
      (λ other.
        and_then_cases P r (sweep_all kept strays) (λ stopped. react_active (take_off stray) l)
          (λ goes_on. sweep_all_active kept strays r.0 ∙ react_active (take_off stray) l))

pub set_reaction_active :
    (emoji : String) (l : Lamp) → (set_reaction emoji false true l).0.turn_active ≡ l.turn_active
unfolding set_reaction sweep_locked
set_reaction_active emoji l =
    let P = IsActive l.turn_active in
    let r = change_to emoji l in
    let m : Lamp = record r.0 { out_of_sync = false } in
    and_then_cases P r (λ l'. if l'.out_of_sync then sweep_locked emoji l' else (l', false))
      (λ stopped. change_to_active emoji l)
      (λ goes_on.
        if_cases P r.0.out_of_sync (sweep_locked emoji r.0) (r.0, false)
          (λ unsure.
            if_cases P r.0.guild (sweep_all emoji open_lamps m) (r.0, false)
              (λ g. sweep_all_active emoji open_lamps m ∙ change_to_active emoji l)
              (λ no. change_to_active emoji l))
          (λ sure. change_to_active emoji l))

pub set_reaction-goes_on :
    (emoji : String) (l : Lamp) → l.calls ≡ [] → (set_reaction emoji false false l).1 ≡ false
unfolding set_reaction
set_reaction-goes_on emoji l h =
    and_then_cases (λ r. r.1 ≡ false) (change_to emoji l) (λ l'. (l', false))
      (λ stopped. (change_to-IsQuiet emoji l h).goes_on) (λ goes_on. refl)
