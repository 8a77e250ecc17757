-- ===== src/Resolver/Repin.antt =====
-- What a poll does to the pin and to the listing kept with it (c_lord/transcript/resolver.py, `resolve`).
use c_lord.Prelude.Texts.{Text, text_key}
use c_lord.Prelude.{
  ℕ, ◌+◌, Bool, true, false, not, ◌&&◌, ◌||◌, ◌⊎◌, inl, inr, Bool-cases, Option, none, some,
  is_some, List, [], ◌∷◌, ◌≡◌, refl, ap, sym, subst, ◌∙◌, All, map, keep, contains, contains-keep,
  ltb, nat_key, ◌==◌, if_cases, arith,
}
use c_lord.Claims.{ClaimFiles, read_claim, write_claim}
use c_lord.Claims.Successor.{Transcript, Json}
use c_lord.Claims.Choice.{find_transcript}
use c_lord.Resolver.{
  Sight, Resolver, orphan_recheck, is_path, is_ours, judge, cached_verdict, is_held, pin,
  take_first, stats, reversed, listing_is_stale, relisted,
}
use c_lord.Resolver.Strangers.{All-reversed}
use c_lord.Resolver.Poll.{
  Found, fresh_since, only_one, proven, move_claim, adopt_match, adopt_after, adopt_named,
  adopt_orphaned_claim, warned, awaiting_named, keep_pinned, found_or_kept, drop_unless,
  choose_candidate, prune, search_at, search_dir, clears_from, move_to_successor, successor_at,
  find_successor, pin_claimed, follow_claimed, resolve_from, resolve,
}

is_path-true : (o : Option Text) (x : Text) → is_path o x ≡ true → o ≡ some x
is_path-true none x h = absurd (ground (arith, h))
is_path-true (some y) x h = ap some ((text_key.same_iff y x).0 h)

only_one-contains : (xs : List Text) (x : Text) → only_one xs ≡ some x → contains x xs ≡ true
only_one-contains [] x h = absurd (ground (arith, h))
only_one-contains (y ∷ []) x h =
    let same : (y == x) ≡ true = (text_key.same_iff y x).1 (ground (arith, h)) in rw same refl
only_one-contains (y ∷ z ∷ xs) x h = absurd (ground (arith, h))

contains-map-keep :
    (b : Text) (g : ℕ × Transcript → Bool) (xs : List (ℕ × Transcript))
    → contains b (map (λ e. e.1.stem) (keep g xs)) ≡ true
    → contains b (map (λ e. e.1.stem) xs) ≡ true
contains-map-keep b g [] h = h
contains-map-keep b g (x ∷ xs) h = elim (Bool-cases (x.1.stem == b)) [
  | inl same ↦ rw same refl
  | inr other ↦ rw other (
      contains-map-keep b g xs (elim (Bool-cases (g x)) [
        | inl kept ↦ rw other at (rw (keep, kept) at h)
        | inr gone ↦ rw (keep, gone) at h
      ]))
]

contains_later : (x y : Text) (xs : List Text) → contains x xs ≡ true → contains x (y ∷ xs) ≡ true
contains_later x y xs h = elim (Bool-cases (y == x)) [
  | inl same ↦ rw (contains, same) refl
  | inr other ↦ rw (contains, other) h
]

contains_first : (x : Text) (xs : List Text) → contains x (x ∷ xs) ≡ true
contains_first x xs =
    let same : (x == x) ≡ true = (text_key.same_iff x x).1 refl in rw (contains, same) refl

All-contains :
    (P : Text → Type 0) (xs : List (ℕ × Transcript))
    → ((b : Text) → contains b (map (λ e. e.1.stem) xs) ≡ true → P b)
    → All (λ e. P e.1.stem) xs
All-contains P [] f = tt
All-contains P (x ∷ xs) f = (
  f x.1.stem (contains_first x.1.stem (map (λ e. e.1.stem) xs)),
  All-contains P xs (λ b h. f b (contains_later b x.1.stem (map (λ e. e.1.stem) xs) h)),
)

-- The pin and its listing before the poll.
module _ (before : Option Text) (known : List Text) where
  abbrev pub IsBefore : Resolver → Type 0
  IsBefore r = (r.pinned ≡ before) × (r.known_at_pin ≡ known)

  -- A path that is returned is pinned: it was before, with the listing as it was, or it was not, and the
  -- listing kept with it is the last one.
  abbrev pub IsPin : Option Text → Resolver → Type 0
  IsPin none r = Unit
  IsPin (some a) r =
      (r.pinned ≡ some a)
      × (((before ≡ some a) × (r.known_at_pin ≡ known))
          ⊎ ((is_path before a ≡ false) × (r.known_at_pin ≡ r.candidates)))

  abbrev pub IsPinned : Found → Type 0
  IsPinned found = IsPin found.0 found.1

  kept-IsPin : (o : Option Text) (r : Resolver) → before ≡ o → IsBefore r → IsPin o r
  kept-IsPin none r e h = tt
  kept-IsPin (some a) r e h = (h.0 ∙ e, inl (e, h.1))

  pin_claimed-IsPin : (id : Text) (r : Resolver) → IsBefore r → IsPin (some id) (pin_claimed id r)
  pin_claimed-IsPin id r h =
      if_cases (IsPin (some id)) (is_path r.pinned id) _ _
        (λ held. let e = is_path-true r.pinned id held in (e, inl (sym h.0 ∙ e, h.1)))
        (λ moved. (refl, inr (ap (λ o. is_path o id) (sym h.0) ∙ moved, refl)))

  follow_claimed-IsPinned :
      (id : Text) (found : Found) → IsBefore found.1 → IsPinned (follow_claimed id found)
  follow_claimed-IsPinned id (none, r, files) h = pin_claimed-IsPin id r h
  follow_claimed-IsPinned id (some new, r, files) h =
      pin_claimed-IsPin new (record r { claimed_session_id = some new }) h

  -- No transcript of these is the one that was pinned before.
  abbrev IsGone : List (ℕ × Transcript) → Type 0
  IsGone files_seen =
      (b : Text) → contains b (map (λ e. e.1.stem) files_seen) ≡ true → is_path before b ≡ false

  -- What the loop over the candidates leaves.
  abbrev IsTaken : Resolver → Option Text × Resolver → Type 0
  IsTaken r (none, r') = (r'.pinned ≡ r.pinned) × (r'.known_at_pin ≡ r.known_at_pin)
  IsTaken r (some a, r') =
      (r'.pinned ≡ some a) × (is_path before a ≡ false) × (r'.known_at_pin ≡ r'.candidates)

  judge_same :
      (p : Transcript) (r : Resolver) (verdict : Option Bool)
      → ((judge p r verdict).1.pinned ≡ r.pinned)
        × ((judge p r verdict).1.known_at_pin ≡ r.known_at_pin)
  judge_same p r none = (refl, refl)
  judge_same p r (some verdict) = (refl, refl)

  IsTaken-same :
      (r r' : Resolver) (taken : Option Text × Resolver)
      → r'.pinned ≡ r.pinned
      → r'.known_at_pin ≡ r.known_at_pin
      → IsTaken r' taken
      → IsTaken r taken
  IsTaken-same r r' (none, t) e k h = (h.0 ∙ e, h.1 ∙ k)
  IsTaken-same r r' (some a, t) e k h = h

  is_held-free :
      (stem : Text) (r : Resolver)
      → r.pinned ≡ before
      → is_held stem r ≡ false
      → is_path before stem ≡ false
  is_held-free stem r e free = ap (λ o. is_path o stem) (sym e) ∙ ground (arith, free)

  take_first-IsTaken :
      (paths : List (ℕ × Transcript)) (r : Resolver)
      → (r.pinned ≡ before) ⊎ All (λ e. is_path before e.1.stem ≡ false) paths
      → IsTaken r (take_first paths r)
  unfolding take_first is_ours
  take_first-IsTaken [] r h = (refl, refl)
  take_first-IsTaken ((t, p) ∷ paths) r h =
      let probed = (is_ours p r).1 in
      let same = judge_same p r (cached_verdict (r.verdicts p.stem) p.size) in
      if_cases (IsTaken r) (is_held p.stem r) _ _ (λ held. take_first-IsTaken paths r (rest h))
        (λ free.
          if_cases (IsTaken r) (is_ours p r).0 (some p.stem, pin p.stem probed) _
            (λ ours. (refl, here free h, refl))
            (λ other.
              IsTaken-same r probed _ same.0 same.1
                (take_first-IsTaken paths probed (on_probed probed same.0 (rest h)))))
    where
      rest :
          (r.pinned ≡ before)
            ⊎ ((is_path before p.stem ≡ false) × All (λ e. is_path before e.1.stem ≡ false) paths)
          → (r.pinned ≡ before) ⊎ All (λ e. is_path before e.1.stem ≡ false) paths
      rest (inl e) = inl e
      rest (inr all) = inr all.1

      here :
          is_held p.stem r ≡ false
          → (r.pinned ≡ before)
            ⊎ ((is_path before p.stem ≡ false) × All (λ e. is_path before e.1.stem ≡ false) paths)
          → is_path before p.stem ≡ false
      here free (inl e) = is_held-free p.stem r e free
      here free (inr all) = all.0

      on_probed :
          (r' : Resolver)
          → r'.pinned ≡ r.pinned
          → (r.pinned ≡ before) ⊎ All (λ e. is_path before e.1.stem ≡ false) paths
          → (r'.pinned ≡ before) ⊎ All (λ e. is_path before e.1.stem ≡ false) paths
      on_probed r' same (inl e) = inl (same ∙ e)
      on_probed r' same (inr all) = inr all

  module _ (decode : Text → Text) (is_space : ℕ → Bool) where
    move_claim-IsPinned :
        (s : Sight) (r : Resolver) (stem : Text) (files : ClaimFiles)
        → is_path before stem ≡ false
        → IsPinned (move_claim decode is_space s r stem files)
    move_claim-IsPinned s r stem files new =
        let written = write_claim decode is_space s.claim_written s.history_written stem files in
        if_cases IsPinned written.0 _ _ (λ moved. (refl, inr (new, refl))) (λ stays. tt)

    adopt_match-IsPinned :
        (s : Sight) (r : Resolver) (claimed_id : Text) (match : Option Text) (files : ClaimFiles)
        → ((stem : Text) → match ≡ some stem → is_path before stem ≡ false)
        → IsPinned (adopt_match decode is_space s r claimed_id match files)
    adopt_match-IsPinned s r claimed_id none files new = tt
    adopt_match-IsPinned s r claimed_id (some stem) files new =
        let later = s.meanwhile files in
        if_cases IsPinned (not (is_path (read_claim decode is_space later) claimed_id)) _ _
          (λ renamed. tt) (λ same. move_claim-IsPinned s r stem later (new stem refl))

    adopt_after-IsPinned :
        (s : Sight) (r : Resolver) (claimed_id : Text) (mtime : Option ℕ)
        (files_seen : List (ℕ × Transcript)) (files : ClaimFiles)
        → IsGone files_seen
        → IsPinned (adopt_after decode is_space s r claimed_id mtime files_seen files)
    adopt_after-IsPinned s r claimed_id none files_seen files gone = tt
    adopt_after-IsPinned s r claimed_id (some claimed_at) files_seen files gone =
        let fresh = fresh_since claimed_at claimed_id files_seen in
        adopt_match-IsPinned s r claimed_id _ files (λ stem e.
          let matched = only_one-contains _ stem e in
          let split = contains-keep stem (λ i. contains i (proven decode is_space s files)) fresh in
          gone stem (contains-map-keep stem _ files_seen (right_of _ _ (sym split ∙ matched))))
      where
        right_of : (a b : Bool) → (a && b) ≡ true → b ≡ true
        right_of true b h = h
        right_of false b h = absurd (ground (arith, h))

    adopt_named-IsPinned :
        (s : Sight) (r : Resolver) (named : Option Text) (files_seen : List (ℕ × Transcript))
        (files : ClaimFiles)
        → IsGone files_seen
        → IsPinned (adopt_named decode is_space s r named files_seen files)
    adopt_named-IsPinned s r none files_seen files gone = tt
    adopt_named-IsPinned s r (some claimed_id) files_seen files gone =
        if_cases IsPinned (ltb s.now (r.orphan_checked_at + orphan_recheck)) _ _ (λ soon. tt)
          (λ due.
            adopt_after-IsPinned s (record r { orphan_checked_at = s.now }) claimed_id s.claim_mtime
              files_seen files gone)

    warned-IsPinned : (found : Found) → IsPinned found → IsPinned (warned found)
    warned-IsPinned (none, r, files) h = tt
    warned-IsPinned (some path, r, files) h = h

    -- No candidate took the pin: it is the one before, or that is gone.
    keep_pinned-IsPinned :
        (s : Sight) (r : Resolver) (o : Option Text) (files_seen : List (ℕ × Transcript))
        (files : ClaimFiles)
        → r.pinned ≡ o
        → IsBefore r ⊎ ((o ≡ none) × IsGone files_seen)
        → (before ≡ none → IsGone files_seen)
        → IsPinned (keep_pinned decode is_space s r o files_seen files)
    unfolding adopt_orphaned_claim
    keep_pinned-IsPinned s r (some path) files_seen files e (inl h) gone =
        (e, inl (sym h.0 ∙ e, h.1))
    keep_pinned-IsPinned s r (some path) files_seen files e (inr h) gone =
        absurd (ground (arith, h.0))
    keep_pinned-IsPinned s r none files_seen files e h gone =
        let waits = awaiting_named s r r.claimed_session_id in
        if_cases IsPinned waits.0 _ _ (λ soon. tt)
          (λ late.
            warned-IsPinned _ (
              adopt_named-IsPinned s waits.1 waits.1.claimed_session_id files_seen files
                (absent h)))
      where
        absent : IsBefore r ⊎ (Path (Option Text) none none × IsGone files_seen) → IsGone files_seen
        absent (inl b) = gone (sym b.0 ∙ e)
        absent (inr b) = b.1

    found_or_kept-IsPinned :
        (s : Sight) (r : Resolver) (taken : Option Text × Resolver)
        (files_seen : List (ℕ × Transcript)) (files : ClaimFiles)
        → IsTaken r taken
        → IsBefore r ⊎ ((r.pinned ≡ none) × IsGone files_seen)
        → (before ≡ none → IsGone files_seen)
        → IsPinned (found_or_kept decode is_space s taken files_seen files)
    found_or_kept-IsPinned s r (some path, r') files_seen files taken h gone =
        (taken.0, inr (taken.1, taken.2))
    found_or_kept-IsPinned s r (none, r') files_seen files taken h gone =
        keep_pinned-IsPinned s r' r'.pinned files_seen files refl (moved h) gone
      where
        moved :
            IsBefore r ⊎ ((r.pinned ≡ none) × IsGone files_seen)
            → IsBefore r' ⊎ ((r'.pinned ≡ none) × IsGone files_seen)
        moved (inl b) = inl (taken.0 ∙ b.0, taken.1 ∙ b.1)
        moved (inr b) = inr (taken.0 ∙ b.0, b.1)

  drop_unless-IsBefore :
      (files_seen : List (ℕ × Transcript)) (o : Option Text) (r : Resolver)
      → r.pinned ≡ o
      → IsBefore r
      → let dropped = drop_unless (map (λ e. e.1.stem) files_seen) o r in
        IsBefore dropped ⊎ ((dropped.pinned ≡ none) × IsGone files_seen)
  drop_unless-IsBefore files_seen none r e h = inl h
  drop_unless-IsBefore files_seen (some x) r e h =
      let names : List Text = map (λ e. e.1.stem) files_seen in
      if_cases (λ z. IsBefore z ⊎ ((z.pinned ≡ none) × IsGone files_seen)) (contains x names) r
        (record r { pinned = none }) (λ lives. inl h)
        (λ dead. inr (refl, λ b here. ap (λ z. is_path z b) (sym h.0 ∙ e) ∙ differs dead b here))
    where
      differs :
          contains x (map (λ e. e.1.stem) files_seen) ≡ false
          → (b : Text) → contains b (map (λ e. e.1.stem) files_seen) ≡ true
          → (x == b) ≡ false
      differs dead b here = elim (Bool-cases (x == b)) [
        | inr other ↦ other
        | inl same ↦
            let at_b =
              subst (λ z. contains z (map (λ e. e.1.stem) files_seen) ≡ false)
                ((text_key.same_iff x b).0 same) dead in
            absurd (ground (arith, sym at_b ∙ here))
      ]

  module _ (decode : Text → Text) (is_space : ℕ → Bool) where
    choose_candidate-IsPinned :
        (s : Sight) (r : Resolver) (files : ClaimFiles)
        → IsBefore r
        → IsPinned (choose_candidate decode is_space s r files)
    unfolding choose_candidate
    choose_candidate-IsPinned s r files h =
        let files_seen = stats s r in
        let alive = drop_unless (map (λ e. e.1.stem) files_seen) r.pinned r in
        let dropped = drop_unless-IsBefore files_seen r.pinned r refl h in
        found_or_kept-IsPinned decode is_space s alive (take_first (reversed files_seen) alive)
          files_seen files
          (take_first-IsTaken (reversed files_seen) alive (pinned_or_gone files_seen alive dropped))
          dropped (λ e b here. ap (λ o. is_path o b) e)
      where
        pinned_or_gone :
            (xs : List (ℕ × Transcript)) (z : Resolver)
            → IsBefore z ⊎ ((z.pinned ≡ none) × IsGone xs)
            → (z.pinned ≡ before) ⊎ All (λ e. is_path before e.1.stem ≡ false) (reversed xs)
        pinned_or_gone xs z (inl b) = inl b.0
        pinned_or_gone xs z (inr b) = inr (
            All-reversed (λ e. is_path before e.1.stem ≡ false) xs
              (All-contains (λ b. is_path before b ≡ false) xs b.1))

    search_at-IsPinned :
        (s : Sight) (r : Resolver) (mtime : Option ℕ) (files : ClaimFiles)
        → IsBefore r
        → IsPinned (search_at decode is_space s r mtime files)
    search_at-IsPinned s r none files h = tt
    search_at-IsPinned s r (some mtime) files h =
        if_cases IsPinned (not (listing_is_stale r mtime)) _ _
          (λ fresh. choose_candidate-IsPinned s r files h)
          (λ stale.
            if_cases IsPinned s.dir.listing_fails (r.pinned, r, files) _
              (λ failed. kept-IsPin r.pinned r (sym h.0) h)
              (λ listed. choose_candidate-IsPinned s (prune (relisted s mtime r)) files h))

  module _ (decode : Text → Text) (is_space : ℕ → Bool) (load : Text → Option Json)
      (parse_time : Text → Option ℕ) where
    clears_from-IsBefore :
        (s : Sight) (r : Resolver) (claimed_id : Text) (found : Option Transcript)
        → IsBefore r
        → IsBefore (clears_from load parse_time s claimed_id found r)
    clears_from-IsBefore s r claimed_id none h = h
    clears_from-IsBefore s r claimed_id (some claimed) h =
        if_cases IsBefore (not (is_some claimed.mtime)) _ _ (λ gone. h) (λ timed. h)

    move_to_successor-IsBefore :
        (s : Sight) (r : Resolver) (successor : Option Text) (files : ClaimFiles)
        → IsBefore r
        → IsBefore (move_to_successor decode is_space s r successor files).1
    move_to_successor-IsBefore s r none files h = h
    move_to_successor-IsBefore s r (some id) files h =
        let written = write_claim decode is_space s.claim_written s.history_written id files in
        if_cases {A = Found} (λ f. IsBefore f.1) written.0 _ _ (λ moved. h) (λ stays. h)

    successor_at-IsBefore :
        (s : Sight) (r : Resolver) (claimed_id : Text) (mtime : Option ℕ) (files : ClaimFiles)
        → IsBefore r
        → IsBefore (successor_at decode is_space load parse_time s r claimed_id mtime files).1
    successor_at-IsBefore s r claimed_id none files h = h
    successor_at-IsBefore s r claimed_id (some mtime) files h =
        if_cases {A = Found} (λ f. IsBefore f.1)
          (not (listing_is_stale r mtime) || s.dir.listing_fails) _ _ (λ idle. h)
          (λ changed. move_to_successor-IsBefore s _ _ files (
            clears_from-IsBefore s (relisted s mtime r) claimed_id
              (find_transcript claimed_id s.dir.transcripts) h))

    resolve_from-IsPinned :
        (s : Sight) (r : Resolver) (claimed : Option Transcript) (files : ClaimFiles)
        → IsBefore r
        → IsPinned (resolve_from decode is_space load parse_time s r claimed files)
    unfolding find_successor search_dir
    resolve_from-IsPinned s r none files h =
        search_at-IsPinned decode is_space s r s.dir_mtime files h
    resolve_from-IsPinned s r (some path) files h =
        follow_claimed-IsPinned path.stem _
          (successor_at-IsBefore s r path.stem s.dir_mtime files h)

    -- What any poll does to the pin.
    pub resolve-IsPinned :
        (s : Sight) (r : Resolver) (files : ClaimFiles)
        → IsBefore r
        → IsPinned (resolve decode is_space load parse_time s r files)
    unfolding resolve
    resolve-IsPinned s r files h =
        resolve_from-IsPinned s (record r { claimed_session_id = read_claim decode is_space files })
          _ files h
