-- ===== src/Resolver/Pin.antt =====
-- The pin and what may take it over (c_lord/transcript/resolver.py, the search of the directory).
use c_lord.Prelude.Texts.{Text, text_key}
use c_lord.Prelude.{
  ℕ, Bool, true, false, not, ◌&&◌, ◌||◌, ◌⊎◌, inl, inr, Option, none, some, List, [], ◌∷◌, ◌≡◌, ◌≢◌,
  All, refl, ap, sym, subst, ◌∙◌, map, contains, ◌==◌, if_cases, if◌then◌else◌, arith, nat_key,
}
use c_lord.Prelude.Ranked.{sort}
use c_lord.Claims.{ClaimFiles, read_claim}
use c_lord.Claims.Successor.{Transcript, Json}
use c_lord.Claims.Choice.{claimed_transcript}
use c_lord.Resolver.{
  Sight, Resolver, is_path, is_ours, judge, cached_verdict, is_held, pin, take_first, stats,
  stats_in, stems, reversed, listing_is_stale, relisted,
}
use c_lord.Resolver.Poll.{
  Found, drop_unless, found_or_kept, keep_pinned, choose_candidate, prune, search_at, search_dir,
  resolve_from, resolve,
}
use c_lord.Resolver.Never.{resolve_all}
use c_lord.Resolver.Repin.{IsBefore, IsPin, resolve-IsPinned}

-- What the loop over the candidates may come to while `a` is pinned: the pin stays, or a path takes it
-- over that was not there when `a` was pinned.
abbrev IsTaken : Text → List Text → Option Text × Resolver → Type 0
IsTaken a known (none, r) = r.pinned ≡ some a
IsTaken a known (some path, r) = (path == a ≡ false) × (contains path known ≡ false)

judge_pin :
    (p : Transcript) (r : Resolver) (known : Option Bool)
    → ((judge p r known).1.pinned ≡ r.pinned) × ((judge p r known).1.known_at_pin ≡ r.known_at_pin)
judge_pin p r none = (refl, refl)
judge_pin p r (some verdict) = (refl, refl)

is_held-free :
    (a stem : Text) (r : Resolver)
    → r.pinned ≡ some a
    → is_held stem r ≡ false
    → (stem == a ≡ false) × (contains stem r.known_at_pin ≡ false)
is_held-free a stem r h free =
    let k : (a == stem || (true && contains stem r.known_at_pin)) ≡ false =
      rw (is_held, h) at free in
    ground (arith, k, text_key.same_iff a stem, text_key.same_iff stem a)

take_first-IsTaken :
    (a : Text) (paths : List (ℕ × Transcript)) (r : Resolver)
    → r.pinned ≡ some a
    → IsTaken a r.known_at_pin (take_first paths r)
unfolding take_first is_ours
take_first-IsTaken a [] r h = h
take_first-IsTaken a ((t, p) ∷ paths) r h =
    let probed = (is_ours p r).1 in
    let same = judge_pin p r (cached_verdict (r.verdicts p.stem) p.size) in
    if_cases (IsTaken a r.known_at_pin) (is_held p.stem r) _ _
      (λ held. take_first-IsTaken a paths r h)
      (λ free.
        if_cases (IsTaken a r.known_at_pin) (is_ours p r).0 (some p.stem, pin p.stem probed) _
          (λ ours. is_held-free a p.stem r h free)
          (λ other.
            subst (λ known. IsTaken a known (take_first paths probed)) same.1
              (take_first-IsTaken a paths probed (same.0 ∙ h))))

-- The result while `a` is pinned: `a`, or a path that was not there when `a` was pinned.
abbrev pub IsSuccession : Text → List Text → Option Text → Type 0
IsSuccession a known none = ⊥
IsSuccession a known (some path) = (path ≡ a) ⊎ ((path ≢ a) × (contains path known ≡ false))

module _ (decode : Text → Text) (is_space : ℕ → Bool) (a : Text) (known : List Text) where
  found_or_kept-IsSuccession :
      (s : Sight) (taken : Option Text × Resolver) (files_seen : List (ℕ × Transcript))
      (files : ClaimFiles)
      → IsTaken a known taken
      → IsSuccession a known (found_or_kept decode is_space s taken files_seen files).0
  found_or_kept-IsSuccession s (none, r) files_seen files h =
      subst
        (λ pinned. IsSuccession a known (keep_pinned decode is_space s r pinned files_seen files).0)
        (sym h) (inl refl)
  found_or_kept-IsSuccession s (some path, r) files_seen files (other, new) =
      inr (λ e. absurd (ground (arith, other, e, text_key.same_iff path a)), new)

choose_candidate-IsSuccession :
    (decode : Text → Text) (is_space : ℕ → Bool) (s : Sight) (r : Resolver) (files : ClaimFiles)
    (a : Text)
    → r.pinned ≡ some a
    → contains a (map (λ e. e.1.stem) (stats s r)) ≡ true
    → IsSuccession a r.known_at_pin (choose_candidate decode is_space s r files).0
unfolding choose_candidate
choose_candidate-IsSuccession decode is_space s r files a pinned alive =
    let lives : drop_unless (map (λ e. e.1.stem) (stats s r)) r.pinned r ≡ r =
      ap (λ o. drop_unless (map (λ e. e.1.stem) (stats s r)) o r) pinned ∙ rw alive refl in
    subst
      (λ z.
        IsSuccession a r.known_at_pin
          (found_or_kept decode is_space s (take_first (reversed (stats s r)) z) (stats s r)
            files).0)
      (sym lives)
      (found_or_kept-IsSuccession decode is_space a r.known_at_pin s _ (stats s r) files
        (take_first-IsTaken a (reversed (stats s r)) r pinned))

-- The resolver after some polls.
abbrev pub resolver_after :
    (Text → Text)
    → (ℕ → Bool)
    → (Text → Option Json)
    → (Text → Option ℕ)
    → List (Sight × ClaimFiles)
    → Resolver
    → Resolver
resolver_after decode is_space load parse_time [] r = r
resolver_after decode is_space load parse_time ((s, files) ∷ polls) r =
    resolver_after decode is_space load parse_time polls
      (resolve decode is_space load parse_time s r files).1

-- The resolver whose candidates a search goes through: the directory is listed again if it is stale.
abbrev pub listed_for : Sight → ℕ → Resolver → Resolver
listed_for s mtime r = record r {
  candidates = if listing_is_stale r mtime then stems s.dir.transcripts else r.candidates;
}

is_path_self : (a : Text) → is_path (some a) a ≡ true
is_path_self a = (text_key.same_iff a a).1 refl

module _ (decode : Text → Text) (is_space : ℕ → Bool) (load : Text → Option Json)
    (parse_time : Text → Option ℕ) where
  pinned_by :
      (s : Sight) (r : Resolver) (files : ClaimFiles) (a : Text)
      → is_path r.pinned a ≡ false
      → (resolve decode is_space load parse_time s r files).0 ≡ some a
      → let after = (resolve decode is_space load parse_time s r files).1 in
        IsBefore (some a) after.candidates after
  pinned_by s r files a new result =
      let after = (resolve decode is_space load parse_time s r files).1 in
      let pin =
        subst (λ o. IsPin r.pinned r.known_at_pin o after) result
          (resolve-IsPinned r.pinned r.known_at_pin decode is_space load parse_time s r files
            (refl, refl)) in
      elim pin.1 [
        | inr (fresh, known) ↦ (pin.0, known)
        | inl (held, known) ↦
            let self = ap (λ o. is_path o a) held ∙ is_path_self a in
            absurd (ground (arith, sym new ∙ self))
      ]

  pinned_stays :
      (a : Text) (known : List Text) (polls : List (Sight × ClaimFiles)) (r : Resolver)
      → IsBefore (some a) known r
      → All (λ found. found ≡ some a) (resolve_all decode is_space load parse_time polls r)
      → IsBefore (some a) known (resolver_after decode is_space load parse_time polls r)
  pinned_stays a known [] r h results = h
  pinned_stays a known ((s, files) ∷ polls) r h results =
      let after = (resolve decode is_space load parse_time s r files).1 in
      let pin =
        subst (λ o. IsPin (some a) known o after) results.0
          (resolve-IsPinned (some a) known decode is_space load parse_time s r files h) in
      pinned_stays a known polls after
        (
          pin.0,
          elim pin.1 [
            | inl (held, same) ↦ same
            | inr (fresh, same) ↦ absurd (ground (arith, sym (is_path_self a) ∙ fresh))
          ],
        )
        results.1

  search-IsSuccession :
      (s : Sight) (r : Resolver) (files : ClaimFiles) (a : Text) (mtime : ℕ)
      → r.pinned ≡ some a
      → s.dir.listing_fails ≡ false
      → contains a (map (λ e. e.1.stem) (stats s (listed_for s mtime r))) ≡ true
      → IsSuccession a r.known_at_pin (search_at decode is_space s r (some mtime) files).0
  unfolding stats
  search-IsSuccession s r files a mtime pinned listed alive =
      if_cases {A = Found} (λ f. IsSuccession a r.known_at_pin f.0) (not (listing_is_stale r mtime))
        _ _
        (λ fresh.
          let here : listing_is_stale r mtime ≡ false = ground (arith, fresh) in
          choose_candidate-IsSuccession decode is_space s r files a pinned (searched here alive))
        (λ stale.
          let here : listing_is_stale r mtime ≡ true = ground (arith, stale) in
          if_cases {A = Found} (λ f. IsSuccession a r.known_at_pin f.0) s.dir.listing_fails
            (r.pinned, r, files) _ (λ failed. absurd (ground (arith, sym listed ∙ failed)))
            (λ lists.
              choose_candidate-IsSuccession decode is_space s (prune (relisted s mtime r)) files a
                pinned (searched here alive)))
    where
      searched :
          {stale : Bool}
          → listing_is_stale r mtime ≡ stale
          → contains a (map (λ e. e.1.stem) (stats s (listed_for s mtime r))) ≡ true
          → contains a (
              map
                (λ e. e.1.stem)
                (sort (
                  stats_in s.dir.transcripts
                    (if stale then stems s.dir.transcripts else r.candidates))))
            ≡ true
      searched e h =
          subst
            (λ b.
              contains a (
                map (λ e. e.1.stem)
                  (sort (
                    stats_in s.dir.transcripts
                      (if b then stems s.dir.transcripts else r.candidates))))
              ≡ true)
            e h

  -- A poll has pinned a path that was not pinned before, and the polls since then have returned it. If
  -- then no claimed transcript is there, the directory can be read, and the pinned file is still among the
  -- candidates, the next poll returns a path, and it is the pinned one or one that was not among the
  -- candidates of the listing when that was pinned, whatever the modification times are.
  pub resolve-IsSuccession :
      (s0 : Sight) (r0 : Resolver) (files0 : ClaimFiles) (a : Text)
      (polls : List (Sight × ClaimFiles)) (s : Sight) (files : ClaimFiles) (mtime : ℕ)
      → is_path r0.pinned a ≡ false
      → (resolve decode is_space load parse_time s0 r0 files0).0 ≡ some a
      → let r1 = (resolve decode is_space load parse_time s0 r0 files0).1 in
        let r = resolver_after decode is_space load parse_time polls r1 in
        All (λ found. found ≡ some a) (resolve_all decode is_space load parse_time polls r1)
        → claimed_transcript decode is_space s.dir files ≡ none
        → s.dir_mtime ≡ some mtime
        → s.dir.listing_fails ≡ false
        → contains a (map (λ e. e.1.stem) (stats s (listed_for s mtime r))) ≡ true
        → IsSuccession a r1.candidates (resolve decode is_space load parse_time s r files).0
  unfolding resolve search_dir stats
  resolve-IsSuccession s0 r0 files0 a polls s files mtime new result results unclaimed at listed
        alive =
      let r1 = (resolve decode is_space load parse_time s0 r0 files0).1 in
      let r = resolver_after decode is_space load parse_time polls r1 in
      let (pinned, known) =
        pinned_stays a r1.candidates polls r1 (pinned_by s0 r0 files0 a new result) results in
      let told : Resolver = record r { claimed_session_id = read_claim decode is_space files } in
      let found = search-IsSuccession s told files a mtime pinned listed alive in
      let stepped : resolve_from decode is_space load parse_time s told
            (claimed_transcript decode is_space s.dir files) files
          ≡ search_at decode is_space s told (some mtime) files =
        ap (λ c. resolve_from decode is_space load parse_time s told c files) unclaimed
        ∙ ap (λ m. search_at decode is_space s told m files) at in
      subst (λ k. IsSuccession a k (resolve decode is_space load parse_time s r files).0) known
        (subst (λ (f : Found). IsSuccession a r.known_at_pin f.0) (sym stepped) found)
