-- ===== src/Resolver/Strangers.antt =====
-- A transcript that is not the thread's is never mirrored (c_lord/transcript/resolver.py, `resolve`).
use c_lord.Prelude.Texts.{Text, text_key, All-append}
use c_lord.Prelude.Ranked.{In, In-sort, All-by_In, All-In}
use c_lord.Prelude.{
  ℕ, Bool, true, false, not, Option, none, some, List, [], ◌∷◌, ◌≡◌, refl, ◌∙◌, All, map, contains,
  nat_key, ltb, leb, ◌+◌, ◌==◌, if_cases, arith, contains-keep,
}
use c_lord.Claims.{ClaimFiles, read_claim, write_claim}
use c_lord.Claims.Successor.{Transcript, Json, cleared_at}
use c_lord.Claims.Choice.{find_transcript}
use c_lord.Claims.Takeover.{find_transcript-In}
use c_lord.TurnEnd.{claim_grace}
use c_lord.Resolver.{
  Sight, Resolver, orphan_recheck, is_path, take_first, stat_of, stats_in, stats, reversed,
  listing_is_stale, relisted,
}
use c_lord.Resolver.Clean.{IsClean, IsUnmarked, says_driven, take_first-IsClean}
use c_lord.Resolver.Poll.{
  Found, fresh_since, only_one, proven, move_claim, adopt_match, adopt_after, adopt_named,
  adopt_orphaned_claim, waiting_since, awaiting_named, keep_pinned, search_at, warned, drop_unless,
  found_or_kept, choose_candidate, prune, search_dir,
}

All-stat_of :
    (P : Transcript → Type 0) (found : Option Transcript) (rest : List (ℕ × Transcript))
    → ((p : Transcript) → found ≡ some p → P p)
    → All (λ e. P e.1) rest
    → All (λ e. P e.1) (stat_of found rest)
All-stat_of P none rest f h = h
All-stat_of P (some p) rest f h = timed p.mtime
  where
    timed :
        (mtime : Option ℕ) → All (λ e. P e.1) (elim mtime [ none ↦ rest | some t ↦ (t, p) ∷ rest ])
    timed none = h
    timed (some t) = (f p refl, h)

All-stats_in :
    (P : Transcript → Type 0) (paths : List Transcript) (names : List Text)
    → ((p : Transcript) → In p paths → P p)
    → All (λ e. P e.1) (stats_in paths names)
All-stats_in P paths [] f = tt
All-stats_in P paths (stem ∷ names) f =
    All-stat_of P (find_transcript stem paths) (stats_in paths names)
      (λ p e. f p (find_transcript-In stem paths p e).0) (All-stats_in P paths names f)

pub All-reversed :
    (P : ℕ × Transcript → Type 0) (xs : List (ℕ × Transcript)) → All P xs → All P (reversed xs)
All-reversed P [] h = tt
All-reversed P (x ∷ xs) h = All-append P (reversed xs) (x ∷ []) (All-reversed P xs h.1) (h.0, tt)

All-stats :
    (P : Transcript → Type 0) (s : Sight) (r : Resolver)
    → ((p : Transcript) → In p s.dir.transcripts → P p)
    → All (λ e. P e.1) (reversed (stats s r))
unfolding stats
All-stats P s r f =
    let listed = All-stats_in P s.dir.transcripts r.candidates f in
    All-reversed (λ e. P e.1) (stats s r)
      (All-by_In (λ e. P e.1) (stats s r) (λ e i. All-In (λ e. P e.1) e _ listed (In-sort e _ i)))

module _ (decode : Text → Text) (is_space : ℕ → Bool) (load : Text → Option Json)
    (parse_time : Text → Option ℕ) (x : Text) where
  -- A transcript that nothing ties to c-lord at this poll: no claim names it, c-lord never claimed it
  -- and no live interactive claude was started with it, it has no mark, and it opens with no `/clear`.
  pub record IsStranger (s : Sight) (files : ClaimFiles) : Type 0 where
    pub unclaimed : is_path (read_claim decode is_space files) x ≡ false
    pub unproven : contains x (proven decode is_space s files) ≡ false
    pub unmarked : (p : Transcript) → In p s.dir.transcripts → IsUnmarked x p
    pub uncleared :
        (p : Transcript)
        → In p s.dir.transcripts
        → (p.stem == x) ≡ true
        → cleared_at load parse_time p ≡ none

  -- A result that is not `x`, and what the resolver knows afterwards.
  abbrev pub IsAway : Found → Type 0
  IsAway found = (is_path found.0 x ≡ false) × IsClean x found.1

  drop_unless-IsClean :
      (alive : List Text) (pinned : Option Text) (r : Resolver)
      → IsClean x r
      → IsClean x (drop_unless alive pinned r)
  drop_unless-IsClean alive none r h = h
  drop_unless-IsClean alive (some path) r h =
      if_cases (IsClean x) (contains path alive) _ _ (λ lives. h) (λ dead. (refl, h.1, h.2))

  IsAway-move_claim :
      (s : Sight) (r : Resolver) (stem : Text) (files : ClaimFiles)
      → (stem == x) ≡ false
      → IsClean x r
      → IsAway (move_claim decode is_space s r stem files)
  IsAway-move_claim s r stem files other h =
      let written = write_claim decode is_space s.claim_written s.history_written stem files in
      if_cases IsAway written.0 _ _ (λ moved. (other, (other, h.1, h.2))) (λ stays. (refl, h))

  IsAway-adopt_match :
      (s : Sight) (r : Resolver) (claimed_id : Text) (match : Option Text) (files : ClaimFiles)
      → is_path match x ≡ false
      → IsClean x r
      → IsAway (adopt_match decode is_space s r claimed_id match files)
  IsAway-adopt_match s r claimed_id none files other h = (refl, h)
  IsAway-adopt_match s r claimed_id (some stem) files other h =
      let later = s.meanwhile files in
      if_cases IsAway (not (is_path (read_claim decode is_space later) claimed_id)) _ _
        (λ renamed. (refl, h)) (λ same. IsAway-move_claim s r stem later other h)

  is_path-only_one :
      (names : List Text) → contains x names ≡ false → is_path (only_one names) x ≡ false
  is_path-only_one [] h = refl
  is_path-only_one (stem ∷ []) h = ground (arith, h)
  is_path-only_one (stem ∷ next_stem ∷ names) h = refl

  IsAway-adopt_after :
      (s : Sight) (r : Resolver) (claimed_id : Text) (mtime : Option ℕ)
      (files_seen : List (ℕ × Transcript)) (files : ClaimFiles)
      → IsStranger s files
      → IsClean x r
      → IsAway (adopt_after decode is_space s r claimed_id mtime files_seen files)
  IsAway-adopt_after s r claimed_id none files_seen files stranger h = (refl, h)
  IsAway-adopt_after s r claimed_id (some claimed_at) files_seen files stranger h =
      IsAway-adopt_match s r claimed_id _ files
        (is_path-only_one _ (
          contains-keep x (λ i. contains i (proven decode is_space s files))
            (fresh_since claimed_at claimed_id files_seen)
          ∙ rw stranger.unproven refl))
        h

  IsAway-adopt_named :
      (s : Sight) (r : Resolver) (named : Option Text) (files_seen : List (ℕ × Transcript))
      (files : ClaimFiles)
      → IsStranger s files
      → IsClean x r
      → IsAway (adopt_named decode is_space s r named files_seen files)
  IsAway-adopt_named s r none files_seen files stranger h = (refl, h)
  IsAway-adopt_named s r (some claimed_id) files_seen files stranger h =
      if_cases IsAway (ltb s.now (r.orphan_checked_at + orphan_recheck)) _ _ (λ soon. (refl, h))
        (λ due.
          IsAway-adopt_after s (record r { orphan_checked_at = s.now }) claimed_id s.claim_mtime
            files_seen files stranger h)

  IsAway-warned : (found : Found) → IsAway found → IsAway (warned found)
  IsAway-warned (none, r, files) h = h
  IsAway-warned (some path, r, files) h = h

  waiting_since-IsClean :
      (s : Sight) (r : Resolver) (id : Text) (mtime : Option ℕ)
      → IsClean x r
      → IsClean x (waiting_since s r id mtime).1
  waiting_since-IsClean s r id none h = h
  waiting_since-IsClean s r id (some mtime) h =
      if_cases {A = Bool × Resolver} (λ w. IsClean x w.1) (leb (mtime + claim_grace) s.now) _ _
        (λ late. h) (λ soon. h)

  awaiting_named-IsClean :
      (s : Sight) (r : Resolver) (named : Option Text)
      → IsClean x r
      → IsClean x (awaiting_named s r named).1
  awaiting_named-IsClean s r none h = h
  awaiting_named-IsClean s r (some id) h = waiting_since-IsClean s r id s.claim_mtime h

  IsAway-keep_pinned :
      (s : Sight) (r : Resolver) (pinned : Option Text) (files_seen : List (ℕ × Transcript))
      (files : ClaimFiles)
      → IsStranger s files
      → is_path pinned x ≡ false
      → IsClean x r
      → IsAway (keep_pinned decode is_space s r pinned files_seen files)
  unfolding adopt_orphaned_claim
  IsAway-keep_pinned s r (some path) files_seen files stranger other h = (other, h)
  IsAway-keep_pinned s r none files_seen files stranger other h =
      let waits = awaiting_named s r r.claimed_session_id in
      let clean = awaiting_named-IsClean s r r.claimed_session_id h in
      if_cases IsAway waits.0 _ _ (λ soon. (refl, clean))
        (λ late.
          IsAway-warned _ (
            IsAway-adopt_named s waits.1 waits.1.claimed_session_id files_seen files stranger
              clean))

  IsAway-found_or_kept :
      (s : Sight) (taken : Option Text × Resolver) (files_seen : List (ℕ × Transcript))
      (files : ClaimFiles)
      → IsStranger s files
      → is_path taken.0 x ≡ false
      → IsClean x taken.1
      → IsAway (found_or_kept decode is_space s taken files_seen files)
  IsAway-found_or_kept s (some path, r) files_seen files stranger other h = (other, h)
  IsAway-found_or_kept s (none, r) files_seen files stranger other h =
      IsAway-keep_pinned s r r.pinned files_seen files stranger h.0 h

  IsAway-choose_candidate :
      (s : Sight) (r : Resolver) (files : ClaimFiles)
      → IsStranger s files
      → IsClean x r
      → IsAway (choose_candidate decode is_space s r files)
  unfolding choose_candidate
  IsAway-choose_candidate s r files stranger h =
      let files_seen = stats s r in
      let alive = drop_unless (map (λ e. e.1.stem) files_seen) r.pinned r in
      let (clean, other) =
        take_first-IsClean x (reversed files_seen) alive
          (All-stats (IsUnmarked x) s r stranger.unmarked) (drop_unless-IsClean _ r.pinned r h) in
      IsAway-found_or_kept s (take_first (reversed files_seen) alive) files_seen files stranger
        other clean

  prune-IsClean : (r : Resolver) → IsClean x r → IsClean x (prune r)
  prune-IsClean r h = (
    h.0,
    if_cases (λ v. says_driven v ≡ false) (contains x r.candidates) _ _ (λ live. h.1)
        (λ dead. refl),
    h.2,
  )

  IsAway-search_at :
      (s : Sight) (r : Resolver) (mtime : Option ℕ) (files : ClaimFiles)
      → IsStranger s files
      → IsClean x r
      → IsAway (search_at decode is_space s r mtime files)
  IsAway-search_at s r none files stranger h = (refl, h)
  IsAway-search_at s r (some mtime) files stranger h =
      if_cases IsAway (not (listing_is_stale r mtime)) _ _
        (λ fresh. IsAway-choose_candidate s r files stranger h)
        (λ stale.
          if_cases IsAway s.dir.listing_fails _ _ (λ failed. (h.0, h))
            (λ listed.
              IsAway-choose_candidate s (prune (relisted s mtime r)) files stranger
                (prune-IsClean (relisted s mtime r) h)))

  pub IsAway-search_dir :
      (s : Sight) (r : Resolver) (files : ClaimFiles)
      → IsStranger s files
      → IsClean x r
      → IsAway (search_dir decode is_space s r files)
  unfolding search_dir
  IsAway-search_dir s r files stranger h = IsAway-search_at s r s.dir_mtime files stranger h
