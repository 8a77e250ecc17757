-- ===== src/Resolver/Never.antt =====
-- The polls of a mirror and the transcripts that they never return (c_lord/transcript/resolver.py,
-- `resolve` and the rule of the claimed transcript).
use c_lord.Prelude.Texts.{Text, text_key}
use c_lord.Prelude.Ranked.{In}
use c_lord.Prelude.{
  ℕ, Bool, true, false, not, ◌&&◌, ◌||◌, inl, inr, Bool-cases, Option, none, some, is_some, List,
  [], ◌∷◌, ◌≡◌, refl, sym, subst, All, ◌==◌, if_cases, arith, nat_key,
}
use c_lord.Claims.{is_session_id, ClaimFiles, read_claim, write_claim}
use c_lord.Claims.Successor.{Transcript, Json}
use c_lord.Claims.Choice.{ProjectDir, find_transcript, claimed_transcript, clear_successor}
use c_lord.Claims.Takeover.{clear_successor-probed, claimed_transcript_claim}
use c_lord.Resolver.{
  Sight, Resolver, new_resolver, is_path, store, cached_at, listing_is_stale, relisted,
}
use c_lord.Resolver.Clean.{IsClean, says_cleared}
use c_lord.Resolver.Poll.{
  Found, probe_cleared, remember_clears, clears_from, with_clears, move_to_successor, successor_at,
  find_successor, pin_claimed, follow_claimed, resolve_from, resolve,
}
use c_lord.Resolver.Strangers.{IsStranger, IsAway, IsAway-search_dir}

module _ (decode : Text → Text) (is_space : ℕ → Bool) (load : Text → Option Json)
    (parse_time : Text → Option ℕ) (x : Text) where
  cached_at-clean :
      (known : Option (ℕ × Option ℕ)) (size : ℕ) (at : Option ℕ)
      → says_cleared known ≡ false
      → at ≡ none
      → cached_at known size at ≡ none
  cached_at-clean none size at h k = k
  cached_at-clean (some (n, none)) size at h k = ground (arith, k)
  cached_at-clean (some (n, some t)) size at h k = absurd (ground (arith, h))

  -- The probe tells of no `/clear` in `x`.
  probe_cleared-clean :
      (s : Sight) (r : Resolver) (files : ClaimFiles) (p : Transcript)
      → IsStranger decode is_space load parse_time x s files
      → IsClean x r
      → In p s.dir.transcripts
      → (p.stem == x) ≡ true
      → probe_cleared load parse_time r p ≡ none
  probe_cleared-clean s r files p stranger h i same =
      let here : says_cleared (r.clear_times p.stem) ≡ false =
        subst (λ y. says_cleared (r.clear_times y) ≡ false)
          (sym ((text_key.same_iff p.stem x).0 same)) h.2 in
      if_cases (λ o. o ≡ none) (is_some p.mtime) _ _
        (λ timed.
          cached_at-clean (r.clear_times p.stem) p.size _ here (stranger.uncleared p i same))
        (λ gone. refl)

  store_clear-clean :
      (stem : Text) (size : ℕ) (at : Option ℕ) (cache : Text → Option (ℕ × Option ℕ))
      → ((stem == x) ≡ true → at ≡ none)
      → says_cleared (cache x) ≡ false
      → says_cleared (store stem (size, at) cache x) ≡ false
  store_clear-clean stem size at cache h k =
      if_cases (λ v. says_cleared v ≡ false) (x == stem) (some (size, at)) (cache x)
        (λ same.
          let e : (stem == x) ≡ true =
            ground (arith, same, text_key.same_iff x stem, text_key.same_iff stem x) in
          rw (h e) refl)
        (λ other. k)

  remember_clears-clean :
      (claimed_id : Text) (paths : List Transcript) (r : Resolver)
      (cache : Text → Option (ℕ × Option ℕ))
      → ((p : Transcript)
          → In p paths
          → (p.stem == x) ≡ true
          → probe_cleared load parse_time r p ≡ none)
      → says_cleared (cache x) ≡ false
      → says_cleared (remember_clears load parse_time claimed_id paths r cache x) ≡ false
  remember_clears-clean claimed_id [] r cache f h = h
  remember_clears-clean claimed_id (p ∷ paths) r cache f h =
      let rest = remember_clears load parse_time claimed_id paths r cache in
      let clean = remember_clears-clean claimed_id paths r cache (λ q i. f q (inr i)) h in
      if_cases {A = Text → Option (ℕ × Option ℕ)} (λ c. says_cleared (c x) ≡ false)
        (is_session_id p.stem && not (p.stem == claimed_id) && is_some p.mtime)
        (store p.stem (p.size, probe_cleared load parse_time r p) rest) rest
        (λ probed.
          store_clear-clean p.stem p.size (probe_cleared load parse_time r p) rest (f p (inl refl))
            clean)
        (λ skipped. clean)

  clears_from-IsClean :
      (s : Sight) (r : Resolver) (files : ClaimFiles) (claimed_id : Text)
      (found : Option Transcript)
      → IsStranger decode is_space load parse_time x s files
      → IsClean x r
      → IsClean x (clears_from load parse_time s claimed_id found r)
  clears_from-IsClean s r files claimed_id none stranger h = h
  clears_from-IsClean s r files claimed_id (some claimed) stranger h =
      if_cases (IsClean x) (not (is_some claimed.mtime)) _ _ (λ gone. h)
        (λ timed. (
          h.0,
          h.1,
          remember_clears-clean claimed_id s.dir.transcripts r r.clear_times
              (λ p i same. probe_cleared-clean s r files p stranger h i same) h.2,
        ))

  IsAway-move_to_successor :
      (s : Sight) (r : Resolver) (successor : Option Text) (files : ClaimFiles)
      → is_path successor x ≡ false
      → IsClean x r
      → IsAway decode is_space load parse_time x
          (move_to_successor decode is_space s r successor files)
  IsAway-move_to_successor s r none files other h = (refl, h)
  IsAway-move_to_successor s r (some id) files other h =
      let written = write_claim decode is_space s.claim_written s.history_written id files in
      if_cases (IsAway decode is_space load parse_time x) written.0 _ _ (λ moved. (other, h))
        (λ stays. (refl, h))

  successor-differs :
      (s : Sight) (r : Resolver) (claimed_id : Text) (files : ClaimFiles) (successor : Option Text)
      → IsStranger decode is_space load parse_time x s files
      → IsClean x r
      → clear_successor load parse_time (probe_cleared load parse_time r) s.dir claimed_id
        ≡ successor
      → is_path successor x ≡ false
  successor-differs s r claimed_id files none stranger h e = refl
  successor-differs s r claimed_id files (some id) stranger h e =
      let (p, at, i, named, known) =
        clear_successor-probed load parse_time _ s.dir claimed_id id e in
      elim (Bool-cases (id == x)) [
        | inr other ↦ other
        | inl same ↦
            let unknown = probe_cleared-clean s r files p stranger h i (rw named same) in
            absurd (ground (arith, unknown, known))
      ]

  IsAway-successor_at :
      (s : Sight) (r : Resolver) (claimed_id : Text) (mtime : Option ℕ) (files : ClaimFiles)
      → IsStranger decode is_space load parse_time x s files
      → IsClean x r
      → IsAway decode is_space load parse_time x
          (successor_at decode is_space load parse_time s r claimed_id mtime files)
  IsAway-successor_at s r claimed_id none files stranger h = (refl, h)
  IsAway-successor_at s r claimed_id (some mtime) files stranger h =
      let listed = relisted s mtime r in
      if_cases (IsAway decode is_space load parse_time x)
        (not (listing_is_stale r mtime) || s.dir.listing_fails) _ _ (λ idle. (refl, h))
        (λ changed.
          IsAway-move_to_successor s (with_clears load parse_time s claimed_id listed) _ files
            (successor-differs s listed claimed_id files _ stranger h refl)
            (clears_from-IsClean s listed files claimed_id
              (find_transcript claimed_id s.dir.transcripts) stranger h))

  pin_claimed-IsClean :
      (id : Text) (r : Resolver) → (id == x) ≡ false → IsClean x r → IsClean x (pin_claimed id r)
  pin_claimed-IsClean id r other h =
      if_cases (IsClean x) (is_path r.pinned id) _ _ (λ held. h) (λ moved. (other, h.1, h.2))

  IsAway-follow_claimed :
      (claimed_id : Text) (found : Found)
      → (claimed_id == x) ≡ false
      → IsAway decode is_space load parse_time x found
      → IsAway decode is_space load parse_time x (follow_claimed claimed_id found)
  IsAway-follow_claimed claimed_id (none, r, files) other h =
      (other, pin_claimed-IsClean claimed_id r other h.1)
  IsAway-follow_claimed claimed_id (some id, r, files) other h =
      (h.0, pin_claimed-IsClean id (record r { claimed_session_id = some id }) h.0 h.1)

  claimed_transcript_differs :
      (dir : ProjectDir) (files : ClaimFiles) (path : Transcript)
      → is_path (read_claim decode is_space files) x ≡ false
      → claimed_transcript decode is_space dir files ≡ some path
      → (path.stem == x) ≡ false
  claimed_transcript_differs dir files path h e =
      rw (claimed_transcript_claim decode is_space dir files path e) at h

  IsAway-resolve_from :
      (s : Sight) (r : Resolver) (claimed : Option Transcript) (files : ClaimFiles)
      → claimed_transcript decode is_space s.dir files ≡ claimed
      → IsStranger decode is_space load parse_time x s files
      → IsClean x r
      → IsAway decode is_space load parse_time x
          (resolve_from decode is_space load parse_time s r claimed files)
  unfolding find_successor
  IsAway-resolve_from s r none files e stranger h =
      IsAway-search_dir decode is_space load parse_time x s r files stranger h
  IsAway-resolve_from s r (some path) files e stranger h =
      IsAway-follow_claimed path.stem _
        (claimed_transcript_differs s.dir files path stranger.unclaimed e)
        (IsAway-successor_at s r path.stem s.dir_mtime files stranger h)

  IsAway-resolve :
      (s : Sight) (r : Resolver) (files : ClaimFiles)
      → IsStranger decode is_space load parse_time x s files
      → IsClean x r
      → IsAway decode is_space load parse_time x (resolve decode is_space load parse_time s r files)
  unfolding resolve
  IsAway-resolve s r files stranger h =
      IsAway-resolve_from s (record r { claimed_session_id = read_claim decode is_space files }) _
        files refl stranger h

-- The polls of one mirror, each with the disk it sees and the claim files then; what they return.
abbrev pub resolve_all :
    (Text → Text)
    → (ℕ → Bool)
    → (Text → Option Json)
    → (Text → Option ℕ)
    → List (Sight × ClaimFiles)
    → Resolver
    → List (Option Text)
resolve_all decode is_space load parse_time [] r = []
resolve_all decode is_space load parse_time ((s, files) ∷ polls) r =
    let found = resolve decode is_space load parse_time s r files in
    found.0 ∷ resolve_all decode is_space load parse_time polls found.1

resolve_all-IsClean :
    (decode : Text → Text) (is_space : ℕ → Bool) (load : Text → Option Json)
    (parse_time : Text → Option ℕ) (x : Text) (polls : List (Sight × ClaimFiles)) (r : Resolver)
    → All (λ p. IsStranger decode is_space load parse_time x p.0 p.1) polls
    → IsClean x r
    → All (λ found. is_path found x ≡ false) (resolve_all decode is_space load parse_time polls r)
resolve_all-IsClean decode is_space load parse_time x [] r stranger h = tt
resolve_all-IsClean decode is_space load parse_time x ((s, files) ∷ polls) r stranger h =
    let away = IsAway-resolve decode is_space load parse_time x s r files stranger.0 h in
    (away.0, resolve_all-IsClean decode is_space load parse_time x polls _ stranger.1 away.1)

-- A transcript that at every poll no claim names, that c-lord never claimed and no live interactive claude
-- was started with, that has no mark and opens with no `/clear`, is returned by no poll, whatever else
-- the disk holds, whenever the polls come, and whether the resolver's own writes succeed.
pub resolve_all-IsStranger :
    (decode : Text → Text) (is_space : ℕ → Bool) (load : Text → Option Json)
    (parse_time : Text → Option ℕ) (x : Text) (polls : List (Sight × ClaimFiles))
    → All (λ p. IsStranger decode is_space load parse_time x p.0 p.1) polls
    → All
        (λ found. is_path found x ≡ false)
        (resolve_all decode is_space load parse_time polls new_resolver)
resolve_all-IsStranger decode is_space load parse_time x polls stranger =
    resolve_all-IsClean decode is_space load parse_time x polls new_resolver stranger
      (refl, refl, refl)
