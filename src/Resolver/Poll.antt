-- ===== src/Resolver/Poll.antt =====
-- One call of `resolve` (c_lord/transcript/resolver.py): the claimed transcript and its successor, the
-- candidates, the grace of a claim, and the orphaned claim. A call gives the path, the resolver's
-- fields, and the claim files.
use c_lord.Prelude.Texts.{Text, text_key}
use c_lord.Prelude.{
  ℕ, ◌+◌, Bool, true, false, not, ◌&&◌, ◌||◌, Option, none, some, List, [], ◌∷◌, ◌++◌, map, keep,
  contains, ltb, leb, is_some, nat_key, ◌==◌, if◌then◌else◌,
}
use c_lord.TurnEnd.{claim_grace}
use c_lord.Claims.{is_session_id, ClaimFiles, read_claim, read_claim_history, write_claim}
use c_lord.Claims.Successor.{Transcript, Json, cleared_at}
use c_lord.Claims.Choice.{find_transcript, claimed_transcript, clear_successor}
use c_lord.Resolver.Live.{live_session_ids}
use c_lord.Resolver.{
  Sight, Resolver, orphan_recheck, is_path, listing_is_stale, relisted, only_live, cached_at, store,
  stats, reversed, pin, take_first,
}

-- What a call leaves: its result, the fields and the claim files.
abbrev pub Found : Type 0
Found = Option Text × Resolver × ClaimFiles

-- `_awaiting_claim`
abbrev pub awaiting_claim : Sight → Resolver → Bool
awaiting_claim s r = elim (r.candidates) [
  | path ∷ paths ↦ false
  | [] ↦ elim (s.dir_mtime) [ none ↦ false | some mtime ↦ ltb s.now (mtime + claim_grace) ]
]

abbrev pub note_waiting : Text → Resolver → Resolver
note_waiting id r = record r { noted_waiting_for = some id }

abbrev pub waiting_since : Sight → Resolver → Text → Option ℕ → Bool × Resolver
waiting_since s r id none = (false, r)
waiting_since s r id (some mtime) =
    if leb (mtime + claim_grace) s.now then (false, r) else (true, note_waiting id r)

abbrev pub awaiting_named : Sight → Resolver → Option Text → Bool × Resolver
awaiting_named s r none = (awaiting_claim s r, r)
awaiting_named s r (some id) = waiting_since s r id s.claim_mtime

-- `_awaiting_claimed_transcript`
abbrev pub awaiting_claimed_transcript : Sight → Resolver → Bool × Resolver
awaiting_claimed_transcript s r = awaiting_named s r r.claimed_session_id

-- The transcripts written since the claim, but for the claimed one.
abbrev pub fresh_since : ℕ → Text → List (ℕ × Transcript) → List Text
fresh_since claimed_at claimed_id files =
    map (λ e. e.1.stem) (keep (λ e. ltb claimed_at e.0 && not (e.1.stem == claimed_id)) files)

-- The only element, if there is one and no other.
abbrev pub only_one : List Text → Option Text
only_one [] = none
only_one (x ∷ []) = some x
only_one (x ∷ y ∷ xs) = none

abbrev pub warned : Found → Found
warned (none, r, files) = (none, record r { warned_none = true }, files)
warned (some path, r, files) = (some path, r, files)

abbrev pub drop_unless : List Text → Option Text → Resolver → Resolver
drop_unless alive none r = r
drop_unless alive (some path) r = if contains path alive then r else record r { pinned = none }

-- The pin is dropped if its transcript was deleted.
abbrev pub drop_dead : List Text → Resolver → Resolver
drop_dead alive r = drop_unless alive r.pinned r

abbrev pub prune : Resolver → Resolver
prune r = record r { verdicts = only_live r.candidates r.verdicts }

abbrev pub pin_claimed : Text → Resolver → Resolver
pin_claimed id r = if is_path r.pinned id then record r { warned_none = false } else pin id r

abbrev pub follow_claimed : Text → Found → Found
follow_claimed claimed_id (none, r, files) = (some claimed_id, pin_claimed claimed_id r, files)
follow_claimed claimed_id (some id, r, files) =
    (some id, pin_claimed id (record r { claimed_session_id = some id }), files)

module _ (decode : Text → Text) (is_space : ℕ → Bool) where
  -- The ids that are provably c-lord's.
  abbrev pub proven : Sight → ClaimFiles → List Text
  proven s files =
      read_claim_history decode is_space files ++ live_session_ids s.realpath s.name s.processes

  abbrev pub move_claim : Sight → Resolver → Text → ClaimFiles → Found
  move_claim s r stem files =
      let (moved, written) =
        write_claim decode is_space s.claim_written s.history_written stem files in
      if moved
      then (some stem, pin stem (record r { claimed_session_id = some stem }), written)
      else (none, r, written)

  -- The end of the orphan rule: the match, and the claim file read once more.
  abbrev pub adopt_match : Sight → Resolver → Text → Option Text → ClaimFiles → Found
  adopt_match s r claimed_id none files = (none, r, files)
  adopt_match s r claimed_id (some stem) files =
      let later = s.meanwhile files in
      if not (is_path (read_claim decode is_space later) claimed_id)
      then (none, r, later)
      else move_claim s r stem later

  abbrev pub adopt_since : Sight → Resolver → Text → ℕ → List (ℕ × Transcript) → ClaimFiles → Found
  adopt_since s r claimed_id claimed_at files_seen files =
      let fresh = fresh_since claimed_at claimed_id files_seen in
      adopt_match s r claimed_id (only_one (keep (λ i. contains i (proven s files)) fresh)) files

  abbrev pub adopt_after :
      Sight → Resolver → Text → Option ℕ → List (ℕ × Transcript) → ClaimFiles → Found
  adopt_after s r claimed_id none files_seen files = (none, r, files)
  adopt_after s r claimed_id (some claimed_at) files_seen files =
      adopt_since s r claimed_id claimed_at files_seen files

  abbrev pub adopt_named :
      Sight → Resolver → Option Text → List (ℕ × Transcript) → ClaimFiles → Found
  adopt_named s r none files_seen files = (none, r, files)
  adopt_named s r (some claimed_id) files_seen files =
      if ltb s.now (r.orphan_checked_at + orphan_recheck)
      then (none, r, files)
      else adopt_after s (record r { orphan_checked_at = s.now }) claimed_id s.claim_mtime
          files_seen files

  -- `_adopt_orphaned_claim`
  unfoldable pub adopt_orphaned_claim :
      Sight → Resolver → List (ℕ × Transcript) → ClaimFiles → Found
  adopt_orphaned_claim s r files_seen files = adopt_named s r r.claimed_session_id files_seen files

  abbrev pub adopt_unless_awaiting :
      Sight → Bool × Resolver → List (ℕ × Transcript) → ClaimFiles → Found
  adopt_unless_awaiting s (waits, r) files_seen files =
      if waits then (none, r, files) else warned (adopt_orphaned_claim s r files_seen files)

  abbrev pub keep_pinned :
      Sight → Resolver → Option Text → List (ℕ × Transcript) → ClaimFiles → Found
  keep_pinned s r (some path) files_seen files = (some path, r, files)
  keep_pinned s r none files_seen files =
      adopt_unless_awaiting s (awaiting_claimed_transcript s r) files_seen files

  -- No candidate took the pin.
  abbrev pub keep_pin : Sight → Resolver → List (ℕ × Transcript) → ClaimFiles → Found
  keep_pin s r files_seen files = keep_pinned s r r.pinned files_seen files

  abbrev pub found_or_kept :
      Sight → Option Text × Resolver → List (ℕ × Transcript) → ClaimFiles → Found
  found_or_kept s (some path, r) files_seen files = (some path, r, files)
  found_or_kept s (none, r) files_seen files = keep_pin s r files_seen files

  unfoldable pub choose_candidate : Sight → Resolver → ClaimFiles → Found
  choose_candidate s r files =
      let files_seen = stats s r in
      let alive = drop_dead (map (λ e. e.1.stem) files_seen) r in
      found_or_kept s (take_first (reversed files_seen) alive) files_seen files

  abbrev pub search_at : Sight → Resolver → Option ℕ → ClaimFiles → Found
  search_at s r none files = (none, r, files)
  search_at s r (some mtime) files =
      if not (listing_is_stale r mtime)
      then choose_candidate s r files
      else (if s.dir.listing_fails
          then (r.pinned, r, files)
          else choose_candidate s (prune (relisted s mtime r)) files)

  -- The search of the project directory, where no claimed transcript is there.
  unfoldable pub search_dir : Sight → Resolver → ClaimFiles → Found
  search_dir s r files = search_at s r s.dir_mtime files

  abbrev pub move_to_successor : Sight → Resolver → Option Text → ClaimFiles → Found
  move_to_successor s r none files = (none, r, files)
  move_to_successor s r (some id) files =
      let (moved, written) =
        write_claim decode is_space s.claim_written s.history_written id files in
      if moved then (some id, r, written) else (none, r, written)

module _ (load : Text → Option Json) (parse_time : Text → Option ℕ) where
  -- `_cleared_at` on a path, from the cache.
  abbrev pub probe_cleared : Resolver → Transcript → Option ℕ
  probe_cleared r path =
      if is_some path.mtime
      then cached_at (r.clear_times path.stem) path.size (cleared_at load parse_time path)
      else none

  -- The cache after the probes of the candidates.
  abbrev pub remember_clears :
      Text
      → List Transcript
      → Resolver
      → (Text → Option (ℕ × Option ℕ))
      → Text
      → Option (ℕ × Option ℕ)
  remember_clears claimed_id [] r cache = cache
  remember_clears claimed_id (path ∷ paths) r cache =
      let rest = remember_clears claimed_id paths r cache in
      if is_session_id path.stem && not (path.stem == claimed_id) && is_some path.mtime
      then store path.stem (path.size, probe_cleared r path) rest
      else rest

  abbrev pub clears_from : Sight → Text → Option Transcript → Resolver → Resolver
  clears_from s claimed_id none r = r
  clears_from s claimed_id (some claimed) r =
      if not (is_some claimed.mtime)
      then r
      else record r { clear_times = remember_clears claimed_id s.dir.transcripts r r.clear_times }

  abbrev pub with_clears : Sight → Text → Resolver → Resolver
  with_clears s claimed_id r =
      clears_from s claimed_id (find_transcript claimed_id s.dir.transcripts) r

module _ (decode : Text → Text) (is_space : ℕ → Bool) (load : Text → Option Json)
    (parse_time : Text → Option ℕ) where
  abbrev pub successor_at : Sight → Resolver → Text → Option ℕ → ClaimFiles → Found
  successor_at s r claimed_id none files = (none, r, files)
  successor_at s r claimed_id (some mtime) files =
      if not (listing_is_stale r mtime) || s.dir.listing_fails
      then (none, r, files)
      else move_to_successor decode is_space s
          (with_clears load parse_time s claimed_id (relisted s mtime r))
          (clear_successor load parse_time (probe_cleared load parse_time (relisted s mtime r))
            s.dir claimed_id)
          files

  -- `_clear_successor`
  unfoldable pub find_successor : Sight → Resolver → Text → ClaimFiles → Found
  find_successor s r claimed_id files = successor_at s r claimed_id s.dir_mtime files

  abbrev pub resolve_from : Sight → Resolver → Option Transcript → ClaimFiles → Found
  resolve_from s r none files = search_dir decode is_space s r files
  resolve_from s r (some path) files = follow_claimed path.stem (find_successor s r path.stem files)

  -- `resolve`
  unfoldable pub resolve : Sight → Resolver → ClaimFiles → Found
  resolve s r files =
      resolve_from s (record r { claimed_session_id = read_claim decode is_space files })
        (claimed_transcript decode is_space s.dir files) files
