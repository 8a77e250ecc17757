-- ===== src/Resolver/Examples.antt =====
-- Two polls of a mirror whose session is cleared between them, beside a stranger's transcript, and the
-- theorems at them.
use c_lord.Prelude.Texts.{Text, text_key}
use c_lord.Prelude.{
  length, suc, ℕ, true, false, none, some, List, [], ◌∷◌, ◌++◌, ◌≡◌, refl, arith, All, ◌==◌, map,
  contains, ◌↔◌,
}
use c_lord.Claims.{
  newline, is_session_id, ClaimFiles, read_claim, read_claim_history, write_claim, remember_claim,
}
use c_lord.Claims.Successor.{Transcript, content_key, cleared_at, started_at, is_blank_byte}
use c_lord.Claims.Choice.{claimed_transcript, clear_successor, choose}
use c_lord.Claims.Examples.{digits, session, plain, solid, load, parse_time, old, new}
use c_lord.Prelude.Ranked.{sort, place, All-In}
use c_lord.Resolver.Marker.{
  clord_input_marker, is_clord_driven_jsonl, probe_slices, buffer_has_marker, has_context,
}
use c_lord.Resolver.{Sight, Resolver, new_resolver, is_path, is_ours, take_first, stats}
use c_lord.Resolver.Live.{Process, dashed, live_session_ids, started_ids, derive_project_dir}
use c_lord.Resolver.Alive.{IsLive, live_session_ids_iff}
use c_lord.Resolver.Poll.{
  Found, adopt_orphaned_claim, choose_candidate, search_dir, find_successor, resolve,
}
use c_lord.Resolver.Clean.{IsUnmarked}
use c_lord.Resolver.Strangers.{IsStranger}
use c_lord.Resolver.Never.{resolve_all, resolve_all-IsStranger}
use c_lord.Resolver.Claimed.{IsNamed, resolve-read_claim}
use c_lord.Resolver.Whole.{probe_slices_iff}
use c_lord.Resolver.Pin.{IsSuccession, resolve-IsSuccession}

-- A sub-invocation's transcript, written last.
abbrev stranger : Transcript
stranger = record {
  stem = session 48;
  is_file = true;
  mtime = some 9000;
  size = 2;
  bytes = some (115 ∷ 10 ∷ []);
}

-- `/w`, a claude that was started there with a session id, and a `claude -p`.
abbrev workspace : Text
workspace = 47 ∷ 119 ∷ []

abbrev claude : Process
claude = record {
  argv = some ((99 ∷ 108 ∷ 97 ∷ 117 ∷ 100 ∷ 101 ∷ []) ∷ (45 ∷ 114 ∷ []) ∷ session 50 ∷ []);
  cwd = some workspace;
}

abbrev helper : Process
helper = record {
  argv = some (
      (99 ∷ 108 ∷ 97 ∷ 117 ∷ 100 ∷ 101 ∷ []) ∷ (45 ∷ 112 ∷ []) ∷ (45 ∷ 114 ∷ []) ∷ session 48 ∷ []);
  cwd = some workspace;
}

abbrev sight : ℕ → List Transcript → Sight
sight now paths = record {
  now = now;
  dir = record { transcripts = paths; listing_fails = false };
  dir_mtime = some now;
  claim_mtime = some 1000;
  name = map dashed workspace;
  processes = claude ∷ helper ∷ [];
  realpath = plain;
  meanwhile = λ files. files;
  claim_written = true;
  history_written = true;
}

abbrev claimed : ℕ → ClaimFiles
claimed c = record { claim = some (session c ++ (newline ∷ [])); history = none }

abbrev polls : List (Sight × ClaimFiles)
polls =
    (sight 2000 (old ∷ stranger ∷ []), claimed 49)
    ∷ (sight 3000 (old ∷ new ∷ stranger ∷ []), claimed 49)
    ∷ (sight 4000 (stranger ∷ []), claimed 97)
    ∷ []

followed :
    resolve_all plain is_blank_byte load parse_time polls new_resolver
    ≡ some (session 49) ∷ some (session 97) ∷ none ∷ []
unfolding resolve find_successor search_dir choose_candidate adopt_orphaned_claim take_first is_ours
    stats is_clord_driven_jsonl probe_slices buffer_has_marker has_context read_claim
    read_claim_history write_claim remember_claim is_session_id claimed_transcript clear_successor
    choose started_at cleared_at sort place live_session_ids started_ids derive_project_dir
followed = refl

abbrev IsUncleared : Transcript → Type 0
IsUncleared p = (p.stem == session 48) ≡ true → cleared_at load parse_time p ≡ none

polls-IsStranger :
    All (λ p. IsStranger plain is_blank_byte load parse_time (session 48) p.0 p.1) polls
unfolding is_clord_driven_jsonl probe_slices buffer_has_marker has_context read_claim
    read_claim_history is_session_id cleared_at live_session_ids started_ids derive_project_dir
polls-IsStranger = (
  record {
    unclaimed = refl;
    unproven = refl;
    unmarked = λ p i.
        All-In (IsUnmarked (session 48)) p (old ∷ stranger ∷ []) (λ e. refl, (λ e. refl, tt)) i;
    uncleared = λ p i. All-In IsUncleared p (old ∷ stranger ∷ []) (λ e. refl, (λ e. refl, tt)) i;
  },
  (
    record {
      unclaimed = refl;
      unproven = refl;
      unmarked = λ p i.
          All-In (IsUnmarked (session 48)) p (old ∷ new ∷ stranger ∷ [])
            (λ e. refl, (λ e. refl, (λ e. refl, tt))) i;
      uncleared = λ p i.
          All-In IsUncleared p (old ∷ new ∷ stranger ∷ [])
            (λ e. refl, (λ e. absurd (ground (arith, e)), (λ e. refl, tt))) i;
    },
    (
      record {
        unclaimed = refl;
        unproven = refl;
        unmarked = λ p i. All-In (IsUnmarked (session 48)) p (stranger ∷ []) (λ e. refl, tt) i;
        uncleared = λ p i. All-In IsUncleared p (stranger ∷ []) (λ e. refl, tt) i;
      },
      tt,
    ),
  ),
)

resolve_all-IsStranger_example :
    All
      (λ found. is_path found (session 48) ≡ false)
      (resolve_all plain is_blank_byte load parse_time polls new_resolver)
resolve_all-IsStranger_example =
    resolve_all-IsStranger plain is_blank_byte load parse_time (session 48) polls polls-IsStranger

resolve-read_claim_example : IsNamed plain is_blank_byte (
    resolve plain is_blank_byte load parse_time
      (sight 3000 (old ∷ new ∷ stranger ∷ []))
      new_resolver
      (claimed 49))
unfolding claimed_transcript read_claim is_session_id
resolve-read_claim_example =
    resolve-read_claim plain is_blank_byte (λ text h. refl) refl solid load parse_time
      (sight 3000 (old ∷ new ∷ stranger ∷ [])) new_resolver (claimed 49) old refl

-- A transcript of an older session, which carries the mark.
abbrev driven : Transcript
driven = record {
  stem = session 51;
  is_file = true;
  mtime = some 1500;
  size = 14;
  bytes = some (content_key ++ (58 ∷ 34 ∷ clord_input_marker));
}

abbrev unclaimed_files : ClaimFiles
unclaimed_files = record { claim = none; history = none }

abbrev poll_at : ℕ → Resolver → Found
poll_at now r =
    resolve plain is_blank_byte load parse_time (sight now (driven ∷ stranger ∷ [])) r
      unclaimed_files

resolves : Unit {0}
unfolding resolve find_successor search_dir choose_candidate adopt_orphaned_claim take_first is_ours
    stats is_clord_driven_jsonl probe_slices buffer_has_marker has_context read_claim
    claimed_transcript sort place
resolves = tt

first_pins : (poll_at 2000 new_resolver).0 ≡ some (session 51)
unfolding resolves
first_pins = refl

next_returns : (poll_at 2500 (poll_at 2000 new_resolver).1).0 ≡ some (session 51)
unfolding resolves
next_returns = refl

resolve-IsSuccession_example :
    IsSuccession
      (session 51)
      (poll_at 2000 new_resolver).1.candidates
      (poll_at 3000 (poll_at 2500 (poll_at 2000 new_resolver).1).1).0
unfolding resolves
resolve-IsSuccession_example =
    resolve-IsSuccession plain is_blank_byte load parse_time (sight 2000 (driven ∷ stranger ∷ []))
      new_resolver unclaimed_files (session 51)
      ((sight 2500 (driven ∷ stranger ∷ []), unclaimed_files) ∷ [])
      (sight 3000 (driven ∷ stranger ∷ [])) unclaimed_files 3000 refl first_pins (next_returns, tt)
      refl refl refl refl

one_live : live_session_ids plain (map dashed workspace) (claude ∷ helper ∷ []) ≡ session 50 ∷ []
unfolding live_session_ids started_ids derive_project_dir is_session_id
one_live = refl

live_session_ids_iff_example :
    let found = live_session_ids plain (map dashed workspace) (claude ∷ helper ∷ []) in
    (contains (session 48) found ≡ true)
    ↔ IsLive plain (map dashed workspace) (session 48) (claude ∷ helper ∷ [])
live_session_ids_iff_example =
    live_session_ids_iff plain (map dashed workspace) (session 48) (claude ∷ helper ∷ [])

-- A marked prompt whose mark lies on both sides of the end of the first slice.
abbrev marked : Text
marked = digits 55 48 (content_key ++ (58 ∷ 34 ∷ clord_input_marker))

found_across : probe_slices 67 (suc (length marked)) [] marked ≡ true
unfolding probe_slices buffer_has_marker has_context
found_across = refl

probe_slices_iff_example :
    (probe_slices 67 (suc (length marked)) [] marked ≡ true) ↔ (buffer_has_marker marked ≡ true)
probe_slices_iff_example = probe_slices_iff 67 marked (omega arith)
