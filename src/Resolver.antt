-- ===== src/Resolver.antt =====
-- Which transcript a thread's mirror reads (c_lord/transcript/resolver.py, `ThreadSessionResolver`).
-- A path is the name of a `*.jsonl` file of the project directory, without the suffix. Times are in
-- milliseconds. What one call of `resolve` sees of the disk is a `Sight`; the log lines are left out.
pub mod Marker
pub mod Live
pub mod Started
pub mod Alive
pub mod Poll
pub mod Clean
pub mod Strangers
pub mod Never
pub mod Claimed
pub mod Repin
pub mod Pin
pub mod Slices
pub mod Whole
mod Examples
use c_lord.Prelude.Texts.{Text, text_key}
use c_lord.Prelude.Ranked.{sort}
use c_lord.Prelude.{
  ℕ, ◌+◌, Bool, true, false, not, ◌&&◌, Option, none, some, List, [], ◌∷◌, ◌++◌, map, keep,
  contains, ltb, is_some, ◌||◌, leb, nat_key, ◌==◌, if◌then◌else◌,
}
use c_lord.TurnEnd.{claim_grace}
use c_lord.Claims.{is_session_id, ClaimFiles, read_claim, read_claim_history, write_claim}
use c_lord.Claims.Successor.{Transcript, Json, cleared_at}
use c_lord.Claims.Choice.{ProjectDir, find_transcript, claimed_transcript, clear_successor}
use c_lord.Resolver.Live.{Process}
use c_lord.Resolver.Marker.{is_clord_driven_jsonl}

abbrev pub orphan_recheck : ℕ
orphan_recheck = 30000

abbrev pub listing_settle : ℕ
listing_settle = 1000

-- What one call sees: the time, the directory, its name and what `stat` tells of it and of the claim
-- file, the processes and `os.path.realpath`, what others write to the claim files before the orphan
-- rule reads them again, and whether the resolver's own writes to them succeed.
pub record Sight : Type 0 where
  pub now : ℕ
  pub dir : ProjectDir
  pub dir_mtime : Option ℕ
  pub claim_mtime : Option ℕ
  pub name : Text
  pub processes : List Process
  pub realpath : Text → Text
  pub meanwhile : ClaimFiles → ClaimFiles
  pub claim_written : Bool
  pub history_written : Bool

-- The resolver's fields; `none` stands for -1.0 in `listed_mtime` (`_dir_mtime`).
pub record Resolver : Type 0 where
  pub listed_mtime : Option ℕ
  pub listed_at : ℕ
  pub candidates : List Text
  pub verdicts : Text → Option (ℕ × Bool)
  pub pinned : Option Text
  pub known_at_pin : List Text
  pub warned_none : Bool
  pub noted_waiting_for : Option Text
  pub orphan_checked_at : ℕ
  pub claimed_session_id : Option Text
  pub clear_times : Text → Option (ℕ × Option ℕ)

abbrev pub new_resolver : Resolver
new_resolver = record {
  listed_mtime = none;
  listed_at = 0;
  candidates = [];
  verdicts = λ path. none;
  pinned = none;
  known_at_pin = [];
  warned_none = false;
  noted_waiting_for = none;
  orphan_checked_at = 0;
  claimed_session_id = none;
  clear_times = λ path. none;
}

abbrev pub is_path : Option Text → Text → Bool
is_path none stem = false
is_path (some path) stem = path == stem

-- `cache[path] = value`
abbrev pub store {ℓ} : {A : Type ℓ} → Text → A → (Text → Option A) → Text → Option A
store path value cache = λ other. if other == path then some value else cache other

abbrev pub is_listed_at : Option ℕ → ℕ → Bool
is_listed_at none mtime = false
is_listed_at (some listed) mtime = listed == mtime

-- Whether the directory has to be listed again.
abbrev pub listing_is_stale : Resolver → ℕ → Bool
listing_is_stale r mtime =
    if not (is_listed_at r.listed_mtime mtime)
    then true
    else ltb r.listed_at (mtime + listing_settle)

abbrev pub stems : List Transcript → List Text
stems paths = map (λ path. path.stem) (keep (λ path. path.is_file) paths)

abbrev pub relisted : Sight → ℕ → Resolver → Resolver
relisted s mtime r = record r {
  candidates = stems s.dir.transcripts;
  listed_mtime = some mtime;
  listed_at = s.now;
}

abbrev pub only_live : List Text → (Text → Option (ℕ × Bool)) → Text → Option (ℕ × Bool)
only_live live verdicts = λ path. if contains path live then verdicts path else none

abbrev pub cached_at : Option (ℕ × Option ℕ) → ℕ → Option ℕ → Option ℕ
cached_at none size at = at
cached_at (some (known, cached)) size at = if known == size then cached else at

-- A file's modification time, in the order of the listing; files that are gone are left out.
abbrev pub stat_of : Option Transcript → List (ℕ × Transcript) → List (ℕ × Transcript)
stat_of none rest = rest
stat_of (some path) rest = elim (path.mtime) [ none ↦ rest | some t ↦ (t, path) ∷ rest ]

abbrev pub stats_in : List Transcript → List Text → List (ℕ × Transcript)
stats_in paths [] = []
stats_in paths (stem ∷ stems) = stat_of (find_transcript stem paths) (stats_in paths stems)

-- `_stats`: oldest first.
unfoldable pub stats : Sight → Resolver → List (ℕ × Transcript)
stats s r = sort (stats_in s.dir.transcripts r.candidates)

abbrev pub reversed : List (ℕ × Transcript) → List (ℕ × Transcript)
reversed [] = []
reversed (x ∷ xs) = reversed xs ++ (x ∷ [])

abbrev pub cached_verdict : Option (ℕ × Bool) → ℕ → Option Bool
cached_verdict none size = none
cached_verdict (some (known, verdict)) size = if known == size then some verdict else none

abbrev pub judge : Transcript → Resolver → Option Bool → Bool × Resolver
judge path r (some verdict) = (verdict, r)
judge path r none =
    let verdict = is_clord_driven_jsonl path in
    (verdict, record r { verdicts = store path.stem (path.size, verdict) r.verdicts })

-- Whether the transcript is one that c-lord drives, looked up again when its size has changed.
unfoldable pub is_ours : Transcript → Resolver → Bool × Resolver
is_ours path r = judge path r (cached_verdict (r.verdicts path.stem) path.size)

abbrev pub pin : Text → Resolver → Resolver
pin stem r = record r { pinned = some stem; known_at_pin = r.candidates; warned_none = false }

-- A path that cannot take the pin over: the pinned one, or an old file beside a pinned one.
abbrev pub is_held : Text → Resolver → Bool
is_held stem r = is_path r.pinned stem || (is_some r.pinned && contains stem r.known_at_pin)

-- The loop over the candidates, newest first.
unfoldable pub take_first : List (ℕ × Transcript) → Resolver → Option Text × Resolver
take_first [] r = (none, r)
take_first ((t, path) ∷ paths) r =
    let skipped = take_first paths r in
    let (ours, probed) = is_ours path r in
    let passed = take_first paths probed in
    if is_held path.stem r
    then skipped
    else (if ours then (some path.stem, pin path.stem probed) else passed)
