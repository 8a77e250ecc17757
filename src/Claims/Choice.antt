-- ===== src/Claims/Choice.antt =====
-- Which transcript takes the claim over (c_lord/transcript/claim.py): `newest_transcript_id`,
-- `clear_successor`, `adopt_cleared_session`. A `stat` that raises OSError gives `none`; where the
-- code does not catch it, the result is `raised`.
use c_lord.Prelude.Texts.{Text, text_key}
use c_lord.Prelude.{
  ℕ, ◌+◌, Bool, true, not, ◌&&◌, Option, none, some, List, [], ◌∷◌, map, keep, contains, ltb, leb,
  ◌==◌, if◌then◌else◌,
}
use c_lord.Claims.{is_session_id, ClaimFiles, read_claim, write_claim}
use c_lord.Claims.Successor.{
  Transcript, Json, successor_slack, starts_with_clear, started_at, head_events,
}

-- A project directory: its `*.jsonl` files, and whether listing them raises OSError.
pub record ProjectDir : Type 0 where
  pub transcripts : List Transcript
  pub listing_fails : Bool

-- The path `<stem>.jsonl` in the directory.
abbrev pub find_transcript : Text → List Transcript → Option Transcript
find_transcript stem [] = none
find_transcript stem (path ∷ paths) =
    let rest = find_transcript stem paths in if path.stem == stem then some path else rest

abbrev pub take_later : Option (ℕ × Text) → Option ℕ → Text → Option (ℕ × Text)
take_later best none stem = best
take_later none (some at) stem = some (at, stem)
take_later (some (t, s)) (some at) stem = if ltb t at then some (at, stem) else some (t, s)

-- The loop over the candidates: `at` is a candidate's time, `none` if the loop skips it.
unfoldable pub choose :
    (Transcript → Option ℕ) → Option (ℕ × Text) → List Transcript → Option (ℕ × Text)
choose at best [] = best
choose at best (path ∷ paths) = choose at (take_later best (at path) path.stem) paths

abbrev pub stem_chosen : Option (ℕ × Text) → Option Text
stem_chosen none = none
stem_chosen (some (t, stem)) = some stem

unfoldable pub newest_transcript_id : ProjectDir → Option Text
newest_transcript_id dir =
    if dir.listing_fails
    then none
    else stem_chosen
        (choose (λ path. if is_session_id path.stem then path.mtime else none) none dir.transcripts)

abbrev pub after_start : Option ℕ → ℕ → Bool
after_start none at = true
after_start (some started) at = ltb started at

-- The time of a candidate's `/clear`, if it is a possible successor's.
abbrev pub successor_time : Option ℕ → ℕ → Option ℕ → Option ℕ
successor_time started last_write none = none
successor_time started last_write (some at) =
    if not (after_start started at)
    then none
    else (if ltb (at + successor_slack) last_write then none else some at)

module _ (load : Text → Option Json) (parse_time : Text → Option ℕ) where
  abbrev pub successor_of :
      (Transcript → Option ℕ) → ProjectDir → Text → Transcript → ℕ → Option Text
  successor_of probe dir claimed_id claimed last_write =
      let started = started_at load parse_time (head_events load parse_time claimed) in
      if dir.listing_fails
      then none
      else stem_chosen (
          choose
            (λ path.
              if is_session_id path.stem
              then successor_time started last_write (probe path)
              else none)
            none (keep (λ path. not (path.stem == claimed_id)) dir.transcripts))

  abbrev pub successor_from :
      (Transcript → Option ℕ) → ProjectDir → Text → Transcript → Option ℕ → Option Text
  successor_from probe dir claimed_id claimed none = none
  successor_from probe dir claimed_id claimed (some last_write) =
      successor_of probe dir claimed_id claimed last_write

  -- The session that a `/clear` of the claimed one started; `probe` is `cleared_at` or its cache.
  unfoldable pub clear_successor : (Transcript → Option ℕ) → ProjectDir → Text → Option Text
  clear_successor probe dir claimed_id = elim (find_transcript claimed_id dir.transcripts) [
    | none ↦ none
    | some claimed ↦ successor_from probe dir claimed_id claimed claimed.mtime
  ]

abbrev pub list_transcripts : ProjectDir → List Text
list_transcripts dir = if dir.listing_fails then [] else map (λ path. path.stem) dir.transcripts

-- What `adopt_cleared_session` does: it raises OSError, or returns an id and leaves the claim files.
pub data Adoption : Type 0 where
  raised : Adoption
  returned : Option Text → ClaimFiles → Adoption

-- The files with their modification times, if every `stat` succeeds.
abbrev pub with_time :
    Transcript → Option ℕ → Option (List (ℕ × Transcript)) → Option (List (ℕ × Transcript))
with_time path none rest = none
with_time path (some t) none = none
with_time path (some t) (some rest) = some ((t, path) ∷ rest)

abbrev pub with_times : List Transcript → Option (List (ℕ × Transcript))
with_times [] = some []
with_times (path ∷ paths) = with_time path path.mtime (with_times paths)

abbrev pub place_newest : ℕ × Transcript → List (ℕ × Transcript) → List (ℕ × Transcript)
place_newest x [] = x ∷ []
place_newest x (y ∷ ys) =
    let rest = place_newest x ys in if leb y.0 x.0 then x ∷ y ∷ ys else y ∷ rest

-- `sorted(..., reverse=True)`, which keeps the order of equal times.
unfoldable pub sort_newest : List (ℕ × Transcript) → List (ℕ × Transcript)
sort_newest [] = []
sort_newest (x ∷ xs) = place_newest x (sort_newest xs)

abbrev pub is_fresh : List Text → Transcript → Bool
is_fresh before path = not (contains path.stem before) && path.is_file

module _ (decode : Text → Text) (is_space : ℕ → Bool) (claim_written history_written : Bool) where
  abbrev pub adopt_path : Transcript → ClaimFiles → Adoption
  adopt_path path files =
      let (done, written) =
        write_claim decode is_space claim_written history_written path.stem files in
      returned (if done then some path.stem else none) written

  abbrev pub adopt_first : List (ℕ × Transcript) → ClaimFiles → Adoption
  adopt_first [] files = returned none files
  adopt_first ((t, path) ∷ paths) files =
      let rest = adopt_first paths files in
      if is_session_id path.stem && starts_with_clear path then adopt_path path files else rest

  abbrev pub adopt_sorted : Option (List (ℕ × Transcript)) → ClaimFiles → Adoption
  adopt_sorted none files = raised
  adopt_sorted (some paths) files = adopt_first (sort_newest paths) files

  -- Claim the transcript that a `/clear` just produced.
  unfoldable pub adopt_cleared_session : ProjectDir → List Text → ClaimFiles → Adoption
  adopt_cleared_session dir before files =
      if dir.listing_fails
      then returned none files
      else adopt_sorted (with_times (keep (is_fresh before) dir.transcripts)) files

module _ (decode : Text → Text) (is_space : ℕ → Bool) where
  -- The claimed transcript, if it exists yet.
  unfoldable pub claimed_transcript : ProjectDir → ClaimFiles → Option Transcript
  claimed_transcript dir files = elim (read_claim decode is_space files) [
    | none ↦ none
    | some id ↦ elim (find_transcript id dir.transcripts) [
      | none ↦ none
      | some path ↦ if path.is_file then some path else none
    ]
  ]
