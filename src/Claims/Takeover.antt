-- ===== src/Claims/Takeover.antt =====
-- Which transcript the loops over a project directory choose, and what takes a claim over
-- (c_lord/transcript/claim.py).
use c_lord.Prelude.Texts.{Text, text_key}
use c_lord.Prelude.Ranked.{In, In-keep, In-keep_all, All-In}
use c_lord.Prelude.{
  ℕ, ◌+◌, ◌≤◌, Bool, true, false, not, inl, inr, Bool-cases, Option, Option-cases, none, some, List,
  [], ◌∷◌, ◌≡◌, ◌≢◌, refl, ap, sym, subst, ◌∙◌, keep, ◌==◌, if◌then◌else◌, arith,
}
use c_lord.Claims.{is_session_id, ClaimFiles, read_claim}
use c_lord.Claims.Successor.{Transcript, Json, successor_slack, started_at, head_events}
use c_lord.Claims.Choice.{
  ProjectDir, find_transcript, choose, stem_chosen, after_start, successor_time, successor_of,
  successor_from, clear_successor, claimed_transcript,
}
use c_lord.Claims.Latest.{IsLatest, choose-IsLatest}

-- A candidate that is a `/clear` of the claimed session: another file, named by a session id, that opens
-- with a `/clear` at `at`, after the claimed session started and no earlier than its last write, with
-- the slack.
abbrev pub IsSuccessor : (Transcript → Option ℕ) → Text → Option ℕ → ℕ → Transcript → ℕ → Type 0
IsSuccessor probe claimed_id started last_write p at =
    (is_session_id p.stem ≡ true)
    × (p.stem ≢ claimed_id)
    × (probe p ≡ some at)
    × (after_start started at ≡ true)
    × (last_write ≤ at + successor_slack)

abbrev pub IsRightSuccessor :
    (Transcript → Option ℕ) → Text → Option ℕ → ℕ → List Transcript → Option Text → Type 0
IsRightSuccessor probe claimed_id started last_write paths none =
    (p : Transcript) (at : ℕ) → In p paths → ¬ IsSuccessor probe claimed_id started last_write p at
IsRightSuccessor probe claimed_id started last_write paths (some id) =
    (p : Transcript) × (at : ℕ) × In p paths
    × (p.stem ≡ id)
    × IsSuccessor probe claimed_id started last_write p at
    × ((q : Transcript) (u : ℕ)
        → In q paths
        → IsSuccessor probe claimed_id started last_write q u
        → u ≤ at)

successor_time-some :
    (started : Option ℕ) (last_write : ℕ) (probed : Option ℕ) (t : ℕ)
    → successor_time started last_write probed ≡ some t
    → (probed ≡ some t) × (after_start started t ≡ true) × (last_write ≤ t + successor_slack)
successor_time-some started last_write none t h = absurd (ground (arith, h))
successor_time-some none last_write (some at) t h = ground (arith, h)
successor_time-some (some s) last_write (some at) t h = ground (arith, h)

successor_time_lit :
    (started : Option ℕ) (last_write t : ℕ)
    → after_start started t ≡ true
    → last_write ≤ t + successor_slack
    → successor_time started last_write (some t) ≡ some t
successor_time_lit none last_write t h k = ground (arith, h, k)
successor_time_lit (some s) last_write t h k = ground (arith, h, k)

module _ (probe : Transcript → Option ℕ) (claimed_id : Text) (started : Option ℕ)
    (last_write : ℕ) where
  abbrev candidate_time : Transcript → Option ℕ
  candidate_time p =
      if is_session_id p.stem then successor_time started last_write (probe p) else none

  candidate_time-some :
      (p : Transcript) (t : ℕ)
      → not (p.stem == claimed_id) ≡ true
      → candidate_time p ≡ some t
      → IsSuccessor probe claimed_id started last_write p t
  candidate_time-some p t other h = elim (Bool-cases (is_session_id p.stem)) [
    | inl valid ↦
        let r = successor_time-some started last_write (probe p) t (rw valid at h) in
        (
          valid,
          λ e. absurd (ground (arith, other, text_key.same_iff p.stem claimed_id, e)),
          r.0,
          r.1,
          r.2,
        )
    | inr bad ↦ absurd (ground (arith, h, bad))
  ]

  candidate_time_lit :
      (p : Transcript) (t : ℕ)
      → IsSuccessor probe claimed_id started last_write p t
      → candidate_time p ≡ some t
  candidate_time_lit p t (valid, other, found, after, recent) =
      rw (valid, found) (successor_time_lit started last_write t after recent)

  differs : (p : Transcript) → p.stem ≢ claimed_id → not (p.stem == claimed_id) ≡ true
  differs p other = ground (arith, other, text_key.same_iff p.stem claimed_id)

  IsRightSuccessor-stem_chosen :
      (paths : List Transcript) (r : Option (ℕ × Text))
      → IsLatest candidate_time (keep (λ p. not (p.stem == claimed_id)) paths) r
      → IsRightSuccessor probe claimed_id started last_write paths (stem_chosen r)
  IsRightSuccessor-stem_chosen paths none h = λ p at i k.
      let no_time = All-In _ p _ h (In-keep_all _ p paths i (differs p k.1)) in
      absurd (ground (arith, no_time, candidate_time_lit p at k))
  IsRightSuccessor-stem_chosen paths (some (t, stem)) ((p, i, at, named), later) =
      let (j, other) = In-keep (λ q. not (q.stem == claimed_id)) p paths i in
      (
        p,
        t,
        j,
        named,
        candidate_time-some p t other at,
        λ q u l k.
            All-In _ q _ later (In-keep_all _ q paths l (differs q k.1)) u
              (candidate_time_lit q u k),
      )

pub find_transcript-In :
    (stem : Text) (paths : List Transcript) (p : Transcript)
    → find_transcript stem paths ≡ some p
    → In p paths × (p.stem ≡ stem)
find_transcript-In stem [] p h = absurd (ground (arith, h))
find_transcript-In stem (q ∷ paths) p h = elim (Bool-cases (q.stem == stem)) [
  | inl same ↦
      let e : q ≡ p = ground (arith, same, h) in
      (inl (sym e), ap (λ z. z.stem) (sym e) ∙ (text_key.same_iff q.stem stem).0 same)
  | inr other ↦
      let r = find_transcript-In stem paths p (rw (find_transcript, other) at h) in (inr r.0, r.1)
]

-- The claimed transcript is the one that the claim file names.
pub claimed_transcript_claim :
    (decode : Text → Text) (is_space : ℕ → Bool) (dir : ProjectDir) (files : ClaimFiles)
    (path : Transcript)
    → claimed_transcript decode is_space dir files ≡ some path
    → read_claim decode is_space files ≡ some path.stem
unfolding claimed_transcript
claimed_transcript_claim decode is_space dir files path e =
    elim (Option-cases (read_claim decode is_space files)) [
      | inl unclaimed ↦ absurd (ground (arith, rw (claimed_transcript, unclaimed) at e))
      | inr (id, claim) ↦ elim (Option-cases (find_transcript id dir.transcripts)) [
        | inl missing ↦ absurd (ground (arith, rw (claimed_transcript, claim, missing) at e))
        | inr (p, found) ↦
            let here : (if p.is_file then some p else none) ≡ some path =
              rw (claimed_transcript, claim, found) at e in
            let named : p ≡ path = ground (arith, here) in
            claim
            ∙ ap some
                (sym (find_transcript-In id dir.transcripts p found).1 ∙ ap (λ q. q.stem) named)
      ]
    ]

stem_chosen-IsLatest :
    (at : Transcript → Option ℕ) (paths : List Transcript) (r : Option (ℕ × Text)) (id : Text)
    → IsLatest at paths r
    → stem_chosen r ≡ some id
    → (p : Transcript) × (t : ℕ) × In p paths × (p.stem ≡ id) × (at p ≡ some t)
stem_chosen-IsLatest at paths none id h e = absurd (ground (arith, e))
stem_chosen-IsLatest at paths (some (t, stem)) id ((p, i, known, named), later) e =
    (p, t, i, named ∙ ground (arith, e), known)

-- A successor is a file of the directory for which the probe found a `/clear`.
pub clear_successor-probed :
    (load : Text → Option Json) (parse_time : Text → Option ℕ) (probe : Transcript → Option ℕ)
    (dir : ProjectDir) (claimed_id id : Text)
    → clear_successor load parse_time probe dir claimed_id ≡ some id
    → (p : Transcript) × (at : ℕ) × In p dir.transcripts × (p.stem ≡ id) × (probe p ≡ some at)
unfolding clear_successor
clear_successor-probed load parse_time probe dir claimed_id id h =
    of_claimed (find_transcript claimed_id dir.transcripts) h
  where
    of_chosen :
        (started : Option ℕ) (last_write : ℕ)
        → stem_chosen (
            choose
              (candidate_time probe claimed_id started last_write)
              none
              (keep (λ p. not (p.stem == claimed_id)) dir.transcripts))
          ≡ some id
        → (p : Transcript) × (at : ℕ) × In p dir.transcripts × (p.stem ≡ id) × (probe p ≡ some at)
    of_chosen started last_write e =
        let (p, t, i, named, known) =
          stem_chosen-IsLatest _ _ _ id
            (choose-IsLatest (candidate_time probe claimed_id started last_write) _) e in
        let (j, other) = In-keep (λ q. not (q.stem == claimed_id)) p dir.transcripts i in
        let fits = candidate_time-some probe claimed_id started last_write p t other known in
        (p, t, j, named, fits.2)

    of_time :
        (claimed : Transcript) (mtime : Option ℕ)
        → successor_from load parse_time probe dir claimed_id claimed mtime ≡ some id
        → (p : Transcript) × (at : ℕ) × In p dir.transcripts × (p.stem ≡ id) × (probe p ≡ some at)
    of_time claimed none e = absurd (ground (arith, e))
    of_time claimed (some last_write) e = elim (Bool-cases dir.listing_fails) [
      | inl failed ↦ absurd (ground (arith, failed, e))
      | inr listed ↦ of_chosen _ last_write (rw listed at e)
    ]

    of_claimed :
        (found : Option Transcript)
        → (elim found [
          | none ↦ none
          | some claimed ↦ successor_from load parse_time probe dir claimed_id claimed claimed.mtime
        ])
          ≡ some id
        → (p : Transcript) × (at : ℕ) × In p dir.transcripts × (p.stem ≡ id) × (probe p ≡ some at)
    of_claimed none e = absurd (ground (arith, e))
    of_claimed (some claimed) e = of_time claimed claimed.mtime e

-- Where the claimed transcript and the directory can be read, the successor of a claimed session is,
-- among the other files that are named by a session id and open with a `/clear` that ran after the
-- claimed session started and at most five seconds before its last write, one with the latest `/clear`;
-- and there is no successor exactly if there is no such file.
pub clear_successor-IsRightSuccessor :
    (load : Text → Option Json) (parse_time : Text → Option ℕ) (probe : Transcript → Option ℕ)
    (dir : ProjectDir) (claimed_id : Text) (claimed : Transcript) (last_write : ℕ)
    → dir.listing_fails ≡ false
    → find_transcript claimed_id dir.transcripts ≡ some claimed
    → claimed.mtime ≡ some last_write
    → IsRightSuccessor probe claimed_id
        (started_at load parse_time (head_events load parse_time claimed))
        last_write
        dir.transcripts
        (clear_successor load parse_time probe dir claimed_id)
unfolding clear_successor
clear_successor-IsRightSuccessor load parse_time probe dir claimed_id claimed last_write listed
      found written =
    let started = started_at load parse_time (head_events load parse_time claimed) in
    let chosen =
      choose (candidate_time probe claimed_id started last_write) none
        (keep (λ p. not (p.stem == claimed_id)) dir.transcripts) in
    let from : clear_successor load parse_time probe dir claimed_id
        ≡ successor_from load parse_time probe dir claimed_id claimed claimed.mtime =
      rw (clear_successor, found) refl in
    let known : successor_of load parse_time probe dir claimed_id claimed last_write
        ≡ stem_chosen chosen =
      rw listed refl in
    subst (IsRightSuccessor probe claimed_id started last_write dir.transcripts)
      (sym
        (from ∙ ap (successor_from load parse_time probe dir claimed_id claimed) written ∙ known))
      (IsRightSuccessor-stem_chosen probe claimed_id started last_write dir.transcripts chosen (
        choose-IsLatest (candidate_time probe claimed_id started last_write)
          (keep (λ p. not (p.stem == claimed_id)) dir.transcripts)))
