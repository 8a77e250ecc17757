-- ===== src/Claims/Adopt.antt =====
-- What `adopt_cleared_session` lets take the claim over (c_lord/transcript/claim.py).
use c_lord.Prelude.Texts.{Text, text_key}
use c_lord.Prelude.Ranked.{In, In-keep, All-by_In}
use c_lord.Prelude.{
  ℕ, Bool, true, false, ◌&&◌, Option, none, some, List, [], ◌∷◌, ◌≡◌, refl, All, contains, leb,
  if_cases, arith,
}
use c_lord.Claims.{is_session_id, newline, ClaimFiles, read_claim, write_claim}
use c_lord.Claims.Names.{IsAscii, is_name_char}
use c_lord.Claims.Ledger.{read_claim-write_claim}
use c_lord.Claims.Successor.{Transcript, starts_with_clear}
use c_lord.Claims.Choice.{
  ProjectDir, Adoption, raised, returned, with_time, with_times, place_newest, sort_newest,
  is_fresh, adopt_path, adopt_first, adopt_sorted, adopt_cleared_session,
}

-- A file that a `/clear` produced since `before` was listed.
abbrev pub IsCleared : List Text → Transcript → Type 0
IsCleared before p =
    (contains p.stem before ≡ false)
    × (p.is_file ≡ true)
    × (is_session_id p.stem ≡ true)
    × (starts_with_clear p ≡ true)

module _ (P : Transcript → Type 0) where
  All-place_newest :
      (x : ℕ × Transcript) (xs : List (ℕ × Transcript))
      → P x.1
      → All (λ e. P e.1) xs
      → All (λ e. P e.1) (place_newest x xs)
  All-place_newest x [] h k = (h, tt)
  All-place_newest x (y ∷ ys) h k =
      if_cases (All (λ e. P e.1)) (leb y.0 x.0) (x ∷ y ∷ ys) (y ∷ place_newest x ys)
        (λ newer. (h, k)) (λ older. (k.0, All-place_newest x ys h k.1))

  All-sort_newest :
      (xs : List (ℕ × Transcript)) → All (λ e. P e.1) xs → All (λ e. P e.1) (sort_newest xs)
  unfolding sort_newest
  All-sort_newest [] h = tt
  All-sort_newest (x ∷ xs) h = All-place_newest x (sort_newest xs) h.0 (All-sort_newest xs h.1)

  AllTimed : Option (List (ℕ × Transcript)) → Type 0
  AllTimed none = Unit
  AllTimed (some xs) = All (λ e. P e.1) xs

  AllTimed-with_time :
      (p : Transcript) (t : Option ℕ) (rest : Option (List (ℕ × Transcript)))
      → P p
      → AllTimed rest
      → AllTimed (with_time p t rest)
  unfolding AllTimed
  AllTimed-with_time p none rest h k = tt
  AllTimed-with_time p (some t) none h k = tt
  AllTimed-with_time p (some t) (some rest) h k = (h, k)

  AllTimed-with_times : (paths : List Transcript) → All P paths → AllTimed (with_times paths)
  unfolding AllTimed
  AllTimed-with_times [] h = tt
  AllTimed-with_times (p ∷ paths) h =
      AllTimed-with_time p p.mtime (with_times paths) h.0 (AllTimed-with_times paths h.1)

module _ (decode : Text → Text) (is_space : ℕ → Bool) where
  -- What is right for an adoption: an id is that of such a file, and the claim is the id; without one,
  -- the claim files are as they were.
  abbrev pub IsRightAdoption : List Transcript → List Text → ClaimFiles → Adoption → Type 0
  IsRightAdoption paths before files raised = Unit
  IsRightAdoption paths before files (returned none after) = after ≡ files
  IsRightAdoption paths before files (returned (some id) after) =
      (read_claim decode is_space after ≡ some id)
      × ((p : Transcript) × In p paths × (p.stem ≡ id) × IsCleared before p)

module _ (decode : Text → Text) (is_space : ℕ → Bool)
    (ascii : (text : Text) → IsAscii text → decode text ≡ text) (cuts : is_space newline ≡ true)
    (solid : (c : ℕ) → is_name_char c ≡ true → is_space c ≡ false) where
  module _ (claimed noted : Bool) (all_paths : List Transcript) (before : List Text)
      (files : ClaimFiles) where
    abbrev IsNew : Transcript → Type 0
    IsNew p = In p all_paths × (is_fresh before p ≡ true)

    IsRightAdoption-adopt_path :
        (p : Transcript)
        → In p all_paths
        → IsCleared before p
        → IsRightAdoption decode is_space all_paths before files
            (adopt_path decode is_space claimed noted p files)
    unfolding write_claim
    IsRightAdoption-adopt_path p i cleared = by_outcome claimed
      where
        by_outcome :
            (c : Bool)
            → IsRightAdoption decode is_space all_paths before files
                (adopt_path decode is_space c noted p files)
        by_outcome true =
            let read =
              read_claim-write_claim decode is_space ascii cuts solid p.stem noted files
                cleared.2 in
            rw (write_claim, cleared.2) ((rw cleared.2 at read), (p, i, refl, cleared))
        by_outcome false = rw cleared.2 refl

    IsRightAdoption-adopt_first :
        (paths : List (ℕ × Transcript))
        → All (λ e. IsNew e.1) paths
        → IsRightAdoption decode is_space all_paths before files
            (adopt_first decode is_space claimed noted paths files)
    IsRightAdoption-adopt_first [] h = refl
    IsRightAdoption-adopt_first ((t, p) ∷ paths) h =
        if_cases (IsRightAdoption decode is_space all_paths before files)
          (is_session_id p.stem && starts_with_clear p)
          (adopt_path decode is_space claimed noted p files)
          (adopt_first decode is_space claimed noted paths files)
          (λ fits. IsRightAdoption-adopt_path p h.0.0 (ground (arith, fits, h.0.1)))
          (λ other. IsRightAdoption-adopt_first paths h.1)

    IsRightAdoption-adopt_sorted :
        (timed : Option (List (ℕ × Transcript)))
        → AllTimed IsNew timed
        → IsRightAdoption decode is_space all_paths before files
            (adopt_sorted decode is_space claimed noted timed files)
    unfolding AllTimed
    IsRightAdoption-adopt_sorted none h = tt
    IsRightAdoption-adopt_sorted (some paths) h =
        IsRightAdoption-adopt_first (sort_newest paths) (All-sort_newest IsNew paths h)

  -- Whatever becomes of its writes, an adoption that returns an id has moved the claim to it, and the id
  -- names a file of the directory that was not there before, is a regular file, has a session id for
  -- its name and starts with a `/clear`; one that returns none has left the claim files alone.
  pub adopt_cleared_session-IsRightAdoption :
      (claimed noted : Bool) (dir : ProjectDir) (before : List Text) (files : ClaimFiles)
      → IsRightAdoption decode is_space dir.transcripts before files
          (adopt_cleared_session decode is_space claimed noted dir before files)
  unfolding adopt_cleared_session
  adopt_cleared_session-IsRightAdoption claimed noted dir before files =
      if_cases (IsRightAdoption decode is_space dir.transcripts before files) dir.listing_fails _ _
        (λ failed. refl)
        (λ listed. IsRightAdoption-adopt_sorted claimed noted dir.transcripts before files _ (
          AllTimed-with_times (IsNew claimed noted dir.transcripts before files) _
            (All-by_In _ _ (λ p i. In-keep (is_fresh before) p dir.transcripts i))))
