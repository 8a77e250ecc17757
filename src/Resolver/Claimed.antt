-- ===== src/Resolver/Claimed.antt =====
-- The rule of the claimed transcript (c_lord/transcript/resolver.py, `resolve`).
use c_lord.Prelude.Texts.{Text, text_key}
use c_lord.Prelude.{
  ℕ, Bool, true, false, not, ◌||◌, inl, inr, Bool-cases, Option, none, some, is_some, ◌≡◌, refl, ap,
  sym, subst, ◌∙◌, if_cases, arith, nat_key,
}
use c_lord.Claims.{newline, is_session_id, ClaimFiles, read_claim, write_claim}
use c_lord.Claims.Names.{IsAscii, is_name_char}
use c_lord.Claims.Ledger.{read_claim-write_claim}
use c_lord.Claims.Successor.{Transcript, Json}
use c_lord.Claims.Choice.{claimed_transcript}
use c_lord.Claims.Takeover.{claimed_transcript_claim}
use c_lord.Resolver.{Sight, Resolver, listing_is_stale}
use c_lord.Resolver.Poll.{
  Found, move_to_successor, successor_at, find_successor, follow_claimed, resolve_from, resolve,
}

module _ (decode : Text → Text) (is_space : ℕ → Bool) where
  -- The path is the one that the claim file names.
  abbrev pub IsNamed : Found → Type 0
  IsNamed found = (is_some found.0 ≡ true) × (read_claim decode is_space found.2 ≡ found.0)

module _ (decode : Text → Text) (is_space : ℕ → Bool)
    (ascii : (text : Text) → IsAscii text → decode text ≡ text) (cuts : is_space newline ≡ true)
    (solid : (c : ℕ) → is_name_char c ≡ true → is_space c ≡ false) where
  -- A claim that moved is read back, and one that did not move is as it was.
  abbrev IsKept : ClaimFiles → Found → Type 0
  IsKept files (none, r, after) = after ≡ files
  IsKept files (some id, r, after) = read_claim decode is_space after ≡ some id

  write_claim-read :
      (claimed noted : Bool) (id : Text) (files : ClaimFiles)
      → (write_claim decode is_space claimed noted id files).0 ≡ true
      → read_claim decode is_space (write_claim decode is_space claimed noted id files).1 ≡ some id
  unfolding write_claim
  write_claim-read claimed noted id files h = elim (Bool-cases (is_session_id id)) [
    | inr bad ↦ absurd (ground (arith, bad, h))
    | inl valid ↦ by_outcome valid claimed h
  ]
    where
      by_outcome :
          is_session_id id ≡ true
          → (c : Bool) → (write_claim decode is_space c noted id files).0 ≡ true
          → read_claim decode is_space (write_claim decode is_space c noted id files).1 ≡ some id
      by_outcome valid true k =
          read_claim-write_claim decode is_space ascii cuts solid id noted files valid
      by_outcome valid false k = absurd (ground (arith, valid, k))

  write_claim-failed :
      (claimed noted : Bool) (id : Text) (files : ClaimFiles)
      → (write_claim decode is_space claimed noted id files).0 ≡ false
      → (write_claim decode is_space claimed noted id files).1 ≡ files
  unfolding write_claim
  write_claim-failed claimed noted id files h = elim (Bool-cases (is_session_id id)) [
    | inr bad ↦ rw bad refl
    | inl valid ↦ by_outcome valid claimed h
  ]
    where
      by_outcome :
          is_session_id id ≡ true
          → (c : Bool) → (write_claim decode is_space c noted id files).0 ≡ false
          → (write_claim decode is_space c noted id files).1 ≡ files
      by_outcome valid true k = absurd (ground (arith, valid, k))
      by_outcome valid false k = rw valid refl

  IsKept-move_to_successor :
      (s : Sight) (r : Resolver) (successor : Option Text) (files : ClaimFiles)
      → IsKept files (move_to_successor decode is_space s r successor files)
  IsKept-move_to_successor s r none files = refl
  IsKept-move_to_successor s r (some id) files =
      let written = write_claim decode is_space s.claim_written s.history_written id files in
      if_cases (IsKept files) written.0 (some id, r, written.1) (none, r, written.1)
        (λ moved. write_claim-read s.claim_written s.history_written id files moved)
        (λ stays. write_claim-failed s.claim_written s.history_written id files stays)

  IsKept-successor_at :
      (load : Text → Option Json) (parse_time : Text → Option ℕ) (s : Sight) (r : Resolver)
      (claimed_id : Text) (mtime : Option ℕ) (files : ClaimFiles)
      → IsKept files (successor_at decode is_space load parse_time s r claimed_id mtime files)
  IsKept-successor_at load parse_time s r claimed_id none files = refl
  IsKept-successor_at load parse_time s r claimed_id (some mtime) files =
      if_cases (IsKept files) (not (listing_is_stale r mtime) || s.dir.listing_fails)
        (none, r, files) _ (λ idle. refl) (λ changed. IsKept-move_to_successor s _ _ files)

  IsNamed-follow_claimed :
      (claimed_id : Text) (files : ClaimFiles) (found : Found)
      → read_claim decode is_space files ≡ some claimed_id
      → IsKept files found
      → IsNamed decode is_space (follow_claimed claimed_id found)
  IsNamed-follow_claimed claimed_id files (none, r, after) claim same =
      (refl, ap (read_claim decode is_space) same ∙ claim)
  IsNamed-follow_claimed claimed_id files (some id, r, after) claim moved = (refl, moved)

  -- While the claimed transcript exists, a poll returns a path, and it is the one that the claim file names
  -- afterwards, whatever the resolver held before, whether a `/clear` moved the session on or not and
  -- whether the writes succeed.
  pub resolve-read_claim :
      (load : Text → Option Json) (parse_time : Text → Option ℕ) (s : Sight) (r : Resolver)
      (files : ClaimFiles) (path : Transcript)
      → claimed_transcript decode is_space s.dir files ≡ some path
      → IsNamed decode is_space (resolve decode is_space load parse_time s r files)
  unfolding resolve find_successor
  resolve-read_claim load parse_time s r files path found =
      let told : Resolver = record r { claimed_session_id = read_claim decode is_space files } in
      subst
        (λ c. IsNamed decode is_space (resolve_from decode is_space load parse_time s told c files))
        (sym found)
        (IsNamed-follow_claimed path.stem files _
          (claimed_transcript_claim decode is_space s.dir files path found)
          (IsKept-successor_at load parse_time s told path.stem s.dir_mtime files))
