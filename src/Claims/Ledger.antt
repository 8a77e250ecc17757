-- ===== src/Claims/Ledger.antt =====
-- What the claim files tell a reader, over any sequence of writes (c_lord/transcript/claim.py).
use c_lord.Prelude.Texts.{
  last_of, Text, parts_of, strip, take_whole, strip-append, length-last_of-le, last_of_few,
  All-last_of, All-append, All-keep, keep-IsTrue, text_key,
}
use c_lord.Prelude.{
  ℕ, ◌≤◌, Bool, true, false, not, ◌&&◌, Option, some, List, [], ◌∷◌, ◌++◌, ◌≡◌, refl, ap, ◌∙◌, inl,
  inr, Bool-cases, Option-cases, nat_key, take, keep, keep-All, length, length-append, ◌==◌,
  if◌then◌else◌, arith,
}
use c_lord.Claims.{
  max_history, newline, is_session_id, ClaimFiles, lines_of, history_in, claim_in, remembered,
  read_claim, read_claim_history, remember_claim, write_claim,
}
use c_lord.Claims.Names.{
  IsAscii, IsIds, is_name_char, length-is_session_id, is_session_id-IsAscii, is_session_id_solid,
  length-lines_of, lines_of-IsAscii, parts_of-lines_of,
}

-- A write of a session id: whether the claim and the history reach the disk.
pub record Write : Type 0 where
  pub session_id : Text
  pub claim_written : Bool
  pub history_written : Bool

-- The claim and the history that a reader sees.
abbrev pub Seen : Type 0
Seen = Option Text × List Text

-- The history with the id at its end, once, of at most 32 ids.
abbrev pub noted_last : Text → List Text → List Text
noted_last id history = last_of 32 (keep (λ i. not (i == id)) history ++ (id ∷ []))

-- A write in the reader's terms.
abbrev pub note_write : Write → Seen → Seen
note_write w (claim, history) =
    if is_session_id w.session_id && w.claim_written
    then (some w.session_id, if w.history_written then noted_last w.session_id history else history)
    else (claim, history)

abbrev pub note_writes : List Write → Seen → Seen
note_writes [] seen = seen
note_writes (w ∷ writes) seen = note_writes writes (note_write w seen)

remembered-IsIds :
    (id : Text) (history : List Text)
    → is_session_id id ≡ true
    → IsIds history
    → IsIds (remembered id history)
remembered-IsIds id history h k =
    All-last_of _ max_history _
      (All-append _ (keep (λ i. not (i == id)) history) (id ∷ []) (All-keep _ _ history k) (h, tt))

module _ (decode : Text → Text) (is_space : ℕ → Bool) where
  abbrev pub seen : ClaimFiles → Seen
  seen files = (read_claim decode is_space files, read_claim_history decode is_space files)

  abbrev pub write_all : List Write → ClaimFiles → ClaimFiles
  write_all [] files = files
  write_all (w ∷ writes) files =
      write_all writes
        (write_claim decode is_space w.claim_written w.history_written w.session_id files).1

module _ (decode : Text → Text) (is_space : ℕ → Bool)
    (ascii : (text : Text) → IsAscii text → decode text ≡ text) (cuts : is_space newline ≡ true)
    (solid : (c : ℕ) → is_name_char c ≡ true → is_space c ≡ false) where
  claim_in-newline :
      (id : Text)
      → is_session_id id ≡ true
      → claim_in decode is_space (id ++ (newline ∷ [])) ≡ some id
  claim_in-newline id h =
      let few : length (id ++ (newline ∷ [])) ≡ 37 =
        omega (arith, length-append id (newline ∷ []), length-is_session_id id h) in
      let whole : take 257 (id ++ (newline ∷ [])) ≡ id ++ (newline ∷ []) =
        take_whole 257 _ (omega (arith, few)) in
      let plain : decode (id ++ (newline ∷ [])) ≡ id ++ (newline ∷ []) =
        ascii _ (All-append _ id (newline ∷ []) (is_session_id-IsAscii id h) (omega arith, tt)) in
      let stripped : strip is_space (id ++ (newline ∷ [])) ≡ id =
        strip-append is_space newline id cuts (is_session_id_solid is_space solid id h) in
      rw (claim_in, whole, plain, stripped, few, h) refl

  history_in-lines_of :
      (ids : List Text)
      → IsIds ids
      → length ids ≤ max_history
      → history_in decode is_space (lines_of ids) ≡ ids
  history_in-lines_of ids h few =
      let whole : take 2112 (lines_of ids) ≡ lines_of ids =
        take_whole 2112 _ (omega (arith, length-lines_of ids h, few)) in
      let plain : decode (lines_of ids) ≡ lines_of ids = ascii _ (lines_of-IsAscii ids h) in
      rw
        (
          history_in,
          whole,
          plain,
          parts_of-lines_of is_space solid cuts ids h,
          keep-All is_session_id ids h,
        )
        (last_of_few max_history ids few)

  history_in-IsIds : (raw : Text) → IsIds (history_in decode is_space raw)
  history_in-IsIds raw =
      All-last_of _ max_history _
        (keep-IsTrue is_session_id (parts_of is_space (decode (take 2112 raw))))

  read_claim_history-IsIds : (files : ClaimFiles) → IsIds (read_claim_history decode is_space files)
  unfolding read_claim_history
  read_claim_history-IsIds files = elim (Option-cases files.history) [
    | inl missing ↦ rw missing tt
    | inr (raw, found) ↦ rw found (history_in-IsIds raw)
  ]

  seen-write_valid :
      (id : Text) (claimed noted : Bool) (files : ClaimFiles)
      → is_session_id id ≡ true
      → seen decode is_space (write_claim decode is_space claimed noted id files).1
        ≡ note_write
            (record { session_id = id; claim_written = claimed; history_written = noted })
            (seen decode is_space files)
  unfolding read_claim write_claim remember_claim read_claim_history
  seen-write_valid id true true files valid =
      let known = read_claim_history-IsIds files in
      let new = remembered id (read_claim_history decode is_space files) in
      let back : history_in decode is_space (lines_of new) ≡ new =
        history_in-lines_of new (remembered-IsIds id _ valid known) (
          length-last_of-le max_history
            (keep _ (read_claim_history decode is_space files) ++ (id ∷ []))) in
      rw (valid, claim_in-newline id valid, back) refl
  seen-write_valid id true false files valid = rw (valid, claim_in-newline id valid) refl
  seen-write_valid id false noted files valid = rw valid refl

  -- A claim that reaches the disk is the one that is read back, whatever became of the history.
  pub read_claim-write_claim :
      (id : Text) (noted : Bool) (files : ClaimFiles)
      → is_session_id id ≡ true
      → read_claim decode is_space (write_claim decode is_space true noted id files).1 ≡ some id
  unfolding read_claim write_claim remember_claim
  read_claim-write_claim id true files valid = rw valid (claim_in-newline id valid)
  read_claim-write_claim id false files valid = rw valid (claim_in-newline id valid)

  seen-write_claim :
      (w : Write) (files : ClaimFiles)
      → seen decode is_space
          (write_claim decode is_space w.claim_written w.history_written w.session_id files).1
        ≡ note_write w (seen decode is_space files)
  unfolding write_claim
  seen-write_claim w files = elim (Bool-cases (is_session_id w.session_id)) [
    | inl valid ↦ seen-write_valid w.session_id w.claim_written w.history_written files valid
    | inr bad ↦ rw bad refl
  ]

  -- For any sequence of writes that succeed or fail, from any state of the files, corrupted ones too,
  -- what a reader sees is what a pair of a last id and an ordered list would hold: a malformed id and
  -- a failed write of the claim change nothing, else the claim is the id, and if its write succeeds
  -- the history moves the id to its end and keeps the last 32.
  pub seen-write_all :
      (writes : List Write) (files : ClaimFiles)
      → seen decode is_space (write_all decode is_space writes files)
        ≡ note_writes writes (seen decode is_space files)
  seen-write_all [] files = refl
  seen-write_all (w ∷ writes) files =
      seen-write_all writes
        (write_claim decode is_space w.claim_written w.history_written w.session_id files).1
      ∙ ap (note_writes writes) (seen-write_claim w files)
