-- ===== src/Claims.antt =====
-- The name of a thread's session, kept beside its transcripts (c_lord/transcript/claim.py): the claim
-- file and the history of claims. A file's content is its bytes, `none` for a missing or unreadable
-- file; `decode` is `bytes.decode("utf-8", errors="replace")` and `is_space` is Python's test of white
-- space. A write to disk succeeds or raises OSError as an argument tells.
pub mod Names
pub mod Ledger
pub mod Successor
pub mod Choice
pub mod Latest
pub mod Takeover
pub mod Adopt
pub mod Examples
use c_lord.Prelude.Texts.{Text, parts_of, strip, last_of, text_key}
use c_lord.Prelude.{
  ℕ, zero, suc, ◌*◌, ◌/◌, Bool, true, false, not, ◌&&◌, ◌||◌, Option, none, some, List, [], ◌∷◌,
  ◌++◌, nat_key, keep, take, length, ltb, leb, ◌==◌, if◌then◌else◌,
}

abbrev pub max_history : ℕ
max_history = 32

abbrev pub max_claim_bytes : ℕ
max_claim_bytes = 256

abbrev pub newline : ℕ
newline = 10

-- `[0-9a-fA-F]`
abbrev pub is_hex : ℕ → Bool
is_hex c = (leb 48 c && leb c 57) || (leb 65 c && leb c 70) || (leb 97 c && leb c 102)

abbrev pub hexes_then : ℕ → List Bool → List Bool
hexes_then zero slots = slots
hexes_then (suc n) slots = true ∷ hexes_then n slots

-- The session-id pattern, a slot for each character: `true` is a hexadecimal digit, `false` a dash.
abbrev pub session_id_slots : List Bool
session_id_slots =
    hexes_then 8 (
      false ∷ hexes_then 4 (false ∷ hexes_then 4 (false ∷ hexes_then 4 (false ∷ hexes_then 12 []))))

abbrev pub fits_slot : Bool → ℕ → Bool
fits_slot true c = is_hex c
fits_slot false c = c == 45

abbrev pub fits : List Bool → Text → Bool
fits [] [] = true
fits [] (c ∷ text) = false
fits (slot ∷ slots) [] = false
fits (slot ∷ slots) (c ∷ text) = fits_slot slot c && fits slots text

unfoldable pub is_session_id : Text → Bool
is_session_id value = fits session_id_slots value

-- The two dot-files of a project directory.
pub record ClaimFiles : Type 0 where
  pub claim : Option Text
  pub history : Option Text

abbrev pub lines_of : List Text → Text
lines_of [] = []
lines_of (line ∷ lines) = line ++ (newline ∷ lines_of lines)

-- The ids to write: the new one last, once, and the oldest ones dropped.
abbrev pub remembered : Text → List Text → List Text
remembered session_id history =
    last_of max_history (keep (λ i. not (i == session_id)) history ++ (session_id ∷ []))

module _ (decode : Text → Text) (is_space : ℕ → Bool) where
  abbrev pub history_in : Text → List Text
  history_in raw = last_of max_history (
      keep is_session_id
        (parts_of is_space (decode (take (max_claim_bytes / 4 * suc max_history) raw))))

  -- Every session id claimed here, oldest first.
  unfoldable pub read_claim_history : ClaimFiles → List Text
  read_claim_history files = elim (files.history) [ none ↦ [] | some raw ↦ history_in raw ]

  abbrev pub claim_in : Text → Option Text
  claim_in raw =
      let value = strip is_space (decode (take (suc max_claim_bytes) raw)) in
      if ltb max_claim_bytes (length (take (suc max_claim_bytes) raw))
      then none
      else (if is_session_id value then some value else none)

  -- The session id that was started last.
  unfoldable pub read_claim : ClaimFiles → Option Text
  read_claim files = elim (files.claim) [ none ↦ none | some raw ↦ claim_in raw ]

  unfoldable pub remember_claim : Bool → Text → ClaimFiles → ClaimFiles
  remember_claim written session_id files =
      if written
      then record files {
        history = some (lines_of (remembered session_id (read_claim_history files)));
      }
      else files

  -- `claim_written` and `history_written` tell whether the two writes succeed.
  unfoldable pub write_claim : Bool → Bool → Text → ClaimFiles → Bool × ClaimFiles
  write_claim claim_written history_written session_id files =
      if not (is_session_id session_id)
      then (false, files)
      else (if claim_written
          then (
            true,
            remember_claim history_written session_id
                (record files { claim = some (session_id ++ (newline ∷ [])) }),
          )
          else (false, files))
