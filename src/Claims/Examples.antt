-- ===== src/Claims/Examples.antt =====
-- Claims of two sessions, and the theorems at them.
use c_lord.Prelude.Texts.{Text}
use c_lord.Prelude.{
  ℕ, zero, suc, true, false, ◌==◌, nat_key, if◌then◌else◌, Option, none, some, List, [], ◌∷◌, ◌++◌,
  ◌≡◌, refl, arith,
}
use c_lord.Claims.{newline, is_session_id, ClaimFiles, read_claim, write_claim, remember_claim}
use c_lord.Claims.Names.{is_name_char}
use c_lord.Claims.Ledger.{Write, note_writes, seen, write_all, seen-write_all}
use c_lord.Claims.Successor.{
  Transcript, Json, json_text, json_object, no_members, member, clear_content_prefix, content_key,
  is_blank_byte, started_at, head_events, starts_with_clear, cleared_at,
}
use c_lord.Claims.Choice.{
  ProjectDir, returned, clear_successor, adopt_cleared_session, choose, sort_newest,
}
use c_lord.Claims.Takeover.{IsRightSuccessor, clear_successor-IsRightSuccessor}
use c_lord.Claims.Adopt.{IsRightAdoption, adopt_cleared_session-IsRightAdoption}

abbrev pub digits : ℕ → ℕ → Text → Text
digits zero c text = text
digits (suc n) c text = c ∷ digits n c text

-- A session id of one digit.
abbrev pub session : ℕ → Text
session c = digits 8 c (45 ∷ digits 4 c (45 ∷ digits 4 c (45 ∷ digits 4 c (45 ∷ digits 12 c []))))

abbrev pub plain : Text → Text
plain text = text

pub solid : (c : ℕ) → is_name_char c ≡ true → is_blank_byte c ≡ false
solid c h = ground (arith, h)

-- A claim file that was overwritten by something else.
abbrev broken : ClaimFiles
broken = record { claim = some (47 ∷ 46 ∷ 46 ∷ []); history = none }

abbrev writes : List Write
writes =
    record { session_id = session 49; claim_written = true; history_written = true }
    ∷ record { session_id = 47 ∷ []; claim_written = true; history_written = true }
    ∷ record { session_id = session 97; claim_written = true; history_written = true }
    ∷ record { session_id = session 49; claim_written = true; history_written = true }
    ∷ record { session_id = session 50; claim_written = false; history_written = true }
    ∷ []

no_claim : read_claim plain is_blank_byte broken ≡ none
unfolding read_claim is_session_id
no_claim = refl

seen_last : note_writes writes (none, []) ≡ (some (session 49), session 97 ∷ session 49 ∷ [])
unfolding is_session_id
seen_last = refl

seen-write_all_example :
    seen plain is_blank_byte (write_all plain is_blank_byte writes broken)
    ≡ note_writes writes (seen plain is_blank_byte broken)
seen-write_all_example =
    seen-write_all plain is_blank_byte (λ text h. refl) refl solid writes broken

-- A line of a transcript is read by its first character: `u` is a user event with a `/clear`, at 2000,
-- and `s` a system event at 1000.
abbrev pub load : Text → Option Json
load [] = none
load (c ∷ line) =
    if c == 117
    then some (
        json_object (
          member (116 ∷ 121 ∷ 112 ∷ 101 ∷ []) (json_text (117 ∷ 115 ∷ 101 ∷ 114 ∷ [])) (
            member (109 ∷ 101 ∷ 115 ∷ 115 ∷ 97 ∷ 103 ∷ 101 ∷ [])
              (json_object (
                member (99 ∷ 111 ∷ 110 ∷ 116 ∷ 101 ∷ 110 ∷ 116 ∷ [])
                  (json_text clear_content_prefix) no_members))
              (member (116 ∷ 105 ∷ 109 ∷ 101 ∷ 115 ∷ 116 ∷ 97 ∷ 109 ∷ 112 ∷ [])
                (json_text (50 ∷ [])) no_members))))
    else some (
        json_object (
          member (116 ∷ 105 ∷ 109 ∷ 101 ∷ 115 ∷ 116 ∷ 97 ∷ 109 ∷ 112 ∷ []) (json_text (49 ∷ []))
            no_members))

abbrev pub parse_time : Text → Option ℕ
parse_time [] = none
parse_time (c ∷ text) = if c == 50 then some 2000 else some 1000

abbrev pub old : Transcript
old = record {
  stem = session 49;
  is_file = true;
  mtime = some 1500;
  size = 2;
  bytes = some (115 ∷ 10 ∷ []);
}

abbrev pub new : Transcript
new = record {
  stem = session 97;
  is_file = true;
  mtime = some 2100;
  size = 2;
  bytes = some (117 ∷ 10 ∷ []);
}

abbrev pub dir : ProjectDir
dir = record { transcripts = old ∷ new ∷ []; listing_fails = false }

moved_on :
    clear_successor load parse_time (cleared_at load parse_time) dir (session 49)
    ≡ some (session 97)
unfolding clear_successor cleared_at is_session_id choose started_at
moved_on = refl

clear_successor-IsRightSuccessor_example :
    IsRightSuccessor
      (cleared_at load parse_time)
      (session 49)
      (started_at load parse_time (head_events load parse_time old))
      1500
      (old ∷ new ∷ [])
      (clear_successor load parse_time (cleared_at load parse_time) dir (session 49))
clear_successor-IsRightSuccessor_example =
    clear_successor-IsRightSuccessor load parse_time (cleared_at load parse_time) dir (session 49)
      old 1500 refl refl refl

-- A transcript that starts with a `/clear`.
abbrev cleared : Transcript
cleared = record {
  stem = session 98;
  is_file = true;
  mtime = some 3000;
  size = 50;
  bytes = some (content_key ++ (58 ∷ 32 ∷ 34 ∷ clear_content_prefix));
}

adopted_new :
    adopt_cleared_session plain is_blank_byte true false
      (record { transcripts = old ∷ cleared ∷ []; listing_fails = false })
      (session 49 ∷ [])
      broken
    ≡ returned
        (some (session 98))
        (record { claim = some (session 98 ++ (newline ∷ [])); history = none })
unfolding adopt_cleared_session sort_newest starts_with_clear is_session_id write_claim
    remember_claim
adopted_new = refl

adopt_cleared_session-IsRightAdoption_example :
    IsRightAdoption plain is_blank_byte (old ∷ cleared ∷ []) (session 49 ∷ []) broken (
      adopt_cleared_session plain is_blank_byte true false
        (record { transcripts = old ∷ cleared ∷ []; listing_fails = false })
        (session 49 ∷ [])
        broken)
adopt_cleared_session-IsRightAdoption_example =
    adopt_cleared_session-IsRightAdoption plain is_blank_byte (λ text h. refl) refl solid true false
      (record { transcripts = old ∷ cleared ∷ []; listing_fails = false }) (session 49 ∷ []) broken
