-- ===== src/TurnEnd.antt =====
-- c_lord/turn_end_bus.py: what the transcript has said about each thread's turn boundaries. A
-- datetime is the number of microseconds of its instant, the monotonic clock is an argument in
-- milliseconds, and the tokens of running turns are numbered.
pub mod Verdicts
pub mod History
pub mod Grace
mod Examples
use c_lord.Prelude.{
  ℕ, zero, suc, ◌+◌, String, Bool, true, false, not, ◌&&◌, ◌||◌, Option, none, some, List, [], ◌∷◌,
  ◌++◌, ltb, leb, ◌==◌, if◌then◌else◌, keep, contains, length, nat_key, string_key,
}
use c_lord.Prelude.Dict.{Dict, get, has, insert, remove}
use c_lord.Prelude.Fifo.{evict}

abbrev pub max_threads : ℕ
max_threads = 2048

abbrev pub claim_grace : ℕ
claim_grace = 120000

-- A datetime with or without a zone, by the instant that it reads as in its own zone.
pub data Moment : Type 0 where
  naive aware : ℕ → Moment

-- A naive value is read as UTC.
unfoldable pub as_utc : Moment → ℕ
as_utc (naive n) = n
as_utc (aware n) = n

-- `_as_utc(at) if at is not None else datetime.now(_UTC)`
abbrev pub moment_of : Option Moment → ℕ → ℕ
moment_of none now = now
moment_of (some at) now = as_utc at

pub record ThreadTurns : Type 0 where
  pub prompt_at : Option ℕ
  pub ended_at : Option ℕ
  pub api_error : Option String

abbrev pub blank : ThreadTurns
blank = record { prompt_at = none; ended_at = none; api_error = none }

pub record TurnEndBus : Type 0 where
  pub threads : Dict ℕ ThreadTurns
  pub tailing : List ℕ
  pub pending_claim : Dict ℕ String
  pub claim_turn : Dict ℕ (String × ℕ)
  pub running_turn : Dict ℕ ℕ
  pub next_token : ℕ

unfoldable pub new_bus : TurnEndBus
new_bus = record {
  threads = [];
  tailing = [];
  pending_claim = [];
  claim_turn = [];
  running_turn = [];
  next_token = 0;
}

-- `_record`: the thread's record, made if it is missing; and the table with it.
unfoldable pub ensure_record : ℕ → Dict ℕ ThreadTurns → Dict ℕ ThreadTurns
ensure_record t threads =
    if has t threads then threads else evict max_threads (insert t blank threads)

abbrev pub record_in : ℕ → Dict ℕ ThreadTurns → ThreadTurns
record_in t threads = elim (get t threads) [ some r ↦ r | none ↦ blank ]

-- A field of `self._record(thread_id)` is assigned.
unfoldable pub on_record : ℕ → (ThreadTurns → ThreadTurns) → TurnEndBus → TurnEndBus
on_record t change b =
    let threads = ensure_record t b.threads in
    record b { threads = insert t (change (record_in t threads)) threads }

abbrev pub prompted : ℕ → ThreadTurns → ThreadTurns
prompted moment r = record r { prompt_at = some moment; api_error = none }

abbrev pub ended : ℕ → ThreadTurns → ThreadTurns
ended moment r = record r { ended_at = some moment }

abbrev pub replied : Option String → ThreadTurns → ThreadTurns
replied api_error r = record r { api_error = api_error }

unfoldable pub note_prompt : ℕ → Option Moment → ℕ → TurnEndBus → TurnEndBus
unfolding on_record
note_prompt t at now = on_record t (prompted (moment_of at now))

unfoldable pub mark : ℕ → Option Moment → ℕ → TurnEndBus → TurnEndBus
unfolding on_record
mark t at now = on_record t (ended (moment_of at now))

unfoldable pub note_reply : ℕ → Option String → TurnEndBus → TurnEndBus
unfolding on_record
note_reply t api_error = on_record t (replied api_error)

-- `record.prompt_at > started_at and record.ended_at >= record.prompt_at`
abbrev pub ended_since : Option ℕ → Option ℕ → ℕ → Bool
ended_since (some prompt_at) (some ended_at) started_at =
    ltb started_at prompt_at && leb prompt_at ended_at
ended_since _ _ started_at = false

unfoldable pub ended_after : ℕ → Moment → TurnEndBus → Bool
ended_after t started_at b = elim (get t b.threads) [
  | none ↦ false
  | some r ↦ ended_since r.prompt_at r.ended_at (as_utc started_at)
]

abbrev pub open_since : Option ℕ → Option ℕ → ℕ → Bool
open_since none ended_at started_at = false
open_since (some prompt_at) none started_at = not (leb prompt_at started_at)
open_since (some prompt_at) (some ended_at) started_at =
    if leb prompt_at started_at then false else ltb ended_at prompt_at

unfoldable pub in_flight_after : ℕ → Moment → TurnEndBus → Bool
in_flight_after t started_at b = elim (get t b.threads) [
  | none ↦ false
  | some r ↦ open_since r.prompt_at r.ended_at (as_utc started_at)
]

abbrev pub later_than : Option ℕ → ℕ → Bool
later_than none started_at = false
later_than (some prompt_at) started_at = ltb started_at prompt_at

unfoldable pub prompt_since : ℕ → Moment → TurnEndBus → Bool
prompt_since t started_at b = elim (get t b.threads) [
  | none ↦ false
  | some r ↦ later_than r.prompt_at (as_utc started_at)
]

unfoldable pub api_error_since : ℕ → Moment → TurnEndBus → Option String
unfolding ended_after
api_error_since t started_at b =
    if not (ended_after t started_at b) then none else (record_in t b.threads).api_error

unfoldable pub note_tailing : ℕ → Bool → TurnEndBus → TurnEndBus
note_tailing t live b =
    if live
    then (if contains t b.tailing then b else record b { tailing = b.tailing ++ (t ∷ []) })
    else record b { tailing = keep (λ u. not (u == t)) b.tailing }

-- `granted is None or granted[0] != key`
abbrev pub is_unspent : Option (String × ℕ) → String → Bool
is_unspent none key = true
is_unspent (some (name, at)) key = not (name == key)

unfoldable pub grant : ℕ → String → ℕ → TurnEndBus → TurnEndBus
grant t key now b =
    if is_unspent (get t b.claim_turn) key
    then record b { claim_turn = evict max_threads (insert t (key, now) (remove t b.claim_turn)) }
    else b

unfoldable pub note_pending_claim : ℕ → Option String → ℕ → TurnEndBus → TurnEndBus
note_pending_claim t none now b = record b { pending_claim = remove t b.pending_claim }
note_pending_claim t (some key) now b =
    let b' : TurnEndBus = record b { pending_claim = insert t key b.pending_claim } in
    if has t b'.running_turn then grant t key now b' else b'

-- `key = self._pending_claim.get(thread_id); if key is not None: self._grant(thread_id, key)`
unfoldable pub grant_pending : ℕ → Option String → ℕ → TurnEndBus → TurnEndBus
grant_pending t none now b = b
grant_pending t (some key) now b = grant t key now b

unfoldable pub note_turn_started : ℕ → ℕ → TurnEndBus → TurnEndBus × ℕ
note_turn_started t now b =
    let token = b.next_token in
    let b' : TurnEndBus = record b {
      running_turn = insert t token b.running_turn;
      next_token = suc token;
    } in
    (grant_pending t (get t b'.pending_claim) now b', token)

unfoldable pub note_turn_ended : ℕ → ℕ → TurnEndBus → TurnEndBus
note_turn_ended t token b = elim (get t b.running_turn) [
  | none ↦ b
  | some running ↦
      if running == token then record b { running_turn = remove t b.running_turn } else b
]

-- `key is None or granted is None or granted[0] != key`, and the grace since the grant.
abbrev pub in_grace : Option String → Option (String × ℕ) → ℕ → Bool
in_grace (some key) (some (name, at)) now = (name == key) && ltb now (at + claim_grace)
in_grace _ _ now = false

unfoldable pub is_tailing : ℕ → ℕ → TurnEndBus → Bool
is_tailing t now b =
    if contains t b.tailing then true else in_grace (get t b.pending_claim) (get t b.claim_turn) now

unfoldable pub ended_at : ℕ → TurnEndBus → Option ℕ
ended_at t b = elim (get t b.threads) [ none ↦ none | some r ↦ r.ended_at ]

unfoldable pub forget : ℕ → TurnEndBus → TurnEndBus
forget t b = record b {
  threads = remove t b.threads;
  tailing = keep (λ u. not (u == t)) b.tailing;
  pending_claim = remove t b.pending_claim;
  claim_turn = remove t b.claim_turn;
  running_turn = remove t b.running_turn;
}

unfoldable pub size : TurnEndBus → ℕ
size b = length b.threads
