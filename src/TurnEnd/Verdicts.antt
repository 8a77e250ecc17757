-- ===== src/TurnEnd/Verdicts.antt =====
-- What the transcript's record lets a poll conclude (c_lord/turn_end_bus.py).
use c_lord.Prelude.{
  ℕ, ◌<◌, true, false, ◌&&◌, ◌||◌, Option, none, some, ◌≡◌, arith, nat_key, inl, inr, Option-cases,
}
use c_lord.Prelude.Dict.{get, get-insert_self, insert_new, Dict}
use c_lord.Prelude.Fifo.{get-evict_last}
use c_lord.TurnEnd.{
  TurnEndBus, ThreadTurns, Moment, as_utc, blank, ensure_record, record_in, on_record, moment_of,
  note_prompt, ended_after, in_flight_after, prompt_since, api_error_since, prompted,
}

-- A turn that the transcript shows to have begun after the call began is either still in flight or
-- over, never both; without such a turn it is neither.
pub turn_trichotomy :
    (t : ℕ) (started_at : Moment) (b : TurnEndBus)
    → (prompt_since t started_at b ≡ (ended_after t started_at b || in_flight_after t started_at b))
      × ((ended_after t started_at b && in_flight_after t started_at b) ≡ false)
unfolding prompt_since ended_after in_flight_after
turn_trichotomy t started_at b = (ground arith, ground arith)

pub get-ensure_record :
    (t : ℕ) (d : Dict ℕ ThreadTurns) → (r : ThreadTurns) × (get t (ensure_record t d) ≡ some r)
unfolding ensure_record
get-ensure_record t d = elim (Option-cases (get t d)) [
  | inr (r, e) ↦ (r, ground arith)
  | inl e ↦ (blank, rw (e, insert_new t blank d e) (get-evict_last 2047 t blank d e))
]

pub get-on_record :
    (t : ℕ) (f : ThreadTurns → ThreadTurns) (b : TurnEndBus)
    → get t (on_record t f b).threads ≡ some (f (record_in t (ensure_record t b.threads)))
unfolding on_record
get-on_record t f b =
    get-insert_self t (f (record_in t (ensure_record t b.threads))) (ensure_record t b.threads)

-- An ending that was recorded before the instruction is not the new turn's: right after the
-- instruction is read, at a moment past the start of the call and past every recorded ending, the
-- turn is in flight and not over, and no earlier API error is its outcome.
pub note_prompt_opens :
    (t now : ℕ) (at : Option Moment) (started_at : Moment) (b : TurnEndBus)
    → as_utc started_at < moment_of at now
    → ((e : ℕ) → (record_in t (ensure_record t b.threads)).ended_at ≡ some e → e < moment_of at now)
    → (in_flight_after t started_at (note_prompt t at now b) ≡ true)
      × (ended_after t started_at (note_prompt t at now b) ≡ false)
      × (api_error_since t started_at (note_prompt t at now b) ≡ none)
unfolding in_flight_after ended_after note_prompt api_error_since
note_prompt_opens t now at started_at b h g =
    elim (Option-cases (record_in t (ensure_record t b.threads)).ended_at) [
      | inl e ↦ (ground (arith, q), ground (arith, q), ground (arith, q))
      | inr (m, e) ↦ (ground (arith, q, g m), ground (arith, q, g m), ground (arith, q, g m))
    ]
  where
    q :
        get t (on_record t (prompted (moment_of at now)) b).threads
        ≡ some (prompted (moment_of at now) (record_in t (ensure_record t b.threads)))
    q = get-on_record t (prompted (moment_of at now)) b
